-- ===== src/Socks5/Handshake.antt =====
-- The messages of the handshake on the connection: what `feed_parser` keeps, and the handlers of the
-- negotiation.
use protos_tpe.Prelude.{
  ℕ, ◌≡◌, refl, sym, ap, ◌∙◌, Bool, true, false, Option, some, List, ◌++◌, arith, append_assoc,
}
use protos_tpe.Buffer.{Buffer, contents, can_read}
use protos_tpe.Negotiation
use protos_tpe.Negotiation.{NegState, method_noauth, method_userpass, method_none, choose_method}
use protos_tpe.Auth
use protos_tpe.Auth.{AuthState, auth_ok}
use protos_tpe.Request
use protos_tpe.Request.{ReqState}
use protos_tpe.Users.{Users, validate}
use protos_tpe.Socks5.{State, code, Conn, Key, is_client}
use protos_tpe.Socks5.Os.{Os}
use protos_tpe.Socks5.Phases.{
  neg_verdict, auth_verdict, req_verdict, is_final, feed_negotiation, feed_auth, feed_request,
}
use protos_tpe.Socks5.Machine.{is_read_state}
use protos_tpe.Socks5.Fire.{arrive}
use protos_tpe.Socks5.Feeding.{Slot, FedKey}
use protos_tpe.Socks5.Holds.{Buffers, Ledger, Holds}

-- What the server's store of users tells at this moment.
pub record Seen (Open : Type 0) (Accepts : Auth.Parser → Type 0) (u : Users) : Type 0 where
  pub open_when : u.count ≡ 0 → Open
  pub accepts_when :
      (p : Auth.Parser) → validate u p.uname p.ulen p.passwd p.plen ≡ true → Accepts p

-- A handler runs without a fault, and what holds in the next state holds behind its arrival. A read
-- handler that wants another message leaves nothing to read.
pub record Leaves (os : Os) (client : ℕ) (Open : Type 0) (Accepts : Auth.Parser → Type 0)
    (users : Option Users) (reads : Bool) (s : State) (m : Option (State × Key)) : Type 0 where
  pub next : State
  pub key : Key
  pub runs : m ≡ some (next, key)
  pub holds : Holds client Open Accepts next (arrive os s next key)
  pub same_users :
      is_read_state (code next) ≡ true → (key.server.users_store ≡ users) × (is_client key ≡ true)
  pub quiet :
      reads ≡ true → is_read_state (code next) ≡ true → can_read key.conn.read_buffer ≡ false

pub neg_verdicts : (s : NegState) → is_final (neg_verdict s) ≡ Negotiation.finished_state s
neg_verdicts NegState.version = refl
neg_verdicts NegState.nmethods = refl
neg_verdicts NegState.methods = refl
neg_verdicts NegState.done = refl
neg_verdicts NegState.invalid = refl

pub auth_verdicts : (s : AuthState) → is_final (auth_verdict s) ≡ Auth.finished_state s
auth_verdicts AuthState.ver = refl
auth_verdicts AuthState.ulen_byte = refl
auth_verdicts AuthState.uname_bytes = refl
auth_verdicts AuthState.plen_byte = refl
auth_verdicts AuthState.passwd_bytes = refl
auth_verdicts AuthState.done = refl
auth_verdicts AuthState.error = refl

pub req_verdicts : (s : ReqState) → is_final (req_verdict s) ≡ Request.finished_state s
req_verdicts ReqState.ver = refl
req_verdicts ReqState.cmd_byte = refl
req_verdicts ReqState.rsv = refl
req_verdicts ReqState.atyp_byte = refl
req_verdicts ReqState.dlen = refl
req_verdicts ReqState.daddr = refl
req_verdicts ReqState.dport = refl
req_verdicts ReqState.done = refl
req_verdicts ReqState.error = refl

abbrev pub put_neg : Negotiation.Parser → Buffer → List ℕ → Conn → Conn
put_neg p b g c = record c { neg = p; read_buffer = b; parsed = g }

abbrev pub put_auth : Auth.Parser → Buffer → List ℕ → Conn → Conn
put_auth p b g c = record c { auth = p; read_buffer = b; parsed = g }

abbrev pub put_request : Request.Parser → Buffer → List ℕ → Conn → Conn
put_request p b g c = record c { request = p; read_buffer = b; parsed = g }

abbrev pub NegSlot : Type 0
NegSlot =
    Slot Negotiation.finished Negotiation.step (λ c. c.neg) put_neg feed_negotiation
      (λ c. neg_verdict c.neg.state)

abbrev pub AuthSlot : Type 0
AuthSlot =
    Slot Auth.finished Auth.step (λ c. c.auth) put_auth feed_auth (λ c. auth_verdict c.auth.state)

abbrev pub ReqSlot : Type 0
ReqSlot =
    Slot Request.finished Request.step (λ c. c.request) put_request feed_request
      (λ c. req_verdict c.request.state)

pub neg_slot : NegSlot
unfolding feed_negotiation Negotiation.parser_feed
neg_slot = record {
  feeds = λ c. refl;
  get-put = λ p b g c. refl;
  parsed-put = λ p b g c. refl;
  buffer-put = λ p b g c. refl;
  client-put = λ p b g c. refl;
  put-put = λ p q b d g h c. refl;
  refill = λ p b d g c. refl;
  verdicts = λ c. neg_verdicts c.neg.state;
}

pub auth_slot : AuthSlot
unfolding feed_auth Auth.parser_feed
auth_slot = record {
  feeds = λ c. refl;
  get-put = λ p b g c. refl;
  parsed-put = λ p b g c. refl;
  buffer-put = λ p b g c. refl;
  client-put = λ p b g c. refl;
  put-put = λ p q b d g h c. refl;
  refill = λ p b d g c. refl;
  verdicts = λ c. auth_verdicts c.auth.state;
}

pub req_slot : ReqSlot
unfolding feed_request Request.parser_feed
req_slot = record {
  feeds = λ c. refl;
  get-put = λ p b g c. refl;
  parsed-put = λ p b g c. refl;
  buffer-put = λ p b g c. refl;
  client-put = λ p b g c. refl;
  put-put = λ p q b d g h c. refl;
  refill = λ p b d g c. refl;
  verdicts = λ c. req_verdicts c.request.state;
}

-- The buffers and the ledger behind `feed_parser`.
module _ {P : Type 0} {finished : P → Bool} {get : Conn → P}
    {put : P → Buffer → List ℕ → Conn → Conn} {run : Option (Bool × Key)} {k : Key}
    (f : FedKey finished get put run k) where
  pub fed_Buffers :
      Buffers k.conn.read_buffer k.conn.write_buffer → Buffers f.buffer k.conn.write_buffer
  fed_Buffers b = record {
    read_valid = f.valid;
    read_drained = f.drained;
    read_size = omega (arith, f.same_limit, b.read_size);
    write_valid = b.write_valid;
    write_drained = b.write_drained;
    write_size = b.write_size;
  }

  pub fed_Ledger :
      {up down : List ℕ} {oh ch : Bool}
      → Ledger k.conn.parsed (contents k.conn.read_buffer) k.net.from_client up down oh ch
      → Ledger
          (k.conn.parsed ++ f.gone)
          (contents f.buffer)
          (k.net.from_client ++ f.came)
          up
          down
          oh
          ch
  fed_Ledger l = record {
    upload =
        ap (λ xs. xs ++ f.came) l.upload
        ∙ append_assoc k.conn.parsed (contents k.conn.read_buffer) f.came
        ∙ ap (λ xs. k.conn.parsed ++ xs) f.split
        ∙ sym (append_assoc k.conn.parsed f.gone (contents f.buffer));
    no_upload = l.no_upload;
    no_download = l.no_download;
    origin_open = l.origin_open;
    client_open = l.client_open;
  }
