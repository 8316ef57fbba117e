-- ===== src/Socks5/Life.antt =====
-- The life of a connection of server/socks5.c: what holds between two events.
use protos_tpe.Prelude.{
  ℕ, ◌≡◌, refl, sym, ap, ◌∙◌, Bool, true, false, Option, none, some, List, if◌then◌else◌, inl, inr,
  ◌⊎◌,
}
use protos_tpe.Auth
use protos_tpe.Users.{Users}
use protos_tpe.Stm.{Event, read_ready, write_ready, block_ready}
use protos_tpe.Selector.{Interest}
use protos_tpe.Socks5.{
  State, neg_read, neg_write, auth_read, auth_write, req_read, req_resolve, req_connecting,
  req_write, relay, finished, failed, Key, is_client, noop, reading, writing,
}
use protos_tpe.Socks5.Os.{Os}
use protos_tpe.Socks5.Machine.{handler_of}
use protos_tpe.Socks5.Forward.{frame}
use protos_tpe.Socks5.Delivery.{InRelay}
use protos_tpe.Socks5.Arrivals.{key_armed}
use protos_tpe.Socks5.Holds.{Holds, Documented}
use protos_tpe.Socks5.Candidates.{request_connecting_lem}
use protos_tpe.Socks5.Handshake.{Seen, Leaves}
use protos_tpe.Socks5.Negotiating.{negotiation_read_lem}
use protos_tpe.Socks5.Authenticating.{read_auth_lem}
use protos_tpe.Socks5.Requesting.{Yields-Leaves, read_request_lem}
use protos_tpe.Socks5.Writes.{negotiation_write_lem, write_auth_lem}
use protos_tpe.Socks5.Relaying.{write_request_lem, relay_Leaves}

-- The states that are not terminal.
abbrev pub IsLive : State → Type 0
IsLive finished = ⊥
IsLive failed = ⊥
IsLive _ = Unit {0}

-- The event is on the client's descriptor, or on the origin's.
abbrev pub OnClient : Key → Type 0
OnClient k = is_client k ≡ true

abbrev pub OnOrigin : Key → Type 0
OnOrigin k = (is_client k ≡ false) × ((o : ℕ) × (k.conn.origin_fd ≡ some o))

-- What the selector reports: what it is armed for, and the end of a job, on the client's descriptor.
abbrev pub Reported : Event → Key → Type 0
Reported read_ready k = (OnClient k ⊎ OnOrigin k) × ((key_armed k).op_read ≡ true)
Reported write_ready k = (OnClient k ⊎ OnOrigin k) × ((key_armed k).op_write ≡ true)
Reported block_ready k = OnClient k

pub client_armed_is :
    (k : Key) (i : Interest) → OnClient k → k.net.client_armed ≡ i → key_armed k ≡ i
client_armed_is k i c e = ap (λ b. if b then k.net.client_armed else k.net.origin_armed) c ∙ e

origin_armed_is : (k : Key) (i : Interest) → OnOrigin k → k.net.origin_armed ≡ i → key_armed k ≡ i
origin_armed_is k i o e = ap (λ b. if b then k.net.client_armed else k.net.origin_armed) o.0 ∙ e

-- Without an origin the event is on the client's descriptor.
client_only : (k : Key) → k.conn.origin_fd ≡ none → OnClient k ⊎ OnOrigin k → OnClient k
client_only k e (inl c) = c
client_only k e (inr (_, (o, there))) = absurd (cc (e, there))

abbrev pub reads_of : Event → Bool
reads_of read_ready = true
reads_of _ = false

-- The handler of a reported event, and what it keeps.
pub record Handled (os : Os) (client : ℕ) (Open : Type 0) (Accepts : Auth.Parser → Type 0)
    (users : Option Users) (e : Event) (s : State) (k : Key) : Type 0 where
  pub handler : Key → Option (State × Key)
  pub found : handler_of os e s ≡ some handler
  pub leaves : Leaves os client Open Accepts users (reads_of e) s (handler k)

-- The relay is entered without an error.
abbrev pub Settled : State → Key → Type 0
Settled relay k = (replies : List ℕ) × InRelay k.conn.parsed replies (frame k.conn) k
Settled _ k = Unit {0}

module _ (os : Os) (client : ℕ) (Open : Type 0) (Accepts : Auth.Parser → Type 0)
    (system : Documented os client) where
  -- Nothing is reported that is not armed.
  not_armed :
      {A : Type 0} (k : Key) (i : Interest)
      → key_armed k ≡ i
      → (key_armed k).op_read ≡ true
      → i.op_read ≡ false
      → A
  not_armed k i e r f = absurd (cc (sym r ∙ ap (λ j. j.op_read) e ∙ f))

  not_armed_write :
      {A : Type 0} (k : Key) (i : Interest)
      → key_armed k ≡ i
      → (key_armed k).op_write ≡ true
      → i.op_write ≡ false
      → A
  not_armed_write k i e r f = absurd (cc (sym r ∙ ap (λ j. j.op_write) e ∙ f))

  pub reads_lem :
      (s : State) (k : Key) (u : Users)
      → Seen Open Accepts u
      → k.server.users_store ≡ some u
      → IsLive s
      → Holds client Open Accepts s k
      → Settled s k
      → Reported read_ready k
      → Handled os client Open Accepts (some u) read_ready s k
  unfolding handler_of
  reads_lem neg_read k u seen same live h settled (on, armed) = record {
    handler = _;
    found = refl;
    leaves = negotiation_read_lem os client Open Accepts k u seen same (client_only k h.3 on) h;
  }
  reads_lem neg_write k u seen same live h settled (on, armed) =
      not_armed k writing (client_armed_is k writing (client_only k h.1 on) h.0.2) armed refl
  reads_lem auth_read k u seen same live h settled (on, armed) = record {
    handler = _;
    found = refl;
    leaves = read_auth_lem os client Open Accepts k u seen same (client_only k h.3 on) h;
  }
  reads_lem auth_write k u seen same live h settled (on, armed) =
      not_armed k writing (client_armed_is k writing (client_only k h.1 on) h.0.2) armed refl
  reads_lem req_read k u seen same live h settled (on, armed) = record {
    handler = _;
    found = refl;
    leaves =
        read_request_lem os client Open Accepts system k (some u) same (client_only k h.0.3 on) h.0
          h.1 h.2;
  }
  reads_lem req_resolve k u seen same live h settled (on, armed) =
      not_armed k noop (client_armed_is k noop (client_only k h.1 on) h.3) armed refl
  reads_lem req_connecting k u seen same live h settled (inl c, armed) =
      not_armed k noop (client_armed_is k noop c h.3) armed refl
  reads_lem req_connecting k u seen same live h settled (inr o, armed) =
      not_armed k writing (origin_armed_is k writing o h.4) armed refl
  reads_lem req_write k u seen same live h settled (inl c, armed) =
      not_armed k writing (client_armed_is k writing c h.0.2) armed refl
  reads_lem req_write k u seen same live (r, a, c, inl none_) settled (inr o, armed) =
      absurd (cc (none_, o.1.1))
  reads_lem req_write k u seen same live (r, a, c, inr idle) settled (inr o, armed) =
      not_armed k noop (origin_armed_is k noop o idle) armed refl
  reads_lem relay k u seen same live h (replies, r) (on, armed) = record {
    handler = _;
    found = refl;
    leaves = (relay_Leaves os client Open Accepts replies k (some u) h.0.0 h.1 r).0 armed;
  }
  reads_lem finished k u seen same live h settled _ = elim live [ ]
  reads_lem failed k u seen same live h settled _ = elim live [ ]

  pub writes_lem :
      (s : State) (k : Key) (u : Users)
      → Seen Open Accepts u
      → k.server.users_store ≡ some u
      → IsLive s
      → Holds client Open Accepts s k
      → Settled s k
      → Reported write_ready k
      → Handled os client Open Accepts (some u) write_ready s k
  unfolding handler_of
  writes_lem neg_read k u seen same live h settled (on, armed) =
      not_armed_write k reading (client_armed_is k reading (client_only k h.3 on) h.2) armed refl
  writes_lem neg_write k u seen same live h settled (on, armed) = record {
    handler = _;
    found = refl;
    leaves = negotiation_write_lem os client Open Accepts k (some u) same (client_only k h.1 on) h;
  }
  writes_lem auth_read k u seen same live h settled (on, armed) =
      not_armed_write k reading (client_armed_is k reading (client_only k h.3 on) h.2) armed refl
  writes_lem auth_write k u seen same live h settled (on, armed) = record {
    handler = _;
    found = refl;
    leaves = write_auth_lem os client Open Accepts k (some u) same (client_only k h.1 on) h;
  }
  writes_lem req_read k u seen same live h settled (on, armed) =
      not_armed_write k reading (client_armed_is k reading (client_only k h.0.3 on) h.0.2) armed
        refl
  writes_lem req_resolve k u seen same live h settled (on, armed) =
      not_armed_write k noop (client_armed_is k noop (client_only k h.1 on) h.3) armed refl
  writes_lem req_connecting k u seen same live h settled (on, armed) = record {
    handler = _;
    found = refl;
    leaves =
        Yields-Leaves os client Open Accepts false req_connecting (some u) _
          (request_connecting_lem os client Open Accepts system k (some u) same h.0 h.1 h.2);
  }
  writes_lem req_write k u seen same live h settled (on, armed) = record {
    handler = _;
    found = refl;
    leaves = write_request_lem os client Open Accepts k (some u) h;
  }
  writes_lem relay k u seen same live h (replies, r) (on, armed) = record {
    handler = _;
    found = refl;
    leaves = (relay_Leaves os client Open Accepts replies k (some u) h.0.0 h.1 r).1;
  }
  writes_lem finished k u seen same live h settled _ = elim live [ ]
  writes_lem failed k u seen same live h settled _ = elim live [ ]
