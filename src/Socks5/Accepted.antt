-- ===== src/Socks5/Accepted.antt =====
-- A connection from its acceptance on, and who may use it.
use protos_tpe.Prelude.{
  ℕ, ◌≤◌, ◌≡◌, refl, sym, ap, ◌∙◌, subst, Bool, true, false, ◌&&◌, Option, none, some, List, [],
  ◌∷◌, arith, inl, inr, ◌⊎◌, zero, suc, length, ltb,
}
use protos_tpe.Buffer
use protos_tpe.Buffer.{IsValid, contents, reset}
use protos_tpe.Auth
use protos_tpe.Users.{Users, validate}
use protos_tpe.Socks5.{
  State, neg_read, neg_write, auth_read, auth_write, req_read, req_resolve, req_connecting,
  req_write, relay, finished, failed, code, Key, Server,
}
use protos_tpe.Socks5.Os.{Os}
use protos_tpe.Socks5.Machine.{Socket, on_conn}
use protos_tpe.Socks5.Phases.{negotiation_read_init}
use protos_tpe.Socks5.Fire.{socket}
use protos_tpe.Socks5.Accept.{Heap, storage, new_conn, fresh_net}
use protos_tpe.Socks5.Holds.{Buffers, Holds, Admits, Documented}
use protos_tpe.Socks5.Course.{Course, starts, rests, over}
use protos_tpe.Socks5.Serving.{Report, serve}
use protos_tpe.Socks5.Served.{Told, serve_lem}

-- The connection that `socks5_passive_accept` hands to the selector.
abbrev pub accepted : ℕ → ℕ → Heap → ℕ → Server → Key
accepted client size heap now server = record {
  fd = client;
  conn = new_conn client size heap now;
  net = fresh_net;
  server = server;
}

length-storage : (cells : ℕ → ℕ) (n : ℕ) → length (storage cells n) ≡ n
length-storage cells zero = omega arith
length-storage cells (suc n) = omega (arith, length-storage cells n)

storage-IsValid : (cells : ℕ → ℕ) (n : ℕ) → IsValid (Buffer.init n (storage cells n))
unfolding Buffer.init reset
storage-IsValid cells n = record {
  storage = omega (arith, length-storage cells n);
  read_le = omega arith;
  write_le = omega arith;
}

accepted-Buffers :
    (client size : ℕ) (heap : Heap) (now : ℕ)
    → 512 ≤ size
    → Buffers
        (new_conn client size heap now).read_buffer
        (new_conn client size heap now).write_buffer
unfolding new_conn Buffer.init reset
accepted-Buffers client size heap now room = record {
  read_valid = storage-IsValid heap.raw_read size;
  read_drained = λ _. refl;
  read_size = room;
  write_valid = storage-IsValid heap.raw_write size;
  write_drained = λ _. refl;
  write_size = room;
}

pub accepted-Holds :
    (client size : ℕ) (heap : Heap) (now : ℕ) (server : Server) (Open : Type 0)
    (Accepts : Auth.Parser → Type 0)
    → 512 ≤ size
    → Holds client Open Accepts neg_read
        (on_conn negotiation_read_init (accepted client size heap now server))
unfolding new_conn Buffer.init reset
accepted-Holds client size heap now server Open Accepts room = (
  (
    accepted-Buffers client size heap now room,
    record { client_there = refl; distinct = λ o e. absurd (cc e); counted = refl; alive = refl },
    record {
      upload = refl;
      no_upload = refl;
      no_download = refl;
      origin_open = refl;
      client_open = refl;
    },
    record { client_noop = refl; origin_noop = refl; no_error = refl },
  ),
  refl,
  refl,
  refl,
)

-- One of the stores of users that were seen.
abbrev pub SomeStore : (Users → Type 0) → List Report → Type 0
SomeStore P [] = ⊥
SomeStore P (r ∷ rs) = P r.users ⊎ SomeStore P rs

-- The server has been seen without users, or accepting the credentials of a parser.
abbrev pub WasOpen : List Report → Type 0
WasOpen rs = SomeStore (λ u. u.count ≡ 0) rs

abbrev pub WasAccepted : List Report → Auth.Parser → Type 0
WasAccepted rs p = SomeStore (λ u. validate u p.uname p.ulen p.passwd p.plen ≡ true) rs

every_store :
    (os : Os) (client : ℕ) (Open : Type 0) (Accepts : Auth.Parser → Type 0)
    (system : Documented os client) (rs : List Report)
    → (WasOpen rs → Open)
    → ((p : Auth.Parser) → WasAccepted rs p → Accepts p)
    → Told os client Open Accepts system rs
every_store os client Open Accepts system [] o a = tt
every_store os client Open Accepts system (r ∷ rs) o a = (
  record { open_when = λ e. o (inl e); accepts_when = λ p e. a p (inl e) },
  every_store os client Open Accepts system rs (λ w. o (inr w)) (λ p w. a p (inr w)),
)

module _ (os : Os) (client : ℕ) (system : Documented os client) where
  -- A connection that `socks5_passive_accept` has accepted, with buffers of at least 512 bytes, on
  -- a system that gives a new socket another descriptor than the client's and addresses of their
  -- family's size, handles any sequence of the selector's reports without a fault and without an
  -- abort of the state machine, whatever the calls answer, whatever store of users each report
  -- finds, and whenever a worker of the resolver ends the connection's job, with whatever
  -- addresses. Behind it, the connection waits for its first event, or it is freed, or it rests in
  -- a state that is not terminal: then what `Holds` says of that state holds, among it that the
  -- references are the descriptors and the job, that the selector is armed for what the state waits
  -- for, and that no byte of the client is lost: what it has sent is what the parsers have taken,
  -- then in the relay what the origin has got, then what waits in the read buffer. The relay has no
  -- error of its arrival, and a state that reads has nothing left to read.
  pub serve-Course :
      (rs : List Report) (size : ℕ) (heap : Heap) (now : ℕ) (server : Server)
      → 512 ≤ size
      → (s : Socket) × (serve os rs (socket os none (accepted client size heap now server))
          ≡ some s)
        × Course os client (WasOpen rs) (WasAccepted rs) s
  serve-Course rs size heap now server room =
      let k = accepted client size heap now server in
      serve_lem os client (WasOpen rs) (WasAccepted rs) system rs (socket os none k)
        (every_store os client (WasOpen rs) (WasAccepted rs) system rs (λ w. w) (λ p w. w))
        (starts k refl
          (accepted-Holds client size heap now server (WasOpen rs) (WasAccepted rs) room))

-- The states from the request on.
abbrev serves : State → Bool
serves req_read = true
serves req_resolve = true
serves req_connecting = true
serves req_write = true
serves relay = true
serves _ = false

-- The engine is in one of them.
abbrev pub is_serving : Option ℕ → Bool
is_serving none = false
is_serving (some n) = ltb 3 n && ltb n 9

is_serving-code : (st : State) → is_serving (some (code st)) ≡ serves st
is_serving-code neg_read = refl
is_serving-code neg_write = refl
is_serving-code auth_read = refl
is_serving-code auth_write = refl
is_serving-code req_read = refl
is_serving-code req_resolve = refl
is_serving-code req_connecting = refl
is_serving-code req_write = refl
is_serving-code relay = refl
is_serving-code finished = refl
is_serving-code failed = refl

Holds-Admits :
    (client : ℕ) (Open : Type 0) (Accepts : Auth.Parser → Type 0) (st : State) (k : Key)
    → serves st ≡ true
    → Holds client Open Accepts st k
    → Admits client Open Accepts k
Holds-Admits client Open Accepts req_read k e h = h.2
Holds-Admits client Open Accepts req_resolve k e h = h.0.2
Holds-Admits client Open Accepts req_connecting k e h = h.0.2
Holds-Admits client Open Accepts req_write k e h = h.1
Holds-Admits client Open Accepts relay k e h = h.1
Holds-Admits client Open Accepts neg_read k e h = absurd (cc e)
Holds-Admits client Open Accepts neg_write k e h = absurd (cc e)
Holds-Admits client Open Accepts auth_read k e h = absurd (cc e)
Holds-Admits client Open Accepts auth_write k e h = absurd (cc e)
Holds-Admits client Open Accepts finished k e h = absurd (cc e)
Holds-Admits client Open Accepts failed k e h = absurd (cc e)

Course-Admits :
    (os : Os) (client : ℕ) (Open : Type 0) (Accepts : Auth.Parser → Type 0) (s : Socket)
    → Course os client Open Accepts s
    → is_serving s.stm.current ≡ true
    → s.key.conn.freed ≡ false
    → Admits client Open Accepts s.key
Course-Admits os client Open Accepts s (over done) e alive = absurd (cc (done, alive))
Course-Admits os client Open Accepts s (starts k is h) e alive =
    absurd (cc (sym (ap (λ x. is_serving x.stm.current) is) ∙ e))
Course-Admits os client Open Accepts s (rests st k is live h settled quiet) e alive =
    subst (λ x. Admits client Open Accepts x.key) (sym is)
      (Holds-Admits client Open Accepts st k
        (sym (is_serving-code st) ∙ sym (ap (λ x. is_serving x.stm.current) is) ∙ e) h)

module _ (os : Os) (client : ℕ) (system : Documented os client) where
  -- A connection that `socks5_passive_accept` has accepted, with buffers of at least 512 bytes, on
  -- a system that gives a new socket another descriptor than the client's and addresses of their
  -- family's size: if a sequence of the selector's reports, each with the store of users that it
  -- finds and with what a worker of the resolver has left, leads to a state from REQ_READ to RELAY
  -- and the connection is not freed, then one of these stores was empty, or one of them accepts the
  -- name and the password that the connection's parser holds.
  pub serve-WasAccepted :
      (rs : List Report) (size : ℕ) (heap : Heap) (now : ℕ) (server : Server) (s : Socket)
      → 512 ≤ size
      → serve os rs (socket os none (accepted client size heap now server)) ≡ some s
      → is_serving s.stm.current ≡ true
      → s.key.conn.freed ≡ false
      → WasOpen rs ⊎ WasAccepted rs s.key.conn.auth
  serve-WasAccepted rs size heap now server s room runs serving alive =
      let (s', is, course) = serve-Course os client system rs size heap now server room in
      let same : s' ≡ s = cc (is, runs) in
      Course-Admits os client (WasOpen rs) (WasAccepted rs) s
        (subst (λ x. Course os client (WasOpen rs) (WasAccepted rs) x) same course) serving alive
