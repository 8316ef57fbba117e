-- ===== src/Socks5/Serving.antt =====
-- A connection of server/socks5.c from its acceptance to its end, under any sequence of reports of
-- the selector.
use protos_tpe.Prelude.{
  ℕ, ◌≡◌, refl, Bool, true, false, ◌&&◌, ◌||◌, Option, none, some, List, [], ◌∷◌, arith, ◌>>=◌,
  Bool-cases, inl, inr, ◌⊎◌,
}
use protos_tpe.Auth
use protos_tpe.Users.{Users}
use protos_tpe.Stm.{Event, read_ready, write_ready, block_ready, handler, handle_first}
use protos_tpe.Socks5.{
  State, neg_read, neg_write, auth_read, auth_write, req_read, req_resolve, req_connecting,
  req_write, relay, finished, failed, Key, is_client, same_fd,
}
use protos_tpe.Socks5.Os.{Os}
use protos_tpe.Socks5.Machine.{arrival_of, Socket, fire, deliver, on_conn}
use protos_tpe.Socks5.Phases.{negotiation_read_init, Answer, complete_job}
use protos_tpe.Socks5.Fire.{socket}
use protos_tpe.Socks5.Relay.{client_wants, origin_wants}
use protos_tpe.Socks5.Forward.{Frame}
use protos_tpe.Socks5.Delivery.{InRelay}
use protos_tpe.Socks5.Arrivals.{key_armed}
use protos_tpe.Socks5.Holds.{Holds}
use protos_tpe.Socks5.Life.{OnClient, OnOrigin, Reported, Settled}

-- What the selector reports, the store of users at that moment, and what a worker of the resolver
-- has left in the meantime.
pub record Report : Type 0 where
  pub event : Event
  pub fd : ℕ
  pub users : Users
  pub job : Option Answer

abbrev pub posted : Report → Key → Key
posted r k = record k {
  fd = r.fd;
  conn = complete_job r.job k.conn;
  server = record k.server { users_store = some r.users };
}

-- The selector reports what it is armed for on a descriptor of the connection, and the end of a job
-- on the client's.
abbrev pub is_reported : Event → Key → Bool
is_reported read_ready k = (is_client k || same_fd k.fd k.conn.origin_fd) && (key_armed k).op_read
is_reported write_ready k = (is_client k || same_fd k.fd k.conn.origin_fd) && (key_armed k).op_write
is_reported block_ready k = is_client k

abbrev pub when_reported : Bool → Option Socket → Socket → Option Socket
when_reported true handled s = handled
when_reported false handled s = some s

module _ (os : Os) where
  -- A report on a connection that is alive.
  unfoldable pub accept_report : Report → Socket → Option Socket
  accept_report r s =
      let s' = record s { key = posted r s.key } in
      when_reported (is_reported r.event s'.key) (deliver os r.event s') s'

  unfoldable pub serve : List Report → Socket → Option Socket
  serve [] s = some s
  serve (r ∷ rs) s = do
    s' ← elim s.key.conn.freed [ true ↦ some s | false ↦ accept_report r s ]
    serve rs s'

on_side :
    (k : Key) → (is_client k || same_fd k.fd k.conn.origin_fd) ≡ true → OnClient k ⊎ OnOrigin k
on_side k e = elim (Bool-cases (is_client k)) [
  | inl c ↦ inl c
  | inr other ↦ inr (other, origin_there k.conn.origin_fd (ground (arith, e, other)))
]
  where
    origin_there : (o : Option ℕ) → same_fd k.fd o ≡ true → (fd : ℕ) × (o ≡ some fd)
    origin_there none h = absurd (cc h)
    origin_there (some fd) h = (fd, refl)

pub reported_lem : (e : Event) (k : Key) → is_reported e k ≡ true → Reported e k
reported_lem read_ready k h = (on_side k (ground (arith, h)), ground (arith, h))
reported_lem write_ready k h = (on_side k (ground (arith, h)), ground (arith, h))
reported_lem block_ready k h = h

-- The first event is an event of the first state behind its arrival.
pub fire_first :
    (os : Os) (e : Event) (k : Key)
    → fire e (socket os none k)
      ≡ fire e (socket os (some neg_read) (on_conn negotiation_read_init k))
unfolding fire handler handle_first arrival_of
fire_first os e k = refl

InRelay-posted :
    {early replies : List ℕ} {fr : Frame} (r : Report) (k : Key)
    → InRelay early replies fr k
    → InRelay early replies fr (posted r k)
unfolding client_wants origin_wants
InRelay-posted r k h = record {
  relaying = record {
    framed = h.relaying.framed;
    read_valid = h.relaying.read_valid;
    write_valid = h.relaying.write_valid;
    read_room = h.relaying.read_room;
    write_room = h.relaying.write_room;
    upload = h.relaying.upload;
    download = h.relaying.download;
    origin_half = h.relaying.origin_half;
    client_half = h.relaying.client_half;
    origin_after = h.relaying.origin_after;
    client_after = h.relaying.client_after;
  };
  armed = record { client_has = h.armed.client_has; origin_has = h.armed.origin_has };
  progress = record {
    upload_moves = h.progress.upload_moves;
    download_moves = h.progress.download_moves;
  };
}

module _ (client : ℕ) (Open : Type 0) (Accepts : Auth.Parser → Type 0) where
  pub Holds-posted :
      (r : Report) (st : State) (k : Key)
      → Holds client Open Accepts st k
      → Holds client Open Accepts st (posted r k)
  Holds-posted r neg_read k h = h
  Holds-posted r neg_write k h = h
  Holds-posted r auth_read k h = h
  Holds-posted r auth_write k h = h
  Holds-posted r req_read k h = h
  Holds-posted r req_resolve k h = h
  Holds-posted r req_connecting k h = h
  Holds-posted r req_write k h = h
  Holds-posted r finished k h = h
  Holds-posted r failed k h = h
  Holds-posted r relay k ((refs, inl marked), admits) = ((refs, inl marked), admits)
  Holds-posted r relay k ((refs, inr (replies, i)), admits) =
      ((refs, inr (replies, InRelay-posted r k i)), admits)

pub Settled-posted : (r : Report) (st : State) (k : Key) → Settled st k → Settled st (posted r k)
Settled-posted r neg_read k h = tt
Settled-posted r neg_write k h = tt
Settled-posted r auth_read k h = tt
Settled-posted r auth_write k h = tt
Settled-posted r req_read k h = tt
Settled-posted r req_resolve k h = tt
Settled-posted r req_connecting k h = tt
Settled-posted r req_write k h = tt
Settled-posted r finished k h = tt
Settled-posted r failed k h = tt
Settled-posted r relay k (replies, i) = (replies, InRelay-posted r k i)
