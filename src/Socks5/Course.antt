-- ===== src/Socks5/Course.antt =====
-- `socks5_advance` and the handlers of the selector on the connection: every reported event leads to
-- a state of rest or to the end of the connection.
use protos_tpe.Prelude.{
  ℕ, ◌≡◌, refl, sym, ◌∙◌, Bool, true, false, none, some, ◌==◌, if◌then◌else◌, inl, inr,
}
use protos_tpe.Buffer.{can_read}
use protos_tpe.Auth
use protos_tpe.Socks5.{
  State, neg_read, neg_write, auth_read, auth_write, req_read, req_resolve, req_connecting,
  req_write, relay, finished, failed, code, Key,
}
use protos_tpe.Socks5.Os.{Os}
use protos_tpe.Socks5.Phases.{negotiation_read_init}
use protos_tpe.Socks5.Machine.{on_conn, Socket, is_read_state, settle}
use protos_tpe.Socks5.Close.{finish}
use protos_tpe.Socks5.Fire.{socket}
use protos_tpe.Socks5.Holds.{Holds, RefsOf}
use protos_tpe.Socks5.Ending.{finish-freed}
use protos_tpe.Socks5.Life.{IsLive, Settled}

-- A connection between two events: before its first one, in a state of rest in which nothing waits
-- that the state could read, or at its end.
pub data Course (os : Os) (client : ℕ) (Open : Type 0) (Accepts : Auth.Parser → Type 0) (s : Socket)
    : Type 0 where
  starts :
      (k : Key)
      → s ≡ socket os none k
      → Holds client Open Accepts neg_read (on_conn negotiation_read_init k)
      → Course os client Open Accepts s
  rests :
      (st : State) (k : Key)
      → s ≡ socket os (some st) k
      → IsLive st
      → Holds client Open Accepts st k
      → Settled st k
      → (is_read_state (code st) ≡ true → can_read k.conn.read_buffer ≡ false)
      → Course os client Open Accepts s
  over : s.key.conn.freed ≡ true → Course os client Open Accepts s

module _ (os : Os) (client : ℕ) (Open : Type 0) (Accepts : Auth.Parser → Type 0) where
  pub Holds-Refs : (st : State) (k : Key) → Holds client Open Accepts st k → RefsOf client k.conn
  Holds-Refs neg_read k h = h.0.1
  Holds-Refs neg_write k h = h.0.0.1
  Holds-Refs auth_read k h = h.0.1
  Holds-Refs auth_write k h = h.0.0.1
  Holds-Refs req_read k h = h.0.0.1
  Holds-Refs req_resolve k h = h.0.0.1
  Holds-Refs req_connecting k h = h.0.0.1
  Holds-Refs req_write k h = h.0.0.1
  Holds-Refs relay k h = h.0.0
  Holds-Refs finished k h = h
  Holds-Refs failed k h = h

  pub ended :
      (st : State) (k : Key)
      → Holds client Open Accepts st k
      → Course os client Open Accepts (record (socket os (some st) k) { key = finish k })
  ended st k h = over (finish-freed client k (Holds-Refs st k h))

  -- The end of `socks5_advance` in a state that is not terminal.
  settle_live :
      (st : State) (k : Key)
      → (code st == code failed) ≡ false
      → (code st == code finished) ≡ false
      → IsLive st
      → Holds client Open Accepts st k
      → (k.conn.arrival_error ≡ false → Settled st k)
      → (is_read_state (code st) ≡ true → can_read k.conn.read_buffer ≡ false)
      → Course os client Open Accepts (settle (code st, socket os (some st) k))
  settle_live st k a b live h settled quiet = rw a (rw b (by_mark k.conn.arrival_error refl))
    where
      by_mark :
          (m : Bool)
          → k.conn.arrival_error ≡ m
          → Course os client Open Accepts (
              if m
              then record (socket os (some st) k) { key = finish k }
              else socket os (some st) k)
      by_mark true e = ended st k h
      by_mark false e = rests st k refl live h (settled e) quiet

  pub settle_lem :
      (st : State) (k : Key)
      → Holds client Open Accepts st k
      → (is_read_state (code st) ≡ true → can_read k.conn.read_buffer ≡ false)
      → Course os client Open Accepts (settle (code st, socket os (some st) k))
  settle_lem finished k h quiet = ended finished k h
  settle_lem failed k h quiet = ended failed k h
  settle_lem relay k h quiet =
      settle_live relay k refl refl tt h
        (λ e. elim h.0.1 [ inl marked ↦ absurd (cc (sym marked ∙ e)) | inr r ↦ r ]) quiet
  settle_lem neg_read k h quiet = settle_live neg_read k refl refl tt h (λ _. tt) quiet
  settle_lem neg_write k h quiet = settle_live neg_write k refl refl tt h (λ _. tt) quiet
  settle_lem auth_read k h quiet = settle_live auth_read k refl refl tt h (λ _. tt) quiet
  settle_lem auth_write k h quiet = settle_live auth_write k refl refl tt h (λ _. tt) quiet
  settle_lem req_read k h quiet = settle_live req_read k refl refl tt h (λ _. tt) quiet
  settle_lem req_resolve k h quiet = settle_live req_resolve k refl refl tt h (λ _. tt) quiet
  settle_lem req_connecting k h quiet = settle_live req_connecting k refl refl tt h (λ _. tt) quiet
  settle_lem req_write k h quiet = settle_live req_write k refl refl tt h (λ _. tt) quiet
