-- ===== src/Socks5/Advance.antt =====
-- `socks5_read` and `socks5_write` of server/socks5.c on a connection: the handler, the messages that
-- already wait, and the end of the connection.
use protos_tpe.Prelude.{
  ℕ, ◌≡◌, refl, ap, ◌∙◌, true, false, ◌&&◌, Option, some, arith, ◌>>=◌, Bool-cases, inl, inr,
}
use protos_tpe.Buffer.{can_read}
use protos_tpe.Auth
use protos_tpe.Users.{Users}
use protos_tpe.Stm.{Event, read_ready, write_ready}
use protos_tpe.Socks5.{
  State, neg_read, neg_write, auth_read, auth_write, req_read, req_resolve, req_connecting,
  req_write, relay, finished, failed, code, Key, is_client, reading,
}
use protos_tpe.Socks5.Os.{Os}
use protos_tpe.Socks5.Machine.{
  handler_of, Socket, fire, is_read_state, advance_loop, advance, on_event, settle, touch,
}
use protos_tpe.Socks5.Fire.{fire_lem, socket, arrive}
use protos_tpe.Socks5.Holds.{Holds, Documented}
use protos_tpe.Socks5.Handshake.{Seen, Leaves}
use protos_tpe.Socks5.Life.{
  IsLive, Reported, Settled, Handled, reads_lem, writes_lem, client_armed_is,
}
use protos_tpe.Socks5.Course.{Course, settle_lem}
use protos_tpe.Socks5.Events.{arrive-kept, Holds-touch}

module _ (os : Os) (client : ℕ) (Open : Type 0) (Accepts : Auth.Parser → Type 0)
    (system : Documented os client) (u : Users) (seen : Seen Open Accepts u) where
  -- The handler of a state of reading, whatever the selector reported.
  reader :
      (st : State) (k : Key)
      → is_read_state (code st) ≡ true
      → k.server.users_store ≡ some u
      → is_client k ≡ true
      → Holds client Open Accepts st k
      → Handled os client Open Accepts (some u) read_ready st k
  reader neg_read k e same c h =
      reads_lem os client Open Accepts system neg_read k u seen same tt h tt
        (inl c, ap (λ i. i.op_read) (client_armed_is k reading c h.2))
  reader auth_read k e same c h =
      reads_lem os client Open Accepts system auth_read k u seen same tt h tt
        (inl c, ap (λ i. i.op_read) (client_armed_is k reading c h.2))
  reader req_read k e same c h =
      reads_lem os client Open Accepts system req_read k u seen same tt h tt
        (inl c, ap (λ i. i.op_read) (client_armed_is k reading c h.0.2))
  reader neg_write k e same c h = absurd (cc e)
  reader auth_write k e same c h = absurd (cc e)
  reader req_resolve k e same c h = absurd (cc e)
  reader req_connecting k e same c h = absurd (cc e)
  reader req_write k e same c h = absurd (cc e)
  reader relay k e same c h = absurd (cc e)
  reader finished k e same c h = absurd (cc e)
  reader failed k e same c h = absurd (cc e)

  -- Behind a read handler nothing more is read.
  second_round :
      (s : State) (k : Key) {h : Key → Option (State × Key)}
      → handler_of os read_ready s ≡ some h
      → Leaves os client Open Accepts (some u) true s (h k)
      → (r : ℕ × Socket) × ((do
        (st', s') ← fire read_ready (socket os (some s) k)
        advance_loop 1 st' s')
          ≡ some r)
        × Course os client Open Accepts (settle r)
  unfolding advance_loop
  second_round s k {h} found l =
      let k' = arrive os s l.next l.key in
      let quiet : is_read_state (code l.next) ≡ true → can_read k'.conn.read_buffer ≡ false =
        (λ e. ap can_read (arrive-kept os s l.next l.key e).0 ∙ l.quiet refl e) in
      let stop : (is_read_state (code l.next) && can_read k'.conn.read_buffer) ≡ false =
        elim (Bool-cases (is_read_state (code l.next))) [
          | inl e ↦ rw (e, quiet e) refl
          | inr e ↦ rw e refl
        ] in
      (
        (code l.next, socket os (some l.next) k'),
        rw (fire_lem os read_ready s l.next k l.key found l.runs) (rw (stop, advance_loop) refl),
        settle_lem os client Open Accepts l.next k' l.holds quiet,
      )

  advance_lem :
      (st : State) (k : Key)
      → Holds client Open Accepts st k
      → (is_read_state (code st) ≡ true → (k.server.users_store ≡ some u) × (is_client k ≡ true))
      → (s' : Socket) × (advance os (code st) (socket os (some st) k) ≡ some s')
        × Course os client Open Accepts s'
  unfolding advance advance_loop
  advance_lem st k h same =
      let k' = touch os k in
      let h' = Holds-touch os client Open Accepts st k h in
      elim (Bool-cases (is_read_state (code st) && can_read k.conn.read_buffer)) [
        | inr stop ↦ (
          settle (code st, socket os (some st) k'),
          rw (stop, advance_loop) refl,
          settle_lem os client Open Accepts st k' h' (λ e. ground (arith, e, stop)),
        )
        | inl more ↦
            (let reads : is_read_state (code st) ≡ true = ground (arith, more) in
              let d = reader st k' reads (same reads).0 (same reads).1 h' in
              let (r, runs, course) = second_round st k' d.found d.leaves in
              (
                settle r,
                rw (more, advance_loop) (ap (λ o. (do x ← o; some (settle x))) runs),
                course,
              ))
      ]

  pub event_lem :
      (e : Event) (st : State) (k : Key)
      → Handled os client Open Accepts (some u) e st k
      → (s' : Socket) × (on_event os e (socket os (some st) k) ≡ some s')
        × Course os client Open Accepts s'
  unfolding on_event
  event_lem e st k d =
      let l = d.leaves in
      let k' = arrive os st l.next l.key in
      let (s', runs, course) = advance_lem l.next k' l.holds (λ r.
        (let kept = arrive-kept os st l.next l.key r in
          (ap (λ v. v.users_store) kept.1 ∙ (l.same_users r).0, kept.2 ∙ (l.same_users r).1))) in
      (s', rw (fire_lem os e st l.next k l.key d.found l.runs) runs, course)

  pub on_read-Course :
      (st : State) (k : Key)
      → k.server.users_store ≡ some u
      → IsLive st
      → Holds client Open Accepts st k
      → Settled st k
      → Reported read_ready k
      → (s' : Socket) × (on_event os read_ready (socket os (some st) k) ≡ some s')
        × Course os client Open Accepts s'
  on_read-Course st k same live h settled reported =
      event_lem read_ready st k
        (reads_lem os client Open Accepts system st k u seen same live h settled reported)

  pub on_write-Course :
      (st : State) (k : Key)
      → k.server.users_store ≡ some u
      → IsLive st
      → Holds client Open Accepts st k
      → Settled st k
      → Reported write_ready k
      → (s' : Socket) × (on_event os write_ready (socket os (some st) k) ≡ some s')
        × Course os client Open Accepts s'
  on_write-Course st k same live h settled reported =
      event_lem write_ready st k
        (writes_lem os client Open Accepts system st k u seen same live h settled reported)
