-- ===== src/Socks5/Sweeping.antt =====
-- `socks5_reap_idle` of server/socks5.c on a connection between two events.
use protos_tpe.Prelude.{
  ℕ, ◌<◌, ◌≤◌, ◌⊎◌, true, ◌+◌, ◌≡◌, refl, ap, ◌∙◌, Bool, false, ◌&&◌, Option, none, some, arith,
  ◌==◌, Bool-cases, inl, inr,
}
use protos_tpe.Auth
use protos_tpe.Stm.{state_of}
use protos_tpe.Socks5.{
  State, neg_read, neg_write, auth_read, auth_write, req_read, req_resolve, req_connecting,
  req_write, relay, finished, failed, code, Key,
}
use protos_tpe.Socks5.Os.{Os}
use protos_tpe.Socks5.Machine.{Socket}
use protos_tpe.Socks5.Fire.{socket, state_of-machine}
use protos_tpe.Socks5.Reaper.{
  expire, reap, reap_when, is_over, idle_timeout_expired, effective_conn_timeout, client_key,
}
use protos_tpe.Socks5.Holds.{Holds, Documented}
use protos_tpe.Socks5.Candidates.{request_resolve_done_lem}
use protos_tpe.Socks5.Course.{Course, starts, rests, over}
use protos_tpe.Socks5.Expiring.{enter_lem, finishing, expire_lem, Expires}

-- The connection resolves a name and its job is done.
abbrev pub is_resolved : Socket → Bool
is_resolved s =
    elim s.stm.current [ none ↦ false | some c ↦ c == code req_resolve ] && s.key.conn.resolver_done

abbrev pub deadline : Socket → ℕ
deadline s = s.key.conn.last_activity + effective_conn_timeout s.key.server

-- A connection for which a reply can still be written: it has asked for an origin.
abbrev pub Asking : Socket → Type 0
Asking s = (s.stm.current ≡ some (code req_resolve)) ⊎ (s.stm.current ≡ some (code req_connecting))

-- What the sweep at the time `now` does with a connection.
pub data Swept (now : ℕ) (s s' : Socket) : Type 0 where
  goes_on :
      is_resolved s ≡ true
      → (s'.key.conn.freed ≡ true) ⊎ (s'.key.conn.last_activity ≡ now)
      → Swept now s s'
  stays : is_resolved s ≡ false → now ≤ deadline s → s' ≡ s → Swept now s s'
  closed : is_resolved s ≡ false → deadline s < now → s'.key.conn.freed ≡ true → Swept now s s'
  answered :
      is_resolved s ≡ false
      → deadline s < now
      → Asking s
      → s'.stm.current ≡ some (code req_write)
      → s'.key.conn.last_activity ≡ now
      → Swept now s s'

is_over-lt : (now : ℕ) (s : Socket) → is_over now s ≡ true → deadline s < now
unfolding idle_timeout_expired
is_over-lt now s h = ground (arith, h)

is_over-ge : (now : ℕ) (s : Socket) → is_over now s ≡ false → now ≤ deadline s
unfolding idle_timeout_expired
is_over-ge now s h = ground (arith, h)

not_asking :
    {A : Type 0} (n : ℕ)
    → (n == code req_resolve) ≡ false
    → (n == code req_connecting) ≡ false
    → (n ≡ code req_resolve) ⊎ (n ≡ code req_connecting)
    → A
not_asking n a b (inl e) = absurd (ground (arith, e, a))
not_asking n a b (inr e) = absurd (ground (arith, e, b))

module _ (os : Os) (client : ℕ) (Open : Type 0) (Accepts : Auth.Parser → Type 0)
    (system : Documented os client) where
  abbrev Sweeps : ℕ → Option Socket → Socket → Type 0
  Sweeps now o s = (s' : Socket) × (o ≡ some s') × Course os client Open Accepts s' × Swept now s s'

  by_time :
      (now : ℕ) (st : ℕ) (s : Socket) (completed : Bool)
      → completed ≡ false
      → is_resolved s ≡ false
      → (((st ≡ code req_resolve) ⊎ (st ≡ code req_connecting)) → Asking s)
      → Course os client Open Accepts s
      → Expires os client Open Accepts system now st (expire os now st s) s
      → Sweeps now (reap_when os completed (is_over now s) now st s) s
  by_time now st s completed other idle asks course (s', runs, c, ends) =
      elim (Bool-cases (is_over now s)) [
        | inr early ↦ (
          s,
          ap (λ b. reap_when os b (is_over now s) now st s) other
              ∙ ap (λ b. reap_when os false b now st s) early,
          course,
          stays idle (is_over-ge now s early) refl,
        )
        | inl late ↦ (
          s',
          ap (λ b. reap_when os b (is_over now s) now st s) other
              ∙ ap (λ b. reap_when os false b now st s) late
              ∙ runs,
          c,
          elim ends [
            | inl done ↦ closed idle (is_over-lt now s late) done
            | inr (a, writes, stamped) ↦
                answered idle (is_over-lt now s late) (asks a) writes stamped
          ],
        )
      ]

  swept_lem :
      (now : ℕ) (st : State) (k : Key)
      → Holds client Open Accepts st k
      → Course os client Open Accepts (socket os (some st) k)
      → Sweeps now
          (reap_when os
            (code st == code req_resolve && k.conn.resolver_done)
            (is_over now (socket os (some st) k))
            now
            (code st)
            (socket os (some st) k))
          (socket os (some st) k)
  swept_lem now req_resolve k h course = elim (Bool-cases k.conn.resolver_done) [
    | inr idle ↦
        by_time now (code req_resolve) (socket os (some req_resolve) k) k.conn.resolver_done idle
          idle (λ _. inl refl) course (expire_lem os client Open Accepts system now req_resolve k h)
    | inl done ↦
        (let s = socket os (some req_resolve) k in
          let k' = client_key k in
          let (s', runs, c, stamped) =
            enter_lem os client Open Accepts system now req_resolve k k'.server.users_store _ (
              request_resolve_done_lem os client Open Accepts system k' k'.server.users_store refl
                h.0 h.1 h.2 h.3) in
          (
            s',
            ap (λ b. reap_when os b (is_over now s) now (code req_resolve) s) done ∙ runs,
            c,
            goes_on done stamped,
          ))
  ]
  swept_lem now neg_read k h course =
      by_time now 0 _ false refl refl (not_asking 0 refl refl) course
        (expire_lem os client Open Accepts system now neg_read k h)
  swept_lem now neg_write k h course =
      by_time now 1 _ false refl refl (not_asking 1 refl refl) course
        (expire_lem os client Open Accepts system now neg_write k h)
  swept_lem now auth_read k h course =
      by_time now 2 _ false refl refl (not_asking 2 refl refl) course
        (expire_lem os client Open Accepts system now auth_read k h)
  swept_lem now auth_write k h course =
      by_time now 3 _ false refl refl (not_asking 3 refl refl) course
        (expire_lem os client Open Accepts system now auth_write k h)
  swept_lem now req_read k h course =
      by_time now 4 _ false refl refl (not_asking 4 refl refl) course
        (expire_lem os client Open Accepts system now req_read k h)
  swept_lem now req_connecting k h course =
      by_time now 6 _ false refl refl (λ _. inr refl) course
        (expire_lem os client Open Accepts system now req_connecting k h)
  swept_lem now req_write k h course =
      by_time now 7 _ false refl refl (not_asking 7 refl refl) course
        (expire_lem os client Open Accepts system now req_write k h)
  swept_lem now relay k h course =
      by_time now 8 _ false refl refl (not_asking 8 refl refl) course
        (expire_lem os client Open Accepts system now relay k h)
  swept_lem now finished k h course =
      by_time now 9 _ false refl refl (not_asking 9 refl refl) course
        (expire_lem os client Open Accepts system now finished k h)
  swept_lem now failed k h course =
      by_time now 10 _ false refl refl (not_asking 10 refl refl) course
        (expire_lem os client Open Accepts system now failed k h)

  -- On a connection between two events that is not freed (before its first event, or at rest in a
  -- state that is not terminal, with what `Holds` says of that state), the sweep of the idle
  -- connections runs without a fault and leads to such a connection again, or frees it. A connection
  -- whose name has been resolved is freed or goes on with the time of the sweep for its last
  -- activity. Any other is left as it is until more than the timeout has
  -- passed since its last activity; then it is freed, or, if it resolved a name or connected to an
  -- origin, it may go on to REQ_WRITE, with the time of the sweep for its last activity. The system
  -- gives a new socket another descriptor than the client's, and addresses of their family's size.
  pub reap-Course :
      (now : ℕ) (s : Socket)
      → Course os client Open Accepts s
      → s.key.conn.freed ≡ false
      → (s' : Socket) × (reap os now s ≡ some s')
        × Course os client Open Accepts s'
        × Swept now s s'
  unfolding reap state_of expire
  reap-Course now s (over done) alive = absurd (cc (done, alive))
  reap-Course now s (rests st k is live h settled quiet) alive = rw is (
      let (s', runs, c, left) = swept_lem now st k h (rests st k refl live h settled quiet) in
      (s', rw (state_of-machine os st, reap) runs, c, left))
  reap-Course now s (starts k is h) alive = rw is (
      by_time now 0 (socket os none k) false refl refl (not_asking 0 refl refl) (starts k refl h)
        (finishing os client Open Accepts system now 0 (socket os none k) h.0.1))
