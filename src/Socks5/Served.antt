-- ===== src/Socks5/Served.antt =====
-- A connection of server/socks5.c under any sequence of reports: it never faults, and what its state
-- says holds at every rest.
use protos_tpe.Prelude.{
  ℕ, ◌≡◌, refl, ap, ◌∙◌, false, none, some, List, [], ◌∷◌, Bool-cases, inl, inr,
}
use protos_tpe.Auth
use protos_tpe.Users.{Users}
use protos_tpe.Stm.{Event, read_ready, write_ready, block_ready, state_of}
use protos_tpe.Socks5.{
  State, neg_read, neg_write, auth_read, auth_write, req_read, req_resolve, req_connecting,
  req_write, relay, finished, failed, Key,
}
use protos_tpe.Socks5.Os.{Os}
use protos_tpe.Socks5.Machine.{handler_of, Socket, on_event, on_block, deliver, on_conn}
use protos_tpe.Socks5.Phases.{negotiation_read_init}
use protos_tpe.Socks5.Fire.{socket, state_of-machine}
use protos_tpe.Socks5.Holds.{Holds, Documented}
use protos_tpe.Socks5.Candidates.{request_resolve_done_lem}
use protos_tpe.Socks5.Handshake.{Seen}
use protos_tpe.Socks5.Requesting.{Yields-Leaves}
use protos_tpe.Socks5.Life.{IsLive, Reported, Settled}
use protos_tpe.Socks5.Course.{Course, starts, rests, over}
use protos_tpe.Socks5.Advance.{on_read-Course, on_write-Course, event_lem}
use protos_tpe.Socks5.Serving.{
  Report, posted, is_reported, accept_report, serve, when_reported, reported_lem, fire_first,
  Holds-posted, Settled-posted,
}

module _ (os : Os) (client : ℕ) (Open : Type 0) (Accepts : Auth.Parser → Type 0)
    (system : Documented os client) (u : Users) (seen : Seen Open Accepts u) where
  -- The end of a job: only a connection that resolves a name goes on.
  block_lem :
      (st : State) (k : Key)
      → k.server.users_store ≡ some u
      → IsLive st
      → Holds client Open Accepts st k
      → Course os client Open Accepts (socket os (some st) k)
      → (s' : Socket) × (on_block os (socket os (some st) k) ≡ some s')
        × Course os client Open Accepts s'
  unfolding on_block handler_of
  block_lem req_resolve k same live h course =
      let (s', runs, c) =
        event_lem os client Open Accepts system u seen block_ready req_resolve k (record {
          handler = _;
          found = refl;
          leaves = Yields-Leaves os client Open Accepts false req_resolve (some u) _ (
              request_resolve_done_lem os client Open Accepts system k (some u) same h.0 h.1 h.2
                h.3);
        }) in
      (s', rw (state_of-machine os req_resolve) runs, c)
  block_lem neg_read k same live h course = (_, rw (state_of-machine os neg_read) refl, course)
  block_lem neg_write k same live h course = (_, rw (state_of-machine os neg_write) refl, course)
  block_lem auth_read k same live h course = (_, rw (state_of-machine os auth_read) refl, course)
  block_lem auth_write k same live h course = (_, rw (state_of-machine os auth_write) refl, course)
  block_lem req_read k same live h course = (_, rw (state_of-machine os req_read) refl, course)
  block_lem req_connecting k same live h course =
      (_, rw (state_of-machine os req_connecting) refl, course)
  block_lem req_write k same live h course = (_, rw (state_of-machine os req_write) refl, course)
  block_lem relay k same live h course = (_, rw (state_of-machine os relay) refl, course)
  block_lem finished k same live h course = elim live [ ]
  block_lem failed k same live h course = elim live [ ]

  rests_lem :
      (e : Event) (st : State) (k : Key)
      → k.server.users_store ≡ some u
      → IsLive st
      → Holds client Open Accepts st k
      → Settled st k
      → Reported e k
      → Course os client Open Accepts (socket os (some st) k)
      → (s' : Socket) × (deliver os e (socket os (some st) k) ≡ some s')
        × Course os client Open Accepts s'
  unfolding deliver
  rests_lem read_ready st k same live h settled reported course =
      on_read-Course os client Open Accepts system u seen st k same live h settled reported
  rests_lem write_ready st k same live h settled reported course =
      on_write-Course os client Open Accepts system u seen st k same live h settled reported
  rests_lem block_ready st k same live h settled reported course = block_lem st k same live h course

  starts_lem :
      (e : Event) (k : Key)
      → k.server.users_store ≡ some u
      → Holds client Open Accepts neg_read (on_conn negotiation_read_init k)
      → Reported e k
      → (s' : Socket) × (deliver os e (socket os none k) ≡ some s')
        × Course os client Open Accepts s'
  unfolding deliver on_event on_block state_of
  starts_lem read_ready k same h reported =
      let k₁ = on_conn negotiation_read_init k in
      let (s', runs, c) =
        on_read-Course os client Open Accepts system u seen neg_read k₁ same tt h tt reported in
      (s', rw (fire_first os read_ready k) runs, c)
  starts_lem write_ready k same h reported =
      let k₁ = on_conn negotiation_read_init k in
      let (s', runs, c) =
        on_write-Course os client Open Accepts system u seen neg_read k₁ same tt h tt reported in
      (s', rw (fire_first os write_ready k) runs, c)
  starts_lem block_ready k same h reported = (socket os none k, refl, starts k refl h)

module _ (os : Os) (client : ℕ) (Open : Type 0) (Accepts : Auth.Parser → Type 0)
    (system : Documented os client) where
  report_lem :
      (r : Report) (s : Socket)
      → Seen Open Accepts r.users
      → Course os client Open Accepts s
      → s.key.conn.freed ≡ false
      → (s' : Socket) × (accept_report os r s ≡ some s') × Course os client Open Accepts s'
  unfolding accept_report
  report_lem r s seen (over done) alive = absurd (cc (done, alive))
  report_lem r s seen (starts k is h) alive =
      let k' = posted r k in
      let h' = Holds-posted client Open Accepts r neg_read (on_conn negotiation_read_init k) h in
      rw is (elim (Bool-cases (is_reported r.event k')) [
        | inr idle ↦ (
          socket os none k',
          ap (λ b. when_reported b (deliver os r.event (socket os none k')) (socket os none k'))
              idle,
          starts k' refl h',
        )
        | inl on ↦
            (let (s', runs, c) =
                starts_lem os client Open Accepts system r.users seen r.event k' refl h'
                  (reported_lem r.event k' on) in
              (
                s',
                ap
                      (λ b.
                        when_reported b (deliver os r.event (socket os none k'))
                          (socket os none k'))
                      on
                    ∙ runs,
                c,
              ))
      ])
  report_lem r s seen (rests st k is live h settled quiet) alive =
      let k' = posted r k in
      let h' = Holds-posted client Open Accepts r st k h in
      let settled' = Settled-posted r st k settled in
      let course : Course os client Open Accepts (socket os (some st) k') =
        rests st k' refl live h' settled' quiet in
      rw is (elim (Bool-cases (is_reported r.event k')) [
        | inr idle ↦ (
          socket os (some st) k',
          ap
              (λ b.
                when_reported b (deliver os r.event (socket os (some st) k'))
                  (socket os (some st) k'))
              idle,
          course,
        )
        | inl on ↦
            (let (s', runs, c) =
                rests_lem os client Open Accepts system r.users seen r.event st k' refl live h'
                  settled' (reported_lem r.event k' on) course in
              (
                s',
                ap
                      (λ b.
                        when_reported b (deliver os r.event (socket os (some st) k'))
                          (socket os (some st) k'))
                      on
                    ∙ runs,
                c,
              ))
      ])

  -- Every store of users that was seen.
  abbrev pub Told : List Report → Type 0
  Told [] = Unit {0}
  Told (r ∷ rs) = Seen Open Accepts r.users × Told rs

  pub serve_lem :
      (rs : List Report) (s : Socket)
      → Told rs
      → Course os client Open Accepts s
      → (s' : Socket) × (serve os rs s ≡ some s') × Course os client Open Accepts s'
  unfolding serve
  serve_lem [] s told c = (s, refl, c)
  serve_lem (r ∷ rs) s (seen, told) c = elim (Bool-cases s.key.conn.freed) [
    | inl done ↦ (let (s', runs, c') = serve_lem rs s told c in (s', rw done runs, c'))
    | inr alive ↦
        (let (s₁, first, c₁) = report_lem r s seen c alive in
          let (s', runs, c') = serve_lem rs s₁ told c₁ in (s', rw alive (rw first runs), c'))
  ]
