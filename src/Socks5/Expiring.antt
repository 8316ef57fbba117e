-- ===== src/Socks5/Expiring.antt =====
-- What the sweep of server/socks5.c does with a connection whose time is over.
use protos_tpe.Prelude.{
  ℕ, ◌⊎◌, true, ◌+◌, ◌-◌, ◌≡◌, refl, sym, ap, ◌∙◌, subst, Bool, false, Option, none, some, arith,
  if◌then◌else◌, ◌>>=◌, Bool-cases, inl, inr,
}
use protos_tpe.Auth
use protos_tpe.Users.{Users}
use protos_tpe.Socks5.{
  State, neg_read, neg_write, auth_read, auth_write, req_read, req_resolve, req_connecting,
  req_write, relay, finished, failed, code, Conn, Key, no_fd,
}
use protos_tpe.Socks5.Os.{Os}
use protos_tpe.Socks5.Access.{rep_general_failure, rep_ttl_expired}
use protos_tpe.Socks5.Close.{cancel_conn, finish}
use protos_tpe.Socks5.Machine.{Socket, arrival_of, is_read_state}
use protos_tpe.Socks5.Fire.{socket}
use protos_tpe.Socks5.Connect.{armed_or_failed, request_fail, request_fail-logged}
use protos_tpe.Socks5.Reaper.{enter, expire, client_key}
use protos_tpe.Socks5.Holds.{Calm, RefsOf, Holds, Documented, fds, one_if}
use protos_tpe.Socks5.Replying.{Yields, request_fail_lem}
use protos_tpe.Socks5.Ending.{finish-freed}
use protos_tpe.Socks5.Course.{Course, rests, over, Holds-Refs}

cancelled :
    (c : Conn) (n : ℕ)
    → c.references ≡ n + one_if c.job
    → (refs : ℕ) × (job : Bool) × (cancel_conn c ≡ record c { references = refs; job = job })
      × (refs ≡ n + one_if job)
unfolding cancel_conn
cancelled c n h = elim (Bool-cases c.job) [
  | inr idle ↦ (c.references, c.job, rw idle refl, h)
  | inl held ↦ (c.references - 1, false, rw held refl, ground arith)
]

client_stays :
    (c : Conn) {client : ℕ} → c.client_fd ≡ some client → no_fd (cancel_conn c).client_fd ≡ false
unfolding cancel_conn
client_stays c there = elim (Bool-cases c.job) [
  | inr idle ↦
      ap
        (λ b.
          no_fd
            (if b then record c { job = false; references = c.references - 1 } else c).client_fd)
        idle
      ∙ ap no_fd there
  | inl held ↦
      ap
        (λ b.
          no_fd
            (if b then record c { job = false; references = c.references - 1 } else c).client_fd)
        held
      ∙ ap no_fd there
]

armed-next :
    {A : Type 0} (o : Option A) (f : A → Bool × Key) (next : State) (k : Key)
    → (o >>= λ a. some (armed_or_failed req_write (f a))) ≡ some (next, k)
    → (next ≡ req_write) ⊎ (next ≡ failed)
armed-next none f next k e = absurd (cc e)
armed-next (some a) f next k e =
    let same : (if (f a).0 then req_write else failed) ≡ next =
      ap (λ (o : Option (State × Key)). elim o [ none ↦ failed | some r ↦ r.0 ]) e in
    elim (Bool-cases (f a).0) [
      | inl ok ↦ inl (sym same ∙ ap (λ b. if b then req_write else failed) ok)
      | inr bad ↦ inr (sym same ∙ ap (λ b. if b then req_write else failed) bad)
    ]

-- `request_fail` goes on to write its reply, or fails.
request_fail-next :
    (os : Os) (rep : ℕ) (k : Key) (next : State) (k' : Key)
    → request_fail os rep k ≡ some (next, k')
    → (next ≡ req_write) ⊎ (next ≡ failed)
request_fail-next os rep k next k' e =
    let (s, u, logged) = request_fail-logged os rep k in armed-next _ _ next k' (sym logged ∙ e)

module _ (os : Os) (client : ℕ) (Open : Type 0) (Accepts : Auth.Parser → Type 0)
    (system : Documented os client) where
  pub enter-Course :
      (now : ℕ) (s : State) (k₀ : Key) (st : State) (k : Key)
      → Holds client Open Accepts st k
      → arrival_of os st ≡ none
      → is_read_state (code st) ≡ false
      → Course os client Open Accepts (enter now (socket os (some s) k₀) (st, k))
  unfolding arrival_of
  enter-Course now s k₀ finished k h plain quiet =
      over (finish-freed client k (Holds-Refs os client Open Accepts finished k h))
  enter-Course now s k₀ failed k h plain quiet =
      over (finish-freed client k (Holds-Refs os client Open Accepts failed k h))
  enter-Course now s k₀ neg_read k h plain quiet = absurd (cc quiet)
  enter-Course now s k₀ auth_read k h plain quiet = absurd (cc quiet)
  enter-Course now s k₀ req_read k h plain quiet = absurd (cc quiet)
  enter-Course now s k₀ relay k h plain quiet = absurd (cc plain)
  enter-Course now s k₀ neg_write k h plain quiet =
      rests neg_write _ refl tt h tt (λ e. absurd (cc e))
  enter-Course now s k₀ auth_write k h plain quiet =
      rests auth_write _ refl tt h tt (λ e. absurd (cc e))
  enter-Course now s k₀ req_resolve k h plain quiet =
      rests req_resolve _ refl tt h tt (λ e. absurd (cc e))
  enter-Course now s k₀ req_connecting k h plain quiet =
      rests req_connecting _ refl tt h tt (λ e. absurd (cc e))
  enter-Course now s k₀ req_write k h plain quiet =
      rests req_write _ refl tt h tt (λ e. absurd (cc e))

  -- The state that is entered has the time of the sweep for its last activity, or the connection is
  -- freed.
  pub enter-stamped :
      (now : ℕ) (s : State) (k₀ : Key) (st : State) (k : Key)
      → Holds client Open Accepts st k
      → let s' = enter now (socket os (some s) k₀) (st, k) in
        (s'.key.conn.freed ≡ true) ⊎ (s'.key.conn.last_activity ≡ now)
  enter-stamped now s k₀ finished k h =
      inl (finish-freed client k (Holds-Refs os client Open Accepts finished k h))
  enter-stamped now s k₀ failed k h =
      inl (finish-freed client k (Holds-Refs os client Open Accepts failed k h))
  enter-stamped now s k₀ neg_read k h = inr refl
  enter-stamped now s k₀ neg_write k h = inr refl
  enter-stamped now s k₀ auth_read k h = inr refl
  enter-stamped now s k₀ auth_write k h = inr refl
  enter-stamped now s k₀ req_read k h = inr refl
  enter-stamped now s k₀ req_resolve k h = inr refl
  enter-stamped now s k₀ req_connecting k h = inr refl
  enter-stamped now s k₀ req_write k h = inr refl
  enter-stamped now s k₀ relay k h = inr refl

  -- A reply of the request's phase leads to a rest or to the end.
  pub enter_lem :
      (now : ℕ) (s : State) (k₀ : Key) (users : Option Users) (m : Option (State × Key))
      → Yields os client Open Accepts users m
      → (s' : Socket) × ((do r ← m; some (enter now (socket os (some s) k₀) r)) ≡ some s')
        × Course os client Open Accepts s'
        × ((s'.key.conn.freed ≡ true) ⊎ (s'.key.conn.last_activity ≡ now))
  enter_lem now s k₀ users m y = (
    enter now (socket os (some s) k₀) (y.next, y.key),
    ap (λ o. (do r ← o; some (enter now (socket os (some s) k₀) r))) y.runs,
    enter-Course now s k₀ y.next y.key y.holds y.plain y.quiet,
    enter-stamped now s k₀ y.next y.key y.holds,
  )

  -- The outcome of a connection whose time is over.
  abbrev pub Ended : ℕ → ℕ → Socket → Socket → Type 0
  Ended now st s s' =
      (s'.key.conn.freed ≡ true)
      ⊎ (((st ≡ code req_resolve) ⊎ (st ≡ code req_connecting))
          × (s'.stm.current ≡ some (code req_write))
          × (s'.key.conn.last_activity ≡ now))

  abbrev pub Expires : ℕ → ℕ → Option Socket → Socket → Type 0
  Expires now st o s =
      (s' : Socket) × (o ≡ some s') × Course os client Open Accepts s' × Ended now st s s'

  -- A connection that gets an error for its reply.
  failing :
      (now : ℕ) (s : State) (k₀ : Key) (rep : ℕ) (k : Key)
      → (code s ≡ code req_resolve) ⊎ (code s ≡ code req_connecting)
      → Calm client Open Accepts k
      → Expires now
          (code s)
          (do r ← request_fail os rep k; some (enter now (socket os (some s) k₀) r))
          (socket os (some s) k₀)
  failing now s k₀ rep k asking calm =
      let y = request_fail_lem os client Open Accepts rep k k.server.users_store refl calm in
      let go =
        λ (o : Option (State × Key)). (do r ← o; some (enter now (socket os (some s) k₀) r)) in
      (
        _,
        ap go y.runs,
        enter-Course now s k₀ y.next y.key y.holds y.plain y.quiet,
        reply_or_end y.next y.key y.holds (request_fail-next os rep k y.next y.key y.runs),
      )
    where
      reply_or_end :
          (st : State) (k' : Key)
          → Holds client Open Accepts st k'
          → (st ≡ req_write) ⊎ (st ≡ failed)
          → Ended now (code s) (socket os (some s) k₀) (enter now (socket os (some s) k₀) (st, k'))
      reply_or_end st k' h (inl e) = inr (
        asking,
        ap (λ x. (enter now (socket os (some s) k₀) (x, k')).stm.current) e,
        ap (λ x. (enter now (socket os (some s) k₀) (x, k')).key.conn.last_activity) e,
      )
      reply_or_end st k' h (inr e) = inl (
          ap (λ x. (enter now (socket os (some s) k₀) (x, k')).key.conn.freed) e
          ∙ finish-freed client k' (Holds-Refs os client Open Accepts st k' h))

  -- The job is given up, and the reference that it held.
  cancelled-Calm :
      (k : Key)
      → Calm client Open Accepts k
      → Calm client Open Accepts (record k { conn = cancel_conn k.conn })
  cancelled-Calm k ((buffers, refs, ledger, plain), nil, admits) =
      let (n, job, e, counted) = cancelled k.conn (1 + fds k.conn.origin_fd) refs.counted in
      let refs' : RefsOf client (record k.conn { references = n; job = job }) = record {
        client_there = refs.client_there;
        distinct = refs.distinct;
        counted = counted;
        alive = refs.alive;
      } in
      subst (λ c. Calm client Open Accepts (record k { conn = c })) (sym e)
        ((buffers, refs', ledger, plain), nil, admits)

  -- A state in which the sweep closes the connection.
  pub finishing :
      (now : ℕ) (st : ℕ) (s : Socket)
      → RefsOf client s.key.conn
      → Expires now st (some (record s { key = finish (client_key s.key) })) s
  finishing now st s r =
      let done = finish-freed client (client_key s.key) r in (_, refl, over done, inl done)

  pub expire_lem :
      (now : ℕ) (st : State) (k : Key)
      → Holds client Open Accepts st k
      → Expires now
          (code st)
          (expire os now (code st) (socket os (some st) k))
          (socket os (some st) k)
  unfolding expire
  expire_lem now req_connecting k h =
      failing now req_connecting k rep_ttl_expired (client_key k) (inr refl) h.0
  expire_lem now req_resolve k h =
      let k' = record (client_key k) { conn = cancel_conn k.conn } in
      let (s', runs, c, e) =
        failing now req_resolve k rep_general_failure k' (inl refl)
          (cancelled-Calm (client_key k) h.0) in
      (s', rw (client_stays k.conn h.0.0.1.client_there, expire) runs, c, e)
  expire_lem now neg_read k h =
      finishing now _ (socket os (some neg_read) k) (Holds-Refs os client Open Accepts neg_read k h)
  expire_lem now neg_write k h =
      finishing now _ (socket os (some neg_write) k)
        (Holds-Refs os client Open Accepts neg_write k h)
  expire_lem now auth_read k h =
      finishing now _ (socket os (some auth_read) k)
        (Holds-Refs os client Open Accepts auth_read k h)
  expire_lem now auth_write k h =
      finishing now _ (socket os (some auth_write) k)
        (Holds-Refs os client Open Accepts auth_write k h)
  expire_lem now req_read k h =
      finishing now _ (socket os (some req_read) k) (Holds-Refs os client Open Accepts req_read k h)
  expire_lem now req_write k h =
      finishing now _ (socket os (some req_write) k)
        (Holds-Refs os client Open Accepts req_write k h)
  expire_lem now relay k h =
      finishing now _ (socket os (some relay) k) (Holds-Refs os client Open Accepts relay k h)
  expire_lem now finished k h =
      finishing now _ (socket os (some finished) k) (Holds-Refs os client Open Accepts finished k h)
  expire_lem now failed k h =
      finishing now _ (socket os (some failed) k) (Holds-Refs os client Open Accepts failed k h)
