-- ===== src/Socks5/Ending.antt =====
-- `socks5_done` frees the connection.
use protos_tpe.Prelude.{
  ℕ, ◌+◌, ◌-◌, ◌≡◌, refl, sym, ap, ◌∙◌, true, false, ◌&&◌, Option, none, some, arith, ◌==◌,
  Bool-cases, inl, inr,
}
use protos_tpe.Socks5.{Conn, Key, same_fd, no_fd}
use protos_tpe.Socks5.Close.{
  close, close_forgotten, leave_job, close_if, forget_fd, free_if_unreferenced, mark_inactive,
  cancel_conn, finish,
}
use protos_tpe.Socks5.Holds.{one_if, fds, RefsOf}

-- `conn_mark_inactive` touches nothing that is counted here.
mark_inactive-same :
    (k : Key)
    → ((mark_inactive k).conn.references ≡ k.conn.references)
      × ((mark_inactive k).conn.job ≡ k.conn.job)
      × ((mark_inactive k).conn.client_fd ≡ k.conn.client_fd)
      × ((mark_inactive k).conn.origin_fd ≡ k.conn.origin_fd)
unfolding mark_inactive
mark_inactive-same k = elim (Bool-cases k.conn.active_counted) [
  | inl e ↦ rw e (refl, refl, refl, refl)
  | inr e ↦ rw e (refl, refl, refl, refl)
]

cancel_conn-counted :
    (c : Conn) (n : ℕ)
    → c.references ≡ n + one_if c.job
    → ((cancel_conn c).references ≡ n)
      × ((cancel_conn c).job ≡ false)
      × ((cancel_conn c).client_fd ≡ c.client_fd)
      × ((cancel_conn c).origin_fd ≡ c.origin_fd)
unfolding cancel_conn
cancel_conn-counted c n h = elim (Bool-cases c.job) [
  | inl e ↦ rw e (ground arith, refl, refl, refl)
  | inr e ↦ rw e (ground arith, refl, refl, refl)
]

-- A connection that holds neither descriptor, with `n` other references than its job.
pub record Released (n : ℕ) (c : Conn) : Type 0 where
  pub no_client : c.client_fd ≡ none
  pub no_origin : c.origin_fd ≡ none
  pub counted : c.references ≡ n + one_if c.job

forgets : {n : ℕ} (fd : ℕ) (k : Key) → Released n k.conn → forget_fd fd k.conn ≡ k.conn
forgets fd k r =
    let client : same_fd fd k.conn.client_fd ≡ false = ap (same_fd fd) r.no_client in
    let origin : same_fd fd k.conn.origin_fd ≡ false = ap (same_fd fd) r.no_origin in
    rw client (rw origin refl)

-- `socks5_close` in front of its last call.
before_free :
    (n fd : ℕ) (k : Key)
    → Released (n + 1) k.conn
    → (k' : Key) × (close fd k ≡ free_if_unreferenced k')
      × (k'.conn.references ≡ n)
      × (k'.conn.job ≡ false)
      × (k'.conn.client_fd ≡ none)
      × (k'.conn.origin_fd ≡ none)
unfolding close close_forgotten leave_job
before_free n fd k r =
    let c = record k.conn { references = k.conn.references - 1 } in
    let k₁ = record k { conn = c } in
    let m = mark_inactive k₁ in
    let s = mark_inactive-same k₁ in
    let counted : m.conn.references ≡ n + one_if m.conn.job =
      omega (arith, s.0, r.counted, ap one_if s.1) in
    let d = cancel_conn-counted m.conn n counted in
    let both : (no_fd k.conn.client_fd && no_fd k.conn.origin_fd) ≡ true =
      ap (λ o. no_fd o && no_fd k.conn.origin_fd) r.no_client ∙ ap no_fd r.no_origin in
    (
      record m { conn = cancel_conn m.conn },
      ap (λ x. close_forgotten x k) (forgets fd k r)
          ∙ ap (λ b. free_if_unreferenced (leave_job b k₁)) both,
      d.0,
      d.1,
      d.2 ∙ s.2 ∙ r.no_client,
      d.3 ∙ s.3 ∙ r.no_origin,
    )

free_at_zero : (k : Key) → k.conn.references ≡ 0 → (free_if_unreferenced k).conn.freed ≡ true
unfolding free_if_unreferenced
free_at_zero k e = let z : (k.conn.references == 0) ≡ true = ground arith in rw z refl

kept_above_zero : (n : ℕ) (k : Key) → k.conn.references ≡ n + 1 → free_if_unreferenced k ≡ k
unfolding free_if_unreferenced
kept_above_zero n k e = let z : (k.conn.references == 0) ≡ false = ground arith in rw z refl

-- The last descriptor.
last_close : (fd : ℕ) (k : Key) → Released 1 k.conn → (close fd k).conn.freed ≡ true
last_close fd k r =
    let (k', e, zero_, _, _, _) = before_free 0 fd k r in rw e (free_at_zero k' zero_)

first_close : (fd : ℕ) (k : Key) → Released 2 k.conn → Released 1 (close fd k).conn
first_close fd k r =
    let (k', e, one, idle, c, o) = before_free 1 fd k r in
    rw e (
      rw (kept_above_zero 0 k' one) (record {
        no_client = c;
        no_origin = o;
        counted = one ∙ ap (λ b. 1 + one_if b) (sym idle);
      }))

closes_both :
    (client : ℕ) (o : Option ℕ) (k : Key)
    → Released (1 + fds o) k.conn
    → (close client (close_if o k)).conn.freed ≡ true
closes_both client none k r = last_close client k r
closes_both client (some fd) k r = last_close client (close fd k) (first_close fd k r)

-- On a connection that has the client's descriptor and another one or none for the origin, and whose
-- references are these descriptors and the job, `socks5_done` frees the connection.
pub finish-freed : (client : ℕ) (k : Key) → RefsOf client k.conn → (finish k).conn.freed ≡ true
unfolding finish
finish-freed client k r =
    let k' = record k { conn = record k.conn { client_fd = none; origin_fd = none } } in
    ap (λ c. (close_if c (close_if k.conn.origin_fd k')).conn.freed) r.client_there
    ∙ closes_both client k.conn.origin_fd k'
        (record { no_client = refl; no_origin = refl; counted = r.counted })
