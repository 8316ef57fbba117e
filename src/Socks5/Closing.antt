-- ===== src/Socks5/Closing.antt =====
-- How the origin's descriptor is given up: the references stay the descriptors and the job.
use protos_tpe.Prelude.{ℕ, ◌+◌, ◌-◌, ◌≡◌, ◌≢◌, refl, Bool, false, none, arith, Bool-cases, inl, inr}
use protos_tpe.Socks5.{Conn, Key, no_fd}
use protos_tpe.Socks5.Close.{close, forget_fd, take_completed, free_if_unreferenced}
use protos_tpe.Socks5.Holds.{one_if}

-- A connection without its origin.
abbrev pub without : ℕ → Bool → Conn → Conn
without references job c = record c { origin_fd = none; references = references; job = job }

pub taken :
    (c : Conn) (n : ℕ)
    → c.references ≡ n + one_if c.job
    → (refs : ℕ) × (job : Bool) × ((take_completed c).1 ≡ record c { references = refs; job = job })
      × (refs ≡ n + one_if job)
unfolding take_completed
taken c n h = elim (Bool-cases c.job) [
  | inr none_ ↦ (c.references, c.job, rw none_ refl, h)
  | inl held ↦ elim (Bool-cases c.job_completed) [
    | inr busy ↦ (c.references, c.job, rw (held, busy) refl, h)
    | inl done_ ↦ (c.references - 1, false, rw (held, done_) refl, ground arith)
  ]
]

alive_key : (k : Key) → k.conn.references ≢ 0 → free_if_unreferenced k ≡ k
unfolding free_if_unreferenced
alive_key k h = ground arith

pub close_lem :
    (k : Key) (o : ℕ)
    → no_fd k.conn.client_fd ≡ false
    → forget_fd o k.conn ≡ record k.conn { origin_fd = none }
    → k.conn.references ≡ 2 + one_if k.conn.job
    → (refs : ℕ) × (job : Bool) × (close o k ≡ record k { conn = without refs job k.conn })
      × (refs ≡ 1 + one_if job)
unfolding close
close_lem k o there gone h =
    let c = record k.conn { origin_fd = none; references = k.conn.references - 1 } in
    let (refs, job, e, n) = taken c 1 (omega arith) in
    let k' = record k { conn = without refs job k.conn } in
    (refs, job, rw gone (rw there (rw e (alive_key k' (omega arith)))), n)
