-- ===== src/Socks5/Replying.antt =====
-- `request_fail` and the write handlers of server/socks5.c, as what they keep.
use protos_tpe.Prelude.{
  ℕ, ◌+◌, ◌<◌, ◌≤◌, ◌≡◌, ◌≢◌, refl, ap, ◌∙◌, Bool, true, false, Option, none, some, List, [], ◌∷◌,
  arith, Bool-cases, inl, inr, length, length-append, ◌⊎◌,
}
use protos_tpe.Buffer.{Buffer, contents}
use protos_tpe.Buffer.Fed.{Pushed-IsDrained}
use protos_tpe.Buffer.Writes.{Pushed}
use protos_tpe.Auth
use protos_tpe.Request.{atyp_ipv4}
use protos_tpe.Request.Reply.{fill_reply-null}
use protos_tpe.Selector.{Interest}
use protos_tpe.Socks5.{State, failed, req_write, code, Conn, Key, no_fd, same_fd, noop, writing}
use protos_tpe.Socks5.Os.{Os, Side, client_side, set_interest, called, arm}
use protos_tpe.Socks5.Connect.{
  request_fail, request_fail-logged, drop_origin, drop_fd, armed_or_failed,
}
use protos_tpe.Users.{Users}
use protos_tpe.Socks5.Machine.{arrival_of, is_read_state}
use protos_tpe.Socks5.Holds.{Base, Buffers, RefsOf, one_if, fds, Admits, Calm, Holds, Connected}
use protos_tpe.Socks5.Closing.{without, close_lem}

-- `selector_set_interest` has two answers.
pub set_interest-cases :
    (os : Os) (side : Side) (i : Interest) (k : Key)
    → (set_interest os side i k ≡ (true, record k { net = arm side i (called k).net }))
      ⊎ (set_interest os side i k ≡ (false, called k))
unfolding set_interest
set_interest-cases os side i k = elim (Bool-cases (os.set_interest k.net.calls)) [
  | inl ok ↦ inl (rw ok refl)
  | inr bad ↦ inr (rw bad refl)
]

-- An empty buffer has room for a reply.
pub reply_room : {rb wb : Buffer} → Buffers rb wb → contents wb ≡ [] → wb.write + 22 ≤ wb.limit
reply_room b e = omega (arith, b.write_drained e, b.write_size)

-- A reply behind nothing.
pub Pushed-Buffers :
    {rb wb out : Buffer} {c : ℕ} {src : List ℕ}
    → Buffers rb wb
    → Pushed wb out (c ∷ src)
    → Buffers rb out × (0 < length (contents out))
Pushed-Buffers {wb = wb} {c = c} {src = src} b p = (
  record {
    read_valid = b.read_valid;
    read_drained = b.read_drained;
    read_size = b.read_size;
    write_valid = p.valid;
    write_drained = Pushed-IsDrained p b.write_drained;
    write_size = omega (arith, p.same_limit, b.write_size);
  },
  omega (arith, ap (length {A = ℕ}) p.grown, length-append (contents wb) (c ∷ src)),
)

pub forget_other :
    (client o : ℕ) (c : Conn)
    → c.client_fd ≡ some client
    → o ≢ client
    → (same_fd o c.client_fd ≡ false) × (no_fd c.client_fd ≡ false)
forget_other client o c e ne = (ap (same_fd o) e ∙ ground arith, ap no_fd e)

module _ (client : ℕ) where
  dropped_fd :
      (o : Option ℕ) (k : Key)
      → RefsOf client k.conn
      → k.conn.origin_fd ≡ o
      → (refs : ℕ) × (job : Bool) × (drop_fd o k ≡ record k { conn = without refs job k.conn })
        × (refs ≡ 1 + one_if job)
  unfolding drop_fd
  dropped_fd none k r e = (
    k.conn.references,
    k.conn.job,
    ap (λ o. record k { conn = record k.conn { origin_fd = o } }) e,
    r.counted ∙ ap (λ o. 1 + fds o + one_if k.conn.job) e,
  )
  dropped_fd (some o) k r e =
      let (other, there) = forget_other client o k.conn r.client_there (r.distinct o e) in
      close_lem (record k { conn = record k.conn { origin_fd = none } }) o there (rw other refl)
        (r.counted ∙ ap (λ x. 1 + fds x + one_if k.conn.job) e)

  -- The origin is given up, and the references are still right.
  dropped :
      (k : Key)
      → RefsOf client k.conn
      → (refs : ℕ) × (job : Bool) × (drop_origin k ≡ record k { conn = without refs job k.conn })
        × (refs ≡ 1 + one_if job)
  dropped k r = dropped_fd k.conn.origin_fd k r refl

-- A handler of the request's phase runs without a fault into a state that has no arrival, and what
-- holds in that state holds.
pub record Yields (os : Os) (client : ℕ) (Open : Type 0) (Accepts : Auth.Parser → Type 0)
    (users : Option Users) (m : Option (State × Key)) : Type 0 where
  pub next : State
  pub key : Key
  pub runs : m ≡ some (next, key)
  pub holds : Holds client Open Accepts next key
  pub same_users : key.server.users_store ≡ users
  pub plain : arrival_of os next ≡ none
  pub quiet : is_read_state (code next) ≡ false

module _ (os : Os) (client : ℕ) (Open : Type 0) (Accepts : Auth.Parser → Type 0) where
  -- The client is armed for writing, or the connection fails.
  pub reply_armed :
      (k : Key) (users : Option Users)
      → k.server.users_store ≡ users
      → Base client k
      → 0 < length (contents k.conn.write_buffer)
      → Admits client Open Accepts k
      → (k.conn.connected ≡ true → Connected client Open Accepts k)
      → (k.conn.origin_fd ≡ none) ⊎ (k.net.origin_armed ≡ noop)
      → Yields os client Open Accepts users
          (some (armed_or_failed req_write (set_interest os client_side writing k)))
  unfolding arrival_of
  reply_armed k users same b pending admits c q =
      elim (set_interest-cases os client_side writing k) [
        | inl ok ↦ record {
          next = req_write;
          key = record k { net = arm client_side writing (called k).net };
          runs = rw ok refl;
          holds = ((b, pending, refl), admits, c, q);
          same_users = same;
          plain = refl;
          quiet = refl;
        }
        | inr bad ↦ record {
          next = failed;
          key = called k;
          runs = rw bad refl;
          holds = b.1;
          same_users = same;
          plain = refl;
          quiet = refl;
        }
      ]

  -- A reply that says no.
  pub request_fail_lem :
      (rep : ℕ) (k : Key) (users : Option Users)
      → k.server.users_store ≡ users
      → Calm client Open Accepts k
      → Yields os client Open Accepts users (request_fail os rep k)
  request_fail_lem rep k users same ((buffers, refs, ledger, plain), nil, admits) =
      let (s, u, logged) = request_fail-logged os rep k in
      let (out, fills, p) =
        fill_reply-null rep atyp_ipv4 buffers.write_valid (reply_room buffers nil) in
      let (buffers', pending) = Pushed-Buffers buffers p in
      let k₁ = record k {
        conn = record k.conn { connected = false; write_buffer = out };
        server = s;
      } in
      let (n, job, gone, counted) = dropped client k₁ refs in
      let k₂ = record k₁ { conn = without n job k₁.conn } in
      let refs' : RefsOf client k₂.conn = record {
        client_there = refs.client_there;
        distinct = λ o e. absurd (cc e);
        counted = counted;
        alive = refs.alive;
      } in
      let y =
        reply_armed k₂ users (u ∙ same) (buffers', refs', ledger, plain) pending admits
          (λ e. absurd (cc e)) (inl refl) in
      record {
        next = y.next;
        key = y.key;
        runs = logged ∙ rw fills (rw gone y.runs);
        holds = y.holds;
        same_users = y.same_users;
        plain = y.plain;
        quiet = y.quiet;
      }
