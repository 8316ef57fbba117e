-- ===== src/Auth/Bounds.antt =====
-- The user/password parser stays within its arrays, and what its reply is.
use protos_tpe.Prelude.{ℕ, ◌+◌, ◌≤◌, ◌<◌, ◌≡◌, some, [], ◌∷◌, arith, length, set, length-set}
use protos_tpe.Buffer.{Buffer, IsValid}
use protos_tpe.Buffer.Writes.{Pushed, Pushed-trans, write_byte_room}
use protos_tpe.Auth.{Parser, init, uname_bytes, passwd_bytes, step, fill_reply, auth_version}
use protos_tpe.Auth.Laws.{IsSized}

-- The counters and the lengths that index the arrays: in range, whatever arrives.
pub record InBounds (p : Parser) : Type 0 where
  pub uname_size : length p.uname ≡ 256
  pub passwd_size : length p.passwd ≡ 256
  pub ulen_byte : p.ulen < 256
  pub plen_byte : p.plen < 256
  pub uname_room : p.state ≡ uname_bytes → p.uname_read < p.ulen
  pub passwd_room : p.state ≡ passwd_bytes → p.passwd_read < p.plen

init-InBounds : (p : Parser) → IsSized p → InBounds (init p)
unfolding init
init-InBounds p s = ground (arith, length-set p.uname 0 0, length-set p.passwd 0 0)

-- A byte, in any state of a parser within its bounds, leaves it within its bounds: arrays of 256
-- bytes, lengths below 256, and in the states that store a byte a position below the length, so
-- that no write is outside of `uname` and `passwd` and no `uint8_t` counter wraps.
pub auth_step-InBounds : (p : Parser) (c : ℕ) → c < 256 → InBounds p → InBounds (step p c)
unfolding step
auth_step-InBounds p c hc v = ground (
  arith,
  length-set p.uname 0 0,
  length-set p.uname p.uname_read c,
  length-set (set p.uname p.uname_read c) p.ulen 0,
  length-set p.passwd 0 0,
  length-set p.passwd p.passwd_read c,
  length-set (set p.passwd p.passwd_read c) p.plen 0,
)

-- With room for two bytes, the reply appends version and status to what the valid buffer holds.
pub fill_reply-status :
    (status : ℕ) {b : Buffer}
    → IsValid b
    → b.write + 2 ≤ b.limit
    → (b' : Buffer) × (fill_reply b status ≡ some b') × Pushed b b' (auth_version ∷ status ∷ [])
unfolding fill_reply
fill_reply-status status {b} v h =
    let (m, first, q) = write_byte_room auth_version v (omega arith) in
    let (b', second, r) =
      write_byte_room status q.valid (omega (arith, q.advanced, q.same_limit)) in
    (b', rw first second, Pushed-trans q r)
