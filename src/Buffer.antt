-- ===== src/Buffer.antt =====
-- shared/buffer.c: a byte buffer with a read and a write position. The pointers of `struct buffer`
-- are offsets from `data`; `none` is a failed `assert` or an access outside the storage.
pub mod Laws
pub mod Writes
pub mod Feed
pub mod Fed
pub mod Reads
pub mod Tests
use protos_tpe.Prelude.{
  ℕ, suc, ◌+◌, ◌-◌, ◌*◌, ◌≡◌, Bool, Option, none, some, List, [], ◌∷◌, ◌++◌, ltb, leb, ◌==◌,
  if◌then◌else◌, ◌>>=◌, ℤ, pos, negsuc, get_elem?, set, take, drop, length, ◌≤◌,
}

-- `struct buffer`
pub record Buffer : Type 0 where
  pub bytes : List ℕ
  pub limit : ℕ
  pub read : ℕ
  pub write : ℕ

unfoldable pub reset : Buffer → Buffer
reset b = record b { read = 0; write = 0 }

unfoldable pub init : ℕ → List ℕ → Buffer
unfolding reset
init n storage = record (reset (record { bytes = storage; limit = n; read = 0; write = 0 })) {
  limit = n;
}

unfoldable pub can_write : Buffer → Bool
can_write b = ltb b.write b.limit

unfoldable pub can_read : Buffer → Bool
can_read b = ltb b.read b.write

-- The position to write at and the room behind it; `assert(b->write <= b->limit)`.
unfoldable pub write_ptr : Buffer → Option (ℕ × ℕ)
write_ptr b = if leb b.write b.limit then some (b.write, b.limit - b.write) else none

-- The position to read at and the number of bytes there; `assert(b->read <= b->write)`.
unfoldable pub read_ptr : Buffer → Option (ℕ × ℕ)
read_ptr b = if leb b.read b.write then some (b.read, b.write - b.read) else none

-- A negative count, an error of `recv`, is ignored.
unfoldable pub write_adv : Buffer → ℤ → Option Buffer
write_adv b (negsuc _) = some b
write_adv b (pos n) =
    if leb (b.write + n) b.limit then some (record b { write = b.write + n }) else none

-- `memmove(data, read, n)` in the last case
unfoldable pub compact : Buffer → Buffer
compact b =
    if b.read == 0
    then b
    else if b.read == b.write
    then record b { read = 0; write = 0 }
    else (let n = b.write - b.read in
        record b { bytes = take n (drop b.read b.bytes) ++ drop n b.bytes; read = 0; write = n })

unfoldable pub read_adv : Buffer → ℤ → Option Buffer
unfolding compact
read_adv b (negsuc _) = some b
read_adv b (pos n) =
    let c = record b { read = b.read + n } in
    if leb c.read c.write then some (if c.read == c.write then compact c else c) else none

-- `buffer_read`: 0 where there is nothing to read
unfoldable pub read_byte : Buffer → Option (ℕ × Buffer)
unfolding can_read read_adv
read_byte b =
    if can_read b
    then (do c ← get_elem? b.bytes b.read; b' ← read_adv b (pos 1); some (c, b'))
    else some (0, b)

-- `buffer_write`: nothing is written where there is no room
unfoldable pub write_byte : Buffer → ℕ → Option Buffer
unfolding can_write write_adv
write_byte b c =
    if can_write b then write_adv (record b { bytes = set b.bytes b.write c }) (pos 1) else some b

-- The bytes that wait to be read.
abbrev pub contents : Buffer → List ℕ
contents b = take (b.write - b.read) (drop b.read b.bytes)

-- The invariant of buffer.h: R <= W <= limit, inside the storage.
pub record IsValid (b : Buffer) : Type 0 where
  pub storage : b.limit ≤ length b.bytes
  pub read_le : b.read ≤ b.write
  pub write_le : b.write ≤ b.limit

-- `memcpy(ptr, src, n)` at the write position, then `buffer_write_adv(b, n)`: the way in which
-- `recv` and `out_printf` fill a buffer.
unfoldable pub fill : Buffer → List ℕ → Option Buffer
unfolding write_adv
fill b src =
    write_adv
      (record b { bytes = take b.write b.bytes ++ (src ++ drop (b.write + length src) b.bytes) })
      (pos (length src))

-- A row of `buffer_write` calls.
unfoldable pub write_bytes : Buffer → List ℕ → Option Buffer
unfolding write_byte
write_bytes b [] = some b
write_bytes b (c ∷ cs) = do b' ← write_byte b c; write_bytes b' cs
