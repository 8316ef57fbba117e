-- ===== src/Buffer/Laws.antt =====
-- What the operations of a buffer do to its contents: the buffer refines a bounded byte queue.
use protos_tpe.Prelude.{
  ℕ, suc, ◌+◌, ◌-◌, ◌<◌, ◌≡◌, refl, sym, ap, ◌∙◌, true, false, some, List, [], ◌∷◌, ◌++◌, arith,
  ◌==◌, get_elem?, take, drop, length, drop-cons, length-take, length-drop, take_all,
  take-append_left, length-append, if◌then◌else◌, Bool-cases, inl, inr,
}
use protos_tpe.Buffer.{Buffer, IsValid, contents, can_read, read_byte, compact}

pub length-contents : {b : Buffer} → IsValid b → length (contents b) ≡ b.write - b.read
length-contents {b} v =
    omega (arith, length-take (b.write - b.read) (drop b.read b.bytes), length-drop b.read b.bytes)

pub contents_nil : (b : Buffer) → b.write - b.read ≡ 0 → contents b ≡ []
contents_nil b e = ap (λ n. take n (drop b.read b.bytes)) e

-- The first byte and the others.
contents_cons :
    {b : Buffer}
    → IsValid b
    → b.read < b.write
    → (x : ℕ) × (get_elem? b.bytes b.read ≡ some x)
      × (contents b ≡ x ∷ take (b.write - (b.read + 1)) (drop (b.read + 1) b.bytes))
contents_cons {b} v h =
    let (x, here, split) = drop-cons b.read b.bytes (omega arith) in
    let n = b.write - (b.read + 1) in
    let e : b.write - b.read ≡ suc n = omega arith in
    let k : suc b.read ≡ b.read + 1 = omega arith in
    (x, here, rw (e, split) (ap (λ j. x ∷ take n (drop j b.bytes)) k))

-- `buffer_compact` keeps the contents and moves them to the start.
pub record Compacted (b b' : Buffer) : Type 0 where
  pub valid : IsValid b'
  pub same : contents b' ≡ contents b
  pub read_zero : b'.read ≡ 0
  pub write_pending : b'.write ≡ b.write - b.read
  pub same_limit : b'.limit ≡ b.limit

moved : Buffer → Buffer
moved b =
    let n = b.write - b.read in
    record b { bytes = take n (drop b.read b.bytes) ++ drop n b.bytes; read = 0; write = n }

moved_lem : {b : Buffer} → IsValid b → Compacted b (moved b)
unfolding moved
moved_lem {b} v =
    let n = b.write - b.read in
    let len : length (take n (drop b.read b.bytes)) ≡ n = length-contents v in
    record {
      valid = record {
        storage = omega (
          arith,
          length-append (take n (drop b.read b.bytes)) (drop n b.bytes),
          length-drop n b.bytes,
        );
        read_le = omega arith;
        write_le = omega arith;
      };
      same =
          ap (λ k. take k (take n (drop b.read b.bytes) ++ drop n b.bytes)) {x = n - 0}
            (omega arith)
          ∙ take-append_left n (take n (drop b.read b.bytes)) (drop n b.bytes) (omega arith)
          ∙ take_all n (take n (drop b.read b.bytes)) (omega arith);
      read_zero = refl;
      write_pending = refl;
      same_limit = refl;
    }

-- `buffer_compact` on a valid buffer keeps the contents, moves them to the start of the storage and
-- leaves a valid buffer with the same limit.
pub compact_lem : {b : Buffer} → IsValid b → Compacted b (compact b)
unfolding compact moved
compact_lem {b} v = elim (Bool-cases (b.read == 0)) [
  | inl z ↦ rw z (record {
    valid = v;
    same = refl;
    read_zero = ground arith;
    write_pending = ground arith;
    same_limit = refl;
  })
  | inr z ↦ elim (Bool-cases (b.read == b.write)) [
    | inl e ↦
        rw (z, e)
          (record {
            valid = ground arith;
            same = sym (contents_nil b (ground arith));
            read_zero = refl;
            write_pending = ground arith;
            same_limit = refl;
          })
    | inr e ↦ rw (z, e) (moved_lem v)
  ]
]

-- What `buffer_read` leaves when `rest` is behind the byte that it takes.
pub record Popped (b b' : Buffer) (rest : List ℕ) : Type 0 where
  pub valid : IsValid b'
  pub left : contents b' ≡ rest
  pub same_limit : b'.limit ≡ b.limit
  pub drained : rest ≡ [] → b'.write ≡ 0

popped : Buffer → Buffer
popped b =
    let r = b.read + 1 in
    if r == b.write then record b { read = 0; write = 0 } else record b { read = r }

popped_lem :
    {b : Buffer}
    → IsValid b
    → b.read < b.write
    → Popped b (popped b) (take (b.write - (b.read + 1)) (drop (b.read + 1) b.bytes))
unfolding popped
popped_lem {b} v h = elim (Bool-cases (b.read + 1 == b.write)) [
  | inl e ↦
      let last : b.write - (b.read + 1) ≡ 0 = ground arith in
      rw (e, last)
        (record { valid = omega arith; left = refl; same_limit = refl; drained = λ _. refl })
  | inr e ↦ rw e (record {
    valid = ground arith;
    left = refl;
    same_limit = refl;
    drained = λ nil. absurd (
        ground (
          arith,
          ap (length {A = ℕ}) nil,
          length-take (b.write - (b.read + 1)) (drop (b.read + 1) b.bytes),
          length-drop (b.read + 1) b.bytes,
        ));
  })
]

read_byte-eq-popped :
    (b : Buffer) (x : ℕ)
    → b.read < b.write
    → get_elem? b.bytes b.read ≡ some x
    → read_byte b ≡ some (x, popped b)
unfolding read_byte popped
read_byte-eq-popped b x h e = ground arith

-- `buffer_read` on a valid buffer with contents `c ∷ rest` returns `c` and leaves a valid buffer
-- with contents `rest`, whose write position is 0 if nothing is left.
pub read_byte_cons :
    {b : Buffer} {c : ℕ} {rest : List ℕ}
    → IsValid b
    → contents b ≡ c ∷ rest
    → (b' : Buffer) × (read_byte b ≡ some (c, b')) × Popped b b' rest
read_byte_cons {b} {c} {rest} v e =
    let some_left : b.read < b.write = omega (arith, length-contents v, ap (length {A = ℕ}) e) in
    let (x, here, split) = contents_cons v some_left in
    let n = take (b.write - (b.read + 1)) (drop (b.read + 1) b.bytes) in
    let head : x ≡ c = cc in
    let others : n ≡ rest = cc in
    (
      popped b,
      rw (← head) (read_byte-eq-popped b x some_left here),
      rw (← others) (popped_lem v some_left),
    )

pub can_read-nil : {b : Buffer} → IsValid b → contents b ≡ [] → can_read b ≡ false
unfolding can_read
can_read-nil {b} v e = ground (arith, length-contents v, ap (length {A = ℕ}) e)

pub can_read-cons :
    {b : Buffer} {c : ℕ} {cs : List ℕ} → IsValid b → contents b ≡ c ∷ cs → can_read b ≡ true
unfolding can_read
can_read-cons {b} v e = ground (arith, length-contents v, ap (length {A = ℕ}) e)

pub can_read-false : {b : Buffer} → IsValid b → can_read b ≡ false → contents b ≡ []
unfolding can_read
can_read-false {b} v h = contents_nil b (ground arith)
