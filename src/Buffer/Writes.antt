-- ===== src/Buffer/Writes.antt =====
-- What the writes into a buffer do to its contents.
use protos_tpe.Prelude.{
  ℕ, suc, ◌+◌, ◌-◌, ◌≤◌, ◌<◌, ◌≡◌, refl, sym, ap, ◌∙◌, some, List, [], ◌∷◌, ◌++◌, arith, set, take,
  drop, length, length-set, drop-set, take-suc-set, length-take, length-drop, append_assoc,
  length-append, append-nil, drop-append_left, drop-take, take-append_right, Option-cases, ◌>>=◌,
  inl, inr,
}
use protos_tpe.Buffer.{Buffer, IsValid, contents, write_byte, fill, write_bytes}
use protos_tpe.Buffer.Laws.{length-contents}

-- With room, `buffer_write` appends its byte.
pub record Pushed (b b' : Buffer) (src : List ℕ) : Type 0 where
  pub valid : IsValid b'
  pub grown : contents b' ≡ contents b ++ src
  pub advanced : b'.write ≡ b.write + length src
  pub same_read : b'.read ≡ b.read
  pub same_limit : b'.limit ≡ b.limit

pub Pushed-trans :
    {a b c : Buffer} {xs ys : List ℕ} → Pushed a b xs → Pushed b c ys → Pushed a c (xs ++ ys)
Pushed-trans {a} {b} {c} {xs} {ys} p q = record {
  valid = q.valid;
  grown = q.grown ∙ ap (λ zs. zs ++ ys) p.grown ∙ append_assoc (contents a) xs ys;
  advanced = omega (arith, p.advanced, q.advanced, length-append xs ys);
  same_read = q.same_read ∙ p.same_read;
  same_limit = q.same_limit ∙ p.same_limit;
}

set_grows :
    {b : Buffer} (c : ℕ)
    → IsValid b
    → b.write < b.limit
    → contents (record b { bytes = set b.bytes b.write c; write = b.write + 1 })
      ≡ contents b ++ c ∷ []
set_grows {b} c v h =
    let n = b.write - b.read in
    ap (λ k. take k (drop b.read (set b.bytes b.write c))) {y = suc n} (omega arith)
    ∙ ap (take (suc n)) (drop-set b.read b.write c b.bytes v.read_le)
    ∙ take-suc-set (drop b.read b.bytes) n c (omega (arith, length-drop b.read b.bytes))

pub write_byte_room :
    {b : Buffer} (c : ℕ)
    → IsValid b
    → b.write < b.limit
    → (b' : Buffer) × (write_byte b c ≡ some b') × Pushed b b' (c ∷ [])
unfolding write_byte
write_byte_room {b} c v h = (
  record b { bytes = set b.bytes b.write c; write = b.write + 1 },
  ground arith,
  record {
    valid = record {
      storage = omega (arith, length-set b.bytes b.write c);
      read_le = omega arith;
      write_le = omega arith;
    };
    grown = set_grows c v h;
    advanced = omega arith;
    same_read = refl;
    same_limit = refl;
  },
)

-- Without room it does nothing.
pub write_byte_full : {b : Buffer} (c : ℕ) → b.limit ≤ b.write → write_byte b c ≡ some b
unfolding write_byte
write_byte_full {b} c h = ground arith

-- A row of writes that fits appends its bytes.
pub write_bytes_room :
    (src : List ℕ) {b : Buffer}
    → IsValid b
    → b.write + length src ≤ b.limit
    → (b' : Buffer) × (write_bytes b src ≡ some b') × Pushed b b' src
unfolding write_bytes
write_bytes_room [] {b} v h = (
  b,
  refl,
  record {
    valid = v;
    grown = sym (append-nil (contents b));
    advanced = omega arith;
    same_read = refl;
    same_limit = refl;
  },
)
write_bytes_room (c ∷ cs) {b} v h =
    let (m, first, p) = write_byte_room c v (omega arith) in
    let (b', rest, q) = write_bytes_room cs p.valid (omega (arith, p.advanced, p.same_limit)) in
    (b', rw first rest, Pushed-trans p q)

pub write_bytes-append :
    (xs ys : List ℕ) (b : Buffer)
    → write_bytes b (xs ++ ys) ≡ (write_bytes b xs >>= λ b'. write_bytes b' ys)
unfolding write_bytes
write_bytes-append [] ys b = refl
write_bytes-append (x ∷ xs) ys b = elim (Option-cases (write_byte b x)) [
  | inl e ↦ rw (e, ◌>>=◌)
  | inr (b', e) ↦ rw e (write_bytes-append xs ys b')
]

filled_grows :
    {b : Buffer} (src : List ℕ)
    → IsValid b
    → b.write + length src ≤ b.limit
    → take
        (b.write + length src - b.read)
        (drop b.read (take b.write b.bytes ++ (src ++ drop (b.write + length src) b.bytes)))
      ≡ contents b ++ src
filled_grows {b} src v h =
    let n = b.write - b.read in
    let tail = drop (b.write + length src) b.bytes in
    let k = b.write + length src - b.read in
    ap (take k) (
      drop-append_left b.read (take b.write b.bytes) (src ++ tail)
        (omega (arith, length-take b.write b.bytes)))
    ∙ ap (λ xs. take k (xs ++ (src ++ tail))) (drop-take b.read b.write b.bytes)
    ∙ take-append_right k (length src) (contents b) (src ++ tail) (omega (arith, length-contents v))
    ∙ ap (λ xs. contents b ++ xs)
        (take-append_right (length src) 0 src tail (omega arith) ∙ append-nil src)

-- So does a block that fits, as `recv` stores one.
pub fill_room :
    {b : Buffer} (src : List ℕ)
    → IsValid b
    → b.write + length src ≤ b.limit
    → (b' : Buffer) × (fill b src ≡ some b') × Pushed b b' src
unfolding fill
fill_room {b} src v h =
    let tail = drop (b.write + length src) b.bytes in
    (
      record b { bytes = take b.write b.bytes ++ (src ++ tail); write = b.write + length src },
      ground arith,
      record {
        valid = record {
          storage = omega (
            arith,
            length-append (take b.write b.bytes) (src ++ tail),
            length-append src tail,
            length-take b.write b.bytes,
            length-drop (b.write + length src) b.bytes,
          );
          read_le = omega arith;
          write_le = omega arith;
        };
        grown = filled_grows src v h;
        advanced = refl;
        same_read = refl;
        same_limit = refl;
      },
    )
