-- ===== src/Buffer/Reads.antt =====
-- What `buffer_read_adv` takes away, and the tests against the contents.
use protos_tpe.Prelude.{
  ℕ, zero, suc, ◌+◌, ◌-◌, ◌≤◌, ◌<◌, ◌≡◌, refl, sym, ap, ◌∙◌, true, some, List, [], ◌∷◌, ◌++◌, arith,
  ◌==◌, take, drop, length, Bool-cases, inl, inr, pos, length-append, take-nil,
}
use protos_tpe.Buffer.{Buffer, IsValid, contents, can_read, read_adv, compact}
use protos_tpe.Buffer.Laws.{compact_lem, length-contents}
use protos_tpe.Buffer.Fed.{IsDrained}

pub take-add {ℓ} :
    {A : Type ℓ} (n m : ℕ) (xs : List A) → take (n + m) xs ≡ take n xs ++ take m (drop n xs)
take-add zero m xs = ap (λ k. take k xs) (omega arith)
take-add (suc n) m [] = take-nil (suc n + m) ∙ sym (take-nil m)
take-add (suc n) m (x ∷ xs) =
    ap (λ k. take k (x ∷ xs)) {y = suc (n + m)} (omega arith) ∙ ap (λ ys. x ∷ ys) (take-add n m xs)

pub drop-add {ℓ} : {A : Type ℓ} (n m : ℕ) (xs : List A) → drop m (drop n xs) ≡ drop (n + m) xs
drop-add zero m xs = ap (λ k. drop k xs) (omega arith)
drop-add (suc n) zero [] = sym (ap (λ k. drop k []) {y = suc n} (omega arith))
drop-add (suc n) (suc m) [] = sym (ap (λ k. drop k []) {y = suc (n + suc m)} (omega arith))
drop-add (suc n) m (x ∷ xs) =
    drop-add n m xs ∙ sym (ap (λ k. drop k (x ∷ xs)) {y = suc (n + m)} (omega arith))

-- The first `n` waiting bytes.
abbrev pub waiting : ℕ → Buffer → List ℕ
waiting n b = take n (drop b.read b.bytes)

-- A buffer behind `buffer_read_adv`: the bytes `out` are gone from the front.
pub record Took (b b' : Buffer) (out : List ℕ) : Type 0 where
  pub valid : IsValid b'
  pub split : contents b ≡ out ++ contents b'
  pub same_limit : b'.limit ≡ b.limit
  pub drained : IsDrained b → IsDrained b'

abbrev skipped : ℕ → Buffer → Buffer
skipped n b = record b { read = b.read + n }

contents-skipped :
    (n : ℕ) {b : Buffer}
    → IsValid b
    → n ≤ b.write - b.read
    → contents b ≡ waiting n b ++ contents (skipped n b)
contents-skipped n {b} v h =
    let m = b.write - (b.read + n) in
    ap (λ k. take k (drop b.read b.bytes)) {y = n + m} (omega arith)
    ∙ take-add n m (drop b.read b.bytes)
    ∙ ap (λ xs. waiting n b ++ take m xs) (drop-add b.read n b.bytes)

pub read_adv_lem :
    (n : ℕ) {b : Buffer}
    → IsValid b
    → n ≤ b.write - b.read
    → (b' : Buffer) × (read_adv b (pos n) ≡ some b') × Took b b' (waiting n b)
unfolding read_adv
read_adv_lem n {b} v h =
    let c = skipped n b in
    let vc : IsValid c = ground arith in
    let cut = contents-skipped n v h in
    elim (Bool-cases (c.read == c.write)) [
      | inl all ↦
          let p = compact_lem vc in
          (
            compact c,
            ground arith,
            record {
              valid = p.valid;
              split = cut ∙ sym (ap (λ xs. waiting n b ++ xs) p.same);
              same_limit = p.same_limit;
              drained = λ _ _. ground (arith, p.write_pending);
            },
          )
      | inr more ↦ (
        c,
        ground arith,
        record {
          valid = vc;
          split = cut;
          same_limit = refl;
          drained = λ _ e. absurd (ground (arith, length-contents vc, ap (length {A = ℕ}) e));
        },
      )
    ]

pub can_read_iff : (b : Buffer) → IsValid b → can_read b ≡ true → 0 < length (contents b)
unfolding can_read
can_read_iff b v h = ground (arith, length-contents v)

pub length-waiting :
    (n : ℕ) {b : Buffer} → IsValid b → n ≤ b.write - b.read → length (waiting n b) ≡ n
length-waiting n {b} v h = omega (
  arith,
  length-contents v,
  ap (length {A = ℕ}) (contents-skipped n v h),
  length-append (waiting n b) (contents (skipped n b)),
  length-contents {b = skipped n b} (ground arith),
)
