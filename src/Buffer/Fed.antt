-- ===== src/Buffer/Fed.antt =====
-- What the parsers' loop leaves of a buffer, whatever the parser.
use protos_tpe.Prelude.{
  ℕ, ◌<◌, ◌≡◌, refl, sym, ap, ◌∙◌, Bool, true, false, some, List, [], ◌∷◌, ◌++◌, arith, length,
  length-append, Bool-cases, inl, inr,
}
use protos_tpe.Buffer.{Buffer, IsValid, contents}
use protos_tpe.Buffer.Writes.{Pushed}
use protos_tpe.Buffer.Feed.{feed, feed_lem, consume, consume_unfinished}

-- An empty buffer begins at 0 again.
abbrev pub IsDrained : Buffer → Type 0
IsDrained b = contents b ≡ [] → b.write ≡ 0

nil_left : (xs ys : List ℕ) → xs ++ ys ≡ [] → (xs ≡ []) × (ys ≡ [])
nil_left [] ys e = (refl, e)
nil_left (x ∷ xs) ys e = absurd (cc e)

pub Pushed-IsDrained : {b b' : Buffer} {src : List ℕ} → Pushed b b' src → IsDrained b → IsDrained b'
Pushed-IsDrained {b} {b'} {src} p d e =
    let (old, new) = nil_left (contents b) src (sym p.grown ∙ e) in
    omega (arith, p.advanced, d old, ap (length {A = ℕ}) new)

-- The bytes that are read in front of those that are left.
pub record Fed (b b' : Buffer) : Type 0 where
  pub valid : IsValid b'
  pub same_limit : b'.limit ≡ b.limit
  pub drained : IsDrained b'
  pub gone : List ℕ
  pub split : contents b ≡ gone ++ contents b'

module _ {P : Type 0} (finished : P → Bool) (step : P → ℕ → P) where
  consume-split :
      (xs : List ℕ) (p : P) → (gone : List ℕ) × (xs ≡ gone ++ (consume finished step p xs).1)
  unfolding consume
  consume-split [] p = ([], refl)
  consume-split (c ∷ cs) p = elim (Bool-cases (finished p)) [
    | inl over ↦ ([], rw over refl)
    | inr more ↦
        (let (gone, e) = consume-split cs (step p c) in (c ∷ gone, rw more (ap (λ ys. c ∷ ys) e)))
  ]

  -- A parser that gets to its end has read a byte.
  consume_shorter :
      (xs : List ℕ) (p : P)
      → finished p ≡ false
      → finished (consume finished step p xs).0 ≡ true
      → length (consume finished step p xs).1 < length xs
  unfolding consume
  consume_shorter [] p h e = absurd (cc (h, e))
  consume_shorter (c ∷ cs) p h e =
      let (gone, split) = consume-split cs (step p c) in
      rw h (
        omega (
          arith,
          ap (length {A = ℕ}) split,
          length-append gone (consume finished step (step p c) cs).1,
        ))

  -- The loop ends, leaves a part of the bytes, and none if the parser wants more.
  pub feed-Fed :
      (p : P) {b : Buffer}
      → IsValid b
      → IsDrained b
      → (p' : P) × (b' : Buffer) × (feed finished step p b ≡ some (p', b'))
        × Fed b b'
        × (finished p' ≡ false → contents b' ≡ [])
        × (finished p ≡ false → finished p' ≡ true → length (contents b') < length (contents b))
  feed-Fed p {b} v d =
      let (b', runs, q) = feed_lem finished step p v d in
      let (gone, split) = consume-split (contents b) p in
      (
        (consume finished step p (contents b)).0,
        b',
        runs,
        record {
          valid = q.valid;
          same_limit = q.same_limit;
          drained = λ e. q.drained (sym q.left ∙ e);
          gone = gone;
          split = split ∙ ap (λ ys. gone ++ ys) (sym q.left);
        },
        λ more. q.left ∙ consume_unfinished finished step (contents b) p more,
        λ more over. rw q.left (consume_shorter (contents b) p more over),
      )
