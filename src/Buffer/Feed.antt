-- ===== src/Buffer/Feed.antt =====
-- The loop that the byte-at-a-time parsers share,
-- `while (buffer_can_read(b) && !finished(p)) { c = buffer_read(b); step }`, against the plain fold
-- of the step over the bytes that wait.
use protos_tpe.Prelude.{
  ℕ, zero, suc, ◌+◌, ◌-◌, ◌<◌, ◌≡◌, refl, ap, ◌∙◌, Bool, true, false, Option, none, some, List, [],
  ◌∷◌, ◌++◌, ◌&&◌, not, arith, if◌then◌else◌, ◌>>=◌, length, set, store_from, All, Bool-cases, inl,
  inr,
}
use protos_tpe.Buffer.{Buffer, IsValid, contents, can_read, read_byte}
use protos_tpe.Buffer.Laws.{length-contents, Popped, read_byte_cons, can_read-nil, can_read-cons}

module _ {P : Type 0} (finished : P → Bool) (step : P → ℕ → P) where
  -- The fuel bounds the rounds; `none` also stands for a fault of the buffer.
  unfoldable pub feed_loop : ℕ → P → Buffer → Option (P × Buffer)
  feed_loop zero p b = none
  feed_loop (suc n) p b = elim (can_read b && not (finished p)) [
    | true ↦ (do (c, b') ← read_byte b; feed_loop n (step p c) b')
    | false ↦ some (p, b)
  ]

  unfoldable pub feed : P → Buffer → Option (P × Buffer)
  unfolding feed_loop
  feed p b = feed_loop (suc (b.write - b.read)) p b

  -- The state after the bytes, and the bytes that a finished parser leaves.
  unfoldable pub consume : P → List ℕ → P × List ℕ
  consume p [] = (p, [])
  consume p (c ∷ cs) = let rest = consume (step p c) cs in if finished p then (p, c ∷ cs) else rest

  feed_loop_stop :
      (n : ℕ) (p : P) (b : Buffer)
      → (can_read b && not (finished p)) ≡ false
      → feed_loop (suc n) p b ≡ some (p, b)
  unfolding feed_loop
  feed_loop_stop n p b h = rw (h, feed_loop)

  feed_loop_more :
      (n : ℕ) (p : P) (b : Buffer) {c : ℕ} {b' : Buffer}
      → can_read b ≡ true
      → finished p ≡ false
      → read_byte b ≡ some (c, b')
      → feed_loop (suc n) p b ≡ feed_loop n (step p c) b'
  unfolding feed_loop
  feed_loop_more n p b h k e = rw (h, feed_loop) (rw (k, feed_loop) (rw e))

  feed_loop_lem :
      (xs : List ℕ) (n : ℕ) (p : P) {b : Buffer}
      → length xs < n
      → IsValid b
      → contents b ≡ xs
      → (xs ≡ [] → b.write ≡ 0)
      → (b' : Buffer) × (feed_loop n p b ≡ some ((consume p xs).0, b'))
        × Popped b b' (consume p xs).1
  unfolding consume
  feed_loop_lem xs zero p h v e t = absurd (omega arith)
  feed_loop_lem [] (suc n) p {b} h v e t = (
    b,
    feed_loop_stop n p b (rw (can_read-nil v e)),
    record { valid = v; left = e; same_limit = refl; drained = t },
  )
  feed_loop_lem (c ∷ cs) (suc n) p {b} h v e t = elim (Bool-cases (finished p)) [
    | inl done ↦ rw done (
      b,
      feed_loop_stop n p b (rw (can_read-cons v e, done)),
      record { valid = v; left = e; same_limit = refl; drained = t },
    )
    | inr more ↦
        (let (m, taken, q) = read_byte_cons v e in
          let (b', runs, r) =
            feed_loop_lem cs n (step p c) (omega arith) q.valid q.left q.drained in
          rw more (
            b',
            feed_loop_more n p b (can_read-cons v e) more taken ∙ runs,
            record {
              valid = r.valid;
              left = r.left;
              same_limit = r.same_limit ∙ q.same_limit;
              drained = r.drained;
            },
          ))
  ]

  -- The loop ends, without a fault, in the state of the fold, and leaves what the fold leaves.
  pub feed_lem :
      (p : P) {b : Buffer}
      → IsValid b
      → (contents b ≡ [] → b.write ≡ 0)
      → (b' : Buffer) × (feed p b ≡ some ((consume p (contents b)).0, b'))
        × Popped b b' (consume p (contents b)).1
  unfolding feed
  feed_lem p {b} v t =
      feed_loop_lem (contents b) (suc (b.write - b.read)) p (omega (arith, length-contents v)) v
        refl t

  -- A parser that is not finished has taken every byte.
  pub consume_unfinished :
      (xs : List ℕ) (p : P) → finished (consume p xs).0 ≡ false → (consume p xs).1 ≡ []
  unfolding consume
  consume_unfinished [] p h = refl
  consume_unfinished (c ∷ cs) p h = ground (arith, consume_unfinished cs (step p c))

  pub consume-finished : (p : P) (xs : List ℕ) → finished p ≡ true → consume p xs ≡ (p, xs)
  unfolding consume
  consume-finished p [] h = refl
  consume-finished p (c ∷ cs) h = rw h

  pub consume_more :
      (p : P) (c : ℕ) (cs : List ℕ)
      → finished p ≡ false
      → consume p (c ∷ cs) ≡ consume (step p c) cs
  unfolding consume
  consume_more p c cs h = rw h

  -- Two fragments one after the other are the whole.
  pub consume-append :
      (xs ys : List ℕ) (p : P)
      → consume p (xs ++ ys) ≡ consume (consume p xs).0 ((consume p xs).1 ++ ys)
  unfolding consume
  consume-append [] ys p = refl
  consume-append (c ∷ cs) ys p = elim (Bool-cases (finished p)) [
    | inl done ↦ rw (done, consume-finished p (c ∷ (cs ++ ys)) done)
    | inr more ↦ rw more (consume-append cs ys (step p c))
  ]

  -- A field of `n` bytes that is stored in an array: `at arr i` is the state with `i` of them read,
  -- and `full arr` the state behind the last one.
  pub record Field (OkByte : ℕ → Type 0) (n : ℕ) (at : List ℕ → ℕ → P) (full : List ℕ → P)
      : Type 0 where
    pub reads : (arr : List ℕ) (i : ℕ) → finished (at arr i) ≡ false
    pub stores :
        (arr : List ℕ) (i c : ℕ)
        → OkByte c
        → i + 1 < n
        → step (at arr i) c ≡ at (set arr i c) (i + 1)
    pub ends :
        (arr : List ℕ) (i c : ℕ) → OkByte c → i + 1 ≡ n → step (at arr i) c ≡ full (set arr i c)

  pub consume-Field :
      {OkByte : ℕ → Type 0} {n : ℕ} {at : List ℕ → ℕ → P} {full : List ℕ → P}
      → Field OkByte n at full
      → (xs rest : List ℕ) (x i : ℕ) (arr : List ℕ) → OkByte x
      → All OkByte xs
      → i + suc (length xs) ≡ n
      → consume (at arr i) (x ∷ (xs ++ rest)) ≡ consume (full (store_from arr i (x ∷ xs))) rest
  consume-Field {at = at} f [] rest x i arr okx okxs e =
      consume_more (at arr i) x rest (f.reads arr i)
      ∙ ap (λ p. consume p rest) (f.ends arr i x okx (omega arith))
  consume-Field {at = at} f (y ∷ ys) rest x i arr okx okxs e =
      consume_more (at arr i) x (y ∷ (ys ++ rest)) (f.reads arr i)
      ∙ ap (λ p. consume p (y ∷ (ys ++ rest))) (f.stores arr i x okx (omega arith))
      ∙ consume-Field f ys rest y (i + 1) (set arr i x) okxs.0 okxs.1 (omega arith)
