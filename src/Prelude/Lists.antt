-- ===== src/Prelude/Lists.antt =====
-- Arrays as lists measured and indexed by native numbers, under the library's names.
use Prim.Native.Nat.{ℕ, zero, suc, ◌+◌, ◌-◌, ◌≤◌, ◌<◌, min, compare, Ordering}
use mathlib.Core.Path.{◌≡◌, refl, sym, ap, ◌∙◌}
use mathlib.Core.Logic.{◌≢◌, ◌↔◌}
use mathlib.Core.Bool.{Bool, true, false, ◌&&◌}
use mathlib.Core.List.{List, [], ◌∷◌, ◌++◌, append-nil, append_assoc}
use mathlib.Core.Option.{Option, none, some}
use native.Mathlib.Omega.{arith}

module _ {ℓ} {A : Type ℓ} where
  abbrev pub length : List A → ℕ
  length [] = 0
  length (x ∷ xs) = suc (length xs)

  abbrev pub get_elem? : List A → ℕ → Option A
  get_elem? [] i = none
  get_elem? (x ∷ xs) zero = some x
  get_elem? (x ∷ xs) (suc i) = get_elem? xs i

  -- A write out of bounds changes nothing.
  abbrev pub set : List A → ℕ → A → List A
  set [] i v = []
  set (x ∷ xs) zero v = v ∷ xs
  set (x ∷ xs) (suc i) v = x ∷ set xs i v

  abbrev pub take : ℕ → List A → List A
  take zero xs = []
  take (suc n) [] = []
  take (suc n) (x ∷ xs) = x ∷ take n xs

  abbrev pub drop : ℕ → List A → List A
  drop zero xs = xs
  drop (suc n) [] = []
  drop (suc n) (x ∷ xs) = drop n xs

  abbrev pub replicate : ℕ → A → List A
  replicate zero a = []
  replicate (suc n) a = a ∷ replicate n a

  abbrev pub All {κ} : (A → Type κ) → List A → Type κ
  All P [] = Unit
  All P (x ∷ xs) = P x × All P xs

  pub length-append : (xs ys : List A) → length (xs ++ ys) ≡ length xs + length ys
  length-append [] ys = omega arith
  length-append (x ∷ xs) ys = omega (arith, length-append xs ys)

  pub length-set : (xs : List A) (i : ℕ) (v : A) → length (set xs i v) ≡ length xs
  length-set [] i v = refl
  length-set (x ∷ xs) zero v = refl
  length-set (x ∷ xs) (suc i) v = ap suc (length-set xs i v)

  pub length-take : (n : ℕ) (xs : List A) → length (take n xs) ≡ min n (length xs)
  length-take zero xs = omega arith
  length-take (suc n) [] = omega arith
  length-take (suc n) (x ∷ xs) = omega (arith, length-take n xs)

  pub length-drop : (n : ℕ) (xs : List A) → length (drop n xs) ≡ length xs - n
  length-drop zero xs = omega arith
  length-drop (suc n) [] = omega arith
  length-drop (suc n) (x ∷ xs) = omega (arith, length-drop n xs)

  pub length-replicate : (n : ℕ) (a : A) → length (replicate n a) ≡ n
  length-replicate zero a = refl
  length-replicate (suc n) a = ap suc (length-replicate n a)

  pub take-nil : (n : ℕ) → take n [] ≡ []
  take-nil zero = refl
  take-nil (suc n) = refl

  pub take-append-drop : (n : ℕ) (xs : List A) → take n xs ++ drop n xs ≡ xs
  take-append-drop zero xs = refl
  take-append-drop (suc n) [] = refl
  take-append-drop (suc n) (x ∷ xs) = ap (λ ys. x ∷ ys) (take-append-drop n xs)

  pub take_all : (n : ℕ) (xs : List A) → length xs ≤ n → take n xs ≡ xs
  take_all zero [] h = refl
  take_all zero (x ∷ xs) h = absurd (omega arith)
  take_all (suc n) [] h = refl
  take_all (suc n) (x ∷ xs) h = ap (λ ys. x ∷ ys) (take_all n xs (omega arith))

  pub take-append_left : (n : ℕ) (xs ys : List A) → n ≤ length xs → take n (xs ++ ys) ≡ take n xs
  take-append_left zero xs ys h = refl
  take-append_left (suc n) [] ys h = absurd (omega arith)
  take-append_left (suc n) (x ∷ xs) ys h =
      ap (λ zs. x ∷ zs) (take-append_left n xs ys (omega arith))

  -- One more element at the end of a prefix.
  pub take-suc-set :
      (xs : List A) (i : ℕ) (v : A)
      → i < length xs
      → take (suc i) (set xs i v) ≡ take i xs ++ v ∷ []
  take-suc-set [] i v h = absurd (omega arith)
  take-suc-set (x ∷ xs) zero v h = refl
  take-suc-set (x ∷ xs) (suc i) v h = ap (λ zs. x ∷ zs) (take-suc-set xs i v (omega arith))

  -- A write at or past the end of a prefix leaves the prefix.
  pub take-set_ge : (xs : List A) (n i : ℕ) (v : A) → n ≤ i → take n (set xs i v) ≡ take n xs
  take-set_ge [] n i v h = refl
  take-set_ge (x ∷ xs) zero i v h = refl
  take-set_ge (x ∷ xs) (suc n) zero v h = absurd (omega arith)
  take-set_ge (x ∷ xs) (suc n) (suc i) v h = ap (λ zs. x ∷ zs) (take-set_ge xs n i v (omega arith))

  pub get_elem?-set_self :
      (xs : List A) (i : ℕ) (v : A) → i < length xs → get_elem? (set xs i v) i ≡ some v
  get_elem?-set_self [] i v h = absurd (omega arith)
  get_elem?-set_self (x ∷ xs) zero v h = refl
  get_elem?-set_self (x ∷ xs) (suc i) v h = get_elem?-set_self xs i v (omega arith)

  pub get_elem?-set_ne :
      (xs : List A) (i j : ℕ) (v : A) → i ≢ j → get_elem? (set xs i v) j ≡ get_elem? xs j
  get_elem?-set_ne [] i j v h = refl
  get_elem?-set_ne (x ∷ xs) zero zero v h = absurd (h refl)
  get_elem?-set_ne (x ∷ xs) zero (suc j) v h = refl
  get_elem?-set_ne (x ∷ xs) (suc i) zero v h = refl
  get_elem?-set_ne (x ∷ xs) (suc i) (suc j) v h = get_elem?-set_ne xs i j v (λ e. h (ap suc e))

  pub drop-set :
      (r i : ℕ) (v : A) (xs : List A) → r ≤ i → drop r (set xs i v) ≡ set (drop r xs) (i - r) v
  drop-set zero i v xs h = ap (λ k. set xs k v) (omega arith)
  drop-set (suc r) i v [] h = refl
  drop-set (suc r) zero v (x ∷ xs) h = absurd (omega arith)
  drop-set (suc r) (suc i) v (x ∷ xs) h =
      drop-set r i v xs (omega arith) ∙ ap (λ k. set (drop r xs) k v) (omega arith)

  -- An index in range splits off its element.
  pub drop-cons :
      (r : ℕ) (xs : List A)
      → r < length xs
      → (x : A) × (get_elem? xs r ≡ some x) × (drop r xs ≡ x ∷ drop (suc r) xs)
  drop-cons r [] h = absurd (omega arith)
  drop-cons zero (x ∷ xs) h = (x, refl, refl)
  drop-cons (suc r) (x ∷ xs) h = drop-cons r xs (omega arith)

  pub drop-append_left :
      (r : ℕ) (xs ys : List A) → r ≤ length xs → drop r (xs ++ ys) ≡ drop r xs ++ ys
  drop-append_left zero xs ys h = refl
  drop-append_left (suc r) [] ys h = absurd (omega arith)
  drop-append_left (suc r) (x ∷ xs) ys h = drop-append_left r xs ys (omega arith)

  pub drop-take : (r n : ℕ) (xs : List A) → drop r (take n xs) ≡ take (n - r) (drop r xs)
  drop-take zero n xs = ap (λ k. take k xs) (omega arith)
  drop-take (suc r) zero xs = ap (λ k. take k (drop (suc r) xs)) {x = 0} (omega arith)
  drop-take (suc r) (suc n) [] = sym (take-nil (suc n - suc r))
  drop-take (suc r) (suc n) (x ∷ xs) = drop-take r n xs ∙ ap (λ k. take k (drop r xs)) (omega arith)

  pub take-append_right :
      (k n : ℕ) (xs ys : List A) → k ≡ length xs + n → take k (xs ++ ys) ≡ xs ++ take n ys
  take-append_right k n [] ys e = ap (λ j. take j ys) (omega arith)
  take-append_right zero n (x ∷ xs) ys e = absurd (omega arith)
  take-append_right (suc k) n (x ∷ xs) ys e =
      ap (λ zs. x ∷ zs) (take-append_right k n xs ys (omega arith))

  pub length-zero : (xs : List A) → length xs ≡ 0 → xs ≡ []
  length-zero [] h = refl
  length-zero (x ∷ xs) h = absurd (omega arith)

  -- Bytes stored one after the other from an index on.
  abbrev pub store_from : List A → ℕ → List A → List A
  store_from arr i [] = arr
  store_from arr i (x ∷ xs) = store_from (set arr i x) (i + 1) xs

  pub length-store_from : (xs arr : List A) (i : ℕ) → length (store_from arr i xs) ≡ length arr
  length-store_from [] arr i = refl
  length-store_from (x ∷ xs) arr i = length-store_from xs (set arr i x) (i + 1) ∙ length-set arr i x

  pub take-store_from :
      (xs arr : List A) (i : ℕ)
      → i + length xs ≤ length arr
      → take (i + length xs) (store_from arr i xs) ≡ take i arr ++ xs
  take-store_from [] arr i h = ap (λ k. take k arr) (omega arith) ∙ sym (append-nil (take i arr))
  take-store_from (x ∷ xs) arr i h =
      ap (λ k. take k (store_from (set arr i x) (i + 1) xs)) {y = i + 1 + length xs} (omega arith)
      ∙ take-store_from xs (set arr i x) (i + 1) (omega (arith, length-set arr i x))
      ∙ ap (λ k. take k (set arr i x) ++ xs) {y = suc i} (omega arith)
      ∙ ap (λ ys. ys ++ xs) (take-suc-set arr i x (omega arith))
      ∙ append_assoc (take i arr) (x ∷ []) xs

  pub drop-set_lt : (r i : ℕ) (v : A) (xs : List A) → i < r → drop r (set xs i v) ≡ drop r xs
  drop-set_lt zero i v xs h = absurd (omega arith)
  drop-set_lt (suc r) i v [] h = refl
  drop-set_lt (suc r) zero v (x ∷ xs) h = refl
  drop-set_lt (suc r) (suc i) v (x ∷ xs) h = drop-set_lt r i v xs (omega arith)

  pub take-take : (n m : ℕ) (xs : List A) → n ≤ m → take n (take m xs) ≡ take n xs
  take-take zero m xs h = refl
  take-take (suc n) zero xs h = absurd (omega arith)
  take-take (suc n) (suc m) [] h = refl
  take-take (suc n) (suc m) (x ∷ xs) h = ap (λ ys. x ∷ ys) (take-take n m xs (omega arith))

-- Equality of byte strings, as `strcmp` and `memcmp` decide it.
abbrev pub bytes_eq : List ℕ → List ℕ → Bool
bytes_eq [] [] = true
bytes_eq [] (y ∷ ys) = false
bytes_eq (x ∷ xs) [] = false
bytes_eq (x ∷ xs) (y ∷ ys) = elim (compare x y) [ Ordering.eq ↦ true | _ ↦ false ] && bytes_eq xs ys

pub bytes_eq_iff : (xs ys : List ℕ) → (bytes_eq xs ys ≡ true) ↔ (xs ≡ ys)
bytes_eq_iff [] [] = ground arith
bytes_eq_iff [] (y ∷ ys) = ground arith
bytes_eq_iff (x ∷ xs) [] = ground arith
bytes_eq_iff (x ∷ xs) (y ∷ ys) = ground (arith, bytes_eq_iff xs ys)

pub bytes_eq_comm : (xs ys : List ℕ) → bytes_eq xs ys ≡ bytes_eq ys xs
bytes_eq_comm [] [] = refl
bytes_eq_comm [] (y ∷ ys) = refl
bytes_eq_comm (x ∷ xs) [] = refl
bytes_eq_comm (x ∷ xs) (y ∷ ys) = ground (arith, bytes_eq_comm xs ys)

pub bytes_eq_refl : (xs : List ℕ) → bytes_eq xs xs ≡ true
bytes_eq_refl xs = (bytes_eq_iff xs xs).1 refl
