-- ===== src/Prelude/Arrays.antt =====
-- Reads and writes of an array, with a default outside of it.
use Prim.Native.Nat.{ℕ, zero, suc, ◌≤◌, ◌<◌, compare, Ordering}
use mathlib.Core.Path.{◌≡◌, refl}
use mathlib.Core.Logic.{◌≢◌}
use mathlib.Core.List.{List, [], ◌∷◌, ◌++◌}
use mathlib.Core.Option.{none, some}
use native.Mathlib.Omega.{arith}
use protos_tpe.Prelude.Lists.{length, get_elem?, set, drop, replicate}

module _ {ℓ} {A : Type ℓ} where
  abbrev pub get_or : List A → ℕ → A → A
  get_or [] i d = d
  get_or (x ∷ xs) zero d = x
  get_or (x ∷ xs) (suc i) d = get_or xs i d

  pub get_or-set :
      (xs : List A) (i j : ℕ) (v d : A)
      → get_or (set xs i v) j d ≡ elim (compare i j) [
        | Ordering.eq ↦ elim (compare j (length xs)) [ Ordering.lt ↦ v | _ ↦ d ]
        | _ ↦ get_or xs j d
      ]
  get_or-set [] i j v d = ground arith
  get_or-set (x ∷ xs) zero zero v d = ground arith
  get_or-set (x ∷ xs) zero (suc j) v d = ground arith
  get_or-set (x ∷ xs) (suc i) zero v d = ground arith
  get_or-set (x ∷ xs) (suc i) (suc j) v d = ground (arith, get_or-set xs i j v d)

  pub get_or-set_self :
      (xs : List A) (i : ℕ) (v d : A) → i < length xs → get_or (set xs i v) i d ≡ v
  get_or-set_self xs i v d h = ground (arith, get_or-set xs i i v d)

  pub get_or-set_other :
      (xs : List A) (i j : ℕ) (v d : A) → i ≢ j → get_or (set xs i v) j d ≡ get_or xs j d
  get_or-set_other xs i j v d h = ground (arith, get_or-set xs i j v d)

  pub get_or-append_replicate :
      (xs : List A) (k j : ℕ) (d : A) → get_or (xs ++ replicate k d) j d ≡ get_or xs j d
  get_or-append_replicate [] zero j d = refl
  get_or-append_replicate [] (suc k) zero d = refl
  get_or-append_replicate [] (suc k) (suc j) d = get_or-append_replicate [] k j d
  get_or-append_replicate (x ∷ xs) k zero d = refl
  get_or-append_replicate (x ∷ xs) k (suc j) d = get_or-append_replicate xs k j d

  pub get_elem?-get_or :
      (xs : List A) (i : ℕ) (d : A) → i < length xs → get_elem? xs i ≡ some (get_or xs i d)
  get_elem?-get_or [] i d h = absurd (omega arith)
  get_elem?-get_or (x ∷ xs) zero d h = refl
  get_elem?-get_or (x ∷ xs) (suc i) d h = get_elem?-get_or xs i d (omega arith)

  pub get_elem?_past : (xs : List A) (i : ℕ) → length xs ≤ i → get_elem? xs i ≡ none
  get_elem?_past [] i h = refl
  get_elem?_past (x ∷ xs) zero h = absurd (omega arith)
  get_elem?_past (x ∷ xs) (suc i) h = get_elem?_past xs i (omega arith)

  pub drop-get_or :
      (r : ℕ) (xs : List A) (d : A) → r < length xs → drop r xs ≡ get_or xs r d ∷ drop (suc r) xs
  drop-get_or r [] d h = absurd (omega arith)
  drop-get_or zero (x ∷ xs) d h = refl
  drop-get_or (suc r) (x ∷ xs) d h = drop-get_or r xs d (omega arith)
