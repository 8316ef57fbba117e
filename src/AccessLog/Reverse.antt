-- ===== src/AccessLog/Reverse.antt =====
-- The loop that swaps the ends of the array of lines reverses it.
use protos_tpe.Prelude.{
  ℕ, zero, suc, ◌+◌, ◌-◌, ◌/◌, ◌≤◌, ◌<◌, ◌≡◌, refl, ap, sym, ◌∙◌, true, false, ◌&&◌, List, [], ◌∷◌,
  ◌++◌, arith, ltb, leb, ◌==◌, if◌then◌else◌, length, set, get_or, Bool-cases, inl, inr, length-set,
  length-append,
}
use mathlib.Core.List.{reverse, reverse-cons}
use protos_tpe.AccessLog.{swap_ends}

get_or-set :
    (xs : List (List ℕ)) (i j : ℕ) (v : List ℕ)
    → get_or (set xs i v) j [] ≡ (if i == j && ltb j (length xs) then v else get_or xs j [])
get_or-set [] i j v = ground arith
get_or-set (x ∷ xs) zero zero v = ground arith
get_or-set (x ∷ xs) zero (suc j) v = ground arith
get_or-set (x ∷ xs) (suc i) zero v = ground arith
get_or-set (x ∷ xs) (suc i) (suc j) v = ground (arith, get_or-set xs i j v)

get_or-append :
    (xs : List (List ℕ)) (x : List ℕ) (j : ℕ)
    → get_or (xs ++ x ∷ []) j [] ≡ (if j == length xs then x else get_or xs j [])
get_or-append [] x zero = refl
get_or-append [] x (suc j) = ground arith
get_or-append (y ∷ ys) x zero = ground arith
get_or-append (y ∷ ys) x (suc j) = ground (arith, get_or-append ys x j)

length-reverse : (xs : List (List ℕ)) → length (reverse xs) ≡ length xs
length-reverse [] = refl
length-reverse (x ∷ xs) =
    rw (reverse-cons x xs) (omega (arith, length-append (reverse xs) (x ∷ []), length-reverse xs))

get_or_past : (xs : List (List ℕ)) (j : ℕ) → length xs ≤ j → get_or xs j [] ≡ []
get_or_past [] j h = refl
get_or_past (x ∷ xs) zero h = absurd (omega arith)
get_or_past (x ∷ xs) (suc j) h = get_or_past xs j (omega arith)

-- The element `j` from the end.
from_end : List (List ℕ) → ℕ → List ℕ
from_end xs j = get_or xs (length xs - 1 - j) []

get_or-reverse :
    (xs : List (List ℕ)) (j : ℕ) → j < length xs → get_or (reverse xs) j [] ≡ from_end xs j
unfolding from_end
get_or-reverse [] j h = absurd (omega arith)
get_or-reverse (x ∷ xs) j h =
    rw (reverse-cons x xs, get_or-append (reverse xs) x j, length-reverse xs)
      (elim (Bool-cases (j == length xs)) [
        | inl last ↦
            let first : 0 ≡ suc (length xs) - 1 - j = ground arith in
            rw last (ap (λ i. get_or (x ∷ xs) i []) first)
        | inr before ↦
            let later : suc (length xs - 1 - j) ≡ suc (length xs) - 1 - j = ground arith in
            rw before (get_or-reverse xs j (ground arith) ∙ ap (λ i. get_or (x ∷ xs) i []) later)
      ])

list_ext :
    (xs ys : List (List ℕ))
    → length xs ≡ length ys
    → ((j : ℕ) → j < length xs → get_or xs j [] ≡ get_or ys j [])
    → xs ≡ ys
list_ext [] [] e h = refl
list_ext [] (y ∷ ys) e h = absurd (omega arith)
list_ext (x ∷ xs) [] e h = absurd (omega arith)
list_ext (x ∷ xs) (y ∷ ys) e h =
    let first : x ≡ y = h 0 (omega arith) in
    let others : xs ≡ ys = list_ext xs ys (omega arith) (λ j k. h (suc j) (omega arith)) in cc

-- The array after one round.
swapped : ℕ → List (List ℕ) → List (List ℕ)
swapped i ls = let m = length ls - 1 - i in set (set ls i (get_or ls m [])) m (get_or ls i [])

length-swapped : (i : ℕ) (ls : List (List ℕ)) → length (swapped i ls) ≡ length ls
unfolding swapped
length-swapped i ls =
    let m = length ls - 1 - i in
    length-set (set ls i (get_or ls m [])) m (get_or ls i []) ∙ length-set ls i (get_or ls m [])

swap_ends-suc :
    (k i : ℕ) (ls : List (List ℕ)) → swap_ends (suc k) i ls ≡ swap_ends k (i + 1) (swapped i ls)
unfolding swap_ends swapped
swap_ends-suc k i ls = refl

pub length-swap_ends : (k i : ℕ) (ls : List (List ℕ)) → length (swap_ends k i ls) ≡ length ls
length-swap_ends zero i ls = unfold swap_ends in refl
length-swap_ends (suc k) i ls =
    ap (length {A = List ℕ}) (swap_ends-suc k i ls)
    ∙ length-swap_ends k (i + 1) (swapped i ls)
    ∙ length-swapped i ls

get_or-swapped :
    (i j : ℕ) (ls : List (List ℕ))
    → j < length ls
    → get_or (swapped i ls) j [] ≡ (
        if length ls - 1 - i == j
        then get_or ls i []
        else if i == j
        then get_or ls (length ls - 1 - i) []
        else get_or ls j [])
unfolding swapped
get_or-swapped i j ls h =
    let m = length ls - 1 - i in
    ground (
      arith,
      get_or-set (set ls i (get_or ls m [])) m j (get_or ls i []),
      get_or-set ls i j (get_or ls m []),
      length-set ls i (get_or ls m []),
    )

-- What stands at `j` when the ends up to `i` are still to be swapped.
turned : List (List ℕ) → ℕ → ℕ → List ℕ
turned ls i j =
    if leb i j && ltb j (length ls - i) then get_or ls (length ls - 1 - j) [] else get_or ls j []

turned_outer :
    (i j : ℕ) (ls : List (List ℕ))
    → j < length ls
    → i + i + 2 ≤ length ls
    → (leb (i + 1) j && ltb j (length ls - (i + 1))) ≡ false
    → (if length ls - 1 - i == j
        then get_or ls i []
        else if i == j
        then get_or ls (length ls - 1 - i) []
        else get_or ls j [])
      ≡ turned ls i j
unfolding turned
turned_outer i j ls h k outer = elim (Bool-cases (length ls - 1 - i == j)) [
  | inl e ↦
      let mirror : i ≡ length ls - 1 - j = ground arith in
      let inside : (leb i j && ltb j (length ls - i)) ≡ true = ground arith in
      rw (e, inside) (ap (λ x. get_or ls x []) mirror)
  | inr e ↦ elim (Bool-cases (i == j)) [
    | inl same ↦
        let mirror : length ls - 1 - i ≡ length ls - 1 - j = ground arith in
        let inside : (leb i j && ltb j (length ls - i)) ≡ true = ground arith in
        rw (e, same, inside) (ap (λ x. get_or ls x []) mirror)
    | inr other ↦
        let outside : (leb i j && ltb j (length ls - i)) ≡ false = ground arith in
        rw (e, other, outside) refl
  ]
]

turned_round :
    (i j : ℕ) (ls : List (List ℕ))
    → j < length ls
    → i + i + 2 ≤ length ls
    → turned (swapped i ls) (i + 1) j ≡ turned ls i j
unfolding turned
turned_round i j ls h k =
    let n = length ls in
    rw (length-swapped i ls) (elim (Bool-cases (leb (i + 1) j && ltb j (n - (i + 1)))) [
      | inl inner ↦ rw inner (get_or-swapped i (n - 1 - j) ls (omega arith) ∙ ground arith)
      | inr outer ↦ rw outer (get_or-swapped i j ls h ∙ turned_outer i j ls h k outer)
    ])

-- With no round left at most the middle is within the ends, and it is its own mirror.
swap_ends_done :
    (i j : ℕ) (ls : List (List ℕ))
    → i ≡ length ls / 2
    → j < length ls
    → get_or (swap_ends zero i ls) j [] ≡ turned ls i j
unfolding swap_ends turned
swap_ends_done i j ls e h = elim (Bool-cases (leb i j && ltb j (length ls - i))) [
  | inl middle ↦
      let mirror : j ≡ length ls - 1 - j = ground arith in
      rw middle (ap (λ x. get_or ls x []) mirror)
  | inr outside ↦ rw outside refl
]

turned-reverse :
    (j : ℕ) (ls : List (List ℕ)) → j < length ls → turned ls 0 j ≡ get_or (reverse ls) j []
unfolding turned from_end
turned-reverse j ls h =
    let inside : (leb 0 j && ltb j (length ls - 0)) ≡ true = ground arith in
    rw inside (sym (get_or-reverse ls j h))

swap_ends-turned :
    (k i j : ℕ) (ls : List (List ℕ))
    → i + k ≡ length ls / 2
    → j < length ls
    → get_or (swap_ends k i ls) j [] ≡ turned ls i j
swap_ends-turned zero i j ls e h = swap_ends_done i j ls (omega arith) h
swap_ends-turned (suc k) i j ls e h =
    let n = length-swapped i ls in
    ap (λ xs. get_or xs j []) (swap_ends-suc k i ls)
    ∙ swap_ends-turned k (i + 1) j (swapped i ls) (rw n (omega arith)) (rw n h)
    ∙ turned_round i j ls h (omega arith)

pub swap_ends-reverse : (ls : List (List ℕ)) → swap_ends (length ls / 2) 0 ls ≡ reverse ls
swap_ends-reverse ls =
    let k = length ls / 2 in
    list_ext (swap_ends k 0 ls) (reverse ls) (length-swap_ends k 0 ls ∙ sym (length-reverse ls))
      (λ j h.
        let h' = rw (length-swap_ends k 0 ls) at h in
        swap_ends-turned k 0 j ls (omega arith) h' ∙ turned-reverse j ls h')
