-- ===== src/Users/Laws.antt =====
-- The store against the list of its users, in the order in which they were added.
use protos_tpe.Prelude.{
  ℕ, zero, suc, ◌+◌, ◌-◌, ◌≤◌, ◌<◌, ◌≡◌, refl, ap, ◌∙◌, sym, Bool, true, false, Option, none, some,
  List, [], ◌∷◌, ◌++◌, ◌&&◌, ◌||◌, not, arith, ltb, ◌==◌, if◌then◌else◌, length, get_or, set, take,
  drop, drop-get_or, drop-set_lt, take-suc-set, length-set, length-take, bytes_eq, append_assoc,
  append-nil, Option-cases, inl, inr, take-take, drop-take,
}
use protos_tpe.Users.{
  Entry, Users, users_max, name_max, pass_max, blank, find_from, find, is_some, add, shift, del,
}

-- The users, oldest first.
abbrev pub users : Users → List Entry
users s = take s.count s.entries

-- The array has its declared size, and `count` stays within it.
pub record InBounds (s : Users) : Type 0 where
  pub size : length s.entries ≡ users_max
  pub fits : s.count ≤ users_max

abbrev pub index_of : List ℕ → List Entry → Option ℕ
index_of name [] = none
index_of name (e ∷ es) =
    if bytes_eq e.name name
    then some 0
    else elim (index_of name es) [ none ↦ none | some i ↦ some (suc i) ]

abbrev from_index : ℕ → Option ℕ → Option ℕ
from_index i none = none
from_index i (some j) = some (i + j)

-- `k` elements from index `i` on
abbrev pub window : List Entry → ℕ → ℕ → List Entry
window arr i k = take k (drop i arr)

pub window-suc :
    (arr : List Entry) (i k : ℕ)
    → i < length arr
    → window arr i (suc k) ≡ get_or arr i blank ∷ window arr (i + 1) k
window-suc arr i k h =
    ap (take (suc k)) (drop-get_or i arr blank h)
    ∙ ap (λ j. get_or arr i blank ∷ take k (drop j arr)) {x = suc i} (omega arith)

find_from-eq :
    (s : Users) (name : List ℕ) (k i : ℕ)
    → i + k ≤ length s.entries
    → find_from s name k i ≡ from_index i (index_of name (window s.entries i k))
unfolding find_from
find_from-eq s name zero i h = refl
find_from-eq s name (suc k) i h =
    rw (window-suc s.entries i k (omega arith))
      (ground (arith, find_from-eq s name k (i + 1) (omega arith)))

from_zero : (o : Option ℕ) → from_index 0 o ≡ o
from_zero none = refl
from_zero (some i) = ap some (omega arith)

-- `users_find` is the first index with that name.
pub find-eq : {s : Users} (name : List ℕ) → InBounds s → find s name ≡ index_of name (users s)
unfolding find
find-eq {s} name v = find_from-eq s name s.count 0 (omega arith) ∙ from_zero _

-- The list without its first user of that name.
abbrev pub erase : List ℕ → List Entry → List Entry
erase name [] = []
erase name (e ∷ es) = if bytes_eq e.name name then es else e ∷ erase name es

index_of-lt : (name : List ℕ) (es : List Entry) {i : ℕ} → index_of name es ≡ some i → i < length es
index_of-lt name [] h = cc
index_of-lt name (e ∷ es) {i} h = elim (Option-cases (index_of name es)) [
  | inl absent ↦ ground arith
  | inr (j, found) ↦ ground (arith, index_of-lt name es found)
]

erase-index_of :
    (name : List ℕ) (es : List Entry) (i : ℕ)
    → index_of name es ≡ some i
    → erase name es ≡ take i es ++ drop (suc i) es
erase-index_of name [] i h = cc
erase-index_of name (e ∷ es) zero h = ground arith
erase-index_of name (e ∷ es) (suc i) h = ground (arith, erase-index_of name es i)

erase-absent : (name : List ℕ) (es : List Entry) → index_of name es ≡ none → erase name es ≡ es
erase-absent name [] h = refl
erase-absent name (e ∷ es) h = ground (arith, erase-absent name es)

take-shift :
    (k i : ℕ) (arr : List Entry)
    → i + k < length arr
    → take (i + k) (shift k i arr) ≡ take i arr ++ window arr (i + 1) k
unfolding shift
take-shift zero i arr h =
    ap (λ j. take j arr) {x = i + 0} (omega arith) ∙ sym (append-nil (take i arr))
take-shift (suc k) i arr h =
    let x = get_or arr (i + 1) blank in
    let moved = set arr i x in
    ap (λ j. take j (shift k (i + 1) moved)) {x = i + suc k} (omega arith)
    ∙ take-shift k (i + 1) moved (omega (arith, length-set arr i x))
    ∙ ap (λ j. take j moved ++ window moved (i + 1 + 1) k) {x = i + 1} {y = suc i} (omega arith)
    ∙ ap (λ ys. ys ++ window moved (i + 1 + 1) k) (take-suc-set arr i x (omega arith))
    ∙ append_assoc (take i arr) (x ∷ []) (window moved (i + 1 + 1) k)
    ∙ ap (λ ys. take i arr ++ x ∷ take k ys) (drop-set_lt (i + 1 + 1) i x arr (omega arith))
    ∙ ap (λ ys. take i arr ++ ys) (sym (window-suc arr (i + 1) k (omega arith)))

length-shift : (k i : ℕ) (arr : List Entry) → length (shift k i arr) ≡ length arr
unfolding shift
length-shift zero i arr = refl
length-shift (suc k) i arr =
    length-shift k (i + 1) (set arr i (get_or arr (i + 1) blank))
    ∙ length-set arr i (get_or arr (i + 1) blank)

del-absent : (s : Users) (name : List ℕ) → find s name ≡ none → del s name ≡ (false, s)
unfolding del
del-absent s name h = rw (h, del)

del-found :
    (s : Users) (name : List ℕ) (idx : ℕ)
    → find s name ≡ some idx
    → del s name ≡ (
      true,
      record s { count = s.count - 1; entries = shift (s.count - (idx + 1)) idx s.entries },
    )
unfolding del
del-found s name idx h = rw (h, del)

users-shift :
    (s : Users) (idx : ℕ)
    → InBounds s
    → idx < s.count
    → take (s.count - 1) (shift (s.count - (idx + 1)) idx s.entries)
      ≡ take idx (users s) ++ drop (suc idx) (users s)
users-shift s idx v h =
    let k = s.count - (idx + 1) in
    ap (λ j. take j (shift k idx s.entries)) {y = idx + k} (omega arith)
    ∙ take-shift k idx s.entries (omega arith)
    ∙ ap (λ ys. ys ++ window s.entries (idx + 1) k)
        (sym (take-take idx s.count s.entries (omega arith)))
    ∙ ap (λ j. take idx (users s) ++ take (s.count - j) (drop j s.entries)) {y = suc idx}
        (omega arith)
    ∙ ap (λ ys. take idx (users s) ++ ys) (sym (drop-take (suc idx) s.count s.entries))

length-users : {s : Users} → InBounds s → length (users s) ≡ s.count
length-users {s} v = omega (arith, length-take s.count s.entries)

-- What `users_del` does to the store.
pub record Deleted (s : Users) (name : List ℕ) (out : Bool × Users) : Type 0 where
  pub in_bounds : InBounds out.1
  pub flag : out.0 ≡ is_some (index_of name (users s))
  pub left : users out.1 ≡ erase name (users s)

-- On a store within its array `users_del` takes out exactly the first user of that name, keeps
-- the order of the others, and says whether there was one.
pub users_del-erase : {s : Users} (name : List ℕ) → InBounds s → Deleted s name (del s name)
users_del-erase {s} name v = elim (Option-cases (find s name)) [
  | inl absent ↦
      let gone : index_of name (users s) ≡ none = sym (find-eq name v) ∙ absent in
      rw (del-absent s name absent)
        (record { in_bounds = v; flag = rw gone; left = sym (erase-absent name (users s) gone) })
  | inr (idx, found) ↦
      let here : index_of name (users s) ≡ some idx = sym (find-eq name v) ∙ found in
      let lt : idx < s.count = omega (arith, index_of-lt name (users s) here, length-users v) in
      rw (del-found s name idx found) (record {
        in_bounds = record {
          size = length-shift (s.count - (idx + 1)) idx s.entries ∙ v.size;
          fits = omega arith;
        };
        flag = rw here;
        left = users-shift s idx v lt ∙ sym (erase-index_of name (users s) idx here);
      })
]

-- What `users_add` accepts.
abbrev pub acceptable : List ℕ → List ℕ → Bool
acceptable name pass = not (
    length name == 0
    || length pass == 0
    || ltb name_max (length name)
    || ltb pass_max (length pass))

abbrev pub entry : List ℕ → List ℕ → Entry
entry name pass = record { name = name; pass = pass }

pub record Added (s : Users) (name pass : List ℕ) (out : Bool × Users) : Type 0 where
  pub in_bounds : InBounds out.1
  pub flag :
      out.0
      ≡ (acceptable name pass && ltb s.count users_max && not (is_some (index_of name (users s))))
  pub result : users out.1 ≡ (if out.0 then users s ++ entry name pass ∷ [] else users s)

users-set :
    {s : Users} (e : Entry)
    → InBounds s
    → s.count < users_max
    → take (s.count + 1) (set s.entries s.count e) ≡ users s ++ e ∷ []
users-set {s} e v h =
    ap (λ k. take k (set s.entries s.count e)) {y = suc s.count} (omega arith)
    ∙ take-suc-set s.entries s.count e (omega arith)

-- On a store within its array `users_add` appends the new user exactly if both texts have 1 to
-- 255 bytes, the store has room and the name is new; otherwise it changes nothing; and it says
-- which.
pub users_add-append :
    {s : Users} (name pass : List ℕ)
    → InBounds s
    → Added s name pass (add s (some name) (some pass))
unfolding add
users_add-append {s} name pass v = ground (
  arith,
  find-eq name v,
  users-set (entry name pass) v,
  length-set s.entries s.count (entry name pass),
)
