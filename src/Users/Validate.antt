-- ===== src/Users/Validate.antt =====
-- `users_validate` against the password that the store keeps for a name, and what ADD-USER and
-- DEL-USER change about it.
use protos_tpe.Prelude.{
  ℕ, zero, suc, ◌+◌, ◌≤◌, ◌≡◌, refl, ap, ◌∙◌, Bool, true, false, not, Option, none, some, List, [],
  ◌∷◌, ◌++◌, ◌&&◌, arith, ◌==◌, if◌then◌else◌, length, take, take_all, bytes_eq, bytes_eq_iff,
  bytes_eq_comm, bytes_eq_refl, ℕ_discrete, subst, Bool-cases, inl, inr,
}
use protos_tpe.Users.{Entry, Users, entry_at, add, del, validate_from, validate}
use protos_tpe.Users.Laws.{
  users, InBounds, index_of, erase, window, window-suc, acceptable, entry, users_add-append,
  users_del-erase,
}

-- The password of a name.
abbrev pub password : List ℕ → List Entry → Option (List ℕ)
password name [] = none
password name (e ∷ es) = if bytes_eq e.name name then some e.pass else password name es

-- The first `n` bytes of the array are the text.
pub record Spells (arr : List ℕ) (n : ℕ) (text : List ℕ) : Type 0 where
  pub bytes : take n arr ≡ text
  pub size : length text ≡ n

-- `strlen(s) == n && memcmp(s, arr, n) == 0` compares whole texts.
memcmp-eq :
    (s arr text : List ℕ) (n : ℕ)
    → Spells arr n text
    → (length s == n && bytes_eq (take n s) (take n arr)) ≡ bytes_eq s text
memcmp-eq s arr text n w = elim (ℕ_discrete (length s) n) [
  | yes e ↦
      let whole : take n s ≡ s = take_all n s (omega arith) in rw (whole, w.bytes) (ground arith)
  | no ne ↦ ground (arith, bytes_eq_iff s text, ap (length {A = ℕ}) {x = s} {y = text})
]

-- Whether the store keeps that password for the name.
abbrev pub matches : Option (List ℕ) → List ℕ → Bool
matches none pass = false
matches (some p) pass = bytes_eq p pass

module _ (s : Users) (user_arr pass_arr user pass : List ℕ) (ulen plen : ℕ)
    (wu : Spells user_arr ulen user) (wp : Spells pass_arr plen pass) where
  validate_from-eq :
      (k i : ℕ)
      → i + k ≤ length s.entries
      → validate_from s user_arr ulen pass_arr plen k i
        ≡ matches (password user (window s.entries i k)) pass
  unfolding validate_from
  validate_from-eq zero i h = refl
  validate_from-eq (suc k) i h = rw (window-suc s.entries i k (omega arith)) (
      ground (
        arith,
        memcmp-eq (entry_at s i).name user_arr user ulen wu,
        memcmp-eq (entry_at s i).pass pass_arr pass plen wp,
        validate_from-eq k (i + 1) (omega arith),
      ))

  -- On a store within its array, `users_validate` on a name and a password given with their lengths
  -- answers whether neither is empty and the first user of that name in the list of users has
  -- exactly that password.
  pub validate-eq :
      InBounds s
      → validate s user_arr ulen pass_arr plen ≡ (
          not (length user == 0)
          && not (length pass == 0)
          && matches (password user (users s)) pass)
  unfolding validate
  validate-eq v = ground (arith, validate_from-eq s.count 0 (omega arith), wu.size, wp.size)

-- No two users have one name.
abbrev pub Distinct : List Entry → Type 0
Distinct [] = Unit
Distinct (e ∷ es) = (index_of e.name es ≡ none) × Distinct es

index_of-password :
    (name : List ℕ) (es : List Entry) → index_of name es ≡ none → password name es ≡ none
index_of-password name [] h = refl
index_of-password name (e ∷ es) h = ground (arith, index_of-password name es)

password-append :
    (name : List ℕ) (es : List Entry) (e : Entry)
    → index_of name es ≡ none
    → password name (es ++ e ∷ []) ≡ password name (e ∷ [])
password-append name [] e h = refl
password-append name (d ∷ es) e h = ground (arith, password-append name es e)

password-erase :
    (name : List ℕ) (es : List Entry) → Distinct es → password name (erase name es) ≡ none
password-erase name [] h = refl
password-erase name (e ∷ es) h = elim (Bool-cases (bytes_eq e.name name)) [
  | inl same ↦
      let is_name = (bytes_eq_iff e.name name).0 same in
      rw same (index_of-password name es (subst (λ n. index_of n es ≡ none) is_name h.0))
  | inr other ↦ ground (arith, password-erase name es h.1)
]

index_of-append :
    (name : List ℕ) (es : List Entry) (e : Entry)
    → index_of name es ≡ none
    → bytes_eq e.name name ≡ false
    → index_of name (es ++ e ∷ []) ≡ none
index_of-append name [] e h k = ground arith
index_of-append name (d ∷ es) e h k = ground (arith, index_of-append name es e)

Distinct-append :
    (es : List Entry) (e : Entry)
    → index_of e.name es ≡ none
    → Distinct es
    → Distinct (es ++ e ∷ [])
Distinct-append [] e h d = (refl, tt)
Distinct-append (c ∷ es) e h d =
    let absent : index_of e.name es ≡ none = ground arith in
    let apart : bytes_eq e.name c.name ≡ false = ground (arith, bytes_eq_comm e.name c.name) in
    (index_of-append c.name es e d.0 apart, Distinct-append es e absent d.1)

index_of-erase :
    (name other : List ℕ) (es : List Entry)
    → index_of other es ≡ none
    → index_of other (erase name es) ≡ none
index_of-erase name other [] h = refl
index_of-erase name other (e ∷ es) h = ground (arith, index_of-erase name other es)

Distinct-erase : (name : List ℕ) (es : List Entry) → Distinct es → Distinct (erase name es)
Distinct-erase name [] h = tt
Distinct-erase name (e ∷ es) h = elim (Bool-cases (bytes_eq e.name name)) [
  | inl same ↦ rw same h.1
  | inr other ↦ rw other (index_of-erase name e.name es h.0, Distinct-erase name es h.1)
]

-- The invariant of the store.
pub record IsValid (s : Users) : Type 0 where
  pub in_bounds : InBounds s
  pub distinct : Distinct (users s)

spells : (text : List ℕ) → Spells text (length text) text
spells text = record { bytes = take_all (length text) text (omega arith); size = refl }

added_new :
    {s : Users} (name pass : List ℕ)
    → InBounds s
    → (add s (some name) (some pass)).0 ≡ true
    → (index_of name (users s) ≡ none) × (acceptable name pass ≡ true)
added_new {s} name pass v h = ground (arith, (users_add-append name pass v).flag)

Distinct-if :
    (b : Bool) (es : List Entry) (e : Entry)
    → (b ≡ true → index_of e.name es ≡ none)
    → Distinct es
    → Distinct (if b then es ++ e ∷ [] else es)
Distinct-if true es e h d = Distinct-append es e (h refl) d
Distinct-if false es e h d = d

-- `users_add` of two texts keeps a store within its array and its names distinct, whatever it
-- answers.
pub add-IsValid :
    {s : Users} (name pass : List ℕ) → IsValid s → IsValid (add s (some name) (some pass)).1
add-IsValid {s} name pass v =
    let a = users_add-append name pass v.in_bounds in
    record {
      in_bounds = a.in_bounds;
      distinct = rw a.result (
          Distinct-if (add s (some name) (some pass)).0 (users s) (entry name pass)
            (λ h. (added_new name pass v.in_bounds h).0) v.distinct);
    }

-- `users_del` keeps a store within its array and its names distinct, whether or not it finds the
-- name.
pub del-IsValid : {s : Users} (name : List ℕ) → IsValid s → IsValid (del s name).1
del-IsValid {s} name v =
    let d = users_del-erase name v.in_bounds in
    record {
      in_bounds = d.in_bounds;
      distinct = rw d.left (Distinct-erase name (users s) v.distinct);
    }

-- After `users_add` on a valid store accepts a user, `users_validate` for the name accepts just
-- the password given, and no empty one.
pub validate-add :
    {s : Users} (name pass tried : List ℕ)
    → IsValid s
    → (add s (some name) (some pass)).0 ≡ true
    → validate (add s (some name) (some pass)).1 name (length name) tried (length tried)
      ≡ (not (length tried == 0) && bytes_eq pass tried)
validate-add {s} name pass tried v h =
    let out = (add s (some name) (some pass)).1 in
    let a = users_add-append name pass v.in_bounds in
    let (new, good) = added_new name pass v.in_bounds h in
    let here : users out ≡ users s ++ entry name pass ∷ [] = a.result ∙ rw h in
    validate-eq out name tried name tried (length name) (length tried) (spells name) (spells tried)
      a.in_bounds
    ∙ rw (here, password-append name (users s) (entry name pass) new, bytes_eq_refl name)
        (ground arith)

-- After `users_del` of a name on a valid store, `users_validate` refuses the name with any password.
pub validate-del :
    {s : Users} (name tried : List ℕ)
    → IsValid s
    → validate (del s name).1 name (length name) tried (length tried) ≡ false
validate-del {s} name tried v =
    let out = (del s name).1 in
    let d = users_del-erase name v.in_bounds in
    validate-eq out name tried name tried (length name) (length tried) (spells name) (spells tried)
      d.in_bounds
    ∙ rw (d.left, password-erase name (users s) v.distinct) (ground arith)
