-- ===== src/Users.antt =====
-- server/users.c: the store of the proxy's users. A C string is the list of its bytes before the
-- NUL; `none` as an argument is a null pointer.
pub mod Laws
pub mod Validate
mod Tests
use protos_tpe.Prelude.{
  ℕ, zero, suc, ◌+◌, ◌-◌, Bool, true, false, Option, none, some, List, [], ◌∷◌, ◌&&◌, ◌||◌, ltb,
  leb, ◌==◌, if◌then◌else◌, get_or, set, take, length, bytes_eq,
}

-- An element of `entries`
pub record Entry : Type 0 where
  pub name : List ℕ
  pub pass : List ℕ

-- `struct Users`; the array has `users_max` elements, of which the first `count` are in use.
pub record Users : Type 0 where
  pub count : ℕ
  pub entries : List Entry

abbrev pub users_max : ℕ
users_max = 100

abbrev pub name_max : ℕ
name_max = 255

abbrev pub pass_max : ℕ
pass_max = 255

abbrev pub blank : Entry
blank = record { name = []; pass = [] }

unfoldable pub init : Users → Users
init s = record s { count = 0 }

abbrev pub entry_at : Users → ℕ → Entry
entry_at s i = get_or s.entries i blank

-- The loop of `users_find`, with the rounds that are left and the index.
find_from : Users → List ℕ → ℕ → ℕ → Option ℕ
find_from s name zero i = none
find_from s name (suc k) i =
    let rest = find_from s name k (i + 1) in
    if bytes_eq (entry_at s i).name name then some i else rest

-- `users_find`; `none` is the index -1.
unfoldable pub find : Users → List ℕ → Option ℕ
unfolding find_from
find s name = find_from s name s.count 0

abbrev pub is_some {ℓ} : {A : Type ℓ} → Option A → Bool
is_some none = false
is_some (some _) = true

-- `users_add` behind its null checks
add_text : Users → List ℕ → List ℕ → Bool × Users
add_text s name pass =
    if length name == 0
      || length pass == 0
      || ltb name_max (length name)
      || ltb pass_max (length pass)
    then (false, s)
    else if leb users_max s.count
    then (false, s)
    else if is_some (find s name)
    then (false, s)
    else (
      true,
      record s {
        count = s.count + 1;
        entries = set s.entries s.count (record { name = name; pass = pass });
      },
    )

unfoldable pub add : Users → Option (List ℕ) → Option (List ℕ) → Bool × Users
unfolding add_text
add s none pass = (false, s)
add s (some name) none = (false, s)
add s (some name) (some pass) = add_text s name pass

-- The loop of `users_del` moves the later elements down by one.
shift : ℕ → ℕ → List Entry → List Entry
shift zero i arr = arr
shift (suc k) i arr = shift k (i + 1) (set arr i (get_or arr (i + 1) blank))

unfoldable pub del : Users → List ℕ → Bool × Users
unfolding shift
del s name = elim (find s name) [
  | none ↦ (false, s)
  | some idx ↦
      (true, record s { count = s.count - 1; entries = shift (s.count - (idx + 1)) idx s.entries })
]

unfoldable pub exists : Users → List ℕ → Bool
exists s name = is_some (find s name)

-- The loop of `users_validate`; `memcmp` reads `ulen` and `plen` bytes.
validate_from : Users → List ℕ → ℕ → List ℕ → ℕ → ℕ → ℕ → Bool
validate_from s user ulen pass plen zero i = false
validate_from s user ulen pass plen (suc k) i =
    let rest = validate_from s user ulen pass plen k (i + 1) in
    let n = (entry_at s i).name in
    let p = (entry_at s i).pass in
    if length n == ulen && bytes_eq (take ulen n) (take ulen user)
    then length p == plen && bytes_eq (take plen p) (take plen pass)
    else rest

unfoldable pub validate : Users → List ℕ → ℕ → List ℕ → ℕ → Bool
unfolding validate_from
validate s user ulen pass plen =
    if ulen == 0 || plen == 0 then false else validate_from s user ulen pass plen s.count 0

-- `users_count`
abbrev pub count_of : Users → ℕ
count_of s = s.count

-- `users_name_at`
unfoldable pub name_at : Users → ℕ → Option (List ℕ)
name_at s i = if leb s.count i then none else some (entry_at s i).name
