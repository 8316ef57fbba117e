-- ===== src/Mgmt/Plain.antt =====
-- Texts without a newline, and the lines that the replies of server/mgmt.c are made of.
use protos_tpe.Prelude.{
  ℕ, suc, zero, ◌+◌, ◌/◌, ◌%◌, ◌-◌, ◌<◌, ◌≡◌, refl, sym, append_assoc, Bool, true, false, ◌&&◌,
  ◌||◌, not, Option, none, some, List, [], ◌∷◌, ◌++◌, arith, ltb, leb, ◌==◌, if◌then◌else◌, length,
  All, set, get_or, Bool-cases, inl, inr, bytes_eq,
}
use protos_tpe.Users as Users
use protos_tpe.Users.{entry_at, name_at}
use protos_tpe.Text.{codes, decimal, put_digits, ieq, lowers}
use protos_tpe.AccessLog.{
  AccessLog, take_line, fgets, strip_newline, copy_lines, swap_ends, newest, lesser, count_lines,
  tail,
}
use protos_tpe.Mgmt.Commands.{field, names_from, printed, with_newline}

abbrev pub no_lf : List ℕ → Bool
no_lf [] = true
no_lf (c ∷ cs) = not (c == 10) && no_lf cs

abbrev pub IsPlain : List ℕ → Type 0
IsPlain t = no_lf t ≡ true

-- A text with a newline at its end and no other.
abbrev pub IsLine : List ℕ → Type 0
IsLine t = (body : List ℕ) × IsPlain body × (t ≡ body ++ codes "\n")

abbrev pub HasPlainNames : Users.Users → Type 0
HasPlainNames u = (i : ℕ) → i < u.count → IsPlain (entry_at u i).name

pub append-IsPlain : (xs ys : List ℕ) → IsPlain xs → IsPlain ys → IsPlain (xs ++ ys)
append-IsPlain [] ys h k = k
append-IsPlain (c ∷ cs) ys h k = ground (arith, h, append-IsPlain cs ys (ground (arith, h)) k)

put_digits-IsPlain : (k n : ℕ) (behind : List ℕ) → IsPlain behind → IsPlain (put_digits k n behind)
unfolding put_digits
put_digits-IsPlain zero n behind h = h
put_digits-IsPlain (suc k) n behind h = elim (Bool-cases (ltb n 10)) [
  | inl one ↦ rw one (ground (arith, h))
  | inr more ↦ rw more (put_digits-IsPlain k (n / 10) ((48 + n % 10) ∷ behind) (ground (arith, h)))
]

pub decimal-IsPlain : (n : ℕ) → IsPlain (decimal n)
unfolding decimal
decimal-IsPlain n = put_digits-IsPlain 20 n [] refl

pub field-IsLine : (name : List ℕ) (n : ℕ) → IsPlain name → IsLine (field name n)
field-IsLine name n h = (
  name ++ decimal n,
  append-IsPlain name (decimal n) h (decimal-IsPlain n),
  sym (append_assoc name (decimal n) (codes "\n")),
)

lowers-IsPlain : (a low : List ℕ) → bytes_eq (lowers a) low ≡ true → IsPlain low → IsPlain a
lowers-IsPlain [] low e h = refl
lowers-IsPlain (c ∷ cs) [] e h = absurd (cc e)
lowers-IsPlain (c ∷ cs) (d ∷ ds) e h =
    ground (arith, e, h, lowers-IsPlain cs ds (ground (arith, e)) (ground (arith, h)))

-- A text that is a key up to its case.
pub ieq-IsPlain : (a b : List ℕ) → ieq a b ≡ true → IsPlain (lowers b) → IsPlain a
unfolding ieq
ieq-IsPlain a b e h = lowers-IsPlain a (lowers b) e h

pub names_from-IsLine :
    (u : Users.Users) (k i : ℕ) → HasPlainNames u → All IsLine (names_from u k i)
unfolding names_from name_at
names_from-IsLine u zero i h = tt
names_from-IsLine u (suc k) i h = (
  (
    printed (name_at u i),
    elim (Bool-cases (leb u.count i)) [
      | inl past ↦ rw past refl
      | inr inside ↦ rw inside (h i (ground arith))
    ],
    refl,
  ),
  names_from-IsLine u k (i + 1) h,
)

pub with_newline-IsLine : (ts : List (List ℕ)) → All IsPlain ts → All IsLine (with_newline ts)
with_newline-IsLine [] h = tt
with_newline-IsLine (t ∷ ts) (p, h) = ((t, p, refl), with_newline-IsLine ts h)

-- What is left of a line of the log without its end.
strip_newline-IsPlain : (k : ℕ) (s : List ℕ) → IsPlain (strip_newline (take_line k s).0)
unfolding strip_newline take_line
strip_newline-IsPlain zero s = refl
strip_newline-IsPlain (suc k) [] = refl
strip_newline-IsPlain (suc k) (c ∷ cs) = elim (Bool-cases (c == 10)) [
  | inl ends ↦ rw ends (rw ends refl)
  | inr other ↦
      rw other (put_back c (strip_newline (take_line k cs).0) other (strip_newline-IsPlain k cs))
]
  where
    put_back :
        (c : ℕ) (s : List ℕ)
        → (c == 10) ≡ false
        → IsPlain s
        → IsPlain (elim s [ [] ↦ if c == 10 || c == 13 then [] else c ∷ [] | d ∷ ds ↦ c ∷ d ∷ ds ])
    put_back c [] other h = ground (arith, other)
    put_back c (d ∷ ds) other h = ground (arith, other, h)

copy_lines-IsPlain : (k : ℕ) (f : List ℕ) → All IsPlain (copy_lines k f)
unfolding copy_lines fgets
copy_lines-IsPlain zero f = tt
copy_lines-IsPlain (suc k) [] = tt
copy_lines-IsPlain (suc k) (c ∷ cs) =
    (strip_newline-IsPlain 1023 (c ∷ cs), copy_lines-IsPlain k (take_line 1023 (c ∷ cs)).1)

set-IsPlain :
    (ts : List (List ℕ)) (i : ℕ) (t : List ℕ)
    → All IsPlain ts
    → IsPlain t
    → All IsPlain (set ts i t)
set-IsPlain [] i t h p = tt
set-IsPlain (x ∷ xs) zero t h p = (p, h.1)
set-IsPlain (x ∷ xs) (suc i) t h p = (h.0, set-IsPlain xs i t h.1 p)

get_or-IsPlain : (ts : List (List ℕ)) (i : ℕ) → All IsPlain ts → IsPlain (get_or ts i [])
get_or-IsPlain [] i h = refl
get_or-IsPlain (x ∷ xs) zero h = h.0
get_or-IsPlain (x ∷ xs) (suc i) h = get_or-IsPlain xs i h.1

swap_ends-IsPlain : (k i : ℕ) (ts : List (List ℕ)) → All IsPlain ts → All IsPlain (swap_ends k i ts)
unfolding swap_ends
swap_ends-IsPlain zero i ts h = h
swap_ends-IsPlain (suc k) i ts h =
    let j = length ts - 1 - i in
    swap_ends-IsPlain k (i + 1) _ (
      set-IsPlain (set ts i (get_or ts j [])) j (get_or ts i [])
        (set-IsPlain ts i (get_or ts j []) h (get_or-IsPlain ts j h)) (get_or-IsPlain ts i h))

pub tail-IsPlain :
    (read_file : List ℕ → Option (List ℕ)) (l : AccessLog) (n room : ℕ)
    → All IsPlain (tail read_file l n room)
unfolding tail newest
tail-IsPlain read_file l n room = elim (Bool-cases (lesser n room == 0 || not l.is_open)) [
  | inl empty ↦ rw empty tt
  | inr reads ↦ rw reads (of_file (read_file l.path))
]
  where
    of_file :
        (o : Option (List ℕ))
        → All IsPlain (elim o [
          | none ↦ []
          | some f ↦
              (let total = count_lines (length f) f in
                newest total (lesser (lesser n room) total) f)
        ])
    of_file none = tt
    of_file (some f) = swap_ends-IsPlain _ 0 _ (copy_lines-IsPlain _ _)
