-- ===== src/AccessLog/Tail.antt =====
-- What the tail of the log is: the last lines of the file, the newest first.
use protos_tpe.Prelude.{
  ℕ, zero, suc, ◌-◌, ◌≤◌, ◌<◌, ◌≡◌, refl, ap, sym, ◌∙◌, true, false, Option, none, some, List, [],
  ◌∷◌, arith, ◌==◌, length, take, drop, min, Bool-cases, inl, inr, Option-cases, length-drop,
  take_all,
}
use mathlib.Core.List.{reverse}
use protos_tpe.AccessLog.Reverse.{swap_ends-reverse}
use protos_tpe.AccessLog.{
  AccessLog, fgets, take_line, count_lines, skip_lines, strip_newline, copy_lines, lesser, newest,
  tail,
}

-- The lines that `fgets` reads from a file, one call after the other.
pub data Lines : List ℕ → List (List ℕ) → Type 0 where
  at_end : {f : List ℕ} → fgets f ≡ none → Lines f []
  next_line :
      {f line rest : List ℕ} {ls : List (List ℕ)}
      → fgets f ≡ some (line, rest)
      → Lines rest ls
      → Lines f (line ∷ ls)

length-take_line : (k : ℕ) (s : List ℕ) → length (take_line k s).1 ≤ length s
unfolding take_line
length-take_line zero s = omega arith
length-take_line (suc k) [] = omega arith
length-take_line (suc k) (c ∷ cs) = ground (arith, length-take_line k cs)

-- A line that is read has at least one byte.
length-take_line_less :
    (k c : ℕ) (cs : List ℕ) → length (take_line (suc k) (c ∷ cs)).1 < suc (length cs)
unfolding take_line
length-take_line_less k c cs = ground (arith, length-take_line k cs)

fgets_less : (f line rest : List ℕ) → fgets f ≡ some (line, rest) → length rest < length f
unfolding fgets
fgets_less [] line rest e = absurd (cc e)
fgets_less (c ∷ cs) line rest e =
    let same : (take_line 1023 (c ∷ cs)).1 ≡ rest = cc in
    rw (← same) (length-take_line_less 1022 c cs)

-- With the length of the file for fuel, the count is that of the lines.
count_lines-Lines :
    (k : ℕ) (f : List ℕ)
    → length f ≤ k
    → (ls : List (List ℕ)) × Lines f ls × (count_lines k f ≡ length ls)
unfolding count_lines
count_lines-Lines zero [] h = ([], at_end {f = []} (unfold fgets in refl), refl)
count_lines-Lines zero (c ∷ cs) h = absurd (omega arith)
count_lines-Lines (suc k) f h = elim (Option-cases (fgets f)) [
  | inl e ↦ ([], at_end e, rw (e, count_lines) refl)
  | inr ((line, rest), e) ↦
      (let (ls, w, n) = count_lines-Lines k rest (omega (arith, fgets_less f line rest e)) in
        (line ∷ ls, next_line e w, rw (e, count_lines) (ap suc n)))
]

skip_lines-Lines :
    (k : ℕ) (f : List ℕ) (ls : List (List ℕ)) → Lines f ls → Lines (skip_lines k f) (drop k ls)
unfolding skip_lines
skip_lines-Lines zero f ls w = w
skip_lines-Lines (suc k) f [] (at_end e) = rw (e, skip_lines) (at_end e)
skip_lines-Lines (suc k) f (l ∷ ls) (next_line {rest = rest} e w) =
    rw (e, skip_lines) (skip_lines-Lines k rest ls w)

abbrev pub stripped : List (List ℕ) → List (List ℕ)
stripped [] = []
stripped (l ∷ ls) = strip_newline l ∷ stripped ls

copy_lines-Lines :
    (k : ℕ) (f : List ℕ) (ls : List (List ℕ)) → Lines f ls → copy_lines k f ≡ stripped (take k ls)
unfolding copy_lines
copy_lines-Lines zero f ls w = refl
copy_lines-Lines (suc k) f [] (at_end e) = rw (e, copy_lines) refl
copy_lines-Lines (suc k) f (l ∷ ls) (next_line {rest = rest} e w) =
    rw (e, copy_lines) (ap (λ t. strip_newline l ∷ t) (copy_lines-Lines k rest ls w))

-- The last lines, in the order of the file.
abbrev pub last_lines : ℕ → List (List ℕ) → List (List ℕ)
last_lines n ls = drop (length ls - n) ls

drop_whole : (ls : List (List ℕ)) → drop (length ls) ls ≡ []
drop_whole [] = refl
drop_whole (l ∷ ls) = drop_whole ls

-- The copy of the `avail` last lines of a file with these lines.
copied-last_lines :
    (avail : ℕ) (f : List ℕ) (ls : List (List ℕ))
    → Lines f ls
    → avail ≤ length ls
    → copy_lines avail (skip_lines (length ls - avail) f) ≡ stripped (last_lines avail ls)
copied-last_lines avail f ls w h =
    let left = drop (length ls - avail) ls in
    copy_lines-Lines avail (skip_lines (length ls - avail) f) left
      (skip_lines-Lines (length ls - avail) f ls w)
    ∙ ap stripped (take_all avail left (omega (arith, length-drop (length ls - avail) ls)))

newest-reverse :
    (avail : ℕ) (f : List ℕ) (ls : List (List ℕ))
    → Lines f ls
    → avail ≤ length ls
    → newest (length ls) avail f ≡ reverse (stripped (last_lines avail ls))
unfolding newest
newest-reverse avail f ls w h =
    swap_ends-reverse (copy_lines avail (skip_lines (length ls - avail) f))
    ∙ ap reverse (copied-last_lines avail f ls w h)

lesser-min : (a b : ℕ) → lesser a b ≡ min a b
unfolding lesser
lesser-min a b = ground arith

-- A shorter way to ask for the same lines.
last_lines_capped :
    (n : ℕ) (ls : List (List ℕ)) → last_lines (min n (length ls)) ls ≡ last_lines n ls
last_lines_capped n ls =
    let same : length ls - min n (length ls) ≡ length ls - n = omega arith in
    ap (λ k. drop k ls) same

last_lines_zero : (ls : List (List ℕ)) → last_lines 0 ls ≡ []
last_lines_zero ls =
    let all : length ls - 0 ≡ length ls = omega arith in ap (λ k. drop k ls) all ∙ drop_whole ls

tail_nothing :
    (read_file : List ℕ → Option (List ℕ)) (l : AccessLog) (n room : ℕ)
    → min n room ≡ 0
    → tail read_file l n room ≡ []
unfolding tail
tail_nothing read_file l n room h = rw (lesser-min n room, h) refl

tail_open :
    (read_file : List ℕ → Option (List ℕ)) (l : AccessLog) (n room : ℕ) (f : List ℕ)
    → (min n room == 0) ≡ false
    → l.is_open ≡ true
    → read_file l.path ≡ some f
    → tail read_file l n room
      ≡ newest (count_lines (length f) f) (min (min n room) (count_lines (length f) f)) f
unfolding tail
tail_open read_file l n room f h o e =
    let total = count_lines (length f) f in
    let same = lesser-min (lesser n room) total ∙ ap (λ k. min k total) (lesser-min n room) in
    rw (lesser-min n room, h, o, e) (ap (λ k. newest total k f) same)

-- Of an open log whose file can be read, the tail is the last `min n room` of the lines that
-- `fgets` reads from the file one after the other, without their line ends, the newest first.
pub tail-last_lines :
    (read_file : List ℕ → Option (List ℕ)) (l : AccessLog) (n room : ℕ) (f : List ℕ)
    → l.is_open ≡ true
    → read_file l.path ≡ some f
    → (ls : List (List ℕ)) × Lines f ls
      × (tail read_file l n room ≡ reverse (stripped (last_lines (min n room) ls)))
tail-last_lines read_file l n room f o e =
    let (ls, w, count) = count_lines-Lines (length f) f (omega arith) in
    let want = min n room in
    (
      ls,
      w,
      elim (Bool-cases (want == 0)) [
        | inl zero_wanted ↦
            (let z : want ≡ 0 = ground arith in
              tail_nothing read_file l n room z
              ∙ sym (
                  ap (λ k. reverse (stripped (last_lines k ls))) z
                  ∙ ap (λ xs. reverse (stripped xs)) (last_lines_zero ls)))
        | inr wanted ↦
            tail_open read_file l n room f wanted o e
            ∙ ap (λ k. newest k (min want k) f) count
            ∙ newest-reverse (min want (length ls)) f ls w (omega arith)
            ∙ ap (λ xs. reverse (stripped xs)) (last_lines_capped want ls)
      ],
    )
