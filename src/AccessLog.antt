-- ===== src/AccessLog.antt =====
-- server/access_log.c: the last lines of the log, and the record line. A file is the list of its
-- bytes, which have no NUL.
pub mod Reverse
pub mod Tail
pub mod Tests
use protos_tpe.Prelude.{
  ℕ, zero, suc, ◌+◌, ◌-◌, ◌/◌, Bool, true, false, ◌||◌, not, Option, none, some, List, [], ◌∷◌,
  ◌++◌, ltb, leb, ◌==◌, if◌then◌else◌, length, set, get_or,
}
use protos_tpe.Text.{codes}

abbrev pub line_max : ℕ
line_max = 1024

-- `struct AccessLog`: whether `fp` is open, and the path.
pub record AccessLog : Type 0 where
  pub is_open : Bool
  pub path : List ℕ

-- The first bytes of a text, at most as many as the first argument, up to a newline.
unfoldable pub take_line : ℕ → List ℕ → List ℕ × List ℕ
take_line zero s = ([], s)
take_line (suc k) [] = ([], [])
take_line (suc k) (c ∷ cs) =
    let (line, rest) = take_line k cs in if c == 10 then (c ∷ [], cs) else (c ∷ line, rest)

-- `fgets(buf, 1024, f)` on what is left of the file: the line and the rest, `none` at the end.
unfoldable pub fgets : List ℕ → Option (List ℕ × List ℕ)
unfolding take_line
fgets [] = none
fgets (c ∷ cs) = some (take_line (line_max - 1) (c ∷ cs))

-- The loop that counts the lines; each round takes a byte, so the length of the file is fuel
-- enough.
unfoldable pub count_lines : ℕ → List ℕ → ℕ
count_lines zero f = 0
count_lines (suc k) f = elim (fgets f) [ none ↦ 0 | some (line, rest) ↦ suc (count_lines k rest) ]

-- The loop that skips lines.
unfoldable pub skip_lines : ℕ → List ℕ → List ℕ
skip_lines zero f = f
skip_lines (suc k) f = elim (fgets f) [ none ↦ f | some (line, rest) ↦ skip_lines k rest ]

-- `strip_newline`
unfoldable pub strip_newline : List ℕ → List ℕ
strip_newline [] = []
strip_newline (c ∷ cs) = elim (strip_newline cs) [
  | [] ↦ if c == 10 || c == 13 then [] else c ∷ []
  | d ∷ ds ↦ c ∷ d ∷ ds
]

-- The loop that copies `avail` lines; it stops at the end of the file.
unfoldable pub copy_lines : ℕ → List ℕ → List (List ℕ)
unfolding strip_newline
copy_lines zero f = []
copy_lines (suc k) f = elim (fgets f) [
  | none ↦ []
  | some (line, rest) ↦ strip_newline line ∷ copy_lines k rest
]

-- The loop that swaps the ends, with the rounds that are left.
unfoldable pub swap_ends : ℕ → ℕ → List (List ℕ) → List (List ℕ)
swap_ends zero i lines = lines
swap_ends (suc k) i lines =
    let j = length lines - 1 - i in
    swap_ends k (i + 1) (set (set lines i (get_or lines j [])) j (get_or lines i []))

-- The second pass and the reversal.
unfoldable pub newest : ℕ → ℕ → List ℕ → List (List ℕ)
newest total avail f =
    let lines = copy_lines avail (skip_lines (total - avail) f) in
    swap_ends (length lines / 2) 0 lines

-- `a < b ? a : b`
unfoldable pub lesser : ℕ → ℕ → ℕ
lesser a b = if ltb a b then a else b

-- `access_log_tail` with `read_file` for `fopen` and reading; the result has the lines that are
-- written to `lines`.
unfoldable pub tail : (List ℕ → Option (List ℕ)) → AccessLog → ℕ → ℕ → List (List ℕ)
tail read_file l n room =
    let want = lesser n room in
    if want == 0 || not l.is_open then [] else elim (read_file l.path) [
      | none ↦ []
      | some f ↦ (let total = count_lines (length f) f in newest total (lesser want total) f)
    ]

-- The line that `access_log_record` appends, with the time that `strftime` has printed; a closed
-- log records nothing.
unfoldable pub record_line : AccessLog → List ℕ → List ℕ → List ℕ → List ℕ → List ℕ
record_line l ts user dest result =
    if l.is_open
    then ts
      ++ (codes " "
          ++ (user ++ (codes " CONNECT " ++ (dest ++ (codes " " ++ (result ++ codes "\n"))))))
    else []
