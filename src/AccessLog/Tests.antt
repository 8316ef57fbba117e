-- ===== src/AccessLog/Tests.antt =====
-- The tail of a log of three lines.
use protos_tpe.Prelude.{ℕ, ◌≡◌, refl, true, Option, some, List, [], ◌∷◌, min}
use mathlib.Core.List.{reverse}
use protos_tpe.Text.{codes}
use protos_tpe.AccessLog.{
  AccessLog, tail, newest, lesser, count_lines, skip_lines, copy_lines, swap_ends, fgets,
  strip_newline,
}
use protos_tpe.AccessLog.Tail.{Lines, stripped, last_lines, tail-last_lines}

abbrev log : AccessLog
log = record { is_open = true; path = codes "access.log" }

abbrev three : List ℕ
three = codes "one\ntwo\r\nthree\n"

abbrev read_three : List ℕ → Option (List ℕ)
read_three path = some three

tail_two : tail read_three log 2 50 ≡ codes "three" ∷ codes "two" ∷ []
unfolding tail newest lesser count_lines skip_lines copy_lines swap_ends fgets strip_newline
tail_two = refl

tail-last_lines_example :
    (ls : List (List ℕ)) × Lines three ls
    × (tail read_three log 2 50 ≡ reverse (stripped (last_lines (min 2 50) ls)))
tail-last_lines_example = tail-last_lines read_three log 2 50 three refl refl
