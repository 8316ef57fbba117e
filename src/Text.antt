-- ===== src/Text.antt =====
-- The parts of the C library's text functions that server/mgmt.c uses on ASCII text: `strcasecmp`,
-- `printf` of unsigned numbers, `strtoul` in base 10, and `parse_u32` of server/mgmt.c.
pub mod Numbers
use protos_tpe.Prelude.{
  ℕ, zero, suc, ◌+◌, ◌-◌, ◌*◌, ◌/◌, ◌%◌, ◌^◌, Bool, true, false, ◌&&◌, ◌||◌, not, Option, none,
  some, List, [], ◌∷◌, ◌++◌, ltb, leb, ◌==◌, if◌then◌else◌, bytes_eq,
}
use Prim.Native.String.{String}
use Prim.Native.Char.{code}

-- The bytes of an ASCII text.
abbrev pub codes : String → List ℕ
codes String.[] = []
codes (String.◌∷◌ c s) = code c ∷ codes s

abbrev pub to_lower : ℕ → ℕ
to_lower c = if leb 65 c && leb c 90 then c + 32 else c

abbrev pub lowers : List ℕ → List ℕ
lowers [] = []
lowers (c ∷ cs) = to_lower c ∷ lowers cs

-- `strcasecmp(a, b) == 0`
unfoldable pub ieq : List ℕ → List ℕ → Bool
ieq a b = bytes_eq (lowers a) (lowers b)

-- The digits of a number in front of a text; the fuel bounds their number.
unfoldable pub put_digits : ℕ → ℕ → List ℕ → List ℕ
put_digits zero n behind = behind
put_digits (suc k) n behind =
    let more = put_digits k (n / 10) ((48 + n % 10) ∷ behind) in
    if ltb n 10 then (48 + n) ∷ behind else more

-- `%zu`, `%u` and `%llu`: a number below 2^64 has at most 20 digits.
unfoldable pub decimal : ℕ → List ℕ
decimal n = put_digits 20 n []

abbrev pub is_digit : ℕ → Bool
is_digit c = leb 48 c && leb c 57

abbrev pub is_space : ℕ → Bool
is_space c = c == 32 || (leb 9 c && leb c 13)

unfoldable pub skip_white : List ℕ → List ℕ
skip_white [] = []
skip_white (c ∷ cs) = let rest = skip_white cs in if is_space c then rest else c ∷ cs

-- The value of the digits at the start of a text, and the text behind them.
unfoldable pub scan_digits : ℕ → List ℕ → ℕ × List ℕ
scan_digits acc [] = (acc, [])
scan_digits acc (c ∷ cs) =
    let more = scan_digits (acc * 10 + (c - 48)) cs in if is_digit c then more else (acc, c ∷ cs)

abbrev starts_digit : List ℕ → Bool
starts_digit [] = false
starts_digit (c ∷ cs) = is_digit c

-- The sign and the text behind it.
abbrev pub sign : List ℕ → Bool × List ℕ
sign [] = (false, [])
sign (c ∷ cs) = if c == 45 then (true, cs) else if c == 43 then (false, cs) else (false, c ∷ cs)

-- `strtoul(s, &end, 10)` for a 64-bit `unsigned long`: the value and the text at `end`. A value
-- out of range is the largest one; a minus sign negates modulo 2^64.
unfoldable pub strtoul : List ℕ → ℕ × List ℕ
unfolding skip_white
strtoul s =
    let (minus, body) = sign (skip_white s) in
    let (v, rest) = scan_digits 0 body in
    if not (starts_digit body)
    then (0, s)
    else if leb (2 ^ 64) v
    then (2 ^ 64 - 1, rest)
    else (if minus then (2 ^ 64 - v) % 2 ^ 64 else v, rest)

abbrev is_empty : List ℕ → Bool
is_empty [] = true
is_empty (_ ∷ _) = false

-- `parse_u32`; a null pointer is `none`.
unfoldable pub parse_u32 : Option (List ℕ) → Option ℕ
unfolding strtoul
parse_u32 none = none
parse_u32 (some s) =
    let (v, rest) = strtoul s in
    if is_empty s then none else if not (is_empty rest) || ltb (2 ^ 32 - 1) v then none else some v
