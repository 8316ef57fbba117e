-- ===== src/Text/Numbers.antt =====
-- Numbers that are printed and read again, as by GET-CONFIG and SET.
use protos_tpe.Prelude.{
  All, length, ℕ, zero, suc, ◌+◌, ◌*◌, ◌/◌, ◌%◌, ◌^◌, ◌≤◌, ◌<◌, ◌≡◌, refl, ap, ◌∙◌, true, false,
  some, List, [], ◌∷◌, arith, ltb, Bool-cases, inl, inr,
}
use protos_tpe.Text.{
  put_digits, decimal, is_digit, scan_digits, strtoul, parse_u32, skip_white, sign,
}

scan_digits-digit :
    (acc d : ℕ) (s : List ℕ)
    → d < 10
    → scan_digits acc ((48 + d) ∷ s) ≡ scan_digits (acc * 10 + d) s
unfolding scan_digits
scan_digits-digit acc d s h = ground arith

scan_digits_nil : (n : ℕ) → scan_digits n [] ≡ (n, [])
unfolding scan_digits
scan_digits_nil n = refl

abbrev pow10 : ℕ → ℕ
pow10 zero = 1
pow10 (suc k) = 10 * pow10 k

put_digits_one :
    (k n : ℕ) (behind : List ℕ) → n < 10 → put_digits (suc k) n behind ≡ (48 + n) ∷ behind
unfolding put_digits
put_digits_one k n behind h = ground arith

put_digits_more :
    (k n : ℕ) (behind : List ℕ)
    → 10 ≤ n
    → put_digits (suc k) n behind ≡ put_digits k (n / 10) ((48 + n % 10) ∷ behind)
unfolding put_digits
put_digits_more k n behind h = ground arith

-- Read back from 0, the digits of `n` leave `n` as the value.
scan_digits-put_digits :
    (k n : ℕ) (behind : List ℕ)
    → n < pow10 (suc k)
    → scan_digits 0 (put_digits (suc k) n behind) ≡ scan_digits n behind
scan_digits-put_digits zero n behind h =
    ap (scan_digits 0) (put_digits_one 0 n behind (omega arith))
    ∙ scan_digits-digit 0 n behind (omega arith)
    ∙ ap (λ m. scan_digits m behind) (omega arith)
scan_digits-put_digits (suc k) n behind h = elim (Bool-cases (ltb n 10)) [
  | inl small ↦
      ap (scan_digits 0) (put_digits_one (suc k) n behind (ground arith))
      ∙ scan_digits-digit 0 n behind (ground arith)
      ∙ ap (λ m. scan_digits m behind) (omega arith)
  | inr large ↦
      ap (scan_digits 0) (put_digits_more (suc k) n behind (ground arith))
      ∙ scan_digits-put_digits k (n / 10) ((48 + n % 10) ∷ behind) (omega arith)
      ∙ scan_digits-digit (n / 10) (n % 10) behind (omega arith)
      ∙ ap (λ m. scan_digits m behind) (omega arith)
]

-- The text starts with a digit, so that no sign and no white space is in front of it.
pub record StartsDigit (s : List ℕ) : Type 0 where
  pub head : ℕ
  pub tail : List ℕ
  pub split : s ≡ head ∷ tail
  pub range : is_digit head ≡ true

put_digits-StartsDigit : (k n : ℕ) (behind : List ℕ) → StartsDigit (put_digits (suc k) n behind)
unfolding put_digits
put_digits-StartsDigit zero n behind = elim (Bool-cases (ltb n 10)) [
  | inl small ↦
      rw small (record { head = 48 + n; tail = behind; split = refl; range = ground arith })
  | inr large ↦
      rw large (record { head = 48 + n % 10; tail = behind; split = refl; range = ground arith })
]
put_digits-StartsDigit (suc k) n behind = elim (Bool-cases (ltb n 10)) [
  | inl small ↦
      rw small (record { head = 48 + n; tail = behind; split = refl; range = ground arith })
  | inr large ↦ rw large (put_digits-StartsDigit k (n / 10) ((48 + n % 10) ∷ behind))
]

skip_white-digit : (c : ℕ) (cs : List ℕ) → is_digit c ≡ true → skip_white (c ∷ cs) ≡ c ∷ cs
unfolding skip_white
skip_white-digit c cs d = ground arith

sign-digit : (c : ℕ) (cs : List ℕ) → is_digit c ≡ true → sign (c ∷ cs) ≡ (false, c ∷ cs)
sign-digit c cs d = ground arith

strtoul-digit :
    (c : ℕ) (cs : List ℕ)
    → is_digit c ≡ true
    → (scan_digits 0 (c ∷ cs)).0 < 2 ^ 64
    → strtoul (c ∷ cs) ≡ scan_digits 0 (c ∷ cs)
unfolding strtoul skip_white
strtoul-digit c cs d h = rw (skip_white-digit c cs d, sign-digit c cs d, d) (ground arith)

parse_u32-digit :
    (c : ℕ) (cs : List ℕ) (n : ℕ)
    → strtoul (c ∷ cs) ≡ (n, [])
    → n < 2 ^ 32
    → parse_u32 (some (c ∷ cs)) ≡ some n
unfolding parse_u32
parse_u32-digit c cs n e h = rw e (ground arith)

pub scan_digits-decimal : (n : ℕ) → n < 2 ^ 64 → scan_digits 0 (decimal n) ≡ (n, [])
unfolding decimal
scan_digits-decimal n h = scan_digits-put_digits 19 n [] (omega arith) ∙ scan_digits_nil n

pub decimal-StartsDigit : (n : ℕ) → StartsDigit (decimal n)
unfolding decimal
decimal-StartsDigit n = put_digits-StartsDigit 19 n []

All-put_digits :
    (k n : ℕ) (behind : List ℕ)
    → All (λ c. is_digit c ≡ true) behind
    → All (λ c. is_digit c ≡ true) (put_digits k n behind)
unfolding put_digits
All-put_digits zero n behind a = a
All-put_digits (suc k) n behind a = elim (Bool-cases (ltb n 10)) [
  | inl small ↦ rw small (ground arith, a)
  | inr large ↦ rw large (All-put_digits k (n / 10) ((48 + n % 10) ∷ behind) (ground arith, a))
]

pub All-decimal : (n : ℕ) → All (λ c. is_digit c ≡ true) (decimal n)
unfolding decimal
All-decimal n = All-put_digits 20 n [] tt

length-put_digits : (k n : ℕ) (behind : List ℕ) → length (put_digits k n behind) ≤ k + length behind
unfolding put_digits
length-put_digits zero n behind = omega arith
length-put_digits (suc k) n behind =
    ground (arith, length-put_digits k (n / 10) ((48 + n % 10) ∷ behind))

pub length-decimal : (n : ℕ) → length (decimal n) ≤ 20
unfolding decimal
length-decimal n = length-put_digits 20 n []

-- `parse_u32` reads back every number below 2^32 that `%u` prints.
pub parse_u32-decimal : (n : ℕ) → n < 2 ^ 32 → parse_u32 (some (decimal n)) ≡ some n
unfolding decimal
parse_u32-decimal n h =
    let w = put_digits-StartsDigit 19 n [] in
    let e : scan_digits 0 (put_digits 20 n []) ≡ (n, []) =
      scan_digits-put_digits 19 n [] (omega arith) ∙ scan_digits_nil n in
    let e' = rw w.split at e in
    rw w.split (
      parse_u32-digit w.head w.tail n
        (strtoul-digit w.head w.tail w.range (rw e' (omega arith)) ∙ e') h)
