-- ===== src/Client/Replies.antt =====
-- The client reads a counted reply of the server whole, and no byte more.
use protos_tpe.Prelude.{
  ℕ, zero, suc, ◌-◌, ◌^◌, ◌<◌, ◌≡◌, ◌≢◌, refl, ap, ◌∙◌, Bool, true, false, some, List, [], ◌∷◌,
  ◌++◌, append-nil, append_assoc, arith, ◌==◌, length, get_or, All,
}
use protos_tpe.Text.{codes, decimal, is_digit}
use protos_tpe.Text.Numbers.{decimal-StartsDigit, scan_digits-decimal, All-decimal, length-decimal}
use protos_tpe.Mgmt.Commands.{field}
use protos_tpe.Client.{
  ok, strip_cr, read_from, read_line, read_lines, parse_count_status, on_status, counted,
  read_reply, starts_with,
}

-- A line that the client takes as it is: no LF, no CR at its end, and room for it.
pub record IsLine (t : List ℕ) : Type 0 where
  pub no_lf : All (λ c. c ≢ 10) t
  pub no_cr : strip_cr t ≡ t
  pub fits : length t < 4095

read_from-line :
    (t buf rest : List ℕ) (k : ℕ)
    → All (λ c. c ≢ 10) t
    → length t < k
    → read_from k buf (t ++ 10 ∷ rest) ≡ some (strip_cr (buf ++ t), rest)
unfolding read_from
read_from-line [] buf rest zero n h = absurd (omega arith)
read_from-line [] buf rest (suc k) n h = rw (append-nil buf) refl
read_from-line (c ∷ cs) buf rest zero n h = absurd (omega arith)
read_from-line (c ∷ cs) buf rest (suc k) n h =
    let ih = read_from-line cs (buf ++ c ∷ []) rest k n.1 (omega arith) in
    let other : (c == 10) ≡ false = ground (arith, n.0) in
    rw other (ih ∙ ap (λ b. some (strip_cr b, rest)) (append_assoc buf (c ∷ []) cs))

read_line-line : (t rest : List ℕ) → IsLine t → read_line (t ++ 10 ∷ rest) ≡ some (t, rest)
unfolding read_line
read_line-line t rest w =
    read_from-line t [] rest 4095 w.no_lf w.fits ∙ ap (λ b. some (b, rest)) w.no_cr

-- Lines, each with its LF, in front of other bytes.
abbrev pub lines_before : List (List ℕ) → List ℕ → List ℕ
lines_before [] rest = rest
lines_before (t ∷ ts) rest = t ++ 10 ∷ lines_before ts rest

read_lines-All :
    (ts : List (List ℕ)) (rest : List ℕ)
    → All IsLine ts
    → read_lines (length ts) (lines_before ts rest) ≡ some (ts, rest)
unfolding read_lines
read_lines-All [] rest a = refl
read_lines-All (t ∷ ts) rest a =
    rw (read_line-line t (lines_before ts rest) a.0, read_lines)
      (rw (read_lines-All ts rest a.1) refl)

-- A byte that ends no line.
abbrev NotEol : ℕ → Type 0
NotEol c = (c ≢ 10) × (c ≢ 13)

get_or-NotEol : (t : List ℕ) (j : ℕ) → All NotEol t → get_or t j 0 ≢ 13
get_or-NotEol [] j a e = absurd (omega arith)
get_or-NotEol (c ∷ cs) zero a e = a.0.1 e
get_or-NotEol (c ∷ cs) (suc j) a e = get_or-NotEol cs j a.1 e

strip_cr-NotEol : (t : List ℕ) → All NotEol t → strip_cr t ≡ t
unfolding strip_cr
strip_cr-NotEol t a = ground (arith, get_or-NotEol t (length t - 1) a)

no_lf-NotEol : (t : List ℕ) → All NotEol t → All (λ c. c ≢ 10) t
no_lf-NotEol [] a = tt
no_lf-NotEol (c ∷ cs) a = (a.0.0, no_lf-NotEol cs a.1)

pub plain-IsLine : (t : List ℕ) → All NotEol t → length t < 4095 → IsLine t
plain-IsLine t a h = record { no_lf = no_lf-NotEol t a; no_cr = strip_cr-NotEol t a; fits = h }

digits-NotEol : (xs : List ℕ) → All (λ c. is_digit c ≡ true) xs → All NotEol xs
digits-NotEol [] a = tt
digits-NotEol (c ∷ cs) a = (digit-NotEol c a.0, digits-NotEol cs a.1)
  where
    digit-NotEol : (c : ℕ) → is_digit c ≡ true → NotEol c
    digit-NotEol c d = (λ e. absurd (ground (arith, d, e)), λ e. absurd (ground (arith, d, e)))

-- The status line of a count.
abbrev pub status : ℕ → List ℕ
status n = codes "+OK " ++ decimal n

status-IsLine : (n : ℕ) → IsLine (status n)
status-IsLine n =
    let d = digits-NotEol (decimal n) (All-decimal n) in
    let plus : NotEol 43 = (λ e. absurd (omega arith), λ e. absurd (omega arith)) in
    let o : NotEol 79 = (λ e. absurd (omega arith), λ e. absurd (omega arith)) in
    let k : NotEol 75 = (λ e. absurd (omega arith), λ e. absurd (omega arith)) in
    let blank : NotEol 32 = (λ e. absurd (omega arith), λ e. absurd (omega arith)) in
    plain-IsLine (status n) (plus, (o, (k, (blank, d)))) (omega (arith, length-decimal n))

parse_count_status-status : (n : ℕ) → n < 2 ^ 64 → parse_count_status (status n) ≡ some n
unfolding parse_count_status
parse_count_status-status n h =
    let w = decimal-StartsDigit n in
    let scanned = scan_digits-decimal n h in
    let starts : is_digit (get_or (decimal n) 0 0) ≡ true = rw w.split w.range in
    rw (starts, scanned) (ground arith)

no_greeting : (n : ℕ) → starts_with (status n) (codes "+OK SMCP ") ≡ false
no_greeting n =
    let w = decimal-StartsDigit n in
    let other : w.head ≢ 83 = λ e. absurd (ground (arith, w.range, e)) in
    rw w.split (ground (arith, other))

on_status-counted :
    (ts : List (List ℕ)) (rest : List ℕ)
    → All IsLine ts
    → length ts < 2 ^ 64
    → on_status (status (length ts)) (lines_before ts rest)
      ≡ record { result = ok; lines = ts; left = rest }
unfolding on_status counted
on_status-counted ts rest a h =
    rw (parse_count_status-status (length ts) h, on_status) (rw (read_lines-All ts rest a) refl)

-- A reply of the server that is a count, below 2^64, with that many lines behind it, whose lines
-- have no LF and no CR at the end and are shorter than 4095 bytes, is read whole by the client:
-- it has those lines, and the next byte that it reads is the one behind the reply.
pub read_reply-counted :
    (allow_greeting : Bool) (ts : List (List ℕ)) (rest : List ℕ)
    → All IsLine ts
    → length ts < 2 ^ 64
    → read_reply allow_greeting (field (codes "+OK ") (length ts) ++ lines_before ts rest)
      ≡ record { result = ok; lines = ts; left = rest }
unfolding read_reply
read_reply-counted allow_greeting ts rest a h =
    let n = length ts in
    let line : field (codes "+OK ") n ++ lines_before ts rest
        ≡ status n ++ 10 ∷ lines_before ts rest =
      ap (λ t. codes "+OK " ++ t) (append_assoc (decimal n) (codes "\n") (lines_before ts rest)) in
    rw line (
      rw (read_line-line (status n) (lines_before ts rest) (status-IsLine n), read_reply)
        (rw (no_greeting n, read_reply) (on_status-counted ts rest a h)))
