-- ===== src/Line/Whole.antt =====
-- A whole line in a buffer: its state, its text and the bytes that it leaves.
use protos_tpe.Prelude.{
  ℕ, ◌⊎◌, Bool, true, false, ◌&&◌, not, ltb, leb, Bool-cases, inl, inr, suc, ◌+◌, ◌-◌, ◌≤◌, ◌≡◌,
  refl, ap, ◌∙◌, sym, some, List, [], ◌∷◌, ◌++◌, arith, ◌==◌, if◌then◌else◌, length, set, take,
  store_from, take-store_from, length-set, take-set_ge, subst, length-append,
}
use protos_tpe.Buffer.{Buffer, IsValid, contents}
use protos_tpe.Buffer.Feed.{feed_lem, consume}
use protos_tpe.Line.{
  Parser, LineState, ready, too_long, invalid_line, is_unprintable, lf, cr, init, finished, step,
  parser_feed,
}
use protos_tpe.Line.Laws.{
  Ended, at, strip_len, ended, NoLf, printable_prefix, verdict, consume-line,
}

-- A text without the CR at its end.
abbrev pub strip_cr : List ℕ → List ℕ
strip_cr [] = []
strip_cr (c ∷ []) = if c == cr then [] else c ∷ []
strip_cr (c ∷ d ∷ ds) = c ∷ strip_cr (d ∷ ds)

strip_len-cons :
    (a : ℕ) (arr : List ℕ) (k : ℕ) → strip_len (a ∷ arr) (suc (suc k)) ≡ suc (strip_len arr (suc k))
strip_len-cons a arr k =
    let e : suc (suc k) - 1 ≡ suc k = omega arith in
    let f : suc k - 1 ≡ k = omega arith in rw (e, f) (ground arith)

take-strip_len :
    (body arr : List ℕ)
    → take (length body) arr ≡ body
    → take (strip_len arr (length body)) arr ≡ strip_cr body
take-strip_len [] arr h = refl
take-strip_len (c ∷ []) [] h = cc
take-strip_len (c ∷ []) (a ∷ arr) h = let same : a ≡ c = cc in rw same (ground arith)
take-strip_len (c ∷ d ∷ ds) [] h = cc
take-strip_len (c ∷ d ∷ ds) (a ∷ arr) h =
    let same : a ≡ c = cc in
    let tail : take (length (d ∷ ds)) arr ≡ d ∷ ds = cc in
    rw (strip_len-cons a arr (length ds), same)
      (ap (λ ys. c ∷ ys) (take-strip_len (d ∷ ds) arr tail))

strip_len-le : (arr : List ℕ) (n : ℕ) → strip_len arr n ≤ n
strip_len-le arr n = ground arith

-- The line that the parser holds.
abbrev pub text : Parser → List ℕ
text p = take p.len p.line

pub record Line (body rest : List ℕ) (q : Parser) (st : LineState) (left : List ℕ) : Type 0 where
  pub state_is : st ≡ verdict body
  pub text_is : st ≡ ready → text q ≡ strip_cr body
  pub left_is : left ≡ rest

ready-le : (body : List ℕ) → verdict body ≡ ready → length body ≤ 4095
ready-le body h = ground arith

text-ended :
    (p : Parser) (arr body : List ℕ)
    → length body ≤ length arr
    → text (ended p (store_from arr 0 body) (0 + length body)) ≡ strip_cr body
unfolding ended
text-ended p arr body h =
    let stored = store_from arr 0 body in
    let n : 0 + length body ≡ length body = omega arith in
    let k = strip_len stored (length body) in
    ap (λ j. text (ended p stored j)) n
    ∙ take-set_ge stored k k 0 (omega arith)
    ∙ take-strip_len body stored (
        ap (λ j. take j stored) {y = 0 + length body} (omega arith)
        ∙ take-store_from body arr 0 (omega arith))

Ended-Line :
    (p : Parser) (arr body rest : List ℕ) (out : (Parser × LineState) × List ℕ)
    → length arr ≡ 4096
    → Ended p arr 0 body rest out
    → Line body rest out.0.0 out.0.1 out.1
Ended-Line p arr body rest out s w = record {
  state_is = w.state_is;
  text_is = λ e.
      let ok = sym w.state_is ∙ e in
      ap text (w.text_is ok) ∙ text-ended p arr body (omega (arith, ready-le body ok));
  left_is = w.left;
}

-- For a reset parser whose array has 4096 bytes, a line in a valid buffer, up to its LF, is
-- reported as ready, too long or invalid by its first defect; a ready line holds the text without
-- the CR at its end; and the bytes behind the LF stay in the buffer for the next call.
pub parser_feed-line :
    (body rest : List ℕ) (p : Parser) {b : Buffer}
    → NoLf body
    → length p.line ≡ 4096
    → IsValid b
    → contents b ≡ body ++ lf ∷ rest
    → (q : Parser) × (st : LineState) × (b' : Buffer) × (parser_feed (init p) b
        ≡ some ((q, st), b'))
      × Line body rest q st (contents b')
      × IsValid b'
unfolding parser_feed init
parser_feed-line body rest p {b} n s v e =
    let arr = set p.line 0 0 in
    let start = at p arr 0 in
    let (b', runs, left) = feed_lem finished step start v (λ nil.
      absurd (omega (arith, ap (length {A = ℕ}) (sym e ∙ nil), length-append body (lf ∷ rest)))) in
    let out = consume finished step start (contents b) in
    let w =
      subst (λ xs. Ended p arr 0 body rest (consume finished step start xs)) (sym e)
        (consume-line body rest p arr 0 n (omega arith)) in
    (
      out.0.0,
      out.0.1,
      b',
      runs,
      rw left.left (Ended-Line p arr body rest out (length-set p.line 0 0 ∙ s) w),
      left.valid,
    )

-- The verdict that the protocol's documentation has for a line: with its LF it has at most 4096
-- bytes, a CR in front of the LF is dropped, and all other bytes are printable ASCII.
abbrev pub all_printable : List ℕ → Bool
all_printable [] = true
all_printable (c ∷ cs) = leb 32 c && (leb c 126 && all_printable cs)

abbrev pub documented : List ℕ → LineState
documented body =
    if ltb 4096 (length body + 1)
    then too_long
    else if all_printable (strip_cr body)
    then ready
    else invalid_line

-- No CR but the one in front of the LF.
abbrev pub has_no_cr : List ℕ → Bool
has_no_cr [] = true
has_no_cr (c ∷ cs) = not (c == cr) && has_no_cr cs

printable_prefix-le : (body : List ℕ) → printable_prefix body ≤ length body
printable_prefix-le [] = omega arith
printable_prefix-le (c ∷ cs) = ground (arith, printable_prefix-le cs)

all_printable-strip_cr :
    (body : List ℕ)
    → has_no_cr (strip_cr body) ≡ true
    → (printable_prefix body == length body) ≡ all_printable (strip_cr body)
all_printable-strip_cr [] h = refl
all_printable-strip_cr (c ∷ []) h = elim (Bool-cases (c == cr)) [
  | inl last ↦ rw last (ground (arith, last))
  | inr other ↦ rw other (ground (arith, other))
]
all_printable-strip_cr (c ∷ d ∷ ds) h =
    let tail = all_printable-strip_cr (d ∷ ds) (ground (arith, h)) in
    let other : (c == cr) ≡ false = ground (arith, h) in
    elim (Bool-cases (leb 32 c && leb c 126)) [
      | inl fine ↦
          let same : is_unprintable c ≡ false = ground (arith, fine, other) in
          rw same (ground (arith, fine, tail))
      | inr bad ↦
          let flagged : is_unprintable c ≡ true = ground (arith, bad, other) in
          rw flagged (ground (arith, bad))
    ]

documented-verdict :
    (body : List ℕ)
    → has_no_cr (strip_cr body) ≡ true
    → (length body ≤ 4095) ⊎ (printable_prefix body ≡ length body)
    → verdict body ≡ documented body
documented-verdict body h clean =
    let below = printable_prefix-le body in
    let same = all_printable-strip_cr body h in
    elim (Bool-cases (ltb 4095 (length body))) [
      | inl long ↦
          let all : printable_prefix body ≡ length body = elim clean [
            | inl short ↦ absurd (ground (arith, long, short))
            | inr all ↦ all
          ] in
          rw all (ground (arith, long))
      | inr short ↦ ground (arith, short, below, same)
    ]

-- For a reset parser whose array has 4096 bytes, a line in a valid buffer, up to its LF, without a CR
-- but in front of the LF, and with no other byte than printable ASCII if it is longer than 4096 bytes
-- with its LF: the parser's answer is the documentation's. The line is too long above 4096 bytes,
-- otherwise invalid if a byte is not printable, and otherwise ready; a ready line holds the text
-- without the CR at its end. The bytes behind the LF stay in the buffer for the next call.
pub parser_feed-documented :
    (body rest : List ℕ) (p : Parser) {b : Buffer}
    → NoLf body
    → has_no_cr (strip_cr body) ≡ true
    → (length body ≤ 4095) ⊎ (printable_prefix body ≡ length body)
    → length p.line ≡ 4096
    → IsValid b
    → contents b ≡ body ++ lf ∷ rest
    → (q : Parser) × (st : LineState) × (b' : Buffer) × (parser_feed (init p) b
        ≡ some ((q, st), b'))
      × (st ≡ documented body)
      × (st ≡ ready → text q ≡ strip_cr body)
      × (contents b' ≡ rest)
      × IsValid b'
parser_feed-documented body rest p n h clean s v e =
    let (q, st, b', runs, line, valid) = parser_feed-line body rest p n s v e in
    (
      q,
      st,
      b',
      runs,
      line.state_is ∙ documented-verdict body h clean,
      line.text_is,
      line.left_is,
      valid,
    )
