-- ===== src/Line/Laws.antt =====
-- The line parser against a plain description of a line: what is accepted, what is refused and
-- why, and which bytes are left.
use protos_tpe.Prelude.{
  ℕ, suc, ◌+◌, ◌-◌, ◌≤◌, ◌<◌, ◌≡◌, ◌≢◌, refl, ap, ◌∙◌, sym, Bool, true, false, List, [], ◌∷◌, ◌++◌,
  ◌&&◌, ◌||◌, arith, ltb, ◌==◌, if◌then◌else◌, length, get_or, set, All, store_from, Bool-cases,
  inl, inr, dec_lt,
}
use protos_tpe.Buffer.Feed.{consume, consume-finished, consume_more}
use protos_tpe.Line.{
  Parser, LineState, incomplete, ready, too_long, invalid_line, lf, cr, is_unprintable, finished,
  step,
}

abbrev pub at : Parser → List ℕ → ℕ → Parser × LineState
at p arr i = (record p { line = arr; len = i; overflow = false; invalid = false }, incomplete)

abbrev is_flagged : Parser → Bool
is_flagged p = p.overflow || p.invalid

step-store :
    (p : Parser) (arr : List ℕ) (i c : ℕ)
    → c ≢ lf
    → is_unprintable c ≡ false
    → i < 4095
    → step (at p arr i) c ≡ at p (set arr i c) (i + 1)
unfolding step
step-store p arr i c ne h lt = ground arith

step-full :
    (p : Parser) (arr : List ℕ) (i c : ℕ)
    → c ≢ lf
    → is_unprintable c ≡ false
    → 4095 ≤ i
    → step (at p arr i) c
      ≡ (record p { line = arr; len = i; overflow = true; invalid = false }, incomplete)
unfolding step
step-full p arr i c ne h le = ground arith

step-bad :
    (p : Parser) (arr : List ℕ) (i c : ℕ)
    → c ≢ lf
    → is_unprintable c ≡ true
    → step (at p arr i) c
      ≡ (record p { line = arr; len = i; overflow = false; invalid = true }, incomplete)
unfolding step
step-bad p arr i c ne h = ground arith

step-discard :
    (p : Parser) (c : ℕ) → c ≢ lf → is_flagged p ≡ true → step (p, incomplete) c ≡ (p, incomplete)
unfolding step
step-discard p c ne h = ground arith

-- What a flagged line ends as.
abbrev flag_state : Parser → LineState
flag_state p = if p.overflow then too_long else invalid_line

step-lf_flagged : (p : Parser) → is_flagged p ≡ true → step (p, incomplete) lf ≡ (p, flag_state p)
unfolding step
step-lf_flagged p h = ground arith

-- The length without a CR at the end.
abbrev pub strip_len : List ℕ → ℕ → ℕ
strip_len arr n = if ltb 0 n && get_or arr (n - 1) 0 == cr then n - 1 else n

unfoldable pub ended : Parser → List ℕ → ℕ → Parser
ended p arr n = record p {
  line = set arr (strip_len arr n) 0;
  len = strip_len arr n;
  overflow = false;
  invalid = false;
}

step-lf : (p : Parser) (arr : List ℕ) (i : ℕ) → step (at p arr i) lf ≡ (ended p arr i, ready)
unfolding step ended
step-lf p arr i = ground arith

flag_state-finished : (p : Parser) → finished (p, flag_state p) ≡ true
flag_state-finished p = ground arith

abbrev pub NoLf : List ℕ → Type 0
NoLf = All (λ c. c ≢ lf)

-- A flagged line is thrown away up to its LF.
discard :
    (body rest : List ℕ) (p : Parser)
    → NoLf body
    → is_flagged p ≡ true
    → consume finished step (p, incomplete) (body ++ lf ∷ rest) ≡ ((p, flag_state p), rest)
discard [] rest p n h =
    consume_more finished step (p, incomplete) lf rest refl
    ∙ ap (λ s. consume finished step s rest) (step-lf_flagged p h)
    ∙ consume-finished finished step (p, flag_state p) rest (flag_state-finished p)
discard (c ∷ cs) rest p n h =
    consume_more finished step (p, incomplete) c (cs ++ lf ∷ rest) refl
    ∙ ap (λ s. consume finished step s (cs ++ lf ∷ rest)) (step-discard p c n.0 h)
    ∙ discard cs rest p n.1 h

-- How many bytes stand before the first that is not printable.
abbrev pub printable_prefix : List ℕ → ℕ
printable_prefix [] = 0
printable_prefix (c ∷ cs) = if is_unprintable c then 0 else suc (printable_prefix cs)

-- How a line ends of which `i` bytes are stored already.
abbrev verdict_from : ℕ → List ℕ → LineState
verdict_from i body =
    let n = printable_prefix body in
    if ltb 4095 (i + n) then too_long else if n == length body then ready else invalid_line

-- The first defect decides: 4096 printable bytes before any other byte make the line too long.
abbrev pub verdict : List ℕ → LineState
verdict body = verdict_from 0 body

pub record Ended (p : Parser) (arr : List ℕ) (i : ℕ) (body rest : List ℕ)
    (out : (Parser × LineState) × List ℕ) : Type 0 where
  pub left : out.1 ≡ rest
  pub state_is : out.0.1 ≡ verdict_from i body
  pub text_is :
      verdict_from i body ≡ ready → out.0.0 ≡ ended p (store_from arr i body) (i + length body)

verdict_from-cons :
    (i c : ℕ) (cs : List ℕ)
    → is_unprintable c ≡ false
    → verdict_from i (c ∷ cs) ≡ verdict_from (i + 1) cs
verdict_from-cons i c cs h = ground arith

pub consume-line :
    (body rest : List ℕ) (p : Parser) (arr : List ℕ) (i : ℕ)
    → NoLf body
    → i ≤ 4095
    → Ended p arr i body rest (consume finished step (at p arr i) (body ++ lf ∷ rest))
consume-line [] rest p arr i n h =
    rw
      (consume_more finished step (at p arr i) lf rest refl
        ∙ ap (λ s. consume finished step s rest) (step-lf p arr i)
        ∙ consume-finished finished step (ended p arr i, ready) rest refl)
      (record {
        left = refl;
        state_is = ground arith;
        text_is = λ _. ap (ended p arr) (omega arith);
      })
consume-line (c ∷ cs) rest p arr i n h = elim (Bool-cases (is_unprintable c)) [
  | inl bad ↦
      let q = record p { line = arr; len = i; overflow = false; invalid = true } in
      rw
        (consume_more finished step (at p arr i) c (cs ++ lf ∷ rest) refl
          ∙ ap (λ s. consume finished step s (cs ++ lf ∷ rest)) (step-bad p arr i c n.0 bad)
          ∙ discard cs rest q n.1 refl)
        (record { left = refl; state_is = ground arith; text_is = λ e. absurd (ground arith) })
  | inr good ↦ elim (dec_lt i 4095) [
    | yes lt ↦
        let ih = consume-line cs rest p (set arr i c) (i + 1) n.1 (omega arith) in
        let same = verdict_from-cons i c cs good in
        rw
          (consume_more finished step (at p arr i) c (cs ++ lf ∷ rest) refl
            ∙ ap (λ s. consume finished step s (cs ++ lf ∷ rest))
                (step-store p arr i c n.0 good lt))
          (record {
            left = ih.left;
            state_is = ih.state_is ∙ sym same;
            text_is = λ e.
                ih.text_is (sym same ∙ e)
                ∙ ap (ended p (store_from (set arr i c) (i + 1) cs)) {y = i + length (c ∷ cs)}
                    (omega arith);
          })
    | no ge ↦
        let q = record p { line = arr; len = i; overflow = true; invalid = false } in
        rw
          (consume_more finished step (at p arr i) c (cs ++ lf ∷ rest) refl
            ∙ ap (λ s. consume finished step s (cs ++ lf ∷ rest))
                (step-full p arr i c n.0 good (omega arith))
            ∙ discard cs rest q n.1 refl)
          (record { left = refl; state_is = ground arith; text_is = λ e. absurd (ground arith) })
  ]
]
