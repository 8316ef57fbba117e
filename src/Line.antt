-- ===== src/Line.antt =====
-- server/mgmt_parser.c: the lines of the monitoring protocol, and their tokens.
pub mod Laws
pub mod Whole
pub mod Tokens
mod Tests
use protos_tpe.Prelude.{
  ℕ, zero, suc, ◌+◌, ◌-◌, Bool, true, false, Option, some, List, [], ◌∷◌, ◌&&◌, ◌||◌, not, ltb, leb,
  ◌==◌, if◌then◌else◌, get_elem?, get_or, set, ◌>>=◌,
}
use protos_tpe.Buffer.{Buffer}
use protos_tpe.Buffer.Feed.{feed}

pub data LineState : Type 0 where
  incomplete ready too_long invalid_line : LineState

abbrev pub line_max : ℕ
line_max = 4096

abbrev pub lf : ℕ
lf = 10

abbrev pub cr : ℕ
cr = 13

-- `struct mgmt_parser`
pub record Parser : Type 0 where
  pub line : List ℕ
  pub len : ℕ
  pub overflow : Bool
  pub invalid : Bool

-- `mgmt_parser_init`, and `mgmt_parser_reset`, which calls it
unfoldable pub init : Parser → Parser
init p = record p { len = 0; overflow = false; invalid = false; line = set p.line 0 0 }

-- A byte that is neither printable ASCII nor a CR.
abbrev pub is_unprintable : ℕ → Bool
is_unprintable c = not (c == cr) && (ltb c 32 || ltb 126 c)

-- The block behind `c == '\n'`.
end_line : Parser → Parser × LineState
end_line p =
    if p.overflow
    then (p, too_long)
    else if p.invalid
    then (p, invalid_line)
    else (let n = if ltb 0 p.len && get_or p.line (p.len - 1) 0 == cr then p.len - 1 else p.len in
        (record p { len = n; line = set p.line n 0 }, ready))

-- The rest of the loop's body.
content_byte : Parser → ℕ → Parser
content_byte p c =
    if p.overflow || p.invalid
    then p
    else if is_unprintable c
    then record p { invalid = true }
    else if leb (line_max - 1) p.len
    then record p { overflow = true }
    else record p { line = set p.line p.len c; len = p.len + 1 }

-- The loop returns at the end of a line; its state carries what it returns, `incomplete` so far.
abbrev pub finished_state : LineState → Bool
finished_state incomplete = false
finished_state _ = true

abbrev pub finished : Parser × LineState → Bool
finished s = finished_state s.1

unfoldable pub step : Parser × LineState → ℕ → Parser × LineState
unfolding end_line content_byte
step (p, st) c = if c == lf then end_line p else (content_byte p c, st)

-- `mgmt_parser_feed`
unfoldable pub parser_feed : Parser → Buffer → Option ((Parser × LineState) × Buffer)
parser_feed p = feed finished step (p, incomplete)

-- `mgmt_tokenize`: a token is the bytes before the NUL that ends it.
abbrev pub space : ℕ
space = 32

unfoldable pub skip_spaces : List ℕ → List ℕ
skip_spaces [] = []
skip_spaces (c ∷ cs) = let rest = skip_spaces cs in if c == space then rest else c ∷ cs

-- The token at the start of a text, and the text behind the space that ends it.
unfoldable pub take_token : List ℕ → List ℕ × List ℕ
take_token [] = ([], [])
take_token (c ∷ cs) =
    let (word, rest) = take_token cs in if c == space then ([], cs) else (c ∷ word, rest)

-- The first argument is `max_args - argc`.
unfoldable pub tokenize : ℕ → List ℕ → List (List ℕ)
unfolding skip_spaces take_token
tokenize zero s = []
tokenize (suc k) s = elim (skip_spaces s) [
  | [] ↦ []
  | c ∷ cs ↦ (let (word, rest) = take_token (c ∷ cs) in word ∷ tokenize k rest)
]
