-- ===== src/Line/Tests.antt =====
-- mgmt_parser.c on concrete lines.
use protos_tpe.Prelude.{◌≡◌, inl, refl, false, some, [], ◌∷◌, arith, replicate}
use protos_tpe.Buffer.{Buffer, IsValid, contents}
use protos_tpe.Line.{Parser, LineState, ready, init, parser_feed, tokenize}
use protos_tpe.Line.Whole.{text, strip_cr, documented, parser_feed-documented}
use protos_tpe.Line.Tokens.{tokenize-spread}

abbrev fresh : Parser
fresh = record { line = replicate 4096 0; len = 0; overflow = false; invalid = false }

-- "OK" CR LF, and the start of another line
abbrev segment : Buffer
segment = record { bytes = 79 ∷ 75 ∷ 13 ∷ 10 ∷ 65 ∷ []; limit = 5; read = 0; write = 5 }

parser_feed-documented_example :
    (q : Parser) × (st : LineState) × (b' : Buffer) × (parser_feed (init fresh) segment
      ≡ some ((q, st), b'))
    × (st ≡ documented (79 ∷ 75 ∷ 13 ∷ []))
    × (st ≡ ready → text q ≡ strip_cr (79 ∷ 75 ∷ 13 ∷ []))
    × (contents b' ≡ 65 ∷ [])
    × IsValid b'
parser_feed-documented_example =
    parser_feed-documented (79 ∷ 75 ∷ 13 ∷ []) (65 ∷ []) fresh {b = segment} (ground arith) refl
      (inl (omega arith)) refl (omega arith) refl

tokenize-spread_example : tokenize 5 (32 ∷ 83 ∷ 32 ∷ 32 ∷ 75 ∷ 32 ∷ []) ≡ (83 ∷ []) ∷ (75 ∷ []) ∷ []
tokenize-spread_example = tokenize-spread ((1, 83 ∷ []) ∷ (1, 75 ∷ []) ∷ []) 1 5 (ground arith)
