-- ===== src/Auth/Tests.antt =====
-- auth.c on concrete messages.
use protos_tpe.Prelude.{◌≡◌, refl, some, [], ◌∷◌, arith, replicate}
use protos_tpe.Buffer.{Buffer, IsValid, contents}
use protos_tpe.Buffer.Writes.{Pushed}
use protos_tpe.Auth.{
  Parser, init, ver, uname_bytes, step, parser_feed, fill_reply, auth_version, auth_fail,
}
use protos_tpe.Auth.Laws.{Parsed, auth_feed-message}
use protos_tpe.Auth.Bounds.{InBounds, auth_step-InBounds, fill_reply-status}

abbrev zeroed : Parser
zeroed = record {
  state = ver;
  ulen = 0;
  uname = replicate 256 0;
  uname_read = 0;
  plen = 0;
  passwd = replicate 256 0;
  passwd_read = 0;
}

-- user "ab", password "c", and a byte behind them
abbrev login : Buffer
login = record { bytes = 1 ∷ 2 ∷ 97 ∷ 98 ∷ 1 ∷ 99 ∷ 5 ∷ []; limit = 7; read = 0; write = 7 }

abbrev empty : Buffer
empty = record { bytes = 0 ∷ 0 ∷ 0 ∷ []; limit = 3; read = 0; write = 0 }

auth_feed-message_example :
    (q : Parser) × (b' : Buffer) × (parser_feed (init zeroed) login ≡ some (q, b'))
    × Parsed (97 ∷ 98 ∷ []) (99 ∷ []) q
    × (contents b' ≡ 5 ∷ [])
    × IsValid b'
auth_feed-message_example =
    auth_feed-message (97 ∷ 98 ∷ []) (99 ∷ []) (5 ∷ []) zeroed {b = login}
      (record { uname_size = refl; passwd_size = refl }) (omega arith) refl (omega arith)
      (omega arith)

-- the last byte of a name of 255 bytes
abbrev at_end : Parser
at_end = record zeroed { state = uname_bytes; ulen = 255; uname_read = 254 }

auth_step-InBounds_example : InBounds (step at_end 97)
auth_step-InBounds_example = auth_step-InBounds at_end 97 (omega arith) (ground arith)

fill_reply-status_example :
    (b' : Buffer) × (fill_reply empty auth_fail ≡ some b')
    × Pushed empty b' (auth_version ∷ auth_fail ∷ [])
fill_reply-status_example = fill_reply-status auth_fail {b = empty} (omega arith) (omega arith)
