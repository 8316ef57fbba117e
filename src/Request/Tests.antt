-- ===== src/Request/Tests.antt =====
-- request.c on concrete messages.
use protos_tpe.Prelude.{◌≡◌, refl, true, some, [], ◌∷◌, arith, replicate}
use protos_tpe.Buffer.{Buffer, IsValid, contents}
use protos_tpe.Buffer.Writes.{Pushed}
use protos_tpe.Request.{Parser, init, ver, daddr, step, parser_feed, fill_reply_addr, inet}
use protos_tpe.Request.Bounds.{InBounds, HasNoNul, request_step-InBounds, request_step-HasNoNul}
use protos_tpe.Request.Laws.{domain}
use protos_tpe.Request.Message.{Parsed, request_feed-message}
use protos_tpe.Request.Reply.{reply, fill_reply_addr_lem}

abbrev zeroed : Parser
zeroed = record {
  state = ver;
  cmd = 0;
  atyp = 0;
  dst_addr = replicate 256 0;
  addr_len = 0;
  addr_read = 0;
  dst_port = 0;
  port_read = 0;
}

-- CONNECT to "ab", port 443
abbrev connect_ab : Buffer
connect_ab = record {
  bytes = 5 ∷ 1 ∷ 0 ∷ 3 ∷ 2 ∷ 97 ∷ 98 ∷ 1 ∷ 187 ∷ 22 ∷ [];
  limit = 10;
  read = 0;
  write = 10;
}

abbrev empty : Buffer
empty = record { bytes = replicate 32 0; limit = 32; read = 0; write = 0 }

request_feed-message_example :
    (q : Parser) × (b' : Buffer) × (parser_feed (init zeroed) connect_ab ≡ some (q, b'))
    × Parsed 1 (domain (97 ∷ 98 ∷ [])) 443 q
    × (contents b' ≡ 22 ∷ [])
    × IsValid b'
request_feed-message_example =
    request_feed-message (domain (97 ∷ 98 ∷ [])) 1 443 (22 ∷ []) zeroed {b = connect_ab} refl
      (omega arith) refl (omega arith) (omega arith)

fill_reply_addr_example :
    (b' : Buffer) × (fill_reply_addr empty 0 (inet (127 ∷ 0 ∷ 0 ∷ 1 ∷ []) 443) ≡ some (true, b'))
    × Pushed empty b' (reply 0 1 (127 ∷ 0 ∷ 0 ∷ 1 ∷ []) 443)
fill_reply_addr_example =
    fill_reply_addr_lem 0 (inet (127 ∷ 0 ∷ 0 ∷ 1 ∷ []) 443) {b = empty} (omega arith) (omega arith)
      (omega arith)

-- The last byte of a domain name of two bytes is to come.
abbrev at_end : Parser
at_end = record zeroed {
  state = daddr;
  atyp = 3;
  addr_len = 2;
  addr_read = 1;
  dst_addr = 97 ∷ replicate 255 0;
}

at_end-InBounds : InBounds at_end
at_end-InBounds = record {
  addr_size = refl;
  addr_byte = omega arith;
  port_word = omega arith;
  early = λ e. absurd (cc e);
  addr_room = λ e. (omega arith, refl);
  port_room = λ e. absurd (cc e);
}

request_step-InBounds_example : InBounds (step at_end 98)
request_step-InBounds_example = request_step-InBounds at_end 98 (omega arith) at_end-InBounds

request_step-HasNoNul_example : HasNoNul (step at_end 98)
request_step-HasNoNul_example =
    request_step-HasNoNul at_end 98 at_end-InBounds
      (λ domain. ((λ e. absurd (omega (arith, e))), tt))
