-- ===== src/Negotiation/Tests.antt =====
-- negotiation.c on concrete messages.
use protos_tpe.Prelude.{◌≡◌, refl, true, some, [], ◌∷◌, arith, ◌⊎◌, if◌then◌else◌}
use protos_tpe.Buffer
use protos_tpe.Buffer.{Buffer, IsValid, contents}
use protos_tpe.Buffer.Feed.{consume, feed, feed_loop}
use protos_tpe.Negotiation.{
  init, finished, step, parser_feed, choose_method, method_none, method_userpass, method_noauth,
}
use protos_tpe.Negotiation.Laws.{parsed, Accepts, negotiation_feed-message, negotiation_sound}
use protos_tpe.Negotiation.Policy.{choose_method_policy}

-- no-auth and user/password are offered, and one more byte follows
abbrev greeting : Buffer
greeting = record { bytes = 5 ∷ 2 ∷ 0 ∷ 2 ∷ 9 ∷ 0 ∷ []; limit = 6; read = 0; write = 5 }

abbrev empty : Buffer
empty = record { bytes = 0 ∷ 0 ∷ 0 ∷ []; limit = 3; read = 0; write = 0 }

feed_greeting : parser_feed init greeting ≡ some (parsed (0 ∷ 2 ∷ []), record greeting { read = 4 })
unfolding parser_feed feed_loop feed step Buffer.read_byte Buffer.can_read
feed_greeting = refl

negotiation_feed-message_example :
    (b' : Buffer) × (parser_feed init greeting ≡ some (parsed (0 ∷ 2 ∷ []), b'))
    × (contents b' ≡ 9 ∷ [])
    × IsValid b'
negotiation_feed-message_example =
    negotiation_feed-message (0 ∷ 2 ∷ []) (9 ∷ []) {b = greeting} (omega arith) refl (omega arith)

negotiation_sound_example :
    Accepts (5 ∷ 1 ∷ 2 ∷ 7 ∷ []) (consume finished step init (5 ∷ 1 ∷ 2 ∷ 7 ∷ []))
unfolding consume step
negotiation_sound_example = negotiation_sound (5 ∷ 1 ∷ 2 ∷ 7 ∷ []) (omega arith) refl

choose_method_policy_example :
    (choose_method (parsed (2 ∷ [])) true ≡ method_none)
    ⊎ ((choose_method (parsed (2 ∷ [])) true ≡ (if true then method_userpass else method_noauth))
        × ((if true then (parsed (2 ∷ [])).has_userpass else (parsed (2 ∷ [])).has_noauth) ≡ true))
choose_method_policy_example = choose_method_policy (parsed (2 ∷ [])) true
