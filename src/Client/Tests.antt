-- ===== src/Client/Tests.antt =====
-- The client on small replies and texts.
use protos_tpe.Prelude.{ℕ, ◌≡◌, refl, true, false, some, List, [], ◌∷◌, ◌++◌, arith, length, ◌<◌}
use protos_tpe.Text.{codes}
use protos_tpe.Mgmt.Commands.{field}
use protos_tpe.Client.{ok, is_token, parse_auth_arg, read_reply}
use protos_tpe.Client.Replies.{IsLine, plain-IsLine, lines_before, read_reply-counted}

abbrev names : List (List ℕ)
names = codes "a" ∷ codes "b" ∷ []

token_ok : is_token (codes "LIST-USERS") ≡ true
unfolding is_token
token_ok = refl

auth_arg : parse_auth_arg 256 256 (codes "r:p:q") ≡ some (codes "r", codes "p:q")
unfolding parse_auth_arg
auth_arg = refl

read_reply-counted_example :
    read_reply false (field (codes "+OK ") (length names) ++ lines_before names (codes "next"))
    ≡ record { result = ok; lines = names; left = codes "next" }
read_reply-counted_example =
    read_reply-counted false names (codes "next") (one 97 (omega arith), (one 98 (omega arith), tt))
      (omega arith)
  where
    one : (c : ℕ) → 13 < c → IsLine (c ∷ [])
    one c h =
        plain-IsLine (c ∷ []) (((λ e. omega (arith, e)), (λ e. omega (arith, e))), tt) (omega arith)
