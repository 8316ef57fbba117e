-- ===== src/Negotiation.antt =====
-- server/negotiation.c: the parser of the method negotiation (RFC 1928, section 3) and its reply.
pub mod Laws
pub mod Policy
mod Tests
use protos_tpe.Prelude.{
  ℕ, ◌+◌, ◌%◌, Bool, true, false, Option, some, List, [], ◌∷◌, ◌==◌, if◌then◌else◌, ◌>>=◌,
}
use protos_tpe.Buffer.{Buffer, write_byte}
use protos_tpe.Buffer.Feed.{feed}

pub data NegState : Type 0 where
  version nmethods methods done invalid : NegState

-- `struct negotiation_parser`
pub record Parser : Type 0 where
  pub state : NegState
  pub pending_methods : ℕ
  pub has_userpass : Bool
  pub has_noauth : Bool

abbrev pub socks5_version : ℕ
socks5_version = 5

abbrev pub method_noauth : ℕ
method_noauth = 0

abbrev pub method_userpass : ℕ
method_userpass = 2

abbrev pub method_none : ℕ
method_none = 255

abbrev pub init : Parser
init = record { state = version; pending_methods = 0; has_userpass = false; has_noauth = false }

abbrev pub finished_state : NegState → Bool
finished_state done = true
finished_state invalid = true
finished_state _ = false

abbrev pub finished : Parser → Bool
finished p = finished_state p.state

-- The body of `case NEG_METHODS`; `pending_methods` is a `uint8_t`.
method_byte : Parser → ℕ → Parser
method_byte p c =
    let q =
      if c == method_userpass
      then record p { has_userpass = true }
      else if c == method_noauth
      then record p { has_noauth = true }
      else p in
    let left = (q.pending_methods + 255) % 256 in
    record q { pending_methods = left; state = if left == 0 then done else q.state }

-- The `switch`, on one byte.
step_in : NegState → Parser → ℕ → Parser
unfolding method_byte
step_in version p c = record p { state = if c == socks5_version then nmethods else invalid }
step_in nmethods p c = record p { pending_methods = c; state = if c == 0 then done else methods }
step_in methods p c = method_byte p c
step_in _ p c = p

unfoldable pub step : Parser → ℕ → Parser
unfolding step_in
step p c = step_in p.state p c

-- `negotiation_parser_feed`; what it returns is the state that it leaves.
unfoldable pub parser_feed : Parser → Buffer → Option (Parser × Buffer)
parser_feed = feed finished step

-- `negotiation_done`
abbrev pub is_done : NegState → Bool
is_done done = true
is_done _ = false

-- The method that the server's policy takes from what the client offers.
unfoldable pub choose_method : Parser → Bool → ℕ
choose_method p require_auth =
    if require_auth
    then (if p.has_userpass then method_userpass else method_none)
    else if p.has_noauth
    then method_noauth
    else method_none

unfoldable pub fill_reply : Parser → Buffer → Bool → Option (ℕ × Buffer)
unfolding choose_method
fill_reply p b require_auth = do
  let method = choose_method p require_auth
  b' ← write_byte b socks5_version
  b'' ← write_byte b' method
  some (method, b'')
