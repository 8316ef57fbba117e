-- ===== src/Auth.antt =====
-- server/auth.c: the parser of the user/password message (RFC 1929) and its reply.
pub mod Laws
pub mod Bounds
mod Tests
use protos_tpe.Prelude.{
  ℕ, ◌+◌, ◌%◌, Bool, true, false, Option, List, [], ◌∷◌, ◌==◌, if◌then◌else◌, ◌>>=◌, set,
}
use protos_tpe.Buffer.{Buffer, write_byte}
use protos_tpe.Buffer.Feed.{feed}

pub data AuthState : Type 0 where
  ver ulen_byte uname_bytes plen_byte passwd_bytes done error : AuthState

-- `struct socks5_auth`; the arrays have 256 bytes, and the counters are `uint8_t`.
pub record Parser : Type 0 where
  pub state : AuthState
  pub ulen : ℕ
  pub uname : List ℕ
  pub uname_read : ℕ
  pub plen : ℕ
  pub passwd : List ℕ
  pub passwd_read : ℕ

abbrev pub auth_version : ℕ
auth_version = 1

abbrev pub auth_ok : ℕ
auth_ok = 0

abbrev pub auth_fail : ℕ
auth_fail = 1

-- `auth_parser_init`
unfoldable pub init : Parser → Parser
init p = record p {
  state = ver;
  ulen = 0;
  uname_read = 0;
  uname = set p.uname 0 0;
  plen = 0;
  passwd_read = 0;
  passwd = set p.passwd 0 0;
}

abbrev pub finished_state : AuthState → Bool
finished_state done = true
finished_state error = true
finished_state _ = false

abbrev pub finished : Parser → Bool
finished p = finished_state p.state

uname_byte : Parser → ℕ → Parser
uname_byte p c =
    let q = record p {
      uname = set p.uname p.uname_read c;
      uname_read = (p.uname_read + 1) % 256;
    } in
    if q.uname_read == q.ulen
    then record q { uname = set q.uname q.ulen 0; state = plen_byte }
    else q

passwd_byte : Parser → ℕ → Parser
passwd_byte p c =
    let q = record p {
      passwd = set p.passwd p.passwd_read c;
      passwd_read = (p.passwd_read + 1) % 256;
    } in
    if q.passwd_read == q.plen then record q { passwd = set q.passwd q.plen 0; state = done } else q

-- The `switch`, on one byte.
step_in : AuthState → Parser → ℕ → Parser
unfolding uname_byte passwd_byte
step_in ver p c = record p { state = if c == auth_version then ulen_byte else error }
step_in ulen_byte p c =
    let q = record p { ulen = c; uname_read = 0 } in
    if c == 0
    then record q { uname = set q.uname 0 0; state = plen_byte }
    else record q { state = uname_bytes }
step_in uname_bytes p c = uname_byte p c
step_in plen_byte p c =
    let q = record p { plen = c; passwd_read = 0 } in
    if c == 0
    then record q { passwd = set q.passwd 0 0; state = done }
    else record q { state = passwd_bytes }
step_in passwd_bytes p c = passwd_byte p c
step_in _ p c = p

unfoldable pub step : Parser → ℕ → Parser
unfolding step_in
step p c = step_in p.state p c

-- `auth_parser_feed`
unfoldable pub parser_feed : Parser → Buffer → Option (Parser × Buffer)
parser_feed = feed finished step

-- `auth_done`
abbrev pub is_done : AuthState → Bool
is_done done = true
is_done _ = false

unfoldable pub fill_reply : Buffer → ℕ → Option Buffer
fill_reply b status = do b' ← write_byte b auth_version; write_byte b' status
