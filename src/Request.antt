-- ===== src/Request.antt =====
-- server/request.c: the parser of the SOCKS5 request (RFC 1928, section 4) and its replies.
pub mod Laws
pub mod Message
pub mod Reply
pub mod Bounds
mod Tests
use protos_tpe.Prelude.{
  ℕ, ◌+◌, ◌*◌, ◌/◌, ◌%◌, ◌^◌, Bool, true, false, Option, none, some, List, [], ◌∷◌, ◌++◌, ◌&&◌,
  ◌==◌, if◌then◌else◌, ◌>>=◌, set, replicate, take,
}
use protos_tpe.Buffer.{Buffer, write_byte, write_bytes}
use protos_tpe.Buffer.Feed.{feed}

pub data ReqState : Type 0 where
  ver cmd_byte rsv atyp_byte dlen daddr dport done error : ReqState

abbrev pub socks5_version : ℕ
socks5_version = 5

abbrev pub atyp_ipv4 : ℕ
atyp_ipv4 = 1

abbrev pub atyp_domain : ℕ
atyp_domain = 3

abbrev pub atyp_ipv6 : ℕ
atyp_ipv6 = 4

-- `struct socks5_request`; `dst_addr` has 256 bytes, `dst_port` is a `uint16_t`, the other numbers
-- are `uint8_t`.
pub record Parser : Type 0 where
  pub state : ReqState
  pub cmd : ℕ
  pub atyp : ℕ
  pub dst_addr : List ℕ
  pub addr_len : ℕ
  pub addr_read : ℕ
  pub dst_port : ℕ
  pub port_read : ℕ

-- `request_parser_init` leaves `dst_addr` as it is.
unfoldable pub init : Parser → Parser
init p = record p {
  state = ver;
  cmd = 0;
  atyp = 0;
  addr_len = 0;
  addr_read = 0;
  dst_port = 0;
  port_read = 0;
}

abbrev pub finished_state : ReqState → Bool
finished_state done = true
finished_state error = true
finished_state _ = false

abbrev pub finished : Parser → Bool
finished p = finished_state p.state

atyp_step : Parser → ℕ → Parser
atyp_step p c =
    let q = record p { atyp = c } in
    if c == atyp_ipv4
    then record q { addr_len = 4; state = daddr }
    else if c == atyp_ipv6
    then record q { addr_len = 16; state = daddr }
    else if c == atyp_domain
    then record q { state = dlen }
    else record q { state = error }

addr_step : Parser → ℕ → Parser
addr_step p c =
    if p.atyp == atyp_domain && c == 0
    then record p { state = error }
    else (let q = record p {
      dst_addr = set p.dst_addr p.addr_read c;
      addr_read = (p.addr_read + 1) % 256;
    } in
        if q.addr_read == q.addr_len then record q { state = dport } else q)

-- The low byte of `dst_port << 8` is 0, so `| c` is `+ c`.
port_step : Parser → ℕ → Parser
port_step p c =
    let q = record p {
      dst_port = (p.dst_port * 2 ^ 8 + c) % 2 ^ 16;
      port_read = (p.port_read + 1) % 256;
    } in
    if q.port_read == 2 then record q { state = done } else q

-- The `switch`, on one byte.
step_in : ReqState → Parser → ℕ → Parser
unfolding atyp_step addr_step port_step
step_in ver p c = record p { state = if c == socks5_version then cmd_byte else error }
step_in cmd_byte p c = record p { cmd = c; state = rsv }
step_in rsv p c = record p { state = if c == 0 then atyp_byte else error }
step_in atyp_byte p c = atyp_step p c
step_in dlen p c = record p { addr_len = c; state = if c == 0 then error else daddr }
step_in daddr p c = addr_step p c
step_in dport p c = port_step p c
step_in _ p c = p

unfoldable pub step : Parser → ℕ → Parser
unfolding step_in
step p c = step_in p.state p c

-- `request_parser_feed`
unfoldable pub parser_feed : Parser → Buffer → Option (Parser × Buffer)
parser_feed = feed finished step

-- `request_done`
abbrev pub is_done : ReqState → Bool
is_done done = true
is_done _ = false

-- A socket address as `sockaddr_get_addr_port` reads it: the raw address and the port in host
-- order.
pub data SockAddr : Type 0 where
  inet : List ℕ → ℕ → SockAddr
  inet6 : List ℕ → ℕ → SockAddr
  other_family : SockAddr

-- `sockaddr_get_addr_port`, whose `addr_len` is 4 or 16
unfoldable pub get_addr_port : SockAddr → Option (List ℕ × ℕ × ℕ)
get_addr_port (inet addr port) = some (addr, 4, port)
get_addr_port (inet6 addr port) = some (addr, 16, port)
get_addr_port other_family = none

-- The bytes of the address loop: zeros for a null `addr`.
abbrev pub address_bytes : Option (List ℕ) → ℕ → List ℕ
address_bytes none n = replicate n 0
address_bytes (some addr) n = take n addr

-- `write_request_reply`
unfoldable pub write_reply : Buffer → ℕ → ℕ → Option (List ℕ) → ℕ → ℕ → Option Buffer
write_reply b rep atyp addr addr_len port = do
  b₁ ← write_byte b socks5_version
  b₂ ← write_byte b₁ rep
  b₃ ← write_byte b₂ 0
  b₄ ← write_byte b₃ atyp
  b₅ ← write_bytes b₄ (address_bytes addr addr_len)
  b₆ ← write_byte b₅ (port / 2 ^ 8 % 256)
  write_byte b₆ (port % 2 ^ 8)

-- `fill_request_reply`
unfoldable pub fill_reply : Buffer → ℕ → ℕ → Option Buffer
unfolding write_reply
fill_reply b rep atyp =
    let used = if atyp == atyp_ipv6 then atyp else atyp_ipv4 in
    let addr_len = if used == atyp_ipv6 then 16 else 4 in write_reply b rep used none addr_len 0

-- The `atyp` of a socket address.
abbrev pub family_atyp : SockAddr → ℕ
family_atyp (inet6 _ _) = atyp_ipv6
family_atyp _ = atyp_ipv4

-- `fill_request_reply_addr`: the flag is false for a family that is neither IPv4 nor IPv6.
unfoldable pub fill_reply_addr : Buffer → ℕ → SockAddr → Option (Bool × Buffer)
unfolding write_reply get_addr_port
fill_reply_addr b rep sa = elim (get_addr_port sa) [
  | none ↦ some (false, b)
  | some (addr, addr_len, port) ↦ (do
    b' ← write_reply b rep (family_atyp sa) (some addr) addr_len port
    some (true, b'))
]
