-- ===== src/Socks5.antt =====
-- server/socks5.c and include/socks5_internal.h: the data of a SOCKS5 connection. A file descriptor
-- that is -1 is `none`. The heap pointers are what they point to: the candidates of `next_addr` are
-- the list of addresses from that element on.
pub mod Os
pub mod Close
pub mod Access
pub mod Phases
pub mod Connect
pub mod Relay
pub mod Sends
pub mod Flush
pub mod Arming
pub mod Forward
pub mod Moved
pub mod Halved
pub mod Delivery
pub mod Arrivals
pub mod Run
pub mod Machine
pub mod Fire
pub mod Feeding
pub mod Parsing
pub mod Holds
pub mod Closing
pub mod Replying
pub mod Connecting
pub mod Candidates
pub mod Handshake
pub mod Negotiating
pub mod Authenticating
pub mod Requesting
pub mod Writing
pub mod Writes
pub mod Relaying
pub mod Ending
pub mod Life
pub mod Course
pub mod Events
pub mod Advance
pub mod Serving
pub mod Served
pub mod Accepted
mod Tests
pub mod Admitting
pub mod Expiring
pub mod Sweeping
pub mod Reaper
pub mod Accept
use protos_tpe.Prelude.{ℕ, Bool, true, false, Option, List, ◌==◌, ◌&&◌, not}
use protos_tpe.Buffer.{Buffer}
use protos_tpe.Negotiation
use protos_tpe.Auth
use protos_tpe.Request
use protos_tpe.Request.{SockAddr}
use protos_tpe.Users.{Users}
use protos_tpe.Config.{Config}
use protos_tpe.Metrics.{Metrics}
use protos_tpe.Selector.{Interest}

-- `enum socks5_state`; the last two are DONE and ERROR.
pub data State : Type 0 where
  neg_read neg_write auth_read auth_write req_read req_resolve req_connecting req_write relay
        finished failed :
      State

-- The numbers of the states.
abbrev pub code : State → ℕ
code neg_read = 0
code neg_write = 1
code auth_read = 2
code auth_write = 3
code req_read = 4
code req_resolve = 5
code req_connecting = 6
code req_write = 7
code relay = 8
code finished = 9
code failed = 10

-- The errors of `connect` that the replies tell apart.
pub data Errno : Type 0 where
  econnrefused enetunreach ehostunreach etimedout other_errno : Errno

abbrev pub noop : Interest
noop = record { op_read = false; op_write = false }

abbrev pub reading : Interest
reading = record { op_read = true; op_write = false }

abbrev pub writing : Interest
writing = record { op_read = false; op_write = true }

-- `struct socks5_conn` without its state machine. `job` is `resolver_job != NULL`, `job_completed`
-- the flag of that job; `freed` is set by `free(c)`.
-- `parsed` is no field of the code: it is the bytes that the parsers have taken from the read buffer.
pub record Conn : Type 0 where
  pub neg : Negotiation.Parser
  pub auth : Auth.Parser
  pub request : Request.Parser
  pub method : ℕ
  pub auth_status : ℕ
  pub client_fd : Option ℕ
  pub origin_fd : Option ℕ
  pub references : ℕ
  pub last_activity : ℕ
  pub resolution : Option (List SockAddr)
  pub next_addr : List SockAddr
  pub last_errno : Errno
  pub job : Bool
  pub job_completed : Bool
  pub resolver_done : Bool
  pub connected : Bool
  pub client_closed : Bool
  pub origin_closed : Bool
  pub client_wr_shut : Bool
  pub origin_wr_shut : Bool
  pub client_interest : Interest
  pub origin_interest : Interest
  pub active_counted : Bool
  pub arrival_error : Bool
  pub freed : Bool
  pub parsed : List ℕ
  pub read_buffer : Buffer
  pub write_buffer : Buffer

-- A line of the access log: user, destination, result.
pub record AccessEntry : Type 0 where
  pub user : List ℕ
  pub dst : List ℕ
  pub result : List ℕ

-- The variables of the file that main() injects; `none` is NULL.
pub record Server : Type 0 where
  pub users_store : Option Users
  pub config : Option Config
  pub metrics : Option Metrics
  pub access_log : Option (List AccessEntry)

-- What has gone through the sockets, and what the selector is armed for; `calls` counts the calls of
-- the system.
pub record Net : Type 0 where
  pub calls : ℕ
  pub from_client : List ℕ
  pub from_origin : List ℕ
  pub to_client : List ℕ
  pub to_origin : List ℕ
  pub client_armed : Interest
  pub origin_armed : Interest
  pub client_half_closed : Bool
  pub origin_half_closed : Bool

-- `struct selector_key`: the descriptor of the event and the connection, with all that the handlers
-- change.
pub record Key : Type 0 where
  pub fd : ℕ
  pub conn : Conn
  pub net : Net
  pub server : Server

abbrev pub same_fd : ℕ → Option ℕ → Bool
same_fd fd Option.none = false
same_fd fd (Option.some other) = fd == other

-- `key->fd == c->client_fd`
abbrev pub is_client : Key → Bool
is_client k = same_fd k.fd k.conn.client_fd

abbrev pub no_fd : Option ℕ → Bool
no_fd Option.none = true
no_fd (Option.some _) = false

-- Equality of `fd_interest` values.
abbrev pub bool_eq : Bool → Bool → Bool
bool_eq true b = b
bool_eq false b = not b

abbrev pub interest_eq : Interest → Interest → Bool
interest_eq i j = bool_eq i.op_read j.op_read && bool_eq i.op_write j.op_write
