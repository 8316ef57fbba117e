-- ===== src/Socks5/Accept.antt =====
-- server/socks5.c: `socks5_passive_accept` and the listener that is paused for want of descriptors.
use protos_tpe.Prelude.{
  ℕ, zero, suc, Bool, true, false, not, Option, none, some, List, [], ◌∷◌, leb, if◌then◌else◌,
  replicate,
}
use protos_tpe.Buffer as Buffer
use protos_tpe.Negotiation
use protos_tpe.Auth
use protos_tpe.Request
use protos_tpe.Metrics.{connection_opened}
use protos_tpe.Socks5.{Conn, Net, Server, other_errno, noop, reading, same_fd}
use protos_tpe.Socks5.Os.{Os}
use protos_tpe.Socks5.Machine.{Socket, machine}

-- What `malloc` leaves in the storage of the two buffers, by the index of the byte.
pub record Heap : Type 0 where
  pub raw_read : ℕ → ℕ
  pub raw_write : ℕ → ℕ

-- The storage of a size.
abbrev pub storage : (ℕ → ℕ) → ℕ → List ℕ
storage cells zero = []
storage cells (suc n) = cells n ∷ storage cells n

-- What the calls of one round answer: `accept`, `selector_fd_set_nio`, the allocations with the
-- memory that they give, `selector_register`, the clock.
pub data Round : Type 0 where
  drained exhausted : Round
  incoming : ℕ → Bool → Option Heap → Bool → ℕ → Round

-- `effective_io_buffer_size`
unfoldable pub effective_io_buffer_size : Server → ℕ
effective_io_buffer_size s = elim s.config [ none ↦ 4096 | some c ↦ c.io_buffer_size ]

abbrev zeroed_neg : Negotiation.Parser
zeroed_neg = Negotiation.init

abbrev zeroed_auth : Auth.Parser
zeroed_auth = record {
  state = Auth.ver;
  ulen = 0;
  uname = replicate 256 0;
  uname_read = 0;
  plen = 0;
  passwd = replicate 256 0;
  passwd_read = 0;
}

abbrev zeroed_request : Request.Parser
zeroed_request = record {
  state = Request.ver;
  cmd = 0;
  atyp = 0;
  dst_addr = replicate 256 0;
  addr_len = 0;
  addr_read = 0;
  dst_port = 0;
  port_read = 0;
}

-- The connection on zeroed memory, as `calloc` and the assignments leave it, with buffers on memory
-- that nothing has set.
unfoldable pub new_conn : ℕ → ℕ → Heap → ℕ → Conn
new_conn client size heap now = record {
  neg = zeroed_neg;
  auth = zeroed_auth;
  request = zeroed_request;
  method = 0;
  auth_status = 0;
  client_fd = some client;
  origin_fd = none;
  references = 1;
  last_activity = now;
  resolution = none;
  next_addr = [];
  last_errno = other_errno;
  job = false;
  job_completed = false;
  resolver_done = false;
  connected = false;
  client_closed = false;
  origin_closed = false;
  client_wr_shut = false;
  origin_wr_shut = false;
  client_interest = noop;
  origin_interest = noop;
  active_counted = true;
  arrival_error = false;
  freed = false;
  parsed = [];
  read_buffer = Buffer.init size (storage heap.raw_read size);
  write_buffer = Buffer.init size (storage heap.raw_write size);
}

abbrev pub fresh_net : Net
fresh_net = record {
  calls = 0;
  from_client = [];
  from_origin = [];
  to_client = [];
  to_origin = [];
  client_armed = reading;
  origin_armed = noop;
  client_half_closed = false;
  origin_half_closed = false;
}

-- The server's side: its variables, the listener that is paused, and the list of connections, the
-- latest first.
pub record Listening : Type 0 where
  pub server : Server
  pub paused : Option ℕ
  pub conns : List Socket

-- `config != NULL && metrics != NULL && metrics->active_connections >= config_max_connections`
unfoldable pub is_full : Server → Bool
is_full s = elim s.config [
  | none ↦ false
  | some c ↦ elim s.metrics [ none ↦ false | some m ↦ leb c.max_connections m.active ]
]

module _ (os : Os) where
  -- A connection that passes all the checks.
  unfoldable pub admit : ℕ → Heap → ℕ → Listening → Listening
  admit client heap now l =
      let conn = new_conn client (effective_io_buffer_size l.server) heap now in
      let s : Socket = record {
        stm = machine os none;
        key = record { fd = client; conn = conn; net = fresh_net; server = l.server };
      } in
      record l {
        server = record l.server { metrics = connection_opened l.server.metrics };
        conns = s ∷ l.conns;
      }

  -- `socks5_passive_accept` on the listener `fd`, over the answers of its rounds
  unfoldable pub passive_accept : ℕ → List Round → Listening → Listening
  passive_accept fd [] l = l
  passive_accept fd (drained ∷ _) l = l
  passive_accept fd (exhausted ∷ _) l = record l { paused = some fd }
  passive_accept fd (incoming client nio memory registered now ∷ rs) l = passive_accept fd rs (
      if is_full l.server
      then l
      else if not nio
      then l
      else elim memory [ none ↦ l | some heap ↦ if registered then admit client heap now l else l ])

-- `socks5_retry_accept`; the flag is what `selector_set_interest` answers.
unfoldable pub retry_accept : Bool → Option ℕ → Option ℕ
retry_accept armed none = none
retry_accept armed (some fd) = if armed then none else some fd

-- `socks5_forget_paused_listener`
unfoldable pub forget_paused_listener : ℕ → Option ℕ → Option ℕ
forget_paused_listener fd paused = if same_fd fd paused then none else paused
