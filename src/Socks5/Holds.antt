-- ===== src/Socks5/Holds.antt =====
-- What holds of a connection of server/socks5.c in each state.
use protos_tpe.Prelude.{
  ℕ, ◌+◌, ◌<◌, ◌≤◌, ◌≡◌, ◌≢◌, ◌⊎◌, Bool, true, false, Option, none, some, List, [], ◌++◌, length,
}
use protos_tpe.Buffer.{Buffer, IsValid, contents}
use protos_tpe.Buffer.Fed.{IsDrained}
use protos_tpe.Negotiation.{method_userpass, method_none}
use protos_tpe.Auth
use protos_tpe.Auth.{auth_ok}
use protos_tpe.Request
use protos_tpe.Request.{SockAddr, get_addr_port}
use protos_tpe.Request.Reply.{IsAddr}
use protos_tpe.Selector.{Interest}
use protos_tpe.Socks5.{
  State, neg_read, neg_write, auth_read, auth_write, req_read, req_resolve, req_connecting,
  req_write, relay, finished, failed, Conn, Key, noop, reading, writing,
}
use protos_tpe.Socks5.Os.{Os, Connecting, opened}
use protos_tpe.Socks5.Forward.{frame}
use protos_tpe.Socks5.Delivery.{InRelay}

-- The two buffers, of at least the least size that the configuration allows.
pub record Buffers (rb wb : Buffer) : Type 0 where
  pub read_valid : IsValid rb
  pub read_drained : IsDrained rb
  pub read_size : 512 ≤ rb.limit
  pub write_valid : IsValid wb
  pub write_drained : IsDrained wb
  pub write_size : 512 ≤ wb.limit

abbrev pub one_if : Bool → ℕ
one_if true = 1
one_if false = 0

abbrev pub fds : Option ℕ → ℕ
fds none = 0
fds (some _) = 1

-- The connection is alive, and its references are the descriptors and the resolver's job.
pub record Refs (client : ℕ) (client_fd origin_fd : Option ℕ) (references : ℕ) (job freed : Bool)
    : Type 0 where
  pub client_there : client_fd ≡ some client
  pub distinct : (o : ℕ) → origin_fd ≡ some o → o ≢ client
  pub counted : references ≡ 1 + fds origin_fd + one_if job
  pub alive : freed ≡ false

-- Before the relay: the parsers have taken `parsed` of the client's bytes, and nothing has been
-- exchanged with an origin.
pub record Ledger (parsed waiting from_client to_origin from_origin : List ℕ)
    (origin_half client_half : Bool) : Type 0 where
  pub upload : from_client ≡ parsed ++ waiting
  pub no_upload : to_origin ≡ []
  pub no_download : from_origin ≡ []
  pub origin_open : origin_half ≡ false
  pub client_open : client_half ≡ false

pub record Plain (client_interest origin_interest : Interest) (arrival_error : Bool) : Type 0 where
  pub client_noop : client_interest ≡ noop
  pub origin_noop : origin_interest ≡ noop
  pub no_error : arrival_error ≡ false

abbrev pub RefsOf : ℕ → Conn → Type 0
RefsOf client c = Refs client c.client_fd c.origin_fd c.references c.job c.freed

abbrev pub Base : ℕ → Key → Type 0
Base client k =
    Buffers k.conn.read_buffer k.conn.write_buffer
    × RefsOf client k.conn
    × Ledger k.conn.parsed (contents k.conn.read_buffer) k.net.from_client k.net.to_origin
        k.net.from_origin k.net.origin_half_closed k.net.client_half_closed
    × Plain k.conn.client_interest k.conn.origin_interest k.conn.arrival_error

-- There is room behind what waits to be read.
abbrev pub HasRoom : Buffer → Type 0
HasRoom b = length (contents b) < b.limit

-- `Open` says that the server has been seen without users, `Accepts` that it has been seen to accept
-- the credentials of a parser.
module _ (client : ℕ) (Open : Type 0) (Accepts : Auth.Parser → Type 0) where
  abbrev pub Admits : Key → Type 0
  Admits k = Open ⊎ Accepts k.conn.auth

  -- No reply waits and the client may use the proxy.
  abbrev pub Calm : Key → Type 0
  Calm k = Base client k × (contents k.conn.write_buffer ≡ []) × Admits k

  -- A reply waits, and the selector waits to write to the client.
  abbrev pub Replying : Key → Type 0
  Replying k =
      Base client k × (0 < length (contents k.conn.write_buffer)) × (k.net.client_armed ≡ writing)

  -- The selector waits for a message of the client.
  abbrev pub Listening : Key → Type 0
  Listening k =
      Base client k
      × (contents k.conn.write_buffer ≡ [])
      × (k.net.client_armed ≡ reading)
      × (k.conn.origin_fd ≡ none)

  abbrev pub Unfinished : Key → Type 0
  Unfinished k = Request.finished k.conn.request ≡ false

  -- The connection that the relay takes over.
  abbrev pub Connected : Key → Type 0
  Connected k = HasRoom k.conn.read_buffer × (k.net.origin_armed ≡ noop)

  abbrev pub Relays : Key → Type 0
  Relays k =
      RefsOf client k.conn
      × ((k.conn.arrival_error ≡ true)
          ⊎ ((replies : List ℕ) × InRelay k.conn.parsed replies (frame k.conn) k))

  abbrev pub Holds : State → Key → Type 0
  Holds neg_read k = Listening k
  Holds neg_write k =
      Replying k
      × (k.conn.origin_fd ≡ none)
      × ((k.conn.method ≡ method_userpass) ⊎ ((k.conn.method ≡ method_none) ⊎ Open))
  Holds auth_read k = Listening k
  Holds auth_write k =
      Replying k × (k.conn.origin_fd ≡ none) × (k.conn.auth_status ≡ auth_ok → Accepts k.conn.auth)
  Holds req_read k = Listening k × Unfinished k × Admits k
  Holds req_resolve k =
      Calm k × (k.conn.origin_fd ≡ none) × HasRoom k.conn.read_buffer × (k.net.client_armed ≡ noop)
  Holds req_connecting k =
      Calm k
      × ((o : ℕ) × (k.conn.origin_fd ≡ some o))
      × HasRoom k.conn.read_buffer
      × (k.net.client_armed ≡ noop)
      × (k.net.origin_armed ≡ writing)
  Holds req_write k =
      Replying k
      × Admits k
      × (k.conn.connected ≡ true → Connected k)
      × ((k.conn.origin_fd ≡ none) ⊎ (k.net.origin_armed ≡ noop))
  Holds relay k = Relays k × Admits k
  Holds finished k = RefsOf client k.conn
  Holds failed k = RefsOf client k.conn

-- What the system guarantees: a new socket is not the client's, and the addresses of a bound socket
-- have their family's size.
pub record Documented (os : Os) (client : ℕ) : Type 0 where
  pub fresh : (i fd : ℕ) (a : Connecting) → os.attempt i ≡ opened fd a → fd ≢ client
  pub sized :
      (i : ℕ) (sa : SockAddr) → os.sockname i ≡ some sa → IsAddr sa ⊎ (get_addr_port sa ≡ none)
