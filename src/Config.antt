-- ===== src/Config.antt =====
-- server/config.c: the parameters that the monitoring protocol changes at run time.
pub mod Laws
mod Tests
use protos_tpe.Prelude.{ℕ, ◌-◌, ◌/◌, Bool, true, false, ◌||◌, ltb, leb, if◌then◌else◌}

-- `struct Config`
pub record Config : Type 0 where
  pub conn_timeout : ℕ
  pub io_buffer_size : ℕ
  pub max_connections : ℕ
  pub max_connections_hard : ℕ

abbrev pub conn_timeout_default : ℕ
conn_timeout_default = 60

abbrev pub conn_timeout_min : ℕ
conn_timeout_min = 1

abbrev pub conn_timeout_max : ℕ
conn_timeout_max = 3600

abbrev pub io_buffer_size_default : ℕ
io_buffer_size_default = 4096

abbrev pub io_buffer_size_min : ℕ
io_buffer_size_min = 512

abbrev pub io_buffer_size_max : ℕ
io_buffer_size_max = 65536

abbrev pub selector_fd_reserve : ℕ
selector_fd_reserve = 24

abbrev pub fds_per_connection : ℕ
fds_per_connection = 2

unfoldable pub max_connections_for_selector : ℕ → ℕ
max_connections_for_selector capacity =
    if leb capacity selector_fd_reserve
    then 1
    else (capacity - selector_fd_reserve) / fds_per_connection

unfoldable pub init : ℕ → Config
unfolding max_connections_for_selector
init capacity =
    let top = max_connections_for_selector capacity in
    record {
      conn_timeout = conn_timeout_default;
      io_buffer_size = io_buffer_size_default;
      max_connections = top;
      max_connections_hard = top;
    }

unfoldable pub set_conn_timeout : Config → ℕ → Bool × Config
set_conn_timeout c v =
    if ltb v conn_timeout_min || ltb conn_timeout_max v
    then (false, c)
    else (true, record c { conn_timeout = v })

unfoldable pub set_io_buffer_size : Config → ℕ → Bool × Config
set_io_buffer_size c v =
    if ltb v io_buffer_size_min || ltb io_buffer_size_max v
    then (false, c)
    else (true, record c { io_buffer_size = v })

unfoldable pub set_max_connections : Config → ℕ → Bool × Config
set_max_connections c v =
    if ltb v 1 || ltb c.max_connections_hard v
    then (false, c)
    else (true, record c { max_connections = v })
