-- ===== src/Socks5/Close.antt =====
-- server/socks5.c: how a connection loses its descriptors and its references.
use protos_tpe.Prelude.{
  ℕ, ◌-◌, Bool, true, false, ◌&&◌, not, Option, none, some, ◌==◌, if◌then◌else◌,
}
use protos_tpe.Metrics.{connection_closed}
use protos_tpe.Socks5.{Conn, Key, same_fd, no_fd}

-- `conn_mark_inactive`
unfoldable pub mark_inactive : Key → Key
mark_inactive k =
    if k.conn.active_counted
    then record k {
      conn = record k.conn { active_counted = false };
      server = record k.server { metrics = connection_closed k.server.metrics };
    }
    else k

-- `socks5_conn_free_if_unreferenced`
unfoldable pub free_if_unreferenced : Key → Key
unfolding mark_inactive
free_if_unreferenced k =
    if k.conn.references == 0
    then (let k' = mark_inactive k in record k' { conn = record k'.conn { freed = true } })
    else k

-- `socks5_resolver_cancel_conn`, for the connection
unfoldable pub cancel_conn : Conn → Conn
cancel_conn c = if c.job then record c { job = false; references = c.references - 1 } else c

-- `socks5_resolver_take_completed`, for the connection
unfoldable pub take_completed : Conn → Bool × Conn
take_completed c =
    if not c.job
    then (c.resolver_done, c)
    else if c.job_completed
    then (c.resolver_done, record c { job = false; references = c.references - 1 })
    else (false, c)

-- The descriptor that is closed becomes -1 in the connection.
abbrev pub forget_fd : ℕ → Conn → Conn
forget_fd fd c =
    if same_fd fd c.client_fd
    then record c { client_fd = none }
    else if same_fd fd c.origin_fd
    then record c { origin_fd = none }
    else c

-- The resolver's job of a connection that is closed: given up with the last descriptor, or else
-- taken if it is completed.
unfoldable pub leave_job : Bool → Key → Key
unfolding mark_inactive cancel_conn take_completed
leave_job true k = let k' = mark_inactive k in record k' { conn = cancel_conn k'.conn }
leave_job false k = record k { conn = (take_completed k.conn).1 }

-- `socks5_close` behind its `close(key->fd)` and the comparison of the descriptors
unfoldable pub close_forgotten : Conn → Key → Key
unfolding leave_job free_if_unreferenced
close_forgotten c k = free_if_unreferenced (
    leave_job (no_fd c.client_fd && no_fd c.origin_fd)
      (record k { conn = record c { references = c.references - 1 } }))

-- `socks5_close`, which `selector_unregister_fd(s, fd)` calls, without `socks5_retry_accept`
unfoldable pub close : ℕ → Key → Key
unfolding close_forgotten
close fd k = close_forgotten (forget_fd fd k.conn) k

abbrev pub close_if : Option ℕ → Key → Key
close_if none k = k
close_if (some fd) k = close fd k

-- `socks5_done`
unfoldable pub finish : Key → Key
unfolding close
finish k =
    let c = k.conn in
    let k' = record k { conn = record c { client_fd = none; origin_fd = none } } in
    close_if c.client_fd (close_if c.origin_fd k')
