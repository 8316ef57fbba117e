-- ===== src/Socks5/Reaper.antt =====
-- server/socks5.c: `socks5_reap_idle`. The list of connections is the order in which it visits them.
use protos_tpe.Prelude.{
  ℕ, ◌+◌, Bool, true, false, ◌&&◌, Option, none, some, List, [], ◌∷◌, ltb, ◌==◌, ◌>>=◌,
}
use protos_tpe.Stm.{state_of}
use protos_tpe.Socks5.{
  State, finished, failed, req_resolve, req_connecting, code, Key, Server, no_fd,
}
use protos_tpe.Socks5.Os.{Os}
use protos_tpe.Socks5.Access.{rep_general_failure, rep_ttl_expired}
use protos_tpe.Socks5.Close.{finish, cancel_conn, mark_inactive, free_if_unreferenced}
use protos_tpe.Socks5.Connect.{request_fail, request_resolve_done}
use protos_tpe.Socks5.Machine.{Socket}

-- `effective_conn_timeout`
unfoldable pub effective_conn_timeout : Server → ℕ
effective_conn_timeout s = elim s.config [ none ↦ 60 | some c ↦ c.conn_timeout ]

-- `idle_timeout_expired`: `time_t` has a sign, so a time in the future is not expired.
unfoldable pub idle_timeout_expired : ℕ → ℕ → ℕ → Bool
idle_timeout_expired now last_activity timeout = ltb (last_activity + timeout) now

abbrev pub is_over : ℕ → Socket → Bool
is_over now s =
    idle_timeout_expired now s.key.conn.last_activity (effective_conn_timeout s.key.server)

-- `next == ERROR || next == DONE`, or else the new state at once.
abbrev pub enter : ℕ → Socket → State × Key → Socket
enter now s (failed, k) = record s { key = finish k }
enter now s (finished, k) = record s { key = finish k }
enter now s (next, k) = record {
  stm = record s.stm { current = some (code next) };
  key = record k { conn = record k.conn { last_activity = now } };
}

-- The loop's own key, which has the client's descriptor.
abbrev pub fd_or : ℕ → Option ℕ → ℕ
fd_or fd none = fd
fd_or fd (some client) = client

abbrev pub client_key : Key → Key
client_key k = record k { fd = fd_or k.fd k.conn.client_fd }

module _ (os : Os) where
  -- A connection whose time is over, in the state `st`.
  unfoldable pub expire : ℕ → ℕ → Socket → Option Socket
  expire now st s = elim (st == code req_connecting) [
    | true ↦ (do r ← request_fail os rep_ttl_expired (client_key s.key); some (enter now s r))
    | false ↦ elim (st == code req_resolve) [
      | false ↦ some (record s { key = finish (client_key s.key) })
      | true ↦
          (let k = record (client_key s.key) { conn = cancel_conn s.key.conn } in
            elim (no_fd k.conn.client_fd) [
              | true ↦ some (record s { key = free_if_unreferenced (mark_inactive k) })
              | false ↦ (do r ← request_fail os rep_general_failure k; some (enter now s r))
            ])
    ]
  ]

  -- The body of the loop for a connection in the state `st`: its job is completed, or its time is
  -- over, or not.
  abbrev pub reap_when : Bool → Bool → ℕ → ℕ → Socket → Option Socket
  reap_when true over now st s = do
    r ← request_resolve_done os (client_key s.key)
    some (enter now s r)
  reap_when false false now st s = some s
  reap_when false true now st s = expire now st s

  unfoldable pub reap : ℕ → Socket → Option Socket
  reap now s = do
    st ← state_of s.stm
    reap_when (st == code req_resolve && s.key.conn.resolver_done) (is_over now s) now st s

  -- The loop of `socks5_reap_idle`; the connections share the variables of the file.
  unfoldable pub reap_all : ℕ → Server → List Socket → Option (Server × List Socket)
  reap_all now server [] = some (server, [])
  reap_all now server (s ∷ ss) = do
    s' ← reap now (record s { key = record s.key { server = server } })
    (last, ss') ← reap_all now s'.key.server ss
    some (last, s' ∷ ss')

  -- `socks5_reap_idle`, with the time of the last sweep
  unfoldable pub reap_idle : ℕ → ℕ → Server → List Socket → Option (ℕ × Server × List Socket)
  reap_idle now last_sweep server ss = elim (now == last_sweep) [
    | true ↦ some (last_sweep, server, ss)
    | false ↦ (do (server', ss') ← reap_all now server ss; some (now, server', ss'))
  ]
