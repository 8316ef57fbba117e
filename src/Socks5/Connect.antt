-- ===== src/Socks5/Connect.antt =====
-- server/socks5.c: the connection to the origin, from the candidates to the reply.
use protos_tpe.Prelude.{
  ℕ, ◌+◌, Bool, true, false, Option, none, some, List, [], ◌∷◌, ◌==◌, if◌then◌else◌, ◌>>=◌, take,
  ◌≡◌, refl,
}
use protos_tpe.Buffer.{Buffer}
use protos_tpe.Text.{codes}
use protos_tpe.Request.{SockAddr, inet, inet6, is_done, fill_reply, fill_reply_addr, atyp_ipv4}
use protos_tpe.Selector.{Interest}
use protos_tpe.Socks5.{
  State, failed, req_write, req_connecting, req_resolve, Conn, Key, Server, Errno, noop, writing,
}
use protos_tpe.Socks5.Os.{
  Os, Attempt, no_socket, no_nio, opened, connected, in_progress, refused, client_side, origin_side,
  set_interest, called, arm,
}
use protos_tpe.Socks5.Close.{close, take_completed}
use protos_tpe.Socks5.Access.{
  rep_success, rep_general_failure, rep_from_errno, result_token, log_access, log_access-server,
}

-- `build_literal_addr`: the one candidate
unfoldable pub literal_addr : Conn → SockAddr
literal_addr c =
    if c.request.atyp == atyp_ipv4
    then inet (take 4 c.request.dst_addr) c.request.dst_port
    else inet6 (take 16 c.request.dst_addr) c.request.dst_port

-- The origin's descriptor is given up: -1 first, then `selector_unregister_fd`.
unfoldable pub drop_fd : Option ℕ → Key → Key
drop_fd none k = k
drop_fd (some fd) k = close fd (record k { conn = record k.conn { origin_fd = none } })

abbrev pub drop_origin : Key → Key
drop_origin k = drop_fd k.conn.origin_fd k

-- `selector_set_interest(...) != SELECTOR_SUCCESS ? ERROR : next`
abbrev pub armed_or_failed : State → Bool × Key → State × Key
armed_or_failed next (ok, k) = (if ok then next else failed, k)

-- `selector_unregister_fd`, which does nothing for -1
abbrev pub unregister_fd : Option ℕ → Key → Key
unregister_fd none k = k
unregister_fd (some fd) k = close fd k

module _ (os : Os) where
  -- The entry in the access log, if the request has been parsed.
  log_failure : ℕ → Bool → Key → Key
  log_failure rep true k = log_access os (result_token rep) k
  log_failure rep false k = k

  -- `request_fail`
  unfoldable pub request_fail : ℕ → Key → Option (State × Key)
  unfolding log_failure
  request_fail rep k =
      let k₁ = record k { conn = record k.conn { connected = false } } in
      let k₂ = log_failure rep (is_done k₁.conn.request.state) k₁ in
      do
        out ← fill_reply k₂.conn.write_buffer rep atyp_ipv4
        let k₃ = drop_origin (record k₂ { conn = record k₂.conn { write_buffer = out } })
        some (armed_or_failed req_write (set_interest os client_side writing k₃))

  log_failure-server :
      (rep : ℕ) (parsed : Bool) (k : Key)
      → (s : Server) × (log_failure rep parsed k ≡ record k { server = s })
        × (s.users_store ≡ k.server.users_store)
  unfolding log_failure
  log_failure-server rep true k = log_access-server os (result_token rep) k
  log_failure-server rep false k = (k.server, refl, refl)

  -- `request_fail` behind the entry in the log, which changes nothing but the server's variables.
  pub request_fail-logged :
      (rep : ℕ) (k : Key)
      → (s : Server) × (s.users_store ≡ k.server.users_store)
        × (request_fail rep k ≡ (
            fill_reply k.conn.write_buffer rep atyp_ipv4 >>= λ out. some (
              armed_or_failed req_write (
                set_interest os client_side writing (
                  drop_origin (record k {
                    conn = record k.conn { connected = false; write_buffer = out };
                    server = s;
                  }))))))
  unfolding request_fail
  request_fail-logged rep k =
      let (s, e, u) =
        log_failure-server rep (is_done k.conn.request.state)
          (record k { conn = record k.conn { connected = false } }) in
      (s, u, unfold request_fail in rw e refl)

  -- The interests behind a reply that says yes.
  unfoldable pub success_armed : Key → State × Key
  success_armed k =
      let (ok, k₁) = set_interest os origin_side noop k in
      if ok
      then armed_or_failed req_write (set_interest os client_side writing k₁)
      else (failed, k₁)

  -- `request_connect_success` behind `fill_request_reply_addr`
  unfoldable pub success_reply : Bool × Buffer → Key → Option (State × Key)
  success_reply (false, out) k =
      request_fail rep_general_failure
        (record k { conn = record k.conn { connected = true; write_buffer = out } })
  success_reply (true, out) k = some (
      success_armed (
        log_access os (codes "OK")
          (record k { conn = record k.conn { connected = true; write_buffer = out } })))

  -- `request_connect_success`
  unfoldable pub connect_success : Key → Option (State × Key)
  connect_success k = elim (os.sockname k.net.calls) [
    | none ↦ request_fail rep_general_failure (called k)
    | some local ↦ (do
      r ← fill_reply_addr k.conn.write_buffer rep_success local
      success_reply r (called k))
  ]

  -- `selector_register(s, fd, &socks5_handler, i, c)`, with the descriptor in `origin_fd`
  abbrev pub register_origin : ℕ → Interest → Key → Bool × Key
  register_origin fd i k =
      let k' = called k in
      if os.register k.net.calls
      then (
        true,
        record k' {
          conn = record k'.conn { origin_fd = some fd; references = k'.conn.references + 1 };
          net = arm origin_side i k'.net;
        },
      )
      else (false, record k' { conn = record k'.conn { origin_fd = none } })

  unfoldable pub use_registered : Bool → Bool × Key → Option (State × Key)
  use_registered at_once (false, k) = request_fail rep_general_failure k
  use_registered true (true, k) = connect_success k
  use_registered false (true, k) =
      some (armed_or_failed req_connecting (set_interest os client_side noop k))

  -- A connection that was made at once, or that is in flight.
  unfoldable pub use_socket : ℕ → Bool → Key → Option (State × Key)
  use_socket fd at_once k =
      use_registered at_once (register_origin fd (if at_once then noop else writing) k)

  -- One round of the loop of `request_connect`; `next` goes on behind an error.
  unfoldable pub on_attempt : Attempt → (Errno → Option (State × Key)) → Key → Option (State × Key)
  on_attempt (no_socket e) next k = next e
  on_attempt (no_nio e) next k = next e
  on_attempt (opened fd connected) next k = use_socket fd true k
  on_attempt (opened fd in_progress) next k = use_socket fd false k
  on_attempt (opened fd (refused e)) next k = next e

  -- The loop of `request_connect` over the candidates.
  unfoldable pub connect_loop : List SockAddr → Key → Option (State × Key)
  connect_loop [] k = request_fail (rep_from_errno k.conn.last_errno) k
  connect_loop (ai ∷ rest) k =
      let k₁ = called (record k { conn = record k.conn { next_addr = rest } }) in
      on_attempt (os.attempt k.net.calls)
        (λ e. connect_loop rest (record k₁ { conn = record k₁.conn { last_errno = e } })) k₁

  -- `request_connect`
  unfoldable pub request_connect : Key → Option (State × Key)
  request_connect k = connect_loop k.conn.next_addr k

  -- `request_connecting`; `none` is a `SO_ERROR` of 0.
  unfoldable pub request_connecting : Key → Option (State × Key)
  request_connecting k =
      let k₁ = called k in
      elim (os.so_error k.net.calls) [
        | none ↦ connect_success k₁
        | some e ↦
            let k₂ = record k₁ { conn = record k₁.conn { last_errno = e } } in
            let k₃ = unregister_fd k₂.conn.origin_fd k₂ in
            request_connect (record k₃ { conn = record k₃.conn { origin_fd = none } })
      ]

  -- The addresses that the resolver has found, if any.
  unfoldable pub use_resolution : Option (List SockAddr) → Key → Option (State × Key)
  use_resolution none k = request_fail rep_general_failure k
  use_resolution (some candidates) k =
      request_connect (record k { conn = record k.conn { next_addr = candidates } })

  -- `request_resolve_done`
  unfoldable pub request_resolve_done : Key → Option (State × Key)
  request_resolve_done k =
      let (completed, c) = take_completed k.conn in
      let k₁ = record k { conn = c } in
      elim completed [ false ↦ some (req_resolve, k₁) | true ↦ use_resolution c.resolution k₁ ]
