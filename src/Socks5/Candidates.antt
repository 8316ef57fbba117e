-- ===== src/Socks5/Candidates.antt =====
-- The candidates of the origin, and the handlers that try them.
use protos_tpe.Prelude.{
  ℕ, ◌+◌, ◌≡◌, ◌≢◌, refl, sym, ap, ◌∙◌, subst, Bool, true, false, Option, none, some, List, [], ◌∷◌,
  arith, if◌then◌else◌, Bool-cases, Option-cases, inl, inr,
}
use protos_tpe.Auth
use protos_tpe.Request.{SockAddr}
use protos_tpe.Users.{Users}
use protos_tpe.Socks5.{
  State, failed, req_connecting, req_resolve, Key, Errno, same_fd, noop, writing,
}
use protos_tpe.Socks5.Os.{
  Os, Attempt, no_socket, no_nio, opened, Connecting, connected, in_progress, refused, client_side,
  origin_side, called, arm,
}
use protos_tpe.Socks5.Close.{take_completed}
use protos_tpe.Socks5.Access.{rep_general_failure, rep_from_errno}
use protos_tpe.Socks5.Connect.{
  use_socket, use_registered, on_attempt, connect_loop, request_connect, request_connecting,
  request_resolve_done, use_resolution, unregister_fd,
}
use protos_tpe.Socks5.Machine.{arrival_of}
use protos_tpe.Socks5.Holds.{RefsOf, one_if, fds, Calm, HasRoom, Documented}
use protos_tpe.Socks5.Replying.{Yields, request_fail_lem, set_interest-cases, forget_other}
use protos_tpe.Socks5.Closing.{without, close_lem, taken}
use protos_tpe.Socks5.Connecting.{connect_success_lem}

module _ (os : Os) (client : ℕ) (Open : Type 0) (Accepts : Auth.Parser → Type 0)
    (system : Documented os client) where
  refused_lem :
      (at_once : Bool) (k : Key) (users : Option Users)
      → k.server.users_store ≡ users
      → Calm client Open Accepts k
      → Yields os client Open Accepts users (use_registered os at_once (false, k))
  unfolding use_registered
  refused_lem true k users same calm =
      request_fail_lem os client Open Accepts rep_general_failure k users same calm
  refused_lem false k users same calm =
      request_fail_lem os client Open Accepts rep_general_failure k users same calm

  registered_lem :
      (at_once : Bool) (fd : ℕ) (k : Key) (users : Option Users)
      → k.server.users_store ≡ users
      → Calm client Open Accepts k
      → k.conn.origin_fd ≡ some fd
      → HasRoom k.conn.read_buffer
      → (at_once ≡ false → k.net.origin_armed ≡ writing)
      → Yields os client Open Accepts users (use_registered os at_once (true, k))
  unfolding use_registered arrival_of
  registered_lem true fd k users same calm there room armed =
      connect_success_lem os client Open Accepts system k users same calm room
  registered_lem false fd k users same calm there room armed =
      elim (set_interest-cases os client_side noop k) [
        | inl ok ↦ record {
          next = req_connecting;
          key = record k { net = arm client_side noop (called k).net };
          runs = rw ok refl;
          holds = (calm, (fd, there), room, refl, armed refl);
          same_users = same;
          plain = refl;
          quiet = refl;
        }
        | inr bad ↦ record {
          next = failed;
          key = called k;
          runs = rw bad refl;
          holds = calm.0.1;
          same_users = same;
          plain = refl;
          quiet = refl;
        }
      ]

  -- A socket that `connect` has taken.
  use_socket_lem :
      (fd : ℕ) (at_once : Bool) (k : Key) (users : Option Users)
      → fd ≢ client
      → k.server.users_store ≡ users
      → Calm client Open Accepts k
      → k.conn.origin_fd ≡ none
      → HasRoom k.conn.read_buffer
      → Yields os client Open Accepts users (use_socket os fd at_once k)
  unfolding use_socket
  use_socket_lem fd at_once k users ne same (base, nil, admits) no_origin room =
      let (buffers, refs, ledger, plain) = base in
      let k₁ = called k in
      elim (Bool-cases (os.register k.net.calls)) [
        | inr bad ↦
            let k₂ = record k₁ { conn = record k₁.conn { origin_fd = none } } in
            let refs' : RefsOf client k₂.conn = record {
              client_there = refs.client_there;
              distinct = λ o e. absurd (cc e);
              counted = refs.counted ∙ ap (λ x. 1 + fds x + one_if k.conn.job) no_origin;
              alive = refs.alive;
            } in
            rw bad
              (refused_lem at_once k₂ users same ((buffers, refs', ledger, plain), nil, admits))
        | inl ok ↦
            let i = if at_once then noop else writing in
            let k₂ = record k₁ {
              conn = record k₁.conn { origin_fd = some fd; references = k.conn.references + 1 };
              net = arm origin_side i k₁.net;
            } in
            let refs' : RefsOf client k₂.conn = record {
              client_there = refs.client_there;
              distinct = λ o e. subst (λ x. x ≢ client) (ground arith) ne;
              counted =
                  omega (arith, refs.counted, ap (λ x. 1 + fds x + one_if k.conn.job) no_origin);
              alive = refs.alive;
            } in
            rw ok (
              registered_lem at_once fd k₂ users same ((buffers, refs', ledger, plain), nil, admits)
                refl room (λ e. ap (λ (x : Bool). if x then noop else writing) e))
      ]

  on_attempt_lem :
      (a : Attempt) (next : Errno → Option (State × Key)) (k : Key) (users : Option Users)
      → ((fd : ℕ) (c : Connecting) → a ≡ opened fd c → fd ≢ client)
      → ((e : Errno) → Yields os client Open Accepts users (next e))
      → k.server.users_store ≡ users
      → Calm client Open Accepts k
      → k.conn.origin_fd ≡ none
      → HasRoom k.conn.read_buffer
      → Yields os client Open Accepts users (on_attempt os a next k)
  unfolding on_attempt
  on_attempt_lem (no_socket e) next k users fresh goes same calm no_origin room = goes e
  on_attempt_lem (no_nio e) next k users fresh goes same calm no_origin room = goes e
  on_attempt_lem (opened fd (refused e)) next k users fresh goes same calm no_origin room = goes e
  on_attempt_lem (opened fd connected) next k users fresh goes same calm no_origin room =
      use_socket_lem fd true k users (fresh fd connected refl) same calm no_origin room
  on_attempt_lem (opened fd in_progress) next k users fresh goes same calm no_origin room =
      use_socket_lem fd false k users (fresh fd in_progress refl) same calm no_origin room

  -- The loop over the candidates ends, with a connection, one in flight, or a reply that says no.
  pub connect_loop_lem :
      (candidates : List SockAddr) (k : Key) (users : Option Users)
      → k.server.users_store ≡ users
      → Calm client Open Accepts k
      → k.conn.origin_fd ≡ none
      → HasRoom k.conn.read_buffer
      → Yields os client Open Accepts users (connect_loop os candidates k)
  unfolding connect_loop
  connect_loop_lem [] k users same calm no_origin room =
      request_fail_lem os client Open Accepts (rep_from_errno k.conn.last_errno) k users same calm
  connect_loop_lem (ai ∷ rest) k users same calm no_origin room =
      let k₁ = called (record k { conn = record k.conn { next_addr = rest } }) in
      on_attempt_lem (os.attempt k.net.calls) _ k₁ users (system.fresh k.net.calls)
        (λ e.
          connect_loop_lem rest (record k₁ { conn = record k₁.conn { last_errno = e } }) users same
            calm no_origin room)
        same calm no_origin room

  -- An attempt in flight has ended: a connection, or the next candidate.
  pub request_connecting_lem :
      (k : Key) (users : Option Users)
      → k.server.users_store ≡ users
      → Calm client Open Accepts k
      → (o : ℕ) × (k.conn.origin_fd ≡ some o)
      → HasRoom k.conn.read_buffer
      → Yields os client Open Accepts users (request_connecting os k)
  unfolding request_connecting request_connect
  request_connecting_lem k users same ((buffers, refs, ledger, plain), nil, admits) (o, is) room =
      elim (Option-cases (os.so_error k.net.calls)) [
        | inl fine ↦
            rw (fine, request_connecting)
              (connect_success_lem os client Open Accepts system (called k) users same
                ((buffers, refs, ledger, plain), nil, admits) room)
        | inr (e, bad) ↦
            let k₂ = record (called k) { conn = record k.conn { last_errno = e } } in
            let (other, there) =
              forget_other client o k.conn refs.client_there (refs.distinct o is) in
            let this : same_fd o k.conn.origin_fd ≡ true = ap (same_fd o) is ∙ ground arith in
            let (n, job, gone, counted) =
              close_lem k₂ o there (rw (other, this) refl)
                (refs.counted ∙ ap (λ x. 1 + fds x + one_if k.conn.job) is) in
            let whole : unregister_fd k.conn.origin_fd k₂
                ≡ record k₂ { conn = without n job k₂.conn } =
              ap (λ x. unregister_fd x k₂) is ∙ gone in
            let k₃ = record k₂ { conn = without n job k₂.conn } in
            let refs' : RefsOf client k₃.conn = record {
              client_there = refs.client_there;
              distinct = λ x e. absurd (cc e);
              counted = counted;
              alive = refs.alive;
            } in
            rw (bad, request_connecting)
              (rw whole (
                connect_loop_lem k.conn.next_addr k₃ users same
                  ((buffers, refs', ledger, plain), nil, admits) refl room))
      ]

  use_resolution_lem :
      (r : Option (List SockAddr)) (k : Key) (users : Option Users)
      → k.server.users_store ≡ users
      → Calm client Open Accepts k
      → k.conn.origin_fd ≡ none
      → HasRoom k.conn.read_buffer
      → Yields os client Open Accepts users (use_resolution os r k)
  unfolding use_resolution request_connect
  use_resolution_lem none k users same calm no_origin room =
      request_fail_lem os client Open Accepts rep_general_failure k users same calm
  use_resolution_lem (some candidates) k users same calm no_origin room =
      connect_loop_lem candidates (record k { conn = record k.conn { next_addr = candidates } })
        users same calm no_origin room

  -- The resolver has woken the connection.
  pub request_resolve_done_lem :
      (k : Key) (users : Option Users)
      → k.server.users_store ≡ users
      → Calm client Open Accepts k
      → k.conn.origin_fd ≡ none
      → HasRoom k.conn.read_buffer
      → k.net.client_armed ≡ noop
      → Yields os client Open Accepts users (request_resolve_done os k)
  unfolding request_resolve_done arrival_of
  request_resolve_done_lem k users same ((buffers, refs, ledger, plain), nil, admits) none_ room
        armed =
      let (n, job, e, counted) =
        taken k.conn 1 (refs.counted ∙ ap (λ x. 1 + fds x + one_if k.conn.job) none_) in
      let k₁ = record k { conn = record k.conn { references = n; job = job } } in
      let refs' : RefsOf client k₁.conn = record {
        client_there = refs.client_there;
        distinct = refs.distinct;
        counted = counted ∙ ap (λ x. 1 + fds x + one_if job) (sym none_);
        alive = refs.alive;
      } in
      let calm' : Calm client Open Accepts k₁ = ((buffers, refs', ledger, plain), nil, admits) in
      elim (Bool-cases (take_completed k.conn).0) [
        | inr waits ↦ record {
          next = req_resolve;
          key = k₁;
          runs =
              rw (waits, request_resolve_done)
                (ap (λ c. some (req_resolve, record k { conn = c })) e);
          holds = (calm', none_, room, armed);
          same_users = same;
          plain = refl;
          quiet = refl;
        }
        | inl done ↦
            rw (done, request_resolve_done)
              (rw e (use_resolution_lem k.conn.resolution k₁ users same calm' none_ room))
      ]
