-- ===== src/Socks5/Phases.antt =====
-- server/socks5.c: the negotiation, the authentication and the request of a connection. The lines
-- that are printed on the terminal are left out.
use protos_tpe.Prelude.{
  ℕ, ◌+◌, Bool, true, false, ◌&&◌, ◌||◌, not, Option, none, some, ltb, ◌==◌, if◌then◌else◌, ◌>>=◌,
  List, [], ◌∷◌, ◌++◌, ◌-◌, length, take,
}
use protos_tpe.Buffer.{Buffer, can_read, contents}
use protos_tpe.Negotiation
use protos_tpe.Negotiation.{NegState, method_none, method_userpass}
use protos_tpe.Auth
use protos_tpe.Auth.{AuthState, auth_ok, auth_fail}
use protos_tpe.Request
use protos_tpe.Request.{SockAddr, ReqState, atyp_ipv4, atyp_ipv6}
use protos_tpe.Users.{Users, validate}
use protos_tpe.Socks5.{
  State, failed, finished, relay, neg_read, neg_write, auth_read, auth_write, req_read, req_write,
  req_resolve, Conn, Key, is_client, reading, writing, noop,
}
use protos_tpe.Socks5.Os.{
  Os, Io, io_ok, io_again, io_failed, key_side, set_interest, recv_into, send_from, called,
}
use protos_tpe.Socks5.Access.{rep_general_failure, rep_cmd_not_supported}
use protos_tpe.Socks5.Connect.{request_fail, request_connect, literal_addr, armed_or_failed}

-- What a parser's state means to `feed_parser`.
pub data Verdict : Type 0 where
  complete bad partial : Verdict

abbrev pub neg_verdict : NegState → Verdict
neg_verdict NegState.done = complete
neg_verdict NegState.invalid = bad
neg_verdict _ = partial

abbrev pub auth_verdict : AuthState → Verdict
auth_verdict AuthState.done = complete
auth_verdict AuthState.error = bad
auth_verdict _ = partial

abbrev pub req_verdict : ReqState → Verdict
req_verdict ReqState.done = complete
req_verdict ReqState.error = bad
req_verdict _ = partial

-- `*state == done || *state == invalid`
abbrev pub is_final : Verdict → Bool
is_final partial = false
is_final _ = true

-- The bytes in front of `b` that are gone when `d` is what a feed has left of it.
unfoldable pub taken : Buffer → Buffer → List ℕ
taken b d = take (length (contents b) - length (contents d)) (contents b)

-- `feed_negotiation`
unfoldable pub feed_negotiation : Conn → Option Conn
feed_negotiation c = do
  (p, b) ← Negotiation.parser_feed c.neg c.read_buffer
  some (record c { neg = p; read_buffer = b; parsed = c.parsed ++ taken c.read_buffer b })

-- `feed_auth`
unfoldable pub feed_auth : Conn → Option Conn
feed_auth c = do
  (p, b) ← Auth.parser_feed c.auth c.read_buffer
  some (record c { auth = p; read_buffer = b; parsed = c.parsed ++ taken c.read_buffer b })

-- `feed_request`
unfoldable pub feed_request : Conn → Option Conn
feed_request c = do
  (p, b) ← Request.parser_feed c.request c.read_buffer
  some (record c { request = p; read_buffer = b; parsed = c.parsed ++ taken c.read_buffer b })

-- `auth_required`, of `users_store`
unfoldable pub auth_required : Option Users → Bool
auth_required none = false
auth_required (some u) = ltb 0 u.count

-- `users_validate(users_store, ...)`; with credentials that are not empty it reads the store, and
-- `none` is the access through a null pointer.
unfoldable pub accepts : Option Users → Auth.Parser → Option Bool
accepts none p = if p.ulen == 0 || p.plen == 0 then some false else none
accepts (some u) p = some (validate u p.uname p.ulen p.passwd p.plen)

-- `negotiation_read_init`, `auth_read_init`, `request_read_init`
abbrev pub negotiation_read_init : Conn → Conn
negotiation_read_init c = record c { neg = Negotiation.init }

abbrev pub auth_read_init : Conn → Conn
auth_read_init c = record c { auth = Auth.init c.auth }

abbrev pub request_read_init : Conn → Conn
request_read_init c = record c { request = Request.init c.request }

-- The end of a `send` of a reply: stay, fail, or go on when the buffer is empty.
abbrev pub sent_reply : State → (Key → State × Key) → Io ℕ → Key → State × Key
sent_reply here next (io_ok n) k =
    if n == 0 then (failed, k) else if can_read k.conn.write_buffer then (here, k) else next k
sent_reply here next io_again k = (here, k)
sent_reply here next io_failed k = (failed, k)

-- `request_write` when the reply has gone out: RELAY behind a reply that says yes.
abbrev pub after_reply : Bool → State
after_reply true = relay
after_reply false = finished

-- Whether a `recv` leaves the connection open: `n > 0`, or EAGAIN.
abbrev pub stays_open : Io (List ℕ) → Bool
stays_open (io_ok []) = false
stays_open (io_ok (_ ∷ _)) = true
stays_open io_again = true
stays_open io_failed = false

-- What a worker of the resolver leaves: nothing when the pool stops, or what `getaddrinfo` has found.
pub data Answer : Type 0 where
  stopped : Answer
  found : Option (List SockAddr) → Answer

-- A worker ends the job of the connection, which it does once.
abbrev pub completes : Option Answer → Conn → Bool
completes none c = false
completes (some a) c = c.job && not c.job_completed

abbrev pub resolution_of : Option Answer → Conn → Option (List SockAddr)
resolution_of (some (found r)) c = if c.job && not c.job_completed then r else c.resolution
resolution_of _ c = c.resolution

-- The last section of `resolver_worker_run` under the lock, for the connection of the job; `none` is
-- a worker that has not come to it.
abbrev pub complete_job : Option Answer → Conn → Conn
complete_job o c = record c {
  resolution = resolution_of o c;
  resolver_done = completes o c || c.resolver_done;
  job_completed = completes o c || c.job_completed;
}

-- The second `feed` of `feed_parser`, unless the connection has closed.
unfoldable pub feed_again : (Conn → Option Conn) → Bool × Key → Option (Bool × Key)
feed_again feed (false, k) = some (false, k)
feed_again feed (true, k) = do c ← feed k.conn; some (true, record k { conn = c })

module _ (os : Os) where
  -- `fill_read_buffer`; the flag is false for ERROR.
  unfoldable pub fill_read_buffer : Key → Option (Bool × Key)
  fill_read_buffer k = do
    (r, b, k₁) ← recv_into os k k.conn.read_buffer
    let k₂ = record k₁ { conn = record k₁.conn { read_buffer = b } }
    some (stays_open r, k₂)

  -- `feed_parser` behind its first `feed`, with the test of what that has returned
  unfoldable pub feed_checked : (Conn → Option Conn) → Bool → Key → Option (Bool × Key)
  feed_checked feed true k = some (true, k)
  feed_checked feed false k = do r ← fill_read_buffer k; feed_again feed r

  -- `feed_parser`
  unfoldable pub feed_parser : (Conn → Option Conn) → (Conn → Verdict) → Key → Option (Bool × Key)
  feed_parser feed verdict k = do
    c ← feed k.conn
    feed_checked feed (is_final (verdict c)) (record k { conn = c })

  -- `negotiation_read` behind `feed_parser`
  unfoldable pub negotiation_fed : Verdict → Key → Option (State × Key)
  negotiation_fed bad k = some (failed, k)
  negotiation_fed partial k = some (neg_read, k)
  negotiation_fed complete k = do
    (method, out) ←
        Negotiation.fill_reply k.conn.neg k.conn.write_buffer (auth_required k.server.users_store)
    let k₁ = record k { conn = record k.conn { method = method; write_buffer = out } }
    some (armed_or_failed neg_write (set_interest os (key_side k₁) writing k₁))

  -- `negotiation_read`
  unfoldable pub negotiation_read : Key → Option (State × Key)
  negotiation_read k = do
    (open_, k₁) ← feed_parser feed_negotiation (λ c. neg_verdict c.neg.state) k
    elim open_ [
      | false ↦ some (failed, k₁)
      | true ↦ negotiation_fed (neg_verdict k₁.conn.neg.state) k₁
    ]

  -- The part of a write handler that the three share: `send` and `buffer_read_adv`.
  unfoldable pub send_reply : State → (Key → State × Key) → Bool → Key → Option (State × Key)
  send_reply here next to_client k = do
    (r, b, k₁) ← send_from os to_client k.conn.write_buffer k
    some (sent_reply here next r (record k₁ { conn = record k₁.conn { write_buffer = b } }))

  -- `negotiation_write` when the reply has gone out
  unfoldable pub negotiated : Key → State × Key
  negotiated k =
      if k.conn.method == method_none
      then (failed, k)
      else armed_or_failed (if k.conn.method == method_userpass then auth_read else req_read)
          (set_interest os (key_side k) reading k)

  -- `negotiation_write`
  unfoldable pub negotiation_write : Key → Option (State × Key)
  negotiation_write k = send_reply neg_write negotiated (is_client k) k

  -- `auth_read` behind `feed_parser`
  unfoldable pub auth_fed : Verdict → Key → Option (State × Key)
  auth_fed bad k = some (failed, k)
  auth_fed partial k = some (auth_read, k)
  auth_fed complete k = do
    ok ← accepts k.server.users_store k.conn.auth
    let status = if ok then auth_ok else auth_fail
    out ← Auth.fill_reply k.conn.write_buffer status
    let k₁ = record k { conn = record k.conn { auth_status = status; write_buffer = out } }
    some (armed_or_failed auth_write (set_interest os (key_side k₁) writing k₁))

  -- `auth_read`
  unfoldable pub read_auth : Key → Option (State × Key)
  read_auth k = do
    (open_, k₁) ← feed_parser feed_auth (λ c. auth_verdict c.auth.state) k
    elim open_ [ false ↦ some (failed, k₁) | true ↦ auth_fed (auth_verdict k₁.conn.auth.state) k₁ ]

  -- `auth_write` when the reply has gone out
  unfoldable pub authenticated : Key → State × Key
  authenticated k =
      if not (k.conn.auth_status == auth_ok)
      then (failed, k)
      else armed_or_failed req_read (set_interest os (key_side k) reading k)

  -- `auth_write`
  unfoldable pub write_auth : Key → Option (State × Key)
  write_auth k = send_reply auth_write authenticated (is_client k) k

  -- `socks5_resolver_queue_job`, for the connection; whether the pool has room is its answer.
  unfoldable pub queue_job : Key → Bool × Key
  queue_job k =
      let k₁ = called k in
      if os.queue_job k.net.calls && not k.conn.job
      then (
        true,
        record k₁ {
          conn = record k₁.conn {
            references = k₁.conn.references + 1;
            job = true;
            job_completed = false;
            resolver_done = false;
          };
        },
      )
      else (false, k₁)

  unfoldable pub resolve_queued : Bool × Key → Option (State × Key)
  resolve_queued (false, k) = request_fail os rep_general_failure k
  resolve_queued (true, k) = some (req_resolve, k)

  unfoldable pub resolve_parked : Bool × Key → Option (State × Key)
  unfolding resolve_queued
  resolve_parked (false, k) = some (failed, k)
  resolve_parked (true, k) = resolve_queued (queue_job k)

  -- A domain name: the client waits without an interest while the pool resolves it.
  unfoldable pub resolve : Key → Option (State × Key)
  unfolding resolve_parked
  resolve k = resolve_parked (set_interest os (key_side k) noop k)

  -- `request_read` behind `feed_parser`
  unfoldable pub request_fed : Verdict → Key → Option (State × Key)
  request_fed bad k = request_fail os rep_general_failure k
  request_fed partial k = some (req_read, k)
  request_fed complete k = elim (not (k.conn.request.cmd == 1)) [
    | true ↦ request_fail os rep_cmd_not_supported k
    | false ↦ elim (k.conn.request.atyp == atyp_ipv4 || k.conn.request.atyp == atyp_ipv6) [
      | true ↦
          request_connect os
            (record k { conn = record k.conn { next_addr = literal_addr k.conn ∷ [] } })
      | false ↦ resolve k
    ]
  ]

  -- `request_read`
  unfoldable pub read_request : Key → Option (State × Key)
  read_request k = do
    (open_, k₁) ← feed_parser feed_request (λ c. req_verdict c.request.state) k
    elim open_ [
      | false ↦ some (failed, k₁)
      | true ↦ request_fed (req_verdict k₁.conn.request.state) k₁
    ]

  -- `request_write`
  unfoldable pub write_request : Key → Option (State × Key)
  write_request k = send_reply req_write (λ k'. (after_reply k'.conn.connected, k')) true k
