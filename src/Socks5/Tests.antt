-- ===== src/Socks5/Tests.antt =====
-- A session: a client with a name and a password, an origin whose name is resolved, and a word each
-- way.
use protos_tpe.Prelude.{
  ℕ, ◌≡◌, refl, ap, ◌∙◌, subst, true, false, Option, none, some, List, [], ◌∷◌, ◌⊎◌, arith, inl,
  ◌==◌, if◌then◌else◌, leb,
}
use protos_tpe.Buffer
use protos_tpe.Negotiation
use protos_tpe.Request.{SockAddr, inet, other_family}
use protos_tpe.Request.Reply.{IsAddr}
use protos_tpe.Users.{Users, Entry}
use protos_tpe.Config.{Config}
use protos_tpe.Metrics.{Metrics}
use protos_tpe.Stm.{Event, read_ready, write_ready, block_ready}
use protos_tpe.Socks5.{State, neg_read, neg_write, Key, Server, is_client}
use protos_tpe.Socks5.Os.{Os, Io, io_ok, io_again, in_progress, Attempt, opened}
use protos_tpe.Socks5.Close.{finish}
use protos_tpe.Socks5.Phases.{found}
use protos_tpe.Socks5.Relay.{relay_init}
use protos_tpe.Socks5.Machine.{Socket, fire, handler_of}
use protos_tpe.Socks5.Accept.{Heap, new_conn, Round, incoming, drained, Listening, passive_accept}
use protos_tpe.Socks5.Reaper.{reap}
use protos_tpe.Socks5.Fire.{socket}
use protos_tpe.Socks5.Forward.{frame}
use protos_tpe.Socks5.Delivery.{Outcome}
use protos_tpe.Socks5.Run.{RelayEvent, readable, writable, relay_run, Entering, relay_run-Outcome}
use protos_tpe.Socks5.Holds.{RefsOf, Documented}
use protos_tpe.Socks5.Ending.{finish-freed}
use protos_tpe.Socks5.Course.{Course, starts}
use protos_tpe.Socks5.Serving.{Report, serve}
use protos_tpe.Socks5.Accepted.{
  accepted, accepted-Holds, is_serving, WasOpen, WasAccepted, serve-Course, serve-WasAccepted,
}
use protos_tpe.Socks5.Sweeping.{Swept, reap-Course}
use protos_tpe.Socks5.Admitting.{Limited, passive_accept-Limited}

-- What the sockets bring, by the number of the call.
abbrev arriving : ℕ → Io (List ℕ)
arriving i =
    if i == 0
    then io_ok (5 ∷ 1 ∷ 2 ∷ [])
    else if i == 6
    then io_ok (1 ∷ 1 ∷ 97 ∷ 1 ∷ 98 ∷ [])
    else if i == 12
    then io_ok (5 ∷ 1 ∷ 0 ∷ 3 ∷ 1 ∷ 97 ∷ 0 ∷ 80 ∷ [])
    else if i == 29
    then io_ok (104 ∷ 105 ∷ [])
    else if i == 32
    then io_ok (111 ∷ 107 ∷ [])
    else if leb 35 i
    then io_ok []
    else io_again

abbrev system : Os
system = record {
  recv = arriving;
  send = λ _. io_ok 512;
  set_interest = λ _. true;
  register = λ _. true;
  attempt = λ _. opened 8 in_progress;
  so_error = λ _. none;
  sockname = λ _. some (inet (10 ∷ 0 ∷ 0 ∷ 1 ∷ []) 80);
  queue_job = λ _. true;
  now = λ i. i;
  ntop = λ _ _. [];
}

abbrev users : Users
users = record { count = 1; entries = record { name = 97 ∷ []; pass = 98 ∷ [] } ∷ [] }

abbrev server : Server
server = record { users_store = none; config = none; metrics = none; access_log = none }

abbrev on_client : Event → Report
on_client e = record { event = e; fd = 7; users = users; job = none }

abbrev on_origin : Event → Report
on_origin e = record { event = e; fd = 8; users = users; job = none }

-- The job is done, with one address.
abbrev resolved : Report
resolved = record {
  event = block_ready;
  fd = 7;
  users = users;
  job = some (found (some (inet (10 ∷ 0 ∷ 0 ∷ 9 ∷ []) 80 ∷ [])));
}

abbrev session : List Report
session =
    on_client read_ready
    ∷ on_client write_ready
    ∷ on_client read_ready
    ∷ on_client write_ready
    ∷ on_client read_ready
    ∷ resolved
    ∷ on_origin write_ready
    ∷ on_client write_ready
    ∷ on_client read_ready
    ∷ on_origin write_ready
    ∷ on_origin read_ready
    ∷ []

abbrev zeros : Heap
zeros = record { raw_read = λ _. 0; raw_write = λ _. 0 }

abbrev fresh : Socket
fresh = socket system none (accepted 7 512 zeros 0 server)

abbrev served : Socket
served = elim (serve system session fresh) [ none ↦ fresh | some s ↦ s ]

-- The session ends in the relay.
session-runs :
    (serve system session fresh ≡ some served)
    × (is_serving served.stm.current ≡ true)
    × (served.key.conn.freed ≡ false)
unfolding protos_tpe.Socks5.Os.set_interest protos_tpe.Socks5.Os.recv_into
    protos_tpe.Socks5.Os.send_from protos_tpe.Socks5.Connect.success_armed
    protos_tpe.Socks5.Connect.success_reply protos_tpe.Socks5.Connect.connect_success
    protos_tpe.Socks5.Connect.use_registered protos_tpe.Socks5.Connect.use_socket
    protos_tpe.Socks5.Connect.on_attempt protos_tpe.Socks5.Connect.connect_loop
    protos_tpe.Socks5.Connect.request_connect protos_tpe.Socks5.Connect.request_connecting
    protos_tpe.Socks5.Connect.use_resolution protos_tpe.Socks5.Connect.request_resolve_done
    protos_tpe.Socks5.Phases.feed_negotiation protos_tpe.Socks5.Phases.feed_auth
    protos_tpe.Socks5.Phases.feed_request protos_tpe.Socks5.Phases.auth_required
    protos_tpe.Socks5.Phases.accepts protos_tpe.Socks5.Phases.feed_again
    protos_tpe.Socks5.Phases.fill_read_buffer protos_tpe.Socks5.Phases.feed_checked
    protos_tpe.Socks5.Phases.feed_parser protos_tpe.Socks5.Phases.negotiation_fed
    protos_tpe.Socks5.Phases.negotiation_read protos_tpe.Socks5.Phases.send_reply
    protos_tpe.Socks5.Phases.negotiated protos_tpe.Socks5.Phases.negotiation_write
    protos_tpe.Socks5.Phases.auth_fed protos_tpe.Socks5.Phases.read_auth
    protos_tpe.Socks5.Phases.authenticated protos_tpe.Socks5.Phases.write_auth
    protos_tpe.Socks5.Phases.queue_job protos_tpe.Socks5.Phases.resolve_queued
    protos_tpe.Socks5.Phases.resolve_parked protos_tpe.Socks5.Phases.resolve
    protos_tpe.Socks5.Phases.request_fed protos_tpe.Socks5.Phases.read_request
    protos_tpe.Socks5.Phases.write_request protos_tpe.Socks5.Machine.arrival_of
    protos_tpe.Socks5.Machine.handler_of protos_tpe.Socks5.Machine.fire
    protos_tpe.Socks5.Machine.advance_loop protos_tpe.Socks5.Machine.advance
    protos_tpe.Socks5.Machine.on_event protos_tpe.Socks5.Machine.on_block
    protos_tpe.Socks5.Machine.deliver protos_tpe.Socks5.Serving.accept_report
    protos_tpe.Socks5.Serving.serve protos_tpe.Socks5.Accept.new_conn
    protos_tpe.Socks5.Relay.shut_origin protos_tpe.Socks5.Relay.shut_client
    protos_tpe.Socks5.Relay.client_wants protos_tpe.Socks5.Relay.origin_wants
    protos_tpe.Socks5.Relay.arm_client protos_tpe.Socks5.Relay.arm_origin
    protos_tpe.Socks5.Relay.arm_both protos_tpe.Socks5.Relay.relay_update
    protos_tpe.Socks5.Relay.relay_init protos_tpe.Socks5.Relay.flush_loop
    protos_tpe.Socks5.Relay.relay_flush protos_tpe.Socks5.Relay.relayed
    protos_tpe.Socks5.Relay.relay_read protos_tpe.Socks5.Relay.relay_write
    protos_tpe.Socks5.Access.log_access protos_tpe.Socks5.Close.take_completed
    protos_tpe.Stm.call_hook protos_tpe.Stm.handle_first protos_tpe.Stm.depart protos_tpe.Stm.jump
    protos_tpe.Stm.handler protos_tpe.Stm.state_of protos_tpe.Buffer.reset protos_tpe.Buffer.init
    protos_tpe.Buffer.can_write protos_tpe.Buffer.can_read protos_tpe.Buffer.write_ptr
    protos_tpe.Buffer.read_ptr protos_tpe.Buffer.write_adv protos_tpe.Buffer.compact
    protos_tpe.Buffer.read_adv protos_tpe.Buffer.read_byte protos_tpe.Buffer.write_byte
    protos_tpe.Buffer.fill protos_tpe.Buffer.write_bytes protos_tpe.Negotiation.step
    protos_tpe.Negotiation.parser_feed protos_tpe.Negotiation.choose_method
    protos_tpe.Negotiation.fill_reply protos_tpe.Auth.init protos_tpe.Auth.step
    protos_tpe.Auth.parser_feed protos_tpe.Auth.fill_reply protos_tpe.Request.init
    protos_tpe.Request.step protos_tpe.Request.parser_feed protos_tpe.Request.get_addr_port
    protos_tpe.Request.write_reply protos_tpe.Request.fill_reply_addr protos_tpe.Users.validate
    protos_tpe.Buffer.Feed.feed
session-runs = (refl, refl, refl)

abbrev socket_of : Attempt → ℕ
socket_of (opened fd _) = fd
socket_of _ = 0

abbrev or_other : Option SockAddr → SockAddr
or_other none = other_family
or_other (some sa) = sa

system-Documented : Documented system 7
system-Documented = record {
  fresh = λ i fd a e s. absurd (cc (ap socket_of e ∙ s));
  sized = λ i sa e. inl (subst IsAddr (ap or_other e) refl);
}

serve-Course_example :
    (s : Socket) × (serve system session fresh ≡ some s)
    × Course system 7 (WasOpen session) (WasAccepted session) s
serve-Course_example =
    serve-Course system 7 system-Documented session 512 zeros 0 server (omega arith)

serve-WasAccepted_example : WasOpen session ⊎ WasAccepted session served.key.conn.auth
serve-WasAccepted_example =
    serve-WasAccepted system 7 system-Documented session 512 zeros 0 server served (omega arith)
      session-runs.0 session-runs.1 session-runs.2

-- A connection that has just got its origin, and whose client is ahead.
abbrev joined : Key
joined = record (accepted 7 512 zeros 0 server) {
  conn = record (new_conn 7 512 zeros 0) { origin_fd = some 8; references = 2 };
}

joined-Entering : Entering [] [] (frame joined.conn) joined
unfolding new_conn Buffer.init Buffer.reset
joined-Entering = record {
  framed = refl;
  read_valid = record { storage = omega arith; read_le = omega arith; write_le = omega arith };
  write_valid = record { storage = omega arith; read_le = omega arith; write_le = omega arith };
  read_room = omega arith;
  write_room = omega arith;
  upload = refl;
  download = refl;
  origin_open = refl;
  client_open = refl;
  nothing_cached = refl;
  origin_cached = refl;
}

abbrev relay_events : List RelayEvent
relay_events = readable 7 ∷ writable 8 ∷ readable 8 ∷ writable 7 ∷ []

joined-arrives : (relay_init system joined).conn.arrival_error ≡ false
unfolding protos_tpe.Socks5.Os.set_interest protos_tpe.Socks5.Accept.new_conn
    protos_tpe.Socks5.Relay.shut_origin protos_tpe.Socks5.Relay.shut_client
    protos_tpe.Socks5.Relay.client_wants protos_tpe.Socks5.Relay.origin_wants
    protos_tpe.Socks5.Relay.arm_client protos_tpe.Socks5.Relay.arm_origin
    protos_tpe.Socks5.Relay.arm_both protos_tpe.Socks5.Relay.relay_update
    protos_tpe.Socks5.Relay.relay_init protos_tpe.Buffer.reset protos_tpe.Buffer.init
    protos_tpe.Buffer.can_write protos_tpe.Buffer.can_read protos_tpe.Buffer.compact
joined-arrives = refl

relay_run-Outcome_example :
    (st : State) × (k : Key) × (relay_run system relay_events (relay_init system joined)
      ≡ some (st, k))
    × Outcome [] [] (frame joined.conn) st k
relay_run-Outcome_example =
    relay_run-Outcome system relay_events joined joined-Entering joined-arrives

joined-Refs : RefsOf 7 joined.conn
unfolding new_conn
joined-Refs = record {
  client_there = refl;
  distinct = λ o e s. absurd (cc (e, s));
  counted = refl;
  alive = refl;
}

finish-freed_example : (finish joined).conn.freed ≡ true
finish-freed_example = finish-freed 7 joined joined-Refs

fresh-Course : Course system 7 ⊥ (λ _. ⊥) fresh
fresh-Course =
    starts (accepted 7 512 zeros 0 server) refl
      (accepted-Holds 7 512 zeros 0 server ⊥ (λ _. ⊥) (omega arith))

fresh-alive : fresh.key.conn.freed ≡ false
unfolding new_conn
fresh-alive = refl

reap-Course_example :
    (s : Socket) × (reap system 90 fresh ≡ some s) × Course system 7 ⊥ (λ _. ⊥) s × Swept 90 fresh s
reap-Course_example =
    reap-Course system 7 ⊥ (λ _. ⊥) system-Documented 90 fresh fresh-Course fresh-alive

abbrev limits : Config
limits = record {
  conn_timeout = 60;
  io_buffer_size = 512;
  max_connections = 1;
  max_connections_hard = 2;
}

abbrev metrics : Metrics
metrics = record {
  historical = 0;
  active = 0;
  max_active = 0;
  client_to_origin = 0;
  origin_to_client = 0;
}

abbrev listener : Listening
listener = record {
  server = record {
    users_store = some users;
    config = some limits;
    metrics = some metrics;
    access_log = none;
  };
  paused = none;
  conns = [];
}

abbrev rounds : List Round
rounds = incoming 7 true (some zeros) true 0 ∷ incoming 8 true (some zeros) true 0 ∷ drained ∷ []

passive_accept_example : Limited limits metrics listener (passive_accept system 3 rounds listener)
passive_accept_example =
    passive_accept-Limited system 3 rounds limits metrics listener refl refl (omega arith)
      (omega arith)
