-- ===== src/Socks5/Machine.antt =====
-- server/socks5.c: the table of the states, and the handlers of the selector.
use protos_tpe.Prelude.{
  ℕ, zero, suc, Bool, true, false, ◌&&◌, ◌||◌, Option, none, some, List, [], ◌∷◌, ◌==◌,
  if◌then◌else◌, ◌>>=◌,
}
use protos_tpe.Buffer.{can_read}
use protos_tpe.Stm.{
  StateDefinition, StateMachine, Event, read_ready, write_ready, block_ready, handler, state_of,
}
use protos_tpe.Socks5.{
  State, neg_read, neg_write, auth_read, auth_write, req_read, req_resolve, req_connecting,
  req_write, relay, finished, failed, code, Conn, Key,
}
use protos_tpe.Socks5.Os.{Os, called}
use protos_tpe.Socks5.Close.{finish}
use protos_tpe.Socks5.Phases.{
  negotiation_read_init, auth_read_init, request_read_init, negotiation_read, negotiation_write,
  read_auth, write_auth, read_request, write_request,
}
use protos_tpe.Socks5.Connect.{request_connecting, request_resolve_done}
use protos_tpe.Socks5.Relay.{relay_init, relay_read, relay_write}

abbrev pub on_conn : (Conn → Conn) → Key → Key
on_conn f k = record k { conn = f k.conn }

module _ (os : Os) where
  -- The columns of `socks5_states`.
  unfoldable pub arrival_of : State → Option (Key → Key)
  arrival_of neg_read = some (on_conn negotiation_read_init)
  arrival_of auth_read = some (on_conn auth_read_init)
  arrival_of req_read = some (on_conn request_read_init)
  arrival_of relay = some (relay_init os)
  arrival_of _ = none

  unfoldable pub handler_of : Event → State → Option (Key → Option (State × Key))
  handler_of read_ready neg_read = some (negotiation_read os)
  handler_of read_ready auth_read = some (read_auth os)
  handler_of read_ready req_read = some (read_request os)
  handler_of read_ready relay = some (relay_read os)
  handler_of write_ready neg_write = some (negotiation_write os)
  handler_of write_ready auth_write = some (write_auth os)
  handler_of write_ready req_connecting = some (request_connecting os)
  handler_of write_ready req_write = some (write_request os)
  handler_of write_ready relay = some (relay_write os)
  handler_of block_ready req_resolve = some (request_resolve_done os)
  handler_of _ _ = none

-- The engine's key is a connection, or `none` behind a fault of a handler.
abbrev pub arrival : Option (Key → Key) → Option (ℕ → Option Key → Option Key)
arrival none = none
arrival (some f) = some (λ _ o. elim o [ none ↦ none | some k ↦ some (f k) ])

abbrev pub answered : Option (State × Key) → ℕ × Option Key
answered none = (code failed, none)
answered (some (next, k)) = (code next, some k)

abbrev pub callback : Option (Key → Option (State × Key)) → Option (Option Key → ℕ × Option Key)
callback none = none
callback (some h) = some (λ o. answered (elim o [ none ↦ none | some k ↦ h k ]))

module _ (os : Os) where
  abbrev pub definition : State → StateDefinition (Option Key)
  definition s = record {
    state = code s;
    on_arrival = arrival (arrival_of os s);
    on_departure = none;
    on_read_ready = callback (handler_of os read_ready s);
    on_write_ready = callback (handler_of os write_ready s);
    on_block_ready = callback (handler_of os block_ready s);
  }

  -- `socks5_states`
  abbrev pub socks5_states : List (StateDefinition (Option Key))
  socks5_states =
      definition neg_read
      ∷ definition neg_write
      ∷ definition auth_read
      ∷ definition auth_write
      ∷ definition req_read
      ∷ definition req_resolve
      ∷ definition req_connecting
      ∷ definition req_write
      ∷ definition relay
      ∷ definition finished
      ∷ definition failed
      ∷ []

  -- The machine of a connection; `none` is before its first event.
  abbrev pub machine : Option State → StateMachine (Option Key)
  machine s = record {
    initial = code neg_read;
    states = socks5_states;
    max_state = code failed;
    current = elim s [ none ↦ none | some s' ↦ some (code s') ];
  }

-- A connection with its state machine.
pub record Socket : Type 0 where
  pub stm : StateMachine (Option Key)
  pub key : Key

-- `stm_handler_read(&c->stm, key)` and its like; `none` is an abort or a fault.
unfoldable pub fire : Event → Socket → Option (ℕ × Socket)
fire e s = do
  (st, stm, o) ← handler e s.stm (some s.key)
  k ← o
  some (st, record { stm = stm; key = k })

-- `is_read_state`
abbrev pub is_read_state : ℕ → Bool
is_read_state st = st == code neg_read || st == code auth_read || st == code req_read

-- The loop of `socks5_advance`, with fuel for the rounds
unfoldable pub advance_loop : ℕ → ℕ → Socket → Option (ℕ × Socket)
advance_loop zero st s = none
advance_loop (suc n) st s = elim (is_read_state st && can_read s.key.conn.read_buffer) [
  | false ↦ some (st, s)
  | true ↦ (do (st', s') ← fire read_ready s; advance_loop n st' s')
]

-- The end of `socks5_advance`
abbrev pub settle : ℕ × Socket → Socket
settle (st, s) =
    if st == code failed || (st == code finished || s.key.conn.arrival_error)
    then record s { key = finish s.key }
    else s

module _ (os : Os) where
  abbrev pub touch : Key → Key
  touch k =
      let k' = called k in
      record k' { conn = record k'.conn { last_activity = os.now k.net.calls } }

  -- `socks5_advance`; two rounds are enough.
  unfoldable pub advance : ℕ → Socket → Option Socket
  advance st s = do r ← advance_loop 2 st (record s { key = touch s.key }); some (settle r)

  -- `socks5_read` and `socks5_write`
  unfoldable pub on_event : Event → Socket → Option Socket
  on_event e s = do (st, s') ← fire e s; advance st s'

  -- `socks5_block`
  unfoldable pub on_block : Socket → Option Socket
  on_block s = do
    st ← state_of s.stm
    elim (st == code req_resolve) [ true ↦ on_event block_ready s | false ↦ some s ]

  -- `socks5_handler`
  unfoldable pub deliver : Event → Socket → Option Socket
  deliver block_ready s = on_block s
  deliver e s = on_event e s
