-- ===== src/Socks5/Fire.antt =====
-- The engine of shared/stm.c on the table of server/socks5.c: an event is the handler of the state,
-- then the arrival in the next one.
use protos_tpe.Prelude.{
  ℕ, ◌≡◌, ◌≤◌, refl, ap, ◌∙◌, Option, none, some, arith, ◌==◌, get_elem?, if◌then◌else◌, Bool-cases,
  inl, inr,
}
use protos_tpe.Stm.{
  Event, read_ready, write_ready, block_ready, handle_first, jump, call_hook, state_of, ready_of,
  init,
}
use protos_tpe.Stm.Discipline.{jump_same, jump_other, handler_step}
use protos_tpe.Socks5.{
  State, neg_read, neg_write, auth_read, auth_write, req_read, req_resolve, req_connecting,
  req_write, relay, finished, failed, code, Key,
}
use protos_tpe.Socks5.Os.{Os}
use protos_tpe.Socks5.Machine.{
  arrival_of, handler_of, arrival, answered, callback, definition, socks5_states, machine, Socket,
  fire,
}

definition_at :
    (os : Os) (s : State) → get_elem? (socks5_states os) (code s) ≡ some (definition os s)
definition_at os neg_read = refl
definition_at os neg_write = refl
definition_at os auth_read = refl
definition_at os auth_write = refl
definition_at os req_read = refl
definition_at os req_resolve = refl
definition_at os req_connecting = refl
definition_at os req_write = refl
definition_at os relay = refl
definition_at os finished = refl
definition_at os failed = refl

code_le : (s : State) → code s ≤ code failed
code_le neg_read = omega arith
code_le neg_write = omega arith
code_le auth_read = omega arith
code_le auth_write = omega arith
code_le req_read = omega arith
code_le req_resolve = omega arith
code_le req_connecting = omega arith
code_le req_write = omega arith
code_le relay = omega arith
code_le finished = omega arith
code_le failed = omega arith

-- The table passes the checks of `stm_init`.
pub init-machine : (os : Os) → init (machine os none) ≡ some (machine os none)
unfolding init
init-machine os = refl

pub state_of-machine : (os : Os) (s : State) → state_of (machine os (some s)) ≡ some (code s)
unfolding state_of
state_of-machine os s = rw (definition_at os s) refl

-- `on_arrival`, if there is one.
abbrev pub run_arrival : Option (Key → Key) → Key → Key
run_arrival none k = k
run_arrival (some f) k = f k

call_arrival :
    (a : Option (Key → Key)) (i : ℕ) (k : Key)
    → call_hook (arrival a) i (some k) ≡ some (run_arrival a k)
unfolding call_hook
call_arrival none i k = refl
call_arrival (some f) i k = refl

module _ (os : Os) where
  -- The key behind a transition: the arrival is called only for another state.
  abbrev pub arrive : State → State → Key → Key
  arrive s next k = if code s == code next then k else run_arrival (arrival_of os next) k

  abbrev pub socket : Option State → Key → Socket
  socket s k = record { stm = machine os s; key = k }

  jump_lem :
      (s next : State) (k : Key)
      → jump (machine os (some s)) (code next) (some k)
        ≡ some (machine os (some next), some (arrive s next k))
  unfolding call_hook
  jump_lem s next k = elim (Bool-cases (code s == code next)) [
    | inl same ↦ rw same (
        jump_same (machine os (some s)) (code s) (code next) (some k) (code_le next) (ground arith))
    | inr other ↦ rw other (
        jump_other (machine os (some s)) (code s) (code next) (some k) (code_le next) other
          (definition_at os s) (definition_at os next)
        ∙ ap (λ o. some (machine os (some next), o))
            (call_arrival (arrival_of os next) (code next) k))
  ]

  ready_lem :
      (e : Event) (s : State) {h : Key → Option (State × Key)}
      → handler_of os e s ≡ some h
      → ready_of e (definition os s) ≡ callback (some h)
  ready_lem read_ready s e = ap callback e
  ready_lem write_ready s e = ap callback e
  ready_lem block_ready s e = ap callback e

  -- If the column of an event has a handler for the state and this handler yields another state and
  -- its key, then `stm_handler_…` on `socks5_states` yields that state, and its key is the handler's
  -- behind the arrival in that state, which is called only when the state changes.
  pub fire_lem :
      (e : Event) (s next : State) (k k' : Key) {h : Key → Option (State × Key)}
      → handler_of os e s ≡ some h
      → h k ≡ some (next, k')
      → fire e (socket (some s) k) ≡ some (code next, socket (some next) (arrive s next k'))
  unfolding fire handle_first
  fire_lem e s next k k' {h} found runs =
      let f = λ (o : Option Key). answered (elim o [ none ↦ none | some j ↦ h j ]) in
      let ans : answered (h k) ≡ (code next, some k') = ap answered runs in
      let step =
        handler_step e (machine os none) (some (code s)) (some k) (some k)
          {last = some (arrive s next k')} {f = f} {d = definition os s} refl (definition_at os s)
          (ready_lem e s found) (rw ans (jump_lem s next k')) in
      rw step (rw ans refl)
