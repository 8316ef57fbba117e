-- ===== src/Stm.antt =====
-- shared/stm.c: the engine of the state machines. A key is what the callbacks read and change; a
-- pointer into `states` is an index; `none` is `abort()` or an access outside of `states`.
pub mod Discipline
pub mod Tests
use protos_tpe.Prelude.{
  ℕ, zero, suc, ◌+◌, Bool, true, false, Option, none, some, List, [], ◌∷◌, ltb, ◌==◌, not,
  if◌then◌else◌, ◌>>=◌, get_elem?,
}

-- `struct state_definition`
pub record StateDefinition (K : Type 0) : Type 0 where
  pub state : ℕ
  pub on_arrival : Option (ℕ → K → K)
  pub on_departure : Option (ℕ → K → K)
  pub on_read_ready : Option (K → ℕ × K)
  pub on_write_ready : Option (K → ℕ × K)
  pub on_block_ready : Option (K → ℕ × K)

-- `struct state_machine`
pub record StateMachine (K : Type 0) : Type 0 where
  pub initial : ℕ
  pub states : List (StateDefinition K)
  pub max_state : ℕ
  pub current : Option ℕ

-- The three events of a descriptor.
pub data Event : Type 0 where
  read_ready write_ready block_ready : Event

-- `stm->current == stm->states + next`
abbrev is_current : Option ℕ → ℕ → Bool
is_current none next = false
is_current (some c) next = c == next

module _ {K : Type 0} where
  -- The loop of `stm_init`, with the rounds that are left.
  unfoldable pub check_states : List (StateDefinition K) → ℕ → ℕ → Bool
  check_states states zero i = true
  check_states states (suc k) i =
      let rest = check_states states k (i + 1) in
      elim (get_elem? states i) [ none ↦ false | some d ↦ if i == d.state then rest else false ]

  -- `stm_init`
  unfoldable pub init : StateMachine K → Option (StateMachine K)
  unfolding check_states
  init stm =
      if not (check_states stm.states (stm.max_state + 1) 0)
      then none
      else if ltb stm.initial stm.max_state
      then some (record stm { current = none })
      else none

  -- A callback that may be NULL.
  unfoldable pub call_hook : Option (ℕ → K → K) → ℕ → K → K
  call_hook none state key = key
  call_hook (some f) state key = f state key

  unfoldable pub handle_first : StateMachine K → K → Option (StateMachine K × K)
  unfolding call_hook
  handle_first stm key = elim stm.current [
    | some c ↦ some (stm, key)
    | none ↦ (do
      d ← get_elem? stm.states stm.initial
      some (record stm { current = some stm.initial }, call_hook d.on_arrival d.state key))
  ]

  -- `on_departure` of the current state, if there is one.
  unfoldable pub depart : StateMachine K → K → Option K
  unfolding call_hook
  depart stm key = elim stm.current [
    | none ↦ some key
    | some c ↦ (do d ← get_elem? stm.states c; some (call_hook d.on_departure d.state key))
  ]

  unfoldable pub jump : StateMachine K → ℕ → K → Option (StateMachine K × K)
  unfolding call_hook depart
  jump stm next key =
      if ltb stm.max_state next
      then none
      else if is_current stm.current next
      then some (stm, key)
      else (do
        left ← depart stm key
        d ← get_elem? stm.states next
        some (record stm { current = some next }, call_hook d.on_arrival d.state left))

  -- The callback for an event.
  abbrev pub ready_of : Event → StateDefinition K → Option (K → ℕ × K)
  ready_of read_ready d = d.on_read_ready
  ready_of write_ready d = d.on_write_ready
  ready_of block_ready d = d.on_block_ready

  -- `stm_handler_read`, `stm_handler_write` and `stm_handler_block`
  unfoldable pub handler : Event → StateMachine K → K → Option (ℕ × StateMachine K × K)
  handler e stm key = do
    (stm', key') ← handle_first stm key
    c ← stm'.current
    d ← get_elem? stm'.states c
    f ← ready_of e d
    (stm'', last) ← jump stm' (f key').0 (f key').1
    some ((f key').0, stm'', last)

  -- `stm_handler_close`
  unfoldable pub handler_close : StateMachine K → K → Option K
  unfolding depart
  handler_close stm key = depart stm key

  -- `stm_state`
  unfoldable pub state_of : StateMachine K → Option ℕ
  state_of stm = elim stm.current [
    | none ↦ some stm.initial
    | some c ↦ (do d ← get_elem? stm.states c; some d.state)
  ]
