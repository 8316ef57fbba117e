-- ===== src/Stm/Tests.antt =====
-- A machine of two states, whose key counts what the states hold.
use protos_tpe.Prelude.{
  ℕ, zero, suc, ◌+◌, ◌-◌, ◌≤◌, ◌≡◌, refl, none, some, [], ◌∷◌, arith, get_elem?,
}
use protos_tpe.Stm.{
  StateDefinition, StateMachine, read_ready, write_ready, block_ready, Event, handler, call_hook,
  ready_of,
}
use protos_tpe.Stm.Discipline.{IsWired, Disciplined, running, handler-Holds}

abbrev gain : ℕ → ℕ → ℕ
gain state k = k + 1

abbrev lose : ℕ → ℕ → ℕ
lose state k = k - 1

abbrev go_on : ℕ → ℕ × ℕ
go_on k = (1, k)

abbrev reading : StateDefinition ℕ
reading = record {
  state = 0;
  on_arrival = some gain;
  on_departure = some lose;
  on_read_ready = some go_on;
  on_write_ready = none;
  on_block_ready = none;
}

abbrev writing : StateDefinition ℕ
writing = record {
  state = 1;
  on_arrival = some gain;
  on_departure = some lose;
  on_read_ready = none;
  on_write_ready = none;
  on_block_ready = none;
}

abbrev machine : StateMachine ℕ
machine = record { initial = 0; states = reading ∷ writing ∷ []; max_state = 1; current = none }

abbrev HoldsOne : ℕ → ℕ → Type 0
HoldsOne state k = k ≡ 1

abbrev HoldsNone : ℕ → Type 0
HoldsNone k = k ≡ 0

stays_reading :
    (e : Event) (f : ℕ → ℕ × ℕ)
    → ready_of e reading ≡ some f
    → (k : ℕ) → HoldsOne 0 k
    → HoldsOne 0 (f k).1
stays_reading read_ready f h k one = let same : go_on ≡ f = cc in rw (← same) one
stays_reading write_ready f h k one = absurd (cc h)
stays_reading block_ready f h k one = absurd (cc h)

stays_writing :
    (e : Event) (f : ℕ → ℕ × ℕ)
    → ready_of e writing ≡ some f
    → (k : ℕ) → HoldsOne 1 k
    → HoldsOne 1 (f k).1
stays_writing read_ready f h k one = absurd (cc h)
stays_writing write_ready f h k one = absurd (cc h)
stays_writing block_ready f h k one = absurd (cc h)

machine-IsWired : IsWired HoldsOne HoldsNone machine
machine-IsWired = record { all = both; initial_in = omega arith; current_in = λ c e. absurd (cc e) }
  where
    both :
        (i : ℕ)
        → i ≤ 1
        → (d : StateDefinition ℕ) × (get_elem? machine.states i ≡ some d)
          × Disciplined HoldsOne HoldsNone i d
    both zero h = (
      reading,
      refl,
      record {
        numbered = refl;
        arrives = λ k e. unfold call_hook in omega (arith, e);
        departs = λ k e. unfold call_hook in omega (arith, e);
        stays = stays_reading;
      },
    )
    both (suc zero) h = (
      writing,
      refl,
      record {
        numbered = refl;
        arrives = λ k e. unfold call_hook in omega (arith, e);
        departs = λ k e. unfold call_hook in omega (arith, e);
        stays = stays_writing;
      },
    )
    both (suc (suc i)) h = absurd (omega arith)

handler-Holds_example :
    (next : ℕ) × (k' : ℕ) × (handler read_ready machine 0 ≡ some (next, running machine next, k'))
    × (next ≤ 1)
    × (k' ≡ 1)
handler-Holds_example =
    handler-Holds HoldsOne HoldsNone read_ready machine 0 machine-IsWired refl (record {
      definition = reading;
      found = refl;
      callback = go_on;
      has = refl;
      in_range = λ k. omega arith;
    })
