-- ===== src/Stm/Discipline.antt =====
-- The engine calls the hooks in pairs: what an arrival sets up is what the state's callbacks find and
-- what its departure takes down.
use protos_tpe.Prelude.{
  ℕ, ◌≤◌, ◌≡◌, refl, ap, subst, true, false, Option, none, some, arith, ltb, ◌==◌, get_elem?,
  Bool-cases, inl, inr,
}
use protos_tpe.Stm.{
  StateDefinition, StateMachine, Event, call_hook, handle_first, depart, jump, ready_of, handler,
}

module _ {K : Type 0} where
  -- The machine in the state `c`.
  abbrev pub running : StateMachine K → ℕ → StateMachine K
  running stm c = record stm { current = some c }

  pub jump_same :
      (stm : StateMachine K) (c next : ℕ) (k : K)
      → next ≤ stm.max_state
      → c ≡ next
      → jump (running stm c) next k ≡ some (running stm next, k)
  unfolding jump
  jump_same stm c next k h e =
      let in_range : ltb stm.max_state next ≡ false = ground arith in
      let same : (c == next) ≡ true = ground arith in
      rw (in_range, same) (ap (λ n. some (running stm n, k)) e)

  pub jump_other :
      (stm : StateMachine K) (c next : ℕ) (k : K) {from to : StateDefinition K}
      → next ≤ stm.max_state
      → (c == next) ≡ false
      → get_elem? stm.states c ≡ some from
      → get_elem? stm.states next ≡ some to
      → jump (running stm c) next k
        ≡ some (
          running stm next,
          call_hook to.on_arrival to.state (call_hook from.on_departure from.state k),
        )
  unfolding jump depart
  jump_other stm c next k h ne e e' =
      let in_range : ltb stm.max_state next ≡ false = ground arith in rw (in_range, ne, e, e') refl

  -- The state in which an event is handled: the current one, or else the initial one.
  abbrev pub active : StateMachine K → Option ℕ → ℕ
  active stm none = stm.initial
  active stm (some c) = c

  -- The callback for `e` in the active state, which answers with a state of the machine.
  pub record Answers (stm : StateMachine K) (c : ℕ) (e : Event) : Type 0 where
    pub definition : StateDefinition K
    pub found : get_elem? stm.states c ≡ some definition
    pub callback : K → ℕ × K
    pub has : ready_of e definition ≡ some callback
    pub in_range : (k : K) → (callback k).0 ≤ stm.max_state

  pub handler_step :
      (e : Event) (stm : StateMachine K) (o : Option ℕ) (k first : K) {last : K} {f : K → ℕ × K}
      {d : StateDefinition K}
      → handle_first (record stm { current = o }) k ≡ some (running stm (active stm o), first)
      → get_elem? stm.states (active stm o) ≡ some d
      → ready_of e d ≡ some f
      → jump (running stm (active stm o)) (f first).0 (f first).1
        ≡ some (running stm (f first).0, last)
      → handler e (record stm { current = o }) k ≡ some ((f first).0, running stm (f first).0, last)
  unfolding handler
  handler_step e stm o k first a b c j = rw a (rw b (rw c (rw j refl)))

module _ {K : Type 0} (Inside : ℕ → K → Type 0) (Outside : K → Type 0) where
  -- What the definition of the state `i` does: it arrives from outside, departs to outside, and its
  -- callbacks stay inside.
  pub record Disciplined (i : ℕ) (d : StateDefinition K) : Type 0 where
    pub numbered : d.state ≡ i
    pub arrives : (k : K) → Outside k → Inside i (call_hook d.on_arrival i k)
    pub departs : (k : K) → Inside i k → Outside (call_hook d.on_departure i k)
    pub stays :
        (e : Event) (f : K → ℕ × K)
        → ready_of e d ≡ some f
        → (k : K) → Inside i k
        → Inside i (f k).1

  -- A machine whose states are all disciplined, and its key.
  pub record IsWired (stm : StateMachine K) : Type 0 where
    pub all :
        (i : ℕ)
        → i ≤ stm.max_state
        → (d : StateDefinition K) × (get_elem? stm.states i ≡ some d) × Disciplined i d
    pub initial_in : stm.initial ≤ stm.max_state
    pub current_in : (c : ℕ) → stm.current ≡ some c → c ≤ stm.max_state

  -- Where the key is.
  abbrev pub Holds : Option ℕ → K → Type 0
  Holds none k = Outside k
  Holds (some c) k = Inside c k

  -- `jump` from the state `c` ends in the state `next`.
  jump_lem :
      (stm : StateMachine K) (c next : ℕ) (k : K)
      → IsWired stm
      → c ≤ stm.max_state
      → next ≤ stm.max_state
      → Inside c k
      → (k' : K) × (jump (running stm c) next k ≡ some (running stm next, k')) × Inside next k'
  jump_lem stm c next k s hc h inside = elim (Bool-cases (c == next)) [
    | inl same ↦
        (let e : c ≡ next = ground arith in
          (k, jump_same stm c next k h e, subst (λ n. Inside n k) e inside))
    | inr other ↦
        (let (from, ef, wf) = s.all c hc in
          let (to, et, wt) = s.all next h in
          let outside : Outside (call_hook from.on_departure from.state k) =
            rw wf.numbered (wf.departs k inside) in
          let arrived = wt.arrives (call_hook from.on_departure from.state k) outside in
          (
            call_hook to.on_arrival to.state (call_hook from.on_departure from.state k),
            jump_other stm c next k h other ef et,
            rw wt.numbered arrived,
          ))
  ]

  handle_first_lem :
      (stm : StateMachine K) (o : Option ℕ) (k : K)
      → IsWired stm
      → Holds o k
      → (k' : K) × (handle_first (record stm { current = o }) k
          ≡ some (running stm (active stm o), k'))
        × Inside (active stm o) k'
  unfolding handle_first
  handle_first_lem stm none k s h =
      let (d, e, w) = s.all stm.initial s.initial_in in
      (call_hook d.on_arrival d.state k, rw e refl, rw w.numbered (w.arrives k h))
  handle_first_lem stm (some c) k s h = (k, refl, h)

  active_in :
      (stm : StateMachine K) (o : Option ℕ)
      → IsWired (record stm { current = o })
      → active stm o ≤ stm.max_state
  active_in stm none s = s.initial_in
  active_in stm (some c) s = s.current_in c refl

  -- Where every arrival turns a key that is outside into one inside of the state, every departure
  -- turns it back, and the callbacks stay inside: an event whose callback exists in the active state
  -- and answers with a state of the machine does not abort; the machine is then in the state that is
  -- answered, and the key is inside of that state.
  pub handler-Holds :
      (e : Event) (stm : StateMachine K) (k : K)
      → IsWired stm
      → Holds stm.current k
      → Answers stm (active stm stm.current) e
      → (next : ℕ) × (k' : K) × (handler e stm k ≡ some (next, running stm next, k'))
        × (next ≤ stm.max_state)
        × Inside next k'
  handler-Holds e stm k s h a =
      let c = active stm stm.current in
      let (first, begins, inside) = handle_first_lem stm stm.current k s h in
      let (d, found, w) = s.all c (active_in stm stm.current s) in
      let same : a.definition ≡ d = cc in
      let stayed = w.stays e a.callback (rw same at a.has) first inside in
      let next = (a.callback first).0 in
      let (last, jumps, arrived) =
        jump_lem stm c next (a.callback first).1 s (active_in stm stm.current s) (a.in_range first)
          stayed in
      (
        next,
        last,
        handler_step e stm stm.current k first begins a.found a.has jumps,
        a.in_range first,
        arrived,
      )
