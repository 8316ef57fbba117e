-- ===== src/Selector/Register.antt =====
-- `selector_register`: what it stores, when it refuses, and where it leaves the table.
use protos_tpe.Prelude.{
  ℕ, ◌+◌, ◌-◌, ◌≤◌, ◌<◌, ◌≡◌, ◌≢◌, refl, ap, ◌∙◌, sym, pos, Bool, true, false, Option, none, some,
  ◌++◌, arith, ltb, length, replicate, get_or-append_replicate, get_elem?-get_or, get_elem?_past,
  length-append, length-replicate, Bool-cases, inl, inr, Option-cases,
}
use protos_tpe.Selector.{
  Status, success, enomem, fdinuse, Interest, Item, Selector, items_max_size, next_capacity,
  checked_fd, update_fdset, ensure_capacity, put_item, register,
}
use protos_tpe.Selector.Capacity.{next_capacity_bounds}
use protos_tpe.Selector.Laws.{
  IsValid, Fits-frame, item_at, placed, Changed, Registered, done, in_use, no_memory,
  placed-Changed, same-Changed,
}

module _ {H D : Type 0} where
  Changed-base :
      (s base s' : Selector H D) (fd : ℕ) (o : Option (Item H D))
      → ((j : ℕ) → item_at s j ≡ item_at base j)
      → Changed s s' fd o
      → Changed base s' fd o
  Changed-base s base s' fd o same c = record {
    valid = c.valid;
    here = c.here;
    others = λ j ne. c.others j ne ∙ same j;
  }

  -- The second part, on a table that has the items of `base`.
  put_item_lem :
      (alloc : ℕ → Bool) (s base : Selector H D) (item : Item H D)
      → IsValid s
      → item.fd < length s.items
      → (length base.items < item.fd → alloc (next_capacity item.fd) ≡ true)
      → ((j : ℕ) → item_at s j ≡ item_at base j)
      → (r : Status × Selector H D) × (put_item s item.fd item.handler item.interest item.data_of
          ≡ some r)
        × Registered alloc base item.fd item r
  unfolding put_item update_fdset placed
  put_item_lem alloc s base item v h memory same =
      let at = get_elem?-get_or s.items item.fd none h in
      elim (Option-cases (item_at s item.fd)) [
        | inl free ↦ (
          (success, placed s item.fd item),
          rw (at, put_item) (rw (free, put_item) refl),
          done (sym (same item.fd) ∙ free) memory (
              Changed-base s base (placed s item.fd item) item.fd (some item) same
                (placed-Changed s item v h)),
        )
        | inr (old, used) ↦ (
          (fdinuse, s),
          rw (at, put_item) (rw (used, put_item) refl),
          in_use old (sym (same item.fd) ∙ used) (
              Changed-base s base s item.fd (some old) same
                (same-Changed s item.fd (some old) v used)),
        )
      ]

  -- The table after it has grown for the descriptor `n`.
  grown : Selector H D → ℕ → Selector H D
  grown s n = record s { items = s.items ++ replicate (next_capacity n - length s.items) none }

  item_at-grown : (s : Selector H D) (n j : ℕ) → item_at (grown s n) j ≡ item_at s j
  unfolding grown
  item_at-grown s n j = get_or-append_replicate s.items (next_capacity n - length s.items) j none

  length-grown :
      (s : Selector H D) (n : ℕ)
      → length (grown s n).items ≡ length s.items + (next_capacity n - length s.items)
  unfolding grown
  length-grown s n =
      let k = next_capacity n - length s.items in
      length-append s.items (replicate k none)
      ∙ ap (λ m. length s.items + m) (length-replicate k none)

  grown-IsValid : (s : Selector H D) (n : ℕ) → IsValid s → n ≤ items_max_size → IsValid (grown s n)
  unfolding grown
  grown-IsValid s n v h = record {
    slots = λ j.
        rw (get_or-append_replicate s.items (next_capacity n - length s.items) j none)
          (Fits-frame s (grown s n) j (item_at s j) (omega arith) refl refl (v.slots j));
    size = omega (arith, length-grown s n, v.size, next_capacity_bounds n h);
  }

  register_room :
      (alloc : ℕ → Bool) (s : Selector H D) (item : Item H D)
      → item.fd < items_max_size
      → item.fd < length s.items
      → register alloc s (pos item.fd) (some item.handler) item.interest item.data_of
        ≡ put_item s item.fd item.handler item.interest item.data_of
  unfolding register checked_fd
  register_room alloc s item h k = ground arith

  register_grow :
      (alloc : ℕ → Bool) (s : Selector H D) (item : Item H D)
      → item.fd < items_max_size
      → length s.items < item.fd
      → alloc (next_capacity item.fd) ≡ true
      → register alloc s (pos item.fd) (some item.handler) item.interest item.data_of
        ≡ put_item (grown s item.fd) item.fd item.handler item.interest item.data_of
  unfolding register checked_fd ensure_capacity grown
  register_grow alloc s item h k a = ground arith

  register_no_memory :
      (alloc : ℕ → Bool) (s : Selector H D) (item : Item H D)
      → item.fd < items_max_size
      → length s.items < item.fd
      → alloc (next_capacity item.fd) ≡ false
      → register alloc s (pos item.fd) (some item.handler) item.interest item.data_of
        ≡ some (enomem, s)
  unfolding register checked_fd ensure_capacity
  register_no_memory alloc s item h k a = ground arith

  -- Registering an item whose descriptor is within the platform's limit, and is not the size of the
  -- table, on a valid selector: the item is stored if its place is free, and the table was large
  -- enough or there is memory for its next capacity; if the place is in use, the status says so; it
  -- is ENOMEM only when the table is too small and there is no memory for the next capacity. Then no
  -- item changes. The selector is valid afterwards, and all other items are as they were.
  pub register-Registered :
      (alloc : ℕ → Bool) (s : Selector H D) (item : Item H D)
      → IsValid s
      → item.fd < items_max_size
      → item.fd ≢ length s.items
      → (r : Status × Selector H D) × (register alloc s
            (pos item.fd)
            (some item.handler)
            item.interest
            item.data_of
          ≡ some r)
        × Registered alloc s item.fd item r
  register-Registered alloc s item v h ne = elim (Bool-cases (ltb item.fd (length s.items))) [
    | inl room ↦
        (let (r, runs, w) =
            put_item_lem alloc s s item v (ground arith) (λ e. absurd (ground arith)) (λ j. refl) in
          (r, register_room alloc s item h (ground arith) ∙ runs, w))
    | inr beyond ↦
        (let past : length s.items < item.fd = ground arith in
          elim (Bool-cases (alloc (next_capacity item.fd))) [
            | inl memory ↦
                (let inside : item.fd < length (grown s item.fd).items =
                    omega
                      (arith, length-grown s item.fd, next_capacity_bounds item.fd (omega arith)) in
                  let (r, runs, w) =
                    put_item_lem alloc (grown s item.fd) s item
                      (grown-IsValid s item.fd v (omega arith)) inside (λ _. memory)
                      (item_at-grown s item.fd) in
                  (r, register_grow alloc s item h past memory ∙ runs, w))
            | inr no_more ↦ (
              (enomem, s),
              register_no_memory alloc s item h past no_more,
              no_memory past no_more,
            )
          ])
  ]

  register_size :
      (alloc : ℕ → Bool) (s : Selector H D) (handler : H) (interest : Interest) (data_of : D)
      → length s.items < items_max_size
      → register alloc s (pos (length s.items)) (some handler) interest data_of
        ≡ put_item s (length s.items) handler interest data_of
  unfolding register checked_fd
  register_size alloc s handler interest data_of h = ground arith

  put_item_past :
      (s : Selector H D) (fd : ℕ) (handler : H) (interest : Interest) (data_of : D)
      → length s.items ≤ fd
      → put_item s fd handler interest data_of ≡ none
  unfolding put_item
  put_item_past s fd handler interest data_of h = rw (get_elem?_past s.items fd h, put_item) refl

  -- Registering the descriptor that equals the size of the table accesses the item behind the
  -- table, whatever the memory, as long as the descriptor is within the platform's limit.
  pub register_at_size :
      (alloc : ℕ → Bool) (s : Selector H D) (handler : H) (interest : Interest) (data_of : D)
      → length s.items < items_max_size
      → register alloc s (pos (length s.items)) (some handler) interest data_of ≡ none
  register_at_size alloc s handler interest data_of h =
      register_size alloc s handler interest data_of h
      ∙ put_item_past s (length s.items) handler interest data_of (omega arith)
