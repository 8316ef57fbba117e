-- ===== src/Selector.antt =====
-- shared/selector.c: the table of registered descriptors and the descriptor sets of `select`.
-- `none` as an item is one with `fd == FD_UNUSED`. `none` as a result is an access outside of the
-- table. `fds` is NULL as long as the table is empty.
pub mod Capacity
pub mod Laws
pub mod Register
pub mod Cleared
pub mod Tests
pub mod Unregister
use protos_tpe.Prelude.{
  ℕ, zero, suc, ◌+◌, ◌-◌, ◌*◌, ◌/◌, ◌^◌, ℤ, pos, negsuc, Bool, true, false, ◌&&◌, ◌||◌, not, Option,
  none, some, List, [], ◌∷◌, ◌++◌, ltb, leb, ◌==◌, if◌then◌else◌, ◌>>=◌, length, get_elem?, get_or,
  set, replicate,
}

-- `selector_status`
pub data Status : Type 0 where
  success enomem maxfd iargs fdinuse io : Status

-- `fd_interest`, the bits OP_READ and OP_WRITE
pub record Interest : Type 0 where
  pub op_read : Bool
  pub op_write : Bool

-- `struct item` in use, with the type of handlers and of data
pub record Item (H D : Type 0) : Type 0 where
  pub fd : ℕ
  pub interest : Interest
  pub handler : H
  pub data_of : D

-- `FD_SETSIZE`
abbrev pub items_max_size : ℕ
items_max_size = 1024

-- `fd_set`
abbrev pub FdSet : Type 0
FdSet = ℕ → Bool

-- FD_SET and FD_CLR
abbrev pub fd_put : ℕ → Bool → FdSet → FdSet
fd_put fd b fds k = if k == fd then b else fds k

-- `struct fdselector`, without the queue of finished jobs
pub record Selector (H D : Type 0) : Type 0 where
  pub items : List (Option (Item H D))
  pub max_fd : ℕ
  pub master_r : FdSet
  pub master_w : FdSet

-- The loop of `next_capacity`; a `size_t` has at most 64 bits.
unfoldable pub count_bits : ℕ → ℕ → ℕ
count_bits zero n = 0
count_bits (suc k) n = let rest = count_bits k (n / 2) in if n == 0 then 0 else suc rest

-- `next_capacity`; the `assert` is Capacity's theorem.
unfoldable pub next_capacity : ℕ → ℕ
next_capacity n =
    let size = 2 ^ count_bits 64 n in (if ltb items_max_size size then items_max_size else size) + 1

-- `INVALID_FD`, else the descriptor as an index
unfoldable pub checked_fd : ℤ → Option ℕ
checked_fd (negsuc _) = none
checked_fd (pos fd) = if leb items_max_size fd then none else some fd

module _ {H D : Type 0} where
  -- `items_update_fdset_for_fd`
  unfoldable pub update_fdset : Option (Item H D) → Selector H D → Selector H D
  update_fdset none s = s
  update_fdset (some item) s = record s {
    master_r = fd_put item.fd item.interest.op_read s.master_r;
    master_w = fd_put item.fd item.interest.op_write s.master_w;
  }

  -- The loop of `items_max_fd`, with the rounds that are left.
  unfoldable pub max_from : List (Option (Item H D)) → ℕ → ℕ → ℕ → ℕ
  max_from items zero i max = max
  max_from items (suc k) i max = max_from items k (i + 1) (elim (get_or items i none) [
    | none ↦ max
    | some item ↦ if ltb max item.fd then item.fd else max
  ])

  -- `items_max_fd`
  unfoldable pub items_max_fd : Selector H D → ℕ
  items_max_fd s = max_from s.items (s.max_fd + 1) 0 0

  -- `ensure_capacity`; `alloc` says whether the system gives the memory for that many items.
  unfoldable pub ensure_capacity : (ℕ → Bool) → Selector H D → ℕ → Status × Selector H D
  ensure_capacity alloc s n =
      let size = next_capacity n in
      if ltb n (length s.items)
      then (success, s)
      else if ltb items_max_size n
      then (maxfd, s)
      else if not (alloc size)
      then (enomem, s)
      else (success, record s { items = s.items ++ replicate (size - length s.items) none })

  -- `selector_new`
  unfoldable pub new : (ℕ → Bool) → ℕ → Option (Selector H D)
  unfolding ensure_capacity
  new alloc initial_elements =
      let zeroed : Selector H D = record {
        items = [];
        max_fd = 0;
        master_r = λ k. false;
        master_w = λ k. false;
      } in
      let (status, s) = ensure_capacity alloc zeroed initial_elements in
      elim status [ success ↦ some s | _ ↦ none ]

  -- The second part of `selector_register`
  unfoldable pub put_item : Selector H D → ℕ → H → Interest → D → Option (Status × Selector H D)
  unfolding update_fdset
  put_item s fd handler interest data_of = elim (get_elem? s.items fd) [
    | none ↦ none
    | some (some item) ↦ some (fdinuse, s)
    | some none ↦
        (let item : Item H D = record {
          fd = fd;
          interest = interest;
          handler = handler;
          data_of = data_of;
        } in
          some (
            success,
            update_fdset (some item) (record s {
              items = set s.items fd (some item);
              max_fd = if ltb s.max_fd fd then fd else s.max_fd;
            }),
          ))
  ]

  -- `selector_register`; a null handler is `none`.
  unfoldable pub register :
      (ℕ → Bool) → Selector H D → ℤ → Option H → Interest → D → Option (Status × Selector H D)
  unfolding put_item ensure_capacity checked_fd
  register alloc s fd none interest data_of = some (iargs, s)
  register alloc s fd (some handler) interest data_of = elim (checked_fd fd) [
    | none ↦ some (iargs, s)
    | some ufd ↦
        if ltb (length s.items) ufd
        then (let (status, grown) = ensure_capacity alloc s ufd in
            elim status [
              | success ↦ put_item grown ufd handler interest data_of
              | failed ↦ some (failed, grown)
            ])
        else put_item s ufd handler interest data_of
  ]

  -- `item->interest = OP_NOOP`
  abbrev pub quieted : Option (Item H D) → Option (Item H D)
  quieted none = none
  quieted (some item) =
      some (record item { interest = record { op_read = false; op_write = false } })

  -- `selector_unregister_fd`; `handle_close` is what the handler's close does to the selector.
  unfoldable pub unregister :
      (H → ℕ → D → Selector H D → Selector H D) → Selector H D → ℤ → Option (Status × Selector H D)
  unfolding items_max_fd update_fdset checked_fd
  unregister handle_close s fd = elim (checked_fd fd) [
    | none ↦ some (iargs, s)
    | some ufd ↦ elim (get_elem? s.items ufd) [
      | none ↦ none
      | some none ↦ some (iargs, s)
      | some (some item) ↦
          (let closed = handle_close item.handler item.fd item.data_of s in
            let cleared =
              update_fdset (quieted (get_or closed.items ufd none))
                (record closed { items = set closed.items ufd none }) in
            some (success, record cleared { max_fd = items_max_fd cleared }))
    ]
  ]

  -- `selector_set_interest`
  unfoldable pub set_interest : Selector H D → ℤ → Interest → Option (Status × Selector H D)
  unfolding update_fdset checked_fd
  set_interest s fd i = elim (checked_fd fd) [
    | none ↦ some (iargs, s)
    | some ufd ↦ elim (get_elem? s.items ufd) [
      | none ↦ none
      | some none ↦ some (iargs, s)
      | some (some item) ↦
          (let changed = record item { interest = i } in
            some (
              success,
              update_fdset (some changed) (record s { items = set s.items ufd (some changed) }),
            ))
    ]
  ]
