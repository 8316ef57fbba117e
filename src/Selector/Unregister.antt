-- ===== src/Selector/Unregister.antt =====
-- `selector_unregister_fd` and `selector_set_interest`.
use protos_tpe.Prelude.{
  ℕ, ◌≤◌, ◌<◌, ◌≡◌, refl, ap, ◌∙◌, pos, none, some, arith, ltb, if◌then◌else◌, length, set,
  get_elem?-get_or,
}
use protos_tpe.Selector.{
  success, Interest, Item, Selector, items_max_size, checked_fd, update_fdset, items_max_fd,
  unregister, set_interest,
}
use protos_tpe.Selector.Laws.{IsValid, item_at, placed, placed-Changed, Changed}
use protos_tpe.Selector.Cleared.{emptied, emptied-Changed}

checked_fd_pos : (fd : ℕ) → fd < items_max_size → checked_fd (pos fd) ≡ some fd
unfolding checked_fd
checked_fd_pos fd h = ground arith

module _ {H D : Type 0} where
  unregister_used :
      (handle_close : H → ℕ → D → Selector H D → Selector H D) (s : Selector H D) (fd : ℕ)
      (item : Item H D)
      → fd < items_max_size
      → fd < length s.items
      → item_at s fd ≡ some item
      → (let closed = handle_close item.handler item.fd item.data_of s in
          unregister handle_close s (pos fd)
          ≡ some
              (success, record (emptied closed fd) { max_fd = items_max_fd (emptied closed fd) }))
  unfolding unregister emptied
  unregister_used handle_close s fd item h k e =
      rw (checked_fd_pos fd h, unregister)
        (rw (get_elem?-get_or s.items fd none k, unregister) (rw (e, unregister) refl))

  -- If the handler of a registered descriptor, within the table and the limit of the platform,
  -- leaves a valid selector when it is closed, then unregistering the descriptor succeeds, and
  -- what is left is a valid selector, without its item and with the other items that the handler
  -- has left.
  pub unregister-Changed :
      (handle_close : H → ℕ → D → Selector H D → Selector H D) (s : Selector H D) (fd : ℕ)
      (item : Item H D)
      → fd < items_max_size
      → fd < length s.items
      → item_at s fd ≡ some item
      → IsValid (handle_close item.handler item.fd item.data_of s)
      → (s' : Selector H D) × (unregister handle_close s (pos fd) ≡ some (success, s'))
        × Changed (handle_close item.handler item.fd item.data_of s) s' fd none
  unregister-Changed handle_close s fd item h k e v =
      let closed = handle_close item.handler item.fd item.data_of s in
      let last = record (emptied closed fd) { max_fd = items_max_fd (emptied closed fd) } in
      (last, unregister_used handle_close s fd item h k e, emptied-Changed closed fd v)

  set_interest_used :
      (s : Selector H D) (fd : ℕ) (item : Item H D) (i : Interest)
      → fd < items_max_size
      → fd < length s.items
      → item_at s fd ≡ some item
      → set_interest s (pos fd) i
        ≡ some (
          success,
          update_fdset
              (some (record item { interest = i }))
              (record s { items = set s.items fd (some (record item { interest = i })) }),
        )
  unfolding set_interest
  set_interest_used s fd item i h k e =
      rw (checked_fd_pos fd h, set_interest)
        (rw (get_elem?-get_or s.items fd none k, set_interest) (rw (e, set_interest) refl))

  -- A new interest keeps the largest descriptor.
  replaced-placed :
      (s : Selector H D) (item : Item H D)
      → item.fd ≤ s.max_fd
      → update_fdset (some item) (record s { items = set s.items item.fd (some item) })
        ≡ placed s item.fd item
  unfolding update_fdset placed
  replaced-placed s item h =
      let same : (if ltb s.max_fd item.fd then item.fd else s.max_fd) ≡ s.max_fd = ground arith in
      rw same refl

  -- On a valid selector the interest of a registered descriptor, within the table and the limit
  -- of the platform, is set in the table and in the sets for `select`; the selector stays valid
  -- and the other items are as they were.
  pub set_interest-Changed :
      (s : Selector H D) (item : Item H D) (i : Interest)
      → IsValid s
      → item.fd < items_max_size
      → item.fd < length s.items
      → item_at s item.fd ≡ some item
      → (s' : Selector H D) × (set_interest s (pos item.fd) i ≡ some (success, s'))
        × Changed s s' item.fd (some (record item { interest = i }))
  set_interest-Changed s item i v h k e =
      let fits = rw e at (v.slots item.fd) in
      let new = record item { interest = i } in
      (
        placed s item.fd new,
        set_interest_used s item.fd item i h k e
            ∙ ap (λ s'. some (success, s')) (replaced-placed s new fits.1),
        placed-Changed s new v k,
      )
