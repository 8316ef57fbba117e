-- ===== src/Selector/Laws.antt =====
-- The sets for `select` and the largest descriptor agree with the table, under every operation.
use protos_tpe.Prelude.{
  ℕ, Bool, true, ◌+◌, ◌≤◌, ◌<◌, ◌≡◌, ◌≢◌, refl, ◌∙◌, subst, false, Option, none, some, arith, ltb,
  if◌then◌else◌, length, get_or, set, get_or-set_self, get_or-set_other, length-set, ℕ_discrete,
}
use protos_tpe.Selector.{
  Status, success, enomem, fdinuse, Item, Selector, items_max_size, next_capacity, fd_put,
}

module _ {H D : Type 0} where
  -- What the sets and the largest descriptor say of an item.
  abbrev pub Fits : Selector H D → ℕ → Option (Item H D) → Type 0
  Fits s i none = (s.master_r i ≡ false) × (s.master_w i ≡ false)
  Fits s i (some item) =
      (item.fd ≡ i)
      × (i ≤ s.max_fd)
      × (s.master_r i ≡ item.interest.op_read)
      × (s.master_w i ≡ item.interest.op_write)

  -- The item of a descriptor.
  abbrev pub item_at : Selector H D → ℕ → Option (Item H D)
  item_at s i = get_or s.items i none

  pub record IsValid (s : Selector H D) : Type 0 where
    pub slots : (i : ℕ) → Fits s i (item_at s i)
    pub size : length s.items ≤ items_max_size + 1

  pub Fits-frame :
      (s s' : Selector H D) (j : ℕ) (o : Option (Item H D))
      → s.max_fd ≤ s'.max_fd
      → s'.master_r j ≡ s.master_r j
      → s'.master_w j ≡ s.master_w j
      → Fits s j o
      → Fits s' j o
  Fits-frame s s' j none m r w f = (r ∙ f.0, w ∙ f.1)
  Fits-frame s s' j (some item) m r w f = (f.0, omega (arith, f.1), r ∙ f.2, w ∙ f.3)

  -- The table after an item has been put at `fd`.
  unfoldable pub placed : Selector H D → ℕ → Item H D → Selector H D
  placed s fd item = record {
    items = set s.items fd (some item);
    max_fd = if ltb s.max_fd fd then fd else s.max_fd;
    master_r = fd_put fd item.interest.op_read s.master_r;
    master_w = fd_put fd item.interest.op_write s.master_w;
  }

  placed-IsValid :
      (s : Selector H D) (item : Item H D)
      → IsValid s
      → item.fd < length s.items
      → IsValid (placed s item.fd item)
  unfolding placed
  placed-IsValid s item v h = record {
    slots = λ j. elim (ℕ_discrete item.fd j) [
      | yes e ↦
          subst (λ k. Fits (placed s item.fd item) k (item_at (placed s item.fd item) k)) e
            (rw (get_or-set_self s.items item.fd (some item) none h)
              (refl, ground arith, ground arith, ground arith))
      | no ne ↦ rw (get_or-set_other s.items item.fd j (some item) none ne) (
          Fits-frame s (placed s item.fd item) j (item_at s j) (ground arith) (ground arith)
            (ground arith) (v.slots j))
    ];
    size = omega (arith, v.size, length-set s.items item.fd (some item));
  }

  -- What an operation on the descriptor `fd` leaves: a valid selector, with the other items as they
  -- were.
  pub record Changed (s s' : Selector H D) (fd : ℕ) (item : Option (Item H D)) : Type 0 where
    pub valid : IsValid s'
    pub here : item_at s' fd ≡ item
    pub others : (j : ℕ) → fd ≢ j → item_at s' j ≡ item_at s j

  -- The answer of `selector_register`: a table that is too small grows if there is memory for its
  -- next capacity, and only without it the answer is ENOMEM.
  pub data Registered (alloc : ℕ → Bool) (s : Selector H D) (fd : ℕ) (item : Item H D)
      : Status × Selector H D → Type 0 where
    done :
        {s' : Selector H D}
        → item_at s fd ≡ none
        → (length s.items < fd → alloc (next_capacity fd) ≡ true)
        → Changed s s' fd (some item)
        → Registered alloc s fd item (success, s')
    in_use :
        {s' : Selector H D} (old : Item H D)
        → item_at s fd ≡ some old
        → Changed s s' fd (some old)
        → Registered alloc s fd item (fdinuse, s')
    no_memory :
        length s.items < fd
        → alloc (next_capacity fd) ≡ false
        → Registered alloc s fd item (enomem, s)

  pub placed-Changed :
      (s : Selector H D) (item : Item H D)
      → IsValid s
      → item.fd < length s.items
      → Changed s (placed s item.fd item) item.fd (some item)
  placed-Changed s item v h = record {
    valid = placed-IsValid s item v h;
    here = unfold placed in get_or-set_self s.items item.fd (some item) none h;
    others = unfold placed in (λ j ne. get_or-set_other s.items item.fd j (some item) none ne);
  }

  pub same-Changed :
      (s : Selector H D) (fd : ℕ) (o : Option (Item H D))
      → IsValid s
      → item_at s fd ≡ o
      → Changed s s fd o
  same-Changed s fd o v e = record { valid = v; here = e; others = λ j ne. refl }
