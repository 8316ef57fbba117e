-- ===== src/Selector/Cleared.antt =====
-- The table after an item has been cleared and the largest descriptor counted again.
use protos_tpe.Prelude.{
  ℕ, zero, suc, ◌+◌, ◌≤◌, ◌<◌, ◌≡◌, ◌≢◌, refl, ap, ◌∙◌, sym, subst, false, Option, none, some, List,
  arith, ltb, if◌then◌else◌, length, get_or, set, get_or-set_other, get_or-set, length-set,
  ℕ_discrete, inl, inr, Option-cases,
}
use protos_tpe.Selector.{Item, Selector, update_fdset, quieted, max_from, items_max_fd}
use protos_tpe.Selector.Laws.{IsValid, Fits, item_at, Changed}

module _ {H D : Type 0} where
  max_from_grows : (items : List (Option (Item H D))) (k i m : ℕ) → m ≤ max_from items k i m
  unfolding max_from
  max_from_grows items zero i m = omega arith
  max_from_grows items (suc k) i m = elim (Option-cases (get_or items i none)) [
    | inl free ↦ rw (free, max_from) (max_from_grows items k (i + 1) m)
    | inr (item, used) ↦
        rw (used, max_from)
          (ground (arith, max_from_grows items k (i + 1) (if ltb m item.fd then item.fd else m)))
  ]

  -- A used item in the range is counted.
  max_from_counts :
      (items : List (Option (Item H D))) (k i m : ℕ) (item : Item H D)
      → get_or items item.fd none ≡ some item
      → i ≤ item.fd
      → item.fd < i + k
      → item.fd ≤ max_from items k i m
  unfolding max_from
  max_from_counts items zero i m item e h l = absurd (omega arith)
  max_from_counts items (suc k) i m item e h l = elim (ℕ_discrete item.fd i) [
    | yes here ↦
        (let at : get_or items i none ≡ some item = ap (λ j. get_or items j none) (sym here) ∙ e in
          rw (at, max_from)
            (ground (arith, max_from_grows items k (i + 1) (if ltb m item.fd then item.fd else m))))
    | no later ↦ max_from_counts items k (i + 1) _ item e (omega arith) (omega arith)
  ]

  -- The selector after the item at `fd` has been cleared, but for the largest descriptor.
  unfoldable pub emptied : Selector H D → ℕ → Selector H D
  emptied s fd = update_fdset (quieted (item_at s fd)) (record s { items = set s.items fd none })

  -- The sets of a selector whose item at `fd` has been cleared.
  record Cleared (s s' : Selector H D) (fd : ℕ) : Type 0 where
    not_read : s'.master_r fd ≡ false
    not_write : s'.master_w fd ≡ false
    same_read : (j : ℕ) → fd ≢ j → s'.master_r j ≡ s.master_r j
    same_write : (j : ℕ) → fd ≢ j → s'.master_w j ≡ s.master_w j
    same_items : s'.items ≡ set s.items fd none
    same_max : s'.max_fd ≡ s.max_fd

  Cleared-slot :
      (s : Selector H D) (fd : ℕ) (o : Option (Item H D))
      → Fits s fd o
      → Cleared s (update_fdset (quieted o) (record s { items = set s.items fd none })) fd
  unfolding update_fdset
  Cleared-slot s fd none f = record {
    not_read = f.0;
    not_write = f.1;
    same_read = λ j ne. refl;
    same_write = λ j ne. refl;
    same_items = refl;
    same_max = refl;
  }
  Cleared-slot s fd (some item) f = record {
    not_read = ground (arith, f.0);
    not_write = ground (arith, f.0);
    same_read = λ j ne. ground (arith, f.0);
    same_write = λ j ne. ground (arith, f.0);
    same_items = refl;
    same_max = refl;
  }

  get_or-set-none :
      (items : List (Option (Item H D))) (i : ℕ) → get_or (set items i none) i none ≡ none
  get_or-set-none items i = ground (arith, get_or-set items i i none none)

  -- The largest descriptor, counted again, is not below a used one.
  counted :
      (s c : Selector H D) (fd j : ℕ) (o : Option (Item H D))
      → Cleared s c fd
      → fd ≢ j
      → item_at s j ≡ o
      → Fits s j o
      → Fits (record c { max_fd = items_max_fd c }) j o
  unfolding items_max_fd
  counted s c fd j none w ne e f = (w.same_read j ne ∙ f.0, w.same_write j ne ∙ f.1)
  counted s c fd j (some item) w ne e f =
      let at : get_or c.items item.fd none ≡ some item =
        ap (λ k. get_or c.items k none) f.0
        ∙ ap (λ items. get_or items j none) w.same_items
        ∙ get_or-set_other s.items fd j none none ne
        ∙ e in
      let most =
        max_from_counts c.items (c.max_fd + 1) 0 0 item at (omega arith)
          (omega (arith, f.0, f.1, w.same_max)) in
      (f.0, omega (arith, f.0), w.same_read j ne ∙ f.2, w.same_write j ne ∙ f.3)

  pub emptied-Changed :
      (s : Selector H D) (fd : ℕ)
      → IsValid s
      → Changed s (record (emptied s fd) { max_fd = items_max_fd (emptied s fd) }) fd none
  unfolding emptied
  emptied-Changed s fd v =
      let c = emptied s fd in
      let w = Cleared-slot s fd (item_at s fd) (v.slots fd) in
      let here : get_or c.items fd none ≡ none =
        ap (λ items. get_or items fd none) w.same_items ∙ get_or-set-none s.items fd in
      let others : (j : ℕ) → fd ≢ j → get_or c.items j none ≡ item_at s j = λ j ne.
        ap (λ items. get_or items j none) w.same_items
        ∙ get_or-set_other s.items fd j none none ne in
      record {
        valid = record {
          slots = λ j. elim (ℕ_discrete fd j) [
            | yes e ↦
                subst (λ k. Fits (record c { max_fd = items_max_fd c }) k (get_or c.items k none)) e
                  (rw here (w.not_read, w.not_write))
            | no ne ↦ rw (others j ne) (counted s c fd j (item_at s j) w ne refl (v.slots j))
          ];
          size = omega (
            arith,
            v.size,
            ap (length {A = Option (Item H D)}) w.same_items,
            length-set s.items fd none,
          );
        };
        here = here;
        others = others;
      }
