-- ===== src/Selector/Tests.antt =====
-- A table of two places.
use protos_tpe.Prelude.{
  ℕ, zero, suc, ◌+◌, ◌==◌, ◌≡◌, refl, pos, Bool, true, false, none, some, [], ◌∷◌, arith, ◌≤◌, ◌<◌,
}
use protos_tpe.Selector.{
  Status, success, Interest, Item, Selector, items_max_size, next_capacity, register, unregister,
}
use protos_tpe.Selector.Capacity.{next_capacity_bounds}
use protos_tpe.Selector.Laws.{IsValid, Fits, item_at, Changed, Registered}
use protos_tpe.Selector.Register.{register-Registered, register_at_size}
use protos_tpe.Selector.Unregister.{unregister-Changed}

abbrev reading : Interest
reading = record { op_read = true; op_write = false }

abbrev writing : Interest
writing = record { op_read = false; op_write = true }

-- The descriptor 1 waits for input.
abbrev item : Item ℕ ℕ
item = record { fd = 1; interest = reading; handler = 7; data_of = 9 }

abbrev reads_one : ℕ → Bool
reads_one k = k == 1

abbrev table : Selector ℕ ℕ
table = record {
  items = none ∷ some item ∷ [];
  max_fd = 1;
  master_r = reads_one;
  master_w = λ k. false;
}

abbrev any_memory : ℕ → Bool
any_memory n = true

abbrev keep : ℕ → ℕ → ℕ → Selector ℕ ℕ → Selector ℕ ℕ
keep handler fd data_of s = s

table-IsValid : IsValid table
table-IsValid = record { slots = slot; size = omega arith }
  where
    slot : (i : ℕ) → Fits table i (item_at table i)
    slot zero = (refl, refl)
    slot (suc zero) = (refl, omega arith, refl, refl)
    slot (suc (suc i)) = (ground arith, refl)

next_capacity_example : (1023 < next_capacity 1023) × (next_capacity 1023 ≤ items_max_size + 1)
next_capacity_example = next_capacity_bounds 1023 (omega arith)

-- The table grows for the descriptor 5.
register_example :
    (r : Status × Selector ℕ ℕ) × (register any_memory table (pos 5) (some 7) writing 9 ≡ some r)
    × Registered any_memory table 5
        (record { fd = 5; interest = writing; handler = 7; data_of = 9 })
        r
register_example =
    register-Registered any_memory table
      (record { fd = 5; interest = writing; handler = 7; data_of = 9 }) table-IsValid (omega arith)
      (λ e. absurd (omega arith))

unregister_example :
    (s' : Selector ℕ ℕ) × (unregister keep table (pos 1) ≡ some (success, s'))
    × Changed table s' 1 none
unregister_example =
    unregister-Changed keep table 1 item (omega arith) (omega arith) refl table-IsValid

register_at_size_example : register any_memory table (pos 2) (some 7) reading 9 ≡ none
register_at_size_example = register_at_size any_memory table 7 reading 9 (omega arith)
