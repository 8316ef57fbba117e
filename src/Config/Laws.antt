-- ===== src/Config/Laws.antt =====
-- The ranges of the parameters, under any sequence of changes.
use protos_tpe.Prelude.{ℕ, ◌+◌, ◌*◌, ◌≤◌, ◌≡◌, Bool, true, false, ◌<◌, ◌↔◌, List, [], ◌∷◌, arith}
use protos_tpe.Config.{Config, init, set_conn_timeout, set_io_buffer_size, set_max_connections}

-- A request to change a parameter.
pub data Change : Type 0 where
  timeout buffer_size connections : ℕ → Change

abbrev pub apply : Config → Change → Bool × Config
apply c (timeout v) = set_conn_timeout c v
apply c (buffer_size v) = set_io_buffer_size c v
apply c (connections v) = set_max_connections c v

abbrev pub apply_all : Config → List Change → Config
apply_all c [] = c
apply_all c (x ∷ xs) = apply_all (apply c x).1 xs

pub record InRange (c : Config) : Type 0 where
  pub timeout_range : (1 ≤ c.conn_timeout) × (c.conn_timeout ≤ 3600)
  pub buffer_range : (512 ≤ c.io_buffer_size) × (c.io_buffer_size ≤ 65536)
  pub some_connection : 1 ≤ c.max_connections
  pub below_hard : c.max_connections ≤ c.max_connections_hard

init-InRange : (capacity : ℕ) → 26 ≤ capacity → InRange (init capacity)
unfolding init
init-InRange capacity h = ground arith

apply-InRange : (c : Config) (x : Change) → InRange c → InRange (apply c x).1
unfolding set_conn_timeout set_io_buffer_size set_max_connections
apply-InRange c (timeout v) h = ground arith
apply-InRange c (buffer_size v) h = ground arith
apply-InRange c (connections v) h = ground arith

hard-apply : (c : Config) (x : Change) → (apply c x).1.max_connections_hard ≡ c.max_connections_hard
unfolding set_conn_timeout set_io_buffer_size set_max_connections
hard-apply c (timeout v) = ground arith
hard-apply c (buffer_size v) = ground arith
hard-apply c (connections v) = ground arith

-- A refused change leaves every parameter as it was.
pub apply_refused : (c : Config) (x : Change) → (apply c x).0 ≡ false → (apply c x).1 ≡ c
unfolding set_conn_timeout set_io_buffer_size set_max_connections
apply_refused c (timeout v) h = ground arith
apply_refused c (buffer_size v) h = ground arith
apply_refused c (connections v) h = ground arith

-- The parameters in range, and the descriptors of all connections within the selector.
pub record InBudget (capacity : ℕ) (c : Config) : Type 0 where
  pub ranges : InRange c
  pub budget : 24 + 2 * c.max_connections_hard ≤ capacity

pub apply-InBudget :
    (capacity : ℕ) (c : Config) (x : Change) → InBudget capacity c → InBudget capacity (apply c x).1
apply-InBudget capacity c x h = record {
  ranges = apply-InRange c x h.ranges;
  budget = omega (arith, h.budget, hard-apply c x);
}

apply_all_from-InBudget :
    (xs : List Change) (capacity : ℕ) (c : Config)
    → InBudget capacity c
    → InBudget capacity (apply_all c xs)
apply_all_from-InBudget [] capacity c h = h
apply_all_from-InBudget (x ∷ xs) capacity c h =
    apply_all_from-InBudget xs capacity (apply c x).1 (apply-InBudget capacity c x h)

-- From a selector with at least 26 descriptors, whatever changes are asked for, every parameter
-- stays in its range, and two descriptors for each connection fit in with the reserve.
pub apply_all-InBudget :
    (capacity : ℕ) (xs : List Change)
    → 26 ≤ capacity
    → InBudget capacity (apply_all (init capacity) xs)
apply_all-InBudget capacity xs h =
    apply_all_from-InBudget xs capacity (init capacity)
      (record { ranges = init-InRange capacity h; budget = unfold init in ground arith })

-- On a selector with more descriptors than the reserve of 24, a change of the limit to `v` is
-- accepted exactly if `v` is positive and the reserve with the two descriptors of each of `v`
-- connections fits into the selector. So it is never accepted on a selector with 25.
pub set_max_connections_iff :
    (capacity v : ℕ)
    → 24 < capacity
    → ((set_max_connections (init capacity) v).0 ≡ true) ↔ ((1 ≤ v) × (24 + 2 * v ≤ capacity))
unfolding init set_max_connections
set_max_connections_iff capacity v h = ground arith
