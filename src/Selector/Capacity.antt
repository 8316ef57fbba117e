-- ===== src/Selector/Capacity.antt =====
-- The capacity that the table grows to is beyond the descriptor that asks for it.
use protos_tpe.Prelude.{ℕ, zero, suc, ◌+◌, ◌*◌, ◌/◌, ◌^◌, ◌≤◌, ◌<◌, ◌≡◌, refl, arith}
use protos_tpe.Selector.{count_bits, next_capacity, items_max_size}

abbrev pow2 : ℕ → ℕ
pow2 zero = 1
pow2 (suc k) = 2 * pow2 k

pow2-eq : (k : ℕ) → 2 ^ k ≡ pow2 k
pow2-eq zero = refl
pow2-eq (suc k) = omega (arith, pow2-eq k)

count_bits_less : (k n : ℕ) → n < pow2 k → n < pow2 (count_bits k n)
unfolding count_bits
count_bits_less zero n h = h
count_bits_less (suc k) n h = ground (arith, count_bits_less k (n / 2) (omega arith))

-- For a descriptor up to the limit of the platform, the new capacity is above it, so that the item
-- of the descriptor is in the table, and at most one above that limit.
pub next_capacity_bounds :
    (n : ℕ) → n ≤ items_max_size → (n < next_capacity n) × (next_capacity n ≤ items_max_size + 1)
unfolding next_capacity
next_capacity_bounds n h =
    let above = count_bits_less 64 n (omega arith) in
    let same = pow2-eq (count_bits 64 n) in ground arith
