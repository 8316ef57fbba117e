-- ===== src/Metrics.antt =====
-- server/metrics.c: the counters of the process. `size_t` and `uint64_t` have 64 bits; `none` is
-- the null pointer, which every recording function tolerates.
pub mod Laws
mod Tests
use protos_tpe.Prelude.{ℕ, ◌+◌, ◌-◌, ◌%◌, ◌^◌, Option, none, some, ltb, if◌then◌else◌}

-- `struct Metrics`
pub record Metrics : Type 0 where
  pub historical : ℕ
  pub active : ℕ
  pub max_active : ℕ
  pub client_to_origin : ℕ
  pub origin_to_client : ℕ

abbrev pub u64 : ℕ → ℕ
u64 n = n % 2 ^ 64

abbrev pub init : Metrics
init = record {
  historical = 0;
  active = 0;
  max_active = 0;
  client_to_origin = 0;
  origin_to_client = 0;
}

unfoldable pub opened : Metrics → Metrics
opened m =
    let n = record m { historical = u64 (m.historical + 1); active = u64 (m.active + 1) } in
    if ltb n.max_active n.active then record n { max_active = n.active } else n

unfoldable pub closed : Metrics → Metrics
closed m = if ltb 0 m.active then record m { active = m.active - 1 } else m

unfoldable pub sent_to_origin : Metrics → ℕ → Metrics
sent_to_origin m n = record m { client_to_origin = u64 (m.client_to_origin + n) }

unfoldable pub sent_to_client : Metrics → ℕ → Metrics
sent_to_client m n = record m { origin_to_client = u64 (m.origin_to_client + n) }

-- The null check in front of each recording function.
abbrev pub recorded : (Metrics → Metrics) → Option Metrics → Option Metrics
recorded f none = none
recorded f (some m) = some (f m)

-- `metrics_connection_opened`, `metrics_connection_closed`, `metrics_bytes_…`
unfoldable pub connection_opened : Option Metrics → Option Metrics
unfolding opened
connection_opened = recorded opened

unfoldable pub connection_closed : Option Metrics → Option Metrics
unfolding closed
connection_closed = recorded closed

unfoldable pub bytes_client_to_origin : Option Metrics → ℕ → Option Metrics
unfolding sent_to_origin
bytes_client_to_origin m n = recorded (λ x. sent_to_origin x n) m

unfoldable pub bytes_origin_to_client : Option Metrics → ℕ → Option Metrics
unfolding sent_to_client
bytes_origin_to_client m n = recorded (λ x. sent_to_client x n) m
