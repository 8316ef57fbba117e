-- ===== src/Config/Tests.antt =====
-- config.c on concrete changes.
use protos_tpe.Prelude.{◌↔◌, true, ◌+◌, ◌*◌, ◌≤◌, ◌≡◌, refl, [], ◌∷◌, arith}
use protos_tpe.Config.{init, set_conn_timeout, set_max_connections}
use protos_tpe.Config.Laws.{
  InBudget, timeout, buffer_size, connections, apply, apply_all, apply_all-InBudget, apply_refused,
  set_max_connections_iff,
}

apply_all-InBudget_example :
    InBudget 1024 (
      apply_all
        (init 1024)
        (connections 500 ∷ timeout 0 ∷ buffer_size 65536 ∷ connections 501 ∷ []))
apply_all-InBudget_example =
    apply_all-InBudget 1024 (connections 500 ∷ timeout 0 ∷ buffer_size 65536 ∷ connections 501 ∷ [])
      (omega arith)

apply_refused_example : (apply (init 1024) (timeout 3601)).1 ≡ init 1024
unfolding set_conn_timeout
apply_refused_example = apply_refused (init 1024) (timeout 3601) refl

set_max_connections_example :
    ((set_max_connections (init 1024) 500).0 ≡ true) ↔ ((1 ≤ 500) × (24 + 2 * 500 ≤ 1024))
set_max_connections_example = set_max_connections_iff 1024 500 (omega arith)
