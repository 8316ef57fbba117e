-- ===== src/Metrics/Tests.antt =====
-- metrics.c on a short history.
use protos_tpe.Prelude.{◌≡◌, some, List, [], ◌∷◌, arith}
use protos_tpe.Metrics.{Metrics, init}
use protos_tpe.Metrics.Laws.{
  Event, open_event, close_event, to_origin, record_all, Counts, record_all-Counts,
}

abbrev history : List Event
history =
    open_event
    ∷ open_event
    ∷ to_origin 7
    ∷ close_event
    ∷ close_event
    ∷ close_event
    ∷ open_event
    ∷ []

record_all-Counts_example :
    (m' : Metrics) × (record_all (some init) history ≡ some m') × Counts init m' history
record_all-Counts_example = record_all-Counts history (omega arith)
