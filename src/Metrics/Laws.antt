-- ===== src/Metrics/Laws.antt =====
-- The counters over any sequence of recorded events, against plain counts of those events.
use protos_tpe.Prelude.{
  ℕ, suc, ◌+◌, ◌-◌, ◌%◌, ◌^◌, ◌≤◌, ◌<◌, ◌≡◌, refl, ap, sym, ◌∙◌, Option, none, some, List, [], ◌∷◌,
  arith, length,
}
use protos_tpe.Metrics.{
  Metrics, init, opened, closed, sent_to_origin, sent_to_client, connection_opened,
  connection_closed, bytes_client_to_origin, bytes_origin_to_client,
}

pub data Event : Type 0 where
  open_event close_event : Event
  to_origin to_client : ℕ → Event

abbrev pub record_event : Option Metrics → Event → Option Metrics
record_event m open_event = connection_opened m
record_event m close_event = connection_closed m
record_event m (to_origin n) = bytes_client_to_origin m n
record_event m (to_client n) = bytes_origin_to_client m n

abbrev pub record_all : Option Metrics → List Event → Option Metrics
record_all m [] = m
record_all m (e ∷ es) = record_all (record_event m e) es

-- The plain counts.
abbrev pub opens : List Event → ℕ
opens [] = 0
opens (open_event ∷ es) = suc (opens es)
opens (_ ∷ es) = opens es

abbrev pub upload : List Event → ℕ
upload [] = 0
upload (to_origin n ∷ es) = n + upload es
upload (_ ∷ es) = upload es

abbrev pub download : List Event → ℕ
download [] = 0
download (to_client n ∷ es) = n + download es
download (_ ∷ es) = download es

-- How many connections are open after the events, from `a` open ones; a close at 0 is ignored.
abbrev pub level : ℕ → List Event → ℕ
level a [] = a
level a (open_event ∷ es) = level (a + 1) es
level a (close_event ∷ es) = level (a - 1) es
level a (_ ∷ es) = level a es

-- What the counters say after the events, from the state `m`.
pub record Counts (m m' : Metrics) (es : List Event) : Type 0 where
  pub historical_is : m'.historical ≡ m.historical + opens es
  pub active_is : m'.active ≡ level m.active es
  pub peak_covers : m'.active ≤ m'.max_active
  pub peak_grows : m.max_active ≤ m'.max_active
  pub peak_within : m'.max_active ≤ m'.historical
  pub upload_is : m'.client_to_origin ≡ (m.client_to_origin + upload es) % 2 ^ 64
  pub download_is : m'.origin_to_client ≡ (m.origin_to_client + download es) % 2 ^ 64

pub record IsValid (m : Metrics) : Type 0 where
  pub active_le : m.active ≤ m.max_active
  pub max_le : m.max_active ≤ m.historical
  pub upload_lt : m.client_to_origin < 2 ^ 64
  pub download_lt : m.origin_to_client < 2 ^ 64

-- The counters after one event.
after_event : Metrics → Event → Metrics
after_event m open_event = opened m
after_event m close_event = closed m
after_event m (to_origin n) = sent_to_origin m n
after_event m (to_client n) = sent_to_client m n

record_event-some : (m : Metrics) (e : Event) → record_event (some m) e ≡ some (after_event m e)
unfolding after_event connection_opened connection_closed bytes_client_to_origin
    bytes_origin_to_client
record_event-some m open_event = refl
record_event-some m close_event = refl
record_event-some m (to_origin n) = refl
record_event-some m (to_client n) = refl

after_event-Counts :
    (m : Metrics) (e : Event)
    → IsValid m
    → m.historical + 1 < 2 ^ 64
    → Counts m (after_event m e) (e ∷ []) × IsValid (after_event m e)
unfolding after_event opened closed sent_to_origin sent_to_client
after_event-Counts m open_event v h = ground arith
after_event-Counts m close_event v h = ground arith
after_event-Counts m (to_origin n) v h = ground arith
after_event-Counts m (to_client n) v h = ground arith

opens_one : (e : Event) → opens (e ∷ []) ≤ 1
opens_one open_event = omega arith
opens_one close_event = omega arith
opens_one (to_origin n) = omega arith
opens_one (to_client n) = omega arith

level-cons : (a : ℕ) (e : Event) (es : List Event) → level a (e ∷ es) ≡ level (level a (e ∷ [])) es
level-cons a open_event es = refl
level-cons a close_event es = refl
level-cons a (to_origin n) es = refl
level-cons a (to_client n) es = refl

sums-cons :
    (e : Event) (es : List Event)
    → (opens (e ∷ es) ≡ opens (e ∷ []) + opens es)
      × (upload (e ∷ es) ≡ upload (e ∷ []) + upload es)
      × (download (e ∷ es) ≡ download (e ∷ []) + download es)
sums-cons open_event es = omega arith
sums-cons close_event es = omega arith
sums-cons (to_origin n) es = omega arith
sums-cons (to_client n) es = omega arith

Counts-cons :
    (m n m' : Metrics) (e : Event) (es : List Event)
    → Counts m n (e ∷ [])
    → Counts n m' es
    → Counts m m' (e ∷ es)
Counts-cons m n m' e es one more = record {
  historical_is = omega (arith, one.historical_is, more.historical_is, sums-cons e es);
  active_is = more.active_is ∙ ap (λ a. level a es) one.active_is ∙ sym (level-cons m.active e es);
  peak_covers = more.peak_covers;
  peak_grows = omega (arith, one.peak_grows, more.peak_grows);
  peak_within = more.peak_within;
  upload_is = omega (arith, one.upload_is, more.upload_is, sums-cons e es);
  download_is = omega (arith, one.download_is, more.download_is, sums-cons e es);
}

record_all-some :
    (es : List Event) (m : Metrics)
    → IsValid m
    → m.historical + length es < 2 ^ 64
    → (m' : Metrics) × (record_all (some m) es ≡ some m') × Counts m m' es
record_all-some [] m v h = (m, refl, ground arith)
record_all-some (e ∷ es) m v h =
    let (one, v') = after_event-Counts m e v (omega arith) in
    let (m', runs, c) =
      record_all-some es (after_event m e) v' (omega (arith, one.historical_is, opens_one e)) in
    (
      m',
      ap (λ o. record_all o es) (record_event-some m e) ∙ runs,
      Counts-cons m (after_event m e) m' e es one c,
    )

-- From a fresh instance, after any events of which there are fewer than 2^64: the historical
-- counter is the number of accepts, the active one the number of open connections, the peak lies
-- between them, and the byte counters are the sums modulo 2^64.
pub record_all-Counts :
    (es : List Event)
    → length es < 2 ^ 64
    → (m' : Metrics) × (record_all (some init) es ≡ some m') × Counts init m' es
record_all-Counts es h = record_all-some es init (omega arith) (omega arith)

record_all-none : (es : List Event) → record_all none es ≡ none
unfolding connection_opened connection_closed bytes_client_to_origin bytes_origin_to_client
record_all-none [] = refl
record_all-none (open_event ∷ es) = record_all-none es
record_all-none (close_event ∷ es) = record_all-none es
record_all-none (to_origin n ∷ es) = record_all-none es
record_all-none (to_client n ∷ es) = record_all-none es
