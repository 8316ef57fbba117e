-- ===== src/Socks5/Admitting.antt =====
-- `socks5_passive_accept` of server/socks5.c keeps the limit of the connections.
use protos_tpe.Prelude.{
  ℕ, ◌+◌, ◌<◌, ◌≤◌, ◌≡◌, ◌^◌, ◌%◌, refl, ap, ◌∙◌, Bool, true, false, not, Option, none, some, List,
  [], ◌∷◌, arith, if◌then◌else◌, Bool-cases, inl, inr, length, leb, ltb,
}
use protos_tpe.Config.{Config}
use protos_tpe.Metrics.{Metrics, opened, connection_opened}
use protos_tpe.Socks5.{Server}
use protos_tpe.Socks5.Os.{Os}
use protos_tpe.Socks5.Accept.{
  Heap, Round, drained, exhausted, incoming, Listening, is_full, admit, passive_accept,
}

-- Behind the rounds the counter is within the limit and has grown with the list.
pub record Limited (c : Config) (m : Metrics) (l l' : Listening) : Type 0 where
  pub metrics : Metrics
  pub same_config : l'.server.config ≡ some c
  pub counter : l'.server.metrics ≡ some metrics
  pub within : metrics.active ≤ c.max_connections
  pub grown : metrics.active + length l.conns ≡ m.active + length l'.conns

opened-active : (m : Metrics) → m.active + 1 < 2 ^ 64 → (opened m).active ≡ m.active + 1
unfolding opened
opened-active m small =
    let n = record m {
      historical = (m.historical + 1) % 2 ^ 64;
      active = (m.active + 1) % 2 ^ 64;
    } in
    let e : (m.active + 1) % 2 ^ 64 ≡ m.active + 1 = ground (arith, small) in
    elim (Bool-cases (ltb n.max_active n.active)) [ inl b ↦ rw b e | inr b ↦ rw b e ]

full_at :
    (s : Server) (c : Config) (m : Metrics)
    → s.config ≡ some c
    → s.metrics ≡ some m
    → leb c.max_connections m.active ≡ is_full s
unfolding is_full
full_at s c m config metrics = rw config (rw metrics refl)

unchanged :
    (c : Config) (m : Metrics) (l : Listening)
    → l.server.config ≡ some c
    → l.server.metrics ≡ some m
    → m.active ≤ c.max_connections
    → Limited c m l l
unchanged c m l config metrics within = record {
  metrics = m;
  same_config = config;
  counter = metrics;
  within = within;
  grown = refl;
}

module _ (os : Os) where
  admit-Limited :
      (client : ℕ) (heap : Heap) (now : ℕ) (c : Config) (m : Metrics) (l : Listening)
      → l.server.config ≡ some c
      → l.server.metrics ≡ some m
      → is_full l.server ≡ false
      → c.max_connections < 2 ^ 64
      → Limited c m l (admit os client heap now l)
  unfolding admit connection_opened is_full
  admit-Limited client heap now c m l config metrics space size =
      let room : leb c.max_connections m.active ≡ false =
        full_at l.server c m config metrics ∙ space in
      let below : m.active < c.max_connections = ground (arith, room) in
      let n = opened-active m (omega arith) in
      record {
        metrics = opened m;
        same_config = config;
        counter = ap connection_opened metrics;
        within = omega (arith, n);
        grown = omega (arith, n);
      }

  -- The calls of a round that may fail.
  checked :
      (nio : Bool) (memory : Option Heap) (registered : Bool) {c : Config} {m : Metrics}
      {l : Listening} {more : Heap → Listening}
      → ((heap : Heap) → Limited c m l (more heap))
      → Limited c m l l
      → Limited c m l (
          if not nio
          then l
          else elim memory [ none ↦ l | some heap ↦ if registered then more heap else l ])
  checked false memory registered grows same = same
  checked true none registered grows same = same
  checked true (some heap) true grows same = grows heap
  checked true (some heap) false grows same = same

  -- One round of `accept`.
  round_lem :
      (client now : ℕ) (nio : Bool) (memory : Option Heap) (registered : Bool) (c : Config)
      (m : Metrics) (l : Listening)
      → l.server.config ≡ some c
      → l.server.metrics ≡ some m
      → m.active ≤ c.max_connections
      → c.max_connections < 2 ^ 64
      → Limited c m l (
          if is_full l.server then l else if not nio then l else elim memory [
            | none ↦ l
            | some heap ↦ if registered then admit os client heap now l else l
          ])
  round_lem client now nio memory registered c m l config metrics within size =
      let same = unchanged c m l config metrics within in
      elim (Bool-cases (is_full l.server)) [
        | inl full ↦ rw full same
        | inr space ↦ rw space (
            checked nio memory registered
              (λ heap. admit-Limited client heap now c m l config metrics space size) same)
      ]

  -- With a configuration whose `max_connections` fits 64 bits and metrics within it, any rounds of
  -- `socks5_passive_accept` leave the counter of the active connections within `max_connections`,
  -- and it has grown by the connections that were put on the list.
  pub passive_accept-Limited :
      (fd : ℕ) (rs : List Round) (c : Config) (m : Metrics) (l : Listening)
      → l.server.config ≡ some c
      → l.server.metrics ≡ some m
      → m.active ≤ c.max_connections
      → c.max_connections < 2 ^ 64
      → Limited c m l (passive_accept os fd rs l)
  unfolding passive_accept
  passive_accept-Limited fd [] c m l config metrics within size =
      unchanged c m l config metrics within
  passive_accept-Limited fd (drained ∷ rs) c m l config metrics within size =
      unchanged c m l config metrics within
  passive_accept-Limited fd (exhausted ∷ rs) c m l config metrics within size = record {
    metrics = m;
    same_config = config;
    counter = metrics;
    within = within;
    grown = refl;
  }
  passive_accept-Limited fd (incoming client nio memory registered now ∷ rs) c m l config metrics
        within size =
      let r = round_lem client now nio memory registered c m l config metrics within size in
      let d = passive_accept-Limited fd rs c r.metrics _ r.same_config r.counter r.within size in
      record {
        metrics = d.metrics;
        same_config = d.same_config;
        counter = d.counter;
        within = d.within;
        grown = omega (arith, r.grown, d.grown);
      }
