-- ===== src/Socks5/Run.antt =====
-- The relay from its arrival on, under any sequence of events that the selector reports.
use protos_tpe.Prelude.{
  ℕ, ◌-◌, ◌<◌, ◌≡◌, refl, sym, ap, ◌∙◌, true, false, ◌&&◌, Option, some, List, [], ◌∷◌, ◌++◌, ◌>>=◌,
  Bool-cases, inl, inr, ◌⊎◌, arith,
}
use protos_tpe.Buffer.{IsValid, contents, can_write}
use protos_tpe.Buffer.Laws.{compact_lem}
use protos_tpe.Socks5.{State, relay, finished, failed, Key, noop}
use protos_tpe.Socks5.Os.{Os}
use protos_tpe.Socks5.Relay.{relay_init, relay_read, relay_write, client_wants}
use protos_tpe.Socks5.Forward.{Frame, frame, Relaying, halved, halved-Relaying}
use protos_tpe.Socks5.Halved.{halved-Kept}
use protos_tpe.Socks5.Delivery.{InRelay, Outcome, stays, ends, gives_up, open_lem, relay_write_lem}
use protos_tpe.Socks5.Arrivals.{key_armed, relay_read_lem}

-- An event that the selector may report, with its descriptor.
pub data RelayEvent : Type 0 where
  readable writable : ℕ → RelayEvent

module _ (os : Os) where
  -- An event is reported only where the selector is armed for it.
  unfoldable pub relay_event : RelayEvent → Key → Option (State × Key)
  relay_event (readable fd) k =
      let k' = record k { fd = fd } in
      elim (key_armed k').op_read [ true ↦ relay_read os k' | false ↦ some (relay, k') ]
  relay_event (writable fd) k =
      let k' = record k { fd = fd } in
      elim (key_armed k').op_write [ true ↦ relay_write os k' | false ↦ some (relay, k') ]

  unfoldable pub relay_run : List RelayEvent → Key → Option (State × Key)
  relay_run [] k = some (relay, k)
  relay_run (e ∷ es) k = do
    (st, k') ← relay_event e k
    elim st [ relay ↦ relay_run es k' | other ↦ some (other, k') ]

InRelay-fd :
    {early replies : List ℕ} {fr : Frame} (fd : ℕ) {k : Key}
    → InRelay early replies fr k
    → InRelay early replies fr (record k { fd = fd })
InRelay-fd fd h = record {
  relaying = h.relaying;
  armed = record { client_has = h.armed.client_has; origin_has = h.armed.origin_has };
  progress = h.progress;
}

-- What a connection brings into the relay: the handshake took `early` of the client's bytes, those
-- that follow wait in a read buffer with room behind them, and the replies have gone out.
pub record Entering (early replies : List ℕ) (fr : Frame) (k : Key) : Type 0 where
  pub framed : frame k.conn ≡ fr
  pub read_valid : IsValid k.conn.read_buffer
  pub write_valid : IsValid k.conn.write_buffer
  pub read_room : k.conn.read_buffer.write - k.conn.read_buffer.read < k.conn.read_buffer.limit
  pub write_room : 0 < k.conn.write_buffer.limit
  pub upload : k.net.from_client ≡ early ++ (k.net.to_origin ++ contents k.conn.read_buffer)
  pub download : replies ++ k.net.from_origin ≡ k.net.to_client ++ contents k.conn.write_buffer
  pub origin_open : k.net.origin_half_closed ≡ false
  pub client_open : k.net.client_half_closed ≡ false
  pub nothing_cached : k.conn.client_interest ≡ noop
  pub origin_cached : k.conn.origin_interest ≡ k.net.origin_armed

-- The flags that `relay_init` clears.
abbrev cleared : Key → Key
cleared k = record k {
  conn = record k.conn {
    client_closed = false;
    origin_closed = false;
    client_wr_shut = false;
    origin_wr_shut = false;
  };
}

module _ {early replies : List ℕ} {fr : Frame} where
  cleared-Relaying :
      (k : Key)
      → Entering early replies fr k
      → Relaying early replies fr (cleared k).conn (cleared k).net
  cleared-Relaying k h = record {
    framed = h.framed;
    read_valid = h.read_valid;
    write_valid = h.write_valid;
    read_room = omega (arith, h.read_room);
    write_room = h.write_room;
    upload = h.upload;
    download = h.download;
    origin_half = h.origin_open;
    client_half = h.client_open;
    origin_after = λ e. absurd (cc e);
    client_after = λ e. absurd (cc e);
  }

  -- The client is read at once.
  first_wants :
      (k : Key)
      → Entering early replies fr k
      → (client_wants (halved (cleared k)).conn).op_read ≡ true
  unfolding client_wants can_write
  first_wants k h =
      let s = halved-Kept (cleared k) in
      let p = compact_lem h.read_valid in
      rw (s.client_closed, s.read_buffer)
        (ground (arith, p.write_pending, p.same_limit, h.read_room))

  still_open :
      (k : Key)
      → Entering early replies fr k
      → ((halved (cleared k)).conn.client_wr_shut && (halved (cleared k)).conn.origin_wr_shut)
        ≡ false
  still_open k h =
      let r = halved-Relaying (cleared k) (cleared-Relaying k h) in
      let s = halved-Kept (cleared k) in
      elim (Bool-cases (halved (cleared k)).conn.origin_wr_shut) [
        | inl e ↦ absurd (cc (s.client_closed, (r.origin_after e).0))
        | inr e ↦ rw e (ground arith)
      ]

module _ {early replies : List ℕ} {fr : Frame} (os : Os) where
  -- The arrival succeeds or leaves its mark.
  pub relay_init-cases :
      (k : Key)
      → Entering early replies fr k
      → (frame (relay_init os k).conn ≡ fr)
        × (((relay_init os k).conn.arrival_error ≡ true)
            ⊎ InRelay early replies fr (relay_init os k))
  unfolding relay_init
  relay_init-cases k h =
      let k₀ = cleared k in
      let s = halved-Kept k₀ in
      let wants = first_wants k h in
      let client_trusts : (halved k₀).conn.client_interest ≡ client_wants (halved k₀).conn
          → (halved k₀).net.client_armed ≡ client_wants (halved k₀).conn =
        (λ e. absurd (cc (ap (λ i. i.op_read) (sym e ∙ s.client_interest ∙ h.nothing_cached)))) in
      let (st, k', runs, out) =
        open_lem os k₀ (cleared-Relaying k h)
          (client_trusts, λ e. s.origin_armed ∙ sym h.origin_cached ∙ sym s.origin_interest ∙ e)
          (still_open k h) in
      elim out [
        | inl (e, r) ↦ rw runs (rw e (r.relaying.framed, inr r))
        | inr (e, r) ↦ rw runs (rw e (r.framed, inl refl))
      ]

  pub relay_init_lem :
      (k : Key)
      → Entering early replies fr k
      → (relay_init os k).conn.arrival_error ≡ false
      → InRelay early replies fr (relay_init os k)
  relay_init_lem k h fine = elim (relay_init-cases k h).1 [
    | inl marked ↦ absurd (cc (sym marked ∙ fine))
    | inr r ↦ r
  ]

  event_lem :
      (e : RelayEvent) (k : Key)
      → InRelay early replies fr k
      → (st : State) × (k' : Key) × (relay_event os e k ≡ some (st, k'))
        × Outcome early replies fr st k'
  unfolding relay_event
  event_lem (readable fd) k h =
      let k' = record k { fd = fd } in
      elim (Bool-cases (key_armed k').op_read) [
        | inl armed ↦
            (let (st, k'', runs, out) = relay_read_lem os k' (InRelay-fd fd h) armed in
              (st, k'', rw (armed, relay_event) runs, out))
        | inr idle ↦ (relay, k', rw (idle, relay_event) refl, stays refl (InRelay-fd fd h))
      ]
  event_lem (writable fd) k h =
      let k' = record k { fd = fd } in
      elim (Bool-cases (key_armed k').op_write) [
        | inl armed ↦
            (let (st, k'', runs, out) = relay_write_lem os k' (InRelay-fd fd h) in
              (st, k'', rw (armed, relay_event) runs, out))
        | inr idle ↦ (relay, k', rw (idle, relay_event) refl, stays refl (InRelay-fd fd h))
      ]

  run_from :
      (es : List RelayEvent) (k : Key)
      → InRelay early replies fr k
      → (st : State) × (k' : Key) × (relay_run os es k ≡ some (st, k'))
        × Outcome early replies fr st k'
  unfolding relay_run
  run_from [] k h = (relay, k, refl, stays refl h)
  run_from (e ∷ es) k h =
      let (st, k', runs, out) = event_lem e k h in
      elim out [
        | stays is r ↦
            (let (st', k'', more, out') = run_from es k' r in
              (st', k'', rw runs (rw (is, relay_run) more), out'))
        | ends is d ↦ (finished, k', rw runs (rw (is, relay_run) refl), ends refl d)
        | gives_up is r ↦ (failed, k', rw runs (rw (is, relay_run) refl), gives_up refl r)
      ]

  -- On a connection that enters the relay as `Entering` says and whose arrival leaves no error,
  -- any sequence of events that the selector reports runs without a fault. While the relay goes on,
  -- the bytes from each side have gone to the other, in their order, but for those that wait in the
  -- buffer between, and the selector is armed so that each open direction is read at its source or
  -- written at its end. If it ends in DONE, both streams have ended, every byte has been sent, and
  -- both sides have been half-closed. If it ends in ERROR, nothing was reordered or made up.
  pub relay_run-Outcome :
      (es : List RelayEvent) (k : Key)
      → Entering early replies fr k
      → (relay_init os k).conn.arrival_error ≡ false
      → (st : State) × (k' : Key) × (relay_run os es (relay_init os k) ≡ some (st, k'))
        × Outcome early replies fr st k'
  relay_run-Outcome es k h fine = run_from es (relay_init os k) (relay_init_lem k h fine)
