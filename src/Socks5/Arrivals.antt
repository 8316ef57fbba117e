-- ===== src/Socks5/Arrivals.antt =====
-- A read event of the relay, with the bytes that it brings.
use protos_tpe.Prelude.{
  ℕ, ◌+◌, ◌≡◌, refl, sym, ap, ◌∙◌, Bool, true, false, ◌&&◌, not, some, List, [], ◌∷◌, if◌then◌else◌,
  append-nil, length,
}
use protos_tpe.Buffer.{Buffer, IsValid, can_write}
use protos_tpe.Buffer.Writes.{Pushed}
use protos_tpe.Selector.{Interest}
use protos_tpe.Socks5.{State, relay, failed, Key, Net, is_client}
use protos_tpe.Socks5.Os.{Os, io_ok, log_received, called}
use protos_tpe.Socks5.Relay.{
  relay_read, relayed, source, put_source, mark_closed, count_bytes, client_wants, origin_wants,
}
use protos_tpe.Socks5.Flush.{got, waits, breaks, recv_into_lem}
use protos_tpe.Socks5.Arming.{ArmedKey}
use protos_tpe.Socks5.Forward.{Frame, Relaying}
use protos_tpe.Socks5.Moved.{received-Relaying, mark_closed-Relaying}
use protos_tpe.Socks5.Delivery.{
  InRelay, Outcome, stays, gives_up, Cached, ArmedKey-Cached, halved-TrustsBoth, relay_update_lem,
  flushed_lem,
}

-- What the selector has armed for the descriptor of the event.
abbrev pub key_armed : Key → Interest
key_armed k = if is_client k then k.net.client_armed else k.net.origin_armed

not_left : (a b : Bool) → (not a && b) ≡ true → a ≡ false
not_left true b h = cc
not_left false b h = refl

wants_read :
    (from_client : Bool) (k : Key)
    → ArmedKey k
    → (if from_client then k.net.client_armed else k.net.origin_armed).op_read ≡ true
    → (if from_client then k.conn.client_closed else k.conn.origin_closed) ≡ false
unfolding client_wants origin_wants
wants_read true k a h =
    not_left k.conn.client_closed (can_write k.conn.read_buffer)
      (ap (λ i. i.op_read) (sym a.client_has.1) ∙ h)
wants_read false k a h =
    not_left k.conn.origin_closed (can_write k.conn.write_buffer)
      (ap (λ i. i.op_read) (sym a.origin_has.1) ∙ h)

-- A `recv` that brings nothing leaves the buffer.
put_back : (to : Bool) (k : Key) → put_source to (source to k.conn) k.conn ≡ k.conn
put_back true k = refl
put_back false k = refl

log_nil : (from_client : Bool) (n : Net) → log_received from_client [] n ≡ n
log_nil true n = ap (λ xs. record n { from_client = xs }) (append-nil n.from_client)
log_nil false n = ap (λ xs. record n { from_origin = xs }) (append-nil n.from_origin)

-- The key behind a `recv` of the relay.
abbrev received_key : Bool → List ℕ → Buffer → Key → Key
received_key from_client xs b k = record k {
  conn = put_source (not from_client) b k.conn;
  net = log_received from_client xs (record k.net { calls = k.net.calls + 1 });
}

count_bytes-same :
    (from_client : Bool) (n : ℕ) (k : Key)
    → ((count_bytes from_client n k).conn ≡ k.conn) × ((count_bytes from_client n k).net ≡ k.net)
count_bytes-same true n k = (refl, refl)
count_bytes-same false n k = (refl, refl)

Cached-received :
    (from_client : Bool) (xs : List ℕ) (b : Buffer) (k : Key)
    → Cached k.conn k.net
    → Cached (received_key from_client xs b k).conn (received_key from_client xs b k).net
Cached-received true xs b k c = record { client_same = c.client_same; origin_same = c.origin_same }
Cached-received false xs b k c = record { client_same = c.client_same; origin_same = c.origin_same }

Cached-closed :
    (from_client : Bool) (k : Key)
    → Cached k.conn k.net
    → Cached (mark_closed from_client k.conn) k.net
Cached-closed true k c = record { client_same = c.client_same; origin_same = c.origin_same }
Cached-closed false k c = record { client_same = c.client_same; origin_same = c.origin_same }

pub InRelay-called :
    {early replies : List ℕ} {fr : Frame} {k : Key}
    → InRelay early replies fr k
    → InRelay early replies fr (called k)
InRelay-called h = record {
  relaying = record {
    framed = h.relaying.framed;
    read_valid = h.relaying.read_valid;
    write_valid = h.relaying.write_valid;
    read_room = h.relaying.read_room;
    write_room = h.relaying.write_room;
    upload = h.relaying.upload;
    download = h.relaying.download;
    origin_half = h.relaying.origin_half;
    client_half = h.relaying.client_half;
    origin_after = h.relaying.origin_after;
    client_after = h.relaying.client_after;
  };
  armed = record { client_has = h.armed.client_has; origin_has = h.armed.origin_has };
  progress = h.progress;
}

module _ {early replies : List ℕ} {fr : Frame} (os : Os) where
  -- Bytes have come in, or the stream has ended.
  relayed_ok :
      (from_client : Bool) (xs : List ℕ) (k : Key)
      → Relaying early replies fr k.conn k.net
      → Cached k.conn k.net
      → (st : State) × (k' : Key) × (relayed os from_client (io_ok xs) k ≡ some (st, k'))
        × Outcome early replies fr st k'
  unfolding relayed
  relayed_ok from_client [] k h c =
      let k₁ = record k { conn = mark_closed from_client k.conn } in
      let (st, k', runs, out) =
        relay_update_lem os k₁ (mark_closed-Relaying from_client k h)
          (halved-TrustsBoth k₁ (Cached-closed from_client k c)) in
      (st, k', ap some runs, out)
  relayed_ok from_client (x ∷ xs) k h c =
      let n = length (x ∷ xs) in
      let (e, f) = count_bytes-same from_client n k in
      flushed_lem os (not from_client) (count_bytes from_client n k) (rw (e, f) h) (rw (e, f) c)

  got_lem :
      (from_client : Bool) (xs : List ℕ) (b : Buffer) (k : Key)
      → InRelay early replies fr k
      → (if from_client then k.net.client_armed else k.net.origin_armed).op_read ≡ true
      → Pushed (source (not from_client) k.conn) b xs
      → (st : State) × (k' : Key) × (relayed os from_client
            (io_ok xs)
            (received_key from_client xs b k)
          ≡ some (st, k'))
        × Outcome early replies fr st k'
  got_lem from_client xs b k h armed p =
      relayed_ok from_client xs (received_key from_client xs b k)
        (received-Relaying from_client xs (k.net.calls + 1) b k
          (wants_read from_client k h.armed armed) p h.relaying)
        (Cached-received from_client xs b k (ArmedKey-Cached h.armed))

  -- A read event that the selector was armed for runs without a fault, and its outcome is one of
  -- the three.
  pub relay_read_lem :
      (k : Key)
      → InRelay early replies fr k
      → (key_armed k).op_read ≡ true
      → (st : State) × (k' : Key) × (relay_read os k ≡ some (st, k'))
        × Outcome early replies fr st k'
  unfolding relay_read relayed
  relay_read_lem k h armed = elim (recv_into_lem os k (valid (not (is_client k)))) [
    | got xs b runs p ↦
        let (st, k', e, out) = got_lem (is_client k) xs b k h armed p in (st, k', rw runs e, out)
    | waits runs ↦ (
      relay,
      called k,
      rw runs (rw (put_back (not (is_client k)) k) refl),
      stays refl (InRelay-called h),
    )
    | breaks runs ↦ (
      failed,
      called k,
      rw runs (rw (put_back (not (is_client k)) k) refl),
      gives_up refl (InRelay-called h).relaying,
    )
  ]
    where
      valid : (to : Bool) → IsValid (source to k.conn)
      valid true = h.relaying.write_valid
      valid false = h.relaying.read_valid
