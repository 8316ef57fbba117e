-- ===== src/Socks5/Relay.antt =====
-- server/socks5.c: the relay between the client and the origin.
use protos_tpe.Prelude.{
  ℕ, zero, suc, ◌-◌, Bool, true, false, ◌&&◌, not, Option, none, some, List, [], ◌∷◌, if◌then◌else◌,
  ◌>>=◌, length,
}
use protos_tpe.Buffer.{Buffer, can_read, can_write, compact}
use protos_tpe.Metrics.{bytes_client_to_origin, bytes_origin_to_client}
use protos_tpe.Selector.{Interest}
use protos_tpe.Socks5.{State, relay, finished, failed, Conn, Key, is_client, interest_eq}
use protos_tpe.Socks5.Os.{
  Os, Io, io_ok, io_again, io_failed, client_side, origin_side, set_interest, recv_into, send_from,
}

-- Half-closes: one side has ended and what it sent has gone out.
unfoldable pub shut_origin : Key → Key
shut_origin k =
    if k.conn.client_closed && (not (can_read k.conn.read_buffer) && not k.conn.origin_wr_shut)
    then record k {
      conn = record k.conn { origin_wr_shut = true };
      net = record k.net { origin_half_closed = true };
    }
    else k

unfoldable pub shut_client : Key → Key
shut_client k =
    if k.conn.origin_closed && (not (can_read k.conn.write_buffer) && not k.conn.client_wr_shut)
    then record k {
      conn = record k.conn { client_wr_shut = true };
      net = record k.net { client_half_closed = true };
    }
    else k

-- The interests `ci` and `oi`.
unfoldable pub client_wants : Conn → Interest
client_wants c = record {
  op_read = not c.client_closed && can_write c.read_buffer;
  op_write = can_read c.write_buffer && not c.client_wr_shut;
}

unfoldable pub origin_wants : Conn → Interest
origin_wants c = record {
  op_read = not c.origin_closed && can_write c.write_buffer;
  op_write = can_read c.read_buffer && not c.origin_wr_shut;
}

abbrev pub compact_both : Key → Key
compact_both k = record k {
  conn = record k.conn {
    read_buffer = compact k.conn.read_buffer;
    write_buffer = compact k.conn.write_buffer;
  };
}

abbrev pub is_failed : State → Bool
is_failed failed = true
is_failed _ = false

abbrev pub source : Bool → Conn → Buffer
source true c = c.write_buffer
source false c = c.read_buffer

abbrev pub put_source : Bool → Buffer → Conn → Conn
put_source true b c = record c { write_buffer = b }
put_source false b c = record c { read_buffer = b }

-- The bytes that came in are counted.
abbrev pub count_bytes : Bool → ℕ → Key → Key
count_bytes true n k = record k {
  server = record k.server { metrics = bytes_client_to_origin k.server.metrics n };
}
count_bytes false n k = record k {
  server = record k.server { metrics = bytes_origin_to_client k.server.metrics n };
}

-- The end of one side's stream.
abbrev pub mark_closed : Bool → Conn → Conn
mark_closed true c = record c { client_closed = true }
mark_closed false c = record c { origin_closed = true }

module _ (os : Os) where
  unfoldable pub arm_client : Key → Bool × Key
  arm_client k =
      let ci = client_wants k.conn in
      if interest_eq ci k.conn.client_interest
      then (true, k)
      else (let (ok, k₁) = set_interest os client_side ci k in
          if ok
          then (true, record k₁ { conn = record k₁.conn { client_interest = ci } })
          else (false, k₁))

  unfoldable pub arm_origin : Key → Bool × Key
  arm_origin k =
      let oi = origin_wants k.conn in
      if interest_eq oi k.conn.origin_interest
      then (true, k)
      else (let (ok, k₁) = set_interest os origin_side oi k in
          if ok
          then (true, record k₁ { conn = record k₁.conn { origin_interest = oi } })
          else (false, k₁))

  -- Both interests, the client's first.
  unfoldable pub arm_both : Key → State × Key
  arm_both k =
      let (ok, k₁) = arm_client k in
      if ok
      then (let (ok', k₂) = arm_origin k₁ in if ok' then (relay, k₂) else (failed, k₂))
      else (failed, k₁)

  -- `relay_update`
  unfoldable pub relay_update : Key → State × Key
  relay_update k =
      let k₁ = shut_client (shut_origin (compact_both k)) in
      if k₁.conn.client_wr_shut && k₁.conn.origin_wr_shut then (finished, k₁) else arm_both k₁

  -- `relay_init`
  unfoldable pub relay_init : Key → Key
  relay_init k =
      let (st, k₁) = relay_update (record k {
        conn = record k.conn {
          client_closed = false;
          origin_closed = false;
          client_wr_shut = false;
          origin_wr_shut = false;
        };
      }) in
      if is_failed st then record k₁ { conn = record k₁.conn { arrival_error = true } } else k₁

  -- The loop of `relay_flush`, with fuel for the rounds; the flag is false for ERROR.
  unfoldable pub flush_loop : ℕ → Bool → Key → Option (Bool × Key)
  flush_loop zero to_client k = none
  flush_loop (suc n) to_client k = elim (can_read (source to_client k.conn)) [
    | false ↦ some (true, k)
    | true ↦ (do
      (r, b, k₁) ← send_from os to_client (source to_client k.conn) k
      let k₂ = record k₁ { conn = put_source to_client b k₁.conn }
      elim r [
        | io_ok zero ↦ some (true, k₂)
        | io_ok (suc _) ↦ flush_loop n to_client k₂
        | io_again ↦ some (true, k₂)
        | io_failed ↦ some (false, k₂)
      ])
  ]

  -- `relay_flush`: each round that goes on takes a byte.
  unfoldable pub relay_flush : Bool → Key → Option (Bool × Key)
  relay_flush to_client k =
      let b = source to_client k.conn in flush_loop (suc (b.write - b.read)) to_client k

  -- Behind a flush.
  abbrev pub flushed : Bool × Key → State × Key
  flushed (ok, k) = if ok then relay_update k else (failed, k)

  -- `relay_read` behind `recv`
  unfoldable pub relayed : Bool → Io (List ℕ) → Key → Option (State × Key)
  relayed from_client (io_ok (x ∷ xs)) k = do
    r ← relay_flush (not from_client) (count_bytes from_client (length (x ∷ xs)) k)
    some (flushed r)
  relayed from_client (io_ok []) k =
      some (relay_update (record k { conn = mark_closed from_client k.conn }))
  relayed from_client io_again k = some (relay, k)
  relayed from_client io_failed k = some (failed, k)

  -- `relay_read`
  unfoldable pub relay_read : Key → Option (State × Key)
  relay_read k = do
    (r, b, k₁) ← recv_into os k (source (not (is_client k)) k.conn)
    relayed (is_client k) r (record k₁ { conn = put_source (not (is_client k)) b k₁.conn })

  -- `relay_write`
  unfoldable pub relay_write : Key → Option (State × Key)
  relay_write k = do r ← relay_flush (is_client k) k; some (flushed r)
