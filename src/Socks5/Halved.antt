-- ===== src/Socks5/Halved.antt =====
-- What the half-closes of `relay_update` leave alone, and that no direction is left waiting.
use protos_tpe.Prelude.{
  ◌<◌, ◌≡◌, refl, ◌∙◌, Bool, true, false, ◌&&◌, ◌⊎◌, not, arith, Bool-cases, inl, inr,
}
use protos_tpe.Buffer.{Buffer, IsValid, can_read, can_write, compact}
use protos_tpe.Buffer.Laws.{compact_lem}
use protos_tpe.Socks5.{Conn, Key}
use protos_tpe.Socks5.Relay.{shut_origin, shut_client, compact_both, client_wants, origin_wants}
use protos_tpe.Socks5.Forward.{halved}

pub record Kept (k k' : Key) : Type 0 where
  pub read_buffer : k'.conn.read_buffer ≡ k.conn.read_buffer
  pub write_buffer : k'.conn.write_buffer ≡ k.conn.write_buffer
  pub client_interest : k'.conn.client_interest ≡ k.conn.client_interest
  pub origin_interest : k'.conn.origin_interest ≡ k.conn.origin_interest
  pub client_armed : k'.net.client_armed ≡ k.net.client_armed
  pub origin_armed : k'.net.origin_armed ≡ k.net.origin_armed
  pub client_closed : k'.conn.client_closed ≡ k.conn.client_closed
  pub origin_closed : k'.conn.origin_closed ≡ k.conn.origin_closed

abbrev all_kept : (k : Key) → Kept k k
all_kept k = record {
  read_buffer = refl;
  write_buffer = refl;
  client_interest = refl;
  origin_interest = refl;
  client_armed = refl;
  origin_armed = refl;
  client_closed = refl;
  origin_closed = refl;
}

-- A side whose stream has ended and whose bytes are all sent, with no half-close yet.
abbrev pub origin_due : Conn → Bool
origin_due c = c.client_closed && (not (can_read c.read_buffer) && not c.origin_wr_shut)

abbrev pub client_due : Conn → Bool
client_due c = c.origin_closed && (not (can_read c.write_buffer) && not c.client_wr_shut)

shut_origin-Kept :
    (k : Key)
    → Kept k (shut_origin k)
      × (origin_due (shut_origin k).conn ≡ false)
      × ((shut_origin k).conn.client_wr_shut ≡ k.conn.client_wr_shut)
unfolding shut_origin
shut_origin-Kept k = elim (Bool-cases (origin_due k.conn)) [
  | inl e ↦ rw e (
    record {
      read_buffer = refl;
      write_buffer = refl;
      client_interest = refl;
      origin_interest = refl;
      client_armed = refl;
      origin_armed = refl;
      client_closed = refl;
      origin_closed = refl;
    },
    ground arith,
    refl,
  )
  | inr e ↦ rw e (all_kept k, e, refl)
]

shut_client-Kept :
    (k : Key)
    → Kept k (shut_client k)
      × (client_due (shut_client k).conn ≡ false)
      × ((shut_client k).conn.origin_wr_shut ≡ k.conn.origin_wr_shut)
unfolding shut_client
shut_client-Kept k = elim (Bool-cases (client_due k.conn)) [
  | inl e ↦ rw e (
    record {
      read_buffer = refl;
      write_buffer = refl;
      client_interest = refl;
      origin_interest = refl;
      client_armed = refl;
      origin_armed = refl;
      client_closed = refl;
      origin_closed = refl;
    },
    ground arith,
    refl,
  )
  | inr e ↦ rw e (all_kept k, e, refl)
]

-- In a direction that is not half-closed, the source is read or the sink is written.
pub record Progress (c : Conn) : Type 0 where
  pub upload_moves :
      c.origin_wr_shut ≡ false
      → ((client_wants c).op_read ≡ true) ⊎ ((origin_wants c).op_write ≡ true)
  pub download_moves :
      c.client_wr_shut ≡ false
      → ((origin_wants c).op_read ≡ true) ⊎ ((client_wants c).op_write ≡ true)

-- An emptied buffer that begins at 0 has room.
emptied : (b : Buffer) → b.read ≡ 0 → 0 < b.limit → can_read b ≡ false → can_write b ≡ true
unfolding can_read can_write
emptied b z room e = ground arith

due-Progress :
    (c : Conn)
    → origin_due c ≡ false
    → client_due c ≡ false
    → (can_read c.read_buffer ≡ false → can_write c.read_buffer ≡ true)
    → (can_read c.write_buffer ≡ false → can_write c.write_buffer ≡ true)
    → Progress c
unfolding client_wants origin_wants
due-Progress c o d r w = record {
  upload_moves = λ open_. elim (Bool-cases (can_read c.read_buffer)) [
    | inl e ↦ inr (rw (e, open_) refl)
    | inr e ↦ inl (rw (r e) (ground arith))
  ];
  download_moves = λ open_. elim (Bool-cases (can_read c.write_buffer)) [
    | inl e ↦ inr (rw (e, open_) refl)
    | inr e ↦ inl (rw (w e) (ground arith))
  ];
}

module _ (k : Key) where
  pub halved-Kept : Kept (compact_both k) (halved k)
  halved-Kept =
      let (a, _, _) = shut_origin-Kept (compact_both k) in
      let (b, _, _) = shut_client-Kept (shut_origin (compact_both k)) in
      record {
        read_buffer = b.read_buffer ∙ a.read_buffer;
        write_buffer = b.write_buffer ∙ a.write_buffer;
        client_interest = b.client_interest ∙ a.client_interest;
        origin_interest = b.origin_interest ∙ a.origin_interest;
        client_armed = b.client_armed ∙ a.client_armed;
        origin_armed = b.origin_armed ∙ a.origin_armed;
        client_closed = b.client_closed ∙ a.client_closed;
        origin_closed = b.origin_closed ∙ a.origin_closed;
      }

  pub halved-Progress :
      IsValid k.conn.read_buffer
      → IsValid k.conn.write_buffer
      → 0 < k.conn.read_buffer.limit
      → 0 < k.conn.write_buffer.limit
      → Progress (halved k).conn
  halved-Progress rv wv rr wr =
      let k₁ = shut_origin (compact_both k) in
      let (a, due, _) = shut_origin-Kept (compact_both k) in
      let (b, due', same) = shut_client-Kept k₁ in
      let p = compact_lem rv in
      let q = compact_lem wv in
      let e : (halved k).conn.read_buffer ≡ compact k.conn.read_buffer =
        b.read_buffer ∙ a.read_buffer in
      let f : (halved k).conn.write_buffer ≡ compact k.conn.write_buffer =
        b.write_buffer ∙ a.write_buffer in
      due-Progress (halved k).conn (rw (b.client_closed, b.read_buffer, same) due) due'
        (rw e (emptied (compact k.conn.read_buffer) p.read_zero (omega (arith, p.same_limit))))
        (rw f (emptied (compact k.conn.write_buffer) q.read_zero (omega (arith, q.same_limit))))
