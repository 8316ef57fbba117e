-- ===== src/Socks5/Forward.antt =====
-- The relay of server/socks5.c forwards every byte in order: the invariant, and the steps that keep
-- it.
use protos_tpe.Prelude.{
  ℕ, ◌≡◌, refl, sym, ◌∙◌, subst, Bool, true, false, ◌&&◌, not, Option, List, [], ◌++◌, ◌<◌,
  Bool-cases, inl, inr, arith,
}
use protos_tpe.Buffer.{IsValid, contents, can_read}
use protos_tpe.Buffer.Laws.{compact_lem, can_read-false}
use protos_tpe.Auth.{Parser}
use protos_tpe.Socks5.{Conn, Key, Net}
use protos_tpe.Socks5.Relay.{shut_origin, shut_client, compact_both}
use protos_tpe.Socks5.Arming.{Rearmed}

-- What the relay leaves as it is.
abbrev pub Frame : Type 0
Frame = Option ℕ × Option ℕ × ℕ × Bool × Bool × Parser × List ℕ

abbrev pub frame : Conn → Frame
frame c = (c.client_fd, c.origin_fd, c.references, c.job, c.freed, c.auth, c.parsed)

-- What a connection in the relay has done: of the bytes from the client, the handshake took `early`
-- and the others have gone to the origin or wait in the read buffer, in their order; the client has
-- got the replies and the bytes from the origin, but for those that wait in the write buffer. A side
-- is half-closed only behind the end of the other's stream, with nothing left to send.
pub record Relaying (early replies : List ℕ) (fr : Frame) (c : Conn) (n : Net) : Type 0 where
  pub read_valid : IsValid c.read_buffer
  pub write_valid : IsValid c.write_buffer
  pub read_room : 0 < c.read_buffer.limit
  pub write_room : 0 < c.write_buffer.limit
  pub upload : n.from_client ≡ early ++ (n.to_origin ++ contents c.read_buffer)
  pub download : replies ++ n.from_origin ≡ n.to_client ++ contents c.write_buffer
  pub origin_half : n.origin_half_closed ≡ c.origin_wr_shut
  pub client_half : n.client_half_closed ≡ c.client_wr_shut
  pub origin_after :
      c.origin_wr_shut ≡ true → (c.client_closed ≡ true) × (contents c.read_buffer ≡ [])
  pub framed : frame c ≡ fr
  pub client_after :
      c.client_wr_shut ≡ true → (c.origin_closed ≡ true) × (contents c.write_buffer ≡ [])

-- The state behind the half-closes of `relay_update`.
abbrev pub halved : Key → Key
halved k = shut_client (shut_origin (compact_both k))

module _ {early replies : List ℕ} {fr : Frame} where
  compact_both-Relaying :
      (k : Key)
      → Relaying early replies fr k.conn k.net
      → Relaying early replies fr (compact_both k).conn (compact_both k).net
  compact_both-Relaying k h =
      let p = compact_lem h.read_valid in
      let q = compact_lem h.write_valid in
      record {
        framed = h.framed;
        read_valid = p.valid;
        write_valid = q.valid;
        read_room = omega (arith, p.same_limit, h.read_room);
        write_room = omega (arith, q.same_limit, h.write_room);
        upload = rw p.same h.upload;
        download = rw q.same h.download;
        origin_half = h.origin_half;
        client_half = h.client_half;
        origin_after = λ e. ((h.origin_after e).0, p.same ∙ (h.origin_after e).1);
        client_after = λ e. ((h.client_after e).0, q.same ∙ (h.client_after e).1);
      }

  shut_origin-Relaying :
      (k : Key)
      → Relaying early replies fr k.conn k.net
      → Relaying early replies fr (shut_origin k).conn (shut_origin k).net
  unfolding shut_origin
  shut_origin-Relaying k h =
      elim (Bool-cases (
        k.conn.client_closed && (not (can_read k.conn.read_buffer) && not k.conn.origin_wr_shut))) [
          | inr no_ ↦ rw no_ h
          | inl shut ↦
              let ended : k.conn.client_closed ≡ true = ground arith in
              let drained : can_read k.conn.read_buffer ≡ false = ground arith in
              rw shut (record {
                framed = h.framed;
                read_valid = h.read_valid;
                write_valid = h.write_valid;
                read_room = h.read_room;
                write_room = h.write_room;
                upload = h.upload;
                download = h.download;
                origin_half = refl;
                client_half = h.client_half;
                origin_after = λ _. (ended, can_read-false h.read_valid drained);
                client_after = h.client_after;
              })
        ]

  shut_client-Relaying :
      (k : Key)
      → Relaying early replies fr k.conn k.net
      → Relaying early replies fr (shut_client k).conn (shut_client k).net
  unfolding shut_client
  shut_client-Relaying k h =
      elim (Bool-cases (
        k.conn.origin_closed
        && (not (can_read k.conn.write_buffer) && not k.conn.client_wr_shut))) [
          | inr no_ ↦ rw no_ h
          | inl shut ↦
              let ended : k.conn.origin_closed ≡ true = ground arith in
              let drained : can_read k.conn.write_buffer ≡ false = ground arith in
              rw shut (record {
                framed = h.framed;
                read_valid = h.read_valid;
                write_valid = h.write_valid;
                read_room = h.read_room;
                write_room = h.write_room;
                upload = h.upload;
                download = h.download;
                origin_half = h.origin_half;
                client_half = refl;
                origin_after = h.origin_after;
                client_after = λ _. (ended, can_read-false h.write_valid drained);
              })
        ]

  pub halved-Relaying :
      (k : Key)
      → Relaying early replies fr k.conn k.net
      → Relaying early replies fr (halved k).conn (halved k).net
  halved-Relaying k h =
      shut_client-Relaying (shut_origin (compact_both k))
        (shut_origin-Relaying (compact_both k) (compact_both-Relaying k h))

  pub Rearmed-Relaying :
      {k k' : Key}
      → Rearmed k k'
      → Relaying early replies fr k.conn k.net
      → Relaying early replies fr k'.conn k'.net
  Rearmed-Relaying r h =
      subst (λ j. Relaying early replies fr j.conn j.net) (sym r.same)
        (record {
          framed = h.framed;
          read_valid = h.read_valid;
          write_valid = h.write_valid;
          read_room = h.read_room;
          write_room = h.write_room;
          upload = h.upload;
          download = h.download;
          origin_half = h.origin_half;
          client_half = h.client_half;
          origin_after = h.origin_after;
          client_after = h.client_after;
        })
