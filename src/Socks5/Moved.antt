-- ===== src/Socks5/Moved.antt =====
-- What a flush, a `recv` and the end of a stream leave of the bytes of the relay.
use protos_tpe.Prelude.{
  ℕ, ◌≡◌, refl, sym, ap, ◌∙◌, Bool, true, false, not, List, [], ◌∷◌, ◌++◌, append_assoc,
  if◌then◌else◌, arith,
}
use protos_tpe.Buffer.{Buffer, contents}
use protos_tpe.Buffer.Reads.{Took}
use protos_tpe.Buffer.Writes.{Pushed}
use protos_tpe.Socks5.{Key}
use protos_tpe.Socks5.Os.{log_received}
use protos_tpe.Socks5.Relay.{source, put_source, mark_closed}
use protos_tpe.Socks5.Flush.{flushed_key}
use protos_tpe.Socks5.Forward.{Frame, Relaying}

nil_of_append : (xs ys : List ℕ) → [] ≡ xs ++ ys → ys ≡ []
nil_of_append [] ys e = sym e
nil_of_append (x ∷ xs) ys e = absurd (cc e)

module _ {early replies : List ℕ} {fr : Frame} where
  -- A flush moves bytes from a buffer to the socket.
  pub flushed_key-Relaying :
      (to : Bool) (out : List ℕ) (calls : ℕ) (b : Buffer) (k : Key)
      → Took (source to k.conn) b out
      → Relaying early replies fr k.conn k.net
      → Relaying early replies fr
          (flushed_key to out calls b k).conn
          (flushed_key to out calls b k).net
  flushed_key-Relaying true out calls b k t h = record {
    framed = h.framed;
    read_valid = h.read_valid;
    write_valid = t.valid;
    read_room = h.read_room;
    write_room = omega (arith, t.same_limit, h.write_room);
    upload = h.upload;
    download =
        h.download
        ∙ ap (λ xs. k.net.to_client ++ xs) t.split
        ∙ sym (append_assoc k.net.to_client out (contents b));
    origin_half = h.origin_half;
    client_half = h.client_half;
    origin_after = h.origin_after;
    client_after = λ e.
        ((h.client_after e).0, nil_of_append out (contents b) (sym (h.client_after e).1 ∙ t.split));
  }
  flushed_key-Relaying false out calls b k t h = record {
    framed = h.framed;
    read_valid = t.valid;
    write_valid = h.write_valid;
    read_room = omega (arith, t.same_limit, h.read_room);
    write_room = h.write_room;
    upload =
        h.upload
        ∙ ap (λ xs. early ++ xs)
            (ap (λ xs. k.net.to_origin ++ xs) t.split
              ∙ sym (append_assoc k.net.to_origin out (contents b)));
    download = h.download;
    origin_half = h.origin_half;
    client_half = h.client_half;
    origin_after = λ e.
        ((h.origin_after e).0, nil_of_append out (contents b) (sym (h.origin_after e).1 ∙ t.split));
    client_after = h.client_after;
  }

  -- The bytes that come in wait in the buffer, if that side had not ended.
  pub received-Relaying :
      (from_client : Bool) (xs : List ℕ) (calls : ℕ) (b : Buffer) (k : Key)
      → (if from_client then k.conn.client_closed else k.conn.origin_closed) ≡ false
      → Pushed (source (not from_client) k.conn) b xs
      → Relaying early replies fr k.conn k.net
      → Relaying early replies fr
          (put_source (not from_client) b k.conn)
          (log_received from_client xs (record k.net { calls = calls }))
  received-Relaying true xs calls b k still p h = record {
    framed = h.framed;
    read_valid = p.valid;
    write_valid = h.write_valid;
    read_room = omega (arith, p.same_limit, h.read_room);
    write_room = h.write_room;
    upload =
        ap (λ ys. ys ++ xs) h.upload
        ∙ append_assoc early (k.net.to_origin ++ contents k.conn.read_buffer) xs
        ∙ ap (λ ys. early ++ ys)
            (append_assoc k.net.to_origin (contents k.conn.read_buffer) xs
              ∙ ap (λ ys. k.net.to_origin ++ ys) (sym p.grown));
    download = h.download;
    origin_half = h.origin_half;
    client_half = h.client_half;
    origin_after = λ e. absurd (cc ((h.origin_after e).0));
    client_after = h.client_after;
  }
  received-Relaying false xs calls b k still p h = record {
    framed = h.framed;
    read_valid = h.read_valid;
    write_valid = p.valid;
    read_room = h.read_room;
    write_room = omega (arith, p.same_limit, h.write_room);
    upload = h.upload;
    download =
        sym (append_assoc replies k.net.from_origin xs)
        ∙ ap (λ ys. ys ++ xs) h.download
        ∙ append_assoc k.net.to_client (contents k.conn.write_buffer) xs
        ∙ ap (λ ys. k.net.to_client ++ ys) (sym p.grown);
    origin_half = h.origin_half;
    client_half = h.client_half;
    origin_after = h.origin_after;
    client_after = λ e. absurd (cc ((h.client_after e).0));
  }

  pub mark_closed-Relaying :
      (from_client : Bool) (k : Key)
      → Relaying early replies fr k.conn k.net
      → Relaying early replies fr (mark_closed from_client k.conn) k.net
  mark_closed-Relaying true k h = record {
    framed = h.framed;
    read_valid = h.read_valid;
    write_valid = h.write_valid;
    read_room = h.read_room;
    write_room = h.write_room;
    upload = h.upload;
    download = h.download;
    origin_half = h.origin_half;
    client_half = h.client_half;
    origin_after = λ e. (refl, (h.origin_after e).1);
    client_after = h.client_after;
  }
  mark_closed-Relaying false k h = record {
    framed = h.framed;
    read_valid = h.read_valid;
    write_valid = h.write_valid;
    read_room = h.read_room;
    write_room = h.write_room;
    upload = h.upload;
    download = h.download;
    origin_half = h.origin_half;
    client_half = h.client_half;
    origin_after = h.origin_after;
    client_after = λ e. (refl, (h.client_after e).1);
  }
