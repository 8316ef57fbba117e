-- ===== src/Socks5/Writing.antt =====
-- The write handlers of the handshake on the connection: what they keep.
use protos_tpe.Prelude.{
  ℕ, ◌+◌, ◌<◌, ◌≡◌, refl, ap, subst, Bool, Option, some, List, [], arith, ◌==◌, Bool-cases, inl,
  inr, length, length-append,
}
use protos_tpe.Buffer.{Buffer, IsValid, contents, can_read}
use protos_tpe.Buffer.Laws.{can_read-false}
use protos_tpe.Buffer.Reads.{Took, can_read_iff}
use protos_tpe.Socks5.{State, failed, Key}
use protos_tpe.Socks5.Os.{Os, Io, io_ok, io_again, io_failed}
use protos_tpe.Socks5.Phases.{sent_reply, send_reply}
use protos_tpe.Socks5.Sends.{Sends, Says, sent_key, send_from_lem}
use protos_tpe.Socks5.Holds.{Buffers}

-- The key behind a `send` of a reply.
abbrev pub replied_key : Bool → List ℕ → Buffer → Key → Key
replied_key to out b k =
    let k₁ = sent_key to out (k.net.calls + 1) k in
    record k₁ { conn = record k₁.conn { write_buffer = b } }

-- What became of the reply.
pub data Sent (to : Bool) (m : Option (State × Key)) (here : State) (next : Key → State × Key)
    (k : Key) : Type 0 where
  waits :
      (out : List ℕ) (b : Buffer)
      → m ≡ some (here, replied_key to out b k)
      → Took k.conn.write_buffer b out
      → 0 < length (contents b)
      → Sent to m here next k
  goes :
      (out : List ℕ) (b : Buffer)
      → m ≡ some (next (replied_key to out b k))
      → Took k.conn.write_buffer b out
      → contents b ≡ []
      → Sent to m here next k
  breaks :
      (out : List ℕ) (b : Buffer)
      → m ≡ some (failed, replied_key to out b k)
      → Sent to m here next k

module _ (os : Os) (here : State) (next : Key → State × Key) where
  result_lem :
      (to : Bool) (k : Key) (r : Io ℕ) (s : Sends os to k.conn.write_buffer k)
      → s.result ≡ r
      → 0 < length (contents k.conn.write_buffer)
      → Sent to (some (sent_reply here next r (replied_key to s.out s.behind k))) here next k
  result_lem to k (io_ok n) s e pending = elim (Bool-cases (n == 0)) [
    | inl none_ ↦ rw none_ (breaks s.out s.behind refl)
    | inr some_ ↦ elim (Bool-cases (can_read s.behind)) [
      | inl more ↦
          rw (some_, more)
            (waits s.out s.behind refl s.took (can_read_iff s.behind s.took.valid more))
      | inr empty ↦
          rw (some_, empty) (goes s.out s.behind refl s.took (can_read-false s.took.valid empty))
    ]
  ]
  result_lem to k io_again s e pending =
      let nothing : s.out ≡ [] = subst (λ x. Says x s.out) e s.says in
      waits s.out s.behind refl s.took (
        omega (
          arith,
          ap (length {A = ℕ}) s.took.split,
          length-append s.out (contents s.behind),
          ap (length {A = ℕ}) nothing,
        ))
  result_lem to k io_failed s e pending = breaks s.out s.behind refl

  -- A part of the reply goes out, or all of it, or the connection fails.
  pub send_reply_lem :
      (to : Bool) (k : Key)
      → IsValid k.conn.write_buffer
      → 0 < length (contents k.conn.write_buffer)
      → Sent to (send_reply os here next to k) here next k
  unfolding send_reply
  send_reply_lem to k v pending =
      let s = send_from_lem os to k v in rw s.runs (result_lem to k s.result s refl pending)

pub sent_Buffers : {rb wb b : Buffer} {out : List ℕ} → Buffers rb wb → Took wb b out → Buffers rb b
sent_Buffers h t = record {
  read_valid = h.read_valid;
  read_drained = h.read_drained;
  read_size = h.read_size;
  write_valid = t.valid;
  write_drained = t.drained h.write_drained;
  write_size = omega (arith, t.same_limit, h.write_size);
}
