-- ===== src/Socks5/Flush.antt =====
-- The loop of `relay_flush`, and `recv`, as what they do to the bytes.
use protos_tpe.Prelude.{
  ℕ, zero, suc, ◌+◌, ◌-◌, ◌<◌, ◌≡◌, refl, sym, ap, ◌∙◌, Bool, true, false, some, List, [], ◌++◌,
  arith, length, take, length-append, length-take, append_assoc, Bool-cases, inl, inr, subst,
}
use protos_tpe.Buffer.{Buffer, IsValid, contents, can_read}
use protos_tpe.Buffer.Laws.{length-contents}
use protos_tpe.Buffer.Reads.{Took}
use protos_tpe.Buffer.Writes.{Pushed, fill_room}
use protos_tpe.Socks5.{Conn, Key, is_client}
use protos_tpe.Socks5.Os.{
  Os, Io, io_ok, io_again, io_failed, called, log_sent, log_received, recv_into,
}
use protos_tpe.Socks5.Relay.{source, put_source, flush_loop}
use protos_tpe.Socks5.Sends.{
  log_sent-nil, log_sent-append, sent_key, Says, Sends, send_from_lem, write_ptr_lem,
}

-- The key when `out` has gone out of the buffer that is drained to that side.
abbrev pub flushed_key : Bool → List ℕ → ℕ → Buffer → Key → Key
flushed_key to out c b k = record k {
  conn = put_source to b k.conn;
  net = log_sent to out (record k.net { calls = c });
}

source-put_source : (to : Bool) (b : Buffer) (c : Conn) → source to (put_source to b c) ≡ b
source-put_source true b c = refl
source-put_source false b c = refl

flushed_key-flushed_key :
    (to : Bool) (xs ys : List ℕ) (m n : ℕ) (b b' : Buffer) (k : Key)
    → flushed_key to ys n b' (flushed_key to xs m b k) ≡ flushed_key to (xs ++ ys) n b' k
flushed_key-flushed_key true xs ys m n b b' k =
    ap (λ net. record k { conn = put_source true b' k.conn; net = net })
      (log_sent-append true xs ys (record k.net { calls = n }))
flushed_key-flushed_key false xs ys m n b b' k =
    ap (λ net. record k { conn = put_source false b' k.conn; net = net })
      (log_sent-append false xs ys (record k.net { calls = n }))

unchanged : (to : Bool) (k : Key) → flushed_key to [] k.net.calls (source to k.conn) k ≡ k
unchanged true k = ap (λ n. record k { net = n }) (log_sent-nil true k.net)
unchanged false k = ap (λ n. record k { net = n }) (log_sent-nil false k.net)

pub Took-refl : {b : Buffer} → IsValid b → Took b b []
Took-refl v = record { valid = v; split = refl; same_limit = refl; drained = λ d. d }

pub Took-trans : {a b c : Buffer} {xs ys : List ℕ} → Took a b xs → Took b c ys → Took a c (xs ++ ys)
Took-trans {c = c} {xs = xs} {ys = ys} p q = record {
  valid = q.valid;
  split = p.split ∙ ap (λ zs. xs ++ zs) q.split ∙ sym (append_assoc xs ys (contents c));
  same_limit = q.same_limit ∙ p.same_limit;
  drained = λ d. q.drained (p.drained d);
}

pub record Flushes (os : Os) (n : ℕ) (to : Bool) (k : Key) : Type 0 where
  pub fine : Bool
  pub calls : ℕ
  pub out : List ℕ
  pub behind : Buffer
  pub runs : flush_loop os n to k ≡ some (fine, flushed_key to out calls behind k)
  pub took : Took (source to k.conn) behind out

-- The buffer that a `send` has left is put back.
after_send : Bool → List ℕ → Buffer → Key → Key
after_send to out b k = flushed_key to out (k.net.calls + 1) b k

module _ (os : Os) where
  stops :
      (n : ℕ) (to : Bool) (k : Key)
      → IsValid (source to k.conn)
      → can_read (source to k.conn) ≡ false
      → Flushes os (suc n) to k
  unfolding flush_loop
  stops n to k v e = record {
    fine = true;
    calls = k.net.calls;
    out = [];
    behind = source to k.conn;
    runs = rw (e, flush_loop) (ap (λ k'. some (true, k')) (sym (unchanged to k)));
    took = Took-refl v;
  }

  ends :
      (n : ℕ) (to : Bool) (k : Key) (fine : Bool)
      → (s : Sends os to (source to k.conn) k)
      → flush_loop os n to k ≡ some (fine, after_send to s.out s.behind k)
      → Flushes os n to k
  unfolding after_send
  ends n to k fine s e = record {
    fine = fine;
    calls = k.net.calls + 1;
    out = s.out;
    behind = s.behind;
    runs = e;
    took = s.took;
  }

  goes_on :
      (n : ℕ) (to : Bool) (k : Key)
      → (s : Sends os to (source to k.conn) k)
      → flush_loop os (suc n) to k ≡ flush_loop os n to (after_send to s.out s.behind k)
      → Flushes os n to (after_send to s.out s.behind k)
      → Flushes os (suc n) to k
  unfolding after_send
  goes_on n to k s e f = record {
    fine = f.fine;
    calls = f.calls;
    out = s.out ++ f.out;
    behind = f.behind;
    runs =
        e
        ∙ f.runs
        ∙ ap (λ k'. some (f.fine, k'))
            (flushed_key-flushed_key to s.out f.out (k.net.calls + 1) f.calls s.behind f.behind k);
    took = Took-trans s.took (
        subst (λ b. Took b f.behind f.out)
          (source-put_source to s.behind (sent_key to s.out (k.net.calls + 1) k).conn) f.took);
  }

  round :
      (n : ℕ) (to : Bool) (k : Key) (r : Io ℕ)
      → (s : Sends os to (source to k.conn) k) → s.result ≡ r
      → can_read (source to k.conn) ≡ true
      → (Says r s.out
          → (m : ℕ) → r ≡ io_ok (suc m)
          → Flushes os n to (after_send to s.out s.behind k))
      → Flushes os (suc n) to k
  unfolding flush_loop after_send
  round n to k (io_ok zero) s e h more =
      ends (suc n) to k true s (rw (h, flush_loop) (rw s.runs (rw (e, flush_loop) refl)))
  round n to k (io_ok (suc m)) s e h more =
      goes_on n to k s (rw (h, flush_loop) (rw s.runs (rw (e, flush_loop) refl)))
        (more (subst (λ x. Says x s.out) e s.says) m refl)
  round n to k io_again s e h more =
      ends (suc n) to k true s (rw (h, flush_loop) (rw s.runs (rw (e, flush_loop) refl)))
  round n to k io_failed s e h more =
      ends (suc n) to k false s (rw (h, flush_loop) (rw s.runs (rw (e, flush_loop) refl)))

  -- With more rounds than bytes the loop ends: it has sent some of the bytes from the front, in
  -- their order.
  flush_loop_lem :
      (n : ℕ) (to : Bool) (k : Key)
      → IsValid (source to k.conn)
      → length (contents (source to k.conn)) < n
      → Flushes os n to k
  unfolding after_send
  flush_loop_lem zero to k v h = absurd (omega arith)
  flush_loop_lem (suc n) to k v h = elim (Bool-cases (can_read (source to k.conn))) [
    | inr empty ↦ stops n to k v empty
    | inl some_left ↦
        let s = send_from_lem os to k v in
        let same = source-put_source to s.behind (sent_key to s.out (k.net.calls + 1) k).conn in
        round n to k s.result s refl some_left λ says m e.
          flush_loop_lem n to (after_send to s.out s.behind k) (rw same s.took.valid) (
            rw same (
              omega (
                arith,
                ap (length {A = ℕ}) s.took.split,
                length-append s.out (contents s.behind),
                subst (λ x. Says x s.out) e says,
              )))
  ]

  -- `relay_flush` ends.
  pub relay_flush_lem :
      (to : Bool) (k : Key)
      → IsValid (source to k.conn)
      → Flushes os (suc ((source to k.conn).write - (source to k.conn).read)) to k
  relay_flush_lem to k v = flush_loop_lem _ to k v (omega (arith, length-contents v))

-- What `recv_into` has put into the buffer.
pub data Receives (os : Os) (k : Key) (b : Buffer) : Type 0 where
  got :
      (xs : List ℕ) (b' : Buffer)
      → recv_into os k b
        ≡ some (
          io_ok xs,
          b',
          record k {
            net = log_received (is_client k) xs (record k.net { calls = k.net.calls + 1 });
          },
        )
      → Pushed b b' xs
      → Receives os k b
  waits : recv_into os k b ≡ some (io_again, b, called k) → Receives os k b
  breaks : recv_into os k b ≡ some (io_failed, b, called k) → Receives os k b

module _ (os : Os) where
  recv_answer :
      (k : Key) {b : Buffer} (r : Io (List ℕ))
      → IsValid b
      → os.recv k.net.calls ≡ r
      → Receives os k b
  unfolding recv_into
  recv_answer k {b} (io_ok bytes) v e =
      let xs = take (b.limit - b.write) bytes in
      let (b', runs, p) = fill_room xs v (omega (arith, length-take (b.limit - b.write) bytes)) in
      got xs b' (rw (write_ptr_lem v) (rw (e, recv_into) (rw runs refl))) p
  recv_answer k io_again v e = waits (rw (write_ptr_lem v) (rw (e, recv_into) refl))
  recv_answer k io_failed v e = breaks (rw (write_ptr_lem v) (rw (e, recv_into) refl))

  -- `recv` into a valid buffer appends what came in, which fits.
  pub recv_into_lem : (k : Key) {b : Buffer} → IsValid b → Receives os k b
  recv_into_lem k v = recv_answer k (os.recv k.net.calls) v refl
