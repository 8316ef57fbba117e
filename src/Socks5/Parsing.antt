-- ===== src/Socks5/Parsing.antt =====
-- `feed_parser` of server/socks5.c: what waits, then what comes.
use protos_tpe.Prelude.{
  ℕ, ◌+◌, ◌≡◌, refl, sym, ap, ◌∙◌, subst, Bool, true, false, Option, some, List, [], ◌∷◌, ◌++◌,
  arith, length, append-nil, append_assoc, ◌>>=◌, Bool-cases, inl, inr,
}
use protos_tpe.Buffer.{Buffer, IsValid, contents}
use protos_tpe.Buffer.Fed.{Fed, IsDrained, Pushed-IsDrained}
use protos_tpe.Socks5.{Conn, Key, Net, is_client, same_fd}
use protos_tpe.Socks5.Os.{Os, Io, io_ok, io_again, io_failed, recv_into}
use protos_tpe.Socks5.Phases.{
  Verdict, is_final, fill_read_buffer, feed_parser, feed_checked, feed_again, stays_open,
}
use protos_tpe.Socks5.Flush.{Receives, got, waits, breaks, recv_into_lem}
use protos_tpe.Socks5.Feeding.{Slot, FedKey, fed_key, nil_net, length_le, feed_once}

module _ {P : Type 0} {finished : P → Bool} {step : P → ℕ → P} {get : Conn → P}
    {put : P → Buffer → List ℕ → Conn → Conn} {fed : Conn → Option Conn} {verdict : Conn → Verdict}
    (os : Os) (slot : Slot finished step get put fed verdict) where
  -- The second `feed`, behind a `recv` that has brought `xs`.
  again :
      (k : Key) (p : P) (b d : Buffer) (xs gone : List ℕ)
      → finished p ≡ false
      → IsValid d
      → IsDrained d
      → d.limit ≡ k.conn.read_buffer.limit
      → contents k.conn.read_buffer ++ xs ≡ gone ++ contents d
      → feed_parser os fed verdict k ≡ (
          fed (put p d (k.conn.parsed ++ gone) k.conn) >>= λ c.
          some (true, record (fed_key put p d gone xs (k.net.calls + 1) k) { conn = c }))
      → FedKey finished get put (feed_parser os fed verdict k) k
  again k p b d xs gone more v dr lim split e =
      let g = k.conn.parsed ++ gone in
      let c = put p d g k.conn in
      let same = slot.buffer-put p d g k.conn in
      let (q, b', f, runs, empties, shorter) = feed_once os slot c (rw same v) (rw same dr) in
      let whole : fed c ≡ some (put q b' (k.conn.parsed ++ (gone ++ f.gone)) k.conn) =
        runs
        ∙ ap some (slot.put-put p q d b' g (c.parsed ++ f.gone) k.conn)
        ∙ ap (λ h. some (put q b' h k.conn))
            (ap (λ h. h ++ f.gone) (slot.parsed-put p d g k.conn)
              ∙ append_assoc k.conn.parsed gone f.gone) in
      let split' : contents d ≡ f.gone ++ contents b' = ap contents (sym same) ∙ f.split in
      record {
        alive = true;
        parser = q;
        buffer = b';
        came = xs;
        calls = k.net.calls + 1;
        runs = e ∙ rw whole refl;
        valid = f.valid;
        same_limit = f.same_limit ∙ ap (λ (x : Buffer). x.limit) same ∙ lim;
        drained = f.drained;
        gone = gone ++ f.gone;
        split = split ∙ ap (λ ys. gone ++ ys) split' ∙ sym (append_assoc gone f.gone (contents b'));
        emptied = λ _. empties;
        shorter = λ _ over.
            let less = shorter (ap finished (slot.get-put p d g k.conn) ∙ more) over in
            omega (
              arith,
              less,
              ap (λ (x : Buffer). length (contents x)) same,
              length_le v,
              f.same_limit,
              ap (λ (x : Buffer). x.limit) same,
            );
      }

  -- The half of `feed_parser` behind a first `feed` that wants more.
  half :
      (k : Key) (p : P) (b : Buffer) (g : List ℕ)
      → finished p ≡ false
      → fed k.conn ≡ some (put p b g k.conn)
      → feed_parser os fed verdict k
        ≡ (fill_read_buffer os (record k { conn = put p b g k.conn }) >>= feed_again fed)
  unfolding feed_parser feed_checked
  half k p b g more runs =
      let open_ : is_final (verdict (put p b g k.conn)) ≡ false =
        slot.verdicts (put p b g k.conn) ∙ ap finished (slot.get-put p b g k.conn) ∙ more in
      rw runs (rw open_ refl)

  filled :
      (k : Key) (p : P) (b d : Buffer) (g : List ℕ) (r : Io (List ℕ)) (net : Net)
      → recv_into os (record k { conn = put p b g k.conn }) b
        ≡ some (r, d, record k { conn = put p b g k.conn; net = net })
      → fill_read_buffer os (record k { conn = put p b g k.conn })
        ≡ some (stays_open r, record k { conn = put p d g k.conn; net = net })
  unfolding fill_read_buffer
  filled k p b d g r net e =
      subst
        (λ x.
          (◌>>=◌ {B = Bool × Key} (recv_into os (record k { conn = put p b g k.conn }) x)
            λ t. some (stays_open t.0, record t.2 { conn = record t.2.conn { read_buffer = t.1 } }))
          ≡ some (stays_open r, record k { conn = put p d g k.conn; net = net }))
        (sym (slot.buffer-put p b g k.conn))
        (rw e (
          ap (λ c. some (stays_open r, record k { conn = c; net = net }))
            (slot.refill p b d g k.conn)))

  -- The connection has closed.
  closed :
      (k : Key) (p : P) (b : Buffer)
      → finished p ≡ false
      → (f : Fed k.conn.read_buffer b)
      → (feed_parser os fed verdict k) ≡ some (false, fed_key put p b f.gone [] (k.net.calls + 1) k)
      → FedKey finished get put (feed_parser os fed verdict k) k
  closed k p b more f e = record {
    alive = false;
    parser = p;
    buffer = b;
    came = [];
    calls = k.net.calls + 1;
    runs = e;
    valid = f.valid;
    same_limit = f.same_limit;
    drained = f.drained;
    gone = f.gone;
    split = append-nil (contents k.conn.read_buffer) ∙ f.split;
    emptied = λ e. absurd (cc e);
    shorter = λ _ e. absurd (cc (more, e));
  }

  on_bytes :
      (k : Key) (p : P) (b d : Buffer) (xs gone : List ℕ)
      → finished p ≡ false
      → IsValid d
      → IsDrained d
      → d.limit ≡ k.conn.read_buffer.limit
      → contents k.conn.read_buffer ++ xs ≡ gone ++ contents d
      → feed_parser os fed verdict k
        ≡ feed_again fed (stays_open (io_ok xs), fed_key put p d gone xs (k.net.calls + 1) k)
      → FedKey finished get put (feed_parser os fed verdict k) k
  unfolding feed_again
  on_bytes k p b d [] gone more v dr lim split e = record {
    alive = false;
    parser = p;
    buffer = d;
    came = [];
    calls = k.net.calls + 1;
    runs = e;
    valid = v;
    same_limit = lim;
    drained = dr;
    gone = gone;
    split = split;
    emptied = λ e. absurd (cc e);
    shorter = λ _ e. absurd (cc (more, e));
  }
  on_bytes k p b d (x ∷ xs) gone more v dr lim split e =
      again k p b d (x ∷ xs) gone more v dr lim split e

  -- `recv` behind the first `feed`, which has left nothing.
  behind_recv :
      (k : Key) (p : P) (b : Buffer)
      → is_client k ≡ true
      → finished p ≡ false
      → contents b ≡ []
      → (f : Fed k.conn.read_buffer b)
      → fed k.conn ≡ some (put p b (k.conn.parsed ++ f.gone) k.conn)
      → Receives os (record k { conn = put p b (k.conn.parsed ++ f.gone) k.conn }) b
      → FedKey finished get put (feed_parser os fed verdict k) k
  behind_recv k p b cl more nil f runs (got xs d recvs pushed) =
      let net = record k.net { calls = k.net.calls + 1; from_client = k.net.from_client ++ xs } in
      let same : is_client (record k { conn = put p b (k.conn.parsed ++ f.gone) k.conn }) ≡ true =
        ap (same_fd k.fd) (slot.client-put p b (k.conn.parsed ++ f.gone) k.conn) ∙ cl in
      let recvs' : recv_into os (record k { conn = put p b (k.conn.parsed ++ f.gone) k.conn }) b
          ≡ some (
            io_ok xs,
            d,
            record k { conn = put p b (k.conn.parsed ++ f.gone) k.conn; net = net },
          ) =
        recvs ∙ rw same refl in
      let split : contents k.conn.read_buffer ++ xs ≡ f.gone ++ contents d =
        ap (λ ys. ys ++ xs) f.split
        ∙ append_assoc f.gone (contents b) xs
        ∙ ap (λ ys. f.gone ++ ys) (sym pushed.grown) in
      on_bytes k p b d xs f.gone more pushed.valid (Pushed-IsDrained pushed f.drained)
        (pushed.same_limit ∙ f.same_limit) split
        (half k p b (k.conn.parsed ++ f.gone) more runs
          ∙ rw (filled k p b d (k.conn.parsed ++ f.gone) (io_ok xs) net recvs') refl)
  behind_recv k p b cl more nil f runs (waits recvs) =
      let recvs' =
        recvs
        ∙ ap
            (λ n.
              some (
                io_again,
                b,
                record k { conn = put p b (k.conn.parsed ++ f.gone) k.conn; net = n },
              ))
            (nil_net k.net (k.net.calls + 1)) in
      again k p b b [] f.gone more f.valid f.drained f.same_limit
        (append-nil (contents k.conn.read_buffer) ∙ f.split)
        (half k p b (k.conn.parsed ++ f.gone) more runs
          ∙ rw (filled k p b b (k.conn.parsed ++ f.gone) io_again _ recvs')
              (unfold feed_again in refl))
  behind_recv k p b cl more nil f runs (breaks recvs) =
      let recvs' =
        recvs
        ∙ ap
            (λ n.
              some (
                io_failed,
                b,
                record k { conn = put p b (k.conn.parsed ++ f.gone) k.conn; net = n },
              ))
            (nil_net k.net (k.net.calls + 1)) in
      closed k p b more f (
        half k p b (k.conn.parsed ++ f.gone) more runs
        ∙ rw (filled k p b b (k.conn.parsed ++ f.gone) io_failed _ recvs')
            (unfold feed_again in refl))

  -- For a parser that stands in the connection as `Slot` says, an event on the client's descriptor,
  -- and a valid read buffer that begins at 0 when it is empty, `feed_parser` runs without a fault. It
  -- changes the parser, the read buffer, the count of the calls and the log of the client's bytes.
  -- The buffer is again valid, of its size, and begins at 0 when it is empty; what waited, then what
  -- has come, is what was taken, then what waits now. If the connection stays open and the parser is
  -- not at its end, nothing waits; a parser that gets to its end leaves a buffer that is not full.
  pub feed_parser_lem :
      (k : Key)
      → is_client k ≡ true
      → IsValid k.conn.read_buffer
      → IsDrained k.conn.read_buffer
      → FedKey finished get put (feed_parser os fed verdict k) k
  unfolding feed_parser feed_checked
  feed_parser_lem k cl v d =
      let (p, b, f, runs, empties, shorter) = feed_once os slot k.conn v d in
      elim (Bool-cases (finished p)) [
        | inr more ↦ behind_recv k p b cl more (empties more) f runs (
            recv_into_lem os (record k { conn = put p b (k.conn.parsed ++ f.gone) k.conn }) f.valid)
        | inl over ↦
            let final : is_final (verdict (put p b (k.conn.parsed ++ f.gone) k.conn)) ≡ true =
              slot.verdicts (put p b (k.conn.parsed ++ f.gone) k.conn)
              ∙ ap finished (slot.get-put p b (k.conn.parsed ++ f.gone) k.conn)
              ∙ over in
            record {
              alive = true;
              parser = p;
              buffer = b;
              came = [];
              calls = k.net.calls;
              runs = rw runs (
                  rw final (
                    ap
                      (λ n. some (
                        true,
                        record k { conn = put p b (k.conn.parsed ++ f.gone) k.conn; net = n },
                      ))
                      (nil_net k.net k.net.calls)));
              valid = f.valid;
              same_limit = f.same_limit;
              drained = f.drained;
              gone = f.gone;
              split = append-nil (contents k.conn.read_buffer) ∙ f.split;
              emptied = λ _. empties;
              shorter = λ more over. omega (arith, shorter more over, length_le v, f.same_limit);
            }
      ]
