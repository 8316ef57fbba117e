-- ===== src/Mgmt/Loop.antt =====
-- The loop over the input lines ends, without a fault, and serves what it can.
use protos_tpe.Prelude.{
  ℕ, zero, suc, ◌-◌, ◌≤◌, ◌<◌, ◌≡◌, ◌≢◌, refl, ap, ◌∙◌, sym, Bool, true, false, ◌&&◌, not, Option,
  some, List, [], ◌∷◌, arith, if◌then◌else◌, length, Bool-cases, inl, inr,
}
use protos_tpe.Buffer.{Buffer, IsValid, contents, can_read}
use protos_tpe.Buffer.Laws.{Popped, length-contents, can_read-false, can_read-nil}
use protos_tpe.Buffer.Feed.{consume, consume_unfinished, consume_more, feed_lem}
use protos_tpe.Line as Line
use protos_tpe.Line.{LineState, incomplete, ready, too_long, invalid_line}
use protos_tpe.Mgmt.Connection.{Conn, has_output, serve, process_lines, process_input_lines}
use protos_tpe.Mgmt.Answer.{serve_lem}

-- Both buffers are valid, and an empty input buffer is at its start, as `buffer_read` leaves it.
pub record IsReady (c : Conn) : Type 0 where
  pub input : IsValid c.read_buffer
  pub output : IsValid c.write_buffer
  pub drained : contents c.read_buffer ≡ [] → c.read_buffer.write ≡ 0

-- The reason for which the loop has ended.
pub data IsDone (c : Conn) : Type 0 where
  no_input : contents c.read_buffer ≡ [] → IsDone c
  output_pending : has_output c ≡ true → IsDone c
  closing : c.close_after_write ≡ true → IsDone c

module _ (read_file : List ℕ → Option (List ℕ)) where
  length-consume :
      (xs : List ℕ) (s : Line.Parser × LineState)
      → length (consume Line.finished Line.step s xs).1 ≤ length xs
  unfolding consume
  length-consume [] s = omega arith
  length-consume (x ∷ xs) s = ground (arith, length-consume xs (Line.step s x))

  -- An unfinished parser takes at least one byte.
  length-consume_less :
      (xs : List ℕ) (p : Line.Parser)
      → xs ≢ []
      → length (consume Line.finished Line.step (p, incomplete) xs).1 < length xs
  length-consume_less [] p h = absurd (h refl)
  length-consume_less (x ∷ xs) p h =
      rw (consume_more Line.finished Line.step (p, incomplete) x xs refl)
        (omega (arith, length-consume xs (Line.step (p, incomplete) x)))

  process_lines_stop :
      (k : ℕ) (c : Conn)
      → (can_read c.read_buffer && not (has_output c)) ≡ false
      → process_lines read_file (suc k) c ≡ some c
  unfolding process_lines
  process_lines_stop k c h = rw (h, process_lines) refl

  process_lines_more :
      (k : ℕ) (c : Conn) {p : Line.Parser} {st : LineState} {rest : Buffer} {more : Bool}
      {next : Conn}
      → (can_read c.read_buffer && not (has_output c)) ≡ true
      → Line.parser_feed c.parser c.read_buffer ≡ some ((p, st), rest)
      → serve read_file st (record c { parser = p; read_buffer = rest }) ≡ some (more, next)
      → process_lines read_file (suc k) c
        ≡ (if more then process_lines read_file k next else some next)
  unfolding process_lines
  process_lines_more k c {more = more} h e s =
      rw (h, process_lines) (rw (e, process_lines) (rw (s, process_lines) (ground arith)))

  -- Where the loop ends.
  record Ended (c' : Conn) : Type 0 where
    again : IsReady c'
    reason : IsDone c'

  Ends : ℕ → Conn → Type 0
  Ends k c = (c' : Conn) × (process_lines read_file k c ≡ some c') × Ended c'

  stop_reason :
      (c : Conn) → IsReady c → (can_read c.read_buffer && not (has_output c)) ≡ false → IsDone c
  stop_reason c r h = elim (Bool-cases (can_read c.read_buffer)) [
    | inl readable ↦ output_pending (ground arith)
    | inr not_readable ↦ no_input (can_read-false r.input not_readable)
  ]

  -- The state behind one round.
  record Round (c : Conn) (k : ℕ) : Type 0 where
    more : Bool
    next : Conn
    goes :
        process_lines read_file (suc k) c
        ≡ (if more then process_lines read_file k next else some next)
    again : IsReady next
    shorter : length (contents next.read_buffer) < length (contents c.read_buffer)
    reason : more ≡ false → IsDone next

  line_feed :
      (p : Line.Parser) {b : Buffer}
      → IsValid b
      → (contents b ≡ [] → b.write ≡ 0)
      → (b' : Buffer) × (Line.parser_feed p b
          ≡ some ((consume Line.finished Line.step (p, incomplete) (contents b)).0, b'))
        × Popped b b' (consume Line.finished Line.step (p, incomplete) (contents b)).1
  unfolding Line.parser_feed
  line_feed p v t = feed_lem Line.finished Line.step (p, incomplete) v t

  readable_cons : (b : Buffer) → IsValid b → can_read b ≡ true → contents b ≢ []
  readable_cons b v h nil = absurd (cc (h, can_read-nil v nil))

  round :
      (k : ℕ) (c : Conn)
      → IsReady c
      → (can_read c.read_buffer && not (has_output c)) ≡ true
      → Round c k
  round k c r h =
      let xs = contents c.read_buffer in
      let out = consume Line.finished Line.step (c.parser, incomplete) xs in
      let (rest, feeds, q) = line_feed c.parser r.input r.drained in
      let fed = record c { parser = out.0.0; read_buffer = rest } in
      let (more, next, served, w) = serve_lem read_file out.0.1 {c = fed} r.output in
      let same = w.answered.same_input in
      let left : contents next.read_buffer ≡ out.1 = ap contents same ∙ q.left in
      let some_input = readable_cons c.read_buffer r.input (ground arith) in
      record {
        more = more;
        next = next;
        goes = process_lines_more k c h feeds served;
        again = record {
          input = rw same q.valid;
          output = w.answered.valid;
          drained = rw same (λ nil. q.drained (sym q.left ∙ nil));
        };
        shorter = rw left (length-consume_less xs c.parser some_input);
        reason = λ e. elim (w.ended e) [
          | inl unfinished ↦ no_input (
              left
              ∙ consume_unfinished Line.finished Line.step xs (c.parser, incomplete) unfinished)
          | inr close ↦ closing close
        ];
      }

  process_lines_lem :
      (k : ℕ) (c : Conn) → IsReady c → length (contents c.read_buffer) < k → Ends k c
  unfolding Ends
  process_lines_lem zero c r h = absurd (omega arith)
  process_lines_lem (suc k) c r h =
      elim (Bool-cases (can_read c.read_buffer && not (has_output c))) [
        | inl go ↦
            (let d = round k c r go in
              elim (Bool-cases d.more) [
                | inl more ↦
                    (let (c', runs, e) =
                        process_lines_lem k d.next d.again (omega (arith, d.shorter)) in
                      (c', d.goes ∙ rw more runs, e))
                | inr last ↦ (
                  d.next,
                  d.goes ∙ rw last refl,
                  record { again = d.again; reason = d.reason last },
                )
              ])
        | inr stop ↦
            (c, process_lines_stop k c stop, record { again = r; reason = stop_reason c r stop })
      ]

  -- On valid buffers the loop ends without a fault, leaves valid buffers, and has a reason to end: no
  -- input is left, output waits to be sent, or the session closes.
  pub process_input_lines_lem :
      (c : Conn)
      → IsReady c
      → (c' : Conn) × (process_input_lines read_file c ≡ some c') × IsReady c' × IsDone c'
  unfolding process_input_lines Ends
  process_input_lines_lem c r =
      let k = suc (c.read_buffer.write - c.read_buffer.read) in
      let (c', runs, e) = process_lines_lem k c r (omega (arith, length-contents r.input)) in
      (c', runs, e.again, e.reason)
