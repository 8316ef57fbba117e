-- ===== src/Mgmt/Answer.antt =====
-- The answer to one input line ends, in a valid output buffer, and leaves the input alone.
use protos_tpe.Prelude.{
  ℕ, ◌≡◌, refl, Bool, true, false, ◌||◌, not, ◌⊎◌, Option, some, List, arith, inl, inr,
}
use protos_tpe.Buffer.{IsValid}
use protos_tpe.Line as Line
use protos_tpe.Line.{LineState, incomplete, ready, too_long, invalid_line}
use protos_tpe.Text.{codes}
use protos_tpe.Mgmt.Output.{out_printf_lem}
use protos_tpe.Mgmt.Framing.{outcome, handle_line-IsValid}
use protos_tpe.Mgmt.Connection.{Conn, c_string, answer, serve}

module _ (read_file : List ℕ → Option (List ℕ)) where
  -- What an answer leaves alone, and that the output stays valid.
  pub record Answered (c c' : Conn) : Type 0 where
    pub valid : IsValid c'.write_buffer
    pub same_input : c'.read_buffer ≡ c.read_buffer

  answer_lem :
      (st : LineState) {c : Conn}
      → IsValid c.write_buffer
      → (c' : Conn) × (answer read_file st c ≡ some c') × Answered c c'
  unfolding answer
  answer_lem ready {c} v =
      let o = outcome read_file c.session (c_string c.parser.line) in
      let (out, runs, w) = handle_line-IsValid read_file c.session (c_string c.parser.line) v in
      let c' = record c {
        session = o.session;
        write_buffer = out;
        close_after_write = c.close_after_write || o.close;
      } in
      (c', rw runs refl, record { valid = w; same_input = refl })
  answer_lem too_long {c} v =
      let (out, runs, p) = out_printf_lem (codes "-ERR line too long\n") v in
      (record c { write_buffer = out }, rw runs refl, record { valid = p.valid; same_input = refl })
  answer_lem incomplete {c} v =
      let (out, runs, p) = out_printf_lem (codes "-ERR invalid\n") v in
      (record c { write_buffer = out }, rw runs refl, record { valid = p.valid; same_input = refl })
  answer_lem invalid_line {c} v =
      let (out, runs, p) = out_printf_lem (codes "-ERR invalid\n") v in
      (record c { write_buffer = out }, rw runs refl, record { valid = p.valid; same_input = refl })

  -- One round ends the loop only without a whole line or with the close of the session.
  pub record Served (st : LineState) (c next : Conn) (more : Bool) : Type 0 where
    pub answered : Answered c next
    pub ended : more ≡ false → (Line.finished_state st ≡ false) ⊎ (next.close_after_write ≡ true)

  not-false : (b : Bool) → not b ≡ false → b ≡ true
  not-false b h = ground arith

  settled : Conn → Conn
  settled c = record c { parser = Line.init c.parser }

  serve-answer :
      (st : LineState) (c c' : Conn)
      → Line.finished_state st ≡ true
      → answer read_file st c ≡ some c'
      → serve read_file st c ≡ some (not c'.close_after_write, settled c')
  unfolding serve settled
  serve-answer incomplete c c' h e = absurd (cc h)
  serve-answer ready c c' h e = rw e refl
  serve-answer too_long c c' h e = rw e refl
  serve-answer invalid_line c c' h e = rw e refl

  serve_whole :
      (st : LineState) {c : Conn}
      → Line.finished_state st ≡ true
      → IsValid c.write_buffer
      → (more : Bool) × (next : Conn) × (serve read_file st c ≡ some (more, next))
        × Served st c next more
  unfolding settled
  serve_whole st {c} h v =
      let (c', runs, w) = answer_lem st {c = c} v in
      (
        not c'.close_after_write,
        settled c',
        serve-answer st c c' h runs,
        record {
          answered = record { valid = w.valid; same_input = w.same_input };
          ended = λ e. inr (not-false c'.close_after_write e);
        },
      )

  pub serve_lem :
      (st : LineState) {c : Conn}
      → IsValid c.write_buffer
      → (more : Bool) × (next : Conn) × (serve read_file st c ≡ some (more, next))
        × Served st c next more
  serve_lem incomplete {c} v = (
    false,
    c,
    unfold serve in refl,
    record { answered = record { valid = v; same_input = refl }; ended = λ h. inl refl },
  )
  serve_lem ready v = serve_whole ready refl v
  serve_lem too_long v = serve_whole too_long refl v
  serve_lem invalid_line v = serve_whole invalid_line refl v
