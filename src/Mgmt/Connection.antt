-- ===== src/Mgmt/Connection.antt =====
-- The connection of server/mgmt.c: the loop over the input lines, the flush, and the handlers of the
-- selector. What `recv` and `send` answer is an input; what a handler asks of the selector is a
-- value.
use protos_tpe.Prelude.{
  ℕ, zero, suc, ◌-◌, Bool, true, false, ◌&&◌, ◌||◌, not, Option, none, some, List, [], ◌∷◌, ◌==◌,
  if◌then◌else◌, ◌>>=◌, pos, replicate,
}
use protos_tpe.Buffer as Buf
use protos_tpe.Buffer.{Buffer, can_read, can_write, compact, fill, read_adv}
use protos_tpe.Line as Line
use protos_tpe.Line.{LineState, incomplete, ready, too_long, invalid_line}
use protos_tpe.Text.{codes}
use protos_tpe.Mgmt.{Session, Deps, session_init, out_printf}
use protos_tpe.Mgmt.Dispatch.{handle_line}

-- `struct mgmt_conn`
pub record Conn : Type 0 where
  pub session : Session
  pub parser : Line.Parser
  pub read_buffer : Buffer
  pub write_buffer : Buffer
  pub close_after_write : Bool

abbrev pub output_size : ℕ
output_size = 55296

-- The connection that `mgmt_passive_accept` sets up on zeroed memory.
unfoldable pub accepted : Deps → Conn
accepted deps = record {
  session = session_init deps;
  parser =
      Line.init
        (record { line = replicate Line.line_max 0; len = 0; overflow = false; invalid = false });
  read_buffer = Buf.init Line.line_max (replicate Line.line_max 0);
  write_buffer = Buf.init output_size (replicate output_size 0);
  close_after_write = false;
}

abbrev pub has_output : Conn → Bool
has_output c = can_read c.write_buffer

-- The text in an array: the bytes before the first NUL.
abbrev pub c_string : List ℕ → List ℕ
c_string [] = []
c_string (c ∷ cs) = if c == 0 then [] else c ∷ c_string cs

-- What `recv` answers; `eof` is 0.
pub data Received : Type 0 where
  received : List ℕ → Received
  eof recv_blocked recv_failed : Received

-- What `send` answers.
pub data Sent : Type 0 where
  sent : ℕ → Sent
  send_blocked send_failed : Sent

-- What a handler asks of the selector last.
pub data Request : Type 0 where
  interest_read interest_write unregister no_request : Request

-- `mgmt_flush`, with the answers of `send` in their order; one after the last of them would block.
-- The flag is false if the connection is unregistered.
unfoldable pub flush : List Sent → Conn → Option (Bool × List Sent × Conn)
flush [] c = some (true, [], c)
flush (r ∷ rs) c = elim (has_output c) [
  | false ↦ some (true, r ∷ rs, c)
  | true ↦ elim r [
    | sent zero ↦ some (false, rs, c)
    | sent (suc n) ↦ (do
      out ← read_adv c.write_buffer (pos (suc n))
      flush rs (record c { write_buffer = out }))
    | send_blocked ↦ some (true, rs, c)
    | send_failed ↦ some (false, rs, c)
  ]
]

module _ (read_file : List ℕ → Option (List ℕ)) where
  -- The answer to what the parser has found, with the state of the parser and the line.
  unfoldable pub answer : LineState → Conn → Option Conn
  answer ready c = do
    (close, s, out) ← handle_line read_file c.session (c_string c.parser.line) c.write_buffer
    some (record c {
      session = s;
      write_buffer = out;
      close_after_write = c.close_after_write || close;
    })
  answer too_long c = do
    out ← out_printf c.write_buffer (codes "-ERR line too long\n")
    some (record c { write_buffer = out })
  answer _ c = do
    out ← out_printf c.write_buffer (codes "-ERR invalid\n")
    some (record c { write_buffer = out })

  -- The round behind `mgmt_parser_feed`; the flag says whether the loop goes on.
  unfoldable pub serve : LineState → Conn → Option (Bool × Conn)
  serve incomplete c = some (false, c)
  serve st c = do
    c' ← answer st c
    let next = record c' { parser = Line.init c'.parser }
    some (not next.close_after_write, next)

  -- `process_input_lines`, with fuel for the rounds
  unfoldable pub process_lines : ℕ → Conn → Option Conn
  process_lines zero c = none
  process_lines (suc k) c = elim (can_read c.read_buffer && not (has_output c)) [
    | false ↦ some c
    | true ↦ (do
      ((p, st), rest) ← Line.parser_feed c.parser c.read_buffer
      (more, next) ← serve st (record c { parser = p; read_buffer = rest })
      elim more [ true ↦ process_lines k next | false ↦ some next ])
  ]

  -- Each round takes a byte of the input.
  unfoldable pub process_input_lines : Conn → Option Conn
  unfolding process_lines
  process_input_lines c = process_lines (suc (c.read_buffer.write - c.read_buffer.read)) c

  -- `process_and_flush`, with fuel for the rounds
  unfoldable pub process_flush : ℕ → List Sent → Conn → Option (Bool × List Sent × Conn)
  unfolding process_input_lines flush
  process_flush zero rs c = none
  process_flush (suc k) rs c = do
    c' ← process_input_lines c
    (alive, left, c'') ← flush rs c'
    elim (alive && not (has_output c'') && not c''.close_after_write && can_read c''.read_buffer) [
      | false ↦ some (alive, left, c'')
      | true ↦ process_flush k left c''
    ]

  unfoldable pub process_and_flush : List Sent → Conn → Option (Bool × List Sent × Conn)
  unfolding process_flush
  process_and_flush rs c = process_flush (suc (c.read_buffer.write - c.read_buffer.read)) rs c

  -- The end of `mgmt_read`.
  unfoldable pub after_read : Bool → Conn → Request
  after_read alive c =
      if not alive || c.close_after_write && not (has_output c)
      then unregister
      else if has_output c
      then interest_write
      else interest_read

  -- `mgmt_read`
  unfoldable pub read : Received → List Sent → Conn → Option (Request × Conn)
  unfolding process_and_flush after_read
  read r rs c = elim (can_write c.write_buffer) [
    | false ↦ some (interest_write, c)
    | true ↦
        (let compacted = record c { read_buffer = compact c.read_buffer } in
          elim r [
            | received bytes ↦ (do
              input ← fill compacted.read_buffer bytes
              (alive, left, c') ← process_and_flush rs (record compacted { read_buffer = input })
              some (after_read alive c', c'))
            | recv_blocked ↦ some (no_request, compacted)
            | _ ↦ some (unregister, compacted)
          ])
  ]

  -- `mgmt_write`
  unfoldable pub write : List Sent → Conn → Option (Request × Conn)
  unfolding process_and_flush
  write rs c = do
    (alive, left, c') ← process_and_flush rs c
    some (
      (if not alive
          then unregister
          else if has_output c'
          then interest_write
          else if c'.close_after_write
          then unregister
          else interest_read),
      c',
    )
