-- ===== src/Client.antt =====
-- client/smcp_client.c and client/main.c of the administrator's client: the tests of tokens and
-- counts, the reader of replies, and the arguments. The stream of `recv` is the list of the bytes to
-- come, closed behind the last.
pub mod Replies
pub mod Tests
use protos_tpe.Prelude.{
  ℕ, zero, suc, ◌+◌, ◌-◌, ◌^◌, Bool, true, false, ◌&&◌, ◌||◌, not, Option, none, some, List, [],
  ◌∷◌, ◌++◌, ltb, leb, ◌==◌, if◌then◌else◌, ◌>>=◌, length, get_or, take, drop, bytes_eq,
}
use protos_tpe.Text.{codes, is_digit, is_space, scan_digits}

abbrev pub line_max : ℕ
line_max = 4096

-- `smcp_result`
pub data Result : Type 0 where
  ok rejected transport_error : Result

-- The loop of `smcp_is_token`.
abbrev all_printable : List ℕ → Bool
all_printable [] = true
all_printable (c ∷ cs) = not (is_space c || ltb c 33 || ltb 126 c) && all_printable cs

-- `smcp_is_token`
unfoldable pub is_token : List ℕ → Bool
is_token [] = false
is_token (c ∷ cs) = all_printable (c ∷ cs)

-- `strncmp(s, prefix, strlen(prefix)) == 0`
abbrev pub starts_with : List ℕ → List ℕ → Bool
starts_with s prefix = bytes_eq (take (length prefix) s) prefix

-- `smcp_parse_count_status`; on a text that starts with a digit `strtoul` takes the digits.
unfoldable pub parse_count_status : List ℕ → Option ℕ
parse_count_status line =
    let (n, behind) = scan_digits 0 (drop 4 line) in
    if not (starts_with line (codes "+OK ")) || not (is_digit (get_or line 4 0))
    then none
    else if leb (2 ^ 64) n || not (length behind == 0)
    then none
    else some n

-- The text without the CR at its end.
unfoldable pub strip_cr : List ℕ → List ℕ
strip_cr buf =
    let n = length buf in if ltb 0 n && get_or buf (n - 1) 0 == 13 then take (n - 1) buf else buf

-- `read_line`, with the room that is left and the text so far; `none` is a closed connection or a
-- line that is too long.
unfoldable pub read_from : ℕ → List ℕ → List ℕ → Option (List ℕ × List ℕ)
unfolding strip_cr
read_from zero buf stream = none
read_from (suc k) buf [] = none
read_from (suc k) buf (c ∷ cs) =
    let rest = read_from k (buf ++ c ∷ []) cs in if c == 10 then some (strip_cr buf, cs) else rest

-- `read_line(fd, line, SMCP_LINE_MAX, err)`
unfoldable pub read_line : List ℕ → Option (List ℕ × List ℕ)
read_line stream = read_from (line_max - 1) [] stream

-- The loop that prints the lines behind a count; `none` is an error of the transport.
unfoldable pub read_lines : ℕ → List ℕ → Option (List (List ℕ) × List ℕ)
read_lines zero stream = some ([], stream)
read_lines (suc k) stream = do
  (line, rest) ← read_line stream
  (lines, last) ← read_lines k rest
  some (line ∷ lines, last)

-- What `run_command` has read: its result, the lines behind a count, and the bytes not read.
pub record Reply : Type 0 where
  pub result : Result
  pub lines : List (List ℕ)
  pub left : List ℕ

abbrev broken : List ℕ → Reply
broken left = record { result = transport_error; lines = []; left = left }

-- The lines behind a count; the bytes left do not matter when the transport has failed.
unfoldable pub counted : Option (List (List ℕ) × List ℕ) → Reply
counted none = broken []
counted (some (lines, left)) = record { result = ok; lines = lines; left = left }

-- `run_command` behind the greeting, on the status line.
unfoldable pub on_status : List ℕ → List ℕ → Reply
unfolding counted
on_status line stream =
    let plain : Reply = record { result = ok; lines = []; left = stream } in
    if starts_with line (codes "-ERR ")
    then record { result = rejected; lines = []; left = stream }
    else if not (starts_with line (codes "+OK"))
    then broken stream
    else elim (parse_count_status line) [ none ↦ plain | some n ↦ counted (read_lines n stream) ]

-- `run_command` behind the command that it sends
unfoldable pub read_reply : Bool → List ℕ → Reply
read_reply allow_greeting stream = elim (read_line stream) [
  | none ↦ broken []
  | some (line, rest) ↦
      if not (starts_with line (codes "+OK SMCP "))
      then on_status line rest
      else if not allow_greeting
      then broken rest
      else elim (read_line rest) [ none ↦ broken [] | some (next, last) ↦ on_status next last ]
]

-- `copy_bounded(dst, cap, src, len)` for the first `len` bytes of a text
unfoldable pub copy_bounded : ℕ → List ℕ → ℕ → Option (List ℕ)
copy_bounded room src len = if len == 0 || leb room len then none else some (take len src)

-- `strchr(s, ':')`, as an offset
unfoldable pub find_colon : List ℕ → Option ℕ
find_colon [] = none
find_colon (c ∷ cs) = if c == 58 then some 0 else (find_colon cs >>= λ i. some (suc i))

-- `parse_auth_arg`
unfoldable pub parse_auth_arg : ℕ → ℕ → List ℕ → Option (List ℕ × List ℕ)
unfolding copy_bounded find_colon
parse_auth_arg user_room pass_room s = do
  sep ← find_colon s
  user ← copy_bounded user_room s sep
  let behind = drop (sep + 1) s
  pass ← copy_bounded pass_room behind (length behind)
  some (user, pass)

-- `should_end_session`, with the choice 'q'
unfoldable pub should_end_session : ℕ → Result → Bool → Bool
should_end_session choice ok input_eof = choice == 113
should_end_session choice rejected input_eof = choice == 113 && input_eof
should_end_session choice transport_error input_eof = false
