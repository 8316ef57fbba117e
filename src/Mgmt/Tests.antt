-- ===== src/Mgmt/Tests.antt =====
-- server/mgmt.c on small sessions.
use protos_tpe.Prelude.{
  ℕ, zero, suc, ◌≡◌, refl, true, false, ◌&&◌, not, Option, none, some, List, [], ◌∷◌, ◌==◌, arith,
  replicate, length, bytes_eq,
}
use protos_tpe.Buffer.{Buffer}
use protos_tpe.Buffer.Writes.{Pushed}
use protos_tpe.Users.{blank}
use protos_tpe.Users.Laws.{entry}
use protos_tpe.Metrics as Metrics
use protos_tpe.Text.{scan_digits, codes, decimal, parse_u32, ieq}
use protos_tpe.Text.Numbers.{parse_u32-decimal}
use protos_tpe.Line as Line
use protos_tpe.Mgmt.{Deps, Session, admin_check, admin_set_pass}
use protos_tpe.Mgmt.Dispatch.{admin_command, dispatch, handle_line}
use protos_tpe.Mgmt.Output.{concat}
use protos_tpe.Mgmt.Safety.{Unprivileged, dispatch-Unprivileged}
use protos_tpe.Mgmt.Shared.{IsSound, dispatch-IsSound, admin_check-change_pass}
use protos_tpe.Mgmt.Plain.{HasPlainNames}
use protos_tpe.Mgmt.Framing.{IsFramed, outcome, dispatch-IsFramed, handle_line_room}
use protos_tpe.Mgmt.Connection.{Conn, process_input_lines}
use protos_tpe.Mgmt.Loop.{IsReady, IsDone, process_input_lines_lem}

-- The user "a" with the password "x", and the administrator "r" with the password "p".
abbrev shared : Deps
shared = record {
  users = record { count = 1; entries = entry (codes "a") (codes "x") ∷ replicate 99 blank };
  metrics = Metrics.init;
  config = record {
    conn_timeout = 60;
    io_buffer_size = 4096;
    max_connections = 500;
    max_connections_hard = 500;
  };
  access_log = record { is_open = false; path = [] };
  admin = record { name = codes "r"; pass = codes "p" };
}

abbrev guest : Session
guest = record { deps = shared; authenticated = false }

abbrev admin : Session
admin = record { deps = shared; authenticated = true }

abbrev no_file : List ℕ → Option (List ℕ)
no_file path = none

abbrev out : Buffer
out = record { bytes = replicate 64 0; limit = 64; read = 0; write = 0 }

shared-HasPlainNames : HasPlainNames shared.users
shared-HasPlainNames zero h = refl
shared-HasPlainNames (suc i) h = absurd (omega arith)

shared-IsSound : IsSound 1024 shared
shared-IsSound = record {
  users_valid = record {
    in_bounds = record { size = refl; fits = omega arith };
    distinct = (refl, tt);
  };
  in_budget = record { ranges = ground arith; budget = omega arith };
  admin_sized = record { name_fits = omega arith; pass_fits = omega arith };
}

parse_u32-decimal_example : parse_u32 (some (decimal 4294967295)) ≡ some 4294967295
parse_u32-decimal_example = parse_u32-decimal 4294967295 (omega arith)

dispatch-Unprivileged_example :
    Unprivileged guest
      (codes "auth" ∷ codes "r" ∷ codes "p" ∷ [])
      (dispatch no_file guest (codes "auth" ∷ codes "r" ∷ codes "p" ∷ []))
dispatch-Unprivileged_example =
    dispatch-Unprivileged no_file guest (codes "auth" ∷ codes "r" ∷ codes "p" ∷ []) refl

dispatch-IsSound_example :
    IsSound 1024 (dispatch no_file admin (codes "DEL-USER" ∷ codes "a" ∷ [])).session.deps
dispatch-IsSound_example =
    dispatch-IsSound no_file admin (codes "DEL-USER" ∷ codes "a" ∷ []) shared-IsSound

admin_check-change_pass_example :
    admin_check (admin_set_pass shared.admin (some (codes "q"))).1 (codes "r") (codes "q")
    ≡ (not (length (codes "r") == 0) && bytes_eq (codes "q") (codes "q"))
unfolding admin_set_pass
admin_check-change_pass_example = admin_check-change_pass shared (codes "q") (codes "q") refl

dispatch-IsFramed_example : IsFramed (dispatch no_file admin (codes "LIST-USERS" ∷ [])).lines
dispatch-IsFramed_example =
    dispatch-IsFramed no_file admin (codes "LIST-USERS" ∷ []) shared-HasPlainNames

handle_line_room_example :
    (out' : Buffer) × (handle_line no_file admin (codes "METRICS 1") out
      ≡ some (
        (outcome no_file admin (codes "METRICS 1")).close,
        (outcome no_file admin (codes "METRICS 1")).session,
        out',
      ))
    × Pushed out out' (concat (outcome no_file admin (codes "METRICS 1")).lines)
    × IsFramed (outcome no_file admin (codes "METRICS 1")).lines
unfolding dispatch admin_command Line.tokenize ieq
handle_line_room_example =
    handle_line_room no_file admin (codes "METRICS 1") {out = out} shared-HasPlainNames
      (record { storage = omega arith; read_le = omega arith; write_le = omega arith })
      (omega arith, tt) (omega arith)

-- Two lines wait: one that is refused, and QUIT.
abbrev waiting : Conn
waiting = record {
  session = guest;
  parser = record { line = replicate 16 0; len = 0; overflow = false; invalid = false };
  read_buffer = record { bytes = codes "METRICS\nQUIT\n"; limit = 13; read = 0; write = 13 };
  write_buffer = out;
  close_after_write = false;
}

process_input_lines_example :
    (c' : Conn) × (process_input_lines no_file waiting ≡ some c') × IsReady c' × IsDone c'
process_input_lines_example = process_input_lines_lem no_file waiting (record {
  input = record { storage = omega arith; read_le = omega arith; write_le = omega arith };
  output = record { storage = omega arith; read_le = omega arith; write_le = omega arith };
  drained = λ nil. cc;
})

-- `strtoul` takes a sign, and negates modulo 2^64.
parse_u32_sign : parse_u32 (some (codes "-18446744073709551615")) ≡ some 1
unfolding parse_u32 scan_digits
parse_u32_sign = refl

-- GET-CONFIG with an argument is refused, on an authenticated session.
get_config_argument :
    (dispatch no_file admin (codes "get-config" ∷ codes "x" ∷ [])).lines
    ≡ codes "-ERR invalid\n" ∷ []
unfolding dispatch admin_command ieq
get_config_argument = refl
