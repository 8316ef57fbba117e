-- ===== src/Mgmt/Commands.antt =====
-- The commands of server/mgmt.c. A handler returns the texts of its `out_printf` calls, in their
-- order, with the new state; `handle_line` then writes them. Nothing that a handler computes depends
-- on the output.
use protos_tpe.Prelude.{
  ℕ, zero, suc, ◌+◌, ◌%◌, ◌^◌, Bool, ◌||◌, not, Option, none, some, List, [], ◌∷◌, ◌++◌, ltb, leb,
  ◌==◌, if◌then◌else◌, length, get_or,
}
use protos_tpe.Users as Users
use protos_tpe.Users.{users_max, count_of, name_at}
use protos_tpe.Config.{Config, set_conn_timeout, set_io_buffer_size, set_max_connections}
use protos_tpe.AccessLog.{tail}
use protos_tpe.Text.{codes, decimal, ieq, parse_u32}
use protos_tpe.Mgmt.{Deps, admin_set_pass}

abbrev pub arg : List (List ℕ) → ℕ → List ℕ
arg argv i = get_or argv i []

-- A text, a number and a newline.
abbrev pub field : List ℕ → ℕ → List ℕ
field name n = name ++ (decimal n ++ codes "\n")

abbrev pub err_invalid : List (List ℕ)
err_invalid = codes "-ERR invalid\n" ∷ []

-- `cmd_metrics`
unfoldable pub metrics_lines : Deps → List (List ℕ)
metrics_lines d =
    let m = d.metrics in
    codes "+OK 7\n"
    ∷ field (codes "active_connections ") m.active
    ∷ field (codes "historical_connections ") m.historical
    ∷ field (codes "max_active_connections ") m.max_active
    ∷ field (codes "bytes_client_to_origin ") m.client_to_origin
    ∷ field (codes "bytes_origin_to_client ") m.origin_to_client
    ∷ field (codes "total_bytes ") ((m.client_to_origin + m.origin_to_client) % 2 ^ 64)
    ∷ field (codes "users_count ") (count_of d.users)
    ∷ []

abbrev pub printed : Option (List ℕ) → List ℕ
printed none = codes "(null)"
printed (some s) = s

-- The loop of `cmd_list_users`, with the rounds that are left.
unfoldable pub names_from : Users.Users → ℕ → ℕ → List (List ℕ)
names_from s zero i = []
names_from s (suc k) i = (printed (name_at s i) ++ codes "\n") ∷ names_from s k (i + 1)

-- `cmd_list_users`
unfoldable pub list_users : Deps → List (List ℕ)
unfolding names_from
list_users d = let n = count_of d.users in field (codes "+OK ") n ∷ names_from d.users n 0

unfoldable pub add_user : Deps → List (List ℕ) → Deps × List (List ℕ)
add_user d argv =
    let (ok, users) = Users.add d.users (some (arg argv 1)) (some (arg argv 2)) in
    if not (length argv == 3)
    then (d, err_invalid)
    else if Users.exists d.users (arg argv 1)
    then (d, codes "-ERR user exists\n" ∷ [])
    else if leb users_max (count_of d.users)
    then (d, codes "-ERR store full\n" ∷ [])
    else if ok
    then (record d { users = users }, codes "+OK user added\n" ∷ [])
    else (record d { users = users }, err_invalid)

unfoldable pub del_user : Deps → List (List ℕ) → Deps × List (List ℕ)
del_user d argv =
    let (ok, users) = Users.del d.users (arg argv 1) in
    if not (length argv == 2)
    then (d, err_invalid)
    else if ok
    then (record d { users = users }, codes "+OK user removed\n" ∷ [])
    else (record d { users = users }, codes "-ERR no such user\n" ∷ [])

unfoldable pub get_config : Deps → List (List ℕ)
get_config d =
    codes "+OK 3\n"
    ∷ field (codes "conn_timeout ") d.config.conn_timeout
    ∷ field (codes "io_buffer_size ") d.config.io_buffer_size
    ∷ field (codes "max_connections ") d.config.max_connections
    ∷ []

abbrev pub is_known : List ℕ → Bool
is_known key =
    ieq key (codes "conn_timeout")
    || ieq key (codes "io_buffer_size")
    || ieq key (codes "max_connections")

-- The setter that `cmd_set` chooses.
unfoldable pub set_key : Config → List ℕ → ℕ → Bool × Config
set_key c key v =
    if ieq key (codes "conn_timeout")
    then set_conn_timeout c v
    else if ieq key (codes "io_buffer_size")
    then set_io_buffer_size c v
    else set_max_connections c v

-- `cmd_set` behind the parsing of the value
unfoldable pub set_value : Deps → List ℕ → Option ℕ → Deps × List (List ℕ)
unfolding set_key
set_value d key none = (d, codes "-ERR invalid value\n" ∷ [])
set_value d key (some v) =
    let (ok, config) = set_key d.config key v in
    if ok
    then (
      record d { config = config },
      (codes "+OK " ++ (key ++ (codes " = " ++ (decimal v ++ codes "\n")))) ∷ [],
    )
    else (record d { config = config }, codes "-ERR invalid value\n" ∷ [])

-- `cmd_set`
unfoldable pub set_config : Deps → List (List ℕ) → Deps × List (List ℕ)
unfolding set_value
set_config d argv =
    if not (length argv == 3)
    then (d, err_invalid)
    else if not (is_known (arg argv 1))
    then (d, codes "-ERR unknown key\n" ∷ [])
    else set_value d (arg argv 1) (parse_u32 (some (arg argv 2)))

abbrev pub log_max_lines : ℕ
log_max_lines = 50

abbrev pub with_newline : List (List ℕ) → List (List ℕ)
with_newline [] = []
with_newline (t ∷ ts) = (t ++ codes "\n") ∷ with_newline ts

-- `cmd_log` behind the parsing of `n`
unfoldable pub log_lines : (List ℕ → Option (List ℕ)) → Deps → Option ℕ → List (List ℕ)
log_lines read_file d none = err_invalid
log_lines read_file d (some n) =
    let capped = if ltb log_max_lines n then log_max_lines else n in
    let got = tail read_file d.access_log capped log_max_lines in
    field (codes "+OK ") (length got) ∷ with_newline got

-- `cmd_log`
unfoldable pub log_tail : (List ℕ → Option (List ℕ)) → Deps → List (List ℕ) → List (List ℕ)
unfolding log_lines
log_tail read_file d argv =
    if ltb 2 (length argv)
    then err_invalid
    else log_lines read_file d (if length argv == 2 then parse_u32 (some (arg argv 1)) else some 10)

-- `cmd_help`
abbrev pub help_lines : List (List ℕ)
help_lines =
    codes "+OK 10\n"
    ∷ codes "AUTH <user> <pass>\n"
    ∷ codes "METRICS\n"
    ∷ codes "LIST-USERS\n"
    ∷ codes "ADD-USER <user> <pass>\n"
    ∷ codes "DEL-USER <user>\n"
    ∷ codes "GET-CONFIG\n"
    ∷ codes "SET <key> <value>\n"
    ∷ codes "LOG [n]\n"
    ∷ codes "PASSWD <newpass>\n"
    ∷ codes "QUIT\n"
    ∷ []

-- The branch of PASSWD.
unfoldable pub change_pass : Deps → List (List ℕ) → Deps × List (List ℕ)
change_pass d argv =
    let (ok, admin) = admin_set_pass d.admin (some (arg argv 1)) in
    if not (length argv == 2)
    then (d, err_invalid)
    else if ok
    then (record d { admin = admin }, codes "+OK password changed\n" ∷ [])
    else (record d { admin = admin }, err_invalid)
