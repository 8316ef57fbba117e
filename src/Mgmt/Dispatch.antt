-- ===== src/Mgmt/Dispatch.antt =====
-- The dispatch of server/mgmt.c: what a line of tokens does to the session.
use protos_tpe.Prelude.{
  ℕ, Bool, true, false, ◌&&◌, ◌||◌, not, Option, some, List, [], ◌∷◌, ◌==◌, if◌then◌else◌, ◌>>=◌,
  length,
}
use protos_tpe.Buffer.{Buffer}
use protos_tpe.Line.{tokenize}
use protos_tpe.Text.{codes, ieq}
use protos_tpe.Mgmt.{Deps, Session, admin_check, out_lines}
use protos_tpe.Mgmt.Commands.{
  arg, err_invalid, metrics_lines, list_users, add_user, del_user, get_config, set_config, log_tail,
  help_lines, change_pass,
}

-- What `mgmt_handle_line` leaves: the session, whether to close it, and the texts printed.
pub record Outcome : Type 0 where
  pub session : Session
  pub close : Bool
  pub lines : List (List ℕ)

-- The branch of AUTH.
unfoldable pub authenticate : Session → List (List ℕ) → Session × List (List ℕ)
authenticate s argv =
    if s.authenticated
    then (s, codes "-ERR already authenticated\n" ∷ [])
    else if not (length argv == 3)
    then (s, err_invalid)
    else if admin_check s.deps.admin (arg argv 1) (arg argv 2)
    then (record s { authenticated = true }, codes "+OK authenticated\n" ∷ [])
    else (s, codes "-ERR bad credentials\n" ∷ [])

-- The commands that need authentication.
unfoldable pub admin_command :
    (List ℕ → Option (List ℕ)) → Deps → List (List ℕ) → Deps × List (List ℕ)
admin_command read_file d argv =
    let cmd = arg argv 0 in
    if not (length argv == 1)
      && (ieq cmd (codes "METRICS") || ieq cmd (codes "LIST-USERS") || ieq cmd (codes "GET-CONFIG"))
    then (d, err_invalid)
    else if ieq cmd (codes "METRICS")
    then (d, metrics_lines d)
    else if ieq cmd (codes "LIST-USERS")
    then (d, list_users d)
    else if ieq cmd (codes "ADD-USER")
    then add_user d argv
    else if ieq cmd (codes "DEL-USER")
    then del_user d argv
    else if ieq cmd (codes "GET-CONFIG")
    then (d, get_config d)
    else if ieq cmd (codes "SET")
    then set_config d argv
    else if ieq cmd (codes "LOG")
    then (d, log_tail read_file d argv)
    else if ieq cmd (codes "PASSWD")
    then change_pass d argv
    else (d, codes "-ERR unknown command\n" ∷ [])

-- `mgmt_handle_line` behind the tokenizing
unfoldable pub dispatch : (List ℕ → Option (List ℕ)) → Session → List (List ℕ) → Outcome
dispatch read_file s argv =
    let cmd = arg argv 0 in
    let (signed, greeting) = authenticate s argv in
    let (deps, lines) = admin_command read_file s.deps argv in
    if length argv == 0
    then record { session = s; close = false; lines = codes "-ERR unknown command\n" ∷ [] }
    else if not (length argv == 1) && (ieq cmd (codes "QUIT") || ieq cmd (codes "HELP"))
    then record { session = s; close = false; lines = err_invalid }
    else if ieq cmd (codes "QUIT")
    then record { session = s; close = true; lines = codes "+OK bye\n" ∷ [] }
    else if ieq cmd (codes "HELP")
    then record { session = s; close = false; lines = help_lines }
    else if ieq cmd (codes "AUTH")
    then record { session = signed; close = false; lines = greeting }
    else if not s.authenticated
    then record { session = s; close = false; lines = codes "-ERR not authenticated\n" ∷ [] }
    else record { session = record s { deps = deps }; close = false; lines = lines }

-- `mgmt_handle_line`, on a line as the parser leaves it
unfoldable pub handle_line :
    (List ℕ → Option (List ℕ)) → Session → List ℕ → Buffer → Option (Bool × Session × Buffer)
handle_line read_file s line out = do
  let o = dispatch read_file s (tokenize 5 line)
  out' ← out_lines out o.lines
  some (o.close, o.session, out')
