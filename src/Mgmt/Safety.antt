-- ===== src/Mgmt/Safety.antt =====
-- What a session may do: nothing before it has authenticated, and then only what keeps the shared
-- data well formed.
use protos_tpe.Prelude.{
  ℕ, ◌≡◌, refl, true, false, ◌&&◌, Option, List, arith, ◌==◌, length, bytes_eq, bytes_eq_iff,
}
use protos_tpe.Text.{codes, ieq, lowers}
use protos_tpe.Mgmt.{Session, admin_check}
use protos_tpe.Mgmt.Commands.{arg}
use protos_tpe.Mgmt.Dispatch.{Outcome, authenticate, dispatch}

-- A name that is the one command is not the other.
ieq-other :
    (cmd a b : List ℕ)
    → bytes_eq (lowers a) (lowers b) ≡ false
    → ieq cmd a ≡ true
    → ieq cmd b ≡ false
unfolding ieq
ieq-other cmd a b h e = rw (((bytes_eq_iff (lowers cmd) (lowers a)).0) e) h

-- What a session that has not authenticated gets from a line.
pub record Unprivileged (s : Session) (argv : List (List ℕ)) (o : Outcome) : Type 0 where
  pub same_deps : o.session.deps ≡ s.deps
  pub admitted : o.session.authenticated ≡ (
      length argv == 3
      && ieq (arg argv 0) (codes "AUTH")
      && admin_check s.deps.admin (arg argv 1) (arg argv 2))

-- A line on a session that has not authenticated changes none of the shared data, and the session
-- is authenticated afterwards exactly if the line is AUTH, in any case of the letters, with two
-- arguments that `admin_check` accepts.
pub dispatch-Unprivileged :
    (read_file : List ℕ → Option (List ℕ)) (s : Session) (argv : List (List ℕ))
    → s.authenticated ≡ false
    → Unprivileged s argv (dispatch read_file s argv)
unfolding dispatch authenticate
dispatch-Unprivileged read_file s argv h =
    let not_quit = ieq-other (arg argv 0) (codes "AUTH") (codes "QUIT") refl in
    let not_help = ieq-other (arg argv 0) (codes "AUTH") (codes "HELP") refl in
    record { same_deps = ground arith; admitted = ground (arith, not_quit, not_help) }
