-- ===== src/Mgmt.antt =====
-- server/mgmt.c: the administrator's credentials, the session and its shared data, and the output.
-- A null pointer is `none`; a text is the list of its bytes before the NUL.
pub mod Commands
pub mod Dispatch
pub mod Output
pub mod Tests
pub mod Answer
pub mod Loop
pub mod Connection
pub mod Plain
pub mod Framing
pub mod Shared
pub mod Safety
use protos_tpe.Prelude.{
  ℕ, ◌+◌, ◌-◌, Bool, true, false, ◌&&◌, ◌||◌, not, Option, none, some, List, [], ◌∷◌, ◌++◌, ltb,
  leb, ◌==◌, if◌then◌else◌, ◌>>=◌, length, take, bytes_eq,
}
use protos_tpe.Buffer.{Buffer, write_ptr, fill}
use protos_tpe.Users.{Users}
use protos_tpe.Config.{Config}
use protos_tpe.Metrics.{Metrics}
use protos_tpe.AccessLog.{AccessLog}

-- `struct AdminCreds`
pub record AdminCreds : Type 0 where
  pub name : List ℕ
  pub pass : List ℕ

abbrev pub admin_size : ℕ
admin_size = 256

abbrev text_or_empty : Option (List ℕ) → List ℕ
text_or_empty none = []
text_or_empty (some s) = s

-- `admin_init`: `snprintf` cuts a text to the array, with room for the NUL.
unfoldable pub admin_init : Option (List ℕ) → Option (List ℕ) → AdminCreds
admin_init name pass = record {
  name = take (admin_size - 1) (text_or_empty name);
  pass = take (admin_size - 1) (text_or_empty pass);
}

unfoldable pub admin_check : AdminCreds → List ℕ → List ℕ → Bool
admin_check a name pass =
    if length a.name == 0 then false else bytes_eq a.name name && bytes_eq a.pass pass

unfoldable pub admin_set_pass : AdminCreds → Option (List ℕ) → Bool × AdminCreds
admin_set_pass a none = (false, a)
admin_set_pass a (some pass) =
    if length pass == 0 || leb admin_size (length pass)
    then (false, a)
    else (true, record a { pass = take (admin_size - 1) pass })

-- `struct mgmt_deps`: what the pointers refer to.
pub record Deps : Type 0 where
  pub users : Users
  pub metrics : Metrics
  pub config : Config
  pub access_log : AccessLog
  pub admin : AdminCreds

-- `struct mgmt_session`, with the data that `deps` points to.
pub record Session : Type 0 where
  pub deps : Deps
  pub authenticated : Bool

unfoldable pub session_init : Deps → Session
session_init deps = record { deps = deps; authenticated = false }

-- The size of `tmp` in `out_printf`.
abbrev pub printf_size : ℕ
printf_size = 1024 + 128

-- `out_printf` of a text that the format has made
unfoldable pub out_printf : Buffer → List ℕ → Option Buffer
out_printf b text =
    let n = length text in
    if n == 0 then some b else (do
      (p, space) ← write_ptr b
      let want = if ltb n printf_size then n else printf_size - 1
      let fits = if ltb space want then space else want
      fill b (take fits text))

-- A row of `out_printf` calls.
unfoldable pub out_lines : Buffer → List (List ℕ) → Option Buffer
out_lines b [] = some b
out_lines b (t ∷ ts) = do b' ← out_printf b t; out_lines b' ts
