-- ===== src/Mgmt/Framing.antt =====
-- The form of every reply: one status line, or a count with that many lines behind it.
use protos_tpe.Prelude.{
  ℕ, suc, zero, ◌+◌, ◌%◌, ◌^◌, ◌≤◌, ◌≡◌, refl, ap, subst, append_assoc, Bool, true, false, not,
  Option, none, some, List, [], ◌∷◌, ◌++◌, arith, ltb, leb, ◌==◌, if◌then◌else◌, length, All,
  Bool-cases, inl, inr,
}
use protos_tpe.Buffer.{Buffer, IsValid}
use protos_tpe.Buffer.Writes.{Pushed}
use protos_tpe.Users as Users
use protos_tpe.Line.{tokenize}
use protos_tpe.Mgmt.Plain.{
  IsPlain, IsLine, HasPlainNames, append-IsPlain, decimal-IsPlain, field-IsLine, ieq-IsPlain,
  names_from-IsLine, with_newline-IsLine, tail-IsPlain,
}
use protos_tpe.Text.{ieq, codes, parse_u32, decimal, put_digits}
use protos_tpe.Mgmt.{Session, Deps}
use protos_tpe.Mgmt.Output.{out_lines_room, out_lines-IsValid, concat, IsShort}
use protos_tpe.Mgmt.Commands.{
  arg, field, err_invalid, is_known, add_user, del_user, set_config, set_value, set_key,
  change_pass, metrics_lines, list_users, names_from, get_config, help_lines, log_tail, log_lines,
  with_newline,
}
use protos_tpe.Mgmt.Dispatch.{Outcome, authenticate, admin_command, dispatch, handle_line}

-- One line "-ERR ...", one line "+OK ...", or a line with a count and that many lines behind it.
pub data IsFramed : List (List ℕ) → Type 0 where
  failed : (t : List ℕ) → IsPlain t → IsFramed ((codes "-ERR " ++ (t ++ codes "\n")) ∷ [])
  succeeded : (t : List ℕ) → IsPlain t → IsFramed ((codes "+OK " ++ (t ++ codes "\n")) ∷ [])
  counted : (ts : List (List ℕ)) → All IsLine ts → IsFramed (field (codes "+OK ") (length ts) ∷ ts)

invalid-IsFramed : IsFramed err_invalid
invalid-IsFramed = failed (codes "invalid") refl

abbrev behind : List (List ℕ) → List (List ℕ)
behind [] = []
behind (t ∷ ts) = ts

metrics_lines-IsFramed : (d : Deps) → IsFramed (metrics_lines d)
unfolding metrics_lines decimal put_digits
metrics_lines-IsFramed d = counted (behind (metrics_lines d)) (
  field-IsLine (codes "active_connections ") d.metrics.active refl,
  (
    field-IsLine (codes "historical_connections ") d.metrics.historical refl,
    (
      field-IsLine (codes "max_active_connections ") d.metrics.max_active refl,
      (
        field-IsLine (codes "bytes_client_to_origin ") d.metrics.client_to_origin refl,
        (
          field-IsLine (codes "bytes_origin_to_client ") d.metrics.origin_to_client refl,
          (
            field-IsLine (codes "total_bytes ")
                ((d.metrics.client_to_origin + d.metrics.origin_to_client) % 2 ^ 64) refl,
            (field-IsLine (codes "users_count ") d.users.count refl, tt),
          ),
        ),
      ),
    ),
  ),
)

get_config-IsFramed : (d : Deps) → IsFramed (get_config d)
unfolding get_config decimal put_digits
get_config-IsFramed d = counted (behind (get_config d)) (
  field-IsLine (codes "conn_timeout ") d.config.conn_timeout refl,
  (
    field-IsLine (codes "io_buffer_size ") d.config.io_buffer_size refl,
    (field-IsLine (codes "max_connections ") d.config.max_connections refl, tt),
  ),
)

help_lines-IsFramed : IsFramed help_lines
unfolding decimal put_digits
help_lines-IsFramed = counted (behind help_lines) (
  (codes "AUTH <user> <pass>", refl, refl),
  (
    (codes "METRICS", refl, refl),
    (
      (codes "LIST-USERS", refl, refl),
      (
        (codes "ADD-USER <user> <pass>", refl, refl),
        (
          (codes "DEL-USER <user>", refl, refl),
          (
            (codes "GET-CONFIG", refl, refl),
            (
              (codes "SET <key> <value>", refl, refl),
              (
                (codes "LOG [n]", refl, refl),
                ((codes "PASSWD <newpass>", refl, refl), ((codes "QUIT", refl, refl), tt)),
              ),
            ),
          ),
        ),
      ),
    ),
  ),
)

length-names_from : (s : Users.Users) (k i : ℕ) → length (names_from s k i) ≡ k
unfolding names_from
length-names_from s zero i = refl
length-names_from s (suc k) i = ap suc (length-names_from s k (i + 1))

list_users-IsFramed : (d : Deps) → HasPlainNames d.users → IsFramed (list_users d)
unfolding list_users
list_users-IsFramed d h =
    let n = d.users.count in
    subst (λ m. IsFramed (field (codes "+OK ") m ∷ names_from d.users n 0))
      (length-names_from d.users n 0)
      (counted (names_from d.users n 0) (names_from-IsLine d.users n 0 h))

length-with_newline : (ts : List (List ℕ)) → length (with_newline ts) ≡ length ts
length-with_newline [] = refl
length-with_newline (t ∷ ts) = ap suc (length-with_newline ts)

counted_log :
    (ts : List (List ℕ))
    → All IsPlain ts
    → IsFramed (field (codes "+OK ") (length ts) ∷ with_newline ts)
counted_log ts h =
    subst (λ m. IsFramed (field (codes "+OK ") m ∷ with_newline ts)) (length-with_newline ts)
      (counted (with_newline ts) (with_newline-IsLine ts h))

log_lines-IsFramed :
    (read_file : List ℕ → Option (List ℕ)) (d : Deps) (o : Option ℕ)
    → IsFramed (log_lines read_file d o)
unfolding log_lines
log_lines-IsFramed read_file d none = invalid-IsFramed
log_lines-IsFramed read_file d (some n) = counted_log _ (tail-IsPlain read_file d.access_log _ _)

log_tail-IsFramed :
    (read_file : List ℕ → Option (List ℕ)) (d : Deps) (argv : List (List ℕ))
    → IsFramed (log_tail read_file d argv)
unfolding log_tail
log_tail-IsFramed read_file d argv = elim (Bool-cases (ltb 2 (length argv))) [
  | inl many ↦ rw many invalid-IsFramed
  | inr few ↦ rw few (
      log_lines-IsFramed read_file d
        (if length argv == 2 then parse_u32 (some (arg argv 1)) else some 10))
]

-- What holds of both branches.
if_both {ℓ κ} :
    {A : Type ℓ} (P : A → Type κ) (b : Bool) (x y : A) → P x → P y → P (if b then x else y)
if_both P true x y h k = h
if_both P false x y h k = k

-- A handler's answer that is framed.
abbrev Answers : Deps × List (List ℕ) → Type 0
Answers r = IsFramed r.1

add_user-IsFramed : (d : Deps) (argv : List (List ℕ)) → Answers (add_user d argv)
unfolding add_user
add_user-IsFramed d argv = if_both Answers (not (length argv == 3)) _ _ invalid-IsFramed (
    if_both Answers (Users.exists d.users (arg argv 1)) _ _ (failed (codes "user exists") refl) (
      if_both Answers (leb 100 d.users.count) _ _ (failed (codes "store full") refl)
        (if_both Answers _ _ _ (succeeded (codes "user added") refl) invalid-IsFramed)))

del_user-IsFramed : (d : Deps) (argv : List (List ℕ)) → Answers (del_user d argv)
unfolding del_user
del_user-IsFramed d argv = if_both Answers (not (length argv == 2)) _ _ invalid-IsFramed (
    if_both Answers _ _ _ (succeeded (codes "user removed") refl)
      (failed (codes "no such user") refl))

set_value-IsFramed :
    (d : Deps) (key : List ℕ) (o : Option ℕ) → IsPlain key → Answers (set_value d key o)
unfolding set_value
set_value-IsFramed d key none h = failed (codes "invalid value") refl
set_value-IsFramed d key (some v) h =
    let value = codes " = " ++ decimal v in
    let plain =
      append-IsPlain key value h
        (append-IsPlain (codes " = ") (decimal v) refl (decimal-IsPlain v)) in
    if_both Answers (set_key d.config key v).0 _ _
      (subst (λ t. IsFramed ((codes "+OK " ++ t) ∷ [])) (append_assoc key value (codes "\n"))
        (succeeded (key ++ value) plain))
      (failed (codes "invalid value") refl)

is_known-IsPlain : (key : List ℕ) → is_known key ≡ true → IsPlain key
is_known-IsPlain key h = elim (Bool-cases (ieq key (codes "conn_timeout"))) [
  | inl one ↦ ieq-IsPlain key (codes "conn_timeout") one refl
  | inr a ↦ elim (Bool-cases (ieq key (codes "io_buffer_size"))) [
    | inl two ↦ ieq-IsPlain key (codes "io_buffer_size") two refl
    | inr b ↦ ieq-IsPlain key (codes "max_connections") (ground (arith, h, a, b)) refl
  ]
]

set_config-IsFramed : (d : Deps) (argv : List (List ℕ)) → Answers (set_config d argv)
unfolding set_config
set_config-IsFramed d argv =
    if_both Answers (not (length argv == 3)) _ _ invalid-IsFramed
      (elim (Bool-cases (is_known (arg argv 1))) [
        | inr unknown ↦ rw unknown (failed (codes "unknown key") refl)
        | inl known ↦ rw known (
            set_value-IsFramed d (arg argv 1) (parse_u32 (some (arg argv 2)))
              (is_known-IsPlain (arg argv 1) known))
      ])

change_pass-IsFramed : (d : Deps) (argv : List (List ℕ)) → Answers (change_pass d argv)
unfolding change_pass
change_pass-IsFramed d argv =
    if_both Answers (not (length argv == 2)) _ _ invalid-IsFramed
      (if_both Answers _ _ _ (succeeded (codes "password changed") refl) invalid-IsFramed)

authenticate-IsFramed : (s : Session) (argv : List (List ℕ)) → IsFramed (authenticate s argv).1
unfolding authenticate
authenticate-IsFramed s argv =
    let P = λ (r : Session × List (List ℕ)). IsFramed r.1 in
    if_both P s.authenticated _ _ (failed (codes "already authenticated") refl) (
      if_both P (not (length argv == 3)) _ _ invalid-IsFramed (
        if_both P _ _ _ (succeeded (codes "authenticated") refl)
          (failed (codes "bad credentials") refl)))

admin_command-IsFramed :
    (read_file : List ℕ → Option (List ℕ)) (d : Deps) (argv : List (List ℕ))
    → HasPlainNames d.users
    → Answers (admin_command read_file d argv)
unfolding admin_command
admin_command-IsFramed read_file d argv h =
    let h0 = invalid-IsFramed in
    let h1 = metrics_lines-IsFramed d in
    let h2 = list_users-IsFramed d h in
    let h3 = add_user-IsFramed d argv in
    let h4 = del_user-IsFramed d argv in
    let h5 = get_config-IsFramed d in
    let h6 = set_config-IsFramed d argv in
    let h7 = log_tail-IsFramed read_file d argv in
    let h8 = change_pass-IsFramed d argv in
    let h9 = failed (codes "unknown command") refl in ground arith

-- If no name of a user has a newline, every command gets one reply, in the form of the protocol: one
-- line "-ERR ...", one line "+OK ...", or a line "+OK n" with exactly n lines behind it. A line has
-- one newline, at its end.
pub dispatch-IsFramed :
    (read_file : List ℕ → Option (List ℕ)) (s : Session) (argv : List (List ℕ))
    → HasPlainNames s.deps.users
    → IsFramed (dispatch read_file s argv).lines
unfolding dispatch
dispatch-IsFramed read_file s argv h =
    let h0 = invalid-IsFramed in
    let h1 = failed (codes "unknown command") refl in
    let h2 = succeeded (codes "bye") refl in
    let h3 = help_lines-IsFramed in
    let h4 = authenticate-IsFramed s argv in
    let h5 = failed (codes "not authenticated") refl in
    let h6 = admin_command-IsFramed read_file s.deps argv h in ground arith

-- The outcome of a line, as the parser leaves it.
abbrev pub outcome : (List ℕ → Option (List ℕ)) → Session → List ℕ → Outcome
outcome read_file s line = dispatch read_file s (tokenize 5 line)

-- A line on any session, whatever room is left, ends without a fault in a valid output buffer.
pub handle_line-IsValid :
    (read_file : List ℕ → Option (List ℕ)) (s : Session) (line : List ℕ) {out : Buffer}
    → IsValid out
    → (out' : Buffer) × (handle_line read_file s line out
        ≡ some ((outcome read_file s line).close, (outcome read_file s line).session, out'))
      × IsValid out'
unfolding handle_line
handle_line-IsValid read_file s line v =
    let (out', runs, w) = out_lines-IsValid (outcome read_file s line).lines v in
    (out', rw runs refl, w)

-- A reply whose texts are each shorter than the line of `out_printf`, and which fits into the
-- valid output buffer, is appended whole. If no name of a user has a newline, it is one line
-- "-ERR ...", one line "+OK ...", or a line "+OK n" with exactly n lines behind it.
pub handle_line_room :
    (read_file : List ℕ → Option (List ℕ)) (s : Session) (line : List ℕ) {out : Buffer}
    → HasPlainNames s.deps.users
    → IsValid out
    → All IsShort (outcome read_file s line).lines
    → out.write + length (concat (outcome read_file s line).lines) ≤ out.limit
    → (out' : Buffer) × (handle_line read_file s line out
        ≡ some ((outcome read_file s line).close, (outcome read_file s line).session, out'))
      × Pushed out out' (concat (outcome read_file s line).lines)
      × IsFramed (outcome read_file s line).lines
unfolding handle_line
handle_line_room read_file s line names v a h =
    let (out', runs, p) = out_lines_room (outcome read_file s line).lines v a h in
    (out', rw runs refl, p, dispatch-IsFramed read_file s (tokenize 5 line) names)
