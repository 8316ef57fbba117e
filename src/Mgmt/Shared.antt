-- ===== src/Mgmt/Shared.antt =====
-- The shared data stays well formed under every command.
use protos_tpe.Prelude.{
  ℕ, ◌≤◌, ◌≡◌, true, false, ◌&&◌, ◌||◌, not, Option, none, some, List, arith, leb, ◌==◌, length,
  length-take, bytes_eq, bytes_eq_refl, Bool-cases, inl, inr, take, take_all,
}
use protos_tpe.Users as Users
use protos_tpe.Users.Validate.{IsValid, add-IsValid, del-IsValid}
use protos_tpe.Config.{Config}
use protos_tpe.Config.Laws.{InBudget, apply-InBudget, timeout, buffer_size, connections}
use protos_tpe.Text.{parse_u32}
use protos_tpe.Mgmt.{Session, Deps, AdminCreds, admin_check, admin_set_pass}
use protos_tpe.Mgmt.Commands.{arg, add_user, del_user, set_config, set_value, set_key, change_pass}
use protos_tpe.Mgmt.Dispatch.{authenticate, admin_command, dispatch}

pub record IsSized (a : AdminCreds) : Type 0 where
  pub name_fits : length a.name ≤ 255
  pub pass_fits : length a.pass ≤ 255

-- The store within its array and with distinct names, the parameters within the budget of a
-- selector, and the credentials within their arrays.
pub record IsSound (capacity : ℕ) (d : Deps) : Type 0 where
  pub users_valid : IsValid d.users
  pub in_budget : InBudget capacity d.config
  pub admin_sized : IsSized d.admin

with_users :
    {capacity : ℕ} {d : Deps} (s : Users.Users)
    → IsSound capacity d
    → IsValid s
    → IsSound capacity (record d { users = s })
with_users s h v = record { users_valid = v; in_budget = h.in_budget; admin_sized = h.admin_sized }

add_user-IsSound :
    {capacity : ℕ} {d : Deps} (argv : List (List ℕ))
    → IsSound capacity d
    → IsSound capacity (add_user d argv).0
unfolding add_user
add_user-IsSound {capacity} {d} argv h =
    let new =
      with_users (Users.add d.users (some (arg argv 1)) (some (arg argv 2))).1 h
        (add-IsValid (arg argv 1) (arg argv 2) h.users_valid) in
    ground arith

del_user-IsSound :
    {capacity : ℕ} {d : Deps} (argv : List (List ℕ))
    → IsSound capacity d
    → IsSound capacity (del_user d argv).0
unfolding del_user
del_user-IsSound {capacity} {d} argv h =
    let new =
      with_users (Users.del d.users (arg argv 1)).1 h (del-IsValid (arg argv 1) h.users_valid) in
    ground arith

set_key-InBudget :
    (capacity : ℕ) (c : Config) (key : List ℕ) (v : ℕ)
    → InBudget capacity c
    → InBudget capacity (set_key c key v).1
unfolding set_key
set_key-InBudget capacity c key v h =
    let one = apply-InBudget capacity c (timeout v) h in
    let two = apply-InBudget capacity c (buffer_size v) h in
    let three = apply-InBudget capacity c (connections v) h in ground arith

set_value-IsSound :
    {capacity : ℕ} {d : Deps} (key : List ℕ) (o : Option ℕ)
    → IsSound capacity d
    → IsSound capacity (set_value d key o).0
unfolding set_value
set_value-IsSound key none h = h
set_value-IsSound {capacity} {d} key (some v) h =
    let new : IsSound capacity (record d { config = (set_key d.config key v).1 }) = record {
      users_valid = h.users_valid;
      in_budget = set_key-InBudget capacity d.config key v h.in_budget;
      admin_sized = h.admin_sized;
    } in
    ground arith

set_config-IsSound :
    {capacity : ℕ} {d : Deps} (argv : List (List ℕ))
    → IsSound capacity d
    → IsSound capacity (set_config d argv).0
unfolding set_config
set_config-IsSound argv h =
    let new = set_value-IsSound (arg argv 1) (parse_u32 (some (arg argv 2))) h in ground arith

length-take_le : (n : ℕ) (xs : List ℕ) → length (take n xs) ≤ n
length-take_le n xs = omega (arith, length-take n xs)

admin_set_pass-IsSized :
    (a : AdminCreds) (pass : List ℕ) → IsSized a → IsSized (admin_set_pass a (some pass)).1
unfolding admin_set_pass
admin_set_pass-IsSized a pass h = elim (Bool-cases (length pass == 0 || leb 256 (length pass))) [
  | inl bad ↦ rw bad h
  | inr good ↦ rw good (record { name_fits = h.name_fits; pass_fits = length-take_le 255 pass })
]

change_pass-IsSound :
    {capacity : ℕ} {d : Deps} (argv : List (List ℕ))
    → IsSound capacity d
    → IsSound capacity (change_pass d argv).0
unfolding change_pass
change_pass-IsSound {capacity} {d} argv h =
    let new : IsSound capacity
        (record d { admin = (admin_set_pass d.admin (some (arg argv 1))).1 }) =
      record {
        users_valid = h.users_valid;
        in_budget = h.in_budget;
        admin_sized = admin_set_pass-IsSized d.admin (arg argv 1) h.admin_sized;
      } in
    ground arith

admin_command-IsSound :
    {capacity : ℕ} {d : Deps} (read_file : List ℕ → Option (List ℕ)) (argv : List (List ℕ))
    → IsSound capacity d
    → IsSound capacity (admin_command read_file d argv).0
unfolding admin_command
admin_command-IsSound read_file argv h =
    let a = add_user-IsSound argv h in
    let b = del_user-IsSound argv h in
    let c = set_config-IsSound argv h in let d = change_pass-IsSound argv h in ground arith

authenticate_deps : (s : Session) (argv : List (List ℕ)) → (authenticate s argv).0.deps ≡ s.deps
unfolding authenticate
authenticate_deps s argv = ground arith

-- No line, on any session, takes the shared data out of its invariant: the store of users within
-- its array with distinct names, the parameters in range and within the descriptors of a
-- selector, and the administrator's name and password of at most 255 bytes.
pub dispatch-IsSound :
    {capacity : ℕ} (read_file : List ℕ → Option (List ℕ)) (s : Session) (argv : List (List ℕ))
    → IsSound capacity s.deps
    → IsSound capacity (dispatch read_file s argv).session.deps
unfolding dispatch
dispatch-IsSound {capacity} read_file s argv h =
    let same : IsSound capacity (authenticate s argv).0.deps = rw (authenticate_deps s argv) h in
    let new = admin_command-IsSound read_file argv h in ground arith

fits : (pass : List ℕ) → (length pass == 0 || leb 256 (length pass)) ≡ false → length pass ≤ 255
fits pass h = ground arith

-- After a password has been accepted as the new one, the check of the administrator's name
-- accepts just that password, if there is an administrator.
pub admin_check-change_pass :
    (d : Deps) (pass tried : List ℕ)
    → (admin_set_pass d.admin (some pass)).0 ≡ true
    → admin_check (admin_set_pass d.admin (some pass)).1 d.admin.name tried
      ≡ (not (length d.admin.name == 0) && bytes_eq pass tried)
unfolding admin_check admin_set_pass
admin_check-change_pass d pass tried h =
    elim (Bool-cases (length pass == 0 || leb 256 (length pass))) [
      | inl bad ↦ absurd (cc (rw bad at h))
      | inr good ↦
          let whole : take 255 pass ≡ pass = take_all 255 pass (fits pass good) in
          rw (good, whole, bytes_eq_refl d.admin.name) (ground arith)
    ]
