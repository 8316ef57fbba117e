-- ===== src/Users/Tests.antt =====
-- users.c on a small store.
use protos_tpe.Prelude.{◌≡◌, refl, true, false, some, [], ◌∷◌, arith, replicate}
use protos_tpe.Users.{Users, blank, find, add, del, validate}
use protos_tpe.Users.Laws.{Added, Deleted, entry, users_add-append, users_del-erase}
use protos_tpe.Users.Validate.{IsValid, validate-eq, validate-add, validate-del}

-- the users "a" and "b"
abbrev two : Users
two = record {
  count = 2;
  entries = entry (97 ∷ []) (1 ∷ []) ∷ entry (98 ∷ []) (2 ∷ []) ∷ replicate 98 blank;
}

two-IsValid : IsValid two
two-IsValid = record {
  in_bounds = record { size = refl; fits = omega arith };
  distinct = (refl, (refl, tt));
}

users_add-append_example : Added two (99 ∷ []) (3 ∷ []) (add two (some (99 ∷ [])) (some (3 ∷ [])))
users_add-append_example = users_add-append (99 ∷ []) (3 ∷ []) two-IsValid.in_bounds

users_del-erase_example : Deleted two (97 ∷ []) (del two (97 ∷ []))
users_del-erase_example = users_del-erase (97 ∷ []) two-IsValid.in_bounds

validate-add_example :
    validate (add two (some (99 ∷ [])) (some (3 ∷ []))).1 (99 ∷ []) 1 (3 ∷ []) 1 ≡ true
unfolding add find
validate-add_example = validate-add (99 ∷ []) (3 ∷ []) (3 ∷ []) two-IsValid refl

validate-del_example : validate (del two (97 ∷ [])).1 (97 ∷ []) 1 (1 ∷ []) 1 ≡ false
validate-del_example = validate-del (97 ∷ []) (1 ∷ []) two-IsValid

-- the arrays hold more bytes than the lengths say
validate-eq_example : validate two (97 ∷ 7 ∷ []) 1 (1 ∷ 8 ∷ []) 1 ≡ true
validate-eq_example =
    validate-eq two (97 ∷ 7 ∷ []) (1 ∷ 8 ∷ []) (97 ∷ []) (1 ∷ []) 1 1
      (record { bytes = refl; size = refl }) (record { bytes = refl; size = refl })
      two-IsValid.in_bounds
