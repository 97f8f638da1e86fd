-- ===== src/Roles/Shape.antt =====
-- What a successful request to the operator role service of internal/application/rbac has checked.
use sienne.Base.{
  ℕ, zero, suc, ◌-◌, ◌≤◌, String, ◌≡◌, refl, sym, ap, subst, ◌∙◌, Bool, true, false, not, ◌&&◌,
  Option, none, some, arith, nat_eq_iff,
}
use sienne.Base.Exec.{ok, fail}
use sienne.Base.Int.{ℤ, pos, ltb_ℤ}
use sienne.Base.Text.{trim_space}
use sienne.Domain.{OperatorRole}
use sienne.Base.Text.{characters, AllChars, byte_length}
use sienne.Base.Exec.Success.{
  call_alone-eq-ok, >>=-eq-ok, require-eq-ok, call-eq-ok, guard-eq-ok, pure-eq-ok,
}
use sienne.Roles.{
  Service, Err, RoleView, UpsertRoleInput, DeleteRoleInput, is_lower, is_code_char, repeats,
  role_code_pattern, role_input_error, new_role, to_role_view, check_input, store_new, create_role,
  delete_role,
}

-- From 3 to 64 characters: a lower case letter, then letters of lower case, digits and `_:-`.
abbrev pub IsRoleCode : String → Type 0
IsRoleCode String.[] = ⊥
IsRoleCode (String.◌∷◌ c s) =
    (is_lower c ≡ true)
    × (2 ≤ characters s)
    × (characters s ≤ 63)
    × AllChars (λ x. is_code_char x ≡ true) s

both_true : (a b : Bool) → (a && b) ≡ true → (a ≡ true) × (b ≡ true)
both_true true b h = (refl, h)
both_true false b h = cc

false_of_not : (test : Bool) → not test ≡ true → test ≡ false
false_of_not true h = cc
false_of_not false h = refl

repeats-eq-true :
    (least most : ℕ) (s : String)
    → repeats least most s ≡ true
    → (least ≤ characters s) × (characters s ≤ most) × AllChars (λ x. is_code_char x ≡ true) s
unfolding repeats
repeats-eq-true least most String.[] h = (ground (arith, nat_eq_iff least 0), omega arith, tt)
repeats-eq-true least zero (String.◌∷◌ c s) h = cc
repeats-eq-true least (suc most) (String.◌∷◌ c s) h =
    let (here, rest) = both_true (is_code_char c) _ h in
    let (least_ok, most_ok, all) = repeats-eq-true (least - 1) most s rest in
    (omega (arith, least_ok), omega (arith, most_ok), (here, all))

role_code_pattern-IsRoleCode : (s : String) → role_code_pattern s ≡ true → IsRoleCode s
unfolding role_code_pattern
role_code_pattern-IsRoleCode String.[] h = cc
role_code_pattern-IsRoleCode (String.◌∷◌ c s) h =
    let (lower, rest) = both_true (is_lower c) _ h in
    let (least, most, all) = repeats-eq-true 2 63 s rest in (lower, least, most, all)

-- The texts of a role are within their bounds.
pub record IsValid (input : UpsertRoleInput) : Type 0 where
  pub role_code : IsRoleCode (trim_space input.role_code)
  pub least_name : 2 ≤ byte_length (trim_space input.display_name)
  pub most_name : byte_length (trim_space input.display_name) ≤ 128
  pub least_text : 4 ≤ byte_length (trim_space input.description)
  pub most_text : byte_length (trim_space input.description) ≤ 512

role_input_error-IsValid : (input : UpsertRoleInput) → role_input_error input ≡ none → IsValid input
unfolding role_input_error
role_input_error-IsValid input h = record {
  role_code = role_code_pattern-IsRoleCode (trim_space input.role_code) (ground arith);
  least_name = ground arith;
  most_name = ground arith;
  least_text = ground arith;
  most_text = ground arith;
}

module _ {W : Type 0} (s : Service W) where
  check_input-eq-ok :
      (o : Option Err) (w v : W) → check_input s o w ≡ (ok tt, v) → (o ≡ none) × (w ≡ v)
  unfolding check_input fail
  check_input-eq-ok none w v h = (refl, (pure-eq-ok h).1)
  check_input-eq-ok (some e) w v h = cc

  -- What CreateRole has found and stored.
  pub record Created (input : UpsertRoleInput) (w v : W) (a : RoleView) : Type 0 where
    pub valid : IsValid input
    pub looked : W
    pub unknown : s.roles.find_by_role_code (trim_space input.role_code) w ≡ (ok none, looked)
    pub role : OperatorRole
    pub role_code : role.role_code ≡ trim_space input.role_code
    pub display_name : role.display_name ≡ trim_space input.display_name
    pub description : role.description ≡ trim_space input.description
    pub mask : role.privilege_mask ≡ input.privilege_mask
    pub changeable : role.is_system ≡ false
    pub stored : s.roles.create role looked ≡ (ok tt, v)
    pub answers :
        (a.role_code ≡ role.role_code)
        × (a.display_name ≡ role.display_name)
        × (a.description ≡ role.description)
        × (a.privilege_mask ≡ role.privilege_mask)
        × (a.is_system ≡ false)

  store_new-Created :
      (found : Option OperatorRole) (input : UpsertRoleInput) (w u v : W) (a : RoleView)
      → IsValid input
      → s.roles.find_by_role_code (trim_space input.role_code) w ≡ (ok found, u)
      → store_new s found input u ≡ (ok a, v)
      → Created input w v a
  unfolding store_new fail new_role to_role_view
  store_new-Created (some existing) input w u v a valid e h = cc
  store_new-Created none input w u v a valid e h =
      let (x, w₁, stored, h₁) = call-eq-ok _ _ h in
      let (answer, end) = pure-eq-ok h₁ in
      record {
        valid = valid;
        looked = u;
        unknown = e;
        role = new_role input;
        role_code = refl;
        display_name = refl;
        description = refl;
        mask = refl;
        changeable = refl;
        stored = stored ∙ ap (λ y. (ok tt, y)) end;
        answers = (
          sym (ap (λ (x : RoleView). x.role_code) answer),
          sym (ap (λ (x : RoleView). x.display_name) answer),
          sym (ap (λ (x : RoleView). x.description) answer),
          sym (ap (λ (x : RoleView). x.privilege_mask) answer),
          sym (ap (λ (x : RoleView). x.is_system) answer),
        );
      }

  -- A role is created only with a role code of 3 to 64 characters of its class, a name of 2 to 128
  -- bytes and a description of 4 to 512 bytes, where no role has that code. The role that is stored
  -- has these texts, trimmed, and the mask of the request, and is no system role; the answer repeats
  -- it.
  pub create_role-Created :
      (input : UpsertRoleInput) (w v : W) (a : RoleView)
      → create_role s input w ≡ (ok a, v)
      → Created input w v a
  unfolding create_role
  create_role-Created input w v a h =
      let (_, w₁, checked, h₁) = >>=-eq-ok _ _ h in
      let (no_error, same) = check_input-eq-ok _ w w₁ checked in
      let (found, w₂, looked, h₂) = call-eq-ok _ _ h₁ in
      store_new-Created found input w w₂ v a (role_input_error-IsValid input no_error)
        (subst (λ x. s.roles.find_by_role_code (trim_space input.role_code) x ≡ (ok found, w₂))
          (sym same) looked)
        h₂

  -- What DeleteRole has found and done.
  pub record Gone (input : DeleteRoleInput) (w v : W) : Type 0 where
    pub existing : OperatorRole
    pub count : ℤ
    pub looked : W
    pub counted : W
    pub shape : IsRoleCode (trim_space input.role_code)
    pub found :
        s.roles.find_by_role_code (trim_space input.role_code) w ≡ (ok (some existing), looked)
    pub changeable : existing.is_system ≡ false
    pub counts :
        s.users.count_by_role_code (trim_space input.role_code) looked ≡ (ok count, counted)
    pub unused : ltb_ℤ (pos 0) count ≡ false
    pub deleted : s.roles.delete_by_role_code (trim_space input.role_code) counted ≡ (ok tt, v)

  -- A role is deleted only if it exists, is no system role, and no user has it.
  pub delete_role-Gone :
      (input : DeleteRoleInput) (w v : W) → delete_role s input w ≡ (ok tt, v) → Gone input w v
  unfolding delete_role
  delete_role-Gone input w v h =
      let (shaped, h₁) = guard-eq-ok _ _ _ h in
      let (found, w₁, looked, h₂) = call-eq-ok _ _ h₁ in
      let (existing, is_some, h₃) = require-eq-ok _ _ _ h₂ in
      let (free, h₄) = guard-eq-ok _ _ _ h₃ in
      let (count, w₂, counted, h₅) = call-eq-ok _ _ h₄ in
      let (unused, h₆) = guard-eq-ok (not (ltb_ℤ (pos 0) count)) _ _ h₅ in
      record {
        existing = existing;
        count = count;
        looked = w₁;
        counted = w₂;
        shape = role_code_pattern-IsRoleCode _ shaped;
        found = looked ∙ ap (λ o. (ok o, w₁)) is_some;
        changeable = false_of_not existing.is_system free;
        counts = counted;
        unused = false_of_not _ unused;
        deleted = call_alone-eq-ok _ h₆;
      }
