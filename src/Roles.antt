-- ===== src/Roles.antt =====
-- internal/application/rbac: the operator roles. A nil role or user is `none`; the length of a
-- text is that of its UTF-8 form.
pub mod Shape
pub mod Tables
pub mod Protected
use Prim.Native.Char.{Char, code}
use Prim.Native.String
use sienne.Base.{
  ℕ, zero, suc, ◌+◌, ◌-◌, ◌*◌, ◌/◌, ◌%◌, ◌^◌, ◌≤◌, ◌<◌, String, ◌≡◌, refl, sym, ap, subst, ◌∙◌, ◌≢◌,
  ◌↔◌, ◌⊎◌, inl, inr, Bool, true, false, not, ◌&&◌, ◌||◌, Option, none, some, List, [], ◌∷◌, ◌++◌,
  map, arith, ◌==◌, eq_iff, eq_refl, ltb, leb, nat_eq, nat_eq_iff, if◌then◌else◌, Bool-cases,
  Option-cases, length, length-append, All, All-append, Any,
}
use sienne.Base.Exec.{
  caught, Fault, no_rows, other, Result, ok, err, fault, Exec, Port, pure, fail, raise, call,
  always, ignore, guard, require, ◌>>=◌, ◌>>◌,
}
use sienne.Base.Int.{
  ℤ, pos, negsuc, pos_part, neg_part, sub_ℕ, ◌+ℤ◌, ◌-ℤ◌, ◌*ℤ◌, ◌<ℤ◌, ltb_ℤ, eqb_ℤ, ltb_ℤ_iff,
  eqb_ℤ_iff, nanos_per_second, seconds, unix, whole_seconds, +ℤ_parts,
}
use sienne.Base.Text.{trim_space, to_lower, to_upper, join, is_blank, trim_space_idem}
use sienne.Domain.{
  positive, positive-eq-some, active_client, active_client-eq-some, zero_time, Client, Session,
  AuthorizationCode, User, AccessToken, RefreshToken, OperatorRole,
}
use sienne.Ports.{
  OperatorRoles, SessionCacheEntry, SessionCache, ReplayStatus, replay_none, replay_grace,
  replay_rejected, TokenResponse, ReplayResult, AccessTokenEntry, RefreshTokenEntry, TokenCache,
  DeviceCodeEntry, DeviceCodes, Clients, Sessions, Consents, AuthorizationCodes, Users, Tokens,
  Clock, Json, Strconv, Passwords, Claim, text, texts, number, flag, Signer, Digest,
}
use sienne.Base.Text.{byte_length}
use sienne.Rbac.{
  mask_end_user, mask_support, mask_oauth_admin, mask_security_admin, mask_super_admin,
}

pub data Err : Type 0 where
  invalid_role_code role_already_exists role_not_found system_role_immutable role_in_use : Err
  user_not_found invalid_privilege invalid_tenant_scope invalid_display_name : Err
  invalid_description : Err

pub record RoleView : Type 0 where
  pub role_code : String
  pub display_name : String
  pub description : String
  pub privilege_mask : ℕ
  pub is_system : Bool

pub record AssignRoleInput : Type 0 where
  pub user_id : ℤ
  pub role_code : String
  pub privilege_mask : Option ℕ
  pub tenant_scope : String

pub record AssignRoleResult : Type 0 where
  pub user_id : ℤ
  pub username : String
  pub role_code : String
  pub privilege_mask : ℕ
  pub tenant_scope : String

pub record UpsertRoleInput : Type 0 where
  pub role_code : String
  pub display_name : String
  pub description : String
  pub privilege_mask : ℕ

pub record DeleteRoleInput : Type 0 where
  pub role_code : String

pub record RoleUserView : Type 0 where
  pub user_id : ℤ
  pub user_uuid : String
  pub username : String
  pub email : String
  pub display_name : String
  pub status : String
  pub role_code : String
  pub privilege_mask : ℕ
  pub tenant_scope : String

pub record ListUsersByRoleInput : Type 0 where
  pub role_code : String
  pub limit : ℤ

pub record ListUsersByRoleResult : Type 0 where
  pub role_code : String
  pub users : List RoleUserView

pub record RoleUsageView : Type 0 where
  pub role_code : String
  pub display_name : String
  pub is_system : Bool
  pub privilege_mask : ℕ
  pub user_count : ℤ

pub record Service (W : Type 0) : Type 0 where
  pub roles : OperatorRoles W
  pub users : Users W

-- roleCodePattern: `^[a-z][a-z0-9_:-]{2,63}$`
abbrev pub is_lower : Char → Bool
is_lower c = leb 97 (code c) && leb (code c) 122

abbrev pub is_code_char : Char → Bool
is_code_char c =
    is_lower c
    || (leb 48 (code c) && leb (code c) 57)
    || nat_eq (code c) 95
    || nat_eq (code c) 58
    || nat_eq (code c) 45

-- Between `least` and `most` characters of the class, and then the end.
unfoldable pub repeats : ℕ → ℕ → String → Bool
repeats least most String.[] = nat_eq least 0
repeats least zero (String.◌∷◌ c s) = false
repeats least (suc most) (String.◌∷◌ c s) =
    let rest = repeats (least - 1) most s in is_code_char c && rest

unfoldable pub role_code_pattern : String → Bool
unfolding repeats
role_code_pattern String.[] = false
role_code_pattern (String.◌∷◌ c s) = is_lower c && repeats 2 63 s

-- normalizeRoleInput: its error, if it has one, and the role code.
unfoldable pub role_input_error : UpsertRoleInput → Option Err
unfolding role_code_pattern byte_length
role_input_error input =
    let name = byte_length (trim_space input.display_name) in
    let text = byte_length (trim_space input.description) in
    if not (role_code_pattern (trim_space input.role_code))
    then some invalid_role_code
    else if ltb name 2 || ltb 128 name
    then some invalid_display_name
    else if ltb text 4 || ltb 512 text
    then some invalid_description
    else none

abbrev pub builtin : String → String → String → ℕ → OperatorRole
builtin role_code display_name description privilege_mask = record {
  id = pos 0;
  role_code = role_code;
  display_name = display_name;
  description = description;
  privilege_mask = privilege_mask;
  is_system = true;
  created_at = zero_time;
  updated_at = zero_time;
}

abbrev pub builtin_roles : List OperatorRole
builtin_roles =
    builtin "end_user" "End User" "regular end user without management privilege" mask_end_user
    ∷ builtin "support" "Support Engineer"
        "support operator with read and limited execution permissions" mask_support
    ∷ builtin "oauth_admin" "OAuth Administrator"
        "operator managing oauth clients and protocol settings" mask_oauth_admin
    ∷ builtin "security_admin" "Security Administrator"
        "security operator with broad but not catastrophic security permissions" mask_security_admin
    ∷ builtin "super_admin" "Super Administrator"
        "full access operator for bootstrap and emergency operations" mask_super_admin
    ∷ []

unfoldable pub to_role_view : OperatorRole → RoleView
to_role_view model = record {
  role_code = model.role_code;
  display_name = model.display_name;
  description = model.description;
  privilege_mask = model.privilege_mask;
  is_system = model.is_system;
}

-- The loops that skip nil entries.
unfoldable pub role_views : List (Option OperatorRole) → List RoleView
unfolding to_role_view
role_views [] = []
role_views (none ∷ rest) = role_views rest
role_views (some model ∷ rest) = to_role_view model ∷ role_views rest

unfoldable pub user_views : List (Option User) → List RoleUserView
user_views [] = []
user_views (none ∷ rest) = user_views rest
user_views (some user ∷ rest) =
    (record {
      user_id = user.id;
      user_uuid = user.user_uuid;
      username = user.username;
      email = user.email;
      display_name = user.display_name;
      status = user.status;
      role_code = user.role_code;
      privilege_mask = user.privilege_mask;
      tenant_scope = user.tenant_scope;
    })
    ∷ user_views rest

-- The model that CreateRole stores, and the one that UpdateRole makes of an existing one.
unfoldable pub new_role : UpsertRoleInput → OperatorRole
new_role input = record {
  id = pos 0;
  role_code = trim_space input.role_code;
  display_name = trim_space input.display_name;
  description = trim_space input.description;
  privilege_mask = input.privilege_mask;
  is_system = false;
  created_at = zero_time;
  updated_at = zero_time;
}

unfoldable pub changed_role : UpsertRoleInput → OperatorRole → OperatorRole
changed_role input existing = record existing {
  display_name = trim_space input.display_name;
  description = trim_space input.description;
  privilege_mask = input.privilege_mask;
}

given_or : Option ℕ → ℕ → ℕ
given_or none preset = preset
given_or (some mask) preset = mask

module _ {W : Type 0} (s : Service W) where
  upsert_each : List OperatorRole → Exec W Err (Unit {0})
  upsert_each [] = pure tt
  upsert_each (role ∷ rest) = do call (s.roles.upsert role); upsert_each rest

  unfoldable pub bootstrap_builtin_roles : Exec W Err (List RoleView)
  unfolding upsert_each to_role_view
  bootstrap_builtin_roles = do upsert_each builtin_roles; pure (map to_role_view builtin_roles)

  unfoldable pub list_roles : Exec W Err (List RoleView)
  unfolding role_views
  list_roles = do models ← call s.roles.list; pure (role_views models)

  unfoldable pub list_users_by_role : ListUsersByRoleInput → Exec W Err ListUsersByRoleResult
  unfolding role_code_pattern user_views
  list_users_by_role input = do
    guard (role_code_pattern (trim_space input.role_code)) invalid_role_code
    role ← call (s.roles.find_by_role_code (trim_space input.role_code))
    found ← require role role_not_found
    users ← call (s.users.list_by_role_code (trim_space input.role_code) input.limit)
    pure (record { role_code = trim_space input.role_code; users = user_views users })

  usage_each : List (Option OperatorRole) → Exec W Err (List RoleUsageView)
  usage_each [] = pure []
  usage_each (none ∷ rest) = usage_each rest
  usage_each (some role ∷ rest) = do
    count ← call (s.users.count_by_role_code role.role_code)
    more ← usage_each rest
    pure (
        (record {
          role_code = role.role_code;
          display_name = role.display_name;
          is_system = role.is_system;
          privilege_mask = role.privilege_mask;
          user_count = count;
        })
        ∷ more)

  unfoldable pub role_usage : Exec W Err (List RoleUsageView)
  unfolding usage_each
  role_usage = do roles ← call s.roles.list; usage_each roles

  unfoldable pub assign_role : AssignRoleInput → Exec W Err AssignRoleResult
  unfolding byte_length given_or
  assign_role input = do
    guard (ltb_ℤ (pos 0) input.user_id) user_not_found
    let role_code = trim_space input.role_code
    guard (not (is_blank role_code)) invalid_role_code
    guard (leb (byte_length input.tenant_scope) 128) invalid_tenant_scope
    known ← call (s.users.find_by_id input.user_id)
    user ← require known user_not_found
    found ← call (s.roles.find_by_role_code role_code)
    role ← require found role_not_found
    let mask = given_or input.privilege_mask role.privilege_mask
    call (
        s.users.update_role_and_privilege input.user_id role_code mask
          (trim_space input.tenant_scope))
    pure (record {
      user_id = user.id;
      username = user.username;
      role_code = role_code;
      privilege_mask = mask;
      tenant_scope = trim_space input.tenant_scope;
    })

  check_input : Option Err → Exec W Err (Unit {0})
  check_input none = pure tt
  check_input (some e) = fail e

  store_new : Option OperatorRole → UpsertRoleInput → Exec W Err RoleView
  unfolding new_role to_role_view
  store_new (some existing) input = fail role_already_exists
  store_new none input = do
    call (s.roles.create (new_role input))
    pure (to_role_view (new_role input))

  unfoldable pub create_role : UpsertRoleInput → Exec W Err RoleView
  unfolding check_input role_input_error store_new
  create_role input = do
    check_input (role_input_error input)
    existing ← call (s.roles.find_by_role_code (trim_space input.role_code))
    store_new existing input

  unfoldable pub update_role : UpsertRoleInput → Exec W Err RoleView
  unfolding check_input role_input_error changed_role to_role_view
  update_role input = do
    check_input (role_input_error input)
    found ← call (s.roles.find_by_role_code (trim_space input.role_code))
    existing ← require found role_not_found
    guard (not existing.is_system) system_role_immutable
    call (s.roles.update (changed_role input existing))
    pure (to_role_view (changed_role input existing))

  unfoldable pub delete_role : DeleteRoleInput → Exec W Err (Unit {0})
  unfolding role_code_pattern
  delete_role input = do
    let role_code = trim_space input.role_code
    guard (role_code_pattern role_code) invalid_role_code
    found ← call (s.roles.find_by_role_code role_code)
    existing ← require found role_not_found
    guard (not existing.is_system) system_role_immutable
    count ← call (s.users.count_by_role_code role_code)
    guard (not (ltb_ℤ (pos 0) count)) role_in_use
    call (s.roles.delete_by_role_code role_code)
