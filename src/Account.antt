-- ===== src/Account.antt =====
-- internal/application/register: the registration of users, and the two acts of an administrator
-- on an account. The length of a text is that of its UTF-8 form.
pub mod Registered
use Prim.Native.Char.{Char, code}
use Prim.Native.String
use sienne.Base.{
  ℕ, zero, suc, ◌+◌, ◌-◌, ◌*◌, ◌/◌, ◌%◌, ◌^◌, ◌≤◌, ◌<◌, String, ◌≡◌, refl, sym, ap, subst, ◌∙◌, ◌≢◌,
  ◌↔◌, ◌⊎◌, inl, inr, Bool, true, false, not, ◌&&◌, ◌||◌, Option, none, some, List, [], ◌∷◌, ◌++◌,
  map, arith, ◌==◌, eq_iff, eq_refl, ltb, leb, nat_eq, nat_eq_iff, if◌then◌else◌, Bool-cases,
  Option-cases, length, length-append, All, All-append, Any,
}
use sienne.Base.Exec.{
  caught, Fault, no_rows, other, Result, ok, err, fault, Exec, Port, pure, fail, raise, call,
  always, ignore, guard, require, ◌>>=◌, ◌>>◌,
}
use sienne.Base.Int.{
  ℤ, pos, negsuc, pos_part, neg_part, sub_ℕ, ◌+ℤ◌, ◌-ℤ◌, ◌*ℤ◌, ◌<ℤ◌, ltb_ℤ, eqb_ℤ, ltb_ℤ_iff,
  eqb_ℤ_iff, nanos_per_second, seconds, unix, whole_seconds, +ℤ_parts,
}
use sienne.Base.Text.{trim_space, to_lower, to_upper, join, is_blank, trim_space_idem}
use sienne.Domain.{
  positive, positive-eq-some, active_client, active_client-eq-some, zero_time, Client, Session,
  AuthorizationCode, User, AccessToken, RefreshToken,
}
use sienne.Ports.{
  RateLimit, SessionCacheEntry, SessionCache, ReplayStatus, replay_none, replay_grace,
  replay_rejected, TokenResponse, ReplayResult, AccessTokenEntry, RefreshTokenEntry, TokenCache,
  DeviceCodeEntry, DeviceCodes, Clients, Sessions, Consents, AuthorizationCodes, Users, Tokens,
  Clock, Json, Strconv, Passwords, Claim, text, texts, number, flag, Signer, Digest,
}
use sienne.Base.Text.{characters, byte_length}

pub data Err : Type 0 where
  invalid_username invalid_email invalid_display_name weak_password : Err
  username_already_used email_already_used user_not_found : Err
  password_update_failed user_unlock_failed : Err

pub record RegisterInput : Type 0 where
  pub username : String
  pub email : String
  pub display_name : String
  pub password : String
  pub email_verified : Bool
  pub auto_activate : Bool

pub record RegisterResult : Type 0 where
  pub user_id : ℤ
  pub user_uuid : String
  pub username : String
  pub email : String
  pub email_verified : Bool
  pub display_name : String
  pub status : String
  pub created_at : ℤ

pub record AdminResetPasswordInput : Type 0 where
  pub user_id : ℤ
  pub new_password : String

pub record AdminResetPasswordResult : Type 0 where
  pub user_id : ℤ
  pub username : String
  pub password_set_at : ℤ

pub record AdminUnlockUserInput : Type 0 where
  pub user_id : ℤ

pub record AdminUnlockUserResult : Type 0 where
  pub user_id : ℤ
  pub username : String
  pub unlocked_at : ℤ

-- The repository of users may also be a passwordHashUpdater: `none` is not. That it unlocks
-- accounts is part of its interface.
-- `parses_address` says whether net/mail's ParseAddress returns no error.
pub record Service (W : Type 0) : Type 0 where
  pub users : Users W
  pub update_password_hash : Option (ℤ → String → ℤ → Port W (Unit {0}))
  pub passwords : Option (Passwords W)
  pub rate_limit : Option (RateLimit W)
  pub clock : Clock W
  pub strconv : Strconv
  pub new_uuid : W → String × W
  pub parses_address : String → Bool

abbrev pub is_letter : Char → Bool
is_letter c = (leb 97 (code c) && leb (code c) 122) || (leb 65 (code c) && leb (code c) 90)

abbrev pub is_digit : Char → Bool
is_digit c = leb 48 (code c) && leb (code c) 57

-- usernamePattern: `^[a-zA-Z0-9._-]{3,32}$`
abbrev pub is_name_char : Char → Bool
is_name_char c =
    is_letter c || is_digit c || nat_eq (code c) 46 || nat_eq (code c) 95 || nat_eq (code c) 45

unfoldable pub every : (Char → Bool) → String → Bool
every test String.[] = true
every test (String.◌∷◌ c s) = test c && every test s

unfoldable pub some_char : (Char → Bool) → String → Bool
some_char test String.[] = false
some_char test (String.◌∷◌ c s) = test c || some_char test s

unfoldable pub username_pattern : String → Bool
unfolding every
username_pattern s = leb 3 (characters s) && leb (characters s) 32 && every is_name_char s

unfoldable pub is_strong_enough_password : String → Bool
unfolding byte_length some_char
is_strong_enough_password raw =
    let password = trim_space raw in
    leb 8 (byte_length password)
    && leb (byte_length password) 128
    && some_char is_letter password
    && some_char is_digit password

module _ {W : Type 0} (s : Service W) where
  unfoldable pub is_valid_email : String → Bool
  unfolding byte_length
  is_valid_email email = leb (byte_length email) 255 && s.parses_address email

  unfoldable pub new_user : RegisterInput → String → String → ℤ → User
  new_user input uuid hash now = record {
    id = pos 0;
    user_uuid = uuid;
    username = trim_space input.username;
    email = to_lower (trim_space input.email);
    email_verified = input.email_verified;
    display_name = trim_space input.display_name;
    password_hash = hash;
    role_code = "";
    privilege_mask = 0;
    tenant_scope = "";
    status = if input.auto_activate then "active" else "pending_verification";
    failed_login_count = pos 0;
    last_login_at = none;
    created_at = now;
    updated_at = now;
  }

  unfoldable pub register_result : User → ℤ → ℤ → RegisterResult
  register_result user id now = record {
    user_id = id;
    user_uuid = user.user_uuid;
    username = user.username;
    email = user.email;
    email_verified = user.email_verified;
    display_name = user.display_name;
    status = user.status;
    created_at = now;
  }

  unfoldable pub absent : Option User → Bool
  absent none = true
  absent (some user) = false

  store_user : Passwords W → RegisterInput → Exec W Err RegisterResult
  unfolding new_user register_result
  store_user passwords input = do
    hash ← call (passwords.hash_password input.password)
    now ← always s.clock.now
    uuid ← always s.new_uuid
    let user = new_user input uuid hash now
    id ← call (s.users.create user)
    pure (register_result user id now)

  unfoldable pub register : RegisterInput → Exec W Err RegisterResult
  unfolding username_pattern is_valid_email is_strong_enough_password byte_length absent store_user
  register input = do
    let name = byte_length (trim_space input.display_name)
    guard (username_pattern (trim_space input.username)) invalid_username
    guard (is_valid_email (to_lower (trim_space input.email))) invalid_email
    guard (leb 2 name && leb name 128) invalid_display_name
    guard (is_strong_enough_password input.password) weak_password
    by_username ← call (s.users.find_by_username (trim_space input.username))
    guard (absent by_username) username_already_used
    by_email ← call (s.users.find_by_email (to_lower (trim_space input.email)))
    guard (absent by_email) email_already_used
    passwords ← require s.passwords weak_password
    store_user passwords input

  unfoldable pub admin_reset_password :
      AdminResetPasswordInput → Exec W Err AdminResetPasswordResult
  unfolding is_strong_enough_password
  admin_reset_password input = do
    guard (ltb_ℤ (pos 0) input.user_id) user_not_found
    guard (is_strong_enough_password input.new_password) weak_password
    passwords ← require s.passwords weak_password
    update ← require s.update_password_hash password_update_failed
    found ← call (s.users.find_by_id input.user_id)
    user ← require found user_not_found
    hash ← call (passwords.hash_password input.new_password)
    now ← always s.clock.now
    call (update input.user_id hash now)
    pure (record { user_id = user.id; username = user.username; password_set_at = now })

  clear_name : RateLimit W → Bool → String → Exec W Err (Unit {0})
  clear_name limits true username = pure tt
  clear_name limits false username = do
    ignore (limits.reset_login_fail_by_user username)
    ignore (limits.reset_blacklist_by_user username)

  clear_limits : Option (RateLimit W) → ℤ → String → Exec W Err (Unit {0})
  unfolding clear_name
  clear_limits none user_id username = pure tt
  clear_limits (some limits) user_id username = do
    ignore (limits.clear_user_lock (s.strconv.format_int user_id))
    clear_name limits (is_blank username) username

  unfoldable pub admin_unlock_user : AdminUnlockUserInput → Exec W Err AdminUnlockUserResult
  unfolding clear_limits
  admin_unlock_user input = do
    guard (ltb_ℤ (pos 0) input.user_id) user_not_found
    found ← call (s.users.find_by_id input.user_id)
    user ← require found user_not_found
    now ← always s.clock.now
    call (s.users.unlock_account input.user_id now)
    clear_limits s.rate_limit input.user_id (trim_space user.username)
    pure (record { user_id = user.id; username = user.username; unlocked_at = now })
