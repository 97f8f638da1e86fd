-- ===== src/Token/Grants.antt =====
-- The client_credentials, password and device_code grants.
pub mod Sound
use sienne.Base.{
  ℕ, zero, suc, ◌+◌, ◌-◌, ◌*◌, ◌/◌, ◌%◌, ◌^◌, ◌≤◌, ◌<◌, String, ◌≡◌, refl, sym, ap, subst, ◌∙◌, ◌≢◌,
  ◌↔◌, ◌⊎◌, inl, inr, Bool, true, false, not, ◌&&◌, ◌||◌, Option, none, some, List, [], ◌∷◌, ◌++◌,
  map, arith, ◌==◌, eq_iff, eq_refl, ltb, leb, nat_eq, nat_eq_iff, if◌then◌else◌, Bool-cases,
  Option-cases, length, length-append, All, All-append, Any,
}
use sienne.Base.Exec.{
  caught, Fault, no_rows, other, Result, ok, err, fault, Exec, Port, pure, fail, raise, call,
  always, ignore, guard, require, ◌>>=◌, ◌>>◌,
}
use sienne.Base.Int.{
  ℤ, pos, negsuc, pos_part, neg_part, sub_ℕ, ◌+ℤ◌, ◌-ℤ◌, ◌*ℤ◌, ◌<ℤ◌, ltb_ℤ, eqb_ℤ, ltb_ℤ_iff,
  eqb_ℤ_iff, nanos_per_second, seconds, unix, whole_seconds, +ℤ_parts,
}
use sienne.Base.Text.{trim_space, to_lower, to_upper, join, is_blank, trim_space_idem}
use sienne.Domain.{
  active_client, active_client-eq-some, zero_time, Client, Session, AuthorizationCode, User,
  AccessToken, RefreshToken,
}
use sienne.Ports.{
  SessionCacheEntry, SessionCache, ReplayStatus, replay_none, replay_grace, replay_rejected,
  TokenResponse, ReplayResult, AccessTokenEntry, RefreshTokenEntry, TokenCache, DeviceCodeEntry,
  DeviceCodes, Clients, Sessions, Consents, AuthorizationCodes, Users, Tokens, Clock, Json, Strconv,
  Passwords, Claim, text, texts, number, flag, Signer, Digest,
}
use sienne.Scopes.{contains, normalize_from, normalize_scopes, allowed_set, each_in, all_contained}
use sienne.Token.{
  Err, unsupported_grant_type, invalid_client, invalid_scope, invalid_code, invalid_redirect_uri,
  invalid_code_verifier, invalid_refresh_token, invalid_user_credentials, invalid_device_code,
  authorization_pending, slow_down, access_denied, Input, Answer, Service,
  refresh_token_grace_period, grant_authorization_code, grant_refresh_token,
  grant_client_credentials, grant_password, grant_device_code, verifies, validate_client_secret,
  validate_code_verifier, must_decode_scope_json, should_issue_refresh_token, int64_string_ptr,
  granted_scopes, answer_of_response, find_client, check_secret, access_claims, access_model,
  mint_access, refresh_model, refresh_entry, new_refresh_token, add_refresh,
  issue_user_grant_tokens,
}

-- `user == nil || user.Status == "locked" || (user.Status != "" && user.Status != "active")` fails.
unfoldable pub usable_user : Option User → Option User
usable_user none = none
usable_user (some u) =
    if u.status == "locked"
    then none
    else if not (is_blank u.status) && not (u.status == "active")
    then none
    else some u

-- `entry == nil || entry.ClientID != client.ClientID || !entry.ExpiresAt.After(now)` fails.
unfoldable pub current_entry : Client → ℤ → Option DeviceCodeEntry → Option DeviceCodeEntry
current_entry client now none = none
current_entry client now (some entry) =
    if entry.client_id == client.client_id && ltb_ℤ now entry.expires_at then some entry else none

-- The `switch` on the status: `none` goes on.
unfoldable pub device_status_error : String → Option Err
device_status_error status =
    if is_blank status || status == "pending"
    then some authorization_pending
    else if status == "denied"
    then some access_denied
    else if status == "consumed"
    then some invalid_device_code
    else if status == "approved"
    then none
    else some invalid_device_code

unfoldable pub approving_user : Option ℤ → Option ℤ
approving_user none = none
approving_user (some n) = if ltb_ℤ (pos 0) n then some n else none

-- `user == nil || user.UserUUID != entry.Subject` fails.
unfoldable pub subject_user : DeviceCodeEntry → Option User → Option User
subject_user entry none = none
subject_user entry (some u) = if u.user_uuid == entry.subject then some u else none

module _ {W : Type 0} (s : Service W) where
  unfoldable pub exchange_client_credentials : Input → Exec W Err Answer
  unfolding find_client check_secret granted_scopes mint_access
  exchange_client_credentials input = do
    client ← find_client s input grant_client_credentials
    check_secret s input client
    let scopes = granted_scopes input.scopes client.scopes
    guard (all_contained scopes client.scopes) invalid_scope
    now ← always s.clock.now
    mint_access s client none client.client_id client.client_id scopes now

  unfoldable pub exchange_password : Input → Exec W Err Answer
  unfolding find_client check_secret usable_user verifies granted_scopes issue_user_grant_tokens
  exchange_password input = do
    client ← find_client s input grant_password
    check_secret s input client
    found ← call (s.users.find_by_username (trim_space input.username))
    user ← require (usable_user found) invalid_user_credentials
    guard (verifies s.passwords input.password user.password_hash) invalid_user_credentials
    let scopes = granted_scopes input.scopes client.scopes
    guard (all_contained scopes client.scopes) invalid_scope
    now ← always s.clock.now
    issue_user_grant_tokens s client user scopes now

  refuse : Option Err → Exec W Err (Unit {0})
  refuse none = pure tt
  refuse (some e) = fail e

  -- From the point where the entry is known to be approved.
  unfoldable pub pair : DeviceCodes W → Client → DeviceCodeEntry → Exec W Err Answer
  unfolding approving_user subject_user must_decode_scope_json issue_user_grant_tokens
  pair codes client entry = do
    user_id ← require (approving_user (s.strconv.parse_int entry.user_id)) invalid_device_code
    account ← call (s.users.find_by_id user_id)
    user ← require (subject_user entry account) invalid_device_code
    now ← always s.clock.now
    answer ←
        issue_user_grant_tokens s client user (must_decode_scope_json s.json entry.scopes_json) now
    consumed ← always s.clock.now
    call (codes.mark_consumed entry.device_code consumed)
    pure answer

  unfoldable pub poll : DeviceCodes W → Input → Client → Exec W Err Answer
  unfolding current_entry refuse device_status_error pair
  poll codes input client = do
    found ← call (codes.get_by_device_code (trim_space input.device_code))
    at ← always s.clock.now
    entry ← require (current_entry client at found) invalid_device_code
    polled ← always s.clock.now
    allowed ← call (codes.touch_poll entry.device_code polled (seconds entry.interval))
    guard allowed slow_down
    refuse (device_status_error entry.status)
    pair codes client entry

  unfoldable pub exchange_device_code : Input → Exec W Err Answer
  unfolding find_client check_secret poll
  exchange_device_code input = do
    client ← find_client s input grant_device_code
    check_secret s input client
    codes ← require s.device_codes unsupported_grant_type
    poll codes input client
