-- ===== src/Token/Exchange.antt =====
-- Exchange: the grant type picks the grant.
pub mod Dispatch
use sienne.Base.{
  ℕ, zero, suc, ◌+◌, ◌-◌, ◌*◌, ◌/◌, ◌%◌, ◌^◌, ◌≤◌, ◌<◌, String, ◌≡◌, refl, sym, ap, subst, ◌∙◌, ◌≢◌,
  ◌↔◌, ◌⊎◌, inl, inr, Bool, true, false, not, ◌&&◌, ◌||◌, Option, none, some, List, [], ◌∷◌, ◌++◌,
  map, arith, ◌==◌, eq_iff, eq_refl, ltb, leb, nat_eq, nat_eq_iff, if◌then◌else◌, Bool-cases,
  Option-cases, length, length-append, All, All-append, Any,
}
use sienne.Base.Exec.{
  caught, Fault, no_rows, other, Result, ok, err, fault, Exec, Port, pure, fail, raise, call,
  always, ignore, guard, require, ◌>>=◌, ◌>>◌,
}
use sienne.Base.Int.{
  ℤ, pos, negsuc, pos_part, neg_part, sub_ℕ, ◌+ℤ◌, ◌-ℤ◌, ◌*ℤ◌, ◌<ℤ◌, ltb_ℤ, eqb_ℤ, ltb_ℤ_iff,
  eqb_ℤ_iff, nanos_per_second, seconds, unix, whole_seconds, +ℤ_parts,
}
use sienne.Base.Text.{trim_space, to_lower, to_upper, join, is_blank, trim_space_idem}
use sienne.Domain.{
  active_client, active_client-eq-some, zero_time, Client, Session, AuthorizationCode, User,
  AccessToken, RefreshToken,
}
use sienne.Ports.{
  SessionCacheEntry, SessionCache, ReplayStatus, replay_none, replay_grace, replay_rejected,
  TokenResponse, ReplayResult, AccessTokenEntry, RefreshTokenEntry, TokenCache, DeviceCodeEntry,
  DeviceCodes, Clients, Sessions, Consents, AuthorizationCodes, Users, Tokens, Clock, Json, Strconv,
  Passwords, Claim, text, texts, number, flag, Signer, Digest,
}
use sienne.Scopes.{contains, normalize_from, normalize_scopes, allowed_set, each_in, all_contained}
use sienne.Token.{
  Err, unsupported_grant_type, invalid_client, invalid_scope, invalid_code, invalid_redirect_uri,
  invalid_code_verifier, invalid_refresh_token, invalid_user_credentials, invalid_device_code,
  authorization_pending, slow_down, access_denied, Input, Answer, Service,
  refresh_token_grace_period, grant_authorization_code, grant_refresh_token,
  grant_client_credentials, grant_password, grant_device_code, verifies, validate_client_secret,
  validate_code_verifier, must_decode_scope_json, should_issue_refresh_token, int64_string_ptr,
  granted_scopes, answer_of_response, find_client, check_secret, access_claims, access_model,
  mint_access, refresh_model, refresh_entry, new_refresh_token, add_refresh,
  issue_user_grant_tokens,
}
use sienne.Token.Code.{exchange_authorization_code}
use sienne.Token.Refresh.{exchange_refresh_token}
use sienne.Token.Grants.{exchange_client_credentials, exchange_password, exchange_device_code}

unfoldable pub exchange : {W : Type 0} → Service W → Input → Exec W Err Answer
unfolding exchange_authorization_code exchange_refresh_token exchange_client_credentials
    exchange_password exchange_device_code
exchange s input =
    if input.grant_type == grant_authorization_code
    then exchange_authorization_code s input
    else if input.grant_type == grant_refresh_token
    then exchange_refresh_token s input
    else if input.grant_type == grant_client_credentials
    then exchange_client_credentials s input
    else if input.grant_type == grant_password
    then exchange_password s input
    else if input.grant_type == grant_device_code
    then exchange_device_code s input
    else fail unsupported_grant_type
