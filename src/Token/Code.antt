-- ===== src/Token/Code.antt =====
-- exchangeAuthorizationCode and mintIDToken.
pub mod IdToken
pub mod Redeem
use sienne.Base.{
  ℕ, zero, suc, ◌+◌, ◌-◌, ◌*◌, ◌/◌, ◌%◌, ◌^◌, ◌≤◌, ◌<◌, String, ◌≡◌, refl, sym, ap, subst, ◌∙◌, ◌≢◌,
  ◌↔◌, ◌⊎◌, inl, inr, Bool, true, false, not, ◌&&◌, ◌||◌, Option, none, some, List, [], ◌∷◌, ◌++◌,
  map, arith, ◌==◌, eq_iff, eq_refl, ltb, leb, nat_eq, nat_eq_iff, if◌then◌else◌, Bool-cases,
  Option-cases, length, length-append, All, All-append, Any,
}
use sienne.Base.Exec.{
  caught, Fault, no_rows, other, Result, ok, err, fault, Exec, Port, pure, fail, raise, call,
  always, ignore, guard, require, ◌>>=◌, ◌>>◌,
}
use sienne.Base.Int.{
  ℤ, pos, negsuc, pos_part, neg_part, sub_ℕ, ◌+ℤ◌, ◌-ℤ◌, ◌*ℤ◌, ◌<ℤ◌, ltb_ℤ, eqb_ℤ, ltb_ℤ_iff,
  eqb_ℤ_iff, nanos_per_second, seconds, unix, whole_seconds, +ℤ_parts,
}
use sienne.Base.Text.{trim_space, to_lower, to_upper, join, is_blank, trim_space_idem}
use sienne.Domain.{Client, User, AuthorizationCode}
use sienne.Ports.{
  SessionCacheEntry, SessionCache, ReplayStatus, replay_none, replay_grace, replay_rejected,
  TokenResponse, ReplayResult, AccessTokenEntry, RefreshTokenEntry, TokenCache, DeviceCodeEntry,
  DeviceCodes, Clients, Sessions, Consents, AuthorizationCodes, Users, Tokens, Clock, Json, Strconv,
  Passwords, Claim, text, texts, number, flag, Signer, Digest,
}
use sienne.Scopes.{contains, normalize_from, normalize_scopes, allowed_set, each_in, all_contained}
use sienne.Token.{
  Err, unsupported_grant_type, invalid_client, invalid_scope, invalid_code, invalid_redirect_uri,
  invalid_code_verifier, invalid_refresh_token, invalid_user_credentials, invalid_device_code,
  authorization_pending, slow_down, access_denied, Input, Answer, Service,
  refresh_token_grace_period, grant_authorization_code, grant_refresh_token,
  grant_client_credentials, grant_password, grant_device_code, verifies, validate_client_secret,
  validate_code_verifier, must_decode_scope_json, should_issue_refresh_token, int64_string_ptr,
  granted_scopes, answer_of_response, find_client, check_secret, access_claims, access_model,
  mint_access, refresh_model, refresh_entry, new_refresh_token, add_refresh,
  issue_user_grant_tokens,
}

-- The TTL of an ID token: the client's, else that of its access tokens, else an hour.
unfoldable pub id_token_ttl : Client → ℤ
id_token_ttl client =
    if ltb_ℤ (pos 0) client.id_token_ttl_seconds
    then client.id_token_ttl_seconds
    else if ltb_ℤ (pos 0) client.access_token_ttl_seconds
    then client.access_token_ttl_seconds
    else pos 3600

module _ {W : Type 0} (s : Service W) where
  unfoldable pub id_claims : Client → User → AuthorizationCode → ℤ → String → List (String × Claim)
  unfolding id_token_ttl
  id_claims client user code now jti =
      let expires = now +ℤ seconds (id_token_ttl client) in
      ("iss", text s.issuer)
      ∷ ("sub", text user.user_uuid)
      ∷ ("aud", text client.client_id)
      ∷ ("exp", number (unix expires))
      ∷ ("iat", number (unix now))
      ∷ ("auth_time", number (unix now))
      ∷ ("jti", text jti)
      ∷ ("azp", text client.client_id)
      ∷ ("name", text user.display_name)
      ∷ ("preferred_username", text user.username)
      ∷ ("email", text user.email)
      ∷ ("email_verified", flag user.email_verified)
      ∷ (if is_blank code.nonce_value then [] else ("nonce", text code.nonce_value) ∷ [])

  unfoldable pub mint_id_token : Client → User → AuthorizationCode → ℤ → Exec W Err String
  unfolding id_claims
  mint_id_token client user code now = do
    jti ← always s.new_uuid
    call (s.signer.mint (id_claims client user code now jti))

  -- The ID token, for the openid scope alone.
  unfoldable pub add_id_token :
      Bool → Client → User → AuthorizationCode → ℤ → Answer → Exec W Err Answer
  unfolding mint_id_token
  add_id_token false client user code now answer = pure answer
  add_id_token true client user code now answer = do
    id_token ← mint_id_token client user code now
    pure (record answer { id_token = id_token })

  -- From the point where the client has proved itself.
  unfoldable pub redeem : Input → Client → Exec W Err Answer
  unfolding issue_user_grant_tokens add_id_token must_decode_scope_json validate_code_verifier
  redeem input client = do
    at ← always s.clock.now
    consumed ← call (s.auth_codes.consume_by_code input.code at)
    code ← require consumed invalid_code
    guard (eqb_ℤ code.client_db_id client.id) invalid_code
    guard (code.redirect_uri == input.redirect_uri) invalid_redirect_uri
    guard (validate_code_verifier s.digest code input.code_verifier client.require_pkce)
        invalid_code_verifier
    found ← call (s.users.find_by_id code.user_id)
    user ← require found invalid_code
    now ← always s.clock.now
    let scopes = must_decode_scope_json s.json code.scopes_json
    answer ← issue_user_grant_tokens s client user scopes now
    add_id_token (contains scopes "openid") client user code now answer

  unfoldable pub exchange_authorization_code : Input → Exec W Err Answer
  unfolding find_client check_secret redeem
  exchange_authorization_code input = do
    guard (input.grant_type == grant_authorization_code) unsupported_grant_type
    client ← find_client s input grant_authorization_code
    guard (contains client.redirect_uris input.redirect_uri) invalid_redirect_uri
    check_secret s input client
    redeem input client
