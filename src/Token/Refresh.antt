-- ===== src/Token/Refresh.antt =====
-- exchangeRefreshToken: rotation, and the answer to a repeated request.
pub mod Replay
pub mod Rotation
use sienne.Base.{
  ℕ, zero, suc, ◌+◌, ◌-◌, ◌*◌, ◌/◌, ◌%◌, ◌^◌, ◌≤◌, ◌<◌, String, ◌≡◌, refl, sym, ap, subst, ◌∙◌, ◌≢◌,
  ◌↔◌, ◌⊎◌, inl, inr, Bool, true, false, not, ◌&&◌, ◌||◌, Option, none, some, List, [], ◌∷◌, ◌++◌,
  map, arith, ◌==◌, eq_iff, eq_refl, ltb, leb, nat_eq, nat_eq_iff, if◌then◌else◌, Bool-cases,
  Option-cases, length, length-append, All, All-append, Any,
}
use sienne.Base.Exec.{
  caught, Fault, no_rows, other, Result, ok, err, fault, Exec, Port, pure, fail, raise, call,
  always, ignore, guard, require, ◌>>=◌, ◌>>◌,
}
use sienne.Base.Int.{
  ℤ, pos, negsuc, pos_part, neg_part, sub_ℕ, ◌+ℤ◌, ◌-ℤ◌, ◌*ℤ◌, ◌<ℤ◌, ltb_ℤ, eqb_ℤ, ltb_ℤ_iff,
  eqb_ℤ_iff, nanos_per_second, seconds, unix, whole_seconds, +ℤ_parts,
}
use sienne.Base.Text.{trim_space, to_lower, to_upper, join, is_blank, trim_space_idem}
use sienne.Domain.{
  active_client, active_client-eq-some, zero_time, Client, Session, AuthorizationCode, User,
  AccessToken, RefreshToken,
}
use sienne.Ports.{
  SessionCacheEntry, SessionCache, ReplayStatus, replay_none, replay_grace, replay_rejected,
  TokenResponse, ReplayResult, AccessTokenEntry, RefreshTokenEntry, TokenCache, DeviceCodeEntry,
  DeviceCodes, Clients, Sessions, Consents, AuthorizationCodes, Users, Tokens, Clock, Json, Strconv,
  Passwords, Claim, text, texts, number, flag, Signer, Digest,
}
use sienne.Scopes.{contains, normalize_from, normalize_scopes, allowed_set, each_in, all_contained}
use sienne.Token.{
  Err, unsupported_grant_type, invalid_client, invalid_scope, invalid_code, invalid_redirect_uri,
  invalid_code_verifier, invalid_refresh_token, invalid_user_credentials, invalid_device_code,
  authorization_pending, slow_down, access_denied, Input, Answer, Service,
  refresh_token_grace_period, grant_authorization_code, grant_refresh_token,
  grant_client_credentials, grant_password, grant_device_code, verifies, validate_client_secret,
  validate_code_verifier, must_decode_scope_json, should_issue_refresh_token, int64_string_ptr,
  granted_scopes, answer_of_response, find_client, check_secret, access_claims, access_model,
  mint_access, refresh_model, refresh_entry, new_refresh_token, add_refresh,
  issue_user_grant_tokens,
}

graced : ReplayStatus → Option TokenResponse → Option Answer
unfolding answer_of_response
graced replay_grace (some response) = some (answer_of_response response)
graced _ _ = none

-- refreshReplayToExchangeResult
unfoldable pub replayed : Option ReplayResult → Option Answer
unfolding graced
replayed none = none
replayed (some r) = graced r.status r.response

rejects : ReplayStatus → Bool
rejects replay_rejected = true
rejects _ = false

unfoldable pub is_rejected : Option ReplayResult → Bool
unfolding rejects
is_rejected none = false
is_rejected (some r) = rejects r.status

unfoldable pub user_id_of : Option ℤ → ℤ
user_id_of none = pos 0
user_id_of (some n) = n

module _ {W : Type 0} (s : Service W) where
  -- A cached answer is returned, a rejected replay is refused, and anything else is no answer.
  seen_replay : Option ReplayResult → Option Answer → Exec W Err (Option Answer)
  unfolding is_rejected
  seen_replay replay (some answer) = pure (some answer)
  seen_replay replay none = do guard (not (is_rejected replay)) invalid_refresh_token; pure none

  -- The check that both the exchange begins with and a failed rotation falls back on.
  unfoldable pub check_replay : Option (TokenCache W) → String → String → Exec W Err (Option Answer)
  unfolding replayed seen_replay
  check_replay none sha fingerprint = pure none
  check_replay (some cache) sha fingerprint = do
    replay ← call (cache.check_refresh_token_replay sha (trim_space fingerprint))
    seen_replay replay (replayed replay)

  -- What a failed rotation answers: the answer of the request that won the race, if the cache has
  -- it; else invalid_refresh_token where the old token was gone, and the fault itself otherwise.
  unfoldable pub lost_race : Fault → Result Err (Option Answer) → Exec W Err Answer
  lost_race f (ok (some answer)) = pure answer
  lost_race no_rows _ = fail invalid_refresh_token
  lost_race f _ = raise f

  response_of : Answer → String → TokenResponse
  response_of answer token = record {
    access_token = answer.access_token;
    token_type = answer.token_type;
    expires_in = answer.expires_in;
    refresh_token = token;
    scope = answer.scope;
    id_token = answer.id_token;
  }

  cache_rotation :
      Option (TokenCache W)
      → Input
      → Client
      → RefreshToken
      → RefreshToken
      → Answer
      → Exec W Err (Unit {0})
  unfolding refresh_entry response_of
  cache_rotation none input client old new answer = pure tt
  cache_rotation (some cache) input client old new answer = do
    let sha = s.digest.sha256_hex input.refresh_token
    let entry = refresh_entry s client (int64_string_ptr s.strconv old.user_id) new sha
    ttl ← always (s.clock.time_until new.expires_at)
    ignore (
        cache.rotate_refresh_token sha entry (response_of answer new.token_value)
          (trim_space input.replay_fingerprint) ttl refresh_token_grace_period)

  after_rotation :
      Input
      → Client
      → RefreshToken
      → RefreshToken
      → Answer
      → Result Err (Unit {0})
      → Exec W Err Answer
  unfolding check_replay lost_race cache_rotation
  after_rotation input client old new answer (ok _) = do
    cache_rotation s.token_cache input client old new answer
    pure (record answer { refresh_token = new.token_value })
  after_rotation input client old new answer (err e) = fail e
  after_rotation input client old new answer (fault f) = do
    replay ← caught (
        check_replay s.token_cache (s.digest.sha256_hex input.refresh_token)
          input.replay_fingerprint)
    lost_race f replay

  unfoldable pub rotate :
      Input → Client → RefreshToken → List String → ℤ → Answer → Exec W Err Answer
  unfolding new_refresh_token refresh_model after_rotation
  rotate input client old scopes now answer = do
    token ← new_refresh_token s
    let new = refresh_model s client old.user_id old.subject scopes now token
    let sha = s.digest.sha256_hex input.refresh_token
    rotated ← caught (call (s.tokens.rotate_refresh_token sha now new))
    after_rotation input client old new answer rotated

  -- A client whose refresh tokens have no lifetime keeps the old one.
  rotate_if : Bool → Input → Client → RefreshToken → List String → ℤ → Answer → Exec W Err Answer
  unfolding rotate
  rotate_if false input client old scopes now answer = pure answer
  rotate_if true input client old scopes now answer = rotate input client old scopes now answer

  -- `oldRefresh == nil || oldRefresh.ClientID != client.ID` fails.
  unfoldable pub owned : Client → Option RefreshToken → Option RefreshToken
  owned client none = none
  owned client (some old) = if eqb_ℤ old.client_id client.id then some old else none

  unfoldable pub refresh : Input → Client → Exec W Err Answer
  unfolding owned user_id_of must_decode_scope_json mint_access rotate_if
  refresh input client = do
    found ←
        call
          (s.tokens.find_active_refresh_token_by_sha256 (s.digest.sha256_hex input.refresh_token))
    old ← require (owned client found) invalid_refresh_token
    account ← call (s.users.find_by_id (user_id_of old.user_id))
    user ← require account invalid_refresh_token
    now ← always s.clock.now
    let scopes = must_decode_scope_json s.json old.scopes_json
    answer ← mint_access s client old.user_id user.user_uuid old.subject scopes now
    rotate_if (ltb_ℤ (pos 0) client.refresh_token_ttl_seconds) input client old scopes now answer

  or_refresh : Input → Client → Option Answer → Exec W Err Answer
  unfolding refresh
  or_refresh input client (some answer) = pure answer
  or_refresh input client none = refresh input client

  unfoldable pub exchange_refresh_token : Input → Exec W Err Answer
  unfolding find_client check_secret check_replay or_refresh
  exchange_refresh_token input = do
    client ← find_client s input grant_refresh_token
    check_secret s input client
    replay ←
        check_replay s.token_cache (s.digest.sha256_hex input.refresh_token)
          input.replay_fingerprint
    or_refresh input client replay
