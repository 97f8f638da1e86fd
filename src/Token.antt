-- ===== src/Token.antt =====
-- internal/application/token: the service behind the OAuth2 token endpoint, and what its grants
-- share. The grants are the child modules.
pub mod Contents
pub mod Issue
pub mod Code
pub mod Refresh
pub mod Grants
pub mod Exchange
use sienne.Base.{
  ℕ, zero, suc, ◌+◌, ◌-◌, ◌*◌, ◌/◌, ◌%◌, ◌^◌, ◌≤◌, ◌<◌, String, ◌≡◌, refl, sym, ap, subst, ◌∙◌, ◌≢◌,
  ◌↔◌, ◌⊎◌, inl, inr, Bool, true, false, not, ◌&&◌, ◌||◌, Option, none, some, List, [], ◌∷◌, ◌++◌,
  map, arith, ◌==◌, eq_iff, eq_refl, ltb, leb, nat_eq, nat_eq_iff, if◌then◌else◌, Bool-cases,
  Option-cases, length, length-append, All, All-append, Any,
}
use sienne.Base.Exec.{
  caught, Fault, no_rows, other, Result, ok, err, fault, Exec, Port, pure, fail, raise, call,
  always, ignore, guard, require, ◌>>=◌, ◌>>◌,
}
use sienne.Base.Int.{
  ℤ, pos, negsuc, pos_part, neg_part, sub_ℕ, ◌+ℤ◌, ◌-ℤ◌, ◌*ℤ◌, ◌<ℤ◌, ltb_ℤ, eqb_ℤ, ltb_ℤ_iff,
  eqb_ℤ_iff, nanos_per_second, seconds, unix, whole_seconds, +ℤ_parts,
}
use sienne.Base.Text.{trim_space, to_lower, to_upper, join, is_blank, trim_space_idem}
use sienne.Domain.{
  active_client, active_client-eq-some, zero_time, Client, Session, AuthorizationCode, User,
  AccessToken, RefreshToken,
}
use sienne.Ports.{
  SessionCacheEntry, SessionCache, ReplayStatus, replay_none, replay_grace, replay_rejected,
  TokenResponse, ReplayResult, AccessTokenEntry, RefreshTokenEntry, TokenCache, DeviceCodeEntry,
  DeviceCodes, Clients, Sessions, Consents, AuthorizationCodes, Users, Tokens, Clock, Json, Strconv,
  Passwords, Claim, text, texts, number, flag, Signer, Digest,
}
use sienne.Scopes.{contains, normalize_from, normalize_scopes, allowed_set, each_in, all_contained}

pub data Err : Type 0 where
  unsupported_grant_type invalid_client invalid_scope invalid_code invalid_redirect_uri : Err
  invalid_code_verifier invalid_refresh_token invalid_user_credentials : Err
  invalid_device_code authorization_pending slow_down access_denied : Err

pub record Input : Type 0 where
  pub grant_type : String
  pub client_id : String
  pub client_secret : String
  pub replay_fingerprint : String
  pub code : String
  pub redirect_uri : String
  pub code_verifier : String
  pub refresh_token : String
  pub device_code : String
  pub username : String
  pub password : String
  pub scopes : List String

pub record Answer : Type 0 where
  pub access_token : String
  pub token_type : String
  pub expires_in : ℤ
  pub refresh_token : String
  pub scope : String
  pub id_token : String

-- The struct, with the functions of other packages that its methods call.
pub record Service (W : Type 0) : Type 0 where
  pub auth_codes : AuthorizationCodes W
  pub clients : Clients W
  pub users : Users W
  pub tokens : Tokens W
  pub token_cache : Option (TokenCache W)
  pub device_codes : Option (DeviceCodes W)
  pub passwords : Option (Passwords W)
  pub signer : Signer W
  pub issuer : String
  pub clock : Clock W
  pub new_uuid : W → String × W
  pub json : Json
  pub strconv : Strconv
  pub digest : Digest

abbrev pub refresh_token_grace_period : ℤ
refresh_token_grace_period = pos 10_000_000_000

abbrev pub grant_authorization_code : String
grant_authorization_code = "authorization_code"

abbrev pub grant_refresh_token : String
grant_refresh_token = "refresh_token"

abbrev pub grant_client_credentials : String
grant_client_credentials = "client_credentials"

abbrev pub grant_password : String
grant_password = "password"

abbrev pub grant_device_code : String
grant_device_code = "urn:ietf:params:oauth:grant-type:device_code"

-- A configured verifier accepts the text for the hash; a nil one accepts none.
unfoldable pub verifies : {W : Type 0} → Option (Passwords W) → String → String → Bool
verifies none presented hash = false
verifies (some p) presented hash = p.verify_password presented hash

-- The test of validateClientSecret; its error is invalid_client.
unfoldable pub validate_client_secret : {W : Type 0} → Option (Passwords W) → String → String → Bool
unfolding verifies
validate_client_secret passwords secret_hash presented =
    if is_blank (trim_space secret_hash) then true else verifies passwords presented secret_hash

-- The test of validateCodeVerifier; its error is invalid_code_verifier.
unfoldable pub validate_code_verifier : Digest → AuthorizationCode → String → Bool → Bool
validate_code_verifier digest code verifier require_pkce =
    let method = to_upper code.code_challenge_method in
    if is_blank code.code_challenge
    then not require_pkce
    else if is_blank verifier
    then false
    else if is_blank method || method == "PLAIN"
    then code.code_challenge == verifier
    else if method == "S256"
    then code.code_challenge == digest.sha256_base64url verifier
    else false

unfoldable pub must_decode_scope_json : Json → String → List String
must_decode_scope_json json raw =
    if is_blank (trim_space raw)
    then []
    else elim (json.unmarshal raw) [ some scopes ↦ scopes | none ↦ [] ]

unfoldable pub should_issue_refresh_token : Client → List String → Bool
should_issue_refresh_token client scopes =
    if not (ltb_ℤ (pos 0) client.refresh_token_ttl_seconds)
    then false
    else if not (contains client.grant_types grant_refresh_token)
    then false
    else contains scopes "offline_access"

unfoldable pub int64_string_ptr : Strconv → Option ℤ → String
int64_string_ptr strconv none = ""
int64_string_ptr strconv (some n) = strconv.format_int n

-- The scopes of the request, or all of the client's where it names none.
unfoldable pub granted_scopes : List String → List String → List String
granted_scopes requested allowed = elim (normalize_scopes requested) [
  | [] ↦ allowed
  | x ∷ xs ↦ x ∷ xs
]

unfoldable pub answer_of_response : TokenResponse → Answer
answer_of_response r = record {
  access_token = r.access_token;
  token_type = r.token_type;
  expires_in = r.expires_in;
  refresh_token = r.refresh_token;
  scope = r.scope;
  id_token = r.id_token;
}

module _ {W : Type 0} (s : Service W) where
  -- The client of the request, active and registered for the grant.
  unfoldable pub find_client : Input → String → Exec W Err Client
  unfolding active_client
  find_client input grant = do
    found ← call (s.clients.find_by_client_id (trim_space input.client_id))
    client ← require (active_client found) invalid_client
    guard (contains client.grant_types grant) invalid_client
    pure client

  unfoldable pub check_secret : Input → Client → Exec W Err (Unit {0})
  unfolding validate_client_secret
  check_secret input client =
      guard (validate_client_secret s.passwords client.client_secret_hash input.client_secret)
        invalid_client

  -- The claims of an access token.
  unfoldable pub access_claims : Client → String → List String → ℤ → String → List (String × Claim)
  unfolding unix
  access_claims client subject scopes now jti =
      let expires = now +ℤ seconds client.access_token_ttl_seconds in
      ("iss", text s.issuer)
      ∷ ("sub", text subject)
      ∷ ("aud", texts (client.client_id ∷ []))
      ∷ ("exp", number (unix expires))
      ∷ ("iat", number (unix now))
      ∷ ("nbf", number (unix now))
      ∷ ("jti", text jti)
      ∷ ("cid", text client.client_id)
      ∷ ("scp", texts scopes)
      ∷ []

  unfoldable pub access_model : Client → Option ℤ → String → List String → ℤ → String → AccessToken
  access_model client user_id subject scopes now token = record {
    id = pos 0;
    token_value = token;
    token_sha256 = s.digest.sha256_hex token;
    client_id = client.id;
    user_id = user_id;
    subject = subject;
    audience_json = s.json.marshal (client.client_id ∷ []);
    scopes_json = s.json.marshal scopes;
    token_type = "Bearer";
    token_format = "jwt";
    issued_at = now;
    expires_at = now +ℤ seconds client.access_token_ttl_seconds;
    revoked_at = none;
    created_at = zero_time;
  }

  access_entry : Client → String → AccessToken → AccessTokenEntry
  access_entry client user_id model = record {
    token_sha256 = model.token_sha256;
    client_id = client.client_id;
    user_id = user_id;
    subject = model.subject;
    scopes_json = model.scopes_json;
    audience_json = model.audience_json;
    token_type = model.token_type;
    token_format = model.token_format;
    issued_at = model.issued_at;
    expires_at = model.expires_at;
  }

  cache_access : Option (TokenCache W) → Client → String → AccessToken → Exec W Err (Unit {0})
  unfolding access_entry
  cache_access none client user_id model = pure tt
  cache_access (some cache) client user_id model = do
    ttl ← always (s.clock.time_until model.expires_at)
    ignore (cache.save_access_token (access_entry client user_id model) ttl)

  -- What every grant does to mint, store and cache an access token; the answer has no refresh
  -- token yet.
  unfoldable pub mint_access :
      Client → Option ℤ → String → String → List String → ℤ → Exec W Err Answer
  unfolding access_claims access_model cache_access
  mint_access client user_id subject stored_subject scopes now = do
    jti ← always s.new_uuid
    token ← call (s.signer.mint (access_claims client subject scopes now jti))
    let model = access_model client user_id stored_subject scopes now token
    call (s.tokens.create_access_token model)
    cache_access s.token_cache client (int64_string_ptr s.strconv user_id) model
    left ← always (s.clock.time_until model.expires_at)
    pure (record {
      access_token = token;
      token_type = "Bearer";
      expires_in = whole_seconds left;
      refresh_token = "";
      scope = join " " scopes;
      id_token = "";
    })

  unfoldable pub refresh_model :
      Client → Option ℤ → String → List String → ℤ → String → RefreshToken
  refresh_model client user_id subject scopes now token = record {
    id = pos 0;
    token_value = token;
    token_sha256 = s.digest.sha256_hex token;
    client_id = client.id;
    user_id = user_id;
    subject = subject;
    scopes_json = s.json.marshal scopes;
    issued_at = now;
    expires_at = now +ℤ seconds client.refresh_token_ttl_seconds;
    revoked_at = none;
    replaced_by_token_id = none;
    created_at = zero_time;
  }

  unfoldable pub refresh_entry : Client → String → RefreshToken → String → RefreshTokenEntry
  refresh_entry client user_id model family = record {
    token_sha256 = model.token_sha256;
    client_id = client.client_id;
    user_id = user_id;
    subject = model.subject;
    scopes_json = model.scopes_json;
    family_id = family;
    issued_at = model.issued_at;
    expires_at = model.expires_at;
  }

  -- uuid.NewString() + "." + uuid.NewString()
  unfoldable pub new_refresh_token : Exec W Err String
  new_refresh_token = do a ← always s.new_uuid; b ← always s.new_uuid; pure (join "." (a ∷ b ∷ []))

  cache_refresh : Option (TokenCache W) → Client → String → RefreshToken → Exec W Err (Unit {0})
  unfolding refresh_entry
  cache_refresh none client user_id model = pure tt
  cache_refresh (some cache) client user_id model = do
    ttl ← always (s.clock.time_until model.expires_at)
    ignore (cache.save_refresh_token (refresh_entry client user_id model model.token_sha256) ttl)

  -- The refresh token of issueUserGrantTokens, if there is to be one.
  unfoldable pub add_refresh : Bool → Client → User → List String → ℤ → Answer → Exec W Err Answer
  unfolding new_refresh_token refresh_model cache_refresh
  add_refresh false client user scopes now answer = pure answer
  add_refresh true client user scopes now answer = do
    token ← new_refresh_token
    let model = refresh_model client (some user.id) user.user_uuid scopes now token
    call (s.tokens.create_refresh_token model)
    cache_refresh s.token_cache client (s.strconv.format_int user.id) model
    pure (record answer { refresh_token = token })

  unfoldable pub issue_user_grant_tokens : Client → User → List String → ℤ → Exec W Err Answer
  unfolding mint_access add_refresh should_issue_refresh_token
  issue_user_grant_tokens client user scopes now = do
    answer ← mint_access client (some user.id) user.user_uuid user.user_uuid scopes now
    add_refresh (should_issue_refresh_token client scopes) client user scopes now answer
