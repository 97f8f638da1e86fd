-- ===== src/Authz.antt =====
-- internal/application/authz: the OAuth2 authorize endpoint. The service's collaborators are
-- parameters (sienne.Ports); a nil collaborator is `none`.
pub mod Live
pub mod Issue
use sienne.Base.{
  ℕ, zero, suc, ◌+◌, ◌-◌, ◌*◌, ◌/◌, ◌%◌, ◌^◌, ◌≤◌, ◌<◌, String, ◌≡◌, refl, sym, ap, subst, ◌∙◌, ◌≢◌,
  ◌↔◌, ◌⊎◌, inl, inr, Bool, true, false, not, ◌&&◌, ◌||◌, Option, none, some, List, [], ◌∷◌, ◌++◌,
  map, arith, ◌==◌, eq_iff, eq_refl, ltb, leb, nat_eq, nat_eq_iff, if◌then◌else◌, Bool-cases,
  Option-cases, length, length-append, All, All-append, Any,
}
use sienne.Base.Exec.{
  caught, Fault, no_rows, other, Result, ok, err, fault, Exec, Port, pure, fail, raise, call,
  always, ignore, guard, require, ◌>>=◌, ◌>>◌,
}
use sienne.Base.Int.{
  ℤ, pos, negsuc, pos_part, neg_part, sub_ℕ, ◌+ℤ◌, ◌-ℤ◌, ◌*ℤ◌, ◌<ℤ◌, ltb_ℤ, eqb_ℤ, ltb_ℤ_iff,
  eqb_ℤ_iff, nanos_per_second, seconds, unix, whole_seconds, +ℤ_parts,
}
use sienne.Base.Text.{trim_space, to_lower, to_upper, join, is_blank, trim_space_idem}
use sienne.Domain.{
  positive, active_client, active_client-eq-some, zero_time, Client, Session, AuthorizationCode,
  User, AccessToken, RefreshToken,
}
use sienne.Ports.{
  SessionCacheEntry, SessionCache, ReplayStatus, replay_none, replay_grace, replay_rejected,
  TokenResponse, ReplayResult, AccessTokenEntry, RefreshTokenEntry, TokenCache, DeviceCodeEntry,
  DeviceCodes, Clients, Sessions, Consents, AuthorizationCodes, Users, Tokens, Clock, Json, Strconv,
  Passwords, Claim, text, texts, number, flag, Signer, Digest,
}
use sienne.Scopes.{contains, normalize_from, normalize_scopes, allowed_set, each_in, all_contained}
use sienne.StateMask.{
  session_state_active, session_state_locked, session_state_logged_out, live, mode_passkey,
  mode_push, push_approved, push_denied, passkey_session_bound, fold_text,
  normalize_session_state_mask, session_status_from_mask, is_session_state_active,
  is_session_entry_active, normalize_mfa_mode, normalize_mfa_push_status, canonical_mask,
  canonical_mfa_challenge_state_mask, set_mode, set_push_status, normalize_mfa_challenge_state_mask,
  mfa_mode_from_state_mask, mfa_push_status_from_state_mask,
}

pub data Err : Type 0 where
  invalid_request unsupported_response_type invalid_client invalid_redirect_uri : Err
  invalid_scope invalid_code_challenge login_required consent_required : Err

pub record Command : Type 0 where
  pub response_type : String
  pub client_id : String
  pub redirect_uri : String
  pub scope : List String
  pub state : String
  pub user_id : String
  pub code_challenge : String
  pub code_challenge_method : String
  pub session_id : String
  pub nonce : String

pub record Answer : Type 0 where
  pub require_login : Bool
  pub require_consent : Bool
  pub login_redirect_uri : String
  pub consent_redirect_uri : String
  pub redirect_uri : String
  pub code : String
  pub state : String

pub record Service (W : Type 0) : Type 0 where
  pub clients : Clients W
  pub sessions : Sessions W
  pub session_cache : Option (SessionCache W)
  pub codes : AuthorizationCodes W
  pub consents : Option (Consents W)
  pub code_ttl : ℤ
  pub clock : Clock W
  pub code_maker : W → String × W
  pub json : Json
  pub strconv : Strconv

unfoldable pub normalize_code_challenge_method : String → String
normalize_code_challenge_method method =
    let m = to_upper (trim_space method) in
    if is_blank m || m == "PLAIN"
    then "plain"
    else if m == "S256"
    then "S256"
    else trim_space method

-- The test of validatePKCE; its error is invalid_code_challenge.
unfoldable pub validate_pkce : Bool → String → String → Bool
validate_pkce require_pkce challenge method =
    let m = normalize_code_challenge_method method in
    if is_blank challenge then not require_pkce else (m == "plain" || m == "S256")

unfoldable pub session_of_entry : SessionCacheEntry → ℤ → Session
session_of_entry entry user_id = record {
  id = pos 0;
  session_id = entry.session_id;
  user_id = user_id;
  subject = entry.subject;
  acr = entry.acr;
  amr_json = entry.amr_json;
  ip_address = entry.ip_address;
  user_agent = entry.user_agent;
  authenticated_at = entry.authenticated_at;
  expires_at = entry.expires_at;
  logged_out_at = none;
  created_at = zero_time;
}

-- The session that a cache entry stands for: `none` sends the search on to the database.
unfoldable pub cached_session : Strconv → Option SessionCacheEntry → ℤ → Option Session
unfolding session_of_entry positive is_session_entry_active
cached_session strconv none now = none
cached_session strconv (some entry) now =
    if is_session_entry_active (some entry) now
    then elim (positive (strconv.parse_int (trim_space entry.user_id))) [
      | none ↦ none
      | some user_id ↦ some (session_of_entry entry user_id)
    ]
    else none

-- `currentSession == nil || LoggedOutAt != nil || !ExpiresAt.After(now)` fails.
unfoldable pub stored_session : Option Session → ℤ → Option Session
stored_session none now = none
stored_session (some s) now = elim s.logged_out_at [
  | none ↦ if ltb_ℤ now s.expires_at then some s else none
  | some _ ↦ none
]

-- The normal scopes, or openid where there is none.
unfoldable pub requested_scopes : List String → List String
requested_scopes scope = elim (normalize_scopes scope) [ [] ↦ "openid" ∷ [] | x ∷ xs ↦ x ∷ xs ]

abbrev pub blank_answer : Answer
blank_answer = record {
  require_login = false;
  require_consent = false;
  login_redirect_uri = "";
  consent_redirect_uri = "";
  redirect_uri = "";
  code = "";
  state = "";
}

abbrev pub login_answer : Answer
login_answer = record blank_answer { require_login = true; login_redirect_uri = "/login" }

abbrev pub consent_answer : Answer
consent_answer = record blank_answer { require_consent = true; consent_redirect_uri = "/consent" }

abbrev pub code_answer : Command → String → Answer
code_answer cmd code = record blank_answer {
  redirect_uri = cmd.redirect_uri;
  code = code;
  state = cmd.state;
}

module _ {W : Type 0} (s : Service W) where
  look_in : Option (SessionCache W) → String → ℤ → Exec W Err (Option Session)
  unfolding cached_session
  look_in none session_id now = pure none
  look_in (some cache) session_id now = do
    entry ← call (cache.get session_id)
    pure (cached_session s.strconv entry now)

  unfoldable pub look_in_cache : String → ℤ → Exec W Err (Option Session)
  unfolding look_in
  look_in_cache session_id now = look_in s.session_cache session_id now

  unfoldable pub look_in_database : String → ℤ → Exec W Err (Option Session)
  unfolding stored_session
  look_in_database session_id now = do
    found ← call (s.sessions.find_by_session_id session_id)
    pure (stored_session found now)

  hit_or_stored : String → ℤ → Option Session → Exec W Err (Option Session)
  unfolding look_in_database
  hit_or_stored session_id now (some found) = pure (some found)
  hit_or_stored session_id now none = look_in_database session_id now

  unfoldable pub find_active_session : String → Exec W Err (Option Session)
  unfolding look_in_cache hit_or_stored
  find_active_session session_id = do
    now ← always s.clock.now
    hit ← look_in_cache session_id now
    hit_or_stored session_id now hit

  -- The code that binds the request to the client and the user.
  unfoldable pub new_code :
      Command → Client → Session → List String → ℤ → String → AuthorizationCode
  unfolding normalize_code_challenge_method ◌+ℤ◌
  new_code cmd client session scopes now code = record {
    id = pos 0;
    code = code;
    client_db_id = client.id;
    user_id = session.user_id;
    session_db_id = if ltb_ℤ (pos 0) session.id then some session.id else none;
    redirect_uri = cmd.redirect_uri;
    scopes_json = s.json.marshal scopes;
    state_value = trim_space cmd.state;
    nonce_value = trim_space cmd.nonce;
    code_challenge = trim_space cmd.code_challenge;
    code_challenge_method = normalize_code_challenge_method cmd.code_challenge_method;
    expires_at = now +ℤ s.code_ttl;
    consumed_at = none;
    created_at = zero_time;
  }

  unfoldable pub issue_code : Command → Client → Session → List String → Exec W Err Answer
  unfolding new_code
  issue_code cmd client session scopes = do
    now ← always s.clock.now
    code ← always s.code_maker
    call (s.codes.create (new_code cmd client session scopes now code))
    pure (code_answer cmd code)

  -- `client.RequireConsent && s.consents != nil`, and the user's consent where both hold.
  has_consent_in : Option (Consents W) → Bool → Client → Session → List String → Exec W Err Bool
  has_consent_in (some consents) true client session scopes =
      call (consents.has_active_consent session.user_id client.id scopes)
  has_consent_in _ _ client session scopes = pure true

  unfoldable pub has_consent : Client → Session → List String → Exec W Err Bool
  unfolding has_consent_in
  has_consent client session scopes =
      has_consent_in s.consents client.require_consent client session scopes

  unfoldable pub decide : Command → Client → List String → Session → Bool → Exec W Err Answer
  unfolding issue_code
  decide cmd client scopes session true = issue_code cmd client session scopes
  decide cmd client scopes session false = pure consent_answer

  unfoldable pub proceed : Command → Client → List String → Option Session → Exec W Err Answer
  unfolding has_consent decide
  proceed cmd client scopes none = pure login_answer
  proceed cmd client scopes (some session) = do
    agreed ← has_consent client session scopes
    decide cmd client scopes session agreed

  resume_if : Bool → Command → Client → List String → Exec W Err Answer
  unfolding find_active_session proceed
  resume_if true cmd client scopes = pure login_answer
  resume_if false cmd client scopes = do
    found ← find_active_session (trim_space cmd.session_id)
    proceed cmd client scopes found

  -- From the point where the request is found valid.
  unfoldable pub resume : Command → Client → List String → Exec W Err Answer
  unfolding resume_if
  resume cmd client scopes = resume_if (is_blank (trim_space cmd.session_id)) cmd client scopes

  unfoldable pub authorize_command : Command → Exec W Err Answer
  unfolding resume active_client requested_scopes validate_pkce
  authorize_command cmd = do
    guard (not (is_blank (trim_space cmd.client_id) || is_blank (trim_space cmd.redirect_uri)))
        invalid_request
    guard (trim_space cmd.response_type == "code") unsupported_response_type
    found ← call (s.clients.find_by_client_id (trim_space cmd.client_id))
    client ← require (active_client found) invalid_client
    guard (contains client.grant_types "authorization_code") invalid_client
    guard (contains client.redirect_uris cmd.redirect_uri) invalid_redirect_uri
    guard (all_contained (requested_scopes cmd.scope) client.scopes) invalid_scope
    guard
        (validate_pkce client.require_pkce (trim_space cmd.code_challenge)
          (trim_space cmd.code_challenge_method))
        invalid_code_challenge
    resume cmd client (requested_scopes cmd.scope)

  -- The nil command is `none`.
  unfoldable pub authorize : Option Command → Exec W Err Answer
  unfolding authorize_command
  authorize none = fail invalid_request
  authorize (some cmd) = authorize_command cmd
