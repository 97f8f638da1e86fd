-- ===== src/Consent.antt =====
-- internal/application/consent: the page on which a user gives a client consent. net/url is a
-- parameter: its types are `U` (a URL) and `V` (the values of a query).
pub mod Found
pub mod Request
pub mod Given
use sienne.Base.{
  ℕ, zero, suc, ◌+◌, ◌-◌, ◌*◌, ◌/◌, ◌%◌, ◌^◌, ◌≤◌, ◌<◌, String, ◌≡◌, refl, sym, ap, subst, ◌∙◌, ◌≢◌,
  ◌↔◌, ◌⊎◌, inl, inr, Bool, true, false, not, ◌&&◌, ◌||◌, Option, none, some, List, [], ◌∷◌, ◌++◌,
  map, arith, ◌==◌, eq_iff, eq_refl, ltb, leb, nat_eq, nat_eq_iff, if◌then◌else◌, Bool-cases,
  Option-cases, length, length-append, All, All-append, Any,
}
use sienne.Base.Exec.{
  caught, Fault, no_rows, other, Result, ok, err, fault, Exec, Port, pure, fail, raise, call,
  always, ignore, guard, require, ◌>>=◌, ◌>>◌,
}
use sienne.Base.Int.{
  ℤ, pos, negsuc, pos_part, neg_part, sub_ℕ, ◌+ℤ◌, ◌-ℤ◌, ◌*ℤ◌, ◌<ℤ◌, ltb_ℤ, eqb_ℤ, ltb_ℤ_iff,
  eqb_ℤ_iff, nanos_per_second, seconds, unix, whole_seconds, +ℤ_parts,
}
use sienne.Base.Text.{trim_space, to_lower, to_upper, join, is_blank, trim_space_idem}
use sienne.Domain.{
  positive, positive-eq-some, active_client, active_client-eq-some, zero_time, Client, Session,
  AuthorizationCode, User, AccessToken, RefreshToken,
}
use sienne.Ports.{
  SessionCacheEntry, SessionCache, ReplayStatus, replay_none, replay_grace, replay_rejected,
  TokenResponse, ReplayResult, AccessTokenEntry, RefreshTokenEntry, TokenCache, DeviceCodeEntry,
  DeviceCodes, Clients, Sessions, Consents, AuthorizationCodes, Users, Tokens, Clock, Json, Strconv,
  Passwords, Claim, text, texts, number, flag, Signer, Digest,
}
use sienne.Base.Text.{fields}
use sienne.Scopes.{contains, normalize_scopes, all_contained}
use sienne.StateMask.{is_session_entry_active}
use sienne.Authz.{requested_scopes}

pub data Err : Type 0 where
  invalid_return_to login_required invalid_client invalid_scope invalid_action : Err

pub record PrepareInput : Type 0 where
  pub return_to : String
  pub session_id : String

pub record PrepareResult : Type 0 where
  pub client_id : String
  pub client_name : String
  pub scopes : List String
  pub return_to : String

pub record DecideInput : Type 0 where
  pub return_to : String
  pub session_id : String
  pub action : String

pub record DecideResult : Type 0 where
  pub redirect_uri : String

-- url.Parse, the Path, Query, Get, Set, the assignment of Encode to RawQuery, and String.
pub record Urls (U V : Type 0) : Type 0 where
  pub parse : String → Option U
  pub path : U → String
  pub query : U → V
  pub get : V → String → String
  pub set : String → String → V → V
  pub with_query : V → U → U
  pub text : U → String

pub record Service (W U V : Type 0) : Type 0 where
  pub clients : Clients W
  pub sessions : Sessions W
  pub session_cache : Option (SessionCache W)
  pub consents : Option (Consents W)
  pub clock : Clock W
  pub strconv : Strconv
  pub urls : Urls U V

pub record AuthorizeReturnTo : Type 0 where
  pub client_id : String
  pub redirect_uri : String
  pub scopes : List String
  pub state : String

-- The session of a cache entry; what the service does not read is as Go leaves it.
unfoldable pub session_of_cached : SessionCacheEntry → String → ℤ → Session
session_of_cached entry session_id user_id = record {
  id = pos 0;
  session_id = session_id;
  user_id = user_id;
  subject = entry.subject;
  acr = "";
  amr_json = "";
  ip_address = "";
  user_agent = "";
  authenticated_at = zero_time;
  expires_at = entry.expires_at;
  logged_out_at = none;
  created_at = zero_time;
}

-- What loadContext returns.
pub record Context : Type 0 where
  pub parsed : AuthorizeReturnTo
  pub session : Session
  pub client : Client

module _ {W U V : Type 0} (s : Service W U V) where
  from_query : V → AuthorizeReturnTo
  unfolding requested_scopes
  from_query q = record {
    client_id = trim_space (s.urls.get q "client_id");
    redirect_uri = trim_space (s.urls.get q "redirect_uri");
    scopes = requested_scopes (fields (trim_space (s.urls.get q "scope")));
    state = trim_space (s.urls.get q "state");
  }

  parse_url : Option U → Option AuthorizeReturnTo
  unfolding from_query
  parse_url none = none
  parse_url (some u) =
      let r = from_query (s.urls.query u) in
      if not (s.urls.path u == "/oauth2/authorize")
      then none
      else if is_blank r.client_id || is_blank r.redirect_uri
      then none
      else some r

  -- Its error is always invalid_return_to.
  unfoldable pub parse_authorize_return_to : String → Option AuthorizeReturnTo
  unfolding parse_url
  parse_authorize_return_to return_to =
      if is_blank (trim_space return_to)
      then none
      else parse_url (s.urls.parse (trim_space return_to))

  denied : U → String → String
  denied u state =
      let q = s.urls.set "error" "access_denied" (s.urls.query u) in
      s.urls.text (s.urls.with_query (if is_blank state then q else s.urls.set "state" state q) u)

  unfoldable pub build_deny_redirect : String → String → Option String
  unfolding denied
  build_deny_redirect redirect_uri state = elim (s.urls.parse redirect_uri) [
    | none ↦ none
    | some u ↦ some (denied u state)
  ]

  unexpired : Session → Option ℤ → Exec W Err Session
  unexpired session (some logged_out_at) = fail login_required
  unexpired session none = do
    now ← always s.clock.now
    guard (ltb_ℤ now session.expires_at) login_required
    pure session

  stored_session_of : Option Session → Exec W Err Session
  unfolding unexpired
  stored_session_of none = fail login_required
  stored_session_of (some session) = unexpired session session.logged_out_at

  in_database : String → Exec W Err Session
  unfolding stored_session_of
  in_database session_id = do
    found ← call (s.sessions.find_by_session_id session_id)
    stored_session_of found

  of_user : Option ℤ → SessionCacheEntry → String → Exec W Err Session
  unfolding in_database session_of_cached
  of_user none entry session_id = in_database session_id
  of_user (some user_id) entry session_id = pure (session_of_cached entry session_id user_id)

  of_entry : Option SessionCacheEntry → String → Exec W Err Session
  unfolding of_user positive in_database is_session_entry_active
  of_entry none session_id = in_database session_id
  of_entry (some entry) session_id = do
    now ← always s.clock.now
    guard (is_session_entry_active (some entry) now) login_required
    of_user (positive (s.strconv.parse_int entry.user_id)) entry session_id

  unfoldable pub session_in : Option (SessionCache W) → String → Exec W Err Session
  unfolding of_entry in_database
  session_in none session_id = in_database session_id
  session_in (some cache) session_id = do
    entry ← call (cache.get session_id)
    of_entry entry session_id

  -- The tests of the client, which are the same for a cached session and a stored one.
  unfoldable pub client_for : AuthorizeReturnTo → Exec W Err Client
  unfolding active_client contains all_contained
  client_for parsed = do
    found ← call (s.clients.find_by_client_id parsed.client_id)
    client ← require (active_client found) invalid_client
    guard (contains client.redirect_uris parsed.redirect_uri) invalid_return_to
    guard (all_contained parsed.scopes client.scopes) invalid_scope
    pure client

  unfoldable pub load_context : String → String → Exec W Err Context
  unfolding parse_authorize_return_to session_in client_for
  load_context return_to session_id = do
    parsed ← require (parse_authorize_return_to return_to) invalid_return_to
    guard (not (is_blank (trim_space session_id))) login_required
    session ← session_in s.session_cache (trim_space session_id)
    client ← client_for parsed
    pure (record { parsed = parsed; session = session; client = client })

  unfoldable pub prepare : PrepareInput → Exec W Err PrepareResult
  unfolding load_context
  prepare input = do
    c ← load_context input.return_to input.session_id
    pure (record {
      client_id = c.client.client_id;
      client_name = c.client.client_name;
      scopes = c.parsed.scopes;
      return_to = input.return_to;
    })

  settle : Bool → String → Context → Exec W Err DecideResult
  unfolding build_deny_redirect
  settle true return_to c = do
    uri ← require (build_deny_redirect c.parsed.redirect_uri c.parsed.state) invalid_return_to
    pure (record { redirect_uri = uri })
  settle false return_to c = do
    consents ← require s.consents invalid_client
    now ← always s.clock.now
    call (consents.upsert_active_consent c.session.user_id c.client.id c.parsed.scopes now)
    pure (record { redirect_uri = return_to })

  unfoldable pub decide : DecideInput → Exec W Err DecideResult
  unfolding load_context settle
  decide input = do
    let action = to_lower (trim_space input.action)
    guard (action == "accept" || action == "deny") invalid_action
    c ← load_context input.return_to input.session_id
    settle (action == "deny") input.return_to c
