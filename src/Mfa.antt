-- ===== src/Mfa.antt =====
-- internal/application/mfa: the set-up of TOTP for a user who is signed in. The repository of
-- sessions is not nil, since loadUser calls it; uuid.NewString is a parameter.
pub mod SignedIn
pub mod Source
pub mod Enabled
use sienne.Base.{
  ℕ, zero, suc, ◌+◌, ◌-◌, ◌*◌, ◌/◌, ◌%◌, ◌^◌, ◌≤◌, ◌<◌, String, ◌≡◌, refl, sym, ap, subst, ◌∙◌, ◌≢◌,
  ◌↔◌, ◌⊎◌, inl, inr, Bool, true, false, not, ◌&&◌, ◌||◌, Option, none, some, List, [], ◌∷◌, ◌++◌,
  map, arith, ◌==◌, eq_iff, eq_refl, ltb, leb, nat_eq, nat_eq_iff, if◌then◌else◌, Bool-cases,
  Option-cases, length, length-append, All, All-append, Any,
}
use sienne.Base.Exec.{
  caught, Fault, no_rows, other, Result, ok, err, fault, Exec, Port, pure, fail, raise, call,
  always, ignore, guard, require, ◌>>=◌, ◌>>◌,
}
use sienne.Base.Int.{
  ℤ, pos, negsuc, pos_part, neg_part, sub_ℕ, ◌+ℤ◌, ◌-ℤ◌, ◌*ℤ◌, ◌<ℤ◌, ltb_ℤ, eqb_ℤ, ltb_ℤ_iff,
  eqb_ℤ_iff, nanos_per_second, seconds, unix, whole_seconds, +ℤ_parts,
}
use sienne.Base.Text.{trim_space, to_lower, to_upper, join, is_blank, trim_space_idem}
use sienne.Domain.{
  positive, positive-eq-some, active_client, active_client-eq-some, zero_time, Client, Session,
  AuthorizationCode, User, AccessToken, RefreshToken, Totp,
}
use sienne.Ports.{
  MfaChallengeEntry, MfaCache, TotpEnrollmentEntry, Totps, TotpProvider, SessionCacheEntry,
  SessionCache, ReplayStatus, replay_none, replay_grace, replay_rejected, TokenResponse,
  ReplayResult, AccessTokenEntry, RefreshTokenEntry, TokenCache, DeviceCodeEntry, DeviceCodes,
  Clients, Sessions, Consents, AuthorizationCodes, Users, Tokens, Clock, Json, Strconv, Passwords,
  Claim, text, texts, number, flag, Signer, Digest,
}
use sienne.Authz.{stored_session}
use sienne.StateMask.{is_session_entry_active}

pub data Err : Type 0 where
  login_required already_enabled enrollment_expired invalid_totp_code totp_code_reused : Err

pub record SetupResult : Type 0 where
  pub secret : String
  pub provisioning_uri : String
  pub already_enabled : Bool

pub record ConfirmResult : Type 0 where
  pub enabled : Bool
  pub totp_required : Bool
  pub mfa_challenge_id : String
  pub redirect_uri : String
  pub return_to : String

pub record Service (W : Type 0) : Type 0 where
  pub sessions : Sessions W
  pub session_cache : Option (SessionCache W)
  pub users : Users W
  pub totps : Totps W
  pub mfa_cache : MfaCache W
  pub totp : Option (TotpProvider W)
  pub issuer : String
  pub ttl : ℤ
  pub clock : Clock W
  pub strconv : Strconv
  pub new_uuid : W → String × W

abbrev pub totp_step_replay_ttl : ℤ
totp_step_replay_ttl = pos 120_000_000_000

abbrev pub login_challenge_ttl : ℤ
login_challenge_ttl = pos 300_000_000_000

abbrev pub login_totp_redirect_route : String
login_totp_redirect_route = "/login/totp"

abbrev pub totp_purpose_enable : String
totp_purpose_enable = "enable_2fa"

pub record MfaContext : Type 0 where
  pub session_id : String
  pub user_id : ℤ
  pub subject : String
  pub username : String
  pub email : String
  pub ip_address : String
  pub user_agent : String

unfoldable pub context_of_entry : SessionCacheEntry → String → ℤ → User → MfaContext
context_of_entry entry session_id user_id user = record {
  session_id = session_id;
  user_id = user_id;
  subject = user.user_uuid;
  username = user.username;
  email = user.email;
  ip_address = entry.ip_address;
  user_agent = entry.user_agent;
}

unfoldable pub context_of_session : Session → String → User → MfaContext
context_of_session session session_id user = record {
  session_id = session_id;
  user_id = user.id;
  subject =
      if is_blank (trim_space user.user_uuid)
      then trim_space session.subject
      else trim_space user.user_uuid;
  username = user.username;
  email = user.email;
  ip_address = session.ip_address;
  user_agent = session.user_agent;
}

-- The user id of a cache entry that is active and has a positive one.
unfoldable pub entry_user_id : Strconv → SessionCacheEntry → ℤ → Option ℤ
unfolding positive is_session_entry_active
entry_user_id strconv entry now =
    if is_session_entry_active (some entry) now
    then positive (strconv.parse_int entry.user_id)
    else none

abbrev pub enabled_result : ConfirmResult
enabled_result = record {
  enabled = true;
  totp_required = false;
  mfa_challenge_id = "";
  redirect_uri = "";
  return_to = "";
}

abbrev pub challenge_result : String → String → ConfirmResult
challenge_result challenge_id return_to = record {
  enabled = true;
  totp_required = true;
  mfa_challenge_id = challenge_id;
  redirect_uri = login_totp_redirect_route;
  return_to = return_to;
}

-- `entry == nil || !entry.ExpiresAt.After(now)`, and then the test of the user, fail.
unfoldable pub own_enrollment : Option TotpEnrollmentEntry → ℤ → String → Option TotpEnrollmentEntry
own_enrollment none now user_id = none
own_enrollment (some entry) now user_id =
    if ltb_ℤ now entry.expires_at && entry.user_id == user_id then some entry else none

unfoldable pub new_totp : ℤ → String → ℤ → Totp
new_totp user_id secret now = record {
  id = pos 0;
  user_id = user_id;
  secret = secret;
  enabled_at = now;
  created_at = now;
  updated_at = now;
}

module _ {W : Type 0} (s : Service W) where
  by_user_id : Option ℤ → SessionCacheEntry → String → Exec W Err (Option MfaContext)
  unfolding context_of_entry
  by_user_id none entry session_id = pure none
  by_user_id (some user_id) entry session_id = do
    found ← call (s.users.find_by_id user_id)
    pure (elim found [
      | none ↦ none
      | some user ↦ some (context_of_entry entry session_id user_id user)
    ])

  of_entry : Option SessionCacheEntry → String → ℤ → Exec W Err (Option MfaContext)
  unfolding by_user_id entry_user_id
  of_entry none session_id now = pure none
  of_entry (some entry) session_id now =
      by_user_id (entry_user_id s.strconv entry now) entry session_id

  in_cache : Option (SessionCache W) → String → ℤ → Exec W Err (Option MfaContext)
  unfolding of_entry
  in_cache none session_id now = pure none
  in_cache (some cache) session_id now = do
    entry ← call (cache.get session_id)
    of_entry entry session_id now

  in_database : String → ℤ → Exec W Err MfaContext
  unfolding stored_session context_of_session
  in_database session_id now = do
    found ← call (s.sessions.find_by_session_id session_id)
    session ← require (stored_session found now) login_required
    known ← call (s.users.find_by_id session.user_id)
    user ← require known login_required
    pure (context_of_session session session_id user)

  or_in_database : Option MfaContext → String → ℤ → Exec W Err MfaContext
  unfolding in_database
  or_in_database (some c) session_id now = pure c
  or_in_database none session_id now = in_database session_id now

  unfoldable pub load_user : String → Exec W Err MfaContext
  unfolding in_cache or_in_database
  load_user raw = do
    let session_id = trim_space raw
    guard (not (is_blank session_id)) login_required
    now ← always s.clock.now
    hit ← in_cache s.session_cache session_id now
    or_in_database hit session_id now

  unfoldable pub new_challenge : MfaContext → String → ℤ → String → MfaChallengeEntry
  unfolding ◌+ℤ◌
  new_challenge c return_to now challenge_id = record {
    challenge_id = challenge_id;
    user_id = s.strconv.format_int c.user_id;
    subject = c.subject;
    username = c.username;
    ip_address = c.ip_address;
    user_agent = c.user_agent;
    return_to = return_to;
    redirect_uri = return_to;
    mfa_mode = "";
    push_status = "";
    push_code = "";
    approver_user_id = "";
    decided_at = zero_time;
    passkey_session_json = "";
    expires_at = now +ℤ login_challenge_ttl;
    state_mask = 0;
    state_version = 0;
  }

  unfoldable pub create_login_challenge : MfaContext → String → ℤ → Exec W Err String
  unfolding new_challenge
  create_login_challenge c return_to now = do
    challenge_id ← always s.new_uuid
    call (
        s.mfa_cache.save_mfa_challenge (new_challenge c return_to now challenge_id)
          login_challenge_ttl)
    pure challenge_id

  forget_session : Option (SessionCache W) → MfaContext → Exec W Err (Unit {0})
  forget_session none c = pure tt
  forget_session (some cache) c = do
    call (cache.delete c.session_id)
    call (cache.remove_user_session_index (s.strconv.format_int c.user_id) c.session_id)

  invalidate_if : Bool → MfaContext → ℤ → Exec W Err (Unit {0})
  unfolding forget_session
  invalidate_if true c now = pure tt
  invalidate_if false c now = do
    call (s.sessions.logout_by_session_id c.session_id now)
    forget_session s.session_cache c

  unfoldable pub invalidate_current_session : MfaContext → ℤ → Exec W Err (Unit {0})
  unfolding invalidate_if
  invalidate_current_session c now = invalidate_if (is_blank c.session_id) c now

  -- A new challenge in place of the session.
  unfoldable pub challenge_instead : MfaContext → String → ℤ → Exec W Err ConfirmResult
  unfolding create_login_challenge invalidate_current_session
  challenge_instead c return_to now = do
    challenge_id ← create_login_challenge c return_to now
    invalidate_current_session c now
    pure (challenge_result challenge_id return_to)

  setup_ttl : ℤ
  setup_ttl = if ltb_ℤ (pos 0) s.ttl then s.ttl else pos 600_000_000_000

  unfoldable pub new_enrollment : String → ℤ → String → String → ℤ → TotpEnrollmentEntry
  unfolding setup_ttl ◌+ℤ◌
  new_enrollment session_id user_id secret uri now = record {
    session_id = session_id;
    user_id = s.strconv.format_int user_id;
    secret = secret;
    provisioning_uri = uri;
    expires_at = now +ℤ setup_ttl;
  }

  setup_unless : TotpProvider W → Option Totp → String → MfaContext → Exec W Err SetupResult
  unfolding new_enrollment setup_ttl
  setup_unless provider (some existing) session_id c =
      pure (record { secret = ""; provisioning_uri = ""; already_enabled = true })
  setup_unless provider none session_id c = do
    secret ← call provider.generate_secret
    let name = if is_blank (trim_space c.email) then c.username else c.email
    let uri = provider.provisioning_uri s.issuer name secret
    now ← always s.clock.now
    call (
        s.mfa_cache.save_totp_enrollment (new_enrollment session_id c.user_id secret uri now)
          setup_ttl)
    pure (record { secret = secret; provisioning_uri = uri; already_enabled = false })

  -- GenerateSecret panics on a nil provider, so a service that begins a set-up has one.
  unfoldable pub begin_setup : TotpProvider W → String → Exec W Err SetupResult
  unfolding load_user setup_unless
  begin_setup provider session_id = do
    c ← load_user session_id
    existing ← call (s.totps.find_by_user_id c.user_id)
    setup_unless provider existing (trim_space session_id) c

  finish_if : Bool → MfaContext → String → ℤ → Exec W Err ConfirmResult
  unfolding challenge_instead
  finish_if true c return_to now = pure enabled_result
  finish_if false c return_to now = challenge_instead c return_to now

  unfoldable pub enable :
      TotpProvider W
      → MfaContext
      → TotpEnrollmentEntry
      → String
      → String
      → ℤ
      → String
      → Exec W Err ConfirmResult
  unfolding new_totp finish_if
  enable provider c entry session_id code now return_to = do
    let checked = provider.verify_code_with_step entry.secret code now
    guard checked.0 invalid_totp_code
    reserved ← call (
        s.mfa_cache.reserve_totp_step_use (s.strconv.format_int c.user_id) totp_purpose_enable
          checked.1 totp_step_replay_ttl)
    guard reserved totp_code_reused
    call (s.totps.upsert (new_totp c.user_id entry.secret now))
    call (s.mfa_cache.delete_totp_enrollment session_id)
    finish_if (is_blank return_to) c return_to now

  unfoldable pub confirm_setup : String → String → String → Exec W Err ConfirmResult
  unfolding load_user own_enrollment enable
  confirm_setup session_id code return_to = do
    c ← load_user session_id
    now ← always s.clock.now
    found ← call (s.mfa_cache.get_totp_enrollment (trim_space session_id))
    entry ← require (own_enrollment found now (s.strconv.format_int c.user_id)) enrollment_expired
    provider ← require s.totp invalid_totp_code
    enable provider c entry (trim_space session_id) code now (trim_space return_to)

  begin_if : Bool → MfaContext → String → Exec W Err ConfirmResult
  unfolding challenge_instead
  begin_if true c return_to = pure enabled_result
  begin_if false c return_to = do
    found ← call (s.totps.find_by_user_id c.user_id)
    existing ← require found enrollment_expired
    now ← always s.clock.now
    challenge_instead c return_to now

  unfoldable pub begin_login_challenge : String → String → Exec W Err ConfirmResult
  unfolding load_user begin_if
  begin_login_challenge session_id return_to = do
    c ← load_user session_id
    begin_if (is_blank (trim_space return_to)) c (trim_space return_to)
