-- ===== src/Logout.antt =====
-- internal/application/session: logging a session, or all of a user's, out. The package has no
-- error of its own; a nil collaborator, session or token is `none`.
pub mod Ids
pub mod Revocation
pub mod Complete
use sienne.Base.{
  ℕ, zero, suc, ◌+◌, ◌-◌, ◌*◌, ◌/◌, ◌%◌, ◌^◌, ◌≤◌, ◌<◌, String, ◌≡◌, refl, sym, ap, subst, ◌∙◌, ◌≢◌,
  ◌↔◌, ◌⊎◌, inl, inr, Bool, true, false, not, ◌&&◌, ◌||◌, Option, none, some, List, [], ◌∷◌, ◌++◌,
  map, arith, ◌==◌, eq_iff, eq_refl, ltb, leb, nat_eq, nat_eq_iff, if◌then◌else◌, Bool-cases,
  Option-cases, length, length-append, All, All-append, Any,
}
use sienne.Base.Exec.{
  caught, Fault, no_rows, other, Result, ok, err, fault, Exec, Port, pure, fail, raise, call,
  always, ignore, guard, require, ◌>>=◌, ◌>>◌,
}
use sienne.Base.Int.{
  ℤ, pos, negsuc, pos_part, neg_part, sub_ℕ, ◌+ℤ◌, ◌-ℤ◌, ◌*ℤ◌, ◌<ℤ◌, ltb_ℤ, eqb_ℤ, ltb_ℤ_iff,
  eqb_ℤ_iff, nanos_per_second, seconds, unix, whole_seconds, +ℤ_parts,
}
use sienne.Base.Text.{trim_space, to_lower, to_upper, join, is_blank, trim_space_idem}
use sienne.Domain.{
  positive, positive-eq-some, active_client, active_client-eq-some, zero_time, Client, Session,
  AuthorizationCode, User, AccessToken, RefreshToken,
}
use sienne.Ports.{
  SessionCacheEntry, SessionCache, ReplayStatus, replay_none, replay_grace, replay_rejected,
  TokenResponse, ReplayResult, AccessTokenEntry, RefreshTokenEntry, TokenCache, DeviceCodeEntry,
  DeviceCodes, Clients, Sessions, Consents, AuthorizationCodes, Users, Tokens, Clock, Json, Strconv,
  Passwords, Claim, text, texts, number, flag, Signer, Digest,
}
use sienne.Base.Int.{sub_time}
use sienne.Scopes.{contains}

pub record LogoutInput : Type 0 where
  pub session_id : String

pub record LogoutResult : Type 0 where
  pub session_id : String
  pub user_id : String

pub record LogoutAllInput : Type 0 where
  pub session_id : String

pub record LogoutAllResult : Type 0 where
  pub session_id : String
  pub user_id : String
  pub revoked_session_count : ℕ
  pub revoked_access_tokens : ℕ
  pub revoked_refresh_tokens : ℕ

pub record AdminLogoutUserInput : Type 0 where
  pub user_id : ℤ

pub record TokenRevoker (W : Type 0) : Type 0 where
  pub list_active_access_tokens_by_user_id : ℤ → Port W (List (Option AccessToken))
  pub list_active_refresh_tokens_by_user_id : ℤ → Port W (List (Option RefreshToken))
  pub revoke_access_tokens_by_user_id : ℤ → ℤ → Port W (Unit {0})
  pub revoke_refresh_tokens_by_user_id : ℤ → ℤ → Port W (Unit {0})

pub record Service (W : Type 0) : Type 0 where
  pub sessions : Sessions W
  pub session_cache : Option (SessionCache W)
  pub tokens : Option (TokenRevoker W)
  pub token_cache : Option (TokenCache W)
  pub clock : Clock W
  pub strconv : Strconv

-- The package has no error of its own.
abbrev pub Act : Type 0 → Type 0 → Type 0
Act W A = Exec W ⊥ A

abbrev pub no_logout : LogoutResult
no_logout = record { session_id = ""; user_id = "" }

abbrev pub no_logout_all : String → LogoutAllResult
no_logout_all session_id = record {
  session_id = session_id;
  user_id = "";
  revoked_session_count = 0;
  revoked_access_tokens = 0;
  revoked_refresh_tokens = 0;
}

-- One turn of either loop of collectUserSessionIDs. The keys of `seen` are the members of `ids`.
unfoldable pub add_id : List String → String → List String
unfolding contains
add_id ids raw =
    let id = trim_space raw in
    if is_blank id then ids else if contains ids id then ids else ids ++ (id ∷ [])

unfoldable pub add_cached : List String → List String → List String
unfolding add_id
add_cached ids [] = ids
add_cached ids (raw ∷ rest) = add_cached (add_id ids raw) rest

unfoldable pub add_sessions : List String → List (Option Session) → List String
unfolding add_id
add_sessions ids [] = ids
add_sessions ids (none ∷ rest) = add_sessions ids rest
add_sessions ids (some session ∷ rest) = add_sessions (add_id ids session.session_id) rest

module _ {W : Type 0} where
  -- The deletion of one candidate, or its `continue`, before the rest of the loop.
  delete_one : Bool → SessionCache W → String → Act W (Unit {0}) → Act W (Unit {0})
  delete_one true cache id rest = rest
  delete_one false cache id rest = do call (cache.delete id); rest

  unfoldable pub delete_each : SessionCache W → List String → Act W (Unit {0})
  unfolding delete_one
  delete_each cache [] = pure tt
  delete_each cache (id ∷ rest) = delete_one (is_blank id) cache id (delete_each cache rest)

  unfoldable pub delete_all : Option (SessionCache W) → List String → Act W (Unit {0})
  unfolding delete_each
  delete_all none ids = pure tt
  delete_all (some cache) ids = delete_each cache ids

  -- A token is put on the blacklist for the rest of its life, if it has any.
  revoke_one : (String → ℤ → Port W (Unit {0})) → String → ℤ → Act W (Unit {0}) → Act W (Unit {0})
  revoke_one revoke sha ttl rest w =
      if ltb_ℤ (pos 0) ttl then (call (revoke sha ttl) >>= λ _. rest) w else rest w

  unfoldable pub revoke_access : TokenCache W → ℤ → List (Option AccessToken) → Act W (Unit {0})
  unfolding revoke_one sub_time
  revoke_access cache at [] = pure tt
  revoke_access cache at (none ∷ rest) = revoke_access cache at rest
  revoke_access cache at (some token ∷ rest) =
      revoke_one cache.revoke_access_token token.token_sha256 (sub_time token.expires_at at)
        (revoke_access cache at rest)

  unfoldable pub revoke_refresh : TokenCache W → ℤ → List (Option RefreshToken) → Act W (Unit {0})
  unfolding revoke_one sub_time
  revoke_refresh cache at [] = pure tt
  revoke_refresh cache at (none ∷ rest) = revoke_refresh cache at rest
  revoke_refresh cache at (some token ∷ rest) =
      revoke_one cache.revoke_refresh_token token.token_sha256 (sub_time token.expires_at at)
        (revoke_refresh cache at rest)

  blacklist :
      Option (TokenCache W)
      → ℤ
      → List (Option AccessToken)
      → List (Option RefreshToken)
      → Act W (Unit {0})
  unfolding revoke_access revoke_refresh
  blacklist none at access refresh = pure tt
  blacklist (some cache) at access refresh = do
    revoke_access cache at access
    revoke_refresh cache at refresh

  revoke_with : TokenRevoker W → Option (TokenCache W) → ℤ → ℤ → Act W (ℕ × ℕ)
  unfolding blacklist
  revoke_with tokens cache user_id at = do
    access ← call (tokens.list_active_access_tokens_by_user_id user_id)
    refresh ← call (tokens.list_active_refresh_tokens_by_user_id user_id)
    call (tokens.revoke_access_tokens_by_user_id user_id at)
    call (tokens.revoke_refresh_tokens_by_user_id user_id at)
    blacklist cache at access refresh
    pure (length access, length refresh)

  unfoldable pub revoke_user_tokens_in :
      Option (TokenRevoker W) → Option (TokenCache W) → ℤ → ℤ → Act W (ℕ × ℕ)
  unfolding revoke_with
  revoke_user_tokens_in none cache user_id at = pure (0, 0)
  revoke_user_tokens_in (some tokens) cache user_id at = revoke_with tokens cache user_id at

module _ {W : Type 0} (s : Service W) where
  unfoldable pub revoke_user_tokens : ℤ → ℤ → Act W (ℕ × ℕ)
  unfolding revoke_user_tokens_in
  revoke_user_tokens user_id at = revoke_user_tokens_in s.tokens s.token_cache user_id at

  add_index : Option (SessionCache W) → ℤ → List String → Act W (List String)
  unfolding add_cached
  add_index none user_id ids = pure ids
  add_index (some cache) user_id ids = do
    cached ← call (cache.list_user_session_ids (s.strconv.format_int user_id))
    pure (add_cached ids cached)

  unfoldable pub collect_user_session_ids : ℤ → List (Option Session) → Act W (List String)
  unfolding add_index add_sessions
  collect_user_session_ids user_id active =
      add_index s.session_cache user_id (add_sessions [] active)

  unfoldable pub logout_user : ℤ → String → Act W LogoutAllResult
  unfolding collect_user_session_ids delete_all revoke_user_tokens
  logout_user user_id session_id = do
    now ← always s.clock.now
    active ← call (s.sessions.list_active_by_user_id user_id)
    call (s.sessions.logout_all_by_user_id user_id now)
    ids ← collect_user_session_ids user_id active
    delete_all s.session_cache ids
    revoked ← revoke_user_tokens user_id now
    pure (record {
      session_id = session_id;
      user_id = s.strconv.format_int user_id;
      revoked_session_count = length ids;
      revoked_access_tokens = revoked.0;
      revoked_refresh_tokens = revoked.1;
    })

  forget : Option (SessionCache W) → String → Act W (Unit {0})
  forget none session_id = pure tt
  forget (some cache) session_id = call (cache.delete session_id)

  mark_logged_out : Option ℤ → String → Act W (Unit {0})
  mark_logged_out (some at) session_id = pure tt
  mark_logged_out none session_id = do
    now ← always s.clock.now
    call (s.sessions.logout_by_session_id session_id now)

  logout_found : Option Session → String → Act W LogoutResult
  unfolding forget mark_logged_out
  logout_found none session_id = do forget s.session_cache session_id; pure no_logout
  logout_found (some session) session_id = do
    mark_logged_out session.logged_out_at session_id
    forget s.session_cache session_id
    pure (record { session_id = session_id; user_id = s.strconv.format_int session.user_id })

  logout_if : Bool → String → Act W LogoutResult
  unfolding logout_found
  logout_if true session_id = pure no_logout
  logout_if false session_id = do
    found ← call (s.sessions.find_by_session_id session_id)
    logout_found found session_id

  unfoldable pub logout : LogoutInput → Act W LogoutResult
  unfolding logout_if
  logout input = logout_if (is_blank (trim_space input.session_id)) (trim_space input.session_id)

  logout_all_found : Option Session → String → Act W LogoutAllResult
  unfolding forget logout_user
  logout_all_found none session_id = do
    forget s.session_cache session_id
    pure (no_logout_all session_id)
  logout_all_found (some session) session_id = logout_user session.user_id session_id

  logout_all_if : Bool → String → Act W LogoutAllResult
  unfolding logout_all_found
  logout_all_if true session_id = pure (no_logout_all "")
  logout_all_if false session_id = do
    found ← call (s.sessions.find_by_session_id session_id)
    logout_all_found found session_id

  unfoldable pub logout_all : LogoutAllInput → Act W LogoutAllResult
  unfolding logout_all_if
  logout_all input =
      logout_all_if (is_blank (trim_space input.session_id)) (trim_space input.session_id)

  unfoldable pub admin_logout_user : AdminLogoutUserInput → Act W LogoutAllResult
  unfolding logout_user
  admin_logout_user input w =
      if ltb_ℤ (pos 0) input.user_id
      then logout_user input.user_id "" w
      else (ok (no_logout_all ""), w)
