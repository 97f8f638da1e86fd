-- ===== src/Authz/Issue.antt =====
-- What holds when the authorize endpoint answers, and when it hands out a code.
use sienne.Base.{
  String, ◌≡◌, sym, ap, ◌⊎◌, Bool, true, false, Option, none, some, arith, eq_iff, All,
}
use sienne.Base.Exec.{ok, pure}
use sienne.Base.Exec.Success.{
  >>=-eq-ok, require-eq-ok, call-eq-ok, always-eq-ok, guard-eq-ok, pure-eq-ok,
}
use sienne.Base.Int.{ℤ, ◌<ℤ◌}
use sienne.Base.Text.{trim_space, is_blank}
use sienne.Domain.{active_client-eq-some, Client, Session}
use sienne.Ports.{SessionCacheEntry, SessionCache, Strconv}
use sienne.Scopes.Laws.{In, contains_iff, IsAllowed, all_contained_iff}
use sienne.StateMask.{is_session_entry_active}
use sienne.Authz.{
  resume_if, look_in, hit_or_stored, Command, Answer, Service, normalize_code_challenge_method,
  validate_pkce, cached_session, stored_session, requested_scopes, look_in_cache, look_in_database,
  find_active_session, new_code, issue_code, has_consent, decide, proceed, resume, authorize,
}
use sienne.Base.{refl, if◌then◌else◌, inl, inr, List, ◌∙◌}
use sienne.Base.Int.{ℤ, pos, ◌<ℤ◌, ◌+ℤ◌}
use sienne.Base.Exec.Success.{call_alone-eq-ok}
use sienne.Domain.{positive, positive-eq-some, Session, AuthorizationCode}
use sienne.Ports.{SessionCacheEntry, Consents, Strconv}
use sienne.StateMask.{is_session_entry_active}
use sienne.Base.{[], ◌∷◌}
use sienne.Scopes.{normalize_scopes}
use sienne.Scopes.Laws.{Chosen, case-Chosen}
use sienne.Authz.{has_consent_in, session_of_entry}
use sienne.Authz.Live.{IsActive, is_session_entry_active-IsActive, IsLive, by_cache, by_database}

-- Either no challenge where the client does not ask for one, or a challenge by a known method.
abbrev PkceAccepted : Command → Client → Type 0
PkceAccepted cmd client =
    ((is_blank (trim_space cmd.code_challenge) ≡ true) × (client.require_pkce ≡ false))
    ⊎ ((is_blank (trim_space cmd.code_challenge) ≡ false)
        × ((normalize_code_challenge_method (trim_space cmd.code_challenge_method) ≡ "plain")
            ⊎ (normalize_code_challenge_method (trim_space cmd.code_challenge_method) ≡ "S256")))

pub record Accepted (cmd : Command) (client : Client) : Type 0 where
  pub client_id : is_blank (trim_space cmd.client_id) ≡ false
  pub redirect_uri : is_blank (trim_space cmd.redirect_uri) ≡ false
  pub response : trim_space cmd.response_type ≡ "code"
  pub active : client.status ≡ "active"
  pub grant : In "authorization_code" client.grant_types
  pub registered : In cmd.redirect_uri client.redirect_uris
  pub chosen : Chosen cmd.scope ("openid" ∷ []) (requested_scopes cmd.scope)
  pub scopes : All (IsAllowed client.scopes) (requested_scopes cmd.scope)
  pub pkce : PkceAccepted cmd client

pub requested_scopes-Chosen :
    (scope : List String) → Chosen scope ("openid" ∷ []) (requested_scopes scope)
unfolding requested_scopes
requested_scopes-Chosen scope = case-Chosen scope ("openid" ∷ []) (normalize_scopes scope) refl

validate_pkce-accepted :
    (cmd : Command) (client : Client)
    → validate_pkce client.require_pkce
        (trim_space cmd.code_challenge)
        (trim_space cmd.code_challenge_method)
      ≡ true
    → PkceAccepted cmd client
unfolding validate_pkce
validate_pkce-accepted cmd client h =
    let m = normalize_code_challenge_method (trim_space cmd.code_challenge_method) in
    ground (arith, eq_iff m "plain", eq_iff m "S256")

module _ {W : Type 0} (s : Service W) (cmd : Command) where
  -- Any answer but an error, a request to log in or to consent included, is given only after the
  -- whole request was found valid for an active client.
  pub authorize-accepts :
      (w v : W) (a : Answer)
      → authorize s (some cmd) w ≡ (ok a, v)
      → (client : Client) × (w₁ : W) × (s.clients.find_by_client_id (trim_space cmd.client_id) w
          ≡ (ok (some client), w₁))
        × Accepted cmd client
        × (resume s cmd client (requested_scopes cmd.scope) w₁ ≡ (ok a, v))
  unfolding authorize
  authorize-accepts w v a h =
      let (ids, h₁) = guard-eq-ok _ _ _ h in
      let (response, h₂) = guard-eq-ok _ _ _ h₁ in
      let (found, w₁, looked, h₃) = call-eq-ok _ _ h₂ in
      let (client, is_active, h₄) = require-eq-ok _ _ _ h₃ in
      let (grant, h₅) = guard-eq-ok _ _ _ h₄ in
      let (registered, h₆) = guard-eq-ok _ _ _ h₅ in
      let (scopes, h₇) = guard-eq-ok _ _ _ h₆ in
      let (pkce, h₈) = guard-eq-ok _ _ _ h₇ in
      let (same, active) = active_client-eq-some found client is_active in
      (
        client,
        w₁,
        cc,
        record {
          client_id = ground arith;
          redirect_uri = ground arith;
          response = (eq_iff _ _).0 response;
          active = active;
          grant = (contains_iff _ _).0 grant;
          registered = (contains_iff _ _).0 registered;
          chosen = requested_scopes-Chosen cmd.scope;
          scopes = (all_contained_iff _ _).0 scopes;
          pkce = validate_pkce-accepted cmd client pkce;
        },
        h₈,
      )

test-eq-some :
    (test : Bool) (o : Option Session) (session : Session)
    → (if test then o else none) ≡ some session
    → (test ≡ true) × (o ≡ some session)
test-eq-some true o session h = (refl, h)
test-eq-some false o session h = cc

entry_session :
    (o found : Option ℤ) (entry : SessionCacheEntry) (session : Session)
    → found ≡ o
    → elim o as (λ _. Option Session) [
      | none ↦ none
      | some user_id ↦ some (session_of_entry entry user_id)
    ]
      ≡ some session
    → (found ≡ some session.user_id)
      × (session.subject ≡ entry.subject)
      × (session.expires_at ≡ entry.expires_at)
unfolding session_of_entry
entry_session none found entry session e k = cc
entry_session (some n) found entry session e k =
    let same : session_of_entry entry n ≡ session = cc in
    (
      e ∙ ap (λ (x : Session). some x.user_id) same,
      sym (ap (λ (x : Session). x.subject) same),
      sym (ap (λ (x : Session). x.expires_at) same),
    )

cached_session-eq-some :
    (strconv : Strconv) (entry : SessionCacheEntry) (now : ℤ) (session : Session)
    → cached_session strconv (some entry) now ≡ some session
    → IsActive entry now
      × (strconv.parse_int (trim_space entry.user_id) ≡ some session.user_id)
      × (pos 0 <ℤ session.user_id)
      × (session.subject ≡ entry.subject)
      × (session.expires_at ≡ entry.expires_at)
unfolding cached_session
cached_session-eq-some strconv entry now session h =
    let (active, k) = test-eq-some (is_session_entry_active (some entry) now) _ session h in
    let (parsed, subject, expires) =
      entry_session (positive (strconv.parse_int (trim_space entry.user_id))) _ entry session refl
        k in
    let (known, at_least) = positive-eq-some _ session.user_id parsed in
    (is_session_entry_active-IsActive entry now active, known, at_least, subject, expires)

pub stored_session-eq-some :
    (found : Option Session) (now : ℤ) (session : Session)
    → stored_session found now ≡ some session
    → (found ≡ some session) × (session.logged_out_at ≡ none) × (now <ℤ session.expires_at)
unfolding stored_session
stored_session-eq-some none now session h = cc
stored_session-eq-some (some x) now session h = (ground arith, ground arith, ground arith)

module _ {W : Type 0} (s : Service W) where
  -- The service's sessions, and its reading of the user id of a cache entry.
  abbrev pub LiveSession : String → ℤ → Session → Type 0
  LiveSession session_id now session =
      IsLive s.session_cache s.sessions (λ raw. s.strconv.parse_int (trim_space raw)) session_id now
        session

  module _ (session_id : String) (now : ℤ) where
    cached_session-IsLive :
        (c : SessionCache W) (found : Option SessionCacheEntry) (u v : W) (session : Session)
        → s.session_cache ≡ some c
        → c.get session_id u ≡ (ok found, v)
        → cached_session s.strconv found now ≡ some session
        → LiveSession session_id now session
    unfolding cached_session
    cached_session-IsLive c none u v session e asked k = cc
    cached_session-IsLive c (some entry) u v session e asked k =
        let (active, parsed, at_least, subject, expires) =
          cached_session-eq-some s.strconv entry now session k in
        by_cache c entry u v e asked active parsed at_least subject expires

    look_in-IsLive :
        (cache : Option (SessionCache W)) (w v : W) (session : Session)
        → s.session_cache ≡ cache
        → look_in s cache session_id now w ≡ (ok (some session), v)
        → LiveSession session_id now session
    unfolding look_in pure
    look_in-IsLive none w v session e h = cc
    look_in-IsLive (some c) w v session e h =
        let (found, w₁, asked, k) = call-eq-ok _ _ h in
        cached_session-IsLive c found w w₁ session e asked (pure-eq-ok k).0

    look_in_database-IsLive :
        (w v : W) (session : Session)
        → look_in_database s session_id now w ≡ (ok (some session), v)
        → LiveSession session_id now session
    unfolding look_in_database
    look_in_database-IsLive w v session h =
        let (found, w₁, looked, k) = call-eq-ok _ _ h in
        let (same, logged_in, in_time) =
          stored_session-eq-some found now session (pure-eq-ok k).0 in
        by_database w w₁ (looked ∙ ap (λ o. (ok o, w₁)) same) logged_in in_time

    hit_or_stored-IsLive :
        (hit : Option Session) (u w v : W) (session : Session)
        → look_in_cache s session_id now u ≡ (ok hit, w)
        → hit_or_stored s session_id now hit w ≡ (ok (some session), v)
        → LiveSession session_id now session
    unfolding hit_or_stored look_in_cache
    hit_or_stored-IsLive (some found) u w v session e h =
        look_in-IsLive s.session_cache u w session refl (rw (← (pure-eq-ok h).0) e)
    hit_or_stored-IsLive none u w v session e h = look_in_database-IsLive w v session h

  -- A session is found only in one of two ways. Either the cache gave an entry for its id that has the
  -- session's user and subject, expires after the instant that the clock showed at the start, has the
  -- active bit and reads as active; or the database gave the session, which was not logged out and
  -- expires after that instant.
  pub find_active_session-IsLive :
      (session_id : String) (w v : W) (session : Session)
      → find_active_session s session_id w ≡ (ok (some session), v)
      → LiveSession session_id (s.clock.now w).0 session
  unfolding find_active_session
  find_active_session-IsLive session_id w v session h =
      let h₁ = always-eq-ok _ _ h in
      let (hit, w₁, asked, h₂) = >>=-eq-ok _ _ h₁ in
      hit_or_stored-IsLive session_id (s.clock.now w).0 hit _ w₁ v session asked h₂

-- The code is bound to the request, its client and its user, and can be consumed until it expires.
pub record Bound {W : Type 0} (s : Service W) (cmd : Command) (client : Client) (session : Session)
    (now : ℤ) (row : AuthorizationCode) : Type 0 where
  pub of_client : row.client_db_id ≡ client.id
  pub of_user : row.user_id ≡ session.user_id
  pub uri : row.redirect_uri ≡ cmd.redirect_uri
  pub scopes : row.scopes_json ≡ s.json.marshal (requested_scopes cmd.scope)
  pub nonce : row.nonce_value ≡ trim_space cmd.nonce
  pub challenge : row.code_challenge ≡ trim_space cmd.code_challenge
  pub method : row.code_challenge_method ≡ normalize_code_challenge_method cmd.code_challenge_method
  pub expires : row.expires_at ≡ now +ℤ s.code_ttl
  pub fresh : row.consumed_at ≡ none

new_code-Bound :
    {W : Type 0} (s : Service W) (cmd : Command) (client : Client) (session : Session) (now : ℤ)
    (code : String)
    → Bound s cmd client session now
        (new_code s cmd client session (requested_scopes cmd.scope) now code)
      × ((new_code s cmd client session (requested_scopes cmd.scope) now code).code ≡ code)
unfolding new_code
new_code-Bound s cmd client session now code = (
  record {
    of_client = refl;
    of_user = refl;
    uri = refl;
    scopes = refl;
    nonce = refl;
    challenge = refl;
    method = refl;
    expires = refl;
    fresh = refl;
  },
  refl,
)

-- The client asks for no consent, or none are kept, or the user's consent is on file.
abbrev pub Agreed : {W : Type 0} → Service W → Client → Session → List String → W → W → Type 0
Agreed {W} s client session scopes w v =
    (client.require_consent ≡ false)
    ⊎ ((s.consents ≡ none)
        ⊎ ((c : Consents W) × (s.consents ≡ some c)
            × (c.has_active_consent session.user_id client.id scopes w ≡ (ok true, v))))

has_consent-Agreed :
    {W : Type 0} (s : Service W) (client : Client) (session : Session) (scopes : List String)
    (kept : Option (Consents W)) (required : Bool) (w v : W)
    → s.consents ≡ kept
    → client.require_consent ≡ required
    → has_consent_in s kept required client session scopes w ≡ (ok true, v)
    → Agreed s client session scopes w v
unfolding has_consent_in
has_consent-Agreed s client session scopes none required w v e r h = inr (inl e)
has_consent-Agreed s client session scopes (some c) false w v e r h = inl r
has_consent-Agreed s client session scopes (some c) true w v e r h =
    inr (inr (c, e, call_alone-eq-ok _ h))

-- How a code came to be stored: for whom, by whose session, with what consent, and under which
-- answer.
pub record Issued {W : Type 0} (s : Service W) (cmd : Command) (client : Client) (w v : W)
    (a : Answer) : Type 0 where
  pub session : Session
  pub code : String
  pub searched : W
  pub asked : W
  pub ready : W
  pub signed_in :
      find_active_session s (trim_space cmd.session_id) w ≡ (ok (some session), searched)
  pub live : LiveSession s (trim_space cmd.session_id) (s.clock.now w).0 session
  pub agreed : Agreed s client session (requested_scopes cmd.scope) searched asked
  pub row : AuthorizationCode
  pub named : row.code ≡ code
  pub bound : Bound s cmd client session (s.clock.now asked).0 row
  pub stored : s.codes.create row ready ≡ (ok tt, v)
  pub answer_code : a.code ≡ code
  pub answer_uri : a.redirect_uri ≡ cmd.redirect_uri
  pub answer_state : a.state ≡ cmd.state

module _ {W : Type 0} (s : Service W) (cmd : Command) where
  decide-Issued :
      (client : Client) (session : Session) (agreed : Bool) (w₁ w₂ w₃ v : W) (a : Answer)
      → find_active_session s (trim_space cmd.session_id) w₁ ≡ (ok (some session), w₂)
      → has_consent s client session (requested_scopes cmd.scope) w₂ ≡ (ok agreed, w₃)
      → decide s cmd client (requested_scopes cmd.scope) session agreed w₃ ≡ (ok a, v)
      → a.require_consent ≡ false
      → Issued s cmd client w₁ v a
  unfolding decide issue_code has_consent
  decide-Issued client session false w₁ w₂ w₃ v a found asked h no_consent =
      cc (no_consent, ap (λ (x : Answer). x.require_consent) (pure-eq-ok h).0)
  decide-Issued client session true w₁ w₂ w₃ v a found asked h no_consent =
      let h₁ = always-eq-ok _ _ h in
      let h₂ = always-eq-ok _ _ h₁ in
      let (_, w₄, stored, h₃) = call-eq-ok _ _ h₂ in
      let (answer, end) = pure-eq-ok h₃ in
      record {
        session = session;
        code = (s.code_maker (s.clock.now w₃).1).0;
        searched = w₂;
        asked = w₃;
        ready = (s.code_maker (s.clock.now w₃).1).1;
        signed_in = found;
        live = find_active_session-IsLive s _ w₁ w₂ session found;
        agreed = has_consent-Agreed s client session _ s.consents _ w₂ w₃ refl refl asked;
        row =
            new_code s cmd client session (requested_scopes cmd.scope) (s.clock.now w₃).0
              (s.code_maker (s.clock.now w₃).1).0;
        named = (new_code-Bound s cmd client session (s.clock.now w₃).0 _).1;
        bound = (new_code-Bound s cmd client session (s.clock.now w₃).0 _).0;
        stored = cc;
        answer_code = sym (ap (λ (x : Answer). x.code) answer);
        answer_uri = sym (ap (λ (x : Answer). x.redirect_uri) answer);
        answer_state = sym (ap (λ (x : Answer). x.state) answer);
      }

  proceed-Issued :
      (client : Client) (found : Option Session) (w₁ w₂ v : W) (a : Answer)
      → find_active_session s (trim_space cmd.session_id) w₁ ≡ (ok found, w₂)
      → proceed s cmd client (requested_scopes cmd.scope) found w₂ ≡ (ok a, v)
      → a.require_login ≡ false
      → a.require_consent ≡ false
      → Issued s cmd client w₁ v a
  unfolding proceed
  proceed-Issued client none w₁ w₂ v a found h no_login no_consent =
      cc (no_login, ap (λ (x : Answer). x.require_login) (pure-eq-ok h).0)
  proceed-Issued client (some session) w₁ w₂ v a found h no_login no_consent =
      let (agreed, w₃, asked, k) = >>=-eq-ok _ _ h in
      decide-Issued client session agreed w₁ w₂ w₃ v a found asked k no_consent

  resume-Issued :
      (client : Client) (blank : Bool) (w v : W) (a : Answer)
      → resume_if s blank cmd client (requested_scopes cmd.scope) w ≡ (ok a, v)
      → a.require_login ≡ false
      → a.require_consent ≡ false
      → Issued s cmd client w v a
  unfolding resume_if
  resume-Issued client true w v a h no_login no_consent =
      cc (no_login, ap (λ (x : Answer). x.require_login) (pure-eq-ok h).0)
  resume-Issued client false w v a h no_login no_consent =
      let (found, w₁, searched, k) = >>=-eq-ok _ _ h in
      proceed-Issued client found w w₁ v a searched k no_login no_consent

  -- An answer that asks for no login and no consent carries a code. It is given only to a valid
  -- request of an active client, for a live session, and, where the client requires consent and
  -- consents are kept, after the repository said that the user has given it for this client and these
  -- scopes. The code that was stored is the answer's, is not consumed, expires after the lifetime of
  -- codes, and has the client, the session's user, and the redirect URI, scopes, nonce and PKCE
  -- challenge of the request; the answer has the redirect URI and the state of the request.
  pub authorize-Issued :
      (w v : W) (a : Answer)
      → authorize s (some cmd) w ≡ (ok a, v)
      → a.require_login ≡ false
      → a.require_consent ≡ false
      → (client : Client) × (w₁ : W) × (s.clients.find_by_client_id (trim_space cmd.client_id) w
          ≡ (ok (some client), w₁))
        × Accepted cmd client
        × Issued s cmd client w₁ v a
  unfolding resume
  authorize-Issued w v a h no_login no_consent =
      let (client, w₁, found, accepted, k) = authorize-accepts s cmd w v a h in
      (client, w₁, found, accepted, resume-Issued client _ w₁ v a k no_login no_consent)
