-- ===== src/Mfa/Source.antt =====
-- The session and the user behind the context that loadUser of internal/application/mfa gives.
use sienne.Base.{
  String, ◌≡◌, refl, ap, subst, ◌∙◌, Bool, true, false, Option, none, some, if◌then◌else◌,
}
use sienne.Base.Exec.{ok, pure}
use sienne.Base.Exec.Success.{
  >>=-eq-ok, require-eq-ok, call-eq-ok, always-eq-ok, guard-eq-ok, pure-eq-ok,
}
use sienne.Base.Int.{ℤ, pos, ◌<ℤ◌}
use sienne.Base.Text.{trim_space, is_blank}
use sienne.Base.{not}
use sienne.Domain.{positive-eq-some, Session, User}
use sienne.Ports.{Strconv, SessionCacheEntry, SessionCache}
use sienne.StateMask.{is_session_entry_active}
use sienne.Authz.Live.{IsActive, is_session_entry_active-IsActive}
use sienne.Authz.Issue.{stored_session-eq-some}
use sienne.Mfa.{
  Service, MfaContext, context_of_entry, context_of_session, entry_user_id, by_user_id, of_entry,
  in_cache, in_database, or_in_database, load_user,
}

test-eq-some :
    (test : Bool) (o : Option ℤ) (n : ℤ)
    → (if test then o else none) ≡ some n
    → (test ≡ true) × (o ≡ some n)
test-eq-some true o n h = (refl, h)
test-eq-some false o n h = cc

entry_user_id-eq-some :
    (strconv : Strconv) (entry : SessionCacheEntry) (now n : ℤ)
    → entry_user_id strconv entry now ≡ some n
    → IsActive entry now × (strconv.parse_int entry.user_id ≡ some n) × (pos 0 <ℤ n)
unfolding entry_user_id
entry_user_id-eq-some strconv entry now n h =
    let (active, is_positive) = test-eq-some (is_session_entry_active (some entry) now) _ n h in
    let (parsed, at_least) = positive-eq-some _ n is_positive in
    (is_session_entry_active-IsActive entry now active, parsed, at_least)

module _ {W : Type 0} (s : Service W) where
  -- At an instant the session signs the user of the context in: an active entry of the cache has the
  -- id of a user who exists, or the database has the session, neither logged out nor expired, of a
  -- user who exists.
  pub data SignsIn (session_id : String) (now : ℤ) (c : MfaContext) : Type 0 where
    by_cache :
        (cache : SessionCache W) (entry : SessionCacheEntry) (user : User) (u v x : W)
        → s.session_cache ≡ some cache
        → cache.get session_id u ≡ (ok (some entry), v)
        → IsActive entry now
        → s.strconv.parse_int entry.user_id ≡ some c.user_id
        → pos 0 <ℤ c.user_id
        → s.users.find_by_id c.user_id v ≡ (ok (some user), x)
        → c.subject ≡ user.user_uuid
        → c.username ≡ user.username
        → SignsIn session_id now c
    by_database :
        (session : Session) (user : User) (u v x : W)
        → s.sessions.find_by_session_id session_id u ≡ (ok (some session), v)
        → session.logged_out_at ≡ none
        → now <ℤ session.expires_at
        → s.users.find_by_id session.user_id v ≡ (ok (some user), x)
        → c.user_id ≡ user.id
        → c.username ≡ user.username
        → SignsIn session_id now c

  entry_context :
      (found : Option User) (entry : SessionCacheEntry) (user_id : ℤ) (session_id : String)
      (c : MfaContext)
      → elim found as (λ _. Option MfaContext) [
        | none ↦ none
        | some user ↦ some (context_of_entry entry session_id user_id user)
      ]
        ≡ some c
      → (user : User) × (found ≡ some user) × (context_of_entry entry session_id user_id user ≡ c)
  entry_context none entry user_id session_id c h = cc
  entry_context (some user) entry user_id session_id c h = (user, refl, cc)

  module _ (session_id : String) (now : ℤ) where
    module _ (cache : SessionCache W) (configured : s.session_cache ≡ some cache) where
      by_user_id-SignsIn :
          (o : Option ℤ) (entry : SessionCacheEntry) (u w v : W) (c : MfaContext)
          → cache.get session_id u ≡ (ok (some entry), w)
          → entry_user_id s.strconv entry now ≡ o
          → by_user_id s o entry session_id w ≡ (ok (some c), v)
          → SignsIn session_id now c
      unfolding by_user_id context_of_entry pure
      by_user_id-SignsIn none entry u w v c asked e h = cc
      by_user_id-SignsIn (some user_id) entry u w v c asked e h =
          let (found, w₁, looked, h₁) = call-eq-ok _ _ h in
          let (user, known, same) =
            entry_context found entry user_id session_id c (pure-eq-ok h₁).0 in
          let (active, parsed, at_least) = entry_user_id-eq-some s.strconv entry now user_id e in
          subst (SignsIn session_id now) same (
            by_cache cache entry user u w w₁ configured asked active parsed at_least
              (looked ∙ ap (λ x. (ok x, w₁)) known) refl refl)

      of_entry-SignsIn :
          (o : Option SessionCacheEntry) (u w v : W) (c : MfaContext)
          → cache.get session_id u ≡ (ok o, w)
          → of_entry s o session_id now w ≡ (ok (some c), v)
          → SignsIn session_id now c
      unfolding of_entry pure
      of_entry-SignsIn none u w v c asked h = cc
      of_entry-SignsIn (some entry) u w v c asked h =
          by_user_id-SignsIn _ entry u w v c asked refl h

    in_cache-SignsIn :
        (cache : Option (SessionCache W)) (w v : W) (c : MfaContext)
        → s.session_cache ≡ cache
        → in_cache s cache session_id now w ≡ (ok (some c), v)
        → SignsIn session_id now c
    unfolding in_cache pure
    in_cache-SignsIn none w v c e h = cc
    in_cache-SignsIn (some cache) w v c e h =
        let (o, w₁, asked, h₁) = call-eq-ok _ _ h in of_entry-SignsIn cache e o w w₁ v c asked h₁

    in_database-SignsIn :
        (w v : W) (c : MfaContext)
        → in_database s session_id now w ≡ (ok c, v)
        → SignsIn session_id now c
    unfolding in_database context_of_session
    in_database-SignsIn w v c h =
        let (found, w₁, looked, h₁) = call-eq-ok _ _ h in
        let (session, live, h₂) = require-eq-ok _ _ _ h₁ in
        let (known, w₂, asked, h₃) = call-eq-ok _ _ h₂ in
        let (user, is_user, h₄) = require-eq-ok _ _ _ h₃ in
        let (same, logged_in, in_time) = stored_session-eq-some found now session live in
        subst (SignsIn session_id now) (pure-eq-ok h₄).0 (
          by_database session user w w₁ w₂ (looked ∙ ap (λ x. (ok x, w₁)) same) logged_in in_time
            (asked ∙ ap (λ x. (ok x, w₂)) is_user) refl refl)

    or_in_database-SignsIn :
        (hit : Option MfaContext) (u w v : W) (c : MfaContext)
        → in_cache s s.session_cache session_id now u ≡ (ok hit, w)
        → or_in_database s hit session_id now w ≡ (ok c, v)
        → SignsIn session_id now c
    unfolding or_in_database
    or_in_database-SignsIn none u w v c e h = in_database-SignsIn w v c h
    or_in_database-SignsIn (some x) u w v c e h =
        subst (SignsIn session_id now) (pure-eq-ok h).0
          (in_cache-SignsIn s.session_cache u w x refl e)

  pub load_user-SignsIn :
      (raw : String) (w v : W) (c : MfaContext)
      → load_user s raw w ≡ (ok c, v)
      → SignsIn (trim_space raw) (s.clock.now w).0 c
  unfolding load_user
  load_user-SignsIn raw w v c h =
      let (present, h₁) = guard-eq-ok (not (is_blank (trim_space raw))) _ _ h in
      let h₂ = always-eq-ok _ _ h₁ in
      let (hit, w₁, searched, h₃) = >>=-eq-ok _ _ h₂ in
      or_in_database-SignsIn (trim_space raw) (s.clock.now w).0 hit _ w₁ v c searched h₃
