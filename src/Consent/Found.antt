-- ===== src/Consent/Found.antt =====
-- The session in which a consent is decided was live.
use sienne.Base.{String, ◌≡◌, refl, subst, true, Option, none, some}
use sienne.Base.Exec.{ok, fail}
use sienne.Base.Exec.Success.{call-eq-ok, always-eq-ok, guard-eq-ok, pure-eq-ok}
use sienne.Base.Int.{ℤ, ltb_ℤ_iff}
use sienne.Domain.{positive, positive-eq-some, Session}
use sienne.Ports.{SessionCacheEntry, SessionCache}
use sienne.StateMask.{is_session_entry_active}
use sienne.Authz.Live.{IsLive, by_cache, by_database, is_session_entry_active-IsActive}
use sienne.Consent.{
  Service, session_of_cached, unexpired, stored_session_of, in_database, of_user, of_entry,
  session_in,
}

module _ {W U V : Type 0} (s : Service W U V) where
  -- A session that is found was live at an instant of the clock.
  abbrev pub WasLive : String → Session → Type 0
  WasLive session_id session =
      (u : W) × IsLive s.session_cache s.sessions s.strconv.parse_int session_id (s.clock.now u).0
        session

  unexpired-WasLive :
      (session_id : String) (session found : Session) (out : Option ℤ) (u w v : W)
      → s.sessions.find_by_session_id session_id u ≡ (ok (some session), w)
      → session.logged_out_at ≡ out
      → unexpired s session out w ≡ (ok found, v)
      → WasLive session_id found
  unfolding unexpired fail
  unexpired-WasLive session_id session found (some at) u w v looked e h = cc
  unexpired-WasLive session_id session found none u w v looked e h =
      let h₁ = always-eq-ok _ _ h in
      let (in_time, h₂) = guard-eq-ok _ _ _ h₁ in
      subst (WasLive session_id) (pure-eq-ok h₂).0
        (w, by_database u w looked e ((ltb_ℤ_iff (s.clock.now w).0 session.expires_at).0 in_time))

  stored_session_of-WasLive :
      (session_id : String) (o : Option Session) (found : Session) (u w v : W)
      → s.sessions.find_by_session_id session_id u ≡ (ok o, w)
      → stored_session_of s o w ≡ (ok found, v)
      → WasLive session_id found
  unfolding stored_session_of fail
  stored_session_of-WasLive session_id none found u w v looked h = cc
  stored_session_of-WasLive session_id (some session) found u w v looked h =
      unexpired-WasLive session_id session found session.logged_out_at u w v looked refl h

  in_database-WasLive :
      (session_id : String) (found : Session) (w v : W)
      → in_database s session_id w ≡ (ok found, v)
      → WasLive session_id found
  unfolding in_database
  in_database-WasLive session_id found w v h =
      let (o, w₁, looked, k) = call-eq-ok _ _ h in
      stored_session_of-WasLive session_id o found w w₁ v looked k

  module _ (cache : SessionCache W) (configured : s.session_cache ≡ some cache)
      (session_id : String) where
    of_user-WasLive :
        (o : Option ℤ) (entry : SessionCacheEntry) (found : Session) (u w v x : W)
        → cache.get session_id u ≡ (ok (some entry), w)
        → is_session_entry_active (some entry) (s.clock.now w).0 ≡ true
        → positive (s.strconv.parse_int entry.user_id) ≡ o
        → of_user s o entry session_id v ≡ (ok found, x)
        → WasLive session_id found
    unfolding of_user session_of_cached
    of_user-WasLive none entry found u w v x asked active e h =
        in_database-WasLive session_id found v x h
    of_user-WasLive (some user_id) entry found u w v x asked active e h =
        let (parsed, at_least) = positive-eq-some _ user_id e in
        let live = is_session_entry_active-IsActive entry (s.clock.now w).0 active in
        subst (WasLive session_id) (pure-eq-ok h).0
          (w, by_cache cache entry u w configured asked live parsed at_least refl refl)

    of_entry-WasLive :
        (o : Option SessionCacheEntry) (found : Session) (u w v : W)
        → cache.get session_id u ≡ (ok o, w)
        → of_entry s o session_id w ≡ (ok found, v)
        → WasLive session_id found
    unfolding of_entry
    of_entry-WasLive none found u w v asked h = in_database-WasLive session_id found w v h
    of_entry-WasLive (some entry) found u w v asked h =
        let h₁ = always-eq-ok _ _ h in
        let (active, h₂) =
          guard-eq-ok (is_session_entry_active (some entry) (s.clock.now w).0) _ _ h₁ in
        of_user-WasLive _ entry found u w _ v asked active refl h₂

  pub session_in-WasLive :
      (cache : Option (SessionCache W)) (session_id : String) (found : Session) (w v : W)
      → s.session_cache ≡ cache
      → session_in s cache session_id w ≡ (ok found, v)
      → WasLive session_id found
  unfolding session_in
  session_in-WasLive none session_id found w v e h = in_database-WasLive session_id found w v h
  session_in-WasLive (some cache) session_id found w v e h =
      let (o, w₁, asked, k) = call-eq-ok _ _ h in
      of_entry-WasLive cache e session_id o found w w₁ v asked k
