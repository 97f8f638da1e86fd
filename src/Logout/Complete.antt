-- ===== src/Logout/Complete.antt =====
-- What service.go of internal/application/session has done when a user is logged out everywhere.
use sienne.Base.{
  ℕ, String, ◌≡◌, refl, sym, ap, subst, ◌∙◌, ◌↔◌, ◌⊎◌, false, Option, none, some, List, [], ◌∷◌,
  map, arith, length, All, Any,
}
use sienne.Base.Exec.{ok}
use sienne.Base.Int.{ℤ}
use sienne.Base.Text.{is_blank}
use sienne.Domain.{Session}
use sienne.Ports.{SessionCache}
use sienne.Base.Exec.Success.{>>=-eq-ok, call-eq-ok, always-eq-ok, pure-eq-ok}
use sienne.Base.Exec.Runs.{Runs}
use sienne.Scopes.Laws.{In}
use sienne.Logout.{
  LogoutAllResult, Service, add_cached, add_sessions, delete_one, delete_each, delete_all,
  revoke_user_tokens, add_index, collect_user_session_ids, logout_user,
}
use sienne.Logout.Ids.{
  IsIdOf, IsSessionOf, IsClean, In-add_cached, In-add_sessions, add_cached-IsClean,
  add_sessions-IsClean,
}
use sienne.Logout.Revocation.{AreRevoked, revoke_user_tokens-AreRevoked}

module _ {W : Type 0} where
  delete_each-Runs :
      (cache : SessionCache W) (ids : List String) (w v : W)
      → All (λ id. is_blank id ≡ false) ids
      → delete_each cache ids w ≡ (ok tt, v)
      → Runs (map (λ id. cache.delete id) ids) w v
  unfolding delete_each delete_one
  delete_each-Runs cache [] w v b h = (pure-eq-ok h).1
  delete_each-Runs cache (id ∷ ids) w v (filled, b) h =
      let h₁ = subst (λ t. delete_one t cache id (delete_each cache ids) w ≡ (ok tt, v)) filled h in
      let (u, w₁, deleted, h₂) = call-eq-ok _ _ h₁ in
      (w₁, deleted, delete_each-Runs cache ids w₁ v b h₂)

  -- Every id was deleted from the cache, if there is one.
  abbrev pub Deleted : Option (SessionCache W) → List String → W → W → Type 0
  Deleted none ids w v = w ≡ v
  Deleted (some cache) ids w v = Runs (map (λ id. cache.delete id) ids) w v

  delete_all-Deleted :
      (cache : Option (SessionCache W)) (ids : List String) (w v : W)
      → All (λ id. is_blank id ≡ false) ids
      → delete_all cache ids w ≡ (ok tt, v)
      → Deleted cache ids w v
  unfolding delete_all
  delete_all-Deleted none ids w v b h = (pure-eq-ok h).1
  delete_all-Deleted (some cache) ids w v b h = delete_each-Runs cache ids w v b h

-- `x` is the id of a session of the database, or in the cache's index of the user's sessions.
abbrev pub IsUsers : List (Option Session) → List String → String → Type 0
IsUsers active cached x = Any (λ o. IsSessionOf o x) active ⊎ Any (λ raw. IsIdOf raw x) cached

added_none : (ids : List String) → add_cached ids [] ≡ ids
unfolding add_cached
added_none ids = refl

covers_all :
    (active : List (Option Session)) (cached : List String) (x : String)
    → In x (add_cached (add_sessions [] active) cached) ↔ IsUsers active cached x
covers_all active cached x = (
  λ h.
      ground (
        arith,
        (In-add_cached (add_sessions [] active) cached x).0,
        (In-add_sessions [] active x).0,
      ),
  λ h.
      ground (
        arith,
        (In-add_cached (add_sessions [] active) cached x).1,
        (In-add_sessions [] active x).1,
      ),
)

module _ {W : Type 0} (s : Service W) where
  -- The index of the user's sessions, which is empty without a cache.
  abbrev pub IsIndex : Option (SessionCache W) → ℤ → W → W → List String → Type 0
  IsIndex none user_id w v cached = (cached ≡ []) × (w ≡ v)
  IsIndex (some cache) user_id w v cached =
      cache.list_user_session_ids (s.strconv.format_int user_id) w ≡ (ok cached, v)

  add_index-IsIndex :
      (cache : Option (SessionCache W)) (user_id : ℤ) (ids found : List String) (w v : W)
      → add_index s cache user_id ids w ≡ (ok found, v)
      → (cached : List String) × IsIndex cache user_id w v cached × (add_cached ids cached ≡ found)
  unfolding add_index
  add_index-IsIndex none user_id ids found w v h =
      let (same, end) = pure-eq-ok h in ([], (refl, end), added_none ids ∙ same)
  add_index-IsIndex (some cache) user_id ids found w v h =
      let (cached, w₁, listed, h₁) = call-eq-ok _ _ h in
      let (same, end) = pure-eq-ok h₁ in (cached, listed ∙ ap (λ x. (ok cached, x)) end, same)

  -- What the logout of a whole user has found and done when it succeeds.
  pub record LoggedOut (user_id : ℤ) (session_id : String) (w v : W) (a : LogoutAllResult)
      : Type 0 where
    pub active : List (Option Session)
    pub cached : List String
    pub ids : List String
    pub count : ℕ × ℕ
    pub listed : W
    pub marked : W
    pub collected : W
    pub deleted : W
    pub lists : s.sessions.list_active_by_user_id user_id (s.clock.now w).1 ≡ (ok active, listed)
    pub marks : s.sessions.logout_all_by_user_id user_id (s.clock.now w).0 listed ≡ (ok tt, marked)
    pub index : IsIndex s.session_cache user_id marked collected cached
    pub covers : (x : String) → In x ids ↔ IsUsers active cached x
    pub clean : IsClean ids
    pub deletes : Deleted s.session_cache ids collected deleted
    pub revokes : AreRevoked s.tokens s.token_cache user_id (s.clock.now w).0 deleted v count
    pub answer : a ≡ (record {
      session_id = session_id;
      user_id = s.strconv.format_int user_id;
      revoked_session_count = length ids;
      revoked_access_tokens = count.0;
      revoked_refresh_tokens = count.1;
    })

  -- A whole user's logout that succeeds has marked every session of the user as logged out in the
  -- database, deleted from the cache exactly the sessions that the database or the cache's index
  -- knew, each once, and then revoked the user's tokens: in the database, and on the blacklist
  -- those that have not expired, each for the rest of its life. It answers how many there were.
  pub logout_user-LoggedOut :
      (user_id : ℤ) (session_id : String) (w v : W) (a : LogoutAllResult)
      → logout_user s user_id session_id w ≡ (ok a, v)
      → LoggedOut user_id session_id w v a
  unfolding logout_user collect_user_session_ids revoke_user_tokens
  logout_user-LoggedOut user_id session_id w v a h =
      let h₁ = always-eq-ok _ _ h in
      let (active, w₁, lists, h₂) = call-eq-ok _ _ h₁ in
      let (_, w₂, marks, h₃) = call-eq-ok _ _ h₂ in
      let (ids, w₃, gathered, h₄) = >>=-eq-ok _ _ h₃ in
      let (cached, index, same) =
        add_index-IsIndex s.session_cache user_id (add_sessions [] active) ids w₂ w₃ gathered in
      let clean : IsClean ids = subst IsClean same (
        add_cached-IsClean (add_sessions [] active) cached
          (add_sessions-IsClean [] active (tt, tt))) in
      let (_, w₄, deletes, h₅) = >>=-eq-ok _ _ h₄ in
      let (count, w₅, revokes, h₆) = >>=-eq-ok _ _ h₅ in
      let (answer, end) = pure-eq-ok h₆ in
      record {
        active = active;
        cached = cached;
        ids = ids;
        count = count;
        listed = w₁;
        marked = w₂;
        collected = w₃;
        deleted = w₄;
        lists = lists;
        marks = marks;
        index = index;
        covers =
            subst (λ xs. (x : String) → In x xs ↔ IsUsers active cached x) same
              (covers_all active cached);
        clean = clean;
        deletes = delete_all-Deleted s.session_cache ids w₃ w₄ clean.1 deletes;
        revokes =
            subst (λ x. AreRevoked s.tokens s.token_cache user_id (s.clock.now w).0 w₄ x count) end
              (revoke_user_tokens-AreRevoked s.tokens s.token_cache user_id _ w₄ w₅ count revokes);
        answer = sym answer;
      }
