-- ===== src/Mfa/SignedIn.antt =====
-- The user whom loadUser of service.go in internal/application/mfa finds.
use sienne.Base.{String, ◌≡◌, refl, subst, Bool, true, false, not, Option, none, some}
use sienne.Base.Exec.{ok, pure}
use sienne.Base.Int.{ℤ}
use sienne.Base.Text.{trim_space, is_blank}
use sienne.Domain.{User}
use sienne.Ports.{SessionCacheEntry, SessionCache}
use sienne.Base.Exec.Success.{
  >>=-eq-ok, require-eq-ok, call-eq-ok, always-eq-ok, guard-eq-ok, pure-eq-ok,
}
use sienne.Mfa.{
  Service, MfaContext, context_of_entry, context_of_session, by_user_id, of_entry, in_cache,
  in_database, or_in_database, load_user,
}

false_of_not : (test : Bool) → not test ≡ true → test ≡ false
false_of_not true h = cc
false_of_not false h = refl

-- A context is of a user and of a session that is trimmed and not blank.
pub record IsOf (session_id : String) (c : MfaContext) : Type 0 where
  pub named : c.session_id ≡ trim_space session_id
  pub filled : is_blank c.session_id ≡ false

module _ {W : Type 0} (s : Service W) where
  context-IsOf :
      (found : Option User) (entry : SessionCacheEntry) (user_id : ℤ) (raw : String)
      (c : MfaContext)
      → is_blank (trim_space raw) ≡ false
      → elim found as (λ _. Option MfaContext) [
        | none ↦ none
        | some user ↦ some (context_of_entry entry (trim_space raw) user_id user)
      ]
        ≡ some c
      → IsOf raw c
  unfolding context_of_entry
  context-IsOf none entry user_id raw c filled h = cc
  context-IsOf (some user) entry user_id raw c filled h =
      let e : context_of_entry entry (trim_space raw) user_id user ≡ c = cc in
      subst (IsOf raw) e (record { named = refl; filled = filled })

  -- What loadUser finds is of the session that was asked for.
  by_user_id-IsOf :
      (o : Option ℤ) (entry : SessionCacheEntry) (raw : String) (w v : W) (c : MfaContext)
      → is_blank (trim_space raw) ≡ false
      → by_user_id s o entry (trim_space raw) w ≡ (ok (some c), v)
      → IsOf raw c
  unfolding by_user_id context_of_entry pure
  by_user_id-IsOf none entry raw w v c filled h = cc
  by_user_id-IsOf (some user_id) entry raw w v c filled h =
      let (found, w₁, looked, h₁) = call-eq-ok _ _ h in
      context-IsOf found entry user_id raw c filled (pure-eq-ok h₁).0

  of_entry-IsOf :
      (o : Option SessionCacheEntry) (raw : String) (now : ℤ) (w v : W) (c : MfaContext)
      → is_blank (trim_space raw) ≡ false
      → of_entry s o (trim_space raw) now w ≡ (ok (some c), v)
      → IsOf raw c
  unfolding of_entry pure
  of_entry-IsOf none raw now w v c filled h = cc
  of_entry-IsOf (some entry) raw now w v c filled h = by_user_id-IsOf _ entry raw w v c filled h

  in_cache-IsOf :
      (cache : Option (SessionCache W)) (raw : String) (now : ℤ) (w v : W) (c : MfaContext)
      → is_blank (trim_space raw) ≡ false
      → in_cache s cache (trim_space raw) now w ≡ (ok (some c), v)
      → IsOf raw c
  unfolding in_cache pure
  in_cache-IsOf none raw now w v c filled h = cc
  in_cache-IsOf (some cache) raw now w v c filled h =
      let (entry, w₁, asked, h₁) = call-eq-ok _ _ h in of_entry-IsOf entry raw now w₁ v c filled h₁

  in_database-IsOf :
      (raw : String) (now : ℤ) (w v : W) (c : MfaContext)
      → is_blank (trim_space raw) ≡ false
      → in_database s (trim_space raw) now w ≡ (ok c, v)
      → IsOf raw c
  unfolding in_database context_of_session
  in_database-IsOf raw now w v c filled h =
      let (found, w₁, looked, h₁) = call-eq-ok _ _ h in
      let (session, live, h₂) = require-eq-ok _ _ _ h₁ in
      let (known, w₂, asked, h₃) = call-eq-ok _ _ h₂ in
      let (user, is_user, h₄) = require-eq-ok _ _ _ h₃ in
      subst (IsOf raw) (pure-eq-ok h₄).0 (record { named = refl; filled = filled })

  or_in_database-IsOf :
      (hit : Option MfaContext) (raw : String) (now : ℤ) (u w v : W) (c : MfaContext)
      → is_blank (trim_space raw) ≡ false
      → in_cache s s.session_cache (trim_space raw) now u ≡ (ok hit, w)
      → or_in_database s hit (trim_space raw) now w ≡ (ok c, v)
      → IsOf raw c
  unfolding or_in_database
  or_in_database-IsOf none raw now u w v c filled e h = in_database-IsOf raw now w v c filled h
  or_in_database-IsOf (some x) raw now u w v c filled e h =
      subst (IsOf raw) (pure-eq-ok h).0 (in_cache-IsOf s.session_cache raw now u w x filled e)

  pub load_user-IsOf :
      (raw : String) (w v : W) (c : MfaContext) → load_user s raw w ≡ (ok c, v) → IsOf raw c
  unfolding load_user
  load_user-IsOf raw w v c h =
      let (present, h₁) = guard-eq-ok (not (is_blank (trim_space raw))) _ _ h in
      let h₂ = always-eq-ok _ _ h₁ in
      let (hit, w₁, searched, h₃) = >>=-eq-ok _ _ h₂ in
      or_in_database-IsOf hit raw _ _ w₁ v c (false_of_not _ present) searched h₃
