-- ===== src/Logout/Revocation.antt =====
-- What revokeUserTokens has done, in service.go of internal/application/session.
use sienne.Base.{
  ℕ, String, ◌≡◌, sym, subst, Bool, true, false, Option, none, some, List, [], ◌∷◌, ◌++◌,
  if◌then◌else◌, length,
}
use sienne.Base.Exec.{ok, Port, call, ◌>>=◌}
use sienne.Base.Int.{ℤ, ltb_ℤ}
use sienne.Domain.{AccessToken, RefreshToken}
use sienne.Ports.{TokenCache}
use sienne.Base.Int.{sub_time, sub_time-is_positive}
use sienne.Base.Exec.Success.{>>=-eq-ok, call-eq-ok, pure-eq-ok}
use sienne.Base.Exec.Runs.{Runs, Runs-append}
use sienne.Logout.{
  Act, TokenRevoker, revoke_one, revoke_access, revoke_refresh, blacklist, revoke_with,
  revoke_user_tokens_in,
}

module _ {W : Type 0} where
  -- The blacklisting of the tokens that expire after an instant.
  abbrev pub access_calls : TokenCache W → ℤ → List (Option AccessToken) → List (Port W (Unit {0}))
  access_calls cache at [] = []
  access_calls cache at (none ∷ rest) = access_calls cache at rest
  access_calls cache at (some t ∷ rest) =
      (if ltb_ℤ at t.expires_at
        then cache.revoke_access_token t.token_sha256 (sub_time t.expires_at at) ∷ []
        else [])
      ++ access_calls cache at rest

  abbrev pub refresh_calls :
      TokenCache W → ℤ → List (Option RefreshToken) → List (Port W (Unit {0}))
  refresh_calls cache at [] = []
  refresh_calls cache at (none ∷ rest) = refresh_calls cache at rest
  refresh_calls cache at (some t ∷ rest) =
      (if ltb_ℤ at t.expires_at
        then cache.revoke_refresh_token t.token_sha256 (sub_time t.expires_at at) ∷ []
        else [])
      ++ refresh_calls cache at rest

  call_if-Runs :
      (test : Bool) (p : Port W (Unit {0})) (rest : Act W (Unit {0}))
      (calls : List (Port W (Unit {0}))) (w v : W)
      → ((u : W) → rest u ≡ (ok tt, v) → Runs calls u v)
      → (if test then (call p >>= λ _. rest) w else rest w) ≡ (ok tt, v)
      → Runs ((if test then p ∷ [] else []) ++ calls) w v
  call_if-Runs true p rest calls w v f h =
      let (u, w₁, made, h₁) = call-eq-ok p (λ _. rest) h in (w₁, made, f w₁ h₁)
  call_if-Runs false p rest calls w v f h = f w h

  revoke_one-Runs :
      (revoke : String → ℤ → Port W (Unit {0})) (sha : String) (expires_at at : ℤ)
      (rest : Act W (Unit {0})) (calls : List (Port W (Unit {0}))) (w v : W)
      → ((u : W) → rest u ≡ (ok tt, v) → Runs calls u v)
      → revoke_one revoke sha (sub_time expires_at at) rest w ≡ (ok tt, v)
      → Runs
          ((if ltb_ℤ at expires_at then revoke sha (sub_time expires_at at) ∷ [] else []) ++ calls)
          w
          v
  unfolding revoke_one
  revoke_one-Runs revoke sha expires_at at rest calls w v f h =
      call_if-Runs (ltb_ℤ at expires_at) (revoke sha (sub_time expires_at at)) rest calls w v f (
        subst
          (λ test.
            (if test then (call (revoke sha (sub_time expires_at at)) >>= λ _. rest) w else rest w)
            ≡ (ok tt, v))
          (sub_time-is_positive expires_at at) h)

  revoke_access-Runs :
      (cache : TokenCache W) (at : ℤ) (tokens : List (Option AccessToken)) (w v : W)
      → revoke_access cache at tokens w ≡ (ok tt, v)
      → Runs (access_calls cache at tokens) w v
  unfolding revoke_access
  revoke_access-Runs cache at [] w v h = (pure-eq-ok h).1
  revoke_access-Runs cache at (none ∷ rest) w v h = revoke_access-Runs cache at rest w v h
  revoke_access-Runs cache at (some t ∷ rest) w v h =
      revoke_one-Runs cache.revoke_access_token t.token_sha256 t.expires_at at _ _ w v
        (λ u k. revoke_access-Runs cache at rest u v k) h

  revoke_refresh-Runs :
      (cache : TokenCache W) (at : ℤ) (tokens : List (Option RefreshToken)) (w v : W)
      → revoke_refresh cache at tokens w ≡ (ok tt, v)
      → Runs (refresh_calls cache at tokens) w v
  unfolding revoke_refresh
  revoke_refresh-Runs cache at [] w v h = (pure-eq-ok h).1
  revoke_refresh-Runs cache at (none ∷ rest) w v h = revoke_refresh-Runs cache at rest w v h
  revoke_refresh-Runs cache at (some t ∷ rest) w v h =
      revoke_one-Runs cache.revoke_refresh_token t.token_sha256 t.expires_at at _ _ w v
        (λ u k. revoke_refresh-Runs cache at rest u v k) h

  abbrev pub Blacklisted :
      Option (TokenCache W)
      → ℤ
      → List (Option AccessToken)
      → List (Option RefreshToken)
      → W
      → W
      → Type 0
  Blacklisted none at access refresh w v = w ≡ v
  Blacklisted (some cache) at access refresh w v =
      Runs (access_calls cache at access ++ refresh_calls cache at refresh) w v

  blacklist-Blacklisted :
      (cache : Option (TokenCache W)) (at : ℤ) (access : List (Option AccessToken))
      (refresh : List (Option RefreshToken)) (w v : W)
      → blacklist cache at access refresh w ≡ (ok tt, v)
      → Blacklisted cache at access refresh w v
  unfolding blacklist
  blacklist-Blacklisted none at access refresh w v h = (pure-eq-ok h).1
  blacklist-Blacklisted (some cache) at access refresh w v h =
      let (u, w₁, first, second) = >>=-eq-ok _ _ h in
      Runs-append _ _ w w₁ v (revoke_access-Runs cache at access w w₁ first)
        (revoke_refresh-Runs cache at refresh w₁ v second)

  -- The tokens that were active were revoked in the database and put on the blacklist.
  pub record Revoked (tokens : TokenRevoker W) (cache : Option (TokenCache W)) (user_id at : ℤ)
      (w v : W) (count : ℕ × ℕ) : Type 0 where
    pub access : List (Option AccessToken)
    pub refresh : List (Option RefreshToken)
    pub listed_access : W
    pub listed_refresh : W
    pub revoked_access : W
    pub revoked_refresh : W
    pub lists_access :
        tokens.list_active_access_tokens_by_user_id user_id w ≡ (ok access, listed_access)
    pub lists_refresh :
        tokens.list_active_refresh_tokens_by_user_id user_id listed_access
        ≡ (ok refresh, listed_refresh)
    pub revokes_access :
        tokens.revoke_access_tokens_by_user_id user_id at listed_refresh ≡ (ok tt, revoked_access)
    pub revokes_refresh :
        tokens.revoke_refresh_tokens_by_user_id user_id at revoked_access ≡ (ok tt, revoked_refresh)
    pub blacklisted : Blacklisted cache at access refresh revoked_refresh v
    pub counts : count ≡ (length access, length refresh)

  abbrev pub AreRevoked :
      Option (TokenRevoker W) → Option (TokenCache W) → ℤ → ℤ → W → W → ℕ × ℕ → Type 0
  AreRevoked none cache user_id at w v count = (w ≡ v) × (count ≡ (0, 0))
  AreRevoked (some tokens) cache user_id at w v count = Revoked tokens cache user_id at w v count

  pub revoke_user_tokens-AreRevoked :
      (tokens : Option (TokenRevoker W)) (cache : Option (TokenCache W)) (user_id at : ℤ) (w v : W)
      (count : ℕ × ℕ)
      → revoke_user_tokens_in tokens cache user_id at w ≡ (ok count, v)
      → AreRevoked tokens cache user_id at w v count
  unfolding revoke_user_tokens_in revoke_with
  revoke_user_tokens-AreRevoked none cache user_id at w v count h =
      ((pure-eq-ok h).1, sym (pure-eq-ok h).0)
  revoke_user_tokens-AreRevoked (some tokens) cache user_id at w v count h =
      let (access, w₁, lists_access, h₁) = call-eq-ok _ _ h in
      let (refresh, w₂, lists_refresh, h₂) = call-eq-ok _ _ h₁ in
      let (_, w₃, revokes_access, h₃) = call-eq-ok _ _ h₂ in
      let (_, w₄, revokes_refresh, h₄) = call-eq-ok _ _ h₃ in
      let (_, w₅, listing, h₅) = >>=-eq-ok _ _ h₄ in
      let (counted, end) = pure-eq-ok h₅ in
      record {
        access = access;
        refresh = refresh;
        listed_access = w₁;
        listed_refresh = w₂;
        revoked_access = w₃;
        revoked_refresh = w₄;
        lists_access = lists_access;
        lists_refresh = lists_refresh;
        revokes_access = revokes_access;
        revokes_refresh = revokes_refresh;
        blacklisted =
            subst (Blacklisted cache at access refresh w₄) end
              (blacklist-Blacklisted cache at access refresh w₄ w₅ listing);
        counts = sym counted;
      }
