-- ===== src/Token/Refresh/Rotation.antt =====
-- What holds when a refresh token is exchanged.
use sienne.Base.{
  String, ◌≡◌, refl, ap, subst, ◌∙◌, ◌⊎◌, inl, inr, Bool, true, false, Option, none, some, List,
  arith,
}
use sienne.Base.Exec.{from_port, Result, ok, err, fault, fail, call}
use sienne.Base.Exec.Success.{
  >>=-eq-ok, require-eq-ok, call-eq-ok, always-eq-ok, guard-eq-ok, pure-eq-ok, caught-eq-ok,
}
use sienne.Base.Int.{ℤ, pos, ltb_ℤ, eqb_ℤ_iff}
use sienne.Base.Text.{trim_space}
use sienne.Domain.{Client, User, RefreshToken}
use sienne.Token.{
  Input, Answer, Service, grant_refresh_token, must_decode_scope_json, check_secret, refresh_model,
}
use sienne.Token.Issue.{MayUse, find_client-eq-ok, Minted, Minted-with, mint_access-Minted}
use sienne.Token.Refresh.{
  check_replay, after_rotation, rotate, rotate_if, owned, user_id_of, refresh, or_refresh,
  exchange_refresh_token,
}
use sienne.Token.Refresh.Replay.{Repeated, check_replay-Repeated, lost_race-eq-ok}
use sienne.Token.Contents.{
  Decoded, must_decode_scope_json-Decoded, SecretGiven, validate_client_secret-SecretGiven,
  RefreshRow, refresh_model-RefreshRow,
}

user_id_of-cases :
    (o : Option ℤ) → (o ≡ some (user_id_of o)) ⊎ ((o ≡ none) × (user_id_of o ≡ pos 0))
unfolding user_id_of
user_id_of-cases none = inr (refl, refl)
user_id_of-cases (some n) = inl refl

-- The old token was replaced by one that carries its user, its subject and its scopes on, and that
-- is the answer's.
pub record Rotated {W : Type 0} (s : Service W) (input : Input) (client : Client)
    (old : RefreshToken) (scopes : List String) (now : ℤ) (a : Answer) : Type 0 where
  pub row : RefreshToken
  pub ready : W
  pub done : W
  pub carries : RefreshRow s client old.user_id old.subject scopes now a.refresh_token row
  pub replaced :
      s.tokens.rotate_refresh_token (s.digest.sha256_hex input.refresh_token) now row ready
      ≡ (ok tt, done)

-- The three ways in which the exchange of an old token ends: the client's refresh tokens have no
-- lifetime and the old one stays; the old one is rotated; or another request has just rotated it,
-- and its answer is repeated.
abbrev pub Outcome :
    {W : Type 0} → Service W → Input → Client → RefreshToken → User → ℤ → Answer → Type 0
Outcome s input client old user now a =
    let scopes = must_decode_scope_json s.json old.scopes_json in
    ((ltb_ℤ (pos 0) client.refresh_token_ttl_seconds ≡ false)
      × (a.refresh_token ≡ "")
      × Minted s client old.user_id user.user_uuid old.subject scopes now a)
    ⊎ ((Rotated s input client old scopes now a
          × Minted s client old.user_id user.user_uuid old.subject scopes now a)
        ⊎ Repeated s input a)

pub record Refreshed {W : Type 0} (s : Service W) (input : Input) (client : Client) (w : W)
    (a : Answer) : Type 0 where
  pub old : RefreshToken
  pub user : User
  pub now : ℤ
  pub found : W
  pub seen : W
  pub looked :
      s.tokens.find_active_refresh_token_by_sha256 (s.digest.sha256_hex input.refresh_token) w
      ≡ (ok (some old), found)
  pub own : old.client_id ≡ client.id
  pub owner_id : ℤ
  pub owned_by : (old.user_id ≡ some owner_id) ⊎ ((old.user_id ≡ none) × (owner_id ≡ pos 0))
  pub owner : s.users.find_by_id owner_id found ≡ (ok (some user), seen)
  pub scopes : Decoded s.json old.scopes_json (must_decode_scope_json s.json old.scopes_json)
  pub outcome : Outcome s input client old user now a

module _ {W : Type 0} (s : Service W) (input : Input) (client : Client) where
  owned-eq-some :
      (found : Option RefreshToken) (old : RefreshToken)
      → owned s client found ≡ some old
      → (found ≡ some old) × (old.client_id ≡ client.id)
  unfolding owned
  owned-eq-some none old h = cc
  owned-eq-some (some x) old h = ground (arith, eqb_ℤ_iff x.client_id client.id)

  module _ (old : RefreshToken) (user : User) (now : ℤ) where
    after_rotation-Outcome :
        (token : String) (b a : Answer) (r : Result ⊥ (Unit {0})) (ready done v : W)
        → s.tokens.rotate_refresh_token
            (s.digest.sha256_hex input.refresh_token)
            now
            (refresh_model s client old.user_id old.subject
              (must_decode_scope_json s.json old.scopes_json)
              now
              token)
            ready
          ≡ (r, done)
        → Minted s client old.user_id user.user_uuid old.subject
            (must_decode_scope_json s.json old.scopes_json)
            now
            b
        → after_rotation s input client old
            (refresh_model s client old.user_id old.subject
              (must_decode_scope_json s.json old.scopes_json)
              now
              token)
            b
            (from_port r)
            done
          ≡ (ok a, v)
        → Outcome s input client old user now a
    unfolding after_rotation from_port refresh_model fail
    after_rotation-Outcome token b a (ok tt) ready done v e minted h =
        let (_, w₁, cached, h₁) = >>=-eq-ok _ _ h in
        let (same, end) = pure-eq-ok h₁ in
        subst (Outcome s input client old user now) same (
          inr (
            inl (
              record {
                row =
                    refresh_model s client old.user_id old.subject
                      (must_decode_scope_json s.json old.scopes_json) now token;
                ready = ready;
                done = done;
                carries =
                    refresh_model-RefreshRow s client old.user_id old.subject
                      (must_decode_scope_json s.json old.scopes_json) now token;
                replaced = e;
              },
              Minted-with _ refl refl refl minted,
            )))
    after_rotation-Outcome token b a (err x) ready done v e minted h = elim x [ ]
    after_rotation-Outcome token b a (fault f) ready done v e minted h =
        let h₁ = caught-eq-ok _ _ h in
        let found = lost_race-eq-ok s f _ a _ v h₁ in
        let checked =
          check_replay s s.token_cache (s.digest.sha256_hex input.refresh_token)
            input.replay_fingerprint done in
        inr (
          inr (
            check_replay-Repeated s input s.token_cache a done checked.1 refl
              (ap (λ x. (x, checked.1)) found)))

    rotate-Outcome :
        (b a : Answer) (w v : W)
        → Minted s client old.user_id user.user_uuid old.subject
            (must_decode_scope_json s.json old.scopes_json)
            now
            b
        → rotate s input client old (must_decode_scope_json s.json old.scopes_json) now b w
          ≡ (ok a, v)
        → Outcome s input client old user now a
    unfolding rotate call
    rotate-Outcome b a w v minted h =
        let (token, w₁, made, h₁) = >>=-eq-ok _ _ h in
        let h₂ = caught-eq-ok _ _ h₁ in after_rotation-Outcome token b a _ w₁ _ v refl minted h₂

    rotate_if-Outcome :
        (lives : Bool) (b a : Answer) (w v : W)
        → ltb_ℤ (pos 0) client.refresh_token_ttl_seconds ≡ lives
        → Minted s client old.user_id user.user_uuid old.subject
            (must_decode_scope_json s.json old.scopes_json)
            now
            b
        → b.refresh_token ≡ ""
        → rotate_if s lives input client old (must_decode_scope_json s.json old.scopes_json) now b w
          ≡ (ok a, v)
        → Outcome s input client old user now a
    unfolding rotate_if
    rotate_if-Outcome false b a w v lives minted blank h =
        let (same, end) = pure-eq-ok h in
        subst (Outcome s input client old user now) same (inl (lives, blank, minted))
    rotate_if-Outcome true b a w v lives minted blank h = rotate-Outcome b a w v minted h

  refresh-Refreshed :
      (w v : W) (a : Answer) → refresh s input client w ≡ (ok a, v) → Refreshed s input client w a
  unfolding refresh
  refresh-Refreshed w v a h =
      let (found, w₁, looked, h₁) = call-eq-ok _ _ h in
      let (old, is_own, h₂) = require-eq-ok _ _ _ h₁ in
      let (account, w₂, asked, h₃) = call-eq-ok _ _ h₂ in
      let (user, exists, h₄) = require-eq-ok _ _ _ h₃ in
      let h₅ = always-eq-ok _ _ h₄ in
      let (b, w₃, done, h₆) = >>=-eq-ok _ _ h₅ in
      let (minted, blank, no_id) = mint_access-Minted s client _ _ _ _ _ _ w₃ b done in
      let (same, own) = owned-eq-some found old is_own in
      record {
        old = old;
        user = user;
        now = (s.clock.now w₂).0;
        found = w₁;
        seen = w₂;
        looked = looked ∙ ap (λ o. (ok o, w₁)) same;
        own = own;
        owner_id = user_id_of old.user_id;
        owned_by = user_id_of-cases old.user_id;
        scopes = must_decode_scope_json-Decoded s.json old.scopes_json;
        owner = asked ∙ ap (λ o. (ok o, w₂)) exists;
        outcome = rotate_if-Outcome old user _ _ b a w₃ v refl minted blank h₆;
      }

  or_refresh-cases :
      (replay : Option Answer) (a : Answer) (u w v : W)
      → check_replay s s.token_cache
          (s.digest.sha256_hex input.refresh_token)
          input.replay_fingerprint
          u
        ≡ (ok replay, w)
      → or_refresh s input client replay w ≡ (ok a, v)
      → Repeated s input a ⊎ Refreshed s input client w a
  unfolding or_refresh
  or_refresh-cases (some b) a u w v e h = inl (
      subst (Repeated s input) (pure-eq-ok h).0
        (check_replay-Repeated s input s.token_cache b u w refl e))
  or_refresh-cases none a u w v e h = inr (refresh-Refreshed w v a h)

module _ {W : Type 0} (s : Service W) where
  -- A refresh token is exchanged only for an active client that is registered for the grant and,
  -- where a secret is on file for it, has given one that the verifier accepts. The answer either
  -- repeats one that the cache keeps for this token, this request and the grace period; or the
  -- repository found the token, it is the client's own, and its user exists. In that case the new
  -- access token was signed from claims that name this user, the client and the scopes of the old
  -- one, its row has them with the user and the subject of the old one, and the old one was handed
  -- to the repository to be replaced by a row with that user, subject and scopes, unless the client's
  -- refresh tokens have no lifetime or another request replaced it first, whose answer is then
  -- repeated.
  pub exchange_refresh_token-Refreshed :
      (input : Input) (w v : W) (a : Answer)
      → exchange_refresh_token s input w ≡ (ok a, v)
      → (client : Client) × (w₁ : W) × (s.clients.find_by_client_id (trim_space input.client_id) w
          ≡ (ok (some client), w₁))
        × MayUse client grant_refresh_token
        × SecretGiven s.passwords client.client_secret_hash input.client_secret
        × (Repeated s input a ⊎ ((w₂ : W) × Refreshed s input client w₂ a))
  unfolding exchange_refresh_token check_secret
  exchange_refresh_token-Refreshed input w v a h =
      let (client, w₁, found, h₁) = >>=-eq-ok _ _ h in
      let (looked, may) = find_client-eq-ok s input _ w w₁ client found in
      let (secret, h₂) = guard-eq-ok _ _ _ h₁ in
      let (replay, w₂, checked, h₃) = >>=-eq-ok _ _ h₂ in
      (
        client,
        w₁,
        looked,
        may,
        validate_client_secret-SecretGiven _ _ _ secret,
        elim (or_refresh-cases s input client replay a w₁ w₂ v checked h₃) [
          | inl repeated ↦ inl repeated
          | inr refreshed ↦ inr (w₂, refreshed)
        ],
      )
