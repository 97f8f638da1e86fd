-- ===== src/Token/Issue.antt =====
-- What the checks and the minting that the grants share have done when they succeed.
use sienne.Base.{
  String, ◌≡◌, refl, sym, subst, ◌∙◌, ◌⊎◌, inl, inr, Bool, true, false, Option, some, List, arith,
}
use sienne.Base.Exec.{ok}
use sienne.Base.Exec.Success.{
  >>=-eq-ok, require-eq-ok, call-eq-ok, always-eq-ok, guard-eq-ok, pure-eq-ok,
}
use sienne.Base.Int.{ℤ, pos, ◌<ℤ◌}
use sienne.Base.Text.{trim_space, join}
use sienne.Domain.{active_client-eq-some, Client, User}
use sienne.Scopes.Laws.{In, contains_iff}
use sienne.Token.{
  Input, Answer, Service, should_issue_refresh_token, find_client, access_claims, access_model,
  mint_access, refresh_model, add_refresh, issue_user_grant_tokens,
}
use sienne.Token.Contents.{
  AccessClaims, access_claims-AccessClaims, AccessRow, access_model-AccessRow, RefreshRow,
  refresh_model-RefreshRow,
}
use sienne.Domain.{AccessToken, RefreshToken}
use sienne.Ports.{Claim}

-- A client that may use the grant.
pub record MayUse (client : Client) (grant : String) : Type 0 where
  pub active : client.status ≡ "active"
  pub registered : In grant client.grant_types

module _ {W : Type 0} (s : Service W) (input : Input) where
  pub find_client-eq-ok :
      (grant : String) (w v : W) (client : Client)
      → find_client s input grant w ≡ (ok client, v)
      → (s.clients.find_by_client_id (trim_space input.client_id) w ≡ (ok (some client), v))
        × MayUse client grant
  unfolding find_client
  find_client-eq-ok grant w v client h =
      let (found, w₁, looked, h₁) = call-eq-ok _ _ h in
      let (c, is_active, h₂) = require-eq-ok _ _ _ h₁ in
      let (has_grant, h₃) = guard-eq-ok _ _ _ h₂ in
      let (same, end) = pure-eq-ok h₃ in
      let (e, active) = active_client-eq-some found c is_active in
      let registered = (contains_iff c.grant_types grant).0 has_grant in
      (cc, record { active = rw (← same) active; registered = rw (← same) registered })

-- A token of the answer: minted by the signer from the claims, and stored.
pub record Minted {W : Type 0} (s : Service W) (client : Client) (user_id : Option ℤ)
    (subject stored_subject : String) (scopes : List String) (now : ℤ) (a : Answer) : Type 0 where
  pub claims : List (String × Claim)
  pub row : AccessToken
  pub before : W
  pub signed : W
  pub saved : W
  pub says : AccessClaims s client subject scopes now claims
  pub token : s.signer.mint claims before ≡ (ok a.access_token, signed)
  pub keeps : AccessRow s client user_id stored_subject scopes now a.access_token row
  pub stored : s.tokens.create_access_token row signed ≡ (ok tt, saved)
  pub scope : a.scope ≡ join " " scopes
  pub kind : a.token_type ≡ "Bearer"

module _ {W : Type 0} (s : Service W) (client : Client) where
  pub mint_access-Minted :
      (user_id : Option ℤ) (subject stored_subject : String) (scopes : List String) (now : ℤ)
      (w v : W) (a : Answer)
      → mint_access s client user_id subject stored_subject scopes now w ≡ (ok a, v)
      → Minted s client user_id subject stored_subject scopes now a
        × (a.refresh_token ≡ "")
        × (a.id_token ≡ "")
  unfolding mint_access
  mint_access-Minted user_id subject stored_subject scopes now w v a h =
      let h₁ = always-eq-ok _ _ h in
      let (token, w₂, signed, h₂) = call-eq-ok _ _ h₁ in
      let (_, w₃, saved, h₃) = call-eq-ok _ _ h₂ in
      let (_, w₄, cached, h₄) = >>=-eq-ok _ _ h₃ in
      let h₅ = always-eq-ok _ _ h₄ in
      let (e, _) = pure-eq-ok h₅ in
      subst
        (λ (x : Answer).
          Minted s client user_id subject stored_subject scopes now x
          × (x.refresh_token ≡ "")
          × (x.id_token ≡ ""))
        e
        (
          record {
            claims = access_claims s client subject scopes now (s.new_uuid w).0;
            row = access_model s client user_id stored_subject scopes now token;
            before = (s.new_uuid w).1;
            signed = w₂;
            saved = w₃;
            says = access_claims-AccessClaims s client subject scopes now (s.new_uuid w).0;
            token = signed;
            keeps = access_model-AccessRow s client user_id stored_subject scopes now token;
            stored = saved;
            scope = refl;
            kind = refl;
          },
          refl,
          refl,
        )

-- What Minted says does not depend on the other tokens of the answer.
pub Minted-with :
    {W : Type 0} {s : Service W} {client : Client} {user_id : Option ℤ}
    {subject stored_subject : String} {scopes : List String} {now : ℤ} {a : Answer} (b : Answer)
    → a.access_token ≡ b.access_token
    → a.scope ≡ b.scope
    → a.token_type ≡ b.token_type
    → Minted s client user_id subject stored_subject scopes now a
    → Minted s client user_id subject stored_subject scopes now b
Minted-with b token scope kind m = record {
  claims = m.claims;
  row = m.row;
  before = m.before;
  signed = m.signed;
  saved = m.saved;
  says = m.says;
  token = rw (← token) m.token;
  keeps = rw (← token) m.keeps;
  stored = m.stored;
  scope = sym scope ∙ m.scope;
  kind = sym kind ∙ m.kind;
}

-- A refresh token of the answer: the client may have one, the scopes ask for it, and it is stored.
pub record Refreshable {W : Type 0} (s : Service W) (client : Client) (user : User)
    (scopes : List String) (now : ℤ) (a : Answer) : Type 0 where
  pub lifetime : pos 0 <ℤ client.refresh_token_ttl_seconds
  pub registered : In "refresh_token" client.grant_types
  pub offline : In "offline_access" scopes
  pub row : RefreshToken
  pub ready : W
  pub saved : W
  pub keeps : RefreshRow s client (some user.id) user.user_uuid scopes now a.refresh_token row
  pub stored : s.tokens.create_refresh_token row ready ≡ (ok tt, saved)

-- The tokens that a user's grant gives.
pub record UserTokens {W : Type 0} (s : Service W) (client : Client) (user : User)
    (scopes : List String) (now : ℤ) (a : Answer) : Type 0 where
  pub access : Minted s client (some user.id) user.user_uuid user.user_uuid scopes now a
  pub refresh : (a.refresh_token ≡ "") ⊎ Refreshable s client user scopes now a

should_issue_refresh_token_iff :
    (client : Client) (scopes : List String)
    → should_issue_refresh_token client scopes ≡ true
    → (pos 0 <ℤ client.refresh_token_ttl_seconds)
      × In "refresh_token" client.grant_types
      × In "offline_access" scopes
unfolding should_issue_refresh_token
should_issue_refresh_token_iff client scopes h =
    let (a, b) = contains_iff client.grant_types "refresh_token" in
    let (c, d) = contains_iff scopes "offline_access" in ground (arith, a, c)

module _ {W : Type 0} (s : Service W) (client : Client) (user : User) (scopes : List String)
    (now : ℤ) where
  add_refresh-UserTokens :
      (issue : Bool) (b a : Answer) (w v : W)
      → should_issue_refresh_token client scopes ≡ issue
      → Minted s client (some user.id) user.user_uuid user.user_uuid scopes now b
      → b.refresh_token ≡ ""
      → add_refresh s issue client user scopes now b w ≡ (ok a, v)
      → UserTokens s client user scopes now a × (a.id_token ≡ b.id_token)
  unfolding add_refresh
  add_refresh-UserTokens false b a w v issue minted blank h =
      let (e, end) = pure-eq-ok h in
      subst (λ (x : Answer). UserTokens s client user scopes now x × (x.id_token ≡ b.id_token)) e
        (record { access = minted; refresh = inl blank }, refl)
  add_refresh-UserTokens true b a w v issue minted blank h =
      let (token, w₁, made, h₁) = >>=-eq-ok _ _ h in
      let (_, w₂, saved, h₂) = call-eq-ok _ _ h₁ in
      let (_, w₃, cached, h₃) = >>=-eq-ok _ _ h₂ in
      let (e, end) = pure-eq-ok h₃ in
      let (lifetime, registered, offline) = should_issue_refresh_token_iff client scopes issue in
      subst (λ (x : Answer). UserTokens s client user scopes now x × (x.id_token ≡ b.id_token)) e
        (
          record {
            access = Minted-with _ refl refl refl minted;
            refresh = inr (record {
              lifetime = lifetime;
              registered = registered;
              offline = offline;
              row = refresh_model s client (some user.id) user.user_uuid scopes now token;
              ready = w₁;
              saved = w₂;
              keeps =
                  refresh_model-RefreshRow s client (some user.id) user.user_uuid scopes now token;
              stored = saved;
            });
          },
          refl,
        )

  pub issue_user_grant_tokens-UserTokens :
      (w v : W) (a : Answer)
      → issue_user_grant_tokens s client user scopes now w ≡ (ok a, v)
      → UserTokens s client user scopes now a × (a.id_token ≡ "")
  unfolding issue_user_grant_tokens
  issue_user_grant_tokens-UserTokens w v a h =
      let (b, w₁, done, k) = >>=-eq-ok _ _ h in
      let (minted, blank, no_id) = mint_access-Minted s client _ _ _ scopes now w w₁ b done in
      let (tokens, same) = add_refresh-UserTokens _ b a w₁ v refl minted blank k in (tokens, cc)

  pub UserTokens-with :
      (a : Answer) (t : String)
      → UserTokens s client user scopes now a
      → UserTokens s client user scopes now (record a { id_token = t })
  UserTokens-with a t tokens = record {
    access = Minted-with _ refl refl refl tokens.access;
    refresh = elim tokens.refresh [
      | inl blank ↦ inl blank
      | inr r ↦ inr (record {
        lifetime = r.lifetime;
        registered = r.registered;
        offline = r.offline;
        row = r.row;
        ready = r.ready;
        saved = r.saved;
        keeps = r.keeps;
        stored = r.stored;
      })
    ];
  }
