-- ===== src/Token/Code/Redeem.antt =====
-- What holds when an authorization code is exchanged for tokens.
use sienne.Base.{
  String, ◌≡◌, refl, ap, subst, ◌∙◌, ◌⊎◌, inl, inr, Bool, true, false, some, List, arith, eq_iff,
}
use sienne.Base.Exec.{ok}
use sienne.Base.Exec.Success.{
  >>=-eq-ok, require-eq-ok, call-eq-ok, always-eq-ok, guard-eq-ok, pure-eq-ok,
}
use sienne.Base.Int.{ℤ, eqb_ℤ_iff}
use sienne.Base.Text.{trim_space, to_upper, is_blank}
use sienne.Domain.{Client, AuthorizationCode, User}
use sienne.Ports.{Digest}
use sienne.Scopes.{contains}
use sienne.Scopes.Laws.{In, contains_iff}
use sienne.Token.{
  Input, Answer, Service, grant_authorization_code, validate_code_verifier, must_decode_scope_json,
}
use sienne.Token.Issue.{
  MayUse, find_client-eq-ok, UserTokens, UserTokens-with, issue_user_grant_tokens-UserTokens,
}
use sienne.Token.Code.{add_id_token, redeem, exchange_authorization_code}
use sienne.Token.Contents.{
  Decoded, must_decode_scope_json-Decoded, SecretGiven, validate_client_secret-SecretGiven,
}
use sienne.Token.Code.IdToken.{IdToken, mint_id_token-IdToken}

-- No challenge where the client does not ask for one, or a verifier that answers the challenge.
abbrev pub PkceProven : Digest → AuthorizationCode → String → Bool → Type 0
PkceProven digest code verifier require_pkce =
    ((is_blank code.code_challenge ≡ true) × (require_pkce ≡ false))
    ⊎ ((is_blank code.code_challenge ≡ false)
        × (is_blank verifier ≡ false)
        × (((to_upper code.code_challenge_method ≡ "S256")
              × (code.code_challenge ≡ digest.sha256_base64url verifier))
            ⊎ (((to_upper code.code_challenge_method ≡ "PLAIN")
                  ⊎ (is_blank (to_upper code.code_challenge_method) ≡ true))
                × (code.code_challenge ≡ verifier))))

pub validate_code_verifier-PkceProven :
    (digest : Digest) (code : AuthorizationCode) (verifier : String) (require_pkce : Bool)
    → validate_code_verifier digest code verifier require_pkce ≡ true
    → PkceProven digest code verifier require_pkce
unfolding validate_code_verifier
validate_code_verifier-PkceProven digest code verifier require_pkce h =
    let m = to_upper code.code_challenge_method in
    ground (
      arith,
      eq_iff m "PLAIN",
      eq_iff m "S256",
      eq_iff code.code_challenge verifier,
      eq_iff code.code_challenge (digest.sha256_base64url verifier),
    )

-- What the code that was redeemed, its client and its user are to the tokens of the answer.
pub record Redeemed {W : Type 0} (s : Service W) (input : Input) (client : Client) (w : W)
    (a : Answer) : Type 0 where
  pub code : AuthorizationCode
  pub user : User
  pub now : ℤ
  pub consumed : W
  pub found : W
  pub taken :
      s.auth_codes.consume_by_code input.code (s.clock.now w).0 (s.clock.now w).1
      ≡ (ok (some code), consumed)
  pub own : code.client_db_id ≡ client.id
  pub same_uri : code.redirect_uri ≡ input.redirect_uri
  pub pkce : PkceProven s.digest code input.code_verifier client.require_pkce
  pub owner : s.users.find_by_id code.user_id consumed ≡ (ok (some user), found)
  pub scopes : Decoded s.json code.scopes_json (must_decode_scope_json s.json code.scopes_json)
  pub tokens : UserTokens s client user (must_decode_scope_json s.json code.scopes_json) now a
  pub id_token :
      (a.id_token ≡ "")
      ⊎ (In "openid" (must_decode_scope_json s.json code.scopes_json)
          × IdToken s client user code now a.id_token)

module _ {W : Type 0} (s : Service W) where
  add_id_token-keeps :
      (openid : Bool) (client : Client) (user : User) (code : AuthorizationCode)
      (scopes : List String) (now : ℤ) (b a : Answer) (w v : W)
      → UserTokens s client user scopes now b
      → b.id_token ≡ ""
      → contains scopes "openid" ≡ openid
      → add_id_token s openid client user code now b w ≡ (ok a, v)
      → UserTokens s client user scopes now a
        × ((a.id_token ≡ "") ⊎ (In "openid" scopes × IdToken s client user code now a.id_token))
  unfolding add_id_token
  add_id_token-keeps false client user code scopes now b a w v tokens blank asked h =
      let (e, end) = pure-eq-ok h in
      subst
        (λ (x : Answer).
          UserTokens s client user scopes now x
          × ((x.id_token ≡ "") ⊎ (In "openid" scopes × IdToken s client user code now x.id_token)))
        e (tokens, inl blank)
  add_id_token-keeps true client user code scopes now b a w v tokens blank asked h =
      let (token, w₁, minted, h₁) = >>=-eq-ok _ _ h in
      let (e, end) = pure-eq-ok h₁ in
      subst
        (λ (x : Answer).
          UserTokens s client user scopes now x
          × ((x.id_token ≡ "") ⊎ (In "openid" scopes × IdToken s client user code now x.id_token)))
        e
        (
          UserTokens-with s client user scopes now b token tokens,
          inr (
            (contains_iff _ _).0 asked,
            mint_id_token-IdToken s client user code now token w w₁ minted,
          ),
        )

  redeem-Redeemed :
      (input : Input) (client : Client) (w v : W) (a : Answer)
      → redeem s input client w ≡ (ok a, v)
      → Redeemed s input client w a
  unfolding redeem
  redeem-Redeemed input client w v a h =
      let h₁ = always-eq-ok _ _ h in
      let (consumed, w₂, taken, h₂) = call-eq-ok _ _ h₁ in
      let (code, known, h₃) = require-eq-ok _ _ _ h₂ in
      let (own, h₄) = guard-eq-ok _ _ _ h₃ in
      let (same_uri, h₅) = guard-eq-ok _ _ _ h₄ in
      let (proven, h₆) = guard-eq-ok _ _ _ h₅ in
      let (found, w₃, looked, h₇) = call-eq-ok _ _ h₆ in
      let (user, exists, h₈) = require-eq-ok _ _ _ h₇ in
      let h₉ = always-eq-ok _ _ h₈ in
      let (b, w₄, issued, h₁₀) = >>=-eq-ok _ _ h₉ in
      let (tokens, blank) = issue_user_grant_tokens-UserTokens s client user _ _ _ w₄ b issued in
      let (kept, id_token) =
        add_id_token-keeps _ client user code _ _ b a w₄ v tokens blank refl h₁₀ in
      record {
        code = code;
        user = user;
        now = (s.clock.now w₃).0;
        consumed = w₂;
        found = w₃;
        taken = taken ∙ ap (λ c. (ok c, w₂)) known;
        own = (eqb_ℤ_iff _ _).0 own;
        same_uri = (eq_iff _ _).0 same_uri;
        pkce = validate_code_verifier-PkceProven s.digest code _ _ proven;
        owner = looked ∙ ap (λ u. (ok u, w₃)) exists;
        scopes = must_decode_scope_json-Decoded s.json code.scopes_json;
        tokens = kept;
        id_token = id_token;
      }

  -- A code is exchanged only for an active client that is registered for the grant and for the
  -- redirect URI and, where a secret is on file for it, has given one that the verifier accepts; the
  -- code has just been consumed, it was issued to this client and for this redirect URI, its PKCE
  -- challenge is answered, and its user exists. The access token was signed from claims that name
  -- this user, the client, the scopes of the code and the lifetime, and a row that says the same is
  -- stored; so is one for the refresh token, which there is only if the client may refresh and
  -- offline_access was asked for; an ID token is given only for the openid scope, and was signed
  -- from claims that name the user, the client and the nonce of the code, if it has one.
  pub exchange_authorization_code-Redeemed :
      (input : Input) (w v : W) (a : Answer)
      → exchange_authorization_code s input w ≡ (ok a, v)
      → (client : Client) × (w₁ : W) × (s.clients.find_by_client_id (trim_space input.client_id) w
          ≡ (ok (some client), w₁))
        × MayUse client grant_authorization_code
        × In input.redirect_uri client.redirect_uris
        × SecretGiven s.passwords client.client_secret_hash input.client_secret
        × Redeemed s input client w₁ a
  unfolding exchange_authorization_code
  exchange_authorization_code-Redeemed input w v a h =
      let (grant, h₁) = guard-eq-ok _ _ _ h in
      let (client, w₁, found, h₂) = >>=-eq-ok _ _ h₁ in
      let (looked, may) = find_client-eq-ok s input _ w w₁ client found in
      let (registered, h₃) = guard-eq-ok _ _ _ h₂ in
      let (secret, h₄) = guard-eq-ok _ _ _ h₃ in
      (
        client,
        w₁,
        looked,
        may,
        (contains_iff _ _).0 registered,
        validate_client_secret-SecretGiven _ _ _ secret,
        redeem-Redeemed input client w₁ v a h₄,
      )
