-- ===== src/Token/Code/IdToken.antt =====
-- What the ID token of an exchanged authorization code says.
use sienne.Base.{
  String, ◌≡◌, refl, ◌⊎◌, inl, inr, true, some, List, [], ◌∷◌, if◌then◌else◌, Bool-cases,
}
use sienne.Base.Exec.{ok}
use sienne.Base.Exec.Success.{always-eq-ok, call_alone-eq-ok}
use sienne.Base.Int.{ℤ, unix}
use sienne.Base.Text.{is_blank}
use sienne.Domain.{Client, User, AuthorizationCode}
use sienne.Ports.{Claim, text, number}
use sienne.Token.{Service}
use sienne.Token.Contents.{claim}
use sienne.Token.Code.{id_claims, mint_id_token}

module _ {W : Type 0} (s : Service W) (client : Client) (user : User) (code : AuthorizationCode)
    (now : ℤ) where
  -- The claims are about the user, for the client, with the nonce of the code if it has one.
  pub record IdClaims (claims : List (String × Claim)) : Type 0 where
    pub issuer : claim "iss" claims ≡ some (text s.issuer)
    pub subject : claim "sub" claims ≡ some (text user.user_uuid)
    pub audience : claim "aud" claims ≡ some (text client.client_id)
    pub email : claim "email" claims ≡ some (text user.email)
    pub issued : claim "iat" claims ≡ some (number (unix now))
    pub nonce :
        (is_blank code.nonce_value ≡ true) ⊎ (claim "nonce" claims ≡ some (text code.nonce_value))

  nonce_claim :
      (nonce : String)
      → (is_blank nonce ≡ true)
        ⊎ (claim "nonce" (if is_blank nonce then [] else ("nonce", text nonce) ∷ [])
            ≡ some (text nonce))
  nonce_claim nonce = elim (Bool-cases (is_blank nonce)) [
    | inl blank ↦ inl blank
    | inr filled ↦ inr (rw filled refl)
  ]

  id_claims-IdClaims : (jti : String) → IdClaims (id_claims s client user code now jti)
  unfolding id_claims
  id_claims-IdClaims jti = record {
    issuer = refl;
    subject = refl;
    audience = refl;
    email = refl;
    issued = refl;
    nonce = nonce_claim code.nonce_value;
  }

  -- The token was signed from such claims.
  pub record IdToken (token : String) : Type 0 where
    pub claims : List (String × Claim)
    pub before : W
    pub signed : W
    pub says : IdClaims claims
    pub minted : s.signer.mint claims before ≡ (ok token, signed)

  pub mint_id_token-IdToken :
      (token : String) (w v : W)
      → mint_id_token s client user code now w ≡ (ok token, v)
      → IdToken token
  unfolding mint_id_token
  mint_id_token-IdToken token w v h = record {
    claims = id_claims s client user code now (s.new_uuid w).0;
    before = (s.new_uuid w).1;
    signed = v;
    says = id_claims-IdClaims (s.new_uuid w).0;
    minted = call_alone-eq-ok _ (always-eq-ok _ _ h);
  }
