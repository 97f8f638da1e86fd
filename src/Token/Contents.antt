-- ===== src/Token/Contents.antt =====
-- What the claims and the rows of a token say, and what the check of a client's secret asks.
use sienne.Base.{
  String, ◌≡◌, refl, ◌⊎◌, inl, inr, true, Option, none, some, List, [], ◌∷◌, arith, ◌==◌,
  if◌then◌else◌, Bool-cases,
}
use sienne.Base.Int.{ℤ, ◌+ℤ◌, seconds, unix}
use sienne.Base.Text.{trim_space, is_blank}
use sienne.Domain.{Client, AccessToken, RefreshToken}
use sienne.Ports.{Passwords, Claim, text, texts, number}
use sienne.Token.{
  Service, verifies, validate_client_secret, access_claims, access_model, refresh_model,
}
use sienne.Base.{false}
use sienne.Ports.{Json}
use sienne.Scopes.{normalize_scopes}
use sienne.Scopes.Laws.{Chosen, case-Chosen}
use sienne.Token.{must_decode_scope_json, granted_scopes}

-- The claim of that name.
abbrev pub claim : String → List (String × Claim) → Option Claim
claim name [] = none
claim name ((n, value) ∷ rest) =
    let later = claim name rest in if n == name then some value else later

-- A verifier is configured and accepted the text for the hash.
abbrev pub Verified : {W : Type 0} → Option (Passwords W) → String → String → Type 0
Verified {W} passwords presented hash =
    (p : Passwords W) × (passwords ≡ some p) × (p.verify_password presented hash ≡ true)

pub verifies-Verified :
    {W : Type 0} (passwords : Option (Passwords W)) (presented hash : String)
    → verifies passwords presented hash ≡ true
    → Verified passwords presented hash
unfolding verifies
verifies-Verified none presented hash h = cc
verifies-Verified (some p) presented hash h = (p, refl, h)

-- No secret is on file, or the one that was presented was accepted for it.
abbrev pub SecretGiven : {W : Type 0} → Option (Passwords W) → String → String → Type 0
SecretGiven passwords hash presented =
    (is_blank (trim_space hash) ≡ true) ⊎ Verified passwords presented hash

pub validate_client_secret-SecretGiven :
    {W : Type 0} (passwords : Option (Passwords W)) (hash presented : String)
    → validate_client_secret passwords hash presented ≡ true
    → SecretGiven passwords hash presented
unfolding validate_client_secret
validate_client_secret-SecretGiven passwords hash presented h =
    elim (Bool-cases (is_blank (trim_space hash))) [
      | inl blank ↦ inl blank
      | inr filled ↦ inr (verifies-Verified passwords presented hash (ground arith))
    ]

-- The scopes that a JSON text stands for; there are none in a blank or a broken one.
abbrev pub Decoded : Json → String → List String → Type 0
Decoded json raw scopes =
    ((is_blank (trim_space raw) ≡ true) × (scopes ≡ []))
    ⊎ ((is_blank (trim_space raw) ≡ false)
        × ((json.unmarshal raw ≡ some scopes) ⊎ ((json.unmarshal raw ≡ none) × (scopes ≡ []))))

decoded_case :
    (json : Json) (raw : String) (o : Option (List String))
    → json.unmarshal raw ≡ o
    → let xs = elim o as (λ _. List String) [ some scopes ↦ scopes | none ↦ [] ] in
      (json.unmarshal raw ≡ some xs) ⊎ ((json.unmarshal raw ≡ none) × (xs ≡ []))
decoded_case json raw none e = inr (e, refl)
decoded_case json raw (some scopes) e = inl e

pub must_decode_scope_json-Decoded :
    (json : Json) (raw : String) → Decoded json raw (must_decode_scope_json json raw)
unfolding must_decode_scope_json
must_decode_scope_json-Decoded json raw = elim (Bool-cases (is_blank (trim_space raw))) [
  | inl blank ↦ inl (blank, rw blank refl)
  | inr filled ↦ inr (filled, rw filled (decoded_case json raw (json.unmarshal raw) refl))
]

pub granted_scopes-Chosen :
    (requested allowed : List String) → Chosen requested allowed (granted_scopes requested allowed)
unfolding granted_scopes
granted_scopes-Chosen requested allowed =
    case-Chosen requested allowed (normalize_scopes requested) refl

module _ {W : Type 0} (s : Service W) (client : Client) where
  -- The claims name the subject, the client and the scopes, and end with the lifetime.
  pub record AccessClaims (subject : String) (scopes : List String) (now : ℤ)
      (claims : List (String × Claim)) : Type 0 where
    pub iss : claim "iss" claims ≡ some (text s.issuer)
    pub sub : claim "sub" claims ≡ some (text subject)
    pub aud : claim "aud" claims ≡ some (texts (client.client_id ∷ []))
    pub cid : claim "cid" claims ≡ some (text client.client_id)
    pub scp : claim "scp" claims ≡ some (texts scopes)
    pub iat : claim "iat" claims ≡ some (number (unix now))
    pub exp :
        claim "exp" claims ≡ some (number (unix (now +ℤ seconds client.access_token_ttl_seconds)))

  pub access_claims-AccessClaims :
      (subject : String) (scopes : List String) (now : ℤ) (jti : String)
      → AccessClaims subject scopes now (access_claims s client subject scopes now jti)
  unfolding access_claims
  access_claims-AccessClaims subject scopes now jti = record {
    iss = refl;
    sub = refl;
    aud = refl;
    cid = refl;
    scp = refl;
    iat = refl;
    exp = refl;
  }

  -- The row is of the token, the client, the user and the scopes, and is not revoked.
  pub record AccessRow (user_id : Option ℤ) (subject : String) (scopes : List String) (now : ℤ)
      (token : String) (row : AccessToken) : Type 0 where
    pub value : row.token_value ≡ token
    pub digest : row.token_sha256 ≡ s.digest.sha256_hex token
    pub of_client : row.client_id ≡ client.id
    pub of_user : row.user_id ≡ user_id
    pub of_subject : row.subject ≡ subject
    pub of_scopes : row.scopes_json ≡ s.json.marshal scopes
    pub issued : row.issued_at ≡ now
    pub expires : row.expires_at ≡ now +ℤ seconds client.access_token_ttl_seconds
    pub active : row.revoked_at ≡ none

  pub access_model-AccessRow :
      (user_id : Option ℤ) (subject : String) (scopes : List String) (now : ℤ) (token : String)
      → AccessRow user_id subject scopes now token
          (access_model s client user_id subject scopes now token)
  unfolding access_model
  access_model-AccessRow user_id subject scopes now token = record {
    value = refl;
    digest = refl;
    of_client = refl;
    of_user = refl;
    of_subject = refl;
    of_scopes = refl;
    issued = refl;
    expires = refl;
    active = refl;
  }

  -- The same of a refresh token, which is not replaced either.
  pub record RefreshRow (user_id : Option ℤ) (subject : String) (scopes : List String) (now : ℤ)
      (token : String) (row : RefreshToken) : Type 0 where
    pub value : row.token_value ≡ token
    pub digest : row.token_sha256 ≡ s.digest.sha256_hex token
    pub of_client : row.client_id ≡ client.id
    pub of_user : row.user_id ≡ user_id
    pub of_subject : row.subject ≡ subject
    pub of_scopes : row.scopes_json ≡ s.json.marshal scopes
    pub issued : row.issued_at ≡ now
    pub expires : row.expires_at ≡ now +ℤ seconds client.refresh_token_ttl_seconds
    pub active : row.revoked_at ≡ none
    pub last : row.replaced_by_token_id ≡ none

  pub refresh_model-RefreshRow :
      (user_id : Option ℤ) (subject : String) (scopes : List String) (now : ℤ) (token : String)
      → RefreshRow user_id subject scopes now token
          (refresh_model s client user_id subject scopes now token)
  unfolding refresh_model
  refresh_model-RefreshRow user_id subject scopes now token = record {
    value = refl;
    digest = refl;
    of_client = refl;
    of_user = refl;
    of_subject = refl;
    of_scopes = refl;
    issued = refl;
    expires = refl;
    active = refl;
    last = refl;
  }
