-- ===== src/Tests/Token.antt =====
-- The token endpoint at requests that succeed, one for each grant.
use sienne.Base.{String, ◌≡◌, refl, ◌⊎◌, Option, none, some, [], ◌∷◌, All}
use sienne.Base.Exec.{ok, ◌>>=◌}
use sienne.Base.Int.{ℤ, pos, ◌+ℤ◌, seconds, whole_seconds}
use sienne.Base.Text.{trim_space, to_upper, join}
use sienne.Domain.{Client, User}
use sienne.Ports.{ReplayResult, DeviceCodes}
use sienne.Scopes.{contains, normalize_scopes, all_contained}
use sienne.Scopes.Laws.{In, IsAllowed}
use sienne.Token.{
  Input, Answer, Service, grant_authorization_code, grant_refresh_token, grant_client_credentials,
  grant_password, grant_device_code, granted_scopes,
}
use sienne.Token.Issue.{MayUse, Minted, UserTokens}
use sienne.Token.Code.{exchange_authorization_code}
use sienne.Token.Code.Redeem.{Redeemed, exchange_authorization_code-Redeemed}
use sienne.Token.Refresh.{exchange_refresh_token}
use sienne.Token.Refresh.Replay.{Repeated}
use sienne.Token.Refresh.Rotation.{Refreshed, exchange_refresh_token-Refreshed}
use sienne.Scopes.Laws.{Chosen}
use sienne.Token.Contents.{SecretGiven, Verified}
use sienne.Token.Grants.{exchange_client_credentials, exchange_password, exchange_device_code}
use sienne.Token.Grants.Sound.{
  IsUsable, Polled, exchange_client_credentials-Minted, exchange_password-UserTokens,
  exchange_device_code-Polled,
}
use sienne.Token.Exchange.{exchange}
use sienne.Token.Exchange.Dispatch.{Authenticated, exchange-Authenticated}
use sienne.Tests.World.{
  World, clock, json, strconv, digest, passwords, signer, clients, codes, users, tokens,
  token_cache, device_codes,
}

abbrev service : Option ReplayResult → Service World
service replay = record {
  auth_codes = codes;
  clients = clients;
  users = users;
  tokens = tokens;
  token_cache = some (token_cache replay);
  device_codes = some device_codes;
  passwords = some passwords;
  signer = signer;
  issuer = "https://idp";
  clock = clock;
  new_uuid = λ w. ("id", w);
  json = json;
  strconv = strconv;
  digest = digest;
}

abbrev input : String → Input
input grant = record {
  grant_type = grant;
  client_id = "web";
  client_secret = "s3cret";
  replay_fingerprint = "fp";
  code = "c0de";
  redirect_uri = "https://web/cb";
  code_verifier = "proof";
  refresh_token = "r0";
  device_code = "dev";
  username = "ann";
  password = "pass";
  scopes = "openid" ∷ "offline_access" ∷ [];
}

abbrev answer : Answer
answer = record {
  access_token = "jwt";
  token_type = "Bearer";
  expires_in = pos 3600;
  refresh_token = "id.id";
  scope = "openid offline_access";
  id_token = "";
}

coded : exchange_authorization_code (service none) (input grant_authorization_code) [] ≡ (
  ok (record answer { id_token = "jwt" }),
  "cached refresh" ∷ "id.id" ∷ "cached access" ∷ "jwt" ∷ "consumed" ∷ [],
)
unfolding exchange_authorization_code ◌>>=◌ trim_space contains to_upper whole_seconds join ◌+ℤ◌
    seconds
coded = refl

refreshed :
    exchange_refresh_token (service none) (input grant_refresh_token) []
    ≡ (ok answer, "cached rotation" ∷ "rotated" ∷ "cached access" ∷ "jwt" ∷ [])
unfolding exchange_refresh_token ◌>>=◌ trim_space contains whole_seconds join ◌+ℤ◌ seconds
refreshed = refl

credentials :
    exchange_client_credentials (service none) (input grant_client_credentials) []
    ≡ (ok (record answer { refresh_token = "" }), "cached access" ∷ "jwt" ∷ [])
unfolding exchange_client_credentials ◌>>=◌ trim_space contains all_contained normalize_scopes
    whole_seconds join ◌+ℤ◌ seconds
credentials = refl

signed_in :
    exchange_password (service none) (input grant_password) []
    ≡ (ok answer, "cached refresh" ∷ "id.id" ∷ "cached access" ∷ "jwt" ∷ [])
unfolding exchange_password ◌>>=◌ trim_space contains all_contained normalize_scopes whole_seconds
    join ◌+ℤ◌ seconds
signed_in = refl

paired :
    exchange_device_code (service none) (input grant_device_code) []
    ≡ (ok answer, "device consumed" ∷ "cached refresh" ∷ "id.id" ∷ "cached access" ∷ "jwt" ∷ [])
unfolding exchange_device_code ◌>>=◌ trim_space contains whole_seconds join ◌+ℤ◌ seconds
paired = refl

exchanged :
    exchange (service none) (input grant_device_code) []
    ≡ (ok answer, "device consumed" ∷ "cached refresh" ∷ "id.id" ∷ "cached access" ∷ "jwt" ∷ [])
unfolding exchange
exchanged = paired

abbrev log_issued : World
log_issued = "cached refresh" ∷ "id.id" ∷ "cached access" ∷ "jwt" ∷ []

abbrev log_coded : World
log_coded = "cached refresh" ∷ "id.id" ∷ "cached access" ∷ "jwt" ∷ "consumed" ∷ []

abbrev log_rotated : World
log_rotated = "cached rotation" ∷ "rotated" ∷ "cached access" ∷ "jwt" ∷ []

abbrev log_minted : World
log_minted = "cached access" ∷ "jwt" ∷ []

exchange_authorization_code-Redeemed_example :
    (c : Client) × (w₁ : World) × (clients.find_by_client_id (trim_space "web") []
      ≡ (ok (some c), w₁))
    × MayUse c grant_authorization_code
    × In "https://web/cb" c.redirect_uris
    × SecretGiven (some passwords) c.client_secret_hash "s3cret"
    × Redeemed
        (service none)
        (input grant_authorization_code)
        c
        w₁
        (record answer { id_token = "jwt" })
exchange_authorization_code-Redeemed_example =
    exchange_authorization_code-Redeemed (service none) (input grant_authorization_code) []
      log_coded (record answer { id_token = "jwt" }) coded

exchange_refresh_token-Refreshed_example :
    (c : Client) × (w₁ : World) × (clients.find_by_client_id (trim_space "web") []
      ≡ (ok (some c), w₁))
    × MayUse c grant_refresh_token
    × SecretGiven (some passwords) c.client_secret_hash "s3cret"
    × (Repeated (service none) (input grant_refresh_token) answer
        ⊎ ((w₂ : World) × Refreshed (service none) (input grant_refresh_token) c w₂ answer))
exchange_refresh_token-Refreshed_example =
    exchange_refresh_token-Refreshed (service none) (input grant_refresh_token) [] log_rotated
      answer refreshed

exchange_client_credentials-Minted_example :
    (c : Client) × (w₁ : World) × (now : ℤ) × (clients.find_by_client_id (trim_space "web") []
      ≡ (ok (some c), w₁))
    × MayUse c grant_client_credentials
    × SecretGiven (some passwords) c.client_secret_hash "s3cret"
    × (Chosen
          ("openid" ∷ "offline_access" ∷ [])
          c.scopes
          (granted_scopes ("openid" ∷ "offline_access" ∷ []) c.scopes)
        × All (IsAllowed c.scopes) (granted_scopes ("openid" ∷ "offline_access" ∷ []) c.scopes))
    × Minted
        (service none)
        c
        none
        c.client_id
        c.client_id
        (granted_scopes ("openid" ∷ "offline_access" ∷ []) c.scopes)
        now
        (record answer { refresh_token = "" })
    × (◌≡◌ {A = String} "" "")
    × (◌≡◌ {A = String} "" "")
exchange_client_credentials-Minted_example =
    exchange_client_credentials-Minted (service none) (input grant_client_credentials) [] log_minted
      (record answer { refresh_token = "" }) credentials

exchange_password-UserTokens_example :
    (c : Client) × (u : User) × (w₁ : World) × (w₂ : World) × (now : ℤ) × (clients.find_by_client_id
        (trim_space "web")
        []
      ≡ (ok (some c), w₁))
    × MayUse c grant_password
    × SecretGiven (some passwords) c.client_secret_hash "s3cret"
    × (users.find_by_username (trim_space "ann") w₁ ≡ (ok (some u), w₂))
    × IsUsable u
    × Verified (some passwords) "pass" u.password_hash
    × (Chosen
          ("openid" ∷ "offline_access" ∷ [])
          c.scopes
          (granted_scopes ("openid" ∷ "offline_access" ∷ []) c.scopes)
        × All (IsAllowed c.scopes) (granted_scopes ("openid" ∷ "offline_access" ∷ []) c.scopes))
    × UserTokens
        (service none)
        c
        u
        (granted_scopes ("openid" ∷ "offline_access" ∷ []) c.scopes)
        now
        answer
exchange_password-UserTokens_example =
    exchange_password-UserTokens (service none) (input grant_password) [] log_issued answer
      signed_in

exchange_device_code-Polled_example :
    (c : Client) × (devices : DeviceCodes World) × (w₁ : World) × (clients.find_by_client_id
        (trim_space "web")
        []
      ≡ (ok (some c), w₁))
    × MayUse c grant_device_code
    × SecretGiven (some passwords) c.client_secret_hash "s3cret"
    × (some device_codes ≡ some devices)
    × Polled
        (service none)
        devices
        (input grant_device_code)
        c
        w₁
        ("device consumed" ∷ log_issued)
        answer
exchange_device_code-Polled_example =
    exchange_device_code-Polled (service none) (input grant_device_code) []
      ("device consumed" ∷ log_issued) answer paired

exchange-Authenticated_example : Authenticated (service none) (input grant_device_code) []
exchange-Authenticated_example =
    exchange-Authenticated (service none) (input grant_device_code) []
      ("device consumed" ∷ log_issued) answer exchanged
