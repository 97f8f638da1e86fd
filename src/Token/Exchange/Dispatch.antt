-- ===== src/Token/Exchange/Dispatch.antt =====
-- What every grant of the token endpoint asks of its client.
use sienne.Base.{
  String, ◌≡◌, refl, sym, subst, Bool, true, false, some, ◌==◌, eq_iff, if◌then◌else◌,
}
use sienne.Base.Exec.{ok, Exec, fail}
use sienne.Base.Text.{trim_space}
use sienne.Domain.{Client}
use sienne.Token.{
  Err, Input, Answer, Service, grant_authorization_code, grant_refresh_token,
  grant_client_credentials, grant_password, grant_device_code,
}
use sienne.Token.Contents.{SecretGiven}
use sienne.Token.Issue.{MayUse}
use sienne.Token.Code.{exchange_authorization_code}
use sienne.Token.Code.Redeem.{exchange_authorization_code-Redeemed}
use sienne.Token.Refresh.{exchange_refresh_token}
use sienne.Token.Refresh.Rotation.{exchange_refresh_token-Refreshed}
use sienne.Token.Grants.{exchange_client_credentials, exchange_password, exchange_device_code}
use sienne.Token.Grants.Sound.{
  exchange_client_credentials-Minted, exchange_password-UserTokens, exchange_device_code-Polled,
}
use sienne.Token.Exchange.{exchange}

-- The client that the request names, which has proved itself and may use the request's grant.
pub record Authenticated {W : Type 0} (s : Service W) (input : Input) (w : W) : Type 0 where
  pub client : Client
  pub found : W
  pub looked :
      s.clients.find_by_client_id (trim_space input.client_id) w ≡ (ok (some client), found)
  pub may_use : MayUse client input.grant_type
  pub secret : SecretGiven s.passwords client.client_secret_hash input.client_secret

module _ {W : Type 0} (s : Service W) (input : Input) where
  authenticated :
      (grant : String) (w w₁ : W) (client : Client)
      → (input.grant_type == grant) ≡ true
      → s.clients.find_by_client_id (trim_space input.client_id) w ≡ (ok (some client), w₁)
      → MayUse client grant
      → SecretGiven s.passwords client.client_secret_hash input.client_secret
      → Authenticated s input w
  authenticated grant w w₁ client is_grant looked may secret = record {
    client = client;
    found = w₁;
    looked = looked;
    may_use = subst (MayUse client) (sym ((eq_iff _ _).0 is_grant)) may;
    secret = secret;
  }

  -- One test of the grant type.
  either :
      (t : Bool) (m n : Exec W Err Answer) (w v : W) (a : Answer)
      → (t ≡ true → m w ≡ (ok a, v) → Authenticated s input w)
      → (n w ≡ (ok a, v) → Authenticated s input w)
      → (if t then m else n) w ≡ (ok a, v)
      → Authenticated s input w
  either true m n w v a here there h = here refl h
  either false m n w v a here there h = there h

  from_code :
      (w v : W) (a : Answer)
      → (input.grant_type == grant_authorization_code) ≡ true
      → exchange_authorization_code s input w ≡ (ok a, v)
      → Authenticated s input w
  from_code w v a g h =
      let (client, w₁, looked, may, registered, secret, _) =
        exchange_authorization_code-Redeemed s input w v a h in
      authenticated _ w w₁ client g looked may secret

  from_refresh :
      (w v : W) (a : Answer)
      → (input.grant_type == grant_refresh_token) ≡ true
      → exchange_refresh_token s input w ≡ (ok a, v)
      → Authenticated s input w
  from_refresh w v a g h =
      let (client, w₁, looked, may, secret, _) = exchange_refresh_token-Refreshed s input w v a h in
      authenticated _ w w₁ client g looked may secret

  from_credentials :
      (w v : W) (a : Answer)
      → (input.grant_type == grant_client_credentials) ≡ true
      → exchange_client_credentials s input w ≡ (ok a, v)
      → Authenticated s input w
  from_credentials w v a g h =
      let (client, w₁, now, looked, may, secret, _, _, _, _) =
        exchange_client_credentials-Minted s input w v a h in
      authenticated _ w w₁ client g looked may secret

  from_password :
      (w v : W) (a : Answer)
      → (input.grant_type == grant_password) ≡ true
      → exchange_password s input w ≡ (ok a, v)
      → Authenticated s input w
  from_password w v a g h =
      let (client, user, w₁, w₂, now, looked, may, secret, _, _, _, _, _) =
        exchange_password-UserTokens s input w v a h in
      authenticated _ w w₁ client g looked may secret

  from_device :
      (w v : W) (a : Answer)
      → (input.grant_type == grant_device_code) ≡ true
      → exchange_device_code s input w ≡ (ok a, v)
      → Authenticated s input w
  from_device w v a g h =
      let (client, codes, w₁, looked, may, secret, _, _) =
        exchange_device_code-Polled s input w v a h in
      authenticated _ w w₁ client g looked may secret

  -- Whatever the grant type, tokens are given only to the active client that the request names, which
  -- is registered for the request's grant type and, where a secret is on file for it, has given one
  -- that the verifier accepts.
  pub exchange-Authenticated :
      (w v : W) (a : Answer) → exchange s input w ≡ (ok a, v) → Authenticated s input w
  unfolding exchange fail
  exchange-Authenticated w v a h =
      either _ _ _ w v a (from_code w v a)
        (either _ _ _ w v a (from_refresh w v a) (
          either _ _ _ w v a (from_credentials w v a) (
            either _ _ _ w v a (from_password w v a)
              (either _ _ _ w v a (from_device w v a) (λ k. cc)))))
        h
