-- ===== src/ClientAuth/Proof.antt =====
-- What a client has proved when it is authenticated.
use sienne.Base.{String, ◌≡◌, ◌⊎◌, true, Option, some}
use sienne.Base.Exec.{ok}
use sienne.Domain.{Client}
use sienne.Ports.{Clients, Passwords}
use sienne.Token.{verifies}
use sienne.ClientAuth.{
  AuthenticateInput, AuthenticateResult, Authenticator, extract_client_id,
  normalize_client_auth_method, authenticate,
}

module _ {W : Type 0} (passwords : Option (Passwords W)) where
  -- The result names the method that was asked for, and holds a secret that was verified, or none is
  -- needed.
  abbrev pub Proves : Client → String → AuthenticateResult → Type 0
  Proves client method r =
      (r.method ≡ method)
      × ((r.method ≡ "none")
          ⊎ (verifies passwords r.client_secret client.client_secret_hash ≡ true))

  -- A method of the registry that proves what its name says.
  abbrev Sound : Authenticator → Type 0
  Sound m =
      (client : Client) (input : AuthenticateInput) (r : AuthenticateResult)
      → m.authenticate client input ≡ some r
      → Proves client m.method r

-- A client that was authenticated, and how.
pub record Authenticated {W : Type 0} (passwords : Option (Passwords W))
    (clients : Option (Clients W)) (base64 : String → Option String) (input : AuthenticateInput)
    (w v : W) (r : AuthenticateResult) : Type 0 where
  pub repository : Clients W
  pub client : Client
  pub configured : clients ≡ some repository
  pub looked :
      repository.find_by_client_id
        (extract_client_id base64 input.authorization_header input.client_id)
        w
      ≡ (ok (some client), v)
  pub active : client.status ≡ "active"
  pub same_id : r.client_id ≡ client.client_id
  pub proves :
      Proves passwords client
        (normalize_client_auth_method client.token_endpoint_auth_method client.auth_methods)
        r
