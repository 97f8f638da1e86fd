-- ===== src/Tests/ClientAuth.antt =====
-- A client that authenticates by a Basic header.
use sienne.Base.{String, ◌≡◌, refl, Option, some, []}
use sienne.Base.Exec.{err, ◌>>=◌}
use sienne.Base.Text.{trim_space, to_lower}
use sienne.Token.{invalid_client}
use sienne.ClientAuth.{AuthenticateInput, AuthenticateResult, built_in, authenticate}
use sienne.Tests.World.{clients, passwords}

-- Base64 that stands for itself.
abbrev base64 : String → Option String
base64 = λ payload. some payload

abbrev input : AuthenticateInput
input = record { authorization_header = "Basic web:s3cret"; client_id = ""; client_secret = "" }

abbrev result : AuthenticateResult
result = record { client_id = "web"; client_secret = "s3cret"; method = "client_secret_basic" }

-- The client is registered for Basic, so that a secret in the body is refused.
refuses :
    authenticate
      (some clients)
      (built_in (some passwords) base64)
      base64
      (record { authorization_header = ""; client_id = "web"; client_secret = "s3cret" })
      []
    ≡ (err invalid_client, [])
unfolding authenticate built_in ◌>>=◌ trim_space to_lower
refuses = refl
