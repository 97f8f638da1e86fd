-- ===== src/Tests/Registration.antt =====
-- The registration of a client, and a witness for its theorem.
use sienne.Base.{true, false, none, some, [], ◌∷◌}
use sienne.Base.Int.{pos}
use sienne.Registration.{CreateClientInput, CreateClientResult, Service}
use sienne.Tests.World.{World, clients, passwords}

abbrev service : Service World
service = record {
  clients = clients;
  passwords = some passwords;
  parse_request_uri = λ uri. some (record { scheme = "https"; fragment = "" });
}

abbrev input : CreateClientInput
input = record {
  client_id = " app.1 ";
  client_name = "App";
  client_secret = "longsecret";
  client_type = "";
  token_endpoint_auth_method = "";
  require_pkce = none;
  require_consent = some false;
  access_token_ttl_seconds = pos 0;
  refresh_token_ttl_seconds = pos 0;
  id_token_ttl_seconds = pos 0;
  grant_types = "Authorization_Code" ∷ "refresh_token" ∷ "refresh_token" ∷ [];
  scopes = "openid" ∷ " " ∷ [];
  redirect_uris = "https://app/cb" ∷ [];
  post_logout_redirect_uris = [];
  status = "";
}

abbrev result : CreateClientResult
result = record {
  client_id = "app.1";
  client_name = "App";
  client_type = "confidential";
  token_endpoint_auth_method = "client_secret_basic";
  require_pkce = true;
  require_consent = false;
  access_token_ttl_seconds = pos 3600;
  refresh_token_ttl_seconds = pos 2592000;
  id_token_ttl_seconds = pos 3600;
  grant_types = "authorization_code" ∷ "refresh_token" ∷ [];
  auth_methods = "client_secret_basic" ∷ [];
  scopes = "openid" ∷ [];
  redirect_uris = "https://app/cb" ∷ [];
  post_logout_redirect_uris = [];
  status = "active";
}
