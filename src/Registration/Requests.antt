-- ===== src/Registration/Requests.antt =====
-- The requests to service.go of internal/application/client.
use sienne.Base.{
  String, Bool, true, false, not, ◌&&◌, ◌||◌, Option, none, some, List, [], ◌∷◌, ◌==◌, leb, length,
}
use sienne.Base.Exec.{give, Exec, Port, pure, fail, call, guard, require, ◌>>=◌, ◌>>◌}
use sienne.Base.Int.{ℤ, pos, ◌-ℤ◌}
use sienne.Base.Text.{trim_space, is_blank}
use sienne.Domain.{active_client, zero_time, Client}
use sienne.Ports.{Passwords}
use sienne.Base.Text.{byte_length}
use sienne.Scopes.{contains}
use sienne.Registration.{
  Err, invalid_client_id, client_id_already_exists, client_not_found, invalid_client_name,
  invalid_client_secret, invalid_redirect_uri, invalid_client_config, CreateClientInput,
  CreateClientResult, RegisterUrisInput, RegisterUrisResult, ValidateUriInput, ValidateUriResult,
  Service, Settings, client_id_pattern, normalize_grant_types, normalize_client_scopes,
  normalize_redirect_uris, normalize_client_redirect_uris, normalize_optional_redirect_uris,
  normalize_ttl, normalize_refresh_ttl, normalize_id_token_ttl, normalize_status,
  normalize_client_settings,
}

module _ {W : Type 0} (s : Service W) where
  unfoldable pub secret_hash_by : Option (Passwords W) → String → Exec W Err String
  secret_hash_by none secret = fail invalid_client_secret
  secret_hash_by (some passwords) secret = call (passwords.hash_password secret)

  -- The secret of a client that has one, or the absence of one.
  unfoldable pub secret_for : Bool → String → Exec W Err String
  unfolding secret_hash_by byte_length
  secret_for true secret = do guard (is_blank secret) invalid_client_secret; pure ""
  secret_for false secret = do
    guard (leb 8 (byte_length secret) && leb (byte_length secret) 128) invalid_client_secret
    secret_hash_by s.passwords secret

  unfoldable pub normalize_client_secret : String → String → String → Exec W Err String
  unfolding secret_for
  normalize_client_secret client_type method secret =
      secret_for (client_type == "public" || method == "none") secret

  unfoldable pub new_client :
      CreateClientInput
      → Settings
      → List String
      → List String
      → List String
      → List String
      → String
      → Client
  unfolding normalize_ttl normalize_refresh_ttl normalize_id_token_ttl normalize_status
  new_client input settings grant_types scopes redirects post_logout hash = record {
    id = pos 0;
    client_id = trim_space input.client_id;
    client_name = trim_space input.client_name;
    client_secret_hash = hash;
    client_type = settings.client_type;
    token_endpoint_auth_method = settings.auth_method;
    require_pkce = settings.require_pkce;
    require_consent = settings.require_consent;
    access_token_ttl_seconds = normalize_ttl input.access_token_ttl_seconds (pos 3600);
    refresh_token_ttl_seconds = normalize_refresh_ttl input.refresh_token_ttl_seconds grant_types;
    id_token_ttl_seconds = normalize_id_token_ttl input.id_token_ttl_seconds grant_types;
    status = normalize_status input.status;
    redirect_uris = redirects;
    post_logout_redirect_uris = post_logout;
    grant_types = grant_types;
    auth_methods = settings.auth_method ∷ [];
    scopes = scopes;
    created_at = zero_time;
    updated_at = zero_time;
  }

  unfoldable pub create_result : Client → CreateClientResult
  create_result model = record {
    client_id = model.client_id;
    client_name = model.client_name;
    client_type = model.client_type;
    token_endpoint_auth_method = model.token_endpoint_auth_method;
    require_pkce = model.require_pkce;
    require_consent = model.require_consent;
    access_token_ttl_seconds = model.access_token_ttl_seconds;
    refresh_token_ttl_seconds = model.refresh_token_ttl_seconds;
    id_token_ttl_seconds = model.id_token_ttl_seconds;
    grant_types = model.grant_types;
    auth_methods = model.auth_methods;
    scopes = model.scopes;
    redirect_uris = model.redirect_uris;
    post_logout_redirect_uris = model.post_logout_redirect_uris;
    status = model.status;
  }

  -- From the lists on, for a client whose settings are normal.
  unfoldable pub store_client : CreateClientInput → Settings → Exec W Err CreateClientResult
  unfolding normalize_grant_types normalize_client_scopes normalize_client_redirect_uris
      normalize_optional_redirect_uris normalize_client_secret new_client create_result
  store_client input settings = do
    grant_types ← give (normalize_grant_types input.grant_types)
    guard
        (settings.client_type == "confidential" || not (contains grant_types "client_credentials"))
        invalid_client_config
    scopes ← give (normalize_client_scopes input.scopes)
    redirects ←
        give (normalize_client_redirect_uris s.parse_request_uri input.redirect_uris grant_types)
    post_logout ←
        give (normalize_optional_redirect_uris s.parse_request_uri input.post_logout_redirect_uris)
    hash ←
        normalize_client_secret settings.client_type settings.auth_method
          (trim_space input.client_secret)
    let model = new_client input settings grant_types scopes redirects post_logout hash
    id ← call (s.clients.create_client model)
    pure (create_result model)

  unfoldable pub is_unknown : Option Client → Bool
  is_unknown none = true
  is_unknown (some existing) = false

  unfoldable pub create_client : CreateClientInput → Exec W Err CreateClientResult
  unfolding client_id_pattern byte_length is_unknown normalize_client_settings store_client
  create_client input = do
    let client_id = trim_space input.client_id
    let name = byte_length (trim_space input.client_name)
    guard (client_id_pattern client_id) invalid_client_id
    guard (leb 2 name && leb name 128) invalid_client_name
    existing ← call (s.clients.find_by_client_id client_id)
    guard (is_unknown existing) client_id_already_exists
    settings ← give (normalize_client_settings input)
    store_client input settings

  register_with : (ℤ → List String → Port W ℤ) → RegisterUrisInput → Exec W Err RegisterUrisResult
  unfolding normalize_redirect_uris ◌-ℤ◌
  register_with register input = do
    guard (not (is_blank (trim_space input.client_id))) invalid_client_id
    uris ← give (normalize_redirect_uris s.parse_request_uri input.redirect_uris)
    found ← call (s.clients.find_by_client_id (trim_space input.client_id))
    model ← require found client_not_found
    inserted ← call (register model.id uris)
    pure (record {
      client_id = model.client_id;
      client_name = model.client_name;
      redirect_uris = uris;
      registered_count = inserted;
      skipped_count = pos (length uris) -ℤ inserted;
    })

  unfoldable pub register_redirect_uris : RegisterUrisInput → Exec W Err RegisterUrisResult
  unfolding register_with
  register_redirect_uris input = register_with s.clients.register_redirect_uris input

  unfoldable pub register_post_logout_redirect_uris :
      RegisterUrisInput → Exec W Err RegisterUrisResult
  unfolding register_with
  register_post_logout_redirect_uris input =
      register_with s.clients.register_post_logout_redirect_uris input

  unfoldable pub validate_post_logout_redirect_uri : ValidateUriInput → Exec W Err ValidateUriResult
  unfolding active_client
  validate_post_logout_redirect_uri input = do
    let client_id = trim_space input.client_id
    let redirect_uri = trim_space input.redirect_uri
    guard (not (is_blank client_id || is_blank redirect_uri)) invalid_redirect_uri
    found ← call (s.clients.find_by_client_id client_id)
    model ← require (active_client found) client_not_found
    registered ← call (s.clients.has_post_logout_redirect_uri model.id redirect_uri)
    guard registered invalid_redirect_uri
    pure (record {
      client_id = model.client_id;
      client_name = model.client_name;
      redirect_uri = redirect_uri;
    })
