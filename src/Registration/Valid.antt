-- ===== src/Registration/Valid.antt =====
-- The clients that service.go of internal/application/client registers.
use sienne.Base.{◌≤◌, String, ◌≡◌, ◌≢◌, true, []}
use sienne.Base.Int.{pos, ◌<ℤ◌}
use sienne.Base.Text.{trim_space}
use sienne.Domain.{Client}
use sienne.Base.Text.{characters, AllChars}
use sienne.Scopes.Laws.{In}
use sienne.Registration.{
  CreateClientInput, CreateClientResult, Service, supported_grant_types, is_id_char,
}
use sienne.Registration.Kinds.{AreDistinct, IsScopeName, IsRedirectUri, IsKind}

abbrev pub IsClientId : String → Type 0
IsClientId s = (3 ≤ characters s) × (characters s ≤ 128) × AllChars (λ c. is_id_char c ≡ true) s

module _ {W : Type 0} (s : Service W) (input : CreateClientInput) where
  -- The client that is stored: its settings, its lists and its lifetimes fit together.
  pub record IsFit (c : Client) : Type 0 where
    pub kind : IsKind s c (trim_space input.client_secret)
    pub grants : AreDistinct (λ g. In g supported_grant_types) c.grant_types
    pub some_grant : c.grant_types ≢ []
    pub refresh_has_code : In "refresh_token" c.grant_types → In "authorization_code" c.grant_types
    pub machine : In "client_credentials" c.grant_types → c.client_type ≡ "confidential"
    pub scopes : AreDistinct IsScopeName c.scopes
    pub some_scope : c.scopes ≢ []
    pub redirects : AreDistinct (IsRedirectUri s.parse_request_uri) c.redirect_uris
    pub has_redirect : In "authorization_code" c.grant_types → c.redirect_uris ≢ []
    pub post_logout : AreDistinct (IsRedirectUri s.parse_request_uri) c.post_logout_redirect_uris
    pub access_ttl : pos 0 <ℤ c.access_token_ttl_seconds
    pub refresh_ttl : In "refresh_token" c.grant_types → pos 0 <ℤ c.refresh_token_ttl_seconds
    pub id_ttl : In "authorization_code" c.grant_types → pos 0 <ℤ c.id_token_ttl_seconds

  -- The answer repeats the client.
  pub record Repeats (c : Client) (a : CreateClientResult) : Type 0 where
    pub client_id : a.client_id ≡ c.client_id
    pub client_name : a.client_name ≡ c.client_name
    pub client_type : a.client_type ≡ c.client_type
    pub auth_method : a.token_endpoint_auth_method ≡ c.token_endpoint_auth_method
    pub pkce : a.require_pkce ≡ c.require_pkce
    pub consent : a.require_consent ≡ c.require_consent
    pub grants : a.grant_types ≡ c.grant_types
    pub scopes : a.scopes ≡ c.scopes
    pub redirects : a.redirect_uris ≡ c.redirect_uris
    pub post_logout : a.post_logout_redirect_uris ≡ c.post_logout_redirect_uris
    pub status : a.status ≡ c.status
