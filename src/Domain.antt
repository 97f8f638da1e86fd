-- ===== src/Domain.antt =====
-- The entities of idp-server/internal/domain. An instant is its number of nanoseconds, an int64
-- or int is an integer, and a pointer that may be nil is an `Option`.
use sienne.Base.{ℕ, String, ◌≡◌, Bool, Option, none, some, List, arith, ◌==◌, eq_iff, if◌then◌else◌}
use sienne.Base.Int.{ℤ, pos, negsuc, ltb_ℤ, ◌<ℤ◌}

-- domain/client
pub record Client : Type 0 where
  pub id : ℤ
  pub client_id : String
  pub client_name : String
  pub client_secret_hash : String
  pub client_type : String
  pub token_endpoint_auth_method : String
  pub require_pkce : Bool
  pub require_consent : Bool
  pub access_token_ttl_seconds : ℤ
  pub refresh_token_ttl_seconds : ℤ
  pub id_token_ttl_seconds : ℤ
  pub status : String
  pub redirect_uris : List String
  pub post_logout_redirect_uris : List String
  pub grant_types : List String
  pub auth_methods : List String
  pub scopes : List String
  pub created_at : ℤ
  pub updated_at : ℤ

-- domain/session
pub record Session : Type 0 where
  pub id : ℤ
  pub session_id : String
  pub user_id : ℤ
  pub subject : String
  pub acr : String
  pub amr_json : String
  pub ip_address : String
  pub user_agent : String
  pub authenticated_at : ℤ
  pub expires_at : ℤ
  pub logged_out_at : Option ℤ
  pub created_at : ℤ

-- domain/authorization
pub record AuthorizationCode : Type 0 where
  pub id : ℤ
  pub code : String
  pub client_db_id : ℤ
  pub user_id : ℤ
  pub session_db_id : Option ℤ
  pub redirect_uri : String
  pub scopes_json : String
  pub state_value : String
  pub nonce_value : String
  pub code_challenge : String
  pub code_challenge_method : String
  pub expires_at : ℤ
  pub consumed_at : Option ℤ
  pub created_at : ℤ

-- domain/user
pub record User : Type 0 where
  pub id : ℤ
  pub user_uuid : String
  pub username : String
  pub email : String
  pub email_verified : Bool
  pub display_name : String
  pub password_hash : String
  pub role_code : String
  pub privilege_mask : ℕ
  pub tenant_scope : String
  pub status : String
  pub failed_login_count : ℤ
  pub last_login_at : Option ℤ
  pub created_at : ℤ
  pub updated_at : ℤ

-- domain/token
pub record AccessToken : Type 0 where
  pub id : ℤ
  pub token_value : String
  pub token_sha256 : String
  pub client_id : ℤ
  pub user_id : Option ℤ
  pub subject : String
  pub audience_json : String
  pub scopes_json : String
  pub token_type : String
  pub token_format : String
  pub issued_at : ℤ
  pub expires_at : ℤ
  pub revoked_at : Option ℤ
  pub created_at : ℤ

pub record RefreshToken : Type 0 where
  pub id : ℤ
  pub token_value : String
  pub token_sha256 : String
  pub client_id : ℤ
  pub user_id : Option ℤ
  pub subject : String
  pub scopes_json : String
  pub issued_at : ℤ
  pub expires_at : ℤ
  pub revoked_at : Option ℤ
  pub replaced_by_token_id : Option ℤ
  pub created_at : ℤ

-- domain/operatorrole
pub record OperatorRole : Type 0 where
  pub id : ℤ
  pub role_code : String
  pub display_name : String
  pub description : String
  pub privilege_mask : ℕ  -- uint32
  pub is_system : Bool
  pub created_at : ℤ
  pub updated_at : ℤ

-- domain/totp
pub record Totp : Type 0 where
  pub id : ℤ
  pub user_id : ℤ
  pub secret : String
  pub enabled_at : ℤ
  pub created_at : ℤ
  pub updated_at : ℤ

-- time.Time{}, the first instant of year 1.
abbrev pub zero_time : ℤ
zero_time = negsuc 62135596799999999999

-- `client == nil || client.Status != "active"` fails.
unfoldable pub active_client : Option Client → Option Client
active_client none = none
active_client (some c) = if c.status == "active" then some c else none

pub active_client-eq-some :
    (found : Option Client) (client : Client)
    → active_client found ≡ some client
    → (found ≡ some client) × (client.status ≡ "active")
unfolding active_client
active_client-eq-some none client h = cc
active_client-eq-some (some c) client h = ground (arith, eq_iff c.status "active")

-- `err == nil && userID > 0` after strconv.ParseInt; `none` is an error.
unfoldable pub positive : Option ℤ → Option ℤ
positive none = none
positive (some n) = if ltb_ℤ (pos 0) n then some n else none

pub positive-eq-some : (o : Option ℤ) (n : ℤ) → positive o ≡ some n → (o ≡ some n) × (pos 0 <ℤ n)
unfolding positive
positive-eq-some none n h = cc
positive-eq-some (some m) n h = (ground arith, ground arith)

pub record Link : Type 0 where
  pub id : ℤ
  pub code : String
  pub target_url : String
  pub click_count : ℤ
  pub expires_at : Option ℤ
  pub last_access_at : Option ℤ
  pub created_at : ℤ
  pub updated_at : ℤ
