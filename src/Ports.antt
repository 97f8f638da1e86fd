-- ===== src/Ports.antt =====
-- The interfaces of idp-server/internal/ports that the modelled services call: what stands
-- behind them (MySQL, Redis, the key store) is not code of the services, so each is a record of
-- actions on a world `W` and a parameter of the services. A method that cannot fail is a function
-- of the world. An entry that a method may not find is an `Option`.
use sienne.Base.{ℕ, String, Bool, Option, List}
use sienne.Base.Int.{ℤ}
use sienne.Base.Exec.{Exec, Port}
use sienne.Domain.{
  Client, Session, AuthorizationCode, User, AccessToken, RefreshToken, OperatorRole, Totp, Link,
}

-- ports/cache/session_cache_repository.go
pub record SessionCacheEntry : Type 0 where
  pub session_id : String
  pub user_id : String
  pub subject : String
  pub acr : String
  pub amr_json : String
  pub ip_address : String
  pub user_agent : String
  pub authenticated_at : ℤ
  pub expires_at : ℤ
  pub status : String
  pub state_mask : ℕ  -- uint32
  pub state_version : ℕ  -- uint32

pub record SessionCache (W : Type 0) : Type 0 where
  pub save : SessionCacheEntry → ℤ → Port W (Unit {0})
  pub get : String → Port W (Option SessionCacheEntry)
  pub delete : String → Port W (Unit {0})
  pub add_user_session_index : String → String → ℤ → Port W (Unit {0})
  pub list_user_session_ids : String → Port W (List String)
  pub remove_user_session_index : String → String → Port W (Unit {0})

-- ports/cache/token_cache_repository.go
pub data ReplayStatus : Type 0 where
  replay_none replay_grace replay_rejected : ReplayStatus

pub record TokenResponse : Type 0 where
  pub access_token : String
  pub token_type : String
  pub expires_in : ℤ
  pub refresh_token : String
  pub scope : String
  pub id_token : String

pub record ReplayResult : Type 0 where
  pub status : ReplayStatus
  pub response : Option TokenResponse

pub record AccessTokenEntry : Type 0 where
  pub token_sha256 : String
  pub client_id : String
  pub user_id : String
  pub subject : String
  pub scopes_json : String
  pub audience_json : String
  pub token_type : String
  pub token_format : String
  pub issued_at : ℤ
  pub expires_at : ℤ

pub record RefreshTokenEntry : Type 0 where
  pub token_sha256 : String
  pub client_id : String
  pub user_id : String
  pub subject : String
  pub scopes_json : String
  pub family_id : String
  pub issued_at : ℤ
  pub expires_at : ℤ

pub record TokenCache (W : Type 0) : Type 0 where
  pub save_access_token : AccessTokenEntry → ℤ → Port W (Unit {0})
  pub get_access_token : String → Port W (Option AccessTokenEntry)
  pub save_refresh_token : RefreshTokenEntry → ℤ → Port W (Unit {0})
  pub get_refresh_token : String → Port W (Option RefreshTokenEntry)
  pub check_refresh_token_replay : String → String → Port W (Option ReplayResult)
  pub rotate_refresh_token :
      String → RefreshTokenEntry → TokenResponse → String → ℤ → ℤ → Port W (Unit {0})
  pub revoke_access_token : String → ℤ → Port W (Unit {0})
  pub revoke_refresh_token : String → ℤ → Port W (Unit {0})
  pub is_access_token_revoked : String → Port W Bool
  pub is_refresh_token_revoked : String → Port W Bool

-- ports/cache/device_code_repository.go
pub record DeviceCodeEntry : Type 0 where
  pub device_code : String
  pub user_code : String
  pub client_id : String
  pub client_name : String
  pub scopes_json : String
  pub status : String
  pub user_id : String
  pub subject : String
  pub expires_at : ℤ
  pub approved_at : ℤ
  pub denied_at : ℤ
  pub consumed_at : ℤ
  pub last_polled_at : ℤ
  pub interval : ℤ

pub record DeviceCodes (W : Type 0) : Type 0 where
  pub save : DeviceCodeEntry → ℤ → Port W (Unit {0})
  pub get_by_device_code : String → Port W (Option DeviceCodeEntry)
  pub get_by_user_code : String → Port W (Option DeviceCodeEntry)
  pub approve : String → String → String → ℤ → Port W (Unit {0})
  pub deny : String → ℤ → Port W (Unit {0})
  pub mark_consumed : String → ℤ → Port W (Unit {0})
  pub touch_poll : String → ℤ → ℤ → Port W Bool

-- ports/cache/mfa_repository.go
pub record TotpEnrollmentEntry : Type 0 where
  pub session_id : String
  pub user_id : String
  pub secret : String
  pub provisioning_uri : String
  pub expires_at : ℤ

pub record MfaChallengeEntry : Type 0 where
  pub challenge_id : String
  pub user_id : String
  pub subject : String
  pub username : String
  pub ip_address : String
  pub user_agent : String
  pub return_to : String
  pub redirect_uri : String
  pub mfa_mode : String
  pub push_status : String
  pub push_code : String
  pub approver_user_id : String
  pub decided_at : ℤ
  pub passkey_session_json : String
  pub expires_at : ℤ
  pub state_mask : ℕ  -- uint32
  pub state_version : ℕ  -- uint32

pub record MfaCache (W : Type 0) : Type 0 where
  pub save_totp_enrollment : TotpEnrollmentEntry → ℤ → Port W (Unit {0})
  pub get_totp_enrollment : String → Port W (Option TotpEnrollmentEntry)
  pub delete_totp_enrollment : String → Port W (Unit {0})
  pub reserve_totp_step_use : String → String → ℤ → ℤ → Port W Bool
  pub save_mfa_challenge : MfaChallengeEntry → ℤ → Port W (Unit {0})
  pub get_mfa_challenge : String → Port W (Option MfaChallengeEntry)
  pub delete_mfa_challenge : String → Port W (Unit {0})

-- ports/cache/rate_limit_repository.go
pub record RateLimitResult : Type 0 where
  pub count : ℤ
  pub locked : Bool

pub record RateLimit (W : Type 0) : Type 0 where
  pub increment_login_fail_by_user : String → String → ℤ → ℤ → ℤ → Port W (Option RateLimitResult)
  pub increment_login_fail_by_ip : String → ℤ → ℤ → ℤ → Port W (Option RateLimitResult)
  pub get_login_fail_by_user : String → Port W ℤ
  pub get_login_fail_by_ip : String → Port W ℤ
  pub reset_login_fail_by_user : String → Port W (Unit {0})
  pub reset_login_fail_by_ip : String → Port W (Unit {0})
  pub increment_blacklist_by_user : String → String → ℤ → Port W (Option RateLimitResult)
  pub reset_blacklist_by_user : String → Port W (Unit {0})
  pub set_user_lock : String → ℤ → Port W (Unit {0})
  pub is_user_locked : String → Port W Bool
  pub clear_user_lock : String → Port W (Unit {0})
  pub is_ip_locked : String → Port W Bool
  pub clear_ip_lock : String → Port W (Unit {0})

-- ports/repository. Where a caller uses the id that a method writes into its argument, the method
-- returns it.
pub record Clients (W : Type 0) : Type 0 where
  pub find_by_client_id : String → Port W (Option Client)
  pub has_post_logout_redirect_uri : ℤ → String → Port W Bool
  pub create_client : Client → Port W ℤ
  pub register_redirect_uris : ℤ → List String → Port W ℤ
  pub register_post_logout_redirect_uris : ℤ → List String → Port W ℤ

pub record Sessions (W : Type 0) : Type 0 where
  pub create : Session → Port W (Unit {0})
  pub find_by_session_id : String → Port W (Option Session)
  pub list_active_by_user_id : ℤ → Port W (List (Option Session))
  pub logout_by_session_id : String → ℤ → Port W (Unit {0})
  pub logout_all_by_user_id : ℤ → ℤ → Port W (Unit {0})

pub record Consents (W : Type 0) : Type 0 where
  pub has_active_consent : ℤ → ℤ → List String → Port W Bool
  pub upsert_active_consent : ℤ → ℤ → List String → ℤ → Port W (Unit {0})

pub record AuthorizationCodes (W : Type 0) : Type 0 where
  pub create : AuthorizationCode → Port W (Unit {0})
  pub consume_by_code : String → ℤ → Port W (Option AuthorizationCode)

pub record Users (W : Type 0) : Type 0 where
  pub create : User → Port W ℤ
  pub find_by_id : ℤ → Port W (Option User)
  pub find_by_user_uuid : String → Port W (Option User)
  pub find_by_email : String → Port W (Option User)
  pub find_by_username : String → Port W (Option User)
  pub list_by_role_code : String → ℤ → Port W (List (Option User))
  pub count_by_role_code : String → Port W ℤ
  pub update_role_and_privilege : ℤ → String → ℕ → String → Port W (Unit {0})
  pub unlock_account : ℤ → ℤ → Port W (Unit {0})
  pub increment_failed_login : ℤ → Port W ℤ
  pub reset_failed_login : ℤ → ℤ → Port W (Unit {0})

pub record Tokens (W : Type 0) : Type 0 where
  pub create_access_token : AccessToken → Port W (Unit {0})
  pub create_refresh_token : RefreshToken → Port W (Unit {0})
  pub find_active_access_token_by_sha256 : String → Port W (Option AccessToken)
  pub find_active_refresh_token_by_sha256 : String → Port W (Option RefreshToken)
  pub rotate_refresh_token : String → ℤ → RefreshToken → Port W (Unit {0})

pub record OperatorRoles (W : Type 0) : Type 0 where
  pub upsert : OperatorRole → Port W (Unit {0})
  pub create : OperatorRole → Port W (Unit {0})
  pub update : OperatorRole → Port W (Unit {0})
  pub delete_by_role_code : String → Port W (Unit {0})
  pub find_by_role_code : String → Port W (Option OperatorRole)
  pub list : Port W (List (Option OperatorRole))

pub record Totps (W : Type 0) : Type 0 where
  pub find_by_user_id : ℤ → Port W (Option Totp)
  pub upsert : Totp → Port W (Unit {0})
  pub delete_by_user_id : ℤ → Port W (Unit {0})

-- ports/security/totp.go
pub record TotpProvider (W : Type 0) : Type 0 where
  pub generate_secret : Port W String
  pub provisioning_uri : String → String → String → String
  pub verify_code : String → String → ℤ → Bool
  pub verify_code_with_step : String → String → ℤ → Bool × ℤ

-- The clock: time.Now().UTC(), and time.Until.
pub record Clock (W : Type 0) : Type 0 where
  pub now : W → ℤ × W
  pub time_until : ℤ → W → ℤ × W

-- encoding/json on a list of texts.
pub record Json : Type 0 where
  pub marshal : List String → String
  pub unmarshal : String → Option (List String)

-- strconv.FormatInt and strconv.ParseInt in base 10 and 64 bits; `none` is an error.
pub record Strconv : Type 0 where
  pub format_int : ℤ → String
  pub parse_int : String → Option ℤ

-- ports/security/password_verifier.go; `verify` says whether VerifyPassword returns nil.
pub record Passwords (W : Type 0) : Type 0 where
  pub hash_password : String → Port W String
  pub verify_password : String → String → Bool

-- ports/security/signer.go: a claim is a text, a list of texts, a number or a flag.
pub data Claim : Type 0 where
  text : String → Claim
  texts : List String → Claim
  number : ℤ → Claim
  flag : Bool → Claim

pub record Signer (W : Type 0) : Type 0 where
  pub mint : List (String × Claim) → Port W String

-- crypto/sha256 in hexadecimal, and in unpadded URL base64 as PKCE's S256 has it.
pub record Digest : Type 0 where
  pub sha256_hex : String → String
  pub sha256_base64url : String → String

-- ErrDuplicate of the repositories.
pub data Duplicate : Type 0 where
  duplicate : Duplicate

pub record ShortUrls (W : Type 0) : Type 0 where
  pub create : Link → Exec W Duplicate (Unit {0})
  pub find_active_by_code : String → Port W (Option Link)
  pub increment_click : ℤ → Port W (Unit {0})
