-- ===== src/Tests/World.antt =====
-- A small world for the tests: what was written, newest first, beside fixed entities and ports
-- that know them. Digests and hashes are the text itself, and the clock stands still.
use sienne.Base.{String, true, false, Option, none, some, List, [], ◌∷◌, ◌==◌, if◌then◌else◌}
use sienne.Base.Exec.{Result, ok}
use sienne.Base.Int.{ℤ, pos, ◌-ℤ◌}
use sienne.Base.Text.{join}
use sienne.Domain.{Client, Session, AuthorizationCode, User, RefreshToken}
use sienne.Ports.{
  ReplayResult, TokenCache, DeviceCodeEntry, DeviceCodes, Clients, Sessions, AuthorizationCodes,
  Users, Tokens, Clock, Json, Strconv, Passwords, Signer, Digest,
}

abbrev pub World : Type 0
World = List String

-- A write, which succeeds.
abbrev pub wrote : String → World → Result ⊥ (Unit {0}) × World
wrote what w = (ok tt, what ∷ w)

-- A read.
abbrev pub gives : {A : Type 0} → A → World → Result ⊥ A × World
gives a w = (ok a, w)

abbrev pub instant : ℤ
instant = pos 1_000_000_000_000

abbrev pub clock : Clock World
clock = record { now = λ w. (instant, w); time_until = λ t w. (t -ℤ instant, w) }

abbrev pub json : Json
json = record {
  marshal = λ xs. join " " xs;
  unmarshal = λ raw. some ("openid" ∷ "offline_access" ∷ []);
}

abbrev pub strconv : Strconv
strconv = record { format_int = λ n. "7"; parse_int = λ raw. some (pos 7) }

abbrev pub digest : Digest
digest = record { sha256_hex = λ x. x; sha256_base64url = λ x. x }

abbrev pub passwords : Passwords World
passwords = record { hash_password = gives; verify_password = λ presented hash. presented == hash }

abbrev pub signer : Signer World
signer = record { mint = λ claims. gives "jwt" }

abbrev pub client : Client
client = record {
  id = pos 3;
  client_id = "web";
  client_name = "Web";
  client_secret_hash = "s3cret";
  client_type = "confidential";
  token_endpoint_auth_method = "client_secret_basic";
  require_pkce = true;
  require_consent = true;
  access_token_ttl_seconds = pos 3600;
  refresh_token_ttl_seconds = pos 86400;
  id_token_ttl_seconds = pos 0;
  status = "active";
  redirect_uris = "https://web/cb" ∷ [];
  post_logout_redirect_uris = [];
  grant_types =
      "authorization_code" ∷ "refresh_token" ∷ "client_credentials" ∷ "password"
      ∷ "urn:ietf:params:oauth:grant-type:device_code" ∷ [];
  auth_methods = [];
  scopes = "openid" ∷ "offline_access" ∷ [];
  created_at = pos 0;
  updated_at = pos 0;
}

abbrev pub user : User
user = record {
  id = pos 7;
  user_uuid = "u-7";
  username = "ann";
  email = "ann@web";
  email_verified = true;
  display_name = "Ann";
  password_hash = "pass";
  role_code = "end_user";
  privilege_mask = 0;
  tenant_scope = "";
  status = "active";
  failed_login_count = pos 0;
  last_login_at = none;
  created_at = pos 0;
  updated_at = pos 0;
}

abbrev pub session : Session
session = record {
  id = pos 5;
  session_id = "sid";
  user_id = pos 7;
  subject = "u-7";
  acr = "";
  amr_json = "";
  ip_address = "";
  user_agent = "";
  authenticated_at = pos 0;
  expires_at = pos 2_000_000_000_000;
  logged_out_at = none;
  created_at = pos 0;
}

abbrev pub clients : Clients World
clients = record {
  find_by_client_id = λ id. gives (if id == "web" then some client else none);
  has_post_logout_redirect_uri = λ id uri. gives false;
  create_client = λ c. gives (pos 4);
  register_redirect_uris = λ id uris. gives (pos 0);
  register_post_logout_redirect_uris = λ id uris. gives (pos 0);
}

abbrev pub sessions : Sessions World
sessions = record {
  create = λ s. wrote "session";
  find_by_session_id = λ id. gives (if id == "sid" then some session else none);
  list_active_by_user_id = λ id. gives (some session ∷ []);
  logout_by_session_id = λ id at. wrote "logout";
  logout_all_by_user_id = λ id at. wrote "logout all";
}

abbrev pub code : AuthorizationCode
code = record {
  id = pos 11;
  code = "c0de";
  client_db_id = pos 3;
  user_id = pos 7;
  session_db_id = some (pos 5);
  redirect_uri = "https://web/cb";
  scopes_json = "openid offline_access";
  state_value = "st";
  nonce_value = "n";
  code_challenge = "proof";
  code_challenge_method = "S256";
  expires_at = pos 2_000_000_000_000;
  consumed_at = none;
  created_at = pos 0;
}

abbrev pub codes : AuthorizationCodes World
codes = record {
  create = λ c. wrote c.code;
  consume_by_code = λ c at w. (ok (if c == "c0de" then some code else none), "consumed" ∷ w);
}

abbrev pub users : Users World
users = record {
  create = λ u. gives (pos 8);
  find_by_id = λ id. gives (some user);
  find_by_user_uuid = λ id. gives (some user);
  find_by_email = λ email. gives (some user);
  list_by_role_code = λ role limit. gives [];
  count_by_role_code = λ role. gives (pos 0);
  update_role_and_privilege = λ id role mask tenant. wrote "role";
  unlock_account = λ id at. wrote "unlocked";
  increment_failed_login = λ id. gives (pos 1);
  reset_failed_login = λ id at. wrote "reset";
  find_by_username = λ name. gives (if name == "ann" then some user else none);
}

abbrev pub old : RefreshToken
old = record {
  id = pos 21;
  token_value = "r0";
  token_sha256 = "r0";
  client_id = pos 3;
  user_id = some (pos 7);
  subject = "u-7";
  scopes_json = "openid offline_access";
  issued_at = pos 0;
  expires_at = pos 2_000_000_000_000;
  revoked_at = none;
  replaced_by_token_id = none;
  created_at = pos 0;
}

abbrev pub tokens : Tokens World
tokens = record {
  create_access_token = λ t. wrote t.token_value;
  create_refresh_token = λ t. wrote t.token_value;
  find_active_access_token_by_sha256 = λ sha. gives none;
  find_active_refresh_token_by_sha256 = λ sha. gives (if sha == "r0" then some old else none);
  rotate_refresh_token = λ sha at t. wrote "rotated";
}

-- A token cache that answers every check of a replay alike.
abbrev pub token_cache : Option ReplayResult → TokenCache World
token_cache replay = record {
  save_access_token = λ entry ttl. wrote "cached access";
  get_access_token = λ sha. gives none;
  get_refresh_token = λ sha. gives none;
  is_access_token_revoked = λ sha. gives false;
  is_refresh_token_revoked = λ sha. gives false;
  save_refresh_token = λ entry ttl. wrote "cached refresh";
  check_refresh_token_replay = λ sha fingerprint. gives replay;
  rotate_refresh_token = λ sha entry response fingerprint ttl grace. wrote "cached rotation";
  revoke_access_token = λ sha ttl. wrote "revoked access";
  revoke_refresh_token = λ sha ttl. wrote "revoked refresh";
}

abbrev pub device_entry : DeviceCodeEntry
device_entry = record {
  device_code = "dev";
  user_code = "ABCD";
  client_id = "web";
  client_name = "Web";
  scopes_json = "openid offline_access";
  status = "approved";
  user_id = "7";
  subject = "u-7";
  expires_at = pos 2_000_000_000_000;
  approved_at = pos 0;
  denied_at = pos 0;
  consumed_at = pos 0;
  last_polled_at = pos 0;
  interval = pos 5;
}

abbrev pub device_codes : DeviceCodes World
device_codes = record {
  save = λ entry ttl. wrote "device";
  get_by_device_code = λ c. gives (if c == "dev" then some device_entry else none);
  get_by_user_code = λ c. gives (some device_entry);
  approve = λ c id subject at. wrote "approved";
  deny = λ c at. wrote "denied";
  mark_consumed = λ c at. wrote "device consumed";
  touch_poll = λ c at interval. gives true;
}
