-- ===== src/Tests/Logout.antt =====
-- A user's logout, and a witness for its theorem.
use sienne.Base.{◌≡◌, refl, none, some, [], ◌∷◌}
use sienne.Base.Exec.{ok, ◌>>=◌}
use sienne.Base.Int.{ℤ, pos}
use sienne.Base.Text.{trim_space}
use sienne.Domain.{AccessToken}
use sienne.Ports.{SessionCache}
use sienne.Base.Int.{sub_time}
use sienne.Logout.{
  LogoutAllResult, TokenRevoker, Service, logout_user, delete_all, collect_user_session_ids,
  revoke_user_tokens,
}
use sienne.Logout.Complete.{LoggedOut, logout_user-LoggedOut}
use sienne.Tests.World.{World, wrote, gives, clock, strconv, sessions, token_cache}

abbrev cache : SessionCache World
cache = record {
  save = λ entry ttl. wrote "cached session";
  get = λ id. gives none;
  delete = λ id. wrote id;
  add_user_session_index = λ user id ttl. wrote "index";
  list_user_session_ids = λ user. gives ("sid" ∷ " other" ∷ "" ∷ []);
  remove_user_session_index = λ user id. wrote "index";
}

abbrev token : ℤ → AccessToken
token expires_at = record {
  id = pos 1;
  token_value = "jwt";
  token_sha256 = "jwt";
  client_id = pos 3;
  user_id = some (pos 7);
  subject = "u-7";
  audience_json = "";
  scopes_json = "";
  token_type = "Bearer";
  token_format = "jwt";
  issued_at = pos 0;
  expires_at = expires_at;
  revoked_at = none;
  created_at = pos 0;
}

abbrev tokens : TokenRevoker World
tokens = record {
  list_active_access_tokens_by_user_id =
      λ id. gives (some (token (pos 0)) ∷ none ∷ some (token (pos 2_000_000_000_000)) ∷ []);
  list_active_refresh_tokens_by_user_id = λ id. gives [];
  revoke_access_tokens_by_user_id = λ id at. wrote "access";
  revoke_refresh_tokens_by_user_id = λ id at. wrote "refresh";
}

abbrev service : Service World
service = record {
  sessions = sessions;
  session_cache = some cache;
  tokens = some tokens;
  token_cache = some (token_cache none);
  clock = clock;
  strconv = strconv;
}

abbrev result : LogoutAllResult
result = record {
  session_id = "sid";
  user_id = "7";
  revoked_session_count = 2;
  revoked_access_tokens = 3;
  revoked_refresh_tokens = 0;
}

abbrev after : World
after = "revoked access" ∷ "refresh" ∷ "access" ∷ "other" ∷ "sid" ∷ "logout all" ∷ []

logged_out : logout_user service (pos 7) "sid" [] ≡ (ok result, after)
unfolding logout_user ◌>>=◌ collect_user_session_ids delete_all revoke_user_tokens trim_space
    sub_time
logged_out = refl

logout_user-LoggedOut_example : LoggedOut service (pos 7) "sid" [] after result
logout_user-LoggedOut_example =
    logout_user-LoggedOut service (pos 7) "sid" [] after result logged_out
