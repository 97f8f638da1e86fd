-- ===== src/Registration.antt =====
-- internal/application/client: the registration of clients and of their redirect URIs. The length
-- of a text is that of its UTF-8 form, the keys of a Go map are a list, and a Go slice that is nil
-- is the empty list.
pub mod Requests
pub mod Values
pub mod Kinds
pub mod Valid
use Prim.Native.Char.{Char, code}
use Prim.Native.String
use sienne.Base.{
  ℕ, zero, suc, ◌+◌, ◌-◌, ◌*◌, ◌/◌, ◌%◌, ◌^◌, ◌≤◌, ◌<◌, String, ◌≡◌, refl, sym, ap, subst, ◌∙◌, ◌≢◌,
  ◌↔◌, ◌⊎◌, inl, inr, Bool, true, false, not, ◌&&◌, ◌||◌, Option, none, some, List, [], ◌∷◌, ◌++◌,
  map, arith, ◌==◌, eq_iff, eq_refl, ltb, leb, nat_eq, nat_eq_iff, if◌then◌else◌, Bool-cases,
  Option-cases, length, length-append, All, All-append, Any,
}
use sienne.Base.Exec.{
  give, caught, Fault, no_rows, other, Result, ok, err, fault, Exec, Port, pure, fail, raise, call,
  always, ignore, guard, require, ◌>>=◌, ◌>>◌,
}
use sienne.Base.Int.{
  ℤ, pos, negsuc, pos_part, neg_part, sub_ℕ, ◌+ℤ◌, ◌-ℤ◌, ◌*ℤ◌, ◌<ℤ◌, ltb_ℤ, eqb_ℤ, ltb_ℤ_iff,
  eqb_ℤ_iff, nanos_per_second, seconds, unix, whole_seconds, +ℤ_parts,
}
use sienne.Base.Text.{trim_space, to_lower, to_upper, join, is_blank, trim_space_idem}
use sienne.Domain.{
  positive, positive-eq-some, active_client, active_client-eq-some, zero_time, Client, Session,
  AuthorizationCode, User, AccessToken, RefreshToken,
}
use sienne.Ports.{
  SessionCacheEntry, SessionCache, ReplayStatus, replay_none, replay_grace, replay_rejected,
  TokenResponse, ReplayResult, AccessTokenEntry, RefreshTokenEntry, TokenCache, DeviceCodeEntry,
  DeviceCodes, Clients, Sessions, Consents, AuthorizationCodes, Users, Tokens, Clock, Json, Strconv,
  Passwords, Claim, text, texts, number, flag, Signer, Digest,
}
use sienne.Base.Text.{characters, byte_length}
use sienne.Scopes.{contains}

pub data Err : Type 0 where
  invalid_client_id client_id_already_exists client_not_found invalid_client_name : Err
  invalid_client_type invalid_client_secret invalid_auth_method invalid_grant_type : Err
  invalid_scope redirect_uri_required invalid_redirect_uri invalid_client_config : Err

pub record CreateClientInput : Type 0 where
  pub client_id : String
  pub client_name : String
  pub client_secret : String
  pub client_type : String
  pub token_endpoint_auth_method : String
  pub require_pkce : Option Bool
  pub require_consent : Option Bool
  pub access_token_ttl_seconds : ℤ
  pub refresh_token_ttl_seconds : ℤ
  pub id_token_ttl_seconds : ℤ
  pub grant_types : List String
  pub scopes : List String
  pub redirect_uris : List String
  pub post_logout_redirect_uris : List String
  pub status : String

pub record CreateClientResult : Type 0 where
  pub client_id : String
  pub client_name : String
  pub client_type : String
  pub token_endpoint_auth_method : String
  pub require_pkce : Bool
  pub require_consent : Bool
  pub access_token_ttl_seconds : ℤ
  pub refresh_token_ttl_seconds : ℤ
  pub id_token_ttl_seconds : ℤ
  pub grant_types : List String
  pub auth_methods : List String
  pub scopes : List String
  pub redirect_uris : List String
  pub post_logout_redirect_uris : List String
  pub status : String

-- The input of RegisterRedirectURIs and of RegisterPostLogoutRedirectURIs.
pub record RegisterUrisInput : Type 0 where
  pub client_id : String
  pub redirect_uris : List String

pub record RegisterUrisResult : Type 0 where
  pub client_id : String
  pub client_name : String
  pub redirect_uris : List String
  pub registered_count : ℤ
  pub skipped_count : ℤ

pub record ValidateUriInput : Type 0 where
  pub client_id : String
  pub redirect_uri : String

pub record ValidateUriResult : Type 0 where
  pub client_id : String
  pub client_name : String
  pub redirect_uri : String

-- net/url: the scheme and the fragment that ParseRequestURI finds; `none` is an error.
pub record ParsedUri : Type 0 where
  pub scheme : String
  pub fragment : String

pub record Service (W : Type 0) : Type 0 where
  pub clients : Clients W
  pub passwords : Option (Passwords W)
  pub parse_request_uri : String → Option ParsedUri

-- clientIDPattern: `^[a-zA-Z0-9._:-]{3,128}$`
abbrev pub is_id_char : Char → Bool
is_id_char c =
    (leb 97 (code c) && leb (code c) 122)
    || (leb 65 (code c) && leb (code c) 90)
    || (leb 48 (code c) && leb (code c) 57)
    || nat_eq (code c) 46
    || nat_eq (code c) 95
    || nat_eq (code c) 58
    || nat_eq (code c) 45

unfoldable pub all_id_chars : String → Bool
all_id_chars String.[] = true
all_id_chars (String.◌∷◌ c s) = is_id_char c && all_id_chars s

unfoldable pub client_id_pattern : String → Bool
unfolding all_id_chars
client_id_pattern s = leb 3 (characters s) && leb (characters s) 128 && all_id_chars s

abbrev pub supported_grant_types : List String
supported_grant_types = "authorization_code" ∷ "refresh_token" ∷ "client_credentials" ∷ []

-- strings.Contains(text, "#")
unfoldable pub has_hash : String → Bool
has_hash String.[] = false
has_hash (String.◌∷◌ c s) = nat_eq (code c) 35 || has_hash s

-- One more element in front of the result of the rest of a loop.
unfoldable pub and_also : String → Result Err (List String) → Result Err (List String)
and_also x (ok xs) = ok (x ∷ xs)
and_also x (err e) = err e
and_also x (fault f) = fault f

-- One turn of a loop: nothing is added for what is blank or was seen, and an error ends the loop.
unfoldable pub turn :
    String
    → Option Err
    → List String
    → Result Err (List String)
    → Result Err (List String)
    → Result Err (List String)
unfolding contains and_also
turn value none seen skip keep =
    if is_blank value then skip else if contains seen value then skip else and_also value keep
turn value (some e) seen skip keep = if is_blank value then skip else err e

-- An empty list ends as an empty result does.
unfoldable pub some_or : Err → Result Err (List String) → Result Err (List String)
some_or e (ok []) = err e
some_or e (ok (x ∷ xs)) = ok (x ∷ xs)
some_or e (err e₂) = err e₂
some_or e (fault f) = fault f

unfoldable pub grant_error : String → Option Err
unfolding contains
grant_error value = if contains supported_grant_types value then none else some invalid_grant_type

unfoldable pub grants_from : List String → List String → Result Err (List String)
unfolding turn grant_error
grants_from seen [] = ok []
grants_from seen (raw ∷ rest) =
    let value = to_lower (trim_space raw) in
    turn value (grant_error value) seen (grants_from seen rest) (grants_from (value ∷ seen) rest)

unfoldable pub check_grants : Result Err (List String) → Result Err (List String)
unfolding contains
check_grants (ok xs) =
    if contains xs "refresh_token" && not (contains xs "authorization_code")
    then err invalid_client_config
    else ok xs
check_grants (err e) = err e
check_grants (fault f) = fault f

unfoldable pub normalize_grant_types : List String → Result Err (List String)
unfolding grants_from some_or check_grants
normalize_grant_types values = check_grants (some_or invalid_grant_type (grants_from [] values))

unfoldable pub scope_error : String → Option Err
unfolding byte_length
scope_error value = if ltb 128 (byte_length value) then some invalid_scope else none

unfoldable pub scopes_from : List String → List String → Result Err (List String)
unfolding turn scope_error
scopes_from seen [] = ok []
scopes_from seen (raw ∷ rest) =
    let value = trim_space raw in
    turn value (scope_error value) seen (scopes_from seen rest) (scopes_from (value ∷ seen) rest)

unfoldable pub normalize_client_scopes : List String → Result Err (List String)
unfolding scopes_from some_or
normalize_client_scopes values = some_or invalid_scope (scopes_from [] values)

-- `err != nil || parsed.Scheme == "" || parsed.Fragment != ""`
unfoldable pub is_bad_uri : Option ParsedUri → Bool
is_bad_uri none = true
is_bad_uri (some parsed) = is_blank parsed.scheme || not (is_blank parsed.fragment)

module _ (parse : String → Option ParsedUri) where
  unfoldable pub uri_error : String → Option Err
  unfolding byte_length has_hash is_bad_uri
  uri_error value =
      if ltb 1024 (byte_length value) || has_hash value || is_bad_uri (parse value)
      then some invalid_redirect_uri
      else none

  unfoldable pub uris_from : List String → List String → Result Err (List String)
  unfolding turn uri_error
  uris_from seen [] = ok []
  uris_from seen (raw ∷ rest) =
      let value = trim_space raw in
      turn value (uri_error value) seen (uris_from seen rest) (uris_from (value ∷ seen) rest)

  unfoldable pub normalize_redirect_uris : List String → Result Err (List String)
  unfolding uris_from some_or
  normalize_redirect_uris values = some_or redirect_uri_required (uris_from [] values)

  unfoldable pub normalize_client_redirect_uris :
      List String → List String → Result Err (List String)
  unfolding normalize_redirect_uris contains
  normalize_client_redirect_uris values grant_types =
      if contains grant_types "authorization_code" then normalize_redirect_uris values else ok []

  unfoldable pub normalize_optional_redirect_uris : List String → Result Err (List String)
  unfolding normalize_redirect_uris
  normalize_optional_redirect_uris [] = ok []
  normalize_optional_redirect_uris (x ∷ xs) = normalize_redirect_uris (x ∷ xs)

unfoldable pub normalize_ttl : ℤ → ℤ → ℤ
normalize_ttl value fallback = if ltb_ℤ (pos 0) value then value else fallback

unfoldable pub normalize_refresh_ttl : ℤ → List String → ℤ
unfolding normalize_ttl contains
normalize_refresh_ttl value grant_types =
    if contains grant_types "refresh_token" then normalize_ttl value (pos 2592000) else pos 0

unfoldable pub normalize_id_token_ttl : ℤ → List String → ℤ
unfolding normalize_ttl contains
normalize_id_token_ttl value grant_types =
    if contains grant_types "authorization_code" then normalize_ttl value (pos 3600) else pos 0

unfoldable pub normalize_status : String → String
normalize_status value =
    let status = to_lower (trim_space value) in if is_blank status then "active" else status

-- What normalizeClientSettings returns.
pub record Settings : Type 0 where
  pub client_type : String
  pub auth_method : String
  pub require_pkce : Bool
  pub require_consent : Bool

abbrev pub given_or : Option Bool → Bool → Bool
given_or none preset = preset
given_or (some given) preset = given

unfoldable pub client_type_of : CreateClientInput → String
client_type_of input =
    let given = to_lower (trim_space input.client_type) in
    if is_blank given then "confidential" else given

unfoldable pub auth_method_of : CreateClientInput → String
unfolding client_type_of
auth_method_of input =
    let given = to_lower (trim_space input.token_endpoint_auth_method) in
    if is_blank given
    then (if client_type_of input == "public" then "none" else "client_secret_basic")
    else given

unfoldable pub settings_error : String → String → Bool → Option Err
settings_error client_type method pkce =
    if not (client_type == "confidential" || client_type == "public")
    then some invalid_client_type
    else if not
        (method == "client_secret_basic" || method == "client_secret_post" || method == "none")
    then some invalid_auth_method
    else if client_type == "public" && not (method == "none")
    then some invalid_client_config
    else if client_type == "confidential" && method == "none"
    then some invalid_client_config
    else if client_type == "public" && not pkce
    then some invalid_client_config
    else none

unfoldable pub or_error : {A : Type 0} → Option Err → A → Result Err A
or_error none a = ok a
or_error (some e) a = err e

unfoldable pub normalize_client_settings : CreateClientInput → Result Err Settings
unfolding or_error settings_error client_type_of auth_method_of
normalize_client_settings input =
    or_error
      (settings_error (client_type_of input) (auth_method_of input)
        (given_or input.require_pkce true))
      (record {
        client_type = client_type_of input;
        auth_method = auth_method_of input;
        require_pkce = given_or input.require_pkce true;
        require_consent = given_or input.require_consent true;
      })
