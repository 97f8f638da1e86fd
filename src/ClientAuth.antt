-- ===== src/ClientAuth.antt =====
-- internal/application/clientauth, the registry that it chooses from (plugins/registry) and the
-- three methods of plugins/client_auth: how a client proves itself at an endpoint. Base64 is a
-- parameter; a method that fails does so with invalid_client, and is `none` here.
pub mod Proof
use Prim.Native.Char.{code}
use Prim.Native.String
use sienne.Base.{
  ℕ, zero, suc, ◌+◌, ◌-◌, ◌*◌, ◌/◌, ◌%◌, ◌^◌, ◌≤◌, ◌<◌, String, ◌≡◌, refl, sym, ap, subst, ◌∙◌, ◌≢◌,
  ◌↔◌, ◌⊎◌, inl, inr, Bool, true, false, not, ◌&&◌, ◌||◌, Option, none, some, List, [], ◌∷◌, ◌++◌,
  map, arith, ◌==◌, eq_iff, eq_refl, ltb, leb, nat_eq, nat_eq_iff, if◌then◌else◌, Bool-cases,
  Option-cases, length, length-append, All, All-append, Any,
}
use sienne.Base.Exec.{
  caught, Fault, no_rows, other, Result, ok, err, fault, Exec, Port, pure, fail, raise, call,
  always, ignore, guard, require, ◌>>=◌, ◌>>◌,
}
use sienne.Base.Int.{
  ℤ, pos, negsuc, pos_part, neg_part, sub_ℕ, ◌+ℤ◌, ◌-ℤ◌, ◌*ℤ◌, ◌<ℤ◌, ltb_ℤ, eqb_ℤ, ltb_ℤ_iff,
  eqb_ℤ_iff, nanos_per_second, seconds, unix, whole_seconds, +ℤ_parts,
}
use sienne.Base.Text.{trim_space, to_lower, to_upper, join, is_blank, trim_space_idem}
use sienne.Domain.{
  active_client, active_client-eq-some, zero_time, Client, Session, AuthorizationCode, User,
  AccessToken, RefreshToken,
}
use sienne.Ports.{
  SessionCacheEntry, SessionCache, ReplayStatus, replay_none, replay_grace, replay_rejected,
  TokenResponse, ReplayResult, AccessTokenEntry, RefreshTokenEntry, TokenCache, DeviceCodeEntry,
  DeviceCodes, Clients, Sessions, Consents, AuthorizationCodes, Users, Tokens, Clock, Json, Strconv,
  Passwords, Claim, text, texts, number, flag, Signer, Digest,
}
use sienne.Token.{Err, invalid_client, verifies}

pub record AuthenticateInput : Type 0 where
  pub authorization_header : String
  pub client_id : String
  pub client_secret : String

pub record AuthenticateResult : Type 0 where
  pub client_id : String
  pub client_secret : String
  pub method : String

abbrev pub method_basic : String
method_basic = "client_secret_basic"

abbrev pub method_post : String
method_post = "client_secret_post"

abbrev pub method_none : String
method_none = "none"

-- A method: its name in the registry, and what it makes of the client and the request.
pub record Authenticator : Type 0 where
  pub method : String
  pub authenticate : Client → AuthenticateInput → Option AuthenticateResult

-- strings.SplitN(s, ":", 2) where it gives two parts.
unfoldable pub split_colon : String → Option (String × String)
split_colon String.[] = none
split_colon (String.◌∷◌ c rest) =
    let later = split_colon rest in
    if nat_eq (code c) 58
    then some (String.[], rest)
    else elim later [ none ↦ none | some (before, after) ↦ some (String.◌∷◌ c before, after) ]

-- The payload after "Basic ", if the header begins so.
strip_prefix : String → String → Option String
strip_prefix String.[] s = some s
strip_prefix (String.◌∷◌ p ps) String.[] = none
strip_prefix (String.◌∷◌ p ps) (String.◌∷◌ c s) =
    let rest = strip_prefix ps s in if nat_eq (code p) (code c) then rest else none

then_split : Option String → Option (String × String)
unfolding split_colon
then_split none = none
then_split (some decoded) = split_colon decoded

decode_payload : (String → Option String) → Option String → Option (String × String)
unfolding then_split
decode_payload base64 none = none
decode_payload base64 (some payload) = then_split (base64 payload)

-- The two parts of a Basic header.
unfoldable pub basic_parts : (String → Option String) → String → Option (String × String)
unfolding decode_payload strip_prefix
basic_parts base64 header = decode_payload base64 (strip_prefix "Basic " header)

unfoldable pub extract_client_id : (String → Option String) → String → String → String
unfolding basic_parts
extract_client_id base64 header body_client_id = elim (basic_parts base64 header) [
  | some (id, secret) ↦ trim_space id
  | none ↦ trim_space body_client_id
]

first_method : List String → String
first_method [] = method_none
first_method (candidate ∷ rest) =
    let next = first_method rest in
    let m = to_lower (trim_space candidate) in if is_blank m then next else m

unfoldable pub normalize_client_auth_method : String → List String → String
unfolding first_method
normalize_client_auth_method primary fallbacks =
    let m = to_lower (trim_space primary) in if is_blank m then first_method fallbacks else m

module _ {W : Type 0} (passwords : Option (Passwords W)) where
  basic_checked : Client → Option (String × String) → Option AuthenticateResult
  unfolding verifies
  basic_checked client none = none
  basic_checked client (some (raw, secret)) =
      let id = trim_space raw in
      if is_blank id || not (id == client.client_id)
      then none
      else if verifies passwords secret client.client_secret_hash
      then some (record { client_id = id; client_secret = secret; method = method_basic })
      else none

  unfoldable pub authenticate_basic :
      (String → Option String) → Client → AuthenticateInput → Option AuthenticateResult
  unfolding basic_checked basic_parts
  authenticate_basic base64 client input =
      if not (is_blank (trim_space input.client_id))
        || not (is_blank (trim_space input.client_secret))
      then none
      else basic_checked client (basic_parts base64 input.authorization_header)

  unfoldable pub authenticate_post : Client → AuthenticateInput → Option AuthenticateResult
  unfolding verifies
  authenticate_post client input =
      let id = trim_space input.client_id in
      if not (is_blank (trim_space input.authorization_header))
      then none
      else if is_blank id || is_blank input.client_secret || not (id == client.client_id)
      then none
      else if verifies passwords input.client_secret client.client_secret_hash
      then some
          (record { client_id = id; client_secret = input.client_secret; method = method_post })
      else none

unfoldable pub authenticate_none : Client → AuthenticateInput → Option AuthenticateResult
authenticate_none client input =
    let id = trim_space input.client_id in
    if not (is_blank (trim_space input.authorization_header))
    then none
    else if not (is_blank (trim_space input.client_secret))
    then none
    else if is_blank id || not (id == client.client_id)
    then none
    else some (record { client_id = id; client_secret = ""; method = method_none })

-- The three methods, in the registry.
unfoldable pub built_in :
    {W : Type 0} → Option (Passwords W) → (String → Option String) → List Authenticator
unfolding authenticate_basic authenticate_post authenticate_none
built_in passwords base64 =
    record { method = method_basic; authenticate = authenticate_basic passwords base64 }
    ∷ record { method = method_post; authenticate = authenticate_post passwords }
    ∷ record { method = method_none; authenticate = authenticate_none }
    ∷ []

-- Get of a registry that was built from the list; a later method replaces an earlier one.
unfoldable pub get : List Authenticator → String → Option Authenticator
get [] method = none
get (a ∷ rest) method =
    let later = get rest method in
    elim later [ some b ↦ some b | none ↦ if a.method == method then some a else none ]

-- The result of the service: `none` where a check on the method's result fails.
unfoldable pub confirmed : Client → Option AuthenticateResult → Option AuthenticateResult
confirmed client none = none
confirmed client (some r) =
    if is_blank (trim_space r.client_id)
    then none
    else if r.client_id == client.client_id
    then some r
    else none

module _ {W : Type 0} (clients : Option (Clients W)) (registry : List Authenticator)
    (base64 : String → Option String) where
  unfoldable pub authenticate : AuthenticateInput → Exec W Err AuthenticateResult
  unfolding extract_client_id active_client normalize_client_auth_method get confirmed
  authenticate input = do
    repository ← require clients invalid_client
    let id = extract_client_id base64 input.authorization_header input.client_id
    guard (not (is_blank id)) invalid_client
    found ← call (repository.find_by_client_id id)
    client ← require (active_client found) invalid_client
    chosen ←
        require
          (get registry
            (normalize_client_auth_method client.token_endpoint_auth_method client.auth_methods))
          invalid_client
    require (confirmed client (chosen.authenticate client input)) invalid_client
