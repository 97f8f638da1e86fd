-- ===== src/ShortUrl.antt =====
-- internal/application/shorturl: making short links and following them. What net/url's
-- ParseRequestURI gives, and rand.Int, are parameters; a link's expiry is an instant or none.
pub mod Created
use Prim.Native.Char.{Char, code}
use Prim.Native.String
use sienne.Base.{
  ℕ, zero, suc, ◌+◌, ◌-◌, ◌*◌, ◌/◌, ◌%◌, ◌^◌, ◌≤◌, ◌<◌, String, ◌≡◌, refl, sym, ap, subst, ◌∙◌, ◌≢◌,
  ◌↔◌, ◌⊎◌, inl, inr, Bool, true, false, not, ◌&&◌, ◌||◌, Option, none, some, List, [], ◌∷◌, ◌++◌,
  map, arith, ◌==◌, eq_iff, eq_refl, ltb, leb, nat_eq, nat_eq_iff, if◌then◌else◌, Bool-cases,
  Option-cases, length, length-append, All, All-append, Any,
}
use sienne.Base.Exec.{
  caught, Fault, no_rows, other, Result, ok, err, fault, Exec, Port, pure, fail, raise, call,
  always, ignore, guard, require, ◌>>=◌, ◌>>◌,
}
use sienne.Base.Int.{
  ℤ, pos, negsuc, pos_part, neg_part, sub_ℕ, ◌+ℤ◌, ◌-ℤ◌, ◌*ℤ◌, ◌<ℤ◌, ltb_ℤ, eqb_ℤ, ltb_ℤ_iff,
  eqb_ℤ_iff, nanos_per_second, seconds, unix, whole_seconds, +ℤ_parts,
}
use sienne.Base.Text.{trim_space, to_lower, to_upper, join, is_blank, trim_space_idem}
use sienne.Domain.{
  positive, positive-eq-some, active_client, active_client-eq-some, zero_time, Client, Session,
  AuthorizationCode, User, AccessToken, RefreshToken,
}
use sienne.Ports.{
  SessionCacheEntry, SessionCache, ReplayStatus, replay_none, replay_grace, replay_rejected,
  TokenResponse, ReplayResult, AccessTokenEntry, RefreshTokenEntry, TokenCache, DeviceCodeEntry,
  DeviceCodes, Clients, Sessions, Consents, AuthorizationCodes, Users, Tokens, Clock, Json, Strconv,
  Passwords, Claim, text, texts, number, flag, Signer, Digest,
}
use sienne.Ports.{Duplicate, duplicate, ShortUrls}
use sienne.Domain.{Link}
use sienne.Account.{every, is_letter, is_digit}
use sienne.Base.Text.{characters, byte_length}
use sienne.Device.{put_at}

pub data Err : Type 0 where
  invalid_code code_already_exists invalid_target_url invalid_expiry : Err
  link_not_found link_expired : Err

pub record CreateInput : Type 0 where
  pub code : String
  pub target_url : String
  pub expires_at : Option ℤ

pub record CreateResult : Type 0 where
  pub code : String
  pub target_url : String
  pub expires_at : Option ℤ
  pub created_at : ℤ

pub record ResolveInput : Type 0 where
  pub code : String

pub record ResolveResult : Type 0 where
  pub code : String
  pub target_url : String
  pub expires_at : Option ℤ

-- `random_below n` is rand.Int(rand.Reader, n), and U is what ParseRequestURI gives.
pub record Service (W U : Type 0) : Type 0 where
  pub repo : ShortUrls W
  pub clock : Clock W
  pub random_below : ℕ → Port W ℕ
  pub parse_request_uri : String → Option U
  pub scheme : U → String
  pub host : U → String
  pub has_user : U → Bool
  pub text_of : U → String

abbrev pub short_code_alphabet : String
short_code_alphabet = "0123456789abcdefghijklmnopqrstuvwxyzABCDEFGHIJKLMNOPQRSTUVWXYZ"

abbrev pub is_code_char : Char → Bool
is_code_char c = is_letter c || is_digit c || nat_eq (code c) 95 || nat_eq (code c) 45

unfoldable pub short_code_pattern : String → Bool
unfolding every
short_code_pattern s = leb 4 (characters s) && leb (characters s) 32 && every is_code_char s

-- The id and the counters are as Go leaves them.
unfoldable pub new_link : String → String → Option ℤ → ℤ → Link
new_link code target expires_at now = record {
  id = pos 0;
  code = code;
  target_url = target;
  click_count = pos 0;
  expires_at = expires_at;
  last_access_at = none;
  created_at = now;
  updated_at = zero_time;
}

unfoldable pub create_result_from_link : Link → CreateResult
create_result_from_link link = record {
  code = link.code;
  target_url = link.target_url;
  expires_at = link.expires_at;
  created_at = link.created_at;
}

module _ {W U : Type 0} (s : Service W U) where
  -- `parsed.Scheme == "" || parsed.Host == ""`, the scheme, and `parsed.User != nil`.
  target_of : Option U → Option String
  target_of none = none
  target_of (some u) =
      let scheme = to_lower (s.scheme u) in
      if not (is_blank (s.scheme u))
        && not (is_blank (s.host u))
        && (scheme == "http" || scheme == "https")
        && not (s.has_user u)
      then some (s.text_of u)
      else none

  -- Its error is always invalid_target_url.
  unfoldable pub normalize_target_url : String → Option String
  unfolding target_of
  normalize_target_url value =
      if is_blank (trim_space value) || ltb 2048 (byte_length (trim_space value))
      then none
      else target_of (s.parse_request_uri (trim_space value))

  unfoldable pub generate_code : ℕ → Exec W Err String
  unfolding put_at
  generate_code zero = pure ""
  generate_code (suc n) = do
    drawn ← call (s.random_below 62)
    rest ← generate_code n
    pure (put_at short_code_alphabet drawn rest)

  unfoldable pub check_expiry : Option ℤ → Exec W Err (Unit {0})
  check_expiry none = pure tt
  check_expiry (some at) = do now ← always s.clock.now; guard (ltb_ℤ now at) invalid_expiry

  -- `isDuplicateCode(err)` goes on with `again`, and another error is returned.
  stored_or : Result Duplicate (Unit {0}) → Link → Exec W Err CreateResult → Exec W Err CreateResult
  unfolding create_result_from_link
  stored_or (ok u) link again = pure (create_result_from_link link)
  stored_or (err duplicate) link again = again
  stored_or (fault f) link again = raise f

  unfoldable pub store :
      String → String → Option ℤ → Exec W Err CreateResult → Exec W Err CreateResult
  unfolding new_link stored_or
  store code target expires_at again = do
    now ← always s.clock.now
    stored ← always (s.repo.create (new_link code target expires_at now))
    stored_or stored (new_link code target expires_at now) again

  unfoldable pub attempt : ℕ → String → Option ℤ → Exec W Err CreateResult
  unfolding generate_code store
  attempt zero target expires_at = fail code_already_exists
  attempt (suc n) target expires_at = do
    generated ← generate_code 7
    store generated target expires_at (attempt n target expires_at)

  create_if : Bool → String → String → Option ℤ → Exec W Err CreateResult
  unfolding attempt store short_code_pattern
  create_if true code target expires_at = attempt 8 target expires_at
  create_if false code target expires_at = do
    guard (short_code_pattern code) invalid_code
    store code target expires_at (fail code_already_exists)

  unfoldable pub create : CreateInput → Exec W Err CreateResult
  unfolding normalize_target_url check_expiry create_if
  create input = do
    target ← require (normalize_target_url input.target_url) invalid_target_url
    check_expiry input.expires_at
    create_if (is_blank (trim_space input.code)) (trim_space input.code) target input.expires_at

  check_live : Option ℤ → Exec W Err (Unit {0})
  check_live none = pure tt
  check_live (some at) = do now ← always s.clock.now; guard (ltb_ℤ now at) link_expired

  unfoldable pub resolve : ResolveInput → Exec W Err ResolveResult
  unfolding short_code_pattern check_live
  resolve input = do
    guard (short_code_pattern (trim_space input.code)) invalid_code
    found ← call (s.repo.find_active_by_code (trim_space input.code))
    link ← require found link_not_found
    check_live link.expires_at
    call (s.repo.increment_click link.id)
    pure (record { code = link.code; target_url = link.target_url; expires_at = link.expires_at })
