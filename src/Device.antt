-- ===== src/Device.antt =====
-- internal/application/device: the OAuth2 device authorization endpoint and the page on which the
-- user approves or denies a device. A Go slice that is nil is the empty list.
pub mod Decision
pub mod Start
use Prim.Native.String
use sienne.Base.{
  ℕ, zero, suc, ◌+◌, ◌-◌, ◌*◌, ◌/◌, ◌%◌, ◌^◌, ◌≤◌, ◌<◌, String, ◌≡◌, refl, sym, ap, subst, ◌∙◌, ◌≢◌,
  ◌↔◌, ◌⊎◌, inl, inr, Bool, true, false, not, ◌&&◌, ◌||◌, Option, none, some, List, [], ◌∷◌, ◌++◌,
  map, arith, ◌==◌, eq_iff, eq_refl, ltb, leb, nat_eq, nat_eq_iff, if◌then◌else◌, Bool-cases,
  Option-cases, length, length-append, All, All-append, Any,
}
use sienne.Base.Exec.{
  caught, Fault, no_rows, other, Result, ok, err, fault, Exec, Port, pure, fail, raise, call,
  always, ignore, guard, require, ◌>>=◌, ◌>>◌,
}
use sienne.Base.Int.{
  ℤ, pos, negsuc, pos_part, neg_part, sub_ℕ, ◌+ℤ◌, ◌-ℤ◌, ◌*ℤ◌, ◌<ℤ◌, ltb_ℤ, eqb_ℤ, ltb_ℤ_iff,
  eqb_ℤ_iff, nanos_per_second, seconds, unix, whole_seconds, +ℤ_parts,
}
use sienne.Base.Text.{trim_space, to_lower, to_upper, join, is_blank, trim_space_idem}
use sienne.Domain.{
  positive, positive-eq-some, active_client, active_client-eq-some, zero_time, Client, Session,
  AuthorizationCode, User, AccessToken, RefreshToken,
}
use sienne.Ports.{
  SessionCacheEntry, SessionCache, ReplayStatus, replay_none, replay_grace, replay_rejected,
  TokenResponse, ReplayResult, AccessTokenEntry, RefreshTokenEntry, TokenCache, DeviceCodeEntry,
  DeviceCodes, Clients, Sessions, Consents, AuthorizationCodes, Users, Tokens, Clock, Json, Strconv,
  Passwords, Claim, text, texts, number, flag, Signer, Digest,
}
use sienne.Scopes.{contains, normalize_scopes, allowed_set, each_in, all_contained}
use sienne.StateMask.{is_session_entry_active}

pub data Err : Type 0 where
  invalid_user_code login_required invalid_action invalid_client invalid_scope : Err

pub record StartInput : Type 0 where
  pub client_id : String
  pub scopes : List String

pub record StartResult : Type 0 where
  pub device_code : String
  pub user_code : String
  pub expires_at : ℤ
  pub interval : ℤ
  pub client_id : String

pub record PrepareInput : Type 0 where
  pub session_id : String
  pub user_code : String

pub record PrepareResult : Type 0 where
  pub user_code : String
  pub client_id : String
  pub client_name : String
  pub scopes : List String

pub record DecideInput : Type 0 where
  pub session_id : String
  pub user_code : String
  pub action : String

pub record DecideResult : Type 0 where
  pub approved : Bool

-- `random n` is rand.Read on a buffer of n bytes.
pub record Service (W : Type 0) : Type 0 where
  pub clients : Clients W
  pub device_codes : Option (DeviceCodes W)
  pub sessions : Sessions W
  pub session_cache : Option (SessionCache W)
  pub device_ttl : ℤ
  pub interval : ℤ
  pub clock : Clock W
  pub random : ℕ → Port W (List ℕ)
  pub json : Json
  pub strconv : Strconv

-- The text with `alphabet[n]` in front; nothing is put where the source would panic.
unfoldable pub put_at : String → ℕ → String → String
put_at String.[] n out = out
put_at (String.◌∷◌ c rest) n out =
    let more = put_at rest (n - 1) out in if nat_eq n 0 then String.◌∷◌ c out else more

-- `out[i] = alphabet[int(buf[i])%len(alphabet)]` for each i, where the alphabet has `size` bytes.
unfoldable pub spell : String → ℕ → List ℕ → String
unfolding put_at
spell alphabet size [] = ""
spell alphabet size (byte ∷ rest) = put_at alphabet (byte % size) (spell alphabet size rest)

abbrev pub token_alphabet : String
token_alphabet = "abcdefghijklmnopqrstuvwxyzABCDEFGHIJKLMNOPQRSTUVWXYZ0123456789"

abbrev pub user_alphabet : String
user_alphabet = "ABCDEFGHJKLMNPQRSTUVWXYZ23456789"

-- `out[:n]` and `out[n:]`
unfoldable pub first_bytes : ℕ → List ℕ → List ℕ
first_bytes zero xs = []
first_bytes (suc n) [] = []
first_bytes (suc n) (x ∷ xs) = x ∷ first_bytes n xs

unfoldable pub after_bytes : ℕ → List ℕ → List ℕ
after_bytes zero xs = xs
after_bytes (suc n) [] = []
after_bytes (suc n) (x ∷ xs) = after_bytes n xs

unfoldable pub user_code_of : List ℕ → String
unfolding spell first_bytes after_bytes
user_code_of buf =
    String.◌++◌ (spell user_alphabet 32 (first_bytes 4 buf))
      (String.◌++◌ "-" (spell user_alphabet 32 (after_bytes 4 buf)))

unfoldable pub decode_scopes : Json → String → List String
decode_scopes json raw =
    if is_blank (trim_space raw)
    then []
    else elim (json.unmarshal raw) [ none ↦ [] | some scopes ↦ scopes ]

-- The scopes asked for, or all of the client's where there is none.
unfoldable pub start_scopes : List String → Client → List String
start_scopes asked client = elim (normalize_scopes asked) [ [] ↦ client.scopes | x ∷ xs ↦ x ∷ xs ]

-- `client == nil || client.Status != "active" || !contains(client.GrantTypes, ...)` fails.
device_client : Option Client → Option Client
unfolding contains
device_client none = none
device_client (some c) =
    if c.status == "active" && contains c.grant_types "urn:ietf:params:oauth:grant-type:device_code"
    then some c
    else none

with_subject : String → Option ℤ → Option (ℤ × String)
with_subject subject none = none
with_subject subject (some user_id) = some (user_id, subject)

-- The user of a cache entry and the subject: `none` sends the search on to the database.
unfoldable pub cached_user : Strconv → Option SessionCacheEntry → ℤ → Option (ℤ × String)
unfolding positive is_session_entry_active with_subject
cached_user strconv none now = none
cached_user strconv (some entry) now =
    if is_session_entry_active (some entry) now
    then with_subject entry.subject (positive (strconv.parse_int entry.user_id))
    else none

-- What loadContext returns.
pub record Context : Type 0 where
  pub entry : DeviceCodeEntry
  pub user_id : ℤ
  pub subject : String

module _ {W : Type 0} (s : Service W) where
  random_token : ℕ → Exec W Err String
  unfolding spell
  random_token length = do buf ← call (s.random length); pure (spell token_alphabet 62 buf)

  unfoldable pub random_user_code : Exec W Err String
  unfolding user_code_of
  random_user_code = do buf ← call (s.random 8); pure (user_code_of buf)

  unfoldable pub new_entry : Client → List String → String → String → ℤ → DeviceCodeEntry
  new_entry client scopes device_code user_code expires_at = record {
    device_code = device_code;
    user_code = user_code;
    client_id = client.client_id;
    client_name = client.client_name;
    scopes_json = s.json.marshal scopes;
    status = "pending";
    user_id = "";
    subject = "";
    expires_at = expires_at;
    approved_at = zero_time;
    denied_at = zero_time;
    consumed_at = zero_time;
    last_polled_at = zero_time;
    interval = whole_seconds s.interval;
  }

  abbrev pub start_result : DeviceCodeEntry → StartResult
  start_result entry = record {
    device_code = entry.device_code;
    user_code = entry.user_code;
    expires_at = entry.expires_at;
    interval = entry.interval;
    client_id = entry.client_id;
  }

  save_pending : DeviceCodes W → Client → List String → Exec W Err StartResult
  unfolding random_token random_user_code new_entry ◌+ℤ◌
  save_pending codes client scopes = do
    device_code ← random_token 32
    user_code ← random_user_code
    now ← always s.clock.now
    let entry = new_entry client scopes device_code user_code (now +ℤ s.device_ttl)
    call (codes.save entry s.device_ttl)
    pure (start_result entry)

  -- Save panics on a nil repository, so a service that starts has one: `codes`.
  unfoldable pub start : DeviceCodes W → StartInput → Exec W Err StartResult
  unfolding device_client start_scopes save_pending all_contained
  start codes input = do
    found ← call (s.clients.find_by_client_id (trim_space input.client_id))
    client ← require (device_client found) invalid_client
    guard (all_contained (start_scopes input.scopes client) client.scopes) invalid_scope
    save_pending codes client (start_scopes input.scopes client)

  -- `entry == nil || !entry.ExpiresAt.After(s.now()) || (entry.Status != "" && ...)` fails.
  pending_entry : Option DeviceCodeEntry → Exec W Err DeviceCodeEntry
  pending_entry none = fail invalid_user_code
  pending_entry (some entry) = do
    now ← always s.clock.now
    guard (ltb_ℤ now entry.expires_at && (is_blank entry.status || entry.status == "pending"))
        invalid_user_code
    pure entry

  unexpired : Session → Option ℤ → Exec W Err (ℤ × String)
  unexpired session (some logged_out_at) = fail login_required
  unexpired session none = do
    now ← always s.clock.now
    guard (ltb_ℤ now session.expires_at) login_required
    pure (session.user_id, session.subject)

  stored_user : Option Session → Exec W Err (ℤ × String)
  unfolding unexpired
  stored_user none = fail login_required
  stored_user (some session) = unexpired session session.logged_out_at

  user_in_database : String → Exec W Err (ℤ × String)
  unfolding stored_user
  user_in_database session_id = do
    found ← call (s.sessions.find_by_session_id session_id)
    stored_user found

  or_in_database : String → Option (ℤ × String) → Exec W Err (ℤ × String)
  unfolding user_in_database
  or_in_database session_id (some user) = pure user
  or_in_database session_id none = user_in_database session_id

  session_user_in : Option (SessionCache W) → String → Exec W Err (ℤ × String)
  unfolding cached_user or_in_database
  session_user_in none session_id = user_in_database session_id
  session_user_in (some cache) session_id = do
    entry ← call (cache.get session_id)
    now ← always s.clock.now
    or_in_database session_id (cached_user s.strconv entry now)

  -- The user whom the session signs in.
  unfoldable pub session_user : String → Exec W Err (ℤ × String)
  unfolding session_user_in
  session_user session_id = do
    guard (not (is_blank (trim_space session_id))) login_required
    session_user_in s.session_cache (trim_space session_id)

  unfoldable pub load_from : DeviceCodes W → String → String → Exec W Err Context
  unfolding pending_entry session_user
  load_from codes session_id user_code = do
    guard (not (is_blank (to_upper (trim_space user_code)))) invalid_user_code
    found ← call (codes.get_by_user_code (to_upper (trim_space user_code)))
    entry ← pending_entry found
    user ← session_user session_id
    pure (record { entry = entry; user_id = user.0; subject = user.1 })

  -- A nil repository and a blank user code have the same error.
  load_context_in : Option (DeviceCodes W) → String → String → Exec W Err Context
  unfolding load_from
  load_context_in none session_id user_code = fail invalid_user_code
  load_context_in (some codes) session_id user_code = load_from codes session_id user_code

  unfoldable pub prepare : PrepareInput → Exec W Err PrepareResult
  unfolding load_context_in decode_scopes
  prepare input = do
    c ← load_context_in s.device_codes input.session_id input.user_code
    pure (record {
      user_code = c.entry.user_code;
      client_id = c.entry.client_id;
      client_name = c.entry.client_name;
      scopes = decode_scopes s.json c.entry.scopes_json;
    })

  approve_entry : DeviceCodes W → Context → Exec W Err DecideResult
  approve_entry codes c = do
    now ← always s.clock.now
    call (codes.approve c.entry.user_code (s.strconv.format_int c.user_id) c.subject now)
    pure (record { approved = true })

  deny_entry : DeviceCodes W → Context → Exec W Err DecideResult
  deny_entry codes c = do
    now ← always s.clock.now
    call (codes.deny c.entry.user_code now)
    pure (record { approved = false })

  settle : DeviceCodes W → Bool → Context → Exec W Err DecideResult
  unfolding approve_entry deny_entry
  settle codes true c = deny_entry codes c
  settle codes false c = approve_entry codes c

  decide_in : Option (DeviceCodes W) → Bool → DecideInput → Exec W Err DecideResult
  unfolding load_from settle
  decide_in none denies input = fail invalid_user_code
  decide_in (some codes) denies input = do
    c ← load_from codes input.session_id input.user_code
    settle codes denies c

  unfoldable pub decide : DecideInput → Exec W Err DecideResult
  unfolding decide_in
  decide input = do
    let action = to_lower (trim_space input.action)
    guard (action == "approve" || action == "deny") invalid_action
    decide_in s.device_codes (action == "deny") input
