-- ===== src/StateMask.antt =====
-- internal/ports/cache/state_mask.go: the bit masks that stand for the status of a session and of
-- an MFA challenge. A mask is a uint32; the session mask has three bits and the MFA mask six.
pub mod Session
pub mod Mfa
use sienne.Base.{ℕ, String, Bool, true, false, not, ◌&&◌, ◌||◌, Option, none, some, ◌==◌, nat_eq}
use sienne.Base.{if◌then◌else◌}
use sienne.Base.Bits.{bit_and, bit_or, and_not, has}
use sienne.Base.Int.{ℤ, ltb_ℤ}
use sienne.Base.Text.{trim_space, to_lower, is_blank}
use sienne.Ports.{SessionCacheEntry}

abbrev pub session_state_active : ℕ
session_state_active = 1

abbrev pub session_state_locked : ℕ
session_state_locked = 2

abbrev pub session_state_logged_out : ℕ
session_state_logged_out = 4

abbrev pub live : ℕ
live = 1

abbrev pub mode_passkey : ℕ
mode_passkey = 2

abbrev pub mode_push : ℕ
mode_push = 4

abbrev pub push_approved : ℕ
push_approved = 8

abbrev pub push_denied : ℕ
push_denied = 16

abbrev pub passkey_session_bound : ℕ
passkey_session_bound = 32

-- strings.ToLower(strings.TrimSpace(s))
abbrev pub fold_text : String → String
fold_text s = to_lower (trim_space s)

unfoldable pub normalize_session_state_mask : ℕ → String → ℕ
normalize_session_state_mask mask status =
    if not (nat_eq mask 0)
    then mask
    else if fold_text status == "logged_out" || fold_text status == "logout"
    then session_state_logged_out
    else if fold_text status == "locked"
    then session_state_locked
    else session_state_active

unfoldable pub session_status_from_mask : ℕ → String → String
unfolding normalize_session_state_mask
session_status_from_mask mask fallback =
    let m = normalize_session_state_mask mask fallback in
    if has m session_state_logged_out
    then "logged_out"
    else if has m session_state_locked
    then "locked"
    else "active"

unfoldable pub is_session_state_active : ℕ → Bool
is_session_state_active mask =
    has mask session_state_active
    && not (has mask session_state_locked)
    && not (has mask session_state_logged_out)

-- `none` is the nil entry.
unfoldable pub is_session_entry_active : Option SessionCacheEntry → ℤ → Bool
unfolding is_session_state_active normalize_session_state_mask
is_session_entry_active none now = false
is_session_entry_active (some entry) now =
    ltb_ℤ now entry.expires_at
    && is_session_state_active (normalize_session_state_mask entry.state_mask entry.status)

unfoldable pub normalize_mfa_mode : String → String
normalize_mfa_mode mode =
    if fold_text mode == "push_totp_fallback"
    then "push_totp_fallback"
    else if fold_text mode == "passkey_totp_fallback"
    then "passkey_totp_fallback"
    else "totp_only"

unfoldable pub normalize_mfa_push_status : String → String
normalize_mfa_push_status status =
    if fold_text status == "approved"
    then "approved"
    else if fold_text status == "denied"
    then "denied"
    else "pending"

-- The steps of canonicalMFAChallengeStateMask; `blank` says that the trimmed JSON is empty.
unfoldable pub canonical_mask : ℕ → Bool → ℕ
canonical_mask mask blank =
    let m0 = bit_or mask live in
    let m1 = if has m0 mode_push then and_not m0 mode_passkey else m0 in
    let m2 =
      if nat_eq (bit_and m1 mode_push) 0
      then and_not m1 (bit_or push_approved push_denied)
      else m1 in
    let m3 = if has m2 push_approved && has m2 push_denied then and_not m2 push_approved else m2 in
    if blank then and_not m3 passkey_session_bound else bit_or m3 passkey_session_bound

unfoldable pub canonical_mfa_challenge_state_mask : ℕ → String → ℕ
unfolding canonical_mask
canonical_mfa_challenge_state_mask mask json = canonical_mask mask (is_blank (trim_space json))

-- The first `switch` of NormalizeMFAChallengeStateMask, on the normal mode.
unfoldable pub set_mode : String → ℕ → ℕ
set_mode mode mask =
    let m = and_not mask (bit_or mode_push mode_passkey) in
    if mode == "push_totp_fallback"
    then bit_or m mode_push
    else if mode == "passkey_totp_fallback"
    then bit_or m mode_passkey
    else m

-- The second `switch`, on the normal push status.
unfoldable pub set_push_status : String → ℕ → ℕ
set_push_status status mask =
    let m = and_not mask (bit_or push_approved push_denied) in
    if status == "approved"
    then bit_or m push_approved
    else if status == "denied"
    then bit_or m push_denied
    else m

unfoldable pub normalize_mfa_challenge_state_mask : ℕ → String → String → String → ℕ
unfolding normalize_mfa_mode normalize_mfa_push_status set_mode set_push_status
    canonical_mfa_challenge_state_mask
normalize_mfa_challenge_state_mask mask mode push_status json =
    let m0 = if nat_eq mask 0 then live else mask in
    let m1 = set_mode (normalize_mfa_mode mode) m0 in
    let m2 = set_push_status (normalize_mfa_push_status push_status) m1 in
    let m3 = if is_blank (trim_space json) then m2 else bit_or m2 passkey_session_bound in
    canonical_mfa_challenge_state_mask m3 json

unfoldable pub mfa_mode_from_state_mask : ℕ → String → String
unfolding canonical_mfa_challenge_state_mask
mfa_mode_from_state_mask mask fallback =
    let m = canonical_mfa_challenge_state_mask mask "" in
    if has m mode_push
    then "push_totp_fallback"
    else if has m mode_passkey
    then "passkey_totp_fallback"
    else if is_blank (fold_text fallback)
    then "totp_only"
    else fold_text fallback

unfoldable pub mfa_push_status_from_state_mask : ℕ → String → String
unfolding canonical_mfa_challenge_state_mask normalize_mfa_push_status
mfa_push_status_from_state_mask mask fallback =
    let m = canonical_mfa_challenge_state_mask mask "" in
    if has m push_denied
    then "denied"
    else if has m push_approved
    then "approved"
    else normalize_mfa_push_status fallback
