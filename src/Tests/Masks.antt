-- ===== src/Tests/Masks.antt =====
-- The masks and the scopes at concrete inputs.
use sienne.Base.{
  ℕ, String, ◌≡◌, refl, ◌≢◌, ◌↔◌, true, not, ◌&&◌, ◌||◌, some, List, [], ◌∷◌, map, arith, ◌==◌,
  if◌then◌else◌, All, Any,
}
use sienne.Base.Int.{pos, ◌<ℤ◌}
use sienne.Base.Text.{trim_space, is_blank}
use sienne.Ports.{SessionCacheEntry}
use sienne.Scopes.{contains, normalize_scopes, all_contained}
use sienne.Scopes.Laws.{
  IsScope, Fresh, normalize_scopes-clean, contains-normalize_scopes, IsAllowed, all_contained_iff,
}
use sienne.Base.Bits.{has}
use sienne.Base.Bits.Digits.{Covers}
use sienne.StateMask.{
  session_state_active, normalize_session_state_mask, session_status_from_mask,
  is_session_entry_active, normalize_mfa_mode, normalize_mfa_push_status,
  normalize_mfa_challenge_state_mask, mfa_mode_from_state_mask, mfa_push_status_from_state_mask,
  canonical_mfa_challenge_state_mask, fold_text,
}
use sienne.StateMask.Mfa.{
  IsCanonical, canonical_mfa_challenge_state_mask-IsCanonical, mfa_mode-normalize,
  mfa_push_status-normalize,
}
use sienne.StateMask.Session.{session_status-normalize, is_session_entry_active_iff}
use sienne.Rbac.{
  has_all, has_any, mask_end_user, mask_auditor, mask_support, mask_oauth_admin,
  mask_security_admin, mask_super_admin,
}
use sienne.Rbac.Cover.{has_all_iff, has_any_iff, role_order, has_all-extremes}

canonical_mfa_challenge_state_mask-IsCanonical_example :
    IsCanonical (canonical_mfa_challenge_state_mask 14 "{}") (not (is_blank (trim_space "{}")))
canonical_mfa_challenge_state_mask-IsCanonical_example =
    canonical_mfa_challenge_state_mask-IsCanonical 14 "{}" (ground arith)

mfa_mode-normalize_example :
    mfa_mode_from_state_mask
      (normalize_mfa_challenge_state_mask 0 " PUSH_totp_fallback" "denied" "")
      ""
    ≡ (if normalize_mfa_mode " PUSH_totp_fallback" == "totp_only"
        then (if is_blank (fold_text "") then "totp_only" else fold_text "")
        else normalize_mfa_mode " PUSH_totp_fallback")
mfa_mode-normalize_example =
    mfa_mode-normalize 0 " PUSH_totp_fallback" "denied" "" "" (ground arith)

mfa_push_status-normalize_example :
    mfa_push_status_from_state_mask
      (normalize_mfa_challenge_state_mask 0 "push_totp_fallback" "denied" "")
      ""
    ≡ (if normalize_mfa_mode "push_totp_fallback" == "push_totp_fallback"
          && not (normalize_mfa_push_status "denied" == "pending")
        then normalize_mfa_push_status "denied"
        else normalize_mfa_push_status "")
mfa_push_status-normalize_example =
    mfa_push_status-normalize 0 "push_totp_fallback" "denied" "" "" (ground arith)

session_status-normalize_example :
    session_status_from_mask (normalize_session_state_mask 0 "Logout ") "active" ≡ (
      if fold_text "Logout " == "logged_out" || fold_text "Logout " == "logout"
      then "logged_out"
      else if fold_text "Logout " == "locked"
      then "locked"
      else "active")
session_status-normalize_example = session_status-normalize "Logout " "active"

abbrev entry : SessionCacheEntry
entry = record {
  session_id = "sid";
  user_id = "7";
  subject = "u-7";
  acr = "";
  amr_json = "";
  ip_address = "";
  user_agent = "";
  authenticated_at = pos 0;
  expires_at = pos 2_000;
  status = "active";
  state_mask = 1;
  state_version = 1;
}

is_session_entry_active_iff_example : (is_session_entry_active (some entry) (pos 1_000) ≡ true) ↔ (
    (pos 1_000 <ℤ pos 2_000)
    × (has (normalize_session_state_mask 1 "active") session_state_active ≡ true)
    × (session_status_from_mask 1 "active" ≡ "active"))
is_session_entry_active_iff_example = is_session_entry_active_iff entry (pos 1_000)

abbrev asked : List ℕ
asked = 1 ∷ 2 ∷ 0 ∷ []

has_all_iff_example : (has_all mask_auditor asked ≡ true) ↔ All (Covers mask_auditor) asked
has_all_iff_example = has_all_iff mask_auditor asked

has_any_iff_example :
    (has_any mask_auditor asked ≡ true) ↔ Any (λ p. (p ≢ 0) × Covers mask_auditor p) asked
has_any_iff_example = has_any_iff mask_auditor asked

role_order_example :
    let passes = λ (mask : ℕ). has_all mask asked in
    ((not (passes mask_end_user) || passes mask_auditor) ≡ true)
    × ((not (passes mask_auditor) || passes mask_support) ≡ true)
    × ((not (passes mask_auditor) || passes mask_oauth_admin) ≡ true)
    × ((not (passes mask_support) || passes mask_security_admin) ≡ true)
    × ((not (passes mask_oauth_admin) || passes mask_security_admin) ≡ true)
    × ((not (passes mask_security_admin) || passes mask_super_admin) ≡ true)
role_order_example = role_order asked

has_all-extremes_example :
    (has_all mask_super_admin asked ≡ true)
    × ((has_all mask_end_user asked ≡ true) ↔ All (λ p. p ≡ 0) asked)
has_all-extremes_example = has_all-extremes asked (ground arith, (ground arith, (ground arith, tt)))

abbrev raw : List String
raw = " openid" ∷ "" ∷ "email" ∷ "openid " ∷ []

normalize_scopes-clean_example :
    All IsScope (normalize_scopes raw) × Fresh [] (normalize_scopes raw)
normalize_scopes-clean_example = normalize_scopes-clean raw

contains-normalize_scopes_example :
    contains (normalize_scopes raw) "email" ≡ contains (map trim_space raw) "email"
contains-normalize_scopes_example = contains-normalize_scopes "email" raw refl

all_contained_iff_example :
    (all_contained ("openid" ∷ []) raw ≡ true) ↔ All (IsAllowed raw) ("openid" ∷ [])
all_contained_iff_example = all_contained_iff ("openid" ∷ []) raw
