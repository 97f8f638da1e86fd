-- ===== src/StateMask/Mfa.antt =====
-- The MFA challenge masks.
use sienne.Base.{
  ℕ, ◌<◌, String, ◌≡◌, refl, ◌⊎◌, inl, inr, Bool, true, false, not, ◌&&◌, ◌||◌, arith, nat_eq, ◌==◌,
  nat_eq_iff, if◌then◌else◌, ltb,
}
use sienne.Base.Bits.{bit_or, has, table, table_flag}
use sienne.Base.Text.{trim_space, is_blank}
use sienne.StateMask.{
  set_mode, set_push_status, normalize_mfa_mode, normalize_mfa_push_status, fold_text,
  normalize_mfa_challenge_state_mask, mfa_mode_from_state_mask, mfa_push_status_from_state_mask,
  live, mode_passkey, mode_push, push_approved, push_denied, passkey_session_bound, canonical_mask,
  canonical_mfa_challenge_state_mask,
}

-- A challenge has one mode at most, a push decision only in push mode, and at most one decision.
pub record IsCanonical (mask : ℕ) (bound : Bool) : Type 0 where
  pub is_live : has mask live ≡ true
  pub one_mode : (has mask mode_push && has mask mode_passkey) ≡ false
  pub decided_push :
      (not (has mask mode_push) && (has mask push_approved || has mask push_denied)) ≡ false
  pub one_decision : (has mask push_approved && has mask push_denied) ≡ false
  pub session : has mask passkey_session_bound ≡ bound
  pub six_bits : mask < 64

canonical_test : ℕ → Bool → Bool
canonical_test mask bound =
    has mask live
    && not (has mask mode_push && has mask mode_passkey)
    && ((not (has mask push_approved) && not (has mask push_denied)) || has mask mode_push)
    && not (has mask push_approved && has mask push_denied)
    && (if bound then has mask passkey_session_bound else not (has mask passkey_session_bound))
    && ltb mask 64

canonical_test-IsCanonical :
    (mask : ℕ) (bound : Bool) → canonical_test mask bound ≡ true → IsCanonical mask bound
unfolding canonical_test
canonical_test-IsCanonical mask bound h = ground arith

canonical_table :
    table 64 (λ m.
      canonical_test (canonical_mask m true) false && canonical_test (canonical_mask m false) true)
    ≡ true
unfolding table canonical_test canonical_mask
canonical_table = refl

-- From every mask of the six bits the canonical form is live, has at most one mode and at most one
-- push decision, has a decision only in push mode, and is bound to a passkey session exactly when
-- the session JSON is not blank.
pub canonical_mfa_challenge_state_mask-IsCanonical :
    (mask : ℕ) (json : String)
    → mask < 64
    → IsCanonical (canonical_mfa_challenge_state_mask mask json) (not (is_blank (trim_space json)))
unfolding canonical_mfa_challenge_state_mask
canonical_mfa_challenge_state_mask-IsCanonical mask json h = canonical_test-IsCanonical _ _ (
    table_flag 64 (λ m b. canonical_test (canonical_mask m b) (not b)) canonical_table mask
      (is_blank (trim_space json)) h)

canonical_idem_table :
    table 64 (λ m.
      nat_eq (canonical_mask (canonical_mask m true) true) (canonical_mask m true)
      && nat_eq (canonical_mask (canonical_mask m false) false) (canonical_mask m false))
    ≡ true
unfolding table canonical_mask
canonical_idem_table = refl

-- The canonical form of a canonical mask of the same session JSON is the mask itself.
pub canonical_idem :
    (mask : ℕ) (json : String)
    → mask < 64
    → canonical_mfa_challenge_state_mask (canonical_mfa_challenge_state_mask mask json) json
      ≡ canonical_mfa_challenge_state_mask mask json
unfolding canonical_mfa_challenge_state_mask
canonical_idem mask json h = (nat_eq_iff _ _).0 (
    table_flag 64 (λ m b. nat_eq (canonical_mask (canonical_mask m b) b) (canonical_mask m b))
      canonical_idem_table mask (is_blank (trim_space json)) h)

-- NormalizeMFAChallengeStateMask at a normal mode and a normal push status.
build : String → String → ℕ → Bool → ℕ
build mode status mask blank =
    let m2 = set_push_status status (set_mode mode (if nat_eq mask 0 then live else mask)) in
    canonical_mask (if blank then m2 else bit_or m2 passkey_session_bound) blank

-- What the two readers see in it.
same : Bool → Bool → Bool
same true b = b
same false b = not b

reads : String → String → ℕ → Bool → Bool
reads mode status mask blank =
    let m = canonical_mask (build mode status mask blank) true in
    same (has m mode_push) (mode == "push_totp_fallback")
    && same (has m mode_passkey) (mode == "passkey_totp_fallback")
    && same (has m push_approved) (mode == "push_totp_fallback" && status == "approved")
    && same (has m push_denied) (mode == "push_totp_fallback" && status == "denied")

all_modes : ℕ → Bool → Bool
all_modes m b = each "push_totp_fallback" && each "passkey_totp_fallback" && each "totp_only"
  where
    each : String → Bool
    each mode = reads mode "approved" m b && reads mode "denied" m b && reads mode "pending" m b

reads_table : table 64 (λ m. all_modes m true && all_modes m false) ≡ true
unfolding table all_modes reads same build set_mode set_push_status canonical_mask
reads_table = refl

reads-normal :
    (mask : ℕ) (mode status : String) (blank : Bool)
    → mask < 64
    → reads (normalize_mfa_mode mode) (normalize_mfa_push_status status) mask blank ≡ true
unfolding normalize_mfa_mode normalize_mfa_push_status all_modes
reads-normal mask mode status blank h =
    ground (arith, table_flag 64 all_modes reads_table mask blank h)

mode_of : ℕ → String → String
mode_of m fallback =
    if has m mode_push
    then "push_totp_fallback"
    else if has m mode_passkey
    then "passkey_totp_fallback"
    else if is_blank fallback
    then "totp_only"
    else fallback

push_status_of : ℕ → String → String
push_status_of m fallback =
    if has m push_denied then "denied" else if has m push_approved then "approved" else fallback

abbrev IsMode : String → Type 0
IsMode s = (s ≡ "push_totp_fallback") ⊎ (s ≡ "passkey_totp_fallback") ⊎ (s ≡ "totp_only")

normalize_mfa_mode-IsMode : (s : String) → IsMode (normalize_mfa_mode s)
unfolding normalize_mfa_mode
normalize_mfa_mode-IsMode s = ground arith

abbrev IsPushStatus : String → Type 0
IsPushStatus s = (s ≡ "approved") ⊎ (s ≡ "denied") ⊎ (s ≡ "pending")

normalize_mfa_push_status-IsPushStatus : (s : String) → IsPushStatus (normalize_mfa_push_status s)
unfolding normalize_mfa_push_status
normalize_mfa_push_status-IsPushStatus s = ground arith

same-eq : (a b : Bool) → same a b ≡ true → a ≡ b
unfolding same
same-eq a b h = ground arith

mode_of-reads :
    (mode fallback : String) (m : ℕ)
    → IsMode mode
    → has m mode_push ≡ (mode == "push_totp_fallback")
    → has m mode_passkey ≡ (mode == "passkey_totp_fallback")
    → mode_of m fallback ≡ (
        if mode == "totp_only" then (if is_blank fallback then "totp_only" else fallback) else mode)
unfolding mode_of
mode_of-reads mode fallback m (inl e) = rw e (λ h k. ground arith)
mode_of-reads mode fallback m (inr (inl e)) = rw e (λ h k. ground arith)
mode_of-reads mode fallback m (inr (inr e)) = rw e (λ h k. ground arith)

push_status_of-reads :
    (push : Bool) (status fallback : String) (m : ℕ)
    → IsPushStatus status
    → has m push_approved ≡ (push && status == "approved")
    → has m push_denied ≡ (push && status == "denied")
    → push_status_of m fallback ≡ (if push && not (status == "pending") then status else fallback)
unfolding push_status_of
push_status_of-reads push status fallback m (inl e) = rw e (λ h k. ground arith)
push_status_of-reads push status fallback m (inr (inl e)) = rw e (λ h k. ground arith)
push_status_of-reads push status fallback m (inr (inr e)) = rw e (λ h k. ground arith)

module _ (mask : ℕ) (mode status json fallback : String) where
  abbrev built : ℕ
  built =
      canonical_mask
        (build (normalize_mfa_mode mode) (normalize_mfa_push_status status) mask
          (is_blank (trim_space json)))
        true

  mode-built :
      mfa_mode_from_state_mask (normalize_mfa_challenge_state_mask mask mode status json) fallback
      ≡ mode_of built (fold_text fallback)
  unfolding mfa_mode_from_state_mask normalize_mfa_challenge_state_mask build mode_of trim_space
  mode-built = refl

  push_status-built :
      mfa_push_status_from_state_mask
        (normalize_mfa_challenge_state_mask mask mode status json)
        fallback
      ≡ push_status_of built (normalize_mfa_push_status fallback)
  unfolding mfa_push_status_from_state_mask normalize_mfa_challenge_state_mask build push_status_of
      trim_space
  push_status-built = refl

  reads-built :
      mask < 64
      → reads
          (normalize_mfa_mode mode)
          (normalize_mfa_push_status status)
          mask
          (is_blank (trim_space json))
        ≡ true
  reads-built = reads-normal mask mode status (is_blank (trim_space json))

  -- The mode that is read back from a normalized mask is the normal mode that went in. If that is
  -- "totp_only", it is the folded fallback, or "totp_only" where the fallback is blank.
  pub mfa_mode-normalize :
      mask < 64
      → mfa_mode_from_state_mask (normalize_mfa_challenge_state_mask mask mode status json) fallback
        ≡ (if normalize_mfa_mode mode == "totp_only"
            then (if is_blank (fold_text fallback) then "totp_only" else fold_text fallback)
            else normalize_mfa_mode mode)
  unfolding reads
  mfa_mode-normalize small = rw mode-built (
      mode_of-reads _ _ built (normalize_mfa_mode-IsMode mode)
        (ground (
          arith,
          reads-built small,
          same-eq (has built mode_push) (normalize_mfa_mode mode == "push_totp_fallback"),
        ))
        (ground (
          arith,
          reads-built small,
          same-eq (has built mode_passkey) (normalize_mfa_mode mode == "passkey_totp_fallback"),
        )))

  -- The push status that is read back is the decision that went in, if the mode is push and there
  -- was one. In every other case no decision survives, and the normal fallback is read.
  pub mfa_push_status-normalize :
      mask < 64
      → mfa_push_status_from_state_mask
          (normalize_mfa_challenge_state_mask mask mode status json)
          fallback
        ≡ (if normalize_mfa_mode mode == "push_totp_fallback"
              && not (normalize_mfa_push_status status == "pending")
            then normalize_mfa_push_status status
            else normalize_mfa_push_status fallback)
  unfolding reads
  mfa_push_status-normalize small = rw push_status-built (
      push_status_of-reads (normalize_mfa_mode mode == "push_totp_fallback") _ _ built
        (normalize_mfa_push_status-IsPushStatus status)
        (ground (
          arith,
          reads-built small,
          same-eq (has built push_approved) (
              normalize_mfa_mode mode == "push_totp_fallback"
              && normalize_mfa_push_status status == "approved"),
        ))
        (ground (
          arith,
          reads-built small,
          same-eq (has built push_denied) (
              normalize_mfa_mode mode == "push_totp_fallback"
              && normalize_mfa_push_status status == "denied"),
        )))
