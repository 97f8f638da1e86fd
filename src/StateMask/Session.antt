-- ===== src/StateMask/Session.antt =====
-- The session masks: the status that is read back, and what an active cache entry is.
use sienne.Base.{
  ℕ, String, ◌≡◌, refl, ◌↔◌, Bool, true, false, not, ◌||◌, some, arith, ◌==◌, eq_iff, if◌then◌else◌,
}
use sienne.Base.Bits.{has}
use sienne.Base.Int.{ℤ, ◌<ℤ◌}
use sienne.Ports.{SessionCacheEntry}
use sienne.StateMask.{
  session_state_active, session_state_locked, session_state_logged_out, fold_text,
  normalize_session_state_mask, session_status_from_mask, is_session_state_active,
  is_session_entry_active,
}

-- A status that is stored as a mask reads back as itself: "logged_out" for the two spellings of a
-- logout, "locked", and "active" for every other text. The fallback plays no part.
pub session_status-normalize :
    (status fallback : String)
    → session_status_from_mask (normalize_session_state_mask 0 status) fallback ≡ (
        if fold_text status == "logged_out" || fold_text status == "logout"
        then "logged_out"
        else if fold_text status == "locked"
        then "locked"
        else "active")
unfolding session_status_from_mask
session_status-normalize status fallback = ground arith

-- A mask of a status is active exactly when the status is.
pub is_active-normalize :
    (status : String)
    → is_session_state_active (normalize_session_state_mask 0 status)
      ≡ not (
          fold_text status == "logged_out"
          || fold_text status == "logout"
          || fold_text status == "locked")
unfolding is_session_state_active normalize_session_state_mask
is_active-normalize status = ground arith

active_mask :
    (mask : ℕ) (status : String)
    → is_session_state_active (normalize_session_state_mask mask status) ≡ true
    → session_status_from_mask mask status ≡ "active"
unfolding session_status_from_mask is_session_state_active
active_mask mask status h = ground arith

read_status :
    (a b : Bool)
    → ◌≡◌ {A = String} (if a then "logged_out" else if b then "locked" else "active") "active"
    → (a ≡ false) × (b ≡ false)
read_status true b h = cc ((eq_iff "logged_out" "active").1 h)
read_status false true h = cc ((eq_iff "locked" "active").1 h)
read_status false false h = (refl, refl)

not_blocked :
    (mask : ℕ) (status : String)
    → session_status_from_mask mask status ≡ "active"
    → (has (normalize_session_state_mask mask status) session_state_locked ≡ false)
      × (has (normalize_session_state_mask mask status) session_state_logged_out ≡ false)
unfolding session_status_from_mask
not_blocked mask status h =
    let (a, b) =
      read_status (has (normalize_session_state_mask mask status) session_state_logged_out)
        (has (normalize_session_state_mask mask status) session_state_locked) h in
    (b, a)

-- A cache entry is taken for an active session only before it expires, when its mask has the active
-- bit, and when its status reads "active"; an entry of which all this holds is taken.
pub is_session_entry_active_iff :
    (entry : SessionCacheEntry) (now : ℤ)
    → (is_session_entry_active (some entry) now ≡ true) ↔ (
        (now <ℤ entry.expires_at)
        × (has (normalize_session_state_mask entry.state_mask entry.status) session_state_active
            ≡ true)
        × (session_status_from_mask entry.state_mask entry.status ≡ "active"))
unfolding is_session_entry_active
is_session_entry_active_iff entry now = (
  λ h. ground (arith, active_mask entry.state_mask entry.status),
  λ h. ground (arith, not_blocked entry.state_mask entry.status),
)
