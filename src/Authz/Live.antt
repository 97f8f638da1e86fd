-- ===== src/Authz/Live.antt =====
-- When a session may act: what the authorize endpoint and the page for consents both ask.
use sienne.Base.{String, ◌≡◌, Option, none, some, true}
use sienne.Base.Bits.{has}
use sienne.Base.Exec.{ok}
use sienne.Base.Int.{ℤ, pos, ◌<ℤ◌}
use sienne.Domain.{Session}
use sienne.Ports.{SessionCacheEntry, SessionCache, Sessions}
use sienne.StateMask.{
  session_state_active, normalize_session_state_mask, session_status_from_mask,
  is_session_entry_active,
}
use sienne.StateMask.Session.{is_session_entry_active_iff}

-- A cache entry before its expiry, with the active bit, whose status reads "active".
pub record IsActive (entry : SessionCacheEntry) (now : ℤ) : Type 0 where
  pub in_time : now <ℤ entry.expires_at
  pub bit :
      has (normalize_session_state_mask entry.state_mask entry.status) session_state_active ≡ true
  pub status : session_status_from_mask entry.state_mask entry.status ≡ "active"

pub is_session_entry_active-IsActive :
    (entry : SessionCacheEntry) (now : ℤ)
    → is_session_entry_active (some entry) now ≡ true
    → IsActive entry now
is_session_entry_active-IsActive entry now h =
    let (in_time, bit, status) = (is_session_entry_active_iff entry now).0 h in
    record { in_time = in_time; bit = bit; status = status }

module _ {W : Type 0} (cache : Option (SessionCache W)) (sessions : Sessions W)
    (parse : String → Option ℤ) where
  -- A session that may act at an instant: either the cache gave an active entry for its id, of the
  -- session's user and subject, or the database gave the session itself, not logged out and not yet
  -- expired.
  pub data IsLive (session_id : String) (now : ℤ) (session : Session) : Type 0 where
    by_cache :
        (c : SessionCache W) (entry : SessionCacheEntry) (u v : W)
        → cache ≡ some c
        → c.get session_id u ≡ (ok (some entry), v)
        → IsActive entry now
        → parse entry.user_id ≡ some session.user_id
        → pos 0 <ℤ session.user_id
        → session.subject ≡ entry.subject
        → session.expires_at ≡ entry.expires_at
        → IsLive session_id now session
    by_database :
        (u v : W)
        → sessions.find_by_session_id session_id u ≡ (ok (some session), v)
        → session.logged_out_at ≡ none
        → now <ℤ session.expires_at
        → IsLive session_id now session
