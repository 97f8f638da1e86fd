-- ===== src/Device/Decision.antt =====
-- What the confirmation page of service.go in internal/application/device decides, and for whom.
use sienne.Base.{
  String, ◌≡◌, refl, sym, ap, subst, ◌∙◌, ◌⊎◌, inl, inr, Bool, true, false, ◌&&◌, ◌||◌, Option,
  none, some, arith, ◌==◌, eq_iff, if◌then◌else◌, Bool-cases,
}
use sienne.Base.Exec.{ok, fail}
use sienne.Base.Int.{ℤ, pos, ◌<ℤ◌, ltb_ℤ, ltb_ℤ_iff}
use sienne.Base.Text.{trim_space, to_lower, to_upper, is_blank}
use sienne.Domain.{positive, positive-eq-some, Session}
use sienne.Ports.{SessionCacheEntry, SessionCache, DeviceCodeEntry, DeviceCodes, Strconv}
use sienne.Base.Exec.Success.{>>=-eq-ok, call-eq-ok, always-eq-ok, guard-eq-ok, pure-eq-ok}
use sienne.StateMask.{is_session_entry_active}
use sienne.Device.{
  Context, DecideInput, DecideResult, Service, pending_entry, unexpired, stored_user,
  user_in_database, or_in_database, session_user_in, session_user, load_from, approve_entry,
  deny_entry, settle, decide_in, decide, with_subject, cached_user,
}

is_blank-eq-true : (s : String) → is_blank s ≡ true → s ≡ ""
is_blank-eq-true String.[] h = refl
is_blank-eq-true (String.◌∷◌ c s) h = cc

-- The session signs the user in: an active entry of the cache whose user id is a positive number,
-- or a session of the database that was not logged out and has not expired.
pub data SignedIn {W : Type 0} (s : Service W) (session_id : String) (user_id : ℤ)
    (subject : String) : Type 0 where
  by_cache :
      (cache : SessionCache W) (entry : SessionCacheEntry) (w v : W)
      → s.session_cache ≡ some cache
      → cache.get session_id w ≡ (ok (some entry), v)
      → is_session_entry_active (some entry) (s.clock.now v).0 ≡ true
      → s.strconv.parse_int entry.user_id ≡ some user_id
      → pos 0 <ℤ user_id
      → entry.subject ≡ subject
      → SignedIn s session_id user_id subject
  by_database :
      (session : Session) (w v : W)
      → s.sessions.find_by_session_id session_id w ≡ (ok (some session), v)
      → session.logged_out_at ≡ none
      → (s.clock.now v).0 <ℤ session.expires_at
      → session.user_id ≡ user_id
      → session.subject ≡ subject
      → SignedIn s session_id user_id subject

-- What loadContext has found when it succeeds.
pub record Loaded {W : Type 0} (s : Service W) (codes : DeviceCodes W)
    (session_id user_code : String) (w : W) (c : Context) : Type 0 where
  pub looked : W
  pub found :
      codes.get_by_user_code (to_upper (trim_space user_code)) w ≡ (ok (some c.entry), looked)
  pub in_time : (s.clock.now looked).0 <ℤ c.entry.expires_at
  pub undecided : (c.entry.status ≡ "") ⊎ (c.entry.status ≡ "pending")
  pub signed_in : SignedIn s (trim_space session_id) c.user_id c.subject

if_some-eq-some :
    {A : Type 0} (test : Bool) (o : Option A) {a : A}
    → (if test then o else none) ≡ some a
    → (test ≡ true) × (o ≡ some a)
if_some-eq-some true o h = (refl, h)
if_some-eq-some false o h = cc

with_subject-eq-some :
    (subject name : String) (o : Option ℤ) (user_id : ℤ)
    → with_subject subject o ≡ some (user_id, name)
    → (o ≡ some user_id) × (subject ≡ name)
unfolding with_subject
with_subject-eq-some subject name none user_id h = cc
with_subject-eq-some subject name (some n) user_id h = (cc, cc)

cached_user-eq-some :
    (strconv : Strconv) (entry : Option SessionCacheEntry) (now user_id : ℤ) (subject : String)
    → cached_user strconv entry now ≡ some (user_id, subject)
    → (e : SessionCacheEntry) × (entry ≡ some e)
      × (is_session_entry_active (some e) now ≡ true)
      × (strconv.parse_int e.user_id ≡ some user_id)
      × (pos 0 <ℤ user_id)
      × (e.subject ≡ subject)
unfolding cached_user
cached_user-eq-some strconv none now user_id subject h = cc
cached_user-eq-some strconv (some e) now user_id subject h =
    let (active, h₁) = if_some-eq-some (is_session_entry_active (some e) now) _ h in
    let (good, name) = with_subject-eq-some e.subject subject _ user_id h₁ in
    let (parsed, positive_id) = positive-eq-some _ user_id good in
    (e, refl, active, parsed, positive_id, name)

module _ {W : Type 0} (s : Service W) (session_id : String) where
  unexpired-SignedIn :
      (session : Session) (out : Option ℤ) (u w v : W) (user : ℤ × String)
      → s.sessions.find_by_session_id session_id u ≡ (ok (some session), w)
      → session.logged_out_at ≡ out
      → unexpired s session out w ≡ (ok user, v)
      → SignedIn s session_id user.0 user.1
  unfolding unexpired fail
  unexpired-SignedIn session (some at) u w v user e out h = cc
  unexpired-SignedIn session none u w v user e out h =
      let h₁ = always-eq-ok _ _ h in
      let (in_time, h₂) = guard-eq-ok _ _ _ h₁ in
      let (same, end) = pure-eq-ok h₂ in
      by_database session u w e out ((ltb_ℤ_iff (s.clock.now w).0 session.expires_at).0 in_time)
        (ap (λ x. x.0) same) (ap (λ x. x.1) same)

  stored_user-SignedIn :
      (found : Option Session) (u w v : W) (user : ℤ × String)
      → s.sessions.find_by_session_id session_id u ≡ (ok found, w)
      → stored_user s found w ≡ (ok user, v)
      → SignedIn s session_id user.0 user.1
  unfolding stored_user fail
  stored_user-SignedIn none u w v user e h = cc
  stored_user-SignedIn (some session) u w v user e h =
      unexpired-SignedIn session session.logged_out_at u w v user e refl h

  user_in_database-SignedIn :
      (w v : W) (user : ℤ × String)
      → user_in_database s session_id w ≡ (ok user, v)
      → SignedIn s session_id user.0 user.1
  unfolding user_in_database
  user_in_database-SignedIn w v user h =
      let (found, w₁, looked, k) = call-eq-ok _ _ h in
      stored_user-SignedIn found w w₁ v user looked k

  or_in_database-SignedIn :
      (cache : SessionCache W) (entry : Option SessionCacheEntry) (u w v : W) (user : ℤ × String)
      (hit : Option (ℤ × String))
      → s.session_cache ≡ some cache
      → cache.get session_id u ≡ (ok entry, w)
      → cached_user s.strconv entry (s.clock.now w).0 ≡ hit
      → or_in_database s session_id hit (s.clock.now w).1 ≡ (ok user, v)
      → SignedIn s session_id user.0 user.1
  unfolding or_in_database
  or_in_database-SignedIn cache entry u w v user none has asked e h =
      user_in_database-SignedIn _ v user h
  or_in_database-SignedIn cache entry u w v user (some (id, subject)) has asked e h =
      let (same, end) = pure-eq-ok h in
      let (x, is_entry, active, parsed, positive, name) =
        cached_user-eq-some _ entry _ id subject e in
      by_cache cache x u w has (asked ∙ ap (λ o. (ok o, w)) is_entry) active
        (parsed ∙ ap (λ y. some y.0) same) (subst (λ y. pos 0 <ℤ y.0) same positive)
        (name ∙ ap (λ y. y.1) same)

  session_user_in-SignedIn :
      (cache : Option (SessionCache W)) (w v : W) (user : ℤ × String)
      → s.session_cache ≡ cache
      → session_user_in s cache session_id w ≡ (ok user, v)
      → SignedIn s session_id user.0 user.1
  unfolding session_user_in
  session_user_in-SignedIn none w v user has h = user_in_database-SignedIn w v user h
  session_user_in-SignedIn (some cache) w v user has h =
      let (entry, w₁, asked, h₁) = call-eq-ok _ _ h in
      let h₂ = always-eq-ok _ _ h₁ in
      or_in_database-SignedIn cache entry w w₁ v user _ has asked refl h₂

session_user-SignedIn :
    {W : Type 0} (s : Service W) (session_id : String) (w v : W) (user : ℤ × String)
    → session_user s session_id w ≡ (ok user, v)
    → SignedIn s (trim_space session_id) user.0 user.1
unfolding session_user
session_user-SignedIn s session_id w v user h =
    let (present, h₁) = guard-eq-ok _ _ _ h in
    session_user_in-SignedIn s (trim_space session_id) s.session_cache w v user refl h₁

current_parts :
    (x : DeviceCodeEntry) (now : ℤ)
    → (ltb_ℤ now x.expires_at && (is_blank x.status || x.status == "pending")) ≡ true
    → (now <ℤ x.expires_at) × ((x.status ≡ "") ⊎ (x.status ≡ "pending"))
current_parts x now h = elim (Bool-cases (is_blank x.status)) [
  | inl blank ↦ (ground arith, inl (is_blank-eq-true x.status blank))
  | inr filled ↦ (ground arith, inr (ground (arith, eq_iff x.status "pending")))
]

module _ {W : Type 0} (s : Service W) where
  pending_entry-eq-ok :
      (found : Option DeviceCodeEntry) (w v : W) (entry : DeviceCodeEntry)
      → pending_entry s found w ≡ (ok entry, v)
      → (found ≡ some entry)
        × ((s.clock.now w).0 <ℤ entry.expires_at)
        × ((entry.status ≡ "") ⊎ (entry.status ≡ "pending"))
  unfolding pending_entry fail
  pending_entry-eq-ok none w v entry h = cc
  pending_entry-eq-ok (some x) w v entry h =
      let h₁ = always-eq-ok _ _ h in
      let (current, h₂) = guard-eq-ok _ _ _ h₁ in
      let (same, end) = pure-eq-ok h₂ in
      let (in_time, undecided) = current_parts x _ current in
      (
        ap some same,
        subst (λ y. (s.clock.now w).0 <ℤ y.expires_at) same in_time,
        subst (λ y. (y.status ≡ "") ⊎ (y.status ≡ "pending")) same undecided,
      )

  load_from-Loaded :
      (codes : DeviceCodes W) (session_id user_code : String) (w v : W) (c : Context)
      → load_from s codes session_id user_code w ≡ (ok c, v)
      → Loaded s codes session_id user_code w c
  unfolding load_from
  load_from-Loaded codes session_id user_code w v c h =
      let (present, h₁) = guard-eq-ok _ _ _ h in
      let (found, w₁, looked, h₂) = call-eq-ok _ _ h₁ in
      let (entry, w₂, is_current, h₃) = >>=-eq-ok _ _ h₂ in
      let (same, in_time, undecided) = pending_entry-eq-ok found w₁ w₂ entry is_current in
      let (user, w₃, signed, h₄) = >>=-eq-ok _ _ h₃ in
      let (made, end) = pure-eq-ok h₄ in
      subst (Loaded s codes session_id user_code w) made (record {
        looked = w₁;
        found = looked ∙ ap (λ o. (ok o, w₁)) same;
        in_time = in_time;
        undecided = undecided;
        signed_in = session_user-SignedIn s session_id w₂ w₃ user signed;
      })

  -- How a decision was written.
  pub data Written (codes : DeviceCodes W) (c : Context) (v : W) (a : DecideResult)
      : String → Type 0 where
    approves :
        (now : ℤ) (w : W)
        → codes.approve c.entry.user_code (s.strconv.format_int c.user_id) c.subject now w
          ≡ (ok tt, v)
        → a.approved ≡ true
        → Written codes c v a "approve"
    denies :
        (now : ℤ) (w : W)
        → codes.deny c.entry.user_code now w ≡ (ok tt, v)
        → a.approved ≡ false
        → Written codes c v a "deny"

  settle-Written :
      (codes : DeviceCodes W) (c : Context) (action : String) (is_deny : Bool) (w v : W)
      (a : DecideResult)
      → (action == "approve" || action == "deny") ≡ true
      → (action == "deny") ≡ is_deny
      → settle s codes is_deny c w ≡ (ok a, v)
      → Written codes c v a action
  unfolding settle approve_entry deny_entry
  settle-Written codes c action true w v a known e h =
      let h₁ = always-eq-ok _ _ h in
      let (u, w₁, wrote, h₂) = call-eq-ok _ _ h₁ in
      let (made, end) = pure-eq-ok h₂ in
      subst (Written codes c v a) (sym ((eq_iff action "deny").0 e)) (
        denies _ _ (wrote ∙ ap (λ x. (ok tt, x)) end)
          (sym (ap (λ (x : DecideResult). x.approved) made)))
  settle-Written codes c action false w v a known e h =
      let h₁ = always-eq-ok _ _ h in
      let (u, w₁, wrote, h₂) = call-eq-ok _ _ h₁ in
      let (made, end) = pure-eq-ok h₂ in
      subst (Written codes c v a) (sym ((eq_iff action "approve").0 (ground arith))) (
        approves _ _ (wrote ∙ ap (λ x. (ok tt, x)) end)
          (sym (ap (λ (x : DecideResult). x.approved) made)))

  decide_in-Written :
      (has : Option (DeviceCodes W)) (action : String) (input : DecideInput) (w v : W)
      (a : DecideResult)
      → (action == "approve" || action == "deny") ≡ true
      → decide_in s has (action == "deny") input w ≡ (ok a, v)
      → (codes : DeviceCodes W) × (c : Context) × (has ≡ some codes)
        × Loaded s codes input.session_id input.user_code w c
        × Written codes c v a action
  unfolding decide_in fail
  decide_in-Written none action input w v a known h = cc
  decide_in-Written (some codes) action input w v a known h =
      let (c, w₁, loaded, h₁) = >>=-eq-ok _ _ h in
      (
        codes,
        c,
        refl,
        load_from-Loaded codes _ _ w w₁ c loaded,
        settle-Written codes c action _ w₁ v a known refl h₁,
      )

  -- A decision that succeeds is about the entry of that user code, which had not expired and was
  -- still undecided, and is taken by a user whom the session signs in. An approval is written for
  -- that user and with that session's subject; else the action was to deny, and the denial is
  -- written.
  pub decide-Written :
      (input : DecideInput) (w v : W) (a : DecideResult)
      → decide s input w ≡ (ok a, v)
      → (codes : DeviceCodes W) × (c : Context) × (s.device_codes ≡ some codes)
        × Loaded s codes input.session_id input.user_code w c
        × Written codes c v a (to_lower (trim_space input.action))
  unfolding decide
  decide-Written input w v a h =
      let (known, h₁) = guard-eq-ok _ _ _ h in
      decide_in-Written s.device_codes _ input w v a known h₁
