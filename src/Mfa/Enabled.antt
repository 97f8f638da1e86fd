-- ===== src/Mfa/Enabled.antt =====
-- What must hold for TOTP to be enabled by service.go of internal/application/mfa, and what then
-- becomes of the session.
use sienne.Base.{String, ◌≡◌, Bool, true, false, Option, none, some, List, [], ◌∷◌}
use sienne.Base.Exec.{ok, Port}
use sienne.Base.Int.{ℤ, ◌<ℤ◌}
use sienne.Base.Text.{trim_space, is_blank}
use sienne.Ports.{TotpEnrollmentEntry, TotpProvider, SessionCache}
use sienne.Base.Exec.Runs.{Runs}
use sienne.Mfa.SignedIn.{IsOf}
use sienne.Mfa.{
  Service, MfaContext, ConfirmResult, totp_purpose_enable, totp_step_replay_ttl, load_user,
}
use sienne.Mfa.Source.{SignsIn}
use sienne.Base.Int.{pos, ◌+ℤ◌}
use sienne.Ports.{MfaChallengeEntry}
use sienne.Domain.{Totp}

module _ {W : Type 0} (s : Service W) where
  -- The calls that end the current session: in the database, and in the cache if there is one.
  abbrev pub cache_calls : Option (SessionCache W) → MfaContext → List (Port W (Unit {0}))
  cache_calls none c = []
  cache_calls (some cache) c =
      cache.delete c.session_id
      ∷ cache.remove_user_session_index (s.strconv.format_int c.user_id) c.session_id
      ∷ []

  -- A challenge was saved for the user, and then the session was ended.
  pub record Challenged (c : MfaContext) (return_to : String) (now : ℤ) (w v : W)
      (a : ConfirmResult) : Type 0 where
    pub challenge_id : String
    pub drawn : W
    pub saved : W
    pub entry : MfaChallengeEntry
    pub named : entry.challenge_id ≡ challenge_id
    pub of_user : entry.user_id ≡ s.strconv.format_int c.user_id
    pub of_subject : entry.subject ≡ c.subject
    pub of_name : entry.username ≡ c.username
    pub goes_to : (entry.return_to ≡ return_to) × (entry.redirect_uri ≡ return_to)
    pub expires : entry.expires_at ≡ now +ℤ pos 300_000_000_000
    pub saves : s.mfa_cache.save_mfa_challenge entry (pos 300_000_000_000) drawn ≡ (ok tt, saved)
    pub ended :
        Runs
          (s.sessions.logout_by_session_id c.session_id now ∷ cache_calls s.session_cache c)
          saved
          v
    pub asks : a.totp_required ≡ true
    pub answer_id : a.mfa_challenge_id ≡ challenge_id
    pub answer_to : a.return_to ≡ return_to

  -- Nothing more where there is nowhere to return to, or a challenge in place of the session.
  abbrev pub Finished : Bool → MfaContext → String → ℤ → W → W → ConfirmResult → Type 0
  Finished true c return_to now w v a = (a.enabled ≡ true) × (a.totp_required ≡ false) × (w ≡ v)
  Finished false c return_to now w v a = Challenged c return_to now w v a

  -- How TOTP came to be enabled.
  pub record Enabled (session_id code return_to : String) (w v : W) (a : ConfirmResult)
      : Type 0 where
    pub context : MfaContext
    pub entry : TotpEnrollmentEntry
    pub provider : TotpProvider W
    pub now : ℤ
    pub step : ℤ
    pub loaded : W
    pub looked : W
    pub reserved : W
    pub stored : W
    pub deleted : W
    pub signed_in : load_user s session_id w ≡ (ok context, loaded)
    pub signs_in : SignsIn s (trim_space session_id) (s.clock.now w).0 context
    pub is_of : IsOf session_id context
    pub instant : now ≡ (s.clock.now loaded).0
    pub pending :
        s.mfa_cache.get_totp_enrollment (trim_space session_id) (s.clock.now loaded).1
        ≡ (ok (some entry), looked)
    pub in_time : now <ℤ entry.expires_at
    pub own : entry.user_id ≡ s.strconv.format_int context.user_id
    pub verifies : provider.verify_code_with_step entry.secret code now ≡ (true, step)
    pub reserves :
        s.mfa_cache.reserve_totp_step_use
          (s.strconv.format_int context.user_id)
          totp_purpose_enable
          step
          totp_step_replay_ttl
          looked
        ≡ (ok true, reserved)
    pub totp : Totp
    pub of_user : totp.user_id ≡ context.user_id
    pub of_secret : totp.secret ≡ entry.secret
    pub since : totp.enabled_at ≡ now
    pub stores : s.totps.upsert totp reserved ≡ (ok tt, stored)
    pub deletes :
        s.mfa_cache.delete_totp_enrollment (trim_space session_id) stored ≡ (ok tt, deleted)
    pub finished :
        Finished (is_blank (trim_space return_to)) context (trim_space return_to) now deleted v a
