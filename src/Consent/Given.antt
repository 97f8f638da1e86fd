-- ===== src/Consent/Given.antt =====
-- When service.go of internal/application/consent records a consent, and for whom.
use sienne.Base.{
  String, ◌≡◌, refl, sym, ap, subst, ◌∙◌, Bool, true, false, not, ◌||◌, some, arith, ◌==◌, eq_iff,
  All,
}
use sienne.Base.Exec.{ok}
use sienne.Base.Int.{ℤ}
use sienne.Base.Text.{trim_space, to_lower, is_blank}
use sienne.Domain.{active_client-eq-some, Client}
use sienne.Ports.{Consents}
use sienne.Base.Exec.Success.{
  >>=-eq-ok, require-eq-ok, call-eq-ok, always-eq-ok, guard-eq-ok, pure-eq-ok,
}
use sienne.Scopes.{contains, all_contained}
use sienne.Scopes.Laws.{In, contains_iff, IsAllowed, all_contained_iff}
use sienne.Consent.Found.{WasLive, session_in-WasLive}
use sienne.Consent.Request.{
  Parsed, parse_authorize_return_to-Parsed, Refusal, build_deny_redirect-Refusal,
}
use sienne.Consent.{
  Service, Context, AuthorizeReturnTo, DecideInput, DecideResult, session_in, client_for,
  load_context, settle, decide,
}

module _ {W U V : Type 0} (s : Service W U V) where
  -- The client is active, registered the redirect URI and may have the scopes.
  pub record Allows (parsed : AuthorizeReturnTo) (client : Client) (w v : W) : Type 0 where
    pub found : s.clients.find_by_client_id parsed.client_id w ≡ (ok (some client), v)
    pub active : client.status ≡ "active"
    pub registered : In parsed.redirect_uri client.redirect_uris
    pub scopes : All (IsAllowed client.scopes) parsed.scopes

  client_for-Allows :
      (parsed : AuthorizeReturnTo) (client : Client) (w v : W)
      → client_for s parsed w ≡ (ok client, v)
      → Allows parsed client w v
  unfolding client_for
  client_for-Allows parsed client w v h =
      let (found, w₁, looked, h₁) = call-eq-ok _ _ h in
      let (x, is_active, h₂) = require-eq-ok _ _ _ h₁ in
      let (same, active) = active_client-eq-some found x is_active in
      let (registered, h₃) = guard-eq-ok (contains x.redirect_uris parsed.redirect_uri) _ _ h₂ in
      let (allowed, h₄) = guard-eq-ok (all_contained parsed.scopes x.scopes) _ _ h₃ in
      let (is_client, end) = pure-eq-ok h₄ in
      subst (λ y. Allows parsed y w v) is_client
        (record {
          found = looked ∙ ap (λ o. (ok o, w₁)) same ∙ ap (λ y. (ok (some x), y)) end;
          active = active;
          registered = (contains_iff _ _).0 registered;
          scopes = (all_contained_iff _ _).0 allowed;
        })

  -- What loadContext has checked.
  pub record Checked (return_to session_id : String) (w : W) (c : Context) : Type 0 where
    pub request : Parsed s return_to c.parsed
    pub searched : W
    pub left : W
    pub signed_in :
        session_in s s.session_cache (trim_space session_id) w ≡ (ok c.session, searched)
    pub live : WasLive s (trim_space session_id) c.session
    pub allows : Allows c.parsed c.client searched left

  load_context-Checked :
      (return_to session_id : String) (w v : W) (c : Context)
      → load_context s return_to session_id w ≡ (ok c, v)
      → Checked return_to session_id w c
  unfolding load_context
  load_context-Checked return_to session_id w v c h =
      let (parsed, parses, h₁) = require-eq-ok _ _ _ h in
      let (present, h₂) = guard-eq-ok (not (is_blank (trim_space session_id))) _ _ h₁ in
      let (session, w₁, signed_in, h₃) = >>=-eq-ok _ _ h₂ in
      let (client, w₂, is_client, h₄) = >>=-eq-ok _ _ h₃ in
      subst (Checked return_to session_id w) (pure-eq-ok h₄).0 (record {
        request = parse_authorize_return_to-Parsed s return_to parsed parses;
        searched = w₁;
        left = w₂;
        signed_in = signed_in;
        live =
            session_in-WasLive s s.session_cache (trim_space session_id) session w w₁ refl
              signed_in;
        allows = client_for-Allows parsed client w₁ w₂ is_client;
      })

  -- How a decision was carried out.
  pub data Settled (return_to : String) (c : Context) (v : W) (a : DecideResult)
      : String → Type 0 where
    accepts :
        (consents : Consents W) (now : ℤ) (w : W)
        → s.consents ≡ some consents
        → consents.upsert_active_consent c.session.user_id c.client.id c.parsed.scopes now w
          ≡ (ok tt, v)
        → a.redirect_uri ≡ return_to
        → Settled return_to c v a "accept"
    denies :
        Refusal s c.parsed.redirect_uri c.parsed.state a.redirect_uri
        → Settled return_to c v a "deny"

  settle-Settled :
      (return_to action : String) (c : Context) (is_deny : Bool) (w v : W) (a : DecideResult)
      → (action == "accept" || action == "deny") ≡ true
      → (action == "deny") ≡ is_deny
      → settle s is_deny return_to c w ≡ (ok a, v)
      → Settled return_to c v a action
  unfolding settle
  settle-Settled return_to action c true w v a known e h =
      let (uri, built, h₁) = require-eq-ok _ _ _ h in
      subst (Settled return_to c v a) (sym ((eq_iff action "deny").0 e)) (
        denies (
          build_deny_redirect-Refusal s c.parsed.redirect_uri c.parsed.state a.redirect_uri
            (built ∙ ap some (ap (λ (x : DecideResult). x.redirect_uri) (pure-eq-ok h₁).0))))
  settle-Settled return_to action c false w v a known e h =
      let (consents, has, h₁) = require-eq-ok _ _ _ h in
      let h₂ = always-eq-ok _ _ h₁ in
      let (_, w₁, wrote, h₃) = call-eq-ok _ _ h₂ in
      let (made, end) = pure-eq-ok h₃ in
      subst (Settled return_to c v a) (sym ((eq_iff action "accept").0 (ground arith))) (
        accepts consents _ _ has (wrote ∙ ap (λ x. (ok tt, x)) end)
          (sym (ap (λ (x : DecideResult). x.redirect_uri) made)))

  -- A decision that succeeds is about a request whose path is that of the authorize endpoint, by an
  -- active client, to a redirect URI that it registered and for scopes that it may have, and is taken
  -- in a session that was live: an active entry of the cache, or a session of the database that is
  -- neither logged out nor expired. An acceptance records the consent of that session's user to that
  -- client and those scopes, and goes back to the request; a denial goes to the registered redirect
  -- URI with the error access_denied, and the state if there is one, set in its query.
  pub decide-Settled :
      (input : DecideInput) (w v : W) (a : DecideResult)
      → decide s input w ≡ (ok a, v)
      → (c : Context) × Checked input.return_to input.session_id w c
        × Settled input.return_to c v a (to_lower (trim_space input.action))
  unfolding decide
  decide-Settled input w v a h =
      let (known, h₁) = guard-eq-ok _ _ _ h in
      let (c, w₁, loaded, h₂) = >>=-eq-ok _ _ h₁ in
      (
        c,
        load_context-Checked input.return_to input.session_id w w₁ c loaded,
        settle-Settled input.return_to _ c _ w₁ v a known refl h₂,
      )
