-- ===== src/Token/Grants/Sound.antt =====
-- What holds when a client acts for itself, a user gives a password, or a device is approved.
use sienne.Base.{
  String, ◌≡◌, refl, sym, ap, subst, ◌∙◌, ◌⊎◌, true, Option, none, some, arith, eq_iff, All,
}
use sienne.Base.Exec.{ok, fail}
use sienne.Base.Exec.Success.{
  >>=-eq-ok, require-eq-ok, call-eq-ok, always-eq-ok, guard-eq-ok, pure-eq-ok,
}
use sienne.Base.Int.{ℤ, pos, ◌<ℤ◌, seconds}
use sienne.Base.Text.{trim_space, is_blank}
use sienne.Domain.{Client, User}
use sienne.Ports.{DeviceCodeEntry, DeviceCodes}
use sienne.Scopes.Laws.{IsAllowed, all_contained_iff}
use sienne.Token.{
  Err, Input, Answer, Service, grant_client_credentials, grant_password, grant_device_code,
  must_decode_scope_json, granted_scopes, check_secret,
}
use sienne.Token.Issue.{
  MayUse, find_client-eq-ok, Minted, mint_access-Minted, UserTokens,
  issue_user_grant_tokens-UserTokens,
}
use sienne.Token.Grants.{
  usable_user, current_entry, device_status_error, approving_user, subject_user,
  exchange_client_credentials, exchange_password, pair, poll, refuse, exchange_device_code,
}
use sienne.Scopes.Laws.{Chosen}
use sienne.Token.Contents.{
  granted_scopes-Chosen, Decoded, must_decode_scope_json-Decoded, SecretGiven,
  validate_client_secret-SecretGiven, Verified, verifies-Verified,
}

-- The user of a password: neither locked nor otherwise disabled.
abbrev pub IsUsable : User → Type 0
IsUsable user = (is_blank user.status ≡ true) ⊎ (user.status ≡ "active")

usable_user-eq-some :
    (found : Option User) (user : User)
    → usable_user found ≡ some user
    → (found ≡ some user) × IsUsable user
unfolding usable_user
usable_user-eq-some none user h = cc
usable_user-eq-some (some u) user h = ground (arith, eq_iff u.status "active")

-- The entry of a device code that may be exchanged, and when it was looked at.
pub record Approved (client : Client) (entry : DeviceCodeEntry) (now : ℤ) : Type 0 where
  pub own : entry.client_id ≡ client.client_id
  pub in_time : now <ℤ entry.expires_at
  pub status : entry.status ≡ "approved"

current_entry-eq-some :
    (client : Client) (now : ℤ) (found : Option DeviceCodeEntry) (entry : DeviceCodeEntry)
    → current_entry client now found ≡ some entry
    → (found ≡ some entry) × (entry.client_id ≡ client.client_id) × (now <ℤ entry.expires_at)
unfolding current_entry
current_entry-eq-some client now none entry h = cc
current_entry-eq-some client now (some x) entry h =
    ground (arith, eq_iff x.client_id client.client_id)

device_status_error-eq-none :
    (status : String) → device_status_error status ≡ none → status ≡ "approved"
unfolding device_status_error
device_status_error-eq-none status h = ground (arith, eq_iff status "approved")

approving_user-eq-some :
    (parsed : Option ℤ) (n : ℤ) → approving_user parsed ≡ some n → (parsed ≡ some n) × (pos 0 <ℤ n)
unfolding approving_user
approving_user-eq-some none n h = cc
approving_user-eq-some (some m) n h = ground arith

subject_user-eq-some :
    (entry : DeviceCodeEntry) (found : Option User) (user : User)
    → subject_user entry found ≡ some user
    → (found ≡ some user) × (user.user_uuid ≡ entry.subject)
unfolding subject_user
subject_user-eq-some entry none user h = cc
subject_user-eq-some entry (some u) user h = ground (arith, eq_iff u.user_uuid entry.subject)

module _ {W : Type 0} (s : Service W) where
  -- Client credentials give an active client that is registered for the grant and, where a secret is
  -- on file for it, has given one that the verifier accepts, one access token. It was signed from
  -- claims whose subject is the client and whose scopes are those asked for, or all of the client's,
  -- which it may have, and a row that says the same and has no user is stored; there is no refresh
  -- token and no ID token.
  pub exchange_client_credentials-Minted :
      (input : Input) (w v : W) (a : Answer)
      → exchange_client_credentials s input w ≡ (ok a, v)
      → (client : Client) × (w₁ : W) × (now : ℤ) × (s.clients.find_by_client_id
            (trim_space input.client_id)
            w
          ≡ (ok (some client), w₁))
        × MayUse client grant_client_credentials
        × SecretGiven s.passwords client.client_secret_hash input.client_secret
        × (Chosen input.scopes client.scopes (granted_scopes input.scopes client.scopes)
            × All (IsAllowed client.scopes) (granted_scopes input.scopes client.scopes))
        × Minted s client none client.client_id client.client_id
            (granted_scopes input.scopes client.scopes)
            now
            a
        × (a.refresh_token ≡ "")
        × (a.id_token ≡ "")
  unfolding exchange_client_credentials check_secret
  exchange_client_credentials-Minted input w v a h =
      let (client, w₁, found, h₁) = >>=-eq-ok _ _ h in
      let (looked, may) = find_client-eq-ok s input _ w w₁ client found in
      let (secret, h₂) = guard-eq-ok _ _ _ h₁ in
      let (allowed, h₃) = guard-eq-ok _ _ _ h₂ in
      let h₄ = always-eq-ok _ _ h₃ in
      let (minted, blank, no_id) = mint_access-Minted s client _ _ _ _ _ _ v a h₄ in
      (
        client,
        w₁,
        _,
        looked,
        may,
        validate_client_secret-SecretGiven _ _ _ secret,
        (granted_scopes-Chosen _ _, (all_contained_iff _ _).0 allowed),
        minted,
        blank,
        no_id,
      )

  -- The password grant gives tokens only to an active client that is registered for it and, where a
  -- secret is on file for it, has given one that the verifier accepts; for a user who is neither
  -- locked nor disabled and for whose hash a configured verifier accepted the password; with scopes
  -- that the client may have. The claims and the rows of the tokens name that user and those scopes.
  pub exchange_password-UserTokens :
      (input : Input) (w v : W) (a : Answer)
      → exchange_password s input w ≡ (ok a, v)
      → (client : Client) × (user : User) × (w₁ : W) × (w₂ : W) × (now : ℤ)
        × (s.clients.find_by_client_id (trim_space input.client_id) w ≡ (ok (some client), w₁))
        × MayUse client grant_password
        × SecretGiven s.passwords client.client_secret_hash input.client_secret
        × (s.users.find_by_username (trim_space input.username) w₁ ≡ (ok (some user), w₂))
        × IsUsable user
        × Verified s.passwords input.password user.password_hash
        × (Chosen input.scopes client.scopes (granted_scopes input.scopes client.scopes)
            × All (IsAllowed client.scopes) (granted_scopes input.scopes client.scopes))
        × UserTokens s client user (granted_scopes input.scopes client.scopes) now a
  unfolding exchange_password check_secret
  exchange_password-UserTokens input w v a h =
      let (client, w₁, found, h₁) = >>=-eq-ok _ _ h in
      let (looked, may) = find_client-eq-ok s input _ w w₁ client found in
      let (secret, h₂) = guard-eq-ok _ _ _ h₁ in
      let (account, w₂, asked, h₃) = call-eq-ok _ _ h₂ in
      let (user, is_usable, h₄) = require-eq-ok _ _ _ h₃ in
      let (password, h₅) = guard-eq-ok _ _ _ h₄ in
      let (allowed, h₆) = guard-eq-ok _ _ _ h₅ in
      let h₇ = always-eq-ok _ _ h₆ in
      let (same, usable) = usable_user-eq-some account user is_usable in
      let (tokens, no_id) = issue_user_grant_tokens-UserTokens s client user _ _ _ v a h₇ in
      (
        client,
        user,
        w₁,
        w₂,
        _,
        looked,
        may,
        validate_client_secret-SecretGiven _ _ _ secret,
        asked ∙ ap (λ o. (ok o, w₂)) same,
        usable,
        verifies-Verified _ _ _ password,
        (granted_scopes-Chosen _ _, (all_contained_iff _ _).0 allowed),
        tokens,
      )

  refuse-eq-ok :
      (o : Option Err) (u : Unit {0}) (w v : W) → refuse s o w ≡ (ok u, v) → (o ≡ none) × (v ≡ w)
  unfolding refuse fail
  refuse-eq-ok none u w v h = (refl, sym (pure-eq-ok h).1)
  refuse-eq-ok (some e) u w v h = cc

-- From the approval of a device to its tokens; the code is marked as consumed last.
pub record Paired {W : Type 0} (s : Service W) (codes : DeviceCodes W) (client : Client)
    (entry : DeviceCodeEntry) (w v : W) (a : Answer) : Type 0 where
  pub user : User
  pub user_id : ℤ
  pub now : ℤ
  pub seen : W
  pub last : W
  pub approver : s.strconv.parse_int entry.user_id ≡ some user_id
  pub positive_id : pos 0 <ℤ user_id
  pub owner : s.users.find_by_id user_id w ≡ (ok (some user), seen)
  pub subject : user.user_uuid ≡ entry.subject
  pub scopes : Decoded s.json entry.scopes_json (must_decode_scope_json s.json entry.scopes_json)
  pub tokens : UserTokens s client user (must_decode_scope_json s.json entry.scopes_json) now a
  pub consumed :
      codes.mark_consumed entry.device_code (s.clock.now last).0 (s.clock.now last).1 ≡ (ok tt, v)

-- How a device's code was exchanged: which entry it names, and that the poll was not too early.
pub record Polled {W : Type 0} (s : Service W) (codes : DeviceCodes W) (input : Input)
    (client : Client) (w v : W) (a : Answer) : Type 0 where
  pub entry : DeviceCodeEntry
  pub found : W
  pub ready : W
  pub polled : W
  pub looked : codes.get_by_device_code (trim_space input.device_code) w ≡ (ok (some entry), found)
  pub approved : Approved client entry (s.clock.now found).0
  pub poll_allowed :
      codes.touch_poll entry.device_code
        (s.clock.now ready).0
        (seconds entry.interval)
        (s.clock.now ready).1
      ≡ (ok true, polled)
  pub paired : Paired s codes client entry polled v a

module _ {W : Type 0} (s : Service W) where
  pair-Paired :
      (codes : DeviceCodes W) (client : Client) (entry : DeviceCodeEntry) (w v : W) (a : Answer)
      → pair s codes client entry w ≡ (ok a, v)
      → Paired s codes client entry w v a
  unfolding pair
  pair-Paired codes client entry w v a h =
      let (user_id, is_positive, h₁) = require-eq-ok _ _ _ h in
      let (parsed, positive_id) = approving_user-eq-some _ user_id is_positive in
      let (account, w₁, asked, h₂) = call-eq-ok _ _ h₁ in
      let (user, is_subject, h₃) = require-eq-ok _ _ _ h₂ in
      let (known, subject) = subject_user-eq-some entry account user is_subject in
      let h₄ = always-eq-ok _ _ h₃ in
      let (b, w₂, issued, h₅) = >>=-eq-ok _ _ h₄ in
      let (tokens, no_id) = issue_user_grant_tokens-UserTokens s client user _ _ _ w₂ b issued in
      let h₆ = always-eq-ok _ _ h₅ in
      let (_, w₃, marked, h₇) = call-eq-ok _ _ h₆ in
      let (answer, end) = pure-eq-ok h₇ in
      record {
        user = user;
        user_id = user_id;
        now = (s.clock.now w₁).0;
        seen = w₁;
        last = w₂;
        approver = parsed;
        positive_id = positive_id;
        owner = asked ∙ ap (λ o. (ok o, w₁)) known;
        subject = subject;
        scopes = must_decode_scope_json-Decoded s.json entry.scopes_json;
        tokens = subst (UserTokens s client user _ _) answer tokens;
        consumed = marked ∙ ap (λ x. (ok tt, x)) end;
      }

  poll-Polled :
      (codes : DeviceCodes W) (input : Input) (client : Client) (w v : W) (a : Answer)
      → poll s codes input client w ≡ (ok a, v)
      → Polled s codes input client w v a
  unfolding poll
  poll-Polled codes input client w v a h =
      let (found, w₁, looked, h₁) = call-eq-ok _ _ h in
      let h₂ = always-eq-ok _ _ h₁ in
      let (entry, is_current, h₃) = require-eq-ok _ _ _ h₂ in
      let (same, own, in_time) = current_entry-eq-some client _ found entry is_current in
      let h₄ = always-eq-ok _ _ h₃ in
      let (allowed, w₂, touched, h₅) = call-eq-ok _ _ h₄ in
      let (is_allowed, h₆) = guard-eq-ok _ _ _ h₅ in
      let (u, w₃, passed, h₇) = >>=-eq-ok _ _ h₆ in
      let (open_status, kept) = refuse-eq-ok s _ u w₂ w₃ passed in
      record {
        entry = entry;
        found = w₁;
        ready = (s.clock.now w₁).1;
        polled = w₂;
        looked = looked ∙ ap (λ o. (ok o, w₁)) same;
        approved = record {
          own = own;
          in_time = in_time;
          status = device_status_error-eq-none _ open_status;
        };
        poll_allowed = touched ∙ ap (λ o. (ok o, w₂)) is_allowed;
        paired =
            pair-Paired codes client entry w₂ v a
              (subst (λ x. pair s codes client entry x ≡ (ok a, v)) kept h₇);
      }

  -- A device code is exchanged only for an active client that is registered for the grant and, where
  -- a secret is on file for it, has given one that the verifier accepts, when the code is this
  -- client's, has not expired, is approved, and is not polled too early; the claims and the rows of
  -- the tokens name the user who approved it, whose UUID is the code's subject, and the scopes of the
  -- code, and the last thing that is done is to mark the code as consumed.
  pub exchange_device_code-Polled :
      (input : Input) (w v : W) (a : Answer)
      → exchange_device_code s input w ≡ (ok a, v)
      → (client : Client) × (codes : DeviceCodes W) × (w₁ : W) × (s.clients.find_by_client_id
            (trim_space input.client_id)
            w
          ≡ (ok (some client), w₁))
        × MayUse client grant_device_code
        × SecretGiven s.passwords client.client_secret_hash input.client_secret
        × (s.device_codes ≡ some codes)
        × Polled s codes input client w₁ v a
  unfolding exchange_device_code check_secret
  exchange_device_code-Polled input w v a h =
      let (client, w₁, found, h₁) = >>=-eq-ok _ _ h in
      let (looked, may) = find_client-eq-ok s input _ w w₁ client found in
      let (secret, h₂) = guard-eq-ok _ _ _ h₁ in
      let (codes, configured, h₃) = require-eq-ok _ _ _ h₂ in
      (
        client,
        codes,
        w₁,
        looked,
        may,
        validate_client_secret-SecretGiven _ _ _ secret,
        configured,
        poll-Polled codes input client w₁ v a h₃,
      )
