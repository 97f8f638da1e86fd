-- ===== src/Tests/Mfa.antt =====
-- Enabling TOTP, and a witness for its theorem.
use sienne.Base.{true, none, some, [], ◌∷◌, ◌==◌, if◌then◌else◌}
use sienne.Base.Exec.{ok}
use sienne.Base.Int.{pos}
use sienne.Ports.{MfaCache, TotpProvider}
use sienne.Mfa.{Service, ConfirmResult, challenge_result}
use sienne.Mfa.Enabled.{Enabled}
use sienne.Tests.World.{World, wrote, gives, clock, strconv, sessions, users}

abbrev mfa_cache : MfaCache World
mfa_cache = record {
  save_totp_enrollment = λ entry ttl. wrote "enrolment";
  get_totp_enrollment = λ id. gives (
      if id == "sid"
      then some (record {
        session_id = "sid";
        user_id = "7";
        secret = "seed";
        provisioning_uri = "otpauth://";
        expires_at = pos 2_000_000_000_000;
      })
      else none);
  delete_totp_enrollment = λ id. wrote "enrolment deleted";
  reserve_totp_step_use = λ user purpose step ttl w. (ok true, purpose ∷ w);
  save_mfa_challenge = λ entry ttl. wrote entry.challenge_id;
  get_mfa_challenge = λ id. gives none;
  delete_mfa_challenge = λ id. wrote "challenge deleted";
}

abbrev provider : TotpProvider World
provider = record {
  generate_secret = gives "seed";
  provisioning_uri = λ issuer name secret. "otpauth://";
  verify_code = λ secret code now. true;
  verify_code_with_step = λ secret code now. (code == "123456", pos 33);
}

abbrev service : Service World
service = record {
  sessions = sessions;
  session_cache = none;
  users = users;
  totps = record {
    find_by_user_id = λ id. gives none;
    upsert = λ model. wrote model.secret;
    delete_by_user_id = λ id. wrote "totp deleted";
  };
  mfa_cache = mfa_cache;
  totp = some provider;
  issuer = "sienne";
  ttl = pos 0;
  clock = clock;
  strconv = strconv;
  new_uuid = λ w. ("ch-1", w);
}

abbrev result : ConfirmResult
result = challenge_result "ch-1" "/next"

abbrev after : World
after = "logout" ∷ "ch-1" ∷ "enrolment deleted" ∷ "seed" ∷ "enable_2fa" ∷ []
