-- ===== src/Tests/Account.antt =====
-- The registration of a user, and a witness for its theorem.
use sienne.Base.{◌≡◌, refl, false, none, some, [], ◌∷◌, ◌==◌}
use sienne.Base.Exec.{ok, ◌>>=◌}
use sienne.Base.Int.{pos}
use sienne.Base.Text.{trim_space, to_lower}
use sienne.Account.{
  Service, RegisterInput, RegisterResult, register, is_strong_enough_password, username_pattern,
}
use sienne.Account.Registered.{Registered, register-Registered}
use sienne.Tests.World.{World, gives, clock, strconv, users, passwords}

abbrev service : Service World
service = record {
  users = record users {
    find_by_username = λ name. gives none;
    find_by_email = λ email. gives none;
    create = λ user w. (ok (pos 8), user.password_hash ∷ w);
  };
  update_password_hash = none;
  passwords = some passwords;
  rate_limit = none;
  clock = clock;
  strconv = strconv;
  new_uuid = λ w. ("u-8", w);
  parses_address = λ email. email == "bob@web";
}

abbrev input : RegisterInput
input = record {
  username = " bob.1";
  email = "Bob@Web ";
  display_name = "Bob";
  password = "passw0rd ";
  email_verified = false;
  auto_activate = false;
}

abbrev result : RegisterResult
result = record {
  user_id = pos 8;
  user_uuid = "u-8";
  username = "bob.1";
  email = "bob@web";
  email_verified = false;
  display_name = "Bob";
  status = "pending_verification";
  created_at = pos 1_000_000_000_000;
}

registered : register service input [] ≡ (ok result, "passw0rd " ∷ [])
unfolding register ◌>>=◌ trim_space to_lower username_pattern is_strong_enough_password
registered = refl

register-Registered_example : Registered service input [] ("passw0rd " ∷ []) result
register-Registered_example =
    register-Registered service input [] ("passw0rd " ∷ []) result registered
