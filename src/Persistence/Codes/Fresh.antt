-- ===== src/Persistence/Codes/Fresh.antt =====
-- A code that may be redeemed is, and reads back as it was stored.
use sienne.Base.{ℕ, String, ◌≡◌, refl, none, [], ◌∷◌}
use sienne.Base.Int.{ℤ, pos}
use sienne.Domain.{AuthorizationCode}
use sienne.Persistence.Codes.{
  Codes, done, Driver, null_string, from_null, new_row, scan_authorization_code,
}
use sienne.Persistence.Codes.Marked.{Marked}

abbrev pub no_errors : Driver
no_errors = record { begin = none; query = none; exec = none; affected = none; commit = done }

from_null-null_string : (value : String) → from_null (null_string value) ≡ value
unfolding from_null null_string
from_null-null_string String.[] = refl
from_null-null_string (String.◌∷◌ c value) = refl

-- What is read back of a code that was stored is the code with its id and its time of creation:
-- that blank texts are stored as NULL is not seen.
pub scan-new_row :
    (id : ℕ) (created_at : ℤ) (model : AuthorizationCode)
    → scan_authorization_code (new_row id created_at model)
      ≡ record model { id = pos id; created_at = created_at }
unfolding scan_authorization_code new_row
scan-new_row id created_at model =
    rw
      (
        from_null-null_string model.state_value,
        from_null-null_string model.nonce_value,
        from_null-null_string model.code_challenge,
        from_null-null_string model.code_challenge_method,
      )
      refl
