-- ===== src/Tests/Refreshes.antt =====
-- The table of refresh tokens at concrete rows.
use sienne.Base.{String, ◌≡◌, refl, ◌≢◌, Bool, true, none, some, [], ◌∷◌, ◌==◌}
use sienne.Base.Exec.{other, ok, fault}
use sienne.Base.Int.{pos}
use sienne.Domain.{RefreshToken}
use sienne.Persistence.Codes.{done}
use sienne.Persistence.Refreshes.{Refreshes, Rotation, rotate_refresh_token}
use sienne.Persistence.Refreshes.Effect.{stay}
use sienne.Persistence.Refreshes.Single.{
  Outcome, rotate_refresh_token-atomic, rotate_refresh_token-once,
}
use sienne.Tests.World.{old}

abbrev same : String → String → Bool
same a b = a == b

abbrev table : Refreshes
table = record { next_id = 22; rows = old ∷ [] }

abbrev renewed : RefreshToken
renewed = record old { id = pos 0; token_value = "r1"; token_sha256 = "r1" }

abbrev no_errors : Rotation
no_errors = record {
  begin = none;
  query = none;
  insert = none;
  has_insert_id = true;
  update = none;
  commit = done;
}

abbrev after : Refreshes
after = (rotate_refresh_token same no_errors (pos 5) "r0" (pos 5) renewed table).1

rotates : rotate_refresh_token same no_errors (pos 5) "r0" (pos 5) renewed table ≡ (ok tt, after)
unfolding rotate_refresh_token
rotates = refl

-- An error of the second statement takes the first back.
takes_back :
    rotate_refresh_token same
      (record no_errors { update = some (other 1) })
      (pos 5)
      "r0"
      (pos 5)
      renewed
      table
    ≡ (fault (other 1), table)
unfolding rotate_refresh_token
takes_back = refl

rotate_refresh_token-atomic_example :
    Outcome same no_errors
      (pos 5)
      "r0"
      (pos 5)
      renewed
      table
      (rotate_refresh_token same no_errors (pos 5) "r0" (pos 5) renewed table)
rotate_refresh_token-atomic_example =
    rotate_refresh_token-atomic same no_errors (pos 5) "r0" (pos 5) renewed table

rotate_refresh_token-once_example :
    rotate_refresh_token same no_errors
      (pos 6)
      "r0"
      (pos 6)
      (record renewed { token_sha256 = "r2" })
      after
    ≢ (ok tt, after)
rotate_refresh_token-once_example =
    rotate_refresh_token-once same no_errors no_errors (pos 5) (pos 6) "r0" (pos 5) (pos 6) renewed
      (record renewed { token_sha256 = "r2" }) table after after after rotates (stay after)
