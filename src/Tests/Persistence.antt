-- ===== src/Tests/Persistence.antt =====
-- The table of authorization codes at concrete rows.
use sienne.Base.{String, ◌≡◌, refl, ◌≢◌, Bool, none, some, ◌==◌}
use sienne.Base.Exec.{ok}
use sienne.Base.Int.{pos}
use sienne.Domain.{AuthorizationCode}
use sienne.Persistence.Codes.{
  Row, Codes, new_row, scan_authorization_code, update_consumed_at, create, consume_by_code,
}
use sienne.Persistence.Codes.Effect.{created, Steps, stay, step}
use sienne.Persistence.Codes.Once.{empty, consume_by_code-once}
use sienne.Persistence.Codes.Marked.{Marked}
use sienne.Persistence.Codes.Fresh.{no_errors, scan-new_row}
use sienne.Tests.World.{code}

abbrev same : String → String → Bool
same a b = a == b

abbrev first : AuthorizationCode
first = record code { code = "a" }

abbrev second : AuthorizationCode
second = record code { code = "b"; state_value = "" }

abbrev one : Codes
one = (create same none (pos 1) first empty).1

abbrev two : Codes
two = (create same none (pos 1) second one).1

abbrev after_first : Codes
after_first = (consume_by_code same no_errors "a" (pos 5) two).1

abbrev after_second : Codes
after_second = (consume_by_code same no_errors "b" (pos 6) after_first).1

abbrev first_taken : AuthorizationCode
first_taken = record first { id = pos 1; consumed_at = some (pos 5); created_at = pos 1 }

abbrev second_taken : AuthorizationCode
second_taken = record second { id = pos 2; consumed_at = some (pos 6); created_at = pos 1 }

stored : Steps same empty two
stored =
    step (step (stay empty) (created none (pos 1) first empty)) (created none (pos 1) second one)

takes_first : consume_by_code same no_errors "a" (pos 5) two ≡ (ok (some first_taken), after_first)
unfolding consume_by_code create scan_authorization_code update_consumed_at
takes_first = refl

takes_second :
    consume_by_code same no_errors "b" (pos 6) after_first ≡ (ok (some second_taken), after_second)
unfolding consume_by_code create scan_authorization_code update_consumed_at
takes_second = refl

refuses_first : (consume_by_code same no_errors "a" (pos 6) after_first).0 ≡ ok none
unfolding consume_by_code create update_consumed_at
refuses_first = refl

consume_by_code-once_example : second_taken.id ≢ first_taken.id
consume_by_code-once_example =
    consume_by_code-once same two after_first after_first after_second no_errors no_errors "a" "b"
      (pos 5) (pos 6) first_taken second_taken stored takes_first (stay after_first) takes_second

abbrev row : Row
row = new_row 1 (pos 1) first

scan-new_row_example :
    scan_authorization_code (new_row 2 (pos 1) second)
    ≡ record second { id = pos 2; created_at = pos 1 }
scan-new_row_example = scan-new_row 2 (pos 1) second
