-- ===== src/Persistence/Codes.antt =====
-- persistence/authorization_code_repo.go and the statements in
-- persistence/sql/authorization_code_repository, on the table oauth_authorization_codes as a list
-- of rows. When two texts are equal is up to the collation of the column, and whether a call of
-- the driver fails is up to the driver; both are parameters. A transaction holds the lock of the
-- row that it selects, so consumptions of one code run one after the other, and an error before
-- the commit rolls back.
pub mod Effect
pub mod Marked
pub mod Once
pub mod Fresh
use sienne.Base.{
  ℕ, zero, suc, ◌+◌, ◌-◌, ◌*◌, ◌/◌, ◌%◌, ◌^◌, ◌≤◌, ◌<◌, String, ◌≡◌, refl, sym, ap, subst, ◌∙◌, ◌≢◌,
  ◌↔◌, ◌⊎◌, inl, inr, Bool, true, false, not, ◌&&◌, ◌||◌, Option, none, some, List, [], ◌∷◌, ◌++◌,
  map, arith, ◌==◌, eq_iff, eq_refl, ltb, leb, nat_eq, nat_eq_iff, if◌then◌else◌, Bool-cases,
  Option-cases, length, length-append, All, All-append, Any,
}
use sienne.Base.Exec.{
  caught, Fault, no_rows, other, Result, ok, err, fault, Exec, Port, pure, fail, raise, call,
  always, ignore, guard, require, ◌>>=◌, ◌>>◌,
}
use sienne.Base.Int.{ℤ, pos, ltb_ℤ, ◌<ℤ◌, ltb_ℤ_iff}
use sienne.Base.Text.{trim_space, to_lower, to_upper, join, is_blank, trim_space_idem}
use sienne.Domain.{
  active_client, active_client-eq-some, zero_time, Client, Session, AuthorizationCode, User,
  AccessToken, RefreshToken,
}

-- A row; a nullable column is an `Option`.
pub record Row : Type 0 where
  pub id : ℕ
  pub code : String
  pub client_id : ℤ
  pub user_id : ℤ
  pub session_id : Option ℤ
  pub redirect_uri : String
  pub scopes_json : String
  pub state_value : Option String
  pub nonce_value : Option String
  pub code_challenge : Option String
  pub code_challenge_method : Option String
  pub expires_at : ℤ
  pub consumed_at : Option ℤ
  pub created_at : ℤ

-- The table with the next value of AUTO_INCREMENT.
pub record Codes : Type 0 where
  pub next_id : ℕ
  pub rows : List Row

-- How a commit ends: it is done, it is not done, or it is done though the driver reports an error.
pub data Commit : Type 0 where
  done : Commit
  undone : Fault → Commit
  unheard : Fault → Commit

-- The errors that the driver reports, for each of its calls.
pub record Driver : Type 0 where
  pub begin : Option Fault
  pub query : Option Fault
  pub exec : Option Fault
  pub affected : Option Fault
  pub commit : Commit

-- nullString, and the String of a sql.NullString.
unfoldable pub null_string : String → Option String
null_string value = if is_blank value then none else some value

unfoldable pub from_null : Option String → String
from_null none = ""
from_null (some value) = value

-- The values of create_authorization_code.sql; created_at has its default.
unfoldable pub new_row : ℕ → ℤ → AuthorizationCode → Row
unfolding null_string
new_row id created_at model = record {
  id = id;
  code = model.code;
  client_id = model.client_db_id;
  user_id = model.user_id;
  session_id = model.session_db_id;
  redirect_uri = model.redirect_uri;
  scopes_json = model.scopes_json;
  state_value = null_string model.state_value;
  nonce_value = null_string model.nonce_value;
  code_challenge = null_string model.code_challenge;
  code_challenge_method = null_string model.code_challenge_method;
  expires_at = model.expires_at;
  consumed_at = model.consumed_at;
  created_at = created_at;
}

unfoldable pub scan_authorization_code : Row → AuthorizationCode
unfolding from_null
scan_authorization_code row = record {
  id = pos row.id;
  code = row.code;
  client_db_id = row.client_id;
  user_id = row.user_id;
  session_db_id = row.session_id;
  redirect_uri = row.redirect_uri;
  scopes_json = row.scopes_json;
  state_value = from_null row.state_value;
  nonce_value = from_null row.nonce_value;
  code_challenge = from_null row.code_challenge;
  code_challenge_method = from_null row.code_challenge_method;
  expires_at = row.expires_at;
  consumed_at = row.consumed_at;
  created_at = row.created_at;
}

-- consume_update_consumed_at.sql on one row, and on the table with the number of rows it changed.
unfoldable pub matches : ℕ → Row → Bool
matches id row = nat_eq row.id id && elim row.consumed_at [ none ↦ true | some _ ↦ false ]

unfoldable pub consume_row : ℤ → ℕ → Row → Row
unfolding matches
consume_row at id row = if matches id row then record row { consumed_at = some at } else row

unfoldable pub update_consumed_at : ℤ → ℕ → List Row → List Row
unfolding consume_row
update_consumed_at at id rows = map (consume_row at id) rows

unfoldable pub rows_affected : ℕ → List Row → ℕ
unfolding matches
rows_affected id [] = 0
rows_affected id (row ∷ rest) =
    let more = rows_affected id rest in if matches id row then suc more else more

-- `model.ConsumedAt != nil || !model.ExpiresAt.After(consumedAt)` returns nothing.
unfoldable pub usable : ℤ → Row → Bool
usable at row = elim row.consumed_at [ none ↦ ltb_ℤ at row.expires_at | some _ ↦ false ]

insert : Option Row → ℤ → AuthorizationCode → Port Codes (Unit {0})
unfolding new_row
insert (some row) created_at model table = (fault (other 1062), table)
insert none created_at model table = (
  ok tt,
  record {
    next_id = suc table.next_id;
    rows = new_row table.next_id created_at model ∷ table.rows;
  },
)

finish : Commit → AuthorizationCode → Codes → Port Codes (Option AuthorizationCode)
finish done model updated table = (ok (some model), updated)
finish (undone f) model updated table = (fault f, table)
finish (unheard f) model updated table = (fault f, updated)

-- A call of the driver that may fail; the deferred rollback leaves the table as it was.
or_roll_back :
    Option Fault → Port Codes (Option AuthorizationCode) → Port Codes (Option AuthorizationCode)
or_roll_back none next table = next table
or_roll_back (some f) next table = (fault f, table)

update : Driver → ℤ → Row → Port Codes (Option AuthorizationCode)
unfolding or_roll_back finish update_consumed_at rows_affected scan_authorization_code
update driver at row = or_roll_back driver.exec (
    or_roll_back driver.affected (λ table.
      let model = record (scan_authorization_code row) { consumed_at = some at } in
      let updated = record table { rows = update_consumed_at at row.id table.rows } in
      if nat_eq (rows_affected row.id table.rows) 0
      then (ok none, table)
      else finish driver.commit model updated table))

consume_selected : Driver → ℤ → Option Row → Port Codes (Option AuthorizationCode)
unfolding update usable
consume_selected driver at none table = (ok none, table)
consume_selected driver at (some row) table =
    if usable at row then update driver at row table else (ok none, table)

module _ (same : String → String → Bool) where
  -- consume_select_by_code_for_update.sql
  unfoldable pub select_by_code : String → List Row → Option Row
  select_by_code code [] = none
  select_by_code code (row ∷ rest) =
      if same row.code code then some row else select_by_code code rest

  -- A code that stands in the table violates the unique key.
  unfoldable pub create : Option Fault → ℤ → AuthorizationCode → Port Codes (Unit {0})
  unfolding insert select_by_code
  create (some f) created_at model table = (fault f, table)
  create none created_at model table =
      insert (select_by_code model.code table.rows) created_at model table

  unfoldable pub consume_by_code : Driver → String → ℤ → Port Codes (Option AuthorizationCode)
  unfolding consume_selected select_by_code
  consume_by_code driver code at = or_roll_back driver.begin (
      or_roll_back driver.query
        (λ table. consume_selected driver at (select_by_code code table.rows) table))
