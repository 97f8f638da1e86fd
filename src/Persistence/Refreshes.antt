-- ===== src/Persistence/Refreshes.antt =====
-- persistence/token_repo.go on refresh tokens, and its statements in persistence/sql/token_repository,
-- on the table oauth_refresh_tokens as a list of rows in the order of their ids. Each nullable
-- column is a pointer of the entity, so a row is a RefreshToken. The collation of the digests and
-- the errors of the driver are parameters. A rotation holds the lock of the old row until its end.
pub mod Effect
pub mod Turned
pub mod Single
use sienne.Base.{
  ℕ, zero, suc, ◌+◌, ◌-◌, ◌*◌, ◌/◌, ◌%◌, ◌^◌, ◌≤◌, ◌<◌, String, ◌≡◌, refl, sym, ap, subst, ◌∙◌, ◌≢◌,
  ◌↔◌, ◌⊎◌, inl, inr, Bool, true, false, not, ◌&&◌, ◌||◌, Option, none, some, List, [], ◌∷◌, ◌++◌,
  map, arith, ◌==◌, eq_iff, eq_refl, ltb, leb, nat_eq, nat_eq_iff, if◌then◌else◌, Bool-cases,
  Option-cases, length, length-append, All, All-append, Any,
}
use sienne.Base.Exec.{
  caught, Fault, no_rows, other, Result, ok, err, fault, Exec, Port, pure, fail, raise, call,
  always, ignore, guard, require, ◌>>=◌, ◌>>◌,
}
use sienne.Base.Int.{ℤ, pos, ltb_ℤ, eqb_ℤ, eqb_ℤ_iff, ◌<ℤ◌, ltb_ℤ_iff}
use sienne.Base.Text.{trim_space, to_lower, to_upper, join, is_blank, trim_space_idem}
use sienne.Domain.{
  active_client, active_client-eq-some, zero_time, Client, Session, AuthorizationCode, User,
  AccessToken, RefreshToken,
}
use sienne.Persistence.Codes.{Commit, done, undone, unheard}

pub record Refreshes : Type 0 where
  pub next_id : ℕ
  pub rows : List RefreshToken

-- The errors that the driver reports in a rotation; without LastInsertId the id of the new token
-- stays what it was.
pub record Rotation : Type 0 where
  pub begin : Option Fault
  pub query : Option Fault
  pub insert : Option Fault
  pub has_insert_id : Bool
  pub update : Option Fault
  pub commit : Commit

unfoldable pub is_active : ℤ → RefreshToken → Bool
is_active at row = elim row.revoked_at [
  | none ↦ elim row.replaced_by_token_id [ none ↦ ltb_ℤ at row.expires_at | some _ ↦ false ]
  | some _ ↦ false
]

-- The values of the INSERT; created_at has its default.
unfoldable pub inserted : ℕ → ℤ → RefreshToken → RefreshToken
inserted id created_at model = record model { id = pos id; created_at = created_at }

unfoldable pub append_row : ℤ → RefreshToken → Refreshes → Refreshes
unfolding inserted
append_row created_at model table = record {
  next_id = suc table.next_id;
  rows = table.rows ++ (inserted table.next_id created_at model ∷ []);
}

-- rotate_update_old_refresh.sql
unfoldable pub replace_row : ℤ → ℤ → ℤ → RefreshToken → RefreshToken
replace_row at new_id old_id row =
    if eqb_ℤ row.id old_id
    then record row { revoked_at = some at; replaced_by_token_id = some new_id }
    else row

unfoldable pub update_old : ℤ → ℤ → ℤ → Refreshes → Refreshes
unfolding replace_row
update_old at new_id old_id table = record table {
  rows = map (replace_row at new_id old_id) table.rows;
}

-- `user_id = ?` is not true of NULL.
unfoldable pub belongs : Option ℤ → ℤ → Bool
belongs none user_id = false
belongs (some n) user_id = eqb_ℤ n user_id

-- revoke_refresh_by_user_id.sql; `now` is CURRENT_TIMESTAMP.
unfoldable pub revoke_row : ℤ → ℤ → ℤ → RefreshToken → RefreshToken
unfolding is_active belongs
revoke_row now at user_id row =
    if belongs row.user_id user_id && is_active now row
    then record row { revoked_at = some at }
    else row

unfoldable pub revoke_refresh_tokens_by_user_id :
    Option Fault → ℤ → ℤ → ℤ → Port Refreshes (Unit {0})
unfolding revoke_row
revoke_refresh_tokens_by_user_id (some f) now user_id at table = (fault f, table)
revoke_refresh_tokens_by_user_id none now user_id at table =
    (ok tt, record table { rows = map (revoke_row now at user_id) table.rows })

end_rotation : Commit → Refreshes → Port Refreshes (Unit {0})
end_rotation done updated table = (ok tt, updated)
end_rotation (undone f) updated table = (fault f, table)
end_rotation (unheard f) updated table = (fault f, updated)

-- A call of the driver that may fail; the deferred rollback leaves the table as it was.
or_abort : Option Fault → Port Refreshes (Unit {0}) → Port Refreshes (Unit {0})
or_abort none next table = next table
or_abort (some f) next table = (fault f, table)

module _ (same : String → String → Bool) where
  -- rotate_find_old_for_update.sql
  unfoldable pub select_by_sha256 : String → List RefreshToken → Option RefreshToken
  select_by_sha256 sha [] = none
  select_by_sha256 sha (row ∷ rest) =
      if same row.token_sha256 sha then some row else select_by_sha256 sha rest

  -- find_active_refresh_by_sha256.sql; `now` is CURRENT_TIMESTAMP.
  unfoldable pub select_active : ℤ → String → List RefreshToken → Option RefreshToken
  unfolding is_active
  select_active now sha [] = none
  select_active now sha (row ∷ rest) =
      if same row.token_sha256 sha && is_active now row
      then some row
      else select_active now sha rest

  unfoldable pub find_active_refresh_token_by_sha256 :
      Option Fault → ℤ → String → Port Refreshes (Option RefreshToken)
  unfolding select_active
  find_active_refresh_token_by_sha256 (some f) now sha table = (fault f, table)
  find_active_refresh_token_by_sha256 none now sha table =
      (ok (select_active now sha table.rows), table)

  -- A digest that stands in the table violates the unique key.
  insert_unless : Option RefreshToken → ℤ → RefreshToken → Port Refreshes (Unit {0})
  unfolding append_row
  insert_unless (some row) created_at model table = (fault (other 1062), table)
  insert_unless none created_at model table = (ok tt, append_row created_at model table)

  unfoldable pub create_refresh_token : Option Fault → ℤ → RefreshToken → Port Refreshes (Unit {0})
  unfolding insert_unless select_by_sha256
  create_refresh_token (some f) created_at model table = (fault f, table)
  create_refresh_token none created_at model table =
      insert_unless (select_by_sha256 model.token_sha256 table.rows) created_at model table

  -- The two statements, on a table in which the new digest is not taken.
  unfoldable pub rotated : Rotation → ℤ → ℤ → RefreshToken → RefreshToken → Refreshes → Refreshes
  unfolding append_row update_old
  rotated driver created_at at old new table =
      let new_id = if driver.has_insert_id then pos table.next_id else new.id in
      update_old at new_id old.id (append_row created_at new table)

  write_rotation :
      Rotation
      → ℤ
      → ℤ
      → RefreshToken
      → RefreshToken
      → Option RefreshToken
      → Port Refreshes (Unit {0})
  unfolding rotated or_abort end_rotation
  write_rotation driver created_at at old new (some taken) table = (fault (other 1062), table)
  write_rotation driver created_at at old new none table =
      or_abort driver.update
        (end_rotation driver.commit (rotated driver created_at at old new table)) table

  rotate_selected :
      Rotation → ℤ → ℤ → RefreshToken → Option RefreshToken → Port Refreshes (Unit {0})
  unfolding is_active write_rotation or_abort select_by_sha256
  rotate_selected driver created_at at new none table = (fault no_rows, table)
  rotate_selected driver created_at at new (some old) table =
      let taken = select_by_sha256 new.token_sha256 table.rows in
      if is_active at old
      then or_abort driver.insert (write_rotation driver created_at at old new taken) table
      else (fault no_rows, table)

  unfoldable pub rotate_refresh_token :
      Rotation → ℤ → String → ℤ → RefreshToken → Port Refreshes (Unit {0})
  unfolding rotate_selected or_abort
  rotate_refresh_token driver created_at old_sha at new = or_abort driver.begin (
      or_abort driver.query (λ table.
        rotate_selected driver created_at at new (select_by_sha256 old_sha table.rows) table))
