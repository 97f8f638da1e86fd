-- ===== src/Persistence/Roles.antt =====
-- persistence/operator_role_repo.go and the statements in persistence/sql/operator_role_repository,
-- on the table operator_roles as a list of rows. The collation of the column, the order that it
-- gives, and how a statement ends are parameters; readers and writers share one database.
pub mod System
pub mod Kept
use sienne.Base.{
  ℕ, zero, suc, ◌+◌, ◌-◌, ◌*◌, ◌/◌, ◌%◌, ◌^◌, ◌≤◌, ◌<◌, String, ◌≡◌, refl, sym, ap, subst, ◌∙◌, ◌≢◌,
  ◌↔◌, ◌⊎◌, inl, inr, Bool, true, false, not, ◌&&◌, ◌||◌, Option, none, some, List, [], ◌∷◌, ◌++◌,
  map, arith, ◌==◌, eq_iff, eq_refl, ltb, leb, nat_eq, nat_eq_iff, if◌then◌else◌, Bool-cases,
  Option-cases, length, length-append, All, All-append, Any,
}
use sienne.Base.Exec.{
  caught, Fault, no_rows, other, Result, ok, err, fault, Exec, Port, pure, fail, raise, call,
  always, ignore, guard, require, ◌>>=◌, ◌>>◌,
}
use sienne.Base.Int.{
  ℤ, pos, negsuc, pos_part, neg_part, sub_ℕ, ◌+ℤ◌, ◌-ℤ◌, ◌*ℤ◌, ◌<ℤ◌, ltb_ℤ, eqb_ℤ, ltb_ℤ_iff,
  eqb_ℤ_iff, nanos_per_second, seconds, unix, whole_seconds, +ℤ_parts,
}
use sienne.Base.Text.{trim_space, to_lower, to_upper, join, is_blank, trim_space_idem}
use sienne.Domain.{
  positive, positive-eq-some, active_client, active_client-eq-some, zero_time, Client, Session,
  AuthorizationCode, User, AccessToken, RefreshToken, OperatorRole,
}
use sienne.Ports.{
  OperatorRoles, SessionCacheEntry, SessionCache, ReplayStatus, replay_none, replay_grace,
  replay_rejected, TokenResponse, ReplayResult, AccessTokenEntry, RefreshTokenEntry, TokenCache,
  DeviceCodeEntry, DeviceCodes, Clients, Sessions, Consents, AuthorizationCodes, Users, Tokens,
  Clock, Json, Strconv, Passwords, Claim, text, texts, number, flag, Signer, Digest,
}
use sienne.Persistence.Codes.{Commit, done, undone, unheard}

-- The table with the next value of AUTO_INCREMENT. A row's privilege_mask is INT UNSIGNED.
pub record Roles : Type 0 where
  pub next_id : ℕ
  pub rows : List OperatorRole

-- A statement's effect, or its error: before the effect or after it.
unfoldable pub ended : {A : Type 0} → Commit → A → Roles → Port Roles A
ended done a after table = (ok a, after)
ended (undone f) a after table = (fault f, table)
ended (unheard f) a after table = (fault f, after)

-- scanOperatorRole: the mask is read as a uint64.
unfoldable pub scan_operator_role : OperatorRole → OperatorRole
scan_operator_role row = record row { privilege_mask = row.privilege_mask % 2 ^ 32 }

-- The values of create.sql and upsert.sql; the times have their defaults.
unfoldable pub inserted_role : ℕ → ℤ → OperatorRole → OperatorRole
inserted_role id at model = record model { id = pos id; created_at = at; updated_at = at }

unfoldable pub add_row : ℤ → OperatorRole → Roles → Roles
unfolding inserted_role
add_row at model table = record {
  next_id = suc table.next_id;
  rows = inserted_role table.next_id at model ∷ table.rows;
}

-- update.sql on one row, where its WHERE holds or not.
unfoldable pub update_row : Bool → ℤ → OperatorRole → OperatorRole → OperatorRole
update_row false at model row = row
update_row true at model row = record row {
  display_name = model.display_name;
  description = model.description;
  privilege_mask = model.privilege_mask;
  updated_at = at;
}

-- ON DUPLICATE KEY UPDATE sets is_system too.
unfoldable pub upsert_row : Bool → ℤ → OperatorRole → OperatorRole → OperatorRole
upsert_row false at model row = row
upsert_row true at model row = record row {
  display_name = model.display_name;
  description = model.description;
  privilege_mask = model.privilege_mask;
  is_system = model.is_system;
  updated_at = at;
}

insert_unless : Option OperatorRole → Commit → ℤ → OperatorRole → Port Roles (Unit {0})
unfolding ended add_row
insert_unless (some row) end at model table = (fault (other 1062), table)
insert_unless none end at model table = ended end tt (add_row at model table) table

module _ (same : String → String → Bool) where
  -- find_by_role_code.sql
  unfoldable pub select_role : String → List OperatorRole → Option OperatorRole
  select_role role_code [] = none
  select_role role_code (row ∷ rest) =
      if same row.role_code role_code then some row else select_role role_code rest

  unfoldable pub update_rows : ℤ → OperatorRole → List OperatorRole → List OperatorRole
  unfolding update_row
  update_rows at model rows =
      map (λ row. update_row (same row.role_code (trim_space model.role_code)) at model row) rows

  unfoldable pub delete_rows : String → List OperatorRole → List OperatorRole
  delete_rows role_code [] = []
  delete_rows role_code (row ∷ rest) =
      let kept = delete_rows role_code rest in
      if same row.role_code role_code then kept else row ∷ kept

  upsert_found : Option OperatorRole → Commit → ℤ → OperatorRole → Port Roles (Unit {0})
  unfolding ended add_row upsert_row
  upsert_found none end at model table = ended end tt (add_row at model table) table
  upsert_found (some found) end at model table =
      ended end tt
        (record table {
          rows =
              map (λ row. upsert_row (same row.role_code model.role_code) at model row) table.rows;
        })
        table

  unfoldable pub upsert_role : Commit → ℤ → OperatorRole → Port Roles (Unit {0})
  unfolding upsert_found select_role
  upsert_role end at model table =
      upsert_found (select_role model.role_code table.rows) end at model table

  -- A code that stands in the table violates the unique key.
  unfoldable pub create_role_row : Commit → ℤ → OperatorRole → Port Roles (Unit {0})
  unfolding insert_unless select_role
  create_role_row end at model table =
      insert_unless (select_role model.role_code table.rows) end at model table

  unfoldable pub update_role_row : Commit → ℤ → OperatorRole → Port Roles (Unit {0})
  unfolding ended update_rows
  update_role_row end at model table =
      ended end tt (record table { rows = update_rows at model table.rows }) table

  unfoldable pub delete_by_role_code : Commit → String → Port Roles (Unit {0})
  unfolding ended delete_rows
  delete_by_role_code end role_code table =
      ended end tt (record table { rows = delete_rows (trim_space role_code) table.rows }) table

  unfoldable pub find_by_role_code : Option Fault → String → Port Roles (Option OperatorRole)
  unfolding select_role scan_operator_role
  find_by_role_code (some f) role_code table = (fault f, table)
  find_by_role_code none role_code table = (
    ok (elim (select_role role_code table.rows) [
      | none ↦ none
      | some row ↦ some (scan_operator_role row)
    ]),
    table,
  )

-- list.sql; `by_code` puts the rows in the order of their codes.
unfoldable pub list_role_rows :
    (List OperatorRole → List OperatorRole) → Option Fault → Port Roles (List (Option OperatorRole))
unfolding scan_operator_role
list_role_rows by_code (some f) table = (fault f, table)
list_role_rows by_code none table =
    (ok (map (λ row. some (scan_operator_role row)) (by_code table.rows)), table)
