-- ===== src/Roles/Tables.antt =====
-- The operator role service on its repository: service.go of internal/application/rbac with
-- persistence/operator_role_repo.go, on the table of roles beside the rest of the world.
use sienne.Base.{String, Bool, Option, List}
use sienne.Base.Exec.{Fault, Port}
use sienne.Base.Int.{ℤ}
use sienne.Domain.{OperatorRole}
use sienne.Ports.{Users}
use sienne.Persistence.Codes.{Commit}
use sienne.Persistence.Roles.{
  Roles, upsert_role, create_role_row, update_role_row, delete_by_role_code, find_by_role_code,
  list_role_rows,
}
use sienne.Roles.{Service}

-- How the next statement or query ends, and when it runs.
pub record Database (R : Type 0) : Type 0 where
  pub statement : R → Commit × R
  pub query : R → Option Fault × R
  pub time : R → ℤ

module _ {R : Type 0} (d : Database R) where
  unfoldable pub writes : {A : Type 0} → (Commit → ℤ → Port Roles A) → Port (Roles × R) A
  writes op w =
      let (end, r) = d.statement w.1 in
      let (res, table) = op end (d.time w.1) w.0 in (res, (table, r))

  unfoldable pub reads : {A : Type 0} → (Option Fault → Port Roles A) → Port (Roles × R) A
  reads op w = let (f, r) = d.query w.1 in let (res, table) = op f w.0 in (res, (table, r))

-- The users stand in other tables.
unfoldable pub beside : {R A : Type 0} → Port R A → Port (Roles × R) A
beside op w = let (res, r) = op w.1 in (res, (w.0, r))

unfoldable pub users_beside : {R : Type 0} → Users R → Users (Roles × R)
unfolding beside
users_beside users = record {
  create = λ user. beside (users.create user);
  find_by_id = λ id. beside (users.find_by_id id);
  find_by_user_uuid = λ uuid. beside (users.find_by_user_uuid uuid);
  find_by_email = λ email. beside (users.find_by_email email);
  find_by_username = λ name. beside (users.find_by_username name);
  list_by_role_code = λ role_code limit. beside (users.list_by_role_code role_code limit);
  count_by_role_code = λ role_code. beside (users.count_by_role_code role_code);
  update_role_and_privilege =
      λ id role_code mask tenant. beside (users.update_role_and_privilege id role_code mask tenant);
  unlock_account = λ id at. beside (users.unlock_account id at);
  increment_failed_login = λ id. beside (users.increment_failed_login id);
  reset_failed_login = λ id at. beside (users.reset_failed_login id at);
}

module _ {R : Type 0} (same : String → String → Bool)
    (by_code : List OperatorRole → List OperatorRole) (d : Database R) (users : Users R) where
  unfoldable pub on_tables : Service (Roles × R)
  unfolding writes reads users_beside upsert_role create_role_row update_role_row
      delete_by_role_code find_by_role_code list_role_rows
  on_tables = record {
    roles = record {
      upsert = λ model. writes d (λ end at. upsert_role same end at model);
      create = λ model. writes d (λ end at. create_role_row same end at model);
      update = λ model. writes d (λ end at. update_role_row same end at model);
      delete_by_role_code = λ code. writes d (λ end at. delete_by_role_code same end code);
      find_by_role_code = λ code. reads d (λ f. find_by_role_code same f code);
      list = reads d (λ f. list_role_rows by_code f);
    };
    users = users_beside users;
  }
