-- ===== src/Tests/Roles.antt =====
-- Operator roles on a small table, and witnesses for their theorems.
use sienne.Base.{
  String, ◌≡◌, refl, sym, ap, ◌∙◌, inl, inr, Bool, none, [], ◌∷◌, ◌==◌, eq_iff, Bool-cases,
}
use sienne.Base.Exec.{ok, ◌>>=◌}
use sienne.Base.Int.{pos}
use sienne.Base.Text.{trim_space}
use sienne.Domain.{OperatorRole}
use sienne.Persistence.Codes.{done}
use sienne.Persistence.Roles.{Roles}
use sienne.Persistence.Roles.System.{Has, IsCollation, IsSound}
use sienne.Roles.{
  Service, UpsertRoleInput, DeleteRoleInput, builtin, role_code_pattern, role_input_error, new_role,
  to_role_view, create_role, update_role, delete_role,
}
use sienne.Roles.Shape.{Created, create_role-Created, Gone, delete_role-Gone}
use sienne.Roles.Tables.{Database, on_tables, writes, reads, beside, users_beside}
use sienne.Roles.Protected.{
  service, creates, updates, deletes, Steps, stay, step, Steps-system_kept,
}
use sienne.Tests.World.{World, users}

abbrev database : Database World
database = record { statement = λ w. (done, w); query = λ w. (none, w); time = λ w. pos 0 }

abbrev same : String → String → Bool
same a b = a == b

same_comm : (a b : String) → same a b ≡ same b a
same_comm a b = elim (Bool-cases (a == b)) [
  | inl hit ↦ hit ∙ sym ((eq_iff b a).1 (sym ((eq_iff a b).0 hit)))
  | inr miss ↦ elim (Bool-cases (b == a)) [
    | inl hit ↦ (eq_iff a b).1 (sym ((eq_iff b a).0 hit)) ∙ sym hit
    | inr miss₂ ↦ miss ∙ sym miss₂
  ]
]

same-IsCollation : IsCollation same
same-IsCollation = record {
  symmetric = same_comm;
  euclidean = λ a b c h k. (eq_iff a b).1 ((eq_iff a c).0 h ∙ sym ((eq_iff b c).0 k));
}

abbrev admin : OperatorRole
admin = record (builtin "super_admin" "Super" "full access" 7) { id = pos 1 }

abbrev table : Roles
table = record { next_id = 2; rows = admin ∷ [] }

abbrev rename : UpsertRoleInput
rename = record {
  role_code = "super_admin";
  display_name = "Mallory";
  description = "taken over";
  privilege_mask = 0;
}

abbrev fresh : UpsertRoleInput
fresh = record rename { role_code = " desk " }

abbrev remove : DeleteRoleInput
remove = record { role_code = "desk" }

abbrev start : Roles × World
start = (table, [])

abbrev roles : Service (Roles × World)
roles = service same (λ rows. rows) database users

table-IsSound : IsSound same table.rows
unfolding trim_space
table-IsSound = ((tt, tt), (refl, tt))

-- Attempts to change the administrator's role, between a creation and a deletion of another.
abbrev last : Roles × World
last = (delete_role roles remove (update_role roles rename (create_role roles fresh start).1).1).1

run : Steps same (λ rows. rows) database users start last
run =
    step
      (step (step (stay start) (creates fresh start))
        (updates rename (create_role roles fresh start).1))
      (deletes remove (update_role roles rename (create_role roles fresh start).1).1)

Steps-system_kept_example : Has admin last.0.rows
Steps-system_kept_example =
    Steps-system_kept same (λ rows. rows) database users same-IsCollation admin start last refl
      table-IsSound (inl refl) run

created : create_role roles fresh start ≡ (
  ok (to_role_view (new_role fresh)),
  (
    record {
      next_id = 3;
      rows =
          record (new_role fresh) { id = pos 2; created_at = pos 0; updated_at = pos 0 }
          ∷ admin
          ∷ [];
    },
    [],
  ),
)
unfolding create_role ◌>>=◌ trim_space role_input_error new_role to_role_view on_tables writes reads
created = refl

create_role-Created_example :
    Created roles fresh start (create_role roles fresh start).1 (to_role_view (new_role fresh))
create_role-Created_example =
    create_role-Created roles fresh start (create_role roles fresh start).1
      (to_role_view (new_role fresh))
      (created ∙ ap (λ x. (ok (to_role_view (new_role fresh)), x)) (sym (ap (λ x. x.1) created)))

abbrev with_desk : Roles × World
with_desk = (create_role roles fresh start).1

deleted :
    delete_role roles remove with_desk ≡ (ok tt, (record { next_id = 3; rows = admin ∷ [] }, []))
unfolding create_role delete_role ◌>>=◌ trim_space role_code_pattern role_input_error new_role
    to_role_view on_tables writes reads beside users_beside
deleted = refl

delete_role-Gone_example :
    Gone roles remove with_desk (record { next_id = 3; rows = admin ∷ [] }, [])
delete_role-Gone_example =
    delete_role-Gone roles remove with_desk (record { next_id = 3; rows = admin ∷ [] }, []) deleted
