-- ===== src/Roles/Protected.antt =====
-- System roles under the operator role service of internal/application/rbac, on its repository.
use sienne.Base.{
  String, ◌≡◌, refl, sym, ap, subst, ◌∙◌, Bool, true, false, not, Option, none, some, List,
}
use sienne.Base.Exec.{ok, pure, fail, call}
use sienne.Base.Int.{pos, ltb_ℤ}
use sienne.Base.Text.{trim_space, trim_space_idem}
use sienne.Domain.{OperatorRole}
use sienne.Ports.{Users}
use sienne.Base.Exec.Ends.{>>=-Ends, call-Ends, require-Ends, guard-Ends}
use sienne.Persistence.Roles.{
  Roles, select_role, update_role_row, delete_by_role_code, find_by_role_code,
}
use sienne.Persistence.Roles.System.{Has, IsCollation, IsSound}
use sienne.Persistence.Roles.Kept.{
  Keeps, find_by_role_code-table, find_by_role_code-eq-ok, create_role_row-Keeps,
  update_role_row-Keeps, delete_by_role_code-Keeps,
}
use sienne.Roles.Tables.{Database, writes, reads, beside, users_beside, on_tables}
use sienne.Roles.{
  Service, Err, UpsertRoleInput, DeleteRoleInput, AssignRoleInput, new_role, changed_role,
  check_input, store_new, create_role, update_role, delete_role, assign_role,
}

false_of_not : (test : Bool) → not test ≡ true → test ≡ false
false_of_not true h = cc
false_of_not false h = refl

module _ {R : Type 0} (same : String → String → Bool)
    (by_code : List OperatorRole → List OperatorRole) (d : Database R) (users : Users R) where
  abbrev pub service : Service (Roles × R)
  service = on_tables same by_code d users

  -- A request to the service, whatever it answers.
  pub data Step : Roles × R → Roles × R → Type 0 where
    creates : (input : UpsertRoleInput) (w : Roles × R) → Step w (create_role service input w).1
    updates : (input : UpsertRoleInput) (w : Roles × R) → Step w (update_role service input w).1
    deletes : (input : DeleteRoleInput) (w : Roles × R) → Step w (delete_role service input w).1
    assigns : (input : AssignRoleInput) (w : Roles × R) → Step w (assign_role service input w).1

  pub data Steps : Roles × R → Roles × R → Type 0 where
    stay : (w : Roles × R) → Steps w w
    step : {t u v : Roles × R} → Steps t u → Step u v → Steps t v

  module _ (c : IsCollation same) (y : OperatorRole) (system : y.is_system ≡ true) where
    abbrev Holds : Roles × R → Type 0
    Holds w = Keeps same y w.0

    check-Holds : (o : Option Err) (w : Roles × R) → Holds w → Holds (check_input service o w).1
    unfolding check_input pure fail
    check-Holds none w k = k
    check-Holds (some e) w k = k

    find-Holds :
        (code : String) (w : Roles × R)
        → Holds w
        → Holds (reads d (λ f. find_by_role_code same f code) w).1
    unfolding reads
    find-Holds code w k =
        subst (Keeps same y) (sym (find_by_role_code-table same (d.query w.1).0 code w.0)) k

    store-Holds :
        (found : Option OperatorRole) (input : UpsertRoleInput) (w : Roles × R)
        → Holds w
        → Holds (store_new service found input w).1
    unfolding store_new on_tables writes new_role pure fail
    store-Holds (some existing) input w k = k
    store-Holds none input w k =
        let stored =
          create_role_row-Keeps same c y system _ _ (new_role input) w.0
            (trim_space_idem input.role_code) k in
        call-Ends Holds _ _ w stored (λ a e. stored)

    creates-Holds :
        (input : UpsertRoleInput) (w : Roles × R) → Holds w → Holds (create_role service input w).1
    unfolding create_role on_tables
    creates-Holds input w k = >>=-Ends Holds _ _ w (check-Holds _ w k) (λ u checked.
        call-Ends Holds _ _ _ (find-Holds _ _ (check-Holds _ w k))
          (λ found asked. store-Holds found input _ (find-Holds _ _ (check-Holds _ w k))))

    -- A role that was found as no system role, in the table as it stands.
    found-row :
        (code : String) (existing : OperatorRole) (w : Roles × R)
        → (reads d (λ f. find_by_role_code same f code) w).0 ≡ ok (some existing)
        → (row : OperatorRole) × (select_role same code
              (reads d (λ f. find_by_role_code same f code) w).1.0.rows
            ≡ some row)
          × (row.role_code ≡ existing.role_code)
          × (row.is_system ≡ existing.is_system)
    unfolding reads
    found-row code existing w e =
        let (row, hit, r, s) = find_by_role_code-eq-ok same (d.query w.1).0 code w.0 existing e in
        (
          row,
          subst (λ t. select_role same code t.rows ≡ some row)
              (sym (find_by_role_code-table same (d.query w.1).0 code w.0)) hit,
          r,
          s,
        )

    update-Holds :
        (model row : OperatorRole) (code : String) (w : Roles × R)
        → select_role same code w.0.rows ≡ some row
        → row.is_system ≡ false
        → row.role_code ≡ model.role_code
        → Holds w
        → Holds (writes d (λ end at. update_role_row same end at model) w).1
    unfolding writes
    update-Holds model row code w hit n r k =
        update_role_row-Keeps same c y system _ _ model row code w.0 hit n r k

    delete-Holds :
        (row : OperatorRole) (code : String) (w : Roles × R)
        → trim_space code ≡ code
        → select_role same code w.0.rows ≡ some row
        → row.is_system ≡ false
        → Holds w
        → Holds (writes d (λ end at. delete_by_role_code same end code) w).1
    unfolding writes
    delete-Holds row code w trimmed hit n k =
        delete_by_role_code-Keeps same c y system _ code row w.0
          (subst (λ x. select_role same x w.0.rows ≡ some row) (sym trimmed) hit) n k

    updates-Holds :
        (input : UpsertRoleInput) (w : Roles × R) → Holds w → Holds (update_role service input w).1
    unfolding update_role on_tables changed_role pure
    updates-Holds input w k = >>=-Ends Holds _ _ w (check-Holds _ w k) (λ u checked.
        let k₁ = find-Holds (trim_space input.role_code) _ (check-Holds _ w k) in
        call-Ends Holds _ _ _ k₁ (λ found asked.
          require-Ends Holds found _ _ _ k₁ (λ existing is_some.
            guard-Ends Holds (not existing.is_system) _ _ _ k₁ (λ free.
              let (row, hit, r, s) =
                found-row (trim_space input.role_code) existing _ (asked ∙ ap ok is_some) in
              let k₂ =
                update-Holds (changed_role input existing) row (trim_space input.role_code) _ hit
                  (s ∙ false_of_not existing.is_system free) r k₁ in
              call-Ends Holds _ _ _ k₂ (λ a e. k₂)))))

    deletes-Holds :
        (input : DeleteRoleInput) (w : Roles × R) → Holds w → Holds (delete_role service input w).1
    unfolding delete_role on_tables users_beside beside call
    deletes-Holds input w k = guard-Ends Holds _ _ _ w k (λ shaped.
        let k₁ = find-Holds (trim_space input.role_code) w k in
        call-Ends Holds _ _ _ k₁ (λ found asked.
          require-Ends Holds found _ _ _ k₁ (λ existing is_some.
            guard-Ends Holds (not existing.is_system) _ _ _ k₁ (λ free.
              call-Ends Holds _ _ _ k₁ (λ count counted.
                guard-Ends Holds (not (ltb_ℤ (pos 0) count)) _ _ _ k₁ (λ unused.
                  let (row, hit, r, s) =
                    found-row (trim_space input.role_code) existing w (asked ∙ ap ok is_some) in
                  delete-Holds row (trim_space input.role_code) _ (trim_space_idem input.role_code)
                    hit (s ∙ false_of_not existing.is_system free) k₁))))))

    assigns-Holds :
        (input : AssignRoleInput) (w : Roles × R) → Holds w → Holds (assign_role service input w).1
    unfolding assign_role on_tables users_beside beside pure
    assigns-Holds input w k = guard-Ends Holds _ _ _ w k (λ known.
        guard-Ends Holds _ _ _ w k (λ filled. guard-Ends Holds _ _ _ w k (λ short.
          call-Ends Holds _ _ w k (λ found asked. require-Ends Holds found _ _ _ k (λ user is_user.
            let k₁ = find-Holds (trim_space input.role_code) _ k in
            call-Ends Holds _ _ _ k₁ (λ role looked.
              require-Ends Holds role _ _ _ k₁
                (λ r is_role. call-Ends Holds _ _ _ k₁ (λ a e. k₁))))))))

    Step-Holds : {u v : Roles × R} → Step u v → Holds u → Holds v
    Step-Holds (creates input w) k = creates-Holds input w k
    Step-Holds (updates input w) k = updates-Holds input w k
    Step-Holds (deletes input w) k = deletes-Holds input w k
    Step-Holds (assigns input w) k = assigns-Holds input w k

    Steps-Holds : {u v : Roles × R} → Steps u v → Holds u → Holds v
    Steps-Holds (stay w) k = k
    Steps-Holds (step ss s) k = Step-Holds s (Steps-Holds ss k)

  -- In a table whose role codes are pairwise apart and have no space around them, where texts that
  -- the collation finds equal to one text are equal: the row of a system role stays in the table
  -- as it is under any sequence of requests to create, update, delete and assign roles, whatever
  -- they answer and however the statements of the database end.
  pub Steps-system_kept :
      (c : IsCollation same) (y : OperatorRole) (u v : Roles × R)
      → y.is_system ≡ true
      → IsSound same u.0.rows
      → Has y u.0.rows
      → Steps u v
      → Has y v.0.rows
  Steps-system_kept c y u v system sound has steps = (Steps-Holds c y system steps (sound, has)).1
