-- ===== src/Persistence/Roles/Kept.antt =====
-- A system role's row stays as it is under every statement of the operator role repository that
-- is run for a role that is not a system role.
use sienne.Base.{
  String, ◌≡◌, refl, sym, ap, subst, ◌∙◌, inl, inr, Bool, true, false, Option, none, some, List,
  Bool-cases,
}
use sienne.Base.Exec.{Fault, ok}
use sienne.Base.Int.{ℤ}
use sienne.Base.Text.{trim_space}
use sienne.Domain.{OperatorRole}
use sienne.Persistence.Codes.{Commit, done, undone, unheard}
use sienne.Persistence.Roles.{
  Roles, ended, scan_operator_role, select_role, add_row, insert_unless, create_role_row,
  update_role_row, delete_by_role_code, find_by_role_code, list_role_rows,
}
use sienne.Persistence.Roles.System.{
  Has, IsCollation, IsSound, select_role_unique, select_role-All, add_row-IsSound, update_rows-Has,
  update_rows-IsSound, delete_rows-Has, delete_rows-IsSound,
}

-- The table is sound and the row stands in it.
abbrev pub Keeps : (String → String → Bool) → OperatorRole → Roles → Type 0
Keeps same y t = IsSound same t.rows × Has y t.rows

ended-Keeps :
    {A : Type 0} (same : String → String → Bool) (y : OperatorRole) (end : Commit) (a : A)
    (after t : Roles)
    → Keeps same y t
    → Keeps same y after
    → Keeps same y (ended end a after t).1
unfolding ended
ended-Keeps same y done a after t k l = l
ended-Keeps same y (undone f) a after t k l = k
ended-Keeps same y (unheard f) a after t k l = l

not_system : (y row : OperatorRole) → y ≡ row → y.is_system ≡ true → row.is_system ≡ false → ⊥
not_system y row e s n = cc

pub find_by_role_code-table :
    (same : String → String → Bool) (f : Option Fault) (code : String) (t : Roles)
    → (find_by_role_code same f code t).1 ≡ t
unfolding find_by_role_code
find_by_role_code-table same none code t = refl
find_by_role_code-table same (some x) code t = refl

pub list_role_rows-table :
    (by_code : List OperatorRole → List OperatorRole) (f : Option Fault) (t : Roles)
    → (list_role_rows by_code f t).1 ≡ t
unfolding list_role_rows
list_role_rows-table by_code none t = refl
list_role_rows-table by_code (some x) t = refl

scanned :
    (found : Option OperatorRole) (existing : OperatorRole)
    → elim found as (λ _. Option OperatorRole) [
      | none ↦ none
      | some row ↦ some (scan_operator_role row)
    ]
      ≡ some existing
    → (row : OperatorRole) × (found ≡ some row) × (scan_operator_role row ≡ existing)
scanned none existing h = cc
scanned (some row) existing h = (row, refl, cc)

-- A role that is found is a selected row.
pub find_by_role_code-eq-ok :
    (same : String → String → Bool) (f : Option Fault) (code : String) (t : Roles)
    (existing : OperatorRole)
    → (find_by_role_code same f code t).0 ≡ ok (some existing)
    → (row : OperatorRole) × (select_role same code t.rows ≡ some row)
      × (row.role_code ≡ existing.role_code)
      × (row.is_system ≡ existing.is_system)
unfolding find_by_role_code scan_operator_role
find_by_role_code-eq-ok same none code t existing h =
    let (row, e, s) = scanned (select_role same code t.rows) existing (cc) in
    (row, e, ap (λ (r : OperatorRole). r.role_code) s, ap (λ (r : OperatorRole). r.is_system) s)
find_by_role_code-eq-ok same (some x) code t existing h = cc

both : (test : Bool) → test ≡ true → test ≡ false → ⊥
both test h k = cc

module _ (same : String → String → Bool) (c : IsCollation same) (y : OperatorRole)
    (system : y.is_system ≡ true) where
  unnamed :
      (code : String) (row : OperatorRole) (t : Roles)
      → select_role same code t.rows ≡ some row
      → row.is_system ≡ false
      → Keeps same y t
      → same y.role_code code ≡ false
  unnamed code row t e n ((a, _), has) = elim (Bool-cases (same y.role_code code)) [
    | inl hit ↦
        absurd (not_system y row (select_role_unique same c code y row t.rows a e has hit) system n)
    | inr miss ↦ miss
  ]

  -- The code that was found and the code that was asked for are equal, so neither is that of `y`.
  unnamed_row :
      (code : String) (row : OperatorRole) (t : Roles)
      → select_role same code t.rows ≡ some row
      → row.is_system ≡ false
      → Keeps same y t
      → same y.role_code row.role_code ≡ false
  unnamed_row code row t e n k = elim (Bool-cases (same y.role_code row.role_code)) [
    | inl hit ↦
        let hit₂ =
          (select_role-All same (λ x. trim_space x.role_code ≡ x.role_code) code row t.rows k.0.1
            e).1 in
        let named =
          c.euclidean y.role_code code row.role_code hit (c.symmetric code row.role_code ∙ hit₂) in
        absurd (both (same y.role_code code) named (unnamed code row t e n k))
    | inr miss ↦ miss
  ]

  insert_unless-Keeps :
      (found : Option OperatorRole) (end : Commit) (at : ℤ) (model : OperatorRole) (t : Roles)
      → select_role same model.role_code t.rows ≡ found
      → trim_space model.role_code ≡ model.role_code
      → Keeps same y t
      → Keeps same y (insert_unless found end at model t).1
  unfolding insert_unless add_row
  insert_unless-Keeps (some row) end at model t e trimmed k = k
  insert_unless-Keeps none end at model t e trimmed k =
      ended-Keeps same y end tt (add_row at model t) t k
        (add_row-IsSound same at model t trimmed e k.0, inr k.1)

  pub create_role_row-Keeps :
      (end : Commit) (at : ℤ) (model : OperatorRole) (t : Roles)
      → trim_space model.role_code ≡ model.role_code
      → Keeps same y t
      → Keeps same y (create_role_row same end at model t).1
  unfolding create_role_row
  create_role_row-Keeps end at model t trimmed k =
      insert_unless-Keeps _ end at model t refl trimmed k

  pub update_role_row-Keeps :
      (end : Commit) (at : ℤ) (model row : OperatorRole) (code : String) (t : Roles)
      → select_role same code t.rows ≡ some row
      → row.is_system ≡ false
      → row.role_code ≡ model.role_code
      → Keeps same y t
      → Keeps same y (update_role_row same end at model t).1
  unfolding update_role_row
  update_role_row-Keeps end at model row code t e n r (sound, has) =
      let (trimmed, _) =
        select_role-All same (λ x. trim_space x.role_code ≡ x.role_code) code row t.rows sound.1
          e in
      let other_row : same y.role_code (trim_space model.role_code) ≡ false =
        subst (λ x. same y.role_code (trim_space x) ≡ false) r
          (subst (λ x. same y.role_code x ≡ false) (sym trimmed)
            (unnamed_row code row t e n (sound, has))) in
      ended-Keeps same y end tt _ t (sound, has)
        (
          update_rows-IsSound same at model t.rows sound,
          update_rows-Has same at model y t.rows other_row has,
        )

  pub delete_by_role_code-Keeps :
      (end : Commit) (code : String) (row : OperatorRole) (t : Roles)
      → select_role same (trim_space code) t.rows ≡ some row
      → row.is_system ≡ false
      → Keeps same y t
      → Keeps same y (delete_by_role_code same end code t).1
  unfolding delete_by_role_code
  delete_by_role_code-Keeps end code row t e n (sound, has) =
      ended-Keeps same y end tt _ t (sound, has)
        (
          delete_rows-IsSound same (trim_space code) t.rows sound,
          delete_rows-Has same (trim_space code) y t.rows
              (unnamed (trim_space code) row t e n (sound, has)) has,
        )
