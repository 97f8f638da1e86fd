-- ===== src/Persistence/Roles/System.antt =====
-- What the statements of the operator role repository leave as it is: role codes stay apart, and
-- a row whose code a statement does not name stays.
use sienne.Base.{
  String, ◌≡◌, refl, sym, subst, ◌∙◌, ◌⊎◌, inl, inr, Bool, true, false, Option, none, some, List,
  [], ◌∷◌, arith, if◌then◌else◌, Bool-cases, All, Any,
}
use sienne.Base.Int.{ℤ}
use sienne.Base.Text.{trim_space}
use sienne.Domain.{OperatorRole}
use sienne.Persistence.Roles.{
  Roles, inserted_role, add_row, update_row, select_role, update_rows, delete_rows,
}

-- The row stands in the table.
abbrev pub Has : OperatorRole → List OperatorRole → Type 0
Has y = Any (λ x. x ≡ y)

-- Texts that are equal to the same text are equal.
pub record IsCollation (same : String → String → Bool) : Type 0 where
  pub symmetric : (a b : String) → same a b ≡ same b a
  pub euclidean : (a b c : String) → same a c ≡ true → same b c ≡ true → same a b ≡ true

not_both : (test : Bool) → test ≡ true → test ≡ false → ⊥
not_both test h k = cc

update_row-role_code :
    (test : Bool) (at : ℤ) (model row : OperatorRole)
    → (update_row test at model row).role_code ≡ row.role_code
unfolding update_row
update_row-role_code true at model row = refl
update_row-role_code false at model row = refl

update_row_unnamed :
    (at : ℤ) (model row y : OperatorRole)
    → row ≡ y
    → (test : Bool) → test ≡ false
    → update_row test at model row ≡ y
unfolding update_row
update_row_unnamed at model row y e true h = cc
update_row_unnamed at model row y e false h = e

module _ (same : String → String → Bool) where
  -- No other row has a code equal to `code`.
  abbrev pub Free : String → List OperatorRole → Type 0
  Free code = All (λ r. same r.role_code code ≡ false)

  abbrev pub Apart : List OperatorRole → Type 0
  Apart [] = Unit
  Apart (r ∷ rows) = Free r.role_code rows × Apart rows

  -- Codes are pairwise apart and have no space around them.
  abbrev pub IsSound : List OperatorRole → Type 0
  IsSound rows = Apart rows × All (λ r. trim_space r.role_code ≡ r.role_code) rows

  Free-Has :
      (code : String) (y : OperatorRole) (rows : List OperatorRole)
      → Free code rows
      → Has y rows
      → same y.role_code code ≡ false
  Free-Has code y [] f h = absurd h
  Free-Has code y (r ∷ rows) (f, fs) (inl here) = subst (λ x. same x.role_code code ≡ false) here f
  Free-Has code y (r ∷ rows) (f, fs) (inr there) = Free-Has code y rows fs there

  if_select :
      (test : Bool) (r row : OperatorRole) (rest : Option OperatorRole)
      → (if test then some r else rest) ≡ some row
      → ((test ≡ true) × (r ≡ row)) ⊎ ((test ≡ false) × (rest ≡ some row))
  if_select true r row rest e = inl (refl, cc)
  if_select false r row rest e = inr (refl, e)

  -- The selected row is the only one with that code.
  pub select_role_unique :
      (c : IsCollation same) (code : String) (y row : OperatorRole) (rows : List OperatorRole)
      → Apart rows
      → select_role same code rows ≡ some row
      → Has y rows
      → same y.role_code code ≡ true
      → y ≡ row
  unfolding select_role
  select_role_unique c code y row [] a e h m = absurd h
  select_role_unique c code y row (r ∷ rows) (f, a) e h m =
      elim (if_select (same r.role_code code) r row (select_role same code rows) e) [
        | inl (hit, is_row) ↦ elim h [
          | inl here ↦ sym here ∙ is_row
          | inr there ↦ absurd (
              not_both (same y.role_code r.role_code) (c.euclidean _ _ code m hit)
                (Free-Has r.role_code y rows f there))
        ]
        | inr (miss, later) ↦ elim h [
          | inl here ↦ absurd (
              not_both (same r.role_code code)
                (subst (λ x. same x.role_code code ≡ true) (sym here) m) miss)
          | inr there ↦ select_role_unique c code y row rows a later there m
        ]
      ]

  pub select_role-All :
      (P : OperatorRole → Type 0) (code : String) (row : OperatorRole) (rows : List OperatorRole)
      → All P rows
      → select_role same code rows ≡ some row
      → P row × (same row.role_code code ≡ true)
  unfolding select_role
  select_role-All P code row [] a e = cc
  select_role-All P code row (r ∷ rows) (p, ps) e =
      elim (if_select (same r.role_code code) r row (select_role same code rows) e) [
        | inl (hit, is_row) ↦ subst (λ x. P x × (same x.role_code code ≡ true)) is_row (p, hit)
        | inr (miss, later) ↦ select_role-All P code row rows ps later
      ]

  select_role-none :
      (code : String) (rows : List OperatorRole)
      → select_role same code rows ≡ none
      → Free code rows
  unfolding select_role
  select_role-none code [] e = tt
  select_role-none code (r ∷ rows) e = elim (Bool-cases (same r.role_code code)) [
    | inl hit ↦ ground arith
    | inr miss ↦ (miss, select_role-none code rows (ground arith))
  ]

  pub add_row-IsSound :
      (at : ℤ) (model : OperatorRole) (table : Roles)
      → trim_space model.role_code ≡ model.role_code
      → select_role same model.role_code table.rows ≡ none
      → IsSound table.rows
      → IsSound (add_row at model table).rows
  unfolding add_row inserted_role
  add_row-IsSound at model table trimmed e (a, t) =
      ((select_role-none model.role_code table.rows e, a), (trimmed, t))

  -- A row whose code is not the updated one.
  pub update_rows-Has :
      (at : ℤ) (model y : OperatorRole) (rows : List OperatorRole)
      → same y.role_code (trim_space model.role_code) ≡ false
      → Has y rows
      → Has y (update_rows same at model rows)
  unfolding update_rows
  update_rows-Has at model y [] m h = h
  update_rows-Has at model y (r ∷ rows) m (inr there) =
      inr (update_rows-Has at model y rows m there)
  update_rows-Has at model y (r ∷ rows) m (inl here) = inl (
      update_row_unnamed at model r y here _
        (subst (λ x. same x.role_code (trim_space model.role_code) ≡ false) (sym here) m))

  update_rows-Free :
      (code : String) (at : ℤ) (model : OperatorRole) (rows : List OperatorRole)
      → Free code rows
      → Free code (update_rows same at model rows)
  unfolding update_rows
  update_rows-Free code at model [] f = tt
  update_rows-Free code at model (r ∷ rows) (f, fs) = (
    subst (λ c. same c code ≡ false) (sym (update_row-role_code _ at model r)) f,
    update_rows-Free code at model rows fs,
  )

  pub update_rows-IsSound :
      (at : ℤ) (model : OperatorRole) (rows : List OperatorRole)
      → IsSound rows
      → IsSound (update_rows same at model rows)
  unfolding update_rows
  update_rows-IsSound at model [] s = (tt, tt)
  update_rows-IsSound at model (r ∷ rows) ((f, a), (t, ts)) =
      let (a', ts') = update_rows-IsSound at model rows (a, ts) in
      let e = update_row-role_code (same r.role_code (trim_space model.role_code)) at model r in
      (
        (
          subst (λ c. Free c (update_rows same at model rows)) (sym e)
              (update_rows-Free r.role_code at model rows f),
          a',
        ),
        (subst (λ c. trim_space c ≡ c) (sym e) t, ts'),
      )

  pub delete_rows-Has :
      (code : String) (y : OperatorRole) (rows : List OperatorRole)
      → same y.role_code code ≡ false
      → Has y rows
      → Has y (delete_rows same code rows)
  unfolding delete_rows
  delete_rows-Has code y [] m h = h
  delete_rows-Has code y (r ∷ rows) m (inl here) =
      rw (subst (λ x. same x.role_code code ≡ false) (sym here) m) (inl here)
  delete_rows-Has code y (r ∷ rows) m (inr there) = elim (Bool-cases (same r.role_code code)) [
    | inl hit ↦ rw hit (delete_rows-Has code y rows m there)
    | inr miss ↦ rw miss (inr (delete_rows-Has code y rows m there))
  ]

  delete_rows-All :
      (P : OperatorRole → Type 0) (code : String) (rows : List OperatorRole)
      → All P rows
      → All P (delete_rows same code rows)
  unfolding delete_rows
  delete_rows-All P code [] h = tt
  delete_rows-All P code (r ∷ rows) (p, ps) = elim (Bool-cases (same r.role_code code)) [
    | inl hit ↦ rw hit (delete_rows-All P code rows ps)
    | inr miss ↦ rw miss (p, delete_rows-All P code rows ps)
  ]

  pub delete_rows-IsSound :
      (code : String) (rows : List OperatorRole)
      → IsSound rows
      → IsSound (delete_rows same code rows)
  unfolding delete_rows
  delete_rows-IsSound code [] s = (tt, tt)
  delete_rows-IsSound code (r ∷ rows) ((f, a), (t, ts)) =
      let (a', ts') = delete_rows-IsSound code rows (a, ts) in
      elim (Bool-cases (same r.role_code code)) [
        | inl hit ↦ rw hit (a', ts')
        | inr miss ↦ rw miss ((delete_rows-All _ code rows f, a'), (t, ts'))
      ]
