-- ===== src/Persistence/Codes/Marked.antt =====
-- What a consumption leaves in the table: the row it selects is marked, and the others are kept.
use sienne.Base.{
  ℕ, String, ◌≡◌, refl, ap, ◌∙◌, ◌⊎◌, inl, inr, Bool, true, false, Option, none, some, List, [],
  ◌∷◌, arith, nat_eq, nat_eq_iff, if◌then◌else◌, Bool-cases,
}
use sienne.Base.Int.{ℤ}
use sienne.Persistence.Codes.{Row, Codes, matches, consume_row, update_consumed_at, select_by_code}

-- Row by row, what has another id, or was consumed before, is as it was.
abbrev pub Kept : ℕ → List Row → List Row → Type 0
Kept id [] [] = Unit
Kept id [] (y ∷ ys) = ⊥
Kept id (x ∷ xs) [] = ⊥
Kept id (x ∷ xs) (y ∷ ys) = (matches id x ≡ false → y ≡ x) × Kept id xs ys

consume_row-unmatched :
    (at : ℤ) (id : ℕ) (row : Row) → matches id row ≡ false → consume_row at id row ≡ row
unfolding consume_row
consume_row-unmatched at id row h = rw h refl

consume_row-code : (at : ℤ) (id : ℕ) (row : Row) → (consume_row at id row).code ≡ row.code
unfolding consume_row
consume_row-code at id row = ground (arith, Bool-cases (matches id row))

consume_row-own :
    (at : ℤ) (row : Row)
    → row.consumed_at ≡ none
    → consume_row at row.id row ≡ record row { consumed_at = some at }
unfolding consume_row matches
consume_row-own at row h =
    let same : nat_eq row.id row.id ≡ true = (nat_eq_iff row.id row.id).1 refl in rw (same, h) refl

update-Kept : (at : ℤ) (id : ℕ) (rows : List Row) → Kept id rows (update_consumed_at at id rows)
unfolding update_consumed_at
update-Kept at id [] = tt
update-Kept at id (r ∷ rows) = (consume_row-unmatched at id r, update-Kept at id rows)

module _ (same : String → String → Bool) where
  select_either :
      (test : Bool) (r row : Row) (rest : Option Row)
      → (if test then some r else rest) ≡ some row
      → ((test ≡ true) × (r ≡ row)) ⊎ ((test ≡ false) × (rest ≡ some row))
  select_either true r row rest e = inl (refl, cc)
  select_either false r row rest e = inr (refl, e)

  select-update :
      (at : ℤ) (id : ℕ) (code : String) (rows : List Row) (row : Row)
      → select_by_code same code rows ≡ some row
      → select_by_code same code (update_consumed_at at id rows) ≡ some (consume_row at id row)
  unfolding select_by_code update_consumed_at
  select-update at id code [] row e = cc
  select-update at id code (r ∷ rows) row e =
      let kept = ap (λ x. same x code) (consume_row-code at id r) in
      elim (select_either (same r.code code) r row (select_by_code same code rows) e) [
        | inl (yes_, here) ↦ rw (kept ∙ yes_) (ap (λ x. some (consume_row at id x)) here)
        | inr (no_, there) ↦ rw (kept ∙ no_) (select-update at id code rows row there)
      ]

  -- The code selects the row with its mark, and every row that does not match is kept.
  pub record Marked (code : String) (at : ℤ) (row : Row) (t u : Codes) : Type 0 where
    pub same_next : u.next_id ≡ t.next_id
    pub here : select_by_code same code u.rows ≡ some (record row { consumed_at = some at })
    pub rest : Kept row.id t.rows u.rows

  pub update-Marked :
      (code : String) (at : ℤ) (row : Row) (t : Codes)
      → select_by_code same code t.rows ≡ some row
      → row.consumed_at ≡ none
      → Marked code at row t (record t { rows = update_consumed_at at row.id t.rows })
  update-Marked code at row t selected free = record {
    same_next = refl;
    here = select-update at row.id code t.rows row selected ∙ ap some (consume_row-own at row free);
    rest = update-Kept at row.id t.rows;
  }
