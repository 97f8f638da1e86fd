-- ===== src/Persistence/Refreshes/Turned.antt =====
-- What a rotation leaves in the table: the old token retired, the new one at the end, and every
-- other one as it was.
use sienne.Base.{
  ℕ, String, ◌≡◌, refl, ap, ◌∙◌, inl, inr, Bool, false, some, List, [], ◌∷◌, ◌++◌, map,
  if◌then◌else◌, Bool-cases,
}
use sienne.Base.Int.{ℤ, pos, eqb_ℤ, eqb_ℤ_iff}
use sienne.Domain.{RefreshToken}
use sienne.Persistence.Refreshes.{
  Refreshes, Rotation, inserted, append_row, replace_row, update_old, select_by_sha256, rotated,
}
use sienne.Persistence.Refreshes.Effect.{replace_row-keeps, select-append, select-map}

-- Row by row, what has another id is as it was.
abbrev pub Kept : ℤ → List RefreshToken → List RefreshToken → Type 0
Kept id [] [] = Unit
Kept id [] (y ∷ ys) = ⊥
Kept id (x ∷ xs) [] = ⊥
Kept id (x ∷ xs) (y ∷ ys) = (eqb_ℤ x.id id ≡ false → y ≡ x) × Kept id xs ys

-- The same token, whether it is retired or not.
pub record SameToken (row new : RefreshToken) : Type 0 where
  pub digest : row.token_sha256 ≡ new.token_sha256
  pub client : row.client_id ≡ new.client_id
  pub user : row.user_id ≡ new.user_id
  pub subject : row.subject ≡ new.subject
  pub scopes : row.scopes_json ≡ new.scopes_json
  pub expires : row.expires_at ≡ new.expires_at

replace_row-other :
    (at new_id id : ℤ) (row : RefreshToken)
    → eqb_ℤ row.id id ≡ false
    → replace_row at new_id id row ≡ row
unfolding replace_row
replace_row-other at new_id id row h = rw h refl

replace_row-own :
    (at new_id : ℤ) (row : RefreshToken)
    → replace_row at new_id row.id row
      ≡ record row { revoked_at = some at; replaced_by_token_id = some new_id }
unfolding replace_row
replace_row-own at new_id row = rw ((eqb_ℤ_iff row.id row.id).1 refl) refl

replace-inserted-SameToken :
    (at new_id old_id : ℤ) (id : ℕ) (created_at : ℤ) (new : RefreshToken)
    → SameToken (replace_row at new_id old_id (inserted id created_at new)) new
unfolding replace_row inserted
replace-inserted-SameToken at new_id old_id id created_at new =
    elim (Bool-cases (eqb_ℤ (pos id) old_id)) [
      | inl own ↦ rw own (record {
        digest = refl;
        client = refl;
        user = refl;
        subject = refl;
        scopes = refl;
        expires = refl;
      })
      | inr apart ↦ rw apart (record {
        digest = refl;
        client = refl;
        user = refl;
        subject = refl;
        scopes = refl;
        expires = refl;
      })
    ]

map-Kept :
    (at new_id id : ℤ) (rows : List RefreshToken)
    → Kept id rows (map (replace_row at new_id id) rows)
map-Kept at new_id id [] = tt
map-Kept at new_id id (r ∷ rows) = (replace_row-other at new_id id r, map-Kept at new_id id rows)

map-snoc :
    (f : RefreshToken → RefreshToken) (rows : List RefreshToken) (row : RefreshToken)
    → map f (rows ++ (row ∷ [])) ≡ map f rows ++ (f row ∷ [])
map-snoc f [] row = refl
map-snoc f (r ∷ rows) row = ap (λ xs. f r ∷ xs) (map-snoc f rows row)

module _ (same : String → String → Bool) where
  -- The digest selects the old token, revoked at that instant and pointed to the new id; the last row
  -- is of the new token, and before it the rows stand as they were but for the old one.
  pub record Turned (driver : Rotation) (sha : String) (at : ℤ) (old new : RefreshToken)
      (t u : Refreshes) : Type 0 where
    pub retired :
        select_by_sha256 same sha u.rows
        ≡ some (record old {
          revoked_at = some at;
          replaced_by_token_id = some (if driver.has_insert_id then pos t.next_id else new.id);
        })
    pub kept : List RefreshToken
    pub added : RefreshToken
    pub rows : u.rows ≡ kept ++ (added ∷ [])
    pub is_new : SameToken added new
    pub others : Kept old.id t.rows kept

  pub rotated-Turned :
      (driver : Rotation) (created_at : ℤ) (sha : String) (at : ℤ) (old new : RefreshToken)
      (t : Refreshes)
      → select_by_sha256 same sha t.rows ≡ some old
      → Turned driver sha at old new t (rotated same driver created_at at old new t)
  unfolding rotated update_old append_row
  rotated-Turned driver created_at sha at old new t selected =
      let new_id = if driver.has_insert_id then pos t.next_id else new.id in
      record {
        retired =
            select-map same sha (replace_row at new_id old.id) _ old
              (λ x. (replace_row-keeps at new_id old.id x).0)
              (select-append same sha t.rows _ old selected)
            ∙ ap some (replace_row-own at new_id old);
        kept = map (replace_row at new_id old.id) t.rows;
        added = replace_row at new_id old.id (inserted t.next_id created_at new);
        rows = map-snoc (replace_row at new_id old.id) t.rows (inserted t.next_id created_at new);
        is_new = replace-inserted-SameToken at new_id old.id t.next_id created_at new;
        others = map-Kept at new_id old.id t.rows;
      }
