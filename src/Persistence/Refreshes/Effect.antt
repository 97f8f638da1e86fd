-- ===== src/Persistence/Refreshes/Effect.antt =====
-- A refresh token that was revoked stays revoked, whatever happens to the table.
use sienne.Base.{
  String, ◌≡◌, refl, ap, ◌∙◌, ◌⊎◌, inl, inr, Bool, true, false, ◌&&◌, Option, none, some, List, [],
  ◌∷◌, ◌++◌, map, arith, if◌then◌else◌, Bool-cases,
}
use sienne.Base.Exec.{Fault, Result, Port}
use sienne.Base.Int.{ℤ, eqb_ℤ}
use sienne.Domain.{RefreshToken}
use sienne.Persistence.Codes.{Commit, done, undone, unheard}
use sienne.Persistence.Refreshes.{
  Refreshes, Rotation, is_active, append_row, replace_row, update_old, belongs, revoke_row,
  revoke_refresh_tokens_by_user_id, end_rotation, or_abort, select_by_sha256, insert_unless,
  create_refresh_token, rotated, write_rotation, rotate_selected, rotate_refresh_token,
}

unfoldable pub is_revoked : RefreshToken → Bool
is_revoked row = elim row.revoked_at [ none ↦ false | some _ ↦ true ]

pub replace_row-keeps :
    (at new_id old_id : ℤ) (row : RefreshToken)
    → ((replace_row at new_id old_id row).token_sha256 ≡ row.token_sha256)
      × (is_revoked row ≡ true → is_revoked (replace_row at new_id old_id row) ≡ true)
unfolding replace_row is_revoked
replace_row-keeps at new_id old_id row = (
  ground (arith, Bool-cases (eqb_ℤ row.id old_id)),
  λ h. ground (arith, Bool-cases (eqb_ℤ row.id old_id)),
)

revoke_row-keeps :
    (now at user_id : ℤ) (row : RefreshToken)
    → ((revoke_row now at user_id row).token_sha256 ≡ row.token_sha256)
      × (is_revoked row ≡ true → is_revoked (revoke_row now at user_id row) ≡ true)
unfolding revoke_row is_revoked
revoke_row-keeps now at user_id row = (
  ground (arith, Bool-cases (belongs row.user_id user_id && is_active now row)),
  λ h. ground (arith, Bool-cases (belongs row.user_id user_id && is_active now row)),
)

module _ (same : String → String → Bool) (sha : String) where
  first-or-rest :
      (test : Bool) (r row : RefreshToken) (rest : Option RefreshToken)
      → (if test then some r else rest) ≡ some row
      → ((test ≡ true) × (r ≡ row)) ⊎ ((test ≡ false) × (rest ≡ some row))
  first-or-rest true r row rest e = inl (refl, cc)
  first-or-rest false r row rest e = inr (refl, e)

  pub select-append :
      (rows more : List RefreshToken) (row : RefreshToken)
      → select_by_sha256 same sha rows ≡ some row
      → select_by_sha256 same sha (rows ++ more) ≡ some row
  unfolding select_by_sha256
  select-append [] more row e = cc
  select-append (r ∷ rows) more row e =
      elim (first-or-rest (same r.token_sha256 sha) r row (select_by_sha256 same sha rows) e) [
        | inl (yes_, here) ↦ rw yes_ (ap some here)
        | inr (no_, there) ↦ rw no_ (select-append rows more row there)
      ]

  pub select-map :
      (f : RefreshToken → RefreshToken) (rows : List RefreshToken) (row : RefreshToken)
      → ((r : RefreshToken) → (f r).token_sha256 ≡ r.token_sha256)
      → select_by_sha256 same sha rows ≡ some row
      → select_by_sha256 same sha (map f rows) ≡ some (f row)
  unfolding select_by_sha256
  select-map f [] row k e = cc
  select-map f (r ∷ rows) row k e =
      elim (first-or-rest (same r.token_sha256 sha) r row (select_by_sha256 same sha rows) e) [
        | inl (yes_, here) ↦ rw (ap (λ x. same x sha) (k r) ∙ yes_) (ap (λ x. some (f x)) here)
        | inr (no_, there) ↦ rw (ap (λ x. same x sha) (k r) ∙ no_) (select-map f rows row k there)
      ]

  -- The digest selects a row that is revoked.
  abbrev pub Retired : Refreshes → Type 0
  Retired t =
      (r : RefreshToken) × (select_by_sha256 same sha t.rows ≡ some r) × (is_revoked r ≡ true)

  append_row-Retired :
      (created_at : ℤ) (model : RefreshToken) (t : Refreshes)
      → Retired t
      → Retired (append_row created_at model t)
  unfolding append_row
  append_row-Retired created_at model t (r, e, h) = (r, select-append t.rows _ r e, h)

  update_old-Retired :
      (at new_id old_id : ℤ) (t : Refreshes) → Retired t → Retired (update_old at new_id old_id t)
  unfolding update_old
  update_old-Retired at new_id old_id t (r, e, h) = (
    replace_row at new_id old_id r,
    select-map (replace_row at new_id old_id) t.rows r
        (λ x. (replace_row-keeps at new_id old_id x).0) e,
    (replace_row-keeps at new_id old_id r).1 h,
  )

  revoke-Retired :
      (e : Option Fault) (now user_id at : ℤ) (t : Refreshes)
      → Retired t
      → Retired (revoke_refresh_tokens_by_user_id e now user_id at t).1
  unfolding revoke_refresh_tokens_by_user_id
  revoke-Retired (some f) now user_id at t h = h
  revoke-Retired none now user_id at t (r, e, h) = (
    revoke_row now at user_id r,
    select-map (revoke_row now at user_id) t.rows r (λ x. (revoke_row-keeps now at user_id x).0) e,
    (revoke_row-keeps now at user_id r).1 h,
  )

  insert_unless-Retired :
      (taken : Option RefreshToken) (created_at : ℤ) (model : RefreshToken) (t : Refreshes)
      → Retired t
      → Retired (insert_unless same taken created_at model t).1
  unfolding insert_unless
  insert_unless-Retired none created_at model t h = append_row-Retired created_at model t h
  insert_unless-Retired (some r) created_at model t h = h

  create-Retired :
      (e : Option Fault) (created_at : ℤ) (model : RefreshToken) (t : Refreshes)
      → Retired t
      → Retired (create_refresh_token same e created_at model t).1
  unfolding create_refresh_token
  create-Retired none created_at model t h = insert_unless-Retired _ created_at model t h
  create-Retired (some f) created_at model t h = h

  -- A call in a transaction.
  or_abort-keeps :
      (P : Refreshes → Type 0) (e : Option Fault) (next : Port Refreshes (Unit {0})) (t : Refreshes)
      → P t
      → P (next t).1
      → P (or_abort e next t).1
  unfolding or_abort
  or_abort-keeps P none next t h k = k
  or_abort-keeps P (some f) next t h k = h

  end_rotation-keeps :
      (P : Refreshes → Type 0) (commit : Commit) (u t : Refreshes)
      → P t
      → P u
      → P (end_rotation commit u t).1
  unfolding end_rotation
  end_rotation-keeps P done u t h k = k
  end_rotation-keeps P (undone f) u t h k = h
  end_rotation-keeps P (unheard f) u t h k = k

  rotated-Retired :
      (driver : Rotation) (created_at at : ℤ) (old new : RefreshToken) (t : Refreshes)
      → Retired t
      → Retired (rotated same driver created_at at old new t)
  unfolding rotated
  rotated-Retired driver created_at at old new t h =
      update_old-Retired at _ old.id (append_row created_at new t)
        (append_row-Retired created_at new t h)

  write_rotation-Retired :
      (driver : Rotation) (created_at at : ℤ) (old new : RefreshToken) (taken : Option RefreshToken)
      (t : Refreshes)
      → Retired t
      → Retired (write_rotation same driver created_at at old new taken t).1
  unfolding write_rotation
  write_rotation-Retired driver created_at at old new (some x) t h = h
  write_rotation-Retired driver created_at at old new none t h =
      or_abort-keeps Retired driver.update _ t h (
        end_rotation-keeps Retired driver.commit _ t h
          (rotated-Retired driver created_at at old new t h))

  if-keeps :
      (test : Bool) (x y : Result ⊥ (Unit {0}) × Refreshes)
      → Retired x.1
      → Retired y.1
      → Retired (if test then x else y).1
  if-keeps true x y h k = h
  if-keeps false x y h k = k

  rotate_selected-Retired :
      (driver : Rotation) (created_at at : ℤ) (new : RefreshToken) (found : Option RefreshToken)
      (t : Refreshes)
      → Retired t
      → Retired (rotate_selected same driver created_at at new found t).1
  unfolding rotate_selected
  rotate_selected-Retired driver created_at at new none t h = h
  rotate_selected-Retired driver created_at at new (some old) t h =
      if-keeps (is_active at old) _ _
        (or_abort-keeps Retired driver.insert _ t h
          (write_rotation-Retired driver created_at at old new _ t h))
        h

  rotate-Retired :
      (driver : Rotation) (created_at : ℤ) (old_sha : String) (at : ℤ) (new : RefreshToken)
      (t : Refreshes)
      → Retired t
      → Retired (rotate_refresh_token same driver created_at old_sha at new t).1
  unfolding rotate_refresh_token
  rotate-Retired driver created_at old_sha at new t h = or_abort-keeps Retired driver.begin _ t h (
      or_abort-keeps Retired driver.query _ t h
        (rotate_selected-Retired driver created_at at new _ t h))

module _ (same : String → String → Bool) where
  -- One operation of any request that writes to the table.
  pub data Step : Refreshes → Refreshes → Type 0 where
    created :
        (e : Option Fault) (created_at : ℤ) (model : RefreshToken) (t : Refreshes)
        → Step t (create_refresh_token same e created_at model t).1
    replaced :
        (driver : Rotation) (created_at : ℤ) (old_sha : String) (at : ℤ) (new : RefreshToken)
        (t : Refreshes)
        → Step t (rotate_refresh_token same driver created_at old_sha at new t).1
    revoked :
        (e : Option Fault) (now user_id at : ℤ) (t : Refreshes)
        → Step t (revoke_refresh_tokens_by_user_id e now user_id at t).1

  -- Any number of them.
  pub data Steps : Refreshes → Refreshes → Type 0 where
    stay : (t : Refreshes) → Steps t t
    step : {t u v : Refreshes} → Steps t u → Step u v → Steps t v

  Step-Retired :
      (sha : String) {t u : Refreshes} → Step t u → Retired same sha t → Retired same sha u
  Step-Retired sha (created e created_at model t) h = create-Retired same sha e created_at model t h
  Step-Retired sha (replaced driver created_at old_sha at new t) h =
      rotate-Retired same sha driver created_at old_sha at new t h
  Step-Retired sha (revoked e now user_id at t) h = revoke-Retired same sha e now user_id at t h

  pub Steps-Retired :
      (sha : String) {t u : Refreshes} → Steps t u → Retired same sha t → Retired same sha u
  Steps-Retired sha (stay t) h = h
  Steps-Retired sha (step ss s) h = Step-Retired sha s (Steps-Retired sha ss h)
