-- ===== src/Persistence/Refreshes/Single.antt =====
-- A rotation is done whole or not at all, and once for each token.
use sienne.Base.{
  String, ◌≡◌, refl, sym, ap, subst, ◌∙◌, ◌≢◌, ◌⊎◌, inl, inr, Bool, true, false, Option, none, some,
  arith, if◌then◌else◌,
}
use sienne.Base.Exec.{Fault, no_rows, Result, ok, fault, Port}
use sienne.Base.Int.{ℤ, pos, eqb_ℤ_iff}
use sienne.Domain.{RefreshToken}
use sienne.Persistence.Codes.{Commit, done, undone, unheard}
use sienne.Persistence.Refreshes.{
  Refreshes, Rotation, is_active, append_row, replace_row, update_old, end_rotation, or_abort,
  select_by_sha256, rotated, write_rotation, rotate_selected, rotate_refresh_token,
}
use sienne.Persistence.Refreshes.Effect.{
  is_revoked, replace_row-keeps, Retired, select-append, select-map, Steps, Steps-Retired,
}
use sienne.Persistence.Refreshes.Turned.{Turned, rotated-Turned}

replaced_row :
    (at new_id : ℤ) (row : RefreshToken) → is_revoked (replace_row at new_id row.id row) ≡ true
unfolding is_revoked replace_row
replaced_row at new_id row = ground (arith, (eqb_ℤ_iff row.id row.id).1 refl)

module _ (same : String → String → Bool) where
  -- A rotation that took place: of an active token that the digest selects, to one whose digest was
  -- not in the table.
  pub record Replacement (driver : Rotation) (created_at : ℤ) (sha : String) (at : ℤ)
      (new : RefreshToken) (t u : Refreshes) : Type 0 where
    pub old : RefreshToken
    pub selected : select_by_sha256 same sha t.rows ≡ some old
    pub active : is_active at old ≡ true
    pub fresh : select_by_sha256 same new.token_sha256 t.rows ≡ none
    pub table : u ≡ rotated same driver created_at at old new t
    pub turned : Turned same driver sha at old new t u

  module _ (driver : Rotation) (created_at : ℤ) (sha : String) (at : ℤ) (new : RefreshToken)
      (t : Refreshes) where
    -- The table is as it was, or the rotation took place; it did if there was no error.
    abbrev pub Outcome : Result ⊥ (Unit {0}) × Refreshes → Type 0
    Outcome r = ((r.0 ≢ ok tt) × (r.1 ≡ t)) ⊎ Replacement driver created_at sha at new t r.1

    or_abort-Outcome :
        (e : Option Fault) (next : Port Refreshes (Unit {0}))
        → Outcome (next t)
        → Outcome (or_abort e next t)
    unfolding or_abort
    or_abort-Outcome none next h = h
    or_abort-Outcome (some f) next h = inl (λ e. cc, refl)

    end_rotation-Outcome :
        (commit : Commit) (u : Refreshes)
        → Replacement driver created_at sha at new t u
        → Outcome (end_rotation commit u t)
    unfolding end_rotation
    end_rotation-Outcome done u h = inr h
    end_rotation-Outcome (undone f) u h = inl (λ e. cc, refl)
    end_rotation-Outcome (unheard f) u h = inr h

    write_rotation-Outcome :
        (old : RefreshToken) (taken : Option RefreshToken)
        → select_by_sha256 same sha t.rows ≡ some old
        → is_active at old ≡ true
        → select_by_sha256 same new.token_sha256 t.rows ≡ taken
        → Outcome (write_rotation same driver created_at at old new taken t)
    unfolding write_rotation
    write_rotation-Outcome old (some x) selected active fresh = inl (λ e. cc, refl)
    write_rotation-Outcome old none selected active fresh = or_abort-Outcome driver.update _ (
        end_rotation-Outcome driver.commit _ (record {
          old = old;
          selected = selected;
          active = active;
          fresh = fresh;
          table = refl;
          turned = rotated-Turned same driver created_at sha at old new t selected;
        }))

    if-Outcome :
        (test : Bool) (x : Result ⊥ (Unit {0}) × Refreshes)
        → (test ≡ true → Outcome x)
        → Outcome (if test then x else (fault no_rows, t))
    if-Outcome true x h = h refl
    if-Outcome false x h = inl (λ e. cc, refl)

    rotate_selected-Outcome :
        (found : Option RefreshToken)
        → select_by_sha256 same sha t.rows ≡ found
        → Outcome (rotate_selected same driver created_at at new found t)
    unfolding rotate_selected
    rotate_selected-Outcome none selected = inl (λ e. cc, refl)
    rotate_selected-Outcome (some old) selected = if-Outcome (is_active at old) _ (λ active.
        or_abort-Outcome driver.insert _ (write_rotation-Outcome old _ selected active refl))

    -- A rotation is done whole or not at all: either it reports an error and the table is as it was,
    -- or the digest selected an active token and the new digest was not in the table. In the table that
    -- is then left the digest selects that same token, revoked at the instant and pointed to the id of
    -- the new one, or to the id that the new one came with where the driver gives none; the last row is
    -- of the new token, with its client, user, subject and scopes; and the rows of other ids are as
    -- they were. The latter may come with an error too, where the driver does not hear of the commit.
    pub rotate_refresh_token-atomic :
        Outcome (rotate_refresh_token same driver created_at sha at new t)
    unfolding rotate_refresh_token
    rotate_refresh_token-atomic =
        or_abort-Outcome driver.begin _
          (or_abort-Outcome driver.query _ (rotate_selected-Outcome _ refl))

    replaced-Retired :
        (u : Refreshes) → Replacement driver created_at sha at new t u → Retired same sha u
    unfolding rotated update_old append_row
    replaced-Retired u r =
        let new_id = if driver.has_insert_id then pos t.next_id else new.id in
        subst (Retired same sha) (sym r.table) (
          replace_row at new_id r.old.id r.old,
          select-map same sha (replace_row at new_id r.old.id) _ r.old
              (λ x. (replace_row-keeps at new_id r.old.id x).0)
              (select-append same sha t.rows _ r.old r.selected),
          replaced_row at new_id r.old,
        )

    inactive : (r : RefreshToken) → is_revoked r ≡ true → is_active at r ≡ false
    unfolding is_revoked is_active
    inactive r h = ground arith

    Retired-refused :
        (u : Refreshes) (x : Unit {0})
        → Retired same sha t
        → rotate_refresh_token same driver created_at sha at new t ≡ (ok x, u)
        → ⊥
    Retired-refused u x (r, e, h) done_ = elim rotate_refresh_token-atomic [
      | inl (failed, _) ↦ failed (ap (λ p. p.0) done_)
      | inr p ↦
          true_false
            (sym p.active ∙ ap (is_active at) (same_some (sym p.selected ∙ e)) ∙ inactive r h)
    ]
      where
        true_false : true ≡ false → ⊥
        true_false c = cc

        same_some : {a b : RefreshToken} → some a ≡ some b → a ≡ b
        same_some c = cc

  -- A token is rotated once: after a rotation without an error, and any further insertions,
  -- rotations and revocations, with whatever errors of the driver, no rotation of the same digest
  -- goes without an error.
  pub rotate_refresh_token-once :
      (driver driver₂ : Rotation) (created_at created_at₂ : ℤ) (sha : String) (at at₂ : ℤ)
      (new new₂ : RefreshToken) (t u v x : Refreshes)
      → rotate_refresh_token same driver created_at sha at new t ≡ (ok tt, u)
      → Steps same u v
      → rotate_refresh_token same driver₂ created_at₂ sha at₂ new₂ v ≢ (ok tt, x)
  rotate_refresh_token-once driver driver₂ created_at created_at₂ sha at at₂ new new₂ t u v x first
        between second =
      Retired-refused driver₂ created_at₂ sha at₂ new₂ v x tt
        (Steps-Retired same sha between
          (after_first (rotate_refresh_token-atomic driver created_at sha at new t)))
        second
    where
      after_first :
          Outcome driver created_at sha at new t
            (rotate_refresh_token same driver created_at sha at new t)
          → Retired same sha u
      after_first (inl (failed, _)) = absurd (failed (ap (λ p. p.0) first))
      after_first (inr p) =
          subst (Retired same sha) (ap (λ p. p.1) first)
            (replaced-Retired driver created_at sha at new t _ p)
