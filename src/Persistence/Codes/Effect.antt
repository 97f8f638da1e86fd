-- ===== src/Persistence/Codes/Effect.antt =====
-- What the operations on the table of codes leave as it is: ids are not given twice, and a consumed
-- row is not freed.
use sienne.Base.{
  ℕ, suc, ◌<◌, String, ◌≡◌, refl, sym, subst, ◌⊎◌, inl, inr, Bool, true, false, Option, none, some,
  List, [], ◌∷◌, arith, nat_eq, if◌then◌else◌, Bool-cases, All,
}
use sienne.Base.Exec.{Fault, Result, Port}
use sienne.Base.Int.{ℤ}
use sienne.Domain.{AuthorizationCode}
use sienne.Persistence.Codes.{
  Row, Codes, Commit, done, undone, unheard, Driver, new_row, matches, consume_row,
  update_consumed_at, rows_affected, usable, insert, create, finish, or_roll_back, update,
  consume_selected, consume_by_code,
}

-- No row of this id is left to consume.
abbrev pub Spent : ℕ → List Row → Type 0
Spent id = All (λ r. matches id r ≡ false)

abbrev pub Bounded : Codes → Type 0
Bounded t = All (λ r. r.id < t.next_id) t.rows

consume_row-matches : (at : ℤ) (id : ℕ) (r : Row) → matches id (consume_row at id r) ≡ false
unfolding consume_row matches
consume_row-matches at id r = ground (arith, Bool-cases (matches id r))

consume_row-keeps :
    (at : ℤ) (id id₂ : ℕ) (r : Row)
    → matches id r ≡ false
    → matches id (consume_row at id₂ r) ≡ false
unfolding consume_row matches
consume_row-keeps at id id₂ r h = ground (arith, Bool-cases (matches id₂ r))

pub update-Spent : (at : ℤ) (id : ℕ) (rows : List Row) → Spent id (update_consumed_at at id rows)
unfolding update_consumed_at
update-Spent at id [] = tt
update-Spent at id (r ∷ rows) = (consume_row-matches at id r, update-Spent at id rows)

update-keeps :
    (at : ℤ) (id id₂ : ℕ) (rows : List Row)
    → Spent id rows
    → Spent id (update_consumed_at at id₂ rows)
unfolding update_consumed_at
update-keeps at id id₂ [] h = tt
update-keeps at id id₂ (r ∷ rows) (h, hs) =
    (consume_row-keeps at id id₂ r h, update-keeps at id id₂ rows hs)

consume_row-id : (at : ℤ) (id : ℕ) (r : Row) → (consume_row at id r).id ≡ r.id
unfolding consume_row
consume_row-id at id r = ground (arith, Bool-cases (matches id r))

update-Bounded :
    (at : ℤ) (id n : ℕ) (rows : List Row)
    → All (λ r. r.id < n) rows
    → All (λ r. r.id < n) (update_consumed_at at id rows)
unfolding update_consumed_at
update-Bounded at id n [] h = tt
update-Bounded at id n (r ∷ rows) (h, hs) =
    (omega (arith, consume_row-id at id r), update-Bounded at id n rows hs)

All-mono :
    (P Q : Row → Type 0) → ((r : Row) → P r → Q r) → (rows : List Row) → All P rows → All Q rows
All-mono P Q f [] h = tt
All-mono P Q f (r ∷ rows) (h, hs) = (f r h, All-mono P Q f rows hs)

module _ (same : String → String → Bool) where
  -- One operation of any request on the table: an insertion, or an attempt to consume a code.
  pub data Step : Codes → Codes → Type 0 where
    created :
        (e : Option Fault) (created_at : ℤ) (model : AuthorizationCode) (t : Codes)
        → Step t (create same e created_at model t).1
    consumed :
        (driver : Driver) (code : String) (at : ℤ) (t : Codes)
        → Step t (consume_by_code same driver code at t).1

  -- Any number of them.
  pub data Steps : Codes → Codes → Type 0 where
    stay : (t : Codes) → Steps t t
    step : {t u v : Codes} → Steps t u → Step u v → Steps t v

  -- What an operation does to the table: nothing, a consumption, or an insertion.
  Effect : Codes → Codes → Type 0
  Effect t u =
      (u ≡ t)
      ⊎ (((at : ℤ) × (id : ℕ) × (u ≡ record t { rows = update_consumed_at at id t.rows }))
          ⊎ ((created_at : ℤ) × (model : AuthorizationCode) × (u ≡ (record {
            next_id = suc t.next_id;
            rows = new_row t.next_id created_at model ∷ t.rows;
          }))))

  insert-Effect :
      (found : Option Row) (created_at : ℤ) (model : AuthorizationCode) (t : Codes)
      → Effect t (insert found created_at model t).1
  unfolding insert Effect
  insert-Effect none created_at model t = inr (inr (created_at, model, refl))
  insert-Effect (some row) created_at model t = inl refl

  create-Effect :
      (e : Option Fault) (created_at : ℤ) (model : AuthorizationCode) (t : Codes)
      → Effect t (create same e created_at model t).1
  unfolding create Effect
  create-Effect none created_at model t = insert-Effect _ created_at model t
  create-Effect (some f) created_at model t = inl refl

  finish-Effect :
      (commit : Commit) (model : AuthorizationCode) (u t : Codes)
      → Effect t u
      → Effect t (finish commit model u t).1
  unfolding finish Effect
  finish-Effect done model u t e = e
  finish-Effect (undone f) model u t e = inl refl
  finish-Effect (unheard f) model u t e = e

  or_roll_back-Effect :
      (e : Option Fault) (next : Port Codes (Option AuthorizationCode)) (t : Codes)
      → Effect t (next t).1
      → Effect t (or_roll_back e next t).1
  unfolding or_roll_back Effect
  or_roll_back-Effect none next t h = h
  or_roll_back-Effect (some f) next t h = inl refl

  if-Effect :
      (test : Bool) (x y : Result ⊥ (Option AuthorizationCode) × Codes) (t : Codes)
      → Effect t x.1
      → Effect t y.1
      → Effect t (if test then x else y).1
  if-Effect true x y t h k = h
  if-Effect false x y t h k = k

  consume_selected-Effect :
      (driver : Driver) (at : ℤ) (found : Option Row) (t : Codes)
      → Effect t (consume_selected driver at found t).1
  unfolding consume_selected update Effect
  consume_selected-Effect driver at none t = inl refl
  consume_selected-Effect driver at (some row) t =
      if-Effect (usable at row) _ _ t
        (or_roll_back-Effect driver.exec _ t (
          or_roll_back-Effect driver.affected _ t (
            if-Effect (nat_eq (rows_affected row.id t.rows) 0) _ _ t (inl refl)
              (finish-Effect driver.commit _ _ t (inr (inl (at, row.id, refl)))))))
        (inl refl)

  consume_by_code-Effect :
      (driver : Driver) (code : String) (at : ℤ) (t : Codes)
      → Effect t (consume_by_code same driver code at t).1
  unfolding consume_by_code
  consume_by_code-Effect driver code at t =
      or_roll_back-Effect driver.begin _ t
        (or_roll_back-Effect driver.query _ t (consume_selected-Effect driver at _ t))

  Step-Effect : {t u : Codes} → Step t u → Effect t u
  Step-Effect (created e created_at model t) = create-Effect e created_at model t
  Step-Effect (consumed driver code at t) = consume_by_code-Effect driver code at t

  -- Ids stay below the next one.
  Effect-Bounded : (t u : Codes) → Effect t u → Bounded t → Bounded u
  unfolding Effect new_row
  Effect-Bounded t u (inl e) b = subst Bounded (sym e) b
  Effect-Bounded t u (inr (inl (at, id, e))) b =
      subst Bounded (sym e) (update-Bounded at id t.next_id t.rows b)
  Effect-Bounded t u (inr (inr (created_at, model, e))) b =
      subst Bounded (sym e) (omega arith, All-mono _ _ (λ r h. omega (arith, h)) t.rows b)

  -- What is spent stays spent, and its id is never given again.
  abbrev pub Gone : ℕ → Codes → Type 0
  Gone id t = Spent id t.rows × (id < t.next_id)

  Effect-Gone : (id : ℕ) (t u : Codes) → Effect t u → Gone id t → Gone id u
  unfolding Effect new_row matches
  Effect-Gone id t u (inl e) g = subst (Gone id) (sym e) g
  Effect-Gone id t u (inr (inl (at, id₂, e))) (s, lt) =
      subst (Gone id) (sym e) (update-keeps at id id₂ t.rows s, lt)
  Effect-Gone id t u (inr (inr (created_at, model, e))) (s, lt) =
      subst (Gone id) (sym e) ((ground arith, s), omega arith)

  pub Steps-Bounded : {t u : Codes} → Steps t u → Bounded t → Bounded u
  Steps-Bounded (stay t) b = b
  Steps-Bounded (step ss s) b = Effect-Bounded _ _ (Step-Effect s) (Steps-Bounded ss b)

  pub Steps-Gone : (id : ℕ) {t u : Codes} → Steps t u → Gone id t → Gone id u
  Steps-Gone id (stay t) g = g
  Steps-Gone id (step ss s) g = Effect-Gone id _ _ (Step-Effect s) (Steps-Gone id ss g)
