-- ===== src/Persistence/Codes/Once.antt =====
-- A code is redeemed once, whatever happens in between.
use sienne.Base.{
  ℕ, ◌<◌, String, ◌≡◌, refl, sym, ap, subst, ◌∙◌, ◌≢◌, ◌⊎◌, inl, inr, Bool, true, false, Option,
  none, some, List, [], ◌∷◌, arith, nat_eq, if◌then◌else◌, All,
}
use sienne.Base.Exec.{Fault, Result, ok, Port}
use sienne.Base.Int.{ℤ, pos, ◌<ℤ◌}
use sienne.Domain.{AuthorizationCode}
use sienne.Persistence.Codes.{
  Row, Codes, Commit, done, undone, unheard, Driver, scan_authorization_code, matches,
  update_consumed_at, rows_affected, usable, select_by_code, finish, or_roll_back, update,
  consume_selected, consume_by_code,
}
use sienne.Persistence.Codes.Effect.{update-Spent, Steps, Gone, Steps-Bounded, Steps-Gone}
use sienne.Persistence.Codes.Marked.{Marked, update-Marked}

-- The table before the first insertion.
abbrev pub empty : Codes
empty = record { next_id = 1; rows = [] }

same_row-spent :
    (id : ℕ) (r : Row) → pos r.id ≡ pos id → r.consumed_at ≡ none → matches id r ≡ false → ⊥
unfolding matches
same_row-spent id r e free h = ground arith

module _ (same : String → String → Bool) where
  or_roll_back-eq-ok :
      (e : Option Fault) (next : Port Codes (Option AuthorizationCode)) (t u : Codes)
      (m : Option AuthorizationCode)
      → or_roll_back e next t ≡ (ok m, u)
      → next t ≡ (ok m, u)
  unfolding or_roll_back
  or_roll_back-eq-ok none next t u m h = h
  or_roll_back-eq-ok (some f) next t u m h = cc

  finish-eq-ok :
      (commit : Commit) (model m : AuthorizationCode) (updated t u : Codes)
      → finish commit model updated t ≡ (ok (some m), u)
      → (m ≡ model) × (u ≡ updated)
  unfolding finish
  finish-eq-ok done model m updated t u h = (cc, cc)
  finish-eq-ok (undone f) model m updated t u h = cc
  finish-eq-ok (unheard f) model m updated t u h = cc

  if-eq-ok :
      (test : Bool) (x : Result ⊥ (Option AuthorizationCode) × Codes) (m : AuthorizationCode)
      (t u : Codes)
      → (if test then x else (ok none, t)) ≡ (ok (some m), u)
      → (test ≡ true) × (x ≡ (ok (some m), u))
  if-eq-ok true x m t u h = (refl, h)
  if-eq-ok false x m t u h = cc

  if_not-eq-ok :
      (test : Bool) (x : Result ⊥ (Option AuthorizationCode) × Codes) (m : AuthorizationCode)
      (t u : Codes)
      → (if test then (ok none, t) else x) ≡ (ok (some m), u)
      → x ≡ (ok (some m), u)
  if_not-eq-ok true x m t u h = cc
  if_not-eq-ok false x m t u h = h

  -- What a consumption that hands out a code has found and done.
  pub record Consumed (code : String) (at : ℤ) (t u : Codes) (m : AuthorizationCode) : Type 0 where
    pub row : Row
    pub selected : select_by_code same code t.rows ≡ some row
    pub unconsumed : row.consumed_at ≡ none
    pub in_time : at <ℤ row.expires_at
    pub model : m ≡ record (scan_authorization_code row) { consumed_at = some at }
    pub table : u ≡ record t { rows = update_consumed_at at row.id t.rows }
    pub marked : Marked same code at row t u

  usable-eq-true :
      (at : ℤ) (row : Row)
      → usable at row ≡ true
      → (row.consumed_at ≡ none) × (at <ℤ row.expires_at)
  unfolding usable
  usable-eq-true at row h = (ground arith, ground arith)

  consume_selected-Consumed :
      (driver : Driver) (code : String) (at : ℤ) (found : Option Row) (t u : Codes)
      (m : AuthorizationCode)
      → select_by_code same code t.rows ≡ found
      → consume_selected driver at found t ≡ (ok (some m), u)
      → Consumed code at t u m
  unfolding consume_selected update
  consume_selected-Consumed driver code at none t u m e h = cc
  consume_selected-Consumed driver code at (some row) t u m e h =
      let (is_usable, h₁) = if-eq-ok (usable at row) _ m t u h in
      let (unconsumed, in_time) = usable-eq-true at row is_usable in
      let h₂ = or_roll_back-eq-ok driver.exec _ t u (some m) h₁ in
      let h₃ = or_roll_back-eq-ok driver.affected _ t u (some m) h₂ in
      let h₄ = if_not-eq-ok (nat_eq (rows_affected row.id t.rows) 0) _ m t u h₃ in
      let (model, table) = finish-eq-ok driver.commit _ m _ t u h₄ in
      record {
        row = row;
        selected = e;
        unconsumed = unconsumed;
        in_time = in_time;
        model = model;
        table = table;
        marked =
            subst (Marked same code at row t) (sym table)
              (update-Marked same code at row t e unconsumed);
      }

  pub consume_by_code-Consumed :
      (driver : Driver) (code : String) (at : ℤ) (t u : Codes) (m : AuthorizationCode)
      → consume_by_code same driver code at t ≡ (ok (some m), u)
      → Consumed code at t u m
  unfolding consume_by_code
  consume_by_code-Consumed driver code at t u m h =
      consume_selected-Consumed driver code at _ t u m refl (
        or_roll_back-eq-ok driver.query _ t u (some m)
          (or_roll_back-eq-ok driver.begin _ t u (some m) h))

  pub first-or-rest :
      (test : Bool) (r row : Row) (rest : Option Row)
      → (if test then some r else rest) ≡ some row
      → (r ≡ row) ⊎ (rest ≡ some row)
  first-or-rest true r row rest e = inl cc
  first-or-rest false r row rest e = inr e

  selected-All :
      (P : Row → Type 0) (code : String) (rows : List Row) (row : Row)
      → select_by_code same code rows ≡ some row
      → All P rows
      → P row
  unfolding select_by_code
  selected-All P code [] row e h = cc
  selected-All P code (r ∷ rows) row e (h, hs) =
      elim (first-or-rest (same r.code code) r row (select_by_code same code rows) e) [
        | inl here ↦ subst P here h
        | inr there ↦ selected-All P code rows row there hs
      ]

  -- Whatever insertions and consumptions came before, with whatever errors of the driver: once a
  -- code has been handed out, no later consumption hands out the same row again, after any further
  -- insertions and consumptions, and by whatever text it is asked for.
  pub consume_by_code-once :
      (t u v x : Codes) (driver driver₂ : Driver) (code code₂ : String) (at at₂ : ℤ)
      (m m₂ : AuthorizationCode)
      → Steps same empty t
      → consume_by_code same driver code at t ≡ (ok (some m), u)
      → Steps same u v
      → consume_by_code same driver₂ code₂ at₂ v ≡ (ok (some m₂), x)
      → m₂.id ≢ m.id
  unfolding scan_authorization_code matches
  consume_by_code-once t u v x driver driver₂ code code₂ at at₂ m m₂ before first between second
        equal =
      let c = consume_by_code-Consumed driver code at t u m first in
      let c₂ = consume_by_code-Consumed driver₂ code₂ at₂ v x m₂ second in
      let lt =
        selected-All (λ r. r.id < t.next_id) code t.rows c.row c.selected
          (Steps-Bounded same before tt) in
      let gone : Gone same c.row.id u =
        subst (Gone same c.row.id) (sym c.table) (update-Spent at c.row.id t.rows, lt) in
      let gone₂ = Steps-Gone same c.row.id between gone in
      let spent =
        selected-All (λ r. matches c.row.id r ≡ false) code₂ v.rows c₂.row c₂.selected gone₂.0 in
      same_row-spent c.row.id c₂.row
        (sym (ap (λ (y : AuthorizationCode). y.id) c₂.model)
          ∙ equal
          ∙ ap (λ (y : AuthorizationCode). y.id) c.model)
        c₂.unconsumed spent
