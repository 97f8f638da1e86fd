-- ===== src/Base/Exec/Runs.antt =====
-- Calls made one after the other, each of which succeeds: what a loop over ports has done.
use mathlib.Core.List.{List, [], ◌∷◌, ◌++◌}
use mathlib.Core.Path.{◌≡◌, sym, subst}
use sienne.Base.Exec.{ok, Port}

module _ {W : Type 0} where
  abbrev pub Runs : List (Port W (Unit {0})) → W → W → Type 0
  Runs [] w v = w ≡ v
  Runs (p ∷ ps) w v = (u : W) × (p w ≡ (ok tt, u)) × Runs ps u v

  pub Runs-append :
      (ps qs : List (Port W (Unit {0}))) (w u v : W)
      → Runs ps w u
      → Runs qs u v
      → Runs (ps ++ qs) w v
  Runs-append [] qs w u v h k = subst (λ x. Runs qs x v) (sym h) k
  Runs-append (p ∷ ps) qs w u v (x, here, h) k = (x, here, Runs-append ps qs x u v h k)
