-- ===== src/Base/Exec/Success.antt =====
-- What a block of actions did, if it succeeded: one rule for each way to begin the block.
use mathlib.Core.Bool.{Bool, true, false}
use mathlib.Core.Option.{Option, none, some}
use mathlib.Core.Path.{◌≡◌, refl}
use sienne.Base.Exec.{
  Result, ok, err, fault, Exec, Port, from_port, pure, give, call, always, require, ignore, guard,
  caught, ◌>>=◌, next,
}

pub from_port-eq-ok :
    {E A : Type 0} (r : Result ⊥ A) (a : A) → from_port {E = E} r ≡ ok a → r ≡ ok a
unfolding from_port
from_port-eq-ok (ok b) a h = cc
from_port-eq-ok (err e) a h = elim e [ ]
from_port-eq-ok (fault x) a h = cc

module _ {W E A B : Type 0} where
  next-eq-ok :
      (r : Result E A) (f : A → Exec W E B) (w : W) {b : B} {v : W}
      → next r f w ≡ (ok b, v)
      → (a : A) × (r ≡ ok a) × (f a w ≡ (ok b, v))
  unfolding next
  next-eq-ok (ok a) f w h = (a, refl, h)
  next-eq-ok (err e) f w h = cc
  next-eq-ok (fault x) f w h = cc

  pub >>=-eq-ok :
      (m : Exec W E A) (f : A → Exec W E B) {w : W} {b : B} {v : W}
      → (m >>= f) w ≡ (ok b, v)
      → (a : A) × (w' : W) × (m w ≡ (ok a, w')) × (f a w' ≡ (ok b, v))
  unfolding ◌>>=◌
  >>=-eq-ok m f {w} h = let (a, e, k) = next-eq-ok (m w).0 f (m w).1 h in (a, (m w).1, cc, k)

  pub require-eq-ok :
      (o : Option A) (e : E) (f : A → Exec W E B) {w : W} {b : B} {v : W}
      → (require o e >>= f) w ≡ (ok b, v)
      → (a : A) × (o ≡ some a) × (f a w ≡ (ok b, v))
  unfolding ◌>>=◌
  require-eq-ok none e f h = cc
  require-eq-ok (some a) e f h = (a, refl, h)

  pub call-eq-ok :
      (m : Port W A) (f : A → Exec W E B) {w : W} {b : B} {v : W}
      → (call m >>= f) w ≡ (ok b, v)
      → (a : A) × (w' : W) × (m w ≡ (ok a, w')) × (f a w' ≡ (ok b, v))
  unfolding ◌>>=◌
  call-eq-ok m f {w} h =
      let (a, e, k) = next-eq-ok (from_port (m w).0) f (m w).1 h in
      let e' = from_port-eq-ok (m w).0 a e in (a, (m w).1, cc, k)

  pub give-eq-ok :
      (r : Result E A) (f : A → Exec W E B) {w : W} {b : B} {v : W}
      → (give r >>= f) w ≡ (ok b, v)
      → (a : A) × (r ≡ ok a) × (f a w ≡ (ok b, v))
  unfolding ◌>>=◌
  give-eq-ok (ok a) f h = (a, refl, h)
  give-eq-ok (err e) f h = cc
  give-eq-ok (fault x) f h = cc

  pub always-eq-ok :
      (m : W → A × W) (f : A → Exec W E B) {w : W} {b : B} {v : W}
      → (always m >>= f) w ≡ (ok b, v)
      → f (m w).0 (m w).1 ≡ (ok b, v)
  unfolding ◌>>=◌
  always-eq-ok m f h = h

  pub caught-eq-ok :
      (m : Exec W E A) (f : Result E A → Exec W E B) {w : W} {b : B} {v : W}
      → (caught m >>= f) w ≡ (ok b, v)
      → f (m w).0 (m w).1 ≡ (ok b, v)
  unfolding ◌>>=◌
  caught-eq-ok m f h = h

module _ {W E B : Type 0} where
  pub guard-eq-ok :
      (t : Bool) (e : E) (f : Unit {0} → Exec W E B) {w : W} {b : B} {v : W}
      → (guard t e >>= f) w ≡ (ok b, v)
      → (t ≡ true) × (f tt w ≡ (ok b, v))
  unfolding ◌>>=◌
  guard-eq-ok true e f h = (refl, h)
  guard-eq-ok false e f h = cc

  pub ignore-eq-ok :
      (m : Port W (Unit {0})) (f : Unit {0} → Exec W E B) {w : W} {b : B} {v : W}
      → (ignore m >>= f) w ≡ (ok b, v)
      → f tt (m w).1 ≡ (ok b, v)
  unfolding ◌>>=◌
  ignore-eq-ok m f h = h

  -- A call that is the whole block.
  pub call_alone-eq-ok :
      (m : Port W B) {w v : W} {a : B} → call {E = E} m w ≡ (ok a, v) → m w ≡ (ok a, v)
  unfolding call
  call_alone-eq-ok m {w} {v} {a} h =
      let e : from_port {E = E} (m w).0 ≡ ok a = cc in
      let e' = from_port-eq-ok (m w).0 a e in let e'' : (m w).1 ≡ v = cc in cc

  pub pure-eq-ok : {a b : B} {w v : W} → pure {W = W} {E = E} a w ≡ (ok b, v) → (a ≡ b) × (w ≡ v)
  unfolding pure
  pure-eq-ok h = (cc, cc)
