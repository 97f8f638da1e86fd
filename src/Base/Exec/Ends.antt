-- ===== src/Base/Exec/Ends.antt =====
-- What holds of the world at the end of a block of actions, whether it succeeds or not: one rule
-- for each way to begin the block.
use mathlib.Core.Bool.{Bool, true, false}
use mathlib.Core.Option.{Option, none, some}
use mathlib.Core.Path.{◌≡◌, refl}
use sienne.Base.Exec.{
  Result, ok, err, fault, Exec, Port, from_port, call, require, guard, ◌>>=◌, next,
}
use sienne.Base.Exec.Success.{from_port-eq-ok}

module _ {W E A B : Type 0} (P : W → Type 0) where
  next-Ends :
      (r : Result E A) (f : A → Exec W E B) (v : W)
      → P v
      → ((a : A) → r ≡ ok a → P (f a v).1)
      → P (next r f v).1
  unfolding next
  next-Ends (ok a) f v p h = h a refl
  next-Ends (err e) f v p h = p
  next-Ends (fault x) f v p h = p

  pub >>=-Ends :
      (m : Exec W E A) (f : A → Exec W E B) (w : W)
      → P (m w).1
      → ((a : A) → (m w).0 ≡ ok a → P (f a (m w).1).1)
      → P ((m >>= f) w).1
  unfolding ◌>>=◌
  >>=-Ends m f w p h = next-Ends (m w).0 f (m w).1 p h

  pub call-Ends :
      (m : Port W A) (f : A → Exec W E B) (w : W)
      → P (m w).1
      → ((a : A) → (m w).0 ≡ ok a → P (f a (m w).1).1)
      → P ((call m >>= f) w).1
  unfolding ◌>>=◌
  call-Ends m f w p h =
      next-Ends (from_port (m w).0) f (m w).1 p (λ a e. h a (from_port-eq-ok (m w).0 a e))

  pub require-Ends :
      (o : Option A) (e : E) (f : A → Exec W E B) (w : W)
      → P w
      → ((a : A) → o ≡ some a → P (f a w).1)
      → P ((require o e >>= f) w).1
  unfolding ◌>>=◌
  require-Ends none e f w p h = p
  require-Ends (some a) e f w p h = h a refl

module _ {W E B : Type 0} (P : W → Type 0) where
  pub guard-Ends :
      (t : Bool) (e : E) (f : Unit {0} → Exec W E B) (w : W)
      → P w
      → (t ≡ true → P (f tt w).1)
      → P ((guard t e >>= f) w).1
  unfolding ◌>>=◌
  guard-Ends true e f w p h = h refl
  guard-Ends false e f w p h = p
