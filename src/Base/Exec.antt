-- ===== src/Base/Exec.antt =====
-- Actions on the world outside a service: what a service calls through its ports may read and
-- write that world and may fail. What was written before an error stays written.
pub mod Success
pub mod Runs
pub mod Ends
use Prim.Native.Nat.{ℕ}
use mathlib.Core.Bool.{Bool, true, false}
use mathlib.Core.Option.{Option, none, some}

-- An error that a port returns: sql.ErrNoRows, or any other.
pub data Fault : Type 0 where
  no_rows : Fault
  other : ℕ → Fault

-- A call's results `(value, nil)` and `(_, err)`, where the error is one of the package's own or
-- one that a port returned.
pub data Result (E A : Type 0) : Type 0 where
  ok : A → Result E A
  err : E → Result E A
  fault : Fault → Result E A

abbrev pub Exec : Type 0 → Type 0 → Type 0 → Type 0
Exec W E A = W → Result E A × W

-- A port has no error of the service's own.
abbrev pub Port : Type 0 → Type 0 → Type 0
Port W A = Exec W ⊥ A

unfoldable pub from_port : {E A : Type 0} → Result ⊥ A → Result E A
from_port (ok a) = ok a
from_port (err e) = elim e [ ]
from_port (fault f) = fault f

module _ {W E A : Type 0} where
  unfoldable pub pure : A → Exec W E A
  pure a w = (ok a, w)

  unfoldable pub fail : E → Exec W E A
  fail e w = (err e, w)

  unfoldable pub raise : Fault → Exec W E A
  raise f w = (fault f, w)

  -- The result of a function that reads and writes nothing.
  unfoldable pub give : Result E A → Exec W E A
  give r w = (r, w)

  -- The port's error is returned as it is.
  unfoldable pub call : Port W A → Exec W E A
  unfolding from_port
  call m w = let (r, w') = m w in (from_port r, w')

  -- A call that cannot fail, such as reading the clock.
  unfoldable pub always : (W → A × W) → Exec W E A
  always m w = let (a, w') = m w in (ok a, w')

  -- `if value == nil { return nil, e }`
  unfoldable pub require : Option A → E → Exec W E A
  require none e w = (err e, w)
  require (some a) e w = (ok a, w)

  -- The error is kept as a value: `if err := m; err != nil { ... }`.
  unfoldable pub caught : Exec W E A → Exec W E (Result E A)
  caught m w = let (r, w') = m w in (ok r, w')

module _ {W E : Type 0} where
  -- `_ = call`: the call is made and its error dropped.
  unfoldable pub ignore : Port W (Unit {0}) → Exec W E (Unit {0})
  ignore m w = (ok tt, (m w).1)

  -- `if !test { return nil, e }`
  unfoldable pub guard : Bool → E → Exec W E (Unit {0})
  guard true e w = (ok tt, w)
  guard false e w = (err e, w)

module _ {W E A B : Type 0} where
  next : Result E A → (A → Exec W E B) → Exec W E B
  next (ok a) f w = f a w
  next (err e) f w = (err e, w)
  next (fault x) f w = (fault x, w)

  infixl 5 ◌>>=◌ ◌>>◌
  -- Opening this opens the ways to build an action too.
  unfoldable pub ◌>>=◌ : Exec W E A → (A → Exec W E B) → Exec W E B
  unfolding next give pure fail raise call always require ignore guard caught
  ◌>>=◌ m f w = let (r, w') = m w in next r f w'

  abbrev pub ◌>>◌ : Exec W E A → Exec W E B → Exec W E B
  m >> n = m >>= λ _. n
