-- ===== src/Base/Bits.antt =====
-- Masks: `a & b`, `a | b` and `a &^ b` of Go, and facts about small masks by evaluation.
pub mod Digits
use Prim.Native.Nat.{ℕ, zero, suc, ◌-◌, ◌<◌, bit_and, bit_or}
use mathlib.Core.Bool.{Bool, true, false, not, ◌&&◌}
use mathlib.Core.Path.{◌≡◌, refl}
use native.Mathlib.Omega.{arith}
use sienne.Base.Tests.{nat_eq}
pub use Prim.Native.Nat.{bit_and, bit_or}

-- The bits of `a & b` are bits of `a`, so nothing is borrowed.
abbrev pub and_not : ℕ → ℕ → ℕ
and_not a b = a - bit_and a b

-- `a & b != 0`
abbrev pub has : ℕ → ℕ → Bool
has a b = not (nat_eq (bit_and a b) 0)

-- A test holds of all numbers below a bound, the largest last.
unfoldable pub table : ℕ → (ℕ → Bool) → Bool
table zero test = true
table (suc top) test = table top test && test top

pub table_entry :
    (bound : ℕ) (test : ℕ → Bool) (x : ℕ) → table bound test ≡ true → x < bound → test x ≡ true
unfolding table
table_entry zero test x holds lt = absurd (omega arith)
table_entry (suc top) test x holds lt = ground (arith, table_entry top test x)

-- A fact of a mask and a flag.
pub table_flag :
    (n : ℕ) (p : ℕ → Bool → Bool)
    → table n (λ m. p m true && p m false) ≡ true
    → (x : ℕ) (b : Bool) → x < n
    → p x b ≡ true
table_flag n p h x true lt = ground (arith, table_entry n (λ m. p m true && p m false) x)
table_flag n p h x false lt = ground (arith, table_entry n (λ m. p m true && p m false) x)
