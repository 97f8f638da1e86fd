-- ===== src/Base/Bits/Digits.antt =====
-- `a & b` digit by digit, and the masks that cover others.
use Prim.Native.Nat.{
  ℕ, zero, suc, ◌+◌, ◌-◌, ◌*◌, ◌/◌, ◌%◌, ◌^◌, ◌≤◌, ◌<◌, min, digits, bit_and, bit_and-bitwise,
}
use mathlib.Core.Path.{◌≡◌, refl}
use native.Mathlib.Nat.{pow-suc}
use native.Mathlib.Omega.{arith}

-- `bit_and` with its count of digits set apart; any count from the first number on will do.
abbrev and_upto : ℕ → ℕ → ℕ → ℕ
and_upto = digits (λ b. zero) min

and_upto-nil : (k b : ℕ) → and_upto k zero b ≡ 0
and_upto-nil zero b = refl
and_upto-nil (suc k) b = refl

and_upto-enough : (k l a b : ℕ) → a ≤ k → a ≤ l → and_upto k a b ≡ and_upto l a b
and_upto-enough k l zero b p q = omega (arith, and_upto-nil k b, and_upto-nil l b)
and_upto-enough zero l (suc a) b p q = absurd (omega arith)
and_upto-enough (suc k) zero (suc a) b p q = absurd (omega arith)
and_upto-enough (suc k) (suc l) (suc a) b p q =
    omega (arith, and_upto-enough k l (suc a / 2) (b / 2) (omega arith) (omega arith))

pub bit_and-lowest : (a b : ℕ) → bit_and a b ≡ bit_and (a / 2) (b / 2) * 2 + min (a % 2) (b % 2)
bit_and-lowest zero b = omega (arith, bit_and-bitwise 0 b, bit_and-bitwise 0 (b / 2))
bit_and-lowest (suc a) b =
    let half = suc a / 2 in
    omega (
      arith,
      bit_and-bitwise (suc a) b,
      bit_and-bitwise half (b / 2),
      and_upto-enough a half half (b / 2) (omega arith) (omega arith),
    )

-- No bit but those of 0 is a bit of 0.
pub Covers-of_zero : (p : ℕ) → bit_and 0 p ≡ p → p ≡ 0
Covers-of_zero p h = omega (arith, bit_and-bitwise 0 p)

-- Every bit of `p` is a bit of `m`.
abbrev pub Covers : ℕ → ℕ → Type 0
Covers m p = bit_and m p ≡ p

Covers-half : (m p : ℕ) → Covers m p → Covers (m / 2) (p / 2) × (p % 2 ≤ m % 2)
Covers-half m p h = (omega (arith, bit_and-lowest m p), omega (arith, bit_and-lowest m p))

Covers-double : (m p : ℕ) → Covers (m / 2) (p / 2) → p % 2 ≤ m % 2 → Covers m p
Covers-double m p h k = omega (arith, bit_and-lowest m p)

Covers-zero_upto : (n m : ℕ) → m ≤ n → Covers m 0
Covers-zero_upto n zero h = omega (arith, bit_and-bitwise 0 0)
Covers-zero_upto zero (suc m) h = absurd (omega arith)
Covers-zero_upto (suc n) (suc m) h =
    Covers-double (suc m) 0 (Covers-zero_upto n (suc m / 2) (omega arith)) (omega arith)

pub Covers-zero : (m : ℕ) → Covers m 0
Covers-zero m = Covers-zero_upto m m (omega arith)

Covers-trans_upto : (n a b p : ℕ) → p ≤ n → Covers a b → Covers b p → Covers a p
Covers-trans_upto n a b zero h f g = Covers-zero a
Covers-trans_upto zero a b (suc p) h f g = absurd (omega arith)
Covers-trans_upto (suc n) a b (suc p) h f g =
    let (f', x) = Covers-half a b f in
    let (g', y) = Covers-half b (suc p) g in
    Covers-double a (suc p) (Covers-trans_upto n (a / 2) (b / 2) (suc p / 2) (omega arith) f' g')
      (omega arith)

-- Covering is transitive.
pub Covers-trans : (a b p : ℕ) → Covers a b → Covers b p → Covers a p
Covers-trans a b p = Covers-trans_upto p a b p (omega arith)

-- 2 ^ k - 1 covers every number of k digits.
pub Covers-ones : (k p : ℕ) → p < 2 ^ k → Covers (2 ^ k - 1) p
Covers-ones zero zero h = Covers-zero 0
Covers-ones zero (suc p) h = absurd (omega arith)
Covers-ones (suc k) p h =
    let fits : p / 2 < 2 ^ k = omega (arith, pow-suc 2 k) in
    let half : (2 ^ suc k - 1) / 2 ≡ 2 ^ k - 1 = omega (arith, pow-suc 2 k) in
    Covers-double (2 ^ suc k - 1) p (rw half (Covers-ones k (p / 2) fits))
      (omega (arith, pow-suc 2 k))
