-- ===== src/Base/Int.antt =====
-- Signed integers over the native numbers (Go's int, int64, time.Duration and instants), under
-- the library's names: its ℤ stands on the unary ℕ.
use sienne.Base.Tests.{ltb, leb, nat_eq, if◌then◌else◌}
use Prim.Native.Nat.{ℕ, suc, ◌+◌, ◌-◌, ◌*◌, ◌/◌, ◌<◌}
use mathlib.Core.Path.{◌≡◌}
use mathlib.Core.Logic.{◌↔◌}
use mathlib.Core.Bool.{Bool, true, ◌&&◌}
use native.Mathlib.Omega.{arith}

-- `negsuc n` is -(n + 1).
pub data ℤ : Type 0 where
  pos : ℕ → ℤ
  negsuc : ℕ → ℤ

abbrev pub pos_part : ℤ → ℕ
pos_part (pos n) = n
pos_part (negsuc n) = 0

abbrev pub neg_part : ℤ → ℕ
neg_part (pos n) = 0
neg_part (negsuc n) = suc n

abbrev pub sub_ℕ : ℕ → ℕ → ℤ
sub_ℕ a b = if leb b a then pos (a - b) else negsuc (b - a - 1)

infixl 65 ◌+ℤ◌ ◌-ℤ◌
infixl 70 ◌*ℤ◌
infix 50 ◌<ℤ◌
unfoldable pub ◌+ℤ◌ : ℤ → ℤ → ℤ
a +ℤ b = sub_ℕ (pos_part a + pos_part b) (neg_part a + neg_part b)

unfoldable pub ◌-ℤ◌ : ℤ → ℤ → ℤ
a -ℤ b = sub_ℕ (pos_part a + neg_part b) (neg_part a + pos_part b)

unfoldable pub ◌*ℤ◌ : ℤ → ℤ → ℤ
a *ℤ b =
    sub_ℕ (pos_part a * pos_part b + neg_part a * neg_part b)
      (pos_part a * neg_part b + neg_part a * pos_part b)

abbrev pub ◌<ℤ◌ : ℤ → ℤ → Type 0
a <ℤ b = pos_part a + neg_part b < pos_part b + neg_part a

-- The tests `a < b` and `a == b`. `time.After(a, b)` is `ltb_ℤ b a`.
abbrev pub ltb_ℤ : ℤ → ℤ → Bool
ltb_ℤ a b = ltb (pos_part a + neg_part b) (pos_part b + neg_part a)

abbrev pub eqb_ℤ : ℤ → ℤ → Bool
eqb_ℤ a b = nat_eq (pos_part a) (pos_part b) && nat_eq (neg_part a) (neg_part b)

pub ltb_ℤ_iff : (a b : ℤ) → (ltb_ℤ a b ≡ true) ↔ (a <ℤ b)
ltb_ℤ_iff a b = ground arith

pub eqb_ℤ_iff : (a b : ℤ) → (eqb_ℤ a b ≡ true) ↔ (a ≡ b)
eqb_ℤ_iff a b = ground arith

-- Instants and durations are in nanoseconds.
abbrev pub nanos_per_second : ℕ
nanos_per_second = 1_000_000_000

-- time.Duration(n) * time.Second
unfoldable pub seconds : ℤ → ℤ
unfolding ◌*ℤ◌
seconds n = n *ℤ pos nanos_per_second

-- Time.Unix: the whole seconds, rounded down.
unfoldable pub unix : ℤ → ℤ
unix (pos n) = pos (n / nanos_per_second)
unix (negsuc n) = negsuc (n / nanos_per_second)

-- int64(d.Seconds()): the whole seconds, rounded towards zero.
unfoldable pub whole_seconds : ℤ → ℤ
unfolding ◌-ℤ◌
whole_seconds (pos n) = pos (n / nanos_per_second)
whole_seconds (negsuc n) = pos 0 -ℤ pos (suc n / nanos_per_second)

pub +ℤ_parts :
    (a b : ℤ)
    → pos_part (a +ℤ b) + neg_part a + neg_part b ≡ neg_part (a +ℤ b) + pos_part a + pos_part b
unfolding ◌+ℤ◌
+ℤ_parts a b = ground arith

-- Time.Sub: the duration, or the nearest that an int64 holds.
abbrev pub max_duration : ℤ
max_duration = pos 9_223_372_036_854_775_807

abbrev pub min_duration : ℤ
min_duration = negsuc 9_223_372_036_854_775_807

unfoldable pub sub_time : ℤ → ℤ → ℤ
unfolding ◌-ℤ◌
sub_time a b =
    let d = a -ℤ b in
    if ltb_ℤ max_duration d then max_duration else if ltb_ℤ d min_duration then min_duration else d

pub sub_time-is_positive : (a b : ℤ) → ltb_ℤ (pos 0) (sub_time a b) ≡ ltb_ℤ b a
unfolding sub_time ◌-ℤ◌
sub_time-is_positive a b = ground arith
