-- ===== src/Rbac/Cover.antt =====
-- What HasAll and HasAny decide, and how the built-in roles compare.
use sienne.Base.{ℕ, ◌^◌, ◌<◌, ◌≡◌, refl, ◌≢◌, ◌↔◌, true, not, ◌||◌, List, [], ◌∷◌, arith, All, Any}
use sienne.Base.Bits.{bit_and}
use sienne.Base.Bits.Digits.{Covers, Covers-trans, Covers-zero, Covers-ones, Covers-of_zero}
use sienne.Rbac.{
  has_all, has_any, mask_end_user, mask_auditor, mask_support, mask_oauth_admin,
  mask_security_admin, mask_super_admin,
}

-- HasAll holds exactly when the mask has every bit of every required permission; a permission of
-- no bits is no requirement, and no mask fails it.
pub has_all_iff :
    (mask : ℕ) (required : List ℕ) → (has_all mask required ≡ true) ↔ All (Covers mask) required
unfolding has_all
has_all_iff mask [] = (λ h. tt, λ h. refl)
has_all_iff mask (p ∷ rest) = (
  λ h. ground (arith, (has_all_iff mask rest).0, Covers-zero mask),
  λ h. ground (arith, (has_all_iff mask rest).1 h.1, h.0),
)

-- HasAny holds exactly when the mask has every bit of some required permission that has a bit.
pub has_any_iff :
    (mask : ℕ) (required : List ℕ)
    → (has_any mask required ≡ true) ↔ Any (λ p. (p ≢ 0) × Covers mask p) required
unfolding has_any
has_any_iff mask [] = (λ h. cc, λ h. elim h [ ])
has_any_iff mask (p ∷ rest) =
    (λ h. ground (arith, (has_any_iff mask rest).0), λ h. ground (arith, (has_any_iff mask rest).1))

All-Covers-mono :
    (wide narrow : ℕ) (required : List ℕ)
    → Covers wide narrow
    → All (Covers narrow) required
    → All (Covers wide) required
All-Covers-mono wide narrow [] c h = tt
All-Covers-mono wide narrow (p ∷ rest) c (h, hs) =
    (Covers-trans wide narrow p c h, All-Covers-mono wide narrow rest c hs)

-- A mask that has the bits of another passes every check that the other passes.
pub has_all_mono :
    (wide narrow : ℕ) (required : List ℕ)
    → bit_and wide narrow ≡ narrow
    → has_all narrow required ≡ true
    → has_all wide required ≡ true
has_all_mono wide narrow required c h =
    (has_all_iff wide required).1
      (All-Covers-mono wide narrow required c ((has_all_iff narrow required).0 h))

implies-all :
    (narrow wide : ℕ) (required : List ℕ)
    → bit_and wide narrow ≡ narrow
    → (not (has_all narrow required) || has_all wide required) ≡ true
implies-all narrow wide required c = ground (arith, has_all_mono wide narrow required c)

-- Whatever is required: if an end user passes, so does an auditor; if an auditor, so do a support
-- engineer and an OAuth administrator; if either of these, so does a security administrator; and
-- if a security administrator, so does the super administrator.
pub role_order :
    (required : List ℕ)
    → let passes = λ (mask : ℕ). has_all mask required in
      ((not (passes mask_end_user) || passes mask_auditor) ≡ true)
      × ((not (passes mask_auditor) || passes mask_support) ≡ true)
      × ((not (passes mask_auditor) || passes mask_oauth_admin) ≡ true)
      × ((not (passes mask_support) || passes mask_security_admin) ≡ true)
      × ((not (passes mask_oauth_admin) || passes mask_security_admin) ≡ true)
      × ((not (passes mask_security_admin) || passes mask_super_admin) ≡ true)
role_order required = (
  implies-all mask_end_user mask_auditor required refl,
  implies-all mask_auditor mask_support required refl,
  implies-all mask_auditor mask_oauth_admin required refl,
  implies-all mask_support mask_security_admin required refl,
  implies-all mask_oauth_admin mask_security_admin required refl,
  implies-all mask_security_admin mask_super_admin required refl,
)

All-ones :
    (required : List ℕ) → All (λ p. p < 2 ^ 32) required → All (Covers mask_super_admin) required
All-ones [] h = tt
All-ones (p ∷ rest) (h, hs) = (Covers-ones 32 p h, All-ones rest hs)

none-required :
    (required : List ℕ) → All (Covers mask_end_user) required → All (λ p. p ≡ 0) required
none-required [] h = tt
none-required (p ∷ rest) (h, hs) = (Covers-of_zero p h, none-required rest hs)

required-none :
    (required : List ℕ) → All (λ p. p ≡ 0) required → All (Covers mask_end_user) required
required-none [] h = tt
required-none (p ∷ rest) (h, hs) = (rw h (Covers-zero 0), required-none rest hs)

-- The super administrator passes every HasAll check on uint32 permissions; the end user passes
-- exactly the checks that require no bit.
pub has_all-extremes :
    (required : List ℕ)
    → All (λ p. p < 2 ^ 32) required
    → (has_all mask_super_admin required ≡ true)
      × ((has_all mask_end_user required ≡ true) ↔ All (λ p. p ≡ 0) required)
has_all-extremes required h = (
  (has_all_iff mask_super_admin required).1 (All-ones required h),
  (
    λ e. none-required required ((has_all_iff mask_end_user required).0 e),
    λ z. (has_all_iff mask_end_user required).1 (required-none required z),
  ),
)
