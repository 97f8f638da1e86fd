-- ===== src/Scopes/Laws.antt =====
-- What scope normalization and the containment check decide.
use mathlib.Core.List.Sublist
use mathlib.Core.List.{Sublist, nil-sublist}
use sienne.Base.{
  String, ◌≡◌, refl, ◌↔◌, true, false, ◌||◌, List, [], ◌∷◌, map, arith, eq_iff, All, Any,
}
use sienne.Base.Text.{trim_space, is_blank, trim_space_idem}
use sienne.Scopes.{contains, normalize_from, normalize_scopes, allowed_set, each_in, all_contained}
use sienne.Base.{◌⊎◌, inl, inr, ◌≢◌, sym}

-- `x` is an element.
abbrev pub In : String → List String → Type 0
In x = Any (λ y. y ≡ x)

pub contains_iff : (xs : List String) (x : String) → (contains xs x ≡ true) ↔ In x xs
unfolding contains
contains_iff [] x = (λ h. cc, λ h. elim h [ ])
contains_iff (y ∷ xs) x = (
  λ h. ground (arith, eq_iff y x, (contains_iff xs x).0),
  λ h. ground (arith, eq_iff y x, (contains_iff xs x).1),
)

-- Trimmed, not blank.
abbrev pub IsScope : String → Type 0
IsScope s = (trim_space s ≡ s) × (is_blank s ≡ false)

-- No element stands again among those after it, or among `seen`.
abbrev pub Fresh : List String → List String → Type 0
Fresh seen [] = Unit
Fresh seen (x ∷ xs) = (contains seen x ≡ false) × Fresh (x ∷ seen) xs

normalize_from-IsScope : (seen xs : List String) → All IsScope (normalize_from seen xs)
unfolding normalize_from
normalize_from-IsScope seen [] = tt
normalize_from-IsScope seen (x ∷ xs) = ground (
  arith,
  trim_space_idem x,
  normalize_from-IsScope seen xs,
  normalize_from-IsScope (trim_space x ∷ seen) xs,
)

normalize_from-Fresh : (seen xs : List String) → Fresh seen (normalize_from seen xs)
unfolding normalize_from
normalize_from-Fresh seen [] = tt
normalize_from-Fresh seen (x ∷ xs) =
    ground (arith, normalize_from-Fresh seen xs, normalize_from-Fresh (trim_space x ∷ seen) xs)

-- A list that is clean already is left as it is.
normalize_from_clean :
    (seen xs : List String) → All IsScope xs → Fresh seen xs → normalize_from seen xs ≡ xs
unfolding normalize_from
normalize_from_clean seen [] h f = refl
normalize_from_clean seen (x ∷ xs) (s, h) (c, f) =
    rw (s.0) (rw (s.1, c, normalize_from_clean (x ∷ seen) xs h f))

-- Membership: what is kept, and what was seen before.
contains-normalize_from :
    (s : String) (seen xs : List String)
    → is_blank s ≡ false
    → (contains (normalize_from seen xs) s || contains seen s)
      ≡ (contains (map trim_space xs) s || contains seen s)
unfolding normalize_from contains
contains-normalize_from s seen [] h = refl
contains-normalize_from s seen (x ∷ xs) h = ground (
  arith,
  eq_iff (trim_space x) s,
  contains-normalize_from s seen xs h,
  contains-normalize_from s (trim_space x ∷ seen) xs h,
)

-- The normal form holds trimmed, non-blank scopes, each once.
pub normalize_scopes-clean :
    (xs : List String) → All IsScope (normalize_scopes xs) × Fresh [] (normalize_scopes xs)
unfolding normalize_scopes
normalize_scopes-clean xs = (normalize_from-IsScope [] xs, normalize_from-Fresh [] xs)

-- Normalizing twice is normalizing once.
pub normalize_scopes_idem :
    (xs : List String) → normalize_scopes (normalize_scopes xs) ≡ normalize_scopes xs
unfolding normalize_scopes
normalize_scopes_idem xs =
    normalize_from_clean [] (normalize_from [] xs) (normalize_from-IsScope [] xs)
      (normalize_from-Fresh [] xs)

-- A non-blank text is in the normal form exactly when it is one of the trimmed scopes.
pub contains-normalize_scopes :
    (s : String) (xs : List String)
    → is_blank s ≡ false
    → contains (normalize_scopes xs) s ≡ contains (map trim_space xs) s
unfolding normalize_scopes contains
contains-normalize_scopes s xs h = ground (arith, contains-normalize_from s [] xs h)

normalize_from-sublist :
    (seen xs : List String) → Sublist (normalize_from seen xs) (map trim_space xs)
unfolding normalize_from
normalize_from-sublist seen [] = nil-sublist []
normalize_from-sublist seen (x ∷ xs) = ground (
  arith,
  Sublist.cons (trim_space x) (normalize_from-sublist seen xs),
  Sublist.cons-cons (trim_space x) (normalize_from-sublist (trim_space x ∷ seen) xs),
)

-- The scopes keep their order.
pub normalize_scopes-sublist :
    (xs : List String) → Sublist (normalize_scopes xs) (map trim_space xs)
unfolding normalize_scopes
normalize_scopes-sublist xs = normalize_from-sublist [] xs

allowed_set_iff :
    (allowed : List String) (v : String)
    → (contains (allowed_set allowed) v ≡ true)
      ↔ ((is_blank v ≡ false) × (contains (map trim_space allowed) v ≡ true))
unfolding allowed_set contains
allowed_set_iff [] v = (λ h. cc, λ h. cc)
allowed_set_iff (raw ∷ rest) v = (
  λ h. ground (arith, eq_iff (trim_space raw) v, (allowed_set_iff rest v).0),
  λ h. ground (arith, eq_iff (trim_space raw) v, (allowed_set_iff rest v).1),
)

each_in_iff :
    (set values : List String)
    → (each_in set values ≡ true) ↔ All (λ v. contains set v ≡ true) values
unfolding each_in
each_in_iff set [] = (λ h. tt, λ h. refl)
each_in_iff set (v ∷ rest) = (
  λ h. ground (arith, (each_in_iff set rest).0),
  λ h. ground (arith, (each_in_iff set rest).1 h.1, h.0),
)

abbrev pub IsAllowed : List String → String → Type 0
IsAllowed allowed v = (is_blank v ≡ false) × (contains (map trim_space allowed) v ≡ true)

map-All :
    (P Q : String → Type 0) → ((v : String) → P v → Q v) → (xs : List String) → All P xs → All Q xs
map-All P Q f [] h = tt
map-All P Q f (x ∷ xs) (h, hs) = (f x h, map-All P Q f xs hs)

-- The check passes exactly when every value is a non-blank text among the trimmed allowed ones.
pub all_contained_iff :
    (values allowed : List String)
    → (all_contained values allowed ≡ true) ↔ All (IsAllowed allowed) values
unfolding all_contained
all_contained_iff values allowed = (
  λ h.
      map-All _ _ (λ v. (allowed_set_iff allowed v).0) values
        ((each_in_iff (allowed_set allowed) values).0 h),
  λ h.
      (each_in_iff (allowed_set allowed) values).1
        (map-All _ _ (λ v. (allowed_set_iff allowed v).1) values h),
)

-- The normal form of the scopes asked for, or the fallback where that is empty.
abbrev pub Chosen : List String → List String → List String → Type 0
Chosen requested fallback scopes =
    ((normalize_scopes requested ≡ []) × (scopes ≡ fallback))
    ⊎ ((normalize_scopes requested ≢ []) × (scopes ≡ normalize_scopes requested))

-- Each service writes this choice as a case on the normal form.
pub case-Chosen :
    (requested fallback normal : List String)
    → normalize_scopes requested ≡ normal
    → Chosen requested fallback (elim normal [ [] ↦ fallback | x ∷ xs ↦ x ∷ xs ])
case-Chosen requested fallback [] e = inl (e, refl)
case-Chosen requested fallback (x ∷ xs) e = inr (λ h. cc, sym e)
