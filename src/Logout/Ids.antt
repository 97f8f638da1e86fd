-- ===== src/Logout/Ids.antt =====
-- The session ids that collectUserSessionIDs gathers, in service.go of internal/application/session.
use sienne.Base.{
  String, ◌≡◌, refl, subst, ◌↔◌, ◌⊎◌, inl, inr, Bool, true, false, Option, none, some, List, [],
  ◌∷◌, ◌++◌, arith, Bool-cases, All, All-append, Any,
}
use sienne.Base.Text.{trim_space, is_blank}
use sienne.Domain.{Session}
use sienne.Scopes.{contains}
use sienne.Scopes.Laws.{In, contains_iff, Fresh}
use sienne.Logout.{add_id, add_cached, add_sessions}

-- `x` is the text without the space around it, and is not blank.
abbrev pub IsIdOf : String → String → Type 0
IsIdOf raw x = (trim_space raw ≡ x) × (is_blank x ≡ false)

abbrev pub IsSessionOf : Option Session → String → Type 0
IsSessionOf none x = ⊥
IsSessionOf (some session) x = IsIdOf session.session_id x

Any-snoc : (x y : String) (xs : List String) → In x (xs ++ (y ∷ [])) ↔ (In x xs ⊎ (y ≡ x))
Any-snoc x y [] = (λ h. ground arith, λ h. ground arith)
Any-snoc x y (z ∷ xs) =
    (λ h. ground (arith, (Any-snoc x y xs).0), λ h. ground (arith, (Any-snoc x y xs).1))

not_both : (test : Bool) → test ≡ true → test ≡ false → ⊥
not_both test h k = cc

In-add_id : (ids : List String) (raw x : String) → In x (add_id ids raw) ↔ (In x ids ⊎ IsIdOf raw x)
unfolding add_id
In-add_id ids raw x = elim (Bool-cases (is_blank (trim_space raw))) [
  | inl blank ↦ rw blank (
    λ h. inl h,
    λ h. elim h [
      | inl member ↦ member
      | inr (same, filled) ↦
          absurd (not_both (is_blank x) (subst (λ y. is_blank y ≡ true) same blank) filled)
    ],
  )
  | inr filled ↦ elim (Bool-cases (contains ids (trim_space raw))) [
    | inl seen ↦
        rw (filled, seen)
          (
            λ h. inl h,
            λ h. elim h [
              | inl member ↦ member
              | inr (same, _) ↦
                  subst (λ y. In y ids) same ((contains_iff ids (trim_space raw)).0 seen)
            ],
          )
    | inr fresh ↦
        rw (filled, fresh)
          (
            λ h. elim ((Any-snoc x (trim_space raw) ids).0 h) [
              | inl member ↦ inl member
              | inr same ↦ inr (same, subst (λ y. is_blank y ≡ false) same filled)
            ],
            λ h.
                (Any-snoc x (trim_space raw) ids).1
                  (elim h [ inl member ↦ inl member | inr (same, _) ↦ inr same ]),
          )
  ]
]

pub In-add_cached :
    (ids raws : List String) (x : String)
    → In x (add_cached ids raws) ↔ (In x ids ⊎ Any (λ raw. IsIdOf raw x) raws)
unfolding add_cached
In-add_cached ids [] x = (λ h. inl h, λ h. ground arith)
In-add_cached ids (raw ∷ raws) x = (
  λ h. ground (arith, (In-add_cached (add_id ids raw) raws x).0, (In-add_id ids raw x).0),
  λ h. ground (arith, (In-add_cached (add_id ids raw) raws x).1, (In-add_id ids raw x).1),
)

pub In-add_sessions :
    (ids : List String) (active : List (Option Session)) (x : String)
    → In x (add_sessions ids active) ↔ (In x ids ⊎ Any (λ o. IsSessionOf o x) active)
unfolding add_sessions
In-add_sessions ids [] x = (λ h. inl h, λ h. ground arith)
In-add_sessions ids (none ∷ rest) x = (
  λ h. ground (arith, (In-add_sessions ids rest x).0),
  λ h. ground (arith, (In-add_sessions ids rest x).1),
)
In-add_sessions ids (some m ∷ rest) x = (
  λ h. ground (
    arith,
    (In-add_sessions (add_id ids m.session_id) rest x).0,
    (In-add_id ids m.session_id x).0,
  ),
  λ h. ground (
    arith,
    (In-add_sessions (add_id ids m.session_id) rest x).1,
    (In-add_id ids m.session_id x).1,
  ),
)

Fresh-snoc :
    (seen xs : List String) (y : String)
    → Fresh seen xs
    → contains seen y ≡ false
    → contains xs y ≡ false
    → Fresh seen (xs ++ (y ∷ []))
unfolding contains
Fresh-snoc seen [] y f s h = (s, tt)
Fresh-snoc seen (x ∷ xs) y (c, f) s h =
    (c, Fresh-snoc (x ∷ seen) xs y f (ground arith) (ground arith))

-- Each once, and none blank.
abbrev pub IsClean : List String → Type 0
IsClean ids = Fresh [] ids × All (λ id. is_blank id ≡ false) ids

add_id-IsClean : (ids : List String) (raw : String) → IsClean ids → IsClean (add_id ids raw)
unfolding add_id contains
add_id-IsClean ids raw (f, b) = elim (Bool-cases (is_blank (trim_space raw))) [
  | inl blank ↦ rw blank (f, b)
  | inr filled ↦ elim (Bool-cases (contains ids (trim_space raw))) [
    | inl seen ↦ rw (filled, seen) (f, b)
    | inr fresh ↦
        rw (filled, fresh) (Fresh-snoc [] ids _ f refl fresh, All-append _ ids _ b (filled, tt))
  ]
]

pub add_cached-IsClean : (ids raws : List String) → IsClean ids → IsClean (add_cached ids raws)
unfolding add_cached
add_cached-IsClean ids [] h = h
add_cached-IsClean ids (raw ∷ raws) h =
    add_cached-IsClean (add_id ids raw) raws (add_id-IsClean ids raw h)

pub add_sessions-IsClean :
    (ids : List String) (active : List (Option Session))
    → IsClean ids
    → IsClean (add_sessions ids active)
unfolding add_sessions
add_sessions-IsClean ids [] h = h
add_sessions-IsClean ids (none ∷ rest) h = add_sessions-IsClean ids rest h
add_sessions-IsClean ids (some m ∷ rest) h =
    add_sessions-IsClean (add_id ids m.session_id) rest (add_id-IsClean ids m.session_id h)
