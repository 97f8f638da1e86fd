-- ===== src/Registration/Values.antt =====
-- The values that service.go of internal/application/client lets through.
use sienne.Base.{
  String, ◌≡◌, refl, ap, subst, ◌≢◌, inl, inr, Bool, true, false, not, ◌&&◌, Option, none, some,
  List, [], ◌∷◌, arith, Bool-cases, All,
}
use sienne.Base.Exec.{Result, ok, err, fault}
use sienne.Base.Text.{trim_space, to_lower, is_blank}
use sienne.Scopes.{contains}
use sienne.Scopes.Laws.{In, contains_iff, Fresh}
use sienne.Registration.{
  Err, invalid_grant_type, and_also, turn, some_or, grant_error, grants_from, check_grants,
  normalize_grant_types, scope_error, scopes_from, normalize_client_scopes, ParsedUri, uri_error,
  uris_from, normalize_redirect_uris,
}

-- Not blank, and without an error of its own.
abbrev pub IsGood : (String → Option Err) → String → Type 0
IsGood error value = (is_blank value ≡ false) × (error value ≡ none)

-- Good values, each once.
abbrev pub AreGood : (String → Option Err) → List String → List String → Type 0
AreGood error seen xs = All (IsGood error) xs × Fresh seen xs

ok_inj : {x y : List String} → (◌≡◌ {A = Result Err (List String)} (ok x) (ok y)) → x ≡ y
ok_inj h = cc

has_code : (refresh code : Bool) → (refresh && not code) ≡ false → refresh ≡ true → code ≡ true
has_code true true h k = refl
has_code true false h k = cc
has_code false code h k = cc

and_also-eq-ok :
    (x : String) (r : Result Err (List String)) (xs : List String)
    → and_also x r ≡ ok xs
    → (ys : List String) × (r ≡ ok ys) × (x ∷ ys ≡ xs)
unfolding and_also
and_also-eq-ok x (ok ys) xs h = (ys, refl, cc)
and_also-eq-ok x (err e) xs h = cc
and_also-eq-ok x (fault f) xs h = cc

-- A turn of a loop that ends well keeps the results good.
turn-AreGood :
    (error : String → Option Err) (value : String) (e : Option Err) (seen xs : List String)
    (skip keep : Result Err (List String))
    → error value ≡ e
    → ((ys : List String) → skip ≡ ok ys → AreGood error seen ys)
    → ((ys : List String) → keep ≡ ok ys → AreGood error (value ∷ seen) ys)
    → turn value e seen skip keep ≡ ok xs
    → AreGood error seen xs
unfolding turn
turn-AreGood error value (some e) seen xs skip keep is_e f g h =
    elim (Bool-cases (is_blank value)) [
      | inl blank ↦ f xs (ground arith)
      | inr filled ↦ ground arith
    ]
turn-AreGood error value none seen xs skip keep is_e f g h = elim (Bool-cases (is_blank value)) [
  | inl blank ↦ f xs (ground arith)
  | inr filled ↦ elim (Bool-cases (contains seen value)) [
    | inl old ↦ f xs (ground arith)
    | inr fresh ↦
        let (ys, kept, same) = and_also-eq-ok value keep xs (ground arith) in
        let (good, distinct) = g ys kept in
        subst (AreGood error seen) same (((filled, is_e), good), (fresh, distinct))
  ]
]

some_or-eq-ok :
    (e : Err) (r : Result Err (List String)) (xs : List String)
    → some_or e r ≡ ok xs
    → (r ≡ ok xs) × (xs ≢ [])
unfolding some_or
some_or-eq-ok e (ok []) xs h = cc
some_or-eq-ok e (ok (y ∷ ys)) xs h = (h, λ none_left. cc)
some_or-eq-ok e (err e₂) xs h = cc
some_or-eq-ok e (fault f) xs h = cc

grants_from-AreGood :
    (seen raws xs : List String) → grants_from seen raws ≡ ok xs → AreGood grant_error seen xs
unfolding grants_from
grants_from-AreGood seen [] xs h = subst (AreGood grant_error seen) (ok_inj h) (tt, tt)
grants_from-AreGood seen (raw ∷ raws) xs h =
    turn-AreGood grant_error (to_lower (trim_space raw)) _ seen xs _ _ refl
      (λ ys e. grants_from-AreGood seen raws ys e)
      (λ ys e. grants_from-AreGood (to_lower (trim_space raw) ∷ seen) raws ys e) h

scopes_from-AreGood :
    (seen raws xs : List String) → scopes_from seen raws ≡ ok xs → AreGood scope_error seen xs
unfolding scopes_from
scopes_from-AreGood seen [] xs h = subst (AreGood scope_error seen) (ok_inj h) (tt, tt)
scopes_from-AreGood seen (raw ∷ raws) xs h =
    turn-AreGood scope_error (trim_space raw) _ seen xs _ _ refl
      (λ ys e. scopes_from-AreGood seen raws ys e)
      (λ ys e. scopes_from-AreGood (trim_space raw ∷ seen) raws ys e) h

uris_from-AreGood :
    (parse : String → Option ParsedUri) (seen raws xs : List String)
    → uris_from parse seen raws ≡ ok xs
    → AreGood (uri_error parse) seen xs
unfolding uris_from
uris_from-AreGood parse seen [] xs h = subst (AreGood (uri_error parse) seen) (ok_inj h) (tt, tt)
uris_from-AreGood parse seen (raw ∷ raws) xs h =
    turn-AreGood (uri_error parse) (trim_space raw) _ seen xs _ _ refl
      (λ ys e. uris_from-AreGood parse seen raws ys e)
      (λ ys e. uris_from-AreGood parse (trim_space raw ∷ seen) raws ys e) h

-- Supported grant types, each once and at least one, of which refresh tokens need codes.
pub record AreGrants (xs : List String) : Type 0 where
  pub good : AreGood grant_error [] xs
  pub some_left : xs ≢ []
  pub refresh_has_code : In "refresh_token" xs → In "authorization_code" xs

check_grants-eq-ok :
    (r : Result Err (List String)) (xs : List String)
    → check_grants r ≡ ok xs
    → (r ≡ ok xs)
      × ((contains xs "refresh_token" && not (contains xs "authorization_code")) ≡ false)
unfolding check_grants
check_grants-eq-ok (ok ys) xs h =
    elim (Bool-cases (contains ys "refresh_token" && not (contains ys "authorization_code"))) [
      | inl bad ↦ ground arith
      | inr fine ↦
          let same : ys ≡ xs = ok_inj (ground arith) in
          (
            ap ok same,
            subst
                (λ zs.
                  (contains zs "refresh_token" && not (contains zs "authorization_code")) ≡ false)
                same fine,
          )
    ]
check_grants-eq-ok (err e) xs h = cc
check_grants-eq-ok (fault f) xs h = cc

pub normalize_grant_types-AreGrants :
    (values xs : List String) → normalize_grant_types values ≡ ok xs → AreGrants xs
unfolding normalize_grant_types
normalize_grant_types-AreGrants values xs h =
    let (h₁, fine) = check_grants-eq-ok _ xs h in
    let (h₂, some_left) = some_or-eq-ok invalid_grant_type _ xs h₁ in
    record {
      good = grants_from-AreGood [] values xs h₂;
      some_left = some_left;
      refresh_has_code = λ m.
          (contains_iff xs "authorization_code").0
            (has_code _ _ fine ((contains_iff xs "refresh_token").1 m));
    }

pub normalize_client_scopes-AreGood :
    (values xs : List String)
    → normalize_client_scopes values ≡ ok xs
    → AreGood scope_error [] xs × (xs ≢ [])
unfolding normalize_client_scopes
normalize_client_scopes-AreGood values xs h =
    let (h₁, some_left) = some_or-eq-ok _ _ xs h in (scopes_from-AreGood [] values xs h₁, some_left)

pub normalize_redirect_uris-AreGood :
    (parse : String → Option ParsedUri) (values xs : List String)
    → normalize_redirect_uris parse values ≡ ok xs
    → AreGood (uri_error parse) [] xs × (xs ≢ [])
unfolding normalize_redirect_uris
normalize_redirect_uris-AreGood parse values xs h =
    let (h₁, some_left) = some_or-eq-ok _ _ xs h in
    (uris_from-AreGood parse [] values xs h₁, some_left)
