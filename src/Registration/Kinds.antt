-- ===== src/Registration/Kinds.antt =====
-- The two kinds of client, and the values of a registered one, for service.go of
-- internal/application/client.
use sienne.Base.{
  ◌≤◌, String, ◌≡◌, refl, sym, ap, subst, ◌⊎◌, inl, inr, Bool, true, false, ◌&&◌, ◌||◌, Option,
  none, some, List, [], ◌∷◌, arith, ◌==◌, eq_iff, leb, if◌then◌else◌, All,
}
use sienne.Base.Exec.{ok, fail}
use sienne.Base.Text.{is_blank}
use sienne.Domain.{Client}
use sienne.Ports.{Passwords}
use sienne.Base.Text.{byte_length}
use sienne.Base.Exec.Success.{call_alone-eq-ok, guard-eq-ok, pure-eq-ok}
use sienne.Scopes.Laws.{In, contains_iff, Fresh}
use sienne.Registration.{
  Err, Service, ParsedUri, supported_grant_types, grant_error, scope_error, has_hash, is_bad_uri,
  uri_error, settings_error,
}
use sienne.Registration.Values.{IsGood}
use sienne.Registration.Requests.{secret_hash_by, secret_for, normalize_client_secret}

-- Each once, and each with the property.
abbrev pub AreDistinct : (String → Type 0) → List String → Type 0
AreDistinct P xs = All P xs × Fresh [] xs

abbrev pub IsScopeName : String → Type 0
IsScopeName value = (is_blank value ≡ false) × (byte_length value ≤ 128)

-- Absolute, with neither fragment nor `#`, and of at most 1024 bytes.
pub record IsRedirectUri (parse : String → Option ParsedUri) (value : String) : Type 0 where
  pub parsed : ParsedUri
  pub parses : parse value ≡ some parsed
  pub has_scheme : is_blank parsed.scheme ≡ false
  pub no_fragment : is_blank parsed.fragment ≡ true
  pub no_hash : has_hash value ≡ false
  pub most : byte_length value ≤ 1024

pub All-imp :
    (P Q : String → Type 0) → ((x : String) → P x → Q x) → (xs : List String) → All P xs → All Q xs
All-imp P Q f [] h = tt
All-imp P Q f (x ∷ xs) (h, hs) = (f x h, All-imp P Q f xs hs)

if_then_none : (test : Bool) (e : Err) → (if test then none else some e) ≡ none → test ≡ true
if_then_none true e h = refl
if_then_none false e h = cc

if_else_none : (test : Bool) (e : Err) → (if test then some e else none) ≡ none → test ≡ false
if_else_none true e h = cc
if_else_none false e h = refl

pub grant_error-In : (x : String) → IsGood grant_error x → In x supported_grant_types
unfolding grant_error
grant_error-In x (filled, h) = (contains_iff supported_grant_types x).0 (if_then_none _ _ h)

pub scope_error-IsScopeName : (x : String) → IsGood scope_error x → IsScopeName x
unfolding scope_error
scope_error-IsScopeName x (filled, h) = (filled, ground arith)

is_bad_uri-eq-false :
    (o : Option ParsedUri)
    → is_bad_uri o ≡ false
    → (p : ParsedUri) × (o ≡ some p) × (is_blank p.scheme ≡ false) × (is_blank p.fragment ≡ true)
unfolding is_bad_uri
is_bad_uri-eq-false none h = cc
is_bad_uri-eq-false (some p) h = (p, refl, ground arith, ground arith)

pub uri_error-IsRedirectUri :
    (parse : String → Option ParsedUri) (x : String)
    → IsGood (uri_error parse) x
    → IsRedirectUri parse x
unfolding uri_error
uri_error-IsRedirectUri parse x (filled, h) =
    let all = if_else_none _ _ h in
    let (p, parses, scheme, fragment) = is_bad_uri-eq-false (parse x) (ground arith) in
    record {
      parsed = p;
      parses = parses;
      has_scheme = scheme;
      no_fragment = fragment;
      no_hash = ground arith;
      most = ground arith;
    }

pub settings_kind :
    (t m : String) (p : Bool)
    → settings_error t m p ≡ none
    → ((t ≡ "confidential") × ((m ≡ "client_secret_basic") ⊎ (m ≡ "client_secret_post")))
      ⊎ ((t ≡ "public") × (m ≡ "none") × (p ≡ true))
unfolding settings_error
settings_kind t m p h = ground (
  arith,
  eq_iff t "confidential",
  eq_iff t "public",
  eq_iff m "client_secret_basic",
  eq_iff m "client_secret_post",
  eq_iff m "none",
)

no_secret_test :
    (t m : String)
    → t ≡ "confidential"
    → (m ≡ "client_secret_basic") ⊎ (m ≡ "client_secret_post")
    → (t == "public" || m == "none") ≡ false
no_secret_test t m e (inl f) = rw (e, f) refl
no_secret_test t m e (inr f) = rw (e, f) refl

module _ {W : Type 0} (s : Service W) where
  -- The two kinds of client, by type, authentication, secret and PKCE.
  pub data IsKind (c : Client) (secret : String) : Type 0 where
    confidential :
        (p : Passwords W) (u v : W)
        → c.client_type ≡ "confidential"
        → (c.token_endpoint_auth_method ≡ "client_secret_basic")
          ⊎ (c.token_endpoint_auth_method ≡ "client_secret_post")
        → 8 ≤ byte_length secret
        → byte_length secret ≤ 128
        → s.passwords ≡ some p
        → p.hash_password secret u ≡ (ok c.client_secret_hash, v)
        → IsKind c secret
    public :
        c.client_type ≡ "public"
        → c.token_endpoint_auth_method ≡ "none"
        → c.require_pkce ≡ true
        → is_blank secret ≡ true
        → c.client_secret_hash ≡ ""
        → IsKind c secret

  secret_hash_by-eq-ok :
      (has : Option (Passwords W)) (secret hash : String) (w v : W)
      → secret_hash_by s has secret w ≡ (ok hash, v)
      → (p : Passwords W) × (has ≡ some p) × (p.hash_password secret w ≡ (ok hash, v))
  unfolding secret_hash_by fail
  secret_hash_by-eq-ok none secret hash w v h = cc
  secret_hash_by-eq-ok (some p) secret hash w v h = (p, refl, call_alone-eq-ok _ h)

  pub secret-IsKind :
      (c : Client) (secret : String) (w v : W)
      → ((c.client_type ≡ "confidential")
          × ((c.token_endpoint_auth_method ≡ "client_secret_basic")
              ⊎ (c.token_endpoint_auth_method ≡ "client_secret_post")))
        ⊎ ((c.client_type ≡ "public")
            × (c.token_endpoint_auth_method ≡ "none")
            × (c.require_pkce ≡ true))
      → normalize_client_secret s c.client_type c.token_endpoint_auth_method secret w
        ≡ (ok c.client_secret_hash, v)
      → IsKind c secret
  unfolding normalize_client_secret secret_for
  secret-IsKind c secret w v (inl (e, m)) h =
      let (bounds, h₂) =
        guard-eq-ok (leb 8 (byte_length secret) && leb (byte_length secret) 128) _ _ (
          subst (λ t. secret_for s t secret w ≡ (ok c.client_secret_hash, v))
            (no_secret_test _ _ e m) h) in
      let (p, has, hashed) = secret_hash_by-eq-ok s.passwords secret c.client_secret_hash w v h₂ in
      confidential p w v e m (ground arith) (ground arith) has hashed
  secret-IsKind c secret w v (inr (e, m, pkce)) h =
      let is_public : (c.client_type == "public") ≡ true = (eq_iff c.client_type "public").1 e in
      let (blank, h₂) = guard-eq-ok (is_blank secret) _ _ (
        subst (λ t. secret_for s t secret w ≡ (ok c.client_secret_hash, v))
          (ap (λ t. t || c.token_endpoint_auth_method == "none") is_public) h) in
      public e m pkce blank (sym (pure-eq-ok h₂).0)
