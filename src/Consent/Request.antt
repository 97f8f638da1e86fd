-- ===== src/Consent/Request.antt =====
-- The request that a consent is about, and the URL of a denial.
use sienne.Base.{
  String, ◌≡◌, refl, sym, subst, ◌⊎◌, inl, inr, Bool, true, false, Option, none, some, arith,
  eq_iff, if◌then◌else◌,
}
use sienne.Base.Text.{trim_space, is_blank, fields}
use sienne.Base.{[], ◌∷◌}
use sienne.Scopes.Laws.{Chosen}
use sienne.Authz.Issue.{requested_scopes-Chosen}
use sienne.Authz.{requested_scopes}
use sienne.Consent.{
  Service, AuthorizeReturnTo, from_query, parse_url, parse_authorize_return_to, denied,
  build_deny_redirect,
}

module _ {W U V : Type 0} (s : Service W U V) where
  -- A request to the authorize endpoint, with the parameters of its query.
  pub record Parsed (return_to : String) (r : AuthorizeReturnTo) : Type 0 where
    pub url : U
    pub read : s.urls.parse (trim_space return_to) ≡ some url
    pub endpoint : s.urls.path url ≡ "/oauth2/authorize"
    pub client_id : r.client_id ≡ trim_space (s.urls.get (s.urls.query url) "client_id")
    pub redirect_uri : r.redirect_uri ≡ trim_space (s.urls.get (s.urls.query url) "redirect_uri")
    pub state : r.state ≡ trim_space (s.urls.get (s.urls.query url) "state")
    pub scopes :
        r.scopes ≡ requested_scopes (fields (trim_space (s.urls.get (s.urls.query url) "scope")))
    pub chosen :
        Chosen
          (fields (trim_space (s.urls.get (s.urls.query url) "scope")))
          ("openid" ∷ [])
          r.scopes

  parse_url-Parsed :
      (return_to : String) (o : Option U) (r : AuthorizeReturnTo)
      → s.urls.parse (trim_space return_to) ≡ o
      → parse_url s o ≡ some r
      → Parsed return_to r
  unfolding parse_url
  parse_url-Parsed return_to none r e h = cc
  parse_url-Parsed return_to (some u) r e h =
      let same : from_query s (s.urls.query u) ≡ r = ground arith in
      subst (Parsed return_to) same
        (of_query return_to u e (ground (arith, eq_iff (s.urls.path u) "/oauth2/authorize")))
    where
      of_query :
          (raw : String) (u : U)
          → s.urls.parse (trim_space raw) ≡ some u
          → s.urls.path u ≡ "/oauth2/authorize"
          → Parsed raw (from_query s (s.urls.query u))
      of_query raw u e endpoint = record {
        url = u;
        read = e;
        endpoint = endpoint;
        client_id = refl;
        redirect_uri = refl;
        state = refl;
        scopes = refl;
        chosen = requested_scopes-Chosen _;
      }

  pub parse_authorize_return_to-Parsed :
      (return_to : String) (r : AuthorizeReturnTo)
      → parse_authorize_return_to s return_to ≡ some r
      → Parsed return_to r
  unfolding parse_authorize_return_to
  parse_authorize_return_to-Parsed return_to r h =
      parse_url-Parsed return_to (s.urls.parse (trim_space return_to)) r refl (ground arith)

  -- The redirect URI with the error in its query, and with the state if there is one.
  pub record Refusal (redirect_uri state uri : String) : Type 0 where
    pub url : U
    pub query : V
    pub read : s.urls.parse redirect_uri ≡ some url
    pub printed : uri ≡ s.urls.text (s.urls.with_query query url)
    pub error :
        ((is_blank state ≡ true) × (query ≡ s.urls.set "error" "access_denied" (s.urls.query url)))
        ⊎ ((is_blank state ≡ false)
            × (query
                ≡ s.urls.set "state" state (s.urls.set "error" "access_denied" (s.urls.query url))))

  refusal_query :
      (state : String) (q : V) (blank : Bool)
      → is_blank state ≡ blank
      → ((is_blank state ≡ true) × ((if blank then q else s.urls.set "state" state q) ≡ q))
        ⊎ ((is_blank state ≡ false)
            × ((if blank then q else s.urls.set "state" state q) ≡ s.urls.set "state" state q))
  refusal_query state q true e = inl (e, refl)
  refusal_query state q false e = inr (e, refl)

  denied-Refusal :
      (redirect_uri state uri : String) (o : Option U)
      → s.urls.parse redirect_uri ≡ o
      → elim o as (λ _. Option String) [ none ↦ none | some u ↦ some (denied s u state) ] ≡ some uri
      → Refusal redirect_uri state uri
  unfolding denied
  denied-Refusal redirect_uri state uri none e h = cc
  denied-Refusal redirect_uri state uri (some u) e h =
      let q = s.urls.set "error" "access_denied" (s.urls.query u) in
      let same : denied s u state ≡ uri = cc in
      record {
        url = u;
        query = if is_blank state then q else s.urls.set "state" state q;
        read = e;
        printed = sym same;
        error = refusal_query state q (is_blank state) refl;
      }

  pub build_deny_redirect-Refusal :
      (redirect_uri state uri : String)
      → build_deny_redirect s redirect_uri state ≡ some uri
      → Refusal redirect_uri state uri
  unfolding build_deny_redirect
  build_deny_redirect-Refusal redirect_uri state uri h =
      denied-Refusal redirect_uri state uri (s.urls.parse redirect_uri) refl h
