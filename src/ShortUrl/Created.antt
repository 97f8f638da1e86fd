-- ===== src/ShortUrl/Created.antt =====
-- What must hold for service.go of internal/application/shorturl to make a short link.
use Prim.Native.Char.{code}
use sienne.Base.{
  ℕ, zero, suc, ◌≤◌, ◌<◌, String, ◌≡◌, refl, sym, subst, ◌∙◌, ◌⊎◌, inl, inr, Bool, true, false,
  Option, none, some, arith, length,
}
use sienne.Base.Exec.{Result, ok, err, fault, Exec, fail, raise, guard}
use sienne.Base.Int.{ℤ, ◌<ℤ◌, ltb_ℤ_iff}
use sienne.Base.Text.{trim_space, is_blank}
use sienne.Ports.{Duplicate, duplicate}
use sienne.Domain.{Link}
use sienne.Base.Text.{byte_length}
use sienne.Base.Exec.Success.{
  >>=-eq-ok, require-eq-ok, call-eq-ok, always-eq-ok, guard-eq-ok, pure-eq-ok,
}
use sienne.Device.Start.{IsWord, put_at-OccursIn}
use sienne.ShortUrl.{
  Err, CreateInput, CreateResult, Service, short_code_alphabet, short_code_pattern, new_link,
  create_result_from_link, normalize_target_url, generate_code, check_expiry, stored_or, store,
  attempt, create_if, create,
}
use Prim.Native.Char.{Char, code as code_point}
use sienne.Base.{Bool, true, false, ◌&&◌, ◌≤◌, leb, eq_iff, nat_eq_iff, ◌⊎◌}
use sienne.Base.Text.{AllChars, characters, to_lower}
use sienne.Account.{every, is_letter, is_digit}
use sienne.ShortUrl.{is_code_char, target_of}
use sienne.Base.{ap}
use sienne.Domain.{Link}

-- Four to 32 letters, digits, `_` and `-`.
abbrev pub IsCodeChar : Char → Type 0
IsCodeChar c =
    (is_letter c ≡ true) ⊎ ((is_digit c ≡ true) ⊎ ((code_point c ≡ 95) ⊎ (code_point c ≡ 45)))

abbrev pub IsShortCode : String → Type 0
IsShortCode s = (4 ≤ characters s) × (characters s ≤ 32) × AllChars IsCodeChar s

is_code_char-IsCodeChar : (c : Char) → is_code_char c ≡ true → IsCodeChar c
is_code_char-IsCodeChar c h =
    ground (arith, nat_eq_iff (code_point c) 95, nat_eq_iff (code_point c) 45)

both_true : (x y : Bool) → (x && y) ≡ true → (x ≡ true) × (y ≡ true)
both_true true y h = (refl, h)
both_true false y h = cc

every-IsCodeChar : (s : String) → every is_code_char s ≡ true → AllChars IsCodeChar s
unfolding every
every-IsCodeChar String.[] h = tt
every-IsCodeChar (String.◌∷◌ c s) h =
    let (here, rest) = both_true (is_code_char c) (every is_code_char s) h in
    (is_code_char-IsCodeChar c here, every-IsCodeChar s rest)

short_code_pattern-IsShortCode : (s : String) → short_code_pattern s ≡ true → IsShortCode s
unfolding short_code_pattern
short_code_pattern-IsShortCode s h =
    let (bounds, chars) = both_true (leb 4 (characters s) && leb (characters s) 32) _ h in
    (ground arith, ground arith, every-IsCodeChar s chars)

module _ {W U : Type 0} (s : Service W U) where
  -- rand.Int gives a number below its bound, which is positive, or fails.
  abbrev pub StaysBelow : Type 0
  StaysBelow = (n drawn : ℕ) (w v : W) → s.random_below n w ≡ (ok drawn, v) → 0 < n → drawn < n

  -- A link with this code was stored, with the rest as it was asked for.
  pub record Stored (target : String) (expires_at : Option ℤ) (code : String) (v : W)
      (a : CreateResult) : Type 0 where
    pub before : W
    pub link : Link
    pub of_code : link.code ≡ code
    pub of_target : link.target_url ≡ target
    pub of_expiry : link.expires_at ≡ expires_at
    pub of_instant : link.created_at ≡ (s.clock.now before).0
    pub stores : s.repo.create link (s.clock.now before).1 ≡ (ok tt, v)
    pub answers :
        (a.code ≡ link.code)
        × (a.target_url ≡ link.target_url)
        × (a.expires_at ≡ link.expires_at)
        × (a.created_at ≡ link.created_at)

  -- Either it was stored, or it was a duplicate and what was to come after that succeeded.
  abbrev pub Goes : Exec W Err CreateResult → Type 0 → W → CreateResult → Type 0
  Goes again P v a = P ⊎ ((w : W) × (again w ≡ (ok a, v)))

  stored_or-Goes :
      (r : Result Duplicate (Unit {0})) (link : Link) (again : Exec W Err CreateResult) (w v : W)
      (a : CreateResult)
      → stored_or s r link again w ≡ (ok a, v)
      → Goes again ((r ≡ ok tt) × (w ≡ v) × (a ≡ create_result_from_link link)) v a
  unfolding stored_or raise
  stored_or-Goes (ok u) link again w v a h =
      let (made, end) = pure-eq-ok h in inl (refl, end, sym made)
  stored_or-Goes (err duplicate) link again w v a h = inr (w, h)
  stored_or-Goes (fault f) link again w v a h = cc

  store-Goes :
      (code target : String) (expires_at : Option ℤ) (again : Exec W Err CreateResult) (w v : W)
      (a : CreateResult)
      → store s code target expires_at again w ≡ (ok a, v)
      → Goes again (Stored target expires_at code v a) v a
  unfolding store new_link create_result_from_link
  store-Goes code target expires_at again w v a h =
      let h₁ = always-eq-ok _ _ h in
      let h₂ = always-eq-ok _ _ h₁ in
      elim (stored_or-Goes _ _ again _ v a h₂) [
        | inl (done, end, made) ↦ inl (record {
          before = w;
          link = new_link code target expires_at (s.clock.now w).0;
          of_code = refl;
          of_target = refl;
          of_expiry = refl;
          of_instant = refl;
          stores = cc;
          answers = (
            ap (λ (x : CreateResult). x.code) made,
            ap (λ (x : CreateResult). x.target_url) made,
            ap (λ (x : CreateResult). x.expires_at) made,
            ap (λ (x : CreateResult). x.created_at) made,
          );
        })
        | inr later ↦ inr later
      ]

  generate_code-IsWord :
      (below : StaysBelow) (n : ℕ) (w v : W) (code : String)
      → generate_code s n w ≡ (ok code, v)
      → IsWord short_code_alphabet n code
  unfolding generate_code
  generate_code-IsWord below zero w v code h =
      subst (IsWord short_code_alphabet 0) (pure-eq-ok h).0 (refl, tt)
  generate_code-IsWord below (suc n) w v code h =
      let (drawn, w₁, draws, h₁) = call-eq-ok _ _ h in
      let (rest, w₂, goes, h₂) = >>=-eq-ok _ _ h₁ in
      let (c, same, m) =
        put_at-OccursIn short_code_alphabet drawn rest (below 62 drawn w w₁ draws (omega arith)) in
      let (length, all) = generate_code-IsWord below n w₁ w₂ rest goes in
      subst (IsWord short_code_alphabet (suc n)) (sym same ∙ (pure-eq-ok h₂).0)
        (omega (arith, length), (m, all))

  -- The code that was stored: one of seven letters and digits, where none was asked for.
  abbrev pub Generated : String → Option ℤ → W → CreateResult → Type 0
  Generated target expires_at v a =
      (code : String) × IsWord short_code_alphabet 7 code × Stored target expires_at code v a

  attempt-Generated :
      (below : StaysBelow) (n : ℕ) (target : String) (expires_at : Option ℤ) (w v : W)
      (a : CreateResult)
      → attempt s n target expires_at w ≡ (ok a, v)
      → Generated target expires_at v a
  unfolding attempt fail
  attempt-Generated below zero target expires_at w v a h = cc
  attempt-Generated below (suc n) target expires_at w v a h =
      let (code, w₁, word, h₁) = >>=-eq-ok _ _ h in
      elim (store-Goes code target expires_at _ w₁ v a h₁) [
        | inl stored ↦ (code, generate_code-IsWord below 7 w w₁ code word, stored)
        | inr (w₂, later) ↦ attempt-Generated below n target expires_at w₂ v a later
      ]

  -- The link that was made, under the code asked for or a generated one.
  abbrev pub Named : Bool → String → String → Option ℤ → W → CreateResult → Type 0
  Named true code target expires_at v a = Generated target expires_at v a
  Named false code target expires_at v a = IsShortCode code × Stored target expires_at code v a

  create_if-Named :
      (below : StaysBelow) (blank : Bool) (code target : String) (expires_at : Option ℤ) (w v : W)
      (a : CreateResult)
      → create_if s blank code target expires_at w ≡ (ok a, v)
      → Named blank code target expires_at v a
  unfolding create_if fail
  create_if-Named below true code target expires_at w v a h =
      attempt-Generated below 8 target expires_at w v a h
  create_if-Named below false code target expires_at w v a h =
      let (fits, h₁) = guard-eq-ok (short_code_pattern code) _ _ h in
      elim (store-Goes code target expires_at _ w v a h₁) [
        | inl stored ↦ (short_code_pattern-IsShortCode code fits, stored)
        | inr (w₁, later) ↦ cc
      ]

  -- The instant, if there is one, was still to come.
  abbrev pub IsToCome : Option ℤ → W → Type 0
  IsToCome none w = Unit
  IsToCome (some at) w = (s.clock.now w).0 <ℤ at

  guard_alone : (test : Bool) (e : Err) (w v : W) → guard test e w ≡ (ok tt, v) → test ≡ true
  unfolding guard
  guard_alone true e w v h = refl
  guard_alone false e w v h = cc

  check_expiry-IsToCome :
      (expires_at : Option ℤ) (w v : W)
      → check_expiry s expires_at w ≡ (ok tt, v)
      → IsToCome expires_at w
  unfolding check_expiry
  check_expiry-IsToCome none w v h = tt
  check_expiry-IsToCome (some at) w v h =
      (ltb_ℤ_iff (s.clock.now w).0 at).0 (guard_alone _ _ _ v (always-eq-ok _ _ h))

  -- A URL that may be linked to: an http or https URL with a host and without a user.
  pub record IsTarget (value target : String) : Type 0 where
    pub least : is_blank (trim_space value) ≡ false
    pub most : byte_length (trim_space value) ≤ 2048
    pub url : U
    pub parsed : s.parse_request_uri (trim_space value) ≡ some url
    pub scheme : (to_lower (s.scheme url) ≡ "http") ⊎ (to_lower (s.scheme url) ≡ "https")
    pub host : is_blank (s.host url) ≡ false
    pub no_user : s.has_user url ≡ false
    pub printed : target ≡ s.text_of url

  -- What a link that is made has passed.
  pub record Created (input : CreateInput) (w v : W) (a : CreateResult) : Type 0 where
    pub target : String
    pub accepted : IsTarget input.target_url target
    pub in_time : IsToCome input.expires_at w
    pub named :
        Named (is_blank (trim_space input.code)) (trim_space input.code) target input.expires_at v a

  target_of-eq-some :
      (o : Option U) (target : String)
      → target_of s o ≡ some target
      → (u : U) × (o ≡ some u)
        × ((to_lower (s.scheme u) ≡ "http") ⊎ (to_lower (s.scheme u) ≡ "https"))
        × (is_blank (s.host u) ≡ false)
        × (s.has_user u ≡ false)
        × (target ≡ s.text_of u)
  unfolding target_of
  target_of-eq-some none target h = cc
  target_of-eq-some (some u) target h = (
    u,
    refl,
    ground (arith, eq_iff (to_lower (s.scheme u)) "http", eq_iff (to_lower (s.scheme u)) "https"),
    ground arith,
    ground arith,
    ground arith,
  )

  normalize_target_url-IsTarget :
      (value target : String) → normalize_target_url s value ≡ some target → IsTarget value target
  unfolding normalize_target_url
  normalize_target_url-IsTarget value target h =
      let (u, parsed, scheme, host, no_user, printed) =
        target_of-eq-some (s.parse_request_uri (trim_space value)) target (ground arith) in
      record {
        least = ground arith;
        most = ground arith;
        url = u;
        parsed = parsed;
        scheme = scheme;
        host = host;
        no_user = no_user;
        printed = printed;
      }

  -- Where rand.Int stays below its bound: a short link is made only to an http or https URL of at most
  -- 2048 bytes that net/url parses, with a host and no user, and with an expiry, if any, that is still
  -- to come. Its code is the one asked for, which then has 4 to 32 letters, digits, underscores and
  -- dashes, or one of seven letters and digits where none was asked for; the repository stored a link
  -- with this code, the URL as net/url prints it, and the expiry, and the answer is what was stored.
  pub create-Created :
      (below : StaysBelow) (input : CreateInput) (w v : W) (a : CreateResult)
      → create s input w ≡ (ok a, v)
      → Created input w v a
  unfolding create
  create-Created below input w v a h =
      let (target, accepted, h₁) = require-eq-ok _ _ _ h in
      let (u, w₁, checked, h₂) = >>=-eq-ok _ _ h₁ in
      record {
        target = target;
        accepted = normalize_target_url-IsTarget input.target_url target accepted;
        in_time = check_expiry-IsToCome input.expires_at w w₁ checked;
        named = create_if-Named below _ _ target input.expires_at w₁ v a h₂;
      }
