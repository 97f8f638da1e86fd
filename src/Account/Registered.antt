-- ===== src/Account/Registered.antt =====
-- What a registration by service.go of internal/application/register has checked and stored.
use Prim.Native.Char.{Char}
use sienne.Base.{
  ◌≤◌, String, ◌≡◌, refl, sym, ap, ◌∙◌, ◌⊎◌, inl, inr, Bool, true, false, ◌&&◌, Option, none, some,
  arith, leb, Bool-cases,
}
use sienne.Base.{if◌then◌else◌}
use sienne.Base.Exec.{ok}
use sienne.Base.Int.{ℤ}
use sienne.Base.Text.{trim_space, to_lower}
use sienne.Domain.{User}
use sienne.Ports.{Passwords}
use sienne.Base.Text.{characters, AllChars, byte_length}
use sienne.Base.Exec.Success.{require-eq-ok, call-eq-ok, always-eq-ok, guard-eq-ok, pure-eq-ok}
use sienne.Account.{
  Service, RegisterInput, RegisterResult, is_letter, is_digit, is_name_char, every, some_char,
  username_pattern, is_strong_enough_password, is_valid_email, new_user, register_result, absent,
  store_user, register,
}

-- Some character of the text has the property.
abbrev pub AnyChar : (Char → Type 0) → String → Type 0
AnyChar P String.[] = ⊥
AnyChar P (String.◌∷◌ c s) = P c ⊎ AnyChar P s

both_true : (a b : Bool) → (a && b) ≡ true → (a ≡ true) × (b ≡ true)
both_true true b h = (refl, h)
both_true false b h = cc

every-AllChars :
    (test : Char → Bool) (s : String) → every test s ≡ true → AllChars (λ c. test c ≡ true) s
unfolding every
every-AllChars test String.[] h = tt
every-AllChars test (String.◌∷◌ c s) h =
    let (here, rest) = both_true (test c) (every test s) h in (here, every-AllChars test s rest)

some_char-AnyChar :
    (test : Char → Bool) (s : String) → some_char test s ≡ true → AnyChar (λ c. test c ≡ true) s
unfolding some_char
some_char-AnyChar test String.[] h = cc
some_char-AnyChar test (String.◌∷◌ c s) h = elim (Bool-cases (test c)) [
  | inl here ↦ inl here
  | inr later ↦ inr (some_char-AnyChar test s (ground arith))
]

-- From 3 to 32 characters of the class of user names.
abbrev pub IsUsername : String → Type 0
IsUsername s = (3 ≤ characters s) × (characters s ≤ 32) × AllChars (λ c. is_name_char c ≡ true) s

-- From 8 to 128 bytes with a letter and a digit.
abbrev pub IsStrong : String → Type 0
IsStrong s =
    (8 ≤ byte_length s)
    × (byte_length s ≤ 128)
    × AnyChar (λ c. is_letter c ≡ true) s
    × AnyChar (λ c. is_digit c ≡ true) s

username_pattern-IsUsername : (s : String) → username_pattern s ≡ true → IsUsername s
unfolding username_pattern
username_pattern-IsUsername s h =
    let (bounds, chars) = both_true (leb 3 (characters s) && leb (characters s) 32) _ h in
    (ground arith, ground arith, every-AllChars is_name_char s chars)

is_strong_enough_password-IsStrong :
    (s : String) → is_strong_enough_password s ≡ true → IsStrong (trim_space s)
unfolding is_strong_enough_password
is_strong_enough_password-IsStrong s h =
    let letter : some_char is_letter (trim_space s) ≡ true = ground arith in
    let digit : some_char is_digit (trim_space s) ≡ true = ground arith in
    (
      ground arith,
      ground arith,
      some_char-AnyChar is_letter (trim_space s) letter,
      some_char-AnyChar is_digit (trim_space s) digit,
    )

module _ {W : Type 0} (s : Service W) where
  absent-eq-true : (o : Option User) → absent s o ≡ true → o ≡ none
  unfolding absent
  absent-eq-true none h = refl
  absent-eq-true (some user) h = cc

  activation_of :
      {auto : Bool} (active : Bool)
      → auto ≡ active
      → ((auto ≡ true)
          × (◌≡◌ {A = String} (if active then "active" else "pending_verification") "active"))
        ⊎ ((auto ≡ false)
            × (◌≡◌ {A = String}
                (if active then "active" else "pending_verification")
                "pending_verification"))
  activation_of true e = inl (e, refl)
  activation_of false e = inr (e, refl)

  -- What a registration has checked and stored.
  pub record Registered (input : RegisterInput) (w v : W) (a : RegisterResult) : Type 0 where
    pub user : User
    pub passwords : Passwords W
    pub id : ℤ
    pub now : ℤ
    pub by_name : W
    pub by_email : W
    pub hashed : W
    pub drawn : W
    pub username : IsUsername (trim_space input.username)
    pub email : s.parses_address (to_lower (trim_space input.email)) ≡ true
    pub most_email : byte_length (to_lower (trim_space input.email)) ≤ 255
    pub least_name : 2 ≤ byte_length (trim_space input.display_name)
    pub most_name : byte_length (trim_space input.display_name) ≤ 128
    pub strong : IsStrong (trim_space input.password)
    pub new_name : s.users.find_by_username user.username w ≡ (ok none, by_name)
    pub new_email : s.users.find_by_email user.email by_name ≡ (ok none, by_email)
    pub has : s.passwords ≡ some passwords
    pub hashes : passwords.hash_password input.password by_email ≡ (ok user.password_hash, hashed)
    pub made : user ≡ new_user s input user.user_uuid user.password_hash now
    pub activation :
        ((input.auto_activate ≡ true) × (user.status ≡ "active"))
        ⊎ ((input.auto_activate ≡ false) × (user.status ≡ "pending_verification"))
    pub stored : s.users.create user drawn ≡ (ok id, v)
    pub answer : a ≡ register_result s user id now

  -- A user is registered only under a name of 3 to 32 characters of its class and an address that
  -- no user has, the latter in lower case and with at most 255 bytes, with a display name of 2 to
  -- 128 bytes, and with a password that has, without the space around it, 8 to 128 bytes, a letter
  -- and a digit. The user that is stored has the hash of the password as it was given, and is
  -- active only if the request says so; what is stored is what is answered.
  pub register-Registered :
      (input : RegisterInput) (w v : W) (a : RegisterResult)
      → register s input w ≡ (ok a, v)
      → Registered input w v a
  unfolding register store_user is_valid_email new_user
  register-Registered input w v a h =
      let (named, h₁) = guard-eq-ok (username_pattern (trim_space input.username)) _ _ h in
      let (mailed, h₂) =
        guard-eq-ok
          (leb (byte_length (to_lower (trim_space input.email))) 255
            && s.parses_address (to_lower (trim_space input.email)))
          _ _ h₁ in
      let (shown, h₃) =
        guard-eq-ok
          (leb 2 (byte_length (trim_space input.display_name))
            && leb (byte_length (trim_space input.display_name)) 128)
          _ _ h₂ in
      let (strong, h₄) = guard-eq-ok (is_strong_enough_password input.password) _ _ h₃ in
      let (x, w₁, asked, h₅) = call-eq-ok _ _ h₄ in
      let (new_name, h₆) = guard-eq-ok (absent s x) _ _ h₅ in
      let (y, w₂, looked, h₇) = call-eq-ok _ _ h₆ in
      let (new_email, h₈) = guard-eq-ok (absent s y) _ _ h₇ in
      let (passwords, has, h₉) = require-eq-ok _ _ _ h₈ in
      let (hash, w₃, hashes, k₁) = call-eq-ok _ _ h₉ in
      let k₂ = always-eq-ok _ _ k₁ in
      let k₃ = always-eq-ok _ _ k₂ in
      let (id, w₄, stored, k₄) = call-eq-ok _ _ k₃ in
      let (answer, end) = pure-eq-ok k₄ in
      record {
        user = new_user s input (s.new_uuid (s.clock.now w₃).1).0 hash (s.clock.now w₃).0;
        passwords = passwords;
        id = id;
        now = (s.clock.now w₃).0;
        by_name = w₁;
        by_email = w₂;
        hashed = w₃;
        drawn = (s.new_uuid (s.clock.now w₃).1).1;
        username = username_pattern-IsUsername _ named;
        email = (both_true _ _ mailed).1;
        most_email = ground arith;
        least_name = ground arith;
        most_name = ground arith;
        strong = is_strong_enough_password-IsStrong input.password strong;
        new_name = asked ∙ ap (λ o. (ok o, w₁)) (absent-eq-true x new_name);
        new_email = looked ∙ ap (λ o. (ok o, w₂)) (absent-eq-true y new_email);
        has = has;
        hashes = hashes;
        made = refl;
        activation = activation_of input.auto_activate refl;
        stored = stored ∙ ap (λ z. (ok id, z)) end;
        answer = sym answer;
      }
