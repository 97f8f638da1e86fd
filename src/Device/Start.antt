-- ===== src/Device/Start.antt =====
-- The codes that service.go of internal/application/device makes, and the entry that Start saves.
use Prim.Native.Char.{Char}
use Prim.Native.String
use sienne.Base.{
  ℕ, zero, suc, ◌-◌, ◌%◌, ◌≤◌, ◌<◌, String, ◌≡◌, refl, sym, ap, subst, ◌∙◌, ◌⊎◌, inl, inr, true,
  Option, none, some, List, [], ◌∷◌, arith, eq_iff, nat_eq, nat_eq_iff, Bool-cases, length, All,
}
use sienne.Base.Exec.{ok}
use sienne.Base.Int.{◌+ℤ◌, whole_seconds}
use sienne.Base.Text.{characters, AllChars, trim_space}
use sienne.Domain.{Client}
use sienne.Ports.{DeviceCodeEntry, DeviceCodes}
use sienne.Base.Exec.Success.{
  >>=-eq-ok, require-eq-ok, call-eq-ok, always-eq-ok, guard-eq-ok, pure-eq-ok,
}
use sienne.Scopes.{contains, normalize_scopes}
use sienne.Scopes.Laws.{Chosen, case-Chosen, In, contains_iff, IsAllowed, all_contained_iff}
use sienne.Device.{
  StartInput, StartResult, Service, put_at, spell, token_alphabet, user_alphabet, first_bytes,
  after_bytes, user_code_of, start_scopes, device_client, random_token, random_user_code, new_entry,
  save_pending, start,
}

-- The character is one of the text's.
abbrev pub OccursIn : String → Char → Type 0
OccursIn String.[] c = ⊥
OccursIn (String.◌∷◌ d s) c = (c ≡ d) ⊎ OccursIn s c

-- A text of so many characters of the alphabet.
abbrev pub IsWord : String → ℕ → String → Type 0
IsWord alphabet n s = (characters s ≡ n) × AllChars (OccursIn alphabet) s

pub put_at-OccursIn :
    (alphabet : String) (n : ℕ) (out : String)
    → n < characters alphabet
    → (c : Char) × (put_at alphabet n out ≡ String.◌∷◌ c out) × OccursIn alphabet c
unfolding put_at
put_at-OccursIn String.[] n out h = absurd (omega (arith, h))
put_at-OccursIn (String.◌∷◌ d s) n out h = elim (Bool-cases (nat_eq n 0)) [
  | inl first ↦ (d, rw first refl, inl refl)
  | inr later ↦
      let (c, e, m) = put_at-OccursIn s (n - 1) out (ground (arith, nat_eq_iff n 0)) in
      (c, rw later e, inr m)
]

spell-IsWord :
    (alphabet : String) (size : ℕ) (buf : List ℕ)
    → 0 < size
    → size ≡ characters alphabet
    → IsWord alphabet (length buf) (spell alphabet size buf)
unfolding spell
spell-IsWord alphabet size [] h e = (refl, tt)
spell-IsWord alphabet size (byte ∷ buf) h e =
    let (c, same, m) = put_at-OccursIn alphabet (byte % size) _ (omega arith) in
    let (n, all) = spell-IsWord alphabet size buf h e in
    subst (IsWord alphabet (suc (length buf))) (sym same) (omega (arith, n), (m, all))

length-first_bytes : (n : ℕ) (xs : List ℕ) → n ≤ length xs → length (first_bytes n xs) ≡ n
unfolding first_bytes
length-first_bytes zero xs h = refl
length-first_bytes (suc n) [] h = omega (arith, h)
length-first_bytes (suc n) (x ∷ xs) h = omega (arith, length-first_bytes n xs (omega (arith, h)))

length-after_bytes : (n : ℕ) (xs : List ℕ) → length (after_bytes n xs) ≡ length xs - n
unfolding after_bytes
length-after_bytes zero xs = omega arith
length-after_bytes (suc n) [] = omega arith
length-after_bytes (suc n) (x ∷ xs) = omega (arith, length-after_bytes n xs)

-- Four characters of the alphabet, a dash, and four more.
abbrev pub IsUserCode : String → Type 0
IsUserCode code =
    (a : String) × (b : String) × (code ≡ String.◌++◌ a (String.◌++◌ "-" b))
    × IsWord user_alphabet 4 a
    × IsWord user_alphabet 4 b

user_code_of-IsUserCode : (buf : List ℕ) → length buf ≡ 8 → IsUserCode (user_code_of buf)
unfolding user_code_of
user_code_of-IsUserCode buf h = (
  spell user_alphabet 32 (first_bytes 4 buf),
  spell user_alphabet 32 (after_bytes 4 buf),
  refl,
  subst (λ n. IsWord user_alphabet n (spell user_alphabet 32 (first_bytes 4 buf)))
      (length-first_bytes 4 buf (omega (arith, h)))
      (spell-IsWord user_alphabet 32 (first_bytes 4 buf) (omega arith) refl),
  subst (λ n. IsWord user_alphabet n (spell user_alphabet 32 (after_bytes 4 buf)))
      (length-after_bytes 4 buf ∙ omega (arith, h))
      (spell-IsWord user_alphabet 32 (after_bytes 4 buf) (omega arith) refl),
)

-- rand.Read fills the buffer, or fails.
abbrev pub FillsBuffer : {W : Type 0} → Service W → Type 0
FillsBuffer {W} s = (n : ℕ) (buf : List ℕ) (w v : W) → s.random n w ≡ (ok buf, v) → length buf ≡ n

start_scopes-Chosen :
    (asked : List String) (client : Client) → Chosen asked client.scopes (start_scopes asked client)
unfolding start_scopes
start_scopes-Chosen asked client = case-Chosen asked client.scopes (normalize_scopes asked) refl

-- What Start has found and saved when it succeeds.
pub record Started {W : Type 0} (s : Service W) (codes : DeviceCodes W) (input : StartInput)
    (w v : W) (a : StartResult) : Type 0 where
  pub client : Client
  pub looked : W
  pub found :
      s.clients.find_by_client_id (trim_space input.client_id) w ≡ (ok (some client), looked)
  pub active : client.status ≡ "active"
  pub granted : In "urn:ietf:params:oauth:grant-type:device_code" client.grant_types
  pub chosen : Chosen input.scopes client.scopes (start_scopes input.scopes client)
  pub scopes : All (IsAllowed client.scopes) (start_scopes input.scopes client)
  pub entry : DeviceCodeEntry
  pub drawn : W
  pub saved : codes.save entry s.device_ttl (s.clock.now drawn).1 ≡ (ok tt, v)
  pub own : entry.client_id ≡ client.client_id
  pub pending : entry.status ≡ "pending"
  pub nobody : entry.user_id ≡ ""
  pub asked : entry.scopes_json ≡ s.json.marshal (start_scopes input.scopes client)
  pub expires : entry.expires_at ≡ (s.clock.now drawn).0 +ℤ s.device_ttl
  pub interval : entry.interval ≡ whole_seconds s.interval
  pub device_code : IsWord token_alphabet 32 entry.device_code
  pub user_code : IsUserCode entry.user_code
  pub same_device_code : a.device_code ≡ entry.device_code
  pub same_user_code : a.user_code ≡ entry.user_code
  pub same_expiry : a.expires_at ≡ entry.expires_at
  pub same_client : a.client_id ≡ entry.client_id

device_client-eq-some :
    (found : Option Client) (client : Client)
    → device_client found ≡ some client
    → (found ≡ some client)
      × (client.status ≡ "active")
      × (contains client.grant_types "urn:ietf:params:oauth:grant-type:device_code" ≡ true)
unfolding device_client
device_client-eq-some none client h = cc
device_client-eq-some (some c) client h = ground (arith, eq_iff c.status "active")

module _ {W : Type 0} (s : Service W) (fills : FillsBuffer s) where
  random_token-IsWord :
      (n : ℕ) (w v : W) (code : String)
      → random_token s n w ≡ (ok code, v)
      → IsWord token_alphabet n code
  unfolding random_token
  random_token-IsWord n w v code h =
      let (buf, w₁, drawn, h₁) = call-eq-ok _ _ h in
      subst (IsWord token_alphabet n) (pure-eq-ok h₁).0 (
        subst (λ k. IsWord token_alphabet k (spell token_alphabet 62 buf)) (fills n buf w w₁ drawn)
          (spell-IsWord token_alphabet 62 buf (omega arith) refl))

  random_user_code-IsUserCode :
      (w v : W) (code : String) → random_user_code s w ≡ (ok code, v) → IsUserCode code
  unfolding random_user_code
  random_user_code-IsUserCode w v code h =
      let (buf, w₁, drawn, h₁) = call-eq-ok _ _ h in
      subst IsUserCode (pure-eq-ok h₁).0 (user_code_of-IsUserCode buf (fills 8 buf w w₁ drawn))

  -- Where rand.Read fills its buffer: Start succeeds only for an active client that has the device
  -- grant, with scopes that the client is allowed. The entry that it saves is of that client, pending,
  -- of no user and with those scopes, expires when the device codes do, and has a device code of 32
  -- letters and digits and a user code of two groups of four characters of its alphabet with a dash in
  -- between; the answer has its codes, its expiry and its client.
  pub start-Started :
      (codes : DeviceCodes W) (input : StartInput) (w v : W) (a : StartResult)
      → start s codes input w ≡ (ok a, v)
      → Started s codes input w v a
  unfolding start save_pending new_entry
  start-Started codes input w v a h =
      let (found, w₁, looked, h₁) = call-eq-ok _ _ h in
      let (client, is_client, h₂) = require-eq-ok _ _ _ h₁ in
      let (same, active, granted) = device_client-eq-some found client is_client in
      let (allowed, h₃) = guard-eq-ok _ _ _ h₂ in
      let (device_code, w₂, token, h₄) = >>=-eq-ok _ _ h₃ in
      let (user_code, w₃, shown, h₅) = >>=-eq-ok _ _ h₄ in
      let h₆ = always-eq-ok _ _ h₅ in
      let (u, w₄, saved, h₇) = call-eq-ok _ _ h₆ in
      let (answer, end) = pure-eq-ok h₇ in
      record {
        client = client;
        looked = w₁;
        found = looked ∙ ap (λ o. (ok o, w₁)) same;
        active = active;
        granted = (contains_iff _ _).0 granted;
        chosen = start_scopes-Chosen input.scopes client;
        scopes = (all_contained_iff _ _).0 allowed;
        entry =
            new_entry s client (start_scopes input.scopes client) device_code user_code
              ((s.clock.now w₃).0 +ℤ s.device_ttl);
        drawn = w₃;
        saved = saved ∙ ap (λ x. (ok tt, x)) end;
        own = refl;
        pending = refl;
        nobody = refl;
        asked = refl;
        expires = refl;
        interval = refl;
        device_code = random_token-IsWord 32 _ _ device_code token;
        user_code = random_user_code-IsUserCode _ _ user_code shown;
        same_device_code = sym (ap (λ (x : StartResult). x.device_code) answer);
        same_user_code = sym (ap (λ (x : StartResult). x.user_code) answer);
        same_expiry = sym (ap (λ (x : StartResult). x.expires_at) answer);
        same_client = sym (ap (λ (x : StartResult). x.client_id) answer);
      }
