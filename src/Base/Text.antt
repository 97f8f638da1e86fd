-- ===== src/Base/Text.antt =====
-- The functions of Go's package strings that the source calls, on texts as lists of code points.
-- Case mapping covers the ASCII letters and the four other code points whose lower or upper case
-- is an ASCII letter; other code points are left as they are.
use Prim.Native.Nat.{ℕ, suc, ◌+◌}
use Prim.Native.Char.{Char, code}
use Prim.Native.String
use Prim.Native.String.{String}
use mathlib.Core.Bool.{Bool, true, false, ◌&&◌, ◌||◌}
use mathlib.Core.List.{List, [], ◌∷◌}
use mathlib.Core.Logic.{inl, inr}
use mathlib.Core.Path.{◌≡◌, refl, ap, ◌∙◌}
use native.Mathlib.Omega.{arith}
use sienne.Base.Tests.{leb, nat_eq, if◌then◌else◌, Bool-cases}

-- unicode.IsSpace
abbrev between : ℕ → ℕ → ℕ → Bool
between lo hi n = leb lo n && leb n hi

is_space_code : ℕ → Bool
is_space_code n =
    between 9 13 n
    || nat_eq n 32
    || nat_eq n 0x85
    || nat_eq n 0xA0
    || nat_eq n 0x1680
    || between 0x2000 0x200A n
    || nat_eq n 0x2028
    || nat_eq n 0x2029
    || nat_eq n 0x202F
    || nat_eq n 0x205F
    || nat_eq n 0x3000

is_space : Char → Bool
unfolding is_space_code
is_space c = is_space_code (code c)

abbrev pub is_blank : String → Bool
is_blank String.[] = true
is_blank (String.◌∷◌ _ _) = false

trim_left : String → String
trim_left String.[] = String.[]
trim_left (String.◌∷◌ c s) = if is_space c then trim_left s else String.◌∷◌ c s

trim_right : String → String
trim_right String.[] = String.[]
trim_right (String.◌∷◌ c s) =
    let r = trim_right s in if is_blank r && is_space c then String.[] else String.◌∷◌ c r

-- strings.TrimSpace
unfoldable pub trim_space : String → String
unfolding trim_left trim_right is_space
trim_space s = trim_right (trim_left s)

-- strings.Fields: the word that the text begins with, which may be blank, and the words after it.
unfoldable pub words : String → String × List String
unfolding is_space
words String.[] = ("", [])
words (String.◌∷◌ c s) =
    let (word, rest) = words s in
    let all = if is_blank word then rest else word ∷ rest in
    if is_space c then ("", all) else (String.◌∷◌ c word, rest)

unfoldable pub fields : String → List String
unfolding words
fields s = let (word, rest) = words s in if is_blank word then rest else word ∷ rest

-- The character of the second text at the place where the first has `c`.
translate : String → String → Char → Char
translate (String.◌∷◌ a from) (String.◌∷◌ b to) c =
    if nat_eq (code a) (code c) then b else translate from to c
translate _ _ c = c

map_chars : (Char → Char) → String → String
map_chars f String.[] = String.[]
map_chars f (String.◌∷◌ c s) = String.◌∷◌ (f c) (map_chars f s)

-- strings.ToLower; U+0130 and U+212A have the lower cases i and k.
unfoldable pub to_lower : String → String
unfolding translate map_chars
to_lower = map_chars (translate "ABCDEFGHIJKLMNOPQRSTUVWXYZİK" "abcdefghijklmnopqrstuvwxyzik")

-- strings.ToUpper; U+0131 and U+017F have the upper cases I and S.
unfoldable pub to_upper : String → String
unfolding translate map_chars
to_upper = map_chars (translate "abcdefghijklmnopqrstuvwxyzıſ" "ABCDEFGHIJKLMNOPQRSTUVWXYZIS")

-- len of a text: the bytes of its UTF-8 form.
char_bytes : ℕ → ℕ
char_bytes n = if leb n 0x7F then 1 else if leb n 0x7FF then 2 else if leb n 0xFFFF then 3 else 4

unfoldable pub byte_length : String → ℕ
unfolding char_bytes
byte_length String.[] = 0
byte_length (String.◌∷◌ c s) = char_bytes (code c) + byte_length s

-- The number of code points.
abbrev pub characters : String → ℕ
characters String.[] = 0
characters (String.◌∷◌ c s) = suc (characters s)

abbrev pub AllChars : (Char → Type 0) → String → Type 0
AllChars P String.[] = Unit
AllChars P (String.◌∷◌ c s) = P c × AllChars P s

-- strings.Join
unfoldable pub join : String → List String → String
join sep [] = String.[]
join sep (x ∷ []) = x
join sep (x ∷ y ∷ rest) = String.◌++◌ x (String.◌++◌ sep (join sep (y ∷ rest)))

trim_right_idem : (s : String) → trim_right (trim_right s) ≡ trim_right s
unfolding trim_right
trim_right_idem String.[] = refl
trim_right_idem (String.◌∷◌ c s) = elim (Bool-cases (is_blank (trim_right s) && is_space c)) [
  | inl drop ↦ rw drop
  | inr keep ↦ rw keep (rw (trim_right_idem s, keep))
]

trim_left-trim_right :
    (s : String) → trim_left (trim_right (trim_left s)) ≡ trim_right (trim_left s)
unfolding trim_left trim_right
trim_left-trim_right String.[] = refl
trim_left-trim_right (String.◌∷◌ c s) = elim (Bool-cases (is_space c)) [
  | inl space ↦ rw (space, trim_left) (trim_left-trim_right s)
  | inr other ↦ ground arith
]

-- Trimming twice is trimming once.
pub trim_space_idem : (s : String) → trim_space (trim_space s) ≡ trim_space s
unfolding trim_space
trim_space_idem s = ap trim_right (trim_left-trim_right s) ∙ trim_right_idem (trim_left s)
