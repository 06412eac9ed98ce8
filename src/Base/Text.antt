-- ===== src/Base/Text.antt =====
-- Texts as lists of code points, single lines, and the space trimming of Go's `strings`.
use Prim.Native.Nat.{ℕ, ◌+◌}
use Prim.Native.Char.{code}
use Prim.Native.String.{String}
use mathlib.Core.Path.{◌≡◌, refl, ap₂}
use mathlib.Core.Bool.{Bool, true, false, ◌||◌, ◌&&◌}
use mathlib.Core.List.{List, [], ◌∷◌, map, reverse}
use native.Mathlib.Decide.{ℕ_discrete}
use text.Mathlib.Text.{◌==◌ as str_eq}
use text.Mathlib.TextEquality.{eq_iff, Char-path}
use mathlib.Core.Logic.{◌↔◌}
use mathlib.Core.Logic.{inl, inr}
use native.Mathlib.Omega.{arith}
use cupel.Base.Tests.{leb, ◌==◌, if◌then◌else◌, Bool-cases}

-- The code points of a text.
abbrev pub codes : String → List ℕ
codes String.[] = []
codes (String.◌∷◌ c s) = code c ∷ codes s

pub codes_injective : (s t : String) → codes s ≡ codes t → s ≡ t
codes_injective String.[] String.[] h = refl
codes_injective String.[] (String.◌∷◌ d t) h = cc
codes_injective (String.◌∷◌ c s) String.[] h = cc
codes_injective (String.◌∷◌ c s) (String.◌∷◌ d t) h =
    ap₂ String.◌∷◌ (Char-path c d (cc)) (codes_injective s t (cc))

pub codes_discrete : Discrete (List ℕ)
codes_discrete = hlevel ℕ_discrete

-- A decision from a Boolean test.
abbrev pub dec_of {ℓ} : {A : Type ℓ} (b : Bool) → ((b ≡ true) ↔ A) → Dec A
dec_of true holds = yes (holds.0 refl)
dec_of false fails = no (λ a. cc (fails.1 a))

unfoldable pub String_discrete : Discrete String
String_discrete s t = dec_of (str_eq s t) (eq_iff s t)

-- unicode.IsSpace: the white space of Latin-1, and of the rest of Unicode.
unfoldable pub is_space : ℕ → Bool
is_space c =
    (leb 9 c && leb c 13)
    || c == 32
    || c == 0x85
    || c == 0xA0
    || c == 0x1680
    || (leb 0x2000 c && leb c 0x200A)
    || c == 0x2028
    || c == 0x2029
    || c == 0x202F
    || c == 0x205F
    || c == 0x3000

trim_left : List ℕ → List ℕ
trim_left [] = []
trim_left (c ∷ cs) = let rest = trim_left cs in if is_space c then rest else c ∷ cs

-- strings.TrimSpace
unfoldable pub trim_space : String → List ℕ
unfolding trim_left is_space
trim_space s = reverse (trim_left (reverse (trim_left (codes s))))

-- strings.TrimSpace(s) == ""
unfoldable pub is_blank : String → Bool
unfolding is_space trim_space
is_blank s = elim (trim_space s) [ [] ↦ true | c ∷ cs ↦ false ]

unfoldable pub codes_eq : List ℕ → List ℕ → Bool
codes_eq [] [] = true
codes_eq [] (d ∷ ds) = false
codes_eq (c ∷ cs) [] = false
codes_eq (c ∷ cs) (d ∷ ds) = c == d && codes_eq cs ds

pub codes_eq_sound : (xs ys : List ℕ) → codes_eq xs ys ≡ true → xs ≡ ys
unfolding codes_eq
codes_eq_sound [] [] h = refl
codes_eq_sound [] (y ∷ ys) h = cc
codes_eq_sound (x ∷ xs) [] h = cc
codes_eq_sound (x ∷ xs) (y ∷ ys) h = elim (Bool-cases (x == y)) [
  | inl same ↦
      let first : x ≡ y = ground arith in let rest = codes_eq_sound xs ys (rw same at h) in cc
  | inr other ↦ cc (rw other at h)
]

pub codes_eq_refl : (xs : List ℕ) → codes_eq xs xs ≡ true
unfolding codes_eq
codes_eq_refl [] = refl
codes_eq_refl (x ∷ xs) = let same : (x == x) ≡ true = ground arith in rw same (codes_eq_refl xs)

-- unicode.ToLower, as far as its result is ASCII: the Kelvin sign and the dotted capital I have
-- ASCII lower cases, and any other code point above ASCII keeps out of it.
unfoldable pub to_lower : ℕ → ℕ
to_lower c =
    if leb b'A' c && leb c b'Z'
    then c + 32
    else if c == 0x130
    then b'i'
    else if c == 0x212A
    then b'k'
    else c

-- Simple case folding of ASCII and of the two code points that fold into it.
fold : ℕ → ℕ
fold c =
    if leb b'A' c && leb c b'Z'
    then c + 32
    else if c == 0x17F
    then b's'
    else if c == 0x212A
    then b'k'
    else c

-- strings.EqualFold; letters above ASCII are compared as they stand.
unfoldable pub equal_fold : String → String → Bool
unfolding fold codes_eq
equal_fold s t = codes_eq (map fold (codes s)) (map fold (codes t))

starts_with_codes : List ℕ → List ℕ → Bool
starts_with_codes cs [] = true
starts_with_codes [] (d ∷ ds) = false
starts_with_codes (c ∷ cs) (d ∷ ds) = c == d && starts_with_codes cs ds

-- strings.HasPrefix(strings.ToLower(s), prefix), for an ASCII prefix.
unfoldable pub has_lower_prefix : String → String → Bool
unfolding to_lower starts_with_codes
has_lower_prefix s prefix = starts_with_codes (map to_lower (codes s)) (codes prefix)

-- A map of texts as the list of its entries; a missing key reads as the empty text.
unfoldable pub value_of : List (String × String) → String → String
value_of [] k = ""
value_of ((j, v) ∷ m) k = if str_eq j k then v else value_of m k

trim_test : is_blank "  \n" ≡ true
unfolding is_blank
trim_test = refl
