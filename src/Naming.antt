-- ===== src/Naming.antt =====
-- internal/naming/naming.go: the names of objects that are made from the names of models. A text is
-- the list of its characters; a sanitized one is ASCII, so that it is cut at a character as at a byte.
-- The fingerprint of the parts is a parameter.
pub mod Collapse
pub mod Bounds
pub mod Names
mod Tests
use cupel.Base.{
  ℕ, zero, suc, Bool, true, false, ◌&&◌, ◌||◌, List, [], ◌∷◌, ◌++◌, String, if◌then◌else◌, leb,
  ◌==◌, length, take, map, codes, to_lower,
}
use mathlib.Core.List.{reverse}

-- [a-z0-9-]
pub is_name_char : ℕ → Bool
is_name_char c = (leb b'a' c && leb c b'z') || (leb b'0' c && leb c b'9') || c == b'-'

-- `invalidChars.ReplaceAllString(_, "-")`; the flag says that the run was begun before.
pub replace_invalid : Bool → List ℕ → List ℕ
replace_invalid begun [] = []
replace_invalid begun (c ∷ cs) = elim (is_name_char c) [
  | true ↦ c ∷ replace_invalid false cs
  | false ↦ elim begun [ true ↦ replace_invalid true cs | false ↦ b'-' ∷ replace_invalid true cs ]
]

-- `strings.Contains(_, "--")`; the flag says that a dash comes before.
pub has_double : Bool → List ℕ → Bool
has_double dash [] = false
has_double dash (c ∷ cs) = (dash && c == b'-') || has_double (c == b'-') cs

-- `strings.ReplaceAll(_, "--", "-")`; the flag says that a first dash waits for a second.
pub halve : Bool → List ℕ → List ℕ
halve true [] = b'-' ∷ []
halve false [] = []
halve true (c ∷ cs) = elim (c == b'-') [
  | true ↦ b'-' ∷ halve false cs
  | false ↦ b'-' ∷ c ∷ halve false cs
]
halve false (c ∷ cs) = elim (c == b'-') [ true ↦ halve true cs | false ↦ c ∷ halve false cs ]

-- The loop that replaces as long as there are two dashes in a row.
pub collapse : ℕ → List ℕ → List ℕ
collapse zero cs = cs
collapse (suc fuel) cs = elim (has_double false cs) [
  | true ↦ collapse fuel (halve false cs)
  | false ↦ cs
]

pub trim_left : List ℕ → List ℕ
trim_left [] = []
trim_left (c ∷ cs) = let rest = trim_left cs in if c == b'-' then rest else c ∷ cs

pub trim_right : List ℕ → List ℕ
trim_right cs = reverse (trim_left (reverse cs))

or_unnamed : List ℕ → List ℕ
or_unnamed [] = codes "unnamed"
or_unnamed (c ∷ cs) = c ∷ cs

pub sanitize : List ℕ → List ℕ
unfolding or_unnamed
sanitize value =
    let replaced = replace_invalid false (map to_lower value) in
    or_unnamed (trim_right (trim_left (collapse (length replaced) replaced)))

pub join : List (List ℕ) → List ℕ
join [] = []
join (p ∷ []) = p
join (p ∷ q ∷ ps) = p ++ b'-' ∷ join (q ∷ ps)

with_suffix : List ℕ → List ℕ → List ℕ
with_suffix [] suffix = suffix
with_suffix (c ∷ cs) suffix = (c ∷ cs) ++ b'-' ∷ suffix

-- `Stable`, with the budget of 63 - 10 - 1 characters.
pub stable : (List (List ℕ) → List ℕ) → List ℕ → List (List ℕ) → List ℕ
unfolding with_suffix
stable fingerprint prefix parts =
    with_suffix (trim_right (take 52 (sanitize (prefix ++ b'-' ∷ join parts)))) (fingerprint parts)
