-- ===== src/Naming/Tests.antt =====
-- Names of concrete models: the theorems applied, and tests by evaluation.
use cupel.Base.{ℕ, ◌≡◌, ◌≤◌, refl, List, [], ◌∷◌, length, codes, to_lower}
use cupel.Naming.{
  is_name_char, replace_invalid, has_double, halve, collapse, trim_left, trim_right, sanitize, join,
  stable,
}
use cupel.Naming.Bounds.{stable-fingerprint}
use cupel.Naming.Names.{legacy_stable, legacy_model_report, sanitize_label, names_fit}

sanitized : sanitize (codes "--Fraud__v1.-.2!") ≡ codes "fraud-v1-2"
unfolding sanitize replace_invalid is_name_char has_double halve collapse trim_left trim_right
    to_lower
sanitized = refl

-- A fingerprint of ten characters, the number of parts among them.
abbrev fingerprint : List (List ℕ) → List ℕ
fingerprint parts = length parts ∷ codes "abcdefghi"

abbrev parts : List (List ℕ)
parts = codes "fraud" ∷ codes "3" ∷ []

names_fit_example :
    (length (stable fingerprint (codes "msr") parts) ≤ 63)
    × (length (legacy_stable fingerprint (codes "msr") parts) ≤ 63)
    × (length (sanitize_label (codes "Fraud/v3")) ≤ 63)
names_fit_example = names_fit fingerprint (codes "msr") (codes "Fraud/v3") parts refl

legacy_test : legacy_model_report fingerprint (codes "fraud") (codes "3") ≡ codes "msr-fraud-3"
unfolding legacy_model_report legacy_stable sanitize join replace_invalid is_name_char has_double
    halve collapse trim_left trim_right to_lower
legacy_test = refl

-- Other parts, with the same readable name.
abbrev capitals : List (List ℕ)
capitals = codes "Fraud" ∷ codes "3" ∷ []

stable-fingerprint_example : fingerprint parts ≡ fingerprint capitals
unfolding stable sanitize join replace_invalid is_name_char has_double halve collapse trim_left
    trim_right to_lower
stable-fingerprint_example =
    stable-fingerprint fingerprint (codes "msr") (codes "MSR") parts capitals refl refl refl
