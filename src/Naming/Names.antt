-- ===== src/Naming/Names.antt =====
-- The names that internal/naming/naming.go and internal/controller/names.go derive for reports, scans and
-- jobs, the current ones and those of older versions.
use cupel.Base.{
  ℕ, ◌≤◌, ◌≡◌, List, [], ◌∷◌, ◌++◌, if◌then◌else◌, leb, length, take, codes, codes_eq, arith,
  Bool-cases, inl, inr, length-append,
}
use cupel.Naming.{trim_left, trim_right, sanitize, join, stable}
use cupel.Naming.Bounds.{length-trim_left, length-trim_right, length-take, length-stable}

-- `truncate`, to 63 characters.
unfoldable pub truncate : List ℕ → List ℕ
truncate value = if leb (length value) 63 then value else trim_right (trim_left (take 63 value))

unfoldable pub sanitize_label : List ℕ → List ℕ
unfolding truncate
sanitize_label value = truncate (sanitize value)

-- `LegacyStable`: the fingerprint is there only if the readable name is too long.
unfoldable pub legacy_stable : (List (List ℕ) → List ℕ) → List ℕ → List (List ℕ) → List ℕ
legacy_stable fingerprint prefix parts =
    let readable = sanitize (prefix ++ b'-' ∷ join parts) in
    if leb (length readable) 63
    then readable
    else trim_right (take 52 readable) ++ b'-' ∷ fingerprint parts

module _ (fingerprint : List (List ℕ) → List ℕ) where
  unfoldable pub model_report : List ℕ → List ℕ → List ℕ
  model_report model version = stable fingerprint (codes "msr") (model ∷ version ∷ [])

  unfoldable pub legacy_model_report : List ℕ → List ℕ → List ℕ
  legacy_model_report model version = legacy_stable fingerprint (codes "msr") (model ∷ version ∷ [])

  unfoldable pub scan_name : List ℕ → List ℕ → List ℕ → List ℕ
  scan_name model version artifact_id =
      stable fingerprint (codes "scan") (model ∷ version ∷ artifact_id ∷ [])

  unfoldable pub scan_job_name : List ℕ → List ℕ → List ℕ
  scan_job_name scan scanner = stable fingerprint [] (scan ∷ scanner ∷ [])

  unfoldable pub current_and_legacy : List ℕ → List ℕ → List (List ℕ)
  current_and_legacy current legacy =
      if codes_eq legacy current then current ∷ [] else current ∷ legacy ∷ []

  -- `ModelReportNames`
  unfoldable pub model_report_names : List ℕ → List ℕ → List (List ℕ)
  unfolding current_and_legacy
  model_report_names model version =
      current_and_legacy (model_report model version) (legacy_model_report model version)

  unfoldable pub scan_job_names : List ℕ → List ℕ → List (List ℕ)
  unfolding current_and_legacy
  scan_job_names scan scanner =
      current_and_legacy (scan_job_name scan scanner)
        (legacy_stable fingerprint [] (scan ∷ scanner ∷ []))

length-truncate : (value : List ℕ) → length (truncate value) ≤ 63
unfolding truncate
length-truncate value = elim (Bool-cases (leb (length value) 63)) [
  | inl short ↦ rw short (ground arith)
  | inr long ↦ rw long (
      omega (
        arith,
        length-trim_right (trim_left (take 63 value)),
        length-trim_left (take 63 value),
        length-take 63 value,
      ))
]

length-legacy_stable :
    (fingerprint : List (List ℕ) → List ℕ) (prefix : List ℕ) (parts : List (List ℕ))
    → length (fingerprint parts) ≡ 10
    → length (legacy_stable fingerprint prefix parts) ≤ 63
unfolding legacy_stable
length-legacy_stable fingerprint prefix parts ten =
    let readable = sanitize (prefix ++ b'-' ∷ join parts) in
    elim (Bool-cases (leb (length readable) 63)) [
      | inl short ↦ rw short (ground arith)
      | inr long ↦ rw long (
          omega (
            arith,
            ten,
            length-append (trim_right (take 52 readable)) (b'-' ∷ fingerprint parts),
            length-trim_right (take 52 readable),
            length-take 52 readable,
          ))
    ]

-- If the fingerprint has 10 characters, a name of `Stable`, a name of `LegacyStable` and a label each have
-- at most 63, whatever they are made from.
pub names_fit :
    (fingerprint : List (List ℕ) → List ℕ) (prefix label : List ℕ) (parts : List (List ℕ))
    → length (fingerprint parts) ≡ 10
    → (length (stable fingerprint prefix parts) ≤ 63)
      × (length (legacy_stable fingerprint prefix parts) ≤ 63)
      × (length (sanitize_label label) ≤ 63)
unfolding sanitize_label
names_fit fingerprint prefix label parts ten = (
  length-stable fingerprint prefix parts ten,
  length-legacy_stable fingerprint prefix parts ten,
  length-truncate (sanitize label),
)
