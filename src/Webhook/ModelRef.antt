-- ===== src/Webhook/ModelRef.antt =====
-- internal/webhook/modelref.go, and the reference that internal/webhook/discover.go builds from
-- evidence. What is read out of the workload's nested fields (the storage URI of an
-- InferenceService, and the evidence found in a pod specification) are fields of `Workload`.
use Prim.Native.Char.{code}
use cupel.Base.{
  ◌≡◌, refl, arith, ℕ, Bool, not, ◌&&◌, Option, none, some, List, [], ◌∷◌, String, if◌then◌else◌,
  ◌==◌, str_eq, any, has_lower_prefix, value_of,
}

pub record ModelRef : Type 0 where
  pub model : String
  pub version : String
  pub digest : String
  pub storage_uri : String
  pub environment : String

abbrev pub empty_ref : ModelRef
empty_ref = record { model = ""; version = ""; digest = ""; storage_uri = ""; environment = "" }

pub record Evidence : Type 0 where
  pub kind : String
  pub detail : String
  pub uri : String

pub record Workload : Type 0 where
  pub kind : String
  pub name : String
  pub annotations : List (String × String)
  pub labels : List (String × String)
  pub predictor_uri : String
  pub evidence : List Evidence

abbrev pub annotation_model : String
annotation_model = "security.davano.io/model"

abbrev pub annotation_version : String
annotation_version = "security.davano.io/model-version"

abbrev pub annotation_environment : String
annotation_environment = "security.davano.io/environment"

-- The text after the last occurrence of a character.
after_last : ℕ → String → Option String
after_last d String.[] = none
after_last d (String.◌∷◌ c s) = elim (after_last d s) [
  | some t ↦ some t
  | none ↦ if code c == d then some s else none
]

-- The text after the first `://`.
after_scheme : String → Option String
after_scheme String.[] = none
after_scheme (String.◌∷◌ c s) =
    let rest = after_scheme s in
    if code c == b':'
    then (elim s [
      | String.[] ↦ rest
      | String.◌∷◌ d t ↦ elim t [
        | String.[] ↦ rest
        | String.◌∷◌ e u ↦ if code d == b'/' && code e == b'/' then some u else rest
      ]
    ])
    else rest

-- The text before the first occurrence of a character.
before_first : ℕ → String → String
before_first d String.[] = ""
before_first d (String.◌∷◌ c s) =
    let rest = before_first d s in if code c == d then "" else String.◌∷◌ c rest

-- strings.TrimSuffix, of one character.
trim_suffix : ℕ → String → String
trim_suffix d String.[] = ""
trim_suffix d (String.◌∷◌ c s) =
    let rest = trim_suffix d s in
    if code c == d
    then (elim s [ String.[] ↦ "" | String.◌∷◌ _ _ ↦ String.◌∷◌ c rest ])
    else String.◌∷◌ c rest

-- strings.Split: the first part, and the parts after it.
split : ℕ → String → String × List String
split d String.[] = ("", [])
split d (String.◌∷◌ c s) =
    let (first, rest) = split d s in
    if code c == d then ("", first ∷ rest) else (String.◌∷◌ c first, rest)

-- The last two of the parts; one part alone is a model without a version.
last_two : String → List String → String × String
last_two first [] = (first, "")
last_two first (second ∷ []) = (first, second)
last_two first (second ∷ third ∷ rest) = last_two second (third ∷ rest)

or_else : Option String → String → String
or_else none d = d
or_else (some s) d = s

unfoldable pub model_from_storage_uri : String → String × String
unfolding after_scheme before_first trim_suffix split last_two or_else
model_from_storage_uri uri =
    let trimmed = trim_suffix b'/' (before_first b'@' (or_else (after_scheme uri) uri)) in
    let (first, rest) = split b'/' trimmed in last_two first rest

unfoldable pub digest_from_uri : String → String
unfolding after_last or_else
digest_from_uri uri = or_else (after_last b'@' uri) ""

-- The reference that the annotations state.
declared_ref : Workload → ModelRef
declared_ref obj = record {
  model = value_of obj.annotations annotation_model;
  version = value_of obj.annotations annotation_version;
  digest = "";
  storage_uri = "";
  environment = value_of obj.annotations annotation_environment;
}

-- The part of `extractModelRef` for an InferenceService that states a storage URI.
from_predictor : String → ModelRef → ModelRef
from_predictor uri ref =
    if str_eq uri ""
    then ref
    else let located = record ref { storage_uri = uri; digest = digest_from_uri uri } in
      if str_eq ref.model ""
      then record located {
        model = (model_from_storage_uri uri).0;
        version = (model_from_storage_uri uri).1;
      }
      else located

unfoldable pub extract_model_ref : Workload → ModelRef
unfolding declared_ref from_predictor
extract_model_ref obj =
    let declared = declared_ref obj in
    let ref =
      if str_eq obj.kind "InferenceService"
      then from_predictor obj.predictor_uri declared
      else declared in
    if str_eq ref.environment ""
    then record ref { environment = value_of obj.labels annotation_environment }
    else ref

abbrev storage_schemes : List String
storage_schemes =
    "s3://" ∷ "gs://" ∷ "oci://" ∷ "http://" ∷ "https://" ∷ "pvc://" ∷ "hdfs://" ∷ "abfss://"
    ∷ "azure://" ∷ "mlflow-artifacts:/" ∷ "models:/" ∷ []

unfoldable pub is_storage_uri : String → Bool
is_storage_uri uri = any (has_lower_prefix uri) storage_schemes

unfoldable pub ref_from_evidence : List Evidence → ModelRef
ref_from_evidence [] = empty_ref
ref_from_evidence (e ∷ es) =
    let rest = ref_from_evidence es in
    let (model, version) = model_from_storage_uri e.uri in
    if is_storage_uri e.uri && not (str_eq model "")
    then record {
      model = model;
      version = version;
      digest = digest_from_uri e.uri;
      storage_uri = e.uri;
      environment = "";
    }
    else rest

uri_test : model_from_storage_uri "oci://reg/models/fraud/3@sha256:ab" ≡ ("fraud", "3")
unfolding model_from_storage_uri
uri_test = refl

uri_slash_test : model_from_storage_uri "s3://bucket/fraud/7/" ≡ ("fraud", "7")
unfolding model_from_storage_uri
uri_slash_test = refl

digest_test : digest_from_uri "oci://reg/m@sha256:ab" ≡ "sha256:ab"
unfolding digest_from_uri
digest_test = refl

-- A reference built from evidence names a model, or is empty; it never names an environment.
pub ref_from_evidence_environment : (es : List Evidence) → (ref_from_evidence es).environment ≡ ""
unfolding ref_from_evidence
ref_from_evidence_environment [] = refl
ref_from_evidence_environment (e ∷ es) = ground (arith, ref_from_evidence_environment es)
