-- ===== src/Policy/Scoped.antt =====
-- The exceptions that internal/policy/exceptions.go lets through to the gate.
use cupel.Base.{
  ◌≡◌, ◌≢◌, ◌↔◌, ◌⊎◌, true, ◌||◌, List, [], ◌∷◌, String, str_eq, eq_iff, select, arith, Bool-cases,
  inl, inr,
}
use cupel.Api.{ExceptionSpec}
use cupel.Policy.{applies_to, exceptions_for}

abbrev pub IsAmong : ExceptionSpec → List ExceptionSpec → Type 0
IsAmong e [] = ⊥
IsAmong e (x ∷ xs) = (e ≡ x) ⊎ IsAmong e xs

select_sound :
    (model version : String) (e : ExceptionSpec) (es : List ExceptionSpec)
    → IsAmong e (select (applies_to model version) es)
    → IsAmong e es × (e.model_name ≡ model) × (e.model_version ≡ version)
select_sound model version e [] m = absurd m
select_sound model version e (x ∷ xs) m = elim (Bool-cases (applies_to model version x)) [
  | inr other ↦
      let (there, a, b) = select_sound model version e xs (rw other at m) in (inr there, a, b)
  | inl applies ↦
      let names : (x.model_name ≡ model) × (x.model_version ≡ version) =
        ground (arith, eq_iff x.model_name model, eq_iff x.model_version version) in
      elim (rw applies at m) [
        | inl here ↦ (inl here, rw here names.0, rw here names.1)
        | inr later ↦ let (there, a, b) = select_sound model version e xs later in (inr there, a, b)
      ]
]

select_complete :
    (model version : String) (e : ExceptionSpec) (es : List ExceptionSpec)
    → IsAmong e es
    → e.model_name ≡ model
    → e.model_version ≡ version
    → IsAmong e (select (applies_to model version) es)
select_complete model version e [] m a b = absurd m
select_complete model version e (x ∷ xs) (inl here) a b =
    let applies : applies_to model version x ≡ true =
      rw (← here)
        (ground (arith, a, b, eq_iff e.model_name model, eq_iff e.model_version version)) in
    rw applies (inl here)
select_complete model version e (x ∷ xs) (inr there) a b =
    elim (Bool-cases (applies_to model version x)) [
      | inl applies ↦ rw applies (inr (select_complete model version e xs there a b))
      | inr other ↦ rw other (select_complete model version e xs there a b)
    ]

-- An exception reaches the gate exactly when it is among those of the namespace and names the model and
-- the version, neither of which is empty.
pub exceptions_for-iff-named :
    (es : List ExceptionSpec) (model version : String) (e : ExceptionSpec)
    → IsAmong e (exceptions_for es model version) ↔ (
        IsAmong e es
        × (e.model_name ≡ model)
        × (e.model_version ≡ version)
        × (model ≢ "")
        × (version ≢ ""))
unfolding exceptions_for
exceptions_for-iff-named es model version e =
    elim (Bool-cases (str_eq model "" || str_eq version "")) [
      | inl blank ↦ rw blank (
        λ m. absurd m,
        λ h. absurd (ground (arith, blank, h.3, h.4, eq_iff model "", eq_iff version "")),
      )
      | inr named ↦
          let filled : (model ≢ "") × (version ≢ "") =
            ground (arith, named, eq_iff model "", eq_iff version "") in
          rw named (
            λ m.
                let (there, a, b) = select_sound model version e es m in
                (there, a, b, filled.0, filled.1),
            λ h. select_complete model version e es h.0 h.1 h.2,
          )
    ]
