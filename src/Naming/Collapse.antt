-- ===== src/Naming/Collapse.antt =====
-- The loop of `Sanitize` in internal/naming/naming.go ends.
use cupel.Base.{
  ℕ, zero, suc, ◌≡◌, ◌≤◌, ◌<◌, ◌+◌, refl, Bool, true, false, List, [], ◌∷◌, ◌==◌, ◌||◌, length,
  arith,
}
use cupel.Naming.{has_double, halve, collapse}

-- The characters that the flag stands for.
abbrev waiting : Bool → ℕ
waiting true = 1
waiting false = 0

length-halve : (dash : Bool) (cs : List ℕ) → length (halve dash cs) ≤ waiting dash + length cs
unfolding halve
length-halve true [] = omega arith
length-halve false [] = omega arith
length-halve true (c ∷ cs) =
    elim (c == b'-')
      as (λ d.
        length (elim d [ true ↦ b'-' ∷ halve false cs | false ↦ b'-' ∷ c ∷ halve false cs ])
        ≤ 1 + suc (length cs)) [
          | true ↦ omega (arith, length-halve false cs)
          | false ↦ omega (arith, length-halve false cs)
        ]
length-halve false (c ∷ cs) =
    elim (c == b'-')
      as (λ d.
        length (elim d [ true ↦ halve true cs | false ↦ c ∷ halve false cs ])
        ≤ 0 + suc (length cs)) [
          | true ↦ omega (arith, length-halve true cs)
          | false ↦ omega (arith, length-halve false cs)
        ]

shorter-halve :
    (dash : Bool) (cs : List ℕ)
    → has_double dash cs ≡ true
    → length (halve dash cs) < waiting dash + length cs
unfolding halve has_double
shorter-halve dash [] = λ h. cc
shorter-halve true (c ∷ cs) =
    elim (c == b'-')
      as (λ d.
        (d || has_double d cs ≡ true)
        → length (elim d [ true ↦ b'-' ∷ halve false cs | false ↦ b'-' ∷ c ∷ halve false cs ])
          < 1 + suc (length cs)) [
            | true ↦ λ h. omega (arith, length-halve false cs)
            | false ↦ λ h. omega (arith, shorter-halve false cs h)
          ]
shorter-halve false (c ∷ cs) =
    elim (c == b'-')
      as (λ d.
        (has_double d cs ≡ true)
        → length (elim d [ true ↦ halve true cs | false ↦ c ∷ halve false cs ])
          < 0 + suc (length cs)) [
            | true ↦ λ h. omega (arith, shorter-halve true cs h)
            | false ↦ λ h. omega (arith, shorter-halve false cs h)
          ]

-- The loop ends without two dashes in a row as soon as the fuel is no less than the length.
pub has_double-collapse :
    (fuel : ℕ) (cs : List ℕ) → length cs ≤ fuel → has_double false (collapse fuel cs) ≡ false
unfolding collapse
has_double-collapse zero [] h = unfold has_double in refl
has_double-collapse zero (c ∷ cs) h = absurd (omega arith)
has_double-collapse (suc fuel) cs h = go (has_double false cs) refl (λ double.
    has_double-collapse fuel (halve false cs) (omega (arith, shorter-halve false cs double)))
  where
    go :
        (double : Bool)
        → has_double false cs ≡ double
        → (has_double false cs ≡ true → has_double false (collapse fuel (halve false cs)) ≡ false)
        → has_double false (elim double [ true ↦ collapse fuel (halve false cs) | false ↦ cs ])
          ≡ false
    go false e later = e
    go true e later = later e
