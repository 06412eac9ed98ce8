-- ===== src/Audit/Decimal.antt =====
-- strconv.FormatUint(n, 10), which writes the sequence number of a record.
use cupel.Base.{
  ℕ, zero, suc, ◌+◌, ◌-◌, ◌*◌, ◌/◌, ◌%◌, ◌<◌, ◌≡◌, ◌≢◌, refl, List, [], ◌∷◌, ◌++◌, arith, ltb,
  if◌then◌else◌, All, All-append, codes, Bool-cases, inl, inr, ap, ◌∙◌, sym,
}

-- The digits of `n`, with fuel for the number of digits.
digits : ℕ → ℕ → List ℕ
digits zero n = []
digits (suc fuel) n =
    let front = digits fuel (n / 10) in
    if ltb n 10 then (48 + n) ∷ [] else front ++ (48 + n % 10) ∷ []

-- A number has fewer digits than its value plus one.
unfoldable pub format_uint : ℕ → List ℕ
unfolding digits
format_uint n = digits (suc n) n

value_from : ℕ → List ℕ → ℕ
value_from acc [] = acc
value_from acc (c ∷ cs) = value_from (acc * 10 + (c - 48)) cs

value_from-append :
    (acc : ℕ) (xs : List ℕ) (c : ℕ)
    → value_from acc (xs ++ c ∷ []) ≡ value_from acc xs * 10 + (c - 48)
unfolding value_from
value_from-append acc [] c = refl
value_from-append acc (x ∷ xs) c = value_from-append (acc * 10 + (x - 48)) xs c

value_from-digits : (fuel n : ℕ) → n < fuel → value_from 0 (digits fuel n) ≡ n
unfolding digits value_from
value_from-digits zero n h = elim h [ ]
value_from-digits (suc fuel) n h = elim (Bool-cases (ltb n 10)) [
  | inl small ↦ rw small (omega arith)
  | inr big ↦ rw big (
      omega (
        arith,
        value_from-append 0 (digits fuel (n / 10)) (48 + n % 10),
        value_from-digits fuel (n / 10) (ground arith),
      ))
]

-- Two numbers with the same decimal text are equal.
pub format_uint-injective : (m n : ℕ) → format_uint m ≡ format_uint n → m ≡ n
unfolding format_uint
format_uint-injective m n h =
    sym (value_from-digits (suc m) m (omega arith))
    ∙ ap (value_from 0) h
    ∙ value_from-digits (suc n) n (omega arith)

digits_one_line : (fuel n : ℕ) → All (λ c. c ≢ 10) (digits fuel n)
unfolding digits
digits_one_line zero n = tt
digits_one_line (suc fuel) n = elim (Bool-cases (ltb n 10)) [
  | inl small ↦ rw small (omega arith, tt)
  | inr big ↦
      rw big
        (All-append _ (digits fuel (n / 10)) _ (digits_one_line fuel (n / 10)) (omega arith, tt))
]

pub format_uint_one_line : (n : ℕ) → All (λ c. c ≢ 10) (format_uint n)
unfolding format_uint
format_uint_one_line n = digits_one_line (suc n) n

format_test : format_uint 1205 ≡ codes "1205"
unfolding format_uint
format_test = refl
