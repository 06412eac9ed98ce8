-- ===== src/Audit/Escape.antt =====
-- `escape` of internal/audit/chain.go, and what makes a text with delimiters unambiguous.
use cupel.Base.{
  ℕ, ◌≡◌, ◌≢◌, refl, sym, List, [], ◌∷◌, ◌++◌, arith, ◌==◌, String, if◌then◌else◌, All, All-append,
  codes, codes_injective,
}

-- The replacements of one code point: `\` `\n` `:` `;` `=`.
escape_code : ℕ → List ℕ
escape_code c =
    if c == 92
    then 92 ∷ 92 ∷ []
    else if c == 10
    then 92 ∷ 110 ∷ []
    else if c == 58
    then 92 ∷ 99 ∷ []
    else if c == 59
    then 92 ∷ 115 ∷ []
    else if c == 61
    then 92 ∷ 101 ∷ []
    else c ∷ []

escape_codes : List ℕ → List ℕ
unfolding escape_code
escape_codes [] = []
escape_codes (c ∷ cs) = escape_code c ++ escape_codes cs

unfoldable pub escape : String → List ℕ
unfolding escape_codes
escape s = escape_codes (codes s)

escape_code-cancel :
    (c d : ℕ) (x y : List ℕ) → escape_code c ++ x ≡ escape_code d ++ y → (c ≡ d) × (x ≡ y)
unfolding escape_code
escape_code-cancel c d x y h = ground arith

escape_code-ne-nil : (c : ℕ) (x : List ℕ) → escape_code c ++ x ≢ []
unfolding escape_code
escape_code-ne-nil c x h = ground arith

escape_codes-injective : (s t : List ℕ) → escape_codes s ≡ escape_codes t → s ≡ t
unfolding escape_codes
escape_codes-injective [] [] h = refl
escape_codes-injective [] (d ∷ t) h = absurd (escape_code-ne-nil d (escape_codes t) (sym h))
escape_codes-injective (c ∷ s) [] h = absurd (escape_code-ne-nil c (escape_codes s) h)
escape_codes-injective (c ∷ s) (d ∷ t) h =
    let p = escape_code-cancel c d _ _ h in cc (p.0, escape_codes-injective s t p.1)

-- Different texts stay different when they are escaped.
pub escape-injective : (s t : String) → escape s ≡ escape t → s ≡ t
unfolding escape
escape-injective s t h = codes_injective s t (escape_codes-injective (codes s) (codes t) h)

-- The delimiters of the canonical form: line end, `:`, `;` and `=`.
pub data IsDelimiter (d : ℕ) : Type 0 where
  newline : d ≡ 10 → IsDelimiter d
  colon : d ≡ 58 → IsDelimiter d
  semicolon : d ≡ 59 → IsDelimiter d
  equals : d ≡ 61 → IsDelimiter d

abbrev pub Free : ℕ → List ℕ → Type 0
Free d = All (λ c. c ≢ d)

escape_code-Free : (d c : ℕ) → IsDelimiter d → Free d (escape_code c)
unfolding escape_code
escape_code-Free d c (newline e) = ground arith
escape_code-Free d c (colon e) = ground arith
escape_code-Free d c (semicolon e) = ground arith
escape_code-Free d c (equals e) = ground arith

escape_codes-Free : (d : ℕ) (s : List ℕ) → IsDelimiter d → Free d (escape_codes s)
unfolding escape_codes
escape_codes-Free d [] p = tt
escape_codes-Free d (c ∷ s) p =
    All-append _ (escape_code c) _ (escape_code-Free d c p) (escape_codes-Free d s p)

-- An escaped text holds no delimiter.
pub escape-Free : (d : ℕ) (s : String) → IsDelimiter d → Free d (escape s)
unfolding escape
escape-Free d s p = escape_codes-Free d (codes s) p

-- A text is cut in one way at the first delimiter.
pub cut_first :
    (d : ℕ) (a b x y : List ℕ) → Free d a → Free d b → a ++ d ∷ x ≡ b ++ d ∷ y → (a ≡ b) × (x ≡ y)
cut_first d [] [] x y fa fb h = (refl, cc)
cut_first d [] (c ∷ b) x y fa fb h = absurd (fb.0 (cc))
cut_first d (c ∷ a) [] x y fa fb h = absurd (fa.0 (cc))
cut_first d (c ∷ a) (c' ∷ b) x y fa fb h =
    let p = cut_first d a b x y fa.1 fb.1 (cc) in (cc p.0, p.1)

not-Free : (d : ℕ) (x a : List ℕ) → Free d (x ++ d ∷ a) → ⊥
not-Free d [] a f = f.0 refl
not-Free d (c ∷ x) a f = not-Free d x a f.1

-- A text is cut in one way at the last delimiter.
pub cut_last :
    (d : ℕ) (x y a b : List ℕ) → Free d a → Free d b → x ++ d ∷ a ≡ y ++ d ∷ b → (x ≡ y) × (a ≡ b)
cut_last d [] [] a b fa fb h = (refl, cc)
cut_last d [] (c ∷ y) a b fa fb h =
    let e : a ≡ y ++ d ∷ b = cc in absurd (not-Free d y b (rw (← e) fa))
cut_last d (c ∷ x) [] a b fa fb h =
    let e : b ≡ x ++ d ∷ a = cc in absurd (not-Free d x a (rw (← e) fb))
cut_last d (c ∷ x) (c' ∷ y) a b fa fb h = let p = cut_last d x y a b fa fb (cc) in (cc p.0, p.1)
