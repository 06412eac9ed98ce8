-- ===== src/Naming/Bounds.antt =====
-- The length of the names of internal/naming/naming.go, and when two of them collide.
use cupel.Base.{
  ℕ, zero, suc, ◌≡◌, ◌≤◌, ◌+◌, inl, inr, refl, sym, ap, ◌∙◌, List, [], ◌∷◌, ◌++◌, ◌==◌, length,
  length-append, append_assoc, take, arith, Bool-cases,
}
use mathlib.Core.List.{reverse, reverse-cons}
use cupel.Naming.{trim_left, trim_right, sanitize, join, with_suffix, stable}

pub length-trim_left : (cs : List ℕ) → length (trim_left cs) ≤ length cs
unfolding trim_left
length-trim_left [] = omega arith
length-trim_left (c ∷ cs) = elim (Bool-cases (c == b'-')) [
  | inl d ↦ rw d (omega (arith, length-trim_left cs))
  | inr n ↦ rw n (omega arith)
]

pub length-take : (n : ℕ) (cs : List ℕ) → length (take n cs) ≤ n
length-take zero cs = omega arith
length-take (suc n) [] = omega arith
length-take (suc n) (c ∷ cs) = omega (arith, length-take n cs)

length-reverse : (cs : List ℕ) → length (reverse cs) ≡ length cs
length-reverse [] = refl
length-reverse (c ∷ cs) = rw (reverse-cons, length-append) (omega (arith, length-reverse cs))

pub length-trim_right : (cs : List ℕ) → length (trim_right cs) ≤ length cs
unfolding trim_right
length-trim_right cs = omega (
  arith,
  length-reverse (trim_left (reverse cs)),
  length-trim_left (reverse cs),
  length-reverse cs,
)

length-with_suffix :
    (cs suffix : List ℕ) → length (with_suffix cs suffix) ≤ length cs + 1 + length suffix
unfolding with_suffix
length-with_suffix [] suffix = omega arith
length-with_suffix (c ∷ cs) suffix = omega (arith, length-append cs (b'-' ∷ suffix))

-- A name of `Stable` has at most 63 characters, if the fingerprint has 10.
pub length-stable :
    (fingerprint : List (List ℕ) → List ℕ) (prefix : List ℕ) (parts : List (List ℕ))
    → length (fingerprint parts) ≡ 10
    → length (stable fingerprint prefix parts) ≤ 63
unfolding stable
length-stable fingerprint prefix parts ten =
    let readable = take 52 (sanitize (prefix ++ b'-' ∷ join parts)) in
    omega (
      arith,
      length-with_suffix (trim_right readable) (fingerprint parts),
      length-trim_right readable,
      length-take 52 (sanitize (prefix ++ b'-' ∷ join parts)),
      ten,
    )

append-suffix : (xs ys us vs : List ℕ) → xs ++ us ≡ ys ++ vs → length us ≡ length vs → us ≡ vs
append-suffix [] [] us vs h n = h
append-suffix [] (y ∷ ys) us vs h n = absurd (omega (arith, ap length h, length-append ys vs, n))
append-suffix (x ∷ xs) [] us vs h n = absurd (omega (arith, ap length h, length-append xs us, n))
append-suffix (x ∷ xs) (y ∷ ys) us vs h n =
    let tails : xs ++ us ≡ ys ++ vs = cc in append-suffix xs ys us vs tails n

-- What goes before the fingerprint in a name of `Stable`.
with_suffix-append :
    (cs suffix : List ℕ) → (front : List ℕ) × (with_suffix cs suffix ≡ front ++ suffix)
unfolding with_suffix
with_suffix-append [] suffix = ([], refl)
with_suffix-append (c ∷ cs) suffix =
    ((c ∷ cs) ++ b'-' ∷ [], sym (append_assoc (c ∷ cs) (b'-' ∷ []) suffix))

-- Two names of `Stable` agree only if the fingerprints of their parts agree, whatever the prefixes
-- and the parts are, if fingerprints have 10 characters.
pub stable-fingerprint :
    (fingerprint : List (List ℕ) → List ℕ) (p q : List ℕ) (xs ys : List (List ℕ))
    → length (fingerprint xs) ≡ 10
    → length (fingerprint ys) ≡ 10
    → stable fingerprint p xs ≡ stable fingerprint q ys
    → fingerprint xs ≡ fingerprint ys
unfolding stable
stable-fingerprint fingerprint p q xs ys tx ty h =
    let (front, e) =
      with_suffix-append (trim_right (take 52 (sanitize (p ++ b'-' ∷ join xs)))) (fingerprint xs) in
    let (other, f) =
      with_suffix-append (trim_right (take 52 (sanitize (q ++ b'-' ∷ join ys)))) (fingerprint ys) in
    append-suffix front other _ _ (sym e ∙ h ∙ f) (tx ∙ sym ty)
