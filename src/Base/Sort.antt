-- ===== src/Base/Sort.antt =====
-- sort.Strings, and membership in lists of texts.
use Prim.Native.Nat.{ℕ}
use Prim.Native.String.{String}
use mathlib.Core.Path.{◌≡◌, refl, sym}
use mathlib.Core.Logic.{◌⊎◌, inl, inr}
use mathlib.Core.Bool.{Bool, true, false, ◌&&◌, ◌||◌}
use mathlib.Core.List.{List, [], ◌∷◌}
use native.Mathlib.Omega.{arith}
use text.Mathlib.Text.{◌==◌ as str_eq}
use text.Mathlib.TextEquality.{eq_iff}
use cupel.Base.Tests.{ltb, ◌==◌, if◌then◌else◌, Bool-cases}
use cupel.Base.Text.{codes}

abbrev pub MemOf : String → List String → Type 0
MemOf s [] = ⊥
MemOf s (t ∷ ts) = (s ≡ t) ⊎ MemOf s ts

unfoldable pub is_member : String → List String → Bool
is_member x [] = false
is_member x (y ∷ ys) = str_eq y x || is_member x ys

pub is_member-MemOf : (x : String) (ys : List String) → is_member x ys ≡ true → MemOf x ys
unfolding is_member
is_member-MemOf x [] h = cc
is_member-MemOf x (y ∷ ys) h = elim (Bool-cases (str_eq y x)) [
  | inl here ↦ inl (sym ((eq_iff y x).0 here))
  | inr there ↦ inr (is_member-MemOf x ys (rw there at h))
]

pub MemOf-is_member : (x : String) (ys : List String) → MemOf x ys → is_member x ys ≡ true
unfolding is_member
MemOf-is_member x [] m = absurd m
MemOf-is_member x (y ∷ ys) (inl e) = ground (arith, eq_iff y x)
MemOf-is_member x (y ∷ ys) (inr m) = ground (arith, MemOf-is_member x ys m)

-- The order of the bytes of two texts, which is that of their code points.
unfoldable pub codes_before : List ℕ → List ℕ → Bool
codes_before [] ds = true
codes_before (c ∷ cs) [] = false
codes_before (c ∷ cs) (d ∷ ds) = ltb c d || (c == d && codes_before cs ds)

insert_sorted : String → List String → List String
insert_sorted s [] = s ∷ []
insert_sorted s (t ∷ ts) =
    let later = insert_sorted s ts in
    if codes_before (codes s) (codes t) then s ∷ t ∷ ts else t ∷ later

unfoldable pub sort_strings : List String → List String
unfolding codes_before insert_sorted
sort_strings [] = []
sort_strings (s ∷ ss) = insert_sorted s (sort_strings ss)

insert_sorted_head : (s : String) (ts : List String) → MemOf s (insert_sorted s ts)
unfolding insert_sorted
insert_sorted_head s [] = inl refl
insert_sorted_head s (t ∷ ts) = elim (Bool-cases (codes_before (codes s) (codes t))) [
  | inl first ↦ rw first (inl refl)
  | inr later ↦ rw later (inr (insert_sorted_head s ts))
]

insert_sorted_keeps : (x s : String) (ts : List String) → MemOf x ts → MemOf x (insert_sorted s ts)
unfolding insert_sorted
insert_sorted_keeps x s [] m = absurd m
insert_sorted_keeps x s (t ∷ ts) m = elim (Bool-cases (codes_before (codes s) (codes t))) [
  | inl first ↦ rw first (inr m)
  | inr later ↦ rw later (elim m [ inl e ↦ inl e | inr n ↦ inr (insert_sorted_keeps x s ts n) ])
]

insert_sorted_only :
    (x s : String) (ts : List String) → MemOf x (insert_sorted s ts) → (x ≡ s) ⊎ MemOf x ts
unfolding insert_sorted
insert_sorted_only x s [] m = m
insert_sorted_only x s (t ∷ ts) m = elim (Bool-cases (codes_before (codes s) (codes t))) [
  | inl first ↦ rw first at m
  | inr later ↦ elim (let n : MemOf x (t ∷ insert_sorted s ts) = rw later at m in n) [
    | inl e ↦ inr (inl e)
    | inr n ↦ elim (insert_sorted_only x s ts n) [ inl e ↦ inl e | inr k ↦ inr (inr k) ]
  ]
]

-- Sorting keeps the members.
pub MemOf-sort_strings : (x : String) (ts : List String) → MemOf x ts → MemOf x (sort_strings ts)
unfolding sort_strings
MemOf-sort_strings x [] m = m
MemOf-sort_strings x (t ∷ ts) (inl e) = rw e (insert_sorted_head t (sort_strings ts))
MemOf-sort_strings x (t ∷ ts) (inr m) =
    insert_sorted_keeps x t (sort_strings ts) (MemOf-sort_strings x ts m)

pub MemOf-of_sort_strings : (x : String) (ts : List String) → MemOf x (sort_strings ts) → MemOf x ts
unfolding sort_strings
MemOf-of_sort_strings x [] m = m
MemOf-of_sort_strings x (t ∷ ts) m = elim (insert_sorted_only x t (sort_strings ts) m) [
  | inl e ↦ inl e
  | inr n ↦ inr (MemOf-of_sort_strings x ts n)
]
