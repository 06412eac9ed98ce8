-- ===== src/Authz/Bindings/Grants.antt =====
-- What the bindings of internal/authz/binding.go grant.
use cupel.Base.{
  ◌≡◌, ◌↔◌, ◌⊎◌, inl, inr, refl, sym, Bool, true, false, ◌||◌, ◌&&◌, List, [], ◌∷◌, ◌++◌, String,
  any, arith, Bool-cases, MemOf, is_member, is_member-MemOf, MemOf-is_member, sort_strings,
  MemOf-sort_strings, MemOf-of_sort_strings,
}
use cupel.Authz.Roles.{role_capabilities, can, can_see_namespace}
use cupel.Authz.Bindings.{
  Binding, Claims, applies, granted_roles, granted_namespaces, distinct, subject_for,
}

-- Some binding of the list has the property.
abbrev pub SomeBinding : (Binding → Type 0) → List Binding → Type 0
SomeBinding P [] = ⊥
SomeBinding P (b ∷ bs) = P b ⊎ SomeBinding P bs

-- The binding applies to one of the groups and its role has the capability.
pub record IsGranting (groups : List String) (capability : String) (b : Binding) : Type 0 where
  pub is_member_of : applies b groups ≡ true
  pub may : is_member capability (role_capabilities b.role) ≡ true

-- The binding applies to one of the groups and covers the tenant.
pub record IsCovering (groups : List String) (namespace : String) (b : Binding) : Type 0 where
  pub is_member_of : applies b groups ≡ true
  pub covers : (b.all_namespaces ≡ true) ⊎ MemOf namespace b.namespaces

MemOf-append_cases :
    (x : String) (xs ys : List String) → MemOf x (xs ++ ys) → MemOf x xs ⊎ MemOf x ys
MemOf-append_cases x [] ys m = inr m
MemOf-append_cases x (y ∷ xs) ys (inl e) = inl (inl e)
MemOf-append_cases x (y ∷ xs) ys (inr m) = elim (MemOf-append_cases x xs ys m) [
  | inl l ↦ inl (inr l)
  | inr r ↦ inr r
]

MemOf-append_left : (x : String) (xs ys : List String) → MemOf x xs → MemOf x (xs ++ ys)
MemOf-append_left x [] ys m = absurd m
MemOf-append_left x (y ∷ xs) ys (inl e) = inl e
MemOf-append_left x (y ∷ xs) ys (inr m) = inr (MemOf-append_left x xs ys m)

MemOf-append_right : (x : String) (xs ys : List String) → MemOf x ys → MemOf x (xs ++ ys)
MemOf-append_right x [] ys m = m
MemOf-append_right x (y ∷ xs) ys m = inr (MemOf-append_right x xs ys m)

distinct-MemOf : (x : String) (ss : List String) → MemOf x (distinct ss) → MemOf x ss
unfolding distinct
distinct-MemOf x [] = λ m. m
distinct-MemOf x (s ∷ ss) = elim (Bool-cases (is_member s (distinct ss))) [
  | inl seen ↦ rw seen (λ m. inr (distinct-MemOf x ss m))
  | inr new ↦ rw new (λ m. elim m [ inl e ↦ inl e | inr r ↦ inr (distinct-MemOf x ss r) ])
]

MemOf-distinct : (x : String) (ss : List String) → MemOf x ss → MemOf x (distinct ss)
unfolding distinct
MemOf-distinct x [] m = m
MemOf-distinct x (s ∷ ss) m = elim (Bool-cases (is_member s (distinct ss))) [
  | inl seen ↦ rw seen (elim m [
    | inl e ↦ is_member-MemOf x (distinct ss) (rw e seen)
    | inr r ↦ MemOf-distinct x ss r
  ])
  | inr new ↦ rw new (elim m [ inl e ↦ inl e | inr r ↦ inr (MemOf-distinct x ss r) ])
]

module _ (p : String → Bool) where
  any-MemOf : (xs : List String) → any p xs ≡ true → (x : String) × MemOf x xs × (p x ≡ true)
  any-MemOf [] h = cc
  any-MemOf (x ∷ xs) h = elim (Bool-cases (p x)) [
    | inl here ↦ (x, inl refl, here)
    | inr there ↦ let (y, m, e) = any-MemOf xs (rw there at h) in (y, inr m, e)
  ]

  MemOf-any : (xs : List String) (x : String) → MemOf x xs → p x ≡ true → any p xs ≡ true
  MemOf-any [] x m h = absurd m
  MemOf-any (y ∷ xs) x (inl e) h = rw (sym e, h) refl
  MemOf-any (y ∷ xs) x (inr m) h = ground (arith, MemOf-any xs x m h)

or_of_false : (a b : Bool) → (a && false) || b ≡ true → b ≡ true
or_of_false a b h = ground arith

module _ (groups : List String) where
  granting :
      (capability : String) (bs : List Binding) (role : String)
      → MemOf role (granted_roles bs groups)
      → is_member capability (role_capabilities role) ≡ true
      → SomeBinding (IsGranting groups capability) bs
  unfolding granted_roles
  granting capability [] role m h = m
  granting capability (b ∷ bs) role m h = elim (Bool-cases (applies b groups)) [
    | inr other ↦ inr (granting capability bs role (rw other at m) h)
    | inl mine ↦ elim (rw mine at m) [
      | inl e ↦ inl (record { is_member_of = mine; may = rw (sym e) h })
      | inr rest ↦ inr (granting capability bs role rest h)
    ]
  ]

  granted :
      (capability : String) (bs : List Binding)
      → SomeBinding (IsGranting groups capability) bs
      → (role : String) × MemOf role (granted_roles bs groups)
        × (is_member capability (role_capabilities role) ≡ true)
  unfolding granted_roles
  granted capability [] h = absurd h
  granted capability (b ∷ bs) (inl g) = rw g.is_member_of (b.role, inl refl, g.may)
  granted capability (b ∷ bs) (inr h) =
      let (role, m, may) = granted capability bs h in
      elim (Bool-cases (applies b groups)) [
        | inl mine ↦ rw mine (role, inr m, may)
        | inr other ↦ rw other (role, m, may)
      ]

  covering :
      (namespace : String) (bs : List Binding)
      → MemOf namespace (granted_namespaces bs groups)
      → SomeBinding (IsCovering groups namespace) bs
  unfolding granted_namespaces
  covering namespace [] m = m
  covering namespace (b ∷ bs) m = elim (Bool-cases (applies b groups)) [
    | inr other ↦ inr (covering namespace bs (rw other at m))
    | inl mine ↦ elim (MemOf-append_cases namespace b.namespaces _ (rw mine at m)) [
      | inl here ↦ inl (record { is_member_of = mine; covers = inr here })
      | inr rest ↦ inr (covering namespace bs rest)
    ]
  ]

  IsCovering-everywhere :
      (namespace : String) (bs : List Binding)
      → any (λ b. b.all_namespaces && applies b groups) bs ≡ true
      → SomeBinding (IsCovering groups namespace) bs
  IsCovering-everywhere namespace [] h = cc
  IsCovering-everywhere namespace (b ∷ bs) h = elim (Bool-cases (applies b groups)) [
    | inr other ↦
        inr (IsCovering-everywhere namespace bs (or_of_false b.all_namespaces _ (rw other at h)))
    | inl mine ↦ elim (Bool-cases b.all_namespaces) [
      | inl every ↦ inl (record { is_member_of = mine; covers = inl every })
      | inr some_only ↦ inr (IsCovering-everywhere namespace bs (rw some_only at h))
    ]
  ]

  -- Either some binding that applies covers every tenant, or one that applies names the tenant.
  covered :
      (namespace : String) (bs : List Binding)
      → SomeBinding (IsCovering groups namespace) bs
      → (any (λ b. b.all_namespaces && applies b groups) bs ≡ true)
        ⊎ MemOf namespace (granted_namespaces bs groups)
  unfolding granted_namespaces
  covered namespace [] h = absurd h
  covered namespace (b ∷ bs) (inl c) = elim c.covers [
    | inl every ↦ inl (rw (c.is_member_of, every) refl)
    | inr named ↦ inr (rw c.is_member_of (MemOf-append_left namespace b.namespaces _ named))
  ]
  covered namespace (b ∷ bs) (inr h) = elim (covered namespace bs h) [
    | inl every ↦ inl (ground (arith, every))
    | inr named ↦ elim (Bool-cases (applies b groups)) [
      | inl mine ↦ inr (rw mine (MemOf-append_right namespace b.namespaces _ named))
      | inr other ↦ inr (rw other named)
    ]
  ]

MemOf-sorted : (x : String) (ss : List String) → MemOf x ss → MemOf x (sort_strings (distinct ss))
MemOf-sorted x ss m = MemOf-sort_strings x _ (MemOf-distinct x ss m)

sorted-MemOf : (x : String) (ss : List String) → MemOf x (sort_strings (distinct ss)) → MemOf x ss
sorted-MemOf x ss m = distinct-MemOf x ss (MemOf-of_sort_strings x _ m)

-- The subject of a token may do something exactly when the role of some binding that applies to its
-- groups may.
pub can-iff-granted :
    (bs : List Binding) (c : Claims) (capability : String)
    → (can (subject_for bs c) capability ≡ true) ↔ SomeBinding (IsGranting c.groups capability) bs
unfolding can subject_for
can-iff-granted bs c capability = (
  (λ h.
      let (role, m, may) =
        any-MemOf (λ role. is_member capability (role_capabilities role)) (subject_for bs c).roles
          h in
      granting c.groups capability bs role (sorted-MemOf role _ m) may),
  (λ g.
      let (role, m, may) = granted c.groups capability bs g in
      MemOf-any (λ role. is_member capability (role_capabilities role)) (subject_for bs c).roles
        role (MemOf-sorted role _ m) may),
)

-- The subject of a token sees a tenant exactly when some binding that applies to its groups names
-- the tenant or covers all of them.
pub sees-iff-covered :
    (bs : List Binding) (c : Claims) (namespace : String)
    → (can_see_namespace (subject_for bs c) namespace ≡ true)
      ↔ SomeBinding (IsCovering c.groups namespace) bs
unfolding can_see_namespace subject_for
sees-iff-covered bs c namespace = (forth, back)
  where
    everywhere : Bool
    everywhere = any (λ b. b.all_namespaces && applies b c.groups) bs

    forth :
        can_see_namespace (subject_for bs c) namespace ≡ true
        → SomeBinding (IsCovering c.groups namespace) bs
    forth h = elim (Bool-cases everywhere) [
      | inl every ↦ IsCovering-everywhere c.groups namespace bs every
      | inr some_only ↦
          covering c.groups namespace bs
            (sorted-MemOf namespace _ (is_member-MemOf namespace _ (rw some_only at h)))
    ]

    back :
        SomeBinding (IsCovering c.groups namespace) bs
        → can_see_namespace (subject_for bs c) namespace ≡ true
    back g = elim (Bool-cases everywhere) [
      | inl every ↦ rw every refl
      | inr some_only ↦ elim (covered c.groups namespace bs g) [
        | inl every ↦ cc
        | inr named ↦ rw some_only (MemOf-is_member namespace _ (MemOf-sorted namespace _ named))
      ]
    ]

-- A subject with two bindings has the roles of both over the tenants of both: what a role may do, it
-- may also do in a tenant that only the other binding covers.
pub roles_cross_tenants :
    (bs : List Binding) (c : Claims) (capability namespace : String)
    → SomeBinding (IsGranting c.groups capability) bs
    → SomeBinding (IsCovering c.groups namespace) bs
    → (can (subject_for bs c) capability ≡ true)
      × (can_see_namespace (subject_for bs c) namespace ≡ true)
roles_cross_tenants bs c capability namespace g v =
    ((can-iff-granted bs c capability).1 g, (sees-iff-covered bs c namespace).1 v)
