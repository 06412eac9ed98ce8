-- ===== src/Authz/Bindings.antt =====
-- internal/authz/binding.go: the bindings of groups to roles and tenants, and the subject that the
-- claims of a token resolve to. The errors carry no text. A set that the source keeps as the keys of
-- a map is the list of its members, without repetitions and sorted where the source sorts it.
pub mod Grants
mod Tests
use cupel.Base.{
  ℕ, Bool, true, false, not, ◌||◌, ◌&&◌, Option, none, some, List, [], ◌∷◌, ◌++◌, String, str_eq,
  if◌then◌else◌, ◌==◌, any, map, codes, codes_eq, trim_space, to_lower, is_blank, is_member,
  sort_strings,
}
use cupel.Authz.Roles.{Scope, Subject}

pub record Binding : Type 0 where
  pub group : String
  pub role : String
  pub namespaces : List String
  pub all_namespaces : Bool

pub data BindingError : Type 0 where
  no_group : BindingError
  inner_wildcard : BindingError
  unknown_role : BindingError
  no_namespaces : BindingError
  both_scopes : BindingError
  empty_namespace : BindingError

-- Whether the first `*` of a group is not its last character.
has_inner_wildcard : List ℕ → Bool
has_inner_wildcard [] = false
has_inner_wildcard (c ∷ []) = false
has_inner_wildcard (c ∷ d ∷ cs) = c == b'*' || has_inner_wildcard (d ∷ cs)

-- Whether `ParseRole` accepts a name: it is a role once it is trimmed and in lower case.
parses_as_role : String → Bool
unfolding codes_eq trim_space to_lower
parses_as_role s =
    let name = map to_lower (trim_space s) in
    any (λ role. codes_eq name (codes role))
      ("admin" ∷ "security" ∷ "owner" ∷ "auditor" ∷ "viewer" ∷ [])

is_empty : List String → Bool
is_empty [] = true
is_empty (x ∷ xs) = false

pub validate : Binding → Option BindingError
unfolding has_inner_wildcard parses_as_role is_empty is_blank
validate b =
    if is_blank b.group
    then some no_group
    else if has_inner_wildcard (codes b.group)
    then some inner_wildcard
    else if not (parses_as_role b.role)
    then some unknown_role
    else if not b.all_namespaces && is_empty b.namespaces
    then some no_namespaces
    else if b.all_namespaces && not (is_empty b.namespaces)
    then some both_scopes
    else if any is_blank b.namespaces
    then some empty_namespace
    else none

-- The text before a trailing `*`, if there is one.
wildcard_prefix : List ℕ → Option (List ℕ)
wildcard_prefix [] = none
wildcard_prefix (c ∷ []) = if c == b'*' then some [] else none
wildcard_prefix (c ∷ d ∷ cs) = elim (wildcard_prefix (d ∷ cs)) [
  | none ↦ none
  | some p ↦ some (c ∷ p)
]

is_prefix : List ℕ → List ℕ → Bool
is_prefix [] cs = true
is_prefix (p ∷ ps) [] = false
is_prefix (p ∷ ps) (c ∷ cs) = p == c && is_prefix ps cs

pub matches : Binding → String → Bool
unfolding wildcard_prefix is_prefix
matches b group = elim (wildcard_prefix (codes b.group)) [
  | some prefix ↦ is_prefix prefix (codes group)
  | none ↦ str_eq b.group group
]

pub record Claims : Type 0 where
  pub username : String
  pub groups : List String

-- Whether one of the groups satisfies the binding: the inner loop of `SubjectFor`.
pub applies : Binding → List String → Bool
applies b groups = any (matches b) groups

pub granted_roles : List Binding → List String → List String
granted_roles [] groups = []
granted_roles (b ∷ bs) groups =
    let rest = granted_roles bs groups in if applies b groups then b.role ∷ rest else rest

pub granted_namespaces : List Binding → List String → List String
granted_namespaces [] groups = []
granted_namespaces (b ∷ bs) groups =
    let rest = granted_namespaces bs groups in
    if applies b groups then b.namespaces ++ rest else rest

pub distinct : List String → List String
distinct [] = []
distinct (s ∷ ss) = let rest = distinct ss in if is_member s rest then rest else s ∷ rest

pub subject_for : List Binding → Claims → Subject
subject_for bs c =
    let everywhere = any (λ b. b.all_namespaces && applies b c.groups) bs in
    record {
      username = c.username;
      groups = c.groups;
      roles = sort_strings (distinct (granted_roles bs c.groups));
      scope = record {
        namespaces =
            if everywhere then [] else sort_strings (distinct (granted_namespaces bs c.groups));
        all_namespaces = everywhere;
      };
    }
