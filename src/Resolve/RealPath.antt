-- ===== src/Resolve/RealPath.antt =====
-- Real paths: what they look like, and the steps that keep them so.
use remote_merge.Prelude.{
  ℕ, ◌<◌, Bool, true, false, not, ◌||◌, List, [], ◌∷◌, ◌++◌, none, some, ok, ◌==◌, nat_eq, list_eq,
  any, All, length, ltb, leb, if◌then◌else◌, ◌≡◌, refl, sym, ◌∙◌, arith, Bool-cases, inl, inr,
}
use remote_merge.Text.{Bytes, slash, split, cons_head, rsplit_once, is_empty}
use remote_merge.Paths.{dot_dot, names_something}
use remote_merge.Resolve.{
  root_path, joined, parent, joined_within_limits, path_length_limit, name_length_limit, Component,
  components, components_of,
}

-- No byte of the name is a slash.
abbrev pub slash_free : Bytes → Bool
slash_free name = not (any (λ c. c == slash) name)

-- An element of a real path: not empty, no slash, neither "." nor "..".
pub record IsName (name : Bytes) : Type 0 where
  pub stands : names_something name ≡ true
  pub no_slash : slash_free name ≡ true
  pub not_parent : (name == dot_dot) ≡ false

-- A real path: "/", or a real path and one more element, shorter than the limit.
pub data IsReal : Bytes → Type 0 where
  top : IsReal root_path
  below :
      (real name : Bytes)
      → IsReal real
      → IsName name
      → length (joined real name) < path_length_limit
      → IsReal (joined real name)

rsplit_once-none : (name : Bytes) → slash_free name ≡ true → rsplit_once slash name ≡ none
unfolding rsplit_once
rsplit_once-none [] h = refl
rsplit_once-none (c ∷ cs) h = ground (arith, rsplit_once-none cs)

rsplit_once-append :
    (front name : Bytes)
    → slash_free name ≡ true
    → rsplit_once slash (front ++ (slash ∷ name)) ≡ some (front, name)
unfolding rsplit_once
rsplit_once-append [] name h = ground (arith, rsplit_once-none name h)
rsplit_once-append (c ∷ cs) name h = ground (arith, rsplit_once-append cs name h)

append-nonempty : (front name : Bytes) → is_empty (front ++ (slash ∷ name)) ≡ false
append-nonempty [] name = refl
append-nonempty (c ∷ cs) name = refl

IsReal-nonempty : (real : Bytes) → IsReal real → is_empty real ≡ false
unfolding joined
IsReal-nonempty _ top = refl
IsReal-nonempty _ (below real name r n b) = elim (Bool-cases (real == root_path)) [
  | inl at_top ↦ rw at_top refl
  | inr deeper ↦ rw deeper (append-nonempty real name)
]

parent-append :
    (front name : Bytes)
    → slash_free name ≡ true
    → parent (front ++ (slash ∷ name)) ≡ (if is_empty front then root_path else front)
unfolding parent
parent-append front name free = rw (parent, rsplit_once-append front name free) refl

parent-joined :
    (real name : Bytes) → IsReal real → slash_free name ≡ true → parent (joined real name) ≡ real
unfolding joined
parent-joined real name r free = elim (Bool-cases (real == root_path)) [
  | inl at_top ↦
      let is_top : real ≡ root_path = ground arith in
      rw at_top (parent-append [] name free ∙ sym is_top)
  | inr deeper ↦ rw deeper (parent-append real name free ∙ rw (IsReal-nonempty real r) refl)
]

pub parent-IsReal : (real : Bytes) → IsReal real → IsReal (parent real)
unfolding parent rsplit_once nat_eq
parent-IsReal _ top = top
parent-IsReal _ (below real name r n b) = rw (parent-joined real name r n.no_slash) r

pub joined_within_limits-IsReal :
    (real name next : Bytes)
    → IsReal real
    → IsName name
    → joined_within_limits real name ≡ ok next
    → IsReal next
unfolding joined_within_limits
joined_within_limits-IsReal real name next r n h =
    elim (Bool-cases
      (ltb name_length_limit (length name) || leb path_length_limit (length (joined real name)))) [
        | inl long ↦ absurd (ground arith)
        | inr short ↦
            let same_path : joined real name ≡ next = ground arith in
            rw (← same_path) (below real name r n (ground arith))
      ]

-- The elements that a text is split into stand for something and have no slash.
abbrev pub IsElement : Component → Type 0
IsElement c = (names_something c.name ≡ true) × (slash_free c.name ≡ true)

cons_head-slash_free :
    (c : ℕ) (pieces : List Bytes)
    → (c == slash) ≡ false
    → All (λ piece. slash_free piece ≡ true) pieces
    → All (λ piece. slash_free piece ≡ true) (cons_head c pieces)
cons_head-slash_free c [] h free = (ground arith, tt)
cons_head-slash_free c (s ∷ ss) h (first, free) = (ground arith, free)

split-slash_free : (text : Bytes) → All (λ piece. slash_free piece ≡ true) (split slash text)
unfolding split
split-slash_free [] = (refl, tt)
split-slash_free (c ∷ cs) = elim (Bool-cases (c == slash)) [
  | inl e ↦ rw e (refl, split-slash_free cs)
  | inr e ↦ rw e (cons_head-slash_free c (split slash cs) e (split-slash_free cs))
]

components_of-IsElement :
    (b : Bool) (names : List Bytes)
    → All (λ piece. slash_free piece ≡ true) names
    → All IsElement (components_of b names)
unfolding components_of
components_of-IsElement b [] h = tt
components_of-IsElement b (n ∷ ns) (free, h) = elim (Bool-cases (names_something n)) [
  | inl stands ↦ rw stands ((stands, free), components_of-IsElement b ns h)
  | inr empty ↦ rw empty (components_of-IsElement b ns h)
]

pub components-IsElement : (text : Bytes) (b : Bool) → All IsElement (components text b)
unfolding components
components-IsElement text b = components_of-IsElement b (split slash text) (split-slash_free text)
