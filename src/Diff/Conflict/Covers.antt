-- ===== src/Diff/Conflict/Covers.antt =====
-- A region that holds an overlap: its range and all of its lines.
use remote_merge.Prelude.{
  ℕ, ◌≤◌, List, [], ◌∷◌, ltb, All, All-map, Has, refl, ◌==◌, nat_eq, inl, inr, arith, Bool-cases,
}
use remote_merge.Diff.Conflict.{Overlap, set_insert, set_extend, joined}
use remote_merge.Diff.Conflict.Clash.{Inside}

set_insert-Has : (k : ℕ) (js : List ℕ) → Has (set_insert k js) k
unfolding set_insert
set_insert-Has k [] = inl refl
set_insert-Has k (j ∷ js) = elim (Bool-cases (ltb k j)) [
  | inl below ↦ rw below (inl refl)
  | inr not_below ↦ elim (Bool-cases (k == j)) [
    | inl here ↦ rw (not_below, here) (inl (ground arith))
    | inr above ↦ rw (not_below, above) (inr (set_insert-Has k js))
  ]
]

set_insert-keeps : (k x : ℕ) (js : List ℕ) → Has js x → Has (set_insert k js) x
unfolding set_insert
set_insert-keeps k x [] h = absurd h
set_insert-keeps k x (j ∷ js) h = elim (Bool-cases (ltb k j)) [
  | inl below ↦ rw below (inr h)
  | inr not_below ↦ elim (Bool-cases (k == j)) [
    | inl here ↦ rw (not_below, here) h
    | inr above ↦
        rw (not_below, above)
          (elim h [ inl e ↦ inl e | inr later ↦ inr (set_insert-keeps k x js later) ])
  ]
]

set_extend-keeps : (x : ℕ) (js ks : List ℕ) → Has js x → Has (set_extend js ks) x
unfolding set_extend
set_extend-keeps x js [] h = h
set_extend-keeps x js (k ∷ ks) h =
    set_extend-keeps x (set_insert k js) ks (set_insert-keeps k x js h)

set_extend-Has : (js ks : List ℕ) → All (Has (set_extend js ks)) ks
unfolding set_extend
set_extend-Has js [] = tt
set_extend-Has js (k ∷ ks) = (
  set_extend-keeps k (set_insert k js) ks (set_insert-Has k js),
  set_extend-Has (set_insert k js) ks,
)

-- The range of the overlap lies inside that of the region, which has all of its lines.
abbrev pub Covers : Overlap → Overlap → Type 0
Covers o region =
    Inside o.ref_range region.ref_range
    × All (Has region.left_file_lines) o.left_file_lines
    × All (Has region.right_file_lines) o.right_file_lines

Has-every : (ks : List ℕ) → All (Has ks) ks
Has-every [] = tt
Has-every (k ∷ ks) = (inl refl, All-map (Has ks) (Has (k ∷ ks)) (λ j h. inr h) ks (Has-every ks))

pub Covers-refl : (o : Overlap) → Covers o o
Covers-refl o =
    ((omega arith, omega arith), Has-every o.left_file_lines, Has-every o.right_file_lines)

-- A region that has grown has what it had, and the overlap that it has grown by.
pub Covers-joined : (o last region : Overlap) → Covers o last → Covers o (joined last region)
unfolding joined
Covers-joined o last region ((b, e), hl, hr) = (
  (b, omega arith),
  All-map _ _ (λ k. set_extend-keeps k last.left_file_lines region.left_file_lines)
      o.left_file_lines hl,
  All-map _ _ (λ k. set_extend-keeps k last.right_file_lines region.right_file_lines)
      o.right_file_lines hr,
)

pub joined-Covers :
    (last region : Overlap)
    → last.ref_range.start ≤ region.ref_range.start
    → Covers region (joined last region)
unfolding joined
joined-Covers last region b = (
  (b, omega arith),
  set_extend-Has last.left_file_lines region.left_file_lines,
  set_extend-Has last.right_file_lines region.right_file_lines,
)
