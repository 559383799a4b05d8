-- ===== src/Scan/Drive/First.antt =====
-- The first answers of a scan leave a walk within the limit.
use remote_merge.Prelude.{
  ℕ, zero, suc, ◌≤◌, ◌<◌, Bool, true, false, List, [], ◌∷◌, ok, bind-ok, length, All, ◌≡◌, refl, ap,
  arith, Option-cases, Result-cases, inl, inr, max,
}
use remote_merge.Text.{Bytes}
use remote_merge.Scan.Filter.{Exclude}
use remote_merge.Scan.Raw.{Answer}
use remote_merge.Scan.Walk.{Walk, zeros, new_walk, sum}
use remote_merge.Scan.Walk.Tree.{take_subtree}
use remote_merge.Scan.Walk.Counts.{Within, Kept}
use remote_merge.Scan.Walk.Grown.{take_subtree-After}
use remote_merge.Scan.Starts.{StartPath}
use remote_merge.Scan.Drive.{root_identity, first_walk, counters_of}
use remote_merge.Scan.Drive.Counted.{take_starts-After}

zeros-length : (n : ℕ) → length (zeros n) ≡ n
unfolding zeros
zeros-length zero = refl
zeros-length (suc n) = ap suc (zeros-length n)

zeros-sum : (n : ℕ) → sum (zeros n) ≡ 0
unfolding zeros sum
zeros-sum zero = refl
zeros-sum (suc n) = omega (arith, zeros-sum n)

zeros-Within : (limit n : ℕ) → Within limit (zeros n)
unfolding zeros
zeros-Within limit zero = tt
zeros-Within limit (suc n) = (omega arith, zeros-Within limit n)

pub new_walk-Kept : (groups limit : ℕ) → 1 ≤ groups → Kept groups limit (new_walk groups)
unfolding new_walk
new_walk-Kept groups limit h = record {
  counters = omega (arith, zeros-length (max groups 1));
  links = tt;
  within = λ e. zeros-Within limit (max groups 1);
  bound = omega (arith, zeros-sum (max groups 1));
}

counters_of-positive : (paths : List StartPath) → 1 ≤ counters_of paths
unfolding counters_of
counters_of-positive [] = omega arith
counters_of-positive (s ∷ []) = omega arith
counters_of-positive (s ∷ next ∷ rest) = omega arith

-- Every group of the starts has a counter.
counters_of-enough :
    (paths : List StartPath) (n : ℕ)
    → counters_of paths ≤ n
    → All (λ (s : StartPath). s.group < n) paths
unfolding counters_of
counters_of-enough [] n h = tt
counters_of-enough (s ∷ []) n h = (omega arith, tt)
counters_of-enough (s ∷ next ∷ rest) n h =
    (omega arith, counters_of-enough (next ∷ rest) n (omega arith))

module _ (glob : Bytes → Bytes → Bool) (exclude : Exclude) (limit : ℕ) where
  pub first_walk-Kept :
      (all_of_it : Bool) (paths : List StartPath) (answers : List Answer) (w : Walk)
      → first_walk glob exclude limit all_of_it paths (counters_of paths) answers ≡ ok w
      → Kept (counters_of paths) limit w
  unfolding first_walk
  first_walk-Kept true paths [] w h = absurd (ground arith)
  first_walk-Kept false paths [] w h = absurd (ground arith)
  first_walk-Kept true paths (first ∷ answers) w h =
      let n = counters_of paths in
      let new = new_walk-Kept n limit (counters_of-positive paths) in
      let (root, p, q) = bind-ok (root_identity first) _ w h in
      elim (Option-cases first.subtree) [
        | inl e ↦ absurd (ground arith)
        | inr (tree, e) ↦
            elim (Result-cases (take_subtree glob exclude limit [] tree [] 0 (new_walk n))) [
              | inr (why, f) ↦ absurd (ground arith)
              | inl (next, f) ↦
                  let step =
                    take_subtree-After glob exclude n limit [] tree [] 0 (new_walk n) next
                      (omega (arith, counters_of-positive paths)) new f in
                  (take_starts-After glob exclude n limit paths answers root next w
                    (counters_of-enough paths n (omega arith)) step.kept (ground arith)).kept
            ]
      ]
  first_walk-Kept false paths (first ∷ answers) w h =
      let n = counters_of paths in
      let (root, p, q) = bind-ok (root_identity first) _ w h in
      (take_starts-After glob exclude n limit paths answers root (new_walk n) w
        (counters_of-enough paths n (omega arith))
        (new_walk-Kept n limit (counters_of-positive paths)) q).kept
