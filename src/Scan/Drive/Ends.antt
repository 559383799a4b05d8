-- ===== src/Scan/Drive/Ends.antt =====
-- The scan comes to an end: every round counts a link, and only so many are counted.
use remote_merge.Prelude.{
  ℕ, zero, suc, ◌+◌, ◌*◌, ◌≤◌, ◌<◌, String, Bool, true, false, List, [], ◌∷◌, some, Result, ok, err,
  ◌>>=◌, bind-ok, Returns, length, All, ◌≡◌, arith, Bool-cases, Result-cases, inl, inr,
}
use remote_merge.Text.{Bytes, is_empty}
use remote_merge.Scan.{Listing, ScanError}
use remote_merge.Scan.Filter.{Exclude}
use remote_merge.Scan.Raw.{Question, Answer, PendingLink}
use remote_merge.Scan.Walk.{Walk, finish, stopped, sum}
use remote_merge.Scan.Walk.Tree.{take_link}
use remote_merge.Scan.Walk.Counts.{Kept, After, sum-Within}
use remote_merge.Scan.Walk.Grown.{After-same, After-trans, take_link-After}
use remote_merge.Scan.Starts.{StartPath}
use remote_merge.Scan.Drive.{
  CollectError, ask, first_questions, finished, done, take_links, round, rounds, first_walk,
  counters_of, scan_paths,
}
use remote_merge.Scan.Drive.First.{first_walk-Kept}

module _ (glob : Bytes → Bytes → Bool) (exclude : Exclude) (groups limit : ℕ) where
  take_links-After :
      (links : List PendingLink) (answers : List Answer) (w w' : Walk)
      → All (λ (l : PendingLink). l.counter < groups) links
      → Kept groups limit w
      → take_links glob exclude limit links answers w ≡ ok w'
      → After groups limit w w'
  unfolding take_links
  take_links-After [] answers w w' cs k h = After-same groups limit w w' k (ground arith)
  take_links-After (link ∷ links) [] w w' cs k h = After-same groups limit w w' k (ground arith)
  take_links-After (link ∷ links) (answer ∷ answers) w w' (c, cs) k h =
      let (next, p, q) = bind-ok (take_link glob exclude limit link answer w) _ w' h in
      let step = take_link-After glob exclude groups limit link answer w next c k p in
      After-trans groups limit w next w' step
        (take_links-After links answers next w' cs step.kept q)

  module _ {S : Type 0} (machine : S → List Question → S × Result CollectError (List Answer))
      (mismatch : ℕ → ℕ → String) where
    round-grown :
        (s : S) (w w' : Walk)
        → Kept groups limit w
        → (round glob exclude limit machine mismatch s w).1 ≡ ok w'
        → Kept groups limit w' × (sum w.counts + length w'.pending ≤ sum w'.counts)
    unfolding round
    round-grown s w w' k h =
        let (answers, p, q) =
          bind-ok _
            (λ answers. take_links glob exclude limit w.pending answers (record w { pending = [] }))
            w' h in
        let after =
          take_links-After w.pending answers (record w { pending = [] }) w' k.links
            (record { counters = k.counters; links = tt; within = k.within; bound = k.bound }) q in
        (after.kept, omega (arith, after.grown))

    -- The loop ends with a result, and a walk that it returns is still within the limit.
    Ended : ℕ → S → Walk → Type 0
    Ended fuel s w =
        (r : Result ScanError Walk) × (rounds glob exclude limit machine mismatch fuel s w ≡ some r)
        × Returns (Kept groups limit) r

    rounds-empty :
        (fuel : ℕ) (s : S) (w : Walk) → Kept groups limit w → done w ≡ true → Ended fuel s w
    unfolding rounds Ended
    rounds-empty zero s w k h = (ok w, ground arith, k)
    rounds-empty (suc fuel) s w k h = (ok w, ground arith, k)

    not_done : (w : Walk) → done w ≡ false → (1 ≤ length w.pending) × (w.truncated ≡ false)
    unfolding done stopped
    not_done w h = (not_empty w.pending (ground arith), ground arith)
      where
        not_empty : (links : List PendingLink) → is_empty links ≡ false → 1 ≤ length links
        not_empty [] h = absurd (ground arith)
        not_empty (l ∷ ls) h = omega arith

    -- With fuel for what may still be counted, the loop ends.
    rounds_total :
        (fuel : ℕ) (s : S) (w : Walk)
        → Kept groups limit w
        → groups * limit < sum w.counts + fuel
        → Ended fuel s w
    unfolding rounds Ended
    rounds_total zero s w k h = elim (Bool-cases (done w)) [
      | inl e ↦ rounds-empty zero s w k e
      | inr e ↦
          let few : sum w.counts ≤ groups * limit =
            rw k.counters at (sum-Within limit w.counts (k.within (not_done w e).1)) in
          absurd (omega arith)
    ]
    rounds_total (suc fuel) s w k h = elim (Bool-cases (done w)) [
      | inl e ↦ rounds-empty (suc fuel) s w k e
      | inr e ↦ elim (Result-cases (round glob exclude limit machine mismatch s w).1) [
        | inr (why, f) ↦ (err why, ground arith, tt)
        | inl (next, f) ↦
            let state = (round glob exclude limit machine mismatch s w).0 in
            let (k', grown) = round-grown s w next k f in
            let (r, q, kept) : Ended fuel state next = elim (Bool-cases (done next)) [
              | inl g ↦ rounds-empty fuel state next k' g
              | inr g ↦ rounds_total fuel state next k' (omega (arith, grown, not_done next g))
            ] in
            (r, ground arith, kept)
      ]
    ]

-- The listing has as many counted entries as the limits allow, and one more where it is truncated.
pub record Limited (groups limit : ℕ) (l : Listing) : Type 0 where
  pub whole : l.truncated ≡ false → l.counted ≤ groups * limit
  pub cut : l.counted ≤ suc (groups * limit)

finish-Limited :
    (groups limit : ℕ) (w : Walk) → Kept groups limit w → Limited groups limit (finish w)
unfolding finish
finish-Limited groups limit w k = record {
  whole = λ e. rw k.counters at (sum-Within limit w.counts (k.within e));
  cut = k.bound;
}

finished-Limited :
    (groups limit : ℕ) (r : Result ScanError Walk)
    → Returns (Kept groups limit) r
    → Returns (Limited groups limit) (finished r)
unfolding finished
finished-Limited groups limit (ok w) k = finish-Limited groups limit w k
finished-Limited groups limit (err e) k = tt

module _ (glob : Bytes → Bytes → Bool) (exclude : Exclude) (limit : ℕ) {S : Type 0}
    (machine : S → List Question → S × Result CollectError (List Answer))
    (mismatch : ℕ → ℕ → String) where
  -- A scan of starts ends with a listing or an error, whatever the machine answers: the links that it
  -- follows never keep it going. A listing has at most the limit's entries counted for each group of
  -- starts, and one more where it is marked as truncated.
  pub scan_paths_total :
      (s : S) (all_of_it : Bool) (paths : List StartPath)
      → (r : Result ScanError Listing) × (scan_paths glob exclude limit machine mismatch s all_of_it
            paths
          ≡ some r)
        × Returns (Limited (counters_of paths) limit) r
  unfolding scan_paths Ended
  scan_paths_total s all_of_it paths =
      let (next, reply) =
        ask glob exclude limit machine mismatch s (first_questions all_of_it paths) in
      elim (Result-cases (
        reply >>= (λ answers.
          first_walk glob exclude limit all_of_it paths (counters_of paths) answers))) [
            | inr (why, e) ↦ (err why, ground arith, tt)
            | inl (w, e) ↦
                let n = counters_of paths in
                let (answers, p, q) = bind-ok reply _ w e in
                let (r, found, kept) =
                  rounds_total glob exclude n limit machine mismatch (suc (n * limit)) next w
                    (first_walk-Kept glob exclude limit all_of_it paths answers w q)
                    (omega arith) in
                (finished r, ground arith, finished-Limited n limit r kept)
          ]
