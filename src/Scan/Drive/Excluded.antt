-- ===== src/Scan/Drive/Excluded.antt =====
-- What a scan of root_dir lists is not excluded.
use remote_merge.Prelude.{
  ℕ, zero, suc, ◌*◌, String, Bool, true, false, List, [], ◌∷◌, none, some, Result, ok, err, ◌>>=◌,
  bind-ok, Returns, All, ◌≡◌, arith, Bool-cases, Option-cases, Result-cases, inl, inr,
}
use remote_merge.Text.{Bytes}
use remote_merge.Scan.{ListedEntry, Listing, ScanError}
use remote_merge.Scan.Filter.{Exclude, excludes}
use remote_merge.Scan.Raw.{Question, Answer, PendingLink}
use remote_merge.Scan.Walk.{Walk, new_walk, finish}
use remote_merge.Scan.Walk.Tree.{take_link, take_subtree}
use remote_merge.Scan.Walk.Places.{Clear, sort_entries-All}
use remote_merge.Scan.Walk.Allowed.{Allowed, take_subtree-Clear, take_link-Clear, same-Clear}
use remote_merge.Scan.Drive.{
  CollectError, ask, first_questions, finished, done, take_starts, take_links, round, rounds,
  root_identity, first_walk, counters_of, scan_paths, scan_starts,
}
use remote_merge.Scan.Drive.Ends.{scan_paths_total}

module _ (glob : Bytes → Bytes → Bool) (exclude : Exclude) (limit : ℕ) where
  Holds : Walk → Type 0
  Holds w = Clear (Allowed glob exclude limit) w

  take_links-Clear :
      (links : List PendingLink) (answers : List Answer) (w w' : Walk)
      → Holds w
      → take_links glob exclude limit links answers w ≡ ok w'
      → Holds w'
  unfolding take_links Holds
  take_links-Clear [] answers w w' c h = same-Clear glob exclude limit w w' (ground arith) c
  take_links-Clear (link ∷ links) [] w w' c h = same-Clear glob exclude limit w w' (ground arith) c
  take_links-Clear (link ∷ links) (answer ∷ answers) w w' c h =
      let (next, p, q) = bind-ok (take_link glob exclude limit link answer w) _ w' h in
      take_links-Clear links answers next w'
        (take_link-Clear glob exclude limit link answer w next c p) q

  first_walk-Clear :
      (answers : List Answer) (n : ℕ) (w : Walk)
      → first_walk glob exclude limit true [] n answers ≡ ok w
      → Holds w
  unfolding first_walk take_starts new_walk Holds
  first_walk-Clear [] n w h = absurd (ground arith)
  first_walk-Clear (first ∷ answers) n w h =
      let (root, p, q) = bind-ok (root_identity first) _ w h in
      elim (Option-cases first.subtree) [
        | inl e ↦ absurd (ground arith)
        | inr (tree, e) ↦
            take_subtree-Clear glob exclude limit [] tree [] 0 (new_walk n) w tt
              (by_result (take_subtree glob exclude limit [] tree [] 0 (new_walk n)) (ground arith))
      ]
    where
      by_result : (r : Result ScanError Walk) → r >>= (λ w. ok w) ≡ ok w → r ≡ ok w
      by_result (ok v) h = h
      by_result (err e) h = absurd (ground arith)

  same-Returns : (r r' : Result ScanError Walk) → r ≡ r' → Returns Holds r → Returns Holds r'
  same-Returns r r' e h = rw e at h

  abbrev pub AllowedListing : Listing → Type 0
  AllowedListing l = All (λ (e : ListedEntry). excludes glob exclude e.path ≡ false) l.entries

  finished-Allowed :
      (r : Result ScanError Walk) → Returns Holds r → Returns AllowedListing (finished r)
  unfolding finished finish Holds
  finished-Allowed (ok w) c = sort_entries-All (Allowed glob exclude limit) w.entries c
  finished-Allowed (err e) c = tt

  module _ {S : Type 0} (machine : S → List Question → S × Result CollectError (List Answer))
      (mismatch : ℕ → ℕ → String) where
    rounds-Clear :
        (fuel : ℕ) (s : S) (w : Walk) (r : Result ScanError Walk)
        → Holds w
        → rounds glob exclude limit machine mismatch fuel s w ≡ some r
        → Returns Holds r
    unfolding rounds round Holds
    rounds-Clear zero s w r c h = elim (Bool-cases (done w)) [
      | inl e ↦ same-Returns (ok w) r (ground arith) c
      | inr e ↦ absurd (ground arith)
    ]
    rounds-Clear (suc fuel) s w r c h = elim (Bool-cases (done w)) [
      | inl e ↦ same-Returns (ok w) r (ground arith) c
      | inr e ↦ elim (Result-cases (round glob exclude limit machine mismatch s w).1) [
        | inr (why, f) ↦ same-Returns (err why) r (ground arith) tt
        | inl (next, f) ↦
            let (answers, p, q) =
              bind-ok _
                (λ answers.
                  take_links glob exclude limit w.pending answers (record w { pending = [] }))
                next f in
            rounds-Clear fuel (round glob exclude limit machine mismatch s w).0 next r
              (take_links-Clear w.pending answers (record w { pending = [] }) next c q)
              (ground arith)
      ]
    ]

    scan_paths-Allowed :
        (s : S) (r : Result ScanError Listing)
        → scan_paths glob exclude limit machine mismatch s true [] ≡ some r
        → Returns AllowedListing r
    unfolding scan_paths
    scan_paths-Allowed s r h =
        let (next, reply) = ask glob exclude limit machine mismatch s (first_questions true []) in
        let n = counters_of [] in
        elim (Result-cases
          (reply >>= (λ answers. first_walk glob exclude limit true [] n answers))) [
            | inr (why, e) ↦ listing-Returns (err why) r (ground arith) tt
            | inl (w, e) ↦
                let (answers, p, q) = bind-ok reply _ w e in
                elim (Option-cases
                  (rounds glob exclude limit machine mismatch (suc (n * limit)) next w)) [
                    | inl f ↦ absurd (ground arith)
                    | inr (found, f) ↦ listing-Returns (finished found) r (ground arith) (
                        finished-Allowed found (
                          rounds-Clear (suc (n * limit)) next w found
                            (first_walk-Clear answers n w q) f))
                  ]
          ]
      where
        listing-Returns :
            (r r' : Result ScanError Listing)
            → r ≡ r'
            → Returns AllowedListing r
            → Returns AllowedListing r'
        listing-Returns r r' e h = rw e at h

    -- A scan of all of root_dir ends, whatever the machine answers and whichever links are followed,
    -- and no path on a listing that it returns is excluded, by itself or by one of its ancestors.
    pub scan_starts-whole :
        (s : S)
        → (r : Result ScanError Listing) × (scan_starts glob exclude limit machine mismatch s none
            ≡ some r)
          × Returns AllowedListing r
    unfolding scan_starts
    scan_starts-whole s =
        let (r, e, limited) = scan_paths_total glob exclude limit machine mismatch s true [] in
        (r, e, scan_paths-Allowed s r e)
