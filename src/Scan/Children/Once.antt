-- ===== src/Scan/Children/Once.antt =====
-- The links of a listing of children are asked about once.
use remote_merge.Prelude.{
  ℕ, String, Bool, true, List, [], ◌∷◌, some, Result, ok, err, ◌>>=◌, bind-ok, ◌≡◌, sym, ap, ◌∙◌,
  arith, Bool-cases, Result-cases, inl, inr,
}
use remote_merge.Text.{Bytes}
use remote_merge.Paths.{normalized}
use remote_merge.Scan.{Listing, ScanError}
use remote_merge.Scan.Filter.{Exclude}
use remote_merge.Scan.Raw.{Question, Answer, PendingLink}
use remote_merge.Scan.Walk.{Walk}
use remote_merge.Scan.Walk.Link.{point_link}
use remote_merge.Scan.Walk.Counts.{point_link-Framed}
use remote_merge.Scan.Drive.{CollectError, ask, done, finished}
use remote_merge.Scan.Children.{
  point_links, child_round, child_rounds, child_questions, first_children, scan_children,
}

point_links-pending :
    (links : List PendingLink) (answers : List Answer) (w w' : Walk)
    → point_links links answers w ≡ ok w'
    → w'.pending ≡ w.pending
unfolding point_links
point_links-pending [] answers w w' h =
    let same : w ≡ w' = ground arith in ap (λ (w : Walk). w.pending) (sym same)
point_links-pending (link ∷ links) [] w w' h =
    let same : w ≡ w' = ground arith in ap (λ (w : Walk). w.pending) (sym same)
point_links-pending (link ∷ links) (answer ∷ answers) w w' h =
    let (next, p, q) = bind-ok (point_link link answer w) _ w' h in
    point_links-pending links answers next w' q ∙ (point_link-Framed link answer w next p).pending

module _ (glob : Bytes → Bytes → Bool) (exclude : Exclude) (limit : ℕ) {S : Type 0}
    (machine : S → List Question → S × Result CollectError (List Answer))
    (mismatch : ℕ → ℕ → String) where
  child_round-pending :
      (s : S) (w w' : Walk)
      → (child_round glob exclude limit machine mismatch s w).1 ≡ ok w'
      → done w' ≡ true
  unfolding child_round done
  child_round-pending s w w' h =
      let (answers, p, q) =
        bind-ok _ (λ answers. point_links w.pending answers (record w { pending = [] })) w' h in
      let none_left : w'.pending ≡ [] =
        point_links-pending w.pending answers (record w { pending = [] }) w' q in
      ground arith

  child_rounds_total :
      (s : S) (w : Walk)
      → (r : Result ScanError Walk) × (child_rounds glob exclude limit machine mismatch 1 s w
          ≡ some r)
  unfolding child_rounds
  child_rounds_total s w = elim (Bool-cases (done w)) [
    | inl e ↦ (ok w, ground arith)
    | inr e ↦ elim (Result-cases (child_round glob exclude limit machine mismatch s w).1) [
      | inr (why, f) ↦ (err why, ground arith)
      | inl (next, f) ↦ let all_done = child_round-pending s w next f in (ok next, ground arith)
    ]
  ]

  -- A listing of children ends with a result after one round of questions about the links, whatever
  -- the machine answers.
  pub scan_children_total :
      (s : S) (path : Bytes)
      → (r : Result ScanError Listing) × (scan_children glob exclude limit machine mismatch s path
          ≡ some r)
  unfolding scan_children
  scan_children_total s path =
      let name = normalized path in
      let (next, reply) = ask glob exclude limit machine mismatch s (child_questions name) in
      elim (Result-cases (reply >>= (λ answers. first_children glob exclude limit name answers))) [
        | inr (why, e) ↦ (err why, ground arith)
        | inl (w, e) ↦ let (r, found) = child_rounds_total next w in (finished r, ground arith)
      ]
