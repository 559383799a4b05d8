-- ===== src/Treat/Merge/Subtrees.antt =====
-- What lies below a path that was skipped for its kind is left out of the plan.
use remote_merge.Prelude.{
  Bool, true, false, ◌||◌, List, [], ◌∷◌, any, if◌then◌else◌, ◌≡◌, refl, sym, ap, ◌∙◌, arith,
  Bool-cases, inl, inr,
}
use remote_merge.Text.{Bytes}
use remote_merge.Paths.{is_below}
use remote_merge.Paths.Below.{is_below_trans}
use remote_merge.Treat.Merge.{Plan, is_kind_mismatch, without_below, without_skipped_subtrees}

-- The entries that lie below no path of another kind: neither below one of `above` nor below one
-- that stands earlier in the plan, left out or not.
abbrev pub outside_mismatches : List Bytes → Plan → Plan
outside_mismatches above [] = []
outside_mismatches above ((path, entry) ∷ entries) =
    let rest =
      outside_mismatches (if is_kind_mismatch entry then path ∷ above else above) entries in
    if any (λ root. is_below path root) above then rest else (path, entry) ∷ rest

below_any : Bytes → List Bytes → Bool
below_any path roots = any (λ root. is_below path root) roots

below_any_trans :
    (path middle : Bytes) (roots : List Bytes)
    → is_below path middle ≡ true
    → below_any middle roots ≡ true
    → below_any path roots ≡ true
unfolding below_any
below_any_trans path middle [] h k = absurd (ground arith)
below_any_trans path middle (r ∷ rs) h k =
    ground (arith, is_below_trans path middle r, below_any_trans path middle rs)

-- The two lists have the same paths below them.
SameBelow : List Bytes → List Bytes → Type 0
SameBelow skipped above = (path : Bytes) → below_any path skipped ≡ below_any path above

SameBelow-dropped :
    (skipped above : List Bytes) (p : Bytes) (b : Bool)
    → below_any p skipped ≡ true
    → SameBelow skipped above
    → SameBelow skipped (if b then p ∷ above else above)
unfolding SameBelow below_any
SameBelow-dropped skipped above p false d h path = h path
SameBelow-dropped skipped above p true d h path = elim (Bool-cases (is_below path p)) [
  | inl below ↦ rw below (below_any_trans path p skipped below d)
  | inr not_below ↦ rw not_below (h path)
]

SameBelow-kept :
    (skipped above : List Bytes) (p : Bytes) (b : Bool)
    → SameBelow skipped above
    → SameBelow (if b then p ∷ skipped else skipped) (if b then p ∷ above else above)
unfolding SameBelow below_any
SameBelow-kept skipped above p false h path = h path
SameBelow-kept skipped above p true h path = ap (λ (b : Bool). is_below path p || b) (h path)

without_below-outside :
    (skipped above : List Bytes) (entries : Plan)
    → SameBelow skipped above
    → without_below skipped entries ≡ outside_mismatches above entries
unfolding without_below below_any SameBelow
without_below-outside skipped above [] h = refl
without_below-outside skipped above ((p, e) ∷ es) h = elim (Bool-cases (below_any p skipped)) [
  | inl dropped ↦
      rw (dropped, sym (h p) ∙ dropped)
        (without_below-outside skipped _ es
          (SameBelow-dropped skipped above p (is_kind_mismatch e) dropped h))
  | inr kept ↦
      rw (kept, sym (h p) ∙ kept)
        (ap (λ (rest : Plan). (p, e) ∷ rest)
          (without_below-outside _ _ es (SameBelow-kept skipped above p (is_kind_mismatch e) h)))
]

-- The one pass, which forgets the paths that it leaves out, leaves out exactly the entries that lie
-- below a path of another kind that stands earlier in the plan.
pub without_skipped_subtrees-outside :
    (entries : Plan) → without_skipped_subtrees entries ≡ outside_mismatches [] entries
unfolding without_skipped_subtrees SameBelow
without_skipped_subtrees-outside entries = without_below-outside [] [] entries (λ path. refl)
