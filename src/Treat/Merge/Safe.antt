-- ===== src/Treat/Merge/Safe.antt =====
-- What merge does to the destination, from the states of the two sides alone.
use remote_merge.Prelude.{
  ℕ, true, Option, some, ok, ◌≡◌, ◌≢◌, ◌⊎◌, inl, inr, refl, sym, ap, ◌∙◌, arith, Option-cases,
}
use remote_merge.Compare.State.{SideState, Mtime}
use remote_merge.Compare.Verdict.{left, right, first, second, Verdict, one_sided, differs}
use remote_merge.Compare.Method.{Method}
use remote_merge.Compare.Pairs.{Follow, judge_pairs}
use remote_merge.Compare.Settle.{Hashes, settle_pairs}
use remote_merge.Compare.Comparison.{PathComparison, pair, find_pair}
use remote_merge.Treat.Merge.{
  MergeOptions, MergeEntry, Kind, kind_of, write_file, write_link, delete, nothing, entry_of,
  merge_entry, written, only_there,
}
use remote_merge.Treat.Merge.Meaning.{Meaning}
use remote_merge.Treat.Merge.Settled.{settle_pairs-Meaning}

-- The state is a regular file.
pub IsFile : SideState → Type 0
IsFile state = (size : Option ℕ) × (time : Option Mtime) × (state ≡ SideState.file size time)

kind-IsFile : (a : SideState) → kind_of a ≡ Kind.file → IsFile a
unfolding kind_of IsFile
kind-IsFile (SideState.file s t) h = (s, t, refl)
kind-IsFile SideState.absent h = absurd (ground arith)
kind-IsFile SideState.unreadable_name h = absurd (ground arith)
kind-IsFile SideState.other h = absurd (ground arith)
kind-IsFile SideState.directory h = absurd (ground arith)
kind-IsFile (SideState.symlink t p) h = absurd (ground arith)

-- An item of the kind is written over nothing, or over an item of the same kind.
pub record Overwrites (kind : Kind) (source destination : SideState) : Type 0 where
  pub source_kind : kind_of source ≡ kind
  pub destination_kind : (destination ≡ SideState.absent) ⊎ (kind_of destination ≡ kind)

entry-delete :
    (v : Verdict) (a b : SideState) (o : MergeOptions)
    → Meaning a b v
    → entry_of v a b o ≡ delete
    → (o.delete ≡ true) × (a ≡ SideState.absent) × IsFile b
unfolding entry_of written only_there kind_of IsFile
entry-delete (one_sided second) a b o m h = (ground arith, m, kind-IsFile b (ground arith))
entry-delete v a b o m h = absurd (ground arith)

entry-write_file :
    (v : Verdict) (a b : SideState) (o : MergeOptions)
    → Meaning a b v
    → entry_of v a b o ≡ write_file
    → Overwrites Kind.file a b
unfolding entry_of written only_there kind_of
entry-write_file (one_sided first) a b o m h = record {
  source_kind = ground arith;
  destination_kind = inl m;
}
entry-write_file differs a b o m h =
    let source : kind_of a ≡ Kind.file = ground arith in
    record { source_kind = source; destination_kind = inr (sym m ∙ source) }
entry-write_file v a b o m h = absurd (ground arith)

entry-write_link :
    (v : Verdict) (a b : SideState) (o : MergeOptions)
    → Meaning a b v
    → entry_of v a b o ≡ write_link
    → Overwrites Kind.symlink a b
unfolding entry_of written only_there kind_of
entry-write_link (one_sided first) a b o m h = record {
  source_kind = ground arith;
  destination_kind = inl m;
}
entry-write_link differs a b o m h =
    let source : kind_of a ≡ Kind.symlink = ground arith in
    record { source_kind = source; destination_kind = inr (sym m ∙ source) }
entry-write_link v a b o m h = absurd (ground arith)

module _ (c : PathComparison) (m : Method) (f : Follow) (hashes : Hashes) where
  merge_entry-states :
      (o : MergeOptions) (e : MergeEntry)
      → settle_pairs (judge_pairs c.states m f) hashes ≡ ok c.pairs
      → merge_entry c o ≡ e
      → e ≢ nothing
      → (v : Verdict) × (a : SideState) × (b : SideState) × (c.states.states left ≡ some a)
        × (c.states.states right ≡ some b)
        × Meaning a b v
        × (entry_of v a b o ≡ e)
  unfolding merge_entry pair
  merge_entry-states o e settled h n = elim (Option-cases (find_pair left right c.pairs)) [
    | inl none_found ↦ absurd (n (sym h ∙ ground arith))
    | inr (v, found) ↦
        let (a, b, at_left, at_right, meaning) =
          settle_pairs-Meaning c.states m f hashes c.pairs settled left right v found in
        (v.verdict, a, b, at_left, at_right, meaning, ground arith)
  ]

  -- In a comparison whose pairs were judged and settled from its states, merge deletes a path only
  -- with --delete, only where the source was found to lack it, and only a regular file.
  pub merge_entry-delete :
      (o : MergeOptions)
      → settle_pairs (judge_pairs c.states m f) hashes ≡ ok c.pairs
      → merge_entry c o ≡ delete
      → (o.delete ≡ true)
        × (c.states.states left ≡ some SideState.absent)
        × ((b : SideState) × (c.states.states right ≡ some b) × IsFile b)
  merge_entry-delete o settled h =
      let (v, a, b, at_left, at_right, meaning, e) =
        merge_entry-states o delete settled h (λ same. absurd (ground arith)) in
      let (on, gone, is_file) = entry-delete v a b o meaning e in
      (on, at_left ∙ ap some gone, (b, at_right, is_file))

  -- In a comparison whose pairs were judged and settled from its states, merge writes a file only
  -- where the source has a regular file, and over nothing but a regular file: the destination lacks
  -- the path or has a regular file there.
  pub merge_entry-write_file :
      (o : MergeOptions)
      → settle_pairs (judge_pairs c.states m f) hashes ≡ ok c.pairs
      → merge_entry c o ≡ write_file
      → (a : SideState) × (b : SideState) × (c.states.states left ≡ some a)
        × (c.states.states right ≡ some b)
        × Overwrites Kind.file a b
  merge_entry-write_file o settled h =
      let (v, a, b, at_left, at_right, meaning, e) =
        merge_entry-states o write_file settled h (λ same. absurd (ground arith)) in
      (a, b, at_left, at_right, entry-write_file v a b o meaning e)

  -- In a comparison whose pairs were judged and settled from its states, merge makes a link only
  -- where the source has a link, and over nothing but a link: the destination lacks the path or has
  -- a link there.
  pub merge_entry-write_link :
      (o : MergeOptions)
      → settle_pairs (judge_pairs c.states m f) hashes ≡ ok c.pairs
      → merge_entry c o ≡ write_link
      → (a : SideState) × (b : SideState) × (c.states.states left ≡ some a)
        × (c.states.states right ≡ some b)
        × Overwrites Kind.symlink a b
  merge_entry-write_link o settled h =
      let (v, a, b, at_left, at_right, meaning, e) =
        merge_entry-states o write_link settled h (λ same. absurd (ground arith)) in
      (a, b, at_left, at_right, entry-write_link v a b o meaning e)
