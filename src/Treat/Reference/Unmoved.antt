-- ===== src/Treat/Reference/Unmoved.antt =====
-- A merge with a reference writes only over what has not moved since.
use remote_merge.Prelude.{
  String, Bool, true, false, List, [], ◌∷◌, Option, none, some, Result, ok, err, list_eq, nat_eq,
  string_eq, ◌≡◌, inl, inr, refl, arith, Bool-cases, Option-cases,
}
use remote_merge.OpFailure.{OpFailure}
use remote_merge.Text.{Bytes}
use remote_merge.Scan.{LinkPoint}
use remote_merge.Compare.State.{SideState}
use remote_merge.Compare.Verdict.{left, right, ref, same}
use remote_merge.Compare.Settle.{PairVerdict}
use remote_merge.Compare.Comparison.{PathComparison, pair}
use remote_merge.Treat.Status.{present}
use remote_merge.Treat.Reference.{
  ReferenceCheck, write, same_as_reference, same_states, same_hashes, by_verdict, is_same_verdict,
  verdicts_then, by_changes, both_present, reference_check, odd_reference, real_kind,
}

-- The destination is known to be as the reference has it: neither has the path, or their hashes are
-- equal, or they are links with the same text, or the verdict on the pair is "the same".
pub data Unmoved (c : PathComparison) : Type 0 where
  both_lack : present c right ≡ false → present c ref ≡ false → Unmoved c
  equal_hashes :
      (hash : String) → c.hashes right ≡ some (ok hash) → c.hashes ref ≡ some (ok hash) → Unmoved c
  equal_links :
      (target : Bytes) (p q : LinkPoint)
      → c.states.states right ≡ some (SideState.symlink target p)
      → c.states.states ref ≡ some (SideState.symlink target q)
      → Unmoved c
  equal_verdict :
      (judged : PairVerdict) → pair c right ref ≡ some judged → judged.verdict ≡ same → Unmoved c

by_verdict-Unmoved : (c : PathComparison) → by_verdict c right ≡ true → Unmoved c
unfolding by_verdict is_same_verdict
by_verdict-Unmoved c h = elim (Option-cases (pair c right ref)) [
  | inl e ↦ absurd (ground arith)
  | inr (judged, e) ↦ equal_verdict judged e (ground arith)
]

same_hashes-Unmoved :
    (c : PathComparison) (h k : Option (Result OpFailure String))
    → c.hashes right ≡ h
    → c.hashes ref ≡ k
    → same_hashes h k (by_verdict c right) ≡ some true
    → Unmoved c
unfolding same_hashes
same_hashes-Unmoved c (some (ok a)) (some (ok b)) p q e =
    let equal : a ≡ b = ground arith in equal_hashes b (rw (← equal) p) q
same_hashes-Unmoved c (some (ok a)) none p q e = by_verdict-Unmoved c (ground arith)
same_hashes-Unmoved c none (some (ok b)) p q e = by_verdict-Unmoved c (ground arith)
same_hashes-Unmoved c none none p q e = by_verdict-Unmoved c (ground arith)
same_hashes-Unmoved c (some (err _)) k p q e = absurd (ground arith)
same_hashes-Unmoved c none (some (err _)) p q e = absurd (ground arith)
same_hashes-Unmoved c (some (ok a)) (some (err _)) p q e = absurd (ground arith)

same_states-Unmoved :
    (c : PathComparison) (a b : Option SideState)
    → c.states.states right ≡ a
    → c.states.states ref ≡ b
    → same_states c right a b ≡ some true
    → Unmoved c
unfolding same_states
same_states-Unmoved c (some (SideState.file _ _)) (some (SideState.file _ _)) p q e =
    same_hashes-Unmoved c (c.hashes right) (c.hashes ref) refl refl e
same_states-Unmoved c (some (SideState.symlink t x)) (some (SideState.symlink u y)) p q e =
    let equal : t ≡ u = ground arith in equal_links u x y (rw (← equal) p) q
same_states-Unmoved c a b p q e = by_verdict-Unmoved c (ground arith)

verdicts_then-write :
    (vs : List (Option PairVerdict)) (r : ReferenceCheck) → verdicts_then vs r ≡ write → r ≡ write
unfolding verdicts_then
verdicts_then-write [] r h = h
verdicts_then-write (none ∷ vs) r h = absurd (ground arith)
verdicts_then-write (some v ∷ vs) r h = ground (arith, verdicts_then-write vs r)

by_changes-write : (a b : Option Bool) → by_changes a b ≡ write → b ≡ some true
unfolding by_changes
by_changes-write a b h = ground arith

both_present-Unmoved : (c : PathComparison) → both_present c ≡ write → Unmoved c
unfolding both_present same_as_reference
both_present-Unmoved c h =
    elim (Bool-cases (
      odd_reference (real_kind (c.states.states left)) (real_kind (c.states.states right))
        (real_kind (c.states.states ref)))) [
          | inl odd ↦ absurd (ground arith)
          | inr even ↦
              let settled =
                verdicts_then-write (pair c left right ∷ pair c left ref ∷ pair c right ref ∷ [])
                  (by_changes (same_as_reference c left) (same_as_reference c right))
                  (rw (both_present, even) at h) in
              same_states-Unmoved c (c.states.states right) (c.states.states ref) refl refl
                (by_changes-write (same_as_reference c left) (same_as_reference c right) settled)
        ]

-- With a reference, a merge writes only where the destination is known not to have moved since:
-- neither it nor the reference has the path, or their hashes are equal, or they are links with the
-- same text, or the verdict on the two is "the same".
pub reference_check-write : (c : PathComparison) → reference_check c ≡ write → Unmoved c
unfolding reference_check both_present same_as_reference
reference_check-write c h = elim (Bool-cases (present c right)) [
  | inr gone ↦ elim (Bool-cases (present c ref)) [
    | inl had ↦ absurd (ground arith)
    | inr never ↦ both_lack gone never
  ]
  | inl there ↦ elim (Bool-cases (present c ref)) [
    | inr never ↦ absurd (ground arith)
    | inl had ↦ both_present-Unmoved c (rw (reference_check, there, had) at h)
  ]
]
