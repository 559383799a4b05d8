-- ===== src/ChangeCheck/Applied.antt =====
-- The judgement against what each change does.
use remote_merge.Prelude.{
  ℕ, ◌/◌, ◌<◌, Bool, true, false, Option, none, some, ok, err, ◌==◌, list_eq, nat_eq, ◌≡◌, ◌≢◌, ◌⊎◌,
  inl, inr, refl, arith, Bool-cases, if◌then◌else◌,
}
use remote_merge.Text.{Bytes}
use remote_merge.Sha256.{hex_of_bytes}
use remote_merge.ChangeCheck.{
  PermissionMode, new_mode, resulting, Before, content, hash, unknown, Change, write, symlink,
  remove, chmod, Observed, link, mode, done, not_done, undetermined, judge, holds, judge_unwritten,
  judge_symlink, judge_remove, judge_chmod, judge_mode,
}

-- What the change leaves at a destination that it found so: none where the change is refused.
abbrev pub applied : Change → Observed → Option Observed
applied (write before wanted) found = some (Observed.file wanted)
applied (symlink target) found = some (link target)
applied remove found = some Observed.absent
applied (chmod wanted) (mode now directory) = elim (new_mode wanted) [
  | ok allowed ↦ some (mode (resulting allowed now directory) directory)
  | err _ ↦ none
]
applied (chmod wanted) _ = none

-- The change is a write, and nothing was kept of what the destination was before.
abbrev pub forgotten : Change → Bool
forgotten (write unknown _) = true
forgotten _ = false

-- What the destination was before the change. Nothing is said of it where nothing was kept, nor for
-- a change of permissions.
abbrev pub WasBefore : (Bytes → Bytes) → Change → Observed → Type 0
WasBefore digest (write Before.absent _) found = found ≡ Observed.absent
WasBefore digest (write (content previous) _) found = found ≡ Observed.file previous
WasBefore digest (write (hash previous) _) found =
    (now : Bytes) × (found ≡ Observed.file now) × (previous ≡ hex_of_bytes digest now)
WasBefore digest (write unknown _) found = Unit
WasBefore digest (symlink _) found = found ≡ Observed.absent
WasBefore digest remove found = found ≢ Observed.absent
WasBefore digest (chmod _) found = Unit

-- Setting a mode again changes nothing.
resulting_idem :
    (m : PermissionMode) (now : ℕ) (directory : Bool)
    → m.bits < 512
    → resulting m (resulting m now directory) directory ≡ resulting m now directory
unfolding resulting
resulting_idem m now true h = omega arith
resulting_idem m now false h = refl

module _ (digest : Bytes → Bytes) where
  -- A change that was made, and not refused, is judged done on what it leaves.
  pub judge-applied :
      (change : Change) (found after : Observed)
      → applied change found ≡ some after
      → judge digest change after ≡ done
  unfolding judge holds new_mode judge_unwritten judge_symlink judge_remove judge_chmod judge_mode
  judge-applied (write before wanted) found after h = ground arith
  judge-applied (symlink target) found after h = ground arith
  judge-applied remove found after h = ground arith
  judge-applied (chmod wanted) (mode now directory) after h =
      elim (Bool-cases (wanted / 512 == 0)) [
        | inr wide ↦ absurd (ground arith)
        | inl allowed ↦
            let allowed_mode : PermissionMode = record { bits = wanted } in
            let narrow : wanted < 512 = ground arith in
            let settled = resulting_idem allowed_mode now directory narrow in
            let left : mode (resulting allowed_mode now directory) directory ≡ after =
              ground arith in
            rw (← left) (rw (judge_mode, allowed, settled) (ground arith))
      ]
  judge-applied (chmod wanted) Observed.absent after h = absurd (ground arith)
  judge-applied (chmod wanted) (Observed.file _) after h = absurd (ground arith)
  judge-applied (chmod wanted) (link _) after h = absurd (ground arith)

  -- Where the destination is as it was before the change, by the content or the digest kept of it
  -- or by its absence or presence, the change is judged done if making it would leave the
  -- destination as it is. If it would not, or the change would be refused, it is judged not done,
  -- except that a write before which nothing was kept of the destination is judged undetermined.
  -- For such a write and for a change of permissions this is so whatever the destination is.
  pub judge-unchanged :
      (change : Change) (found : Observed)
      → WasBefore digest change found
      → ((applied change found ≡ some found) × (judge digest change found ≡ done))
        ⊎ ((applied change found ≢ some found)
            × (judge digest change found ≡ (if forgotten change then undetermined else not_done)))
  unfolding judge holds new_mode judge_unwritten judge_symlink judge_remove judge_chmod judge_mode
  judge-unchanged (write Before.absent wanted) found b = ground arith
  judge-unchanged (write (content previous) wanted) found b = ground arith
  judge-unchanged (write (hash previous) wanted) found b = ground arith
  judge-unchanged (write unknown wanted) found b = ground arith
  judge-unchanged (symlink target) found b = ground arith
  judge-unchanged remove found b = ground arith
  judge-unchanged (chmod wanted) (mode now directory) b = elim (Bool-cases (wanted / 512 == 0)) [
    | inr wide ↦ ground arith
    | inl allowed ↦ elim (Bool-cases (resulting (record { bits = wanted }) now directory == now)) [
      | inl as_before ↦ ground arith
      | inr other ↦ ground arith
    ]
  ]
  judge-unchanged (chmod wanted) Observed.absent b = ground arith
  judge-unchanged (chmod wanted) (Observed.file _) b = ground arith
  judge-unchanged (chmod wanted) (link _) b = ground arith
