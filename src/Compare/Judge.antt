-- ===== src/Compare/Judge.antt =====
-- The judgement of a pair of sides from their states alone (compare/judge.rs).
pub mod Symmetry
pub mod Facts
use remote_merge.Prelude.{
  ℕ, ◌-◌, ◌/◌, ◌^◌, min, Bool, true, false, ◌&&◌, ◌||◌, List, [], ◌∷◌, ◌++◌, Option, some, ◌==◌,
  nat_eq, int_eq, list_eq, if◌then◌else◌,
}
use remote_merge.Scan.{LinkPoint}
use remote_merge.Compare.State.{
  Mtime, SideState, absent, unreadable_name, other, file, directory, symlink,
}
use remote_merge.Compare.Verdict.{
  Role, first, second, Undecidable, Verdict, Judgement, both_absent, undecidable, one_sided,
  kind_differs, same, differs, decided, by_content,
}
use remote_merge.Compare.Method.{Method, metadata}

unfoldable pub unfollowable : SideState → Bool
unfollowable (symlink _ LinkPoint.unresolvable) = true
unfollowable _ = false

is_other : SideState → Bool
is_other other = true
is_other _ = false

-- The sides, first and second in order, whose state passes the test.
roles_where : (SideState → Bool) → Role → SideState → Role → SideState → List Role
roles_where test first_role a second_role b =
    (if test a then first_role ∷ [] else []) ++ (if test b then second_role ∷ [] else [])

same_or_differs : Bool → Verdict
same_or_differs true = same
same_or_differs false = differs

-- Both times are finer than a second and agree to the finest precision that both have.
unfoldable pub same_time : Mtime → Mtime → Bool
same_time a b =
    let digits = min (min a.digits b.digits) 9 in
    let unit = 10 ^ (9 - digits) in
    if a.digits == 0 || b.digits == 0
    then false
    else a.secs == b.secs && (a.nanos / unit) == (b.nanos / unit)

times_decide : Method → Option Mtime → Option Mtime → Judgement
unfolding same_time
times_decide metadata (some a) (some b) = if same_time a b then decided same else by_content
times_decide _ _ _ = by_content

-- Two known sizes that differ decide. Times count only beside two equal known sizes.
unfoldable pub judge_files : Option ℕ → Option Mtime → Option ℕ → Option Mtime → Method → Judgement
unfolding times_decide
judge_files (some a) first_time (some b) second_time method =
    if a == b then times_decide method first_time second_time else decided differs
judge_files _ _ _ _ _ = by_content

-- Two states that can both be followed, are not of another kind and have a readable name.
judge_kinds : SideState → SideState → Method → Judgement
unfolding judge_files same_or_differs
judge_kinds absent absent method = decided both_absent
judge_kinds _ absent method = decided (one_sided first)
judge_kinds absent _ method = decided (one_sided second)
judge_kinds (symlink a _) (symlink b _) method = decided (same_or_differs (a == b))
judge_kinds directory directory method = decided same
judge_kinds (file first_size first_time) (file second_size second_time) method =
    judge_files first_size first_time second_size second_time method
judge_kinds _ _ method = decided kind_differs

judge_followable : Role → SideState → Role → SideState → Method → Judgement
unfolding judge_kinds unfollowable roles_where
judge_followable first_role a second_role b method =
    if unfollowable a || unfollowable b
    then decided (
        undecidable
          (Undecidable.unfollowable_link (roles_where unfollowable first_role a second_role b)))
    else judge_kinds a b method

unfoldable pub judge_states : Role → SideState → Role → SideState → Method → Judgement
unfolding judge_followable is_other roles_where
judge_states _ absent _ absent method = decided both_absent
judge_states _ unreadable_name _ _ method = decided (undecidable Undecidable.unreadable_name)
judge_states _ _ _ unreadable_name method = decided (undecidable Undecidable.unreadable_name)
judge_states r other s b method =
    decided (undecidable (Undecidable.not_regular_file (roles_where is_other r other s b)))
judge_states r a s other method =
    decided (undecidable (Undecidable.not_regular_file (roles_where is_other r a s other)))
judge_states r a s b method = judge_followable r a s b method
