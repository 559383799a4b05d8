-- ===== src/Compare/Judge/Symmetry.antt =====
-- The judgement does not depend on which side is named first.
use remote_merge.Prelude.{
  ◌≡◌, refl, ap, Bool, List, Option, nat_eq, int_eq, list_eq, arith, none, some, ℕ,
}
use mathlib.Core.List.{reverse}
use native.Mathlib.Nat.{min_comm}
use remote_merge.Compare.State.{
  Mtime, SideState, absent, unreadable_name, other, file, directory, symlink,
}
use remote_merge.Compare.Verdict.{
  Role, Present, first, second, Undecidable, Verdict, Judgement, both_absent, undecidable,
  one_sided, kind_differs, same, differs, decided, by_content, not_regular_file, unfollowable_link,
  read_failed,
}
use remote_merge.Compare.Method.{Method, metadata, content}
use remote_merge.Compare.Judge.{
  same_time, judge_files, judge_kinds, judge_followable, judge_states, times_decide, roles_where,
  is_other, unfollowable,
}

abbrev mirror_why : Undecidable → Undecidable
mirror_why Undecidable.unreadable_name = Undecidable.unreadable_name
mirror_why (not_regular_file roles) = not_regular_file (reverse roles)
mirror_why (unfollowable_link roles) = unfollowable_link (reverse roles)
mirror_why (read_failed failures) = read_failed (reverse failures)

abbrev mirror_present : Present → Present
mirror_present first = second
mirror_present second = first

abbrev mirror_verdict : Verdict → Verdict
mirror_verdict both_absent = both_absent
mirror_verdict (undecidable why) = undecidable (mirror_why why)
mirror_verdict (one_sided present) = one_sided (mirror_present present)
mirror_verdict kind_differs = kind_differs
mirror_verdict same = same
mirror_verdict differs = differs

-- What a judgement says when the other side is named first.
abbrev pub mirror : Judgement → Judgement
mirror (decided verdict) = decided (mirror_verdict verdict)
mirror by_content = by_content

same_time_comm : (a b : Mtime) → same_time a b ≡ same_time b a
unfolding same_time
same_time_comm a b = rw (min_comm a.digits b.digits) (ground arith)

times_decide-mirror :
    (m : Method) (a b : Option Mtime) → times_decide m b a ≡ mirror (times_decide m a b)
unfolding times_decide
times_decide-mirror metadata (some a) (some b) = ground (arith, same_time_comm a b)
times_decide-mirror metadata (some a) none = refl
times_decide-mirror metadata none (some b) = refl
times_decide-mirror metadata none none = refl
times_decide-mirror content a b = refl

judge_files-mirror :
    (m : Method) (s t : Option ℕ) (a b : Option Mtime)
    → judge_files t b s a m ≡ mirror (judge_files s a t b m)
unfolding judge_files
judge_files-mirror m (some s) (some t) a b = ground (arith, times_decide-mirror m a b)
judge_files-mirror m (some s) none a b = refl
judge_files-mirror m none (some t) a b = refl
judge_files-mirror m none none a b = refl

judge_kinds-mirror : (m : Method) (a b : SideState) → judge_kinds b a m ≡ mirror (judge_kinds a b m)
unfolding judge_kinds
judge_kinds-mirror m (file s a) (file t b) = judge_files-mirror m s t a b
judge_kinds-mirror m (symlink a p) (symlink b q) = ground arith
judge_kinds-mirror m absent absent = refl
judge_kinds-mirror m _ absent = refl
judge_kinds-mirror m absent _ = refl
judge_kinds-mirror m directory directory = refl
judge_kinds-mirror m _ _ = refl

roles_where_mirror :
    (test : SideState → Bool) (r s : Role) (a b : SideState)
    → roles_where test s b r a ≡ reverse (roles_where test r a s b)
unfolding roles_where
roles_where_mirror test r s a b = ground arith

judge_followable-mirror :
    (m : Method) (r s : Role) (a b : SideState)
    → judge_followable s b r a m ≡ mirror (judge_followable r a s b m)
unfolding judge_followable
judge_followable-mirror m r s a b =
    ground (arith, roles_where_mirror unfollowable r s a b, judge_kinds-mirror m a b)

not_regular_files : List Role → Judgement
not_regular_files roles = decided (undecidable (not_regular_file roles))

-- Naming the sides the other way round gives the mirrored judgement: the verdict is the same, "on
-- the first side only" and "on the second side only" change places, and so do the sides listed as
-- the reason why there is no verdict.
pub judge_states-mirror :
    (m : Method) (r s : Role) (a b : SideState)
    → judge_states s b r a m ≡ mirror (judge_states r a s b m)
unfolding judge_states not_regular_files
judge_states-mirror m r s absent absent = refl
judge_states-mirror m r s unreadable_name b = ground arith
judge_states-mirror m r s a unreadable_name = ground arith
judge_states-mirror m r s other b = ap not_regular_files (roles_where_mirror is_other r s other b)
judge_states-mirror m r s a other = ap not_regular_files (roles_where_mirror is_other r s a other)
judge_states-mirror m r s a b = judge_followable-mirror m r s a b
