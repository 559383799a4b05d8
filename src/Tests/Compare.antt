-- ===== src/Tests/Compare.antt =====
-- The compare flow on small concrete tables, hashes and verdicts.
use remote_merge.Prelude.{
  list_eq, string_eq, int_eq, nat_eq, pos, true, false, [], ◌∷◌, Option, none, some, Result, ok,
  err, ◌≡◌, ◌↔◌, refl,
}
use remote_merge.OpFailure.{permission_denied, root_gone}
use remote_merge.Scan.{ListedKind, Listing}
use remote_merge.Compare.State.{Mtime, SideState, absent, file}
use remote_merge.Compare.Verdict.{
  Role, left, right, role_eq, SideFailure, decided, by_content, same,
}
use remote_merge.Compare.Method.{metadata, content}
use remote_merge.Compare.Judge.{judge_states, same_time}
use remote_merge.Compare.Judge.Facts.{Agree, judge_states-same_iff}
use remote_merge.Compare.Contents.{ContentJudgement, judge_hashes}
use remote_merge.Compare.Table.{PathStates, no_states, state_table}
use remote_merge.Compare.Table.OnePath.{names}
use remote_merge.Compare.Table.Absence.{state_table-absent}
use remote_merge.Compare.Pairs.{off, PairJudgement, judge_pairs, hash_roles}
use remote_merge.Compare.Recheck.{Observed, unchanged, check_before_change}
use remote_merge.Compare.Recheck.Checks.{check_before_change-unchanged_iff}

abbrev noon : Mtime
noon = record { secs = pos 1200; nanos = 123456789; digits = 9 }

abbrev noon_coarse : Mtime
noon_coarse = record { secs = pos 1200; nanos = 123456000; digits = 6 }

abbrev three_bytes : SideState
three_bytes = file (some 3) (some noon)

abbrev three_bytes_coarse : SideState
three_bytes_coarse = file (some 3) (some noon_coarse)

judge_states-same_iff_example :
    (judge_states left three_bytes right three_bytes_coarse metadata ≡ decided same)
    ↔ Agree metadata three_bytes three_bytes_coarse
judge_states-same_iff_example =
    judge_states-same_iff metadata left right three_bytes three_bytes_coarse

noon_agrees : same_time noon noon_coarse ≡ true
unfolding same_time nat_eq int_eq
noon_agrees = refl

abbrev pub denied : SideFailure
denied = record { role = left; failure = permission_denied }

abbrev pub gone : SideFailure
gone = record { role = right; failure = root_gone }

stopped_right : judge_hashes left (ok "ab") right (err root_gone) ≡ ContentJudgement.stopped gone
unfolding judge_hashes
stopped_right = refl

-- A path that both sides list as a file of three bytes, the left side with another mode.
abbrev both_files : PathStates
both_files = record no_states {
  states = λ role. elim role [
    | left ↦ some (file (some 3) none)
    | right ↦ some (file (some 3) none)
    | _ ↦ none
  ];
}

abbrev pub left_right : PairJudgement
left_right = record {
  pair = record { first = left; second = right };
  judgement = by_content;
  followed = none;
}

asked_of_both : judge_pairs both_files content off ≡ left_right ∷ []
unfolding judge_pairs judge_states no_states nat_eq
asked_of_both = refl

left_asked : hash_roles (judge_pairs both_files content off) left ≡ true
unfolding judge_pairs judge_states no_states hash_roles nat_eq role_eq
left_asked = refl

abbrev observed_ab : Result SideFailure Observed
observed_ab = ok (Observed.file "ab")

check_before_change-unchanged_iff_example :
    (check_before_change (Observed.file "ab") observed_ab ≡ ok unchanged)
    ↔ (observed_ab ≡ ok (Observed.file "ab"))
check_before_change-unchanged_iff_example =
    check_before_change-unchanged_iff (Observed.file "ab") observed_ab

abbrev one_entry : Listing
one_entry = record {
  entries =
      record {
        path = b'a' ∷ [];
        kind = ListedKind.file;
        size = 3;
        mtime_secs = pos 1200;
        mtime_nanos = 0;
        mtime_digits = 0;
        permissions = 420;
      }
      ∷ [];
  unreadable_names = [];
  truncated = false;
  cycle = none;
  unresolvable_names = [];
  counted = 0;
}

abbrev nothing_listed : Listing
nothing_listed = record one_entry { entries = [] }

abbrev two_listings : Role → Option Listing
two_listings left = some one_entry
two_listings right = some nothing_listed
two_listings _ = none

abbrev table_of_two : PathStates
table_of_two = elim (state_table two_listings (λ _. []) (b'a' ∷ [])) [
  | some states ↦ states
  | none ↦ no_states
]

states_found : state_table two_listings (λ _. []) (b'a' ∷ []) ≡ some table_of_two
unfolding state_table list_eq nat_eq
states_found = refl

right_lacks : table_of_two.states right ≡ some absent
unfolding state_table list_eq nat_eq role_eq
right_lacks = refl

state_table-absent_example :
    (l : Listing) × (two_listings right ≡ some l)
    × (l.truncated ≡ false)
    × (l.cycle ≡ none)
    × (names l (b'a' ∷ []) ≡ false)
state_table-absent_example =
    state_table-absent two_listings (λ _. []) (b'a' ∷ []) right table_of_two states_found
      right_lacks
