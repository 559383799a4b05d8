-- ===== src/Tests/Settle.antt =====
-- The pairs of a path settled by hashes, with failures and a lost side.
use remote_merge.Prelude.{
  list_eq, string_eq, int_eq, nat_eq, true, List, [], ◌∷◌, none, some, ok, err, All₂, ◌≡◌, ◌≢◌,
  refl, arith,
}
use remote_merge.OpFailure.{permission_denied, root_gone}
use remote_merge.Compare.Verdict.{Role, left, right, ref, role_eq, Undecidable, Verdict, same}
use remote_merge.Compare.Contents.{judge_hashes}
use remote_merge.Compare.Pairs.{hash_roles}
use remote_merge.Compare.Settle.{Hashes, PairVerdict, settle_pairs, settle_or_lost}
use remote_merge.Compare.Settle.Answers.{Answered, answered}
use remote_merge.Compare.Settle.Lost.{AfterLoss, settle_or_lost_total}
use remote_merge.Tests.Compare.{gone, left_right}

abbrev one_bad : Hashes
one_bad left = some (ok "ab")
one_bad right = some (err permission_denied)
one_bad _ = none

asked-Answered : (role : Role) → hash_roles (left_right ∷ []) role ≡ true → Answered one_bad role
unfolding hash_roles
asked-Answered left h = answered (ok "ab") refl refl
asked-Answered right h = answered (err permission_denied) refl refl
asked-Answered ref h = absurd (ground arith)
asked-Answered Role.target h = absurd (ground arith)

abbrev right_gone : Hashes
right_gone left = some (ok "ab")
right_gone right = some (err root_gone)
right_gone _ = none

not_settled : settle_pairs (left_right ∷ []) right_gone ≡ err gone
unfolding settle_pairs judge_hashes
not_settled = refl

others-Answered :
    (role : Role)
    → role ≢ right
    → hash_roles (left_right ∷ []) role ≡ true
    → Answered right_gone role
unfolding hash_roles
others-Answered left n h = answered (ok "ab") refl refl
others-Answered right n h = absurd (n refl)
others-Answered ref n h = absurd (ground arith)
others-Answered Role.target n h = absurd (ground arith)

settle_or_lost_total_example :
    (verdicts : List PairVerdict) × (settle_or_lost (left_right ∷ []) right_gone (some gone)
      ≡ ok verdicts)
    × All₂ (AfterLoss right_gone gone) (left_right ∷ []) verdicts
settle_or_lost_total_example =
    settle_or_lost_total (left_right ∷ []) right_gone gone others-Answered

abbrev both_hashed : Hashes
both_hashed left = some (ok "ab")
both_hashed right = some (ok "ab")
both_hashed _ = none

abbrev left_right_same : PairVerdict
left_right_same = record {
  pair = record { first = left; second = right };
  verdict = same;
  followed = none;
}

abbrev left_right_lost : PairVerdict
left_right_lost = record left_right_same {
  verdict = Verdict.undecidable (Undecidable.read_failed (gone ∷ []));
}

settled : settle_or_lost (left_right ∷ []) both_hashed none ≡ ok (left_right_same ∷ [])
unfolding settle_or_lost judge_hashes string_eq
settled = refl

lost : settle_or_lost (left_right ∷ []) both_hashed (some gone) ≡ ok (left_right_lost ∷ [])
unfolding settle_or_lost judge_hashes role_eq
lost = refl
