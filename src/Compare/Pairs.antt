-- ===== src/Compare/Pairs.antt =====
-- The judgements of the pairs of sides of one path, and the sides whose contents they ask for
-- (compare/pairs.rs).
pub mod Asked
use remote_merge.Prelude.{
  Bool, true, false, not, ◌&&◌, ◌||◌, List, [], ◌∷◌, ◌++◌, Option, none, some, ◌==◌, any,
  if◌then◌else◌,
}
use remote_merge.Compare.State.{SideState, symlink, followed_state}
use remote_merge.Compare.Verdict.{Role, left, right, ref, role_eq, Judgement, decided, by_content}
use remote_merge.Compare.Method.{Method, content}
use remote_merge.Compare.Judge.{judge_states}
use remote_merge.Compare.Table.{PathStates}

pub record Pair : Type 0 where
  pub first : Role
  pub second : Role

pub data Follow : Type 0 where
  off on : Follow

pub record PairJudgement : Type 0 where
  pub pair : Pair
  pub judgement : Judgement
  pub followed : Option Judgement

abbrev pub pairs : List Pair
pairs =
    record { first = left; second = right }
    ∷ record { first = left; second = ref }
    ∷ record { first = right; second = ref }
    ∷ []

-- The pair of what two followed links inside root_dir lead to.
unfoldable pub judge_followed :
    Follow → PathStates → Pair → SideState → SideState → Option Judgement
judge_followed on states pair (symlink _ a) (symlink _ b) =
    if not (states.outside pair.first) && not (states.outside pair.second)
    then some (judge_states pair.first (followed_state a) pair.second (followed_state b) content)
    else none
judge_followed _ _ _ _ _ = none

unfoldable pub judge_pair :
    PathStates → Method → Follow → Pair → Option SideState → Option SideState → List PairJudgement
unfolding judge_followed
judge_pair states method follow pair (some first) (some second) =
    record {
      pair = pair;
      judgement = judge_states pair.first first pair.second second method;
      followed = judge_followed follow states pair first second;
    }
    ∷ []
judge_pair _ _ _ _ _ _ = []

unfoldable pub judge_each : PathStates → Method → Follow → List Pair → List PairJudgement
unfolding judge_pair
judge_each states method follow [] = []
judge_each states method follow (pair ∷ rest) =
    judge_pair states method follow pair (states.states pair.first) (states.states pair.second)
    ++ judge_each states method follow rest

unfoldable pub judge_pairs : PathStates → Method → Follow → List PairJudgement
unfolding judge_each
judge_pairs states method follow = judge_each states method follow pairs

unfoldable pub is_by_content : Judgement → Bool
is_by_content by_content = true
is_by_content (decided _) = false

unfoldable pub follows_by_content : Option Judgement → Bool
unfolding is_by_content
follows_by_content none = false
follows_by_content (some judgement) = is_by_content judgement

unfoldable pub asks_for : PairJudgement → Role → Bool
unfolding is_by_content follows_by_content
asks_for judged role =
    (is_by_content judged.judgement || follows_by_content judged.followed)
    && (role == judged.pair.first || role == judged.pair.second)

-- The set of the sides whose contents the judgements ask for, as its test of membership.
unfoldable pub hash_roles : List PairJudgement → Role → Bool
unfolding asks_for
hash_roles judged role = any (λ j. asks_for j role) judged
