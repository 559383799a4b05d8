-- ===== src/Compare/Settle.antt =====
-- Settling the judgements of the pairs by the hashes and contents read (compare/settle.rs).
pub mod Answers
pub mod Lost
pub mod Reads
use remote_merge.Prelude.{
  String, Bool, ◌||◌, List, [], ◌∷◌, map, Option, none, some, Result, ok, err, ◌>>=◌, collect, ◌==◌,
  filter, if◌then◌else◌,
}
use remote_merge.OpFailure.{OpFailure, disconnected, no_answer}
use remote_merge.Compare.Verdict.{
  Role, role_eq, SideFailure, Undecidable, Verdict, Judgement, decided, by_content,
}
use remote_merge.Compare.Method.{combine_link_pair}
use remote_merge.Compare.Contents.{ContentJudgement, ReadOutcome, judge_hashes, read_outcome}
use remote_merge.Compare.Pairs.{Pair, PairJudgement}

pub record PairVerdict : Type 0 where
  pub pair : Pair
  pub verdict : Verdict
  pub followed : Option Verdict

-- The answer on the hash of each side that was asked.
abbrev pub Hashes : Type 0
Hashes = Role → Option (Result OpFailure String)

unanswered : Role → SideFailure
unanswered role = record {
  role = role;
  failure = disconnected (no_answer "no hash was answered for the path");
}

unfoldable pub hash_of : Hashes → Role → Result SideFailure (Result OpFailure String)
unfolding unanswered
hash_of hashes role = elim (hashes role) [ some hash ↦ ok hash | none ↦ err (unanswered role) ]

unfoldable pub content_verdict : ContentJudgement → Result SideFailure Verdict
content_verdict (ContentJudgement.decided verdict) = ok verdict
content_verdict (ContentJudgement.stopped failed) = err failed

unfoldable pub settle : Judgement → Pair → Hashes → Result SideFailure Verdict
unfolding hash_of content_verdict
settle (decided verdict) pair hashes = ok verdict
settle by_content pair hashes = do
  first ← hash_of hashes pair.first
  second ← hash_of hashes pair.second
  content_verdict (judge_hashes pair.first first pair.second second)

unfoldable pub settle_followed :
    Option Judgement → Pair → Hashes → Result SideFailure (Option Verdict)
unfolding settle
settle_followed none pair hashes = ok none
settle_followed (some judgement) pair hashes = do
  verdict ← settle judgement pair hashes
  ok (some verdict)

unfoldable pub combined : Verdict → Option Verdict → Verdict
combined verdict none = verdict
combined verdict (some followed) = combine_link_pair verdict followed

unfoldable pub settle_pair : PairJudgement → Hashes → Result SideFailure PairVerdict
unfolding settle settle_followed combined
settle_pair judged hashes = do
  verdict ← settle judged.judgement judged.pair hashes
  followed ← settle_followed judged.followed judged.pair hashes
  ok (record { pair = judged.pair; verdict = combined verdict followed; followed = followed })

unfoldable pub settle_pairs : List PairJudgement → Hashes → Result SideFailure (List PairVerdict)
unfolding settle_pair
settle_pairs judged hashes = collect (λ j. settle_pair j hashes) judged

unfoldable pub involves : Pair → Role → Bool
involves pair role = pair.first == role || pair.second == role

lost_verdict : Pair → SideFailure → PairVerdict
lost_verdict pair lost = record {
  pair = pair;
  verdict = Verdict.undecidable (Undecidable.read_failed (lost ∷ []));
  followed = none;
}

settle_unless_lost : SideFailure → Hashes → PairJudgement → Result SideFailure PairVerdict
unfolding settle_pair involves lost_verdict
settle_unless_lost lost hashes judged =
    if involves judged.pair lost.role
    then ok (lost_verdict judged.pair lost)
    else settle_pair judged hashes

unfoldable pub settle_or_lost :
    List PairJudgement → Hashes → Option SideFailure → Result SideFailure (List PairVerdict)
unfolding settle_pairs settle_unless_lost
settle_or_lost judged hashes none = settle_pairs judged hashes
settle_or_lost judged hashes (some lost) = collect (settle_unless_lost lost hashes) judged

lose_pair : SideFailure → PairVerdict → PairVerdict
unfolding involves lost_verdict
lose_pair lost pair = if involves pair.pair lost.role then lost_verdict pair.pair lost else pair

unfoldable pub lose_pairs : List PairVerdict → SideFailure → List PairVerdict
unfolding lose_pair
lose_pairs pairs lost = map (lose_pair lost) pairs

unless_undecidable : Verdict → Undecidable → Verdict
unless_undecidable (Verdict.undecidable old) why = Verdict.undecidable old
unless_undecidable _ why = Verdict.undecidable why

apply_outcome : PairVerdict → ReadOutcome → Result SideFailure PairVerdict
unfolding unless_undecidable
apply_outcome pair (ReadOutcome.stopped failed) = err failed
apply_outcome pair (ReadOutcome.undecidable why) =
    ok (record pair { verdict = unless_undecidable pair.verdict why })
apply_outcome pair ReadOutcome.read = ok pair

unfoldable pub apply_read : List SideFailure → PairVerdict → Result SideFailure PairVerdict
unfolding apply_outcome involves
apply_read failures pair =
    apply_outcome pair (read_outcome (filter (λ f. involves pair.pair f.role) failures))

unfoldable pub apply_reads :
    List PairVerdict → List SideFailure → Result SideFailure (List PairVerdict)
unfolding apply_read
apply_reads verdicts failures = collect (apply_read failures) verdicts
