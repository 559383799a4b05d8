-- ===== src/Treat/Merge/Settled.antt =====
-- The verdict found for two sides says what it means of their states.
use remote_merge.Prelude.{
  ◌&&◌, List, [], ◌∷◌, Option, none, some, ok, collect-All₂, ◌==◌, ◌≡◌, inl, inr, refl, sym, ◌∙◌,
  arith, Bool-cases, Option-cases, Result-cases, All, All₂,
}
use remote_merge.Compare.State.{SideState}
use remote_merge.Compare.Verdict.{Role, Verdict, role_eq}
use remote_merge.Compare.Method.{Method}
use remote_merge.Compare.Judge.{judge_states}
use remote_merge.Compare.Table.{PathStates}
use remote_merge.Compare.Pairs.{
  Pair, Follow, PairJudgement, pairs, judge_pairs, judge_followed, judge_pair, judge_each,
}
use remote_merge.Compare.Settle.{
  Hashes, PairVerdict, settle, settle_pair, settle_pairs, settle_followed, combined,
}
use remote_merge.Compare.Comparison.{find_pair}
use remote_merge.Treat.Merge.Meaning.{Meaning, settle-Meaning, combine-Meaning, followed-kind}

-- The judgement is the one of the states of its two sides.
pub record OfStates (states : PathStates) (m : Method) (f : Follow) (j : PairJudgement)
    (a b : SideState) : Type 0 where
  pub first_state : states.states j.pair.first ≡ some a
  pub second_state : states.states j.pair.second ≡ some b
  pub judged : j.judgement ≡ judge_states j.pair.first a j.pair.second b m
  pub followed : j.followed ≡ judge_followed f states j.pair a b

-- The verdict means what it says for the states of its two sides.
pub record Means (states : PathStates) (v : PairVerdict) (a b : SideState) : Type 0 where
  pub first_state : states.states v.pair.first ≡ some a
  pub second_state : states.states v.pair.second ≡ some b
  pub meaning : Meaning a b v.verdict

combined-Meaning :
    (states : PathStates) (f : Follow) (hashes : Hashes) (j : PairJudgement) (a b : SideState)
    (v : Verdict) (w : Option Verdict)
    → j.followed ≡ judge_followed f states j.pair a b
    → settle_followed j.followed j.pair hashes ≡ ok w
    → Meaning a b v
    → Meaning a b (combined v w)
unfolding combined settle_followed
combined-Meaning states f hashes j a b v none h e known = known
combined-Meaning states f hashes j a b v (some w) h e known = elim (Option-cases j.followed) [
  | inl unfollowed ↦ absurd (ground arith)
  | inr (judgement, followed) ↦
      combine-Meaning a b v w (followed-kind f states j.pair a b judgement (sym h ∙ followed)) known
]

settle_pair-Means :
    (states : PathStates) (m : Method) (f : Follow) (hashes : Hashes) (j : PairJudgement)
    (v : PairVerdict) (a b : SideState)
    → OfStates states m f j a b
    → settle_pair j hashes ≡ ok v
    → Means states v a b
unfolding settle_pair settle_followed combined
settle_pair-Means states m f hashes j v a b o e =
    elim (Result-cases (settle j.judgement j.pair hashes)) [
      | inr (x, p) ↦ absurd (ground arith)
      | inl (w, p) ↦ elim (Result-cases (settle_followed j.followed j.pair hashes)) [
        | inr (x, q) ↦ absurd (ground arith)
        | inl (w', q) ↦
            let same_verdict : record { pair = j.pair; verdict = combined w w'; followed = w' }
                ≡ v =
              ground arith in
            let known = settle-Meaning m j.pair a b hashes w (rw o.judged at p) in
            rw (← same_verdict) (record {
              first_state = o.first_state;
              second_state = o.second_state;
              meaning = combined-Meaning states f hashes j a b w w' o.followed q known;
            })
      ]
    ]

judge_each-OfStates :
    (states : PathStates) (m : Method) (f : Follow) (ps : List Pair)
    → All
        (λ (j : PairJudgement). (a : SideState) × (b : SideState) × OfStates states m f j a b)
        (judge_each states m f ps)
unfolding judge_each judge_pair
judge_each-OfStates states m f [] = tt
judge_each-OfStates states m f (p ∷ ps) = elim (Option-cases (states.states p.first)) [
  | inl e ↦ rw e (judge_each-OfStates states m f ps)
  | inr (a, e) ↦ elim (Option-cases (states.states p.second)) [
    | inl g ↦ rw (e, g) (judge_each-OfStates states m f ps)
    | inr (b, g) ↦
        rw (e, g)
          (
            (a, b, record { first_state = e; second_state = g; judged = refl; followed = refl }),
            judge_each-OfStates states m f ps,
          )
  ]
]

find_pair-Means :
    (states : PathStates) (r s : Role) (vs : List PairVerdict) (v : PairVerdict)
    → All (λ (w : PairVerdict). (a : SideState) × (b : SideState) × Means states w a b) vs
    → find_pair r s vs ≡ some v
    → (a : SideState) × (b : SideState) × (states.states r ≡ some a)
      × (states.states s ≡ some b)
      × Meaning a b v.verdict
unfolding find_pair
find_pair-Means states r s [] v h e = absurd (ground arith)
find_pair-Means states r s (w ∷ ws) v ((a, b, means), h) e =
    elim (Bool-cases (w.pair.first == r && w.pair.second == s)) [
      | inl there ↦
          let same_verdict : w ≡ v = ground arith in
          let same_first : w.pair.first ≡ r = ground arith in
          let same_second : w.pair.second ≡ s = ground arith in
          (
            a,
            b,
            rw same_first at means.first_state,
            rw same_second at means.second_state,
            rw (← same_verdict) means.meaning,
          )
      | inr not_there ↦ find_pair-Means states r s ws v h (ground arith)
    ]

All-Means :
    (states : PathStates) (m : Method) (f : Follow) (hashes : Hashes) (js : List PairJudgement)
    (vs : List PairVerdict)
    → All (λ (j : PairJudgement). (a : SideState) × (b : SideState) × OfStates states m f j a b) js
    → All₂ (λ j v. settle_pair j hashes ≡ ok v) js vs
    → All (λ (w : PairVerdict). (a : SideState) × (b : SideState) × Means states w a b) vs
All-Means states m f hashes [] [] o e = tt
All-Means states m f hashes (j ∷ js) (v ∷ vs) ((a, b, o), os) (e, es) = (
  (a, b, settle_pair-Means states m f hashes j v a b o e),
  All-Means states m f hashes js vs os es,
)
All-Means states m f hashes [] (v ∷ vs) o e = absurd e
All-Means states m f hashes (j ∷ js) [] o e = absurd e

-- However the pairs of a path were judged and settled, the verdict found for two sides says what it
-- means of their states: one-sided only where the other side is absent, and different contents only
-- for one kind.
pub settle_pairs-Meaning :
    (states : PathStates) (m : Method) (f : Follow) (hashes : Hashes) (vs : List PairVerdict)
    → settle_pairs (judge_pairs states m f) hashes ≡ ok vs
    → (r s : Role) (v : PairVerdict) → find_pair r s vs ≡ some v
    → (a : SideState) × (b : SideState) × (states.states r ≡ some a)
      × (states.states s ≡ some b)
      × Meaning a b v.verdict
unfolding settle_pairs judge_pairs
settle_pairs-Meaning states m f hashes vs h r s v e =
    find_pair-Means states r s vs v
      (All-Means states m f hashes (judge_each states m f pairs) vs
        (judge_each-OfStates states m f pairs) (collect-All₂ _ _ vs h))
      e
