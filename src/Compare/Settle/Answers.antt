-- ===== src/Compare/Settle/Answers.antt =====
-- The hashes that the judgements ask for are enough to settle them, and a failure to settle is
-- that of a side that was asked.
use remote_merge.Prelude.{
  String, Bool, true, false, List, [], ◌∷◌, Option, none, some, Result, ok, err, string_eq, All,
  collect_total, collect-All₂, All₂, All₂-map, Result-cases, Option-cases, ◌≡◌, ◌⊎◌, inl, inr, refl,
  arith,
}
use remote_merge.OpFailure.{OpFailure}
use remote_merge.Compare.Verdict.{
  Role, role_eq, SideFailure, Verdict, Judgement, decided, by_content,
}
use remote_merge.Compare.Contents.{ContentJudgement, judge_hashes}
use remote_merge.Compare.Contents.Reading.{stops, judge_hashes-stopped}
use remote_merge.Compare.Pairs.{
  Pair, PairJudgement, is_by_content, follows_by_content, asks_for, hash_roles,
}
use remote_merge.Compare.Settle.{
  Hashes, PairVerdict, settle, settle_followed, combined, settle_pair, settle_pairs, involves,
}

-- The side answered, and not with a failure that ends the work on it.
abbrev pub ends : Result OpFailure String → Bool
ends (ok _) = false
ends (err failure) = stops failure

pub data Answered (hashes : Hashes) (role : Role) : Type 0 where
  answered :
      (answer : Result OpFailure String)
      → hashes role ≡ some answer
      → ends answer ≡ false
      → Answered hashes role

judge_hashes_decides :
    (r s : Role) (a b : Result OpFailure String)
    → ends a ≡ false
    → ends b ≡ false
    → (v : Verdict) × (judge_hashes r a s b ≡ ContentJudgement.decided v)
judge_hashes_decides r s a b p q = go (judge_hashes r a s b) refl
  where
    go :
        (j : ContentJudgement)
        → judge_hashes r a s b ≡ j
        → (v : Verdict) × (judge_hashes r a s b ≡ ContentJudgement.decided v)
    go (ContentJudgement.decided v) e = (v, e)
    go (ContentJudgement.stopped failed) e =
        absurd (ground (arith, judge_hashes-stopped r s a b failed e))

settle_total :
    (judgement : Judgement) (pair : Pair) (hashes : Hashes)
    → ((role : Role)
        → is_by_content judgement ≡ true
        → involves pair role ≡ true
        → Answered hashes role)
    → (v : Verdict) × (settle judgement pair hashes ≡ ok v)
unfolding settle involves is_by_content
settle_total (decided v) pair hashes h = (v, refl)
settle_total by_content pair hashes h = elim (h pair.first refl (ground arith)) [
  | answered a p q ↦ elim (h pair.second refl (ground arith)) [
    | answered b r t ↦
        let (v, e) = judge_hashes_decides pair.first pair.second a b q t in (v, ground arith)
  ]
]

settle_followed_total :
    (followed : Option Judgement) (pair : Pair) (hashes : Hashes)
    → ((role : Role)
        → follows_by_content followed ≡ true
        → involves pair role ≡ true
        → Answered hashes role)
    → (v : Option Verdict) × (settle_followed followed pair hashes ≡ ok v)
unfolding settle_followed follows_by_content
settle_followed_total none pair hashes h = (none, refl)
settle_followed_total (some judgement) pair hashes h =
    let (v, e) = settle_total judgement pair hashes h in (some v, ground arith)

pub settle_pair_total :
    (judged : PairJudgement) (hashes : Hashes)
    → ((role : Role) → asks_for judged role ≡ true → Answered hashes role)
    → (v : PairVerdict) × (settle_pair judged hashes ≡ ok v)
unfolding settle_pair asks_for involves
settle_pair_total judged hashes h =
    let (v, e) =
      settle_total judged.judgement judged.pair hashes (λ role c i. h role (ground arith)) in
    let (w, f) =
      settle_followed_total judged.followed judged.pair hashes
        (λ role c i. h role (ground arith)) in
    (record { pair = judged.pair; verdict = combined v w; followed = w }, ground arith)

settle-All :
    (judged : List PairJudgement) (hashes : Hashes)
    → ((role : Role) → hash_roles judged role ≡ true → Answered hashes role)
    → All (λ j. (v : PairVerdict) × (settle_pair j hashes ≡ ok v)) judged
unfolding hash_roles
settle-All [] hashes h = tt
settle-All (j ∷ js) hashes h = (
  settle_pair_total j hashes (λ role a. h role (ground arith)),
  settle-All js hashes (λ role a. h role (ground arith)),
)

pub settle_pair-pair :
    (hashes : Hashes) (j : PairJudgement) (v : PairVerdict)
    → settle_pair j hashes ≡ ok v
    → v.pair ≡ j.pair
unfolding settle_pair
settle_pair-pair hashes j v h = ground arith

-- If every side whose contents the judgements ask for has answered, and with no failure that ends
-- the work on it, the judgements are settled: one verdict for each pair, in the same order.
pub settle_pairs_total :
    (judged : List PairJudgement) (hashes : Hashes)
    → ((role : Role) → hash_roles judged role ≡ true → Answered hashes role)
    → (verdicts : List PairVerdict) × (settle_pairs judged hashes ≡ ok verdicts)
      × All₂ (λ (j : PairJudgement) (v : PairVerdict). v.pair ≡ j.pair) judged verdicts
unfolding settle_pairs
settle_pairs_total judged hashes h =
    let (vs, e) = collect_total (λ j. settle_pair j hashes) judged (settle-All judged hashes h) in
    (vs, e, All₂-map _ _ (settle_pair-pair hashes) judged vs (collect-All₂ _ judged vs e))

-- Why the side of a failure could not be settled: it gave no answer, or one that ends the work.
abbrev pub Faulty : Hashes → SideFailure → Type 0
Faulty hashes failed =
    (hashes failed.role ≡ none)
    ⊎ ((hashes failed.role ≡ some (err failed.failure)) × (stops failed.failure ≡ true))

settle-err :
    (judgement : Judgement) (pair : Pair) (hashes : Hashes) (failed : SideFailure)
    → settle judgement pair hashes ≡ err failed
    → (is_by_content judgement ≡ true) × (involves pair failed.role ≡ true) × Faulty hashes failed
unfolding settle involves is_by_content
settle-err (decided v) pair hashes failed h = absurd (ground arith)
settle-err by_content pair hashes failed h = elim (Option-cases (hashes pair.first)) [
  | inl p ↦ (refl, ground arith, inl (ground arith))
  | inr (a, p) ↦ elim (Option-cases (hashes pair.second)) [
    | inl q ↦ (refl, ground arith, inl (ground arith))
    | inr (b, q) ↦
        let stopped : judge_hashes pair.first a pair.second b ≡ ContentJudgement.stopped failed =
          ground arith in
        elim (judge_hashes-stopped pair.first pair.second a b failed stopped) [
          | inl (role, answer, stop) ↦ (refl, ground arith, inr (ground arith, stop))
          | inr (role, answer, stop) ↦ (refl, ground arith, inr (ground arith, stop))
        ]
  ]
]

settle_followed-err :
    (followed : Option Judgement) (pair : Pair) (hashes : Hashes) (failed : SideFailure)
    → settle_followed followed pair hashes ≡ err failed
    → (follows_by_content followed ≡ true)
      × (involves pair failed.role ≡ true)
      × Faulty hashes failed
unfolding settle_followed follows_by_content
settle_followed-err none pair hashes failed h = absurd (ground arith)
settle_followed-err (some j) pair hashes failed h = settle-err j pair hashes failed (ground arith)

settle_pair-err :
    (judged : PairJudgement) (hashes : Hashes) (failed : SideFailure)
    → settle_pair judged hashes ≡ err failed
    → (asks_for judged failed.role ≡ true) × Faulty hashes failed
unfolding settle_pair asks_for involves
settle_pair-err judged hashes failed h =
    elim (Result-cases (settle judged.judgement judged.pair hashes)) [
      | inr (e, p) ↦
          let (c, i, fault) =
            settle-err judged.judgement judged.pair hashes failed (ground arith) in
          (ground arith, fault)
      | inl (v, p) ↦
          let (c, i, fault) =
            settle_followed-err judged.followed judged.pair hashes failed (ground arith) in
          (ground arith, fault)
    ]

-- A failure to settle is that of a side whose contents the judgements asked for, which gave no
-- answer or one that ends the work on it. No other side is ever blamed.
pub settle_pairs-err :
    (judged : List PairJudgement) (hashes : Hashes) (failed : SideFailure)
    → settle_pairs judged hashes ≡ err failed
    → (hash_roles judged failed.role ≡ true) × Faulty hashes failed
unfolding settle_pairs hash_roles
settle_pairs-err [] hashes failed h = absurd (ground arith)
settle_pairs-err (j ∷ js) hashes failed h = elim (Result-cases (settle_pair j hashes)) [
  | inr (e, p) ↦
      let (asks, fault) = settle_pair-err j hashes failed (ground arith) in (ground arith, fault)
  | inl (v, p) ↦ elim (Result-cases (settle_pairs js hashes)) [
    | inr (e, q) ↦
        let (asks, fault) = settle_pairs-err js hashes failed (ground arith) in
        (ground arith, fault)
    | inl (vs, q) ↦ absurd (ground arith)
  ]
]
