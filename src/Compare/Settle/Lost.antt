-- ===== src/Compare/Settle/Lost.antt =====
-- A side whose answer was lost takes only its own pairs with it.
use remote_merge.Prelude.{
  true, false, List, [], ◌∷◌, map, none, some, ok, All, All₂, All₂-map, collect_total, collect-All₂,
  Bool-cases, ◌≡◌, ◌≢◌, inl, inr, refl, arith,
}
use remote_merge.Compare.Verdict.{Role, role_eq, SideFailure, Undecidable, Verdict}
use remote_merge.Compare.Pairs.{PairJudgement, asks_for, hash_roles}
use remote_merge.Compare.Settle.{
  Hashes, PairVerdict, settle_pair, involves, lost_verdict, settle_unless_lost, settle_or_lost,
  lose_pair, lose_pairs,
}
use remote_merge.Compare.Settle.Answers.{Answered, settle_pair_total, settle_pair-pair}

-- What becomes of a pair after the answer of a side was lost: undecidable with that failure if the
-- side is one of the pair, and settled as if nothing had been lost otherwise.
pub record AfterLoss (hashes : Hashes) (lost : SideFailure) (j : PairJudgement) (v : PairVerdict)
    : Type 0 where
  pub taken :
      involves j.pair lost.role ≡ true
      → v ≡ record {
        pair = j.pair;
        verdict = Verdict.undecidable (Undecidable.read_failed (lost ∷ []));
        followed = none;
      }
  pub spared : involves j.pair lost.role ≡ false → settle_pair j hashes ≡ ok v

settle_unless_lost-AfterLoss :
    (hashes : Hashes) (lost : SideFailure) (j : PairJudgement) (v : PairVerdict)
    → settle_unless_lost lost hashes j ≡ ok v
    → AfterLoss hashes lost j v
unfolding settle_unless_lost
settle_unless_lost-AfterLoss hashes lost j v h = record {
  taken = λ i. ground arith;
  spared = λ i. ground arith;
}

settle_unless_lost_total :
    (hashes : Hashes) (lost : SideFailure) (j : PairJudgement)
    → ((role : Role) → role ≢ lost.role → asks_for j role ≡ true → Answered hashes role)
    → (v : PairVerdict) × (settle_unless_lost lost hashes j ≡ ok v)
unfolding settle_unless_lost asks_for
settle_unless_lost_total hashes lost j h = elim (Bool-cases (involves j.pair lost.role)) [
  | inl i ↦ (lost_verdict j.pair lost, ground arith)
  | inr i ↦
      let (v, e) = settle_pair_total j hashes (λ role asks. h role (λ same. ground arith) asks) in
      (v, ground arith)
]

settle-All :
    (hashes : Hashes) (lost : SideFailure) (judged : List PairJudgement)
    → ((role : Role) → role ≢ lost.role → hash_roles judged role ≡ true → Answered hashes role)
    → All (λ j. (v : PairVerdict) × (settle_unless_lost lost hashes j ≡ ok v)) judged
unfolding hash_roles
settle-All hashes lost [] h = tt
settle-All hashes lost (j ∷ js) h = (
  settle_unless_lost_total hashes lost j (λ role n a. h role n (ground arith)),
  settle-All hashes lost js (λ role n a. h role n (ground arith)),
)

-- After the answer of one side was lost, it is enough that the other sides answered, with no
-- failure that ends the work on them: every pair gets its verdict, in the same order. A pair of
-- the lost side is undecidable with that failure, and every other pair is settled by its hashes.
pub settle_or_lost_total :
    (judged : List PairJudgement) (hashes : Hashes) (lost : SideFailure)
    → ((role : Role) → role ≢ lost.role → hash_roles judged role ≡ true → Answered hashes role)
    → (verdicts : List PairVerdict) × (settle_or_lost judged hashes (some lost) ≡ ok verdicts)
      × All₂ (AfterLoss hashes lost) judged verdicts
unfolding settle_or_lost
settle_or_lost_total judged hashes lost h =
    let f = settle_unless_lost lost hashes in
    let (vs, e) = collect_total f judged (settle-All hashes lost judged h) in
    (
      vs,
      e,
      All₂-map _ _ (settle_unless_lost-AfterLoss hashes lost) judged vs
          (collect-All₂ f judged vs e),
    )

lose_taken :
    (lost : SideFailure) (hashes : Hashes) (j : PairJudgement) (v w : PairVerdict)
    → v.pair ≡ j.pair
    → involves j.pair lost.role ≡ true
    → settle_unless_lost lost hashes j ≡ ok w
    → lose_pair lost v ≡ w
unfolding settle_unless_lost lose_pair
lose_taken lost hashes j v w e i k = rw (e, i) (ground arith)

lose_spared :
    (lost : SideFailure) (hashes : Hashes) (j : PairJudgement) (v w : PairVerdict)
    → v.pair ≡ j.pair
    → involves j.pair lost.role ≡ false
    → settle_pair j hashes ≡ ok v
    → settle_unless_lost lost hashes j ≡ ok w
    → lose_pair lost v ≡ w
unfolding settle_unless_lost lose_pair
lose_spared lost hashes j v w e i h k = rw (e, i) (ground arith)

lose_pair_once :
    (lost : SideFailure) (hashes : Hashes) (j : PairJudgement) (v w : PairVerdict)
    → settle_pair j hashes ≡ ok v
    → settle_unless_lost lost hashes j ≡ ok w
    → lose_pair lost v ≡ w
lose_pair_once lost hashes j v w h k = elim (Bool-cases (involves j.pair lost.role)) [
  | inl i ↦ lose_taken lost hashes j v w (settle_pair-pair hashes j v h) i k
  | inr i ↦ lose_spared lost hashes j v w (settle_pair-pair hashes j v h) i h k
]

lose_all :
    (lost : SideFailure) (hashes : Hashes) (judged : List PairJudgement) (vs ws : List PairVerdict)
    → All₂ (λ j v. settle_pair j hashes ≡ ok v) judged vs
    → All₂ (λ j w. settle_unless_lost lost hashes j ≡ ok w) judged ws
    → map (lose_pair lost) vs ≡ ws
lose_all lost hashes [] [] [] h k = refl
lose_all lost hashes (j ∷ js) (v ∷ vs) (w ∷ ws) (h, hs) (k, ks) =
    cc (lose_pair_once lost hashes j v w h k, lose_all lost hashes js vs ws hs ks)
lose_all lost hashes [] (v ∷ vs) ws h k = absurd h
lose_all lost hashes [] [] (w ∷ ws) h k = absurd k
lose_all lost hashes (j ∷ js) [] ws h k = absurd h
lose_all lost hashes (j ∷ js) (v ∷ vs) [] h k = absurd k

-- Where the pairs can be settled both with and without the loss of a side, losing it afterwards
-- leaves the same verdicts as losing it before.
pub lose_pairs-settle_pairs :
    (judged : List PairJudgement) (hashes : Hashes) (lost : SideFailure) (vs ws : List PairVerdict)
    → settle_or_lost judged hashes none ≡ ok vs
    → settle_or_lost judged hashes (some lost) ≡ ok ws
    → lose_pairs vs lost ≡ ws
unfolding settle_or_lost lose_pairs
lose_pairs-settle_pairs judged hashes lost vs ws h k =
    lose_all lost hashes judged vs ws (collect-All₂ _ judged vs h) (collect-All₂ _ judged ws k)
