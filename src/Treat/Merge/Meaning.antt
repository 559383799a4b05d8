-- ===== src/Treat/Merge/Meaning.antt =====
-- What a verdict says of the states of the two sides, however the pair was settled.
use remote_merge.Prelude.{some, Result, ok, ◌≡◌, ◌⊎◌, inl, inr, refl, arith, Option-cases, String}
use remote_merge.OpFailure.{OpFailure}
use remote_merge.Compare.State.{SideState}
use remote_merge.Compare.Verdict.{
  Role, first, second, Verdict, undecidable, one_sided, kind_differs, same, differs, both_absent,
  Judgement, decided, by_content, role_eq,
}
use remote_merge.Compare.Method.{Method, combine_link_pair}
use remote_merge.Compare.Judge.{judge_states}
use remote_merge.Compare.Contents.{judge_hashes}
use remote_merge.Compare.Table.{PathStates}
use remote_merge.Compare.Pairs.{Pair, Follow, on, judge_followed}
use remote_merge.Compare.Settle.{Hashes, settle, content_verdict, hash_of}
use remote_merge.Treat.Merge.{kind_of}

-- "On the first side only" means that the second lacks the path, and the other way round; two
-- sides that differ are of one kind.
abbrev pub Meaning : SideState → SideState → Verdict → Type 0
Meaning a b (one_sided first) = b ≡ SideState.absent
Meaning a b (one_sided second) = a ≡ SideState.absent
Meaning a b differs = kind_of a ≡ kind_of b
Meaning a b _ = Unit

judged-Meaning :
    (m : Method) (r s : Role) (a b : SideState) (v : Verdict)
    → judge_states r a s b m ≡ decided v
    → Meaning a b v
unfolding judge_states kind_of
judged-Meaning m r s a b (one_sided first) h = ground arith
judged-Meaning m r s a b (one_sided second) h = ground arith
judged-Meaning m r s a b differs h = ground arith
judged-Meaning m r s a b both_absent h = tt
judged-Meaning m r s a b same h = tt
judged-Meaning m r s a b kind_differs h = tt
judged-Meaning m r s a b (undecidable why) h = tt

hashed-Meaning :
    (m : Method) (r s : Role) (a b : SideState) (x y : Result OpFailure String) (v : Verdict)
    → judge_states r a s b m ≡ by_content
    → content_verdict (judge_hashes r x s y) ≡ ok v
    → Meaning a b v
unfolding judge_states kind_of content_verdict judge_hashes
hashed-Meaning m r s a b x y (one_sided p) h e = absurd (ground arith)
hashed-Meaning m r s a b x y differs h e = ground arith
hashed-Meaning m r s a b x y both_absent h e = tt
hashed-Meaning m r s a b x y same h e = tt
hashed-Meaning m r s a b x y kind_differs h e = tt
hashed-Meaning m r s a b x y (undecidable why) h e = tt

pub combine-Meaning :
    (a b : SideState) (v w : Verdict)
    → kind_of a ≡ kind_of b
    → Meaning a b v
    → Meaning a b (combine_link_pair v w)
unfolding combine_link_pair
combine-Meaning a b same same k h = tt
combine-Meaning a b same both_absent k h = tt
combine-Meaning a b same differs k h = k
combine-Meaning a b same (one_sided _) k h = k
combine-Meaning a b same kind_differs k h = k
combine-Meaning a b same (undecidable why) k h = tt
combine-Meaning a b differs (undecidable why) k h = tt
combine-Meaning a b v w k h = h

pub followed-kind :
    (follow : Follow) (states : PathStates) (p : Pair) (a b : SideState) (j : Judgement)
    → judge_followed follow states p a b ≡ some j
    → kind_of a ≡ kind_of b
unfolding judge_followed kind_of
followed-kind on states p (SideState.symlink t x) (SideState.symlink u y) j h = refl
followed-kind f states p a b j h = absurd (ground arith)

judgement-cases : (j : Judgement) → ((v : Verdict) × (j ≡ decided v)) ⊎ (j ≡ by_content)
judgement-cases (decided v) = inl (v, refl)
judgement-cases by_content = inr refl

pub settle-Meaning :
    (m : Method) (p : Pair) (a b : SideState) (hashes : Hashes) (v : Verdict)
    → settle (judge_states p.first a p.second b m) p hashes ≡ ok v
    → Meaning a b v
unfolding settle hash_of
settle-Meaning m p a b hashes v e = elim (judgement-cases (judge_states p.first a p.second b m)) [
  | inl (w, h) ↦
      let same_verdict : w ≡ v = ground arith in
      judged-Meaning m p.first p.second a b v (rw (← same_verdict) h)
  | inr h ↦ elim (Option-cases (hashes p.first)) [
    | inl x ↦ absurd (ground arith)
    | inr (x, hx) ↦ elim (Option-cases (hashes p.second)) [
      | inl y ↦ absurd (ground arith)
      | inr (y, hy) ↦ hashed-Meaning m p.first p.second a b x y v h (ground arith)
    ]
  ]
]
