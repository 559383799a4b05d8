-- ===== src/Compare/Pairs/Asked.antt =====
-- Which contents the judgements ask for.
use remote_merge.Prelude.{
  any-append, true, ◌||◌, List, [], ◌∷◌, Option, none, some, ◌==◌, any, Bool-cases, ◌≡◌, inl, inr,
  refl, list_eq, nat_eq, arith,
}
use remote_merge.Scan.{LinkPoint}
use remote_merge.Compare.State.{SideState, file, symlink, followed_state}
use remote_merge.Compare.Verdict.{Role, role_eq, Judgement, decided, by_content}
use remote_merge.Compare.Method.{Method, content}
use remote_merge.Text.{Bytes}
use remote_merge.Compare.Comparison.{has_content}
use remote_merge.Compare.Judge.{judge_states}
use remote_merge.Compare.Table.{PathStates}
use remote_merge.Compare.Pairs.{
  Pair, Follow, on, pairs, judge_followed, judge_pair, judge_each, judge_pairs, is_by_content,
  follows_by_content, asks_for, hash_roles,
}

abbrev IsFile : SideState → Type 0
IsFile (file _ _) = Unit
IsFile _ = ⊥

is_by_content-eq : (j : Judgement) → is_by_content j ≡ true → j ≡ by_content
unfolding is_by_content
is_by_content-eq by_content h = refl
is_by_content-eq (decided v) h = absurd (ground arith)

by_content_files :
    (r s : Role) (a b : SideState) (m : Method)
    → judge_states r a s b m ≡ by_content
    → IsFile a × IsFile b
unfolding judge_states
by_content_files r s (file _ _) (file _ _) m h = (tt, tt)
by_content_files r s (symlink x p) (symlink y q) m h = absurd (ground arith)
by_content_files r s _ _ m h = absurd (ground arith)

file_has_content : (a : SideState) → IsFile a → has_content a ≡ true
unfolding has_content
file_has_content (file _ _) h = refl
file_has_content _ h = absurd h

followed_has_content :
    (text : Bytes) (p : LinkPoint) → IsFile (followed_state p) → has_content (symlink text p) ≡ true
unfolding has_content followed_state
followed_has_content text LinkPoint.not_directory h = refl
followed_has_content text _ h = absurd h

BothHaveContent : SideState → SideState → Type 0
BothHaveContent a b = (has_content a ≡ true) × (has_content b ≡ true)

judge_states_has_content :
    (r s : Role) (a b : SideState) (m : Method)
    → is_by_content (judge_states r a s b m) ≡ true
    → BothHaveContent a b
unfolding is_by_content BothHaveContent
judge_states_has_content r s a b m h =
    let (p, q) = by_content_files r s a b m (is_by_content-eq _ h) in
    (file_has_content a p, file_has_content b q)

judge_followed_has_content :
    (follow : Follow) (states : PathStates) (pair : Pair) (a b : SideState)
    → follows_by_content (judge_followed follow states pair a b) ≡ true
    → BothHaveContent a b
unfolding judge_followed follows_by_content BothHaveContent
judge_followed_has_content on states pair (symlink x p) (symlink y q) h =
    let (u, v) =
      by_content_files pair.first pair.second (followed_state p) (followed_state q) content
        (is_by_content-eq _ (ground arith)) in
    (followed_has_content x p u, followed_has_content y q v)
judge_followed_has_content _ states pair _ _ h = absurd (ground arith)

Collected : PathStates → Role → Type 0
Collected states role =
    (state : SideState) × (states.states role ≡ some state) × (has_content state ≡ true)

asked_has_content :
    (states : PathStates) (m : Method) (follow : Follow) (pair : Pair) (a b : SideState)
    → (is_by_content (judge_states pair.first a pair.second b m)
        || follows_by_content (judge_followed follow states pair a b))
      ≡ true
    → BothHaveContent a b
asked_has_content states m follow pair a b h =
    elim (Bool-cases (is_by_content (judge_states pair.first a pair.second b m))) [
      | inl direct ↦ judge_states_has_content pair.first pair.second a b m direct
      | inr no_direct ↦ judge_followed_has_content follow states pair a b (ground arith)
    ]

judge_pair_asked :
    (states : PathStates) (m : Method) (follow : Follow) (pair : Pair) (role : Role)
    (o o' : Option SideState)
    → states.states pair.first ≡ o
    → states.states pair.second ≡ o'
    → any (λ j. asks_for j role) (judge_pair states m follow pair o o') ≡ true
    → Collected states role
unfolding judge_pair asks_for Collected BothHaveContent
judge_pair_asked states m follow pair role (some a) (some b) e e' h =
    let (p, q) = asked_has_content states m follow pair a b (ground arith) in
    elim (Bool-cases (role == pair.first)) [
      | inl is_first ↦ (a, ground arith, p)
      | inr not_first ↦ (b, ground arith, q)
    ]
judge_pair_asked states m follow pair role none o' e e' h = absurd (ground arith)
judge_pair_asked states m follow pair role (some a) none e e' h = absurd (ground arith)

judge_each_asked :
    (states : PathStates) (m : Method) (follow : Follow) (role : Role) (ps : List Pair)
    → any (λ j. asks_for j role) (judge_each states m follow ps) ≡ true
    → Collected states role
unfolding judge_each
judge_each_asked states m follow role [] h = absurd (ground arith)
judge_each_asked states m follow role (p ∷ ps) h = elim (any-append (λ j. asks_for j role) _ _ h) [
  | inl here ↦ judge_pair_asked states m follow p role _ _ refl refl here
  | inr later ↦ judge_each_asked states m follow role ps later
]

-- The judgements of a path ask only for the contents of sides whose state was collected, and only
-- where there are contents: of regular files, and of links that lead to something other than a
-- directory.
pub hash_roles-has_content :
    (states : PathStates) (m : Method) (follow : Follow) (role : Role)
    → hash_roles (judge_pairs states m follow) role ≡ true
    → (state : SideState) × (states.states role ≡ some state) × (has_content state ≡ true)
unfolding hash_roles judge_pairs Collected
hash_roles-has_content states m follow role h = judge_each_asked states m follow role pairs h
