-- ===== src/Compare/Judge/Facts.antt =====
-- When the states of two sides alone decide that they are the same, and that the cheap method
-- decides nothing against the thorough one.
use remote_merge.Prelude.{
  ◌-◌, ◌/◌, ◌^◌, ◌+◌, ◌*◌, ◌<◌, ◌≡◌, ◌≢◌, ◌⊎◌, ◌↔◌, inl, inr, refl, sym, ap, min, Bool-cases,
  Option, ◌==◌, nat_eq, int_eq, list_eq, arith, none, some, ℕ, true,
}
use native.Mathlib.Nat.{one-le-pow}
use remote_merge.Scan.{LinkPoint}
use remote_merge.Text.{Bytes}
use remote_merge.Compare.State.{Mtime, SideState, absent, file, directory, symlink}
use remote_merge.Compare.Verdict.{Role, Judgement, same, decided, by_content}
use remote_merge.Compare.Method.{Method, metadata, content}
use remote_merge.Compare.Judge.{same_time, judge_files, judge_states}

-- The two states show without their contents that nothing is to be done.
pub data Agree (m : Method) (a b : SideState) : Type 0 where
  directories : a ≡ directory → b ≡ directory → Agree m a b
  links :
      (target : Bytes) (p q : LinkPoint)
      → a ≡ symlink target p
      → b ≡ symlink target q
      → p ≢ LinkPoint.unresolvable
      → q ≢ LinkPoint.unresolvable
      → Agree m a b
  files :
      (size : ℕ) (s t : Mtime)
      → a ≡ file (some size) (some s)
      → b ≡ file (some size) (some t)
      → m ≡ metadata
      → same_time s t ≡ true
      → Agree m a b

judge_files-same :
    (m : Method) (s t : Option ℕ) (a b : Option Mtime)
    → judge_files s a t b m ≡ decided same
    → Agree m (file s a) (file t b)
unfolding judge_files
judge_files-same metadata (some s) (some t) (some a) (some b) h =
    files s a b (ground arith) (ground arith) refl (ground arith)
judge_files-same content (some s) (some t) (some a) (some b) h = absurd (ground arith)
judge_files-same m (some s) (some t) none b h = absurd (ground arith)
judge_files-same m (some s) (some t) (some a) none h = absurd (ground arith)
judge_files-same m none t a b h = absurd (ground arith)
judge_files-same m (some s) none a b h = absurd (ground arith)

links-same :
    (m : Method) (r r' : Role) (a b : Bytes) (p q : LinkPoint)
    → judge_states r (symlink a p) r' (symlink b q) m ≡ decided same
    → Agree m (symlink a p) (symlink b q)
unfolding judge_states
links-same m r r' a b p q h =
    links b p q (ground arith) refl (λ e. ground arith) (λ e. ground arith)

judge_states-same :
    (m : Method) (r s : Role) (a b : SideState)
    → judge_states r a s b m ≡ decided same
    → Agree m a b
unfolding judge_states
judge_states-same m r s absent absent h = absurd (cc)
judge_states-same m r s (file x a) (file y b) h = judge_files-same m x y a b h
judge_states-same m r s (symlink a p) (symlink b q) h = links-same m r s a b p q h
judge_states-same m r s directory directory h = directories refl refl
judge_states-same m r s _ _ h = absurd (ground arith)

Agree-judge_states :
    (m : Method) (r s : Role) (a b : SideState)
    → Agree m a b
    → judge_states r a s b m ≡ decided same
unfolding judge_states
Agree-judge_states m r s a b (directories p q) = ground arith
Agree-judge_states m r s a b (links t p q e f g h) = ground arith
Agree-judge_states m r s a b (files n t u e f g h) = ground arith

-- The states decide "the same" exactly for two directories, for two links with the same text that
-- can be followed, and, by metadata only, for two files of one known size whose times agree.
pub judge_states-same_iff :
    (m : Method) (r s : Role) (a b : SideState)
    → (judge_states r a s b m ≡ decided same) ↔ Agree m a b
judge_states-same_iff m r s a b = (judge_states-same m r s a b, Agree-judge_states m r s a b)

Refines : Judgement → Judgement → SideState → SideState → Type 0
Refines cheap thorough a b =
    (cheap ≡ thorough) ⊎ ((cheap ≡ decided same) × (thorough ≡ by_content) × Agree metadata a b)

judge_files-Refines :
    (s t : Option ℕ) (a b : Option Mtime)
    → Refines (judge_files s a t b metadata) (judge_files s a t b content) (file s a) (file t b)
unfolding judge_files Refines
judge_files-Refines (some s) (some t) (some a) (some b) = elim (Bool-cases (s == t)) [
  | inl same_size ↦ elim (Bool-cases (same_time a b)) [
    | inl agree ↦ inr (ground arith, ground arith, files s a b refl (ground arith) refl agree)
    | inr differ ↦ inl (ground arith)
  ]
  | inr differ ↦ inl (ground arith)
]
judge_files-Refines (some s) (some t) none b = inl refl
judge_files-Refines (some s) (some t) (some a) none = inl refl
judge_files-Refines none t a b = inl refl
judge_files-Refines (some s) none a b = inl refl

-- Comparing by metadata changes the judgement of no pair but one: two files that the thorough
-- method leaves to their contents may be found the same, and then they have one known size and
-- times that agree.
pub judge_states-metadata :
    (r s : Role) (a b : SideState)
    → (judge_states r a s b metadata ≡ judge_states r a s b content)
      ⊎ ((judge_states r a s b metadata ≡ decided same)
          × (judge_states r a s b content ≡ by_content)
          × Agree metadata a b)
unfolding judge_states Refines
judge_states-metadata r s (file x a) (file y b) = judge_files-Refines x y a b
judge_states-metadata r s _ _ = inl (ground arith)

close_of_div : (a b u : ℕ) → 0 < u → a / u ≡ b / u → a < b + u
close_of_div a b u p h = omega (arith, ap (λ (t : ℕ). u * t) h)

-- Times that agree are of the same second, both finer than a second, and less than one unit of the
-- coarser of the two precisions apart.
pub same_time_close :
    (a b : Mtime)
    → same_time a b ≡ true
    → let unit = 10 ^ (9 - min (min a.digits b.digits) 9) in
      (0 < a.digits)
      × (0 < b.digits)
      × (a.secs ≡ b.secs)
      × (a.nanos < b.nanos + unit)
      × (b.nanos < a.nanos + unit)
unfolding same_time
same_time_close a b h =
    let unit = 10 ^ (9 - min (min a.digits b.digits) 9) in
    let unit_pos : 0 < unit = one-le-pow (9 - min (min a.digits b.digits) 9) 10 (omega arith) in
    let same_unit : a.nanos / unit ≡ b.nanos / unit = ground arith in
    (
      ground arith,
      ground arith,
      ground arith,
      close_of_div a.nanos b.nanos unit unit_pos same_unit,
      close_of_div b.nanos a.nanos unit unit_pos (sym same_unit),
    )
