-- ===== src/Paths/Ancestors.antt =====
-- What lies below what, and the parents of an entry.
use remote_merge.Prelude.{
  ℕ, zero, suc, ◌≤◌, ◌<◌, Bool, true, false, ◌&&◌, ◌||◌, List, [], ◌∷◌, ◌++◌, map, some, ok, ◌==◌,
  nat_eq, list_eq, length, any, ◌≡◌, refl, ap, arith, Bool-cases, Option-cases, Result-cases, inl,
  inr, All,
}
use remote_merge.Text.{Bytes, slash, split, strip_prefix, rsplit_once, trim_end}
use remote_merge.Paths.{
  RelPath, EntryPath, as_str, parent_and_name, entry_of_rel, is_below, ancestors, names_something,
  parents_from, parent_entries,
}

any-cons :
    (c b : ℕ) (bs : Bytes) (ps : List Bytes)
    → any (λ p. p == (b ∷ bs)) (map (λ p. c ∷ p) ps) ≡ ((c == b) && any (λ p. p == bs) ps)
any-cons c b bs [] = ground arith
any-cons c b bs (p ∷ ps) = ground (arith, any-cons c b bs ps)

any-cons-nil : (c : ℕ) (ps : List Bytes) → any (λ p. p == []) (map (λ p. c ∷ p) ps) ≡ false
any-cons-nil c [] = refl
any-cons-nil c (p ∷ ps) = ground (arith, any-cons-nil c ps)

any-both : (p : Bytes → Bool) (xs ys : List Bytes) → any p (xs ++ ys) ≡ (any p xs || any p ys)
any-both p [] ys = refl
any-both p (x ∷ xs) ys = ground (arith, any-both p xs ys)

-- A path lies below another exactly if the other is one of its ancestors.
pub is_below-ancestors :
    (path base : Bytes) → is_below path base ≡ any (λ ancestor. ancestor == base) (ancestors path)
unfolding is_below ancestors strip_prefix
is_below-ancestors [] [] = ground arith
is_below-ancestors [] (b ∷ bs) = ground arith
is_below-ancestors (c ∷ cs) [] = rw (any-both, any-cons-nil c (ancestors cs)) (ground arith)
is_below-ancestors (c ∷ cs) (b ∷ bs) =
    rw (any-both, any-cons c b bs (ancestors cs)) (ground (arith, is_below-ancestors cs bs))

-- The path has an element that stands for something.
pub IsEntry : EntryPath → Type 0
IsEntry p = any names_something (split slash p.rel.typed) ≡ true

rsplit_once-lt :
    (sep : ℕ) (text before after : Bytes)
    → rsplit_once sep text ≡ some (before, after)
    → length before < length text
unfolding rsplit_once
rsplit_once-lt sep [] before after h = absurd (ground arith)
rsplit_once-lt sep (c ∷ cs) before after h = elim (Option-cases (rsplit_once sep cs)) [
  | inl e ↦ ground arith
  | inr ((front, back), e) ↦
      let shorter = rsplit_once-lt sep cs front back e in
      let same_front : c ∷ front ≡ before = ground arith in omega (arith, ap length same_front)
]

trim_end-le : (sep : ℕ) (text : Bytes) → length (trim_end sep text) ≤ length text
unfolding trim_end
trim_end-le sep [] = omega arith
trim_end-le sep (c ∷ cs) = ground (arith, trim_end-le sep cs)

as_str-le : (p : RelPath) → length (as_str p) ≤ length p.typed
unfolding as_str
as_str-le p = ground (arith, trim_end-le slash p.typed)

not_empty : (text : Bytes) → any names_something (split slash text) ≡ true → 0 < length text
unfolding split
not_empty [] h = absurd (ground arith)
not_empty (c ∷ cs) h = omega arith

parent_shorter_of :
    (p : RelPath) → 0 < length p.typed → length (parent_and_name p).0.typed < length p.typed
unfolding parent_and_name
parent_shorter_of p b = elim (Option-cases (rsplit_once slash (as_str p))) [
  | inl e ↦ ground arith
  | inr ((front, back), e) ↦
      ground (arith, rsplit_once-lt slash (as_str p) front back e, as_str-le p)
]

parent-le : (p : RelPath) → length (parent_and_name p).0.typed ≤ length p.typed
unfolding parent_and_name
parent-le p = elim (Option-cases (rsplit_once slash (as_str p))) [
  | inl e ↦ ground arith
  | inr ((front, back), e) ↦
      ground (arith, rsplit_once-lt slash (as_str p) front back e, as_str-le p)
]

parent_shorter :
    (p : RelPath) (q : EntryPath)
    → entry_of_rel p ≡ ok q
    → IsEntry q × (length (parent_and_name q.rel).0.typed < length p.typed)
unfolding entry_of_rel IsEntry
parent_shorter p q h = elim (Bool-cases (any names_something (split slash p.typed))) [
  | inl e ↦
      let same_path : p ≡ q.rel = ground arith in
      rw (← same_path) (e, parent_shorter_of p (not_empty p.typed e))
  | inr e ↦ absurd (ground arith)
]

parents_from_total :
    (fuel : ℕ) (current : RelPath) (found : List EntryPath)
    → length current.typed < fuel
    → All IsEntry found
    → (parents : List EntryPath) × (parents_from fuel current found ≡ some parents)
      × All IsEntry parents
unfolding parents_from
parents_from_total zero current found b a = absurd (omega arith)
parents_from_total (suc fuel) current found b a = elim (Result-cases (entry_of_rel current)) [
  | inr (e, h) ↦ (found, ground arith, a)
  | inl (q, h) ↦
      let (entry, shorter) = parent_shorter current q h in
      let (parents, e, entries) =
        parents_from_total fuel (parent_and_name q.rel).0 (q ∷ found) (omega arith) (entry, a) in
      (parents, rw (parents_from, h) e, entries)
]

-- The loop of `parent_entries` ends, and every parent it gives is an entry.
pub parent_entries_total :
    (p : EntryPath)
    → (parents : List EntryPath) × (parent_entries p ≡ some parents) × All IsEntry parents
unfolding parent_entries
parent_entries_total p =
    parents_from_total (suc (length p.rel.typed)) (parent_and_name p.rel).0 []
      (omega (arith, parent-le p.rel)) tt
