-- ===== src/Diff/Conflict/Order.antt =====
-- Changes in the order of the reference, each with consecutive numbers of the lines that it inserts.
use remote_merge.Prelude.{
  ℕ, suc, zero, ◌+◌, ◌≤◌, ◌<◌, List, [], ◌∷◌, ◌==◌, nat_eq, list_eq, ltb, length, ◌≡◌, arith, inl,
  inr, Bool-cases,
}
use remote_merge.Diff.Conflict.{ChangeInfo, Changes, put}

-- `count` numbers from `from` on.
unfoldable pub count_up : (from count : ℕ) → List ℕ
count_up from zero = []
count_up from (suc count) = from ∷ count_up (suc from) count

-- The changes stand at `a` or later, none behind `o`, in ascending order. Their lines have
-- ascending numbers from `lo` on, all below `n`, and those of one change are consecutive.
abbrev pub InOrder : (a lo : ℕ) → Changes → (o n : ℕ) → Type 0
InOrder a lo [] o n = lo ≤ n
InOrder a lo ((k, info) ∷ rest) o n =
    (m : ℕ) × (a ≤ k)
    × (k ≤ o)
    × (lo ≤ m)
    × (info.file_lines ≡ count_up m (length info.replacement))
    × InOrder (suc k) (m + length info.replacement) rest o n

pub InOrder-wider :
    (a lo : ℕ) (cs : Changes) (o n o' n' : ℕ)
    → o ≤ o'
    → n ≤ n'
    → InOrder a lo cs o n
    → InOrder a lo cs o' n'
InOrder-wider a lo [] o n o' n' p q h = omega arith
InOrder-wider a lo ((k, info) ∷ rest) o n o' n' p q (m, b, c, d, e, h) =
    (m, b, omega arith, d, e, InOrder-wider (suc k) _ rest o n o' n' p q h)

InOrder-bound : (a lo : ℕ) (cs : Changes) (o n : ℕ) → InOrder a lo cs o n → lo ≤ n
InOrder-bound a lo [] o n h = h
InOrder-bound a lo ((k, info) ∷ rest) o n (m, b, c, d, e, h) =
    omega (arith, InOrder-bound (suc k) (m + length info.replacement) rest o n h)

-- A change that is put at the last place, with the next numbers, is the last one.
pub put-InOrder :
    (a lo : ℕ) (cs : Changes) (o n : ℕ) (info : ChangeInfo)
    → a ≤ o
    → info.file_lines ≡ count_up n (length info.replacement)
    → InOrder a lo cs o n
    → InOrder a lo (put o info cs) o (n + length info.replacement)
unfolding put
put-InOrder a lo [] o n info p q h = (n, p, omega arith, h, q, omega arith)
put-InOrder a lo ((j, old) ∷ rest) o n info p q (m, b, c, d, e, h) = elim (Bool-cases (ltb o j)) [
  | inl below ↦ absurd (ground arith)
  | inr not_below ↦ elim (Bool-cases (o == j)) [
    | inl here ↦
        rw (not_below, here)
          (
            n,
            p,
            omega arith,
            omega (arith, InOrder-bound (suc j) (m + length old.replacement) rest o n h),
            q,
            none_behind rest (suc j) (m + length old.replacement) (ground arith) h,
          )
    | inr above ↦
        rw (not_below, above)
          (
            m,
            b,
            c,
            d,
            e,
            put-InOrder (suc j) (m + length old.replacement) rest o n info (ground arith) q h,
          )
  ]
]
  where
    none_behind :
        (rest : Changes) (a lo : ℕ)
        → o < a
        → InOrder a lo rest o n
        → InOrder (suc o) (n + length info.replacement) rest o (n + length info.replacement)
    none_behind [] a lo p h = omega arith
    none_behind ((k, i) ∷ rest) a lo p (m, b, c, d, e, h) = absurd (omega arith)
