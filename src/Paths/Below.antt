-- ===== src/Paths/Below.antt =====
-- Lying below is transitive.
use remote_merge.Prelude.{
  true, [], ◌∷◌, ◌++◌, some, ◌==◌, nat_eq, ◌≡◌, ap, ◌∙◌, arith, Bool-cases, Option-cases, inl, inr,
}
use mathlib.Core.List.{append_assoc}
use remote_merge.Text.{Bytes, slash, starts_with, strip_prefix}
use remote_merge.Paths.{is_below}

pub strip_prefix-append : (base rest : Bytes) → strip_prefix (base ++ rest) base ≡ some rest
unfolding strip_prefix
strip_prefix-append [] rest = ground arith
strip_prefix-append (b ∷ bs) rest = ground (arith, strip_prefix-append bs rest)

pub append-of_strip_prefix :
    (text base rest : Bytes) → strip_prefix text base ≡ some rest → text ≡ base ++ rest
unfolding strip_prefix
append-of_strip_prefix [] [] rest h = ground arith
append-of_strip_prefix (c ∷ cs) [] rest h = ground arith
append-of_strip_prefix [] (b ∷ bs) rest h = absurd (ground arith)
append-of_strip_prefix (c ∷ cs) (b ∷ bs) rest h = elim (Bool-cases (c == b)) [
  | inl e ↦
      let same_byte : c ≡ b = ground arith in
      let tail : cs ≡ bs ++ rest = append-of_strip_prefix cs bs rest (ground arith) in cc
  | inr e ↦ absurd (ground arith)
]

starts_with-append : (s r : Bytes) → starts_with slash s ≡ true → starts_with slash (s ++ r) ≡ true
starts_with-append [] r h = absurd (ground arith)
starts_with-append (c ∷ cs) r h = h

-- What lies below a path lies below whatever that path lies below.
pub is_below_trans :
    (path middle base : Bytes)
    → is_below path middle ≡ true
    → is_below middle base ≡ true
    → is_below path base ≡ true
unfolding is_below
is_below_trans path middle base h k = elim (Option-cases (strip_prefix path middle)) [
  | inl e ↦ absurd (ground arith)
  | inr (r, e) ↦ elim (Option-cases (strip_prefix middle base)) [
    | inl g ↦ absurd (ground arith)
    | inr (s, g) ↦
        let whole : path ≡ base ++ (s ++ r) =
          append-of_strip_prefix path middle r e
          ∙ ap (λ (t : Bytes). t ++ r) (append-of_strip_prefix middle base s g)
          ∙ append_assoc base s r in
        let found : strip_prefix path base ≡ some (s ++ r) =
          rw whole (strip_prefix-append base (s ++ r)) in
        rw (is_below, found) (starts_with-append s r (ground arith))
  ]
]
