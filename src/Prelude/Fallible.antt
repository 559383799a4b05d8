-- ===== src/Prelude/Fallible.antt =====
-- Rust's `Result`, with `?` as bind.
use mathlib.Core.Path.{◌≡◌, refl}
use mathlib.Core.List.{List, [], ◌∷◌}
use mathlib.Core.Logic.{◌⊎◌, inl, inr}
use native.Mathlib.Omega.{arith}
use remote_merge.Prelude.Lists.{All, All₂}

pub data Result {ℓ κ} (E : Type ℓ) (A : Type κ) : Type (ℓ ⊔ κ) where
  ok : A → Result E A
  err : E → Result E A

infixl 5 ◌>>=◌
abbrev pub ◌>>=◌ {ℓ κ μ} :
    {E : Type ℓ} {A : Type κ} {B : Type μ} → Result E A → (A → Result E B) → Result E B
ok a >>= f = f a
err e >>= f = err e

-- `iter.map(f).collect::<Result<Vec<_>, _>>()`: stops at the first error.
abbrev pub collect {ℓ κ μ} :
    {E : Type ℓ} {A : Type κ} {B : Type μ} → (A → Result E B) → List A → Result E (List B)
collect f [] = ok []
collect f (x ∷ xs) = do b ← f x; bs ← collect f xs; ok (b ∷ bs)

pub Result-cases {ℓ κ} :
    {E : Type ℓ} {A : Type κ} (r : Result E A) → ((a : A) × (r ≡ ok a)) ⊎ ((e : E) × (r ≡ err e))
Result-cases (ok a) = inl (a, refl)
Result-cases (err e) = inr (e, refl)

module _ {ℓ κ μ} {E : Type ℓ} {A : Type κ} {B : Type μ} (f : A → Result E B) where
  -- The loop succeeds where every item does.
  pub collect_total :
      (xs : List A) → All (λ x. (b : B) × (f x ≡ ok b)) xs → (bs : List B) × (collect f xs ≡ ok bs)
  collect_total [] h = ([], refl)
  collect_total (x ∷ xs) ((b, e), h) = let (bs, es) = collect_total xs h in (b ∷ bs, ground arith)

-- The results stand for the items, place by place.
pub collect-All₂ :
    {E A B : Type 0} (f : A → Result E B) (xs : List A) (bs : List B)
    → collect f xs ≡ ok bs
    → All₂ (λ x b. f x ≡ ok b) xs bs
collect-All₂ f [] [] h = tt
collect-All₂ f [] (b ∷ bs) h = absurd (ground arith)
collect-All₂ f (x ∷ xs) bs h = elim (Result-cases (f x)) [
  | inr (e, p) ↦ absurd (ground arith)
  | inl (b, p) ↦ elim (Result-cases (collect f xs)) [
    | inr (e, q) ↦ absurd (ground arith)
    | inl (cs, q) ↦ let eq : bs ≡ b ∷ cs = ground arith in rw eq (p, collect-All₂ f xs cs q)
  ]
]

-- What a chain returns, both parts of it returned.
pub bind-ok {ℓ κ μ} :
    {E : Type ℓ} {A : Type κ} {B : Type μ} (r : Result E A) (f : A → Result E B) (b : B)
    → r >>= f ≡ ok b
    → (a : A) × (r ≡ ok a) × (f a ≡ ok b)
bind-ok (ok a) f b h = (a, refl, h)
bind-ok (err e) f b h = absurd (ground arith)

-- What holds of a result holds of whatever the call is said to return.
pub returned {ℓ κ μ} :
    {E : Type ℓ} {A : Type κ} (P : A → Type μ) (r : Result E A) (a b : A)
    → r ≡ ok a
    → r ≡ ok b
    → P a
    → P b
returned P r a b p q x = let e : a ≡ b = ground arith in rw e at x

-- What is returned, where anything is, has the property.
abbrev pub Returns {ℓ κ μ} : {E : Type ℓ} {A : Type κ} → (A → Type μ) → Result E A → Type μ
Returns P (ok a) = P a
Returns P (err e) = Unit
