-- ===== src/Prelude/Lists.antt =====
-- Lists measured and indexed by native numbers, under the library's names.
use Prim.Native.Nat.{ℕ, zero, suc, ◌+◌, ◌-◌, ◌≤◌, min}
use native.Mathlib.Nat.{zero-add, add-zero, suc-add}
use mathlib.Core.Path.{◌≡◌, refl, sym, subst}
use mathlib.Core.Bool.{Bool, true, false, ◌&&◌, ◌||◌}
use mathlib.Core.List.{List, [], ◌∷◌, ◌++◌}
use mathlib.Core.Option.{Option, none, some}
use mathlib.Core.Logic.{◌⊎◌, inl, inr}
use native.Mathlib.Omega.{arith}

module _ {ℓ} {A : Type ℓ} where
  abbrev pub length : List A → ℕ
  length [] = 0
  length (x ∷ xs) = suc (length xs)

  abbrev pub get_elem? : List A → ℕ → Option A
  get_elem? [] i = none
  get_elem? (x ∷ xs) zero = some x
  get_elem? (x ∷ xs) (suc i) = get_elem? xs i

  abbrev pub take : ℕ → List A → List A
  take zero xs = []
  take (suc n) [] = []
  take (suc n) (x ∷ xs) = x ∷ take n xs

  abbrev pub drop : ℕ → List A → List A
  drop zero xs = xs
  drop (suc n) [] = []
  drop (suc n) (x ∷ xs) = drop n xs

  abbrev pub any : (A → Bool) → List A → Bool
  any p [] = false
  any p (x ∷ xs) = p x || any p xs

  abbrev pub all : (A → Bool) → List A → Bool
  all p [] = true
  all p (x ∷ xs) = p x && all p xs

  abbrev pub filter : (A → Bool) → List A → List A
  filter p [] = []
  filter p (x ∷ xs) = let rest = filter p xs in elim (p x) [ true ↦ x ∷ rest | false ↦ rest ]

  -- Every item satisfies the predicate.
  abbrev pub All {κ} : (A → Type κ) → List A → Type κ
  All P [] = Unit
  All P (x ∷ xs) = P x × All P xs

  -- The lists are as long, and their items are related place by place.
  abbrev pub All₂ {κ} : {B : Type κ} → (A → B → Type 0) → List A → List B → Type 0
  All₂ R [] [] = Unit
  All₂ R (x ∷ xs) (y ∷ ys) = R x y × All₂ R xs ys
  All₂ R _ _ = ⊥

  pub length-append : (xs ys : List A) → length (xs ++ ys) ≡ length xs + length ys
  length-append [] ys = omega arith
  length-append (x ∷ xs) ys = omega (arith, length-append xs ys)

  pub take-append-drop : (n : ℕ) (xs : List A) → take n xs ++ drop n xs ≡ xs
  take-append-drop zero xs = refl
  take-append-drop (suc n) [] = refl
  take-append-drop (suc n) (x ∷ xs) = rw (take-append-drop n xs)

  pub All₂-map {κ} :
      {B : Type κ} (R S : A → B → Type 0)
      → ((x : A) (y : B) → R x y → S x y)
      → (xs : List A) (ys : List B) → All₂ R xs ys
      → All₂ S xs ys
  All₂-map R S keep [] [] h = tt
  All₂-map R S keep (x ∷ xs) (y ∷ ys) (r, rs) = (keep x y r, All₂-map R S keep xs ys rs)
  All₂-map R S keep [] (y ∷ ys) h = absurd h
  All₂-map R S keep (x ∷ xs) [] h = absurd h

  pub any-append :
      (p : A → Bool) (xs ys : List A)
      → any p (xs ++ ys) ≡ true
      → (any p xs ≡ true) ⊎ (any p ys ≡ true)
  any-append p [] ys h = inr h
  any-append p (x ∷ xs) ys h = ground (arith, any-append p xs ys)

  pub All-append {κ} : (P : A → Type κ) (xs ys : List A) → All P xs → All P ys → All P (xs ++ ys)
  All-append P [] ys hx hy = hy
  All-append P (x ∷ xs) ys (h, hx) hy = (h, All-append P xs ys hx hy)

  pub length-drop : (n : ℕ) (xs : List A) → length (drop n xs) ≡ length xs - n
  length-drop zero xs = omega arith
  length-drop (suc n) [] = omega arith
  length-drop (suc n) (x ∷ xs) = omega (arith, length-drop n xs)

  pub length-take : (n : ℕ) (xs : List A) → length (take n xs) ≡ min n (length xs)
  length-take zero xs = omega arith
  length-take (suc n) [] = omega arith
  length-take (suc n) (x ∷ xs) = omega (arith, length-take n xs)

  pub drop-drop : (m n : ℕ) (xs : List A) → drop m (drop n xs) ≡ drop (n + m) xs
  drop-drop m zero xs = rw zero-add
  drop-drop zero (suc n) [] = rw add-zero
  drop-drop (suc m) (suc n) [] = rw suc-add
  drop-drop m (suc n) (x ∷ xs) = rw suc-add (drop-drop m n xs)

  -- Two stretches side by side are one.
  pub take-take-drop : (m n : ℕ) (xs : List A) → take m xs ++ take n (drop m xs) ≡ take (m + n) xs
  take-take-drop zero n xs = rw zero-add
  take-take-drop (suc m) zero [] = rw add-zero
  take-take-drop (suc m) (suc n) [] = rw suc-add
  take-take-drop (suc m) n (x ∷ xs) = rw (suc-add, take-take-drop m n xs)

  pub take-length_le : (n : ℕ) (xs : List A) → length xs ≤ n → take n xs ≡ xs
  take-length_le zero [] h = refl
  take-length_le zero (x ∷ xs) h = absurd (omega arith)
  take-length_le (suc n) [] h = refl
  take-length_le (suc n) (x ∷ xs) h = rw (take-length_le n xs (omega arith))

  pub All-map {κ μ} :
      (P : A → Type κ) (Q : A → Type μ)
      → ((x : A) → P x → Q x)
      → (xs : List A) → All P xs
      → All Q xs
  All-map P Q keep [] h = tt
  All-map P Q keep (x ∷ xs) (h, hs) = (keep x h, All-map P Q keep xs hs)

  pub All-both {κ μ ν} :
      (P : A → Type κ) (Q : A → Type μ) (R : A → Type ν)
      → ((x : A) → P x → Q x → R x)
      → (xs : List A) → All P xs
      → All Q xs
      → All R xs
  All-both P Q R both [] p q = tt
  All-both P Q R both (x ∷ xs) (p, ps) (q, qs) = (both x p q, All-both P Q R both xs ps qs)

  pub All-every {κ} : (P : A → Type κ) → ((x : A) → P x) → (xs : List A) → All P xs
  All-every P every [] = tt
  All-every P every (x ∷ xs) = (every x, All-every P every xs)

  pub All-split {κ} : (P : A → Type κ) (xs ys : List A) → All P (xs ++ ys) → All P xs × All P ys
  All-split P [] ys h = (tt, h)
  All-split P (x ∷ xs) ys (h, hs) = let (a, b) = All-split P xs ys hs in ((h, a), b)

  -- Some item satisfies the predicate.
  abbrev pub Some : (A → Type 0) → List A → Type 0
  Some P [] = ⊥
  Some P (x ∷ xs) = P x ⊎ Some P xs

  pub Some-map :
      (P : A → Type 0) (Q : A → Type 0)
      → ((x : A) → P x → Q x)
      → (xs : List A) → Some P xs
      → Some Q xs
  Some-map P Q keep [] h = absurd h
  Some-map P Q keep (x ∷ xs) (inl h) = inl (keep x h)
  Some-map P Q keep (x ∷ xs) (inr h) = inr (Some-map P Q keep xs h)

  pub Some-append_left : (P : A → Type 0) (xs ys : List A) → Some P xs → Some P (xs ++ ys)
  Some-append_left P [] ys h = absurd h
  Some-append_left P (x ∷ xs) ys (inl h) = inl h
  Some-append_left P (x ∷ xs) ys (inr h) = inr (Some-append_left P xs ys h)

  pub Some-append_right : (P : A → Type 0) (xs ys : List A) → Some P ys → Some P (xs ++ ys)
  Some-append_right P [] ys h = h
  Some-append_right P (x ∷ xs) ys h = inr (Some-append_right P xs ys h)

module _ {A : Type 0} where
  -- The item is in the list.
  abbrev pub Has : List A → A → Type 0
  Has ys x = Some (λ y. y ≡ x) ys

  pub Some-Has : (P : A → Type 0) (xs ys : List A) → All (Has ys) xs → Some P xs → Some P ys
  Some-Has P [] ys h s = absurd s
  Some-Has P (x ∷ xs) ys (h, hs) (inl p) = Some-map (λ y. y ≡ x) P (λ y e. subst P (sym e) p) ys h
  Some-Has P (x ∷ xs) ys (h, hs) (inr s) = Some-Has P xs ys hs s
