-- ===== src/Backup/Decimal.antt =====
-- A number of 64 bits is read back from its decimal digits.
use remote_merge.Prelude.{
  ℕ, zero, suc, ◌+◌, ◌-◌, ◌*◌, ◌/◌, ◌%◌, ◌≤◌, ◌<◌, false, [], ◌∷◌, ◌++◌, some, ltb, ◌==◌, nat_eq,
  ◌≡◌, refl, ◌∙◌, arith, Bool-cases, inl, inr,
}
use remote_merge.Text.{Bytes}
use remote_merge.Backup.{u64_max, is_digit, parse_digits, parse_u64, digits, decimal}

parse_digits-append :
    (value : ℕ) (xs ys : Bytes) (v : ℕ)
    → parse_digits value xs ≡ some v
    → parse_digits value (xs ++ ys) ≡ parse_digits v ys
unfolding parse_digits
parse_digits-append value [] ys v h = let e : value ≡ v = ground arith in rw e
parse_digits-append value (c ∷ cs) ys v h =
    ground (arith, parse_digits-append (value * 10 + (c - b'0')) cs ys v)

parse_digits-digit :
    (value d v : ℕ)
    → d < 10
    → value * 10 + d ≡ v
    → v ≤ u64_max
    → parse_digits value ((b'0' + d) ∷ []) ≡ some v
unfolding parse_digits is_digit
parse_digits-digit value d v h e k = ground arith

-- The numbers below this one have at most so many digits, but for zero of none.
limit : ℕ → ℕ
limit zero = 1
limit (suc places) = 10 * limit places

parse_digits-digits :
    (places n : ℕ)
    → n < limit places
    → 0 < n + places
    → n ≤ u64_max
    → parse_digits 0 (digits places n) ≡ some n
unfolding digits limit
parse_digits-digits zero n h pos k = absurd (omega arith)
parse_digits-digits (suc places) n h pos k = elim (Bool-cases (ltb n 10)) [
  | inl one ↦ rw one (parse_digits-digit 0 n n (ground arith) (omega arith) k)
  | inr more ↦
      let big : 10 ≤ n = ground arith in
      let front = parse_digits-digits places (n / 10) (omega arith) (omega arith) (omega arith) in
      rw more (
        parse_digits-append 0 (digits places (n / 10)) ((b'0' + n % 10) ∷ []) (n / 10) front
        ∙ parse_digits-digit (n / 10) (n % 10) n (omega arith) (omega arith) k)
]

-- The first digit is no sign.
digits-head :
    (places n : ℕ)
    → 0 < n + places
    → n < limit places
    → (d : ℕ) × (ds : Bytes) × (digits places n ≡ d ∷ ds) × ((d == b'+') ≡ false)
unfolding digits limit
digits-head zero n pos h = absurd (omega arith)
digits-head (suc places) n pos h = elim (Bool-cases (ltb n 10)) [
  | inl one ↦ (b'0' + n, [], rw one, ground arith)
  | inr more ↦
      let big : 10 ≤ n = ground arith in
      let (d, ds, e, plain) = digits-head places (n / 10) (omega arith) (omega arith) in
      (d, ds ++ (b'0' + n % 10) ∷ [], rw (more, e), plain)
]

decimal-digits : (n : ℕ) → decimal n ≡ digits 20 n
unfolding decimal
decimal-digits n = refl

below_limit : (n : ℕ) → n ≤ u64_max → n < limit 20
unfolding limit
below_limit n h = omega arith

plain_digits :
    (d : ℕ) (ds : Bytes) → (d == b'+') ≡ false → parse_u64 (d ∷ ds) ≡ parse_digits 0 (d ∷ ds)
unfolding parse_u64
plain_digits d ds h = rw h

-- Reading the decimal digits of a number of 64 bits gives the number.
pub parse_u64-decimal : (n : ℕ) → n ≤ u64_max → parse_u64 (decimal n) ≡ some n
parse_u64-decimal n h =
    let (d, ds, e, plain) = digits-head 20 n (omega arith) (below_limit n h) in
    let whole = parse_digits-digits 20 n (below_limit n h) (omega arith) h in
    rw (decimal-digits n, e) (plain_digits d ds plain ∙ (rw e at whole))
