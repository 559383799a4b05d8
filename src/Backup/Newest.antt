-- ===== src/Backup/Newest.antt =====
-- The id of the next session is newer than all those of the same second.
use remote_merge.Prelude.{
  ℕ, zero, suc, ◌≤◌, ◌<◌, max, List, [], ◌∷◌, ◌++◌, Option, none, some, ok, length, length-append,
  take, drop, All, All-map, ◌==◌, nat_eq, list_eq, ◌≡◌, ◌≢◌, ◌⊎◌, refl, ap, arith, Bool-cases,
  Result-cases, inl, inr,
}
use mathlib.Core.List.{append-nil}
use remote_merge.Text.{Bytes}
use remote_merge.Backup.{
  u64_max, decimal, get_to, get_from, sequence_of, next_sequence, name_session, larger, SessionId,
  session_of, parse_session_id, with_sequence, last_sequence, next_session_id,
}
use remote_merge.Backup.Decimal.{parse_u64-decimal}

take-append : {A : Type 0} (n : ℕ) (xs ys : List A) → length xs ≡ n → take n (xs ++ ys) ≡ xs
take-append zero [] ys h = refl
take-append zero (x ∷ xs) ys h = absurd (omega arith)
take-append (suc n) [] ys h = absurd (omega arith)
take-append (suc n) (x ∷ xs) ys h = ap (λ (l : List _). x ∷ l) (take-append n xs ys (omega arith))

drop-append : {A : Type 0} (n : ℕ) (xs ys : List A) → length xs ≡ n → drop n (xs ++ ys) ≡ ys
drop-append zero [] ys h = refl
drop-append zero (x ∷ xs) ys h = absurd (omega arith)
drop-append (suc n) [] ys h = absurd (omega arith)
drop-append (suc n) (x ∷ xs) ys h = drop-append n xs ys (omega arith)

-- What may follow the time in an id: nothing, or a dash.
abbrev Follows : Bytes → Type 0
Follows [] = Unit
Follows (c ∷ cs) = c ≡ b'-'

get_to-time : (ts rest : Bytes) → length ts ≡ 15 → Follows rest → get_to 15 (ts ++ rest) ≡ some ts
unfolding get_to
get_to-time ts [] h f =
    rw (take-append 15 ts [] h, drop-append 15 ts [] h) (ground (arith, length-append ts []))
get_to-time ts (c ∷ cs) h f =
    rw (take-append 15 ts (c ∷ cs) h, drop-append 15 ts (c ∷ cs) h)
      (ground (arith, length-append ts (c ∷ cs)))

get_from-time :
    (ts rest : Bytes) → length ts ≡ 15 → Follows rest → get_from 15 (ts ++ rest) ≡ some rest
unfolding get_from
get_from-time ts [] h f = rw (drop-append 15 ts [] h) (ground (arith, length-append ts []))
get_from-time ts (c ∷ cs) h f =
    rw (drop-append 15 ts (c ∷ cs) h) (ground (arith, length-append ts (c ∷ cs)))

module _ {Time : Type 0} (parse : Bytes → Option Time) where
  parse_session_id-parts :
      (ts rest : Bytes) (t : Time) (sequence : ℕ)
      → length ts ≡ 15
      → Follows rest
      → parse ts ≡ some t
      → sequence_of (some rest) ≡ some sequence
      → (2 ≤ sequence) ⊎ (length rest ≡ 0)
      → parse_session_id parse (ts ++ rest) ≡ some (record { timestamp = t; sequence = sequence })
  unfolding parse_session_id session_of
  parse_session_id-parts ts rest t sequence h f p s n =
      let front = get_to-time ts rest h f in
      let behind = get_from-time ts rest h f in ground (arith, length-append ts rest)

  -- The id that a time and a number are written as is read back.
  parse_session_id-name :
      (ts : Bytes) (t : Time) (sequence : ℕ)
      → length ts ≡ 15
      → parse ts ≡ some t
      → 1 ≤ sequence
      → sequence ≤ u64_max
      → parse_session_id parse (name_session ts sequence)
        ≡ some (record { timestamp = t; sequence = sequence })
  unfolding name_session sequence_of nat_eq
  parse_session_id-name ts t sequence h p low high = elim (Bool-cases (sequence == 1)) [
    | inl one ↦
        let e : sequence ≡ 1 = ground arith in
        let whole = parse_session_id-parts ts [] t 1 h tt p refl (inr refl) in
        rw e (rw append-nil at whole)
    | inr more ↦ rw more (
        parse_session_id-parts ts (b'-' ∷ decimal sequence) t sequence h refl p
          (parse_u64-decimal sequence high) (inl (ground arith)))
  ]

  module _ (format : Time → Bytes) (ts : Bytes) where
    -- If the id is of the second `ts`, then its number is at most the one found.
    abbrev AtMost : Option ℕ → Bytes → Type 0
    AtMost found id =
        (s : SessionId Time)
        → parse_session_id parse id ≡ some s
        → format s.timestamp ≡ ts
        → (m : ℕ) × (found ≡ some m) × (s.sequence ≤ m)

    with_sequence-own :
        (s : SessionId Time) (found : Option ℕ)
        → format s.timestamp ≡ ts
        → (m : ℕ) × (with_sequence parse format ts (some s) found ≡ some m) × (s.sequence ≤ m)
    unfolding with_sequence larger
    with_sequence-own s none e = (s.sequence, ground arith, omega arith)
    with_sequence-own s (some k) e = (max s.sequence k, ground arith, omega arith)

    with_sequence-others :
        (o : Option (SessionId Time)) (k : ℕ)
        → (m : ℕ) × (with_sequence parse format ts o (some k) ≡ some m) × (k ≤ m)
    unfolding with_sequence larger
    with_sequence-others none k = (k, refl, omega arith)
    with_sequence-others (some s) k = elim (Bool-cases (format s.timestamp == ts)) [
      | inl same ↦ (max s.sequence k, rw same, omega arith)
      | inr other ↦ (k, rw other, omega arith)
    ]

    last_sequence-AtMost : (ids : List Bytes) → All (AtMost (last_sequence parse format ts ids)) ids
    unfolding last_sequence
    last_sequence-AtMost [] = tt
    last_sequence-AtMost (id ∷ ids) = (
      λ s p e. rw p (with_sequence-own s (last_sequence parse format ts ids) e),
      All-map _ _
          (λ other known s p e.
            let (k, found, below) = known s p e in
            let (m, grown, above) = with_sequence-others (parse_session_id parse id) k in
            (m, rw found grown, omega arith))
          ids (last_sequence-AtMost ids),
    )

  next_sequence-ok :
      (found : Option ℕ) (sequence : ℕ)
      → next_sequence found ≡ ok sequence
      → (1 ≤ sequence) × (sequence ≤ u64_max) × ((m : ℕ) → found ≡ some m → m < sequence)
  unfolding next_sequence
  next_sequence-ok none sequence h = (ground arith, ground arith, λ m e. absurd (ground arith))
  next_sequence-ok (some k) sequence h = (ground arith, ground arith, λ m e. ground arith)

  -- Where the time is written in 15 bytes and read back as a time that is written the same, the id
  -- of the next session is read back with that time, and every id there is already of the same
  -- second has a smaller number: the new one is none of them.
  pub next_session_id-newest :
      (format : Time → Bytes) (now t : Time) (ids : List Bytes) (id : Bytes)
      → length (format now) ≡ 15
      → parse (format now) ≡ some t
      → format t ≡ format now
      → next_session_id parse format now ids ≡ ok id
      → (s : SessionId Time) × (parse_session_id parse id ≡ some s)
        × (s.timestamp ≡ t)
        × All
            (λ other.
              (other ≢ id)
              × ((o : SessionId Time)
                  → parse_session_id parse other ≡ some o
                  → format o.timestamp ≡ format now
                  → o.sequence < s.sequence))
            ids
  unfolding next_session_id
  next_session_id-newest format now t ids id h p same e =
      elim (Result-cases (next_sequence (last_sequence parse format (format now) ids))) [
        | inr (x, q) ↦ absurd (ground arith)
        | inl (sequence, q) ↦
            let (low, high, above) =
              next_sequence-ok (last_sequence parse format (format now) ids) sequence q in
            let named : id ≡ name_session (format now) sequence = ground arith in
            let own = parse_session_id-name (format now) t sequence h p low high in
            let own_id : parse_session_id parse id
                ≡ some (record { timestamp = t; sequence = sequence }) =
              rw named own in
            (
              record { timestamp = t; sequence = sequence },
              own_id,
              refl,
              All-map _ _
                  (λ other known. (
                    λ equal.
                        let (m, found, below) =
                          known (record { timestamp = t; sequence = sequence }) (rw equal own_id)
                            same in
                        let over = above m found in absurd (omega arith),
                    λ o read time.
                        let (m, found, below) = known o read time in
                        let over = above m found in omega arith,
                  ))
                  ids (last_sequence-AtMost format (format now) ids),
            )
      ]
