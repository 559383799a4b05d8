-- ===== src/Scan/Filter/Below.antt =====
-- What lies below an excluded directory is excluded.
use remote_merge.Prelude.{
  ℕ, zero, suc, ◌≤◌, Bool, true, false, not, ◌&&◌, ◌||◌, List, [], ◌∷◌, ◌++◌, ◌==◌, nat_eq, any,
  length, ◌≡◌, refl, sym, ap, ◌∙◌, arith, Bool-cases, inl, inr,
}
use mathlib.Core.List.{append_assoc}
use remote_merge.Text.{Bytes, slash, split, cons_head, is_empty}
use remote_merge.Scan.Filter.{
  between, char_length, escaped_byte, escape_from, escape_non_utf8, Exclude, is_path_excluded,
  any_prefix, excludes_text, excludes,
}

-- "/" is never inside a character.
char_length-append :
    (c : ℕ) (cs rel : Bytes) → char_length ((c ∷ cs) ++ slash ∷ rel) ≡ char_length (c ∷ cs)
unfolding char_length between
char_length-append c [] rel = ground arith
char_length-append c (c1 ∷ []) rel = ground arith
char_length-append c (c1 ∷ c2 ∷ []) rel = ground arith
char_length-append c (c1 ∷ c2 ∷ c3 ∷ cs) rel = refl

char_length-length : (c : ℕ) (cs : Bytes) → char_length (c ∷ cs) ≤ length (c ∷ cs)
unfolding char_length between
char_length-length c [] = ground arith
char_length-length c (c1 ∷ []) = ground arith
char_length-length c (c1 ∷ c2 ∷ []) = ground arith
char_length-length c (c1 ∷ c2 ∷ c3 ∷ cs) = ground arith

escape_from-append :
    (kept : ℕ) (base rel : Bytes)
    → kept ≤ length base
    → escape_from kept (base ++ slash ∷ rel) ≡ escape_from kept base ++ slash ∷ escape_from 0 rel
unfolding escape_from
escape_from-append zero [] rel h = refl
escape_from-append (suc kept) [] rel h = absurd (omega arith)
escape_from-append (suc kept) (c ∷ cs) rel h =
    ap (λ text. c ∷ text) (escape_from-append kept cs rel (omega arith))
escape_from-append zero (c ∷ cs) rel h =
    by_length (char_length (c ∷ cs)) refl (λ kept. escape_from-append kept cs rel)
  where
    by_length :
        (n : ℕ)
        → char_length (c ∷ cs) ≡ n
        → ((kept : ℕ)
            → kept ≤ length cs
            → escape_from kept (cs ++ slash ∷ rel)
              ≡ escape_from kept cs ++ slash ∷ escape_from 0 rel)
        → escape_from 0 ((c ∷ cs) ++ slash ∷ rel)
          ≡ escape_from 0 (c ∷ cs) ++ slash ∷ escape_from 0 rel
    by_length zero e f =
        let same : char_length ((c ∷ cs) ++ slash ∷ rel) ≡ 0 = char_length-append c cs rel ∙ e in
        rw (escape_from, same, e, f zero (omega arith))
          (sym (append_assoc (escaped_byte c) (escape_from 0 cs) (slash ∷ escape_from 0 rel)))
    by_length (suc more) e f =
        let same : char_length ((c ∷ cs) ++ slash ∷ rel) ≡ suc more =
          char_length-append c cs rel ∙ e in
        rw (escape_from, same, e)
          (ap (λ text. c ∷ text) (f more (omega (arith, e, char_length-length c cs))))

split-append : (a b : Bytes) → split slash (a ++ slash ∷ b) ≡ split slash a ++ split slash b
unfolding split nat_eq
split-append [] b = refl
split-append (c ∷ cs) b = elim (Bool-cases (c == slash)) [
  | inl e ↦ rw (e, split-append cs b) refl
  | inr e ↦ rw (e, split-append cs b) (cons_head-append (split slash cs) (split-some cs))
]
  where
    split-some : (a : Bytes) → is_empty (split slash a) ≡ false
    split-some [] = refl
    split-some (c ∷ cs) = ground (arith, split-some cs)

    cons_head-append :
        (xs : List Bytes)
        → is_empty xs ≡ false
        → cons_head c (xs ++ split slash b) ≡ cons_head c xs ++ split slash b
    cons_head-append [] h = absurd (ground arith)
    cons_head-append (x ∷ xs) h = refl

any-append_left :
    {A : Type 0} (p : A → Bool) (xs ys : List A) → any p xs ≡ true → any p (xs ++ ys) ≡ true
any-append_left p [] ys h = absurd (ground arith)
any-append_left p (x ∷ xs) ys h = elim (Bool-cases (p x)) [
  | inl e ↦ ground arith
  | inr e ↦ let rest = any-append_left p xs ys (ground arith) in ground arith
]

module _ (glob : Bytes → Bytes → Bool) where
  any_prefix-append :
      (test : Bytes → Bool) (front : Bytes) (xs ys : List Bytes)
      → any_prefix glob test front xs ≡ true
      → any_prefix glob test front (xs ++ ys) ≡ true
  unfolding any_prefix
  any_prefix-append test front [] ys h = absurd (ground arith)
  any_prefix-append test front (x ∷ xs) ys h =
      elim (Bool-cases (not (is_empty x) && test (front ++ x))) [
        | inl e ↦ rw e refl
        | inr e ↦ rw e (any_prefix-append test ((front ++ x) ++ slash ∷ []) xs ys (rw e at h))
      ]

  excludes_text-below :
      (exclude : Exclude) (base rel : Bytes)
      → excludes_text glob exclude base ≡ true
      → excludes_text glob exclude (base ++ slash ∷ rel) ≡ true
  unfolding excludes_text
  excludes_text-below exclude base rel h =
      let element = λ (element : Bytes).
        not (is_empty element) && is_path_excluded glob element exclude.segment_patterns in
      let prefix = λ (prefix : Bytes). is_path_excluded glob prefix exclude.path_patterns in
      elim (Bool-cases (any element (split slash base))) [
        | inl e ↦
            rw
              (
                split-append base rel,
                any-append_left element (split slash base) (split slash rel) e,
              )
              refl
        | inr e ↦
            let below : any_prefix glob prefix [] (split slash base ++ split slash rel) ≡ true =
              any_prefix-append prefix [] (split slash base) (split slash rel) (rw e at h) in
            rw (split-append base rel, below) (or_true _)
      ]
    where
      or_true : (b : Bool) → (b || true) ≡ true
      or_true true = refl
      or_true false = refl

  -- What lies below an excluded path is excluded, whatever bytes the names have.
  pub excludes-below :
      (exclude : Exclude) (base rel : Bytes)
      → excludes glob exclude base ≡ true
      → excludes glob exclude (base ++ slash ∷ rel) ≡ true
  unfolding excludes escape_non_utf8
  excludes-below exclude [] rel h = absurd (ground arith)
  excludes-below exclude (c ∷ cs) rel h =
      elim (Bool-cases
        (is_empty exclude.segment_patterns && is_empty exclude.path_patterns || false)) [
          | inl e ↦ absurd (ground arith)
          | inr e ↦
              rw (e, escape_from-append 0 (c ∷ cs) rel (omega arith))
                (excludes_text-below exclude (escape_from 0 (c ∷ cs)) (escape_from 0 rel)
                  (rw e at h))
        ]
