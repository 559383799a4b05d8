-- ===== src/Diff/Conflict/Clash.antt =====
-- When two changes of the same reference clash, described by the places that they touch.
use remote_merge.Prelude.{
  ℕ, suc, ◌+◌, ◌≤◌, ◌<◌, min, max, true, false, List, ◌==◌, nat_eq, list_eq, ◌≡◌, ◌≢◌, arith, inl,
  inr, Bool-cases,
}
use remote_merge.Text.{Bytes}
use remote_merge.Content.{Range}
use remote_merge.Diff.Conflict.{ChangeInfo, overlaps, change_end, clash}

-- The change touches the place `p` of the reference: a line that it deletes, or where it deletes
-- none the place where it inserts.
abbrev pub Touches : ℕ × ChangeInfo → ℕ → Type 0
Touches (start, info) p = (start ≤ p) × (p < max (start + info.ref_line_count) (suc start))

-- Two changes touch a common place and put different lines there.
pub record Clash (l r : ℕ × ChangeInfo) : Type 0 where
  pub place : ℕ
  pub left_touches : Touches l place
  pub right_touches : Touches r place
  pub differ : l.1.replacement ≢ r.1.replacement

abbrev pub Inside : Range → Range → Type 0
Inside inner outer = (outer.start ≤ inner.start) × (inner.end ≤ outer.end)

-- The smallest range with both changes.
abbrev pub hull : ℕ × ChangeInfo → ℕ × ChangeInfo → Range
hull l r = record { start = min l.0 r.0; end = max (change_end l) (change_end r) }

overlaps-touch :
    (a m b n : ℕ)
    → overlaps a (a + m) b (b + n) ≡ true
    → (a ≤ max a b)
      × (max a b < max (a + m) (suc a))
      × (b ≤ max a b)
      × (max a b < max (b + n) (suc b))
unfolding overlaps
overlaps-touch a m b n h = ground arith

touch-overlaps :
    (a m b n p : ℕ)
    → (a ≤ p) × (p < max (a + m) (suc a))
    → (b ≤ p) × (p < max (b + n) (suc b))
    → overlaps a (a + m) b (b + n) ≡ true
unfolding overlaps
touch-overlaps a m b n p h k = ground arith

same_lines : (a b : List Bytes) → (a == b) ≡ true → a ≡ b
same_lines a b h = ground arith

other_lines : (a b : List Bytes) → (a == b) ≡ false → a ≢ b
other_lines a b h e = ground arith

pub clash-Clash : (l r : ℕ × ChangeInfo) → clash l r ≡ true → Clash l r
unfolding clash
clash-Clash (a, i) (b, j) h =
    let meet : overlaps a (a + i.ref_line_count) b (b + j.ref_line_count) ≡ true = ground arith in
    let other : (i.replacement == j.replacement) ≡ false = ground arith in
    let (p, q, s, t) = overlaps-touch a i.ref_line_count b j.ref_line_count meet in
    record {
      place = max a b;
      left_touches = (p, q);
      right_touches = (s, t);
      differ = other_lines i.replacement j.replacement other;
    }

pub Clash-clash : (l r : ℕ × ChangeInfo) → Clash l r → clash l r ≡ true
unfolding clash
Clash-clash (a, i) (b, j) c =
    let meet =
      touch-overlaps a i.ref_line_count b j.ref_line_count c.place c.left_touches c.right_touches in
    elim (Bool-cases (i.replacement == j.replacement)) [
      | inl e ↦ absurd (c.differ (same_lines i.replacement j.replacement e))
      | inr e ↦ rw (meet, e)
    ]
