-- ===== src/Scan/Walk/Counts.antt =====
-- The counts of a walk: they stay within the limit until it is truncated, and every link that waits
-- has been counted.
use remote_merge.Prelude.{
  ℕ, zero, suc, ◌+◌, ◌*◌, ◌≤◌, ◌<◌, false, List, [], ◌∷◌, ◌++◌, Option, none, some, ok, bind-ok,
  returned, length, All, ◌≡◌, refl, ap, arith, Bool-cases, Result-cases, inl, inr,
}
use remote_merge.Text.{Bytes}
use remote_merge.Content.{is_utf8}
use remote_merge.Scan.{LinkPoint, ListedKind}
use remote_merge.Scan.Raw.{
  DirId, RawEntry, LinkTarget, shown, Answer, listed_entry, Listed, at, PendingLink,
}
use remote_merge.Scan.Walk.{Walk, sum, increment, exceeds}
use remote_merge.Scan.Walk.Leaf.{
  put, list_directory, put_leaf, target_unread, listed_kind, is_symlink,
}
use remote_merge.Scan.Walk.Link.{set_point, point, point_unresolvable, point_link}

pub increment-length : (c : ℕ) (ns : List ℕ) → length (increment c ns) ≡ length ns
unfolding increment
increment-length c [] = refl
increment-length zero (n ∷ ns) = refl
increment-length (suc c) (n ∷ ns) = ap suc (increment-length c ns)

pub increment-sum : (c : ℕ) (ns : List ℕ) → c < length ns → sum (increment c ns) ≡ suc (sum ns)
unfolding increment sum
increment-sum c [] h = absurd (ground arith)
increment-sum zero (n ∷ ns) h = omega arith
increment-sum (suc c) (n ∷ ns) h = omega (arith, increment-sum c ns (omega arith))

abbrev pub Within : ℕ → List ℕ → Type 0
Within limit counts = All (λ k. k ≤ limit) counts

pub increment-Within :
    (limit c : ℕ) (ns : List ℕ)
    → Within limit ns
    → exceeds limit c (increment c ns) ≡ false
    → Within limit (increment c ns)
unfolding increment exceeds
increment-Within limit c [] w h = w
increment-Within limit zero (n ∷ ns) (k, w) h = (ground arith, w)
increment-Within limit (suc c) (n ∷ ns) (k, w) h = (k, increment-Within limit c ns w h)

pub sum-Within : (limit : ℕ) (ns : List ℕ) → Within limit ns → sum ns ≤ length ns * limit
unfolding sum
sum-Within limit [] w = omega arith
sum-Within limit (n ∷ ns) (k, w) = ground (arith, sum-Within limit ns w)

-- `groups` counters stand in the walk, each within the limit unless it is truncated.
pub record Kept (groups limit : ℕ) (w : Walk) : Type 0 where
  pub counters : length w.counts ≡ groups
  pub links : All (λ (l : PendingLink). l.counter < groups) w.pending
  pub within : w.truncated ≡ false → Within limit w.counts
  pub bound : sum w.counts ≤ suc (groups * limit)

-- A later walk, with a count for each link that has come to wait.
pub record After (groups limit : ℕ) (w later : Walk) : Type 0 where
  pub kept : Kept groups limit later
  pub grown : sum w.counts + length later.pending ≤ sum later.counts + length w.pending

-- Nothing is counted and no link comes to wait.
pub record Framed (w later : Walk) : Type 0 where
  pub counts : later.counts ≡ w.counts
  pub truncated : later.truncated ≡ w.truncated
  pub pending : later.pending ≡ w.pending

Framed-refl : (w : Walk) → Framed w w
Framed-refl w = record { counts = refl; truncated = refl; pending = refl }

put-Framed :
    (path : Bytes) (entry : RawEntry) (kind : ListedKind) (w : Walk) (r : Walk × Listed)
    → put path entry kind w ≡ ok r
    → Framed w r.0
unfolding put
put-Framed path entry kind w r h = elim (Bool-cases (is_utf8 path)) [
  | inr e ↦
      returned (λ (r : Walk × Listed). Framed w r.0) (put path entry kind w)
        (
          record w { unreadable_names = w.unreadable_names ++ shown path ∷ [] },
          Listed.unreadable_name,
        )
        r (ground arith) h (record { counts = refl; truncated = refl; pending = refl })
  | inl e ↦ elim (Result-cases (listed_entry path entry kind)) [
    | inr (why, f) ↦ absurd (ground arith)
    | inl (listed, f) ↦
        returned (λ (r : Walk × Listed). Framed w r.0) (put path entry kind w)
          (record w { entries = w.entries ++ listed ∷ [] }, Listed.at (length w.entries)) r
          (ground arith) h (record { counts = refl; truncated = refl; pending = refl })
  ]
]

pub list_directory-Framed :
    (path : Bytes) (entry : RawEntry) (w w' : Walk)
    → list_directory path entry w ≡ ok w'
    → Framed w w'
unfolding list_directory
list_directory-Framed path entry w w' h =
    let (r, p, q) = bind-ok (put path entry ListedKind.directory w) _ w' h in
    returned (Framed w) (ok r.0) r.0 w' refl q (put-Framed path entry ListedKind.directory w r p)

-- The link that a leaf leaves to wait has the leaf's counter.
abbrev pub Counted : ℕ → Option PendingLink → Type 0
Counted c none = Unit
Counted c (some link) = link.counter ≡ c

pub put_leaf-Framed :
    (path : Bytes) (entry : RawEntry) (ids : List DirId) (c : ℕ) (w : Walk)
    (r : Walk × Option PendingLink)
    → put_leaf path entry ids c w ≡ ok r
    → Framed w r.0 × Counted c r.1
unfolding put_leaf
put_leaf-Framed path entry ids c w r h = elim (Bool-cases (target_unread entry.kind)) [
  | inl e ↦ absurd (ground arith)
  | inr e ↦ elim (Result-cases (put path entry (listed_kind entry.kind) w)) [
    | inr (why, f) ↦ absurd (ground arith)
    | inl (p, f) ↦ elim (Bool-cases (is_symlink entry.kind)) [
      | inl g ↦
          returned (λ (r : Walk × Option PendingLink). Framed w r.0 × Counted c r.1)
            (put_leaf path entry ids c w)
            (p.0, some (record { path = path; ancestors = ids; counter = c; listed = p.1 })) r
            (ground arith) h (put-Framed path entry (listed_kind entry.kind) w p f, refl)
      | inr g ↦
          returned (λ (r : Walk × Option PendingLink). Framed w r.0 × Counted c r.1)
            (put_leaf path entry ids c w) (p.0, none) r (ground arith) h
            (put-Framed path entry (listed_kind entry.kind) w p f, tt)
    ]
  ]
]

pub point-Framed : (link : PendingLink) (to : LinkPoint) (w : Walk) → Framed w (point link to w)
unfolding point
point-Framed link to w =
    elim link.listed
      as (λ place.
        Framed w
          (elim place [ at index ↦ record w { entries = set_point index to w.entries } | _ ↦ w ])) [
            | at index ↦ record { counts = refl; truncated = refl; pending = refl }
            | Listed.unreadable_name ↦ Framed-refl w
            | Listed.start ↦ Framed-refl w
          ]

point_unresolvable-Framed :
    (link : PendingLink) (w w' : Walk) → point_unresolvable link w ≡ ok w' → Framed w w'
unfolding point_unresolvable
point_unresolvable-Framed link w w' h = by_place link.listed refl
  where
    by_place : (place : Listed) → link.listed ≡ place → Framed w w'
    by_place (at index) e =
        returned (Framed w) (point_unresolvable link w) (point link LinkPoint.unresolvable w) w'
          (ground arith) h (point-Framed link LinkPoint.unresolvable w)
    by_place Listed.unreadable_name e =
        returned (Framed w) (point_unresolvable link w)
          (record w { unresolvable_names = w.unresolvable_names ++ shown link.path ∷ [] }) w'
          (ground arith) h (record { counts = refl; truncated = refl; pending = refl })
    by_place Listed.start e = absurd (ground arith)

pub point_link-Framed :
    (link : PendingLink) (answer : Answer) (w w' : Walk)
    → point_link link answer w ≡ ok w'
    → Framed w w'
unfolding point_link
point_link-Framed link answer w w' h = by_target answer.link refl
  where
    pointed : (to : LinkPoint) → point_link link answer w ≡ ok (point link to w) → Framed w w'
    pointed to e =
        returned (Framed w) (point_link link answer w) (point link to w) w' e h
          (point-Framed link to w)

    by_target : (target : Option LinkTarget) → answer.link ≡ target → Framed w w'
    by_target none e = absurd (ground arith)
    by_target (some LinkTarget.directory) e = pointed LinkPoint.directory (ground arith)
    by_target (some LinkTarget.missing) e = pointed LinkPoint.missing (ground arith)
    by_target (some LinkTarget.other) e = pointed LinkPoint.other (ground arith)
    by_target (some LinkTarget.not_directory) e =
        returned (Framed w) (point_link link answer w) w w' (ground arith) h (Framed-refl w)
    by_target (some LinkTarget.unresolvable) e = point_unresolvable-Framed link w w' (ground arith)
