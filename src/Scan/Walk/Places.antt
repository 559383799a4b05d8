-- ===== src/Scan/Walk/Places.antt =====
-- What the parts of a walk do to a property of the listed paths.
use remote_merge.Prelude.{
  ℕ, zero, suc, ◌%◌, List, [], ◌∷◌, ◌++◌, Option, none, some, ok, bind-ok, returned, length, All,
  All-append, ◌≡◌, refl, arith, Bool-cases, Result-cases, inl, inr,
}
use remote_merge.Text.{Bytes, at_most}
use remote_merge.Content.{is_utf8}
use remote_merge.Scan.{LinkPoint, ListedKind, ListedEntry}
use remote_merge.Scan.Raw.{
  DirId, RawEntry, RawTime, LinkTarget, Answer, shown, listed_entry, Listed, at, PendingLink,
}
use remote_merge.Scan.Walk.{Walk, place_entry, sort_entries}
use remote_merge.Scan.Walk.Leaf.{put, list_directory, put_leaf, target_unread, listed_kind}
use remote_merge.Scan.Walk.Link.{set_point, point, point_unresolvable, point_link}

module _ (Good : Bytes → Type 0) where
  abbrev pub Clear : Walk → Type 0
  Clear w = All (λ (e : ListedEntry). Good e.path) w.entries

  listed_entry-path :
      (path : Bytes) (entry : RawEntry) (kind : ListedKind) (l : ListedEntry)
      → listed_entry path entry kind ≡ ok l
      → path ≡ l.path
  unfolding listed_entry
  listed_entry-path path entry kind l h = by_time entry.mtime refl
    where
      by_time : (t : RawTime) → entry.mtime ≡ t → path ≡ l.path
      by_time RawTime.unreadable e = absurd (ground arith)
      by_time (RawTime.read secs nanos digits) e =
          returned (λ (x : ListedEntry). path ≡ x.path) (listed_entry path entry kind)
            (record {
              path = path;
              kind = kind;
              size = entry.size;
              mtime_secs = secs;
              mtime_nanos = nanos;
              mtime_digits = digits;
              permissions = entry.mode % 4096;
            })
            l (ground arith) h refl

  put-Clear :
      (path : Bytes) (entry : RawEntry) (kind : ListedKind) (w : Walk) (r : Walk × Listed)
      → Good path
      → Clear w
      → put path entry kind w ≡ ok r
      → Clear r.0
  unfolding put
  put-Clear path entry kind w r good c h = elim (Bool-cases (is_utf8 path)) [
    | inr e ↦
        returned (λ (r : Walk × Listed). Clear r.0) (put path entry kind w)
          (
            record w { unreadable_names = w.unreadable_names ++ shown path ∷ [] },
            Listed.unreadable_name,
          )
          r (ground arith) h c
    | inl e ↦ elim (Result-cases (listed_entry path entry kind)) [
      | inr (why, f) ↦ absurd (ground arith)
      | inl (listed, f) ↦
          returned (λ (r : Walk × Listed). Clear r.0) (put path entry kind w)
            (record w { entries = w.entries ++ listed ∷ [] }, Listed.at (length w.entries)) r
            (ground arith) h
            (All-append (λ (e : ListedEntry). Good e.path) w.entries (listed ∷ []) c
              (rw (listed_entry-path path entry kind listed f) at good, tt))
    ]
  ]

  pub list_directory-Clear :
      (path : Bytes) (entry : RawEntry) (w w' : Walk)
      → Good path
      → Clear w
      → list_directory path entry w ≡ ok w'
      → Clear w'
  unfolding list_directory
  list_directory-Clear path entry w w' good c h =
      let (r, p, q) = bind-ok (put path entry ListedKind.directory w) _ w' h in
      returned Clear (ok r.0) r.0 w' refl q (put-Clear path entry ListedKind.directory w r good c p)

  pub put_leaf-Clear :
      (path : Bytes) (entry : RawEntry) (ids : List DirId) (n : ℕ) (w : Walk)
      (r : Walk × Option PendingLink)
      → Good path
      → Clear w
      → put_leaf path entry ids n w ≡ ok r
      → Clear r.0
  unfolding put_leaf
  put_leaf-Clear path entry ids n w r good c h = elim (Bool-cases (target_unread entry.kind)) [
    | inl e ↦ absurd (ground arith)
    | inr e ↦ elim (Result-cases (put path entry (listed_kind entry.kind) w)) [
      | inr (why, f) ↦ absurd (ground arith)
      | inl (p, f) ↦
          let same : p.0 ≡ r.0 = ground arith in
          rw same at (put-Clear path entry (listed_kind entry.kind) w p good c f)
    ]
  ]

  set_point-All :
      (index : ℕ) (to : LinkPoint) (es : List ListedEntry)
      → All (λ (e : ListedEntry). Good e.path) es
      → All (λ (e : ListedEntry). Good e.path) (set_point index to es)
  unfolding set_point
  set_point-All index to [] c = tt
  set_point-All zero to (e ∷ es) (good, c) =
      elim e.kind
        as (λ kind.
          All (λ (e : ListedEntry). Good e.path)
            (elim kind [
              | ListedKind.symlink target _ ↦ record e { kind = ListedKind.symlink target to } ∷ es
              | _ ↦ e ∷ es
            ])) [ ListedKind.symlink target from ↦ (good, c) | _ ↦ (good, c) ]
  set_point-All (suc index) to (e ∷ es) (good, c) = (good, set_point-All index to es c)

  point-Clear : (link : PendingLink) (to : LinkPoint) (w : Walk) → Clear w → Clear (point link to w)
  unfolding point
  point-Clear link to w c =
      elim link.listed
        as (λ place.
          Clear (elim place [
            | at index ↦ record w { entries = set_point index to w.entries }
            | _ ↦ w
          ])) [ at index ↦ set_point-All index to w.entries c | _ ↦ c ]

  point_unresolvable-Clear :
      (link : PendingLink) (w w' : Walk) → Clear w → point_unresolvable link w ≡ ok w' → Clear w'
  unfolding point_unresolvable
  point_unresolvable-Clear link w w' c h = by_place link.listed refl
    where
      by_place : (place : Listed) → link.listed ≡ place → Clear w'
      by_place (at index) e =
          returned Clear (point_unresolvable link w) (point link LinkPoint.unresolvable w) w'
            (ground arith) h (point-Clear link LinkPoint.unresolvable w c)
      by_place Listed.unreadable_name e =
          returned Clear (point_unresolvable link w)
            (record w { unresolvable_names = w.unresolvable_names ++ shown link.path ∷ [] }) w'
            (ground arith) h c
      by_place Listed.start e = absurd (ground arith)

  pub point_link-Clear :
      (link : PendingLink) (answer : Answer) (w w' : Walk)
      → Clear w
      → point_link link answer w ≡ ok w'
      → Clear w'
  unfolding point_link
  point_link-Clear link answer w w' c h = by_target answer.link refl
    where
      pointed : (to : LinkPoint) → point_link link answer w ≡ ok (point link to w) → Clear w'
      pointed to e =
          returned Clear (point_link link answer w) (point link to w) w' e h
            (point-Clear link to w c)

      by_target : (target : Option LinkTarget) → answer.link ≡ target → Clear w'
      by_target none e = absurd (ground arith)
      by_target (some LinkTarget.directory) e = pointed LinkPoint.directory (ground arith)
      by_target (some LinkTarget.missing) e = pointed LinkPoint.missing (ground arith)
      by_target (some LinkTarget.other) e = pointed LinkPoint.other (ground arith)
      by_target (some LinkTarget.not_directory) e =
          returned Clear (point_link link answer w) w w' (ground arith) h c
      by_target (some LinkTarget.unresolvable) e =
          point_unresolvable-Clear link w w' c (ground arith)

  place_entry-All :
      (e : ListedEntry) (es : List ListedEntry)
      → Good e.path
      → All (λ (e : ListedEntry). Good e.path) es
      → All (λ (e : ListedEntry). Good e.path) (place_entry e es)
  unfolding place_entry
  place_entry-All e [] good c = (good, tt)
  place_entry-All e (next ∷ es) good (g, c) = elim (Bool-cases (at_most e.path next.path)) [
    | inl f ↦ rw f (good, (g, c))
    | inr f ↦ rw f (g, place_entry-All e es good c)
  ]

  pub sort_entries-All :
      (es : List ListedEntry)
      → All (λ (e : ListedEntry). Good e.path) es
      → All (λ (e : ListedEntry). Good e.path) (sort_entries es)
  unfolding sort_entries
  sort_entries-All [] c = tt
  sort_entries-All (e ∷ es) (good, c) =
      place_entry-All e (sort_entries es) good (sort_entries-All es c)
