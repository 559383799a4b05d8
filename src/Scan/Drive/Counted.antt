-- ===== src/Scan/Drive/Counted.antt =====
-- What the answers for the starts do to the counts.
use remote_merge.Prelude.{
  ℕ, ◌<◌, Bool, true, false, List, [], ◌∷◌, Option, none, some, Result, ok, bind-ok, length, All,
  if◌then◌else◌, ◌≡◌, ◌⊎◌, refl, ap, arith, Bool-cases, Option-cases, Result-cases, inl, inr,
}
use remote_merge.Text.{Bytes}
use remote_merge.Scan.{ScanError}
use remote_merge.Scan.Filter.{Exclude}
use remote_merge.Scan.Raw.{
  DirId, RawEntry, Unreached, Answer, is_directory, start_link, PendingLink,
}
use remote_merge.Scan.Walk.{Walk}
use remote_merge.Scan.Walk.Leaf.{list_directory, take_leaf_counted, is_symlink}
use remote_merge.Scan.Walk.Link.{point_link, to_directory}
use remote_merge.Scan.Walk.Tree.{take_link}
use remote_merge.Scan.Walk.Counts.{
  Kept, After, Counted, list_directory-Framed, put_leaf-Framed, point_link-Framed,
}
use remote_merge.Scan.Walk.Grown.{
  Leaf, After-Framed, After-same, After-trans, take_leaf_counted-Leaf, take_subtree-After,
  take_link-After,
}
use remote_merge.Scan.Starts.{StartPath}
use remote_merge.Scan.StartTake.{
  unreached_start, after_leaf, take_value, take_itself, take_container, take_below, take_start,
}
use remote_merge.Scan.Drive.{take_starts}

module _ (glob : Bytes → Bytes → Bool) (exclude : Exclude) (groups limit : ℕ) where
  -- What is done with the link that a leaf leaves, after the leaf.
  after_leaf-After :
      (resolve : PendingLink → Walk → Result ScanError Walk) (c : ℕ) (next : Walk)
      (o : Option PendingLink) (w' : Walk)
      → c < groups
      → Kept groups limit next
      → Counted c o
      → ((link : PendingLink)
          → link.counter < groups
          → resolve link next ≡ ok w'
          → After groups limit next w')
      → after_leaf resolve (next, o) ≡ ok w'
      → After groups limit next w'
  unfolding after_leaf
  after_leaf-After resolve c next none w' c< k counted f h =
      After-same groups limit next w' k (ground arith)
  after_leaf-After resolve c next (some link) w' c< k counted f h =
      f link (omega (arith, counted, c<)) h

  Leaf-After :
      (c : ℕ) (w : Walk) (r : Walk × Option PendingLink)
      → Leaf groups limit c w r
      → After groups limit w r.0
  Leaf-After c w r leaf = record {
    kept = leaf.kept;
    grown = omega (arith, leaf.grown, ap length leaf.pending);
  }

  unreached_start-After :
      (path : Bytes) (why : Unreached) (w w' : Walk)
      → Kept groups limit w
      → unreached_start path why w ≡ ok w'
      → After groups limit w w'
  unfolding unreached_start
  unreached_start-After path Unreached.missing w w' k h =
      After-same groups limit w w' k (ground arith)
  unreached_start-After path Unreached.not_directory w w' k h = absurd (ground arith)
  unreached_start-After path (Unreached.unreadable cause) w w' k h = absurd (ground arith)

  take_value-After :
      (path : Bytes) (answer : Answer) (root : DirId) (c : ℕ) (w w' : Walk)
      → c < groups
      → Kept groups limit w
      → take_value glob exclude limit path answer root c w ≡ ok w'
      → After groups limit w w'
  unfolding take_value
  take_value-After path answer root c w w' c< k h = elim (Result-cases answer.entry) [
    | inr (why, e) ↦ unreached_start-After path why w w' k (ground arith)
    | inl (entry, e) ↦ elim (Bool-cases (is_directory entry.kind)) [
      | inl f ↦ elim (Option-cases answer.subtree) [
        | inl g ↦ absurd (ground arith)
        | inr (tree, g) ↦
            take_subtree-After glob exclude groups limit path tree (root ∷ []) c w w' c< k
              (ground arith)
      ]
      | inr f ↦
          let leave = take_leaf_counted glob exclude limit path entry (root ∷ []) (some c) w in
          let (r, p, q) =
            bind-ok leave (after_leaf (λ link. take_link glob exclude limit link answer)) w'
              (ground arith) in
          let leaf =
            take_leaf_counted-Leaf glob exclude groups limit path entry (root ∷ []) c w r c< k p in
          After-trans groups limit w r.0 w' (Leaf-After c w r leaf) (
            after_leaf-After (λ link. take_link glob exclude limit link answer) c r.0 r.1 w' c<
              leaf.kept leaf.counted
              (λ link l< m.
                take_link-After glob exclude groups limit link answer r.0 w' l< leaf.kept m)
              q)
    ]
  ]

  -- A leaf that need not count.
  leaf-After :
      (path : Bytes) (entry : RawEntry) (ids : List DirId) (c : ℕ) (o : Option ℕ) (w : Walk)
      (r : Walk × Option PendingLink)
      → c < groups
      → (o ≡ none) ⊎ (o ≡ some c)
      → Kept groups limit w
      → take_leaf_counted glob exclude limit path entry ids o w ≡ ok r
      → After groups limit w r.0
  unfolding take_leaf_counted
  leaf-After path entry ids c none w r c< choice k h =
      After-Framed groups limit w r.0 k (put_leaf-Framed path entry ids 0 w r h).0
  leaf-After path entry ids c (some d) w r c< choice k h =
      let same : d ≡ c = ground arith in
      Leaf-After d w r
        (take_leaf_counted-Leaf glob exclude groups limit path entry ids d w r (omega arith) k h)

  take_itself-After :
      (path : Bytes) (answer : Answer) (root : DirId) (c : ℕ) (w w' : Walk)
      → c < groups
      → Kept groups limit w
      → take_itself glob exclude limit path answer root c w ≡ ok w'
      → After groups limit w w'
  unfolding take_itself
  take_itself-After path answer root c w w' c< k h = elim (Result-cases answer.entry) [
    | inr (why, e) ↦ unreached_start-After path why w w' k (ground arith)
    | inl (entry, e) ↦ elim (Bool-cases (is_directory entry.kind)) [
      | inl f ↦
          After-Framed groups limit w w' k (list_directory-Framed path entry w w' (ground arith))
      | inr f ↦
          let counts = if to_directory answer then none else some c in
          let leave = take_leaf_counted glob exclude limit path entry (root ∷ []) counts w in
          let (r, p, q) =
            bind-ok leave (after_leaf (λ link. point_link link answer)) w' (ground arith) in
          let first =
            leaf-After path entry (root ∷ []) c counts w r c< (none_or_some (to_directory answer)) k
              p in
          After-trans groups limit w r.0 w' first (
            pointed-After (λ link. point_link link answer) r.0 r.1 w' first.kept
              (λ link m.
                After-Framed groups limit r.0 w' first.kept
                  (point_link-Framed link answer r.0 w' m))
              q)
    ]
  ]
    where
      none_or_some :
          (b : Bool)
          → ((if b then none else some c) ≡ none) ⊎ ((if b then none else some c) ≡ some c)
      none_or_some true = inl refl
      none_or_some false = inr refl

      pointed-After :
          (resolve : PendingLink → Walk → Result ScanError Walk) (next : Walk)
          (o : Option PendingLink) (w' : Walk)
          → Kept groups limit next
          → ((link : PendingLink) → resolve link next ≡ ok w' → After groups limit next w')
          → after_leaf resolve (next, o) ≡ ok w'
          → After groups limit next w'
      pointed-After resolve next none w' k f h = After-same groups limit next w' k (ground arith)
      pointed-After resolve next (some link) w' k f h = f link h

  take_container-After :
      (s : StartPath) (answer : Answer) (root : DirId) (entry : RawEntry) (w w' : Walk)
      → s.group < groups
      → Kept groups limit w
      → take_container glob exclude limit s answer root entry w ≡ ok w'
      → After groups limit w w'
  unfolding take_container
  take_container-After s answer root entry w w' c< k h = elim (Option-cases answer.subtree) [
    | inl e ↦ elim (Result-cases (list_directory s.path entry w)) [
      | inr (why, f) ↦ absurd (ground arith)
      | inl (next, f) ↦ elim (Bool-cases s.descend) [
        | inl g ↦ absurd (ground arith)
        | inr g ↦
            let same : list_directory s.path entry w ≡ ok w' = ground arith in
            After-Framed groups limit w w' k (list_directory-Framed s.path entry w w' same)
      ]
    ]
    | inr (tree, e) ↦ elim (Result-cases (list_directory s.path tree.start w)) [
      | inr (why, f) ↦ absurd (ground arith)
      | inl (next, f) ↦
          let listed =
            After-Framed groups limit w next k (list_directory-Framed s.path tree.start w next f) in
          After-trans groups limit w next w' listed (elim (Bool-cases s.descend) [
            | inr g ↦ After-same groups limit next w' listed.kept (ground arith)
            | inl g ↦
                take_subtree-After glob exclude groups limit s.path tree (root ∷ []) s.group next w'
                  c< listed.kept (ground arith)
          ])
    ]
  ]

  take_below-After :
      (s : StartPath) (answer : Answer) (root : DirId) (w w' : Walk)
      → s.group < groups
      → Kept groups limit w
      → take_below glob exclude limit s answer root w ≡ ok w'
      → After groups limit w w'
  unfolding take_below start_link
  take_below-After s answer root w w' c< k h = elim (Result-cases answer.entry) [
    | inr (why, e) ↦ elim (Bool-cases s.excluded) [
      | inl f ↦ After-same groups limit w w' k (ground arith)
      | inr f ↦ unreached_start-After s.path why w w' k (ground arith)
    ]
    | inl (entry, e) ↦ elim (Bool-cases (is_directory entry.kind)) [
      | inl f ↦ take_container-After s answer root entry w w' c< k (ground arith)
      | inr f ↦ elim (Bool-cases (is_symlink entry.kind)) [
        | inr g ↦ After-same groups limit w w' k (ground arith)
        | inl g ↦ elim (Bool-cases (to_directory answer)) [
          | inl d ↦ take_container-After s answer root entry w w' c< k (ground arith)
          | inr d ↦ elim (Bool-cases s.excluded) [
            | inl x ↦ After-same groups limit w w' k (ground arith)
            | inr x ↦
                take_link-After glob exclude groups limit (start_link s.path (root ∷ []) s.group)
                  answer w w' c< k (ground arith)
          ]
        ]
      ]
    ]
  ]

  take_start-After :
      (s : StartPath) (answer : Answer) (root : DirId) (w w' : Walk)
      → s.group < groups
      → Kept groups limit w
      → take_start glob exclude limit s answer root w ≡ ok w'
      → After groups limit w w'
  unfolding take_start
  take_start-After s answer root w w' c< k h = elim (Bool-cases s.with_self) [
    | inr e ↦ take_below-After s answer root w w' c< k (ground arith)
    | inl e ↦ elim (Bool-cases s.descend) [
      | inl f ↦ take_value-After s.path answer root s.group w w' c< k (ground arith)
      | inr f ↦ take_itself-After s.path answer root s.group w w' c< k (ground arith)
    ]
  ]

  pub take_starts-After :
      (paths : List StartPath) (answers : List Answer) (root : DirId) (w w' : Walk)
      → All (λ (s : StartPath). s.group < groups) paths
      → Kept groups limit w
      → take_starts glob exclude limit paths answers root w ≡ ok w'
      → After groups limit w w'
  unfolding take_starts
  take_starts-After [] answers root w w' cs k h = After-same groups limit w w' k (ground arith)
  take_starts-After (s ∷ rest) [] root w w' cs k h = After-same groups limit w w' k (ground arith)
  take_starts-After (s ∷ rest) (answer ∷ answers) root w w' (c, cs) k h =
      let (next, p, q) = bind-ok (take_start glob exclude limit s answer root w) _ w' h in
      let step = take_start-After s answer root w next c k p in
      After-trans groups limit w next w' step
        (take_starts-After rest answers root next w' cs step.kept q)
