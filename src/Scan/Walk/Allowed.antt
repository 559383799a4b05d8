-- ===== src/Scan/Walk/Allowed.antt =====
-- What a walk lists below a start is not excluded.
use remote_merge.Prelude.{
  ℕ, Bool, false, ◌||◌, List, [], ◌∷◌, ◌++◌, Option, none, some, Result, ok, bind-ok, returned, any,
  if◌then◌else◌, ◌≡◌, refl, arith, Bool-cases, Option-cases, Result-cases, inl, inr,
}
use remote_merge.Text.{Bytes, is_empty}
use remote_merge.Scan.{ScanError}
use remote_merge.Scan.Filter.{Exclude, excludes}
use remote_merge.Scan.Raw.{
  DirId, RawEntry, Subtree, Answer, is_directory, has_id, join_path, shown, PendingLink, Item,
  in_path_order, get, parent_ids,
}
use remote_merge.Scan.Walk.{Walk, stopped, count}
use remote_merge.Scan.Walk.Leaf.{is_symlink, take_leaf_counted, take_waiting}
use remote_merge.Scan.Walk.Link.{to_directory, point_link}
use remote_merge.Scan.Walk.Tree.{
  Below, take_entry, take_item, take_items, below_of, unreadable_of, take_subtree, take_link,
}
use remote_merge.Scan.Walk.Places.{Clear, list_directory-Clear, put_leaf-Clear, point_link-Clear}

module _ (glob : Bytes → Bytes → Bool) (exclude : Exclude) (limit : ℕ) where
  abbrev pub Allowed : Bytes → Type 0
  Allowed path = excludes glob exclude path ≡ false

  count-Clear : (n : ℕ) (w : Walk) → Clear Allowed w → Clear Allowed (count limit n w)
  unfolding count
  count-Clear n w c = c

  take_leaf_counted-Clear :
      (path : Bytes) (entry : RawEntry) (ids : List DirId) (n : ℕ) (w : Walk)
      (r : Walk × Option PendingLink)
      → Allowed path
      → Clear Allowed w
      → take_leaf_counted glob exclude limit path entry ids (some n) w ≡ ok r
      → Clear Allowed r.0
  unfolding take_leaf_counted
  take_leaf_counted-Clear path entry ids n w r good c h = elim (Bool-cases (stopped w)) [
    | inl e ↦
        returned (λ (r : Walk × Option PendingLink). Clear Allowed r.0)
          (take_leaf_counted glob exclude limit path entry ids (some n) w) (w, none) r
          (ground arith) h c
    | inr e ↦ elim (Bool-cases (count limit n w).truncated) [
      | inl f ↦
          returned (λ (r : Walk × Option PendingLink). Clear Allowed r.0)
            (take_leaf_counted glob exclude limit path entry ids (some n) w) (count limit n w, none)
            r (ground arith) h (count-Clear n w c)
      | inr f ↦
          put_leaf-Clear Allowed path entry ids n (count limit n w) r good (count-Clear n w c)
            (ground arith)
    ]
  ]

  take_waiting-Clear :
      (path : Bytes) (entry : RawEntry) (ids : List DirId) (n : ℕ) (w w' : Walk)
      → Allowed path
      → Clear Allowed w
      → take_waiting glob exclude limit path entry ids n w ≡ ok w'
      → Clear Allowed w'
  unfolding take_waiting
  take_waiting-Clear path entry ids n w w' good c h =
      let (r, p, q) =
        bind-ok (take_leaf_counted glob exclude limit path entry ids (some n) w) _ w' h in
      by_link r.0 r.1 (take_leaf_counted-Clear path entry ids n w r good c p) q
    where
      by_link :
          (next : Walk) (o : Option PendingLink)
          → Clear Allowed next
          → Path
              (Result ScanError Walk)
              (elim o [
                | none ↦ ok next
                | some waiting ↦ ok (record next { pending = next.pending ++ waiting ∷ [] })
              ])
              (ok w')
          → Clear Allowed w'
      by_link next none c q = returned (Clear Allowed) (ok next) next w' refl q c
      by_link next (some link) c q =
          returned (Clear Allowed) (ok (record next { pending = next.pending ++ link ∷ [] }))
            (record next { pending = next.pending ++ link ∷ [] }) w' refl q c

  take_entry-Clear :
      (below : Below) (path : Bytes) (entry : RawEntry) (w w' : Walk)
      → Allowed path
      → Clear Allowed w
      → take_entry glob exclude limit below path entry w ≡ ok w'
      → Clear Allowed w'
  unfolding take_entry
  take_entry-Clear below path entry w w' good c h = elim (Bool-cases (is_directory entry.kind)) [
    | inr e ↦
        let chain =
          if is_symlink entry.kind
          then below.ancestors ++ parent_ids entry.path below.dirs
          else [] in
        take_waiting-Clear path entry chain below.counter w w' good c (ground arith)
    | inl e ↦ elim (Bool-cases (has_id below.ancestors entry.id)) [
      | inl f ↦
          returned (Clear Allowed) (take_entry glob exclude limit below path entry w)
            (record w { cycle = some (shown path) }) w' (ground arith) h c
      | inr f ↦ elim (Option-cases (get entry.path below.unreadable)) [
        | inr (cause, g) ↦ absurd (ground arith)
        | inl g ↦ list_directory-Clear Allowed path entry w w' good c (ground arith)
      ]
    ]
  ]

  pub same-Clear : (w w' : Walk) → w ≡ w' → Clear Allowed w → Clear Allowed w'
  same-Clear w w' e c = rw e at c

  take_item-Clear :
      (below : Below) (rel : Bytes) (item : Item) (w w' : Walk)
      → Clear Allowed w
      → take_item glob exclude limit below (rel, item) w ≡ ok w'
      → Clear Allowed w'
  unfolding take_item
  take_item-Clear below rel (Item.entry entry) w w' c h =
      elim (Bool-cases (is_empty entry.path || excludes glob exclude (join_path below.base rel))) [
        | inl e ↦ same-Clear w w' (ground arith) c
        | inr e ↦
            take_entry-Clear below (join_path below.base rel) entry w w' (ground arith) c
              (ground arith)
      ]
  take_item-Clear below rel Item.changed w w' c h =
      elim (Bool-cases (excludes glob exclude (join_path below.base rel))) [
        | inl e ↦ same-Clear w w' (ground arith) c
        | inr e ↦ absurd (ground arith)
      ]
  take_item-Clear below rel (Item.unread cause) w w' c h =
      elim (Bool-cases (excludes glob exclude (join_path below.base rel))) [
        | inl e ↦ same-Clear w w' (ground arith) c
        | inr e ↦ absurd (ground arith)
      ]

  take_items-Clear :
      (below : Below) (items : List (Bytes × Item)) (w w' : Walk)
      → Clear Allowed w
      → take_items glob exclude limit below items w ≡ ok w'
      → Clear Allowed w'
  unfolding take_items
  take_items-Clear below [] w w' c h = same-Clear w w' (ground arith) c
  take_items-Clear below ((rel, item) ∷ items) w w' c h = elim (Bool-cases (stopped w)) [
    | inl e ↦ same-Clear w w' (ground arith) c
    | inr e ↦ elim (Result-cases (take_item glob exclude limit below (rel, item) w)) [
      | inr (why, f) ↦ absurd (ground arith)
      | inl (next, f) ↦
          take_items-Clear below items next w' (take_item-Clear below rel item w next c f)
            (ground arith)
    ]
  ]

  pub take_subtree-Clear :
      (base : Bytes) (tree : Subtree) (ancestors : List DirId) (n : ℕ) (w w' : Walk)
      → Clear Allowed w
      → take_subtree glob exclude limit base tree ancestors n w ≡ ok w'
      → Clear Allowed w'
  unfolding take_subtree
  take_subtree-Clear base tree ancestors n w w' c h =
      elim (Bool-cases (has_id ancestors tree.start.id)) [
        | inl e ↦
            returned (Clear Allowed) (take_subtree glob exclude limit base tree ancestors n w)
              (record w { cycle = some (shown base) }) w' (ground arith) h c
        | inr e ↦ elim (Bool-cases (any is_empty tree.changed)) [
          | inl f ↦ absurd (ground arith)
          | inr f ↦ elim (Option-cases (get [] (unreadable_of tree))) [
            | inr (cause, g) ↦ absurd (ground arith)
            | inl g ↦
                take_items-Clear (below_of base tree ancestors n) (in_path_order tree) w w' c
                  (ground arith)
          ]
        ]
      ]

  pub take_link-Clear :
      (link : PendingLink) (answer : Answer) (w w' : Walk)
      → Clear Allowed w
      → take_link glob exclude limit link answer w ≡ ok w'
      → Clear Allowed w'
  unfolding take_link
  take_link-Clear link answer w w' c h = elim (Result-cases (point_link link answer w)) [
    | inr (why, f) ↦ absurd (ground arith)
    | inl (next, f) ↦
        let c' = point_link-Clear Allowed link answer w next c f in
        elim (Bool-cases (to_directory answer)) [
          | inr e ↦ same-Clear next w' (ground arith) c'
          | inl e ↦ elim (Option-cases answer.subtree) [
            | inl g ↦ absurd (ground arith)
            | inr (tree, g) ↦
                take_subtree-Clear link.path tree link.ancestors link.counter next w' c'
                  (ground arith)
          ]
        ]
  ]
