-- ===== src/Scan/Walk/Grown.antt =====
-- What a walk does to the counts: each step leaves them within the limit, and counts what it leaves
-- to wait.
use remote_merge.Prelude.{
  ℕ, suc, ◌+◌, ◌*◌, ◌≤◌, ◌<◌, Bool, false, ◌||◌, List, [], ◌∷◌, ◌++◌, Option, none, some, is_some,
  Result, ok, bind-ok, returned, any, length, length-append, All-append, if◌then◌else◌, ◌≡◌, refl,
  sym, ap, ◌∙◌, arith, Bool-cases, Option-cases, Result-cases, inl, inr,
}
use remote_merge.Text.{Bytes, is_empty}
use remote_merge.Scan.{ScanError}
use remote_merge.Scan.Filter.{Exclude, excludes}
use remote_merge.Scan.Raw.{
  DirId, RawEntry, Subtree, Answer, is_directory, has_id, join_path, shown, PendingLink, Item,
  in_path_order, get, parent_ids,
}
use remote_merge.Scan.Walk.{Walk, stopped, sum, increment, count}
use remote_merge.Scan.Walk.Leaf.{is_symlink, take_leaf_counted, take_waiting}
use remote_merge.Scan.Walk.Link.{to_directory, point_link}
use remote_merge.Scan.Walk.Tree.{
  Below, take_entry, take_item, take_items, below_of, unreadable_of, take_subtree, take_link,
}
use remote_merge.Scan.Walk.Counts.{
  Kept, After, Framed, Counted, sum-Within, increment-length, increment-sum, increment-Within,
  list_directory-Framed, put_leaf-Framed, point_link-Framed,
}

module _ (groups limit : ℕ) where
  Kept-Framed : (w w' : Walk) → Kept groups limit w → Framed w w' → Kept groups limit w'
  Kept-Framed w w' k f = record {
    counters = ap length f.counts ∙ k.counters;
    links = rw f.pending k.links;
    within = λ e. rw f.counts (k.within (sym f.truncated ∙ e));
    bound = rw f.counts k.bound;
  }

  pub After-Framed : (w w' : Walk) → Kept groups limit w → Framed w w' → After groups limit w w'
  After-Framed w w' k f = record {
    kept = Kept-Framed w w' k f;
    grown = omega (arith, ap sum f.counts, ap length f.pending);
  }

  pub After-refl : (w : Walk) → Kept groups limit w → After groups limit w w
  After-refl w k = record { kept = k; grown = omega arith }

  pub After-same : (w w' : Walk) → Kept groups limit w → w ≡ w' → After groups limit w w'
  After-same w w' k e = rw (sym e) (After-refl w k)

  pub After-trans :
      (u v w : Walk) → After groups limit u v → After groups limit v w → After groups limit u w
  After-trans u v w a b = record { kept = b.kept; grown = omega (arith, a.grown, b.grown) }

  -- A cycle changes neither.
  cycle-After :
      (path : Bytes) (w : Walk)
      → Kept groups limit w
      → After groups limit w (record w { cycle = some path })
  cycle-After path w k =
      After-Framed w (record w { cycle = some path }) k
        (record { counts = refl; truncated = refl; pending = refl })

  count-Kept :
      (c : ℕ) (w : Walk)
      → c < groups
      → Kept groups limit w
      → w.truncated ≡ false
      → Kept groups limit (count limit c w) × (sum (count limit c w).counts ≡ suc (sum w.counts))
  unfolding count
  count-Kept c w c< k e =
      let more : sum (increment c w.counts) ≡ suc (sum w.counts) =
        increment-sum c w.counts (omega (arith, k.counters)) in
      let few : sum w.counts ≤ groups * limit =
        rw k.counters at (sum-Within limit w.counts (k.within e)) in
      (
        record {
          counters = increment-length c w.counts ∙ k.counters;
          links = k.links;
          within = λ f. increment-Within limit c w.counts (k.within e) (ground arith);
          bound = omega arith;
        },
        more,
      )

  -- What a leaf leaves: a link that waits is paid for by a count.
  pub record Leaf (c : ℕ) (w : Walk) (r : Walk × Option PendingLink) : Type 0 where
    pub kept : Kept groups limit r.0
    pub pending : r.0.pending ≡ w.pending
    pub counted : Counted c r.1
    pub grown : sum w.counts + (if is_some r.1 then 1 else 0) ≤ sum r.0.counts

  count-pending : (c : ℕ) (w : Walk) → (count limit c w).pending ≡ w.pending
  unfolding count
  count-pending c w = refl

  one_or_none : (o : Option PendingLink) → (if is_some o then 1 else 0) ≤ 1
  one_or_none none = omega arith
  one_or_none (some link) = omega arith

module _ (glob : Bytes → Bytes → Bool) (exclude : Exclude) (groups limit : ℕ) where
  pub take_leaf_counted-Leaf :
      (path : Bytes) (entry : RawEntry) (ids : List DirId) (c : ℕ) (w : Walk)
      (r : Walk × Option PendingLink)
      → c < groups
      → Kept groups limit w
      → take_leaf_counted glob exclude limit path entry ids (some c) w ≡ ok r
      → Leaf groups limit c w r
  unfolding take_leaf_counted stopped
  take_leaf_counted-Leaf path entry ids c w r c< k h = elim (Bool-cases (stopped w)) [
    | inl e ↦
        returned (Leaf groups limit c w)
          (take_leaf_counted glob exclude limit path entry ids (some c) w) (w, none) r
          (ground arith) h (record { kept = k; pending = refl; counted = tt; grown = omega arith })
    | inr e ↦
        let (k', more) = count-Kept groups limit c w c< k (ground arith) in
        elim (Bool-cases (count limit c w).truncated) [
          | inl f ↦
              returned (Leaf groups limit c w)
                (take_leaf_counted glob exclude limit path entry ids (some c) w)
                (count limit c w, none) r (ground arith) h
                (record {
                  kept = k';
                  pending = count-pending groups limit c w;
                  counted = tt;
                  grown = omega arith;
                })
          | inr f ↦
              let (framed, counted) =
                put_leaf-Framed path entry ids c (count limit c w) r (ground arith) in
              record {
                kept = Kept-Framed groups limit (count limit c w) r.0 k' framed;
                pending = framed.pending ∙ count-pending groups limit c w;
                counted = counted;
                grown = omega (arith, one_or_none groups limit r.1, ap sum framed.counts);
              }
        ]
  ]

  take_waiting-After :
      (path : Bytes) (entry : RawEntry) (ids : List DirId) (c : ℕ) (w w' : Walk)
      → c < groups
      → Kept groups limit w
      → take_waiting glob exclude limit path entry ids c w ≡ ok w'
      → After groups limit w w'
  unfolding take_waiting
  take_waiting-After path entry ids c w w' c< k h =
      let (r, p, q) =
        bind-ok (take_leaf_counted glob exclude limit path entry ids (some c) w) _ w' h in
      by_link r.0 r.1 (take_leaf_counted-Leaf path entry ids c w r c< k p) q
    where
      by_link :
          (next : Walk) (o : Option PendingLink)
          → Leaf groups limit c w (next, o)
          → Path
              (Result ScanError Walk)
              (elim o [
                | none ↦ ok next
                | some waiting ↦ ok (record next { pending = next.pending ++ waiting ∷ [] })
              ])
              (ok w')
          → After groups limit w w'
      by_link next none leaf q =
          returned (After groups limit w) (ok next) next w' refl q
            (record { kept = leaf.kept; grown = omega (arith, leaf.grown, ap length leaf.pending) })
      by_link next (some link) leaf q =
          returned (After groups limit w) (ok (record next { pending = next.pending ++ link ∷ [] }))
            _ w' refl q
            (record {
              kept = record {
                counters = leaf.kept.counters;
                links =
                    All-append (λ (l : PendingLink). l.counter < groups) next.pending (link ∷ [])
                      leaf.kept.links (omega (arith, leaf.counted, c<), tt);
                within = leaf.kept.within;
                bound = leaf.kept.bound;
              };
              grown = omega (
                arith,
                leaf.grown,
                ap length leaf.pending,
                length-append next.pending (link ∷ []),
              );
            })

  take_entry-After :
      (below : Below) (path : Bytes) (entry : RawEntry) (w w' : Walk)
      → below.counter < groups
      → Kept groups limit w
      → take_entry glob exclude limit below path entry w ≡ ok w'
      → After groups limit w w'
  unfolding take_entry
  take_entry-After below path entry w w' c< k h = elim (Bool-cases (is_directory entry.kind)) [
    | inr e ↦
        let chain =
          if is_symlink entry.kind
          then below.ancestors ++ parent_ids entry.path below.dirs
          else [] in
        take_waiting-After path entry chain below.counter w w' c< k (ground arith)
    | inl e ↦ elim (Bool-cases (has_id below.ancestors entry.id)) [
      | inl f ↦
          returned (After groups limit w) (take_entry glob exclude limit below path entry w)
            (record w { cycle = some (shown path) }) w' (ground arith) h
            (cycle-After groups limit (shown path) w k)
      | inr f ↦ elim (Option-cases (get entry.path below.unreadable)) [
        | inr (cause, g) ↦ absurd (ground arith)
        | inl g ↦
            After-Framed groups limit w w' k (list_directory-Framed path entry w w' (ground arith))
      ]
    ]
  ]

  take_item-After :
      (below : Below) (rel : Bytes) (item : Item) (w w' : Walk)
      → below.counter < groups
      → Kept groups limit w
      → take_item glob exclude limit below (rel, item) w ≡ ok w'
      → After groups limit w w'
  unfolding take_item
  take_item-After below rel (Item.entry entry) w w' c< k h =
      elim (Bool-cases (is_empty entry.path || excludes glob exclude (join_path below.base rel))) [
        | inl e ↦ After-same groups limit w w' k (ground arith)
        | inr e ↦ take_entry-After below (join_path below.base rel) entry w w' c< k (ground arith)
      ]
  take_item-After below rel Item.changed w w' c< k h =
      elim (Bool-cases (excludes glob exclude (join_path below.base rel))) [
        | inl e ↦ After-same groups limit w w' k (ground arith)
        | inr e ↦ absurd (ground arith)
      ]
  take_item-After below rel (Item.unread cause) w w' c< k h =
      elim (Bool-cases (excludes glob exclude (join_path below.base rel))) [
        | inl e ↦ After-same groups limit w w' k (ground arith)
        | inr e ↦ absurd (ground arith)
      ]

  take_items-After :
      (below : Below) (items : List (Bytes × Item)) (w w' : Walk)
      → below.counter < groups
      → Kept groups limit w
      → take_items glob exclude limit below items w ≡ ok w'
      → After groups limit w w'
  unfolding take_items
  take_items-After below [] w w' c< k h =
      returned (After groups limit w) (ok w) w w' refl h (After-refl groups limit w k)
  take_items-After below ((rel, item) ∷ items) w w' c< k h = elim (Bool-cases (stopped w)) [
    | inl e ↦
        returned (After groups limit w)
          (take_items glob exclude limit below ((rel, item) ∷ items) w) w w' (ground arith) h
          (After-refl groups limit w k)
    | inr e ↦ elim (Result-cases (take_item glob exclude limit below (rel, item) w)) [
      | inr (why, f) ↦ absurd (ground arith)
      | inl (next, f) ↦
          let step = take_item-After below rel item w next c< k f in
          After-trans groups limit w next w' step
            (take_items-After below items next w' c< step.kept (ground arith))
    ]
  ]

  pub take_subtree-After :
      (base : Bytes) (tree : Subtree) (ancestors : List DirId) (c : ℕ) (w w' : Walk)
      → c < groups
      → Kept groups limit w
      → take_subtree glob exclude limit base tree ancestors c w ≡ ok w'
      → After groups limit w w'
  unfolding take_subtree below_of
  take_subtree-After base tree ancestors c w w' c< k h =
      elim (Bool-cases (has_id ancestors tree.start.id)) [
        | inl e ↦
            returned (After groups limit w)
              (take_subtree glob exclude limit base tree ancestors c w)
              (record w { cycle = some (shown base) }) w' (ground arith) h
              (cycle-After groups limit (shown base) w k)
        | inr e ↦ elim (Bool-cases (any is_empty tree.changed)) [
          | inl f ↦ absurd (ground arith)
          | inr f ↦ elim (Option-cases (get [] (unreadable_of tree))) [
            | inr (cause, g) ↦ absurd (ground arith)
            | inl g ↦
                take_items-After (below_of base tree ancestors c) (in_path_order tree) w w' c< k
                  (ground arith)
          ]
        ]
      ]

  pub take_link-After :
      (link : PendingLink) (answer : Answer) (w w' : Walk)
      → link.counter < groups
      → Kept groups limit w
      → take_link glob exclude limit link answer w ≡ ok w'
      → After groups limit w w'
  unfolding take_link
  take_link-After link answer w w' c< k h = elim (Result-cases (point_link link answer w)) [
    | inr (why, f) ↦ absurd (ground arith)
    | inl (next, f) ↦
        let step = After-Framed groups limit w next k (point_link-Framed link answer w next f) in
        After-trans groups limit w next w' step (elim (Bool-cases (to_directory answer)) [
          | inr e ↦ After-same groups limit next w' step.kept (ground arith)
          | inl e ↦ elim (Option-cases answer.subtree) [
            | inl g ↦ absurd (ground arith)
            | inr (tree, g) ↦
                take_subtree-After link.path tree link.ancestors link.counter next w' c< step.kept
                  (ground arith)
          ]
        ])
  ]
