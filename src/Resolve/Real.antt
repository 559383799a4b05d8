-- ===== src/Resolve/Real.antt =====
-- Every path that a resolution gives is a real path.
use remote_merge.Prelude.{
  ℕ, zero, suc, Bool, true, false, not, List, [], ◌∷◌, ◌++◌, Result, ok, err, ◌==◌, any, All,
  All-append, length, ltb, if◌then◌else◌, is_some, ◌≡◌, refl, arith, ◌⊎◌, Bool-cases, Option-cases,
  Result-cases, inl, inr, list_eq, nat_eq,
}
use remote_merge.Text.{Bytes, slash, starts_with, is_empty}
use remote_merge.Content.{is_utf8}
use remote_merge.Paths.{dot_dot}
use remote_merge.Resolve.{
  ResolveError, ExistingKind, EntryKind, ResolvedPath, missing, exists, symlink,
  ancestor_not_directory, PathOps, Component, Expansion, root_path, joined_within_limits,
  step_in_missing_part, not_a_directory_before, components, symlink_limit, origin_from_rel,
}
use remote_merge.Resolve.Walk.{
  Walk, Step, go, link, stop, go_real, at_leaf, at_entry, look_up, step, retain, mark_last,
  inserted, insert_link, finish, walk, start, resolve_path, last_has_rest,
}
use remote_merge.Resolve.RealPath.{
  IsReal, top, IsName, IsElement, parent-IsReal, joined_within_limits-IsReal, components-IsElement,
}

-- The path of the result is a real path.
abbrev pub ResultReal : ResolvedPath → Type 0
ResultReal (missing real_parent _) = IsReal real_parent
ResultReal (exists real_path _) = IsReal real_path
ResultReal (symlink _ real_path _) = IsReal real_path
ResultReal (ancestor_not_directory real_path _) = IsReal real_path

abbrev StepReal : Step → Type 0
StepReal (go s) = IsReal s.real
StepReal (link _) = Unit
StepReal (stop (ok result)) = ResultReal result
StepReal (stop (err _)) = Unit

StepReal-either : (b : Bool) (x y : Step) → StepReal x → StepReal y → StepReal (if b then x else y)
StepReal-either true x y hx hy = hx
StepReal-either false x y hx hy = hy

StepReal-stop :
    (b : Bool) (x y : Result ResolveError ResolvedPath)
    → StepReal (stop x)
    → StepReal (stop y)
    → StepReal (stop (if b then x else y))
StepReal-stop true x y hx hy = hx
StepReal-stop false x y hx hy = hy

name-IsName : (c : Component) → IsElement c → (c.name == dot_dot) ≡ false → IsName c.name
name-IsName c (stands, free) h = record { stands = stands; no_slash = free; not_parent = h }

go_real-StepReal :
    (s : Walk) (r : Result ResolveError Bytes)
    → ((next : Bytes) → r ≡ ok next → IsReal next)
    → StepReal (go_real s r)
unfolding go_real
go_real-StepReal s (ok next) h = h next refl
go_real-StepReal s (err e) h = tt

step_in_missing_part-IsReal :
    (real : Bytes) (c : Component) (next : Bytes)
    → IsReal real
    → IsElement c
    → step_in_missing_part real c.name ≡ ok next
    → IsReal next
unfolding step_in_missing_part
step_in_missing_part-IsReal real c next r e h = elim (Bool-cases (c.name == dot_dot)) [
  | inl up ↦ absurd (ground arith)
  | inr down ↦ joined_within_limits-IsReal real c.name next r (name-IsName c e down) (ground arith)
]

not_a_directory_before-ResultReal :
    (es : List Expansion) (rest : ℕ) (from_rel : Bool) (path : Bytes) (regular : Bool)
    → IsReal path
    → StepReal (stop (not_a_directory_before es rest from_rel path regular))
unfolding not_a_directory_before
not_a_directory_before-ResultReal es rest from_rel path regular r =
    StepReal-stop (any (λ e. ltb e.rest rest) es) _ _ tt
      (StepReal-stop (origin_from_rel es from_rel) _ _ r tt)

at_leaf-StepReal :
    (c : Component) (rest : ℕ) (s : Walk) (next : Bytes) (kind : ExistingKind) (regular : Bool)
    → IsReal next
    → StepReal (at_leaf c rest s next kind regular)
unfolding at_leaf
at_leaf-StepReal c rest s next kind regular r =
    StepReal-either (ltb 0 rest) _ _
      (not_a_directory_before-ResultReal s.expansions rest c.from_rel next regular r)
      (StepReal-either c.slash_after _ _ tt r)

at_entry-StepReal :
    (c : Component) (rest : ℕ) (s : Walk) (next : Bytes) (found : Result ResolveError EntryKind)
    → IsReal next
    → StepReal (at_entry c rest s next found)
unfolding at_entry
at_entry-StepReal c rest s next (err e) r = tt
at_entry-StepReal c rest s next (ok EntryKind.missing) r =
    StepReal-either (last_has_rest s.expansions) _ _ tt r
at_entry-StepReal c rest s next (ok EntryKind.symlink) r = tt
at_entry-StepReal c rest s next (ok EntryKind.directory) r = r
at_entry-StepReal c rest s next (ok EntryKind.regular_file) r =
    at_leaf-StepReal c rest s next ExistingKind.file true r
at_entry-StepReal c rest s next (ok EntryKind.other) r =
    at_leaf-StepReal c rest s next ExistingKind.other false r

mark_last-IsElement :
    (b : Bool) (cs : List Component) → All IsElement cs → All IsElement (mark_last b cs)
unfolding mark_last
mark_last-IsElement b [] h = tt
mark_last-IsElement b (c ∷ []) (e, h) = (e, tt)
mark_last-IsElement b (c ∷ d ∷ cs) (e, h) = (e, mark_last-IsElement b (d ∷ cs) h)

abbrev InsertedReal : Result ResolveError (List Component × Walk) → Type 0
InsertedReal (ok (found, s)) = All IsElement found × IsReal s.real
InsertedReal (err _) = Unit

InsertedReal-either :
    (b : Bool) (x y : Result ResolveError (List Component × Walk))
    → InsertedReal x
    → InsertedReal y
    → InsertedReal (if b then x else y)
InsertedReal-either true x y hx hy = hx
InsertedReal-either false x y hx hy = hy

IsReal-either : (b : Bool) (x y : Bytes) → IsReal x → IsReal y → IsReal (if b then x else y)
IsReal-either true x y hx hy = hx
IsReal-either false x y hx hy = hy

Step-cases :
    (x : Step)
    → ((s : Walk) × (x ≡ go s))
      ⊎ (((next : Bytes) × (x ≡ link next))
          ⊎ ((r : Result ResolveError ResolvedPath) × (x ≡ stop r)))
Step-cases (go s) = inl (s, refl)
Step-cases (link next) = inr (inl (next, refl))
Step-cases (stop r) = inr (inr (r, refl))

module _ (ops : PathOps) where
  look_up-StepReal :
      (c : Component) (rest : ℕ) (s : Walk) (r : Result ResolveError Bytes)
      → ((next : Bytes) → r ≡ ok next → IsReal next)
      → StepReal (look_up ops c rest s r)
  unfolding look_up
  look_up-StepReal c rest s (err e) h = tt
  look_up-StepReal c rest s (ok next) h =
      elim (ops.can_search s.real)
        as (λ r. StepReal (elim r [
          | err e ↦ stop (err e)
          | ok false ↦ stop (err ResolveError.permission_denied)
          | ok true ↦ at_entry c rest s next (ops.entry_kind next)
        ])) [
          | err e ↦ tt
          | ok false ↦ tt
          | ok true ↦ at_entry-StepReal c rest s next (ops.entry_kind next) (h next refl)
        ]

  step-StepReal :
      (c : Component) (rest : ℕ) (s : Walk)
      → IsElement c
      → IsReal s.real
      → StepReal (step ops c rest s)
  unfolding step
  step-StepReal c rest s e r =
      StepReal-either (is_some s.missing_parent_exists) _ _
        (go_real-StepReal s (step_in_missing_part s.real c.name)
          (λ next h. step_in_missing_part-IsReal s.real c next r e h))
        (elim (Bool-cases (c.name == dot_dot)) [
          | inl up ↦ rw up (parent-IsReal s.real r)
          | inr down ↦ rw down (
              look_up-StepReal c rest s (joined_within_limits s.real c.name) (λ next h.
                joined_within_limits-IsReal s.real c.name next r (name-IsName c e down) h))
        ])

  finish-ResultReal : (s : Walk) → IsReal s.real → ResultReal (finish s)
  unfolding finish
  finish-ResultReal s r = elim (Option-cases s.terminal_link) [
    | inr (target, e) ↦ rw (finish, e) r
    | inl e ↦ elim (Option-cases s.missing_parent_exists) [
      | inr (parent_exists, g) ↦ rw (finish, e, g) (parent-IsReal s.real r)
      | inl g ↦ rw (finish, e, g) r
    ]
  ]

  inserted-InsertedReal :
      (c : Component) (rest : ℕ) (s : Walk) (target : Bytes)
      → IsReal s.real
      → InsertedReal (inserted c rest s target)
  unfolding inserted
  inserted-InsertedReal c rest s target r =
      InsertedReal-either (is_utf8 target) _ _
        (
          mark_last-IsElement c.slash_after (components target false)
              (components-IsElement target false),
          IsReal-either (starts_with slash target) root_path s.real top r,
        )
        tt

  insert_link-InsertedReal :
      (c : Component) (rest : ℕ) (s : Walk) (next : Bytes)
      → IsReal s.real
      → InsertedReal (insert_link ops c rest s next)
  unfolding insert_link
  insert_link-InsertedReal c rest s next r = elim (Result-cases (ops.read_link next)) [
    | inl (target, e) ↦ rw (insert_link, e) (inserted-InsertedReal c rest s target r)
    | inr (failure, e) ↦ rw (insert_link, e) tt
  ]

  -- The loop keeps a real path from a real path.
  walk-StepReal :
      (links : ℕ) (queue : List Component) (s : Walk)
      → All IsElement queue
      → IsReal s.real
      → StepReal (stop (walk ops links queue s))
  unfolding walk retain
  walk-StepReal links [] s q r = finish-ResultReal s r
  walk-StepReal zero (c ∷ queue) s (e, q) r =
      let rest = length queue in
      let kept = step-StepReal c rest (retain rest s) e r in
      elim (Step-cases (step ops c rest (retain rest s))) [
        | inl (s', h) ↦ rw (walk, h) (walk-StepReal zero queue s' q (rw h at kept))
        | inr (inl (next, h)) ↦ rw (walk, h) tt
        | inr (inr (result, h)) ↦ rw (walk, h) (rw h at kept)
      ]
  walk-StepReal (suc links) (c ∷ queue) s (e, q) r =
      let rest = length queue in
      let kept = step-StepReal c rest (retain rest s) e r in
      elim (Step-cases (step ops c rest (retain rest s))) [
        | inl (s', h) ↦ rw (walk, h) (walk-StepReal (suc links) queue s' q (rw h at kept))
        | inr (inl (next, h)) ↦
            let inside = insert_link-InsertedReal c rest (retain rest s) next r in
            elim (Result-cases (insert_link ops c rest (retain rest s) next)) [
              | inl ((found, s'), g) ↦
                  let both : InsertedReal (ok (found, s')) = rw g at inside in
                  rw (walk, h, g)
                    (walk-StepReal links (found ++ queue) s'
                      (All-append IsElement found queue both.0 q) both.1)
              | inr (failure, g) ↦ rw (walk, h, g) tt
            ]
        | inr (inr (result, h)) ↦ rw (walk, h) (rw h at kept)
      ]

  -- Whatever the file system answers, the path that a resolution gives is a real path: "/" or
  -- elements each behind one slash, none of them empty, "." or "..", and shorter than the limit of
  -- 4096 bytes.
  pub resolve_path-ResultReal :
      (root rel : Bytes) (result : ResolvedPath)
      → resolve_path ops root rel ≡ ok result
      → ResultReal result
  unfolding resolve_path start
  resolve_path-ResultReal root rel result h =
      let rel_parts = components rel true in
      let parts = mark_last (not (is_empty rel_parts)) (components root false) in
      let elements : All IsElement (parts ++ rel_parts) =
        All-append IsElement parts rel_parts
          (mark_last-IsElement _ (components root false) (components-IsElement root false))
          (components-IsElement rel true) in
      rw h at (walk-StepReal symlink_limit (parts ++ rel_parts) (start) elements top)
