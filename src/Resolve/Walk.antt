-- ===== src/Resolve/Walk.antt =====
-- The loop of `resolve_path` (path_resolution/walk.rs). It needs no fuel: every link that is
-- followed takes one of the links that are left, and every other element shortens the queue.
use remote_merge.Prelude.{
  ℕ, zero, suc, Bool, true, false, not, ◌&&◌, ◌||◌, List, [], ◌∷◌, ◌++◌, Option, none, some, Result,
  ok, err, ◌>>=◌, ◌==◌, nat_eq, list_eq, length, filter, leb, ltb, is_some, if◌then◌else◌,
}
use remote_merge.Text.{Bytes, slash, starts_with, is_empty}
use remote_merge.Content.{is_utf8}
use remote_merge.Paths.{dot_dot}
use remote_merge.Resolve.{
  ResolveError, ExistingKind, EntryKind, ResolvedPath, missing, exists, symlink, PathOps, Component,
  components, Expansion, root_path, parent, joined_within_limits, step_in_missing_part,
  not_a_directory_before, symlink_limit, too_many_links, not_a_directory, permission_denied,
  dangling_symlink, non_utf8_path,
}

-- The variables of the loop but for the queue and the links left.
pub record Walk : Type 0 where
  pub real : Bytes
  pub expansions : List Expansion
  pub terminal_link : Option Bytes
  pub missing_parent_exists : Option Bool
  pub kind : ExistingKind

-- What the loop does next: go on behind the element, follow the link at a path, or end.
pub data Step : Type 0 where
  go : Walk → Step
  link : Bytes → Step
  stop : Result ResolveError ResolvedPath → Step

unfoldable pub go_real : Walk → Result ResolveError Bytes → Step
go_real s (ok real) = go (record s { real = real })
go_real s (err e) = stop (err e)

last_rest : List Expansion → Option ℕ
last_rest [] = none
last_rest (e ∷ []) = some e.rest
last_rest (e ∷ f ∷ es) = last_rest (f ∷ es)

unfoldable pub last_has_rest : List Expansion → Bool
unfolding last_rest
last_has_rest es = elim (last_rest es) [ some rest ↦ ltb 0 rest | none ↦ false ]

-- An existing element that is no directory and no link.
unfoldable pub at_leaf : Component → ℕ → Walk → Bytes → ExistingKind → Bool → Step
unfolding not_a_directory_before
at_leaf c rest s next kind regular =
    if ltb 0 rest
    then stop (not_a_directory_before s.expansions rest c.from_rel next regular)
    else if c.slash_after
    then stop (err not_a_directory)
    else go (record s { kind = kind; real = next })

unfoldable pub at_entry : Component → ℕ → Walk → Bytes → Result ResolveError EntryKind → Step
unfolding at_leaf last_has_rest
at_entry c rest s next (err e) = stop (err e)
at_entry c rest s next (ok EntryKind.missing) =
    if last_has_rest s.expansions
    then stop (err dangling_symlink)
    else go (record s { missing_parent_exists = some (rest == 0); real = next })
at_entry c rest s next (ok EntryKind.symlink) = link next
at_entry c rest s next (ok EntryKind.directory) =
    go (record s { kind = ExistingKind.directory; real = next })
at_entry c rest s next (ok EntryKind.regular_file) = at_leaf c rest s next ExistingKind.file true
at_entry c rest s next (ok EntryKind.other) = at_leaf c rest s next ExistingKind.other false

-- `expansions.retain(…)`
unfoldable pub retain : ℕ → Walk → Walk
retain rest s = record s { expansions = filter (λ e. leb e.rest rest) s.expansions }

unfoldable pub mark_last : Bool → List Component → List Component
mark_last b [] = []
mark_last b (c ∷ []) = record c { slash_after = c.slash_after || b } ∷ []
mark_last b (c ∷ d ∷ cs) = c ∷ mark_last b (d ∷ cs)

-- The link read as text, and the walk with its elements to come.
unfoldable pub inserted : Component → ℕ → Walk → Bytes → Result ResolveError (List Component × Walk)
unfolding mark_last components
inserted c rest s target =
    if is_utf8 target
    then ok (
      mark_last c.slash_after (components target false),
      record s {
        real = if starts_with slash target then root_path else s.real;
        expansions = s.expansions ++ (record { rest = rest; from_rel = c.from_rel } ∷ []);
        terminal_link = if c.from_rel && rest == 0 then some target else s.terminal_link;
      },
    )
    else err non_utf8_path

unfoldable pub finish : Walk → ResolvedPath
finish s = elim s.terminal_link [
  | some link_target ↦
      symlink link_target s.real (if is_some s.missing_parent_exists then none else some s.kind)
  | none ↦ elim s.missing_parent_exists [
    | some parent_exists ↦ missing (parent s.real) parent_exists
    | none ↦ exists s.real s.kind
  ]
]

unfoldable pub start : Walk
start = record {
  real = root_path;
  expansions = [];
  terminal_link = none;
  missing_parent_exists = none;
  kind = ExistingKind.directory;
}

module _ (ops : PathOps) where
  unfoldable pub look_up : Component → ℕ → Walk → Result ResolveError Bytes → Step
  unfolding at_entry
  look_up c rest s (err e) = stop (err e)
  look_up c rest s (ok next) = elim (ops.can_search s.real) [
    | err e ↦ stop (err e)
    | ok false ↦ stop (err permission_denied)
    | ok true ↦ at_entry c rest s next (ops.entry_kind next)
  ]

  -- One element taken from the queue, before the links left are looked at. The expansions are
  -- those that the element or one behind it belongs to.
  unfoldable pub step : Component → ℕ → Walk → Step
  unfolding go_real look_up
  step c rest s =
      if is_some s.missing_parent_exists
      then go_real s (step_in_missing_part s.real c.name)
      else if c.name == dot_dot
      then go (record s { real = parent s.real })
      else look_up c rest s (joined_within_limits s.real c.name)

  unfoldable pub insert_link :
      Component → ℕ → Walk → Bytes → Result ResolveError (List Component × Walk)
  unfolding inserted
  insert_link c rest s next = do target ← ops.read_link next; inserted c rest s target

  -- The loop, by the links left and the queue.
  unfoldable pub walk : ℕ → List Component → Walk → Result ResolveError ResolvedPath
  unfolding step retain insert_link finish
  walk links [] s = ok (finish s)
  walk zero (c ∷ queue) s = elim (step c (length queue) (retain (length queue) s)) [
    | go s' ↦ walk zero queue s'
    | link next ↦ err too_many_links
    | stop result ↦ result
  ]
  walk (suc links) (c ∷ queue) s = elim (step c (length queue) (retain (length queue) s)) [
    | go s' ↦ walk (suc links) queue s'
    | link next ↦ elim (insert_link c (length queue) (retain (length queue) s) next) [
      | ok (found, s') ↦ walk links (found ++ queue) s'
      | err e ↦ err e
    ]
    | stop result ↦ result
  ]

  unfoldable pub resolve_path : Bytes → Bytes → Result ResolveError ResolvedPath
  unfolding walk start mark_last components
  resolve_path root rel =
      let rel_components = components rel true in
      let root_components = components root false in
      walk symlink_limit
        (mark_last (not (is_empty rel_components)) root_components ++ rel_components) start
