-- ===== src/Treat/Scope/Covered.antt =====
-- The scan reaches every path that is handled.
use remote_merge.Prelude.{
  ℕ, Bool, true, false, ◌||◌, List, [], ◌∷◌, ◌++◌, map, some, ◌==◌, nat_eq, list_eq, any, length,
  if◌then◌else◌, ◌≡◌, refl, sym, ap, ◌∙◌, arith, Bool-cases, Option-cases, inl, inr,
}
use mathlib.Core.Path.{subst}
use remote_merge.Text.{Bytes, slash, is_empty, rsplit_once}
use remote_merge.Paths.{RelPath, is_below, is_within, ancestors, normalized}
use remote_merge.Paths.Ancestors.{is_below-ancestors}
use remote_merge.Paths.Below.{is_below_trans, strip_prefix-append}
use remote_merge.Treat.Scope.{
  MergeScope, whole, below, MergeTargets, has_name, selects, add_new, parent_of, scope_below,
  targets_of, merge_targets, dirs_of, scans_all, with_slash,
}

-- The scan of the scope reaches the path.
abbrev pub covers : MergeScope → Bytes → Bool
covers whole path = true
covers (below dirs) path = any (λ dir. is_within path dir) dirs

any_mono :
    (p q : Bytes → Bool) (xs : List Bytes)
    → ((x : Bytes) → p x ≡ true → q x ≡ true)
    → any p xs ≡ true
    → any q xs ≡ true
any_mono p q [] h e = absurd (ground arith)
any_mono p q (x ∷ xs) h e = elim (Bool-cases (p x)) [
  | inl here ↦ rw (h x here) refl
  | inr not_here ↦ ground (arith, any_mono p q xs h (ground arith))
]

any-swap :
    (named cs : List Bytes)
    → any (λ c. has_name named c) cs ≡ true
    → any (λ n. any (λ c. c == n) cs) named ≡ true
unfolding has_name
any-swap named [] h = absurd (ground arith)
any-swap named (c ∷ cs) h = elim (Bool-cases (has_name named c)) [
  | inl here ↦ any_mono _ _ named (λ n e. ground arith) here
  | inr not_here ↦ any_mono _ _ named (λ n e. ground arith) (any-swap named cs (ground arith))
]

selected-within :
    (t : MergeTargets) (path : Bytes)
    → is_empty t.named ≡ false
    → selects t path ≡ true
    → any (λ n. is_within path n) t.named ≡ true
unfolding selects is_within
selected-within t path some_name h =
    any_mono _ _ t.named (λ n e. rw (is_within, is_below-ancestors path n) e)
      (any-swap t.named (path ∷ ancestors path) (ground arith))

any-both : (p : Bytes → Bool) (xs ys : List Bytes) → any p (xs ++ ys) ≡ (any p xs || any p ys)
any-both p [] ys = refl
any-both p (x ∷ xs) ys = ground (arith, any-both p xs ys)

any-has_name :
    (p : Bytes → Bool) (found : List Bytes) (x : Bytes)
    → has_name found x ≡ true
    → p x ≡ true
    → any p found ≡ true
unfolding has_name
any-has_name p found x h e =
    any_mono _ _ found (λ n same. let same_name : n ≡ x = ground arith in rw same_name e) h

-- Leaving out what is there already loses nothing.
any-add_new :
    (p : Bytes → Bool) (found items : List Bytes)
    → any p found ≡ true
    → any p (add_new found items) ≡ true
unfolding add_new
any-add_new p found [] h = h
any-add_new p found (x ∷ xs) h = elim (Bool-cases (has_name found x)) [
  | inl known ↦ rw known (any-add_new p found xs h)
  | inr new ↦ rw new (any-add_new p (found ++ (x ∷ [])) xs (rw (any-both, h) refl))
]

any-added :
    (p : Bytes → Bool) (found items : List Bytes)
    → any p items ≡ true
    → any p (add_new found items) ≡ true
unfolding add_new
any-added p found [] h = absurd (ground arith)
any-added p found (x ∷ xs) h = elim (Bool-cases (p x)) [
  | inr not_here ↦
      any-added p (if has_name found x then found else found ++ (x ∷ [])) xs (ground arith)
  | inl here ↦ elim (Bool-cases (has_name found x)) [
    | inl known ↦ rw known (any-add_new p found xs (any-has_name p found x known here))
    | inr new ↦
        rw new (any-add_new p (found ++ (x ∷ [])) xs (any-both p found (x ∷ []) ∙ ground arith))
  ]
]

rsplit_once-joins :
    (sep : ℕ) (text before name : Bytes)
    → rsplit_once sep text ≡ some (before, name)
    → text ≡ before ++ (sep ∷ name)
unfolding rsplit_once
rsplit_once-joins sep [] before name h = absurd (ground arith)
rsplit_once-joins sep (c ∷ cs) before name h = elim (Option-cases (rsplit_once sep cs)) [
  | inl e ↦ ground arith
  | inr ((front, back), e) ↦
      let tail : cs ≡ front ++ (sep ∷ back) = rsplit_once-joins sep cs front back e in
      let same_front : c ∷ front ≡ before = ground arith in
      let same_back : back ≡ name = ground arith in
      rw (← same_front, ← same_back) (ap (λ (t : Bytes). c ∷ t) tail)
]

below_parent : (before name : Bytes) → is_below (before ++ (slash ∷ name)) before ≡ true
unfolding is_below nat_eq
below_parent before name = rw (is_below, strip_prefix-append before (slash ∷ name)) refl

within-below :
    (path n base : Bytes)
    → is_within path n ≡ true
    → is_below n base ≡ true
    → is_within path base ≡ true
unfolding is_within
within-below path n base h k = elim (Bool-cases (path == n)) [
  | inl same_path ↦ let same : path ≡ n = ground arith in rw (is_within, same, k) (ground arith)
  | inr other ↦
      let deeper : is_below path base ≡ true = is_below_trans path n base (ground arith) k in
      rw (is_within, deeper) (ground arith)
]

within-parent :
    (path n : Bytes)
    → is_empty (parent_of n) ≡ false
    → is_within path n ≡ true
    → is_within path (parent_of n) ≡ true
unfolding is_within parent_of
within-parent path n some_parent h = elim (Option-cases (rsplit_once slash n)) [
  | inl e ↦ absurd (ground arith)
  | inr ((before, name), e) ↦
      let joined : n ≡ before ++ (slash ∷ name) = rsplit_once-joins slash n before name e in
      let found : parent_of n ≡ before = ground arith in
      rw found (within-below path n before h (rw joined (below_parent before name)))
]

any-parents :
    (path : Bytes) (names : List Bytes)
    → any (λ dir. is_empty dir) (map parent_of names) ≡ false
    → any (λ n. is_within path n) names ≡ true
    → any (λ dir. is_within path dir) (map parent_of names) ≡ true
any-parents path [] e h = absurd (ground arith)
any-parents path (n ∷ ns) e h = elim (Bool-cases (is_within path n)) [
  | inl here ↦ rw (within-parent path n (ground arith) here) refl
  | inr not_here ↦ ground (arith, any-parents path ns (ground arith) (ground arith))
]

scope_below-covers :
    (path : Bytes) (dirs : List Bytes)
    → (any (λ dir. is_empty dir) dirs ≡ false → any (λ dir. is_within path dir) dirs ≡ true)
    → covers (scope_below dirs) path ≡ true
unfolding scope_below
scope_below-covers path dirs h = elim (Bool-cases (any (λ dir. is_empty dir) dirs)) [
  | inl at_root ↦ rw (scope_below, at_root) refl
  | inr below_root ↦ rw (scope_below, below_root) (any-added _ [] dirs (h below_root))
]

dirs_of-within :
    (paths : List RelPath) (named : List Bytes) (path : Bytes)
    → any (λ n. is_within path n) named ≡ true
    → any (λ dir. is_empty dir) (dirs_of paths named) ≡ false
    → any (λ dir. is_within path dir) (dirs_of paths named) ≡ true
unfolding dirs_of
dirs_of-within paths named path h e = elim (Bool-cases (with_slash paths == length paths)) [
  | inl directories ↦ rw (dirs_of, directories) h
  | inr files ↦ rw (dirs_of, files) (any-parents path named (rw (dirs_of, files) at e) h)
]

targets_of-covers :
    (paths : List RelPath) (delete : Bool) (named : List Bytes) (path : Bytes)
    → is_empty named ≡ false
    → selects (targets_of paths delete named) path ≡ true
    → covers (targets_of paths delete named).scope path ≡ true
unfolding targets_of selects
targets_of-covers paths delete named path some_name h = elim (Bool-cases (scans_all paths delete)) [
  | inl all ↦ rw (targets_of, all) refl
  | inr some_dirs ↦
      let found : targets_of paths delete named
          ≡ record { scope = scope_below (dirs_of paths named); named = named } =
        rw (targets_of, some_dirs) refl in
      let within =
        selected-within (record { scope = scope_below (dirs_of paths named); named = named }) path
          some_name (subst (λ t. selects t path ≡ true) found h) in
      subst (λ t. covers t.scope path ≡ true) (sym found)
        (scope_below-covers path (dirs_of paths named) (dirs_of-within paths named path within))
]

nonempty-append : (found : List Bytes) (x : Bytes) → is_empty (found ++ (x ∷ [])) ≡ false
nonempty-append [] x = refl
nonempty-append (f ∷ fs) x = refl

nonempty-add_new :
    (found items : List Bytes) → is_empty found ≡ false → is_empty (add_new found items) ≡ false
unfolding add_new
nonempty-add_new found [] h = h
nonempty-add_new found (x ∷ xs) h = elim (Bool-cases (has_name found x)) [
  | inl known ↦ rw known (nonempty-add_new found xs h)
  | inr new ↦ rw new (nonempty-add_new (found ++ (x ∷ [])) xs (nonempty-append found x))
]

-- Of at least one path given, the scan reaches every path that is handled: the whole of root_dir is
-- scanned, or the path is one of the directories scanned or lies below one.
pub merge_targets-covers :
    (p : RelPath) (ps : List RelPath) (delete : Bool) (path : Bytes)
    → selects (merge_targets (p ∷ ps) delete) path ≡ true
    → covers (merge_targets (p ∷ ps) delete).scope path ≡ true
unfolding merge_targets
merge_targets-covers p ps delete path h =
    let normals = map (λ path. normalized path.typed) (p ∷ ps) in
    let named = add_new [] normals in
    elim (Bool-cases (any (λ normal. is_empty normal) normals)) [
      | inl at_root ↦ rw (merge_targets, at_root) refl
      | inr below_root ↦
          let found : merge_targets (p ∷ ps) delete ≡ targets_of (p ∷ ps) delete named =
            rw (merge_targets, below_root) refl in
          subst (λ t. covers t.scope path ≡ true) (sym found)
            (targets_of-covers (p ∷ ps) delete named path
              (nonempty-add_new (normalized p.typed ∷ []) (map (λ path. normalized path.typed) ps)
                refl)
              (subst (λ t. selects t path ≡ true) found h))
    ]
