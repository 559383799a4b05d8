-- ===== src/Config/Include/Listed.antt =====
-- No value of include that is accepted is lost.
use remote_merge.Prelude.{
  true, false, not, ◌&&◌, List, [], ◌∷◌, ◌++◌, none, ◌==◌, nat_eq, list_eq, any, All, All-map, Some,
  Some-append_left, Some-append_right, ◌≡◌, ◌⊎◌, inl, inr, refl, arith, Bool-cases, Option-cases,
}
use remote_merge.Text.{Bytes, is_empty, at_most}
use remote_merge.Paths.{is_below, is_within}
use remote_merge.Config.Include.{
  listed, IncludeWarning, strip_leading_dot_slash, join_normal_elements, invalid_include_warning,
  Normalized, add_value, has_value, take_value, take_values, place_path, sort_paths, dedup_after,
  dedup, keep_outer, drop_nested_include_paths, normalize_include_paths,
}

-- The value is neither empty nor refused.
abbrev pub Accepted : Bytes → Type 0
Accepted raw =
    (is_empty (strip_leading_dot_slash raw) ≡ false)
    × (invalid_include_warning raw (strip_leading_dot_slash raw) ≡ none)

-- What an accepted value stands for.
abbrev pub standing : Bytes → Bytes
standing raw = join_normal_elements (strip_leading_dot_slash raw)

abbrev Has : Bytes → List Bytes → Type 0
Has value values = Some (λ v. v ≡ value) values

has_value-Has :
    (values : List Bytes) (value : Bytes) → has_value values value ≡ true → Has value values
has_value-Has [] value h = absurd (ground arith)
has_value-Has (v ∷ vs) value h = elim (Bool-cases (v == value)) [
  | inl e ↦ inl (ground arith)
  | inr e ↦ inr (has_value-Has vs value (ground arith))
]

add_value-keeps :
    (value joined : Bytes) (n : Normalized)
    → Has value n.values
    → Has value (add_value joined n).values
unfolding add_value
add_value-keeps value joined n h = elim (Bool-cases (is_empty joined)) [
  | inl e ↦ rw e h
  | inr e ↦ elim (Bool-cases (has_value n.values joined)) [
    | inl f ↦ rw (e, f) h
    | inr f ↦ rw (e, f) (Some-append_left (λ v. v ≡ value) n.values (joined ∷ []) h)
  ]
]

add_value-whole :
    (joined : Bytes) (n : Normalized) → n.whole ≡ true → (add_value joined n).whole ≡ true
unfolding add_value
add_value-whole joined n h = ground arith

add_value-Has :
    (joined : Bytes) (n : Normalized)
    → (add_value joined n).whole ≡ false
    → Has joined (add_value joined n).values
unfolding add_value
add_value-Has joined n h = elim (Bool-cases (is_empty joined)) [
  | inl e ↦ absurd (ground arith)
  | inr e ↦ elim (Bool-cases (has_value n.values joined)) [
    | inl f ↦ rw (e, f) (has_value-Has n.values joined f)
    | inr f ↦ rw (e, f) (Some-append_right (λ v. v ≡ joined) n.values (joined ∷ []) (inl refl))
  ]
]

take_value-keeps :
    (value raw text : Bytes) (n : Normalized)
    → Has value n.values
    → Has value (take_value raw text n).values
unfolding take_value
take_value-keeps value raw text n h = elim (Bool-cases (is_empty text)) [
  | inl e ↦ rw (take_value, e) h
  | inr e ↦ elim (Option-cases (invalid_include_warning raw text)) [
    | inl f ↦ rw (take_value, e, f) (add_value-keeps value (join_normal_elements text) n h)
    | inr (warning, f) ↦ rw (take_value, e, f) h
  ]
]

take_value-whole :
    (raw text : Bytes) (n : Normalized) → n.whole ≡ true → (take_value raw text n).whole ≡ true
unfolding take_value
take_value-whole raw text n h = elim (Bool-cases (is_empty text)) [
  | inl e ↦ rw (take_value, e) h
  | inr e ↦ elim (Option-cases (invalid_include_warning raw text)) [
    | inl f ↦ rw (take_value, e, f) (add_value-whole (join_normal_elements text) n h)
    | inr (warning, f) ↦ rw (take_value, e, f) h
  ]
]

take_values-keeps :
    (value : Bytes) (paths : List Bytes) (n : Normalized)
    → Has value n.values
    → Has value (take_values paths n).values
unfolding take_values
take_values-keeps value [] n h = h
take_values-keeps value (raw ∷ rest) n h =
    take_values-keeps value rest (take_value raw (strip_leading_dot_slash raw) n)
      (take_value-keeps value raw (strip_leading_dot_slash raw) n h)

take_values-whole :
    (paths : List Bytes) (n : Normalized) → n.whole ≡ true → (take_values paths n).whole ≡ true
unfolding take_values
take_values-whole [] n h = h
take_values-whole (raw ∷ rest) n h =
    take_values-whole rest (take_value raw (strip_leading_dot_slash raw) n)
      (take_value-whole raw (strip_leading_dot_slash raw) n h)

take_values-Has :
    (paths : List Bytes) (n : Normalized)
    → (take_values paths n).whole ≡ false
    → All (λ raw. Accepted raw → Has (standing raw) (take_values paths n).values) paths
unfolding take_values take_value
take_values-Has [] n h = tt
take_values-Has (raw ∷ rest) n h =
    let text = strip_leading_dot_slash raw in
    let next = take_value raw text n in
    (
      (λ (filled, fine).
          let same : next ≡ add_value (standing raw) n = ground arith in
          let open_ : next.whole ≡ false = elim (Bool-cases next.whole) [
            | inl e ↦ let whole = take_values-whole rest next e in absurd (ground arith)
            | inr e ↦ e
          ] in
          take_values-keeps (standing raw) rest next
            (rw same (add_value-Has (standing raw) n (rw same at open_)))),
      take_values-Has rest next h,
    )

place_path-Has :
    (value p : Bytes) (ps : List Bytes) → (p ≡ value) ⊎ Has value ps → Has value (place_path p ps)
unfolding place_path
place_path-Has value p [] h = h
place_path-Has value p (next ∷ ps) h = elim (Bool-cases (at_most p next)) [
  | inl e ↦ rw e h
  | inr e ↦ rw e (elim h [
    | inl f ↦ inr (place_path-Has value p ps (inl f))
    | inr g ↦ elim g [ inl f ↦ inl f | inr f ↦ inr (place_path-Has value p ps (inr f)) ]
  ])
]

sort_paths-Has : (value : Bytes) (ps : List Bytes) → Has value ps → Has value (sort_paths ps)
unfolding sort_paths
sort_paths-Has value [] h = h
sort_paths-Has value (p ∷ ps) h =
    place_path-Has value p (sort_paths ps)
      (elim h [ inl e ↦ inl e | inr f ↦ inr (sort_paths-Has value ps f) ])

dedup_after-Has :
    (value last : Bytes) (ps : List Bytes)
    → Has value ps
    → (last ≡ value) ⊎ Has value (dedup_after last ps)
unfolding dedup_after
dedup_after-Has value last [] h = absurd h
dedup_after-Has value last (p ∷ ps) h = elim (Bool-cases (p == last)) [
  | inl e ↦ rw e (elim h [ inl f ↦ inl (ground arith) | inr f ↦ dedup_after-Has value last ps f ])
  | inr e ↦ rw e (elim h [ inl f ↦ inr (inl f) | inr f ↦ inr (dedup_after-Has value p ps f) ])
]

dedup-Has : (value : Bytes) (ps : List Bytes) → Has value ps → Has value (dedup ps)
unfolding dedup
dedup-Has value [] h = h
dedup-Has value (p ∷ ps) h = elim h [ inl e ↦ inl e | inr f ↦ dedup_after-Has value p ps f ]

-- A value that is kept, or one that the value lies below.
abbrev pub Covers : Bytes → Bytes → Type 0
Covers value v = is_within value v ≡ true

any_below-Covers :
    (value : Bytes) (kept : List Bytes)
    → any (λ parent. is_below value parent) kept ≡ true
    → Some (Covers value) kept
unfolding is_within
any_below-Covers value [] h = absurd (ground arith)
any_below-Covers value (k ∷ ks) h = elim (Bool-cases (is_below value k)) [
  | inl e ↦ inl (ground arith)
  | inr e ↦ inr (any_below-Covers value ks (ground arith))
]

keep_outer-keeps :
    (value : Bytes) (kept ps : List Bytes)
    → Some (Covers value) kept
    → Some (Covers value) (keep_outer kept ps)
unfolding keep_outer
keep_outer-keeps value kept [] h = h
keep_outer-keeps value kept (p ∷ ps) h =
    elim (Bool-cases (any (λ parent. is_below p parent) kept)) [
      | inl e ↦ rw (keep_outer, e) (keep_outer-keeps value kept ps h)
      | inr e ↦
          rw (keep_outer, e)
            (keep_outer-keeps value (kept ++ p ∷ []) ps
              (Some-append_left (Covers value) kept (p ∷ []) h))
    ]

is_within_self : (p : Bytes) → is_within p p ≡ true
unfolding is_within
is_within_self p = ground arith

keep_outer-Covers :
    (value : Bytes) (kept ps : List Bytes) → Has value ps → Some (Covers value) (keep_outer kept ps)
unfolding keep_outer
keep_outer-Covers value kept [] h = absurd h
keep_outer-Covers value kept (p ∷ ps) (inr h) =
    elim (Bool-cases (any (λ parent. is_below p parent) kept)) [
      | inl e ↦ rw (keep_outer, e) (keep_outer-Covers value kept ps h)
      | inr e ↦ rw (keep_outer, e) (keep_outer-Covers value (kept ++ p ∷ []) ps h)
    ]
keep_outer-Covers value kept (p ∷ ps) (inl h) =
    elim (Bool-cases (any (λ parent. is_below p parent) kept)) [
      | inl e ↦
          rw (keep_outer, e) (keep_outer-keeps value kept ps (rw h at (any_below-Covers p kept e)))
      | inr e ↦
          rw (keep_outer, e)
            (keep_outer-keeps value (kept ++ p ∷ []) ps
              (Some-append_right (Covers value) kept (p ∷ []) (inl (rw h (is_within_self value)))))
    ]

-- Where include has values that restrict the scan, every value that was written and accepted is
-- within one of those that are listed: no part of the tree that was asked for is lost.
pub normalize_include_paths-Covers :
    (paths values : List Bytes) (warnings : List IncludeWarning)
    → normalize_include_paths paths ≡ (listed values, warnings)
    → All (λ raw. Accepted raw → Some (Covers (standing raw)) values) paths
unfolding normalize_include_paths drop_nested_include_paths
normalize_include_paths-Covers paths values warnings h =
    let n = take_values paths (record { values = []; warnings = []; whole = false }) in
    elim (Bool-cases n.whole) [
      | inl e ↦ absurd (ground arith)
      | inr e ↦ elim (Bool-cases (is_empty n.values && not (is_empty n.warnings))) [
        | inl f ↦ absurd (ground arith)
        | inr f ↦
            let same : drop_nested_include_paths n.values ≡ values = ground arith in
            All-map (λ raw. Accepted raw → Has (standing raw) n.values)
              (λ raw. Accepted raw → Some (Covers (standing raw)) values)
              (λ raw has accepted. rw same at (
                keep_outer-Covers (standing raw) [] (dedup (sort_paths n.values)) (
                  dedup-Has (standing raw) (sort_paths n.values)
                    (sort_paths-Has (standing raw) n.values (has accepted)))))
              paths (take_values-Has paths (record { values = []; warnings = []; whole = false }) e)
      ]
    ]
