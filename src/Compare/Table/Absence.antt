-- ===== src/Compare/Table/Absence.antt =====
-- A side is taken to lack a path only on a complete listing that does not name the path.
use remote_merge.Prelude.{
  true, false, List, [], ◌∷◌, Option, none, some, ◌==◌, any, Bool-cases, ◌≡◌, ◌≢◌, ◌⊎◌, inl, inr,
  refl, list_eq, nat_eq, arith,
}
use remote_merge.Text.{Bytes}
use remote_merge.Scan.{Listing}
use remote_merge.Compare.State.{absent}
use remote_merge.Compare.Verdict.{Role, role_eq}
use remote_merge.Compare.Table.{
  PathStates, Table, found_in, add_side, add_sides, roles, cut_short, fill_side, fill, fill_path,
  state_table,
}
use remote_merge.Compare.Table.OnePath.{
  names, add_found-eq, marked, Clean, Marked, found_in_present, add_path-Clean, add_path-Marked,
  role_listed,
}

module _ (listings : Role → Option Listing) (outside : Role → List Bytes) (path : Bytes) where
  add_side-Clean :
      (o : Option Listing) (role : Role) (t : Table)
      → Clean (t path)
      → Clean (add_side o role (outside role) t path)
  unfolding add_side
  add_side-Clean none role t c = c
  add_side-Clean (some l) role t c =
      rw add_found-eq (add_path-Clean path role (outside role) _ _ (found_in_present l) c)

  -- The listing of the side names the path.
  Named : Role → Role → Option Listing → Type 0
  Named r role none = ⊥
  Named r role (some l) = (r ≡ role) × (names l path ≡ true)

  listed_entry :
      (r role : Role) (l : Listing) (o : Option Listing)
      → o ≡ some l
      → r ≡ role
      → names l path ≡ true
      → Named r role o
  unfolding Named
  listed_entry r role l none e same n = absurd (ground arith)
  listed_entry r role l (some k) e same n = (same, ground arith)

  add_side-Marked :
      (r : Role) (o : Option Listing) (role : Role) (t : Table)
      → Marked r (t path) ⊎ Named r role o
      → Marked r (add_side o role (outside role) t path)
  unfolding add_side Named
  add_side-Marked r none role t (inl m) = m
  add_side-Marked r none role t (inr n) = absurd n
  add_side-Marked r (some l) role t m =
      rw add_found-eq (add_path-Marked path r role (outside role) (found_in l) (t path) m)

  add_sides-Clean :
      (rs : List Role) (t : Table) → Clean (t path) → Clean (add_sides listings outside rs t path)
  unfolding add_sides
  add_sides-Clean [] t c = c
  add_sides-Clean (role ∷ rs) t c = add_sides-Clean rs _ (add_side-Clean (listings role) role t c)

  add_sides-Marked :
      (r : Role) (l : Listing)
      → listings r ≡ some l
      → names l path ≡ true
      → (rs : List Role) (t : Table) → Marked r (t path) ⊎ (any (λ role. r == role) rs ≡ true)
      → Marked r (add_sides listings outside rs t path)
  unfolding add_sides Named
  add_sides-Marked r l e n [] t (inl m) = m
  add_sides-Marked r l e n [] t (inr m) = absurd (ground arith)
  add_sides-Marked r l e n (role ∷ rs) t (inl m) =
      add_sides-Marked r l e n rs _ (inl (add_side-Marked r (listings role) role t (inl m)))
  add_sides-Marked r l e n (role ∷ rs) t (inr m) = elim (Bool-cases (r == role)) [
    | inl hit ↦ add_sides-Marked r l e n rs _ (
        inl (
          add_side-Marked r (listings role) role t
            (inr (listed_entry r role l (listings role) (ground arith) (ground arith) n))))
    | inr miss ↦ add_sides-Marked r l e n rs _ (inr (ground arith))
  ]

  -- `fill_side` leaves the side `r` alone, or finds its listing complete and the path not marked.
  fill_side-cases :
      (r role : Role) (o : Option Listing) (ps : PathStates)
      → let after = fill_side o role ps in
        ((after.states r ≡ ps.states r) × (marked after r ≡ false → marked ps r ≡ false))
        ⊎ ((r ≡ role)
            × ((l : Listing) × (o ≡ some l) × (cut_short l ≡ false) × (marked ps r ≡ false)))
  unfolding fill_side marked
  fill_side-cases r role none ps = inl (refl, λ m. m)
  fill_side-cases r role (some l) ps = elim (Bool-cases (marked ps role)) [
    | inl done ↦ inl (ground arith, λ m. ground arith)
    | inr open_side ↦ elim (Bool-cases (cut_short l)) [
      | inl short ↦ inl (ground arith, λ m. ground arith)
      | inr complete ↦ elim (Bool-cases (r == role)) [
        | inl same ↦ inr (ground arith, (l, refl, complete, ground arith))
        | inr other_side ↦ inl (ground arith, λ m. ground arith)
      ]
    ]
  ]

  fill-absent :
      (r : Role) (rs : List Role) (ps : PathStates)
      → ps.states r ≢ some absent
      → (fill listings rs ps).states r ≡ some absent
      → (l : Listing) × (listings r ≡ some l) × (cut_short l ≡ false) × (marked ps r ≡ false)
  unfolding fill
  fill-absent r [] ps n e = absurd (n e)
  fill-absent r (role ∷ rs) ps n e = elim (fill_side-cases r role (listings role) ps) [
    | inl (kept, marks) ↦
        let (l, found, complete, m) =
          fill-absent r rs (fill_side (listings role) role ps) (λ a. n (ground arith)) e in
        (l, found, complete, marks m)
    | inr (same, (l, found, complete, m)) ↦ (l, ground arith, complete, m)
  ]

  table_path-absent :
      (r : Role) (o : Option PathStates) (ps : PathStates)
      → Clean o
      → ((l : Listing) → listings r ≡ some l → names l path ≡ true → Marked r o)
      → fill_path listings o ≡ some ps
      → ps.states r ≡ some absent
      → (l : Listing) × (listings r ≡ some l) × (cut_short l ≡ false) × (names l path ≡ false)
  unfolding fill_path
  table_path-absent r none ps c m e a = absurd (ground arith)
  table_path-absent r (some before) ps c m e a =
      let (l, found, complete, open_side) = fill-absent r roles before (c r) (ground arith) in
      (
        l,
        found,
        complete,
        elim (Bool-cases (names l path)) [
          | inl there ↦ let hit = m l found there in absurd (ground arith)
          | inr gone ↦ gone
        ],
      )

  -- A side is taken to lack a path only if its listing was given, was neither cut short at the
  -- limit nor stopped at a cycle, and does not name the path.
  pub state_table-absent :
      (r : Role) (ps : PathStates)
      → state_table listings outside path ≡ some ps
      → ps.states r ≡ some absent
      → (l : Listing) × (listings r ≡ some l)
        × (l.truncated ≡ false)
        × (l.cycle ≡ none)
        × (names l path ≡ false)
  unfolding state_table cut_short
  state_table-absent r ps e a =
      let (l, found, complete, gone) =
        table_path-absent r (add_sides listings outside roles (λ _. none) path) ps
          (add_sides-Clean roles (λ _. none) tt)
          (λ l found there.
            add_sides-Marked r l found there roles (λ _. none) (inr (role_listed r)))
          e a in
      (l, found, ground arith, ground arith, gone)
