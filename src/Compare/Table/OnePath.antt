-- ===== src/Compare/Table/OnePath.antt =====
-- What the listings of one side do to the states of one path.
use remote_merge.Prelude.{
  Bool, true, ◌||◌, List, [], ◌∷◌, map, Option, none, some, ◌==◌, any, All, All-append, is_some,
  Bool-cases, if◌then◌else◌, ◌≡◌, ◌≢◌, ◌⊎◌, inl, inr, refl, list_eq, nat_eq, ap, arith, ◌∙◌,
}
use remote_merge.Text.{Bytes}
use remote_merge.Scan.{ListedEntry, Listing, ListedKind}
use remote_merge.Compare.State.{absent, of_kind, of_entry}
use remote_merge.Compare.Verdict.{Role, role_eq}
use remote_merge.Compare.Table.{
  PathStates, Table, no_states, insert, Found, found_in, found_entry, found_name, or_default,
  collected, add_found, roles,
}

-- The listing names the path, as an item or as a name that cannot be read.
abbrev pub names : Listing → Bytes → Bool
names listing path = any (λ (f : Found). path == f.path) (found_in listing)

-- One path's view of `add_found`.
unfoldable pub add_path :
    Bytes → Role → List Bytes → List Found → Option PathStates → Option PathStates
add_path path role links [] o = o
add_path path role links (f ∷ fs) o =
    add_path path role links fs
      (if path == f.path then some (collected role links f (or_default o)) else o)

insert-default :
    (path key : Bytes) (g : Option PathStates → Option PathStates) (t : Table)
    → insert key (g (t key)) t path ≡ (if path == key then g (t path) else t path)
insert-default path key g t = ground arith

pub add_found-eq :
    (path : Bytes) (role : Role) (links : List Bytes) (fs : List Found) (t : Table)
    → add_found role links fs t path ≡ add_path path role links fs (t path)
unfolding add_found add_path
add_found-eq path role links [] t = refl
add_found-eq path role links (f ∷ fs) t =
    add_found-eq path role links fs _
    ∙ ap (add_path path role links fs)
        (insert-default path f.path (λ o. some (collected role links f (or_default o))) t)

-- The side has a state for the path, or could not collect one.
unfoldable pub marked : PathStates → Role → Bool
marked ps role = ps.not_collected role || is_some (ps.states role)

abbrev pub Clean : Option PathStates → Type 0
Clean none = Unit
Clean (some ps) = (role : Role) → ps.states role ≢ some absent

abbrev pub Marked : Role → Option PathStates → Type 0
Marked role none = ⊥
Marked role (some ps) = marked ps role ≡ true

kind_present : (k : ListedKind) (e : ListedEntry) → of_kind k e ≢ absent
unfolding of_kind
kind_present ListedKind.file e h = cc
kind_present ListedKind.directory e h = cc
kind_present (ListedKind.symlink t p) e h = cc
kind_present ListedKind.other e h = cc

of_entry-ne-absent : (e : ListedEntry) → of_entry e ≢ absent
unfolding of_entry
of_entry-ne-absent e h = kind_present e.kind e h

entries_present :
    (es : List ListedEntry) → All (λ (f : Found). f.state ≢ absent) (map found_entry es)
unfolding found_entry
entries_present [] = tt
entries_present (e ∷ es) = (of_entry-ne-absent e, entries_present es)

names_present : (ns : List Bytes) → All (λ (f : Found). f.state ≢ absent) (map found_name ns)
unfolding found_name
names_present [] = tt
names_present (n ∷ ns) = ((λ h. cc), names_present ns)

pub found_in_present :
    (listing : Listing) → All (λ (f : Found). f.state ≢ absent) (found_in listing)
unfolding found_in
found_in_present listing =
    All-append _ (map found_entry listing.entries) _ (entries_present listing.entries)
      (names_present listing.unreadable_names)

collected-Clean :
    (role : Role) (links : List Bytes) (f : Found) (o : Option PathStates)
    → f.state ≢ absent
    → Clean o
    → Clean (some (collected role links f (or_default o)))
unfolding collected or_default no_states
collected-Clean role links f none p c = λ r e. ground arith
collected-Clean role links f (some ps) p c = λ r e. ground (arith, c r)

collected-Marked :
    (r role : Role) (links : List Bytes) (f : Found) (o : Option PathStates)
    → (r ≡ role) ⊎ Marked r o
    → marked (collected role links f (or_default o)) r ≡ true
unfolding collected or_default no_states marked
collected-Marked r role links f none m = ground arith
collected-Marked r role links f (some ps) m = ground arith

pub add_path-Clean :
    (path : Bytes) (role : Role) (links : List Bytes) (fs : List Found) (o : Option PathStates)
    → All (λ (f : Found). f.state ≢ absent) fs
    → Clean o
    → Clean (add_path path role links fs o)
unfolding add_path
add_path-Clean path role links [] o p c = c
add_path-Clean path role links (f ∷ fs) o (p, ps) c =
    add_path-Clean path role links fs _ ps (elim (Bool-cases (path == f.path)) [
      | inl hit ↦ rw hit (collected-Clean role links f o p c)
      | inr miss ↦ rw miss c
    ])

pub add_path-Marked :
    (path : Bytes) (r role : Role) (links : List Bytes) (fs : List Found) (o : Option PathStates)
    → Marked r o ⊎ ((r ≡ role) × (any (λ (f : Found). path == f.path) fs ≡ true))
    → Marked r (add_path path role links fs o)
unfolding add_path
add_path-Marked path r role links [] o m = ground arith
add_path-Marked path r role links (f ∷ fs) o m =
    add_path-Marked path r role links fs _ (elim (Bool-cases (path == f.path)) [
      | inl hit ↦ rw hit (elim m [
        | inl before ↦ inl (collected-Marked r role links f o (inr before))
        | inr (same, there) ↦ inl (collected-Marked r role links f o (inl same))
      ])
      | inr miss ↦
          rw miss
            (elim m [ inl before ↦ inl before | inr (same, there) ↦ inr (same, ground arith) ])
    ])

pub role_listed : (r : Role) → any (λ role. r == role) roles ≡ true
role_listed r = ground arith
