-- ===== src/Compare/Table.antt =====
-- The states of every path, from the listing of each side (compare/table.rs).
-- A map by role or by path is a function into Option, a set its test of membership.
pub mod OnePath
pub mod Absence
use remote_merge.Prelude.{
  ℕ, Bool, true, false, ◌||◌, List, [], ◌∷◌, ◌++◌, map, Option, none, some, Eq, ◌==◌, list_eq,
  nat_eq, any, is_some, if◌then◌else◌,
}
use remote_merge.Text.{Bytes}
use remote_merge.Scan.{ListedEntry, Listing}
use remote_merge.Paths.{is_below}
use remote_merge.Compare.State.{SideState, absent, unreadable_name, of_entry}
use remote_merge.Compare.Verdict.{Role, left, right, ref, target, role_eq}

pub record PathStates : Type 0 where
  pub states : Role → Option SideState
  pub outside : Role → Bool
  pub not_collected : Role → Bool
  pub permissions : Role → Option ℕ

-- `PathStates::default()`
unfoldable pub no_states : PathStates
no_states = record {
  states = λ _. none;
  outside = λ _. false;
  not_collected = λ _. false;
  permissions = λ _. none;
}

abbrev pub Table : Type 0
Table = Bytes → Option PathStates

-- `map.insert(key, value)`
abbrev pub insert {ℓ κ} : {K : Type ℓ} {V : Type κ} ⦃e : Eq K⦄ → K → V → (K → V) → K → V
insert k v f j = if j == k then v else f j

-- One item of a listing: its path, state and permissions.
pub record Found : Type 0 where
  pub path : Bytes
  pub state : SideState
  pub permissions : Option ℕ

found_entry : ListedEntry → Found
found_entry e = record { path = e.path; state = of_entry e; permissions = some e.permissions }

found_name : Bytes → Found
found_name name = record { path = name; state = unreadable_name; permissions = none }

unfoldable pub found_in : Listing → List Found
unfolding found_entry found_name
found_in listing = map found_entry listing.entries ++ map found_name listing.unreadable_names

unfoldable pub or_default : Option PathStates → PathStates
unfolding no_states
or_default none = no_states
or_default (some states) = states

set_permissions : Role → Option ℕ → (Role → Option ℕ) → Role → Option ℕ
set_permissions role none f = f
set_permissions role (some p) f = insert role (some p) f

-- What one item of the listing of `role` does to the states of its path.
unfoldable pub collected : Role → List Bytes → Found → PathStates → PathStates
unfolding set_permissions
collected role links found states =
    if any (λ link. is_below found.path link) links
    then record states { not_collected = insert role true states.not_collected }
    else record states {
      outside =
          if any (λ link. found.path == link) links
          then insert role true states.outside
          else states.outside;
      permissions = set_permissions role found.permissions states.permissions;
      states = insert role (some found.state) states.states;
    }

unfoldable pub add_found : Role → List Bytes → List Found → Table → Table
unfolding collected or_default
add_found role links [] table = table
add_found role links (found ∷ rest) table =
    add_found role links rest
      (insert found.path (some (collected role links found (or_default (table found.path)))) table)

add_side : Option Listing → Role → List Bytes → Table → Table
unfolding add_found found_in
add_side none role links table = table
add_side (some listing) role links table = add_found role links (found_in listing) table

-- The listings in the order of the roles.
abbrev pub roles : List Role
roles = left ∷ right ∷ ref ∷ target ∷ []

add_sides : (Role → Option Listing) → (Role → List Bytes) → List Role → Table → Table
unfolding add_side
add_sides listings outside [] table = table
add_sides listings outside (role ∷ rest) table =
    add_sides listings outside rest (add_side (listings role) role (outside role) table)

unfoldable pub cut_short : Listing → Bool
cut_short listing = listing.truncated || is_some listing.cycle

-- A side that did not list the path: absent, unless its listing was cut short.
unfoldable pub fill_side : Option Listing → Role → PathStates → PathStates
unfolding cut_short
fill_side none role states = states
fill_side (some listing) role states =
    if states.not_collected role || is_some (states.states role)
    then states
    else if cut_short listing
    then record states { not_collected = insert role true states.not_collected }
    else record states { states = insert role (some absent) states.states }

fill : (Role → Option Listing) → List Role → PathStates → PathStates
unfolding fill_side
fill listings [] states = states
fill listings (role ∷ rest) states = fill listings rest (fill_side (listings role) role states)

fill_path : (Role → Option Listing) → Option PathStates → Option PathStates
unfolding fill
fill_path listings none = none
fill_path listings (some states) = some (fill listings roles states)

unfoldable pub state_table : (Role → Option Listing) → (Role → List Bytes) → Table
unfolding add_sides fill_path
state_table listings outside path =
    fill_path listings (add_sides listings outside roles (λ _. none) path)
