-- ===== src/Treat/Content.antt =====
-- The contents of the sides of one path, read as text, and where they conflict
-- (crates/remote-merge-engine/src/treat/content.rs, and the choice of an encoding of
-- crates/remote-merge-config/src/content.rs).
use remote_merge.Prelude.{
  Bool, true, false, not, ◌&&◌, ◌||◌, List, [], ◌∷◌, map, Option, none, some, Result, ok, err, ◌==◌,
  nat_eq, list_eq, if◌then◌else◌,
}
use remote_merge.Text.{Bytes}
use remote_merge.OpFailure.{OpFailure}
use remote_merge.Scan.{LinkPoint}
use remote_merge.Scan.Filter.{matches_path_pattern}
use remote_merge.Content.{
  Encoding, utf8, Interpretation, unspecified, binary_content, text_content, Text, interpret,
}
use remote_merge.Compare.State.{SideState, file, directory, symlink}
use remote_merge.Compare.Verdict.{Role, left, right, ref}
use remote_merge.Compare.Comparison.{PathComparison}
use remote_merge.Diff.Script.{Change}
use remote_merge.Diff.Conflict.{ConflictRegion, text_conflicts}

pub record Rule : Type 0 where
  pub side : Bytes
  pub path : Bytes
  pub encoding : Interpretation

pub record ContentConfig : Type 0 where
  pub defaults : Bytes → Option Interpretation
  pub rules : List Rule

pub data Prepared : Type 0 where
  absent non_file unavailable : Prepared
  binary : Bytes → Prepared
  text : Text → Prepared

-- Why a side could not be read, without its wording.
pub data ReadProblem : Type 0 where
  unreadable : OpFailure → ReadProblem
  undecodable : Role → Encoding → ReadProblem

pub record View : Type 0 where
  pub left : Result ReadProblem Prepared
  pub right : Result ReadProblem Prepared
  pub reference : Result ReadProblem Prepared

-- A region of lines, or the whole file.
pub data ConflictArea : Type 0 where
  lines : ConflictRegion → ConflictArea
  whole_file : ConflictArea

-- `interpret(b"", Interpretation::Unspecified)`
abbrev pub empty_text : Text
empty_text = record { raw = []; decoded = []; encoding = utf8; bom_len = 0; raw_lines = [] }

unfoldable pub text_or_empty : Prepared → Option Text
text_or_empty Prepared.absent = some empty_text
text_or_empty non_file = some empty_text
text_or_empty unavailable = none
text_or_empty (binary bytes) = none
text_or_empty (Prepared.text t) = some t

raw_of : Prepared → Option Bytes
raw_of Prepared.absent = none
raw_of non_file = none
raw_of unavailable = none
raw_of (binary bytes) = some bytes
raw_of (Prepared.text t) = some t.raw

same_raw : Option Bytes → Option Bytes → Bool
same_raw none none = true
same_raw (some a) (some b) = a == b
same_raw _ _ = false

-- A side with nothing that can be compared line by line or as a whole.
has_nothing : Prepared → Bool
has_nothing unavailable = true
has_nothing non_file = true
has_nothing _ = false

conflicts_of_raw : Option Bytes → Option Bytes → Option Bytes → List ConflictArea
unfolding same_raw
conflicts_of_raw l r reference =
    if not (same_raw l reference) && (not (same_raw r reference) && not (same_raw l r))
    then whole_file ∷ []
    else []

-- `ContentConfig::resolve`; the last rule that fits comes first.
module _ (glob : Bytes → Bytes → Bool) where
  last_rule : Bytes → Bytes → List Rule → Option Interpretation
  unfolding matches_path_pattern
  last_rule side path [] = none
  last_rule side path (rule ∷ rules) = elim (last_rule side path rules) [
    | some later ↦ some later
    | none ↦
        if rule.side == side && matches_path_pattern glob path rule.path
        then some rule.encoding
        else none
  ]

  unfoldable pub resolve : ContentConfig → Bytes → Bytes → Option Interpretation → Interpretation
  unfolding last_rule
  resolve config side path (some cli) = cli
  resolve config side path none = elim (last_rule side path config.rules) [
    | some encoding ↦ encoding
    | none ↦ elim (config.defaults side) [ some encoding ↦ encoding | none ↦ unspecified ]
  ]

-- The decoder of the encodings other than UTF-8.
module _ (decode : Encoding → Bytes → Option Bytes) where
  read_bytes : Role → Interpretation → Bytes → Result ReadProblem Prepared
  unfolding interpret
  read_bytes role specification bytes = elim (interpret decode bytes specification) [
    | err encoding ↦ err (undecodable role encoding)
    | ok content ↦ elim content [
      | binary_content ↦ ok (binary bytes)
      | text_content t ↦ ok (Prepared.text t)
    ]
  ]

  read_contents :
      Role → Interpretation → Option (Result OpFailure Bytes) → Result ReadProblem Prepared
  unfolding read_bytes
  read_contents role specification none = ok unavailable
  read_contents role specification (some (err failure)) = err (unreadable failure)
  read_contents role specification (some (ok bytes)) = read_bytes role specification bytes

  prepare_state :
      Role
      → Interpretation
      → Option SideState
      → Option (Result OpFailure Bytes)
      → Result ReadProblem Prepared
  unfolding read_contents
  prepare_state role specification none contents = ok unavailable
  prepare_state role specification (some SideState.absent) contents = ok Prepared.absent
  prepare_state role specification (some directory) contents = ok non_file
  prepare_state role specification (some (symlink target LinkPoint.directory)) contents =
      ok non_file
  prepare_state role specification (some (symlink target to)) contents =
      read_contents role specification contents
  prepare_state role specification (some (file size mtime)) contents =
      read_contents role specification contents
  prepare_state role specification (some _) contents = ok unavailable

  -- `specification` is how the contents of a side are to be read, by `resolve`.
  unfoldable pub prepare : (Role → Interpretation) → PathComparison → Bool → View
  unfolding prepare_state
  prepare specification comparison reference =
      let side = λ (role : Role).
        prepare_state role (specification role) (comparison.states.states role)
          (comparison.contents role) in
      record {
        left = side left;
        right = side right;
        reference = if reference then side ref else ok unavailable;
      }

module _ (similar : Bytes → Bytes → List Change) where
  conflicts_between : Prepared → Prepared → Prepared → Option (List ConflictArea)
  unfolding conflicts_of_raw raw_of text_conflicts
  conflicts_between (Prepared.text l) (Prepared.text r) (Prepared.text reference) =
      elim (text_conflicts similar reference l r) [
        | none ↦ none
        | some regions ↦ some (map (λ region. lines region) regions)
      ]
  conflicts_between l r reference = some (conflicts_of_raw (raw_of l) (raw_of r) (raw_of reference))

  -- `View::conflicts`, or none for a panic of the engine.
  unfoldable pub conflicts : View → Option (List ConflictArea)
  unfolding has_nothing conflicts_between
  conflicts view = elim view.left [
    | err _ ↦ some []
    | ok l ↦ elim view.right [
      | err _ ↦ some []
      | ok r ↦ elim view.reference [
        | err _ ↦ some []
        | ok reference ↦
            if has_nothing l || (has_nothing r || has_nothing reference)
            then some []
            else conflicts_between l r reference
      ]
    ]
  ]
