-- ===== src/Backup.antt =====
-- The ids of backup sessions, the place of the store and the identity of a destination
-- (crates/remote-merge-engine/src/backup/mod.rs). Times of crate chrono are a parameter.
pub mod Decimal
pub mod Newest
use Prim.Native.Nat.{compare, Ordering}
use remote_merge.Prelude.{
  ℕ, zero, suc, ◌+◌, ◌-◌, ◌*◌, ◌/◌, ◌%◌, max, Bool, true, false, not, ◌&&◌, List, [], ◌∷◌, ◌++◌,
  Option, none, some, Result, ok, err, ◌>>=◌, ◌==◌, nat_eq, list_eq, length, take, drop, filter,
  ltb, leb, if◌then◌else◌,
}
use remote_merge.Text.{Bytes, is_empty, codes}
use remote_merge.Paths.{dot}
use remote_merge.FilePath.{PathParts, path_parts, join_parts}

-- `Component::CurDir` is left out; a path of nothing else is ".".
unfoldable pub lexically_normalized : PathParts → PathParts
lexically_normalized (rooted, names) =
    let rest = filter (λ name. not (name == dot)) names in
    if is_empty rest && not rooted then (false, dot ∷ []) else (rooted, rest)

-- `identity_from_startup_directory`
unfoldable pub local_target_identity : Bytes → Bytes → PathParts
unfolding lexically_normalized path_parts join_parts
local_target_identity root_dir startup_directory =
    lexically_normalized (join_parts (path_parts startup_directory) (path_parts root_dir))

pub record RemoteTargetIdentity : Type 0 where
  pub host : Bytes
  pub port : ℕ
  pub root_dir : PathParts

unfoldable pub remote_target_identity : Bytes → ℕ → Bytes → RemoteTargetIdentity
unfolding lexically_normalized path_parts
remote_target_identity host port root_dir = record {
  host = host;
  port = port;
  root_dir = lexically_normalized (path_parts root_dir);
}

data_home : Option Bytes → Option Bytes → Option PathParts
unfolding path_parts join_parts
data_home xdg home_dir = elim home_dir [
  | none ↦ none
  | some home ↦ some (join_parts (path_parts home) (path_parts (codes ".local/share")))
]

in_data_home : Option PathParts → Option PathParts
unfolding path_parts join_parts
in_data_home none = none
in_data_home (some data_home) =
    some (join_parts data_home (path_parts (codes "remote-merge/backups")))

unfoldable pub backup_store_path : Option Bytes → Option Bytes → Option PathParts
unfolding data_home in_data_home
backup_store_path none home_dir = in_data_home (data_home none home_dir)
backup_store_path (some xdg) home_dir =
    if (path_parts xdg).0
    then in_data_home (some (path_parts xdg))
    else in_data_home (data_home (some xdg) home_dir)

abbrev pub u64_max : ℕ
u64_max = 18446744073709551615

unfoldable pub is_digit : ℕ → Bool
is_digit c = leb b'0' c && leb c b'9'

-- The digits from the left, with what those before stand for. `none` is a byte that is no digit, or
-- a number of more than 64 bits.
unfoldable pub parse_digits : ℕ → Bytes → Option ℕ
unfolding is_digit
parse_digits value [] = some value
parse_digits value (c ∷ cs) =
    let next = value * 10 + (c - b'0') in
    let rest = parse_digits next cs in if is_digit c && leb next u64_max then rest else none

-- `text.parse::<u64>()`
unfoldable pub parse_u64 : Bytes → Option ℕ
unfolding parse_digits
parse_u64 [] = none
parse_u64 (c ∷ cs) =
    if c == b'+' then if is_empty cs then none else parse_digits 0 cs else parse_digits 0 (c ∷ cs)

-- The decimal digits of a number, at most so many.
unfoldable pub digits : ℕ → ℕ → Bytes
digits zero n = []
digits (suc places) n =
    let front = digits places (n / 10) in
    if ltb n 10 then (b'0' + n) ∷ [] else front ++ (b'0' + n % 10) ∷ []

-- A number of 64 bits has at most 20 digits.
unfoldable pub decimal : ℕ → Bytes
unfolding digits
decimal n = digits 20 n

-- Whether a character starts where the bytes do, or none follows.
starts_char : Bytes → Bool
starts_char [] = true
starts_char (c ∷ cs) = not (leb 0x80 c && leb c 0xbf)

-- `text.get(..n)`
unfoldable pub get_to : ℕ → Bytes → Option Bytes
unfolding starts_char
get_to n text =
    if leb n (length text) && starts_char (drop n text) then some (take n text) else none

-- `text.get(n..)`
unfoldable pub get_from : ℕ → Bytes → Option Bytes
unfolding starts_char
get_from n text =
    if leb n (length text) && starts_char (drop n text) then some (drop n text) else none

-- The number behind the time: 1 where nothing follows, else behind a dash.
unfoldable pub sequence_of : Option Bytes → Option ℕ
unfolding parse_u64
sequence_of none = none
sequence_of (some []) = some 1
sequence_of (some (c ∷ cs)) = if c == b'-' then parse_u64 cs else none

pub data SessionSequenceExhausted : Type 0 where
  exhausted : SessionSequenceExhausted

larger : ℕ → Option ℕ → Option ℕ
larger n none = some n
larger n (some m) = some (max n m)

-- `max_by` of the sequence numbers, 1 where there is none.
next_sequence : Option ℕ → Result SessionSequenceExhausted ℕ
next_sequence none = ok 1
next_sequence (some n) = if leb u64_max n then err exhausted else ok (n + 1)

unfoldable pub name_session : Bytes → ℕ → Bytes
unfolding decimal
name_session timestamp sequence =
    if sequence == 1 then timestamp else timestamp ++ b'-' ∷ decimal sequence

pub record SessionId (Time : Type 0) : Type 0 where
  pub timestamp : Time
  pub sequence : ℕ

-- `parse` is `parse_backup_timestamp`.
module _ {Time : Type 0} (parse : Bytes → Option Time) where
  unfoldable pub session_of : Bytes → Option Time → Option ℕ → Option (SessionId Time)
  session_of id (some timestamp) (some sequence) =
      if ltb sequence 2 && ltb 15 (length id)
      then none
      else some (record { timestamp = timestamp; sequence = sequence })
  session_of id _ _ = none

  unfoldable pub parse_session_id : Bytes → Option (SessionId Time)
  parse_session_id id = elim (get_to 15 id) [
    | none ↦ none
    | some timestamp_text ↦ session_of id (parse timestamp_text) (sequence_of (get_from 15 id))
  ]

  -- `format` is `format("%Y%m%d-%H%M%S")`.
  module _ (format : Time → Bytes) where
    with_sequence : Bytes → Option (SessionId Time) → Option ℕ → Option ℕ
    unfolding larger
    with_sequence timestamp none found = found
    with_sequence timestamp (some id) found =
        if format id.timestamp == timestamp then larger id.sequence found else found

    -- The largest sequence number among the ids of the time.
    unfoldable pub last_sequence : Bytes → List Bytes → Option ℕ
    unfolding with_sequence parse_session_id
    last_sequence timestamp [] = none
    last_sequence timestamp (id ∷ ids) =
        with_sequence timestamp (parse_session_id id) (last_sequence timestamp ids)

    unfoldable pub next_session_id : Time → List Bytes → Result SessionSequenceExhausted Bytes
    unfolding last_sequence next_sequence name_session
    next_session_id now existing_ids = do
      sequence ← next_sequence (last_sequence (format now) existing_ids)
      ok (name_session (format now) sequence)

  -- `order` compares two times.
  unfoldable pub compare_session_ids : (Time → Time → Ordering) → Bytes → Bytes → Option Ordering
  unfolding parse_session_id
  compare_session_ids order left right = elim (parse_session_id left) [
    | none ↦ none
    | some a ↦ elim (parse_session_id right) [
      | none ↦ none
      | some b ↦ elim (order a.timestamp b.timestamp) [
        | Ordering.eq ↦ some (compare a.sequence b.sequence)
        | Ordering.lt ↦ some Ordering.lt
        | Ordering.gt ↦ some Ordering.gt
      ]
    ]
  ]

  -- `days_passed` says whether so many days lie between the first time and the second.
  unfoldable pub is_session_expired : (Time → Time → ℕ → Bool) → Bytes → ℕ → Time → Option Bool
  unfolding parse_session_id
  is_session_expired days_passed id retention_days now = elim (parse_session_id id) [
    | none ↦ none
    | some session ↦ some (days_passed session.timestamp now retention_days)
  ]
