-- ===== src/Compare/Wording.antt =====
-- The wording of failures and of the reasons why there is no verdict
-- (op_failure/message.rs, compare/verdict.rs).
use remote_merge.Prelude.{
  get_elem?, some, none, ℕ, zero, suc, ◌/◌, ◌%◌, true, false, List, [], ◌∷◌, map, String, ◌<>◌,
  if◌then◌else◌, ltb, leb,
}
use remote_merge.OpFailure.{
  OpFailure, not_sent, no_answer, not_found, not_a_directory, permission_denied, too_large, io,
  disconnected, root_gone,
}
use remote_merge.Compare.Verdict.{
  Role, left, right, ref, target, SideFailure, Undecidable, unreadable_name, not_regular_file,
  unfollowable_link, read_failed,
}

digits : List String
digits = "0" ∷ "1" ∷ "2" ∷ "3" ∷ "4" ∷ "5" ∷ "6" ∷ "7" ∷ "8" ∷ "9" ∷ []

digit : ℕ → String
unfolding digits
digit n = elim (get_elem? digits n) [ some text ↦ text | none ↦ "" ]

-- A number of so many decimal digits.
decimal_of : ℕ → ℕ → String
unfolding digit
decimal_of zero n = ""
decimal_of (suc places) n = elim (ltb n 10) [
  | true ↦ digit n
  | false ↦ decimal_of places (n / 10) <> digit (n % 10)
]

-- A number of 64 bits has at most 20 digits.
unfoldable pub decimal : ℕ → String
unfolding decimal_of
decimal n = decimal_of 20 n

-- `OpFailure::fmt`
unfoldable pub failure_text : OpFailure → String
unfolding decimal
failure_text not_found = "no such file or directory"
failure_text not_a_directory = "not a directory"
failure_text permission_denied = "permission denied"
failure_text (too_large size limit) =
    "file too large ("
    <> (decimal size
        <> (" bytes, the limit is " <> (decimal limit <> " bytes; use --force to read it)")))
failure_text (io reason) = reason
failure_text root_gone = "root_dir is gone"
failure_text (disconnected (not_sent detail)) =
    "connection lost before the request was sent: " <> detail
failure_text (disconnected (no_answer detail)) =
    "connection lost before the result arrived: " <> detail

role_name : Role → String
role_name left = "left"
role_name right = "right"
role_name ref = "ref"
role_name target = "target"

-- The order of the roles.
rank : Role → ℕ
rank left = 0
rank right = 1
rank ref = 2
rank target = 3

insert_by : {A : Type 0} → (A → Role) → A → List A → List A
unfolding rank
insert_by role x [] = x ∷ []
insert_by role x (y ∷ ys) =
    let rest = insert_by role x ys in
    if leb (rank (role x)) (rank (role y)) then x ∷ y ∷ ys else y ∷ rest

-- A stable sort by the roles.
sort_by : {A : Type 0} → (A → Role) → List A → List A
unfolding insert_by
sort_by role [] = []
sort_by role (x ∷ xs) = insert_by role x (sort_by role xs)

joined : List String → String
joined [] = ""
joined (s ∷ []) = s
joined (s ∷ t ∷ ts) = s <> ("; " <> joined (t ∷ ts))

-- `write_sides`
sides_text : String → List Role → String
unfolding joined sort_by role_name
sides_text heading roles =
    heading <> (": " <> joined (map role_name (sort_by (λ role. role) roles)))

cause_text : SideFailure → String
unfolding role_name failure_text
cause_text side = role_name side.role <> (": " <> failure_text side.failure)

-- `Undecidable::fmt`
unfoldable pub undecidable_text : Undecidable → String
unfolding sides_text joined sort_by cause_text
undecidable_text unreadable_name = "the name is not valid UTF-8"
undecidable_text (not_regular_file roles) = sides_text "not a regular file" roles
undecidable_text (unfollowable_link roles) = sides_text "cannot follow the symlink target" roles
undecidable_text (read_failed failures) =
    "read failed: " <> joined (map cause_text (sort_by (λ side. side.role) failures))
