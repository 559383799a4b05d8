-- ===== src/Lib.antt =====
-- remote-merge compares a directory of this machine with one of a server, shows where they differ
-- and merges files, chosen hunks or whole subtrees from one side to the other, over SSH and through
-- an agent on the server. This library models the parts that decide: what is compared with what,
-- what the verdict is, what a command then writes or deletes, and what a merged file holds.
--
-- The parts, from the repository's root:
-- - Paths: crates/remote-merge-core/src/relative_path. `RelPath` and `EntryPath`, `is_below`,
--   `ancestors`, `normalized`. `parse_entry` is `EntryPath::parse`, `entry_of_rel` its `TryFrom`.
-- - Resolve: crates/remote-merge-core/src/path_resolution. `resolve_path` follows a path element by
--   element from "/". The trait `PathOps` is a record and a parameter. `walk` is the loop; each turn
--   is `step`, which says to go on, to follow a link (`insert_link`) or to stop.
-- - Scan: crates/remote-merge-core/src/scan, the listing of a side. The machine that collects raw
--   entries (the trait Collector) is a parameter: a function from its state and the questions to its
--   next state and the answers. `take_subtree`, `take_link` (Walk) put entries on the listing, with
--   the limit (`count`) and the cycles; each turn of the loop over a subtree is `take_item`.
--   `start_paths` (Starts) prepares the starts, StartTake takes their answers, `scan_starts` (Drive)
--   is `scan` and `rounds` its loop over the links; `scan_children` and `children_in` (Children) list
--   one directory; `scope_for`, `decide_value` and `failure_kind` stand in Scope. Filter: the
--   patterns of exclude (filter.rs, unreadable_name.rs, scan/exclude.rs); crate glob_match is a
--   parameter.
-- - FilePath: Rust's `Path`. Backup: crates/remote-merge-engine/src/backup, the ids of sessions.
-- - Config: crates/remote-merge-config. `normalize_include_paths` (Include) and the values,
--   permissions and filters (Values). A reason for a refusal is data in place of its wording.
-- - OpFailure: crates/remote-merge-core/src/op_failure, the failures of an operation on one path.
-- - Compare: crates/remote-merge-core/src/compare. `state_table` (Table) makes the states of every
--   path from the listings of the sides; `judge_states` (Judge) and `judge_pairs` (Pairs) judge the
--   pairs of sides without their contents and `hash_roles` names the sides whose contents they ask
--   for; `settle_pairs`, `settle_or_lost`, `lose_pairs` and `apply_reads` (Settle) settle the pairs
--   by the answers; `check_before_change` (Recheck) looks again just before a change; Comparison is
--   the result that the commands read; Wording is the text of the reasons why there is no verdict.
-- - Treat: crates/remote-merge-engine/src/treat. What merge (`merge_entry`,
--   `without_skipped_subtrees`), status (`status_entry`, `ref_mark`, `summary`) and sync
--   (`nothing_to_sync`, `status_of_target`) make of a comparison, and their exit codes.
--   `merge_targets` and `selects` (Scope) are the scope of the scan and the names handled,
--   `reference_check` (Reference) the check of a merge with --ref. `merge_plan` (MergePlan) is the
--   plan over all paths, `merge_prepared` (HunkMerge) the merge of chosen hunks, with the contents of
--   the sides from Content; `target_lists` (Results) and `sync_summary` (Sync) are the results;
--   `rollback_plan` and `choose_session` (Rollback) what a rollback restores.
-- - Content: crates/remote-merge-core/src/content. `interpret` reads bytes as text and keeps the
--   byte range of each line. The decoders of crate encoding_rs for EUC-JP and Shift_JIS are a
--   parameter; UTF-8 is checked by `is_utf8`.
-- - Diff: crates/remote-merge-core/src/diff/engine.rs. `build_script` numbers the lines of the
--   changes, `build_hunks` groups them, `merge_hunks_in_display_hunks` finds the hunks to merge
--   within those shown, and `apply` is `PairScript::apply`. The differ of crate similar is a
--   parameter. Conflict is diff/conflict.rs: `text_conflicts` finds the regions that both sides
--   changed against a reference.
-- - ChangeCheck: crates/remote-merge-core/src/change_check.rs and machine_ops/mode.rs. `judge` tells
--   what became of a change whose answer was lost. The digest of crate sha2 is a parameter (Sha256).
-- - Framing: crates/remote-merge-protocol/src/framing.rs, the frames between client and agent.
-- - Text and Prelude: texts as bytes, the library names the modules share, lists, `Result` and the
--   Boolean tests of Rust. Tests: the theorems on concrete data.
--
-- Conventions. A String of the code whose bytes matter is a list of bytes. Maps and sets over the
-- sides are functions of the side. A panic of the code (an index out of range) is `none`. Sizes,
-- times and permissions are numbers without a bound: no operation modelled here adds to them. The
-- length in a frame keeps its wrap at 2 ^ 32.
--
-- Fuel. The loop of `parent_entries` runs on the length of the path, which is enough as each parent
-- is shorter; that of `extract_changes` on one more than the lines, as each turn takes a line. The
-- rounds of a scan run on one more than the entries that may be counted (the limit for each group of
-- starts), as each round counts a link; a listing of children needs one round. `resolve_path` needs
-- no fuel: each link followed takes one of the 40 that are left, and every other element shortens
-- the queue. `decimal` writes at most 20 digits, as many as a number of 64 bits has.
--
-- Not modelled: input and output (machine_ops, reading directories, the store of backups, the
-- agent's server and deployment, the SSH client), the command line, printing, telemetry, reading
-- TOML and the serialisation of messages; and, so far, the merge of the other settings, the treatment
-- of diff and its listing.
pub mod Prelude
pub mod Text
pub mod OpFailure
pub mod Scan
pub mod Paths
pub mod FilePath
pub mod Backup
pub mod Compare
pub mod Content
pub mod Diff
pub mod Resolve
pub mod Sha256
pub mod ChangeCheck
pub mod Framing
pub mod Config
pub mod Treat
pub mod Tests
