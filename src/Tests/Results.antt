-- ===== src/Tests/Results.antt =====
-- A run of sync in which one path fails on the second destination.
use remote_merge.Prelude.{false, List, [], ◌∷◌, ◌++◌, ◌≡◌, ◌≢◌, refl, inl}
use remote_merge.Text.{Bytes, codes}
use remote_merge.Treat.Merge.{error}
use remote_merge.Treat.Results.{Outcome, failed, would_delete, target_lists}
use remote_merge.Treat.Sync.{success, status_of_target, sync_exit_code}
use remote_merge.Treat.Sync.Outcome.{target_lists-sync_exit_code}

abbrev outcomes : List (Bytes × Outcome)
outcomes = (codes "b", failed "no space left") ∷ (codes "a", would_delete) ∷ []

target_lists-sync_exit_code_example :
    (status_of_target (target_lists outcomes) [] false ≢ success)
    × (sync_exit_code ((success ∷ []) ++ status_of_target (target_lists outcomes) [] false ∷ [])
        ≡ error)
target_lists-sync_exit_code_example =
    target_lists-sync_exit_code outcomes [] false (success ∷ []) [] (inl refl)
