-- ===== src/Store/Examples.antt =====
-- Two writers of one session, and two requests for a compression task.
use turtlemap.Prelude.{◌≤◌, ◌≡◌, refl, none, some, true, [], ◌∷◌}
use turtlemap.Prelude.Eq.{string_eq}
use turtlemap.Prelude.Dict.{lookup}
use turtlemap.Prelude.Try.{value, error}
use turtlemap.Context.Compress.{
  CompressionResult, failed_result, merge_compacted_result, is_history_artifact_id_prefix_matched,
}
use turtlemap.Store.{
  StoredSession, Store, TaskRecord, session_state_changed, new_session, new_task,
  save_session_state, try_create_context_compression_task, finish_context_compression_task,
  save_context_compression_result,
}
use turtlemap.Store.Versions.{IsGuarded, save-conflict, save_result-IsGuarded}
use turtlemap.Store.Tasks.{Reachable, count_running, reachable-Exclusive}
use turtlemap.Store.Release.{finish-frees}

abbrev kept : StoredSession
kept = record (new_session "s") { version = some 3 }

abbrev store : Store
store = record { session_id2state = ("s", kept) ∷ []; context_compression_tasks = [] }

save-conflict_example :
    (z : StoredSession) × (st' : Store) × (save_session_state kept store ≡ (value z, st'))
    × (z.version ≡ some 4)
    × (z.state ≡ kept.state)
    × (lookup "s" st'.session_id2state ≡ some z)
    × (save_session_state kept st' ≡ (error session_state_changed, st'))
unfolding lookup
save-conflict_example = save-conflict kept kept 3 store refl refl refl refl

-- a summary of the whole history of the session, which is empty
abbrev summarised : CompressionResult
summarised = record failed_result { success = true; compressed_mid_term_memory = "summary" }

save_result-IsGuarded_example :
    IsGuarded kept kept 3 summarised store (save_context_compression_result "s" summarised store)
unfolding lookup
save_result-IsGuarded_example =
    save_result-IsGuarded kept kept 3 summarised store refl refl refl refl

is_merged : (save_context_compression_result "s" summarised store).0 ≡ value true
unfolding save_context_compression_result save_session_state merge_compacted_result lookup
    is_history_artifact_id_prefix_matched
is_merged = refl

abbrev granted : Store
granted = (try_create_context_compression_task "host" "s" "root" store).1

reachable-Exclusive_example : count_running "s" "root" granted.context_compression_tasks ≤ 1
reachable-Exclusive_example =
    reachable-Exclusive granted
      (Reachable.created "host" "s" "root" store (Reachable.fresh store refl)) "s" "root"

-- a second request is refused while the first task runs
refused : (try_create_context_compression_task "other" "s" "root" granted).0 ≡ none
unfolding try_create_context_compression_task lookup
refused = refl

finish-frees_example :
    (t : TaskRecord) × ((try_create_context_compression_task "other" "s" "root"
        (finish_context_compression_task (new_task "host" "s" "root" store) granted)).0
      ≡ some t)
unfolding try_create_context_compression_task lookup
finish-frees_example =
    finish-frees store "host" "other" "s" "root" (new_task "host" "s" "root" store)
      (Reachable.fresh store refl) refl
