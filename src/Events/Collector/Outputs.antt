-- ===== src/Events/Collector/Outputs.antt =====
-- os/event_bus/collector.py `_build_task_outputs`: the outputs of each task.
use turtlemap.Prelude.{ℕ, ◌≡◌, refl, sym, subst, Option, List, [], ◌∷◌, ◌++◌, map, All}
use turtlemap.Prelude.Eq.{nat_eq, option_eq}
use turtlemap.Prelude.Kept.{IsFull}
use turtlemap.Prelude.Groups.{first_keys, with_key, group-by_key, groups-IsFull}
use turtlemap.Prelude.Try.{Try, value, error, and_then}
use turtlemap.Events.{
  EventBody, input_event, message_event, tool_call_event, tool_result_event, compression_event,
  interrupted_event, agent_frame_change_event, custom_event,
}
use turtlemap.Events.Final.{type_error}
use turtlemap.Events.Collector.{
  FinalEvent, event_of, BuildError, raises, TaskOutput, input_output, each_output,
  group_final_events_by_task_id, build_task_outputs,
}

abbrev pub task_of : FinalEvent → Option ℕ
task_of f = (event_of f).task_id

-- the events of each task, the tasks by their first events
abbrev pub by_task : List FinalEvent → List (List FinalEvent)
by_task fs = map (λ t. with_key task_of t fs) (first_keys task_of fs)

group_final_events-by_task : (fs : List FinalEvent) → group_final_events_by_task_id fs ≡ by_task fs
unfolding group_final_events_by_task_id
group_final_events-by_task fs = group-by_key task_of fs

-- an event that is no input
abbrev pub IsNoInput : EventBody → Type 0
IsNoInput (input_event i) = ⊥
IsNoInput _ = Unit

-- The first of a task's events is its input, and the others are its outputs.
pub data IsOutput : List FinalEvent → TaskOutput → Type 0 where
  output :
      (f : FinalEvent) (fs : List FinalEvent) (o : TaskOutput)
      → (event_of f).body ≡ input_event o.input
      → o.outputs ≡ fs
      → IsOutput (f ∷ fs) o

-- one output for each task, or a task that does not begin with an input
pub data IsGrouped : List (List FinalEvent) → Try BuildError (List TaskOutput) → Type 0 where
  nothing : IsGrouped [] (value [])
  next :
      (fs : List FinalEvent) (gs : List (List FinalEvent)) (o : TaskOutput) (os : List TaskOutput)
      → IsOutput fs o
      → IsGrouped gs (value os)
      → IsGrouped (fs ∷ gs) (value (o ∷ os))
  refused :
      (f : FinalEvent) (fs : List FinalEvent) (gs : List (List FinalEvent))
      → IsNoInput (event_of f).body
      → IsGrouped ((f ∷ fs) ∷ gs) (error (raises type_error))
  later :
      (fs : List FinalEvent) (gs : List (List FinalEvent)) (o : TaskOutput) (e : BuildError)
      → IsOutput fs o
      → IsGrouped gs (error e)
      → IsGrouped (fs ∷ gs) (error e)

one_output :
    (f : FinalEvent) (fs : List FinalEvent) (gs : List (List FinalEvent)) (b : EventBody)
    → (event_of f).body ≡ b
    → IsGrouped gs (each_output gs)
    → IsGrouped
        ((f ∷ fs) ∷ gs)
        (and_then (input_output b fs) λ os. and_then (each_output gs) λ rest. value (os ++ rest))
one_output f fs gs (input_event i) at h = go (each_output gs) h
  where
    go :
        (t : Try BuildError (List TaskOutput))
        → IsGrouped gs t
        → IsGrouped
            ((f ∷ fs) ∷ gs)
            (and_then t λ rest. value (record { input = i; outputs = fs } ∷ rest))
    go (value os) k =
        next (f ∷ fs) gs (record { input = i; outputs = fs }) os
          (output f fs (record { input = i; outputs = fs }) at refl) k
    go (error e) k =
        later (f ∷ fs) gs (record { input = i; outputs = fs }) e
          (output f fs (record { input = i; outputs = fs }) at refl) k
one_output f fs gs (message_event _ _) at h = refused f fs gs (subst IsNoInput (sym at) tt)
one_output f fs gs (tool_call_event _) at h = refused f fs gs (subst IsNoInput (sym at) tt)
one_output f fs gs (tool_result_event _ _) at h = refused f fs gs (subst IsNoInput (sym at) tt)
one_output f fs gs (compression_event _ _) at h = refused f fs gs (subst IsNoInput (sym at) tt)
one_output f fs gs (interrupted_event _) at h = refused f fs gs (subst IsNoInput (sym at) tt)
one_output f fs gs (agent_frame_change_event _) at h = refused f fs gs (subst IsNoInput (sym at) tt)
one_output f fs gs (custom_event _) at h = refused f fs gs (subst IsNoInput (sym at) tt)

each_output-IsGrouped :
    (gs : List (List FinalEvent)) → All IsFull gs → IsGrouped gs (each_output gs)
each_output-IsGrouped [] h = nothing
each_output-IsGrouped ([] ∷ gs) h = absurd h.0
each_output-IsGrouped ((f ∷ fs) ∷ gs) h =
    one_output f fs gs (event_of f).body refl (each_output-IsGrouped gs h.1)

-- The final events make one output for each task, the tasks in the order of their first events:
-- its input is that of the first event and the others are its outputs, in their order; if the
-- first event of a task is not an input, the error is raised.
pub build_task_outputs-IsGrouped :
    (fs : List FinalEvent) → IsGrouped (by_task fs) (build_task_outputs fs)
unfolding build_task_outputs
build_task_outputs-IsGrouped fs =
    rw (group_final_events-by_task fs)
      (each_output-IsGrouped (by_task fs) (groups-IsFull task_of fs))
