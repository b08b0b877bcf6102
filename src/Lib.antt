-- ===== src/Lib.antt =====
-- TurtleMap, a runtime for LLM agents in Python, as state-passing programs.
--
-- The kernel (src/turtlemap/kernel) drives a session: a stack of agent frames, the tasks of each
-- agent, a queue of inputs in memory and its persisted copy. `BaseRuntime.run` pushes the input it is
-- given and then, turn by turn, completes a task, runs a task, or takes an input, until none of these
-- is possible. The OS layer (src/turtlemap/os) overrides the kernel's hooks, builds the context of
-- each LLM call from the session, compresses the session when its context is over a limit, and saves it
-- in a store.
--
-- Kernel/Model      the data of kernel/models/enums.py, kernel/models/models.py, kernel/tool/models.py
-- Kernel/Exec       methods that change an object and may raise, and invariants of such methods (Keeps)
-- Kernel/State      `BaseRuntime`'s fields, the input queue (`_push_input`, `_pop_input`), and writes
--                   through references to tasks, which are an agent's name and a task's id
-- Kernel/Select     which task, unit or interrupted task is taken
-- Kernel/Hooks      the `_override_service_*` methods as a record: a theorem holds for every override
--                   that meets its hypotheses
-- Kernel/Frames     `_change_agent_frame`
-- Kernel/Interruption  `_apply_interruption_response`, `_resume_runtime`
-- Kernel/Tasks      `_start_new_task` and the steps on running tasks
-- Kernel/Completion the steps on completed tasks
-- Kernel/Runtime    `run` and its loop
-- Kernel/Agents     kernel/agent.py `resolve_reachable_agents`
-- Shared/Retry      shared/retry.py
-- Context/Rounds    os/context/compress.py: where a history is cut
-- Context/Compress  os/context/compress.py: the levels of compression, and the merge of a result
-- Context/Summary   os/context/compress.py: `trim_completed_summary_items`, on lines
-- Context/Budget    config.py `ContextTokenBudget`, os/context/provider.py: the tests of the limits
-- Context/Build     os/context/provider.py `build_llm_context`
-- Context/Projector os/context/projector.py: from a history to messages; Messages and History below it
-- Context/Tokens    os/context/tokenizer.py: the cache and the counts
-- Store             os/store/memory.py
-- Events            os/event_bus/models.py, os/llm/model.py: events and streamed messages
-- Events/Message    the message that a chain of chunks makes; Events/Final the other final events
-- Events/Collector  os/event_bus/collector.py
-- Os                os/models.py; Os/Load and Os/Filter os/service.py: a session at load and at save
-- Os/Runtime        os/runtime.py: the replay of events; Rollback below it: the pause after an exception
-- Os/Handoff        os/runtime.py: the change of frames for a completed task
-- EventBus          os/event_bus/event_bus.py: channels, subscriptions, publication
--
-- Paths that follow a module's name are below src/turtlemap, unless they begin with it. A raise is a
-- value: `Exec` gives the state beside the error, since what a method wrote before it raised stays
-- written. Identifiers of `generate_prefixed_id` are numbers from a supply. `while True` in `run`
-- recurses on fuel, since it may go on for as long as its hooks find work, and its answer says whether
-- the loop ended; a test in Kernel/Runtime/Examples answers one message in four turns. The search for
-- reachable agents recurses on fuel too, and Kernel/Agents/Resolve counts the turns that it may take.
-- So does the search of the collector for final events, whose depth is at most the number of ids.
--
-- Parameters are what is not in the repository or not read here: the LLM client behind a summary, the
-- tokenizer, the hash of a text, the size of the context made of a session, the wording of prompts, the
-- ids of streamed tool calls, Python's floats in Shared/Retry, what a store answers to the save of a
-- checkpoint, and the hooks.
--
-- Not modelled: prompt texts, LLM clients, logging, (de)serialisation and the registry of classes, the
-- events that a run makes for observers beside those of an interruption, the number and the time that
-- the bus stamps on an event that Os/Runtime sends, the saving of a finished task's events (the override
-- of `_overrideable_pop_task`), the tools, and interceptors.
pub mod Prelude
pub mod Shared
pub mod Kernel
pub mod Context
pub mod Events
pub mod Store
pub mod EventBus
pub mod Os
