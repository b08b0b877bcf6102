-- ===== src/Events/Message.antt =====
-- os/event_bus/models.py `MessageEvent`: the message that a chain of chunks makes. `generate_id` gives
-- the id that a tool call of a choice has until the model names one.
use Prim.Native.String.{String, ◌++◌ as ◌<>◌}
use turtlemap.Prelude.{
  ℕ, Bool, true, false, ◌&&◌, not, Option, none, some, List, [], ◌∷◌, ◌++◌, map, ltb, if◌then◌else◌,
}
use turtlemap.Prelude.Eq.{◌==◌, nat_eq, string_eq}
use turtlemap.Prelude.Dict.{Dict, lookup, insert}
use turtlemap.Prelude.Sorted.{sorted}
use turtlemap.Prelude.Text.{is_blank as blank}
use turtlemap.Prelude.Try.{Try, value, error, and_then}
use text.Mathlib.Text.{starts_with}
use turtlemap.Events.{
  MessageRole, DeltaToolCall, Delta, ChunkChoice, CompletionChunk, CompletionToolCall,
  CompletionMessage, CompletionChoice, Completion, EventBody, message_event, RuntimeEvent,
  RuntimeEventPhase,
}
use turtlemap.Events.Final.{
  EventError, os_runtime, type_error, is_final, is_process, guard_that, ends, in_order, closed,
  validate_parent_event_id, validate_stream_phases,
}

-- the truth of an optional text, and `x or ""`
abbrev pub truthy : Option String → Bool
truthy none = false
truthy (some s) = not (blank s)

abbrev pub or_blank : Option String → String
or_blank none = ""
or_blank (some s) = s

-- `x if x is not None else y`
abbrev pub or_else {ℓ} : {A : Type ℓ} → Option A → Option A → Option A
or_else none y = y
or_else (some x) y = some x

-- `_merge_message_content`
unfoldable pub merge_message_content : Option String → Option String → Option String
merge_message_content acc none = acc
merge_message_content acc (some d) = some (or_blank acc <> d)

-- what the rest of a text accumulates
abbrev or_first : Option String → Option String → Option String
or_first old new = if truthy new && not (truthy old) then new else old

abbrev append_arguments : Option String → Option String → Option String
append_arguments old new = if truthy new then some (or_blank old <> or_blank new) else old

abbrev set_if {ℓ} : {A : Type ℓ} → Option A → A → A
set_if none a = a
set_if (some b) a = b

abbrev update : Dict String String → Dict String String → Dict String String
update [] d = d
update ((k, v) ∷ new) d = update new (insert k v d)

abbrev pub or_new {ℓ} : {A : Type ℓ} → A → Option A → A
or_new a none = a
or_new a (some b) = b

-- the branch `is_partial`: a snapshot takes the place of what was shown
abbrev merge_partial : Delta → CompletionMessage → CompletionMessage
merge_partial d m = record m {
  display_content = or_else d.display_content m.display_content;
  display_reasoning_content = or_else d.display_reasoning_content m.display_reasoning_content;
  context_content = or_else d.context_content m.context_content;
  context_reasoning_content = or_else d.context_reasoning_content m.context_reasoning_content;
}

-- the other branch: each text grows by its own increment, or by the raw one
abbrev merge_increment : Delta → CompletionMessage → CompletionMessage
merge_increment d m = record m {
  content = merge_message_content m.content d.content;
  reasoning_content = merge_message_content m.reasoning_content d.reasoning_content;
  display_content = merge_message_content m.display_content (or_else d.display_content d.content);
  display_reasoning_content =
      merge_message_content m.display_reasoning_content
        (or_else d.display_reasoning_content d.reasoning_content);
  context_content = merge_message_content m.context_content (or_else d.context_content d.content);
  context_reasoning_content =
      merge_message_content m.context_reasoning_content
        (or_else d.context_reasoning_content d.reasoning_content);
}

abbrev pub is_partial : RuntimeEventPhase → Bool
is_partial RuntimeEventPhase.in_progress_partial = true
is_partial _ = false

abbrev merge_delta : RuntimeEventPhase → Delta → CompletionMessage → CompletionMessage
merge_delta p d m = if is_partial p then merge_partial d m else merge_increment d m

abbrev new_message : CompletionMessage
new_message = record {
  role = MessageRole.assistant;
  content = none;
  reasoning_content = none;
  display_content = none;
  display_reasoning_content = none;
  context_content = none;
  context_reasoning_content = none;
  runtime_params = [];
  tool_call_id = none;
  tool_calls = [];
}

abbrev pub new_choice : ℕ → CompletionChoice
new_choice i = record { index = i; message = new_message; finish_reason = none }

-- the lines from `finish_reason` on to the end of the texts
unfoldable pub merge_choice : RuntimeEventPhase → ChunkChoice → CompletionChoice → CompletionChoice
merge_choice p c old = record old {
  finish_reason = if truthy c.finish_reason then c.finish_reason else old.finish_reason;
  message = merge_delta p c.delta (record old.message {
    runtime_params = update c.delta.runtime_params old.message.runtime_params;
    role = set_if c.delta.role old.message.role;
  });
}

-- `PREFIX_TOOL_CALL_ID`
abbrev tool_call_prefix : String
tool_call_prefix = "tool_call_id"

-- the body of the loop over `choice.delta.tool_calls`; an increment without its function has no name and no arguments
unfoldable pub merge_tool_call : DeltaToolCall → CompletionToolCall → CompletionToolCall
merge_tool_call t old = record {
  id = if truthy t.id && starts_with old.id tool_call_prefix then or_blank t.id else old.id;
  name = or_first old.name t.name;
  arguments = append_arguments old.arguments t.arguments;
  type = or_first old.type t.type;
}

-- the head of a completion: the first that is not empty, and the latest time
pub record Head : Type 0 where
  pub id : String
  pub created : ℕ
  pub model : String
  pub usage : Option ℕ

abbrev pub merge_head : CompletionChunk → Head → Head
merge_head c h = record {
  id = if blank h.id then c.id else h.id;
  created = if ltb h.created c.created then c.created else h.created;
  model = if blank h.model then c.model else h.model;
  usage = or_else h.usage c.usage;
}

abbrev pub Tools : Type 0
Tools = Dict ℕ CompletionToolCall

-- `idx2choice`, `choice_idx2tool_idx2tool` and the head
pub record Accumulated : Type 0 where
  pub idx2choice : Dict ℕ CompletionChoice
  pub choice_idx2tools : Dict ℕ Tools
  pub head : Head

abbrev pub nothing_yet : Accumulated
nothing_yet = record {
  idx2choice = [];
  choice_idx2tools = [];
  head = record { id = ""; created = 0; model = ""; usage = none };
}

abbrev same_text : Option String → Option String → Bool
same_text none none = true
same_text (some s) (some t) = s == t
same_text _ _ = false

abbrev unless_same : Option String → Option String → Option String
unless_same shown raw = if same_text shown raw then none else shown

-- the variants of a text that are the text itself are dropped
unfoldable pub drop_same : CompletionMessage → CompletionMessage
drop_same m = record m {
  display_content = unless_same m.display_content m.content;
  display_reasoning_content = unless_same m.display_reasoning_content m.reasoning_content;
  context_content = unless_same m.context_content m.content;
  context_reasoning_content = unless_same m.context_reasoning_content m.reasoning_content;
}

-- the values of a dict by increasing key
abbrev pub by_key {ℓ} : {A : Type ℓ} → Dict ℕ A → List A
by_key d = map (λ e. e.1) (sorted (λ e. e.0) d)

abbrev pub finish_choice : Dict ℕ Tools → CompletionChoice → CompletionChoice
finish_choice tools c = record c {
  message = drop_same (record c.message {
    tool_calls = c.message.tool_calls ++ by_key (or_new [] (lookup c.index tools));
  });
}

unfoldable pub completion_of : Accumulated → Completion
completion_of acc = record {
  id = acc.head.id;
  choices = map (finish_choice acc.choice_idx2tools) (by_key acc.idx2choice);
  created = acc.head.created;
  model = acc.head.model;
  usage = acc.head.usage;
}

module _ (generate_id : ℕ → ℕ → String) where
  abbrev new_tool : ℕ → ℕ → CompletionToolCall
  new_tool i j = record { id = generate_id i j; name = none; arguments = none; type = none }

  abbrev merge_tools : ℕ → List DeltaToolCall → Tools → Tools
  merge_tools i [] d = d
  merge_tools i (t ∷ ts) d =
      merge_tools i ts
        (insert t.index (merge_tool_call t (or_new (new_tool i t.index) (lookup t.index d))) d)

  -- the body of the loop over `item.chunk.choices`
  unfoldable pub add_choice : RuntimeEventPhase → ChunkChoice → Accumulated → Accumulated
  add_choice p c acc = record acc {
    idx2choice =
        insert c.index
          (merge_choice p c (or_new (new_choice c.index) (lookup c.index acc.idx2choice)))
          acc.idx2choice;
    choice_idx2tools =
        insert c.index
          (merge_tools c.index c.delta.tool_calls (or_new [] (lookup c.index acc.choice_idx2tools)))
          acc.choice_idx2tools;
  }

  abbrev pub add_choices : RuntimeEventPhase → List ChunkChoice → Accumulated → Accumulated
  add_choices p [] acc = acc
  add_choices p (c ∷ cs) acc = add_choices p cs (add_choice p c acc)

  abbrev pub add_chunk : RuntimeEventPhase → EventBody → Accumulated → Try EventError Accumulated
  add_chunk p (message_event (some c) m) acc =
      value (add_choices p c.choices (record acc { head = merge_head c acc.head }))
  add_chunk p (message_event none m) acc = error os_runtime
  add_chunk p _ acc = error type_error

  -- the loop over `sorted_events`; once the phases are tested, what is not in progress starts or ends the chain
  unfoldable pub add_events : List RuntimeEvent → Accumulated → Try EventError Accumulated
  add_events [] acc = value acc
  add_events (e ∷ es) acc =
      if is_process e.event_phase
      then and_then (add_chunk e.event_phase e.body acc) (add_events es)
      else add_events es acc

  abbrev pub completed : EventBody → Try EventError (Unit {0})
  completed (message_event c (some m)) = value tt
  completed (message_event c none) = error os_runtime
  completed _ = error type_error

  abbrev pub is_message : EventBody → Try EventError (Unit {0})
  is_message (message_event c m) = value tt
  is_message _ = error type_error

  abbrev pub final_message_of :
      List RuntimeEvent → RuntimeEvent → RuntimeEvent → Try EventError RuntimeEvent
  final_message_of es a z =
      if is_final z.event_phase
      then and_then (completed z.body) (λ _. value z)
      else and_then (guard_that (validate_stream_phases es)) λ _.
        and_then (add_events es nothing_yet) λ acc.
          and_then (is_message a.body)
            λ _. value (closed a (message_event none (some (completion_of acc))) es)

  -- `MessageEvent.create_final_event_from_events`
  unfoldable pub final_message : List RuntimeEvent → Try EventError RuntimeEvent
  final_message es = and_then (ends (in_order es)) λ (a, z).
      and_then (guard_that (validate_parent_event_id (in_order es)))
        λ _. final_message_of (in_order es) a z
