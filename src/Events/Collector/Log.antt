-- ===== src/Events/Collector/Log.antt =====
-- os/event_bus/collector.py `collect`: the two dicts against the list of the events that were collected.
use turtlemap.Prelude.{
  ℕ, ◌≡◌, refl, ap, subst, ◌∙◌, Bool, true, false, not, Option, none, some, List, [], ◌∷◌, ◌++◌,
  map, append-nil, append_assoc, keep, Bool-cases, inl, inr, if◌then◌else◌,
}
use turtlemap.Prelude.Eq.{◌==◌, nat_eq, option_eq}
use turtlemap.Prelude.Dict.{Dict, lookup}
use turtlemap.Prelude.Kept.{is_some, keep-append, keep-cons_true, keep-cons_false}
use turtlemap.Prelude.Groups.{
  append_to, get_all, mem, mem-append, with_key, get_all-append_to, is_some-append_to,
}
use turtlemap.Events.{
  ContextCompressionMode, EventBody, input_event, message_event, tool_call_event, tool_result_event,
  compression_event, interrupted_event, agent_frame_change_event, custom_event, RuntimeEvent,
}
use turtlemap.Events.Collector.{ResultCollector, new_collector, is_skipped, link, collect}

abbrev pub id_of : RuntimeEvent → ℕ
id_of e = e.event_id

-- the first event of each id, in the order in which the ids came
unfoldable pub first_events : List RuntimeEvent → List RuntimeEvent
first_events [] = []
first_events (e ∷ es) = e ∷ keep (λ f. not (e.event_id == f.event_id)) (first_events es)

-- the ids whose first event names the parent `p`
abbrev pub children_of : ℕ → List RuntimeEvent → List ℕ
children_of p es = map id_of (keep (λ e. e.parent_event_id == some p) (first_events es))

-- The collector holds what the list `es` of events says.
pub record IsLog (c : ResultCollector) (es : List RuntimeEvent) : Type 0 where
  pub known : (i : ℕ) → is_some (lookup i c.event_id2events) ≡ mem i (map id_of es)
  pub events : (i : ℕ) → get_all i c.event_id2events ≡ with_key id_of i es
  pub children : (p : ℕ) → get_all p c.parent_event_id2event_ids ≡ children_of p es

-- the events that make up a run's output: each kind that there is but custom events, and of the compressions
-- those in the foreground
abbrev counts : EventBody → Bool
counts (input_event i) = true
counts (message_event c m) = true
counts (tool_call_event c) = true
counts (tool_result_event c r) = true
counts (compression_event ContextCompressionMode.sync r) = true
counts (compression_event ContextCompressionMode.async r) = false
counts (interrupted_event r) = true
counts (agent_frame_change_event c) = true
counts (custom_event p) = false

abbrev pub accepted : List RuntimeEvent → List RuntimeEvent
accepted es = keep (λ e. counts e.body) es

counts-skipped : (b : EventBody) → counts b ≡ not (is_skipped b)
unfolding is_skipped
counts-skipped (input_event i) = refl
counts-skipped (message_event c m) = refl
counts-skipped (tool_call_event c) = refl
counts-skipped (tool_result_event c r) = refl
counts-skipped (compression_event ContextCompressionMode.sync r) = refl
counts-skipped (compression_event ContextCompressionMode.async r) = refl
counts-skipped (interrupted_event r) = refl
counts-skipped (agent_frame_change_event c) = refl
counts-skipped (custom_event p) = refl

unfoldable pub collect_all : List RuntimeEvent → ResultCollector → ResultCollector
collect_all [] c = c
collect_all (e ∷ es) c = collect_all es (collect e c)

-- the first events of a log with one event more
first_events-append :
    (es : List RuntimeEvent) (e : RuntimeEvent)
    → first_events (es ++ e ∷ [])
      ≡ (if mem e.event_id (map id_of es) then first_events es else first_events es ++ e ∷ [])
unfolding first_events
first_events-append [] e = refl
first_events-append (x ∷ es) e =
    let p : RuntimeEvent → Bool = λ f. not (x.event_id == f.event_id) in
    elim (Bool-cases (mem e.event_id (map id_of es))) [
      | inl old ↦ elim (Bool-cases (x.event_id == e.event_id)) [
        | inl same ↦ rw (first_events-append es e, old, same) refl
        | inr other ↦ rw (first_events-append es e, old, other) refl
      ]
      | inr new ↦ elim (Bool-cases (x.event_id == e.event_id)) [
        | inl same ↦
            rw
              (
                first_events-append es e,
                new,
                keep-append p (first_events es) (e ∷ []),
                keep-cons_false p e [] (ap not same),
                append-nil (keep p (first_events es)),
                same,
              )
              refl
        | inr other ↦
            rw
              (
                first_events-append es e,
                new,
                keep-append p (first_events es) (e ∷ []),
                keep-cons_true p e [] (ap not other),
                other,
              )
              refl
      ]
    ]

map-append :
    (xs : List RuntimeEvent) (e : RuntimeEvent)
    → map id_of (xs ++ e ∷ []) ≡ map id_of xs ++ e.event_id ∷ []
map-append [] e = refl
map-append (x ∷ xs) e = ap (λ is. x.event_id ∷ is) (map-append xs e)

-- one event that is not skipped
children-append :
    (p : ℕ) (es : List RuntimeEvent) (e : RuntimeEvent)
    → children_of p (es ++ e ∷ []) ≡ (
        if mem e.event_id (map id_of es)
        then children_of p es
        else (if e.parent_event_id == some p
            then children_of p es ++ e.event_id ∷ []
            else children_of p es))
children-append p es e =
    let q : RuntimeEvent → Bool = λ f. f.parent_event_id == some p in
    elim (Bool-cases (mem e.event_id (map id_of es))) [
      | inl old ↦ rw (first_events-append es e, old) refl
      | inr new ↦ elim (Bool-cases (q e)) [
        | inl below ↦
            rw
              (
                first_events-append es e,
                new,
                keep-append q (first_events es) (e ∷ []),
                keep-cons_true q e [] below,
                map-append (keep q (first_events es)) e,
                below,
              )
              refl
        | inr other ↦
            rw
              (
                first_events-append es e,
                new,
                keep-append q (first_events es) (e ∷ []),
                keep-cons_false q e [] other,
                append-nil (keep q (first_events es)),
                other,
              )
              refl
      ]
    ]

linked :
    (i p : ℕ) (o : Option ℕ) (b : Bool) (d : Dict ℕ (List ℕ)) (ks : List ℕ)
    → get_all p d ≡ ks
    → get_all p (link i o b d) ≡ (if b then ks else (if o == some p then ks ++ i ∷ [] else ks))
linked i p none true d ks h = h
linked i p none false d ks h = h
linked i p (some q) true d ks h = h
linked i p (some q) false d ks h = elim (Bool-cases (q == p)) [
  | inl same ↦
      let here : get_all q d ≡ ks = ap (λ j. get_all j d) ((nat_eq.decides q p).0 same) ∙ h in
      rw (get_all-append_to q p i d, same, here) refl
  | inr other ↦ rw (get_all-append_to q p i d, other) h
]

appended :
    (i : ℕ) (e : RuntimeEvent) (d : Dict ℕ (List RuntimeEvent)) (es : List RuntimeEvent)
    → get_all i d ≡ with_key id_of i es
    → get_all i (append_to e.event_id e d) ≡ with_key id_of i (es ++ e ∷ [])
appended i e d es h =
    let q : RuntimeEvent → Bool = λ f. f.event_id == i in
    elim (Bool-cases (q e)) [
      | inl same ↦
          let here : get_all e.event_id d ≡ keep q es =
            ap (λ j. get_all j d) ((nat_eq.decides e.event_id i).0 same) ∙ h in
          rw
            (
              get_all-append_to e.event_id i e d,
              same,
              here,
              keep-append q es (e ∷ []),
              keep-cons_true q e [] same,
            )
            refl
      | inr other ↦
          rw
            (
              get_all-append_to e.event_id i e d,
              other,
              keep-append q es (e ∷ []),
              keep-cons_false q e [] other,
              append-nil (keep q es),
            )
            h
    ]

collect-IsLog :
    (e : RuntimeEvent) (c : ResultCollector) (es : List RuntimeEvent)
    → is_skipped e.body ≡ false
    → IsLog c es
    → IsLog (collect e c) (es ++ e ∷ [])
unfolding collect
collect-IsLog e c es taken h = rw taken record {
  known = λ i.
      rw
        (
          is_some-append_to e.event_id i e c.event_id2events,
          h.known i,
          map-append es e,
          mem-append i e.event_id (map id_of es),
        )
        refl;
  events = λ i. appended i e c.event_id2events es (h.events i);
  children = λ p.
      rw (h.known e.event_id, children-append p es e)
        (linked e.event_id p e.parent_event_id (mem e.event_id (map id_of es))
          c.parent_event_id2event_ids (children_of p es) (h.children p));
}

new-IsLog : IsLog new_collector []
unfolding lookup first_events
new-IsLog = record { known = λ i. refl; events = λ i. refl; children = λ p. refl }

collect_all-IsLog :
    (es log : List RuntimeEvent) (c : ResultCollector)
    → IsLog c log
    → IsLog (collect_all es c) (log ++ accepted es)
unfolding collect_all collect
collect_all-IsLog [] log c h = rw (append-nil log) h
collect_all-IsLog (e ∷ es) log c h = elim (Bool-cases (is_skipped e.body)) [
  | inl skipped ↦
      rw
        (
          skipped,
          keep-cons_false (λ e. counts e.body) e es (counts-skipped e.body ∙ ap not skipped),
        )
        (collect_all-IsLog es log c h)
  | inr taken ↦
      let rest =
        collect_all-IsLog es (log ++ e ∷ []) (collect e c) (collect-IsLog e c log taken h) in
      rw (keep-cons_true (λ e. counts e.body) e es (counts-skipped e.body ∙ ap not taken)) (
        subst (IsLog (collect_all es (collect e c))) (append_assoc log (e ∷ []) (accepted es)) rest)
]

-- What a collector holds refines the list of the events that it was given, without custom events
-- and background compressions: the events of an id are those of the list in their order, final
-- ones included, and the children of an id are the ids whose first event names it as its parent,
-- in the order in which they first occur.
pub collected-IsLog : (es : List RuntimeEvent) → IsLog (collect_all es new_collector) (accepted es)
collected-IsLog es = collect_all-IsLog es [] new_collector new-IsLog
