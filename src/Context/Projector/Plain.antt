-- ===== src/Context/Projector/Plain.antt =====
-- Rounds and groups of a history whose artifacts are plain.
use turtlemap.Prelude.{
  ℕ, String, Option, none, some, List, [], ◌∷◌, All, All-append, Bool-cases, inl, inr,
}
use turtlemap.Prelude.Dict.{Dict}
use turtlemap.Context.Projector.{
  HistoryArtifact, Round, is_input, flush, extend, split_from, latest_from, is_dropped, saw,
  round_input_id, HistoryRoundGroup, type_for, display_name, new_group, joins, with_round,
  groups_from,
}
use turtlemap.Context.Projector.Said.{Plain}

module _ (tools : List String) where
  abbrev pub PlainRound : Round → Type 0
  PlainRound r = All (Plain tools) r

  flush-PlainRound :
      (r : Round) (rs : List Round) → PlainRound r → All PlainRound rs → All PlainRound (flush r rs)
  flush-PlainRound [] rs h k = k
  flush-PlainRound (a ∷ r) rs h k = (h, k)

  extend-PlainRound :
      (r : Round) (a : HistoryArtifact) → PlainRound r → Plain tools a → PlainRound (extend r a)
  extend-PlainRound [] a h p = tt
  extend-PlainRound (b ∷ r) a h p = (h.0, All-append (Plain tools) r (a ∷ []) h.1 (p, tt))

  pub split-PlainRound :
      (r : Round) (h : List HistoryArtifact)
      → PlainRound r
      → All (Plain tools) h
      → All PlainRound (split_from r h)
  unfolding split_from
  split-PlainRound r [] p q = flush-PlainRound r [] p tt
  split-PlainRound r (a ∷ h) p q = elim (Bool-cases (is_input a)) [
    | inl input ↦
        rw input
          (flush-PlainRound r (split_from (a ∷ []) h) p (split-PlainRound (a ∷ []) h (q.0, tt) q.1))
    | inr other ↦ rw other (split-PlainRound (extend r a) h (extend-PlainRound r a p q.0) q.1)
  ]

  pub latest-PlainRound :
      (excluded : Option ℕ) (seen : List ℕ) (rs : List Round)
      → All PlainRound rs
      → All PlainRound (latest_from excluded seen rs)
  unfolding latest_from
  latest-PlainRound excluded seen [] h = tt
  latest-PlainRound excluded seen (r ∷ rs) h =
      elim (Bool-cases (is_dropped excluded seen (round_input_id r))) [
        | inl drop ↦ rw drop (latest-PlainRound excluded seen rs h.1)
        | inr free ↦ rw free (h.0, latest-PlainRound excluded (saw (round_input_id r) seen) rs h.1)
      ]

  abbrev pub PlainGroup : HistoryRoundGroup → Type 0
  PlainGroup g = All PlainRound g.rounds

  abbrev PlainLast : Option HistoryRoundGroup → Type 0
  PlainLast none = Unit
  PlainLast (some g) = PlainGroup g

  pub groups-PlainRound :
      (current : Option String) (names : Dict String String) (last : Option HistoryRoundGroup)
      (rs : List Round)
      → PlainLast last
      → All PlainRound rs
      → All PlainGroup (groups_from current names last rs)
  unfolding groups_from
  groups-PlainRound current names none [] p h = tt
  groups-PlainRound current names (some g) [] p h = (p, tt)
  groups-PlainRound current names none ([] ∷ rs) p h = groups-PlainRound current names none rs p h.1
  groups-PlainRound current names (some g) ([] ∷ rs) p h =
      groups-PlainRound current names (some g) rs p h.1
  groups-PlainRound current names none ((a ∷ r) ∷ rs) p h =
      groups-PlainRound current names
        (some (
          new_group (type_for current a.owner_agent_name) a.owner_agent_name
            (display_name names a.owner_agent_name) (a ∷ r)))
        rs (h.0, tt) h.1
  groups-PlainRound current names (some g) ((a ∷ r) ∷ rs) p h =
      elim (Bool-cases (joins (type_for current a.owner_agent_name) a.owner_agent_name g)) [
        | inl joined ↦ rw joined (
            groups-PlainRound current names (some (with_round (a ∷ r) g)) rs
              (All-append PlainRound g.rounds ((a ∷ r) ∷ []) p (h.0, tt)) h.1)
        | inr new ↦ rw new (
          p,
          groups-PlainRound current names
              (some (
                new_group (type_for current a.owner_agent_name) a.owner_agent_name
                  (display_name names a.owner_agent_name) (a ∷ r)))
              rs (h.0, tt) h.1,
        )
      ]
