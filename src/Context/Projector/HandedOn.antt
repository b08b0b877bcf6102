-- ===== src/Context/Projector/HandedOn.antt =====
-- os/context/projector.py: where the group input of other agents goes.
use turtlemap.Prelude.{
  ℕ, String, ◌≡◌, refl, sym, ap, ◌∙◌, Bool, true, false, List, [], ◌∷◌, ◌++◌, append-nil,
  append_assoc, map, keep, All, Bool-cases, inl, inr,
}
use turtlemap.Prelude.Eq.{string_eq}
use turtlemap.Prelude.Kept.{keep-cons_true, keep-cons_false}
use turtlemap.Prelude.Blocks.{concat_map}
use turtlemap.Prelude.Text.{is_blank}
use turtlemap.Prelude.Try.{Try, value, and_then, and_then-eq-value}
use turtlemap.Context.Projector.{ProjectorError, GroupType, HistoryRoundGroup}
use turtlemap.Context.Projector.Messages.{Wording}
use turtlemap.Context.Projector.History.{
  Merged, build_group_input_content, pending_with, merge_one, merge_from, merge_group_input,
}

abbrev pub is_normal : HistoryRoundGroup → Bool
is_normal g = elim g.type [ GroupType.normal ↦ true | GroupType.group_input ↦ false ]

abbrev pub inputs_of : List HistoryRoundGroup → List String
inputs_of gs = concat_map (λ g. g.group_input) gs

module _ (w : Wording) (now : ℕ) where
  abbrev pub content_of : HistoryRoundGroup → GroupType → Try ProjectorError (List String)
  content_of g GroupType.normal = value []
  content_of g GroupType.group_input =
      and_then (build_group_input_content w now g) λ s. value (pending_with w now s [])

  -- what the groups of other agents say, in their order
  unfoldable pub contents : List HistoryRoundGroup → Try ProjectorError (List String)
  contents [] = value []
  contents (g ∷ gs) =
      and_then (content_of g g.type) λ xs. and_then (contents gs) λ rest. value (xs ++ rest)

  -- No group input gets lost, and none changes its place: `m` hands `cs` on, and has the groups of the agent itself.
  pub record IsHandedOn (gs : List HistoryRoundGroup) (cs : List String)
      (m : List HistoryRoundGroup × List String) : Type 0 where
    pub inputs : inputs_of m.0 ++ m.1 ≡ cs
    pub rounds : map (λ g. g.rounds) m.0 ≡ map (λ g. g.rounds) (keep is_normal gs)

  -- A group that was just built has no group input.
  abbrev pub IsNew : HistoryRoundGroup → Type 0
  IsNew g = g.group_input ≡ []

  pending-split :
      (s : String) (p : List String) → pending_with w now s p ≡ p ++ pending_with w now s []
  pending-split s p = elim (Bool-cases (is_blank s)) [
    | inl empty ↦ rw empty (sym (append-nil p))
    | inr text ↦ rw text refl
  ]

  -- one group, where what is made of the groups behind it hands on what it should
  merge_one-IsHandedOn :
      (g : HistoryRoundGroup) (gs : List HistoryRoundGroup) (pending : List String)
      (rest : List String → Merged w now) (t : GroupType) (xs ys : List String)
      → g.type ≡ t
      → g.group_input ≡ []
      → content_of g t ≡ value xs
      → ((p : List String)
          → (m : List HistoryRoundGroup × List String) × (rest p ≡ value m)
            × IsHandedOn gs (p ++ ys) m)
      → (m : List HistoryRoundGroup × List String) × (merge_one w now g pending rest t ≡ value m)
        × IsHandedOn (g ∷ gs) (pending ++ (xs ++ ys)) m
  unfolding concat_map
  merge_one-IsHandedOn g gs pending rest GroupType.normal xs ys at new c k =
      let (m, e, h) = k [] in
      let no_content : xs ≡ [] = cc in
      let own : is_normal g ≡ true = rw at refl in
      (
        (record g { group_input = g.group_input ++ pending } ∷ m.0, m.1),
        rw e refl,
        record {
          inputs =
              ap (λ i. ((i ++ pending) ++ inputs_of m.0) ++ m.1) new
              ∙ append_assoc pending (inputs_of m.0) m.1
              ∙ ap (λ r. pending ++ r) (h.inputs ∙ ap (λ r. r ++ ys) (sym no_content));
          rounds =
              ap (λ r. g.rounds ∷ r) h.rounds
              ∙ sym (ap (map (λ g. g.rounds)) (keep-cons_true is_normal g gs own));
        },
      )
  merge_one-IsHandedOn g gs pending rest GroupType.group_input xs ys at new c k =
      let (s, made, rest_eq) =
        and_then-eq-value (build_group_input_content w now g) (λ s. value (pending_with w now s []))
          c in
      let said : pending_with w now s [] ≡ xs = cc in
      let (m, e, h) = k (pending_with w now s pending) in
      let other : is_normal g ≡ false = rw at refl in
      (
        m,
        rw made e,
        record {
          inputs =
              h.inputs
              ∙ ap (λ r. r ++ ys) (pending-split s pending)
              ∙ append_assoc pending (pending_with w now s []) ys
              ∙ ap (λ r. pending ++ (r ++ ys)) said;
          rounds = h.rounds ∙ sym (ap (map (λ g. g.rounds)) (keep-cons_false is_normal g gs other));
        },
      )

  merge-IsHandedOn :
      (pending : List String) (gs : List HistoryRoundGroup) (cs : List String)
      → All IsNew gs
      → contents gs ≡ value cs
      → (m : List HistoryRoundGroup × List String) × (merge_from w now pending gs ≡ value m)
        × IsHandedOn gs (pending ++ cs) m
  unfolding merge_from contents concat_map
  merge-IsHandedOn pending [] cs h e =
      let none_left : cs ≡ [] = cc in
      (
        ([], pending),
        refl,
        record { inputs = rw none_left (sym (append-nil pending)); rounds = refl },
      )
  merge-IsHandedOn pending (g ∷ gs) cs h e =
      let (xs, here, more) =
        and_then-eq-value (content_of g g.type)
          (λ xs. and_then (contents gs) λ rest. value (xs ++ rest)) e in
      let (ys, behind, all) = and_then-eq-value (contents gs) (λ rest. value (xs ++ rest)) more in
      let parts : cs ≡ xs ++ ys = cc in
      rw parts (
        merge_one-IsHandedOn g gs pending (λ p. merge_from w now p gs) g.type xs ys refl h.0 here
          λ p. merge-IsHandedOn p gs ys h.1 behind)

  -- If the groups are new and the contents of the groups of other agents can be made, merging
  -- hands all of these on, none twice and none out of order, to the groups of the agent itself or,
  -- at the end, to its current input, and the rounds of its own groups stay as they are.
  pub merge_group_input-IsHandedOn :
      (gs : List HistoryRoundGroup) (cs : List String)
      → All IsNew gs
      → contents gs ≡ value cs
      → (m : List HistoryRoundGroup × List String) × (merge_group_input w now gs ≡ value m)
        × IsHandedOn gs cs m
  unfolding merge_group_input
  merge_group_input-IsHandedOn gs cs h e = merge-IsHandedOn [] gs cs h e
