-- ===== src/Context/Projector/Groups.antt =====
-- os/context/projector.py: groups of rounds, and where the group input of other agents goes.
use turtlemap.Prelude.{
  String, ◌≡◌, refl, ap, ◌∙◌, Bool, true, false, Option, none, some, List, [], ◌∷◌, ◌++◌,
  append_assoc, keep, Bool-cases, inl, inr, All, All-append, ◌≢◌, ◌&&◌, sym, subst,
}
use turtlemap.Prelude.Eq.{◌==◌, string_eq}
use turtlemap.Prelude.Dict.{Dict}
use turtlemap.Prelude.Blocks.{concat_map}
use turtlemap.Context.Projector.{
  Round, GroupType, HistoryArtifact, HistoryRoundGroup, same_type, type_for, display_name,
  new_group, joins, with_round, groups_from, build_history_round_groups,
}

-- the rounds of groups, one after the other
abbrev pub rounds_in : List HistoryRoundGroup → List Round
rounds_in gs = concat_map (λ g. g.rounds) gs

abbrev pub is_filled : Round → Bool
is_filled [] = false
is_filled (a ∷ r) = true

-- the round is of the agent `n`, who owns its first artifact
abbrev IsOf : String → Round → Type 0
IsOf n [] = ⊥
IsOf n (a ∷ r) = a.owner_agent_name ≡ n

-- a group of `n` is normal for `n` itself, or where no agent is given, and else group input
abbrev KindOf : Option String → String → GroupType → Type 0
KindOf none n t = t ≡ GroupType.normal
KindOf (some c) n t = (n ≡ c → t ≡ GroupType.normal) × (n ≢ c → t ≡ GroupType.group_input)

-- all rounds of a group are of its owner, and it is new
pub record IsOwned (current : Option String) (g : HistoryRoundGroup) : Type 0 where
  pub kind : KindOf current g.owner_agent_name g.type
  pub rounds : All (IsOf g.owner_agent_name) g.rounds
  pub fresh : g.group_input ≡ []

-- the next group has another owner
abbrev Differs : HistoryRoundGroup → List HistoryRoundGroup → Type 0
Differs g [] = Unit
Differs g (x ∷ gs) = x.owner_agent_name ≢ g.owner_agent_name

abbrev pub IsAlternating : Option String → List HistoryRoundGroup → Type 0
IsAlternating current [] = Unit
IsAlternating current (g ∷ gs) = IsOwned current g × Differs g gs × IsAlternating current gs

type_for-KindOf : (current : Option String) (n : String) → KindOf current n (type_for current n)
type_for-KindOf none n = refl
type_for-KindOf (some c) n = elim (Bool-cases (n == c)) [
  | inl own ↦ ((λ e. rw own refl), (λ e. absurd (e ((string_eq.decides n c).0 own))))
  | inr other ↦ ((λ e. absurd (cc (other, (string_eq.decides n c).1 e))), (λ e. rw other refl))
]

KindOf-unique :
    (current : Option String) (n : String) (t u : GroupType)
    → KindOf current n t
    → KindOf current n u
    → t ≡ u
KindOf-unique none n t u h k = h ∙ sym k
KindOf-unique (some c) n t u h k = elim (Bool-cases (n == c)) [
  | inl own ↦ let e : n ≡ c = (string_eq.decides n c).0 own in h.0 e ∙ sym (k.0 e)
  | inr other ↦
      let e : n ≢ c = λ q. absurd (cc (other, (string_eq.decides n c).1 q)) in h.1 e ∙ sym (k.1 e)
]

same_type_refl : (t : GroupType) → same_type t t ≡ true
same_type_refl GroupType.normal = refl
same_type_refl GroupType.group_input = refl

new-IsOwned :
    (current : Option String) (display : String) (a : HistoryArtifact) (r : Round)
    → IsOwned current
        (new_group (type_for current a.owner_agent_name) a.owner_agent_name display (a ∷ r))
new-IsOwned current display a r = record {
  kind = type_for-KindOf current a.owner_agent_name;
  rounds = (refl, tt);
  fresh = refl;
}

-- a round that joins a group has its owner
joins-owner :
    (t : GroupType) (n : String) (g : HistoryRoundGroup)
    → joins t n g ≡ true
    → n ≡ g.owner_agent_name
joins-owner t n g h =
    sym ((string_eq.decides g.owner_agent_name n).0 (and_right (same_type g.type t) h))
  where
    and_right : (p : Bool) {q : Bool} → (p && q) ≡ true → q ≡ true
    and_right true h = h
    and_right false h = absurd (cc)

with_round-IsOwned :
    (current : Option String) (g : HistoryRoundGroup) (t : GroupType) (a : HistoryArtifact)
    (r : Round)
    → joins t a.owner_agent_name g ≡ true
    → IsOwned current g
    → IsOwned current (with_round (a ∷ r) g)
with_round-IsOwned current g t a r joined h = record {
  kind = h.kind;
  rounds =
      All-append (IsOf g.owner_agent_name) g.rounds ((a ∷ r) ∷ []) h.rounds
        (joins-owner t a.owner_agent_name g joined, tt);
  fresh = h.fresh;
}

-- a round that does not join the last group has another owner
apart-owner :
    (current : Option String) (n : String) (g : HistoryRoundGroup)
    → IsOwned current g
    → joins (type_for current n) n g ≡ false
    → n ≢ g.owner_agent_name
apart-owner current n g h apart same =
    let kind : g.type ≡ type_for current n =
      KindOf-unique current g.owner_agent_name g.type (type_for current n) h.kind
        (subst (λ m. KindOf current m (type_for current n)) same (type_for-KindOf current n)) in
    let joined : joins (type_for current n) n g ≡ true =
      ap (λ t. same_type t (type_for current n) && g.owner_agent_name == n) kind
      ∙ ap (λ b. b && g.owner_agent_name == n) (same_type_refl (type_for current n))
      ∙ (string_eq.decides g.owner_agent_name n).1 (sym same) in
    absurd (cc)

abbrev rounds_last : Option HistoryRoundGroup → List Round
rounds_last none = []
rounds_last (some g) = g.rounds

groups-rounds :
    (current : Option String) (names : Dict String String) (last : Option HistoryRoundGroup)
    (rs : List Round)
    → rounds_in (groups_from current names last rs) ≡ rounds_last last ++ keep is_filled rs
unfolding groups_from concat_map
groups-rounds current names none [] = refl
groups-rounds current names (some g) [] = refl
groups-rounds current names none ([] ∷ rs) = groups-rounds current names none rs
groups-rounds current names (some g) ([] ∷ rs) = groups-rounds current names (some g) rs
groups-rounds current names none ((a ∷ r) ∷ rs) =
    groups-rounds current names
      (some (
        new_group (type_for current a.owner_agent_name) a.owner_agent_name
          (display_name names a.owner_agent_name) (a ∷ r)))
      rs
groups-rounds current names (some g) ((a ∷ r) ∷ rs) =
    let t = type_for current a.owner_agent_name in
    elim (Bool-cases (joins t a.owner_agent_name g)) [
      | inl joined ↦ rw joined (
          groups-rounds current names (some (with_round (a ∷ r) g)) rs
          ∙ append_assoc g.rounds ((a ∷ r) ∷ []) (keep is_filled rs))
      | inr other ↦ rw other (
          ap (λ rest. g.rounds ++ rest)
            (groups-rounds current names
              (some
                (new_group t a.owner_agent_name (display_name names a.owner_agent_name) (a ∷ r)))
              rs))
    ]

-- the first of the groups has the owner of `g`
abbrev GoesOn : HistoryRoundGroup → List HistoryRoundGroup → Type 0
GoesOn g [] = ⊥
GoesOn g (x ∷ gs) = x.owner_agent_name ≡ g.owner_agent_name

GoesOn-Differs :
    (g x : HistoryRoundGroup) (gs : List HistoryRoundGroup)
    → x.owner_agent_name ≢ g.owner_agent_name
    → GoesOn x gs
    → Differs g gs
GoesOn-Differs g x [] h k = absurd k
GoesOn-Differs g x (y ∷ gs) h k = λ e. h (sym k ∙ e)

groups-IsAlternating :
    (current : Option String) (names : Dict String String) (g : HistoryRoundGroup) (rs : List Round)
    → IsOwned current g
    → IsAlternating current (groups_from current names (some g) rs)
      × GoesOn g (groups_from current names (some g) rs)
unfolding groups_from
groups-IsAlternating current names g [] h = ((h, tt, tt), refl)
groups-IsAlternating current names g ([] ∷ rs) h = groups-IsAlternating current names g rs h
groups-IsAlternating current names g ((a ∷ r) ∷ rs) h =
    let t = type_for current a.owner_agent_name in
    let x = new_group t a.owner_agent_name (display_name names a.owner_agent_name) (a ∷ r) in
    elim (Bool-cases (joins t a.owner_agent_name g)) [
      | inl joined ↦ rw joined (
          groups-IsAlternating current names (with_round (a ∷ r) g) rs
            (with_round-IsOwned current g t a r joined h))
      | inr other ↦
          let (behind, on) =
            groups-IsAlternating current names x rs
              (new-IsOwned current (display_name names a.owner_agent_name) a r) in
          rw other (
            (
              h,
              GoesOn-Differs g x (groups_from current names (some x) rs)
                  (apart-owner current a.owner_agent_name g h other) on,
              behind,
            ),
            refl,
          )
    ]

none-IsAlternating :
    (current : Option String) (names : Dict String String) (rs : List Round)
    → IsAlternating current (groups_from current names none rs)
unfolding groups_from
none-IsAlternating current names [] = tt
none-IsAlternating current names ([] ∷ rs) = none-IsAlternating current names rs
none-IsAlternating current names ((a ∷ r) ∷ rs) =
    (groups-IsAlternating current names
      (new_group (type_for current a.owner_agent_name) a.owner_agent_name
        (display_name names a.owner_agent_name) (a ∷ r))
      rs (new-IsOwned current (display_name names a.owner_agent_name) a r)).0

-- The groups that rounds are put into hold the rounds that are not empty, in their order; every
-- round of a group is of the group's owner, the group is normal if that is the current agent, or
-- if there is none, and group input otherwise, neighbours have different owners, and no group has
-- group input yet.
pub build_groups-IsAlternating :
    (current : Option String) (names : Dict String String) (rs : List Round)
    → (rounds_in (build_history_round_groups current names rs) ≡ keep is_filled rs)
      × IsAlternating current (build_history_round_groups current names rs)
unfolding build_history_round_groups
build_groups-IsAlternating current names rs =
    (groups-rounds current names none rs, none-IsAlternating current names rs)
