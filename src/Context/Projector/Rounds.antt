-- ===== src/Context/Projector/Rounds.antt =====
-- os/context/projector.py: the rounds of a history, and which of them are shown.
use turtlemap.Prelude.{
  ℕ, ◌≡◌, refl, sym, ap, subst, ◌∙◌, Bool, true, false, ◌||◌, Option, some, List, [], ◌∷◌, ◌++◌,
  arith, take, append-nil, append_assoc, keep, All, All-append, Bool-cases, Option-cases, inl, inr,
  if◌then◌else◌,
}
use mathlib.Core.List.{reverse, reverse-reverse, reverse-cons, Sublist, Sublistᴰ}
use mathlib.Core.List.Sublist
use turtlemap.Prelude.Eq.{◌==◌, nat_eq, option_eq}
use turtlemap.Prelude.Kept.{keep-reverse, keep-cons_true, keep-cons_false}
use turtlemap.Prelude.Groups.{mem}
use turtlemap.Prelude.Blocks.{concat_map}
use turtlemap.Context.Projector.{
  HistoryArtifact, Round, is_input, split_from, split_history_rounds, round_input_id, is_dropped,
  saw, latest_from, filter_latest_history_rounds,
}

abbrev pub flatten : List Round → Round
flatten rs = concat_map (λ r. r) rs

-- what stands before the first input belongs to no round
unfoldable pub from_first_input : List HistoryArtifact → List HistoryArtifact
from_first_input [] = []
from_first_input (a ∷ h) = if is_input a then a ∷ h else from_first_input h

-- A round is an input and what follows it before the next input.
abbrev pub IsRound : Round → Type 0
IsRound [] = ⊥
IsRound (a ∷ r) = (is_input a ≡ true) × All (λ b. is_input b ≡ false) r

split_from-flatten :
    (a : HistoryArtifact) (r : Round) (h : List HistoryArtifact)
    → flatten (split_from (a ∷ r) h) ≡ (a ∷ r) ++ h
unfolding split_from concat_map
split_from-flatten a r [] = refl
split_from-flatten a r (b ∷ h) = elim (Bool-cases (is_input b)) [
  | inl input ↦ rw input (ap (λ t. (a ∷ r) ++ t) (split_from-flatten b [] h))
  | inr other ↦ rw other (split_from-flatten a (r ++ b ∷ []) h ∙ append_assoc (a ∷ r) (b ∷ []) h)
]

split_from-IsRound :
    (a : HistoryArtifact) (r : Round) (h : List HistoryArtifact)
    → IsRound (a ∷ r)
    → All IsRound (split_from (a ∷ r) h)
unfolding split_from
split_from-IsRound a r [] k = (k, tt)
split_from-IsRound a r (b ∷ h) k = elim (Bool-cases (is_input b)) [
  | inl input ↦ rw input (k, split_from-IsRound b [] h (input, tt))
  | inr other ↦ rw other (
      split_from-IsRound a (r ++ b ∷ []) h
        (k.0, All-append (λ b. is_input b ≡ false) r (b ∷ []) k.1 (other, tt)))
]

-- The rounds of a history make up what stands from its first input on, and each of them is one
-- input with what follows it before the next.
pub split-IsSplit :
    (h : List HistoryArtifact)
    → (flatten (split_history_rounds h) ≡ from_first_input h) × All IsRound (split_history_rounds h)
unfolding split_history_rounds split_from from_first_input concat_map
split-IsSplit [] = (refl, tt)
split-IsSplit (a ∷ h) = elim (Bool-cases (is_input a)) [
  | inl input ↦ rw input (split_from-flatten a [] h, split_from-IsRound a [] h (input, tt))
  | inr other ↦ rw other (split-IsSplit h)
]

-- the rounds of an input
abbrev pub rounds_of : ℕ → List Round → List Round
rounds_of i rs = keep (λ r. round_input_id r == some i) rs

abbrev blocked : Option ℕ → List ℕ → ℕ → Bool
blocked excluded seen i = (some i == excluded) || mem i seen

latest_from-first :
    (excluded : Option ℕ) (i : ℕ) (seen : List ℕ) (rs : List Round)
    → rounds_of i (latest_from excluded seen rs)
      ≡ (if blocked excluded seen i then [] else take 1 (rounds_of i rs))
unfolding latest_from
latest_from-first excluded i seen [] = ground arith
latest_from-first excluded i seen (r ∷ rs) = elim (Option-cases (round_input_id r)) [
  | inl nothing ↦
      let p : Round → Bool = λ r. round_input_id r == some i in
      let miss : p r ≡ false = ap (λ o. o == some i) nothing in
      rw nothing (
        latest_from-first excluded i seen rs
        ∙ ap (λ t. if blocked excluded seen i then [] else take 1 t)
            (sym (keep-cons_false p r rs miss)))
  | inr (j, id) ↦
      let p : Round → Bool = λ r. round_input_id r == some i in
      elim (Bool-cases (j == i)) [
        | inl same ↦
            let at : j ≡ i = (nat_eq.decides j i).0 same in
            let hit : p r ≡ true = ap (λ o. o == some i) id ∙ same in
            elim (Bool-cases (blocked excluded seen i)) [
              | inl drop ↦
                  let drop' : blocked excluded seen j ≡ true =
                    ap (blocked excluded seen) at ∙ drop in
                  rw (id, drop', latest_from-first excluded i seen rs, drop) refl
              | inr free ↦
                  let free' : blocked excluded seen j ≡ false =
                    ap (blocked excluded seen) at ∙ free in
                  let again : blocked excluded (j ∷ seen) i ≡ true = ground arith in
                  rw (id, free', free)
                    (keep-cons_true p r (latest_from excluded (j ∷ seen) rs) hit
                      ∙ ap (λ t. r ∷ t) (latest_from-first excluded i (j ∷ seen) rs ∙ rw again refl)
                      ∙ sym (ap (take 1) (keep-cons_true p r rs hit)))
            ]
        | inr other ↦
            let miss : p r ≡ false = ap (λ o. o == some i) id ∙ other in
            elim (Bool-cases (blocked excluded seen j)) [
              | inl drop ↦
                  rw (id, drop)
                    (latest_from-first excluded i seen rs
                      ∙ ap (λ t. if blocked excluded seen i then [] else take 1 t)
                          (sym (keep-cons_false p r rs miss)))
              | inr free ↦
                  let alike : blocked excluded (j ∷ seen) i ≡ blocked excluded seen i =
                    rw other refl in
                  rw (id, free)
                    (keep-cons_false p r (latest_from excluded (j ∷ seen) rs) miss
                      ∙ latest_from-first excluded i (j ∷ seen) rs
                      ∙ rw alike (
                          ap (λ t. if blocked excluded seen i then [] else take 1 t)
                            (sym (keep-cons_false p r rs miss))))
            ]
      ]
]

latest_from-Sublistᴰ :
    (excluded : Option ℕ) (seen : List ℕ) (rs : List Round)
    → Sublistᴰ (latest_from excluded seen rs) rs
unfolding latest_from
latest_from-Sublistᴰ excluded seen [] = Sublistᴰ.slnil
latest_from-Sublistᴰ excluded seen (r ∷ rs) =
    elim (Bool-cases (is_dropped excluded seen (round_input_id r))) [
      | inl drop ↦ rw drop (Sublistᴰ.cons (latest_from-Sublistᴰ excluded seen rs))
      | inr free ↦
          rw free (
            Sublistᴰ.cons-cons refl
              (latest_from-Sublistᴰ excluded (saw (round_input_id r) seen) rs))
    ]

reverse-Sublist : {xs ys : List Round} → Sublistᴰ xs ys → Sublist (reverse xs) (reverse ys)
reverse-Sublist Sublistᴰ.slnil = Sublist.refl []
reverse-Sublist {xs = xs} (Sublistᴰ.cons {a = a} {l₂ = l₂} s) = rw (reverse-cons a l₂) (
    subst (λ zs. Sublist zs (reverse l₂ ++ a ∷ [])) (append-nil (reverse xs))
      (Sublist.append (reverse-Sublist s) (Sublist.cons a (Sublist.refl []))))
reverse-Sublist (Sublistᴰ.cons-cons {a = a} {b = b} {l₁ = l₁} {l₂ = l₂} e s) =
    rw (reverse-cons a l₁, reverse-cons b l₂)
      (Sublist.append (reverse-Sublist s)
        (subst (λ c. Sublist (a ∷ []) (c ∷ [])) e (Sublist.refl (a ∷ []))))

-- Of the rounds that one input has, the filter keeps the last one, and none of the excluded input;
-- what it keeps stands in the order of the history.
pub filter_latest-IsLatest :
    (excluded : Option ℕ) (rounds : List Round)
    → Sublist (filter_latest_history_rounds excluded rounds) rounds
      × ((i : ℕ)
          → rounds_of i (filter_latest_history_rounds excluded rounds)
            ≡ (if some i == excluded then [] else reverse (take 1 (reverse (rounds_of i rounds)))))
unfolding filter_latest_history_rounds
filter_latest-IsLatest excluded rounds = (
  subst (Sublist (reverse (latest_from excluded [] (reverse rounds)))) (reverse-reverse rounds)
      (reverse-Sublist (latest_from-Sublistᴰ excluded [] (reverse rounds))),
  λ i.
      let p : Round → Bool = λ r. round_input_id r == some i in
      keep-reverse p (latest_from excluded [] (reverse rounds))
      ∙ ap reverse (latest_from-first excluded i [] (reverse rounds))
      ∙ once i (some i == excluded) (ap (take 1) (keep-reverse p rounds)),
)
  where
    once :
        (i : ℕ) (b : Bool) {xs ys : List Round}
        → xs ≡ ys
        → reverse (if b || false then [] else xs) ≡ (if b then [] else reverse ys)
    once i true e = refl
    once i false e = ap reverse e
