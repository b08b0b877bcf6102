-- ===== src/Os/Load/Pending.antt =====
-- os/service.py: the limit on the paused tasks of an agent.
use turtlemap.Prelude.{
  ℕ, zero, suc, ◌-◌, ◌≤◌, ◌≡◌, refl, sym, ap, ◌∙◌, Bool, not, List, [], ◌∷◌, arith, length,
  length-append, take, keep, leb, Bool-cases, inl, inr,
}
use mathlib.Core.List.{reverse, reverse-cons, reverse-reverse}
use turtlemap.Prelude.Kept.{keep-reverse, keep-cons_true, keep-cons_false}
use turtlemap.Os.{ProcessingTask}
use turtlemap.Os.Load.{task_is_paused, retain, limit_paused}

take-nil : (n : ℕ) → take {A = ProcessingTask} n [] ≡ []
take-nil zero = refl
take-nil (suc n) = refl

retain-paused :
    (n : ℕ) (ts : List ProcessingTask)
    → keep task_is_paused (retain n ts) ≡ take (5 - n) (keep task_is_paused ts)
unfolding retain
retain-paused n [] = sym (take-nil (5 - n))
retain-paused n (t ∷ ts) = elim (Bool-cases (task_is_paused t)) [
  | inl paused ↦ elim (Bool-cases (leb 5 n)) [
    | inl enough ↦
        let none_left : 5 - n ≡ 0 = ground arith in
        let ih : keep task_is_paused (retain n ts) ≡ [] =
          retain-paused n ts ∙ ap (λ k. take k (keep task_is_paused ts)) none_left in
        rw (paused, enough, none_left) ih
    | inr room ↦
        let one_less : 5 - n ≡ suc (5 - suc n) = ground arith in
        rw (paused, room, one_less)
          (keep-cons_true task_is_paused t (retain (suc n) ts) paused
            ∙ ap (λ r. t ∷ r) (retain-paused (suc n) ts)
            ∙ sym (ap (take (suc (5 - suc n))) (keep-cons_true task_is_paused t ts paused)))
  ]
  | inr other ↦ rw other (
      keep-cons_false task_is_paused t (retain n ts) other
      ∙ retain-paused n ts
      ∙ sym (ap (take (5 - n)) (keep-cons_false task_is_paused t ts other)))
]

abbrev pub task_is_other : ProcessingTask → Bool
task_is_other t = not (task_is_paused t)

retain-others :
    (n : ℕ) (ts : List ProcessingTask) → keep task_is_other (retain n ts) ≡ keep task_is_other ts
unfolding retain
retain-others n [] = refl
retain-others n (t ∷ ts) = elim (Bool-cases (task_is_paused t)) [
  | inl paused ↦ elim (Bool-cases (leb 5 n)) [
    | inl enough ↦
        rw (paused, enough)
          (retain-others n ts ∙ sym (keep-cons_false task_is_other t ts (ap not paused)))
    | inr room ↦
        rw (paused, room)
          (keep-cons_false task_is_other t (retain (suc n) ts) (ap not paused)
            ∙ retain-others (suc n) ts
            ∙ sym (keep-cons_false task_is_other t ts (ap not paused)))
  ]
  | inr other ↦ rw other (
      keep-cons_true task_is_other t (retain n ts) (ap not other)
      ∙ ap (λ r. t ∷ r) (retain-others n ts)
      ∙ sym (keep-cons_true task_is_other t ts (ap not other)))
]

-- Of an agent's paused tasks the limit keeps the last five, or all if there are fewer, and of the
-- others all, each in their order.
pub limit_paused-keeps :
    (ts : List ProcessingTask)
    → (keep task_is_paused (limit_paused ts) ≡ reverse (take 5 (reverse (keep task_is_paused ts))))
      × (keep task_is_other (limit_paused ts) ≡ keep task_is_other ts)
unfolding limit_paused
limit_paused-keeps ts = (
  keep-reverse task_is_paused (retain 0 (reverse ts))
      ∙ ap reverse (retain-paused 0 (reverse ts) ∙ ap (take 5) (keep-reverse task_is_paused ts)),
  keep-reverse task_is_other (retain 0 (reverse ts))
      ∙ ap reverse (retain-others 0 (reverse ts) ∙ keep-reverse task_is_other ts)
      ∙ reverse-reverse (keep task_is_other ts),
)

length-take : (n : ℕ) (ts : List ProcessingTask) → length (take n ts) ≤ n
length-take zero ts = omega arith
length-take (suc n) [] = omega arith
length-take (suc n) (t ∷ ts) = omega (arith, length-take n ts)

length-native : (ts : List ProcessingTask) → length (reverse ts) ≡ length ts
length-native [] = refl
length-native (t ∷ ts) =
    ap length (reverse-cons t ts)
    ∙ length-append (reverse ts) (t ∷ [])
    ∙ omega (arith, length-native ts)

pub limit_paused-le :
    (ts : List ProcessingTask) → length (keep task_is_paused (limit_paused ts)) ≤ 5
limit_paused-le ts = omega (
  arith,
  ap length (limit_paused-keeps ts).0,
  length-native (take 5 (reverse (keep task_is_paused ts))),
  length-take 5 (reverse (keep task_is_paused ts)),
)
