-- ===== src/Kernel/Tasks/Units.antt =====
-- How the list of execution units changes while one unit is run.
use turtlemap.Prelude.{
  ap, ℕ, suc, ◌+◌, ◌≡◌, ◌≢◌, refl, true, false, some, List, [], ◌∷◌, ◌++◌, arith, All, find?,
  find?-cons_true, find?-cons_false, sym, ◌∙◌, find?-eq-some, subst, Bool-cases, inl, inr,
  if◌then◌else◌,
}
use turtlemap.Prelude.Eq.{◌==◌, nat_eq}
use turtlemap.Kernel.Model.{ExecutionUnit, UnitResult}
use turtlemap.Kernel.Select.{is_pending, is_finished, pick_next_execution_unit}
use turtlemap.Kernel.Tasks.{update_unit, start_unit, finish_unit}

abbrev pub count_pending : List ExecutionUnit → ℕ
count_pending [] = 0
count_pending (u ∷ us) =
    let rest = count_pending us in if is_pending u.status then suc rest else rest

-- No two units have the same id.
abbrev pub Distinct : List ExecutionUnit → Type 0
Distinct [] = Unit
Distinct (u ∷ us) = All (λ (v : ExecutionUnit). v.unit_id ≢ u.unit_id) us × Distinct us

-- The two writes that running unit `i` makes.
abbrev pub ran : ℕ → UnitResult → List ExecutionUnit → List ExecutionUnit
ran i res us = update_unit i (finish_unit res) (update_unit i start_unit us)

start-id : (u : ExecutionUnit) → (start_unit u).unit_id ≡ u.unit_id
start-id u = ground arith

ran-cons-ne :
    (i : ℕ) (res : UnitResult) (u : ExecutionUnit) (us : List ExecutionUnit)
    → (u.unit_id == i) ≡ false
    → ran i res (u ∷ us) ≡ u ∷ ran i res us
unfolding update_unit
ran-cons-ne i res u us e = rw (e, e)

ran-other :
    (i : ℕ) (res : UnitResult) (us : List ExecutionUnit)
    → All (λ (v : ExecutionUnit). v.unit_id ≢ i) us
    → ran i res us ≡ us
unfolding update_unit
ran-other i res [] h = refl
ran-other i res (u ∷ us) h = ground (arith, ran-other i res us h.1, h.0)

ran-cons-eq :
    (res : UnitResult) (u : ExecutionUnit) (us : List ExecutionUnit)
    → ran u.unit_id res (u ∷ us) ≡ finish_unit res (start_unit u) ∷ ran u.unit_id res us
unfolding update_unit
ran-cons-eq res u us = ground arith

-- Running the next unit to an end takes one pending unit away.
pub count-ran :
    (res : UnitResult) (us : List ExecutionUnit) (u : ExecutionUnit)
    → Distinct us
    → pick_next_execution_unit us ≡ some u
    → is_finished res.next_unit_status ≡ true
    → count_pending (ran u.unit_id res us) + 1 ≡ count_pending us
unfolding pick_next_execution_unit
count-ran res [] u d e f = absurd (cc)
count-ran res (v ∷ us) u d e f = elim (Bool-cases (is_pending v.status)) [
  | inl next ↦
      let found : some v ≡ some u =
        sym (find?-cons_true (λ (w : ExecutionUnit). is_pending w.status) v us next) ∙ e in
      let same : v ≡ u = cc in
      subst
        (λ (w : ExecutionUnit).
          count_pending (ran w.unit_id res (v ∷ us)) + 1 ≡ count_pending (v ∷ us))
        same (rw (ran-cons-eq res v us, ran-other v.unit_id res us d.0) (ground arith))
  | inr past ↦
      let found : find? (λ (w : ExecutionUnit). is_pending w.status) us ≡ some u =
        sym (find?-cons_false (λ (w : ExecutionUnit). is_pending w.status) v us past) ∙ e in
      let differs =
        (find?-eq-some (λ (w : ExecutionUnit). w.unit_id ≢ v.unit_id)
          (λ (w : ExecutionUnit). is_pending w.status) us u d.0 found).1 in
      rw (ran-cons-ne u.unit_id res v us (ground arith))
        (ground (arith, count-ran res us u d.1 found f))
]

-- the unit as it stands after it was run: its id and type, the result, and the status that the result names
abbrev pub ended : UnitResult → ExecutionUnit → ExecutionUnit
ended res u = record {
  unit_id = u.unit_id;
  unit_type = u.unit_type;
  status = res.next_unit_status;
  result = some res;
}

-- `after` is `before` with the first pending unit, `u`, run to its end, and `appended` behind it.
pub record IsRun (u : ExecutionUnit) (res : UnitResult) (appended before after : List ExecutionUnit)
    : Type 0 where
  pub past : List ExecutionUnit
  pub rest : List ExecutionUnit
  pub whole : before ≡ past ++ u ∷ rest
  pub none_pending : All (λ (v : ExecutionUnit). is_pending v.status ≡ false) past
  pub is_pending : is_pending u.status ≡ true
  pub result : after ≡ past ++ ended res u ∷ (rest ++ appended)

finish-ended : (res : UnitResult) (u : ExecutionUnit) → finish_unit res (start_unit u) ≡ ended res u
finish-ended res u = elim (Bool-cases (is_pending u.status)) [
  | inl h ↦ rw h refl
  | inr h ↦ rw h refl
]

pub ran-IsRun :
    (res : UnitResult) (appended us : List ExecutionUnit) (u : ExecutionUnit)
    → Distinct us
    → pick_next_execution_unit us ≡ some u
    → IsRun u res appended us (ran u.unit_id res us ++ appended)
unfolding pick_next_execution_unit
ran-IsRun res appended [] u d e = absurd (cc)
ran-IsRun res appended (v ∷ us) u d e = elim (Bool-cases (is_pending v.status)) [
  | inl next ↦
      let found : some v ≡ some u =
        sym (find?-cons_true (λ (w : ExecutionUnit). is_pending w.status) v us next) ∙ e in
      let same : v ≡ u = cc in
      subst
        (λ (w : ExecutionUnit).
          IsRun w res appended (v ∷ us) (ran w.unit_id res (v ∷ us) ++ appended))
        same
        (record {
          past = [];
          rest = us;
          whole = refl;
          none_pending = tt;
          is_pending = next;
          result =
              rw (ran-cons-eq res v us, ran-other v.unit_id res us d.0, finish-ended res v) refl;
        })
  | inr past ↦
      let found : find? (λ (w : ExecutionUnit). is_pending w.status) us ≡ some u =
        sym (find?-cons_false (λ (w : ExecutionUnit). is_pending w.status) v us past) ∙ e in
      let differs =
        (find?-eq-some (λ (w : ExecutionUnit). w.unit_id ≢ v.unit_id)
          (λ (w : ExecutionUnit). is_pending w.status) us u d.0 found).1 in
      let rec = ran-IsRun res appended us u d.1 found in
      record {
        past = v ∷ rec.past;
        rest = rec.rest;
        whole = ap (λ ws. v ∷ ws) rec.whole;
        none_pending = (past, rec.none_pending);
        is_pending = rec.is_pending;
        result = rw (ran-cons-ne u.unit_id res v us (ground arith)) (ap (λ ws. v ∷ ws) rec.result);
      }
]

pub count_pending-append :
    (us vs : List ExecutionUnit) → count_pending (us ++ vs) ≡ count_pending us + count_pending vs
count_pending-append [] vs = omega arith
count_pending-append (u ∷ us) vs = ground (arith, count_pending-append us vs)
