-- ===== src/Kernel/Exec/Keeps.antt =====
-- Invariants of actions: one rule for each way in which the kernel builds an action.
use turtlemap.Prelude.{Bool, true, false, Option, none, some, if◌then◌else◌}
use turtlemap.Kernel.Exec.{
  Error, Result, ok, err, Exec, pure, raise, gets, require, reads, modify, continue, ◌>>=◌,
}

-- `m` keeps `P` whether it returns or raises.
pub record Keeps {State Value : Type 0} (P : State → Type 0) (action : Exec State Value)
    : Type 0 where
  pub at : (before : State) → P before → P (action before).1

module _ {S A : Type 0} {P : S → Type 0} where
  pub Keeps-gets : (f : S → A) → Keeps P (gets f)
  unfolding gets
  Keeps-gets f = record { at = λ s kept. kept }

  pub Keeps-require : (e : Error) (o : Option A) → Keeps P (require e o)
  unfolding require
  Keeps-require e none = record { at = λ s kept. kept }
  Keeps-require e (some a) = record { at = λ s kept. kept }

  pub Keeps-reads : (e : Error) (f : S → Option A) → Keeps P (reads e f)
  unfolding reads
  Keeps-reads e f = record { at = λ s kept. (Keeps-require e (f s)).at s kept }

  pub Keeps-raise : (e : Error) → Keeps P (raise {A = A} e)
  unfolding raise
  Keeps-raise e = record { at = λ s kept. kept }

  pub Keeps-pure : (a : A) → Keeps P (pure a)
  unfolding pure
  Keeps-pure a = record { at = λ s kept. kept }

  pub Keeps-if : (b : Bool) (m n : Exec S A) → Keeps P m → Keeps P n → Keeps P (if b then m else n)
  Keeps-if true m n km kn = km
  Keeps-if false m n km kn = kn

module _ {S : Type 0} {P : S → Type 0} where
  pub Keeps-modify : (f : S → S) → ((s : S) → P s → P (f s)) → Keeps P (modify f)
  unfolding modify
  Keeps-modify f kf = record { at = kf }

module _ {S A B : Type 0} {P : S → Type 0} where
  continue-Keeps :
      (r : Result A) (f : A → Exec S B)
      → ((a : A) → Keeps P (f a))
      → (s : S) → P s
      → P (continue r f s).1
  continue-Keeps (ok a) f kf s h = (kf a).at s h
  continue-Keeps (err e) f kf s h = h

  pub Keeps-bind :
      (first : Exec S A) (next : A → Exec S B)
      → ((a : A) → Keeps P (next a))
      → Keeps P first
      → Keeps P (first >>= next)
  unfolding ◌>>=◌
  Keeps-bind first next kn kf = record {
    at = λ s kept. continue-Keeps (first s).0 next kn (first s).1 (kf.at s kept);
  }

  infixr 10 ◌andthen◌
  -- the rule as a proof of a block, one line after the other
  pub ◌andthen◌ :
      {first : Exec S A} {next : A → Exec S B}
      → Keeps P first
      → ((a : A) → Keeps P (next a))
      → Keeps P (first >>= next)
  ◌andthen◌ {first} {next} kf kn = Keeps-bind first next kn kf

pub ruleset keeps_rules =
    (Keeps-pure, Keeps-raise, Keeps-gets, Keeps-require, Keeps-reads, Keeps-if, Keeps-bind)
