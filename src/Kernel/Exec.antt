-- ===== src/Kernel/Exec.antt =====
-- Methods that change an object and may raise. What was written before a raise stays written, so
-- the state comes back beside the error too.
pub mod Keeps
use turtlemap.Prelude.{ℕ, ◌≡◌, refl, Option, none, some}

-- `KernelRuntimeError`, `KernelUnsupportedOperationError`, Python's own errors, and what an
-- overriding method raises. `detached` stands for a read through a reference to a task that no
-- agent state holds.
pub data Error : Type 0 where
  kernel_runtime unsupported_operation key_error index_error type_error detached : Error
  raised : ℕ → Error

pub data Result (A : Type 0) : Type 0 where
  ok : A → Result A
  err : Error → Result A

abbrev pub Exec : Type 0 → Type 0 → Type 0
Exec S A = S → Result A × S

module _ {S A : Type 0} where
  unfoldable pub pure : A → Exec S A
  pure a s = (ok a, s)

  unfoldable pub raise : Error → Exec S A
  raise e s = (err e, s)

  unfoldable pub gets : (S → A) → Exec S A
  gets f s = (ok (f s), s)

  -- a value that the source takes for granted, such as `d[k]` or `xs[-1]`
  unfoldable pub require : Error → Option A → Exec S A
  require e none s = (err e, s)
  require e (some a) s = (ok a, s)

module _ {S A : Type 0} where
  -- the same for a value that the state holds
  unfoldable pub reads : Error → (S → Option A) → Exec S A
  unfolding require
  reads e f s = require e (f s) s

  pub require-eq-ok :
      (e : Error) (o : Option A) (s : S) {a : A} {s' : S}
      → require e o s ≡ (ok a, s')
      → (o ≡ some a) × (s' ≡ s)
  unfolding require
  require-eq-ok e none s h = (cc, cc)
  require-eq-ok e (some a) s h = (cc, cc)

  pub reads-eq-ok :
      (e : Error) (f : S → Option A) (s : S) {a : A} {s' : S}
      → reads e f s ≡ (ok a, s')
      → (f s ≡ some a) × (s' ≡ s)
  unfolding reads
  reads-eq-ok e f s h = require-eq-ok e (f s) s h

module _ {S : Type 0} where
  unfoldable pub modify : (S → S) → Exec S (Unit {0})
  modify f s = (ok tt, f s)

module _ {S A B : Type 0} where
  abbrev pub continue : Result A → (A → Exec S B) → Exec S B
  continue (ok a) f s = f a s
  continue (err e) f s = (err e, s)

  infixl 10 ◌>>=◌ ◌>>◌
  unfoldable pub ◌>>=◌ : Exec S A → (A → Exec S B) → Exec S B
  unfolding pure raise gets require reads modify
  ◌>>=◌ m f s = let (r, s') = m s in continue r f s'

  -- A block that returned has returned at each of its lines.
  pub >>=-eq-ok :
      (m : Exec S A) (f : A → Exec S B) (s : S) {b : B} {s'' : S}
      → (m >>= f) s ≡ (ok b, s'')
      → (a : A) × (s' : S) × (m s ≡ (ok a, s')) × (f a s' ≡ (ok b, s''))
  unfolding ◌>>=◌
  >>=-eq-ok m f s h = go (m s).0 (m s).1 refl h
    where
      go :
          (r : Result A) (s' : S) {b : B} {s'' : S}
          → m s ≡ (r, s')
          → continue r f s' ≡ (ok b, s'')
          → (a : A) × (s' : S) × (m s ≡ (ok a, s')) × (f a s' ≡ (ok b, s''))
      go (ok a) s' e k = (a, s', e, k)
      go (err x) s' e k = cc

  abbrev pub ◌>>◌ : Exec S A → Exec S B → Exec S B
  m >> n = m >>= λ _. n
