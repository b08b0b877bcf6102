-- ===== src/Shared/Retry.antt =====
-- shared/retry.py: `exponential_backoff_retry`. A float is a value of `F` with the operations of `Floats`, of
-- which a power, a product and a sleep may raise. The wrappers for plain functions and for coroutines run the
-- same loop.
pub mod Attempts
mod Examples
use turtlemap.Prelude.{
  ℕ, zero, suc, ◌+◌, ◌-◌, ◌≡◌, refl, Bool, true, false, not, Option, none, some, List, [], ◌∷◌,
  ◌++◌, leb, if◌then◌else◌,
}
use turtlemap.Prelude.Try.{Try, value, error, and_then}
use turtlemap.Kernel.Exec.{Error, Result, ok, err, raised, Exec}

-- Python's floats, as far as the file uses them: `a < b`, `a * b`, `a ** n`, the numbers 0 and 1, and what
-- `sleep` raises for a delay, if anything. Nothing is less than itself, not a number or infinite as it may be.
pub record Floats (F : Type 0) : Type 0 where
  pub less : F → F → Bool
  pub less_irrefl : (a : F) → less a a ≡ false
  pub times : F → F → Try Error F
  pub power : F → ℕ → Try Error F
  pub float_zero : F
  pub float_one : F
  pub refuses : F → Option Error

pub record RetryConfig (F : Type 0) : Type 0 where
  pub max_attempts : ℕ
  pub initial_delay_seconds : F
  pub max_delay_seconds : F
  pub backoff_factor : F

pub data RetryError : Type 0 where
  value_error : RetryError

-- The state of the function that is retried, with its calls counted and the delays slept.
pub record Timed (F S : Type 0) : Type 0 where
  pub inner : S
  pub calls : ℕ
  pub slept : List F

module _ {F : Type 0} (fl : Floats F) where
  -- the tests of `exponential_backoff_retry`; `given` says whether `retry_exceptions` is not empty
  unfoldable pub check_config : Bool → RetryConfig F → Try RetryError (RetryConfig F)
  check_config given c =
      if not given
      then error value_error
      else (if leb c.max_attempts 0
          then error value_error
          else (if fl.less c.initial_delay_seconds fl.float_zero
              then error value_error
              else (if fl.less c.max_delay_seconds fl.float_zero
                  then error value_error
                  else (if fl.less c.backoff_factor fl.float_one
                      then error value_error
                      else value c))))

  -- Python's `min`, which keeps the first of two that are not less
  abbrev pub min_of : F → F → F
  min_of a b = if fl.less b a then b else a

  -- `_compute_retry_delay_seconds`
  unfoldable pub compute_retry_delay_seconds : ℕ → RetryConfig F → Try Error F
  compute_retry_delay_seconds attempt c =
      and_then (fl.power c.backoff_factor (attempt - 1))
        λ p. and_then (fl.times c.initial_delay_seconds p) λ d. value (min_of d c.max_delay_seconds)

  abbrev accepted : F → Option Error → Try Error F
  accepted d none = value d
  accepted d (some e) = error e

  -- the delay that is slept before the next attempt
  unfoldable pub wait_for : ℕ → RetryConfig F → Try Error F
  wait_for attempt c =
      and_then (compute_retry_delay_seconds attempt c) λ d. accepted d (fl.refuses d)

  -- `retryable` is `isinstance(exc, retry_exceptions)`.
  module _ {S A : Type 0} (func : Exec S A) (retryable : Error → Bool) (c : RetryConfig F) where
    abbrev pub called : Timed F S → Timed F S
    called t = record t { inner = (func t.inner).1; calls = t.calls + 1 }

    -- the wait, and then the next attempt; a raise of the wait leaves the loop
    abbrev pub waited : Try Error F → Timed F S → Exec (Timed F S) A → Result A × Timed F S
    waited (value d) t next = next (record t { slept = t.slept ++ d ∷ [] })
    waited (error e) t next = (err e, t)

    -- what follows a call in the `for` loop: `return`, `raise`, or the next attempt
    abbrev pub after_call : ℕ → Result A → Timed F S → Exec (Timed F S) A → Result A × Timed F S
    after_call attempt (ok a) t next = (ok a, t)
    after_call attempt (err e) t next =
        if retryable e
        then (if leb c.max_attempts attempt then (err e, t) else waited (wait_for attempt c) t next)
        else (err e, t)

    -- the loop over the attempts that are left; the last raise is the branch that is not reached
    unfoldable pub retry_from : ℕ → ℕ → Exec (Timed F S) A
    retry_from zero attempt t = (err (raised 0), t)
    retry_from (suc left) attempt t =
        let next = retry_from left (attempt + 1) in
        after_call attempt (func t.inner).0 (called t) next

    -- `wrapped`
    unfoldable pub retry : S → Result A × Timed F S
    retry s = retry_from c.max_attempts 1 (record { inner = s; calls = 0; slept = [] })
