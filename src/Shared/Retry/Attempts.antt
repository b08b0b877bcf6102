-- ===== src/Shared/Retry/Attempts.antt =====
-- How often the function is called, how long the wrapper waits, and what it answers.
use turtlemap.Prelude.{
  ℕ, zero, suc, ◌+◌, ◌-◌, ◌++◌, ◌∷◌, ◌≤◌, ◌<◌, ◌≡◌, refl, sym, subst, ◌∙◌, Bool, true, false,
  Option, none, some, [], arith, leb, length, length-append, All, All-append, Bool-cases, inl, inr,
}
use turtlemap.Prelude.Try.{Try, value, error, and_then, and_then-eq-value}
use turtlemap.Kernel.Exec.{Error, Result, ok, err, Exec}
use turtlemap.Shared.Retry.{
  Floats, RetryConfig, check_config, min_of, compute_retry_delay_seconds, accepted, wait_for, Timed,
  called, waited, after_call, retry_from, retry,
}

module _ {F : Type 0} (fl : Floats F) where
  -- a delay that is not above the longest one
  abbrev pub IsShort : RetryConfig F → F → Type 0
  IsShort c d = fl.less c.max_delay_seconds d ≡ false

  min-IsShort : (d m : F) → fl.less m (min_of fl d m) ≡ false
  min-IsShort d m = elim (Bool-cases (fl.less m d)) [
    | inl above ↦ rw above (fl.less_irrefl m)
    | inr below ↦ rw below below
  ]

  accepted-same : (d e : F) (o : Option Error) → accepted fl d o ≡ value e → d ≡ e
  accepted-same d e none h = cc
  accepted-same d e (some x) h = absurd (cc)

  wait-IsShort :
      (attempt : ℕ) (c : RetryConfig F) (d : F) → wait_for fl attempt c ≡ value d → IsShort c d
  unfolding wait_for compute_retry_delay_seconds
  wait-IsShort attempt c d h =
      let (a, computed, taken) =
        and_then-eq-value (compute_retry_delay_seconds fl attempt c)
          (λ x. accepted fl x (fl.refuses x)) h in
      let (p, e, k) =
        and_then-eq-value (fl.power c.backoff_factor (attempt - 1))
          (λ p.
            and_then (fl.times c.initial_delay_seconds p)
              λ x. value (min_of fl x c.max_delay_seconds))
          computed in
      let (x, e', k') =
        and_then-eq-value (fl.times c.initial_delay_seconds p)
          (λ x. value (min_of fl x c.max_delay_seconds)) k in
      let made : min_of fl x c.max_delay_seconds ≡ a = value_inj k' in
      subst (IsShort c) (made ∙ accepted-same a d (fl.refuses a) taken)
        (min-IsShort x c.max_delay_seconds)
    where
      value_inj : {u v : F} → accepted fl u none ≡ accepted fl v none → u ≡ v
      value_inj q = cc

  module _ {S A : Type 0} (func : Exec S A) (retryable : Error → Bool) (c : RetryConfig F) where
    -- Why the loop is left after call number `n`, which gave `last`, with the answer `x`: a return, a raise
    -- that is not retried, the last attempt, or a wait that cannot be computed or slept.
    pub data IsLeft (n : ℕ) : Result A → Result A → Type 0 where
      returned : (a : A) → IsLeft n (ok a) (ok a)
      not_retried : (e : Error) → retryable e ≡ false → IsLeft n (err e) (err e)
      exhausted : (e : Error) → n ≡ c.max_attempts → IsLeft n (err e) (err e)
      wait_raised :
          (e x : Error)
          → retryable e ≡ true
          → n < c.max_attempts
          → wait_for fl n c ≡ error x
          → IsLeft n (err e) (err x)

    pub record IsRetried (r : Result A × Timed F S) : Type 0 where
      pub last : S
      pub left : r.1.inner ≡ (func last).1
      pub answered : IsLeft r.1.calls (func last).0 r.0
      pub at_most : r.1.calls ≤ c.max_attempts
      pub at_least : 1 ≤ r.1.calls
      pub delays : length r.1.slept + 1 ≡ r.1.calls
      pub bounded : All (IsShort c) r.1.slept

    -- before attempt number `attempt`
    record IsReady (attempt : ℕ) (t : Timed F S) : Type 0 where
      attempts : t.calls + 1 ≡ attempt
      waits : length t.slept ≡ t.calls
      short : All (IsShort c) t.slept

    settled :
        (attempt : ℕ) (t : Timed F S) (x y : Result A)
        → IsReady attempt t
        → attempt ≤ c.max_attempts
        → (func t.inner).0 ≡ x
        → IsLeft attempt x y
        → IsRetried (y, called fl func retryable c t)
    settled attempt t x y w l e why = record {
      last = t.inner;
      left = refl;
      answered =
          subst (λ z. IsLeft (t.calls + 1) z y) (sym e)
            (subst (λ n. IsLeft n x y) (sym w.attempts) why);
      at_most = omega (arith, w.attempts, l);
      at_least = omega arith;
      delays = omega (arith, w.waits);
      bounded = w.short;
    }

    waited-IsRetried :
        (attempt : ℕ) (t : Timed F S) (e : Error) (next : Exec (Timed F S) A) (o : Try Error F)
        → wait_for fl attempt c ≡ o
        → IsReady attempt t
        → attempt < c.max_attempts
        → (func t.inner).0 ≡ err e
        → retryable e ≡ true
        → ((u : Timed F S) → IsReady (attempt + 1) u → IsRetried (next u))
        → IsRetried (waited fl func retryable c o (called fl func retryable c t) next)
    waited-IsRetried attempt t e next (error x) h w l raises again go_on =
        settled attempt t (err e) (err x) w (omega (arith, l)) raises (wait_raised e x again l h)
    waited-IsRetried attempt t e next (value d) h w l raises again go_on =
        go_on (record { inner = (func t.inner).1; calls = t.calls + 1; slept = t.slept ++ d ∷ [] })
          (record {
            attempts = omega (arith, w.attempts);
            waits = length-append t.slept _ ∙ omega (arith, w.waits);
            short = All-append (IsShort c) t.slept _ w.short (wait-IsShort attempt c d h, tt);
          })

    after_call-IsRetried :
        (attempt : ℕ) (t : Timed F S) (x : Result A) (next : Exec (Timed F S) A)
        → IsReady attempt t
        → attempt ≤ c.max_attempts
        → (func t.inner).0 ≡ x
        → (attempt < c.max_attempts
            → (u : Timed F S) → IsReady (attempt + 1) u
            → IsRetried (next u))
        → IsRetried (after_call fl func retryable c attempt x (called fl func retryable c t) next)
    after_call-IsRetried attempt t (ok a) next w l e go_on =
        settled attempt t (ok a) (ok a) w l e (returned a)
    after_call-IsRetried attempt t (err x) next w l e go_on = elim (Bool-cases (retryable x)) [
      | inr refused ↦ rw refused (settled attempt t (err x) (err x) w l e (not_retried x refused))
      | inl again ↦ elim (Bool-cases (leb c.max_attempts attempt)) [
        | inl over ↦
            rw (again, over) (settled attempt t (err x) (err x) w l e (exhausted x (ground arith)))
        | inr more ↦
            let below : attempt < c.max_attempts = ground arith in
            rw (again, more)
              (waited-IsRetried attempt t x next (wait_for fl attempt c) refl w below e again
                (go_on below))
      ]
    ]

    retry_from-IsRetried :
        (left attempt : ℕ) (t : Timed F S)
        → attempt + left ≡ c.max_attempts
        → IsReady attempt t
        → IsRetried (retry_from fl func retryable c (suc left) attempt t)
    unfolding retry_from
    retry_from-IsRetried zero attempt t total w =
        after_call-IsRetried attempt t (func t.inner).0 _ w (omega (arith, total)) refl
          (λ l. absurd (omega (arith, total)))
    retry_from-IsRetried (suc left) attempt t total w =
        after_call-IsRetried attempt t (func t.inner).0 _ w (omega (arith, total)) refl
          (λ l u ready. retry_from-IsRetried left (attempt + 1) u (omega (arith, total)) ready)

-- Whatever Python's floats are, a retried function whose configuration passed the tests is called
-- once at least and max_attempts times at most, with one delay between two calls, none above
-- max_delay_seconds; the wrapper is left with the last call's return, with its error if that is
-- not retried or the call was the last one allowed, or else with the error of a wait that cannot
-- be computed or slept; the branch behind the loop is not reached.
pub retry-IsRetried :
    {F S A : Type 0} (fl : Floats F) (func : Exec S A) (retryable : Error → Bool)
    (c : RetryConfig F) (s : S)
    → check_config fl true c ≡ value c
    → IsRetried fl func retryable c (retry fl func retryable c s)
unfolding retry check_config
retry-IsRetried fl func retryable c s passed = go c.max_attempts refl
  where
    go :
        (n : ℕ)
        → c.max_attempts ≡ n
        → IsRetried fl func retryable c
            (retry_from fl func retryable c n 1 (record { inner = s; calls = 0; slept = [] }))
    go zero e = absurd (ground arith)
    go (suc n) e =
        retry_from-IsRetried fl func retryable c n 1 _ (omega (arith, e))
          (record { attempts = refl; waits = refl; short = tt })
