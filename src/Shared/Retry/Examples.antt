-- ===== src/Shared/Retry/Examples.antt =====
-- Functions that fail and then return, with floats that hold whole milliseconds and overflow at 2 ^ 1024.
use turtlemap.Prelude.{
  ℕ, ◌+◌, ◌*◌, ◌^◌, ◌≡◌, refl, Bool, true, false, none, [], ◌∷◌, ltb, arith, if◌then◌else◌,
}
use turtlemap.Prelude.Try.{Try, value, error}
use turtlemap.Kernel.Exec.{Error, ok, err, raised, Exec}
use turtlemap.Shared.Retry.{
  Floats, RetryConfig, check_config, compute_retry_delay_seconds, wait_for, retry_from, retry,
}
use turtlemap.Shared.Retry.Attempts.{IsRetried, retry-IsRetried}

-- `OverflowError`
abbrev overflow : Error
overflow = raised 34

abbrev finite : ℕ → Try Error ℕ
finite n = if ltb n (2 ^ 1024) then value n else error overflow

milliseconds_irrefl : (n : ℕ) → ltb n n ≡ false
milliseconds_irrefl n = ground arith

-- a delay as its milliseconds, a factor as a whole number
abbrev milliseconds : Floats ℕ
milliseconds = record {
  less = ltb;
  less_irrefl = milliseconds_irrefl;
  times = λ a b. finite (a * b);
  power = λ a n. finite (a ^ n);
  float_zero = 0;
  float_one = 1;
  refuses = λ d. none;
}

abbrev default_config : RetryConfig ℕ
default_config = record {
  max_attempts = 3;
  initial_delay_seconds = 200;
  max_delay_seconds = 5000;
  backoff_factor = 2;
}

abbrev flaky : Exec ℕ ℕ
flaky n = (if ltb n 2 then err (raised 7) else ok n, n + 1)

abbrev any_error : Error → Bool
any_error e = true

third_returns :
    retry milliseconds flaky any_error default_config 0
    ≡ (ok 2, record { inner = 3; calls = 3; slept = 200 ∷ 400 ∷ [] })
unfolding retry retry_from wait_for compute_retry_delay_seconds
third_returns = refl

-- the power overflows, and its error takes the place of the function's
overflows : wait_for milliseconds 1025 default_config ≡ error overflow
unfolding wait_for compute_retry_delay_seconds
overflows = refl

retry-IsRetried_example :
    IsRetried milliseconds flaky any_error default_config
      (retry milliseconds flaky any_error default_config 0)
unfolding check_config
retry-IsRetried_example = retry-IsRetried milliseconds flaky any_error default_config 0 refl
