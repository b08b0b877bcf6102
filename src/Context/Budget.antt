-- ===== src/Context/Budget.antt =====
-- config.py: `ContextTokenBudget`; os/context/provider.py: the tests against its limits. The fields are
-- natural numbers, so the test for a negative `keep_recent_history_rounds` has no counterpart.
use turtlemap.Prelude.{
  ℕ, ◌<◌, ◌≡◌, refl, Bool, true, false, Option, none, some, List, [], arith, leb, ltb,
  if◌then◌else◌,
}
use turtlemap.Prelude.Try.{Try, value, error}
use turtlemap.Kernel.Model.{RuntimeArtifact}
use turtlemap.Context.Rounds.{count_history_rounds}

pub record TokenBudget : Type 0 where
  pub max_context_tokens : ℕ
  pub hard_limit_tokens : ℕ
  pub soft_limit_tokens : ℕ
  pub hard_limit_rounds : Option ℕ
  pub soft_limit_rounds : Option ℕ
  pub keep_recent_history_rounds : ℕ

pub data ConfigError : Type 0 where
  value_error : ConfigError

abbrev below_one : Option ℕ → Bool
below_one none = false
below_one (some n) = ltb n 1

-- `__post_init__`: the budget itself when every test passes
unfoldable pub post_init : TokenBudget → Try ConfigError TokenBudget
post_init b =
    if leb b.max_context_tokens 0
    then error value_error
    else (if leb b.hard_limit_tokens 0
        then error value_error
        else (if leb b.soft_limit_tokens 0
            then error value_error
            else (if below_one b.soft_limit_rounds
                then error value_error
                else (if below_one b.hard_limit_rounds then error value_error else value b))))

-- `default`
abbrev pub default_budget : TokenBudget
default_budget = record {
  max_context_tokens = 32000;
  hard_limit_tokens = 30000;
  soft_limit_tokens = 24000;
  hard_limit_rounds = none;
  soft_limit_rounds = none;
  keep_recent_history_rounds = 5;
}

abbrev rounds_reach : Option ℕ → List RuntimeArtifact → Bool
rounds_reach none h = false
rounds_reach (some n) h = leb n (count_history_rounds h)

-- `_should_schedule_sync_compression`
unfoldable pub should_schedule_sync_compression : List RuntimeArtifact → TokenBudget → ℕ → Bool
should_schedule_sync_compression h b n =
    if leb b.hard_limit_tokens n then true else rounds_reach b.hard_limit_rounds h

-- `_should_schedule_background_compression`
unfoldable pub should_schedule_background_compression :
    List RuntimeArtifact → TokenBudget → ℕ → Bool
should_schedule_background_compression h b n =
    if leb b.soft_limit_tokens n then true else rounds_reach b.soft_limit_rounds h

pub default-passes : post_init default_budget ≡ value default_budget
unfolding post_init
default-passes = refl

-- An empty history is over no limit on rounds that passed the test.
pub empty-fits :
    (b : TokenBudget) (n : ℕ)
    → post_init b ≡ value b
    → n < b.hard_limit_tokens
    → should_schedule_sync_compression [] b n ≡ false
unfolding post_init should_schedule_sync_compression count_history_rounds
empty-fits b n ok l = go b.hard_limit_rounds refl
  where
    go : (o : Option ℕ) → b.hard_limit_rounds ≡ o → should_schedule_sync_compression [] b n ≡ false
    go none e = ground arith
    go (some k) e = ground arith
