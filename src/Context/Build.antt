-- ===== src/Context/Build.antt =====
-- os/context/provider.py: `build_llm_context`, which compresses the session level by level.
pub mod Fits
use turtlemap.Prelude.{
  ℕ, ◌≤◌, ◌<◌, ◌≡◌, refl, Bool, true, false, Option, none, some, List, [], ◌∷◌, String, arith,
  if◌then◌else◌,
}
use turtlemap.Prelude.Try.{Try, value, error}
use turtlemap.Kernel.Model.{RuntimeArtifact, SessionState}
use turtlemap.Context.Rounds.{CompressionError}
use turtlemap.Context.Compress.{CompressionLevel, compress_for_hard_limit}
use turtlemap.Context.Budget.{TokenBudget, should_schedule_sync_compression}

pub data BuildError : Type 0 where
  os_runtime : BuildError

-- `compression_levels`
abbrev pub compression_levels : List CompressionLevel
compression_levels =
    CompressionLevel.normal ∷ CompressionLevel.discard_mid_term_memory
    ∷ CompressionLevel.drop_history ∷ []

-- `keep_recent_history_rounds` is that of the compression provider, `rewrite` its summary client;
-- `total_tokens` is the size of the context that `_build_llm_context_result` makes of a session, for
-- the task and the agent at hand.
module _ (keep_recent_history_rounds : ℕ)
    (rewrite : SessionState → List RuntimeArtifact → Try CompressionError String)
    (total_tokens : SessionState → ℕ) (budget : TokenBudget) where
  abbrev pub over : SessionState → ℕ → Bool
  over s n = should_schedule_sync_compression s.history budget n

  -- the `for` loop and what follows it, with the tokens of `current_result`
  unfoldable pub build_levels :
      List CompressionLevel → SessionState → ℕ → Try BuildError ℕ × SessionState
  build_levels [] s n = if over s n then (error os_runtime, s) else (value n, s)
  build_levels (l ∷ ls) s n =
      let (success, s') = compress_for_hard_limit keep_recent_history_rounds rewrite s l in
      let rest = build_levels ls s' (if success then total_tokens s' else n) in
      if over s n then rest else (value n, s)

  -- `build_llm_context`: the tokens of the result, and the session after it
  unfoldable pub build_llm_context : SessionState → Try BuildError ℕ × SessionState
  build_llm_context s = build_levels compression_levels s (total_tokens s)
