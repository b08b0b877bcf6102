-- ===== src/Context/Build/Fits.antt =====
-- os/context/provider.py `build_llm_context`: the context that it returns.
use turtlemap.Prelude.{
  ℕ, ◌<◌, ◌≡◌, refl, sym, ap, ◌∙◌, Bool, true, false, List, [], ◌∷◌, String, if◌then◌else◌,
  Bool-cases, inl, inr,
}
use turtlemap.Prelude.Try.{Try, value}
use turtlemap.Kernel.Model.{RuntimeArtifact, SessionState}
use turtlemap.Context.Rounds.{CompressionError}
use turtlemap.Context.Compress.{CompressionLevel, set_compressed, compress_for_hard_limit}
use turtlemap.Context.Compress.HardLimit.{
  IsRewritten, hard_limit-IsRewritten, discard-clears, drop-clears,
}
use turtlemap.Context.Budget.{TokenBudget, post_init, should_schedule_sync_compression, empty-fits}
use turtlemap.Context.Build.{BuildError, over, build_levels, build_llm_context}

module _ (k : ℕ) (rewrite : SessionState → List RuntimeArtifact → Try CompressionError String)
    (total_tokens : SessionState → ℕ) (b : TokenBudget) where
  -- `r` is a context of the session that comes with it, and one that is over no hard limit.
  pub record IsFit (r : Try BuildError ℕ × SessionState) : Type 0 where
    pub tokens : ℕ
    pub after : SessionState
    pub returns : r ≡ (value tokens, after)
    pub counted : tokens ≡ total_tokens after
    pub within : should_schedule_sync_compression after.history b tokens ≡ false

  -- the session that one level leaves
  abbrev next : SessionState → CompressionLevel → SessionState
  next s l = (compress_for_hard_limit k rewrite s l).1

  counted-next :
      (s : SessionState) (r : Bool × SessionState)
      → IsRewritten s r
      → (if r.0 then total_tokens r.1 else total_tokens s) ≡ total_tokens r.1
  counted-next s (true, s') w = refl
  counted-next s (false, s') w = ap total_tokens (sym (w.kept refl))

  last-IsFit :
      (s : SessionState)
      → should_schedule_sync_compression s.history b (total_tokens s) ≡ false
      → IsFit (build_levels k rewrite total_tokens b [] s (total_tokens s))
  unfolding build_levels
  last-IsFit s ok =
      rw ok
        (record { tokens = total_tokens s; after = s; returns = refl; counted = refl; within = ok })

  level-IsFit :
      (l : CompressionLevel) (ls : List CompressionLevel) (s : SessionState)
      → IsFit (build_levels k rewrite total_tokens b ls (next s l) (total_tokens (next s l)))
      → IsFit (build_levels k rewrite total_tokens b (l ∷ ls) s (total_tokens s))
  unfolding build_levels
  level-IsFit l ls s rest =
      let fits = should_schedule_sync_compression s.history b (total_tokens s) in
      let counted =
        counted-next s (compress_for_hard_limit k rewrite s l)
          (hard_limit-IsRewritten k rewrite s l) in
      elim (Bool-cases fits) [
        | inl over ↦ rw (over, counted) rest
        | inr ok ↦ rw ok (record {
          tokens = total_tokens s;
          after = s;
          returns = refl;
          counted = refl;
          within = ok;
        })
      ]

  -- what the three levels leave, one after the other
  all_cleared :
      (s : SessionState)
      → next
          (next (next s CompressionLevel.normal) CompressionLevel.discard_mid_term_memory)
          CompressionLevel.drop_history
        ≡ set_compressed [] "" s
  all_cleared s =
      let w = hard_limit-IsRewritten k rewrite s CompressionLevel.normal in
      let s' = set_compressed w.history w.summary s in
      let first : Bool × SessionState → SessionState = λ r. r.1 in
      let then_drop : SessionState → SessionState = λ z. next z CompressionLevel.drop_history in
      let then_discard : SessionState → SessionState =
        λ z. next z CompressionLevel.discard_mid_term_memory in
      ap (λ z. then_drop (then_discard z)) w.same
      ∙ ap (λ r. then_drop (first r)) (discard-clears k rewrite s')
      ∙ ap first (drop-clears k rewrite (set_compressed w.history "" s) refl)

  -- If the budget passed its test and the session without its history and its summary makes a
  -- context below the limit on tokens, build_llm_context returns, whatever the summary client
  -- does: the number of tokens is that of the session it leaves, and it is over no hard limit.
  pub build-IsFit :
      (s : SessionState)
      → post_init b ≡ value b
      → total_tokens (set_compressed [] "" s) < b.hard_limit_tokens
      → IsFit (build_llm_context k rewrite total_tokens b s)
  unfolding build_llm_context
  build-IsFit s ok small = level-IsFit _ _ s (
      level-IsFit _ _ _
        (level-IsFit _ _ _ (rw (all_cleared s) (last-IsFit _ (empty-fits b _ ok small)))))
