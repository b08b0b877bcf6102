-- ===== src/Context/Compress/HardLimit.antt =====
-- What each level of `compress_for_hard_limit` leaves of the session.
use turtlemap.Prelude.{
  ℕ, ◌≡◌, refl, Bool, true, false, not, List, [], ◌∷◌, ◌++◌, String, length, drop, drop-length,
  Bool-cases, inl, inr, ap,
}
use turtlemap.Prelude.Eq.{◌==◌, string_eq}
use turtlemap.Prelude.Try.{Try}
use turtlemap.Kernel.Model.{RuntimeArtifact, SessionState}
use turtlemap.Context.Rounds.{CompressionError}
use turtlemap.Context.Compress.{
  CompressionLevel, CompressionResult, set_compressed, merge_compacted_result, merge_normal,
  merge_at, is_history_artifact_id_prefix_matched, compact_history_into_mid_term_memory,
  compress_for_hard_limit, try_compact, is_empty,
}

-- A merge writes the history and the summary, or answers `false` and writes nothing.
pub record IsRewritten (s : SessionState) (r : Bool × SessionState) : Type 0 where
  pub history : List RuntimeArtifact
  pub summary : String
  pub same : r.1 ≡ set_compressed history summary s
  pub kept : r.0 ≡ false → r.1 ≡ s

unchanged : (s : SessionState) → IsRewritten s (false, s)
unchanged s = record {
  history = s.history;
  summary = s.memory.mid_term_memory;
  same = refl;
  kept = λ e. refl;
}

rewritten :
    (s : SessionState) (h : List RuntimeArtifact) (m : String)
    → IsRewritten s (true, set_compressed h m s)
rewritten s h m = record { history = h; summary = m; same = refl; kept = λ e. absurd (cc) }

merge_normal-IsRewritten :
    (s : SessionState) (c : CompressionResult) → IsRewritten s (merge_normal c s)
merge_normal-IsRewritten s c =
    elim (Bool-cases (is_history_artifact_id_prefix_matched s.history c.origin_history)) [
      | inr stale ↦ rw stale (unchanged s)
      | inl at ↦ elim (Bool-cases (s.memory.mid_term_memory == c.origin_mid_term_memory)) [
        | inr stale ↦ rw (at, stale) (unchanged s)
        | inl same ↦
            rw (at, same)
              (rewritten s (c.compressed_history ++ drop (length c.origin_history) s.history)
                c.compressed_mid_term_memory)
      ]
    ]

merge_at-IsRewritten :
    (s : SessionState) (l : CompressionLevel) (c : CompressionResult)
    → IsRewritten s (merge_at l c s)
merge_at-IsRewritten s CompressionLevel.normal c = merge_normal-IsRewritten s c
merge_at-IsRewritten s CompressionLevel.discard_mid_term_memory c =
    rewritten s c.compressed_history c.compressed_mid_term_memory
merge_at-IsRewritten s CompressionLevel.drop_history c =
    rewritten s c.compressed_history c.compressed_mid_term_memory

-- Whatever result is merged into whatever session, only the history and the summary are written,
-- and a merge that answers false writes nothing.
pub merge-IsRewritten :
    (s : SessionState) (c : CompressionResult) → IsRewritten s (merge_compacted_result s c)
unfolding merge_compacted_result
merge-IsRewritten s c = elim (Bool-cases c.success) [
  | inl ok ↦ simp ok (merge_at-IsRewritten s c.level c)
  | inr failed ↦ simp failed (unchanged s)
]

same_summary :
    (s : SessionState) → s.memory.mid_term_memory ≡ "" → s ≡ set_compressed s.history "" s
same_summary s e = let f : String → SessionState = λ m. set_compressed s.history m s in ap f e

module _ (k : ℕ) (rewrite : SessionState → List RuntimeArtifact → Try CompressionError String) where
  pub hard_limit-IsRewritten :
      (s : SessionState) (l : CompressionLevel)
      → IsRewritten s (compress_for_hard_limit k rewrite s l)
  unfolding compress_for_hard_limit
  hard_limit-IsRewritten s l = merge-IsRewritten s (try_compact k rewrite s l)

  pub discard-clears :
      (s : SessionState)
      → compress_for_hard_limit k rewrite s CompressionLevel.discard_mid_term_memory
        ≡ (not (s.memory.mid_term_memory == ""), set_compressed s.history "" s)
  unfolding compress_for_hard_limit compact_history_into_mid_term_memory merge_compacted_result
  discard-clears s = elim (Bool-cases (s.memory.mid_term_memory == "")) [
    | inl same ↦
        rw same
          (ap (λ (z : SessionState). (false, z)) (same_summary s ((string_eq.decides _ _).0 same)))
    | inr other ↦ rw other refl
  ]

  pub drop-clears :
      (s : SessionState)
      → s.memory.mid_term_memory ≡ ""
      → compress_for_hard_limit k rewrite s CompressionLevel.drop_history
        ≡ (not (is_empty s.history), set_compressed [] "" s)
  unfolding compress_for_hard_limit compact_history_into_mid_term_memory merge_compacted_result
  drop-clears s none_left = go s.history refl
    where
      go :
          (h : List RuntimeArtifact)
          → s.history ≡ h
          → compress_for_hard_limit k rewrite s CompressionLevel.drop_history
            ≡ (not (is_empty s.history), set_compressed [] "" s)
      go [] e =
          let f : String → Bool × SessionState = λ m. (false, set_compressed [] m s) in
          rw e (ap f none_left)
      go (a ∷ h) e = rw (e, drop-length h) refl
