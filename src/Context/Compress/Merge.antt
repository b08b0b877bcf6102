-- ===== src/Context/Compress/Merge.antt =====
-- A compression that ran on a copy of the session, merged into the session as it has become.
use turtlemap.Prelude.{
  ℕ, ◌≡◌, ◌≢◌, refl, true, List, [], ◌∷◌, ◌++◌, String, arith, length, take, drop, leb,
  length-append, drop-append, ap, sym, ◌∙◌,
}
use turtlemap.Prelude.Eq.{◌==◌, nat_eq, string_eq}
use turtlemap.Prelude.Try.{Try, value}
use turtlemap.Kernel.Model.{RuntimeArtifact, SessionState}
use turtlemap.Context.Rounds.{
  CompressionError, count_history_rounds, retained_rounds, ensure_compressible_history,
}
use turtlemap.Context.Rounds.Split.{ensure-splits}
use turtlemap.Context.Compress.{
  CompressionLevel, CompressionResult, artifact_ids, list_eq, set_compressed,
  merge_compacted_result, merge_normal, is_history_artifact_id_prefix_matched,
  compact_history_into_mid_term_memory, compressed,
}

list_eq-take-append :
    (o new : List RuntimeArtifact)
    → list_eq (take (length (artifact_ids o)) (artifact_ids (o ++ new))) (artifact_ids o) ≡ true
list_eq-take-append [] new = refl
list_eq-take-append (a ∷ o) new = rw ((nat_eq.decides a.id a.id).1 refl) (list_eq-take-append o new)

prefix_matched-append :
    (o new : List RuntimeArtifact) → is_history_artifact_id_prefix_matched (o ++ new) o ≡ true
unfolding is_history_artifact_id_prefix_matched
prefix_matched-append o new =
    let long : leb (length o) (length (o ++ new)) ≡ true = ground (arith, length-append o new) in
    rw long (list_eq-take-append o new)

-- the session as it is after `new` has been appended to its history
abbrev pub with_appended : List RuntimeArtifact → SessionState → SessionState
with_appended new s = record s { history = s.history ++ new }

merge_normal-appended :
    (c : CompressionResult) (s : SessionState) (new : List RuntimeArtifact)
    → c.origin_history ≡ s.history
    → c.origin_mid_term_memory ≡ s.memory.mid_term_memory
    → merge_normal c (with_appended new s)
      ≡ (true, set_compressed (c.compressed_history ++ new) c.compressed_mid_term_memory s)
merge_normal-appended c s new h m =
    let same : (s.memory.mid_term_memory == s.memory.mid_term_memory) ≡ true =
      (string_eq.decides _ _).1 refl in
    rw (h, m, prefix_matched-append s.history new, same, drop-append s.history new) refl

merge-appended :
    (c : CompressionResult) (s : SessionState) (new : List RuntimeArtifact)
    → c.success ≡ true
    → c.level ≡ CompressionLevel.normal
    → c.origin_history ≡ s.history
    → c.origin_mid_term_memory ≡ s.memory.mid_term_memory
    → merge_compacted_result (with_appended new s) c
      ≡ (true, set_compressed (c.compressed_history ++ new) c.compressed_mid_term_memory s)
unfolding merge_compacted_result
merge-appended c s new ok level h m = rw (ok, level) (merge_normal-appended c s new h m)

module _ (k : ℕ) (rewrite : SessionState → List RuntimeArtifact → Try CompressionError String)
    (s : SessionState) (answer : List RuntimeArtifact → String)
    (answers : (d : List RuntimeArtifact) → rewrite s d ≡ value (answer d))
    (new : List RuntimeArtifact) where
  -- what a split of the history makes of the two steps
  from_split :
      (d r : List RuntimeArtifact)
      → ensure_compressible_history s.history k ≡ value d
      → d ++ r ≡ s.history
      → (c : CompressionResult) × (compact_history_into_mid_term_memory k rewrite s
            CompressionLevel.normal
          ≡ value c)
        × (merge_compacted_result (with_appended new s) c
            ≡ (true, set_compressed (r ++ new) (answer d) s))
  unfolding compact_history_into_mid_term_memory
  from_split d r at whole =
      let rest : drop (length d) s.history ≡ r =
        ap (drop (length d)) (sym whole) ∙ drop-append d r in
      (
        compressed CompressionLevel.normal true s (answer d) r (length d),
        rw (at, answers d, rest) refl,
        merge-appended (compressed CompressionLevel.normal true s (answer d) r (length d)) s new
            refl refl refl refl,
      )

  -- A compression of a history that is not empty, whose client answers, cuts off an earlier part
  -- and keeps the later one, which has the rounds that are to be kept; merged into the session
  -- after further artifacts were appended there, it leaves the later part followed by all of
  -- these, and the answer for the earlier part as the summary.
  pub compress-merge :
      s.history ≢ []
      → (c : CompressionResult) × (d : List RuntimeArtifact) × (r : List RuntimeArtifact) × (d ++ r
          ≡ s.history)
        × (d ≢ [])
        × (count_history_rounds r ≡ retained_rounds s.history k)
        × (compact_history_into_mid_term_memory k rewrite s CompressionLevel.normal ≡ value c)
        × (merge_compacted_result (with_appended new s) c
            ≡ (true, set_compressed (r ++ new) (answer d) s))
  compress-merge ne =
      let (d, r, at, whole, cut, rounds) = ensure-splits s.history k ne in
      let (c, runs, merges) = from_split d r at whole in (c, d, r, whole, cut, rounds, runs, merges)
