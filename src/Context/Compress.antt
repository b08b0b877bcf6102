-- ===== src/Context/Compress.antt =====
-- os/context/compress.py: `merge_compacted_result`, `_compact_history_into_mid_term_memory` and
-- `compress_for_hard_limit`, without the events that it publishes. The texts of `error` are not kept.
-- A copy by `deepcopy` is the value itself.
pub mod Merge
pub mod HardLimit
use turtlemap.Prelude.{
  ℕ, Bool, true, false, not, List, [], ◌∷◌, ◌++◌, String, length, drop, take, map, leb,
  if◌then◌else◌,
}
use turtlemap.Prelude.Eq.{◌==◌, nat_eq, string_eq}
use turtlemap.Prelude.Try.{Try, value, error, and_then}
use turtlemap.Kernel.Model.{RuntimeArtifact, SessionState}
use turtlemap.Context.Rounds.{CompressionError, ensure_compressible_history}

pub data CompressionLevel : Type 0 where
  normal discard_mid_term_memory drop_history : CompressionLevel

pub record CompressionResult : Type 0 where
  pub merged : Bool
  pub level : CompressionLevel
  pub success : Bool
  pub origin_mid_term_memory : String
  pub origin_history : List RuntimeArtifact
  pub compressed_mid_term_memory : String
  pub compressed_history : List RuntimeArtifact
  pub compressed_history_count : ℕ

abbrev list_eq : List ℕ → List ℕ → Bool
list_eq [] [] = true
list_eq (x ∷ xs) (y ∷ ys) = let rest = list_eq xs ys in if x == y then rest else false
list_eq _ _ = false

abbrev pub artifact_ids : List RuntimeArtifact → List ℕ
artifact_ids = map (λ (a : RuntimeArtifact). a.id)

-- `_is_history_artifact_id_prefix_matched`
unfoldable pub is_history_artifact_id_prefix_matched :
    List RuntimeArtifact → List RuntimeArtifact → Bool
is_history_artifact_id_prefix_matched current origin =
    if leb (length origin) (length current)
    then list_eq (take (length (artifact_ids origin)) (artifact_ids current)) (artifact_ids origin)
    else false

abbrev pub set_compressed : List RuntimeArtifact → String → SessionState → SessionState
set_compressed h m s = record s { history = h; memory = record s.memory { mid_term_memory = m } }

-- the part of `merge_compacted_result` for a result of level `NORMAL`
abbrev pub merge_normal : CompressionResult → SessionState → Bool × SessionState
merge_normal c s =
    if is_history_artifact_id_prefix_matched s.history c.origin_history
    then (if s.memory.mid_term_memory == c.origin_mid_term_memory
        then (
          true,
          set_compressed (c.compressed_history ++ drop (length c.origin_history) s.history)
              c.compressed_mid_term_memory s,
        )
        else (false, s))
    else (false, s)

abbrev pub merge_at : CompressionLevel → CompressionResult → SessionState → Bool × SessionState
merge_at CompressionLevel.normal c s = merge_normal c s
merge_at _ c s = (true, set_compressed c.compressed_history c.compressed_mid_term_memory s)

-- `merge_compacted_result`: whether it merged, and the session after it
unfoldable pub merge_compacted_result : SessionState → CompressionResult → Bool × SessionState
merge_compacted_result s c = if c.success then merge_at c.level c s else (false, s)

-- `ContextCompressionResult(merged=False, success=False, error=...)`
abbrev pub failed_result : CompressionResult
failed_result = record {
  merged = false;
  level = CompressionLevel.normal;
  success = false;
  origin_mid_term_memory = "";
  origin_history = [];
  compressed_mid_term_memory = "";
  compressed_history = [];
  compressed_history_count = 0;
}

abbrev pub is_empty : List RuntimeArtifact → Bool
is_empty [] = true
is_empty (a ∷ h) = false

-- a result that has the session as its origin
abbrev pub compressed :
    CompressionLevel → Bool → SessionState → String → List RuntimeArtifact → ℕ → CompressionResult
compressed l ok s m h n = record {
  merged = false;
  level = l;
  success = ok;
  origin_mid_term_memory = s.memory.mid_term_memory;
  origin_history = s.history;
  compressed_mid_term_memory = m;
  compressed_history = h;
  compressed_history_count = n;
}

-- `rewrite` is `_rewrite_mid_term_memory` on the messages that `ContextProjector` builds: the LLM
-- client's answer, or what it raises once its retries are used up.
module _ (keep_recent_history_rounds : ℕ)
    (rewrite : SessionState → List RuntimeArtifact → Try CompressionError String) where
  -- `_compact_history_into_mid_term_memory`
  unfoldable pub compact_history_into_mid_term_memory :
      SessionState → CompressionLevel → Try CompressionError CompressionResult
  compact_history_into_mid_term_memory s CompressionLevel.normal =
      and_then (ensure_compressible_history s.history keep_recent_history_rounds) λ c.
        and_then (rewrite s c) λ m.
          value (compressed CompressionLevel.normal true s m (drop (length c) s.history) (length c))
  compact_history_into_mid_term_memory s CompressionLevel.discard_mid_term_memory = value (
      compressed CompressionLevel.discard_mid_term_memory (not (s.memory.mid_term_memory == "")) s
        "" s.history 0)
  compact_history_into_mid_term_memory s CompressionLevel.drop_history = value (
      compressed CompressionLevel.drop_history (not (is_empty s.history)) s ""
        (drop (length s.history) s.history) (length s.history))

  abbrev pub or_failed : Try CompressionError CompressionResult → CompressionResult
  or_failed (value c) = c
  or_failed (error e) = failed_result

  -- the `try` around the compression of a copy of the session
  abbrev pub try_compact : SessionState → CompressionLevel → CompressionResult
  try_compact s l = or_failed (compact_history_into_mid_term_memory s l)

  -- `compress_for_hard_limit`: what it returns, and the session after it
  unfoldable pub compress_for_hard_limit : SessionState → CompressionLevel → Bool × SessionState
  compress_for_hard_limit s l = merge_compacted_result s (try_compact s l)
