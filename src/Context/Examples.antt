-- ===== src/Context/Examples.antt =====
-- A session of two rounds that is compressed, a context that is made to fit, and a cache of two entries.
use turtlemap.Prelude.{
  ℕ, ◌≡◌, ◌≢◌, ◌≤◌, ◌*◌, refl, some, true, false, List, [], ◌∷◌, ◌++◌, String, arith, length,
}
use turtlemap.Prelude.Dict.{lookup}
use turtlemap.Prelude.Try.{Try, value}
use turtlemap.Kernel.Model.{ArtifactType, ArtifactPayload, RuntimeArtifact, SessionState}
use turtlemap.Kernel.Samples.{reply, first_input}
use turtlemap.Context.Rounds.{
  CompressionError, count_history_rounds, retained_rounds, round_start_indices,
  find_retained_history_start_index, ensure_compressible_history,
}
use turtlemap.Context.Rounds.Split.{ensure-splits}
use turtlemap.Context.Compress.{
  CompressionLevel, CompressionResult, failed_result, set_compressed, merge_compacted_result,
  compact_history_into_mid_term_memory,
}
use turtlemap.Context.Compress.HardLimit.{IsRewritten, merge-IsRewritten}
use turtlemap.Context.Compress.Merge.{with_appended, compress-merge}
use turtlemap.Context.Budget.{default_budget, default-passes}
use turtlemap.Context.Build.{build_llm_context}
use turtlemap.Context.Build.Fits.{IsFit, build-IsFit}
use turtlemap.Context.Tokens.{TokenCache, get, set, BudgetMessage, count_context}
use turtlemap.Context.Tokens.Cache.{get-set, set-evicts}
use turtlemap.Context.Tokens.Count.{IsConsistent, count_context-sum}

abbrev question : ℕ → RuntimeArtifact
question i = record {
  id = i;
  type = ArtifactType.input;
  owner_agent_name = "root";
  payload = ArtifactPayload.input first_input;
}

abbrev two_rounds : List RuntimeArtifact
two_rounds = question 1 ∷ reply ∷ question 2 ∷ reply ∷ []

abbrev session : SessionState
session = record {
  agent_frames = [];
  input_queue = [];
  history = two_rounds;
  memory = record { long_term_memory = ""; mid_term_memory = "before" };
  agent_states = [];
}

abbrev rewrite : SessionState → List RuntimeArtifact → Try CompressionError String
rewrite s h = value "summary"

not_empty : two_rounds ≢ []
not_empty e = absurd (cc)

-- one round goes, one stays
splits_one : ensure_compressible_history two_rounds 1 ≡ value (question 1 ∷ reply ∷ [])
unfolding ensure_compressible_history find_retained_history_start_index round_start_indices
    count_history_rounds
splits_one = refl

ensure-splits_example :
    (c : List RuntimeArtifact) × (r : List RuntimeArtifact) × (ensure_compressible_history
        two_rounds 1
      ≡ value c)
    × (c ++ r ≡ two_rounds)
    × (c ≢ [])
    × (count_history_rounds r ≡ retained_rounds two_rounds 1)
ensure-splits_example = ensure-splits two_rounds 1 not_empty

compress-merge_example :
    (c : CompressionResult) × (d : List RuntimeArtifact) × (r : List RuntimeArtifact) × (d ++ r
      ≡ two_rounds)
    × (d ≢ [])
    × (count_history_rounds r ≡ retained_rounds two_rounds 1)
    × (compact_history_into_mid_term_memory 1 rewrite session CompressionLevel.normal ≡ value c)
    × (merge_compacted_result (with_appended (question 3 ∷ []) session) c
        ≡ (true, set_compressed (r ++ question 3 ∷ []) "summary" session))
compress-merge_example =
    compress-merge 1 rewrite session (λ d. "summary") (λ d. refl) (question 3 ∷ []) not_empty

merge-IsRewritten_example : IsRewritten session (merge_compacted_result session failed_result)
merge-IsRewritten_example = merge-IsRewritten session failed_result

-- Every artifact weighs 20000 tokens.
abbrev weight : SessionState → ℕ
weight s = 20000 * length s.history

build-IsFit_example :
    IsFit 5 rewrite weight default_budget
      (build_llm_context 5 rewrite weight default_budget session)
build-IsFit_example =
    build-IsFit 5 rewrite weight default_budget session default-passes (omega arith)

abbrev full : TokenCache
full = record { max_entries = 2; cache = (("m", "a"), 3) ∷ (("m", "b"), 5) ∷ [] }

get-set_example :
    ((get ("m", "c") (set ("m", "c") 7 full)).0 ≡ some 7)
    × (length (set ("m", "c") 7 full).cache ≤ 2)
get-set_example = get-set ("m", "c") 7 full (omega arith)

set-evicts_example : (set ("m", "c") 7 full).cache ≡ (("m", "b"), 5) ∷ (("m", "c"), 7) ∷ []
unfolding lookup
set-evicts_example = set-evicts ("m", "c") ("m", "a") 7 3 ((("m", "b"), 5) ∷ []) refl

abbrev ask : BudgetMessage
ask = record { role = "user"; text = "hello"; has_tool_calls = false; has_tool_call_id = false }

abbrev no_entries : TokenCache
no_entries = record { max_entries = 1024; cache = [] }

count_context-sum_example :
    ((count_context "m" (λ s. s) (λ s. 2) (ask ∷ ask ∷ []) ("{}" ∷ []) no_entries).0 ≡ 18)
    × IsConsistent "m"
        (λ s. s)
        (λ s. 2)
        (count_context "m" (λ s. s) (λ s. 2) (ask ∷ ask ∷ []) ("{}" ∷ []) no_entries).1
count_context-sum_example =
    count_context-sum "m" (λ s. s) (λ s. 2) (λ a b e. e) (ask ∷ ask ∷ []) ("{}" ∷ []) no_entries tt
