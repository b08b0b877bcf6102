-- ===== src/Context/Rounds.antt =====
-- os/context/tokenizer.py `count_history_rounds`, and the split of a history into what is compressed
-- and what is kept: os/context/compress.py.
pub mod Split
use turtlemap.Prelude.{
  ℕ, zero, suc, ◌+◌, ◌-◌, ◌≤◌, ◌<◌, ◌≡◌, ◌≢◌, refl, Bool, true, false, Option, none, some, List, [],
  ◌∷◌, ◌++◌, arith, length, take, drop, leb, if◌then◌else◌,
}
use turtlemap.Prelude.Try.{Try, value, error, and_then}
use turtlemap.Kernel.Model.{ArtifactType, RuntimeArtifact}

-- What compression raises: `NoCompressibleHistoryError`, Python's `IndexError`, and what the model
-- client raises once its retries are used up.
pub data CompressionError : Type 0 where
  no_compressible_history index_error : CompressionError
  client_error : ℕ → CompressionError

abbrev is_input : ArtifactType → Bool
is_input ArtifactType.input = true
is_input _ = false

-- `RuntimeArtifact.is_user_role_message`
abbrev pub is_user_role_message : RuntimeArtifact → Bool
is_user_role_message a = is_input a.type

-- `Tokenizer.count_history_rounds`
unfoldable pub count_history_rounds : List RuntimeArtifact → ℕ
count_history_rounds [] = 0
count_history_rounds (a ∷ h) =
    let rest = count_history_rounds h in if is_user_role_message a then suc rest else rest

-- the loop of `_find_retained_history_start_index` from position `i`
unfoldable pub round_start_indices : ℕ → List RuntimeArtifact → List ℕ
round_start_indices i [] = []
round_start_indices i (a ∷ h) =
    let rest = round_start_indices (suc i) h in if is_user_role_message a then i ∷ rest else rest

-- `xs[i]` for an `i` that is not negative
abbrev pub get_elem? : List ℕ → ℕ → Try CompressionError ℕ
get_elem? [] i = error index_error
get_elem? (x ∷ xs) zero = value x
get_elem? (x ∷ xs) (suc i) = get_elem? xs i

-- `xs[-k]`: with 0 < k ≤ len(xs) it is `xs[len(xs) - k]`
abbrev round_start_at : ℕ → List ℕ → Try CompressionError ℕ
round_start_at k starts =
    if leb (length starts) k then value 0 else get_elem? starts (length starts - k)

-- `_find_retained_history_start_index`
unfoldable pub find_retained_history_start_index : List RuntimeArtifact → ℕ → Try CompressionError ℕ
find_retained_history_start_index h zero = value (length h)
find_retained_history_start_index h (suc k) = round_start_at (suc k) (round_start_indices 0 h)

abbrev pub non_empty : List RuntimeArtifact → Try CompressionError (List RuntimeArtifact)
non_empty [] = error no_compressible_history
non_empty (a ∷ h) = value (a ∷ h)

-- the rounds that are kept: none when there are no more than `k`
abbrev pub retained_rounds : List RuntimeArtifact → ℕ → ℕ
retained_rounds h k = if leb (count_history_rounds h) k then 0 else k

-- `_ensure_compressible_history`
unfoldable pub ensure_compressible_history :
    List RuntimeArtifact → ℕ → Try CompressionError (List RuntimeArtifact)
ensure_compressible_history h k =
    and_then (find_retained_history_start_index h (retained_rounds h k)) λ i. non_empty (take i h)
