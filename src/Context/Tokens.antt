-- ===== src/Context/Tokens.antt =====
-- os/context/tokenizer.py: `TokenCache`, and the counts of `Tokenizer` that go through it.
pub mod Cache
pub mod Count
use turtlemap.Prelude.{
  ℕ, ◌+◌, ◌≡◌, refl, Bool, true, false, Option, none, some, List, [], ◌∷◌, ◌++◌, String, length,
  leb, if◌then◌else◌,
}
use turtlemap.Prelude.Eq.{Eq, ◌==◌, string_eq, pair_eq}
use turtlemap.Prelude.Dict.{Dict, lookup, insert, erase}
use turtlemap.Prelude.Try.{Try, value, error}
use turtlemap.Context.Budget.{ConfigError, value_error}

-- `(tokenizer_identity, content_hash)`
abbrev pub CacheKey : Type 0
CacheKey = String × String

-- The least recently used entry of `_cache` stands first.
pub record TokenCache : Type 0 where
  pub max_entries : ℕ
  pub cache : Dict CacheKey ℕ

-- `TokenCache.__init__`
unfoldable pub new_cache : ℕ → Try ConfigError TokenCache
new_cache n = if leb n 0 then error value_error else value (record { max_entries = n; cache = [] })

abbrev to_end : CacheKey → Option ℕ → Dict CacheKey ℕ → Dict CacheKey ℕ
to_end k none d = d
to_end k (some n) d = erase k d ++ (k, n) ∷ []

-- `OrderedDict.move_to_end` for a key that is there
unfoldable pub move_to_end : CacheKey → Dict CacheKey ℕ → Dict CacheKey ℕ
move_to_end k d = to_end k (lookup k d) d

abbrev found : Option ℕ → CacheKey → TokenCache → Option ℕ × TokenCache
found none k c = (none, c)
found (some n) k c = (some n, record c { cache = move_to_end k c.cache })

-- `TokenCache.get`
unfoldable pub get : CacheKey → TokenCache → Option ℕ × TokenCache
get k c = found (lookup k c.cache) k c

-- the `while` loop of `TokenCache.set`
unfoldable pub evict : ℕ → Dict CacheKey ℕ → Dict CacheKey ℕ
evict n [] = []
evict n (e ∷ d) = let rest = evict n d in if leb (length (e ∷ d)) n then e ∷ d else rest

-- `TokenCache.set`
unfoldable pub set : CacheKey → ℕ → TokenCache → TokenCache
set k n c = record c { cache = evict c.max_entries (move_to_end k (insert k n c.cache)) }

-- What the counts read of an LLM message: the value of its role, its `to_token_budget_text()`, and
-- whether it has tool calls and a tool call id.
pub record BudgetMessage : Type 0 where
  pub role : String
  pub text : String
  pub has_tool_calls : Bool
  pub has_tool_call_id : Bool

-- `TOOL_CALL_OVERHEAD_TOKENS` or `TOOL_RESULT_OVERHEAD_TOKENS`, where there is one to count
abbrev pub overhead : Bool → ℕ
overhead true = 4
overhead false = 0

-- `hash` is `generate_content_hash`, `encoded_length` the length of the ModelScope tokenizer's
-- encoding of a text.
module _ (identity : String) (hash : String → String) (encoded_length : String → ℕ) where
  abbrev counted : Option ℕ × TokenCache → String → ℕ × TokenCache
  counted (some n, c) content = (n, c)
  counted (none, c) content =
      (encoded_length content, set (identity, hash content) (encoded_length content) c)

  -- `_count_serialized_content`
  unfoldable pub count_serialized_content : String → TokenCache → ℕ × TokenCache
  count_serialized_content content c = counted (get (identity, hash content) c) content

  -- `count_message`
  unfoldable pub count_message : BudgetMessage → TokenCache → ℕ × TokenCache
  count_message m c =
      let (role, c') = count_serialized_content m.role c in
      let (text, c'') = count_serialized_content m.text c' in
      (4 + role + text + overhead m.has_tool_calls + overhead m.has_tool_call_id, c'')

  -- the two loops of `count_context`, from a total
  unfoldable pub count_messages : List BudgetMessage → ℕ → TokenCache → ℕ × TokenCache
  count_messages [] total c = (total, c)
  count_messages (m ∷ ms) total c =
      let (n, c') = count_message m c in count_messages ms (total + n) c'

  unfoldable pub count_tool_schemas : List String → ℕ → TokenCache → ℕ × TokenCache
  count_tool_schemas [] total c = (total, c)
  count_tool_schemas (s ∷ ss) total c =
      let (n, c') = count_serialized_content s c in count_tool_schemas ss (total + n) c'

  -- `count_context`, of tool schemas as `dump_to_static_json` prints them
  unfoldable pub count_context : List BudgetMessage → List String → TokenCache → ℕ × TokenCache
  count_context ms ss c = let (total, c') = count_messages ms 0 c in count_tool_schemas ss total c'
