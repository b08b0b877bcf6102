-- ===== src/Context/Tokens/Count.antt =====
-- os/context/tokenizer.py: the counts of `Tokenizer`, with what its cache holds.
use turtlemap.Prelude.{
  ℕ, ◌+◌, ◌≡◌, refl, ap, Option, none, some, List, [], ◌∷◌, String, arith, length, leb, Bool-cases,
  inl, inr, All, All-append,
}
use turtlemap.Prelude.Eq.{string_eq, pair_eq}
use turtlemap.Prelude.Dict.{Dict, lookup, insert, erase, erase-All, insert-All, lookup-All}
use turtlemap.Context.Tokens.{
  CacheKey, TokenCache, to_end, move_to_end, found, get, evict, set, BudgetMessage, counted,
  count_serialized_content, overhead, count_message, count_messages, count_tool_schemas,
  count_context,
}

evict-All : (P : CacheKey × ℕ → Type 0) (n : ℕ) (d : Dict CacheKey ℕ) → All P d → All P (evict n d)
unfolding evict
evict-All P n [] h = tt
evict-All P n (e ∷ d) h = elim (Bool-cases (leb (length (e ∷ d)) n)) [
  | inl fits ↦ rw fits h
  | inr long ↦ rw long (evict-All P n d h.1)
]

to_end-All :
    (P : CacheKey × ℕ → Type 0) (k : CacheKey) (o : Option ℕ) (d : Dict CacheKey ℕ)
    → lookup k d ≡ o
    → All P d
    → All P (to_end k o d)
to_end-All P k none d e h = h
to_end-All P k (some n) d e h =
    All-append P (erase k d) ((k, n) ∷ []) (erase-All P k d h) (lookup-All P k n d h e, tt)

move_to_end-All :
    (P : CacheKey × ℕ → Type 0) (k : CacheKey) (d : Dict CacheKey ℕ)
    → All P d
    → All P (move_to_end k d)
unfolding move_to_end
move_to_end-All P k d h = to_end-All P k (lookup k d) d refl h

set-All :
    (P : CacheKey × ℕ → Type 0) (k : CacheKey) (n : ℕ) (c : TokenCache)
    → All P c.cache
    → P (k, n)
    → All P (set k n c).cache
unfolding set
set-All P k n c h p =
    evict-All P c.max_entries (move_to_end k (insert k n c.cache))
      (move_to_end-All P k (insert k n c.cache) (insert-All P k n c.cache h p))

-- An entry of this tokenizer holds the length of the encoding of its content.
abbrev pub IsRight : String → (String → String) → (String → ℕ) → CacheKey × ℕ → Type 0
IsRight identity hash encoded_length (k, n) =
    (content : String) → k ≡ (identity, hash content) → n ≡ encoded_length content

abbrev pub IsConsistent : String → (String → String) → (String → ℕ) → TokenCache → Type 0
IsConsistent identity hash encoded_length c = All (IsRight identity hash encoded_length) c.cache

module _ (identity : String) (hash : String → String) (encoded_length : String → ℕ)
    (no_collision : (a b : String) → hash a ≡ hash b → a ≡ b) where
  abbrev sum_texts : List String → ℕ
  sum_texts [] = 0
  sum_texts (t ∷ ts) = encoded_length t + sum_texts ts

  abbrev message_tokens : BudgetMessage → ℕ
  message_tokens m =
      4
      + encoded_length m.role
      + encoded_length m.text
      + overhead m.has_tool_calls
      + overhead m.has_tool_call_id

  abbrev sum_messages : List BudgetMessage → ℕ
  sum_messages [] = 0
  sum_messages (m ∷ ms) = message_tokens m + sum_messages ms

  -- a count that is what it says and leaves a cache that is right
  abbrev Counts : ℕ → ℕ × TokenCache → Type 0
  Counts n r = (r.0 ≡ n) × IsConsistent identity hash encoded_length r.1

  count_content-Counts :
      (content : String) (c : TokenCache)
      → IsConsistent identity hash encoded_length c
      → Counts
          (encoded_length content)
          (count_serialized_content identity hash encoded_length content c)
  unfolding count_serialized_content get
  count_content-Counts content c w = go (lookup (identity, hash content) c.cache) refl
    where
      go :
          (o : Option ℕ)
          → lookup (identity, hash content) c.cache ≡ o
          → Counts
              (encoded_length content)
              (counted identity hash encoded_length (found o (identity, hash content) c) content)
      go none e = (
        refl,
        set-All (IsRight identity hash encoded_length) (identity, hash content)
            (encoded_length content) c w
            (λ other same.
              ap encoded_length (no_collision content other (ap (λ (k : CacheKey). k.1) same))),
      )
      go (some n) e = (
        lookup-All (IsRight identity hash encoded_length) (identity, hash content) n c.cache w e
            content refl,
        move_to_end-All (IsRight identity hash encoded_length) (identity, hash content) c.cache w,
      )

  count_message-Counts :
      (m : BudgetMessage) (c : TokenCache)
      → IsConsistent identity hash encoded_length c
      → Counts (message_tokens m) (count_message identity hash encoded_length m c)
  unfolding count_message
  count_message-Counts m c w =
      let (role, w') = count_content-Counts m.role c w in
      let (text, w'') =
        count_content-Counts m.text
          (count_serialized_content identity hash encoded_length m.role c).1 w' in
      (rw (role, text) refl, w'')

  count_messages-Counts :
      (ms : List BudgetMessage) (total : ℕ) (c : TokenCache)
      → IsConsistent identity hash encoded_length c
      → Counts (total + sum_messages ms) (count_messages identity hash encoded_length ms total c)
  unfolding count_messages
  count_messages-Counts [] total c w = (omega arith, w)
  count_messages-Counts (m ∷ ms) total c w =
      let r = count_message identity hash encoded_length m c in
      let (n, w') = count_message-Counts m c w in
      let (rest, w'') = count_messages-Counts ms (total + r.0) r.1 w' in
      (omega (arith, rest, n), w'')

  count_schemas-Counts :
      (ss : List String) (total : ℕ) (c : TokenCache)
      → IsConsistent identity hash encoded_length c
      → Counts (total + sum_texts ss) (count_tool_schemas identity hash encoded_length ss total c)
  unfolding count_tool_schemas
  count_schemas-Counts [] total c w = (omega arith, w)
  count_schemas-Counts (s ∷ ss) total c w =
      let r = count_serialized_content identity hash encoded_length s c in
      let (n, w') = count_content-Counts s c w in
      let (rest, w'') = count_schemas-Counts ss (total + r.0) r.1 w' in
      (omega (arith, rest, n), w'')

  -- If the hash of contents has no collisions and every entry of the cache holds the length that the
  -- tokenizer gives, the count of a context is the sum over its messages and schemas, as without a
  -- cache, and the cache it leaves again holds what the tokenizer gives.
  pub count_context-sum :
      (ms : List BudgetMessage) (ss : List String) (c : TokenCache)
      → IsConsistent identity hash encoded_length c
      → ((count_context identity hash encoded_length ms ss c).0 ≡ sum_messages ms + sum_texts ss)
        × IsConsistent identity hash encoded_length
            (count_context identity hash encoded_length ms ss c).1
  unfolding count_context
  count_context-sum ms ss c w =
      let r = count_messages identity hash encoded_length ms 0 c in
      let (n, w') = count_messages-Counts ms 0 c w in
      let (total, w'') = count_schemas-Counts ss r.0 r.1 w' in (omega (arith, total, n), w'')
