-- ===== src/Context/Tokens/Cache.antt =====
-- os/context/tokenizer.py `TokenCache`: its size, its answers, and what it gives up.
use turtlemap.Prelude.{
  ℕ, suc, ◌≤◌, ◌<◌, ◌≡◌, refl, ◌∙◌, true, false, Option, none, some, [], ◌∷◌, ◌++◌, arith, length,
  leb, Bool-cases, inl, inr, length-append,
}
use turtlemap.Prelude.Eq.{string_eq, pair_eq}
use turtlemap.Prelude.Dict.{
  Dict, lookup, insert, erase, lookup-insert, lookup-erase, insert-new, erase-append-new,
  lookup-append_new, lookup-tail,
}
use turtlemap.Context.Tokens.{CacheKey, TokenCache, move_to_end, found, get, evict, set}

pub length-evict : (n : ℕ) (d : Dict CacheKey ℕ) → length (evict n d) ≤ n
unfolding evict
length-evict n [] = omega arith
length-evict n (e ∷ d) = elim (Bool-cases (leb (length (e ∷ d)) n)) [
  | inl fits ↦ rw fits (ground arith)
  | inr long ↦ rw long (length-evict n d)
]

-- what is within the size stays, and one entry more costs the first
evict-fits : (n : ℕ) (d : Dict CacheKey ℕ) → length d ≤ n → evict n d ≡ d
unfolding evict
evict-fits n [] l = refl
evict-fits n (e ∷ d) l = let fits : leb (length (e ∷ d)) n ≡ true = ground arith in rw fits refl

evict-one :
    (d : Dict CacheKey ℕ) (x y : CacheKey × ℕ)
    → evict (suc (length d)) (x ∷ d ++ y ∷ []) ≡ d ++ y ∷ []
unfolding evict
evict-one d x y =
    let long : leb (length (x ∷ d ++ y ∷ [])) (suc (length d)) ≡ false =
      ground (arith, length-append d (y ∷ [])) in
    rw long (evict-fits (suc (length d)) (d ++ y ∷ []) (omega (arith, length-append d (y ∷ []))))

move_to_end-insert :
    (k : CacheKey) (n : ℕ) (d : Dict CacheKey ℕ)
    → move_to_end k (insert k n d) ≡ erase k (insert k n d) ++ (k, n) ∷ []
unfolding move_to_end
move_to_end-insert k n d =
    let at : lookup k (insert k n d) ≡ some n =
      lookup-insert k k n d ∙ rw ((pair_eq.decides k k).1 refl) refl in
    rw at refl

-- What was stored last is at the end, and it is not what the loop takes.
lookup-evict :
    (m : ℕ) (k : CacheKey) (n : ℕ) (d : Dict CacheKey ℕ)
    → 0 < m
    → lookup k d ≡ none
    → lookup k (evict m (d ++ (k, n) ∷ [])) ≡ some n
unfolding evict lookup
lookup-evict m k n [] l h =
    let fits : leb 1 m ≡ true = ground arith in rw (fits, (pair_eq.decides k k).1 refl) refl
lookup-evict m k n ((j, v) ∷ d) l h = elim (Bool-cases (leb (suc (length (d ++ (k, n) ∷ []))) m)) [
  | inl fits ↦ rw fits (lookup-append_new k n ((j, v) ∷ d) h)
  | inr long ↦ rw long (lookup-evict m k n d l (lookup-tail k j v d h))
]

found-lookup : (o : Option ℕ) (k : CacheKey) (c : TokenCache) → (found o k c).0 ≡ o
found-lookup none k c = refl
found-lookup (some n) k c = refl

-- A key that was just stored is found, whatever the cache held, if the cache may hold an entry,
-- and the cache is within its size.
pub get-set :
    (k : CacheKey) (n : ℕ) (c : TokenCache)
    → 0 < c.max_entries
    → ((get k (set k n c)).0 ≡ some n) × (length (set k n c).cache ≤ c.max_entries)
unfolding get set
get-set k n c l =
    let d = insert k n c.cache in
    let gone : lookup k (erase k d) ≡ none =
      lookup-erase k k d ∙ rw ((pair_eq.decides k k).1 refl) refl in
    (
      found-lookup _ k (set k n c)
          ∙ rw (move_to_end-insert k n c.cache) (lookup-evict c.max_entries k n (erase k d) l gone),
      length-evict c.max_entries (move_to_end k d),
    )

-- A new key in a full cache costs the entry that was used the longest time ago, and that one alone.
pub set-evicts :
    (k j : CacheKey) (n v : ℕ) (d : Dict CacheKey ℕ)
    → lookup k ((j, v) ∷ d) ≡ none
    → (set k n (record { max_entries = suc (length d); cache = (j, v) ∷ d })).cache
      ≡ d ++ (k, n) ∷ []
unfolding set
set-evicts k j n v d new =
    rw
      (
        move_to_end-insert k n ((j, v) ∷ d),
        insert-new k n ((j, v) ∷ d) new,
        erase-append-new k n ((j, v) ∷ d) new,
      )
      (evict-one d (j, v) (k, n))
