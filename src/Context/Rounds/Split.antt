-- ===== src/Context/Rounds/Split.antt =====
-- Where compression cuts a history: the rounds on either side of the cut.
use turtlemap.Prelude.{
  ℕ, zero, suc, ◌+◌, ◌-◌, ◌<◌, ◌≡◌, ◌≢◌, refl, true, false, List, [], ◌∷◌, ◌++◌, arith, length,
  take, drop, leb, Bool-cases, inl, inr, take-append-drop, take-length, drop-length, ap, sym, ◌∙◌,
}
use turtlemap.Prelude.Try.{value}
use turtlemap.Kernel.Model.{RuntimeArtifact}
use turtlemap.Context.Rounds.{
  is_user_role_message, count_history_rounds, round_start_indices, get_elem?,
  find_retained_history_start_index, retained_rounds, non_empty, ensure_compressible_history,
}

length-round_start_indices :
    (i : ℕ) (h : List RuntimeArtifact) → length (round_start_indices i h) ≡ count_history_rounds h
unfolding round_start_indices count_history_rounds
length-round_start_indices i [] = refl
length-round_start_indices i (a ∷ h) = ground (arith, length-round_start_indices (suc i) h)

-- Position `p` of `h` starts the round that `j` rounds precede.
record IsRoundStart (h : List RuntimeArtifact) (j p : ℕ) : Type 0 where
  before : count_history_rounds (take p h) ≡ j
  after : count_history_rounds (drop p h) ≡ count_history_rounds h - j

skip_other :
    (i : ℕ) (a : RuntimeArtifact) (h : List RuntimeArtifact) (j : ℕ)
    → is_user_role_message a ≡ false
    → (p : ℕ) × (get_elem? (round_start_indices (suc i) h) j ≡ value (p + suc i))
      × IsRoundStart h j p
    → (p : ℕ) × (get_elem? (round_start_indices i (a ∷ h)) j ≡ value (p + i))
      × IsRoundStart (a ∷ h) j p
unfolding round_start_indices count_history_rounds
skip_other i a h j other (p, at, w) = (
  suc p,
  rw (other) (at ∙ ap value (omega arith)),
  record { before = rw (other) w.before; after = rw (other) w.after },
)

skip_user :
    (i : ℕ) (a : RuntimeArtifact) (h : List RuntimeArtifact) (j : ℕ)
    → is_user_role_message a ≡ true
    → (p : ℕ) × (get_elem? (round_start_indices (suc i) h) j ≡ value (p + suc i))
      × IsRoundStart h j p
    → (p : ℕ) × (get_elem? (round_start_indices i (a ∷ h)) (suc j) ≡ value (p + i))
      × IsRoundStart (a ∷ h) (suc j) p
unfolding round_start_indices count_history_rounds
skip_user i a h j user (p, at, w) = (
  suc p,
  rw (user) (at ∙ ap value (omega arith)),
  record { before = rw (user) (ap suc w.before); after = rw (user) (omega (arith, w.after)) },
)

find_start :
    (i : ℕ) (h : List RuntimeArtifact) (j : ℕ)
    → j < count_history_rounds h
    → (p : ℕ) × (get_elem? (round_start_indices i h) j ≡ value (p + i)) × IsRoundStart h j p
unfolding round_start_indices count_history_rounds
find_start i [] j l = absurd (omega arith)
find_start i (a ∷ h) zero l = elim (Bool-cases (is_user_role_message a)) [
  | inl user ↦ (0, rw user (ap value (omega arith)), record { before = refl; after = omega arith })
  | inr other ↦ skip_other i a h zero other (find_start (suc i) h zero (ground arith))
]
find_start i (a ∷ h) (suc j) l = elim (Bool-cases (is_user_role_message a)) [
  | inl user ↦ skip_user i a h j user (find_start (suc i) h j (ground arith))
  | inr other ↦ skip_other i a h (suc j) other (find_start (suc i) h (suc j) (ground arith))
]

no_rounds : count_history_rounds [] ≡ 0
unfolding count_history_rounds
no_rounds = refl

has_rounds : (h : List RuntimeArtifact) → 0 < count_history_rounds h → h ≢ []
has_rounds h l e =
    let none_there : count_history_rounds h ≡ 0 = ap count_history_rounds e ∙ no_rounds in
    omega arith

keep_none :
    (h : List RuntimeArtifact)
    → h ≢ []
    → (i : ℕ) × (find_retained_history_start_index h 0 ≡ value i)
      × (count_history_rounds (drop i h) ≡ 0)
      × (take i h ≢ [])
unfolding find_retained_history_start_index
keep_none h ne = (length h, refl, rw (drop-length h) no_rounds, λ e. ne (sym (take-length h) ∙ e))

cut_at :
    (h : List RuntimeArtifact) (k : ℕ)
    → suc k < count_history_rounds h
    → (p : ℕ) × (get_elem? (round_start_indices 0 h) (count_history_rounds h - suc k)
        ≡ value (p + 0))
      × IsRoundStart h (count_history_rounds h - suc k) p
    → (i : ℕ) × (find_retained_history_start_index h (suc k) ≡ value i)
      × (count_history_rounds (drop i h) ≡ suc k)
      × (take i h ≢ [])
unfolding find_retained_history_start_index
cut_at h k l (p, at, w) =
    let more : leb (length (round_start_indices 0 h)) (suc k) ≡ false =
      ground (arith, length-round_start_indices 0 h) in
    (
      p,
      rw (more, length-round_start_indices 0 h) (at ∙ ap value (omega arith)),
      omega (arith, w.after),
      λ e. has_rounds (take p h) (omega (arith, w.before)) e,
    )

find_retained-splits :
    (h : List RuntimeArtifact) (k : ℕ)
    → k < count_history_rounds h
    → (i : ℕ) × (find_retained_history_start_index h k ≡ value i)
      × (count_history_rounds (drop i h) ≡ k)
      × (take i h ≢ [])
unfolding find_retained_history_start_index
find_retained-splits h zero l =
    (length h, refl, rw (drop-length h) no_rounds, λ e. has_rounds h l (sym (take-length h) ∙ e))
find_retained-splits h (suc k) l =
    cut_at h k l (find_start 0 h (count_history_rounds h - suc k) (omega arith))

non_empty-value : (c : List RuntimeArtifact) → c ≢ [] → non_empty c ≡ value c
non_empty-value [] ne = absurd (ne refl)
non_empty-value (a ∷ c) ne = refl

-- the cut, whatever number of rounds is kept
ensure_at :
    (h : List RuntimeArtifact) (k : ℕ)
    → (i : ℕ) × (find_retained_history_start_index h (retained_rounds h k) ≡ value i)
      × (count_history_rounds (drop i h) ≡ retained_rounds h k)
      × (take i h ≢ [])
    → (c : List RuntimeArtifact) × (r : List RuntimeArtifact) × (ensure_compressible_history h k
        ≡ value c)
      × (c ++ r ≡ h)
      × (c ≢ [])
      × (count_history_rounds r ≡ retained_rounds h k)
unfolding ensure_compressible_history
ensure_at h k (i, at, rounds, ne) =
    (take i h, drop i h, rw at (non_empty-value (take i h) ne), take-append-drop i h, ne, rounds)

-- A history that is not empty always has a part to compress, and that part and the rest make up the
-- history; the rest has the number of rounds that is to be kept, or none when the history has no
-- more rounds than that.
pub ensure-splits :
    (h : List RuntimeArtifact) (k : ℕ)
    → h ≢ []
    → (c : List RuntimeArtifact) × (r : List RuntimeArtifact) × (ensure_compressible_history h k
        ≡ value c)
      × (c ++ r ≡ h)
      × (c ≢ [])
      × (count_history_rounds r ≡ retained_rounds h k)
ensure-splits h k ne = ensure_at h k (elim (Bool-cases (leb (count_history_rounds h) k)) [
  | inl few ↦ rw few (keep_none h ne)
  | inr many ↦ rw many (find_retained-splits h k (ground arith))
])
