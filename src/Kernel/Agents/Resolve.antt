-- ===== src/Kernel/Agents/Resolve.antt =====
-- kernel/agent.py `resolve_reachable_agents`: the end of the search, and its result.
use turtlemap.Prelude.{
  ℕ, zero, suc, ◌+◌, ◌≤◌, ◌<◌, ◌≡◌, refl, ap, subst, Option, some, List, [], ◌∷◌, ◌++◌, String,
  arith, length, length-append, Bool-cases, Option-cases, inl, inr, All, All-map,
}
use turtlemap.Prelude.Eq.{string_eq}
use turtlemap.Prelude.Dict.{lookup}
use turtlemap.Kernel.Agents.{
  Agent, Agents, pop_pending, is_known, visit, resolve_from, resolve_reachable_agents,
}
use turtlemap.Kernel.Agents.Pending.{pop-none, pop-append, weight, Named, weight-drops}
use turtlemap.Kernel.Agents.Reach.{
  IsFound, IsReached, IsSound, known-IsReached, new-IsReached, known-IsSound, new-IsSound,
}

-- the turns that agents of these names may take, at `d` handoffs each
abbrev pub turns : ℕ → List String → ℕ
turns d [] = 0
turns d (k ∷ ks) = d + turns d ks

-- Agent `self` is found, and each agent that is found stands under its name and has its handoffs found.
pub record IsClosed (agent : ℕ → Agent) (self : ℕ) (found : Agents) : Type 0 where
  pub itself : IsFound agent found self
  pub handed :
      (k : String) (a : ℕ)
      → lookup k found ≡ some a
      → ((agent a).agent_name ≡ k) × All (IsFound agent found) (agent a).handoffs

module _ (agent : ℕ → Agent) (names : List String) (d : ℕ)
    (named : (a : ℕ) → Named (agent a).agent_name names)
    (few : (a : ℕ) → length (agent a).handoffs ≤ d) (self : ℕ) where
  -- what holds before a turn, and how many turns there may still be
  record IsPending (fuel : ℕ) (found : Agents) (pending : List ℕ) : Type 0 where
    sound : IsSound agent found pending
    reached : IsReached agent found pending self
    fits : length pending + weight d names found < fuel

  abbrev Ends : Option Agents → Type 0
  Ends r = (found : Agents) × (r ≡ some found) × IsClosed agent self found

  no_pending : (found : Agents) (h : ℕ) → IsReached agent found [] h → IsFound agent found h
  no_pending found h (inl f) = f
  no_pending found h (inr n) = absurd n

  nothing_left :
      (found : Agents)
      → IsSound agent found []
      → IsReached agent found [] self
      → IsClosed agent self found
  nothing_left found w r = record {
    itself = no_pending found self r;
    handed = λ k a at.
        let (name, all) = w.handed k a at in
        (name, All-map (λ h r. no_pending found h r) (agent a).handoffs all);
  }

  visit-IsPending :
      (fuel a : ℕ) (found : Agents) (rest : List ℕ)
      → IsPending (suc fuel) found (rest ++ a ∷ [])
      → IsPending fuel (visit agent a found rest).0 (visit agent a found rest).1
  visit-IsPending fuel a found rest w =
      let n = length-append rest (a ∷ []) in
      elim (Bool-cases (is_known (lookup (agent a).agent_name found))) [
        | inl known ↦ rw known (record {
          sound = known-IsSound agent a found rest known w.sound;
          reached = known-IsReached agent a found rest self known w.reached;
          fits = omega (arith, w.fits, n);
        })
        | inr new ↦ rw new (record {
          sound = new-IsSound agent a found rest w.sound;
          reached = new-IsReached agent a found rest self w.reached;
          fits = omega (
            arith,
            w.fits,
            n,
            length-append rest (agent a).handoffs,
            few a,
            weight-drops d names (agent a).agent_name a found (named a) new,
          );
        })
      ]

  resolve_from-Ends :
      (fuel : ℕ) (found : Agents) (pending : List ℕ)
      → IsPending fuel found pending
      → Ends (resolve_from agent fuel (found, pending))
  unfolding resolve_from
  resolve_from-Ends zero found pending w = absurd (omega (arith, w.fits))
  resolve_from-Ends (suc fuel) found pending w = elim (Option-cases (pop_pending pending)) [
    | inl e ↦
        let empty = pop-none pending e in
        rw e (
          found,
          refl,
          nothing_left found (subst (IsSound agent found) empty w.sound)
              (subst (λ p. IsReached agent found p self) empty w.reached),
        )
    | inr ((rest, a), e) ↦
        let last = subst (IsPending (suc fuel) found) (pop-append pending rest a e) w in
        rw e (resolve_from-Ends fuel _ _ (visit-IsPending fuel a found rest last))
  ]

  all_weight : (ks : List String) → weight d ks [] ≡ turns d ks
  unfolding lookup
  all_weight [] = refl
  all_weight (k ∷ ks) = ap (λ n. d + n) (all_weight ks)

  -- If the names of the agents are among finitely many and no agent has more than d handoffs, the
  -- search for reachable agents ends, cycles of handoffs or not, within two turns and d for each
  -- name; what it finds has the agent itself and is closed under handoffs, each agent standing
  -- under its own name.
  pub resolve-IsClosed :
      (found : Agents) × (resolve_reachable_agents agent (2 + turns d names) self ≡ some found)
      × IsClosed agent self found
  unfolding resolve_reachable_agents lookup
  resolve-IsClosed = resolve_from-Ends (2 + turns d names) [] (self ∷ []) (record {
    sound = record { handed = λ k a at. absurd (cc) };
    reached = inr (inl refl);
    fits = omega (arith, all_weight names);
  })
