-- ===== src/Kernel/Agents/Reach.antt =====
-- kernel/agent.py `resolve_reachable_agents`: what is found and pending, from turn to turn.
use turtlemap.Prelude.{
  ℕ, ◌≡◌, ◌⊎◌, refl, ap, sym, subst, ◌∙◌, true, some, List, [], ◌∷◌, ◌++◌, String, Bool-cases, inl,
  inr, All, All-map,
}
use turtlemap.Prelude.Eq.{◌==◌, string_eq}
use turtlemap.Prelude.Dict.{lookup, insert}
use turtlemap.Kernel.Agents.{Agent, Agents, is_known}
use turtlemap.Kernel.Agents.Pending.{
  Occurs, Occurs-append, Occurs-left, Occurs-right, each-Occurs, lookup-found, lookup-same,
}

module _ (agent : ℕ → Agent) where
  -- an agent of the name of `h` is found
  abbrev pub IsFound : Agents → ℕ → Type 0
  IsFound found h = is_known (lookup (agent h).agent_name found) ≡ true

  abbrev pub IsReached : Agents → List ℕ → ℕ → Type 0
  IsReached found pending h = IsFound found h ⊎ Occurs h pending

  -- Under each name stands an agent of that name, and all of its handoffs are found or pending.
  pub record IsSound (found : Agents) (pending : List ℕ) : Type 0 where
    pub handed :
        (k : String) (a : ℕ)
        → lookup k found ≡ some a
        → ((agent a).agent_name ≡ k) × All (IsReached found pending) (agent a).handoffs

  -- an agent that was pending or found before a visit to `a` is so after it
  pub known-IsReached :
      (a : ℕ) (found : Agents) (rest : List ℕ) (h : ℕ)
      → IsFound found a
      → IsReached found (rest ++ a ∷ []) h
      → IsReached found rest h
  known-IsReached a found rest h known (inl f) = inl f
  known-IsReached a found rest h known (inr o) = elim (Occurs-append h rest (a ∷ []) o) [
    | inl l ↦ inr l
    | inr (inl e) ↦ inl (subst (IsFound found) e known)
    | inr (inr n) ↦ absurd n
  ]

  IsFound-after :
      (a : ℕ) (found : Agents) (h : ℕ)
      → IsFound found h
      → IsFound (insert (agent a).agent_name a found) h
  IsFound-after a found h f = elim (Bool-cases ((agent a).agent_name == (agent h).agent_name)) [
    | inl same ↦ ap is_known (lookup-same (agent h).agent_name (agent a).agent_name a found same)
    | inr other ↦
        ap is_known (lookup-found (agent h).agent_name (agent a).agent_name a found other) ∙ f
  ]

  itself-IsFound : (a : ℕ) (found : Agents) → IsFound (insert (agent a).agent_name a found) a
  itself-IsFound a found = ap is_known (
      lookup-same (agent a).agent_name (agent a).agent_name a found
        ((string_eq.decides (agent a).agent_name (agent a).agent_name).1 refl))

  pub new-IsReached :
      (a : ℕ) (found : Agents) (rest : List ℕ) (h : ℕ)
      → IsReached found (rest ++ a ∷ []) h
      → IsReached (insert (agent a).agent_name a found) (rest ++ (agent a).handoffs) h
  new-IsReached a found rest h (inl f) = inl (IsFound-after a found h f)
  new-IsReached a found rest h (inr o) = elim (Occurs-append h rest (a ∷ []) o) [
    | inl l ↦ inr (Occurs-left h rest (agent a).handoffs l)
    | inr (inl e) ↦
        inl (subst (IsFound (insert (agent a).agent_name a found)) e (itself-IsFound a found))
    | inr (inr n) ↦ absurd n
  ]

  pub known-IsSound :
      (a : ℕ) (found : Agents) (rest : List ℕ)
      → IsFound found a
      → IsSound found (rest ++ a ∷ [])
      → IsSound found rest
  known-IsSound a found rest known w = record {
    handed = λ k b at.
        let (named, all) = w.handed k b at in
        (named, All-map (λ h r. known-IsReached a found rest h known r) (agent b).handoffs all);
  }

  pub new-IsSound :
      (a : ℕ) (found : Agents) (rest : List ℕ)
      → IsSound found (rest ++ a ∷ [])
      → IsSound (insert (agent a).agent_name a found) (rest ++ (agent a).handoffs)
  new-IsSound a found rest w = record {
    handed = λ k b at. elim (Bool-cases ((agent a).agent_name == k)) [
      | inl same ↦
          let both = sym (lookup-same k (agent a).agent_name a found same) ∙ at in
          let e : a ≡ b = cc in
          subst
            (λ c.
              ((agent c).agent_name ≡ k)
              × All (IsReached (insert (agent a).agent_name a found) (rest ++ (agent a).handoffs))
                  (agent c).handoffs)
            e
            (
              (string_eq.decides (agent a).agent_name k).0 same,
              All-map (λ h o. inr (Occurs-right h rest (agent a).handoffs o)) (agent a).handoffs
                  (each-Occurs (agent a).handoffs),
            )
      | inr other ↦
          let (named, all) =
            w.handed k b (sym (lookup-found k (agent a).agent_name a found other) ∙ at) in
          (named, All-map (λ h r. new-IsReached a found rest h r) (agent b).handoffs all)
    ];
  }
