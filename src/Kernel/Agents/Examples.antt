-- ===== src/Kernel/Agents/Examples.antt =====
-- Two agents that hand off to each other, and a third.
use turtlemap.Prelude.{
  ℕ, zero, suc, ◌+◌, ◌≤◌, ◌≡◌, refl, some, inl, inr, List, [], ◌∷◌, String, arith, length,
}
use turtlemap.Prelude.Dict.{lookup, insert}
use turtlemap.Kernel.Agents.{Agent, Agents, resolve_from, resolve_reachable_agents}
use turtlemap.Kernel.Agents.Pending.{Named}
use turtlemap.Kernel.Agents.Resolve.{IsClosed, turns, resolve-IsClosed}

abbrev agents : ℕ → Agent
agents zero = record { agent_name = "root"; handoffs = 1 ∷ 2 ∷ [] }
agents (suc zero) = record { agent_name = "writer"; handoffs = 0 ∷ [] }
agents (suc (suc n)) = record { agent_name = "critic"; handoffs = [] }

abbrev names : List String
names = "root" ∷ "writer" ∷ "critic" ∷ []

agents-Named : (a : ℕ) → Named (agents a).agent_name names
agents-Named zero = inl refl
agents-Named (suc zero) = inr (inl refl)
agents-Named (suc (suc n)) = inr (inr (inl refl))

few_handoffs : (a : ℕ) → length (agents a).handoffs ≤ 2
few_handoffs zero = omega arith
few_handoffs (suc zero) = omega arith
few_handoffs (suc (suc n)) = omega arith

-- the last handoff is visited first
resolves :
    resolve_reachable_agents agents 8 0 ≡ some (("root", 0) ∷ ("critic", 2) ∷ ("writer", 1) ∷ [])
unfolding resolve_reachable_agents resolve_from lookup insert
resolves = refl

resolve-IsClosed_example :
    (found : Agents) × (resolve_reachable_agents agents (2 + turns 2 names) 0 ≡ some found)
    × IsClosed agents 0 found
resolve-IsClosed_example = resolve-IsClosed agents names 2 agents-Named few_handoffs 0
