-- ===== src/Kernel/Agents.antt =====
-- kernel/agent.py: `BaseAgent.resolve_reachable_agents`. Agents are objects, here by number; two
-- objects may have one name, and handoffs may form cycles.
pub mod Pending
pub mod Reach
pub mod Resolve
mod Examples
use turtlemap.Prelude.{
  ℕ, zero, suc, Bool, true, false, Option, none, some, List, [], ◌∷◌, ◌++◌, String, if◌then◌else◌,
}
use turtlemap.Prelude.Eq.{string_eq}
use turtlemap.Prelude.Dict.{Dict, lookup, insert}

pub record Agent : Type 0 where
  pub agent_name : String
  pub handoffs : List ℕ

abbrev pub Agents : Type 0
Agents = Dict String ℕ

abbrev after_pop : ℕ → Option (List ℕ × ℕ) → List ℕ × ℕ
after_pop x none = ([], x)
after_pop x (some (ys, y)) = (x ∷ ys, y)

-- `pending_agents.pop()`: the rest, and the last
abbrev pub pop_pending : List ℕ → Option (List ℕ × ℕ)
pop_pending [] = none
pop_pending (x ∷ xs) = some (after_pop x (pop_pending xs))

abbrev pub is_known : Option ℕ → Bool
is_known none = false
is_known (some a) = true

module _ (agent : ℕ → Agent) where
  -- one turn of the `while` loop with agent `a` popped: what is found and what is pending
  abbrev pub visit : ℕ → Agents → List ℕ → Agents × List ℕ
  visit a found pending =
      if is_known (lookup (agent a).agent_name found)
      then (found, pending)
      else (insert (agent a).agent_name a found, pending ++ (agent a).handoffs)

  abbrev pub popped :
      Option (List ℕ × ℕ) → Agents → (Agents × List ℕ → Option Agents) → Option Agents
  popped none found rest = some found
  popped (some (pending, a)) found rest = rest (visit a found pending)

  -- the `while` loop, for as many turns as there is fuel
  unfoldable pub resolve_from : ℕ → Agents × List ℕ → Option Agents
  resolve_from zero (found, pending) = none
  resolve_from (suc fuel) (found, pending) = popped (pop_pending pending) found (resolve_from fuel)

  -- `resolve_reachable_agents` of agent `self`
  unfoldable pub resolve_reachable_agents : ℕ → ℕ → Option Agents
  resolve_reachable_agents fuel self = resolve_from fuel ([], self ∷ [])
