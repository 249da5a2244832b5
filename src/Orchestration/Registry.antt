-- ===== src/Orchestration/Registry.antt =====
-- The table of agents: what `_validate_agents` of pmqa/orchestration/langgraph.py hands to the graph.
use mathlib.Core.Path.{subst}
use pmqa.Base.{
  Result, ok, raise_if, >>=-eq-ok, ◌≡◌, sym, ◌∙◌, inl, inr, not, Option, none, some, [], ◌∷◌, arith,
  Bool-cases, All,
}
use pmqa.Workflow.Models.{role_eq, AgentRole}
use pmqa.Workflow.Agents.{PmqaAgent}
use pmqa.Orchestration.{
  Error, Agents, get_agent, has_all, has_unsupported, missing_agents, unsupported_agents,
  copy_agent, validate_agents,
}
use pmqa.Runtime.Isolation.{role_eq→eq}
use pmqa.Orchestration.Turns.{IsRegistered}

copy_agent-eq-ok :
    (role : AgentRole) (o : Option PmqaAgent) (key : AgentRole) (a : PmqaAgent)
    → copy_agent role o ≡ ok (key, a)
    → (key ≡ role) × (a.role ≡ role)
unfolding copy_agent
copy_agent-eq-ok role none key a h = cc
copy_agent-eq-ok role (some b) key a h = ground (arith, role_eq→eq b.role role)

-- An item that is copied stands under the role that its agent declares.
abbrev StandsUnder : AgentRole × PmqaAgent → Type 0
StandsUnder (key, a) = a.role ≡ key

copied :
    (role : AgentRole) (o : Option PmqaAgent) (item : AgentRole × PmqaAgent)
    → copy_agent role o ≡ ok item
    → StandsUnder item
copied role o (key, a) h = let (e, f) = copy_agent-eq-ok role o key a h in f ∙ sym e

IsRegistered-of_All : (table : Agents) → All StandsUnder table → IsRegistered table
unfolding get_agent
IsRegistered-of_All [] h role a found = cc
IsRegistered-of_All ((key, b) ∷ rest) h role a found = elim (Bool-cases (role_eq key role)) [
  | inl e ↦ same_agent (rw e at found) h.0 ∙ role_eq→eq key role e
  | inr e ↦ IsRegistered-of_All rest h.1 role a (rw e at found)
]
  where
    same_agent : ◌≡◌ {A = Option PmqaAgent} (some b) (some a) → b.role ≡ key → a.role ≡ key
    same_agent p q = cc

ok-injective : {s t : Agents} → ◌≡◌ {A = Result Error Agents} (ok s) (ok t) → s ≡ t
ok-injective e = cc

-- The table that `validate_agents` returns has each agent under the role that it declares.
pub validate_agents-IsRegistered :
    (agents table : Agents) → validate_agents agents ≡ ok table → IsRegistered table
unfolding validate_agents
validate_agents-IsRegistered agents table h =
    let (_, _, h1) = >>=-eq-ok (raise_if (not (has_all agents)) missing_agents) _ h in
    let (_, _, h2) = >>=-eq-ok (raise_if (has_unsupported agents) unsupported_agents) _ h1 in
    let (e, he, h3) =
      >>=-eq-ok (copy_agent AgentRole.explorer (get_agent AgentRole.explorer agents)) _ h2 in
    let (k, hk, h4) =
      >>=-eq-ok (copy_agent AgentRole.knowledge (get_agent AgentRole.knowledge agents)) _ h3 in
    let (v, hv, h5) =
      >>=-eq-ok (copy_agent AgentRole.validator (get_agent AgentRole.validator agents)) _ h4 in
    subst IsRegistered (ok-injective h5) (
      IsRegistered-of_All (e ∷ k ∷ v ∷ [])
        (copied _ _ e he, (copied _ _ k hk, (copied _ _ v hv, tt))))
