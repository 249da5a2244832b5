-- ===== src/Workflow/ToolRegistry/Order.antt =====
-- The order of the registry.
use pmqa.Base.{
  Result, ok, >>=-eq-ok, ℕ, ◌≡◌, refl, ◌⊎◌, inl, inr, Bool, true, false, List, [], ◌∷◌, arith,
  codes, Bool-cases,
}
use mathlib.Core.Path.{subst}
use pmqa.Workflow.Errors.{Error}
use pmqa.Workflow.Tools.{PmqaTool}
use pmqa.Workflow.ToolRegistry.{codes_leb, insert_tool, sort_tools, register, tool_registry}

codes_leb-total : (as' bs : List ℕ) → codes_leb as' bs ≡ false → codes_leb bs as' ≡ true
unfolding codes_leb
codes_leb-total [] bs h = cc
codes_leb-total (a ∷ as') [] h = refl
codes_leb-total (a ∷ as') (b ∷ bs) h = ground (arith, codes_leb-total as' bs)

abbrev precedes_tool : PmqaTool → PmqaTool → Bool
precedes_tool t u = codes_leb (codes t.metadata.tool_id) (codes u.metadata.tool_id)

-- No identifier is followed by a smaller one.
abbrev pub IsSorted : List PmqaTool → Type 0
IsSorted [] = Unit
IsSorted (t ∷ []) = Unit
IsSorted (t ∷ u ∷ rest) = (precedes_tool t u ≡ true) × IsSorted (u ∷ rest)

insert_tool-IsSorted :
    (t : PmqaTool) (tools : List PmqaTool) → IsSorted tools → IsSorted (insert_tool t tools)
unfolding insert_tool
insert_tool-IsSorted t [] h = tt
insert_tool-IsSorted t (u ∷ []) h = elim (Bool-cases (precedes_tool t u)) [
  | inl e ↦ rw e (e, tt)
  | inr e ↦ rw e (codes_leb-total (codes t.metadata.tool_id) (codes u.metadata.tool_id) e, tt)
]
insert_tool-IsSorted t (u ∷ v ∷ rest) h = elim (Bool-cases (precedes_tool t u)) [
  | inl e ↦ rw e (e, h)
  | inr e ↦ rw e (
      behind (codes_leb-total (codes t.metadata.tool_id) (codes u.metadata.tool_id) e)
        (Bool-cases (precedes_tool t v)) (insert_tool-IsSorted t (v ∷ rest) h.1))
]
  where
    behind :
        precedes_tool u t ≡ true
        → (precedes_tool t v ≡ true) ⊎ (precedes_tool t v ≡ false)
        → IsSorted (insert_tool t (v ∷ rest))
        → IsSorted (u ∷ insert_tool t (v ∷ rest))
    behind k (inl e) s = rw e (k, rw e at s)
    behind k (inr e) s = rw e (h.0, rw e at s)

sort_tools-IsSorted : (tools : List PmqaTool) → IsSorted (sort_tools tools)
unfolding sort_tools
sort_tools-IsSorted [] = tt
sort_tools-IsSorted (t ∷ rest) = insert_tool-IsSorted t (sort_tools rest) (sort_tools-IsSorted rest)

-- A registry that is built is in the order of the identifiers.
pub tool_registry-IsSorted :
    (tools registry : List PmqaTool) → tool_registry tools ≡ ok registry → IsSorted registry
unfolding tool_registry
tool_registry-IsSorted tools registry h =
    let (all, _, e) = >>=-eq-ok (register [] tools) _ h in
    subst IsSorted (registry_eq all e) (sort_tools-IsSorted all)
  where
    registry_eq :
        (all : List PmqaTool)
        → ◌≡◌ {A = Result Error (List PmqaTool)} (ok (sort_tools all)) (ok registry)
        → sort_tools all ≡ registry
    registry_eq all e = cc
