-- ===== src/Workflow/ToolRegistry/Lookup.antt =====
-- What the sorted registry finds is what was registered.
use pmqa.Base.{
  All-weaken, Result, ok, err, >>=-eq-ok, ℕ, String, ◌≡◌, refl, sym, ap, ◌∙◌, inl, inr, true, false,
  some, List, [], ◌∷◌, ◌++◌, arith, str_eq, eq_iff, codes, if◌then◌else◌, Bool-cases, is_some, All,
}
use mathlib.Core.Path.{subst}
use mathlib.Core.List.{append_assoc, append-nil}
use pmqa.Workflow.Errors.{Error, duplicate_tool}
use pmqa.Workflow.Tools.{PmqaTool}
use pmqa.Workflow.ToolRegistry.{
  codes_leb, find_tool, insert_tool, sort_tools, register, tool_registry, get_tool, or_unregistered,
}

codes_leb_refl : (cs : List ℕ) → codes_leb cs cs ≡ true
unfolding codes_leb
codes_leb_refl [] = refl
codes_leb_refl (c ∷ cs) = ground (arith, codes_leb_refl cs)

same_id :
    (t u : PmqaTool) (id : String)
    → str_eq t.metadata.tool_id id ≡ true
    → str_eq u.metadata.tool_id id ≡ true
    → codes_leb (codes t.metadata.tool_id) (codes u.metadata.tool_id) ≡ true
same_id t u id h k =
    let e = (eq_iff t.metadata.tool_id id).0 h in
    let f = (eq_iff u.metadata.tool_id id).0 k in
    subst (λ s. codes_leb (codes t.metadata.tool_id) (codes s) ≡ true) (e ∙ sym f)
      (codes_leb_refl (codes t.metadata.tool_id))

find_tool-insert_tool :
    (id : String) (t : PmqaTool) (tools : List PmqaTool)
    → find_tool id (insert_tool t tools) ≡ find_tool id (t ∷ tools)
unfolding find_tool insert_tool
find_tool-insert_tool id t [] = refl
find_tool-insert_tool id t (u ∷ rest) =
    elim (Bool-cases (codes_leb (codes t.metadata.tool_id) (codes u.metadata.tool_id))) [
      | inl e ↦ rw e refl
      | inr e ↦ ground (arith, find_tool-insert_tool id t rest, same_id t u id)
    ]

find_tool-sort_tools :
    (id : String) (tools : List PmqaTool) → find_tool id (sort_tools tools) ≡ find_tool id tools
unfolding find_tool sort_tools
find_tool-sort_tools id [] = refl
find_tool-sort_tools id (t ∷ rest) =
    find_tool-insert_tool id t (sort_tools rest)
    ∙ ap (λ o. if str_eq t.metadata.tool_id id then some t else o) (find_tool-sort_tools id rest)

str_eq_refl : (s : String) → str_eq s s ≡ true
str_eq_refl s = (eq_iff s s).1 refl

find_tool-append :
    (t : PmqaTool) (before after : List PmqaTool)
    → is_some (find_tool t.metadata.tool_id before) ≡ false
    → find_tool t.metadata.tool_id (before ++ t ∷ after) ≡ some t
unfolding find_tool
find_tool-append t [] after h = rw (str_eq_refl t.metadata.tool_id) refl
find_tool-append t (u ∷ before) after h = ground (arith, find_tool-append t before after)

-- A tool is found in a list.
abbrev IsFoundIn : List PmqaTool → PmqaTool → Type 0
IsFoundIn tools t = find_tool t.metadata.tool_id tools ≡ some t

register-eq-ok :
    (registered tools all : List PmqaTool)
    → register registered tools ≡ ok all
    → (all ≡ registered ++ tools) × All (IsFoundIn all) tools
unfolding register
register-eq-ok registered [] all h = (registered_all h ∙ sym (append-nil registered), tt)
  where
    registered_all :
        ◌≡◌ {A = Result Error (List PmqaTool)} (ok registered) (ok all) → all ≡ registered
    registered_all e = cc
register-eq-ok registered (t ∷ rest) all h =
    elim (Bool-cases (is_some (find_tool t.metadata.tool_id registered))) [
      | inl e ↦ absurd (refused (rw e at h))
      | inr e ↦
          let (eq, found) = register-eq-ok (registered ++ t ∷ []) rest all (rw e at h) in
          let eq' = eq ∙ append_assoc registered (t ∷ []) rest in
          (
            eq',
            (subst (λ ts. IsFoundIn ts t) (sym eq') (find_tool-append t registered rest e), found),
          )
    ]
  where
    refused : ¬ (◌≡◌ {A = Result Error (List PmqaTool)} (err duplicate_tool) (ok all))
    refused e = cc

-- A registry that is built holds every one of its tools under the tool's identifier, and a look-up
-- in it finds what a look-up in the given tools finds.
pub get_tool-tool_registry :
    (tools registry : List PmqaTool)
    → tool_registry tools ≡ ok registry
    → All (λ t. get_tool registry t.metadata.tool_id ≡ ok t) tools
      × ((id : String) → get_tool registry id ≡ get_tool tools id)
unfolding tool_registry get_tool
get_tool-tool_registry tools registry h =
    let (all, h1, h2) = >>=-eq-ok (register [] tools) _ h in
    let (eq, found) = register-eq-ok [] tools all h1 in
    let same : (id : String) → find_tool id registry ≡ find_tool id tools = λ id.
      sym (ap (find_tool id) (registry_eq all h2))
      ∙ find_tool-sort_tools id all
      ∙ ap (find_tool id) eq in
    (
      All-weaken
          (λ t f.
            ap or_unregistered
              (same t.metadata.tool_id ∙ sym (ap (find_tool t.metadata.tool_id) eq) ∙ f))
          tools found,
      λ id. ap or_unregistered (same id),
    )
  where
    registry_eq :
        (all : List PmqaTool)
        → ◌≡◌ {A = Result Error (List PmqaTool)} (ok (sort_tools all)) (ok registry)
        → sort_tools all ≡ registry
    registry_eq all e = cc
