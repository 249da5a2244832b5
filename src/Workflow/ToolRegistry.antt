-- ===== src/Workflow/ToolRegistry.antt =====
-- `ToolRegistry` of pmqa/workflow/tools.py: the tools, sorted by their identifiers.
pub mod Lookup
pub mod Order
use pmqa.Base.{
  Result, ok, err, ◌>>=◌, ◌>>◌, ℕ, String, Bool, true, false, ◌&&◌, ◌||◌, Option, none, some, List,
  [], ◌∷◌, ◌++◌, map, str_eq, codes, ltb, ◌==◌, if◌then◌else◌, is_some,
}
use pmqa.Workflow.Errors.{Error, duplicate_tool, tool_not_registered}
use pmqa.Workflow.Tools.{PmqaTool}

-- `a <= b` of two strings, by code points.
unfoldable pub codes_leb : List ℕ → List ℕ → Bool
codes_leb [] bs = true
codes_leb (a ∷ as') [] = false
codes_leb (a ∷ as') (b ∷ bs) = ltb a b || a == b && codes_leb as' bs

-- The tool under an identifier in a dictionary of tools.
unfoldable pub find_tool : String → List PmqaTool → Option PmqaTool
find_tool tool_id [] = none
find_tool tool_id (tool ∷ rest) =
    if str_eq tool.metadata.tool_id tool_id then some tool else find_tool tool_id rest

-- `sorted(registered.items())`
unfoldable pub insert_tool : PmqaTool → List PmqaTool → List PmqaTool
unfolding codes_leb
insert_tool tool [] = tool ∷ []
insert_tool tool (other ∷ rest) =
    if codes_leb (codes tool.metadata.tool_id) (codes other.metadata.tool_id)
    then tool ∷ other ∷ rest
    else other ∷ insert_tool tool rest

unfoldable pub sort_tools : List PmqaTool → List PmqaTool
unfolding insert_tool
sort_tools [] = []
sort_tools (tool ∷ rest) = insert_tool tool (sort_tools rest)

-- The loop of `ToolRegistry.__init__`.
unfoldable pub register : List PmqaTool → List PmqaTool → Result Error (List PmqaTool)
unfolding find_tool
register registered [] = ok registered
register registered (tool ∷ rest) =
    let later = register (registered ++ tool ∷ []) rest in
    if is_some (find_tool tool.metadata.tool_id registered) then err duplicate_tool else later

-- `ToolRegistry.__init__`
unfoldable pub tool_registry : List PmqaTool → Result Error (List PmqaTool)
unfolding register sort_tools
tool_registry tools = do registered ← register [] tools; ok (sort_tools registered)

-- `tool_ids`
abbrev pub tool_ids : List PmqaTool → List String
tool_ids tools = map (λ tool. tool.metadata.tool_id) tools

abbrev pub or_unregistered : Option PmqaTool → Result Error PmqaTool
or_unregistered none = err tool_not_registered
or_unregistered (some tool) = ok tool

-- `get`
unfoldable pub get_tool : List PmqaTool → String → Result Error PmqaTool
unfolding find_tool
get_tool registry tool_id = or_unregistered (find_tool tool_id registry)
