-- ===== src/Workflow/ToolIds.antt =====
-- The identifiers of pmqa/workflow/tools.py, by code points.
pub mod Segments
use pmqa.Base.{
  Result, raise_if, ℕ, String, Bool, true, false, not, ◌&&◌, ◌||◌, List, [], ◌∷◌, codes, leb, ◌==◌,
  if◌then◌else◌,
}
use pmqa.Workflow.Errors.{Error, invalid_tool_id, namespace_mismatch}
use pmqa.Security.{codes_eq}

pub data ToolCategory : Type 0 where
  playwright reasoning product_memory filesystem validation utility : ToolCategory

-- `[a-z]`
abbrev pub is_letter : ℕ → Bool
is_letter c = leb b'a' c && leb c b'z'

-- `[a-z0-9_]`
abbrev pub is_word : ℕ → Bool
is_word c = is_letter c || leb b'0' c && leb c b'9' || c == b'_'

-- `_TOOL_ID_PATTERN.fullmatch`, from a place in the identifier on: whether a dot has been read, and
-- whether the place is inside a segment.
unfoldable pub matches : Bool → Bool → List ℕ → Bool
matches dotted inside [] = inside && dotted
matches dotted false (c ∷ cs) = let rest = matches dotted true cs in is_letter c && rest
matches dotted true (c ∷ cs) =
    let next = matches true false cs in
    let rest = matches dotted true cs in if c == b'.' then next else is_word c && rest

unfoldable pub is_tool_id : List ℕ → Bool
unfolding matches
is_tool_id value = matches false false value

-- `_validate_tool_id`
unfoldable pub validate_tool_id : String → Result Error (Unit {0})
unfolding is_tool_id
validate_tool_id tool_id = raise_if (not (is_tool_id (codes tool_id))) invalid_tool_id

-- `_CATEGORY_NAMESPACES`
abbrev pub category_namespace : ToolCategory → String
category_namespace ToolCategory.playwright = "playwright"
category_namespace ToolCategory.reasoning = "reasoning"
category_namespace ToolCategory.product_memory = "memory"
category_namespace ToolCategory.filesystem = "filesystem"
category_namespace ToolCategory.validation = "validation"
category_namespace ToolCategory.utility = "utility"

-- `tool_id.split(".", 1)[0]`
unfoldable pub namespace : List ℕ → List ℕ
namespace [] = []
namespace (c ∷ cs) = if c == b'.' then [] else c ∷ namespace cs

-- `_validate_tool_category`
unfoldable pub validate_tool_category : String → ToolCategory → Result Error (Unit {0})
unfolding namespace
validate_tool_category tool_id category =
    raise_if (not (codes_eq (namespace (codes tool_id)) (codes (category_namespace category))))
      namespace_mismatch
