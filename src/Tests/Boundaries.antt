-- ===== src/Tests/Boundaries.antt =====
-- The boundary policies on concrete names and payloads.
use pmqa.Base.{ok, ◌≡◌, refl, ◌↔◌, true, false, codes}
use pmqa.Security.{
  is_plain, casefold_char, casefold, sub_runs, strip_left, strip_right, normalize_boundary_key,
  in_policy, is_prohibited_key, workflow_state_prohibited_keys,
}
use pmqa.Values.{Value, Key, Items, Entries}
use pmqa.Values.Within.{Within, WithinEntries}
use pmqa.Workflow.Payload.{validate_payload, freeze}
use pmqa.Security.Normal.{
  IsNormal, normalize_boundary_key-IsNormal, normalize_boundary_key_iff,
  normalize_boundary_key_idem,
}
use pmqa.Workflow.Payload.Safe.{AllAllowed, validate_payload_iff}
use pmqa.Workflow.Payload.Frozen.{
  freeze_idem, validate_payload-freeze, freeze-IsImmutable, IsImmutable,
}

api_key_prohibited : is_prohibited_key "  API--Key" workflow_state_prohibited_keys ≡ true
unfolding is_prohibited_key is_plain casefold_char casefold sub_runs strip_left strip_right
    normalize_boundary_key in_policy
api_key_prohibited = refl

path_allowed : is_prohibited_key "path" workflow_state_prohibited_keys ≡ false
unfolding is_prohibited_key is_plain casefold_char casefold sub_runs strip_left strip_right
    normalize_boundary_key in_policy
path_allowed = refl

normalize_boundary_key-IsNormal_example : IsNormal (normalize_boundary_key (codes "  API--Key"))
normalize_boundary_key-IsNormal_example = normalize_boundary_key-IsNormal (codes "  API--Key")

normalize_boundary_key_iff_example :
    (normalize_boundary_key (codes "api_key") ≡ codes "api_key") ↔ IsNormal (codes "api_key")
normalize_boundary_key_iff_example = normalize_boundary_key_iff (codes "api_key")

normalize_boundary_key_idem_example :
    normalize_boundary_key (normalize_boundary_key (codes "API Key"))
    ≡ normalize_boundary_key (codes "API Key")
normalize_boundary_key_idem_example = normalize_boundary_key_idem (codes "API Key")

-- A payload with a list in a mapping.
abbrev listing : Value
listing = Value.dict (
    Entries.entry (Key.name "paths") (Value.list (Items.cons (Value.text "/login") Items.nil))
      Entries.end)

validate_payload_iff_example : (validate_payload listing ≡ ok tt) ↔ AllAllowed listing
validate_payload_iff_example = validate_payload_iff listing

validate_payload-freeze_example : validate_payload (freeze listing) ≡ validate_payload listing
validate_payload-freeze_example = validate_payload-freeze listing

freeze_idem_example : freeze (freeze listing) ≡ freeze listing
freeze_idem_example = freeze_idem listing

abbrev paths : Value
paths = Value.list (Items.cons (Value.text "/login") Items.nil)

paths-Within : Within (freeze paths) (freeze listing)
unfolding freeze
paths-Within = Within.in_frozen (WithinEntries.first_entry Within.here)

freeze-IsImmutable_example : IsImmutable (freeze paths)
freeze-IsImmutable_example = freeze-IsImmutable listing (freeze paths) paths-Within
