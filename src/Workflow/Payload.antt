-- ===== src/Workflow/Payload.antt =====
-- `_validate_payload` and `_freeze` of pmqa/workflow/models.py.
pub mod Safe
pub mod Frozen
use pmqa.Base.{Result, ok, err, ◌>>◌, List, [], ◌∷◌, if◌then◌else◌}
use pmqa.Security.{is_prohibited_key, workflow_state_prohibited_keys}
use pmqa.Values.{
  Key, name, other, Value, null, bool, int, float, text, list, tuple, dict, frozen, object, Items,
  nil, cons, Entries, end, entry, is_finite,
}
use pmqa.Workflow.Errors.{
  Error, non_finite_number, non_string_key, prohibited_field, runtime_object,
}

-- The two tests on a key, and then the item.
unfoldable pub check_entry : Key → Result Error (Unit {0}) → Result Error (Unit {0})
check_entry (other id) item = err non_string_key
check_entry (name key) item =
    if is_prohibited_key key workflow_state_prohibited_keys then err prohibited_field else item

unfoldable mutual
  unfolding is_finite check_entry

  pub validate_payload : Value → Result Error (Unit {0})
  validate_payload null = ok tt
  validate_payload (bool b) = ok tt
  validate_payload (int n) = ok tt
  validate_payload (text s) = ok tt
  validate_payload (float bits) = if is_finite bits then ok tt else err non_finite_number
  validate_payload (list items) = validate_items items
  validate_payload (tuple items) = validate_items items
  validate_payload (dict entries) = validate_entries entries
  validate_payload (frozen entries) = validate_entries entries
  validate_payload (object id) = err runtime_object

  pub validate_items : Items → Result Error (Unit {0})
  validate_items nil = ok tt
  validate_items (cons item rest) = validate_payload item >> validate_items rest

  pub validate_entries : Entries → Result Error (Unit {0})
  validate_entries end = ok tt
  validate_entries (entry key item rest) =
      check_entry key (validate_payload item) >> validate_entries rest

unfoldable mutual
  pub freeze : Value → Value
  freeze null = null
  freeze (bool b) = bool b
  freeze (int n) = int n
  freeze (float bits) = float bits
  freeze (text s) = text s
  freeze (list items) = tuple (freeze_items items)
  freeze (tuple items) = tuple (freeze_items items)
  freeze (dict entries) = frozen (freeze_entries entries)
  freeze (frozen entries) = frozen (freeze_entries entries)
  freeze (object id) = object id

  pub freeze_items : Items → Items
  freeze_items nil = nil
  freeze_items (cons item rest) = cons (freeze item) (freeze_items rest)

  pub freeze_entries : Entries → Entries
  freeze_entries end = end
  freeze_entries (entry key item rest) = entry key (freeze item) (freeze_entries rest)

-- `_validate_payload` on a tuple of values.
unfoldable pub validate_all : List Value → Result Error (Unit {0})
validate_all [] = ok tt
validate_all (item ∷ rest) = validate_payload item >> validate_all rest
