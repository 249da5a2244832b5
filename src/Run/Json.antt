-- ===== src/Run/Json.antt =====
-- `_validate_safe_json`, `_freeze_json` and `_safe_payload_mapping` of pmqa/run/models.py. The counter
-- of the items is passed along. A tree holds no container that is active already.
pub mod Bounds
use pmqa.Base.{
  Result, ok, err, ◌>>=◌, ◌>>◌, raise_if, >>=-eq-ok, Result-cases, raise_if-eq-ok, ℕ, zero, suc,
  ◌+◌, ◌-◌, ◌*◌, ◌/◌, ◌%◌, ◌^◌, ◌≤◌, ◌<◌, String, ◌≡◌, refl, sym, ap, ◌∙◌, ◌≢◌, ◌↔◌, ◌⊎◌, inl, inr,
  Bool, true, false, not, ◌&&◌, ◌||◌, Option, none, some, List, [], ◌∷◌, ◌++◌, map, arith, str_eq,
  eq_iff, codes, ltb, leb, ◌==◌, if◌then◌else◌, ltb-false, leb→le, Bool-cases, Option-cases,
  is_some, length, length-append, All, All-weaken, take, drop, last,
}
use pmqa.Security.{is_prohibited_key, run_payload_prohibited_keys}
use pmqa.Values.{Key, Value, Items, Entries, is_finite}
use pmqa.Workflow.Payload.{freeze}
use pmqa.Run.Identifiers.{
  Error, run_identifier_max_length, payload_too_deep, payload_too_large, string_too_long,
  non_finite_number, runtime_object, non_string_key, invalid_key, prohibited_field, not_an_object,
}

-- `MAX_RUN_PAYLOAD_DEPTH`
abbrev pub max_run_payload_depth : ℕ
max_run_payload_depth = 32

-- `MAX_RUN_PAYLOAD_ITEMS`
abbrev pub max_run_payload_items : ℕ
max_run_payload_items = 4096

-- `MAX_RUN_PAYLOAD_STRING_LENGTH`
abbrev pub max_run_payload_string_length : ℕ
max_run_payload_string_length = 65536

-- The tests at the head of the function: the counter that goes on.
unfoldable pub enter : ℕ → ℕ → Result Error ℕ
enter depth counter = do
  raise_if (ltb max_run_payload_depth depth) payload_too_deep
  raise_if (ltb max_run_payload_items (counter + 1)) payload_too_large
  ok (counter + 1)

abbrev pub all_printable : List ℕ → Bool
all_printable [] = true
all_printable (c ∷ cs) = leb b' ' c && leb c b'~' && all_printable cs

-- `isascii()`, `isprintable()` and `strip()`, which of printable ASCII takes spaces only.
unfoldable pub is_clean_key : List ℕ → Bool
is_clean_key [] = false
is_clean_key (c ∷ cs) =
    leb (length (c ∷ cs)) run_identifier_max_length
    && all_printable (c ∷ cs)
    && not (c == b' ')
    && not (last c cs == b' ')

-- The tests on a key.
unfoldable pub check_key : Key → Result Error (Unit {0})
unfolding is_clean_key
check_key (Key.other id) = err non_string_key
check_key (Key.name key) = do
  raise_if (not (is_clean_key (codes key))) invalid_key
  raise_if (is_prohibited_key key run_payload_prohibited_keys) prohibited_field

-- The tests on a value that holds no other.
unfoldable pub check_leaf : Bool → Error → ℕ → Result Error ℕ
check_leaf true error counter = ok counter
check_leaf false error counter = err error

unfoldable mutual
  unfolding enter check_key check_leaf is_finite

  pub validate_safe_json : ℕ → ℕ → Value → Result Error ℕ
  validate_safe_json depth counter Value.null = enter depth counter
  validate_safe_json depth counter (Value.bool b) = enter depth counter
  validate_safe_json depth counter (Value.int n) = enter depth counter
  validate_safe_json depth counter (Value.float bits) =
      enter depth counter >>= check_leaf (is_finite bits) non_finite_number
  validate_safe_json depth counter (Value.text s) =
      enter depth counter
      >>= check_leaf (leb (length (codes s)) max_run_payload_string_length) string_too_long
  validate_safe_json depth counter (Value.list items) =
      enter depth counter >>= λ n. validate_safe_items (suc depth) n items
  validate_safe_json depth counter (Value.tuple items) =
      enter depth counter >>= λ n. validate_safe_items (suc depth) n items
  validate_safe_json depth counter (Value.dict entries) =
      enter depth counter >>= λ n. validate_safe_entries (suc depth) n entries
  validate_safe_json depth counter (Value.frozen entries) =
      enter depth counter >>= λ n. err runtime_object
  validate_safe_json depth counter (Value.object id) =
      enter depth counter >>= λ n. err runtime_object

  pub validate_safe_items : ℕ → ℕ → Items → Result Error ℕ
  validate_safe_items depth counter Items.nil = ok counter
  validate_safe_items depth counter (Items.cons item rest) =
      validate_safe_json depth counter item >>= λ n. validate_safe_items depth n rest

  pub validate_safe_entries : ℕ → ℕ → Entries → Result Error ℕ
  validate_safe_entries depth counter Entries.end = ok counter
  validate_safe_entries depth counter (Entries.entry key item rest) = check_key key >>= λ _.
      validate_safe_json depth counter item >>= λ n. validate_safe_entries depth n rest

-- `_freeze_json` of a value that has passed: it holds no frozen mapping yet, so that it agrees with
-- `_freeze` of the workflow.
abbrev pub freeze_json : Value → Value
freeze_json value = freeze value

abbrev pub is_dict : Value → Bool
is_dict (Value.dict entries) = true
is_dict _ = false

unfoldable pub safe_payload_mapping : Value → Result Error Value
safe_payload_mapping value = do
  validate_safe_json 0 0 value
  raise_if (not (is_dict value)) not_an_object
  ok (freeze_json value)
