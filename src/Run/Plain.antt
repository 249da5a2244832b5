-- ===== src/Run/Plain.antt =====
-- `_is_plain_json` and `_plain_json_equal` of pmqa/run/models.py, and the JSON form of a payload.
use pmqa.Base.{
  ℕ, suc, ◌+◌, ◌%◌, ◌^◌, String, Bool, true, false, not, ◌&&◌, ◌||◌, Option, none, some, str_eq,
  codes, ltb, leb, ◌==◌, if◌then◌else◌, is_some, length,
}
use pmqa.Values.{Key, name, other, Value, Items, Entries, ℤ, pos, negsuc, is_finite, get_entry}
use pmqa.Run.Json.{max_run_payload_depth, max_run_payload_items, max_run_payload_string_length}

-- What the counter is after the tests at the head of the function, unless they fail.
unfoldable pub enter_plain : ℕ → ℕ → Option ℕ
enter_plain depth counter =
    if ltb max_run_payload_depth depth || ltb max_run_payload_items (counter + 1)
    then none
    else some (counter + 1)

abbrev pub plain_if : Bool → Option ℕ → Option ℕ
plain_if true count = count
plain_if false count = none

abbrev pub and_then : Option ℕ → (ℕ → Option ℕ) → Option ℕ
and_then none rest = none
and_then (some n) rest = rest n

abbrev pub is_name : Key → Bool
is_name (name s) = true
is_name (other id) = false

-- The number of items counted so far, or nothing where the value is not plain.
unfoldable mutual
  unfolding enter_plain is_finite

  pub count_plain : ℕ → ℕ → Value → Option ℕ
  count_plain depth counter Value.null = enter_plain depth counter
  count_plain depth counter (Value.bool b) = enter_plain depth counter
  count_plain depth counter (Value.int n) = enter_plain depth counter
  count_plain depth counter (Value.text s) =
      plain_if (leb (length (codes s)) max_run_payload_string_length) (enter_plain depth counter)
  count_plain depth counter (Value.float bits) =
      plain_if (is_finite bits) (enter_plain depth counter)
  count_plain depth counter (Value.list items) =
      and_then (enter_plain depth counter) (λ n. count_plain_items (suc depth) n items)
  count_plain depth counter (Value.dict entries) =
      and_then (enter_plain depth counter) (λ n. count_plain_entries (suc depth) n entries)
  count_plain depth counter _ = none

  pub count_plain_items : ℕ → ℕ → Items → Option ℕ
  count_plain_items depth counter Items.nil = some counter
  count_plain_items depth counter (Items.cons item rest) =
      and_then (count_plain depth counter item) (λ n. count_plain_items depth n rest)

  pub count_plain_entries : ℕ → ℕ → Entries → Option ℕ
  count_plain_entries depth counter Entries.end = some counter
  count_plain_entries depth counter (Entries.entry key item rest) =
      plain_if (is_name key)
        (and_then (count_plain depth counter item) (λ n. count_plain_entries depth n rest))

unfoldable pub is_plain_json : Value → Bool
is_plain_json value = is_some (count_plain 0 0 value)

abbrev pub int_eq : ℤ → ℤ → Bool
int_eq (pos m) (pos n) = m == n
int_eq (negsuc m) (negsuc n) = m == n
int_eq _ _ = false

abbrev pub bool_eq : Bool → Bool → Bool
bool_eq true b = b
bool_eq false b = not b

-- `==` of two finite floats, by their bits: the two zeros are equal.
abbrev pub float_eq : ℕ → ℕ → Bool
float_eq a b = a == b || a % 2 ^ 63 == 0 && b % 2 ^ 63 == 0

unfoldable pub has_key : String → Entries → Bool
has_key key Entries.end = false
has_key key (Entries.entry (name k) item rest) = str_eq k key || has_key key rest
has_key key (Entries.entry (other id) item rest) = has_key key rest

-- The keys of a dictionary are keys of another.
unfoldable pub has_keys : Entries → Entries → Bool
unfolding has_key
has_keys Entries.end entries = true
has_keys (Entries.entry (name k) item rest) entries = has_key k entries && has_keys rest entries
has_keys (Entries.entry (other id) item rest) entries = false

abbrev pub find_entry : Key → Entries → Option Value
find_entry (name key) entries = get_entry key entries
find_entry (other id) entries = none

abbrev pub is_found : (Value → Bool) → Option Value → Bool
is_found test none = false
is_found test (some found) = test found

-- `_plain_json_equal` of two plain trees.
unfoldable mutual
  unfolding get_entry has_keys

  pub plain_json_equal : Value → Value → Bool
  plain_json_equal Value.null Value.null = true
  plain_json_equal (Value.bool a) (Value.bool b) = bool_eq a b
  plain_json_equal (Value.int a) (Value.int b) = int_eq a b
  plain_json_equal (Value.float a) (Value.float b) = float_eq a b
  plain_json_equal (Value.text a) (Value.text b) = str_eq a b
  plain_json_equal (Value.list items) canonical = equal_items items canonical
  plain_json_equal (Value.dict entries) (Value.dict others) =
      has_keys entries others && has_keys others entries && equal_entries entries others
  plain_json_equal _ _ = false

  pub equal_items : Items → Value → Bool
  equal_items Items.nil (Value.list Items.nil) = true
  equal_items (Items.cons item rest) (Value.list (Items.cons found others)) =
      plain_json_equal item found && equal_items rest (Value.list others)
  equal_items _ _ = false

  pub equal_entries : Entries → Entries → Bool
  equal_entries Entries.end others = true
  equal_entries (Entries.entry key item rest) others =
      is_found (λ found. plain_json_equal item found) (find_entry key others)
      && equal_entries rest others

-- The JSON form of a value: `model_dump(mode="json")` makes lists of tuples and plain dictionaries of
-- frozen ones.
unfoldable mutual
  pub to_json : Value → Value
  to_json Value.null = Value.null
  to_json (Value.bool b) = Value.bool b
  to_json (Value.int n) = Value.int n
  to_json (Value.float bits) = Value.float bits
  to_json (Value.text s) = Value.text s
  to_json (Value.list items) = Value.list (items_to_json items)
  to_json (Value.tuple items) = Value.list (items_to_json items)
  to_json (Value.dict entries) = Value.dict (entries_to_json entries)
  to_json (Value.frozen entries) = Value.dict (entries_to_json entries)
  to_json (Value.object id) = Value.object id

  pub items_to_json : Items → Items
  items_to_json Items.nil = Items.nil
  items_to_json (Items.cons item rest) = Items.cons (to_json item) (items_to_json rest)

  pub entries_to_json : Entries → Entries
  entries_to_json Entries.end = Entries.end
  entries_to_json (Entries.entry key item rest) =
      Entries.entry key (to_json item) (entries_to_json rest)
