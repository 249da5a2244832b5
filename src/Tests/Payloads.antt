-- ===== src/Tests/Payloads.antt =====
-- A payload at the boundary.
use pmqa.Base.{ok, ◌≤◌, ◌≡◌, ◌↔◌}
use pmqa.Values.{Value, Items, Entries, Key, ℤ}
use pmqa.Run.Json.{validate_safe_json}
use pmqa.Run.Json.Bounds.{IsSafe, size, validate_safe_json_iff}
use pmqa.Run.Json.{max_run_payload_items}

abbrev payload : Value
payload = Value.dict (
    Entries.entry (Key.name "steps")
      (Value.list (Items.cons (Value.int (ℤ.pos 1)) (Items.cons (Value.text "open") Items.nil)))
      Entries.end)

validate_safe_json_iff_example :
    (validate_safe_json 0 0 payload ≡ ok 4)
    ↔ (IsSafe 0 payload × (4 ≡ size payload) × (size payload ≤ max_run_payload_items))
validate_safe_json_iff_example = validate_safe_json_iff payload 4
