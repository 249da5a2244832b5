-- ===== src/Workflow/Payload/Safe.antt =====
-- The payloads that `validate_payload` accepts.
use pmqa.Base.{Result, ok, >>=-eq-ok, ◌≡◌, refl, ◌↔◌, true, false, arith}
use pmqa.Security.{is_prohibited_key, workflow_state_prohibited_keys}
use pmqa.Values.{
  Key, name, other, Value, null, bool, int, float, text, list, tuple, dict, frozen, object, Items,
  nil, cons, Entries, end, entry, is_finite,
}
use pmqa.Values.Within.{
  Within, here, in_list, in_tuple, in_dict, in_frozen, WithinItems, first_item, later_item,
  WithinEntries, first_entry, later_entry,
}
use pmqa.Workflow.Errors.{Error}
use pmqa.Workflow.Payload.{validate_items, check_entry, validate_payload, validate_entries}

abbrev pub AllowedKeys : Entries → Type 0
AllowedKeys end = Unit
AllowedKeys (entry (name key) item rest) =
    (is_prohibited_key key workflow_state_prohibited_keys ≡ false) × AllowedKeys rest
AllowedKeys (entry (other id) item rest) = ⊥

-- What one value must satisfy, whatever it contains.
abbrev pub IsAllowed : Value → Type 0
IsAllowed (float bits) = is_finite bits ≡ true
IsAllowed (dict entries) = AllowedKeys entries
IsAllowed (frozen entries) = AllowedKeys entries
IsAllowed (object id) = ⊥
IsAllowed _ = Unit

check_entry-AllowedKeys :
    (key : Key) (item : Value) (rest : Entries) (r : Result Error (Unit {0}))
    → check_entry key r ≡ ok tt
    → AllowedKeys rest
    → AllowedKeys (entry key item rest) × (r ≡ ok tt)
unfolding check_entry
check_entry-AllowedKeys (name key) item rest r h k = ground arith
check_entry-AllowedKeys (other id) item rest r h k = cc

mutual
  unfolding validate_payload

  node : (v : Value) → validate_payload v ≡ ok tt → IsAllowed v
  node null h = tt
  node (bool b) h = tt
  node (int n) h = tt
  node (text s) h = tt
  node (float bits) h = ground arith
  node (list items) h = tt
  node (tuple items) h = tt
  node (dict entries) h = node_entries entries h
  node (frozen entries) h = node_entries entries h
  node (object id) h = cc

  node_entries : (es : Entries) → validate_entries es ≡ ok tt → AllowedKeys es
  node_entries end h = tt
  node_entries (entry key item rest) h =
      let (u, p, q) =
        >>=-eq-ok (check_entry key (validate_payload item)) (λ _. validate_entries rest) h in
      (check_entry-AllowedKeys key item rest (validate_payload item) p (node_entries rest q)).0

mutual
  unfolding validate_payload

  inherit :
      {w : Value} (v : Value) → Within w v → validate_payload v ≡ ok tt → validate_payload w ≡ ok tt
  inherit v here h = h
  inherit _ (in_list i) h = inherit_items _ i h
  inherit _ (in_tuple i) h = inherit_items _ i h
  inherit _ (in_dict i) h = inherit_entries _ i h
  inherit _ (in_frozen i) h = inherit_entries _ i h

  inherit_items :
      {w : Value} (xs : Items)
      → WithinItems w xs
      → validate_items xs ≡ ok tt
      → validate_payload w ≡ ok tt
  inherit_items (cons item rest) (first_item i) h =
      inherit _ i (>>=-eq-ok (validate_payload item) (λ _. validate_items rest) h).1
  inherit_items (cons item rest) (later_item i) h =
      inherit_items _ i (>>=-eq-ok (validate_payload item) (λ _. validate_items rest) h).2

  inherit_entries :
      {w : Value} (es : Entries)
      → WithinEntries w es
      → validate_entries es ≡ ok tt
      → validate_payload w ≡ ok tt
  inherit_entries (entry key item rest) (first_entry i) h =
      let (u, p, q) =
        >>=-eq-ok (check_entry key (validate_payload item)) (λ _. validate_entries rest) h in
      inherit _ i
        (check_entry-AllowedKeys key item rest (validate_payload item) p (node_entries rest q)).1
  inherit_entries (entry key item rest) (later_entry i) h =
      inherit_entries _ i
        (>>=-eq-ok (check_entry key (validate_payload item)) (λ _. validate_entries rest) h).2

abbrev pub AllAllowed : Value → Type 0
AllAllowed v = (w : Value) → Within w v → IsAllowed w

AllowedKeys-check_entry :
    (key : Key) (item : Value) (rest : Entries)
    → AllowedKeys (entry key item rest)
    → (check_entry key (ok tt) ≡ ok tt) × AllowedKeys rest
unfolding check_entry
AllowedKeys-check_entry (name key) item rest h = (rw h.0, h.1)
AllowedKeys-check_entry (other id) item rest h = absurd h

mutual
  unfolding validate_payload

  accept : (v : Value) → AllAllowed v → validate_payload v ≡ ok tt
  accept null h = refl
  accept (bool b) h = refl
  accept (int n) h = refl
  accept (text s) h = refl
  accept (float bits) h = rw (h _ here)
  accept (list items) h = accept_items items (λ w i. h w (in_list i))
  accept (tuple items) h = accept_items items (λ w i. h w (in_tuple i))
  accept (dict entries) h = accept_entries entries (h _ here) (λ w i. h w (in_dict i))
  accept (frozen entries) h = accept_entries entries (h _ here) (λ w i. h w (in_frozen i))
  accept (object id) h = absurd (h _ here)

  accept_items :
      (xs : Items) → ((w : Value) → WithinItems w xs → IsAllowed w) → validate_items xs ≡ ok tt
  accept_items nil h = refl
  accept_items (cons item rest) h =
      rw (accept item (λ w i. h w (first_item i))) (accept_items rest (λ w i. h w (later_item i)))

  accept_entries :
      (es : Entries)
      → AllowedKeys es
      → ((w : Value) → WithinEntries w es → IsAllowed w)
      → validate_entries es ≡ ok tt
  accept_entries end k h = refl
  accept_entries (entry key item rest) k h =
      let (e, k') = AllowedKeys-check_entry key item rest k in
      rw (accept item (λ w i. h w (first_entry i)))
        (rw e (accept_entries rest k' (λ w i. h w (later_entry i))))

-- A payload is accepted exactly when no value at any depth of it is a runtime object, a float that
-- is not finite, or a mapping with a key that is not a string or is prohibited.
pub validate_payload_iff : (v : Value) → (validate_payload v ≡ ok tt) ↔ AllAllowed v
validate_payload_iff v = (λ h w i. node w (inherit v i h), accept v)
