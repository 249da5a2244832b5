-- ===== src/Workflow/Payload/Frozen.antt =====
-- What `freeze` makes of a payload.
use pmqa.Base.{Result, ok, err, ◌>>◌, ◌≡◌, refl, ap, List, [], ◌∷◌, ◌++◌, map}
use pmqa.Values.{
  other, name, is_string_keyed, is_mapping, Value, null, bool, int, float, text, list, tuple, dict,
  frozen, object, Items, nil, cons, Entries, end, entry,
}
use pmqa.Values.Within.{
  Within, here, in_tuple, in_frozen, WithinItems, first_item, later_item, WithinEntries,
  first_entry, later_entry,
}
use pmqa.Workflow.Errors.{Error}
use pmqa.Workflow.Payload.{
  validate_payload, validate_items, validate_entries, validate_all, freeze, freeze_items,
  freeze_entries,
}

mutual
  unfolding freeze

  freeze-freeze : (v : Value) → freeze (freeze v) ≡ freeze v
  freeze-freeze null = refl
  freeze-freeze (bool b) = refl
  freeze-freeze (int n) = refl
  freeze-freeze (float bits) = refl
  freeze-freeze (text s) = refl
  freeze-freeze (list items) = ap tuple (freeze-freeze_items items)
  freeze-freeze (tuple items) = ap tuple (freeze-freeze_items items)
  freeze-freeze (dict entries) = ap frozen (freeze-freeze_entries entries)
  freeze-freeze (frozen entries) = ap frozen (freeze-freeze_entries entries)
  freeze-freeze (object id) = refl

  freeze-freeze_items : (xs : Items) → freeze_items (freeze_items xs) ≡ freeze_items xs
  freeze-freeze_items nil = refl
  freeze-freeze_items (cons item rest) = cc (freeze-freeze item, freeze-freeze_items rest)

  freeze-freeze_entries : (es : Entries) → freeze_entries (freeze_entries es) ≡ freeze_entries es
  freeze-freeze_entries end = refl
  freeze-freeze_entries (entry key item rest) = cc (freeze-freeze item, freeze-freeze_entries rest)

-- Freezing what is frozen changes nothing.
pub freeze_idem : (v : Value) → freeze (freeze v) ≡ freeze v
freeze_idem v = freeze-freeze v

mutual
  unfolding validate_payload freeze

  same : (v : Value) → validate_payload (freeze v) ≡ validate_payload v
  same null = refl
  same (bool b) = refl
  same (int n) = refl
  same (float bits) = refl
  same (text s) = refl
  same (list items) = same_items items
  same (tuple items) = same_items items
  same (dict entries) = same_entries entries
  same (frozen entries) = same_entries entries
  same (object id) = refl

  same_items : (xs : Items) → validate_items (freeze_items xs) ≡ validate_items xs
  same_items nil = refl
  same_items (cons item rest) = rw (same item, same_items rest)

  same_entries : (es : Entries) → validate_entries (freeze_entries es) ≡ validate_entries es
  same_entries end = refl
  same_entries (entry key item rest) = rw (same item, same_entries rest)

-- Freezing changes nothing for the validation of a payload.
pub validate_payload-freeze : (v : Value) → validate_payload (freeze v) ≡ validate_payload v
validate_payload-freeze v = same v

-- Neither a list nor a plain dictionary.
abbrev pub IsImmutable : Value → Type 0
IsImmutable (list items) = ⊥
IsImmutable (dict entries) = ⊥
IsImmutable _ = Unit

mutual
  unfolding freeze

  immutable : {w : Value} (v : Value) → Within w (freeze v) → IsImmutable w
  immutable null here = tt
  immutable (bool b) here = tt
  immutable (int n) here = tt
  immutable (float bits) here = tt
  immutable (text s) here = tt
  immutable (object id) here = tt
  immutable (list items) here = tt
  immutable (list items) (in_tuple i) = IsImmutable-items items i
  immutable (tuple items) here = tt
  immutable (tuple items) (in_tuple i) = IsImmutable-items items i
  immutable (dict entries) here = tt
  immutable (dict entries) (in_frozen i) = IsImmutable-entries entries i
  immutable (frozen entries) here = tt
  immutable (frozen entries) (in_frozen i) = IsImmutable-entries entries i

  IsImmutable-items : {w : Value} (xs : Items) → WithinItems w (freeze_items xs) → IsImmutable w
  IsImmutable-items nil i = elim i [ ]
  IsImmutable-items (cons item rest) (first_item i) = immutable item i
  IsImmutable-items (cons item rest) (later_item i) = IsImmutable-items rest i

  IsImmutable-entries :
      {w : Value} (es : Entries) → WithinEntries w (freeze_entries es) → IsImmutable w
  IsImmutable-entries end i = elim i [ ]
  IsImmutable-entries (entry key item rest) (first_entry i) = immutable item i
  IsImmutable-entries (entry key item rest) (later_entry i) = IsImmutable-entries rest i

-- At no depth of a frozen payload is there a list or a plain dictionary.
pub freeze-IsImmutable : (v w : Value) → Within w (freeze v) → IsImmutable w
freeze-IsImmutable v w i = immutable v i

pub validate_all-map-freeze : (vs : List Value) → validate_all (map freeze vs) ≡ validate_all vs
unfolding validate_all
validate_all-map-freeze [] = refl
validate_all-map-freeze (v ∷ vs) = rw (validate_payload-freeze v, validate_all-map-freeze vs)

pub map-freeze_idem : (vs : List Value) → map freeze (map freeze vs) ≡ map freeze vs
map-freeze_idem [] = refl
map-freeze_idem (v ∷ vs) = cc (freeze_idem v, map-freeze_idem vs)

pub validate_all-append :
    (vs ws : List Value) → validate_all (vs ++ ws) ≡ (validate_all vs >> validate_all ws)
unfolding validate_all
validate_all-append [] ws = refl
validate_all-append (v ∷ vs) ws =
    rw (validate_all-append vs ws) (assoc (validate_payload v) (validate_all vs))
  where
    assoc :
        (m n : Result Error (Unit {0}))
        → (m >> (n >> validate_all ws)) ≡ ((m >> n) >> validate_all ws)
    assoc (ok u) n = refl
    assoc (err e) n = refl

is_string_keyed-freeze_entries :
    (es : Entries) → is_string_keyed (freeze_entries es) ≡ is_string_keyed es
unfolding is_string_keyed freeze
is_string_keyed-freeze_entries end = refl
is_string_keyed-freeze_entries (entry (name key) item rest) = is_string_keyed-freeze_entries rest
is_string_keyed-freeze_entries (entry (other id) item rest) = refl

pub is_mapping-freeze : (v : Value) → is_mapping (freeze v) ≡ is_mapping v
unfolding is_mapping freeze
is_mapping-freeze (dict es) = is_string_keyed-freeze_entries es
is_mapping-freeze (frozen es) = is_string_keyed-freeze_entries es
is_mapping-freeze (list xs) = refl
is_mapping-freeze _ = refl
