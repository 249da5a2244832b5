-- ===== src/Run/Json/Bounds.antt =====
-- What the payloads of runs are bounded by.
use pmqa.Base.{
  ok, err, ◌>>=◌, >>=-eq-ok, ℕ, suc, ◌+◌, ◌≤◌, ◌≡◌, refl, sym, ap, ◌∙◌, ◌↔◌, Bool, true, false,
  arith, codes, leb, le→leb, leb→le, length,
}
use pmqa.Security.{is_prohibited_key, run_payload_prohibited_keys}
use pmqa.Values.{Key, Value, Items, Entries, is_finite}
use pmqa.Run.Identifiers.{runtime_object, Error}
use mathlib.Core.Path.{subst}
use pmqa.Run.Json.{
  validate_safe_items, validate_safe_entries, validate_safe_json, max_run_payload_depth,
  max_run_payload_items, max_run_payload_string_length, enter, check_key, check_leaf, is_clean_key,
}

-- The values in a payload, itself included.
unfoldable mutual
  pub size : Value → ℕ
  size (Value.list items) = suc (size_items items)
  size (Value.tuple items) = suc (size_items items)
  size (Value.dict entries) = suc (size_entries entries)
  size (Value.frozen entries) = suc (size_entries entries)
  size _ = 1

  pub size_items : Items → ℕ
  size_items Items.nil = 0
  size_items (Items.cons item rest) = size item + size_items rest

  pub size_entries : Entries → ℕ
  size_entries Entries.end = 0
  size_entries (Entries.entry key item rest) = size item + size_entries rest

abbrev pub IsSafeKey : Key → Type 0
IsSafeKey (Key.name key) =
    (is_clean_key (codes key) ≡ true) × (is_prohibited_key key run_payload_prohibited_keys ≡ false)
IsSafeKey (Key.other id) = ⊥

-- A payload that stands so deep is within the limit of depth, and each value in it is plain data
-- under safe keys.
unfoldable mutual
  pub IsSafe : ℕ → Value → Type 0
  IsSafe depth (Value.float bits) = (depth ≤ max_run_payload_depth) × (is_finite bits ≡ true)
  IsSafe depth (Value.text s) =
      (depth ≤ max_run_payload_depth) × (length (codes s) ≤ max_run_payload_string_length)
  IsSafe depth (Value.list items) = (depth ≤ max_run_payload_depth) × AreSafeItems (suc depth) items
  IsSafe depth (Value.tuple items) =
      (depth ≤ max_run_payload_depth) × AreSafeItems (suc depth) items
  IsSafe depth (Value.dict entries) =
      (depth ≤ max_run_payload_depth) × AreSafeEntries (suc depth) entries
  IsSafe depth (Value.frozen entries) = ⊥
  IsSafe depth (Value.object id) = ⊥
  IsSafe depth _ = depth ≤ max_run_payload_depth

  pub AreSafeItems : ℕ → Items → Type 0
  AreSafeItems depth Items.nil = Unit
  AreSafeItems depth (Items.cons item rest) = IsSafe depth item × AreSafeItems depth rest

  pub AreSafeEntries : ℕ → Entries → Type 0
  AreSafeEntries depth Entries.end = Unit
  AreSafeEntries depth (Entries.entry key item rest) =
      IsSafeKey key × IsSafe depth item × AreSafeEntries depth rest

enter-eq-ok :
    (depth counter n : ℕ)
    → enter depth counter ≡ ok n
    → (depth ≤ max_run_payload_depth) × (n ≡ counter + 1) × (n ≤ max_run_payload_items)
unfolding enter
enter-eq-ok depth counter n h = ground arith

enter_of :
    (depth counter : ℕ)
    → depth ≤ max_run_payload_depth
    → counter + 1 ≤ max_run_payload_items
    → enter depth counter ≡ ok (counter + 1)
unfolding enter
enter_of depth counter h k = ground arith

check_leaf-eq-ok : (b : Bool) (e : Error) (m n : ℕ) → check_leaf b e m ≡ ok n → (b ≡ true) × (m ≡ n)
unfolding check_leaf
check_leaf-eq-ok true e m n h = (refl, cc)
check_leaf-eq-ok false e m n h = cc

check_key-IsSafeKey : (key : Key) → check_key key ≡ ok tt → IsSafeKey key
unfolding check_key
check_key-IsSafeKey (Key.other id) h = cc
check_key-IsSafeKey (Key.name key) h = ground arith

check_key_of : (key : Key) → IsSafeKey key → check_key key ≡ ok tt
unfolding check_key
check_key_of (Key.other id) h = absurd h
check_key_of (Key.name key) h = ground arith

enter_leaf :
    (depth counter n : ℕ) (b : Bool) (e : Error)
    → (enter depth counter >>= check_leaf b e) ≡ ok n
    → (depth ≤ max_run_payload_depth) × (b ≡ true) × (n ≡ counter + 1) × (n ≤ max_run_payload_items)
enter_leaf depth counter n b e h =
    let (m, h1, h2) = >>=-eq-ok (enter depth counter) (check_leaf b e) h in
    let (shallow, next, few) = enter-eq-ok depth counter m h1 in
    let (holds, same) = check_leaf-eq-ok b e m n h2 in
    (shallow, holds, sym same ∙ next, subst (λ k. k ≤ max_run_payload_items) same few)

leaf_of :
    (depth counter : ℕ) (b : Bool) (e : Error)
    → depth ≤ max_run_payload_depth
    → counter + 1 ≤ max_run_payload_items
    → b ≡ true
    → (enter depth counter >>= check_leaf b e) ≡ ok (counter + 1)
unfolding check_leaf
leaf_of depth counter b e h k holds = rw (enter_of depth counter h k, holds) refl

abbrev Counted : ℕ → ℕ → ℕ → Type 0
Counted counter count n = (n ≡ counter + count) × (n ≤ max_run_payload_items)

no_object : (depth counter n : ℕ) → ¬ ((enter depth counter >>= λ m. err runtime_object) ≡ ok n)
no_object depth counter n h = let (_, _, k) = >>=-eq-ok (enter depth counter) _ h in cc k

mutual
  unfolding validate_safe_json size IsSafe

  sound :
      (depth counter n : ℕ) (v : Value)
      → validate_safe_json depth counter v ≡ ok n
      → IsSafe depth v × Counted counter (size v) n
  sound d c n Value.null h = let (a, next, few) = enter-eq-ok d c n h in (a, (next, few))
  sound d c n (Value.bool b) h = let (a, next, few) = enter-eq-ok d c n h in (a, (next, few))
  sound d c n (Value.int i) h = let (a, next, few) = enter-eq-ok d c n h in (a, (next, few))
  sound d c n (Value.float bits) h =
      let (a, b, next, few) = enter_leaf d c n (is_finite bits) _ h in ((a, b), (next, few))
  sound d c n (Value.text s) h =
      let (a, b, next, few) =
        enter_leaf d c n (leb (length (codes s)) max_run_payload_string_length) _ h in
      ((a, leb→le _ _ b), (next, few))
  sound d c n (Value.list items) h =
      let (m, h1, h2) = >>=-eq-ok (enter d c) _ h in
      let (a, next, few) = enter-eq-ok d c m h1 in
      let (safe, (total, k)) = sound_items (suc d) m n items few h2 in
      ((a, safe), (omega (arith, next, total), k))
  sound d c n (Value.tuple items) h =
      let (m, h1, h2) = >>=-eq-ok (enter d c) _ h in
      let (a, next, few) = enter-eq-ok d c m h1 in
      let (safe, (total, k)) = sound_items (suc d) m n items few h2 in
      ((a, safe), (omega (arith, next, total), k))
  sound d c n (Value.dict entries) h =
      let (m, h1, h2) = >>=-eq-ok (enter d c) _ h in
      let (a, next, few) = enter-eq-ok d c m h1 in
      let (safe, (total, k)) = sound_entries (suc d) m n entries few h2 in
      ((a, safe), (omega (arith, next, total), k))
  sound d c n (Value.frozen entries) h = absurd (no_object d c n h)
  sound d c n (Value.object id) h = absurd (no_object d c n h)

  sound_items :
      (depth counter n : ℕ) (items : Items)
      → counter ≤ max_run_payload_items
      → validate_safe_items depth counter items ≡ ok n
      → AreSafeItems depth items × Counted counter (size_items items) n
  sound_items d c n Items.nil few h =
      let same : c ≡ n = cc h in (tt, (omega (arith, same), omega (arith, same, few)))
  sound_items d c n (Items.cons item rest) few h =
      let (m, h1, h2) = >>=-eq-ok (validate_safe_json d c item) _ h in
      let (safe, (total, k)) = sound d c m item h1 in
      let (safe', (total', k')) = sound_items d m n rest k h2 in
      ((safe, safe'), (omega (arith, total, total'), k'))

  sound_entries :
      (depth counter n : ℕ) (entries : Entries)
      → counter ≤ max_run_payload_items
      → validate_safe_entries depth counter entries ≡ ok n
      → AreSafeEntries depth entries × Counted counter (size_entries entries) n
  sound_entries d c n Entries.end few h =
      let same : c ≡ n = cc h in (tt, (omega (arith, same), omega (arith, same, few)))
  sound_entries d c n (Entries.entry key item rest) few h =
      let (_, hk, h0) = >>=-eq-ok (check_key key) _ h in
      let (m, h1, h2) = >>=-eq-ok (validate_safe_json d c item) _ h0 in
      let (safe, (total, k)) = sound d c m item h1 in
      let (safe', (total', k')) = sound_entries d m n rest k h2 in
      ((check_key-IsSafeKey key hk, safe, safe'), (omega (arith, total, total'), k'))

mutual
  unfolding validate_safe_json size IsSafe

  complete :
      (depth counter : ℕ) (v : Value)
      → IsSafe depth v
      → counter + size v ≤ max_run_payload_items
      → validate_safe_json depth counter v ≡ ok (counter + size v)
  complete d c Value.null a few = enter_of d c a few
  complete d c (Value.bool b) a few = enter_of d c a few
  complete d c (Value.int i) a few = enter_of d c a few
  complete d c (Value.float bits) (a, b) few = leaf_of d c _ _ a few b
  complete d c (Value.text s) (a, b) few = leaf_of d c _ _ a few (le→leb _ _ b)
  complete d c (Value.list items) (a, safe) few =
      rw
        (
          enter_of d c a (omega (arith, few)),
          complete_items (suc d) (c + 1) items safe (omega (arith, few)),
        )
        (ap ok (omega arith))
  complete d c (Value.tuple items) (a, safe) few =
      rw
        (
          enter_of d c a (omega (arith, few)),
          complete_items (suc d) (c + 1) items safe (omega (arith, few)),
        )
        (ap ok (omega arith))
  complete d c (Value.dict entries) (a, safe) few =
      rw
        (
          enter_of d c a (omega (arith, few)),
          complete_entries (suc d) (c + 1) entries safe (omega (arith, few)),
        )
        (ap ok (omega arith))
  complete d c (Value.frozen entries) a few = absurd a
  complete d c (Value.object id) a few = absurd a

  complete_items :
      (depth counter : ℕ) (items : Items)
      → AreSafeItems depth items
      → counter + size_items items ≤ max_run_payload_items
      → validate_safe_items depth counter items ≡ ok (counter + size_items items)
  complete_items d c Items.nil a few = ap ok (omega arith)
  complete_items d c (Items.cons item rest) (a, b) few =
      rw
        (
          complete d c item a (omega (arith, few)),
          complete_items d (c + size item) rest b (omega (arith, few)),
        )
        (ap ok (omega arith))

  complete_entries :
      (depth counter : ℕ) (entries : Entries)
      → AreSafeEntries depth entries
      → counter + size_entries entries ≤ max_run_payload_items
      → validate_safe_entries depth counter entries ≡ ok (counter + size_entries entries)
  complete_entries d c Entries.end a few = ap ok (omega arith)
  complete_entries d c (Entries.entry key item rest) (k, a, b) few =
      rw
        (
          check_key_of key k,
          complete d c item a (omega (arith, few)),
          complete_entries d (c + size item) rest b (omega (arith, few)),
        )
        (ap ok (omega arith))

-- A payload is accepted exactly when it is safe and counts no more values than the limit, and then
-- the counter has gone up by the number of its values.
pub validate_safe_json_iff :
    (v : Value) (n : ℕ)
    → (validate_safe_json 0 0 v ≡ ok n)
      ↔ (IsSafe 0 v × (n ≡ size v) × (size v ≤ max_run_payload_items))
validate_safe_json_iff v n = (
  λ h.
      let (safe, (total, few)) = sound 0 0 n v h in
      (safe, omega (arith, total), omega (arith, total, few)),
  λ (safe, total, few). complete 0 0 v safe (omega (arith, few)) ∙ ap ok (omega (arith, total)),
)
