-- ===== src/Run/Texts.antt =====
-- The texts of pmqa/run/models.py, by code points. Which characters are printable is the Unicode
-- database's to say, a parameter.
use pmqa.Base.{
  Result, raise_if, ℕ, String, Bool, true, false, not, ◌&&◌, ◌||◌, List, [], ◌∷◌, codes, ltb, leb,
  ◌==◌, if◌then◌else◌, length, last,
}
use pmqa.Security.{is_plain}
use pmqa.Run.Identifiers.{
  Error, is_separator, has_double_dot, too_many_items, unbounded_text, invalid_storage_key,
  invalid_digest,
}

-- `_MAX_COLLECTION_ITEMS`
abbrev pub max_collection_items : ℕ
max_collection_items = 1024

-- The bound of `_contract_array`.
unfoldable pub check_array {ℓ} : {A : Type ℓ} → List A → Result Error (Unit {0})
check_array items = raise_if (ltb max_collection_items (length items)) too_many_items

abbrev pub member : ℕ → List ℕ → Bool
member c [] = false
member c (d ∷ ds) = c == d || member c ds

abbrev pub in_range : ℕ → ℕ → ℕ → Bool
in_range low high c = leb low c && leb c high

-- The characters that `strip()` takes.
abbrev pub is_space : ℕ → Bool
is_space c =
    in_range 9 13 c
    || in_range 28 32 c
    || in_range 0x2000 0x200a c
    || member c (0x85 ∷ 0xa0 ∷ 0x1680 ∷ 0x2028 ∷ 0x2029 ∷ 0x202f ∷ 0x205f ∷ 0x3000 ∷ [])

abbrev pub for_all : (ℕ → Bool) → List ℕ → Bool
for_all test [] = true
for_all test (c ∷ cs) = test c && for_all test cs

unfoldable pub is_bounded_text : (ℕ → Bool) → ℕ → List ℕ → Bool
is_bounded_text printable maximum [] = false
is_bounded_text printable maximum (c ∷ cs) =
    leb (length (c ∷ cs)) maximum
    && not (is_space c || is_space (last c cs))
    && for_all printable (c ∷ cs)

-- `_bounded_text`
unfoldable pub bounded_text : (ℕ → Bool) → ℕ → String → Result Error (Unit {0})
unfolding is_bounded_text
bounded_text printable maximum value =
    raise_if (not (is_bounded_text printable maximum (codes value))) unbounded_text

-- `_STORAGE_KEY_PATTERN.fullmatch`, from a place on: whether a segment has begun.
unfoldable pub storage_key_matches : Bool → List ℕ → Bool
storage_key_matches inside [] = inside
storage_key_matches false (c ∷ cs) = let rest = storage_key_matches true cs in is_plain c && rest
storage_key_matches true (c ∷ cs) =
    let rest = storage_key_matches true cs in
    let next = storage_key_matches false cs in
    if is_separator c || c == b'/' then next else is_plain c && rest

abbrev pub starts_with : List ℕ → List ℕ → Bool
starts_with [] cs = true
starts_with (p ∷ ps) [] = false
starts_with (p ∷ ps) (c ∷ cs) = p == c && starts_with ps cs

-- `_ABSOLUTE_WINDOWS_PATH_PATTERN.match`
abbrev pub is_windows_path : List ℕ → Bool
is_windows_path (a ∷ b ∷ c ∷ cs) = in_range b'a' b'z' a && b == b':' && c == b'/'
is_windows_path _ = false

unfoldable pub is_storage_key : List ℕ → Bool
unfolding storage_key_matches has_double_dot
is_storage_key value =
    leb (length value) 512
    && storage_key_matches false value
    && not (is_windows_path value)
    && not (
        starts_with (codes "file:") value
        || starts_with (codes "http:") value
        || starts_with (codes "https:") value)
    && not (has_double_dot value)

-- `RunArtifact.validate_storage_key`
unfoldable pub validate_storage_key : String → Result Error (Unit {0})
unfolding is_storage_key
validate_storage_key value = raise_if (not (is_storage_key (codes value))) invalid_storage_key

-- `_SHA256_PATTERN.fullmatch`
unfoldable pub is_digest : List ℕ → Bool
is_digest value =
    length value == 64 && for_all (λ c. in_range b'a' b'f' c || in_range b'0' b'9' c) value

-- `RunArtifact.validate_content_digest`
unfoldable pub validate_content_digest : String → Result Error (Unit {0})
unfolding is_digest
validate_content_digest value = raise_if (not (is_digest (codes value))) invalid_digest
