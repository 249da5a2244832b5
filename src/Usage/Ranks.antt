-- ===== src/Usage/Ranks.antt =====
-- The `set` tests and the sorting of pmqa/usage/contracts.py, by a rank that tells the items apart
-- and orders them as their values are ordered.
use pmqa.Base.{ℕ, Bool, false, ◌||◌, List, [], ◌∷◌, ltb, ◌==◌, if◌then◌else◌}

module _ {ℓ} {A : Type ℓ} (rank : A → ℕ) where
  -- Some item has the rank.
  unfoldable pub has_rank : ℕ → List A → Bool
  has_rank r [] = false
  has_rank r (item ∷ rest) = rank item == r || has_rank r rest

  -- `len(items) != len(set(items))`
  unfoldable pub has_repeated : List A → Bool
  unfolding has_rank
  has_repeated [] = false
  has_repeated (item ∷ rest) = has_rank (rank item) rest || has_repeated rest

  unfoldable pub insert_by : A → List A → List A
  insert_by item [] = item ∷ []
  insert_by item (first ∷ rest) =
      let later = insert_by item rest in
      if ltb (rank first) (rank item) then first ∷ later else item ∷ first ∷ rest

  -- `sorted(items, key=...)`
  unfoldable pub sort_by : List A → List A
  unfolding insert_by
  sort_by [] = []
  sort_by (item ∷ rest) = insert_by item (sort_by rest)
