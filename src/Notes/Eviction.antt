-- ===== src/Notes/Eviction.antt =====
-- services/mapEviction.ts: entries that leave a map from ids that has grown beyond its bound.
-- `createdAt` is a number, as in Notes/Sorted.
pub mod Dropped
pub mod Ages
pub mod Survivors
pub mod Outcome
use notedeck.Prelude.{
  ℕ, zero, suc, ◌-◌, String, List, [], ◌∷◌, length, includes, ltb, leb, if◌then◌else◌,
}
use notedeck.Prelude.Dict
use notedeck.Prelude.Dict.{Dict}

module _ {ℓ} {T : Type ℓ} where
  -- The first pass: `map.size - max` is what is left to delete, and the keys come in their order.
  unfoldable pub drop_dead : List String → ℕ → Dict T → Dict T
  drop_dead live excess [] = []
  drop_dead live zero ((k, v) ∷ m) = (k, v) ∷ m
  drop_dead live (suc n) ((k, v) ∷ m) =
      let kept = drop_dead live (suc n) m in
      let dropped = drop_dead live n m in if includes live k then (k, v) ∷ kept else dropped

  abbrev pub values : Dict T → List T
  values [] = []
  values ((k, v) ∷ m) = v ∷ values m

  -- `Array.sort` is stable: an item comes behind those that are as old.
  unfoldable pub insert_by_age : (T → ℕ) → T → List T → List T
  insert_by_age created_at_of x [] = x ∷ []
  insert_by_age created_at_of x (y ∷ ys) =
      let rest = insert_by_age created_at_of x ys in
      if ltb (created_at_of x) (created_at_of y) then x ∷ y ∷ ys else y ∷ rest

  unfoldable pub sort_by_age : (T → ℕ) → List T → List T → List T
  unfolding insert_by_age
  sort_by_age created_at_of acc [] = acc
  sort_by_age created_at_of acc (x ∷ xs) =
      sort_by_age created_at_of (insert_by_age created_at_of x acc) xs

  -- The second pass: `excess` items from the front of the list.
  unfoldable pub delete_first : (T → String) → ℕ → List T → Dict T → Dict T
  delete_first id_of zero xs m = m
  delete_first id_of (suc n) [] m = m
  delete_first id_of (suc n) (x ∷ xs) m = delete_first id_of n xs (Dict.delete m (id_of x))

  unfoldable pub delete_oldest : ℕ → (T → ℕ) → (T → String) → Dict T → Dict T
  unfolding sort_by_age delete_first
  delete_oldest max created_at_of id_of m =
      delete_first id_of (length m - max) (sort_by_age created_at_of [] (values m)) m

  -- `live` is a set: no id stands twice in it.
  unfoldable pub first_pass : ℕ → List String → Dict T → Dict T
  unfolding drop_dead
  first_pass max live m =
      if ltb (length live) (length m) then drop_dead live (length m - max) m else m

  unfoldable pub evict_by_liveness : Dict T → ℕ → List String → (T → ℕ) → (T → String) → Dict T
  unfolding first_pass delete_oldest
  evict_by_liveness m max live created_at_of id_of =
      if leb (length m) max
      then m
      else delete_oldest max created_at_of id_of (first_pass max live m)
