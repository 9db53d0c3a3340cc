-- ===== src/Prelude/Dict.antt =====
-- `Map<string, V>` and `Record<string, V>` as association lists in insertion order.
use Prim.Native.String.{String}
use mathlib.Core.Path.{◌≡◌, refl, ap}
use mathlib.Core.Option.{Option, none, some}
use mathlib.Core.List.{List, [], ◌∷◌}
use native.Mathlib.Omega.{arith}
use text.Mathlib.Text.{◌==◌}
use text.Mathlib.TextEquality.{eq_iff}
use mathlib.Core.Logic.{inl, inr}
use Prim.Native.Nat.{suc}
use notedeck.Prelude.Tests.{if◌then◌else◌, String-cases, is_some}
use notedeck.Prelude.Lists.{length, includes}

abbrev pub Dict {ℓ} : Type ℓ → Type ℓ
Dict V = List (String × V)

module _ {ℓ} {V : Type ℓ} where
  unfoldable pub get : Dict V → String → Option V
  get [] k = none
  get ((j, v) ∷ m) k = let rest = get m k in if j == k then some v else rest

  -- A key that is there keeps its place; a new one goes to the end.
  unfoldable pub put : Dict V → String → V → Dict V
  put [] k v = (k, v) ∷ []
  put ((j, w) ∷ m) k v = let rest = put m k v in if j == k then (j, v) ∷ m else (j, w) ∷ rest

  unfoldable pub delete : Dict V → String → Dict V
  delete [] k = []
  delete ((j, w) ∷ m) k = let rest = delete m k in if j == k then rest else (j, w) ∷ rest

  pub get-put :
      (m : Dict V) (k j : String) (v : V) → get (put m k v) j ≡ (if k == j then some v else get m j)
  unfolding get put
  get-put [] k j v = refl
  get-put ((i, w) ∷ m) k j v = ground (arith, eq_iff k j, eq_iff i k, eq_iff i j, get-put m k j v)

  pub get-delete :
      (m : Dict V) (k j : String) → get (delete m k) j ≡ (if k == j then none else get m j)
  unfolding get delete
  get-delete [] k j = ground arith
  get-delete ((i, w) ∷ m) k j = ground (arith, eq_iff k j, eq_iff i k, eq_iff i j, get-delete m k j)

  -- No key stands twice, as in every `Map`.
  abbrev pub Distinct : Dict V → Type ℓ
  Distinct [] = Unit
  Distinct ((k, v) ∷ m) = (get m k ≡ none) × Distinct m

  pub put-Distinct : (m : Dict V) (k : String) (v : V) → Distinct m → Distinct (put m k v)
  unfolding get put
  put-Distinct [] k v d = (refl, tt)
  put-Distinct ((i, w) ∷ m) k v d = elim (String-cases i k) [
    | inl (p, e) ↦ rw e d
    | inr (p, e) ↦ rw e (ground (arith, get-put m k i v, eq_iff k i), put-Distinct m k v d.1)
  ]

  pub delete-Distinct : (m : Dict V) (k : String) → Distinct m → Distinct (delete m k)
  unfolding get delete
  delete-Distinct [] k d = tt
  delete-Distinct ((i, w) ∷ m) k d = elim (String-cases i k) [
    | inl (p, e) ↦ rw e (delete-Distinct m k d.1)
    | inr (p, e) ↦ rw e (ground (arith, get-delete m k i, eq_iff k i), delete-Distinct m k d.1)
  ]

  abbrev pub keys_of : Dict V → List String
  keys_of [] = []
  keys_of ((k, v) ∷ m) = k ∷ keys_of m

  pub length-keys_of : (m : Dict V) → length (keys_of m) ≡ length m
  length-keys_of [] = refl
  length-keys_of ((k, v) ∷ m) = ap suc (length-keys_of m)

  pub includes-keys_of : (m : Dict V) (k : String) → includes (keys_of m) k ≡ is_some (get m k)
  unfolding get
  includes-keys_of [] k = refl
  includes-keys_of ((j, v) ∷ m) k = ground (arith, includes-keys_of m k)
