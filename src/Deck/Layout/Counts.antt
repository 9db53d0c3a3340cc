-- ===== src/Deck/Layout/Counts.antt =====
-- How often a column stands in a group and in a layout, and what the array operations do to that.
use notedeck.Prelude.{
  ℕ, zero, suc, ◌+◌, ◌≤◌, ◌<◌, String, Bool, true, some, List, [], ◌∷◌, ◌==◌, ◌≡◌, refl, arith,
  length, get_elem?, set, insert_at, erase_idx, find_index, includes, without, eq_iff,
  if◌then◌else◌, Bool-cases, Option-cases, inl, inr,
}

unfoldable pub occ : String → List String → ℕ
occ k [] = 0
occ k (x ∷ xs) = (if x == k then 1 else 0) + occ k xs

-- Occurrences in all the groups of a layout.
unfoldable pub occurrences : String → List (List String) → ℕ
occurrences k [] = 0
occurrences k (g ∷ gs) = occ k g + occurrences k gs

abbrev pub NoEmpty : List (List String) → Type 0
NoEmpty [] = Unit {0}
NoEmpty (g ∷ gs) = (0 < length g) × NoEmpty gs

-- Every column stands at most once.
abbrev pub Unique : List (List String) → Type 0
Unique l = (k : String) → occurrences k l ≤ 1

pub occ-includes : (k : String) (g : List String) → includes g k ≡ true → 0 < occ k g
unfolding occ
occ-includes k [] h = cc
occ-includes k (x ∷ g) h = ground (arith, occ-includes k g)

pub occ-without :
    (k id : String) (g : List String) → occ k (without id g) ≡ (if id == k then 0 else occ k g)
unfolding occ
occ-without k id [] = ground arith
occ-without k id (x ∷ g) = ground (arith, eq_iff id k, eq_iff x id, eq_iff x k, occ-without k id g)

pub occ-insert_at :
    (k : String) (g : List String) (i : ℕ) (v : String)
    → occ k (insert_at g i v) ≡ (if v == k then 1 else 0) + occ k g
unfolding occ
occ-insert_at k g zero v = refl
occ-insert_at k [] (suc i) v = refl
occ-insert_at k (x ∷ g) (suc i) v = ground (arith, occ-insert_at k g i v)

pub occ-set :
    (k : String) (g : List String) (i : ℕ) (v : String) {x : String}
    → get_elem? g i ≡ some x
    → occ k (set g i v) + (if x == k then 1 else 0) ≡ occ k g + (if v == k then 1 else 0)
unfolding occ
occ-set k [] i v h = cc
occ-set k (y ∷ g) zero v h = ground arith
occ-set k (y ∷ g) (suc i) v h = ground (arith, occ-set k g i v h)

pub occ-le-occurrences :
    (k : String) (l : List (List String)) (i : ℕ) {g : List String}
    → get_elem? l i ≡ some g
    → occ k g ≤ occurrences k l
unfolding occurrences
occ-le-occurrences k [] i h = cc
occ-le-occurrences k (g ∷ l) zero h = ground arith
occ-le-occurrences k (g ∷ l) (suc i) h = omega (arith, occ-le-occurrences k l i h)

pub occurrences-set :
    (k : String) (l : List (List String)) (i : ℕ) (v : List String) {g : List String}
    → get_elem? l i ≡ some g
    → occurrences k (set l i v) + occ k g ≡ occurrences k l + occ k v
unfolding occurrences
occurrences-set k [] i v h = cc
occurrences-set k (g ∷ l) zero v h = ground arith
occurrences-set k (g ∷ l) (suc i) v h = omega (arith, occurrences-set k l i v h)

pub occurrences-erase_idx :
    (k : String) (l : List (List String)) (i : ℕ) {g : List String}
    → get_elem? l i ≡ some g
    → occurrences k (erase_idx l i) + occ k g ≡ occurrences k l
unfolding occurrences
occurrences-erase_idx k [] i h = cc
occurrences-erase_idx k (g ∷ l) zero h = ground arith
occurrences-erase_idx k (g ∷ l) (suc i) h = omega (arith, occurrences-erase_idx k l i h)

pub occurrences-insert_at :
    (k : String) (l : List (List String)) (i : ℕ) (v : List String)
    → occurrences k (insert_at l i v) ≡ occ k v + occurrences k l
unfolding occurrences
occurrences-insert_at k l zero v = refl
occurrences-insert_at k [] (suc i) v = refl
occurrences-insert_at k (g ∷ l) (suc i) v = omega (arith, occurrences-insert_at k l i v)

pub NoEmpty-get :
    (l : List (List String)) (i : ℕ) {g : List String}
    → NoEmpty l
    → get_elem? l i ≡ some g
    → 0 < length g
NoEmpty-get [] i e h = cc
NoEmpty-get (g ∷ l) zero e h = ground arith
NoEmpty-get (g ∷ l) (suc i) e h = NoEmpty-get l i e.1 h

pub NoEmpty-set :
    (l : List (List String)) (i : ℕ) (v : List String)
    → NoEmpty l
    → 0 < length v
    → NoEmpty (set l i v)
NoEmpty-set [] i v e h = tt
NoEmpty-set (g ∷ l) zero v e h = (h, e.1)
NoEmpty-set (g ∷ l) (suc i) v e h = (e.0, NoEmpty-set l i v e.1 h)

pub NoEmpty-erase_idx : (l : List (List String)) (i : ℕ) → NoEmpty l → NoEmpty (erase_idx l i)
NoEmpty-erase_idx [] i e = tt
NoEmpty-erase_idx (g ∷ l) zero e = e.1
NoEmpty-erase_idx (g ∷ l) (suc i) e = (e.0, NoEmpty-erase_idx l i e.1)

pub NoEmpty-insert_at :
    (l : List (List String)) (i : ℕ) (v : List String)
    → NoEmpty l
    → 0 < length v
    → NoEmpty (insert_at l i v)
NoEmpty-insert_at l zero v e h = (h, e)
NoEmpty-insert_at [] (suc i) v e h = (h, tt)
NoEmpty-insert_at (g ∷ l) (suc i) v e h = (e.0, NoEmpty-insert_at l i v e.1 h)

pub length-insert_at-pos {ℓ} :
    {A : Type ℓ} (l : List A) (i : ℕ) (v : A) → 0 < length (insert_at l i v)
length-insert_at-pos l zero v = omega arith
length-insert_at-pos [] (suc i) v = omega arith
length-insert_at-pos (x ∷ l) (suc i) v = omega arith

pub length-set {ℓ} : {A : Type ℓ} (l : List A) (i : ℕ) (v : A) → length (set l i v) ≡ length l
length-set [] i v = refl
length-set (x ∷ l) zero v = refl
length-set (x ∷ l) (suc i) v = omega (arith, length-set l i v)

-- What `find_index` finds passes the test.
pub find_index-some {ℓ} :
    {A : Type ℓ} (p : A → Bool) (l : List A) (i : ℕ)
    → find_index p l ≡ some i
    → (x : A) × (get_elem? l i ≡ some x) × (p x ≡ true)
find_index-some p [] i h = cc
find_index-some p (x ∷ l) i h = elim (Bool-cases (p x)) [
  | inl e ↦ (x, ground arith, e)
  | inr e ↦ elim (Option-cases (find_index p l)) [
    | inl f ↦ absurd (ground arith)
    | inr (j, f) ↦ let (y, at, test) = find_index-some p l j f in (y, ground arith, test)
  ]
]

-- The value to be moved stands at the second index, whether or not the two indices are the same.
pub get_elem?-set_other {ℓ} :
    {A : Type ℓ} (l : List A) (i j : ℕ) {a b : A}
    → get_elem? l i ≡ some a
    → get_elem? l j ≡ some b
    → get_elem? (set l i b) j ≡ some b
get_elem?-set_other [] i j h k = cc
get_elem?-set_other (x ∷ l) zero zero h k = refl
get_elem?-set_other (x ∷ l) zero (suc j) h k = k
get_elem?-set_other (x ∷ l) (suc i) zero h k = k
get_elem?-set_other (x ∷ l) (suc i) (suc j) h k = get_elem?-set_other l i j h k

pub length-without : (id : String) (g : List String) → length (without id g) + occ id g ≡ length g
unfolding occ
length-without id [] = omega arith
length-without id (x ∷ g) = ground (arith, length-without id g)
