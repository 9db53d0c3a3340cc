-- ===== src/Notes/Eviction/Ages.antt =====
-- The second pass: the order by age, and how much is deleted.
use notedeck.Prelude.{
  ℕ, zero, suc, ◌+◌, ◌-◌, ◌≤◌, String, true, false, ◌||◌, some, List, [], ◌∷◌, length, includes,
  NoRepeat, is_some, ◌==◌, ltb, ◌≡◌, refl, ap, arith, eq_iff, eq_refl, Bool-cases, String-cases,
  inl, inr,
}
use notedeck.Prelude.Dict
use notedeck.Prelude.Dict.{Dict, Distinct}
use notedeck.Notes.Eviction.{values, insert_by_age, sort_by_age, delete_first, delete_oldest}
use notedeck.Notes.Eviction.Dropped.{length-delete}

module _ {ℓ} {T : Type ℓ} where
  -- Every entry stands under the id of its item.
  abbrev pub Keyed : (T → String) → Dict T → Type ℓ
  Keyed id_of m = (k : String) (v : T) → Dict.get m k ≡ some v → id_of v ≡ k

  abbrev pub ids : (T → String) → List T → List String
  ids id_of [] = []
  ids id_of (x ∷ xs) = id_of x ∷ ids id_of xs

  includes-insert_by_age :
      (f : T → ℕ) (id_of : T → String) (x : T) (ys : List T) (k : String)
      → includes (ids id_of (insert_by_age f x ys)) k ≡ (id_of x == k || includes (ids id_of ys) k)
  unfolding insert_by_age
  includes-insert_by_age f id_of x [] k = refl
  includes-insert_by_age f id_of x (y ∷ ys) k =
      ground (arith, includes-insert_by_age f id_of x ys k)

  insert_by_age-NoRepeat :
      (f : T → ℕ) (id_of : T → String) (x : T) (ys : List T)
      → includes (ids id_of ys) (id_of x) ≡ false
      → NoRepeat (ids id_of ys)
      → NoRepeat (ids id_of (insert_by_age f x ys))
  unfolding insert_by_age
  insert_by_age-NoRepeat f id_of x [] h u = (refl, tt)
  insert_by_age-NoRepeat f id_of x (y ∷ ys) h u = elim (Bool-cases (ltb (f x) (f y))) [
    | inl e ↦ rw e (h, u)
    | inr e ↦ rw e (
      ground (
        arith,
        includes-insert_by_age f id_of x ys (id_of y),
        eq_iff (id_of x) (id_of y),
        eq_iff (id_of y) (id_of x),
        u.0,
      ),
      insert_by_age-NoRepeat f id_of x ys (ground arith) u.1,
    )
  ]

  length-insert_by_age :
      (f : T → ℕ) (x : T) (ys : List T) → length (insert_by_age f x ys) ≡ suc (length ys)
  unfolding insert_by_age
  length-insert_by_age f x [] = refl
  length-insert_by_age f x (y ∷ ys) = ground (arith, length-insert_by_age f x ys)

  length-sort_by_age :
      (f : T → ℕ) (acc xs : List T) → length (sort_by_age f acc xs) ≡ length acc + length xs
  unfolding sort_by_age
  length-sort_by_age f acc [] = omega arith
  length-sort_by_age f acc (x ∷ xs) =
      omega (arith, length-sort_by_age f (insert_by_age f x acc) xs, length-insert_by_age f x acc)

  includes-sort_by_age :
      (f : T → ℕ) (id_of : T → String) (acc xs : List T) (k : String)
      → includes (ids id_of (sort_by_age f acc xs)) k
        ≡ (includes (ids id_of acc) k || includes (ids id_of xs) k)
  unfolding sort_by_age
  includes-sort_by_age f id_of acc [] k = ground arith
  includes-sort_by_age f id_of acc (x ∷ xs) k = ground (
    arith,
    includes-sort_by_age f id_of (insert_by_age f x acc) xs k,
    includes-insert_by_age f id_of x acc k,
  )

  pub sort_by_age-NoRepeat :
      (f : T → ℕ) (id_of : T → String) (acc xs : List T)
      → NoRepeat (ids id_of acc)
      → NoRepeat (ids id_of xs)
      → ((k : String) → includes (ids id_of xs) k ≡ true → includes (ids id_of acc) k ≡ false)
      → NoRepeat (ids id_of (sort_by_age f acc xs))
  unfolding sort_by_age
  sort_by_age-NoRepeat f id_of acc [] a u h = a
  sort_by_age-NoRepeat f id_of acc (x ∷ xs) a u h =
      sort_by_age-NoRepeat f id_of (insert_by_age f x acc) xs
        (insert_by_age-NoRepeat f id_of x acc (h (id_of x) (ground (arith, eq_refl (id_of x)))) a)
        u.1
        (λ k i. ground (
          arith,
          includes-insert_by_age f id_of x acc k,
          h k (ground arith),
          eq_iff (id_of x) k,
          u.0,
        ))

  pub Keyed-tail :
      (id_of : T → String) (j : String) (v : T) (m : Dict T)
      → Keyed id_of ((j, v) ∷ m)
      → Distinct ((j, v) ∷ m)
      → Keyed id_of m
  unfolding Dict.get
  Keyed-tail id_of j v m h d k w e = elim (String-cases j k) [
    | inl (p, f) ↦ absurd (ground (arith, d.0))
    | inr (p, f) ↦ h k w (rw f e)
  ]

  includes-values :
      (id_of : T → String) (m : Dict T) (k : String)
      → Keyed id_of m
      → Distinct m
      → includes (ids id_of (values m)) k ≡ is_some (Dict.get m k)
  unfolding Dict.get
  includes-values id_of [] k h d = refl
  includes-values id_of ((j, v) ∷ m) k h d =
      let key : id_of v ≡ j = h j v (ground (arith, eq_refl j)) in
      rw (key, includes-values id_of m k (Keyed-tail id_of j v m h d) d.1) (ground arith)

  pub ids-values-NoRepeat :
      (id_of : T → String) (m : Dict T)
      → Keyed id_of m
      → Distinct m
      → NoRepeat (ids id_of (values m))
  unfolding Dict.get
  ids-values-NoRepeat id_of [] h d = tt
  ids-values-NoRepeat id_of ((j, v) ∷ m) h d =
      let key : id_of v ≡ j = h j v (ground (arith, eq_refl j)) in
      let tail = Keyed-tail id_of j v m h d in
      (
        rw key (ground (arith, includes-values id_of m j tail d.1, d.0)),
        ids-values-NoRepeat id_of m tail d.1,
      )

  length-delete_first :
      (id_of : T → String) (n : ℕ) (xs : List T) (m : Dict T)
      → n ≤ length xs
      → NoRepeat (ids id_of xs)
      → ((k : String) → includes (ids id_of xs) k ≡ true → is_some (Dict.get m k) ≡ true)
      → Distinct m
      → length (delete_first id_of n xs m) + n ≡ length m
  unfolding delete_first
  length-delete_first id_of zero xs m le u h d = omega arith
  length-delete_first id_of (suc n) [] m le u h d = absurd (omega (arith, le))
  length-delete_first id_of (suc n) (x ∷ xs) m le u h d =
      let here = length-delete m (id_of x) d (h (id_of x) (ground (arith, eq_refl (id_of x)))) in
      let rest =
        length-delete_first id_of n xs (Dict.delete m (id_of x)) (omega (arith, le)) u.1
          (λ k i.
            ground
              (arith, Dict.get-delete m (id_of x) k, h k (ground arith), eq_iff (id_of x) k, u.0))
          (Dict.delete-Distinct m (id_of x) d) in
      omega (arith, here, rest)

  length-values : (m : Dict T) → length (values m) ≡ length m
  length-values [] = refl
  length-values ((j, v) ∷ m) = ap suc (length-values m)

  pub length-delete_oldest :
      (max : ℕ) (created_at_of : T → ℕ) (id_of : T → String) (m : Dict T)
      → Keyed id_of m
      → Distinct m
      → length (delete_oldest max created_at_of id_of m) ≤ max
  unfolding delete_oldest
  length-delete_oldest max f id_of m h d =
      let sorted = length-sort_by_age f [] (values m) in
      let size = length-values m in
      let n =
        length-delete_first id_of (length m - max) (sort_by_age f [] (values m)) m
          (omega (arith, sorted, size))
          (sort_by_age-NoRepeat f id_of [] (values m) tt (ids-values-NoRepeat id_of m h d)
            (λ k i. refl))
          (λ k i.
            ground
              (arith, includes-sort_by_age f id_of [] (values m) k, includes-values id_of m k h d))
          d in
      omega (arith, n)
