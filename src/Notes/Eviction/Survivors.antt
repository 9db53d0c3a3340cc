-- ===== src/Notes/Eviction/Survivors.antt =====
-- The second pass: which entries are left.
use mathlib.Core.List.{Memᴰ}
use mathlib.Core.List.Memᴰ
use notedeck.Prelude.{
  ℕ, zero, suc, ◌-◌, ◌≤◌, String, true, none, some, List, [], ◌∷◌, length, includes, NoRepeat, ltb,
  ◌≡◌, ◌⊎◌, refl, sym, subst, ap, ◌∙◌, arith, eq_iff, Bool-cases, String-cases, inl, inr,
}
use notedeck.Prelude.Dict
use notedeck.Prelude.Dict.{Dict, Distinct}
use notedeck.Notes.Eviction.{values, insert_by_age, sort_by_age, delete_first, delete_oldest}
use notedeck.Notes.Eviction.Ages.{ids, Keyed, sort_by_age-NoRepeat, ids-values-NoRepeat}

module _ {ℓ} {T : Type ℓ} where
  -- No item of the list is older.
  AllSince : (T → ℕ) → ℕ → List T → Type 0
  AllSince f t [] = Unit
  AllSince f t (x ∷ xs) = (t ≤ f x) × AllSince f t xs

  Ascending : (T → ℕ) → List T → Type 0
  Ascending f [] = Unit
  Ascending f (x ∷ xs) = AllSince f (f x) xs × Ascending f xs

  AllSince-le : (f : T → ℕ) (s t : ℕ) (xs : List T) → s ≤ t → AllSince f t xs → AllSince f s xs
  unfolding AllSince
  AllSince-le f s t [] le a = tt
  AllSince-le f s t (x ∷ xs) le a = (omega (arith, le, a.0), AllSince-le f s t xs le a.1)

  insert_by_age-AllSince :
      (f : T → ℕ) (t : ℕ) (x : T) (xs : List T)
      → t ≤ f x
      → AllSince f t xs
      → AllSince f t (insert_by_age f x xs)
  unfolding AllSince insert_by_age
  insert_by_age-AllSince f t x [] le a = (le, tt)
  insert_by_age-AllSince f t x (y ∷ ys) le a = elim (Bool-cases (ltb (f x) (f y))) [
    | inl e ↦ rw e (le, a)
    | inr e ↦ rw e (a.0, insert_by_age-AllSince f t x ys le a.1)
  ]

  insert_by_age-Ascending :
      (f : T → ℕ) (x : T) (xs : List T) → Ascending f xs → Ascending f (insert_by_age f x xs)
  unfolding Ascending AllSince insert_by_age
  insert_by_age-Ascending f x [] a = (tt, tt)
  insert_by_age-Ascending f x (y ∷ ys) a = elim (Bool-cases (ltb (f x) (f y))) [
    | inl e ↦
        let le : f x ≤ f y = ground arith in rw e ((le, AllSince-le f (f x) (f y) ys le a.0), a)
    | inr e ↦
        rw e (
          insert_by_age-AllSince f (f y) x ys (ground arith) a.0,
          insert_by_age-Ascending f x ys a.1,
        )
  ]

  sort_by_age-Ascending :
      (f : T → ℕ) (acc xs : List T) → Ascending f acc → Ascending f (sort_by_age f acc xs)
  unfolding sort_by_age
  sort_by_age-Ascending f acc [] a = a
  sort_by_age-Ascending f acc (x ∷ xs) a =
      sort_by_age-Ascending f (insert_by_age f x acc) xs (insert_by_age-Ascending f x acc a)

  Memᴰ-insert_by_age :
      (f : T → ℕ) (v x : T) (xs : List T) → Memᴰ v (x ∷ xs) → Memᴰ v (insert_by_age f x xs)
  unfolding insert_by_age
  Memᴰ-insert_by_age f v x [] h = h
  Memᴰ-insert_by_age f v x (y ∷ ys) h = elim (Bool-cases (ltb (f x) (f y))) [
    | inl e ↦ rw e h
    | inr e ↦ rw e (elim (Memᴰ.cases_cons h) [
      | inl p ↦ Memᴰ.tail (Memᴰ-insert_by_age f v x ys (Memᴰ.head p))
      | inr t ↦ elim (Memᴰ.cases_cons t) [
        | inl p ↦ Memᴰ.head p
        | inr r ↦ Memᴰ.tail (Memᴰ-insert_by_age f v x ys (Memᴰ.tail r))
      ]
    ])
  ]

  Memᴰ-sort_by_age :
      (f : T → ℕ) (v : T) (acc xs : List T) → Memᴰ v acc ⊎ Memᴰ v xs → Memᴰ v (sort_by_age f acc xs)
  unfolding sort_by_age
  Memᴰ-sort_by_age f v acc [] h = elim h [ inl a ↦ a | inr e ↦ absurd (Memᴰ.not-nil e) ]
  Memᴰ-sort_by_age f v acc (x ∷ xs) h = Memᴰ-sort_by_age f v (insert_by_age f x acc) xs (elim h [
    | inl a ↦ inl (Memᴰ-insert_by_age f v x acc (Memᴰ.tail a))
    | inr b ↦ elim (Memᴰ.cases_cons b) [
      | inl p ↦ inl (Memᴰ-insert_by_age f v x acc (Memᴰ.head p))
      | inr q ↦ inr q
    ]
  ])

  Memᴰ-values : (m : Dict T) (k : String) (v : T) → Dict.get m k ≡ some v → Memᴰ v (values m)
  unfolding Dict.get
  Memᴰ-values [] k v h = absurd (ground arith)
  Memᴰ-values ((j, w) ∷ m) k v h = elim (String-cases j k) [
    | inl (p, e) ↦ Memᴰ.head (ground (arith, h))
    | inr (p, e) ↦ Memᴰ.tail (Memᴰ-values m k v (ground (arith, h)))
  ]

  AllSince-Memᴰ : (f : T → ℕ) (t : ℕ) (v : T) (xs : List T) → AllSince f t xs → Memᴰ v xs → t ≤ f v
  unfolding AllSince
  AllSince-Memᴰ f t v [] a h = absurd (Memᴰ.not-nil h)
  AllSince-Memᴰ f t v (x ∷ xs) a h = elim (Memᴰ.cases_cons h) [
    | inl p ↦ subst (λ y. t ≤ f y) (sym p) a.0
    | inr q ↦ AllSince-Memᴰ f t v xs a.1 q
  ]

  pub get-delete_first :
      (id_of : T → String) (n : ℕ) (xs : List T) (m : Dict T) (k : String) (v : T)
      → Dict.get (delete_first id_of n xs m) k ≡ some v
      → Dict.get m k ≡ some v
  unfolding delete_first
  get-delete_first id_of zero xs m k v h = h
  get-delete_first id_of (suc n) [] m k v h = h
  get-delete_first id_of (suc n) (x ∷ xs) m k v h =
      let below = get-delete_first id_of n xs (Dict.delete m (id_of x)) k v h in
      ground (arith, Dict.get-delete m (id_of x) k)

  includes-ids :
      (id_of : T → String) (v : T) (xs : List T)
      → Memᴰ v xs
      → includes (ids id_of xs) (id_of v) ≡ true
  includes-ids id_of v [] h = absurd (Memᴰ.not-nil h)
  includes-ids id_of v (x ∷ xs) h = elim (Memᴰ.cases_cons h) [
    | inl p ↦ ground (arith, eq_iff (id_of x) (id_of v), ap id_of p)
    | inr q ↦ ground (arith, includes-ids id_of v xs q)
  ]

  pub delete-Keyed :
      (id_of : T → String) (m : Dict T) (i : String) → Keyed id_of m → Keyed id_of (Dict.delete m i)
  delete-Keyed id_of m i key k v h = key k v (ground (arith, Dict.get-delete m i k))

  other_values :
      (id_of : T → String) (x : T) (xs : List T) (m : Dict T) (i : String) (u : T)
      → Keyed id_of m
      → ((k : String) (v : T) → Dict.get m k ≡ some v → Memᴰ v (x ∷ xs))
      → Dict.get (Dict.delete m (id_of x)) i ≡ some u
      → Memᴰ u xs
  other_values id_of x xs m i u key all h =
      let here : Dict.get m i ≡ some u = ground (arith, Dict.get-delete m (id_of x) i) in
      elim (Memᴰ.cases_cons (all i u here)) [
        | inl p ↦
            let same : id_of x ≡ i = ap id_of (sym p) ∙ key i u here in
            absurd (ground (arith, Dict.get-delete m (id_of x) i, eq_iff (id_of x) i))
        | inr q ↦ q
      ]

  -- What the list's front does not have stays, and what goes is no newer than what stays.
  delete_first-order :
      (f : T → ℕ) (id_of : T → String) (n : ℕ) (xs : List T) (m : Dict T)
      → Keyed id_of m
      → Ascending f xs
      → NoRepeat (ids id_of xs)
      → ((k : String) (v : T) → Dict.get m k ≡ some v → Memᴰ v xs)
      → (j k : String) (v w : T) → Dict.get m j ≡ some v
      → Dict.get (delete_first id_of n xs m) j ≡ none
      → Dict.get (delete_first id_of n xs m) k ≡ some w
      → f v ≤ f w
  unfolding delete_first Ascending
  delete_first-order f id_of zero xs m key a u all j k v w here gone stays = absurd (ground arith)
  delete_first-order f id_of (suc n) [] m key a u all j k v w here gone stays =
      absurd (ground arith)
  delete_first-order f id_of (suc n) (x ∷ xs) m key a u all j k v w here gone stays =
      let stayed = get-delete_first id_of n xs (Dict.delete m (id_of x)) k w stays in
      let w_here : Dict.get m k ≡ some w = ground (arith, Dict.get-delete m (id_of x) k) in
      let others : (i : String) (u : T)
          → Dict.get (Dict.delete m (id_of x)) i ≡ some u
          → Memᴰ u xs =
        λ i u h. other_values id_of x xs m i u key all h in
      elim (String-cases (id_of x) j) [
        | inl (p, e) ↦ elim (Memᴰ.cases_cons (all j v here)) [
          | inl q ↦
              AllSince-Memᴰ f (f v) w xs (subst (λ y. AllSince f (f y) xs) (sym q) a.0)
                (others k w stayed)
          | inr q ↦ absurd (ground (arith, includes-ids id_of v xs q, u.0, p, key j v here))
        ]
        | inr (p, e) ↦
            delete_first-order f id_of n xs (Dict.delete m (id_of x))
              (delete-Keyed id_of m (id_of x) key) a.1 u.1 others j k v w
              (ground (arith, Dict.get-delete m (id_of x) j)) gone stays
      ]

  pub delete_oldest-order :
      (max : ℕ) (f : T → ℕ) (id_of : T → String) (m : Dict T)
      → Keyed id_of m
      → Distinct m
      → (j k : String) (v w : T) → Dict.get m j ≡ some v
      → Dict.get (delete_oldest max f id_of m) j ≡ none
      → Dict.get (delete_oldest max f id_of m) k ≡ some w
      → f v ≤ f w
  unfolding delete_oldest Ascending
  delete_oldest-order max f id_of m key d =
      delete_first-order f id_of (length m - max) (sort_by_age f [] (values m)) m key
        (sort_by_age-Ascending f [] (values m) tt)
        (sort_by_age-NoRepeat f id_of [] (values m) tt (ids-values-NoRepeat id_of m key d)
          (λ k i. refl))
        (λ k v h. Memᴰ-sort_by_age f v [] (values m) (inr (Memᴰ-values m k v h)))
