-- ===== src/Notes/Eviction/Outcome.antt =====
-- What eviction comes to: its two passes together.
use notedeck.Prelude.{
  ℕ, zero, suc, ◌-◌, ◌≤◌, ◌<◌, String, true, none, some, List, [], ◌∷◌, length, includes, ltb, leb,
  ◌≡◌, ◌⊎◌, refl, ap, ◌∙◌, arith, Bool-cases, String-cases, inl, inr,
}
use notedeck.Prelude.Dict
use notedeck.Prelude.Dict.{Dict, Distinct}
use notedeck.Notes.Eviction.{
  values, sort_by_age, drop_dead, delete_first, delete_oldest, first_pass, evict_by_liveness,
}
use notedeck.Notes.Eviction.Ages.{Keyed, length-delete_oldest}
use notedeck.Notes.Eviction.Dropped.{AllIn, get-drop_dead, drop_dead-Distinct, drop_dead-enough}
use notedeck.Notes.Eviction.Survivors.{delete_oldest-order, get-delete_first}

module _ {ℓ} {T : Type ℓ} where
  -- What eviction comes to. Nothing is new, and a map within its bound stays as it is. If there are
  -- fewer live ids than entries, a live entry goes only when all that stay are live, and none of them
  -- is older; if there are not, what goes is not newer than what stays.
  pub record Evicted (max : ℕ) (live : List String) (f : T → ℕ) (m m' : Dict T) : Type ℓ where
    pub bounded : length m' ≤ max
    pub kept : (k : String) (v : T) → Dict.get m' k ≡ some v → Dict.get m k ≡ some v
    pub unchanged : length m ≤ max → m' ≡ m
    pub live_last :
        (j k : String) (v w : T)
        → length live < length m
        → includes live j ≡ true
        → Dict.get m j ≡ some v
        → Dict.get m' j ≡ none
        → Dict.get m' k ≡ some w
        → (includes live k ≡ true) × (f v ≤ f w)
    pub by_age :
        (j k : String) (v w : T)
        → length m ≤ length live
        → Dict.get m j ≡ some v
        → Dict.get m' j ≡ none
        → Dict.get m' k ≡ some w
        → f v ≤ f w

  get-first_pass :
      (max : ℕ) (live : List String) (m : Dict T) (k : String) (v : T)
      → Distinct m
      → Dict.get (first_pass max live m) k ≡ some v
      → Dict.get m k ≡ some v
  unfolding first_pass
  get-first_pass max live m k v d h = elim (Bool-cases (ltb (length live) (length m))) [
    | inl e ↦ get-drop_dead live (length m - max) m k v d (ground (arith, h))
    | inr e ↦ ground (arith, h)
  ]

  first_pass-Distinct :
      (max : ℕ) (live : List String) (m : Dict T) → Distinct m → Distinct (first_pass max live m)
  unfolding first_pass
  first_pass-Distinct max live m d = elim (Bool-cases (ltb (length live) (length m))) [
    | inl e ↦ rw e (drop_dead-Distinct live (length m - max) m d)
    | inr e ↦ rw e d
  ]

  get-drop_dead-live :
      (live : List String) (n : ℕ) (m : Dict T) (j : String)
      → includes live j ≡ true
      → Dict.get (drop_dead live n m) j ≡ Dict.get m j
  unfolding Dict.get drop_dead
  get-drop_dead-live live n [] j l = refl
  get-drop_dead-live live zero ((i, w) ∷ m) j l = refl
  get-drop_dead-live live (suc n) ((i, w) ∷ m) j l = elim (Bool-cases (includes live i)) [
    | inl e ↦ ground (arith, e, get-drop_dead-live live (suc n) m j l)
    | inr e ↦ elim (String-cases i j) [
      | inl (p, f) ↦ absurd (cc)
      | inr (p, f) ↦ rw (e, f) (get-drop_dead-live live n m j l)
    ]
  ]

  first_pass-live :
      (max : ℕ) (live : List String) (m : Dict T) (j : String)
      → includes live j ≡ true
      → Dict.get (first_pass max live m) j ≡ Dict.get m j
  unfolding first_pass
  first_pass-live max live m j l = elim (Bool-cases (ltb (length live) (length m))) [
    | inl e ↦ rw e (get-drop_dead-live live (length m - max) m j l)
    | inr e ↦ rw e refl
  ]

  -- Either the bound is kept, or what is left is live.
  first_pass-enough :
      (max : ℕ) (live : List String) (m : Dict T)
      → length live < length m
      → (length (first_pass max live m) ≤ max) ⊎ AllIn live (first_pass max live m)
  unfolding first_pass
  first_pass-enough max live m lt = elim (Bool-cases (ltb (length live) (length m))) [
    | inl e ↦ rw e (elim (drop_dead-enough live (length m - max) m) [
      | inl f ↦ inl (omega (arith, f))
      | inr a ↦ inr a
    ])
    | inr e ↦ absurd (ground (arith, lt))
  ]

  delete_oldest-small :
      (max : ℕ) (f : T → ℕ) (id_of : T → String) (m : Dict T)
      → length m ≤ max
      → delete_oldest max f id_of m ≡ m
  unfolding delete_oldest delete_first
  delete_oldest-small max f id_of m le =
      let none_left : length m - max ≡ 0 = omega (arith, le) in rw none_left refl

  get-delete_oldest :
      (max : ℕ) (f : T → ℕ) (id_of : T → String) (m : Dict T) (k : String) (v : T)
      → Dict.get (delete_oldest max f id_of m) k ≡ some v
      → Dict.get m k ≡ some v
  unfolding delete_oldest
  get-delete_oldest max f id_of m =
      get-delete_first id_of (length m - max) (sort_by_age f [] (values m)) m

  delete_first-Distinct :
      (id_of : T → String) (n : ℕ) (xs : List T) (m : Dict T)
      → Distinct m
      → Distinct (delete_first id_of n xs m)
  unfolding delete_first
  delete_first-Distinct id_of zero xs m d = d
  delete_first-Distinct id_of (suc n) [] m d = d
  delete_first-Distinct id_of (suc n) (x ∷ xs) m d =
      delete_first-Distinct id_of n xs (Dict.delete m (id_of x))
        (Dict.delete-Distinct m (id_of x) d)

  pub evict_by_liveness-Distinct :
      (m : Dict T) (max : ℕ) (live : List String) (f : T → ℕ) (id_of : T → String)
      → Distinct m
      → Distinct (evict_by_liveness m max live f id_of)
  unfolding evict_by_liveness delete_oldest
  evict_by_liveness-Distinct m max live f id_of d = elim (Bool-cases (leb (length m) max)) [
    | inl e ↦ rw e d
    | inr e ↦ rw e (
        let n = first_pass max live m in
        delete_first-Distinct id_of (length n - max) (sort_by_age f [] (values n)) n
          (first_pass-Distinct max live m d))
  ]

  first_pass-Keyed :
      (max : ℕ) (live : List String) (id_of : T → String) (m : Dict T)
      → Distinct m
      → Keyed id_of m
      → Keyed id_of (first_pass max live m)
  first_pass-Keyed max live id_of m d key k v h = key k v (get-first_pass max live m k v d h)

  first_pass-skipped :
      (max : ℕ) (live : List String) (m : Dict T)
      → length m ≤ length live
      → first_pass max live m ≡ m
  unfolding first_pass
  first_pass-skipped max live m le = elim (Bool-cases (ltb (length live) (length m))) [
    | inl e ↦ absurd (ground (arith, le))
    | inr e ↦ rw e refl
  ]

  -- The entries after both passes.
  both_passes-Evicted :
      (m : Dict T) (max : ℕ) (live : List String) (f : T → ℕ) (id_of : T → String)
      → max < length m
      → Distinct m
      → Keyed id_of m
      → Evicted max live f m (delete_oldest max f id_of (first_pass max live m))
  both_passes-Evicted m max live f id_of over d key =
      let n = first_pass max live m in
      let n_d = first_pass-Distinct max live m d in
      let n_key = first_pass-Keyed max live id_of m d key in
      record {
        bounded = length-delete_oldest max f id_of n n_key n_d;
        kept = λ k v h. get-first_pass max live m k v d (get-delete_oldest max f id_of n k v h);
        unchanged = λ le. absurd (omega (arith, le, over));
        live_last = λ j k v w lt l here gone stays.
            let mid : Dict.get n j ≡ some v = first_pass-live max live m j l ∙ here in
            elim (first_pass-enough max live m lt) [
              | inl le ↦ let same = delete_oldest-small max f id_of n le in absurd (cc)
              | inr a ↦ (
                a k (ground (arith, get-delete_oldest max f id_of n k w stays)),
                delete_oldest-order max f id_of n n_key n_d j k v w mid gone stays,
              )
            ];
        by_age = λ j k v w le here gone stays.
            let same : n ≡ m = first_pass-skipped max live m le in
            delete_oldest-order max f id_of n n_key n_d j k v w
              (ap (λ (o : Dict T). Dict.get o j) same ∙ here) gone stays;
      }

  -- In a map from ids to items, each under its own id, eviction keeps within the bound and is as the
  -- record above says.
  pub evict_by_liveness-Evicted :
      (m : Dict T) (max : ℕ) (live : List String) (f : T → ℕ) (id_of : T → String)
      → Distinct m
      → Keyed id_of m
      → Evicted max live f m (evict_by_liveness m max live f id_of)
  unfolding evict_by_liveness
  evict_by_liveness-Evicted m max live f id_of d key = elim (Bool-cases (leb (length m) max)) [
    | inl e ↦
        rw (e, evict_by_liveness)
          (record {
            bounded = ground arith;
            kept = λ k v h. h;
            unchanged = λ le. refl;
            live_last = λ j k v w lt l here gone stays. absurd (ground arith);
            by_age = λ j k v w le here gone stays. absurd (ground arith);
          })
    | inr e ↦
        rw (e, evict_by_liveness) (both_passes-Evicted m max live f id_of (ground arith) d key)
  ]
