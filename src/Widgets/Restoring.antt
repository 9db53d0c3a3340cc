-- ===== src/Widgets/Restoring.antt =====
-- Lists and dictionaries from which something is taken out and put back.
use notedeck.Prelude.{
  ℕ, suc, String, Bool, false, not, Option, none, some, List, [], ◌∷◌, map, get_elem?, keep_if, any,
  find_index, insert_at, includes, without, NoRepeat, ◌==◌, ◌≡◌, refl, sym, ap, ◌∙◌, subst, arith,
  if◌then◌else◌, Bool-cases, Option-cases, String-cases, inl, inr,
}
use notedeck.Prelude.Dict
use notedeck.Prelude.Dict.{Dict, Distinct}
use notedeck.Widgets.{put_all}

module _ {ℓ} {A : Type ℓ} (key : A → String) (id : String) where
  keep_all :
      (xs : List A) → includes (map key xs) id ≡ false → keep_if (λ x. not (key x == id)) xs ≡ xs
  keep_all [] h = refl
  keep_all (x ∷ xs) h = elim (Bool-cases (key x == id)) [
    | inl e ↦ absurd (ground (arith, h))
    | inr e ↦ rw e (ap (x ∷◌) (keep_all xs (ground (arith, h))))
  ]

  -- What stood at its first index, put back there after its key has been taken out.
  pub insert_at-keep_if :
      (xs : List A) (i : ℕ)
      → NoRepeat (map key xs)
      → find_index (λ x. key x == id) xs ≡ some i
      → (x : A) × (get_elem? xs i ≡ some x)
        × (key x ≡ id)
        × (insert_at (keep_if (λ x. not (key x == id)) xs) i x ≡ xs)
  insert_at-keep_if [] i u h = absurd (ground arith)
  insert_at-keep_if (x ∷ xs) i u h = elim (String-cases (key x) id) [
    | inl (p, e) ↦
        let zeroth : 0 ≡ i = ground (arith, rw e at h) in
        let gone : includes (map key xs) id ≡ false = ap (includes (map key xs)) (sym p) ∙ u.0 in
        subst
          (λ j.
            (y : A) × (get_elem? (x ∷ xs) j ≡ some y)
            × (key y ≡ id)
            × (insert_at (keep_if (λ x. not (key x == id)) (x ∷ xs)) j y ≡ x ∷ xs))
          zeroth (x, refl, p, rw e (ap (x ∷◌) (keep_all xs gone)))
    | inr (p, e) ↦ elim (Option-cases (find_index (λ x. key x == id) xs)) [
      | inl f ↦ absurd (ground (arith, rw (e, f, find_index) at h))
      | inr (j, f) ↦
          let next : suc j ≡ i = ground (arith, rw (e, f, find_index) at h) in
          let (y, at, same, back) = insert_at-keep_if xs j u.1 f in
          subst
            (λ k.
              (y : A) × (get_elem? (x ∷ xs) k ≡ some y)
              × (key y ≡ id)
              × (insert_at (keep_if (λ x. not (key x == id)) (x ∷ xs)) k y ≡ x ∷ xs))
            next (y, at, same, rw e (ap (x ∷◌) back))
    ]
  ]

  pub any-keep_if :
      (xs : List A) → any (λ x. key x == id) (keep_if (λ x. not (key x == id)) xs) ≡ false
  any-keep_if [] = refl
  any-keep_if (x ∷ xs) = elim (Bool-cases (key x == id)) [
    | inl e ↦ rw e (any-keep_if xs)
    | inr e ↦ rw (e, e) (any-keep_if xs)
  ]

without-keep_if : (id : String) (xs : List String) → without id xs ≡ keep_if (λ x. not (x == id)) xs
without-keep_if id [] = refl
without-keep_if id (x ∷ xs) = elim (Bool-cases (x == id)) [
  | inl e ↦ rw e (without-keep_if id xs)
  | inr e ↦ rw e (ap (x ∷◌) (without-keep_if id xs))
]

map_same : (xs : List String) → map (λ x. x) xs ≡ xs
map_same [] = refl
map_same (x ∷ xs) = ap (x ∷◌) (map_same xs)

-- The same for texts.
pub insert_at-without :
    (id : String) (xs : List String) (i : ℕ)
    → NoRepeat xs
    → find_index (λ x. x == id) xs ≡ some i
    → insert_at (without id xs) i id ≡ xs
insert_at-without id xs i u h =
    let (y, at, same, back) =
      insert_at-keep_if (λ x. x) id xs i (subst NoRepeat (sym (map_same xs)) u) h in
    ap (λ l. insert_at l i id) (without-keep_if id xs)
    ∙ ap (insert_at (keep_if (λ x. not (x == id)) xs) i) (sym same)
    ∙ back

pub without_absent :
    (id : String) (xs : List String) → find_index (λ x. x == id) xs ≡ none → without id xs ≡ xs
without_absent id [] h = refl
without_absent id (x ∷ xs) h = elim (Bool-cases (x == id)) [
  | inl e ↦ absurd (ground (arith, rw e at h))
  | inr e ↦ elim (Option-cases (find_index (λ x. x == id) xs)) [
    | inl f ↦ rw e (ap (x ∷◌) (without_absent id xs f))
    | inr (j, f) ↦ absurd (ground (arith, rw (e, f, find_index) at h))
  ]
]

-- The entries whose keys pass a test.
get-keep_if :
    (q : String → Bool) (m : Dict String) (k : String)
    → Dict.get (keep_if (λ e. q e.0) m) k ≡ (if q k then Dict.get m k else none)
unfolding Dict.get
get-keep_if q [] k = ground arith
get-keep_if q ((j, v) ∷ m) k = elim (String-cases j k) [
  | inl (p, e) ↦
      let same : q j ≡ q k = ap q p in
      elim (Bool-cases (q k)) [
        | inl f ↦ rw (same, f, e) refl
        | inr f ↦ rw (same, f) (get-keep_if q m k ∙ rw f refl)
      ]
  | inr (p, e) ↦ elim (Bool-cases (q j)) [
    | inl f ↦ rw (f, e) (get-keep_if q m k)
    | inr f ↦ rw (f, e) (get-keep_if q m k)
  ]
]

keep_if-Distinct :
    (q : String → Bool) (m : Dict String) → Distinct m → Distinct (keep_if (λ e. q e.0) m)
keep_if-Distinct q [] d = tt
keep_if-Distinct q ((j, v) ∷ m) d = elim (Bool-cases (q j)) [
  | inl f ↦ rw f (get-keep_if q m j ∙ rw (f, d.0) refl, keep_if-Distinct q m d.1)
  | inr f ↦ rw f (keep_if-Distinct q m d.1)
]

abbrev or_from : Option String → Option String → Option String
or_from none o = o
or_from (some v) o = some v

get-put_all :
    (m saved : Dict String) (k : String)
    → Distinct saved
    → Dict.get (put_all m saved) k ≡ or_from (Dict.get saved k) (Dict.get m k)
unfolding Dict.get
get-put_all m [] k d = refl
get-put_all m ((j, v) ∷ saved) k d =
    get-put_all (Dict.put m j v) saved k d.1 ∙ elim (String-cases j k) [
      | inl (p, e) ↦
          let gone : Dict.get saved k ≡ none = ap (Dict.get saved) (sym p) ∙ d.0 in
          rw (gone, e) (Dict.get-put m j k v ∙ rw e refl)
      | inr (p, e) ↦ rw e (ap (or_from (Dict.get saved k)) (Dict.get-put m j k v ∙ rw e refl))
    ]

-- The entries that pass a test, put back after they have been taken out.
pub put_all-keep_if :
    (q : String → Bool) (m : Dict String) (k : String)
    → Distinct m
    → Dict.get (put_all (keep_if (λ e. not (q e.0)) m) (keep_if (λ e. q e.0) m)) k ≡ Dict.get m k
put_all-keep_if q m k d =
    get-put_all (keep_if (λ e. not (q e.0)) m) (keep_if (λ e. q e.0) m) k (keep_if-Distinct q m d)
    ∙ rw (get-keep_if q m k, get-keep_if (λ x. not (q x)) m k)
        (elim (Bool-cases (q k)) [
          | inl f ↦ elim (Option-cases (Dict.get m k)) [
            | inl g ↦ rw (f, g) refl
            | inr (v, g) ↦ rw (f, g) refl
          ]
          | inr f ↦ rw f refl
        ])
