-- ===== src/Notes/Cache/Visits.antt =====
-- The loop of `evictIfNeeded` over the live ids.
use notedeck.Prelude.{
  ℕ, zero, suc, ◌+◌, ◌≤◌, String, true, false, Option, none, some, List, [], ◌∷◌, ◌++◌, includes,
  without, length, NoRepeat, includes-append, includes-without, length-without-lt, length-append,
  ◌==◌, ◌≡◌, ◌⊎◌, refl, arith, eq_iff, eq_refl, Bool-cases, Option-cases, inl, inr,
}
use notedeck.Notes.Cache.{add_renotes}

pub append-NoRepeat :
    (xs : List String) (r : String)
    → NoRepeat xs
    → includes xs r ≡ false
    → NoRepeat (xs ++ (r ∷ []))
append-NoRepeat [] r u h = (refl, tt)
append-NoRepeat (x ∷ xs) r u h = (
  ground (arith, includes-append xs (r ∷ []) x, u.0, eq_iff x r, eq_iff r x),
  append-NoRepeat xs r u.1 (ground arith),
)

-- What the loop keeps: nothing stands twice in what is pending, all of it is live, the live ids that
-- are not pending have their renotes live, and the keys that are left cover the ids that have a
-- renote and are yet to be visited.
pub record Visiting (f : String → Option String) (pending live keys : List String) : Type 0 where
  pub once : NoRepeat pending
  pub pending_live : (x : String) → includes pending x ≡ true → includes live x ≡ true
  pub closed :
      (x y : String)
      → includes live x ≡ true
      → includes pending x ≡ false
      → f x ≡ some y
      → includes live y ≡ true
  pub left :
      (x y : String)
      → f x ≡ some y
      → (includes live x ≡ false) ⊎ (includes pending x ≡ true)
      → includes keys x ≡ true

-- The renote of every live note is live.
abbrev pub Closed : (String → Option String) → List String → Type 0
Closed f live = (x y : String) → includes live x ≡ true → f x ≡ some y → includes live y ≡ true

visit_none :
    (f : String → Option String) (id : String) (pending live keys : List String)
    → f id ≡ none
    → Visiting f (id ∷ pending) live keys
    → Visiting f pending live keys
visit_none f id pending live keys e v = record {
  once = v.once.1;
  pending_live = λ x h. v.pending_live x (ground (arith, h));
  closed = λ x y l p h. elim (Bool-cases (id == x)) [
    | inl q ↦ absurd (ground (arith, eq_iff id x))
    | inr q ↦ v.closed x y l (ground arith) h
  ];
  left = λ x y h o. v.left x y h (elim o [ inl a ↦ inl a | inr b ↦ inr (ground arith) ]);
}

visit_seen :
    (f : String → Option String) (id r : String) (pending live keys : List String)
    → f id ≡ some r
    → includes live r ≡ true
    → Visiting f (id ∷ pending) live keys
    → Visiting f pending live (without id keys)
visit_seen f id r pending live keys e s v = record {
  once = v.once.1;
  pending_live = λ x h. v.pending_live x (ground (arith, h));
  closed = λ x y l p h. elim (Bool-cases (id == x)) [
    | inl q ↦ ground (arith, eq_iff id x)
    | inr q ↦ v.closed x y l (ground arith) h
  ];
  left = λ x y h o.
      let old : includes keys x ≡ true =
        v.left x y h (elim o [ inl a ↦ inl a | inr b ↦ inr (ground arith) ]) in
      let here : includes live id ≡ true = v.pending_live id (ground (arith, eq_refl id)) in
      elim o [
        | inl a ↦ ground (arith, includes-without keys id x, eq_iff id x)
        | inr b ↦ ground (arith, includes-without keys id x, eq_iff id x, v.once.0)
      ];
}

visit_new :
    (f : String → Option String) (id r : String) (pending live keys : List String)
    → f id ≡ some r
    → includes live r ≡ false
    → Visiting f (id ∷ pending) live keys
    → Visiting f (pending ++ (r ∷ [])) (live ++ (r ∷ [])) (without id keys)
visit_new f id r pending live keys e s v =
    let here : includes live id ≡ true = v.pending_live id (ground (arith, eq_refl id)) in
    record {
      once = append-NoRepeat pending r v.once.1 (ground (arith, v.pending_live r));
      pending_live = λ x h. ground (
        arith,
        includes-append pending (r ∷ []) x,
        includes-append live (r ∷ []) x,
        v.pending_live x,
      );
      closed = λ x y l p h. elim (Bool-cases (id == x)) [
        | inl q ↦ ground (arith, eq_iff id x, includes-append live (r ∷ []) y, eq_refl r)
        | inr q ↦ ground (
          arith,
          includes-append pending (r ∷ []) x,
          includes-append live (r ∷ []) x,
          includes-append live (r ∷ []) y,
          v.closed x y,
        )
      ];
      left = λ x y h o. elim (Bool-cases (includes live x)) [
        | inl l ↦
            let waits : includes pending x ≡ true = elim o [
              | inl a ↦ absurd (ground (arith, includes-append live (r ∷ []) x))
              | inr b ↦ ground (arith, includes-append pending (r ∷ []) x, eq_iff r x)
            ] in
            ground (
              arith,
              v.left x y h (inr (ground arith)),
              includes-without keys id x,
              eq_iff id x,
              v.once.0,
            )
        | inr l ↦ ground (arith, v.left x y h (inl l), includes-without keys id x, eq_iff id x)
      ];
    }

-- With as much fuel as there are ids to visit and keys left, the loop visits all.
pub add_renotes-Closed :
    (n : ℕ) (f : String → Option String) (pending live keys : List String)
    → length pending + length keys ≤ n
    → Visiting f pending live keys
    → Closed f (add_renotes n f pending live)
unfolding add_renotes
add_renotes-Closed zero f [] live keys le v = λ x y l h. v.closed x y l refl h
add_renotes-Closed zero f (id ∷ pending) live keys le v = absurd (omega (arith, le))
add_renotes-Closed (suc n) f [] live keys le v = λ x y l h. v.closed x y l refl h
add_renotes-Closed (suc n) f (id ∷ pending) live keys le v = elim (Option-cases (f id)) [
  | inl e ↦
      rw (e, add_renotes)
        (add_renotes-Closed n f pending live keys (omega (arith, le))
          (visit_none f id pending live keys e v))
  | inr (r, e) ↦
      let shorter = length-without-lt id keys (v.left id r e (inr (ground (arith, eq_refl id)))) in
      elim (Bool-cases (includes live r)) [
        | inl s ↦
            rw (e, s, add_renotes)
              (add_renotes-Closed n f pending live (without id keys) (omega (arith, le, shorter))
                (visit_seen f id r pending live keys e s v))
        | inr s ↦
            rw (e, s, add_renotes)
              (add_renotes-Closed n f (pending ++ (r ∷ [])) (live ++ (r ∷ [])) (without id keys)
                (omega (arith, le, shorter, length-append pending (r ∷ [])))
                (visit_new f id r pending live keys e s v))
      ]
]

pub includes-add_renotes :
    (n : ℕ) (f : String → Option String) (pending live : List String) (x : String)
    → includes live x ≡ true
    → includes (add_renotes n f pending live) x ≡ true
unfolding add_renotes
includes-add_renotes zero f pending live x l = l
includes-add_renotes (suc n) f [] live x l = l
includes-add_renotes (suc n) f (id ∷ pending) live x l = elim (Option-cases (f id)) [
  | inl e ↦ rw (e, add_renotes) (includes-add_renotes n f pending live x l)
  | inr (r, e) ↦ elim (Bool-cases (includes live r)) [
    | inl s ↦ rw (e, s, add_renotes) (includes-add_renotes n f pending live x l)
    | inr s ↦
        rw (e, s, add_renotes)
          (includes-add_renotes n f (pending ++ (r ∷ [])) (live ++ (r ∷ [])) x
            (ground (arith, includes-append live (r ∷ []) x)))
  ]
]
