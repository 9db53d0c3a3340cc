-- ===== src/Notes/Eviction/Dropped.antt =====
-- The first pass: what it drops, and how much.
use notedeck.Prelude.{
  ℕ, zero, suc, ◌+◌, ◌≤◌, String, true, none, some, List, [], ◌∷◌, length, includes, is_some, ◌≡◌,
  refl, arith, Bool-cases, Option-cases, String-cases, inl, inr, ◌⊎◌,
}
use notedeck.Prelude.Dict
use notedeck.Prelude.Dict.{Dict, Distinct}
use notedeck.Notes.Eviction.{drop_dead}

module _ {ℓ} {T : Type ℓ} where
  delete-none : (m : Dict T) (k : String) → Dict.get m k ≡ none → Dict.delete m k ≡ m
  unfolding Dict.get Dict.delete
  delete-none [] k h = refl
  delete-none ((j, v) ∷ m) k h = elim (String-cases j k) [
    | inl (p, e) ↦ absurd (ground arith)
    | inr (p, e) ↦ ground (arith, delete-none m k)
  ]

  pub length-delete :
      (m : Dict T) (k : String)
      → Distinct m
      → is_some (Dict.get m k) ≡ true
      → suc (length (Dict.delete m k)) ≡ length m
  unfolding Dict.get Dict.delete
  length-delete [] k d h = absurd (ground arith)
  length-delete ((j, v) ∷ m) k d h = elim (String-cases j k) [
    | inl (p, e) ↦ ground (arith, delete-none m k, d.0)
    | inr (p, e) ↦ ground (arith, length-delete m k d.1)
  ]

  pub get-drop_dead :
      (live : List String) (n : ℕ) (m : Dict T) (k : String) (v : T)
      → Distinct m
      → Dict.get (drop_dead live n m) k ≡ some v
      → Dict.get m k ≡ some v
  unfolding Dict.get drop_dead
  get-drop_dead live n [] k v d h = h
  get-drop_dead live zero ((j, w) ∷ m) k v d h = h
  get-drop_dead live (suc n) ((j, w) ∷ m) k v d h = elim (Bool-cases (includes live j)) [
    | inl e ↦ ground (arith, e, get-drop_dead live (suc n) m k v d.1)
    | inr e ↦
        let below : Dict.get m k ≡ some v = get-drop_dead live n m k v d.1 (ground arith) in
        elim (String-cases j k) [
          | inl (p, f) ↦ absurd (ground (arith, d.0))
          | inr (p, f) ↦ rw f below
        ]
  ]

  none-drop_dead :
      (live : List String) (n : ℕ) (m : Dict T) (k : String)
      → Distinct m
      → Dict.get m k ≡ none
      → Dict.get (drop_dead live n m) k ≡ none
  none-drop_dead live n m k d h = elim (Option-cases (Dict.get (drop_dead live n m) k)) [
    | inl e ↦ e
    | inr (v, e) ↦ absurd (ground (arith, get-drop_dead live n m k v d e))
  ]

  pub drop_dead-Distinct :
      (live : List String) (n : ℕ) (m : Dict T) → Distinct m → Distinct (drop_dead live n m)
  unfolding drop_dead
  drop_dead-Distinct live n [] d = tt
  drop_dead-Distinct live zero ((j, w) ∷ m) d = d
  drop_dead-Distinct live (suc n) ((j, w) ∷ m) d = elim (Bool-cases (includes live j)) [
    | inl e ↦ rw e (none-drop_dead live (suc n) m j d.1 d.0, drop_dead-Distinct live (suc n) m d.1)
    | inr e ↦ rw e (drop_dead-Distinct live n m d.1)
  ]

  -- Every key is in the list.
  abbrev pub AllIn : List String → Dict T → Type 0
  AllIn live m = (k : String) → is_some (Dict.get m k) ≡ true → includes live k ≡ true

  -- Either it deletes as many entries as it should, or what is left is live.
  pub drop_dead-enough :
      (live : List String) (n : ℕ) (m : Dict T)
      → (length (drop_dead live n m) + n ≡ length m) ⊎ AllIn live (drop_dead live n m)
  unfolding Dict.get drop_dead
  drop_dead-enough live n [] = inr (λ k h. absurd (ground arith))
  drop_dead-enough live zero ((j, w) ∷ m) = inl (omega arith)
  drop_dead-enough live (suc n) ((j, w) ∷ m) = elim (Bool-cases (includes live j)) [
    | inl e ↦ rw e (elim (drop_dead-enough live (suc n) m) [
      | inl f ↦ inl (omega (arith, f))
      | inr a ↦ inr (λ k h. elim (String-cases j k) [
        | inl (p, f) ↦ cc
        | inr (p, f) ↦ a k (ground (arith, h))
      ])
    ])
    | inr e ↦
        rw e (elim (drop_dead-enough live n m) [ inl f ↦ inl (omega (arith, f)) | inr a ↦ inr a ])
  ]

  length-drop_dead :
      (live : List String) (n : ℕ) (m : Dict T) → length m ≤ length (drop_dead live n m) + n
  unfolding drop_dead
  length-drop_dead live n [] = omega arith
  length-drop_dead live zero ((j, w) ∷ m) = omega arith
  length-drop_dead live (suc n) ((j, w) ∷ m) =
      ground (arith, length-drop_dead live (suc n) m, length-drop_dead live n m)
