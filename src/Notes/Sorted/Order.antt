-- ===== src/Notes/Sorted/Order.antt =====
-- The merge keeps the order and the ids.
use notedeck.Prelude.{
  ℕ, ◌≤◌, String, Bool, List, [], ◌∷◌, includes, ◌==◌, any, leb, arith, Bool-cases, inl, inr,
}
use notedeck.Notes.Sorted.{Note, push_new, see, take_rest, merge_from, merge_sorted_notes}

-- No note is newer than the time.
abbrev pub AtMost : ℕ → List Note → Type 0
AtMost t [] = Unit
AtMost t (x ∷ xs) = (x.created_at ≤ t) × AtMost t xs

-- Newest first.
abbrev pub Descending : List Note → Type 0
Descending [] = Unit
Descending (x ∷ xs) = AtMost x.created_at xs × Descending xs

abbrev pub has_id : List Note → String → Bool
has_id ns id = any (λ n. n.id == id) ns

pub AtMost-le : (t u : ℕ) (ns : List Note) → t ≤ u → AtMost t ns → AtMost u ns
AtMost-le t u [] h a = tt
AtMost-le t u (x ∷ ns) h a = (omega arith, AtMost-le t u ns h a.1)

push_new-AtMost :
    (seen : List String) (t : ℕ) (n : Note) (rest : List Note)
    → n.created_at ≤ t
    → AtMost t rest
    → AtMost t (push_new seen n rest)
push_new-AtMost seen t n rest h a = elim (Bool-cases (includes seen n.id)) [
  | inl e ↦ rw e a
  | inr e ↦ rw e (h, a)
]

push_new-Descending :
    (seen : List String) (n : Note) (rest : List Note)
    → AtMost n.created_at rest
    → Descending rest
    → Descending (push_new seen n rest)
push_new-Descending seen n rest a d = elim (Bool-cases (includes seen n.id)) [
  | inl e ↦ rw e d
  | inr e ↦ rw e (a, d)
]

take_rest-AtMost :
    (t : ℕ) (ns : List Note) (seen : List String) → AtMost t ns → AtMost t (take_rest ns seen)
unfolding take_rest
take_rest-AtMost t [] seen a = tt
take_rest-AtMost t (n ∷ ns) seen a =
    push_new-AtMost seen t n _ a.0 (take_rest-AtMost t ns (see seen n) a.1)

take_rest-Descending :
    (ns : List Note) (seen : List String) → Descending ns → Descending (take_rest ns seen)
unfolding take_rest
take_rest-Descending [] seen d = tt
take_rest-Descending (n ∷ ns) seen d =
    push_new-Descending seen n _ (take_rest-AtMost n.created_at ns (see seen n) d.0)
      (take_rest-Descending ns (see seen n) d.1)

merge_from-AtMost :
    (t : ℕ) (a b : List Note) (seen : List String)
    → AtMost t a
    → AtMost t b
    → AtMost t (merge_from a b seen)
unfolding merge_from
merge_from-AtMost t [] b seen p q = take_rest-AtMost t b seen q
merge_from-AtMost t (x ∷ a) [] seen p q = take_rest-AtMost t (x ∷ a) seen p
merge_from-AtMost t (x ∷ a) (y ∷ b) seen p q = elim (Bool-cases (leb y.created_at x.created_at)) [
  | inl e ↦
      rw (e, merge_from)
        (push_new-AtMost seen t x _ p.0 (merge_from-AtMost t a (y ∷ b) (see seen x) p.1 q))
  | inr e ↦
      rw (e, merge_from)
        (push_new-AtMost seen t y _ q.0 (merge_from-AtMost t (x ∷ a) b (see seen y) p q.1))
]

merge_from-Descending :
    (a b : List Note) (seen : List String)
    → Descending a
    → Descending b
    → Descending (merge_from a b seen)
unfolding merge_from
merge_from-Descending [] b seen p q = take_rest-Descending b seen q
merge_from-Descending (x ∷ a) [] seen p q = take_rest-Descending (x ∷ a) seen p
merge_from-Descending (x ∷ a) (y ∷ b) seen p q = elim (Bool-cases (leb y.created_at x.created_at)) [
  | inl e ↦
      let le : y.created_at ≤ x.created_at = ground arith in
      rw (e, merge_from)
        (push_new-Descending seen x _
          (merge_from-AtMost x.created_at a (y ∷ b) (see seen x) p.0
            (le, AtMost-le y.created_at x.created_at b le q.0))
          (merge_from-Descending a (y ∷ b) (see seen x) p.1 q))
  | inr e ↦
      let le : x.created_at ≤ y.created_at = ground arith in
      rw (e, merge_from)
        (push_new-Descending seen y _
          (merge_from-AtMost y.created_at (x ∷ a) b (see seen y)
            (le, AtMost-le x.created_at y.created_at a le p.0) q.0)
          (merge_from-Descending (x ∷ a) b (see seen y) p q.1))
]

-- Two lists, newest first, merge into a list that is newest first.
pub merge_sorted_notes-Descending :
    (a b : List Note) → Descending a → Descending b → Descending (merge_sorted_notes a b)
unfolding merge_sorted_notes
merge_sorted_notes-Descending a b p q = merge_from-Descending a b [] p q
