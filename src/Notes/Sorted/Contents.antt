-- ===== src/Notes/Sorted/Contents.antt =====
-- Which notes a merge contains, and which copy of a note.
use notedeck.Prelude.{
  ℕ, ◌+◌, ◌≤◌, String, Bool, true, false, not, ◌&&◌, ◌||◌, Option, none, some, List, [], ◌∷◌,
  includes, ◌==◌, leb, if◌then◌else◌, ◌≡◌, refl, sym, ap, ◌∙◌, arith, eq_iff, Bool-cases,
  Option-cases, inl, inr,
}
use notedeck.Notes.Sorted.{Note, push_new, see, take_rest, merge_from, merge_sorted_notes}
use notedeck.Notes.Sorted.Order.{AtMost, Descending, has_id}

-- How many notes have the id.
unfoldable pub count_id : String → List Note → ℕ
count_id k [] = 0
count_id k (n ∷ ns) = (if n.id == k then 1 else 0) + count_id k ns

includes-see :
    (seen : List String) (n : Note) (k : String)
    → includes (see seen n) k ≡ (n.id == k || includes seen k)
includes-see seen n k = ground (arith, eq_iff n.id k)

abbrev one_if : Bool → ℕ
one_if b = if b then 1 else 0

count_id-push_new :
    (k : String) (seen : List String) (n : Note) (rest : List Note) (others : Bool)
    → count_id k rest ≡ one_if (others && not (includes (see seen n) k))
    → count_id k (push_new seen n rest) ≡ one_if ((n.id == k || others) && not (includes seen k))
unfolding count_id
count_id-push_new k seen n rest others h = ground (arith, includes-see seen n k, eq_iff n.id k)

count_id-take_rest :
    (k : String) (ns : List Note) (seen : List String)
    → count_id k (take_rest ns seen) ≡ one_if (has_id ns k && not (includes seen k))
unfolding take_rest count_id
count_id-take_rest k [] seen = refl
count_id-take_rest k (n ∷ ns) seen =
    count_id-push_new k seen n (take_rest ns (see seen n)) (has_id ns k)
      (count_id-take_rest k ns (see seen n))

count_id-merge_from :
    (k : String) (a b : List Note) (seen : List String)
    → count_id k (merge_from a b seen)
      ≡ one_if ((has_id a k || has_id b k) && not (includes seen k))
unfolding merge_from
count_id-merge_from k [] b seen = count_id-take_rest k b seen
count_id-merge_from k (x ∷ a) [] seen = ground (arith, count_id-take_rest k (x ∷ a) seen)
count_id-merge_from k (x ∷ a) (y ∷ b) seen = elim (Bool-cases (leb y.created_at x.created_at)) [
  | inl e ↦
      rw (e, merge_from)
        (ground (
          arith,
          count_id-push_new k seen x (merge_from a (y ∷ b) (see seen x))
              (has_id a k || has_id (y ∷ b) k) (count_id-merge_from k a (y ∷ b) (see seen x)),
        ))
  | inr e ↦
      rw (e, merge_from)
        (ground (
          arith,
          count_id-push_new k seen y (merge_from (x ∷ a) b (see seen y))
              (has_id (x ∷ a) k || has_id b k) (count_id-merge_from k (x ∷ a) b (see seen y)),
        ))
]

-- A merge contains a note of each id of the two lists exactly once, and no other.
pub count_id-merge_sorted_notes :
    (k : String) (a b : List Note)
    → count_id k (merge_sorted_notes a b) ≡ (if has_id a k || has_id b k then 1 else 0)
unfolding merge_sorted_notes
count_id-merge_sorted_notes k a b = ground (arith, count_id-merge_from k a b [])

-- The first note with the id.
unfoldable pub first_with : String → List Note → Option Note
first_with k [] = none
first_with k (n ∷ ns) = let rest = first_with k ns in if n.id == k then some n else rest

abbrev pub prefer : Option Note → Option Note → Option Note
prefer none b = b
prefer (some x) b = some x

prefer-none : (o : Option Note) → prefer o none ≡ o
prefer-none none = refl
prefer-none (some x) = refl

-- No copy in the second list is newer than the copy in the first.
abbrev pub NotNewer : String → List Note → List Note → Type 0
NotNewer k a b =
    (x y : Note) → first_with k a ≡ some x → first_with k b ≡ some y → y.created_at ≤ x.created_at

first_with-push_new :
    (k : String) (seen : List String) (n : Note) (rest : List Note)
    → includes seen k ≡ false
    → first_with k (push_new seen n rest) ≡ (if n.id == k then some n else first_with k rest)
unfolding first_with
first_with-push_new k seen n rest h = ground (arith, eq_iff n.id k)

first_with-take_rest :
    (k : String) (ns : List Note) (seen : List String)
    → includes seen k ≡ false
    → first_with k (take_rest ns seen) ≡ first_with k ns
unfolding take_rest first_with
first_with-take_rest k [] seen h = refl
first_with-take_rest k (n ∷ ns) seen h = ground (
  arith,
  first_with-push_new k seen n (take_rest ns (see seen n)) h,
  includes-see seen n k,
  first_with-take_rest k ns (see seen n),
)

first_with_here :
    (k : String) (n : Note) (ns : List Note) → (n.id == k) ≡ true → first_with k (n ∷ ns) ≡ some n
unfolding first_with
first_with_here k n ns e = rw e refl

first_with_there :
    (k : String) (n : Note) (ns : List Note)
    → (n.id == k) ≡ false
    → first_with k (n ∷ ns) ≡ first_with k ns
unfolding first_with
first_with_there k n ns e = rw e refl

abbrev time_of : Option Note → ℕ
time_of none = 0
time_of (some n) = n.created_at

first_with-AtMost :
    (t : ℕ) (k : String) (ns : List Note) (x : Note)
    → AtMost t ns
    → first_with k ns ≡ some x
    → x.created_at ≤ t
unfolding first_with
first_with-AtMost t k [] x a h = cc
first_with-AtMost t k (n ∷ ns) x a h = elim (Bool-cases (n.id == k)) [
  | inl e ↦
      let same : n.created_at ≡ x.created_at = ap time_of (sym (first_with_here k n ns e) ∙ h) in
      omega (arith, a.0, same)
  | inr e ↦ first_with-AtMost t k ns x a.1 (sym (first_with_there k n ns e) ∙ h)
]

-- A list whose notes are all older than `y` has no other copy of `y`.
no_older_copy :
    (k : String) (x y : Note) (a b : List Note)
    → Descending (x ∷ a)
    → NotNewer k (x ∷ a) (y ∷ b)
    → leb y.created_at x.created_at ≡ false
    → (y.id == k) ≡ true
    → first_with k (x ∷ a) ≡ none
no_older_copy k x y a b d old e here = elim (Option-cases (first_with k (x ∷ a))) [
  | inl n ↦ n
  | inr (z, f) ↦
      let newest = first_with-AtMost x.created_at k (x ∷ a) z (omega arith, d.0) f in
      let older = old z y f (first_with_here k y b here) in absurd (ground arith)
]

first_with-merge_from :
    (k : String) (a b : List Note) (seen : List String)
    → Descending a
    → NotNewer k a b
    → includes seen k ≡ false
    → first_with k (merge_from a b seen) ≡ prefer (first_with k a) (first_with k b)
unfolding merge_from first_with
first_with-merge_from k [] b seen d old h = first_with-take_rest k b seen h
first_with-merge_from k (x ∷ a) [] seen d old h =
    first_with-take_rest k (x ∷ a) seen h ∙ sym (prefer-none (first_with k (x ∷ a)))
first_with-merge_from k (x ∷ a) (y ∷ b) seen d old h =
    elim (Bool-cases (leb y.created_at x.created_at)) [
      | inl e ↦
          rw (e, merge_from)
            (first_with-push_new k seen x (merge_from a (y ∷ b) (see seen x)) h
              ∙ elim (Bool-cases (x.id == k)) [
                | inl i ↦ rw i refl
                | inr i ↦ rw i (
                    first_with-merge_from k a (y ∷ b) (see seen x) d.1
                      (λ p q hp hq. old p q (first_with_there k x a i ∙ hp) hq)
                      (rw (includes-see seen x k, i, h) refl))
              ])
      | inr e ↦
          rw (e, merge_from)
            (first_with-push_new k seen y (merge_from (x ∷ a) b (see seen y)) h
              ∙ elim (Bool-cases (y.id == k)) [
                | inl i ↦ rw (i, no_older_copy k x y a b d old e i) refl
                | inr i ↦ rw i (
                    first_with-merge_from k (x ∷ a) b (see seen y) d
                      (λ p q hp hq. old p q hp (first_with_there k y b i ∙ hq))
                      (rw (includes-see seen y k, i, h) refl))
              ])
    ]

-- Of an id that both lists have, the merge keeps the note of the first list, if that list is newest
-- first and the copy in the second is not newer; of any other id, the note of the list that has it.
pub first_with-merge_sorted_notes :
    (k : String) (a b : List Note)
    → Descending a
    → NotNewer k a b
    → first_with k (merge_sorted_notes a b) ≡ prefer (first_with k a) (first_with k b)
unfolding merge_sorted_notes
first_with-merge_sorted_notes k a b d old = first_with-merge_from k a b [] d old refl
