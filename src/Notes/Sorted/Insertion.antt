-- ===== src/Notes/Sorted/Insertion.antt =====
-- Notes that come in are put into the sorted list.
use notedeck.Prelude.{
  ℕ, ◌≤◌, String, true, ◌||◌, List, [], ◌∷◌, ◌==◌, ltb, ◌≡◌, refl, arith, Bool-cases, inl, inr,
}
use notedeck.Notes.Sorted.{
  Note, merge_sorted_notes, insert_desc, sort_onto, sort_by_created_at_desc, is_descending,
  insert_into_sorted,
}
use notedeck.Notes.Sorted.Contents.{count_id, count_id-merge_sorted_notes}
use notedeck.Notes.Sorted.Order.{
  AtMost, Descending, has_id, AtMost-le, merge_sorted_notes-Descending,
}

insert_desc-AtMost :
    (t : ℕ) (n : Note) (ns : List Note)
    → n.created_at ≤ t
    → AtMost t ns
    → AtMost t (insert_desc n ns)
unfolding insert_desc
insert_desc-AtMost t n [] h a = (h, tt)
insert_desc-AtMost t n (x ∷ ns) h a = elim (Bool-cases (ltb x.created_at n.created_at)) [
  | inl e ↦ rw e (h, a)
  | inr e ↦ rw e (a.0, insert_desc-AtMost t n ns h a.1)
]

insert_desc-Descending : (n : Note) (ns : List Note) → Descending ns → Descending (insert_desc n ns)
unfolding insert_desc
insert_desc-Descending n [] d = (tt, tt)
insert_desc-Descending n (x ∷ ns) d = elim (Bool-cases (ltb x.created_at n.created_at)) [
  | inl e ↦
      let le : x.created_at ≤ n.created_at = ground arith in
      rw e ((le, AtMost-le x.created_at n.created_at ns le d.0), d)
  | inr e ↦
      rw e
        (insert_desc-AtMost x.created_at n ns (ground arith) d.0, insert_desc-Descending n ns d.1)
]

sort_onto-Descending : (acc ns : List Note) → Descending acc → Descending (sort_onto acc ns)
sort_onto-Descending acc [] d = d
sort_onto-Descending acc (n ∷ ns) d =
    sort_onto-Descending (insert_desc n acc) ns (insert_desc-Descending n acc d)

sort-Descending : (ns : List Note) → Descending (sort_by_created_at_desc ns)
unfolding sort_by_created_at_desc
sort-Descending ns = sort_onto-Descending [] ns tt

is_descending-AtMost :
    (t : ℕ) (ns : List Note) (x : Note)
    → x.created_at ≤ t
    → is_descending (x ∷ ns) ≡ true
    → AtMost t (x ∷ ns)
unfolding is_descending
is_descending-AtMost t [] x le h = (le, tt)
is_descending-AtMost t (y ∷ ns) x le h =
    (le, is_descending-AtMost t ns y (ground arith) (ground arith))

is_descending_lem : (ns : List Note) → is_descending ns ≡ true → Descending ns
unfolding is_descending
is_descending_lem [] h = tt
is_descending_lem (x ∷ []) h = (tt, tt)
is_descending_lem (x ∷ y ∷ ns) h = (
  is_descending-AtMost x.created_at ns y (ground arith) (ground arith),
  is_descending_lem (y ∷ ns) (ground arith),
)

-- Putting any batch of notes into a list that is newest first gives a list that is newest first.
pub insert_into_sorted-Descending :
    (sorted batch : List Note) → Descending sorted → Descending (insert_into_sorted sorted batch)
unfolding insert_into_sorted
insert_into_sorted-Descending sorted [] d = d
insert_into_sorted-Descending [] (n ∷ []) d = (tt, tt)
insert_into_sorted-Descending [] (n ∷ m ∷ ns) d = sort-Descending (n ∷ m ∷ ns)
insert_into_sorted-Descending (x ∷ xs) (n ∷ []) d =
    merge_sorted_notes-Descending (n ∷ []) (x ∷ xs) (tt, tt) d
insert_into_sorted-Descending (x ∷ xs) (n ∷ m ∷ ns) d =
    elim (Bool-cases (is_descending (n ∷ m ∷ ns))) [
      | inl e ↦
          rw e (
            merge_sorted_notes-Descending (n ∷ m ∷ ns) (x ∷ xs) (is_descending_lem (n ∷ m ∷ ns) e)
              d)
      | inr e ↦ rw e (
          merge_sorted_notes-Descending (sort_by_created_at_desc (n ∷ m ∷ ns)) (x ∷ xs)
            (sort-Descending (n ∷ m ∷ ns)) d)
    ]

has_id-count : (ns : List Note) (k : String) → has_id ns k ≡ ltb 0 (count_id k ns)
unfolding count_id
has_id-count [] k = refl
has_id-count (n ∷ ns) k = ground (arith, has_id-count ns k)

has_id-merge :
    (a b : List Note) (k : String) → has_id (merge_sorted_notes a b) k ≡ (has_id a k || has_id b k)
has_id-merge a b k =
    ground (arith, has_id-count (merge_sorted_notes a b) k, count_id-merge_sorted_notes k a b)

has_id-insert_desc :
    (n : Note) (ns : List Note) (k : String)
    → has_id (insert_desc n ns) k ≡ (n.id == k || has_id ns k)
unfolding insert_desc
has_id-insert_desc n [] k = refl
has_id-insert_desc n (x ∷ ns) k = ground (arith, has_id-insert_desc n ns k)

has_id-sort_onto :
    (acc ns : List Note) (k : String) → has_id (sort_onto acc ns) k ≡ (has_id acc k || has_id ns k)
has_id-sort_onto acc [] k = ground arith
has_id-sort_onto acc (n ∷ ns) k =
    ground (arith, has_id-sort_onto (insert_desc n acc) ns k, has_id-insert_desc n acc k)

has_id-sort : (ns : List Note) (k : String) → has_id (sort_by_created_at_desc ns) k ≡ has_id ns k
unfolding sort_by_created_at_desc
has_id-sort ns k = has_id-sort_onto [] ns k

-- After a batch is put in, the list has exactly the ids of the old list and of the batch.
pub has_id-insert_into_sorted :
    (sorted batch : List Note) (k : String)
    → has_id (insert_into_sorted sorted batch) k ≡ (has_id sorted k || has_id batch k)
unfolding insert_into_sorted
has_id-insert_into_sorted sorted [] k = ground arith
has_id-insert_into_sorted [] (n ∷ []) k = refl
has_id-insert_into_sorted [] (n ∷ m ∷ ns) k = has_id-sort (n ∷ m ∷ ns) k
has_id-insert_into_sorted (x ∷ xs) (n ∷ []) k = ground (arith, has_id-merge (n ∷ []) (x ∷ xs) k)
has_id-insert_into_sorted (x ∷ xs) (n ∷ m ∷ ns) k = ground (
  arith,
  has_id-merge (n ∷ m ∷ ns) (x ∷ xs) k,
  has_id-merge (sort_by_created_at_desc (n ∷ m ∷ ns)) (x ∷ xs) k,
  has_id-sort (n ∷ m ∷ ns) k,
)
