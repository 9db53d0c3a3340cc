-- ===== src/Notes/Sorted.antt =====
-- utils/sortNotes.ts: notes in descending order of `createdAt`, merged and with repetitions removed.
-- `createdAt` is a text of fixed format, which compares as the time it names: it is a number here.
pub mod Order
pub mod Contents
pub mod Insertion
use notedeck.Prelude.{
  ℕ, String, Bool, true, false, ◌&&◌, ◌||◌, Option, none, some, List, [], ◌∷◌, includes, length,
  ◌==◌, find, any, leb, ltb, if◌then◌else◌,
}

-- What the other fields of a note hold is `body`.
pub record Note : Type 0 where
  pub id : String
  pub created_at : ℕ
  pub body : String

-- `if (!seen.has(n.id)) { seen.add(n.id); result.push(n) }`, before the rest of the result.
abbrev pub push_new : List String → Note → List Note → List Note
push_new seen n rest = if includes seen n.id then rest else n ∷ rest

abbrev pub see : List String → Note → List String
see seen n = if includes seen n.id then seen else n.id ∷ seen

-- The second and the third loop.
unfoldable pub take_rest : List Note → List String → List Note
take_rest [] seen = []
take_rest (n ∷ ns) seen = push_new seen n (take_rest ns (see seen n))

-- The first loop, and what follows it.
unfoldable pub merge_from : List Note → List Note → List String → List Note
unfolding take_rest
merge_from [] b seen = take_rest b seen
merge_from (x ∷ a) [] seen = take_rest (x ∷ a) seen
merge_from (x ∷ a) (y ∷ b) seen = elim (leb y.created_at x.created_at) [
  | true ↦ push_new seen x (merge_from a (y ∷ b) (see seen x))
  | false ↦ push_new seen y (merge_from (x ∷ a) b (see seen y))
]

unfoldable pub merge_sorted_notes : List Note → List Note → List Note
unfolding merge_from
merge_sorted_notes a b = merge_from a b []

-- A stable insertion, behind the notes that are as new.
unfoldable pub insert_desc : Note → List Note → List Note
insert_desc n [] = n ∷ []
insert_desc n (x ∷ xs) =
    let rest = insert_desc n xs in if ltb x.created_at n.created_at then n ∷ x ∷ xs else x ∷ rest

abbrev pub sort_onto : List Note → List Note → List Note
sort_onto acc [] = acc
sort_onto acc (n ∷ ns) = sort_onto (insert_desc n acc) ns

-- `Array.sort` is stable.
unfoldable pub sort_by_created_at_desc : List Note → List Note
unfolding insert_desc
sort_by_created_at_desc ns = sort_onto [] ns

unfoldable pub is_descending : List Note → Bool
is_descending [] = true
is_descending (x ∷ []) = true
is_descending (x ∷ y ∷ ns) = leb y.created_at x.created_at && is_descending (y ∷ ns)

unfoldable pub insert_into_sorted : List Note → List Note → List Note
unfolding merge_sorted_notes sort_by_created_at_desc is_descending
insert_into_sorted sorted [] = sorted
insert_into_sorted [] (n ∷ []) = n ∷ []
insert_into_sorted [] (n ∷ m ∷ ns) = sort_by_created_at_desc (n ∷ m ∷ ns)
insert_into_sorted (x ∷ xs) (n ∷ []) = merge_sorted_notes (n ∷ []) (x ∷ xs)
insert_into_sorted (x ∷ xs) (n ∷ m ∷ ns) =
    if is_descending (n ∷ m ∷ ns)
    then merge_sorted_notes (n ∷ m ∷ ns) (x ∷ xs)
    else merge_sorted_notes (sort_by_created_at_desc (n ∷ m ∷ ns)) (x ∷ xs)
