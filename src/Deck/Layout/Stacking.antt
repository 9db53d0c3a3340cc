-- ===== src/Deck/Layout/Stacking.antt =====
-- When a column can be stacked on another one, and where it then stands.
use notedeck.Prelude.{
  ◌<◌, String, true, List, [], ◌∷◌, ◌≡◌, ◌≢◌, arith, includes, without, eq_iff, is_some, Bool-cases,
  Option-cases, inl, inr,
}
use notedeck.Deck.Layout.{
  Groups, group_index_of, index_of, replace_group, Place, join_group, stack_column,
}
use notedeck.Deck.Layout.Counts.{occ, occurrences, Unique}
use notedeck.Deck.Layout.Moves.{group_index_of-some, occurrences-without}

includes-occ : (k : String) (g : List String) → 0 < occ k g → includes g k ≡ true
unfolding occ
includes-occ k [] h = absurd (omega arith)
includes-occ k (x ∷ g) h = ground (arith, includes-occ k g)

group_index_of-total :
    (l : Groups) (k : String) → 0 < occurrences k l → is_some (group_index_of l k) ≡ true
unfolding occurrences group_index_of
group_index_of-total [] k h = absurd (omega arith)
group_index_of-total (g ∷ l) k h = elim (Bool-cases (includes g k)) [
  | inl e ↦ ground arith
  | inr e ↦ ground (arith, group_index_of-total l k, includes-occ k g)
]

index_of-total :
    (g : List String) (k : String) → includes g k ≡ true → is_some (index_of g k) ≡ true
unfolding index_of
index_of-total [] k h = cc
index_of-total (x ∷ g) k h = ground (arith, index_of-total g k)

join_group-total :
    (l : Groups) (from_id to_id : String) (place : Place)
    → 0 < occurrences to_id l
    → is_some (join_group l from_id to_id place) ≡ true
unfolding join_group
join_group-total l from_id to_id place h = elim (Option-cases (group_index_of l to_id)) [
  | inl f ↦ ground (arith, group_index_of-total l to_id h)
  | inr (i, f) ↦
      let (g, at, m) = group_index_of-some l to_id i f in ground (arith, index_of-total g to_id m)
]

-- Stacking succeeds for any two different columns of a layout in which no column stands twice.
pub stack_column-total :
    (l : Groups) (from_id to_id : String) (place : Place)
    → Unique l
    → from_id ≢ to_id
    → 0 < occurrences from_id l
    → 0 < occurrences to_id l
    → is_some (stack_column l from_id to_id place) ≡ true
unfolding stack_column
stack_column-total l from_id to_id place u ne a b = elim (Option-cases (group_index_of l from_id)) [
  | inl f ↦ absurd (ground (arith, group_index_of-total l from_id a))
  | inr (i, f) ↦
      let (g, at, m) = group_index_of-some l from_id i f in
      ground (
        arith,
        eq_iff from_id to_id,
        group_index_of-total l to_id b,
        join_group-total (replace_group l i (without from_id g)) from_id to_id place
            (ground (arith, occurrences-without l from_id i to_id u at m, eq_iff from_id to_id)),
      )
]
