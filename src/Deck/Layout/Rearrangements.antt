-- ===== src/Deck/Layout/Rearrangements.antt =====
-- The moves of the layout as one data type.
use notedeck.Prelude.{ℕ, String, Option, some, ◌≡◌}
use notedeck.Deck.Layout.{
  Groups, Place, swap_groups, swap_in_group, insert_column_at, stack_column, unstack_column,
}
use notedeck.Deck.Layout.Counts.{Unique, NoEmpty}
use notedeck.Deck.Layout.Moves.{
  Rearranges, swap_groups-Rearranges, swap_in_group-Rearranges, insert_column_at-Rearranges,
  stack_column-Rearranges, unstack_column-Rearranges,
}

pub data Move : Type 0 where
  swap_two_groups : ℕ → ℕ → Move
  swap_inside : String → String → Move
  insert_at_group : String → ℕ → Move
  stack : String → String → Place → Move
  unstack : String → Move

abbrev pub move : Move → Groups → Option Groups
move (swap_two_groups i j) l = swap_groups l i j
move (swap_inside a b) l = swap_in_group l a b
move (insert_at_group id target) l = insert_column_at l id target
move (stack a b place) l = stack_column l a b place
move (unstack id) l = unstack_column l id

-- Every move of columns or groups that succeeds, in a layout where no column stands twice and no group
-- is empty, keeps every column in its number and leaves no group empty.
pub move-Rearranges :
    (m : Move) (l l' : Groups) → Unique l → NoEmpty l → move m l ≡ some l' → Rearranges l l'
move-Rearranges (swap_two_groups i j) l l' u e h = swap_groups-Rearranges l l' i j e h
move-Rearranges (swap_inside a b) l l' u e h = swap_in_group-Rearranges l l' a b e h
move-Rearranges (insert_at_group id target) l l' u e h =
    insert_column_at-Rearranges l l' id target u e h
move-Rearranges (stack a b place) l l' u e h = stack_column-Rearranges l l' a b place u e h
move-Rearranges (unstack id) l l' u e h = unstack_column-Rearranges l l' id u e h
