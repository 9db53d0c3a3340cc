-- ===== src/Deck/Examples.antt =====
-- The theorems on the deck at a deck with three columns.
use notedeck.Prelude.{
  ℕ, ◌+◌, ◌≤◌, String, true, false, none, some, [], ◌∷◌, ◌≡◌, ◌≢◌, refl, arith, ◌==◌, eq_iff,
  if◌then◌else◌,
}
use notedeck.Deck.Layout
use notedeck.Deck.Layout.{Groups, Place, above, below, group_index_of}
use notedeck.Deck.Layout.Counts.{occ, occurrences, Unique, NoEmpty}
use notedeck.Deck.Layout.Moves.{Rearranges}
use notedeck.Deck.Layout.Rearrangements.{stack, move-Rearranges}
use notedeck.Deck.Columns.{timeline, Profile}
use notedeck.Deck.Profiles.{current_profile, mutate_profile, change_profile, empty_profile}
use notedeck.Deck.Store
use notedeck.Deck.Store.{Deck, new_column, Removed, remove_column, undo_remove}
use notedeck.Deck.WellFormed.{WellFormed, AllWellFormed}
use notedeck.Deck.WellFormed.Edits.{empty-WellFormed}
use notedeck.Deck.WellFormed.Operations.{run, Reaches, start, next, add_column, stack_column}
use notedeck.Deck.WellFormed.Run.{Reaches-AllWellFormed}
use notedeck.Deck.WellFormed.Undo.{Restored, undo_remove-remove_column}

abbrev three : Groups
three = ("a" ∷ "b" ∷ []) ∷ ("c" ∷ []) ∷ []

abbrev one_if_same : String → String → ℕ
one_if_same x k = if x == k then 1 else 0

-- A text is one of three different texts at most.
at_most_one :
    (x y z k : String)
    → (x == y) ≡ false
    → (y == z) ≡ false
    → (x == z) ≡ false
    → one_if_same x k + one_if_same y k + one_if_same z k ≤ 1
at_most_one x y z k a b c =
    ground (arith, eq_iff x y, eq_iff y z, eq_iff x z, eq_iff x k, eq_iff y k, eq_iff z k)

three-Unique : Unique three
unfolding occurrences occ
three-Unique k = omega (arith, at_most_one "a" "b" "c" k refl refl refl)

three-NoEmpty : NoEmpty three
three-NoEmpty = (omega arith, (omega arith, tt))

move-Rearranges_example : Rearranges three (("a" ∷ "b" ∷ "c" ∷ []) ∷ [])
unfolding Layout.stack_column Layout.join_group Layout.replace_group group_index_of Layout.index_of
move-Rearranges_example =
    move-Rearranges (stack "c" "b" below) three (("a" ∷ "b" ∷ "c" ∷ []) ∷ []) three-Unique
      three-NoEmpty refl

abbrev b_id : String
b_id = "b"

abbrev c_id : String
c_id = "c"

c_is_not_b : c_id ≢ b_id
c_is_not_b h = let same : (c_id == b_id) ≡ true = (eq_iff c_id b_id).1 h in cc

-- A deck that shows one empty profile.
abbrev no_columns : Profile
no_columns = empty_profile "main.json5" "main" 0

abbrev empty_deck : Deck
empty_deck = record {
  store = record {
    profiles = no_columns ∷ [];
    window_profile_id = some "main.json5";
    active_profile_id = some "main.json5";
    storage = [];
    pending = false;
    version = 0;
  };
  active_column_id = none;
  next_tick = none;
  focused_note_id = [];
  visible_items = [];
  last_focused_timeline = none;
  pending_chat_target = none;
  current_window_id = none;
}

abbrev with_a : Deck
with_a = run (add_column (new_column "a" timeline)) empty_deck

abbrev with_ab : Deck
with_ab = run (add_column (new_column "b" timeline)) with_a

run-Reaches : Reaches empty_deck (run (stack_column "b" "a" above) with_ab)
unfolding run Store.add_column current_profile mutate_profile change_profile Store.push_column
run-Reaches =
    next (stack_column "b" "a" above)
      (next (add_column (new_column "b" timeline))
        (next (add_column (new_column "a" timeline)) start refl) refl)
      tt

empty_deck-AllWellFormed : AllWellFormed empty_deck.store
empty_deck-AllWellFormed = (empty-WellFormed no_columns, tt)

Reaches-AllWellFormed_example : AllWellFormed (run (stack_column "b" "a" above) with_ab).store
Reaches-AllWellFormed_example =
    Reaches-AllWellFormed empty_deck (run (stack_column "b" "a" above) with_ab)
      empty_deck-AllWellFormed run-Reaches

abbrev profile_ab : Profile
profile_ab = record no_columns {
  columns = new_column "a" timeline ∷ new_column "b" timeline ∷ [];
  layout = ("a" ∷ []) ∷ ("b" ∷ []) ∷ [];
}

abbrev deck_ab : Deck
deck_ab = record empty_deck { store = record empty_deck.store { profiles = profile_ab ∷ [] } }

profile_ab-WellFormed : WellFormed profile_ab
unfolding occurrences occ
profile_ab-WellFormed = record {
  once = λ k. omega (arith, at_most_one "a" "b" "c" k refl refl refl);
  placed = λ k. ground arith;
  filled = (omega arith, (omega arith, tt));
}

abbrev removed_a : Removed
removed_a = record { column = new_column "a" timeline; group_index = some 0 }

undo_remove-remove_column_example :
    (q : Profile) × (current_profile (undo_remove removed_a (remove_column "a" deck_ab).0).store
      ≡ some q)
    × Restored "a" profile_ab q
unfolding current_profile remove_column group_index_of
undo_remove-remove_column_example =
    undo_remove-remove_column "a" deck_ab profile_ab removed_a refl profile_ab-WellFormed refl
