-- ===== src/Deck/WellFormed/Operations.antt =====
-- What the user does to the deck, as one data type, and the runs of it.
use notedeck.Prelude.{Bool, ℕ, String, false, Option, or_else, ◌≡◌}
use notedeck.Deck.Layout.{Place}
use notedeck.Deck.Columns.{WindowLayout, Column, ColumnType, ColumnUpdate, Profile, has_column}
use notedeck.Deck.Profiles
use notedeck.Deck.Profiles.{columns}
use notedeck.Deck.Store
use notedeck.Deck.Store.{Deck, Removed}
use notedeck.Deck.Windows
use notedeck.Deck.WellFormed.{WellFormed}

-- The first text of an operation that makes a column is the id of it; a function gives a profile's
-- name its file name, and a number is the time.
pub data Operation : Type 0 where
  add_column : Column → Operation
  add_column_at : ℕ → Column → Operation
  update_column : String → ColumnUpdate → Operation
  open_chat_with open_search_with : String → String → Operation
  toggle_sidebar_column : String → ColumnType → Option String → ColumnUpdate → Operation
  remove_column : String → Operation
  undo_remove : Removed → Operation
  swap_columns : ℕ → ℕ → Operation
  stack_column : String → String → Place → Operation
  swap_in_group : String → String → Operation
  insert_column_at : String → ℕ → Operation
  unstack_column move_left move_right : String → Operation
  clear : Operation
  set_active_column : String → Operation
  focus_next_column focus_prev_column run_next_tick : Operation
  pop_out_column : String → String → Operation
  recall_column recall_columns_from_window : String → Operation
  move_column_to_window : String → Option String → Operation
  switch_profile delete_profile : String → Operation
  undo_delete : ℕ → Profile → Operation
  create_empty_profile save_as_profile : (String → String) → String → ℕ → Operation
  rename_profile : (String → String) → String → String → Operation
  save_window_layout : WindowLayout → Bool → Operation

abbrev on : (Profiles.Profiles → Profiles.Profiles) → Deck → Deck
on f d = record d { store = f d.store }

unfoldable pub run : Operation → Deck → Deck
run (add_column c) d = Store.add_column c d
run (add_column_at i c) d = Store.add_column_at i c d
run (update_column id u) d = Store.update_column id u d
run (open_chat_with new_id target) d = Store.open_chat_with new_id target d
run (open_search_with new_id query) d = Store.open_search_with new_id query d
run (toggle_sidebar_column new_id t a extra) d = Store.toggle_sidebar_column new_id t a extra d
run (remove_column id) d = (Store.remove_column id d).0
run (undo_remove r) d = Store.undo_remove r d
run (swap_columns i j) d = Store.swap_columns i j d
run (stack_column a b place) d = Store.stack_column a b place d
run (swap_in_group a b) d = Store.swap_in_group a b d
run (insert_column_at id i) d = Store.insert_column_at id i d
run (unstack_column id) d = Store.unstack_column id d
run (move_left id) d = Store.move_left id d
run (move_right id) d = Store.move_right id d
run clear d = Store.clear d
run (set_active_column id) d = Store.set_active_column id d
run focus_next_column d = Store.focus_next_column d
run focus_prev_column d = Store.focus_prev_column d
run run_next_tick d = Store.run_next_tick d
run (pop_out_column id window) d = Windows.pop_out_column id window d
run (recall_column id) d = Windows.recall_column id d
run (recall_columns_from_window window) d = Windows.recall_columns_from_window window d
run (move_column_to_window id target) d = Windows.move_column_to_window id target d
run (switch_profile id) d = on (λ s. or_else (Profiles.switch_profile id s) s) d
run (delete_profile id) d = on (Profiles.delete_profile id) d
run (undo_delete index p) d = on (Profiles.undo_delete index p) d
run (create_empty_profile file name now) d = on (Profiles.create_empty_profile file name now) d
run (save_as_profile file name now) d = on (Profiles.save_as_profile file name now) d
run (rename_profile file id name) d = on (Profiles.rename_profile file id name) d
run (save_window_layout w immediate) d = on (Profiles.save_window_layout w immediate) d

abbrev New : String → Deck → Type 0
New id d = has_column (columns d.store) id ≡ false

-- The id of a new column is new, and a profile that comes back is one that was well formed.
abbrev pub Allowed : Operation → Deck → Type 0
Allowed (add_column c) d = New c.id d
Allowed (add_column_at i c) d = New c.id d
Allowed (open_chat_with new_id target) d = New new_id d
Allowed (open_search_with new_id query) d = New new_id d
Allowed (toggle_sidebar_column new_id t a extra) d = New new_id d
Allowed (undo_delete index p) d = WellFormed p
Allowed _ d = Unit

-- The states that a deck comes to.
pub data Reaches (d : Deck) : Deck → Type 0 where
  start : Reaches d d
  next : {e : Deck} (o : Operation) → Reaches d e → Allowed o e → Reaches d (run o e)
