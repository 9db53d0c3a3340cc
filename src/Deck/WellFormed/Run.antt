-- ===== src/Deck/WellFormed/Run.antt =====
-- Every operation on the deck keeps all profiles well formed.
use notedeck.Prelude.{none, some, refl}
use notedeck.Deck.Store
use notedeck.Deck.Store.{
  Deck, Removed, drop_column, push_column, place_column, sidebar_column, new_column, turn_into,
  with_query,
}
use notedeck.Deck.Windows
use notedeck.Deck.Windows.{recall_all}
use notedeck.Deck.WellFormed.{AllWellFormed}
use notedeck.Deck.WellFormed.Operations.{
  create_empty_profile, save_as_profile, rename_profile, save_window_layout, Operation, run,
  Allowed, Reaches, start, next, add_column, add_column_at, update_column, open_chat_with,
  open_search_with, toggle_sidebar_column, remove_column, undo_remove, swap_columns, stack_column,
  swap_in_group, insert_column_at, unstack_column, move_left, move_right, clear, set_active_column,
  focus_next_column, focus_prev_column, run_next_tick, pop_out_column, recall_column,
  recall_columns_from_window, move_column_to_window, switch_profile, delete_profile, undo_delete,
}
use notedeck.Deck.WellFormed.Steps.{change-AllWellFormed}
use notedeck.Deck.WellFormed.Changes.{
  add_column-AllWellFormed, add_column_at-AllWellFormed, update_column-AllWellFormed,
  remove_column-AllWellFormed, undo_remove-AllWellFormed, swap_columns-AllWellFormed,
  stack_column-AllWellFormed, swap_in_group-AllWellFormed, insert_column_at-AllWellFormed,
  unstack_column-AllWellFormed, move_left-AllWellFormed, move_right-AllWellFormed,
  clear-AllWellFormed, recall_columns_from_window-AllWellFormed,
}
use notedeck.Deck.WellFormed.Catalog.{
  create_empty_profile-AllWellFormed, save_as_profile-AllWellFormed, rename_profile-AllWellFormed,
  save_window_layout-AllWellFormed,
}
use notedeck.Deck.WellFormed.Slots.{
  open_chat_with-AllWellFormed, open_search_with-AllWellFormed, toggle_sidebar_column-AllWellFormed,
  delete_profile-AllWellFormed, undo_delete-AllWellFormed, switch_profile-AllWellFormed,
  focus-AllWellFormed, run_next_tick-AllWellFormed,
}

pub run-AllWellFormed :
    (o : Operation) (d : Deck) → Allowed o d → AllWellFormed d.store → AllWellFormed (run o d).store
unfolding run Store.set_active_column Store.focus_next_column Store.focus_prev_column
    Windows.pop_out_column Windows.recall_column Windows.move_column_to_window
run-AllWellFormed (add_column c) d ok w = add_column-AllWellFormed c d ok w
run-AllWellFormed (add_column_at i c) d ok w = add_column_at-AllWellFormed i c d ok w
run-AllWellFormed (update_column id u) d ok w = update_column-AllWellFormed id u d w
run-AllWellFormed (open_chat_with id t) d ok w = open_chat_with-AllWellFormed id t d ok w
run-AllWellFormed (open_search_with id q) d ok w = open_search_with-AllWellFormed id q d ok w
run-AllWellFormed (toggle_sidebar_column id t a extra) d ok w =
    toggle_sidebar_column-AllWellFormed id t a extra d ok w
run-AllWellFormed (remove_column id) d ok w = remove_column-AllWellFormed id d w
run-AllWellFormed (undo_remove r) d ok w = undo_remove-AllWellFormed r d w
run-AllWellFormed (swap_columns i j) d ok w = swap_columns-AllWellFormed i j d w
run-AllWellFormed (stack_column a b place) d ok w = stack_column-AllWellFormed a b place d w
run-AllWellFormed (swap_in_group a b) d ok w = swap_in_group-AllWellFormed a b d w
run-AllWellFormed (insert_column_at id i) d ok w = insert_column_at-AllWellFormed id i d w
run-AllWellFormed (unstack_column id) d ok w = unstack_column-AllWellFormed id d w
run-AllWellFormed (move_left id) d ok w = move_left-AllWellFormed id d w
run-AllWellFormed (move_right id) d ok w = move_right-AllWellFormed id d w
run-AllWellFormed clear d ok w = clear-AllWellFormed d w
run-AllWellFormed (set_active_column id) d ok w = w
run-AllWellFormed focus_next_column d ok w = focus-AllWellFormed _ d w
run-AllWellFormed focus_prev_column d ok w = focus-AllWellFormed _ d w
run-AllWellFormed run_next_tick d ok w = run_next_tick-AllWellFormed d w
run-AllWellFormed (pop_out_column id window) d ok w =
    change-AllWellFormed id (λ c. record c { window_id = some window }) (Store.unstack_column id d)
      (λ c. refl) (unstack_column-AllWellFormed id d w)
run-AllWellFormed (recall_column id) d ok w =
    change-AllWellFormed id (λ c. record c { window_id = none }) d (λ c. refl) w
run-AllWellFormed (recall_columns_from_window window) d ok w =
    recall_columns_from_window-AllWellFormed window d w
run-AllWellFormed (move_column_to_window id target) d ok w =
    change-AllWellFormed id _ d (λ c. refl) w
run-AllWellFormed (switch_profile id) d ok w = switch_profile-AllWellFormed id d.store w
run-AllWellFormed (delete_profile id) d ok w = delete_profile-AllWellFormed id d.store w
run-AllWellFormed (create_empty_profile file name now) d ok w =
    create_empty_profile-AllWellFormed file name now d.store w
run-AllWellFormed (save_as_profile file name now) d ok w =
    save_as_profile-AllWellFormed file name now d.store w
run-AllWellFormed (rename_profile file id name) d ok w =
    rename_profile-AllWellFormed file id name d.store w
run-AllWellFormed (save_window_layout l immediate) d ok w =
    save_window_layout-AllWellFormed l immediate d.store w
run-AllWellFormed (undo_delete index p) d ok w = undo_delete-AllWellFormed index p d.store ok w

-- In every state that a deck with well-formed profiles comes to by the operations (the ids of new
-- columns being new, and profiles that come back being well formed), all profiles are well formed:
-- no id stands twice, each column stands in exactly one group, and no group is empty.
pub Reaches-AllWellFormed :
    (d e : Deck) → AllWellFormed d.store → Reaches d e → AllWellFormed e.store
Reaches-AllWellFormed d _ w start = w
Reaches-AllWellFormed d _ w (next {e} o r ok) =
    run-AllWellFormed o e ok (Reaches-AllWellFormed d e w r)
