-- ===== src/Deck/WellFormed/Changes.antt =====
-- The operations of stores/deck.ts on columns, their layout and their windows keep all profiles
-- well formed.
use notedeck.Prelude.{
  ℕ, ◌+◌, ◌-◌, String, false, some, List, [], ◌∷◌, any, length, ◌≡◌, refl, ap, Bool-cases,
  Option-cases, inl, inr, ltb,
}
use notedeck.Deck.Layout
use notedeck.Deck.Layout.{Groups, Place, group_index_of}
use notedeck.Deck.Layout.Moves.{
  swap_groups-Rearranges, stack_column-Rearranges, swap_in_group-Rearranges,
  insert_column_at-Rearranges, unstack_column-Rearranges,
}
use notedeck.Deck.Columns.{Column, ColumnUpdate, Profile, has_column, column_ids, assign_column}
use notedeck.Deck.Profiles
use notedeck.Deck.Profiles.{
  Profiles, same_id, current_profile, change_profile, is_there, mutate_profile, columns, layout,
}
use notedeck.Deck.Store
use notedeck.Deck.Store.{
  Deck, Removed, drop_column, push_column, place_column, sidebar_column, new_column, turn_into,
  with_query,
}
use notedeck.Deck.Windows
use notedeck.Deck.Windows.{recall_all}
use notedeck.Deck.WellFormed.{AllWellFormed}
use notedeck.Deck.WellFormed.Edits.{
  place_column-WellFormed, push_column-WellFormed, drop_column-WellFormed,
  restore_column-WellFormed, set_columns-WellFormed, empty-WellFormed,
}
use notedeck.Deck.WellFormed.Steps.{
  change_profile-Every, mutate_profile-AllWellFormed, apply_layout-AllWellFormed,
  change-AllWellFormed,
}

has_column-current :
    (s : Profiles) (id : String) {p : Profile}
    → current_profile s ≡ some p
    → has_column (columns s) id ≡ false
    → has_column p.columns id ≡ false
has_column-current s id h new = rw (h, columns) at new

pub add_column-AllWellFormed :
    (c : Column) (d : Deck)
    → has_column (columns d.store) c.id ≡ false
    → AllWellFormed d.store
    → AllWellFormed (Store.add_column c d).store
unfolding Store.add_column
add_column-AllWellFormed c d new w =
    mutate_profile-AllWellFormed (push_column c) d.store
      (λ p h v. push_column-WellFormed c p (has_column-current d.store c.id h new) v) w

pub add_column_at-AllWellFormed :
    (i : ℕ) (c : Column) (d : Deck)
    → has_column (columns d.store) c.id ≡ false
    → AllWellFormed d.store
    → AllWellFormed (Store.add_column_at i c d).store
unfolding Store.add_column_at
add_column_at-AllWellFormed i c d new w =
    mutate_profile-AllWellFormed (place_column i c) d.store
      (λ p h v. place_column-WellFormed i c p (has_column-current d.store c.id h new) v) w

pub update_column-AllWellFormed :
    (id : String) (u : ColumnUpdate) (d : Deck)
    → AllWellFormed d.store
    → AllWellFormed (Store.update_column id u d).store
unfolding Store.update_column assign_column
update_column-AllWellFormed id u d w =
    change-AllWellFormed id (λ c. assign_column c u) d (λ c. refl) w

pub remove_column-AllWellFormed :
    (id : String) (d : Deck)
    → AllWellFormed d.store
    → AllWellFormed (Store.remove_column id d).0.store
unfolding Store.remove_column Profiles.flush_persist Store.set_focused_note_id
remove_column-AllWellFormed id d w =
    mutate_profile-AllWellFormed (drop_column id) d.store (λ p h v. drop_column-WellFormed id p v) w

pub undo_remove-AllWellFormed :
    (r : Removed) (d : Deck) → AllWellFormed d.store → AllWellFormed (Store.undo_remove r d).store
unfolding Store.undo_remove Profiles.flush_persist
undo_remove-AllWellFormed r d w =
    mutate_profile-AllWellFormed (Store.restore_column r) d.store
      (λ p h v. restore_column-WellFormed r p v) w

pub swap_columns-AllWellFormed :
    (i j : ℕ) (d : Deck) → AllWellFormed d.store → AllWellFormed (Store.swap_columns i j d).store
unfolding Store.swap_columns
swap_columns-AllWellFormed i j d w =
    apply_layout-AllWellFormed (Layout.swap_groups (layout d.store) i j) d
      (λ l l' at h u e. swap_groups-Rearranges l l' i j e (rw at at h)) w

pub stack_column-AllWellFormed :
    (a b : String) (place : Place) (d : Deck)
    → AllWellFormed d.store
    → AllWellFormed (Store.stack_column a b place d).store
unfolding Store.stack_column
stack_column-AllWellFormed a b place d w =
    apply_layout-AllWellFormed (Layout.stack_column (layout d.store) a b place) d
      (λ l l' at h u e. stack_column-Rearranges l l' a b place u e (rw at at h)) w

pub swap_in_group-AllWellFormed :
    (a b : String) (d : Deck)
    → AllWellFormed d.store
    → AllWellFormed (Store.swap_in_group a b d).store
unfolding Store.swap_in_group
swap_in_group-AllWellFormed a b d w =
    apply_layout-AllWellFormed (Layout.swap_in_group (layout d.store) a b) d
      (λ l l' at h u e. swap_in_group-Rearranges l l' a b e (rw at at h)) w

pub insert_column_at-AllWellFormed :
    (id : String) (i : ℕ) (d : Deck)
    → AllWellFormed d.store
    → AllWellFormed (Store.insert_column_at id i d).store
unfolding Store.insert_column_at
insert_column_at-AllWellFormed id i d w =
    apply_layout-AllWellFormed (Layout.insert_column_at (layout d.store) id i) d
      (λ l l' at h u e. insert_column_at-Rearranges l l' id i u e (rw at at h)) w

pub unstack_column-AllWellFormed :
    (id : String) (d : Deck)
    → AllWellFormed d.store
    → AllWellFormed (Store.unstack_column id d).store
unfolding Store.unstack_column
unstack_column-AllWellFormed id d w =
    apply_layout-AllWellFormed (Layout.unstack_column (layout d.store) id) d
      (λ l l' at h u e. unstack_column-Rearranges l l' id u e (rw at at h)) w

pub move_left-AllWellFormed :
    (id : String) (d : Deck) → AllWellFormed d.store → AllWellFormed (Store.move_left id d).store
unfolding Store.move_left
move_left-AllWellFormed id d w = elim (Option-cases (group_index_of (layout d.store) id)) [
  | inl e ↦ rw (e, Store.move_left) w
  | inr (i, e) ↦ elim (Bool-cases (ltb 0 i)) [
    | inl c ↦ rw (e, c, Store.move_left) (swap_columns-AllWellFormed i (i - 1) d w)
    | inr c ↦ rw (e, c, Store.move_left) w
  ]
]

pub move_right-AllWellFormed :
    (id : String) (d : Deck) → AllWellFormed d.store → AllWellFormed (Store.move_right id d).store
unfolding Store.move_right
move_right-AllWellFormed id d w = elim (Option-cases (group_index_of (layout d.store) id)) [
  | inl e ↦ rw (e, Store.move_right) w
  | inr (i, e) ↦ elim (Bool-cases (ltb i (length (layout d.store) - 1))) [
    | inl c ↦ rw (e, c, Store.move_right) (swap_columns-AllWellFormed i (i + 1) d w)
    | inr c ↦ rw (e, c, Store.move_right) w
  ]
]

pub clear-AllWellFormed : (d : Deck) → AllWellFormed d.store → AllWellFormed (Store.clear d).store
unfolding Store.clear Profiles.set_columns_and_layout
clear-AllWellFormed d w =
    mutate_profile-AllWellFormed (λ p. record p { columns = []; layout = [] }) d.store
      (λ p h v. empty-WellFormed p) w

column_ids-recall_all :
    (window : String) (cs : List Column) → column_ids (recall_all window cs) ≡ column_ids cs
unfolding recall_all
column_ids-recall_all window [] = refl
column_ids-recall_all window (c ∷ cs) = elim (Bool-cases (Windows.is_in window c)) [
  | inl e ↦ rw e (ap (λ (r : List String). c.id ∷ r) (column_ids-recall_all window cs))
  | inr e ↦ rw e (ap (λ (r : List String). c.id ∷ r) (column_ids-recall_all window cs))
]

pub recall_columns_from_window-AllWellFormed :
    (window : String) (d : Deck)
    → AllWellFormed d.store
    → AllWellFormed (Windows.recall_columns_from_window window d).store
unfolding Windows.recall_columns_from_window
recall_columns_from_window-AllWellFormed window d w =
    elim (Bool-cases (any (Windows.is_in window) (columns d.store))) [
      | inl e ↦ rw e (
          change_profile-Every d.store.profiles d.store.window_profile_id
            (λ p. record p { columns = recall_all window p.columns })
            (λ p h v.
              set_columns-WellFormed (recall_all window p.columns) p
                (column_ids-recall_all window p.columns) v)
            w)
      | inr e ↦ rw e w
    ]
