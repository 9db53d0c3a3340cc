-- ===== src/Deck/WellFormed/Slots.antt =====
-- The sidebar column, the focus and the profiles: their operations keep all profiles well formed.
use Prim.Native.Nat.{min}
use notedeck.Prelude.{
  ℕ, String, false, not, Option, none, some, length, ◌==◌, ◌≡◌, Bool-cases, Option-cases, inl, inr,
  or_else,
}
use notedeck.Deck.Columns.{
  Column, ColumnType, ColumnUpdate, Profile, has_column, assign_column, is_chat, is_search,
  type_name, no_update, spread, chat, search,
}
use notedeck.Deck.Profiles
use notedeck.Deck.Profiles.{
  Profiles, same_id, current_profile, change_profile, is_there, mutate_profile, columns, layout,
}
use notedeck.Deck.Store
use notedeck.Deck.Store.{
  Deck, Removed, drop_column, push_column, place_column, sidebar_column, new_column, turn_into,
  with_query,
}
use notedeck.Deck.WellFormed.{WellFormed, AllWellFormed}
use notedeck.Deck.WellFormed.Steps.{keep_if-Every, insert_at-Every}
use notedeck.Deck.WellFormed.Changes.{
  add_column_at-AllWellFormed, update_column-AllWellFormed, remove_column-AllWellFormed,
}

pub open_chat_with-AllWellFormed :
    (new_id target : String) (d : Deck)
    → has_column (columns d.store) new_id ≡ false
    → AllWellFormed d.store
    → AllWellFormed (Store.open_chat_with new_id target d).store
unfolding Store.open_chat_with
open_chat_with-AllWellFormed new_id target d new w =
    let d' = record d { pending_chat_target = some target } in
    elim (Option-cases (sidebar_column d)) [
      | inl e ↦
          rw (e, Store.open_chat_with)
            (add_column_at-AllWellFormed 0 (new_column new_id chat) d' new w)
      | inr (c, e) ↦ elim (Bool-cases (is_chat c.column_type)) [
        | inl t ↦ rw (e, t, Store.open_chat_with) w
        | inr t ↦
            rw (e, t, Store.open_chat_with) (update_column-AllWellFormed c.id (turn_into chat) d' w)
      ]
    ]

pub open_search_with-AllWellFormed :
    (new_id query : String) (d : Deck)
    → has_column (columns d.store) new_id ≡ false
    → AllWellFormed d.store
    → AllWellFormed (Store.open_search_with new_id query d).store
unfolding Store.open_search_with
open_search_with-AllWellFormed new_id query d new w = elim (Option-cases (sidebar_column d)) [
  | inl e ↦
      rw (e, Store.open_search_with)
        (add_column_at-AllWellFormed 0 (record (new_column new_id search) { query = some query }) d
          new w)
  | inr (c, e) ↦ elim (Bool-cases (is_search c.column_type)) [
    | inl t ↦
        rw (e, t, Store.open_search_with)
          (update_column-AllWellFormed c.id (with_query query no_update) d w)
    | inr t ↦
        rw (e, t, Store.open_search_with)
          (update_column-AllWellFormed c.id (with_query query (turn_into search)) d w)
  ]
]

pub toggle_sidebar_column-AllWellFormed :
    (new_id : String) (t : ColumnType) (a : Option String) (extra : ColumnUpdate) (d : Deck)
    → has_column (columns d.store) new_id ≡ false
    → AllWellFormed d.store
    → AllWellFormed (Store.toggle_sidebar_column new_id t a extra d).store
unfolding assign_column Store.toggle_sidebar_column
toggle_sidebar_column-AllWellFormed new_id t a extra d new w =
    elim (Option-cases (sidebar_column d)) [
      | inl e ↦
          rw (e, Store.toggle_sidebar_column)
            (add_column_at-AllWellFormed 0
              (assign_column (record (new_column new_id t) { account_id = a }) extra) d new w)
      | inr (c, e) ↦ elim (Bool-cases (type_name c.column_type == type_name t)) [
        | inl m ↦ rw (e, m, Store.toggle_sidebar_column) (remove_column-AllWellFormed c.id d w)
        | inr m ↦
            rw (e, m, Store.toggle_sidebar_column)
              (update_column-AllWellFormed c.id
                (spread (record (turn_into t) { account_id = some a }) extra) d w)
      ]
    ]

pub delete_profile-AllWellFormed :
    (id : String) (s : Profiles) → AllWellFormed s → AllWellFormed (Profiles.delete_profile id s)
unfolding Profiles.delete_profile
delete_profile-AllWellFormed id s w = keep_if-Every (λ p. not (p.id == id)) s.profiles w

pub undo_delete-AllWellFormed :
    (index : ℕ) (p : Profile) (s : Profiles)
    → WellFormed p
    → AllWellFormed s
    → AllWellFormed (Profiles.undo_delete index p s)
unfolding Profiles.undo_delete Profiles.save_profiles
undo_delete-AllWellFormed index p s v w = elim (Bool-cases (is_there s.profiles (some p.id))) [
  | inl e ↦ rw e w
  | inr e ↦ rw e (insert_at-Every s.profiles (min index (length s.profiles)) p v w)
]

pub switch_profile-AllWellFormed :
    (id : String) (s : Profiles)
    → AllWellFormed s
    → AllWellFormed (or_else (Profiles.switch_profile id s) s)
unfolding Profiles.switch_profile
switch_profile-AllWellFormed id s w = elim (Bool-cases (is_there s.profiles (some id))) [
  | inl e ↦ rw e w
  | inr e ↦ rw e w
]

pub focus-AllWellFormed :
    (o : Option Column) (d : Deck) → AllWellFormed d.store → AllWellFormed (Store.focus o d).store
focus-AllWellFormed none d w = w
focus-AllWellFormed (some c) d w = w

pub run_next_tick-AllWellFormed :
    (d : Deck) → AllWellFormed d.store → AllWellFormed (Store.run_next_tick d).store
unfolding Store.run_next_tick
run_next_tick-AllWellFormed d w = elim (Option-cases d.next_tick) [
  | inl e ↦ rw e w
  | inr (id, e) ↦ rw e w
]
