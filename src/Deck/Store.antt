-- ===== src/Deck/Store.antt =====
-- stores/deck.ts: what the user does to the columns. The id of a new column (`genColumnId`) is an
-- argument; sounds, the snapshot cache and the navbar are left out.
use Prim.Native.Nat.{min}
use notedeck.Prelude.{
  ℕ, ◌+◌, ◌-◌, String, Bool, true, false, not, Option, none, some, List, [], ◌∷◌, ◌++◌, map, find,
  find_index, keep_if, get_elem?, insert_at, length, without, ◌==◌, or_else, ltb, if◌then◌else◌,
}
use notedeck.Prelude.Dict
use notedeck.Prelude.Dict.{Dict}
use notedeck.Deck.Layout
use notedeck.Deck.Layout.{Groups, Place, group_index_of, is_nil}
use notedeck.Deck.Columns.{
  ColumnType, Column, ColumnUpdate, no_update, assign_column, spread, type_name, Profile, chat,
  search, is_chat, is_search, is_timeline_like, has_column, get_column, change_column,
}
use notedeck.Deck.Profiles
use notedeck.Deck.Profiles.{
  Profiles, columns, layout, mutate_profile, schedule_persist, flush_persist, change_profile,
}

-- The items that a column reports and the target of a chat are texts here: nothing reads them.
pub record Deck : Type 0 where
  pub store : Profiles
  pub active_column_id : Option String
  -- the column that `nextTick` makes active
  pub next_tick : Option String
  pub focused_note_id : Dict String
  pub visible_items : Dict (List String)
  pub last_focused_timeline : Option String
  pub pending_chat_target : Option String
  pub current_window_id : Option String

abbrev pub on_profiles : (Profiles → Profiles) → Deck → Deck
on_profiles f d = record d { store = f d.store }

unfoldable pub set_focused_note_id : String → Option String → Deck → Deck
set_focused_note_id id none d = record d { focused_note_id = Dict.delete d.focused_note_id id }
set_focused_note_id id (some note) d = record d {
  focused_note_id =
      if note == "" then Dict.delete d.focused_note_id id else Dict.put d.focused_note_id id note;
}

unfoldable pub report_visible_items : String → List String → Deck → Deck
report_visible_items id items d = record d { visible_items = Dict.put d.visible_items id items }

unfoldable pub set_active_column : String → Deck → Deck
unfolding get_column is_timeline_like
set_active_column id d = record d {
  active_column_id = some id;
  last_focused_timeline = elim (get_column (columns d.store) id) [
    | some c ↦ if is_timeline_like c.column_type then some id else d.last_focused_timeline
    | none ↦ d.last_focused_timeline
  ];
}

-- `if (col) activeColumnId.value = col.id`
abbrev pub focus : Option Column → Deck → Deck
focus none d = d
focus (some c) d = record d { active_column_id = some c.id }

abbrev is_active : Deck → Column → Bool
is_active d c = elim d.active_column_id [ none ↦ false | some id ↦ c.id == id ]

-- With no columns, `get_elem?` finds nothing, which is the early return.
unfoldable pub focus_next_column : Deck → Deck
focus_next_column d =
    let cs = columns d.store in
    let next : ℕ = elim (find_index (is_active d) cs) [
      | none ↦ 0
      | some i ↦ min (i + 1) (length cs - 1)
    ] in
    focus (get_elem? cs next) d

unfoldable pub focus_prev_column : Deck → Deck
focus_prev_column d =
    let cs = columns d.store in
    let prev : ℕ = elim (find_index (is_active d) cs) [ none ↦ 0 | some i ↦ i - 1 ] in
    focus (get_elem? cs prev) d

unfoldable pub focus_column_by_index : ℕ → Deck → Deck
focus_column_by_index i d = focus (get_elem? (columns d.store) i) d

-- `p.columns.push(col); p.layout.push([col.id])`
unfoldable pub push_column : Column → Profile → Profile
push_column c p = record p { columns = p.columns ++ c ∷ []; layout = p.layout ++ (c.id ∷ []) ∷ [] }

-- `p.columns.push(col); p.layout.splice(index, 0, [col.id])`
unfoldable pub place_column : ℕ → Column → Profile → Profile
place_column i c p = record p {
  columns = p.columns ++ c ∷ [];
  layout = insert_at p.layout i (c.id ∷ []);
}

unfoldable pub add_column : Column → Deck → Deck
unfolding mutate_profile push_column
add_column c d = record (on_profiles (mutate_profile (push_column c)) d) {
  active_column_id = some c.id;
}

unfoldable pub add_column_at : ℕ → Column → Deck → Deck
unfolding mutate_profile place_column
add_column_at i c d = record (on_profiles (mutate_profile (place_column i c)) d) {
  active_column_id = some c.id;
}

-- A change of a column in place, with a debounced write if the column is there. The columns belong
-- to the current profile.
unfoldable pub change : String → (Column → Column) → Deck → Deck
unfolding change_profile change_column schedule_persist
change id f d =
    if has_column (columns d.store) id
    then on_profiles
        (λ s. schedule_persist (record s {
          profiles =
              change_profile s.profiles s.window_profile_id
                (λ p. record p { columns = change_column p.columns id f });
        }))
        d
    else d

unfoldable pub update_column : String → ColumnUpdate → Deck → Deck
unfolding change assign_column
update_column id u = change id (λ c. assign_column c u)

-- `activeColumnId.value = null; nextTick(() => { activeColumnId.value = id })`
abbrev reactivate : String → Deck → Deck
reactivate id d = record d { active_column_id = none; next_tick = some id }

unfoldable pub run_next_tick : Deck → Deck
run_next_tick d = elim d.next_tick [
  | none ↦ d
  | some id ↦ record d { active_column_id = some id; next_tick = none }
]

abbrev pub sidebar_column : Deck → Option Column
sidebar_column d = find (λ c. c.sidebar) (columns d.store)

abbrev pub new_column : String → ColumnType → Column
new_column id t = record {
  id = id;
  column_type = t;
  name = none;
  width = 360;
  account_id = none;
  query = none;
  window_id = none;
  sidebar = true;
  widget_ids = none;
  props = [];
}

-- `{ type, accountId: null, name: null }` and `{ ...u, query }`
abbrev pub turn_into : ColumnType → ColumnUpdate
turn_into t = record no_update { column_type = some t; account_id = some none; name = some none }

abbrev pub with_query : String → ColumnUpdate → ColumnUpdate
with_query query u = record u { query = some (some query) }

unfoldable pub open_chat_with : String → String → Deck → Deck
unfolding update_column add_column_at
open_chat_with new_id target d₀ =
    let d = record d₀ { pending_chat_target = some target } in
    elim (sidebar_column d) [
      | some c ↦
          if is_chat c.column_type
          then reactivate c.id d
          else reactivate c.id (update_column c.id (turn_into chat) d)
      | none ↦ add_column_at 0 (new_column new_id chat) d
    ]

unfoldable pub open_search_with : String → String → Deck → Deck
unfolding update_column add_column_at
open_search_with new_id query d = elim (sidebar_column d) [
  | some c ↦
      if is_search c.column_type
      then reactivate c.id (update_column c.id (with_query query no_update) d)
      else reactivate c.id (update_column c.id (with_query query (turn_into search)) d)
  | none ↦ add_column_at 0 (record (new_column new_id search) { query = some query }) d
]

unfoldable pub consume_pending_chat_target : Deck → Option String × Deck
consume_pending_chat_target d = (d.pending_chat_target, record d { pending_chat_target = none })

-- `p.columns.filter`, and the layout without the column and without the groups that it leaves empty
unfoldable pub drop_column : String → Profile → Profile
drop_column id p = record p {
  columns = keep_if (λ c. not (c.id == id)) p.columns;
  layout = keep_if (λ g. not (is_nil g)) (map (without id) p.layout);
}

abbrev forget : Option String → String → Option String
forget none id = none
forget (some j) id = if j == id then none else some j

-- What the returned function needs: the column, and the index of its group (`none` for -1).
pub record Removed : Type 0 where
  pub column : Column
  pub group_index : Option ℕ

unfoldable pub remove_column : String → Deck → Deck × Option Removed
unfolding mutate_profile drop_column flush_persist set_focused_note_id
remove_column id d =
    let removed : Option Removed = elim (find (λ c. c.id == id) (columns d.store)) [
      | none ↦ none
      | some c ↦ some (record { column = c; group_index = group_index_of (layout d.store) id })
    ] in
    (
      set_focused_note_id id none (record d {
        store = flush_persist (mutate_profile (drop_column id) d.store);
        visible_items = Dict.delete d.visible_items id;
        last_focused_timeline = forget d.last_focused_timeline id;
      }),
      removed,
    )

-- The body of the returned function's `mutateProfile`.
unfoldable pub restore_column : Removed → Profile → Profile
unfolding place_column
restore_column r p =
    if has_column p.columns r.column.id
    then p
    else place_column (min (or_else r.group_index (length p.layout)) (length p.layout)) r.column p

unfoldable pub undo_remove : Removed → Deck → Deck
unfolding mutate_profile restore_column flush_persist
undo_remove r = on_profiles (λ s. flush_persist (mutate_profile (restore_column r) s))

unfoldable pub toggle_sidebar_column :
    String → ColumnType → Option String → ColumnUpdate → Deck → Deck
unfolding type_name remove_column update_column add_column_at assign_column spread
toggle_sidebar_column new_id t account_id extra d = elim (sidebar_column d) [
  | some e ↦
      if type_name e.column_type == type_name t
      then (remove_column e.id d).0
      else reactivate e.id (
          update_column e.id (spread (record (turn_into t) { account_id = some account_id }) extra)
            d)
  | none ↦
      add_column_at 0
        (assign_column (record (new_column new_id t) { account_id = account_id }) extra) d
]

-- `if (result) applyLayout(result)`
unfoldable pub apply_layout : Option Groups → Deck → Deck
unfolding Profiles.set_layout
apply_layout none d = d
apply_layout (some l) d = on_profiles (Profiles.set_layout l) d

unfoldable pub swap_columns : ℕ → ℕ → Deck → Deck
unfolding apply_layout
swap_columns i j d = apply_layout (Layout.swap_groups (layout d.store) i j) d

unfoldable pub stack_column : String → String → Place → Deck → Deck
unfolding apply_layout
stack_column a b place d = apply_layout (Layout.stack_column (layout d.store) a b place) d

unfoldable pub swap_in_group : String → String → Deck → Deck
unfolding apply_layout
swap_in_group a b d = apply_layout (Layout.swap_in_group (layout d.store) a b) d

unfoldable pub insert_column_at : String → ℕ → Deck → Deck
unfolding apply_layout
insert_column_at id i d = apply_layout (Layout.insert_column_at (layout d.store) id i) d

unfoldable pub unstack_column : String → Deck → Deck
unfolding apply_layout
unstack_column id d = apply_layout (Layout.unstack_column (layout d.store) id) d

-- Index -1 is moved neither way: `swapGroups` refuses it.
unfoldable pub move_left : String → Deck → Deck
unfolding swap_columns
move_left id d = elim (group_index_of (layout d.store) id) [
  | none ↦ d
  | some i ↦ if ltb 0 i then swap_columns i (i - 1) d else d
]

unfoldable pub move_right : String → Deck → Deck
unfolding swap_columns
move_right id d = elim (group_index_of (layout d.store) id) [
  | none ↦ d
  | some i ↦ if ltb i (length (layout d.store) - 1) then swap_columns i (i + 1) d else d
]

unfoldable pub clear : Deck → Deck
unfolding Profiles.set_columns_and_layout
clear = on_profiles (Profiles.set_columns_and_layout [] [])
