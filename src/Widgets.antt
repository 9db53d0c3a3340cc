-- ===== src/Widgets.antt =====
-- stores/widgets.ts: the widgets, their order in the sidebar, and what is stored of them.
mod Restoring
pub mod Edits
pub mod Undo
mod Examples
use Prim.Native.String.{◌++◌ as str_append}
use text.Mathlib.Text.{starts_with}
use notedeck.Prelude.{
  ℕ, zero, suc, ◌+◌, ◌-◌, String, Bool, true, false, not, ◌&&◌, Option, none, some, List, [], ◌∷◌,
  ◌++◌, map, length, get_elem?, keep_if, any, find, find_index, insert_at, includes, add, without,
  is_some, or_else, text_or, nat_eq, ltb, ◌==◌, if◌then◌else◌,
}
use notedeck.Prelude.Dict
use notedeck.Prelude.Dict.{Dict}

pub record WidgetMeta : Type 0 where
  pub install_id : String
  pub name : String
  pub src : String
  pub auto_run : Bool
  pub store_id : Option String
  pub created_at : ℕ
  pub updated_at : ℕ
  pub icon_url : Option String

-- What is asked of the files, which do it later; `snapshot` is the history of a widget by its name.
pub data FileTask : Type 0 where
  persist_item delete_item : WidgetMeta → FileTask
  persist_all : List WidgetMeta → FileTask
  snapshot : String → String → FileTask

-- `stored` and `stored_order` are the two entries of the local storage for widgets, `scripts` its other
-- entries, and `tasks` what has been asked of the files, the latest first.
pub record WidgetsState : Type 0 where
  pub widgets : List WidgetMeta
  pub sidebar_widget_ids : List String
  pub loaded : Bool
  pub initialized : Bool
  pub stored : List WidgetMeta
  pub stored_order : List String
  pub scripts : Dict String
  pub tasks : List FileTask
  pub mounted_counts : Dict ℕ
  pub rerun_signals : Dict ℕ

-- With the desktop side, the files are read afterwards, by `init_file_storage`.
unfoldable pub ensure_loaded : Bool → WidgetsState → WidgetsState
ensure_loaded is_tauri st = if st.loaded then st else record st {
  loaded = true;
  widgets = st.stored;
  sidebar_widget_ids = st.stored_order;
  initialized = if is_tauri then st.initialized else true;
}

abbrev pub set_order : List String → WidgetsState → WidgetsState
set_order ids st = record st { sidebar_widget_ids = ids; stored_order = ids }

abbrev pub set_widgets : List WidgetMeta → WidgetsState → WidgetsState
set_widgets ws st = record st { widgets = ws; stored = ws }

abbrev pub has_id : String → WidgetMeta → Bool
has_id id w = w.install_id == id

abbrev pub present : List WidgetMeta → String → Bool
present ws id = any (has_id id) ws

unfoldable pub prune_sidebar_order : WidgetsState → WidgetsState
prune_sidebar_order st =
    let filtered = keep_if (present st.widgets) st.sidebar_widget_ids in
    if nat_eq (length filtered) (length st.sidebar_widget_ids) then st else set_order filtered st

abbrev pub ask : FileTask → WidgetsState → WidgetsState
ask t st = record st { tasks = t ∷ st.tasks }

abbrev pub ask_if_initialized : FileTask → WidgetsState → WidgetsState
ask_if_initialized t st = if st.initialized then ask t st else st

unfoldable pub persist : WidgetMeta → WidgetsState → WidgetsState
persist w st = ask_if_initialized (persist_item w) (record st { stored = st.widgets })

-- `Array.sort` is stable.
abbrev pub insert_by_age : WidgetMeta → List WidgetMeta → List WidgetMeta
insert_by_age w [] = w ∷ []
insert_by_age w (v ∷ vs) =
    let rest = insert_by_age w vs in if ltb w.created_at v.created_at then w ∷ v ∷ vs else v ∷ rest

abbrev pub sort_by_age : List WidgetMeta → List WidgetMeta → List WidgetMeta
sort_by_age acc [] = acc
sort_by_age acc (w ∷ ws) = sort_by_age (insert_by_age w acc) ws

abbrev pub persist_some : List WidgetMeta → WidgetsState → WidgetsState
persist_some [] st = st
persist_some (w ∷ ws) st = ask (persist_all (w ∷ ws)) st

-- The files win, and what only the memory has comes behind them.
abbrev pub merge_files : List WidgetMeta → WidgetsState → WidgetsState
merge_files [] st = st
merge_files (f ∷ fs) st =
    let memory_only =
      keep_if (λ (w : WidgetMeta). not (present (f ∷ fs) w.install_id)) st.widgets in
    persist_some memory_only (set_widgets (sort_by_age [] (f ∷ fs) ++ memory_only) st)

-- `file_widgets` and `entry_file_count` are what the files hold.
unfoldable pub init_file_storage : List WidgetMeta → ℕ → WidgetsState → WidgetsState
unfolding prune_sidebar_order
init_file_storage file_widgets entry_file_count st =
    let pruned =
      prune_sidebar_order (record (merge_files file_widgets st) { initialized = true }) in
    if nat_eq entry_file_count 0 then persist_some pruned.widgets pruned else pruned

unfoldable pub add_widget : Bool → WidgetMeta → WidgetsState → WidgetsState
unfolding ensure_loaded persist
add_widget is_tauri w st =
    let now = ensure_loaded is_tauri st in
    persist w (record now { widgets = now.widgets ++ (w ∷ []) })

abbrev pub storage_prefix : String → String
storage_prefix id = str_append "nd-aiscript-app-" (str_append id ":")

abbrev pub of_script : String → String × String → Bool
of_script id e = starts_with e.0 (storage_prefix id)

-- What the undo remembers.
pub record Removed : Type 0 where
  pub index : ℕ
  pub widget : WidgetMeta
  pub saved_storage : Dict String
  pub sidebar_index : Option ℕ

abbrev pub order_index : WidgetsState → String → Option ℕ
order_index st id = find_index (λ x. x == id) st.sidebar_widget_ids

abbrev pub drop_widget : String → WidgetsState → WidgetsState
drop_widget id st = record st {
  scripts = keep_if (λ e. not (of_script id e)) st.scripts;
  widgets = keep_if (λ w. not (has_id id w)) st.widgets;
  stored = keep_if (λ w. not (has_id id w)) st.widgets;
  sidebar_widget_ids = without id st.sidebar_widget_ids;
  stored_order =
      if is_some (order_index st id) then without id st.sidebar_widget_ids else st.stored_order;
}

-- The widget and its index, by `findIndex`.
abbrev pub element_at : List WidgetMeta → Option ℕ → Option (ℕ × WidgetMeta)
element_at ws none = none
element_at ws (some i) = elim (get_elem? ws i) [ none ↦ none | some w ↦ some (i, w) ]

abbrev pub remove_found :
    String → Option (ℕ × WidgetMeta) → WidgetsState → Option Removed × WidgetsState
remove_found id none st = (none, drop_widget id st)
remove_found id (some (i, w)) st = (
  some (record {
    index = i;
    widget = w;
    saved_storage = keep_if (of_script id) st.scripts;
    sidebar_index = order_index st id;
  }),
  ask_if_initialized (delete_item w) (drop_widget id st),
)

unfoldable pub remove_widget : Bool → String → WidgetsState → Option Removed × WidgetsState
unfolding ensure_loaded
remove_widget is_tauri id st =
    let now = ensure_loaded is_tauri st in
    remove_found id (element_at now.widgets (find_index (has_id id) now.widgets)) now

abbrev pub put_all : Dict String → Dict String → Dict String
put_all m [] = m
put_all m ((k, v) ∷ saved) = put_all (Dict.put m k v) saved

abbrev pub restore_order : String → Option ℕ → WidgetsState → WidgetsState
restore_order id none st = st
restore_order id (some i) st =
    if includes st.sidebar_widget_ids id
    then st
    else set_order (insert_at st.sidebar_widget_ids i id) st

-- An index past the end is the end.
abbrev pub put_back : Removed → WidgetsState → WidgetsState
put_back r st =
    let back = set_widgets (insert_at st.widgets r.index r.widget) st in
    ask_if_initialized (persist_item r.widget) (
      restore_order r.widget.install_id r.sidebar_index
        (record back { scripts = put_all st.scripts r.saved_storage }))

unfoldable pub undo_remove : Removed → WidgetsState → WidgetsState
undo_remove r st = if present st.widgets r.widget.install_id then st else put_back r st
