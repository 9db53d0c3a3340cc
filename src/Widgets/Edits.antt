-- ===== src/Widgets/Edits.antt =====
-- stores/widgets.ts: the sidebar, the counts of what is mounted, and the edits of a widget.
use notedeck.Prelude.{
  ℕ, ◌+◌, ◌-◌, String, Bool, Option, none, some, List, [], ◌∷◌, ◌++◌, find, includes, without,
  or_else, text_or, ltb, ◌==◌, if◌then◌else◌,
}
use notedeck.Prelude.Dict
use notedeck.Prelude.Dict.{Dict}
use notedeck.Widgets.{
  WidgetMeta, WidgetsState, delete_item, snapshot, ensure_loaded, set_order, has_id, ask,
  ask_if_initialized, persist,
}

unfoldable pub add_to_sidebar : Bool → String → WidgetsState → WidgetsState
unfolding ensure_loaded
add_to_sidebar is_tauri id st =
    let now = ensure_loaded is_tauri st in
    if includes now.sidebar_widget_ids id
    then now
    else set_order (now.sidebar_widget_ids ++ (id ∷ [])) now

unfoldable pub remove_from_sidebar : Bool → String → WidgetsState → WidgetsState
unfolding ensure_loaded
remove_from_sidebar is_tauri id st =
    let now = ensure_loaded is_tauri st in
    if includes now.sidebar_widget_ids id
    then set_order (without id now.sidebar_widget_ids) now
    else now

unfoldable pub reorder_sidebar : Bool → List String → WidgetsState → WidgetsState
unfolding ensure_loaded
reorder_sidebar is_tauri ids st = set_order ids (ensure_loaded is_tauri st)

abbrev pub count_at : Dict ℕ → String → ℕ
count_at m id = or_else (Dict.get m id) 0

unfoldable pub register_mounted : String → WidgetsState → WidgetsState
register_mounted id st = record st {
  mounted_counts = Dict.put st.mounted_counts id (count_at st.mounted_counts id + 1);
}

-- `n > 0` after one less.
unfoldable pub unregister_mounted : String → WidgetsState → WidgetsState
unregister_mounted id st =
    let n = count_at st.mounted_counts id in
    record st {
      mounted_counts =
          if ltb 1 n
          then Dict.put st.mounted_counts id (n - 1)
          else Dict.delete st.mounted_counts id;
    }

unfoldable pub request_rerun : String → WidgetsState → ℕ × WidgetsState
request_rerun id st =
    let mounted = count_at st.mounted_counts id in
    (
      mounted,
      if ltb 0 mounted
          then record st {
            rerun_signals = Dict.put st.rerun_signals id (count_at st.rerun_signals id + 1);
          }
          else st,
    )

-- `find`, and a change in place.
abbrev pub change_widget : (WidgetMeta → WidgetMeta) → String → List WidgetMeta → List WidgetMeta
change_widget f id [] = []
change_widget f id (w ∷ ws) =
    let rest = change_widget f id ws in if has_id id w then f w ∷ ws else w ∷ rest

-- The change of a widget that is there, at the time `now`.
abbrev pub edit : (WidgetMeta → WidgetMeta) → String → WidgetMeta → WidgetsState → WidgetsState
unfolding persist
edit f id w st = persist (f w) (record st { widgets = change_widget f id st.widgets })

abbrev pub base_name : WidgetMeta → String
base_name w = text_or (some w.name) w.install_id

unfoldable pub update_src : Bool → ℕ → String → String → WidgetsState → WidgetsState
unfolding ensure_loaded persist
update_src is_tauri now id src st =
    let s = ensure_loaded is_tauri st in
    elim (find (has_id id) s.widgets) [
      | none ↦ s
      | some w ↦
          edit (λ v. record v { src = src; updated_at = now }) id w
            (ask (snapshot (base_name w) w.src) s)
    ]

unfoldable pub set_auto_run : Bool → ℕ → String → Bool → WidgetsState → WidgetsState
unfolding ensure_loaded persist
set_auto_run is_tauri now id auto_run st =
    let s = ensure_loaded is_tauri st in
    elim (find (has_id id) s.widgets) [
      | none ↦ s
      | some w ↦ edit (λ v. record v { auto_run = auto_run; updated_at = now }) id w s
    ]

unfoldable pub set_store_id : Bool → ℕ → String → Option String → WidgetsState → WidgetsState
unfolding ensure_loaded persist
set_store_id is_tauri now id store_id st =
    let s = ensure_loaded is_tauri st in
    elim (find (has_id id) s.widgets) [
      | none ↦ s
      | some w ↦ edit (λ v. record v { store_id = store_id; updated_at = now }) id w s
    ]

-- The files of the old name go.
unfoldable pub rename_widget : Bool → ℕ → String → String → WidgetsState → WidgetsState
unfolding ensure_loaded persist
rename_widget is_tauri now id new_name st =
    let s = ensure_loaded is_tauri st in
    elim (find (has_id id) s.widgets) [
      | none ↦ s
      | some w ↦
          let after = edit (λ v. record v { name = new_name; updated_at = now }) id w s in
          if base_name w == new_name
          then after
          else ask_if_initialized (delete_item (record w { name = base_name w; updated_at = now }))
              after
    ]

unfoldable pub get_widget : Bool → String → WidgetsState → Option WidgetMeta × WidgetsState
unfolding ensure_loaded
get_widget is_tauri id st = let s = ensure_loaded is_tauri st in (find (has_id id) s.widgets, s)
