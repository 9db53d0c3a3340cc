-- ===== src/Widgets/Undo.antt =====
-- The removal of a widget and its undo.
use notedeck.Prelude.{
  ℕ, String, Bool, true, false, not, Option, none, some, List, map, keep_if, find_index, insert_at,
  includes, without, NoRepeat, includes-without, ◌==◌, ◌≡◌, refl, sym, ap, ◌∙◌, subst, arith,
  eq_refl, if◌then◌else◌, Bool-cases, Option-cases, inl, inr,
}
use text.Mathlib.Text.{starts_with}
use notedeck.Prelude.Dict
use notedeck.Prelude.Dict.{Dict, Distinct}
use notedeck.Widgets.{
  WidgetMeta, WidgetsState, FileTask, persist_item, delete_item, ensure_loaded, has_id, present,
  ask_if_initialized, storage_prefix, of_script, Removed, order_index, drop_widget, element_at,
  remove_found, remove_widget, put_all, restore_order, put_back, undo_remove,
}
use notedeck.Widgets.Restoring.{
  insert_at-keep_if, any-keep_if, insert_at-without, without_absent, put_all-keep_if,
}

abbrev pub install_ids : List WidgetMeta → List String
install_ids ws = map (λ (w : WidgetMeta). w.install_id) ws

-- What the user sees of the widgets is as it was, and so is what their scripts have stored.
pub record Restored (before after : WidgetsState) : Type 0 where
  pub widgets : after.widgets ≡ before.widgets
  pub sidebar : after.sidebar_widget_ids ≡ before.sidebar_widget_ids
  pub scripts : (k : String) → Dict.get after.scripts k ≡ Dict.get before.scripts k

ask_if_initialized-same :
    (t : FileTask) (st : WidgetsState)
    → ((ask_if_initialized t st).widgets ≡ st.widgets)
      × ((ask_if_initialized t st).sidebar_widget_ids ≡ st.sidebar_widget_ids)
      × ((ask_if_initialized t st).scripts ≡ st.scripts)
ask_if_initialized-same t st = elim (Bool-cases st.initialized) [
  | inl e ↦ rw (e, ask_if_initialized) (refl, refl, refl)
  | inr e ↦ rw (e, ask_if_initialized) (refl, refl, refl)
]

restore_order-same :
    (id : String) (o : Option ℕ) (st : WidgetsState)
    → ((restore_order id o st).widgets ≡ st.widgets)
      × ((restore_order id o st).scripts ≡ st.scripts)
restore_order-same id none st = (refl, refl)
restore_order-same id (some i) st = elim (Bool-cases (includes st.sidebar_widget_ids id)) [
  | inl e ↦ rw (e, restore_order) (refl, refl)
  | inr e ↦ rw (e, restore_order) (refl, refl)
]

restore_order-back :
    (id : String) (o : Option ℕ) (order : List String) (st : WidgetsState)
    → NoRepeat order
    → find_index (λ x. x == id) order ≡ o
    → st.sidebar_widget_ids ≡ without id order
    → (restore_order id o st).sidebar_widget_ids ≡ order
restore_order-back id none order st u h s = s ∙ without_absent id order h
restore_order-back id (some i) order st u h s =
    let absent : includes st.sidebar_widget_ids id ≡ false =
      ap (λ l. includes l id) s ∙ ground (arith, includes-without order id id, eq_refl id) in
    rw (absent, restore_order) (ap (λ l. insert_at l i id) s ∙ insert_at-without id order i u h)

put_back-Restored :
    (id : String) (i : ℕ) (w : WidgetMeta) (st mid : WidgetsState)
    → NoRepeat st.sidebar_widget_ids
    → Distinct st.scripts
    → w.install_id ≡ id
    → insert_at (keep_if (λ v. not (has_id id v)) st.widgets) i w ≡ st.widgets
    → mid.widgets ≡ keep_if (λ v. not (has_id id v)) st.widgets
    → mid.sidebar_widget_ids ≡ without id st.sidebar_widget_ids
    → mid.scripts ≡ keep_if (λ e. not (of_script id e)) st.scripts
    → Restored st (
        put_back
          (record {
            index = i;
            widget = w;
            saved_storage = keep_if (of_script id) st.scripts;
            sidebar_index = order_index st id;
          })
          mid)
put_back-Restored id i w st mid u d same back ws order scripts =
    let base : WidgetsState = record mid {
      widgets = insert_at mid.widgets i w;
      stored = insert_at mid.widgets i w;
      scripts = put_all mid.scripts (keep_if (of_script id) st.scripts);
    } in
    let ordered = restore_order w.install_id (order_index st id) base in
    let (aw, ao, asks) = ask_if_initialized-same (persist_item w) ordered in
    let (ow, rs) = restore_order-same w.install_id (order_index st id) base in
    record {
      widgets = aw ∙ ow ∙ ap (λ l. insert_at l i w) ws ∙ back;
      sidebar =
          ao
          ∙ restore_order-back w.install_id (order_index st id) st.sidebar_widget_ids base u
              (ap (λ k. find_index (λ x. x == k) st.sidebar_widget_ids) same)
              (order ∙ ap (λ k. without k st.sidebar_widget_ids) (sym same));
      scripts = λ k.
          ap (λ m. Dict.get m k)
            (asks ∙ rs ∙ ap (λ m. put_all m (keep_if (of_script id) st.scripts)) scripts)
          ∙ put_all-keep_if (λ x. starts_with x (storage_prefix id)) st.scripts k d;
    }

ensure_loaded-loaded :
    (is_tauri : Bool) (st : WidgetsState) → st.loaded ≡ true → ensure_loaded is_tauri st ≡ st
unfolding ensure_loaded
ensure_loaded-loaded is_tauri st l =
    ap
      (λ b. if b then st else record st {
        loaded = true;
        widgets = st.stored;
        sidebar_widget_ids = st.stored_order;
        initialized = if is_tauri then st.initialized else true;
      })
      l

undo_remove-absent :
    (r : Removed) (st : WidgetsState)
    → present st.widgets r.widget.install_id ≡ false
    → undo_remove r st ≡ put_back r st
unfolding undo_remove
undo_remove-absent r st e = ap (λ b. if b then st else put_back r st) e

remove_widget-found :
    (is_tauri : Bool) (id : String) (st : WidgetsState) (o : Option (ℕ × WidgetMeta))
    → st.loaded ≡ true
    → element_at st.widgets (find_index (has_id id) st.widgets) ≡ o
    → remove_widget is_tauri id st ≡ remove_found id o st
unfolding remove_widget
remove_widget-found is_tauri id st o l e =
    ap
      (λ (s : WidgetsState).
        remove_found id (element_at s.widgets (find_index (has_id id) s.widgets)) s)
      (ensure_loaded-loaded is_tauri st l)
    ∙ ap (λ q. remove_found id q st) e

-- The undo of what `remove_found` has done.
found-Restored :
    (id : String) (i : ℕ) (w : WidgetMeta) (st : WidgetsState) (r : Removed)
    → NoRepeat st.sidebar_widget_ids
    → Distinct st.scripts
    → w.install_id ≡ id
    → insert_at (keep_if (λ v. not (has_id id v)) st.widgets) i w ≡ st.widgets
    → (remove_found id (some (i, w)) st).0 ≡ some r
    → Restored st (undo_remove r (remove_found id (some (i, w)) st).1)
found-Restored id i w st r uo d same back h =
    let mid = ask_if_initialized (delete_item w) (drop_widget id st) in
    let (mw, mo, ms) = ask_if_initialized-same (delete_item w) (drop_widget id st) in
    let first : Removed = record {
      index = i;
      widget = w;
      saved_storage = keep_if (of_script id) st.scripts;
      sidebar_index = order_index st id;
    } in
    let this : first ≡ r = ground (arith, h) in
    let absent : present mid.widgets w.install_id ≡ false =
      ap (λ l. present l w.install_id) mw
      ∙ ap (present (keep_if (λ v. not (has_id id v)) st.widgets)) same
      ∙ any-keep_if (λ (v : WidgetMeta). v.install_id) id st.widgets in
    subst (λ q. Restored st (undo_remove q mid)) this
      (subst (Restored st) (sym (undo_remove-absent first mid absent))
        (put_back-Restored id i w st mid uo d same back mw mo ms))

-- Once the widgets are loaded, where no widget, no id of the sidebar and no stored key stands twice,
-- undoing the removal of a widget gives back the widgets and the sidebar in their order, and what the
-- scripts have stored.
pub undo_remove-remove_widget :
    (is_tauri : Bool) (id : String) (st : WidgetsState) (r : Removed)
    → st.loaded ≡ true
    → NoRepeat (install_ids st.widgets)
    → NoRepeat st.sidebar_widget_ids
    → Distinct st.scripts
    → (remove_widget is_tauri id st).0 ≡ some r
    → Restored st (undo_remove r (remove_widget is_tauri id st).1)
undo_remove-remove_widget is_tauri id st r l uw uo d h =
    elim (Option-cases (find_index (has_id id) st.widgets)) [
      | inl e ↦
          let nothing = remove_widget-found is_tauri id st none l (ap (element_at st.widgets) e) in
          let no : none ≡ some r =
            sym (ap (λ (p : Option Removed × WidgetsState). p.0) nothing) ∙ h in
          absurd (ground (arith, no))
      | inr (i, e) ↦
          let (w, at, same, back) =
            insert_at-keep_if (λ (v : WidgetMeta). v.install_id) id st.widgets i uw e in
          let done =
            remove_widget-found is_tauri id st (some (i, w)) l
              (ap (element_at st.widgets) e ∙ rw (at, element_at) refl) in
          subst (λ (x : Option Removed × WidgetsState). Restored st (undo_remove r x.1)) (sym done)
            (found-Restored id i w st r uo d same back
              (sym (ap (λ (p : Option Removed × WidgetsState). p.0) done) ∙ h))
    ]
