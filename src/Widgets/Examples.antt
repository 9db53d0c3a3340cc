-- ===== src/Widgets/Examples.antt =====
-- The undo at two widgets, of which one is in the sidebar and has stored something.
use notedeck.Prelude.{ℕ, String, true, false, none, some, [], ◌∷◌, refl}
use notedeck.Prelude.Dict
use notedeck.Prelude.Dict.{Dict}
use notedeck.Widgets.{WidgetMeta, WidgetsState, Removed, ensure_loaded, remove_widget, undo_remove}
use notedeck.Widgets.Undo.{Restored, undo_remove-remove_widget}

abbrev widget : String → ℕ → WidgetMeta
widget id t = record {
  install_id = id;
  name = "clock";
  src = "";
  auto_run = false;
  store_id = none;
  created_at = t;
  updated_at = t;
  icon_url = none;
}

abbrev two_widgets : WidgetsState
two_widgets = record {
  widgets = widget "w1" 1 ∷ widget "w2" 2 ∷ [];
  sidebar_widget_ids = "w1" ∷ "w2" ∷ [];
  loaded = true;
  initialized = true;
  stored = widget "w1" 1 ∷ widget "w2" 2 ∷ [];
  stored_order = "w1" ∷ "w2" ∷ [];
  scripts = ("nd-aiscript-app-w1:count", "3") ∷ ("nd-theme", "dark") ∷ [];
  tasks = [];
  mounted_counts = [];
  rerun_signals = [];
}

abbrev removed : Removed
removed = record {
  index = 0;
  widget = widget "w1" 1;
  saved_storage = ("nd-aiscript-app-w1:count", "3") ∷ [];
  sidebar_index = some 0;
}

undo_remove-remove_widget_example :
    Restored two_widgets (undo_remove removed (remove_widget true "w1" two_widgets).1)
unfolding remove_widget ensure_loaded Dict.get
undo_remove-remove_widget_example =
    undo_remove-remove_widget true "w1" two_widgets removed refl (refl, (refl, tt))
      (refl, (refl, tt)) (refl, (refl, tt)) refl
