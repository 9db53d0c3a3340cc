-- ===== src/Deck/Windows.antt =====
-- stores/deck.ts: the windows that columns are moved to. `none` is the main window.
use notedeck.Prelude.{
  String, Bool, true, false, Option, none, some, List, [], ◌∷◌, any, keep_if, ◌==◌, if◌then◌else◌,
}
use notedeck.Deck.Layout.{Groups}
use notedeck.Deck.Columns.{Column, get_column}
use notedeck.Deck.Profiles.{columns, layout, change_profile, schedule_persist}
use notedeck.Deck.Store.{Deck, change, unstack_column}

-- The tests `!col.windowId` and `col.windowId === wid`, by the window that asks.
unfoldable pub in_window : Option String → Column → Bool
in_window none c = elim c.window_id [ none ↦ true | some w ↦ w == "" ]
in_window (some wid) c = elim c.window_id [
  | none ↦ wid == ""
  | some w ↦ if wid == "" then w == "" else w == wid
]

-- The groups with a column of the window.
unfoldable pub window_layout : Deck → Groups
unfolding get_column in_window
window_layout d =
    keep_if
      (λ g.
        any
          (λ id. elim (get_column (columns d.store) id) [
            | none ↦ false
            | some c ↦ in_window d.current_window_id c
          ])
          g)
      (layout d.store)

unfoldable pub pop_out_column : String → String → Deck → Deck
unfolding change unstack_column
pop_out_column id window d =
    change id (λ c. record c { window_id = some window }) (unstack_column id d)

unfoldable pub recall_column : String → Deck → Deck
unfolding change
recall_column id = change id (λ c. record c { window_id = none })

abbrev pub is_in : String → Column → Bool
is_in window c = elim c.window_id [ none ↦ false | some w ↦ w == window ]

unfoldable pub recall_all : String → List Column → List Column
recall_all window [] = []
recall_all window (c ∷ cs) =
    (if is_in window c then record c { window_id = none } else c) ∷ recall_all window cs

unfoldable pub recall_columns_from_window : String → Deck → Deck
unfolding recall_all change_profile schedule_persist
recall_columns_from_window window d =
    if any (is_in window) (columns d.store)
    then record d {
      store = schedule_persist (record d.store {
        profiles =
            change_profile d.store.profiles d.store.window_profile_id
              (λ p. record p { columns = recall_all window p.columns });
      });
    }
    else d

-- `targetWindowId || undefined`
unfoldable pub move_column_to_window : String → Option String → Deck → Deck
unfolding change
move_column_to_window id target = change id (λ c. record c {
  window_id = elim target [ none ↦ none | some w ↦ if w == "" then none else some w ];
})
