-- ===== src/Windows/Examples.antt =====
-- The theorems on the windows at a note that is opened twice.
use notedeck.Prelude.{String, true, false, some, [], ◌∷◌, length, ◌≡◌, refl}
use notedeck.Prelude.Dict
use notedeck.Prelude.Dict.{Dict}
use notedeck.Windows.{
  WindowId, View, WindowsState, initial, open_window, change_first, bring_to_front, place,
}
use notedeck.Windows.Types.{note_detail, login}
use notedeck.Windows.Front.{in_front}
use notedeck.Windows.Opening.{open_window-in_front}
use notedeck.Windows.Sound.{Sound}
use notedeck.Windows.Runs.{open_one, run_all, run_all-Sound}

abbrev view : View
view = record { in_pip = false; inner_width = 1280; inner_height = 720; now = 7; is_mobile = false }

abbrev a_note : Dict String
a_note = ("noteId", "n1") ∷ ("accountId", "me") ∷ []

abbrev two_open : WindowsState
two_open = run_all (open_one view note_detail a_note ∷ open_one view login [] ∷ []) initial

run_all-Sound_example :
    Sound (run_all (open_one view note_detail a_note ∷ open_one view login [] ∷ []) initial)
run_all-Sound_example =
    run_all-Sound (open_one view note_detail a_note ∷ open_one view login [] ∷ [])

-- The note is behind the login, and comes to the front.
open_window-in_front_example :
    (id : WindowId) × ((open_window view note_detail a_note two_open).0 ≡ some id)
    × (in_front id (open_window view note_detail a_note two_open).1 ≡ true)
open_window-in_front_example =
    open_window-in_front view note_detail a_note two_open refl run_all-Sound_example.below

note_is_not_opened_twice : length (open_window view note_detail a_note two_open).1.windows ≡ 2
unfolding open_window bring_to_front change_first place Dict.get
note_is_not_opened_twice = refl
