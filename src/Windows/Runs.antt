-- ===== src/Windows/Runs.antt =====
-- What every sequence of operations on the windows keeps.
use notedeck.Prelude.{
  ℕ, suc, ◌+◌, ◌≤◌, String, Bool, true, false, not, none, some, List, [], ◌∷◌, ◌++◌, find, includes,
  ◌==◌, ◌≡◌, refl, sym, ap, ◌∙◌, subst, arith, eq_iff, if◌then◌else◌, Bool-cases, Option-cases, inl,
  inr,
}
use notedeck.Prelude.Dict
use notedeck.Prelude.Dict.{Dict}
use notedeck.Windows.{
  WindowId, ℤ, DeckWindow, WindowsState, initial, View, same_id, same_type, is_duplicate,
  is_singleton, with_id, bring_to_front, assign, new_window, push_window, reopen, open_window,
  close, change_window, update_position, update_size, toggle_minimize, toggle_maximize, close_all,
}
use notedeck.Windows.Types.{
  WindowType, window_name, props_dedup_keys, singleton_types, dedup_keys-or-singleton,
}
use notedeck.Windows.Front.{AllBelow, raise, bring_to_front-some}
use notedeck.Windows.Opening.{Keeps, assigned, assign-Keeps}
use notedeck.Windows.Sound.{
  AllBelow-le, Rising, Sound, change_first-Sound, count_type, count_type-keep_if, keep_if-AllBelow,
  keep_if-Rising,
}

bring_to_front-Sound : (id : WindowId) (st : WindowsState) → Sound st → Sound (bring_to_front id st)
unfolding bring_to_front
bring_to_front-Sound id st s = elim (Option-cases (find (with_id id) st.windows)) [
  | inl e ↦ rw (e, bring_to_front) s
  | inr (w, e) ↦ subst Sound (sym (bring_to_front-some id st w e)) (
      change_first-Sound (with_id id) (raise (st.top_z_index + 1)) (st.top_z_index + 1) st
        (record { id = λ v. refl; type = λ v. refl }) (omega arith) (λ v le. omega arith) s)
]

reopen-Sound :
    (t : WindowType) (props : Dict String) (d : DeckWindow) (st : WindowsState)
    → Sound st
    → Sound (reopen t props d st)
reopen-Sound t props d st s =
    bring_to_front-Sound d.id (record st { windows = assigned t props st.windows })
      (elim (Bool-cases (is_singleton t)) [
        | inl e ↦ rw e (
            change_first-Sound (is_duplicate t props)
              (λ w. record w { props = assign w.props props }) st.top_z_index st
              (assign-Keeps props) (omega arith) (λ v le. le) s)
        | inr e ↦ rw e (record { rising = s.rising; below = s.below; once = s.once })
      ])

no_duplicate :
    (t u : WindowType) (props : Dict String) (ws : List DeckWindow)
    → same_type t u ≡ true
    → is_singleton u ≡ true
    → find (is_duplicate t props) ws ≡ none
    → count_type u ws ≡ 0
no_duplicate t u props [] same one h = refl
no_duplicate t u props (w ∷ ws) same one h =
    let names : window_name t ≡ window_name u = (eq_iff (window_name t) (window_name u)).0 same in
    let single : is_singleton t ≡ true = ap (includes singleton_types) names ∙ one in
    let keys : Dict.get props_dedup_keys (window_name t) ≡ none = elim (dedup_keys-or-singleton t) [
      | inl k ↦ k
      | inr n ↦ absurd (ground arith)
    ] in
    elim (Bool-cases (same_type w.type t)) [
      | inl f ↦
          let d : is_duplicate t props w ≡ true = rw (f, is_duplicate, keys) single in
          absurd (ground (arith, rw d at h))
      | inr f ↦
          let d : is_duplicate t props w ≡ false = rw (f, is_duplicate) refl in
          let other : same_type w.type u ≡ false =
            ap (λ n. window_name w.type == n) (sym names) ∙ f in
          rw other (no_duplicate t u props ws same one (rw d at h))
    ]

append-Rising :
    (lo hi : ℕ) (ws : List DeckWindow) (w : DeckWindow)
    → w.id.count ≡ hi + 1
    → Rising lo hi ws
    → Rising lo (hi + 1) (ws ++ (w ∷ []))
append-Rising lo hi [] w e r = (omega (arith, e, r), omega (arith, e))
append-Rising lo hi (v ∷ ws) w e r = (r.0, append-Rising v.id.count hi ws w e r.1)

append-AllBelow :
    (n : ℕ) (ws : List DeckWindow) (w : DeckWindow)
    → w.z_index ≤ n
    → AllBelow n ws
    → AllBelow n (ws ++ (w ∷ []))
append-AllBelow n [] w le a = (le, tt)
append-AllBelow n (v ∷ ws) w le a = (a.0, append-AllBelow n ws w le a.1)

count_type-append :
    (t : WindowType) (ws : List DeckWindow) (w : DeckWindow)
    → count_type t (ws ++ (w ∷ []))
      ≡ (if same_type w.type t then suc (count_type t ws) else count_type t ws)
count_type-append t [] w = refl
count_type-append t (v ∷ ws) w = ground (arith, count_type-append t ws w)

push_window-Sound :
    (v : View) (t : WindowType) (props : Dict String) (st : WindowsState)
    → find (is_duplicate t props) st.windows ≡ none
    → Sound st
    → Sound (push_window v (new_window v t props st) st)
push_window-Sound v t props st e s =
    let w = new_window v t props st in
    record {
      rising = append-Rising 0 st.window_counter st.windows w refl s.rising;
      below =
          append-AllBelow (st.top_z_index + 1) st.windows w (omega arith)
            (AllBelow-le st.top_z_index (st.top_z_index + 1) st.windows (omega arith) s.below);
      once = λ u one. elim (Bool-cases (same_type t u)) [
        | inl f ↦
            ground
              (arith, count_type-append u st.windows w, no_duplicate t u props st.windows f one e)
        | inr f ↦ ground (arith, count_type-append u st.windows w, s.once u one)
      ];
    }

-- What is done to the windows.
pub data Operation : Type 0 where
  open_one : View → WindowType → Dict String → Operation
  close_one front : WindowId → Operation
  move : WindowId → ℤ → ℤ → Operation
  resize : WindowId → ℕ → ℕ → Operation
  minimize maximize : WindowId → Operation
  close_every : Operation

abbrev pub run : Operation → WindowsState → WindowsState
run (open_one v t props) st = (open_window v t props st).1
run (close_one id) st = close id st
run (front id) st = bring_to_front id st
run (move id x y) st = update_position id x y st
run (resize id width height) st = update_size id width height st
run (minimize id) st = toggle_minimize id st
run (maximize id) st = toggle_maximize id st
run close_every st = close_all st

change_window-Sound :
    (id : WindowId) (f : DeckWindow → DeckWindow) (st : WindowsState)
    → Keeps f
    → ((w : DeckWindow) → (f w).z_index ≡ w.z_index)
    → Sound st
    → Sound (change_window id f st)
change_window-Sound id f st k z s =
    change_first-Sound (with_id id) f st.top_z_index st k (omega arith)
      (λ w le. omega (arith, z w, le)) s

open_window-Sound :
    (v : View) (t : WindowType) (props : Dict String) (st : WindowsState)
    → Sound st
    → Sound (open_window v t props st).1
unfolding open_window
open_window-Sound v t props st s = elim (Bool-cases v.in_pip) [
  | inl p ↦ rw (p, open_window) s
  | inr p ↦ elim (Option-cases (find (is_duplicate t props) st.windows)) [
    | inl e ↦ rw (p, e, open_window) (push_window-Sound v t props st e s)
    | inr (d, e) ↦ rw (p, e, open_window) (reopen-Sound t props d st s)
  ]
]

run-Sound : (o : Operation) (st : WindowsState) → Sound st → Sound (run o st)
unfolding close update_position update_size toggle_minimize toggle_maximize close_all
run-Sound (open_one v t props) st s = open_window-Sound v t props st s
run-Sound (close_one id) st s =
    let stays : DeckWindow → Bool = λ w. not (same_id w.id id) in
    record {
      rising = keep_if-Rising stays 0 st.window_counter st.windows s.rising;
      below = keep_if-AllBelow stays st.top_z_index st.windows s.below;
      once = λ t one. omega (arith, count_type-keep_if stays t st.windows, s.once t one);
    }
run-Sound (front id) st s = bring_to_front-Sound id st s
run-Sound (move id x y) st s =
    change_window-Sound id (λ w. record w { x = x; y = y; top_right = false }) st
      (record { id = λ w. refl; type = λ w. refl }) (λ w. refl) s
run-Sound (resize id width height) st s =
    change_window-Sound id (λ w. record w { width = some width; height = some height }) st
      (record { id = λ w. refl; type = λ w. refl }) (λ w. refl) s
run-Sound (minimize id) st s =
    change_window-Sound id
      (λ w. record w {
        minimized = not w.minimized;
        maximized = if w.minimized then false else w.maximized;
      })
      st (record { id = λ w. refl; type = λ w. refl }) (λ w. refl) s
run-Sound (maximize id) st s =
    change_window-Sound id
      (λ w. record w {
        maximized = not w.maximized;
        minimized = if w.maximized then w.minimized else false;
      })
      st (record { id = λ w. refl; type = λ w. refl }) (λ w. refl) s
run-Sound close_every st s = record {
  rising = omega arith;
  below = tt;
  once = λ t one. omega arith;
}

abbrev pub run_all : List Operation → WindowsState → WindowsState
run_all [] st = st
run_all (o ∷ os) st = run_all os (run o st)

run_all-from : (os : List Operation) (st : WindowsState) → Sound st → Sound (run_all os st)
run_all-from [] st s = s
run_all-from (o ∷ os) st s = run_all-from os (run o st) (run-Sound o st s)

-- After any operations on the windows, no two have the same id, none is higher than the counter, and
-- of each type that is to stand once there is at most one window.
pub run_all-Sound : (os : List Operation) → Sound (run_all os initial)
run_all-Sound os =
    run_all-from os initial
      (record { rising = omega arith; below = tt; once = λ t one. omega arith })
