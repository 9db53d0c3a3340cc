-- ===== src/Windows/Front.antt =====
-- Which window is in front.
use notedeck.Prelude.{
  ℕ, ◌+◌, ◌≤◌, ◌<◌, String, Bool, true, false, Option, none, some, List, [], ◌∷◌, ◌++◌, find, leb,
  ◌≡◌, refl, sym, ap, ◌∙◌, subst, arith, Bool-cases, Option-cases, inl, inr,
}
use notedeck.Prelude.Dict.{Dict}
use notedeck.Windows.{
  WindowId, DeckWindow, WindowsState, View, same_id, change_first, with_id, bring_to_front,
  new_window, push_window, top_of, top_window,
}
use notedeck.Windows.Types.{WindowType}

-- No window is higher.
abbrev pub AllBelow : ℕ → List DeckWindow → Type 0
AllBelow n [] = Unit
AllBelow n (w ∷ ws) = (w.z_index ≤ n) × AllBelow n ws

abbrev pub raise : ℕ → DeckWindow → DeckWindow
raise n w = record w { z_index = n }

top_of-AllBelow :
    (n : ℕ) (ws : List DeckWindow) (v : DeckWindow)
    → AllBelow n ws
    → top_of ws ≡ some v
    → v.z_index ≤ n
unfolding top_of
top_of-AllBelow n [] v a h = absurd (ground arith)
top_of-AllBelow n (w ∷ ws) v a h = elim (Option-cases (top_of ws)) [
  | inl e ↦
      let same : w ≡ v = ground (arith, rw (e, top_of) at h) in
      subst (λ (u : DeckWindow). u.z_index ≤ n) same a.0
  | inr (u, e) ↦ elim (Bool-cases (leb u.z_index w.z_index)) [
    | inl f ↦
        let same : w ≡ v = ground (arith, rw (e, f, top_of) at h) in
        subst (λ (u : DeckWindow). u.z_index ≤ n) same a.0
    | inr f ↦ top_of-AllBelow n ws v a.1 (e ∙ rw (e, f, top_of) at h)
  ]
]

-- A window above all that follow it is on top of them, and one below the top of them is not.
top_of-first :
    (n : ℕ) (w : DeckWindow) (ws : List DeckWindow)
    → AllBelow n ws
    → n < w.z_index
    → top_of (w ∷ ws) ≡ some w
unfolding top_of
top_of-first n w ws a lt = elim (Option-cases (top_of ws)) [
  | inl e ↦ rw (e, top_of) refl
  | inr (u, e) ↦
      let le = top_of-AllBelow n ws u a e in
      let higher : leb u.z_index w.z_index ≡ true = ground arith in rw (e, higher, top_of) refl
]

top_of-later :
    (w v : DeckWindow) (ws : List DeckWindow)
    → top_of ws ≡ some v
    → w.z_index < v.z_index
    → top_of (w ∷ ws) ≡ some v
unfolding top_of
top_of-later w v ws e lt =
    let lower : leb v.z_index w.z_index ≡ false = ground arith in rw (e, lower, top_of) refl

top_of-change_first :
    (n : ℕ) (p : DeckWindow → Bool) (ws : List DeckWindow) (w : DeckWindow)
    → AllBelow n ws
    → find p ws ≡ some w
    → top_of (change_first p (raise (n + 1)) ws) ≡ some (raise (n + 1) w)
unfolding change_first
top_of-change_first n p [] w a h = absurd (ground arith)
top_of-change_first n p (v ∷ ws) w a h = elim (Bool-cases (p v)) [
  | inl e ↦
      let same : v ≡ w = ground (arith, rw e at h) in
      rw e (
        top_of-first n (raise (n + 1) v) ws a.1 (omega arith)
        ∙ ap (λ u. some (raise (n + 1) u)) same)
  | inr e ↦ rw e (
      top_of-later v (raise (n + 1) w) (change_first p (raise (n + 1)) ws)
        (top_of-change_first n p ws w a.1 (rw e at h)) (omega (arith, a.0)))
]

top_of-append :
    (n : ℕ) (ws : List DeckWindow) (w : DeckWindow)
    → AllBelow n ws
    → n < w.z_index
    → top_of (ws ++ (w ∷ [])) ≡ some w
top_of-append n [] w a lt = top_of-first n w [] tt lt
top_of-append n (v ∷ ws) w a lt =
    top_of-later v w (ws ++ (w ∷ [])) (top_of-append n ws w a.1 lt) (omega (arith, a.0, lt))

pub find-passes :
    (p : DeckWindow → Bool) (ws : List DeckWindow) (w : DeckWindow)
    → find p ws ≡ some w
    → p w ≡ true
find-passes p [] w h = absurd (ground arith)
find-passes p (v ∷ ws) w h = elim (Bool-cases (p v)) [
  | inl e ↦ let same : v ≡ w = ground (arith, rw e at h) in subst (λ u. p u ≡ true) same e
  | inr e ↦ find-passes p ws w (rw e at h)
]

abbrev pub is_at : WindowId → Option DeckWindow → Bool
is_at id none = false
is_at id (some w) = same_id w.id id

-- The window with this id is in front.
abbrev pub in_front : WindowId → WindowsState → Bool
in_front id st = is_at id (top_window st)

pub bring_to_front-some :
    (id : WindowId) (st : WindowsState) (w : DeckWindow)
    → find (with_id id) st.windows ≡ some w
    → bring_to_front id st ≡ record st {
      top_z_index = st.top_z_index + 1;
      windows = change_first (with_id id) (raise (st.top_z_index + 1)) st.windows;
    }
unfolding bring_to_front
bring_to_front-some id st w h = rw (h, bring_to_front) refl

pub in_front-bring_to_front :
    (id : WindowId) (st : WindowsState) (w : DeckWindow)
    → AllBelow st.top_z_index st.windows
    → find (with_id id) st.windows ≡ some w
    → in_front id (bring_to_front id st) ≡ true
unfolding top_window
in_front-bring_to_front id st w a h =
    let top = top_of-change_first st.top_z_index (with_id id) st.windows w a h in
    subst (λ after. in_front id after ≡ true) (sym (bring_to_front-some id st w h))
      (subst (λ o. is_at id o ≡ true) (sym top) (find-passes (with_id id) st.windows w h))

pub in_front-push_window :
    (v : View) (t : WindowType) (props : Dict String) (st : WindowsState)
    → AllBelow st.top_z_index st.windows
    → let w = new_window v t props st in in_front w.id (push_window v w st) ≡ true
unfolding top_window
in_front-push_window v t props st a =
    let w = new_window v t props st in
    subst (λ o. is_at w.id o ≡ true)
      (sym (top_of-append st.top_z_index st.windows w a (omega arith))) (ground arith)
