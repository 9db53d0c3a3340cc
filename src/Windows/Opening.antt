-- ===== src/Windows/Opening.antt =====
-- Opening a window brings it to the front.
use notedeck.Prelude.{
  ℕ, ◌≤◌, String, Bool, true, false, some, List, [], ◌∷◌, find, ◌≡◌, refl, ◌∙◌, subst, arith,
  if◌then◌else◌, Bool-cases, Option-cases, inl, inr,
}
use notedeck.Prelude.Dict.{Dict}
use notedeck.Windows.{
  WindowId, DeckWindow, WindowsState, View, same_id, is_duplicate, is_singleton, change_first,
  with_id, assign, new_window, reopen, open_window,
}
use notedeck.Windows.Types.{WindowType}
use notedeck.Windows.Front.{AllBelow, in_front, in_front-bring_to_front, in_front-push_window}

-- A change that keeps ids and types.
pub record Keeps (f : DeckWindow → DeckWindow) : Type 0 where
  pub id : (w : DeckWindow) → (f w).id ≡ w.id
  pub type : (w : DeckWindow) → (f w).type ≡ w.type

pub change_first-AllBelow :
    (n : ℕ) (p : DeckWindow → Bool) (f : DeckWindow → DeckWindow) (ws : List DeckWindow)
    → ((w : DeckWindow) → w.z_index ≤ n → (f w).z_index ≤ n)
    → AllBelow n ws
    → AllBelow n (change_first p f ws)
unfolding change_first
change_first-AllBelow n p f [] h a = tt
change_first-AllBelow n p f (w ∷ ws) h a = elim (Bool-cases (p w)) [
  | inl e ↦ rw e (h w a.0, a.1)
  | inr e ↦ rw e (a.0, change_first-AllBelow n p f ws h a.1)
]

-- Some window has the id.
abbrev pub there : WindowId → List DeckWindow → Bool
there id [] = false
there id (w ∷ ws) = if same_id w.id id then true else there id ws

there-find :
    (id : WindowId) (ws : List DeckWindow)
    → there id ws ≡ true
    → (w : DeckWindow) × (find (with_id id) ws ≡ some w)
there-find id [] h = absurd (ground arith)
there-find id (w ∷ ws) h = elim (Bool-cases (same_id w.id id)) [
  | inl e ↦ (w, rw e refl)
  | inr e ↦ let (v, f) = there-find id ws (rw e at h) in (v, rw e f)
]

there-duplicate :
    (p : DeckWindow → Bool) (ws : List DeckWindow) (d : DeckWindow)
    → find p ws ≡ some d
    → there d.id ws ≡ true
there-duplicate p [] d h = absurd (ground arith)
there-duplicate p (w ∷ ws) d h = elim (Bool-cases (p w)) [
  | inl e ↦
      let same : w ≡ d = ground (arith, rw e at h) in
      subst (λ (u : DeckWindow). there u.id (w ∷ ws) ≡ true) same (ground arith)
  | inr e ↦ ground (arith, there-duplicate p ws d (rw e at h))
]

there-change_first :
    (id : WindowId) (p : DeckWindow → Bool) (f : DeckWindow → DeckWindow) (ws : List DeckWindow)
    → Keeps f
    → there id (change_first p f ws) ≡ there id ws
unfolding change_first
there-change_first id p f [] k = refl
there-change_first id p f (w ∷ ws) k = elim (Bool-cases (p w)) [
  | inl e ↦ rw (e, k.id w) refl
  | inr e ↦ rw (e, there-change_first id p f ws k) refl
]

pub assign-Keeps : (props : Dict String) → Keeps (λ w. record w { props = assign w.props props })
assign-Keeps props = record { id = λ w. refl; type = λ w. refl }

-- The windows of `reopen` before the one is brought to the front.
abbrev pub assigned : WindowType → Dict String → List DeckWindow → List DeckWindow
assigned t props ws =
    if is_singleton t
    then change_first (is_duplicate t props) (λ w. record w { props = assign w.props props }) ws
    else ws

pub assigned_lem :
    (t : WindowType) (props : Dict String) (n : ℕ) (id : WindowId) (ws : List DeckWindow)
    → AllBelow n ws
    → AllBelow n (assigned t props ws) × (there id (assigned t props ws) ≡ there id ws)
assigned_lem t props n id ws a = elim (Bool-cases (is_singleton t)) [
  | inl e ↦
      let f : DeckWindow → DeckWindow = λ w. record w { props = assign w.props props } in
      rw e (
        change_first-AllBelow n (is_duplicate t props) f ws (λ w le. le) a,
        there-change_first id (is_duplicate t props) f ws (assign-Keeps props),
      )
  | inr e ↦ rw e (a, refl)
]

in_front-reopen :
    (t : WindowType) (props : Dict String) (d : DeckWindow) (st : WindowsState)
    → AllBelow st.top_z_index st.windows
    → find (is_duplicate t props) st.windows ≡ some d
    → in_front d.id (reopen t props d st) ≡ true
in_front-reopen t props d st a h =
    let (below, same) = assigned_lem t props st.top_z_index d.id st.windows a in
    let (w, at) =
      there-find d.id (assigned t props st.windows)
        (same ∙ there-duplicate (is_duplicate t props) st.windows d h) in
    in_front-bring_to_front d.id (record st { windows = assigned t props st.windows }) w below at

-- Outside of the picture-in-picture window, where all windows are at most as high as the counter,
-- opening gives an id, and the window with it is in front: a new one, or the one that was there.
pub open_window-in_front :
    (v : View) (t : WindowType) (props : Dict String) (st : WindowsState)
    → v.in_pip ≡ false
    → AllBelow st.top_z_index st.windows
    → (id : WindowId) × ((open_window v t props st).0 ≡ some id)
      × (in_front id (open_window v t props st).1 ≡ true)
unfolding open_window
open_window-in_front v t props st out a =
    elim (Option-cases (find (is_duplicate t props) st.windows)) [
      | inl e ↦
          let w = new_window v t props st in
          (
            w.id,
            rw (out, e, open_window) refl,
            rw (out, e, open_window) (in_front-push_window v t props st a),
          )
      | inr (d, e) ↦ (
        d.id,
        rw (out, e, open_window) refl,
        rw (out, e, open_window) (in_front-reopen t props d st a e),
      )
    ]
