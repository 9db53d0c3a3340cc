-- ===== src/Windows.antt =====
-- stores/windows.ts: the windows that float over the deck.
pub mod Types
pub mod Front
pub mod Opening
pub mod Sound
pub mod Runs
mod Examples
use Prim.Native.Nat.{max, ◌%◌}
use notedeck.Prelude.{
  ℕ, ◌+◌, ◌-◌, ◌*◌, String, Bool, true, false, not, ◌&&◌, Option, none, some, List, [], ◌∷◌, ◌++◌,
  length, keep_if, every, find, includes, is_some, nat_eq, leb, ◌==◌, if◌then◌else◌,
}
use notedeck.Prelude.Dict
use notedeck.Prelude.Dict.{Dict}
use notedeck.Windows.Types.{
  WindowType, window_name, WindowSize, window_size, props_dedup_keys, singleton_types,
}

-- `win-${Date.now()}-${++windowCounter}`: the time and the count.
pub record WindowId : Type 0 where
  pub time : ℕ
  pub count : ℕ

-- Where the user moves a window may be negative.
pub data ℤ : Type 0 where
  pos negsuc : ℕ → ℤ

-- The position is in half pixels, as the middle of the view may be. The value of a prop is a text.
pub record DeckWindow : Type 0 where
  pub id : WindowId
  pub type : WindowType
  pub props : Dict String
  pub x : ℤ
  pub y : ℤ
  pub width : Option ℕ
  pub height : Option ℕ
  pub z_index : ℕ
  pub minimized : Bool
  pub maximized : Bool
  pub top_right : Bool

-- `overlays` is the ids with a cleanup, `cleaned` the ids whose cleanup has been called, the latest
-- first.
pub record WindowsState : Type 0 where
  pub windows : List DeckWindow
  pub window_counter : ℕ
  pub top_z_index : ℕ
  pub overlays : List WindowId
  pub cleaned : List WindowId

abbrev pub initial : WindowsState
initial = record {
  windows = [];
  window_counter = 0;
  top_z_index = 1500;
  overlays = [];
  cleaned = [];
}

-- What the browser and the platform say.
pub record View : Type 0 where
  pub in_pip : Bool
  pub inner_width : ℕ
  pub inner_height : ℕ
  pub now : ℕ
  pub is_mobile : Bool

abbrev pub same_id : WindowId → WindowId → Bool
same_id a b = nat_eq a.time b.time && nat_eq a.count b.count

abbrev pub same_type : WindowType → WindowType → Bool
same_type t u = window_name t == window_name u

abbrev pub is_singleton : WindowType → Bool
is_singleton t = includes singleton_types (window_name t)

-- `a === b` on props, of which an absent one is `undefined`.
abbrev pub same_value : Option String → Option String → Bool
same_value none none = true
same_value (some a) (some b) = a == b
same_value _ _ = false

abbrev pub is_duplicate : WindowType → Dict String → DeckWindow → Bool
is_duplicate t props w =
    if same_type w.type t
    then elim (Dict.get props_dedup_keys (window_name t)) [
      | some ks ↦ every (λ k. same_value (Dict.get w.props k) (Dict.get props k)) ks
      | none ↦ is_singleton t
    ]
    else false

-- The first window that passes the test is changed in place.
unfoldable pub change_first :
    (DeckWindow → Bool) → (DeckWindow → DeckWindow) → List DeckWindow → List DeckWindow
change_first p f [] = []
change_first p f (w ∷ ws) = let rest = change_first p f ws in if p w then f w ∷ ws else w ∷ rest

abbrev pub with_id : WindowId → DeckWindow → Bool
with_id id w = same_id w.id id

unfoldable pub bring_to_front : WindowId → WindowsState → WindowsState
unfolding change_first
bring_to_front id st = elim (find (with_id id) st.windows) [
  | none ↦ st
  | some w ↦ record st {
    top_z_index = st.top_z_index + 1;
    windows = change_first (with_id id) (λ v. record v { z_index = st.top_z_index + 1 }) st.windows;
  }
]

-- `Object.assign`
abbrev pub assign : Dict String → Dict String → Dict String
assign m [] = m
assign m ((k, v) ∷ ps) = assign (Dict.put m k v) ps

-- `innerWidth || 800`
abbrev pub or_default : ℕ → ℕ → ℕ
or_default n d = if nat_eq n 0 then d else n

-- Twice the position; what would be less than 50 is 50.
unfoldable pub place : View → WindowType → ℕ → ℕ × ℕ
place v t count =
    let size = window_size t in
    let w = or_default v.inner_width 800 in
    let h = or_default v.inner_height 600 in
    let offset = (count % 5) * 30 in
    if size.top_right
    then (max 100 (2 * (w - size.width - 32)), max 100 (2 * (72 + offset)))
    else (max 100 (w + 2 * offset - size.width), max 100 (h + 2 * offset - size.max_height))

abbrev pub new_window : View → WindowType → Dict String → WindowsState → DeckWindow
new_window v t props st =
    let (x, y) = place v t (length st.windows) in
    record {
      id = record { time = v.now; count = st.window_counter + 1 };
      type = t;
      props = props;
      x = pos x;
      y = pos y;
      width = none;
      height = none;
      z_index = st.top_z_index + 1;
      minimized = false;
      maximized = false;
      top_right = (window_size t).top_right;
    }

abbrev pub push_window : View → DeckWindow → WindowsState → WindowsState
push_window v w st = record st {
  top_z_index = st.top_z_index + 1;
  window_counter = st.window_counter + 1;
  windows = st.windows ++ (w ∷ []);
  overlays = if v.is_mobile then st.overlays ++ (w.id ∷ []) else st.overlays;
}

abbrev pub reopen : WindowType → Dict String → DeckWindow → WindowsState → WindowsState
reopen t props d st = bring_to_front d.id (record st {
  windows =
      if is_singleton t
      then change_first (is_duplicate t props) (λ w. record w { props = assign w.props props })
          st.windows
      else st.windows;
})

-- `none` is the empty id: the window opens elsewhere.
unfoldable pub open_window :
    View → WindowType → Dict String → WindowsState → Option WindowId × WindowsState
unfolding place bring_to_front
open_window v t props st =
    if v.in_pip then (none, st) else elim (find (is_duplicate t props) st.windows) [
      | some d ↦ (some d.id, reopen t props d st)
      | none ↦ let w = new_window v t props st in (some w.id, push_window v w st)
    ]

abbrev pub has_id : WindowId → List WindowId → Bool
has_id id [] = false
has_id id (x ∷ xs) = if same_id x id then true else has_id id xs

unfoldable pub close : WindowId → WindowsState → WindowsState
close id st = record st {
  cleaned = if has_id id st.overlays then id ∷ st.cleaned else st.cleaned;
  overlays = keep_if (λ x. not (same_id x id)) st.overlays;
  windows = keep_if (λ w. not (same_id w.id id)) st.windows;
}

abbrev pub change_window : WindowId → (DeckWindow → DeckWindow) → WindowsState → WindowsState
change_window id f st = record st { windows = change_first (with_id id) f st.windows }

unfoldable pub update_position : WindowId → ℤ → ℤ → WindowsState → WindowsState
unfolding change_first
update_position id x y = change_window id (λ w. record w { x = x; y = y; top_right = false })

unfoldable pub update_size : WindowId → ℕ → ℕ → WindowsState → WindowsState
unfolding change_first
update_size id width height =
    change_window id (λ w. record w { width = some width; height = some height })

unfoldable pub toggle_minimize : WindowId → WindowsState → WindowsState
unfolding change_first
toggle_minimize id = change_window id (λ w. record w {
  minimized = not w.minimized;
  maximized = if w.minimized then false else w.maximized;
})

unfoldable pub toggle_maximize : WindowId → WindowsState → WindowsState
unfolding change_first
toggle_maximize id = change_window id (λ w. record w {
  maximized = not w.maximized;
  minimized = if w.maximized then w.minimized else false;
})

unfoldable pub close_all : WindowsState → WindowsState
close_all st = record st { windows = []; overlays = []; cleaned = st.overlays ++ st.cleaned }

-- The first of the windows in descending order of `zIndex`, sorted stably.
unfoldable pub top_of : List DeckWindow → Option DeckWindow
top_of [] = none
top_of (w ∷ ws) = elim (top_of ws) [
  | none ↦ some w
  | some v ↦ if leb v.z_index w.z_index then some w else some v
]

unfoldable pub top_window : WindowsState → Option DeckWindow
unfolding top_of
top_window st = top_of st.windows
