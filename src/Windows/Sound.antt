-- ===== src/Windows/Sound.antt =====
-- The invariant of the windows, under changes of their list.
use notedeck.Prelude.{
  ℕ, suc, ◌≤◌, ◌<◌, Bool, true, List, [], ◌∷◌, keep_if, ◌≡◌, refl, arith, if◌then◌else◌, Bool-cases,
  inl, inr,
}
use notedeck.Windows.{DeckWindow, WindowsState, same_type, is_singleton, change_first}
use notedeck.Windows.Types.{WindowType}
use notedeck.Windows.Front.{AllBelow}
use notedeck.Windows.Opening.{Keeps, change_first-AllBelow}

-- The counts of the ids rise, from more than `lo` to at most `hi`.
abbrev pub Rising : ℕ → ℕ → List DeckWindow → Type 0
Rising lo hi [] = lo ≤ hi
Rising lo hi (w ∷ ws) = (lo < w.id.count) × Rising w.id.count hi ws

abbrev pub count_type : WindowType → List DeckWindow → ℕ
count_type t [] = 0
count_type t (w ∷ ws) = let rest = count_type t ws in if same_type w.type t then suc rest else rest

-- No two windows have the same id, none is higher than the counter, and of a type that is to stand
-- once there is at most one window.
pub record Sound (st : WindowsState) : Type 0 where
  pub rising : Rising 0 st.window_counter st.windows
  pub below : AllBelow st.top_z_index st.windows
  pub once : (t : WindowType) → is_singleton t ≡ true → count_type t st.windows ≤ 1

pub Rising-le :
    (lo lo' hi : ℕ) (ws : List DeckWindow) → lo' ≤ lo → Rising lo hi ws → Rising lo' hi ws
Rising-le lo lo' hi [] le r = omega (arith, le, r)
Rising-le lo lo' hi (w ∷ ws) le r = (omega (arith, le, r.0), r.1)

pub keep_if-Rising :
    (p : DeckWindow → Bool) (lo hi : ℕ) (ws : List DeckWindow)
    → Rising lo hi ws
    → Rising lo hi (keep_if p ws)
keep_if-Rising p lo hi [] r = r
keep_if-Rising p lo hi (w ∷ ws) r = elim (Bool-cases (p w)) [
  | inl e ↦ rw e (r.0, keep_if-Rising p w.id.count hi ws r.1)
  | inr e ↦ rw e (
      Rising-le w.id.count lo hi (keep_if p ws) (omega (arith, r.0))
        (keep_if-Rising p w.id.count hi ws r.1))
]

pub keep_if-AllBelow :
    (p : DeckWindow → Bool) (n : ℕ) (ws : List DeckWindow)
    → AllBelow n ws
    → AllBelow n (keep_if p ws)
keep_if-AllBelow p n [] a = a
keep_if-AllBelow p n (w ∷ ws) a = elim (Bool-cases (p w)) [
  | inl e ↦ rw e (a.0, keep_if-AllBelow p n ws a.1)
  | inr e ↦ rw e (keep_if-AllBelow p n ws a.1)
]

pub count_type-keep_if :
    (p : DeckWindow → Bool) (t : WindowType) (ws : List DeckWindow)
    → count_type t (keep_if p ws) ≤ count_type t ws
count_type-keep_if p t [] = omega arith
count_type-keep_if p t (w ∷ ws) = elim (Bool-cases (p w)) [
  | inl e ↦ rw e (ground (arith, count_type-keep_if p t ws))
  | inr e ↦ rw e (ground (arith, count_type-keep_if p t ws))
]

pub change_first-Rising :
    (p : DeckWindow → Bool) (f : DeckWindow → DeckWindow) (lo hi : ℕ) (ws : List DeckWindow)
    → Keeps f
    → Rising lo hi ws
    → Rising lo hi (change_first p f ws)
unfolding change_first
change_first-Rising p f lo hi [] k r = r
change_first-Rising p f lo hi (w ∷ ws) k r = elim (Bool-cases (p w)) [
  | inl e ↦ rw (e, k.id w) r
  | inr e ↦ rw e (r.0, change_first-Rising p f w.id.count hi ws k r.1)
]

pub count_type-change_first :
    (p : DeckWindow → Bool) (f : DeckWindow → DeckWindow) (t : WindowType) (ws : List DeckWindow)
    → Keeps f
    → count_type t (change_first p f ws) ≡ count_type t ws
unfolding change_first
count_type-change_first p f t [] k = refl
count_type-change_first p f t (w ∷ ws) k = elim (Bool-cases (p w)) [
  | inl e ↦ rw (e, k.type w) refl
  | inr e ↦ rw (e, count_type-change_first p f t ws k) refl
]

pub AllBelow-le : (n m : ℕ) (ws : List DeckWindow) → n ≤ m → AllBelow n ws → AllBelow m ws
AllBelow-le n m [] le a = tt
AllBelow-le n m (w ∷ ws) le a = (omega (arith, le, a.0), AllBelow-le n m ws le a.1)

-- A change of the first window that passes a test, under a counter that does not fall.
pub change_first-Sound :
    (p : DeckWindow → Bool) (f : DeckWindow → DeckWindow) (top : ℕ) (st : WindowsState)
    → Keeps f
    → st.top_z_index ≤ top
    → ((w : DeckWindow) → w.z_index ≤ top → (f w).z_index ≤ top)
    → Sound st
    → Sound (record st { top_z_index = top; windows = change_first p f st.windows })
change_first-Sound p f top st k le h s = record {
  rising = change_first-Rising p f 0 st.window_counter st.windows k s.rising;
  below =
      change_first-AllBelow top p f st.windows h
        (AllBelow-le st.top_z_index top st.windows le s.below);
  once = λ t one. omega (arith, count_type-change_first p f t st.windows k, s.once t one);
}
