-- ===== src/Deck/WellFormed/Steps.antt =====
-- The changes of stores/deck.ts and stores/deckProfile.ts to the state keep every profile well formed.
use notedeck.Prelude.{
  ℕ, zero, suc, String, Bool, Option, none, some, List, [], ◌∷◌, find, keep_if, insert_at, ◌≡◌,
  refl, Bool-cases, inl, inr,
}
use notedeck.Deck.Layout.{Groups}
use notedeck.Deck.Layout.Moves.{Rearranges}
use notedeck.Deck.Layout.Counts.{Unique, NoEmpty}
use notedeck.Deck.Columns.{Column, Profile, has_column, change_column}
use notedeck.Deck.Profiles.{
  Profiles, same_id, current_profile, change_profile, is_there, mutate_profile, columns, layout,
}
use notedeck.Deck.Store.{Deck, change, apply_layout}
use notedeck.Deck.WellFormed.{WellFormed, Every, AllWellFormed}
use notedeck.Deck.WellFormed.Edits.{
  set_layout-WellFormed, set_columns-WellFormed, column_ids-change_column,
}

-- Only the first profile with the id is changed.
pub change_profile-Every :
    (ps : List Profile) (id : Option String) (f : Profile → Profile)
    → ((p : Profile) → find (λ q. same_id id q.id) ps ≡ some p → WellFormed p → WellFormed (f p))
    → Every WellFormed ps
    → Every WellFormed (change_profile ps id f)
unfolding change_profile
change_profile-Every [] id f keeps w = tt
change_profile-Every (p ∷ ps) id f keeps w = elim (Bool-cases (same_id id p.id)) [
  | inl e ↦ rw e (keeps p (rw e refl) w.0, w.1)
  | inr e ↦ rw e (w.0, change_profile-Every ps id f (λ q h v. keeps q (rw e h) v) w.1)
]

pub mutate_profile-AllWellFormed :
    (f : Profile → Profile) (s : Profiles)
    → ((p : Profile) → current_profile s ≡ some p → WellFormed p → WellFormed (f p))
    → AllWellFormed s
    → AllWellFormed (mutate_profile f s)
unfolding mutate_profile current_profile
mutate_profile-AllWellFormed f s keeps w =
    elim (Bool-cases (is_there s.profiles s.window_profile_id)) [
      | inl e ↦ rw e (change_profile-Every s.profiles s.window_profile_id f keeps w)
      | inr e ↦ rw e w
    ]

pub apply_layout-AllWellFormed :
    (o : Option Groups) (d : Deck)
    → ((l l' : Groups) → layout d.store ≡ l → o ≡ some l' → Unique l → NoEmpty l → Rearranges l l')
    → AllWellFormed d.store
    → AllWellFormed (apply_layout o d).store
unfolding apply_layout
apply_layout-AllWellFormed none d moves w = w
apply_layout-AllWellFormed (some l') d moves w =
    mutate_profile-AllWellFormed (λ p. record p { layout = l' }) d.store
      (λ p h v.
        set_layout-WellFormed l' p
          (moves p.layout l' (rw (h, layout) refl) refl (λ k. rw (v.placed k) (v.once k)) v.filled)
          v)
      w

-- A change in place of a column that keeps its id.
pub change-AllWellFormed :
    (id : String) (f : Column → Column) (d : Deck)
    → ((c : Column) → (f c).id ≡ c.id)
    → AllWellFormed d.store
    → AllWellFormed (change id f d).store
unfolding change
change-AllWellFormed id f d keeps w = elim (Bool-cases (has_column (columns d.store) id)) [
  | inl e ↦ rw e (
      change_profile-Every d.store.profiles d.store.window_profile_id
        (λ p. record p { columns = change_column p.columns id f })
        (λ p h v.
          set_columns-WellFormed (change_column p.columns id f) p
            (column_ids-change_column p.columns id f keeps) v)
        w)
  | inr e ↦ rw e w
]

pub keep_if-Every :
    (test : Profile → Bool) (ps : List Profile)
    → Every WellFormed ps
    → Every WellFormed (keep_if test ps)
keep_if-Every test [] w = tt
keep_if-Every test (p ∷ ps) w = elim (Bool-cases (test p)) [
  | inl e ↦ rw e (w.0, keep_if-Every test ps w.1)
  | inr e ↦ rw e (keep_if-Every test ps w.1)
]

pub insert_at-Every :
    (ps : List Profile) (i : ℕ) (p : Profile)
    → WellFormed p
    → Every WellFormed ps
    → Every WellFormed (insert_at ps i p)
insert_at-Every ps zero p v w = (v, w)
insert_at-Every [] (suc i) p v w = (v, tt)
insert_at-Every (q ∷ ps) (suc i) p v w = (w.0, insert_at-Every ps i p v w.1)
