-- ===== src/Deck/WellFormed/Catalog.antt =====
-- Making, renaming and keeping profiles: stores/deckProfile.ts keeps all profiles well formed.
use notedeck.Prelude.{ℕ, String, Bool, some, List, [], ◌∷◌, ◌++◌, or_else, Bool-cases, inl, inr}
use notedeck.Deck.Columns.{Profile, WindowLayout}
use notedeck.Deck.Profiles
use notedeck.Deck.Profiles.{Profiles, is_there, change_profile, put_window}
use notedeck.Deck.WellFormed.{WellFormed, Every, AllWellFormed}
use notedeck.Deck.WellFormed.Edits.{empty-WellFormed}
use notedeck.Deck.WellFormed.Steps.{change_profile-Every}

append-Every :
    (ps : List Profile) (p : Profile)
    → WellFormed p
    → Every WellFormed ps
    → Every WellFormed (ps ++ p ∷ [])
append-Every [] p v w = (v, tt)
append-Every (q ∷ ps) p v w = (w.0, append-Every ps p v w.1)

pub create_empty_profile-AllWellFormed :
    (file : String → String) (name : String) (now : ℕ) (s : Profiles)
    → AllWellFormed s
    → AllWellFormed (Profiles.create_empty_profile file name now s)
unfolding Profiles.create_empty_profile Profiles.save_profiles
create_empty_profile-AllWellFormed file name now s w =
    let p = Profiles.empty_profile (file name) name now in
    append-Every s.profiles p (empty-WellFormed p) w

pub save_as_profile-AllWellFormed :
    (file : String → String) (name : String) (now : ℕ) (s : Profiles)
    → AllWellFormed s
    → AllWellFormed (Profiles.save_as_profile file name now s)
unfolding Profiles.save_as_profile Profiles.init_window_profile Profiles.save_active_profile_id
save_as_profile-AllWellFormed file name now s w =
    create_empty_profile-AllWellFormed file name now s w

-- Whatever else of a profile changes, its columns and its layout decide.
same_columns-WellFormed :
    (p q : Profile)
    → WellFormed p
    → WellFormed (record q { columns = p.columns; layout = p.layout })
same_columns-WellFormed p q w = record { once = w.once; placed = w.placed; filled = w.filled }

pub rename_profile-AllWellFormed :
    (file : String → String) (id name : String) (s : Profiles)
    → AllWellFormed s
    → AllWellFormed (Profiles.rename_profile file id name s)
unfolding Profiles.rename_profile Profiles.save_profiles
rename_profile-AllWellFormed file id name s w = elim (Bool-cases (is_there s.profiles (some id))) [
  | inl e ↦ rw e (
      change_profile-Every s.profiles (some id) (λ p. record p { name = name; id = file name })
        (λ p h v. same_columns-WellFormed p (record p { name = name; id = file name }) v) w)
  | inr e ↦ rw e w
]

put_window-Every :
    (l : WindowLayout) (s : Profiles)
    → AllWellFormed s
    → Every WellFormed (
        change_profile s.profiles s.window_profile_id
          (λ p. record p { windows = some (put_window (or_else p.windows []) l) }))
put_window-Every l s w =
    change_profile-Every s.profiles s.window_profile_id
      (λ p. record p { windows = some (put_window (or_else p.windows []) l) })
      (λ p h v.
        same_columns-WellFormed p
          (record p { windows = some (put_window (or_else p.windows []) l) }) v)
      w

pub save_window_layout-AllWellFormed :
    (l : WindowLayout) (immediate : Bool) (s : Profiles)
    → AllWellFormed s
    → AllWellFormed (Profiles.save_window_layout l immediate s)
unfolding Profiles.save_window_layout Profiles.flush_persist Profiles.persist_now
    Profiles.schedule_persist
save_window_layout-AllWellFormed l immediate s w =
    elim (Bool-cases (is_there s.profiles s.window_profile_id)) [
      | inr e ↦ rw e w
      | inl e ↦ rw e (elim (Bool-cases immediate) [
        | inl i ↦ rw i (put_window-Every l s w)
        | inr i ↦ rw i (put_window-Every l s w)
      ])
    ]
