-- ===== src/Deck/WellFormed.antt =====
-- The well-formed profiles: what every operation of stores/deck.ts on a profile keeps.
pub mod Edits
pub mod Steps
pub mod Changes
pub mod Slots
pub mod Catalog
pub mod Operations
pub mod Run
mod Lookups
pub mod Undo
use notedeck.Prelude.{ℕ, ◌≤◌, String, List, [], ◌∷◌, ◌≡◌}
use notedeck.Deck.Layout.Counts.{occ, occurrences, NoEmpty}
use notedeck.Deck.Columns.{Profile, column_ids}
use notedeck.Deck.Profiles.{Profiles}

-- No two columns with one id; each column in exactly one group, no other id in a group; no group
-- empty.
pub record WellFormed (p : Profile) : Type 0 where
  pub once : (k : String) → occ k (column_ids p.columns) ≤ 1
  pub placed : (k : String) → occurrences k p.layout ≡ occ k (column_ids p.columns)
  pub filled : NoEmpty p.layout

abbrev pub Every {ℓ ℓ'} : {A : Type ℓ} → (A → Type ℓ') → List A → Type ℓ'
Every P [] = Unit
Every P (x ∷ xs) = P x × Every P xs

abbrev pub AllWellFormed : Profiles → Type 0
AllWellFormed s = Every WellFormed s.profiles
