-- ===== src/Deck/Profiles.antt =====
-- stores/deckProfile.ts: the profiles, which of them this window shows, and their persistence.
-- `storage` is what localStorage holds; the files of the profiles are written after it.
use notedeck.Prelude.{
  ℕ, ◌+◌, String, Bool, true, false, not, Option, none, some, List, [], ◌∷◌, ◌++◌, find, find_index,
  any, keep_if, insert_at, set, length, ◌==◌, or_else, if◌then◌else◌,
}
use Prim.Native.Nat.{min}
use notedeck.Deck.Layout.{Groups}
use notedeck.Deck.Columns.{Column, Profile, WindowLayout}

pub record Profiles : Type 0 where
  pub profiles : List Profile
  pub window_profile_id : Option String
  pub active_profile_id : Option String
  pub storage : List Profile
  -- a debounced write is due
  pub pending : Bool
  pub version : ℕ

abbrev pub same_id : Option String → String → Bool
same_id none id = false
same_id (some j) id = id == j

unfoldable pub current_profile : Profiles → Option Profile
current_profile s = find (λ p. same_id s.window_profile_id p.id) s.profiles

-- The change in place of the first profile with the id.
unfoldable pub change_profile : List Profile → Option String → (Profile → Profile) → List Profile
change_profile [] id f = []
change_profile (p ∷ ps) id f =
    let rest = change_profile ps id f in if same_id id p.id then f p ∷ ps else p ∷ rest

abbrev pub is_there : List Profile → Option String → Bool
is_there ps id = any (λ p. same_id id p.id) ps

-- `mutateProfile(fn)` for the current profile.
unfoldable pub mutate_profile : (Profile → Profile) → Profiles → Profiles
mutate_profile f s =
    if is_there s.profiles s.window_profile_id
    then record s {
      profiles = change_profile s.profiles s.window_profile_id f;
      version = s.version + 1;
      pending = true;
    }
    else s

unfoldable pub persist_now : Profiles → Profiles
persist_now s = record s { storage = s.profiles }

unfoldable pub flush_persist : Profiles → Profiles
unfolding persist_now
flush_persist s = persist_now (record s { pending = false })

-- The timer of `createDebouncedPersist` runs out.
unfoldable pub fire_persist : Profiles → Profiles
unfolding persist_now
fire_persist s = if s.pending then persist_now (record s { pending = false }) else s

unfoldable pub schedule_persist : Profiles → Profiles
schedule_persist s = record s { pending = true }

unfoldable pub set_layout : Groups → Profiles → Profiles
unfolding mutate_profile
set_layout l = mutate_profile (λ p. record p { layout = l })

unfoldable pub set_columns_and_layout : List Column → Groups → Profiles → Profiles
unfolding mutate_profile
set_columns_and_layout cs l = mutate_profile (λ p. record p { columns = cs; layout = l })

abbrev pub columns : Profiles → List Column
columns s = elim (current_profile s) [ none ↦ [] | some p ↦ p.columns ]

abbrev pub layout : Profiles → Groups
layout s = elim (current_profile s) [ none ↦ [] | some p ↦ p.layout ]

-- `saveProfiles`
unfoldable pub save_profiles : List Profile → Profiles → Profiles
save_profiles ps s = record s { profiles = ps; storage = ps; version = s.version + 1 }

unfoldable pub save_active_profile_id : Option String → Profiles → Profiles
save_active_profile_id id s = record s { active_profile_id = id }

unfoldable pub init_window_profile : String → Profiles → Profiles
init_window_profile id s = record s { window_profile_id = some id }

-- `none` where the profile is not there, and nothing changes.
unfoldable pub switch_profile : String → Profiles → Option Profiles
switch_profile id s =
    if is_there s.profiles (some id)
    then some (record s {
      storage = s.profiles;
      version = s.version + 1;
      window_profile_id = some id;
      active_profile_id = some id;
    })
    else none

abbrev pub empty_profile : String → String → ℕ → Profile
empty_profile id name now = record {
  id = id;
  name = name;
  columns = [];
  layout = [];
  created_at = now;
  windows = none;
}

-- `createEmptyProfile` and `saveAsProfile`; the id is the file name that the settings give the name.
unfoldable pub create_empty_profile : (String → String) → String → ℕ → Profiles → Profiles
unfolding save_profiles
create_empty_profile filename name now s =
    save_profiles (s.profiles ++ empty_profile (filename name) name now ∷ []) s

unfoldable pub save_as_profile : (String → String) → String → ℕ → Profiles → Profiles
unfolding create_empty_profile save_active_profile_id init_window_profile
save_as_profile filename name now s =
    init_window_profile (filename name)
      (save_active_profile_id (some (filename name)) (create_empty_profile filename name now s))

abbrev first_id : List Profile → Option String
first_id [] = none
first_id (p ∷ ps) = some p.id

unfoldable pub delete_profile : String → Profiles → Profiles
delete_profile id s =
    let ps = keep_if (λ p. not (p.id == id)) s.profiles in
    record s {
      profiles = ps;
      storage = ps;
      version = s.version + 1;
      active_profile_id =
          if same_id s.active_profile_id id then first_id ps else s.active_profile_id;
    }

-- What the function returned by `deleteProfile` does: `removed` stood at `index`.
unfoldable pub undo_delete : ℕ → Profile → Profiles → Profiles
unfolding save_profiles
undo_delete index removed s =
    if is_there s.profiles (some removed.id)
    then s
    else save_profiles (insert_at s.profiles (min index (length s.profiles)) removed) s

abbrev renamed : Option String → String → String → Option String
renamed id from_id to_id = if same_id id from_id then some to_id else id

unfoldable pub rename_profile : (String → String) → String → String → Profiles → Profiles
unfolding save_profiles change_profile
rename_profile filename id name s =
    if is_there s.profiles (some id)
    then save_profiles
        (change_profile s.profiles (some id) (λ p. record p { name = name; id = filename name }))
        (record s {
          active_profile_id = renamed s.active_profile_id id (filename name);
          window_profile_id = renamed s.window_profile_id id (filename name);
        })
    else s

-- The entry with the id of `w` is replaced in its place, or `w` goes to the end.
unfoldable pub put_window : List WindowLayout → WindowLayout → List WindowLayout
put_window ws w = elim (find_index (λ v. v.id == w.id) ws) [
  | some i ↦ set ws i w
  | none ↦ ws ++ w ∷ []
]

abbrev persist_after : Bool → Profiles → Profiles
persist_after immediate s = if immediate then flush_persist s else schedule_persist s

unfoldable pub save_window_layout : WindowLayout → Bool → Profiles → Profiles
unfolding put_window change_profile flush_persist schedule_persist
save_window_layout w immediate s =
    if is_there s.profiles s.window_profile_id
    then persist_after immediate (record s {
      profiles =
          change_profile s.profiles s.window_profile_id
            (λ p. record p { windows = some (put_window (or_else p.windows []) w) });
      version = s.version + 1;
    })
    else s
