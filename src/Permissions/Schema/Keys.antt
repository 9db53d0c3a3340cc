-- ===== src/Permissions/Schema/Keys.antt =====
-- The permission keys, their spelling, and the presets' tables.
use text.Mathlib.Text.{◌==◌}
use text.Mathlib.TextEquality.{eq_iff}
use notedeck.Prelude.{
  String, Bool, true, false, List, [], ◌∷◌, ◌++◌, Option, some, ◌≡◌, refl, subst, inl, inr, find,
  ◌||◌, arith, every, Bool-cases,
}

pub data PermissionKey : Type 0 where
  notes_read notes_write notes_react account_read account_write drive_read drive_write memos_read
        memos_write clips_read clips_write drafts_read drafts_write network_external clipboard
        notifications tasks_run ai_invoke ai_persona_write skills_read skills_write theme_write
        styles_write navbar_write keybinds_write performance_write widgets_read widgets_write
        plugins_read plugins_write ai_sessions_read logs_read vault_use deck_read :
      PermissionKey

-- The keys are texts in the source.
unfoldable pub key_name : PermissionKey → String
key_name notes_read = "notes.read"
key_name notes_write = "notes.write"
key_name notes_react = "notes.react"
key_name account_read = "account.read"
key_name account_write = "account.write"
key_name drive_read = "drive.read"
key_name drive_write = "drive.write"
key_name memos_read = "memos.read"
key_name memos_write = "memos.write"
key_name clips_read = "clips.read"
key_name clips_write = "clips.write"
key_name drafts_read = "drafts.read"
key_name drafts_write = "drafts.write"
key_name network_external = "network.external"
key_name clipboard = "clipboard"
key_name notifications = "notifications"
key_name tasks_run = "tasks.run"
key_name ai_invoke = "ai.invoke"
key_name ai_persona_write = "ai.persona.write"
key_name skills_read = "skills.read"
key_name skills_write = "skills.write"
key_name theme_write = "theme.write"
key_name styles_write = "styles.write"
key_name navbar_write = "navbar.write"
key_name keybinds_write = "keybinds.write"
key_name performance_write = "performance.write"
key_name widgets_read = "widgets.read"
key_name widgets_write = "widgets.write"
key_name plugins_read = "plugins.read"
key_name plugins_write = "plugins.write"
key_name ai_sessions_read = "ai.sessions.read"
key_name logs_read = "logs.read"
key_name vault_use = "vault.use"
key_name deck_read = "deck.read"

abbrev pub permission_keys : List PermissionKey
permission_keys =
    notes_read ∷ notes_write ∷ notes_react ∷ account_read ∷ account_write ∷ drive_read ∷ drive_write
    ∷ memos_read ∷ memos_write ∷ clips_read ∷ clips_write ∷ drafts_read ∷ drafts_write
    ∷ network_external ∷ clipboard ∷ notifications ∷ tasks_run ∷ ai_invoke ∷ ai_persona_write
    ∷ skills_read ∷ skills_write ∷ theme_write ∷ styles_write ∷ navbar_write ∷ keybinds_write
    ∷ performance_write ∷ widgets_read ∷ widgets_write ∷ plugins_read ∷ plugins_write
    ∷ ai_sessions_read ∷ logs_read ∷ vault_use ∷ deck_read ∷ []

pub data Preset : Type 0 where
  readonly safe full : Preset

-- The entry of the table `PERMISSION_PRESETS` for a preset.
unfoldable pub preset_entry : Preset → PermissionKey → Bool
preset_entry readonly notes_read = true
preset_entry readonly notes_write = false
preset_entry readonly notes_react = false
preset_entry readonly account_read = true
preset_entry readonly account_write = false
preset_entry readonly drive_read = true
preset_entry readonly drive_write = false
preset_entry readonly memos_read = true
preset_entry readonly memos_write = false
preset_entry readonly clips_read = true
preset_entry readonly clips_write = false
preset_entry readonly drafts_read = true
preset_entry readonly drafts_write = false
preset_entry readonly network_external = false
preset_entry readonly clipboard = false
preset_entry readonly notifications = false
preset_entry readonly tasks_run = false
preset_entry readonly ai_invoke = false
preset_entry readonly ai_persona_write = false
preset_entry readonly skills_read = true
preset_entry readonly skills_write = false
preset_entry readonly theme_write = false
preset_entry readonly styles_write = false
preset_entry readonly navbar_write = false
preset_entry readonly keybinds_write = false
preset_entry readonly performance_write = false
preset_entry readonly widgets_read = true
preset_entry readonly widgets_write = false
preset_entry readonly plugins_read = true
preset_entry readonly plugins_write = false
preset_entry readonly ai_sessions_read = true
preset_entry readonly logs_read = true
preset_entry readonly vault_use = false
preset_entry readonly deck_read = true
preset_entry safe notes_read = true
preset_entry safe notes_write = false
preset_entry safe notes_react = true
preset_entry safe account_read = true
preset_entry safe account_write = false
preset_entry safe drive_read = true
preset_entry safe drive_write = false
preset_entry safe memos_read = true
preset_entry safe memos_write = true
preset_entry safe clips_read = true
preset_entry safe clips_write = true
preset_entry safe drafts_read = true
preset_entry safe drafts_write = true
preset_entry safe network_external = false
preset_entry safe clipboard = true
preset_entry safe notifications = true
preset_entry safe tasks_run = true
preset_entry safe ai_invoke = true
preset_entry safe ai_persona_write = false
preset_entry safe skills_read = true
preset_entry safe skills_write = true
preset_entry safe theme_write = false
preset_entry safe styles_write = false
preset_entry safe navbar_write = false
preset_entry safe keybinds_write = false
preset_entry safe performance_write = false
preset_entry safe widgets_read = true
preset_entry safe widgets_write = true
preset_entry safe plugins_read = true
preset_entry safe plugins_write = true
preset_entry safe ai_sessions_read = true
preset_entry safe logs_read = true
preset_entry safe vault_use = false
preset_entry safe deck_read = true
preset_entry full notes_read = true
preset_entry full notes_write = true
preset_entry full notes_react = true
preset_entry full account_read = true
preset_entry full account_write = true
preset_entry full drive_read = true
preset_entry full drive_write = true
preset_entry full memos_read = true
preset_entry full memos_write = true
preset_entry full clips_read = true
preset_entry full clips_write = true
preset_entry full drafts_read = true
preset_entry full drafts_write = true
preset_entry full network_external = true
preset_entry full clipboard = true
preset_entry full notifications = true
preset_entry full tasks_run = true
preset_entry full ai_invoke = true
preset_entry full ai_persona_write = true
preset_entry full skills_read = true
preset_entry full skills_write = true
preset_entry full theme_write = true
preset_entry full styles_write = true
preset_entry full navbar_write = true
preset_entry full keybinds_write = true
preset_entry full performance_write = true
preset_entry full widgets_read = true
preset_entry full widgets_write = true
preset_entry full plugins_read = true
preset_entry full plugins_write = true
preset_entry full ai_sessions_read = true
preset_entry full logs_read = true
preset_entry full vault_use = true
preset_entry full deck_read = true

abbrev pub ai_instruction_keys : List PermissionKey
ai_instruction_keys = skills_write ∷ ai_persona_write ∷ []

abbrev pub external_read_floor : List PermissionKey
external_read_floor = notes_read ∷ account_read ∷ drive_read ∷ clips_read ∷ []

abbrev pub local_read_keys : List PermissionKey
local_read_keys =
    memos_read ∷ drafts_read ∷ skills_read ∷ widgets_read ∷ plugins_read ∷ ai_sessions_read
    ∷ logs_read ∷ deck_read ∷ []

abbrev pub third_party_deny_keys : List PermissionKey
third_party_deny_keys = ai_instruction_keys ++ tasks_run ∷ []

unfoldable pub key_eq : PermissionKey → PermissionKey → Bool
unfolding key_name
key_eq a b = key_name a == key_name b

unfoldable pub mem_key : List PermissionKey → PermissionKey → Bool
unfolding key_eq
mem_key [] k = false
mem_key (x ∷ xs) k = key_eq x k || mem_key xs k

key_of : String → Option PermissionKey
unfolding key_name
key_of s = find (λ k. key_name k == s) permission_keys

key_of-key_name : (k : PermissionKey) → key_of (key_name k) ≡ some k
unfolding key_of
key_of-key_name notes_read = refl
key_of-key_name notes_write = refl
key_of-key_name notes_react = refl
key_of-key_name account_read = refl
key_of-key_name account_write = refl
key_of-key_name drive_read = refl
key_of-key_name drive_write = refl
key_of-key_name memos_read = refl
key_of-key_name memos_write = refl
key_of-key_name clips_read = refl
key_of-key_name clips_write = refl
key_of-key_name drafts_read = refl
key_of-key_name drafts_write = refl
key_of-key_name network_external = refl
key_of-key_name clipboard = refl
key_of-key_name notifications = refl
key_of-key_name tasks_run = refl
key_of-key_name ai_invoke = refl
key_of-key_name ai_persona_write = refl
key_of-key_name skills_read = refl
key_of-key_name skills_write = refl
key_of-key_name theme_write = refl
key_of-key_name styles_write = refl
key_of-key_name navbar_write = refl
key_of-key_name keybinds_write = refl
key_of-key_name performance_write = refl
key_of-key_name widgets_read = refl
key_of-key_name widgets_write = refl
key_of-key_name plugins_read = refl
key_of-key_name plugins_write = refl
key_of-key_name ai_sessions_read = refl
key_of-key_name logs_read = refl
key_of-key_name vault_use = refl
key_of-key_name deck_read = refl

pub key_eq_sound : (a b : PermissionKey) → key_eq a b ≡ true → a ≡ b
unfolding key_eq
key_eq_sound a b h =
    cc ((eq_iff (key_name a) (key_name b)).0 h, key_of-key_name a, key_of-key_name b)

pub key_eq_refl : (a : PermissionKey) → key_eq a a ≡ true
unfolding key_eq
key_eq_refl a = (eq_iff _ _).1 refl

-- A test that holds along a list holds of the keys in it.
pub every-mem_key :
    (p : PermissionKey → Bool) (xs : List PermissionKey) (k : PermissionKey)
    → every p xs ≡ true
    → mem_key xs k ≡ true
    → p k ≡ true
unfolding mem_key
every-mem_key p [] k h m = cc
every-mem_key p (x ∷ xs) k h m = elim (Bool-cases (key_eq x k)) [
  | inl e ↦ subst (λ y. p y ≡ true) (key_eq_sound x k e) (ground arith)
  | inr e ↦ every-mem_key p xs k (ground arith) (ground arith)
]

-- The list of all keys is complete.
pub mem_key-permission_keys : (k : PermissionKey) → mem_key permission_keys k ≡ true
unfolding mem_key
mem_key-permission_keys notes_read = refl
mem_key-permission_keys notes_write = refl
mem_key-permission_keys notes_react = refl
mem_key-permission_keys account_read = refl
mem_key-permission_keys account_write = refl
mem_key-permission_keys drive_read = refl
mem_key-permission_keys drive_write = refl
mem_key-permission_keys memos_read = refl
mem_key-permission_keys memos_write = refl
mem_key-permission_keys clips_read = refl
mem_key-permission_keys clips_write = refl
mem_key-permission_keys drafts_read = refl
mem_key-permission_keys drafts_write = refl
mem_key-permission_keys network_external = refl
mem_key-permission_keys clipboard = refl
mem_key-permission_keys notifications = refl
mem_key-permission_keys tasks_run = refl
mem_key-permission_keys ai_invoke = refl
mem_key-permission_keys ai_persona_write = refl
mem_key-permission_keys skills_read = refl
mem_key-permission_keys skills_write = refl
mem_key-permission_keys theme_write = refl
mem_key-permission_keys styles_write = refl
mem_key-permission_keys navbar_write = refl
mem_key-permission_keys keybinds_write = refl
mem_key-permission_keys performance_write = refl
mem_key-permission_keys widgets_read = refl
mem_key-permission_keys widgets_write = refl
mem_key-permission_keys plugins_read = refl
mem_key-permission_keys plugins_write = refl
mem_key-permission_keys ai_sessions_read = refl
mem_key-permission_keys logs_read = refl
mem_key-permission_keys vault_use = refl
mem_key-permission_keys deck_read = refl
