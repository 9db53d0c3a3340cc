-- ===== src/Permissions/Store/Load.antt =====
-- The start of permissions/store.ts: reading permissions.json5 or migrating from ai.json5, and the
-- hand-over of the external profile to the Rust gate, with its retries.
use notedeck.Prelude.{
  ℕ, zero, suc, ◌+◌, Bool, true, false, not, ◌||◌, Option, none, some, is_some, if◌then◌else◌,
}
use notedeck.Permissions.Principal.{external_id}
use notedeck.Permissions.Schema.{PermissionMap}
use notedeck.Permissions.Store.{
  PermissionsFile, ParsedFile, LegacyProfiles, default_permissions_file, safe_fallback_file,
  normalize_permissions_file, migrate_legacy_permissions, resolve_for_profiled,
}

-- What a read of permissions.json5 gives: nothing, a text that does not parse, or an object.
pub data Content : Type 0 where
  absent broken : Content
  parsed : ParsedFile → Content

-- The same for ai.json5; `ai_broken` is also a read that fails.
pub data AiContent : Type 0 where
  ai_absent ai_broken : AiContent
  ai_parsed : LegacyProfiles → AiContent

pub record Loaded : Type 0 where
  pub file : PermissionsFile
  -- the user is told of the fallback
  pub warned : Bool
  -- the content written to permissions.json5
  pub written : Option PermissionsFile
  -- the old profiles as ai.json5 keeps them, if it is rewritten
  pub ai_written : Option LegacyProfiles

-- ai.json5 with its permissions removed, if it has any to remove.
unfoldable pub strip_ai : LegacyProfiles → Option LegacyProfiles
strip_ai old =
    if is_some old.chat || is_some old.http_api
    then some (record { chat = none; heartbeat = none; http_api = none })
    else none

unfoldable pub migrate_from : AiContent → Loaded
unfolding strip_ai default_permissions_file migrate_legacy_permissions
migrate_from (ai_parsed old) =
    let file = migrate_legacy_permissions old in
    record { file = file; warned = false; written = some file; ai_written = strip_ai old }
migrate_from _ =
    let file = default_permissions_file in
    record { file = file; warned = false; written = some file; ai_written = none }

unfoldable pub init_file_storage : Content → AiContent → Loaded
unfolding normalize_permissions_file safe_fallback_file migrate_from
init_file_storage (parsed p) ai = record {
  file = normalize_permissions_file p;
  warned = false;
  written = none;
  ai_written = none;
}
init_file_storage broken ai = record {
  file = safe_fallback_file;
  warned = true;
  written = none;
  ai_written = none;
}
init_file_storage absent ai = migrate_from ai

abbrev pub sync_max_attempts : ℕ
sync_max_attempts = 3

-- How `syncExternalToRust` ends: with nothing sent, where there is no gate, with the granted map
-- accepted at an attempt, or with the gate locked down (`true` if that call succeeds).
pub data SyncOutcome : Type 0 where
  no_gate : SyncOutcome
  synced : ℕ → PermissionMap → SyncOutcome
  locked_down : Bool → SyncOutcome

-- The loop from `attempt` on; `sends n` tells if the n-th call of `permissionsSync` succeeds.
unfoldable pub sync_from : ℕ → ℕ → PermissionMap → (ℕ → Bool) → Bool → SyncOutcome
sync_from zero attempt granted sends lockdown = locked_down lockdown
sync_from (suc rounds) attempt granted sends lockdown = elim (sends attempt) [
  | true ↦ synced attempt granted
  | false ↦ sync_from rounds (attempt + 1) granted sends lockdown
]

unfoldable pub sync_external_to_rust : Bool → PermissionsFile → (ℕ → Bool) → Bool → SyncOutcome
unfolding sync_from resolve_for_profiled
sync_external_to_rust is_tauri file sends lockdown =
    if not is_tauri
    then no_gate
    else sync_from sync_max_attempts 1 (resolve_for_profiled file external_id) sends lockdown
