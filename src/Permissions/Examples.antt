-- ===== src/Permissions/Examples.antt =====
-- The theorems on permissions at concrete files, profiles and callers.
use notedeck.Prelude.{
  ℕ, String, Bool, true, false, ◌&&◌, ◌==◌, Option, none, some, [], ◌∷◌, ◌≡◌, refl, nat_eq,
  if◌then◌else◌,
}
use notedeck.Prelude.Dict
use notedeck.Permissions.Principal.{plugin, plugin_id, external_id, ai_heartbeat_id}
use notedeck.Permissions.Schema.{
  vault_use, notes_write, preset, full, PermissionsConfig, allowed, mem_key, preset_entry,
  resolve_permissions,
}
use notedeck.Permissions.Store.{
  PermissionsFile, ParsedFile, LegacyProfiles, Store, default_permissions_file,
  resolve_for_profiled, stored_profile, normalize_permissions_file, migrate_legacy_permissions,
  is_confirm_skipped, empty_map,
}
use notedeck.Permissions.Store.Load.{
  init_file_storage, broken, ai_absent, no_gate, sync_external_to_rust,
}
use notedeck.Permissions.Store.Floors.{allowed-resolve_for_profiled, broken_file-readonly}
use notedeck.Permissions.Store.Profiles.{Keeps, migrate_legacy_permissions-le, old_allowed}
use notedeck.Permissions.Store.Consents.{is_confirm_skipped-reload, stored_skips}
use notedeck.Permissions.Store.Sync.{EndsAtFirst, sync_external_to_rust-EndsAtFirst}
use notedeck.Permissions.Denials.{EndpointRule, requires, assert_misskey_api_allowed}
use notedeck.Permissions.Denials.Gate.{Judged, assert_misskey_api_allowed-plugin}

allowed-resolve_for_profiled_example :
    allowed (resolve_for_profiled default_permissions_file plugin_id) vault_use ≡ false
unfolding mem_key resolve_permissions stored_profile Dict.get default_permissions_file
allowed-resolve_for_profiled_example =
    allowed-resolve_for_profiled default_permissions_file plugin_id vault_use

broken_file-readonly_example :
    allowed (resolve_for_profiled (init_file_storage broken ai_absent).file external_id) notes_write
    ≡ false
unfolding preset_entry
broken_file-readonly_example = broken_file-readonly ai_absent external_id notes_write

abbrev full_profile : PermissionsConfig
full_profile = record { preset_key = some (preset full); custom_map = empty_map }

abbrev some_file : ParsedFile
some_file = record { parsed_principals = some (("plugin", full_profile) ∷ []); parsed_skips = none }

abbrev old_profiles : LegacyProfiles
old_profiles = record { chat = some full_profile; heartbeat = none; http_api = some none }

migrate_legacy_permissions-le_example :
    Keeps ai_heartbeat_id
      (allowed
        (resolve_permissions
          (stored_profile (migrate_legacy_permissions old_profiles) ai_heartbeat_id))
        notes_write)
      (old_allowed old_profiles ai_heartbeat_id notes_write)
migrate_legacy_permissions-le_example =
    migrate_legacy_permissions-le old_profiles ai_heartbeat_id notes_write

abbrev one_consent : PermissionsFile
one_consent = record {
  schema_version = 1;
  principals = [];
  confirm_skips = ("ai.chat", "notes.create" ∷ []) ∷ ("plugin:p1", "notes.create" ∷ []) ∷ [];
}

abbrev one_store : Store
one_store = record { file = one_consent; disk = none }

is_confirm_skipped-reload_example :
    is_confirm_skipped
      (normalize_permissions_file (record {
        parsed_principals = some [];
        parsed_skips = some (stored_skips one_consent.confirm_skips);
      }))
      "plugin:p1"
      "notes.create"
    ≡ (true && is_confirm_skipped one_consent "plugin:p1" "notes.create")
unfolding Dict.get
is_confirm_skipped-reload_example =
    is_confirm_skipped-reload one_consent "plugin:p1" "notes.create" (refl, (refl, tt))

abbrev second_try : ℕ → Bool
second_try n = nat_eq n 2

sync_external_to_rust-EndsAtFirst_example :
    (sync_external_to_rust false default_permissions_file second_try true ≡ no_gate)
    × EndsAtFirst second_try 1 4
        (resolve_for_profiled default_permissions_file external_id)
        true
        (sync_external_to_rust true default_permissions_file second_try true)
sync_external_to_rust-EndsAtFirst_example =
    sync_external_to_rust-EndsAtFirst default_permissions_file second_try true

abbrev rules : String → Option EndpointRule
rules endpoint = if endpoint == "notes/create" then some (requires notes_write) else none

assert_misskey_api_allowed-plugin_example :
    Judged default_permissions_file [] "p1" "p1" none (
      assert_misskey_api_allowed rules default_permissions_file [] (plugin "p1" none) "admin/reset")
assert_misskey_api_allowed-plugin_example =
    assert_misskey_api_allowed-plugin rules default_permissions_file [] "p1" none "admin/reset" "p1"
