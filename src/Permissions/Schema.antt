-- ===== src/Permissions/Schema.antt =====
-- permissions/schema.ts: the vocabulary of permissions, the presets and the profiles.
-- A `Record<PermissionKey, boolean>` is a function into `Option Bool`: `none` is a key that the
-- object lacks, or one whose value is not a Boolean.
mod Keys
pub mod Laws
unfoldable pub use Keys.*
use notedeck.Prelude.{
  ℕ, Bool, true, false, not, Option, none, some, List, [], ◌∷◌, every, or_else, if◌then◌else◌,
}
use notedeck.Permissions.Principal.{
  ProfiledPrincipalId, ai_chat_id, ai_heartbeat_id, plugin_id, external_id,
}

abbrev pub PermissionMap : Type 0
PermissionMap = PermissionKey → Option Bool

-- What a test `map[key]` takes for true.
abbrev pub allowed : PermissionMap → PermissionKey → Bool
allowed m k = or_else (m k) false

-- `{ ...map, [key]: b }`, and the assignment `map[key] = b`.
unfoldable pub assign_key : PermissionMap → PermissionKey → Bool → PermissionMap
unfolding key_eq
assign_key m k b j = if key_eq k j then some b else m j

-- `for (const key of keys) map[key] = b`
unfoldable pub assign_keys : List PermissionKey → Bool → PermissionMap → PermissionMap
unfolding assign_key
assign_keys [] b m = m
assign_keys (k ∷ ks) b m = assign_keys ks b (assign_key m k b)

pub data PresetKey : Type 0 where
  preset : Preset → PresetKey
  custom : PresetKey

-- `preset` is `none` where a stored file has a value that is none of `PRESET_KEYS`.
pub record PermissionsConfig : Type 0 where
  pub preset_key : Option PresetKey
  pub custom_map : PermissionMap

unfoldable pub preset_map : Preset → PermissionMap
unfolding preset_entry
preset_map p k = some (preset_entry p k)

-- A preset outside the table spreads `undefined`, which gives no key.
unfoldable pub resolve_permissions : PermissionsConfig → PermissionMap
unfolding preset_map
resolve_permissions cfg = elim cfg.preset_key [
  | none ↦ λ _. none
  | some (preset p) ↦ preset_map p
  | some custom ↦ cfg.custom_map
]

unfoldable pub set_permission_preset : PermissionsConfig → PresetKey → PermissionsConfig
unfolding resolve_permissions
set_permission_preset cfg custom = record {
  preset_key = some custom;
  custom_map = resolve_permissions cfg;
}
set_permission_preset cfg (preset p) = record {
  preset_key = some (preset p);
  custom_map = preset_map p;
}

-- `EXTERNAL_DEFAULT_PROFILE`: readonly without the local private data.
unfoldable pub external_default_profile : PermissionsConfig
unfolding assign_keys preset_map
external_default_profile = record {
  preset_key = some custom;
  custom_map = assign_keys local_read_keys false (preset_map readonly);
}

-- `PLUGIN_DEFAULT_PROFILE`: safe and `network.external`.
unfoldable pub plugin_default_profile : PermissionsConfig
unfolding assign_key preset_map
plugin_default_profile = record {
  preset_key = some custom;
  custom_map = assign_key (preset_map safe) network_external true;
}

abbrev pub permissions_schema_version : ℕ
permissions_schema_version = 1

abbrev pub profiled_principal_ids : List ProfiledPrincipalId
profiled_principal_ids = ai_chat_id ∷ ai_heartbeat_id ∷ plugin_id ∷ external_id ∷ []

abbrev is_external : ProfiledPrincipalId → Bool
is_external external_id = true
is_external _ = false

unfoldable pub backfill_value : PermissionKey → ProfiledPrincipalId → Bool
backfill_value deck_read id = not (is_external id)
backfill_value _ id = false

-- The loop over `PERMISSION_KEYS`, at each key.
unfoldable pub backfilled : PermissionMap → ProfiledPrincipalId → PermissionMap
unfolding backfill_value
backfilled saved id key = elim (saved key) [ some b ↦ some b | none ↦ some (backfill_value key id) ]

unfoldable pub normalize_profile : PermissionsConfig → ProfiledPrincipalId → PermissionsConfig
unfolding preset_map backfilled
normalize_profile cfg id = elim (or_else cfg.preset_key (preset readonly)) [
  | preset p ↦ record { preset_key = some (preset p); custom_map = preset_map p }
  | custom ↦ record { preset_key = some custom; custom_map = backfilled cfg.custom_map id }
]

abbrev same_bool : Option Bool → Bool → Bool
same_bool (some true) true = true
same_bool (some false) false = true
same_bool _ _ = false

-- `PERMISSION_KEYS.every((k) => def[k] === map[k])`
unfoldable pub is_preset : PermissionMap → Preset → Bool
unfolding preset_entry
is_preset m p = every (λ k. same_bool (m k) (preset_entry p k)) permission_keys

unfoldable pub preset_config : Preset → PermissionsConfig
unfolding preset_map
preset_config p = record { preset_key = some (preset p); custom_map = preset_map p }

unfoldable pub preset_from_map : PermissionMap → PermissionsConfig
unfolding is_preset preset_config
preset_from_map m =
    if is_preset m readonly
    then preset_config readonly
    else if is_preset m safe
    then preset_config safe
    else if is_preset m full
    then preset_config full
    else record { preset_key = some custom; custom_map = m }
