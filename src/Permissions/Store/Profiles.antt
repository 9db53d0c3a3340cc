-- ===== src/Permissions/Store/Profiles.antt =====
-- What reading and migrating permissions.json5 gives each principal.
use notedeck.Prelude.{
  Bool, true, false, ◌&&◌, Option, none, some, ◌≡◌, refl, arith, or_else, is_some, List, [],
}
use notedeck.Prelude.Dict
use notedeck.Permissions.Principal.{
  ProfiledPrincipalId, ai_chat_id, ai_heartbeat_id, plugin_id, external_id, id_name,
}
use notedeck.Permissions.Schema.{
  PermissionKey, PermissionMap, PermissionsConfig, PresetKey, preset, readonly, safe, allowed,
  resolve_permissions, normalize_profile, assign_keys, local_read_keys, preset_map,
  profiled_principal_ids, backfill_value, deck_read, backfilled,
}
use notedeck.Permissions.Schema.Laws.{
  assign_keys_lem, resolve_permissions-preset_from_map, is_some-normalize_profile,
  normalize_profile_idem,
}
use notedeck.Permissions.Store.{
  default_permissions_file, ParsedFile, LegacyProfiles, assign_profiles, saved_profile,
  stored_profile, readonly_profile, normalize_permissions_file, migrate_legacy_permissions,
  migrate_external, and_map,
}

-- The profile that held for a principal before the migration.
abbrev pub old_profile : LegacyProfiles → ProfiledPrincipalId → PermissionsConfig
old_profile old ai_chat_id = normalize_profile (or_else old.chat readonly_profile) ai_chat_id
old_profile old ai_heartbeat_id =
    normalize_profile (or_else old.heartbeat readonly_profile) ai_heartbeat_id
old_profile old plugin_id = normalize_profile (or_else old.chat readonly_profile) plugin_id
old_profile old external_id =
    normalize_profile (or_else (or_else old.http_api none) readonly_profile) external_id

-- The profiles as the loop finds them when it comes to an id.
profiles_at :
    (ProfiledPrincipalId → Dict.Dict PermissionsConfig → PermissionsConfig)
    → Dict.Dict PermissionsConfig
    → ProfiledPrincipalId
    → Dict.Dict PermissionsConfig
profiles_at f d ai_chat_id = d
profiles_at f d ai_heartbeat_id = Dict.put d "ai.chat" (f ai_chat_id d)
profiles_at f d plugin_id =
    let e = Dict.put d "ai.chat" (f ai_chat_id d) in Dict.put e "ai.heartbeat" (f ai_heartbeat_id e)
profiles_at f d external_id =
    let e = Dict.put d "ai.chat" (f ai_chat_id d) in
    let e' = Dict.put e "ai.heartbeat" (f ai_heartbeat_id e) in
    Dict.put e' "plugin" (f plugin_id e')

-- The loop over the ids leaves each id with its own profile.
assign_profiles_lem :
    (f : ProfiledPrincipalId → Dict.Dict PermissionsConfig → PermissionsConfig)
    (d : Dict.Dict PermissionsConfig) (id : ProfiledPrincipalId)
    → Dict.get (assign_profiles f profiled_principal_ids d) (id_name id)
      ≡ some (f id (profiles_at f d id))
unfolding assign_profiles profiles_at
assign_profiles_lem f d ai_chat_id = simp Dict.get-put
assign_profiles_lem f d ai_heartbeat_id = simp Dict.get-put
assign_profiles_lem f d plugin_id = simp Dict.get-put
assign_profiles_lem f d external_id = simp Dict.get-put

read_profile : ParsedFile → ProfiledPrincipalId → PermissionsConfig
read_profile p id =
    let d = profiles_at saved_profile (or_else p.parsed_principals []) id in
    or_else (Dict.get d (id_name id))
      (or_else (Dict.get default_permissions_file.principals (id_name id)) readonly_profile)

stored_profile-read :
    (p : ParsedFile) (id : ProfiledPrincipalId)
    → stored_profile (normalize_permissions_file p) id ≡ normalize_profile (read_profile p id) id
unfolding normalize_permissions_file stored_profile read_profile
stored_profile-read p id =
    rw (assign_profiles_lem saved_profile (or_else p.parsed_principals []) id)

-- Reading a file gives each of the four principals a normalised profile with a value at every key.
pub stored_profile-normalize_permissions_file :
    (p : ParsedFile) (id : ProfiledPrincipalId)
    → (normalize_profile (stored_profile (normalize_permissions_file p) id) id
        ≡ stored_profile (normalize_permissions_file p) id)
      × ((k : PermissionKey)
          → is_some (resolve_permissions (stored_profile (normalize_permissions_file p) id) k)
            ≡ true)
stored_profile-normalize_permissions_file p id = (
  rw stored_profile-read (normalize_profile_idem (read_profile p id) id),
  λ k. rw stored_profile-read (is_some-normalize_profile (read_profile p id) id k),
)

and_of_le : (a b : Bool) → (a ≡ true → b ≡ true) → (a && b) ≡ a
and_of_le true b h = h refl
and_of_le false b h = refl

-- The migrated heartbeat may do exactly what both the old chat and the old heartbeat profile allow.
pub migrated_heartbeat-and :
    (old : LegacyProfiles) (k : PermissionKey)
    → allowed
        (resolve_permissions (stored_profile (migrate_legacy_permissions old) ai_heartbeat_id))
        k
      ≡ (allowed (resolve_permissions (old_profile old ai_chat_id)) k
          && allowed (resolve_permissions (old_profile old ai_heartbeat_id)) k)
unfolding migrate_legacy_permissions stored_profile Dict.get and_map
migrated_heartbeat-and old k = rw resolve_permissions-preset_from_map

backfill_value-plugin :
    (k : PermissionKey) → backfill_value k ai_chat_id ≡ backfill_value k plugin_id
unfolding backfill_value
backfill_value-plugin deck_read = refl
backfill_value-plugin _ = refl

normalize_profile-plugin :
    (cfg : PermissionsConfig) (k : PermissionKey)
    → allowed (resolve_permissions (normalize_profile cfg ai_chat_id)) k
      ≡ allowed (resolve_permissions (normalize_profile cfg plugin_id)) k
unfolding normalize_profile resolve_permissions backfilled
normalize_profile-plugin cfg k = ground (arith, backfill_value-plugin k)

assign_keys-false-le :
    (ks : List PermissionKey) (m : PermissionMap) (k : PermissionKey)
    → allowed (assign_keys ks false m) k ≡ true
    → allowed m k ≡ true
assign_keys-false-le ks m k h = ground (arith, assign_keys_lem ks false m k)

migrate_external_at-le :
    (key : Option PresetKey) (m : PermissionMap) (k : PermissionKey)
    → let cfg : PermissionsConfig = record { preset_key = key; custom_map = m } in
      allowed (resolve_permissions (migrate_external (some cfg))) k ≡ true
      → allowed (resolve_permissions (normalize_profile cfg external_id)) k ≡ true
unfolding migrate_external
migrate_external_at-le (some (preset readonly)) m k h =
    assign_keys-false-le local_read_keys (preset_map readonly) k h
migrate_external_at-le (some (preset safe)) m k h =
    assign_keys-false-le local_read_keys (preset_map safe) k h
migrate_external_at-le _ m k h = h

migrate_external-le :
    (cfg : Option PermissionsConfig) (k : PermissionKey)
    → allowed (resolve_permissions (migrate_external cfg)) k ≡ true
    → allowed (resolve_permissions (normalize_profile (or_else cfg readonly_profile) external_id)) k
      ≡ true
unfolding migrate_external
migrate_external-le none k h = assign_keys-false-le local_read_keys (preset_map readonly) k h
migrate_external-le (some cfg) k h = migrate_external_at-le cfg.preset_key cfg.custom_map k h

-- What a principal could do before the migration: the heartbeat was narrowed by its own profile and
-- then judged under the chat profile; plugins ran under the chat profile.
abbrev pub old_allowed : LegacyProfiles → ProfiledPrincipalId → PermissionKey → Bool
old_allowed old ai_heartbeat_id k =
    allowed (resolve_permissions (old_profile old ai_chat_id)) k
    && allowed (resolve_permissions (old_profile old ai_heartbeat_id)) k
old_allowed old id k = allowed (resolve_permissions (old_profile old id)) k

-- What may become of a right: for external applications it may be taken away, else it stays.
abbrev pub Keeps : ProfiledPrincipalId → Bool → Bool → Type 0
Keeps external_id new old = (new && old) ≡ new
Keeps _ new old = new ≡ old

-- The migration from ai.json5 widens nothing: at every key, external applications can do at most what
-- they could do before, and the chat, the heartbeat and the plugins exactly that. Before, the heartbeat
-- could do what both the chat profile and its own profile allow, and the plugins what the chat profile
-- allows.
pub migrate_legacy_permissions-le :
    (old : LegacyProfiles) (id : ProfiledPrincipalId) (k : PermissionKey)
    → Keeps id
        (allowed (resolve_permissions (stored_profile (migrate_legacy_permissions old) id)) k)
        (old_allowed old id k)
unfolding migrate_legacy_permissions stored_profile Dict.get
migrate_legacy_permissions-le old ai_chat_id k = refl
migrate_legacy_permissions-le old ai_heartbeat_id k = migrated_heartbeat-and old k
migrate_legacy_permissions-le old plugin_id k =
    normalize_profile-plugin (or_else old.chat readonly_profile) k
migrate_legacy_permissions-le old external_id k =
    and_of_le _ _ (migrate_external-le (or_else old.http_api none) k)
