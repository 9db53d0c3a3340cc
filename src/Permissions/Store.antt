-- ===== src/Permissions/Store.antt =====
-- permissions/store.ts: the profiles of the principals, their normalisation, and the remembered
-- consents. The proofs are in the modules below.
pub mod Load
pub mod Floors
pub mod Profiles
pub mod Consents
pub mod Sync
use Prim.Native.String.{◌++◌ as str_append}
use text.Mathlib.Text.{starts_with}
use notedeck.Prelude.{
  ℕ, String, Bool, true, false, not, ◌||◌, ◌&&◌, Option, none, some, List, [], ◌∷◌, ◌++◌, ◌==◌,
  or_else, includes, without, if◌then◌else◌,
}
use notedeck.Prelude.Dict
use notedeck.Prelude.Dict.{Dict}
use notedeck.Permissions.Principal.{
  Principal, user, ai_chat, ai_heartbeat, plugin, external, ProfiledPrincipalId, ai_chat_id,
  ai_heartbeat_id, plugin_id, external_id, id_name, principal_profile_id,
}
use notedeck.Permissions.Schema.{
  PermissionKey, PermissionMap, PermissionsConfig, allowed, assign_keys, preset, custom, readonly,
  safe, resolve_permissions, external_default_profile, plugin_default_profile,
  permissions_schema_version, profiled_principal_ids, normalize_profile, preset_from_map,
  third_party_deny_keys, external_read_floor, local_read_keys,
}

pub record PermissionsFile : Type 0 where
  pub schema_version : ℕ
  pub principals : Dict PermissionsConfig
  pub confirm_skips : Dict (List String)

abbrev pub empty_map : PermissionMap
empty_map _ = none

abbrev pub readonly_profile : PermissionsConfig
readonly_profile = record { preset_key = some (preset readonly); custom_map = empty_map }

-- `for (const id of PROFILED_PRINCIPAL_IDS) principals[id] = profile(id)`
unfoldable pub assign_profiles :
    (ProfiledPrincipalId → Dict PermissionsConfig → PermissionsConfig)
    → List ProfiledPrincipalId
    → Dict PermissionsConfig
    → Dict PermissionsConfig
assign_profiles f [] d = d
assign_profiles f (id ∷ ids) d = assign_profiles f ids (Dict.put d (id_name id) (f id d))

unfoldable pub safe_fallback_file : PermissionsFile
unfolding assign_profiles normalize_profile
safe_fallback_file = record {
  schema_version = permissions_schema_version;
  principals =
      assign_profiles (λ id _. normalize_profile readonly_profile id) profiled_principal_ids [];
  confirm_skips = [];
}

unfoldable pub default_permissions_file : PermissionsFile
unfolding plugin_default_profile external_default_profile
default_permissions_file = record {
  schema_version = permissions_schema_version;
  principals =
      ("ai.chat", record { preset_key = some (preset safe); custom_map = empty_map })
      ∷ ("ai.heartbeat", record { preset_key = some (preset readonly); custom_map = empty_map })
      ∷ ("plugin", plugin_default_profile)
      ∷ ("external", external_default_profile)
      ∷ [];
  confirm_skips = [];
}

-- `ids.filter((v) => typeof v === 'string')`
unfoldable pub texts : List (Option String) → List String
texts [] = []
texts (none ∷ vs) = texts vs
texts (some s ∷ vs) = s ∷ texts vs

-- `[...new Set(list)]`, for the values behind those of `seen`
unfoldable pub dedupe : List String → List String → List String
dedupe seen [] = []
dedupe seen (x ∷ xs) = elim (includes seen x) [
  | true ↦ dedupe seen xs
  | false ↦ x ∷ dedupe (x ∷ seen) xs
]

abbrev pub is_skip_scope : String → Bool
is_skip_scope scope = scope == "ai.chat" || starts_with scope "plugin:"

-- A stored value that is not an array is `none`, and a member that is not a text is `none`.
abbrev pub RawSkips : Type 0
RawSkips = Option (List (Option String))

-- `if (clean.length > 0) out[scope] = clean`
unfoldable pub put_unless_empty : Dict (List String) → String → List String → Dict (List String)
put_unless_empty out scope [] = out
put_unless_empty out scope (c ∷ cs) = Dict.put out scope (c ∷ cs)

-- The body of the loop of `normalizeConfirmSkips`.
unfoldable pub keep_scope : Dict (List String) → String → RawSkips → Dict (List String)
keep_scope out scope none = out
keep_scope out scope (some vs) =
    if is_skip_scope scope then put_unless_empty out scope (dedupe [] (texts vs)) else out

unfoldable pub keep_scopes : Dict (List String) → Dict RawSkips → Dict (List String)
keep_scopes out [] = out
keep_scopes out ((scope, ids) ∷ raw) = keep_scopes (keep_scope out scope ids) raw

-- `none` is a value that is no object.
unfoldable pub normalize_confirm_skips : Option (Dict RawSkips) → Dict (List String)
unfolding keep_scopes keep_scope put_unless_empty texts dedupe
normalize_confirm_skips none = []
normalize_confirm_skips (some raw) = keep_scopes [] raw

pub record ParsedFile : Type 0 where
  pub parsed_principals : Option (Dict PermissionsConfig)
  pub parsed_skips : Option (Dict RawSkips)

-- `principals[id] ?? base.principals[id] ?? READONLY_PROFILE`, normalised
unfoldable pub saved_profile : ProfiledPrincipalId → Dict PermissionsConfig → PermissionsConfig
unfolding default_permissions_file normalize_profile
saved_profile id d =
    normalize_profile
      (or_else (Dict.get d (id_name id))
        (or_else (Dict.get default_permissions_file.principals (id_name id)) readonly_profile))
      id

unfoldable pub normalize_permissions_file : ParsedFile → PermissionsFile
unfolding assign_profiles saved_profile normalize_confirm_skips
normalize_permissions_file p = record {
  schema_version = permissions_schema_version;
  principals =
      assign_profiles saved_profile profiled_principal_ids (or_else p.parsed_principals []);
  confirm_skips = normalize_confirm_skips p.parsed_skips;
}

-- The three profiles of the old ai.json5.
pub record LegacyProfiles : Type 0 where
  pub chat : Option PermissionsConfig
  pub heartbeat : Option PermissionsConfig
  -- `some none` is an `httpApi` object without a profile
  pub http_api : Option (Option PermissionsConfig)

-- `andMap`: the loop over `PERMISSION_KEYS`, at each key.
unfoldable pub and_map : PermissionMap → PermissionMap → PermissionMap
and_map a b key = some (allowed a key && allowed b key)

abbrev shrunk : PermissionsConfig → PermissionsConfig
shrunk cfg = record {
  preset_key = some custom;
  custom_map =
      assign_keys local_read_keys false (resolve_permissions (normalize_profile cfg external_id));
}

unfoldable pub migrate_external : Option PermissionsConfig → PermissionsConfig
unfolding external_default_profile assign_keys resolve_permissions normalize_profile
migrate_external none = external_default_profile
migrate_external (some cfg) = elim cfg.preset_key [
  | some (preset readonly) ↦ shrunk cfg
  | some (preset safe) ↦ shrunk cfg
  | _ ↦ normalize_profile cfg external_id
]

unfoldable pub migrate_legacy_permissions : LegacyProfiles → PermissionsFile
unfolding migrate_external preset_from_map and_map normalize_profile resolve_permissions
migrate_legacy_permissions old =
    let chat = normalize_profile (or_else old.chat readonly_profile) ai_chat_id in
    let heartbeat = normalize_profile (or_else old.heartbeat readonly_profile) ai_heartbeat_id in
    record {
      schema_version = permissions_schema_version;
      principals =
          ("ai.chat", chat)
          ∷ (
            "ai.heartbeat",
            preset_from_map (and_map (resolve_permissions chat) (resolve_permissions heartbeat)),
          )
          ∷ ("plugin", chat)
          ∷ ("external", migrate_external (or_else old.http_api none))
          ∷ [];
      confirm_skips = [];
    }

unfoldable pub clamp_for_principal : PermissionMap → ProfiledPrincipalId → PermissionMap
unfolding assign_keys
clamp_for_principal m plugin_id = assign_keys third_party_deny_keys false m
clamp_for_principal m external_id =
    assign_keys external_read_floor true (assign_keys third_party_deny_keys false m)
clamp_for_principal m _ = m

-- `_file.value.principals[id] ?? normalizeProfile(READONLY_PROFILE, id)`
unfoldable pub stored_profile : PermissionsFile → ProfiledPrincipalId → PermissionsConfig
unfolding normalize_profile
stored_profile file id =
    or_else (Dict.get file.principals (id_name id)) (normalize_profile readonly_profile id)

unfoldable pub profile_for : PermissionsFile → Principal → Option PermissionsConfig
unfolding principal_profile_id stored_profile
profile_for file p = elim (principal_profile_id p) [
  | none ↦ none
  | some id ↦ some (stored_profile file id)
]

unfoldable pub resolve_for_profiled : PermissionsFile → ProfiledPrincipalId → PermissionMap
unfolding clamp_for_principal resolve_permissions stored_profile
resolve_for_profiled file id = clamp_for_principal (resolve_permissions (stored_profile file id)) id

-- `none` for the user, who may do everything.
unfoldable pub resolve_for : PermissionsFile → Principal → Option PermissionMap
unfolding principal_profile_id resolve_for_profiled
resolve_for file p = elim (principal_profile_id p) [
  | none ↦ none
  | some id ↦ some (resolve_for_profiled file id)
]

unfoldable pub confirm_skip_scope : Principal → Option String
confirm_skip_scope ai_chat = some "ai.chat"
confirm_skip_scope (plugin id _) = some (str_append "plugin:" id)
confirm_skip_scope user = none
confirm_skip_scope ai_heartbeat = none
confirm_skip_scope (external _) = none

-- The file in memory, and the content last handed to the disk.
pub record Store : Type 0 where
  pub file : PermissionsFile
  pub disk : Option PermissionsFile

unfoldable pub save : Store → Store
save s = record s { disk = some s.file }

unfoldable pub is_confirm_skipped : PermissionsFile → String → String → Bool
is_confirm_skipped file scope id = includes (or_else (Dict.get file.confirm_skips scope) []) id

abbrev with_skips : Store → Dict (List String) → Store
with_skips s skips = record s { file = record s.file { confirm_skips = skips } }

unfoldable pub add_confirm_skip : Store → String → String → Store
unfolding save
add_confirm_skip s scope id =
    let list = or_else (Dict.get s.file.confirm_skips scope) [] in
    if includes list id
    then s
    else save (with_skips s (Dict.put s.file.confirm_skips scope (list ++ id ∷ [])))

-- `if (next.length > 0) confirmSkips[scope] = next else delete confirmSkips[scope]`
unfoldable pub put_or_delete : Dict (List String) → String → List String → Dict (List String)
put_or_delete skips scope [] = Dict.delete skips scope
put_or_delete skips scope (c ∷ cs) = Dict.put skips scope (c ∷ cs)

unfoldable pub remove_confirm_skip : Store → String → String → Store
unfolding save put_or_delete
remove_confirm_skip s scope id =
    let next = without id (or_else (Dict.get s.file.confirm_skips scope) []) in
    save (with_skips s (put_or_delete s.file.confirm_skips scope next))
