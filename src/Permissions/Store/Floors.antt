-- ===== src/Permissions/Store/Floors.antt =====
-- The effective permissions of each principal: the stored profile, the permanent refusals of third
-- parties, and the read floor of external applications.
use notedeck.Prelude.{Bool, true, false, not, ◌&&◌, ◌≡◌, refl, arith, if◌then◌else◌}
use notedeck.Prelude.Dict
use notedeck.Permissions.Principal.{
  ProfiledPrincipalId, ai_chat_id, ai_heartbeat_id, plugin_id, external_id,
}
use notedeck.Permissions.Schema.{
  PermissionKey, PermissionMap, assign_keys, readonly, allowed, mem_key, preset_entry,
  resolve_permissions, third_party_deny_keys, external_read_floor, every-mem_key,
}
use notedeck.Permissions.Schema.Laws.{assign_keys_lem}
use notedeck.Permissions.Store.{
  PermissionsFile, clamp_for_principal, stored_profile, resolve_for_profiled, safe_fallback_file,
}
use notedeck.Permissions.Store.Load.{AiContent, init_file_storage, broken}

abbrev pub is_third_party : ProfiledPrincipalId → Bool
is_third_party plugin_id = true
is_third_party external_id = true
is_third_party _ = false

abbrev pub has_read_floor : ProfiledPrincipalId → Bool
has_read_floor external_id = true
has_read_floor _ = false

-- The two lists have no key in common.
floor-not-denied :
    (k : PermissionKey)
    → mem_key third_party_deny_keys k ≡ true
    → mem_key external_read_floor k ≡ false
unfolding mem_key
floor-not-denied k h =
    ground (
      arith,
      every-mem_key (λ j. not (mem_key external_read_floor j)) third_party_deny_keys k refl h,
    )

readonly-not-denied :
    (k : PermissionKey) → mem_key third_party_deny_keys k ≡ true → preset_entry readonly k ≡ false
unfolding mem_key preset_entry
readonly-not-denied k h =
    ground
      (arith, every-mem_key (λ j. not (preset_entry readonly j)) third_party_deny_keys k refl h)

readonly-floor :
    (k : PermissionKey) → mem_key external_read_floor k ≡ true → preset_entry readonly k ≡ true
unfolding mem_key preset_entry
readonly-floor k h = every-mem_key (preset_entry readonly) external_read_floor k refl h

allowed-clamp_for_principal :
    (m : PermissionMap) (id : ProfiledPrincipalId) (k : PermissionKey)
    → allowed (clamp_for_principal m id) k ≡ (
        if is_third_party id && mem_key third_party_deny_keys k
        then false
        else if has_read_floor id && mem_key external_read_floor k
        then true
        else allowed m k)
unfolding clamp_for_principal
allowed-clamp_for_principal m ai_chat_id k = refl
allowed-clamp_for_principal m ai_heartbeat_id k = refl
allowed-clamp_for_principal m plugin_id k =
    ground (arith, assign_keys_lem third_party_deny_keys false m k)
allowed-clamp_for_principal m external_id k = ground (
  arith,
  floor-not-denied k,
  assign_keys_lem third_party_deny_keys false m k,
  assign_keys_lem external_read_floor true (assign_keys third_party_deny_keys false m) k,
)

-- What a principal may do: a third party never the denied keys, whatever is stored; an external
-- application always the read floor; and otherwise exactly what its stored profile resolves to.
pub allowed-resolve_for_profiled :
    (file : PermissionsFile) (id : ProfiledPrincipalId) (k : PermissionKey)
    → allowed (resolve_for_profiled file id) k ≡ (
        if is_third_party id && mem_key third_party_deny_keys k
        then false
        else if has_read_floor id && mem_key external_read_floor k
        then true
        else allowed (resolve_permissions (stored_profile file id)) k)
unfolding resolve_for_profiled
allowed-resolve_for_profiled file id k =
    allowed-clamp_for_principal (resolve_permissions (stored_profile file id)) id k

fallback-readonly :
    (id : ProfiledPrincipalId) (k : PermissionKey)
    → allowed (resolve_permissions (stored_profile safe_fallback_file id)) k
      ≡ preset_entry readonly k
unfolding stored_profile safe_fallback_file Dict.get Dict.put resolve_permissions
fallback-readonly ai_chat_id k = refl
fallback-readonly ai_heartbeat_id k = refl
fallback-readonly plugin_id k = refl
fallback-readonly external_id k = refl

-- With a broken permissions.json5 every principal has exactly the rights of `readonly`.
pub broken_file-readonly :
    (ai : AiContent) (id : ProfiledPrincipalId) (k : PermissionKey)
    → allowed (resolve_for_profiled (init_file_storage broken ai).file id) k
      ≡ preset_entry readonly k
unfolding init_file_storage
broken_file-readonly ai id k = ground (
  arith,
  allowed-resolve_for_profiled safe_fallback_file id k,
  fallback-readonly id k,
  readonly-not-denied k,
  readonly-floor k,
)
