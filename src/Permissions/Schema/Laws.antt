-- ===== src/Permissions/Schema/Laws.antt =====
-- What the operations of permissions/schema.ts give at each key.
use notedeck.Prelude.{
  Bool, true, Option, none, some, List, [], ◌∷◌, is_some, ◌≡◌, refl, ap, fun_ext, inl, inr, arith,
  every, if◌then◌else◌, Bool-cases,
}
use notedeck.Permissions.Principal.{ProfiledPrincipalId}
use notedeck.Permissions.Schema.{
  PermissionKey, Preset, readonly, safe, full, PermissionMap, PermissionsConfig, PresetKey, preset,
  custom, mem_key, assign_key, assign_keys, permission_keys, preset_entry, resolve_permissions,
  backfilled, normalize_profile, same_bool, is_preset, preset_from_map, every-mem_key,
  mem_key-permission_keys,
}

-- An assignment along a list of keys changes those keys and no other.
pub assign_keys_lem :
    (ks : List PermissionKey) (b : Bool) (m : PermissionMap) (k : PermissionKey)
    → assign_keys ks b m k ≡ (if mem_key ks k then some b else m k)
unfolding assign_keys mem_key
assign_keys_lem [] b m k = refl
assign_keys_lem (x ∷ ks) b m k = ground (arith, assign_keys_lem ks b (assign_key m x b) k)

-- A test that holds at every key is passed by the whole list of keys, and the other way round.
pub every-keys :
    (p : PermissionKey → Bool) → every p permission_keys ≡ true → (k : PermissionKey) → p k ≡ true
every-keys p h k = every-mem_key p permission_keys k h (mem_key-permission_keys k)

is_preset_sound :
    (m : PermissionMap) (p : Preset)
    → is_preset m p ≡ true
    → (k : PermissionKey) → m k ≡ some (preset_entry p k)
unfolding is_preset
is_preset_sound m p h k = ground (arith, every-keys (λ j. same_bool (m j) (preset_entry p j)) h k)

-- The profile that stands for a granted map resolves to that map, at every key.
pub resolve_permissions-preset_from_map :
    (m : PermissionMap) (k : PermissionKey) → resolve_permissions (preset_from_map m) k ≡ m k
unfolding preset_from_map resolve_permissions
resolve_permissions-preset_from_map m k = elim (Bool-cases (is_preset m readonly)) [
  | inl e ↦ rw e (ground (arith, is_preset_sound m readonly e k))
  | inr e ↦ rw e (elim (Bool-cases (is_preset m safe)) [
    | inl f ↦ rw f (ground (arith, is_preset_sound m safe f k))
    | inr f ↦ rw f (elim (Bool-cases (is_preset m full)) [
      | inl g ↦ rw g (ground (arith, is_preset_sound m full g k))
      | inr g ↦ rw g
    ])
  ])
]

backfilled_idem :
    (m : PermissionMap) (id : ProfiledPrincipalId) (k : PermissionKey)
    → backfilled (backfilled m id) id k ≡ backfilled m id k
unfolding backfilled
backfilled_idem m id k = ground arith

normalize_profile_twice :
    (key : Option PresetKey) (m : PermissionMap) (id : ProfiledPrincipalId)
    → let cfg : PermissionsConfig = record { preset_key = key; custom_map = m } in
      normalize_profile (normalize_profile cfg id) id ≡ normalize_profile cfg id
unfolding normalize_profile
normalize_profile_twice none m id = refl
normalize_profile_twice (some (preset p)) m id = refl
normalize_profile_twice (some custom) m id =
    ap (λ f. record { preset_key = some custom; custom_map = f }) (fun_ext (backfilled_idem m id))

-- Normalising twice is normalising once.
pub normalize_profile_idem :
    (cfg : PermissionsConfig) (id : ProfiledPrincipalId)
    → normalize_profile (normalize_profile cfg id) id ≡ normalize_profile cfg id
normalize_profile_idem cfg id = normalize_profile_twice cfg.preset_key cfg.custom_map id

-- After normalising, every key has a value.
pub is_some-normalize_profile :
    (cfg : PermissionsConfig) (id : ProfiledPrincipalId) (k : PermissionKey)
    → is_some (resolve_permissions (normalize_profile cfg id) k) ≡ true
unfolding normalize_profile resolve_permissions
is_some-normalize_profile cfg id k = ground arith
