-- ===== src/Permissions/Denials.antt =====
-- permissions/pluginDenials.ts and permissions/misskeyApiGate.ts: the record of refused plugins,
-- and the gate in front of the raw API.
pub mod Gate
use Prim.Native.String.{◌++◌ as str_append}
use notedeck.Prelude.{ℕ, ◌+◌, String, Option, none, some, List, [], ◌∷◌, if◌then◌else◌}
use notedeck.Prelude.Dict
use notedeck.Prelude.Dict.{Dict}
use notedeck.Permissions.Principal.{Principal, plugin, plugin_id}
use notedeck.Permissions.Schema.{PermissionKey, allowed}
use notedeck.Permissions.Store.{PermissionsFile, resolve_for_profiled}

pub record PluginDenial : Type 0 where
  pub last_target : String
  pub last_keys : List PermissionKey
  pub count : ℕ

-- The entry after one more refusal.
unfoldable pub denial_after : Option PluginDenial → String → List PermissionKey → PluginDenial
denial_after (some old) target keys = record {
  last_target = target;
  last_keys = keys;
  count = old.count + 1;
}
denial_after none target keys = record { last_target = target; last_keys = keys; count = 1 }

unfoldable pub record_plugin_denial :
    Dict PluginDenial → String → String → List PermissionKey → Dict PluginDenial
unfolding denial_after
record_plugin_denial d id target keys = Dict.put d id (denial_after (Dict.get d id) target keys)

unfoldable pub get_plugin_denial : Dict PluginDenial → String → Option PluginDenial
get_plugin_denial = Dict.get

unfoldable pub clear_plugin_denial : Dict PluginDenial → String → Dict PluginDenial
clear_plugin_denial = Dict.delete

-- A value of the generated table of endpoints.
pub data EndpointRule : Type 0 where
  allow : EndpointRule
  deny : String → EndpointRule
  requires : PermissionKey → EndpointRule

pub data GateError : Type 0 where
  unknown_endpoint : GateError
  closed_to_plugins : String → GateError
  permission_denied : PermissionKey → GateError

-- The decision on a rule of the table, for a plugin: the new record of denials, and the error that
-- is thrown.
unfoldable pub judge :
    PermissionsFile
    → Dict PluginDenial
    → String
    → String
    → Option EndpointRule
    → Dict PluginDenial × Option GateError
judge file d id target none = (record_plugin_denial d id target [], some unknown_endpoint)
judge file d id target (some allow) = (d, none)
judge file d id target (some (deny why)) =
    (record_plugin_denial d id target [], some (closed_to_plugins why))
judge file d id target (some (requires key)) =
    if allowed (resolve_for_profiled file plugin_id) key
    then (d, none)
    else (record_plugin_denial d id target (key ∷ []), some (permission_denied key))

-- The table is an argument. Only plugins are judged.
unfoldable pub assert_misskey_api_allowed :
    (String → Option EndpointRule)
    → PermissionsFile
    → Dict PluginDenial
    → Principal
    → String
    → Dict PluginDenial × Option GateError
assert_misskey_api_allowed rules file d (plugin id name) endpoint =
    judge file d id (str_append "Mk:api " endpoint) (rules endpoint)
assert_misskey_api_allowed rules file d _ endpoint = (d, none)
