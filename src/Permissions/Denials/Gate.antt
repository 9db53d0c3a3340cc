-- ===== src/Permissions/Denials/Gate.antt =====
-- What the gate lets through, and what it records.
use notedeck.Prelude.{
  ℕ, ◌+◌, String, Bool, true, false, not, ◌==◌, ◌≡◌, Option, none, some, List, [], ◌∷◌, inl, inr,
  Bool-cases, refl, arith, is_some, if◌then◌else◌,
}
use notedeck.Prelude.Dict
use notedeck.Prelude.Dict.{Dict}
use notedeck.Permissions.Principal.{plugin, plugin_id}
use notedeck.Permissions.Schema.{PermissionKey, allowed}
use notedeck.Permissions.Store.{PermissionsFile, resolve_for_profiled}
use notedeck.Permissions.Denials.{
  PluginDenial, EndpointRule, allow, deny, requires, GateError, record_plugin_denial, denial_after,
  judge, assert_misskey_api_allowed,
}

-- How often a plugin was refused.
abbrev pub denial_count : Dict PluginDenial → String → ℕ
denial_count d id = elim (Dict.get d id) [ none ↦ 0 | some e ↦ e.count ]

abbrev pub rule_allows : PermissionsFile → Option EndpointRule → Bool
rule_allows file none = false
rule_allows file (some allow) = true
rule_allows file (some (deny why)) = false
rule_allows file (some (requires key)) = allowed (resolve_for_profiled file plugin_id) key

-- Recording a refusal adds one to the count of that plugin, and leaves the others alone.
pub denial_count-record :
    (d : Dict PluginDenial) (id target other : String) (keys : List PermissionKey)
    → denial_count (record_plugin_denial d id target keys) other
      ≡ (if id == other then denial_count d id + 1 else denial_count d other)
unfolding record_plugin_denial
denial_count-record d id target other keys =
    ground (arith, Dict.get-put d id other (denial_after (Dict.get d id) target keys))

-- What the gate does to the count of `other` when it judges a plugin, and whether it throws.
abbrev pub Judged :
    PermissionsFile
    → Dict PluginDenial
    → String
    → String
    → Option EndpointRule
    → Dict PluginDenial × Option GateError
    → Type 0
Judged file d id other rule r =
    (is_some r.1 ≡ not (rule_allows file rule))
    × (denial_count r.0 other ≡ (
        if rule_allows file rule
        then denial_count d other
        else if id == other
        then denial_count d id + 1
        else denial_count d other))

judge-Judged :
    (file : PermissionsFile) (d : Dict PluginDenial) (id target other : String)
    (rule : Option EndpointRule)
    → Judged file d id other rule (judge file d id target rule)
unfolding judge
judge-Judged file d id target other none = (refl, denial_count-record d id target other [])
judge-Judged file d id target other (some allow) = (refl, refl)
judge-Judged file d id target other (some (deny why)) =
    (refl, denial_count-record d id target other [])
judge-Judged file d id target other (some (requires key)) =
    elim (Bool-cases (allowed (resolve_for_profiled file plugin_id) key)) [
      | inl e ↦ rw e (refl, refl)
      | inr e ↦ rw e (refl, denial_count-record d id target other (key ∷ []))
    ]

-- A plugin passes the gate exactly if the table opens the endpoint, or names a key that the plugin
-- profile grants; an endpoint that the table lacks is closed. Each refusal is counted for that
-- plugin and no other, and a call that passes leaves the record alone.
pub assert_misskey_api_allowed-plugin :
    (rules : String → Option EndpointRule) (file : PermissionsFile) (d : Dict PluginDenial)
    (id : String) (name : Option String) (endpoint other : String)
    → Judged file d id other
        (rules endpoint)
        (assert_misskey_api_allowed rules file d (plugin id name) endpoint)
unfolding assert_misskey_api_allowed
assert_misskey_api_allowed-plugin rules file d id name endpoint other =
    judge-Judged file d id _ other (rules endpoint)
