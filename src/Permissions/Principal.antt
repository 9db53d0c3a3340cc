-- ===== src/Permissions/Principal.antt =====
-- permissions/principal.ts: on whose behalf a capability runs.
use Prim.Native.String.{◌++◌ as str_append}
use text.Mathlib.Text.{starts_with}
use notedeck.Prelude.{String, Option, none, some, text_or, if◌then◌else◌}

-- `plugin` has the plugin's id and its optional name, `external` an optional token id.
pub data Principal : Type 0 where
  user ai_chat ai_heartbeat : Principal
  plugin : String → Option String → Principal
  external : Option String → Principal

pub data ProfiledPrincipalId : Type 0 where
  ai_chat_id ai_heartbeat_id plugin_id external_id : ProfiledPrincipalId

-- The spelling of the ids, by which profiles are stored.
abbrev pub id_name : ProfiledPrincipalId → String
id_name ai_chat_id = "ai.chat"
id_name ai_heartbeat_id = "ai.heartbeat"
id_name plugin_id = "plugin"
id_name external_id = "external"

-- `principalProfileId` of permissions/store.ts
unfoldable pub principal_profile_id : Principal → Option ProfiledPrincipalId
principal_profile_id user = none
principal_profile_id ai_chat = some ai_chat_id
principal_profile_id ai_heartbeat = some ai_heartbeat_id
principal_profile_id (plugin _ _) = some plugin_id
principal_profile_id (external _) = some external_id

-- `id.replace(/^(widget|play|page):/, '')`, for the prefix that was found
unfoldable pub drop_prefix : String → String → String
drop_prefix String.[] s = s
drop_prefix (String.◌∷◌ c p) String.[] = String.[]
drop_prefix (String.◌∷◌ c p) (String.◌∷◌ d s) = drop_prefix p s

unfoldable pub plugin_label : String → Option String → String
unfolding drop_prefix
plugin_label id name =
    let quoted = λ (noun rest : String).
      str_append noun (str_append "「" (str_append (text_or name rest) "」")) in
    if starts_with id "widget:"
    then quoted "ウィジェット" (drop_prefix "widget:" id)
    else if starts_with id "play:"
    then quoted "Play" (drop_prefix "play:" id)
    else if starts_with id "page:"
    then quoted "ページ" (drop_prefix "page:" id)
    else quoted "プラグイン" id

-- The label of a caller in dialogs; the user has none.
unfoldable pub principal_actor_label : Principal → Option String
unfolding plugin_label
principal_actor_label user = none
principal_actor_label ai_chat = some "AI"
principal_actor_label ai_heartbeat = some "HEARTBEAT"
principal_actor_label (plugin id name) = some (plugin_label id name)
principal_actor_label (external _) = some "外部アプリ"
