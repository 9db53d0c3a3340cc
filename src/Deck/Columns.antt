-- ===== src/Deck/Columns.antt =====
-- The columns and profiles of stores/deck.ts. The optional fields of a column that the store only
-- keeps (`tl`, `listId`, `filters` and the like) are the dictionary `props`.
use notedeck.Prelude.{
  ℕ, String, Bool, true, false, Option, none, some, List, [], ◌∷◌, map, any, ◌==◌, or_else,
  if◌then◌else◌,
}
use notedeck.Prelude.Dict
use notedeck.Prelude.Dict.{Dict}
use notedeck.Deck.Layout.{Groups}

pub data ColumnType : Type 0 where
  timeline notifications search list antenna favorites clip user mentions channel role specified
        chat widget aiscript play page ai announcements drive gallery explore follow_requests
        achievements api_console api_docs lookup server_info ads about_misskey emoji
        stream_inspector plugin_manager theme_manager task_runner memos charts federation skill :
      ColumnType

-- The text that is the type in the source.
unfoldable pub type_name : ColumnType → String
type_name timeline = "timeline"
type_name notifications = "notifications"
type_name search = "search"
type_name list = "list"
type_name antenna = "antenna"
type_name favorites = "favorites"
type_name clip = "clip"
type_name user = "user"
type_name mentions = "mentions"
type_name channel = "channel"
type_name role = "role"
type_name specified = "specified"
type_name chat = "chat"
type_name widget = "widget"
type_name aiscript = "aiscript"
type_name play = "play"
type_name page = "page"
type_name ai = "ai"
type_name announcements = "announcements"
type_name drive = "drive"
type_name gallery = "gallery"
type_name explore = "explore"
type_name follow_requests = "followRequests"
type_name achievements = "achievements"
type_name api_console = "apiConsole"
type_name api_docs = "apiDocs"
type_name lookup = "lookup"
type_name server_info = "serverInfo"
type_name ads = "ads"
type_name about_misskey = "aboutMisskey"
type_name emoji = "emoji"
type_name stream_inspector = "streamInspector"
type_name plugin_manager = "pluginManager"
type_name theme_manager = "themeManager"
type_name task_runner = "taskRunner"
type_name memos = "memos"
type_name charts = "charts"
type_name federation = "federation"
type_name skill = "skill"

-- `TIMELINE_LIKE_COLUMN_TYPES.has`
unfoldable pub is_timeline_like : ColumnType → Bool
is_timeline_like timeline = true
is_timeline_like notifications = true
is_timeline_like list = true
is_timeline_like antenna = true
is_timeline_like mentions = true
is_timeline_like channel = true
is_timeline_like favorites = true
is_timeline_like clip = true
is_timeline_like user = true
is_timeline_like specified = true
is_timeline_like search = true
is_timeline_like role = true
is_timeline_like chat = true
is_timeline_like _ = false

-- The tests `col.type === 'chat'`, `'search'` and `'widget'`.
abbrev pub is_chat : ColumnType → Bool
is_chat chat = true
is_chat _ = false

abbrev pub is_search : ColumnType → Bool
is_search search = true
is_search _ = false

abbrev pub is_widget : ColumnType → Bool
is_widget widget = true
is_widget _ = false

pub record Column : Type 0 where
  pub id : String
  pub column_type : ColumnType
  pub name : Option String
  pub width : ℕ
  pub account_id : Option String
  pub query : Option String
  pub window_id : Option String
  pub sidebar : Bool
  pub widget_ids : Option (List String)
  pub props : Dict String

-- `Partial<DeckColumn>`, without the id, which no caller gives: a field that is there is a `some`.
pub record ColumnUpdate : Type 0 where
  pub column_type : Option ColumnType
  pub name : Option (Option String)
  pub width : Option ℕ
  pub account_id : Option (Option String)
  pub query : Option (Option String)
  pub window_id : Option (Option String)
  pub sidebar : Option Bool
  pub widget_ids : Option (Option (List String))
  pub props : Dict String

abbrev pub no_update : ColumnUpdate
no_update = record {
  column_type = none;
  name = none;
  width = none;
  account_id = none;
  query = none;
  window_id = none;
  sidebar = none;
  widget_ids = none;
  props = [];
}

abbrev put_all : Dict String → Dict String → Dict String
put_all m [] = m
put_all m ((k, v) ∷ u) = put_all (Dict.put m k v) u

abbrev first_of {ℓ} : {A : Type ℓ} → Option A → Option A → Option A
first_of none o = o
first_of (some a) o = some a

-- `{ ...u, ...extra }`
unfoldable pub spread : ColumnUpdate → ColumnUpdate → ColumnUpdate
spread u extra = record {
  column_type = first_of extra.column_type u.column_type;
  name = first_of extra.name u.name;
  width = first_of extra.width u.width;
  account_id = first_of extra.account_id u.account_id;
  query = first_of extra.query u.query;
  window_id = first_of extra.window_id u.window_id;
  sidebar = first_of extra.sidebar u.sidebar;
  widget_ids = first_of extra.widget_ids u.widget_ids;
  props = put_all u.props extra.props;
}

-- `Object.assign(col, updates)`
unfoldable pub assign_column : Column → ColumnUpdate → Column
assign_column c u = record c {
  column_type = or_else u.column_type c.column_type;
  name = or_else u.name c.name;
  width = or_else u.width c.width;
  account_id = or_else u.account_id c.account_id;
  query = or_else u.query c.query;
  window_id = or_else u.window_id c.window_id;
  sidebar = or_else u.sidebar c.sidebar;
  widget_ids = or_else u.widget_ids c.widget_ids;
  props = put_all c.props u.props;
}

-- A window's position, size and monitor, which the stores only keep, are one text.
pub record WindowLayout : Type 0 where
  pub id : String
  pub frame : String

pub record Profile : Type 0 where
  pub id : String
  pub name : String
  pub columns : List Column
  pub layout : Groups
  pub created_at : ℕ
  pub windows : Option (List WindowLayout)

abbrev pub column_ids : List Column → List String
column_ids = map (λ c. c.id)

abbrev pub has_column : List Column → String → Bool
has_column cs id = any (λ c. c.id == id) cs

-- `columnMap.get`: of columns with one id the map keeps the last.
unfoldable pub get_column : List Column → String → Option Column
get_column [] id = none
get_column (c ∷ cs) id = elim (get_column cs id) [
  | some d ↦ some d
  | none ↦ if c.id == id then some c else none
]

-- A change in place of the column that `get_column` finds.
unfoldable pub change_column : List Column → String → (Column → Column) → List Column
change_column [] id f = []
change_column (c ∷ cs) id f =
    let rest = change_column cs id f in
    if has_column cs id then c ∷ rest else if c.id == id then f c ∷ cs else c ∷ cs
