-- ===== src/Windows/Types.antt =====
-- stores/windows.ts: the types of windows and what the store has about each.
use notedeck.Prelude.{
  ℕ, String, Bool, true, false, none, List, [], ◌∷◌, includes, ◌≡◌, ◌⊎◌, refl, inl, inr,
}
use notedeck.Prelude.Dict
use notedeck.Prelude.Dict.{Dict}

pub data WindowType : Type 0 where
  note_detail note_inspector notification_inspector user_profile federation_instance : WindowType
  follow_list login plugins keybinds css_editor theme_editor profile_editor ai_settings : WindowType
  permissions about nav_editor performance_editor appearance_editor backup cache_editor : WindowType
  tasks_editor snippets_editor memo_editor page_detail play_detail gallery_detail : WindowType
  list_detail clip_detail drive_file_detail page_edit play_edit widget_edit skill_edit : WindowType
  connections connection_edit tutorial : WindowType

abbrev pub window_name : WindowType → String
window_name note_detail = "note-detail"
window_name note_inspector = "note-inspector"
window_name notification_inspector = "notification-inspector"
window_name user_profile = "user-profile"
window_name federation_instance = "federation-instance"
window_name follow_list = "follow-list"
window_name login = "login"
window_name plugins = "plugins"
window_name keybinds = "keybinds"
window_name css_editor = "cssEditor"
window_name theme_editor = "themeEditor"
window_name profile_editor = "profileEditor"
window_name ai_settings = "aiSettings"
window_name permissions = "permissions"
window_name about = "about"
window_name nav_editor = "navEditor"
window_name performance_editor = "performanceEditor"
window_name appearance_editor = "appearanceEditor"
window_name backup = "backup"
window_name cache_editor = "cacheEditor"
window_name tasks_editor = "tasksEditor"
window_name snippets_editor = "snippetsEditor"
window_name memo_editor = "memoEditor"
window_name page_detail = "page-detail"
window_name play_detail = "play-detail"
window_name gallery_detail = "gallery-detail"
window_name list_detail = "list-detail"
window_name clip_detail = "clip-detail"
window_name drive_file_detail = "drive-file-detail"
window_name page_edit = "page-edit"
window_name play_edit = "play-edit"
window_name widget_edit = "widget-edit"
window_name skill_edit = "skill-edit"
window_name connections = "connections"
window_name connection_edit = "connectionEdit"
window_name tutorial = "tutorial"

pub record WindowSize : Type 0 where
  pub width : ℕ
  pub max_height : ℕ
  pub top_right : Bool

abbrev size_of : ℕ → ℕ → WindowSize
size_of w h = record { width = w; max_height = h; top_right = false }

abbrev pub window_size : WindowType → WindowSize
window_size note_detail = size_of 500 600
window_size note_inspector = size_of 620 720
window_size notification_inspector = size_of 620 720
window_size user_profile = size_of 620 650
window_size federation_instance = size_of 500 650
window_size follow_list = size_of 500 650
window_size login = size_of 380 480
window_size plugins = size_of 500 720
window_size keybinds = size_of 400 650
window_size css_editor = size_of 400 650
window_size theme_editor = size_of 400 720
window_size profile_editor = size_of 400 700
window_size ai_settings = size_of 400 700
window_size permissions = size_of 420 700
window_size about = size_of 380 640
window_size nav_editor = size_of 400 700
window_size performance_editor = size_of 420 750
window_size appearance_editor = size_of 400 700
window_size backup = size_of 440 550
window_size cache_editor = size_of 440 550
window_size tasks_editor = size_of 500 700
window_size snippets_editor = size_of 500 700
window_size memo_editor = size_of 500 600
window_size page_detail = size_of 500 720
window_size play_detail = size_of 500 720
window_size gallery_detail = size_of 500 720
window_size list_detail = size_of 500 720
window_size clip_detail = size_of 500 720
window_size drive_file_detail = size_of 500 720
window_size page_edit = size_of 500 720
window_size play_edit = size_of 500 720
window_size widget_edit = size_of 500 720
window_size skill_edit = size_of 500 720
window_size connections = size_of 440 650
window_size connection_edit = size_of 440 720
window_size tutorial = record { width = 380; max_height = 420; top_right = true }

abbrev pub props_dedup_keys : Dict (List String)
props_dedup_keys =
    ("note-detail", "noteId" ∷ "accountId" ∷ [])
    ∷ ("note-inspector", "noteId" ∷ "accountId" ∷ [])
    ∷ ("notification-inspector", "notificationId" ∷ "accountId" ∷ [])
    ∷ ("user-profile", "userId" ∷ "accountId" ∷ [])
    ∷ ("federation-instance", "host" ∷ "accountId" ∷ [])
    ∷ ("follow-list", "userId" ∷ "accountId" ∷ [])
    ∷ ("memoEditor", "memoKey" ∷ "accountId" ∷ [])
    ∷ ("page-detail", "pageId" ∷ "accountId" ∷ [])
    ∷ ("play-detail", "flashId" ∷ "accountId" ∷ [])
    ∷ ("gallery-detail", "postId" ∷ "accountId" ∷ [])
    ∷ ("list-detail", "listId" ∷ "accountId" ∷ [])
    ∷ ("clip-detail", "clipId" ∷ "accountId" ∷ [])
    ∷ ("drive-file-detail", "fileId" ∷ "accountId" ∷ [])
    ∷ ("page-edit", "pageId" ∷ "accountId" ∷ [])
    ∷ ("play-edit", "flashId" ∷ "accountId" ∷ [])
    ∷ ("widget-edit", "widgetId" ∷ [])
    ∷ ("skill-edit", "skillId" ∷ [])
    ∷ ("connectionEdit", "connectionId" ∷ [])
    ∷ []

abbrev pub singleton_types : List String
singleton_types =
    "login" ∷ "plugins" ∷ "keybinds" ∷ "cssEditor" ∷ "themeEditor" ∷ "aiSettings" ∷ "permissions"
    ∷ "about" ∷ "navEditor" ∷ "profileEditor" ∷ "performanceEditor" ∷ "appearanceEditor" ∷ "backup"
    ∷ "cacheEditor" ∷ "tasksEditor" ∷ "snippetsEditor" ∷ "connections" ∷ "tutorial" ∷ []

-- The types with keys are not those that stand once.
pub dedup_keys-or-singleton :
    (t : WindowType)
    → (Dict.get props_dedup_keys (window_name t) ≡ none)
      ⊎ (includes singleton_types (window_name t) ≡ false)
unfolding Dict.get
dedup_keys-or-singleton note_detail = inr refl
dedup_keys-or-singleton note_inspector = inr refl
dedup_keys-or-singleton notification_inspector = inr refl
dedup_keys-or-singleton user_profile = inr refl
dedup_keys-or-singleton federation_instance = inr refl
dedup_keys-or-singleton follow_list = inr refl
dedup_keys-or-singleton memo_editor = inr refl
dedup_keys-or-singleton page_detail = inr refl
dedup_keys-or-singleton play_detail = inr refl
dedup_keys-or-singleton gallery_detail = inr refl
dedup_keys-or-singleton list_detail = inr refl
dedup_keys-or-singleton clip_detail = inr refl
dedup_keys-or-singleton drive_file_detail = inr refl
dedup_keys-or-singleton page_edit = inr refl
dedup_keys-or-singleton play_edit = inr refl
dedup_keys-or-singleton widget_edit = inr refl
dedup_keys-or-singleton skill_edit = inr refl
dedup_keys-or-singleton connection_edit = inr refl
dedup_keys-or-singleton _ = inl refl
