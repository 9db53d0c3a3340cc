-- ===== src/Tasks/Schema/File.antt =====
-- tasks/schema.ts: a task, and the whole file.
use notedeck.Prelude.{
  ℕ, ◌+◌, String, Bool, true, false, ◌||◌, Option, none, some, List, [], ◌∷◌, or_else, includes,
  add, nat_eq, ◌==◌, if◌then◌else◌,
}
use notedeck.Tasks.{
  Json, null, natural, text, array, items_of, member, TaskInput, TaskPresentation, AccountChoice,
  unset, null_account, named, TaskDefinition,
}
use notedeck.Tasks.Schema.{
  Place, root, task_at, within, element, must_be_array, bad_id, bad_icon, json_error, bad_version,
  duplicate_id, Parsed, ok, parse_error, ◌>>=◌, is_task_id, is_icon_name, trim, non_empty,
  optional_text, optional_bool, if_text, fields_of, parse_input, parse_action,
}

abbrev pub presentation_of : Option Bool → Option Bool → Option TaskPresentation
presentation_of none none = none
presentation_of r c = some (record { reveal_on_run = r; clear_history_on_run = c })

unfoldable pub parse_presentation : Option Json → Place → Parsed (Option TaskPresentation)
parse_presentation none at = ok none
parse_presentation v at = do
  raw ← fields_of at v
  reveal ← optional_bool (within at "revealOnRun") (member raw "revealOnRun")
  clear ← optional_bool (within at "clearHistoryOnRun") (member raw "clearHistoryOnRun")
  ok (presentation_of reveal clear)

abbrev pub id_of : Place → Option Json → Parsed String
id_of at (some (text s)) = if is_task_id s then ok s else parse_error at bad_id
id_of at _ = parse_error at bad_id

abbrev pub icon_of : Place → Option Json → Parsed (Option String)
icon_of at none = ok none
icon_of at (some (text s)) = if is_icon_name s then ok (some s) else parse_error at bad_icon
icon_of at _ = parse_error at bad_icon

abbrev pub inputs_from : Place → ℕ → List Json → Parsed (List TaskInput)
inputs_from at i [] = ok []
inputs_from at i (v ∷ vs) = do
  x ← parse_input v (element at "inputs" i)
  xs ← inputs_from at (i + 1) vs
  ok (x ∷ xs)

abbrev pub inputs_of : Place → Option Json → Parsed (Option (List TaskInput))
inputs_of at none = ok none
inputs_of at (some (array vs)) = do xs ← inputs_from at 0 (items_of vs); ok (some xs)
inputs_of at _ = parse_error (within at "inputs") must_be_array

abbrev pub account_choice : Option Json → AccountChoice
account_choice (some null) = null_account
account_choice (some (text s)) = named s
account_choice _ = unset

-- An empty text counts as none.
abbrev pub filled : Option String → Option String
filled none = none
filled (some s) = if s == "" then none else some s

abbrev pub normalized_group : Option String → Option String
normalized_group none = none
normalized_group (some s) = filled (some (trim s))

unfoldable pub parse_task : Json → Place → Parsed TaskDefinition
unfolding parse_presentation
parse_task v at = do
  raw ← fields_of at (some v)
  id ← id_of (within at "id") (member raw "id")
  label ← non_empty (within at "label") (member raw "label")
  inputs ← inputs_of at (member raw "inputs")
  action ← parse_action (member raw "action") (within at "action")
  presentation ← parse_presentation (member raw "presentation") (within at "presentation")
  detail ← optional_text (within at "detail") (member raw "detail")
  icon ← icon_of (within at "icon") (member raw "icon")
  group ← optional_text (within at "group") (member raw "group")
  is_default ← optional_bool (within at "isDefault") (member raw "isDefault")
  pinned ← optional_bool (within at "pinned") (member raw "pinned")
  ok (record {
    id = id;
    label = label;
    detail = filled detail;
    description = if_text (member raw "description");
    icon = icon;
    group = normalized_group group;
    is_default = or_else is_default false;
    pinned = or_else pinned false;
    account_id = account_choice (member raw "accountId");
    inputs = inputs;
    action = action;
    presentation = presentation;
  })

-- `seen`: a task before was the default.
abbrev pub demote_from : Bool → List TaskDefinition → List TaskDefinition
demote_from seen [] = []
demote_from seen (t ∷ ts) = elim t.is_default [
  | false ↦ t ∷ demote_from seen ts
  | true ↦ elim seen [
    | true ↦ record t { is_default = false } ∷ demote_from true ts
    | false ↦ t ∷ demote_from true ts
  ]
]

unfoldable pub enforce_single_default : List TaskDefinition → List TaskDefinition
enforce_single_default ts = demote_from false ts

abbrev pub tasks_from : ℕ → List Json → Parsed (List TaskDefinition)
tasks_from i [] = ok []
tasks_from i (v ∷ vs) = do t ← parse_task v (task_at i); ts ← tasks_from (i + 1) vs; ok (t ∷ ts)

-- The loop that looks for an id that stands twice.
abbrev pub check_ids : List String → List TaskDefinition → Parsed {0} Unit
check_ids seen [] = ok tt
check_ids seen (t ∷ ts) =
    let rest = check_ids (add seen t.id) ts in
    if includes seen t.id then parse_error root (duplicate_id t.id) else rest

abbrev is_supported : Option Json → Bool
is_supported (some (natural v)) = nat_eq v 1 || nat_eq v 2
is_supported _ = false

abbrev pub list_at : Place → Option Json → Parsed (List Json)
list_at at (some (array vs)) = ok (items_of vs)
list_at at _ = parse_error at must_be_array

abbrev pub parsed_json : Option Json → Parsed Json
parsed_json none = parse_error root json_error
parsed_json (some v) = ok v

abbrev pub check_version : Option Json → Parsed {0} Unit
check_version v = if is_supported v then ok tt else parse_error (within root "version") bad_version

abbrev pub read_tasks : Option Json → Parsed (List TaskDefinition)
read_tasks parsed = do
  root_value ← parsed_json parsed
  fields ← fields_of root (some root_value)
  supported ← check_version (member fields "version")
  vs ← list_at (within root "tasks") (member fields "tasks")
  ts ← tasks_from 0 vs
  distinct ← check_ids [] ts
  ok (enforce_single_default ts)

-- The tasks of the file; the version of the result is always TASKS_FILE_VERSION.
unfoldable pub parse_tasks : (String → Option Json) → String → Parsed (List TaskDefinition)
unfolding parse_task enforce_single_default
parse_tasks json5_parse raw =
    let tasks = read_tasks (json5_parse (trim raw)) in if trim raw == "" then ok [] else tasks
