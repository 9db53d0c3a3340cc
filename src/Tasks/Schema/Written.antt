-- ===== src/Tasks/Schema/Written.antt =====
-- The objects that `parse_task` builds, as values that JSON5 can print, and what reading them gives.
use notedeck.Prelude.{String, Bool, true, Option, none, some, List, [], ◌∷◌, if◌then◌else◌}
use notedeck.Tasks.{
  Json, null, bool, text, array, object, Items, no_items, item, Fields, no_fields, field, TaskInput,
  TaskAction, TaskPresentation, TaskDefinition, AccountChoice, unset, null_account, named,
}

-- A spread of `{ key: value }` or of `{}`.
abbrev pub opt : String → Option Json → Fields → Fields
opt k none fs = fs
opt k (some v) fs = field k v fs

abbrev pub texts : List String → Items
texts [] = no_items
texts (s ∷ ss) = item (text s) (texts ss)

abbrev pub opt_text : Option String → Option Json
opt_text none = none
opt_text (some s) = some (text s)

abbrev pub opt_bool : Option Bool → Option Json
opt_bool none = none
opt_bool (some b) = some (bool b)

abbrev pub if_true : Bool → Option Json
if_true b = if b then some (bool true) else none

unfoldable pub input_json : TaskInput → Json
input_json i = elim i.options [
  | none ↦ object (
      field "id" (text i.id) (
        field "type" (text "text")
          (field "prompt" (text i.prompt) (opt "default" (opt_text i.default) no_fields))))
  | some os ↦ object (
      field "id" (text i.id) (
        field "type" (text "pick") (
          field "prompt" (text i.prompt)
            (field "options" (array (texts os)) (opt "default" (opt_text i.default) no_fields)))))
]

abbrev pub inputs_items : List TaskInput → Items
inputs_items [] = no_items
inputs_items (i ∷ is) = item (input_json i) (inputs_items is)

abbrev pub inputs_json : Option (List TaskInput) → Option Json
inputs_json none = none
inputs_json (some is) = some (array (inputs_items is))

abbrev pub opt_fields : Option Fields → Option Json
opt_fields none = none
opt_fields (some fs) = some (object fs)

unfoldable pub action_json : TaskAction → Json
action_json a = object (
    field "type" (text "api")
      (field "method" (text a.method) (opt "params" (opt_fields a.params) no_fields)))

unfoldable pub presentation_json : Option TaskPresentation → Option Json
presentation_json none = none
presentation_json (some p) = some (
    object (
      opt "revealOnRun" (opt_bool p.reveal_on_run)
        (opt "clearHistoryOnRun" (opt_bool p.clear_history_on_run) no_fields)))

abbrev pub account_json : AccountChoice → Option Json
account_json unset = none
account_json null_account = some null
account_json (named s) = some (text s)

abbrev pub task_fields : TaskDefinition → Fields
task_fields d = field "id" (text d.id) (
    field "label" (text d.label) (
      field "action" (action_json d.action) (
        opt "description" (opt_text d.description) (
          opt "detail" (opt_text d.detail) (
            opt "icon" (opt_text d.icon) (
              opt "group" (opt_text d.group) (
                opt "isDefault" (if_true d.is_default) (
                  opt "pinned" (if_true d.pinned) (
                    opt "accountId" (account_json d.account_id) (
                      opt "inputs" (inputs_json d.inputs)
                        (opt "presentation" (presentation_json d.presentation) no_fields)))))))))))

unfoldable pub task_json : TaskDefinition → Json
task_json d = object (task_fields d)
