-- ===== src/Tasks/Store.antt =====
-- stores/tasks.ts: the definitions of the tasks, and the file that they are read from and written to.
-- JSON5 is a parameter, and so are the texts that the file system gives.
pub mod Reload
use Prim.Native.String.{◌++◌ as str_append}
use notedeck.Prelude.{
  ℕ, String, Bool, true, false, not, ◌&&◌, Option, none, some, List, [], ◌∷◌, ◌++◌, is_some, set,
  find, find_index, keep_if, nat_eq, ◌==◌, if◌then◌else◌,
}
use notedeck.Tasks.{
  Json, natural, array, object, Items, no_items, item, Fields, no_fields, field, member,
  TaskDefinition,
}
use notedeck.Tasks.Schema.{Place, Problem, Parsed, ok, parse_error, trim}
use notedeck.Tasks.Schema.File.{parse_tasks}
use notedeck.Tasks.Schema.Written.{task_json}

pub record Json5 : Type 0 where
  pub parse : String → Option Json
  pub stringify : Json → String

-- `written` are the texts that `writeTasks` has been called with, the latest first.
pub record TasksStore : Type 0 where
  pub definitions : List TaskDefinition
  pub initialized : Bool
  pub last_error : Option (Place × Problem)
  pub persist_scheduled : Bool
  pub written : List String

abbrev pub task_items : List TaskDefinition → Items
task_items [] = no_items
task_items (t ∷ ts) = item (task_json t) (task_items ts)

unfoldable pub payload : List TaskDefinition → Json
payload ts = object (field "version" (natural 2) (field "tasks" (array (task_items ts)) no_fields))

unfoldable pub content : Json5 → List TaskDefinition → String
content json5 ts = str_append (json5.stringify (payload ts)) "\n"

abbrev write : String → TasksStore → TasksStore
write s st = record st { written = s ∷ st.written }

unfoldable pub persist : Json5 → Bool → TasksStore → TasksStore
persist json5 is_tauri st = if is_tauri then write (content json5 st.definitions) st else st

abbrev set_parsed : Parsed (List TaskDefinition) → TasksStore → TasksStore
set_parsed (ok ts) st = record st { definitions = ts; last_error = none }
set_parsed (parse_error at what) st = record st { definitions = []; last_error = some (at, what) }

unfoldable pub set_from_raw : Json5 → String → TasksStore → TasksStore
set_from_raw json5 raw st = set_parsed (parse_tasks json5.parse raw) st

-- A version that is no natural number is none that the store knows.
unfoldable pub has_other_version : Json5 → String → Bool
has_other_version json5 raw = elim (json5.parse raw) [
  | none ↦ false
  | some (object fs) ↦ elim (member fs "version") [
    | none ↦ false
    | some (natural v) ↦ not (nat_eq v 2)
    | some (Json.other v) ↦ true
    | some v ↦ false
  ]
  | some v ↦ false
]

-- The answer of `readTasks`, of which `none` is an error.
unfoldable pub load : Json5 → String → Option String → TasksStore → TasksStore
unfolding set_from_raw persist has_other_version
load json5 defaults none st = st
load json5 defaults (some text) st =
    let after = set_from_raw json5 text st in
    if trim text == ""
    then set_from_raw json5 defaults (write defaults st)
    else if has_other_version json5 text && not (is_some after.last_error)
    then persist json5 true after
    else after

unfoldable pub init : Json5 → Bool → String → Option String → TasksStore → TasksStore
unfolding load set_from_raw
init json5 is_tauri defaults file st =
    record (if is_tauri then load json5 defaults file st else set_from_raw json5 defaults st) {
      initialized = true;
    }

unfoldable pub get_by_id : String → TasksStore → Option TaskDefinition
get_by_id id st = find (λ t. t.id == id) st.definitions

abbrev put_definition : TaskDefinition → List TaskDefinition → List TaskDefinition
put_definition d ts = elim (find_index (λ t. t.id == d.id) ts) [
  | some i ↦ set ts i d
  | none ↦ ts ++ (d ∷ [])
]

unfoldable pub upsert : TaskDefinition → TasksStore → TasksStore
upsert d st = record st { definitions = put_definition d st.definitions; persist_scheduled = true }

unfoldable pub remove : String → TasksStore → TasksStore
remove id st = record st {
  definitions = keep_if (λ t. not (t.id == id)) st.definitions;
  persist_scheduled = true;
}
