-- ===== src/Tasks/Examples.antt =====
-- Concrete runs of the tasks.
use notedeck.Prelude.{
  ℕ, String, Bool, true, false, if◌then◌else◌, Option, none, some, List, [], ◌∷◌, ◌==◌, ◌≡◌, refl,
}
use notedeck.Prelude.Dict
use notedeck.Prelude.Dict.{Dict}
use notedeck.Tasks.{
  Json, null, bool, natural, text, array, object, Items, no_items, item, no_fields, field,
  TaskDefinition, unset,
}
use notedeck.Tasks.Schema.{
  ok, parse_error, root, task_at, within, bad_id, duplicate_id, parse_input, parse_action,
  is_task_id, is_icon_name, trim,
}
use notedeck.Tasks.Schema.File.{parse_tasks, parse_task, parse_presentation, enforce_single_default}
use notedeck.Tasks.Schema.Accepted.{Accepted, parse_tasks-Accepted}
use notedeck.Tasks.Store.{
  Json5, TasksStore, payload, content, has_other_version, init, get_by_id, upsert, remove,
}
use notedeck.Tasks.Store.Reload.{parse_tasks-content, loaded, migrated, init_again}
use notedeck.Tasks.Expand.{ExpandContext, expand_string, resolve_token}
use notedeck.Tasks.Expand.Pieces.{Piece, plain, token, join, written, meaning, expand_string-join}
use notedeck.Tasks.Runner.RunTask
use notedeck.Tasks.Runner.{TaskAccountCandidate, responded, refused}
use notedeck.Tasks.Runner.Sound.{Event, launched, answered, pruned, cleared, start, run, Sound}
use notedeck.Tasks.Runner.Sound.Kept.{run-Sound, start-Sound}
use notedeck.Tasks.Runner.RunTask.{Surroundings, Override, ask, run_task, run_default}
use notedeck.Tasks.Runner.Whole.{Settled, run_task-Settled}

abbrev action : Json
action = object (field "type" (text "api") (field "method" (text "notes/create") no_fields))

abbrev raw_task : String → Json
raw_task id = object (
    field "id" (text id) (
      field "label" (text "Post") (
        field "detail" (text "") (
          field "group" (text "  daily ")
            (field "isDefault" (bool true) (field "action" action no_fields))))))

abbrev file_of : ℕ → Items → Json
file_of v ts = object (field "version" (natural v) (field "tasks" (array ts) no_fields))

abbrev first_version : Json
first_version = file_of 1 (item (raw_task "post") (item (raw_task "post-2") no_items))

abbrev task : String → Bool → TaskDefinition
task id default = record {
  id = id;
  label = "Post";
  detail = none;
  description = none;
  icon = none;
  group = some "daily";
  is_default = default;
  pinned = false;
  account_id = unset;
  inputs = none;
  action = record { method = "notes/create"; params = none };
  presentation = none;
}

abbrev tasks : List TaskDefinition
tasks = task "post" true ∷ task "post-2" false ∷ []

first_version-ok : parse_tasks (λ s. some first_version) "{}" ≡ ok tasks
unfolding parse_tasks parse_task parse_input parse_action parse_presentation is_task_id is_icon_name
    trim enforce_single_default
first_version-ok = refl

twice_is_refused :
    parse_tasks
      (λ s. some (file_of 2 (item (raw_task "post") (item (raw_task "post") no_items))))
      "{}"
    ≡ parse_error root (duplicate_id "post")
unfolding parse_tasks parse_task parse_input parse_action parse_presentation is_task_id is_icon_name
    trim enforce_single_default
twice_is_refused = refl

blank_is_refused :
    parse_tasks (λ s. some (file_of 2 (item (raw_task "a b") no_items))) "{}"
    ≡ parse_error (within (task_at 0) "id") bad_id
unfolding parse_tasks parse_task parse_input parse_action parse_presentation is_task_id is_icon_name
    trim enforce_single_default
blank_is_refused = refl

parse_tasks-Accepted_example : Accepted tasks
parse_tasks-Accepted_example =
    parse_tasks-Accepted (λ s. some first_version) "{}" tasks first_version-ok

-- A JSON5 that knows the old file, and prints the new one.
abbrev parse_one : String → Option Json
parse_one s = if s == "old" then some first_version else some (payload tasks)

abbrev two_files : Json5
two_files = record { parse = parse_one; stringify = λ v. "new" }

old-ok : parse_tasks parse_one "old" ≡ ok tasks
unfolding parse_tasks parse_task parse_input parse_action parse_presentation is_task_id is_icon_name
    trim enforce_single_default
old-ok = refl

old-lit : (trim "old" == "") ≡ false
unfolding trim
old-lit = refl

old-other : has_other_version two_files "old" ≡ true
unfolding has_other_version
old-other = refl

new-lit : (trim (content two_files tasks) == "") ≡ false
unfolding trim content
new-lit = refl

new-printed : parse_one (content two_files tasks) ≡ some (payload tasks)
unfolding content
new-printed = refl

new-printed_trim : parse_one (trim (content two_files tasks)) ≡ some (payload tasks)
unfolding trim content
new-printed_trim = refl

parse_tasks-content_example : parse_tasks parse_one (content two_files tasks) ≡ ok tasks
parse_tasks-content_example =
    parse_tasks-content two_files "old" tasks old-ok new-lit new-printed_trim

abbrev empty_store : TasksStore
empty_store = record {
  definitions = [];
  initialized = false;
  last_error = none;
  persist_scheduled = false;
  written = [];
}

init_again_example :
    (init two_files true "" (some "old") empty_store ≡ migrated two_files tasks empty_store)
    × (init two_files true "" (some (content two_files tasks)) empty_store
        ≡ loaded tasks empty_store)
init_again_example =
    init_again two_files "" "old" empty_store empty_store tasks old-lit old-ok old-other new-lit
      new-printed new-printed_trim

upserts :
    (get_by_id "post"
      (remove "post-2" (upsert (task "post" false) (migrated two_files tasks empty_store))))
    ≡ some (task "post" false)
unfolding get_by_id remove upsert
upserts = refl

abbrev context : ExpandContext
context = record { inputs = ("word", "${account.id}") ∷ []; id = some "a1"; host = none }

abbrev pieces : List Piece
pieces = plain "<" ∷ token "input:word" ∷ token "account.host" ∷ plain ">" ∷ []

written_pieces : join written pieces ≡ "<${input:word}${account.host}>"
written_pieces = refl

expands : expand_string context "$${input:word}${}${account.id" ≡ "$${account.id}${}${account.id"
unfolding expand_string resolve_token Dict.get
expands = refl

expand_string-join_example :
    expand_string context (join written pieces) ≡ join (meaning context) pieces
expand_string-join_example = expand_string-join context pieces (refl, (refl, (refl, (refl, tt))))

abbrev account : TaskAccountCandidate
account = record { id = "a1"; host = "example.com"; has_token = true }

abbrev nobody : TaskAccountCandidate
nobody = record { id = ""; host = "example.com"; has_token = true }

abbrev events : List Event
events =
    launched (task "post" true) account [] 10
    ∷ launched (task "post" true) nobody [] 20
    ∷ launched (task "post" true) account [] 30
    ∷ answered 0 (refused "down") 40
    ∷ answered 0 (responded null) 50
    ∷ pruned 100000000
    ∷ []

run-Sound_example : Sound (run events start)
run-Sound_example = run-Sound events start start-Sound

abbrev surroundings : Surroundings
surroundings = record {
  definitions = tasks;
  accounts = account ∷ [];
  active = none;
  prompt = λ n. none;
  api_request = λ a m p. responded null;
  now = 10;
  later = 20;
  during_prompts = launched (task "post" true) account [] 5 ∷ [];
  during_request = cleared ∷ launched (task "post" true) account [] 15 ∷ [];
}

run_task-Settled_example :
    Settled surroundings "post" ask start (run_task surroundings "post" ask start)
run_task-Settled_example = run_task-Settled surroundings "post" ask start start-Sound

runs_the_default : run_default tasks ≡ RunTask.run_one "post"
unfolding run_default
runs_the_default = refl
