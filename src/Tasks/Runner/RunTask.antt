-- ===== src/Tasks/Runner/RunTask.antt =====
-- stores/taskRunner.ts: `runTask` from its call to its result, with what happens to the runs while it
-- waits for the user and for the server, and `runDefault`.
use notedeck.Prelude.{
  ℕ, String, Bool, true, not, Option, none, some, List, [], ◌∷◌, find, keep_if, nat_eq, ◌==◌,
  if◌then◌else◌,
}
use notedeck.Prelude.Dict.{Dict}
use notedeck.Tasks.{Json, TaskDefinition}
use notedeck.Tasks.Runner.Sound.{Machine, Event, launched, answered, pruned, cleared, step, run}
use notedeck.Tasks.Runner.{
  TaskRun, TaskAccountCandidate, TaskAccountResolution, resolved, not_found, no_account,
  resolve_task_account, Toast, unknown_task, unknown_account, no_usable_account, completed,
  task_failed, collect_inputs, Answer, responded, refused, new_run, find_run,
}

-- What `runTask` reads of the other stores, of the user and of the server; the run starts and ends at
-- `now` and `later`. What others do to the runs while it waits for the user, and for the server: they
-- launch runs, get answers, prune and clear.
pub record Surroundings : Type 0 where
  pub definitions : List TaskDefinition
  pub accounts : List TaskAccountCandidate
  pub active : Option TaskAccountCandidate
  pub prompt : ℕ → Option String
  pub api_request : String → String → Json → Answer
  pub now : ℕ
  pub later : ℕ
  pub during_prompts : List Event
  pub during_request : List Event

-- `overrideInputs`: `undefined`, values, or `null`.
pub data Override : Type 0 where
  ask : Override
  values : Dict String → Override
  cancelled : Override

abbrev pub inputs_for : Surroundings → Override → TaskDefinition → Option (Dict String) × List Toast
inputs_for env ask d = collect_inputs env.prompt d.inputs
inputs_for env (values vs) d = (some vs, [])
inputs_for env cancelled d = (none, [])

abbrev pub outcome_toast : String → Answer → Toast
outcome_toast label (responded v) = completed label
outcome_toast label (refused e) = task_failed label e

abbrev pub Result : Type 0
Result = Option TaskRun × Machine × List Toast

-- The answer to a request comes to the call that made it.
abbrev pub is_for_others : ℕ → Event → Bool
is_for_others own (answered id a now) = not (nat_eq id own)
is_for_others own (launched d a inputs now) = true
is_for_others own (pruned now) = true
is_for_others own cleared = true

-- The run stands in the list, and `r` is as it was launched.
abbrev pub ask_server : Surroundings → TaskRun → Machine → Result
ask_server env r m =
    let answer = env.api_request r.account_id r.method r.params in
    let waited = run (keep_if (is_for_others r.id) env.during_request) m in
    let after = step (answered r.id answer env.later) waited in
    (find_run r.id after.store, after, outcome_toast r.label answer ∷ [])

abbrev pub run_with :
    Surroundings → TaskDefinition → TaskAccountCandidate → Dict String → Machine → Result
run_with env d a inputs m =
    let after = step (launched d a inputs env.now) m in
    if a.id == ""
    then (find_run m.store.next_id after.store, after, [])
    else ask_server env (new_run d a inputs env.now m.store) after

abbrev pub run_inputs :
    Surroundings
    → TaskDefinition
    → TaskAccountCandidate
    → Option (Dict String) × List Toast
    → Machine
    → Result
run_inputs env d a (none, toasts) m = (none, m, toasts)
run_inputs env d a (some inputs, toasts) m = run_with env d a inputs m

-- `ensurePruneTimer`.
abbrev pub with_timer : Machine → Machine
with_timer m = record m { store = record m.store { prune_timer = true } }

-- The runs when the inputs are there: only the prompts are waited for.
abbrev pub after_inputs : Surroundings → Override → Machine → Machine
after_inputs env ask m = run env.during_prompts m
after_inputs env (values vs) m = m
after_inputs env cancelled m = m

abbrev pub run_account :
    Surroundings → Override → TaskDefinition → TaskAccountResolution → Machine → Result
run_account env override d (not_found id) m = (none, m, unknown_account id ∷ [])
run_account env override d no_account m = (none, m, no_usable_account ∷ [])
run_account env override d (resolved a) m =
    run_inputs env d a (inputs_for env override d) (after_inputs env override m)

unfoldable pub run_task : Surroundings → String → Override → Machine → Result
unfolding step
run_task env id override m = elim (find (λ d. d.id == id) env.definitions) [
  | none ↦ (none, m, unknown_task id ∷ [])
  | some d ↦
      run_account env override d (resolve_task_account env.accounts env.active d.account_id)
        (with_timer m)
]

-- What `runDefault` does: it runs a task, tells that there is none, or opens the palette.
pub data DefaultAction : Type 0 where
  run_one : String → DefaultAction
  tell_none : DefaultAction
  open_palette : DefaultAction

unfoldable pub run_default : List TaskDefinition → DefaultAction
run_default definitions = elim (find (λ d. d.is_default) definitions) [
  | some d ↦ run_one d.id
  | none ↦ elim definitions [ [] ↦ tell_none | d ∷ ds ↦ open_palette ]
]
