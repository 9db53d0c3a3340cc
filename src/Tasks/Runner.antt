-- ===== src/Tasks/Runner.antt =====
-- stores/taskRunner.ts and tasks/resolveAccount.ts: the runs of tasks. A run waits for the answers of
-- the prompts before it is listed, and for the answer of the server after: the parts between are
-- `launch` and `settle`, which RunTask puts together. Times are in milliseconds.
pub mod Sound
pub mod Steps
pub mod RunTask
pub mod Whole
use notedeck.Prelude.{
  ℕ, zero, suc, ◌+◌, ◌-◌, ◌*◌, String, Bool, true, false, not, ◌&&◌, ◌||◌, Option, none, some, List,
  [], ◌∷◌, ◌++◌, map, length, keep_if, any, find, includes, or_else, nat_eq, leb, ◌==◌,
  if◌then◌else◌,
}
use notedeck.Prelude.Dict
use notedeck.Prelude.Dict.{Dict}
use notedeck.Tasks.{
  Json, Fields, no_fields, object, TaskInput, TaskPresentation, AccountChoice, unset, null_account,
  named, TaskDefinition,
}
use notedeck.Tasks.Expand.{ExpandContext, expand_template}

-- `failed` is the status 'error'.
pub data TaskRunStatus : Type 0 where
  running ok failed : TaskRunStatus

pub record TaskRun : Type 0 where
  pub id : ℕ
  pub task_id : String
  pub label : String
  pub status : TaskRunStatus
  pub started_at : ℕ
  pub finished_at : Option ℕ
  pub account_id : String
  pub method : String
  pub params : Json
  pub response : Option Json
  pub error : Option String

pub record TaskAccountCandidate : Type 0 where
  pub id : String
  pub host : String
  pub has_token : Bool

pub data TaskAccountResolution : Type 0 where
  resolved : TaskAccountCandidate → TaskAccountResolution
  not_found : String → TaskAccountResolution
  no_account : TaskAccountResolution

abbrev pub or_first :
    Option TaskAccountCandidate → Option TaskAccountCandidate → TaskAccountResolution
or_first (some a) other = resolved a
or_first none (some a) = resolved a
or_first none none = no_account

unfoldable pub resolve_task_account :
    List TaskAccountCandidate → Option TaskAccountCandidate → AccountChoice → TaskAccountResolution
resolve_task_account accounts active (named id) = elim (find (λ a. a.id == id) accounts) [
  | some a ↦ resolved a
  | none ↦ not_found id
]
resolve_task_account accounts active _ = or_first active (find (λ a. a.has_token) accounts)

-- What the user is shown.
pub data Toast : Type 0 where
  unknown_task unknown_account : String → Toast
  no_usable_account : Toast
  not_an_option : String → String → Toast
  completed : String → Toast
  task_failed : String → String → Toast

-- A text is free; a choice is one of its options.
abbrev pub is_allowed : Option (List String) → String → Bool
is_allowed none value = true
is_allowed (some options) value = includes options value

-- `prompt` gives the answer to the nth question, and `none` when the user cancels it.
abbrev pub collect_from :
    (ℕ → Option String) → ℕ → List TaskInput → Dict String → Option (Dict String) × List Toast
collect_from prompt n [] out = (some out, [])
collect_from prompt n (i ∷ is) out = elim (prompt n) [
  | none ↦ (none, [])
  | some value ↦ elim (is_allowed i.options value) [
    | true ↦ collect_from prompt (n + 1) is (Dict.put out i.id value)
    | false ↦ (none, not_an_option i.prompt value ∷ [])
  ]
]

unfoldable pub collect_inputs :
    (ℕ → Option String) → Option (List TaskInput) → Option (Dict String) × List Toast
collect_inputs prompt inputs = collect_from prompt 0 (or_else inputs []) []

pub record TaskRunner : Type 0 where
  pub runs : List TaskRun
  pub auto_selected_run_id : Option ℕ
  pub next_id : ℕ
  pub prune_timer : Bool

abbrev pub max_runs : ℕ
max_runs = 200

-- RUN_TTL_MS
abbrev pub run_ttl : ℕ
run_ttl = 24 * 60 * 60 * 1000

abbrev pub is_running : TaskRun → Bool
is_running r = elim r.status [ running ↦ true | ok ↦ false | failed ↦ false ]

unfoldable pub prune_stale : ℕ → TaskRunner → TaskRunner
prune_stale now st = record st {
  runs = keep_if (λ r. is_running r || leb (now - run_ttl) r.started_at) st.runs;
}

unfoldable pub update_run : ℕ → (TaskRun → TaskRun) → TaskRunner → TaskRunner
update_run id patch st = record st {
  runs = map (λ r. if nat_eq r.id id then patch r else r) st.runs;
}

-- `arr.length = n`, if that is shorter.
abbrev pub take {ℓ} : {A : Type ℓ} → ℕ → List A → List A
take zero xs = []
take (suc n) [] = []
take (suc n) (x ∷ xs) = x ∷ take n xs

unfoldable pub push_run : TaskRun → TaskRunner → TaskRunner
push_run r st = record st { runs = take max_runs (r ∷ st.runs) }

unfoldable pub clear : TaskRunner → TaskRunner
clear st = record st { runs = [] }

-- The answer of `apiRequest`: a value, or the message of an error.
pub data Answer : Type 0 where
  responded : Json → Answer
  refused : String → Answer

unfoldable pub finish : Answer → ℕ → TaskRun → TaskRun
finish (responded v) now r = record r { status = ok; finished_at = some now; response = some v }
finish (refused e) now r = record r { status = failed; finished_at = some now; error = some e }

abbrev pub wants : (TaskPresentation → Option Bool) → Bool → TaskDefinition → Bool
wants f default d = elim d.presentation [ none ↦ default | some p ↦ or_else (f p) default ]

abbrev pub new_run : TaskDefinition → TaskAccountCandidate → Dict String → ℕ → TaskRunner → TaskRun
new_run d a inputs now st = record {
  id = st.next_id;
  task_id = d.id;
  label = d.label;
  status = running;
  started_at = now;
  finished_at = none;
  account_id = a.id;
  method = d.action.method;
  params =
      expand_template (record { inputs = inputs; id = some a.id; host = some a.host })
        (object (or_else d.action.params no_fields));
  response = none;
  error = none;
}

-- The run is listed; without the id of an account it fails at once.
unfoldable pub launch :
    TaskDefinition → TaskAccountCandidate → Dict String → ℕ → TaskRunner → TaskRunner
unfolding clear push_run update_run finish
launch d a inputs now st =
    let r = new_run d a inputs now st in
    let kept = if wants (λ p. p.clear_history_on_run) false d then clear st else st in
    let pushed = record (push_run r kept) {
      next_id = st.next_id + 1;
      auto_selected_run_id =
          if wants (λ p. p.reveal_on_run) true d then some st.next_id else st.auto_selected_run_id;
    } in
    if a.id == "" then update_run r.id (finish (refused "no account id") now) pushed else pushed

unfoldable pub settle : ℕ → Answer → ℕ → TaskRunner → TaskRunner
unfolding update_run finish
settle id answer now st = update_run id (finish answer now) st

abbrev pub find_run : ℕ → TaskRunner → Option TaskRun
find_run id st = find (λ r. nat_eq r.id id) st.runs
