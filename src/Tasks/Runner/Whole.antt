-- ===== src/Tasks/Runner/Whole.antt =====
-- How a run of `runTask` ends, whatever others do to the runs meanwhile.
use notedeck.Prelude.{
  ℕ, ◌<◌, String, Bool, true, false, not, Option, none, some, List, [], ◌∷◌, find, keep_if, is_some,
  ◌==◌, if◌then◌else◌, ◌≡◌, ◌⊎◌, refl, ap, ◌∙◌, arith, Bool-cases, inl, inr,
}
use notedeck.Prelude.Dict.{Dict}
use notedeck.Tasks.{TaskDefinition}
use notedeck.Tasks.Runner.Sound.{Machine, Event, launched, answered, waits, step, run, Sound}
use notedeck.Tasks.Runner.Sound.Kept.{patched, fields-launch, new-waits, step-Sound, run-Sound}
use notedeck.Tasks.Runner.Steps.{
  find-Timely, next_id-step, next_id-run, waits-answered, find-patched, found_in, answered_found,
  launched_lem, first_waits,
}
use notedeck.Tasks.Runner.RunTask.{
  Surroundings, Override, ask, values, cancelled, inputs_for, outcome_toast, Result, is_for_others,
  run_with, run_inputs, with_timer, after_inputs, run_account, run_task,
}
use notedeck.Tasks.Runner.{
  TaskRun, is_running, TaskAccountCandidate, TaskAccountResolution, resolved, not_found, no_account,
  resolve_task_account, Toast, unknown_task, refused, finish, wants, new_run, find_run, take,
  TaskRunner,
}

-- A run was launched under the id `own`. Its request is answered, the result is what is listed under
-- the id now, which does not run any more and has a time of its end; and something is listed, unless
-- others did something while the server was asked.
pub record Started (env : Surroundings) (own : ℕ) (t : Result) : Type 0 where
  pub sound : Sound t.1
  pub used : own < t.1.store.next_id
  pub answered : waits t.1.pending own ≡ false
  pub listed : find_run own t.1.store ≡ t.0
  pub ended :
      (r : TaskRun)
      → t.0 ≡ some r
      → (r.id ≡ own) × (is_running r ≡ false) × (is_some r.finished_at ≡ true)
  pub undisturbed : env.during_request ≡ [] → is_some t.0 ≡ true

-- Nothing was launched: the runs are as they were, or as others left them meanwhile.
abbrev pub NotStarted : Surroundings → Override → Machine → Result → Type 0
NotStarted env override m (o, after, toasts) =
    (o ≡ none)
    × ((after ≡ m) ⊎ ((after ≡ with_timer m) ⊎ (after ≡ after_inputs env override (with_timer m))))

abbrev pub is_given : Option (Dict String) × List Toast → Bool
is_given (o, toasts) = is_some o

abbrev pub starts_with : Surroundings → Override → TaskDefinition → TaskAccountResolution → Bool
starts_with env override d (resolved a) = is_given (inputs_for env override d)
starts_with env override d (not_found id) = false
starts_with env override d no_account = false

-- The task is known, it has an account, and its inputs are given.
abbrev pub will_start : Surroundings → String → Override → Bool
will_start env id override = elim (find (λ d. d.id == id) env.definitions) [
  | none ↦ false
  | some d ↦ starts_with env override d (resolve_task_account env.accounts env.active d.account_id)
]

abbrev pub RunOutcome : Bool → Surroundings → Override → Machine → Result → Type 0
RunOutcome false env override m t = NotStarted env override m t
RunOutcome true env override m t =
    Started env (after_inputs env override (with_timer m)).store.next_id t

abbrev pub Settled : Surroundings → String → Override → Machine → Result → Type 0
Settled env id override m t = RunOutcome (will_start env id override) env override m t

started :
    (env : Surroundings) (own : ℕ) (after : Machine) (toasts : List Toast)
    → Sound after
    → own < after.store.next_id
    → waits after.pending own ≡ false
    → (env.during_request ≡ [] → is_some (find_run own after.store) ≡ true)
    → Started env own (find_run own after.store, after, toasts)
started env own after toasts s lt w u = record {
  sound = s;
  used = lt;
  answered = w;
  listed = refl;
  ended = λ r h.
      let (key, runs, ends) = find-Timely after.pending own r after.store.runs s.timely h in
      (key, runs ∙ w, ends ∙ ap not (runs ∙ w));
  undisturbed = u;
}

module _ (env : Surroundings) (d : TaskDefinition) (a : TaskAccountCandidate) (inputs : Dict String)
    (m : Machine) where
  run_without_account :
      (a.id == "") ≡ true → Sound m → Started env m.store.next_id (run_with env d a inputs m)
  run_without_account e s =
      let n = m.store.next_id in
      let (store_same, pending_same) = launched_lem d a inputs env.now m in
      let after = step (launched d a inputs env.now) m in
      let why = refused "no account id" in
      let rest =
        take 199 (if wants (λ p. p.clear_history_on_run) false d then [] else m.store.runs) in
      let r = new_run d a inputs env.now m.store in
      let fields = fields-launch d a inputs env.now m.store in
      let runs : after.store.runs ≡ patched n (finish why env.now) (r ∷ rest) =
        ap (λ (x : TaskRunner). x.runs) store_same ∙ fields.0 ∙ rw e refl in
      let idle : waits after.pending n ≡ false =
        ap (λ p. waits p n) (pending_same ∙ rw e refl) ∙ new-waits n m.pending s.old in
      let found =
        found_in n after.store (patched n (finish why env.now) (r ∷ rest)) (finish why env.now r)
          runs (find-patched n why env.now r rest refl) in
      rw e (
        started env n after [] (step-Sound (launched d a inputs env.now) m s)
          (omega (arith, fields.1, ap (λ (x : TaskRunner). x.next_id) store_same)) idle
          (λ h. found))

  run_with_account :
      (a.id == "") ≡ false → Sound m → Started env m.store.next_id (run_with env d a inputs m)
  run_with_account e s =
      let n = m.store.next_id in
      let (store_same, pending_same) = launched_lem d a inputs env.now m in
      let rest =
        take 199 (if wants (λ p. p.clear_history_on_run) false d then [] else m.store.runs) in
      let r = new_run d a inputs env.now m.store in
      let first = step (launched d a inputs env.now) m in
      let others = keep_if (is_for_others n) env.during_request in
      let waited = run others first in
      let answer = env.api_request r.account_id r.method r.params in
      let after = step (answered n answer env.later) waited in
      let fields = fields-launch d a inputs env.now m.store in
      let runs : first.store.runs ≡ r ∷ rest =
        ap (λ (x : TaskRunner). x.runs) store_same ∙ fields.0 ∙ rw e refl in
      let queued : first.pending ≡ n ∷ m.pending = pending_same ∙ rw e refl in
      let busy : waits first.pending n ≡ true =
        ap (λ p. waits p n) queued ∙ first_waits n m.pending in
      let sound =
        step-Sound (answered n answer env.later) waited
          (run-Sound others first (step-Sound (launched d a inputs env.now) m s)) in
      let used : n < after.store.next_id = omega (
        arith,
        fields.1,
        ap (λ (x : TaskRunner). x.next_id) store_same,
        next_id-run others first,
        next_id-step (answered n answer env.later) waited,
      ) in
      let kept : (es : List Event)
          → es ≡ []
          → is_some (
              find_run n
                (step (answered n answer env.later)
                  (run (keep_if (is_for_others n) es) first)).store)
            ≡ true =
        λ es h.
          ap
            (λ fs. is_some (
              find_run n
                (step (answered n answer env.later)
                  (run (keep_if (is_for_others n) fs) first)).store))
            h
          ∙ answered_found n answer env.later first r rest busy runs refl in
      rw e (
        started env n after (outcome_toast r.label answer ∷ []) sound used
          (waits-answered n answer env.later waited) (kept env.during_request))

  run_with-Started : Sound m → Started env m.store.next_id (run_with env d a inputs m)
  run_with-Started s = elim (Bool-cases (a.id == "")) [
    | inl e ↦ run_without_account e s
    | inr e ↦ run_with_account e s
  ]

after_inputs-Sound :
    (env : Surroundings) (override : Override) (m : Machine)
    → Sound m
    → Sound (after_inputs env override (with_timer m))
after_inputs-Sound env override m s =
    let timed : Sound (with_timer m) = record {
      bounded = s.bounded;
      falling = s.falling;
      timely = s.timely;
      old = s.old;
    } in
    go override timed
  where
    go : (o : Override) → Sound (with_timer m) → Sound (after_inputs env o (with_timer m))
    go ask t = run-Sound env.during_prompts (with_timer m) t
    go (values vs) t = t
    go cancelled t = t

run_inputs-Settled :
    (env : Surroundings) (override : Override) (d : TaskDefinition) (a : TaskAccountCandidate)
    (inputs : Option (Dict String) × List Toast) (m : Machine)
    → Sound m
    → RunOutcome
        (is_given inputs)
        env
        override
        m
        (run_inputs env d a inputs (after_inputs env override (with_timer m)))
run_inputs-Settled env override d a (none, toasts) m s = (refl, inr (inr refl))
run_inputs-Settled env override d a (some inputs, toasts) m s =
    run_with-Started env d a inputs (after_inputs env override (with_timer m))
      (after_inputs-Sound env override m s)

run_account-Settled :
    (env : Surroundings) (override : Override) (d : TaskDefinition) (a : TaskAccountResolution)
    (m : Machine)
    → Sound m
    → RunOutcome
        (starts_with env override d a)
        env
        override
        m
        (run_account env override d a (with_timer m))
run_account-Settled env override d (not_found id) m s = (refl, inr (inl refl))
run_account-Settled env override d no_account m s = (refl, inr (inl refl))
run_account-Settled env override d (resolved a) m s =
    run_inputs-Settled env override d a (inputs_for env override d) m s

-- `runTask`, from a state in which the runs are in order, while others launch runs, get their answers,
-- prune and clear as they like during its prompts and during its request. Unless the task is known, has
-- an account and is given its inputs, it gives no run and launches none, so that the runs are those of
-- before, or as others left them. Else it launches one, under the id that is next when the inputs are
-- there: afterwards its request is answered, the runs are in order, and the result is what is listed
-- under that id, which does not run any more and has a time of its end. The result is a run if nothing
-- else happened during the request; else it may be none, when the run was cleared, pruned or pushed out.
pub run_task-Settled :
    (env : Surroundings) (id : String) (override : Override) (m : Machine)
    → Sound m
    → Settled env id override m (run_task env id override m)
unfolding run_task
run_task-Settled env id override m s =
    elim (find (λ d. d.id == id) env.definitions)
      as (λ o.
        RunOutcome
          (elim o as (λ x. Bool) [
            | none ↦ false
            | some d ↦
                starts_with env override d
                  (resolve_task_account env.accounts env.active d.account_id)
          ])
          env override m
          (elim o as (λ x. Result) [
            | none ↦ (none, m, unknown_task id ∷ [])
            | some d ↦
                run_account env override d
                  (resolve_task_account env.accounts env.active d.account_id) (with_timer m)
          ])) [
            | none ↦ (refl, inl refl)
            | some d ↦
                run_account-Settled env override d
                  (resolve_task_account env.accounts env.active d.account_id) m s
          ]
