-- ===== src/Tasks/Schema/Accepted.antt =====
-- What holds of a file that is accepted.
use notedeck.Prelude.{
  ℕ, ◌+◌, String, Bool, true, false, ◌≤◌, NoRepeat, Option, some, List, [], ◌∷◌, ◌==◌, ◌≡◌, sym,
  subst, arith, Bool-cases, inl, inr,
}
use notedeck.Tasks.{Json, member, TaskDefinition}
use notedeck.Tasks.Schema.{root, task_at, within, ok, trim, fields_of}
use notedeck.Tasks.Schema.File.{
  parse_task, tasks_from, check_ids, demote_from, enforce_single_default, parse_tasks, parsed_json,
  check_version, read_tasks, list_at,
}
use notedeck.Tasks.Schema.Valid.{
  bind-ok, ids, count_defaults, ids-demote_from, count_defaults-demote_from, check_ids-NoRepeat,
}
use notedeck.Tasks.Schema.Fits.{ok-injective, IsTask, parse_task-IsTask}

abbrev pub AllTasks : List TaskDefinition → Type 0
AllTasks [] = Unit
AllTasks (t ∷ ts) = IsTask t × AllTasks ts

tasks_from-AllTasks :
    (n : ℕ) (vs : List Json) (ts : List TaskDefinition) → tasks_from n vs ≡ ok ts → AllTasks ts
tasks_from-AllTasks n [] ts h = subst AllTasks (ok-injective h) tt
tasks_from-AllTasks n (v ∷ vs) ts h =
    let (x, p, h1) = bind-ok (parse_task v (task_at n)) _ h in
    let (xs, q, h2) = bind-ok (tasks_from (n + 1) vs) _ h1 in
    subst AllTasks (ok-injective h2)
      (parse_task-IsTask v (task_at n) x p, tasks_from-AllTasks (n + 1) vs xs q)

demote-IsTask : (t : TaskDefinition) → IsTask t → IsTask (record t { is_default = false })
demote-IsTask t w = record {
  id_fits = w.id_fits;
  labelled = w.labelled;
  detail_filled = w.detail_filled;
  icon_fits = w.icon_fits;
  group_trimmed = w.group_trimmed;
  inputs_fit = w.inputs_fit;
  method_given = w.method_given;
  presented = w.presented;
}

demote_from-AllTasks :
    (seen : Bool) (ts : List TaskDefinition) → AllTasks ts → AllTasks (demote_from seen ts)
demote_from-AllTasks seen [] a = tt
demote_from-AllTasks seen (t ∷ ts) a = elim (Bool-cases t.is_default) [
  | inr e ↦ rw e (a.0, demote_from-AllTasks seen ts a.1)
  | inl e ↦ elim (Bool-cases seen) [
    | inl s ↦ rw (e, s) (demote-IsTask t a.0, demote_from-AllTasks true ts a.1)
    | inr s ↦ rw (e, s) (a.0, demote_from-AllTasks true ts a.1)
  ]
]

-- What the schema demands of a whole file.
pub record Accepted (ts : List TaskDefinition) : Type 0 where
  pub all : AllTasks ts
  pub distinct : NoRepeat (ids ts)
  pub one_default : count_defaults ts ≤ 1

enforced :
    (ts : List TaskDefinition)
    → AllTasks ts
    → check_ids [] ts ≡ ok tt
    → Accepted (enforce_single_default ts)
unfolding enforce_single_default
enforced ts a h = record {
  all = demote_from-AllTasks false ts a;
  distinct = subst NoRepeat (sym (ids-demote_from false ts)) (check_ids-NoRepeat ts h);
  one_default = count_defaults-demote_from false ts;
}

-- Whatever JSON5 makes of a text: if it is accepted as a tasks.json5, then each of its tasks fits the
-- schema, no two of them have the same id, and at most one is the default.
pub parse_tasks-Accepted :
    (json5_parse : String → Option Json) (raw : String) (ts : List TaskDefinition)
    → parse_tasks json5_parse raw ≡ ok ts
    → Accepted ts
unfolding parse_tasks
parse_tasks-Accepted json5_parse raw ts h = elim (Bool-cases (trim raw == "")) [
  | inl e ↦
      subst Accepted (ok-injective (rw e at h))
        record { all = tt; distinct = tt; one_default = omega arith }
  | inr e ↦
      let h0 : read_tasks (json5_parse (trim raw)) ≡ ok ts = rw e at h in
      let (v, p, h1) = bind-ok (parsed_json (json5_parse (trim raw))) _ h0 in
      let (fields, p2, h2) = bind-ok (fields_of root (some v)) _ h1 in
      let (supported, p3, h3) = bind-ok (check_version (member fields "version")) _ h2 in
      let (vs, p4, h4) = bind-ok (list_at (within root "tasks") (member fields "tasks")) _ h3 in
      let (read, p5, h5) = bind-ok (tasks_from 0 vs) _ h4 in
      let (distinct, p6, h6) = bind-ok (check_ids [] read) _ h5 in
      subst Accepted (ok-injective h6) (enforced read (tasks_from-AllTasks 0 vs read p5) p6)
]
