-- ===== src/Tasks/Store/Reload.antt =====
-- The file that `persist` writes, read again.
use notedeck.Prelude.{
  ℕ, ◌+◌, ◌≤◌, String, Bool, true, false, none, some, List, [], ◌∷◌, includes, includes-append, add,
  NoRepeat, ◌==◌, if◌then◌else◌, ◌≡◌, refl, ap, ◌∙◌, arith, eq_iff, Bool-cases, inl, inr,
}
use notedeck.Tasks.{items_of, TaskDefinition}
use notedeck.Tasks.Schema.{task_at, ok, trim}
use notedeck.Tasks.Schema.File.{
  demote_from, enforce_single_default, tasks_from, check_ids, parse_tasks, read_tasks,
}
use notedeck.Tasks.Schema.Valid.{ids, count_defaults}
use notedeck.Tasks.Schema.Accepted.{AllTasks, Accepted, parse_tasks-Accepted}
use notedeck.Tasks.Schema.Reread.{parse_task-task_json, bind_ok}
use notedeck.Tasks.Store.{
  Json5, TasksStore, task_items, payload, content, persist, set_from_raw, has_other_version, load,
  init,
}

reread_tasks :
    (n : ℕ) (ts : List TaskDefinition)
    → AllTasks ts
    → tasks_from n (items_of (task_items ts)) ≡ ok ts
reread_tasks n [] a = refl
reread_tasks n (t ∷ ts) a =
    bind_ok _ (parse_task-task_json t (task_at n) a.0)
      (bind_ok _ (reread_tasks (n + 1) ts a.1) refl)

-- No id of the tasks is among those seen.
Fresh : List String → List TaskDefinition → Type 0
Fresh seen [] = Unit
Fresh seen (t ∷ ts) = (includes seen t.id ≡ false) × Fresh seen ts

add-Fresh :
    (seen : List String) (x : String) (ts : List TaskDefinition)
    → includes (ids ts) x ≡ false
    → Fresh seen ts
    → Fresh (add seen x) ts
unfolding Fresh
add-Fresh seen x [] h f = tt
add-Fresh seen x (t ∷ ts) h f = (
  ground (arith, h, f.0, includes-append seen (x ∷ []) t.id, eq_iff t.id x, eq_iff x t.id),
  add-Fresh seen x ts (ground (arith, h)) f.1,
)

check_ids-Fresh :
    (seen : List String) (ts : List TaskDefinition)
    → NoRepeat (ids ts)
    → Fresh seen ts
    → check_ids seen ts ≡ ok tt
unfolding Fresh
check_ids-Fresh seen [] d f = refl
check_ids-Fresh seen (t ∷ ts) d f =
    let rest : check_ids (add seen t.id) ts ≡ ok tt =
      check_ids-Fresh (add seen t.id) ts d.1 (add-Fresh seen t.id ts d.0 f.1) in
    ground (arith, rest, f.0)

Fresh-empty : (ts : List TaskDefinition) → Fresh [] ts
unfolding Fresh
Fresh-empty [] = tt
Fresh-empty (t ∷ ts) = (refl, Fresh-empty ts)

-- A task that is no default stays, and the first default stays.
keep_task :
    (b seen : Bool) (t : TaskDefinition) (ts below above : List TaskDefinition)
    → (b ≡ true → (seen ≡ false) × (above ≡ ts))
    → (b ≡ false → below ≡ ts)
    → (elim b as (λ x. List TaskDefinition) [
      | false ↦ t ∷ below
      | true ↦ elim seen [ true ↦ record t { is_default = false } ∷ above | false ↦ t ∷ above ]
    ])
      ≡ t ∷ ts
keep_task false seen t ts below above p q = ap (λ r. t ∷ r) (q refl)
keep_task true true t ts below above p q = absurd (ground (arith, (p refl).0))
keep_task true false t ts below above p q = ap (λ r. t ∷ r) (p refl).1

demote_from-fixed :
    (seen : Bool) (ts : List TaskDefinition)
    → count_defaults ts ≤ (if seen then 0 else 1)
    → demote_from seen ts ≡ ts
demote_from-fixed seen [] h = refl
demote_from-fixed seen (t ∷ ts) h =
    keep_task t.is_default seen t ts (demote_from seen ts) (demote_from true ts)
      (λ e. (ground (arith, h, e), demote_from-fixed true ts (ground (arith, h, e))))
      (λ e. demote_from-fixed seen ts (ground (arith, h, e)))

read_tasks-payload :
    (ts : List TaskDefinition) → Accepted ts → read_tasks (some (payload ts)) ≡ ok ts
unfolding payload enforce_single_default
read_tasks-payload ts a = bind_ok _ (reread_tasks 0 ts a.all) (
    bind_ok _ (check_ids-Fresh [] ts a.distinct (Fresh-empty ts))
      (ap ok (demote_from-fixed false ts a.one_default)))

-- The tasks of an accepted file, written by `persist` and read again, are the same, if the text that
-- JSON5 prints for them is not blank and is parsed to what was printed.
pub parse_tasks-content :
    (json5 : Json5) (raw : String) (ts : List TaskDefinition)
    → parse_tasks json5.parse raw ≡ ok ts
    → (trim (content json5 ts) == "") ≡ false
    → json5.parse (trim (content json5 ts)) ≡ some (payload ts)
    → parse_tasks json5.parse (content json5 ts) ≡ ok ts
unfolding parse_tasks
parse_tasks-content json5 raw ts h dark printed =
    rw dark
      (ap read_tasks printed ∙ read_tasks-payload ts (parse_tasks-Accepted json5.parse raw ts h))

-- The store after a file with these tasks was read, and after the file was also written anew.
abbrev pub loaded : List TaskDefinition → TasksStore → TasksStore
loaded ts st = record st { definitions = ts; initialized = true; last_error = none }

abbrev pub migrated : Json5 → List TaskDefinition → TasksStore → TasksStore
migrated json5 ts st = record (loaded ts st) { written = content json5 ts ∷ st.written }

module _ (json5 : Json5) (defaults file : String) (st : TasksStore) (ts : List TaskDefinition) where
  init_lem :
      (trim file == "") ≡ false
      → parse_tasks json5.parse file ≡ ok ts
      → init json5 true defaults (some file) st
        ≡ (if has_other_version json5 file then migrated json5 ts st else loaded ts st)
  unfolding init load set_from_raw persist
  init_lem lit h = elim (Bool-cases (has_other_version json5 file)) [
    | inl e ↦ rw (lit, e) (rw h refl)
    | inr e ↦ rw (lit, e) (rw h refl)
  ]

has_other_version-payload :
    (json5 : Json5) (s : String) (ts : List TaskDefinition)
    → json5.parse s ≡ some (payload ts)
    → has_other_version json5 s ≡ false
unfolding has_other_version payload
has_other_version-payload json5 s ts h = rw (h, has_other_version) refl

-- A start of the desktop that reads an accepted file of another version takes over its tasks and writes
-- them in the version of today. The next start, from any state of the store, reads what was written and
-- has exactly these tasks and no error, and writes nothing. The file is not blank, nor is the text that
-- JSON5 prints for the tasks, and that text is parsed to what was printed, with the white space around it
-- and without.
pub init_again :
    (json5 : Json5) (defaults file : String) (st fresh : TasksStore) (ts : List TaskDefinition)
    → (trim file == "") ≡ false
    → parse_tasks json5.parse file ≡ ok ts
    → has_other_version json5 file ≡ true
    → (trim (content json5 ts) == "") ≡ false
    → json5.parse (content json5 ts) ≡ some (payload ts)
    → json5.parse (trim (content json5 ts)) ≡ some (payload ts)
    → (init json5 true defaults (some file) st ≡ migrated json5 ts st)
      × (init json5 true defaults (some (content json5 ts)) fresh ≡ loaded ts fresh)
init_again json5 defaults file st fresh ts lit h other dark printed printed_trim = (
  rw other at (init_lem json5 defaults file st ts lit h),
  rw (has_other_version-payload json5 (content json5 ts) ts printed) at (
      init_lem json5 defaults (content json5 ts) fresh ts dark
        (parse_tasks-content json5 file ts h dark printed_trim)),
)
