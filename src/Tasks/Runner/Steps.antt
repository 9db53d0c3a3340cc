-- ===== src/Tasks/Runner/Steps.antt =====
-- What single events do to the runs.
use notedeck.Prelude.{
  ℕ, ◌≤◌, String, true, false, not, some, List, [], ◌∷◌, find, is_some, nat_eq, ◌==◌, if◌then◌else◌,
  ◌≡◌, refl, subst, ap, ◌∙◌, arith, Bool-cases, inl, inr,
}
use notedeck.Prelude.Dict.{Dict}
use notedeck.Tasks.{TaskDefinition}
use notedeck.Tasks.Runner.Sound.{
  Machine, Event, launched, answered, pruned, cleared, waits, step, run, Timely,
}
use notedeck.Tasks.Runner.Sound.Kept.{patched, id-finish, fields-launch, waits-removed}
use notedeck.Tasks.Runner.{
  TaskRun, is_running, TaskAccountCandidate, TaskRunner, Answer, finish, launch, settle, find_run,
  update_run, prune_stale, clear,
}

pub find-Timely :
    (p : List ℕ) (id : ℕ) (r : TaskRun) (rs : List TaskRun)
    → Timely p rs
    → find (λ x. nat_eq x.id id) rs ≡ some r
    → (r.id ≡ id) × (is_running r ≡ waits p id) × (is_some r.finished_at ≡ not (is_running r))
find-Timely p id r [] t h = absurd (ground (arith, h))
find-Timely p id r (x ∷ rs) t h = elim (Bool-cases (nat_eq x.id id)) [
  | inl e ↦
      let same : x ≡ r = ground (arith, h, e) in
      let key : x.id ≡ id = ground (arith, e) in
      subst
        (λ y.
          (y.id ≡ id) × (is_running y ≡ waits p id) × (is_some y.finished_at ≡ not (is_running y)))
        same (key, t.0 ∙ ap (waits p) key, t.1)
  | inr e ↦ find-Timely p id r rs t.2 (rw e at h)
]

pub next_id-step : (e : Event) (m : Machine) → m.store.next_id ≤ (step e m).store.next_id
unfolding step settle update_run prune_stale clear
next_id-step (launched d a inputs now) m = omega (arith, (fields-launch d a inputs now m.store).1)
next_id-step (answered id a now) m = elim (Bool-cases (waits m.pending id)) [
  | inl e ↦ rw e (omega arith)
  | inr e ↦ rw e (omega arith)
]
next_id-step (pruned now) m = omega arith
next_id-step cleared m = omega arith

pub next_id-run : (es : List Event) (m : Machine) → m.store.next_id ≤ (run es m).store.next_id
next_id-run [] m = omega arith
next_id-run (e ∷ es) m = omega (arith, next_id-step e m, next_id-run es (step e m))

pub waits-answered :
    (id : ℕ) (a : Answer) (now : ℕ) (m : Machine)
    → waits (step (answered id a now) m).pending id ≡ false
unfolding step
waits-answered id a now m = elim (Bool-cases (waits m.pending id)) [
  | inl e ↦ rw e (ground (arith, waits-removed id id m.pending))
  | inr e ↦ rw e e
]

-- The head of the list, when it is finished.
pub find-patched :
    (n : ℕ) (answer : Answer) (now : ℕ) (r : TaskRun) (rs : List TaskRun)
    → r.id ≡ n
    → find (λ x. nat_eq x.id n) (patched n (finish answer now) (r ∷ rs))
      ≡ some (finish answer now r)
find-patched n answer now r rs h =
    let here : nat_eq r.id n ≡ true = ground (arith, h) in
    let there : nat_eq (finish answer now r).id n ≡ true =
      ground (arith, h, id-finish answer now r) in
    rw (here, there) refl

pub found_in :
    (id : ℕ) (st : TaskRunner) (rs : List TaskRun) (r : TaskRun)
    → st.runs ≡ rs
    → find (λ x. nat_eq x.id id) rs ≡ some r
    → is_some (find_run id st) ≡ true
found_in id st rs r e h = ap is_some (ap (find (λ x. nat_eq x.id id)) e ∙ h)

pub answered_found :
    (n : ℕ) (answer : Answer) (now : ℕ) (m : Machine) (r : TaskRun) (rs : List TaskRun)
    → waits m.pending n ≡ true
    → m.store.runs ≡ r ∷ rs
    → r.id ≡ n
    → is_some (find_run n (step (answered n answer now) m).store) ≡ true
unfolding step settle update_run
answered_found n answer now m r rs w e h = rw w (
    found_in n (settle n answer now m.store) (patched n (finish answer now) (r ∷ rs))
      (finish answer now r) (ap (patched n (finish answer now)) e)
      (find-patched n answer now r rs h))

pub launched_lem :
    (d : TaskDefinition) (a : TaskAccountCandidate) (inputs : Dict String) (now : ℕ) (m : Machine)
    → ((step (launched d a inputs now) m).store ≡ launch d a inputs now m.store)
      × ((step (launched d a inputs now) m).pending
          ≡ (if a.id == "" then m.pending else m.store.next_id ∷ m.pending))
unfolding step
launched_lem d a inputs now m = (refl, refl)

pub first_waits : (n : ℕ) (is : List ℕ) → waits (n ∷ is) n ≡ true
first_waits n is = ground arith
