-- ===== src/Tasks/Runner/Sound.antt =====
-- The runs that wait, and what every sequence of launches, answers, prunings and clearings keeps.
pub mod Kept
use notedeck.Prelude.{
  ℕ, zero, suc, ◌+◌, ◌-◌, ◌≤◌, ◌<◌, String, Bool, true, false, not, ◌&&◌, ◌||◌, Option, none, some,
  List, [], ◌∷◌, map, length, length-keep_if-le, keep_if, any, find, is_some, nat_eq, leb, ◌==◌,
  if◌then◌else◌, ◌≡◌, ◌≢◌, refl, sym, subst, ap, ◌∙◌, arith, Bool-cases, Option-cases, ◌⊎◌, inl,
  inr,
}
use notedeck.Prelude.Dict.{Dict}
use notedeck.Tasks.{Json, TaskDefinition}
use notedeck.Tasks.Runner.{
  TaskRunStatus, running, TaskRun, TaskAccountCandidate, TaskRunner, max_runs, run_ttl, is_running,
  prune_stale, update_run, take, push_run, clear, Answer, responded, refused, finish, wants,
  new_run, launch, settle, find_run,
}

-- The requests that `apiRequest` has not answered, by the ids of their runs.
pub record Machine : Type 0 where
  pub store : TaskRunner
  pub pending : List ℕ

pub data Event : Type 0 where
  launched : TaskDefinition → TaskAccountCandidate → Dict String → ℕ → Event
  answered : ℕ → Answer → ℕ → Event
  pruned : ℕ → Event
  cleared : Event

abbrev pub waits : List ℕ → ℕ → Bool
waits pending id = any (nat_eq id) pending

-- Each request is answered once.
unfoldable pub step : Event → Machine → Machine
unfolding launch settle prune_stale clear
step (launched d a inputs now) m = record {
  store = launch d a inputs now m.store;
  pending = if a.id == "" then m.pending else m.store.next_id ∷ m.pending;
}
step (answered id answer now) m =
    if waits m.pending id
    then record {
      store = settle id answer now m.store;
      pending = keep_if (λ i. not (nat_eq id i)) m.pending;
    }
    else m
step (pruned now) m = record m { store = prune_stale now m.store }
step cleared m = record m { store = clear m.store }

abbrev pub start : Machine
start = record {
  store = record { runs = []; auto_selected_run_id = none; next_id = 0; prune_timer = false };
  pending = [];
}

abbrev pub run : List Event → Machine → Machine
run [] m = m
run (e ∷ es) m = run es (step e m)

-- The ids fall, the newest run first.
abbrev pub Falling : ℕ → List TaskRun → Type 0
Falling hi [] = Unit
Falling hi (r ∷ rs) = (r.id < hi) × Falling r.id rs

-- A run is 'running' just while its request is pending, and has a time of its end just after.
abbrev pub Timely : List ℕ → List TaskRun → Type 0
Timely pending [] = Unit
Timely pending (r ∷ rs) =
    (is_running r ≡ waits pending r.id)
    × (is_some r.finished_at ≡ not (is_running r))
    × Timely pending rs

abbrev pub AllOld : ℕ → List ℕ → Type 0
AllOld hi [] = Unit
AllOld hi (i ∷ is) = (i < hi) × AllOld hi is

pub record Sound (m : Machine) : Type 0 where
  pub bounded : length m.store.runs ≤ max_runs
  pub falling : Falling m.store.next_id m.store.runs
  pub timely : Timely m.pending m.store.runs
  pub old : AllOld m.store.next_id m.pending

pub length-take : (n : ℕ) (rs : List TaskRun) → length (take n rs) ≤ n
length-take zero rs = omega arith
length-take (suc n) [] = omega arith
length-take (suc n) (r ∷ rs) = omega (arith, length-take n rs)

pub take-Falling : (n hi : ℕ) (rs : List TaskRun) → Falling hi rs → Falling hi (take n rs)
take-Falling zero hi rs f = tt
take-Falling (suc n) hi [] f = tt
take-Falling (suc n) hi (r ∷ rs) f = (f.0, take-Falling n r.id rs f.1)

pub take-Timely : (n : ℕ) (p : List ℕ) (rs : List TaskRun) → Timely p rs → Timely p (take n rs)
take-Timely zero p rs t = tt
take-Timely (suc n) p [] t = tt
take-Timely (suc n) p (r ∷ rs) t = (t.0, t.1, take-Timely n p rs t.2)

pub Falling-le : (lo hi : ℕ) (rs : List TaskRun) → lo ≤ hi → Falling lo rs → Falling hi rs
Falling-le lo hi [] le f = tt
Falling-le lo hi (r ∷ rs) le f = (omega (arith, le, f.0), f.1)

pub AllOld-le : (lo hi : ℕ) (is : List ℕ) → lo ≤ hi → AllOld lo is → AllOld hi is
AllOld-le lo hi [] le a = tt
AllOld-le lo hi (i ∷ is) le a = (omega (arith, le, a.0), AllOld-le lo hi is le a.1)

pub keep_if-AllOld : (p : ℕ → Bool) (hi : ℕ) (is : List ℕ) → AllOld hi is → AllOld hi (keep_if p is)
keep_if-AllOld p hi [] a = tt
keep_if-AllOld p hi (i ∷ is) a = elim (Bool-cases (p i)) [
  | inl e ↦ rw e (a.0, keep_if-AllOld p hi is a.1)
  | inr e ↦ rw e (keep_if-AllOld p hi is a.1)
]

pub keep_if-Falling :
    (p : TaskRun → Bool) (hi : ℕ) (rs : List TaskRun) → Falling hi rs → Falling hi (keep_if p rs)
keep_if-Falling p hi [] f = tt
keep_if-Falling p hi (r ∷ rs) f = elim (Bool-cases (p r)) [
  | inl e ↦ rw e (f.0, keep_if-Falling p r.id rs f.1)
  | inr e ↦
      rw e (Falling-le r.id hi (keep_if p rs) (omega (arith, f.0)) (keep_if-Falling p r.id rs f.1))
]

pub keep_if-Timely :
    (p : TaskRun → Bool) (is : List ℕ) (rs : List TaskRun) → Timely is rs → Timely is (keep_if p rs)
keep_if-Timely p is [] t = tt
keep_if-Timely p is (r ∷ rs) t = elim (Bool-cases (p r)) [
  | inl e ↦ rw e (t.0, t.1, keep_if-Timely p is rs t.2)
  | inr e ↦ rw e (keep_if-Timely p is rs t.2)
]
