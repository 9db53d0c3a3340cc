-- ===== src/Tasks/Runner/Sound/Kept.antt =====
-- Every event keeps the runs in order.
use notedeck.Prelude.{
  ℕ, suc, ◌+◌, ◌≤◌, String, Bool, true, false, not, ◌||◌, List, [], ◌∷◌, map, length,
  length-keep_if-le, keep_if, is_some, nat_eq, leb, ◌-◌, ◌==◌, if◌then◌else◌, ◌≡◌, refl, sym, ap,
  ◌∙◌, arith, Bool-cases, inl, inr,
}
use notedeck.Prelude.Dict.{Dict}
use notedeck.Tasks.{TaskDefinition}
use notedeck.Tasks.Runner.{
  TaskRun, TaskAccountCandidate, TaskRunner, is_running, prune_stale, update_run, take, push_run,
  clear, Answer, responded, refused, finish, wants, new_run, launch, settle, run_ttl, max_runs,
}
use notedeck.Tasks.Runner.Sound.{
  Machine, Event, launched, answered, pruned, cleared, waits, step, start, run, Falling, Timely,
  AllOld, Sound, length-take, take-Falling, take-Timely, Falling-le, AllOld-le, keep_if-AllOld,
  keep_if-Falling, keep_if-Timely,
}

abbrev pub patched : ℕ → (TaskRun → TaskRun) → List TaskRun → List TaskRun
patched id f = map (λ r. if nat_eq r.id id then f r else r)

length-patched :
    (id : ℕ) (f : TaskRun → TaskRun) (rs : List TaskRun) → length (patched id f rs) ≡ length rs
length-patched id f [] = refl
length-patched id f (r ∷ rs) = ap suc (length-patched id f rs)

pub id-finish : (a : Answer) (now : ℕ) (r : TaskRun) → (finish a now r).id ≡ r.id
unfolding finish
id-finish (responded v) now r = refl
id-finish (refused e) now r = refl

pub finish-ends :
    (a : Answer) (now : ℕ) (r : TaskRun)
    → (is_running (finish a now r) ≡ false) × (is_some (finish a now r).finished_at ≡ true)
unfolding finish
finish-ends (responded v) now r = (refl, refl)
finish-ends (refused e) now r = (refl, refl)

finish-Falling :
    (id : ℕ) (a : Answer) (now hi : ℕ) (rs : List TaskRun)
    → Falling hi rs
    → Falling hi (patched id (finish a now) rs)
finish-Falling id a now hi [] f = tt
finish-Falling id a now hi (r ∷ rs) f = elim (Bool-cases (nat_eq r.id id)) [
  | inl e ↦ let rest = finish-Falling id a now r.id rs f.1 in rw (e, id-finish a now r) (f.0, rest)
  | inr e ↦ rw e (f.0, finish-Falling id a now r.id rs f.1)
]

abbrev removed : ℕ → List ℕ → List ℕ
removed id = keep_if (λ i. not (nat_eq id i))

pub waits-removed :
    (id k : ℕ) (is : List ℕ) → waits (removed id is) k ≡ (if nat_eq k id then false else waits is k)
waits-removed id k [] = ground arith
waits-removed id k (i ∷ is) = ground (arith, waits-removed id k is)

finish-Timely :
    (id : ℕ) (a : Answer) (now : ℕ) (is : List ℕ) (rs : List TaskRun)
    → Timely is rs
    → Timely (removed id is) (patched id (finish a now) rs)
finish-Timely id a now is [] t = tt
finish-Timely id a now is (r ∷ rs) t =
    let rest = finish-Timely id a now is rs t.2 in
    let gone = waits-removed id r.id is in
    let ends = finish-ends a now r in
    elim (Bool-cases (nat_eq r.id id)) [
      | inl e ↦
          rw (e, id-finish a now r)
            (ends.0 ∙ sym (rw e at gone), ends.1 ∙ ap not (sym ends.0), rest)
      | inr e ↦ rw e (t.0 ∙ sym (rw e at gone), t.1, rest)
    ]

Timely-same :
    (p q : List ℕ) (rs : List TaskRun)
    → ((k : ℕ) → waits p k ≡ waits q k)
    → Timely p rs
    → Timely q rs
Timely-same p q [] h t = tt
Timely-same p q (r ∷ rs) h t = (t.0 ∙ h r.id, t.1, Timely-same p q rs h t.2)

pub new-waits : (hi : ℕ) (is : List ℕ) → AllOld hi is → waits is hi ≡ false
new-waits hi [] a = refl
new-waits hi (i ∷ is) a = ground (arith, new-waits hi is a.1, a.0)

removed-new :
    (n : ℕ) (is : List ℕ) → AllOld n is → (k : ℕ) → waits (removed n (n ∷ is)) k ≡ waits is k
removed-new n is a k = ground (arith, waits-removed n k (n ∷ is), new-waits n is a)

older-Timely :
    (n : ℕ) (is : List ℕ) (rs : List TaskRun) → Falling n rs → Timely is rs → Timely (n ∷ is) rs
older-Timely n is [] f t = tt
older-Timely n is (r ∷ rs) f t = (
  ground (arith, t.0, f.0),
  t.1,
  older-Timely n is rs (Falling-le r.id n rs (omega (arith, f.0)) f.1) t.2,
)

-- The runs with a new one, before its account is looked at.
abbrev pub listed : Bool → TaskRun → List TaskRun → List TaskRun
listed clears r rs = take max_runs (r ∷ (if clears then [] else rs))

module _ (d : TaskDefinition) (a : TaskAccountCandidate) (inputs : Dict String) (now : ℕ) where
  abbrev pub listed_by : TaskRunner → List TaskRun
  listed_by st =
      listed (wants (λ p. p.clear_history_on_run) false d) (new_run d a inputs now st) st.runs

  pub fields-launch :
      (st : TaskRunner)
      → ((launch d a inputs now st).runs ≡ (
          if a.id == ""
          then patched st.next_id (finish (refused "no account id") now) (listed_by st)
          else listed_by st))
        × ((launch d a inputs now st).next_id ≡ st.next_id + 1)
  unfolding launch push_run clear update_run
  fields-launch st = elim (Bool-cases (a.id == "")) [
    | inl e ↦ elim (Bool-cases (wants (λ p. p.clear_history_on_run) false d)) [
      | inl f ↦ rw (e, f) (refl, refl)
      | inr f ↦ rw (e, f) (refl, refl)
    ]
    | inr e ↦ elim (Bool-cases (wants (λ p. p.clear_history_on_run) false d)) [
      | inl f ↦ rw (e, f) (refl, refl)
      | inr f ↦ rw (e, f) (refl, refl)
    ]
  ]

record Listed (n : ℕ) (is : List ℕ) (rs : List TaskRun) : Type 0 where
  pub bounded : length rs ≤ max_runs
  pub falling : Falling (n + 1) rs
  pub timely : Timely (n ∷ is) rs

listed-Listed :
    (clears : Bool) (r : TaskRun) (is : List ℕ) (rs : List TaskRun)
    → is_running r ≡ true
    → is_some r.finished_at ≡ false
    → Falling r.id rs
    → Timely is rs
    → Listed r.id is (listed clears r rs)
listed-Listed clears r is rs runs ends f t =
    let first : waits (r.id ∷ is) r.id ≡ true = ground arith in
    let kept : Falling r.id (if clears then [] else rs)
        × Timely (r.id ∷ is) (if clears then [] else rs) =
      elim (Bool-cases clears) [
        | inl e ↦ rw e (tt, tt)
        | inr e ↦ rw e (f, older-Timely r.id is rs f t)
      ] in
    record {
      bounded = length-take max_runs (r ∷ (if clears then [] else rs));
      falling =
          take-Falling max_runs (r.id + 1) (r ∷ (if clears then [] else rs)) (omega arith, kept.0);
      timely =
          take-Timely max_runs (r.id ∷ is) (r ∷ (if clears then [] else rs))
            (runs ∙ sym first, ends ∙ ap not (sym runs), kept.1);
    }

launched-Sound :
    (d : TaskDefinition) (a : TaskAccountCandidate) (inputs : Dict String) (now : ℕ) (m : Machine)
    → Sound m
    → Sound (step (launched d a inputs now) m)
unfolding step
launched-Sound d a inputs now m s =
    let n = m.store.next_id in
    let l : Listed n m.pending (listed_by d a inputs now m.store) =
      listed-Listed (wants (λ p. p.clear_history_on_run) false d) (new_run d a inputs now m.store)
        m.pending m.store.runs refl refl s.falling s.timely in
    let eq = fields-launch d a inputs now m.store in
    let why = finish (refused "no account id") now in
    elim (Bool-cases (a.id == "")) [
      | inl e ↦ record {
        bounded = rw (eq.0, e, length-patched n why (listed_by d a inputs now m.store)) l.bounded;
        falling =
            rw (eq.0, eq.1, e)
              (finish-Falling n (refused "no account id") now (n + 1)
                (listed_by d a inputs now m.store) l.falling);
        timely =
            rw (eq.0, e)
              (Timely-same (removed n (n ∷ m.pending)) m.pending
                (patched n why (listed_by d a inputs now m.store)) (removed-new n m.pending s.old)
                (finish-Timely n (refused "no account id") now (n ∷ m.pending)
                  (listed_by d a inputs now m.store) l.timely));
        old = rw (eq.1, e) (AllOld-le n (n + 1) m.pending (omega arith) s.old);
      }
      | inr e ↦ record {
        bounded = rw (eq.0, e) l.bounded;
        falling = rw (eq.0, eq.1, e) l.falling;
        timely = rw (eq.0, e) l.timely;
        old = rw (eq.1, e) (omega arith, AllOld-le n (n + 1) m.pending (omega arith) s.old);
      }
    ]

answered-Sound :
    (id : ℕ) (a : Answer) (now : ℕ) (m : Machine) → Sound m → Sound (step (answered id a now) m)
unfolding step settle update_run
answered-Sound id a now m s = elim (Bool-cases (waits m.pending id)) [
  | inr e ↦ rw e s
  | inl e ↦ rw e record {
    bounded = rw (length-patched id (finish a now) m.store.runs) s.bounded;
    falling = finish-Falling id a now m.store.next_id m.store.runs s.falling;
    timely = finish-Timely id a now m.pending m.store.runs s.timely;
    old = keep_if-AllOld (λ i. not (nat_eq id i)) m.store.next_id m.pending s.old;
  }
]

pub step-Sound : (e : Event) (m : Machine) → Sound m → Sound (step e m)
unfolding step prune_stale clear
step-Sound (launched d a inputs now) m s = launched-Sound d a inputs now m s
step-Sound (answered id a now) m s = answered-Sound id a now m s
step-Sound (pruned now) m s =
    let stays = λ (r : TaskRun). is_running r || leb (now - run_ttl) r.started_at in
    record {
      bounded = omega (arith, s.bounded, length-keep_if-le stays m.store.runs);
      falling = keep_if-Falling stays m.store.next_id m.store.runs s.falling;
      timely = keep_if-Timely stays m.pending m.store.runs s.timely;
      old = s.old;
    }
step-Sound cleared m s = record { bounded = omega arith; falling = tt; timely = tt; old = s.old }

-- After any sequence of launches, answers, prunings and clearings there are at most MAX_RUNS runs, their
-- ids fall from the newest on and are below the next id, the requests that wait are older than it, and a
-- run is 'running' just while its request waits and has a time of its end just when it is not.
pub run-Sound : (es : List Event) (m : Machine) → Sound m → Sound (run es m)
run-Sound [] m s = s
run-Sound (e ∷ es) m s = run-Sound es (step e m) (step-Sound e m s)

pub start-Sound : Sound start
start-Sound = record { bounded = omega arith; falling = tt; timely = tt; old = tt }
