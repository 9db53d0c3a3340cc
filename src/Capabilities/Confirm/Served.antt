-- ===== src/Capabilities/Confirm/Served.antt =====
-- The dialogs as a queue: who waits is served in order, once, and nobody is forgotten.
use notedeck.Prelude.{
  ◌-◌, ◌≤◌, ◌<◌, String, true, false, not, ◌||◌, Option, none, some, List, [], ◌∷◌, ◌++◌, length,
  keep_if, is_some, leb, ◌≡◌, refl, sym, ap, ◌∙◌, subst, arith, length-append, length-keep_if-le,
  Bool-cases, List-cases, inl, inr,
}
use notedeck.Capabilities.Dispatcher.{ConfirmDecision}
use notedeck.Capabilities.Confirm.{
  Request, ConfirmState, max_queue, cancelled, show, confirm_with_decision, same_key, spread_key,
  spread, answer_for, schedule_for, shift_from, resolve, drain,
}
use notedeck.Capabilities.Confirm.Queue.{
  Phase, shown, between, idle, Sound, waiting, Serves, arrive, turn_away, serve, serve_alike, quiet,
  Event, ask, answer, tick, service, Steps,
}

-- An arrival while a dialog is shown or awaited.
arrive_behind :
    (r : Request) (st : ConfirmState)
    → (is_some st.resolve_promise || st.drain_scheduled) ≡ true
    → length st.queue ≤ length (waiting st)
    → waiting (record st { queue = st.queue ++ (r ∷ []) }) ≡ waiting st ++ (r ∷ [])
    → ((q : List Request) (a : List (Request × ConfirmDecision))
        → Phase (record st { queue = q; answers = a }))
    → length st.queue ≤ max_queue
    → Steps (ask r) st (confirm_with_decision r st)
unfolding confirm_with_decision
arrive_behind r st busy longer same phase small =
    elim (Bool-cases (leb max_queue (length st.queue))) [
      | inl e ↦
          let full : max_queue ≤ length st.queue = ground arith in
          rw (busy, e)
            (
              turn_away r (waiting st) st.answers (omega (arith, full, longer)),
              record { phase = phase st.queue ((r, cancelled) ∷ st.answers); bounded = small },
            )
      | inr e ↦
          let room : length st.queue < max_queue = ground arith in
          rw (busy, e)
            (
              subst (λ w. Serves (ask r) (service st) (w, st.answers)) (sym same)
                  (arrive r (waiting st) st.answers),
              record {
                phase = phase (st.queue ++ (r ∷ [])) st.answers;
                bounded = omega (arith, room, length-append st.queue (r ∷ []));
              },
            )
    ]

as_service :
    (e : Event) (st after : ConfirmState) (w w' : List Request)
    → waiting st ≡ w
    → waiting after ≡ w'
    → Serves e (w, st.answers) (w', after.answers)
    → Serves e (service st) (service after)
as_service e st after w w' p q h =
    subst (λ v. Serves e (waiting st, st.answers) (v, after.answers)) (sym q)
      (subst (λ v. Serves e (v, st.answers) (w', after.answers)) (sym p) h)

nobody : (st : ConfirmState) → st.resolve_promise ≡ none → waiting st ≡ st.queue
nobody st p = rw (p, waiting) refl

ask_idle :
    (r : Request) (st : ConfirmState)
    → (is_some st.resolve_promise || st.drain_scheduled) ≡ false
    → confirm_with_decision r st ≡ show r st
unfolding confirm_with_decision
ask_idle r st free = rw free refl

show_idle :
    (r : Request) (st : ConfirmState)
    → st.resolve_promise ≡ none
    → st.drain_scheduled ≡ false
    → st.timers ≡ 0
    → st.queue ≡ []
    → Steps (ask r) st (show r st)
unfolding show
show_idle r st p d t e = (
  as_service (ask r) st (show r st) [] (r ∷ []) (nobody st p ∙ e) (ap (r ∷◌) e)
      (arrive r [] st.answers),
  record {
    phase = shown r refl refl refl d t;
    bounded = omega (arith, ap (λ (q : List Request). length q) e);
  },
)

ask-Steps :
    (r : Request) (st : ConfirmState) → Sound st → Steps (ask r) st (confirm_with_decision r st)
ask-Steps r st s = elim s.phase [
  | shown q v p o d t ↦
      arrive_behind r st (rw p refl) (rw (p, waiting) (omega arith)) (rw (p, waiting) refl)
        (λ w a. shown q v p o d t) s.bounded
  | between v p d t ↦
      arrive_behind r st (rw (p, d) refl) (rw (p, waiting) (omega arith)) (rw (p, waiting) refl)
        (λ w a. between v p d t) s.bounded
  | idle v p d t e ↦
      subst (Steps (ask r) st) (sym (ask_idle r st (rw (p, d) refl))) (show_idle r st p d t e)
]

drain-Steps : (st : ConfirmState) → Sound st → 0 < st.timers → Steps tick st (drain st)
unfolding drain show
drain-Steps st s pending = elim s.phase [
  | shown q v p o d t ↦ absurd (omega (arith, t, pending))
  | idle v p d t e ↦ absurd (omega (arith, t, pending))
  | between v p d t ↦ elim (List-cases st.queue) [
    | inl e ↦
        let after : ConfirmState = record st { drain_scheduled = false; timers = st.timers - 1 } in
        subst (Steps tick st) (ap (λ q. shift_from q after) (sym e)) (
          as_service tick st after st.queue st.queue (nobody st p) (nobody after p)
              (quiet (st.queue, st.answers)),
          record { phase = idle v p refl (omega (arith, t)) e; bounded = s.bounded },
        )
    | inr (r, rs, e) ↦
        let after : ConfirmState = record st { drain_scheduled = false; timers = st.timers - 1 } in
        let small = ap (λ (q : List Request). length q) e in
        subst (Steps tick st) (ap (λ q. shift_from q after) (sym e)) (
          as_service tick st (shift_from (r ∷ rs) after) (r ∷ rs) (r ∷ rs) (nobody st p ∙ e) refl
              (quiet (r ∷ rs, st.answers)),
          record {
            phase = shown r refl refl refl refl (omega (arith, t));
            bounded = omega (arith, small, s.bounded);
          },
        )
  ]
]

schedule-Sound :
    (st : ConfirmState)
    → st.visible ≡ false
    → st.resolve_promise ≡ none
    → st.drain_scheduled ≡ false
    → st.timers ≡ 0
    → length st.queue ≤ max_queue
    → Sound (schedule_for st.queue st) × (service (schedule_for st.queue st) ≡ service st)
schedule-Sound st v p d t small = elim (List-cases st.queue) [
  | inl e ↦
      subst (λ q. Sound (schedule_for q st) × (service (schedule_for q st) ≡ service st)) (sym e)
        (record { phase = idle v p d t e; bounded = small }, refl)
  | inr (r, rs, e) ↦
      subst (λ q. Sound (schedule_for q st) × (service (schedule_for q st) ≡ service st)) (sym e)
        (record { phase = between v p refl (omega (arith, t)); bounded = small }, refl)
]

-- What is left of a sound state when the dialog that is shown has been answered.
spread-quiet :
    (o : Option String) (st : ConfirmState)
    → ((spread o st).visible ≡ st.visible)
      × (((spread o st).resolve_promise ≡ st.resolve_promise)
          × (((spread o st).drain_scheduled ≡ st.drain_scheduled)
              × (((spread o st).timers ≡ st.timers)
                  × (length (spread o st).queue ≤ length st.queue))))
spread-quiet none st = (refl, (refl, (refl, (refl, omega arith))))
spread-quiet (some k) st =
    (refl, (refl, (refl, (refl, length-keep_if-le (λ r. not (same_key k r)) st.queue))))

spread-Serves :
    (d : ConfirmDecision) (r : Request) (o : Option String) (st : ConfirmState)
    → st.resolve_promise ≡ some r
    → spread_key d r.dedup_key ≡ o
    → Serves (answer d) (service st) (service (spread o (answer_for (some r) d st)))
spread-Serves d r none st p h =
    as_service (answer d) st (answer_for (some r) d st) (r ∷ st.queue) st.queue
      (rw (p, waiting) refl) refl (serve r d st.queue st.answers h)
spread-Serves d r (some k) st p h =
    as_service (answer d) st (spread (some k) (answer_for (some r) d st)) (r ∷ st.queue)
      (keep_if (λ q. not (same_key k q)) st.queue) (rw (p, waiting) refl) refl
      (serve_alike r d k st.queue st.answers h)

finish : ConfirmState → ConfirmState
finish st = schedule_for st.queue st

resolve_shown :
    (d : ConfirmDecision) (r : Request) (st : ConfirmState)
    → st.resolve_promise ≡ some r
    → st.options ≡ r.dedup_key
    → resolve d st ≡ finish (spread (spread_key d r.dedup_key) (answer_for (some r) d st))
unfolding resolve finish
resolve_shown d r st p o =
    ap (λ k. finish (spread (spread_key d k) (answer_for st.resolve_promise d st))) o
    ∙ ap (λ q. finish (spread (spread_key d r.dedup_key) (answer_for q d st))) p

resolve-Steps :
    (d : ConfirmDecision) (st : ConfirmState)
    → Sound st
    → st.visible ≡ true
    → Steps (answer d) st (resolve d st)
unfolding finish
resolve-Steps d st s up = elim s.phase [
  | idle v p c t e ↦ absurd (ground (arith, v))
  | between v p c t ↦ absurd (ground (arith, v))
  | shown r v p o c t ↦
      let key = spread_key d r.dedup_key in
      let mid = spread key (answer_for (some r) d st) in
      let (qv, (qp, (qc, (qt, ql)))) = spread-quiet key (answer_for (some r) d st) in
      let (sound, same) =
        schedule-Sound mid qv qp (qc ∙ c) (qt ∙ t) (omega (arith, ql, s.bounded)) in
      subst (Steps (answer d) st) (sym (resolve_shown d r st p o))
        (subst (Serves (answer d) (service st)) (sym same) (spread-Serves d r key st p refl), sound)
]

abbrev pub run : Event → ConfirmState → ConfirmState
run (ask r) st = confirm_with_decision r st
run (answer d) st = resolve d st
run tick st = drain st

-- The user answers a dialog that is shown, and a timer that runs was set.
abbrev pub Allowed : Event → ConfirmState → Type 0
Allowed (ask r) st = Unit
Allowed (answer d) st = st.visible ≡ true
Allowed tick st = 0 < st.timers

-- Every event that is allowed in a sound state is a step of a queue. A request joins the end, or is
-- answered as cancelled, which happens only when at least 32 wait. The user's decision is recorded as
-- the answer of the request at the head, and a consent that is to be remembered also answers those that
-- wait with the same key. A timer changes nothing. And the state stays sound: a dialog is shown for the request at the head and no timer is set, or one timer is set,
-- or nobody waits, and at most 32 stand in the queue.
pub run-Steps : (e : Event) (st : ConfirmState) → Sound st → Allowed e st → Steps e st (run e st)
run-Steps (ask r) st s a = ask-Steps r st s
run-Steps (answer d) st s a = resolve-Steps d st s a
run-Steps tick st s a = drain-Steps st s a
