-- ===== src/Capabilities/Confirm/Tally.antt =====
-- Every request is answered once, or waits.
use notedeck.Prelude.{
  ℕ, ◌+◌, Bool, true, not, List, [], ◌∷◌, ◌++◌, keep_if, nat_eq, ◌≡◌, ◌⊎◌, refl, arith,
  if◌then◌else◌, Bool-cases, inl, inr,
}
use notedeck.Capabilities.Dispatcher.{ConfirmDecision}
use notedeck.Capabilities.Confirm.{Request, ConfirmState, initial, same_key, grant}
use notedeck.Capabilities.Confirm.Queue.{
  shown, between, idle, Sound, Service, service, waiting, Serves, arrive, turn_away, serve,
  serve_alike, quiet, Event, ask, answer, tick,
}
use notedeck.Capabilities.Confirm.Served.{run, Allowed, run-Steps}

abbrev one : ℕ → Request → ℕ
one n r = if nat_eq r.number n then 1 else 0

abbrev pub count_requests : ℕ → List Request → ℕ
count_requests n [] = 0
count_requests n (r ∷ rs) = one n r + count_requests n rs

abbrev pub count_answers : ℕ → List (Request × ConfirmDecision) → ℕ
count_answers n [] = 0
count_answers n ((r, d) ∷ a) = one n r + count_answers n a

abbrev tally : ℕ → Service → ℕ
tally n (w, a) = count_requests n w + count_answers n a

abbrev new_one : ℕ → Event → ℕ
new_one n (ask r) = one n r
new_one n (answer d) = 0
new_one n tick = 0

count_requests-append :
    (n : ℕ) (v w : List Request)
    → count_requests n (v ++ w) ≡ count_requests n v + count_requests n w
count_requests-append n [] w = omega arith
count_requests-append n (r ∷ v) w = omega (arith, count_requests-append n v w)

count_answers-append :
    (n : ℕ) (a b : List (Request × ConfirmDecision))
    → count_answers n (a ++ b) ≡ count_answers n a + count_answers n b
count_answers-append n [] b = omega arith
count_answers-append n ((r, d) ∷ a) b = omega (arith, count_answers-append n a b)

count_answers-grant : (n : ℕ) (w : List Request) → count_answers n (grant w) ≡ count_requests n w
count_answers-grant n [] = refl
count_answers-grant n (r ∷ w) = omega (arith, count_answers-grant n w)

count_requests-keep_if :
    (n : ℕ) (p : Request → Bool) (w : List Request)
    → count_requests n (keep_if p w) + count_requests n (keep_if (λ r. not (p r)) w)
      ≡ count_requests n w
count_requests-keep_if n p [] = refl
count_requests-keep_if n p (r ∷ w) = elim (Bool-cases (p r)) [
  | inl e ↦ rw e (omega (arith, count_requests-keep_if n p w))
  | inr e ↦ rw e (omega (arith, count_requests-keep_if n p w))
]

tally-Serves :
    (n : ℕ) (e : Event) (s t : Service) → Serves e s t → tally n t ≡ tally n s + new_one n e
tally-Serves n e s t (arrive r w a) = omega (arith, count_requests-append n w (r ∷ []))
tally-Serves n e s t (turn_away r w a full) = omega arith
tally-Serves n e s t (serve r d w a h) = omega arith
tally-Serves n e s t (serve_alike r d k w a h) = omega (
  arith,
  count_answers-append n (grant (keep_if (same_key k) w)) ((r, d) ∷ a),
  count_answers-grant n (keep_if (same_key k) w),
  count_requests-keep_if n (same_key k) w,
)
tally-Serves n e s t (quiet u) = omega arith

-- The events in order, each allowed when it comes.
pub data Reaches (st : ConfirmState) : List Event → ConfirmState → Type 0 where
  start : Reaches st [] st
  step :
      (es : List Event) (e : Event) (mid : ConfirmState)
      → Reaches st es mid
      → Allowed e mid
      → Reaches st (e ∷ es) (run e mid)

abbrev pub asked : ℕ → List Event → ℕ
asked n [] = 0
asked n (e ∷ es) = new_one n e + asked n es

Reaches-Sound : (st end : ConfirmState) (es : List Event) → Sound st → Reaches st es end → Sound end
Reaches-Sound st end es s start = s
Reaches-Sound st end es s (step fs e mid r a) = (run-Steps e mid (Reaches-Sound st mid fs s r) a).1

someone_comes :
    (st : ConfirmState) → Sound st → (waiting st ≡ []) ⊎ ((st.visible ≡ true) ⊎ (st.timers ≡ 1))
someone_comes st s = elim s.phase [
  | shown r v p o d t ↦ inr (inl v)
  | between v p d t ↦ inr (inr t)
  | idle v p d t e ↦ inl (rw (p, waiting) e)
]

Reaches-tally :
    (n : ℕ) (st end : ConfirmState) (es : List Event)
    → Sound st
    → Reaches st es end
    → tally n (service end) ≡ tally n (service st) + asked n es
Reaches-tally n st end es s start = omega arith
Reaches-tally n st end es s (step fs e mid r a) =
    let before = Reaches-tally n st mid fs s r in
    let now =
      tally-Serves n e (service mid) (service (run e mid))
        (run-Steps e mid (Reaches-Sound st mid fs s r) a).0 in
    omega (arith, before, now)

pub initial-Sound : Sound initial
initial-Sound = record { phase = idle refl refl refl refl refl; bounded = omega arith }

-- Nobody is forgotten and nobody is answered twice: after any events, the user answering only a dialog
-- that is shown, each request has been answered as often as it was made, but for those that wait; and
-- if one waits, a dialog is shown or a timer is set.
pub Reaches-answered :
    (n : ℕ) (end : ConfirmState) (es : List Event)
    → Reaches initial es end
    → (count_requests n (waiting end) + count_answers n end.answers ≡ asked n es)
      × ((waiting end ≡ []) ⊎ ((end.visible ≡ true) ⊎ (end.timers ≡ 1)))
Reaches-answered n end es reached = (
  omega (arith, Reaches-tally n initial end es initial-Sound reached),
  someone_comes end (Reaches-Sound initial end es initial-Sound reached),
)
