-- ===== src/Capabilities/Confirm/Examples.antt =====
-- The theorems on the dialogs at three requests, of which two are alike.
use notedeck.Prelude.{ℕ, ◌+◌, String, true, false, some, List, [], ◌∷◌, ◌≡◌, ◌⊎◌, refl}
use notedeck.Capabilities.Dispatcher.{ConfirmDecision}
use notedeck.Capabilities.Confirm.{
  Request, ConfirmState, initial, show, confirm_with_decision, resolve, drain,
}
use notedeck.Capabilities.Confirm.Queue.{Sound, Steps, waiting, Event, ask, answer}
use notedeck.Capabilities.Confirm.Served.{run, run-Steps}
use notedeck.Capabilities.Confirm.Tally.{
  Reaches, start, step, asked, count_requests, count_answers, initial-Sound, Reaches-answered,
}

abbrev request : ℕ → String → Request
request n k = record { number = n; dedup_key = some k; text = "run?" }

abbrev yes_always : ConfirmDecision
yes_always = record { accepted = true; remember = true }

abbrev asked_thrice : ConfirmState
asked_thrice =
    run (ask (request 3 "a")) (run (ask (request 2 "b")) (run (ask (request 1 "a")) initial))

asked_thrice-Reaches :
    Reaches initial
      (ask (request 3 "a") ∷ ask (request 2 "b") ∷ ask (request 1 "a") ∷ [])
      asked_thrice
asked_thrice-Reaches =
    step (ask (request 2 "b") ∷ ask (request 1 "a") ∷ []) (ask (request 3 "a"))
      (run (ask (request 2 "b")) (run (ask (request 1 "a")) initial))
      (step (ask (request 1 "a") ∷ []) (ask (request 2 "b")) (run (ask (request 1 "a")) initial)
        (step [] (ask (request 1 "a")) initial start tt) tt)
      tt

is_shown : asked_thrice.visible ≡ true
unfolding confirm_with_decision show
is_shown = refl

abbrev events : List Event
events = answer yes_always ∷ ask (request 3 "a") ∷ ask (request 2 "b") ∷ ask (request 1 "a") ∷ []

-- The consent to the first answers the third.
Reaches-answered_example :
    (count_requests 3 (waiting (resolve yes_always asked_thrice))
        + count_answers 3 (resolve yes_always asked_thrice).answers
      ≡ asked 3 events)
    × ((waiting (resolve yes_always asked_thrice) ≡ [])
        ⊎ (((resolve yes_always asked_thrice).visible ≡ true)
            ⊎ ((resolve yes_always asked_thrice).timers ≡ 1)))
Reaches-answered_example = Reaches-answered 3 (resolve yes_always asked_thrice) events (
    step (ask (request 3 "a") ∷ ask (request 2 "b") ∷ ask (request 1 "a") ∷ []) (answer yes_always)
      asked_thrice asked_thrice-Reaches is_shown)

third_is_answered : count_answers 3 (resolve yes_always asked_thrice).answers ≡ 1
unfolding resolve confirm_with_decision show
third_is_answered = refl

asked_thrice-Sound : Sound asked_thrice
asked_thrice-Sound =
    (run-Steps (ask (request 3 "a")) (run (ask (request 2 "b")) (run (ask (request 1 "a")) initial))
      (run-Steps (ask (request 2 "b")) (run (ask (request 1 "a")) initial)
        (run-Steps (ask (request 1 "a")) initial initial-Sound tt).1 tt).1
      tt).1

run-Steps_example : Steps (answer yes_always) asked_thrice (resolve yes_always asked_thrice)
run-Steps_example = run-Steps (answer yes_always) asked_thrice asked_thrice-Sound is_shown

-- A second answer while the next dialog is awaited sets a second timer: after both, the second request
-- is neither answered nor waits.
abbrev no : ConfirmDecision
no = record { accepted = false; remember = false }

answered_twice_forgets :
    let end = drain (drain (resolve no (resolve no asked_thrice))) in
    (count_requests 2 (waiting end) ≡ 0) × (count_answers 2 end.answers ≡ 0)
unfolding resolve confirm_with_decision show drain
answered_twice_forgets = (refl, refl)
