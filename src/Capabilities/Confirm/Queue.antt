-- ===== src/Capabilities/Confirm/Queue.antt =====
-- The queue that the dialogs stand for, and what may happen to it.
use notedeck.Prelude.{
  ◌≤◌, String, true, false, not, none, some, List, [], ◌∷◌, ◌++◌, length, keep_if, ◌≡◌,
}
use notedeck.Capabilities.Dispatcher.{ConfirmDecision}
use notedeck.Capabilities.Confirm.{
  Request, ConfirmState, max_queue, cancelled, same_key, grant, spread_key,
}

-- Either a dialog is shown, for the request that waits for its answer, and no timer is set; or none is
-- shown and one timer is set; or none is and nobody waits.
pub data Phase (st : ConfirmState) : Type 0 where
  shown :
      (r : Request)
      → st.visible ≡ true
      → st.resolve_promise ≡ some r
      → st.options ≡ r.dedup_key
      → st.drain_scheduled ≡ false
      → st.timers ≡ 0
      → Phase st
  between :
      st.visible ≡ false
      → st.resolve_promise ≡ none
      → st.drain_scheduled ≡ true
      → st.timers ≡ 1
      → Phase st
  idle :
      st.visible ≡ false
      → st.resolve_promise ≡ none
      → st.drain_scheduled ≡ false
      → st.timers ≡ 0
      → st.queue ≡ []
      → Phase st

pub record Sound (st : ConfirmState) : Type 0 where
  pub phase : Phase st
  pub bounded : length st.queue ≤ max_queue

-- Who waits, in order.
abbrev pub waiting : ConfirmState → List Request
waiting st = elim st.resolve_promise [ none ↦ st.queue | some r ↦ r ∷ st.queue ]

-- The queue that the dialogs stand for: who waits, and the answers given, the latest first.
abbrev pub Service : Type 0
Service = List Request × List (Request × ConfirmDecision)

-- What happens to the dialogs: a call of `confirmWithDecision`, the user's answer, a timer.
pub data Event : Type 0 where
  ask : Request → Event
  answer : ConfirmDecision → Event
  tick : Event

-- What an event may do to it. An arrival joins the end, or is turned away when as many wait as the
-- queue holds; an answer is the answer of the head, and a consent that is to be remembered also serves
-- those that wait with the same key; a timer changes nothing.
pub data Serves : Event → Service → Service → Type 0 where
  arrive :
      (r : Request) (w : List Request) (a : List (Request × ConfirmDecision))
      → Serves (ask r) (w, a) (w ++ (r ∷ []), a)
  turn_away :
      (r : Request) (w : List Request) (a : List (Request × ConfirmDecision))
      → max_queue ≤ length w
      → Serves (ask r) (w, a) (w, (r, cancelled) ∷ a)
  serve :
      (r : Request) (d : ConfirmDecision) (w : List Request) (a : List (Request × ConfirmDecision))
      → spread_key d r.dedup_key ≡ none
      → Serves (answer d) (r ∷ w, a) (w, (r, d) ∷ a)
  serve_alike :
      (r : Request) (d : ConfirmDecision) (k : String) (w : List Request)
      (a : List (Request × ConfirmDecision))
      → spread_key d r.dedup_key ≡ some k
      → Serves
          (answer d)
          (r ∷ w, a)
          (keep_if (λ q. not (same_key k q)) w, grant (keep_if (same_key k) w) ++ ((r, d) ∷ a))
  quiet : (s : Service) → Serves tick s s

abbrev pub service : ConfirmState → Service
service st = (waiting st, st.answers)

-- What a step of the dialogs must be: the queue goes on, and the state stays sound.
abbrev pub Steps : Event → ConfirmState → ConfirmState → Type 0
Steps e st after = Serves e (service st) (service after) × Sound after
