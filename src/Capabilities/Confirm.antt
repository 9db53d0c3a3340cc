-- ===== src/Capabilities/Confirm.antt =====
-- stores/confirm.ts: the dialogs that ask the user, one after the other. A promise is the request it
-- answers; of the options the key that puts like requests together is kept, the rest is one text.
pub mod Queue
pub mod Served
pub mod Tally
mod Examples
use notedeck.Prelude.{
  ℕ, ◌+◌, ◌-◌, String, Bool, true, false, not, ◌&&◌, ◌||◌, Option, none, some, List, [], ◌∷◌, ◌++◌,
  map, length, keep_if, is_some, leb, ◌==◌, if◌then◌else◌,
}
use notedeck.Capabilities.Dispatcher.{ConfirmDecision}

-- `number` tells the calls of `confirmWithDecision` apart.
pub record Request : Type 0 where
  pub number : ℕ
  pub dedup_key : Option String
  pub text : String

-- `options` is the key of the request shown last, `timers` the timers that are set, and `answers` the
-- calls of the requests' `resolve`, the latest first.
pub record ConfirmState : Type 0 where
  pub visible : Bool
  pub options : Option String
  pub resolve_promise : Option Request
  pub queue : List Request
  pub drain_scheduled : Bool
  pub timers : ℕ
  pub answers : List (Request × ConfirmDecision)

abbrev pub initial : ConfirmState
initial = record {
  visible = false;
  options = none;
  resolve_promise = none;
  queue = [];
  drain_scheduled = false;
  timers = 0;
  answers = [];
}

abbrev pub max_queue : ℕ
max_queue = 32

abbrev pub cancelled : ConfirmDecision
cancelled = record { accepted = false; remember = false }

abbrev pub granted : ConfirmDecision
granted = record { accepted = true; remember = false }

unfoldable pub show : Request → ConfirmState → ConfirmState
show r st = record st { options = r.dedup_key; visible = true; resolve_promise = some r }

unfoldable pub confirm_with_decision : Request → ConfirmState → ConfirmState
unfolding show
confirm_with_decision r st =
    if is_some st.resolve_promise || st.drain_scheduled
    then if leb max_queue (length st.queue)
      then record st { answers = (r, cancelled) ∷ st.answers }
      else record st { queue = st.queue ++ (r ∷ []) }
    else show r st

-- `opts.dedupKey === dedupKey`
abbrev pub same_key : String → Request → Bool
same_key k r = elim r.dedup_key [ none ↦ false | some j ↦ j == k ]

-- The loop goes through the queue from its end, so that the first that it takes is answered last.
abbrev pub grant : List Request → List (Request × ConfirmDecision)
grant rs = map (λ (r : Request). (r, granted)) rs

-- `decision.accepted && decision.remember && dedupKey`: the key to spread the consent by.
abbrev pub spread_key : ConfirmDecision → Option String → Option String
spread_key d none = none
spread_key d (some k) = if d.accepted && d.remember && not (k == "") then some k else none

abbrev pub spread : Option String → ConfirmState → ConfirmState
spread none st = st
spread (some k) st = record st {
  answers = grant (keep_if (same_key k) st.queue) ++ st.answers;
  queue = keep_if (λ r. not (same_key k r)) st.queue;
}

-- `resolvePromise?.(decision)`
abbrev pub answer_for : Option Request → ConfirmDecision → ConfirmState → ConfirmState
answer_for none d st = record st { visible = false }
answer_for (some r) d st = record st {
  visible = false;
  resolve_promise = none;
  answers = (r, d) ∷ st.answers;
}

abbrev pub schedule_for : List Request → ConfirmState → ConfirmState
schedule_for [] st = st
schedule_for (r ∷ rs) st = record st { drain_scheduled = true; timers = st.timers + 1 }

unfoldable pub resolve : ConfirmDecision → ConfirmState → ConfirmState
resolve d st =
    let after = spread (spread_key d st.options) (answer_for st.resolve_promise d st) in
    schedule_for after.queue after

-- A timer runs, with what `queue.shift()` finds.
abbrev pub shift_from : List Request → ConfirmState → ConfirmState
unfolding show
shift_from [] st = st
shift_from (r ∷ rs) st = show r (record st { queue = rs })

unfoldable pub drain : ConfirmState → ConfirmState
drain st = shift_from st.queue (record st { drain_scheduled = false; timers = st.timers - 1 })
