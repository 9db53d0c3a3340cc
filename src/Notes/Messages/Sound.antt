-- ===== src/Notes/Messages/Sound.antt =====
-- What every sequence of operations on the messages keeps.
use notedeck.Prelude.{
  ℕ, ◌≤◌, String, Bool, true, false, Option, none, some, List, [], ◌∷◌, length, leb, ◌≡◌, refl, sym,
  ap, ◌∙◌, arith, Bool-cases, Option-cases, String-cases, inl, inr,
}
use notedeck.Prelude.Dict
use notedeck.Prelude.Dict.{Dict, Distinct}
use notedeck.Notes.Updates.{should_apply}
use notedeck.Notes.Chat.{
  ChatMessage, ChatMessageUpdateEvent, reacted, unreacted, deleted, chat_update_sig,
  merge_chat_update,
}
use notedeck.Notes.Eviction.Ages.{Keyed}
use notedeck.Notes.Eviction.Outcome.{evict_by_liveness-Evicted, evict_by_liveness-Distinct}
use notedeck.Notes.Cache.{collect_live_ids}
use notedeck.Notes.Messages.{
  StoredMessage, MessageStore, message_id, message_age, do_trigger, evict_if_needed, set_messages,
  put, get_message, update, remove, write_merged, apply_checked, apply_found, apply_to,
  apply_update, expire_sig,
}

-- No id stands twice, and every message stands under its id.
abbrev pub InOrder : Dict StoredMessage → Type 0
InOrder m = Distinct m × Keyed message_id m

pub data Operation : Type 0 where
  put_messages : ℕ → List (List String) → List StoredMessage → Bool → Operation
  read : String → Operation
  update_message : String → StoredMessage → Operation
  remove_message : String → Operation
  apply : ChatMessageUpdateEvent → Operation
  end_window : String → Operation
  trigger : Operation

unfoldable pub run : Operation → MessageStore → MessageStore
unfolding put get_message update remove apply_update expire_sig do_trigger
run (put_messages max roots ms skip) st = put max roots ms skip st
run (read id) st = (get_message id st).1
run (update_message id m) st = update id m st
run (remove_message id) st = remove id st
run (apply event) st = apply_update event st
run (end_window id) st = expire_sig id st
run trigger st = do_trigger st

-- An update is stored under the id of its message.
abbrev pub Allowed : Operation → Type 0
Allowed (update_message id m) = m.id ≡ id
Allowed _ = Unit

put-InOrder :
    (m : Dict StoredMessage) (id : String) (x : StoredMessage)
    → x.id ≡ id
    → InOrder m
    → InOrder (Dict.put m id x)
put-InOrder m id x p h = (
  Dict.put-Distinct m id x h.0,
  λ k v e. elim (String-cases id k) [
    | inl (q, f) ↦
        let same : x ≡ v = ground (arith, Dict.get-put m id k x, e, f) in
        ap message_id (sym same) ∙ p ∙ q
    | inr (q, f) ↦ h.1 k v (sym (rw f at (Dict.get-put m id k x)) ∙ e)
  ],
)

delete-InOrder : (m : Dict StoredMessage) (id : String) → InOrder m → InOrder (Dict.delete m id)
delete-InOrder m id h =
    (Dict.delete-Distinct m id h.0, λ k v e. h.1 k v (ground (arith, Dict.get-delete m id k, e)))

set_messages-InOrder :
    (xs : List StoredMessage) (m : Dict StoredMessage) → InOrder m → InOrder (set_messages m xs)
unfolding set_messages
set_messages-InOrder [] m h = h
set_messages-InOrder (x ∷ xs) m h =
    set_messages-InOrder xs (Dict.put m x.id x) (put-InOrder m x.id x refl h)

evict-InOrder :
    (max : ℕ) (roots : List (List String)) (st : MessageStore)
    → InOrder st.message_map
    → InOrder (evict_if_needed max roots st).message_map
      × (length (evict_if_needed max roots st).message_map ≤ max)
unfolding evict_if_needed
evict-InOrder max roots st h =
    let live = collect_live_ids roots in
    let done = evict_by_liveness-Evicted st.message_map max live message_age message_id h.0 h.1 in
    elim (Bool-cases (leb (length st.message_map) max)) [
      | inl e ↦ rw e (h, ground (arith, e))
      | inr e ↦ rw e (
        (
          evict_by_liveness-Distinct st.message_map max live message_age message_id h.0,
          λ k v g. h.1 k v (done.kept k v g),
        ),
        done.bounded,
      )
    ]

-- Whatever the bound, the roots and the batch, after `put` there are no more messages than the bound, no
-- id stands twice, and every message stands under its id, if the last two held before.
pub put-InOrder_bounded :
    (max : ℕ) (roots : List (List String)) (ms : List StoredMessage) (skip : Bool)
    (st : MessageStore)
    → InOrder st.message_map
    → InOrder (put max roots ms skip st).message_map
      × (length (put max roots ms skip st).message_map ≤ max)
unfolding put
put-InOrder_bounded max roots ms skip st h =
    let done =
      evict-InOrder max roots (record st { message_map = set_messages st.message_map ms })
        (set_messages-InOrder ms st.message_map h) in
    elim (Bool-cases skip) [ inl e ↦ rw e done | inr e ↦ rw e done ]

write_merged-InOrder :
    (id : String) (m : StoredMessage) (n : Option ChatMessage) (st : MessageStore)
    → m.id ≡ id
    → InOrder st.message_map
    → InOrder (write_merged id m n st).message_map
write_merged-InOrder id m none st p h = h
write_merged-InOrder id m (some n) st p h =
    put-InOrder st.message_map id (record m { message = n }) p h

apply_checked-InOrder :
    (id : String) (event : ChatMessageUpdateEvent) (m : StoredMessage) (s : Bool × Dict String)
    (st : MessageStore)
    → m.id ≡ id
    → InOrder st.message_map
    → InOrder (apply_checked id event m s st).message_map
apply_checked-InOrder id event m (false, sigs) st p h = h
apply_checked-InOrder id event m (true, sigs) st p h =
    write_merged-InOrder id m (merge_chat_update m.message event) (record st { recent_sigs = sigs })
      p h

apply_to-InOrder :
    (id : String) (event : ChatMessageUpdateEvent) (st : MessageStore)
    → InOrder st.message_map
    → InOrder (apply_to id event st).message_map
apply_to-InOrder id event st h = found (Dict.get st.message_map id) (λ m e. h.1 id m e)
  where
    found :
        (o : Option StoredMessage)
        → ((m : StoredMessage) → o ≡ some m → m.id ≡ id)
        → InOrder (apply_found id event o st).message_map
    found none p = h
    found (some m) p =
        apply_checked-InOrder id event m (should_apply st.recent_sigs id (chat_update_sig event)) st
          (p m refl) h

get_message-InOrder :
    (id : String) (st : MessageStore)
    → InOrder st.message_map
    → InOrder (get_message id st).1.message_map
unfolding get_message
get_message-InOrder id st h = elim (Option-cases (Dict.get st.message_map id)) [
  | inl e ↦ rw (e, get_message) h
  | inr (m, e) ↦
      rw (e, get_message)
        (put-InOrder (Dict.delete st.message_map id) id m (h.1 id m e)
          (delete-InOrder st.message_map id h))
]

run-InOrder :
    (o : Operation) (st : MessageStore)
    → Allowed o
    → InOrder st.message_map
    → InOrder (run o st).message_map
unfolding run update remove apply_update expire_sig do_trigger
run-InOrder (put_messages max roots ms skip) st a h = (put-InOrder_bounded max roots ms skip st h).0
run-InOrder (read id) st a h = get_message-InOrder id st h
run-InOrder (update_message id m) st a h = put-InOrder st.message_map id m a h
run-InOrder (remove_message id) st a h = delete-InOrder st.message_map id h
run-InOrder (apply (deleted id)) st a h = delete-InOrder st.message_map id h
run-InOrder (apply (reacted id u r c)) st a h = apply_to-InOrder id (reacted id u r c) st h
run-InOrder (apply (unreacted id u r c)) st a h = apply_to-InOrder id (unreacted id u r c) st h
run-InOrder (end_window id) st a h = h
run-InOrder trigger st a h = h

abbrev pub run_all : List Operation → MessageStore → MessageStore
run_all [] st = st
run_all (o ∷ os) st = run_all os (run o st)

abbrev pub AllAllowed : List Operation → Type 0
AllAllowed [] = Unit
AllAllowed (o ∷ os) = Allowed o × AllAllowed os

-- After any sequence of operations that updates messages under their ids, no id stands twice and every
-- message stands under its id, and after a `put` at its end there are no more messages than its bound,
-- whatever the roots.
pub run_all-InOrder :
    (os : List Operation) (max : ℕ) (roots : List (List String)) (ms : List StoredMessage)
    (skip : Bool) (st : MessageStore)
    → AllAllowed os
    → InOrder st.message_map
    → InOrder (run_all os st).message_map
      × (length (put max roots ms skip (run_all os st)).message_map ≤ max)
run_all-InOrder [] max roots ms skip st a h = (h, (put-InOrder_bounded max roots ms skip st h).1)
run_all-InOrder (o ∷ os) max roots ms skip st a h =
    run_all-InOrder os max roots ms skip (run o st) a.1 (run-InOrder o st a.0 h)
