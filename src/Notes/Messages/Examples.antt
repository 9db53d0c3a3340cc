-- ===== src/Notes/Messages/Examples.antt =====
-- Concrete messages.
use notedeck.Prelude.{
  ℕ, ◌≤◌, String, true, false, none, some, List, [], ◌∷◌, length, ◌≡◌, refl, arith,
}
use notedeck.Prelude.Dict
use notedeck.Notes.Updates.{should_apply}
use notedeck.Notes.Chat.{
  ChatMessageUpdateEvent, reacted, deleted, chat_update_sig, merge_chat_update,
}
use notedeck.Notes.Messages.{StoredMessage, MessageStore, put, apply_update, resolve}
use notedeck.Notes.Messages.Sound.{
  InOrder, Operation, put_messages, read, apply, remove_message, end_window, run_all,
  run_all-InOrder,
}
use notedeck.Notes.Messages.Events.{apply_all, apply_update_twice}

abbrev message : String → ℕ → StoredMessage
message id at = record {
  id = id;
  created_at = at;
  message = record { body = ""; reactions = none };
}

abbrev empty : MessageStore
empty = record { message_map = []; recent_sigs = []; trigger_scheduled = false; told = [] }

abbrev loaded : MessageStore
loaded = record empty { message_map = ("m1", message "m1" 1) ∷ [] }

abbrev heart : ChatMessageUpdateEvent
heart = reacted "m1" (some "u1") "❤" none

one_reaction :
    resolve (apply_update heart (apply_update heart loaded)) ("m1" ∷ "m2" ∷ [])
    ≡ record (message "m1" 1) {
      message = record {
        body = "";
        reactions = some (record { user = none; reaction = "❤" } ∷ []);
      };
    }
      ∷ []
unfolding apply_update resolve should_apply merge_chat_update chat_update_sig Dict.get Dict.put
one_reaction = refl

apply_update_twice_example :
    apply_update heart (apply_all (deleted "m2" ∷ []) (apply_update heart loaded))
    ≡ apply_all (deleted "m2" ∷ []) (apply_update heart loaded)
apply_update_twice_example = apply_update_twice heart (deleted "m2" ∷ []) loaded refl (refl, tt)

abbrev hour : List Operation
hour =
    put_messages 2 [] (message "m1" 1 ∷ message "m2" 2 ∷ []) false
    ∷ read "m1"
    ∷ apply heart
    ∷ remove_message "m2"
    ∷ end_window "m1"
    ∷ []

empty-InOrder : InOrder empty.message_map
unfolding Dict.get
empty-InOrder = (tt, λ k v e. absurd (ground (arith, e)))

run_all-InOrder_example :
    InOrder (run_all hour empty).message_map
    × (length
          (put 1 [] (message "m3" 3 ∷ message "m4" 4 ∷ []) true (run_all hour empty)).message_map
        ≤ 1)
run_all-InOrder_example =
    run_all-InOrder hour 1 [] (message "m3" 3 ∷ message "m4" 4 ∷ []) true empty
      (tt, (tt, (tt, (tt, (tt, tt))))) empty-InOrder
