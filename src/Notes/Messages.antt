-- ===== src/Notes/Messages.antt =====
-- stores/chatMessageStore.ts: the messages of all chats by their ids.
pub mod Sound
pub mod Events
mod Examples
use notedeck.Prelude.{
  ℕ, String, Bool, true, false, Option, none, some, List, [], ◌∷◌, length, leb, if◌then◌else◌,
}
use notedeck.Prelude.Dict
use notedeck.Prelude.Dict.{Dict}
use notedeck.Notes.Updates.{should_apply, expire}
use notedeck.Notes.Chat.{
  ChatMessage, ChatMessageUpdateEvent, reacted, unreacted, deleted, chat_update_sig,
  merge_chat_update,
}
use notedeck.Notes.Eviction.{evict_by_liveness}
use notedeck.Notes.Cache.{collect_live_ids}

-- A message with what the store reads of it.
pub record StoredMessage : Type 0 where
  pub id : String
  pub created_at : ℕ
  pub message : ChatMessage

-- `told` are the ids that the listeners for deleted messages have been called with, the latest first.
pub record MessageStore : Type 0 where
  pub message_map : Dict StoredMessage
  pub recent_sigs : Dict String
  pub trigger_scheduled : Bool
  pub told : List String

abbrev pub message_id : StoredMessage → String
message_id m = m.id

abbrev pub message_age : StoredMessage → ℕ
message_age m = m.created_at

abbrev pub schedule_trigger : MessageStore → MessageStore
schedule_trigger st = record st { trigger_scheduled = true }

unfoldable pub do_trigger : MessageStore → MessageStore
do_trigger st = record st { trigger_scheduled = false }

unfoldable pub evict_if_needed : ℕ → List (List String) → MessageStore → MessageStore
evict_if_needed max roots st = if leb (length st.message_map) max then st else record st {
  message_map =
      evict_by_liveness st.message_map max (collect_live_ids roots) message_age message_id;
}

unfoldable pub set_messages : Dict StoredMessage → List StoredMessage → Dict StoredMessage
set_messages m [] = m
set_messages m (x ∷ xs) = set_messages (Dict.put m x.id x) xs

unfoldable pub put :
    ℕ → List (List String) → List StoredMessage → Bool → MessageStore → MessageStore
unfolding set_messages evict_if_needed
put max roots messages skip_trigger st =
    let after =
      evict_if_needed max roots
        (record st { message_map = set_messages st.message_map messages }) in
    if skip_trigger then after else schedule_trigger after

-- The entry goes to the end of the map.
unfoldable pub get_message : String → MessageStore → Option StoredMessage × MessageStore
get_message id st = elim (Dict.get st.message_map id) [
  | none ↦ (none, st)
  | some m ↦ (some m, record st { message_map = Dict.put (Dict.delete st.message_map id) id m })
]

unfoldable pub resolve : MessageStore → List String → List StoredMessage
resolve st [] = []
resolve st (id ∷ ids) = elim (Dict.get st.message_map id) [
  | none ↦ resolve st ids
  | some m ↦ m ∷ resolve st ids
]

unfoldable pub update : String → StoredMessage → MessageStore → MessageStore
update id m st = schedule_trigger (record st { message_map = Dict.put st.message_map id m })

unfoldable pub remove : String → MessageStore → MessageStore
remove id st =
    schedule_trigger
      (record st { message_map = Dict.delete st.message_map id; told = id ∷ st.told })

-- The merged message, if the event changes it, goes into the map.
abbrev pub write_merged : String → StoredMessage → Option ChatMessage → MessageStore → MessageStore
write_merged id m none st = st
write_merged id m (some n) st =
    schedule_trigger
      (record st { message_map = Dict.put st.message_map id (record m { message = n }) })

-- The event, with what the deduplication says of it.
abbrev pub apply_checked :
    String
    → ChatMessageUpdateEvent
    → StoredMessage
    → Bool × Dict String
    → MessageStore
    → MessageStore
apply_checked id event m (false, sigs) st = st
apply_checked id event m (true, sigs) st =
    write_merged id m (merge_chat_update m.message event) (record st { recent_sigs = sigs })

abbrev pub apply_found :
    String → ChatMessageUpdateEvent → Option StoredMessage → MessageStore → MessageStore
apply_found id event none st = st
apply_found id event (some m) st =
    apply_checked id event m (should_apply st.recent_sigs id (chat_update_sig event)) st

abbrev pub apply_to : String → ChatMessageUpdateEvent → MessageStore → MessageStore
apply_to id event st = apply_found id event (Dict.get st.message_map id) st

unfoldable pub apply_update : ChatMessageUpdateEvent → MessageStore → MessageStore
unfolding remove
apply_update (deleted id) st = remove id st
apply_update (reacted id user reaction reactor) st =
    apply_to id (reacted id user reaction reactor) st
apply_update (unreacted id user reaction reactor) st =
    apply_to id (unreacted id user reaction reactor) st

-- The window of the deduplication ends for a message.
unfoldable pub expire_sig : String → MessageStore → MessageStore
expire_sig id st = record st { recent_sigs = expire st.recent_sigs id }
