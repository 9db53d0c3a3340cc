-- ===== src/Notes/Chat.antt =====
-- services/streamUpdateMerge.ts, for the messages of a chat: what events of the stream do to one.
pub mod Balance
use Prim.Native.String.{◌++◌ as str_append}
use notedeck.Prelude.{
  ℕ, String, Bool, true, false, ◌&&◌, Option, none, some, List, [], ◌∷◌, ◌++◌, find_index,
  erase_idx, or_else, ◌==◌, if◌then◌else◌,
}
use notedeck.Notes.Updates.{same_user}

pub record ChatUser : Type 0 where
  pub id : String
  pub username : String
  pub name : Option String
  pub host : Option String
  pub avatar_url : Option String

pub record ChatReaction : Type 0 where
  pub user : Option ChatUser
  pub reaction : String

-- `body` is what the events do not touch.
pub record ChatMessage : Type 0 where
  pub body : String
  pub reactions : Option (List ChatReaction)

-- The message, the user, the reaction and the reactor.
pub data ChatMessageUpdateEvent : Type 0 where
  reacted unreacted : String → Option String → String → Option ChatUser → ChatMessageUpdateEvent
  deleted : String → ChatMessageUpdateEvent

unfoldable pub chat_update_sig : ChatMessageUpdateEvent → String
chat_update_sig (reacted m u r c) = str_append "reacted" (str_append (or_else u "") r)
chat_update_sig (unreacted m u r c) = str_append "unreacted" (str_append (or_else u "") r)
chat_update_sig (deleted m) = "deleted"

abbrev pub user_id : ChatReaction → Option String
user_id r = elim r.user [ none ↦ none | some u ↦ some u.id ]

abbrev pub is_by : Option String → String → ChatReaction → Bool
is_by user reaction r = r.reaction == reaction && same_user (user_id r) user

unfoldable pub merge_chat_update : ChatMessage → ChatMessageUpdateEvent → Option ChatMessage
merge_chat_update msg (reacted m u r reactor) = some (record msg {
  reactions = some (or_else msg.reactions [] ++ (record { user = reactor; reaction = r } ∷ []));
})
merge_chat_update msg (unreacted m u r reactor) = elim msg.reactions [
  | none ↦ none
  | some rs ↦ elim (find_index (is_by u r) rs) [
    | none ↦ none
    | some i ↦ some (record msg { reactions = some (erase_idx rs i) })
  ]
]
merge_chat_update msg (deleted m) = none
