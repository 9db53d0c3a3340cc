-- ===== src/Sessions/Examples.antt =====
-- A concrete session.
use notedeck.Prelude.{ℕ, String, true, Option, none, some, [], ◌∷◌, ◌==◌, ◌≡◌, refl, if◌then◌else◌}
use notedeck.Tasks.{
  Json, bool, natural, text, array, object, no_items, item, Fields, no_fields, field,
}
use notedeck.Sessions.{AiSession, session_fields, serialize, session_of, deserialize}
use notedeck.Sessions.Reread.{deserialize_again}

abbrev turn : String → String → Json
turn role content = object (field "role" (text role) (field "content" (text content) no_fields))

-- The second turn is a placeholder, and one field is unknown.
abbrev stored : Fields
stored = field "id" (text "s1") (
    field "messages" (array (item (turn "user" "hi") (item (turn "assistant" "") no_items))) (
      field "pinned" (bool true)
        (field "triggeredSkillIds" (array (item (text "k1") (item (text "") no_items))) no_fields)))

abbrev session : AiSession
session = record {
  schema_version = natural 1;
  id = "s1";
  kind = text "chat";
  title = "";
  model = "";
  connection_id = "";
  created_at = natural 7;
  updated_at = natural 7;
  messages = turn "user" "hi" ∷ [];
  message_count = 1;
  last_message_preview = "";
  persona_skill_id = none;
  triggered_skill_ids = some ("k1" ∷ []);
  unknown_fields = some (field "pinned" (bool true) no_fields);
}

reads : session_of (natural 7) stored ≡ session
unfolding session_of
reads = refl

-- A JSON5 that knows the stored file, and what was printed for the session.
abbrev parse_one : String → Option Json
parse_one s =
    if s == "old"
    then some (object stored)
    else some (object (session_fields (session_of (natural 7) stored)))

abbrev print_new : Json → String
print_new v = "new"

abbrev no_decimal : ℕ → String
no_decimal n = ""

printed :
    parse_one (serialize print_new (session_of (natural 7) stored))
    ≡ some (object (session_fields (session_of (natural 7) stored)))
unfolding serialize
printed = refl

deserialize_again_example :
    (deserialize parse_one no_decimal (natural 7) "old" ≡ some (session_of (natural 7) stored))
    × (deserialize parse_one no_decimal
          (natural 9)
          (serialize print_new (session_of (natural 7) stored))
        ≡ some (session_of (natural 7) stored))
deserialize_again_example =
    deserialize_again parse_one print_new no_decimal (natural 7) (natural 9) "old" stored refl
      (refl, (refl, (refl, (refl, tt)))) refl printed
