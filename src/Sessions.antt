-- ===== src/Sessions.antt =====
-- services/aiSessionCodec.ts: the files of the sessions of the AI. `JSON5.parse` and `JSON.stringify` are
-- parameters; numbers of the file stay the values that they are.
pub mod Keys
pub mod Readable
pub mod Reread
mod Examples
use Prim.Native.String.{◌++◌ as str_append}
use notedeck.Prelude.{
  ℕ, zero, suc, ◌+◌, String, Bool, true, false, not, ◌&&◌, ◌||◌, Option, none, some, List, [], ◌∷◌,
  length, keep_if, includes, nat_eq, ◌==◌, if◌then◌else◌,
}
use notedeck.Tasks.{
  Json, null, bool, natural, text, array, object, Items, no_items, item, items_of, Fields,
  no_fields, field, member,
}

pub record AiSession : Type 0 where
  pub schema_version : Json
  pub id : String
  pub kind : Json
  pub title : String
  pub model : String
  pub connection_id : String
  pub created_at : Json
  pub updated_at : Json
  pub messages : List Json
  pub message_count : ℕ
  pub last_message_preview : String
  pub persona_skill_id : Option String
  pub triggered_skill_ids : Option (List String)
  pub unknown_fields : Option Fields

abbrev pub known_fields : List String
known_fields =
    "schemaVersion" ∷ "id" ∷ "kind" ∷ "title" ∷ "model" ∷ "connectionId" ∷ "createdAt" ∷ "updatedAt"
    ∷ "messages" ∷ "personaSkillId" ∷ "triggeredSkillIds" ∷ []

abbrev pub is_known : String → Bool
is_known k = includes known_fields k

-- `if (v)`; the numbers that count as false are 0, -0 and NaN.
abbrev pub is_truthy : Json → Bool
is_truthy null = false
is_truthy (bool b) = b
is_truthy (natural n) = not (nat_eq n 0)
is_truthy (Json.other s) = not (s == "NaN" || s == "-0")
is_truthy (text s) = not (s == "")
is_truthy (array vs) = true
is_truthy (object fs) = true

abbrev pub is_truthy_option : Option Json → Bool
is_truthy_option none = false
is_truthy_option (some v) = is_truthy v

-- `m?.[key]`
abbrev pub member_of : Json → String → Option Json
member_of (object fs) k = member fs k
member_of _ k = none

abbrev pub is_assistant : Option Json → Bool
is_assistant (some (text s)) = s == "assistant"
is_assistant _ = false

abbrev pub is_placeholder : Json → Bool
is_placeholder m =
    is_assistant (member_of m "role")
    && not (is_truthy_option (member_of m "content"))
    && not (is_truthy_option (member_of m "toolUseId"))

abbrev pub json_items : List Json → Items
json_items [] = no_items
json_items (v ∷ vs) = item v (json_items vs)

abbrev pub text_items : List String → Items
text_items [] = no_items
text_items (s ∷ ss) = item (text s) (text_items ss)

-- `out[k] = v`
abbrev pub set_field : Fields → String → Json → Fields
set_field no_fields k v = field k v no_fields
set_field (field j w fs) k v =
    let rest = set_field fs k v in if j == k then field j v fs else field j w rest

abbrev pub set_fields : Fields → Fields → Fields
set_fields out no_fields = out
set_fields out (field k v fs) = set_fields (set_field out k v) fs

abbrev pub set_persona : Option String → Fields → Fields
set_persona none out = out
set_persona (some s) out = if s == "" then out else set_field out "personaSkillId" (text s)

abbrev pub set_triggered : Option (List String) → Fields → Fields
set_triggered none out = out
set_triggered (some []) out = out
set_triggered (some (s ∷ ss)) out = set_field out "triggeredSkillIds" (array (text_items (s ∷ ss)))

abbrev pub set_unknown : Option Fields → Fields → Fields
set_unknown none out = out
set_unknown (some fs) out = set_fields out fs

abbrev pub base_fields : AiSession → Fields
base_fields s = field "schemaVersion" s.schema_version (
    field "id" (text s.id) (
      field "kind" s.kind (
        field "title" (text s.title) (
          field "model" (text s.model) (
            field "connectionId" (text s.connection_id) (
              field "createdAt" s.created_at (
                field "updatedAt" s.updated_at
                  (field "messages" (array (json_items s.messages)) no_fields))))))))

unfoldable pub session_fields : AiSession → Fields
session_fields s =
    set_unknown s.unknown_fields
      (set_triggered s.triggered_skill_ids (set_persona s.persona_skill_id (base_fields s)))

unfoldable pub serialize : (Json → String) → AiSession → String
unfolding session_fields
serialize stringify s = str_append (stringify (object (session_fields s))) "\n"

abbrev pub list_or_empty : Option Json → List Json
list_or_empty (some (array vs)) = items_of vs
list_or_empty _ = []

abbrev pub number_or : Option Json → Json → Json
number_or (some (natural n)) d = natural n
number_or (some (Json.other s)) d = Json.other s
number_or _ d = d

abbrev pub text_or_empty : Option Json → String
text_or_empty (some (text s)) = s
text_or_empty _ = ""

abbrev pub truthy_or : Option Json → Json → Json
truthy_or none d = d
truthy_or (some v) d = if is_truthy v then v else d

abbrev pub skill_id : Option Json → Option String
skill_id (some (text s)) = if s == "" then none else some s
skill_id _ = none

abbrev pub texts_in : List Json → List String
texts_in [] = []
texts_in (text s ∷ vs) = let rest = texts_in vs in if s == "" then rest else s ∷ rest
texts_in (_ ∷ vs) = texts_in vs

abbrev pub unless_empty : List String → Option (List String)
unless_empty [] = none
unless_empty (s ∷ ss) = some (s ∷ ss)

abbrev pub unknown_of : Fields → Fields
unknown_of no_fields = no_fields
unknown_of (field k v fs) = let rest = unknown_of fs in if is_known k then rest else field k v rest

abbrev pub unless_no_fields : Fields → Option Fields
unless_no_fields no_fields = none
unless_no_fields (field k v fs) = some (field k v fs)

abbrev pub kept_messages : Option Json → List Json
kept_messages v = keep_if (λ m. not (is_placeholder m)) (list_or_empty v)

unfoldable pub session_of : Json → Fields → AiSession
session_of now r = record {
  schema_version = number_or (member r "schemaVersion") (natural 1);
  id = text_or_empty (member r "id");
  kind = truthy_or (member r "kind") (text "chat");
  title = text_or_empty (member r "title");
  model = text_or_empty (member r "model");
  connection_id = text_or_empty (member r "connectionId");
  created_at = number_or (member r "createdAt") now;
  updated_at = number_or (member r "updatedAt") now;
  messages = kept_messages (member r "messages");
  message_count = length (kept_messages (member r "messages"));
  last_message_preview = "";
  persona_skill_id = skill_id (member r "personaSkillId");
  triggered_skill_ids = unless_empty (texts_in (list_or_empty (member r "triggeredSkillIds")));
  unknown_fields = unless_no_fields (unknown_of r);
}

-- The elements of an array under their indices, which are its fields.
abbrev pub indexed : (ℕ → String) → ℕ → Items → Fields
indexed decimal n no_items = no_fields
indexed decimal n (item v vs) = field (decimal n) v (indexed decimal (n + 1) vs)

unfoldable pub deserialize :
    (String → Option Json) → (ℕ → String) → Json → String → Option AiSession
unfolding session_of
deserialize json5_parse decimal now raw = elim (json5_parse raw) [
  | some (object r) ↦ some (session_of now r)
  | some (array vs) ↦ some (session_of now (indexed decimal 0 vs))
  | some v ↦ none
  | none ↦ none
]
