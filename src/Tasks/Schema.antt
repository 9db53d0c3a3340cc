-- ===== src/Tasks/Schema.antt =====
-- tasks/schema.ts: how tasks.json5 is read. `JSON5.parse` is a parameter; an error keeps its place and
-- its kind, not the words of its message.
pub mod File
pub mod Valid
pub mod Fits
pub mod Accepted
pub mod Written
pub mod Reread
use Prim.Native.Char.{code}
use notedeck.Prelude.{
  ℕ, zero, suc, ◌+◌, String, Bool, true, false, not, ◌&&◌, ◌||◌, Option, none, some, List, [], ◌∷◌,
  ◌++◌, is_some, every, includes, leb, nat_eq, ◌==◌, if◌then◌else◌,
}
use notedeck.Tasks.{
  Json, null, bool, natural, other, text, array, object, Items, Fields, items_of, member, TaskInput,
  TaskAction, TaskPresentation, AccountChoice, unset, null_account, named, TaskDefinition,
}

-- `tasks[i]`, and from there `.name` and `.name[i]`
pub data Place : Type 0 where
  root : Place
  task_at : ℕ → Place
  within : Place → String → Place
  element : Place → String → ℕ → Place

pub data Problem : Type 0 where
  must_be_object must_be_array non_empty_required string_required strings_required : Problem
  text_or_pick only_api bad_id bad_icon boolean_required json_error bad_version : Problem
  duplicate_id : String → Problem

pub data Parsed {ℓ} (A : Type ℓ) : Type ℓ where
  ok : A → Parsed A
  parse_error : Place → Problem → Parsed A

module _ {ℓ} {A B : Type ℓ} where
  infixl 5 ◌>>=◌
  abbrev pub ◌>>=◌ : Parsed A → (A → Parsed B) → Parsed B
  ok a >>= f = f a
  parse_error at what >>= f = parse_error at what

abbrev between : ℕ → ℕ → ℕ → Bool
between lo hi c = leb lo c && leb c hi

-- The characters of `[\w-]` and of `[a-z0-9]`.
abbrev pub is_word : ℕ → Bool
is_word c =
    between b'a' b'z' c
    || between b'A' b'Z' c
    || between b'0' b'9' c
    || nat_eq c b'_'
    || nat_eq c b'-'

abbrev is_plain : ℕ → Bool
is_plain c = between b'a' b'z' c || between b'0' b'9' c

abbrev pub all_chars : (ℕ → Bool) → String → Bool
all_chars p String.[] = true
all_chars p (String.◌∷◌ c s) = p (code c) && all_chars p s

-- `/^[\w-]+$/`
unfoldable pub is_task_id : String → Bool
is_task_id s = not (s == "") && all_chars is_word s

-- ICON_NAME_RE
unfoldable pub is_icon_name : String → Bool
is_icon_name String.[] = false
is_icon_name (String.◌∷◌ c s) = is_plain (code c) && all_chars (λ d. is_plain d || nat_eq d b'-') s

-- The white space and the ends of lines that `trim` removes.
abbrev pub is_space : ℕ → Bool
is_space c =
    between 9 13 c
    || nat_eq c 32
    || nat_eq c 160
    || nat_eq c 5760
    || between 8192 8202 c
    || between 8232 8233 c
    || nat_eq c 8239
    || nat_eq c 8287
    || nat_eq c 12288
    || nat_eq c 65279

abbrev pub trim_start : String → String
trim_start String.[] = String.[]
trim_start (String.◌∷◌ c s) =
    let rest = trim_start s in if is_space (code c) then rest else String.◌∷◌ c s

abbrev pub trim_end : String → String
trim_end String.[] = String.[]
trim_end (String.◌∷◌ c s) =
    let rest = trim_end s in
    if is_space (code c) && rest == "" then String.[] else String.◌∷◌ c rest

unfoldable pub trim : String → String
trim s = trim_end (trim_start s)

-- A text that is not empty; a text; an optional text or Boolean of which another type is an error.
abbrev pub non_empty : Place → Option Json → Parsed String
non_empty at (some (text s)) = if s == "" then parse_error at non_empty_required else ok s
non_empty at _ = parse_error at non_empty_required

abbrev pub text_at : Place → Option Json → Parsed String
text_at at (some (text s)) = ok s
text_at at _ = parse_error at string_required

abbrev pub optional_text : Place → Option Json → Parsed (Option String)
optional_text at none = ok none
optional_text at (some (text s)) = ok (some s)
optional_text at _ = parse_error at string_required

abbrev pub optional_bool : Place → Option Json → Parsed (Option Bool)
optional_bool at none = ok none
optional_bool at (some (bool b)) = ok (some b)
optional_bool at _ = parse_error at boolean_required

-- The value, if it is a text.
abbrev pub if_text : Option Json → Option String
if_text (some (text s)) = some s
if_text _ = none

abbrev pub fields_of : Place → Option Json → Parsed Fields
fields_of at (some (object fs)) = ok fs
fields_of at _ = parse_error at must_be_object

abbrev pub texts_of : List Json → Option (List String)
texts_of [] = some []
texts_of (text s ∷ vs) = elim (texts_of vs) [ none ↦ none | some ss ↦ some (s ∷ ss) ]
texts_of (_ ∷ vs) = none

abbrev pub strings_at : Place → Option Json → Parsed (List String)
strings_at at (some (array vs)) = elim (texts_of (items_of vs)) [
  | none ↦ parse_error at strings_required
  | some ss ↦ ok ss
]
strings_at at _ = parse_error at strings_required

abbrev pub input_of : Place → Fields → String → String → Option Json → Parsed TaskInput
input_of at raw id prompt (some (text type)) =
    let pick : Parsed TaskInput = do
      options ← strings_at (within at "options") (member raw "options")
      ok (record {
        id = id;
        prompt = prompt;
        options = some options;
        default = if_text (member raw "default");
      })
    in if type == "text"
      then ok (record {
        id = id;
        prompt = prompt;
        options = none;
        default = if_text (member raw "default");
      })
      else if type == "pick"
      then pick
      else parse_error (within at "type") text_or_pick
input_of at raw id prompt _ = parse_error (within at "type") text_or_pick

unfoldable pub parse_input : Json → Place → Parsed TaskInput
parse_input v at = do
  raw ← fields_of at (some v)
  id ← non_empty (within at "id") (member raw "id")
  prompt ← text_at (within at "prompt") (member raw "prompt")
  input_of at raw id prompt (member raw "type")

abbrev pub is_api : Option Json → Bool
is_api (some (text s)) = s == "api"
is_api _ = false

abbrev pub params_of : Place → Option Json → Parsed (Option Fields)
params_of at none = ok none
params_of at (some (object fs)) = ok (some fs)
params_of at _ = parse_error at must_be_object

unfoldable pub parse_action : Option Json → Place → Parsed TaskAction
parse_action v at = do
  raw ← fields_of at v
  typed ← if is_api (member raw "type") then ok tt else parse_error (within at "type") only_api
  method ← non_empty (within at "method") (member raw "method")
  params ← params_of (within at "params") (member raw "params")
  ok (record { method = method; params = params })
