-- ===== src/Tasks/Expand.antt =====
-- tasks/expand.ts: the tokens `${...}` in the parameters of a task.
pub mod Pieces
use Prim.Native.Char.{Char, code}
use Prim.Native.String.{◌++◌ as str_append}
use notedeck.Prelude.{
  ℕ, String, Bool, true, false, not, ◌&&◌, ◌||◌, Option, none, some, List, [], ◌∷◌, or_else, leb,
  nat_eq, ◌==◌, if◌then◌else◌,
}
use notedeck.Prelude.Dict
use notedeck.Prelude.Dict.{Dict}
use notedeck.Tasks.{
  Json, null, bool, natural, other, text, array, object, Items, no_items, item, Fields, no_fields,
  field,
}

-- The inputs and the account that `resolveToken` looks in.
pub record ExpandContext : Type 0 where
  pub inputs : Dict String
  pub id : Option String
  pub host : Option String

abbrev pub between : ℕ → ℕ → ℕ → Bool
between lo hi c = leb lo c && leb c hi

-- `[a-zA-Z0-9_.:-]`
abbrev pub is_token_char : ℕ → Bool
is_token_char c =
    between b'a' b'z' c
    || between b'A' b'Z' c
    || between b'0' b'9' c
    || nat_eq c b'_'
    || nat_eq c b'.'
    || nat_eq c b':'
    || nat_eq c b'-'

-- What follows a prefix, if the text starts with it.
abbrev pub after_prefix : String → String → Option String
after_prefix String.[] s = some s
after_prefix (String.◌∷◌ c p) String.[] = none
after_prefix (String.◌∷◌ c p) (String.◌∷◌ d s) =
    let rest = after_prefix p s in if nat_eq (code c) (code d) then rest else none

-- The inputs are a map; keys that an object inherits, such as `constructor`, are not modelled.
unfoldable pub resolve_token : ExpandContext → String → String
resolve_token ctx token = elim (after_prefix "input:" token) [
  | some key ↦ or_else (Dict.get ctx.inputs key) ""
  | none ↦
      if token == "account.id"
      then or_else ctx.id ""
      else if token == "account.host"
      then or_else ctx.host ""
      else ""
]

-- How far TOKEN_RE has come in a text: outside, after `$`, or after `${` and a part of a token.
pub data Scan : Type 0 where
  outside dollar : Scan
  inside : String → Scan

abbrev pub one : Char → String
one c = String.◌∷◌ c String.[]

-- The character is no part of a match that has begun before it.
abbrev pub restart : String → Char → String × Scan
restart before c =
    if nat_eq (code c) b'$' then (before, dollar) else (str_append before (one c), outside)

-- What is known of the result after one more character.
abbrev pub step : ExpandContext → Scan → Char → String × Scan
step ctx outside c = restart "" c
step ctx dollar c = if nat_eq (code c) b'{' then ("", inside "") else restart "$" c
step ctx (inside t) c =
    if is_token_char (code c)
    then ("", inside (str_append t (one c)))
    else if nat_eq (code c) b'}' && not (t == "")
    then (resolve_token ctx t, outside)
    else restart (str_append "${" t) c

abbrev pub pending : Scan → String
pending outside = ""
pending dollar = "$"
pending (inside t) = str_append "${" t

abbrev pub expand_from : ExpandContext → Scan → String → String
expand_from ctx m String.[] = pending m
expand_from ctx m (String.◌∷◌ c s) =
    let next = step ctx m c in str_append next.0 (expand_from ctx next.1 s)

-- `s.replace(TOKEN_RE, ...)`: a text is read once, from the left.
unfoldable pub expand_string : ExpandContext → String → String
unfolding resolve_token
expand_string ctx s = expand_from ctx outside s

unfoldable mutual
  pub expand_template : ExpandContext → Json → Json
  expand_template ctx (text s) = text (expand_string ctx s)
  expand_template ctx (array vs) = array (expand_items ctx vs)
  expand_template ctx (object fs) = object (expand_fields ctx fs)
  expand_template ctx v = v

  pub expand_items : ExpandContext → Items → Items
  expand_items ctx no_items = no_items
  expand_items ctx (item v vs) = item (expand_template ctx v) (expand_items ctx vs)

  pub expand_fields : ExpandContext → Fields → Fields
  expand_fields ctx no_fields = no_fields
  expand_fields ctx (field k v fs) = field k (expand_template ctx v) (expand_fields ctx fs)
