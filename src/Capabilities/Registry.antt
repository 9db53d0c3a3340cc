-- ===== src/Capabilities/Registry.antt =====
-- capabilities/registry.ts, capabilities/identifier.ts, and the part of `Command`
-- (commands/registry.ts) that the dispatcher reads.
use Prim.Native.Char.{Char, code}
use notedeck.Prelude.{String, Bool, Option, none, some, List, map, nat_eq, if◌then◌else◌}
use notedeck.Prelude.Dict
use notedeck.Prelude.Dict.{Dict}
use notedeck.Permissions.Principal.{Principal}
use notedeck.Permissions.Schema.{PermissionKey}
use notedeck.Permissions.Store.{Store}
use notedeck.Permissions.Denials.{PluginDenial}

-- The permissions and the denials, and the rest of the program as `S`.
pub record World (S : Type 0) : Type 0 where
  pub store : Store
  pub denials : Dict PluginDenial
  pub app : S

-- What the dispatcher sets of the options of a dialog, and its title.
pub record ConfirmOptions : Type 0 where
  pub title : String
  pub trusted : Bool
  pub dedup_key : Option String
  pub attribution : Option String
  pub remember_label : Option String

-- `requiresConfirmation`: `false`, `true`, or a function.
pub data Confirmation (S P : Type 0) : Type 0 where
  never always : Confirmation S P
  asks : (P → Principal → World S → Option ConfirmOptions) → Confirmation S P

pub data Outcome (R : Type 0) : Type 0 where
  returns : R → Outcome R
  throws : String → Outcome R

-- `S` is the state of the program, `P` the parameters and `R` the results. A preflight gives the text of
-- an error, and may read the stores.
pub record Command (S P R : Type 0) : Type 0 where
  pub id : String
  pub label : String
  pub has_signature : Bool
  pub permissions : Option (List PermissionKey)
  pub preflight : Option (P → World S → Option String)
  pub confirmation : Confirmation S P
  pub on_confirm_remember : Option (P → Principal → World S → World S)
  pub execute : P → Principal → World S → Outcome R × World S

module _ {S P R : Type 0} where
  -- `none` is the error for a capability without a signature.
  unfoldable pub register_capability :
      Dict (Command S P R) → Command S P R → Option (Dict (Command S P R))
  register_capability reg cmd = if cmd.has_signature then some (Dict.put reg cmd.id cmd) else none

  unfoldable pub unregister_capability : Dict (Command S P R) → String → Dict (Command S P R)
  unregister_capability = Dict.delete

  unfoldable pub get_capability : Dict (Command S P R) → String → Option (Command S P R)
  get_capability = Dict.get

  unfoldable pub list_capabilities : Dict (Command S P R) → List (Command S P R)
  list_capabilities = map (λ e. e.1)

abbrev dot_to_underscore : Char → Char
dot_to_underscore c = if nat_eq (code c) b'.' then "_" else c

-- `id.replace(/\./g, '_')`
unfoldable pub sanitize_tool_name : String → String
sanitize_tool_name String.[] = String.[]
sanitize_tool_name (String.◌∷◌ c s) = String.◌∷◌ (dot_to_underscore c) (sanitize_tool_name s)
