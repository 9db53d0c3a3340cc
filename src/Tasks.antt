-- ===== src/Tasks.antt =====
-- The tasks of tasks.json5: the values that JSON5 gives, and the types of tasks/types.ts.
pub mod Schema
pub mod Store
pub mod Expand
pub mod Runner
mod Examples
use notedeck.Prelude.{ℕ, String, Bool, Option, none, some, List, [], ◌∷◌, ◌==◌, if◌then◌else◌}

-- A parsed value. `other` is a number that is no natural number, as the text that prints it.
mutual
  pub data Json : Type 0 where
    null : Json
    bool : Bool → Json
    natural : ℕ → Json
    other : String → Json
    text : String → Json
    array : Items → Json
    object : Fields → Json

  pub data Items : Type 0 where
    no_items : Items
    item : Json → Items → Items

  pub data Fields : Type 0 where
    no_fields : Fields
    field : String → Json → Fields → Fields

abbrev pub items_of : Items → List Json
items_of no_items = []
items_of (item v vs) = v ∷ items_of vs

-- `raw[key]`, of which `none` is `undefined`.
abbrev pub member : Fields → String → Option Json
member no_fields k = none
member (field j v fs) k = let rest = member fs k in if j == k then some v else rest

-- A text, or a choice among options; both with a prompt and a default.
pub record TaskInput : Type 0 where
  pub id : String
  pub prompt : String
  pub options : Option (List String)
  pub default : Option String

pub record TaskAction : Type 0 where
  pub method : String
  pub params : Option Fields

pub record TaskPresentation : Type 0 where
  pub reveal_on_run : Option Bool
  pub clear_history_on_run : Option Bool

-- The account of a task: none is named, `null`, or an id.
pub data AccountChoice : Type 0 where
  unset : AccountChoice
  null_account : AccountChoice
  named : String → AccountChoice

pub record TaskDefinition : Type 0 where
  pub id : String
  pub label : String
  pub detail : Option String
  pub description : Option String
  pub icon : Option String
  pub group : Option String
  pub is_default : Bool
  pub pinned : Bool
  pub account_id : AccountChoice
  pub inputs : Option (List TaskInput)
  pub action : TaskAction
  pub presentation : Option TaskPresentation
