-- ===== src/Capabilities/Dispatcher.antt =====
-- capabilities/dispatcher.ts: `dispatchCapability` without the spotlight, which only draws.
pub mod Refusals
use Prim.Native.String.{◌++◌ as str_append}
use notedeck.Prelude.{
  String, Bool, true, false, not, ◌&&◌, Option, none, some, is_some, or_else, text_or, List, [],
  ◌∷◌, find, keep_if, ◌==◌, if◌then◌else◌,
}
use notedeck.Prelude.Dict.{Dict}
use notedeck.Permissions.Principal.{Principal, plugin, principal_actor_label}
use notedeck.Permissions.Schema.{PermissionKey, allowed}
use notedeck.Permissions.Store.{
  PermissionsFile, resolve_for, confirm_skip_scope, is_confirm_skipped, add_confirm_skip,
}
use notedeck.Permissions.Denials.{record_plugin_denial}
use notedeck.Capabilities.Registry.{
  World, ConfirmOptions, Confirmation, never, always, asks, Outcome, returns, throws, Command,
  get_capability, list_capabilities, sanitize_tool_name,
}

-- The codes, with what the texts of the errors are made of.
pub data DispatchError : Type 0 where
  unknown_capability user_cancelled : DispatchError
  permission_denied : List PermissionKey → DispatchError
  preflight_failed execute_failed : String → DispatchError

pub data DispatchResult (R : Type 0) : Type 0 where
  done : R → DispatchResult R
  failed : DispatchError → DispatchResult R

pub record ConfirmDecision : Type 0 where
  pub accepted : Bool
  pub remember : Bool

unfoldable pub check_permissions :
    List PermissionKey → Principal → PermissionsFile → List PermissionKey
unfolding resolve_for
check_permissions required p file = elim (resolve_for file p) [
  | none ↦ []
  | some m ↦ keep_if (λ key. not (allowed m key)) required
]

abbrev or_none : Option String → Option String → Option String
or_none none b = b
or_none (some a) b = some a

unfoldable pub result_of : {R : Type 0} → Outcome R → DispatchResult R
result_of (returns r) = done r
result_of (throws e) = failed (execute_failed e)

unfoldable pub record_denial :
    {S : Type 0} → Principal → String → List PermissionKey → World S → World S
unfolding record_plugin_denial
record_denial (plugin id _) target keys w = record w {
  denials = record_plugin_denial w.denials id target keys;
}
record_denial _ target keys w = w

module _ {S P R : Type 0} where
  -- By the id, or by the name that the providers of the models send back.
  unfoldable pub find_capability : Dict (Command S P R) → String → Option (Command S P R)
  find_capability reg id = elim (get_capability reg id) [
    | some c ↦ some c
    | none ↦ find (λ c. sanitize_tool_name c.id == id) (list_capabilities reg)
  ]

  unfoldable pub build_confirm_options :
      Command S P R → P → Principal → World S → Option ConfirmOptions
  build_confirm_options c params p w = elim c.confirmation [
    | never ↦ none
    | asks f ↦ f params p w
    | always ↦ some (record {
      title = str_append c.label " を実行しますか?";
      trusted = false;
      dedup_key = none;
      attribution = none;
      remember_label = none;
    })
  ]

  -- The scope of a remembered consent, unless the capability remembers in its own way.
  unfoldable pub skip_scope : Command S P R → Principal → Option String
  unfolding confirm_skip_scope
  skip_scope c p = if is_some c.on_confirm_remember then none else confirm_skip_scope p

  unfoldable pub is_skipped : Command S P R → Principal → PermissionsFile → Bool
  is_skipped c p file = elim (skip_scope c p) [
    | none ↦ false
    | some scope ↦ is_confirm_skipped file scope c.id
  ]

  -- What the dispatcher writes into the options before the dialog.
  unfoldable pub attributed : Command S P R → Principal → ConfirmOptions → ConfirmOptions
  attributed c p o = record {
    title = o.title;
    trusted = true;
    dedup_key = elim (skip_scope c p) [
      | none ↦ o.dedup_key
      | some scope ↦ some (str_append scope (str_append ":" c.id))
    ];
    attribution = or_none (principal_actor_label p) o.attribution;
    remember_label = elim (skip_scope c p) [
      | none ↦ o.remember_label
      | some scope ↦ some (text_or o.remember_label "今後この操作を確認しない")
    ];
  }

  -- `if (decision.remember)`, after a consent
  unfoldable pub remember_consent : Command S P R → P → Principal → World S → World S
  remember_consent c params p w = elim c.on_confirm_remember [
    | some f ↦ f params p w
    | none ↦ elim (skip_scope c p) [
      | none ↦ w
      | some scope ↦ record w { store = add_confirm_skip w.store scope c.id }
    ]
  ]

  unfoldable pub run_command : Command S P R → P → Principal → World S → DispatchResult R × World S
  unfolding result_of
  run_command c params p w = let (o, w') = c.execute params p w in (result_of o, w')

  unfoldable pub after_decision :
      Command S P R → P → Principal → ConfirmDecision → World S → DispatchResult R × World S
  after_decision c params p d w =
      if d.accepted
      then run_command c params p (if d.remember then remember_consent c params p w else w)
      else (failed user_cancelled, w)

  -- The part behind the permissions and the preflight. The dialog returns the decision and the
  -- world as it is when the dialog closes: others run while it is open.
  unfoldable pub confirm_and_run :
      (ConfirmOptions → World S → ConfirmDecision × World S)
      → Command S P R
      → P
      → Principal
      → World S
      → DispatchResult R × World S
  confirm_and_run dialog c params p w = elim (build_confirm_options c params p w) [
    | none ↦ run_command c params p w
    | some o ↦
        if is_skipped c p w.store.file
        then run_command c params p w
        else let (d, w') = dialog (attributed c p o) w in after_decision c params p d w'
  ]

  unfoldable pub preflight_error : Command S P R → P → World S → Option String
  preflight_error c params w = elim c.preflight [ none ↦ none | some f ↦ f params w ]

  unfoldable pub dispatch_found :
      (ConfirmOptions → World S → ConfirmDecision × World S)
      → Command S P R
      → P
      → Principal
      → World S
      → DispatchResult R × World S
  dispatch_found dialog c params p w =
      elim (check_permissions (or_else c.permissions []) p w.store.file) [
        | k ∷ ks ↦ (failed (permission_denied (k ∷ ks)), record_denial p c.id (k ∷ ks) w)
        | [] ↦ elim (preflight_error c params w) [
          | some e ↦ (failed (preflight_failed e), w)
          | none ↦ confirm_and_run dialog c params p w
        ]
      ]

  unfoldable pub dispatch_capability :
      (ConfirmOptions → World S → ConfirmDecision × World S)
      → Dict (Command S P R)
      → String
      → P
      → Principal
      → World S
      → DispatchResult R × World S
  dispatch_capability dialog reg id params p w = elim (find_capability reg id) [
    | none ↦ (failed unknown_capability, w)
    | some c ↦ dispatch_found dialog c params p w
  ]
