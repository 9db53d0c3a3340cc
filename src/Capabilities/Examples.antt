-- ===== src/Capabilities/Examples.antt =====
-- The theorems on the dispatcher at a registry with one capability.
use notedeck.Prelude.{
  String, Bool, true, false, none, some, or_else, [], ◌∷◌, ◌≡◌, ◌≢◌, ◌⊎◌, ◌==◌, refl, eq_iff,
}
use notedeck.Prelude.Dict
use notedeck.Prelude.Dict.{Dict}
use notedeck.Permissions.Principal.{ai_chat}
use notedeck.Permissions.Schema.{
  PermissionKey, clips_write, mem_key, preset_map, resolve_permissions,
}
use notedeck.Permissions.Schema
use notedeck.Permissions.Store
use notedeck.Permissions.Store.{
  Store, default_permissions_file, confirm_skip_scope, is_confirm_skipped,
}
use notedeck.Capabilities.Registry
use notedeck.Capabilities.Registry.{
  World, ConfirmOptions, Command, always, Outcome, returns, get_capability,
}
use notedeck.Capabilities.Dispatcher
use notedeck.Capabilities.Dispatcher.{
  DispatchError, ConfirmDecision, done, failed, user_cancelled, find_capability,
  dispatch_capability, preflight_error, remember_consent, is_skipped,
}
use notedeck.Capabilities.Dispatcher.Refusals.{
  may, Consented, Untouched, dispatch_capability-done, dispatch_capability-refused,
}

abbrev Nothing : Type 0
Nothing = Unit {0}

abbrev make_clip : Command Nothing Nothing String
make_clip = record {
  id = "clips.create";
  label = "clip";
  has_signature = true;
  permissions = some (clips_write ∷ []);
  preflight = none;
  confirmation = always;
  on_confirm_remember = none;
  execute = λ params p w. (returns "made", w);
}

abbrev registry : Dict (Command Nothing Nothing String)
registry = ("clips.create", make_clip) ∷ []

abbrev world : World Nothing
world = record {
  store = record { file = default_permissions_file; disk = none };
  denials = [];
  app = tt;
}

abbrev answer : Bool → ConfirmOptions → World Nothing → ConfirmDecision × World Nothing
answer b o w = (record { accepted = b; remember = false }, w)

runs : (dispatch_capability (answer true) registry "clips_create" tt ai_chat world).0 ≡ done "made"
unfolding dispatch_capability find_capability get_capability Registry.list_capabilities
    Registry.sanitize_tool_name Dispatcher.dispatch_found Dispatcher.check_permissions
    Store.resolve_for Store.default_permissions_file Store.stored_profile Dict.get
    Schema.preset_entry preset_map resolve_permissions preflight_error Dispatcher.confirm_and_run
    Dispatcher.build_confirm_options is_skipped Dispatcher.skip_scope is_confirm_skipped
    Dispatcher.after_decision Dispatcher.run_command
runs = refl

dispatch_capability-done_example :
    (c : Command Nothing Nothing String) × (find_capability registry "clips_create" ≡ some c)
    × ((k : PermissionKey)
        → mem_key (or_else c.permissions []) k ≡ true
        → may world.store.file ai_chat k ≡ true)
    × (preflight_error c tt world ≡ none)
    × Consented (answer true) c tt ai_chat world
dispatch_capability-done_example =
    dispatch_capability-done (answer true) registry "clips_create" tt ai_chat world "made" runs

refuses :
    (dispatch_capability (answer false) registry "clips.create" tt ai_chat world).0
    ≡ failed user_cancelled
unfolding dispatch_capability find_capability get_capability Dispatcher.dispatch_found
    Dispatcher.check_permissions Store.resolve_for Store.default_permissions_file
    Store.stored_profile Dict.get Schema.preset_entry preset_map resolve_permissions preflight_error
    Dispatcher.confirm_and_run Dispatcher.build_confirm_options is_skipped Dispatcher.skip_scope
    is_confirm_skipped Dispatcher.after_decision
refuses = refl

dispatch_capability-refused_example :
    ((find_capability registry "clips.create" ≡ none)
      × (user_cancelled ≡ Dispatcher.unknown_capability)
      × ((dispatch_capability (answer false) registry "clips.create" tt ai_chat world).1 ≡ world))
    ⊎ ((c : Command Nothing Nothing String) × (find_capability registry "clips.create" ≡ some c)
        × Untouched
            (answer false)
            c
            tt
            ai_chat
            world
            user_cancelled
            (dispatch_capability (answer false) registry "clips.create" tt ai_chat world).1)
dispatch_capability-refused_example =
    dispatch_capability-refused (answer false) registry "clips.create" tt ai_chat world
      user_cancelled refuses

abbrev one_id : String
one_id = "p1"

abbrev other_id : String
other_id = "p2"

other_plugin : one_id ≢ other_id
other_plugin h = let same : (one_id == other_id) ≡ true = (eq_iff one_id other_id).1 h in cc
