-- ===== src/Accounts/Examples.antt =====
-- Concrete accounts.
use notedeck.Prelude.{String, true, false, none, some, List, [], ◌∷◌, ◌==◌, ◌≡◌, refl, ap, arith}
use notedeck.Prelude.Dict
use notedeck.Accounts.{
  Account, AccountsState, active_account, account_map, add_account, remove_account, switch_account,
  get_account_label, get_account_avatar_url, is_guest_account, account_scope_key,
}
use notedeck.Accounts.Sound.{Sound, Operation, load, add_one, remove_one, log_out, switch_to, run}
use notedeck.Accounts.Runs.{AllAllowed, run_each, run_each-Sound}

abbrev account : String → String → Account
account id user = record {
  id = id;
  host = "example.com";
  user_id = user;
  username = "alice";
  display_name = none;
  avatar_url = none;
  has_token = true;
}

abbrev fresh : AccountsState
fresh = record {
  accounts = [];
  active_account_id = none;
  is_loaded = false;
  mode_versions = [];
  early = none;
  destroyed = [];
  cleaned = [];
}

abbrev day : List Operation
day =
    load (account "i1" "u1" ∷ account "i2" "u2" ∷ [])
    ∷ switch_to "i2"
    ∷ add_one (account "i3" "u1")
    ∷ log_out true "i3"
    ∷ remove_one true "i2"
    ∷ []

fresh-Sound : Sound fresh
fresh-Sound = record { single = tt; present = tt; early_single = tt }

day_allowed : AllAllowed day fresh
unfolding run add_account switch_account remove_account
day_allowed = (
  ((refl, (refl, tt)), λ e. tt),
  (
    tt,
    (
      (
        λ p q. absurd (ground (arith, ap (λ x. x == "i2") q)),
        (λ p q. absurd (ground (arith, p)), tt),
      ),
      (tt, (tt, tt)),
    ),
  ),
)

run_each-Sound_example : Sound (run_each day fresh)
run_each-Sound_example = run_each-Sound day fresh day_allowed fresh-Sound

-- The login of the active account comes again with a new id.
relogin_leaves_no_active_account :
    active_account (
      add_account
        (account "i9" "u1")
        (record fresh { accounts = account "i1" "u1" ∷ []; active_account_id = some "i1" }))
    ≡ none
unfolding active_account add_account account_map Dict.get Dict.put
relogin_leaves_no_active_account = refl

labels :
    (get_account_label (account "i1" "u1") ≡ "@alice@example.com")
    × (get_account_label (record (account "i1" "__guest__") { has_token = false })
        ≡ "ゲスト@example.com")
    × (get_account_avatar_url (account "i1" "u1") ≡ "/avatar-default.svg")
    × (account_scope_key (account "i1" "u1") ≡ "example.com:u1")
unfolding get_account_label is_guest_account get_account_avatar_url account_scope_key
labels = (refl, refl, refl, refl)
