-- ===== src/Accounts.antt =====
-- stores/accounts.ts: the accounts, and the one that is active. The answers of the Rust side are
-- arguments: the accounts that it has stored, and whether a removal or a logout was done.
pub mod Sound
pub mod Runs
mod Examples
use Prim.Native.String.{◌++◌ as str_append}
use notedeck.Prelude.{
  ℕ, ◌+◌, String, Bool, true, false, not, ◌&&◌, ◌||◌, Option, none, some, List, [], ◌∷◌, ◌++◌,
  keep_if, any, find, find_index, set, or_else, truthy, text_or, is_some, ◌==◌, if◌then◌else◌,
}
use notedeck.Prelude.Dict
use notedeck.Prelude.Dict.{Dict}

pub record Account : Type 0 where
  pub id : String
  pub host : String
  pub user_id : String
  pub username : String
  pub display_name : Option String
  pub avatar_url : Option String
  pub has_token : Bool

unfoldable pub account_scope_key : Account → String
account_scope_key a = str_append a.host (str_append ":" a.user_id)

unfoldable pub is_guest_account : Account → Bool
is_guest_account a = a.user_id == "__guest__" && not a.has_token

unfoldable pub get_account_avatar_url : Account → String
unfolding is_guest_account
get_account_avatar_url a =
    if is_guest_account a then "/avatar-guest.svg" else text_or a.avatar_url "/avatar-default.svg"

unfoldable pub get_account_label : Account → String
unfolding is_guest_account
get_account_label a =
    if is_guest_account a
    then str_append (text_or a.display_name "ゲスト") (str_append "@" a.host)
    else str_append "@" (str_append a.username (str_append "@" a.host))

-- `early` are the accounts that arrived before the store was made, `destroyed` the accounts whose
-- adapters have been destroyed, and `cleaned` those whose caches have been removed, the latest first.
pub record AccountsState : Type 0 where
  pub accounts : List Account
  pub active_account_id : Option String
  pub is_loaded : Bool
  pub mode_versions : Dict ℕ
  pub early : Option (List Account)
  pub destroyed : List String
  pub cleaned : List String

-- The later of two accounts with one id.
abbrev pub map_from : Dict Account → List Account → Dict Account
map_from m [] = m
map_from m (a ∷ as_) = map_from (Dict.put m a.id a) as_

unfoldable pub account_map : AccountsState → Dict Account
account_map st = map_from [] st.accounts

unfoldable pub active_account : AccountsState → Option Account
unfolding account_map
active_account st = elim (truthy st.active_account_id) [
  | none ↦ none
  | some id ↦ Dict.get (account_map st) id
]

abbrev pub by_server_from : Dict (List Account) → List Account → Dict (List Account)
by_server_from m [] = m
by_server_from m (a ∷ rest) =
    by_server_from (Dict.put m a.host (or_else (Dict.get m a.host) [] ++ (a ∷ []))) rest

unfoldable pub accounts_by_server : AccountsState → Dict (List Account)
accounts_by_server st = by_server_from [] st.accounts

abbrev pub first_id : List Account → Option String
first_id [] = none
first_id (a ∷ rest) = some a.id

abbrev pub active_or_first : Option String → List Account → Option String
active_or_first active accounts = elim (truthy active) [
  | some id ↦ active
  | none ↦ elim accounts [ [] ↦ active | a ∷ rest ↦ some a.id ]
]

unfoldable pub apply_accounts : List Account → AccountsState → AccountsState
apply_accounts stored st = record st {
  accounts = stored;
  active_account_id = active_or_first st.active_account_id stored;
  is_loaded = true;
}

unfoldable pub on_early_arrive : List Account → AccountsState → AccountsState
unfolding apply_accounts
on_early_arrive payload st = if st.is_loaded then st else apply_accounts payload st

-- The part before the answer of the Rust side, and the part after it.
unfoldable pub load_early : AccountsState → AccountsState
unfolding apply_accounts
load_early st = elim st.early [
  | none ↦ st
  | some payload ↦ if st.is_loaded then st else record (apply_accounts payload st) { early = none }
]

unfoldable pub load_stored : List Account → AccountsState → AccountsState
unfolding apply_accounts
load_stored stored st = if st.is_loaded then st else apply_accounts stored st

abbrev pub same_login : Account → Account → Bool
same_login a b = a.host == b.host && a.user_id == b.user_id

abbrev pub put_at : Option ℕ → Account → List Account → List Account
put_at (some i) a accounts = set accounts i a
put_at none a accounts = accounts ++ (a ∷ [])

abbrev pub put_account : Account → List Account → List Account
put_account a accounts = put_at (find_index (λ b. same_login b a) accounts) a accounts

unfoldable pub add_account : Account → AccountsState → AccountsState
add_account a st = record st {
  accounts = put_account a st.accounts;
  active_account_id =
      if is_some (truthy st.active_account_id) then st.active_account_id else some a.id;
}

abbrev pub is_id : String → Option String → Bool
is_id id none = false
is_id id (some i) = i == id

-- An error of the Rust side leaves everything as it is.
unfoldable pub remove_account : Bool → String → AccountsState → AccountsState
remove_account done id st =
    let kept = keep_if (λ a. not (a.id == id)) st.accounts in
    if done
    then record st {
      accounts = kept;
      active_account_id =
          if is_id id st.active_account_id then first_id kept else st.active_account_id;
      destroyed = id ∷ st.destroyed;
      cleaned = id ∷ st.cleaned;
    }
    else st

abbrev pub drop_token : String → List Account → List Account
drop_token id [] = []
drop_token id (a ∷ rest) =
    let later = drop_token id rest in
    if a.id == id then record a { has_token = false } ∷ rest else a ∷ later

unfoldable pub logout_account : Bool → String → AccountsState → AccountsState
logout_account done id st =
    if done
    then record st { accounts = drop_token id st.accounts; destroyed = id ∷ st.destroyed }
    else st

abbrev pub has_account : List Account → String → Bool
has_account accounts id = any (λ a. a.id == id) accounts

unfoldable pub switch_account : String → AccountsState → AccountsState
switch_account id st =
    if has_account st.accounts id then record st { active_account_id = some id } else st

unfoldable pub get_mode_version : String → AccountsState → ℕ
get_mode_version id st = or_else (Dict.get st.mode_versions id) 0

unfoldable pub bump_mode_version : String → AccountsState → AccountsState
unfolding get_mode_version
bump_mode_version id st = record st {
  mode_versions = Dict.put st.mode_versions id (get_mode_version id st + 1);
}
