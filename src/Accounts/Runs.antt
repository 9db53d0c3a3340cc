-- ===== src/Accounts/Runs.antt =====
-- Every sequence of operations keeps the accounts sound.
use notedeck.Prelude.{
  String, Bool, true, false, not, Option, none, some, List, [], ◌∷◌, keep_if, truthy, is_some, ◌==◌,
  if◌then◌else◌, ◌≡◌, refl, sym, subst, ◌∙◌, arith, eq_iff, Bool-cases, String-cases, inl, inr,
}
use notedeck.Accounts.{
  Account, AccountsState, active_or_first, first_id, apply_accounts, on_early_arrive, load_early,
  load_stored, add_account, is_id, remove_account, drop_token, logout_account, has_account,
  switch_account, bump_mode_version,
}
use notedeck.Accounts.Sound.{
  Single, Present, Sound, or_none, Operation, arrive, load, load_fast, add_one, remove_one, log_out,
  switch_to, bump, run, KeepsActive, Allowed, keep_if-Single, has_account-without,
  has_account-drop_token, drop_token-Single, put_login, put_account-put_login, put_login-Single,
  has_account-put_login, has_new,
}

first-Present : (accounts : List Account) → Present (first_id accounts) accounts
first-Present [] = tt
first-Present (a ∷ rest) = ground (arith, eq_iff a.id a.id)

active_or_first-Present :
    (active : Option String) (accounts : List Account)
    → Present active accounts
    → Present (active_or_first active accounts) accounts
active_or_first-Present none [] p = tt
active_or_first-Present none (a ∷ rest) p = first-Present (a ∷ rest)
active_or_first-Present (some id) accounts p = elim (Bool-cases (id == "")) [
  | inr e ↦ rw (e, active_or_first) p
  | inl e ↦ with_text id accounts e p
]
  where
    with_text :
        (id : String) (accounts : List Account)
        → (id == "") ≡ true
        → Present (some id) accounts
        → Present (active_or_first (some id) accounts) accounts
    with_text id [] e p = absurd (ground (arith, p))
    with_text id (a ∷ rest) e p = rw (e, active_or_first) (first-Present (a ∷ rest))

apply-Sound :
    (stored : List Account) (st : AccountsState)
    → Single stored
    → Present st.active_account_id stored
    → Sound st
    → Sound (apply_accounts stored st)
unfolding apply_accounts
apply-Sound stored st u p s = record {
  single = u;
  present = active_or_first-Present st.active_account_id stored p;
  early_single = s.early_single;
}

add-Present :
    (a : Account) (active : Option String) (accounts : List Account)
    → KeepsActive a active accounts
    → Present active accounts
    → Present (if is_some (truthy active) then active else some a.id) (put_login a accounts)
add-Present a none accounts k p = has_new a accounts
add-Present a (some id) accounts k p = elim (Bool-cases (id == "")) [
  | inl e ↦ rw e (has_new a accounts)
  | inr e ↦ rw e (has_account-put_login a id accounts k p)
]

remove-Present :
    (id : String) (active : Option String) (accounts : List Account)
    → Present active accounts
    → Present
        (if is_id id active then first_id (keep_if (λ a. not (a.id == id)) accounts) else active)
        (keep_if (λ a. not (a.id == id)) accounts)
remove-Present id none accounts p = tt
remove-Present id (some i) accounts p = elim (String-cases i id) [
  | inl (q, e) ↦ rw e (first-Present (keep_if (λ a. not (a.id == id)) accounts))
  | inr (q, e) ↦
      rw e (has_account-without id i accounts ∙ ground (arith, p, e, eq_iff id i, eq_iff i id))
]

drop_token-Present :
    (id : String) (active : Option String) (accounts : List Account)
    → Present active accounts
    → Present active (drop_token id accounts)
drop_token-Present id none accounts p = tt
drop_token-Present id (some i) accounts p = has_account-drop_token id i accounts ∙ p

if-Sound :
    (b : Bool) (x y : AccountsState)
    → (b ≡ true → Sound x)
    → (b ≡ false → Sound y)
    → Sound (if b then x else y)
if-Sound true x y p q = p refl
if-Sound false x y p q = q refl

fast-Sound :
    (early : Option (List Account)) (st : AccountsState)
    → Single (or_none early)
    → (st.is_loaded ≡ false → Present st.active_account_id (or_none early))
    → Sound st
    → Sound (elim early as (λ o. AccountsState) [
      | none ↦ st
      | some payload ↦
          if st.is_loaded then st else record (apply_accounts payload st) { early = none }
    ])
unfolding apply_accounts
fast-Sound none st u p s = s
fast-Sound (some payload) st u p s =
    if-Sound st.is_loaded st (record (apply_accounts payload st) { early = none }) (λ e. s)
      (λ e. record {
        single = u;
        present = active_or_first-Present st.active_account_id payload (p e);
        early_single = tt;
      })

run-Sound : (o : Operation) (st : AccountsState) → Allowed o st → Sound st → Sound (run o st)
unfolding run on_early_arrive load_stored load_early add_account remove_account logout_account
    switch_account bump_mode_version
run-Sound (arrive as_) st a s =
    if-Sound st.is_loaded st (apply_accounts as_ st) (λ e. s)
      (λ e. apply-Sound as_ st a.0 (a.1 e) s)
run-Sound (load as_) st a s =
    if-Sound st.is_loaded st (apply_accounts as_ st) (λ e. s)
      (λ e. apply-Sound as_ st a.0 (a.1 e) s)
run-Sound load_fast st a s = fast-Sound st.early st s.early_single a s
run-Sound (add_one x) st a s = record {
  single =
      subst Single (sym (put_account-put_login x st.accounts))
        (put_login-Single x st.accounts s.single);
  present =
      subst
        (Present
          (if is_some (truthy st.active_account_id) then st.active_account_id else some x.id))
        (sym (put_account-put_login x st.accounts))
        (add-Present x st.active_account_id st.accounts a s.present);
  early_single = s.early_single;
}
run-Sound (remove_one done id) st a s = elim (Bool-cases done) [
  | inr e ↦ rw e s
  | inl e ↦ rw e record {
    single = keep_if-Single (λ x. not (x.id == id)) st.accounts s.single;
    present = remove-Present id st.active_account_id st.accounts s.present;
    early_single = s.early_single;
  }
]
run-Sound (log_out done id) st a s = elim (Bool-cases done) [
  | inr e ↦ rw e s
  | inl e ↦ rw e record {
    single = drop_token-Single id st.accounts s.single;
    present = drop_token-Present id st.active_account_id st.accounts s.present;
    early_single = s.early_single;
  }
]
run-Sound (switch_to id) st a s = elim (Bool-cases (has_account st.accounts id)) [
  | inr e ↦ rw e s
  | inl e ↦ rw e record { single = s.single; present = e; early_single = s.early_single }
]
run-Sound (bump id) st a s = record {
  single = s.single;
  present = s.present;
  early_single = s.early_single;
}

abbrev pub run_each : List Operation → AccountsState → AccountsState
run_each [] st = st
run_each (o ∷ os) st = run_each os (run o st)

abbrev pub AllAllowed : List Operation → AccountsState → Type 0
AllAllowed [] st = Unit
AllAllowed (o ∷ os) st = Allowed o st × AllAllowed os (run o st)

-- After any sequence of arrivals, loads, logins, removals, logouts and switches, no login stands twice
-- and the active account is among the accounts: if the Rust side stores no login twice, if accounts that
-- are loaded contain the active one, and if a login that comes again for the active account keeps its id.
pub run_each-Sound :
    (os : List Operation) (st : AccountsState)
    → AllAllowed os st
    → Sound st
    → Sound (run_each os st)
run_each-Sound [] st a s = s
run_each-Sound (o ∷ os) st a s = run_each-Sound os (run o st) a.1 (run-Sound o st a.0 s)
