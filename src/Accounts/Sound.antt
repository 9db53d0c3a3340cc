-- ===== src/Accounts/Sound.antt =====
-- What every operation on the accounts keeps.
use notedeck.Prelude.{
  ℕ, suc, String, Bool, true, false, not, ◌&&◌, ◌||◌, Option, none, some, List, [], ◌∷◌, ◌++◌,
  keep_if, any, find_index, ◌==◌, if◌then◌else◌, ◌≡◌, refl, sym, ap, ◌∙◌, arith, eq_iff, Bool-cases,
  Option-cases, inl, inr,
}
use notedeck.Accounts.{
  Account, AccountsState, on_early_arrive, load_early, load_stored, same_login, put_at, put_account,
  add_account, remove_account, drop_token, logout_account, has_account, switch_account,
  bump_mode_version,
}

-- No login, which is a host with a user, stands twice.
abbrev pub Single : List Account → Type 0
Single [] = Unit
Single (a ∷ rest) = (any (same_login a) rest ≡ false) × Single rest

-- The active account is among the accounts.
abbrev pub Present : Option String → List Account → Type 0
Present none accounts = Unit
Present (some id) accounts = has_account accounts id ≡ true

abbrev pub or_none : Option (List Account) → List Account
or_none none = []
or_none (some as_) = as_

pub record Sound (st : AccountsState) : Type 0 where
  pub single : Single st.accounts
  pub present : Present st.active_account_id st.accounts
  pub early_single : Single (or_none st.early)

pub data Operation : Type 0 where
  arrive load : List Account → Operation
  load_fast : Operation
  add_one : Account → Operation
  remove_one log_out : Bool → String → Operation
  switch_to bump : String → Operation

unfoldable pub run : Operation → AccountsState → AccountsState
unfolding on_early_arrive load_stored load_early add_account remove_account logout_account
    switch_account bump_mode_version
run (arrive as_) st = on_early_arrive as_ st
run (load as_) st = load_stored as_ st
run load_fast st = load_early st
run (add_one a) st = add_account a st
run (remove_one done id) st = remove_account done id st
run (log_out done id) st = logout_account done id st
run (switch_to id) st = switch_account id st
run (bump id) st = bump_mode_version id st

any-append : (p : Account → Bool) (xs ys : List Account) → any p (xs ++ ys) ≡ (any p xs || any p ys)
any-append p [] ys = refl
any-append p (x ∷ xs) ys = ground (arith, any-append p xs ys)

any-keep_if :
    (p q : Account → Bool) (xs : List Account) → any p xs ≡ false → any p (keep_if q xs) ≡ false
any-keep_if p q [] h = refl
any-keep_if p q (x ∷ xs) h = elim (Bool-cases (q x)) [
  | inl e ↦ rw e (ground (arith, h, any-keep_if p q xs))
  | inr e ↦ rw e (any-keep_if p q xs (ground (arith, h)))
]

pub keep_if-Single : (q : Account → Bool) (xs : List Account) → Single xs → Single (keep_if q xs)
keep_if-Single q [] s = tt
keep_if-Single q (x ∷ xs) s = elim (Bool-cases (q x)) [
  | inl e ↦ rw e (any-keep_if (same_login x) q xs s.0, keep_if-Single q xs s.1)
  | inr e ↦ rw e (keep_if-Single q xs s.1)
]

pub has_account-without :
    (id other : String) (xs : List Account)
    → has_account (keep_if (λ a. not (a.id == id)) xs) other
      ≡ (has_account xs other && not (id == other))
has_account-without id other [] = refl
has_account-without id other (x ∷ xs) =
    ground
      (arith, has_account-without id other xs, eq_iff x.id id, eq_iff x.id other, eq_iff id other)

pub has_account-drop_token :
    (id other : String) (xs : List Account)
    → has_account (drop_token id xs) other ≡ has_account xs other
has_account-drop_token id other [] = refl
has_account-drop_token id other (x ∷ xs) = ground (arith, has_account-drop_token id other xs)

any-drop_token :
    (b : Account) (id : String) (xs : List Account)
    → any (same_login b) (drop_token id xs) ≡ any (same_login b) xs
any-drop_token b id [] = refl
any-drop_token b id (x ∷ xs) = ground (arith, any-drop_token b id xs)

pub drop_token-Single : (id : String) (xs : List Account) → Single xs → Single (drop_token id xs)
drop_token-Single id [] s = tt
drop_token-Single id (x ∷ xs) s = elim (Bool-cases (x.id == id)) [
  | inl e ↦ rw e (s.0, s.1)
  | inr e ↦ rw e (any-drop_token x id xs ∙ s.0, drop_token-Single id xs s.1)
]

-- `put_account` as one pass.
abbrev pub put_login : Account → List Account → List Account
put_login a [] = a ∷ []
put_login a (x ∷ xs) = let rest = put_login a xs in if same_login x a then a ∷ xs else x ∷ rest

abbrev shifted : Option ℕ → Option ℕ
shifted none = none
shifted (some i) = some (suc i)

find_index-cons :
    (p : Account → Bool) (x : Account) (xs : List Account)
    → find_index p (x ∷ xs) ≡ (if p x then some 0 else shifted (find_index p xs))
find_index-cons p x xs = elim (Option-cases (find_index p xs)) [
  | inl e ↦ rw e refl
  | inr (i, e) ↦ rw e refl
]

put_at-shifted :
    (a x : Account) (xs : List Account) (o : Option ℕ)
    → put_at (shifted o) a (x ∷ xs) ≡ x ∷ put_at o a xs
put_at-shifted a x xs none = refl
put_at-shifted a x xs (some i) = refl

pub put_account-put_login : (a : Account) (xs : List Account) → put_account a xs ≡ put_login a xs
put_account-put_login a [] = refl
put_account-put_login a (x ∷ xs) =
    ap (λ o. put_at o a (x ∷ xs)) (find_index-cons (λ b. same_login b a) x xs)
    ∙ elim (Bool-cases (same_login x a)) [
      | inl e ↦ rw e refl
      | inr e ↦ rw e (
          put_at-shifted a x xs (find_index (λ b. same_login b a) xs)
          ∙ ap (λ r. x ∷ r) (put_account-put_login a xs))
    ]

same_parts : (x a : Account) → same_login x a ≡ true → (x.host ≡ a.host) × (x.user_id ≡ a.user_id)
same_parts x a h = (
  (eq_iff x.host a.host).0 (ground (arith, h)),
  (eq_iff x.user_id a.user_id).0 (ground (arith, h)),
)

abbrev logged : String → String → Account → Bool
logged h u b = h == b.host && u == b.user_id

same_any :
    (x a : Account) (xs : List Account)
    → same_login x a ≡ true
    → any (same_login x) xs ≡ any (same_login a) xs
same_any x a xs h =
    let p = same_parts x a h in
    ap (λ t. any (logged t x.user_id) xs) p.0 ∙ ap (λ t. any (logged a.host t) xs) p.1

same_right : (b x a : Account) → same_login x a ≡ true → same_login b x ≡ same_login b a
same_right b x a h =
    let p = same_parts x a h in
    ap (λ t. b.host == t && b.user_id == x.user_id) p.0
    ∙ ap (λ t. b.host == a.host && b.user_id == t) p.1

any-put_login :
    (b a : Account) (xs : List Account)
    → any (same_login b) (put_login a xs) ≡ (any (same_login b) xs || same_login b a)
any-put_login b a [] = ground arith
any-put_login b a (x ∷ xs) = elim (Bool-cases (same_login x a)) [
  | inl e ↦ rw e (ground (arith, same_right b x a e))
  | inr e ↦ rw e (ground (arith, any-put_login b a xs))
]

pub put_login-Single : (a : Account) (xs : List Account) → Single xs → Single (put_login a xs)
put_login-Single a [] s = (refl, tt)
put_login-Single a (x ∷ xs) s = elim (Bool-cases (same_login x a)) [
  | inl e ↦ rw e (sym (same_any x a xs e) ∙ s.0, s.1)
  | inr e ↦ rw e (any-put_login x a xs ∙ ground (arith, s.0, e), put_login-Single a xs s.1)
]

-- An account that the login of `a` takes the place of has the id of `a`, if its id is `id`.
abbrev pub Keeps : Account → String → List Account → Type 0
Keeps a id [] = Unit
Keeps a id (x ∷ xs) = (same_login x a ≡ true → x.id ≡ id → a.id ≡ id) × Keeps a id xs

pub has_account-put_login :
    (a : Account) (id : String) (xs : List Account)
    → Keeps a id xs
    → has_account xs id ≡ true
    → has_account (put_login a xs) id ≡ true
has_account-put_login a id [] k h = absurd (ground (arith, h))
has_account-put_login a id (x ∷ xs) k h = elim (Bool-cases (same_login x a)) [
  | inl e ↦ rw e (ground (arith, h, k.0 e, eq_iff x.id id, eq_iff a.id id))
  | inr e ↦ rw e (ground (arith, h, has_account-put_login a id xs k.1))
]

pub has_new : (a : Account) (xs : List Account) → has_account (put_login a xs) a.id ≡ true
has_new a [] = ground (arith, eq_iff a.id a.id)
has_new a (x ∷ xs) = elim (Bool-cases (same_login x a)) [
  | inl e ↦ rw e (ground (arith, eq_iff a.id a.id))
  | inr e ↦ rw e (ground (arith, has_new a xs))
]

abbrev pub KeepsActive : Account → Option String → List Account → Type 0
KeepsActive a none accounts = Unit
KeepsActive a (some id) accounts = Keeps a id accounts

-- The Rust side stores no login twice. Accounts that are loaded contain the active one, if there is
-- one before, and a login that comes again for the active account keeps its id.
abbrev pub Allowed : Operation → AccountsState → Type 0
Allowed (arrive as_) st = Single as_ × (st.is_loaded ≡ false → Present st.active_account_id as_)
Allowed (load as_) st = Single as_ × (st.is_loaded ≡ false → Present st.active_account_id as_)
Allowed load_fast st = st.is_loaded ≡ false → Present st.active_account_id (or_none st.early)
Allowed (add_one a) st = KeepsActive a st.active_account_id st.accounts
Allowed (remove_one done id) st = Unit
Allowed (log_out done id) st = Unit
Allowed (switch_to id) st = Unit
Allowed (bump id) st = Unit
