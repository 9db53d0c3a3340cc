-- ===== src/Visibility/Muted.antt =====
-- What muting a user hides, and that it is undone.
use notedeck.Prelude.{
  String, Bool, true, false, not, ◌&&◌, ◌||◌, Option, none, some, List, [], ◌∷◌, includes,
  includes-append, includes-without, add, without, or_else, keep_if, ◌==◌, if◌then◌else◌, ◌≡◌, refl,
  sym, ap, ◌∙◌, fun_ext, arith, eq_iff, Bool-cases, Option-cases, String-cases, ◌⊎◌, inl, inr,
}
use notedeck.Prelude.Dict
use notedeck.Prelude.Dict.{Dict, get-put}
use notedeck.Visibility.{
  AccountSet, has, add_value, remove_value, mute_user, unmute_user, matches_word,
}
use notedeck.Visibility.Notes.{
  ShownNote, Stores, user_of, part, in_any, is_hidden, is_hard_word_muted, is_renote_muted,
  is_instance_muted, is_word_muted, is_nil, note_hidden, Notification, visible_reactions,
  visible_grouped_users, is_notification_hidden,
}

includes-add : (xs : List String) (x k : String) → includes (add xs x) k ≡ (includes xs k || x == k)
includes-add xs x k = ground (arith, includes-append xs (x ∷ []) k, eq_iff x k)

abbrev values_at : AccountSet → String → List String
values_at m account = or_else (Dict.get m account) []

includes-put :
    (m : AccountSet) (account other u : String) (vs : List String)
    → includes (values_at (Dict.put m account vs) other) u
      ≡ (if account == other then includes vs u else includes (values_at m other) u)
includes-put m account other u vs =
    ap (λ o. includes (or_else o []) u) (get-put m account other vs)
    ∙ elim (Bool-cases (account == other)) [ inl e ↦ rw e refl | inr e ↦ rw e refl ]

-- A set with one more value.
has-add_value :
    (m : AccountSet) (account v other u : String)
    → has (add_value m account v) other (some u)
      ≡ (has m other (some u) || account == other && v == u && not (u == ""))
unfolding has add_value
has-add_value m account v other u =
    let stored = includes-put m account other u (add (values_at m account) v) in
    let added = includes-add (values_at m account) v u in
    elim (String-cases account other) [
      | inl (p, e) ↦
          let same = ap (λ x. includes (values_at m x) u) p in
          ground (arith, stored, added, same, e)
      | inr (p, e) ↦ ground (arith, stored, e)
    ]

remove_value_lem :
    (m : AccountSet) (account v : String)
    → ((Dict.get m account ≡ none) × (remove_value m account v ≡ m))
      ⊎ ((vs : List String) × (Dict.get m account ≡ some vs)
          × (remove_value m account v ≡ Dict.put m account (without v vs)))
unfolding remove_value
remove_value_lem m account v = elim (Option-cases (Dict.get m account)) [
  | inl e ↦ inl (e, rw (e, remove_value) refl)
  | inr (vs, e) ↦ inr (vs, e, rw (e, remove_value) refl)
]

-- A set with one value less.
includes-remove_value :
    (m : AccountSet) (account v other u : String)
    → includes (values_at (remove_value m account v) other) u
      ≡ (includes (values_at m other) u && not (account == other && v == u))
includes-remove_value m account v other u = elim (remove_value_lem m account v) [
  | inl (e, unchanged) ↦
      let kept = ap (λ x. includes (values_at x other) u) unchanged in
      elim (String-cases account other) [
        | inl (p, f) ↦
            let empty : includes (values_at m other) u ≡ false =
              sym (ap (λ x. includes (values_at m x) u) p)
              ∙ ap (λ o. includes (or_else o []) u) e in
            ground (arith, kept, empty)
        | inr (p, f) ↦ ground (arith, kept, f)
      ]
  | inr (vs, e, changed) ↦
      let stored = includes-put m account other u (without v vs) in
      let kept = ap (λ x. includes (values_at x other) u) changed in
      let taken = includes-without vs v u in
      elim (String-cases account other) [
        | inl (p, f) ↦
            let here : includes (values_at m other) u ≡ includes vs u =
              sym (ap (λ x. includes (values_at m x) u) p)
              ∙ ap (λ o. includes (or_else o []) u) e in
            ground (arith, kept, stored, taken, here, f)
        | inr (p, f) ↦ ground (arith, kept, stored, f)
      ]
]

has-remove_value :
    (m : AccountSet) (account v other u : String)
    → has (remove_value m account v) other (some u)
      ≡ (has m other (some u) && not (account == other && v == u))
unfolding has
has-remove_value m account v other u = ground (arith, includes-remove_value m account v other u)

abbrev pub is_user : String → Option String → Bool
is_user user none = false
is_user user (some u) = user == u

-- Whether a note is by the user, answers the user, or is a renote of the user's.
abbrev pub is_about : String → ShownNote → Bool
is_about user n = in_any (λ o. is_user user o) user_of n

-- The stores with other muted users.
abbrev with_users : AccountSet → Stores → Stores
with_users us s = record s { mutes = record s.mutes { users = us } }

-- The muted users enter `is_hidden` only through the test of the account's set.
abbrev hidden_with : (Option String → Bool) → Stores → ShownNote → Bool
hidden_with muted s n =
    includes s.deleted_ids n.body.id
    || in_any muted user_of n
    || is_hard_word_muted s n
    || is_renote_muted s n
    || is_instance_muted s n

is_hidden_lem :
    (us : AccountSet) (s : Stores) (n : ShownNote)
    → is_hidden (with_users us s) n ≡ hidden_with (has us n.account_id) s n
unfolding is_hidden is_hard_word_muted is_renote_muted is_instance_muted matches_word is_word_muted
is_hidden_lem us s n = refl

in_any-or :
    (before after about : Option String → Bool) (hit : Bool) (n : ShownNote)
    → ((o : Option String) → after o ≡ (before o || hit && about o))
    → in_any after user_of n ≡ (in_any before user_of n || hit && in_any about user_of n)
in_any-or before after about hit n h =
    ground (arith, h (user_of n.body), h (part user_of n.reply), h (part user_of n.renote))

has-add_user :
    (m : AccountSet) (account user other : String) (o : Option String)
    → (user == "") ≡ false
    → has (add_value m account user) other o ≡ (has m other o || account == other && is_user user o)
unfolding has
has-add_user m account user other none lit = ground arith
has-add_user m account user other (some u) lit =
    ground (arith, has-add_value m account user other u, eq_iff user u, lit)

-- Muting a user hides for the account, beside the notes that were hidden, just the notes that are by
-- the user, answer the user, or are a renote of the user's; for other accounts it hides none. The id of
-- the user is not empty.
pub is_hidden-mute_user :
    (account user : String) (s : Stores) (n : ShownNote)
    → (user == "") ≡ false
    → is_hidden (record s { mutes = mute_user account user s.mutes }) n
      ≡ (is_hidden s n || account == n.account_id && is_about user n)
unfolding mute_user
is_hidden-mute_user account user s n lit =
    let after = add_value s.mutes.users account user in
    let parts =
      in_any-or (has s.mutes.users n.account_id) (has after n.account_id) (is_user user)
        (account == n.account_id) n
        (λ o. has-add_user s.mutes.users account user n.account_id o lit) in
    is_hidden_lem after s n
    ∙ ground (arith, parts)
    ∙ ap (λ b. b || account == n.account_id && is_about user n)
        (sym (is_hidden_lem s.mutes.users s n))

has-unmuted :
    (m : AccountSet) (account user other : String) (o : Option String)
    → has m account (some user) ≡ false
    → (user == "") ≡ false
    → has (remove_value (add_value m account user) account user) other o ≡ has m other o
unfolding has
has-unmuted m account user other none h lit = refl
has-unmuted m account user other (some u) h lit = elim (String-cases account other) [
  | inl (p, e) ↦
      let here : (user ≡ u) → has m other (some u) ≡ false =
        λ q. ap (λ x. has m other (some x)) (sym q) ∙ sym (ap (λ x. has m x (some user)) p) ∙ h in
      ground (
        arith,
        has-remove_value (add_value m account user) account user other u,
        has-add_value m account user other u,
        eq_iff user u,
        lit,
        here,
        e,
      )
  | inr (p, e) ↦ ground (
    arith,
    has-remove_value (add_value m account user) account user other u,
    has-add_value m account user other u,
    e,
  )
]

-- After a user whom the account has not muted is muted and unmuted again, every note is hidden or shown
-- as before. The id of the user is not empty.
pub is_hidden-unmute_user :
    (account user : String) (s : Stores) (n : ShownNote)
    → (user == "") ≡ false
    → has s.mutes.users account (some user) ≡ false
    → is_hidden (record s { mutes = unmute_user account user (mute_user account user s.mutes) }) n
      ≡ is_hidden s n
unfolding mute_user unmute_user
is_hidden-unmute_user account user s n lit h =
    let after = remove_value (add_value s.mutes.users account user) account user in
    let same : has after n.account_id ≡ has s.mutes.users n.account_id =
      fun_ext (λ o. has-unmuted s.mutes.users account user n.account_id o h lit) in
    is_hidden_lem after s n
    ∙ ap (λ f. hidden_with f s n) same
    ∙ sym (is_hidden_lem s.mutes.users s n)

any_shown :
    (p : String → Bool) (us : List String)
    → is_nil (keep_if p us) ≡ false
    → (u : String) × (includes us u ≡ true) × (p u ≡ true)
any_shown p [] h = absurd (ground (arith, h))
any_shown p (u ∷ us) h = elim (Bool-cases (p u)) [
  | inl e ↦ (u, ground (arith, eq_iff u u), e)
  | inr e ↦ let (v, there, q) = any_shown p us (rw e at h) in (v, ground (arith, there), q)
]

grouped :
    (a b is_r some_r nil_r is_t some_t nil_t : Bool)
    → (if a
        then true
        else if b
        then true
        else if is_r && some_r
        then nil_r
        else if is_t && some_t
        then nil_t
        else false)
      ≡ false
    → (is_r ≡ true → some_r ≡ true → nil_r ≡ false)
      × (is_r ≡ false → is_t ≡ true → some_t ≡ true → nil_t ≡ false)
grouped a b is_r some_r nil_r is_t some_t nil_t h =
    (λ x y. ground (arith, h, x, y), λ x y z. ground (arith, h, x, y, z))

-- A notification that is shown is not from a muted user, and its note is not hidden. If it groups
-- reactions or renotes and names users, one of them is not muted.
pub is_notification_hidden-shown :
    (s : Stores) (n : Notification)
    → is_notification_hidden s n ≡ false
    → (has s.mutes.users n.account_id n.user_id ≡ false)
      × (note_hidden s n.note ≡ false)
      × (n.type ≡ "reaction:grouped"
          → is_nil n.reactions ≡ false
          → (u : String) × (includes n.reactions u ≡ true)
            × (not (has s.mutes.users n.account_id (some u)) ≡ true))
      × (n.type ≡ "renote:grouped"
          → is_nil n.users ≡ false
          → (u : String) × (includes n.users u ≡ true)
            × (not (has s.mutes.users n.account_id (some u)) ≡ true))
unfolding is_notification_hidden visible_reactions visible_grouped_users
is_notification_hidden-shown s n h =
    let shown = λ (u : String). not (has s.mutes.users n.account_id (some u)) in
    let groups =
      grouped (has s.mutes.users n.account_id n.user_id) (note_hidden s n.note)
        (n.type == "reaction:grouped") (not (is_nil n.reactions))
        (is_nil (keep_if shown n.reactions)) (n.type == "renote:grouped") (not (is_nil n.users))
        (is_nil (keep_if shown n.users)) h in
    (
      ground (arith, h),
      ground (arith, h),
      λ t lit.
          any_shown shown n.reactions (groups.0 (ap (λ x. x == "reaction:grouped") t) (ap not lit)),
      λ t lit. any_shown shown n.users (
          groups.1 (ap (λ x. x == "reaction:grouped") t) (ap (λ x. x == "renote:grouped") t)
            (ap not lit)),
    )
