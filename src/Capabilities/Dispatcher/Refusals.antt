-- ===== src/Capabilities/Dispatcher/Refusals.antt =====
-- When the dispatcher runs a capability, and what it leaves alone when it does not.
use Prim.Native.String.{◌++◌ as str_append}
use text.Mathlib.TextLemmas.{append_cancel_left}
use notedeck.Prelude.{
  String-cases, String, Bool, true, false, not, Option, none, some, or_else, List, [], ◌∷◌, ◌≡◌,
  ◌≢◌, ◌⊎◌, ◌==◌, inl, inr, refl, subst, List-cases, arith, keep_if, Bool-cases, Option-cases,
}
use notedeck.Prelude.Dict.{Dict}
use notedeck.Permissions.Principal.{Principal, plugin}
use notedeck.Permissions.Schema.{PermissionKey, allowed, mem_key, key_eq, key_eq_sound}
use notedeck.Permissions.Store.{PermissionsFile, resolve_for, confirm_skip_scope}
use notedeck.Permissions.Store.Consents.{is_confirm_skipped-add}
use notedeck.Capabilities.Registry.{World, ConfirmOptions, Command}
use notedeck.Capabilities.Dispatcher.{
  DispatchError, ConfirmDecision, done, failed, permission_denied, preflight_failed, user_cancelled,
  unknown_capability, execute_failed, check_permissions, find_capability, build_confirm_options,
  attributed, skip_scope, is_skipped, run_command, after_decision, confirm_and_run, preflight_error,
  dispatch_found, dispatch_capability, result_of, record_denial, remember_consent,
}

-- May this principal use this key?
abbrev pub may : PermissionsFile → Principal → PermissionKey → Bool
may file p key = elim (resolve_for file p) [ none ↦ true | some m ↦ allowed m key ]

keep_if-not-nil :
    (m : PermissionKey → Bool) (ks : List PermissionKey) (k : PermissionKey)
    → keep_if (λ j. not (m j)) ks ≡ []
    → mem_key ks k ≡ true
    → m k ≡ true
unfolding mem_key
keep_if-not-nil m [] k h e = cc
keep_if-not-nil m (x ∷ ks) k h e = elim (Bool-cases (key_eq x k)) [
  | inl f ↦ subst (λ y. m y ≡ true) (key_eq_sound x k f) (ground arith)
  | inr f ↦ keep_if-not-nil m ks k (ground arith) (ground arith)
]

-- With nothing missing, every required key is granted.
check_permissions-nil :
    (ks : List PermissionKey) (p : Principal) (file : PermissionsFile) (k : PermissionKey)
    → check_permissions ks p file ≡ []
    → mem_key ks k ≡ true
    → may file p k ≡ true
unfolding check_permissions
check_permissions-nil ks p file k h e = elim (Option-cases (resolve_for file p)) [
  | inl n ↦ rw (n, may)
  | inr (m, n) ↦ rw (n, may) (keep_if-not-nil (allowed m) ks k (rw (n, check_permissions) at h) e)
]

module _ {S P R : Type 0} (dialog : ConfirmOptions → World S → ConfirmDecision × World S)
    (c : Command S P R) (params : P) (p : Principal) (w : World S) where
  abbrev pub Consented : Type 0
  Consented =
      (build_confirm_options c params p w ≡ none)
      ⊎ (is_skipped c p w.store.file ≡ true)
      ⊎ ((o : ConfirmOptions) × (build_confirm_options c params p w ≡ some o)
          × ((dialog (attributed c p o) w).0.accepted ≡ true))

  confirm_and_run-done : (r : R) → (confirm_and_run dialog c params p w).0 ≡ done r → Consented
  unfolding confirm_and_run after_decision
  confirm_and_run-done r h = elim (Option-cases (build_confirm_options c params p w)) [
    | inl e ↦ inl e
    | inr (o, e) ↦ elim (Bool-cases (is_skipped c p w.store.file)) [
      | inl f ↦ inr (inl f)
      | inr f ↦ elim (Bool-cases (dialog (attributed c p o) w).0.accepted) [
        | inl g ↦ inr (inr (o, e, g))
        | inr g ↦ absurd (ground arith)
      ]
    ]
  ]

  dispatch_found-done :
      (r : R)
      → (dispatch_found dialog c params p w).0 ≡ done r
      → ((k : PermissionKey)
          → mem_key (or_else c.permissions []) k ≡ true
          → may w.store.file p k ≡ true)
        × (preflight_error c params w ≡ none)
        × Consented
  unfolding dispatch_found
  dispatch_found-done r h =
      elim (List-cases (check_permissions (or_else c.permissions []) p w.store.file)) [
        | inr (k, ks, e) ↦ absurd (ground arith)
        | inl e ↦ elim (Option-cases (preflight_error c params w)) [
          | inr (m, f) ↦ absurd (ground arith)
          | inl f ↦ (
            λ k. check_permissions-nil (or_else c.permissions []) p w.store.file k e,
            f,
            confirm_and_run-done r (ground arith),
          )
        ]
      ]

  -- What a call that did not run has changed.
  abbrev pub Untouched : DispatchError → World S → Type 0
  Untouched unknown_capability w' = w' ≡ w
  Untouched (preflight_failed m) w' = w' ≡ w
  Untouched (permission_denied ks) w' = w' ≡ record_denial p c.id ks w
  Untouched user_cancelled w' =
      (o : ConfirmOptions) × (build_confirm_options c params p w ≡ some o)
      × (w' ≡ (dialog (attributed c p o) w).1)
  Untouched (execute_failed m) w' = Consented

  confirm_and_run-cancelled :
      (confirm_and_run dialog c params p w).0 ≡ failed user_cancelled
      → (o : ConfirmOptions) × (build_confirm_options c params p w ≡ some o)
        × ((confirm_and_run dialog c params p w).1 ≡ (dialog (attributed c p o) w).1)
  unfolding confirm_and_run after_decision run_command result_of
  confirm_and_run-cancelled h = elim (Option-cases (build_confirm_options c params p w)) [
    | inl e ↦ absurd (ground arith)
    | inr (o, e) ↦ (o, e, ground arith)
  ]

  confirm_and_run-failed :
      (m : String) → (confirm_and_run dialog c params p w).0 ≡ failed (execute_failed m) → Consented
  unfolding confirm_and_run after_decision
  confirm_and_run-failed m h = elim (Option-cases (build_confirm_options c params p w)) [
    | inl e ↦ inl e
    | inr (o, e) ↦ elim (Bool-cases (is_skipped c p w.store.file)) [
      | inl f ↦ inr (inl f)
      | inr f ↦ elim (Bool-cases (dialog (attributed c p o) w).0.accepted) [
        | inl g ↦ inr (inr (o, e, g))
        | inr g ↦ absurd (ground arith)
      ]
    ]
  ]

  -- Both ends lie behind the permissions and the preflight.
  dispatch_found-inner :
      (e : DispatchError)
      → (dispatch_found dialog c params p w).0 ≡ failed e
      → ((e ≡ user_cancelled) ⊎ ((m : String) × (e ≡ execute_failed m)))
      → dispatch_found dialog c params p w ≡ confirm_and_run dialog c params p w
  unfolding dispatch_found
  dispatch_found-inner e h k = ground arith

  dispatch_found-registered : (dispatch_found dialog c params p w).0 ≡ failed unknown_capability → ⊥
  unfolding dispatch_found confirm_and_run after_decision run_command result_of
  dispatch_found-registered h = ground arith

  world_of_denied :
      (ks : List PermissionKey)
      → (dispatch_found dialog c params p w).0 ≡ failed (permission_denied ks)
      → (dispatch_found dialog c params p w).1 ≡ record_denial p c.id ks w
  unfolding dispatch_found confirm_and_run after_decision run_command result_of
  world_of_denied ks h = ground arith

  world_of_preflight :
      (m : String)
      → (dispatch_found dialog c params p w).0 ≡ failed (preflight_failed m)
      → (dispatch_found dialog c params p w).1 ≡ w
  unfolding dispatch_found confirm_and_run after_decision run_command result_of
  world_of_preflight m h = ground arith

  dispatch_found-Untouched :
      (e : DispatchError)
      → (dispatch_found dialog c params p w).0 ≡ failed e
      → Untouched e (dispatch_found dialog c params p w).1
  dispatch_found-Untouched unknown_capability h = absurd (dispatch_found-registered h)
  dispatch_found-Untouched (preflight_failed m) h = world_of_preflight m h
  dispatch_found-Untouched (permission_denied ks) h = world_of_denied ks h
  dispatch_found-Untouched user_cancelled h =
      let i = dispatch_found-inner user_cancelled h (inl refl) in
      rw i (confirm_and_run-cancelled (rw i at h))
  dispatch_found-Untouched (execute_failed m) h =
      confirm_and_run-failed m (rw (dispatch_found-inner (execute_failed m) h (inr (m, refl))) at h)

module _ {S P R : Type 0} (dialog : ConfirmOptions → World S → ConfirmDecision × World S)
    (reg : Dict (Command S P R)) (id : String) (params : P) (p : Principal) (w : World S) where
  -- A capability runs to a result only if it is registered, every permission that it requires is
  -- granted to the caller, the preflight passes, and the run needs no consent, or there is a
  -- remembered one, or the dialog gave one.
  pub dispatch_capability-done :
      (r : R)
      → (dispatch_capability dialog reg id params p w).0 ≡ done r
      → (c : Command S P R) × (find_capability reg id ≡ some c)
        × ((k : PermissionKey)
            → mem_key (or_else c.permissions []) k ≡ true
            → may w.store.file p k ≡ true)
        × (preflight_error c params w ≡ none)
        × Consented dialog c params p w
  unfolding dispatch_capability
  dispatch_capability-done r h = elim (Option-cases (find_capability reg id)) [
    | inl e ↦ absurd (ground arith)
    | inr (c, e) ↦
        let (granted, passed, consent) = dispatch_found-done dialog c params p w r (ground arith) in
        (c, e, granted, passed, consent)
  ]

  -- A call that fails: with an unknown capability or a failed preflight the world is as it was; a
  -- denied call only adds to the record of denials; after a refusal in the dialog the world is as
  -- the dialog left it; and what failed in its run needed no consent or had one.
  pub dispatch_capability-refused :
      (e : DispatchError)
      → (dispatch_capability dialog reg id params p w).0 ≡ failed e
      → ((find_capability reg id ≡ none)
          × (e ≡ unknown_capability)
          × ((dispatch_capability dialog reg id params p w).1 ≡ w))
        ⊎ ((c : Command S P R) × (find_capability reg id ≡ some c)
            × Untouched dialog c params p w e (dispatch_capability dialog reg id params p w).1)
  unfolding dispatch_capability
  dispatch_capability-refused e h = elim (Option-cases (find_capability reg id)) [
    | inl f ↦ inl (f, ground arith, ground arith)
    | inr (c, f) ↦ inr (
      c,
      f,
      rw (f, dispatch_capability) (dispatch_found-Untouched dialog c params p w e (ground arith)),
    )
  ]

plugin_scopes_differ :
    (id id' : String) → id ≢ id' → (str_append "plugin:" id == str_append "plugin:" id') ≡ false
plugin_scopes_differ id id' h =
    elim (String-cases (str_append "plugin:" id) (str_append "plugin:" id')) [
      | inl (p, e) ↦ absurd (h (append_cancel_left "plugin:" id id' p))
      | inr (p, e) ↦ e
    ]

-- A consent that is remembered for one plugin, for a capability that does not remember in its own
-- way, changes nothing of what is skipped for another plugin.
pub is_skipped-remember_consent :
    {S P R : Type 0} (c c' : Command S P R) (params : P) (id id' : String)
    (name name' : Option String) (w : World S)
    → id ≢ id'
    → c.on_confirm_remember ≡ none
    → is_skipped c' (plugin id' name') (remember_consent c params (plugin id name) w).store.file
      ≡ is_skipped c' (plugin id' name') w.store.file
unfolding is_skipped remember_consent skip_scope confirm_skip_scope
is_skipped-remember_consent c c' params id id' name name' w h e = rw e (
    ground (
      arith,
      is_confirm_skipped-add w.store (str_append "plugin:" id) c.id (str_append "plugin:" id')
          c'.id,
      plugin_scopes_differ id id' h,
    ))
