-- ===== src/Permissions/Store/Sync.antt =====
-- How the hand-over of the external profile to the Rust gate ends.
use notedeck.Prelude.{
  ℕ, zero, suc, ◌+◌, ◌≤◌, ◌<◌, Bool, true, false, ◌≡◌, ◌⊎◌, inl, inr, refl, arith, Bool-cases,
}
use notedeck.Permissions.Principal.{external_id}
use notedeck.Permissions.Schema.{PermissionMap}
use notedeck.Permissions.Store.{PermissionsFile, resolve_for_profiled}
use notedeck.Permissions.Store.Load.{
  SyncOutcome, no_gate, synced, locked_down, sync_from, sync_external_to_rust,
}

-- The first attempt that succeeds, between `first` and `last`, decides; or none does.
abbrev pub EndsAtFirst : (ℕ → Bool) → ℕ → ℕ → PermissionMap → Bool → SyncOutcome → Type 0
EndsAtFirst sends first last granted lockdown outcome =
    ((n : ℕ) × (first ≤ n)
      × (n < last)
      × (sends n ≡ true)
      × ((m : ℕ) → first ≤ m → m < n → sends m ≡ false)
      × (outcome ≡ synced n granted))
    ⊎ (((m : ℕ) → first ≤ m → m < last → sends m ≡ false) × (outcome ≡ locked_down lockdown))

failed_before :
    (sends : ℕ → Bool) (first n : ℕ)
    → sends first ≡ false
    → ((m : ℕ) → first + 1 ≤ m → m < n → sends m ≡ false)
    → (m : ℕ) → first ≤ m
    → m < n
    → sends m ≡ false
failed_before sends first n h later m a b = grind arith

sync_from-EndsAtFirst :
    (rounds first : ℕ) (granted : PermissionMap) (sends : ℕ → Bool) (lockdown : Bool)
    → EndsAtFirst sends first
        (first + rounds)
        granted
        lockdown
        (sync_from rounds first granted sends lockdown)
unfolding sync_from
sync_from-EndsAtFirst zero first granted sends lockdown = inr (λ m a b. absurd (omega arith), refl)
sync_from-EndsAtFirst (suc rounds) first granted sends lockdown = elim (Bool-cases (sends first)) [
  | inl e ↦
      inl (first, omega arith, omega arith, e, λ m a b. absurd (omega arith), rw (e, sync_from))
  | inr e ↦ elim (sync_from-EndsAtFirst rounds (first + 1) granted sends lockdown) [
    | inl (n, a, b, now, before, result) ↦ inl (
      n,
      omega arith,
      omega arith,
      now,
      failed_before sends first n e before,
      rw (e, sync_from) result,
    )
    | inr (all, result) ↦ inr (
      failed_before sends first (first + suc rounds) e (λ m a b. all m a (omega arith)),
      rw (e, sync_from) result,
    )
  ]
]

-- In the browser nothing is sent to the gate and nothing is locked down. On the desktop the gate gets
-- exactly the resolved external profile, at the first of three attempts that succeeds; and if all three
-- fail it is locked down.
pub sync_external_to_rust-EndsAtFirst :
    (file : PermissionsFile) (sends : ℕ → Bool) (lockdown : Bool)
    → (sync_external_to_rust false file sends lockdown ≡ no_gate)
      × EndsAtFirst sends 1 4
          (resolve_for_profiled file external_id)
          lockdown
          (sync_external_to_rust true file sends lockdown)
unfolding sync_external_to_rust
sync_external_to_rust-EndsAtFirst file sends lockdown =
    (refl, sync_from-EndsAtFirst 3 1 (resolve_for_profiled file external_id) sends lockdown)
