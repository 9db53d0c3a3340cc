-- ===== src/Tasks/Schema/Valid.antt =====
-- What holds of the tasks of a file that is accepted: their ids, and the default.
use notedeck.Prelude.{
  ℕ, suc, ◌≤◌, String, Bool, true, false, List, [], ◌∷◌, map, find, includes, includes-append, add,
  NoRepeat, if◌then◌else◌, ◌≡◌, refl, ap, arith, eq_iff, Bool-cases, inl, inr,
}
use notedeck.Tasks.{TaskDefinition}
use notedeck.Tasks.Schema.{Place, root, Problem, duplicate_id, Parsed, ok, parse_error, ◌>>=◌}
use notedeck.Tasks.Schema.File.{demote_from, enforce_single_default, check_ids}

abbrev pub ids : List TaskDefinition → List String
ids ts = map (λ t. t.id) ts

abbrev pub count_defaults : List TaskDefinition → ℕ
count_defaults [] = 0
count_defaults (t ∷ ts) = let rest = count_defaults ts in if t.is_default then suc rest else rest

pub ids-demote_from : (seen : Bool) (ts : List TaskDefinition) → ids (demote_from seen ts) ≡ ids ts
ids-demote_from seen [] = refl
ids-demote_from seen (t ∷ ts) = elim (Bool-cases t.is_default) [
  | inl e ↦ ground (arith, ids-demote_from true ts)
  | inr e ↦ rw e (ap (λ r. t.id ∷ r) (ids-demote_from seen ts))
]

pub count_defaults-demote_from :
    (seen : Bool) (ts : List TaskDefinition)
    → count_defaults (demote_from seen ts) ≤ (if seen then 0 else 1)
count_defaults-demote_from seen [] = ground arith
count_defaults-demote_from seen (t ∷ ts) =
    ground (arith, count_defaults-demote_from seen ts, count_defaults-demote_from true ts)

-- The first of the defaults stays the default.
pub find-enforce_single_default :
    (ts : List TaskDefinition)
    → find (λ t. t.is_default) (enforce_single_default ts) ≡ find (λ t. t.is_default) ts
unfolding enforce_single_default
find-enforce_single_default [] = refl
find-enforce_single_default (t ∷ ts) = elim (Bool-cases t.is_default) [
  | inl e ↦ rw e (rw e refl)
  | inr e ↦ rw e (rw e (find-enforce_single_default ts))
]

pub bind-ok {ℓ} :
    {A B : Type ℓ} {b : B} (m : Parsed A) (f : A → Parsed B)
    → m >>= f ≡ ok b
    → (a : A) × (m ≡ ok a) × (f a ≡ ok b)
bind-ok (ok a) f h = (a, refl, h)
bind-ok (parse_error at what) f h = absurd cc

disjoint_add :
    (seen : List String) (x k : String) → includes (add seen x) k ≡ false → includes seen k ≡ false
disjoint_add seen x k h = ground (arith, includes-append seen (x ∷ []) k)

add_self : (seen : List String) (x : String) → includes (add seen x) x ≡ true
add_self seen x = ground (arith, includes-append seen (x ∷ []) x, eq_iff x x)

-- Every id that `check_ids` passes is new.
abbrev AllNew : List String → List TaskDefinition → Type 0
AllNew seen [] = Unit
AllNew seen (t ∷ ts) = (includes seen t.id ≡ false) × AllNew seen ts

AllNew-smaller :
    (seen : List String) (x : String) (ts : List TaskDefinition)
    → AllNew (add seen x) ts
    → AllNew seen ts × (includes (ids ts) x ≡ false)
AllNew-smaller seen x [] a = (tt, refl)
AllNew-smaller seen x (t ∷ ts) a =
    let rest = AllNew-smaller seen x ts a.1 in
    (
      (disjoint_add seen x t.id a.0, rest.0),
      ground (arith, add_self seen x, a.0, rest.1, eq_iff t.id x),
    )

past_test :
    (b : Bool) (at : Place) (what : Problem) (p : Parsed {0} Unit)
    → (if b then parse_error at what else p) ≡ ok tt
    → (b ≡ false) × (p ≡ ok tt)
past_test true at what p h = absurd cc
past_test false at what p h = (refl, h)

check_ids-AllNew :
    (seen : List String) (ts : List TaskDefinition)
    → check_ids seen ts ≡ ok tt
    → AllNew seen ts × NoRepeat (ids ts)
check_ids-AllNew seen [] h = (tt, tt)
check_ids-AllNew seen (t ∷ ts) h =
    let p =
      past_test (includes seen t.id) root (duplicate_id t.id) (check_ids (add seen t.id) ts) h in
    let rest = check_ids-AllNew (add seen t.id) ts p.1 in
    let below = AllNew-smaller seen t.id ts rest.0 in ((p.0, below.0), (below.1, rest.1))

pub check_ids-NoRepeat : (ts : List TaskDefinition) → check_ids [] ts ≡ ok tt → NoRepeat (ids ts)
check_ids-NoRepeat ts h = (check_ids-AllNew [] ts h).1
