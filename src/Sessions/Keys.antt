-- ===== src/Sessions/Keys.antt =====
-- The fields of an object that a session is written to.
use notedeck.Prelude.{
  String, Bool, true, false, ◌||◌, some, ◌==◌, if◌then◌else◌, ◌≡◌, refl, sym, ap, ◌∙◌, arith,
  eq_iff, Bool-cases, String-cases, inl, inr,
}
use notedeck.Tasks.{Json, Fields, no_fields, field, member}
use notedeck.Sessions.{is_known, set_field, set_fields, unknown_of}

abbrev pub has_key : Fields → String → Bool
has_key no_fields k = false
has_key (field j v fs) k = j == k || has_key fs k

abbrev pub append_fields : Fields → Fields → Fields
append_fields no_fields gs = gs
append_fields (field k v fs) gs = field k v (append_fields fs gs)

-- As in every object, no key stands twice.
abbrev pub NoKeyTwice : Fields → Type 0
NoKeyTwice no_fields = Unit
NoKeyTwice (field k v fs) = (has_key fs k ≡ false) × NoKeyTwice fs

-- No key of the first stands in the second.
abbrev pub Apart : Fields → Fields → Type 0
Apart no_fields gs = Unit
Apart (field k v fs) gs = (has_key gs k ≡ false) × Apart fs gs

set_field-new :
    (out : Fields) (k : String) (v : Json)
    → has_key out k ≡ false
    → set_field out k v ≡ append_fields out (field k v no_fields)
set_field-new no_fields k v h = refl
set_field-new (field j w fs) k v h = elim (Bool-cases (j == k)) [
  | inl e ↦ absurd (ground (arith, h, e))
  | inr e ↦ rw e (ap (field j w) (set_field-new fs k v (ground (arith, h))))
]

append_assoc :
    (as_ bs cs : Fields)
    → append_fields (append_fields as_ bs) cs ≡ append_fields as_ (append_fields bs cs)
append_assoc no_fields bs cs = refl
append_assoc (field k v fs) bs cs = ap (field k v) (append_assoc fs bs cs)

append-none : (fs : Fields) → append_fields fs no_fields ≡ fs
append-none no_fields = refl
append-none (field k v fs) = ap (field k v) (append-none fs)

has_key-append :
    (fs gs : Fields) (k : String) → has_key (append_fields fs gs) k ≡ (has_key fs k || has_key gs k)
has_key-append no_fields gs k = refl
has_key-append (field j v fs) gs k = ground (arith, has_key-append fs gs k)

-- Keys that are new are appended.
set_fields-new :
    (out us : Fields)
    → NoKeyTwice us
    → ((k : String) → has_key us k ≡ true → has_key out k ≡ false)
    → set_fields out us ≡ append_fields out us
set_fields-new out no_fields d new = sym (append-none out)
set_fields-new out (field k v us) d new =
    let here : has_key (field k v us) k ≡ true = ground (arith, eq_iff k k) in
    ap (λ o. set_fields o us) (set_field-new out k v (new k here))
    ∙ set_fields-new (append_fields out (field k v no_fields)) us d.1 (λ j h.
      has_key-append out (field k v no_fields) j ∙ ground (arith, d.0, h, new j, eq_iff k j))
    ∙ append_assoc out (field k v no_fields) us

-- All keys are unknown.
abbrev pub AllUnknown : Fields → Type 0
AllUnknown no_fields = Unit
AllUnknown (field k v fs) = (is_known k ≡ false) × AllUnknown fs

pub unknown_of-fixed : (fs : Fields) → AllUnknown fs → unknown_of fs ≡ fs
unknown_of-fixed no_fields a = refl
unknown_of-fixed (field k v fs) a = rw a.0 (ap (field k v) (unknown_of-fixed fs a.1))

pub unknown_of-AllUnknown : (fs : Fields) → AllUnknown (unknown_of fs)
unknown_of-AllUnknown no_fields = tt
unknown_of-AllUnknown (field k v fs) = elim (Bool-cases (is_known k)) [
  | inl e ↦ rw e (unknown_of-AllUnknown fs)
  | inr e ↦ rw e (e, unknown_of-AllUnknown fs)
]

pub has_key-unknown :
    (fs : Fields) (k : String) → AllUnknown fs → is_known k ≡ true → has_key fs k ≡ false
has_key-unknown no_fields k a h = refl
has_key-unknown (field j v fs) k a h = elim (String-cases j k) [
  | inl (p, e) ↦ absurd (ground (arith, sym a.0 ∙ ap is_known p ∙ h))
  | inr (p, e) ↦ rw e (has_key-unknown fs k a.1 h)
]

member-set_field :
    (out : Fields) (j k : String) (v : Json)
    → member (set_field out j v) k ≡ (if j == k then some v else member out k)
member-set_field no_fields j k v = refl
member-set_field (field i w fs) j k v =
    ground (arith, member-set_field fs j k v, eq_iff i j, eq_iff j k, eq_iff i k)

-- A key that is not set keeps its value.
pub member-set_fields :
    (out us : Fields) (k : String)
    → has_key us k ≡ false
    → member (set_fields out us) k ≡ member out k
member-set_fields out no_fields k h = refl
member-set_fields out (field j v us) k h =
    member-set_fields (set_field out j v) us k (ground (arith, h))
    ∙ member-set_field out j k v
    ∙ ground (arith, h)

pub member-set_other :
    (out : Fields) (j k : String) (v : Json)
    → (j == k) ≡ false
    → member (set_field out j v) k ≡ member out k
member-set_other out j k v h = rw h at (member-set_field out j k v)

pub member-set_same : (out : Fields) (k : String) (v : Json) → member (set_field out k v) k ≡ some v
member-set_same out k v = ground (arith, member-set_field out k k v, eq_iff k k)

pub unknown_of-set_known :
    (out : Fields) (k : String) (v : Json)
    → is_known k ≡ true
    → unknown_of (set_field out k v) ≡ unknown_of out
unknown_of-set_known no_fields k v h = rw h refl
unknown_of-set_known (field j w fs) k v h = elim (String-cases j k) [
  | inl (p, e) ↦ let known : is_known j ≡ true = ap is_known p ∙ h in rw (e, known) refl
  | inr (p, e) ↦ elim (Bool-cases (is_known j)) [
    | inl f ↦ rw (e, f) (unknown_of-set_known fs k v h)
    | inr f ↦ rw (e, f) (ap (field j w) (unknown_of-set_known fs k v h))
  ]
]

unknown_of-set_unknown :
    (out : Fields) (k : String) (v : Json)
    → is_known k ≡ false
    → unknown_of (set_field out k v) ≡ set_field (unknown_of out) k v
unknown_of-set_unknown no_fields k v h = rw h refl
unknown_of-set_unknown (field j w fs) k v h = elim (String-cases j k) [
  | inl (p, e) ↦ let other : is_known j ≡ false = ap is_known p ∙ h in rw (e, other) (rw e refl)
  | inr (p, e) ↦ elim (Bool-cases (is_known j)) [
    | inl f ↦ rw (e, f) (unknown_of-set_unknown fs k v h)
    | inr f ↦ rw (e, f) (rw e (ap (field j w) (unknown_of-set_unknown fs k v h)))
  ]
]

unknown_of-set_fields :
    (out us : Fields)
    → AllUnknown us
    → unknown_of (set_fields out us) ≡ set_fields (unknown_of out) us
unknown_of-set_fields out no_fields a = refl
unknown_of-set_fields out (field k v us) a =
    unknown_of-set_fields (set_field out k v) us a.1
    ∙ ap (λ o. set_fields o us) (unknown_of-set_unknown out k v a.0)

-- Of what is set on known fields, the unknown ones are found again.
pub unknown_of-written :
    (out us : Fields)
    → unknown_of out ≡ no_fields
    → AllUnknown us
    → NoKeyTwice us
    → unknown_of (set_fields out us) ≡ us
unknown_of-written out us h a d =
    unknown_of-set_fields out us a
    ∙ ap (λ o. set_fields o us) h
    ∙ set_fields-new no_fields us d (λ k e. refl)

both_false : (a b : Bool) → (a || b) ≡ false → (a ≡ false) × (b ≡ false)
both_false a b h = (ground (arith, h), ground (arith, h))

has_key-unknown_of :
    (fs : Fields) (k : String) → has_key fs k ≡ false → has_key (unknown_of fs) k ≡ false
has_key-unknown_of no_fields k h = refl
has_key-unknown_of (field j v fs) k h =
    let parts = both_false (j == k) (has_key fs k) h in
    let rest = has_key-unknown_of fs k parts.1 in
    elim (Bool-cases (is_known j)) [
      | inl e ↦ rw e rest
      | inr e ↦ rw e (ap (λ b. b || has_key (unknown_of fs) k) parts.0 ∙ rest)
    ]

pub unknown_of-NoKeyTwice : (fs : Fields) → NoKeyTwice fs → NoKeyTwice (unknown_of fs)
unknown_of-NoKeyTwice no_fields d = tt
unknown_of-NoKeyTwice (field k v fs) d = elim (Bool-cases (is_known k)) [
  | inl e ↦ rw e (unknown_of-NoKeyTwice fs d.1)
  | inr e ↦ rw e (has_key-unknown_of fs k d.0, unknown_of-NoKeyTwice fs d.1)
]
