-- ===== src/Sessions/Readable.antt =====
-- The sessions that reading can give.
use notedeck.Prelude.{
  String, Bool, true, false, not, Option, none, some, List, [], ◌∷◌, length, keep_if, ◌==◌,
  if◌then◌else◌, ◌≡◌, refl, ap, arith, Bool-cases, inl, inr,
}
use notedeck.Tasks.{
  Json, null, bool, natural, text, array, object, items_of, Fields, no_fields, field, member,
}
use notedeck.Sessions.{
  AiSession, is_truthy, is_placeholder, text_items, list_or_empty, number_or, truthy_or, skill_id,
  texts_in, unless_empty, unknown_of, unless_no_fields, session_of,
}
use notedeck.Sessions.Keys.{NoKeyTwice, AllUnknown, unknown_of-AllUnknown, unknown_of-NoKeyTwice}

abbrev pub is_number : Json → Bool
is_number (natural n) = true
is_number (Json.other s) = true
is_number _ = false

abbrev filled : String → Option String
filled s = if s == "" then none else some s

abbrev pub kept_persona : Option String → Option String
kept_persona none = none
kept_persona (some s) = filled s

abbrev pub Unknowns : Option Fields → Type 0
Unknowns none = Unit
Unknowns (some fs) = (unless_no_fields fs ≡ some fs) × AllUnknown fs × NoKeyTwice fs

abbrev pub kept_ids : Option (List String) → Option (List String)
kept_ids none = none
kept_ids (some ss) = unless_empty (texts_in (items_of (text_items ss)))

-- A session that reading can give.
pub record Readable (s : AiSession) : Type 0 where
  pub versioned : is_number s.schema_version ≡ true
  pub has_kind : is_truthy s.kind ≡ true
  pub created : is_number s.created_at ≡ true
  pub updated : is_number s.updated_at ≡ true
  pub kept : keep_if (λ m. not (is_placeholder m)) s.messages ≡ s.messages
  pub counted : s.message_count ≡ length s.messages
  pub no_preview : s.last_message_preview ≡ ""
  pub persona : kept_persona s.persona_skill_id ≡ s.persona_skill_id
  pub triggered : kept_ids s.triggered_skill_ids ≡ s.triggered_skill_ids
  pub unknowns : Unknowns s.unknown_fields

pub number_or-number : (v d : Json) → is_number v ≡ true → number_or (some v) d ≡ v
number_or-number (natural n) d h = refl
number_or-number (Json.other s) d h = refl
number_or-number null d h = absurd (ground (arith, h))
number_or-number (bool b) d h = absurd (ground (arith, h))
number_or-number (text s) d h = absurd (ground (arith, h))
number_or-number (array vs) d h = absurd (ground (arith, h))
number_or-number (object fs) d h = absurd (ground (arith, h))

is_number-number_or :
    (o : Option Json) (d : Json) → is_number d ≡ true → is_number (number_or o d) ≡ true
is_number-number_or none d h = h
is_number-number_or (some (natural n)) d h = refl
is_number-number_or (some (Json.other s)) d h = refl
is_number-number_or (some null) d h = h
is_number-number_or (some (bool b)) d h = h
is_number-number_or (some (text s)) d h = h
is_number-number_or (some (array vs)) d h = h
is_number-number_or (some (object fs)) d h = h

is_truthy-truthy_or :
    (o : Option Json) (d : Json) → is_truthy d ≡ true → is_truthy (truthy_or o d) ≡ true
is_truthy-truthy_or none d h = h
is_truthy-truthy_or (some v) d h = elim (Bool-cases (is_truthy v)) [
  | inl e ↦ rw e e
  | inr e ↦ rw e h
]

keep_if_twice : (p : Json → Bool) (vs : List Json) → keep_if p (keep_if p vs) ≡ keep_if p vs
keep_if_twice p [] = refl
keep_if_twice p (v ∷ vs) = elim (Bool-cases (p v)) [
  | inl e ↦ rw e (rw e (ap (λ r. v ∷ r) (keep_if_twice p vs)))
  | inr e ↦ rw e (keep_if_twice p vs)
]

skill_id-kept : (o : Option Json) → kept_persona (skill_id o) ≡ skill_id o
skill_id-kept none = refl
skill_id-kept (some (text s)) = elim (Bool-cases (s == "")) [
  | inl e ↦ rw e refl
  | inr e ↦ rw e (rw e refl)
]
skill_id-kept (some null) = refl
skill_id-kept (some (bool b)) = refl
skill_id-kept (some (natural n)) = refl
skill_id-kept (some (Json.other s)) = refl
skill_id-kept (some (array vs)) = refl
skill_id-kept (some (object fs)) = refl

texts_in_twice : (vs : List Json) → texts_in (items_of (text_items (texts_in vs))) ≡ texts_in vs
texts_in_twice [] = refl
texts_in_twice (text s ∷ vs) = elim (Bool-cases (s == "")) [
  | inl e ↦ rw e (texts_in_twice vs)
  | inr e ↦ rw e (rw e (ap (λ r. s ∷ r) (texts_in_twice vs)))
]
texts_in_twice (null ∷ vs) = texts_in_twice vs
texts_in_twice (bool b ∷ vs) = texts_in_twice vs
texts_in_twice (natural n ∷ vs) = texts_in_twice vs
texts_in_twice (Json.other s ∷ vs) = texts_in_twice vs
texts_in_twice (array v ∷ vs) = texts_in_twice vs
texts_in_twice (object fs ∷ vs) = texts_in_twice vs

kept_ids-unless_empty :
    (ss : List String)
    → texts_in (items_of (text_items ss)) ≡ ss
    → kept_ids (unless_empty ss) ≡ unless_empty ss
kept_ids-unless_empty [] h = refl
kept_ids-unless_empty (s ∷ ss) h = ap unless_empty h

unless_no_fields-Unknowns :
    (fs : Fields) → AllUnknown fs → NoKeyTwice fs → Unknowns (unless_no_fields fs)
unless_no_fields-Unknowns no_fields a d = tt
unless_no_fields-Unknowns (field k v fs) a d = (refl, a, d)

pub session_of-Readable :
    (now : Json) (r : Fields) → is_number now ≡ true → NoKeyTwice r → Readable (session_of now r)
unfolding session_of
session_of-Readable now r h d = record {
  versioned = is_number-number_or (member r "schemaVersion") (natural 1) refl;
  has_kind = is_truthy-truthy_or (member r "kind") (text "chat") refl;
  created = is_number-number_or (member r "createdAt") now h;
  updated = is_number-number_or (member r "updatedAt") now h;
  kept = keep_if_twice (λ m. not (is_placeholder m)) (list_or_empty (member r "messages"));
  counted = refl;
  no_preview = refl;
  persona = skill_id-kept (member r "personaSkillId");
  triggered =
      kept_ids-unless_empty (texts_in (list_or_empty (member r "triggeredSkillIds")))
        (texts_in_twice (list_or_empty (member r "triggeredSkillIds")));
  unknowns =
      unless_no_fields-Unknowns (unknown_of r) (unknown_of-AllUnknown r)
        (unknown_of-NoKeyTwice r d);
}
