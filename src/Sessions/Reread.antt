-- ===== src/Sessions/Reread.antt =====
-- A session that was read, written and read again.
use notedeck.Prelude.{
  ℕ, String, true, false, not, Option, none, some, List, [], ◌∷◌, length, keep_if, ◌==◌, ◌≡◌, refl,
  sym, ap, ◌∙◌, arith, Bool-cases, inl, inr,
}
use notedeck.Tasks.{Json, natural, text, array, object, items_of, Fields, no_fields, member}
use notedeck.Sessions.{
  AiSession, is_known, is_placeholder, json_items, text_items, set_persona, set_triggered,
  set_unknown, base_fields, session_fields, serialize, list_or_empty, number_or, text_or_empty,
  truthy_or, skill_id, texts_in, unless_empty, unknown_of, unless_no_fields, kept_messages,
  session_of, deserialize,
}
use notedeck.Sessions.Keys.{
  NoKeyTwice, has_key-unknown, member-set_fields, member-set_other, member-set_same,
  unknown_of-set_known, unknown_of-written,
}
use notedeck.Sessions.Readable.{
  is_number, kept_persona, Unknowns, kept_ids, Readable, number_or-number, session_of-Readable,
}

member-set_persona :
    (p : Option String) (out : Fields) (k : String)
    → ("personaSkillId" == k) ≡ false
    → member (set_persona p out) k ≡ member out k
member-set_persona none out k h = refl
member-set_persona (some s) out k h = elim (Bool-cases (s == "")) [
  | inl e ↦ rw e refl
  | inr e ↦ rw e (member-set_other out "personaSkillId" k (text s) h)
]

member-set_triggered :
    (t : Option (List String)) (out : Fields) (k : String)
    → ("triggeredSkillIds" == k) ≡ false
    → member (set_triggered t out) k ≡ member out k
member-set_triggered none out k h = refl
member-set_triggered (some []) out k h = refl
member-set_triggered (some (s ∷ ss)) out k h =
    member-set_other out "triggeredSkillIds" k (array (text_items (s ∷ ss))) h

member-set_unknown :
    (u : Option Fields) (out : Fields) (k : String)
    → Unknowns u
    → is_known k ≡ true
    → member (set_unknown u out) k ≡ member out k
member-set_unknown none out k a h = refl
member-set_unknown (some us) out k a h = member-set_fields out us k (has_key-unknown us k a.1 h)

-- A field that is always written.
member-base :
    (s : AiSession) (k : String)
    → Unknowns s.unknown_fields
    → is_known k ≡ true
    → ("personaSkillId" == k) ≡ false
    → ("triggeredSkillIds" == k) ≡ false
    → member (session_fields s) k ≡ member (base_fields s) k
unfolding session_fields
member-base s k a h p t =
    member-set_unknown s.unknown_fields
      (set_triggered s.triggered_skill_ids (set_persona s.persona_skill_id (base_fields s))) k a h
    ∙ member-set_triggered s.triggered_skill_ids (set_persona s.persona_skill_id (base_fields s)) k
        t
    ∙ member-set_persona s.persona_skill_id (base_fields s) k p

persona-read :
    (p : Option String) (out : Fields)
    → member out "personaSkillId" ≡ none
    → kept_persona p ≡ p
    → skill_id (member (set_persona p out) "personaSkillId") ≡ p
persona-read none out h k = ap skill_id h
persona-read (some s) out h k = elim (Bool-cases (s == "")) [
  | inl e ↦ absurd (ground (arith, rw e at k))
  | inr e ↦ rw e (ap skill_id (member-set_same out "personaSkillId" (text s)) ∙ rw e refl)
]

triggered-read :
    (t : Option (List String)) (out : Fields)
    → member out "triggeredSkillIds" ≡ none
    → kept_ids t ≡ t
    → unless_empty (texts_in (list_or_empty (member (set_triggered t out) "triggeredSkillIds"))) ≡ t
triggered-read none out h k = ap (λ o. unless_empty (texts_in (list_or_empty o))) h
triggered-read (some []) out h k = absurd (ground (arith, k))
triggered-read (some (s ∷ ss)) out h k =
    ap (λ o. unless_empty (texts_in (list_or_empty o)))
      (member-set_same out "triggeredSkillIds" (array (text_items (s ∷ ss))))
    ∙ k

items-json_items : (vs : List Json) → items_of (json_items vs) ≡ vs
items-json_items [] = refl
items-json_items (v ∷ vs) = ap (λ r. v ∷ r) (items-json_items vs)

unknown_of-known :
    (p : Option String) (t : Option (List String)) (out : Fields)
    → unknown_of (set_triggered t (set_persona p out)) ≡ unknown_of out
unknown_of-known p t out = triggered_last t (set_persona p out) ∙ persona_last p out
  where
    persona_last :
        (p : Option String) (out : Fields) → unknown_of (set_persona p out) ≡ unknown_of out
    persona_last none out = refl
    persona_last (some s) out = elim (Bool-cases (s == "")) [
      | inl e ↦ rw e refl
      | inr e ↦ rw e (unknown_of-set_known out "personaSkillId" (text s) refl)
    ]

    triggered_last :
        (t : Option (List String)) (out : Fields)
        → unknown_of (set_triggered t out) ≡ unknown_of out
    triggered_last none out = refl
    triggered_last (some []) out = refl
    triggered_last (some (s ∷ ss)) out =
        unknown_of-set_known out "triggeredSkillIds" (array (text_items (s ∷ ss))) refl

unknown-read :
    (u : Option Fields) (out : Fields)
    → unknown_of out ≡ no_fields
    → Unknowns u
    → unless_no_fields (unknown_of (set_unknown u out)) ≡ u
unknown-read none out h a = ap unless_no_fields h
unknown-read (some us) out h a = ap unless_no_fields (unknown_of-written out us h a.1 a.2) ∙ a.0

persona_field :
    (s : AiSession)
    → Readable s
    → skill_id (member (session_fields s) "personaSkillId") ≡ s.persona_skill_id
unfolding session_fields
persona_field s w =
    let base = base_fields s in
    let set = set_persona s.persona_skill_id base in
    ap skill_id (
      member-set_unknown s.unknown_fields (set_triggered s.triggered_skill_ids set) "personaSkillId"
        w.unknowns refl
      ∙ member-set_triggered s.triggered_skill_ids set "personaSkillId" refl)
    ∙ persona-read s.persona_skill_id base refl w.persona

triggered_field :
    (s : AiSession)
    → Readable s
    → unless_empty (texts_in (list_or_empty (member (session_fields s) "triggeredSkillIds")))
      ≡ s.triggered_skill_ids
unfolding session_fields
triggered_field s w =
    let set = set_persona s.persona_skill_id (base_fields s) in
    ap (λ o. unless_empty (texts_in (list_or_empty o)))
      (member-set_unknown s.unknown_fields (set_triggered s.triggered_skill_ids set)
        "triggeredSkillIds" w.unknowns refl)
    ∙ triggered-read s.triggered_skill_ids set
        (member-set_persona s.persona_skill_id (base_fields s) "triggeredSkillIds" refl) w.triggered

unknown_field :
    (s : AiSession)
    → Readable s
    → unless_no_fields (unknown_of (session_fields s)) ≡ s.unknown_fields
unfolding session_fields
unknown_field s w =
    unknown-read s.unknown_fields
      (set_triggered s.triggered_skill_ids (set_persona s.persona_skill_id (base_fields s)))
      (unknown_of-known s.persona_skill_id s.triggered_skill_ids (base_fields s)) w.unknowns

-- A session that reading can give, written and read at another time, is the same.
reread : (now : Json) (s : AiSession) → Readable s → session_of now (session_fields s) ≡ s
unfolding session_of
reread now s w =
    let field_at =
      λ (k : String) (h : is_known k ≡ true) (p : ("personaSkillId" == k) ≡ false)
          (t : ("triggeredSkillIds" == k) ≡ false).
        member-base s k w.unknowns h p t in
    let number_at = λ (o : Option Json) (v d : Json) (e : o ≡ some v) (h : is_number v ≡ true).
      ap (λ x. number_or x d) e ∙ number_or-number v d h in
    let base = base_fields s in
    let messages : kept_messages (member (session_fields s) "messages") ≡ s.messages =
      ap kept_messages (field_at "messages" refl refl refl)
      ∙ ap (keep_if (λ m. not (is_placeholder m))) (items-json_items s.messages)
      ∙ w.kept in
    let version =
      number_at (member (session_fields s) "schemaVersion") s.schema_version (natural 1)
        (field_at "schemaVersion" refl refl refl) w.versioned in
    let kind : truthy_or (member (session_fields s) "kind") (text "chat") ≡ s.kind =
      ap (λ o. truthy_or o (text "chat")) (field_at "kind" refl refl refl) ∙ rw w.has_kind refl in
    let created =
      number_at (member (session_fields s) "createdAt") s.created_at now
        (field_at "createdAt" refl refl refl) w.created in
    let updated =
      number_at (member (session_fields s) "updatedAt") s.updated_at now
        (field_at "updatedAt" refl refl refl) w.updated in
    let id = ap text_or_empty (field_at "id" refl refl refl) in
    let title = ap text_or_empty (field_at "title" refl refl refl) in
    let model = ap text_or_empty (field_at "model" refl refl refl) in
    let connection = ap text_or_empty (field_at "connectionId" refl refl refl) in
    let persona = persona_field s w in
    let triggered = triggered_field s w in
    let unknown = unknown_field s w in
    λ i. record {
      schema_version = version i;
      id = id i;
      kind = kind i;
      title = title i;
      model = model i;
      connection_id = connection i;
      created_at = created i;
      updated_at = updated i;
      messages = messages i;
      message_count = (ap length messages ∙ sym w.counted) i;
      last_message_preview = sym w.no_preview i;
      persona_skill_id = persona i;
      triggered_skill_ids = triggered i;
      unknown_fields = unknown i;
    }

-- A session that was read from an object without a repeated key is the same when it is written and read
-- again, at any later time, if JSON5 parses what was printed to what was printed. The time at the first
-- reading is a number.
pub deserialize_again :
    (json5_parse : String → Option Json) (stringify : Json → String) (decimal : ℕ → String)
    (now later : Json) (raw : String) (r : Fields)
    → json5_parse raw ≡ some (object r)
    → NoKeyTwice r
    → is_number now ≡ true
    → json5_parse (serialize stringify (session_of now r))
      ≡ some (object (session_fields (session_of now r)))
    → (deserialize json5_parse decimal now raw ≡ some (session_of now r))
      × (deserialize json5_parse decimal later (serialize stringify (session_of now r))
          ≡ some (session_of now r))
unfolding deserialize
deserialize_again json5_parse stringify decimal now later raw r h d number printed = (
  rw (h, deserialize) refl,
  rw (printed, deserialize)
      (ap some (reread later (session_of now r) (session_of-Readable now r number d))),
)
