-- ===== src/Notes/Messages/Events.antt =====
-- Events that come more than once.
use notedeck.Prelude.{
  String, Bool, true, false, Option, none, some, List, [], ◌∷◌, is_some, ◌==◌, ◌≡◌, ◌⊎◌, refl,
  subst, sym, ap, ◌∙◌, arith, eq_iff, eq_refl, Bool-cases, Option-cases, inl, inr,
}
use notedeck.Prelude.Dict
use notedeck.Prelude.Dict.{Dict}
use notedeck.Notes.Updates.{should_apply}
use notedeck.Notes.Chat.{
  ChatMessage, ChatMessageUpdateEvent, reacted, unreacted, deleted, chat_update_sig,
  merge_chat_update,
}
use notedeck.Notes.Messages.{
  StoredMessage, MessageStore, write_merged, apply_checked, apply_found, apply_to, apply_update,
  remove,
}

-- The event is recorded, and the message is still there.
record Seen (id sig : String) (st : MessageStore) : Type 0 where
  pub recorded : Dict.get st.recent_sigs id ≡ some sig
  pub loaded : is_some (Dict.get st.message_map id) ≡ true

seen_again :
    (sigs : Dict String) (id sig : String)
    → Dict.get sigs id ≡ some sig
    → should_apply sigs id sig ≡ (false, sigs)
unfolding should_apply
seen_again sigs id sig h = rw (h, should_apply) (rw (eq_refl sig) refl)

Seen-unchanged :
    (id : String) (event : ChatMessageUpdateEvent) (st : MessageStore)
    → Seen id (chat_update_sig event) st
    → apply_to id event st ≡ st
Seen-unchanged id event st s = elim (Option-cases (Dict.get st.message_map id)) [
  | inl e ↦ ap (λ o. apply_found id event o st) e
  | inr (m, e) ↦
      ap (λ o. apply_found id event o st) e
      ∙ ap (λ c. apply_checked id event m c st)
          (seen_again st.recent_sigs id (chat_update_sig event) s.recorded)
]

recorded_after :
    (sigs : Dict String) (id sig : String)
    → (Dict.get (should_apply sigs id sig).1 id ≡ some sig)
      × ((should_apply sigs id sig).0 ≡ false → (should_apply sigs id sig).1 ≡ sigs)
unfolding should_apply
recorded_after sigs id sig =
    let put_there : Dict.get (Dict.put sigs id sig) id ≡ some sig =
      Dict.get-put sigs id id sig ∙ rw (eq_refl id) refl in
    elim (Option-cases (Dict.get sigs id)) [
      | inl e ↦ rw (e, should_apply) (put_there, λ h. absurd (ground (arith, h)))
      | inr (s, e) ↦ elim (Bool-cases (s == sig)) [
        | inl f ↦ rw (e, should_apply) (rw f (e ∙ ap some ((eq_iff s sig).0 f), λ h. refl))
        | inr f ↦ rw (e, should_apply) (rw f (put_there, λ h. absurd (ground (arith, h))))
      ]
    ]

write_merged-Seen :
    (id sig : String) (m : StoredMessage) (n : Option ChatMessage) (st : MessageStore)
    → Seen id sig st
    → Seen id sig (write_merged id m n st)
write_merged-Seen id sig m none st s = s
write_merged-Seen id sig m (some n) st s = record {
  recorded = s.recorded;
  loaded =
      ap is_some (Dict.get-put st.message_map id id (record m { message = n }))
      ∙ rw (eq_refl id) refl;
}

apply_checked-Seen :
    (id : String) (event : ChatMessageUpdateEvent) (m : StoredMessage) (s : Bool × Dict String)
    (st : MessageStore)
    → Dict.get st.message_map id ≡ some m
    → Dict.get s.1 id ≡ some (chat_update_sig event)
    → (s.0 ≡ false → s.1 ≡ st.recent_sigs)
    → Seen id (chat_update_sig event) (apply_checked id event m s st)
apply_checked-Seen id event m (false, sigs) st here recorded same = record {
  recorded = subst (λ t. Dict.get t id ≡ some (chat_update_sig event)) (same refl) recorded;
  loaded = ap is_some here;
}
apply_checked-Seen id event m (true, sigs) st here recorded same =
    write_merged-Seen id (chat_update_sig event) m (merge_chat_update m.message event)
      (record st { recent_sigs = sigs }) (record { recorded = recorded; loaded = ap is_some here })

-- The message is not there, or the event is recorded for it.
abbrev Spent : String → String → MessageStore → Type 0
Spent id sig st = (Dict.get st.message_map id ≡ none) ⊎ Seen id sig st

Spent-unchanged :
    (id : String) (event : ChatMessageUpdateEvent) (st : MessageStore)
    → Spent id (chat_update_sig event) st
    → apply_to id event st ≡ st
Spent-unchanged id event st (inl e) = ap (λ o. apply_found id event o st) e
Spent-unchanged id event st (inr s) = Seen-unchanged id event st s

apply_to-Spent :
    (id : String) (event : ChatMessageUpdateEvent) (st : MessageStore)
    → Spent id (chat_update_sig event) (apply_to id event st)
apply_to-Spent id event st = elim (Option-cases (Dict.get st.message_map id)) [
  | inl e ↦
      let once : apply_to id event st ≡ st = ap (λ o. apply_found id event o st) e in
      subst (Spent id (chat_update_sig event)) (sym once) (inl e)
  | inr (m, e) ↦
      let s = should_apply st.recent_sigs id (chat_update_sig event) in
      let once : apply_to id event st ≡ apply_checked id event m s st =
        ap (λ o. apply_found id event o st) e in
      let facts = recorded_after st.recent_sigs id (chat_update_sig event) in
      subst (Spent id (chat_update_sig event)) (sym once)
        (inr (apply_checked-Seen id event m s st e facts.0 facts.1))
]

-- What the store has of a message: the message itself, and what is recorded for it.
abbrev part : String → MessageStore → Option StoredMessage × Option String
part id st = (Dict.get st.message_map id, Dict.get st.recent_sigs id)

part-Spent :
    (id sig : String) (st after : MessageStore)
    → part id after ≡ part id st
    → Spent id sig st
    → Spent id sig after
part-Spent id sig st after same (inl e) = inl (ap (λ p. p.0) same ∙ e)
part-Spent id sig st after same (inr s) = inr (record {
  recorded = ap (λ p. p.1) same ∙ s.recorded;
  loaded = ap (λ p. is_some p.0) same ∙ s.loaded;
})

should_apply-part :
    (sigs : Dict String) (other id sig : String)
    → (other == id) ≡ false
    → Dict.get (should_apply sigs other sig).1 id ≡ Dict.get sigs id
unfolding should_apply
should_apply-part sigs other id sig h =
    let kept : Dict.get (Dict.put sigs other sig) id ≡ Dict.get sigs id =
      Dict.get-put sigs other id sig ∙ rw h refl in
    elim (Option-cases (Dict.get sigs other)) [
      | inl e ↦ rw (e, should_apply) kept
      | inr (s, e) ↦ elim (Bool-cases (s == sig)) [
        | inl f ↦ rw (e, should_apply) (rw f refl)
        | inr f ↦ rw (e, should_apply) (rw f kept)
      ]
    ]

write_merged-part :
    (other id : String) (m : StoredMessage) (n : Option ChatMessage) (st : MessageStore)
    → (other == id) ≡ false
    → part id (write_merged other m n st) ≡ part id st
write_merged-part other id m none st h = refl
write_merged-part other id m (some n) st h =
    ap (λ o. (o, Dict.get st.recent_sigs id))
      (Dict.get-put st.message_map other id (record m { message = n }) ∙ rw h refl)

apply_checked-part :
    (other id : String) (event : ChatMessageUpdateEvent) (m : StoredMessage)
    (s : Bool × Dict String) (st : MessageStore)
    → (other == id) ≡ false
    → Dict.get s.1 id ≡ Dict.get st.recent_sigs id
    → part id (apply_checked other event m s st) ≡ part id st
apply_checked-part other id event m (false, sigs) st h same = refl
apply_checked-part other id event m (true, sigs) st h same =
    write_merged-part other id m (merge_chat_update m.message event)
      (record st { recent_sigs = sigs }) h
    ∙ ap (λ o. (Dict.get st.message_map id, o)) same

apply_to-part :
    (other id : String) (event : ChatMessageUpdateEvent) (st : MessageStore)
    → (other == id) ≡ false
    → part id (apply_to other event st) ≡ part id st
apply_to-part other id event st h = elim (Option-cases (Dict.get st.message_map other)) [
  | inl e ↦ ap (λ o. part id (apply_found other event o st)) e
  | inr (m, e) ↦
      ap (λ o. part id (apply_found other event o st)) e
      ∙ apply_checked-part other id event m
          (should_apply st.recent_sigs other (chat_update_sig event)) st h
          (should_apply-part st.recent_sigs other id (chat_update_sig event) h)
]

abbrev pub message_of : ChatMessageUpdateEvent → String
message_of (deleted id) = id
message_of (reacted id user reaction reactor) = id
message_of (unreacted id user reaction reactor) = id

apply_update-part :
    (id : String) (event : ChatMessageUpdateEvent) (st : MessageStore)
    → (message_of event == id) ≡ false
    → part id (apply_update event st) ≡ part id st
unfolding apply_update remove
apply_update-part id (deleted other) st h =
    ap (λ o. (o, Dict.get st.recent_sigs id)) (Dict.get-delete st.message_map other id ∙ rw h refl)
apply_update-part id (reacted other u r c) st h = apply_to-part other id (reacted other u r c) st h
apply_update-part id (unreacted other u r c) st h =
    apply_to-part other id (unreacted other u r c) st h

-- The events in their order.
abbrev pub apply_all : List ChatMessageUpdateEvent → MessageStore → MessageStore
apply_all [] st = st
apply_all (e ∷ es) st = apply_all es (apply_update e st)

-- The events are for other messages.
abbrev pub AllForOthers : String → List ChatMessageUpdateEvent → Type 0
AllForOthers id [] = Unit
AllForOthers id (e ∷ es) = ((message_of e == id) ≡ false) × AllForOthers id es

apply_all-Spent :
    (id sig : String) (es : List ChatMessageUpdateEvent) (st : MessageStore)
    → AllForOthers id es
    → Spent id sig st
    → Spent id sig (apply_all es st)
apply_all-Spent id sig [] st a s = s
apply_all-Spent id sig (e ∷ es) st a s =
    apply_all-Spent id sig es (apply_update e st) a.1
      (part-Spent id sig st (apply_update e st) (apply_update-part id e st a.0) s)

apply_to_twice :
    (id : String) (event : ChatMessageUpdateEvent) (between : List ChatMessageUpdateEvent)
    (st : MessageStore)
    → AllForOthers id between
    → apply_to id event (apply_all between (apply_to id event st))
      ≡ apply_all between (apply_to id event st)
apply_to_twice id event between st a =
    Spent-unchanged id event (apply_all between (apply_to id event st)) (
      apply_all-Spent id (chat_update_sig event) between (apply_to id event st) a
        (apply_to-Spent id event st))

abbrev pub is_deletion : ChatMessageUpdateEvent → Bool
is_deletion (deleted id) = true
is_deletion (reacted id user reaction reactor) = false
is_deletion (unreacted id user reaction reactor) = false

-- A reaction that is added or taken away arrives, then any events for other messages, deletions
-- included, and then, within the window, the same reaction again: that changes nothing more, whatever
-- the store. (Another event for the same message between the two is remembered in its place.)
pub apply_update_twice :
    (event : ChatMessageUpdateEvent) (between : List ChatMessageUpdateEvent) (st : MessageStore)
    → is_deletion event ≡ false
    → AllForOthers (message_of event) between
    → apply_update event (apply_all between (apply_update event st))
      ≡ apply_all between (apply_update event st)
unfolding apply_update
apply_update_twice (deleted id) between st h a = absurd (ground (arith, h))
apply_update_twice (reacted id u r c) between st h a =
    apply_to_twice id (reacted id u r c) between st a
apply_update_twice (unreacted id u r c) between st h a =
    apply_to_twice id (unreacted id u r c) between st a
