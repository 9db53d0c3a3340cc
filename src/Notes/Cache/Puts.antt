-- ===== src/Notes/Cache/Puts.antt =====
-- What `put` comes to.
use notedeck.Prelude.{
  ℕ, ◌≤◌, String, Bool, Option, none, some, List, [], ◌∷◌, length, ◌≡◌, refl, sym, subst, ap, ◌∙◌,
  inl, inr, if◌then◌else◌, Bool-cases,
}
use notedeck.Prelude.Dict
use notedeck.Prelude.Dict.{Dict}
use notedeck.Notes.Cache.{CachedNote, NoteStore, put, resolve, with_latest, with_renote, id_of}
use notedeck.Notes.Updates.{LiveNote}
use notedeck.Notes.Cache.Renotes.{
  filled, fields-put, has_ref, sync_renotes_lem, note-sync_renotes, latest-smaller,
  with_latest_twice,
}
use notedeck.Notes.Cache.WellFormed.{WellFormed, AllExist, put-Evicted, put-WellFormed}

-- Whatever the bound, the roots and the batch, `put` leaves no more notes in a well-formed store than
-- the bound, if the notes of the batch exist.
pub put-bounded :
    (max : ℕ) (roots : List (List String)) (notes : List ℕ) (skip : Bool) (st : NoteStore)
    → AllExist st.next notes
    → WellFormed st
    → length (put max roots notes skip st).note_map ≤ max
put-bounded max roots notes skip st a w = (put-Evicted max roots notes skip st a w).bounded

kept_renote :
    (m n : Dict ℕ) (c : CachedNote)
    → ((k : String) (v : ℕ) → Dict.get n k ≡ some v → Dict.get m k ≡ some v)
    → with_latest n (with_latest m c) ≡ with_latest m c
kept_renote m n c h = elim (latest-smaller m n (with_latest m c) h) [
  | inl e ↦ rw (e, with_latest) refl
  | inr e ↦ ap (λ o. with_renote o (with_latest m c)) e ∙ with_latest_twice m c
]

-- What resolving an id gives after `put`, by what the map has under it: nothing, or one note of that
-- id, which is as it was before, and which is the object itself, if that was in the batch.
abbrev pub Resolved : List ℕ → NoteStore → NoteStore → String → Option ℕ → Type 0
Resolved notes st after id none = resolve after (id ∷ []) ≡ []
Resolved notes st after id (some r) =
    (resolve after (id ∷ [])
      ≡ (if has_ref notes r then after.objects r else with_latest after.note_map (after.objects r))
        ∷ [])
    × ((after.objects r).note ≡ (st.objects r).note)
    × ((st.objects r).note.id ≡ id)

resolved_lem :
    (max : ℕ) (roots : List (List String)) (notes : List ℕ) (skip : Bool) (st : NoteStore)
    (id : String) (o : Option ℕ)
    → AllExist st.next notes
    → WellFormed st
    → Dict.get (put max roots notes skip st).note_map id ≡ o
    → Resolved notes st (put max roots notes skip st) id o
unfolding resolve
resolved_lem max roots notes skip st id none a w here = rw (here, resolve) refl
resolved_lem max roots notes skip st id (some r) a w here =
    let mid = filled notes st in
    let after = put max roots notes skip st in
    let done = put-Evicted max roots notes skip st a w in
    let objects : after.objects r
        ≡ (if has_ref notes r then with_latest mid.note_map (st.objects r) else st.objects r) =
      ap (λ f. f r) (fields-put max roots notes skip st).1
      ∙ sync_renotes_lem mid.note_map st.objects notes r in
    let note : (after.objects r).note ≡ (st.objects r).note =
      ap (λ f. (f r).note) (fields-put max roots notes skip st).1
      ∙ (note-sync_renotes mid.note_map st.objects notes r).0 in
    let key : id_of after.objects r ≡ id =
      ((put-WellFormed max roots notes skip st a w).refers id r here).0 in
    let same : with_latest after.note_map (after.objects r) ≡ (
        if has_ref notes r then after.objects r else with_latest after.note_map (after.objects r)) =
      elim (Bool-cases (has_ref notes r)) [
        | inl h ↦ rw h (
            subst (λ c. with_latest after.note_map c ≡ c) (sym (rw h at objects))
              (kept_renote mid.note_map after.note_map (st.objects r) done.kept))
        | inr h ↦ rw h refl
      ] in
    (rw (here, resolve) (ap (λ c. c ∷ []) same), note, sym (ap (λ (n : LiveNote). n.id) note) ∙ key)

-- After `put` of notes that exist into a well-formed store, resolving any id gives nothing, if the map
-- has nothing under it (the note may have been evicted), and else one note, which has that id and is as
-- it was before. If it is of the batch, it is the object itself: it already has the object of the store
-- as its renote, if the store has one.
pub resolve-put :
    (max : ℕ) (roots : List (List String)) (notes : List ℕ) (skip : Bool) (st : NoteStore)
    (id : String)
    → AllExist st.next notes
    → WellFormed st
    → Resolved notes st
        (put max roots notes skip st)
        id
        (Dict.get (put max roots notes skip st).note_map id)
resolve-put max roots notes skip st id a w =
    resolved_lem max roots notes skip st id (Dict.get (put max roots notes skip st).note_map id) a w
      refl
