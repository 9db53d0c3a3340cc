-- ===== src/Notes/Cache/Runs.antt =====
-- What every sequence of operations keeps.
use notedeck.Prelude.{
  ℕ, ◌+◌, ◌<◌, ◌≤◌, String, Bool, true, Option, none, some, List, [], ◌∷◌, length, nat_eq, ◌≡◌, ◌⊎◌,
  refl, ap, ◌∙◌, arith, Bool-cases, Option-cases, inl, inr,
}
use notedeck.Prelude.Dict
use notedeck.Prelude.Dict.{Dict, Distinct}
use notedeck.Notes.Updates.{
  LiveNote, NoteUpdateEvent, reacted, unreacted, poll_voted, deleted, merge_note_update,
  should_apply,
}
use notedeck.Notes.Cache.{
  apply_new, merge_into, CachedNote, NoteStore, write, id_of, put, get_note, remove, update,
  apply_update, do_trigger, resolve, latest, with_latest,
}
use notedeck.Notes.Cache.Renotes.{note-with_renote}
use notedeck.Notes.Cache.WellFormed.{
  WellFormed, AllExist, put-Refers, delete-Refers, write_next-Refers, write_next-RenotesExist,
  put-WellFormed, put-Evicted,
}

-- What is done to the store; `create` is a note that arrives from outside.
pub data Operation : Type 0 where
  create : CachedNote → Operation
  put_notes : ℕ → List (List String) → List ℕ → Bool → Operation
  read : String → Operation
  remove_note : String → Bool → Operation
  apply : String → String → NoteUpdateEvent → Option String → Operation
  update_note : String → ℕ → Operation
  trigger : Operation

abbrev pub create_note : CachedNote → NoteStore → NoteStore
create_note o st = record st { objects = write st.objects st.next o; next = st.next + 1 }

unfoldable pub run : Operation → NoteStore → NoteStore
unfolding put get_note remove apply_update update do_trigger
run (create o) st = create_note o st
run (put_notes max roots notes skip) st = put max roots notes skip st
run (read id) st = (get_note id st).1
run (remove_note id tombstone) st = remove id tombstone st
run (apply sig id event me) st = apply_update sig id event me st
run (update_note id r) st = update id r st
run trigger st = do_trigger st

-- The notes that are passed exist, and an update is stored under its note's id.
abbrev pub Allowed : Operation → NoteStore → Type 0
Allowed (create o) st = (s : ℕ) → o.renote ≡ some s → s < st.next
Allowed (put_notes max roots notes skip) st = AllExist st.next notes
Allowed (read id) st = Unit
Allowed (remove_note id tombstone) st = Unit
Allowed (apply sig id event me) st = Unit
Allowed (update_note id r) st = (id_of st.objects r ≡ id) × (r < st.next)
Allowed trigger st = Unit

id-merge_note_update :
    (n n' : LiveNote) (event : NoteUpdateEvent) (me : Option String)
    → merge_note_update n event me ≡ some n'
    → n'.id ≡ n.id
unfolding merge_note_update
id-merge_note_update n n' (reacted none u e) me h = absurd (ground (arith, h))
id-merge_note_update n n' (reacted (some r) u e) me h = ground (arith, h)
id-merge_note_update n n' (unreacted none u) me h = absurd (ground (arith, h))
id-merge_note_update n n' (unreacted (some r) u) me h = ground (arith, h)
id-merge_note_update n n' (poll_voted none u) me h = absurd (ground (arith, h))
id-merge_note_update n n' (poll_voted (some i) u) me h = ground (arith, h)
id-merge_note_update n n' deleted me h = absurd (ground (arith, h))

update-WellFormed :
    (id : String) (r : ℕ) (st : NoteStore)
    → id_of st.objects r ≡ id
    → r < st.next
    → WellFormed st
    → WellFormed (update id r st)
unfolding update
update-WellFormed id r st p lt w = record {
  distinct = Dict.put-Distinct st.note_map id r w.distinct;
  refers = put-Refers st.objects st.next st.note_map id r p lt w.refers;
  renotes = w.renotes;
}

create-WellFormed :
    (o : CachedNote) (st : NoteStore)
    → ((s : ℕ) → o.renote ≡ some s → s < st.next)
    → WellFormed st
    → WellFormed (create_note o st)
create-WellFormed o st a w = record {
  distinct = w.distinct;
  refers = write_next-Refers st.objects st.next st.note_map o w.refers;
  renotes = write_next-RenotesExist st.objects st.next o a w.renotes;
}

merge_into-WellFormed :
    (id : String) (event : NoteUpdateEvent) (me : Option String) (r : ℕ) (st : NoteStore)
    → id_of st.objects r ≡ id
    → r < st.next
    → WellFormed st
    → WellFormed (merge_into id event me r st)
merge_into-WellFormed id event me r st p lt w =
    elim (Option-cases (merge_note_update (st.objects r).note event me)) [
      | inl e ↦ rw (e, merge_into) w
      | inr (n, e) ↦
          let o : CachedNote = record (st.objects r) { note = n } in
          let there : nat_eq st.next st.next ≡ true = ground arith in
          rw (e, merge_into)
            (update-WellFormed id st.next (create_note o st)
              (rw (there, id_of) (id-merge_note_update (st.objects r).note n event me e ∙ p))
              (omega arith) (create-WellFormed o st (λ s. w.renotes r s lt) w))
    ]

apply_new-WellFormed :
    (sig id : String) (event : NoteUpdateEvent) (me : Option String) (st : NoteStore)
    → WellFormed st
    → WellFormed (apply_new sig id event me st)
apply_new-WellFormed sig id event me st w =
    let s = should_apply st.recent_sigs id sig in
    let after : NoteStore = record st { recent_sigs = s.1 } in
    let good : WellFormed after = record {
      distinct = w.distinct;
      refers = w.refers;
      renotes = w.renotes;
    } in
    elim (Bool-cases s.0) [
      | inl e ↦ elim (Option-cases (Dict.get st.note_map id)) [
        | inl f ↦ rw (e, f, apply_new) good
        | inr (r, f) ↦
            let (key, lt) = w.refers id r f in
            rw (e, f, apply_new) (merge_into-WellFormed id event me r after key lt good)
      ]
      | inr e ↦ rw (e, apply_new) good
    ]

remove-WellFormed :
    (id : String) (tombstone : Bool) (st : NoteStore)
    → WellFormed st
    → WellFormed (remove id tombstone st)
unfolding remove
remove-WellFormed id tombstone st w = record {
  distinct = Dict.delete-Distinct st.note_map id w.distinct;
  refers = delete-Refers st.objects st.next st.note_map id w.refers;
  renotes = w.renotes;
}

get_note-WellFormed : (id : String) (st : NoteStore) → WellFormed st → WellFormed (get_note id st).1
unfolding get_note
get_note-WellFormed id st w = elim (Option-cases (Dict.get st.note_map id)) [
  | inl e ↦ rw (e, get_note) w
  | inr (r, e) ↦
      let (key, lt) = w.refers id r e in
      let rest = Dict.delete st.note_map id in
      rw (e, get_note)
        (record {
          distinct = Dict.put-Distinct rest id r (Dict.delete-Distinct st.note_map id w.distinct);
          refers =
              put-Refers st.objects st.next rest id r key lt
                (delete-Refers st.objects st.next st.note_map id w.refers);
          renotes = w.renotes;
        })
]

apply_update-WellFormed :
    (sig id : String) (event : NoteUpdateEvent) (me : Option String) (st : NoteStore)
    → WellFormed st
    → WellFormed (apply_update sig id event me st)
unfolding apply_update
apply_update-WellFormed sig id (reacted r u e) me st w =
    apply_new-WellFormed sig id (reacted r u e) me st w
apply_update-WellFormed sig id (unreacted r u) me st w =
    apply_new-WellFormed sig id (unreacted r u) me st w
apply_update-WellFormed sig id (poll_voted c u) me st w =
    apply_new-WellFormed sig id (poll_voted c u) me st w
apply_update-WellFormed sig id deleted me st w = remove-WellFormed id true st w

run-WellFormed :
    (o : Operation) (st : NoteStore) → Allowed o st → WellFormed st → WellFormed (run o st)
unfolding run do_trigger
run-WellFormed (create o) st a w = create-WellFormed o st a w
run-WellFormed (put_notes max roots notes skip) st a w = put-WellFormed max roots notes skip st a w
run-WellFormed (read id) st a w = get_note-WellFormed id st w
run-WellFormed (remove_note id tombstone) st a w = remove-WellFormed id tombstone st w
run-WellFormed (apply sig id event me) st a w = apply_update-WellFormed sig id event me st w
run-WellFormed (update_note id r) st a w = update-WellFormed id r st a.0 a.1 w
run-WellFormed trigger st a w = record {
  distinct = w.distinct;
  refers = w.refers;
  renotes = w.renotes;
}

-- `end` is what a sequence of allowed operations makes of `st`.
pub data Reaches (st : NoteStore) : NoteStore → Type 0 where
  start : Reaches st st
  step : (mid : NoteStore) (o : Operation) → Reaches st mid → Allowed o mid → Reaches st (run o mid)

run_lem : (st end : NoteStore) → WellFormed st → Reaches st end → WellFormed end
run_lem st end w start = w
run_lem st end w (step mid o reached a) = run-WellFormed o mid a (run_lem st mid w reached)

-- An id that is resolved gives nothing or a note of that id.
abbrev pub ResolvesTo : NoteStore → String → Type 0
ResolvesTo st id =
    (resolve st (id ∷ []) ≡ [])
    ⊎ ((c : CachedNote) × (resolve st (id ∷ []) ≡ c ∷ []) × (c.note.id ≡ id))

resolve-ResolvesTo : (st : NoteStore) (id : String) → WellFormed st → ResolvesTo st id
unfolding resolve
resolve-ResolvesTo st id w = elim (Option-cases (Dict.get st.note_map id)) [
  | inl e ↦ inl (rw (e, resolve) refl)
  | inr (r, e) ↦
      let o = st.objects r in
      inr (
        with_latest st.note_map o,
        rw (e, resolve) refl,
        ap (λ (n : LiveNote). n.id) (note-with_renote (latest st.note_map o) o).0
            ∙ (w.refers id r e).0,
      )
]

-- After any sequence of operations on a well-formed store in which the notes that are passed exist, the
-- renote of a note that is created exists, and an update is stored under its note's id: the store is
-- well-formed (no id stands twice in the map, each note is under its own id, and every object that the
-- map or a note refers to exists), an id that is resolved gives nothing or a note of that id, and after
-- a `put` at the end, of notes that exist, there are no more notes than its bound, whatever the roots.
pub Reaches-WellFormed :
    (st end : NoteStore) (id : String) (max : ℕ) (roots : List (List String)) (notes : List ℕ)
    (skip : Bool)
    → WellFormed st
    → Reaches st end
    → AllExist end.next notes
    → WellFormed end × ResolvesTo end id × (length (put max roots notes skip end).note_map ≤ max)
Reaches-WellFormed st end id max roots notes skip w reached a =
    let good = run_lem st end w reached in
    (good, resolve-ResolvesTo end id good, (put-Evicted max roots notes skip end a good).bounded)
