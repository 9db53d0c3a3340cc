-- ===== src/Notes/Cache.antt =====
-- stores/notes.ts: the notes of all columns by their ids. A note is an object that the map and other
-- notes refer to: a number names an object, and `objects` is what the objects hold.
pub mod Visits
pub mod Live
pub mod Renotes
pub mod WellFormed
pub mod Runs
pub mod Puts
mod Examples
use notedeck.Prelude.{
  ℕ, zero, suc, ◌+◌, String, Bool, true, false, not, Option, none, some, List, [], ◌∷◌, ◌++◌,
  includes, add, truthy, length, is_some, nat_eq, leb, ◌==◌, if◌then◌else◌,
}
use notedeck.Prelude.Dict
use notedeck.Prelude.Dict.{Dict}
use notedeck.Notes.Updates.{
  LiveNote, NoteUpdateEvent, reacted, unreacted, poll_voted, deleted, merge_note_update,
  should_apply,
}
use notedeck.Notes.Eviction.{evict_by_liveness}

pub record CachedNote : Type 0 where
  pub note : LiveNote
  pub created_at : ℕ
  pub renote_id : Option String
  pub renote : Option ℕ

-- `next` is the object that is created next, `told` the ids that the listeners for deleted notes have
-- been called with, the latest first.
pub record NoteStore : Type 0 where
  pub note_map : Dict ℕ
  pub objects : ℕ → CachedNote
  pub next : ℕ
  pub deleted_ids : List String
  pub recent_sigs : Dict String
  pub trigger_scheduled : Bool
  pub told : List String

abbrev pub add_all : List String → List String → List String
add_all ids [] = ids
add_all ids (x ∷ xs) = add_all (add ids x) xs

-- The registered providers, each as the ids it gives.
unfoldable pub collect_from : List String → List (List String) → List String
collect_from live [] = live
collect_from live (provided ∷ roots) = collect_from (add_all live provided) roots

unfoldable pub collect_live_ids : List (List String) → List String
unfolding collect_from
collect_live_ids roots = collect_from [] roots

abbrev pub id_of : (ℕ → CachedNote) → ℕ → String
id_of objects r = (objects r).note.id

abbrev pub age_of : (ℕ → CachedNote) → ℕ → ℕ
age_of objects r = (objects r).created_at

-- The renote of the note with this id, if the map has it.
abbrev pub renote_of : Dict ℕ → (ℕ → CachedNote) → String → Option String
renote_of m objects id = elim (Dict.get m id) [
  | none ↦ none
  | some r ↦ truthy (objects r).renote_id
]

-- `for (const id of live)` also visits the ids that it adds: `pending` is what it has yet to visit.
unfoldable pub add_renotes : ℕ → (String → Option String) → List String → List String → List String
add_renotes zero f pending live = live
add_renotes (suc n) f [] live = live
add_renotes (suc n) f (id ∷ pending) live = elim (f id) [
  | none ↦ add_renotes n f pending live
  | some r ↦ elim (includes live r) [
    | true ↦ add_renotes n f pending live
    | false ↦ add_renotes n f (pending ++ (r ∷ [])) (live ++ (r ∷ []))
  ]
]

-- Each id is visited once: those of the roots, and one for each note that has a renote.
unfoldable pub live_ids : Dict ℕ → (ℕ → CachedNote) → List (List String) → List String
unfolding collect_live_ids add_renotes
live_ids m objects roots =
    let live = collect_live_ids roots in
    add_renotes (length live + length m) (renote_of m objects) live live

unfoldable pub evict_if_needed : ℕ → List (List String) → NoteStore → NoteStore
unfolding live_ids
evict_if_needed max roots st = if leb (length st.note_map) max then st else record st {
  note_map =
      evict_by_liveness st.note_map max (live_ids st.note_map st.objects roots) (age_of st.objects)
        (id_of st.objects);
}

abbrev pub set_ref : (ℕ → CachedNote) → Dict ℕ → ℕ → Dict ℕ
set_ref objects m r = Dict.put m (id_of objects r) r

-- The first loop.
unfoldable pub set_notes : (ℕ → CachedNote) → Dict ℕ → List ℕ → Dict ℕ
set_notes objects m [] = m
set_notes objects m (r ∷ rs) = elim (objects r).renote [
  | none ↦ set_notes objects (set_ref objects m r) rs
  | some s ↦ set_notes objects (set_ref objects (set_ref objects m r) s) rs
]

abbrev pub write : (ℕ → CachedNote) → ℕ → CachedNote → ℕ → CachedNote
write objects r o s = if nat_eq r s then o else objects s

-- The object that the map has for the renote of a note.
abbrev pub latest : Dict ℕ → CachedNote → Option ℕ
latest m o = elim (truthy o.renote_id) [ none ↦ none | some i ↦ Dict.get m i ]

abbrev pub with_renote : Option ℕ → CachedNote → CachedNote
with_renote none o = o
with_renote (some l) o = record o { renote = some l }

-- A write of the reference that is there already changes nothing.
abbrev pub with_latest : Dict ℕ → CachedNote → CachedNote
with_latest m o = with_renote (latest m o) o

-- The second loop.
unfoldable pub sync_renotes : Dict ℕ → (ℕ → CachedNote) → List ℕ → ℕ → CachedNote
sync_renotes m objects [] = objects
sync_renotes m objects (r ∷ rs) = sync_renotes m (write objects r (with_latest m (objects r))) rs

abbrev pub schedule_trigger : NoteStore → NoteStore
schedule_trigger st = record st { trigger_scheduled = true }

unfoldable pub put : ℕ → List (List String) → List ℕ → Bool → NoteStore → NoteStore
unfolding set_notes sync_renotes evict_if_needed
put max roots notes skip_trigger st =
    let m = set_notes st.objects st.note_map notes in
    let after =
      evict_if_needed max roots
        (record st { note_map = m; objects = sync_renotes m st.objects notes }) in
    if skip_trigger then after else schedule_trigger after

-- The entry goes to the end of the map.
unfoldable pub get_note : String → NoteStore → Option CachedNote × NoteStore
get_note id st = elim (Dict.get st.note_map id) [
  | none ↦ (none, st)
  | some r ↦
      (some (st.objects r), record st { note_map = Dict.put (Dict.delete st.note_map id) id r })
]

unfoldable pub resolve : NoteStore → List String → List CachedNote
resolve st [] = []
resolve st (id ∷ ids) = elim (Dict.get st.note_map id) [
  | none ↦ resolve st ids
  | some r ↦ with_latest st.note_map (st.objects r) ∷ resolve st ids
]

unfoldable pub remove : String → Bool → NoteStore → NoteStore
remove id tombstone st = record st {
  deleted_ids = if tombstone then add st.deleted_ids id else st.deleted_ids;
  note_map = Dict.delete st.note_map id;
  trigger_scheduled = true;
  told = id ∷ st.told;
}

unfoldable pub is_deleted : NoteStore → String → Bool
is_deleted st id = includes st.deleted_ids id

unfoldable pub update : String → ℕ → NoteStore → NoteStore
update id r st = schedule_trigger (record st { note_map = Dict.put st.note_map id r })

-- The note with the event merged in is a new object.
abbrev pub merge_into : String → NoteUpdateEvent → Option String → ℕ → NoteStore → NoteStore
merge_into id event me r st = elim (merge_note_update (st.objects r).note event me) [
  | none ↦ st
  | some n ↦ update id st.next (record st {
    objects = write st.objects st.next (record (st.objects r) { note = n });
    next = st.next + 1;
  })
]

abbrev pub apply_new : String → String → NoteUpdateEvent → Option String → NoteStore → NoteStore
apply_new sig id event me st =
    let (apply, sigs) = should_apply st.recent_sigs id sig in
    let after = record st { recent_sigs = sigs } in
    if apply
    then elim (Dict.get st.note_map id) [ none ↦ after | some r ↦ merge_into id event me r after ]
    else after

-- `sig` is `noteUpdateSig(event)`.
unfoldable pub apply_update :
    String → String → NoteUpdateEvent → Option String → NoteStore → NoteStore
unfolding remove update
apply_update sig id deleted me st = remove id true st
apply_update sig id (reacted r u e) me st = apply_new sig id (reacted r u e) me st
apply_update sig id (unreacted r u) me st = apply_new sig id (unreacted r u) me st
apply_update sig id (poll_voted c u) me st = apply_new sig id (poll_voted c u) me st

-- The frame after an update shows the notes.
unfoldable pub do_trigger : NoteStore → NoteStore
do_trigger st = record st { trigger_scheduled = false }
