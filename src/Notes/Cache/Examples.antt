-- ===== src/Notes/Cache/Examples.antt =====
-- The theorems on the store of notes at a store of three notes, of which one is on a column.
use notedeck.Prelude.{
  ℕ, zero, suc, ◌≤◌, String, true, false, Option, none, some, List, [], ◌∷◌, length, includes, ◌≡◌,
  refl, arith,
}
use notedeck.Prelude.Dict
use notedeck.Prelude.Dict.{Dict}
use notedeck.Notes.Eviction.{
  evict_by_liveness, first_pass, drop_dead, delete_oldest, sort_by_age, delete_first, insert_by_age,
}
use notedeck.Notes.Eviction.Outcome.{Evicted, evict_by_liveness-Evicted}
use notedeck.Notes.Cache.{
  set_notes, sync_renotes, evict_if_needed, collect_live_ids, collect_from, add_renotes, CachedNote,
  NoteStore, put, live_ids, age_of, id_of, renote_of, get_note,
}
use notedeck.Notes.Cache.Live.{given, live_ids-Closed}
use notedeck.Notes.Cache.Visits.{Closed}
use notedeck.Notes.Cache.Renotes.{filled}
use notedeck.Notes.Cache.WellFormed.{WellFormed, AllExist, Refers-Keyed, filled-WellFormed}
use notedeck.Notes.Cache.Runs.{run, start, step, put_notes, read, ResolvesTo, Reaches-WellFormed}
use notedeck.Notes.Cache.Puts.{Resolved, put-bounded, resolve-put}

abbrev cached : String → ℕ → Option String → Option ℕ → CachedNote
cached id t renote_id renote = record {
  note = record { id = id; reactions = []; reaction_emojis = []; my_reaction = none; poll = none };
  created_at = t;
  renote_id = renote_id;
  renote = renote;
}

-- A note, a renote of it that has not its object, and a third.
abbrev three : ℕ → CachedNote
three zero = cached "a" 1 none none
three (suc zero) = cached "b" 2 (some "a") none
three (suc (suc n)) = cached "c" 3 none none

abbrev empty_store : NoteStore
empty_store = record {
  note_map = [];
  objects = three;
  next = 3;
  deleted_ids = [];
  recent_sigs = [];
  trigger_scheduled = false;
  told = [];
}

no_renote : (r : ℕ) → (three r).renote ≡ none
no_renote zero = refl
no_renote (suc zero) = refl
no_renote (suc (suc n)) = refl

empty_store-WellFormed : WellFormed empty_store
unfolding Dict.get
empty_store-WellFormed = record {
  distinct = tt;
  refers = λ k r h. absurd (ground (arith, h));
  renotes = λ r s lt h. absurd (ground (arith, no_renote r));
}

abbrev on_column : List (List String)
on_column = ("b" ∷ []) ∷ []

abbrev batch : List ℕ
batch = 0 ∷ 1 ∷ 2 ∷ []

batch-AllExist : AllExist 3 batch
batch-AllExist = (omega arith, (omega arith, (omega arith, tt)))

put-bounded_example : length (put 2 on_column batch false empty_store).note_map ≤ 2
put-bounded_example =
    put-bounded 2 on_column batch false empty_store batch-AllExist empty_store-WellFormed

abbrev after_put : NoteStore
after_put = put 2 on_column batch false empty_store

-- The bound is 2, and "b" is on a column, so that "c" goes and "b" finds its renote.
b_stays : Dict.get after_put.note_map "b" ≡ some 1
unfolding put set_notes sync_renotes evict_if_needed live_ids collect_live_ids collect_from
    add_renotes evict_by_liveness first_pass drop_dead delete_oldest sort_by_age delete_first
    insert_by_age Dict.get Dict.put Dict.delete
b_stays = refl

resolve-put_example : Resolved batch empty_store after_put "b" (Dict.get after_put.note_map "b")
resolve-put_example =
    resolve-put 2 on_column batch false empty_store "b" batch-AllExist empty_store-WellFormed

abbrev filled_map : Dict ℕ
filled_map = (filled batch empty_store).note_map

abbrev filled_objects : ℕ → CachedNote
filled_objects = (filled batch empty_store).objects

evict_by_liveness-Evicted_example :
    Evicted 2
      ("b" ∷ [])
      (age_of filled_objects)
      filled_map
      (evict_by_liveness filled_map 2 ("b" ∷ []) (age_of filled_objects) (id_of filled_objects))
evict_by_liveness-Evicted_example =
    evict_by_liveness-Evicted filled_map 2 ("b" ∷ []) (age_of filled_objects) (id_of filled_objects)
      (filled-WellFormed batch empty_store batch-AllExist empty_store-WellFormed).distinct
      (Refers-Keyed filled_objects 3 filled_map
        (filled-WellFormed batch empty_store batch-AllExist empty_store-WellFormed).refers)

live_ids-Closed_example :
    ((k : String)
      → given on_column k ≡ true
      → includes (live_ids filled_map three on_column) k ≡ true)
    × Closed (renote_of filled_map three) (live_ids filled_map three on_column)
live_ids-Closed_example = live_ids-Closed filled_map three on_column

abbrev put_and_read : NoteStore
put_and_read = run (read "b") (run (put_notes 2 on_column batch false) empty_store)

one_exists : AllExist put_and_read.next (1 ∷ [])
unfolding run put set_notes sync_renotes evict_if_needed live_ids collect_live_ids collect_from
    add_renotes evict_by_liveness first_pass drop_dead delete_oldest sort_by_age delete_first
    insert_by_age Dict.get Dict.put Dict.delete get_note
one_exists = (omega arith, tt)

Reaches-WellFormed_example :
    WellFormed put_and_read
    × ResolvesTo put_and_read "b"
    × (length (put 1 on_column (1 ∷ []) false put_and_read).note_map ≤ 1)
Reaches-WellFormed_example =
    Reaches-WellFormed empty_store put_and_read "b" 1 on_column (1 ∷ []) false
      empty_store-WellFormed
      (step (run (put_notes 2 on_column batch false) empty_store) (read "b")
        (step empty_store (put_notes 2 on_column batch false) start batch-AllExist) tt)
      one_exists
