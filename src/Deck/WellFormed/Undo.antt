-- ===== src/Deck/WellFormed/Undo.antt =====
-- What undoing the removal of a column brings back.
use Prim.Native.Nat.{min}
use notedeck.Prelude.{
  ℕ, String, true, false, not, Option, none, some, List, [], ◌∷◌, map, find, keep_if, insert_at,
  erase_idx, length, get_elem?, without, or_else, ◌==◌, ◌≡◌, refl, ap, ◌∙◌, arith, eq_iff,
  Bool-cases, Option-cases, inl, inr,
}
use notedeck.Deck.Layout.{group_index_of}
use notedeck.Deck.Layout.Counts.{Unique}
use notedeck.Deck.Columns.{Column, Profile, has_column, get_column}
use notedeck.Deck.Profiles.{
  Profiles, same_id, current_profile, change_profile, is_there, mutate_profile, columns, layout,
}
use notedeck.Deck.Profiles
use notedeck.Deck.Store.{
  Deck, Removed, place_column, drop_column, restore_column, remove_column, undo_remove,
}
use notedeck.Deck.Store
use notedeck.Deck.WellFormed.{WellFormed}
use notedeck.Deck.WellFormed.Edits.{drop_empty}
use notedeck.Deck.WellFormed.Lookups.{
  get_column-filter, has_column-filter, get_column-append, find-get_column, dropped_alone,
  insert_at-erase_idx, alone_index,
}

find-change :
    (ps : List Profile) (id : Option String) (f : Profile → Profile) {p : Profile}
    → ((q : Profile) → (f q).id ≡ q.id)
    → find (λ q. same_id id q.id) ps ≡ some p
    → (is_there ps id ≡ true) × (find (λ q. same_id id q.id) (change_profile ps id f) ≡ some (f p))
unfolding change_profile
find-change [] id f keeps h = cc
find-change (q ∷ ps) id f {p} keeps h = elim (Bool-cases (same_id id q.id)) [
  | inl e ↦
      let v : some q ≡ some p = rw e at h in
      let here : same_id id (f q).id ≡ true = rw (keeps q) e in
      rw (e, here)
        (
          refl,
          ap
              (λ (o : Option Profile). elim o as (λ _. Option Profile) [
                | none ↦ none
                | some r ↦ some (f r)
              ])
              v,
        )
  | inr e ↦ let (t, r) = find-change ps id f keeps (rw e at h) in rw (e, e) (t, r)
]

-- The column comes back with its contents, and the others are as they were; if it stood alone in
-- its group, the layout is as it was.
pub record Restored (id : String) (p q : Profile) : Type 0 where
  pub lookups : (k : String) → get_column q.columns k ≡ get_column p.columns k
  pub same_layout : (i : ℕ) → get_elem? p.layout i ≡ some (id ∷ []) → q.layout ≡ p.layout

restored_layout :
    (id other : String) (p : Profile) (i : ℕ)
    → WellFormed p
    → other ≡ id
    → get_elem? p.layout i ≡ some (id ∷ [])
    → let l = drop_empty (map (without id) p.layout) in
      insert_at l (min (or_else (group_index_of p.layout id) (length l)) (length l)) (other ∷ [])
      ≡ p.layout
restored_layout id other p i w same alone =
    let unique : Unique p.layout = λ k. omega (arith, w.once k, w.placed k) in
    let (back, at) = insert_at-erase_idx p.layout i alone in
    let clamped : min i (length (erase_idx p.layout i)) ≡ i = omega (arith, at) in
    rw
      (
        same,
        dropped_alone id p.layout i unique w.filled alone,
        alone_index id p.layout i unique alone,
        clamped,
      )
      back

restore-drop :
    (id : String) (p : Profile) (c : Column)
    → WellFormed p
    → find (λ d. d.id == id) p.columns ≡ some c
    → let r : Removed = record { column = c; group_index = group_index_of p.layout id } in
      Restored id p (restore_column r (drop_column id p))
unfolding restore_column place_column drop_column
restore-drop id p c w h =
    let (at, same) = find-get_column p.columns id c (w.once id) h in
    let cs = keep_if (λ d. not (d.id == id)) p.columns in
    let new : has_column cs c.id ≡ false = rw same (has_column-filter p.columns id) in
    rw new (record {
      lookups = λ k. ground (
        arith,
        get_column-append cs c k,
        get_column-filter p.columns id k,
        eq_iff c.id k,
        eq_iff id k,
      );
      same_layout = λ i alone. restored_layout id c.id p i w same alone;
    })

drop-id : (id : String) (p : Profile) → (drop_column id p).id ≡ p.id
unfolding drop_column
drop-id id p = refl

restore-id : (r : Removed) (p : Profile) → (restore_column r p).id ≡ p.id
unfolding restore_column place_column
restore-id r p = elim (Bool-cases (has_column p.columns r.column.id)) [
  | inl e ↦ rw e refl
  | inr e ↦ rw e refl
]

current-flush : (s : Profiles) → current_profile (Profiles.flush_persist s) ≡ current_profile s
unfolding current_profile Profiles.flush_persist Profiles.persist_now
current-flush s = refl

current_profile-mutate :
    (f : Profile → Profile) (s : Profiles) {p : Profile}
    → ((q : Profile) → (f q).id ≡ q.id)
    → current_profile s ≡ some p
    → current_profile (mutate_profile f s) ≡ some (f p)
unfolding current_profile mutate_profile
current_profile-mutate f s {p} keeps h =
    let (there, found) = find-change s.profiles s.window_profile_id f keeps h in rw there found

removed_column :
    (id : String) (d : Deck) (p : Profile) (r : Removed)
    → current_profile d.store ≡ some p
    → (remove_column id d).1 ≡ some r
    → (c : Column) × (find (λ e. e.id == id) p.columns ≡ some c)
      × (r ≡ record { column = c; group_index = group_index_of p.layout id })
unfolding remove_column
removed_column id d p r cur h = elim (Option-cases (find (λ e. e.id == id) p.columns)) [
  | inl e ↦ let v = rw (cur, e, remove_column) at h in absurd (ground arith)
  | inr (c, e) ↦ let v = rw (cur, e, remove_column) at h in (c, e, ground arith)
]

-- Undoing the removal of a column from a well-formed profile brings back the column and its
-- contents, leaves the look-up of every other column as it was, and, if the column stood alone in
-- its group, gives the very layout from before.
pub undo_remove-remove_column :
    (id : String) (d : Deck) (p : Profile) (r : Removed)
    → current_profile d.store ≡ some p
    → WellFormed p
    → (remove_column id d).1 ≡ some r
    → (q : Profile) × (current_profile (undo_remove r (remove_column id d).0).store ≡ some q)
      × Restored id p q
unfolding remove_column undo_remove Profiles.flush_persist Store.set_focused_note_id
undo_remove-remove_column id d p r cur w h =
    let (c, at, same) = removed_column id d p r cur h in
    let dropped = current_profile-mutate (drop_column id) d.store (drop-id id) cur in
    (
      restore_column r (drop_column id p),
      current-flush _
          ∙ current_profile-mutate (restore_column r)
              (Profiles.flush_persist (mutate_profile (drop_column id) d.store)) (restore-id r)
              (current-flush _ ∙ dropped),
      rw same (restore-drop id p c w at),
    )
