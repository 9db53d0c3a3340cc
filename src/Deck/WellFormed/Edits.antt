-- ===== src/Deck/WellFormed/Edits.antt =====
-- The changes that stores/deck.ts makes to one profile keep it well formed.
use Prim.Native.Nat.{min}
use notedeck.Prelude.{
  ℕ, ◌+◌, String, false, not, List, [], ◌∷◌, ◌++◌, map, ◌==◌, ◌≡◌, refl, ap, arith, length,
  insert_at, keep_if, without, eq_iff, if◌then◌else◌, or_else, Bool-cases, inl, inr,
}
use notedeck.Deck.Layout.{Groups, is_nil}
use notedeck.Deck.Layout.Counts.{
  occ, occurrences, NoEmpty, occ-without, occurrences-insert_at, NoEmpty-insert_at,
}
use notedeck.Deck.Layout.Moves.{Rearranges}
use notedeck.Deck.Columns.{Column, Profile, column_ids, has_column, change_column}
use notedeck.Deck.Store.{push_column, place_column, drop_column, restore_column, Removed}
use notedeck.Deck.WellFormed.{WellFormed}

occ-append : (k : String) (g h : List String) → occ k (g ++ h) ≡ occ k g + occ k h
unfolding occ
occ-append k [] h = omega arith
occ-append k (x ∷ g) h = omega (arith, occ-append k g h)

column_ids-append :
    (cs : List Column) (c : Column) → column_ids (cs ++ c ∷ []) ≡ column_ids cs ++ c.id ∷ []
column_ids-append [] c = refl
column_ids-append (d ∷ cs) c = ap (λ (r : List String). d.id ∷ r) (column_ids-append cs c)

occ-ids_append :
    (k : String) (cs : List Column) (c : Column)
    → occ k (column_ids (cs ++ c ∷ [])) ≡ occ k (column_ids cs) + (if c.id == k then 1 else 0)
unfolding occ
occ-ids_append k cs c =
    rw (column_ids-append cs c) (omega (arith, occ-append k (column_ids cs) (c.id ∷ [])))

pub occ-has_column :
    (k : String) (cs : List Column) → has_column cs k ≡ false → occ k (column_ids cs) ≡ 0
unfolding occ
occ-has_column k [] h = refl
occ-has_column k (c ∷ cs) h = ground (arith, occ-has_column k cs)

occ-ids_filter :
    (k id : String) (cs : List Column)
    → occ k (column_ids (keep_if (λ c. not (c.id == id)) cs))
      ≡ (if id == k then 0 else occ k (column_ids cs))
unfolding occ
occ-ids_filter k id [] = ground arith
occ-ids_filter k id (c ∷ cs) =
    ground (arith, eq_iff id k, eq_iff c.id id, eq_iff c.id k, occ-ids_filter k id cs)

abbrev pub drop_empty : Groups → Groups
drop_empty = keep_if (λ g. not (is_nil g))

occurrences-drop_empty : (k : String) (l : Groups) → occurrences k (drop_empty l) ≡ occurrences k l
unfolding occurrences occ
occurrences-drop_empty k [] = refl
occurrences-drop_empty k ([] ∷ l) = omega (arith, occurrences-drop_empty k l)
occurrences-drop_empty k ((x ∷ g) ∷ l) = omega (arith, occurrences-drop_empty k l)

drop_empty-NoEmpty : (l : Groups) → NoEmpty (drop_empty l)
drop_empty-NoEmpty [] = tt
drop_empty-NoEmpty ([] ∷ l) = drop_empty-NoEmpty l
drop_empty-NoEmpty ((x ∷ g) ∷ l) = (omega arith, drop_empty-NoEmpty l)

occurrences-map-without :
    (k id : String) (l : Groups)
    → occurrences k (map (without id) l) ≡ (if id == k then 0 else occurrences k l)
unfolding occurrences
occurrences-map-without k id [] = ground arith
occurrences-map-without k id (g ∷ l) =
    ground (arith, occ-without k id g, occurrences-map-without k id l)

-- A new column in a group of its own, anywhere in the layout.
pub place_column-WellFormed :
    (i : ℕ) (c : Column) (p : Profile)
    → has_column p.columns c.id ≡ false
    → WellFormed p
    → WellFormed (place_column i c p)
unfolding place_column occ
place_column-WellFormed i c p new w = record {
  once = λ k. ground (
    arith,
    occ-ids_append k p.columns c,
    w.once k,
    eq_iff c.id k,
    occ-has_column c.id p.columns new,
  );
  placed = λ k. omega (
    arith,
    occurrences-insert_at k p.layout i (c.id ∷ []),
    occ-ids_append k p.columns c,
    w.placed k,
  );
  filled = NoEmpty-insert_at p.layout i (c.id ∷ []) w.filled (omega arith);
}

append_is_insert : (l : Groups) (g : List String) → l ++ g ∷ [] ≡ insert_at l (length l) g
append_is_insert [] g = refl
append_is_insert (h ∷ l) g = ap (λ (r : Groups). h ∷ r) (append_is_insert l g)

pub push_column-WellFormed :
    (c : Column) (p : Profile)
    → has_column p.columns c.id ≡ false
    → WellFormed p
    → WellFormed (push_column c p)
unfolding push_column place_column
push_column-WellFormed c p new w =
    rw (append_is_insert p.layout (c.id ∷ [])) (place_column-WellFormed (length p.layout) c p new w)

pub drop_column-WellFormed :
    (id : String) (p : Profile) → WellFormed p → WellFormed (drop_column id p)
unfolding drop_column
drop_column-WellFormed id p w = record {
  once = λ k. ground (arith, occ-ids_filter k id p.columns, w.once k);
  placed = λ k. ground (
    arith,
    occ-ids_filter k id p.columns,
    occurrences-drop_empty k (map (without id) p.layout),
    occurrences-map-without k id p.layout,
    w.placed k,
  );
  filled = drop_empty-NoEmpty (map (without id) p.layout);
}

pub restore_column-WellFormed :
    (r : Removed) (p : Profile) → WellFormed p → WellFormed (restore_column r p)
unfolding restore_column
restore_column-WellFormed r p w = elim (Bool-cases (has_column p.columns r.column.id)) [
  | inl there ↦ rw there w
  | inr new ↦ rw new (
      place_column-WellFormed (min (or_else r.group_index (length p.layout)) (length p.layout))
        r.column p new w)
]

pub set_layout-WellFormed :
    (l : Groups) (p : Profile)
    → Rearranges p.layout l
    → WellFormed p
    → WellFormed (record p { layout = l })
set_layout-WellFormed l p r w = record {
  once = w.once;
  placed = λ k. omega (arith, r.columns k, w.placed k);
  filled = r.filled;
}

-- Columns with the same ids in the same order.
pub set_columns-WellFormed :
    (cs : List Column) (p : Profile)
    → column_ids cs ≡ column_ids p.columns
    → WellFormed p
    → WellFormed (record p { columns = cs })
set_columns-WellFormed cs p same w = record {
  once = λ k. rw same (w.once k);
  placed = λ k. rw same (w.placed k);
  filled = w.filled;
}

pub column_ids-change_column :
    (cs : List Column) (id : String) (f : Column → Column)
    → ((c : Column) → (f c).id ≡ c.id)
    → column_ids (change_column cs id f) ≡ column_ids cs
unfolding change_column
column_ids-change_column [] id f keeps = refl
column_ids-change_column (c ∷ cs) id f keeps = elim (Bool-cases (has_column cs id)) [
  | inl e ↦ rw e (ap (λ (r : List String). c.id ∷ r) (column_ids-change_column cs id f keeps))
  | inr e ↦ elim (Bool-cases (c.id == id)) [
    | inl m ↦ rw (e, m) (ap (λ (i : String). i ∷ column_ids cs) (keeps c))
    | inr m ↦ rw (e, m) refl
  ]
]

pub empty-WellFormed : (p : Profile) → WellFormed (record p { columns = []; layout = [] })
unfolding occ occurrences
empty-WellFormed p = record { once = λ k. omega arith; placed = λ k. refl; filled = tt }
