-- ===== src/Deck/WellFormed/Lookups.antt =====
-- Looking a column up, and taking it out of the layout and putting it back.
use notedeck.Prelude.{
  ℕ, zero, suc, ◌+◌, ◌≤◌, ◌<◌, String, true, false, not, none, some, List, [], ◌∷◌, ◌++◌, map, find,
  keep_if, insert_at, erase_idx, length, get_elem?, includes, without, ◌==◌, ◌≡◌, refl, ap, ◌∙◌,
  arith, eq_iff, eq_refl, if◌then◌else◌, Bool-cases, inl, inr,
}
use notedeck.Deck.Layout.{Groups, group_index_of}
use notedeck.Deck.Layout.Counts.{
  occ, occurrences, NoEmpty, Unique, occ-includes, occ-le-occurrences,
}
use notedeck.Deck.Columns.{Column, column_ids, has_column, get_column}
use notedeck.Deck.WellFormed.Edits.{drop_empty}

pub get_column-filter :
    (cs : List Column) (id k : String)
    → get_column (keep_if (λ c. not (c.id == id)) cs) k
      ≡ (if id == k then none else get_column cs k)
unfolding get_column
get_column-filter [] id k = ground arith
get_column-filter (c ∷ cs) id k =
    ground (arith, eq_iff id k, eq_iff c.id id, eq_iff c.id k, get_column-filter cs id k)

pub has_column-filter :
    (cs : List Column) (id : String) → has_column (keep_if (λ c. not (c.id == id)) cs) id ≡ false
has_column-filter [] id = refl
has_column-filter (c ∷ cs) id = ground (arith, has_column-filter cs id)

pub get_column-append :
    (cs : List Column) (c : Column) (k : String)
    → get_column (cs ++ c ∷ []) k ≡ (if c.id == k then some c else get_column cs k)
unfolding get_column
get_column-append [] c k = refl
get_column-append (d ∷ cs) c k = ground (arith, get_column-append cs c k)

pub get_column-none :
    (cs : List Column) (k : String) → occ k (column_ids cs) ≡ 0 → get_column cs k ≡ none
unfolding get_column occ
get_column-none [] k h = refl
get_column-none (c ∷ cs) k h = ground (arith, get_column-none cs k)

-- The first column with an id that stands once is the one that the map has.
pub find-get_column :
    (cs : List Column) (id : String) (c : Column)
    → occ id (column_ids cs) ≤ 1
    → find (λ d. d.id == id) cs ≡ some c
    → (get_column cs id ≡ some c) × (c.id ≡ id)
unfolding get_column occ
find-get_column [] id c once h = cc
find-get_column (d ∷ cs) id c once h = elim (Bool-cases (d.id == id)) [
  | inl e ↦
      (rw (get_column-none cs id (ground arith)) (ground arith), ground (arith, eq_iff d.id id))
  | inr e ↦ let (g, i) = find-get_column cs id c (ground arith) (ground arith) in (ground arith, i)
]

pub without-same : (id : String) (g : List String) → occ id g ≡ 0 → without id g ≡ g
unfolding occ
without-same id [] h = refl
without-same id (x ∷ g) h = ground (arith, without-same id g)

pub drop_empty-kept :
    (g : List String) (l : Groups) → 0 < length g → drop_empty (g ∷ l) ≡ g ∷ drop_empty l
drop_empty-kept [] l h = absurd (omega arith)
drop_empty-kept (x ∷ g) l h = refl

pub untouched :
    (id : String) (l : Groups)
    → occurrences id l ≡ 0
    → NoEmpty l
    → drop_empty (map (without id) l) ≡ l
unfolding occurrences
untouched id [] h e = refl
untouched id (g ∷ l) h e = rw (without-same id g (omega arith)) (
    drop_empty-kept g (map (without id) l) e.0
    ∙ ap (λ (r : Groups). g ∷ r) (untouched id l (omega arith) e.1))

pub occ_self : (id : String) → occ id (id ∷ []) ≡ 1
unfolding occ
occ_self id = ground (arith, eq_refl id)

-- A column that stands alone takes its group with it.
pub dropped_alone :
    (id : String) (l : Groups) (i : ℕ)
    → Unique l
    → NoEmpty l
    → get_elem? l i ≡ some (id ∷ [])
    → drop_empty (map (without id) l) ≡ erase_idx l i
unfolding occurrences
dropped_alone id [] i u e h = cc
dropped_alone id (g ∷ l) zero u e h =
    let alone : g ≡ id ∷ [] = ground arith in
    let gone : without id (id ∷ []) ≡ [] = rw (eq_refl id) refl in
    let once : occ id (id ∷ []) + occurrences id l ≤ 1 = rw alone at u id in
    rw (alone, gone) (untouched id l (omega (arith, once, occ_self id)) e.1)
dropped_alone id (g ∷ l) (suc i) u e h =
    rw (without-same id g (omega (arith, u id, occ_self id, occ-le-occurrences id l i h))) (
      drop_empty-kept g (map (without id) l) e.0
      ∙ ap (λ (r : Groups). g ∷ r) (dropped_alone id l i (λ k. omega (arith, u k)) e.1 h))

pub insert_at-erase_idx :
    (l : Groups) (i : ℕ) {g : List String}
    → get_elem? l i ≡ some g
    → (insert_at (erase_idx l i) i g ≡ l) × (i ≤ length (erase_idx l i))
insert_at-erase_idx [] i h = cc
insert_at-erase_idx (g ∷ l) zero h = (ground arith, omega arith)
insert_at-erase_idx (g ∷ l) (suc i) h =
    let (same, at) = insert_at-erase_idx l i h in
    (ap (λ (r : Groups). g ∷ r) same, omega (arith, at))

pub alone_index :
    (id : String) (l : Groups) (i : ℕ)
    → Unique l
    → get_elem? l i ≡ some (id ∷ [])
    → group_index_of l id ≡ some i
unfolding occurrences group_index_of
alone_index id [] i u h = cc
alone_index id (g ∷ l) zero u h =
    let alone : g ≡ id ∷ [] = ground arith in
    let found : includes (id ∷ []) id ≡ true = rw (eq_refl id) refl in rw (alone, found) refl
alone_index id (g ∷ l) (suc i) u h =
    let rest = alone_index id l i (λ k. omega (arith, u k)) h in
    elim (Bool-cases (includes g id)) [
      | inl e ↦
          absurd
            (omega (arith, u id, occ-includes id g e, occ_self id, occ-le-occurrences id l i h))
      | inr e ↦ ground arith
    ]
