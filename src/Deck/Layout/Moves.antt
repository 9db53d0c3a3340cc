-- ===== src/Deck/Layout/Moves.antt =====
-- Every operation on the layout that succeeds moves columns about: none is lost, none is doubled,
-- and no group is left empty.
use notedeck.Prelude.{
  ℕ, ◌+◌, String, true, some, List, [], ◌∷◌, ◌==◌, ◌≡◌, arith, length, get_elem?, set, insert_at,
  includes, without, eq_iff, if◌then◌else◌, subst, ap, List-cases, Bool-cases, Option-cases, inl,
  inr,
}
use notedeck.Deck.Layout.{
  Groups, group_index_of, index_of, swap_groups, replace_group, Place, insert_pos, join_group,
  stack_column, swap_in_group, insert_target, insert_column_at, unstack_column,
}
use notedeck.Deck.Layout.Counts.{
  occ, occurrences, NoEmpty, Unique, occ-includes, occ-without, occ-insert_at, occ-set,
  occ-le-occurrences, occurrences-set, occurrences-erase_idx, occurrences-insert_at, NoEmpty-get,
  NoEmpty-set, NoEmpty-erase_idx, NoEmpty-insert_at, length-insert_at-pos, length-set,
  find_index-some, get_elem?-set_other, length-without,
}

-- The same columns in the same number, and no empty group.
pub record Rearranges (l l' : Groups) : Type 0 where
  pub columns : (k : String) → occurrences k l' ≡ occurrences k l
  pub filled : NoEmpty l'

pub group_index_of-some :
    (l : Groups) (id : String) (i : ℕ)
    → group_index_of l id ≡ some i
    → (g : List String) × (get_elem? l i ≡ some g) × (includes g id ≡ true)
unfolding group_index_of
group_index_of-some l id i h = find_index-some (λ g. includes g id) l i h

index_of-some :
    (g : List String) (id : String) (i : ℕ) → index_of g id ≡ some i → get_elem? g i ≡ some id
unfolding index_of
index_of-some g id i h =
    let (x, at, same) = find_index-some (λ x. x == id) g i h in ground (arith, eq_iff x id)

-- A column that stands at most once stands once in the group where it is found.
occ_once :
    (l : Groups) (id : String) (i : ℕ) {g : List String}
    → Unique l
    → get_elem? l i ≡ some g
    → includes g id ≡ true
    → occ id g ≡ 1
occ_once l id i {g} u h m = omega (arith, occ-includes id g m, occ-le-occurrences id l i h, u id)

occurrences-replace_group :
    (l : Groups) (i : ℕ) (v : List String) {g : List String} (k : String)
    → get_elem? l i ≡ some g
    → occurrences k (replace_group l i v) + occ k g ≡ occurrences k l + occ k v
unfolding replace_group occ
occurrences-replace_group l i [] k h = omega (arith, occurrences-erase_idx k l i h)
occurrences-replace_group l i (x ∷ v) k h = occurrences-set k l i (x ∷ v) h

-- The layout without a column has the others as often.
pub occurrences-without :
    (l : Groups) (id : String) (i : ℕ) {g : List String} (k : String)
    → Unique l
    → get_elem? l i ≡ some g
    → includes g id ≡ true
    → occurrences k (replace_group l i (without id g)) + (if id == k then 1 else 0)
      ≡ occurrences k l
occurrences-without l id i {g} k u h m = ground (
  arith,
  occurrences-replace_group l i (without id g) k h,
  occ-without k id g,
  occ_once l id i u h m,
  eq_iff id k,
)

replace_group-NoEmpty :
    (l : Groups) (i : ℕ) (g : List String) → NoEmpty l → NoEmpty (replace_group l i g)
unfolding replace_group
replace_group-NoEmpty l i [] e = NoEmpty-erase_idx l i e
replace_group-NoEmpty l i (x ∷ g) e = NoEmpty-set l i (x ∷ g) e (omega arith)

-- Swapping two groups of a layout without empty groups, when it succeeds, keeps every column in its
-- number and leaves no group empty.
pub swap_groups-Rearranges :
    (l l' : Groups) (i j : ℕ) → NoEmpty l → swap_groups l i j ≡ some l' → Rearranges l l'
unfolding swap_groups
swap_groups-Rearranges l l' i j e h = elim (Option-cases (get_elem? l i)) [
  | inl f ↦ absurd (ground arith)
  | inr (a, f) ↦ elim (Option-cases (get_elem? l j)) [
    | inl g ↦ absurd (ground arith)
    | inr (b, g) ↦
        let moved : set (set l i b) j a ≡ l' = ground arith in
        subst (Rearranges l) moved (record {
          columns = λ k. omega (
            arith,
            occurrences-set k l i b f,
            occurrences-set k (set l i b) j a (get_elem?-set_other l i j f g),
          );
          filled =
              NoEmpty-set (set l i b) j a (NoEmpty-set l i b e (NoEmpty-get l j e g))
                (NoEmpty-get l i e f);
        })
  ]
]

-- The column joins the group of the other one.
record Joins (id : String) (l l' : Groups) : Type 0 where
  columns : (k : String) → occurrences k l' ≡ occurrences k l + (if id == k then 1 else 0)
  filled : NoEmpty l'

join_group-Joins :
    (l l' : Groups) (from_id to_id : String) (place : Place)
    → NoEmpty l
    → join_group l from_id to_id place ≡ some l'
    → Joins from_id l l'
unfolding join_group
join_group-Joins l l' from_id to_id place e h = elim (Option-cases (group_index_of l to_id)) [
  | inl f ↦ absurd (ground arith)
  | inr (i, f) ↦ elim (Option-cases (get_elem? l i)) [
    | inl g ↦ absurd (ground arith)
    | inr (grp, g) ↦ elim (Option-cases (index_of grp to_id)) [
      | inl p ↦ absurd (ground arith)
      | inr (pos, p) ↦
          let at = insert_pos place pos in
          let moved : set l i (insert_at grp at from_id) ≡ l' = ground arith in
          subst (Joins from_id l) moved (record {
            columns = λ k. omega (
              arith,
              occurrences-set k l i (insert_at grp at from_id) g,
              occ-insert_at k grp at from_id,
            );
            filled =
                NoEmpty-set l i (insert_at grp at from_id) e (length-insert_at-pos grp at from_id);
          })
    ]
  ]
]

-- Stacking a column, in a layout where no column stands twice and no group is empty, when it
-- succeeds, keeps every column in its number and leaves no group empty.
pub stack_column-Rearranges :
    (l l' : Groups) (from_id to_id : String) (place : Place)
    → Unique l
    → NoEmpty l
    → stack_column l from_id to_id place ≡ some l'
    → Rearranges l l'
unfolding stack_column
stack_column-Rearranges l l' from_id to_id place u e h = elim (Bool-cases (from_id == to_id)) [
  | inl same ↦ absurd (ground arith)
  | inr other ↦ elim (Option-cases (group_index_of l from_id)) [
    | inl f ↦ absurd (ground arith)
    | inr (i, f) ↦
        let (g, at, m) = group_index_of-some l from_id i f in
        let l₀ = replace_group l i (without from_id g) in
        let joined =
          join_group-Joins l₀ l' from_id to_id place
            (replace_group-NoEmpty l i (without from_id g) e) (ground arith) in
        record {
          columns = λ k. omega (arith, joined.columns k, occurrences-without l from_id i k u at m);
          filled = joined.filled;
        }
  ]
]

-- Swapping two columns of a group, in a layout without empty groups, when it succeeds, keeps every
-- column in its number and leaves no group empty.
pub swap_in_group-Rearranges :
    (l l' : Groups) (a b : String) → NoEmpty l → swap_in_group l a b ≡ some l' → Rearranges l l'
unfolding swap_in_group
swap_in_group-Rearranges l l' a b e h = elim (Bool-cases (a == b)) [
  | inl same ↦ absurd (ground arith)
  | inr other ↦ elim (Option-cases (group_index_of l a)) [
    | inl f ↦ absurd (ground arith)
    | inr (i, f) ↦
        let (g, at, m) = group_index_of-some l a i f in
        elim (Option-cases (index_of g a)) [
          | inl p ↦ absurd (ground arith)
          | inr (pa, p) ↦ elim (Option-cases (index_of g b)) [
            | inl q ↦ absurd (ground arith)
            | inr (pb, q) ↦
                let ha = index_of-some g a pa p in
                let hb = index_of-some g b pb q in
                let v = set (set g pa b) pb a in
                let moved : set l i v ≡ l' = ground arith in
                subst (Rearranges l) moved (record {
                  columns = λ k. omega (
                    arith,
                    occurrences-set k l i v at,
                    occ-set k g pa b ha,
                    occ-set k (set g pa b) pb a (get_elem?-set_other g pa pb ha hb),
                  );
                  filled = NoEmpty-set l i v e (
                      omega (
                        arith,
                        length-set (set g pa b) pb a,
                        length-set g pa b,
                        NoEmpty-get l i e at,
                      ));
                })
          ]
        ]
  ]
]

-- Taking a column out and putting it into a group of its own.
set_apart :
    (l : Groups) (id : String) (i t : ℕ) {g : List String}
    → Unique l
    → NoEmpty l
    → get_elem? l i ≡ some g
    → includes g id ≡ true
    → Rearranges l (insert_at (replace_group l i (without id g)) t (id ∷ []))
unfolding occ
set_apart l id i t {g} u e at m =
    let rest = replace_group l i (without id g) in
    record {
      columns = λ k.
          ground
            (arith, occurrences-insert_at k rest t (id ∷ []), occurrences-without l id i k u at m);
      filled =
          NoEmpty-insert_at rest t (id ∷ []) (replace_group-NoEmpty l i (without id g) e)
            (omega arith);
    }

-- Moving a column to a group of its own, in a layout where no column stands twice and no group is
-- empty, when it succeeds, keeps every column in its number and leaves no group empty.
pub insert_column_at-Rearranges :
    (l l' : Groups) (id : String) (target : ℕ)
    → Unique l
    → NoEmpty l
    → insert_column_at l id target ≡ some l'
    → Rearranges l l'
unfolding insert_column_at
insert_column_at-Rearranges l l' id target u e h = elim (Option-cases (group_index_of l id)) [
  | inl f ↦ absurd (ground arith)
  | inr (i, f) ↦
      let (g, at, m) = group_index_of-some l id i f in
      let rest = without id g in
      let l₀ = replace_group l i rest in
      let t = insert_target l₀ i rest target in
      subst (Rearranges l) (ground arith) (set_apart l id i t u e at m)
]

-- Unstacking a column, in a layout where no column stands twice and no group is empty, when it
-- succeeds, keeps every column in its number and leaves no group empty.
pub unstack_column-Rearranges :
    (l l' : Groups) (id : String)
    → Unique l
    → NoEmpty l
    → unstack_column l id ≡ some l'
    → Rearranges l l'
unfolding unstack_column replace_group
unstack_column-Rearranges l l' id u e h = elim (Option-cases (group_index_of l id)) [
  | inl f ↦ absurd (ground arith)
  | inr (i, f) ↦
      let (g, at, m) = group_index_of-some l id i f in
      elim (List-cases (without id g)) [
        | inl none_left ↦ absurd (
            ground (
              arith,
              length-without id g,
              occ_once l id i u at m,
              ap (λ (v : List String). length v) none_left,
            ))
        | inr (x, v, left) ↦
            let kept : replace_group l i (without id g) ≡ set l i (without id g) = rw left in
            subst (Rearranges l) (ground (arith, kept)) (set_apart l id i (i + 1) u e at m)
      ]
]
