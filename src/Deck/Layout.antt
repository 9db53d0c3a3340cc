-- ===== src/Deck/Layout.antt =====
-- utils/deckLayout.ts: operations on the layout, a list of groups of column ids. `null` is `none`.
-- An index is a natural number: the operations refuse a negative one, or clamp it to 0.
pub mod Counts
pub mod Moves
pub mod Rearrangements
pub mod Stacking
use Prim.Native.Nat.{min}
use notedeck.Prelude.{
  ℕ, ◌+◌, ◌-◌, String, Bool, true, false, ◌&&◌, Option, none, some, List, [], ◌∷◌, ◌==◌, length,
  get_elem?, set, insert_at, erase_idx, find_index, includes, without, nat_eq, ltb, leb,
  if◌then◌else◌,
}

abbrev pub Groups : Type 0
Groups = List (List String)

-- -1 is `none`.
unfoldable pub group_index_of : Groups → String → Option ℕ
group_index_of layout id = find_index (λ g. includes g id) layout

-- `Array.indexOf`
unfoldable pub index_of : List String → String → Option ℕ
index_of g id = find_index (λ x. x == id) g

unfoldable pub swap_groups : Groups → ℕ → ℕ → Option Groups
swap_groups layout i j = elim (get_elem? layout i) [
  | none ↦ none
  | some a ↦ elim (get_elem? layout j) [ none ↦ none | some b ↦ some (set (set layout i b) j a) ]
]

abbrev pub is_nil {ℓ} : {A : Type ℓ} → List A → Bool
is_nil [] = true
is_nil (x ∷ xs) = false

-- The group at `i` becomes `g`, or is taken out if `g` is empty.
unfoldable pub replace_group : Groups → ℕ → List String → Groups
replace_group layout i g = if is_nil g then erase_idx layout i else set layout i g

pub data Place : Type 0 where
  above below : Place

abbrev insert_pos : Place → ℕ → ℕ
insert_pos above i = i
insert_pos below i = i + 1

-- The second half of `stackColumn`: put `from_id` beside `to_id`.
unfoldable pub join_group : Groups → String → String → Place → Option Groups
join_group layout from_id to_id place = elim (group_index_of layout to_id) [
  | none ↦ none
  | some i ↦ elim (get_elem? layout i) [
    | none ↦ none
    | some g ↦ elim (index_of g to_id) [
      | none ↦ none
      | some pos ↦ some (set layout i (insert_at g (insert_pos place pos) from_id))
    ]
  ]
]

unfoldable pub stack_column : Groups → String → String → Place → Option Groups
stack_column layout from_id to_id place =
    if from_id == to_id then none else elim (group_index_of layout from_id) [
      | none ↦ none
      | some i ↦ elim (group_index_of layout to_id) [
        | none ↦ none
        | some _ ↦ elim (get_elem? layout i) [
          | none ↦ none
          | some g ↦ join_group (replace_group layout i (without from_id g)) from_id to_id place
        ]
      ]
    ]

unfoldable pub swap_in_group : Groups → String → String → Option Groups
swap_in_group layout a b = if a == b then none else elim (group_index_of layout a) [
  | none ↦ none
  | some i ↦ elim (get_elem? layout i) [
    | none ↦ none
    | some g ↦ elim (index_of g a) [
      | none ↦ none
      | some pa ↦ elim (index_of g b) [
        | none ↦ none
        | some pb ↦ some (set layout i (set (set g pa b) pb a))
      ]
    ]
  ]
]

-- Where the new group goes, in the layout without the column.
unfoldable pub insert_target : Groups → ℕ → List String → ℕ → ℕ
insert_target layout i g target =
    min (if is_nil g && ltb i target then target - 1 else target) (length layout)

unfoldable pub insert_column_at : Groups → String → ℕ → Option Groups
insert_column_at layout id target = elim (group_index_of layout id) [
  | none ↦ none
  | some i ↦ elim (get_elem? layout i) [
    | none ↦ none
    | some g ↦
        let rest = without id g in
        let layout' = replace_group layout i rest in
        if nat_eq (length g) 1 && nat_eq i target
        then none
        else some (insert_at layout' (insert_target layout' i rest target) (id ∷ []))
  ]
]

unfoldable pub unstack_column : Groups → String → Option Groups
unstack_column layout id = elim (group_index_of layout id) [
  | none ↦ none
  | some i ↦ elim (get_elem? layout i) [
    | none ↦ none
    | some g ↦
        if leb (length g) 1
        then none
        else some (insert_at (set layout i (without id g)) (i + 1) (id ∷ []))
  ]
]
