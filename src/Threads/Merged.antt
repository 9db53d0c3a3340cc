-- ===== src/Threads/Merged.antt =====
-- The nodes of a thread against the fragments they are made of.
use notedeck.Prelude.{
  ℕ, ◌+◌, String, Option, none, some, List, [], ◌∷◌, ◌++◌, map, keep_if, is_some, or_else, ◌==◌,
  ◌≡◌, refl, sym, ap, ◌∙◌, arith, if◌then◌else◌, Bool-cases, Option-cases, String-cases, inl, inr,
}
use notedeck.Prelude.Dict
use notedeck.Prelude.Dict.{Dict, Distinct}
use notedeck.Threads.{
  ThreadFragment, MergedThreadNode, reaction_count, add_reactions, merge_maps, merge_reactions,
  pick_representative, Group, group_by_uri, make_nodes, push_child, push_children, sort_all,
  nodes_of, parents_of, thread_nodes,
}
use notedeck.Threads.Children.{count_uri, children_at, is_parent, children_at-thread_nodes}
use notedeck.Threads.Groups.{has_uri, extend, get-group_by_uri}

-- The group of the fragments; none, if there are none.
abbrev pub as_group : List ThreadFragment → Option Group
as_group fs = extend none fs

-- The node that a group makes, which has no children yet.
abbrev pub node_of : Option Group → Option MergedThreadNode
node_of none = none
node_of (some (f, fs)) = some (pick_representative f fs)

-- A node but for its children: its note and the variants.
abbrev pub childless : Option MergedThreadNode → Option MergedThreadNode
childless none = none
childless (some n) = some (record n { children = [] })

abbrev pub childless_at : Dict MergedThreadNode → String → Option MergedThreadNode
childless_at nodes u = childless (Dict.get nodes u)

childless_at-make_nodes :
    (m : Dict Group) (u : String) → childless_at (make_nodes m) u ≡ node_of (Dict.get m u)
unfolding make_nodes Dict.get pick_representative
childless_at-make_nodes [] u = refl
childless_at-make_nodes ((v, (f, fs)) ∷ m) u = elim (Bool-cases (v == u)) [
  | inl e ↦ rw e refl
  | inr e ↦ rw e (childless_at-make_nodes m u)
]

childless_at-put :
    (nodes : Dict MergedThreadNode) (v u : String) (n : MergedThreadNode) (cs : List String)
    → Dict.get nodes v ≡ some n
    → childless_at (Dict.put nodes v (record n { children = cs })) u ≡ childless_at nodes u
childless_at-put nodes v u n cs h =
    ap childless (Dict.get-put nodes v u (record n { children = cs })) ∙ elim (String-cases v u) [
      | inl (p, e) ↦ rw e (sym (ap childless (ap (Dict.get nodes) (sym p) ∙ h)))
      | inr (p, e) ↦ rw e refl
    ]

childless_at-push_child :
    (nodes : Dict MergedThreadNode) (child parent u : String)
    → childless_at (push_child nodes child parent) u ≡ childless_at nodes u
childless_at-push_child nodes child parent u = elim (Bool-cases (is_some (Dict.get nodes child))) [
  | inl e ↦ elim (Option-cases (Dict.get nodes parent)) [
    | inl g ↦ rw (e, g, push_child) refl
    | inr (p, g) ↦
        rw (e, g, push_child) (childless_at-put nodes parent u p (p.children ++ (child ∷ [])) g)
  ]
  | inr e ↦ rw (e, push_child) refl
]

childless_at-push_children :
    (nodes : Dict MergedThreadNode) (child_of : Dict String) (u : String)
    → childless_at (push_children nodes child_of) u ≡ childless_at nodes u
unfolding push_children
childless_at-push_children nodes [] u = refl
childless_at-push_children nodes ((child, parent) ∷ rest) u =
    childless_at-push_children (push_child nodes child parent) rest u
    ∙ childless_at-push_child nodes child parent u

childless_at-sort_all :
    (nodes rest : Dict MergedThreadNode) (u : String)
    → childless_at (sort_all nodes rest) u ≡ childless_at rest u
unfolding sort_all Dict.get
childless_at-sort_all nodes [] u = refl
childless_at-sort_all nodes ((v, n) ∷ rest) u = elim (Bool-cases (v == u)) [
  | inl e ↦ rw e refl
  | inr e ↦ rw e (childless_at-sort_all nodes rest u)
]

reaction_count-put :
    (r : Dict ℕ) (j k : String) (n : ℕ)
    → reaction_count (Dict.put r j n) k ≡ (if j == k then n else reaction_count r k)
reaction_count-put r j k n = elim (Bool-cases (j == k)) [
  | inl e ↦ rw (Dict.get-put r j k n, e) refl
  | inr e ↦ rw (Dict.get-put r j k n, e) refl
]

reaction_count-add_reactions :
    (r m : Dict ℕ) (k : String)
    → Distinct m
    → reaction_count (add_reactions r m) k ≡ reaction_count r k + reaction_count m k
unfolding add_reactions Dict.get
reaction_count-add_reactions r [] k d = omega arith
reaction_count-add_reactions r ((j, n) ∷ m) k d =
    let rest = reaction_count-add_reactions (Dict.put r j (reaction_count r j + n)) m k d.1 in
    elim (String-cases j k) [
      | inl (p, e) ↦
          let now : reaction_count (Dict.put r j (reaction_count r j + n)) k
              ≡ reaction_count r j + n =
            reaction_count-put r j k (reaction_count r j + n) ∙ rw e refl in
          let gone : reaction_count m k ≡ 0 =
            ap (λ o. or_else o 0) (ap (Dict.get m) (sym p) ∙ d.0) in
          let same : reaction_count r j ≡ reaction_count r k = ap (reaction_count r) p in
          rw e (omega (arith, rest, now, gone, same))
      | inr (p, e) ↦
          let now : reaction_count (Dict.put r j (reaction_count r j + n)) k ≡ reaction_count r k =
            reaction_count-put r j k (reaction_count r j + n) ∙ rw e refl in
          rw e (omega (arith, rest, now))
    ]

-- No reaction stands twice in the reactions of a fragment.
abbrev pub AllDistinct : List ThreadFragment → Type 0
AllDistinct [] = Unit
AllDistinct (f ∷ fs) = Distinct f.note.reactions × AllDistinct fs

-- The reactions of this kind on all copies.
abbrev pub sum_of : String → List ThreadFragment → ℕ
sum_of k [] = 0
sum_of k (f ∷ fs) = reaction_count f.note.reactions k + sum_of k fs

reaction_count-merge_maps :
    (r : Dict ℕ) (fs : List ThreadFragment) (k : String)
    → AllDistinct fs
    → reaction_count (merge_maps r (map (λ (g : ThreadFragment). g.note.reactions) fs)) k
      ≡ reaction_count r k + sum_of k fs
unfolding merge_maps
reaction_count-merge_maps r [] k d = omega arith
reaction_count-merge_maps r (f ∷ fs) k d = omega (
  arith,
  reaction_count-merge_maps (add_reactions r f.note.reactions) fs k d.1,
  reaction_count-add_reactions r f.note.reactions k d.0,
)

keep_if-AllDistinct :
    (u : String) (fs : List ThreadFragment) → AllDistinct fs → AllDistinct (keep_if (has_uri u) fs)
keep_if-AllDistinct u [] d = tt
keep_if-AllDistinct u (f ∷ fs) d = elim (Bool-cases (has_uri u f)) [
  | inl e ↦ rw e (d.0, keep_if-AllDistinct u fs d.1)
  | inr e ↦ rw e (keep_if-AllDistinct u fs d.1)
]

abbrev pub reactions_in : String → Option MergedThreadNode → ℕ
reactions_in k none = 0
reactions_in k (some n) = reaction_count n.note.reactions k

reactions_in-as_group :
    (k : String) (fs : List ThreadFragment)
    → AllDistinct fs
    → reactions_in k (node_of (as_group fs)) ≡ sum_of k fs
unfolding pick_representative merge_reactions Dict.get
reactions_in-as_group k [] d = refl
reactions_in-as_group k (f ∷ fs) d = omega (arith, reaction_count-merge_maps [] (f ∷ fs) k d)

-- The node of a URI is, but for its children, that of the fragments with the URI, in their order, with
-- its note and its variants, and there is none without any fragment. Its children are the URIs whose
-- parent it is, each once. Where no reaction stands twice in a fragment, the reactions of each kind on
-- the node are the sum of those of these fragments.
pub thread_nodes-merged :
    (fs : List ThreadFragment) (u c k : String)
    → AllDistinct fs
    → (childless_at (thread_nodes fs) u ≡ node_of (as_group (keep_if (has_uri u) fs)))
      × (count_uri c (children_at (thread_nodes fs) u)
          ≡ (if is_parent u (Dict.get (parents_of fs) c) then 1 else 0))
      × (reactions_in k (childless_at (thread_nodes fs) u) ≡ sum_of k (keep_if (has_uri u) fs))
unfolding Dict.get
thread_nodes-merged fs u c k d =
    let pushed = push_children (nodes_of fs) (parents_of fs) in
    let same : childless_at (thread_nodes fs) u ≡ node_of (as_group (keep_if (has_uri u) fs)) =
      childless_at-sort_all pushed pushed u
      ∙ childless_at-push_children (nodes_of fs) (parents_of fs) u
      ∙ childless_at-make_nodes (group_by_uri [] fs) u
      ∙ ap node_of (get-group_by_uri [] fs u) in
    (
      same,
      children_at-thread_nodes fs u c,
      ap (reactions_in k) same
          ∙ reactions_in-as_group k (keep_if (has_uri u) fs) (keep_if-AllDistinct u fs d),
    )
