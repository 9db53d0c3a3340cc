-- ===== src/Threads/Children.antt =====
-- The children of the nodes of a thread.
use notedeck.Prelude.{
  ℕ, ◌+◌, String, Bool, true, false, Option, none, some, List, [], ◌∷◌, ◌++◌, is_some, truthy, ltb,
  ◌==◌, eq_refl, ◌≡◌, refl, sym, ap, ◌∙◌, arith, if◌then◌else◌, Bool-cases, Option-cases,
  String-cases, inl, inr,
}
use notedeck.Prelude.Dict
use notedeck.Prelude.Dict.{Dict, Distinct}
use notedeck.Threads.{
  ThreadFragment, MergedThreadNode, Group, group_by_uri, ids_to_uris, make_nodes, find_parents,
  resolve_parent_uri, push_child, push_children, age, insert_child, sort_children, sort_all,
  nodes_of, parents_of, thread_nodes,
}

abbrev one : String → String → ℕ
one c d = if d == c then 1 else 0

abbrev pub count_uri : String → List String → ℕ
count_uri c [] = 0
count_uri c (d ∷ ds) = one c d + count_uri c ds

abbrev children_of : Option MergedThreadNode → List String
children_of none = []
children_of (some n) = n.children

-- The children of the node with this URI.
abbrev pub children_at : Dict MergedThreadNode → String → List String
children_at nodes u = children_of (Dict.get nodes u)

abbrev pub is_parent : String → Option String → Bool
is_parent u none = false
is_parent u (some p) = p == u

abbrev was_parent : String → Option String → ℕ
was_parent u p = if is_parent u p then 1 else 0

count_uri-append :
    (c : String) (ds es : List String) → count_uri c (ds ++ es) ≡ count_uri c ds + count_uri c es
count_uri-append c [] es = omega arith
count_uri-append c (d ∷ ds) es = omega (arith, count_uri-append c ds es)

count_uri-insert_child :
    (c : String) (nodes : Dict MergedThreadNode) (d : String) (ds : List String)
    → count_uri c (insert_child nodes d ds) ≡ one c d + count_uri c ds
count_uri-insert_child c nodes d [] = refl
count_uri-insert_child c nodes d (e ∷ es) = elim (Bool-cases (ltb (age nodes d) (age nodes e))) [
  | inl h ↦ rw h refl
  | inr h ↦ rw h (omega (arith, count_uri-insert_child c nodes d es))
]

count_uri-sort_children :
    (c : String) (nodes : Dict MergedThreadNode) (acc ds : List String)
    → count_uri c (sort_children nodes acc ds) ≡ count_uri c acc + count_uri c ds
count_uri-sort_children c nodes acc [] = omega arith
count_uri-sort_children c nodes acc (d ∷ ds) = omega (
  arith,
  count_uri-sort_children c nodes (insert_child nodes d acc) ds,
  count_uri-insert_child c nodes d acc,
)

children_at-sort_all :
    (nodes rest : Dict MergedThreadNode) (u c : String)
    → count_uri c (children_at (sort_all nodes rest) u) ≡ count_uri c (children_at rest u)
unfolding sort_all Dict.get
children_at-sort_all nodes [] u c = refl
children_at-sort_all nodes ((v, n) ∷ rest) u c = elim (Bool-cases (v == u)) [
  | inl e ↦ rw e (omega (arith, count_uri-sort_children c nodes [] n.children))
  | inr e ↦ rw e (children_at-sort_all nodes rest u c)
]

children_at-make_nodes : (m : Dict Group) (u : String) → children_at (make_nodes m) u ≡ []
unfolding make_nodes Dict.get
children_at-make_nodes [] u = refl
children_at-make_nodes ((v, (f, fs)) ∷ m) u = elim (Bool-cases (v == u)) [
  | inl e ↦ rw e refl
  | inr e ↦ rw e (children_at-make_nodes m u)
]

-- What a pair of a child and its parent adds to the children of `u`.
abbrev added : String → String → String → String → ℕ
added child parent u c = if parent == u then one c child else 0

abbrev IsNode : Dict MergedThreadNode → String → Type 0
IsNode nodes u = is_some (Dict.get nodes u) ≡ true

put-children :
    (nodes : Dict MergedThreadNode) (v u c child : String) (n : MergedThreadNode)
    → Dict.get nodes v ≡ some n
    → count_uri c
        (children_at (Dict.put nodes v (record n { children = n.children ++ (child ∷ []) })) u)
      ≡ count_uri c (children_at nodes u) + added child v u c
put-children nodes v u c child n h =
    let m : MergedThreadNode = record n { children = n.children ++ (child ∷ []) } in
    ap (λ o. count_uri c (children_of o)) (Dict.get-put nodes v u m) ∙ elim (String-cases v u) [
      | inl (p, e) ↦
          let here : count_uri c (children_at nodes u) ≡ count_uri c n.children =
            ap (λ o. count_uri c (children_of o)) (ap (Dict.get nodes) (sym p) ∙ h) in
          rw e (omega (arith, here, count_uri-append c n.children (child ∷ [])))
      | inr (p, e) ↦ rw e (omega arith)
    ]

push_child-children :
    (nodes : Dict MergedThreadNode) (child parent u c : String)
    → IsNode nodes child
    → IsNode nodes parent
    → count_uri c (children_at (push_child nodes child parent) u)
      ≡ count_uri c (children_at nodes u) + added child parent u c
push_child-children nodes child parent u c h g = elim (Option-cases (Dict.get nodes parent)) [
  | inl e ↦ absurd (ground (arith, e, g))
  | inr (p, e) ↦ rw (h, e, push_child) (put-children nodes parent u c child p e)
]

push_child-IsNode :
    (nodes : Dict MergedThreadNode) (child parent u : String)
    → IsNode nodes u
    → IsNode (push_child nodes child parent) u
push_child-IsNode nodes child parent u h = elim (Bool-cases (is_some (Dict.get nodes child))) [
  | inl e ↦ elim (Option-cases (Dict.get nodes parent)) [
    | inl f ↦ rw (e, f, push_child) h
    | inr (p, f) ↦
        rw (e, f, push_child)
          (ap is_some
              (Dict.get-put nodes parent u (record p { children = p.children ++ (child ∷ []) }))
            ∙ elim (Bool-cases (parent == u)) [ inl g ↦ rw g refl | inr g ↦ rw g h ])
  ]
  | inr e ↦ rw (e, push_child) h
]

-- Every pair is of two nodes.
abbrev AreNodes : Dict MergedThreadNode → Dict String → Type 0
AreNodes nodes [] = Unit
AreNodes nodes ((child, parent) ∷ rest) =
    IsNode nodes child × IsNode nodes parent × AreNodes nodes rest

push_child-AreNodes :
    (nodes : Dict MergedThreadNode) (child parent : String) (m : Dict String)
    → AreNodes nodes m
    → AreNodes (push_child nodes child parent) m
push_child-AreNodes nodes child parent [] h = tt
push_child-AreNodes nodes child parent ((c, p) ∷ m) h = (
  push_child-IsNode nodes child parent c h.0,
  push_child-IsNode nodes child parent p h.1,
  push_child-AreNodes nodes child parent m h.2,
)

push_children-children :
    (nodes : Dict MergedThreadNode) (m : Dict String) (u c : String)
    → Distinct m
    → AreNodes nodes m
    → count_uri c (children_at (push_children nodes m) u)
      ≡ count_uri c (children_at nodes u) + was_parent u (Dict.get m c)
unfolding push_children Dict.get
push_children-children nodes [] u c d h = omega arith
push_children-children nodes ((child, parent) ∷ m) u c d h =
    let rest =
      push_children-children (push_child nodes child parent) m u c d.1
        (push_child-AreNodes nodes child parent m h.2) in
    let now = push_child-children nodes child parent u c h.0 h.1 in
    elim (String-cases child c) [
      | inl (p, e) ↦
          let gone : Dict.get m c ≡ none = ap (Dict.get m) (sym p) ∙ d.0 in
          let last : was_parent u (Dict.get m c) ≡ 0 = rw gone refl in
          rw e (ground (arith, rest, now, last, e))
      | inr (p, e) ↦ rw e (ground (arith, rest, now, e))
    ]

put-AreNodes :
    (nodes : Dict MergedThreadNode) (m : Dict String) (child parent : String)
    → IsNode nodes child
    → IsNode nodes parent
    → AreNodes nodes m
    → AreNodes nodes (Dict.put m child parent)
unfolding Dict.put
put-AreNodes nodes [] child parent h g a = (h, g, tt)
put-AreNodes nodes ((c, p) ∷ m) child parent h g a = elim (Bool-cases (c == child)) [
  | inl e ↦ rw e (a.0, g, a.2)
  | inr e ↦ rw e (a.0, a.1, put-AreNodes nodes m child parent h g a.2)
]

-- The keys of `rest` are nodes.
abbrev KeysAreNodes : Dict MergedThreadNode → Dict MergedThreadNode → Type 0
KeysAreNodes nodes [] = Unit
KeysAreNodes nodes ((uri, n) ∷ rest) = IsNode nodes uri × KeysAreNodes nodes rest

keys_later :
    (nodes : Dict MergedThreadNode) (uri : String) (n : MergedThreadNode)
    (rest : Dict MergedThreadNode)
    → KeysAreNodes nodes rest
    → KeysAreNodes ((uri, n) ∷ nodes) rest
unfolding Dict.get
keys_later nodes uri n [] h = tt
keys_later nodes uri n ((v, m) ∷ rest) h = (
  elim (Bool-cases (uri == v)) [ inl e ↦ rw e refl | inr e ↦ rw e h.0 ],
  keys_later nodes uri n rest h.1,
)

keys_lem : (nodes : Dict MergedThreadNode) → KeysAreNodes nodes nodes
unfolding Dict.get
keys_lem [] = tt
keys_lem ((uri, n) ∷ nodes) =
    let here : (uri == uri) ≡ true = eq_refl uri in
    (rw here refl, keys_later nodes uri n nodes (keys_lem nodes))

find_parents-AreNodes :
    (nodes : Dict MergedThreadNode) (id_to_uri : Dict String) (rest : Dict MergedThreadNode)
    (m : Dict String)
    → KeysAreNodes nodes rest
    → AreNodes nodes m
    → Distinct m
    → AreNodes nodes (find_parents nodes id_to_uri rest m)
      × Distinct (find_parents nodes id_to_uri rest m)
unfolding find_parents
find_parents-AreNodes nodes id_to_uri [] m k a d = (a, d)
find_parents-AreNodes nodes id_to_uri ((uri, n) ∷ rest) m k a d =
    elim (Option-cases (truthy (resolve_parent_uri n.note id_to_uri))) [
      | inl e ↦ rw (e, find_parents) (find_parents-AreNodes nodes id_to_uri rest m k.1 a d)
      | inr (p, e) ↦
          rw (e, find_parents)
            (elim (Bool-cases (is_some (Dict.get nodes p))) [
              | inl f ↦ rw f (
                  find_parents-AreNodes nodes id_to_uri rest (Dict.put m uri p) k.1
                    (put-AreNodes nodes m uri p k.0 f a) (Dict.put-Distinct m uri p d))
              | inr f ↦ rw f (find_parents-AreNodes nodes id_to_uri rest m k.1 a d)
            ])
    ]

-- The children of the node `u` of a thread are the URIs whose parent is `u`, each once.
pub children_at-thread_nodes :
    (fs : List ThreadFragment) (u c : String)
    → count_uri c (children_at (thread_nodes fs) u)
      ≡ (if is_parent u (Dict.get (parents_of fs) c) then 1 else 0)
children_at-thread_nodes fs u c =
    let nodes = nodes_of fs in
    let pushed = push_children nodes (parents_of fs) in
    let facts = find_parents-AreNodes nodes (ids_to_uris [] fs) nodes [] (keys_lem nodes) tt tt in
    let none_before : count_uri c (children_at nodes u) ≡ 0 =
      ap (count_uri c) (children_at-make_nodes (group_by_uri [] fs) u) in
    omega (
      arith,
      children_at-sort_all pushed pushed u c,
      push_children-children nodes (parents_of fs) u c facts.1 facts.0,
      none_before,
    )
