-- ===== src/Threads.antt =====
-- engine/threadMerge.ts: the copies of a thread that several servers have, merged by the notes' URIs.
-- A node is named by its URI: its children are the URIs of theirs. `createdAt` is a number.
pub mod Climb
pub mod Children
pub mod Groups
pub mod Merged
mod Examples
use Prim.Native.Nat.{max}
use Prim.Native.String.{◌++◌ as str_append}
use notedeck.Prelude.{
  ℕ, zero, suc, ◌+◌, String, Bool, true, false, not, Option, none, some, List, [], ◌∷◌, ◌++◌, map,
  length, includes, add, truthy, is_some, or_else, ltb, ◌==◌, if◌then◌else◌,
}
use notedeck.Prelude.Dict
use notedeck.Prelude.Dict.{Dict}

-- What gives a note its URI.
pub record NoteName : Type 0 where
  pub id : String
  pub uri : Option String
  pub server_host : String

pub record ThreadNote : Type 0 where
  pub name : NoteName
  pub created_at : ℕ
  pub reply_id : Option String
  pub reply : Option NoteName
  pub reactions : Dict ℕ
  pub renote_count : ℕ
  pub replies_count : ℕ

pub record ThreadFragment : Type 0 where
  pub note : ThreadNote
  pub source_account_id : String

pub record NoteVariant : Type 0 where
  pub account_id : String
  pub server_host : String
  pub note_id : String

pub record MergedThreadNode : Type 0 where
  pub note : ThreadNote
  pub variants : List NoteVariant
  pub children : List String

pub record MergedThread : Type 0 where
  pub ancestors : List MergedThreadNode
  pub focal : MergedThreadNode
  pub children : List String
  pub total_notes : ℕ
  pub servers_contributed : ℕ

unfoldable pub get_note_uri : NoteName → String
get_note_uri n =
    or_else n.uri (str_append "https://" (str_append n.server_host (str_append "/notes/" n.id)))

abbrev pub reaction_count : Dict ℕ → String → ℕ
reaction_count m k = or_else (Dict.get m k) 0

unfoldable pub add_reactions : Dict ℕ → Dict ℕ → Dict ℕ
add_reactions result [] = result
add_reactions result ((k, n) ∷ m) =
    add_reactions (Dict.put result k (reaction_count result k + n)) m

unfoldable pub merge_maps : Dict ℕ → List (Dict ℕ) → Dict ℕ
unfolding add_reactions
merge_maps result [] = result
merge_maps result (m ∷ ms) = merge_maps (add_reactions result m) ms

unfoldable pub merge_reactions : List (Dict ℕ) → Dict ℕ
unfolding merge_maps
merge_reactions ms = merge_maps [] ms

abbrev pub score : ThreadFragment → ℕ
score f = f.note.replies_count + f.note.renote_count

-- The first of the highest score, if one is above the score so far.
abbrev pub best_of : ThreadFragment → ℕ → List ThreadFragment → ThreadFragment
best_of best best_score [] = best
best_of best best_score (f ∷ fs) =
    let better = best_of f (score f) fs in
    let same = best_of best best_score fs in if ltb best_score (score f) then better else same

abbrev pub max_of : (ThreadFragment → ℕ) → ℕ → List ThreadFragment → ℕ
max_of count top [] = top
max_of count top (f ∷ fs) = max_of count (max top (count f)) fs

abbrev pub variant : ThreadFragment → NoteVariant
variant f = record {
  account_id = f.source_account_id;
  server_host = f.note.name.server_host;
  note_id = f.note.name.id;
}

-- The node of the fragments of one URI, of which there is one at least.
unfoldable pub pick_representative : ThreadFragment → List ThreadFragment → MergedThreadNode
unfolding merge_reactions
pick_representative f fs =
    let all = f ∷ fs in
    record {
      note = record (best_of f 0 all).note {
        reactions = merge_reactions (map (λ (g : ThreadFragment). g.note.reactions) all);
        renote_count = max_of (λ g. g.note.renote_count) 0 all;
        replies_count = max_of (λ g. g.note.replies_count) 0 all;
      };
      variants = map variant all;
      children = [];
    }

unfoldable pub resolve_parent_uri : ThreadNote → Dict String → Option String
unfolding get_note_uri
resolve_parent_uri note id_to_uri = elim (truthy note.reply_id) [
  | none ↦ none
  | some id ↦ elim note.reply [ some r ↦ some (get_note_uri r) | none ↦ Dict.get id_to_uri id ]
]

abbrev pub uri_of : ThreadFragment → String
uri_of f = get_note_uri f.note.name

-- A list in the map is never empty: its first fragment, and the rest.
abbrev pub Group : Type 0
Group = ThreadFragment × List ThreadFragment

abbrev pub push_fragment : Dict Group → ThreadFragment → Dict Group
push_fragment by_uri f = elim (Dict.get by_uri (uri_of f)) [
  | none ↦ Dict.put by_uri (uri_of f) (f, [])
  | some (g, gs) ↦ Dict.put by_uri (uri_of f) (g, gs ++ (f ∷ []))
]

unfoldable pub group_by_uri : Dict Group → List ThreadFragment → Dict Group
unfolding get_note_uri
group_by_uri by_uri [] = by_uri
group_by_uri by_uri (f ∷ fs) = group_by_uri (push_fragment by_uri f) fs

unfoldable pub ids_to_uris : Dict String → List ThreadFragment → Dict String
unfolding get_note_uri
ids_to_uris m [] = m
ids_to_uris m (f ∷ fs) = ids_to_uris (Dict.put m f.note.name.id (uri_of f)) fs

unfoldable pub make_nodes : Dict Group → Dict MergedThreadNode
unfolding pick_representative
make_nodes [] = []
make_nodes ((uri, (f, fs)) ∷ m) = (uri, pick_representative f fs) ∷ make_nodes m

-- `childOf`, from the URI of a child to the URI of its parent, for the nodes from here on.
unfoldable pub find_parents :
    Dict MergedThreadNode → Dict String → Dict MergedThreadNode → Dict String → Dict String
unfolding resolve_parent_uri
find_parents nodes id_to_uri [] child_of = child_of
find_parents nodes id_to_uri ((uri, node) ∷ rest) child_of =
    elim (truthy (resolve_parent_uri node.note id_to_uri)) [
      | none ↦ find_parents nodes id_to_uri rest child_of
      | some parent ↦
          find_parents nodes id_to_uri rest
            (if is_some (Dict.get nodes parent) then Dict.put child_of uri parent else child_of)
    ]

abbrev pub push_child : Dict MergedThreadNode → String → String → Dict MergedThreadNode
push_child nodes child parent =
    if is_some (Dict.get nodes child)
    then elim (Dict.get nodes parent) [
      | none ↦ nodes
      | some p ↦ Dict.put nodes parent (record p { children = p.children ++ (child ∷ []) })
    ]
    else nodes

unfoldable pub push_children : Dict MergedThreadNode → Dict String → Dict MergedThreadNode
push_children nodes [] = nodes
push_children nodes ((child, parent) ∷ rest) = push_children (push_child nodes child parent) rest

abbrev pub age : Dict MergedThreadNode → String → ℕ
age nodes uri = elim (Dict.get nodes uri) [ none ↦ 0 | some n ↦ n.note.created_at ]

-- `Array.sort` is stable: a child comes behind those that are as old.
abbrev pub insert_child : Dict MergedThreadNode → String → List String → List String
insert_child nodes c [] = c ∷ []
insert_child nodes c (d ∷ ds) =
    let rest = insert_child nodes c ds in
    if ltb (age nodes c) (age nodes d) then c ∷ d ∷ ds else d ∷ rest

abbrev pub sort_children : Dict MergedThreadNode → List String → List String → List String
sort_children nodes acc [] = acc
sort_children nodes acc (c ∷ cs) = sort_children nodes (insert_child nodes c acc) cs

unfoldable pub sort_all : Dict MergedThreadNode → Dict MergedThreadNode → Dict MergedThreadNode
sort_all nodes [] = []
sort_all nodes ((uri, n) ∷ rest) =
    (uri, record n { children = sort_children nodes [] n.children }) ∷ sort_all nodes rest

-- The parent that the next round visits, if it is a node that was not visited.
abbrev pub next : Dict MergedThreadNode → Dict String → String → List String → Option String
next nodes child_of uri visited = elim (truthy (Dict.get child_of uri)) [
  | none ↦ none
  | some parent ↦
      if includes visited parent
      then none
      else if is_some (Dict.get nodes parent)
      then some parent
      else none
]

-- The URIs of the ancestors, the oldest first.
unfoldable pub climb :
    ℕ → Dict MergedThreadNode → Dict String → String → List String → List String → List String
climb zero nodes child_of uri visited ancestors = ancestors
climb (suc n) nodes child_of uri visited ancestors = elim (next nodes child_of uri visited) [
  | none ↦ ancestors
  | some parent ↦ climb n nodes child_of parent (parent ∷ visited) (parent ∷ ancestors)
]

abbrev pub add_hosts : List String → List NoteVariant → List String
add_hosts hosts [] = hosts
add_hosts hosts (v ∷ vs) = add_hosts (add hosts v.server_host) vs

abbrev pub server_hosts : List String → Dict MergedThreadNode → List String
server_hosts hosts [] = hosts
server_hosts hosts ((uri, n) ∷ rest) = server_hosts (add_hosts hosts n.variants) rest

-- The nodes with these URIs.
abbrev pub nodes_at : Dict MergedThreadNode → List String → List MergedThreadNode
nodes_at nodes [] = []
nodes_at nodes (u ∷ us) =
    let rest = nodes_at nodes us in elim (Dict.get nodes u) [ none ↦ rest | some n ↦ n ∷ rest ]

-- There are as many rounds as nodes, at most.
unfoldable pub build_result : MergedThreadNode → Dict MergedThreadNode → Dict String → MergedThread
unfolding climb get_note_uri
build_result focal nodes child_of = record {
  ancestors =
      nodes_at nodes (climb (length nodes) nodes child_of (get_note_uri focal.note.name) [] []);
  focal = focal;
  children = focal.children;
  total_notes = length nodes;
  servers_contributed = length (server_hosts [] nodes);
}

-- The first node that has no parent.
abbrev pub first_root : Dict String → Dict MergedThreadNode → Option MergedThreadNode
first_root child_of [] = none
first_root child_of ((uri, n) ∷ rest) =
    let other = first_root child_of rest in
    if is_some (Dict.get child_of (get_note_uri n.note.name)) then other else some n

abbrev pub nodes_of : List ThreadFragment → Dict MergedThreadNode
nodes_of fragments = make_nodes (group_by_uri [] fragments)

abbrev pub parents_of : List ThreadFragment → Dict String
parents_of fragments =
    find_parents (nodes_of fragments) (ids_to_uris [] fragments) (nodes_of fragments) []

abbrev pub thread_nodes : List ThreadFragment → Dict MergedThreadNode
thread_nodes fragments =
    let pushed = push_children (nodes_of fragments) (parents_of fragments) in sort_all pushed pushed

unfoldable pub merge_thread_fragments : List ThreadFragment → String → Option MergedThread
unfolding build_result group_by_uri ids_to_uris make_nodes find_parents push_children sort_all
merge_thread_fragments [] focal_uri = none
merge_thread_fragments (f ∷ fs) focal_uri =
    let nodes = thread_nodes (f ∷ fs) in
    let child_of = parents_of (f ∷ fs) in
    elim (Dict.get nodes focal_uri) [
      | some focal ↦ some (build_result focal nodes child_of)
      | none ↦ elim (first_root child_of nodes) [
        | none ↦ none
        | some root ↦ some (build_result root nodes child_of)
      ]
    ]
