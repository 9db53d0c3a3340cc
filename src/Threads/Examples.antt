-- ===== src/Threads/Examples.antt =====
-- The theorems on threads at a thread of two notes that answer each other, on two servers.
use notedeck.Prelude.{
  ℕ, String, none, some, List, [], ◌∷◌, length, keep_if, ◌≡◌, refl, arith, if◌then◌else◌,
}
use notedeck.Prelude.Dict
use notedeck.Prelude.Dict.{Dict}
use notedeck.Threads.{
  ThreadFragment, climb, get_note_uri, parents_of, thread_nodes, group_by_uri, make_nodes,
  pick_representative, find_parents, ids_to_uris, resolve_parent_uri, push_children, sort_all,
}
use notedeck.Threads.Climb.{Climbed, climb-ends}
use notedeck.Threads.Children.{count_uri, children_at, is_parent}
use notedeck.Threads.Merged.{childless_at, node_of, as_group, reactions_in, thread_nodes-merged}
use notedeck.Threads.Groups.{has_uri}

abbrev copy : String → String → String → String → ℕ → ThreadFragment
copy account id uri reply_id likes = record {
  note = record {
    name = record { id = id; uri = some uri; server_host = account };
    created_at = 1;
    reply_id = some reply_id;
    reply = none;
    reactions = ("like", likes) ∷ [];
    renote_count = 0;
    replies_count = 1;
  };
  source_account_id = account;
}

-- Two copies of "u1", and a note "u2"; each answers the other.
abbrev copies : List ThreadFragment
copies = copy "a" "1" "u1" "2" 3 ∷ copy "b" "9" "u1" "2" 4 ∷ copy "a" "2" "u2" "1" 1 ∷ []

climb-ends_example :
    (climb 5 (thread_nodes copies) (parents_of copies) "u1" [] []
      ≡ climb (length (thread_nodes copies)) (thread_nodes copies) (parents_of copies) "u1" [] [])
    × Climbed
        (thread_nodes copies)
        (parents_of copies)
        "u1"
        (climb (length (thread_nodes copies)) (thread_nodes copies) (parents_of copies) "u1" [] [])
unfolding group_by_uri make_nodes find_parents push_children sort_all Dict.put Dict.get get_note_uri
    ids_to_uris resolve_parent_uri pick_representative
climb-ends_example = climb-ends 5 (thread_nodes copies) (parents_of copies) "u1" (omega arith)

thread_nodes-merged_example :
    (childless_at (thread_nodes copies) "u1" ≡ node_of (as_group (keep_if (has_uri "u1") copies)))
    × (count_uri "u2" (children_at (thread_nodes copies) "u1")
        ≡ (if is_parent "u1" (Dict.get (parents_of copies) "u2") then 1 else 0))
    × (reactions_in "like" (childless_at (thread_nodes copies) "u1") ≡ 7)
unfolding get_note_uri Dict.get
thread_nodes-merged_example =
    thread_nodes-merged copies "u1" "u2" "like" ((refl, tt), ((refl, tt), ((refl, tt), tt)))

-- Both notes are ancestors of "u1", which thus is its own.
cycle_ends : climb 2 (thread_nodes copies) (parents_of copies) "u1" [] [] ≡ "u1" ∷ "u2" ∷ []
unfolding climb group_by_uri make_nodes find_parents push_children sort_all Dict.put Dict.get
    get_note_uri ids_to_uris resolve_parent_uri pick_representative
cycle_ends = refl
