-- ===== src/Notes/Cache/Live.antt =====
-- The ids that eviction spares: those of the roots, and the renotes of their notes.
use notedeck.Prelude.{
  add, ℕ, ◌+◌, String, Bool, true, false, ◌||◌, some, List, [], ◌∷◌, includes, length, NoRepeat,
  is_some, includes-append, ◌≡◌, refl, arith, eq_iff, Bool-cases, Option-cases, inl, inr,
}
use notedeck.Prelude.Dict
use notedeck.Prelude.Dict.{Dict}
use notedeck.Notes.Cache.{CachedNote, add_all, collect_from, collect_live_ids, renote_of, live_ids}
use notedeck.Notes.Cache.Visits.{Closed, append-NoRepeat, add_renotes-Closed, includes-add_renotes}

add-NoRepeat : (ids : List String) (x : String) → NoRepeat ids → NoRepeat (add ids x)
add-NoRepeat ids x u = elim (Bool-cases (includes ids x)) [
  | inl e ↦ rw e u
  | inr e ↦ rw e (append-NoRepeat ids x u e)
]

add_all-NoRepeat : (ids xs : List String) → NoRepeat ids → NoRepeat (add_all ids xs)
add_all-NoRepeat ids [] u = u
add_all-NoRepeat ids (x ∷ xs) u = add_all-NoRepeat (add ids x) xs (add-NoRepeat ids x u)

collect_from-NoRepeat :
    (live : List String) (roots : List (List String))
    → NoRepeat live
    → NoRepeat (collect_from live roots)
unfolding collect_from
collect_from-NoRepeat live [] u = u
collect_from-NoRepeat live (xs ∷ roots) u =
    collect_from-NoRepeat (add_all live xs) roots (add_all-NoRepeat live xs u)

includes-add_all :
    (ids xs : List String) (k : String)
    → includes (add_all ids xs) k ≡ (includes ids k || includes xs k)
includes-add_all ids [] k = ground arith
includes-add_all ids (x ∷ xs) k =
    ground (arith, includes-add_all (add ids x) xs k, includes-append ids (x ∷ []) k, eq_iff x k)

-- One of the roots gives the id.
abbrev pub given : List (List String) → String → Bool
given [] k = false
given (xs ∷ roots) k = includes xs k || given roots k

includes-collect_from :
    (live : List String) (roots : List (List String)) (k : String)
    → includes (collect_from live roots) k ≡ (includes live k || given roots k)
unfolding collect_from
includes-collect_from live [] k = ground arith
includes-collect_from live (xs ∷ roots) k =
    ground (arith, includes-collect_from (add_all live xs) roots k, includes-add_all live xs k)

has_renote-key :
    (m : Dict ℕ) (objects : ℕ → CachedNote) (x y : String)
    → renote_of m objects x ≡ some y
    → is_some (Dict.get m x) ≡ true
has_renote-key m objects x y h = elim (Option-cases (Dict.get m x)) [
  | inl e ↦ absurd (ground arith)
  | inr (r, e) ↦ rw e refl
]

-- Every id that a root gives is live, and with a note in the map its renote is live too: the loop
-- comes to its end within its fuel.
pub live_ids-Closed :
    (m : Dict ℕ) (objects : ℕ → CachedNote) (roots : List (List String))
    → ((k : String) → given roots k ≡ true → includes (live_ids m objects roots) k ≡ true)
      × Closed (renote_of m objects) (live_ids m objects roots)
unfolding live_ids collect_live_ids
live_ids-Closed m objects roots =
    let f = renote_of m objects in
    let live = collect_from [] roots in
    (
      λ k g.
          includes-add_renotes (length live + length m) f live live k
            (ground (arith, includes-collect_from [] roots k)),
      add_renotes-Closed (length live + length m) f live live (Dict.keys_of m)
          (omega (arith, Dict.length-keys_of m))
          (record {
            once = collect_from-NoRepeat [] roots tt;
            pending_live = λ x h. h;
            closed = λ x y l p h. absurd (cc);
            left = λ x y h o.
                ground (arith, Dict.includes-keys_of m x, has_renote-key m objects x y h);
          }),
    )
