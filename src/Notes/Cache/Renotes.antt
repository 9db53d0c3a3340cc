-- ===== src/Notes/Cache/Renotes.antt =====
-- `put` and `resolve` agree on the renotes.
use notedeck.Prelude.{
  truthy, ℕ, String, Bool, true, false, ◌||◌, Option, none, some, List, [], ◌∷◌, length, nat_eq,
  leb, ◌≡◌, ◌⊎◌, refl, sym, ap, ◌∙◌, arith, if◌then◌else◌, Bool-cases, Option-cases, inl, inr,
}
use notedeck.Prelude.Dict
use notedeck.Prelude.Dict.{Dict, Distinct}
use notedeck.Notes.Eviction.{evict_by_liveness}
use notedeck.Notes.Cache.{
  CachedNote, NoteStore, evict_if_needed, set_notes, sync_renotes, with_latest, with_renote, latest,
  write, id_of, age_of, put, live_ids,
}

pub latest-with_renote :
    (m : Dict ℕ) (x : Option ℕ) (c : CachedNote) → latest m (with_renote x c) ≡ latest m c
latest-with_renote m none c = refl
latest-with_renote m (some l) c = refl

with_renote_twice :
    (x : Option ℕ) (c : CachedNote) → with_renote x (with_renote x c) ≡ with_renote x c
with_renote_twice none c = refl
with_renote_twice (some l) c = refl

pub with_latest_twice :
    (m : Dict ℕ) (c : CachedNote) → with_latest m (with_latest m c) ≡ with_latest m c
with_latest_twice m c =
    ap (λ o. with_renote o (with_latest m c)) (latest-with_renote m (latest m c) c)
    ∙ with_renote_twice (latest m c) c

pub note-with_renote :
    (x : Option ℕ) (c : CachedNote)
    → ((with_renote x c).note ≡ c.note) × ((with_renote x c).created_at ≡ c.created_at)
note-with_renote none c = (refl, refl)
note-with_renote (some l) c = (refl, refl)

abbrev pub has_ref : List ℕ → ℕ → Bool
has_ref [] r = false
has_ref (x ∷ xs) r = nat_eq x r || has_ref xs r

write_lem :
    (o : ℕ → CachedNote) (a r : ℕ) (c : CachedNote)
    → ((a ≡ r) × (nat_eq a r ≡ true) × (write o a c r ≡ c))
      ⊎ ((nat_eq a r ≡ false) × (write o a c r ≡ o r))
write_lem o a r c = elim (Bool-cases (nat_eq a r)) [
  | inl e ↦ inl (ground arith, e, rw e refl)
  | inr e ↦ inr (e, rw e refl)
]

pub sync_renotes_lem :
    (m : Dict ℕ) (o : ℕ → CachedNote) (rs : List ℕ) (r : ℕ)
    → sync_renotes m o rs r ≡ (if has_ref rs r then with_latest m (o r) else o r)
unfolding sync_renotes
sync_renotes_lem m o [] r = refl
sync_renotes_lem m o (a ∷ rs) r =
    let c = with_latest m (o a) in
    sync_renotes_lem m (write o a c) rs r ∙ elim (write_lem o a r c) [
      | inl (p, e, w) ↦ rw e (elim (Bool-cases (has_ref rs r)) [
        | inl h ↦ rw h (with_latest_twice m (o a) ∙ ap (λ x. with_latest m (o x)) p)
        | inr h ↦ rw h (ap (λ x. with_latest m (o x)) p)
      ])
      | inr (e, w) ↦ rw e refl
    ]

-- Notes and their ages are what they were.
pub note-sync_renotes :
    (m : Dict ℕ) (o : ℕ → CachedNote) (rs : List ℕ) (r : ℕ)
    → ((sync_renotes m o rs r).note ≡ (o r).note)
      × ((sync_renotes m o rs r).created_at ≡ (o r).created_at)
note-sync_renotes m o rs r = rw (sync_renotes_lem m o rs r) (elim (Bool-cases (has_ref rs r)) [
  | inl e ↦ rw e (note-with_renote (latest m (o r)) (o r))
  | inr e ↦ rw e (refl, refl)
])

-- A map with fewer entries asks for no other renote than the larger one has.
pub latest-smaller :
    (m n : Dict ℕ) (c : CachedNote)
    → ((k : String) (v : ℕ) → Dict.get n k ≡ some v → Dict.get m k ≡ some v)
    → (latest n c ≡ none) ⊎ (latest n c ≡ latest m c)
latest-smaller m n c h = elim (Option-cases (truthy c.renote_id)) [
  | inl e ↦ inl (rw (e, latest) refl)
  | inr (i, e) ↦ elim (Option-cases (Dict.get n i)) [
    | inl f ↦ inl (rw (e, latest) f)
    | inr (v, f) ↦ inr (rw (e, latest) (f ∙ sym (h i v f)))
  ]
]

pub note_map-evict_if_needed :
    (max : ℕ) (roots : List (List String)) (st : NoteStore)
    → (evict_if_needed max roots st).note_map
      ≡ evict_by_liveness st.note_map max
          (live_ids st.note_map st.objects roots)
          (age_of st.objects)
          (id_of st.objects)
unfolding evict_if_needed evict_by_liveness
note_map-evict_if_needed max roots st = elim (Bool-cases (leb (length st.note_map) max)) [
  | inl e ↦ rw e refl
  | inr e ↦ rw e refl
]

pub objects-evict_if_needed :
    (max : ℕ) (roots : List (List String)) (st : NoteStore)
    → (evict_if_needed max roots st).objects ≡ st.objects
unfolding evict_if_needed
objects-evict_if_needed max roots st = elim (Bool-cases (leb (length st.note_map) max)) [
  | inl e ↦ rw e refl
  | inr e ↦ rw e refl
]

-- The store before eviction.
abbrev pub filled : List ℕ → NoteStore → NoteStore
filled notes st =
    let m = set_notes st.objects st.note_map notes in
    record st { note_map = m; objects = sync_renotes m st.objects notes }

pub fields-put :
    (max : ℕ) (roots : List (List String)) (notes : List ℕ) (skip : Bool) (st : NoteStore)
    → ((put max roots notes skip st).note_map
        ≡ (evict_if_needed max roots (filled notes st)).note_map)
      × ((put max roots notes skip st).objects ≡ (filled notes st).objects)
unfolding put
fields-put max roots notes skip st = elim (Bool-cases skip) [
  | inl e ↦ rw e (refl, objects-evict_if_needed max roots (filled notes st))
  | inr e ↦ rw e (refl, objects-evict_if_needed max roots (filled notes st))
]
