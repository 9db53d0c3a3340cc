-- ===== src/Notes/Cache/WellFormed.antt =====
-- The invariant of the store: entries and references are right.
use notedeck.Prelude.{
  truthy, ℕ, ◌+◌, ◌<◌, String, Bool, false, some, List, [], ◌∷◌, length, leb, nat_eq, ◌≡◌, refl,
  sym, subst, ap, ◌∙◌, arith, Bool-cases, Option-cases, String-cases, inl, inr,
}
use notedeck.Prelude.Dict
use notedeck.Prelude.Dict.{Dict, Distinct}
use notedeck.Notes.Updates.{LiveNote}
use notedeck.Notes.Eviction.Ages.{Keyed}
use notedeck.Notes.Eviction.Outcome.{Evicted, evict_by_liveness-Evicted, evict_by_liveness-Distinct}
use notedeck.Notes.Cache.{
  CachedNote, NoteStore, set_notes, sync_renotes, write, with_latest, latest, id_of, age_of, put,
  live_ids, schedule_trigger, evict_if_needed,
}
use notedeck.Notes.Cache.Renotes.{
  has_ref, sync_renotes_lem, note-sync_renotes, note_map-evict_if_needed, fields-put, filled,
}

-- Every entry is under the id of its note, and its object exists.
abbrev pub Refers : (ℕ → CachedNote) → ℕ → Dict ℕ → Type 0
Refers objects next m =
    (k : String) (r : ℕ) → Dict.get m k ≡ some r → (id_of objects r ≡ k) × (r < next)

-- The renotes of the objects exist.
abbrev pub RenotesExist : (ℕ → CachedNote) → ℕ → Type 0
RenotesExist objects next = (r s : ℕ) → r < next → (objects r).renote ≡ some s → s < next

pub record WellFormed (st : NoteStore) : Type 0 where
  pub distinct : Distinct st.note_map
  pub refers : Refers st.objects st.next st.note_map
  pub renotes : RenotesExist st.objects st.next

abbrev pub AllExist : ℕ → List ℕ → Type 0
AllExist next [] = Unit
AllExist next (r ∷ rs) = (r < next) × AllExist next rs

pub put-Refers :
    (objects : ℕ → CachedNote) (next : ℕ) (m : Dict ℕ) (id : String) (r : ℕ)
    → id_of objects r ≡ id
    → r < next
    → Refers objects next m
    → Refers objects next (Dict.put m id r)
put-Refers objects next m id r p lt h k s e = elim (String-cases id k) [
  | inl (q, f) ↦
      let same : r ≡ s = ground (arith, Dict.get-put m id k r) in
      subst (λ t. (id_of objects t ≡ k) × (t < next)) same (p ∙ q, lt)
  | inr (q, f) ↦ h k s (ground (arith, Dict.get-put m id k r))
]

pub delete-Refers :
    (objects : ℕ → CachedNote) (next : ℕ) (m : Dict ℕ) (id : String)
    → Refers objects next m
    → Refers objects next (Dict.delete m id)
delete-Refers objects next m id h k s e = h k s (ground (arith, Dict.get-delete m id k))

pub set_notes-Refers :
    (objects : ℕ → CachedNote) (next : ℕ) (rs : List ℕ) (m : Dict ℕ)
    → AllExist next rs
    → RenotesExist objects next
    → Distinct m × Refers objects next m
    → Distinct (set_notes objects m rs) × Refers objects next (set_notes objects m rs)
unfolding set_notes
set_notes-Refers objects next [] m a x h = h
set_notes-Refers objects next (r ∷ rs) m a x h =
    let id = id_of objects r in
    let first : Distinct (Dict.put m id r) × Refers objects next (Dict.put m id r) =
      (Dict.put-Distinct m id r h.0, put-Refers objects next m id r refl a.0 h.1) in
    elim (Option-cases (objects r).renote) [
      | inl e ↦ rw (e, set_notes) (set_notes-Refers objects next rs (Dict.put m id r) a.1 x first)
      | inr (s, e) ↦
          let other = id_of objects s in
          rw (e, set_notes)
            (set_notes-Refers objects next rs (Dict.put (Dict.put m id r) other s) a.1 x (
              Dict.put-Distinct (Dict.put m id r) other s first.0,
              put-Refers objects next (Dict.put m id r) other s refl (x r s a.0 e) first.1,
            ))
    ]

-- The same notes, under other renotes.
same_notes-Refers :
    (o p : ℕ → CachedNote) (next : ℕ) (m : Dict ℕ)
    → ((r : ℕ) → (p r).note ≡ (o r).note)
    → Refers o next m
    → Refers p next m
same_notes-Refers o p next m same h k r e =
    let (key, lt) = h k r e in (ap (λ (n : LiveNote). n.id) (same r) ∙ key, lt)

-- A new object changes no old one.
pub write_next-Refers :
    (o : ℕ → CachedNote) (next : ℕ) (m : Dict ℕ) (c : CachedNote)
    → Refers o next m
    → Refers (write o next c) (next + 1) m
write_next-Refers o next m c h k r e =
    let (key, lt) = h k r e in
    let other : nat_eq next r ≡ false = ground (arith, lt) in
    (rw (other, id_of) key, omega (arith, lt))

pub write_next-RenotesExist :
    (o : ℕ → CachedNote) (next : ℕ) (c : CachedNote)
    → ((s : ℕ) → c.renote ≡ some s → s < next)
    → RenotesExist o next
    → RenotesExist (write o next c) (next + 1)
write_next-RenotesExist o next c new h r s lt e = elim (Bool-cases (nat_eq next r)) [
  | inl f ↦ let below = new s (rw f at e) in omega (arith, below)
  | inr f ↦
      let old : r < next = ground (arith, lt) in
      let below = h r s old (rw f at e) in omega (arith, below)
]

latest-get :
    (m : Dict ℕ) (c : CachedNote) (l : ℕ)
    → latest m c ≡ some l
    → (i : String) × (Dict.get m i ≡ some l)
latest-get m c l e = elim (Option-cases (truthy c.renote_id)) [
  | inl f ↦ absurd (ground (arith, rw (f, latest) at e))
  | inr (i, f) ↦ (i, rw (f, latest) at e)
]

latest-lt :
    (o : ℕ → CachedNote) (next : ℕ) (m : Dict ℕ) (c : CachedNote)
    → Refers o next m
    → ((s : ℕ) → c.renote ≡ some s → s < next)
    → (s : ℕ) → (with_latest m c).renote ≡ some s
    → s < next
latest-lt o next m c h old s e = elim (Option-cases (latest m c)) [
  | inl f ↦ old s (rw (f, with_latest) at e)
  | inr (l, f) ↦
      let (i, here) = latest-get m c l f in
      let same : l ≡ s = ground (arith, rw (f, with_latest) at e) in
      subst (λ t. t < next) same (h i l here).1
]

sync_renotes-RenotesExist :
    (o : ℕ → CachedNote) (next : ℕ) (m : Dict ℕ) (rs : List ℕ)
    → Refers o next m
    → RenotesExist o next
    → RenotesExist (sync_renotes m o rs) next
sync_renotes-RenotesExist o next m rs h x r s lt e = elim (Bool-cases (has_ref rs r)) [
  | inl f ↦
      latest-lt o next m (o r) h (λ t. x r t lt) s
        (ap (λ (c : CachedNote). c.renote) (sym (rw f at (sync_renotes_lem m o rs r))) ∙ e)
  | inr f ↦
      x r s lt (ap (λ (c : CachedNote). c.renote) (sym (rw f at (sync_renotes_lem m o rs r))) ∙ e)
]

pub filled-WellFormed :
    (notes : List ℕ) (st : NoteStore)
    → AllExist st.next notes
    → WellFormed st
    → WellFormed (filled notes st)
filled-WellFormed notes st a w =
    let m = set_notes st.objects st.note_map notes in
    let (d, h) =
      set_notes-Refers st.objects st.next notes st.note_map a w.renotes (w.distinct, w.refers) in
    record {
      distinct = d;
      refers =
          same_notes-Refers st.objects (sync_renotes m st.objects notes) st.next m
            (λ r. (note-sync_renotes m st.objects notes r).0) h;
      renotes = sync_renotes-RenotesExist st.objects st.next m notes h w.renotes;
    }

abbrev pub Refers-Keyed :
    (objects : ℕ → CachedNote) (next : ℕ) (m : Dict ℕ)
    → Refers objects next m
    → Keyed (id_of objects) m
Refers-Keyed objects next m h k r e = (h k r e).0

-- What eviction leaves of the map after `put` has filled it.
pub put-Evicted :
    (max : ℕ) (roots : List (List String)) (notes : List ℕ) (skip : Bool) (st : NoteStore)
    → AllExist st.next notes
    → WellFormed st
    → let mid = filled notes st in
      Evicted max
        (live_ids mid.note_map mid.objects roots)
        (age_of mid.objects)
        mid.note_map
        (put max roots notes skip st).note_map
put-Evicted max roots notes skip st a w =
    let mid = filled notes st in
    let good = filled-WellFormed notes st a w in
    let live = live_ids mid.note_map mid.objects roots in
    subst (Evicted max live (age_of mid.objects) mid.note_map)
      (sym ((fields-put max roots notes skip st).0 ∙ note_map-evict_if_needed max roots mid))
      (evict_by_liveness-Evicted mid.note_map max live (age_of mid.objects) (id_of mid.objects)
        good.distinct (Refers-Keyed mid.objects mid.next mid.note_map good.refers))

evict_if_needed-WellFormed :
    (max : ℕ) (roots : List (List String)) (st : NoteStore)
    → WellFormed st
    → WellFormed (evict_if_needed max roots st)
unfolding evict_if_needed
evict_if_needed-WellFormed max roots st w = elim (Bool-cases (leb (length st.note_map) max)) [
  | inl e ↦ rw e w
  | inr e ↦
      let live = live_ids st.note_map st.objects roots in
      let done =
        evict_by_liveness-Evicted st.note_map max live (age_of st.objects) (id_of st.objects)
          w.distinct (Refers-Keyed st.objects st.next st.note_map w.refers) in
      rw e (record {
        distinct =
            evict_by_liveness-Distinct st.note_map max live (age_of st.objects) (id_of st.objects)
              w.distinct;
        refers = λ k r h. w.refers k r (done.kept k r h);
        renotes = w.renotes;
      })
]

pub schedule_trigger-WellFormed :
    (st : NoteStore) → WellFormed st → WellFormed (schedule_trigger st)
schedule_trigger-WellFormed st w = record {
  distinct = w.distinct;
  refers = w.refers;
  renotes = w.renotes;
}

pub put-WellFormed :
    (max : ℕ) (roots : List (List String)) (notes : List ℕ) (skip : Bool) (st : NoteStore)
    → AllExist st.next notes
    → WellFormed st
    → WellFormed (put max roots notes skip st)
unfolding put
put-WellFormed max roots notes skip st a w =
    let good =
      evict_if_needed-WellFormed max roots (filled notes st) (filled-WellFormed notes st a w) in
    elim (Bool-cases skip) [
      | inl e ↦ rw e good
      | inr e ↦
          rw e (schedule_trigger-WellFormed (evict_if_needed max roots (filled notes st)) good)
    ]
