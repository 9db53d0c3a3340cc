-- ===== src/Notes/Updates/Counts.antt =====
-- The counts of reactions under the events of the stream, and the events that come twice.
use notedeck.Prelude.{
  ℕ, zero, suc, ◌+◌, ◌-◌, String, true, false, ◌||◌, Option, none, some, ◌==◌, ◌≡◌, ◌≢◌, refl, sym,
  ap, ◌∙◌, arith, eq_iff, eq_refl, leb, or_else, if◌then◌else◌, Bool-cases, Option-cases,
  String-cases, inl, inr,
}
use notedeck.Prelude.Dict
use notedeck.Prelude.Dict.{Dict}
use notedeck.Notes.Updates.{
  LiveNote, NoteUpdateEvent, Emoji, reacted, unreacted, poll_voted, deleted, same_user, count_of,
  add_one, take_one, merge_note_update, should_apply, expire,
}

-- No reaction is kept with the count 0.
abbrev pub NoZero : Dict ℕ → Type 0
NoZero m = (k : String) → Dict.get m k ≢ some 0

pub get-add_one :
    (m : Dict ℕ) (r k : String)
    → Dict.get (add_one m r) k ≡ (if r == k then some (count_of m r + 1) else Dict.get m k)
unfolding add_one
get-add_one m r k = Dict.get-put m r k (count_of m r + 1)

pub get-take_one :
    (m : Dict ℕ) (r k : String)
    → Dict.get (take_one m r) k ≡ (
        if r == k
        then if leb (count_of m r - 1) 0 then none else some (count_of m r - 1)
        else Dict.get m k)
unfolding take_one
get-take_one m r k = ground (arith, Dict.get-put m r k (count_of m r - 1), Dict.get-delete m r k)

pub count_of-add_one :
    (m : Dict ℕ) (r k : String)
    → count_of (add_one m r) k ≡ (if r == k then count_of m r + 1 else count_of m k)
count_of-add_one m r k = ground (arith, get-add_one m r k)

pub add_one-NoZero : (m : Dict ℕ) (r : String) → NoZero m → NoZero (add_one m r)
add_one-NoZero m r z k h = elim (Bool-cases (r == k)) [
  | inl e ↦
      let got : some 0 ≡ some (count_of m r + 1) = sym h ∙ (get-add_one m r k ∙ rw e refl) in
      let v : 0 ≡ count_of m r + 1 = ap (λ (o : Option ℕ). or_else o 1) got in
      absurd (omega (arith, v))
  | inr e ↦ z k (ground (arith, get-add_one m r k))
]

one_less_again :
    (o : Option ℕ)
    → o ≢ some 0
    → (if leb (or_else o 0 + 1 - 1) 0 then none else some (or_else o 0 + 1 - 1)) ≡ o
one_less_again none z = refl
one_less_again (some zero) z = absurd (z refl)
one_less_again (some (suc c)) z = ground arith

take_one-add_one :
    (m : Dict ℕ) (r k : String) → NoZero m → Dict.get (take_one (add_one m r) r) k ≡ Dict.get m k
take_one-add_one m r k z = get-take_one (add_one m r) r k ∙ elim (String-cases r k) [
  | inl (p, e) ↦
      rw (e, count_of-add_one m r r, eq_refl r)
        (one_less_again (Dict.get m r) (z r) ∙ ap (λ (j : String). Dict.get m j) p)
  | inr (p, e) ↦ rw (e, get-add_one m r k, e) refl
]

pub take_one-NoZero : (m : Dict ℕ) (r : String) → NoZero m → NoZero (take_one m r)
take_one-NoZero m r z k h = elim (Bool-cases (r == k)) [
  | inr e ↦ z k (ground (arith, get-take_one m r k))
  | inl e ↦ elim (Bool-cases (leb (count_of m r - 1) 0)) [
    | inl f ↦ absurd (ground (arith, get-take_one m r k))
    | inr f ↦
        let got : some 0 ≡ some (count_of m r - 1) =
          sym h ∙ (get-take_one m r k ∙ rw (e, f) refl) in
        let v : 0 ≡ count_of m r - 1 = ap (λ (o : Option ℕ). or_else o 1) got in
        absurd (ground (arith, v))
  ]
]

abbrev reactions_or : Dict ℕ → Option LiveNote → Dict ℕ
reactions_or m none = m
reactions_or m (some n) = n.reactions

-- What an event makes of the counts.
unfoldable pub counts_after : Dict ℕ → NoteUpdateEvent → Dict ℕ
counts_after m (reacted (some r) user emoji) = add_one m r
counts_after m (unreacted (some r) user) = take_one m r
counts_after m _ = m

counts_after-NoZero : (m : Dict ℕ) (ev : NoteUpdateEvent) → NoZero m → NoZero (counts_after m ev)
unfolding counts_after
counts_after-NoZero m (reacted none user emoji) z = z
counts_after-NoZero m (reacted (some r) user emoji) z = add_one-NoZero m r z
counts_after-NoZero m (unreacted none user) z = z
counts_after-NoZero m (unreacted (some r) user) z = take_one-NoZero m r z
counts_after-NoZero m (poll_voted i user) z = z
counts_after-NoZero m deleted z = z

counts-merge :
    (n n' : LiveNote) (ev : NoteUpdateEvent) (me : Option String)
    → merge_note_update n ev me ≡ some n'
    → n'.reactions ≡ counts_after n.reactions ev
unfolding merge_note_update counts_after
counts-merge n n' (reacted none user emoji) me h = cc
counts-merge n n' (reacted (some r) user emoji) me h =
    elim (Bool-cases (r == "" || same_user user me)) [
      | inl e ↦ absurd (ground arith)
      | inr e ↦ sym (ap (reactions_or n.reactions) (rw (e, merge_note_update) at h))
    ]
counts-merge n n' (unreacted none user) me h = cc
counts-merge n n' (unreacted (some r) user) me h =
    elim (Bool-cases (r == "" || same_user user me)) [
      | inl e ↦ absurd (ground arith)
      | inr e ↦ sym (ap (reactions_or n.reactions) (rw (e, merge_note_update) at h))
    ]
counts-merge n n' (poll_voted none user) me h = cc
counts-merge n n' (poll_voted (some i) user) me h = elim (Option-cases n.poll) [
  | inl e ↦ absurd (ground arith)
  | inr (cs, e) ↦ sym (ap (reactions_or n.reactions) (rw (e, merge_note_update) at h))
]
counts-merge n n' deleted me h = cc

-- An event of the stream that is applied leaves no reaction with the count 0, if there was none.
pub merge_note_update-NoZero :
    (n n' : LiveNote) (ev : NoteUpdateEvent) (me : Option String)
    → NoZero n.reactions
    → merge_note_update n ev me ≡ some n'
    → NoZero n'.reactions
merge_note_update-NoZero n n' ev me z h =
    rw (counts-merge n n' ev me h) (counts_after-NoZero n.reactions ev z)

-- A reaction of someone else that is added and taken away again leaves every count as it was, if no
-- reaction had the count 0.
pub unreacted-reacted :
    (n n' n'' : LiveNote) (r : String) (user : Option String) (emoji : Option Emoji)
    (me : Option String) (k : String)
    → NoZero n.reactions
    → merge_note_update n (reacted (some r) user emoji) me ≡ some n'
    → merge_note_update n' (unreacted (some r) user) me ≡ some n''
    → Dict.get n''.reactions k ≡ Dict.get n.reactions k
unfolding counts_after
unreacted-reacted n n' n'' r user emoji me k z h h' =
    let added = counts-merge n n' (reacted (some r) user emoji) me h in
    let taken = counts-merge n' n'' (unreacted (some r) user) me h' in
    rw (taken, added) (take_one-add_one n.reactions r k z)

get-should_apply :
    (m : Dict String) (id sig j : String)
    → Dict.get (should_apply m id sig).1 j ≡ (if id == j then some sig else Dict.get m j)
unfolding should_apply
get-should_apply m id sig j = elim (Option-cases (Dict.get m id)) [
  | inl e ↦ rw (e, should_apply) (Dict.get-put m id j sig)
  | inr (s, e) ↦ elim (String-cases s sig) [
    | inr (p, f) ↦ rw (e, f, should_apply) (Dict.get-put m id j sig)
    | inl (p, f) ↦ rw (e, f, should_apply) (ground (arith, eq_iff id j))
  ]
]

should_apply_seen :
    (m : Dict String) (id sig : String)
    → Dict.get m id ≡ some sig
    → (should_apply m id sig).0 ≡ false
unfolding should_apply
should_apply_seen m id sig h = rw (h, eq_refl sig, should_apply) refl

should_apply_new :
    (m : Dict String) (id sig : String) → Dict.get m id ≡ none → (should_apply m id sig).0 ≡ true
unfolding should_apply
should_apply_new m id sig h = rw (h, should_apply) refl

-- An event that comes a second time within the window is not applied, after the window it is; and
-- only the signature of its own note is changed.
pub should_apply_once :
    (sigs : Dict String) (id sig other_id : String)
    → let after = (should_apply sigs id sig).1 in
      ((should_apply after id sig).0 ≡ false)
      × ((should_apply (expire after id) id sig).0 ≡ true)
      × (Dict.get after other_id ≡ (if id == other_id then some sig else Dict.get sigs other_id))
unfolding expire
should_apply_once sigs id sig other_id =
    let after = (should_apply sigs id sig).1 in
    let kept : Dict.get after id ≡ some sig =
      get-should_apply sigs id sig id ∙ rw (eq_refl id) refl in
    let gone : Dict.get (Dict.delete after id) id ≡ none =
      Dict.get-delete after id id ∙ rw (eq_refl id) refl in
    (
      should_apply_seen after id sig kept,
      should_apply_new (expire after id) id sig gone,
      get-should_apply sigs id sig other_id,
    )
