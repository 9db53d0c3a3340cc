-- ===== src/Notes/Updates/Toggle.antt =====
-- The user's own reaction: the counts agree with it, whether or not the server does.
use notedeck.Prelude.{
  ℕ, ◌+◌, ◌-◌, ◌<◌, String, Bool, true, false, Option, none, some, List, [], ◌∷◌, ◌==◌, ◌≡◌, refl,
  ap, arith, eq_iff, if◌then◌else◌, Bool-cases, Option-cases, inl, inr,
}
use notedeck.Prelude.Dict
use notedeck.Prelude.Dict.{Dict}
use notedeck.Notes.Updates.{
  LiveNote, count_of, lower, is_reaction, optimistic, Call, calls, perform, roll_back,
  toggle_reaction,
}
use notedeck.Notes.Updates.Counts.{count_of-add_one}

count_of-lower :
    (m : Dict ℕ) (r k : String)
    → count_of (lower m r) k ≡ (if r == k then count_of m r - 1 else count_of m k)
unfolding lower
count_of-lower m r k = ground (arith, Dict.get-put m r k (count_of m r - 1), Dict.get-delete m r k)

-- 1 for the user's own reaction, and 0 for the others.
abbrev pub own : Option String → String → ℕ
own o k = if is_reaction o k then 1 else 0

-- The user's reaction is counted, and it is no empty text.
abbrev pub Counted : LiveNote → Type 0
Counted n =
    (p : String) → n.my_reaction ≡ some p → (0 < count_of n.reactions p) × ((p == "") ≡ false)

optimistic-counts :
    (n : LiveNote) (r k : String)
    → Counted n
    → count_of (optimistic n r).reactions k + own n.my_reaction k
      ≡ count_of n.reactions k + own (optimistic n r).my_reaction k
unfolding optimistic
optimistic-counts n r k c = elim (Option-cases n.my_reaction) [
  | inl e ↦ rw (e, optimistic) (ground (arith, count_of-add_one n.reactions r k, eq_iff r k))
  | inr (p, e) ↦
      let (here, no_empty) = c p e in
      elim (Bool-cases (p == r)) [
        | inl f ↦
            rw (e, f, optimistic)
              (ground (arith, count_of-lower n.reactions r k, eq_iff p r, eq_iff r k, eq_iff p k))
        | inr f ↦
            rw (e, f, no_empty, optimistic)
              (ground (
                arith,
                count_of-add_one (lower n.reactions p) r k,
                count_of-lower n.reactions p k,
                count_of-lower n.reactions p r,
                eq_iff p r,
                eq_iff r k,
                eq_iff p k,
              ))
      ]
]

perform-all :
    (answers : Call → Bool) (cs : List Call)
    → (perform answers cs).1 ≡ true
    → (perform answers cs).0 ≡ cs
unfolding perform
perform-all answers [] h = refl
perform-all answers (c ∷ cs) h = elim (Bool-cases (answers c)) [
  | inl e ↦ rw e (ap (c ∷◌) (perform-all answers cs (ground arith)))
  | inr e ↦ absurd (ground arith)
]

-- What a toggle comes to: the counts have changed by the user's own reaction alone; an error leaves
-- the note as it was; and without one the calls have all been made and the reaction is the new one.
pub record Toggled (n : LiveNote) (r : String) (t : LiveNote × List Call × Bool) : Type 0 where
  pub counts :
      (k : String)
      → count_of t.0.reactions k + own n.my_reaction k
        ≡ count_of n.reactions k + own t.0.my_reaction k
  pub rolled_back : t.2 ≡ true → t.0 ≡ n
  pub made : t.2 ≡ false → t.1 ≡ calls n r
  pub reaction :
      t.2 ≡ false → t.0.my_reaction ≡ (if is_reaction n.my_reaction r then none else some r)

my_reaction-optimistic :
    (n : LiveNote) (r : String)
    → (optimistic n r).my_reaction ≡ (if is_reaction n.my_reaction r then none else some r)
unfolding optimistic
my_reaction-optimistic n r = elim (Bool-cases (is_reaction n.my_reaction r)) [
  | inl e ↦ rw e refl
  | inr e ↦ rw e refl
]

roll_back-optimistic : (n : LiveNote) (r : String) → roll_back n (optimistic n r) ≡ n
unfolding optimistic
roll_back-optimistic n r = elim (Bool-cases (is_reaction n.my_reaction r)) [
  | inl e ↦ rw e refl
  | inr e ↦ rw e refl
]

-- On a note whose counts include the user's own reaction (no empty text), toggling a reaction,
-- whatever the server answers, changes the counts by the user's own reaction alone; an error leaves
-- the note as it was; and without one all calls were made, and the user's reaction is the new one,
-- or none if it was that one.
pub toggle_reaction-Toggled :
    (answers : Call → Bool) (n : LiveNote) (r : String)
    → Counted n
    → Toggled n r (toggle_reaction answers n r)
unfolding toggle_reaction
toggle_reaction-Toggled answers n r c = elim (Bool-cases (perform answers (calls n r)).1) [
  | inl e ↦
      rw (e, toggle_reaction)
        (record {
          counts = λ k. optimistic-counts n r k c;
          rolled_back = λ h. absurd (ground arith);
          made = λ h. perform-all answers (calls n r) e;
          reaction = λ h. my_reaction-optimistic n r;
        })
  | inr e ↦
      rw (e, toggle_reaction)
        (record {
          counts = λ k. refl;
          rolled_back = λ h. roll_back-optimistic n r;
          made = λ h. absurd (ground arith);
          reaction = λ h. absurd (ground arith);
        })
]
