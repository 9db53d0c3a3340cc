-- ===== src/Threads/Climb.antt =====
-- The ancestors: the climb comes to its end, and visits nobody twice.
use notedeck.Prelude.{
  ℕ, zero, suc, ◌≤◌, String, true, false, some, List, [], ◌∷◌, length, includes, truthy, without,
  NoRepeat, is_some, includes-without, length-without-lt, ◌≡◌, refl, subst, ap, ◌∙◌, arith, eq_iff,
  Bool-cases, Option-cases, inl, inr,
}
use notedeck.Prelude.Dict
use notedeck.Prelude.Dict.{Dict}
use notedeck.Threads.{MergedThreadNode, next, climb}

-- The keys that are left cover the nodes that are not visited.
abbrev pub Covers : Dict MergedThreadNode → List String → List String → Type 0
Covers nodes visited keys =
    (x : String)
    → is_some (Dict.get nodes x) ≡ true
    → includes visited x ≡ false
    → includes keys x ≡ true

next-some :
    (nodes : Dict MergedThreadNode) (child_of : Dict String) (uri : String) (visited : List String)
    (p : String)
    → next nodes child_of uri visited ≡ some p
    → (includes visited p ≡ false)
      × (is_some (Dict.get nodes p) ≡ true)
      × (truthy (Dict.get child_of uri) ≡ some p)
next-some nodes child_of uri visited p h = elim (Option-cases (truthy (Dict.get child_of uri))) [
  | inl e ↦ absurd (ground (arith, rw (e, next) at h))
  | inr (q, e) ↦ elim (Bool-cases (includes visited q)) [
    | inl f ↦ absurd (ground (arith, rw (e, f, next) at h))
    | inr f ↦ elim (Bool-cases (is_some (Dict.get nodes q))) [
      | inl g ↦
          let same : q ≡ p = ground (arith, rw (e, f, g, next) at h) in
          subst
            (λ r.
              (includes visited r ≡ false)
              × (is_some (Dict.get nodes r) ≡ true)
              × (truthy (Dict.get child_of uri) ≡ some r))
            same (f, g, e)
      | inr g ↦ absurd (ground (arith, rw (e, f, g, next) at h))
    ]
  ]
]

cover_next :
    (nodes : Dict MergedThreadNode) (visited keys : List String) (p : String)
    → Covers nodes visited keys
    → Covers nodes (p ∷ visited) (without p keys)
cover_next nodes visited keys p c x here new =
    ground (arith, c x here (ground arith), includes-without keys p x, eq_iff p x)

-- Whatever the rounds above the keys that are left, the climb is the same.
climb-enough :
    (n m : ℕ) (nodes : Dict MergedThreadNode) (child_of : Dict String) (uri : String)
    (visited ancestors keys : List String)
    → Covers nodes visited keys
    → length keys ≤ n
    → length keys ≤ m
    → climb n nodes child_of uri visited ancestors ≡ climb m nodes child_of uri visited ancestors
unfolding climb
climb-enough zero zero nodes child_of uri visited ancestors keys c le le' = refl
climb-enough zero (suc m) nodes child_of uri visited ancestors keys c le le' =
    elim (Option-cases (next nodes child_of uri visited)) [
      | inl e ↦ rw (e, climb) refl
      | inr (p, e) ↦
          let (new, here, up) = next-some nodes child_of uri visited p e in
          absurd (omega (arith, length-without-lt p keys (c p here new), le))
    ]
climb-enough (suc n) zero nodes child_of uri visited ancestors keys c le le' =
    elim (Option-cases (next nodes child_of uri visited)) [
      | inl e ↦ rw (e, climb) refl
      | inr (p, e) ↦
          let (new, here, up) = next-some nodes child_of uri visited p e in
          absurd (omega (arith, length-without-lt p keys (c p here new), le'))
    ]
climb-enough (suc n) (suc m) nodes child_of uri visited ancestors keys c le le' =
    elim (Option-cases (next nodes child_of uri visited)) [
      | inl e ↦ rw (e, climb) refl
      | inr (p, e) ↦
          let (new, here, up) = next-some nodes child_of uri visited p e in
          let shorter = length-without-lt p keys (c p here new) in
          rw (e, climb)
            (climb-enough n m nodes child_of p (p ∷ visited) (p ∷ ancestors) (without p keys)
              (cover_next nodes visited keys p c) (omega (arith, le, shorter))
              (omega (arith, le', shorter)))
    ]

-- Each URI is the parent of the one behind it, and the last is the parent of `uri`.
abbrev pub Chain : Dict String → List String → String → Type 0
Chain child_of [] uri = Unit
Chain child_of (u ∷ []) uri = truthy (Dict.get child_of uri) ≡ some u
Chain child_of (u ∷ v ∷ us) uri =
    (truthy (Dict.get child_of v) ≡ some u) × Chain child_of (v ∷ us) uri

abbrev pub AllNodes : Dict MergedThreadNode → List String → Type 0
AllNodes nodes [] = Unit
AllNodes nodes (u ∷ us) = (is_some (Dict.get nodes u) ≡ true) × AllNodes nodes us

-- What a climb from `uri` gives.
pub record Climbed (nodes : Dict MergedThreadNode) (child_of : Dict String) (uri : String)
    (ancestors : List String) : Type 0 where
  pub once : NoRepeat ancestors
  pub chain : Chain child_of ancestors uri
  pub all_nodes : AllNodes nodes ancestors

abbrev head_or : List String → String → String
head_or [] start = start
head_or (u ∷ us) start = u

-- The end of the chain so far, at the next parent.
add-Chain :
    (child_of : Dict String) (us : List String) (p here start : String)
    → Chain child_of us start
    → head_or us start ≡ here
    → truthy (Dict.get child_of here) ≡ some p
    → Chain child_of (p ∷ us) start
add-Chain child_of [] p here start c h up = (ap (λ k. truthy (Dict.get child_of k)) h) ∙ up
add-Chain child_of (u ∷ us) p here start c h up =
    ((ap (λ k. truthy (Dict.get child_of k)) h) ∙ up, c)

climb-Climbed :
    (n : ℕ) (nodes : Dict MergedThreadNode) (child_of : Dict String) (start uri : String)
    (ancestors : List String)
    → head_or ancestors start ≡ uri
    → Climbed nodes child_of start ancestors
    → Climbed nodes child_of start (climb n nodes child_of uri ancestors ancestors)
unfolding climb
climb-Climbed zero nodes child_of start uri ancestors h c = c
climb-Climbed (suc n) nodes child_of start uri ancestors h c =
    elim (Option-cases (next nodes child_of uri ancestors)) [
      | inl e ↦ rw (e, climb) c
      | inr (p, e) ↦
          let (new, here, up) = next-some nodes child_of uri ancestors p e in
          rw (e, climb)
            (climb-Climbed n nodes child_of start p (p ∷ ancestors) refl (record {
              once = (new, c.once);
              chain = add-Chain child_of ancestors p uri start c.chain h up;
              all_nodes = (here, c.all_nodes);
            }))
    ]

-- In any thread, cycles of replies included, the climb from any URI ends by itself within as many
-- rounds as there are nodes: more change nothing. It gives nodes, none twice, each the parent of the
-- one behind it, the last the parent of the start.
pub climb-ends :
    (n : ℕ) (nodes : Dict MergedThreadNode) (child_of : Dict String) (uri : String)
    → length nodes ≤ n
    → (climb n nodes child_of uri [] [] ≡ climb (length nodes) nodes child_of uri [] [])
      × Climbed nodes child_of uri (climb (length nodes) nodes child_of uri [] [])
climb-ends n nodes child_of uri le = (
  climb-enough n (length nodes) nodes child_of uri [] [] (Dict.keys_of nodes)
      (λ x here new. Dict.includes-keys_of nodes x ∙ here)
      (omega (arith, le, Dict.length-keys_of nodes)) (omega (arith, Dict.length-keys_of nodes)),
  climb-Climbed (length nodes) nodes child_of uri uri [] refl
      (record { once = tt; chain = tt; all_nodes = tt }),
)
