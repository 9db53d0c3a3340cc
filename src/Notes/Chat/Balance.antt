-- ===== src/Notes/Chat/Balance.antt =====
-- The reactions of a message, counted by user and kind.
use notedeck.Prelude.{
  ℕ, suc, ◌+◌, String, Bool, true, ◌&&◌, Option, none, some, List, [], ◌∷◌, ◌++◌, find_index,
  erase_idx, or_else, ◌==◌, ◌≡◌, refl, ap, subst, arith, eq_iff, if◌then◌else◌, Bool-cases,
  Option-cases, inl, inr,
}
use notedeck.Notes.Updates.{same_user}
use notedeck.Notes.Chat.{
  ChatReaction, ChatMessage, ChatMessageUpdateEvent, reacted, unreacted, deleted, user_id, is_by,
  merge_chat_update,
}

abbrev one : Bool → ℕ
one b = if b then 1 else 0

abbrev pub count_by : Option String → String → List ChatReaction → ℕ
count_by u r [] = 0
count_by u r (x ∷ xs) = one (is_by u r x) + count_by u r xs

abbrev pub reactions_of : ChatMessage → List ChatReaction
reactions_of msg = or_else msg.reactions []

count_by-append :
    (u : Option String) (r : String) (xs ys : List ChatReaction)
    → count_by u r (xs ++ ys) ≡ count_by u r xs + count_by u r ys
count_by-append u r [] ys = omega arith
count_by-append u r (x ∷ xs) ys = omega (arith, count_by-append u r xs ys)

-- The same user, or none, and the same reaction.
abbrev pub same_key : Option String → String → Option String → String → Bool
same_key u r v s = r == s && same_user u v

same_user-eq : (u v : Option String) → same_user u v ≡ true → u ≡ v
same_user-eq none none h = refl
same_user-eq (some a) (some b) h = ap (λ s. some s) ((eq_iff a b).0 h)
same_user-eq none (some b) h = absurd (ground (arith, h))
same_user-eq (some a) none h = absurd (ground (arith, h))

is_by-same_key :
    (u v : Option String) (r s : String) (x : ChatReaction)
    → is_by u r x ≡ true
    → is_by v s x ≡ same_key u r v s
is_by-same_key u v r s x h =
    let kind : x.reaction ≡ r = (eq_iff x.reaction r).0 (ground (arith, h)) in
    let user : user_id x ≡ u = same_user-eq (user_id x) u (ground (arith, h)) in
    rw (kind, user) refl

count_by-erase_idx :
    (u v : Option String) (r s : String) (xs : List ChatReaction) (i : ℕ)
    → find_index (is_by u r) xs ≡ some i
    → count_by v s (erase_idx xs i) + one (same_key u r v s) ≡ count_by v s xs
count_by-erase_idx u v r s [] i h = absurd (ground arith)
count_by-erase_idx u v r s (x ∷ xs) i h = elim (Bool-cases (is_by u r x)) [
  | inl e ↦
      let zeroth : 0 ≡ i = ground (arith, rw (e, find_index) at h) in
      subst
        (λ j. count_by v s (erase_idx (x ∷ xs) j) + one (same_key u r v s) ≡ count_by v s (x ∷ xs))
        zeroth (omega (arith, ap one (is_by-same_key u v r s x e)))
  | inr e ↦ elim (Option-cases (find_index (is_by u r) xs)) [
    | inl f ↦ absurd (ground (arith, rw (e, f, find_index) at h))
    | inr (j, f) ↦
        let next : suc j ≡ i = ground (arith, rw (e, f, find_index) at h) in
        subst
          (λ k.
            count_by v s (erase_idx (x ∷ xs) k) + one (same_key u r v s) ≡ count_by v s (x ∷ xs))
          next (omega (arith, count_by-erase_idx u v r s xs j f))
  ]
]

-- What an event adds to the count, and what it takes away.
abbrev pub added : ChatMessageUpdateEvent → Option String → String → ℕ
added (reacted m u r c) v s = one (is_by v s (record { user = c; reaction = r }))
added (unreacted m u r c) v s = 0
added (deleted m) v s = 0

abbrev pub taken : ChatMessageUpdateEvent → Option String → String → ℕ
taken (reacted m u r c) v s = 0
taken (unreacted m u r c) v s = one (same_key u r v s)
taken (deleted m) v s = 0

-- An event that is applied to a message of a chat changes the count of each reaction of each user by
-- what the event says: a reaction of the reactor more, or one of the user less.
pub merge_chat_update-counts :
    (msg msg' : ChatMessage) (e : ChatMessageUpdateEvent) (v : Option String) (s : String)
    → merge_chat_update msg e ≡ some msg'
    → count_by v s (reactions_of msg') + taken e v s ≡ count_by v s (reactions_of msg) + added e v s
unfolding merge_chat_update
merge_chat_update-counts msg msg' (reacted m u r c) v s h =
    let this : or_else msg.reactions [] ++ (record { user = c; reaction = r } ∷ [])
        ≡ reactions_of msg' =
      ap (λ (o : Option ChatMessage). reactions_of (or_else o msg)) h in
    let now = ap (count_by v s) this in
    omega
      (arith, now, count_by-append v s (reactions_of msg) (record { user = c; reaction = r } ∷ []))
merge_chat_update-counts msg msg' (unreacted m u r c) v s h = elim (Option-cases msg.reactions) [
  | inl e ↦ absurd (ground (arith, rw (e, merge_chat_update) at h))
  | inr (rs, e) ↦ elim (Option-cases (find_index (is_by u r) rs)) [
    | inl f ↦ absurd (ground (arith, rw (e, f, merge_chat_update) at h))
    | inr (i, f) ↦
        let this : erase_idx rs i ≡ reactions_of msg' =
          ap (λ (o : Option ChatMessage). reactions_of (or_else o msg))
            (rw (e, f, merge_chat_update) at h) in
        let before : reactions_of msg ≡ rs = rw e refl in
        let now = ap (count_by v s) this in
        let then' = ap (count_by v s) before in
        omega (arith, now, then', count_by-erase_idx u v r s rs i f)
  ]
]
merge_chat_update-counts msg msg' (deleted m) v s h = absurd (ground (arith, h))
