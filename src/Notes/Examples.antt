-- ===== src/Notes/Examples.antt =====
-- The theorems on sorted notes at short lists.
use notedeck.Prelude.{
  ℕ, ◌+◌, ◌<◌, String, Bool, true, false, Option, none, some, or_else, List, [], ◌∷◌, ◌≡◌, ◌≢◌,
  refl, ap, subst, ◌==◌, arith, if◌then◌else◌,
}
use notedeck.Prelude.Dict
use notedeck.Notes.Updates.{LiveNote, Call, toggle_reaction}
use notedeck.Notes.Updates.Counts.{NoZero}
use notedeck.Notes.Updates.Toggle.{Counted, Toggled, toggle_reaction-Toggled}
use notedeck.Notes.Chat
use notedeck.Notes.Chat.{ChatUser, ChatReaction, ChatMessage, merge_chat_update}
use notedeck.Notes.Chat.Balance.{count_by, reactions_of, merge_chat_update-counts}
use notedeck.Notes.Sorted.{Note, merge_sorted_notes, insert_into_sorted}
use notedeck.Notes.Sorted.Order.{Descending}
use notedeck.Notes.Sorted.Contents.{count_id, count_id-merge_sorted_notes, first_with, NotNewer}
use notedeck.Notes.Sorted.Insertion.{insert_into_sorted-Descending}

abbrev note : String → ℕ → String → Note
note id t body = record { id = id; created_at = t; body = body }

abbrev fresh_notes : List Note
fresh_notes = note "c" 3 "new" ∷ note "a" 1 "new" ∷ []

abbrev old_notes : List Note
old_notes = note "b" 2 "old" ∷ note "a" 1 "old" ∷ []

fresh_notes-Descending : Descending fresh_notes
fresh_notes-Descending = ((omega arith, tt), (tt, tt))

old_notes-Descending : Descending old_notes
old_notes-Descending = ((omega arith, tt), (tt, tt))

count_id-merge_sorted_notes_example : count_id "a" (merge_sorted_notes fresh_notes old_notes) ≡ 1
count_id-merge_sorted_notes_example = count_id-merge_sorted_notes "a" fresh_notes old_notes

abbrev time : Option Note → ℕ
time none = 0
time (some n) = n.created_at

a_NotNewer : NotNewer "a" fresh_notes old_notes
unfolding first_with
a_NotNewer x y hx hy =
    let tx : 1 ≡ x.created_at = ap time hx in
    let ty : 1 ≡ y.created_at = ap time hy in omega (arith, tx, ty)

insert_into_sorted-Descending_example :
    Descending (insert_into_sorted old_notes (note "d" 4 "new" ∷ note "e" 5 "new" ∷ []))
insert_into_sorted-Descending_example =
    insert_into_sorted-Descending old_notes (note "d" 4 "new" ∷ note "e" 5 "new" ∷ [])
      old_notes-Descending

-- A note with one reaction, of the user.
abbrev liked : LiveNote
liked = record {
  id = "n1";
  reactions = ("like", 1) ∷ [];
  reaction_emojis = [];
  my_reaction = some "like";
  poll = none;
}

abbrev loved : LiveNote
loved = record liked { reactions = ("like", 1) ∷ ("love", 1) ∷ [] }

abbrev one_or_none : Bool → Option ℕ
one_or_none b = if b then some 1 else none

get_liked : (b : Bool) → one_or_none b ≢ some 0
get_liked true h = absurd (omega (arith, ap (λ (o : Option ℕ). or_else o 1) h))
get_liked false h = absurd (omega (arith, ap (λ (o : Option ℕ). or_else o 1) h))

liked-NoZero : NoZero liked.reactions
unfolding Dict.get
liked-NoZero k h = get_liked ("like" == k) h

liked-Counted : Counted liked
unfolding Dict.get
liked-Counted p h =
    let like : String = "like" in
    let same : like ≡ p = ap (λ (o : Option String). or_else o "") h in
    subst (λ (q : String). (0 < or_else (Dict.get liked.reactions q) 0) × ((q == "") ≡ false)) same
      (omega arith, refl)

abbrev refuses_all : Call → Bool
refuses_all c = false

toggle_reaction-Toggled_example : Toggled liked "love" (toggle_reaction refuses_all liked "love")
toggle_reaction-Toggled_example = toggle_reaction-Toggled refuses_all liked "love" liked-Counted

-- A message that one user has liked twice, as it came from two paths.
abbrev chatter : ChatUser
chatter = record { id = "u1"; username = "u"; name = none; host = none; avatar_url = none }

abbrev chat_like : ChatReaction
chat_like = record { user = some chatter; reaction = "like" }

abbrev liked_twice : ChatMessage
liked_twice = record { body = "hi"; reactions = some (chat_like ∷ chat_like ∷ []) }

abbrev liked_once : ChatMessage
liked_once = record { body = "hi"; reactions = some (chat_like ∷ []) }

merge_chat_update-counts_example :
    count_by (some "u1") "like" (reactions_of liked_once) + 1
    ≡ count_by (some "u1") "like" (reactions_of liked_twice) + 0
unfolding merge_chat_update
merge_chat_update-counts_example =
    merge_chat_update-counts liked_twice liked_once (Chat.unreacted "m1" (some "u1") "like" none)
      (some "u1") "like" refl
