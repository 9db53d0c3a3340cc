-- ===== src/Notes/Updates.antt =====
-- services/streamUpdateMerge.ts, for notes, and utils/toggleReaction.ts: what events of the stream and
-- the user's own reactions do to a note.
pub mod Counts
pub mod Toggle
use Prim.Native.String.{◌++◌ as str_append}
use notedeck.Prelude.{
  ℕ, zero, suc, ◌+◌, ◌-◌, String, Bool, true, false, not, ◌&&◌, ◌||◌, Option, none, some, List, [],
  ◌∷◌, ◌==◌, leb, ltb, or_else, is_some, if◌then◌else◌,
}
use notedeck.Prelude.Dict
use notedeck.Prelude.Dict.{Dict}

pub record Choice : Type 0 where
  pub text : String
  pub votes : ℕ
  pub is_voted : Bool

-- The fields of a note that the updates read and write.
pub record LiveNote : Type 0 where
  pub id : String
  pub reactions : Dict ℕ
  pub reaction_emojis : Dict String
  pub my_reaction : Option String
  pub poll : Option (List Choice)

-- The field `emoji` of an event: a URL, or an object with one.
pub data Emoji : Type 0 where
  text object : String → Emoji

-- An absent field is `none`. In `reacted` and `unreacted`: the reaction and the user.
pub data NoteUpdateEvent : Type 0 where
  reacted : Option String → Option String → Option Emoji → NoteUpdateEvent
  unreacted : Option String → Option String → NoteUpdateEvent
  poll_voted : Option ℕ → Option String → NoteUpdateEvent
  deleted : NoteUpdateEvent

-- `event.body.userId === myUserId`
abbrev pub same_user : Option String → Option String → Bool
same_user none none = true
same_user (some a) (some b) = a == b
same_user _ _ = false

abbrev pub count_of : Dict ℕ → String → ℕ
count_of m r = or_else (Dict.get m r) 0

unfoldable pub add_one : Dict ℕ → String → Dict ℕ
add_one m r = Dict.put m r (count_of m r + 1)

-- One less, without the entry if none is left.
unfoldable pub take_one : Dict ℕ → String → Dict ℕ
take_one m r = if leb (count_of m r - 1) 0 then Dict.delete m r else Dict.put m r (count_of m r - 1)

abbrev ends_in_colon : String → Bool
ends_in_colon String.[] = false
ends_in_colon (String.◌∷◌ c String.[]) = String.◌∷◌ c String.[] == ":"
ends_in_colon (String.◌∷◌ c (String.◌∷◌ d s)) = ends_in_colon (String.◌∷◌ d s)

abbrev drop_last : String → String
drop_last String.[] = String.[]
drop_last (String.◌∷◌ c String.[]) = String.[]
drop_last (String.◌∷◌ c (String.◌∷◌ d s)) = String.◌∷◌ c (drop_last (String.◌∷◌ d s))

abbrev drop_first : String → String
drop_first String.[] = String.[]
drop_first (String.◌∷◌ c s) = s

abbrev starts_with_colon : String → Bool
starts_with_colon String.[] = false
starts_with_colon (String.◌∷◌ c s) = String.◌∷◌ c String.[] == ":"

unfoldable pub shortcode : String → String
shortcode r = if starts_with_colon r && ends_in_colon r then drop_last (drop_first r) else r

unfoldable pub with_emoji : Dict String → String → Option Emoji → Dict String
unfolding shortcode
with_emoji m r none = m
with_emoji m r (some (text url)) = if url == "" then m else Dict.put m (shortcode r) url
with_emoji m r (some (object url)) = Dict.put m (shortcode r) url

abbrev vote : Bool → Choice → Choice
vote mine c = record c { votes = c.votes + 1; is_voted = mine || c.is_voted }

-- An index out of range changes nothing.
unfoldable pub vote_at : List Choice → ℕ → Bool → List Choice
vote_at [] i mine = []
vote_at (c ∷ cs) zero mine = vote mine c ∷ cs
vote_at (c ∷ cs) (suc i) mine = c ∷ vote_at cs i mine

-- `!!myUserId && event.body.userId === myUserId`
abbrev is_mine : Option String → Option String → Bool
is_mine user none = false
is_mine user (some me) = if me == "" then false else same_user user (some me)

-- `none` is `null`: there is nothing to apply.
unfoldable pub merge_note_update : LiveNote → NoteUpdateEvent → Option String → Option LiveNote
unfolding add_one take_one with_emoji vote_at
merge_note_update n (reacted none user emoji) me = none
merge_note_update n (reacted (some r) user emoji) me =
    if r == "" || same_user user me
    then none
    else some (record n {
      reactions = add_one n.reactions r;
      reaction_emojis = with_emoji n.reaction_emojis r emoji;
    })
merge_note_update n (unreacted none user) me = none
merge_note_update n (unreacted (some r) user) me =
    if r == "" || same_user user me
    then none
    else some (record n { reactions = take_one n.reactions r })
merge_note_update n (poll_voted none user) me = none
merge_note_update n (poll_voted (some i) user) me = elim n.poll [
  | none ↦ none
  | some cs ↦ some (record n { poll = some (vote_at cs i (is_mine user me)) })
]
merge_note_update n deleted me = none

-- The texts of the type, the user, the reaction and the choice, one behind the other; `decimal` writes a
-- number.
unfoldable pub note_update_sig : (ℕ → String) → NoteUpdateEvent → String
note_update_sig decimal (reacted r u e) =
    str_append "reacted" (str_append (or_else u "") (or_else r ""))
note_update_sig decimal (unreacted r u) =
    str_append "unreacted" (str_append (or_else u "") (or_else r ""))
note_update_sig decimal (poll_voted c u) =
    str_append "pollVoted" (str_append (or_else u "") (elim c [ none ↦ "" | some i ↦ decimal i ]))
note_update_sig decimal deleted = "deleted"

-- `none` is no signature yet. The timer that ends the window of an
-- id is `expire`.
unfoldable pub should_apply : Dict String → String → String → Bool × Dict String
should_apply sigs id sig = elim (Dict.get sigs id) [
  | some s ↦ if s == sig then (false, sigs) else (true, Dict.put sigs id sig)
  | none ↦ (true, Dict.put sigs id sig)
]

unfoldable pub expire : Dict String → String → Dict String
expire = Dict.delete

-- The calls of `ReactionApi`; the answer `false` is an error that is thrown.
pub data Call : Type 0 where
  delete_reaction : String → Call
  create_reaction : String → String → Call

-- `if ((reactions[r] ?? 0) > 1) reactions[r] = … - 1 else delete reactions[r]`
unfoldable pub lower : Dict ℕ → String → Dict ℕ
lower m r = if ltb 1 (count_of m r) then Dict.put m r (count_of m r - 1) else Dict.delete m r

abbrev pub is_reaction : Option String → String → Bool
is_reaction none r = false
is_reaction (some p) r = p == r

-- `if (prevReaction)`: an empty text is none.
abbrev pub previous : LiveNote → Option String
previous n = elim n.my_reaction [ none ↦ none | some p ↦ if p == "" then none else some p ]

abbrev pub lower_previous : Dict ℕ → Option String → Dict ℕ
lower_previous m none = m
lower_previous m (some p) = lower m p

-- The note as the user sees it before the server answers.
unfoldable pub optimistic : LiveNote → String → LiveNote
unfolding lower add_one
optimistic n r =
    if is_reaction n.my_reaction r
    then record n { reactions = lower n.reactions r; my_reaction = none }
    else record n {
      reactions = add_one (lower_previous n.reactions (previous n)) r;
      my_reaction = some r;
    }

abbrev pub calls : LiveNote → String → List Call
calls n r = if is_reaction n.my_reaction r then delete_reaction n.id ∷ [] else elim (previous n) [
  | none ↦ create_reaction n.id r ∷ []
  | some p ↦ delete_reaction n.id ∷ create_reaction n.id r ∷ []
]

-- The calls in their order, up to the first that fails: those made, and whether all succeeded.
unfoldable pub perform : (Call → Bool) → List Call → List Call × Bool
perform answers [] = ([], true)
perform answers (c ∷ cs) =
    let rest = perform answers cs in if answers c then (c ∷ rest.0, rest.1) else (c ∷ [], false)

-- The note afterwards, the calls made, and whether the error of one is thrown on.
-- The catch block: what was remembered of the note before is put back.
abbrev pub roll_back : LiveNote → LiveNote → LiveNote
roll_back before n = record n { reactions = before.reactions; my_reaction = before.my_reaction }

unfoldable pub toggle_reaction : (Call → Bool) → LiveNote → String → LiveNote × List Call × Bool
unfolding optimistic perform
toggle_reaction answers n r =
    let p = perform answers (calls n r) in
    if p.1 then (optimistic n r, p.0, false) else (roll_back n (optimistic n r), p.0, true)
