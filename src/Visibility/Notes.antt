-- ===== src/Visibility/Notes.antt =====
-- composables/useNoteVisibility.ts: which notes and notifications are hidden.
use Prim.Native.String.{◌++◌ as str_append}
use notedeck.Prelude.{
  ℕ, String, Bool, true, false, not, ◌&&◌, ◌||◌, Option, none, some, List, [], ◌∷◌, includes,
  or_else, keep_if, is_some, ◌==◌, if◌then◌else◌,
}
use notedeck.Prelude.Dict
use notedeck.Prelude.Dict.{Dict}
use notedeck.Visibility.{Mutes, RegExp, AccountWordMutes, MutedWord, has, matches_word}

-- What is read of a note, and of its reply and its renote. `files` is their number.
pub record NoteBody : Type 0 where
  pub id : String
  pub user_id : String
  pub user_host : Option String
  pub is_bot : Bool
  pub text : Option String
  pub cw : Option String
  pub files : ℕ

pub record ShownNote : Type 0 where
  pub account_id : String
  pub visibility : String
  pub body : NoteBody
  pub reply : Option NoteBody
  pub renote : Option NoteBody

-- The other stores: the deleted notes, the users of the accounts, and what is muted.
pub record Stores : Type 0 where
  pub deleted_ids : List String
  pub user_ids : Dict String
  pub reg_exp : RegExp
  pub mutes : Mutes

unfoldable pub note_match_text : NoteBody → String
note_match_text b = str_append (or_else b.cw "") (str_append "\n" (or_else b.text ""))

abbrev pub is_own_note : Stores → ShownNote → Bool
is_own_note s n = elim (Dict.get s.user_ids n.account_id) [
  | none ↦ false
  | some u ↦ u == n.body.user_id
]

-- `note.reply?.user?.id`
abbrev pub part {ℓ} : {A : Type ℓ} → (NoteBody → Option A) → Option NoteBody → Option A
part f none = none
part f (some b) = f b

abbrev pub user_of : NoteBody → Option String
user_of b = some b.user_id

abbrev pub in_any : (Option String → Bool) → (NoteBody → Option String) → ShownNote → Bool
in_any muted f n = muted (f n.body) || muted (part f n.reply) || muted (part f n.renote)

unfoldable pub is_renote_muted : Stores → ShownNote → Bool
is_renote_muted s n =
    is_some n.renote
    && not (is_some n.body.text)
    && has s.mutes.renoters n.account_id (some n.body.user_id)

unfoldable pub is_instance_muted : Stores → ShownNote → Bool
is_instance_muted s n = in_any (has s.mutes.instances n.account_id) (λ b. b.user_host) n

abbrev pub part_matches : (String → Bool) → Option NoteBody → Bool
part_matches f none = false
part_matches f (some b) = f (note_match_text b)

unfoldable pub is_word_muted : (AccountWordMutes → List MutedWord) → Stores → ShownNote → Bool
unfolding note_match_text
is_word_muted kind s n =
    let matches = matches_word s.reg_exp kind s.mutes n.account_id in
    if is_own_note s n
    then false
    else matches (note_match_text n.body)
      || part_matches matches n.reply
      || part_matches matches n.renote

unfoldable pub is_hard_word_muted : Stores → ShownNote → Bool
unfolding is_word_muted
is_hard_word_muted s n = is_word_muted (λ w. w.hard) s n

unfoldable pub is_soft_word_muted : Stores → ShownNote → Bool
unfolding is_word_muted
is_soft_word_muted s n = is_word_muted (λ w. w.soft) s n

unfoldable pub is_hidden : Stores → ShownNote → Bool
unfolding is_renote_muted is_instance_muted is_hard_word_muted
is_hidden s n =
    includes s.deleted_ids n.body.id
    || in_any (has s.mutes.users n.account_id) user_of n
    || is_hard_word_muted s n
    || is_renote_muted s n
    || is_instance_muted s n

-- The users of the reactions or of the renotes are what is read of a group.
pub record Notification : Type 0 where
  pub account_id : String
  pub type : String
  pub user_id : Option String
  pub note : Option ShownNote
  pub reactions : List String
  pub users : List String

unfoldable pub visible_reactions : Stores → Notification → List String
visible_reactions s n = keep_if (λ u. not (has s.mutes.users n.account_id (some u))) n.reactions

unfoldable pub visible_grouped_users : Stores → Notification → List String
visible_grouped_users s n = keep_if (λ u. not (has s.mutes.users n.account_id (some u))) n.users

abbrev pub is_nil : List String → Bool
is_nil [] = true
is_nil (x ∷ xs) = false

abbrev pub note_hidden : Stores → Option ShownNote → Bool
note_hidden s none = false
note_hidden s (some n) = is_hidden s n

unfoldable pub is_notification_hidden : Stores → Notification → Bool
unfolding visible_reactions visible_grouped_users
is_notification_hidden s n =
    if has s.mutes.users n.account_id n.user_id
    then true
    else if note_hidden s n.note
    then true
    else if n.type == "reaction:grouped" && not (is_nil n.reactions)
    then is_nil (visible_reactions s n)
    else if n.type == "renote:grouped" && not (is_nil n.users)
    then is_nil (visible_grouped_users s n)
    else false
