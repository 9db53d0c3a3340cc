-- ===== src/Visibility/Examples.antt =====
-- Concrete notes, and who is muted.
use notedeck.Prelude.{
  String, true, false, not, ◌&&◌, ◌||◌, Option, none, some, [], ◌∷◌, includes, ◌==◌, ◌≡◌, refl,
}
use notedeck.Prelude.Dict
use notedeck.Visibility.{
  Mutes, RegExp, words, pattern_text, has, mute_user, unmute_user, build_regex, match_muted_words,
  matches_entry, matches_word, add_value,
}
use notedeck.Visibility.Notes.{
  NoteBody, ShownNote, Stores, Notification, is_hidden, is_hard_word_muted, is_word_muted,
  is_renote_muted, is_instance_muted, is_notification_hidden, visible_reactions,
  visible_grouped_users, note_hidden, note_match_text, is_nil,
}
use notedeck.Visibility.Muted.{
  is_about, is_hidden-mute_user, is_hidden-unmute_user, is_notification_hidden-shown,
}
use notedeck.Visibility.Filter.{TimelineFilter, matches_filter, matches_visibility}

abbrev body : String → String → Option String → NoteBody
body id user text = record {
  id = id;
  user_id = user;
  user_host = none;
  is_bot = false;
  text = text;
  cw = none;
  files = 0;
}

-- A renote by u1 of a note by u2.
abbrev renote : ShownNote
renote = record {
  account_id = "a1";
  visibility = "public";
  body = body "n1" "u1" none;
  reply = none;
  renote = some (body "n0" "u2" (some "cats and dogs"));
}

abbrev no_mutes : Mutes
no_mutes = record { users = ("a1", "u3" ∷ []) ∷ []; renoters = []; instances = []; word_mutes = [] }

abbrev no_reg_exp : RegExp
no_reg_exp source flags = none

abbrev stores : Stores
stores = record {
  deleted_ids = [];
  user_ids = ("a1", "me") ∷ [];
  reg_exp = no_reg_exp;
  mutes = no_mutes;
}

abbrev lit : ("u2" == "") ≡ false
lit = refl

not_muted : has no_mutes.users "a1" (some "u2") ≡ false
unfolding has Dict.get
not_muted = refl

is_hidden-mute_user_example :
    is_hidden (record stores { mutes = mute_user "a1" "u2" no_mutes }) renote
    ≡ (is_hidden stores renote || "a1" == "a1" && is_about "u2" renote)
is_hidden-mute_user_example = is_hidden-mute_user "a1" "u2" stores renote refl

is_hidden-unmute_user_example :
    is_hidden
      (record stores { mutes = unmute_user "a1" "u2" (mute_user "a1" "u2" no_mutes) })
      renote
    ≡ is_hidden stores renote
is_hidden-unmute_user_example = is_hidden-unmute_user "a1" "u2" stores renote refl not_muted

shown_before_and_hidden_after :
    (is_hidden stores renote ≡ false)
    × (is_hidden (record stores { mutes = mute_user "a1" "u2" no_mutes }) renote ≡ true)
unfolding is_hidden has Dict.get Dict.put mute_user add_value is_hard_word_muted is_word_muted
    matches_word is_renote_muted is_instance_muted note_match_text
shown_before_and_hidden_after = (refl, refl)

abbrev reactions : Notification
reactions = record {
  account_id = "a1";
  type = "reaction:grouped";
  user_id = none;
  note = none;
  reactions = "u3" ∷ "u2" ∷ [];
  users = [];
}

reactions_shown : is_notification_hidden stores reactions ≡ false
unfolding is_notification_hidden visible_reactions visible_grouped_users has Dict.get
reactions_shown = refl

is_notification_hidden-shown_example :
    (has no_mutes.users "a1" none ≡ false)
    × (note_hidden stores none ≡ false)
    × (reactions.type ≡ "reaction:grouped"
        → is_nil reactions.reactions ≡ false
        → (u : String) × (includes reactions.reactions u ≡ true)
          × (not (has no_mutes.users "a1" (some u)) ≡ true))
    × (reactions.type ≡ "renote:grouped"
        → is_nil reactions.users ≡ false
        → (u : String) × (includes reactions.users u ≡ true)
          × (not (has no_mutes.users "a1" (some u)) ≡ true))
is_notification_hidden-shown_example = is_notification_hidden-shown stores reactions reactions_shown

all_words_occur :
    (match_muted_words no_reg_exp "cats and dogs" (words ("dog" ∷ "cat" ∷ []) ∷ []) ≡ true)
    × (match_muted_words no_reg_exp "cats and dogs" (words ("dog" ∷ "cow" ∷ []) ∷ []) ≡ false)
    × (match_muted_words no_reg_exp "cats" (words [] ∷ pattern_text "cat" ∷ []) ≡ false)
unfolding match_muted_words matches_entry build_regex
all_words_occur = (refl, refl, refl)

-- The last slash ends the pattern.
abbrev only_a : RegExp
only_a source flags = some (λ s. source == "a/b" && flags == "i")

pattern_ends_at_the_last_slash : match_muted_words only_a "x" (pattern_text "/a/b/i" ∷ []) ≡ true
unfolding match_muted_words matches_entry build_regex
pattern_ends_at_the_last_slash = refl

abbrev without_renotes : TimelineFilter
without_renotes = record {
  with_renotes = some false;
  with_replies = none;
  with_files = none;
  with_bots = none;
}

renotes_are_left_out :
    (matches_filter renote (some without_renotes) (some "local") ≡ false)
    × (matches_filter renote none (some "local") ≡ true)
    × (matches_filter (record renote { visibility = "home" }) none (some "local") ≡ false)
unfolding matches_filter matches_visibility
renotes_are_left_out = (refl, refl, refl)
