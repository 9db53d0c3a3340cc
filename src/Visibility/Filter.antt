-- ===== src/Visibility/Filter.antt =====
-- utils/timelineFilter.ts: which notes of the stream a column shows.
use notedeck.Prelude.{
  ℕ, String, Bool, true, false, not, ◌&&◌, ◌||◌, Option, none, some, is_some, truthy, ltb, ◌==◌,
  if◌then◌else◌,
}
use notedeck.Visibility.Notes.{NoteBody, ShownNote}

pub record TimelineFilter : Type 0 where
  pub with_renotes : Option Bool
  pub with_replies : Option Bool
  pub with_files : Option Bool
  pub with_bots : Option Bool

unfoldable pub matches_visibility : ShownNote → Option String → Bool
matches_visibility n none = true
matches_visibility n (some type) =
    if type == "local" || type == "global" then n.visibility == "public" else true

abbrev pub is_false : Option Bool → Bool
is_false (some false) = true
is_false _ = false

abbrev pub is_true : Option Bool → Bool
is_true (some true) = true
is_true _ = false

abbrev pub files_of : Option NoteBody → ℕ
files_of none = 0
files_of (some b) = b.files

unfoldable pub matches_filter : ShownNote → Option TimelineFilter → Option String → Bool
unfolding matches_visibility
matches_filter n none type = matches_visibility n type
matches_filter n (some f) type =
    if not (matches_visibility n type)
    then false
    else if is_false f.with_renotes && is_some n.renote && not (is_some (truthy n.body.text))
    then false
    else if is_false f.with_replies && is_some n.reply
    then false
    else if is_true f.with_files && not (ltb 0 n.body.files || ltb 0 (files_of n.renote))
    then false
    else not (is_false f.with_bots && n.body.is_bot)
