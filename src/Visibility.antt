-- ===== src/Visibility.antt =====
-- stores/mutes.ts and utils/wordMuteMatch.ts: what an account has muted, and whether a text matches a
-- muted word. `new RegExp` is a parameter.
pub mod Notes
pub mod Muted
pub mod Filter
mod Examples
use Prim.Native.Char.{code}
use text.Mathlib.Text.{starts_with}
use notedeck.Prelude.{
  ℕ, String, Bool, true, false, not, ◌&&◌, ◌||◌, Option, none, some, List, [], ◌∷◌, includes, add,
  without, or_else, every, any, nat_eq, ◌==◌, if◌then◌else◌,
}
use notedeck.Prelude.Dict
use notedeck.Prelude.Dict.{Dict}

-- The sets of `createAccountSet`, by the ids of the accounts.
abbrev pub AccountSet : Type 0
AccountSet = Dict (List String)

-- An absent value and an empty one are in no set.
unfoldable pub has : AccountSet → String → Option String → Bool
has m account none = false
has m account (some v) = if v == "" then false else includes (or_else (Dict.get m account) []) v

unfoldable pub add_value : AccountSet → String → String → AccountSet
add_value m account v = Dict.put m account (add (or_else (Dict.get m account) []) v)

unfoldable pub remove_value : AccountSet → String → String → AccountSet
remove_value m account v = elim (Dict.get m account) [
  | none ↦ m
  | some vs ↦ Dict.put m account (without v vs)
]

-- `new Set(values)`
abbrev pub set_of : List String → List String → List String
set_of vs [] = vs
set_of vs (x ∷ xs) = set_of (add vs x) xs

unfoldable pub replace : AccountSet → String → List String → AccountSet
replace m account values = Dict.put m account (set_of [] values)

-- Words that must all occur, or a text `/pattern/flags`.
pub data MutedWord : Type 0 where
  words : List String → MutedWord
  pattern_text : String → MutedWord

pub record AccountWordMutes : Type 0 where
  pub soft : List MutedWord
  pub hard : List MutedWord

pub record Mutes : Type 0 where
  pub users : AccountSet
  pub renoters : AccountSet
  pub instances : AccountSet
  pub word_mutes : Dict AccountWordMutes

-- `new RegExp(source, flags)` with its `test`; `none` is an error.
abbrev pub RegExp : Type 0
RegExp = String → String → Option (String → Bool)

-- `.` matches no end of a line.
abbrev ends_line : ℕ → Bool
ends_line c = nat_eq c 10 || nat_eq c 13 || nat_eq c 8232 || nat_eq c 8233

abbrev pub has_line_end : String → Bool
has_line_end String.[] = false
has_line_end (String.◌∷◌ c s) = ends_line (code c) || has_line_end s

-- The texts before and after the last slash.
abbrev pub split_last : String → Option (String × String)
split_last String.[] = none
split_last (String.◌∷◌ c s) = elim (split_last s) [
  | some p ↦ some (String.◌∷◌ c p.0, p.1)
  | none ↦ if nat_eq (code c) b'/' then some ("", s) else none
]

-- `pattern.match(/^\/(.+)\/(.*)$/)`
abbrev pub parts_of : String → Option (String × String)
parts_of String.[] = none
parts_of (String.◌∷◌ c s) = elim (split_last s) [
  | none ↦ none
  | some p ↦
      if nat_eq (code c) b'/' && not (p.0 == "") && not (has_line_end s) then some p else none
]

unfoldable pub build_regex : RegExp → String → Option (String → Bool)
build_regex reg_exp s = elim (parts_of s) [ none ↦ none | some p ↦ reg_exp p.0 p.1 ]

-- `text.includes(word)`
abbrev pub contains : String → String → Bool
contains String.[] w = starts_with String.[] w
contains (String.◌∷◌ c s) w = starts_with (String.◌∷◌ c s) w || contains s w

unfoldable pub matches_entry : RegExp → String → MutedWord → Bool
unfolding build_regex
matches_entry reg_exp s (words []) = false
matches_entry reg_exp s (words (w ∷ ws)) = every (λ x. not (x == "") && contains s x) (w ∷ ws)
matches_entry reg_exp s (pattern_text p) = elim (build_regex reg_exp p) [
  | none ↦ false
  | some test ↦ test s
]

-- The text is never absent where the program asks.
unfoldable pub match_muted_words : RegExp → String → List MutedWord → Bool
unfolding matches_entry
match_muted_words reg_exp s ws = not (s == "") && any (matches_entry reg_exp s) ws

unfoldable pub mute_user : String → String → Mutes → Mutes
unfolding add_value
mute_user account user m = record m { users = add_value m.users account user }

unfoldable pub unmute_user : String → String → Mutes → Mutes
unfolding remove_value
unmute_user account user m = record m { users = remove_value m.users account user }

unfoldable pub set_muted_words : String → List MutedWord → List MutedWord → Mutes → Mutes
set_muted_words account soft hard m = record m {
  word_mutes = Dict.put m.word_mutes account (record { soft = soft; hard = hard });
}

unfoldable pub matches_word :
    RegExp → (AccountWordMutes → List MutedWord) → Mutes → String → String → Bool
unfolding match_muted_words
matches_word reg_exp kind m account s =
    if account == "" then false else elim (Dict.get m.word_mutes account) [
      | none ↦ false
      | some w ↦ match_muted_words reg_exp s (kind w)
    ]
