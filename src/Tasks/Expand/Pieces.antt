-- ===== src/Tasks/Expand/Pieces.antt =====
-- A template as the pieces that it is written from.
use Prim.Native.Char.{Char, code}
use Prim.Native.String.{◌++◌ as str_append}
use text.Mathlib.TextLemmas.{nil-append, cons-append, append-nil, append_assoc}
use notedeck.Prelude.{
  String, Bool, true, false, not, ◌&&◌, List, [], ◌∷◌, nat_eq, ◌==◌, ◌≡◌, refl, ap, ◌∙◌, arith,
  Bool-cases, inl, inr,
}
use notedeck.Tasks.Expand.{
  ExpandContext, is_token_char, resolve_token, outside, inside, one, expand_from, expand_string,
}

pub data Piece : Type 0 where
  plain token : String → Piece

abbrev pub no_dollar : String → Bool
no_dollar String.[] = true
no_dollar (String.◌∷◌ c s) = not (nat_eq (code c) b'$') && no_dollar s

abbrev pub token_chars : String → Bool
token_chars String.[] = true
token_chars (String.◌∷◌ c s) = is_token_char (code c) && token_chars s

-- Plain text has no `$`; a token has characters, and only those that tokens may have.
abbrev pub is_piece : Piece → Bool
is_piece (plain s) = no_dollar s
is_piece (token t) = not (t == "") && token_chars t

abbrev pub written : Piece → String
written (plain s) = s
written (token t) = str_append "${" (str_append t "}")

abbrev pub meaning : ExpandContext → Piece → String
meaning ctx (plain s) = s
meaning ctx (token t) = resolve_token ctx t

abbrev pub join : (Piece → String) → List Piece → String
join f [] = ""
join f (p ∷ ps) = str_append (f p) (join f ps)

abbrev pub AllPieces : List Piece → Type 0
AllPieces [] = Unit
AllPieces (p ∷ ps) = (is_piece p ≡ true) × AllPieces ps

-- A character that is put in front, written as an append.
one-append : (c : Char) (s : String) → str_append (one c) s ≡ String.◌∷◌ c s
one-append c s = cons-append c "" s ∙ ap (λ r. String.◌∷◌ c r) (nil-append s)

expand-plain :
    (ctx : ExpandContext) (s rest : String)
    → no_dollar s ≡ true
    → expand_from ctx outside (str_append s rest) ≡ str_append s (expand_from ctx outside rest)
expand-plain ctx String.[] rest h =
    rw (nil-append rest, nil-append (expand_from ctx outside rest)) refl
expand-plain ctx (String.◌∷◌ c s) rest h = elim (Bool-cases (nat_eq (code c) b'$')) [
  | inl e ↦ absurd (ground (arith, h, e))
  | inr e ↦
      rw
        (
          cons-append c s rest,
          cons-append c s (expand_from ctx outside rest),
          e,
          nil-append (one c),
        )
        (one-append c (expand_from ctx outside (str_append s rest))
          ∙ ap (λ r. String.◌∷◌ c r) (expand-plain ctx s rest (ground (arith, h))))
]

expand-inside :
    (ctx : ExpandContext) (t s rest : String)
    → token_chars s ≡ true
    → expand_from ctx (inside t) (str_append s rest)
      ≡ expand_from ctx (inside (str_append t s)) rest
expand-inside ctx t String.[] rest h = rw (nil-append rest, append-nil t) refl
expand-inside ctx t (String.◌∷◌ c s) rest h = elim (Bool-cases (is_token_char (code c))) [
  | inr e ↦ absurd (ground (arith, h, e))
  | inl e ↦
      ap (expand_from ctx (inside t)) (cons-append c s rest)
      ∙ rw e (nil-append (expand_from ctx (inside (str_append t (one c))) (str_append s rest)))
      ∙ expand-inside ctx (str_append t (one c)) s rest (ground (arith, h))
      ∙ ap (λ r. expand_from ctx (inside r) rest)
          (append_assoc t (one c) s ∙ ap (str_append t) (one-append c s))
]

-- The text of a token, character by character at its ends.
open_token : (s : String) → str_append "${" s ≡ String.◌∷◌ "$" (String.◌∷◌ "{" s)
open_token s = cons-append "$" "{" s ∙ ap (λ r. String.◌∷◌ "$" r) (one-append "{" s)

written-token :
    (t rest : String)
    → str_append (written (token t)) rest
      ≡ String.◌∷◌ "$" (String.◌∷◌ "{" (str_append t (String.◌∷◌ "}" rest)))
written-token t rest =
    append_assoc "${" (str_append t "}") rest
    ∙ open_token (str_append (str_append t "}") rest)
    ∙ ap (λ r. String.◌∷◌ "$" (String.◌∷◌ "{" r))
        (append_assoc t "}" rest ∙ ap (str_append t) (one-append "}" rest))

close_token :
    (ctx : ExpandContext) (t rest : String)
    → (t == "") ≡ false
    → expand_from ctx (inside t) (String.◌∷◌ "}" rest)
      ≡ str_append (resolve_token ctx t) (expand_from ctx outside rest)
close_token ctx t rest lit = rw lit refl

expand-token :
    (ctx : ExpandContext) (t rest : String)
    → (t == "") ≡ false
    → token_chars t ≡ true
    → expand_from ctx outside (str_append (written (token t)) rest)
      ≡ str_append (resolve_token ctx t) (expand_from ctx outside rest)
expand-token ctx t rest lit h =
    let u = str_append t (String.◌∷◌ "}" rest) in
    ap (expand_from ctx outside) (written-token t rest)
    ∙ nil-append (str_append "" (expand_from ctx (inside "") u))
    ∙ nil-append (expand_from ctx (inside "") u)
    ∙ expand-inside ctx "" t (String.◌∷◌ "}" rest) h
    ∙ ap (λ r. expand_from ctx (inside r) (String.◌∷◌ "}" rest)) (nil-append t)
    ∙ close_token ctx t rest lit

-- A template that is written from pieces, each a plain text without `$` or a token of one or more of
-- the characters that tokens may have, comes to the texts with the value of each token in its place. A
-- value is not read again, whatever it contains.
pub expand_string-join :
    (ctx : ExpandContext) (ps : List Piece)
    → AllPieces ps
    → expand_string ctx (join written ps) ≡ join (meaning ctx) ps
unfolding expand_string
expand_string-join ctx [] a = refl
expand_string-join ctx (plain s ∷ ps) a =
    expand-plain ctx s (join written ps) a.0 ∙ ap (str_append s) (expand_string-join ctx ps a.1)
expand_string-join ctx (token t ∷ ps) a =
    expand-token ctx t (join written ps) (ground (arith, a.0)) (ground (arith, a.0))
    ∙ ap (str_append (resolve_token ctx t)) (expand_string-join ctx ps a.1)
