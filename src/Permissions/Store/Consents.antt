-- ===== src/Permissions/Store/Consents.antt =====
-- The remembered consents: who may give one, what adding and removing one changes, and that they
-- come back from the disk.
use Prim.Native.String.{◌++◌ as str_append}
use text.Mathlib.TextLemmas.{prefix-append}
use text.Mathlib.TextEquality.{starts_with_iff}
use notedeck.Prelude.{
  String, true, false, not, ◌&&◌, ◌||◌, Option, none, some, List, [], ◌∷◌, ◌++◌, ◌==◌, ◌≡◌, inl,
  inr, refl, ap, sym, ◌∙◌, arith, or_else, includes, without, map, subst, String-cases, eq_iff,
  eq_refl, if◌then◌else◌, includes-append, includes-without, Bool-cases,
}
use notedeck.Prelude.Dict
use notedeck.Prelude.Dict.{Dict}
use notedeck.Permissions.Principal.{Principal, user, ai_chat, ai_heartbeat, plugin, external}
use notedeck.Permissions.Store.{
  PermissionsFile, Store, RawSkips, is_skip_scope, texts, dedupe, keep_scope, keep_scopes,
  confirm_skip_scope, is_confirm_skipped, add_confirm_skip, put_or_delete, put_unless_empty,
  normalize_permissions_file, remove_confirm_skip,
}

is_skip_scope-plugin : (id : String) → is_skip_scope (str_append "plugin:" id) ≡ true
is_skip_scope-plugin id =
    ground
      (arith, (starts_with_iff (str_append "plugin:" id) "plugin:").1 (prefix-append "plugin:" id))

scope_of_some : {s t : String} → some s ≡ some t → is_skip_scope s ≡ true → is_skip_scope t ≡ true
scope_of_some h e = sym (ap (λ (o : Option String). is_skip_scope (or_else o "")) h) ∙ e

-- A scope under which consents are remembered is one that reading the file keeps.
pub confirm_skip_scope-is_skip_scope :
    (p : Principal) (scope : String)
    → confirm_skip_scope p ≡ some scope
    → is_skip_scope scope ≡ true
unfolding confirm_skip_scope
confirm_skip_scope-is_skip_scope user scope h = cc
confirm_skip_scope-is_skip_scope ai_chat scope h = scope_of_some h refl
confirm_skip_scope-is_skip_scope ai_heartbeat scope h = cc
confirm_skip_scope-is_skip_scope (plugin id name) scope h =
    scope_of_some h (is_skip_scope-plugin id)
confirm_skip_scope-is_skip_scope (external token) scope h = cc

-- Adding a consent adds this one and no other.
pub is_confirm_skipped-add :
    (s : Store) (scope id : String) (scope' id' : String)
    → is_confirm_skipped (add_confirm_skip s scope id).file scope' id'
      ≡ (is_confirm_skipped s.file scope' id' || (scope == scope' && id == id'))
unfolding is_confirm_skipped add_confirm_skip
is_confirm_skipped-add s scope id scope' id' =
    let skips = s.file.confirm_skips in
    let list = or_else (Dict.get skips scope) [] in
    ground (
      arith,
      Dict.get-put skips scope scope' (list ++ id ∷ []),
      includes-append list (id ∷ []) id',
      eq_iff scope scope',
      eq_iff id id',
    )

put_or_delete_lem :
    (skips : Dict (List String)) (scope scope' : String) (next : List String)
    → or_else (Dict.get (put_or_delete skips scope next) scope') []
      ≡ (if scope == scope' then next else or_else (Dict.get skips scope') [])
unfolding put_or_delete
put_or_delete_lem skips scope scope' [] = ground (arith, Dict.get-delete skips scope scope')
put_or_delete_lem skips scope scope' (c ∷ cs) =
    ground (arith, Dict.get-put skips scope scope' (c ∷ cs))

-- Removing a consent removes this one and no other.
pub is_confirm_skipped-remove :
    (s : Store) (scope id : String) (scope' id' : String)
    → is_confirm_skipped (remove_confirm_skip s scope id).file scope' id'
      ≡ (is_confirm_skipped s.file scope' id' && not (scope == scope' && id == id'))
unfolding is_confirm_skipped remove_confirm_skip
is_confirm_skipped-remove s scope id scope' id' =
    let skips = s.file.confirm_skips in
    let list = or_else (Dict.get skips scope) [] in
    ground (
      arith,
      put_or_delete_lem skips scope scope' (without id list),
      includes-without list id id',
      eq_iff scope scope',
      eq_iff id id',
    )

-- The consents as the file holds them.
abbrev pub stored_skips : Dict (List String) → Dict RawSkips
stored_skips = map (λ e. (e.0, some (map some e.1)))

texts-map : (l : List String) → texts (map some l) ≡ l
unfolding texts
texts-map [] = refl
texts-map (x ∷ l) = ap (x ∷◌) (texts-map l)

includes-dedupe :
    (seen l : List String) (k : String)
    → includes (dedupe seen l) k ≡ (includes l k && not (includes seen k))
unfolding dedupe
includes-dedupe seen [] k = refl
includes-dedupe seen (x ∷ l) k = elim (Bool-cases (includes seen x)) [
  | inl e ↦ rw (e, dedupe) (ground (arith, includes-dedupe seen l k, eq_iff x k))
  | inr e ↦ rw (e, dedupe) (ground (arith, includes-dedupe (x ∷ seen) l k, eq_iff x k))
]

get-put_unless_empty_ne :
    (out : Dict (List String)) (j s : String) (l : List String)
    → (j == s) ≡ false
    → Dict.get (put_unless_empty out j l) s ≡ Dict.get out s
unfolding put_unless_empty
get-put_unless_empty_ne out j s [] h = refl
get-put_unless_empty_ne out j s (c ∷ cs) h = rw (Dict.get-put, h)

get-keep_scope_ne :
    (out : Dict (List String)) (j s : String) (raw : RawSkips)
    → (j == s) ≡ false
    → Dict.get (keep_scope out j raw) s ≡ Dict.get out s
unfolding keep_scope
get-keep_scope_ne out j s none h = refl
get-keep_scope_ne out j s (some vs) h =
    ground (arith, get-put_unless_empty_ne out j s (dedupe [] (texts vs)))

get-put_unless_empty_self :
    (out : Dict (List String)) (s : String) (l : List String)
    → Dict.get out s ≡ none
    → or_else (Dict.get (put_unless_empty out s l) s) [] ≡ l
unfolding put_unless_empty
get-put_unless_empty_self out s [] h = rw h
get-put_unless_empty_self out s (c ∷ cs) h = rw (Dict.get-put, eq_refl)

look-keep_scope :
    (out : Dict (List String)) (s id : String) (l : List String)
    → Dict.get out s ≡ none
    → includes (or_else (Dict.get (keep_scope out s (some (map some l))) s) []) id
      ≡ (is_skip_scope s && includes l id)
unfolding keep_scope
look-keep_scope out s id l h =
    rw texts-map
      (ground (arith, get-put_unless_empty_self out s (dedupe [] l) h, includes-dedupe [] l id))

get-keep_scopes_absent :
    (m out : Dict (List String)) (s : String)
    → Dict.get m s ≡ none
    → Dict.get (keep_scopes out (stored_skips m)) s ≡ Dict.get out s
unfolding keep_scopes Dict.get
get-keep_scopes_absent [] out s h = refl
get-keep_scopes_absent ((j, l) ∷ m) out s h = elim (Bool-cases (j == s)) [
  | inl e ↦ ground arith
  | inr e ↦
      get-keep_scopes_absent m (keep_scope out j (some (map some l))) s (ground arith)
      ∙ get-keep_scope_ne out j s (some (map some l)) e
]

look-keep_scopes :
    (m out : Dict (List String)) (s id : String)
    → Dict.Distinct m
    → Dict.get out s ≡ none
    → includes (or_else (Dict.get (keep_scopes out (stored_skips m)) s) []) id
      ≡ (is_skip_scope s && includes (or_else (Dict.get m s) []) id)
unfolding keep_scopes Dict.get
look-keep_scopes [] out s id d h = ground arith
look-keep_scopes ((j, l) ∷ m) out s id d h = elim (String-cases j s) [
  | inl (p, e) ↦
      rw
        (
          p,
          get-keep_scopes_absent m (keep_scope out s (some (map some l))) s
              (subst (λ x. Dict.get m x ≡ none) p d.0),
          eq_refl s,
        )
        (look-keep_scope out s id l h)
  | inr (p, e) ↦ rw e (
      look-keep_scopes m (keep_scope out j (some (map some l))) s id d.1
        (get-keep_scope_ne out j s (some (map some l)) e ∙ h))
]

-- The consents of a file in which no scope stands twice are read back as they were, for every scope
-- that may have consents; any other scope is dropped.
pub is_confirm_skipped-reload :
    (file : PermissionsFile) (scope id : String)
    → Dict.Distinct file.confirm_skips
    → is_confirm_skipped
        (normalize_permissions_file (record {
          parsed_principals = some file.principals;
          parsed_skips = some (stored_skips file.confirm_skips);
        }))
        scope
        id
      ≡ (is_skip_scope scope && is_confirm_skipped file scope id)
unfolding is_confirm_skipped normalize_permissions_file Dict.get
is_confirm_skipped-reload file scope id d = look-keep_scopes file.confirm_skips [] scope id d refl
