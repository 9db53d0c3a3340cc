-- ===== src/Threads/Groups.antt =====
-- The nodes of a thread against the fragments: what each server has is put together once.
use notedeck.Prelude.{
  String, Bool, Option, none, some, List, [], ◌∷◌, ◌++◌, keep_if, ◌==◌, ◌≡◌, refl, sym, ap, ◌∙◌,
  if◌then◌else◌, Bool-cases, Option-cases, String-cases, inl, inr,
}
use notedeck.Prelude.Dict
use notedeck.Prelude.Dict.{Dict, Distinct}
use notedeck.Threads.{ThreadFragment, uri_of, Group, push_fragment, group_by_uri}

abbrev pub has_uri : String → ThreadFragment → Bool
has_uri u f = uri_of f == u

-- A group with more fragments behind it; none, if there are none.
abbrev pub extend : Option Group → List ThreadFragment → Option Group
extend none [] = none
extend none (f ∷ fs) = some (f, fs)
extend (some (g, gs)) fs = some (g, gs ++ fs)

append_assoc : (xs ys zs : List ThreadFragment) → (xs ++ ys) ++ zs ≡ xs ++ (ys ++ zs)
append_assoc [] ys zs = refl
append_assoc (x ∷ xs) ys zs = ap (x ∷◌) (append_assoc xs ys zs)

append_nil : (xs : List ThreadFragment) → xs ++ [] ≡ xs
append_nil [] = refl
append_nil (x ∷ xs) = ap (x ∷◌) (append_nil xs)

extend-nil : (o : Option Group) → extend o [] ≡ o
extend-nil none = refl
extend-nil (some (g, gs)) = ap (λ l. some (g, l)) (append_nil gs)

extend_twice :
    (o : Option Group) (f : ThreadFragment) (fs : List ThreadFragment)
    → extend (extend o (f ∷ [])) fs ≡ extend o (f ∷ fs)
extend_twice none f fs = refl
extend_twice (some (g, gs)) f fs = ap (λ l. some (g, l)) (append_assoc gs (f ∷ []) fs)

get-push_fragment :
    (m : Dict Group) (f : ThreadFragment) (u : String)
    → Dict.get (push_fragment m f) u
      ≡ (if has_uri u f then extend (Dict.get m u) (f ∷ []) else Dict.get m u)
get-push_fragment m f u = elim (String-cases (uri_of f) u) [
  | inl (p, e) ↦ elim (Option-cases (Dict.get m (uri_of f))) [
    | inl g ↦
        let here : Dict.get m u ≡ none = ap (Dict.get m) (sym p) ∙ g in
        rw (g, push_fragment, e, here) (Dict.get-put m (uri_of f) u (f, []) ∙ rw e refl)
    | inr ((h, hs), g) ↦
        let here : Dict.get m u ≡ some (h, hs) = ap (Dict.get m) (sym p) ∙ g in
        rw (g, push_fragment, e, here) (Dict.get-put m (uri_of f) u (h, hs ++ (f ∷ [])) ∙ rw e refl)
  ]
  | inr (p, e) ↦ elim (Option-cases (Dict.get m (uri_of f))) [
    | inl g ↦ rw (g, push_fragment, e) (Dict.get-put m (uri_of f) u (f, []) ∙ rw e refl)
    | inr ((h, hs), g) ↦
        rw (g, push_fragment, e) (Dict.get-put m (uri_of f) u (h, hs ++ (f ∷ [])) ∙ rw e refl)
  ]
]

pub get-group_by_uri :
    (m : Dict Group) (fs : List ThreadFragment) (u : String)
    → Dict.get (group_by_uri m fs) u ≡ extend (Dict.get m u) (keep_if (has_uri u) fs)
unfolding group_by_uri
get-group_by_uri m [] u = sym (extend-nil (Dict.get m u))
get-group_by_uri m (f ∷ fs) u =
    get-group_by_uri (push_fragment m f) fs u ∙ elim (Bool-cases (has_uri u f)) [
      | inl e ↦ rw e (
          ap (λ o. extend o (keep_if (has_uri u) fs)) (get-push_fragment m f u ∙ rw e refl)
          ∙ extend_twice (Dict.get m u) f (keep_if (has_uri u) fs))
      | inr e ↦
          rw e (ap (λ o. extend o (keep_if (has_uri u) fs)) (get-push_fragment m f u ∙ rw e refl))
    ]
