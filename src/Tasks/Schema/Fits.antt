-- ===== src/Tasks/Schema/Fits.antt =====
-- What holds of a task, and of an input, that is accepted.
use Prim.Native.Char.{code}
use notedeck.Prelude.{
  ℕ, ◌+◌, String, Bool, true, false, ◌&&◌, Option, none, some, List, [], ◌∷◌, ◌==◌, if◌then◌else◌,
  ◌≡◌, refl, sym, subst, ap, ◌∙◌, arith, Bool-cases, inl, inr,
}
use notedeck.Tasks.{
  Json, null, bool, natural, other, text, array, object, items_of, Fields, member, TaskInput,
  TaskAction, TaskPresentation, TaskDefinition,
}
use notedeck.Tasks.Schema.{
  Place, within, element, only_api, ok, parse_error, is_task_id, is_icon_name, is_space, trim_start,
  trim_end, trim, non_empty, text_at, optional_text, optional_bool, fields_of, strings_at, input_of,
  parse_input, parse_action, params_of, is_api,
}
use notedeck.Tasks.Schema.File.{
  presentation_of, parse_presentation, id_of, icon_of, inputs_from, inputs_of, filled,
  normalized_group, parse_task,
}
use notedeck.Tasks.Schema.Valid.{bind-ok}

pub ok-injective {ℓ} : {A : Type ℓ} {a b : A} → ok a ≡ ok b → a ≡ b
ok-injective h = cc

abbrev NotBlank : String → Type 0
NotBlank s = (s == "") ≡ false

abbrev pub IsIcon : Option String → Type 0
IsIcon none = Unit
IsIcon (some s) = is_icon_name s ≡ true

abbrev pub IsInput : TaskInput → Type 0
IsInput i = NotBlank i.id

abbrev pub AllInputs : List TaskInput → Type 0
AllInputs [] = Unit
AllInputs (i ∷ is) = IsInput i × AllInputs is

abbrev pub InputsOk : Option (List TaskInput) → Type 0
InputsOk none = Unit
InputsOk (some is) = AllInputs is

abbrev pub kept_presentation : Option TaskPresentation → Option TaskPresentation
kept_presentation none = none
kept_presentation (some p) = presentation_of p.reveal_on_run p.clear_history_on_run

-- What the schema demands of a task.
pub record IsTask (d : TaskDefinition) : Type 0 where
  pub id_fits : is_task_id d.id ≡ true
  pub labelled : NotBlank d.label
  pub detail_filled : filled d.detail ≡ d.detail
  pub icon_fits : IsIcon d.icon
  pub group_trimmed : normalized_group d.group ≡ d.group
  pub inputs_fit : InputsOk d.inputs
  pub method_given : NotBlank d.action.method
  pub presented : kept_presentation d.presentation ≡ d.presentation

non_empty-ok : (at : Place) (v : Option Json) (s : String) → non_empty at v ≡ ok s → NotBlank s
non_empty-ok at none s h = absurd cc
non_empty-ok at (some (text t)) s h = ground (arith, h)
non_empty-ok at (some null) s h = absurd cc
non_empty-ok at (some (bool b)) s h = absurd cc
non_empty-ok at (some (natural n)) s h = absurd cc
non_empty-ok at (some (other n)) s h = absurd cc
non_empty-ok at (some (array n)) s h = absurd cc
non_empty-ok at (some (object n)) s h = absurd cc

id_of-ok : (at : Place) (v : Option Json) (s : String) → id_of at v ≡ ok s → is_task_id s ≡ true
id_of-ok at none s h = absurd cc
id_of-ok at (some (text t)) s h = ground (arith, h)
id_of-ok at (some null) s h = absurd cc
id_of-ok at (some (bool b)) s h = absurd cc
id_of-ok at (some (natural n)) s h = absurd cc
id_of-ok at (some (other n)) s h = absurd cc
id_of-ok at (some (array n)) s h = absurd cc
id_of-ok at (some (object n)) s h = absurd cc

-- Trimming a second time changes nothing.
StartsDark : String → Type 0
StartsDark String.[] = Unit
StartsDark (String.◌∷◌ c s) = is_space (code c) ≡ false

trim_start-StartsDark : (s : String) → StartsDark (trim_start s)
unfolding StartsDark
trim_start-StartsDark String.[] = tt
trim_start-StartsDark (String.◌∷◌ c s) = elim (Bool-cases (is_space (code c))) [
  | inl e ↦ rw e (trim_start-StartsDark s)
  | inr e ↦ rw e e
]

trim_end-StartsDark : (s : String) → StartsDark s → StartsDark (trim_end s)
unfolding StartsDark
trim_end-StartsDark String.[] d = tt
trim_end-StartsDark (String.◌∷◌ c s) d = rw d d

trim_start-fixed : (s : String) → StartsDark s → trim_start s ≡ s
unfolding StartsDark
trim_start-fixed String.[] d = refl
trim_start-fixed (String.◌∷◌ c s) d = rw d refl

trim_end_twice : (s : String) → trim_end (trim_end s) ≡ trim_end s
trim_end_twice String.[] = refl
trim_end_twice (String.◌∷◌ c s) = elim (Bool-cases (is_space (code c) && trim_end s == "")) [
  | inl e ↦ rw e refl
  | inr e ↦ rw e (rw (trim_end_twice s) (rw e refl))
]

pub trim_twice : (s : String) → trim (trim s) ≡ trim s
unfolding trim
trim_twice s =
    ap trim_end (
      trim_start-fixed (trim_end (trim_start s))
        (trim_end-StartsDark (trim_start s) (trim_start-StartsDark s)))
    ∙ trim_end_twice (trim_start s)

filled_twice : (o : Option String) → filled (filled o) ≡ filled o
filled_twice none = refl
filled_twice (some s) = elim (Bool-cases (s == "")) [ inl e ↦ rw e refl | inr e ↦ rw e (rw e refl) ]

normalized_group_twice :
    (o : Option String) → normalized_group (normalized_group o) ≡ normalized_group o
normalized_group_twice none = refl
normalized_group_twice (some s) = elim (Bool-cases (trim s == "")) [
  | inl e ↦ rw e refl
  | inr e ↦ rw e (rw (trim_twice s) (rw e refl))
]

icon_of-ok : (at : Place) (v : Option Json) (o : Option String) → icon_of at v ≡ ok o → IsIcon o
icon_of-ok at none none h = tt
icon_of-ok at none (some s) h = absurd cc
icon_of-ok at (some (text t)) none h = tt
icon_of-ok at (some (text t)) (some s) h = ground (arith, h)
icon_of-ok at (some null) o h = absurd cc
icon_of-ok at (some (bool b)) o h = absurd cc
icon_of-ok at (some (natural n)) o h = absurd cc
icon_of-ok at (some (other n)) o h = absurd cc
icon_of-ok at (some (array n)) o h = absurd cc
icon_of-ok at (some (object n)) o h = absurd cc

id-input_of :
    (at : Place) (raw : Fields) (id prompt : String) (type : Option Json) (i : TaskInput)
    → input_of at raw id prompt type ≡ ok i
    → i.id ≡ id
id-input_of at raw id prompt none i h = absurd cc
id-input_of at raw id prompt (some (text t)) i h = elim (Bool-cases (t == "text")) [
  | inl e ↦ ground (arith, h)
  | inr e ↦ elim (Bool-cases (t == "pick")) [
    | inl f ↦
        let p =
          bind-ok (strings_at (within at "options") (member raw "options")) _ (rw (e, f) at h) in
        ap (λ x. x.id) (sym (ok-injective p.2))
    | inr f ↦ absurd (ground (arith, h))
  ]
]
id-input_of at raw id prompt (some null) i h = absurd cc
id-input_of at raw id prompt (some (bool b)) i h = absurd cc
id-input_of at raw id prompt (some (natural n)) i h = absurd cc
id-input_of at raw id prompt (some (other n)) i h = absurd cc
id-input_of at raw id prompt (some (array n)) i h = absurd cc
id-input_of at raw id prompt (some (object n)) i h = absurd cc

parse_input-ok : (v : Json) (at : Place) (i : TaskInput) → parse_input v at ≡ ok i → IsInput i
unfolding parse_input
parse_input-ok v at i h =
    let (raw, r, h1) = bind-ok (fields_of at (some v)) _ h in
    let (id, d, h2) = bind-ok (non_empty (within at "id") (member raw "id")) _ h1 in
    let (prompt, p, h3) = bind-ok (text_at (within at "prompt") (member raw "prompt")) _ h2 in
    subst NotBlank (sym (id-input_of at raw id prompt (member raw "type") i h3))
      (non_empty-ok (within at "id") (member raw "id") id d)

inputs_from-ok :
    (at : Place) (n : ℕ) (vs : List Json) (is : List TaskInput)
    → inputs_from at n vs ≡ ok is
    → AllInputs is
inputs_from-ok at n [] [] h = tt
inputs_from-ok at n [] (i ∷ is) h = absurd cc
inputs_from-ok at n (v ∷ vs) is h =
    let (x, p, h1) = bind-ok (parse_input v (element at "inputs" n)) _ h in
    let (xs, q, h2) = bind-ok (inputs_from at (n + 1) vs) _ h1 in
    subst AllInputs (ok-injective h2)
      (parse_input-ok v (element at "inputs" n) x p, inputs_from-ok at (n + 1) vs xs q)

inputs_of-ok :
    (at : Place) (v : Option Json) (o : Option (List TaskInput))
    → inputs_of at v ≡ ok o
    → InputsOk o
inputs_of-ok at none o h = subst InputsOk (ok-injective h) tt
inputs_of-ok at (some (array vs)) o h =
    let (xs, p, h1) = bind-ok (inputs_from at 0 (items_of vs)) _ h in
    subst InputsOk (ok-injective h1) (inputs_from-ok at 0 (items_of vs) xs p)
inputs_of-ok at (some null) o h = absurd cc
inputs_of-ok at (some (bool b)) o h = absurd cc
inputs_of-ok at (some (natural n)) o h = absurd cc
inputs_of-ok at (some (other n)) o h = absurd cc
inputs_of-ok at (some (text n)) o h = absurd cc
inputs_of-ok at (some (object n)) o h = absurd cc

parse_action-ok :
    (v : Option Json) (at : Place) (a : TaskAction) → parse_action v at ≡ ok a → NotBlank a.method
unfolding parse_action
parse_action-ok v at a h =
    let (raw, p, h1) = bind-ok (fields_of at v) _ h in
    let (typed, q, h2) =
      bind-ok {A = Unit}
        (if is_api (member raw "type") then ok tt else parse_error (within at "type") only_api) _
        h1 in
    let (method, m, h3) = bind-ok (non_empty (within at "method") (member raw "method")) _ h2 in
    let (params, r, h4) = bind-ok (params_of (within at "params") (member raw "params")) _ h3 in
    subst NotBlank (ap (λ x. x.method) (ok-injective h4))
      (non_empty-ok (within at "method") (member raw "method") method m)

Kept : Option TaskPresentation → Type 0
Kept o = kept_presentation o ≡ o

presentation_of-Kept : (r c : Option Bool) → Kept (presentation_of r c)
unfolding Kept
presentation_of-Kept none none = refl
presentation_of-Kept none (some c) = refl
presentation_of-Kept (some r) c = refl

parse_presentation-ok :
    (v : Option Json) (at : Place) (o : Option TaskPresentation)
    → parse_presentation v at ≡ ok o
    → Kept o
unfolding parse_presentation Kept
parse_presentation-ok none at o h = subst Kept (ok-injective h) refl
parse_presentation-ok (some v) at o h =
    let (raw, p, h1) = bind-ok (fields_of at (some v)) _ h in
    let (r, q, h2) =
      bind-ok (optional_bool (within at "revealOnRun") (member raw "revealOnRun")) _ h1 in
    let (c, q2, h3) =
      bind-ok (optional_bool (within at "clearHistoryOnRun") (member raw "clearHistoryOnRun")) _
        h2 in
    subst Kept (ok-injective h3) (presentation_of-Kept r c)

-- A task that is accepted fits the schema.
pub parse_task-IsTask :
    (v : Json) (at : Place) (d : TaskDefinition) → parse_task v at ≡ ok d → IsTask d
unfolding parse_task Kept
parse_task-IsTask v at d h =
    let (raw, p, h1) = bind-ok (fields_of at (some v)) _ h in
    let (id, id_p, h2) = bind-ok (id_of (within at "id") (member raw "id")) _ h1 in
    let (label, label_p, h3) = bind-ok (non_empty (within at "label") (member raw "label")) _ h2 in
    let (inputs, inputs_p, h4) = bind-ok (inputs_of at (member raw "inputs")) _ h3 in
    let (action, action_p, h5) =
      bind-ok (parse_action (member raw "action") (within at "action")) _ h4 in
    let (shown, shown_p, h6) =
      bind-ok (parse_presentation (member raw "presentation") (within at "presentation")) _ h5 in
    let (detail, detail_p, h7) =
      bind-ok (optional_text (within at "detail") (member raw "detail")) _ h6 in
    let (icon, icon_p, h8) = bind-ok (icon_of (within at "icon") (member raw "icon")) _ h7 in
    let (group, group_p, h9) =
      bind-ok (optional_text (within at "group") (member raw "group")) _ h8 in
    let (default, default_p, h10) =
      bind-ok (optional_bool (within at "isDefault") (member raw "isDefault")) _ h9 in
    let (pinned, pinned_p, h11) =
      bind-ok (optional_bool (within at "pinned") (member raw "pinned")) _ h10 in
    subst IsTask (ok-injective h11) record {
      id_fits = id_of-ok (within at "id") (member raw "id") id id_p;
      labelled = non_empty-ok (within at "label") (member raw "label") label label_p;
      detail_filled = filled_twice detail;
      icon_fits = icon_of-ok (within at "icon") (member raw "icon") icon icon_p;
      group_trimmed = normalized_group_twice group;
      inputs_fit = inputs_of-ok at (member raw "inputs") inputs inputs_p;
      method_given = parse_action-ok (member raw "action") (within at "action") action action_p;
      presented =
          parse_presentation-ok (member raw "presentation") (within at "presentation") shown
            shown_p;
    }
