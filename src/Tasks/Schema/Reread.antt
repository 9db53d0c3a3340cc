-- ===== src/Tasks/Schema/Reread.antt =====
-- A task that was written as an object, read again.
use notedeck.Prelude.{
  ℕ, ◌+◌, String, Bool, true, false, Option, or_else, none, some, List, [], ◌∷◌, ◌==◌,
  if◌then◌else◌, ◌≡◌, refl, ap, ◌∙◌, arith,
}
use notedeck.Tasks.{
  Json, text, array, items_of, Fields, no_fields, field, member, TaskInput, TaskAction,
  TaskPresentation, TaskDefinition, AccountChoice, unset, null_account, named,
}
use notedeck.Tasks.Schema.{
  Place, within, element, Parsed, ok, ◌>>=◌, non_empty, optional_text, optional_bool, if_text,
  strings_at, parse_input, parse_action, params_of, texts_of,
}
use notedeck.Tasks.Schema.File.{
  parse_presentation, id_of, icon_of, inputs_from, inputs_of, account_choice, parse_task,
}
use notedeck.Tasks.Schema.Fits.{IsTask, IsIcon, AllInputs, InputsOk, kept_presentation}
use notedeck.Tasks.Schema.Written.{
  account_json, action_json, if_true, input_json, inputs_items, inputs_json, opt, opt_bool,
  opt_fields, opt_text, presentation_json, task_fields, task_json, texts,
}

abbrev first : Option Json → Option Json → Option Json
first none o = o
first (some v) o = some v

first-none : (o : Option Json) → first o none ≡ o
first-none none = refl
first-none (some v) = refl

member-opt :
    (j k : String) (o : Option Json) (fs : Fields)
    → member (opt j o fs) k ≡ (if j == k then first o (member fs k) else member fs k)
member-opt j k none fs = ground arith
member-opt j k (some v) fs = ground arith

pub bind_ok {ℓ} :
    {A B : Type ℓ} {a : A} {b : B} {m : Parsed A} (f : A → Parsed B)
    → m ≡ ok a
    → f a ≡ ok b
    → m >>= f ≡ ok b
bind_ok f p q = ap (λ x. x >>= f) p ∙ q

module _ (d : TaskDefinition) where
  member-description : member (task_fields d) "description" ≡ opt_text d.description
  member-description = simp (member-opt, first-none)

  member-detail : member (task_fields d) "detail" ≡ opt_text d.detail
  member-detail = simp (member-opt, first-none)

  member-icon : member (task_fields d) "icon" ≡ opt_text d.icon
  member-icon = simp (member-opt, first-none)

  member-group : member (task_fields d) "group" ≡ opt_text d.group
  member-group = simp (member-opt, first-none)

  member-default : member (task_fields d) "isDefault" ≡ if_true d.is_default
  member-default = simp (member-opt, first-none)

  member-pinned : member (task_fields d) "pinned" ≡ if_true d.pinned
  member-pinned = simp (member-opt, first-none)

  member-account : member (task_fields d) "accountId" ≡ account_json d.account_id
  member-account = simp (member-opt, first-none)

  member-inputs : member (task_fields d) "inputs" ≡ inputs_json d.inputs
  member-inputs = simp (member-opt, first-none)

  member-presentation : member (task_fields d) "presentation" ≡ presentation_json d.presentation
  member-presentation = simp (member-opt, first-none)

optional_text-opt_text : (at : Place) (o : Option String) → optional_text at (opt_text o) ≡ ok o
optional_text-opt_text at none = refl
optional_text-opt_text at (some s) = refl

optional_bool-opt_bool : (at : Place) (o : Option Bool) → optional_bool at (opt_bool o) ≡ ok o
optional_bool-opt_bool at none = refl
optional_bool-opt_bool at (some s) = refl

if_text-opt_text : (o : Option String) → if_text (opt_text o) ≡ o
if_text-opt_text none = refl
if_text-opt_text (some s) = refl

abbrev when_true : Bool → Option Bool
when_true b = if b then some true else none

optional_bool-if_true : (at : Place) (b : Bool) → optional_bool at (if_true b) ≡ ok (when_true b)
optional_bool-if_true at true = refl
optional_bool-if_true at false = refl

or_else-when_true : (b : Bool) → or_else (when_true b) false ≡ b
or_else-when_true true = refl
or_else-when_true false = refl

icon_of-opt_text : (at : Place) (o : Option String) → IsIcon o → icon_of at (opt_text o) ≡ ok o
icon_of-opt_text at none h = refl
icon_of-opt_text at (some s) h = rw h refl

account_choice-account_json : (a : AccountChoice) → account_choice (account_json a) ≡ a
account_choice-account_json unset = refl
account_choice-account_json null_account = refl
account_choice-account_json (named s) = refl

texts_of-texts : (ss : List String) → texts_of (items_of (texts ss)) ≡ some ss
texts_of-texts [] = refl
texts_of-texts (s ∷ ss) = rw (texts_of-texts ss) refl

member-options :
    (o : Option Json) (id prompt : String) (os : List String)
    → member
        (field "id" (text id) (
          field "type" (text "pick") (
            field "prompt"
              (text prompt)
              (field "options" (array (texts os)) (opt "default" o no_fields)))))
        "default"
      ≡ o
member-options o id prompt os = simp (member-opt, first-none)

default-only : (o : Option Json) → member (opt "default" o no_fields) "default" ≡ o
default-only o = simp (member-opt, first-none)

abbrev input : String → String → Option (List String) → Option String → TaskInput
input i p os d = record { id = i; prompt = p; options = os; default = d }

reread_input :
    (at : Place) (i p : String) (os : Option (List String)) (d : Option String)
    → (i == "") ≡ false
    → parse_input (input_json (input i p os d)) at ≡ ok (input i p os d)
unfolding parse_input input_json
reread_input at i p none d h = rw (h, default-only (opt_text d), if_text-opt_text d) refl
reread_input at i p (some os) d h =
    let raw : Fields = field "id" (text i) (
      field "type" (text "pick") (
        field "prompt" (text p)
          (field "options" (array (texts os)) (opt "default" (opt_text d) no_fields)))) in
    bind_ok {m = non_empty (within at "id") (some (text i))} _ (rw h refl) (
      bind_ok {m = strings_at (within at "options") (some (array (texts os)))} _
        (rw (texts_of-texts os, strings_at) refl)
        (ap (λ x. ok (input i p (some os) x))
          (ap if_text (member-options (opt_text d) i p os) ∙ if_text-opt_text d)))

reread_inputs :
    (at : Place) (n : ℕ) (is : List TaskInput)
    → AllInputs is
    → inputs_from at n (items_of (inputs_items is)) ≡ ok is
reread_inputs at n [] a = refl
reread_inputs at n (i ∷ is) a =
    bind_ok _ (reread_input (element at "inputs" n) i.id i.prompt i.options i.default a.0)
      (bind_ok _ (reread_inputs at (n + 1) is a.1) refl)

inputs_of-inputs_json :
    (at : Place) (o : Option (List TaskInput)) → InputsOk o → inputs_of at (inputs_json o) ≡ ok o
inputs_of-inputs_json at none h = refl
inputs_of-inputs_json at (some is) h = bind_ok _ (reread_inputs at 0 is h) refl

params-only : (o : Option Json) → member (opt "params" o no_fields) "params" ≡ o
params-only o = simp (member-opt, first-none)

params_of-opt_fields : (at : Place) (o : Option Fields) → params_of at (opt_fields o) ≡ ok o
params_of-opt_fields at none = refl
params_of-opt_fields at (some fs) = refl

parse_action-action_json :
    (at : Place) (a : TaskAction)
    → (a.method == "") ≡ false
    → parse_action (some (action_json a)) at ≡ ok a
unfolding parse_action action_json
parse_action-action_json at a h =
    bind_ok {m = non_empty (within at "method") (some (text a.method))} _ (rw h refl) (
      bind_ok _
        (ap (params_of (within at "params")) (params-only (opt_fields a.params))
          ∙ params_of-opt_fields (within at "params") a.params)
        refl)

parse_presentation-presentation_json :
    (at : Place) (o : Option TaskPresentation)
    → kept_presentation o ≡ o
    → parse_presentation (presentation_json o) at ≡ ok o
unfolding parse_presentation presentation_json
parse_presentation-presentation_json at none h = refl
parse_presentation-presentation_json at (some p) h =
    let shown : Option Json = opt_bool p.clear_history_on_run in
    let reveal : member
          (opt "revealOnRun" (opt_bool p.reveal_on_run) (opt "clearHistoryOnRun" shown no_fields))
          "revealOnRun"
        ≡ opt_bool p.reveal_on_run =
      simp (member-opt, first-none) in
    let clear : member
          (opt "revealOnRun" (opt_bool p.reveal_on_run) (opt "clearHistoryOnRun" shown no_fields))
          "clearHistoryOnRun"
        ≡ shown =
      simp (member-opt, first-none) in
    bind_ok _
      (ap (optional_bool (within at "revealOnRun")) reveal
        ∙ optional_bool-opt_bool (within at "revealOnRun") p.reveal_on_run)
      (bind_ok _
        (ap (optional_bool (within at "clearHistoryOnRun")) clear
          ∙ optional_bool-opt_bool (within at "clearHistoryOnRun") p.clear_history_on_run)
        (ap ok h))

-- A task that fits the schema, written as an object and read again at any place of a file, is the task
-- that it was.
pub parse_task-task_json :
    (d : TaskDefinition) (at : Place) → IsTask d → parse_task (task_json d) at ≡ ok d
unfolding parse_task task_json
parse_task-task_json d at w =
    bind_ok {a = d.id} {m = id_of (within at "id") (some (text d.id))} _ (rw w.id_fits refl) (
      bind_ok {a = d.label} {m = non_empty (within at "label") (some (text d.label))} _
        (rw w.labelled refl)
        (bind_ok _
          (ap (inputs_of at) (member-inputs d) ∙ inputs_of-inputs_json at d.inputs w.inputs_fit)
          (bind_ok _ (parse_action-action_json (within at "action") d.action w.method_given) (
            bind_ok _
              (ap (λ o. parse_presentation o (within at "presentation")) (member-presentation d)
                ∙ parse_presentation-presentation_json (within at "presentation") d.presentation
                    w.presented)
              (bind_ok _
                (ap (optional_text (within at "detail")) (member-detail d)
                  ∙ optional_text-opt_text (within at "detail") d.detail)
                (bind_ok _
                  (ap (icon_of (within at "icon")) (member-icon d)
                    ∙ icon_of-opt_text (within at "icon") d.icon w.icon_fits)
                  (bind_ok _
                    (ap (optional_text (within at "group")) (member-group d)
                      ∙ optional_text-opt_text (within at "group") d.group)
                    (bind_ok _
                      (ap (optional_bool (within at "isDefault")) (member-default d)
                        ∙ optional_bool-if_true (within at "isDefault") d.is_default)
                      (bind_ok _
                        (ap (optional_bool (within at "pinned")) (member-pinned d)
                          ∙ optional_bool-if_true (within at "pinned") d.pinned)
                        (λ i. ok (record d {
                          detail = w.detail_filled i;
                          description =
                              (ap if_text (member-description d) ∙ if_text-opt_text d.description)
                                i;
                          group = w.group_trimmed i;
                          is_default = or_else-when_true d.is_default i;
                          pinned = or_else-when_true d.pinned i;
                          account_id =
                              (ap account_choice (member-account d)
                                  ∙ account_choice-account_json d.account_id)
                                i;
                        })))))))))))
