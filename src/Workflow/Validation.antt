-- ===== src/Workflow/Validation.antt =====
-- packages/kernel/agent_workflow_kernel/validation.py: `validate_workflow_mapping`, on the mapping that
-- the workflow file is read as, and `validate_workflow_def`. Of a WorkflowValidationError the kind is
-- kept; its text, with the place of the fault, is left out.
pub mod Guards
pub mod Spec
pub mod Names
pub mod Stages
pub mod Transitions
pub mod Sound
pub mod Passes
pub mod Complete
use agent_workflow_kernel.Prelude.{
  ℕ, suc, String, ◌≡◌, refl, Bool, true, false, not, ◌&&◌, ◌||◌, Option, none, some, List, [], ◌∷◌,
  ◌++◌, ◌==◌, eqb, exists, map, is_some, if◌then◌else◌,
}
use agent_workflow_kernel.Json.{
  Json, null, num, str, arr, obj, Items, nil, cons, Fields, end, field, field_of, get, elements,
  keys, is_blank, is_truthy, strings, entries,
}
use agent_workflow_kernel.Contracts.Stages.{StageType, stage_type_of, stage_type_value}
use agent_workflow_kernel.Contracts.Workflow.{Transition, StageDef, WorkflowDef}
use agent_workflow_kernel.Workflow.Plain.{items}
use agent_workflow_kernel.Workflow.Validation.Guards.{is_allowed_guard, is_terminal_status}

pub data Violation : Type 0 where
  missing_section missing_workflow_field missing_stage_field : Violation
  not_mapping not_sequence not_text : Violation
  lease_field_unknown lease_seconds_missing lease_seconds_invalid : Violation
  stage_duplicate stage_type_unknown outcomes_empty outcome_duplicate : Violation
  transition_duplicate from_unknown outcome_undeclared to_or_terminal : Violation
  guard_unknown target_unknown terminal_unknown : Violation

pub data Checked {ℓ} (A : Type ℓ) : Type ℓ where
  valid : A → Checked A
  invalid : Violation → Checked A

infixl 5 ◌>>=◌
abbrev pub ◌>>=◌ {ℓ κ} : {A : Type ℓ} {B : Type κ} → Checked A → (A → Checked B) → Checked B
valid a >>= f = f a
invalid e >>= f = invalid e

abbrev pub ensure : Bool → Violation → Checked (Unit {0})
ensure true e = valid tt
ensure false e = invalid e

abbrev pub require_mapping : Json → Checked Fields
require_mapping (obj fs) = valid fs
require_mapping _ = invalid not_mapping

abbrev pub require_sequence : Json → Checked (List Json)
require_sequence (arr xs) = valid (elements xs)
require_sequence _ = invalid not_sequence

-- `_require_str`
abbrev pub require_text : Json → Checked String
require_text (str s) = if s == "" then invalid not_text else valid s
require_text _ = invalid not_text

-- `isinstance(seconds, int) and not isinstance(seconds, bool) and seconds > 0`
abbrev pub is_positive_int : Json → Bool
is_positive_int (num n) = not (eqb n 0)
is_positive_int _ = false

abbrev pub check_seconds : Option Json → Checked (Unit {0})
check_seconds none = invalid lease_seconds_missing
check_seconds (some v) = ensure (is_positive_int v) lease_seconds_invalid

-- `_validate_optional_lease`
unfoldable pub validate_optional_lease : Json → Checked (Unit {0})
validate_optional_lease v =
    let checked = do
      lease ← require_mapping v
      _ ← ensure (not (exists (λ k. not (k == "seconds")) (keys lease))) lease_field_unknown
      check_seconds (field_of "seconds" lease)
    in if is_blank v then valid tt else checked

-- The names of a stage's outcomes, in which none stands twice.
unfoldable pub validate_outcomes : List Json → List String → Checked (List String)
validate_outcomes [] seen = valid []
validate_outcomes (o ∷ os) seen = do
  name ← require_text o
  _ ← ensure (not (exists (λ x. x == name) seen)) outcome_duplicate
  rest ← validate_outcomes os (name ∷ seen)
  valid (name ∷ rest)

abbrev pub has_items : List Json → Bool
has_items [] = false
has_items (_ ∷ _) = true

abbrev pub check_type : Json → Checked (Unit {0})
check_type (str s) = ensure (is_some (stage_type_of s)) stage_type_unknown
check_type _ = invalid stage_type_unknown

abbrev pub check_platform : Json → Checked (Unit {0})
check_platform null = valid tt
check_platform (obj policy) =
    let platform = get "required_platform" policy in
    if is_blank platform then valid tt else (require_text platform >>= λ _. valid tt)
check_platform _ = invalid not_mapping

-- The outcomes by the stages that are checked so far, whose keys are `stage_ids`.
abbrev pub OutcomesByStage : Type 0
OutcomesByStage = List (String × List String)

unfoldable pub outcomes_of : String → OutcomesByStage → Option (List String)
outcomes_of k [] = none
outcomes_of k ((l, os) ∷ rest) = let below = outcomes_of k rest in if l == k then some os else below

abbrev pub has_stage : String → OutcomesByStage → Bool
has_stage k t = is_some (outcomes_of k t)

unfoldable pub has_required : Fields → Bool
has_required stage =
    not (is_blank (get "id" stage))
    && not (is_blank (get "type" stage))
    && not (is_blank (get "adapter" stage))
    && not (is_blank (get "outcomes" stage))

unfoldable pub validate_stage : Json → OutcomesByStage → Checked (String × List String)
validate_stage raw seen = do
  stage ← require_mapping raw
  _ ← ensure (has_required stage) missing_stage_field
  id ← require_text (get "id" stage)
  _ ← ensure (not (has_stage id seen)) stage_duplicate
  _ ← check_type (get "type" stage)
  _ ← require_text (get "adapter" stage)
  _ ← validate_optional_lease (get "lease" stage)
  _ ← check_platform (get "policy" stage)
  outcomes ← require_sequence (get "outcomes" stage)
  _ ← ensure (has_items outcomes) outcomes_empty
  names ← validate_outcomes outcomes []
  valid (id, names)

unfoldable pub validate_stages : List Json → OutcomesByStage → Checked OutcomesByStage
validate_stages [] seen = valid seen
validate_stages (raw ∷ raws) seen = do
  stage ← validate_stage raw seen
  validate_stages raws (stage ∷ seen)

abbrev pub declares : String → Option (List String) → Bool
declares outcome none = false
declares outcome (some os) = exists (λ o. o == outcome) os

abbrev pub check_guard : Json → Checked (Unit {0})
check_guard v =
    let named = require_text v >>= λ g. ensure (is_allowed_guard g) guard_unknown in
    if is_blank v then valid tt else named

abbrev pub check_end : Json → Json → OutcomesByStage → Checked (Unit {0})
check_end to terminal stages =
    if is_truthy to
    then (require_text to >>= λ s. ensure (has_stage s stages) target_unknown)
    else (require_text terminal >>= λ s. ensure (is_terminal_status s) terminal_unknown)

abbrev pub same_key : String × String → String × String → Bool
same_key (a, b) (c, d) = (a == c) && (b == d)

abbrev pub differ : Bool → Bool → Bool
differ true b = not b
differ false b = b

unfoldable pub validate_transition :
    OutcomesByStage → Json → List (String × String) → Checked (String × String)
validate_transition stages raw seen = do
  t ← require_mapping raw
  from_stage ← require_text (get "from" t)
  outcome ← require_text (get "on" t)
  _ ← ensure (not (exists (same_key (from_stage, outcome)) seen)) transition_duplicate
  _ ← ensure (has_stage from_stage stages) from_unknown
  _ ← ensure (declares outcome (outcomes_of from_stage stages)) outcome_undeclared
  _ ← ensure (differ (is_truthy (get "to" t)) (is_truthy (get "terminal" t))) to_or_terminal
  _ ← check_guard (get "guard" t)
  _ ← check_end (get "to" t) (get "terminal" t) stages
  valid (from_stage, outcome)

unfoldable pub validate_transitions :
    OutcomesByStage → List Json → List (String × String) → Checked (Unit {0})
validate_transitions stages [] seen = valid tt
validate_transitions stages (raw ∷ raws) seen = do
  key ← validate_transition stages raw seen
  validate_transitions stages raws (key ∷ seen)

abbrev pub has_section : String → Fields → Bool
has_section k data_map = is_some (field_of k data_map)

abbrev pub check_defaults : Json → Checked (Unit {0})
check_defaults null = valid tt
check_defaults (obj defaults) = validate_optional_lease (get "lease" defaults)
check_defaults _ = invalid not_mapping

-- Only the actors that are mappings are looked at.
unfoldable pub check_actor_leases : Fields → Checked (Unit {0})
check_actor_leases end = valid tt
check_actor_leases (field name (obj actor) rest) =
    validate_optional_lease (get "lease" actor) >>= λ _. check_actor_leases rest
check_actor_leases (field name _ rest) = check_actor_leases rest

abbrev pub check_actors : Json → Checked (Unit {0})
check_actors null = valid tt
check_actors (obj actors) = check_actor_leases actors
check_actors _ = invalid not_mapping

unfoldable pub validate_workflow_mapping : Fields → Checked (Unit {0})
validate_workflow_mapping m = do
  _ ←
      ensure
        (has_section "schema" m
          && has_section "workflow" m
          && has_section "inputs" m
          && has_section "stages" m
          && has_section "transitions" m)
        missing_section
  workflow ← require_mapping (get "workflow" m)
  _ ←
      ensure
        (is_truthy (get "id" workflow)
          && is_truthy (get "version" workflow)
          && is_truthy (get "name" workflow))
        missing_workflow_field
  _ ← require_mapping (get "inputs" m)
  _ ← check_defaults (get "defaults" m)
  _ ← check_actors (get "actors" m)
  stages ← require_sequence (get "stages" m)
  transitions ← require_sequence (get "transitions" m)
  table ← validate_stages stages []
  validate_transitions table transitions []

abbrev pub lease_entry : Fields → Fields
lease_entry end = end
lease_entry lease = field "lease" (obj lease) end

-- The stage and the transition, as `validate_workflow_def` writes them out.
abbrev pub raw_stage_fields : StageDef → Fields
raw_stage_fields s = field "id" (str s.id) (
    field "type" (str (stage_type_value s.type)) (
      field "adapter" (str s.adapter)
        (field "outcomes" (arr (strings s.outcomes)) (lease_entry s.lease))))

abbrev pub raw_stage : StageDef → Json
raw_stage s = obj (raw_stage_fields s)

abbrev pub entry_if : String → Option String → Fields → Fields
entry_if k none rest = rest
entry_if k (some v) rest = if v == "" then rest else field k (str v) rest

abbrev pub raw_end : Transition → Fields
raw_end t = entry_if "to" t.to_stage (entry_if "terminal" t.terminal (entry_if "guard" t.guard end))

abbrev pub raw_transition : Transition → Json
raw_transition t = obj (field "from" (str t.from_stage) (field "on" (str t.on) (raw_end t)))

unfoldable pub validate_workflow_def : WorkflowDef → Checked (Unit {0})
validate_workflow_def w = validate_workflow_mapping (
    entries (
      ("schema", str w.schema)
      ∷ (
        "workflow",
        obj (entries (("id", str w.id) ∷ ("version", str w.version) ∷ ("name", str w.name) ∷ [])),
      )
      ∷ ("inputs", obj w.inputs)
      ∷ ("stages", arr (items (map raw_stage w.stages)))
      ∷ ("transitions", arr (items (map raw_transition w.transitions)))
      ∷ []))
