-- ===== src/Workflow/Dsl.antt =====
-- packages/kernel/agent_workflow_kernel/dsl.py: `workflow_from_mapping`, which makes a definition of
-- what a workflow file says, and `workflow_from_canonical_mapping`, which restores one from its canonical
-- snapshot. The snapshot is the value of
-- `workflow_to_canonical_json`, the keys of every mapping sorted; that json.loads gives back the value
-- of which json.dumps made a text is taken for granted.
pub mod Restored
use agent_workflow_kernel.Prelude.{
  String, Bool, true, Option, none, some, List, [], ◌∷◌, map, ◌==◌, if◌then◌else◌,
}
use agent_workflow_kernel.Json.{
  Json, num, negative, str, arr, obj, Fields, end, field_of, or_null, elements, entries, is_blank,
  is_truthy, ℤ, pos, negsuc,
}
use agent_workflow_kernel.Policy.Fingerprint.{canonical}
use agent_workflow_kernel.Contracts.Stages.{StageType, stage_type_of}
use agent_workflow_kernel.Contracts.Workflow.{PromptRef, Transition, StageDef, WorkflowDef}
use agent_workflow_kernel.Workflow.Plain.{plain_workflow}
use agent_workflow_kernel.Workflow.Validation.{
  Violation, Checked, valid, invalid, validate_workflow_mapping, validate_workflow_def,
}

-- KeyError, ValueError, TypeError and WorkflowValidationError.
pub data Fault : Type 0 where
  missing_key bad_value bad_type : Fault
  refused : Violation → Fault

pub data Read {ℓ} (A : Type ℓ) : Type ℓ where
  read : A → Read A
  raised : Fault → Read A

infixl 5 ◌>>=◌
abbrev pub ◌>>=◌ {ℓ κ} : {A : Type ℓ} {B : Type κ} → Read A → (A → Read B) → Read B
read a >>= f = f a
raised e >>= f = raised e

-- Python's `str`, `int`, `dict` and iteration, of the values that are not already such.
pub record Builtins : Type 0 where
  pub text_of : Json → String
  pub int_of : Json → Read ℤ
  pub dict_of : Json → Read Fields
  pub iterate : Json → Read (List Json)

-- `data.get` of a mapping.
abbrev pub Lookup : Type 0
Lookup = String → Option Json

-- `_require_mapping`
abbrev pub require_mapping : Json → Read Lookup
require_mapping (obj fs) = read (λ k. field_of k fs)
require_mapping _ = raised bad_type

abbrev pub value_or_fault : Option Json → Read Json
value_or_fault none = raised missing_key
value_or_fault (some v) = read v

-- `data[key]`
abbrev pub required : Lookup → String → Read Json
required look k = value_or_fault (look k)

abbrev pub stage_type : Option StageType → Read StageType
stage_type none = raised bad_value
stage_type (some t) = read t

-- `StageType(value)`
abbrev pub type_from : Json → Read StageType
type_from (str s) = stage_type (stage_type_of s)
type_from _ = raised bad_value

unfoldable pub traverse {ℓ} : {A : Type ℓ} → (Json → Read A) → List Json → Read (List A)
traverse f [] = read []
traverse f (v ∷ vs) = do a ← f v; rest ← traverse f vs; read (a ∷ rest)

module _ (python : Builtins) where
  abbrev pub text : Json → String
  text (str s) = s
  text v = python.text_of v

  -- `_optional_str`
  unfoldable pub optional_text : Json → Option String
  optional_text v = if is_blank v then none else some (text v)

  abbrev pub some_int : Read ℤ → Read (Option ℤ)
  some_int (read i) = read (some i)
  some_int (raised e) = raised e

  -- `_optional_int`
  unfoldable pub optional_int : Json → Read (Option ℤ)
  optional_int (num n) = read (some (pos n))
  optional_int (negative n) = read (some (negsuc n))
  optional_int v = if is_blank v then read none else some_int (python.int_of v)

  -- `dict(value or {})`
  abbrev pub dict_or_empty : Option Json → Read Fields
  dict_or_empty none = read end
  dict_or_empty (some (obj fs)) = read fs
  dict_or_empty (some v) = if is_truthy v then python.dict_of v else read end

  abbrev pub sequence : Json → Read (List Json)
  sequence (arr vs) = read (elements vs)
  sequence v = python.iterate v

  -- `value or ()`
  abbrev pub sequence_or_empty : Option Json → Read (List Json)
  sequence_or_empty none = read []
  sequence_or_empty (some v) = if is_truthy v then sequence v else read []

  abbrev pub text_or : String → Option Json → String
  text_or other none = other
  text_or other (some v) = text v

  abbrev pub truth_or : Bool → Option Json → Bool
  truth_or other none = other
  truth_or other (some v) = is_truthy v

  -- `str(data.get(key) or other)`
  abbrev pub truthy_text_or : String → Option Json → String
  truthy_text_or other none = other
  truthy_text_or other (some v) = if is_truthy v then text v else other

  -- `_prompt_ref_from_mapping`
  unfoldable pub prompt_ref_from_mapping : Json → Read PromptRef
  prompt_ref_from_mapping v = do
    look ← require_mapping v
    id ← required look "id"
    kind ← required look "kind"
    version ← required look "version"
    read (record {
      id = text id;
      kind = text kind;
      version = text version;
      registry = text_or "local" (look "registry");
      render_mode = text_or "markdown" (look "render_mode");
      required = truth_or true (look "required");
      content_hash = optional_text (or_null (look "content_hash"));
    })

  -- `_stage_from_mapping`, by the lookup in its mapping
  unfoldable pub stage_from : Lookup → Read StageDef
  stage_from look = do
    id ← required look "id"
    raw_type ← required look "type"
    t ← type_from raw_type
    adapter ← required look "adapter"
    raw_outcomes ← required look "outcomes"
    outcomes ← sequence raw_outcomes
    actors ← dict_or_empty (look "actors")
    inputs ← dict_or_empty (look "inputs")
    outputs ← dict_or_empty (look "outputs")
    raw_refs ← sequence_or_empty (look "prompt_refs")
    prompt_refs ← traverse prompt_ref_from_mapping raw_refs
    policy ← dict_or_empty (look "policy")
    budget ← dict_or_empty (look "budget")
    retry ← dict_or_empty (look "retry")
    lease ← dict_or_empty (look "lease")
    timeout ← optional_int (or_null (look "timeout_seconds"))
    surface ← dict_or_empty (look "surface")
    read (record {
      id = text id;
      type = t;
      adapter = text adapter;
      outcomes = map text outcomes;
      actors = actors;
      inputs = inputs;
      outputs = outputs;
      prompt_refs = prompt_refs;
      no_prompt_reason = optional_text (or_null (look "no_prompt_reason"));
      policy = policy;
      budget = budget;
      retry = retry;
      lease = lease;
      timeout_seconds = timeout;
      surface = surface;
    })

  unfoldable pub stage_from_mapping : Json → Read StageDef
  stage_from_mapping v = require_mapping v >>= stage_from

  -- `_canonical_transition_from_mapping`, by the lookup in its mapping
  unfoldable pub transition_from : Lookup → Read Transition
  transition_from look = do
    from_stage ← required look "from_stage"
    on ← required look "on"
    read (record {
      from_stage = text from_stage;
      on = text on;
      to_stage = optional_text (or_null (look "to_stage"));
      terminal = optional_text (or_null (look "terminal"));
      guard = optional_text (or_null (look "guard"));
      label = optional_text (or_null (look "label"));
    })

  unfoldable pub canonical_transition_from_mapping : Json → Read Transition
  canonical_transition_from_mapping v = require_mapping v >>= transition_from

  unfoldable pub workflow_from : Lookup → Read WorkflowDef
  workflow_from look = do
    id ← required look "id"
    version ← required look "version"
    name ← required look "name"
    raw_stages ← required look "stages"
    stage_values ← sequence raw_stages
    stages ← traverse stage_from_mapping stage_values
    raw_transitions ← required look "transitions"
    transition_values ← sequence raw_transitions
    transitions ← traverse canonical_transition_from_mapping transition_values
    inputs ← dict_or_empty (look "inputs")
    defaults ← dict_or_empty (look "defaults")
    actors ← dict_or_empty (look "actors")
    artifacts ← dict_or_empty (look "artifacts")
    policies ← dict_or_empty (look "policies")
    compatibility ← dict_or_empty (look "compatibility")
    read (record {
      id = text id;
      version = text version;
      name = text name;
      stages = stages;
      transitions = transitions;
      schema = truthy_text_or "workflow.kernel.v1" (look "schema");
      owner = optional_text (or_null (look "owner"));
      description = optional_text (or_null (look "description"));
      inputs = inputs;
      defaults = defaults;
      actors = actors;
      artifacts = artifacts;
      policies = policies;
      compatibility = compatibility;
    })

  abbrev pub checked : WorkflowDef → Checked (Unit {0}) → Read WorkflowDef
  checked w (valid _) = read w
  checked w (invalid e) = raised (refused e)

  unfoldable pub workflow_from_canonical_mapping : Json → Read WorkflowDef
  workflow_from_canonical_mapping data_map = do
    look ← require_mapping data_map
    w ← workflow_from look
    checked w (validate_workflow_def w)

  -- `_transition_from_mapping`, by the lookup in its mapping
  unfoldable pub authored_transition_from : Lookup → Read Transition
  authored_transition_from look = do
    from_stage ← required look "from"
    on ← required look "on"
    read (record {
      from_stage = text from_stage;
      on = text on;
      to_stage = optional_text (or_null (look "to"));
      terminal = optional_text (or_null (look "terminal"));
      guard = optional_text (or_null (look "guard"));
      label = optional_text (or_null (look "label"));
    })

  unfoldable pub transition_from_mapping : Json → Read Transition
  transition_from_mapping v = require_mapping v >>= authored_transition_from

  -- The definition that `workflow_from_mapping` makes, by the lookups in the mapping and in its
  -- `workflow` section.
  unfoldable pub authored_workflow_from : Lookup → Lookup → Read WorkflowDef
  authored_workflow_from look info = do
    id ← required info "id"
    version ← required info "version"
    name ← required info "name"
    raw_stages ← required look "stages"
    stage_values ← sequence raw_stages
    stages ← traverse stage_from_mapping stage_values
    raw_transitions ← required look "transitions"
    transition_values ← sequence raw_transitions
    transitions ← traverse transition_from_mapping transition_values
    schema ← required look "schema"
    inputs ← dict_or_empty (look "inputs")
    defaults ← dict_or_empty (look "defaults")
    actors ← dict_or_empty (look "actors")
    artifacts ← dict_or_empty (look "artifacts")
    policies ← dict_or_empty (look "policies")
    compatibility ← dict_or_empty (look "compatibility")
    read (record {
      id = text id;
      version = text version;
      name = text name;
      stages = stages;
      transitions = transitions;
      schema = text schema;
      owner = optional_text (or_null (info "owner"));
      description = optional_text (or_null (info "description"));
      inputs = inputs;
      defaults = defaults;
      actors = actors;
      artifacts = artifacts;
      policies = policies;
      compatibility = compatibility;
    })

  abbrev pub accepted : Checked (Unit {0}) → Read (Unit {0})
  accepted (valid u) = read u
  accepted (invalid e) = raised (refused e)

  unfoldable pub workflow_from_mapping : Fields → Read WorkflowDef
  workflow_from_mapping m = do
    _ ← accepted (validate_workflow_mapping m)
    raw_info ← required (λ k. field_of k m) "workflow"
    info ← require_mapping raw_info
    w ← authored_workflow_from (λ k. field_of k m) info
    checked w (validate_workflow_def w)

-- The value of `workflow_to_canonical_json`.
unfoldable pub canonical_snapshot : WorkflowDef → Json
canonical_snapshot w = canonical (obj (entries (plain_workflow w)))
