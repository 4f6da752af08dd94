-- ===== src/Tests/Workflow.antt =====
-- A workflow of two stages, as packages/kernel/agent_workflow_kernel/validation.py checks it.
use agent_workflow_kernel.Prelude.{◌≡◌, refl, ◌↔◌, none, some, [], ◌∷◌, exists}
use agent_workflow_kernel.Json.{
  num, str, arr, nil, cons, Fields, end, field, strings, object, entries,
}
use agent_workflow_kernel.Contracts.Stages.{agent_work, human_gate, stage_type_value}
use agent_workflow_kernel.Contracts.Workflow.{Transition, StageDef, WorkflowDef}
use agent_workflow_kernel.Workflow.Validation.{
  valid, invalid, transition_duplicate, lease_seconds_invalid, validate_workflow_def,
  validate_workflow_mapping, validate_stages, validate_stage, has_required, validate_outcomes,
  validate_optional_lease, validate_transitions, validate_transition, outcomes_of,
}
use agent_workflow_kernel.Json.{field_of}
use agent_workflow_kernel.Contracts.Stages.{stage_type_of}
use agent_workflow_kernel.Workflow.Validation.Guards.{is_allowed_guard, is_terminal_status}
use agent_workflow_kernel.Workflow.Validation.Spec.{IsWorkflow}
use agent_workflow_kernel.Workflow.Validation.Complete.{validate_workflow_def-IsWorkflow}
use agent_workflow_kernel.Workflow.Dsl.{
  Builtins, raised, bad_type, bad_value, checked, workflow_from_canonical_mapping,
  canonical_snapshot, read, workflow_from_mapping, authored_workflow_from, transition_from_mapping,
  stage_from_mapping, stage_from, authored_transition_from, prompt_ref_from_mapping, optional_int,
  optional_text, traverse,
}
use agent_workflow_kernel.Workflow.Dsl.Restored.{
  IsRestorable, canonical_workflow, workflow_from_canonical_mapping-snapshot,
  workflow_from_mapping-IsWorkflow,
}

abbrev pub draft : StageDef
draft = record {
  id = "draft";
  type = agent_work;
  adapter = "codex_cli";
  outcomes = "ready" ∷ "needs_revision" ∷ [];
  actors = end;
  inputs = end;
  outputs = end;
  prompt_refs = [];
  no_prompt_reason = none;
  policy = end;
  budget = end;
  retry = end;
  lease = field "seconds" (num 600) end;
  timeout_seconds = none;
  surface = end;
}

abbrev pub review : StageDef
review = record draft {
  id = "review";
  type = human_gate;
  adapter = "ivy";
  outcomes = "approved" ∷ "refine" ∷ [];
  lease = end;
  budget = field "max_revisions" (num 2) (field "max_attempts" (num 3) end);
}

abbrev pub to_review : Transition
to_review = record {
  from_stage = "draft";
  on = "ready";
  to_stage = some "review";
  terminal = none;
  guard = none;
  label = none;
}

abbrev pub to_draft : Transition
to_draft = record to_review {
  from_stage = "review";
  on = "refine";
  to_stage = some "draft";
  guard = some "within_revision_budget";
}

abbrev pub to_done : Transition
to_done = record to_review {
  from_stage = "review";
  on = "approved";
  to_stage = none;
  terminal = some "done";
  guard = some "policy_approved";
}

abbrev pub drafting : WorkflowDef
drafting = record {
  id = "drafting";
  version = "1";
  name = "Drafting";
  stages = draft ∷ review ∷ [];
  transitions = to_review ∷ to_draft ∷ to_done ∷ [];
  schema = "workflow.kernel.v1";
  owner = none;
  description = none;
  inputs = end;
  defaults = end;
  actors = end;
  artifacts = end;
  policies = end;
  compatibility = end;
}

-- It passes; one outcome with two transitions and a lease of no seconds do not.
pub drafting_checked :
    (validate_workflow_def drafting ≡ valid tt)
    × (validate_workflow_def (record drafting { transitions = to_done ∷ to_review ∷ to_done ∷ [] })
        ≡ invalid transition_duplicate)
    × (validate_workflow_def
          (record drafting { stages = record draft { lease = field "seconds" (num 0) end } ∷ [] })
        ≡ invalid lease_seconds_invalid)
unfolding validate_workflow_def validate_workflow_mapping validate_stages validate_stage
    has_required validate_outcomes validate_optional_lease validate_transitions validate_transition
    outcomes_of exists field_of stage_type_of stage_type_value is_allowed_guard is_terminal_status
drafting_checked = (refl, refl, refl)

validate_workflow_def-IsWorkflow_example :
    (validate_workflow_def drafting ≡ valid tt) ↔ IsWorkflow drafting
validate_workflow_def-IsWorkflow_example = validate_workflow_def-IsWorkflow drafting

abbrev builtins : Builtins
builtins = record {
  text_of = λ _. "";
  int_of = λ _. raised bad_value;
  dict_of = λ _. raised bad_type;
  iterate = λ _. raised bad_type;
}

drafting-IsRestorable : IsRestorable drafting
drafting-IsRestorable = record {
  schema = refl;
  owner = tt;
  description = tt;
  stages = ((tt, tt), ((tt, tt), tt));
  transitions =
      ((refl, (tt, (tt, tt))), ((refl, (tt, (refl, tt))), ((tt, (refl, (refl, tt))), tt)));
}

workflow_from_canonical_mapping-snapshot_example :
    workflow_from_canonical_mapping builtins (canonical_snapshot drafting)
    ≡ checked builtins
        (canonical_workflow drafting)
        (validate_workflow_def (canonical_workflow drafting))
workflow_from_canonical_mapping-snapshot_example =
    workflow_from_canonical_mapping-snapshot builtins drafting drafting-IsRestorable

-- A workflow file with one gate, and its definition.
abbrev signing_mapping : Fields
signing_mapping = entries (
    ("schema", str "workflow.kernel.v1")
    ∷ (
      "workflow",
      object (("id", str "signing") ∷ ("version", str "1") ∷ ("name", str "Signing") ∷ []),
    )
    ∷ ("inputs", object [])
    ∷ (
      "stages",
      arr (
          cons
            (object (
              ("id", str "review")
              ∷ ("type", str "human_gate")
              ∷ ("adapter", str "ivy")
              ∷ ("outcomes", arr (strings ("approved" ∷ [])))
              ∷ []))
            nil),
    )
    ∷ (
      "transitions",
      arr (
          cons
            (object
              (("from", str "review") ∷ ("on", str "approved") ∷ ("terminal", str "done") ∷ []))
            nil),
    )
    ∷ [])

abbrev signing : WorkflowDef
signing = record drafting {
  id = "signing";
  name = "Signing";
  stages = record review { outcomes = "approved" ∷ []; budget = end } ∷ [];
  transitions = record to_done { guard = none } ∷ [];
}

signing-read : workflow_from_mapping builtins signing_mapping ≡ read signing
unfolding workflow_from_mapping authored_workflow_from transition_from_mapping stage_from_mapping
    stage_from authored_transition_from prompt_ref_from_mapping optional_int optional_text traverse
    validate_workflow_def validate_workflow_mapping validate_stages validate_stage has_required
    validate_outcomes validate_optional_lease validate_transitions validate_transition outcomes_of
    exists field_of stage_type_of stage_type_value is_allowed_guard is_terminal_status
signing-read = refl

workflow_from_mapping-IsWorkflow_example : IsWorkflow signing
workflow_from_mapping-IsWorkflow_example =
    workflow_from_mapping-IsWorkflow builtins signing_mapping signing signing-read
