-- ===== src/Workflow/Validation/Sound.antt =====
-- What `validate_workflow_def` of packages/kernel/agent_workflow_kernel/validation.py lets through.
use agent_workflow_kernel.Prelude.{◌≡◌, subst, ◌&&◌, [], arith, map}
use agent_workflow_kernel.Json.{str, field_of, elements, is_truthy}
use agent_workflow_kernel.Contracts.Workflow.{WorkflowDef}
use agent_workflow_kernel.Workflow.Plain.{items, elements-items}
use agent_workflow_kernel.Workflow.Validation.{
  valid, raw_stage, raw_transition, validate_stages, validate_transitions, validate_workflow_def,
  validate_workflow_mapping, missing_workflow_field, outcomes_of,
}
use agent_workflow_kernel.Workflow.Validation.Spec.{IsWorkflow}
use agent_workflow_kernel.Workflow.Validation.Names.{bind-valid, passes}
use agent_workflow_kernel.Workflow.Validation.Stages.{validate_stages-valid}
use agent_workflow_kernel.Workflow.Validation.Transitions.{validate_transitions-valid}

-- A workflow definition that is let through is a workflow.
pub validate_workflow_def_sound :
    (w : WorkflowDef) → validate_workflow_def w ≡ valid tt → IsWorkflow w
unfolding validate_workflow_def validate_workflow_mapping field_of outcomes_of
validate_workflow_def_sound w h =
    let (headed, h1) =
      passes (is_truthy (str w.id) && is_truthy (str w.version) && is_truthy (str w.name))
        missing_workflow_field _ tt h in
    let (table, staged, h2) =
      bind-valid (validate_stages (elements (items (map raw_stage w.stages))) []) _ tt h1 in
    let (stages, stages_unique, _, found) = validate_stages-valid w.stages [] table (
      subst (λ xs. validate_stages xs [] ≡ valid table) (elements-items (map raw_stage w.stages))
        staged) in
    let (transitions, deterministic, _) =
      validate_transitions-valid table w.stages found w.transitions [] tt (
        subst (λ xs. validate_transitions table xs [] ≡ valid tt)
          (elements-items (map raw_transition w.transitions)) h2) in
    record {
      id_named = ground arith;
      version_named = ground arith;
      name_named = ground arith;
      stages = stages;
      stages_unique = stages_unique;
      transitions = transitions;
      deterministic = deterministic;
    }
