-- ===== src/Tests/Lease.antt =====
-- The leases of a draft and of a review whose actor has one.
use agent_workflow_kernel.Prelude.{◌≡◌, ◌≤◌, ◌↔◌, refl, none, some}
use agent_workflow_kernel.Json.{pos, num, str, obj, end, field, field_of}
use agent_workflow_kernel.Contracts.Workflow.{StageDef, WorkflowDef}
use agent_workflow_kernel.Ledger.State.{ok, err, bad_value}
use agent_workflow_kernel.Kernel.Lease.{
  lease_policy, resolve_stage_lease_policy, lease_seconds_from_mapping, to_positive_int, actor_name,
  after_prefix, actor_config_for_stage,
}
use agent_workflow_kernel.Kernel.Lease.Precedence.{Gives, resolve_stage_lease_policy_iff}
use agent_workflow_kernel.Tests.Workflow.{draft, review, drafting}
use agent_workflow_kernel.Tests.Kernel.{python}

abbrev with_actor : StageDef
with_actor = record review { actors = field "owner" (str "actors.ivy") end }

abbrev staffed : WorkflowDef
staffed = record drafting {
  actors = field "ivy" (obj (field "lease" (obj (field "seconds" (num 90) end)) end)) end;
  defaults = field "lease" (obj (field "seconds" (num 45) end)) end;
}

-- The runner comes first, then the stage, its actor, the defaults and the runtime. A runner that gives
-- no seconds is refused.
leases_resolved :
    (resolve_stage_lease_policy python staffed draft (pos 30) (some (pos 7))
      ≡ ok (lease_policy python draft 7 "runner_override" "WorkflowKernel.run_once.lease_seconds"))
    × (resolve_stage_lease_policy python staffed with_actor (pos 30) none
        ≡ ok (lease_policy python with_actor 90 "actor" "actors.ivy.lease"))
    × (resolve_stage_lease_policy python staffed review (pos 30) none
        ≡ ok (lease_policy python review 45 "workflow_default" "defaults.lease"))
    × (resolve_stage_lease_policy python drafting review (pos 30) none
        ≡ ok (
            lease_policy python review 30 "runtime_default"
              "KernelRuntimeConfig.default_lease_seconds"))
    × (resolve_stage_lease_policy python staffed draft (pos 30) (some (pos 0)) ≡ err bad_value)
unfolding resolve_stage_lease_policy lease_seconds_from_mapping to_positive_int actor_name
    after_prefix actor_config_for_stage field_of
leases_resolved = (refl, refl, refl, refl, refl)

resolve_stage_lease_policy_iff_example :
    (resolve_stage_lease_policy python staffed draft (pos 30) none
      ≡ ok (lease_policy python draft 600 "stage" "stages.draft.lease"))
    ↔ (Gives python staffed draft
          (pos 30)
          none
          (lease_policy python draft 600 "stage" "stages.draft.lease")
        × (1 ≤ 600))
resolve_stage_lease_policy_iff_example =
    resolve_stage_lease_policy_iff python staffed draft (pos 30) none
      (lease_policy python draft 600 "stage" "stages.draft.lease")
