-- ===== src/Contracts/Stages.antt =====
-- packages/kernel/agent_workflow_kernel/contracts.py: StageType and AdapterFamily, with their texts.
use agent_workflow_kernel.Prelude.{String, ◌≡◌, refl, Option, none, some, ◌==◌, if◌then◌else◌}

pub data StageType : Type 0 where
  agent_work agent_gate a2a_review_loop human_gate : StageType
  system_action wait_schedule recovery blocked : StageType

unfoldable pub stage_type_value : StageType → String
stage_type_value agent_work = "agent_work"
stage_type_value agent_gate = "agent_gate"
stage_type_value a2a_review_loop = "a2a_review_loop"
stage_type_value human_gate = "human_gate"
stage_type_value system_action = "system_action"
stage_type_value wait_schedule = "wait_schedule"
stage_type_value recovery = "recovery"
stage_type_value blocked = "blocked"

-- `StageType(value)` of a text; none is its ValueError.
unfoldable pub stage_type_of : String → Option StageType
stage_type_of s =
    if s == "agent_work"
    then some agent_work
    else if s == "agent_gate"
    then some agent_gate
    else if s == "a2a_review_loop"
    then some a2a_review_loop
    else if s == "human_gate"
    then some human_gate
    else if s == "system_action"
    then some system_action
    else if s == "wait_schedule"
    then some wait_schedule
    else if s == "recovery"
    then some recovery
    else if s == "blocked"
    then some blocked
    else none

pub stage_type_of-stage_type_value : (t : StageType) → stage_type_of (stage_type_value t) ≡ some t
unfolding stage_type_of stage_type_value
stage_type_of-stage_type_value agent_work = refl
stage_type_of-stage_type_value agent_gate = refl
stage_type_of-stage_type_value a2a_review_loop = refl
stage_type_of-stage_type_value human_gate = refl
stage_type_of-stage_type_value system_action = refl
stage_type_of-stage_type_value wait_schedule = refl
stage_type_of-stage_type_value recovery = refl
stage_type_of-stage_type_value blocked = refl

pub data AdapterFamily : Type 0 where
  runtime surface host lane : AdapterFamily
