-- ===== src/Workflow/Validation/Guards.antt =====
-- The transition guards of packages/kernel/agent_workflow_kernel/policy.py and the terminal statuses of
-- validation.py, by their texts.
use agent_workflow_kernel.Prelude.{String, Bool, ◌||◌, ◌==◌}

-- `BUDGET_TRANSITION_GUARDS` of _internal_types.py
abbrev pub is_budget_guard : String → Bool
is_budget_guard g =
    (g == "within_retry_budget")
    || (g == "within_revision_budget")
    || (g == "within_ping_pong_budget")
    || (g == "within_research_iteration_budget")
    || (g == "within_resume_budget")

-- `IMPLEMENTED_TRANSITION_GUARDS`
abbrev pub is_implemented_guard : String → Bool
is_implemented_guard g =
    (g == "policy_approved") || (g == "has_required_artifacts") || is_budget_guard g

-- `FAIL_CLOSED_TRANSITION_GUARDS`
abbrev pub is_fail_closed_guard : String → Bool
is_fail_closed_guard g = g == "lease_not_expired"

-- `ALLOWED_TRANSITION_GUARDS`
unfoldable pub is_allowed_guard : String → Bool
is_allowed_guard g = is_implemented_guard g || is_fail_closed_guard g

-- `ALLOWED_TERMINAL_STATUSES`: the value of every WorkflowStatus.
unfoldable pub is_terminal_status : String → Bool
is_terminal_status s =
    (s == "pending")
    || (s == "running")
    || (s == "waiting_on_agent")
    || (s == "waiting_on_human")
    || (s == "waiting_on_schedule")
    || (s == "retrying")
    || (s == "blocked")
    || (s == "policy_denied")
    || (s == "final_approval_required")
    || (s == "done")
    || (s == "cancelled")
