-- ===== src/Contracts/Failure.antt =====
-- `FailureClass` of packages/kernel/agent_workflow_kernel/contracts.py: the enumeration and its texts.
use agent_workflow_kernel.Prelude.{String, Bool, true, false}

pub data FailureClass : Type 0 where
  runtime_failure adapter_unavailable invalid_output deterministic_test_failure : FailureClass
  human_rejection policy_denial stale_lease missing_dependency domain_blocked : FailureClass
  unknown_side_effect_state : FailureClass

unfoldable pub failure_value : FailureClass → String
failure_value runtime_failure = "runtime_failure"
failure_value adapter_unavailable = "adapter_unavailable"
failure_value invalid_output = "invalid_output"
failure_value deterministic_test_failure = "deterministic_test_failure"
failure_value human_rejection = "human_rejection"
failure_value policy_denial = "policy_denial"
failure_value stale_lease = "stale_lease"
failure_value missing_dependency = "missing_dependency"
failure_value domain_blocked = "domain_blocked"
failure_value unknown_side_effect_state = "unknown_side_effect_state"

abbrev pub is_invalid_output : FailureClass → Bool
is_invalid_output invalid_output = true
is_invalid_output _ = false
