-- ===== src/Contracts/StageStatus.antt =====
-- `StageRunStatus` of packages/kernel/agent_workflow_kernel/contracts.py: the enumeration and its texts.
use agent_workflow_kernel.Prelude.{String, Bool, true, false}

pub data StageRunStatus : Type 0 where
  queued claimed started waiting waiting_on_child waiting_on_human validating succeeded :
      StageRunStatus
  failed invalid_output timed_out blocked approval_required approval_denied superseded :
      StageRunStatus

unfoldable pub status_value : StageRunStatus → String
status_value queued = "queued"
status_value claimed = "claimed"
status_value started = "started"
status_value waiting = "waiting"
status_value waiting_on_child = "waiting_on_child"
status_value waiting_on_human = "waiting_on_human"
status_value validating = "validating"
status_value succeeded = "succeeded"
status_value failed = "failed"
status_value invalid_output = "invalid_output"
status_value timed_out = "timed_out"
status_value blocked = "blocked"
status_value approval_required = "approval_required"
status_value approval_denied = "approval_denied"
status_value superseded = "superseded"

-- The tests of one status: `row["status"] == StageRunStatus.X.value`.
abbrev pub is_queued : StageRunStatus → Bool
is_queued queued = true
is_queued _ = false

abbrev pub is_claimed : StageRunStatus → Bool
is_claimed claimed = true
is_claimed _ = false

abbrev pub is_blocked : StageRunStatus → Bool
is_blocked blocked = true
is_blocked _ = false

abbrev pub is_waiting_on_human : StageRunStatus → Bool
is_waiting_on_human waiting_on_human = true
is_waiting_on_human _ = false
