-- ===== src/Ledger/Discovery.antt =====
-- packages/kernel/agent_workflow_kernel/storage.py: `find_next_workflow_instance_for_work`, and
-- `terminalize_blocked_current_stages`.
use Prim.Native.String.{compare}
use text.Mathlib.Text.{is_lt}
use agent_workflow_kernel.Prelude.{
  ℕ, String, Bool, true, false, not, ◌&&◌, ◌||◌, Option, none, some, List, ◌∷◌, [], ◌==◌, ltb, eqb,
  column_is, select, order_by, limit_one, coalesce, if◌then◌else◌,
}
use agent_workflow_kernel.Json.{Json, null, str, opt_str, object}
use agent_workflow_kernel.Contracts.StageStatus.{
  StageRunStatus, is_queued, is_waiting_on_human, status_value,
}
use agent_workflow_kernel.Contracts.InstanceStatus.{workflow_status_value}
use agent_workflow_kernel.Contracts.Failure.{FailureClass, failure_value}
use agent_workflow_kernel.Ledger.Inserts.{WorkflowInstance, workflow_instance_from_row}
use agent_workflow_kernel.Ledger.Rows.{InstanceRow, StageRunRow, EventRow}
use agent_workflow_kernel.Ledger.State.{
  Ledger, ok, ◌>>=◌, Body, instance_row, append_event, update_instance,
}
use agent_workflow_kernel.Ledger.Claim.{due_at, created_before}
use agent_workflow_kernel.Ledger.Sweep.{is_settled, mark_blocked}

pub record WorkQuery : Type 0 where
  pub workflow_def_id : Option String
  pub workflow_version : Option String
  pub include_waiting_human : Bool
  pub prefer_waiting_human : Bool
  pub now : ℕ

abbrev pub matches_filter : Option String → String → Bool
matches_filter none v = true
matches_filter (some w) v = v == w

abbrev pub instance_matches : WorkQuery → Option InstanceRow → Bool
instance_matches q none = false
instance_matches q (some i) =
    matches_filter q.workflow_def_id i.workflow_def_id
    && matches_filter q.workflow_version i.workflow_version

-- The instance of the first run of a join: `instance_id` is the key of the instances.
abbrev pub instance_of : Option StageRunRow → Ledger → Option InstanceRow
instance_of none s = none
instance_of (some r) s = instance_row r.instance_id s

abbrev pub updated_before : StageRunRow → StageRunRow → Bool
updated_before a b =
    ltb a.updated_at b.updated_at
    || (eqb a.updated_at b.updated_at && is_lt (compare a.stage_run_id b.stage_run_id))

abbrev pub waiting_joined : WorkQuery → Ledger → StageRunRow → Bool
waiting_joined q s r =
    is_waiting_on_human r.status && instance_matches q (instance_row r.instance_id s)

abbrev pub queued_joined : WorkQuery → Ledger → StageRunRow → Bool
queued_joined q s r =
    is_queued r.status
    && due_at q.now r.retry_after_at
    && instance_matches q (instance_row r.instance_id s)

unfoldable pub waiting_row : WorkQuery → Ledger → Option InstanceRow
waiting_row q s =
    instance_of (limit_one (order_by updated_before (select (waiting_joined q s) s.runs))) s

unfoldable pub queued_row : WorkQuery → Ledger → Option InstanceRow
queued_row q s =
    instance_of (limit_one (order_by created_before (select (queued_joined q s) s.runs))) s

-- A waiting gate first if it is preferred, then queued work, then a waiting gate if it is included.
unfoldable pub found_row : WorkQuery → Ledger → Option InstanceRow
found_row q s =
    coalesce (if q.include_waiting_human && q.prefer_waiting_human then waiting_row q s else none)
      (coalesce (queued_row q s) (if q.include_waiting_human then waiting_row q s else none))

abbrev pub instance_from : Option InstanceRow → Option WorkflowInstance
instance_from none = none
instance_from (some i) = some (workflow_instance_from_row i)

unfoldable pub find_next_workflow_instance_for_work : WorkQuery → Ledger → Option WorkflowInstance
find_next_workflow_instance_for_work q s = instance_from (found_row q s)

-- `blocked_stage_statuses`
abbrev pub is_dead_end : StageRunStatus → Bool
is_dead_end StageRunStatus.blocked = true
is_dead_end StageRunStatus.failed = true
is_dead_end StageRunStatus.invalid_output = true
is_dead_end StageRunStatus.timed_out = true
is_dead_end StageRunStatus.approval_denied = true
is_dead_end _ = false

abbrev pub is_limbo : StageRunRow → Option InstanceRow → Bool
is_limbo r none = false
is_limbo r (some i) =
    column_is i.current_stage_id r.stage_id && not (is_settled i.status) && is_dead_end r.status

abbrev opt_failure : Option FailureClass → Json
opt_failure none = null
opt_failure (some f) = str (failure_value f)

pub limbo_event : ℕ → String → StageRunRow → InstanceRow → EventRow
limbo_event at actor r i = record {
  instance_id = i.instance_id;
  stage_run_id = some r.stage_run_id;
  event_type = "workflow_blocked";
  actor = actor;
  payload = object (
      ("stage_id", opt_str i.current_stage_id)
      ∷ ("stage_run_id", str r.stage_run_id)
      ∷ ("previous_status", str (workflow_status_value i.status))
      ∷ ("stage_status", str (status_value r.status))
      ∷ ("reason", opt_str r.failure_summary)
      ∷ ("failure_class", opt_failure r.failure_class)
      ∷ ("source", str "blocked_current_stage_reconcile")
      ∷ []);
  created_at = at;
}

-- The join, made before the first write: each dead end with the instance whose stage it is.
unfoldable pub limbo_rows : Ledger → List StageRunRow → List (StageRunRow × InstanceRow)
limbo_rows s [] = []
limbo_rows s (r ∷ rs) =
    let rest = limbo_rows s rs in
    elim (instance_row r.instance_id s) [ none ↦ rest | some i ↦ (r, i) ∷ rest ]

unfoldable pub terminalize_rows : ℕ → String → List (StageRunRow × InstanceRow) → Body (List String)
terminalize_rows at actor [] s = ok ([], s)
terminalize_rows at actor ((r, i) ∷ rest) s = do
  s1 ← append_event (limbo_event at actor r i) (update_instance i.instance_id (mark_blocked at) s)
  (repaired, s2) ← terminalize_rows at actor rest s1
  ok (i.instance_id ∷ repaired, s2)

unfoldable pub terminalize_blocked_current_stages : ℕ → String → Body (List String)
terminalize_blocked_current_stages at actor s =
    terminalize_rows at actor
      (limbo_rows s
        (order_by updated_before (select (λ r. is_limbo r (instance_row r.instance_id s)) s.runs)))
      s
