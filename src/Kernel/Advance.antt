-- ===== src/Kernel/Advance.antt =====
-- packages/kernel/agent_workflow_kernel/kernel.py: `_advance_after_outcome`, with `_queue_stage` and
-- `_block_transition_guard`.
pub mod Kept
pub mod Done
pub mod Spent
pub mod Permits
use Prim.Native.String.{◌++◌ as append}
use agent_workflow_kernel.Prelude.{
  ℕ, String, Bool, true, false, not, Option, none, some, List, [], ◌∷◌, ◌++◌, ◌==◌, exists,
  if◌then◌else◌,
}
use agent_workflow_kernel.Json.{
  Json, str, num, arr, obj, Fields, end, field, field_of, opt_str, strings, entries, object,
}
use agent_workflow_kernel.Contracts.StageStatus.{queued}
use agent_workflow_kernel.Contracts.InstanceStatus.{
  WorkflowStatus, running, blocked, done, policy_denied, waiting_on_schedule,
  final_approval_required, cancelled,
}
use agent_workflow_kernel.Contracts.{StageRun}
use agent_workflow_kernel.Contracts.Workflow.{Transition, StageDef}
use agent_workflow_kernel.Contracts.Results.{Receipt, AdapterResult}
use agent_workflow_kernel.Ledger.Rows.{EventRow}
use agent_workflow_kernel.Ledger.State.{ok, transaction}
use agent_workflow_kernel.Ledger.Inserts.{insert_stage_run, update_workflow_instance, record_event}
use agent_workflow_kernel.Ledger.Receipts.{record_receipt}
use agent_workflow_kernel.Ledger.Retry.{attempt_id, next_stage_attempt}
use agent_workflow_kernel.Workflow.Plain.{plain_stage, plain_transition}
use agent_workflow_kernel.Kernel.{
  Python, digest_data, Kernel, find_transition, next_stage_for_transition,
}
use agent_workflow_kernel.Kernel.Task.{Task, ◌>>=◌, finish, given}
use agent_workflow_kernel.Kernel.Guards.{GuardDecision}
use agent_workflow_kernel.Kernel.Evaluate.{evaluate_transition_guard}

-- `_TransitionResult`
pub data Decided : Type 0 where
  decided_queued : (stage_id : String) → Decided
  decided_terminal : (status : WorkflowStatus) → Decided
  decided_blocked : (summary : String) → Decided

-- `_workflow_status_for_terminal`
unfoldable pub workflow_status_for_terminal : String → WorkflowStatus
workflow_status_for_terminal t =
    if t == "done"
    then done
    else if t == "blocked"
    then blocked
    else if t == "policy_denied"
    then policy_denied
    else if t == "waiting_on_schedule"
    then waiting_on_schedule
    else if t == "final_approval_required"
    then final_approval_required
    else if t == "cancelled"
    then cancelled
    else blocked

-- The call of `update_workflow_instance`.
unfoldable pub update :
    Kernel
    → StageRun
    → WorkflowStatus
    → Option String
    → ℕ
    → String
    → List (String × Json)
    → Task (Unit {0})
update k run status stage now kind payload =
    transaction
      (update_workflow_instance run.instance_id status stage now k.owner_id kind (object payload))

abbrev pub first_actor : Python → Fields → Option String
first_actor python end = none
first_actor python (field _ (str a) _) = some a
first_actor python (field _ v _) = some (python.text_of v)

-- `_actor_ref`
abbrev pub actor_ref : Python → StageDef → Option String
actor_ref python s = first_actor python s.actors

abbrev pub queued_run : Python → StageDef → String → ℕ → StageRun
queued_run python stage i attempt = record {
  stage_run_id = attempt_id i stage.id attempt;
  instance_id = i;
  stage_id = stage.id;
  status = queued;
  attempt = attempt;
  adapter_id = some stage.adapter;
  actor_ref = actor_ref python stage;
  lease_token = none;
  lease_seconds = none;
  lease_source = none;
  lease_source_ref = none;
  receipt_id = none;
  failure_class = none;
  retry_after_at = none;
  idempotency_key = none;
}

-- `_queue_stage`
unfoldable pub queue_stage :
    Python → StageDef → String → ℕ → List (String × Json) → ℕ → Task (Unit {0})
queue_stage python stage i attempt inputs now = transaction (
    insert_stage_run (queued_run python stage i attempt)
      (digest_data python (
        object (
          ("stage", plain_stage stage)
          ∷ ("inputs", object inputs)
          ∷ ("attempt", num attempt)
          ∷ [])))
      (some (attempt_id i stage.id attempt)) none now)

abbrev pub text_or : String → Option String → String
text_or other none = other
text_or other (some t) = t

abbrev pub name_or_none : String → String
name_or_none g = if g == "" then "none" else g

abbrev pub guard_receipt_id : StageRun → String → String
guard_receipt_id run guard =
    append "receipt:kernel:"
      (append run.stage_run_id (append ":transition_guard:" (name_or_none guard)))

unfoldable pub guard_receipt :
    Kernel → StageRun → StageDef → Transition → GuardDecision → ℕ → Receipt
guard_receipt k run stage t g now = record {
  receipt_id = guard_receipt_id run (text_or "" g.guard);
  kind = "kernel.transition_guard";
  workflow_id = k.workflow.id;
  instance_id = run.instance_id;
  stage_id = stage.id;
  stage_run_id = run.stage_run_id;
  status = "blocked";
  summary = g.reason;
  created_at = now;
  artifact_refs = [];
  context_packet_ref = none;
  prompt_provenance = end;
  runtime_provenance = entries (
      ("actor", str k.owner_id)
      ∷ ("checks_run", arr (strings ("transition_guard_evaluated" ∷ [])))
      ∷ ("guard", str (text_or "" g.guard))
      ∷ ("guard_details", obj g.details)
      ∷ ("transition", plain_transition t)
      ∷ []);
  policy_snapshot = end;
  residual_risk = some g.reason;
  next_action = some "Satisfy the named transition guard before retrying the transition.";
}

abbrev pub blocked_event : Kernel → StageRun → Transition → GuardDecision → ℕ → EventRow
blocked_event k run t g now = record {
  instance_id = run.instance_id;
  stage_run_id = some run.stage_run_id;
  event_type = "transition_guard_blocked";
  actor = k.owner_id;
  payload = object (
      ("from_stage", str t.from_stage)
      ∷ ("outcome", str t.on)
      ∷ ("guard", str (text_or "" g.guard))
      ∷ ("reason", str g.reason)
      ∷ ("receipt_id", str (guard_receipt_id run (text_or "" g.guard)))
      ∷ []);
  created_at = now;
}

-- `_block_transition_guard`
unfoldable pub block_transition_guard :
    Kernel → StageRun → StageDef → Transition → GuardDecision → String → ℕ → Task Decided
block_transition_guard k run stage t g outcome now = do
  _ ← transaction (record_receipt (guard_receipt k run stage t g now))
  _ ← transaction (record_event (blocked_event k run t g now))
  _ ← update k run blocked (some stage.id) now "workflow_blocked" (
      ("stage_id", str stage.id)
      ∷ ("stage_run_id", str run.stage_run_id)
      ∷ ("outcome", str outcome)
      ∷ ("reason", str "transition_guard_failed")
      ∷ ("guard", str (text_or "" g.guard))
      ∷ ("guard_reason", str g.reason)
      ∷ ("receipt_id", str (guard_receipt_id run (text_or "" g.guard)))
      ∷ [])
  finish (decided_blocked g.reason)

abbrev pub blocked_for : Kernel → StageRun → StageDef → String → ℕ → String → String → Task Decided
blocked_for k run stage outcome now reason summary = do
  _ ← update k run blocked (some stage.id) now "workflow_blocked" (
      ("stage_id", str stage.id)
      ∷ ("stage_run_id", str run.stage_run_id)
      ∷ ("outcome", str outcome)
      ∷ ("reason", str reason)
      ∷ [])
  finish (decided_blocked summary)

abbrev pub json_or : Json → Option Json → Json
json_or other none = other
json_or other (some v) = v

abbrev pub guard_entries : GuardDecision → List (String × Json)
guard_entries g =
    if text_or "" g.guard == ""
    then []
    else ("guard", str (text_or "" g.guard))
      ∷ ("guard_details", obj g.details)
      ∷ ("guard_budget", json_or (obj end) (field_of "budget" g.details))
      ∷ []

unfoldable pub transitioned_payload :
    StageRun → Transition → StageDef → ℕ → GuardDecision → List (String × Json)
transitioned_payload run t next attempt g =
    ("from_stage", str t.from_stage)
    ∷ ("outcome", str t.on)
    ∷ ("to_stage", str next.id)
    ∷ ("queued_stage_run_id", str (attempt_id run.instance_id next.id attempt))
    ∷ guard_entries g

abbrev pub move_to :
    Python
    → Kernel
    → StageRun
    → StageDef
    → Transition
    → GuardDecision
    → String
    → ℕ
    → Option StageDef
    → Task Decided
move_to python k run stage t g outcome now none =
    blocked_for k run stage outcome now "invalid_transition" (
      append "Transition from " (
        append (python.repr t.from_stage)
          (append " on " (append (python.repr t.on) " does not point to a known stage."))))
move_to python k run stage t g outcome now (some next) = do
  attempt ← given (λ s. ok (next_stage_attempt run.instance_id next.id s))
  _ ←
      queue_stage python next run.instance_id attempt
        (("from_stage_run_id", str run.stage_run_id) ∷ ("transition_outcome", str outcome) ∷ []) now
  _ ←
      update k run running (some next.id) now "workflow_transitioned"
        (transitioned_payload run t next attempt g)
  finish (decided_queued next.id)

abbrev pub end_or_move :
    Python
    → Kernel
    → StageRun
    → StageDef
    → Transition
    → GuardDecision
    → String
    → ℕ
    → Option String
    → Task Decided
end_or_move python k run stage t g outcome now none =
    move_to python k run stage t g outcome now (next_stage_for_transition k t)
end_or_move python k run stage t g outcome now (some terminal) = do
  _ ←
      update k run (workflow_status_for_terminal terminal) none now "workflow_terminal"
        (("from_stage", str t.from_stage) ∷ ("outcome", str t.on) ∷ ("terminal", str terminal) ∷ [])
  finish (decided_terminal (workflow_status_for_terminal terminal))

unfoldable pub take_transition :
    Python → Kernel → StageRun → StageDef → Transition → GuardDecision → String → ℕ → Task Decided
take_transition python k run stage t g outcome now =
    if g.allowed
    then end_or_move python k run stage t g outcome now t.terminal
    else block_transition_guard k run stage t g outcome now

abbrev pub advance_by :
    Python
    → Kernel
    → StageRun
    → StageDef
    → String
    → ℕ
    → Option AdapterResult
    → Option Transition
    → Task Decided
advance_by python k run stage outcome now result none =
    blocked_for k run stage outcome now "missing_transition" (
      append "No transition configured for stage "
        (append (python.repr stage.id) (append " outcome " (append (python.repr outcome) "."))))
advance_by python k run stage outcome now result (some t) = do
  g ← given (evaluate_transition_guard python k run stage t result)
  take_transition python k run stage t g outcome now

-- `_advance_after_outcome`
unfoldable pub advance_after_outcome :
    Python → Kernel → StageRun → StageDef → String → ℕ → Option AdapterResult → Task Decided
advance_after_outcome python k run stage outcome now result =
    advance_by python k run stage outcome now result
      (find_transition stage.id outcome k.transitions)
