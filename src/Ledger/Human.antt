-- ===== src/Ledger/Human.antt =====
-- packages/kernel/agent_workflow_kernel/storage.py: the runs that wait on a human, the record of a
-- decision, and the operator's repairs of a human gate.
pub mod Laws
use Prim.Native.String.{compare}
use text.Mathlib.Text.{is_lt}
use agent_workflow_kernel.Prelude.{
  ℕ, String, Bool, not, ◌&&◌, ◌||◌, Option, none, some, ◌∷◌, [], ◌++◌, ◌==◌, ltb, eqb, select,
  select_first, order_by, limit_one, coalesce, has_key, if◌then◌else◌,
}
use agent_workflow_kernel.Json.{Json, str, opt_str, object}
use agent_workflow_kernel.Contracts.StageStatus.{StageRunStatus, is_waiting_on_human, status_value}
use agent_workflow_kernel.Contracts.Failure.{FailureClass, failure_value}
use agent_workflow_kernel.Contracts.{StageRun}
use agent_workflow_kernel.Ledger.Claim.{stage_run_from_row}
use agent_workflow_kernel.Ledger.Rows.{EventRow, StageRunRow, DecisionRow}
use agent_workflow_kernel.Ledger.State.{
  Ledger, Result, ok, err, conflict, not_waiting_on_human, integrity, ◌>>=◌, Body, has_instance,
  has_run, append_event, update_runs,
}

abbrev pub updated_after : StageRunRow → StageRunRow → Bool
updated_after a b =
    ltb b.updated_at a.updated_at
    || (eqb a.updated_at b.updated_at && is_lt (compare b.stage_run_id a.stage_run_id))

unfoldable pub waiting_human_row : String → Ledger → Option StageRunRow
waiting_human_row i s = limit_one (
    order_by updated_after
      (select (λ r. (r.instance_id == i) && is_waiting_on_human r.status) s.runs))

abbrev pub run_from : Option StageRunRow → Option StageRun
run_from none = none
run_from (some r) = some (stage_run_from_row r)

unfoldable pub find_waiting_human_stage_run : String → Ledger → Option StageRun
find_waiting_human_stage_run i s = run_from (waiting_human_row i s)

-- The fields of a `HumanApprovalReceipt` that have a column, and the plain data of the whole receipt.
pub record Decision : Type 0 where
  pub approval_id : String
  pub gate_id : String
  pub decision : String
  pub human_ref : String
  pub canonical_surface : String
  pub exact_action_approved : String
  pub action_fingerprint : String
  pub receipt_json : Json

unfoldable pub record_human_decision : Decision → String → String → ℕ → String → Body (Unit {0})
record_human_decision d i run now actor s =
    if has_key (λ (x : DecisionRow). x.decision_id) d.approval_id s.decisions
      || not (has_instance i s && has_run run s)
    then err integrity
    else do
      s' ←
          append_event
            (record {
              instance_id = i;
              stage_run_id = some run;
              event_type = "human_decision_recorded";
              actor = actor;
              payload = object (
                  ("approval_id", str d.approval_id)
                  ∷ ("gate_id", str d.gate_id)
                  ∷ ("decision", str d.decision)
                  ∷ ("canonical_surface", str d.canonical_surface)
                  ∷ []);
              created_at = now;
            })
            (record s {
              decisions =
                  s.decisions
                  ++ (record {
                    decision_id = d.approval_id;
                    instance_id = i;
                    stage_run_id = run;
                    gate_id = d.gate_id;
                    decision = d.decision;
                    human_ref = d.human_ref;
                    canonical_surface = d.canonical_surface;
                    exact_action_approved = d.exact_action_approved;
                    action_fingerprint = d.action_fingerprint;
                    receipt_json = d.receipt_json;
                    created_at = now;
                  })
                    ∷ [];
            })
      ok (tt, s')

-- The arguments of `complete_waiting_human_stage_run`.
pub record DecidedCall : Type 0 where
  pub stage_run_id : String
  pub status : StageRunStatus
  pub receipt_id : Option String
  pub output_hash : Option String
  pub failure_class : Option FailureClass
  pub failure_summary : Option String
  pub now : ℕ
  pub actor : String

abbrev pub waits_for : DecidedCall → StageRunRow → Bool
waits_for c r = (r.stage_run_id == c.stage_run_id) && is_waiting_on_human r.status

unfoldable pub decided_change : DecidedCall → StageRunRow → StageRunRow
decided_change c r = record r {
  status = c.status;
  receipt_id = coalesce c.receipt_id r.receipt_id;
  output_hash = coalesce c.output_hash r.output_hash;
  failure_class = c.failure_class;
  failure_summary = c.failure_summary;
  completed_at = some c.now;
  updated_at = c.now;
}

abbrev opt_failure : Option FailureClass → Option String
opt_failure none = none
opt_failure (some f) = some (failure_value f)

pub decided_payload : DecidedCall → Json
decided_payload c = object (
    ("status", str (status_value c.status))
    ∷ ("receipt_id", opt_str c.receipt_id)
    ∷ ("output_hash", opt_str c.output_hash)
    ∷ ("failure_class", opt_str (opt_failure c.failure_class))
    ∷ ("failure_summary", opt_str c.failure_summary)
    ∷ [])

abbrev pub decided_event : DecidedCall → StageRunRow → EventRow
decided_event c row = record {
  instance_id = row.instance_id;
  stage_run_id = some c.stage_run_id;
  event_type = "human_stage_decided";
  actor = c.actor;
  payload = decided_payload c;
  created_at = c.now;
}

abbrev pub decided_found : DecidedCall → Ledger → Option StageRunRow → Result (Unit {0} × Ledger)
decided_found c s none = err (conflict not_waiting_on_human)
decided_found c s (some row) = do
  s' ← append_event (decided_event c row) (update_runs (waits_for c) (decided_change c) s)
  ok (tt, s')

unfoldable pub complete_waiting_human_stage_run : DecidedCall → Body (Unit {0})
complete_waiting_human_stage_run c s = decided_found c s (select_first (waits_for c) s.runs)
