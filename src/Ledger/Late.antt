-- ===== src/Ledger/Late.antt =====
-- packages/kernel/agent_workflow_kernel/storage.py: `record_late_result` and `list_late_results`.
-- The caller gives the id that the uuid makes.
pub mod Laws
use Prim.Native.String.{compare}
use text.Mathlib.Text.{is_lt}
use agent_workflow_kernel.Prelude.{
  ℕ, String, Bool, true, ◌&&◌, ◌||◌, Option, some, none, List, ◌∷◌, [], ◌++◌, ◌==◌, ltb, eqb,
  select, order_by, has_key, if◌then◌else◌,
}
use agent_workflow_kernel.Json.{Json, str, bool, opt_str, object}
use agent_workflow_kernel.Contracts.StageStatus.{status_value}
use agent_workflow_kernel.Ledger.Rows.{StageRunRow, LateResultRow}
use agent_workflow_kernel.Ledger.State.{
  Ledger, Result, ok, err, conflict, run_missing, integrity, ◌>>=◌, Body, run_row, append_event,
}

pub record LateCall : Type 0 where
  pub stage_run_id : String
  pub result_kind : String
  pub evidence : Json
  pub reported_lease_token : Option String
  pub reported_owner : Option String
  pub result_hash : Option String
  pub external_ref : Option String
  pub observed_at : ℕ
  pub actor : String
  pub late_result_id : String
  pub recorded_at : ℕ

abbrev pub late_row : LateCall → StageRunRow → LateResultRow
late_row c r = record {
  late_result_id = c.late_result_id;
  instance_id = r.instance_id;
  stage_run_id = c.stage_run_id;
  reported_lease_token = c.reported_lease_token;
  reported_owner = c.reported_owner;
  result_kind = c.result_kind;
  result_hash = c.result_hash;
  external_ref = c.external_ref;
  evidence = c.evidence;
  observed_at = c.observed_at;
  recorded_at = c.recorded_at;
}

pub late_payload : LateCall → StageRunRow → Json
late_payload c r = object (
    ("late_result_id", str c.late_result_id)
    ∷ ("result_kind", str c.result_kind)
    ∷ ("result_hash", opt_str c.result_hash)
    ∷ ("external_ref", opt_str c.external_ref)
    ∷ ("reported_owner", opt_str c.reported_owner)
    ∷ ("reported_lease_token", opt_str c.reported_lease_token)
    ∷ ("non_authoritative", bool true)
    ∷ ("stage_status_at_recording", str (status_value r.status))
    ∷ [])

abbrev pub late_found : LateCall → Ledger → Option StageRunRow → Result (String × Ledger)
late_found c s none = err (conflict run_missing)
late_found c s (some row) =
    if has_key (λ (l : LateResultRow). l.late_result_id) c.late_result_id s.late_results
    then err integrity
    else do
      s' ←
          append_event
            (record {
              instance_id = row.instance_id;
              stage_run_id = some c.stage_run_id;
              event_type = "late_result_recorded";
              actor = c.actor;
              payload = late_payload c row;
              created_at = c.recorded_at;
            })
            (record s { late_results = s.late_results ++ late_row c row ∷ [] })
      ok (c.late_result_id, s')

unfoldable pub record_late_result : LateCall → Body String
record_late_result c s = late_found c s (run_row c.stage_run_id s)

abbrev pub recorded_before : LateResultRow → LateResultRow → Bool
recorded_before a b =
    ltb a.recorded_at b.recorded_at
    || (eqb a.recorded_at b.recorded_at && is_lt (compare a.late_result_id b.late_result_id))

unfoldable pub list_late_results : String → Ledger → List LateResultRow
list_late_results run s =
    order_by recorded_before (select (λ (l : LateResultRow). l.stage_run_id == run) s.late_results)
