-- ===== src/Ledger/Claim.antt =====
-- packages/kernel/agent_workflow_kernel/storage.py: `claim_next_queued_run` and `renew_lease`.
-- The caller gives the uuid of a new lease token, and times are datetimes.
pub mod Selection
pub mod Laws
use Prim.Native.String.{compare}
use text.Mathlib.Text.{is_lt}
use agent_workflow_kernel.Prelude.{
  ℕ, zero, suc, ◌+◌, ◌*◌, String, Bool, true, false, not, ◌&&◌, ◌||◌, Option, none, some, ◌∷◌, [],
  ◌==◌, ltb, leb, eqb, column_is, select, select_first, order_by, exists, if◌then◌else◌,
}
use agent_workflow_kernel.Json.{Json, str, num, opt_str, object}
use agent_workflow_kernel.Contracts.{ResolvedLeasePolicy, StageRun}
use agent_workflow_kernel.Contracts.StageStatus.{claimed, is_queued, status_value}
use agent_workflow_kernel.Ledger.Rows.{StageRunRow}
use agent_workflow_kernel.Ledger.State.{
  Ledger, Result, ok, err, bad_value, ◌>>=◌, Body, append_event, run_row, update_runs,
}
use agent_workflow_kernel.Ledger.Leases.{is_active_lease}

-- `_stage_run_from_row`
unfoldable pub stage_run_from_row : StageRunRow → StageRun
stage_run_from_row r = record {
  stage_run_id = r.stage_run_id;
  instance_id = r.instance_id;
  stage_id = r.stage_id;
  status = r.status;
  attempt = r.attempt;
  adapter_id = r.adapter_id;
  actor_ref = r.actor_ref;
  lease_token = r.lease_token;
  lease_seconds = r.lease_seconds;
  lease_source = r.lease_source;
  lease_source_ref = r.lease_source_ref;
  receipt_id = r.receipt_id;
  failure_class = r.failure_class;
  retry_after_at = r.retry_after_at;
  idempotency_key = r.idempotency_key;
}

pub record ClaimCall : Type 0 where
  pub owner_id : String
  pub instance_id : Option String
  pub lease_seconds : Option ℕ
  pub lease_resolver : Option (StageRun → Result ResolvedLeasePolicy)
  pub claim_predicate : StageRun → Bool
  pub claim_context : Json
  pub fresh_token : String
  pub now : ℕ

abbrev pub in_instance : Option String → StageRunRow → Bool
in_instance none r = true
in_instance (some i) r = r.instance_id == i

abbrev pub due_at : ℕ → Option ℕ → Bool
due_at now none = true
due_at now (some t) = leb t now

-- The WHERE clause of the claim.
unfoldable pub is_claimable : ClaimCall → StageRunRow → Bool
is_claimable c r =
    is_queued r.status && due_at c.now r.retry_after_at && in_instance c.instance_id r

-- `ORDER BY created_at, stage_run_id`
unfoldable pub created_before : StageRunRow → StageRunRow → Bool
created_before a b =
    ltb a.created_at b.created_at
    || (eqb a.created_at b.created_at && is_lt (compare a.stage_run_id b.stage_run_id))

-- `_positive_int` of an integer that is not negative, or of None.
unfoldable pub positive_int : Option ℕ → Result ℕ
positive_int none = err bad_value
positive_int (some zero) = err bad_value
positive_int (some (suc n)) = ok (suc n)

runner_lease : ClaimCall → StageRunRow → Result ResolvedLeasePolicy
runner_lease c r = do
  seconds ← positive_int c.lease_seconds
  ok (record {
    lease_seconds = seconds;
    source = "runner_default";
    source_ref = "WorkflowRunner.run_once.lease_seconds";
    actor_ref = r.actor_ref;
  })

unfoldable pub resolve_lease : ClaimCall → StageRunRow → Result ResolvedLeasePolicy
unfolding runner_lease
resolve_lease c r = elim c.lease_resolver [
  | none ↦ runner_lease c r
  | some resolver ↦ resolver (stage_run_from_row r)
]

-- `timedelta(seconds=n)`, in microseconds.
abbrev pub seconds : ℕ → ℕ
seconds n = n * 1000000

abbrev pub expiry : ClaimCall → ResolvedLeasePolicy → ℕ
expiry c lease = c.now + seconds lease.lease_seconds

unfoldable pub claim_change : ClaimCall → ResolvedLeasePolicy → StageRunRow → StageRunRow
claim_change c lease r = record r {
  status = claimed;
  lease_owner = some c.owner_id;
  lease_token = some c.fresh_token;
  lease_expires_at = some (expiry c lease);
  lease_seconds = some lease.lease_seconds;
  lease_source = some lease.source;
  lease_source_ref = some lease.source_ref;
  updated_at = c.now;
}

lease_data : ResolvedLeasePolicy → Json
lease_data lease = object (
    ("lease_seconds", num lease.lease_seconds)
    ∷ ("source", str lease.source)
    ∷ ("source_ref", str lease.source_ref)
    ∷ ("actor_ref", opt_str lease.actor_ref)
    ∷ [])

pub claim_payload : ClaimCall → ResolvedLeasePolicy → StageRunRow → Json
unfolding lease_data
claim_payload c lease r = object (
    ("lease_token", str c.fresh_token)
    ∷ ("lease_seconds", num lease.lease_seconds)
    ∷ ("lease_source", str lease.source)
    ∷ ("lease_source_ref", str lease.source_ref)
    ∷ ("lease_expires_at", num (expiry c lease))
    ∷ ("lease", lease_data lease)
    ∷ ("previous_status", str (status_value r.status))
    ∷ ("claim_context", c.claim_context)
    ∷ [])

-- `WHERE stage_run_id = ? AND status = 'queued'`
abbrev pub still_queued : StageRunRow → StageRunRow → Bool
still_queued row r = (r.stage_run_id == row.stage_run_id) && is_queued r.status

unfoldable pub claim_row : ClaimCall → StageRunRow → Body (Option StageRunRow)
claim_row c row s = do
  lease ← resolve_lease c row
  if not (exists (still_queued row) s.runs) then ok (none, s) else do
    s' ←
        append_event
          (record {
            instance_id = row.instance_id;
            stage_run_id = some row.stage_run_id;
            event_type = "stage_claimed";
            actor = c.owner_id;
            payload = claim_payload c lease row;
            created_at = c.now;
          })
          (update_runs (still_queued row) (claim_change c lease) s)
    ok (run_row row.stage_run_id s', s')

-- The first row, in the order of the query, that the predicate accepts.
unfoldable pub claim_candidate : ClaimCall → Ledger → Option StageRunRow
claim_candidate c s =
    select_first (λ r. c.claim_predicate (stage_run_from_row r))
      (order_by created_before (select (is_claimable c) s.runs))

-- The row that is handed out stands for its `_stage_run_from_row`.
unfoldable pub claim_next_queued_run : ClaimCall → Body (Option StageRunRow)
claim_next_queued_run c s = elim (claim_candidate c s) [
  | none ↦ ok (none, s)
  | some row ↦ claim_row c row s
]

pub record RenewCall : Type 0 where
  pub stage_run_id : String
  pub owner_id : String
  pub lease_token : String
  pub lease_seconds : ℕ
  pub now : ℕ

abbrev pub renew_matches : RenewCall → StageRunRow → Bool
renew_matches c r =
    (r.stage_run_id == c.stage_run_id)
    && (column_is r.lease_owner c.owner_id && column_is r.lease_token c.lease_token)

-- A lease with no expiry has not expired here.
abbrev pub lapsed_at : ℕ → Option ℕ → Bool
lapsed_at t none = false
lapsed_at t (some e) = leb e t

unfoldable pub renew_change : RenewCall → StageRunRow → StageRunRow
renew_change c r = record r {
  lease_expires_at = some (c.now + seconds c.lease_seconds);
  updated_at = c.now;
}

renew_row : RenewCall → Option StageRunRow → Body Bool
renew_row c none s = ok (false, s)
renew_row c (some row) s =
    if lapsed_at c.now row.lease_expires_at
    then ok (false, s)
    else if not (is_active_lease row.status)
    then ok (false, s)
    else do
      s' ←
          append_event
            (record {
              instance_id = row.instance_id;
              stage_run_id = some c.stage_run_id;
              event_type = "lease_renewed";
              actor = c.owner_id;
              payload = object (("lease_expires_at", num (c.now + seconds c.lease_seconds)) ∷ []);
              created_at = c.now;
            })
            (update_runs (renew_matches c) (renew_change c) s)
      ok (true, s')

unfoldable pub renew_lease : RenewCall → Body Bool
unfolding renew_row
renew_lease c s = renew_row c (select_first (renew_matches c) s.runs) s
