-- ===== src/Tests/Operator.antt =====
-- The theorems on retiring an instance and on retries, at the sample ledgers.
use agent_workflow_kernel.Prelude.{
  decimal, ◌≡◌, refl, true, false, some, All, select_first, exists, String, ◌==◌, if◌then◌else◌,
  ◌<◌,
}
use agent_workflow_kernel.Contracts.InstanceStatus.{cancelled, blocked}
use agent_workflow_kernel.Contracts.Failure.{runtime_failure}
use agent_workflow_kernel.Ledger.Rows.{InstanceRow}
use agent_workflow_kernel.Ledger.State.{Ledger, ok, run_row, has_run}
use agent_workflow_kernel.Ledger.Inserts.{instance_to_row}
use agent_workflow_kernel.Ledger.Operator.{
  RetireCall, Retirement, is_unfinished, supersede_change, cancel_workflow_instance,
  park_stale_workflow_instance,
}
use agent_workflow_kernel.Ledger.Operator.Laws.{
  Retired, retirement, cancel_retires, park_retires, cancel_is_idempotent, cancelled_has_no_work,
}
use agent_workflow_kernel.Ledger.Retry.{schedule_retry, max_attempt, attempt_id, next_stage_attempt}
use agent_workflow_kernel.Ledger.Retry.Attempts.{of_stage, next_stage_attempt-lt}
use agent_workflow_kernel.Ledger.Retry.Laws.{RetryLogged, schedule_retry_effect}
use agent_workflow_kernel.Ledger.Rows.{StageRunRow}
use agent_workflow_kernel.Ledger.Leases.{is_active_lease}
use agent_workflow_kernel.Ledger.Leases.Authority.{HasAuthority}
use agent_workflow_kernel.Ledger.Retry.Shape.{retired_row, following_row}
use agent_workflow_kernel.Ledger.Retry.Kept.{schedule_retry-HasAuthority}
use agent_workflow_kernel.Tests.Samples.{
  instance_one, no_provenance, leased_row, leased_ledger, leased_ledger-IsWellFormed, by_worker,
}
use agent_workflow_kernel.Tests.Leases.{worker-HasAuthority}

abbrev by_operator : RetireCall
by_operator = record {
  instance_id = "i1";
  actor = "operator";
  reason = some "obsolete";
  updated_at = 60;
}

abbrev one_row : InstanceRow
one_row = instance_to_row instance_one no_provenance 5

cancel_retires_example :
    (s' : Ledger) × (cancel_workflow_instance by_operator false leased_ledger
      ≡ ok (retirement by_operator cancelled one_row leased_ledger, s'))
    × Retired by_operator cancelled one_row leased_ledger s'
unfolding select_first
cancel_retires_example =
    cancel_retires by_operator one_row leased_ledger leased_ledger-IsWellFormed refl false refl

park_retires_example :
    (s' : Ledger) × (park_stale_workflow_instance by_operator leased_ledger
      ≡ ok (retirement by_operator blocked one_row leased_ledger, s'))
    × Retired by_operator blocked one_row leased_ledger s'
unfolding select_first
park_retires_example =
    park_retires by_operator one_row leased_ledger leased_ledger-IsWellFormed refl refl

abbrev one_found :
    select_first (λ (r : InstanceRow). r.instance_id == "i1") leased_ledger.instances ≡ some one_row
unfolding select_first
one_found = refl

abbrev cancelled_ledger : Ledger
cancelled_ledger =
    (cancel_retires by_operator one_row leased_ledger leased_ledger-IsWellFormed one_found false
      refl).0

cancels :
    cancel_workflow_instance by_operator false leased_ledger
    ≡ ok (retirement by_operator cancelled one_row leased_ledger, cancelled_ledger)
cancels =
    (cancel_retires by_operator one_row leased_ledger leased_ledger-IsWellFormed one_found false
      refl).1

cancel_is_idempotent_example :
    (r' : Retirement) × (cancel_workflow_instance by_operator false cancelled_ledger
      ≡ ok (r', cancelled_ledger))
    × (r'.changed ≡ false)
cancel_is_idempotent_example =
    cancel_is_idempotent by_operator by_operator false leased_ledger cancelled_ledger
      (retirement by_operator cancelled one_row leased_ledger) leased_ledger-IsWellFormed cancels
      refl

cancelled_has_no_work_example : is_unfinished (supersede_change 60 leased_row).status ≡ false
unfolding select_first supersede_change
cancelled_has_no_work_example =
    cancelled_has_no_work by_operator false one_row leased_ledger cancelled_ledger
      (retirement by_operator cancelled one_row leased_ledger) leased_ledger-IsWellFormed one_found
      refl cancels "i1:draft:1" (supersede_change 60 leased_row)
      ((cancel_retires by_operator one_row leased_ledger leased_ledger-IsWellFormed one_found false
          refl).2.runs
        "i1:draft:1")
      refl

-- The same run, retried.
next_is_free :
    has_run (attempt_id "i1" "draft" (next_stage_attempt "i1" "draft" leased_ledger)) leased_ledger
    ≡ false
unfolding exists max_attempt decimal attempt_id next_stage_attempt
next_is_free = refl

abbrev retried : Ledger
retried =
    (schedule_retry_effect by_worker runtime_failure "crashed" 9000000 leased_ledger
      leased_ledger-IsWellFormed leased_row worker-HasAuthority next_is_free).0

abbrev second_attempt : StageRunRow
second_attempt =
    following_row (next_stage_attempt "i1" "draft" leased_ledger) 9000000 by_worker.now leased_row

schedule_retry_effect_example :
    (s' : Ledger) × (schedule_retry by_worker runtime_failure "crashed" 9000000 leased_ledger
      ≡ ok (tt, s'))
    × ((k : String)
        → run_row k s' ≡ (
            if second_attempt.stage_run_id == k
            then some second_attempt
            else if "i1:draft:1" == k
            then some (retired_row by_worker runtime_failure "crashed" 9000000 leased_row)
            else run_row k leased_ledger))
    × RetryLogged by_worker second_attempt.stage_run_id leased_ledger s'
schedule_retry_effect_example =
    schedule_retry_effect by_worker runtime_failure "crashed" 9000000 leased_ledger
      leased_ledger-IsWellFormed leased_row worker-HasAuthority next_is_free

next_stage_attempt-lt_example :
    All
      (λ r.
        of_stage "i1" "draft" r ≡ true → r.attempt < next_stage_attempt "i1" "draft" leased_ledger)
      leased_ledger.runs
next_stage_attempt-lt_example = next_stage_attempt-lt "i1" "draft" leased_ledger

schedule_retry-HasAuthority_example :
    (row : StageRunRow) × HasAuthority by_worker is_active_lease leased_ledger row
schedule_retry-HasAuthority_example =
    schedule_retry-HasAuthority by_worker runtime_failure "crashed" 9000000 leased_ledger
      leased_ledger-IsWellFormed retried
      (schedule_retry_effect by_worker runtime_failure "crashed" 9000000 leased_ledger
        leased_ledger-IsWellFormed leased_row worker-HasAuthority next_is_free).1
