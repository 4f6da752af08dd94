-- ===== src/Lib.antt =====
-- Agent Workflow Kernel: a model of the durable ledger that a workflow engine keeps.
--
-- The program is a Python package that runs workflows of stages. packages/kernel/agent_workflow_kernel
-- holds the kernel: contracts.py the data that all parts exchange, dsl.py and validation.py the
-- workflow definitions, kernel.py with _helpers.py the stage transitions, policy.py what needs an
-- approval, lease.py and sessions.py the limits on time and sessions, runner.py the loop that claims
-- a queued stage run, executes it through an adapter and records the outcome, and storage.py the
-- SQLite ledger in which all of them keep their state. Everything that must survive a crash is a row
-- of the ledger, and workers exclude each other only by the leases that it hands out. So the ledger
-- is modelled first of all, and with it the policy that decides which actions need a human.
--
-- How the code corresponds to the files:
--   Prelude and below: truth values, tables as lists of rows (select, update_where, order_by, by_key),
--     unique keys, Python's `str` of a number and `str.strip`.
--   Json: the values that events carry.
--   Contracts and below: the enumerations of contracts.py with their texts, ResolvedLeasePolicy and
--     StageRun.
--   Ledger/Rows: the tables of storage.py that the operations here read and write. Ledger/State: the
--     ledger as a record of tables, LedgerConflict and the other exceptions as values, `_transaction`
--     as `transaction`, `_append_event`, and the INSERT of a run with its constraints.
--   Ledger/Invariant: what the constraints promise of a ledger. Ledger/Update: an UPDATE by key.
--   Ledger/Inserts: insert_workflow_instance, update_workflow_instance, insert_stage_run.
--   Ledger/Leases: `_require_leased_run` and mark_stage_run_started, complete_stage_run,
--     fail_stage_run, block_stage_run, wait_stage_run_for_human_decision. Leases/Authority has the
--     independent description of who may call them, Leases/Effects and Leases/Guarded their laws.
--   Ledger/Claim: claim_next_queued_run and renew_lease. Ledger/Retry: schedule_retry and
--     next_stage_attempt. Ledger/Sweep: sweep_stale_leases. Ledger/Operator: cancel_workflow_instance
--     and park_stale_workflow_instance. Ledger/Human: find_waiting_human_stage_run,
--     record_human_decision, complete_waiting_human_stage_run. Ledger/Repair:
--     retry_blocked_human_gate and reissue_waiting_human_gate_for_transport_repair. Ledger/Late:
--     record_late_result and list_late_results. Ledger/Invocations: the records of adapter calls.
--     Ledger/Discovery: find_next_workflow_instance_for_work and terminalize_blocked_current_stages.
--     Ledger/Reachable: the ledgers that most of these operations can make of the empty one.
--   Policy/Fingerprint: ActionRequest, action_fingerprint and fingerprint_request of policy.py.
--     Policy/Approval: approval receipts, validate_approval and build_test_only_suman_approval.
--     Policy/Decide: PolicyEngine; Decide/Binding: what an approval is bound to. The ledger's human gates record decisions on such approvals.
--   Workflow/Plain: to_plain_data of a definition. Workflow/Dsl: workflow_from_mapping and
--     workflow_from_canonical_mapping of dsl.py. Workflow/Validation: validate_workflow_mapping and
--     validate_workflow_def of validation.py on the mapping as a JSON value. Validation/Spec is the
--     description of a workflow that they are compared with.
--   Kernel: the state of a WorkflowKernel of kernel.py and its index of transitions. Kernel/Budgets:
--     _resolve_budget_limit of _helpers.py. Kernel/Guards and Kernel/Evaluate:
--     _evaluate_transition_guard and the guards. Kernel/Task: transactions in sequence, of which each
--     is kept when a later one raises. Kernel/Advance: _advance_after_outcome over the ledger.
--     Kernel/Lease: resolve_stage_lease_policy of lease.py, and in Lease/Precedence a description of
--     which level gives the lease. Kernel/Adapters: AdapterRegistry of adapter_registry.py, and
--     _outcome_for_stage_result.
--     Ledger/Receipts: record_receipt.
--   Sessions: SessionBudget of sessions.py, a cap on the turns, tokens and time of a conversation.
--   Tests and below: sample ledgers, and the theorems at them.
--
-- How the state is modelled. An operation is the body of its transaction, a function from a ledger to
-- an exception or a result with the next ledger; `transaction` drops what a body wrote when it
-- raises. A table is the list of its rows in the order of their INSERTs, and ORDER BY sorts by the
-- columns that the query names. A timestamp is a number of microseconds, since the ledger's texts of
-- UTC datetimes compare as the datetimes do; the clock, the token and the ids that uuid4 makes are
-- arguments. Texts compare by code points, as SQLite's BINARY collation does on the ids in use. The
-- caller's claim predicate and lease resolver are parameters of the call, and SHA-256, `json.dumps` and
-- `isoformat` are parameters of the policy, as `int` of a text is of the budgets and `lower`, `repr` and
-- `str` are of the kernel.
--
-- Loops are structural recursion on the rows. The one use of fuel is `decimal`, whose fuel of one more
-- than the number is never used up, since each step divides it by ten.
--
-- What is not modelled: keys of actor sessions, fractions in a budget's settings, timestamps given as
-- texts or left out, datetimes past the year 9999, negative lease lengths of a renewal, event ids,
-- child sessions, the remaining repairs (restore_published_human_gate_waiting,
-- retry_blocked_stage_without_effect, queue_local_preparation_repair), the audit export, schema
-- migration, backup and restore; the YAML text of a workflow file; values in a request's arguments that
-- JSON does not have, and fractional numbers in it and in a definition. Of kernel.py the transitions
-- after an outcome are modelled, and its other methods are not; nor are the modules that no file above
-- names. The adapters, the command line and the scripts are input and output.
pub mod Prelude
pub mod Json
pub mod Contracts
pub mod Ledger
pub mod Policy
pub mod Workflow
pub mod Kernel
pub mod Sessions
mod Tests
