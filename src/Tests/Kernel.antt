-- ===== src/Tests/Kernel.antt =====
-- An instance whose draft is reviewed, and the theorems on advancing it.
use agent_workflow_kernel.Prelude.{
  ℕ, String, ◌≡◌, ◌≤◌, ◌↔◌, refl, true, none, some, [], ◌∷◌, exists, decimal, update_where, strip,
}
use agent_workflow_kernel.Json.{unreadable, num, end, field, field_of, str}
use agent_workflow_kernel.Contracts.{StageRun}
use agent_workflow_kernel.Contracts.StageStatus.{succeeded}
use agent_workflow_kernel.Contracts.Workflow.{Transition, StageDef}
use agent_workflow_kernel.Ledger.State.{
  Ledger, Result, ok, err, bad_value, append_event, insert_run,
}
use agent_workflow_kernel.Ledger.Inserts.{
  run_to_row, insert_stage_run, update_workflow_instance, record_event,
}
use agent_workflow_kernel.Ledger.Retry.{attempt_id, next_stage_attempt, max_attempt}
use agent_workflow_kernel.Ledger.Invariant.{IsWellFormed}
use agent_workflow_kernel.Workflow.Validation.Guards.{is_allowed_guard}
use agent_workflow_kernel.Kernel.{
  Python, Kernel, make_kernel, index_transitions, find_transition, last_stage,
}
use agent_workflow_kernel.Policy.Fingerprint.{canonical, canonical_fields, insert_field}
use agent_workflow_kernel.Workflow.Dsl.Restored.{canonical_stage}
use agent_workflow_kernel.Kernel.Task.{◌>>=◌, given, finish}
use agent_workflow_kernel.Kernel.Budgets.{
  resolve_budget_limit, budget_sources, first_budget, budget_limit_from_mapping, first_key,
  budget_keys, coerce_budget_limit, consumes_transition, underscored, consuming_outcomes,
}
use agent_workflow_kernel.Kernel.Guards.{GuardDecision, count_stage_runs}
use agent_workflow_kernel.Kernel.Evaluate.{
  evaluate_transition_guard, evaluate_guard, guard_within_budget, budget_iteration_usage,
  budget_verdict, count_consumed, is_guarded_transition,
}
use agent_workflow_kernel.Kernel.Advance.{
  actor_ref, Decided, decided_queued, decided_terminal, decided_blocked, transitioned_payload,
  block_transition_guard, guard_receipt, advance_after_outcome, take_transition, queue_stage,
  update,
}
use agent_workflow_kernel.Kernel.Advance.Spent.{
  advance-within_iteration_budget, advance-within_retry_budget,
}
use agent_workflow_kernel.Kernel.Advance.Permits.{Permits, evaluate_transition_guard_iff}
use agent_workflow_kernel.Kernel.Routes.{make_kernel_iff}
use agent_workflow_kernel.Kernel.Routes.Arrives.{Arrives, permitted_transition-Arrives}
use agent_workflow_kernel.Workflow.Validation.Spec.{IsDeterministic}
use agent_workflow_kernel.Ledger.Receipts.{record_receipt, insert_receipt, record_artifacts}
use agent_workflow_kernel.Tests.Samples.{queued_row, holding, run_one}
use agent_workflow_kernel.Tests.Workflow.{
  draft, review, to_review, to_draft, to_done, drafting, drafting_checked,
}

-- A Python whose texts are what they are.
abbrev pub python : Python
python = record {
  int_of = λ _. unreadable;
  lower = λ s. s;
  repr = λ s. s;
  text_of = λ _. "";
  digest = λ _. "digest";
}

abbrev review_run : StageRun
review_run = record run_one {
  stage_run_id = "i1:review:1";
  stage_id = "review";
  status = succeeded;
}

abbrev reviewed : Ledger
reviewed = record (holding queued_row) {
  runs = queued_row ∷ run_to_row review_run "h" none none 20 ∷ [];
}

abbrev retried : Transition
retried = record to_draft { guard = some "within_retry_budget" }

abbrev kernel_with : Transition → Kernel
kernel_with t = record {
  workflow = record drafting { transitions = to_review ∷ t ∷ to_done ∷ [] };
  owner_id = "kernel";
  transitions = to_done ∷ t ∷ to_review ∷ [];
}

drafting-kernel : make_kernel drafting "kernel" ≡ ok (kernel_with to_draft)
unfolding make_kernel index_transitions exists
drafting-kernel = refl

abbrev refined : Transition → Ledger
refined t =
    (advance_after_outcome python (kernel_with t) review_run review "refine" 30 none reviewed).1

refined-queued :
    advance_after_outcome python (kernel_with to_draft) review_run review "refine" 30 none reviewed
    ≡ (ok (decided_queued "draft"), refined to_draft)
unfolding advance_after_outcome take_transition queue_stage update ◌>>=◌ given finish
    find_transition last_stage evaluate_transition_guard evaluate_guard guard_within_budget
    budget_iteration_usage budget_verdict count_consumed count_stage_runs resolve_budget_limit
    budget_sources first_budget budget_limit_from_mapping first_key budget_keys coerce_budget_limit
    consumes_transition underscored consuming_outcomes is_allowed_guard field_of strip exists
    insert_stage_run insert_run update_workflow_instance append_event attempt_id decimal
    next_stage_attempt max_attempt update_where
refined-queued = refl

budget-found :
    ((resolve_budget_limit python
        (kernel_with to_draft).workflow
        review
        (some draft)
        "within_revision_budget").limit
      ≡ some 2)
    × ((resolve_budget_limit python
          (kernel_with retried).workflow
          review
          (some draft)
          "within_retry_budget").limit
        ≡ some 3)
unfolding resolve_budget_limit budget_sources first_budget budget_limit_from_mapping first_key
    budget_keys coerce_budget_limit field_of
budget-found = (refl, refl)

advance-within_iteration_budget_example :
    count_consumed "i1" "within_revision_budget" (refined to_draft).events ≤ 2
unfolding find_transition last_stage
advance-within_iteration_budget_example =
    advance-within_iteration_budget python (kernel_with to_draft) review_run review "refine" 30 none
      to_draft "within_revision_budget" 2 reviewed (refined to_draft) "draft" refl refl refl refl
      budget-found.0 refined-queued

retried-queued :
    advance_after_outcome python (kernel_with retried) review_run review "refine" 30 none reviewed
    ≡ (ok (decided_queued "draft"), refined retried)
unfolding advance_after_outcome take_transition queue_stage update ◌>>=◌ given finish
    find_transition last_stage evaluate_transition_guard evaluate_guard guard_within_budget
    budget_iteration_usage budget_verdict count_consumed count_stage_runs resolve_budget_limit
    budget_sources first_budget budget_limit_from_mapping first_key budget_keys coerce_budget_limit
    consumes_transition underscored consuming_outcomes is_allowed_guard field_of strip exists
    insert_stage_run insert_run update_workflow_instance append_event attempt_id decimal
    next_stage_attempt max_attempt update_where
retried-queued = refl

advance-within_retry_budget_example : count_stage_runs "i1" "draft" (refined retried).runs ≤ 3
unfolding find_transition last_stage
advance-within_retry_budget_example =
    advance-within_retry_budget python (kernel_with retried) review_run review "refine" 30 none
      retried 3 reviewed (refined retried) "draft" refl refl budget-found.1 retried-queued

reviewed-IsWellFormed : IsWellFormed reviewed
unfolding exists
reviewed-IsWellFormed = record {
  instances_unique = (refl, tt);
  runs_unique = (refl, (refl, tt));
  attempts_unique = (refl, (refl, tt));
  instances_known = (refl, (refl, tt));
}

evaluate_transition_guard_iff_example :
    ((g : GuardDecision) × (evaluate_transition_guard python
          (kernel_with to_draft)
          review_run
          review
          to_draft
          none
          reviewed
        ≡ ok g)
      × (g.allowed ≡ true))
    ↔ Permits python
        (kernel_with to_draft)
        review_run
        review
        to_draft
        none
        reviewed
        (some "within_revision_budget")
evaluate_transition_guard_iff_example =
    evaluate_transition_guard_iff python (kernel_with to_draft) review_run review to_draft none
      reviewed

make_kernel_iff_example :
    (((k : Kernel) × (make_kernel drafting "kernel" ≡ ok k)) ↔ IsDeterministic drafting.transitions)
    × ((make_kernel drafting "kernel" ≡ err bad_value) ↔ ¬ IsDeterministic drafting.transitions)
make_kernel_iff_example = make_kernel_iff drafting "kernel"

abbrev sent_to_review : Ledger
sent_to_review =
    (advance_after_outcome python (kernel_with to_draft) run_one draft "ready" 30 none
      (holding queued_row)).1

sends_to_review :
    advance_after_outcome python
      (kernel_with to_draft)
      run_one
      draft
      "ready"
      30
      none
      (holding queued_row)
    ≡ (ok (decided_queued "review"), sent_to_review)
unfolding advance_after_outcome take_transition queue_stage update ◌>>=◌ given finish
    find_transition last_stage evaluate_transition_guard exists insert_stage_run insert_run
    update_workflow_instance append_event attempt_id decimal next_stage_attempt max_attempt
    update_where
sends_to_review = refl

-- The guard of the move to `review` is none.
permitted_transition-Arrives_example :
    Arrives to_review run_one.instance_id 30
      (holding queued_row)
      sent_to_review
      (decided_queued "review")
unfolding find_transition evaluate_transition_guard
permitted_transition-Arrives_example =
    permitted_transition-Arrives python drafting "kernel" (kernel_with to_draft) run_one draft
      "ready" 30 none to_review
      (record {
        allowed = true;
        guard = none;
        reason = "no transition guard declared";
        details = end;
      })
      (decided_queued "review") (holding queued_row) sent_to_review drafting_checked.0
      (tt, (tt, (refl, tt))) drafting-kernel refl refl refl sends_to_review

-- With a budget of one the first revision is refused, and with a budget of two a second one is let
-- through: before the first, the run of the draft is counted as a revision.
abbrev budget_of : ℕ → StageDef
budget_of n = record review { budget = field "max_revisions" (num n) end }

abbrev kernel_of_budget : ℕ → Kernel
kernel_of_budget n = record (kernel_with to_draft) {
  workflow = record drafting { stages = draft ∷ budget_of n ∷ [] };
}

abbrev decided : ℕ → Ledger → Result Decided × Ledger
decided n s =
    advance_after_outcome python (kernel_of_budget n) review_run (budget_of n) "refine" 30 none s

abbrev summary_of : Result Decided → String
summary_of (ok (decided_queued i)) = i
summary_of (ok (decided_terminal _)) = "terminal"
summary_of (ok (decided_blocked reason)) = reason
summary_of (err _) = "error"

first_revision_counted_twice :
    (summary_of (decided 1 reviewed).0
      ≡ "Transition guard within_revision_budget exhausted budget 2/1; failing closed.")
    × (summary_of (decided 2 (decided 2 reviewed).1).0 ≡ "draft")
unfolding advance_after_outcome take_transition queue_stage block_transition_guard guard_receipt
    record_receipt insert_receipt record_artifacts record_event update ◌>>=◌ given finish
    find_transition last_stage evaluate_transition_guard evaluate_guard guard_within_budget
    budget_iteration_usage budget_verdict count_consumed count_stage_runs is_guarded_transition
    transitioned_payload resolve_budget_limit budget_sources first_budget budget_limit_from_mapping
    first_key budget_keys coerce_budget_limit consumes_transition underscored consuming_outcomes
    is_allowed_guard field_of strip exists insert_stage_run insert_run update_workflow_instance
    append_event attempt_id decimal next_stage_attempt max_attempt update_where
first_revision_counted_twice = (refl, refl)

-- The first actor of a stage is another one after the stage is restored from a canonical snapshot.
abbrev two_actors : StageDef
two_actors = record draft {
  actors = field "writer" (str "actors.writer") (field "editor" (str "actors.editor") end);
}

first_actor_changes :
    (actor_ref python two_actors ≡ some "actors.writer")
    × (actor_ref python (canonical_stage two_actors) ≡ some "actors.editor")
unfolding canonical canonical_fields insert_field
first_actor_changes = (refl, refl)
