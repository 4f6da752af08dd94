-- ===== src/Kernel/Advance/Spent.antt =====
-- Budgets of transition guards, over the moves of packages/kernel/agent_workflow_kernel/kernel.py.
use agent_workflow_kernel.Prelude.{
  ℕ, suc, String, ◌≡◌, ◌≤◌, refl, ap, sym, subst, ◌∙◌, Bool, true, false, Option, some, List, [],
  ◌∷◌, ◌++◌, inl, inr, arith, ◌==◌, eq_refl, ==→≡, leb, exists, Bool-cases, if◌then◌else◌,
}
use agent_workflow_kernel.Json.{field_of}
use agent_workflow_kernel.Contracts.{StageRun}
use agent_workflow_kernel.Contracts.Workflow.{Transition, StageDef}
use agent_workflow_kernel.Contracts.Results.{AdapterResult}
use agent_workflow_kernel.Ledger.Rows.{EventRow, StageRunRow}
use agent_workflow_kernel.Ledger.State.{Ledger, ok}
use agent_workflow_kernel.Workflow.Validation.Guards.{is_allowed_guard, is_budget_guard}
use agent_workflow_kernel.Ledger.Retry.{next_stage_attempt}
use agent_workflow_kernel.Kernel.{Python, Kernel, find_transition, next_stage_for_transition}
use agent_workflow_kernel.Kernel.Budgets.{
  BudgetLimit, resolve_budget_limit, consumes_transition, is_retry,
}
use agent_workflow_kernel.Kernel.Guards.{GuardDecision, count_stage_runs}
use agent_workflow_kernel.Kernel.Evaluate.{
  is_guarded_transition, has_metadata, is_consumed, count_consumed, budget_iteration_usage,
  budget_verdict, budget_details, requested_after, guard_within_budget, evaluate_guard,
  evaluate_transition_guard,
}
use agent_workflow_kernel.Kernel.Advance.{
  decided_queued, advance_after_outcome, transitioned_payload,
}
use agent_workflow_kernel.Kernel.Advance.Done.{moved_event, advance_after_outcome-Moved}

count_consumed-append :
    (i guard : String) (es : List EventRow) (e : EventRow)
    → count_consumed i guard (es ++ e ∷ []) ≡ (
        if is_consumed i guard e
        then suc (count_consumed i guard es)
        else count_consumed i guard es)
unfolding count_consumed
count_consumed-append i guard [] e = refl
count_consumed-append i guard (x ∷ es) e = ground (arith, count_consumed-append i guard es e)

count_stage_runs-append :
    (i st : String) (rs : List StageRunRow) (r : StageRunRow)
    → r.instance_id ≡ i
    → r.stage_id ≡ st
    → count_stage_runs i st (rs ++ r ∷ []) ≡ suc (count_stage_runs i st rs)
unfolding count_stage_runs
count_stage_runs-append i st [] r e f = rw (e, f, eq_refl i, eq_refl st) refl
count_stage_runs-append i st (x ∷ rs) r e f = ground (arith, count_stage_runs-append i st rs r e f)

-- Without metadata nothing was counted.
count_consumed-none :
    (i guard : String) (es : List EventRow)
    → exists (has_metadata i guard) es ≡ false
    → count_consumed i guard es ≡ 0
unfolding count_consumed exists
count_consumed-none i guard [] h = refl
count_consumed-none i guard (e ∷ es) h =
    let here : has_metadata i guard e ≡ false = ground arith in
    let rest : exists (has_metadata i guard) es ≡ false = ground arith in
    rw (here, count_consumed-none i guard es rest) refl

count_consumed-le_usage :
    (i guard : String) (t : Transition) (consumes : Bool) (s : Ledger)
    → count_consumed i guard s.events ≤ (budget_iteration_usage i guard t consumes s).0
unfolding budget_iteration_usage
count_consumed-le_usage i guard t consumes s =
    elim (Bool-cases (exists (has_metadata i guard) s.events)) [
      | inl e ↦ rw e (omega arith)
      | inr e ↦ rw (count_consumed-none i guard s.events e) (omega arith)
    ]

-- What a verdict that lets through says of itself.
record Passed (guard : String) (budget : BudgetLimit) (limit used requested : ℕ) (consumes : Bool)
    (source : String) (g : GuardDecision) : Type 0 where
  within : requested ≤ limit
  named : g.guard ≡ some guard
  detailed :
      field_of "budget" g.details
      ≡ some (budget_details guard budget limit used requested consumes source)

budget_verdict-Passed :
    (python : Python) (guard : String) (budget : BudgetLimit) (limit used requested : ℕ)
    (consumes : Bool) (source : String)
    → (budget_verdict python guard budget limit used requested consumes source).allowed ≡ true
    → Passed guard budget limit used requested consumes source
        (budget_verdict python guard budget limit used requested consumes source)
unfolding budget_verdict field_of
budget_verdict-Passed python guard budget limit used requested consumes source h =
    elim (Bool-cases (leb requested limit)) [
      | inl e ↦ rw e (record { within = ground arith; named = refl; detailed = refl })
      | inr e ↦ absurd (cc (rw e at h))
    ]

-- The verdict on a budget of iterations.
iteration-Passed :
    (python : Python) (k : Kernel) (run : StageRun) (stage : StageDef) (t : Transition)
    (guard : String) (limit : ℕ) (s : Ledger)
    → is_retry guard ≡ false
    → (resolve_budget_limit python k.workflow stage (next_stage_for_transition k t) guard).limit
      ≡ some limit
    → (guard_within_budget python k run stage t guard s).allowed ≡ true
    → Passed guard
        (resolve_budget_limit python k.workflow stage (next_stage_for_transition k t) guard)
        limit
        (budget_iteration_usage run.instance_id guard t (consumes_transition python guard t) s).0
        (requested_after
          (consumes_transition python guard t)
          (budget_iteration_usage run.instance_id guard t (consumes_transition python guard t) s).0)
        (consumes_transition python guard t)
        (budget_iteration_usage run.instance_id guard t (consumes_transition python guard t) s).1
        (guard_within_budget python k run stage t guard s)
unfolding guard_within_budget
iteration-Passed python k run stage t guard limit s other e h =
    rw (e, other) (budget_verdict-Passed python guard _ limit _ _ _ _ (rw (e, other) at h))

-- A budget guard is none of the texts that it is told apart from.
budget_guard-not :
    (guard other : String)
    → is_budget_guard guard ≡ true
    → is_budget_guard other ≡ false
    → (guard == other) ≡ false
budget_guard-not guard other h k = elim (Bool-cases (guard == other)) [
  | inr e ↦ e
  | inl e ↦ absurd (cc (h, k, ap is_budget_guard (==→≡ guard other e)))
]

pub evaluate-budget :
    (python : Python) (k : Kernel) (run : StageRun) (stage : StageDef) (t : Transition)
    (result : Option AdapterResult) (guard : String) (s : Ledger)
    → t.guard ≡ some guard
    → is_budget_guard guard ≡ true
    → evaluate_transition_guard python k run stage t result s
      ≡ ok (guard_within_budget python k run stage t guard s)
unfolding evaluate_transition_guard evaluate_guard is_allowed_guard
evaluate-budget python k run stage t result guard s e h =
    let not_policy = budget_guard-not guard "policy_approved" h refl in
    let not_artifacts = budget_guard-not guard "has_required_artifacts" h refl in
    rw (e, h, not_policy, not_artifacts) refl

is_consumed-moved :
    (guard : String) (budget : BudgetLimit) (limit used requested : ℕ) (consumes : Bool)
    (source : String) (g : GuardDecision) (k : Kernel) (run : StageRun) (now : ℕ) (t : Transition)
    (next : StageDef) (n : ℕ)
    → is_budget_guard guard ≡ true
    → Passed guard budget limit used requested consumes source g
    → is_consumed run.instance_id guard (moved_event k run now t next g n) ≡ consumes
unfolding is_guarded_transition transitioned_payload field_of
is_consumed-moved guard budget limit used requested consumes source g k run now t next n h p =
    let not_empty = budget_guard-not guard "" h refl in
    rw (p.named, not_empty, p.detailed, eq_refl run.instance_id, eq_refl guard) refl

within_after :
    (consumes : Bool) (counted used limit after : ℕ)
    → after ≡ (if consumes then suc counted else counted)
    → counted ≤ used
    → requested_after consumes used ≤ limit
    → after ≤ limit
within_after true counted used limit after e le within = omega arith
within_after false counted used limit after e le within = omega arith

-- After a move that a guard with a budget of iterations let through, the moves of the instance that
-- the guard counts as consumed, this one included, are at most the limit of the budget.
pub advance-within_iteration_budget :
    (python : Python) (k : Kernel) (run : StageRun) (stage : StageDef) (outcome : String) (now : ℕ)
    (result : Option AdapterResult) (t : Transition) (guard : String) (limit : ℕ) (s s' : Ledger)
    (i : String)
    → find_transition stage.id outcome k.transitions ≡ some t
    → t.guard ≡ some guard
    → is_budget_guard guard ≡ true
    → is_retry guard ≡ false
    → (resolve_budget_limit python k.workflow stage (next_stage_for_transition k t) guard).limit
      ≡ some limit
    → advance_after_outcome python k run stage outcome now result s ≡ (ok (decided_queued i), s')
    → count_consumed run.instance_id guard s'.events ≤ limit
advance-within_iteration_budget python k run stage outcome now result t guard limit s s' i found
      guarded is_budget other limited h =
    let moved =
      advance_after_outcome-Moved python k run stage outcome now result i t s s' found h in
    let g_is : moved.g ≡ guard_within_budget python k run stage t guard s =
      cc (moved.evaluated, evaluate-budget python k run stage t result guard s guarded is_budget) in
    let n = next_stage_attempt run.instance_id moved.next.id s in
    let usage =
      budget_iteration_usage run.instance_id guard t (consumes_transition python guard t) s in
    let passed : Passed guard _ limit usage.0
        (requested_after (consumes_transition python guard t) usage.0)
        (consumes_transition python guard t) usage.1 moved.g =
      subst (Passed guard _ limit _ _ _ _) (sym g_is) (
        iteration-Passed python k run stage t guard limit s other limited
          (ap (λ (g : GuardDecision). g.allowed) (sym g_is) ∙ moved.allowed)) in
    let consumed =
      is_consumed-moved guard _ limit _ _ _ _ moved.g k run now t moved.next n is_budget passed in
    let counted : count_consumed run.instance_id guard s'.events ≡ (
        if consumes_transition python guard t
        then suc (count_consumed run.instance_id guard s.events)
        else count_consumed run.instance_id guard s.events) =
      ap (count_consumed run.instance_id guard) moved.events
      ∙ (count_consumed-append run.instance_id guard s.events
            (moved_event k run now t moved.next moved.g n)
          ∙ ap
              (λ b.
                if b
                then suc (count_consumed run.instance_id guard s.events)
                else count_consumed run.instance_id guard s.events)
              consumed) in
    within_after (consumes_transition python guard t) _ usage.0 limit _ counted
      (count_consumed-le_usage run.instance_id guard t (consumes_transition python guard t) s)
      passed.within

-- The verdict on a budget of attempts.
retry-within :
    (python : Python) (k : Kernel) (run : StageRun) (stage : StageDef) (t : Transition)
    (guard : String) (limit : ℕ) (s : Ledger) (target : StageDef)
    → is_retry guard ≡ true
    → next_stage_for_transition k t ≡ some target
    → (resolve_budget_limit python k.workflow stage (next_stage_for_transition k t) guard).limit
      ≡ some limit
    → (guard_within_budget python k run stage t guard s).allowed ≡ true
    → suc (count_stage_runs run.instance_id target.id s.runs) ≤ limit
unfolding guard_within_budget
retry-within python k run stage t guard limit s target retry there e h =
    (budget_verdict-Passed python guard _ limit _ _ _ _ (rw (e, retry, there) at h)).within

-- After a move that `within_retry_budget` let through, the instance has at most as many runs of the
-- stage that was queued, the queued one included, as the limit of the budget.
pub advance-within_retry_budget :
    (python : Python) (k : Kernel) (run : StageRun) (stage : StageDef) (outcome : String) (now : ℕ)
    (result : Option AdapterResult) (t : Transition) (limit : ℕ) (s s' : Ledger) (i : String)
    → find_transition stage.id outcome k.transitions ≡ some t
    → t.guard ≡ some "within_retry_budget"
    → (resolve_budget_limit python k.workflow stage
        (next_stage_for_transition k t)
        "within_retry_budget").limit
      ≡ some limit
    → advance_after_outcome python k run stage outcome now result s ≡ (ok (decided_queued i), s')
    → count_stage_runs run.instance_id i s'.runs ≤ limit
advance-within_retry_budget python k run stage outcome now result t limit s s' i found guarded
      limited h =
    let moved =
      advance_after_outcome-Moved python k run stage outcome now result i t s s' found h in
    let g_is : moved.g ≡ guard_within_budget python k run stage t "within_retry_budget" s = cc (
      moved.evaluated,
      evaluate-budget python k run stage t result "within_retry_budget" s guarded refl,
    ) in
    let within =
      retry-within python k run stage t "within_retry_budget" limit s moved.next refl moved.is_next
        limited (ap (λ (g : GuardDecision). g.allowed) (sym g_is) ∙ moved.allowed) in
    let counted : count_stage_runs run.instance_id i s'.runs
        ≡ suc (count_stage_runs run.instance_id moved.next.id s.runs) =
      ap (λ j. count_stage_runs run.instance_id j s'.runs) (sym moved.id)
      ∙ (ap (count_stage_runs run.instance_id moved.next.id) moved.runs
          ∙ count_stage_runs-append run.instance_id moved.next.id s.runs moved.row
              moved.row_instance moved.row_stage) in
    subst (λ m. m ≤ limit) (sym counted) within
