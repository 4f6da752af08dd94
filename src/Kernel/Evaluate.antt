-- ===== src/Kernel/Evaluate.antt =====
-- Transition guards with a budget, and `_evaluate_transition_guard` of
-- packages/kernel/agent_workflow_kernel/kernel.py. The payload of an event is a mapping.
use Prim.Native.String.{◌++◌ as append}
use agent_workflow_kernel.Prelude.{
  ℕ, suc, String, Bool, true, false, not, ◌&&◌, Option, none, some, List, [], ◌∷◌, ◌==◌, leb,
  exists, decimal, if◌then◌else◌,
}
use agent_workflow_kernel.Json.{
  Json, bool, num, str, arr, obj, strings, Fields, end, get, opt_str, object,
}
use agent_workflow_kernel.Contracts.Workflow.{Transition, StageDef}
use agent_workflow_kernel.Contracts.Results.{AdapterResult}
use agent_workflow_kernel.Contracts.{StageRun}
use agent_workflow_kernel.Ledger.Rows.{EventRow}
use agent_workflow_kernel.Ledger.State.{Ledger, Result, ok}
use agent_workflow_kernel.Workflow.Validation.Guards.{
  is_allowed_guard, is_budget_guard, is_fail_closed_guard,
}
use agent_workflow_kernel.Kernel.{Python, Kernel, next_stage_for_transition}
use agent_workflow_kernel.Kernel.Budgets.{
  BudgetLimit, resolve_budget_limit, consumes_transition, is_retry,
}
use agent_workflow_kernel.Kernel.Guards.{
  GuardDecision, denied, permitted, guard_policy_approved, guard_has_required_artifacts,
  count_stage_runs,
}

abbrev pub payload_fields : Json → Fields
payload_fields (obj fs) = fs
payload_fields _ = end

abbrev pub is_text : String → Json → Bool
is_text t (str s) = s == t
is_text t _ = false

-- An event of a transition that the guard let through.
unfoldable pub is_guarded_transition : String → String → EventRow → Bool
is_guarded_transition i guard e =
    (e.instance_id == i)
    && (e.event_type == "workflow_transitioned")
    && is_text guard (get "guard" (payload_fields e.payload))

abbrev pub is_mapping : Json → Bool
is_mapping (obj _) = true
is_mapping _ = false

abbrev pub is_true : Json → Bool
is_true (bool b) = b
is_true _ = false

abbrev pub guard_budget : EventRow → Json
guard_budget e = get "guard_budget" (payload_fields e.payload)

abbrev pub has_metadata : String → String → EventRow → Bool
has_metadata i guard e = is_guarded_transition i guard e && is_mapping (guard_budget e)

abbrev pub is_consumed : String → String → EventRow → Bool
is_consumed i guard e =
    has_metadata i guard e && is_true (get "consumed" (payload_fields (guard_budget e)))

unfoldable pub count_consumed : String → String → List EventRow → ℕ
count_consumed i guard [] = 0
count_consumed i guard (e ∷ es) =
    let rest = count_consumed i guard es in if is_consumed i guard e then suc rest else rest

abbrev pub runs_of_stage : String → Option String → Ledger → ℕ × String
runs_of_stage i none s = (0, "stage_runs.unavailable")
runs_of_stage i (some st) s = (count_stage_runs i st s.runs, "stage_runs.fallback")

-- `_budget_iteration_usage`
unfoldable pub budget_iteration_usage : String → String → Transition → Bool → Ledger → ℕ × String
budget_iteration_usage i guard t consumes s =
    if exists (has_metadata i guard) s.events
    then (count_consumed i guard s.events, "events.guard_budget")
    else runs_of_stage i (if consumes then t.to_stage else some t.from_stage) s

abbrev pub fraction : ℕ → ℕ → String
fraction requested limit = append (decimal requested) (append "/" (decimal limit))

abbrev pub budget_details : String → BudgetLimit → ℕ → ℕ → ℕ → Bool → String → Json
budget_details guard budget limit used requested consumes source = object (
    ("resolved", bool true)
    ∷ ("guard", str guard)
    ∷ ("limit", num limit)
    ∷ ("source", opt_str budget.source)
    ∷ ("key", opt_str budget.key)
    ∷ ("used", num used)
    ∷ ("requested", num requested)
    ∷ ("consumed", bool consumes)
    ∷ ("usage_source", str source)
    ∷ [])

unfoldable pub budget_verdict :
    Python → String → BudgetLimit → ℕ → ℕ → ℕ → Bool → String → GuardDecision
budget_verdict python guard budget limit used requested consumes source =
    if leb requested limit
    then permitted guard
        (append "Transition guard " (
          append (python.repr guard)
            (append " is within budget " (append (fraction requested limit) "."))))
        (("budget", budget_details guard budget limit used requested consumes source) ∷ [])
    else denied guard
        (append "Transition guard " (
          append (python.repr guard)
            (append " exhausted budget " (append (fraction requested limit) "; failing closed."))))
        (("budget", budget_details guard budget limit used requested consumes source) ∷ [])

abbrev pub reason_or : String → Option String → String
reason_or other none = other
reason_or other (some r) = if r == "" then other else r

abbrev pub requested_after : Bool → ℕ → ℕ
requested_after consumes used = if consumes then suc used else used

abbrev pub retry_verdict :
    Python → String → String → BudgetLimit → ℕ → Bool → Option StageDef → Ledger → GuardDecision
retry_verdict python i guard budget limit consumes none s =
    denied guard "Transition guard 'within_retry_budget' requires a target stage."
      (("budget", object (("resolved", bool true) ∷ ("limit", num limit) ∷ [])) ∷ [])
retry_verdict python i guard budget limit consumes (some target) s =
    budget_verdict python guard budget limit (count_stage_runs i target.id s.runs)
      (suc (count_stage_runs i target.id s.runs)) consumes "stage_runs.target_stage"

abbrev pub iteration_verdict : Python → String → BudgetLimit → ℕ → Bool → ℕ × String → GuardDecision
iteration_verdict python guard budget limit consumes (used, source) =
    budget_verdict python guard budget limit used (requested_after consumes used) consumes source

abbrev pub limit_verdict :
    Python
    → String
    → Transition
    → String
    → BudgetLimit
    → Bool
    → Option StageDef
    → Option ℕ
    → Ledger
    → GuardDecision
limit_verdict python i t guard budget consumes target none s =
    denied guard
      (append "Transition guard "
        (append (python.repr guard) " cannot resolve a valid budget; failing closed."))
      ((
        "budget",
        object (
            ("resolved", bool false)
            ∷ ("source", opt_str budget.source)
            ∷ ("key", opt_str budget.key)
            ∷ ("reason", str (reason_or "missing budget" budget.reason))
            ∷ []),
      )
        ∷ [])
limit_verdict python i t guard budget consumes target (some limit) s =
    if is_retry guard
    then retry_verdict python i guard budget limit consumes target s
    else iteration_verdict python guard budget limit consumes
        (budget_iteration_usage i guard t consumes s)

-- `_guard_within_budget`
unfoldable pub guard_within_budget :
    Python → Kernel → StageRun → StageDef → Transition → String → Ledger → GuardDecision
guard_within_budget python k run stage t guard s =
    let target = next_stage_for_transition k t in
    let budget = resolve_budget_limit python k.workflow stage target guard in
    limit_verdict python run.instance_id t guard budget (consumes_transition python guard t) target
      budget.limit s

-- `sorted(ALLOWED_TRANSITION_GUARDS)`
abbrev pub allowed_guards : String × Json
allowed_guards = (
  "allowed_guards",
  arr (
      strings (
        "has_required_artifacts" ∷ "lease_not_expired" ∷ "policy_approved"
        ∷ "within_ping_pong_budget" ∷ "within_research_iteration_budget" ∷ "within_resume_budget"
        ∷ "within_retry_budget" ∷ "within_revision_budget" ∷ [])),
)

-- What a guard that is declared decides.
unfoldable pub evaluate_guard :
    Python
    → Kernel
    → StageRun
    → StageDef
    → Transition
    → Option AdapterResult
    → String
    → Ledger
    → Result GuardDecision
evaluate_guard python k run stage t result guard s =
    if not (is_allowed_guard guard)
    then ok (
        denied guard
          (append "Unknown transition guard " (append (python.repr guard) "; failing closed."))
          (allowed_guards ∷ []))
    else if guard == "policy_approved"
    then ok (guard_policy_approved python run guard s)
    else if guard == "has_required_artifacts"
    then guard_has_required_artifacts python stage result guard
    else if is_budget_guard guard
    then ok (guard_within_budget python k run stage t guard s)
    else if is_fail_closed_guard guard
    then ok (
        denied guard
          (append "Transition guard " (
            append (python.repr guard)
              " is reserved for a runner-owned budget/recovery evaluator and fails closed until implemented."))
          (("implemented", bool false) ∷ ("stub", bool true) ∷ []))
    else ok (
        denied guard
          (append "Transition guard "
            (append (python.repr guard) " has no evaluator; failing closed."))
          (allowed_guards ∷ []))

abbrev pub guard_of :
    Python
    → Kernel
    → StageRun
    → StageDef
    → Transition
    → Option AdapterResult
    → Option String
    → Ledger
    → Result GuardDecision
guard_of python k run stage t result none s = ok (record {
  allowed = true;
  guard = none;
  reason = "no transition guard declared";
  details = end;
})
guard_of python k run stage t result (some guard) s =
    evaluate_guard python k run stage t result guard s

-- `_evaluate_transition_guard`
unfoldable pub evaluate_transition_guard :
    Python
    → Kernel
    → StageRun
    → StageDef
    → Transition
    → Option AdapterResult
    → Ledger
    → Result GuardDecision
evaluate_transition_guard python k run stage t result s =
    guard_of python k run stage t result t.guard s
