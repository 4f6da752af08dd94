-- ===== src/Kernel/Advance/Permits.antt =====
-- When a transition is let through by `_evaluate_transition_guard` of
-- packages/kernel/agent_workflow_kernel/kernel.py.
use agent_workflow_kernel.Prelude.{
  ℕ, suc, String, ◌≡◌, ◌≤◌, ◌↔◌, refl, ap, sym, subst, ◌∙◌, Bool, true, false, Option, none, some,
  List, [], ◌∷◌, inl, inr, arith, ◌==◌, ==→≡, leb, exists, select, All, Bool-cases, Option-cases,
}
use agent_workflow_kernel.Json.{end}
use agent_workflow_kernel.Contracts.{StageRun}
use agent_workflow_kernel.Contracts.Workflow.{Transition, StageDef}
use agent_workflow_kernel.Contracts.Results.{AdapterResult}
use agent_workflow_kernel.Ledger.Rows.{DecisionRow}
use agent_workflow_kernel.Ledger.State.{Ledger, ok, bind-ok}
use agent_workflow_kernel.Workflow.Validation.Guards.{
  is_allowed_guard, is_budget_guard, is_fail_closed_guard,
}
use agent_workflow_kernel.Kernel.{Python, Kernel, next_stage_for_transition}
use agent_workflow_kernel.Kernel.Budgets.{
  BudgetLimit, resolve_budget_limit, consumes_transition, is_retry,
}
use agent_workflow_kernel.Kernel.Advance.Spent.{evaluate-budget}
use agent_workflow_kernel.Kernel.Guards.{
  GuardDecision, is_approving, latest_decision, approval_found, guard_policy_approved,
  required_artifact_roles, present_roles, missing_roles, missing_found, roles_guard,
  guard_has_required_artifacts, count_stage_runs,
}
use agent_workflow_kernel.Kernel.Evaluate.{
  budget_iteration_usage, budget_verdict, requested_after, guard_within_budget, evaluate_guard,
  guard_of, evaluate_transition_guard,
}

abbrev pub present_in : Option AdapterResult → List String
present_in none = []
present_in (some result) = present_roles result

-- The conditions under which a guard lets a transition through.
pub data Permits (python : Python) (k : Kernel) (run : StageRun) (stage : StageDef) (t : Transition)
    (result : Option AdapterResult) (s : Ledger) : Option String → Type 0 where
  unguarded : Permits python k run stage t result s none
  approved :
      (d : DecisionRow)
      → latest_decision run.instance_id run.stage_run_id s ≡ some d
      → is_approving d.decision ≡ true
      → Permits python k run stage t result s (some "policy_approved")
  has_artifacts :
      (required : List String)
      → required_artifact_roles python stage.outputs ≡ ok required
      → All (λ r. exists (λ p. p == r) (present_in result) ≡ true) required
      → Permits python k run stage t result s (some "has_required_artifacts")
  within_retries :
      (limit : ℕ) (target : StageDef)
      → (resolve_budget_limit python k.workflow stage
          (next_stage_for_transition k t)
          "within_retry_budget").limit
        ≡ some limit
      → next_stage_for_transition k t ≡ some target
      → suc (count_stage_runs run.instance_id target.id s.runs) ≤ limit
      → Permits python k run stage t result s (some "within_retry_budget")
  within_iterations :
      (guard : String) (limit : ℕ)
      → is_budget_guard guard ≡ true
      → is_retry guard ≡ false
      → (resolve_budget_limit python k.workflow stage (next_stage_for_transition k t) guard).limit
        ≡ some limit
      → requested_after
          (consumes_transition python guard t)
          (budget_iteration_usage run.instance_id guard t (consumes_transition python guard t) s).0
        ≤ limit
      → Permits python k run stage t result s (some guard)

approval_found-allowed :
    (python : Python) (guard : String) (o : Option DecisionRow)
    → (approval_found python guard o).allowed ≡ true
    → (d : DecisionRow) × (o ≡ some d) × (is_approving d.decision ≡ true)
approval_found-allowed python guard none h = absurd (cc h)
approval_found-allowed python guard (some d) h = elim (Bool-cases (is_approving d.decision)) [
  | inl e ↦ (d, refl, e)
  | inr e ↦ absurd (cc (rw e at h))
]

missing_roles-none :
    (required present : List String)
    → missing_roles required present ≡ []
    → All (λ r. exists (λ p. p == r) present ≡ true) required
unfolding select
missing_roles-none [] present h = tt
missing_roles-none (r ∷ rs) present h = elim (Bool-cases (exists (λ p. p == r) present)) [
  | inl e ↦ (e, missing_roles-none rs present (rw e at h))
  | inr e ↦ absurd (cc (rw e at h))
]

none-missing_roles :
    (required present : List String)
    → All (λ r. exists (λ p. p == r) present ≡ true) required
    → missing_roles required present ≡ []
unfolding select
none-missing_roles [] present h = refl
none-missing_roles (r ∷ rs) present h = rw (h.0) (none-missing_roles rs present h.1)

missing_found-allowed :
    (guard : String) (required present missing : List String)
    → (missing_found guard required present missing).allowed ≡ true
    → missing ≡ []
missing_found-allowed guard required present [] h = refl
missing_found-allowed guard required present (m ∷ ms) h = absurd (cc h)

roles_guard-allowed :
    (guard : String) (result : Option AdapterResult) (required : List String)
    → (roles_guard guard result required).allowed ≡ true
    → All (λ r. exists (λ p. p == r) (present_in result) ≡ true) required
roles_guard-allowed guard result [] h = tt
roles_guard-allowed guard none (r ∷ rs) h = absurd (cc h)
roles_guard-allowed guard (some result) (r ∷ rs) h =
    missing_roles-none (r ∷ rs) (present_roles result)
      (missing_found-allowed guard (r ∷ rs) (present_roles result) _ h)

allowed-roles_guard :
    (guard : String) (result : Option AdapterResult) (required : List String)
    → All (λ r. exists (λ p. p == r) (present_in result) ≡ true) required
    → (roles_guard guard result required).allowed ≡ true
unfolding exists
allowed-roles_guard guard result [] h = refl
allowed-roles_guard guard none (r ∷ rs) h = absurd (cc (h.0))
allowed-roles_guard guard (some result) (r ∷ rs) h =
    ap (λ m. (missing_found guard (r ∷ rs) (present_roles result) m).allowed)
      (none-missing_roles (r ∷ rs) (present_roles result) h)

verdict-within :
    (python : Python) (guard : String) (budget : BudgetLimit) (limit used requested : ℕ)
    (consumes : Bool) (source : String)
    → (budget_verdict python guard budget limit used requested consumes source).allowed ≡ true
    → requested ≤ limit
unfolding budget_verdict
verdict-within python guard budget limit used requested consumes source h =
    elim (Bool-cases (leb requested limit)) [
      | inl e ↦ ground arith
      | inr e ↦ absurd (cc (rw e at h))
    ]

within-verdict :
    (python : Python) (guard : String) (budget : BudgetLimit) (limit used requested : ℕ)
    (consumes : Bool) (source : String)
    → requested ≤ limit
    → (budget_verdict python guard budget limit used requested consumes source).allowed ≡ true
unfolding budget_verdict
within-verdict python guard budget limit used requested consumes source h =
    let e : leb requested limit ≡ true = ground arith in rw e refl

module _ (python : Python) (k : Kernel) (run : StageRun) (stage : StageDef) (t : Transition)
    (result : Option AdapterResult) (s : Ledger) where
  budget-Permits :
      (guard : String)
      → is_budget_guard guard ≡ true
      → (guard_within_budget python k run stage t guard s).allowed ≡ true
      → Permits python k run stage t result s (some guard)
  unfolding guard_within_budget
  budget-Permits guard is_budget h =
      elim (Option-cases
        (resolve_budget_limit python k.workflow stage (next_stage_for_transition k t)
          guard).limit) [
            | inl e ↦ absurd (cc (rw e at h))
            | inr (limit, e) ↦ elim (Bool-cases (is_retry guard)) [
              | inr other ↦
                  within_iterations guard limit is_budget other e
                    (verdict-within python guard _ limit _ _ _ _ (rw (e, other) at h))
              | inl retry ↦ elim (Option-cases (next_stage_for_transition k t)) [
                | inl gone ↦ absurd (cc (rw (e, retry, gone) at h))
                | inr (target, there) ↦
                    let same = ==→≡ guard "within_retry_budget" retry in
                    subst (λ g. Permits python k run stage t result s (some g)) (sym same)
                      (within_retries limit target
                        (subst
                          (λ g.
                            (resolve_budget_limit python k.workflow stage
                              (next_stage_for_transition k t) g).limit
                            ≡ some limit)
                          same e)
                        there
                        (verdict-within python guard _ limit _ _ _ _ (rw (e, retry, there) at h)))
              ]
            ]
          ]

  evaluate_guard-Permits :
      (guard : String) (g : GuardDecision)
      → evaluate_guard python k run stage t result guard s ≡ ok g
      → g.allowed ≡ true
      → Permits python k run stage t result s (some guard)
  unfolding evaluate_guard guard_policy_approved guard_has_required_artifacts
  evaluate_guard-Permits guard g h allowed = elim (Bool-cases (is_allowed_guard guard)) [
    | inr e0 ↦ absurd (cc (allowed, (rw e0 at h)))
    | inl e0 ↦ elim (Bool-cases (guard == "policy_approved")) [
      | inl e1 ↦
          let (d, found, ok_d) =
            approval_found-allowed python guard (latest_decision run.instance_id run.stage_run_id s)
              (cc (allowed, (rw (e0, e1) at h))) in
          subst (λ x. Permits python k run stage t result s (some x))
            (sym (==→≡ guard "policy_approved" e1)) (approved d found ok_d)
      | inr e1 ↦ elim (Bool-cases (guard == "has_required_artifacts")) [
        | inl e2 ↦
            let (required, found, last) =
              bind-ok (required_artifact_roles python stage.outputs) _ g (rw (e0, e1, e2) at h) in
            subst (λ x. Permits python k run stage t result s (some x))
              (sym (==→≡ guard "has_required_artifacts" e2))
              (has_artifacts required found
                (roles_guard-allowed guard result required (cc (allowed, last))))
        | inr e2 ↦ elim (Bool-cases (is_budget_guard guard)) [
          | inl e3 ↦ budget-Permits guard e3 (cc (allowed, (rw (e0, e1, e2, e3) at h)))
          | inr e3 ↦ elim (Bool-cases (is_fail_closed_guard guard)) [
            | inl e4 ↦ absurd (cc (allowed, (rw (e0, e1, e2, e3, e4) at h)))
            | inr e4 ↦ absurd (cc (allowed, (rw (e0, e1, e2, e3, e4) at h)))
          ]
        ]
      ]
    ]
  ]

  guard_of-Permits :
      (o : Option String) (g : GuardDecision)
      → guard_of python k run stage t result o s ≡ ok g
      → g.allowed ≡ true
      → Permits python k run stage t result s o
  guard_of-Permits none g h allowed = unguarded
  guard_of-Permits (some guard) g h allowed = evaluate_guard-Permits guard g h allowed

  Permits-guard_of :
      (o : Option String)
      → t.guard ≡ o
      → Permits python k run stage t result s o
      → (g : GuardDecision) × (evaluate_transition_guard python k run stage t result s ≡ ok g)
        × (g.allowed ≡ true)
  unfolding evaluate_transition_guard evaluate_guard is_allowed_guard guard_policy_approved
      guard_has_required_artifacts guard_within_budget
  Permits-guard_of o e unguarded = (
    record { allowed = true; guard = none; reason = "no transition guard declared"; details = end },
    rw e refl,
    refl,
  )
  Permits-guard_of o e (approved d found ok_d) = (
    approval_found python "policy_approved" (latest_decision run.instance_id run.stage_run_id s),
    rw e refl,
    ap (λ x. (approval_found python "policy_approved" x).allowed) found ∙ rw ok_d refl,
  )
  Permits-guard_of o e (has_artifacts required found present) = (
    roles_guard "has_required_artifacts" result required,
    rw (e, found) refl,
    allowed-roles_guard "has_required_artifacts" result required present,
  )
  Permits-guard_of o e (within_retries limit target limited there le) = (
    _,
    evaluate-budget python k run stage t result "within_retry_budget" s e refl,
    rw (limited, there) (within-verdict python "within_retry_budget" _ limit _ _ _ _ le),
  )
  Permits-guard_of o e (within_iterations guard limit is_budget other limited le) = (
    _,
    evaluate-budget python k run stage t result guard s e is_budget,
    rw (limited, other) (within-verdict python guard _ limit _ _ _ _ le),
  )

  -- A transition is let through exactly if it has no guard, or its guard is `policy_approved` and the
  -- latest decision on the run approves, or `has_required_artifacts` and the result has an artifact of
  -- every required role, or a budget guard whose limit is found and not passed by this transition. So
  -- unknown and reserved guards let nothing through.
  pub evaluate_transition_guard_iff :
      ((g : GuardDecision) × (evaluate_transition_guard python k run stage t result s ≡ ok g)
        × (g.allowed ≡ true))
      ↔ Permits python k run stage t result s t.guard
  unfolding evaluate_transition_guard
  evaluate_transition_guard_iff =
      (λ (g, h, allowed). guard_of-Permits t.guard g h allowed, Permits-guard_of t.guard refl)
