-- ===== src/Kernel/Budgets.antt =====
-- The budget of a transition guard: `_resolve_budget_limit` and what it uses of
-- packages/kernel/agent_workflow_kernel/_helpers.py, with the tables of _internal_types.py.
use Prim.Native.Char.{code}
use Prim.Native.String.{◌++◌ as append, [] as empty_text, ◌∷◌ as next_char}
use agent_workflow_kernel.Prelude.{
  ℕ, String, Bool, ◌||◌, Option, none, some, List, [], ◌∷◌, ◌++◌, ◌==◌, eqb, exists, strip,
  if◌then◌else◌,
}
use agent_workflow_kernel.Json.{
  Json, bool, num, negative, str, obj, Fields, field_of, is_blank, IntReading, unreadable,
  below_zero, natural,
}
use agent_workflow_kernel.Contracts.Workflow.{Transition, StageDef, WorkflowDef}
use agent_workflow_kernel.Kernel.{Python}

pub record BudgetLimit : Type 0 where
  pub limit : Option ℕ
  pub source : Option String
  pub key : Option String
  pub reason : Option String

-- `_BUDGET_GUARD_KEYS`
unfoldable pub budget_keys : String → List String
budget_keys g =
    if g == "within_retry_budget"
    then "max_attempts" ∷ "max_retry_attempts" ∷ "max_retries" ∷ []
    else if g == "within_revision_budget"
    then "max_revision_turns" ∷ "max_revisions" ∷ []
    else if g == "within_ping_pong_budget"
    then "max_ping_pong_turns" ∷ "max_ping_pong" ∷ []
    else if g == "within_research_iteration_budget"
    then "max_research_iterations" ∷ "max_research_turns" ∷ "max_iterations" ∷ []
    else if g == "within_resume_budget"
    then "max_resume_attempts" ∷ "max_resumes" ∷ []
    else []

-- `_BUDGET_GUARD_NESTED_KEYS`
unfoldable pub budget_sections : String → List String
budget_sections g =
    if g == "within_retry_budget"
    then "retry" ∷ "retry_budget" ∷ []
    else if g == "within_revision_budget"
    then "revision_budget" ∷ []
    else if g == "within_ping_pong_budget"
    then "ping_pong_budget" ∷ "a2a_budget" ∷ []
    else if g == "within_research_iteration_budget"
    then "research_budget" ∷ "iteration_budget" ∷ []
    else if g == "within_resume_budget"
    then "resume_budget" ∷ []
    else []

-- `_BUDGET_CONSUMING_OUTCOMES`
unfoldable pub consuming_outcomes : String → List String
consuming_outcomes g =
    if g == "within_retry_budget"
    then "retry" ∷ "retry_needed" ∷ "retry_scheduled" ∷ []
    else if g == "within_revision_budget"
    then "needs_revision" ∷ "revise" ∷ "refine" ∷ []
    else if g == "within_ping_pong_budget"
    then "question" ∷ "answer" ∷ "needs_clarification" ∷ []
    else if g == "within_research_iteration_budget"
    then "needs_more_research" ∷ "approve_more_research" ∷ "more_research" ∷ []
    else if g == "within_resume_budget"
    then "retry_needed" ∷ "resume_needed" ∷ "recover" ∷ []
    else []

abbrev pub no_limit : String → String → String → BudgetLimit
no_limit source key reason = record {
  limit = none;
  source = some source;
  key = some key;
  reason = some reason;
}

abbrev pub some_limit : String → String → ℕ → BudgetLimit
some_limit source key n = record {
  limit = some n;
  source = some source;
  key = some key;
  reason = none;
}

abbrev pub limit_read : String → String → IntReading → BudgetLimit
limit_read source key unreadable = no_limit source key "budget value must be an integer"
limit_read source key below_zero = no_limit source key "budget value must be non-negative"
limit_read source key (natural n) = some_limit source key n

-- `_coerce_budget_limit`
unfoldable pub coerce_budget_limit : Python → Json → String → String → BudgetLimit
coerce_budget_limit python (bool _) source key =
    no_limit source key "budget value must be an integer, not boolean"
coerce_budget_limit python (num n) source key = limit_read source key (natural n)
coerce_budget_limit python (negative _) source key = limit_read source key below_zero
coerce_budget_limit python (str s) source key = limit_read source key (python.int_of s)
coerce_budget_limit python _ source key = limit_read source key unreadable

-- The first of the keys that the mapping has, with its value.
unfoldable pub first_key : List String → Fields → Option (String × Json)
first_key [] value = none
first_key (k ∷ ks) value = elim (field_of k value) [
  | none ↦ first_key ks value
  | some v ↦ some (k, v)
]

abbrev pub limit_at : Python → String → Option (String × Json) → Option BudgetLimit
limit_at python source none = none
limit_at python source (some (k, v)) = some (coerce_budget_limit python v source k)

abbrev pub or_else {ℓ} : {A : Type ℓ} → Option A → Option A → Option A
or_else none b = b
or_else (some a) b = some a

-- What a section's value says of the limit; none if the next section is looked at.
abbrev pub section_limit : Python → String → List String → String → Option Json → Option BudgetLimit
section_limit python source ks section none = none
section_limit python source ks section (some (obj nested)) =
    limit_at python (append source (append "." section)) (first_key ks nested)
section_limit python source ks section (some v) =
    if is_blank v then none else some (no_limit source section "budget section is not a mapping")

unfoldable pub sections_limit :
    Python → String → List String → List String → Fields → Option BudgetLimit
sections_limit python source ks [] value = none
sections_limit python source ks (section ∷ rest) value =
    let later = sections_limit python source ks rest value in
    or_else (section_limit python source ks section (field_of section value)) later

-- `_budget_limit_from_mapping`
unfoldable pub budget_limit_from_mapping : Python → String → Fields → String → Option BudgetLimit
budget_limit_from_mapping python source value guard =
    or_else (limit_at python source (first_key (budget_keys guard) value))
      (sections_limit python source (budget_keys guard) (budget_sections guard) value)

-- Only a mapping is added.
abbrev pub add : String → Option Json → List (String × Fields)
add source (some (obj value)) = (source, value) ∷ []
add source _ = []

abbrev pub stage_source : StageDef → String → String
stage_source s section = append "stages." (append s.id (append "." section))

abbrev pub is_retry : String → Bool
is_retry guard = guard == "within_retry_budget"

abbrev pub stage_sources : String → StageDef → List (String × Fields)
stage_sources guard s =
    (stage_source s "budget", s.budget)
    ∷ ((if is_retry guard then (stage_source s "retry", s.retry) ∷ [] else [])
        ++ (stage_source s "policy", s.policy) ∷ [])

abbrev pub target_sources : String → StageDef → Option StageDef → List (String × Fields)
target_sources guard s none = []
target_sources guard s (some target) = if target.id == s.id then [] else stage_sources guard target

-- `_budget_sources_for_guard`
unfoldable pub budget_sources :
    WorkflowDef → StageDef → Option StageDef → String → List (String × Fields)
budget_sources w s target guard =
    stage_sources guard s
    ++ target_sources guard s target
    ++ (if is_retry guard then add "defaults.retry" (field_of "retry" w.defaults) else [])
    ++ add "defaults.budget" (field_of "budget" w.defaults)
    ++ ("defaults", w.defaults)
      ∷ (add "policies.budget" (field_of "budget" w.policies) ++ ("policies", w.policies) ∷ [])

unfoldable pub first_budget : Python → String → List (String × Fields) → BudgetLimit
first_budget python guard [] = record {
  limit = none;
  source = none;
  key = none;
  reason = some (append "no configured budget found for " guard);
}
first_budget python guard ((source, value) ∷ rest) =
    let later = first_budget python guard rest in
    elim (budget_limit_from_mapping python source value guard) [
      | none ↦ later
      | some budget ↦ budget
    ]

-- `_resolve_budget_limit`
unfoldable pub resolve_budget_limit :
    Python → WorkflowDef → StageDef → Option StageDef → String → BudgetLimit
resolve_budget_limit python w s target guard =
    first_budget python guard (budget_sources w s target guard)

-- `.replace("-", "_").replace(" ", "_")`
unfoldable pub underscored : String → String
underscored empty_text = ""
underscored (next_char c s) =
    let rest = underscored s in
    if eqb (code c) 45 || eqb (code c) 32 then append "_" rest else next_char c rest

-- `_budget_guard_consumes_transition`
unfoldable pub consumes_transition : Python → String → Transition → Bool
consumes_transition python guard t =
    let outcome = underscored (python.lower (strip t.on)) in
    exists (λ o. o == outcome) (consuming_outcomes guard)
