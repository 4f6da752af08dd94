-- ===== src/Kernel/Adapters.antt =====
-- packages/kernel/agent_workflow_kernel/adapter_registry.py, for adapters of any type, and the outcome
-- that `_outcome_for_stage_result` of _helpers.py makes of what an adapter returned.
use agent_workflow_kernel.Prelude.{
  String, Bool, true, false, ◌||◌, Option, none, some, List, [], ◌∷◌, ◌++◌, ◌==◌, exists, is_some,
  has_key, by_key, if◌then◌else◌,
}
use agent_workflow_kernel.Json.{Json, str, Fields, field_of, ℤ}
use agent_workflow_kernel.Contracts.Risk.{RiskClass}
use agent_workflow_kernel.Contracts.Results.{AdapterResult}
use agent_workflow_kernel.Contracts.Stages.{
  AdapterFamily, runtime, surface, host, lane, StageType, agent_work, agent_gate, a2a_review_loop,
  human_gate,
}
use agent_workflow_kernel.Contracts.Workflow.{StageDef}
use agent_workflow_kernel.Kernel.Lease.{after_prefix}

pub record AdapterRegistration {ℓ} (A : Type ℓ) : Type ℓ where
  pub adapter_id : String
  pub family : AdapterFamily
  pub adapter : A
  pub operations : List String
  pub side_effects : List RiskClass
  pub replay_safe : Bool
  pub requires_idempotency_key : Bool
  pub default_timeout_seconds : Option ℤ
  pub proof_capabilities : List String
  pub metadata : Fields

-- What an adapter's `capabilities()` returns, as far as a registration takes it over.
pub record Capabilities : Type 0 where
  pub adapter_id : String
  pub family : AdapterFamily
  pub operations : List String
  pub metadata : Fields

-- `from_runtime_adapter`, and alike for the other families.
abbrev pub registration_from {ℓ} :
    {A : Type ℓ} → Capabilities → A → List RiskClass → Bool → AdapterRegistration A
registration_from c adapter side_effects replay_safe = record {
  adapter_id = c.adapter_id;
  family = c.family;
  adapter = adapter;
  operations = c.operations;
  side_effects = side_effects;
  replay_safe = replay_safe;
  requires_idempotency_key = true;
  default_timeout_seconds = none;
  proof_capabilities = [];
  metadata = c.metadata;
}

-- AdapterRegistryError, by its message.
pub data RegistryError : Type 0 where
  duplicate missing mismatch : RegistryError

pub data Looked {ℓ} (A : Type ℓ) : Type ℓ where
  found : A → Looked A
  refused : RegistryError → Looked A

abbrev pub is_agent_stage : StageType → Bool
is_agent_stage agent_work = true
is_agent_stage agent_gate = true
is_agent_stage a2a_review_loop = true
is_agent_stage _ = false

abbrev pub is_human_gate : StageType → Bool
is_human_gate human_gate = true
is_human_gate _ = false

abbrev pub starts_with : String → String → Bool
starts_with p s = is_some (after_prefix p s)

unfoldable pub adapter_family_for_stage : StageType → String → AdapterFamily
adapter_family_for_stage t ref =
    if is_human_gate t || starts_with "surface." ref
    then surface
    else if starts_with "host." ref
    then host
    else if starts_with "runtime." ref || is_agent_stage t
    then runtime
    else lane

abbrev pub is_family : AdapterFamily → AdapterFamily → Bool
is_family runtime runtime = true
is_family surface surface = true
is_family host host = true
is_family lane lane = true
is_family _ _ = false

module _ {ℓ} {A : Type ℓ} where
  abbrev pub registration_key : AdapterRegistration A → String
  registration_key r = r.adapter_id

  -- `AdapterRegistration.supports`
  unfoldable pub supports : AdapterRegistration A → String → Bool
  supports r operation = exists (λ o. o == operation) r.operations

  unfoldable pub register :
      AdapterRegistration A → List (AdapterRegistration A) → Looked (List (AdapterRegistration A))
  register r rs =
      if has_key registration_key r.adapter_id rs then refused duplicate else found (rs ++ r ∷ [])

  abbrev pub then_register :
      AdapterRegistration A
      → Looked (List (AdapterRegistration A))
      → Looked (List (AdapterRegistration A))
  then_register r (found rs) = register r rs
  then_register r (refused e) = refused e

  -- `AdapterRegistry.__init__`, from the registrations that are there already.
  unfoldable pub register_all :
      List (AdapterRegistration A)
      → Looked (List (AdapterRegistration A))
      → Looked (List (AdapterRegistration A))
  register_all [] rs = rs
  register_all (r ∷ more) rs = register_all more (then_register r rs)

  abbrev pub of_family :
      AdapterFamily → Option (AdapterRegistration A) → Looked (AdapterRegistration A)
  of_family expected none = refused missing
  of_family expected (some r) = if is_family r.family expected then found r else refused mismatch

  unfoldable pub resolve :
      String → StageType → List (AdapterRegistration A) → Looked (AdapterRegistration A)
  resolve ref t rs = of_family (adapter_family_for_stage t ref) (by_key registration_key ref rs)

  unfoldable pub validate_ref : String → List (AdapterRegistration A) → Looked (Unit {0})
  validate_ref ref rs = if has_key registration_key ref rs then found tt else refused missing

-- `_outcome_for_stage_result`
abbrev pub only_outcome : List String → String
only_outcome (o ∷ []) = o
only_outcome _ = "succeeded"

abbrev pub among : List String → String → Bool
among os o = exists (λ x. x == o) os

abbrev pub hinted_outcome : StageDef → AdapterResult → String
hinted_outcome s result =
    let by_status =
      if among s.outcomes result.status then result.status else only_outcome s.outcomes in
    elim result.next_hint [
      | none ↦ by_status
      | some hint ↦ if among s.outcomes hint then hint else by_status
    ]

abbrev pub reported_outcome : StageDef → AdapterResult → Option Json → String
reported_outcome s result (some (str o)) = if o == "" then hinted_outcome s result else o
reported_outcome s result _ = hinted_outcome s result

unfoldable pub outcome_for_stage_result : StageDef → Option AdapterResult → String
outcome_for_stage_result s none = only_outcome s.outcomes
outcome_for_stage_result s (some result) =
    reported_outcome s result (field_of "outcome" result.outputs)
