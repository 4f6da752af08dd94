-- ===== src/Workflow/Validation/Spec.antt =====
-- What a workflow definition has to be, said of the definition and not of the mapping that
-- `validate_workflow_def` of validation.py writes it out as.
use agent_workflow_kernel.Prelude.{
  ℕ, suc, String, ◌≡◌, ◌≢◌, ◌⊎◌, Bool, true, false, Option, none, some, List, [], ◌∷◌, ◌==◌, ◌&&◌,
  All, Unique, by_key, has_key, exists,
}
use agent_workflow_kernel.Json.{num, Fields, end, field, field_of, keys}
use agent_workflow_kernel.Contracts.Workflow.{Transition, StageDef, WorkflowDef}
use agent_workflow_kernel.Workflow.Validation.Guards.{is_allowed_guard, is_terminal_status}

abbrev pub IsNamed : String → Type 0
IsNamed s = (s == "") ≡ false

-- A lease says nothing, or a positive number of seconds and nothing else.
abbrev pub IsLease : Fields → Type 0
IsLease end = Unit
IsLease (field k v rest) =
    All (λ l. l ≡ "seconds") (keys (field k v rest))
    × ((n : ℕ) × (field_of "seconds" (field k v rest) ≡ some (num (suc n))))

pub record IsStage (s : StageDef) : Type 0 where
  pub id_named : IsNamed s.id
  pub adapter_named : IsNamed s.adapter
  pub lease : IsLease s.lease
  pub has_outcome : s.outcomes ≢ []
  pub outcomes_named : All IsNamed s.outcomes
  pub outcomes_unique : Unique (λ o. o) s.outcomes

abbrev pub stage_id : StageDef → String
stage_id s = s.id

abbrev pub is_blank_text : Option String → Bool
is_blank_text none = true
is_blank_text (some s) = s == ""

-- A transition ends at a stage that there is, or with a status of workflows, and not at both.
pub data Ends (ss : List StageDef) (t : Transition) : Type 0 where
  at_stage :
      (to : String)
      → t.to_stage ≡ some to
      → IsNamed to
      → has_key stage_id to ss ≡ true
      → is_blank_text t.terminal ≡ true
      → Ends ss t
  at_status :
      (status : String)
      → is_blank_text t.to_stage ≡ true
      → t.terminal ≡ some status
      → IsNamed status
      → is_terminal_status status ≡ true
      → Ends ss t

abbrev pub IsGuard : Option String → Type 0
IsGuard none = Unit
IsGuard (some g) = ((g == "") ≡ true) ⊎ (is_allowed_guard g ≡ true)

pub record IsTransition (ss : List StageDef) (t : Transition) : Type 0 where
  pub from_named : IsNamed t.from_stage
  pub outcome_named : IsNamed t.on
  pub origin : StageDef
  pub origin_found : by_key stage_id t.from_stage ss ≡ some origin
  pub declared : exists (λ o. o == t.on) origin.outcomes ≡ true
  pub ends : Ends ss t
  pub guard : IsGuard t.guard

abbrev pub same_source : Transition → Transition → Bool
same_source t u = (t.from_stage == u.from_stage) && (t.on == u.on)

-- No stage's outcome has two transitions.
abbrev pub IsDeterministic : List Transition → Type 0
IsDeterministic [] = Unit
IsDeterministic (t ∷ ts) = (exists (same_source t) ts ≡ false) × IsDeterministic ts

pub record IsWorkflow (w : WorkflowDef) : Type 0 where
  pub id_named : IsNamed w.id
  pub version_named : IsNamed w.version
  pub name_named : IsNamed w.name
  pub stages : All IsStage w.stages
  pub stages_unique : Unique stage_id w.stages
  pub transitions : All (IsTransition w.stages) w.transitions
  pub deterministic : IsDeterministic w.transitions

-- A text that is there is not empty, as `_optional_str` of dsl.py has it.
abbrev pub NoEmptyText : Option String → Type 0
NoEmptyText none = Unit
NoEmptyText (some s) = IsNamed s
