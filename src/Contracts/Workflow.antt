-- ===== src/Contracts/Workflow.antt =====
-- packages/kernel/agent_workflow_kernel/contracts.py: the definition of a workflow. A dictionary of
-- arbitrary values is the fields of a JSON object.
use agent_workflow_kernel.Prelude.{String, Bool, Option, List}
use agent_workflow_kernel.Json.{ℤ, Fields}
use agent_workflow_kernel.Contracts.Stages.{StageType}

pub record PromptRef : Type 0 where
  pub id : String
  pub kind : String
  pub version : String
  pub registry : String
  pub render_mode : String
  pub required : Bool
  pub content_hash : Option String

pub record Transition : Type 0 where
  pub from_stage : String
  pub on : String
  pub to_stage : Option String
  pub terminal : Option String
  pub guard : Option String
  pub label : Option String

pub record StageDef : Type 0 where
  pub id : String
  pub type : StageType
  pub adapter : String
  pub outcomes : List String
  pub actors : Fields
  pub inputs : Fields
  pub outputs : Fields
  pub prompt_refs : List PromptRef
  pub no_prompt_reason : Option String
  pub policy : Fields
  pub budget : Fields
  pub retry : Fields
  pub lease : Fields
  pub timeout_seconds : Option ℤ
  pub surface : Fields

pub record WorkflowDef : Type 0 where
  pub id : String
  pub version : String
  pub name : String
  pub stages : List StageDef
  pub transitions : List Transition
  pub schema : String
  pub owner : Option String
  pub description : Option String
  pub inputs : Fields
  pub defaults : Fields
  pub actors : Fields
  pub artifacts : Fields
  pub policies : Fields
  pub compatibility : Fields
