-- ===== src/Contracts/Risk.antt =====
-- `RiskClass` of packages/kernel/agent_workflow_kernel/contracts.py: the enumeration and its texts.
use agent_workflow_kernel.Prelude.{String}

pub data RiskClass : Type 0 where
  read_only local_draft review_only internal_state external_effect production_effect : RiskClass
  financial_effect auth_effect destructive_effect forbidden : RiskClass

unfoldable pub risk_value : RiskClass → String
risk_value read_only = "read_only"
risk_value local_draft = "local_draft"
risk_value review_only = "review_only"
risk_value internal_state = "internal_state"
risk_value external_effect = "external_effect"
risk_value production_effect = "production_effect"
risk_value financial_effect = "financial_effect"
risk_value auth_effect = "auth_effect"
risk_value destructive_effect = "destructive_effect"
risk_value forbidden = "forbidden"
