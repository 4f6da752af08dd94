-- ===== src/Policy/Decide.antt =====
-- packages/kernel/agent_workflow_kernel/policy.py: `PolicyEngine`.
pub mod Laws
pub mod Binding
use Prim.Native.String.{◌++◌ as append}
use agent_workflow_kernel.Prelude.{
  ℕ, String, Bool, true, false, not, ◌&&◌, ◌||◌, Option, none, some, List, [], ◌∷◌, ◌==◌, exists,
  if◌then◌else◌,
}
use agent_workflow_kernel.Json.{Json}
use agent_workflow_kernel.Contracts.Risk.{
  RiskClass, read_only, local_draft, review_only, internal_state, external_effect,
  production_effect, financial_effect, auth_effect, destructive_effect, forbidden,
}
use agent_workflow_kernel.Policy.Fingerprint.{ActionRequest, fingerprint_request}
use agent_workflow_kernel.Policy.Approval.{
  HumanApprovalReceipt, ApprovalValidation, validate_approval, prefix,
}

pub data GateDecision : Type 0 where
  allow allow_with_receipt require_human deny : GateDecision

unfoldable pub decision_value : GateDecision → String
decision_value allow = "allow"
decision_value allow_with_receipt = "allow_with_receipt"
decision_value require_human = "require_human"
decision_value deny = "deny"

-- `HARD_GATE_RISK_CLASSES`
abbrev pub is_hard_gate : RiskClass → Bool
is_hard_gate external_effect = true
is_hard_gate production_effect = true
is_hard_gate financial_effect = true
is_hard_gate auth_effect = true
is_hard_gate destructive_effect = true
is_hard_gate _ = false

-- `DEFAULT_ALLOW_WITH_RECEIPT_RISK_CLASSES`
abbrev pub is_default_allowed : RiskClass → Bool
is_default_allowed read_only = true
is_default_allowed local_draft = true
is_default_allowed review_only = true
is_default_allowed internal_state = true
is_default_allowed _ = false

abbrev pub is_forbidden_class : RiskClass → Bool
is_forbidden_class forbidden = true
is_forbidden_class _ = false

unfoldable pub is_forbidden : ActionRequest → Bool
is_forbidden r =
    exists (λ x. x == r.action) r.forbidden_actions || exists is_forbidden_class r.risk_classes

unfoldable pub is_ambiguous : ActionRequest → Bool
is_ambiguous r = not r.side_effects_known || r.side_effects_ambiguous

abbrev pub has_gates {ℓ} : {A : Type ℓ} → List A → Bool
has_gates [] = false
has_gates (_ ∷ _) = true

unfoldable pub is_hard_gated : ActionRequest → Bool
is_hard_gated r = has_gates r.hard_gates || exists is_hard_gate r.risk_classes

unfoldable pub all_default_allowed : ActionRequest → Bool
all_default_allowed r = not (exists (λ c. not (is_default_allowed c)) r.risk_classes)

pub record Decision : Type 0 where
  pub decision : GateDecision
  pub reason : String
  pub approval_ref : Option String

abbrev pub approval_ref_of : Option HumanApprovalReceipt → Option String
approval_ref_of none = none
approval_ref_of (some a) = some a.approval_id

-- What follows from a validation: allowed, by the approval, or a human is required.
abbrev pub by_approval :
    ApprovalValidation → Option HumanApprovalReceipt → String → String → Decision
by_approval v approval why why_not =
    if v.valid
    then record { decision = allow; reason = why; approval_ref = approval_ref_of approval }
    else record { decision = require_human; reason = why_not; approval_ref = none }

-- `_decide`, given what `validate_approval` says, which is pure.
unfoldable pub decide_by :
    ApprovalValidation → ActionRequest → Option HumanApprovalReceipt → Decision
decide_by v r approval =
    if is_forbidden r
    then record { decision = deny; reason = "action is forbidden by policy"; approval_ref = none }
    else if is_ambiguous r
    then by_approval v approval "human approved ambiguous side effect"
        "side effects are unknown or ambiguous"
    else if is_hard_gated r
    then by_approval v approval "human approval matches hard-gated action" v.reason
    else if all_default_allowed r
    then record {
      decision = allow_with_receipt;
      reason = "allowed with receipt";
      approval_ref = none;
    }
    else record {
      decision = require_human;
      reason = "risk class requires human review";
      approval_ref = none;
    }

unfoldable pub decide : ActionRequest → String → Option HumanApprovalReceipt → ℕ → Decision
decide r fingerprint approval now =
    decide_by (validate_approval approval fingerprint (some r.action) now) r approval

pub record PolicyGate : Type 0 where
  pub gate_id : String
  pub workflow_id : String
  pub instance_id : String
  pub stage_id : String
  pub requested_action : String
  pub action_fingerprint : String
  pub risk_classes : List RiskClass
  pub decision : String
  pub evidence_refs : List String
  pub approval_receipt_ref : Option String
  pub decision_reason : Option String

unfoldable pub evaluate :
    (Json → String) → (ℕ → String) → ActionRequest → Option HumanApprovalReceipt → ℕ → PolicyGate
evaluate digest isoformat r approval now =
    let fp = fingerprint_request digest isoformat r in
    let d = decide r fp approval now in
    record {
      gate_id = append "gate-" (prefix fp);
      workflow_id = r.workflow_id;
      instance_id = r.instance_id;
      stage_id = r.stage_id;
      requested_action = r.action;
      action_fingerprint = fp;
      risk_classes = r.risk_classes;
      decision = decision_value d.decision;
      evidence_refs = r.evidence_refs;
      approval_receipt_ref = d.approval_ref;
      decision_reason = some d.reason;
    }
