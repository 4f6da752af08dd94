-- ===== src/Tests/Policy.antt =====
-- The theorems on policy decisions, at a deployment, its approval, and a digest that tells texts apart.
use agent_workflow_kernel.Prelude.{
  ℕ, zero, suc, order_by, insert_by, String, ap, ◌≡◌, ◌↔◌, refl, true, false, none, some, [], ◌∷◌,
  exists,
}
use agent_workflow_kernel.Json.{
  Json, null, num, negative, str, arr, obj, Items, nil, cons, Fields, end, field, bool,
}
use Prim.Native.String.{◌++◌ as append, ◌∷◌ as next_char}
use agent_workflow_kernel.Contracts.Risk.{RiskClass, risk_value}
use agent_workflow_kernel.Policy.Fingerprint.{
  ActionRequest, HardGate, canonical_fields, insert_field, fingerprint_request, payload, authority,
}
use agent_workflow_kernel.Policy.Approval.{
  HumanApprovalReceipt, ApprovalDecision, flag, validate_approval, build_test_only_suman_approval,
}
use agent_workflow_kernel.Policy.Decide.{
  allow_with_receipt, deny, decide, evaluate, is_forbidden, is_ambiguous, is_hard_gated,
  all_default_allowed,
}
use agent_workflow_kernel.Policy.Decide.Laws.{
  Approves, needs_approval, evaluate_allows_iff, decide_without_approval_iff,
  test_only_never_authorizes,
}
use agent_workflow_kernel.Policy.Decide.Binding.{SameAction, approval_is_for_one_action}

-- A digest that shows the whole payload but numbers, and a clock in unary.
mutual
  shown : Json → String
  shown null = "null"
  shown (bool true) = "true"
  shown (bool false) = "false"
  shown (num n) = "n"
  shown (negative n) = "-n"
  shown (str t) = append "'" (append t "'")
  shown (arr xs) = append "[" (append (shown_items xs) "]")
  shown (obj fs) = append "{" (append (shown_fields fs) "}")

  shown_items : Items → String
  shown_items nil = ""
  shown_items (cons x xs) = append (shown x) (append "," (shown_items xs))

  shown_fields : Fields → String
  shown_fields end = ""
  shown_fields (field k v fs) =
      append k (append ":" (append (shown v) (append "," (shown_fields fs))))

abbrev sample_digest : Json → String
sample_digest = shown

ticks : ℕ → String
ticks zero = ""
ticks (suc n) = next_char "I" (ticks n)

ticks-injective : (t u : ℕ) → ticks t ≡ ticks u → t ≡ u
unfolding ticks
ticks-injective zero zero h = refl
ticks-injective zero (suc u) h = absurd (cc h)
ticks-injective (suc t) zero h = absurd (cc h)
ticks-injective (suc t) (suc u) h = ap suc (ticks-injective t u (cc h))

abbrev sample_time : ℕ → String
sample_time = ticks

abbrev deployment : ActionRequest
deployment = record {
  action = "deploy";
  target_ref = "site";
  arguments = field "version" (bool true) (field "draft" (bool false) end);
  artifact_hashes = "h" ∷ [];
  context_packet_digest = none;
  risk_classes = RiskClass.production_effect ∷ RiskClass.external_effect ∷ [];
  hard_gates = HardGate.deploy ∷ [];
  workflow_id = "release";
  instance_id = "i1";
  stage_id = "ship";
  stage_run_id = some "i1:ship:1";
  workflow_definition_hash = some "w";
  allowed_decisions = [];
  state_constraints = end;
  expires_at = some 3;
  actor_ref = none;
  adapter_ref = none;
  evidence_refs = [];
  forbidden_actions = [];
  side_effects_known = true;
  side_effects_ambiguous = false;
}

-- The same action, asked for by another actor and written in another order.
abbrev deployment_again : ActionRequest
deployment_again = record deployment {
  actor_ref = some "ivy";
  arguments = field "draft" (bool false) (field "version" (bool true) end);
  risk_classes = RiskClass.external_effect ∷ RiskClass.production_effect ∷ [];
}

abbrev signed : HumanApprovalReceipt
signed = record {
  approval_id = "a1";
  gate_id = "g1";
  human_ref = "someone";
  canonical_surface = "chat";
  decision = ApprovalDecision.approved;
  exact_action_approved = "deploy";
  action_fingerprint = fingerprint_request sample_digest sample_time deployment;
  evidence_refs = [];
  constraints = end;
  created_at = none;
  expires_at = some 100;
  revoked_at = none;
  transcript_or_message_ref = none;
}

evaluate_allows_iff_example :
    ((evaluate sample_digest sample_time deployment (some signed) 50).decision ≡ "allow") ↔ (
      (is_forbidden deployment ≡ false)
      × (needs_approval deployment ≡ true)
      × ((a : HumanApprovalReceipt) × (some signed ≡ some a)
          × Approves a (fingerprint_request sample_digest sample_time deployment) "deploy" 50))
evaluate_allows_iff_example =
    evaluate_allows_iff sample_digest sample_time deployment (some signed) 50

deployment_allowed :
    (evaluate sample_digest sample_time deployment (some signed) 50).decision ≡ "allow"
unfolding is_forbidden is_ambiguous is_hard_gated exists flag fingerprint_request
deployment_allowed = (evaluate_allows_iff sample_digest sample_time deployment (some signed) 50).1 (
  refl,
  refl,
  (
    signed,
    refl,
    record {
      live = refl;
      decision = refl;
      action_named = refl;
      fingerprint_kept = refl;
      unrevoked = refl;
      unexpired = refl;
    },
  ),
)

again_allowed :
    (evaluate sample_digest sample_time deployment_again (some signed) 60).decision ≡ "allow"
unfolding is_forbidden is_ambiguous is_hard_gated exists flag fingerprint_request payload authority
    canonical_fields insert_field risk_value order_by insert_by
again_allowed =
    (evaluate_allows_iff sample_digest sample_time deployment_again (some signed) 60).1 (
      refl,
      refl,
      (
        signed,
        refl,
        record {
          live = refl;
          decision = refl;
          action_named = refl;
          fingerprint_kept = refl;
          unrevoked = refl;
          unexpired = refl;
        },
      ),
    )

approval_is_for_one_action_example : SameAction deployment deployment_again
unfolding payload authority canonical_fields insert_field risk_value order_by insert_by
approval_is_for_one_action_example =
    approval_is_for_one_action sample_digest sample_time deployment deployment_again signed 50 60
      (λ _. refl) ticks-injective deployment_allowed again_allowed

decide_without_approval_iff_example :
    (((decide deployment "f" none 50).decision ≡ deny) ↔ (is_forbidden deployment ≡ true))
    × (((decide deployment "f" none 50).decision ≡ allow_with_receipt) ↔ (
        (is_forbidden deployment ≡ false)
        × (needs_approval deployment ≡ false)
        × (all_default_allowed deployment ≡ true)))
decide_without_approval_iff_example = decide_without_approval_iff deployment "f" none 50

test_only_never_authorizes_example :
    (validate_approval
      (some (
        build_test_only_suman_approval sample_digest sample_time
          (λ s. s)
          deployment
          ApprovalDecision.approved
          []
          none
          none))
      (fingerprint_request sample_digest sample_time deployment)
      (some "deploy")
      50).valid
    ≡ false
test_only_never_authorizes_example =
    test_only_never_authorizes sample_digest sample_time (λ s. s) deployment
      ApprovalDecision.approved [] none none
      (fingerprint_request sample_digest sample_time deployment) (some "deploy") 50
