-- ===== src/Policy/Decide/Laws.antt =====
-- What the decisions of policy.py promise about approvals.
use agent_workflow_kernel.Prelude.{
  ℕ, String, ◌≡◌, refl, ap, ◌∙◌, ◌↔◌, Bool, true, false, ◌||◌, Option, none, some, List, arith,
  eq_iff, eq_refl,
}
use agent_workflow_kernel.Json.{Json}
use agent_workflow_kernel.Policy.Fingerprint.{ActionRequest, fingerprint_request}
use agent_workflow_kernel.Policy.Approval.{
  HumanApprovalReceipt, ApprovalValidation, ApprovalDecision, flag, has_come, is_approved,
  validate_approval, build_test_only_suman_approval,
}
use agent_workflow_kernel.Policy.Decide.{
  GateDecision, allow, deny, allow_with_receipt, require_human, is_forbidden, is_ambiguous,
  is_hard_gated, all_default_allowed, decide_by, decide, evaluate, decision_value,
}

-- The approval is a live human's, of this very action, and stands at the time.
pub record Approves (a : HumanApprovalReceipt) (fingerprint action : String) (now : ℕ)
    : Type 0 where
  pub live : flag "test_only" a.constraints ≡ false
  pub decision : is_approved a.decision ≡ true
  pub action_named : a.exact_action_approved ≡ action
  pub fingerprint_kept : a.action_fingerprint ≡ fingerprint
  pub unrevoked : has_come now a.revoked_at ≡ false
  pub unexpired : has_come now a.expires_at ≡ false

validate_approval_iff :
    (a : HumanApprovalReceipt) (fp action : String) (now : ℕ)
    → ((validate_approval (some a) fp (some action) now).valid ≡ true) ↔ Approves a fp action now
unfolding validate_approval
validate_approval_iff a fp action now = (
  λ h. record {
    live = ground arith;
    decision = ground arith;
    action_named = ground (arith, eq_iff a.exact_action_approved action);
    fingerprint_kept = ground (arith, eq_iff a.action_fingerprint fp);
    unrevoked = ground arith;
    unexpired = ground arith;
  },
  λ p.
      rw
        (
          p.live,
          p.decision,
          p.action_named,
          p.fingerprint_kept,
          p.unrevoked,
          p.unexpired,
          eq_refl action,
          eq_refl fp,
        )
        refl,
)

-- An action whose effects are unclear, or that passes a hard gate.
abbrev pub needs_approval : ActionRequest → Bool
needs_approval r = is_ambiguous r || is_hard_gated r

decide_by-allow :
    (v : ApprovalValidation) (r : ActionRequest) (approval : Option HumanApprovalReceipt)
    → ((decide_by v r approval).decision ≡ allow)
      ↔ ((is_forbidden r ≡ false) × (needs_approval r ≡ true) × (v.valid ≡ true))
unfolding decide_by
decide_by-allow v r approval =
    (λ h. (ground arith, ground arith, ground arith), λ (free, needed, valid). ground arith)

decide_by-deny :
    (v : ApprovalValidation) (r : ActionRequest) (approval : Option HumanApprovalReceipt)
    → ((decide_by v r approval).decision ≡ deny) ↔ (is_forbidden r ≡ true)
unfolding decide_by
decide_by-deny v r approval = (λ h. ground arith, λ h. ground arith)

decide_by-receipt :
    (v : ApprovalValidation) (r : ActionRequest) (approval : Option HumanApprovalReceipt)
    → ((decide_by v r approval).decision ≡ allow_with_receipt)
      ↔ ((is_forbidden r ≡ false) × (needs_approval r ≡ false) × (all_default_allowed r ≡ true))
unfolding decide_by
decide_by-receipt v r approval =
    (λ h. (ground arith, ground arith, ground arith), λ (free, unneeded, harmless). ground arith)

validated :
    (approval : Option HumanApprovalReceipt) (fp action : String) (now : ℕ)
    → (validate_approval approval fp (some action) now).valid ≡ true
    → (a : HumanApprovalReceipt) × (approval ≡ some a) × Approves a fp action now
unfolding validate_approval
validated none fp action now h = absurd (cc h)
validated (some a) fp action now h = (a, refl, (validate_approval_iff a fp action now).0 h)

-- The gate's text is `allow` exactly when that is decided.
decision_value-allow : (d : GateDecision) → (decision_value d ≡ "allow") ↔ (d ≡ allow)
unfolding decision_value
decision_value-allow allow = (λ _. refl, λ _. refl)
decision_value-allow allow_with_receipt = (λ h. absurd (cc h), λ h. absurd (cc h))
decision_value-allow require_human = (λ h. absurd (cc h), λ h. absurd (cc h))
decision_value-allow deny = (λ h. absurd (cc h), λ h. absurd (cc h))

decide_allows_iff :
    (r : ActionRequest) (fp : String) (approval : Option HumanApprovalReceipt) (now : ℕ)
    → ((decide r fp approval now).decision ≡ allow) ↔ (
        (is_forbidden r ≡ false)
        × (needs_approval r ≡ true)
        × ((a : HumanApprovalReceipt) × (approval ≡ some a) × Approves a fp r.action now))
unfolding decide
decide_allows_iff r fp approval now =
    let chain = decide_by-allow (validate_approval approval fp (some r.action) now) r approval in
    (
      λ h.
          let (free, needed, valid) = chain.0 h in
          (free, needed, validated approval fp r.action now valid),
      λ (free, needed, found).
          let (a, e, p) = found in
          chain.1 (
            free,
            needed,
            ap (λ x. (validate_approval x fp (some r.action) now).valid) e
                ∙ (validate_approval_iff a fp r.action now).1 p,
          ),
    )

-- The engine evaluates a request to `allow` exactly when its action is not forbidden, its effects are
-- unclear or pass a hard gate, and it is given an approval that is not a test's, that approves this
-- action under the request's fingerprint, and that is neither revoked nor expired at the time.
pub evaluate_allows_iff :
    (digest : Json → String) (isoformat : ℕ → String) (r : ActionRequest)
    (approval : Option HumanApprovalReceipt) (now : ℕ)
    → ((evaluate digest isoformat r approval now).decision ≡ "allow") ↔ (
        (is_forbidden r ≡ false)
        × (needs_approval r ≡ true)
        × ((a : HumanApprovalReceipt) × (approval ≡ some a)
            × Approves a (fingerprint_request digest isoformat r) r.action now))
unfolding evaluate
evaluate_allows_iff digest isoformat r approval now =
    let fp = fingerprint_request digest isoformat r in
    let text = decision_value-allow (decide r fp approval now).decision in
    let cases = decide_allows_iff r fp approval now in
    (λ h. cases.0 (text.0 h), λ x. text.1 (cases.1 x))

-- An action is denied exactly when it is forbidden. It is allowed with a receipt exactly when it is not
-- forbidden, its effects are clear, it passes no hard gate, and all its risk classes are allowed by
-- default. No approval plays a part in either.
pub decide_without_approval_iff :
    (r : ActionRequest) (fp : String) (approval : Option HumanApprovalReceipt) (now : ℕ)
    → (((decide r fp approval now).decision ≡ deny) ↔ (is_forbidden r ≡ true))
      × (((decide r fp approval now).decision ≡ allow_with_receipt) ↔ (
          (is_forbidden r ≡ false) × (needs_approval r ≡ false) × (all_default_allowed r ≡ true)))
unfolding decide
decide_without_approval_iff r fp approval now =
    let v = validate_approval approval fp (some r.action) now in
    (decide_by-deny v r approval, decide_by-receipt v r approval)

-- The fixture approval for a request, whatever is decided in it, is valid for no action, no fingerprint
-- and no time.
pub test_only_never_authorizes :
    (digest : Json → String) (isoformat : ℕ → String) (sha256_text : String → String)
    (r : ActionRequest) (d : ApprovalDecision) (evidence : List String) (created : Option ℕ)
    (key : Option String) (fp : String) (action : Option String) (now : ℕ)
    → (validate_approval
        (some
          (build_test_only_suman_approval digest isoformat sha256_text r d evidence created key))
        fp
        action
        now).valid
      ≡ false
unfolding validate_approval build_test_only_suman_approval flag
test_only_never_authorizes digest isoformat sha256_text r d evidence created key fp action now =
    refl
