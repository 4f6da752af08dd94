-- ===== src/Policy/Approval.antt =====
-- packages/kernel/agent_workflow_kernel/policy.py: receipts of human approval, their validation, and
-- the fixture approval that must never authorize anything.
use Prim.Native.String.{slice}
use Prim.Native.String.{◌++◌ as append}
use agent_workflow_kernel.Prelude.{
  ℕ, String, Bool, true, false, not, Option, none, some, List, [], ◌∷◌, ◌==◌, leb, if◌then◌else◌,
}
use agent_workflow_kernel.Json.{Json, bool, str, arr, strings, Fields, end, field, entries}
use agent_workflow_kernel.Policy.Fingerprint.{
  public_publish, deploy, live_trade, auth, money, external_send, destructive_change, gate_value,
  ActionRequest, fingerprint_request,
}

pub data ApprovalDecision : Type 0 where
  approved rejected revise park : ApprovalDecision

unfoldable pub approval_value : ApprovalDecision → String
approval_value approved = "approved"
approval_value rejected = "rejected"
approval_value revise = "revise"
approval_value park = "park"

abbrev pub is_approved : ApprovalDecision → Bool
is_approved approved = true
is_approved _ = false

pub record HumanApprovalReceipt : Type 0 where
  pub approval_id : String
  pub gate_id : String
  pub human_ref : String
  pub canonical_surface : String
  pub decision : ApprovalDecision
  pub exact_action_approved : String
  pub action_fingerprint : String
  pub evidence_refs : List String
  pub constraints : Fields
  pub created_at : Option ℕ
  pub expires_at : Option ℕ
  pub revoked_at : Option ℕ
  pub transcript_or_message_ref : Option String

pub record ApprovalValidation : Type 0 where
  pub valid : Bool
  pub reason : String

abbrev pub is_true : Json → Bool
is_true (bool true) = true
is_true _ = false

-- `constraints.get(key) is True`
unfoldable pub flag : String → Fields → Bool
flag k end = false
flag k (field l v rest) = let below = flag k rest in if l == k then is_true v else below

abbrev pub names_another : Option String → HumanApprovalReceipt → Bool
names_another none a = false
names_another (some action) a = not (a.exact_action_approved == action)

-- A time that has come: `t is not None and t <= current_time`.
abbrev pub has_come : ℕ → Option ℕ → Bool
has_come now none = false
has_come now (some t) = leb t now

abbrev refused : String → ApprovalValidation
refused why = record { valid = false; reason = why }

unfoldable pub validate_approval :
    Option HumanApprovalReceipt → String → Option String → ℕ → ApprovalValidation
validate_approval none fingerprint action now = refused "missing approval receipt"
validate_approval (some a) fingerprint action now =
    if flag "test_only" a.constraints
    then refused "test-only approval cannot authorize live actions"
    else if not (is_approved a.decision)
    then refused (append "approval decision is " (approval_value a.decision))
    else if names_another action a
    then refused "approval does not name the exact action"
    else if not (a.action_fingerprint == fingerprint)
    then refused "approval fingerprint does not match action"
    else if has_come now a.revoked_at
    then refused "approval has been revoked"
    else if has_come now a.expires_at
    then refused "approval has expired"
    else record { valid = true; reason = "approval matches action" }

-- The first sixteen characters of a digest, which are ASCII.
abbrev pub prefix : String → String
prefix s = slice s 0 16

fixture_constraints : String → Fields
fixture_constraints key = entries (
    ("test_only", bool true)
    ∷ ("non_live", bool true)
    ∷ ("allowed_scope", str "fixtures/tests/local_review_packets")
    ∷ ("idempotency_key", str key)
    ∷ (
      "forbidden_live_effects",
      arr (
          strings (
            gate_value public_publish
            ∷ gate_value deploy
            ∷ gate_value live_trade
            ∷ gate_value auth
            ∷ gate_value money
            ∷ gate_value external_send
            ∷ gate_value destructive_change
            ∷ [])),
    )
    ∷ [])

-- `idempotency_key or f"test-only:{fingerprint}"`
abbrev pub approval_key : Option String → String → String
approval_key none fp = append "test-only:" fp
approval_key (some k) fp = if k == "" then append "test-only:" fp else k

-- `sha256_text` is SHA-256 of a text, as hexadecimal digits.
unfoldable pub build_test_only_suman_approval :
    (Json → String)
    → (ℕ → String)
    → (String → String)
    → ActionRequest
    → ApprovalDecision
    → List String
    → Option ℕ
    → Option String
    → HumanApprovalReceipt
unfolding fixture_constraints
build_test_only_suman_approval digest isoformat sha256_text r d evidence created key =
    let fp = fingerprint_request digest isoformat r in
    let k = approval_key key fp in
    record {
      approval_id = append "test-suman-" (prefix (sha256_text k));
      gate_id = append "test-gate-" (prefix fp);
      human_ref = "Suman(test)";
      canonical_surface = "local_test_fixture";
      decision = d;
      exact_action_approved = r.action;
      action_fingerprint = fp;
      evidence_refs = evidence;
      constraints = fixture_constraints k;
      created_at = created;
      expires_at = none;
      revoked_at = none;
      transcript_or_message_ref = some (append "local-test-fixture://" k);
    }
