-- ===== src/Policy/Decide/Binding.antt =====
-- What an approval of policy.py is bound to by the fingerprint of the request.
use agent_workflow_kernel.Prelude.{
  ℕ, String, ◌≡◌, refl, ap, Option, none, some, List, [], ◌∷◌, map, order_by,
}
use agent_workflow_kernel.Contracts.Risk.{risk_value}
use agent_workflow_kernel.Json.{Json, null, obj, get, field_of, opt_str, strings}
use agent_workflow_kernel.Policy.Fingerprint.{
  ActionRequest, payload, authority, canonical_fields, canonical_timestamp, fingerprint_request,
  gate_value, text_before, sorted,
}
use agent_workflow_kernel.Policy.Approval.{HumanApprovalReceipt}
use agent_workflow_kernel.Policy.Decide.{evaluate}
use agent_workflow_kernel.Policy.Decide.Laws.{evaluate_allows_iff}

opt_str-injective : (a b : Option String) → opt_str a ≡ opt_str b → a ≡ b
opt_str-injective none none h = refl
opt_str-injective none (some y) h = absurd (cc h)
opt_str-injective (some x) none h = absurd (cc h)
opt_str-injective (some x) (some y) h = cc h

strings-injective : (xs ys : List String) → strings xs ≡ strings ys → xs ≡ ys
strings-injective [] [] h = refl
strings-injective [] (y ∷ ys) h = absurd (cc h)
strings-injective (x ∷ xs) [] h = absurd (cc h)
strings-injective (x ∷ xs) (y ∷ ys) h =
    let rest = strings-injective xs ys (cc h) in let first : x ≡ y = cc h in cc (first, rest)

canonical_timestamp-injective :
    (isoformat : ℕ → String) (a b : Option ℕ)
    → ((t u : ℕ) → isoformat t ≡ isoformat u → t ≡ u)
    → canonical_timestamp isoformat a ≡ canonical_timestamp isoformat b
    → a ≡ b
canonical_timestamp-injective isoformat none none apart h = refl
canonical_timestamp-injective isoformat none (some u) apart h = absurd (cc h)
canonical_timestamp-injective isoformat (some t) none apart h = absurd (cc h)
canonical_timestamp-injective isoformat (some t) (some u) apart h = ap some (apart t u (cc h))

abbrev pub in_order : List String → List String
in_order = order_by text_before

-- The parts of a request that an approval is bound to: all that the fingerprint covers. Of mappings and
-- of the lists that it sorts the order is left out.
pub record SameAction (r q : ActionRequest) : Type 0 where
  pub action : r.action ≡ q.action
  pub target_ref : r.target_ref ≡ q.target_ref
  pub arguments : canonical_fields r.arguments ≡ canonical_fields q.arguments
  pub artifact_hashes : r.artifact_hashes ≡ q.artifact_hashes
  pub context_packet_digest : r.context_packet_digest ≡ q.context_packet_digest
  pub workflow_id : r.workflow_id ≡ q.workflow_id
  pub instance_id : r.instance_id ≡ q.instance_id
  pub stage_id : r.stage_id ≡ q.stage_id
  pub stage_run_id : r.stage_run_id ≡ q.stage_run_id
  pub workflow_definition_hash : r.workflow_definition_hash ≡ q.workflow_definition_hash
  pub risk_classes :
      in_order (map risk_value r.risk_classes) ≡ in_order (map risk_value q.risk_classes)
  pub hard_gates : in_order (map gate_value r.hard_gates) ≡ in_order (map gate_value q.hard_gates)
  pub allowed_decisions : in_order r.allowed_decisions ≡ in_order q.allowed_decisions
  pub state_constraints :
      canonical_fields r.state_constraints ≡ canonical_fields q.state_constraints
  pub expires_at : r.expires_at ≡ q.expires_at

abbrev part : String → Json → Json
part k (obj fs) = get k fs
part k _ = null

-- The parts of the fingerprint's authority that its lists and its expiry are.
authority-parts :
    (isoformat : ℕ → String) (r q : ActionRequest)
    → payload isoformat r ≡ payload isoformat q
    → (sorted r.allowed_decisions ≡ sorted q.allowed_decisions)
      × (obj (canonical_fields r.state_constraints) ≡ obj (canonical_fields q.state_constraints))
      × (canonical_timestamp isoformat r.expires_at ≡ canonical_timestamp isoformat q.expires_at)
unfolding payload authority field_of
authority-parts isoformat r q h = (
  ap (λ j. part "allowed_decisions" (part "authority" j)) h,
  ap (λ j. part "state_constraints" (part "authority" j)) h,
  ap (λ j. part "expires_at" (part "authority" j)) h,
)

payload-SameAction :
    (isoformat : ℕ → String) (r q : ActionRequest)
    → ((t u : ℕ) → isoformat t ≡ isoformat u → t ≡ u)
    → payload isoformat r ≡ payload isoformat q
    → SameAction r q
unfolding payload authority
payload-SameAction isoformat r q clock h = record {
  action = cc h;
  target_ref = cc h;
  arguments = cc h;
  artifact_hashes = strings-injective r.artifact_hashes q.artifact_hashes (cc h);
  context_packet_digest = opt_str-injective r.context_packet_digest q.context_packet_digest (cc h);
  workflow_id = cc h;
  instance_id = cc h;
  stage_id = cc h;
  stage_run_id = opt_str-injective r.stage_run_id q.stage_run_id (cc h);
  workflow_definition_hash =
      opt_str-injective r.workflow_definition_hash q.workflow_definition_hash (cc h);
  risk_classes =
      strings-injective (in_order (map risk_value r.risk_classes))
        (in_order (map risk_value q.risk_classes)) (cc h);
  hard_gates =
      strings-injective (in_order (map gate_value r.hard_gates))
        (in_order (map gate_value q.hard_gates)) (cc h);
  allowed_decisions =
      strings-injective (in_order r.allowed_decisions) (in_order q.allowed_decisions) (
        let e : sorted r.allowed_decisions ≡ sorted q.allowed_decisions =
          (authority-parts isoformat r q h).0 in
        cc e);
  state_constraints = cc ((authority-parts isoformat r q h).1);
  expires_at =
      canonical_timestamp-injective isoformat r.expires_at q.expires_at clock
        (authority-parts isoformat r q h).2;
}

-- If the digest tells the payloads of two requests apart, and the text of a timestamp the times, an
-- approval by which both requests are allowed, at whatever times, approves one action: the same action
-- on the same target, with the same arguments, artifacts and context, the same risk classes and hard
-- gates, for the same workflow, definition, instance, stage and attempt, under the same allowed
-- decisions, constraints and expiry.
pub approval_is_for_one_action :
    (digest : Json → String) (isoformat : ℕ → String) (r q : ActionRequest)
    (a : HumanApprovalReceipt) (now later : ℕ)
    → (digest (payload isoformat r) ≡ digest (payload isoformat q)
        → payload isoformat r ≡ payload isoformat q)
    → ((t u : ℕ) → isoformat t ≡ isoformat u → t ≡ u)
    → (evaluate digest isoformat r (some a) now).decision ≡ "allow"
    → (evaluate digest isoformat q (some a) later).decision ≡ "allow"
    → SameAction r q
unfolding fingerprint_request
approval_is_for_one_action digest isoformat r q a now later apart clock h k =
    let (_, _, (b, eb, pb)) = (evaluate_allows_iff digest isoformat r (some a) now).0 h in
    let (_, _, (c, ec, pc)) = (evaluate_allows_iff digest isoformat q (some a) later).0 k in
    payload-SameAction isoformat r q clock
      (apart (cc (eb, ec, pb.fingerprint_kept, pc.fingerprint_kept)))
