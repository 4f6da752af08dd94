-- ===== src/Policy/Fingerprint.antt =====
-- packages/kernel/agent_workflow_kernel/policy.py: ActionRequest, and the fingerprint of the exact
-- action inputs that an approval is bound to.
use Prim.Native.String.{compare}
use text.Mathlib.Text.{is_lt}
use agent_workflow_kernel.Prelude.{
  ℕ, String, Bool, Option, none, some, List, [], ◌∷◌, map, order_by, if◌then◌else◌,
}
use agent_workflow_kernel.Json.{
  Json, null, bool, num, negative, str, arr, obj, Items, nil, cons, Fields, end, field, opt_str,
  strings, object,
}
use agent_workflow_kernel.Contracts.Risk.{RiskClass, risk_value}

pub data HardGate : Type 0 where
  public_publish deploy live_trade auth money external_send destructive_change : HardGate

unfoldable pub gate_value : HardGate → String
gate_value public_publish = "public_publish"
gate_value deploy = "deploy"
gate_value live_trade = "live_trade"
gate_value auth = "auth"
gate_value money = "money"
gate_value external_send = "external_send"
gate_value destructive_change = "destructive_change"

pub record ActionRequest : Type 0 where
  pub action : String
  pub target_ref : String
  pub arguments : Fields
  pub artifact_hashes : List String
  pub context_packet_digest : Option String
  pub risk_classes : List RiskClass
  pub hard_gates : List HardGate
  pub workflow_id : String
  pub instance_id : String
  pub stage_id : String
  pub stage_run_id : Option String
  pub workflow_definition_hash : Option String
  pub allowed_decisions : List String
  pub state_constraints : Fields
  pub expires_at : Option ℕ
  pub actor_ref : Option String
  pub adapter_ref : Option String
  pub evidence_refs : List String
  pub forbidden_actions : List String
  pub side_effects_known : Bool
  pub side_effects_ambiguous : Bool

unfoldable pub insert_field : String → Json → Fields → Fields
insert_field k v end = field k v end
insert_field k v (field l w rest) =
    let tail = insert_field k v rest in
    if is_lt (compare l k) then field l w tail else field k v (field l w rest)

-- `_canonical_data` of a value that JSON has: the fields of every mapping by their keys.
unfoldable mutual
  pub canonical : Json → Json
  canonical null = null
  canonical (bool b) = bool b
  canonical (num n) = num n
  canonical (negative n) = negative n
  canonical (str s) = str s
  canonical (arr xs) = arr (canonical_items xs)
  canonical (obj fs) = obj (canonical_fields fs)

  pub canonical_items : Items → Items
  canonical_items nil = nil
  canonical_items (cons x xs) = cons (canonical x) (canonical_items xs)

  pub canonical_fields : Fields → Fields
  canonical_fields end = end
  canonical_fields (field k v fs) = insert_field k (canonical v) (canonical_fields fs)

abbrev pub text_before : String → String → Bool
text_before a b = is_lt (compare a b)

abbrev pub sorted : List String → Json
sorted ss = arr (strings (order_by text_before ss))

-- `_canonical_timestamp`
abbrev pub canonical_timestamp : (ℕ → String) → Option ℕ → Json
canonical_timestamp isoformat none = null
canonical_timestamp isoformat (some t) = str (isoformat t)

unfoldable pub authority : (ℕ → String) → ActionRequest → Json
authority isoformat r = object (
    ("workflow_id", str r.workflow_id)
    ∷ ("instance_id", str r.instance_id)
    ∷ ("stage_id", str r.stage_id)
    ∷ ("stage_run_id", opt_str r.stage_run_id)
    ∷ ("workflow_definition_hash", opt_str r.workflow_definition_hash)
    ∷ ("allowed_decisions", sorted r.allowed_decisions)
    ∷ ("state_constraints", obj (canonical_fields r.state_constraints))
    ∷ ("expires_at", canonical_timestamp isoformat r.expires_at)
    ∷ [])

unfoldable pub payload : (ℕ → String) → ActionRequest → Json
payload isoformat r = object (
    ("action", str r.action)
    ∷ ("target_ref", str r.target_ref)
    ∷ ("arguments", obj (canonical_fields r.arguments))
    ∷ ("artifact_hashes", arr (strings r.artifact_hashes))
    ∷ ("context_packet_digest", opt_str r.context_packet_digest)
    ∷ ("risk_classes", sorted (map risk_value r.risk_classes))
    ∷ ("hard_gates", sorted (map gate_value r.hard_gates))
    ∷ ("authority", authority isoformat r)
    ∷ [])

-- `fingerprint_request`, and `action_fingerprint` of the request's fields.
unfoldable pub fingerprint_request : (Json → String) → (ℕ → String) → ActionRequest → String
fingerprint_request digest isoformat r = digest (payload isoformat r)
