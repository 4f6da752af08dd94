-- ===== src/Kernel/Guards.antt =====
-- The guards of transitions: `_evaluate_transition_guard` of packages/kernel/agent_workflow_kernel/kernel.py
-- and the guards that it calls.
use Prim.Native.String.{compare, ◌++◌ as append}
use text.Mathlib.Text.{is_lt}
use agent_workflow_kernel.Prelude.{
  ℕ, suc, String, Bool, true, false, not, ◌&&◌, ◌||◌, Option, none, some, List, [], ◌∷◌, ◌==◌, eqb,
  ltb, exists, select, order_by, limit_one, map, decimal, if◌then◌else◌,
}
use agent_workflow_kernel.Json.{
  Json, str, arr, obj, Items, nil, cons, Fields, end, field, get, is_truthy, strings, entries,
}
use agent_workflow_kernel.Contracts.Workflow.{StageDef}
use agent_workflow_kernel.Contracts.Results.{ArtifactRef, AdapterResult}
use agent_workflow_kernel.Contracts.{StageRun}
use agent_workflow_kernel.Ledger.Rows.{StageRunRow, DecisionRow}
use agent_workflow_kernel.Ledger.State.{Ledger, Result, ok, err, bad_type, ◌>>=◌}
use agent_workflow_kernel.Kernel.{Python}

pub record GuardDecision : Type 0 where
  pub allowed : Bool
  pub guard : Option String
  pub reason : String
  pub details : Fields

abbrev pub denied : String → String → List (String × Json) → GuardDecision
denied guard reason details = record {
  allowed = false;
  guard = some guard;
  reason = reason;
  details = entries details;
}

abbrev pub permitted : String → String → List (String × Json) → GuardDecision
permitted guard reason details = record {
  allowed = true;
  guard = some guard;
  reason = reason;
  details = entries details;
}

-- `_APPROVING_HUMAN_DECISIONS`
unfoldable pub is_approving : String → Bool
is_approving d =
    (d == "approved")
    || (d == "approve")
    || (d == "approval_granted")
    || (d == "read_clear")
    || (d == "clear")
    || (d == "done")
    || (d == "succeeded")

-- `ORDER BY created_at DESC, decision_id DESC`
abbrev pub decided_after : DecisionRow → DecisionRow → Bool
decided_after a b =
    ltb b.created_at a.created_at
    || (eqb a.created_at b.created_at && is_lt (compare b.decision_id a.decision_id))

unfoldable pub latest_decision : String → String → Ledger → Option DecisionRow
latest_decision i run s = limit_one (
    order_by decided_after
      (select (λ d. (d.instance_id == i) && (d.stage_run_id == run)) s.decisions))

abbrev pub approval_found : Python → String → Option DecisionRow → GuardDecision
approval_found python guard none =
    denied guard "Transition guard 'policy_approved' requires a recorded human approval decision."
      []
approval_found python guard (some d) =
    if is_approving d.decision
    then permitted guard "human approval decision is recorded" (
        ("decision_id", str d.decision_id)
        ∷ ("gate_id", str d.gate_id)
        ∷ ("decision", str d.decision)
        ∷ ("human_ref", str d.human_ref)
        ∷ ("canonical_surface", str d.canonical_surface)
        ∷ [])
    else denied guard
        (append "Transition guard 'policy_approved' found non-approving decision "
          (append (python.repr d.decision) "."))
        (("decision_id", str d.decision_id)
          ∷ ("gate_id", str d.gate_id)
          ∷ ("decision", str d.decision)
          ∷ [])

-- `_guard_policy_approved`
unfoldable pub guard_policy_approved : Python → StageRun → String → Ledger → GuardDecision
guard_policy_approved python run guard s =
    approval_found python guard (latest_decision run.instance_id run.stage_run_id s)

-- `_dedupe_strings`
unfoldable pub dedupe : List String → List String → List String
dedupe seen [] = []
dedupe seen (v ∷ vs) =
    let without = dedupe seen vs in
    let kept = v ∷ dedupe (v ∷ seen) vs in
    if (v == "") || exists (λ x. x == v) seen then without else kept

abbrev pub spec_required : Json → Bool
spec_required (obj spec) = is_truthy (get "required" spec)
spec_required spec = is_truthy spec

unfoldable pub named_roles : Fields → List String
named_roles end = []
named_roles (field role spec rest) =
    let later = named_roles rest in if spec_required spec then role ∷ later else later

abbrev pub role_of : Python → ℕ → Json → String
role_of python index (str r) = if r == "" then append "artifact_" (decimal index) else r
role_of python index v =
    if is_truthy v then python.text_of v else append "artifact_" (decimal index)

unfoldable pub listed_roles : Python → ℕ → Items → List String
listed_roles python index nil = []
listed_roles python index (cons (obj artifact) rest) =
    let later = listed_roles python (suc index) rest in
    if is_truthy (get "required" artifact)
    then role_of python index (get "role" artifact) ∷ later
    else later
listed_roles python index (cons _ rest) = listed_roles python (suc index) rest

abbrev pub roles_in : Python → Json → Result (List String)
roles_in python (obj artifacts) = ok (dedupe [] (named_roles artifacts))
roles_in python (arr artifacts) = ok (dedupe [] (listed_roles python 1 artifacts))
roles_in python (str _) = ok []
roles_in python v = if is_truthy v then err bad_type else ok []

-- `_required_artifact_roles`, or the TypeError for what is no collection.
unfoldable pub required_artifact_roles : Python → Fields → Result (List String)
required_artifact_roles python outputs = roles_in python (get "artifacts" outputs)

unfoldable pub join : String → List String → String
join sep [] = ""
join sep (s ∷ ss) = elim ss [ [] ↦ s | _ ∷ _ ↦ append s (append sep (join sep ss)) ]

abbrev pub present_roles : AdapterResult → List String
present_roles result = map (λ (a : ArtifactRef). a.role) result.artifact_refs

abbrev pub missing_roles : List String → List String → List String
missing_roles required present = select (λ r. not (exists (λ p. p == r) present)) required

abbrev pub missing_found : String → List String → List String → List String → GuardDecision
missing_found guard required present [] =
    permitted guard "all required artifact roles are present"
      (("required_roles", arr (strings required)) ∷ ("present_roles", arr (strings present)) ∷ [])
missing_found guard required present (m ∷ ms) =
    denied guard
      (append "Transition guard 'has_required_artifacts' blocked missing required artifact roles: "
        (join ", " (m ∷ ms)))
      (("required_roles", arr (strings required)) ∷ ("present_roles", arr (strings present)) ∷ [])

abbrev pub roles_guard : String → Option AdapterResult → List String → GuardDecision
roles_guard guard result [] = permitted guard "stage declares no required artifact roles" []
roles_guard guard none (r ∷ rs) =
    denied guard
      "Transition guard 'has_required_artifacts' cannot inspect artifacts for this stage result."
      (("required_roles", arr (strings (r ∷ rs))) ∷ [])
roles_guard guard (some result) (r ∷ rs) =
    missing_found guard (r ∷ rs) (present_roles result)
      (missing_roles (r ∷ rs) (present_roles result))

-- `_guard_has_required_artifacts`
unfoldable pub guard_has_required_artifacts :
    Python → StageDef → Option AdapterResult → String → Result GuardDecision
guard_has_required_artifacts python stage result guard = do
  required ← required_artifact_roles python stage.outputs
  ok (roles_guard guard result required)

-- `_count_stage_runs`
unfoldable pub count_stage_runs : String → String → List StageRunRow → ℕ
count_stage_runs i st [] = 0
count_stage_runs i st (r ∷ rs) =
    let rest = count_stage_runs i st rs in
    if (r.instance_id == i) && (r.stage_id == st) then suc rest else rest
