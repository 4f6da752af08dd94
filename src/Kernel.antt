-- ===== src/Kernel.antt =====
-- packages/kernel/agent_workflow_kernel/kernel.py with _helpers.py and _internal_types.py: how a workflow
-- instance moves on when a stage has an outcome.
pub mod Budgets
pub mod Guards
pub mod Evaluate
pub mod Task
pub mod Advance
pub mod Routes
pub mod Lease
pub mod Adapters
use agent_workflow_kernel.Prelude.{
  ℕ, String, Option, List, [], ◌∷◌, exists, ◌==◌, ◌&&◌, if◌then◌else◌,
}
use agent_workflow_kernel.Json.{Json, IntReading}
use agent_workflow_kernel.Policy.Fingerprint.{canonical}
use agent_workflow_kernel.Contracts.Workflow.{Transition, StageDef, WorkflowDef}
use agent_workflow_kernel.Ledger.State.{Result, ok, err, bad_value}
use agent_workflow_kernel.Prelude.{Bool, true, false, none, some, coalesce}

-- What the kernel takes from Python: `int`, `lower` and `repr` of a text, `str` of a value that is
-- none, and the SHA-256 of the text that
-- json.dumps makes.
pub record Python : Type 0 where
  pub int_of : String → IntReading
  pub lower : String → String
  pub repr : String → String
  pub text_of : Json → String
  pub digest : Json → String

-- `digest_data` of prompts.py, of plain data.
abbrev pub digest_data : Python → Json → String
digest_data python v = python.digest (canonical v)

abbrev pub same_source : Transition → Transition → Bool
same_source t u = (t.from_stage == u.from_stage) && (t.on == u.on)

-- `_index_transitions`: the transitions, or the ValueError for two of one stage and outcome.
unfoldable pub index_transitions : List Transition → List Transition → Result (List Transition)
index_transitions seen [] = ok seen
index_transitions seen (t ∷ ts) =
    let rest = index_transitions (t ∷ seen) ts in
    if exists (same_source t) seen then err bad_value else rest

-- The state of a `WorkflowKernel`, but for the inputs that `start` keeps.
pub record Kernel : Type 0 where
  pub workflow : WorkflowDef
  pub owner_id : String
  pub transitions : List Transition

abbrev pub kernel_of : WorkflowDef → String → Result (List Transition) → Result Kernel
kernel_of w owner (err e) = err e
kernel_of w owner (ok ts) = ok (record { workflow = w; owner_id = owner; transitions = ts })

-- `WorkflowKernel.__init__`
unfoldable pub make_kernel : WorkflowDef → String → Result Kernel
make_kernel w owner = kernel_of w owner (index_transitions [] w.transitions)

-- `self._stage_by_id.get(stage_id)`: of stages with one id the last is found.
unfoldable pub last_stage : String → List StageDef → Option StageDef
last_stage i [] = none
last_stage i (s ∷ ss) = coalesce (last_stage i ss) (if s.id == i then some s else none)

-- `self._transitions.get((stage_id, outcome))`
unfoldable pub find_transition : String → String → List Transition → Option Transition
find_transition st outcome [] = none
find_transition st outcome (t ∷ ts) =
    let rest = find_transition st outcome ts in
    if (t.from_stage == st) && (t.on == outcome) then some t else rest

abbrev pub stage_named : Kernel → Option String → Option StageDef
stage_named k none = none
stage_named k (some i) = last_stage i k.workflow.stages

-- `_next_stage_for_transition`
abbrev pub next_stage_for_transition : Kernel → Transition → Option StageDef
next_stage_for_transition k t = stage_named k t.to_stage
