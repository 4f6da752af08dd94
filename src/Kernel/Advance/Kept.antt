-- ===== src/Kernel/Advance/Kept.antt =====
-- What advancing an instance, in packages/kernel/agent_workflow_kernel/kernel.py, keeps of the ledger.
use agent_workflow_kernel.Prelude.{
  ℕ, String, ◌≡◌, true, false, Option, none, some, List, inl, inr, if◌then◌else◌,
}
use agent_workflow_kernel.Json.{Json, object}
use agent_workflow_kernel.Contracts.{StageRun}
use agent_workflow_kernel.Contracts.InstanceStatus.{WorkflowStatus}
use agent_workflow_kernel.Contracts.Workflow.{Transition, StageDef}
use agent_workflow_kernel.Contracts.Results.{AdapterResult}
use agent_workflow_kernel.Ledger.State.{Ledger, Result, ok, err, Body, transaction, Result-cases}
use agent_workflow_kernel.Ledger.Invariant.{IsWellFormed}
use agent_workflow_kernel.Ledger.Inserts.Laws.{
  update_workflow_instance-IsWellFormed, insert_stage_run-IsWellFormed, record_event-IsWellFormed,
  record_receipt-IsWellFormed,
}
use agent_workflow_kernel.Kernel.{Python, Kernel, find_transition, next_stage_for_transition}
use agent_workflow_kernel.Kernel.Task.{Task, ◌>>=◌, finish, given, proceed}
use agent_workflow_kernel.Kernel.Guards.{GuardDecision}
use agent_workflow_kernel.Kernel.Advance.{
  update, queue_stage, block_transition_guard, blocked_for, move_to, end_or_move, take_transition,
  advance_by, advance_after_outcome,
}

-- A task after which the ledger is well-formed if it was before, whether the task raised or not.
record Keeps {ℓ} {A : Type ℓ} (t : Task A) : Type 0 where
  keeps : (s : Ledger) → IsWellFormed s → IsWellFormed (t s).1

proceed-IsWellFormed {ℓ κ} :
    {A : Type ℓ} {B : Type κ} (r : Result A × Ledger) (f : A → Task B)
    → ((a : A) → Keeps (f a))
    → IsWellFormed r.1
    → IsWellFormed (proceed r f).1
proceed-IsWellFormed (ok a, s) f next w = (next a).keeps s w
proceed-IsWellFormed (err e, s) f next w = w

bind-Keeps {ℓ κ} :
    {A : Type ℓ} {B : Type κ} (t : Task A) (f : A → Task B)
    → Keeps t
    → ((a : A) → Keeps (f a))
    → Keeps (t >>= f)
unfolding ◌>>=◌
bind-Keeps t f first next = record {
  keeps = λ s w. proceed-IsWellFormed (t s) f next (first.keeps s w);
}

given-Keeps {ℓ} : {A : Type ℓ} (f : Ledger → Result A) → Keeps (given f)
unfolding given
given-Keeps f = record { keeps = λ s w. w }

finish-Keeps {ℓ} : {A : Type ℓ} (a : A) → Keeps (finish a)
unfolding finish
finish-Keeps a = record { keeps = λ s w. w }

transaction-Keeps {ℓ} :
    {A : Type ℓ} (body : Body A)
    → ((s s' : Ledger) (a : A) → body s ≡ ok (a, s') → IsWellFormed s → IsWellFormed s')
    → Keeps (transaction body)
transaction-Keeps body kept = record {
  keeps = λ s w. elim (Result-cases (body s)) [
    | inl ((a, s'), e) ↦ rw e (kept s s' a e w)
    | inr (x, e) ↦ rw e w
  ];
}

update-Keeps :
    (k : Kernel) (run : StageRun) (status : WorkflowStatus) (stage : Option String) (now : ℕ)
    (kind : String) (payload : List (String × Json))
    → Keeps (update k run status stage now kind payload)
unfolding update
update-Keeps k run status stage now kind payload = transaction-Keeps _ (
    update_workflow_instance-IsWellFormed run.instance_id status stage now k.owner_id kind
      (object payload))

module _ (python : Python) (k : Kernel) (run : StageRun) (stage : StageDef) (outcome : String)
    (now : ℕ) where
  blocked_for-Keeps :
      (reason summary : String) → Keeps (blocked_for k run stage outcome now reason summary)
  blocked_for-Keeps reason summary =
      bind-Keeps _ _ (update-Keeps k run _ _ now _ _) (λ _. finish-Keeps _)

  block_transition_guard-Keeps :
      (t : Transition) (g : GuardDecision)
      → Keeps (block_transition_guard k run stage t g outcome now)
  unfolding block_transition_guard
  block_transition_guard-Keeps t g =
      bind-Keeps _ _ (transaction-Keeps _ (record_receipt-IsWellFormed _)) (λ _.
        bind-Keeps _ _ (transaction-Keeps _ (record_event-IsWellFormed _))
          (λ _. bind-Keeps _ _ (update-Keeps k run _ _ now _ _) (λ _. finish-Keeps _)))

  move_to-Keeps :
      (t : Transition) (g : GuardDecision) (next : Option StageDef)
      → Keeps (move_to python k run stage t g outcome now next)
  unfolding queue_stage
  move_to-Keeps t g none = blocked_for-Keeps _ _
  move_to-Keeps t g (some next) = bind-Keeps _ _ (given-Keeps _) (λ n.
      bind-Keeps _ _ (transaction-Keeps _ (insert_stage_run-IsWellFormed _ _ _ _ now))
        (λ _. bind-Keeps _ _ (update-Keeps k run _ _ now _ _) (λ _. finish-Keeps _)))

  end_or_move-Keeps :
      (t : Transition) (g : GuardDecision) (terminal : Option String)
      → Keeps (end_or_move python k run stage t g outcome now terminal)
  end_or_move-Keeps t g none = move_to-Keeps t g (next_stage_for_transition k t)
  end_or_move-Keeps t g (some terminal) =
      bind-Keeps _ _ (update-Keeps k run _ _ now _ _) (λ _. finish-Keeps _)

  take_transition-Keeps :
      (t : Transition) (g : GuardDecision)
      → Keeps (take_transition python k run stage t g outcome now)
  unfolding take_transition
  take_transition-Keeps t g =
      elim g.allowed
        as (λ b. Keeps (
          if b
          then end_or_move python k run stage t g outcome now t.terminal
          else block_transition_guard k run stage t g outcome now)) [
            | true ↦ end_or_move-Keeps t g t.terminal
            | false ↦ block_transition_guard-Keeps t g
          ]

  advance_by-Keeps :
      (result : Option AdapterResult) (o : Option Transition)
      → Keeps (advance_by python k run stage outcome now result o)
  advance_by-Keeps result none = blocked_for-Keeps _ _
  advance_by-Keeps result (some t) = bind-Keeps _ _ (given-Keeps _) (take_transition-Keeps t)

-- Advancing an instance keeps the constraints of the tables, whether it queues a stage, ends the
-- workflow, blocks it, or raises on the way with the first transactions already committed.
pub advance_after_outcome-IsWellFormed :
    (python : Python) (k : Kernel) (run : StageRun) (stage : StageDef) (outcome : String) (now : ℕ)
    (result : Option AdapterResult) (s : Ledger)
    → IsWellFormed s
    → IsWellFormed (advance_after_outcome python k run stage outcome now result s).1
unfolding advance_after_outcome
advance_after_outcome-IsWellFormed python k run stage outcome now result s w =
    (advance_by-Keeps python k run stage outcome now result
        (find_transition stage.id outcome k.transitions)).keeps
      s w
