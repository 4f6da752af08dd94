-- ===== src/Kernel/Routes.antt =====
-- The index of transitions of kernel.py: which definitions a kernel is made of.
pub mod Arrives
use agent_workflow_kernel.Workflow.Validation.Guards.{is_terminal_status}
use agent_workflow_kernel.Prelude.{
  ==→≡, ◌⊎◌, ℕ, String, ◌≡◌, ◌↔◌, refl, ap, sym, subst, ◌∙◌, true, false, ◌&&◌, Option, none, some,
  List, [], ◌∷◌, inl, inr, arith, ◌==◌, eq_iff, exists, All, All-map, Bool-cases, Option-cases,
  has_key, if◌then◌else◌,
}
use agent_workflow_kernel.Contracts.{StageRun}
use agent_workflow_kernel.Contracts.Workflow.{Transition, StageDef, WorkflowDef}
use agent_workflow_kernel.Contracts.Results.{AdapterResult}
use agent_workflow_kernel.Ledger.State.{Ledger, Result, ok, err}
use agent_workflow_kernel.Workflow.Validation.{valid, validate_workflow_def}
use agent_workflow_kernel.Workflow.Validation.Spec.{
  NoEmptyText, IsTransition, Ends, at_stage, at_status, IsDeterministic, is_blank_text, same_source,
  stage_id,
}
use agent_workflow_kernel.Workflow.Validation.Sound.{validate_workflow_def_sound}
use agent_workflow_kernel.Ledger.State.{bad_value}
use agent_workflow_kernel.Kernel.{
  Python, Kernel, index_transitions, kernel_of, make_kernel, last_stage, find_transition,
  stage_named, next_stage_for_transition,
}
use agent_workflow_kernel.Kernel.Task.{given}
use agent_workflow_kernel.Kernel.Guards.{GuardDecision}
use agent_workflow_kernel.Kernel.Evaluate.{evaluate_transition_guard}
use agent_workflow_kernel.Kernel.Advance.{
  Decided, decided_queued, decided_terminal, workflow_status_for_terminal, advance_after_outcome,
  take_transition, end_or_move, move_to, block_transition_guard,
}
use agent_workflow_kernel.Kernel.Advance.Done.{bind-done, finish-done, given-done}

-- No transition stands in the index already.
abbrev Fresh : List Transition → List Transition → Type 0
Fresh seen ts = All (λ t. exists (same_source t) seen ≡ false) ts

Fresh-cons :
    (t : Transition) (seen ts : List Transition)
    → exists (same_source t) ts ≡ false
    → Fresh seen ts
    → Fresh (t ∷ seen) ts
unfolding exists
Fresh-cons t seen [] h fresh = tt
Fresh-cons t seen (u ∷ us) h fresh = (
  ground (
    arith,
    eq_iff t.from_stage u.from_stage,
    eq_iff u.from_stage t.from_stage,
    eq_iff t.on u.on,
    eq_iff u.on t.on,
    fresh.0,
  ),
  Fresh-cons t seen us (ground arith) fresh.1,
)

of_Fresh :
    (t : Transition) (seen ts : List Transition)
    → Fresh (t ∷ seen) ts
    → (exists (same_source t) ts ≡ false) × Fresh seen ts
unfolding exists
of_Fresh t seen [] h = (refl, tt)
of_Fresh t seen (u ∷ us) h =
    let (apart, older) = of_Fresh t seen us h.1 in
    (
      ground (
        arith,
        eq_iff t.from_stage u.from_stage,
        eq_iff u.from_stage t.from_stage,
        eq_iff t.on u.on,
        eq_iff u.on t.on,
        h.0,
        apart,
      ),
      (ground (arith, h.0), older),
    )

index_transitions-goes :
    (seen ts : List Transition)
    → Fresh seen ts
    → IsDeterministic ts
    → (all : List Transition) × (index_transitions seen ts ≡ ok all)
unfolding index_transitions
index_transitions-goes seen [] fresh one = (seen, refl)
index_transitions-goes seen (t ∷ ts) fresh one =
    let (all, e) =
      index_transitions-goes (t ∷ seen) ts (Fresh-cons t seen ts one.0 fresh.1) one.1 in
    (all, rw (fresh.0) e)

index_transitions-ok :
    (seen ts all : List Transition)
    → index_transitions seen ts ≡ ok all
    → Fresh seen ts × IsDeterministic ts
unfolding index_transitions
index_transitions-ok seen [] all h = (tt, tt)
index_transitions-ok seen (t ∷ ts) all h = elim (Bool-cases (exists (same_source t) seen)) [
  | inl e ↦ absurd (cc (rw e at h))
  | inr e ↦
      let (fresh, one) = index_transitions-ok (t ∷ seen) ts all (rw e at h) in
      let (apart, older) = of_Fresh t seen ts fresh in ((e, older), (apart, one))
]

pub All-index_transitions {ℓ} :
    (P : Transition → Type ℓ) (seen ts all : List Transition)
    → All P seen
    → All P ts
    → index_transitions seen ts ≡ ok all
    → All P all
unfolding index_transitions
All-index_transitions P seen [] all a b h = subst (All P) (let same : seen ≡ all = cc h in same) a
All-index_transitions P seen (t ∷ ts) all a b h = elim (Bool-cases (exists (same_source t) seen)) [
  | inl e ↦ absurd (cc (rw e at h))
  | inr e ↦ All-index_transitions P (t ∷ seen) ts all (b.0, a) b.1 (rw e at h)
]

nowhere : (ts : List Transition) → Fresh [] ts
unfolding exists
nowhere [] = tt
nowhere (t ∷ ts) = (refl, nowhere ts)

pub kernel_of-ok :
    (w : WorkflowDef) (owner : String) (r : Result (List Transition)) (k : Kernel)
    → kernel_of w owner r ≡ ok k
    → (r ≡ ok k.transitions) × (k.workflow ≡ w)
kernel_of-ok w owner (ok ts) k h =
    let same : record { workflow = w; owner_id = owner; transitions = ts } ≡ k = cc h in
    (ap ok (ap (λ (x : Kernel). x.transitions) same), ap (λ (x : Kernel). x.workflow) (sym same))
kernel_of-ok w owner (err e) k h = absurd (cc h)

index_transitions-cases :
    (seen ts : List Transition)
    → ((all : List Transition) × (index_transitions seen ts ≡ ok all))
      ⊎ (index_transitions seen ts ≡ err bad_value)
unfolding index_transitions
index_transitions-cases seen [] = inl (seen, refl)
index_transitions-cases seen (t ∷ ts) = elim (Bool-cases (exists (same_source t) seen)) [
  | inl e ↦ inr (rw e refl)
  | inr e ↦ rw e (index_transitions-cases (t ∷ seen) ts)
]

made_of :
    (w : WorkflowDef) (owner : String)
    → ((k : Kernel) × (make_kernel w owner ≡ ok k)) ↔ IsDeterministic w.transitions
unfolding make_kernel
made_of w owner = (
  λ (k, h). (index_transitions-ok [] w.transitions k.transitions (kernel_of-ok w owner _ k h).0).1,
  λ one.
      let (all, e) = index_transitions-goes [] w.transitions (nowhere w.transitions) one in
      (_, ap (kernel_of w owner) e),
)

refused_of :
    (w : WorkflowDef) (owner : String)
    → (make_kernel w owner ≡ err bad_value) ↔ ¬ IsDeterministic w.transitions
unfolding make_kernel
refused_of w owner = (
  λ h one. let (k, e) = (made_of w owner).1 one in absurd (cc (h, e)),
  λ twice. elim (index_transitions-cases [] w.transitions) [
    | inl (all, e) ↦ absurd (twice (index_transitions-ok [] w.transitions all e).1)
    | inr e ↦ ap (kernel_of w owner) e
  ],
)

-- A kernel is made of a workflow definition exactly if no two transitions leave a stage by the same
-- outcome, and making it raises a ValueError exactly if two do.
pub make_kernel_iff :
    (w : WorkflowDef) (owner : String)
    → (((k : Kernel) × (make_kernel w owner ≡ ok k)) ↔ IsDeterministic w.transitions)
      × ((make_kernel w owner ≡ err bad_value) ↔ ¬ IsDeterministic w.transitions)
make_kernel_iff w owner = (made_of w owner, refused_of w owner)
