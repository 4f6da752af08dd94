-- ===== src/Kernel/Routes/Arrives.antt =====
-- Where the transitions of a validated workflow lead in kernel.py.
use agent_workflow_kernel.Workflow.Validation.Guards.{is_terminal_status}
use agent_workflow_kernel.Prelude.{
  ==→≡, ℕ, String, ◌≡◌, refl, ap, sym, subst, ◌∙◌, true, ◌&&◌, ◌++◌, update_where, Option, none,
  some, List, [], ◌∷◌, inl, inr, ◌==◌, exists, All, All-map, Bool-cases, Option-cases, has_key,
  if◌then◌else◌,
}
use agent_workflow_kernel.Contracts.{StageRun}
use agent_workflow_kernel.Contracts.InstanceStatus.{running}
use agent_workflow_kernel.Contracts.StageStatus.{queued}
use agent_workflow_kernel.Ledger.Rows.{StageRunRow}
use agent_workflow_kernel.Ledger.Inserts.Laws.{moved_instances}
use agent_workflow_kernel.Contracts.Workflow.{Transition, StageDef, WorkflowDef}
use agent_workflow_kernel.Contracts.Results.{AdapterResult}
use agent_workflow_kernel.Ledger.State.{Ledger, ok}
use agent_workflow_kernel.Workflow.Validation.{valid, validate_workflow_def}
use agent_workflow_kernel.Workflow.Validation.Spec.{
  NoEmptyText, IsTransition, Ends, at_stage, at_status, is_blank_text, stage_id,
}
use agent_workflow_kernel.Workflow.Validation.Sound.{validate_workflow_def_sound}
use agent_workflow_kernel.Kernel.{
  Python, Kernel, index_transitions, make_kernel, last_stage, find_transition, stage_named,
  next_stage_for_transition,
}
use agent_workflow_kernel.Kernel.Task.{given}
use agent_workflow_kernel.Kernel.Guards.{GuardDecision}
use agent_workflow_kernel.Kernel.Evaluate.{evaluate_transition_guard}
use agent_workflow_kernel.Kernel.Advance.{
  Decided, decided_queued, decided_terminal, workflow_status_for_terminal, advance_after_outcome,
  take_transition, end_or_move, move_to, block_transition_guard, transitioned_payload,
}
use agent_workflow_kernel.Kernel.Advance.Done.{
  bind-done, finish-done, given-done, update-done, queue-done,
}
use agent_workflow_kernel.Kernel.Routes.{All-index_transitions, kernel_of-ok}

last_stage-has_key :
    (i : String) (ss : List StageDef)
    → has_key stage_id i ss ≡ true
    → (s : StageDef) × (last_stage i ss ≡ some s)
unfolding last_stage exists
last_stage-has_key i [] h = absurd (cc h)
last_stage-has_key i (s ∷ ss) h = elim (Option-cases (last_stage i ss)) [
  | inr (later, e) ↦ (later, rw e refl)
  | inl e ↦ elim (Bool-cases (s.id == i)) [
    | inl here ↦ (s, rw (e, here) refl)
    | inr there ↦ let (later, e') = last_stage-has_key i ss (rw there at h) in absurd (cc (e, e'))
  ]
]

last_stage-id :
    (i : String) (ss : List StageDef) (s : StageDef) → last_stage i ss ≡ some s → s.id ≡ i
unfolding last_stage
last_stage-id i [] s h = absurd (cc h)
last_stage-id i (x ∷ xs) s h = elim (Option-cases (last_stage i xs)) [
  | inr (later, e) ↦
      last_stage-id i xs s
        (let same : later ≡ s = cc (rw (e, last_stage) at h) in rw e (ap some same))
  | inl e ↦ elim (Bool-cases (x.id == i)) [
    | inl here ↦
        let same : x ≡ s = cc (rw (e, here, last_stage) at h) in
        ap (λ (y : StageDef). y.id) (sym same) ∙ ==→≡ x.id i here
    | inr there ↦ absurd (cc (rw (e, there, last_stage) at h))
  ]
]

All-find_transition {ℓ} :
    (P : Transition → Type ℓ) (st outcome : String) (ts : List Transition) (t : Transition)
    → All P ts
    → find_transition st outcome ts ≡ some t
    → P t
unfolding find_transition
All-find_transition P st outcome [] t a h = absurd (cc h)
All-find_transition P st outcome (u ∷ us) t a h =
    elim (Bool-cases ((u.from_stage == st) && (u.on == outcome))) [
      | inl e ↦ subst P (let same : u ≡ t = cc (rw e at h) in same) a.0
      | inr e ↦ All-find_transition P st outcome us t a.1 (rw e at h)
    ]

blank-none : (o : Option String) → NoEmptyText o → is_blank_text o ≡ true → o ≡ none
blank-none none n h = refl
blank-none (some s) n h = absurd (cc (n, h))

-- Where a permitted transition leads: to its stage, a new run of which is queued, or to the status of
-- its terminal, which ends the instance.
pub data Arrives (t : Transition) (i : String) (now : ℕ) (s s' : Ledger) : Decided → Type 0 where
  queued_at :
      (to : String) (row : StageRunRow)
      → t.to_stage ≡ some to
      → row.instance_id ≡ i
      → row.stage_id ≡ to
      → row.status ≡ queued
      → s'.runs ≡ s.runs ++ row ∷ []
      → s'.instances ≡ moved_instances i running (some to) now s
      → Arrives t i now s s' (decided_queued to)
  ended_with :
      (status : String)
      → t.terminal ≡ some status
      → is_terminal_status status ≡ true
      → s'.runs ≡ s.runs
      → s'.instances ≡ moved_instances i (workflow_status_for_terminal status) none now s
      → Arrives t i now s s' (decided_terminal (workflow_status_for_terminal status))

module _ (python : Python) (k : Kernel) (run : StageRun) (stage : StageDef) (outcome : String)
    (now : ℕ) where
  ended-done :
      (t : Transition) (g : GuardDecision) (terminal : String) (d : Decided) (s s' : Ledger)
      → t.terminal ≡ some terminal
      → is_terminal_status terminal ≡ true
      → end_or_move python k run stage t g outcome now (some terminal) s ≡ (ok d, s')
      → Arrives t run.instance_id now s s' d
  ended-done t g terminal d s s' named known h =
      let (u, s1, updated, last) = bind-done _ _ s s' d h in
      let (_, runs, instances) =
        update-done k run (workflow_status_for_terminal terminal) none now "workflow_terminal" _ s
          s1 u updated in
      let (is, same) = finish-done _ d s1 s' last in
      subst (Arrives t run.instance_id now s s') is
        (ended_with terminal named known (cc (runs, same)) (cc (instances, same)))

  moved-done :
      (t : Transition) (g : GuardDecision) (next : StageDef) (d : Decided) (s s' : Ledger)
      → t.to_stage ≡ some next.id
      → move_to python k run stage t g outcome now (some next) s ≡ (ok d, s')
      → Arrives t run.instance_id now s s' d
  moved-done t g next d s s' named h =
      let (n, s0, read, h1) = bind-done _ _ s s' d h in
      let (_, s0_is) = given-done _ n s s0 read in
      let (u, s1, put, h2) = bind-done _ _ s0 s' d h1 in
      let (row, row_instance, row_stage, _, _, runs1, instances1, row_status) =
        queue-done python next run.instance_id n _ now s0 s1 u put in
      let (u2, s2, updated, last) = bind-done _ _ s1 s' d h2 in
      let (_, runs2, instances2) =
        update-done k run running (some next.id) now "workflow_transitioned"
          (transitioned_payload run t next n g) s1 s2 u2 updated in
      let (is, same) = finish-done _ d s2 s' last in
      let runs : s'.runs ≡ s.runs ++ row ∷ [] = cc (same, s0_is, runs1, runs2) in
      let before : s1.instances ≡ s.instances = cc (instances1, s0_is) in
      let after : s'.instances ≡ s2.instances = cc (same) in
      subst (Arrives t run.instance_id now s s') is (
        queued_at next.id row named row_instance row_stage row_status runs (
          after
          ∙ (instances2
              ∙ ap
                  (update_where (λ r. r.instance_id == run.instance_id)
                    (λ r. record r {
                      status = running;
                      current_stage_id = some next.id;
                      updated_at = now;
                    }))
                  before)))

  Ends-Arrives :
      (t : Transition) (g : GuardDecision) (d : Decided) (s s' : Ledger)
      → Ends k.workflow.stages t
      → NoEmptyText t.terminal
      → end_or_move python k run stage t g outcome now t.terminal s ≡ (ok d, s')
      → Arrives t run.instance_id now s s' d
  Ends-Arrives t g d s s' (at_stage to e named there blank) normal h =
      let (next, found) = last_stage-has_key to k.workflow.stages there in
      let is_next : next_stage_for_transition k t ≡ some next = ap (stage_named k) e ∙ found in
      moved-done t g next d s s' (e ∙ ap some (sym (last_stage-id to k.workflow.stages next found)))
        (subst (λ o. move_to python k run stage t g outcome now o s ≡ (ok d, s')) is_next
          (subst (λ o. end_or_move python k run stage t g outcome now o s ≡ (ok d, s'))
            (blank-none t.terminal normal blank) h))
  Ends-Arrives t g d s s' (at_status status blank e named known) normal h =
      ended-done t g status d s s' e known
        (subst (λ o. end_or_move python k run stage t g outcome now o s ≡ (ok d, s')) e h)

take_transition-allowed :
    (python : Python) (k : Kernel) (run : StageRun) (stage : StageDef) (t : Transition)
    (g : GuardDecision) (outcome : String) (now : ℕ) (s : Ledger)
    → g.allowed ≡ true
    → take_transition python k run stage t g outcome now s
      ≡ end_or_move python k run stage t g outcome now t.terminal s
unfolding take_transition
take_transition-allowed python k run stage t g outcome now s h =
    ap
      (λ b.
        (if b
            then end_or_move python k run stage t g outcome now t.terminal
            else block_transition_guard k run stage t g outcome now)
          s)
      h

-- In a kernel of a definition that `validate_workflow_def` accepts and whose terminals are not empty
-- texts, a transition that its guard lets through is taken whenever advancing returns. Either a new
-- run of the stage that it names is queued as the only new run, the instance is running at that stage,
-- and the stage is reported; or no run is added, the instance has no current stage and the status
-- `_workflow_status_for_terminal` gives its terminal, which is reported. No other instance changes.
pub permitted_transition-Arrives :
    (python : Python) (w : WorkflowDef) (owner : String) (k : Kernel) (run : StageRun)
    (stage : StageDef) (outcome : String) (now : ℕ) (result : Option AdapterResult) (t : Transition)
    (g : GuardDecision) (d : Decided) (s s' : Ledger)
    → validate_workflow_def w ≡ valid tt
    → All (λ u. NoEmptyText u.terminal) w.transitions
    → make_kernel w owner ≡ ok k
    → find_transition stage.id outcome k.transitions ≡ some t
    → evaluate_transition_guard python k run stage t result s ≡ ok g
    → g.allowed ≡ true
    → advance_after_outcome python k run stage outcome now result s ≡ (ok d, s')
    → Arrives t run.instance_id now s s' d
unfolding make_kernel advance_after_outcome
permitted_transition-Arrives python w owner k run stage outcome now result t g d s s' accepted
      normal made found evaluated allowed h =
    let (indexed, same) = kernel_of-ok w owner (index_transitions [] w.transitions) k made in
    let is = validate_workflow_def_sound w accepted in
    let ends : Ends k.workflow.stages t =
      subst (λ (x : WorkflowDef). Ends x.stages t) (sym same)
        (All-find_transition (λ u. Ends w.stages u) stage.id outcome k.transitions t
          (All-index_transitions (λ u. Ends w.stages u) [] w.transitions k.transitions tt
            (All-map w.transitions (λ u (r : IsTransition w.stages u). r.ends) is.transitions)
            indexed)
          found) in
    let terminal =
      All-find_transition (λ u. NoEmptyText u.terminal) stage.id outcome k.transitions t
        (All-index_transitions (λ u. NoEmptyText u.terminal) [] w.transitions k.transitions tt
          normal indexed)
        found in
    let (g', s0, read, h1) =
      bind-done (given (evaluate_transition_guard python k run stage t result)) _ s s' d
        (rw found at h) in
    let (evaluated', s_is) = given-done _ g' s s0 read in
    let g_is : g' ≡ g = cc (evaluated, evaluated') in
    Ends-Arrives python k run stage outcome now t g d s s' ends terminal (
      sym (take_transition-allowed python k run stage t g outcome now s allowed)
      ∙ (ap (λ x. take_transition python k run stage t x outcome now s) (sym g_is)
          ∙ (ap (take_transition python k run stage t g' outcome now) s_is ∙ h1)))
