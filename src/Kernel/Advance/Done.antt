-- ===== src/Kernel/Advance/Done.antt =====
-- What a task of kernel.py of packages/kernel/agent_workflow_kernel that returned has gone through.
use agent_workflow_kernel.Prelude.{
  ℕ, String, ◌≡◌, refl, ap, ◌∙◌, sym, subst, Bool, true, false, Option, none, some, List, [], ◌∷◌,
  ◌++◌, inl, inr, Option-cases, if◌then◌else◌,
}
use agent_workflow_kernel.Json.{Json, num, object}
use agent_workflow_kernel.Contracts.{StageRun}
use agent_workflow_kernel.Contracts.InstanceStatus.{WorkflowStatus, running}
use agent_workflow_kernel.Contracts.StageStatus.{queued}
use agent_workflow_kernel.Contracts.Workflow.{Transition, StageDef}
use agent_workflow_kernel.Contracts.Results.{AdapterResult}
use agent_workflow_kernel.Ledger.Rows.{EventRow, StageRunRow}
use agent_workflow_kernel.Ledger.State.{Ledger, Result, ok, err, Body, transaction, Result-cases}
use agent_workflow_kernel.Ledger.Inserts.{update_workflow_instance, insert_stage_run}
use agent_workflow_kernel.Ledger.Inserts.Laws.{
  instance_event, moved_instances, update_workflow_instance-ok, insert_stage_run-ok,
}
use agent_workflow_kernel.Workflow.Plain.{plain_stage}
use agent_workflow_kernel.Ledger.Retry.{attempt_id, next_stage_attempt}
use agent_workflow_kernel.Kernel.{
  Python, digest_data, Kernel, find_transition, next_stage_for_transition,
}
use agent_workflow_kernel.Kernel.Task.{Task, ◌>>=◌, finish, given, proceed}
use agent_workflow_kernel.Kernel.Guards.{GuardDecision}
use agent_workflow_kernel.Kernel.Evaluate.{evaluate_transition_guard}
use agent_workflow_kernel.Kernel.Advance.{
  Decided, decided_queued, update, queue_stage, queued_run, block_transition_guard, blocked_for,
  move_to, end_or_move, take_transition, advance_after_outcome, transitioned_payload,
}

proceed-done {ℓ κ} :
    {A : Type ℓ} {B : Type κ} (r : Result A × Ledger) (f : A → Task B) (s' : Ledger) (b : B)
    → proceed r f ≡ (ok b, s')
    → (a : A) × (s1 : Ledger) × (r ≡ (ok a, s1)) × (f a s1 ≡ (ok b, s'))
proceed-done (ok a, s1) f s' b h = (a, s1, refl, h)
proceed-done (err x, s1) f s' b h = absurd (cc h)

pub bind-done {ℓ κ} :
    {A : Type ℓ} {B : Type κ} (t : Task A) (f : A → Task B) (s s' : Ledger) (b : B)
    → (t >>= f) s ≡ (ok b, s')
    → (a : A) × (s1 : Ledger) × (t s ≡ (ok a, s1)) × (f a s1 ≡ (ok b, s'))
unfolding ◌>>=◌
bind-done t f s s' b h = proceed-done (t s) f s' b h

pub finish-done : (a b : Decided) (s s' : Ledger) → finish a s ≡ (ok b, s') → (a ≡ b) × (s ≡ s')
unfolding finish
finish-done a b s s' h = (cc h, cc h)

pub given-done {ℓ} :
    {A : Type ℓ} (f : Ledger → Result A) (a : A) (s s' : Ledger)
    → given f s ≡ (ok a, s')
    → (f s ≡ ok a) × (s ≡ s')
unfolding given
given-done f a s s' h = (cc h, cc h)

transaction-done {ℓ} :
    {A : Type ℓ} (body : Body A) (a : A) (s s' : Ledger)
    → transaction body s ≡ (ok a, s')
    → body s ≡ ok (a, s')
transaction-done body a s s' h = elim (Result-cases (body s)) [
  | inl ((a', s1), e) ↦
      let both : ◌≡◌ {A = Result _ × Ledger} (ok a', s1) (ok a, s') = (rw e at h) in
      e ∙ let same : ok (a', s1) ≡ ok (a, s') = cc both in same
  | inr (x, e) ↦
      absurd (let no : ◌≡◌ {A = Result _ × Ledger} (err x, s) (ok a, s') = (rw e at h) in cc no)
]

pub update-done :
    (k : Kernel) (run : StageRun) (status : WorkflowStatus) (stage : Option String) (now : ℕ)
    (kind : String) (payload : List (String × Json)) (s s' : Ledger) (u : Unit {0})
    → update k run status stage now kind payload s ≡ (ok u, s')
    → (s'.events
        ≡ s.events ++ instance_event run.instance_id k.owner_id kind (object payload) now ∷ [])
      × (s'.runs ≡ s.runs)
      × (s'.instances ≡ moved_instances run.instance_id status stage now s)
unfolding update
update-done k run status stage now kind payload s s' u h =
    update_workflow_instance-ok run.instance_id status stage now k.owner_id kind (object payload) s
      s' u
      (transaction-done
        (update_workflow_instance run.instance_id status stage now k.owner_id kind (object payload))
        u s s' h)

pub queue-done :
    (python : Python) (stage : StageDef) (i : String) (n : ℕ) (inputs : List (String × Json))
    (now : ℕ) (s s' : Ledger) (u : Unit {0})
    → queue_stage python stage i n inputs now s ≡ (ok u, s')
    → (row : StageRunRow) × (row.instance_id ≡ i)
      × (row.stage_id ≡ stage.id)
      × (row.attempt ≡ n)
      × (s'.events ≡ s.events)
      × (s'.runs ≡ s.runs ++ row ∷ [])
      × (s'.instances ≡ s.instances)
      × (row.status ≡ queued)
unfolding queue_stage
queue-done python stage i n inputs now s s' u h =
    let hash = digest_data python (
      object
        (("stage", plain_stage stage) ∷ ("inputs", object inputs) ∷ ("attempt", num n) ∷ [])) in
    let key = some (attempt_id i stage.id n) in
    let (events, runs, instances) =
      insert_stage_run-ok (queued_run python stage i n) hash key none now s s' u (
        transaction-done (insert_stage_run (queued_run python stage i n) hash key none now) u s s'
          h) in
    (_, refl, refl, refl, events, runs, instances, refl)

-- The event of a move to the n-th attempt of a stage.
abbrev pub moved_event :
    Kernel → StageRun → ℕ → Transition → StageDef → GuardDecision → ℕ → EventRow
moved_event k run now t next g n =
    instance_event run.instance_id k.owner_id "workflow_transitioned"
      (object (transitioned_payload run t next n g)) now

-- A transition that was taken to a next stage.
pub record Moved (python : Python) (k : Kernel) (run : StageRun) (stage : StageDef) (now : ℕ)
    (result : Option AdapterResult) (s s' : Ledger) (t : Transition) (stage_id : String)
    : Type 0 where
  pub g : GuardDecision
  pub evaluated : evaluate_transition_guard python k run stage t result s ≡ ok g
  pub allowed : g.allowed ≡ true
  pub next : StageDef
  pub is_next : next_stage_for_transition k t ≡ some next
  pub id : next.id ≡ stage_id
  pub row : StageRunRow
  pub row_instance : row.instance_id ≡ run.instance_id
  pub row_stage : row.stage_id ≡ next.id
  pub row_attempt : row.attempt ≡ next_stage_attempt run.instance_id next.id s
  pub runs : s'.runs ≡ s.runs ++ row ∷ []
  pub events :
      s'.events
      ≡ s.events
        ++ moved_event k run now t next g (next_stage_attempt run.instance_id next.id s) ∷ []

module _ (python : Python) (k : Kernel) (run : StageRun) (stage : StageDef) (outcome : String)
    (now : ℕ) (result : Option AdapterResult) (i : String) where
  blocked_for-not_queued :
      (reason summary : String) (s s' : Ledger)
      → ¬ (blocked_for k run stage outcome now reason summary s ≡ (ok (decided_queued i), s'))
  blocked_for-not_queued reason summary s s' h =
      let (u, s1, updated, last) = bind-done _ _ s s' (decided_queued i) h in
      let (other, _) = finish-done _ _ s1 s' last in absurd (cc other)

  block_transition_guard-not_queued :
      (t : Transition) (g : GuardDecision) (s s' : Ledger)
      → ¬ (block_transition_guard k run stage t g outcome now s ≡ (ok (decided_queued i), s'))
  unfolding block_transition_guard
  block_transition_guard-not_queued t g s s' h =
      let (u1, s1, _, h1) = bind-done _ _ s s' (decided_queued i) h in
      let (u2, s2, _, h2) = bind-done _ _ s1 s' (decided_queued i) h1 in
      let (u3, s3, _, last) = bind-done _ _ s2 s' (decided_queued i) h2 in
      let (other, _) = finish-done _ _ s3 s' last in absurd (cc other)

  end-not_queued :
      (t : Transition) (g : GuardDecision) (terminal : String) (s s' : Ledger)
      → ¬ (
          end_or_move python k run stage t g outcome now (some terminal) s
          ≡ (ok (decided_queued i), s'))
  end-not_queued t g terminal s s' h =
      let (u, s1, _, last) = bind-done _ _ s s' (decided_queued i) h in
      let (other, _) = finish-done _ _ s1 s' last in absurd (cc other)

  move_to-Moved :
      (t : Transition) (g : GuardDecision) (s s' : Ledger)
      → evaluate_transition_guard python k run stage t result s ≡ ok g
      → g.allowed ≡ true
      → move_to python k run stage t g outcome now (next_stage_for_transition k t) s
        ≡ (ok (decided_queued i), s')
      → Moved python k run stage now result s s' t i
  move_to-Moved t g s s' evaluated allowed h = elim (Option-cases (next_stage_for_transition k t)) [
    | inl e ↦ absurd (blocked_for-not_queued _ _ s s' (rw e at h))
    | inr (next, e) ↦ moved next e (
        subst (λ o. move_to python k run stage t g outcome now o s ≡ (ok (decided_queued i), s')) e
          h)
  ]
    where
      moved :
          (next : StageDef)
          → next_stage_for_transition k t ≡ some next
          → move_to python k run stage t g outcome now (some next) s ≡ (ok (decided_queued i), s')
          → Moved python k run stage now result s s' t i
      moved next e h1 =
          let (n, s0, read, h2) = bind-done _ _ s s' (decided_queued i) h1 in
          let (n_is, s0_is) = given-done _ n s s0 read in
          let (u, s1, put, h3) = bind-done _ _ s0 s' (decided_queued i) h2 in
          let (row, row_instance, row_stage, row_attempt, events1, runs1, _, _) =
            queue-done python next run.instance_id n _ now s0 s1 u put in
          let (u2, s2, updated, h4) = bind-done _ _ s1 s' (decided_queued i) h3 in
          let (events2, runs2, _) =
            update-done k run running (some next.id) now "workflow_transitioned"
              (transitioned_payload run t next n g) s1 s2 u2 updated in
          let (ended, s2_is) = finish-done _ _ s2 s' h4 in
          let at : n ≡ next_stage_attempt run.instance_id next.id s = cc (n_is) in
          record {
            g = g;
            evaluated = evaluated;
            allowed = allowed;
            next = next;
            is_next = e;
            id = cc ended;
            row = row;
            row_instance = row_instance;
            row_stage = row_stage;
            row_attempt = row_attempt ∙ at;
            runs = cc (s2_is, s0_is, runs1, runs2);
            events =
                ap (λ (x : Ledger). x.events) (sym s2_is)
                ∙ (events2
                    ∙ (ap (λ es. es ++ moved_event k run now t next g n ∷ [])
                          (events1 ∙ ap (λ (x : Ledger). x.events) (sym s0_is))
                        ∙ ap (λ m. s.events ++ moved_event k run now t next g m ∷ []) at));
          }

  take_transition-Moved :
      (t : Transition) (g : GuardDecision) (s s' : Ledger)
      → evaluate_transition_guard python k run stage t result s ≡ ok g
      → take_transition python k run stage t g outcome now s ≡ (ok (decided_queued i), s')
      → Moved python k run stage now result s s' t i
  unfolding take_transition
  take_transition-Moved t g s s' evaluated h = taken g.allowed refl h
    where
      ended :
          (o : Option String)
          → g.allowed ≡ true
          → end_or_move python k run stage t g outcome now o s ≡ (ok (decided_queued i), s')
          → Moved python k run stage now result s s' t i
      ended none allowed h' = move_to-Moved t g s s' evaluated allowed h'
      ended (some terminal) allowed h' = absurd (end-not_queued t g terminal s s' h')

      taken :
          (b : Bool)
          → g.allowed ≡ b
          → (if b
                then end_or_move python k run stage t g outcome now t.terminal
                else block_transition_guard k run stage t g outcome now)
              s
            ≡ (ok (decided_queued i), s')
          → Moved python k run stage now result s s' t i
      taken true allowed h' = ended t.terminal allowed h'
      taken false allowed h' = absurd (block_transition_guard-not_queued t g s s' h')

  -- An advance that queued a stage has moved by the transition of the outcome.
  pub advance_after_outcome-Moved :
      (t : Transition) (s s' : Ledger)
      → find_transition stage.id outcome k.transitions ≡ some t
      → advance_after_outcome python k run stage outcome now result s ≡ (ok (decided_queued i), s')
      → Moved python k run stage now result s s' t i
  unfolding advance_after_outcome
  advance_after_outcome-Moved t s s' found h =
      let (g, s0, read, h1) =
        bind-done (given (evaluate_transition_guard python k run stage t result)) _ s s'
          (decided_queued i) (rw found at h) in
      let (evaluated, same) = given-done _ g s s0 read in
      take_transition-Moved t g s s' evaluated (
        subst
          (λ x. take_transition python k run stage t g outcome now x ≡ (ok (decided_queued i), s'))
          (sym same) h1)
