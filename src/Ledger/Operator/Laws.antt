-- ===== src/Ledger/Operator/Laws.antt =====
-- What `cancel_workflow_instance` and `park_stale_workflow_instance` of storage.py do to a ledger.
use agent_workflow_kernel.Contracts.StageStatus.{superseded}
use agent_workflow_kernel.Prelude.{
  ℕ, String, ◌≡◌, refl, ap, sym, subst, ◌∙◌, Bool, true, false, none, some, List, [], ◌∷◌, ◌++◌,
  ◌&&◌, not, inl, inr, arith, ◌==◌, ≡→==, Bool-cases, Option-cases, by_key-update, by_key-has_key,
  by_key-key, is_some, touched, if◌then◌else◌,
}
use agent_workflow_kernel.Json.{Json}
use agent_workflow_kernel.Contracts.InstanceStatus.{WorkflowStatus, cancelled, blocked}
use agent_workflow_kernel.Ledger.Rows.{InstanceRow, StageRunRow, EventRow}
use agent_workflow_kernel.Ledger.State.{
  Ledger, ok, run_row, instance_row, append_event, update_instance, ok_pair,
}
use agent_workflow_kernel.Ledger.Invariant.{
  IsWellFormed, append_event-goes, append_event-IsWellFormed, update_instance-IsWellFormed,
}
use agent_workflow_kernel.Ledger.Operator.{
  is_unfinished, is_terminal, is_parked_or_terminal, unfinished_of, supersede_change, supersede_all,
  unfinished_ids, Retirement, RetireCall, unchanged, retire_instance, retire, cancel_payload,
  park_payload, cancel_workflow_instance, park_stale_workflow_instance,
}
use agent_workflow_kernel.Ledger.Operator.Supersede.{
  instances-supersede_all, others-supersede_all, supersede_all-IsWellFormed,
  run_row-supersede_unfinished,
}

abbrev instance_key : InstanceRow → String
instance_key i = i.instance_id

-- A run that is superseded: it holds no lease, and keeps the columns that are not named.
abbrev pub superseded_row : ℕ → StageRunRow → StageRunRow
superseded_row now r = record r {
  status = superseded;
  lease_owner = none;
  lease_token = none;
  lease_expires_at = none;
  updated_at = now;
}

-- What an instance's retirement leaves: a well-formed ledger, in which the instance has the target
-- status and no current stage, its unfinished runs are superseded, and the other runs are as before.
-- One event is added, and no other table changes.
pub record Retired (c : RetireCall) (target : WorkflowStatus) (row : InstanceRow) (s s' : Ledger)
    : Type 0 where
  pub well_formed : IsWellFormed s'
  pub instance :
      instance_row c.instance_id s'
      ≡ some (record row { status = target; current_stage_id = none; updated_at = c.updated_at })
  pub runs :
      (k : String)
      → run_row k s'
        ≡ touched (unfinished_of c.instance_id) (superseded_row c.updated_at) (run_row k s)
  pub others : s' ≡ record s { instances = s'.instances; runs = s'.runs; events = s'.events }
  pub event : EventRow
  pub logged : s'.events ≡ s.events ++ event ∷ []
  pub about_instance : event.instance_id ≡ c.instance_id
  pub by_caller : event.actor ≡ c.actor

abbrev pub retirement : RetireCall → WorkflowStatus → InstanceRow → Ledger → Retirement
retirement c target row s = record {
  changed = true;
  instance_id = c.instance_id;
  previous_status = row.status;
  status = target;
  superseded_stage_runs = unfinished_ids c.instance_id s;
  reason = c.reason;
}

module _ (c : RetireCall) (target : WorkflowStatus) (kind : String) (payload : List String → Json)
    (row : InstanceRow) (s : Ledger) (w : IsWellFormed s)
    (found : instance_row c.instance_id s ≡ some row) where
  moved : Ledger
  moved =
      update_instance c.instance_id (retire_instance target c.updated_at)
        (supersede_all c.updated_at (unfinished_ids c.instance_id s) s)

  event : EventRow
  event = record {
    instance_id = c.instance_id;
    stage_run_id = none;
    event_type = kind;
    actor = c.actor;
    payload = payload (unfinished_ids c.instance_id s);
    created_at = c.updated_at;
  }

  instance-moved : instance_row c.instance_id moved ≡ some (retire_instance target c.updated_at row)
  unfolding moved
  instance-moved =
      by_key-update instance_key (λ r. r.instance_id == c.instance_id)
        (retire_instance target c.updated_at) (λ r. refl) c.instance_id
        (supersede_all c.updated_at (unfinished_ids c.instance_id s) s).instances
      ∙ rw (instances-supersede_all c.updated_at (unfinished_ids c.instance_id s) s) (
          rw found (
            rw
              (≡→== row.instance_id c.instance_id
                (by_key-key instance_key c.instance_id s.instances row found))
              refl))

  logged : append_event event moved ≡ ok (record moved { events = moved.events ++ event ∷ [] })
  unfolding event
  logged =
      append_event-goes event moved
        (sym (by_key-has_key instance_key c.instance_id moved.instances)
          ∙ ap is_some instance-moved)
        refl

  others_kept : record moved { events = moved.events ++ event ∷ [] } ≡ record s {
    instances = moved.instances;
    runs = moved.runs;
    events = moved.events ++ event ∷ [];
  }
  unfolding moved
  others_kept =
      ap
        (λ (t : Ledger). record t {
          instances = moved.instances;
          runs = moved.runs;
          events = moved.events ++ event ∷ [];
        })
        (others-supersede_all c.updated_at (unfinished_ids c.instance_id s) s)

  log_grows : moved.events ++ event ∷ [] ≡ s.events ++ event ∷ []
  unfolding moved
  log_grows =
      ap (λ (t : Ledger). t.events ++ event ∷ [])
        (others-supersede_all c.updated_at (unfinished_ids c.instance_id s) s)

  retire_lem :
      (s' : Ledger) × (retire c target kind payload row s ≡ ok (retirement c target row s, s'))
      × Retired c target row s s'
  unfolding retire event moved supersede_change
  retire_lem = (
    record moved { events = moved.events ++ event ∷ [] },
    rw logged refl,
    record {
      well_formed = append_event-IsWellFormed event moved _ logged (
          update_instance-IsWellFormed c.instance_id (retire_instance target c.updated_at)
            (λ x. refl)
            (supersede_all-IsWellFormed c.updated_at (unfinished_ids c.instance_id s) s w));
      instance = instance-moved;
      runs = λ k. run_row-supersede_unfinished c.updated_at c.instance_id s k w;
      others = others_kept;
      event = event;
      logged = log_grows;
      about_instance = refl;
      by_caller = refl;
    },
  )

module _ (c : RetireCall) (row : InstanceRow) (s : Ledger) (w : IsWellFormed s)
    (found : instance_row c.instance_id s ≡ some row) where
  -- On a well-formed ledger, cancelling an instance that is not finished, or any with `force`, goes
  -- through and reports the ids of its unfinished runs. Afterwards the ledger is well-formed, the
  -- instance is cancelled without a current stage, its unfinished runs are superseded without a
  -- lease, and every other run is as it was.
  pub cancel_retires :
      (force : Bool)
      → (is_terminal row.status && not force) ≡ false
      → (s' : Ledger) × (cancel_workflow_instance c force s ≡ ok (retirement c cancelled row s, s'))
        × Retired c cancelled row s s'
  unfolding cancel_workflow_instance
  cancel_retires force unsettled =
      let (s', done, r) =
        retire_lem c cancelled "workflow_cancelled" (cancel_payload c force row) row s w found in
      (s', rw (found, unsettled) done, r)

  -- On a well-formed ledger, parking an instance that is neither finished nor blocked goes through
  -- and reports the ids of its unfinished runs. Afterwards the ledger is well-formed, the instance is
  -- blocked without a current stage, its unfinished runs are superseded without a lease, and every
  -- other run is as it was.
  pub park_retires :
      is_parked_or_terminal row.status ≡ false
      → (s' : Ledger) × (park_stale_workflow_instance c s ≡ ok (retirement c blocked row s, s'))
        × Retired c blocked row s s'
  unfolding park_stale_workflow_instance
  park_retires unsettled =
      let (s', done, r) =
        retire_lem c blocked "workflow_auto_parked_stale_definition" (park_payload c row) row s w
          found in
      (s', rw (found, unsettled) done, r)

idle_after :
    (c : RetireCall) (x r : StageRunRow)
    → r.instance_id ≡ c.instance_id
    → (if unfinished_of c.instance_id x then superseded_row c.updated_at x else x) ≡ r
    → is_unfinished r.status ≡ false
idle_after c x r of_instance e = elim (Bool-cases (unfinished_of c.instance_id x)) [
  | inl unfinished ↦ subst (λ y. is_unfinished y.status ≡ false) (rw unfinished at e) refl
  | inr settled ↦
      let same : x ≡ r = (rw settled at e) in
      let here : (x.instance_id == c.instance_id) ≡ true =
        ≡→== x.instance_id c.instance_id (ap (λ y. y.instance_id) same ∙ of_instance) in
      subst (λ y. is_unfinished y.status ≡ false) same (rw here at settled)
]

Retired-has_no_work :
    (c : RetireCall) (target : WorkflowStatus) (row : InstanceRow) (s s' : Ledger)
    → Retired c target row s s'
    → (k : String) (r : StageRunRow) → run_row k s' ≡ some r
    → r.instance_id ≡ c.instance_id
    → is_unfinished r.status ≡ false
Retired-has_no_work c target row s s' z k r found of_instance = elim (Option-cases (run_row k s)) [
  | inl nobody ↦ absurd (
      cc (
        found,
        z.runs k,
        ap (touched (unfinished_of c.instance_id) (superseded_row c.updated_at)) nobody,
      ))
  | inr (x, there) ↦ idle_after c x r of_instance (
      cc (
        found,
        z.runs k,
        ap (touched (unfinished_of c.instance_id) (superseded_row c.updated_at)) there,
      ))
]

-- Once an instance of a well-formed ledger that is not finished is cancelled, or any instance with
-- `force`, none of its runs is unfinished.
pub cancelled_has_no_work :
    (c : RetireCall) (force : Bool) (row : InstanceRow) (s s' : Ledger) (result : Retirement)
    → IsWellFormed s
    → instance_row c.instance_id s ≡ some row
    → (is_terminal row.status && not force) ≡ false
    → cancel_workflow_instance c force s ≡ ok (result, s')
    → (k : String) (r : StageRunRow) → run_row k s' ≡ some r
    → r.instance_id ≡ c.instance_id
    → is_unfinished r.status ≡ false
cancelled_has_no_work c force row s s' result w found unsettled h k r there of_instance =
    let (t, done, z) = cancel_retires c row s w found force unsettled in
    let same : t ≡ s' = (ok_pair (sym done ∙ h)).1 in
    Retired-has_no_work c cancelled row s t z k r (ap (run_row k) same ∙ there) of_instance

and_left : (a b : Bool) → (a && b) ≡ true → a ≡ true
and_left a b h = ground arith

finished_again :
    (c : RetireCall) (row : InstanceRow) (s : Ledger)
    → instance_row c.instance_id s ≡ some row
    → is_terminal row.status ≡ true
    → (r : Retirement) × (cancel_workflow_instance c false s ≡ ok (r, s)) × (r.changed ≡ false)
unfolding cancel_workflow_instance
finished_again c row s found finished =
    (unchanged row "already_terminal", rw found (rw finished refl), refl)

-- After a cancel that returned, on a well-formed ledger, cancelling the same instance again without
-- `force` returns, leaves the ledger as it is, and reports that nothing changed.
pub cancel_is_idempotent :
    (c c' : RetireCall) (force : Bool) (s s' : Ledger) (r : Retirement)
    → IsWellFormed s
    → cancel_workflow_instance c force s ≡ ok (r, s')
    → c'.instance_id ≡ c.instance_id
    → (r' : Retirement) × (cancel_workflow_instance c' false s' ≡ ok (r', s'))
      × (r'.changed ≡ false)
unfolding cancel_workflow_instance
cancel_is_idempotent c c' force s s' r w h same =
    elim (Option-cases (instance_row c.instance_id s)) [
      | inl nobody ↦ absurd (cc (rw (nobody, cancel_workflow_instance) at h))
      | inr (row, found) ↦ elim (Bool-cases (is_terminal row.status && not force)) [
        | inl settled ↦
            let here : ok (unchanged row "already_terminal", s) ≡ ok (r, s') =
              (rw (found, settled) at h) in
            let still : s ≡ s' = (ok_pair here).1 in
            finished_again c' row s'
              (ap (λ k. instance_row k s') same
                ∙ ap (instance_row c.instance_id) (sym still)
                ∙ found)
              (and_left (is_terminal row.status) (not force) settled)
        | inr unsettled ↦
            let (t, done, z) = cancel_retires c row s w found force unsettled in
            let moved_to : t ≡ s' = (ok_pair (sym done ∙ h)).1 in
            finished_again c' (retire_instance cancelled c.updated_at row) s'
              (ap (λ k. instance_row k s') same
                ∙ ap (instance_row c.instance_id) (sym moved_to)
                ∙ z.instance)
              refl
      ]
    ]
