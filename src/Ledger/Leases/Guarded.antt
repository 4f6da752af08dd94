-- ===== src/Ledger/Leases/Guarded.antt =====
-- The guarded operations of storage.py: who may make them, what they leave, and that a released
-- lease is of no further use.
use agent_workflow_kernel.Prelude.{
  String, ◌≡◌, refl, ap, sym, subst, ◌∙◌, ◌↔◌, Bool, true, false, none, some, ◌∷◌, [], ◌++◌, inl,
  inr, ◌==◌, eq_refl, if◌then◌else◌,
}
use agent_workflow_kernel.Json.{Json}
use agent_workflow_kernel.Contracts.StageStatus.{StageRunStatus}
use agent_workflow_kernel.Ledger.Rows.{StageRunRow, EventRow}
use agent_workflow_kernel.Ledger.State.{
  Ledger, ok, err, conflict, not_leased_by_token, run_row, Result-cases,
}
use agent_workflow_kernel.Ledger.Invariant.{IsWellFormed, SameIdentity}
use agent_workflow_kernel.Ledger.Leases.{
  LeaseCall, holds_token, require_leased_run, run_event, mutate_leased, mark_stage_run_started,
  complete_stage_run, fail_stage_run, block_stage_run, wait_stage_run_for_human_decision,
  start_change, complete_change, fail_change, block_change, wait_change,
}
use agent_workflow_kernel.Ledger.Update.{rewritten-IsWellFormed}
use agent_workflow_kernel.Ledger.Leases.Authority.{
  HasAuthority, leased_row, require_leased_run-HasAuthority,
}
use agent_workflow_kernel.Ledger.Leases.Effects.{
  Mutation, start, complete, fail, block, wait, perform, permits, written, written-expected,
  expected_row, expected_event, stage_run_id-written, after, mutate_leased_lem, run_row-after,
}

-- Every operation is the shared shape, at its own change, event and payload.
pub record HasShape (m : Mutation) (c : LeaseCall) : Type 0 where
  pub kind : String
  pub payload : StageRunRow → Json
  pub named : kind ≡ expected_event m
  pub shape :
      (s : Ledger) → perform m c s ≡ mutate_leased c (permits m) (written m c) kind payload s

perform-HasShape : (m : Mutation) (c : LeaseCall) → HasShape m c
unfolding perform mark_stage_run_started complete_stage_run fail_stage_run block_stage_run
    wait_stage_run_for_human_decision
perform-HasShape (start scope) c = record { kind = _; payload = _; named = refl; shape = λ s. refl }
perform-HasShape (complete _ _) c = record {
  kind = _;
  payload = _;
  named = refl;
  shape = λ s. refl;
}
perform-HasShape (fail _ _ _ _) c = record {
  kind = _;
  payload = _;
  named = refl;
  shape = λ s. refl;
}
perform-HasShape (block _ _ _) c = record { kind = _; payload = _; named = refl; shape = λ s. refl }
perform-HasShape (wait _ _) c = record { kind = _; payload = _; named = refl; shape = λ s. refl }

mutate_leased-passed :
    (c : LeaseCall) (permitted : StageRunStatus → Bool) (change : StageRunRow → StageRunRow)
    (kind : String) (payload : StageRunRow → Json) (s s' : Ledger)
    → mutate_leased c permitted change kind payload s ≡ ok (tt, s')
    → (row : StageRunRow) × (require_leased_run c permitted s ≡ ok row)
unfolding mutate_leased
mutate_leased-passed c permitted change kind payload s s' h =
    elim (Result-cases (require_leased_run c permitted s)) [
      | inl (row, e) ↦ (row, e)
      | inr (e, refused) ↦ absurd (cc (rw refused at h))
    ]

module _ (m : Mutation) (c : LeaseCall) (s : Ledger) (w : IsWellFormed s) where
  pub perform-HasAuthority :
      (s' : Ledger)
      → perform m c s ≡ ok (tt, s')
      → (row : StageRunRow) × HasAuthority c (permits m) s row
  perform-HasAuthority s' h =
      let f = perform-HasShape m c in
      let (row, passed) =
        mutate_leased-passed c (permits m) (written m c) f.kind f.payload s s'
          (sym (f.shape s) ∙ h) in
      (row, require_leased_run-HasAuthority c (permits m) s w row passed)

  -- On a well-formed ledger, an operation (starting, completing, failing, blocking a run, or parking
  -- it for a human) whose caller has authority over the run goes through. It writes into that run
  -- the columns that `expected_row` names for the operation, keeps every other run, and adds one
  -- event, about the run, of the operation's type, and by the caller at the time of the call. No
  -- other table changes.
  pub perform_effect :
      (row : StageRunRow)
      → HasAuthority c (permits m) s row
      → (s' : Ledger) × (perform m c s ≡ ok (tt, s'))
        × ((k : String)
            → run_row k s'
              ≡ (if c.stage_run_id == k then some (expected_row m c row) else run_row k s))
        × (s' ≡ record s { runs = s'.runs; events = s'.events })
        × ((e : EventRow) × (s'.events ≡ s.events ++ e ∷ [])
            × (e.instance_id ≡ row.instance_id)
            × (e.stage_run_id ≡ some c.stage_run_id)
            × (e.event_type ≡ expected_event m)
            × (e.actor ≡ c.actor)
            × (e.created_at ≡ c.now))
  perform_effect row a =
      let f = perform-HasShape m c in
      let e = run_event c row f.kind (f.payload row) in
      (
        after c (written m c) e s,
        f.shape s
            ∙ mutate_leased_lem c (permits m) (written m c) (stage_run_id-written m c) s row a w
                f.kind f.payload,
        λ k.
            run_row-after c (permits m) (written m c) (stage_run_id-written m c) s row a e k
            ∙ ap (λ r. if c.stage_run_id == k then some r else run_row k s)
                (written-expected m c row),
        refl,
        (e, refl, refl, refl, f.named, refl, refl),
      )

  -- On a well-formed ledger, an operation (starting, completing, failing, blocking a run, or parking
  -- it for a human) goes through exactly when its caller has authority: the run is there, it is
  -- leased under the caller's token and owner, it is in a status that the operation permits, and
  -- the lease expires after the time of the call.
  pub perform_iff :
      ((s' : Ledger) × (perform m c s ≡ ok (tt, s')))
      ↔ ((row : StageRunRow) × HasAuthority c (permits m) s row)
  perform_iff = (
    λ (s', h). perform-HasAuthority s' h,
    λ (row, a). let (s', done, _, _, _) = perform_effect row a in (s', done),
  )

written-SameIdentity :
    (m : Mutation) (c : LeaseCall) (r : StageRunRow) → SameIdentity r (written m c r)
unfolding start_change complete_change fail_change block_change wait_change
written-SameIdentity (start _) c r = record {
  stage_run_id = refl;
  instance_id = refl;
  stage_id = refl;
  attempt = refl;
}
written-SameIdentity (complete _ _) c r = record {
  stage_run_id = refl;
  instance_id = refl;
  stage_id = refl;
  attempt = refl;
}
written-SameIdentity (fail _ _ _ _) c r = record {
  stage_run_id = refl;
  instance_id = refl;
  stage_id = refl;
  attempt = refl;
}
written-SameIdentity (block _ _ _) c r = record {
  stage_run_id = refl;
  instance_id = refl;
  stage_id = refl;
  attempt = refl;
}
written-SameIdentity (wait _ _) c r = record {
  stage_run_id = refl;
  instance_id = refl;
  stage_id = refl;
  attempt = refl;
}

-- The state after an operation that went through.
perform-state :
    (m : Mutation) (c : LeaseCall) (s s' : Ledger) (w : IsWellFormed s)
    → perform m c s ≡ ok (tt, s')
    → (e : EventRow) × (s' ≡ after c (written m c) e s)
perform-state m c s s' w h =
    let (row, a) = perform-HasAuthority m c s w s' h in
    let f = perform-HasShape m c in
    let e = run_event c row f.kind (f.payload row) in
    let done : perform m c s ≡ ok (tt, after c (written m c) e s) =
      f.shape s
      ∙ mutate_leased_lem c (permits m) (written m c) (stage_run_id-written m c) s row a w f.kind
          f.payload in
    (e, cc (h, done))

-- A guarded operation that goes through on a well-formed ledger (keys and attempts unique, every run
-- of a known instance) leaves a well-formed one.
pub perform-IsWellFormed :
    (m : Mutation) (c : LeaseCall) (s s' : Ledger)
    → IsWellFormed s
    → perform m c s ≡ ok (tt, s')
    → IsWellFormed s'
perform-IsWellFormed m c s s' w h =
    let (e, eq) = perform-state m c s s' w h in
    subst IsWellFormed (sym eq)
      (rewritten-IsWellFormed (holds_token c) (written m c) e (written-SameIdentity m c) w)

abbrev pub releases : Mutation → Bool
releases (start _) = false
releases _ = true

lease_token-written :
    (m : Mutation) (c : LeaseCall) (r : StageRunRow)
    → releases m ≡ true
    → (written m c r).lease_token ≡ none
unfolding complete_change fail_change block_change wait_change
lease_token-written (start _) c r h = absurd (cc)
lease_token-written (complete _ _) c r h = refl
lease_token-written (fail _ _ _ _) c r h = refl
lease_token-written (block _ _ _) c r h = refl
lease_token-written (wait _ _) c r h = refl

-- A run that holds no token is refused to every guarded operation.
pub refused_without_token :
    (m : Mutation) (c : LeaseCall) (s : Ledger) (row : StageRunRow)
    → IsWellFormed s
    → run_row c.stage_run_id s ≡ some row
    → row.lease_token ≡ none
    → perform m c s ≡ err (conflict not_leased_by_token)
unfolding mutate_leased require_leased_run
refused_without_token m c s row w found free =
    (perform-HasShape m c).shape s ∙ rw (leased_row c s w, found, free) refl

-- Once a run of a well-formed ledger is completed, failed, blocked or parked for a human, the next
-- guarded operation on it is refused as not leased, whatever token, owner and time it is called with.
pub released_lease_is_dead :
    (m m' : Mutation) (c c' : LeaseCall) (s s' : Ledger)
    → IsWellFormed s
    → releases m ≡ true
    → perform m c s ≡ ok (tt, s')
    → c'.stage_run_id ≡ c.stage_run_id
    → perform m' c' s' ≡ err (conflict not_leased_by_token)
released_lease_is_dead m m' c c' s s' w rel h same =
    let (row, a) = perform-HasAuthority m c s w s' h in
    let (e, eq) = perform-state m c s s' w h in
    let found : run_row c.stage_run_id s' ≡ some (written m c row) =
      ap (run_row c.stage_run_id) eq
      ∙ run_row-after c (permits m) (written m c) (stage_run_id-written m c) s row a e
          c.stage_run_id
      ∙ rw (eq_refl c.stage_run_id) refl in
    refused_without_token m' c' s' (written m c row) (perform-IsWellFormed m c s s' w h)
      (ap (λ k. run_row k s') same ∙ found) (lease_token-written m c row rel)
