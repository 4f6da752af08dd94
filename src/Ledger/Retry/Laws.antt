-- ===== src/Ledger/Retry/Laws.antt =====
-- What `schedule_retry` of storage.py does to a ledger.
use agent_workflow_kernel.Prelude.{
  ℕ, suc, String, ◌≡◌, refl, ap, sym, ◌∙◌, true, false, none, some, [], ◌∷◌, ◌++◌, ◌||◌, inl, inr,
  ◌==◌, eq_refl, ==→≡, Bool-cases, Option-cases, All-by_key, by_key, by_key-key, by_key-append,
  by_key-has_key, is_some, exists, exists-append, has_key-update, update_where, if◌then◌else◌,
}
use agent_workflow_kernel.Contracts.Failure.{FailureClass}
use agent_workflow_kernel.Ledger.Rows.{StageRunRow, EventRow}
use agent_workflow_kernel.Ledger.State.{
  Ledger, ok, run_row, has_run, has_instance, append_event, insert_run, update_runs,
}
use agent_workflow_kernel.Ledger.Invariant.{
  IsWellFormed, InstanceKnown, SameIdentity, SameIdentity-refl, exists-same_attempt,
  insert_run-goes, append_event-goes,
}
use agent_workflow_kernel.Ledger.Update.{run_row-update}
use agent_workflow_kernel.Ledger.Leases.{
  LeaseCall, is_active_lease, holds_token, run_event, stage_status_for_failure,
}
use agent_workflow_kernel.Ledger.Leases.Authority.{HasAuthority, HasAuthority-require_leased_run}
use agent_workflow_kernel.Ledger.Leases.Effects.{token_hits, other_misses}
use agent_workflow_kernel.Ledger.Retry.{
  attempt_id, next_stage_attempt, retire_change, retry_run, scheduled_payload, queued_payload,
  schedule_retry,
}
use agent_workflow_kernel.Ledger.Retry.Attempts.{next_stage_attempt-fresh}
use agent_workflow_kernel.Ledger.Retry.Shape.{
  retired_row, following_row, successor, queued_state, retire-SameIdentity, coalesce-none,
}

-- One event about each of the two runs, and no other table but the runs changes.
pub record RetryLogged (c : LeaseCall) (next_id : String) (s s' : Ledger) : Type 0 where
  pub others : s' ≡ record s { runs = s'.runs; events = s'.events }
  pub first : EventRow
  pub second : EventRow
  pub events : s'.events ≡ (s.events ++ first ∷ []) ++ second ∷ []
  pub about_retired : first.stage_run_id ≡ some c.stage_run_id
  pub first_type : first.event_type ≡ "stage_retry_scheduled"
  pub first_actor : first.actor ≡ c.actor
  pub about_next : second.stage_run_id ≡ some next_id
  pub second_type : second.event_type ≡ "stage_retry_queued"
  pub second_actor : second.actor ≡ c.actor

module _ (c : LeaseCall) (class : FailureClass) (summary : String) (retry_at : ℕ) (s : Ledger)
    (w : IsWellFormed s) where
  abbrev pub following : StageRunRow → StageRunRow
  following row =
      following_row (next_stage_attempt row.instance_id row.stage_id s) retry_at c.now row

  module _ (row : StageRunRow) (a : HasAuthority c is_active_lease s row)
      (free : has_run
          (attempt_id row.instance_id row.stage_id
            (next_stage_attempt row.instance_id row.stage_id s))
          s
        ≡ false) where
    change : StageRunRow → StageRunRow
    change = retire_change c.now class summary (suc row.retry_count) retry_at

    next : StageRunRow
    next = successor c class summary retry_at row s

    keeps : (r : StageRunRow) → SameIdentity r (change r)
    unfolding change
    keeps = retire-SameIdentity c.now class summary (suc row.retry_count) retry_at

    known : has_instance row.instance_id s ≡ true
    known =
        All-by_key (λ (r : StageRunRow). r.stage_run_id) (InstanceKnown s.instances) c.stage_run_id
          s.runs row w.instances_known a.found

    -- The runs that are there keep their keys.
    kept_runs : (k : String) → has_run k (update_runs (holds_token c) change s) ≡ has_run k s
    kept_runs k =
        has_key-update (λ (r : StageRunRow). r.stage_run_id) (holds_token c) change
          (λ r. (keeps r).stage_run_id) k s.runs

    same_id : row.stage_run_id ≡ c.stage_run_id
    same_id = by_key-key (λ (r : StageRunRow). r.stage_run_id) c.stage_run_id s.runs row a.found

    has_row : has_run row.stage_run_id s ≡ true
    has_row =
        sym (by_key-has_key (λ (r : StageRunRow). r.stage_run_id) row.stage_run_id s.runs)
        ∙ ap (λ k. is_some (run_row k s)) same_id
        ∙ ap is_some a.found

    has_leased : has_run c.stage_run_id s ≡ true
    has_leased =
        sym (by_key-has_key (λ (r : StageRunRow). r.stage_run_id) c.stage_run_id s.runs)
        ∙ ap is_some a.found

    inserts :
        insert_run next (update_runs (holds_token c) change s)
        ≡ ok (queued_state c class summary retry_at row s)
    unfolding change next retry_run
    inserts =
        insert_run-goes next (update_runs (holds_token c) change s)
          (kept_runs next.stage_run_id ∙ free)
          (exists-same_attempt (holds_token c) change keeps s.runs (SameIdentity-refl next)
            ∙ next_stage_attempt-fresh next s refl)
          known (kept_runs row.stage_run_id ∙ has_row)

    -- After the INSERT both runs are there for the events to name.
    has_run-queued :
        (k : String)
        → has_run k (queued_state c class summary retry_at row s)
          ≡ (has_run k s || (next.stage_run_id == k || false))
    unfolding change next retry_run exists
    has_run-queued k =
        exists-append (λ (r : StageRunRow). r.stage_run_id == k)
          (update_where (holds_token c) change s.runs) (next ∷ [])
        ∙ rw (kept_runs k) refl

    first_event : EventRow
    first_event =
        run_event c row "stage_retry_scheduled" (scheduled_payload class summary retry_at next)

    second_event : EventRow
    second_event =
        record (run_event c row "stage_retry_queued" (queued_payload class retry_at row next)) {
          stage_run_id = some next.stage_run_id;
        }

    logged_once : Ledger
    logged_once = record (queued_state c class summary retry_at row s) {
      events = s.events ++ first_event ∷ [];
    }

    logs_first :
        append_event first_event (queued_state c class summary retry_at row s) ≡ ok logged_once
    unfolding first_event logged_once
    logs_first =
        append_event-goes first_event (queued_state c class summary retry_at row s) known
          (has_run-queued c.stage_run_id ∙ rw has_leased refl)

    logs_second :
        append_event second_event logged_once
        ≡ ok (record logged_once { events = logged_once.events ++ second_event ∷ [] })
    unfolding second_event logged_once next retry_run
    logs_second =
        append_event-goes second_event logged_once known
          (has_run-queued next.stage_run_id ∙ rw (free, eq_refl next.stage_run_id) refl)

    goes :
        (s' : Ledger) × (schedule_retry c class summary retry_at s ≡ ok (tt, s'))
        × (s'.runs ≡ (queued_state c class summary retry_at row s).runs)
        × RetryLogged c next.stage_run_id s s'
    unfolding schedule_retry change next first_event second_event logged_once
    goes = (
      record logged_once { events = logged_once.events ++ second_event ∷ [] },
      rw (HasAuthority-require_leased_run c is_active_lease s w row a)
          (rw inserts (rw logs_first (rw logs_second refl))),
      refl,
      record {
        others = refl;
        first = first_event;
        second = second_event;
        events = refl;
        about_retired = refl;
        first_type = refl;
        first_actor = refl;
        about_next = refl;
        second_type = refl;
        second_actor = refl;
      },
    )

    vacant : (k : String) → (next.stage_run_id == k) ≡ true → run_row k s ≡ none
    unfolding next retry_run
    vacant k e = elim (Option-cases (run_row k s)) [
      | inl nobody ↦ nobody
      | inr (r, there) ↦ absurd (
          cc (
            sym (by_key-has_key (λ (x : StageRunRow). x.stage_run_id) k s.runs) ∙ ap is_some there,
            ap (λ j. has_run j s) (sym (==→≡ next.stage_run_id k e)) ∙ free,
          ))
    ]

    elsewhere : (k : String) → (next.stage_run_id == k) ≡ true → (c.stage_run_id == k) ≡ false
    elsewhere k e = elim (Bool-cases (c.stage_run_id == k)) [
      | inl here ↦
          absurd (cc (a.found, ap (λ j. run_row j s) (==→≡ c.stage_run_id k here), vacant k e))
      | inr there ↦ there
    ]

    -- Which runs there are afterwards.
    run_row-queued :
        (k : String)
        → run_row k (queued_state c class summary retry_at row s) ≡ (
            if next.stage_run_id == k
            then some next
            else if c.stage_run_id == k
            then some (change row)
            else run_row k s)
    unfolding change next retry_run
    run_row-queued k =
        by_key-append (λ (r : StageRunRow). r.stage_run_id) k
          (update_where (holds_token c) change s.runs) next
        ∙ rw
            (run_row-update (holds_token c) change (λ r. (keeps r).stage_run_id) s c.stage_run_id
              row a.found
              (token_hits c is_active_lease change (λ r. (keeps r).stage_run_id) s row a)
              (other_misses c is_active_lease change (λ r. (keeps r).stage_run_id) s row a) k)
            (elim (Bool-cases (next.stage_run_id == k)) [
              | inl e ↦ rw e (rw (vacant k e, elsewhere k e) refl)
              | inr e ↦ rw e (coalesce-none _)
            ])

  -- On a well-formed ledger, a retry by a caller with authority over the run goes through if no run
  -- has the id of the next attempt. The run is then failed, or of invalid output if that is the
  -- failure, and holds no lease, the next attempt is queued under its id, and no other run changes. An
  -- event is added about each of the two runs, and no other table changes.
  pub schedule_retry_effect :
      (row : StageRunRow)
      → HasAuthority c is_active_lease s row
      → has_run
          (attempt_id row.instance_id row.stage_id
            (next_stage_attempt row.instance_id row.stage_id s))
          s
        ≡ false
      → (s' : Ledger) × (schedule_retry c class summary retry_at s ≡ ok (tt, s'))
        × ((k : String)
            → run_row k s' ≡ (
                if (following row).stage_run_id == k
                then some (following row)
                else if c.stage_run_id == k
                then some (retired_row c class summary retry_at row)
                else run_row k s))
        × RetryLogged c (following row).stage_run_id s s'
  unfolding change next retry_run retire_change stage_status_for_failure
  schedule_retry_effect row a free =
      let (s', done, runs, logged) = goes row a free in
      (
        s',
        done,
        λ k. ap (by_key (λ (r : StageRunRow). r.stage_run_id) k) runs ∙ run_row-queued row a free k,
        logged,
      )
