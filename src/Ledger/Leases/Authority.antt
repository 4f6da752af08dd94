-- ===== src/Ledger/Leases/Authority.antt =====
-- Who may change a leased run: the guard of storage.py against an independent description.
use agent_workflow_kernel.Prelude.{
  ℕ, ◌<◌, String, ◌≡◌, refl, ap, sym, ◌∙◌, Bool, true, false, Option, none, some, arith, eq_iff,
  column_is, by_key-guarded, kept_if, kept_if-some, select_first, leb→gt,
}
use agent_workflow_kernel.Contracts.StageStatus.{StageRunStatus}
use agent_workflow_kernel.Ledger.Rows.{StageRunRow}
use agent_workflow_kernel.Ledger.State.{Ledger, ok, run_row}
use agent_workflow_kernel.Ledger.Invariant.{IsWellFormed}
use agent_workflow_kernel.Ledger.Leases.{
  LeaseCall, owner_of, holds_token, expired_at, check_authority, require_leased_run,
}

-- `row` is the run, its lease is the caller's, and it has not expired at the time of the call.
pub record HasAuthority (c : LeaseCall) (permitted : StageRunStatus → Bool) (s : Ledger)
    (row : StageRunRow) : Type 0 where
  pub found : run_row c.stage_run_id s ≡ some row
  pub token : row.lease_token ≡ some c.lease_token
  pub owner : row.lease_owner ≡ some (owner_of c)
  pub status : permitted row.status ≡ true
  pub expiry : ℕ
  pub expires : row.lease_expires_at ≡ some expiry
  pub live : c.now < expiry

-- What the two queries of the guard have in common, by the primary key.
pub leased_row :
    (c : LeaseCall) (s : Ledger)
    → IsWellFormed s
    → select_first (holds_token c) s.runs
      ≡ kept_if (λ r. column_is r.lease_token c.lease_token) (run_row c.stage_run_id s)
leased_row c s w =
    by_key-guarded (λ (r : StageRunRow). r.stage_run_id) c.stage_run_id
      (λ r. column_is r.lease_token c.lease_token) s.runs w.runs_unique

column_is→≡ : (o : Option String) (v : String) → column_is o v ≡ true → o ≡ some v
column_is→≡ none v h = ground arith
column_is→≡ (some w) v h = ap some ((eq_iff w v).0 h)

not_expired : (t : ℕ) (o : Option ℕ) → expired_at t o ≡ false → (e : ℕ) × (o ≡ some e) × (t < e)
not_expired t none h = ground arith
not_expired t (some e) h = (e, refl, leb→gt e t h)

check_authority-ok :
    (c : LeaseCall) (permitted : StageRunStatus → Bool) (o : Option StageRunRow) (row : StageRunRow)
    → check_authority c permitted o ≡ ok row
    → (o ≡ some row)
      × (column_is row.lease_owner (owner_of c) ≡ true)
      × (permitted row.status ≡ true)
      × (expired_at c.now row.lease_expires_at ≡ false)
unfolding check_authority
check_authority-ok c permitted none row h = ground arith
check_authority-ok c permitted (some r) row h =
    let (owned, allowed, live) = passed in
    let same : r ≡ row = ground arith in
    (ap some same, rw (← same) owned, rw (← same) allowed, rw (← same) live)
  where
    passed :
        (column_is r.lease_owner (owner_of c) ≡ true)
        × (permitted r.status ≡ true)
        × (expired_at c.now r.lease_expires_at ≡ false)
    passed = ground arith

module _ (c : LeaseCall) (permitted : StageRunStatus → Bool) (s : Ledger) (w : IsWellFormed s) where
  -- A call that passes the guard has authority over the row that it is given.
  pub require_leased_run-HasAuthority :
      (row : StageRunRow)
      → require_leased_run c permitted s ≡ ok row
      → HasAuthority c permitted s row
  unfolding require_leased_run
  require_leased_run-HasAuthority row h =
      let (selected, owned, allowed, live) = check_authority-ok c permitted _ row h in
      let (found, held) =
        kept_if-some (λ (r : StageRunRow). column_is r.lease_token c.lease_token)
          (run_row c.stage_run_id s) row (sym (leased_row c s w) ∙ selected) in
      let (e, expires, lt) = not_expired c.now row.lease_expires_at live in
      record {
        found = found;
        token = column_is→≡ row.lease_token c.lease_token held;
        owner = column_is→≡ row.lease_owner (owner_of c) owned;
        status = allowed;
        expiry = e;
        expires = expires;
        live = lt;
      }

  -- And a call with authority passes it.
  pub HasAuthority-require_leased_run :
      (row : StageRunRow)
      → HasAuthority c permitted s row
      → require_leased_run c permitted s ≡ ok row
  unfolding require_leased_run
  HasAuthority-require_leased_run row a =
      rw (leased_row c s w, a.found)
        (ground (arith, eq_iff c.lease_token c.lease_token, eq_iff (owner_of c) (owner_of c)))
