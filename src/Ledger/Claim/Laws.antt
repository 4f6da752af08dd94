-- ===== src/Ledger/Claim/Laws.antt =====
-- What `claim_next_queued_run` of storage.py promises: the oldest due run, an exclusive claim, and a
-- lease that works until it expires.
use agent_workflow_kernel.Prelude.{
  ℕ, ◌≤◌, ◌<◌, String, ◌≡◌, ◌≢◌, refl, ap, sym, subst, ◌∙◌, true, false, Option, none, some, inl,
  inr, ◌⊎◌, ◌==◌, eq_refl, Option-cases, All, All-by_key, if◌then◌else◌,
}
use agent_workflow_kernel.Contracts.{ResolvedLeasePolicy}
use agent_workflow_kernel.Contracts.StageStatus.{is_queued}
use agent_workflow_kernel.Ledger.Rows.{StageRunRow}
use agent_workflow_kernel.Ledger.State.{Ledger, ok, run_row, Result-cases, ok_pair}
use agent_workflow_kernel.Ledger.Invariant.{IsWellFormed}
use agent_workflow_kernel.Ledger.Leases.{LeaseCall, owner_of, only_claimed}
use agent_workflow_kernel.Ledger.Leases.Authority.{HasAuthority}
use agent_workflow_kernel.Ledger.Claim.{
  ClaimCall, is_claimable, resolve_lease, claim_change, claim_row, claim_candidate,
  claim_next_queued_run,
}
use agent_workflow_kernel.Ledger.Claim.Selection.{
  accepts, candidate-none, candidate-taken, candidate-oldest, claimable-queued, claimed_state,
  run_row-claimed, claim_row_lem, claimed-IsWellFormed,
}

-- A claim that took `row` under `lease`, and the state that it leaves.
pub record Takes (c : ClaimCall) (s : Ledger) (r : StageRunRow) (s' : Ledger) : Type 0 where
  pub row : StageRunRow
  pub lease : ResolvedLeasePolicy
  pub chosen : claim_candidate c s ≡ some row
  pub resolved : resolve_lease c row ≡ ok lease
  pub result : r ≡ claim_change c lease row
  pub state : s' ≡ claimed_state c lease row s

stage_run_id-claimed :
    {c : ClaimCall} {s : Ledger} {r : StageRunRow} {s' : Ledger} (t : Takes c s r s')
    → r.stage_run_id ≡ t.row.stage_run_id
unfolding claim_change
stage_run_id-claimed t = ap (λ (x : StageRunRow). x.stage_run_id) t.result

not_queued-claimed :
    (c : ClaimCall) (l : ResolvedLeasePolicy) (r : StageRunRow)
    → is_queued (claim_change c l r).status ≡ false
unfolding claim_change
not_queued-claimed c l r = refl

module _ (c : ClaimCall) (s : Ledger) (w : IsWellFormed s) where
  claim_row-Takes :
      (row : StageRunRow) (o : Option StageRunRow) (s' : Ledger)
      → claim_candidate c s ≡ some row
      → claim_row c row s ≡ ok (o, s')
      → (r : StageRunRow) × (o ≡ some r) × Takes c s r s'
  unfolding claim_row
  claim_row-Takes row o s' chosen h = elim (Result-cases (resolve_lease c row)) [
    | inl (lease, resolved) ↦
        let (found, fits, _) = candidate-taken c s row w chosen in
        let done = claim_row_lem c s w row found (claimable-queued c row fits) lease resolved in
        (
          claim_change c lease row,
          (ok_pair (sym h ∙ done)).0,
          record {
            row = row;
            lease = lease;
            chosen = chosen;
            resolved = resolved;
            result = refl;
            state = (ok_pair (sym h ∙ done)).1;
          },
        )
    | inr (e, refused) ↦ absurd (cc (rw refused at h))
  ]

  -- A claim gives nothing and writes nothing, or it takes the candidate.
  claim-outcome :
      (o : Option StageRunRow) (s' : Ledger)
      → claim_next_queued_run c s ≡ ok (o, s')
      → ((claim_candidate c s ≡ none) × (o ≡ none) × (s' ≡ s))
        ⊎ ((r : StageRunRow) × (o ≡ some r) × Takes c s r s')
  unfolding claim_next_queued_run
  claim-outcome o s' h = elim (Option-cases (claim_candidate c s)) [
    | inl e ↦ let h' = ok_pair (sym (rw (e, claim_next_queued_run) at h)) in inl (e, h'.0, h'.1)
    | inr (row, e) ↦ inr (claim_row-Takes row o s' e (rw (e, claim_next_queued_run) at h))
  ]

  pub claim-Takes :
      (r : StageRunRow) (s' : Ledger) → claim_next_queued_run c s ≡ ok (some r, s') → Takes c s r s'
  claim-Takes r s' h = elim (claim-outcome (some r) s' h) [
    | inl (_, e, _) ↦ absurd (cc e)
    | inr (r', e, t) ↦ let same : r' ≡ r = cc e in subst (λ x. Takes c s x s') same t
  ]

  pub claim_takes_oldest :
      (r : StageRunRow) (s' : Ledger)
      → claim_next_queued_run c s ≡ ok (some r, s')
      → (row : StageRunRow) × (lease : ResolvedLeasePolicy) × (run_row r.stage_run_id s ≡ some row)
        × (is_claimable c row ≡ true)
        × (accepts c row ≡ true)
        × All
            (λ x. is_claimable c x ≡ true → accepts c x ≡ true → row.created_at ≤ x.created_at)
            s.runs
        × (resolve_lease c row ≡ ok lease)
        × (r ≡ claim_change c lease row)
        × ((k : String) → run_row k s' ≡ (if r.stage_run_id == k then some r else run_row k s))
  claim_takes_oldest r s' h =
      let t = claim-Takes r s' h in
      let (found, fits, liked) = candidate-taken c s t.row w t.chosen in
      let same : r.stage_run_id ≡ t.row.stage_run_id = stage_run_id-claimed t in
      (
        t.row,
        t.lease,
        ap (λ k. run_row k s) same ∙ found,
        fits,
        liked,
        candidate-oldest c s t.row t.chosen,
        t.resolved,
        t.result,
        λ k.
            ap (run_row k) t.state
            ∙ run_row-claimed c s w t.row found (claimable-queued c t.row fits) t.lease t.resolved k
            ∙ cc (same, t.result),
      )

  -- On a well-formed ledger, if a run that the call can take and the caller accepts is in the queue,
  -- and the lease policy of every run that the call can take resolves, the claim goes through and
  -- hands out a run.
  pub claim_finds_work :
      (k : String) (x : StageRunRow)
      → run_row k s ≡ some x
      → is_claimable c x ≡ true
      → accepts c x ≡ true
      → ((y : StageRunRow)
          → is_claimable c y ≡ true
          → (lease : ResolvedLeasePolicy) × (resolve_lease c y ≡ ok lease))
      → (r : StageRunRow) × (s' : Ledger) × (claim_next_queued_run c s ≡ ok (some r, s'))
  unfolding claim_next_queued_run
  claim_finds_work k x there due liked leases = elim (Option-cases (claim_candidate c s)) [
    | inl nobody ↦
        let spurned : accepts c x ≡ false =
          All-by_key (λ (r : StageRunRow). r.stage_run_id)
            (λ r. is_claimable c r ≡ true → accepts c r ≡ false) k s.runs x
            (candidate-none c s nobody) there due in
        absurd (cc (liked, spurned))
    | inr (row, chosen) ↦
        let (found, fits, _) = candidate-taken c s row w chosen in
        let (lease, resolved) = leases row fits in
        (
          claim_change c lease row,
          claimed_state c lease row s,
          rw (chosen, claim_next_queued_run)
              (claim_row_lem c s w row found (claimable-queued c row fits) lease resolved),
        )
  ]

  -- A claim that hands out a run of a well-formed ledger leaves a well-formed one.
  pub claim-IsWellFormed :
      (r : StageRunRow) (s' : Ledger)
      → claim_next_queued_run c s ≡ ok (some r, s')
      → IsWellFormed s'
  claim-IsWellFormed r s' h =
      let t = claim-Takes r s' h in
      let (found, fits, _) = candidate-taken c s t.row w t.chosen in
      subst IsWellFormed (sym t.state)
        (claimed-IsWellFormed c s w t.row found (claimable-queued c t.row fits) t.lease t.resolved)

  run_row-claim_self :
      (r : StageRunRow) (s' : Ledger)
      → claim_next_queued_run c s ≡ ok (some r, s')
      → run_row r.stage_run_id s' ≡ some r
  run_row-claim_self r s' h =
      (claim_takes_oldest r s' h).8 r.stage_run_id ∙ rw (eq_refl r.stage_run_id) refl

  -- After a claim on a well-formed ledger, a call that names the claimed run, with the token and the
  -- owner of the claim, has authority to start it at every time before the lease expires.
  pub claim_grants_authority :
      (r : StageRunRow) (s' : Ledger) (e : ℕ) (call : LeaseCall)
      → claim_next_queued_run c s ≡ ok (some r, s')
      → r.lease_expires_at ≡ some e
      → call.stage_run_id ≡ r.stage_run_id
      → call.lease_token ≡ c.fresh_token
      → owner_of call ≡ c.owner_id
      → call.now < e
      → HasAuthority call only_claimed s' r
  unfolding claim_change
  claim_grants_authority r s' e call h expires id token owner live =
      let t = claim-Takes r s' h in
      record {
        found = ap (λ k. run_row k s') id ∙ run_row-claim_self r s' h;
        token = ap (λ (x : StageRunRow). x.lease_token) t.result ∙ ap some (sym token);
        owner = ap (λ (x : StageRunRow). x.lease_owner) t.result ∙ ap some (sym owner);
        status = ap (λ (x : StageRunRow). only_claimed x.status) t.result;
        expiry = e;
        expires = expires;
        live = live;
      }

-- Of two claims on a well-formed ledger, one right after the other, with any arguments, the second
-- does not hand out the run that the first did.
pub claim_is_exclusive :
    (c c' : ClaimCall) (s s' s'' : Ledger) (r r' : StageRunRow)
    → IsWellFormed s
    → claim_next_queued_run c s ≡ ok (some r, s')
    → claim_next_queued_run c' s' ≡ ok (some r', s'')
    → r'.stage_run_id ≢ r.stage_run_id
claim_is_exclusive c c' s s' s'' r r' w h h' same =
    let t = claim-Takes c s w r s' h in
    let (row', _, found', fits', _, _, _, _, _) =
      claim_takes_oldest c' s' (claim-IsWellFormed c s w r s' h) r' s'' h' in
    let it : row' ≡ r = cc (found', ap (λ k. run_row k s') same, run_row-claim_self c s w r s' h) in
    let idle : is_queued r.status ≡ true =
      subst (λ x. is_queued x.status ≡ true) it (claimable-queued c' row' fits') in
    let busy : is_queued r.status ≡ false =
      ap (λ (x : StageRunRow). is_queued x.status) t.result ∙ not_queued-claimed c t.lease t.row in
    cc (idle, busy)
