-- ===== src/Kernel/Lease/Precedence.antt =====
-- The order in which `resolve_stage_lease_policy` of lease.py asks for a lease.
use Prim.Native.String.{◌++◌ as append}
use agent_workflow_kernel.Prelude.{
  ℕ, zero, suc, ◌≤◌, ◌≡◌, ◌↔◌, refl, subst, Option, none, some, inl, inr, arith, true, false,
  Bool-cases,
}
use agent_workflow_kernel.Json.{
  Json, null, bool, num, negative, str, arr, obj, field_of, get, is_blank, ℤ, integer, IntReading,
  unreadable, below_zero, natural,
}
use agent_workflow_kernel.Contracts.{ResolvedLeasePolicy}
use agent_workflow_kernel.Contracts.Workflow.{StageDef, WorkflowDef}
use agent_workflow_kernel.Ledger.State.{ok, bind-ok}
use agent_workflow_kernel.Ledger.Rows.{StageRunRow}
use agent_workflow_kernel.Ledger.Claim.{ClaimCall, stage_run_from_row, claim_change}
use agent_workflow_kernel.Kernel.{Python}
use agent_workflow_kernel.Kernel.Advance.{actor_ref}
use agent_workflow_kernel.Kernel.Lease.{
  resolved_lease_policy_from_stage_run, to_positive_int, lease_seconds_from_mapping,
  actor_config_for_stage, name_of_actor, lease_policy, positive, positive_reading, stage_policy,
  actor_policy, default_policy, resolve_stage_lease_policy,
}

-- A level says a number of seconds, or nothing.
abbrev pub Says : Python → Option Json → ℕ → Type 0
Says python lease n = lease_seconds_from_mapping python lease ≡ ok (some n)

abbrev pub IsSilent : Python → Option Json → Type 0
IsSilent python lease = lease_seconds_from_mapping python lease ≡ ok none

positive-le : (m n : ℕ) → positive m ≡ ok n → 1 ≤ n
positive-le zero n h = absurd (cc h)
positive-le (suc m) n h = let e : suc m ≡ n = cc h in subst (λ x. 1 ≤ x) e (omega arith)

positive_reading-le : (r : IntReading) (n : ℕ) → positive_reading r ≡ ok n → 1 ≤ n
positive_reading-le unreadable n h = absurd (cc h)
positive_reading-le below_zero n h = absurd (cc h)
positive_reading-le (natural m) n h = positive-le m n h

to_positive_int-le : (python : Python) (v : Json) (n : ℕ) → to_positive_int python v ≡ ok n → 1 ≤ n
unfolding to_positive_int
to_positive_int-le python (num m) n h = positive-le m n h
to_positive_int-le python (bool true) n h =
    let e : 1 ≡ n = cc h in subst (λ x. 1 ≤ x) e (omega arith)
to_positive_int-le python (bool false) n h = absurd (cc h)
to_positive_int-le python (str t) n h = positive_reading-le (python.int_of t) n h
to_positive_int-le python null n h = absurd (cc h)
to_positive_int-le python (negative _) n h = absurd (cc h)
to_positive_int-le python (arr _) n h = absurd (cc h)
to_positive_int-le python (obj _) n h = absurd (cc h)

Says-le : (python : Python) (lease : Option Json) (n : ℕ) → Says python lease n → 1 ≤ n
unfolding lease_seconds_from_mapping
Says-le python (some (obj fs)) n h = elim (Bool-cases (is_blank (get "seconds" fs))) [
  | inl blank ↦ absurd (cc (rw (blank, lease_seconds_from_mapping) at h))
  | inr there ↦
      let (m, reads, done) = bind-ok _ _ (some n) (rw (there, lease_seconds_from_mapping) at h) in
      let e : m ≡ n = cc done in
      subst (λ x. 1 ≤ x) e (to_positive_int-le python (get "seconds" fs) m reads)
]
Says-le python none n h = absurd (cc h)
Says-le python (some null) n h = absurd (cc h)
Says-le python (some (bool _)) n h = absurd (cc h)
Says-le python (some (num _)) n h = absurd (cc h)
Says-le python (some (negative _)) n h = absurd (cc h)
Says-le python (some (str _)) n h = absurd (cc h)
Says-le python (some (arr _)) n h = absurd (cc h)

module _ (python : Python) (w : WorkflowDef) (s : StageDef) (runtime : ℤ) where
  abbrev pub actor_lease : Option Json
  actor_lease = field_of "lease" (actor_config_for_stage python w s)

  abbrev pub default_lease : Option Json
  default_lease = field_of "lease" w.defaults

  -- Which level gives the lease, with what was said at the levels before it.
  pub data Gives : Option ℤ → ResolvedLeasePolicy → Type 0 where
    by_runner :
        (seconds : ℤ) (n : ℕ)
        → to_positive_int python (integer seconds) ≡ ok n
        → Gives
            (some seconds)
            (lease_policy python s n "runner_override" "WorkflowKernel.run_once.lease_seconds")
    by_stage :
        (n : ℕ)
        → Says python (some (obj s.lease)) n
        → Gives none (lease_policy python s n "stage" (append "stages." (append s.id ".lease")))
    by_actor :
        (n : ℕ)
        → IsSilent python (some (obj s.lease))
        → Says python actor_lease n
        → Gives none (
            lease_policy python s n "actor"
              (append "actors." (append (name_of_actor (actor_ref python s)) ".lease")))
    by_default :
        (n : ℕ)
        → IsSilent python (some (obj s.lease))
        → IsSilent python actor_lease
        → Says python default_lease n
        → Gives none (lease_policy python s n "workflow_default" "defaults.lease")
    by_runtime :
        (n : ℕ)
        → IsSilent python (some (obj s.lease))
        → IsSilent python actor_lease
        → IsSilent python default_lease
        → to_positive_int python (integer runtime) ≡ ok n
        → Gives none
            (lease_policy python s n "runtime_default" "KernelRuntimeConfig.default_lease_seconds")

  default-Gives :
      (o : Option ℕ) (p : ResolvedLeasePolicy)
      → lease_seconds_from_mapping python default_lease ≡ ok o
      → IsSilent python (some (obj s.lease))
      → IsSilent python actor_lease
      → default_policy python s runtime o ≡ ok p
      → Gives none p
  default-Gives (some n) p said stage actor h =
      subst (Gives none) (let e : _ ≡ p = cc h in e) (by_default n stage actor said)
  default-Gives none p silent stage actor h =
      let (n, reads, done) = bind-ok _ _ p h in
      subst (Gives none) (let e : _ ≡ p = cc done in e) (by_runtime n stage actor silent reads)

  actor-Gives :
      (o : Option ℕ) (p : ResolvedLeasePolicy)
      → lease_seconds_from_mapping python actor_lease ≡ ok o
      → IsSilent python (some (obj s.lease))
      → actor_policy python w s runtime o ≡ ok p
      → Gives none p
  actor-Gives (some n) p said stage h =
      subst (Gives none) (let e : _ ≡ p = cc h in e) (by_actor n stage said)
  actor-Gives none p silent stage h =
      let (o, reads, rest) = bind-ok _ _ p h in default-Gives o p reads stage silent rest

  stage-Gives :
      (o : Option ℕ) (p : ResolvedLeasePolicy)
      → lease_seconds_from_mapping python (some (obj s.lease)) ≡ ok o
      → stage_policy python w s runtime o ≡ ok p
      → Gives none p
  stage-Gives (some n) p said h = subst (Gives none) (let e : _ ≡ p = cc h in e) (by_stage n said)
  stage-Gives none p silent h =
      let (o, reads, rest) = bind-ok _ _ p h in actor-Gives o p reads silent rest

  resolve-Gives :
      (explicit : Option ℤ) (p : ResolvedLeasePolicy)
      → resolve_stage_lease_policy python w s runtime explicit ≡ ok p
      → Gives explicit p
  unfolding resolve_stage_lease_policy
  resolve-Gives (some seconds) p h =
      let (n, reads, done) = bind-ok _ _ p h in
      subst (Gives (some seconds)) (let e : _ ≡ p = cc done in e) (by_runner seconds n reads)
  resolve-Gives none p h = let (o, reads, rest) = bind-ok _ _ p h in stage-Gives o p reads rest

  Gives-resolve :
      (explicit : Option ℤ) (p : ResolvedLeasePolicy)
      → Gives explicit p
      → resolve_stage_lease_policy python w s runtime explicit ≡ ok p
  unfolding resolve_stage_lease_policy
  Gives-resolve _ _ (by_runner seconds n reads) = rw reads refl
  Gives-resolve _ _ (by_stage n said) = rw said refl
  Gives-resolve _ _ (by_actor n stage said) = rw (stage, said) refl
  Gives-resolve _ _ (by_default n stage actor said) = rw (stage, actor, said) refl
  Gives-resolve _ _ (by_runtime n stage actor default reads) =
      rw (stage, actor, default, reads) refl

  Gives-le :
      (explicit : Option ℤ) (p : ResolvedLeasePolicy) → Gives explicit p → 1 ≤ p.lease_seconds
  Gives-le _ _ (by_runner seconds n reads) = to_positive_int-le python (integer seconds) n reads
  Gives-le _ _ (by_stage n said) = Says-le python (some (obj s.lease)) n said
  Gives-le _ _ (by_actor n _ said) = Says-le python actor_lease n said
  Gives-le _ _ (by_default n _ _ said) = Says-le python default_lease n said
  Gives-le _ _ (by_runtime n _ _ _ reads) = to_positive_int-le python (integer runtime) n reads

  -- The lease of a stage is the runner's number if the runner gives one, or else that of the first of
  -- the stage, its actor and the workflow's defaults that says one, or else the runtime's. The levels
  -- asked before it say nothing, and the number is at least one; without such a number no lease is
  -- resolved.
  pub resolve_stage_lease_policy_iff :
      (explicit : Option ℤ) (p : ResolvedLeasePolicy)
      → (resolve_stage_lease_policy python w s runtime explicit ≡ ok p)
        ↔ (Gives explicit p × (1 ≤ p.lease_seconds))
  resolve_stage_lease_policy_iff explicit p = (
    λ h. let g = resolve-Gives explicit p h in (g, Gives-le explicit p g),
    λ g. Gives-resolve explicit p g.0,
  )

-- A run that is claimed keeps the lease that was resolved for it, but with the actor of its row.
pub lease_policy-claim :
    (c : ClaimCall) (lease : ResolvedLeasePolicy) (row : StageRunRow)
    → resolved_lease_policy_from_stage_run (stage_run_from_row (claim_change c lease row))
      ≡ some (record lease { actor_ref = row.actor_ref })
unfolding resolved_lease_policy_from_stage_run stage_run_from_row claim_change
lease_policy-claim c lease row = refl
