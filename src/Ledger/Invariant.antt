-- ===== src/Ledger/Invariant.antt =====
-- What the constraints of the tables of storage.py promise of a ledger, and the writes that keep it.
use agent_workflow_kernel.Prelude.{
  String, ◌≡◌, refl, inl, inr, Bool-cases, subst, sym, ◌∙◌, Bool, true, false, not, ◌&&◌, List, [],
  ◌∷◌, ◌++◌, All, Unique, exists, has_key, arith, update_where, eq_iff, ◌==◌, Unique-update,
  Unique-append, has_key-update, exists-append, if◌then◌else◌,
}
use agent_workflow_kernel.Ledger.Rows.{InstanceRow, StageRunRow, EventRow}
use agent_workflow_kernel.Ledger.State.{
  Ledger, ok, same_attempt, update_runs, update_instance, insert_run, append_event, has_run,
  has_instance, run_ref_ok,
}

-- UNIQUE(instance_id, stage_id, attempt)
abbrev pub AttemptsUnique : List StageRunRow → Type 0
AttemptsUnique [] = Unit
AttemptsUnique (r ∷ rs) = (exists (same_attempt r) rs ≡ false) × AttemptsUnique rs

abbrev pub InstanceKnown : List InstanceRow → StageRunRow → Type 0
InstanceKnown instances r =
    has_key (λ (i : InstanceRow). i.instance_id) r.instance_id instances ≡ true

pub record IsWellFormed (s : Ledger) : Type 0 where
  pub instances_unique : Unique (λ (i : InstanceRow). i.instance_id) s.instances
  pub runs_unique : Unique (λ (r : StageRunRow). r.stage_run_id) s.runs
  pub attempts_unique : AttemptsUnique s.runs
  pub instances_known : All (InstanceKnown s.instances) s.runs

-- A write that leaves the keys of a run alone.
pub record SameIdentity (r r' : StageRunRow) : Type 0 where
  pub stage_run_id : r'.stage_run_id ≡ r.stage_run_id
  pub instance_id : r'.instance_id ≡ r.instance_id
  pub stage_id : r'.stage_id ≡ r.stage_id
  pub attempt : r'.attempt ≡ r.attempt

same_attempt-SameIdentity :
    {a a' b b' : StageRunRow}
    → SameIdentity a a'
    → SameIdentity b b'
    → same_attempt a' b' ≡ same_attempt a b
same_attempt-SameIdentity i j =
    rw (i.instance_id, j.instance_id, i.stage_id, j.stage_id, i.attempt, j.attempt)

pub SameIdentity-refl : (r : StageRunRow) → SameIdentity r r
SameIdentity-refl r = record {
  stage_run_id = refl;
  instance_id = refl;
  stage_id = refl;
  attempt = refl;
}

module _ (p : StageRunRow → Bool) (f : StageRunRow → StageRunRow)
    (keeps : (r : StageRunRow) → SameIdentity r (f r)) where
  touch-SameIdentity : (r : StageRunRow) → SameIdentity r (if p r then f r else r)
  touch-SameIdentity r = elim (p r) as (λ b. SameIdentity r (if b then f r else r)) [
    | true ↦ keeps r
    | false ↦ SameIdentity-refl r
  ]

  pub exists-same_attempt :
      {a a' : StageRunRow} (rs : List StageRunRow)
      → SameIdentity a a'
      → exists (same_attempt a') (update_where p f rs) ≡ exists (same_attempt a) rs
  unfolding exists update_where
  exists-same_attempt [] i = refl
  exists-same_attempt {a} {a'} (r ∷ rs) i =
      rw (same_attempt-SameIdentity i (touch-SameIdentity r), exists-same_attempt rs i)

  AttemptsUnique-update :
      (rs : List StageRunRow) → AttemptsUnique rs → AttemptsUnique (update_where p f rs)
  unfolding update_where
  AttemptsUnique-update [] u = tt
  AttemptsUnique-update (r ∷ rs) u =
      (exists-same_attempt rs (touch-SameIdentity r) ∙ u.0, AttemptsUnique-update rs u.1)

  InstanceKnown-update :
      (is : List InstanceRow) (rs : List StageRunRow)
      → All (InstanceKnown is) rs
      → All (InstanceKnown is) (update_where p f rs)
  unfolding update_where
  InstanceKnown-update is [] u = tt
  InstanceKnown-update is (r ∷ rs) u =
      (rw (touch-SameIdentity r).instance_id u.0, InstanceKnown-update is rs u.1)

  pub update_runs-IsWellFormed : {s : Ledger} → IsWellFormed s → IsWellFormed (update_runs p f s)
  update_runs-IsWellFormed {s} w = record {
    instances_unique = w.instances_unique;
    runs_unique =
        Unique-update (λ (r : StageRunRow). r.stage_run_id) p f (λ r. (keeps r).stage_run_id) s.runs
          w.runs_unique;
    attempts_unique = AttemptsUnique-update s.runs w.attempts_unique;
    instances_known = InstanceKnown-update s.instances s.runs w.instances_known;
  }

-- What a write that the constraints accept has made.
pub append_event-ok :
    (e : EventRow) (s s' : Ledger)
    → append_event e s ≡ ok s'
    → s' ≡ record s { events = s.events ++ e ∷ [] }
unfolding append_event
append_event-ok e s s' h =
    elim (Bool-cases (has_instance e.instance_id s && run_ref_ok e.stage_run_id s)) [
      | inl t ↦ cc (rw t at h)
      | inr t ↦ cc (rw t at h)
    ]

pub insert_run-ok :
    (r : StageRunRow) (s s' : Ledger)
    → insert_run r s ≡ ok s'
    → (has_run r.stage_run_id s ≡ false)
      × (exists (same_attempt r) s.runs ≡ false)
      × (has_instance r.instance_id s ≡ true)
      × (s' ≡ record s { runs = s.runs ++ r ∷ [] })
unfolding insert_run
insert_run-ok r s s' h =
    elim (Bool-cases (
      not (has_run r.stage_run_id s)
      && not (exists (same_attempt r) s.runs)
      && has_instance r.instance_id s
      && run_ref_ok r.parent_stage_run_id s)) [
        | inl t ↦ (ground arith, ground arith, ground arith, cc (rw t at h))
        | inr t ↦ absurd (cc (rw t at h))
      ]

pub insert_run-goes :
    (r : StageRunRow) (s : Ledger)
    → has_run r.stage_run_id s ≡ false
    → exists (same_attempt r) s.runs ≡ false
    → has_instance r.instance_id s ≡ true
    → run_ref_ok r.parent_stage_run_id s ≡ true
    → insert_run r s ≡ ok (record s { runs = s.runs ++ r ∷ [] })
unfolding insert_run
insert_run-goes r s new_id new_attempt known parent = rw (new_id, new_attempt, known, parent) refl

pub append_event-goes :
    (e : EventRow) (s : Ledger)
    → has_instance e.instance_id s ≡ true
    → run_ref_ok e.stage_run_id s ≡ true
    → append_event e s ≡ ok (record s { events = s.events ++ e ∷ [] })
unfolding append_event
append_event-goes e s known parent = rw (known, parent) refl

-- Events are in no key.
pub append_event-IsWellFormed :
    (e : EventRow) (s s' : Ledger) → append_event e s ≡ ok s' → IsWellFormed s → IsWellFormed s'
append_event-IsWellFormed e s s' h w = subst IsWellFormed (sym (append_event-ok e s s' h)) (record {
  instances_unique = w.instances_unique;
  runs_unique = w.runs_unique;
  attempts_unique = w.attempts_unique;
  instances_known = w.instances_known;
})

-- Instances that keep their keys.
pub update_instance-IsWellFormed :
    (i : String) (f : InstanceRow → InstanceRow) {s : Ledger}
    → ((x : InstanceRow) → (f x).instance_id ≡ x.instance_id)
    → IsWellFormed s
    → IsWellFormed (update_instance i f s)
update_instance-IsWellFormed i f {s} keeps w = record {
  instances_unique =
      Unique-update (λ (x : InstanceRow). x.instance_id) (λ x. x.instance_id == i) f keeps
        s.instances w.instances_unique;
  runs_unique = w.runs_unique;
  attempts_unique = w.attempts_unique;
  instances_known = All-InstanceKnown s.runs w.instances_known;
}
  where
    All-InstanceKnown :
        (rs : List StageRunRow)
        → All (InstanceKnown s.instances) rs
        → All (InstanceKnown (update_where (λ x. x.instance_id == i) f s.instances)) rs
    All-InstanceKnown [] h = tt
    All-InstanceKnown (r ∷ rs) h = (
      has_key-update (λ (x : InstanceRow). x.instance_id) (λ x. x.instance_id == i) f keeps
            r.instance_id s.instances
          ∙ h.0,
      All-InstanceKnown rs h.1,
    )

same_attempt_comm : (a b : StageRunRow) → same_attempt a b ≡ same_attempt b a
same_attempt_comm a b = ground (
  arith,
  eq_iff a.instance_id b.instance_id,
  eq_iff b.instance_id a.instance_id,
  eq_iff a.stage_id b.stage_id,
  eq_iff b.stage_id a.stage_id,
)

AttemptsUnique-append :
    (rs : List StageRunRow) (r : StageRunRow)
    → AttemptsUnique rs
    → exists (same_attempt r) rs ≡ false
    → AttemptsUnique (rs ++ r ∷ [])
unfolding exists
AttemptsUnique-append [] r u h = (refl, tt)
AttemptsUnique-append (x ∷ rs) r u h = (
  rw (exists-append (same_attempt x) rs (r ∷ [])) (rw (u.0, same_attempt_comm x r) (ground arith)),
  AttemptsUnique-append rs r u.1 (ground arith),
)

All-append {ℓ κ} :
    {A : Type ℓ} (P : A → Type κ) (xs : List A) (y : A) → All P xs → P y → All P (xs ++ y ∷ [])
All-append P [] y h py = (py, tt)
All-append P (x ∷ xs) y h py = (h.0, All-append P xs y h.1 py)

-- An INSERT that the constraints accept.
pub insert_run-IsWellFormed :
    (r : StageRunRow) (s s' : Ledger) → insert_run r s ≡ ok s' → IsWellFormed s → IsWellFormed s'
insert_run-IsWellFormed r s s' h w =
    let (new_id, new_attempt, known, eq) = insert_run-ok r s s' h in
    subst IsWellFormed (sym eq) (record {
      instances_unique = w.instances_unique;
      runs_unique =
          Unique-append (λ (x : StageRunRow). x.stage_run_id) s.runs r w.runs_unique new_id;
      attempts_unique = AttemptsUnique-append s.runs r w.attempts_unique new_attempt;
      instances_known = All-append (InstanceKnown s.instances) s.runs r w.instances_known known;
    })
