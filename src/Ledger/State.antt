-- ===== src/Ledger/State.antt =====
-- The state of a `WorkflowLedger` of packages/kernel/agent_workflow_kernel/storage.py, its
-- exceptions, and `_transaction`: what a body wrote is kept if it returns, and rolled back if it
-- raises. The constraints of the tables (PRIMARY KEY, UNIQUE, REFERENCES under
-- `PRAGMA foreign_keys = ON`) are tests at the INSERTs.
use agent_workflow_kernel.Prelude.{
  String, ◌≡◌, refl, ◌⊎◌, inl, inr, Bool, true, not, ◌&&◌, Option, none, some, List, [], ◌∷◌, ◌++◌,
  ◌==◌, eqb, exists, has_key, by_key, update_where, if◌then◌else◌,
}
use agent_workflow_kernel.Ledger.Rows.{
  InstanceRow, StageRunRow, InvocationRow, EventRow, DecisionRow, LateResultRow, ReceiptRow,
  ArtifactRow,
}

pub record Ledger : Type 0 where
  pub instances : List InstanceRow
  pub runs : List StageRunRow
  pub invocations : List InvocationRow
  pub events : List EventRow
  pub decisions : List DecisionRow
  pub late_results : List LateResultRow
  pub receipts : List ReceiptRow
  pub artifacts : List ArtifactRow

abbrev pub empty : Ledger
empty = record {
  instances = [];
  runs = [];
  invocations = [];
  events = [];
  decisions = [];
  late_results = [];
  receipts = [];
  artifacts = [];
}

-- `LedgerConflict`, by the message that it is raised with.
pub data Conflict : Type 0 where
  not_leased_by_token not_leased_by_owner wrong_status lease_expired : Conflict
  not_waiting_on_human not_blocked gate_missing already_decided : Conflict
  run_missing invocation_missing not_retryable reauthorization_missing : Conflict

-- `integrity` is sqlite3.IntegrityError, `missing_key` KeyError, `bad_value` ValueError, `bad_type`
-- TypeError.
pub data Error : Type 0 where
  conflict : Conflict → Error
  integrity missing_key bad_value bad_type : Error

pub data Result {ℓ} (A : Type ℓ) : Type ℓ where
  ok : A → Result A
  err : Error → Result A

infixl 5 ◌>>=◌
abbrev pub ◌>>=◌ {ℓ κ} : {A : Type ℓ} {B : Type κ} → Result A → (A → Result B) → Result B
ok a >>= f = f a
err e >>= f = err e

pub Result-cases {ℓ} :
    {A : Type ℓ} (r : Result A) → ((a : A) × (r ≡ ok a)) ⊎ ((e : Error) × (r ≡ err e))
Result-cases (ok a) = inl (a, refl)
Result-cases (err e) = inr (e, refl)

-- What a chain of bodies that returned went through.
pub bind-ok {ℓ κ} :
    {A : Type ℓ} {B : Type κ} (r : Result A) (f : A → Result B) (b : B)
    → (r >>= f) ≡ ok b
    → (a : A) × (r ≡ ok a) × (f a ≡ ok b)
bind-ok (ok a) f b h = (a, refl, h)
bind-ok (err e) f b h = absurd (cc h)

pub ok_pair {ℓ} :
    {A : Type ℓ} {a b : A} {s t : Ledger}
    → ◌≡◌ {A = Result (A × Ledger)} (ok (a, s)) (ok (b, t))
    → (a ≡ b) × (s ≡ t)
ok_pair h = (cc, cc)

-- The body of a transaction, which sees its own writes.
abbrev pub Body {ℓ} : Type ℓ → Type ℓ
Body A = Ledger → Result (A × Ledger)

abbrev pub commit_or_rollback {ℓ} : {A : Type ℓ} → Ledger → Result (A × Ledger) → Result A × Ledger
commit_or_rollback before (ok (a, after)) = (ok a, after)
commit_or_rollback before (err e) = (err e, before)

abbrev pub transaction {ℓ} : {A : Type ℓ} → Body A → Ledger → Result A × Ledger
transaction body s = commit_or_rollback s (body s)

abbrev pub has_instance : String → Ledger → Bool
has_instance i s = has_key (λ (r : InstanceRow). r.instance_id) i s.instances

abbrev pub has_run : String → Ledger → Bool
has_run i s = has_key (λ (r : StageRunRow). r.stage_run_id) i s.runs

abbrev pub instance_row : String → Ledger → Option InstanceRow
instance_row i s = by_key (λ (r : InstanceRow). r.instance_id) i s.instances

abbrev pub run_row : String → Ledger → Option StageRunRow
run_row i s = by_key (λ (r : StageRunRow). r.stage_run_id) i s.runs

abbrev pub run_ref_ok : Option String → Ledger → Bool
run_ref_ok none s = true
run_ref_ok (some r) s = has_run r s

-- `_append_event`
unfoldable pub append_event : EventRow → Ledger → Result Ledger
append_event e s =
    if has_instance e.instance_id s && run_ref_ok e.stage_run_id s
    then ok (record s { events = s.events ++ e ∷ [] })
    else err integrity

abbrev pub same_attempt : StageRunRow → StageRunRow → Bool
same_attempt a b =
    (a.instance_id == b.instance_id) && (a.stage_id == b.stage_id) && eqb a.attempt b.attempt

-- `INSERT INTO stage_runs`, under the constraints of the table.
unfoldable pub insert_run : StageRunRow → Ledger → Result Ledger
insert_run r s =
    if not (has_run r.stage_run_id s)
      && not (exists (same_attempt r) s.runs)
      && has_instance r.instance_id s
      && run_ref_ok r.parent_stage_run_id s
    then ok (record s { runs = s.runs ++ r ∷ [] })
    else err integrity

abbrev pub update_runs : (StageRunRow → Bool) → (StageRunRow → StageRunRow) → Ledger → Ledger
update_runs p f s = record s { runs = update_where p f s.runs }

-- `UPDATE workflow_instances … WHERE instance_id = ?`
abbrev pub update_instance : String → (InstanceRow → InstanceRow) → Ledger → Ledger
update_instance i f s = record s {
  instances = update_where (λ r. r.instance_id == i) f s.instances;
}
