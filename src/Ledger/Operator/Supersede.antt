-- ===== src/Ledger/Operator/Supersede.antt =====
-- The bulk UPDATE of the operator's operations: which runs it reaches, and what it leaves of them.
use agent_workflow_kernel.Prelude.{
  ℕ, String, ◌≡◌, refl, ap, ◌∙◌, Bool, false, Option, none, some, List, [], ◌∷◌, ◌&&◌, inl, inr,
  arith, ◌==◌, eq_iff, Bool-cases, by_key-update, by_key-guarded, by_key-key, kept_if, exists,
  exists-order_by, is_some, map, select, select_first, order_by, touched,
}
use agent_workflow_kernel.Ledger.Rows.{StageRunRow}
use agent_workflow_kernel.Ledger.State.{Ledger, run_row, update_runs}
use agent_workflow_kernel.Ledger.Invariant.{IsWellFormed, SameIdentity, update_runs-IsWellFormed}
use agent_workflow_kernel.Ledger.Claim.{created_before}
use agent_workflow_kernel.Ledger.Operator.{
  unfinished_of, supersede_change, supersede_all, unfinished_ids,
}

abbrev run_key : StageRunRow → String
run_key r = r.stage_run_id

abbrev listed : List String → StageRunRow → Bool
listed ids r = exists (λ x. x == r.stage_run_id) ids

supersede-SameIdentity : (now : ℕ) (r : StageRunRow) → SameIdentity r (supersede_change now r)
unfolding supersede_change
supersede-SameIdentity now r = record {
  stage_run_id = refl;
  instance_id = refl;
  stage_id = refl;
  attempt = refl;
}

pub instances-supersede_all :
    (now : ℕ) (ids : List String) (s : Ledger) → (supersede_all now ids s).instances ≡ s.instances
unfolding supersede_all
instances-supersede_all now [] s = refl
instances-supersede_all now (id ∷ ids) s =
    instances-supersede_all now ids
      (update_runs (λ r. r.stage_run_id == id) (supersede_change now) s)

-- Only the runs change.
pub others-supersede_all :
    (now : ℕ) (ids : List String) (s : Ledger)
    → supersede_all now ids s ≡ record s { runs = (supersede_all now ids s).runs }
unfolding supersede_all
others-supersede_all now [] s = refl
others-supersede_all now (id ∷ ids) s =
    others-supersede_all now ids (update_runs (λ r. r.stage_run_id == id) (supersede_change now) s)

pub supersede_all-IsWellFormed :
    (now : ℕ) (ids : List String) (s : Ledger)
    → IsWellFormed s
    → IsWellFormed (supersede_all now ids s)
unfolding supersede_all
supersede_all-IsWellFormed now [] s w = w
supersede_all-IsWellFormed now (id ∷ ids) s w =
    supersede_all-IsWellFormed now ids
      (update_runs (λ r. r.stage_run_id == id) (supersede_change now) s)
      (update_runs-IsWellFormed (λ r. r.stage_run_id == id) (supersede_change now)
        (supersede-SameIdentity now) w)

eq_comm : (a b : String) → (a == b) ≡ (b == a)
eq_comm a b = ground (arith, eq_iff a b, eq_iff b a)

is_some-kept : (p : StageRunRow → Bool) (r : StageRunRow) → is_some (kept_if p (some r)) ≡ p r
is_some-kept p r = ground arith

touched_none :
    (f : StageRunRow → StageRunRow) (o : Option StageRunRow) → o ≡ touched (λ _. false) f o
touched_none f none = refl
touched_none f (some r) = refl

touched-cong :
    (p q : StageRunRow → Bool) (f : StageRunRow → StageRunRow) (o : Option StageRunRow)
    → ((r : StageRunRow) → o ≡ some r → p r ≡ q r)
    → touched p f o ≡ touched q f o
touched-cong p q f none same = refl
touched-cong p q f (some r) same = rw (same r refl) refl

touched_twice :
    (now : ℕ) (id : String) (ids : List String) (o : Option StageRunRow)
    → touched
        (listed ids)
        (supersede_change now)
        (touched (λ r. r.stage_run_id == id) (supersede_change now) o)
      ≡ touched (listed (id ∷ ids)) (supersede_change now) o
unfolding exists supersede_change
touched_twice now id ids none = refl
touched_twice now id ids (some r) = elim (Bool-cases (r.stage_run_id == id)) [
  | inl e ↦ elim (Bool-cases (listed ids r)) [
    | inl here ↦ rw (eq_comm id r.stage_run_id, e, here) refl
    | inr there ↦ rw (eq_comm id r.stage_run_id, e, there) refl
  ]
  | inr e ↦ rw (eq_comm id r.stage_run_id, e) refl
]

run_row-supersede_all :
    (now : ℕ) (ids : List String) (s : Ledger) (k : String)
    → run_row k (supersede_all now ids s)
      ≡ touched (listed ids) (supersede_change now) (run_row k s)
unfolding supersede_all exists
run_row-supersede_all now [] s k = touched_none (supersede_change now) (run_row k s)
run_row-supersede_all now (id ∷ ids) s k =
    run_row-supersede_all now ids (update_runs (λ r. r.stage_run_id == id) (supersede_change now) s)
      k
    ∙ ap (touched (listed ids) (supersede_change now)) (
        by_key-update run_key (λ r. r.stage_run_id == id) (supersede_change now)
          (λ r. (supersede-SameIdentity now r).stage_run_id) k s.runs)
    ∙ touched_twice now id ids (run_row k s)

exists-of_map :
    (p : String → Bool) (xs : List StageRunRow)
    → exists p (map run_key xs) ≡ exists (λ x. p x.stage_run_id) xs
unfolding exists
exists-of_map p [] = refl
exists-of_map p (x ∷ xs) = rw (exists-of_map p xs) refl

exists-of_select :
    (q p : StageRunRow → Bool) (xs : List StageRunRow)
    → exists q (select p xs) ≡ is_some (select_first (λ x. q x && p x) xs)
unfolding exists select select_first
exists-of_select q p [] = refl
exists-of_select q p (x ∷ xs) = ground (arith, exists-of_select q p xs)

-- The ids that are read beforehand are those of the unfinished runs.
listed-unfinished_ids :
    (i : String) (s : Ledger) (k : String) (r : StageRunRow)
    → IsWellFormed s
    → run_row k s ≡ some r
    → listed (unfinished_ids i s) r ≡ unfinished_of i r
unfolding unfinished_ids
listed-unfinished_ids i s k r w found =
    exists-of_map (λ x. x == r.stage_run_id)
      (order_by created_before (select (unfinished_of i) s.runs))
    ∙ exists-order_by (λ (x : StageRunRow). x.stage_run_id == r.stage_run_id) created_before
        (select (unfinished_of i) s.runs)
    ∙ exists-of_select (λ x. x.stage_run_id == r.stage_run_id) (unfinished_of i) s.runs
    ∙ ap is_some (by_key-guarded run_key r.stage_run_id (unfinished_of i) s.runs w.runs_unique)
    ∙ ap (λ j. is_some (kept_if (unfinished_of i) (run_row j s)))
        (by_key-key run_key k s.runs r found)
    ∙ ap (λ o. is_some (kept_if (unfinished_of i) o)) found
    ∙ is_some-kept (unfinished_of i) r

-- The runs afterwards: those of the instance that were unfinished are superseded, and hold no
-- lease, and every other run is as it was.
pub run_row-supersede_unfinished :
    (now : ℕ) (i : String) (s : Ledger) (k : String)
    → IsWellFormed s
    → run_row k (supersede_all now (unfinished_ids i s) s)
      ≡ touched (unfinished_of i) (supersede_change now) (run_row k s)
run_row-supersede_unfinished now i s k w =
    run_row-supersede_all now (unfinished_ids i s) s k
    ∙ touched-cong (listed (unfinished_ids i s)) (unfinished_of i) (supersede_change now)
        (run_row k s) (λ r found. listed-unfinished_ids i s k r w found)
