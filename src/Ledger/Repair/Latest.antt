-- ===== src/Ledger/Repair/Latest.antt =====
-- The latest attempt that the repairs of a human gate in storage.py look for.
use agent_workflow_kernel.Prelude.{
  String, Bool, ◌≡◌, ◌≤◌, true, false, ◌&&◌, some, List, [], ◌∷◌, inl, inr, arith, ◌==◌, Bool-cases,
  All, All-map, All-select, All-of_select, All-of_order_by, order_by-All, order_by, insert_by,
  insert_by-All, select, select-holds, limit_one, by_key_self, subst,
}
use agent_workflow_kernel.Ledger.Rows.{StageRunRow}
use agent_workflow_kernel.Ledger.State.{Ledger, run_row}
use agent_workflow_kernel.Ledger.Invariant.{IsWellFormed}
use agent_workflow_kernel.Ledger.Repair.{attempt_after, latest_attempt}

-- A run of the stage, of which no attempt has a higher number.
pub record IsLatest (i st : String) (s : Ledger) (row : StageRunRow) : Type 0 where
  pub found : run_row row.stage_run_id s ≡ some row
  pub of_stage : ((row.instance_id == i) && (row.stage_id == st)) ≡ true
  pub highest :
      All
        (λ r. ((r.instance_id == i) && (r.stage_id == st)) ≡ true → r.attempt ≤ row.attempt)
        s.runs

attempt_after-le : (a b : StageRunRow) → attempt_after a b ≡ true → b.attempt ≤ a.attempt
unfolding attempt_after
attempt_after-le a b h = ground arith

attempt_after-ge : (a b : StageRunRow) → attempt_after a b ≡ false → a.attempt ≤ b.attempt
unfolding attempt_after
attempt_after-ge a b h = ground arith

-- The first row has the highest number.
abbrev HasTop : List StageRunRow → Type 0
HasTop [] = Unit
HasTop (y ∷ ys) = All (λ z. z.attempt ≤ y.attempt) ys

insert_by-HasTop :
    (x : StageRunRow) (ys : List StageRunRow) → HasTop ys → HasTop (insert_by attempt_after x ys)
unfolding insert_by
insert_by-HasTop x [] h = tt
insert_by-HasTop x (y ∷ ys) h = elim (Bool-cases (attempt_after y x)) [
  | inl e ↦
      rw e
        (insert_by-All (λ z. z.attempt ≤ y.attempt) attempt_after x ys (attempt_after-le y x e) h)
  | inr e ↦
      let le = attempt_after-ge y x e in
      rw e (le, All-map ys (λ z (l : z.attempt ≤ y.attempt). let l' = l in omega arith) h)
]

order_by-HasTop : (xs : List StageRunRow) → HasTop (order_by attempt_after xs)
unfolding order_by
order_by-HasTop [] = tt
order_by-HasTop (x ∷ xs) = insert_by-HasTop x (order_by attempt_after xs) (order_by-HasTop xs)

limit_one-top :
    (xs : List StageRunRow) (row : StageRunRow)
    → HasTop xs
    → limit_one xs ≡ some row
    → All (λ z. z.attempt ≤ row.attempt) xs
limit_one-top [] row h e = tt
limit_one-top (y ∷ ys) row h e =
    let same : y ≡ row = cc e in
    subst (λ (r : StageRunRow). All (λ z. z.attempt ≤ r.attempt) (y ∷ ys)) same (omega arith, h)

limit_one-All {κ} :
    (P : StageRunRow → Type κ) (xs : List StageRunRow) (row : StageRunRow)
    → All P xs
    → limit_one xs ≡ some row
    → P row
limit_one-All P [] row h e = absurd (cc e)
limit_one-All P (y ∷ ys) row h e = subst P (let same : y ≡ row = cc e in same) h.0

pub latest_attempt-IsLatest :
    (i st : String) (s : Ledger) (row : StageRunRow)
    → IsWellFormed s
    → latest_attempt i st s ≡ some row
    → IsLatest i st s row
unfolding latest_attempt
latest_attempt-IsLatest i st s row w e =
    let p : StageRunRow → Bool = λ r. (r.instance_id == i) && (r.stage_id == st) in
    let attempts = select p s.runs in
    record {
      found =
          limit_one-All (λ r. run_row r.stage_run_id s ≡ some r) (order_by attempt_after attempts)
            row
            (order_by-All (λ r. run_row r.stage_run_id s ≡ some r) attempt_after attempts
              (All-select (λ r. run_row r.stage_run_id s ≡ some r) p s.runs
                (by_key_self (λ (r : StageRunRow). r.stage_run_id) s.runs w.runs_unique)))
            e;
      of_stage =
          limit_one-All (λ r. p r ≡ true) (order_by attempt_after attempts) row
            (order_by-All (λ r. p r ≡ true) attempt_after attempts (select-holds p s.runs)) e;
      highest =
          All-of_select (λ r. r.attempt ≤ row.attempt) p s.runs
            (All-of_order_by (λ r. r.attempt ≤ row.attempt) attempt_after attempts
              (limit_one-top (order_by attempt_after attempts) row (order_by-HasTop attempts) e));
    }
