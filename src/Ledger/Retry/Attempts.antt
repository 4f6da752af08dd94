-- ===== src/Ledger/Retry/Attempts.antt =====
-- The numbers that `next_stage_attempt` of storage.py gives to attempts.
use agent_workflow_kernel.Prelude.{
  ◌≤◌, ◌<◌, String, ◌≡◌, Bool, true, false, List, [], ◌∷◌, ◌&&◌, inl, inr, arith, ◌==◌, eq_iff,
  Bool-cases, All, All-map, exists, exists-none,
}
use agent_workflow_kernel.Ledger.Rows.{StageRunRow}
use agent_workflow_kernel.Ledger.State.{Ledger, same_attempt}
use agent_workflow_kernel.Ledger.Retry.{max_attempt, next_stage_attempt}

-- A run is an attempt of the stage of the instance.
abbrev pub of_stage : String → String → StageRunRow → Bool
of_stage i st r = (r.instance_id == i) && (r.stage_id == st)

max_attempt-bound :
    (i st : String) (rs : List StageRunRow)
    → All (λ r. of_stage i st r ≡ true → r.attempt ≤ max_attempt i st rs) rs
unfolding max_attempt
max_attempt-bound i st [] = tt
max_attempt-bound i st (r ∷ rs) = (
  λ h. rw h (omega arith),
  All-map rs (λ x below h. weaken x (below h)) (max_attempt-bound i st rs),
)
  where
    weaken :
        (x : StageRunRow) → x.attempt ≤ max_attempt i st rs → x.attempt ≤ max_attempt i st (r ∷ rs)
    weaken x le = elim (Bool-cases (of_stage i st r)) [
      | inl e ↦ rw e (omega arith)
      | inr e ↦ rw e le
    ]

-- The next attempt number of a stage of an instance is larger than the number of each of its attempts.
pub next_stage_attempt-lt :
    (i st : String) (s : Ledger)
    → All (λ r. of_stage i st r ≡ true → r.attempt < next_stage_attempt i st s) s.runs
unfolding next_stage_attempt
next_stage_attempt-lt i st s =
    All-map s.runs (λ x below h. let le = below h in omega arith) (max_attempt-bound i st s.runs)

-- So a row that carries it meets no row of the same stage and number.
pub next_stage_attempt-fresh :
    (r : StageRunRow) (s : Ledger)
    → r.attempt ≡ next_stage_attempt r.instance_id r.stage_id s
    → exists (same_attempt r) s.runs ≡ false
next_stage_attempt-fresh r s numbered =
    exists-none (same_attempt r) s.runs (
      All-map s.runs (λ x above. differs x above)
        (next_stage_attempt-lt r.instance_id r.stage_id s))
  where
    differs :
        (x : StageRunRow)
        → (of_stage r.instance_id r.stage_id x ≡ true
            → x.attempt < next_stage_attempt r.instance_id r.stage_id s)
        → same_attempt r x ≡ false
    differs x above = elim (Bool-cases (of_stage r.instance_id r.stage_id x)) [
      | inl e ↦ let lt = above e in ground arith
      | inr e ↦ ground (
        arith,
        eq_iff r.instance_id x.instance_id,
        eq_iff x.instance_id r.instance_id,
        eq_iff r.stage_id x.stage_id,
        eq_iff x.stage_id r.stage_id,
      )
    ]
