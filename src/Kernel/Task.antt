-- ===== src/Kernel/Task.antt =====
-- What the methods of `WorkflowKernel` do to the ledger: transactions one after another, of which each
-- is committed by itself, until one of them raises.
use agent_workflow_kernel.Ledger.State.{Ledger, Result, ok, err}

abbrev pub Task {ℓ} : Type ℓ → Type ℓ
Task A = Ledger → Result A × Ledger

abbrev pub proceed {ℓ κ} :
    {A : Type ℓ} {B : Type κ} → Result A × Ledger → (A → Task B) → Result B × Ledger
proceed (ok a, s) f = f a s
proceed (err e, s) f = (err e, s)

infixl 5 ◌>>=◌
unfoldable pub ◌>>=◌ {ℓ κ} : {A : Type ℓ} {B : Type κ} → Task A → (A → Task B) → Task B
(t >>= f) s = proceed (t s) f

unfoldable pub finish {ℓ} : {A : Type ℓ} → A → Task A
finish a s = (ok a, s)

-- What only reads.
unfoldable pub given {ℓ} : {A : Type ℓ} → (Ledger → Result A) → Task A
given f s = (f s, s)
