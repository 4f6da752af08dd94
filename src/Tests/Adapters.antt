-- ===== src/Tests/Adapters.antt =====
-- The registration of an adapter, whose value is a number.
use agent_workflow_kernel.Prelude.{ℕ, ◌≡◌, refl, false, [], ◌∷◌, select_first}
use agent_workflow_kernel.Json.{end}
use agent_workflow_kernel.Contracts.Stages.{agent_work, runtime, surface}
use agent_workflow_kernel.Kernel.Lease.{after_prefix}
use agent_workflow_kernel.Kernel.Adapters.{
  AdapterRegistration, found, refused, mismatch, resolve, adapter_family_for_stage,
  registration_from,
}

abbrev coder : AdapterRegistration ℕ
coder =
    registration_from
      (record { adapter_id = "codex_cli"; family = runtime; operations = []; metadata = end }) 1 []
      false

abbrev card : AdapterRegistration ℕ
card =
    registration_from
      (record { adapter_id = "card"; family = surface; operations = []; metadata = end }) 2 [] false

-- The work of an agent needs a runtime adapter.
card_mismatches :
    (resolve "card" agent_work (coder ∷ card ∷ []) ≡ refused mismatch)
    × (resolve "codex_cli" agent_work (coder ∷ card ∷ []) ≡ found coder)
unfolding resolve adapter_family_for_stage after_prefix select_first
card_mismatches = (refl, refl)
