-- ===== src/Tests/Sessions.antt =====
-- The theorems on session budgets, at a budget that caps only the tokens.
use agent_workflow_kernel.Prelude.{
  ℕ, ◌≤◌, ◌<◌, ◌*◌, String, ◌≡◌, ◌≢◌, ◌↔◌, refl, none, some, List, [], ◌∷◌,
}
use agent_workflow_kernel.Sessions.{
  Setting, integer, null, valid, SessionBudget, lookup, picked, coerce_session_limit, from_mapping,
  has_hard_backstop, with_hard_backstop, cap_hit,
}
use agent_workflow_kernel.Json.{unreadable}
use agent_workflow_kernel.Sessions.Laws.{
  IsUnset, cap_hit-none_iff, backstop_stops, from_mapping_fails_closed,
}

abbrev tokens_only : SessionBudget
tokens_only = record { max_turns = none; max_total_tokens = some 1000; max_wall_seconds = none }

abbrev backed : SessionBudget
backed = record tokens_only { max_turns = some 8 }

abbrev written : List (String × Setting)
written = ("max_tokens", integer 1000) ∷ []

backs : with_hard_backstop 8 tokens_only ≡ valid backed
unfolding with_hard_backstop has_hard_backstop
backs = refl

backstop_stops_example :
    (some 1000 ≡ tokens_only.max_total_tokens)
    × (none ≡ tokens_only.max_wall_seconds)
    × ((n : ℕ) × ((turns tokens elapsed : ℕ)
          → n ≤ turns
          → n ≤ elapsed
          → cap_hit backed turns tokens elapsed ≢ none))
backstop_stops_example = backstop_stops 8 tokens_only backed backs

cap_hit-none_iff_example : (cap_hit backed 3 500 9000000 ≡ none) ↔ (
    ((m : ℕ) → backed.max_turns ≡ some m → 3 < m)
    × ((m : ℕ) → backed.max_total_tokens ≡ some m → 500 < m)
    × ((m : ℕ) → backed.max_wall_seconds ≡ some m → 9000000 < m * 1000000))
cap_hit-none_iff_example = cap_hit-none_iff backed 3 500 9000000

reads : from_mapping (λ _. unreadable) (some written) ≡ valid tokens_only
unfolding from_mapping picked lookup coerce_session_limit
reads = refl

from_mapping_fails_closed_example :
    ((tokens_only.max_turns ≡ none) ↔ IsUnset "max_turns" "max_turn" "turn_cap" written)
    × ((tokens_only.max_total_tokens ≡ none)
        ↔ IsUnset "max_total_tokens" "max_tokens" "token_cap" written)
    × ((tokens_only.max_wall_seconds ≡ none)
        ↔ IsUnset "max_wall_seconds" "max_seconds" "time_cap_seconds" written)
from_mapping_fails_closed_example =
    from_mapping_fails_closed (λ _. unreadable) written tokens_only reads

-- A None under an earlier name hides the cap under a later one.
hidden_cap :
    from_mapping (λ _. unreadable) (some (("max_turns", null) ∷ ("turn_cap", integer 5) ∷ []))
    ≡ valid (record { max_turns = none; max_total_tokens = none; max_wall_seconds = none })
unfolding from_mapping picked lookup coerce_session_limit
hidden_cap = refl
