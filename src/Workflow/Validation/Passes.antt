-- ===== src/Workflow/Validation/Passes.antt =====
-- The stages that `validate_workflow_mapping` of packages/kernel/agent_workflow_kernel/validation.py
-- cannot refuse.
use agent_workflow_kernel.Prelude.{
  String, ◌≡◌, ◌≢◌, refl, ap, ◌∙◌, Bool, true, false, not, List, [], ◌∷◌, arith, ◌==◌, eq_iff, All,
  All-map, Unique, has_key, exists, exists-none, is_some, map,
}
use agent_workflow_kernel.Json.{
  str, Fields, end, field, field_of, get, keys, strings, elements, is_blank,
}
use agent_workflow_kernel.Contracts.Stages.{
  StageType, agent_work, agent_gate, a2a_review_loop, human_gate, system_action, wait_schedule,
  recovery, blocked, stage_type_value, stage_type_of-stage_type_value,
}
use agent_workflow_kernel.Contracts.Workflow.{StageDef}
use agent_workflow_kernel.Workflow.Validation.{
  Violation, Checked, valid, ◌>>=◌, ensure, require_text, OutcomesByStage, has_items, has_stage,
  outcomes_of, raw_stage, lease_entry, raw_stage_fields, has_required, check_type, check_seconds,
  check_platform, validate_optional_lease, validate_outcomes, validate_stage, validate_stages,
}
use agent_workflow_kernel.Workflow.Validation.Spec.{IsNamed, IsLease, IsStage, stage_id}
use agent_workflow_kernel.Workflow.Validation.Stages.{no_policy}

pub bind_of {ℓ κ} :
    {A : Type ℓ} {B : Type κ} (r : Checked A) (f : A → Checked B) (a : A) (o : Checked B)
    → r ≡ valid a
    → f a ≡ o
    → (r >>= f) ≡ o
bind_of r f a o e h = ap (λ x. x >>= f) e ∙ h

pub require_text-named : (s : String) → IsNamed s → require_text (str s) ≡ valid s
require_text-named s h = rw h refl

pub ensured : (b : Bool) (e : Violation) → b ≡ true → ensure b e ≡ valid tt
ensured true e h = refl
ensured false e h = absurd (cc h)

pub negation_of : (b : Bool) → b ≡ false → not b ≡ true
negation_of b h = ground arith

apart :
    (o : String) (seen : List String) (n : String)
    → exists (λ x. x == n) seen ≡ false
    → (n == o) ≡ false
    → exists (λ x. x == n) (o ∷ seen) ≡ false
unfolding exists
apart o seen n h e = ground (arith, eq_iff o n, eq_iff n o)

later :
    (o : String) (os seen : List String)
    → has_key (λ x. x) o os ≡ false
    → All (λ n. exists (λ x. x == n) seen ≡ false) os
    → All (λ n. exists (λ x. x == n) (o ∷ seen) ≡ false) os
unfolding exists
later o [] seen h fresh = tt
later o (n ∷ os) seen h fresh =
    (apart o seen n fresh.0 (ground arith), later o os seen (ground arith) fresh.1)

validate_outcomes-passes :
    (os seen : List String)
    → All IsNamed os
    → Unique (λ o. o) os
    → All (λ o. exists (λ x. x == o) seen ≡ false) os
    → validate_outcomes (elements (strings os)) seen ≡ valid os
unfolding validate_outcomes
validate_outcomes-passes [] seen named unique fresh = refl
validate_outcomes-passes (o ∷ os) seen named unique fresh =
    bind_of (require_text (str o)) _ o _ (require_text-named o named.0) (
      bind_of (ensure (not (exists (λ x. x == o) seen)) Violation.outcome_duplicate) _ tt _
        (ensured _ _ (negation_of _ fresh.0))
        (bind_of (validate_outcomes (elements (strings os)) (o ∷ seen)) _ os _
          (validate_outcomes-passes os (o ∷ seen) named.1 unique.1
            (later o os seen unique.0 fresh.1))
          refl))

only_seconds :
    (ks : List String) → All (λ k. k ≡ "seconds") ks → exists (λ k. not (k == "seconds")) ks ≡ false
only_seconds ks h = exists-none (λ k. not (k == "seconds")) ks (All-map ks (λ k e. rw e refl) h)

lease_entry-passes :
    (lease : Fields)
    → IsLease lease
    → validate_optional_lease (get "lease" (lease_entry lease)) ≡ valid tt
unfolding validate_optional_lease field_of
lease_entry-passes end h = refl
lease_entry-passes (field k v rest) (known, (n, e)) =
    bind_of
      (ensure (not (exists (λ l. not (l == "seconds")) (keys (field k v rest))))
        Violation.lease_field_unknown)
      _ tt _ (ensured _ _ (negation_of _ (only_seconds _ known)))
      (ap check_seconds e
        ∙ ensured _ Violation.lease_seconds_invalid (negation_of _ (ground arith)))

exists_nowhere : (os : List String) → All (λ o. exists (λ x. x == o) [] ≡ false) os
unfolding exists
exists_nowhere [] = tt
exists_nowhere (o ∷ os) = (refl, exists_nowhere os)

has_items-some : (os : List String) → os ≢ [] → has_items (elements (strings os)) ≡ true
has_items-some [] h = absurd (h refl)
has_items-some (o ∷ os) h = refl

type-known : (t : StageType) → check_type (str (stage_type_value t)) ≡ valid tt
type-known t =
    ensured _ Violation.stage_type_unknown (ap is_some (stage_type_of-stage_type_value t))

type-named : (t : StageType) → is_blank (str (stage_type_value t)) ≡ false
unfolding stage_type_value
type-named agent_work = refl
type-named agent_gate = refl
type-named a2a_review_loop = refl
type-named human_gate = refl
type-named system_action = refl
type-named wait_schedule = refl
type-named recovery = refl
type-named blocked = refl

pub validate_stage-passes :
    (s : StageDef) (seen : OutcomesByStage)
    → IsStage s
    → has_stage s.id seen ≡ false
    → validate_stage (raw_stage s) seen ≡ valid (s.id, s.outcomes)
unfolding validate_stage has_required field_of
validate_stage-passes s seen h fresh =
    bind_of (ensure (has_required (raw_stage_fields s)) Violation.missing_stage_field) _ tt _
      (ensured _ _ (rw (h.id_named, type-named s.type, h.adapter_named) refl))
      (bind_of (require_text (str s.id)) _ s.id _ (require_text-named s.id h.id_named) (
        bind_of (ensure (not (has_stage s.id seen)) Violation.stage_duplicate) _ tt _
          (ensured _ _ (negation_of _ fresh))
          (bind_of (check_type (str (stage_type_value s.type))) _ tt _ (type-known s.type) (
            bind_of (require_text (str s.adapter)) _ s.adapter _
              (require_text-named s.adapter h.adapter_named)
              (bind_of (validate_optional_lease (get "lease" (lease_entry s.lease))) _ tt _
                (lease_entry-passes s.lease h.lease)
                (bind_of (check_platform (get "policy" (lease_entry s.lease))) _ tt _
                  (rw (no_policy s.lease) refl)
                  (bind_of
                    (ensure (has_items (elements (strings s.outcomes))) Violation.outcomes_empty) _
                    tt _ (ensured _ _ (has_items-some s.outcomes h.has_outcome))
                    (bind_of (validate_outcomes (elements (strings s.outcomes)) []) _ s.outcomes _
                      (validate_outcomes-passes s.outcomes [] h.outcomes_named h.outcomes_unique
                        (exists_nowhere s.outcomes))
                      refl))))))))

fresh_after :
    (s : StageDef) (ss : List StageDef) (seen : OutcomesByStage)
    → has_key stage_id s.id ss ≡ false
    → All (λ t. has_stage t.id seen ≡ false) ss
    → All (λ t. has_stage t.id ((s.id, s.outcomes) ∷ seen) ≡ false) ss
unfolding exists outcomes_of
fresh_after s [] seen h fresh = tt
fresh_after s (t ∷ ts) seen h fresh =
    let other : (s.id == t.id) ≡ false = ground (arith, eq_iff s.id t.id, eq_iff t.id s.id) in
    (rw other fresh.0, fresh_after s ts seen (ground arith) fresh.1)

pub validate_stages-passes :
    (ss : List StageDef) (seen : OutcomesByStage)
    → All IsStage ss
    → Unique stage_id ss
    → All (λ s. has_stage s.id seen ≡ false) ss
    → (table : OutcomesByStage) × (validate_stages (map raw_stage ss) seen ≡ valid table)
unfolding validate_stages
validate_stages-passes [] seen h unique fresh = (seen, refl)
validate_stages-passes (s ∷ ss) seen h unique fresh =
    let (table, e) =
      validate_stages-passes ss ((s.id, s.outcomes) ∷ seen) h.1 unique.1
        (fresh_after s ss seen unique.0 fresh.1) in
    (
      table,
      bind_of (validate_stage (raw_stage s) seen) _ (s.id, s.outcomes) _
          (validate_stage-passes s seen h.0 fresh.0) e,
    )
