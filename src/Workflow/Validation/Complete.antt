-- ===== src/Workflow/Validation/Complete.antt =====
-- The transitions and the workflows that validation.py of packages/kernel/agent_workflow_kernel cannot
-- refuse, and with Sound all that `validate_workflow_def` says of a definition.
use agent_workflow_kernel.Prelude.{
  String, ◌≡◌, ◌↔◌, refl, ap, sym, subst, ◌∙◌, true, false, not, ◌&&◌, Option, none, some, List, [],
  ◌∷◌, inl, inr, arith, ◌==◌, eq_iff, Bool-cases, All, exists, is_some, map,
}
use agent_workflow_kernel.Json.{null, str, get, field_of, elements, is_truthy}
use agent_workflow_kernel.Contracts.Workflow.{Transition, StageDef, WorkflowDef}
use agent_workflow_kernel.Workflow.Plain.{items, elements-items}
use agent_workflow_kernel.Workflow.Validation.{
  Violation, valid, ensure, require_text, OutcomesByStage, has_stage, outcomes_of, declares, differ,
  same_key, check_guard, check_end, raw_stage, raw_end, raw_transition, validate_stages,
  validate_transition, validate_transitions, validate_workflow_def, validate_workflow_mapping,
}
use agent_workflow_kernel.Workflow.Validation.Guards.{is_terminal_status}
use agent_workflow_kernel.Workflow.Validation.Spec.{
  IsGuard, Ends, at_stage, at_status, IsTransition, IsDeterministic, same_source, is_blank_text,
  IsWorkflow,
}
use agent_workflow_kernel.Workflow.Validation.Stages.{outcomes_or, validate_stages-valid}
use agent_workflow_kernel.Workflow.Validation.Transitions.{
  text_or_null, IsTable, has_stage-has_key, to_of-raw, terminal_of-raw, guard_of-raw,
}
use agent_workflow_kernel.Workflow.Validation.Sound.{validate_workflow_def_sound}
use agent_workflow_kernel.Workflow.Validation.Passes.{
  bind_of, require_text-named, ensured, negation_of, validate_stages-passes,
}

blank-null : (o : Option String) → is_blank_text o ≡ true → text_or_null o ≡ null
blank-null none h = refl
blank-null (some s) h = rw h refl

check_guard-passes : (o : Option String) → IsGuard o → check_guard (text_or_null o) ≡ valid tt
check_guard-passes none h = refl
check_guard-passes (some g) h = elim (Bool-cases (g == "")) [
  | inl e ↦ rw e refl
  | inr e ↦ elim h [ inl e' ↦ absurd (cc (e, e')) | inr known ↦ rw (e, e, known) refl ]
]

module _ (table : OutcomesByStage) (ss : List StageDef) (found : IsTable table ss) where
  one_end :
      (t : Transition)
      → Ends ss t
      → differ (is_truthy (text_or_null t.to_stage)) (is_truthy (text_or_null t.terminal)) ≡ true
  one_end t (at_stage to e named _ blank) = rw (e, blank-null t.terminal blank, named, named) refl
  one_end t (at_status status blank e named _) =
      rw (e, blank-null t.to_stage blank, named, named) refl

  check_end-passes :
      (t : Transition)
      → Ends ss t
      → check_end (text_or_null t.to_stage) (text_or_null t.terminal) table ≡ valid tt
  check_end-passes t (at_stage to e named there blank) =
      rw (e, named, named)
        (ensured (has_stage to table) Violation.target_unknown
          (has_stage-has_key table ss found to ∙ there))
  check_end-passes t (at_status status blank e named known) =
      rw (e, blank-null t.to_stage blank, named, named)
        (ensured (is_terminal_status status) Violation.terminal_unknown known)

  validate_transition-passes :
      (t : Transition) (seen : List (String × String))
      → IsTransition ss t
      → exists (same_key (t.from_stage, t.on)) seen ≡ false
      → validate_transition table (raw_transition t) seen ≡ valid (t.from_stage, t.on)
  unfolding validate_transition field_of
  validate_transition-passes t seen h fresh =
      let origin_in : outcomes_of t.from_stage table ≡ some h.origin.outcomes =
        found t.from_stage ∙ ap (λ o. outcomes_or o none) h.origin_found in
      bind_of (require_text (str t.from_stage)) _ t.from_stage _
        (require_text-named t.from_stage h.from_named)
        (bind_of (require_text (str t.on)) _ t.on _ (require_text-named t.on h.outcome_named) (
          bind_of
            (ensure (not (exists (same_key (t.from_stage, t.on)) seen))
              Violation.transition_duplicate)
            _ tt _ (ensured _ _ (negation_of _ fresh))
            (bind_of (ensure (has_stage t.from_stage table) Violation.from_unknown) _ tt _
              (ensured _ _ (ap is_some origin_in))
              (bind_of
                (ensure (declares t.on (outcomes_of t.from_stage table))
                  Violation.outcome_undeclared)
                _ tt _ (ensured _ _ (ap (declares t.on) origin_in ∙ h.declared))
                (bind_of
                  (ensure
                    (differ (is_truthy (get "to" (raw_end t)))
                      (is_truthy (get "terminal" (raw_end t))))
                    Violation.to_or_terminal)
                  _ tt _ (ensured _ _ (rw (to_of-raw t, terminal_of-raw t) (one_end t h.ends)))
                  (bind_of (check_guard (get "guard" (raw_end t))) _ tt _
                    (rw (guard_of-raw t) (check_guard-passes t.guard h.guard))
                    (bind_of (check_end (get "to" (raw_end t)) (get "terminal" (raw_end t)) table) _
                      tt _ (rw (to_of-raw t, terminal_of-raw t) (check_end-passes t h.ends))
                      refl)))))))

  fresh_after :
      (t : Transition) (ts : List Transition) (seen : List (String × String))
      → exists (same_source t) ts ≡ false
      → All (λ u. exists (same_key (u.from_stage, u.on)) seen ≡ false) ts
      → All (λ u. exists (same_key (u.from_stage, u.on)) ((t.from_stage, t.on) ∷ seen) ≡ false) ts
  unfolding exists
  fresh_after t [] seen h fresh = tt
  fresh_after t (u ∷ us) seen h fresh = (
    ground (
      arith,
      eq_iff t.from_stage u.from_stage,
      eq_iff u.from_stage t.from_stage,
      eq_iff t.on u.on,
      eq_iff u.on t.on,
      fresh.0,
    ),
    fresh_after t us seen (ground arith) fresh.1,
  )

  validate_transitions-passes :
      (ts : List Transition) (seen : List (String × String))
      → All (IsTransition ss) ts
      → IsDeterministic ts
      → All (λ t. exists (same_key (t.from_stage, t.on)) seen ≡ false) ts
      → validate_transitions table (map raw_transition ts) seen ≡ valid tt
  unfolding validate_transitions
  validate_transitions-passes [] seen h one fresh = refl
  validate_transitions-passes (t ∷ ts) seen h one fresh =
      bind_of (validate_transition table (raw_transition t) seen) _ (t.from_stage, t.on) _
        (validate_transition-passes t seen h.0 fresh.0)
        (validate_transitions-passes ts ((t.from_stage, t.on) ∷ seen) h.1 one.1
          (fresh_after t ts seen one.0 fresh.1))

nowhere_stages : (ss : List StageDef) → All (λ s. has_stage s.id [] ≡ false) ss
unfolding outcomes_of
nowhere_stages [] = tt
nowhere_stages (s ∷ ss) = (refl, nowhere_stages ss)

nowhere_transitions :
    (ts : List Transition) → All (λ t. exists (same_key (t.from_stage, t.on)) [] ≡ false) ts
unfolding exists
nowhere_transitions [] = tt
nowhere_transitions (t ∷ ts) = (refl, nowhere_transitions ts)

validate_workflow_def_complete :
    (w : WorkflowDef) → IsWorkflow w → validate_workflow_def w ≡ valid tt
unfolding validate_workflow_def validate_workflow_mapping field_of outcomes_of
validate_workflow_def_complete w h =
    let (table, staged) =
      validate_stages-passes w.stages [] h.stages h.stages_unique (nowhere_stages w.stages) in
    let (_, _, _, found) = validate_stages-valid w.stages [] table staged in
    bind_of
      (ensure (is_truthy (str w.id) && is_truthy (str w.version) && is_truthy (str w.name))
        Violation.missing_workflow_field)
      _ tt _ (ensured _ _ (rw (h.id_named, h.version_named, h.name_named) refl))
      (bind_of (validate_stages (elements (items (map raw_stage w.stages))) []) _ table _
        (subst (λ xs. validate_stages xs [] ≡ valid table)
          (sym (elements-items (map raw_stage w.stages))) staged)
        (subst (λ xs. validate_transitions table xs [] ≡ valid tt)
          (sym (elements-items (map raw_transition w.transitions)))
          (validate_transitions-passes table w.stages found w.transitions [] h.transitions
            h.deterministic (nowhere_transitions w.transitions))))

-- A workflow definition is let through exactly if its id, version and name are not empty, every
-- stage is named, has an adapter, a lease that is empty or a positive number of seconds, and outcomes
-- that are named and differ, no two stages share an id, every transition leaves a stage by an outcome
-- that the stage declares, ends either at one of the stages or with a status of workflows, and has no
-- guard or a known one, and no two transitions leave a stage by the same outcome.
pub validate_workflow_def-IsWorkflow :
    (w : WorkflowDef) → (validate_workflow_def w ≡ valid tt) ↔ IsWorkflow w
validate_workflow_def-IsWorkflow w =
    (validate_workflow_def_sound w, validate_workflow_def_complete w)
