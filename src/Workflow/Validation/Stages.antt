-- ===== src/Workflow/Validation/Stages.antt =====
-- The stages that validation.py lets through, and the outcomes by stage that it makes of them.
use agent_workflow_kernel.Prelude.{
  String, ◌≡◌, ◌≢◌, refl, ap, sym, subst, ◌∙◌, true, false, Option, none, some, List, [], ◌∷◌, inl,
  inr, arith, ◌==◌, eq_iff, ==→≡, Bool-cases, Option-cases, All, All-map, Unique, by_key, has_key,
  by_key-has_key, exists-none, map, if◌then◌else◌, select_first,
}
use agent_workflow_kernel.Json.{Fields, end, field, field_of, get, strings, elements}
use agent_workflow_kernel.Contracts.Workflow.{StageDef}
use agent_workflow_kernel.Workflow.Validation.{
  valid, OutcomesByStage, has_items, check_type, validate_optional_lease, check_platform,
  has_required, missing_stage_field, has_stage, outcomes_of, raw_stage, raw_stage_fields,
  lease_entry, validate_stage, validate_stages,
}
use agent_workflow_kernel.Workflow.Validation.Spec.{IsStage, stage_id}
use agent_workflow_kernel.Workflow.Validation.Names.{
  bind-valid, passes, of_negation, require_text-valid, validate_outcomes-valid, lease_entry-valid,
}

has_items-strings : (os : List String) → has_items (elements (strings os)) ≡ true → os ≢ []
has_items-strings [] h e = absurd (cc h)
has_items-strings (o ∷ os) h e = absurd (cc e)

pub no_policy : (lease : Fields) → field_of "policy" (lease_entry lease) ≡ none
unfolding field_of
no_policy end = refl
no_policy (field k v rest) = refl

pub validate_stage-valid :
    (s : StageDef) (seen : OutcomesByStage) (r : String × List String)
    → validate_stage (raw_stage s) seen ≡ valid r
    → (r ≡ (s.id, s.outcomes)) × IsStage s × (has_stage s.id seen ≡ false)
unfolding validate_stage field_of
validate_stage-valid s seen r h =
    let (filled, h1) = passes (has_required (raw_stage_fields s)) missing_stage_field _ r h in
    let (id, read_id, h2) = bind-valid _ _ r h1 in
    let (fresh, h3) = passes _ _ _ r h2 in
    let (u, typed, h4) = bind-valid (check_type (get "type" (raw_stage_fields s))) _ r h3 in
    let (adapter, read_adapter, h5) = bind-valid _ _ r h4 in
    let (u2, leased, h6) =
      bind-valid (validate_optional_lease (get "lease" (lease_entry s.lease))) _ r h5 in
    let (u3, platform, h7) =
      bind-valid (check_platform (get "policy" (lease_entry s.lease))) _ r h6 in
    let (some_outcome, h8) = passes _ _ _ r h7 in
    let (names, read_names, h9) = bind-valid _ _ r h8 in
    let (id_named, same_id) = require_text-valid s.id id read_id in
    let (adapter_named, _) = require_text-valid s.adapter adapter read_adapter in
    let (same_names, outcomes_named, outcomes_unique, _) =
      validate_outcomes-valid s.outcomes [] names read_names in
    (
      cc (h9, same_id, same_names),
      record {
        id_named = id_named;
        adapter_named = adapter_named;
        lease = lease_entry-valid s.lease u2 leased;
        has_outcome = has_items-strings s.outcomes some_outcome;
        outcomes_named = outcomes_named;
        outcomes_unique = outcomes_unique;
      },
      subst (λ k. has_stage k seen ≡ false) (sym same_id) (of_negation _ fresh),
    )

-- The outcomes of a stage, by its id: those that are checked, or those of before.
abbrev pub outcomes_or : Option StageDef → Option (List String) → Option (List String)
outcomes_or none before = before
outcomes_or (some s) before = some s.outcomes

outcomes_of-fresh :
    (k : String) (s : StageDef) (o : Option StageDef) (seen : OutcomesByStage)
    → ((s.id == k) ≡ true → o ≡ none)
    → outcomes_or o (outcomes_of k ((s.id, s.outcomes) ∷ seen))
      ≡ outcomes_or (if s.id == k then some s else o) (outcomes_of k seen)
unfolding outcomes_of
outcomes_of-fresh k s o seen h = elim (Bool-cases (s.id == k)) [
  | inl e ↦ rw (e, h e) refl
  | inr e ↦ rw e refl
]

has_stage-older :
    (k l : String) (os : List String) (seen : OutcomesByStage)
    → has_stage k ((l, os) ∷ seen) ≡ false
    → has_stage k seen ≡ false × (l == k) ≡ false
unfolding outcomes_of
has_stage-older k l os seen h = elim (Bool-cases (l == k)) [
  | inl e ↦ absurd (cc (rw e at h))
  | inr e ↦ ((rw e at h), e)
]

pub validate_stages-valid :
    (ss : List StageDef) (seen table : OutcomesByStage)
    → validate_stages (map raw_stage ss) seen ≡ valid table
    → All IsStage ss
      × Unique stage_id ss
      × All (λ s. has_stage s.id seen ≡ false) ss
      × ((k : String)
          → outcomes_of k table ≡ outcomes_or (by_key stage_id k ss) (outcomes_of k seen))
unfolding validate_stages select_first
validate_stages-valid [] seen table h =
    (tt, tt, tt, λ k. let e : seen ≡ table = cc h in ap (outcomes_of k) (sym e))
validate_stages-valid (s ∷ ss) seen table h =
    let (entry, checked, h1) = bind-valid _ _ table h in
    let (same, is_stage, fresh) = validate_stage-valid s seen entry checked in
    let h2 : validate_stages (map raw_stage ss) ((s.id, s.outcomes) ∷ seen) ≡ valid table =
      subst (λ e. validate_stages (map raw_stage ss) (e ∷ seen) ≡ valid table) same h1 in
    let (all_stages, unique, all_fresh, found) =
      validate_stages-valid ss ((s.id, s.outcomes) ∷ seen) table h2 in
    let older = All-map ss (λ t f. has_stage-older t.id s.id s.outcomes seen f) all_fresh in
    let missing : has_key stage_id s.id ss ≡ false =
      exists-none (λ t. t.id == s.id) ss
        (All-map ss (λ t p. ground (arith, eq_iff s.id t.id, eq_iff t.id s.id, p.1)) older) in
    (
      (is_stage, all_stages),
      (missing, unique),
      (fresh, All-map ss (λ t p. p.0) older),
      λ k. found k ∙ outcomes_of-fresh k s (by_key stage_id k ss) seen (absent s ss missing k),
    )
  where
    absent :
        (s : StageDef) (ss : List StageDef)
        → has_key stage_id s.id ss ≡ false
        → (k : String) → (s.id == k) ≡ true
        → by_key stage_id k ss ≡ none
    absent s ss missing k e =
        let gone : has_key stage_id k ss ≡ false =
          subst (λ l. has_key stage_id l ss ≡ false) (==→≡ s.id k e) missing in
        elim (Option-cases (by_key stage_id k ss)) [
          | inl none_there ↦ none_there
          | inr (t, there) ↦ absurd (cc (by_key-has_key stage_id k ss, there, gone))
        ]
