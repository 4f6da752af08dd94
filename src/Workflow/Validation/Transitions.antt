-- ===== src/Workflow/Validation/Transitions.antt =====
-- The transitions that validation.py lets through.
use agent_workflow_kernel.Prelude.{
  String, ◌≡◌, refl, ap, sym, subst, ◌∙◌, true, false, not, Option, none, some, List, [], ◌∷◌, ◌⊎◌,
  inl, inr, arith, ◌==◌, eq_iff, eq_refl, Bool-cases, All, by_key, has_key, by_key-has_key, exists,
  is_some, map, if◌then◌else◌,
}
use agent_workflow_kernel.Json.{Json, null, str, Fields, field_of, get, is_truthy}
use agent_workflow_kernel.Contracts.Workflow.{Transition, StageDef}
use agent_workflow_kernel.Workflow.Validation.{
  valid, require_text, OutcomesByStage, has_stage, outcomes_of, declares, differ, same_key,
  check_guard, check_end, entry_if, raw_end, raw_transition, validate_transition,
  validate_transitions, transition_duplicate, from_unknown, outcome_undeclared, to_or_terminal,
  guard_unknown, target_unknown,
}
use agent_workflow_kernel.Workflow.Validation.Guards.{is_allowed_guard, is_terminal_status}
use agent_workflow_kernel.Workflow.Validation.Spec.{
  IsNamed, IsGuard, Ends, at_stage, at_status, IsTransition, IsDeterministic, same_source,
  is_blank_text, stage_id,
}
use agent_workflow_kernel.Workflow.Validation.Names.{
  bind-valid, ensure-valid, passes, of_negation, require_text-valid,
}
use agent_workflow_kernel.Workflow.Validation.Stages.{outcomes_or}

-- What `d.get(key)` gives for an optional text that stands in the mapping only if it is not empty.
abbrev pub text_or_null : Option String → Json
text_or_null none = null
text_or_null (some s) = if s == "" then null else str s

abbrev Text : Option String → Type 0
Text o =
    ((is_blank_text o ≡ true) × (text_or_null o ≡ null))
    ⊎ ((s : String) × (o ≡ some s) × IsNamed s × (text_or_null o ≡ str s))

pub Text-cases : (o : Option String) → Text o
Text-cases none = inl (refl, refl)
Text-cases (some s) = elim (Bool-cases (s == "")) [
  | inl e ↦ inl (e, rw e refl)
  | inr e ↦ inr (s, refl, e, rw e refl)
]

get-entry_if :
    (k : String) (o : Option String) (rest : Fields)
    → get k rest ≡ null
    → get k (entry_if k o rest) ≡ text_or_null o
unfolding field_of
get-entry_if k none rest h = h
get-entry_if k (some s) rest h = elim (Bool-cases (s == "")) [
  | inl e ↦ rw e h
  | inr e ↦ rw (e, eq_refl k) refl
]

get-entry_other :
    (k l : String) (o : Option String) (rest : Fields)
    → (l == k) ≡ false
    → get k (entry_if l o rest) ≡ get k rest
unfolding field_of
get-entry_other k l none rest h = refl
get-entry_other k l (some s) rest h = elim (Bool-cases (s == "")) [
  | inl e ↦ rw e refl
  | inr e ↦ rw (e, h) refl
]

pub to_of-raw : (t : Transition) → get "to" (raw_end t) ≡ text_or_null t.to_stage
unfolding field_of
to_of-raw t = get-entry_if "to" t.to_stage _ (
    get-entry_other "to" "terminal" t.terminal _ refl ∙ get-entry_other "to" "guard" t.guard _ refl)

pub terminal_of-raw : (t : Transition) → get "terminal" (raw_end t) ≡ text_or_null t.terminal
unfolding field_of
terminal_of-raw t =
    get-entry_other "terminal" "to" t.to_stage _ refl
    ∙ get-entry_if "terminal" t.terminal _ (get-entry_other "terminal" "guard" t.guard _ refl)

pub guard_of-raw : (t : Transition) → get "guard" (raw_end t) ≡ text_or_null t.guard
unfolding field_of
guard_of-raw t =
    get-entry_other "guard" "to" t.to_stage _ refl
    ∙ (get-entry_other "guard" "terminal" t.terminal _ refl ∙ get-entry_if "guard" t.guard _ refl)

-- The table of outcomes that the stages are checked into.
abbrev pub IsTable : OutcomesByStage → List StageDef → Type 0
IsTable table ss = (k : String) → outcomes_of k table ≡ outcomes_or (by_key stage_id k ss) none

is_some-outcomes_or : (o : Option StageDef) → is_some (outcomes_or o none) ≡ is_some o
is_some-outcomes_or none = refl
is_some-outcomes_or (some s) = refl

pub has_stage-has_key :
    (table : OutcomesByStage) (ss : List StageDef)
    → IsTable table ss
    → (k : String) → has_stage k table ≡ has_key stage_id k ss
has_stage-has_key table ss found k =
    ap is_some (found k)
    ∙ (is_some-outcomes_or (by_key stage_id k ss) ∙ by_key-has_key stage_id k ss)

declares-outcomes_or :
    (outcome : String) (o : Option StageDef)
    → declares outcome (outcomes_or o none) ≡ true
    → (s : StageDef) × (o ≡ some s) × (exists (λ x. x == outcome) s.outcomes ≡ true)
declares-outcomes_or outcome none h = absurd (cc h)
declares-outcomes_or outcome (some s) h = (s, refl, h)

module _ (table : OutcomesByStage) (ss : List StageDef) (found : IsTable table ss) where
  check_end-valid :
      (t : Transition) (u : Unit {0})
      → differ (is_truthy (text_or_null t.to_stage)) (is_truthy (text_or_null t.terminal)) ≡ true
      → check_end (text_or_null t.to_stage) (text_or_null t.terminal) table ≡ valid u
      → Ends ss t
  check_end-valid t u one h = elim (Text-cases t.to_stage) [
    | inl (to_blank, to_null) ↦ elim (Text-cases t.terminal) [
      | inl (terminal_blank, terminal_null) ↦ absurd (cc (rw (to_null, terminal_null) at one))
      | inr (s, is_s, named, there) ↦
          let (s', read, known) =
            bind-valid (require_text (str s)) _ u (rw (to_null, there) at h) in
          at_status s to_blank is_s named (
            subst (λ x. is_terminal_status x ≡ true) (sym (require_text-valid s s' read).1)
              (ensure-valid _ _ u known))
    ]
    | inr (s, is_s, named, there) ↦ elim (Text-cases t.terminal) [
      | inl (terminal_blank, terminal_null) ↦
          at_stage s is_s named
            (sym (has_stage-has_key table ss found s)
              ∙ ensure-valid (has_stage s table) target_unknown u (rw (there, named) at h))
            terminal_blank
      | inr (s', _, named', there') ↦ absurd (cc (rw (there, there', named, named') at one))
    ]
  ]

  check_guard-valid :
      (o : Option String) (u : Unit {0}) → check_guard (text_or_null o) ≡ valid u → IsGuard o
  check_guard-valid none u h = tt
  check_guard-valid (some g) u h = elim (Bool-cases (g == "")) [
    | inl e ↦ inl e
    | inr e ↦ inr (ensure-valid (is_allowed_guard g) guard_unknown u (rw (e, e) at h))
  ]

  check_end-got :
      (t : Transition) (to terminal : Json)
      → to ≡ text_or_null t.to_stage
      → terminal ≡ text_or_null t.terminal
      → (u : Unit {0}) → differ (is_truthy to) (is_truthy terminal) ≡ true
      → check_end to terminal table ≡ valid u
      → Ends ss t
  check_end-got t to terminal e e' u one h =
      check_end-valid t u (rw (e, e') at one) (rw (e, e') at h)

  check_guard-got :
      (o : Option String) (v : Json)
      → v ≡ text_or_null o
      → (u : Unit {0}) → check_guard v ≡ valid u
      → IsGuard o
  check_guard-got o v e u h = check_guard-valid o u (rw e at h)

  validate_transition-valid :
      (t : Transition) (seen : List (String × String)) (key : String × String)
      → validate_transition table (raw_transition t) seen ≡ valid key
      → (key ≡ (t.from_stage, t.on))
        × (exists (same_key (t.from_stage, t.on)) seen ≡ false)
        × IsTransition ss t
  unfolding validate_transition field_of
  validate_transition-valid t seen key h =
      let (from, read_from, h1) = bind-valid _ _ key h in
      let (on, read_on, h2) = bind-valid _ _ key h1 in
      let (fresh, h3) =
        passes (not (exists (same_key (from, on)) seen)) transition_duplicate _ key h2 in
      let (known_from, h4) = passes (has_stage from table) from_unknown _ key h3 in
      let (declared, h5) =
        passes (declares on (outcomes_of from table)) outcome_undeclared _ key h4 in
      let (one, h6) =
        passes (differ (is_truthy (get "to" (raw_end t))) (is_truthy (get "terminal" (raw_end t))))
          to_or_terminal _ key h5 in
      let (u, guarded, h7) = bind-valid (check_guard (get "guard" (raw_end t))) _ key h6 in
      let (u2, ended, h8) =
        bind-valid (check_end (get "to" (raw_end t)) (get "terminal" (raw_end t)) table) _ key h7 in
      let (from_named, same_from) = require_text-valid t.from_stage from read_from in
      let (on_named, same_on) = require_text-valid t.on on read_on in
      let (origin, origin_found, declares_it) =
        declares-outcomes_or on (by_key stage_id from ss)
          (subst (λ o. declares on o ≡ true) (found from) declared) in
      (
        cc (h8, same_from, same_on),
        cc (of_negation _ fresh, same_from, same_on),
        record {
          from_named = from_named;
          outcome_named = on_named;
          origin = origin;
          origin_found = ap (λ k. by_key stage_id k ss) same_from ∙ origin_found;
          declared =
              subst (λ o. exists (λ x. x == o) origin.outcomes ≡ true) (sym same_on) declares_it;
          ends = check_end-got t _ _ (to_of-raw t) (terminal_of-raw t) u2 one ended;
          guard = check_guard-got t.guard _ (guard_of-raw t) u guarded;
        },
      )

  same_source-of_key :
      (t : Transition) (ts : List Transition) (seen : List (String × String))
      → All (λ u. exists (same_key (u.from_stage, u.on)) ((t.from_stage, t.on) ∷ seen) ≡ false) ts
      → (exists (same_source t) ts ≡ false)
        × All (λ u. exists (same_key (u.from_stage, u.on)) seen ≡ false) ts
  unfolding exists
  same_source-of_key t [] seen h = (refl, tt)
  same_source-of_key t (u ∷ us) seen h =
      let (apart, older) = same_source-of_key t us seen h.1 in
      (
        ground (
          arith,
          eq_iff t.from_stage u.from_stage,
          eq_iff u.from_stage t.from_stage,
          eq_iff t.on u.on,
          eq_iff u.on t.on,
          h.0,
          apart,
        ),
        (ground (arith, h.0), older),
      )

  pub validate_transitions-valid :
      (ts : List Transition) (seen : List (String × String)) (u : Unit {0})
      → validate_transitions table (map raw_transition ts) seen ≡ valid u
      → All (IsTransition ss) ts
        × IsDeterministic ts
        × All (λ t. exists (same_key (t.from_stage, t.on)) seen ≡ false) ts
  unfolding validate_transitions
  validate_transitions-valid [] seen u h = (tt, tt, tt)
  validate_transitions-valid (t ∷ ts) seen u h =
      let (key, checked, h1) = bind-valid _ _ u h in
      let (same, fresh, is_transition) = validate_transition-valid t seen key checked in
      let (all_transitions, deterministic, all_fresh) =
        validate_transitions-valid ts ((t.from_stage, t.on) ∷ seen) u (
          subst (λ k. validate_transitions table (map raw_transition ts) (k ∷ seen) ≡ valid u) same
            h1) in
      let (apart, older) = same_source-of_key t ts seen all_fresh in
      ((is_transition, all_transitions), (apart, deterministic), (fresh, older))
