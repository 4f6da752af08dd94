-- ===== src/Workflow/Dsl/Restored.antt =====
-- The round trip of a workflow definition through its canonical snapshot, as dsl.py of
-- packages/kernel/agent_workflow_kernel makes and reads it.
use agent_workflow_kernel.Prelude.{
  String, ◌≡◌, refl, ap, subst, Option, none, some, List, [], ◌∷◌, map, All,
}
use agent_workflow_kernel.Json.{
  Json, arr, Items, nil, cons, Fields, field_of, elements, strings, opt_str, opt_integer, ℤ, pos,
  negsuc,
}
use agent_workflow_kernel.Policy.Fingerprint.{
  canonical, canonical_items, canonical_fields, insert_field,
}
use agent_workflow_kernel.Contracts.Stages.{stage_type_of-stage_type_value}
use agent_workflow_kernel.Contracts.Workflow.{PromptRef, Transition, StageDef, WorkflowDef}
use agent_workflow_kernel.Workflow.Plain.{
  items, plain_prompt_ref, plain_stage, plain_transition, plain_workflow,
}
use agent_workflow_kernel.Workflow.Validation.{
  Checked, valid, invalid, validate_workflow_mapping, validate_workflow_def,
}
use agent_workflow_kernel.Workflow.Validation.Spec.{IsNamed, NoEmptyText, IsWorkflow}
use agent_workflow_kernel.Workflow.Validation.Sound.{validate_workflow_def_sound}
use agent_workflow_kernel.Workflow.Dsl.{
  Read, read, raised, ◌>>=◌, Builtins, text, sequence_or_empty, optional_text, optional_int,
  traverse, prompt_ref_from_mapping, stage_from, stage_from_mapping, transition_from,
  canonical_transition_from_mapping, workflow_from_mapping, accepted, required, require_mapping,
  authored_workflow_from, workflow_from, workflow_from_canonical_mapping, canonical_snapshot,
  checked,
}

-- The definition with the keys of its mappings sorted.
abbrev pub canonical_stage : StageDef → StageDef
canonical_stage s = record s {
  actors = canonical_fields s.actors;
  inputs = canonical_fields s.inputs;
  outputs = canonical_fields s.outputs;
  policy = canonical_fields s.policy;
  budget = canonical_fields s.budget;
  retry = canonical_fields s.retry;
  lease = canonical_fields s.lease;
  surface = canonical_fields s.surface;
}

abbrev pub canonical_workflow : WorkflowDef → WorkflowDef
canonical_workflow w = record w {
  stages = map canonical_stage w.stages;
  inputs = canonical_fields w.inputs;
  defaults = canonical_fields w.defaults;
  actors = canonical_fields w.actors;
  artifacts = canonical_fields w.artifacts;
  policies = canonical_fields w.policies;
  compatibility = canonical_fields w.compatibility;
}

-- The texts that may be missing are missing or not empty.
abbrev pub IsRestorablePrompt : PromptRef → Type 0
IsRestorablePrompt p = NoEmptyText p.content_hash

abbrev pub IsRestorableStage : StageDef → Type 0
IsRestorableStage s = NoEmptyText s.no_prompt_reason × All IsRestorablePrompt s.prompt_refs

abbrev pub IsRestorableTransition : Transition → Type 0
IsRestorableTransition t =
    NoEmptyText t.to_stage × (NoEmptyText t.terminal × (NoEmptyText t.guard × NoEmptyText t.label))

pub record IsRestorable (w : WorkflowDef) : Type 0 where
  pub schema : IsNamed w.schema
  pub owner : NoEmptyText w.owner
  pub description : NoEmptyText w.description
  pub stages : All IsRestorableStage w.stages
  pub transitions : All IsRestorableTransition w.transitions

module _ (python : Builtins) where
  optional_text-opt_str :
      (o : Option String) → NoEmptyText o → optional_text python (canonical (opt_str o)) ≡ o
  unfolding optional_text canonical
  optional_text-opt_str none h = refl
  optional_text-opt_str (some s) h = rw h refl

  optional_int-opt_integer :
      (o : Option ℤ) → optional_int python (canonical (opt_integer o)) ≡ read o
  unfolding optional_int canonical
  optional_int-opt_integer none = refl
  optional_int-opt_integer (some (pos n)) = refl
  optional_int-opt_integer (some (negsuc n)) = refl

  texts-strings :
      (ss : List String) → map (text python) (elements (canonical_items (strings ss))) ≡ ss
  unfolding canonical_items canonical
  texts-strings [] = refl
  texts-strings (s ∷ ss) = ap (λ rest. s ∷ rest) (texts-strings ss)

  prompt_ref_from_mapping-plain :
      (p : PromptRef)
      → IsRestorablePrompt p
      → prompt_ref_from_mapping python (canonical (plain_prompt_ref p)) ≡ read p
  unfolding prompt_ref_from_mapping canonical plain_prompt_ref canonical_fields insert_field
      field_of
  prompt_ref_from_mapping-plain p h =
      ap (λ o. read (record p { content_hash = o })) (optional_text-opt_str p.content_hash h)

  traverse-plain_prompt_ref :
      (ps : List PromptRef)
      → All IsRestorablePrompt ps
      → traverse
          (prompt_ref_from_mapping python)
          (elements (canonical_items (items (map plain_prompt_ref ps))))
        ≡ read ps
  unfolding traverse canonical_items
  traverse-plain_prompt_ref [] h = refl
  traverse-plain_prompt_ref (p ∷ ps) h =
      rw (prompt_ref_from_mapping-plain p h.0) (rw (traverse-plain_prompt_ref ps h.1) refl)

  sequence_or_empty-arr :
      (xs : Items) → sequence_or_empty python (some (arr xs)) ≡ read (elements xs)
  sequence_or_empty-arr nil = refl
  sequence_or_empty-arr (cons x xs) = refl

  stage_from_mapping-plain :
      (s : StageDef)
      → IsRestorableStage s
      → stage_from_mapping python (canonical (plain_stage s)) ≡ read (canonical_stage s)
  unfolding stage_from_mapping stage_from canonical plain_stage canonical_fields insert_field
      field_of
  stage_from_mapping-plain s h =
      rw
        (
          stage_type_of-stage_type_value s.type,
          texts-strings s.outcomes,
          optional_text-opt_str s.no_prompt_reason h.0,
          optional_int-opt_integer s.timeout_seconds,
          sequence_or_empty-arr (canonical_items (items (map plain_prompt_ref s.prompt_refs))),
        )
        (rw (traverse-plain_prompt_ref s.prompt_refs h.1) refl)

  traverse-plain_stage :
      (ss : List StageDef)
      → All IsRestorableStage ss
      → traverse
          (stage_from_mapping python)
          (elements (canonical_items (items (map plain_stage ss))))
        ≡ read (map canonical_stage ss)
  unfolding traverse canonical_items
  traverse-plain_stage [] h = refl
  traverse-plain_stage (s ∷ ss) h =
      rw (stage_from_mapping-plain s h.0) (rw (traverse-plain_stage ss h.1) refl)

  transition_from_mapping-plain :
      (t : Transition)
      → IsRestorableTransition t
      → canonical_transition_from_mapping python (canonical (plain_transition t)) ≡ read t
  unfolding canonical_transition_from_mapping transition_from canonical plain_transition
      canonical_fields insert_field field_of
  transition_from_mapping-plain t h =
      rw
        (
          optional_text-opt_str t.to_stage h.0,
          optional_text-opt_str t.terminal h.1.0,
          optional_text-opt_str t.guard h.1.1.0,
          optional_text-opt_str t.label h.1.1.1,
        )
        refl

  traverse-plain_transition :
      (ts : List Transition)
      → All IsRestorableTransition ts
      → traverse
          (canonical_transition_from_mapping python)
          (elements (canonical_items (items (map plain_transition ts))))
        ≡ read ts
  unfolding traverse canonical_items
  traverse-plain_transition [] h = refl
  traverse-plain_transition (t ∷ ts) h =
      rw (transition_from_mapping-plain t h.0) (rw (traverse-plain_transition ts h.1) refl)

  -- A definition whose optional texts are missing or not empty, and whose schema is not empty, is
  -- restored from its canonical snapshot as it was, with the keys of its mappings sorted, if the
  -- validation accepts that, and otherwise refused with the violation that the validation finds.
  pub workflow_from_canonical_mapping-snapshot :
      (w : WorkflowDef)
      → IsRestorable w
      → workflow_from_canonical_mapping python (canonical_snapshot w)
        ≡ checked python (canonical_workflow w) (validate_workflow_def (canonical_workflow w))
  unfolding workflow_from_canonical_mapping workflow_from canonical_snapshot canonical
      plain_workflow canonical_fields insert_field field_of
  workflow_from_canonical_mapping-snapshot w h =
      rw
        (
          traverse-plain_stage w.stages h.stages,
          traverse-plain_transition w.transitions h.transitions,
          optional_text-opt_str w.owner h.owner,
          optional_text-opt_str w.description h.description,
          h.schema,
        )
        refl

bind-read {ℓ κ} :
    {A : Type ℓ} {B : Type κ} (r : Read A) (f : A → Read B) (b : B)
    → (r >>= f) ≡ read b
    → (a : A) × (r ≡ read a) × (f a ≡ read b)
bind-read (read a) f b h = (a, refl, h)
bind-read (raised e) f b h = absurd (cc h)

checked-IsWorkflow :
    (python : Builtins) (v w : WorkflowDef)
    → checked python v (validate_workflow_def v) ≡ read w
    → IsWorkflow w
checked-IsWorkflow python v w h = accepted_as (validate_workflow_def v) refl h
  where
    accepted_as :
        (c : Checked (Unit {0}))
        → validate_workflow_def v ≡ c
        → checked python v c ≡ read w
        → IsWorkflow w
    accepted_as (valid u) e h' =
        subst IsWorkflow (let same : v ≡ w = cc h' in same) (validate_workflow_def_sound v e)
    accepted_as (invalid x) e h' = absurd (cc h')

-- Every definition that `workflow_from_mapping` makes of what a workflow file says is a workflow: its
-- ids are unique, its transitions lead somewhere, and no outcome has two of them.
pub workflow_from_mapping-IsWorkflow :
    (python : Builtins) (m : Fields) (w : WorkflowDef)
    → workflow_from_mapping python m ≡ read w
    → IsWorkflow w
unfolding workflow_from_mapping
workflow_from_mapping-IsWorkflow python m w h =
    let (_, _, h1) = bind-read (accepted python (validate_workflow_mapping m)) _ w h in
    let (raw, _, h2) = bind-read (required (λ k. field_of k m) "workflow") _ w h1 in
    let (info, _, h3) = bind-read (require_mapping raw) _ w h2 in
    let (v, _, last) = bind-read (authored_workflow_from python (λ k. field_of k m) info) _ w h3 in
    checked-IsWorkflow python v w last

-- And so is every one that is restored, whatever it is restored from.
pub workflow_from_canonical_mapping-IsWorkflow :
    (python : Builtins) (x : Json) (w : WorkflowDef)
    → workflow_from_canonical_mapping python x ≡ read w
    → IsWorkflow w
unfolding workflow_from_canonical_mapping
workflow_from_canonical_mapping-IsWorkflow python x w h =
    let (look, _, h1) = bind-read (require_mapping x) _ w h in
    let (v, _, last) = bind-read (workflow_from python look) _ w h1 in
    checked-IsWorkflow python v w last
