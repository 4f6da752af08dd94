-- ===== src/Workflow/Plain.antt =====
-- What `to_plain_data` of packages/kernel/agent_workflow_kernel/contracts.py makes of a workflow
-- definition: a mapping with the fields of each data class by their names.
use agent_workflow_kernel.Prelude.{String, ◌≡◌, refl, ap, List, [], ◌∷◌, map}
use agent_workflow_kernel.Json.{
  Json, bool, str, arr, obj, Items, nil, cons, opt_str, opt_integer, strings, object, elements,
}
use agent_workflow_kernel.Contracts.Stages.{stage_type_value}
use agent_workflow_kernel.Contracts.Workflow.{PromptRef, Transition, StageDef, WorkflowDef}

abbrev pub items : List Json → Items
items [] = nil
items (x ∷ xs) = cons x (items xs)

pub elements-items : (xs : List Json) → elements (items xs) ≡ xs
elements-items [] = refl
elements-items (x ∷ xs) = ap (λ ys. x ∷ ys) (elements-items xs)

unfoldable pub plain_prompt_ref : PromptRef → Json
plain_prompt_ref p = object (
    ("id", str p.id)
    ∷ ("kind", str p.kind)
    ∷ ("version", str p.version)
    ∷ ("registry", str p.registry)
    ∷ ("render_mode", str p.render_mode)
    ∷ ("required", bool p.required)
    ∷ ("content_hash", opt_str p.content_hash)
    ∷ [])

unfoldable pub plain_stage : StageDef → Json
plain_stage s = object (
    ("id", str s.id)
    ∷ ("type", str (stage_type_value s.type))
    ∷ ("adapter", str s.adapter)
    ∷ ("outcomes", arr (strings s.outcomes))
    ∷ ("actors", obj s.actors)
    ∷ ("inputs", obj s.inputs)
    ∷ ("outputs", obj s.outputs)
    ∷ ("prompt_refs", arr (items (map plain_prompt_ref s.prompt_refs)))
    ∷ ("no_prompt_reason", opt_str s.no_prompt_reason)
    ∷ ("policy", obj s.policy)
    ∷ ("budget", obj s.budget)
    ∷ ("retry", obj s.retry)
    ∷ ("lease", obj s.lease)
    ∷ ("timeout_seconds", opt_integer s.timeout_seconds)
    ∷ ("surface", obj s.surface)
    ∷ [])

unfoldable pub plain_transition : Transition → Json
plain_transition t = object (
    ("from_stage", str t.from_stage)
    ∷ ("on", str t.on)
    ∷ ("to_stage", opt_str t.to_stage)
    ∷ ("terminal", opt_str t.terminal)
    ∷ ("guard", opt_str t.guard)
    ∷ ("label", opt_str t.label)
    ∷ [])

unfoldable pub plain_workflow : WorkflowDef → List (String × Json)
plain_workflow w =
    ("id", str w.id)
    ∷ ("version", str w.version)
    ∷ ("name", str w.name)
    ∷ ("stages", arr (items (map plain_stage w.stages)))
    ∷ ("transitions", arr (items (map plain_transition w.transitions)))
    ∷ ("schema", str w.schema)
    ∷ ("owner", opt_str w.owner)
    ∷ ("description", opt_str w.description)
    ∷ ("inputs", obj w.inputs)
    ∷ ("defaults", obj w.defaults)
    ∷ ("actors", obj w.actors)
    ∷ ("artifacts", obj w.artifacts)
    ∷ ("policies", obj w.policies)
    ∷ ("compatibility", obj w.compatibility)
    ∷ []
