-- ===== src/Kernel/Lease.antt =====
-- packages/kernel/agent_workflow_kernel/lease.py: the lease under which a stage run is claimed.
pub mod Precedence
use Prim.Native.Char.{code}
use Prim.Native.String.{◌++◌ as append, [] as empty_text, ◌∷◌ as next_char}
use agent_workflow_kernel.Prelude.{
  ℕ, zero, suc, String, Option, none, some, eqb, ◌==◌, coalesce, if◌then◌else◌,
}
use agent_workflow_kernel.Json.{
  Json, bool, num, str, obj, Fields, end, field_of, get, is_blank, ℤ, integer, IntReading, natural,
}
use agent_workflow_kernel.Contracts.{ResolvedLeasePolicy, StageRun}
use agent_workflow_kernel.Contracts.Workflow.{StageDef, WorkflowDef}
use agent_workflow_kernel.Ledger.State.{Result, ok, err, bad_value, ◌>>=◌}
use agent_workflow_kernel.Kernel.{Python}
use agent_workflow_kernel.Kernel.Advance.{actor_ref}

abbrev pub positive : ℕ → Result ℕ
positive zero = err bad_value
positive (suc n) = ok (suc n)

abbrev pub positive_reading : IntReading → Result ℕ
positive_reading (natural n) = positive n
positive_reading _ = err bad_value

-- `_positive_int`; `int` of a Boolean is 0 or 1.
unfoldable pub to_positive_int : Python → Json → Result ℕ
to_positive_int python (num n) = positive n
to_positive_int python (bool b) = if b then ok 1 else err bad_value
to_positive_int python (str s) = positive_reading (python.int_of s)
to_positive_int python _ = err bad_value

abbrev pub given_seconds : Python → Json → Result (Option ℕ)
given_seconds python v = do n ← to_positive_int python v; ok (some n)

-- `_lease_seconds_from_mapping`
unfoldable pub lease_seconds_from_mapping : Python → Option Json → Result (Option ℕ)
lease_seconds_from_mapping python (some (obj lease)) =
    let seconds = given_seconds python (get "seconds" lease) in
    if is_blank (get "seconds" lease) then ok none else seconds
lease_seconds_from_mapping python _ = ok none

-- What follows the prefix in a text that starts with it.
unfoldable pub after_prefix : String → String → Option String
after_prefix empty_text s = some s
after_prefix (next_char c p) empty_text = none
after_prefix (next_char c p) (next_char d s) =
    let rest = after_prefix p s in if eqb (code c) (code d) then rest else none

abbrev pub or_text : Option String → String → String
or_text none t = t
or_text (some s) t = s

-- `_actor_name` of a reference that is there and not empty.
abbrev pub name_in : String → String
name_in ref = or_text (after_prefix "actors." ref) ref

abbrev pub not_empty : Option String → Option String
not_empty none = none
not_empty (some s) = if s == "" then none else some s

-- `_actor_name`
unfoldable pub actor_name : Option String → Option String
actor_name ref = elim (not_empty ref) [ none ↦ none | some r ↦ some (name_in r) ]

abbrev pub mapping_of : Option Json → Option Fields
mapping_of (some (obj fs)) = some fs
mapping_of _ = none

-- The mapping under a name that is not empty.
abbrev pub mapping_named : Option String → Fields → Option Fields
mapping_named name actors = elim (not_empty name) [
  | none ↦ none
  | some n ↦ mapping_of (field_of n actors)
]

abbrev pub or_end : Option Fields → Fields
or_end none = end
or_end (some fs) = fs

-- `_actor_config_for_stage`, but for the reference.
unfoldable pub actor_config_for_stage : Python → WorkflowDef → StageDef → Fields
actor_config_for_stage python w s =
    let ref = actor_ref python s in
    or_end (coalesce (mapping_named (actor_name ref) w.actors) (mapping_named ref w.actors))

abbrev pub lease_policy : Python → StageDef → ℕ → String → String → ResolvedLeasePolicy
lease_policy python s n source ref = record {
  lease_seconds = n;
  source = source;
  source_ref = ref;
  actor_ref = actor_ref python s;
}

-- `_actor_name(actor_ref) or actor_ref or "unknown"`
abbrev pub name_of_actor : Option String → String
name_of_actor ref = or_text (coalesce (not_empty (actor_name ref)) (not_empty ref)) "unknown"

abbrev pub runtime_policy : Python → StageDef → ℤ → Result ResolvedLeasePolicy
runtime_policy python s runtime = do
  n ← to_positive_int python (integer runtime)
  ok (lease_policy python s n "runtime_default" "KernelRuntimeConfig.default_lease_seconds")

abbrev pub default_policy : Python → StageDef → ℤ → Option ℕ → Result ResolvedLeasePolicy
default_policy python s runtime (some n) =
    ok (lease_policy python s n "workflow_default" "defaults.lease")
default_policy python s runtime none = runtime_policy python s runtime

abbrev pub actor_policy :
    Python → WorkflowDef → StageDef → ℤ → Option ℕ → Result ResolvedLeasePolicy
actor_policy python w s runtime (some n) = ok (
    lease_policy python s n "actor"
      (append "actors." (append (name_of_actor (actor_ref python s)) ".lease")))
actor_policy python w s runtime none =
    lease_seconds_from_mapping python (field_of "lease" w.defaults)
    >>= default_policy python s runtime

abbrev pub stage_policy :
    Python → WorkflowDef → StageDef → ℤ → Option ℕ → Result ResolvedLeasePolicy
stage_policy python w s runtime (some n) =
    ok (lease_policy python s n "stage" (append "stages." (append s.id ".lease")))
stage_policy python w s runtime none =
    lease_seconds_from_mapping python (field_of "lease" (actor_config_for_stage python w s))
    >>= actor_policy python w s runtime

abbrev pub override_policy : Python → StageDef → ℤ → Result ResolvedLeasePolicy
override_policy python s seconds = do
  n ← to_positive_int python (integer seconds)
  ok (lease_policy python s n "runner_override" "WorkflowKernel.run_once.lease_seconds")

unfoldable pub resolve_stage_lease_policy :
    Python → WorkflowDef → StageDef → ℤ → Option ℤ → Result ResolvedLeasePolicy
resolve_stage_lease_policy python w s runtime (some seconds) = override_policy python s seconds
resolve_stage_lease_policy python w s runtime none =
    lease_seconds_from_mapping python (some (obj s.lease)) >>= stage_policy python w s runtime

abbrev pub policy_of :
    Option ℕ → Option String → Option String → Option String → Option ResolvedLeasePolicy
policy_of (some n) (some source) (some ref) actor =
    some (record { lease_seconds = n; source = source; source_ref = ref; actor_ref = actor })
policy_of _ _ _ _ = none

unfoldable pub resolved_lease_policy_from_stage_run : StageRun → Option ResolvedLeasePolicy
resolved_lease_policy_from_stage_run run =
    policy_of run.lease_seconds run.lease_source run.lease_source_ref run.actor_ref
