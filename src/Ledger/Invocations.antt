-- ===== src/Ledger/Invocations.antt =====
-- packages/kernel/agent_workflow_kernel/storage.py: the adapter invocations of a run, and the prompt
-- context that is pinned onto it.
use agent_workflow_kernel.Prelude.{
  ℕ, String, not, ◌&&◌, ◌||◌, Option, none, some, ◌∷◌, [], ◌++◌, ◌==◌, has_key, by_key,
  update_where, if◌then◌else◌,
}
use agent_workflow_kernel.Json.{Json, str, opt_str, object}
use agent_workflow_kernel.Ledger.Rows.{StageRunRow, InvocationRow}
use agent_workflow_kernel.Ledger.State.{
  Ledger, Result, ok, err, conflict, invocation_missing, integrity, ◌>>=◌, Body, has_instance,
  has_run, append_event, update_runs,
}

-- `AdapterInvocation` of contracts.py.
pub record AdapterInvocation : Type 0 where
  pub invocation_id : String
  pub workflow_id : String
  pub instance_id : String
  pub stage_run_id : String
  pub adapter_family : String
  pub adapter_id : String
  pub operation : String
  pub input_ref : Option String
  pub context_packet_ref : Option String
  pub idempotency_key : Option String

-- How an invocation ended, as far as it is known.
pub record Outcome : Type 0 where
  pub status : String
  pub response_hash : Option String
  pub external_ref : Option String
  pub error_class : Option String
  pub error_summary : Option String
  pub completed_at : Option ℕ

-- What `_json` is given of an invocation.
pub plain_invocation : AdapterInvocation → Json
plain_invocation i = object (
    ("invocation_id", str i.invocation_id)
    ∷ ("workflow_id", str i.workflow_id)
    ∷ ("instance_id", str i.instance_id)
    ∷ ("stage_run_id", str i.stage_run_id)
    ∷ ("adapter_family", str i.adapter_family)
    ∷ ("adapter_id", str i.adapter_id)
    ∷ ("operation", str i.operation)
    ∷ ("input_ref", opt_str i.input_ref)
    ∷ ("context_packet_ref", opt_str i.context_packet_ref)
    ∷ ("idempotency_key", opt_str i.idempotency_key)
    ∷ [])

abbrev pub invocation_row : AdapterInvocation → Option String → ℕ → Outcome → InvocationRow
invocation_row i request_hash started o = record {
  invocation_id = i.invocation_id;
  workflow_id = i.workflow_id;
  instance_id = i.instance_id;
  stage_run_id = i.stage_run_id;
  adapter_family = i.adapter_family;
  adapter_id = i.adapter_id;
  operation = i.operation;
  input_ref = i.input_ref;
  context_packet_ref = i.context_packet_ref;
  idempotency_key = i.idempotency_key;
  status = o.status;
  request_hash = request_hash;
  response_hash = o.response_hash;
  external_ref = o.external_ref;
  error_class = o.error_class;
  error_summary = o.error_summary;
  started_at = started;
  completed_at = o.completed_at;
  invocation_json = plain_invocation i;
}

unfoldable pub insert_invocation : InvocationRow → Ledger → Result Ledger
insert_invocation r s =
    if has_key (λ (i : InvocationRow). i.invocation_id) r.invocation_id s.invocations
      || not (has_instance r.instance_id s && has_run r.stage_run_id s)
    then err integrity
    else ok (record s { invocations = s.invocations ++ r ∷ [] })

unfoldable pub record_adapter_invocation :
    AdapterInvocation → Option String → ℕ → Outcome → Body (Unit {0})
record_adapter_invocation i request_hash started o s = do
  s' ← insert_invocation (invocation_row i request_hash started o) s
  ok (tt, s')

abbrev pub pending : Outcome
pending = record {
  status = "started";
  response_hash = none;
  external_ref = none;
  error_class = none;
  error_summary = none;
  completed_at = none;
}

pub preflight_payload : AdapterInvocation → Option String → Json → Json
preflight_payload i request_hash scope = object (
    ("invocation_id", str i.invocation_id)
    ∷ ("adapter_family", str i.adapter_family)
    ∷ ("adapter_id", str i.adapter_id)
    ∷ ("operation", str i.operation)
    ∷ ("idempotency_key", opt_str i.idempotency_key)
    ∷ ("request_hash", opt_str request_hash)
    ∷ ("side_effect_scope", scope)
    ∷ [])

unfoldable pub record_adapter_invocation_started :
    AdapterInvocation → Option String → String → Json → ℕ → Body (Unit {0})
record_adapter_invocation_started i request_hash actor scope started s = do
  s1 ← insert_invocation (invocation_row i request_hash started pending) s
  s2 ←
      append_event
        (record {
          instance_id = i.instance_id;
          stage_run_id = some i.stage_run_id;
          event_type = "adapter_invocation_preflight";
          actor = actor;
          payload = preflight_payload i request_hash scope;
          created_at = started;
        })
        s1
  ok (tt, s2)

abbrev pub settle_invocation : Outcome → InvocationRow → InvocationRow
settle_invocation o i = record i {
  status = o.status;
  response_hash = o.response_hash;
  external_ref = o.external_ref;
  error_class = o.error_class;
  error_summary = o.error_summary;
  completed_at = o.completed_at;
}

pub settled_payload : String → Outcome → Json
settled_payload id o = object (
    ("invocation_id", str id)
    ∷ ("status", str o.status)
    ∷ ("response_hash", opt_str o.response_hash)
    ∷ ("external_ref", opt_str o.external_ref)
    ∷ ("error_class", opt_str o.error_class)
    ∷ ("error_summary", opt_str o.error_summary)
    ∷ [])

-- `completed_at` is the time of the call here, whatever the outcome says of it.
unfoldable pub complete_adapter_invocation : String → Outcome → String → ℕ → Body (Unit {0})
complete_adapter_invocation id o actor now s =
    elim (by_key (λ (i : InvocationRow). i.invocation_id) id s.invocations) [
      | none ↦ err (conflict invocation_missing)
      | some row ↦ do
        s' ←
            append_event
              (record {
                instance_id = row.instance_id;
                stage_run_id = some row.stage_run_id;
                event_type = "adapter_invocation_completed";
                actor = actor;
                payload = settled_payload id o;
                created_at = now;
              })
              (record s {
                invocations =
                    update_where (λ i. i.invocation_id == id)
                      (settle_invocation (record o { completed_at = some now })) s.invocations;
              })
        ok (tt, s')
    ]

abbrev pub pin_context : String → String → String → String → StageRunRow → StageRunRow
pin_context prompt packet_ref packet_hash rendered r = record r {
  prompt_hash = some prompt;
  context_packet_ref = some packet_ref;
  context_packet_hash = some packet_hash;
  rendered_context_hash = some rendered;
}

unfoldable pub record_stage_run_prompt_context :
    String → String → String → String → String → Body (Unit {0})
record_stage_run_prompt_context run prompt packet_ref packet_hash rendered s = ok (
  tt,
  update_runs (λ r. r.stage_run_id == run) (pin_context prompt packet_ref packet_hash rendered) s,
)
