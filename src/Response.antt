-- ===== src/Response.antt =====
-- backend/app/agents/response.py: from a classified incident to an action, run by its tier.
use sentri_mesh_astra.Prelude.{
  ℕ, String, ◌<>◌, Bool, true, false, not, ◌&&◌, Option, none, some, [], ◌∷◌, ◌++◌, str_eq, ◌==◌,
  if◌then◌else◌, any, first, update_first, Action, pure, gets, modify, raise_if, ◌>>=◌, ◌>>◌, zoom,
  exception,
}
use sentri_mesh_astra.Json.{Value, Fields, get, put, truthy, no_fields}
use sentri_mesh_astra.Models.{
  ApprovalRequest, Severity, AutonomyTier, ActionProposal, ApprovalStatus, Tenant, is_tier1,
}
use sentri_mesh_astra.Policy.{classify_action}
use sentri_mesh_astra.Bus.{Message, Payload}
use sentri_mesh_astra.System.{System, tenant_is, proposal_is, publish_in, audit_in}
use sentri_mesh_astra.Executor.{Host, ExecutionResult, execute_with, rollback_with}

-- `_parameters_for`
unfoldable pub parameters_for : String → Fields → Fields
parameters_for action_type context =
    if str_eq action_type "block_ip" && truthy (get "src_ip" context)
    then put "ip" (get "src_ip" context) no_fields
    else put "context" (Value.obj context) no_fields

-- The row of `on_classified_incident`.
abbrev pub proposal_of : ℕ → ℕ → ℕ → String → Severity → Fields → ℕ → ActionProposal
proposal_of id tenant_id incident_id action_type severity context now =
    let decision = classify_action action_type severity in
    record {
      id = id;
      tenant_id = tenant_id;
      incident_id = incident_id;
      action_type = action_type;
      parameters = parameters_for action_type context;
      tier = decision.tier;
      rationale = decision.reasoning;
      reversible = decision.reversible;
      rollback_plan = decision.rollback_plan;
      executed = false;
      executed_at = none;
      execution_result = no_fields;
      created_at = now;
    }

abbrev pub result_fields : ExecutionResult → Fields
result_fields r =
    put "success" (Value.bool r.success)
      (put "detail" (Value.text r.detail) (put "simulated" (Value.bool r.simulated) no_fields))

-- The subject line of `_request_approval`.
abbrev pub subject : AutonomyTier → String
subject AutonomyTier.tier2_one_tap = "Action needs your approval (one tap): "
subject _ = "Action needs your approval (human decision required): "

-- `tenant and tenant.kill_switch_engaged`
abbrev pub is_engaged : Option Tenant → Bool
is_engaged none = false
is_engaged (some t) = t.kill_switch_engaged

-- The row of `_request_approval`.
abbrev pub pending_approval : ℕ → ℕ → ActionProposal → ApprovalRequest
pending_approval now approval_id p = record {
  id = approval_id;
  tenant_id = p.tenant_id;
  action_proposal_id = p.id;
  status = ApprovalStatus.pending;
  decided_by_user_id = none;
  decided_at = none;
  decision_note = "";
  created_at = now;
}

abbrev pub approval_has : ℕ → ApprovalRequest → Bool
approval_has k a = a.id == k

-- `proposal.executed = True` and the two lines behind it, committed.
abbrev pub mark_executed : ExecutionResult → ℕ → ActionProposal → ActionProposal
mark_executed r now p = record p {
  executed = true;
  executed_at = some now;
  execution_result = result_fields r;
}

-- What `rollback` adds to the result of the execution.
abbrev pub mark_rolled_back : ExecutionResult → ActionProposal → ActionProposal
mark_rolled_back r p = record p {
  execution_result =
      put "rollback_detail" (Value.text r.detail)
        (put "rolled_back" (Value.bool r.success) p.execution_result);
}

module _ (host : Host) (enabled : Bool) where
  abbrev pub State : Type 0
  State = System host.Firewall

  -- The executor, on the firewall of the state.
  unfoldable pub on_firewall : Action host.Firewall ExecutionResult → Action State ExecutionResult
  on_firewall = zoom (λ s. s.firewall) (λ f s. record s { firewall = f })

  -- `_execute` behind its three early returns.
  unfoldable pub run_executor : ℕ → ActionProposal → Action State Unit
  run_executor now p = do
    r ← on_firewall (execute_with host enabled p.action_type p.parameters)
    modify (λ s. record s {
      proposals = update_first (proposal_is p.id) (mark_executed r now) s.proposals;
    })
    publish_in "response" (some p.tenant_id)
        (Message.action_executed p.tenant_id p.id (result_fields r)) now

  -- The entry that `_execute` leaves when the kill switch stops it.
  unfoldable pub audit_blocked : ℕ → ActionProposal → Action State Unit
  audit_blocked now p =
      audit_in "response" "execution_blocked_kill_switch"
        (Payload.details (put "proposal_id" (Value.num p.id) no_fields)) (some p.tenant_id) now

  unfoldable pub execute_found : ℕ → Option ActionProposal → Action State Unit
  execute_found now none = pure tt
  execute_found now (some p) = if p.executed then pure tt else do
    tenant ← gets (λ s. first (tenant_is p.tenant_id) s.tenants)
    if is_engaged tenant then audit_blocked now p else run_executor now p

  -- `_execute` and `execute_approved`
  unfoldable pub execute : ℕ → ℕ → Action State Unit
  execute now proposal_id = do
    found ← gets (λ s. first (proposal_is proposal_id) s.proposals)
    execute_found now found

  -- `_request_approval`; a row whose primary key is taken is an `IntegrityError`.
  unfoldable pub request_approval : ℕ → ℕ → ActionProposal → Action State Unit
  request_approval now approval_id p = do
    taken ← gets (λ s. any (approval_has approval_id) s.approvals)
    raise_if taken exception
    modify (λ s. record s {
      approvals = s.approvals ++ pending_approval now approval_id p ∷ [];
      mails = s.mails ++ record { subject = subject p.tier <> p.action_type; proposal = p } ∷ [];
    })

  -- `on_classified_incident`, with the ids that the two new rows get.
  unfoldable pub on_classified_incident :
      ℕ → ℕ → ℕ → ℕ → ℕ → Severity → Option String → Fields → Action State Unit
  on_classified_incident now proposal_id approval_id tenant_id incident_id severity none context =
      pure tt
  on_classified_incident now proposal_id approval_id tenant_id incident_id severity
        (some action_type) context =
      let p = proposal_of proposal_id tenant_id incident_id action_type severity context now in
      if str_eq action_type "" then pure tt else do
        taken ← gets (λ s. any (proposal_is proposal_id) s.proposals)
        raise_if taken exception
        modify (λ s. record s { proposals = s.proposals ++ p ∷ [] })
        publish_in "response" (some tenant_id) (Message.action_proposed tenant_id p.id severity) now
        if is_tier1 p.tier then execute now p.id else request_approval now approval_id p

  -- `rollback` behind its early return.
  unfoldable pub run_rollback : ℕ → ActionProposal → Action State (Bool × String)
  run_rollback now p = do
    r ← on_firewall (rollback_with host enabled p.action_type p.parameters)
    modify (λ s. record s {
      proposals = update_first (proposal_is p.id) (mark_rolled_back r) s.proposals;
    })
    audit_in "response" "rollback"
        (Payload.details (
          put "proposal_id" (Value.num p.id)
            (put "success" (Value.bool r.success) (put "detail" (Value.text r.detail) no_fields))))
        (some p.tenant_id) now
    pure (r.success, r.detail)

  unfoldable pub rollback_found : ℕ → Option ActionProposal → Action State (Bool × String)
  rollback_found now none = pure (false, "Action was never executed — nothing to roll back.")
  rollback_found now (some p) =
      if not p.executed
      then pure (false, "Action was never executed — nothing to roll back.")
      else run_rollback now p

  -- `rollback`
  unfoldable pub rollback : ℕ → ℕ → Action State (Bool × String)
  rollback now proposal_id = do
    found ← gets (λ s. first (proposal_is proposal_id) s.proposals)
    rollback_found now found
