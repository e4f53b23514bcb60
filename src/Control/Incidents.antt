-- ===== src/Control/Incidents.antt =====
-- The response agent and the routes by which people control it leave the table of incidents alone:
-- backend/app/agents/response.py and backend/app/routers.
use sentri_mesh_astra.Prelude.{
  ℕ, String, ◌≡◌, refl, Bool, true, false, not, ◌&&◌, Option, none, some, List, str_eq,
  if◌then◌else◌, any, first, update_first, Action, modify, raise_if, ◌>>=◌, ◌>>◌, >>=_keeps,
  if_keeps, raise_if_keeps, http, exception,
}
use sentri_mesh_astra.System.{audit_in, publish_in, tenant_is, proposal_is}
use sentri_mesh_astra.Control.{
  Event, handle, set_kill_switch, rollback_action, proposal_of_tenant, approval_is, has_access,
  or_404, check_tenant_access, resolve, decide_approval,
}
use sentri_mesh_astra.Response.{
  rollback, result_fields, proposal_of, mark_executed, run_rollback, rollback_found, is_engaged,
  on_firewall, approval_has, audit_blocked, run_executor, request_approval, on_classified_incident,
  execute_found, State, execute,
}
use sentri_mesh_astra.Json.{Fields}
use sentri_mesh_astra.Bus.{Message}
use sentri_mesh_astra.Models.{
  ApprovalRequest, Severity, is_tier1, is_pending, is_admin, User, ActionProposal, Incident,
}
use sentri_mesh_astra.Executor.{rollback_with, execute_with, Host}

module _ (host : Host) (enabled : Bool) (is : List Incident) where
  -- The table of incidents is `is`.
  abbrev HasIncidents : State host enabled → Type 0
  HasIncidents s = s.incidents ≡ is

  abbrev Keeps : {A : Type 0} → Action (State host enabled) A → Type 0
  Keeps m = (s : State host enabled) → HasIncidents s → HasIncidents (m s).1

  executor-Keeps : (now : ℕ) (p : ActionProposal) → Keeps (run_executor host enabled now p)
  unfolding run_executor on_firewall publish_in
  executor-Keeps now p s h =
      >>=_keeps HasIncidents
        (on_firewall host enabled (execute_with host enabled p.action_type p.parameters))
        (λ r.
          modify (λ s. record s {
            proposals = update_first (proposal_is p.id) (mark_executed r now) s.proposals;
          })
          >> publish_in "response" (some p.tenant_id)
              (Message.action_executed p.tenant_id p.id (result_fields r)) now)
        s h (λ r e kept. kept)

  found-Keeps :
      (now : ℕ) (found : Option ActionProposal) → Keeps (execute_found host enabled now found)
  unfolding execute_found audit_blocked audit_in
  found-Keeps now none s h = h
  found-Keeps now (some p) s h =
      if_keeps (λ (m : Action (State host enabled) Unit). HasIncidents (m s).1) p.executed _ _
        (λ done. h)
        (λ open_.
          if_keeps (λ (m : Action (State host enabled) Unit). HasIncidents (m s).1)
            (is_engaged (first (tenant_is p.tenant_id) s.tenants)) _ _ (λ halted. h)
            (λ free. executor-Keeps now p s h))

  execute-Keeps : (now j : ℕ) → Keeps (execute host enabled now j)
  unfolding execute
  execute-Keeps now j s h = found-Keeps now (first (proposal_is j) s.proposals) s h

  approval-Keeps : (now j : ℕ) (p : ActionProposal) → Keeps (request_approval host enabled now j p)
  unfolding request_approval
  approval-Keeps now j p s h =
      raise_if_keeps HasIncidents (any (approval_has j) s.approvals) exception _ s h (λ free. h)

  chosen-Keeps :
      (b : Bool) (now approval_id : ℕ) (p : ActionProposal)
      → Keeps (
          if b
          then execute host enabled now p.id
          else request_approval host enabled now approval_id p)
  chosen-Keeps true now approval_id p s h = execute-Keeps now p.id s h
  chosen-Keeps false now approval_id p s h = approval-Keeps now approval_id p s h

  proposed-Keeps :
      (now id approval_id t j : ℕ) (sev : Severity) (action : Option String) (context : Fields)
      → Keeps (on_classified_incident host enabled now id approval_id t j sev action context)
  unfolding on_classified_incident publish_in
  proposed-Keeps now id approval_id t j sev none context s h = h
  proposed-Keeps now id approval_id t j sev (some a) context s h =
      let p = proposal_of id t j a sev context now in
      if_keeps (λ (m : Action (State host enabled) Unit). HasIncidents (m s).1) (str_eq a "") _ _
        (λ empty. h)
        (λ real.
          raise_if_keeps HasIncidents (any (proposal_is id) s.proposals) exception _ s h
            (λ free. chosen-Keeps (is_tier1 p.tier) now approval_id p _ h))

  resolve-Keeps :
      (user : User) (t j : ℕ) (approve : Bool) (note : String) (now : ℕ) (a : ApprovalRequest)
      → Keeps (resolve host enabled user t j approve note now a)
  unfolding resolve publish_in
  resolve-Keeps user t j false note now a s h = h
  resolve-Keeps user t j true note now a s h =
      >>=_keeps HasIncidents (execute host enabled now a.action_proposal_id) _ _
        (execute-Keeps now a.action_proposal_id _ h) (λ r e kept. kept)

  or_404-Keeps :
      {A B : Type 0} (found : Option A) (k : A → Action (State host enabled) B)
      → ((a : A) → Keeps (k a))
      → Keeps (or_404 found >>= k)
  or_404-Keeps none k next s h = h
  or_404-Keeps (some a) k next s h = next a s h

  decide-Keeps :
      (user : User) (t j : ℕ) (approve : Bool) (note : String) (now : ℕ)
      → Keeps (decide_approval host enabled user t j approve note now)
  unfolding decide_approval check_tenant_access
  decide-Keeps user t j approve note now s h =
      raise_if_keeps HasIncidents (not (has_access user t)) (http 403) _ s h (λ may.
        or_404-Keeps (first (approval_is j t) s.approvals)
          (λ a.
            raise_if (not (is_pending a.status)) (http 400)
            >> resolve host enabled user t j approve note now a)
          (λ a s h.
            raise_if_keeps HasIncidents (not (is_pending a.status)) (http 400) _ s h
              (λ open_. resolve-Keeps user t j approve note now a s h))
          s h)

  switch-Keeps :
      (user : User) (t : ℕ) (engaged : Bool) (reason : Option String) (now : ℕ)
      → Keeps (set_kill_switch host enabled user t engaged reason now)
  unfolding set_kill_switch check_tenant_access publish_in
  switch-Keeps user t engaged reason now s h =
      raise_if_keeps HasIncidents (not (has_access user t)) (http 403) _ s h (λ may.
        raise_if_keeps HasIncidents (not engaged && not (is_admin user.role)) (http 403) _ s h
          (λ may_end. or_404-Keeps (first (tenant_is t) s.tenants) _ (λ u s h. h) s h))

  rollback_found-Keeps :
      (now : ℕ) (found : Option ActionProposal) → Keeps (rollback_found host enabled now found)
  unfolding rollback_found run_rollback on_firewall audit_in
  rollback_found-Keeps now none s h = h
  rollback_found-Keeps now (some p) s h =
      if_keeps (λ (m : Action (State host enabled) (Bool × String)). HasIncidents (m s).1)
        (not p.executed) _ _ (λ never. h)
        (λ done.
          >>=_keeps HasIncidents
            (on_firewall host enabled (rollback_with host enabled p.action_type p.parameters)) _ s h
            (λ r e kept. kept))

  rollback-Keeps : (user : User) (t j now : ℕ) → Keeps (rollback_action host enabled user t j now)
  unfolding rollback_action check_tenant_access rollback
  rollback-Keeps user t j now s h =
      raise_if_keeps HasIncidents (not (has_access user t)) (http 403) _ s h (λ may.
        or_404-Keeps (first (proposal_of_tenant j t) s.proposals) _
          (λ p s h. raise_if_keeps HasIncidents (not p.reversible) (http 400) _ s h (λ can.
            >>=_keeps HasIncidents (rollback host enabled now j) _ s
              (rollback_found-Keeps now (first (proposal_is j) s.proposals) s h)
              (λ r e kept. kept)))
          s h)

  handle-Keeps : (now : ℕ) (e : Event) → Keeps (handle host enabled now e)
  unfolding handle
  handle-Keeps now (Event.classified id approval_id t j sev action context) s h =
      proposed-Keeps now id approval_id t j sev action context s h
  handle-Keeps now (Event.decide user t j approve note) s h =
      >>=_keeps HasIncidents (decide_approval host enabled user t j approve note now) _ s
        (decide-Keeps user t j approve note now s h) (λ r e kept. kept)
  handle-Keeps now (Event.kill_switch user t engaged reason) s h =
      >>=_keeps HasIncidents (set_kill_switch host enabled user t engaged reason now) _ s
        (switch-Keeps user t engaged reason now s h) (λ r e kept. kept)
  handle-Keeps now (Event.roll_back user t j) s h =
      >>=_keeps HasIncidents (rollback_action host enabled user t j now) _ s
        (rollback-Keeps user t j now s h) (λ r e kept. kept)

-- No event changes the table of incidents.
pub handle-incidents :
    (host : Host) (enabled : Bool) (now : ℕ) (e : Event) (s : State host enabled)
    → (handle host enabled now e s).1.incidents ≡ s.incidents
handle-incidents host enabled now e s = handle-Keeps host enabled s.incidents now e s refl
