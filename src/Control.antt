-- ===== src/Control.antt =====
-- The routes by which people control responses: backend/app/routers/approvals.py, tenants.py and
-- actions.py, and the access check of every router.
pub mod Safety
pub mod Routes
pub mod Incidents
pub mod Refused
pub mod Sample
mod Tests
use sentri_mesh_astra.Prelude.{
  ℕ, String, Bool, false, not, ◌&&◌, ◌||◌, Option, none, some, List, [], ◌∷◌, ◌==◌, if◌then◌else◌,
  first, update_first, Action, pure, raise, gets, modify, raise_if, ◌>>=◌, ◌>>◌, http,
}
use sentri_mesh_astra.Json.{Fields}
use sentri_mesh_astra.Models.{
  User, UserRole, Tenant, ActionProposal, ApprovalRequest, ApprovalStatus, Severity, is_admin,
  is_pending,
}
use sentri_mesh_astra.Bus.{Message, Alert}
use sentri_mesh_astra.System.{System, tenant_is, proposal_is, publish_in}
use sentri_mesh_astra.Executor.{Host}
use sentri_mesh_astra.Response.{State, execute, rollback, on_classified_incident}

-- `user.tenant_id == tenant_id`
abbrev pub same_tenant : Option ℕ → ℕ → Bool
same_tenant none tenant_id = false
same_tenant (some t) tenant_id = t == tenant_id

-- The test of `_check_tenant_access`: who may act for a tenant.
unfoldable pub has_access : User → ℕ → Bool
has_access user tenant_id = is_admin user.role || same_tenant user.tenant_id tenant_id

module _ {S : Type 0} where
  unfoldable pub check_tenant_access : User → ℕ → Action S (Unit {0})
  check_tenant_access user tenant_id = raise_if (not (has_access user tenant_id)) (http 403)

  -- `if not row: raise HTTPException(404)`
  abbrev pub or_404 : {A : Type 0} → Option A → Action S A
  or_404 none = raise (http 404)
  or_404 (some a) = pure a

abbrev pub approval_is : ℕ → ℕ → ApprovalRequest → Bool
approval_is approval_id tenant_id a = a.id == approval_id && a.tenant_id == tenant_id

-- The four assignments of `decide_approval`.
abbrev pub decided : User → Bool → String → ℕ → ApprovalRequest → ApprovalRequest
decided user approve note now a = record a {
  status = if approve then ApprovalStatus.approved else ApprovalStatus.rejected;
  decided_by_user_id = some user.id;
  decided_at = some now;
  decision_note = note;
}

abbrev pub proposal_of_tenant : ℕ → ℕ → ActionProposal → Bool
proposal_of_tenant proposal_id tenant_id p = p.id == proposal_id && p.tenant_id == tenant_id

-- Whatever reaches this part of the system: a classified incident on the bus, or a request by an
-- authenticated user. The fresh ids and the time come with the event.
pub data Event : Type 0 where
  classified : ℕ → ℕ → ℕ → ℕ → Severity → Option String → Fields → Event
  decide : User → ℕ → ℕ → Bool → String → Event
  kill_switch : User → ℕ → Bool → Option String → Event
  roll_back : User → ℕ → ℕ → Event

module _ (host : Host) (enabled : Bool) where
  abbrev Act : Type 0 → Type 0
  Act A = Action (State host enabled) A

  -- `decide_approval` behind its three checks.
  unfoldable pub resolve :
      User
      → ℕ
      → ℕ
      → Bool
      → String
      → ℕ
      → ApprovalRequest
      → Act (ApprovalRequest × Option ActionProposal)
  resolve user tenant_id approval_id approve note now a = do
    modify (λ s. record s {
      approvals =
          update_first (approval_is approval_id tenant_id) (decided user approve note now)
            s.approvals;
    })
    publish_in user.email (some tenant_id)
        (if approve
          then Message.action_approved tenant_id a.id a.action_proposal_id user.email
          else Message.action_denied tenant_id a.id a.action_proposal_id user.email)
        now
    if approve then execute host enabled now a.action_proposal_id else pure tt
    action ← gets (λ s. first (proposal_is a.action_proposal_id) s.proposals)
    pure (decided user approve note now a, action)

  -- `decide_approval`
  unfoldable pub decide_approval :
      User → ℕ → ℕ → Bool → String → ℕ → Act (ApprovalRequest × Option ActionProposal)
  decide_approval user tenant_id approval_id approve note now = do
    check_tenant_access user tenant_id
    found ← gets (λ s. first (approval_is approval_id tenant_id) s.approvals)
    a ← or_404 found
    raise_if (not (is_pending a.status)) (http 400)
    resolve user tenant_id approval_id approve note now a

  -- `set_kill_switch`
  unfoldable pub set_kill_switch : User → ℕ → Bool → Option String → ℕ → Act Tenant
  set_kill_switch user tenant_id engaged reason now = do
    check_tenant_access user tenant_id
    raise_if (not engaged && not (is_admin user.role)) (http 403)
    found ← gets (λ s. first (tenant_is tenant_id) s.tenants)
    t ← or_404 found
    modify (λ s. record s {
      tenants =
          update_first (tenant_is tenant_id)
            (λ u. record u { kill_switch_engaged = engaged; kill_switch_reason = reason })
            s.tenants;
    })
    publish_in "guardian" (some tenant_id)
        (Message.guardian_alert tenant_id (Alert.kill_switch_toggled engaged user.email)) now
    pure (record t { kill_switch_engaged = engaged; kill_switch_reason = reason })

  -- `rollback_action`
  unfoldable pub rollback_action : User → ℕ → ℕ → ℕ → Act ((Bool × String) × Option ActionProposal)
  rollback_action user tenant_id proposal_id now = do
    check_tenant_access user tenant_id
    found ← gets (λ s. first (proposal_of_tenant proposal_id tenant_id) s.proposals)
    p ← or_404 found
    raise_if (not p.reversible) (http 400)
    outcome ← rollback host enabled now proposal_id
    action ← gets (λ s. first (proposal_of_tenant proposal_id tenant_id) s.proposals)
    pure (outcome, action)

  unfoldable pub handle : ℕ → Event → Act Unit
  handle now
        (Event.classified proposal_id approval_id tenant_id incident_id severity action context) =
      on_classified_incident host enabled now proposal_id approval_id tenant_id incident_id severity
        action context
  handle now (Event.decide user tenant_id approval_id approve note) =
      decide_approval user tenant_id approval_id approve note now >> pure tt
  handle now (Event.kill_switch user tenant_id engaged reason) =
      set_kill_switch user tenant_id engaged reason now >> pure tt
  handle now (Event.roll_back user tenant_id proposal_id) =
      rollback_action user tenant_id proposal_id now >> pure tt

  -- Events one after another: what is raised ends its own request or handler only.
  unfoldable pub serve : List (ℕ × Event) → State host enabled → State host enabled
  serve [] s = s
  serve ((now, e) ∷ es) s = serve es (handle now e s).1
