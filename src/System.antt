-- ===== src/System.antt =====
-- The state that the response agent and the routers for people share: the tables they use, the bus,
-- the mails sent for approval and the firewall of the executor's host.
use sentri_mesh_astra.Prelude.{ℕ, String, Bool, Option, List, ◌==◌, Action, ok}
use sentri_mesh_astra.Models.{Tenant, Incident, ActionProposal, ApprovalRequest}
use sentri_mesh_astra.Bus.{Bus, Payload, Message, publish, audit}

-- A mail of `_request_approval`; its body prints the fields of the proposal.
pub record Mail : Type 0 where
  pub subject : String
  pub proposal : ActionProposal

pub record System (F : Type 0) : Type 0 where
  pub tenants : List Tenant
  pub incidents : List Incident
  pub proposals : List ActionProposal
  pub approvals : List ApprovalRequest
  pub bus : Bus
  pub mails : List Mail
  pub firewall : F

abbrev pub tenant_is : ℕ → Tenant → Bool
tenant_is k t = t.id == k

abbrev pub incident_is : ℕ → Incident → Bool
incident_is k i = i.id == k

abbrev pub proposal_is : ℕ → ActionProposal → Bool
proposal_is k p = p.id == k

module _ {F : Type 0} where
  -- `self.publish` and `bus.publish`, in the state.
  unfoldable pub publish_in : String → Option ℕ → Message → ℕ → Action (System F) (Unit {0})
  publish_in actor tenant message now s =
      (ok tt, record s { bus = publish actor tenant message now s.bus })

  unfoldable pub audit_in : String → String → Payload → Option ℕ → ℕ → Action (System F) (Unit {0})
  audit_in actor action payload tenant now s =
      (ok tt, record s { bus = audit actor action "" payload tenant now s.bus })
