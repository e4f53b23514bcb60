-- ===== src/Listings.antt =====
-- The lists that the console shows: backend/app/routers/incidents.py, activity.py, admin_audit.py, the lists of
-- reports.py and approvals.py, and what backend/app/schemas.py lets through.
pub mod Newest
pub mod Recent
mod Tests
use sentri_mesh_astra.Prelude.{
  ℕ, String, Bool, true, false, not, ◌&&◌, Option, none, some, List, map, ◌==◌, is_some, keep,
  first, Action, gets, pure, raise_if, ◌>>=◌, ◌>>◌, http,
}
use sentri_mesh_astra.Json.{Value, Fields}
use sentri_mesh_astra.Models.{
  User, Incident, IncidentStatus, Severity, ActionProposal, ApprovalRequest, ApprovalStatus, Report,
  is_admin,
}
use sentri_mesh_astra.Bus.{AuditLogEntry}
use sentri_mesh_astra.System.{proposal_is}
use sentri_mesh_astra.Control.{check_tenant_access, or_404}
use sentri_mesh_astra.Listings.Newest.{take, newest}

pub record Tables : Type 0 where
  pub incidents : List Incident
  pub actions : List ActionProposal
  pub approvals : List ApprovalRequest
  pub reports : List Report
  pub audit_log : List AuditLogEntry

-- `select(…).where(test).order_by(….created_at.desc()).limit(limit)`
unfoldable pub recent : {A : Type 0} → (A → ℕ) → ℕ → (A → Bool) → List A → List A
recent created_at limit test rows = take limit (newest created_at (keep test rows))

-- `IncidentOut`
pub record IncidentOut : Type 0 where
  pub id : ℕ
  pub tenant_id : ℕ
  pub title : String
  pub description : String
  pub severity : Severity
  pub status : IncidentStatus
  pub mitre_techniques : List Value
  pub enrichment : Fields
  pub created_at : ℕ
  pub updated_at : ℕ

abbrev pub incident_out : Incident → IncidentOut
incident_out i = record {
  id = i.id;
  tenant_id = i.tenant_id;
  title = i.title;
  description = i.description;
  severity = i.severity;
  status = i.status;
  mitre_techniques = i.mitre_techniques;
  enrichment = i.enrichment;
  created_at = i.created_at;
  updated_at = i.updated_at;
}

-- `list_incidents`
unfoldable pub list_incidents : User → ℕ → Action Tables (List Incident)
list_incidents user tenant_id = do
  check_tenant_access user tenant_id
  gets (λ d. recent (λ i. i.created_at) 200 (λ i. i.tenant_id == tenant_id) d.incidents)

-- `get_incident`
unfoldable pub get_incident : User → ℕ → ℕ → Action Tables IncidentOut
get_incident user tenant_id incident_id = do
  check_tenant_access user tenant_id
  found ← gets (λ d. first (λ i. i.id == incident_id && i.tenant_id == tenant_id) d.incidents)
  i ← or_404 found
  pure (incident_out i)

-- `list_reports`
unfoldable pub list_reports : User → ℕ → Action Tables (List Report)
list_reports user tenant_id = do
  check_tenant_access user tenant_id
  gets (λ d. recent (λ r. r.created_at) 90 (λ r. r.tenant_id == tenant_id) d.reports)

-- `AuditLogEntry.tenant_id == tenant_id`, of a column that may be NULL.
abbrev pub entry_of : ℕ → AuditLogEntry → Bool
entry_of tenant_id e = elim e.tenant_id [ none ↦ false | some t ↦ t == tenant_id ]

-- `list_activity`
unfoldable pub list_activity : User → ℕ → Action Tables (List AuditLogEntry)
list_activity user tenant_id = do
  check_tenant_access user tenant_id
  gets (λ d. recent (λ e. e.created_at) 500 (entry_of tenant_id) d.audit_log)

-- `platform_audit`, behind `require_admin`.
unfoldable pub platform_audit : User → Action Tables (List AuditLogEntry)
platform_audit user = do
  raise_if (not (is_admin user.role)) (http 403)
  gets (λ d. recent (λ e. e.created_at) 200 (λ e. not (is_some e.tenant_id)) d.audit_log)

-- `ApprovalOut`: the row with the action that it is about.
pub record ApprovalOut : Type 0 where
  pub approval : ApprovalRequest
  pub action : Option ActionProposal

abbrev pub same_status : ApprovalStatus → ApprovalStatus → Bool
same_status ApprovalStatus.pending ApprovalStatus.pending = true
same_status ApprovalStatus.approved ApprovalStatus.approved = true
same_status ApprovalStatus.rejected ApprovalStatus.rejected = true
same_status _ _ = false

-- The two `where`s of `list_approvals`.
abbrev pub listed_approval : ℕ → Option ApprovalStatus → ApprovalRequest → Bool
listed_approval tenant_id none a = a.tenant_id == tenant_id
listed_approval tenant_id (some st) a = a.tenant_id == tenant_id && same_status a.status st

abbrev pub with_action : List ActionProposal → ApprovalRequest → ApprovalOut
with_action ps a = record { approval = a; action = first (proposal_is a.action_proposal_id) ps }

-- `list_approvals`, which has no limit.
unfoldable pub list_approvals : User → ℕ → Option ApprovalStatus → Action Tables (List ApprovalOut)
list_approvals user tenant_id status_filter = do
  check_tenant_access user tenant_id
  gets (λ d.
      map (with_action d.actions)
        (newest (λ a. a.created_at) (keep (listed_approval tenant_id status_filter) d.approvals)))
