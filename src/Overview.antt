-- ===== src/Overview.antt =====
-- backend/app/routers/overview.py: the figures of a tenant's dashboard.
pub mod Figures
mod Tests
use sentri_mesh_astra.Prelude.{
  ℕ, ◌+◌, min, max, String, Bool, ◌&&◌, Option, none, some, List, [], ◌∷◌, map, ◌==◌, length, keep,
  first, Action, gets, ◌>>=◌, ◌>>◌,
}
use sentri_mesh_astra.Models.{
  Tenant, User, Incident, ApprovalRequest, ConnectorConfig, Report, Severity, is_active_status,
  is_critical, is_pending,
}
use sentri_mesh_astra.System.{tenant_is}
use sentri_mesh_astra.Control.{check_tenant_access, or_404}
use sentri_mesh_astra.Guardian.{healthy}

pub record Dashboard : Type 0 where
  pub tenants : List Tenant
  pub incidents : List Incident
  pub approvals : List ApprovalRequest
  pub connectors : List ConnectorConfig
  pub reports : List Report

-- `SEVERITY_WEIGHT`
abbrev pub severity_weight : Severity → ℕ
severity_weight Severity.low = 2
severity_weight Severity.medium = 8
severity_weight Severity.high = 20
severity_weight Severity.critical = 35

abbrev pub total_weight : List Incident → ℕ
total_weight [] = 0
total_weight (i ∷ is) = severity_weight i.severity + total_weight is

pub record ConnectorHealth : Type 0 where
  pub id : ℕ
  pub connector_type : String
  pub name : String
  pub healthy : Option Bool
  pub last_event_at : Option ℕ

pub record OverviewOut : Type 0 where
  pub tenant_id : ℕ
  pub risk_score : ℕ
  pub open_incidents : ℕ
  pub critical_incidents : ℕ
  pub pending_approvals : ℕ
  pub kill_switch_engaged : Bool
  pub connector_health : List ConnectorHealth
  pub last_report_at : Option ℕ

abbrev pub health_of : ℕ → ConnectorConfig → ConnectorHealth
health_of now c = record {
  id = c.id;
  connector_type = c.connector_type;
  name = c.display_name;
  healthy = healthy now c;
  last_event_at = c.last_event_at;
}

abbrev pub open_of : ℕ → List Incident → List Incident
open_of tenant_id is = keep (λ i. i.tenant_id == tenant_id && is_active_status i.status) is

-- `created_at` of the first report in the order of `created_at.desc()`.
abbrev pub latest : List Report → Option ℕ
latest [] = none
latest (r ∷ rs) = elim (latest rs) [ none ↦ some r.created_at | some t ↦ some (max r.created_at t) ]

unfoldable pub overview_of : ℕ → ℕ → Dashboard → Tenant → OverviewOut
overview_of tenant_id now d t =
    let open_incidents = open_of tenant_id d.incidents in
    record {
      tenant_id = tenant_id;
      risk_score = min 100 (total_weight open_incidents);
      open_incidents = length open_incidents;
      critical_incidents = length (keep (λ i. is_critical i.severity) open_incidents);
      pending_approvals =
          length (keep (λ a. a.tenant_id == tenant_id && is_pending a.status) d.approvals);
      kill_switch_engaged = t.kill_switch_engaged;
      connector_health = map (health_of now) (keep (λ c. c.tenant_id == tenant_id) d.connectors);
      last_report_at = latest (keep (λ r. r.tenant_id == tenant_id) d.reports);
    }

-- `get_overview`
unfoldable pub get_overview : User → ℕ → ℕ → Action Dashboard OverviewOut
get_overview user tenant_id now = do
  check_tenant_access user tenant_id
  found ← gets (λ d. first (tenant_is tenant_id) d.tenants)
  t ← or_404 found
  gets (λ d. overview_of tenant_id now d t)
