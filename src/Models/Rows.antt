-- ===== src/Models/Rows.antt =====
-- The tables of backend/app/models.py.
use sentri_mesh_astra.Prelude.{ℕ, String, Bool, Option, List}
use sentri_mesh_astra.Json.{Value, Fields}
use sentri_mesh_astra.Models.Enums.{
  UserRole, Severity, AutonomyTier, ApprovalStatus, IncidentStatus,
}

pub record Tenant : Type 0 where
  pub id : ℕ
  pub name : String
  pub domain : String
  pub sector : String
  pub created_at : ℕ
  pub kill_switch_engaged : Bool
  pub kill_switch_reason : Option String

pub record User : Type 0 where
  pub id : ℕ
  pub email : String
  pub hashed_password : String
  pub role : UserRole
  pub tenant_id : Option ℕ
  pub full_name : String
  pub is_active : Bool
  pub created_at : ℕ

pub record ConnectorConfig : Type 0 where
  pub id : ℕ
  pub tenant_id : ℕ
  pub connector_type : String
  pub display_name : String
  pub config : Fields
  pub is_active : Bool
  pub last_event_at : Option ℕ
  pub created_at : ℕ
  pub token_hash : Option String

pub record LogEvent : Type 0 where
  pub id : ℕ
  pub tenant_id : ℕ
  pub connector_id : Option ℕ
  pub source : String
  pub event_type : Value
  pub raw : Fields
  pub normalized : Fields
  pub occurred_at : ℕ
  pub ingested_at : ℕ

pub record Incident : Type 0 where
  pub id : ℕ
  pub tenant_id : ℕ
  pub title : String
  pub description : String
  pub severity : Severity
  pub status : IncidentStatus
  pub mitre_techniques : List Value
  pub related_event_ids : List ℕ
  pub enrichment : Fields
  pub created_at : ℕ
  pub updated_at : ℕ

pub record ActionProposal : Type 0 where
  pub id : ℕ
  pub tenant_id : ℕ
  pub incident_id : ℕ
  pub action_type : String
  pub parameters : Fields
  pub tier : AutonomyTier
  pub rationale : String
  pub reversible : Bool
  pub rollback_plan : String
  pub executed : Bool
  pub executed_at : Option ℕ
  pub execution_result : Fields
  pub created_at : ℕ

pub record ApprovalRequest : Type 0 where
  pub id : ℕ
  pub tenant_id : ℕ
  pub action_proposal_id : ℕ
  pub status : ApprovalStatus
  pub decided_by_user_id : Option ℕ
  pub decided_at : Option ℕ
  pub decision_note : String
  pub created_at : ℕ

pub record Report : Type 0 where
  pub id : ℕ
  pub tenant_id : ℕ
  pub report_type : String
  pub period_start : ℕ
  pub period_end : ℕ
  pub summary : String
  pub body : Fields
  pub emailed : Bool
  pub created_at : ℕ

pub record ThreatIndicator : Type 0 where
  pub id : ℕ
  pub indicator_type : String
  pub value : String
  pub verdict : String
  pub score : ℕ
  pub source : String
  pub details : Fields
  pub updated_at : ℕ
