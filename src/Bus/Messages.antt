-- ===== src/Bus/Messages.antt =====
-- The channels of backend/app/bus.py and backend/app/agents/exposure.py, and their payloads.
use sentri_mesh_astra.Prelude.{ℕ, String, Bool, Option, List}
use sentri_mesh_astra.Json.{Fields}
use sentri_mesh_astra.Models.{Severity, AutonomyTier}

pub record RawEvent : Type 0 where
  pub tenant_id : ℕ
  pub connector_id : Option ℕ
  pub connector_type : String
  pub source : String
  pub event_type : Option String
  pub occurred_at : Option ℕ
  pub content : Fields

pub data Alert : Type 0 where
  tier_mismatch : ℕ → AutonomyTier → AutonomyTier → Alert
  connector_stale : ℕ → String → ℕ → Alert
  kill_switch_toggled : Bool → String → Alert

pub record Package : Type 0 where
  pub ecosystem : String
  pub name : String
  pub version : String

-- Tenant first, then the ids and values under the payload's other keys.
pub data Message : Type 0 where
  raw_event : RawEvent → Message
  normalized_event : ℕ → ℕ → Fields → Message
  incident_new incident_enriched : ℕ → ℕ → Fields → Message
  incident_classified : ℕ → ℕ → Severity → Option String → Fields → Message
  action_proposed : ℕ → ℕ → Severity → Message
  action_approved action_denied : ℕ → ℕ → ℕ → String → Message
  action_executed : ℕ → ℕ → Fields → Message
  report_ready : ℕ → ℕ → Message
  guardian_alert : ℕ → Alert → Message
  scan_requested : ℕ → String → Message
  dependency_scan_requested : ℕ → List Package → Message

abbrev pub channel_of : Message → String
channel_of (Message.raw_event _) = "events.raw"
channel_of (Message.normalized_event _ _ _) = "events.normalized"
channel_of (Message.incident_new _ _ _) = "incidents.new"
channel_of (Message.incident_enriched _ _ _) = "incidents.enriched"
channel_of (Message.incident_classified _ _ _ _ _) = "incidents.classified"
channel_of (Message.action_proposed _ _ _) = "actions.proposed"
channel_of (Message.action_approved _ _ _ _) = "actions.approved"
channel_of (Message.action_denied _ _ _ _) = "actions.denied"
channel_of (Message.action_executed _ _ _) = "actions.executed"
channel_of (Message.report_ready _ _) = "reports.ready"
channel_of (Message.guardian_alert _ _) = "guardian.alert"
channel_of (Message.scan_requested _ _) = "exposure.scan_requested"
channel_of (Message.dependency_scan_requested _ _) = "exposure.dependency_scan_requested"

-- `payload["tenant_id"]`
abbrev pub tenant_of : Message → ℕ
tenant_of (Message.raw_event e) = e.tenant_id
tenant_of (Message.normalized_event t _ _) = t
tenant_of (Message.incident_new t _ _) = t
tenant_of (Message.incident_enriched t _ _) = t
tenant_of (Message.incident_classified t _ _ _ _) = t
tenant_of (Message.action_proposed t _ _) = t
tenant_of (Message.action_approved t _ _ _) = t
tenant_of (Message.action_denied t _ _ _) = t
tenant_of (Message.action_executed t _ _) = t
tenant_of (Message.report_ready t _) = t
tenant_of (Message.guardian_alert t _) = t
tenant_of (Message.scan_requested t _) = t
tenant_of (Message.dependency_scan_requested t _) = t
