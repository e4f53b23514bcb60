-- ===== src/Intake.antt =====
-- backend/app/agents/integration.py: raw events are normalized, stored and passed on, and their connector
-- is marked as alive.
pub mod Freshness
mod Tests
use sentri_mesh_astra.Prelude.{
  ℕ, String, Bool, Option, none, some, List, [], ◌∷◌, ◌++◌, ◌==◌, update_first, Action, raise,
  modify, ok, err,
}
use sentri_mesh_astra.Json.{Value, Fields, entry, no_fields, text, arr, obj, list_elements}
use sentri_mesh_astra.Models.{LogEvent, ConnectorConfig}
use sentri_mesh_astra.Bus.{Bus, Message, RawEvent, publish}
use sentri_mesh_astra.Connectors.{text_or}
use sentri_mesh_astra.Formats.{NormalizedEvent, Parsed, normalize_for_connector_type}

pub record Intake : Type 0 where
  pub events : List LogEvent
  pub connectors : List ConnectorConfig
  pub bus : Bus

-- `normalize`
unfoldable pub normalize : String → String → Fields → NormalizedEvent → Fields
normalize connector_type source_label raw e = entry "source" (text source_label) (
    entry "connector_type" (text connector_type) (
      entry "event_type" e.event_type (
        entry "src_ip" e.src_ip (
          entry "user" e.user (
            entry "outcome" e.outcome (
              entry "mitre_techniques" (arr (list_elements e.mitre_techniques)) (
                entry "country" e.country
                  (entry "vendor_detail" (obj e.extra) (entry "raw" (obj raw) no_fields)))))))))

abbrev pub connector_is : ℕ → ConnectorConfig → Bool
connector_is k c = c.id == k

-- `connector.last_event_at = datetime.utcnow()`, of the connector that the event names.
abbrev pub touched : ℕ → ConnectorConfig → ConnectorConfig
touched now c = record c { last_event_at = some now }

unfoldable pub touch : Option ℕ → ℕ → List ConnectorConfig → List ConnectorConfig
touch none now cs = cs
touch (some k) now cs = update_first (connector_is k) (touched now) cs

abbrev pub log_event : RawEvent → NormalizedEvent → Fields → ℕ → ℕ → LogEvent
log_event payload e normalized id now = record {
  id = id;
  tenant_id = payload.tenant_id;
  connector_id = payload.connector_id;
  source = payload.source;
  event_type = e.event_type;
  raw = payload.content;
  normalized = normalized;
  occurred_at = elim payload.occurred_at [ none ↦ now | some t ↦ t ];
  ingested_at = now;
}

-- `payload.get("connector_type") or source`
abbrev pub type_of : RawEvent → String
type_of payload = text_or payload.connector_type payload.source

-- `on_raw_event` with what the parser returns.
unfoldable pub store_event : RawEvent → ℕ → ℕ → Parsed → Action Intake Unit
store_event payload id now (err e) = raise e
store_event payload id now (ok e) =
    let normalized = normalize (type_of payload) payload.source payload.content e in
    modify (λ s. record s {
      events = s.events ++ log_event payload e normalized id now ∷ [];
      connectors = touch payload.connector_id now s.connectors;
      bus =
          publish "integration" (some payload.tenant_id)
            (Message.normalized_event payload.tenant_id id normalized) now s.bus;
    })

-- `on_raw_event`, with the id of the new row.
unfoldable pub on_raw_event : (Value → String) → RawEvent → ℕ → ℕ → Action Intake Unit
on_raw_event str payload id now =
    store_event payload id now
      (normalize_for_connector_type str (type_of payload) payload.event_type payload.content)
