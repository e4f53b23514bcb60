-- ===== src/Intake/Tests.antt =====
-- A raw event of a connector without a parser of its own.
use sentri_mesh_astra.Prelude.{
  ◌≡◌, refl, true, false, none, some, [], ◌∷◌, ◌++◌, arith, first, lookup, ok,
}
use sentri_mesh_astra.Json.{truthy, null, get, no_fields}
use sentri_mesh_astra.Models.{ConnectorConfig}
use sentri_mesh_astra.Bus.{Message, RawEvent}
use sentri_mesh_astra.Formats.{NormalizedEvent, normalize_for_connector_type, normalize_generic}
use sentri_mesh_astra.Guardian.{is_stale}
use sentri_mesh_astra.Intake.{text, Intake, normalize, connector_is, touched, type_of, on_raw_event}
use sentri_mesh_astra.Intake.Freshness.{on_raw_event_effect}

abbrev sensor : ConnectorConfig
sensor = record {
  id = 4;
  tenant_id = 1;
  connector_type = "syslog";
  display_name = "";
  config = no_fields;
  is_active = true;
  last_event_at = none;
  created_at = 0;
  token_hash = some "h";
}

abbrev intake : Intake
intake = record {
  events = [];
  connectors = sensor ∷ [];
  bus = record { audit_log = []; delivered = [] };
}

abbrev raw : RawEvent
raw = record {
  tenant_id = 1;
  connector_id = some 4;
  connector_type = "syslog";
  source = "edge";
  event_type = some "login_failed";
  occurred_at = none;
  content = no_fields;
}

abbrev taken : NormalizedEvent
taken = record {
  event_type = text "login_failed";
  src_ip = null;
  user = null;
  outcome = null;
  mitre_techniques = [];
  country = null;
  extra = no_fields;
}

on_raw_event_effect_example :
    let (result, s') = on_raw_event (λ v. "") raw 9 50 intake in
    (result ≡ ok tt)
    × (s'.bus.delivered
        ≡ intake.bus.delivered
          ++ Message.normalized_event 1 9 (normalize (type_of raw) "edge" no_fields taken) ∷ [])
    × (first (connector_is 4) s'.connectors ≡ some (touched 50 sensor))
    × (is_stale 60 (touched 50 sensor) ≡ false)
unfolding normalize_for_connector_type normalize_generic lookup get truthy
on_raw_event_effect_example =
    on_raw_event_effect (λ v. "") raw 9 50 60 4 taken sensor intake refl refl refl (omega arith)
