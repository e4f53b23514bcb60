-- ===== src/Connectors/Tests.antt =====
-- A connector, its token and a pushed event, for the theorems about connectors.
use sentri_mesh_astra.Prelude.{◌≡◌, refl, true, none, some, [], ◌∷◌, arith, ok}
use sentri_mesh_astra.Json.{no_fields}
use sentri_mesh_astra.Models.{ConnectorConfig}
use sentri_mesh_astra.Control.{has_access}
use sentri_mesh_astra.Control.Sample.{holder}
use sentri_mesh_astra.Connectors.{
  Hub, IngestEvent, hash_is, rotate_token, authenticate_connector, with_token, ingest_event,
}
use sentri_mesh_astra.Connectors.Rotation.{map_result, rotate_token-authenticate_connector}
use sentri_mesh_astra.Connectors.Ingest.{Outcome, ingest_event-Outcome}

abbrev sensor : ConnectorConfig
sensor = record {
  id = 4;
  tenant_id = 1;
  connector_type = "wazuh";
  display_name = "";
  config = no_fields;
  is_active = true;
  last_event_at = none;
  created_at = 0;
  token_hash = some "smac_old";
}

abbrev hub : Hub
hub = record { connectors = sensor ∷ []; bus = record { audit_log = []; delivered = [] } }

abbrev pushed : IngestEvent
pushed = record { source = "edge"; event_type = none; occurred_at = none; content = no_fields }

-- The digest is the identity here, which keeps different tokens apart.
rotate_token-authenticate_connector_example :
    let (result, h') = rotate_token (λ t. t) holder 1 4 "new" hub in
    (map_result (λ r. r.1) result ≡ ok "smac_new")
    × (authenticate_connector (λ t. t) "smac_new" 1 h'
        ≡ (ok (some (with_token (λ t. t) "smac_new" sensor)), h'))
    × (authenticate_connector (λ t. t) "smac_old" 1 h' ≡ (ok none, h'))
unfolding hash_is has_access
rotate_token-authenticate_connector_example =
    rotate_token-authenticate_connector (λ t. t) holder 1 4 "new" "smac_old" sensor hub refl refl
      refl refl (omega arith) refl refl

ingest_event-Outcome_example :
    Outcome
      (λ t. t)
      1
      pushed
      9
      (some "Bearer smac_old")
      hub
      (ingest_event (λ t. t) 1 pushed (some "Bearer smac_old") 9 hub)
ingest_event-Outcome_example = ingest_event-Outcome (λ t. t) 1 pushed 9 (some "Bearer smac_old") hub
