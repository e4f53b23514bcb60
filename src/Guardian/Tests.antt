-- ===== src/Guardian/Tests.antt =====
-- Inputs at which the theorems about backend/app/agents/guardian.py apply.
use sentri_mesh_astra.Prelude.{◌+◌, ◌≡◌, refl, true, not, ◌&&◌, some, [], ◌∷◌, ◌==◌, ok}
use sentri_mesh_astra.Json.{no_fields}
use sentri_mesh_astra.Models.{Severity, ConnectorConfig}
use sentri_mesh_astra.Executor.Sample.{sample_host}
use sentri_mesh_astra.Response.{on_classified_incident}
use sentri_mesh_astra.Control.Sample.{sample}
use sentri_mesh_astra.Guardian.{
  on_action_proposed, is_stale, healthy, stale_after, stale_connectors,
}
use sentri_mesh_astra.Guardian.Agreement.{on_action_proposed_agrees, healthy_iff_not_stale}

on_action_proposed_agrees_example :
    let s' =
      (on_classified_incident sample_host true 5 11 21 1 6 Severity.high
        (some "block_ip")
        no_fields
        sample).1 in
    on_action_proposed 1 11 (some Severity.high) 6 s' ≡ (ok tt, s')
on_action_proposed_agrees_example =
    on_action_proposed_agrees sample_host true 5 6 11 21 1 6 Severity.high (some "block_ip")
      no_fields sample refl

abbrev sensor : ConnectorConfig
sensor = record {
  id = 4;
  tenant_id = 1;
  connector_type = "wazuh";
  display_name = "";
  config = no_fields;
  is_active = true;
  last_event_at = some 100;
  created_at = 0;
  token_hash = some "h";
}

healthy_iff_not_stale_example :
    healthy 21700 sensor ≡ some (not (is_stale 21700 sensor) && not (21700 == 100 + stale_after))
healthy_iff_not_stale_example = healthy_iff_not_stale 21700 100 sensor refl

stale_connectors_run :
    (stale_connectors 21700 (sensor ∷ []) ≡ [])
    × (stale_connectors 21701 (sensor ∷ []) ≡ sensor ∷ [])
unfolding stale_connectors is_stale
stale_connectors_run = (refl, refl)
