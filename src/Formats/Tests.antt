-- ===== src/Formats/Tests.antt =====
-- A Wazuh alert, for the theorems about backend/app/connectors/log_formats.py.
use sentri_mesh_astra.Formats.Shapes.{with_dict, with_items, with_text}
use sentri_mesh_astra.Prelude.{◌≡◌, refl, none, some, lookup, Result, ok, err}
use sentri_mesh_astra.Json.{
  Value, Fields, get, truthy, obj, arr, text, entry, no_fields, element, no_elements,
}
use sentri_mesh_astra.Formats.{
  NormalizedEvent, normalize_wazuh, normalize_for_connector_type, wazuh_event, wazuh_type,
  techniques,
}
use sentri_mesh_astra.Formats.Classification.{IsJudged, normalize_for_connector_type-IsJudged}

abbrev alert : Fields
alert =
    entry "rule"
      (obj (entry "groups" (arr (element (text "authentication_failed") no_elements)) no_fields))
      (entry "data" (obj (entry "srcip" (text "203.0.113.9") no_fields)) no_fields)

normalize_for_connector_type-IsJudged_example :
    IsJudged (normalize_for_connector_type (λ v. "") "wazuh" (some "login_success") alert)
    × (normalize_for_connector_type (λ v. "") "wazuh" (some "login_success") alert
        ≡ normalize_for_connector_type (λ v. "") "wazuh" none alert)
unfolding lookup
normalize_for_connector_type-IsJudged_example =
    normalize_for_connector_type-IsJudged (λ v. "") "wazuh" (some "login_success") none alert
      (normalize_wazuh (λ v. "")) refl

type_of : Result NormalizedEvent → Value
type_of (ok e) = e.event_type
type_of (err e) = text ""

alert_run :
    type_of (normalize_for_connector_type (λ v. "") "wazuh" (some "login_success") alert)
    ≡ text "login_failed"
unfolding normalize_for_connector_type lookup normalize_wazuh with_dict with_text with_items
    wazuh_event wazuh_type techniques get truthy type_of
alert_run = refl
