-- ===== src/Intake/Freshness.antt =====
-- An event keeps its connector from going stale: backend/app/agents/integration.py with guardian.py.
use sentri_mesh_astra.Prelude.{
  ℕ, ◌+◌, ◌≤◌, String, ◌≡◌, refl, false, some, [], ◌∷◌, ◌++◌, arith, first, first-passes,
  first-update_first, ok,
}
use sentri_mesh_astra.Json.{Value}
use sentri_mesh_astra.Models.{ConnectorConfig}
use sentri_mesh_astra.Bus.{Message, RawEvent, publish}
use sentri_mesh_astra.Formats.{NormalizedEvent, normalize_for_connector_type}
use sentri_mesh_astra.Guardian.{is_stale, stale_after}
use sentri_mesh_astra.Intake.{
  Intake, normalize, connector_is, touched, touch, type_of, store_event, on_raw_event,
}

fresh :
    (now later : ℕ) (c : ConnectorConfig)
    → later ≤ now + stale_after
    → is_stale later (touched now c) ≡ false
unfolding is_stale
fresh now later c h = ground arith

-- When a parser has taken an event of a known connector, one normalized event is passed on, and for six
-- hours the guardian does not find that connector stale.
pub on_raw_event_effect :
    (str : Value → String) (payload : RawEvent) (id now later k : ℕ) (e : NormalizedEvent)
    (c : ConnectorConfig) (s : Intake)
    → payload.connector_id ≡ some k
    → first (connector_is k) s.connectors ≡ some c
    → normalize_for_connector_type str (type_of payload) payload.event_type payload.content ≡ ok e
    → later ≤ now + stale_after
    → let (result, s') = on_raw_event str payload id now s in
      (result ≡ ok tt)
      × (s'.bus.delivered
          ≡ s.bus.delivered
            ++ Message.normalized_event payload.tenant_id id
                (normalize (type_of payload) payload.source payload.content e)
              ∷ [])
      × (first (connector_is k) s'.connectors ≡ some (touched now c))
      × (is_stale later (touched now c) ≡ false)
unfolding on_raw_event store_event touch publish
on_raw_event_effect str payload id now later k e c s from found parsed soon =
    rw (parsed, from)
      (
        refl,
        refl,
        first-update_first (connector_is k) (touched now) s.connectors c found
            (first-passes (connector_is k) s.connectors c found),
        fresh now later c soon,
      )
