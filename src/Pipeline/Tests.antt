-- ===== src/Pipeline/Tests.antt =====
-- An incident on its way through backend/app/agents/threat_intel.py and orchestrator.py.
use sentri_mesh_astra.Prelude.{
  String, ◌≡◌, refl, true, none, some, [], ◌∷◌, ◌++◌, str_eq, if◌then◌else◌, is_some, first, All,
}
use sentri_mesh_astra.Json.{truthy, get, bool, obj, no_fields, entry, text}
use sentri_mesh_astra.Models.{IncidentStatus, Incident, Severity}
use sentri_mesh_astra.System.{incident_is}
use sentri_mesh_astra.Bus.{Message}
use sentri_mesh_astra.Window.{empty}
use sentri_mesh_astra.Detection.{Flow}
use sentri_mesh_astra.Pipeline.{recommend_action, recommendation, store_verdict, enriched}
use sentri_mesh_astra.Pipeline.Recommendation.{
  Holding, Treated, can_search, recommend_action-Treated,
}
use sentri_mesh_astra.Pipeline.Enrichment.{context_of_row, store_verdict-flagged}

abbrev burst : Incident
burst = record {
  id = 3;
  tenant_id = 1;
  title = "Repeated failed logins";
  description = "";
  severity = Severity.low;
  status = IncidentStatus.open_;
  mitre_techniques = text "T1110 - Brute Force" ∷ [];
  related_event_ids = 1 ∷ [];
  enrichment = entry "context" (obj (entry "src_ip" (text "203.0.113.9") no_fields)) no_fields;
  created_at = 10;
  updated_at = 10;
}

abbrev flow : Flow
flow = record {
  incidents = burst ∷ [];
  active_incidents = [];
  redis = λ k. empty;
  last_seen = λ k. none;
  indicators = [];
  bus = record { audit_log = []; delivered = [] };
}

recommend_action-Treated_example :
    Holding
      (λ action. Treated action Severity.high)
      (recommend_action burst (entry "malicious_indicator" (bool true) no_fields))
    × (All (λ v. can_search v ≡ true) burst.mitre_techniques
        → is_some (recommend_action burst (entry "malicious_indicator" (bool true) no_fields))
          ≡ true)
recommend_action-Treated_example =
    recommend_action-Treated burst (entry "malicious_indicator" (bool true) no_fields) Severity.high

recommend_action_run :
    recommend_action burst (entry "malicious_indicator" (bool true) no_fields) ≡ some "block_ip"
unfolding recommend_action recommendation get truthy
recommend_action_run = refl

store_verdict-flagged_example :
    let s' = (store_verdict 1 3 no_fields true 12 flow).1 in
    (first (incident_is 3) s'.incidents ≡ some (enriched no_fields true 12 burst))
    × (s'.bus.delivered
        ≡ []
          ++ Message.incident_enriched 1 3 (context_of_row (enriched no_fields true 12 burst)) ∷ [])
    × ((key : String)
        → get key (context_of_row (enriched no_fields true 12 burst)) ≡ (
            if str_eq key "malicious_indicator" then bool true else get key (context_of_row burst)))
store_verdict-flagged_example = store_verdict-flagged 1 3 no_fields true 12 burst flow refl
