-- ===== src/Pipeline/Enrichment.antt =====
-- What backend/app/agents/threat_intel.py does to the context of an incident.
use sentri_mesh_astra.Prelude.{
  ℕ, String, ◌≡◌, refl, sym, ap, ◌∙◌, Bool, some, [], ◌∷◌, ◌++◌, str_eq, if◌then◌else◌, first,
  first-passes, first-update_first,
}
use sentri_mesh_astra.Json.{no_fields, Fields, get, get_or, merge, bool, obj, no_fields}
use sentri_mesh_astra.Json.Laws.{get-put}
use sentri_mesh_astra.Models.{Incident}
use sentri_mesh_astra.System.{incident_is}
use sentri_mesh_astra.Bus.{Message, publish}
use sentri_mesh_astra.Detection.Continues.{get_or-put}
use sentri_mesh_astra.Detection.{Flow, dict}
use sentri_mesh_astra.Pipeline.{store_verdict, enrich_found, flagged, enriched}

-- The context that is stored with an incident.
abbrev pub context_of_row : Incident → Fields
context_of_row i = dict (get_or "context" (obj no_fields) i.enrichment)

flagged_keeps :
    (malicious : Bool) (i : Incident) (k : String)
    → get k (flagged malicious i)
      ≡ (if str_eq k "malicious_indicator" then bool malicious else get k (context_of_row i))
unfolding flagged
flagged_keeps malicious i k = get-put k "malicious_indicator" (bool malicious) (context_of_row i)

-- When the row of an incident is found, the verdict is stored with it: its context has the verdict under
-- malicious_indicator and is unchanged under every other key, and this context is the one that goes on
-- to the orchestrator.
pub store_verdict-flagged :
    (tenant_id k : ℕ) (update : Fields) (malicious : Bool) (now : ℕ) (i : Incident) (s : Flow)
    → first (incident_is k) s.incidents ≡ some i
    → let s' = (store_verdict tenant_id k update malicious now s).1 in
      (first (incident_is k) s'.incidents ≡ some (enriched update malicious now i))
      × (s'.bus.delivered
          ≡ s.bus.delivered
            ++ Message.incident_enriched tenant_id k
                (context_of_row (enriched update malicious now i))
              ∷ [])
      × ((key : String)
          → get key (context_of_row (enriched update malicious now i)) ≡ (
              if str_eq key "malicious_indicator"
              then bool malicious
              else get key (context_of_row i)))
unfolding store_verdict enrich_found enriched publish
store_verdict-flagged tenant_id k update malicious now i s found =
    let stored : context_of_row (enriched update malicious now i) ≡ flagged malicious i = ap dict (
      get_or-put "context" (obj (flagged malicious i)) (obj no_fields) (merge i.enrichment update)
        refl) in
    rw found (
      first-update_first (incident_is k) (enriched update malicious now) s.incidents i found
          (first-passes (incident_is k) s.incidents i found),
      ap (λ c. s.bus.delivered ++ Message.incident_enriched tenant_id k c ∷ []) (sym stored),
      λ key. ap (get key) stored ∙ flagged_keeps malicious i key,
    )
