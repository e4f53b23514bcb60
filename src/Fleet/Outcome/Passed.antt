-- ===== src/Fleet/Outcome/Passed.antt =====
-- What backend/app/agents/threat_intel.py, orchestrator.py and exposure.py write can be read by the
-- orchestrator if what they find can.
use sentri_mesh_astra.Prelude.{
  ℕ, String, refl, ap, ◌∙◌, Bool, Option, none, some, List, [], ◌∷◌, any, keep, first, All-append,
  All-update_first, gets, one_or_none, ◌>>=◌, raise_if_keeps, exception,
}
use sentri_mesh_astra.Json.{Value, Fields, merge, obj, bool, no_fields}
use sentri_mesh_astra.Models.{Incident, Severity, ThreatIndicator}
use sentri_mesh_astra.Bus.{publish, audit}
use sentri_mesh_astra.System.{incident_is}
use sentri_mesh_astra.Detection.{Flow, dict}
use sentri_mesh_astra.Detection.Continues.{get_or-put}
use sentri_mesh_astra.Pipeline.{
  Verdict, enriched, flagged, store_verdict, enrich_found, cache_indicator, cache_found,
  indicator_is, classified, classify_found, on_enriched_incident, or_raise, announce, scored,
  recommend_action,
}
use sentri_mesh_astra.Pipeline.Enrichment.{context_of_row}
use sentri_mesh_astra.Exposure.{report_scan}
use sentri_mesh_astra.Fleet.Outcome.{is_countable}
use sentri_mesh_astra.Fleet.Outcome.Clear.{IsClear, Clear, countable-put, grown-IsClean}

module _ (str : Value → String) where
  enriched-IsClear :
      (update : Fields) (malicious : Bool) (now : ℕ) (i : Incident)
      → IsClear i
      → IsClear (enriched update malicious now i)
  unfolding enriched flagged
  enriched-IsClear update malicious now i h = (
    h.0,
    ap (λ c. is_countable (dict c))
          (get_or-put "context" (obj (flagged malicious i)) (obj no_fields)
            (merge i.enrichment update) refl)
        ∙ countable-put "malicious_indicator" (bool malicious) (context_of_row i) refl
        ∙ h.1,
  )

  enrich_found-Clear :
      (t j : ℕ) (update : Fields) (malicious : Bool) (now : ℕ) (found : Option Incident) (s : Flow)
      → Clear str s
      → Clear str (enrich_found t j update malicious now found s).1
  unfolding enrich_found publish audit
  enrich_found-Clear t j update malicious now none s h = h
  enrich_found-Clear t j update malicious now (some i) s h = (
    All-update_first IsClear (incident_is j) (enriched update malicious now) s.incidents
        (λ x found own. enriched-IsClear update malicious now x own) h.0,
    grown-IsClean str s.bus.delivered _ refl h.1,
  )

  pub store_verdict-Clear :
      (t j : ℕ) (update : Fields) (malicious : Bool) (now : ℕ) (s : Flow)
      → Clear str s
      → Clear str (store_verdict t j update malicious now s).1
  unfolding store_verdict
  store_verdict-Clear t j update malicious now s h =
      enrich_found-Clear t j update malicious now (first (incident_is j) s.incidents) s h

  known_rows-Clear :
      (ip : String) (v : Verdict) (id now : ℕ) (rows : List ThreatIndicator) (s : Flow)
      → Clear str s
      → Clear str ((one_or_none rows >>= cache_found ip v id now) s).1
  unfolding cache_found
  known_rows-Clear ip v id now [] s h = h
  known_rows-Clear ip v id now (a ∷ []) s h = h
  known_rows-Clear ip v id now (a ∷ b ∷ rest) s h = h

  pub cache_indicator-Clear :
      (ip : String) (v : Verdict) (id now : ℕ) (s : Flow)
      → Clear str s
      → Clear str (cache_indicator ip v id now s).1
  unfolding cache_indicator
  cache_indicator-Clear ip v id now s h =
      known_rows-Clear ip v id now (keep (indicator_is ip) s.indicators) s h

  announced-Clear :
      (t j : ℕ) (severity : Severity) (context : Fields) (now : ℕ) (found : Option String)
      (s : Flow)
      → Clear str s
      → Clear str ((or_raise found >>= announce t j severity context now) s).1
  unfolding announce publish audit
  announced-Clear t j severity context now none s h = h
  announced-Clear t j severity context now (some a) s h =
      (h.0, grown-IsClean str s.bus.delivered _ refl h.1)

  classify_found-Clear :
      (t j : ℕ) (context : Fields) (now : ℕ) (severity : Severity) (found : Option Incident)
      (s : Flow)
      → Clear str s
      → Clear str (classify_found t j context now severity found s).1
  unfolding classify_found classified
  classify_found-Clear t j context now severity none s h = h
  classify_found-Clear t j context now severity (some i) s h =
      announced-Clear t j severity context now (recommend_action i context) _ (
        All-update_first IsClear (incident_is j) (classified severity now) s.incidents
            (λ x found own. own) h.0,
        h.1,
      )

  scored-Clear :
      (t j : ℕ) (context : Fields) (now : ℕ) (found : Option Severity) (s : Flow)
      → Clear str s
      → Clear str
          ((or_raise found >>= λ severity. gets (λ s. first (incident_is j) s.incidents) >>= λ row.
              classify_found t j context now severity row)
            s).1
  scored-Clear t j context now none s h = h
  scored-Clear t j context now (some severity) s h =
      classify_found-Clear t j context now severity (first (incident_is j) s.incidents) s h

  pub on_enriched_incident-Clear :
      (t j : ℕ) (context : Fields) (now : ℕ) (s : Flow)
      → Clear str s
      → Clear str (on_enriched_incident t j context now s).1
  unfolding on_enriched_incident
  on_enriched_incident-Clear t j context now s h = scored-Clear t j context now (scored context) s h

  pub report_scan-Clear :
      (i : Incident) (now : ℕ) (s : Flow)
      → IsClear i
      → Clear str s
      → Clear str (report_scan i now s).1
  unfolding report_scan publish audit
  report_scan-Clear i now s clear h =
      raise_if_keeps (Clear str) (any (incident_is i.id) s.incidents) exception _ s h (λ free. (
        All-append IsClear s.incidents (i ∷ []) h.0 (clear, tt),
        grown-IsClean str s.bus.delivered _ refl h.1,
      ))
