-- ===== src/Exposure/Severities.antt =====
-- The severity of a dependency scan, when backend/app/agents/exposure.py reports it and after
-- backend/app/agents/threat_intel.py and orchestrator.py have had the incident.
use sentri_mesh_astra.Prelude.{
  ℕ, String, ◌≡◌, refl, ap, ◌∙◌, false, Option, none, some, List, arith, any, first, first-passes,
  first-last, first-update_first, ◌>>=◌,
}
use sentri_mesh_astra.Json.{Value, Fields, no_fields, get, get_or, has_key, put, truthy}
use sentri_mesh_astra.Models.{Incident, Severity}
use sentri_mesh_astra.System.{incident_is}
use sentri_mesh_astra.Policy.{severity_from_signals, score}
use sentri_mesh_astra.Pipeline.Enrichment.{store_verdict-flagged}
use sentri_mesh_astra.Detection.{Flow}
use sentri_mesh_astra.Pipeline.{
  Verdict, on_new_incident, enrich_with, enriched, flagged, on_enriched_incident, classify_found,
  classified, scored, or_raise, announce, recommend_action,
}
use sentri_mesh_astra.Exposure.Advisories.{PackageReport}
use sentri_mesh_astra.Exposure.Worst.{worst_found, worst_severity-worst_found}
use sentri_mesh_astra.Exposure.{on_dependency_scan_requested, report_scan, dependency_incident}

-- The row of an incident after the three agents: the scan, its enrichment, and its classification with
-- the context that the enrichment has published.
abbrev pub scanned : (Value → String) → ℕ → List PackageReport → ℕ → ℕ → Flow → Flow
scanned str tenant_id results id now s =
    (on_dependency_scan_requested str tenant_id results id now s).1

abbrev pub enriched_after : (String → Option Verdict) → ℕ → ℕ → ℕ → Flow → Flow
enriched_after lookup_ip tenant_id id now s =
    (on_new_incident lookup_ip tenant_id id no_fields id now s).1

abbrev pub classified_after : ℕ → ℕ → Incident → ℕ → Flow → Flow
classified_after tenant_id id i now s =
    (on_enriched_incident tenant_id id (flagged false i) now s).1

reported_row :
    (i : Incident) (now : ℕ) (s : Flow)
    → any (incident_is i.id) s.incidents ≡ false
    → first (incident_is i.id) (report_scan i now s).1.incidents ≡ some i
unfolding report_scan
reported_row i now s free =
    rw free (first-last (incident_is i.id) s.incidents i free (ground arith))

-- Without an address in the context, only the flag is stored.
enriched_row :
    (lookup_ip : String → Option Verdict) (tenant_id id now : ℕ) (i : Incident) (s : Flow)
    → first (incident_is id) s.incidents ≡ some i
    → first (incident_is id) (enriched_after lookup_ip tenant_id id now s).incidents
      ≡ some (enriched no_fields false now i)
unfolding on_new_incident enrich_with get truthy
enriched_row lookup_ip tenant_id id now i s found =
    (store_verdict-flagged tenant_id id no_fields false now i s found).0

-- The orchestrator stores the severity whether or not a recommendation follows.
announced_row :
    (tenant_id id now : ℕ) (severity : Severity) (context : Fields) (found : Option String)
    (s : Flow)
    → ((or_raise found >>= announce tenant_id id severity context now) s).1.incidents ≡ s.incidents
unfolding announce
announced_row tenant_id id now severity context none s = refl
announced_row tenant_id id now severity context (some a) s = refl

classified_row :
    (tenant_id id now : ℕ) (context : Fields) (severity : Severity) (i : Incident) (s : Flow)
    → scored context ≡ some severity
    → first (incident_is id) s.incidents ≡ some i
    → first (incident_is id) (on_enriched_incident tenant_id id context now s).1.incidents
      ≡ some (classified severity now i)
unfolding on_enriched_incident classify_found classified
classified_row tenant_id id now context severity i s score found =
    rw (score, found)
      (ap (first (incident_is id))
          (announced_row tenant_id id now severity context (recommend_action i context) _)
        ∙ first-update_first (incident_is id) (classified severity now) s.incidents i found
            (first-passes (incident_is id) s.incidents i found))

no_signals :
    (str : Value → String) (tenant_id id now : ℕ) (results : List PackageReport)
    → scored (flagged false (dependency_incident str tenant_id results id now)) ≡ some Severity.low
unfolding severity_from_signals score flagged get_or has_key get put truthy
no_signals str tenant_id id now results = refl

-- A dependency scan opens an incident, under an id not yet taken, whose severity is the worst that any of its
-- advisories names: critical if one is critical, and so on down to low. When the threat intelligence agent
-- and the orchestrator have handled that incident, it has severity low, whatever the scan has found.
pub scan_severity_lost :
    (str : Value → String) (lookup_ip : String → Option Verdict) (tenant_id id now later last : ℕ)
    (results : List PackageReport) (s : Flow)
    → any (incident_is id) s.incidents ≡ false
    → let i = dependency_incident str tenant_id results id now in
      let s₁ = scanned str tenant_id results id now s in
      let s₂ = enriched_after lookup_ip tenant_id id later s₁ in
      let s₃ = classified_after tenant_id id i last s₂ in
      (first (incident_is id) s₁.incidents ≡ some i)
      × (i.severity ≡ worst_found results)
      × (first (incident_is id) s₃.incidents
          ≡ some (classified Severity.low last (enriched no_fields false later i)))
unfolding on_dependency_scan_requested
scan_severity_lost str lookup_ip tenant_id id now later last results s free =
    let i = dependency_incident str tenant_id results id now in
    let s₁ = scanned str tenant_id results id now s in
    let s₂ = enriched_after lookup_ip tenant_id id later s₁ in
    let opened = reported_row i now s free in
    let stored = enriched_row lookup_ip tenant_id id later i s₁ opened in
    (
      opened,
      worst_severity-worst_found results,
      classified_row tenant_id id last (flagged false i) Severity.low
          (enriched no_fields false later i) s₂ (no_signals str tenant_id id now results) stored,
    )
