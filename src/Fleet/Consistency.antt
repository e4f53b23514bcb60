-- ===== src/Fleet/Consistency.antt =====
-- The agents behind the detection agent, backend/app/agents, leave its cache consistent with the table of
-- incidents.
pub mod Single
use sentri_mesh_astra.Prelude.{
  ℕ, String, ◌≡◌, refl, inl, inr, Bool, false, Option, none, some, List, [], ◌∷◌, arith, Bool-cases,
  any, keep, first, gets, one_or_none, ◌>>=◌,
}
use sentri_mesh_astra.Policy.{severity_from_signals}
use sentri_mesh_astra.Exposure.{report_scan}
use sentri_mesh_astra.System.{incident_is}
use sentri_mesh_astra.Json.Laws.{get-put, has_key-put}
use sentri_mesh_astra.Models.{Severity, Incident, ThreatIndicator}
use sentri_mesh_astra.Detection.{same_scalar, value_eq, continues, Campaign, Flow}
use sentri_mesh_astra.Json.{has_key, get, bool, merge, obj, get_or, Fields}
use sentri_mesh_astra.Pipeline.{
  scored, or_raise, announce, recommend_action, classified, classify_found, on_enriched_incident,
  indicator_is, enrich_found, cache_found, flagged, Verdict, store_verdict, enriched,
  cache_indicator,
}
use sentri_mesh_astra.Detection.Consistency.{updated-IsConsistent, added-IsConsistent}
use sentri_mesh_astra.Detection.Consistency.Opened.{Consistent}
use sentri_mesh_astra.Detection.Belongs.{belongs, context_in}

belongs-enriched :
    (c : Campaign) (update : Fields) (malicious : Bool) (now : ℕ) (i : Incident)
    → belongs c (enriched update malicious now i) ≡ belongs c i
unfolding belongs enriched flagged get_or
belongs-enriched c update malicious now i =
    rw
      (
        has_key-put "context" "context" (obj (flagged malicious i)) (merge i.enrichment update),
        get-put "context" "context" (obj (flagged malicious i)) (merge i.enrichment update),
        get-put "technique_key" "malicious_indicator" (bool malicious) (context_in i),
        get-put "src_ip" "malicious_indicator" (bool malicious) (context_in i),
        has_key-put "src_ip" "malicious_indicator" (bool malicious) (context_in i),
      )
      refl

enrich_found-Consistent :
    (t j : ℕ) (update : Fields) (malicious : Bool) (now : ℕ) (found : Option Incident) (s : Flow)
    → Consistent s
    → Consistent (enrich_found t j update malicious now found s).1
unfolding enrich_found
enrich_found-Consistent t j update malicious now none s h = h
enrich_found-Consistent t j update malicious now (some i) s h =
    updated-IsConsistent j (enriched update malicious now) s.incidents s.active_incidents
      (unfold enriched in λ x. refl) (λ c x e. belongs-enriched c update malicious now x) h

pub store_verdict-Consistent :
    (t j : ℕ) (update : Fields) (malicious : Bool) (now : ℕ) (s : Flow)
    → Consistent s
    → Consistent (store_verdict t j update malicious now s).1
unfolding store_verdict
store_verdict-Consistent t j update malicious now s h =
    enrich_found-Consistent t j update malicious now (first (incident_is j) s.incidents) s h

known_rows-Consistent :
    (ip : String) (v : Verdict) (id now : ℕ) (rows : List ThreatIndicator) (s : Flow)
    → Consistent s
    → Consistent ((one_or_none rows >>= cache_found ip v id now) s).1
unfolding cache_found
known_rows-Consistent ip v id now [] s h = h
known_rows-Consistent ip v id now (a ∷ []) s h = h
known_rows-Consistent ip v id now (a ∷ b ∷ rest) s h = h

pub cache_indicator-Consistent :
    (ip : String) (v : Verdict) (id now : ℕ) (s : Flow)
    → Consistent s
    → Consistent (cache_indicator ip v id now s).1
unfolding cache_indicator
cache_indicator-Consistent ip v id now s h =
    known_rows-Consistent ip v id now (keep (indicator_is ip) s.indicators) s h

announced-Consistent :
    (t j : ℕ) (severity : Severity) (context : Fields) (now : ℕ) (found : Option String) (s : Flow)
    → Consistent s
    → Consistent ((or_raise found >>= announce t j severity context now) s).1
unfolding announce
announced-Consistent t j severity context now none s h = h
announced-Consistent t j severity context now (some a) s h = h

classify_found-Consistent :
    (t j : ℕ) (context : Fields) (now : ℕ) (severity : Severity) (found : Option Incident)
    (s : Flow)
    → Consistent s
    → Consistent (classify_found t j context now severity found s).1
unfolding classify_found classified belongs
classify_found-Consistent t j context now severity none s h = h
classify_found-Consistent t j context now severity (some i) s h =
    announced-Consistent t j severity context now (recommend_action i context) _ (
      updated-IsConsistent j (classified severity now) s.incidents s.active_incidents (λ x. refl)
        (λ c x e. refl) h)

scored-Consistent :
    (t j : ℕ) (context : Fields) (now : ℕ) (found : Option Severity) (s : Flow)
    → Consistent s
    → Consistent
        ((or_raise found >>= λ severity. gets (λ s. first (incident_is j) s.incidents) >>= λ row.
            classify_found t j context now severity row)
          s).1
scored-Consistent t j context now none s h = h
scored-Consistent t j context now (some severity) s h =
    classify_found-Consistent t j context now severity (first (incident_is j) s.incidents) s h

pub on_enriched_incident-Consistent :
    (t j : ℕ) (context : Fields) (now : ℕ) (s : Flow)
    → Consistent s
    → Consistent (on_enriched_incident t j context now s).1
unfolding on_enriched_incident
on_enriched_incident-Consistent t j context now s h =
    scored-Consistent t j context now (scored context) s h

-- A row that is no campaign's.
pub report_scan-Consistent :
    (i : Incident) (now : ℕ) (s : Flow)
    → ((c : Campaign) → continues c i ≡ false)
    → Consistent s
    → Consistent (report_scan i now s).1
unfolding report_scan
report_scan-Consistent i now s apart h = elim (Bool-cases (any (incident_is i.id) s.incidents)) [
  | inl taken ↦ rw taken h
  | inr free ↦ rw free (
      added-IsConsistent i s.incidents s.active_incidents free
        (λ c mine. absurd (ground (arith, apart c, mine))) h)
]

pub no_context :
    (c : Campaign) (i : Incident) → has_key "context" i.enrichment ≡ false → continues c i ≡ false
unfolding continues get_or get value_eq same_scalar
no_context c i missing = rw missing (ground arith)
