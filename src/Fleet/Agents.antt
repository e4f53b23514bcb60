-- ===== src/Fleet/Agents.antt =====
-- How many messages each handler of backend/app/agents publishes at most.
use sentri_mesh_astra.Exposure.Scanner.{ExposureFinding, ExposureReport}
use sentri_mesh_astra.Prelude.{
  ℕ, String, inl, inr, Bool, true, false, Option, none, some, List, arith, str_eq, if◌then◌else◌,
  Bool-cases, any, keep, first, gets, raise, ◌>>=◌, ok, err, exception,
}
use sentri_mesh_astra.Json.{
  Value, Fields, obj, arr, bool, num, negative, null, text, entry, no_fields, truthy, get,
}
use sentri_mesh_astra.Models.{Severity, ThreatIndicator, Incident}
use sentri_mesh_astra.Bus.{Message, RawEvent}
use sentri_mesh_astra.System.{incident_is}
use sentri_mesh_astra.Formats.{Parsed, normalize_for_connector_type}
use sentri_mesh_astra.Intake.{store_event, on_raw_event, normalize, type_of}
use sentri_mesh_astra.Pipeline.{
  cache_found, indicator_is, recommend_action, scored, or_raise, announce, enrich_verdict, Verdict,
  enrich_found, store_verdict, cache_indicator, enrich_with, on_new_incident, classify_found,
  on_enriched_incident, flagged,
}
use sentri_mesh_astra.Exposure.{report_scan, on_scan_requested, on_dependency_scan_requested}
use sentri_mesh_astra.Exposure.Advisories.{PackageReport}
use sentri_mesh_astra.Fleet.Load.{
  one_or_none-Adds, Adds, bind-Adds, intake_load, flow_load, bus_load-publish,
}

store_event-Adds :
    (e : RawEvent) (id now : ℕ) (parsed : Parsed)
    → Adds intake_load 13 (store_event e id now parsed)
unfolding store_event
store_event-Adds e id now (err _) s = omega arith
store_event-Adds e id now (ok n) s = omega (
  arith,
  bus_load-publish "integration" (some e.tenant_id)
      (Message.normalized_event e.tenant_id id (normalize (type_of e) e.source e.content n)) now
      s.bus,
)

pub on_raw_event-Adds :
    (str : Value → String) (e : RawEvent) (id now : ℕ)
    → Adds intake_load 13 (on_raw_event str e id now)
unfolding on_raw_event
on_raw_event-Adds str e id now =
    store_event-Adds e id now (normalize_for_connector_type str (type_of e) e.event_type e.content)

enrich_found-Adds :
    (tenant_id k : ℕ) (update : Fields) (malicious : Bool) (now : ℕ) (found : Option Incident)
    → Adds flow_load 5 (enrich_found tenant_id k update malicious now found)
unfolding enrich_found
enrich_found-Adds tenant_id k update malicious now none s = omega arith
enrich_found-Adds tenant_id k update malicious now (some i) s = omega (
  arith,
  bus_load-publish "threat_intel" (some tenant_id)
      (Message.incident_enriched tenant_id k (flagged malicious i)) now s.bus,
)

store_verdict-Adds :
    (tenant_id k : ℕ) (update : Fields) (malicious : Bool) (now : ℕ)
    → Adds flow_load 5 (store_verdict tenant_id k update malicious now)
unfolding store_verdict
store_verdict-Adds tenant_id k update malicious now s =
    enrich_found-Adds tenant_id k update malicious now _ s

cache_found-Adds :
    (ip : String) (v : Verdict) (id now : ℕ) (known : Option ThreatIndicator)
    → Adds flow_load 0 (cache_found ip v id now known)
unfolding cache_found
cache_found-Adds ip v id now none s = omega arith
cache_found-Adds ip v id now (some _) s = omega arith

cache_indicator-Adds :
    (ip : String) (v : Verdict) (id now : ℕ) → Adds flow_load 0 (cache_indicator ip v id now)
unfolding cache_indicator
cache_indicator-Adds ip v id now s =
    one_or_none-Adds flow_load 0 (keep (indicator_is ip) s.indicators) (cache_found ip v id now)
      (cache_found-Adds ip v id now) s

unread-Adds :
    (b : Bool) (tenant_id k now : ℕ)
    → Adds flow_load 5
        (if b then raise exception else store_verdict tenant_id k no_fields false now)
unread-Adds true tenant_id k now s = omega arith
unread-Adds false tenant_id k now s = store_verdict-Adds tenant_id k no_fields false now s

enrich_verdict-Adds :
    (found : Option Verdict) (tenant_id k id now : ℕ) (ip : String)
    → Adds flow_load 5 (enrich_verdict found tenant_id k id now ip)
unfolding enrich_verdict
enrich_verdict-Adds none tenant_id k id now ip s = omega arith
enrich_verdict-Adds (some v) tenant_id k id now ip s =
    let update = entry "ip_reputation" (obj (entry ip (obj v.details) no_fields)) no_fields in
    let malicious = str_eq v.verdict "malicious" in
    bind-Adds flow_load 0 5 (cache_indicator ip v id now)
      (λ _. store_verdict tenant_id k update malicious now) (cache_indicator-Adds ip v id now)
      (λ _. store_verdict-Adds tenant_id k update malicious now) s

address-Adds :
    (empty : Bool) (found : Option Verdict) (tenant_id k id now : ℕ) (ip : String)
    → Adds flow_load 5 (
        if empty
        then store_verdict tenant_id k no_fields false now
        else enrich_verdict found tenant_id k id now ip)
address-Adds true found tenant_id k id now ip s =
    store_verdict-Adds tenant_id k no_fields false now s
address-Adds false found tenant_id k id now ip s = enrich_verdict-Adds found tenant_id k id now ip s

enrich_with-Adds :
    (lookup_ip : String → Option Verdict) (tenant_id k id now : ℕ) (v : Value)
    → Adds flow_load 5 (enrich_with lookup_ip tenant_id k id now v)
unfolding enrich_with
enrich_with-Adds lookup_ip tenant_id k id now (text ip) =
    address-Adds (str_eq ip "") (lookup_ip ip) tenant_id k id now ip
enrich_with-Adds lookup_ip tenant_id k id now (obj d) = unread-Adds (truthy (obj d)) tenant_id k now
enrich_with-Adds lookup_ip tenant_id k id now (arr d) = unread-Adds (truthy (arr d)) tenant_id k now
enrich_with-Adds lookup_ip tenant_id k id now (bool d) =
    unread-Adds (truthy (bool d)) tenant_id k now
enrich_with-Adds lookup_ip tenant_id k id now (num d) = unread-Adds (truthy (num d)) tenant_id k now
enrich_with-Adds lookup_ip tenant_id k id now (negative d) =
    unread-Adds (truthy (negative d)) tenant_id k now
enrich_with-Adds lookup_ip tenant_id k id now null = unread-Adds (truthy null) tenant_id k now

pub on_new_incident-Adds :
    (lookup_ip : String → Option Verdict) (tenant_id k : ℕ) (context : Fields) (id now : ℕ)
    → Adds flow_load 5 (on_new_incident lookup_ip tenant_id k context id now)
unfolding on_new_incident
on_new_incident-Adds lookup_ip tenant_id k context id now =
    enrich_with-Adds lookup_ip tenant_id k id now (get "src_ip" context)

announced-Adds :
    (tenant_id k : ℕ) (severity : Severity) (context : Fields) (now : ℕ) (found : Option String)
    → Adds flow_load 4 (or_raise found >>= announce tenant_id k severity context now)
unfolding announce
announced-Adds tenant_id k severity context now none s = omega arith
announced-Adds tenant_id k severity context now (some a) s = omega (
  arith,
  bus_load-publish "orchestrator" (some tenant_id)
      (Message.incident_classified tenant_id k severity (some a) context) now s.bus,
)

classify_found-Adds :
    (tenant_id k : ℕ) (context : Fields) (now : ℕ) (severity : Severity) (found : Option Incident)
    → Adds flow_load 4 (classify_found tenant_id k context now severity found)
unfolding classify_found
classify_found-Adds tenant_id k context now severity none s = omega arith
classify_found-Adds tenant_id k context now severity (some i) s =
    announced-Adds tenant_id k severity context now (recommend_action i context) _

scored-Adds :
    (tenant_id k : ℕ) (context : Fields) (now : ℕ) (found : Option Severity)
    → Adds flow_load 4 (
        or_raise found >>= λ severity. gets (λ s. first (incident_is k) s.incidents) >>= λ row.
        classify_found tenant_id k context now severity row)
scored-Adds tenant_id k context now none s = omega arith
scored-Adds tenant_id k context now (some severity) s =
    classify_found-Adds tenant_id k context now severity _ s

pub on_enriched_incident-Adds :
    (tenant_id k : ℕ) (context : Fields) (now : ℕ)
    → Adds flow_load 4 (on_enriched_incident tenant_id k context now)
unfolding on_enriched_incident
on_enriched_incident-Adds tenant_id k context now =
    scored-Adds tenant_id k context now (scored context)

report_scan-Adds : (i : Incident) (now : ℕ) → Adds flow_load 6 (report_scan i now)
unfolding report_scan
report_scan-Adds i now s = elim (Bool-cases (any (incident_is i.id) s.incidents)) [
  | inl taken ↦ rw taken (omega arith)
  | inr free ↦ rw free (
      omega (
        arith,
        bus_load-publish "exposure" (some i.tenant_id)
            (Message.incident_new i.tenant_id i.id no_fields) now s.bus,
      ))
]

pub on_scan_requested-Adds :
    (str : Value → String) (tenant_id : ℕ) (r : ExposureReport) (found : List ExposureFinding)
    (id now : ℕ)
    → Adds flow_load 6 (on_scan_requested str tenant_id r found id now)
unfolding on_scan_requested
on_scan_requested-Adds str tenant_id r found id now s = report_scan-Adds _ now s

pub on_dependency_scan_requested-Adds :
    (str : Value → String) (tenant_id : ℕ) (results : List PackageReport) (id now : ℕ)
    → Adds flow_load 6 (on_dependency_scan_requested str tenant_id results id now)
unfolding on_dependency_scan_requested
on_dependency_scan_requested-Adds str tenant_id results id now s = report_scan-Adds _ now s
