-- ===== src/Exposure/Tests.antt =====
-- Two sources that know of one vulnerability, and the scan that reports it.
use sentri_mesh_astra.Prelude.{
  ◌≤◌, String, ◌≡◌, refl, false, Option, none, some, [], ◌∷◌, ◌++◌, length, keep, first,
}
use sentri_mesh_astra.Exposure.Sources.{osv_advisory, on_200, query_osv}
use sentri_mesh_astra.Json.{truthy, has_key, get_or, get, no_fields}
use sentri_mesh_astra.Models.{Severity}
use sentri_mesh_astra.Bus.{Package}
use sentri_mesh_astra.System.{incident_is}
use sentri_mesh_astra.Window.{empty}
use sentri_mesh_astra.Detection.{Flow}
use sentri_mesh_astra.Pipeline.{Verdict, classified, enriched}
use sentri_mesh_astra.Exposure.Advisories.{
  cvss_severity, osv_severity, Advisory, PackageReport, check_package, has_this_key, key_of,
  deduped_onto, with_new,
}
use sentri_mesh_astra.Exposure.Deduplication.{check_package-deduplicates}
use sentri_mesh_astra.Exposure.{
  text, list_elements, arr, entry, obj, Value, dependency_incident, worst_severity,
}
use sentri_mesh_astra.Exposure.Worst.{worst_found}
use sentri_mesh_astra.Exposure.Severities.{
  scanned, enriched_after, classified_after, scan_severity_lost,
}

abbrev requests : Package
requests = record { ecosystem = "PyPI"; name = "requests"; version = "2.0" }

abbrev of_osv : Advisory
of_osv = record {
  id = some "CVE-2024-1";
  summary = none;
  severity = "critical";
  source = "osv.dev";
  cve_id = none;
}

abbrev of_github : Advisory
of_github = record {
  id = some "GHSA-1";
  summary = none;
  severity = "high";
  source = "github-advisory-database";
  cve_id = some "CVE-2024-1";
}

abbrev report : PackageReport
report = check_package requests (some (of_osv ∷ [])) (some (of_github ∷ []))

check_package-deduplicates_example :
    (first (has_this_key "CVE-2024-1") report.vulnerabilities
      ≡ first (has_this_key "CVE-2024-1") (of_osv ∷ [] ++ of_github ∷ []))
    × (length (keep (has_this_key "CVE-2024-1") report.vulnerabilities) ≤ 1)
check_package-deduplicates_example =
    check_package-deduplicates "CVE-2024-1" requests (some (of_osv ∷ [])) (some (of_github ∷ []))
      refl

-- The advisory GHSA-1 as OSV has it, which gives no CVE.
abbrev same_of_osv : Advisory
same_of_osv = record of_osv { id = some "GHSA-1" }

-- The same advisory from both sources has two keys, and both findings stay.
same_advisory_twice :
    (check_package requests (some (same_of_osv ∷ [])) (some (of_github ∷ []))).vulnerabilities
    ≡ same_of_osv ∷ of_github ∷ []
unfolding check_package deduped_onto with_new key_of
same_advisory_twice = refl

abbrev quiet : Flow
quiet = record {
  incidents = [];
  active_incidents = [];
  redis = λ k. empty;
  last_seen = λ k. none;
  indicators = [];
  bus = record { audit_log = []; delivered = [] };
}

abbrev unknown : String → Option Verdict
unknown ip = some (record { verdict = "unknown"; score = 0; details = no_fields })

scan_severity_lost_example :
    let i = dependency_incident (λ v. "") 1 (report ∷ []) 3 10 in
    let s₁ = scanned (λ v. "") 1 (report ∷ []) 3 10 quiet in
    let s₂ = enriched_after unknown 1 3 11 s₁ in
    let s₃ = classified_after 1 3 i 12 s₂ in
    (first (incident_is 3) s₁.incidents ≡ some i)
    × (i.severity ≡ worst_found (report ∷ []))
    × (first (incident_is 3) s₃.incidents
        ≡ some (classified Severity.low 12 (enriched no_fields false 11 i)))
scan_severity_lost_example =
    scan_severity_lost (λ v. "") unknown 1 3 10 11 12 (report ∷ []) quiet refl

worst_severity_run : worst_severity (report ∷ []) ≡ Severity.critical
unfolding worst_severity check_package deduped_onto with_new key_of
worst_severity_run = refl

-- An OSV body with one vulnerability, whose score stands in for the CVSS vector.
abbrev osv_body : Value
osv_body = obj (
    entry "vulns"
      (arr (
        list_elements
          (obj (entry "id" (text "GHSA-1") (entry "details" (text "A flaw") no_fields)) ∷ [])))
      no_fields)

query_osv_reads :
    query_osv (λ v. none) (some (200, osv_body))
    ≡ some (
        record {
          id = some "GHSA-1";
          summary = some "A flaw";
          severity = "unknown";
          source = "osv.dev";
          cve_id = none;
        }
        ∷ [])
unfolding query_osv on_200 osv_advisory osv_severity cvss_severity get get_or has_key truthy
query_osv_reads = refl

query_osv_fails : query_osv (λ v. none) (some (500, osv_body)) ≡ none
unfolding query_osv on_200
query_osv_fails = refl
