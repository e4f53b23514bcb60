-- ===== src/Exposure.antt =====
-- backend/app/agents/exposure.py: scans of a tenant's own domain and dependencies, and the incidents that they
-- open. Scanner and Sources have exposure_scanner.py, Advisories and Sources vuln_scanner.py.
pub mod Advisories
pub mod Sources
pub mod Scanner
pub mod Deduplication
pub mod Worst
pub mod Severities
mod Tests
use sentri_mesh_astra.Exposure.Scanner.{ExposureFinding, ExposureReport}
use sentri_mesh_astra.Prelude.{
  ℕ, max, String, ◌<>◌, Bool, true, false, Option, none, some, List, [], ◌∷◌, ◌++◌, map, str_eq,
  ◌==◌, if◌then◌else◌, length, any, keep, gets, modify, raise_if, ◌>>=◌, ◌>>◌, upper, exception,
}
use sentri_mesh_astra.Json.{
  Value, Fields, no_fields, entry, obj, arr, text, bool, null, list_elements, num,
}
use sentri_mesh_astra.Models.{Incident, IncidentStatus, Severity}
use sentri_mesh_astra.Bus.{Message, publish}
use sentri_mesh_astra.System.{incident_is}
use sentri_mesh_astra.Detection.{Flow, Act}
use sentri_mesh_astra.ThreatFeed.Sources.{join}
use sentri_mesh_astra.Exposure.Advisories.{Advisory, PackageReport}

abbrev is_warning : ExposureFinding → Bool
is_warning f = str_eq f.status "warning"

abbrev pub some_of : {A : Type 0} → List A → Bool
some_of [] = false
some_of (x ∷ xs) = true

abbrev lines : List String → String
lines ls = join "\n" ls

-- The incident of a scan, which is closed at once if it has found nothing.
abbrev pub scan_incident : ℕ → String → String → Severity → Bool → Fields → ℕ → ℕ → Incident
scan_incident tenant_id title description severity found enrichment id now = record {
  id = id;
  tenant_id = tenant_id;
  title = title;
  description = description;
  severity = severity;
  status = if found then IncidentStatus.open_ else IncidentStatus.resolved;
  mitre_techniques = [];
  related_event_ids = [];
  enrichment = enrichment;
  created_at = now;
  updated_at = now;
}

-- The row and its message on `incidents.new`, whose context is empty.
unfoldable pub report_scan : Incident → ℕ → Act Unit
report_scan i now = do
  taken ← gets (λ s. any (incident_is i.id) s.incidents)
  raise_if taken exception
  modify (λ s. record s {
    incidents = s.incidents ++ i ∷ [];
    bus =
        publish "exposure" (some i.tenant_id) (Message.incident_new i.tenant_id i.id no_fields) now
          s.bus;
  })

abbrev finding_fields : ExposureFinding → Value
finding_fields f = obj (
    entry "check" (text f.check)
      (entry "status" (text f.status) (entry "detail" (text f.detail) no_fields)))

-- `rank.get(…, 1)` of `_worst_severity`
abbrev pub rank : String → ℕ
rank s =
    if str_eq s "critical"
    then 4
    else if str_eq s "high"
    then 3
    else if str_eq s "medium"
    then 2
    else 1

abbrev pub worst_of : List Advisory → ℕ
worst_of [] = 0
worst_of (a ∷ rest) = max (rank a.severity) (worst_of rest)

abbrev pub worst_rank : List PackageReport → ℕ
worst_rank [] = 0
worst_rank (r ∷ rest) = max (worst_of r.vulnerabilities) (worst_rank rest)

-- `_worst_severity`
unfoldable pub worst_severity : List PackageReport → Severity
worst_severity rs =
    let worst = worst_rank rs in
    if worst == 4
    then Severity.critical
    else if worst == 3
    then Severity.high
    else if worst == 2
    then Severity.medium
    else Severity.low

abbrev pub vulnerable : PackageReport → Bool
vulnerable r = some_of r.vulnerabilities

abbrev optional : Option String → Value
optional none = null
optional (some s) = text s

abbrev advisory_fields : Advisory → Value
advisory_fields a = obj (
    entry "id" (optional a.id) (
      entry "summary" (optional a.summary) (
        entry "severity" (text a.severity) (
          entry "source" (text a.source) (
            if str_eq a.source "osv.dev"
            then no_fields
            else entry "cve_id" (optional a.cve_id) no_fields)))))

abbrev report_fields : PackageReport → Value
report_fields r = obj (
    entry "ecosystem" (text r.checked.ecosystem) (
      entry "name" (text r.checked.name) (
        entry "version" (text r.checked.version) (
          entry "vulnerabilities" (arr (list_elements (map advisory_fields r.vulnerabilities))) (
            entry "sources_unreachable" (arr (list_elements (map text r.sources_unreachable)))
              no_fields)))))

-- `str` is Python's `str` of a number or of `None`.
module _ (str : Value → String) where
  -- `on_scan_requested`, with the report and what the search found.
  unfoldable pub on_scan_requested : ℕ → ExposureReport → List ExposureFinding → ℕ → ℕ → Act Unit
  on_scan_requested tenant_id report searched id now =
      let findings = report.findings ++ searched in
      let warnings = keep is_warning findings in
      report_scan
        (scan_incident tenant_id
          ("Exposure scan: "
            <> (report.domain <> (" (" <> (str (num (length warnings)) <> " finding(s))"))))
          (lines (
            ("Exposure scan of " <> (report.domain <> ":"))
            ∷ map (λ f. "- [" <> (upper f.status <> ("] " <> (f.check <> (": " <> f.detail)))))
                findings))
          (if some_of warnings then Severity.medium else Severity.low) (some_of warnings)
          (entry "exposure_findings" (arr (list_elements (map finding_fields findings)))
            (entry "reachable" (bool report.reachable) no_fields))
          id now)
        now

  abbrev advisory_line : PackageReport → Advisory → String
  advisory_line r a =
      "- ["
      <> (upper a.severity
          <> ("] "
              <> (r.checked.name
                  <> ("@"
                      <> (r.checked.version
                          <> (": "
                              <> (str (optional a.id)
                                  <> (" — " <> (elim a.summary [
                                    | none ↦ "no summary available"
                                    | some s ↦ if str_eq s "" then "no summary available" else s
                                  ])))))))))

  abbrev advisory_lines : List PackageReport → List String
  advisory_lines [] = []
  advisory_lines (r ∷ rest) = map (advisory_line r) r.vulnerabilities ++ advisory_lines rest

  abbrev dependency_description : List PackageReport → String
  dependency_description results = lines (
      ("Dependency scan of " <> (str (num (length results)) <> " package(s):"))
      ∷ (advisory_lines (keep vulnerable results)
          ++ (if some_of (keep vulnerable results)
              then []
              else "No known vulnerabilities found in any submitted package." ∷ [])))

  abbrev pub dependency_incident : ℕ → List PackageReport → ℕ → ℕ → Incident
  dependency_incident tenant_id results id now =
      scan_incident tenant_id
        ("Dependency scan: "
          <> (str (num (length (keep vulnerable results)))
              <> (" vulnerable package(s) of " <> (str (num (length results)) <> " checked"))))
        (dependency_description results) (worst_severity (keep vulnerable results))
        (some_of (keep vulnerable results))
        (entry "dependency_findings" (arr (list_elements (map report_fields results))) no_fields) id
        now

  -- `on_dependency_scan_requested`, with the reports of `check_package` on the packages, in order.
  unfoldable pub on_dependency_scan_requested : ℕ → List PackageReport → ℕ → ℕ → Act Unit
  on_dependency_scan_requested tenant_id results id now =
      report_scan (dependency_incident tenant_id results id now) now
