-- ===== src/Exposure/Advisories.antt =====
-- backend/app/connectors/vuln_scanner.py: the known vulnerabilities of a package. A source's answer is its
-- list of advisories, or `none` for a status that is not 200 or an exception.
use sentri_mesh_astra.Prelude.{
  ℕ, String, Bool, false, not, ◌||◌, Option, none, some, List, [], ◌∷◌, ◌++◌, str_eq, leb,
  if◌then◌else◌, is_some, any, lower,
}
use sentri_mesh_astra.Bus.{Package}

-- A finding of either source; only those of GitHub have the key `cve_id`.
pub record Advisory : Type 0 where
  pub id : Option String
  pub summary : Option String
  pub severity : String
  pub source : String
  pub cve_id : Option String

-- An entry of OSV's `severity`: `type`, and what `float` makes of `score`, in tenths, `none` for a score
-- that is missing or a text like a CVSS vector.
abbrev pub SeverityEntry : Type 0
SeverityEntry = String × Option ℕ

-- The loop of `_osv_severity`: the first CVSS_V3 entry with a number decides.
unfoldable pub cvss_severity : List SeverityEntry → Option String
cvss_severity [] = none
cvss_severity ((kind, none) ∷ rest) = cvss_severity rest
cvss_severity ((kind, some score) ∷ rest) =
    if str_eq kind "CVSS_V3"
    then some (
        if leb 90 score
        then "critical"
        else if leb 70 score
        then "high"
        else if leb 40 score
        then "medium"
        else "low")
    else cvss_severity rest

-- `_osv_severity`, with the severity of `database_specific`.
unfoldable pub osv_severity : List SeverityEntry → Option String → String
osv_severity entries specific = elim (cvss_severity entries) [
  | some s ↦ s
  | none ↦ elim specific [ none ↦ "unknown" | some s ↦ if str_eq s "" then "unknown" else lower s ]
]

-- `_GITHUB_ECOSYSTEM_MAP`
abbrev pub github_ecosystem_map : List (String × String)
github_ecosystem_map =
    ("pypi", "pip")
    ∷ ("npm", "npm")
    ∷ ("go", "go")
    ∷ ("crates.io", "rust")
    ∷ ("maven", "maven")
    ∷ ("nuget", "nuget")
    ∷ ("rubygems", "rubygems")
    ∷ ("packagist", "composer")
    ∷ []

-- `x or y`, of texts that may be missing.
abbrev either : Option String → Option String → Option String
either none y = y
either (some x) y = if str_eq x "" then y else some x

-- `finding.get("cve_id") or finding.get("id")`
unfoldable pub key_of : Advisory → Option String
key_of a = either a.cve_id a.id

abbrev pub has_this_key : String → Advisory → Bool
has_this_key k a = elim (key_of a) [ none ↦ false | some j ↦ str_eq j k ]

abbrev keyed : Advisory → Bool
keyed a = elim (key_of a) [ none ↦ false | some j ↦ not (str_eq j "") ]

-- One turn of the loop that fills `deduped`, whose values so far are `seen`.
unfoldable pub with_new : Option String → List Advisory → Advisory → List Advisory
with_new none seen a = seen
with_new (some k) seen a = if str_eq k "" || any (has_this_key k) seen then seen else seen ++ a ∷ []

unfoldable pub deduped_onto : List Advisory → List Advisory → List Advisory
deduped_onto seen [] = seen
deduped_onto seen (a ∷ rest) = deduped_onto (with_new (key_of a) seen a) rest

abbrev pub or_none : Option (List Advisory) → List Advisory
or_none none = []
or_none (some xs) = xs

pub record PackageReport : Type 0 where
  pub checked : Package
  pub vulnerabilities : List Advisory
  pub sources_unreachable : List String

-- `check_package`, with the answers of the two sources.
unfoldable pub check_package :
    Package → Option (List Advisory) → Option (List Advisory) → PackageReport
check_package checked osv_result github_result = record {
  checked = checked;
  vulnerabilities = deduped_onto [] (or_none osv_result ++ or_none github_result);
  sources_unreachable =
      (if is_some osv_result then [] else "osv.dev" ∷ [])
      ++ (if is_some github_result then [] else "github-advisory-database" ∷ []);
}
