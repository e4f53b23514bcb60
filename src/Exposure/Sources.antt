-- ===== src/Exposure/Sources.antt =====
-- backend/app/connectors/exposure_scanner.py and vuln_scanner.py: how the answers of the search engine, of
-- OSV and of GitHub are read. A list or an object stands in every body where the code expects one.
use sentri_mesh_astra.Exposure.Scanner.{ExposureFinding}
use sentri_mesh_astra.Prelude.{
  ℕ, zero, suc, String, Option, none, some, List, [], ◌∷◌, map, ◌==◌, if◌then◌else◌, lookup, lower,
}
use sentri_mesh_astra.Json.{
  Value, Fields, no_fields, obj, arr, text, get, get_or, has_key, truthy, or_else, elements_list,
  list_elements,
}
use sentri_mesh_astra.ThreatFeed.Sources.{join}
use sentri_mesh_astra.Exposure.Advisories.{
  Advisory, SeverityEntry, osv_severity, github_ecosystem_map,
}

-- The status and the JSON of an HTTP response, or `none` for an exception that the query catches.
abbrev pub Reply : Type 0
Reply = Option (ℕ × Value)

abbrev dict : Value → Fields
dict (obj d) = d
dict _ = no_fields

abbrev items : Value → List Value
items (arr es) = elements_list es
items _ = []

abbrev as_text : Value → Option String
as_text (text s) = some s
as_text _ = none

-- `s[:n]`
abbrev prefix : ℕ → String → String
prefix zero s = ""
prefix (suc n) String.[] = ""
prefix (suc n) (String.◌∷◌ c s) = String.◌∷◌ c (prefix n s)

abbrev of_text : Value → String
of_text (text s) = s
of_text _ = ""

-- What a query makes of a response with status 200.
unfoldable pub on_200 : {A : Type 0} → (Value → A) → Reply → Option A
on_200 read none = none
on_200 read (some (status, body)) = if status == 200 then some (read body) else none

-- `float` of a score, in tenths, is `none` for an exception.
module _ (float : Value → Option ℕ) where
  abbrev severity_entry : Value → SeverityEntry
  severity_entry v = (
    of_text (get "type" (dict v)),
    if has_key "score" (dict v) then float (get "score" (dict v)) else none,
  )

  -- The dict that `_query_osv` makes of a vulnerability.
  unfoldable pub osv_advisory : Value → Advisory
  osv_advisory v = record {
    id = as_text (get "id" (dict v));
    summary =
        if truthy (get "summary" (dict v))
        then as_text (get "summary" (dict v))
        else some (prefix 200 (of_text (get_or "details" (text "") (dict v))));
    severity =
        osv_severity (map severity_entry (items (get "severity" (dict v))))
          (as_text (get "severity" (dict (get "database_specific" (dict v)))));
    source = "osv.dev";
    cve_id = none;
  }

  -- `_query_osv`
  unfoldable pub query_osv : Reply → Option (List Advisory)
  query_osv =
      on_200
        (λ body. map osv_advisory (items (get_or "vulns" (arr (list_elements [])) (dict body))))

-- The dict that `_query_github_advisories` makes of an advisory.
unfoldable pub github_advisory : Value → Advisory
github_advisory v = record {
  id = as_text (get "ghsa_id" (dict v));
  summary = as_text (get "summary" (dict v));
  severity = lower (of_text (or_else (get "severity" (dict v)) (text "unknown")));
  source = "github-advisory-database";
  cve_id = as_text (get "cve_id" (dict v));
}

-- `_query_github_advisories`: `ask` has GitHub's name of the ecosystem and the package's name.
unfoldable pub query_github_advisories :
    (String → String → Reply) → String → String → Option (List Advisory)
query_github_advisories ask ecosystem name = elim (lookup (lower ecosystem) github_ecosystem_map) [
  | none ↦ some []
  | some gh_ecosystem ↦ on_200 (λ body. map github_advisory (items body)) (ask gh_ecosystem name)
]

abbrev take_first : ℕ → List Value → List Value
take_first zero vs = []
take_first (suc n) [] = []
take_first (suc n) (v ∷ vs) = v ∷ take_first n vs

-- `str` prints a value in a text.
module _ (str : Value → String) where
  abbrev indexed_page : Value → ExposureFinding
  indexed_page result = record {
    check = "public-search-exposure";
    status = "warning";
    detail = join "" (
        "Google has indexed a page matching an exposure pattern: \""
        ∷ str (get_or "title" (text "") (dict result))
        ∷ "\" — "
        ∷ str (get_or "link" (text "") (dict result))
        ∷ " — "
        ∷ str (get_or "snippet" (text "") (dict result))
        ∷ []);
  }

  abbrev nothing_indexed : ExposureFinding
  nothing_indexed = record {
    check = "public-search-exposure";
    status = "ok";
    detail = "No indexed files or directory listings found for common exposure patterns.";
  }

  unfoldable pub indexed_findings : List Value → List ExposureFinding
  indexed_findings [] = nothing_indexed ∷ []
  indexed_findings (r ∷ rs) = map indexed_page (take_first 10 (r ∷ rs))

  -- `search_public_exposure`
  unfoldable pub search_public_exposure : Reply → List ExposureFinding
  search_public_exposure reply =
      elim (on_200 (λ body. items (get_or "organic_results" (arr (list_elements [])) (dict body)))
        reply) [ none ↦ [] | some results ↦ indexed_findings results ]

  -- What `on_scan_requested` adds: nothing without a key, for which there is no reply.
  unfoldable pub searched : Option Reply → List ExposureFinding
  searched none = []
  searched (some reply) = search_public_exposure reply
