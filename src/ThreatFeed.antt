-- ===== src/ThreatFeed.antt =====
-- backend/app/connectors/threat_feed.py: how the verdicts of the sources on an address are put together,
-- and which sources are asked.
pub mod Bodies
pub mod Sources
pub mod Aggregate
mod Tests
use sentri_mesh_astra.Prelude.{
  String, ◌<>◌, Bool, true, false, Option, none, some, List, [], ◌∷◌, map, str_eq, if◌then◌else◌,
  is_some, any, keep, lookup,
}
use sentri_mesh_astra.Json.{
  Value, Fields, get, get_or, merge, entry, no_fields, obj, arr, text, num, list_elements,
}
use sentri_mesh_astra.ThreatFeed.Bodies.{Reading, returns, caught, raises}
use sentri_mesh_astra.ThreatFeed.Sources.{
  Response, SourceResult, on_success, or_no_data, abuseipdb, virustotal, otx, greynoise, shodan,
  threatfox, join,
}

-- `per_source`: a source's name, with what its lookup returns, which is `None` for what it catches.
abbrev pub PerSource : Type 0
PerSource = List (String × Reading SourceResult)

abbrev pub reachable : PerSource → List (String × SourceResult)
reachable [] = []
reachable ((name, returns r) ∷ rest) = (name, r) ∷ reachable rest
reachable ((name, caught) ∷ rest) = reachable rest
reachable ((name, raises) ∷ rest) = reachable rest

-- A lookup that raises.
abbrev pub has_raised : Reading SourceResult → Bool
has_raised raises = true
has_raised _ = false

-- `verdict in {result["verdict"] …}`
abbrev pub says : String → List (String × SourceResult) → Bool
says verdict rs = any (λ r. str_eq r.1.verdict verdict) rs

unfoldable pub overall : List (String × SourceResult) → String
overall rs =
    if says "malicious" rs
    then "malicious"
    else if says "suspicious" rs
    then "suspicious"
    else if says "clean" rs
    then "clean"
    else "unknown"

abbrev score_of : String → Value
score_of verdict =
    num (if str_eq verdict "malicious" then 80 else if str_eq verdict "suspicious" then 40 else 0)

abbrev score_order : List String
score_order = "threatfox" ∷ "abuseipdb" ∷ "otx" ∷ "virustotal" ∷ "greynoise" ∷ "shodan" ∷ []

abbrev sources_of : List (String × SourceResult) → Fields
sources_of [] = no_fields
sources_of ((name, r) ∷ rs) =
    entry name
      (obj
        (merge (entry "verdict" (text r.verdict) (entry "detail" (text r.detail) no_fields)) r.raw))
      (sources_of rs)

abbrev verdict_of : String → Value → List String → String → Fields → Fields
verdict_of verdict score tags source sources = entry "verdict" (text verdict) (
    entry "score" score (
      entry "tags" (arr (list_elements (map text tags)))
        (entry "source" (text source) (entry "sources" (obj sources) no_fields))))

-- The three constants, and the one with the tags of `_aggregate`.
abbrev pub unknown_no_api_key : Fields
unknown_no_api_key = verdict_of "unknown" (num 0) ("no-source-configured" ∷ []) "none" no_fields

abbrev pub invalid_ip : Fields
invalid_ip = verdict_of "unknown" (num 0) ("invalid-ip" ∷ []) "none" no_fields

abbrev pub internal_network : Fields
internal_network = verdict_of "clean" (num 0) ("internal-network" ∷ []) "rfc1918" no_fields

abbrev pub unreachable : Fields
unreachable =
    verdict_of "unknown" (num 0) ("all-configured-sources-unreachable" ∷ []) "none" no_fields

-- `_aggregate`
unfoldable pub combined : List (String × SourceResult) → Fields
combined [] = unreachable
combined (r ∷ rs) =
    let all_sources = r ∷ rs in
    verdict_of (overall all_sources)
      (elim (lookup "abuseipdb" all_sources) [
        | none ↦ score_of (overall all_sources)
        | some a ↦ get_or "score" (num 0) a.raw
      ])
      (map (λ s. s.0 <> (": " <> s.1.detail)) all_sources)
      (join "," (keep (λ name. is_some (lookup name all_sources)) score_order))
      (sources_of all_sources)

unfoldable pub aggregate : PerSource → Fields
aggregate per_source = combined (reachable per_source)

module _ (str : Value → String) (parse_int : String → Option Value) where
  -- `_SOURCE_LOOKUPS`, in its order: the six lookups, each with the answer that it gets.
  abbrev pub source_lookups : (String → Response) → PerSource
  source_lookups answer =
      ("abuseipdb", on_success (abuseipdb str parse_int) (answer "abuseipdb"))
      ∷ ("virustotal", on_success (virustotal str parse_int) (answer "virustotal"))
      ∷ ("otx", on_success (otx str parse_int) (answer "otx"))
      ∷ (
        "greynoise",
        or_no_data "GreyNoise has no observations for this IP" (greynoise str parse_int)
            (answer "greynoise"),
      )
      ∷ (
        "shodan",
        or_no_data "Shodan has no data for this IP" (shodan str parse_int) (answer "shodan"),
      )
      ∷ ("threatfox", on_success (threatfox str parse_int) (answer "threatfox"))
      ∷ []

  -- `lookup_ip` behind the checks of the address, of the sources that have a key: `none` where one of the
  -- lookups raises, and with it `asyncio.gather`.
  unfoldable pub ask : PerSource → Option Fields
  ask [] = some unknown_no_api_key
  ask (s ∷ asked) =
      if any (λ r. has_raised r.1) (s ∷ asked) then none else some (aggregate (s ∷ asked))

  unfoldable pub lookup_with : (String → Bool) → (String → Response) → Option Bool → Option Fields
  lookup_with configured answer none = some invalid_ip
  lookup_with configured answer (some true) = some internal_network
  lookup_with configured answer (some false) =
      ask (keep (λ s. configured s.0) (source_lookups answer))

  -- `lookup_ip`: `internal` is what `ipaddress` says of the text, `none` for a `ValueError`, and
  -- `configured` says which sources have a key in the settings.
  unfoldable pub lookup_ip :
      (String → Option Bool) → (String → Bool) → (String → Response) → String → Option Fields
  lookup_ip internal configured answer ip = lookup_with configured answer (internal ip)
