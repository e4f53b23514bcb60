-- ===== src/ThreatFeed/Tests.antt =====
-- Answers of two sources, for the theorems about backend/app/connectors/threat_feed.py.
use sentri_mesh_astra.Prelude.{
  max, String, ◌≡◌, refl, Bool, true, false, not, ◌&&◌, none, some, [], ◌∷◌, ◌++◌, str_eq, any,
}
use sentri_mesh_astra.Json.{get, Fields, get_or, has_key, null, num, obj, entry, no_fields}
use sentri_mesh_astra.ThreatFeed.Sources.{
  Response, SourceResult, on_success, otx, abuseipdb, pulses_result,
}
use sentri_mesh_astra.ThreatFeed.{
  source_lookups, lookup_ip, lookup_with, ask, aggregate, combined, overall,
}
use sentri_mesh_astra.ThreatFeed.Aggregate.{
  verdict_rank, accuses, overall-append, lookup_ip-malicious,
}

abbrev result : String → SourceResult
result verdict = record { verdict = verdict; detail = ""; raw = no_fields }

overall-append_example :
    verdict_rank (overall (("otx", result "clean") ∷ [] ++ ("shodan", result "suspicious") ∷ []))
    ≡ max
        (verdict_rank (overall (("otx", result "clean") ∷ [])))
        (verdict_rank (overall (("shodan", result "suspicious") ∷ [])))
overall-append_example =
    overall-append (("otx", result "clean") ∷ []) (("shodan", result "suspicious") ∷ [])

-- OTX has the address in three pulses.
abbrev answer : String → Response
answer name =
    some (200, some (obj (entry "pulse_info" (obj (entry "count" (num 3) no_fields)) no_fields)))

abbrev only_otx : String → Bool
only_otx name = str_eq name "otx"

abbrev found_by_otx : Fields
found_by_otx = combined (("otx", pulses_result (λ v. "") (λ s. none) (num 3)) ∷ [])

asked_otx :
    lookup_ip (λ v. "") (λ s. none) (λ ip. some false) only_otx answer "203.0.113.9"
    ≡ some found_by_otx
unfolding lookup_ip lookup_with ask aggregate on_success otx get_or has_key get
asked_otx = refl

-- A body without a dict under `data`, which AbuseIPDB's lookup cannot read.
raising_run :
    lookup_ip
      (λ v. "")
      (λ s. none)
      (λ ip. some false)
      (λ name. str_eq name "abuseipdb")
      (λ name. some (200, some (obj (entry "data" null no_fields))))
      "203.0.113.9"
    ≡ none
unfolding lookup_ip lookup_with ask on_success abuseipdb get_or has_key get
raising_run = refl

lookup_ip-malicious_example :
    (some false ≡ some false)
    × (any
          (λ s. only_otx s.0 && (not (str_eq s.0 "shodan") && accuses s.1))
          (source_lookups (λ v. "") (λ s. none) answer)
        ≡ true)
unfolding get combined overall
lookup_ip-malicious_example =
    lookup_ip-malicious (λ v. "") (λ s. none) (λ ip. some false) only_otx answer "203.0.113.9"
      found_by_otx asked_otx refl
