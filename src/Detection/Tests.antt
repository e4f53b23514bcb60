-- ===== src/Detection/Tests.antt =====
-- A brute-force campaign, for the theorems about backend/app/agents/detection.py.
use sentri_mesh_astra.Detection.LastValue.{get_last_value, implausible_distance, set_last_value}
use sentri_mesh_astra.Prelude.{
  ◌≡◌, refl, true, none, [], ◌∷◌, arith, leb, if◌then◌else◌, length, lookup, ok,
}
use sentri_mesh_astra.Detection.Geo.{distance_km}
use sentri_mesh_astra.Json.{get_or, get, has_key, entry, no_fields, text, num, truthy}
use sentri_mesh_astra.Window.{empty}
use sentri_mesh_astra.Window.Refinement.{Tracks-empty}
use sentri_mesh_astra.Detection.{start, settle, ongoing, Flow, Sighting, open_incident, cached}
use sentri_mesh_astra.Detection.Events.{
  compare_locations, resolve_country, check_impossible_travel, Outside, correlate_logins,
  record_failed_login, recent_failed_login_count, failed_sighting, success_sighting,
}
use sentri_mesh_astra.Json.{Fields}
use sentri_mesh_astra.Detection.Travel.{IsJudged, check_impossible_travel-IsJudged}
use sentri_mesh_astra.Detection.Campaigns.{restarted, open_incident_once}
use sentri_mesh_astra.Detection.Threshold.{Remembers, failures_at, correlate_logins_refines}

abbrev quiet : Flow
quiet = record {
  incidents = [];
  active_incidents = [];
  redis = λ k. empty;
  last_seen = λ k. none;
  indicators = [];
  bus = record { audit_log = []; delivered = [] };
}

abbrev sighting : Sighting
sighting = record {
  tenant_id = 1;
  title = "first";
  description = "";
  technique_key = "bruteforce_login";
  related_event_ids = 1 ∷ [];
  context = entry "src_ip" (text "203.0.113.9") no_fields;
  vendor_mitre_techniques = [];
}

abbrev sighting' : Sighting
sighting' = record sighting {
  title = "second";
  related_event_ids = 2 ∷ [];
  context = entry "src_ip" (text "203.0.113.9") (entry "failed_login_count" (num 6) no_fields);
}

open_incident_once_example :
    let s' = restarted true (open_incident sighting 3 10 quiet).1 in
    ((open_incident sighting' 4 20 s').0 ≡ ok tt)
    × (length (open_incident sighting' 4 20 s').1.incidents ≡ length s'.incidents)
    × ((open_incident sighting' 4 20 s').1.bus ≡ s'.bus)
unfolding get_or get has_key truthy cached
open_incident_once_example =
    open_incident_once sighting sighting' 3 4 10 20 true quiet (refl, refl, refl) refl refl refl

abbrev outside : Outside
outside = record {
  str = λ v. "";
  lookup_country = λ ip. none;
  haversine_km = λ a b c d. 0;
  travel_title = λ user a b. "";
  travel_description = λ user a b t u. "";
}

correlate_logins_refines_example :
    (let n = failures_at 5 (5 ∷ []) in
      let s' = (record_failed_login 1 "" 5 quiet).1 in
      Remembers 1 "" 5 (5 ∷ []) quiet s'
      × (correlate_logins outside 1 7 (text "login_failed") (text "203.0.113.9") [] 3 5 quiet ≡ (
          if leb 5 n
          then open_incident (failed_sighting outside 1 7 (text "203.0.113.9") [] n) 3 5 s'
          else (ok tt, s'))))
    × (let n = failures_at 5 [] in
        let s' = (recent_failed_login_count 1 "" 5 quiet).1 in
        Remembers 1 "" 5 [] quiet s'
        × (correlate_logins outside 1 7 (text "login_success") (text "203.0.113.9") [] 3 5 quiet ≡ (
            if leb 5 n
            then open_incident (success_sighting outside 1 7 (text "203.0.113.9") [] n) 3 5 s'
            else (ok tt, s'))))
unfolding truthy
correlate_logins_refines_example =
    correlate_logins_refines outside 1 7 (text "203.0.113.9") [] 3 0 5 [] quiet refl
      (Tracks-empty 600 0) (omega arith)

-- Texts print as they are, and any two countries are six thousand kilometres apart.
abbrev abroad : Outside
abroad = record outside {
  str = λ v. elim v [ text s ↦ s | _ ↦ "" ];
  haversine_km = λ a b c d. 6000;
}

abbrev home : Fields
home = entry "country" (text "US") no_fields

abbrev away : Fields
away = entry "country" (text "RU") (entry "src_ip" (text "203.0.113.9") no_fields)

check_impossible_travel-IsJudged_example :
    let s' = (check_impossible_travel abroad 1 (text "ana") home 1 3 100 quiet).1 in
    IsJudged abroad 1
      (text "ana")
      (text "US")
      100
      (text "RU")
      away
      2
      4
      640
      s'
      (check_impossible_travel abroad 1 (text "ana") away 2 4 640 s').1
unfolding check_impossible_travel resolve_country get truthy get_last_value compare_locations
    set_last_value
check_impossible_travel-IsJudged_example =
    check_impossible_travel-IsJudged abroad 1 (text "ana") home away 1 2 3 4 100 640 quiet
      (text "US") (text "RU") refl refl refl

-- The second of these sign-ins is reported.
travel_reported :
    let s' = (check_impossible_travel abroad 1 (text "ana") home 1 3 100 quiet).1 in
    length (check_impossible_travel abroad 1 (text "ana") away 2 4 640 s').1.incidents ≡ 1
unfolding check_impossible_travel resolve_country get get_or has_key truthy get_last_value
    compare_locations set_last_value implausible_distance distance_km lookup open_incident ongoing
    cached settle start
travel_reported = refl
