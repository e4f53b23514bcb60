-- ===== src/Detection/Events.antt =====
-- The handler of backend/app/agents/detection.py for normalized events.
use sentri_mesh_astra.Detection.LastValue.{
  cannot_look_up, get_last_value, implausible_distance, set_last_value,
}
use sentri_mesh_astra.Prelude.{
  ℕ, ◌+◌, ◌-◌, ◌*◌, ◌/◌, ◌%◌, String, ◌<>◌, Bool, true, false, not, ◌&&◌, Option, none, some, List,
  [], ◌∷◌, str_eq, ltb, leb, if◌then◌else◌, gets, pure, raise_if, ◌>>=◌, ◌>>◌, ok, exception,
}
use sentri_mesh_astra.Json.{
  Value, Fields, no_fields, no_elements, entry, get, get_or, has_key, truthy, or_else, text, num,
  bool, obj, arr,
}
use sentri_mesh_astra.Detection.Geo.{Degrees, distance_km}
use sentri_mesh_astra.Models.{Key}
use sentri_mesh_astra.Window.{record_and_count, count_without_recording}
use sentri_mesh_astra.Detection.{
  Place, is_hashable, LastSeen, Sighting, Act, dict, items, open_incident, failed_login_window,
  failed_login_threshold,
}

-- What the handler takes from outside: Python's `str` of a value, the country that ipinfo.io returns
-- for an address, the great-circle distance between two points in whole kilometres, and the prose of the
-- travel incident, which prints times and speeds.
pub record Outside : Type 0 where
  pub str : Value → String
  pub lookup_country : String → Option String
  pub haversine_km : Degrees → Degrees → Degrees → Degrees → ℕ
  pub travel_title : Value → String → String → String
  pub travel_description : Value → String → String → ℕ → ℕ → String

-- `round` of a quotient of natural numbers: half-way to the even neighbour.
abbrev pub rounded : ℕ → ℕ → ℕ
rounded n d =
    let q = n / d in
    let twice = 2 * (n % d) in if ltb twice d then q else if ltb d twice then q + 1 else q + q % 2

abbrev pub text_is : String → Value → Bool
text_is s (text t) = str_eq t s
text_is s _ = false

-- `_recent_failed_login_count` and `_record_failed_login`
unfoldable pub record_failed_login : ℕ → String → ℕ → Act ℕ
record_failed_login tenant_id ip now s =
    let (redis, n) =
      record_and_count s.redis (Key.failed_logins tenant_id ip) failed_login_window now in
    (ok n, record s { redis = redis })

unfoldable pub recent_failed_login_count : ℕ → String → ℕ → Act ℕ
recent_failed_login_count tenant_id ip now s =
    let (redis, n) =
      count_without_recording s.redis (Key.failed_logins tenant_id ip) failed_login_window now in
    (ok n, record s { redis = redis })

module _ (outside : Outside) where
  -- `_vendor_description`
  unfoldable pub vendor_description : Fields → String → Value
  vendor_description normalized fallback =
      or_else
        (get "rule_description" (dict (or_else (get "vendor_detail" normalized) (obj no_fields))))
        (or_else (get "description" (dict (get_or "raw" (obj no_fields) normalized)))
          (text fallback))

  -- `_resolve_country`
  unfoldable pub resolve_country : Fields → Option Value
  resolve_country normalized =
      if truthy (get "country" normalized)
      then some (get "country" normalized)
      else if truthy (get "src_ip" normalized)
      then (elim (outside.lookup_country (outside.str (get "src_ip" normalized))) [
        | none ↦ none
        | some country ↦ if str_eq country "" then none else some (text country)
      ])
      else none

  abbrev pub place_of : Value → Place
  place_of country = record { name = outside.str country; hashable = is_hashable country }

  abbrev pub travel_sighting : ℕ → Value → Value → ℕ → LastSeen → Place → ℕ → ℕ → Sighting
  travel_sighting tenant_id user src_ip event_id last country km now = record {
    tenant_id = tenant_id;
    title = outside.travel_title user last.country.name country.name;
    description = outside.travel_description user last.country.name country.name last.timestamp now;
    technique_key = "impossible_travel";
    related_event_ids = event_id ∷ [];
    context = entry "src_ip" src_ip (
        entry "user" user (
          entry "impossible_travel" (bool true) (
            entry "from_country" (text last.country.name) (
              entry "to_country" (text country.name) (
                entry "implied_speed_kmh" (num (rounded (km * 3600) (now - last.timestamp)))
                  no_fields)))));
    vendor_mitre_techniques = [];
  }

  -- The comparison of `_check_impossible_travel` with the last sign-in.
  unfoldable pub compare_locations :
      ℕ → Value → Value → ℕ → Place → ℕ → ℕ → Option LastSeen → Act Unit
  compare_locations tenant_id user src_ip event_id country id now none = pure tt
  compare_locations tenant_id user src_ip event_id country id now (some last) =
      raise_if (cannot_look_up last.country country (now - last.timestamp)) exception
      >> elim (implausible_distance (distance_km outside.haversine_km) last.country.name
            country.name (now - last.timestamp))
          as (λ _. Act Unit) [
            | none ↦ pure tt
            | some km ↦
                open_incident (travel_sighting tenant_id user src_ip event_id last country km now)
                  id now
          ]

  -- `_check_impossible_travel`
  unfoldable pub check_impossible_travel : ℕ → Value → Fields → ℕ → ℕ → ℕ → Act Unit
  check_impossible_travel tenant_id user normalized event_id id now =
      elim (resolve_country normalized) [
        | none ↦ pure tt
        | some country ↦
            let key = Key.last_login_location tenant_id (outside.str user) in
            do
              last ← gets (get_last_value key now)
              compare_locations tenant_id user (get "src_ip" normalized) event_id (place_of country)
                  id now last
              set_last_value key (place_of country) now
      ]

  abbrev failures_context : Value → ℕ → Fields
  failures_context src_ip count =
      entry "src_ip" src_ip (entry "failed_login_count" (num count) no_fields)

  abbrev pub failed_sighting : ℕ → ℕ → Value → List Value → ℕ → Sighting
  failed_sighting tenant_id event_id src_ip vendor count = record {
    tenant_id = tenant_id;
    title = "Repeated failed logins from " <> outside.str src_ip;
    description =
        outside.str (num count)
        <> (" failed login attempts from "
            <> (outside.str src_ip <> (" within " <> (outside.str (num 10) <> " minutes."))));
    technique_key = "bruteforce_login";
    related_event_ids = event_id ∷ [];
    context = failures_context src_ip count;
    vendor_mitre_techniques = vendor;
  }

  abbrev pub success_sighting : ℕ → ℕ → Value → List Value → ℕ → Sighting
  success_sighting tenant_id event_id src_ip vendor count =
      record (failed_sighting tenant_id event_id src_ip vendor count) {
        title = "Successful login from " <> (outside.str src_ip <> " after repeated failures");
        description =
            "Login succeeded from "
            <> (outside.str src_ip
                <> (" after "
                    <> (outside.str (num count)
                        <> " prior failed attempts in the same window — consistent with a successful credential attack.")));
      }

  -- The first branch of `on_normalized_event`.
  unfoldable pub correlate_logins : ℕ → ℕ → Value → Value → List Value → ℕ → ℕ → Act Unit
  correlate_logins tenant_id event_id event_type src_ip vendor id now =
      if text_is "login_failed" event_type && truthy src_ip
      then (record_failed_login tenant_id (outside.str src_ip) now >>= λ count.
          if leb failed_login_threshold count
          then open_incident (failed_sighting tenant_id event_id src_ip vendor count) id now
          else pure tt)
      else if text_is "login_success" event_type && truthy src_ip
      then (recent_failed_login_count tenant_id (outside.str src_ip) now >>= λ count.
          if leb failed_login_threshold count
          then open_incident (success_sighting tenant_id event_id src_ip vendor count) id now
          else pure tt)
      else pure tt

  abbrev pub escalation_sighting : ℕ → ℕ → Value → List Value → Fields → Sighting
  escalation_sighting tenant_id event_id src_ip vendor normalized = record {
    tenant_id = tenant_id;
    title = "Unexpected privilege escalation detected";
    description =
        outside.str (vendor_description normalized "A user or process gained elevated privileges.");
    technique_key = "privilege_escalation";
    related_event_ids = event_id ∷ [];
    context = entry "new_admin_activity" (bool true) (entry "src_ip" src_ip no_fields);
    vendor_mitre_techniques = vendor;
  }

  abbrev pub malware_sighting : ℕ → ℕ → Value → List Value → Fields → Sighting
  malware_sighting tenant_id event_id src_ip vendor normalized = record {
    tenant_id = tenant_id;
    title =
        "Malware indicator detected"
        <> (if truthy src_ip then " on " <> outside.str src_ip else "");
    description = outside.str (
        vendor_description normalized
          "A malware/rootkit signature was detected by the connected source.");
    technique_key = "malware_signature";
    related_event_ids = event_id ∷ [];
    context = entry "src_ip" src_ip (entry "malware_detected" (bool true) no_fields);
    vendor_mitre_techniques = vendor;
  }

  -- The three checks that follow it in `on_normalized_event`.
  abbrev pub travel_check : ℕ → ℕ → Fields → ℕ → ℕ → Act Unit
  travel_check tenant_id event_id normalized id now =
      if text_is "login_success" (get "event_type" normalized) && truthy (get "user" normalized)
      then check_impossible_travel tenant_id (get "user" normalized) normalized event_id id now
      else pure tt

  abbrev pub escalation_check : ℕ → ℕ → Fields → List Value → ℕ → ℕ → Act Unit
  escalation_check tenant_id event_id normalized vendor id now =
      if text_is "privilege_escalation" (get "event_type" normalized)
      then open_incident
          (escalation_sighting tenant_id event_id (get "src_ip" normalized) vendor normalized) id
          now
      else pure tt

  abbrev pub malware_check : ℕ → ℕ → Fields → List Value → ℕ → ℕ → Act Unit
  malware_check tenant_id event_id normalized vendor id now =
      if text_is "malware_detected" (get "event_type" normalized)
      then open_incident
          (malware_sighting tenant_id event_id (get "src_ip" normalized) vendor normalized) id now
      else pure tt

  -- `on_normalized_event`, with the ids of the two rows that one event can add.
  unfoldable pub on_normalized_event : ℕ → ℕ → Fields → ℕ → ℕ → ℕ → Act Unit
  on_normalized_event tenant_id event_id normalized id id' now =
      let vendor = items (or_else (get "mitre_techniques" normalized) (arr no_elements)) in
      do
        raise_if (not (has_key "event_type" normalized)) exception
        correlate_logins tenant_id event_id (get "event_type" normalized) (get "src_ip" normalized)
            vendor id now
        travel_check tenant_id event_id normalized id' now
        escalation_check tenant_id event_id normalized vendor id now
        malware_check tenant_id event_id normalized vendor id now
