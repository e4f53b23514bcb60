-- ===== src/Detection/Kept.antt =====
-- What holds of the state and is kept by every report of an incident is kept by the handler of
-- backend/app/agents/detection.py for normalized events.
use sentri_mesh_astra.Detection.LastValue.{
  cannot_look_up, get_last_value, implausible_distance, set_last_value,
}
use sentri_mesh_astra.Prelude.{
  ℕ, ◌-◌, inl, inr, Bool, true, false, not, ◌&&◌, Option, none, some, List, leb, if◌then◌else◌,
  Bool-cases, gets, pure, ◌>>=◌, ◌>>◌, >>=_keeps, raise_if_keeps, exception,
}
use sentri_mesh_astra.Json.{Value, Fields, get, has_key, or_else, arr, no_elements, truthy}
use sentri_mesh_astra.Detection.Geo.{distance_km}
use sentri_mesh_astra.Models.{Key}
use sentri_mesh_astra.Window.{record_and_count, count_without_recording}
use sentri_mesh_astra.Detection.{
  Redis, Flow, Act, Sighting, LastSeen, Place, open_incident, items, failed_login_window,
  failed_login_threshold,
}
use sentri_mesh_astra.Detection.Events.{
  Outside, place_of, text_is, correlate_logins, compare_locations, check_impossible_travel,
  on_normalized_event, record_failed_login, recent_failed_login_count, resolve_country,
  travel_sighting, failed_sighting, success_sighting, escalation_sighting, malware_sighting,
  travel_check, escalation_check, malware_check,
}

module _ (Fits : Sighting → Type 0) (outside : Outside) where
  -- What can be reported of an event fits.
  pub record AllFit (t event_id : ℕ) (src_ip user : Value) (vendor : List Value)
      (normalized : Fields) : Type 0 where
    pub failed : (n : ℕ) → Fits (failed_sighting outside t event_id src_ip vendor n)
    pub success : (n : ℕ) → Fits (success_sighting outside t event_id src_ip vendor n)
    pub travel :
        (last : LastSeen) (country : Place) (km now : ℕ)
        → Fits (travel_sighting outside t user src_ip event_id last country km now)
    pub escalation : Fits (escalation_sighting outside t event_id src_ip vendor normalized)
    pub malware : Fits (malware_sighting outside t event_id src_ip vendor normalized)

module _ (P : Flow → Type 0) (Fits : Sighting → Type 0)
    (opens : (w : Sighting) (id now : ℕ) (s : Flow) → Fits w → P s → P (open_incident w id now s).1)
    (ignores : (s : Flow) (redis : Redis) (last_seen : Key → Option LastSeen)
      → P s
      → P (record s { redis = redis; last_seen = last_seen }))
    (outside : Outside) where
  abbrev Keeps : Act Unit → Type 0
  Keeps m = (s : Flow) → P s → P (m s).1

  enough-Keeps :
      (b : Bool) (w : Sighting) (id now : ℕ)
      → Fits w
      → Keeps (if b then open_incident w id now else pure tt)
  enough-Keeps true w id now fits s h = opens w id now s fits h
  enough-Keeps false w id now fits s h = h

  correlate_logins-Keeps :
      (t event_id : ℕ) (event_type src_ip : Value) (vendor : List Value) (id now : ℕ)
      → ((n : ℕ) → Fits (failed_sighting outside t event_id src_ip vendor n))
      → ((n : ℕ) → Fits (success_sighting outside t event_id src_ip vendor n))
      → Keeps (correlate_logins outside t event_id event_type src_ip vendor id now)
  unfolding correlate_logins record_failed_login recent_failed_login_count
  correlate_logins-Keeps t event_id event_type src_ip vendor id now failed_fits success_fits s h =
      elim (Bool-cases (text_is "login_failed" event_type && truthy src_ip)) [
        | inl failed ↦
            let (redis, n) =
              record_and_count s.redis (Key.failed_logins t (outside.str src_ip))
                failed_login_window now in
            rw failed (
              enough-Keeps (leb failed_login_threshold n)
                (failed_sighting outside t event_id src_ip vendor n) id now (failed_fits n)
                (record s { redis = redis }) (ignores s redis s.last_seen h))
        | inr other ↦ elim (Bool-cases (text_is "login_success" event_type && truthy src_ip)) [
          | inl success ↦
              let (redis, n) =
                count_without_recording s.redis (Key.failed_logins t (outside.str src_ip))
                  failed_login_window now in
              rw (other, success)
                (enough-Keeps (leb failed_login_threshold n)
                  (success_sighting outside t event_id src_ip vendor n) id now (success_fits n)
                  (record s { redis = redis }) (ignores s redis s.last_seen h))
          | inr neither ↦ rw (other, neither) h
        ]
      ]

  compare_locations-Keeps :
      (t : ℕ) (user src_ip : Value) (event_id : ℕ) (country : Place) (id now : ℕ)
      (last : Option LastSeen)
      → ((last : LastSeen) (country : Place) (km now : ℕ)
          → Fits (travel_sighting outside t user src_ip event_id last country km now))
      → Keeps (compare_locations outside t user src_ip event_id country id now last)
  unfolding compare_locations
  compare_locations-Keeps t user src_ip event_id country id now none fits s h = h
  compare_locations-Keeps t user src_ip event_id country id now (some last) fits s h =
      raise_if_keeps P (cannot_look_up last.country country (now - last.timestamp)) exception _ s h
        (λ fine. travelled (
          implausible_distance (distance_km outside.haversine_km) last.country.name country.name
            (now - last.timestamp)))
    where
      travelled :
          (far : Option ℕ)
          → P
              ((elim far as (λ x. Act Unit) [
                | none ↦ pure tt
                | some km ↦
                    open_incident
                      (travel_sighting outside t user src_ip event_id last country km now)
                      id
                      now
              ])
                s).1
      travelled none = h
      travelled (some km) =
          opens (travel_sighting outside t user src_ip event_id last country km now) id now s
            (fits last country km now) h

  checked-Keeps :
      (t : ℕ) (user : Value) (normalized : Fields) (event_id id now : ℕ) (country : Option Value)
      → ((last : LastSeen) (country : Place) (km now : ℕ)
          → Fits (
              travel_sighting outside t user
                (get "src_ip" normalized)
                event_id
                last
                country
                km
                now))
      → Keeps (elim country as (λ x. Act Unit) [
        | none ↦ pure tt
        | some country ↦
            let key = Key.last_login_location t (outside.str user) in
            do
              last ← gets (get_last_value key now)
              compare_locations outside t user
                  (get "src_ip" normalized)
                  event_id
                  (place_of outside country)
                  id
                  now
                  last
              set_last_value key (place_of outside country) now
      ])
  unfolding set_last_value
  checked-Keeps t user normalized event_id id now none fits s h = h
  checked-Keeps t user normalized event_id id now (some country) fits s h =
      let key = Key.last_login_location t (outside.str user) in
      let last = get_last_value key now s in
      >>=_keeps P
        (compare_locations outside t user (get "src_ip" normalized) event_id
          (place_of outside country) id now last)
        (λ _. set_last_value key (place_of outside country) now) s
        (compare_locations-Keeps t user (get "src_ip" normalized) event_id
          (place_of outside country) id now last fits s h)
        (λ a e kept. ignores _ _ _ kept)

  check_impossible_travel-Keeps :
      (t : ℕ) (user : Value) (normalized : Fields) (event_id id now : ℕ)
      → ((last : LastSeen) (country : Place) (km now : ℕ)
          → Fits (
              travel_sighting outside t user
                (get "src_ip" normalized)
                event_id
                last
                country
                km
                now))
      → Keeps (check_impossible_travel outside t user normalized event_id id now)
  unfolding check_impossible_travel
  check_impossible_travel-Keeps t user normalized event_id id now =
      checked-Keeps t user normalized event_id id now (resolve_country outside normalized)

  optional-Keeps : (b : Bool) (m : Act Unit) → Keeps m → Keeps (if b then m else pure tt)
  optional-Keeps true m keeps s h = keeps s h
  optional-Keeps false m keeps s h = h

  pub on_normalized_event-Keeps :
      (t event_id : ℕ) (normalized : Fields) (id id' now : ℕ)
      → AllFit Fits outside t event_id
          (get "src_ip" normalized)
          (get "user" normalized)
          (items (or_else (get "mitre_techniques" normalized) (arr no_elements)))
          normalized
      → Keeps (on_normalized_event outside t event_id normalized id id' now)
  unfolding on_normalized_event
  on_normalized_event-Keeps t event_id normalized id id' now fit s h =
      let v = get "event_type" normalized in
      let ip = get "src_ip" normalized in
      let vendor = items (or_else (get "mitre_techniques" normalized) (arr no_elements)) in
      let travel = travel_check outside t event_id normalized id' now in
      let escalation = escalation_check outside t event_id normalized vendor id now in
      let malware = malware_check outside t event_id normalized vendor id now in
      let logins = correlate_logins outside t event_id v ip vendor id now in
      raise_if_keeps P (not (has_key "event_type" normalized)) exception
        (logins >> (travel >> (escalation >> malware))) s h
        (λ there.
          >>=_keeps P logins (λ _. travel >> (escalation >> malware)) s
            (correlate_logins-Keeps t event_id v ip vendor id now fit.failed fit.success s h)
            (λ a e kept.
              >>=_keeps P travel (λ _. escalation >> malware) _
                (optional-Keeps _ _
                  (check_impossible_travel-Keeps t (get "user" normalized) normalized event_id id'
                    now fit.travel)
                  _ kept)
                (λ a e kept.
                  >>=_keeps P escalation (λ _. malware) _
                    (optional-Keeps _ _
                      (λ s h.
                        opens (escalation_sighting outside t event_id ip vendor normalized) id now s
                          fit.escalation h)
                      _ kept)
                    (λ a e kept.
                      optional-Keeps _ _
                        (λ s h.
                          opens (malware_sighting outside t event_id ip vendor normalized) id now s
                            fit.malware h)
                        _ kept))))

-- Where everything fits.
pub all_fit :
    (outside : Outside) (t event_id : ℕ) (src_ip user : Value) (vendor : List Value)
    (normalized : Fields)
    → AllFit (λ w. Unit {0}) outside t event_id src_ip user vendor normalized
all_fit outside t event_id src_ip user vendor normalized = record {
  failed = λ n. tt;
  success = λ n. tt;
  travel = λ last country km now. tt;
  escalation = tt;
  malware = tt;
}
