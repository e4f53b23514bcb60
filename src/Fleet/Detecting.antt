-- ===== src/Fleet/Detecting.antt =====
-- How many incidents one event can open: the handler of backend/app/agents/detection.py.
use sentri_mesh_astra.Detection.LastValue.{
  cannot_look_up, get_last_value, implausible_distance, set_last_value,
}
use sentri_mesh_astra.Prelude.{
  ℕ, ◌+◌, ◌-◌, ◌≤◌, String, ◌≡◌, refl, sym, subst, inl, inr, Bool, true, false, not, ◌&&◌, ◌||◌,
  Option, none, some, List, arith, str_eq, eq_iff, leb, ◌==◌, if◌then◌else◌, Bool-cases, any, gets,
  pure, ◌>>=◌, ◌>>◌, exception,
}
use sentri_mesh_astra.Window.{count_without_recording, record_and_count}
use sentri_mesh_astra.Json.{
  has_key, no_elements, or_else, null, negative, num, bool, arr, obj, text, truthy, Value, Fields,
  get,
}
use sentri_mesh_astra.Detection.Geo.{distance_km}
use sentri_mesh_astra.Models.{Incident, Key}
use sentri_mesh_astra.Bus.{Message}
use sentri_mesh_astra.Detection.{
  items, failed_login_window, campaign_of, ongoing, Act, Sighting, Flow, Place, LastSeen, start,
  settle, open_incident, dict, context_of, failed_login_threshold,
}
use sentri_mesh_astra.Detection.Events.{
  place_of, malware_sighting, escalation_sighting, malware_check, escalation_check, travel_check,
  success_sighting, failed_sighting, travel_sighting, Outside, text_is, correlate_logins,
  compare_locations, check_impossible_travel, on_normalized_event, record_failed_login,
  recent_failed_login_count, resolve_country,
}
use sentri_mesh_astra.Fleet.Load.{raise_if-Adds, Adds, bind-Adds, flow_load, bus_load-publish}

start-Adds : (w : Sighting) (id now : ℕ) → Adds flow_load 6 (start w id now)
unfolding start
start-Adds w id now s = elim (Bool-cases (any (λ i. i.id == id) s.incidents)) [
  | inl taken ↦ rw taken (omega arith)
  | inr free ↦ rw free (
      omega (
        arith,
        bus_load-publish "detection" (some w.tenant_id)
            (Message.incident_new w.tenant_id id (dict (context_of w))) now s.bus,
      ))
]

settle-Adds :
    (w : Sighting) (id now : ℕ) (found : Option Incident) → Adds flow_load 6 (settle w id now found)
unfolding settle
settle-Adds w id now none s = start-Adds w id now s
settle-Adds w id now (some i) s = ground (arith, start-Adds w id now s)

pub open_incident-Adds : (w : Sighting) (id now : ℕ) → Adds flow_load 6 (open_incident w id now)
unfolding open_incident
open_incident-Adds w id now s = ground (arith, settle-Adds w id now (ongoing (campaign_of w) s) s)

-- As many messages as the test says.
abbrev of : Bool → ℕ
of b = if b then 6 else 0

only_if-Adds :
    (b c : Bool) (m : Act Unit)
    → Adds flow_load 6 m
    → (b ≡ true → c ≡ true)
    → Adds flow_load (of c) (if b then m else pure tt)
only_if-Adds true true m h le s = h s
only_if-Adds true false m h le s = absurd (ground (arith, le refl))
only_if-Adds false c m h le s = omega arith

-- The four tests of one event, of which two hold at most.
abbrev openings : Value → ℕ
openings v =
    of (text_is "login_failed" v || text_is "login_success" v)
    + (of (text_is "login_success" v)
        + (of (text_is "privilege_escalation" v) + of (text_is "malware_detected" v)))

openings_of :
    (t kind : String) → str_eq t kind ≡ true → openings (text kind) ≤ 12 → openings (text t) ≤ 12
openings_of t kind same le = subst (λ x. openings (text x) ≤ 12) (sym ((eq_iff t kind).0 same)) le

two_at_most : (v : Value) → openings v ≤ 12
two_at_most (text t) = elim (Bool-cases (str_eq t "login_failed")) [
  | inl a ↦ openings_of t "login_failed" a (omega arith)
  | inr a ↦ elim (Bool-cases (str_eq t "login_success")) [
    | inl b ↦ openings_of t "login_success" b (omega arith)
    | inr b ↦ rw (a, b) (ground arith)
  ]
]
two_at_most (obj _) = omega arith
two_at_most (arr _) = omega arith
two_at_most (bool _) = omega arith
two_at_most (num _) = omega arith
two_at_most (negative _) = omega arith
two_at_most null = omega arith

enough-Adds :
    (b : Bool) (w : Sighting) (id now : ℕ)
    → Adds flow_load 6 (if b then open_incident w id now else pure tt)
enough-Adds true w id now s = open_incident-Adds w id now s
enough-Adds false w id now s = omega arith

module _ (outside : Outside) where
  correlate_logins-Adds :
      (tenant_id event_id : ℕ) (event_type src_ip : Value) (vendor : List Value) (id now : ℕ)
      → Adds flow_load
          (of (text_is "login_failed" event_type || text_is "login_success" event_type))
          (correlate_logins outside tenant_id event_id event_type src_ip vendor id now)
  unfolding correlate_logins record_failed_login recent_failed_login_count
  correlate_logins-Adds tenant_id event_id event_type src_ip vendor id now s =
      elim (Bool-cases (text_is "login_failed" event_type && truthy src_ip)) [
        | inl failed ↦
            let login : (text_is "login_failed" event_type || text_is "login_success" event_type)
                ≡ true =
              ground (arith, failed) in
            let (redis, n) =
              record_and_count s.redis (Key.failed_logins tenant_id (outside.str src_ip))
                failed_login_window now in
            rw (failed, login)
              (enough-Adds (leb failed_login_threshold n)
                (failed_sighting outside tenant_id event_id src_ip vendor n) id now
                (record s { redis = redis }))
        | inr other ↦ elim (Bool-cases (text_is "login_success" event_type && truthy src_ip)) [
          | inl success ↦
              let login : (text_is "login_failed" event_type || text_is "login_success" event_type)
                  ≡ true =
                ground (arith, success) in
              let (redis, n) =
                count_without_recording s.redis (Key.failed_logins tenant_id (outside.str src_ip))
                  failed_login_window now in
              rw (other, success, login)
                (enough-Adds (leb failed_login_threshold n)
                  (success_sighting outside tenant_id event_id src_ip vendor n) id now
                  (record s { redis = redis }))
          | inr neither ↦ rw (other, neither) (omega arith)
        ]
      ]

  compare_locations-Adds :
      (tenant_id : ℕ) (user src_ip : Value) (event_id : ℕ) (country : Place) (id now : ℕ)
      (last : Option LastSeen)
      → Adds flow_load 6
          (compare_locations outside tenant_id user src_ip event_id country id now last)
  unfolding compare_locations
  compare_locations-Adds tenant_id user src_ip event_id country id now none = λ s. omega arith
  compare_locations-Adds tenant_id user src_ip event_id country id now (some last) =
      raise_if-Adds flow_load 6 (cannot_look_up last.country country (now - last.timestamp))
        exception _
        (λ fine s. travelled s (
          implausible_distance (distance_km outside.haversine_km) last.country.name country.name
            (now - last.timestamp)))
    where
      travelled :
          (s : Flow) (far : Option ℕ)
          → flow_load
              ((elim far as (λ x. Act Unit) [
                | none ↦ pure tt
                | some km ↦
                    open_incident
                      (travel_sighting outside tenant_id user src_ip event_id last country km now)
                      id
                      now
              ])
                s).1
            ≤ flow_load s + 6
      travelled s none = omega arith
      travelled s (some km) =
          open_incident-Adds
            (travel_sighting outside tenant_id user src_ip event_id last country km now) id now s

  checked-Adds :
      (tenant_id : ℕ) (user : Value) (normalized : Fields) (event_id id now : ℕ)
      (country : Option Value)
      → Adds flow_load 6 (elim country as (λ x. Act Unit) [
        | none ↦ pure tt
        | some country ↦
            let key = Key.last_login_location tenant_id (outside.str user) in
            do
              last ← gets (get_last_value key now)
              compare_locations outside tenant_id user
                  (get "src_ip" normalized)
                  event_id
                  (place_of outside country)
                  id
                  now
                  last
              set_last_value key (place_of outside country) now
      ])
  unfolding set_last_value
  checked-Adds tenant_id user normalized event_id id now none s = omega arith
  checked-Adds tenant_id user normalized event_id id now (some country) s =
      let key = Key.last_login_location tenant_id (outside.str user) in
      bind-Adds flow_load 6 0
        (compare_locations outside tenant_id user (get "src_ip" normalized) event_id
          (place_of outside country) id now (get_last_value key now s))
        (λ _. set_last_value key (place_of outside country) now)
        (compare_locations-Adds tenant_id user (get "src_ip" normalized) event_id
          (place_of outside country) id now (get_last_value key now s))
        (λ _ t. omega arith) s

  check_impossible_travel-Adds :
      (tenant_id : ℕ) (user : Value) (normalized : Fields) (event_id id now : ℕ)
      → Adds flow_load 6 (check_impossible_travel outside tenant_id user normalized event_id id now)
  unfolding check_impossible_travel
  check_impossible_travel-Adds tenant_id user normalized event_id id now =
      checked-Adds tenant_id user normalized event_id id now (resolve_country outside normalized)

  pub on_normalized_event-Adds :
      (tenant_id event_id : ℕ) (normalized : Fields) (id id' now : ℕ)
      → Adds flow_load 12 (on_normalized_event outside tenant_id event_id normalized id id' now)
  unfolding on_normalized_event
  on_normalized_event-Adds tenant_id event_id normalized id id' now s =
      let v = get "event_type" normalized in
      let ip = get "src_ip" normalized in
      let user = get "user" normalized in
      let vendor = items (or_else (get "mitre_techniques" normalized) (arr no_elements)) in
      let travel = travel_check outside tenant_id event_id normalized id' now in
      let escalation = escalation_check outside tenant_id event_id normalized vendor id now in
      let malware = malware_check outside tenant_id event_id normalized vendor id now in
      let opened =
        bind-Adds flow_load _ _ escalation (λ _. malware)
          (only_if-Adds _ (text_is "privilege_escalation" v) _
            (open_incident-Adds
              (escalation_sighting outside tenant_id event_id ip vendor normalized) id now)
            (λ h. h))
          (λ _.
            only_if-Adds _ (text_is "malware_detected" v) _
              (open_incident-Adds (malware_sighting outside tenant_id event_id ip vendor normalized)
                id now)
              (λ h. h)) in
      let later =
        bind-Adds flow_load _ _ travel (λ _. escalation >> malware)
          (only_if-Adds _ (text_is "login_success" v) _
            (check_impossible_travel-Adds tenant_id user normalized event_id id' now)
            (λ h. ground (arith, h)))
          (λ _. opened) in
      let all_of =
        bind-Adds flow_load _ _ (correlate_logins outside tenant_id event_id v ip vendor id now)
          (λ _. travel >> (escalation >> malware))
          (correlate_logins-Adds tenant_id event_id v ip vendor id now) (λ _. later) in
      elim (Bool-cases (not (has_key "event_type" normalized))) [
        | inl missing ↦ rw missing (omega arith)
        | inr there ↦ rw there (omega (arith, all_of s, two_at_most v))
      ]
