-- ===== src/Detection.antt =====
-- backend/app/agents/detection.py: normalized events are correlated, and incidents are opened or
-- continued. Events handles a normalized event, LastValue has the last-value store of
-- backend/app/state_store.py with the guards of backend/app/geo.py, and Geo the table of countries.
pub mod Events
pub mod LastValue
pub mod Continues
pub mod Campaigns
pub mod Threshold
pub mod Belongs
pub mod Consistency
pub mod Kept
pub mod Geo
pub mod Travel
mod Tests
use sentri_mesh_astra.Prelude.{
  ℕ, ◌*◌, String, Bool, true, false, not, ◌&&◌, Option, none, some, List, [], ◌∷◌, ◌++◌, str_eq,
  ◌==◌, if◌then◌else◌, is_some, any, first, lookup, update_first, Action, gets, modify, raise_if,
  ◌>>=◌, ◌>>◌, exception,
}
use sentri_mesh_astra.Json.{
  Value, Fields, no_fields, entry, get, get_or, put, truthy, elements_list, obj, arr, text, num,
  negative, bool, null,
}
use sentri_mesh_astra.Models.{
  ThreatIndicator, Incident, IncidentStatus, Severity, Key, is_active_status,
}
use sentri_mesh_astra.Bus.{Bus, Message, publish}
use sentri_mesh_astra.System.{incident_is}
use sentri_mesh_astra.Window.{Redis}

abbrev pub failed_login_window : ℕ
failed_login_window = 10 * 60

abbrev pub failed_login_threshold : ℕ
failed_login_threshold = 5

-- A key of `_active_incidents`.
pub record Campaign : Type 0 where
  pub tenant_id : ℕ
  pub technique_key : String
  pub src_ip : Value

-- A country as `str` prints it, which need not be a text; a dict's `get` raises for what has no hash.
pub record Place : Type 0 where
  pub name : String
  pub hashable : Bool

pub record LastSeen : Type 0 where
  pub country : Place
  pub timestamp : ℕ
  pub expires_at : ℕ

pub record Flow : Type 0 where
  pub incidents : List Incident
  pub active_incidents : List (Campaign × ℕ)
  pub redis : Redis
  pub last_seen : Key → Option LastSeen
  pub indicators : List ThreatIndicator
  pub bus : Bus

-- Python's `True` and `False` are numbers to `==`.
abbrev pub as_number : Value → Value
as_number (bool b) = num (if b then 1 else 0)
as_number v = v

unfoldable pub same_scalar : Value → Value → Bool
same_scalar (text a) (text b) = str_eq a b
same_scalar (num m) (num n) = m == n
same_scalar (negative m) (negative n) = m == n
same_scalar null null = true
same_scalar _ _ = false

-- `==` where the second value is no object and no array.
unfoldable pub value_eq : Value → Value → Bool
unfolding same_scalar
value_eq v w = same_scalar (as_number v) (as_number w)

-- What can be a part of a dict's key: `hash` of the others is a `TypeError`.
abbrev pub is_hashable : Value → Bool
is_hashable (obj _) = false
is_hashable (arr _) = false
is_hashable _ = true

abbrev pub campaign_eq : Campaign → Campaign → Bool
campaign_eq a b =
    a.tenant_id == b.tenant_id
    && str_eq a.technique_key b.technique_key
    && value_eq a.src_ip b.src_ip

unfoldable pub cached : Campaign → List (Campaign × ℕ) → Option ℕ
cached c [] = none
cached c ((d, k) ∷ rest) = if campaign_eq d c then some k else cached c rest

-- The dict in a value that is one.
abbrev pub dict : Value → Fields
dict (obj d) = d
dict _ = no_fields

abbrev pub items : Value → List Value
items (arr es) = elements_list es
items _ = []

-- A candidate of the database check.
unfoldable pub continues : Campaign → Incident → Bool
continues c i =
    let context = dict (get_or "context" (obj no_fields) i.enrichment) in
    i.tenant_id == c.tenant_id
    && is_active_status i.status
    && value_eq (get "technique_key" context) (text c.technique_key)
    && value_eq (get "src_ip" context) c.src_ip
    && truthy c.src_ip

abbrev pub mitre_map : List (String × String)
mitre_map =
    ("bruteforce_login", "T1110 - Brute Force")
    ∷ ("impossible_travel", "T1078 - Valid Accounts")
    ∷ ("malware_signature", "T1059 - Command and Scripting Interpreter")
    ∷ ("privilege_escalation", "T1068 - Exploitation for Privilege Escalation")
    ∷ []

-- `MITRE_MAP.get(technique_key, [])`
abbrev pub mitre_of : String → List Value
mitre_of technique_key = elim (lookup technique_key mitre_map) [ none ↦ [] | some t ↦ text t ∷ [] ]

-- The arguments of `_open_incident`.
pub record Sighting : Type 0 where
  pub tenant_id : ℕ
  pub title : String
  pub description : String
  pub technique_key : String
  pub related_event_ids : List ℕ
  pub context : Fields
  pub vendor_mitre_techniques : List Value

abbrev pub campaign_of : Sighting → Campaign
campaign_of w = record {
  tenant_id = w.tenant_id;
  technique_key = w.technique_key;
  src_ip = get_or "src_ip" (text "") w.context;
}

abbrev pub context_of : Sighting → Value
context_of w = obj (put "technique_key" (text w.technique_key) w.context)

abbrev pub techniques_or : List Value → List Value → List Value
techniques_or [] default = default
techniques_or (t ∷ ts) default = t ∷ ts

-- The changed columns; `updated_at` is set on every update.
unfoldable pub folded : Sighting → ℕ → Incident → Incident
folded w now i = record i {
  updated_at = now;
  description = w.description;
  related_event_ids = i.related_event_ids ++ w.related_event_ids;
  enrichment = put "context" (context_of w) i.enrichment;
  mitre_techniques = techniques_or w.vendor_mitre_techniques i.mitre_techniques;
}

unfoldable pub incident_of : Sighting → ℕ → ℕ → Incident
incident_of w id now = record {
  id = id;
  tenant_id = w.tenant_id;
  title = w.title;
  description = w.description;
  severity = Severity.low;
  status = IncidentStatus.open_;
  mitre_techniques = techniques_or w.vendor_mitre_techniques (mitre_of w.technique_key);
  related_event_ids = w.related_event_ids;
  enrichment = entry "context" (context_of w) no_fields;
  created_at = now;
  updated_at = now;
}

abbrev pub Act : Type 0 → Type 0
Act A = Action Flow A

-- A new row, the cache entry, and the message on `incidents.new`.
unfoldable pub start : Sighting → ℕ → ℕ → Act Unit
start w id now = do
  taken ← gets (λ s. any (incident_is id) s.incidents)
  raise_if taken exception
  modify (λ s. record s {
    incidents = s.incidents ++ incident_of w id now ∷ [];
    active_incidents = (campaign_of w, id) ∷ s.active_incidents;
    bus =
        publish "detection" (some w.tenant_id)
          (Message.incident_new w.tenant_id id (dict (context_of w))) now s.bus;
  })

unfoldable pub settle : Sighting → ℕ → ℕ → Option Incident → Act Unit
settle w id now none = start w id now
settle w id now (some i) =
    if is_active_status i.status
    then modify
        (λ s. record s { incidents = update_first (incident_is i.id) (folded w now) s.incidents })
    else start w id now

-- The incident that the cache names, or else the first candidate of the database.
unfoldable pub ongoing : Campaign → Flow → Option Incident
ongoing c s =
    let by_database = first (continues c) s.incidents in
    elim (cached c s.active_incidents) [
      | none ↦ by_database
      | some k ↦
          let by_cache = first (incident_is k) s.incidents in
          if is_some by_cache then by_cache else by_database
    ]

-- `_open_incident`, with the id that a new row gets.
unfoldable pub open_incident : Sighting → ℕ → ℕ → Act Unit
open_incident w id now = do
  raise_if (not (is_hashable (campaign_of w).src_ip)) exception
  found ← gets (ongoing (campaign_of w))
  settle w id now found
