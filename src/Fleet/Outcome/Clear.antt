-- ===== src/Fleet/Outcome/Clear.antt =====
-- That the agents of backend/app/agents bring in no technique that Python cannot search for a text, and no
-- count of failed logins that it cannot compare, where the events that wait have none.
use sentri_mesh_astra.Prelude.{
  ℕ, String, ◌≡◌, refl, ap, ◌∙◌, true, false, not, Option, none, some, List, [], ◌∷◌, ◌++◌, arith,
  str_eq, any, All, All-append, lookup, All-update_first, gets, ◌>>=◌, if_keeps, raise_if_keeps,
  Result, ok, err, exception,
}
use sentri_mesh_astra.Json.{
  Value, Fields, get, get_or, has_key, put, arr, obj, text, no_elements, no_fields, or_else,
}
use sentri_mesh_astra.Json.Laws.{get-put, has_key-put}
use sentri_mesh_astra.Models.{Incident, is_active_status}
use sentri_mesh_astra.Bus.{Message, RawEvent, publish, audit}
use sentri_mesh_astra.System.{incident_is}
use sentri_mesh_astra.Intake.{normalize, type_of}
use sentri_mesh_astra.Formats.{Parsed, normalize_for_connector_type}
use sentri_mesh_astra.Detection.{
  Flow, Sighting, items, start, settle, open_incident, ongoing, campaign_of, context_of,
  incident_of, folded, mitre_of, mitre_map, techniques_or, is_hashable, dict,
}
use sentri_mesh_astra.Detection.Events.{Outside, on_normalized_event}
use sentri_mesh_astra.Detection.Kept.{AllFit, on_normalized_event-Keeps}
use sentri_mesh_astra.Detection.Continues.{get_or-put}
use sentri_mesh_astra.Pipeline.Recommendation.{can_search}
use sentri_mesh_astra.Pipeline.Enrichment.{context_of_row}
use sentri_mesh_astra.Fleet.Lasting.{is_event}
use sentri_mesh_astra.Fleet.Outcome.{is_countable}

abbrev pub CanSearch : List Value → Type 0
CanSearch vs = All (λ v. can_search v ≡ true) vs

-- What the orchestrator needs of a row.
abbrev pub IsClear : Incident → Type 0
IsClear i = CanSearch i.mitre_techniques × (is_countable (context_of_row i) ≡ true)

abbrev pub vendor_of : Fields → List Value
vendor_of normalized = items (or_else (get "mitre_techniques" normalized) (arr no_elements))

-- An event whose techniques can be searched, as its connector's format reads them.
abbrev pub ParsedIsClean : RawEvent → Parsed → Type 0
ParsedIsClean e (err _) = Unit {0}
ParsedIsClean e (ok n) = CanSearch (vendor_of (normalize (type_of e) e.source e.content n))

abbrev pub IsClean : (Value → String) → Message → Type 0
IsClean str (Message.raw_event e) =
    ParsedIsClean e (normalize_for_connector_type str (type_of e) e.event_type e.content)
IsClean str (Message.normalized_event t j n) = CanSearch (vendor_of n)
IsClean str _ = Unit {0}

abbrev pub Clear : (Value → String) → Flow → Type 0
Clear str s = All IsClear s.incidents × All (IsClean str) s.bus.delivered

pub countable-put :
    (k : String) (v : Value) (d : Fields)
    → str_eq "failed_login_count" k ≡ false
    → is_countable (put k v d) ≡ is_countable d
unfolding get_or
countable-put k v d other =
    rw (has_key-put "failed_login_count" k v d, get-put "failed_login_count" k v d, other) refl

techniques-CanSearch :
    (vs ws : List Value) → CanSearch vs → CanSearch ws → CanSearch (techniques_or vs ws)
techniques-CanSearch [] ws h k = k
techniques-CanSearch (v ∷ vs) ws h k = h

mitre_of-CanSearch : (key : String) → CanSearch (mitre_of key)
mitre_of-CanSearch key = of (lookup key mitre_map)
  where
    of :
        (found : Option String)
        → CanSearch (elim found as (λ _. List Value) [ none ↦ [] | some t ↦ text t ∷ [] ])
    of none = tt
    of (some t) = (refl, tt)

module _ (str : Value → String) where
  quiet-IsClean : (m : Message) → is_event m ≡ false → IsClean str m
  quiet-IsClean (Message.raw_event e) quiet = absurd (ground (arith, quiet))
  quiet-IsClean (Message.normalized_event t j n) quiet = absurd (ground (arith, quiet))
  quiet-IsClean (Message.incident_new _ _ _) quiet = tt
  quiet-IsClean (Message.incident_enriched _ _ _) quiet = tt
  quiet-IsClean (Message.incident_classified _ _ _ _ _) quiet = tt
  quiet-IsClean (Message.action_proposed _ _ _) quiet = tt
  quiet-IsClean (Message.scan_requested _ _) quiet = tt
  quiet-IsClean (Message.dependency_scan_requested _ _) quiet = tt
  quiet-IsClean (Message.action_approved _ _ _ _) quiet = tt
  quiet-IsClean (Message.action_denied _ _ _ _) quiet = tt
  quiet-IsClean (Message.action_executed _ _ _) quiet = tt
  quiet-IsClean (Message.report_ready _ _) quiet = tt
  quiet-IsClean (Message.guardian_alert _ _) quiet = tt

  pub said-IsClean :
      (ms : List Message) (m : Message)
      → IsClean str m
      → All (IsClean str) ms
      → All (IsClean str) (ms ++ m ∷ [])
  said-IsClean ms m clean h = All-append (IsClean str) ms (m ∷ []) h (clean, tt)

  pub grown-IsClean :
      (ms : List Message) (m : Message)
      → is_event m ≡ false
      → All (IsClean str) ms
      → All (IsClean str) (ms ++ m ∷ [])
  grown-IsClean ms m quiet h = said-IsClean ms m (quiet-IsClean m quiet) h

  -- What a report brings in.
  abbrev Fits : Sighting → Type 0
  Fits w = CanSearch w.vendor_mitre_techniques × (is_countable w.context ≡ true)

  opened-IsClear : (w : Sighting) (id now : ℕ) → Fits w → IsClear (incident_of w id now)
  unfolding incident_of get_or has_key get
  opened-IsClear w id now (vendor, counted) = (
    techniques-CanSearch w.vendor_mitre_techniques (mitre_of w.technique_key) vendor
        (mitre_of-CanSearch w.technique_key),
    countable-put "technique_key" (text w.technique_key) w.context refl ∙ counted,
  )

  folded-IsClear :
      (w : Sighting) (now : ℕ) (i : Incident) → Fits w → IsClear i → IsClear (folded w now i)
  unfolding folded
  folded-IsClear w now i (vendor, counted) h = (
    techniques-CanSearch w.vendor_mitre_techniques i.mitre_techniques vendor h.0,
    ap (λ c. is_countable (dict c))
          (get_or-put "context" (context_of w) (obj no_fields) i.enrichment refl)
        ∙ countable-put "technique_key" (text w.technique_key) w.context refl
        ∙ counted,
  )

  start-Clear :
      (w : Sighting) (id now : ℕ) (s : Flow) → Fits w → Clear str s → Clear str (start w id now s).1
  unfolding start publish audit
  start-Clear w id now s fits h =
      raise_if_keeps (Clear str) (any (incident_is id) s.incidents) exception _ s h (λ free. (
        All-append IsClear s.incidents (incident_of w id now ∷ []) h.0
            (opened-IsClear w id now fits, tt),
        grown-IsClean s.bus.delivered _ refl h.1,
      ))

  settle-Clear :
      (w : Sighting) (id now : ℕ) (found : Option Incident) (s : Flow)
      → Fits w
      → Clear str s
      → Clear str (settle w id now found s).1
  unfolding settle
  settle-Clear w id now none s fits h = start-Clear w id now s fits h
  settle-Clear w id now (some i) s fits h =
      if_keeps (λ (m : Flow → Result Unit × Flow). Clear str (m s).1) (is_active_status i.status) _
        _
        (λ open_. (
          All-update_first IsClear (incident_is i.id) (folded w now) s.incidents
              (λ j found own. folded-IsClear w now j fits own) h.0,
          h.1,
        ))
        (λ closed. start-Clear w id now s fits h)

  open_incident-Clear :
      (w : Sighting) (id now : ℕ) (s : Flow)
      → Fits w
      → Clear str s
      → Clear str (open_incident w id now s).1
  unfolding open_incident
  open_incident-Clear w id now s fits h =
      raise_if_keeps (Clear str) (not (is_hashable (campaign_of w).src_ip)) exception
        (gets (ongoing (campaign_of w)) >>= λ found. settle w id now found) s h
        (λ hashable. settle-Clear w id now (ongoing (campaign_of w) s) s fits h)

  -- Whatever is reported of a clean event fits.
  event-AllFit :
      (outside : Outside) (t event_id : ℕ) (src_ip user : Value) (vendor : List Value)
      (normalized : Fields)
      → CanSearch vendor
      → AllFit Fits outside t event_id src_ip user vendor normalized
  unfolding get_or has_key get
  event-AllFit outside t event_id src_ip user vendor normalized searched = record {
    failed = λ n. (searched, refl);
    success = λ n. (searched, refl);
    travel = λ last country km now. (tt, refl);
    escalation = (searched, refl);
    malware = (searched, refl);
  }

  pub on_normalized_event-Clear :
      (outside : Outside) (t j : ℕ) (n : Fields) (id id' now : ℕ) (s : Flow)
      → CanSearch (vendor_of n)
      → Clear str s
      → Clear str (on_normalized_event outside t j n id id' now s).1
  on_normalized_event-Clear outside t j n id id' now s searched h =
      on_normalized_event-Keeps (Clear str) Fits open_incident-Clear (λ s r l h. h) outside t j n id
        id' now (event-AllFit outside t j _ _ _ n searched) s h
