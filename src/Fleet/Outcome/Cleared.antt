-- ===== src/Fleet/Outcome/Cleared.antt =====
-- Whatever clean message the agents of backend/app/agents receive, the incidents and the messages that
-- wait go on to be such that the orchestrator can read them.
use sentri_mesh_astra.Prelude.{
  ℕ, ◌+◌, String, ◌≡◌, refl, sym, subst, Bool, some, List, arith, first, All, ok, err,
}
use sentri_mesh_astra.Json.{Value, get_or, has_key}
use sentri_mesh_astra.Models.{Severity, ActionProposal}
use sentri_mesh_astra.Bus.{Message, RawEvent, publish, audit}
use sentri_mesh_astra.System.{proposal_is}
use sentri_mesh_astra.Executor.{Host}
use sentri_mesh_astra.Control.{Event, handle}
use sentri_mesh_astra.Control.Incidents.{handle-incidents}
use sentri_mesh_astra.Intake.{store_event, on_raw_event, type_of}
use sentri_mesh_astra.Formats.{Parsed, normalize_for_connector_type}
use sentri_mesh_astra.Guardian.{on_action_proposed}
use sentri_mesh_astra.Listening.{subscribe, register_all, receive, handlers_of, call_all}
use sentri_mesh_astra.Exposure.{on_scan_requested, on_dependency_scan_requested}
use sentri_mesh_astra.Pipeline.Kept.{on_new_incident-Keeps}
use sentri_mesh_astra.Fleet.{
  World, Answers, fresh, flow, intake, registrations, started, as_incoming, integration, detection,
  threat_intel, orchestrator, response, guardian, exposure_scan, dependency_scan,
}
use sentri_mesh_astra.Fleet.Consistency.Single.{recheck-incidents}
use sentri_mesh_astra.Fleet.Outcome.{IsGrowing, Holds, HasFreshIds}
use sentri_mesh_astra.Fleet.Outcome.Kept.{on_classified_incident-Keeps, on_action_proposed-Keeps}
use sentri_mesh_astra.Fleet.Outcome.Proposed.{HasFreshIds-le}
use sentri_mesh_astra.Fleet.Outcome.Clear.{
  IsClear, IsClean, ParsedIsClean, Clear, grown-IsClean, said-IsClean, on_normalized_event-Clear,
}
use sentri_mesh_astra.Fleet.Outcome.Passed.{
  store_verdict-Clear, cache_indicator-Clear, on_enriched_incident-Clear, report_scan-Clear,
}

abbrev pub WorldIsClear : {F : Type 0} → (Value → String) → World F → Type 0
WorldIsClear str w = All IsClear w.system.incidents × All (IsClean str) w.system.bus.delivered

module _ (host : Host) (enabled : Bool) (answers : Answers) (k : ℕ) where
  abbrev str : Value → String
  str = answers.outside.str

  abbrev Clean : List Message → List ActionProposal → Type 0
  Clean ms ps = All (IsClean str) ms

  Clean-IsGrowing : IsGrowing Clean
  Clean-IsGrowing = record {
    published = λ ms m ps quiet h. grown-IsClean str ms m quiet h;
    proposed = λ ms ps p h. h;
    marked = λ ms ps j r now h. h;
  }

  store_event-Clean :
      (e : RawEvent) (id now : ℕ) (parsed : Parsed) (w : World host.Firewall)
      → ParsedIsClean e parsed
      → All (IsClean str) w.system.bus.delivered
      → All (IsClean str) (store_event e id now parsed (intake w)).1.bus.delivered
  unfolding store_event publish audit
  store_event-Clean e id now (err _) w clean h = h
  store_event-Clean e id now (ok n) w clean h = said-IsClean str w.system.bus.delivered _ clean h

  later : (ps : List ActionProposal) (n : ℕ) → HasFreshIds n ps → HasFreshIds (n + 2) ps
  later ps n h = HasFreshIds-le n (n + 2) ps (omega arith) h

  action_proposed-incidents :
      (t j : ℕ) (sev : Severity) (now : ℕ) (w : World host.Firewall)
      → (on_action_proposed t j (some sev) now w.system).1.incidents ≡ w.system.incidents
  unfolding on_action_proposed
  action_proposed-incidents t j sev now w =
      recheck-incidents host enabled answers t j sev now (first (proposal_is j) w.system.proposals)
        w.system w.system.incidents refl

  pub receive-Clear :
      (m : Message) (w : World host.Firewall) (Q : List Message → List ActionProposal → Type 0)
      → Holds k Q w
      → IsClean str m
      → WorldIsClear str w
      → WorldIsClear str
          (receive (started host enabled answers) (as_incoming host enabled answers m) w)
  unfolding receive register_all subscribe handlers_of call_all registrations fresh integration
      detection threat_intel orchestrator response guardian exposure_scan dependency_scan
      on_raw_event handle on_scan_requested on_dependency_scan_requested get_or has_key
  receive-Clear (Message.raw_event e) w Q held clean h = (
    h.0,
    store_event-Clean e w.next_id w.now
        (normalize_for_connector_type str (type_of e) e.event_type e.content) w clean h.1,
  )
  receive-Clear (Message.normalized_event t j n) w Q held clean h =
      on_normalized_event-Clear str answers.outside t j n w.next_id (w.next_id + 1) w.now (flow w)
        clean h
  receive-Clear (Message.incident_new t j c) w Q held clean h =
      on_new_incident-Keeps (Clear str) (store_verdict-Clear str) (cache_indicator-Clear str)
        answers.lookup_ip t j c w.next_id w.now (flow w) h
  receive-Clear (Message.incident_enriched t j c) w Q held clean h =
      on_enriched_incident-Clear str t j c w.now (flow w) h
  receive-Clear (Message.incident_classified t j sev a c) w Q held clean h = (
    subst (λ is. All IsClear is)
        (sym (
          handle-incidents host enabled w.now
            (Event.classified w.next_id (w.next_id + 1) t j sev a c) w.system))
        h.0,
    (on_classified_incident-Keeps host enabled k Clean Clean-IsGrowing (w.next_id + 2) w.now
        w.next_id (w.next_id + 1) t j sev a c (omega arith) w.system
        (held.0.0, later w.system.proposals w.next_id held.0.1, h.1)).2,
  )
  receive-Clear (Message.action_proposed t j sev) w Q held clean h = (
    subst (λ is. All IsClear is) (sym (action_proposed-incidents t j sev w.now w)) h.0,
    (on_action_proposed-Keeps host enabled k Clean Clean-IsGrowing (w.next_id + 2) t j (some sev)
        w.now w.system (held.0.0, later w.system.proposals w.next_id held.0.1, h.1)).2,
  )
  receive-Clear (Message.scan_requested t domain) w Q held clean h =
      report_scan-Clear str _ w.now (flow w) (tt, refl) h
  receive-Clear (Message.dependency_scan_requested t ps) w Q held clean h =
      report_scan-Clear str _ w.now (flow w) (tt, refl) h
  receive-Clear (Message.action_approved _ _ _ _) w Q held clean h = h
  receive-Clear (Message.action_denied _ _ _ _) w Q held clean h = h
  receive-Clear (Message.action_executed _ _ _) w Q held clean h = h
  receive-Clear (Message.report_ready _ _) w Q held clean h = h
  receive-Clear (Message.guardian_alert _ _) w Q held clean h = h
