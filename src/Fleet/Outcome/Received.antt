-- ===== src/Fleet/Outcome/Received.antt =====
-- Whatever message the agents of backend/app/agents receive, what goes on to hold holds after it.
use sentri_mesh_astra.Prelude.{ℕ, ◌+◌, ◌≡◌, Bool, false, some, List, [], ◌∷◌, ◌++◌, arith, ok, err}
use sentri_mesh_astra.Json.{Fields}
use sentri_mesh_astra.Models.{ActionProposal}
use sentri_mesh_astra.Bus.{Message, RawEvent, publish, audit}
use sentri_mesh_astra.Executor.{Host}
use sentri_mesh_astra.Intake.{store_event, on_raw_event, type_of}
use sentri_mesh_astra.Formats.{Parsed, normalize_for_connector_type}
use sentri_mesh_astra.Listening.{subscribe, register_all, receive, handlers_of, call_all}
use sentri_mesh_astra.Exposure.{on_scan_requested, on_dependency_scan_requested}
use sentri_mesh_astra.Fleet.{
  World, Answers, fresh, flow, intake, registrations, started, as_incoming, integration, detection,
  threat_intel, orchestrator, response, guardian, exposure_scan, dependency_scan,
}
use sentri_mesh_astra.Fleet.Lasting.{
  is_event, open_incident-Keeps, Lasts, report_scan-Keeps, store_verdict-Keeps,
  cache_indicator-Keeps, on_enriched_incident-Keeps,
}
use sentri_mesh_astra.Pipeline.Kept.{on_new_incident-Keeps}
use sentri_mesh_astra.Detection.Kept.{all_fit, on_normalized_event-Keeps}
use sentri_mesh_astra.Fleet.Outcome.{IsGrowing, Holds, HasFreshIds}
use sentri_mesh_astra.Fleet.Outcome.Kept.{on_classified_incident-Keeps, on_action_proposed-Keeps}
use sentri_mesh_astra.Fleet.Outcome.Proposed.{HasFreshIds-le}

module _ (host : Host) (enabled : Bool) (answers : Answers) (k : ℕ) where
  module _ (Q : List Message → List ActionProposal → Type 0) (g : IsGrowing Q)
      (correlates : (ms : List Message) (t j : ℕ) (n : Fields) (ps : List ActionProposal)
        → Q ms ps
        → Q (ms ++ Message.normalized_event t j n ∷ []) ps) where
    abbrev grown :
        (ps : List ActionProposal) (ms : List Message) (m : Message)
        → is_event m ≡ false
        → Q ms ps
        → Q (ms ++ m ∷ []) ps
    grown ps ms m quiet h = g.published ms m ps quiet h

    store_event-Q :
        (e : RawEvent) (id now : ℕ) (parsed : Parsed) (w : World host.Firewall)
        → Q w.system.bus.delivered w.system.proposals
        → Q (store_event e id now parsed (intake w)).1.bus.delivered w.system.proposals
    unfolding store_event publish audit
    store_event-Q e id now (err _) w h = h
    store_event-Q e id now (ok n) w h = correlates w.system.bus.delivered _ _ _ w.system.proposals h

    -- The part of the world that an agent for incidents sees, and back.
    flowing :
        (w : World host.Firewall) → Holds k Q w → Lasts k (λ ms. Q ms w.system.proposals) (flow w)
    flowing w h = (h.0.0, h.1, h.0.2)

    later : (w : World host.Firewall) → Holds k Q w → HasFreshIds (w.next_id + 2) w.system.proposals
    later w h = HasFreshIds-le w.next_id (w.next_id + 2) w.system.proposals (omega arith) h.0.1

    pub receive-Holds :
        (m : Message) (w : World host.Firewall)
        → Holds k Q w
        → Holds k Q (receive (started host enabled answers) (as_incoming host enabled answers m) w)
    unfolding receive register_all subscribe handlers_of call_all registrations fresh integration
        detection threat_intel orchestrator response guardian exposure_scan dependency_scan
        on_raw_event on_scan_requested on_dependency_scan_requested
    receive-Holds (Message.raw_event e) w h = (
      (
        h.0.0,
        later w h,
        store_event-Q e w.next_id w.now
            (normalize_for_connector_type answers.outside.str (type_of e) e.event_type e.content) w
            h.0.2,
      ),
      h.1,
    )
    receive-Holds (Message.normalized_event t j n) w h =
        let out =
          on_normalized_event-Keeps (Lasts k (λ ms. Q ms w.system.proposals)) (λ w. Unit {0})
            (λ w id now s fits h. open_incident-Keeps k (λ ms. Q ms _) (grown _) w id now s h)
            (λ s r l h. h) answers.outside t j n w.next_id (w.next_id + 1) w.now
            (all_fit answers.outside t j _ _ _ n) (flow w) (flowing w h) in
        ((out.0, later w h, out.2), out.1)
    receive-Holds (Message.incident_new t j c) w h =
        let out =
          on_new_incident-Keeps (Lasts k (λ ms. Q ms w.system.proposals))
            (store_verdict-Keeps k (λ ms. Q ms w.system.proposals) (grown w.system.proposals))
            (cache_indicator-Keeps k (λ ms. Q ms w.system.proposals) (grown w.system.proposals))
            answers.lookup_ip t j c w.next_id w.now (flow w) (flowing w h) in
        ((out.0, later w h, out.2), out.1)
    receive-Holds (Message.incident_enriched t j c) w h =
        let out =
          on_enriched_incident-Keeps k (λ ms. Q ms w.system.proposals) (grown w.system.proposals) t
            j c w.now (flow w) (flowing w h) in
        ((out.0, later w h, out.2), out.1)
    receive-Holds (Message.incident_classified t j sev a c) w h = (
      on_classified_incident-Keeps host enabled k Q g (w.next_id + 2) w.now w.next_id
          (w.next_id + 1) t j sev a c (omega arith) w.system (h.0.0, later w h, h.0.2),
      h.1,
    )
    receive-Holds (Message.action_proposed t j sev) w h = (
      on_action_proposed-Keeps host enabled k Q g (w.next_id + 2) t j (some sev) w.now w.system
          (h.0.0, later w h, h.0.2),
      h.1,
    )
    receive-Holds (Message.scan_requested t domain) w h =
        let out =
          report_scan-Keeps k (λ ms. Q ms w.system.proposals) (grown w.system.proposals) _ w.now
            (flow w) (flowing w h) in
        ((out.0, later w h, out.2), out.1)
    receive-Holds (Message.dependency_scan_requested t ps) w h =
        let out =
          report_scan-Keeps k (λ ms. Q ms w.system.proposals) (grown w.system.proposals) _ w.now
            (flow w) (flowing w h) in
        ((out.0, later w h, out.2), out.1)
    receive-Holds (Message.action_approved _ _ _ _) w h = h
    receive-Holds (Message.action_denied _ _ _ _) w h = h
    receive-Holds (Message.action_executed _ _ _) w h = h
    receive-Holds (Message.report_ready _ _) w h = h
    receive-Holds (Message.guardian_alert _ _) w h = h
