-- ===== src/Fleet/Consistency/Single.antt =====
-- One active incident for one campaign, whatever agents and people do: backend/app/agents and the routers
-- that decide about actions.
use sentri_mesh_astra.Prelude.{
  ℕ, ◌+◌, ◌≡◌, refl, sym, subst, Bool, Option, none, some, List, [], ◌∷◌, first, Action, if_keeps,
}
use sentri_mesh_astra.Fleet.Consistency.{
  no_context, report_scan-Consistent, on_enriched_incident-Consistent, cache_indicator-Consistent,
  store_verdict-Consistent,
}
use sentri_mesh_astra.Detection.Consistency.Opened.{open_incident-Consistent, Consistent}
use sentri_mesh_astra.Json.{has_key}
use sentri_mesh_astra.Exposure.{on_scan_requested, on_dependency_scan_requested}
use sentri_mesh_astra.Executor.{Host}
use sentri_mesh_astra.Policy.{classify_action}
use sentri_mesh_astra.Response.{State}
use sentri_mesh_astra.Fleet.Schedules.{answer-keeps, guardian_round-keeps, report_round-keeps}
use sentri_mesh_astra.Fleet.Work.{
  Turn, Activity, next_message, request, call, onboard, onboarded_keeps, health_check,
  daily_reports, work, act,
}
use sentri_mesh_astra.Detection.{cached}
use sentri_mesh_astra.Listening.{register_all, receive, call_all, handlers_of, subscribe}
use sentri_mesh_astra.Models.{Incident, ActionProposal, Severity}
use sentri_mesh_astra.Detection.Consistency.{IsConsistent}
use sentri_mesh_astra.System.{proposal_is, publish_in}
use sentri_mesh_astra.Bus.{Message}
use sentri_mesh_astra.Control.{Event, handle}
use sentri_mesh_astra.Control.Incidents.{handle-incidents}
use sentri_mesh_astra.Detection.Kept.{all_fit, on_normalized_event-Keeps}
use sentri_mesh_astra.Pipeline.Kept.{on_new_incident-Keeps}
use sentri_mesh_astra.Guardian.{recheck, on_action_proposed, tier_eq}
use sentri_mesh_astra.Fleet.{
  set_delivered, turn, World, Answers, fresh, flow, registrations, started, as_incoming,
  integration, detection, threat_intel, orchestrator, response, guardian, exposure_scan,
  dependency_scan,
}

abbrev pub WorldIsConsistent : {F : Type 0} → World F → Type 0
WorldIsConsistent w = IsConsistent w.system.incidents w.active_incidents

module _ (host : Host) (enabled : Bool) (answers : Answers) where
  pub recheck-incidents :
      (t k : ℕ) (sev : Severity) (now : ℕ) (found : Option ActionProposal) (s : State host enabled)
      (is : List Incident)
      → s.incidents ≡ is
      → (recheck t k sev now found s).1.incidents ≡ is
  unfolding recheck publish_in
  recheck-incidents t k sev now none s is h = h
  recheck-incidents t k sev now (some p) s is h =
      if_keeps (λ (m : Action (State host enabled) Unit). (m s).1.incidents ≡ is)
        (tier_eq (classify_action p.action_type sev).tier p.tier) _ _ (λ same. h) (λ differ. h)

  receive-Consistent :
      (m : Message) (w : World host.Firewall)
      → WorldIsConsistent w
      → WorldIsConsistent
          (receive (started host enabled answers) (as_incoming host enabled answers m) w)
  unfolding receive register_all subscribe handlers_of call_all registrations fresh integration
      detection threat_intel orchestrator response guardian exposure_scan dependency_scan
      on_action_proposed handle on_scan_requested on_dependency_scan_requested has_key
  receive-Consistent (Message.raw_event e) w h = h
  receive-Consistent (Message.normalized_event t k n) w h =
      on_normalized_event-Keeps Consistent (λ w. Unit {0})
        (λ sighting id now s fits h. open_incident-Consistent sighting now id s h) (λ s r l h. h)
        answers.outside t k n w.next_id (w.next_id + 1) w.now (all_fit answers.outside t k _ _ _ n)
        (flow w) h
  receive-Consistent (Message.incident_new t k c) w h =
      on_new_incident-Keeps Consistent store_verdict-Consistent cache_indicator-Consistent
        answers.lookup_ip t k c w.next_id w.now (flow w) h
  receive-Consistent (Message.incident_enriched t k c) w h =
      on_enriched_incident-Consistent t k c w.now (flow w) h
  receive-Consistent (Message.incident_classified t k sev a c) w h =
      subst (λ is. IsConsistent is w.active_incidents)
        (sym (
          handle-incidents host enabled w.now
            (Event.classified w.next_id (w.next_id + 1) t k sev a c) w.system))
        h
  receive-Consistent (Message.action_proposed t k sev) w h =
      subst (λ is. IsConsistent is w.active_incidents)
        (sym (
          recheck-incidents t k sev w.now (first (proposal_is k) w.system.proposals) w.system
            w.system.incidents refl))
        h
  receive-Consistent (Message.scan_requested t domain) w h =
      report_scan-Consistent _ w.now (flow w) (λ c. no_context c _ refl) h
  receive-Consistent (Message.dependency_scan_requested t ps) w h =
      report_scan-Consistent _ w.now (flow w) (λ c. no_context c _ refl) h
  receive-Consistent (Message.action_approved _ _ _ _) w h = h
  receive-Consistent (Message.action_denied _ _ _ _) w h = h
  receive-Consistent (Message.action_executed _ _ _) w h = h
  receive-Consistent (Message.report_ready _ _) w h = h
  receive-Consistent (Message.guardian_alert _ _) w h = h

  next-Consistent :
      (now : ℕ) (w : World host.Firewall) (ms : List Message)
      → WorldIsConsistent w
      → WorldIsConsistent (elim ms as (λ _. World host.Firewall) [
        | [] ↦ w
        | m ∷ rest ↦ turn host enabled answers (λ before. now) m rest w
      ])
  unfolding turn
  next-Consistent now w [] h = h
  next-Consistent now w (m ∷ rest) h =
      receive-Consistent m (record (set_delivered host enabled answers rest w) { now = now }) h

  act-Consistent :
      (now : ℕ) (a : Activity) (w : World host.Firewall)
      → WorldIsConsistent w
      → WorldIsConsistent (act host enabled answers now a w)
  unfolding act
  act-Consistent now next_message w h = next-Consistent now w w.system.bus.delivered h
  act-Consistent now (request e) w h =
      subst (λ is. IsConsistent is w.active_incidents)
        (sym (handle-incidents host enabled now e w.system)) h
  act-Consistent now (call c) w h =
      answer-keeps WorldIsConsistent (λ w rs cs b n h. h) answers c (record w { now = now }) h
  act-Consistent now (onboard user payload) w h =
      onboarded_keeps host enabled answers WorldIsConsistent user payload (record w { now = now }) h
        (λ t. h)
  act-Consistent now health_check w h =
      guardian_round-keeps WorldIsConsistent (λ w rs cs b n h. h) (record w { now = now }) h
  act-Consistent now daily_reports w h =
      report_round-keeps WorldIsConsistent (λ w rs cs b n h. h) answers (record w { now = now }) h

-- A restart empties the cache.
abbrev pub restarted : {F : Type 0} → World F → World F
restarted w = record w { active_incidents = [] }

module _ (host : Host) (enabled : Bool) where
  worked-Consistent :
      (acts : List Turn) (w : World host.Firewall)
      → WorldIsConsistent w
      → WorldIsConsistent (work host enabled acts w)
  unfolding work
  worked-Consistent [] w h = h
  worked-Consistent ((now, answers, a) ∷ rest) w h =
      worked-Consistent rest (act host enabled answers now a w)
        (act-Consistent host enabled answers now a w h)

  -- Suppose that no two incidents share an id, that every entry of the detection agent's cache names an
  -- active row of its campaign, and that no campaign with a source address has two active rows. All of
  -- this is still so after the agents have worked off any messages, any requests of `Activity` have been
  -- made and the two schedules have run, in any order, and whatever the world outside answers at each
  -- time; it is so as well if the process is then restarted.
  pub work-IsConsistent :
      (acts : List Turn) (w : World host.Firewall)
      → WorldIsConsistent w
      → WorldIsConsistent (work host enabled acts w)
        × WorldIsConsistent (restarted (work host enabled acts w))
  unfolding cached
  work-IsConsistent acts w h =
      let after = worked-Consistent acts w h in
      (after, record { distinct = after.distinct; single = after.single; known = λ c k e. cc })
