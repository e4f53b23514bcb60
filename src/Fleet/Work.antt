-- ===== src/Fleet/Work.antt =====
-- The platform at work: the loop of backend/app/bus.py and the requests of people, in any order, and what a
-- predicate needs in order to hold throughout.
use sentri_mesh_astra.Prelude.{
  ℕ, ◌+◌, String, ◌≡◌, refl, Bool, Option, none, some, List, [], ◌∷◌, ◌++◌, first, All, Action,
  pure, ◌>>◌, zoom, >>=_keeps, if_keeps,
}
use sentri_mesh_astra.Policy.{classify_action}
use sentri_mesh_astra.Json.{Fields}
use sentri_mesh_astra.Bus.{Bus, Message}
use sentri_mesh_astra.Models.{
  User, Tenant, Report, ConnectorConfig, Incident, ActionProposal, Severity,
}
use sentri_mesh_astra.System.{publish_in, proposal_is}
use sentri_mesh_astra.Executor.{Host}
use sentri_mesh_astra.Response.{State}
use sentri_mesh_astra.Guardian.{recheck, on_action_proposed, tier_eq}
use sentri_mesh_astra.Control.{Event, handle}
use sentri_mesh_astra.Listening.{subscribe, register_all, receive, handlers_of, call_all}
use sentri_mesh_astra.Tenants.{TenantCreate, create_tenant, tenant_from}
use sentri_mesh_astra.Tenants.Created.{create_tenant_keeps}
use sentri_mesh_astra.Fleet.Schedules.{
  Call, answer, guardian_round, report_round, answer-keeps, guardian_round-keeps,
  report_round-keeps,
}
use sentri_mesh_astra.Fleet.{
  World, Answers, fresh, registrations, started, as_incoming, integration, detection, threat_intel,
  orchestrator, response, guardian, exposure_scan, dependency_scan, turn, set_delivered,
}

-- One turn of the loop of the bus, a request to a router of Control, of Schedules or to `create_tenant`, or a
-- round of one of the two schedules.
pub data Activity : Type 0 where
  next_message : Activity
  request : Event → Activity
  call : Call → Activity
  onboard : User → TenantCreate → Activity
  health_check : Activity
  daily_reports : Activity

module _ (host : Host) (enabled : Bool) (answers : Answers) where
  abbrev next : ℕ → World host.Firewall → World host.Firewall
  next now w = elim w.system.bus.delivered [
    | [] ↦ w
    | m ∷ rest ↦ turn host enabled answers (λ before. now) m rest w
  ]

  -- `create_tenant` on the table of companies.
  unfoldable pub onboarded : User → TenantCreate → Action (World host.Firewall) Unit
  onboarded user payload = fresh (λ id id' now.
      zoom (λ w. w.system.tenants) (λ ts w. record w { system = record w.system { tenants = ts } })
        (create_tenant user payload id now >> pure tt))

  -- What holds with the companies there are, and with one more at their end, holds after it.
  pub onboarded_keeps :
      (Q : World host.Firewall → Type 0) (user : User) (payload : TenantCreate)
      (w : World host.Firewall)
      → Q (record w { next_id = w.next_id + 2 })
      → ((t : Tenant)
          → Q (record w {
            next_id = w.next_id + 2;
            system = record w.system { tenants = w.system.tenants ++ t ∷ [] };
          }))
      → Q (onboarded user payload w).1
  unfolding onboarded fresh
  onboarded_keeps Q user payload w same more =
      >>=_keeps
        (λ ts. Q (record w { next_id = w.next_id + 2; system = record w.system { tenants = ts } }))
        (create_tenant user payload w.next_id w.now) (λ t. pure tt) w.system.tenants
        (create_tenant_keeps
          (λ ts.
            Q (record w { next_id = w.next_id + 2; system = record w.system { tenants = ts } }))
          user payload w.next_id w.now w.system.tenants same
          (more (tenant_from payload w.next_id w.now)))
        (λ a e kept. kept)

  unfoldable pub act : ℕ → Activity → World host.Firewall → World host.Firewall
  act now next_message w = next now w
  act now (request e) w = record w { system = (handle host enabled now e w.system).1 }
  act now (call c) w = (answer answers c (record w { now = now })).1
  act now (onboard user payload) w = (onboarded user payload (record w { now = now })).1
  act now health_check w = guardian_round (record w { now = now })
  act now daily_reports w = report_round answers (record w { now = now })

  module _ (P : State host enabled → Type 0)
      (ignores : (s : State host enabled) (is : List Incident) (b : Bus)
        → P s
        → P (record s { incidents = is; bus = b }))
      (joins : (s : State host enabled) (t : Tenant)
        → P s
        → P (record s { tenants = s.tenants ++ t ∷ [] }))
      (Allowed : Event → Type 0)
      (step : (now : ℕ) (e : Event) (s : State host enabled)
        → Allowed e
        → P s
        → P (handle host enabled now e s).1)
      (agent_may : (p a t k : ℕ) (sev : Severity) (o : Option String) (c : Fields)
        → Allowed (Event.classified p a t k sev o c)) where
    recheck-keeps :
        (t k : ℕ) (sev : Severity) (now : ℕ) (found : Option ActionProposal)
        (s : State host enabled)
        → P s
        → P (recheck t k sev now found s).1
    unfolding recheck publish_in
    recheck-keeps t k sev now none s h = h
    recheck-keeps t k sev now (some p) s h =
        if_keeps (λ (m : Action (State host enabled) Unit). P (m s).1)
          (tier_eq (classify_action p.action_type sev).tier p.tier) _ _ (λ same. h)
          (λ differ. ignores s s.incidents _ h)

    receive-keeps :
        (m : Message) (w : World host.Firewall)
        → P w.system
        → P (receive (started host enabled answers) (as_incoming host enabled answers m) w).system
    unfolding receive register_all subscribe handlers_of call_all registrations fresh integration
        detection threat_intel orchestrator response guardian exposure_scan dependency_scan
        on_action_proposed handle
    receive-keeps (Message.raw_event e) w h = ignores w.system _ _ h
    receive-keeps (Message.normalized_event t k n) w h = ignores w.system _ _ h
    receive-keeps (Message.incident_new t k c) w h = ignores w.system _ _ h
    receive-keeps (Message.incident_enriched t k c) w h = ignores w.system _ _ h
    receive-keeps (Message.incident_classified t k sev a c) w h =
        step w.now (Event.classified w.next_id (w.next_id + 1) t k sev a c) w.system
          (agent_may w.next_id (w.next_id + 1) t k sev a c) h
    receive-keeps (Message.action_proposed t k sev) w h =
        recheck-keeps t k sev w.now (first (proposal_is k) w.system.proposals) w.system h
    receive-keeps (Message.scan_requested t domain) w h = ignores w.system _ _ h
    receive-keeps (Message.dependency_scan_requested t ps) w h = ignores w.system _ _ h
    receive-keeps (Message.action_approved _ _ _ _) w h = h
    receive-keeps (Message.action_denied _ _ _ _) w h = h
    receive-keeps (Message.action_executed _ _ _) w h = h
    receive-keeps (Message.report_ready _ _) w h = h
    receive-keeps (Message.guardian_alert _ _) w h = h

    next-keeps :
        (now : ℕ) (w : World host.Firewall) (ms : List Message)
        → P w.system
        → P
            (elim ms as (λ _. World host.Firewall) [
              | [] ↦ w
              | m ∷ rest ↦ turn host enabled answers (λ before. now) m rest w
            ]).system
    unfolding turn
    next-keeps now w [] h = h
    next-keeps now w (m ∷ rest) h =
        receive-keeps m (record (set_delivered host enabled answers rest w) { now = now })
          (ignores w.system w.system.incidents _ h)

    abbrev HoldsOfSystem : World host.Firewall → Type 0
    HoldsOfSystem w = P w.system

    ignores_rest :
        (w : World host.Firewall) (rs : List Report) (cs : List ConnectorConfig) (b : Bus) (n : ℕ)
        → HoldsOfSystem w
        → HoldsOfSystem (record w {
          reports = rs;
          connectors = cs;
          next_id = n;
          system = record w.system { bus = b };
        })
    ignores_rest w rs cs b n h = ignores w.system w.system.incidents b h

    pub act-keeps :
        (now : ℕ) (a : Activity) (w : World host.Firewall)
        → ((e : Event) → a ≡ request e → Allowed e)
        → P w.system
        → P (act now a w).system
    unfolding act
    act-keeps now next_message w may h = next-keeps now w w.system.bus.delivered h
    act-keeps now (request e) w may h = step now e w.system (may e refl) h
    act-keeps now (call c) w may h =
        answer-keeps HoldsOfSystem ignores_rest answers c (record w { now = now }) h
    act-keeps now (onboard user payload) w may h =
        onboarded_keeps HoldsOfSystem user payload (record w { now = now }) h
          (λ t. joins w.system t h)
    act-keeps now health_check w may h =
        guardian_round-keeps HoldsOfSystem ignores_rest (record w { now = now }) h
    act-keeps now daily_reports w may h =
        report_round-keeps HoldsOfSystem ignores_rest answers (record w { now = now }) h

-- An activity with its time, and with what the world outside answers while it goes on.
abbrev pub Turn : Type 0
Turn = ℕ × Answers × Activity

module _ (host : Host) (enabled : Bool) where
  -- A handler runs to its end before a request, and the other way round.
  unfoldable pub work : List Turn → World host.Firewall → World host.Firewall
  work [] w = w
  work ((now, answers, a) ∷ rest) w = work rest (act host enabled answers now a w)

  module _ (P : State host enabled → Type 0)
      (ignores : (s : State host enabled) (is : List Incident) (b : Bus)
        → P s
        → P (record s { incidents = is; bus = b }))
      (joins : (s : State host enabled) (t : Tenant)
        → P s
        → P (record s { tenants = s.tenants ++ t ∷ [] }))
      (Allowed : Event → Type 0)
      (step : (now : ℕ) (e : Event) (s : State host enabled)
        → Allowed e
        → P s
        → P (handle host enabled now e s).1)
      (agent_may : (p a t k : ℕ) (sev : Severity) (o : Option String) (c : Fields)
        → Allowed (Event.classified p a t k sev o c)) where
    pub work-keeps :
        (acts : List Turn) (w : World host.Firewall)
        → All (λ (a : Turn). (e : Event) → a.2 ≡ request e → Allowed e) acts
        → P w.system
        → P (work acts w).system
    unfolding work
    work-keeps [] w may h = h
    work-keeps ((now, answers, a) ∷ rest) w may h =
        work-keeps rest (act host enabled answers now a w) may.1
          (act-keeps host enabled answers P ignores joins Allowed step agent_may now a w may.0 h)
