-- ===== src/Fleet.antt =====
-- backend/app/agents/runner.py: the eight agents on one bus, over all the tables at once, and the loop of
-- backend/app/bus.py that hands each message to them until none is left.
pub mod Load
pub mod Lasting
pub mod Outcome
pub mod Detecting
pub mod Agents
pub mod Responding
pub mod Ends
pub mod Schedules
pub mod Work
pub mod Consistency
pub mod Safety
mod Tests
use sentri_mesh_astra.Exposure.Scanner.{ExposureFinding, scan_domain}
use sentri_mesh_astra.Prelude.{
  ℕ, zero, suc, ◌+◌, String, ◌⊎◌, Bool, Option, none, some, List, [], ◌∷◌, map, Action, raise, zoom,
  exception,
}
use sentri_mesh_astra.Json.{Value}
use sentri_mesh_astra.Models.{Report, Key, LogEvent, ConnectorConfig, ThreatIndicator}
use sentri_mesh_astra.Bus.{Bus, Message, Package, channel_of}
use sentri_mesh_astra.Window.{Redis}
use sentri_mesh_astra.System.{System}
use sentri_mesh_astra.Executor.{Host}
use sentri_mesh_astra.Response.{on_classified_incident}
use sentri_mesh_astra.Guardian.{on_action_proposed}
use sentri_mesh_astra.Intake.{Intake, on_raw_event}
use sentri_mesh_astra.Detection.{Flow, Campaign, LastSeen}
use sentri_mesh_astra.Detection.Events.{Outside, on_normalized_event}
use sentri_mesh_astra.Pipeline.{Verdict, on_new_incident, on_enriched_incident}
use sentri_mesh_astra.Exposure.{on_scan_requested, on_dependency_scan_requested}
use sentri_mesh_astra.Exposure.Advisories.{PackageReport, check_package}
use sentri_mesh_astra.Exposure.Sources.{Reply, query_osv, query_github_advisories, searched}
use sentri_mesh_astra.Listening.{Handler, Handlers, Incoming, register_all, receive}

-- Everything that the agents read and write. The next fresh id and the time stand in for uuids and for
-- `datetime.utcnow()`.
pub record World (F : Type 0) : Type 0 where
  pub system : System F
  pub events : List LogEvent
  pub connectors : List ConnectorConfig
  pub active_incidents : List (Campaign × ℕ)
  pub redis : Redis
  pub last_seen : Key → Option LastSeen
  pub indicators : List ThreatIndicator
  pub reports : List Report
  pub next_id : ℕ
  pub now : ℕ

-- The answers that the agents get from outside: `send` says whether a mail was sent, `decimal` prints a number,
-- `complete` is the language model, `digest` is SHA-256, `float` reads a score in tenths, and `serpapi` has no
-- reply without a key.
pub record Answers : Type 0 where
  pub outside : Outside
  pub lookup_ip : String → Option Verdict
  pub fetch : String → List (String × String) ⊎ String
  pub serpapi : String → Option Reply
  pub osv : Package → Reply
  pub github : String → String → Reply
  pub float : Value → Option ℕ
  pub decimal : ℕ → String
  pub complete : String → Option String
  pub send : String → String → Bool
  pub digest : String → String

module _ {F : Type 0} where
  -- What the integration agent has of the world, and what it leaves.
  abbrev pub intake : World F → Intake
  intake w = record { events = w.events; connectors = w.connectors; bus = w.system.bus }

  abbrev pub set_intake : Intake → World F → World F
  set_intake i w = record w {
    events = i.events;
    connectors = i.connectors;
    system = record w.system { bus = i.bus };
  }

  -- The same for the agents that work on incidents.
  abbrev pub flow : World F → Flow
  flow w = record {
    incidents = w.system.incidents;
    active_incidents = w.active_incidents;
    redis = w.redis;
    last_seen = w.last_seen;
    indicators = w.indicators;
    bus = w.system.bus;
  }

  abbrev pub set_flow : Flow → World F → World F
  set_flow f w = record w {
    system = record w.system { incidents = f.incidents; bus = f.bus };
    active_incidents = f.active_incidents;
    redis = f.redis;
    last_seen = f.last_seen;
    indicators = f.indicators;
  }

  abbrev pub on_intake : Action Intake Unit → Action (World F) Unit
  on_intake = zoom intake set_intake

  abbrev pub on_flow : Action Flow Unit → Action (World F) Unit
  on_flow = zoom flow set_flow

  abbrev pub on_system : Action (System F) Unit → Action (World F) Unit
  on_system = zoom (λ w. w.system) (λ s w. record w { system = s })

  -- A handler with two fresh ids and the time.
  unfoldable pub fresh : (ℕ → ℕ → ℕ → Action (World F) Unit) → Action (World F) Unit
  fresh handler w = handler w.next_id (w.next_id + 1) w.now (record w { next_id = w.next_id + 2 })

abbrev pub reports_of : Answers → List Package → List PackageReport
reports_of a ps =
    map
      (λ p.
        check_package p (query_osv a.float (a.osv p))
          (query_github_advisories a.github p.ecosystem p.name))
      ps

module _ (host : Host) (enabled : Bool) (answers : Answers) where
  abbrev pub Agent : Type 0
  Agent = Handler Message (World host.Firewall)

  -- The handlers that the agents subscribe, on the payloads of their channels.
  unfoldable pub integration : Agent
  integration (Message.raw_event e) =
      fresh (λ id id' now. on_intake (on_raw_event answers.outside.str e id now))
  integration _ = raise exception

  unfoldable pub detection : Agent
  detection (Message.normalized_event tenant_id event_id normalized) = fresh (λ id id' now.
      on_flow (on_normalized_event answers.outside tenant_id event_id normalized id id' now))
  detection _ = raise exception

  unfoldable pub threat_intel : Agent
  threat_intel (Message.incident_new tenant_id incident_id context) = fresh (λ id id' now.
      on_flow (on_new_incident answers.lookup_ip tenant_id incident_id context id now))
  threat_intel _ = raise exception

  unfoldable pub orchestrator : Agent
  orchestrator (Message.incident_enriched tenant_id incident_id context) =
      fresh (λ id id' now. on_flow (on_enriched_incident tenant_id incident_id context now))
  orchestrator _ = raise exception

  unfoldable pub response : Agent
  response (Message.incident_classified tenant_id incident_id severity action context) =
      fresh (λ id id' now. on_system (
        on_classified_incident host enabled now id id' tenant_id incident_id severity action
          context))
  response _ = raise exception

  unfoldable pub guardian : Agent
  guardian (Message.action_proposed tenant_id proposal_id severity) =
      fresh (λ id id' now. on_system (on_action_proposed tenant_id proposal_id (some severity) now))
  guardian _ = raise exception

  unfoldable pub exposure_scan : Agent
  exposure_scan (Message.scan_requested tenant_id domain) = fresh (λ id id' now. on_flow (
      on_scan_requested answers.outside.str tenant_id (scan_domain domain (answers.fetch domain))
        (searched answers.outside.str (answers.serpapi domain)) id now))
  exposure_scan _ = raise exception

  unfoldable pub dependency_scan : Agent
  dependency_scan (Message.dependency_scan_requested tenant_id packages) = fresh (λ id id' now.
      on_flow (
        on_dependency_scan_requested answers.outside.str tenant_id (reports_of answers packages) id
          now))
  dependency_scan _ = raise exception

  -- The `register` of each of `agents`, in the order of `AgentFleet.start`.
  unfoldable pub registrations : List (String × Agent)
  registrations =
      ("incidents.enriched", orchestrator)
      ∷ ("events.raw", integration)
      ∷ ("events.normalized", detection)
      ∷ ("incidents.new", threat_intel)
      ∷ ("exposure.scan_requested", exposure_scan)
      ∷ ("exposure.dependency_scan_requested", dependency_scan)
      ∷ ("incidents.classified", response)
      ∷ ("actions.proposed", guardian)
      ∷ []

  -- The dictionary of the bus once every agent has registered.
  abbrev pub started : Handlers Message (World host.Firewall)
  started = register_all registrations []

  abbrev pub as_incoming : Message → Incoming Message
  as_incoming m = record { kind = "message"; channel = channel_of m; payload = some m }

  abbrev pub set_delivered : List Message → World host.Firewall → World host.Firewall
  set_delivered ms w = record w {
    system = record w.system { bus = record w.system.bus { delivered = ms } };
  }

  -- The oldest message is taken from Redis, at the time that `clock` gives, and received.
  unfoldable pub turn : (ℕ → ℕ) → Message → List Message → World host.Firewall → World host.Firewall
  turn clock m rest w =
      receive started (as_incoming m) (record (set_delivered rest w) { now = clock w.now })

  -- The loop until no message is left, `none` if `fuel` turns are not enough.
  unfoldable pub drain : (ℕ → ℕ) → ℕ → World host.Firewall → Option (World host.Firewall)
  drain clock zero w = elim w.system.bus.delivered [ [] ↦ some w | m ∷ rest ↦ none ]
  drain clock (suc fuel) w = elim w.system.bus.delivered [
    | [] ↦ some w
    | m ∷ rest ↦ drain clock fuel (turn clock m rest w)
  ]
