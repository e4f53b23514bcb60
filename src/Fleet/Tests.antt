-- ===== src/Fleet/Tests.antt =====
-- A malware event that waits for the agents, and a person who looks on.
use sentri_mesh_astra.Prelude.{
  ◌+◌, ◌≡◌, refl, inr, true, false, none, some, List, [], ◌∷◌, arith, any, lookup,
}
use sentri_mesh_astra.Tenants.{TenantCreate}
use sentri_mesh_astra.Json.{put, has_key, get_or, no_fields, entry, text}
use sentri_mesh_astra.Bus.{Message}
use sentri_mesh_astra.Window.{empty}
use sentri_mesh_astra.Executor.Sample.{sample_host}
use sentri_mesh_astra.Control.{Event}
use sentri_mesh_astra.Control.Sample.{sample, halted_sample, holder}
use sentri_mesh_astra.Control.Safety.Authorized.{IsAuthorized}
use sentri_mesh_astra.Control.Safety.Halted.{IsHalted}
use sentri_mesh_astra.Detection.Events.{Outside}
use sentri_mesh_astra.Fleet.{World, Answers, drain}
use sentri_mesh_astra.Fleet.Schedules.{Call}
use sentri_mesh_astra.Fleet.Work.{
  Turn, onboard, call, health_check, daily_reports, next_message, request, work,
}
use sentri_mesh_astra.Models.{UserRole, Severity}
use sentri_mesh_astra.Json.{get, truthy}
use sentri_mesh_astra.Exposure.{scan_incident}
use sentri_mesh_astra.Fleet.Lasting.{IsUnique}
use sentri_mesh_astra.Fleet.Outcome.{is_for}
use sentri_mesh_astra.Formats.{normalize_for_connector_type, normalize_generic}
use sentri_mesh_astra.Intake.{normalize}
use sentri_mesh_astra.Fleet.Outcome.Cleared.{WorldIsClear}
use sentri_mesh_astra.Fleet.Outcome.Answered.{incident_answered}
use sentri_mesh_astra.Detection.{cached, Sighting, campaign_of, incident_of, value_eq, same_scalar}
use sentri_mesh_astra.Detection.Belongs.{belongs}
use sentri_mesh_astra.Detection.Consistency.{IsConsistent, entered-IsConsistent, added-IsConsistent}
use sentri_mesh_astra.Fleet.Consistency.Single.{WorldIsConsistent, restarted, work-IsConsistent}
use sentri_mesh_astra.Fleet.Ends.{drain_ends}
use sentri_mesh_astra.Fleet.Safety.{work-IsAuthorized, work-IsHalted}

abbrev outside : Outside
outside = record {
  str = λ v. "";
  lookup_country = λ ip. none;
  haversine_km = λ a b c d. 0;
  travel_title = λ user a b. "";
  travel_description = λ user a b t u. "";
}

abbrev answers : Answers
answers = record {
  outside = outside;
  lookup_ip = λ ip. some (record { verdict = "unknown"; score = 0; details = no_fields });
  fetch = λ domain. inr "";
  serpapi = λ domain. none;
  osv = λ p. none;
  github = λ ecosystem name. none;
  float = λ v. none;
  decimal = λ n. "";
  complete = λ prompt. none;
  send = λ subject body. false;
  digest = λ token. token;
}

abbrev seen : Message
seen = Message.raw_event (record {
  tenant_id = 1;
  connector_id = none;
  connector_type = "";
  source = "edr";
  event_type = some "malware_detected";
  occurred_at = none;
  content = entry "src_ip" (text "203.0.113.9") no_fields;
})

abbrev platform : World sample_host.Firewall
platform = record {
  system = record sample { bus = record { audit_log = []; delivered = seen ∷ [] } };
  events = [];
  connectors = [];
  active_incidents = [];
  redis = λ k. empty;
  last_seen = λ k. none;
  indicators = [];
  reports = [];
  next_id = 100;
  now = 10;
}

abbrev halted_platform : World sample_host.Firewall
halted_platform = record platform {
  system = record halted_sample { bus = record { audit_log = []; delivered = seen ∷ [] } };
}

abbrev newcomer : TenantCreate
newcomer = record { name = "New Ltd"; domain = "new.example"; sector = "general" }

abbrev busy : List Turn
busy =
    (11, answers, next_message)
    ∷ (12, answers, request (Event.decide holder 1 20 true "go"))
    ∷ (13, answers, next_message)
    ∷ (14, answers, next_message)
    ∷ (15, answers, onboard (record holder { role = UserRole.admin }) newcomer)
    ∷ (15, answers, health_check)
    ∷ (16, answers, call (Call.exposure_scan holder 1 "example.com"))
    ∷ (17, answers, next_message)
    ∷ (18, answers, daily_reports)
    ∷ []

drain_ends_example :
    (last : World sample_host.Firewall) × (drain sample_host true answers (λ t. t + 1) 14 platform
      ≡ some last)
    × (last.system.bus.delivered ≡ [])
drain_ends_example = drain_ends sample_host true answers (λ t. t + 1) 14 platform (omega arith)

work-IsAuthorized_example :
    IsAuthorized sample_host true (work sample_host true busy platform).system
work-IsAuthorized_example = work-IsAuthorized sample_host true busy platform (refl, tt)

work-IsHalted_example :
    IsHalted sample_host true 1 halted_platform.system.proposals
      (work sample_host true busy halted_platform).system
work-IsHalted_example =
    work-IsHalted sample_host true 1 busy halted_platform
      (refl, (refl, (refl, (refl, (refl, (refl, (refl, (refl, (refl, tt))))))))) refl

abbrev alarmed : World sample_host.Firewall
alarmed = record platform {
  system = record sample {
    incidents = scan_incident 1 "Scan" "" Severity.high true no_fields 3 10 ∷ [];
    bus = record { audit_log = []; delivered = seen ∷ Message.incident_new 1 3 no_fields ∷ [] };
  };
}

nothing_known : IsUnique []
nothing_known ip = omega arith

alarmed_clear : WorldIsClear outside.str alarmed
unfolding normalize_for_connector_type normalize_generic normalize lookup get get_or has_key truthy
alarmed_clear = (((tt, refl), tt), (tt, (tt, tt)))

incident_answered_example :
    (last : World sample_host.Firewall) × (drain sample_host true answers (λ t. t + 1) 28 alarmed
      ≡ some last)
    × (any (is_for 3) last.system.proposals ≡ true)
unfolding get truthy
incident_answered_example =
    incident_answered sample_host true answers 3 (λ ip. refl) (λ t. t + 1) 28 alarmed refl refl
      (omega arith, tt) nothing_known alarmed_clear (omega arith)

no_incident_yet : IsConsistent [] []
unfolding cached
no_incident_yet = record {
  distinct = λ k. omega arith;
  known = λ c k e. cc;
  single = λ c. omega arith;
}

-- An open campaign from the address of the event that waits.
abbrev campaign : Sighting
campaign = record {
  tenant_id = 1;
  title = "Malware indicator detected";
  description = "";
  technique_key = "malware_signature";
  related_event_ids = [];
  context = entry "src_ip" (text "203.0.113.9") no_fields;
  vendor_mitre_techniques = [];
}

abbrev infected : World sample_host.Firewall
infected = record platform {
  system = record platform.system { incidents = incident_of campaign 3 9 ∷ [] };
  active_incidents = (campaign_of campaign, 3) ∷ [];
}

infected_start : WorldIsConsistent infected
unfolding belongs incident_of get get_or has_key put value_eq same_scalar
infected_start =
    entered-IsConsistent (campaign_of campaign) 3 (incident_of campaign 3 9)
      (incident_of campaign 3 9 ∷ []) [] refl refl
      (added-IsConsistent (incident_of campaign 3 9) [] [] refl (λ c mine. refl) no_incident_yet)

work-IsConsistent_example :
    WorldIsConsistent (work sample_host true busy infected)
    × WorldIsConsistent (restarted (work sample_host true busy infected))
work-IsConsistent_example = work-IsConsistent sample_host true busy infected infected_start
