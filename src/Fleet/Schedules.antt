-- ===== src/Fleet/Schedules.antt =====
-- The two schedules of backend/app/agents/runner.py, on demand reports, and the requests that connectors and
-- people make to the rest of the platform, over all the tables.
use sentri_mesh_astra.Prelude.{
  ℕ, ◌+◌, String, Option, List, [], ◌∷◌, map, Action, pure, ◌>>◌, zoom, >>=_keeps,
}
use sentri_mesh_astra.Models.{User}
use sentri_mesh_astra.Guardian.{check_connector_health}
use sentri_mesh_astra.Reporting.{Archive, generate_daily_report, generate_now}
use sentri_mesh_astra.Connectors.{
  Hub, IngestEvent, ConnectorCreate, ingest_event, request_exposure_scan, request_dependency_scan,
  add_connector, rotate_token,
}
use sentri_mesh_astra.Bus.{Bus, Package}
use sentri_mesh_astra.Fleet.{ConnectorConfig, Report, World, Answers, fresh}

-- Requests to the routers of connectors, ingest and reports.
pub data Call : Type 0 where
  ingest : ℕ → IngestEvent → Option String → Call
  exposure_scan : User → ℕ → String → Call
  dependency_scan : User → ℕ → List Package → Call
  connect : User → ℕ → ConnectorCreate → String → Call
  rotate : User → ℕ → ℕ → String → Call
  report_now : User → ℕ → Call

module _ {F : Type 0} where
  -- What the reporting agent has of the world, and what it writes.
  abbrev archive : World F → Archive
  archive w = record {
    tenants = w.system.tenants;
    incidents = w.system.incidents;
    actions = w.system.proposals;
    reports = w.reports;
    bus = w.system.bus;
  }

  abbrev set_archive : Archive → World F → World F
  set_archive a w = record w { reports = a.reports; system = record w.system { bus = a.bus } }

  abbrev pub on_archive : {A : Type 0} → Action Archive A → Action (World F) A
  on_archive = zoom archive set_archive

  abbrev hub : World F → Hub
  hub w = record { connectors = w.connectors; bus = w.system.bus }

  abbrev set_hub : Hub → World F → World F
  set_hub h w = record w { connectors = h.connectors; system = record w.system { bus = h.bus } }

  abbrev pub on_hub : {A : Type 0} → Action Hub A → Action (World F) A
  on_hub = zoom hub set_hub

  -- One round of `_guardian_health_loop`.
  unfoldable pub guardian_round : World F → World F
  guardian_round w = record w {
    system = record w.system { bus = (check_connector_health w.now w.connectors w.system.bus).1 };
  }

  module _ (answers : Answers) where
    -- The loop over the tenants: what one of them raises ends it.
    unfoldable pub report_each : List ℕ → Action (World F) Unit
    report_each [] = pure tt
    report_each (tenant_id ∷ rest) =
        fresh (λ id id' now. on_archive (
          generate_daily_report answers.decimal answers.complete answers.send tenant_id id now
          >> pure tt))
        >> report_each rest

    -- One round of `_daily_report_loop`.
    unfoldable pub report_round : World F → World F
    report_round w = (report_each (map (λ t. t.id) w.system.tenants) w).1

    -- A request, with the fresh ids and the time.
    unfoldable pub answer : Call → Action (World F) Unit
    answer (Call.ingest tenant_id body authorization) =
        fresh (λ id id' now. on_hub (ingest_event answers.digest tenant_id body authorization now))
    answer (Call.exposure_scan user tenant_id domain) =
        fresh (λ id id' now. on_hub (request_exposure_scan user tenant_id domain now))
    answer (Call.dependency_scan user tenant_id packages) =
        fresh (λ id id' now. on_hub (request_dependency_scan user tenant_id packages now))
    answer (Call.connect user tenant_id body secret) = fresh (λ id id' now.
        on_hub (add_connector answers.digest user tenant_id body id secret now >> pure tt))
    answer (Call.rotate user tenant_id connector_id secret) = fresh (λ id id' now.
        on_hub (rotate_token answers.digest user tenant_id connector_id secret >> pure tt))
    answer (Call.report_now user tenant_id) = fresh (λ id id' now. on_archive (
        generate_now answers.decimal answers.complete answers.send user tenant_id id now
        >> pure tt))

-- What holds of the world, whatever its reports, connectors and messages are, holds after all of these.
module _ {F : Type 0} (P : World F → Type 0)
    (ignores : (w : World F) (rs : List Report) (cs : List ConnectorConfig) (b : Bus) (n : ℕ)
      → P w
      → P (record w {
        reports = rs;
        connectors = cs;
        next_id = n;
        system = record w.system { bus = b };
      })) where
  pub guardian_round-keeps : (w : World F) → P w → P (guardian_round w)
  unfolding guardian_round
  guardian_round-keeps w h = ignores w w.reports w.connectors _ w.next_id h

  report_each-keeps :
      (answers : Answers) (ts : List ℕ) (w : World F) → P w → P (report_each answers ts w).1
  unfolding report_each fresh
  report_each-keeps answers [] w h = h
  report_each-keeps answers (t ∷ ts) w h =
      >>=_keeps P
        (fresh (λ id id' now. on_archive (
          generate_daily_report answers.decimal answers.complete answers.send t id now >> pure tt)))
        (λ _. report_each answers ts) w (ignores w _ w.connectors _ (w.next_id + 2) h)
        (λ a e kept. report_each-keeps answers ts _ kept)

  pub report_round-keeps : (answers : Answers) (w : World F) → P w → P (report_round answers w)
  unfolding report_round
  report_round-keeps answers w h = report_each-keeps answers (map (λ t. t.id) w.system.tenants) w h

  pub answer-keeps : (answers : Answers) (c : Call) (w : World F) → P w → P (answer answers c w).1
  unfolding answer fresh
  answer-keeps answers (Call.ingest t body authorization) w h =
      ignores w w.reports _ _ (w.next_id + 2) h
  answer-keeps answers (Call.exposure_scan user t domain) w h =
      ignores w w.reports _ _ (w.next_id + 2) h
  answer-keeps answers (Call.dependency_scan user t packages) w h =
      ignores w w.reports _ _ (w.next_id + 2) h
  answer-keeps answers (Call.connect user t body secret) w h =
      ignores w w.reports _ _ (w.next_id + 2) h
  answer-keeps answers (Call.rotate user t k secret) w h = ignores w w.reports _ _ (w.next_id + 2) h
  answer-keeps answers (Call.report_now user t) w h = ignores w _ w.connectors _ (w.next_id + 2) h
