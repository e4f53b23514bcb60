-- ===== src/Reporting/Tests.antt =====
-- A report on a day with one incident and one proposal that waits.
use sentri_mesh_astra.Prelude.{
  ℕ, ◌+◌, String, ◌≡◌, refl, true, false, none, some, [], ◌∷◌, ◌++◌, if◌then◌else◌, length, first,
  ok,
}
use sentri_mesh_astra.Json.{no_fields}
use sentri_mesh_astra.Models.{Severity, ActionProposal, AutonomyTier}
use sentri_mesh_astra.Bus.{Message}
use sentri_mesh_astra.Control.{has_access}
use sentri_mesh_astra.Control.Sample.{acme, holder}
use sentri_mesh_astra.Exposure.{scan_incident}
use sentri_mesh_astra.Reporting.{
  Archive, report_from, report_is, by_severity, generate_now, executed_actions, pending_actions,
  incidents_of, actions_of,
}
use sentri_mesh_astra.Reporting.Counts.{IsRight, generate_now_counts}

abbrev waiting : ActionProposal
waiting = record {
  id = 7;
  tenant_id = 1;
  incident_id = 3;
  action_type = "block_ip";
  parameters = no_fields;
  tier = AutonomyTier.tier2_one_tap;
  rationale = "";
  reversible = true;
  rollback_plan = "";
  executed = false;
  executed_at = none;
  execution_result = no_fields;
  created_at = 100000;
}

abbrev archive : Archive
archive = record {
  tenants = acme ∷ [];
  incidents = scan_incident 1 "Scan" "" Severity.high true no_fields 3 100000 ∷ [];
  actions = waiting ∷ [];
  reports = [];
  bus = record { audit_log = []; delivered = [] };
}

abbrev two : ℕ → String
two n = "2"

generate_now_counts_example :
    let is = incidents_of 1 100005 archive.incidents in
    let ps = actions_of 1 100005 archive.actions in
    let r = report_from two (λ p. none) 1 9 100005 archive in
    let sent = (λ (subject body : String). true) "Daily Security Report" r.summary in
    let out = generate_now two (λ p. none) (λ subject body. true) holder 1 9 100005 archive in
    (out.0 ≡ ok r)
    × IsRight 1 100005 archive.incidents archive.actions r.body
    × (by_severity is Severity.low
          + by_severity is Severity.medium
          + by_severity is Severity.high
          + by_severity is Severity.critical
        ≡ length is)
    × (executed_actions ps + pending_actions ps ≡ length ps)
    × (first (report_is 9) out.1.reports ≡ some (if sent then record r { emailed = true } else r))
    × (out.1.bus.delivered ≡ archive.bus.delivered ++ Message.report_ready 1 9 ∷ [])
unfolding has_access
generate_now_counts_example =
    generate_now_counts two (λ p. none) (λ subject body. true) holder 1 9 100005 archive refl refl

pending_run : pending_actions (actions_of 1 100005 archive.actions) ≡ 1
pending_run = refl
