-- ===== src/Policy/Tests.antt =====
-- Inputs at which the theorems about backend/app/policy/engine.py apply, and runs of its code.
use sentri_mesh_astra.Prelude.{◌≤◌, ◌≡◌, refl, ◌≢◌, ◌↔◌, true, false, none, arith, contains, lookup}
use sentri_mesh_astra.Models.{Severity, AutonomyTier, severity_rank}
use sentri_mesh_astra.Policy.{
  Signals, tier2_actions, action_reversibility, tier1_actions, classify_action,
  severity_from_signals, reversibility,
}
use sentri_mesh_astra.Policy.Tiers.{classify_action_exact, classify_action-irreversible}
use sentri_mesh_astra.Policy.Scoring.{
  IsMilder, evidence, severity_from_signals_monotone, severity_from_signals-evidence,
}

block_ip_critical :
    (classify_action "block_ip" Severity.critical).tier ≡ AutonomyTier.tier3_human_only
unfolding classify_action reversibility contains lookup
block_ip_critical = refl

classify_action_exact_example :
    (((classify_action "block_ip" Severity.high).tier ≡ AutonomyTier.tier1_auto)
      ↔ (contains tier1_actions "block_ip" ≡ true))
    × (((classify_action "block_ip" Severity.high).tier ≡ AutonomyTier.tier2_one_tap)
        ↔ ((contains tier2_actions "block_ip" ≡ true) × (Severity.high ≢ Severity.critical)))
classify_action_exact_example = classify_action_exact "block_ip" Severity.high

classify_action-irreversible_example :
    ((classify_action "wipe_endpoint" Severity.low).reversible ≡ false
      → (classify_action "wipe_endpoint" Severity.low).tier ≡ AutonomyTier.tier3_human_only)
    × (lookup "wipe_endpoint" action_reversibility ≡ none
        → ((classify_action "wipe_endpoint" Severity.low).reversible ≡ false)
          × ((classify_action "wipe_endpoint" Severity.low).tier ≡ AutonomyTier.tier3_human_only))
classify_action-irreversible_example = classify_action-irreversible "wipe_endpoint" Severity.low

abbrev quiet : Signals
quiet = record {
  failed_login_count = 4;
  malicious_indicator = false;
  new_admin_activity = false;
  impossible_travel = false;
  malware_detected = false;
}

abbrev burst : Signals
burst = record quiet { failed_login_count = 20; malicious_indicator = true }

quiet-IsMilder : IsMilder quiet burst
quiet-IsMilder = ground arith

severity_from_signals_monotone_example :
    severity_rank (severity_from_signals quiet) ≤ severity_rank (severity_from_signals burst)
severity_from_signals_monotone_example = severity_from_signals_monotone quiet burst quiet-IsMilder

severity_from_signals-evidence_example :
    ((severity_from_signals burst ≡ Severity.low) ↔ (evidence burst ≡ 0))
    × (severity_from_signals burst ≡ Severity.critical → 2 ≤ evidence burst)
    × (burst.impossible_travel ≡ true → 2 ≤ severity_rank (severity_from_signals burst))
severity_from_signals-evidence_example = severity_from_signals-evidence burst
