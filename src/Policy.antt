-- ===== src/Policy.antt =====
-- backend/app/policy/engine.py: the autonomy tier of a proposed action, and the severity score.
pub mod Tiers
pub mod Scoring
mod Tests
use sentri_mesh_astra.Prelude.{
  ℕ, ◌+◌, String, ◌<>◌, Bool, true, false, not, ◌||◌, none, some, List, [], ◌∷◌, leb, ◌==◌,
  if◌then◌else◌, contains, lookup,
}
use sentri_mesh_astra.Models.{Severity, AutonomyTier, is_critical}

abbrev pub tier3_actions : List String
tier3_actions =
    "disable_account" ∷ "delete_resource" ∷ "revoke_all_sessions" ∷ "wipe_endpoint"
    ∷ "terminate_instance" ∷ "delete_user" ∷ []

abbrev pub tier2_actions : List String
tier2_actions =
    "block_ip" ∷ "quarantine_endpoint" ∷ "force_password_reset" ∷ "disable_forwarding_rule"
    ∷ "revoke_api_key" ∷ []

abbrev pub tier1_actions : List String
tier1_actions =
    "enrich_indicator" ∷ "tag_incident" ∷ "notify" ∷ "open_ticket" ∷ "rate_limit_ip" ∷ []

abbrev pub action_reversibility : List (String × (Bool × String))
action_reversibility =
    ("disable_account", (true, "Re-enable the account via the same connector."))
    ∷ ("delete_resource", (false, "No automatic rollback — this action is irreversible by design."))
    ∷ (
      "revoke_all_sessions",
      (true, "Sessions re-establish on next successful login; no data lost."),
    )
    ∷ ("wipe_endpoint", (false, "No automatic rollback — this action is irreversible by design."))
    ∷ ("terminate_instance", (false, "No automatic rollback unless a snapshot/backup exists."))
    ∷ ("delete_user", (false, "No automatic rollback — this action is irreversible by design."))
    ∷ ("block_ip", (true, "Remove the IP from the block list."))
    ∷ ("quarantine_endpoint", (true, "Restore normal network access to the endpoint."))
    ∷ ("force_password_reset", (true, "No rollback needed; user sets a new password."))
    ∷ ("disable_forwarding_rule", (true, "Re-enable the forwarding rule."))
    ∷ ("revoke_api_key", (true, "Issue a new API key."))
    ∷ ("enrich_indicator", (true, "No system state changes."))
    ∷ ("tag_incident", (true, "Remove the tag."))
    ∷ ("notify", (true, "No system state changes."))
    ∷ ("open_ticket", (true, "Close the ticket."))
    ∷ ("rate_limit_ip", (true, "Remove the rate limit."))
    ∷ []

-- The five texts of `reasoning`.
abbrev pub quoted : String → String → String
quoted action_type rest = "'" <> (action_type <> ("'" <> rest))

abbrev pub destructive_or_irreversible : String → String
destructive_or_irreversible a =
    quoted a " is destructive or irreversible — human decision required, no exceptions."

abbrev pub escalated_by_critical : String → String
escalated_by_critical a =
    quoted a " is normally one-tap, escalated to human-only due to CRITICAL severity."

abbrev pub one_tap : String → String
one_tap a = quoted a " is reversible but changes access/connectivity — one-tap approval."

abbrev pub read_only : String → String
read_only a = quoted a " is read-only / low blast radius — auto-approved."

abbrev pub unrecognized : String → String
unrecognized a = "Unrecognized action type " <> quoted a " — defaulting to human-only for safety."

pub record PolicyDecision : Type 0 where
  pub tier : AutonomyTier
  pub reversible : Bool
  pub rollback_plan : String
  pub reasoning : String

-- `ACTION_REVERSIBILITY.get(action_type, (False, …))`.
unfoldable pub reversibility : String → Bool × String
reversibility action_type = elim (lookup action_type action_reversibility) [
  | none ↦ (false, "Unknown action type — treated as irreversible until reviewed.")
  | some r ↦ r
]

-- The if-chain of `classify_action` over its four tests.
unfoldable pub tier_and_reasoning : String → Bool → Bool → Bool → Bool → AutonomyTier × String
tier_and_reasoning action_type in_tier3_or_irreversible in_tier2 critical in_tier1 =
    if in_tier3_or_irreversible
    then (AutonomyTier.tier3_human_only, destructive_or_irreversible action_type)
    else if in_tier2
    then (if critical
        then (AutonomyTier.tier3_human_only, escalated_by_critical action_type)
        else (AutonomyTier.tier2_one_tap, one_tap action_type))
    else if in_tier1
    then (AutonomyTier.tier1_auto, read_only action_type)
    else (AutonomyTier.tier3_human_only, unrecognized action_type)

unfoldable pub classify_action : String → Severity → PolicyDecision
unfolding tier_and_reasoning
classify_action action_type severity =
    let (reversible, rollback_plan) = reversibility action_type in
    let (tier, reasoning) =
      tier_and_reasoning action_type (contains tier3_actions action_type || not reversible)
        (contains tier2_actions action_type) (is_critical severity)
        (contains tier1_actions action_type) in
    record {
      tier = tier;
      reversible = reversible;
      rollback_plan = rollback_plan;
      reasoning = reasoning;
    }

-- The keyword arguments of `severity_from_signals`.
pub record Signals : Type 0 where
  pub failed_login_count : ℕ
  pub malicious_indicator : Bool
  pub new_admin_activity : Bool
  pub impossible_travel : Bool
  pub malware_detected : Bool

-- The additions to `score`, in the order of the source.
unfoldable pub score : Signals → ℕ
score s =
    (if leb 20 s.failed_login_count then 2 else if leb 5 s.failed_login_count then 1 else 0)
    + (if s.malicious_indicator then 2 else 0)
    + (if s.malware_detected then 2 else 0)
    + (if s.new_admin_activity then 1 else 0)
    + (if s.impossible_travel then 3 else 0)

unfoldable pub severity_from_signals : Signals → Severity
unfolding score
severity_from_signals s =
    let n = score s in
    if leb 4 n
    then Severity.critical
    else if n == 3
    then Severity.high
    else if leb 1 n
    then Severity.medium
    else Severity.low
