-- ===== src/Guardian.antt =====
-- backend/app/agents/guardian.py: the second look at every proposed action, and the connectors that
-- have gone quiet. The health that backend/app/routers/overview.py shows stands beside it.
pub mod Agreement
mod Tests
use sentri_mesh_astra.Prelude.{
  ℕ, ◌+◌, ◌-◌, ◌*◌, Bool, true, false, ◌&&◌, Option, none, some, List, [], ◌∷◌, ltb, if◌then◌else◌,
  keep, first, Action, gets, pure, ◌>>=◌, ◌>>◌,
}
use sentri_mesh_astra.Models.{Severity, AutonomyTier, ActionProposal, ConnectorConfig}
use sentri_mesh_astra.Policy.{PolicyDecision, classify_action}
use sentri_mesh_astra.Bus.{Bus, Message, Alert, publish}
use sentri_mesh_astra.System.{System, proposal_is, publish_in}

-- `recheck.tier != proposal.tier`
abbrev pub tier_eq : AutonomyTier → AutonomyTier → Bool
tier_eq AutonomyTier.tier1_auto AutonomyTier.tier1_auto = true
tier_eq AutonomyTier.tier2_one_tap AutonomyTier.tier2_one_tap = true
tier_eq AutonomyTier.tier3_human_only AutonomyTier.tier3_human_only = true
tier_eq _ _ = false

-- `Severity(payload.get("severity")) if payload.get("severity") else Severity.LOW`
abbrev pub severity_or_low : Option Severity → Severity
severity_or_low none = Severity.low
severity_or_low (some s) = s

module _ {F : Type 0} where
  unfoldable pub recheck : ℕ → ℕ → Severity → ℕ → Option ActionProposal → Action (System F) Unit
  recheck tenant_id proposal_id severity now none = pure tt
  recheck tenant_id proposal_id severity now (some p) =
      let tier = (classify_action p.action_type severity).tier in
      if tier_eq tier p.tier
      then pure tt
      else publish_in "guardian" (some tenant_id)
          (Message.guardian_alert tenant_id (Alert.tier_mismatch proposal_id p.tier tier)) now

  -- `on_action_proposed`
  unfoldable pub on_action_proposed : ℕ → ℕ → Option Severity → ℕ → Action (System F) Unit
  on_action_proposed tenant_id proposal_id severity now = do
    found ← gets (λ s. first (proposal_is proposal_id) s.proposals)
    recheck tenant_id proposal_id (severity_or_low severity) now found

-- `CONNECTOR_STALE_AFTER`, in seconds.
abbrev pub stale_after : ℕ
stale_after = 6 * 60 * 60

-- `connector.last_event_at and connector.last_event_at < threshold`
unfoldable pub is_stale : ℕ → ConnectorConfig → Bool
is_stale now c = elim c.last_event_at [ none ↦ false | some t ↦ ltb (t + stale_after) now ]

-- The connectors that `check_connector_health` returns.
unfoldable pub stale_connectors : ℕ → List ConnectorConfig → List ConnectorConfig
stale_connectors now cs = keep (λ c. c.is_active && is_stale now c) cs

abbrev pub stale_alert : ConnectorConfig → Message
stale_alert c =
    Message.guardian_alert c.tenant_id
      (Alert.connector_stale c.id c.connector_type (elim c.last_event_at [ none ↦ 0 | some t ↦ t ]))

publish_alerts : ℕ → List ConnectorConfig → Bus → Bus
publish_alerts now [] b = b
publish_alerts now (c ∷ cs) b =
    publish_alerts now cs (publish "guardian" (some c.tenant_id) (stale_alert c) now b)

-- `check_connector_health`: an alert for each, in order.
unfoldable pub check_connector_health : ℕ → List ConnectorConfig → Bus → List ConnectorConfig × Bus
unfolding publish_alerts
check_connector_health now cs b =
    let gaps = stale_connectors now cs in (gaps, publish_alerts now gaps b)

-- `"healthy"` of the overview: `None` for a connector that has sent nothing.
unfoldable pub healthy : ℕ → ConnectorConfig → Option Bool
healthy now c = elim c.last_event_at [ none ↦ none | some t ↦ some (ltb (now - t) stale_after) ]
