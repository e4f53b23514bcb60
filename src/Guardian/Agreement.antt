-- ===== src/Guardian/Agreement.antt =====
-- The guardian agrees with the response agent, and with the overview but for one instant:
-- backend/app/agents/guardian.py, response.py and backend/app/routers/overview.py.
use sentri_mesh_astra.Prelude.{
  ℕ, ◌+◌, ◌-◌, String, ◌≡◌, refl, Bool, true, false, not, ◌&&◌, ◌||◌, Option, none, some, List, [],
  ◌∷◌, arith, ltb, ◌==◌, any, first, first-passes, All, All-first, ok,
}
use sentri_mesh_astra.Json.{Fields}
use sentri_mesh_astra.Models.{
  Tenant, Severity, AutonomyTier, ActionProposal, ApprovalRequest, ConnectorConfig,
}
use sentri_mesh_astra.Executor.{Host}
use sentri_mesh_astra.Policy.{classify_action}
use sentri_mesh_astra.System.{proposal_is}
use sentri_mesh_astra.Response.{State, on_classified_incident}
use sentri_mesh_astra.Control.Safety.Stable.{IsStable}
use sentri_mesh_astra.Control.Safety.Steps.{Good, classified-Good}
use sentri_mesh_astra.Guardian.{
  tier_eq, recheck, on_action_proposed, is_stale, healthy, stale_after,
}

-- The proposal under this key has the tier that its action type has at this severity.
abbrev agrees : ℕ → Severity → List ApprovalRequest → ActionProposal → Bool
agrees k sev rs p = not (p.id == k) || tier_eq (classify_action p.action_type sev).tier p.tier

agrees-IsStable : (k : ℕ) (sev : Severity) (ts : List Tenant) → IsStable ts (agrees k sev)
agrees-IsStable k sev ts = record {
  rolled = λ rs p r h. h;
  runs = λ rs p r now free may old. old;
  added = λ rs p a h. h;
  resolved = λ rs p user test approve note now pending h. h;
}

tier_eq_self : (t : AutonomyTier) → tier_eq t t ≡ true
tier_eq_self t = ground arith

All-new :
    (k : ℕ) (sev : Severity) (rs : List ApprovalRequest) (ps : List ActionProposal)
    → any (proposal_is k) ps ≡ false
    → All (λ p. agrees k sev rs p ≡ true) ps
All-new k sev rs [] h = tt
All-new k sev rs (p ∷ ps) h = (ground arith, All-new k sev rs ps (ground arith))

module _ (host : Host) (enabled : Bool) where
  recheck_silent :
      (later t k : ℕ) (sev : Severity) (s : State host enabled) (o : Option ActionProposal)
      → first (proposal_is k) s.proposals ≡ o
      → All (λ p. agrees k sev s.approvals p ≡ true) s.proposals
      → recheck t k sev later o s ≡ (ok tt, s)
  unfolding recheck
  recheck_silent later t k sev s none found good = refl
  recheck_silent later t k sev s (some p) found good =
      let here : (p.id == k) ≡ true = first-passes (proposal_is k) s.proposals p found in
      let fine : agrees k sev s.approvals p ≡ true =
        All-first (λ x. agrees k sev s.approvals x ≡ true) (proposal_is k) s.proposals p good
          found in
      let same : tier_eq (classify_action p.action_type sev).tier p.tier ≡ true = ground arith in
      rw same

  -- The guardian looks at what the response agent has just proposed under a new key, at the severity
  -- of its message, and finds nothing to report, whatever the action type, and whether or not the
  -- action has been executed since.
  pub on_action_proposed_agrees :
      (now later k approval_id t i : ℕ) (sev : Severity) (a : Option String) (c : Fields)
      (s : State host enabled)
      → any (proposal_is k) s.proposals ≡ false
      → let s' = (on_classified_incident host enabled now k approval_id t i sev a c s).1 in
        on_action_proposed t k (some sev) later s' ≡ (ok tt, s')
  unfolding on_action_proposed
  on_action_proposed_agrees now later k approval_id t i sev a c s new =
      let s' = (on_classified_incident host enabled now k approval_id t i sev a c s).1 in
      let good : Good host enabled s.tenants (agrees k sev) (agrees-IsStable k sev s.tenants) s' =
        classified-Good host enabled s.tenants (agrees k sev) (agrees-IsStable k sev s.tenants) now
          k approval_id t i sev a c s
          (λ b e. ground (arith, tier_eq_self (classify_action b sev).tier))
          (All-new k sev s.approvals s.proposals new, refl) in
      recheck_silent later t k sev s' (first (proposal_is k) s'.proposals) refl good.0

boundary :
    (now t : ℕ)
    → some (ltb (now - t) stale_after)
      ≡ some (not (ltb (t + stale_after) now) && not (now == t + stale_after))
boundary now t = ground arith

-- A connector that has sent an event is healthy on the overview exactly if it is not stale for the
-- guardian and its last event is not exactly six hours old: at that instant the overview shows it as
-- unhealthy and the guardian does not report it.
pub healthy_iff_not_stale :
    (now t : ℕ) (c : ConnectorConfig)
    → c.last_event_at ≡ some t
    → healthy now c ≡ some (not (is_stale now c) && not (now == t + stale_after))
unfolding healthy is_stale
healthy_iff_not_stale now t c h = rw h (boundary now t)
