-- ===== src/Fleet/Outcome/Kept.antt =====
-- No message takes away what is owed to an incident, or what has been done for it.
use sentri_mesh_astra.Prelude.{
  ℕ, ◌<◌, String, ◌≡◌, refl, inl, inr, Bool, true, false, Option, none, some, List, [], ◌∷◌, ◌++◌,
  str_eq, if◌then◌else◌, Bool-cases, any, first, All-append, update_first, All-update_first, Action,
  modify, ◌>>◌, >>=_keeps, if_keeps,
}
use sentri_mesh_astra.Json.{Fields}
use sentri_mesh_astra.Models.{is_tier1, Severity, ActionProposal}
use sentri_mesh_astra.Bus.{Message, Alert, publish, audit}
use sentri_mesh_astra.System.{publish_in, audit_in, proposal_is, tenant_is}
use sentri_mesh_astra.Executor.{Host, ExecutionResult, execute_with}
use sentri_mesh_astra.Response.{
  approval_has, State, on_firewall, run_executor, audit_blocked, execute_found, execute,
  request_approval, on_classified_incident, is_engaged, result_fields, mark_executed, proposal_of,
}
use sentri_mesh_astra.Guardian.{recheck, on_action_proposed, severity_or_low, tier_eq}
use sentri_mesh_astra.Policy.{classify_action}
use sentri_mesh_astra.Fleet.Lasting.{is_event}
use sentri_mesh_astra.Fleet.Outcome.{IsGrowing, SystemHolds, HasFreshIds}

module _ (host : Host) (enabled : Bool) (k : ℕ) (Q : List Message → List ActionProposal → Type 0)
    (g : IsGrowing Q) (n : ℕ) where
  abbrev KeepsSystem : {A : Type 0} → Action (State host enabled) A → Type 0
  KeepsSystem m = (s : State host enabled) → SystemHolds k Q n s → SystemHolds k Q n (m s).1

  publish_in-Keeps :
      (actor : String) (t : Option ℕ) (m : Message) (now : ℕ)
      → is_event m ≡ false
      → KeepsSystem (publish_in actor t m now)
  unfolding publish_in publish audit
  publish_in-Keeps actor t m now quiet s h =
      (h.0, h.1, g.published s.bus.delivered m s.proposals quiet h.2)

  HasFreshIds-marked :
      (j : ℕ) (r : ExecutionResult) (now : ℕ) (ps : List ActionProposal)
      → HasFreshIds n ps
      → HasFreshIds n (update_first (proposal_is j) (mark_executed r now) ps)
  HasFreshIds-marked j r now ps h =
      All-update_first (λ p. p.id < n) (proposal_is j) (mark_executed r now) ps (λ p found own. own)
        h

  run_executor-Keeps :
      (now : ℕ) (p : ActionProposal) → KeepsSystem (run_executor host enabled now p)
  unfolding run_executor on_firewall
  run_executor-Keeps now p s h =
      >>=_keeps (SystemHolds k Q n)
        (on_firewall host enabled (execute_with host enabled p.action_type p.parameters))
        (λ r.
          modify (λ s. record s {
            proposals = update_first (proposal_is p.id) (mark_executed r now) s.proposals;
          })
          >> publish_in "response" (some p.tenant_id)
              (Message.action_executed p.tenant_id p.id (result_fields r)) now)
        s h
        (λ r e kept.
          publish_in-Keeps "response" (some p.tenant_id)
            (Message.action_executed p.tenant_id p.id (result_fields r)) now refl _
            (kept.0, HasFreshIds-marked p.id r now _ kept.1, g.marked _ _ p.id r now kept.2))

  execute_found-Keeps :
      (now : ℕ) (found : Option ActionProposal) → KeepsSystem (execute_found host enabled now found)
  unfolding execute_found audit_blocked audit_in audit
  execute_found-Keeps now none s h = h
  execute_found-Keeps now (some p) s h =
      if_keeps (λ (m : Action (State host enabled) Unit). SystemHolds k Q n (m s).1) p.executed _ _
        (λ done. h)
        (λ open_.
          if_keeps (λ (m : Action (State host enabled) Unit). SystemHolds k Q n (m s).1)
            (is_engaged (first (tenant_is p.tenant_id) s.tenants)) _ _ (λ halted. h)
            (λ free. run_executor-Keeps now p s h))

  execute-Keeps : (now j : ℕ) → KeepsSystem (execute host enabled now j)
  unfolding execute
  execute-Keeps now j s h = execute_found-Keeps now (first (proposal_is j) s.proposals) s h

  request_approval-Keeps :
      (now j : ℕ) (p : ActionProposal) → KeepsSystem (request_approval host enabled now j p)
  unfolding request_approval
  request_approval-Keeps now j p s h = elim (Bool-cases (any (approval_has j) s.approvals)) [
    | inl taken ↦ rw taken h
    | inr free ↦ rw free h
  ]

  pub decided-Keeps :
      (b : Bool) (now approval_id : ℕ) (p : ActionProposal)
      → KeepsSystem (
          if b
          then execute host enabled now p.id
          else request_approval host enabled now approval_id p)
  decided-Keeps true now approval_id p s h = execute-Keeps now p.id s h
  decided-Keeps false now approval_id p s h = request_approval-Keeps now approval_id p s h

  recheck-Keeps :
      (t j : ℕ) (sev : Severity) (now : ℕ) (found : Option ActionProposal)
      → KeepsSystem (recheck t j sev now found)
  unfolding recheck
  recheck-Keeps t j sev now none s h = h
  recheck-Keeps t j sev now (some p) s h =
      let tier = (classify_action p.action_type sev).tier in
      if_keeps (λ (m : Action (State host enabled) Unit). SystemHolds k Q n (m s).1)
        (tier_eq tier p.tier) _ _ (λ same. h)
        (λ differ.
          publish_in-Keeps "guardian" (some t)
            (Message.guardian_alert t (Alert.tier_mismatch j p.tier tier)) now refl s h)

  pub on_action_proposed-Keeps :
      (t j : ℕ) (sev : Option Severity) (now : ℕ) → KeepsSystem (on_action_proposed t j sev now)
  unfolding on_action_proposed
  on_action_proposed-Keeps t j sev now s h =
      recheck-Keeps t j (severity_or_low sev) now (first (proposal_is j) s.proposals) s h

  -- The row of a proposal with a fresh id, its announcement, and what follows.
  abbrev announced : ℕ → ℕ → ActionProposal → Severity → Action (State host enabled) Unit
  announced now approval_id p sev =
      publish_in "response" (some p.tenant_id) (Message.action_proposed p.tenant_id p.id sev) now
      >> (if is_tier1 p.tier
          then execute host enabled now p.id
          else request_approval host enabled now approval_id p)

  pub announced-Keeps :
      (now approval_id : ℕ) (p : ActionProposal) (sev : Severity)
      → KeepsSystem (announced now approval_id p sev)
  announced-Keeps now approval_id p sev s h =
      >>=_keeps (SystemHolds k Q n)
        (publish_in "response" (some p.tenant_id) (Message.action_proposed p.tenant_id p.id sev)
          now)
        (λ _.
          if is_tier1 p.tier
          then execute host enabled now p.id
          else request_approval host enabled now approval_id p)
        s
        (publish_in-Keeps "response" (some p.tenant_id)
          (Message.action_proposed p.tenant_id p.id sev) now refl s h)
        (λ a e kept. decided-Keeps (is_tier1 p.tier) now approval_id p _ kept)

  pub on_classified_incident-Keeps :
      (now id approval_id t j : ℕ) (sev : Severity) (action : Option String) (context : Fields)
      → id < n
      → KeepsSystem (on_classified_incident host enabled now id approval_id t j sev action context)
  unfolding on_classified_incident
  on_classified_incident-Keeps now id approval_id t j sev none context fresh s h = h
  on_classified_incident-Keeps now id approval_id t j sev (some a) context fresh s h =
      let p = proposal_of id t j a sev context now in
      elim (Bool-cases (str_eq a "")) [
        | inl empty ↦ rw empty h
        | inr real ↦ elim (Bool-cases (any (proposal_is id) s.proposals)) [
          | inl taken ↦ rw (real, taken) h
          | inr free ↦
              rw (real, free)
                (announced-Keeps now approval_id p sev
                  (record s { proposals = s.proposals ++ p ∷ [] })
                  (
                    h.0,
                    All-append (λ q. q.id < n) s.proposals (p ∷ []) h.1 (fresh, tt),
                    g.proposed s.bus.delivered s.proposals p h.2,
                  ))
        ]
      ]
