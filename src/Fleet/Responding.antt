-- ===== src/Fleet/Responding.antt =====
-- The same of the response agent and the guardian: backend/app/agents/response.py and guardian.py.
use sentri_mesh_astra.Prelude.{
  ℕ, ◌+◌, ◌≤◌, String, inl, inr, Bool, true, false, Option, none, some, [], ◌∷◌, ◌++◌, arith,
  str_eq, if◌then◌else◌, Bool-cases, any, first, update_first, modify, and_then, ◌>>◌, Result, ok,
  err,
}
use sentri_mesh_astra.Json.{Fields}
use sentri_mesh_astra.Models.{is_tier1, Severity, ActionProposal}
use sentri_mesh_astra.Bus.{Message, Alert, audit}
use sentri_mesh_astra.System.{System, publish_in, audit_in, proposal_is}
use sentri_mesh_astra.Executor.{ExecutionResult, Host, execute_with}
use sentri_mesh_astra.Response.{
  mark_executed, proposal_of, State, on_firewall, run_executor, audit_blocked, execute_found,
  execute, request_approval, on_classified_incident, result_fields,
}
use sentri_mesh_astra.Guardian.{severity_or_low, recheck, on_action_proposed}
use sentri_mesh_astra.Policy.{classify_action}
use sentri_mesh_astra.Fleet.Load.{weight, Adds, bind-Adds, system_load, bus_load-publish}

module _ (host : Host) (enabled : Bool) where
  publish_in-Adds :
      {F : Type 0} (actor : String) (tenant : Option ℕ) (m : Message) (now : ℕ)
      → Adds (system_load {F = F}) (weight m) (publish_in actor tenant m now)
  unfolding publish_in
  publish_in-Adds actor tenant m now s = omega (arith, bus_load-publish actor tenant m now s.bus)

  ran-Adds :
      (now : ℕ) (p : ActionProposal) (r : Result ExecutionResult) (s : State host enabled)
      → system_load
          (and_then
            (λ r.
              modify (λ s. record s {
                proposals = update_first (proposal_is p.id) (mark_executed r now) s.proposals;
              })
              >> publish_in "response"
                  (some p.tenant_id)
                  (Message.action_executed p.tenant_id p.id (result_fields r))
                  now)
            (r, s)).1
        ≤ system_load s + 1
  unfolding publish_in
  ran-Adds now p (ok r) s = omega (
    arith,
    bus_load-publish "response" (some p.tenant_id)
        (Message.action_executed p.tenant_id p.id (result_fields r)) now s.bus,
  )
  ran-Adds now p (err e) s = omega arith

  run_executor-Adds :
      (now : ℕ) (p : ActionProposal) → Adds system_load 1 (run_executor host enabled now p)
  unfolding run_executor on_firewall
  run_executor-Adds now p s =
      let (r, f) = execute_with host enabled p.action_type p.parameters s.firewall in
      ran-Adds now p r (record s { firewall = f })

  execute_found-Adds :
      (now : ℕ) (found : Option ActionProposal)
      → Adds system_load 1 (execute_found host enabled now found)
  unfolding execute_found audit_blocked audit_in audit
  execute_found-Adds now none s = omega arith
  execute_found-Adds now (some p) s = ground (arith, run_executor-Adds now p s)

  execute-Adds : (now k : ℕ) → Adds system_load 1 (execute host enabled now k)
  unfolding execute
  execute-Adds now k s = execute_found-Adds now (first (proposal_is k) s.proposals) s

  request_approval-Adds :
      (now k : ℕ) (p : ActionProposal) → Adds system_load 1 (request_approval host enabled now k p)
  unfolding request_approval
  request_approval-Adds now k p s = ground arith

  recheck-Adds :
      (tenant_id k : ℕ) (severity : Severity) (now : ℕ) (found : Option ActionProposal)
      → Adds (system_load {F = host.Firewall}) 1 (recheck tenant_id k severity now found)
  unfolding recheck
  recheck-Adds tenant_id k severity now none s = omega arith
  recheck-Adds tenant_id k severity now (some p) s =
      let tier = (classify_action p.action_type severity).tier in
      ground (
        arith,
        publish_in-Adds "guardian" (some tenant_id)
            (Message.guardian_alert tenant_id (Alert.tier_mismatch k p.tier tier)) now s,
      )

  pub on_action_proposed-Adds :
      (tenant_id k : ℕ) (severity : Option Severity) (now : ℕ)
      → Adds (system_load {F = host.Firewall}) 1 (on_action_proposed tenant_id k severity now)
  unfolding on_action_proposed
  on_action_proposed-Adds tenant_id k severity now s =
      recheck-Adds tenant_id k (severity_or_low severity) now (first (proposal_is k) s.proposals) s

  -- The proposal is announced, and then executed or put to a person.
  decided-Adds :
      (b : Bool) (now approval_id : ℕ) (p : ActionProposal)
      → Adds system_load 1 (
          if b
          then execute host enabled now p.id
          else request_approval host enabled now approval_id p)
  decided-Adds true now approval_id p s = execute-Adds now p.id s
  decided-Adds false now approval_id p s = request_approval-Adds now approval_id p s

  pub on_classified_incident-Adds :
      (now id approval_id tenant_id k : ℕ) (severity : Severity) (action : Option String)
      (context : Fields)
      → Adds system_load 3 (
          on_classified_incident host enabled now id approval_id tenant_id k severity action
            context)
  unfolding on_classified_incident
  on_classified_incident-Adds now id approval_id tenant_id k severity none context s = omega arith
  on_classified_incident-Adds now id approval_id tenant_id k severity (some a) context s =
      let p = proposal_of id tenant_id k a severity context now in
      let added : System host.Firewall = record s { proposals = s.proposals ++ p ∷ [] } in
      let announce =
        publish_in "response" (some tenant_id) (Message.action_proposed tenant_id id severity)
          now in
      let act = λ (_ : Unit {0}).
        if is_tier1 p.tier
        then execute host enabled now id
        else request_approval host enabled now approval_id p in
      let after =
        bind-Adds system_load 2 1 announce act
          (publish_in-Adds "response" (some tenant_id)
            (Message.action_proposed tenant_id id severity) now)
          (λ _. decided-Adds (is_tier1 p.tier) now approval_id p) added in
      elim (Bool-cases (str_eq a "")) [
        | inl empty ↦ rw empty (omega arith)
        | inr real ↦ elim (Bool-cases (any (proposal_is id) s.proposals)) [
          | inl taken ↦ rw (real, taken) (omega arith)
          | inr free ↦ rw (real, free) after
        ]
      ]
