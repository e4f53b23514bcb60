-- ===== src/Control/Routes.antt =====
-- What single requests do, on the branches of backend/app/routers/approvals.py, tenants.py and
-- actions.py and of `_execute` in backend/app/agents/response.py.
use sentri_mesh_astra.Prelude.{
  ℕ, String, ◌≡◌, refl, sym, subst, Bool, true, false, Option, some, ◌==◌, ==_iff, first,
  first-passes, update_first, first-update_first, ok, err, http, exception,
}
use sentri_mesh_astra.Models.{User, Tenant, ActionProposal, is_admin}
use sentri_mesh_astra.System.{tenant_is, proposal_is, publish_in}
use sentri_mesh_astra.Bus.{Message, publish}
use sentri_mesh_astra.Executor.{Host, ExecutionResult, execute_with}
use sentri_mesh_astra.Response.{
  State, is_engaged, mark_executed, on_firewall, run_executor, execute_found, execute,
  result_fields,
}
use sentri_mesh_astra.Control.{has_access, check_tenant_access, set_kill_switch}

module _ (host : Host) (enabled : Bool) where
  -- A security holder can engage the kill switch of the own tenant and cannot end it.
  pub set_kill_switch-holder :
      (user : User) (t now : ℕ) (reason : Option String) (u : Tenant) (s : State host enabled)
      → is_admin user.role ≡ false
      → has_access user t ≡ true
      → first (tenant_is t) s.tenants ≡ some u
      → (is_engaged
            (first (tenant_is t) (set_kill_switch host enabled user t true reason now s).1.tenants)
          ≡ true)
        × (set_kill_switch host enabled user t false reason now s ≡ (err (http 403), s))
  unfolding set_kill_switch check_tenant_access publish_in
  set_kill_switch-holder user t now reason u s holder access found = (
    rw access (
        rw found (
          rw (
            first-update_first (tenant_is t)
              (λ v. record v { kill_switch_engaged = true; kill_switch_reason = reason }) s.tenants
              u found (first-passes (tenant_is t) s.tenants u found)))),
    rw access (rw holder),
  )

  -- The state after an execution that went through.
  abbrev after_execution :
      ℕ → ActionProposal → ExecutionResult → State host enabled → State host enabled
  after_execution now p r s = record s {
    proposals = update_first (proposal_is p.id) (mark_executed r now) s.proposals;
    bus =
        publish "response" (some p.tenant_id)
          (Message.action_executed p.tenant_id p.id (result_fields r)) now s.bus;
    firewall = (execute_with host enabled p.action_type p.parameters s.firewall).1;
  }

  execute_effect :
      (now k : ℕ) (p : ActionProposal) (r : ExecutionResult) (s : State host enabled)
      → first (proposal_is k) s.proposals ≡ some p
      → p.executed ≡ false
      → is_engaged (first (tenant_is p.tenant_id) s.tenants) ≡ false
      → (execute_with host enabled p.action_type p.parameters s.firewall).0 ≡ ok r
      → execute host enabled now k s ≡ (ok tt, after_execution now p r s)
  unfolding execute execute_found run_executor on_firewall publish_in
  execute_effect now k p r s found waiting free done = simp (found, waiting, free, done)

  execute_done :
      (now k : ℕ) (p : ActionProposal) (s : State host enabled)
      → first (proposal_is k) s.proposals ≡ some p
      → p.executed ≡ true
      → execute host enabled now k s ≡ (ok tt, s)
  unfolding execute execute_found
  execute_done now k p s found done = simp (found, done)

  first_marked :
      (now k : ℕ) (p : ActionProposal) (r : ExecutionResult) (s : State host enabled)
      → first (proposal_is k) s.proposals ≡ some p
      → first (proposal_is k) (update_first (proposal_is p.id) (mark_executed r now) s.proposals)
        ≡ some (mark_executed r now p)
  first_marked now k p r s found =
      let here : (p.id == k) ≡ true = first-passes (proposal_is k) s.proposals p found in
      let same : p.id ≡ k = (==_iff p.id k).0 here in
      subst
        (λ j.
          first (proposal_is k) (update_first (proposal_is j) (mark_executed r now) s.proposals)
          ≡ some (mark_executed r now p))
        (sym same)
        (first-update_first (proposal_is k) (mark_executed r now) s.proposals p found here)

  -- An action runs at most once: after an execution that found the proposal waiting, free of the
  -- kill switch, and an executor that returned, the proposal is executed, and executing it again
  -- changes nothing at all.
  pub execute_once :
      (now later k : ℕ) (p : ActionProposal) (r : ExecutionResult) (s : State host enabled)
      → first (proposal_is k) s.proposals ≡ some p
      → p.executed ≡ false
      → is_engaged (first (tenant_is p.tenant_id) s.tenants) ≡ false
      → (execute_with host enabled p.action_type p.parameters s.firewall).0 ≡ ok r
      → let s' = (execute host enabled now k s).1 in
        (first (proposal_is k) s'.proposals ≡ some (mark_executed r now p))
        × (execute host enabled later k s' ≡ (ok tt, s'))
  execute_once now later k p r s found waiting free done =
      let e : execute host enabled now k s ≡ (ok tt, after_execution now p r s) =
        execute_effect now k p r s found waiting free done in
      let marked : first (proposal_is k) (after_execution now p r s).proposals
          ≡ some (mark_executed r now p) =
        first_marked now k p r s found in
      rw e (
        marked,
        execute_done later k (mark_executed r now p) (after_execution now p r s) marked refl,
      )

  -- An executor that raises leaves the proposal waiting, and nothing is published.
  pub execute_raises :
      (now k : ℕ) (p : ActionProposal) (s : State host enabled)
      → first (proposal_is k) s.proposals ≡ some p
      → p.executed ≡ false
      → is_engaged (first (tenant_is p.tenant_id) s.tenants) ≡ false
      → (execute_with host enabled p.action_type p.parameters s.firewall).0 ≡ err exception
      → let out = execute host enabled now k s in
        (out.0 ≡ err exception) × (out.1.proposals ≡ s.proposals) × (out.1.bus ≡ s.bus)
  unfolding execute execute_found run_executor on_firewall publish_in
  execute_raises now k p s found waiting free raised =
      simp (found, waiting, free, raised) (refl, refl, refl)
