-- ===== src/Control/Refused.antt =====
-- What is answered with an HTTP error has changed nothing: the routes of backend/app/routers/approvals.py,
-- tenants.py and actions.py, down to backend/app/connectors/executor.py.
use sentri_mesh_astra.Executor.Raising.{
  NoHttp, bind-NoHttp, pure-NoHttp, if-NoHttp, execute_with-NoHttp, rollback_with-NoHttp,
}
use sentri_mesh_astra.Prelude.{
  ℕ, String, ◌≡◌, refl, Bool, true, false, not, ◌&&◌, Option, none, some, arith, str_eq,
  if◌then◌else◌, any, first, Action, pure, raise_if, and_then, ◌>>=◌, ◌>>◌, Error, Result, ok, err,
  http, exception,
}
use sentri_mesh_astra.System.{audit_in, publish_in, tenant_is, proposal_is}
use sentri_mesh_astra.Response.{
  is_engaged, on_classified_incident, request_approval, approval_has, proposal_of, run_executor,
  run_rollback, audit_blocked, rollback, execute_found, State, on_firewall, rollback_found, execute,
}
use sentri_mesh_astra.Control.{
  Event, handle, set_kill_switch, rollback_action, proposal_of_tenant, approval_is, has_access,
  or_404, check_tenant_access, decide_approval, resolve,
}
use sentri_mesh_astra.Models.{
  is_tier1, ActionProposal, ApprovalRequest, User, is_pending, is_admin, Severity,
}
use sentri_mesh_astra.Json.{Fields}
use sentri_mesh_astra.Executor.{ExecutionResult, Host, execute_with, rollback_with}

module _ (host : Host) (enabled : Bool) where
  abbrev Clean : {A : Type 0} → Action (State host enabled) A → Type 0
  Clean m = NoHttp m

  zoomed :
      (m : Action host.Firewall ExecutionResult) → NoHttp m → Clean (on_firewall host enabled m)
  unfolding on_firewall
  zoomed m clean s code = clean s.firewall code

  execute_found-NoHttp :
      (now : ℕ) (found : Option ActionProposal) → Clean (execute_found host enabled now found)
  unfolding execute_found audit_blocked audit_in run_executor publish_in
  execute_found-NoHttp now none = pure-NoHttp tt
  execute_found-NoHttp now (some p) = if-NoHttp p.executed _ _ (pure-NoHttp tt) (λ s code.
      if-NoHttp (is_engaged (first (tenant_is p.tenant_id) s.tenants)) _ _ (λ s code e. cc)
        (bind-NoHttp
          (on_firewall host enabled (execute_with host enabled p.action_type p.parameters)) _
          (zoomed _ (execute_with-NoHttp host enabled p.action_type p.parameters))
          (λ r s code e. cc))
        s code)

  execute-NoHttp : (now k : ℕ) → Clean (execute host enabled now k)
  unfolding execute
  execute-NoHttp now k s = execute_found-NoHttp now (first (proposal_is k) s.proposals) s

  rollback_found-NoHttp :
      (now : ℕ) (found : Option ActionProposal) → Clean (rollback_found host enabled now found)
  unfolding rollback_found run_rollback audit_in
  rollback_found-NoHttp now none = pure-NoHttp _
  rollback_found-NoHttp now (some p) = if-NoHttp (not p.executed) _ _ (pure-NoHttp _) (
      bind-NoHttp (on_firewall host enabled (rollback_with host enabled p.action_type p.parameters))
        _ (zoomed _ (rollback_with-NoHttp host enabled p.action_type p.parameters))
        (λ r s code e. cc))

  rollback-NoHttp : (now k : ℕ) → Clean (rollback host enabled now k)
  unfolding rollback
  rollback-NoHttp now k s = rollback_found-NoHttp now (first (proposal_is k) s.proposals) s

  -- An HTTP error comes before any change.
  abbrev Refuses : {A : Type 0} → Action (State host enabled) A → Type 0
  Refuses m = (s : State host enabled) (code : ℕ) → (m s).0 ≡ err (http code) → (m s).1 ≡ s

  Clean-Refuses : {A : Type 0} (m : Action (State host enabled) A) → Clean m → Refuses m
  Clean-Refuses m clean s code e = absurd (clean s code e)

  raise_if-Refuses :
      {A : Type 0} (b : Bool) (x : Error) (k : Action (State host enabled) A)
      → Refuses k
      → Refuses (raise_if b x >> k)
  raise_if-Refuses true x k rest s code e = refl
  raise_if-Refuses false x k rest s code e = rest s code e

  or_404-Refuses :
      {A B : Type 0} (found : Option A) (k : A → Action (State host enabled) B)
      → ((a : A) → Refuses (k a))
      → Refuses (or_404 found >>= k)
  or_404-Refuses none k rest s code e = refl
  or_404-Refuses (some a) k rest s code e = rest a s code e

  done-Refuses :
      {A : Type 0} (s : State host enabled) (code : ℕ) (out : Result A × State host enabled)
      → (out.0 ≡ err (http code) → out.1 ≡ s)
      → (and_then (λ _. pure tt) out).0 ≡ err (http code)
      → (and_then (λ _. pure tt) out).1 ≡ s
  done-Refuses s code (ok a, u) h e = cc
  done-Refuses s code (err x, u) h e = h (ground (arith, e))

  resolve-NoHttp :
      (user : User) (t j : ℕ) (approve : Bool) (note : String) (now : ℕ) (a : ApprovalRequest)
      → Clean (resolve host enabled user t j approve note now a)
  unfolding resolve publish_in
  resolve-NoHttp user t j approve note now a s =
      bind-NoHttp (if approve then execute host enabled now a.action_proposal_id else pure tt) _
        (if-NoHttp approve _ _ (execute-NoHttp now a.action_proposal_id) (pure-NoHttp tt))
        (λ r s code e. cc) _

  decide-Refuses :
      (user : User) (t j : ℕ) (approve : Bool) (note : String) (now : ℕ)
      → Refuses (decide_approval host enabled user t j approve note now)
  unfolding decide_approval check_tenant_access
  decide-Refuses user t j approve note now =
      raise_if-Refuses (not (has_access user t)) (http 403) _ (λ s.
        or_404-Refuses (first (approval_is j t) s.approvals) _
          (λ a.
            raise_if-Refuses (not (is_pending a.status)) (http 400) _
              (Clean-Refuses _ (resolve-NoHttp user t j approve note now a)))
          s)

  switch-Refuses :
      (user : User) (t : ℕ) (engaged : Bool) (reason : Option String) (now : ℕ)
      → Refuses (set_kill_switch host enabled user t engaged reason now)
  unfolding set_kill_switch check_tenant_access publish_in
  switch-Refuses user t engaged reason now =
      raise_if-Refuses (not (has_access user t)) (http 403) _ (
        raise_if-Refuses (not engaged && not (is_admin user.role)) (http 403) _
          (λ s. or_404-Refuses (first (tenant_is t) s.tenants) _ (λ u s code e. cc) s))

  rollback-Refuses :
      (user : User) (t j now : ℕ) → Refuses (rollback_action host enabled user t j now)
  unfolding rollback_action check_tenant_access
  rollback-Refuses user t j now = raise_if-Refuses (not (has_access user t)) (http 403) _ (λ s.
      or_404-Refuses (first (proposal_of_tenant j t) s.proposals) _
        (λ p. raise_if-Refuses (not p.reversible) (http 400) _ (
          Clean-Refuses _ (
            bind-NoHttp (rollback host enabled now j) _ (rollback-NoHttp now j)
              (λ r s code e. cc))))
        s)

  proposed-NoHttp :
      (now id approval_id t j : ℕ) (sev : Severity) (action : Option String) (context : Fields)
      → Clean (on_classified_incident host enabled now id approval_id t j sev action context)
  unfolding on_classified_incident publish_in request_approval
  proposed-NoHttp now id approval_id t j sev none context = pure-NoHttp tt
  proposed-NoHttp now id approval_id t j sev (some a) context =
      let p = proposal_of id t j a sev context now in
      if-NoHttp (str_eq a "") _ _ (pure-NoHttp tt) (λ s.
        bind-NoHttp (raise_if (any (proposal_is id) s.proposals) exception) _
          (raised (any (proposal_is id) s.proposals))
          (λ r s.
            if-NoHttp (is_tier1 p.tier) _ _ (execute-NoHttp now p.id)
              (λ s.
                bind-NoHttp (raise_if (any (approval_has approval_id) s.approvals) exception) _
                  (raised (any (approval_has approval_id) s.approvals)) (λ r s code e. cc) s)
              _)
          s)
    where
      raised : (b : Bool) → Clean (raise_if b exception)
      raised true s code e = cc
      raised false s code e = cc

  -- A request that is answered with an HTTP error, be it 400, 403 or 404, has changed nothing: no row, no
  -- message, no entry of the audit log and no rule of the firewall. This is so for a decision about an
  -- approval, for the kill switch and for a rollback, and the handler of classified incidents raises no such
  -- error.
  pub handle_refused :
      (now : ℕ) (e : Event) (s : State host enabled) (code : ℕ)
      → (handle host enabled now e s).0 ≡ err (http code)
      → (handle host enabled now e s).1 ≡ s
  unfolding handle
  handle_refused now (Event.classified id approval_id t j sev action context) s code e =
      absurd (proposed-NoHttp now id approval_id t j sev action context s code e)
  handle_refused now (Event.decide user t j approve note) s code e =
      done-Refuses s code (decide_approval host enabled user t j approve note now s)
        (decide-Refuses user t j approve note now s code) e
  handle_refused now (Event.kill_switch user t engaged reason) s code e =
      done-Refuses s code (set_kill_switch host enabled user t engaged reason now s)
        (switch-Refuses user t engaged reason now s code) e
  handle_refused now (Event.roll_back user t j) s code e =
      done-Refuses s code (rollback_action host enabled user t j now s)
        (rollback-Refuses user t j now s code) e
