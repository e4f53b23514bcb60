-- ===== src/Control/Safety/Requests.antt =====
-- The requests of people keep a stable predicate; so does every event.
use sentri_mesh_astra.Prelude.{
  ℕ, String, ◌≡◌, subst, Bool, true, not, some, List, [], ◌∷◌, arith, if◌then◌else◌, ==_iff,
  ==_self, any, first, first-passes, update_first, pure, >>=_keeps, if_keeps, raise_if_keeps, http,
}
use sentri_mesh_astra.Models.{User, Tenant, ActionProposal, ApprovalRequest, is_pending}
use sentri_mesh_astra.System.{proposal_is, publish_in}
use sentri_mesh_astra.Bus.{Message, publish}
use sentri_mesh_astra.Executor.{Host}
use sentri_mesh_astra.Response.{State, execute, rollback}
use sentri_mesh_astra.Control.{
  proposal_of_tenant, has_access, check_tenant_access, approval_is, decided, resolve,
  decide_approval, rollback_action,
}
use sentri_mesh_astra.Control.Safety.Stable.{or_404_keeps, IsStable, approves, is_allowed}
use sentri_mesh_astra.Control.Safety.Steps.{Good, execute-Good, rollback-Good, All-resolved}

module _ (host : Host) (enabled : Bool) (ts : List Tenant)
    (good : List ApprovalRequest → ActionProposal → Bool) (g : IsStable ts good) where
  abbrev AllGood : State host enabled → Type 0
  AllGood = Good host enabled ts good g

  -- What `decide_approval` found is approved by a person once it is resolved.
  approves_resolved :
      (rs : List ApprovalRequest) (user : User) (test : ApprovalRequest → Bool) (note : String)
      (now : ℕ) (a : ApprovalRequest)
      → first test rs ≡ some a
      → any (approves a.action_proposal_id) (update_first test (decided user true note now) rs)
        ≡ true
  approves_resolved [] user test note now a found = cc
  approves_resolved (x ∷ rs) user test note now a found =
      ground (arith, approves_resolved rs user test note now a, ==_self a.action_proposal_id)

  decided_allowed :
      (rs : List ApprovalRequest) (ps : List ActionProposal) (user : User)
      (test : ApprovalRequest → Bool) (approve : Bool) (note : String) (now : ℕ)
      (a : ApprovalRequest) (q : ActionProposal)
      → approve ≡ true
      → first test rs ≡ some a
      → first (proposal_is a.action_proposal_id) ps ≡ some q
      → is_allowed (update_first test (decided user approve note now) rs) q ≡ true
  decided_allowed rs ps user test approve note now a q yes_case found at_key =
      let same : q.id ≡ a.action_proposal_id =
        (==_iff q.id a.action_proposal_id).0
          (first-passes (proposal_is a.action_proposal_id) ps q at_key) in
      rw yes_case (rw same (ground (arith, approves_resolved rs user test note now a found)))

  resolve-Good :
      (user : User) (t k : ℕ) (approve : Bool) (note : String) (now : ℕ) (a : ApprovalRequest)
      (s : State host enabled)
      → first (approval_is k t) s.approvals ≡ some a
      → is_pending a.status ≡ true
      → AllGood s
      → AllGood (resolve host enabled user t k approve note now a s).1
  unfolding resolve publish_in
  resolve-Good user t k approve note now a s found open_ h =
      let pending : (b : ApprovalRequest)
          → first (approval_is k t) s.approvals ≡ some b
          → is_pending b.status ≡ true =
        λ b e.
          let a_b : a ≡ b = cc (found, e) in subst (λ x. is_pending x.status ≡ true) a_b open_ in
      let rs = update_first (approval_is k t) (decided user approve note now) s.approvals in
      let s' : State host enabled = record s {
        approvals = rs;
        bus =
            publish user.email (some t)
              (if approve
                then Message.action_approved t a.id a.action_proposal_id user.email
                else Message.action_denied t a.id a.action_proposal_id user.email)
              now s.bus;
      } in
      let h' : AllGood s' = (
        All-resolved host enabled ts good g s.approvals user (approval_is k t) approve note now
            s.proposals pending h.0,
        h.1,
      ) in
      >>=_keeps AllGood (if approve then execute host enabled now a.action_proposal_id else pure tt)
        _ s'
        (if_keeps (λ m. AllGood (m s').1) approve (execute host enabled now a.action_proposal_id)
          (pure tt)
          (λ yes_case.
            execute-Good host enabled ts good g now a.action_proposal_id s'
              (λ q at_key.
                decided_allowed s.approvals s.proposals user (approval_is k t) approve note now a q
                  yes_case found at_key)
              h')
          (λ no_case. h'))
        (λ x e kept. kept)

  pub decide_approval-Good :
      (user : User) (t k : ℕ) (approve : Bool) (note : String) (now : ℕ) (s : State host enabled)
      → AllGood s
      → AllGood (decide_approval host enabled user t k approve note now s).1
  unfolding decide_approval check_tenant_access
  decide_approval-Good user t k approve note now s h =
      raise_if_keeps AllGood (not (has_access user t)) (http 403) _ s h (λ allowed.
        or_404_keeps AllGood (first (approval_is k t) s.approvals) _ s h (λ a found.
          raise_if_keeps AllGood (not (is_pending a.status)) (http 400) _ s h
            (λ open_. resolve-Good user t k approve note now a s found (ground arith) h)))

  pub rollback_action-Good :
      (user : User) (t k now : ℕ) (s : State host enabled)
      → AllGood s
      → AllGood (rollback_action host enabled user t k now s).1
  unfolding rollback_action check_tenant_access
  rollback_action-Good user t k now s h =
      raise_if_keeps AllGood (not (has_access user t)) (http 403) _ s h (λ allowed.
        or_404_keeps AllGood (first (proposal_of_tenant k t) s.proposals) _ s h (λ p found.
          raise_if_keeps AllGood (not p.reversible) (http 400) _ s h (λ reversible.
            >>=_keeps AllGood (rollback host enabled now k) _ s
              (rollback-Good host enabled ts good g now k s h) (λ x e kept. kept))))
